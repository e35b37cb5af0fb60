-- ===== src/Mjai/Sound/Restart.antt =====
-- `InitNow` of a player that has blocks from an earlier hand: all are brought up to date.

use route_server.Prelude.{
  ℕ, ◌<◌, Option, some, List, [], ◌∷◌, ◌>>=◌, ◌≡◌, ◌⊎◌, refl, sym, ◌∙◌, subst, inl, inr, get_elem?,
  All, arith, Gives, Gives-bind, All-map, ltb_ℤ,
}
use route_server.Mjai.Weight.{Row}
use route_server.Mjai.NewBlock.{NewBlock, sum_len_of, sort_new_block}
use route_server.Mjai.Ai.{Ai, UserPublic, init_block}
use route_server.Mjai.Search.{suits}
use route_server.Mjai.Sound.{Has, EachSuit, InRange, Blocks, Fresh, FreshIf, Sound, hand}
use route_server.Mjai.Sound.Renewal.{Without, update_block-gives}
use route_server.Mjai.Sound.Readings.{suits-length}
use route_server.Mjai.Sound.Tiles.{bubble-keeps, All-swap}
use route_server.Mjai.Sound.Suits.{
  Swapped, suits-Swapped, length-Swapped, Distinct-Swapped, Has-Swapped,
}
use route_server.Mjai.Sound.Waits.{Steady, FreshIf-AllFresh}

EachSuit-Swapped : {xs ys : List ℕ} → Swapped xs ys → EachSuit xs → EachSuit ys
EachSuit-Swapped s u = record {
  three = length-Swapped s ∙ u.three;
  once = Distinct-Swapped s u.once;
  all = λ i l. Has-Swapped i s (u.all i l);
}

-- Blocks that match the rows, but perhaps for those of the suits `S`.
record Kept (S : ℕ → Type 0) (rows : List Row) (bs : List NewBlock) : Type 0 where
  blocks : Blocks bs
  fresh : FreshIf S rows bs

sort_new_block-Kept :
    (S : ℕ → Type 0) (rows : List Row) (bs : List NewBlock) (i : ℕ)
    → Kept S rows bs
    → i < 3
    → Gives (sort_new_block bs i) (Kept S rows)
unfolding sort_new_block
sort_new_block-Kept S rows bs i g l =
    let size = sym (suits-length bs) ∙ g.blocks.each.three in
    bubble-keeps sum_len_of ltb_ℤ InRange (Kept S rows) (λ b r. (b.sum_len, refl, tt))
      (λ xs h. h.blocks.range)
      (λ xs j x y e e1 h. record {
        blocks = record {
          each = EachSuit-Swapped (suits-Swapped xs j x y e e1) h.blocks.each;
          range = All-swap InRange xs j x y e e1 h.blocks.range;
        };
        fresh = All-swap (λ (b : NewBlock). S b.i ⊎ Fresh rows b) xs j x y e e1 h.fresh;
      })
      bs i g (omega arith)

-- A player in the loop of `InitNow`, with the suits still to be brought up to date.
pub record Reopened (us : List UserPublic) (pending : List ℕ) (ai : Ai) : Type 0 where
  public_eq : ai.public ≡ us
  sound : Sound ai
  fresh : FreshIf (λ k. Has k pending) (hand us) ai.blocks

-- The suit that was updated is not pending any more.
FreshIf-tail :
    (s : ℕ) (pending : List ℕ) (rows : List Row) (bs : List NewBlock)
    → FreshIf (Without (λ k. Has k (s ∷ pending)) s) rows bs
    → FreshIf (λ k. Has k pending) rows bs
FreshIf-tail s pending rows bs f =
    All-map (λ (b : NewBlock). Without (λ k. Has k (s ∷ pending)) s b.i ⊎ Fresh rows b)
      (λ (b : NewBlock). Has b.i pending ⊎ Fresh rows b) bs (λ b h. rest b h) f
  where
    rest :
        (b : NewBlock)
        → Without (λ k. Has k (s ∷ pending)) s b.i ⊎ Fresh rows b
        → Has b.i pending ⊎ Fresh rows b
    rest b (inl (inl e, ne)) = absurd (ne (sym e))
    rest b (inl (inr h, ne)) = inl h
    rest b (inr fresh) = inr fresh

-- A round of `InitNow` for the block `b` that the loop finds.
pub init_block-Reopened :
    (us : List UserPublic) (pending : List ℕ) (old : List NewBlock) (i : ℕ) (b : NewBlock) (ai : Ai)
    → get_elem? old i ≡ some b
    → i < 3
    → b.i < 3
    → Reopened us (b.i ∷ pending) ai
    → Gives (init_block old i ai) (Reopened us pending)
unfolding init_block
init_block-Reopened us pending old i b ai at l low o =
    let back : FreshIf (λ k. Has k (b.i ∷ pending)) (hand ai.public) ai.blocks =
      subst (λ (v : List UserPublic). FreshIf (λ k. Has k (b.i ∷ pending)) (hand v) ai.blocks)
        (sym o.public_eq) o.fresh in
    let (ai1, e, r) = update_block-gives (λ k. Has k (b.i ∷ pending)) b.i ai o.sound low in
    let there : ai1.public ≡ us = r.public_eq ∙ o.public_eq in
    let kept : Kept (λ k. Has k pending) (hand us) ai1.blocks = record {
      blocks = r.sound.blocks;
      fresh = FreshIf-tail b.i pending (hand us) ai1.blocks (
          subst
            (λ (v : List UserPublic).
              FreshIf (Without (λ k. Has k (b.i ∷ pending)) b.i) (hand v) ai1.blocks)
            there (r.fresh back));
    } in
    let (bs, e1, h) = sort_new_block-Kept (λ k. Has k pending) (hand us) ai1.blocks i kept l in
    rw (at, e, e1)
      (
        record ai1 { blocks = bs },
        refl,
        record {
          public_eq = there;
          sound = record { table = r.sound.table; blocks = h.blocks; logged = r.sound.logged };
          fresh = h.fresh;
        },
      )

-- The three rounds, with what follows them.
pub init_blocks-Reopened :
    (us : List UserPublic) (a b c : NewBlock) (ai : Ai) (k : Ai → Option Ai)
    → All InRange (a ∷ b ∷ c ∷ [])
    → Reopened us (suits (a ∷ b ∷ c ∷ [])) ai
    → ((ai' : Ai) → Steady ai' → Gives (k ai') Steady)
    → Gives
        (do
          ai0 ← init_block (a ∷ b ∷ c ∷ []) 0 ai
          ai1 ← init_block (a ∷ b ∷ c ∷ []) 1 ai0
          ai2 ← init_block (a ∷ b ∷ c ∷ []) 2 ai1
          k ai2)
        Steady
init_blocks-Reopened us a b c ai k (ra, (rb, (rc, _))) o next =
    let old : List NewBlock = a ∷ b ∷ c ∷ [] in
    Gives-bind (init_block-Reopened us (b.i ∷ c.i ∷ []) old 0 a ai refl (omega arith) ra.suit o)
      (λ ai0 _ o0.
        Gives-bind (init_block-Reopened us (c.i ∷ []) old 1 b ai0 refl (omega arith) rb.suit o0)
          (λ ai1 _ o1.
            Gives-bind (init_block-Reopened us [] old 2 c ai1 refl (omega arith) rc.suit o1)
              (λ ai2 _ o2. next ai2 (record {
                sound = o2.sound;
                fresh =
                    FreshIf-AllFresh (λ k. ⊥) (hand ai2.public) ai2.blocks (λ k h. h)
                      (subst (λ (v : List UserPublic). FreshIf (λ k. ⊥) (hand v) ai2.blocks)
                        (sym o2.public_eq) o2.fresh);
              }))))

all_pending : (rows : List Row) (bs : List NewBlock) → FreshIf (λ k. Has k (suits bs)) rows bs
all_pending rows [] = tt
all_pending rows (b ∷ bs) = (
  inl (inl refl),
  All-map (λ (c : NewBlock). Has c.i (suits bs) ⊎ Fresh rows c)
      (λ (c : NewBlock). Has c.i (suits (b ∷ bs)) ⊎ Fresh rows c) bs (λ c h. more c h)
      (all_pending rows bs),
)
  where
    more :
        (c : NewBlock) → Has c.i (suits bs) ⊎ Fresh rows c → Has c.i (suits (b ∷ bs)) ⊎ Fresh rows c
    more c (inl h) = inl (inr h)
    more c (inr f) = inr f

-- Before the rounds all suits are pending.
pub pending-Reopened :
    (us : List UserPublic) (ai : Ai) → ai.public ≡ us → Sound ai → Reopened us (suits ai.blocks) ai
pending-Reopened us ai e s = record {
  public_eq = e;
  sound = s;
  fresh = all_pending (hand us) ai.blocks;
}
