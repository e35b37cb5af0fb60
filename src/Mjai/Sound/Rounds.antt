-- ===== src/Mjai/Sound/Rounds.antt =====
-- The rounds of `InitNow` for a player that has no blocks yet: they are made and sorted.
use route_server.Prelude.{
  Option, ◌>>=◌, ℕ, suc, ◌<◌, some, List, [], ◌∷◌, ◌++◌, ◌≡◌, refl, sym, ap, ◌∙◌, subst, get_elem?,
  All, arith, Gives, Gives-bind, All-map, All-append, ltb_ℤ,
}
use route_server.Mjai.Weight.{Row}
use route_server.Mjai.NewBlock
use route_server.Mjai.NewBlock.{NewBlock, new_block, sum_len_of, sort_new_block}
use route_server.Mjai.NewBlock.Runs.{places_of}
use route_server.Mjai.Ai.{Ai, UserPublic, init_block}
use route_server.Mjai.Search.{suits}
use route_server.Mjai.Sound.{Logged, Table, InRange, Fresh, AllFresh, hand}
use route_server.Mjai.Sound.Places.{Place, update-Matches}
use route_server.Mjai.Sound.Rows.{Table-user, Counts-row}
use route_server.Mjai.Sound.Renewal.{Matches-Fresh}
use route_server.Mjai.Sound.Readings.{suits-length}
use route_server.Mjai.Sound.Tiles.{All-swap, bubble-keeps}
use route_server.Mjai.Sound.Suits.{UpTo, suits-Swapped, UpTo-Swapped, UpTo-suc, suits-append}
use route_server.Mjai.Sound.Waits.{Steady}

-- The blocks of the suits below `n`, which match the rows.
record Grown (n : ℕ) (rows : List Row) (bs : List NewBlock) : Type 0 where
  pub up_to : UpTo n (suits bs)
  pub range : All InRange bs
  pub fresh : AllFresh rows bs

sort_new_block-Grown :
    (n : ℕ) (rows : List Row) (bs : List NewBlock) (i : ℕ)
    → Grown n rows bs
    → i < n
    → Gives (sort_new_block bs i) (Grown n rows)
unfolding sort_new_block
sort_new_block-Grown n rows bs i g l =
    let size = sym (suits-length bs) ∙ g.up_to.size in
    bubble-keeps sum_len_of ltb_ℤ InRange (Grown n rows) (λ b r. (b.sum_len, refl, tt))
      (λ xs h. h.range)
      (λ xs j x y e e1 h. record {
        up_to = UpTo-Swapped n (suits-Swapped xs j x y e e1) h.up_to;
        range = All-swap InRange xs j x y e e1 h.range;
        fresh = All-swap (Fresh rows) xs j x y e e1 h.fresh;
      })
      bs i g (omega arith)

-- A round of `InitNow` that makes the block of suit `i`.
init_block-Grown :
    (old : List NewBlock) (i : ℕ) (ai : Ai)
    → old ≡ []
    → i < 3
    → Table ai.public
    → Grown i (hand ai.public) ai.blocks
    → Gives (init_block old i ai) (λ ai'.
      (ai'.public ≡ ai.public)
      × (ai'.see_list ≡ ai.see_list)
      × Grown (suc i) (hand ai.public) ai'.blocks)
unfolding init_block NewBlock.init
init_block-Grown old i ai first l t g =
    let (u, e, p) = Table-user ai.public 3 t (omega arith) in
    let (row, e1, (nine, nn)) = Counts-row u.now i p.now l in
    let (b, e2, m) = update-Matches row (new_block i) nn nine in
    let at_hand : get_elem? (hand ai.public) i ≡ some row = rw e e1 in
    let range : InRange b = record {
      suit = subst (λ k. k < 3) (sym m.suit) l;
      places = All-map (Place row) (λ j. j < 9) (places_of b.child) (λ j q. q.low) m.places;
    } in
    let fresh : Fresh (hand ai.public) b =
      Matches-Fresh i (hand ai.public) row (new_block i) b at_hand refl m in
    let grown : Grown (suc i) (hand ai.public) (ai.blocks ++ b ∷ []) = record {
      up_to =
          subst (UpTo (suc i))
            (ap (λ k. suits ai.blocks ++ k ∷ []) (sym m.suit)
              ∙ sym (suits-append ai.blocks (b ∷ [])))
            (UpTo-suc i (suits ai.blocks) g.up_to);
      range = All-append InRange ai.blocks (b ∷ []) g.range (range, tt);
      fresh = All-append (Fresh (hand ai.public)) ai.blocks (b ∷ []) g.fresh (fresh, tt);
    } in
    let (bs, e3, h) =
      sort_new_block-Grown (suc i) (hand ai.public) (ai.blocks ++ b ∷ []) i grown (omega arith) in
    rw (first, e, e1, e2, e3) (record ai { blocks = bs }, refl, (refl, refl, rw e at h))

-- A player in the loop of `InitNow`, with the blocks of the suits below `n`.
pub record Opened (us : List UserPublic) (n : ℕ) (ai : Ai) : Type 0 where
  logged : Logged ai.see_list
  public_eq : ai.public ≡ us
  grown : Grown n (hand us) ai.blocks

init_block-Opened :
    (us : List UserPublic) (old : List NewBlock) (i : ℕ) (ai : Ai)
    → old ≡ []
    → i < 3
    → Table us
    → Opened us i ai
    → Gives (init_block old i ai) (Opened us (suc i))
init_block-Opened us old i ai first l t o =
    let back = sym o.public_eq in
    let (ai', e, (same, log, g)) =
      init_block-Grown old i ai first l (subst Table back t)
        (subst (λ (v : List UserPublic). Grown i (hand v) ai.blocks) back o.grown) in
    (
      ai',
      e,
      record {
        public_eq = same ∙ o.public_eq;
        logged = subst Logged (sym log) o.logged;
        grown = subst (λ (v : List UserPublic). Grown (suc i) (hand v) ai'.blocks) o.public_eq g;
      },
    )

Steady-of_Grown :
    (ai : Ai)
    → Table ai.public
    → Grown 3 (hand ai.public) ai.blocks
    → Logged ai.see_list
    → Steady ai
Steady-of_Grown ai t g log = record {
  sound = record {
    table = t;
    blocks = record {
      each = record { three = g.up_to.size; once = g.up_to.once; all = g.up_to.all };
      range = g.range;
    };
    logged = log;
  };
  fresh = g.fresh;
}

pub no_blocks :
    (us : List UserPublic) (ai : Ai)
    → ai.public ≡ us
    → ai.blocks ≡ []
    → Logged ai.see_list
    → Opened us 0 ai
no_blocks us ai e none_yet log = record {
  logged = log;
  public_eq = e;
  grown = subst (Grown 0 (hand us)) (sym none_yet) (record {
    up_to = record { size = refl; once = tt; all = λ i l. absurd (omega arith); low = tt };
    range = tt;
    fresh = tt;
  });
}

-- The rounds for a player without blocks, with what follows them.
pub init_blocks-Opened :
    (us : List UserPublic) (old : List NewBlock) (ai : Ai) (k : Ai → Option Ai)
    → old ≡ []
    → Table us
    → Opened us 0 ai
    → ((ai' : Ai) → Steady ai' → Gives (k ai') Steady)
    → Gives
        (do
          ai0 ← init_block old 0 ai
          ai1 ← init_block old 1 ai0
          ai2 ← init_block old 2 ai1
          k ai2)
        Steady
init_blocks-Opened us old ai k first t o next =
    Gives-bind (init_block-Opened us old 0 ai first (omega arith) t o) (λ ai0 _ o0.
      Gives-bind (init_block-Opened us old 1 ai0 first (omega arith) t o0) (λ ai1 _ o1.
        Gives-bind (init_block-Opened us old 2 ai1 first (omega arith) t o1) (λ ai2 _ o2.
          let back = sym o2.public_eq in
          next ai2 (
            Steady-of_Grown ai2 (subst Table back t)
              (subst (λ (v : List UserPublic). Grown 3 (hand v) ai2.blocks) back o2.grown)
              o2.logged))))
