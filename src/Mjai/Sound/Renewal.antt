-- ===== src/Mjai/Sound/Renewal.antt =====
-- The update of a block of a sound player.

use route_server.Prelude.{
  ℕ, ◌<◌, false, some, List, [], ◌∷◌, ◌≡◌, ◌⊎◌, ◌≢◌, refl, sym, ap, ◌∙◌, subst, inl, inr, get_elem?,
  length, All, arith, Bool-cases, Gives, ◌==◌, All-map,
}
use route_server.Mjai.Weight.{Row}
use route_server.Mjai.Weight.Runs.{Apart, Distinct}
use route_server.Mjai.NewBlock.{NewBlock}
use route_server.Mjai.NewBlock.Runs.{places_of}
use route_server.Mjai.NewBlock.Ends.{NonNegative}
use route_server.Mjai.Ai.{Ai, update_in, update_block}
use route_server.Mjai.Search.{suits}
use route_server.Mjai.Sound.{Has, EachSuit, InRange, Sound, Fresh, FreshIf, hand}
use route_server.Mjai.Sound.Places.{Place, Matches, update-Matches}
use route_server.Mjai.Sound.Rows.{Table-user, Counts-row}

-- The suits `S`, without `i`.
abbrev pub Without : (ℕ → Type 0) → ℕ → ℕ → Type 0
Without S i k = S k × (k ≢ i)

FreshIf-Without :
    (S : ℕ → Type 0) (i : ℕ) (rows : List Row) (bs : List NewBlock)
    → Apart i (suits bs)
    → FreshIf S rows bs
    → FreshIf (Without S i) rows bs
FreshIf-Without S i rows [] a f = tt
FreshIf-Without S i rows (b ∷ bs) (other, a) (inl stale, f) =
    (inl (stale, λ e. other (sym e)), FreshIf-Without S i rows bs a f)
FreshIf-Without S i rows (b ∷ bs) (other, a) (inr fresh, f) =
    (inr fresh, FreshIf-Without S i rows bs a f)

-- The blocks after an update of that of suit `i`.
record Renewed (S : ℕ → Type 0) (i : ℕ) (rows : List Row) (bs bs' : List NewBlock) : Type 0 where
  pub suits_eq : suits bs' ≡ suits bs
  pub range : All InRange bs'
  pub fresh : FreshIf S rows bs → FreshIf (Without S i) rows bs'

pub Matches-Fresh :
    (i : ℕ) (rows : List Row) (row : Row) (b b' : NewBlock)
    → get_elem? rows i ≡ some row
    → b.i ≡ i
    → Matches row b b'
    → Fresh rows b'
Matches-Fresh i rows row b b' e here m = (row, ap (get_elem? rows) (m.suit ∙ here) ∙ e, m.exact)

Matches-InRange : (row : Row) (b b' : NewBlock) → InRange b → Matches row b b' → InRange b'
Matches-InRange row b b' r m = record {
  suit = subst (λ k. k < 3) (sym m.suit) r.suit;
  places = All-map (Place row) (λ j. j < 9) (places_of b'.child) (λ j p. p.low) m.places;
}

update_in-Renewed :
    (S : ℕ → Type 0) (i : ℕ) (rows : List Row) (row : Row) (bs : List NewBlock)
    → get_elem? rows i ≡ some row
    → NonNegative row
    → length row ≡ 9
    → Has i (suits bs)
    → Distinct (suits bs)
    → All InRange bs
    → Gives (update_in i row bs) (Renewed S i rows bs)
unfolding update_in
update_in-Renewed S i rows row [] e nn nine has d range = elim has [ ]
update_in-Renewed S i rows row (b ∷ bs) e nn nine has d range = elim (Bool-cases (b.i == i)) [
  | inl same ↦
      let here : b.i ≡ i = ground arith in
      let (b', e1, m) = update-Matches row b nn nine in
      let f : Fresh rows b' = Matches-Fresh i rows row b b' e here m in
      let apart : Apart i (suits bs) = subst (λ k. Apart k (suits bs)) here d.0 in
      rw (same, e1)
        (
          b' ∷ bs,
          refl,
          record {
            suits_eq = ap (λ k. k ∷ suits bs) m.suit;
            range = (Matches-InRange row b b' range.0 m, range.1);
            fresh = λ fs. (inr f, FreshIf-Without S i rows bs apart fs.1);
          },
        )
  | inr other ↦
      let (bs', e1, r) =
        update_in-Renewed S i rows row bs e nn nine (later has other) d.1 range.1 in
      rw (other, e1)
        (
          b ∷ bs',
          refl,
          record {
            suits_eq = ap (λ t. b.i ∷ t) r.suits_eq;
            range = (range.0, r.range);
            fresh = λ fs. (first fs.0 other, r.fresh fs.1);
          },
        )
]
  where
    later : Has i (suits (b ∷ bs)) → (b.i == i) ≡ false → Has i (suits bs)
    later (inl here) other = absurd (ground arith)
    later (inr rest) other = rest

    first : S b.i ⊎ Fresh rows b → (b.i == i) ≡ false → Without S i b.i ⊎ Fresh rows b
    first (inl stale) other = inl (stale, λ e. absurd (ground arith))
    first (inr fresh) other = inr fresh

-- A player after an update of the block of suit `i`.
pub record Updated (S : ℕ → Type 0) (i : ℕ) (ai ai' : Ai) : Type 0 where
  pub public_eq : ai'.public ≡ ai.public
  pub sound : Sound ai'
  pub fresh :
      FreshIf S (hand ai.public) ai.blocks → FreshIf (Without S i) (hand ai'.public) ai'.blocks

pub update_block-gives :
    (S : ℕ → Type 0) (i : ℕ) (ai : Ai)
    → Sound ai
    → i < 3
    → Gives (update_block i ai) (Updated S i ai)
unfolding update_block
update_block-gives S i ai s l =
    let (u, e, p) = Table-user ai.public 3 s.table (omega arith) in
    let (row, e1, (nine, nn)) = Counts-row u.now i p.now l in
    let each = s.blocks.each in
    let at_hand : get_elem? (hand ai.public) i ≡ some row = rw e e1 in
    let (bs, e2, r) =
      update_in-Renewed S i (hand ai.public) row ai.blocks at_hand nn nine (each.all i l) each.once
        s.blocks.range in
    rw (e, e1, e2)
      (
        record ai { blocks = bs },
        refl,
        record {
          public_eq = refl;
          sound = record {
            table = s.table;
            blocks = record { each = subst EachSuit (sym r.suits_eq) each; range = r.range };
            logged = s.logged;
          };
          fresh = r.fresh;
        },
      )
