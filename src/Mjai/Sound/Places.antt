-- ===== src/Mjai/Sound/Places.antt =====
-- The positions of a block after an update: they lie in the row, and there are tiles at each.

use route_server.Prelude.{
  ℕ, suc, ◌+◌, ◌<◌, pos, some, [], ◌∷◌, ◌≡◌, sym, ap, ◌∙◌, subst, inl, inr, get_elem?, length, All,
  All-map, arith, Bool-cases, Gives, ◌==ℤ◌,
}
use route_server.Mjai.Weight.{Row}
use route_server.Mjai.Weight.Runs.{Held}
use route_server.Mjai.NewBlock.{NewBlock, update, new_block}
use route_server.Mjai.NewBlock.Tagged.{update-Named}
use route_server.Mjai.NewBlock.Again.{update-suit, update-new_block}
use route_server.Mjai.NewBlock.Runs.{places_of, occupied, update-partition}
use route_server.Mjai.Sound.{Exact}
use route_server.Mjai.NewBlock.Ends.{
  NonNegative, Rest, Rest-suc, Rest-head, some_tiles, update-ends,
}

-- A position of a row that has nine cells, with tiles at it.
pub record Place (row : Row) (j : ℕ) : Type 0 where
  pub low : j < 9
  pub held : Held row j

occupied-Place :
    (whole : Row) (j : ℕ) (row : Row)
    → Rest whole j row
    → NonNegative row
    → j + length row ≡ 9
    → All (Place whole) (occupied j row)
occupied-Place whole j [] at nn nine = tt
occupied-Place whole j (n ∷ row) at nn nine =
    let rest = occupied-Place whole (suc j) row (Rest-suc whole row j n at) nn.1 (omega arith) in
    elim (Bool-cases (n ==ℤ pos 0)) [
      | inl gap ↦ rw gap rest
      | inr tiles ↦
          let (t, e) = some_tiles n nn.0 tiles in
          rw tiles
            (record { low = omega arith; held = (t, Rest-head whole row j n at ∙ ap some e) }, rest)
    ]

pub places_of_row :
    (row : Row) → NonNegative row → length row ≡ 9 → All (Place row) (occupied 0 row)
places_of_row row nn nine =
    occupied-Place row 0 row (λ k. let z : 0 + k ≡ k = omega arith in ap (get_elem? row) z) nn
      (omega arith)

-- A block after the update with the row.
pub record Matches (row : Row) (b b' : NewBlock) : Type 0 where
  pub suit : b'.i ≡ b.i
  pub places : All (Place row) (places_of b'.child)
  pub exact : Exact row b'

pub update-Matches :
    (row : Row) (b : NewBlock)
    → NonNegative row
    → length row ≡ 9
    → Gives (update row b) (Matches row b)
update-Matches row b nn nine =
    let (b', e) = update-ends row b nn in
    let (places, len, wei) = update-partition row b b' e in
    let held : All (Place row) (places_of b'.child) =
      subst (All (Place row)) (sym places) (places_of_row row nn nine) in
    let low = All-map (Place row) (λ j. j < 9) (places_of b'.child) (λ j p. p.low) held in
    (
      b',
      e,
      record {
        suit = update-suit row b b' e;
        places = held;
        exact = record {
          places = places;
          len = len;
          wei = wei;
          named = update-Named row b b' low e;
          again = (
            b'.we,
            ap (λ i. update row (new_block i)) (update-suit row b b' e)
                ∙ sym (update-new_block row b)
                ∙ e,
          );
        };
      },
    )
