-- ===== src/Mjai/Sound/Cells.antt =====
-- The cells of the hand that `SelfSee` goes through: each once, with the count that it has.
use mathlib.Core.Option.{some-injective}
use route_server.Prelude.{
  ℕ, suc, ◌+◌, ◌<◌, ◌≤◌, ℤ, some, List, [], ◌∷◌, ◌++◌, ◌≡◌, refl, sym, ap, ◌∙◌, inl, inr, get_elem?,
  set, length, All, arith, Bool-cases, >>=-eq-some, All-map, All-append, ◌==◌, get_elem?-set_self,
  get_elem?-set_ne, lt-length_of_get_elem?,
}
use route_server.Mjai.Weight.{Row}
use route_server.Mjai.NewBlock.Ends.{Rest, Rest-suc, Rest-head}
use route_server.Mjai.Ai.{cell, change}
use route_server.Mjai.Outs.{row_cells, all_cells}
use route_server.Mjai.Sound.{Grid}

abbrev pub Cell : Type 0
Cell = ℕ × ℕ × ℤ

abbrev pub Different : Cell → Cell → Type 0
Different c d = ¬ ((c.0 ≡ d.0) × (c.1 ≡ d.1))

-- No cell twice.
abbrev pub Unlike : List Cell → Type 0
Unlike [] = Unit
Unlike (c ∷ cs) = All (Different c) cs × Unlike cs

-- A cell of the rows, with its count.
abbrev pub At : List Row → Cell → Type 0
At rows c = (c.0 < 3) × (c.1 < 9) × (cell rows c.0 c.1 ≡ some c.2)

-- A cell of row `i` from `j` on, and one of a row from `i` on.
abbrev From : ℕ → ℕ → Cell → Type 0
From i j c = (c.0 ≡ i) × (j ≤ c.1)

abbrev Below : ℕ → Cell → Type 0
Below i c = i ≤ c.0

row_cells-From : (i j k : ℕ) (row : Row) → k ≤ j → All (From i k) (row_cells i j row)
row_cells-From i j k [] le = tt
row_cells-From i j k (n ∷ row) le = ((refl, le), row_cells-From i (suc j) k row (omega arith))

row_cells-Unlike : (i j : ℕ) (row : Row) → Unlike (row_cells i j row)
row_cells-Unlike i j [] = tt
row_cells-Unlike i j (n ∷ row) = (
  All-map (From i (suc j)) (Different (i, j, n)) (row_cells i (suc j) row)
      (λ d f e. let le = f.1 in let same = e.1 in absurd (omega arith))
      (row_cells-From i (suc j) (suc j) row (omega arith)),
  row_cells-Unlike i (suc j) row,
)

all_cells-Below : (i k : ℕ) (rows : List Row) → k ≤ i → All (Below k) (all_cells i rows)
all_cells-Below i k [] le = tt
all_cells-Below i k (row ∷ rows) le =
    All-append (Below k) (row_cells i 0 row) (all_cells (suc i) rows)
      (All-map (From i 0) (Below k) (row_cells i 0 row) (λ d f. let e = f.0 in omega arith)
        (row_cells-From i 0 0 row (omega arith)))
      (all_cells-Below (suc i) k rows (omega arith))

Unlike-append :
    (i : ℕ) (cs ds : List Cell)
    → Unlike cs
    → Unlike ds
    → All (From i 0) cs
    → All (Below (suc i)) ds
    → Unlike (cs ++ ds)
Unlike-append i [] ds u v f b = v
Unlike-append i (c ∷ cs) ds (a, u) v (here, f) b = (
  All-append (Different c) cs ds a (
      All-map (Below (suc i)) (Different c) ds
        (λ d le e. let same = e.0 in let at = here.0 in absurd (omega arith)) b),
  Unlike-append i cs ds u v f b,
)

pub all_cells-Unlike : (i : ℕ) (rows : List Row) → Unlike (all_cells i rows)
all_cells-Unlike i [] = tt
all_cells-Unlike i (row ∷ rows) =
    Unlike-append i (row_cells i 0 row) (all_cells (suc i) rows) (row_cells-Unlike i 0 row)
      (all_cells-Unlike (suc i) rows) (row_cells-From i 0 0 row (omega arith))
      (all_cells-Below (suc i) (suc i) rows (omega arith))

row_cells-At :
    (rows : List Row) (i j : ℕ) (whole row : Row)
    → i < 3
    → get_elem? rows i ≡ some whole
    → Rest whole j row
    → j + length row ≡ 9
    → All (At rows) (row_cells i j row)
row_cells-At rows i j whole [] l e at nine = tt
row_cells-At rows i j whole (n ∷ row) l e at nine = (
  (l, omega arith, rw e (Rest-head whole row j n at)),
  row_cells-At rows i (suc j) whole row l e (Rest-suc whole row j n at) (omega arith),
)

all_cells-At :
    (whole : List Row) (i : ℕ) (rows : List Row)
    → ((k : ℕ) → get_elem? whole (i + k) ≡ get_elem? rows k)
    → i + length rows ≡ 3
    → All (λ (r : Row). length r ≡ 9) rows
    → All (At whole) (all_cells i rows)
all_cells-At whole i [] at three nine = tt
all_cells-At whole i (row ∷ rows) at three (n, nine) =
    let zero_on : i ≡ i + 0 = omega arith in
    let here : get_elem? whole i ≡ some row = ap (get_elem? whole) zero_on ∙ at 0 in
    All-append (At whole) (row_cells i 0 row) (all_cells (suc i) rows)
      (row_cells-At whole i 0 row row (omega arith) here
        (λ k. let z : 0 + k ≡ k = omega arith in ap (get_elem? row) z) (omega arith))
      (all_cells-At whole (suc i) rows
        (λ k. let z : suc i + k ≡ i + suc k = omega arith in ap (get_elem? whole) z ∙ at (suc k))
        (omega arith) nine)

pub all_cells-Grid : (rows : List Row) → Grid rows → All (At rows) (all_cells 0 rows)
all_cells-Grid rows g =
    let three = g.three in
    all_cells-At rows 0 rows (λ k. let z : 0 + k ≡ k = omega arith in ap (get_elem? rows) z)
      (omega arith) g.nine

-- A change of a cell leaves the others.
pub change-others :
    (f : ℤ → ℤ) (rows rows' : List Row) (i j k l : ℕ)
    → change f rows i j ≡ some rows'
    → ¬ ((i ≡ k) × (j ≡ l))
    → cell rows' k l ≡ cell rows k l
change-others f rows rows' i j k l h apart =
    let (row, e1, h1) = >>=-eq-some (get_elem? rows i) _ h in
    let (c, e2, h2) = >>=-eq-some (get_elem? row j) _ h1 in
    ap (λ rs. cell rs k l) (sym (some-injective _ _ h2)) ∙ elim (Bool-cases (i == k)) [
      | inr other ↦
          let there : get_elem? (set rows i (set row j (f c))) k ≡ get_elem? rows k =
            get_elem?-set_ne rows (set row j (f c)) (λ e. absurd (ground arith)) in
          rw there refl
      | inl here ↦
          let same : i ≡ k = ground arith in
          let at_row = ap (get_elem? rows) (sym same) ∙ e1 in
          let there =
            ap (get_elem? (set rows i (set row j (f c)))) (sym same)
            ∙ get_elem?-set_self rows i (set row j (f c)) (lt-length_of_get_elem? rows i e1) in
          rw (there, at_row) (get_elem?-set_ne row (f c) (λ e. apart (same, e)))
    ]
