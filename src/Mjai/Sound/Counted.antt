-- ===== src/Mjai/Sound/Counted.antt =====
-- The hand that `SetNow` counts has each tile of the list.
use mathlib.Core.Option.{some-injective}
use route_server.Prelude.{
  ℕ, zero, suc, ◌/◌, ◌%◌, ◌<◌, ℤ, pos, negsuc, neg_part, ◌+ℤ◌, true, ◌&&◌, some, List, [], ◌∷◌, ◌≡◌,
  refl, sym, ap, ◌∙◌, subst, inl, inr, get_elem?, arith, Bool-cases, >>=-eq-some, ◌==◌, ltb,
  All-get_elem?,
}
use route_server.Mjai.Weight.{Row}
use route_server.Mjai.Ai.{cell, change, set_now_cells}
use route_server.Mjai.Search.{inc}
use route_server.Mjai.Sound.{Counts}
use route_server.Mjai.Sound.Rows.{change-Put, Counts-row}
use route_server.Mjai.Sound.Waits.{inc-count}
use route_server.Mjai.Sound.Cells.{change-others}
use route_server.Mjai.Sound.Shows.{change-there}

-- Some tiles at a cell.
abbrev pub Filled : List Row → ℕ → ℕ → Type 0
Filled rows i j = (c : ℕ) × (cell rows i j ≡ some (pos (suc c)))

inc-suc : (c : ℕ) → inc (pos c) ≡ pos (suc c)
unfolding ◌+ℤ◌
inc-suc c = ground arith

count_of : (c : ℤ) → neg_part c ≡ 0 → (n : ℕ) × (c ≡ pos n)
count_of (pos n) h = (n, refl)
count_of (negsuc n) h = absurd (ground arith)

change-Filled :
    (rows rows' : List Row) (k l i j : ℕ)
    → change inc rows k l ≡ some rows'
    → Filled rows i j
    → Filled rows' i j
change-Filled rows rows' k l i j h (c, at) = elim (Bool-cases (k == i && l == j)) [
  | inl same ↦
      let row_eq : k ≡ i = ground arith in
      let place_eq : l ≡ j = ground arith in
      let (n, before, after) = change-there inc rows rows' k l h in
      let n_is : n ≡ pos (suc c) =
        some-injective _ _ (sym before ∙ (λ t. cell rows (row_eq t) (place_eq t)) ∙ at) in
      (
        suc c,
        (λ t. cell rows' (sym row_eq t) (sym place_eq t))
            ∙ after
            ∙ ap (λ m. some (inc m)) n_is
            ∙ ap some (inc-suc (suc c)),
      )
  | inr other ↦ (
    c,
    change-others inc rows rows' k l i j h
          (λ e. let row_eq = e.0 in let place_eq = e.1 in absurd (ground arith))
        ∙ at,
  )
]

set_now_cells-Filled :
    (rows : List Row) (str : List ℕ) (r : List Row × List ℕ) (i j : ℕ)
    → set_now_cells rows str ≡ some r
    → Filled rows i j
    → Filled r.0 i j
unfolding set_now_cells
set_now_cells-Filled rows [] r i j h f =
    subst (λ (r : List Row × List ℕ). Filled r.0 i j) (some-injective (rows, []) r h) f
set_now_cells-Filled rows (s ∷ str) r i j h f = elim (Bool-cases (ltb s 27)) [
  | inl tile ↦
      let (rows', e, h1) = >>=-eq-some (change inc rows (s / 9) (s % 9)) _ (rw tile at h) in
      set_now_cells-Filled rows' str r i j h1 (change-Filled rows rows' (s / 9) (s % 9) i j e f)
  | inr other ↦
      let (r1, e, h1) = >>=-eq-some (set_now_cells rows str) _ (rw other at h) in
      subst (λ (r : List Row × List ℕ). Filled r.0 i j) (some-injective _ r h1)
        (set_now_cells-Filled rows str r1 i j e f)
]

-- Each tile of the list is in the hand.
pub set_now_cells-holds :
    (rows : List Row) (str : List ℕ) (r : List Row × List ℕ) (k t : ℕ)
    → Counts rows
    → get_elem? str k ≡ some t
    → t < 27
    → set_now_cells rows str ≡ some r
    → Filled r.0 (t / 9) (t % 9)
unfolding set_now_cells
set_now_cells-holds rows [] r k t c e l h = absurd cc
set_now_cells-holds rows (s ∷ str) r zero t c e l h =
    let same : s ≡ t = some-injective s t e in
    let tile : ltb s 27 ≡ true = ground arith in
    let (rows', e1, h1) = >>=-eq-some (change inc rows (s / 9) (s % 9)) _ (rw tile at h) in
    let (rows1, e2, put) =
      change-Put inc rows (s / 9) (s % 9) c (omega arith) (omega arith)
        (λ d _ nn. inc-count d nn) in
    let (n, before, after) = change-there inc rows rows' (s / 9) (s % 9) e1 in
    let (m, n_is) = count_of n (count_at n before) in
    set_now_cells-Filled rows' str r (t / 9) (t % 9) h1 (
      m,
      (λ z. cell rows' (sym same z / 9) (sym same z % 9))
          ∙ after
          ∙ ap (λ d. some (inc d)) n_is
          ∙ ap some (inc-suc m),
    )
  where
    count_at : (n : ℤ) → cell rows (s / 9) (s % 9) ≡ some n → neg_part n ≡ 0
    count_at n at =
        let small : s < 27 = let q = some-injective s t e in omega arith in
        let (row, e1, (nine, nn)) = Counts-row rows (s / 9) c (omega arith) in
        All-get_elem? (λ d. neg_part d ≡ 0) row (s % 9) nn (rw e1 at at)
set_now_cells-holds rows (s ∷ str) r (suc k) t c e l h = elim (Bool-cases (ltb s 27)) [
  | inl tile ↦
      let (rows', e1, h1) = >>=-eq-some (change inc rows (s / 9) (s % 9)) _ (rw tile at h) in
      let (rows1, e2, put) =
        change-Put inc rows (s / 9) (s % 9) c (ground arith) (omega arith)
          (λ d _ nn. inc-count d nn) in
      let c' = subst Counts (some-injective _ _ (sym e2 ∙ e1)) put.counts in
      set_now_cells-holds rows' str r k t c' e l h1
  | inr other ↦
      let (r1, e1, h1) = >>=-eq-some (set_now_cells rows str) _ (rw other at h) in
      subst (λ (r : List Row × List ℕ). Filled r.0 (t / 9) (t % 9)) (some-injective _ r h1)
        (set_now_cells-holds rows str r1 k t c e l e1)
]
