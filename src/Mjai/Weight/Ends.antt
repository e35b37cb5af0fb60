-- ===== src/Mjai/Weight/Ends.antt =====
-- The recursion of mjai's `WeightVal` ends on the runs of a hand, with the fuel that it is given.
use mathlib.Core.List.{reverse-cons}
use route_server.Prelude.{
  ℕ, zero, suc, ◌+◌, ◌≤◌, ◌<◌, ℤ, pos, gtb_ℤ, ltb, ltb_ℤ, false, some, List, [], ◌∷◌, reverse, ◌≡◌,
  refl, sym, ap, subst, inl, inr, length, drop, All, arith, Bool-cases, length-append,
}
use route_server.Mjai.Grain.{MjGrain}
use route_server.Mjai.Weight.{
  Row, weight_short, merge_readings, weight_val, tiles, weight_fuel, get_weight_val,
}
use route_server.Mjai.Weight.Runs.{Held, IsRun, reverse-IsRun}
use route_server.Mjai.Weight.Taken.{strip_three}

weight_short-returns :
    (row : Row) (bl : List ℕ) (w : ℤ) (o : List MjGrain)
    → All (Held row) bl
    → (r : ℤ × List MjGrain) × (weight_short row bl w o ≡ some r)
unfolding weight_short
weight_short-returns row [] w o h = ((w, o), refl)
weight_short-returns row (i ∷ bl) w o ((c, e), h) =
    rw e (elim (Bool-cases (ltb_ℤ (pos (suc c)) (pos 3))) [
      | inl few ↦ rw few (weight_short-returns row bl _ _ h)
      | inr many ↦ rw many (weight_short-returns row bl w o h)
    ])

length-reverse : (xs : List ℕ) → length (reverse xs) ≡ length xs
length-reverse [] = refl
length-reverse (x ∷ xs) =
    omega
      (arith, ap length (reverse-cons x xs), length-append (reverse xs) (x ∷ []), length-reverse xs)

length-drop-le : (n : ℕ) (xs : List ℕ) → length (drop n xs) ≤ length xs
length-drop-le zero xs = omega arith
length-drop-le (suc n) [] = omega arith
length-drop-le (suc n) (x ∷ xs) = omega (arith, length-drop-le n xs)

module _ (fuel : ℕ) where
  abbrev Returns : Row → List ℕ → Type 0
  Returns row bl =
      (w : ℤ) (o : List MjGrain) → (r : ℤ × List MjGrain) × (weight_val fuel row bl w o ≡ some r)

-- `WeightVal` returns on every run, with any fuel above the length of the run and the tiles of the
-- row.
pub weight_val-ends :
    (fuel : ℕ) (row : Row) (bl : List ℕ)
    → length bl + tiles row < fuel
    → IsRun row bl
    → Returns fuel row bl
unfolding weight_val
weight_val-ends zero row bl lt r w o = absurd (omega arith)
weight_val-ends (suc fuel) row [] lt r w o = ((w, o), refl)
weight_val-ends (suc fuel) row (a ∷ []) lt r w o = weight_short-returns row (a ∷ []) w o r.held
weight_val-ends (suc fuel) row (a ∷ b ∷ []) lt r w o =
    weight_short-returns row (a ∷ b ∷ []) w o r.held
weight_val-ends (suc fuel) row (a ∷ b ∷ c ∷ bl) lt r w o =
    let (n, head) = r.held.0 in
    rw (not_short, head)
      (elim (Bool-cases (gtb_ℤ (pos (suc n)) (pos 2))) [
        | inl many ↦ rw many (weight_val-ends fuel row (b ∷ c ∷ bl) (omega arith) (tail_run r) w o)
        | inr few ↦
            let (s, e, l) = strip_three row a b c bl w o r in
            let rest : List ℕ = drop s.start (a ∷ b ∷ c ∷ bl) in
            let run : IsRun s.row rest = subst (λ (m : List ℕ). IsRun s.row m) (sym l.rest) l.run in
            let shorter = length-drop-le s.start (a ∷ b ∷ c ∷ bl) in
            let fewer = l.fewer in
            let one = weight_val-ends fuel s.row rest (omega arith) run in
            let two =
              weight_val-ends fuel s.row (reverse rest) (omega (arith, length-reverse rest))
                (reverse-IsRun s.row rest run) in
            rw (few, e)
              (elim (Bool-cases (ltb (length rest) 3)) [
                | inl short ↦ rw short (one s.w s.o)
                | inr long ↦
                    let (r1, e1) = one (pos 0) [] in
                    let (r2, e2) = two (pos 0) [] in
                    rw (long, e1, e2) (merge_readings s.w s.o r1 r2, refl)
              ])
      ])
  where
    not_short : ltb (suc (suc (suc (length bl)))) 3 ≡ false
    not_short = ground arith

    tail_run : IsRun row (a ∷ b ∷ c ∷ bl) → IsRun row (b ∷ c ∷ bl)
    tail_run r = record { held = r.held.1; distinct = r.distinct.1 }

-- `GetWeightVal` returns on every run, which is a list of distinct positions at which the row has
-- tiles: the recursion of `WeightVal` ends.
pub get_weight_val-ends :
    (row : Row) (bl : List ℕ)
    → IsRun row bl
    → (r : ℤ × List MjGrain) × (get_weight_val row bl ≡ some r)
unfolding get_weight_val
get_weight_val-ends row bl r =
    let (r1, e1) = weight_val-ends (weight_fuel row bl) row bl (omega arith) r (pos 0) [] in
    let (r2, e2) =
      weight_val-ends (weight_fuel row bl) row (reverse bl) (omega (arith, length-reverse bl))
        (reverse-IsRun row bl r) (pos 0) [] in
    elim (Bool-cases (ltb (length bl) 3)) [
      | inl short ↦ rw short (r1, e1)
      | inr long ↦ rw (long, e1, e2) (_, refl)
    ]
