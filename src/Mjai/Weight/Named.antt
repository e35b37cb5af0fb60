-- ===== src/Mjai/Weight/Named.antt =====
-- The tiles that mjai's `GetWeightVal` names: positions of a row, with one score each.
use mathlib.Core.Option.{some-injective}
use route_server.Prelude.{
  ℕ, zero, suc, ◌<◌, ℤ, pos, ◌-ℤ◌, Bool, true, false, some, List, [], ◌∷◌, ◌++◌, reverse, ◌≡◌, refl,
  subst, inl, inr, get_elem?, length, drop, All, Bool-cases, >>=-eq-some, All-append, All-get_elem?,
  gtb_ℤ, ltb_ℤ, ltb, ◌==ℤ◌, if◌then◌else◌,
}
use route_server.Mjai.Grain.{MjGrain}
use route_server.Mjai.Weight.{
  Row, grain_at, weight_short, Strip, strip_one, strip, has_tile, missing_from, merge_readings,
  weight_val, weight_fuel, choose_reading, get_weight_val,
}
use route_server.Mjai.Weight.Runs.{All-reverse}

abbrev pub Single : MjGrain → Type 0
Single g = (g.n < 9) × (length g.o ≡ 1)

abbrev Low : List ℕ → Type 0
Low bl = All (λ j. j < 9) bl

All-if :
    {A : Type 0} (P : A → Type 0) (t : Bool) (xs ys : List A)
    → All P xs
    → All P ys
    → All P (if t then xs else ys)
All-if P true xs ys h g = h
All-if P false xs ys h g = g

push-Single :
    (t : Bool) (j : ℕ) (c : ℤ) (o : List MjGrain)
    → j < 9
    → All Single o
    → All Single (if t then o ++ grain_at j c ∷ [] else o)
push-Single t j c o l h =
    All-if Single t (o ++ grain_at j c ∷ []) o
      (All-append Single o (grain_at j c ∷ []) h ((l, refl), tt)) h

weight_short-Single :
    (row : Row) (bl : List ℕ) (w : ℤ) (o : List MjGrain) (r : ℤ × List MjGrain)
    → Low bl
    → All Single o
    → weight_short row bl w o ≡ some r
    → All Single r.1
unfolding weight_short
weight_short-Single row [] w o r low h e =
    subst (λ (r : ℤ × List MjGrain). All Single r.1) (some-injective (w, o) r e) h
weight_short-Single row (i ∷ bl) w o r (l, low) h e =
    let (c, e1, e2) = >>=-eq-some (get_elem? row i) _ e in
    elim (Bool-cases (ltb_ℤ c (pos 3))) [
      | inl few ↦
          weight_short-Single row bl _ _ r low (push-Single (gtb_ℤ (pos 3 -ℤ c) (pos 0)) i c o l h)
            (rw few at e2)
      | inr many ↦ weight_short-Single row bl w o r low h (rw many at e2)
    ]

strip_one-Single :
    (i j : ℕ) (c : ℤ) (s : Strip) → j < 9 → All Single s.o → All Single (strip_one i j c s).o
unfolding strip_one
strip_one-Single i j c s l h = elim (Bool-cases (c -ℤ pos 1 ==ℤ pos 0)) [
  | inl gone ↦ rw gone h
  | inr more ↦ elim (Bool-cases s.isb) [
    | inl after ↦
        rw (more, after)
          (push-Single (gtb_ℤ (pos 3 -ℤ (c -ℤ pos 1)) (pos 0)) j (c -ℤ pos 1) s.o l h)
    | inr before ↦ rw (more, before) h
  ]
]

strip-Single :
    (n : ℕ) (bl : List ℕ) (s s' : Strip)
    → Low bl
    → All Single s.o
    → strip n bl s ≡ some s'
    → All Single s'.o
unfolding strip
strip-Single zero bl s s' low h e = subst (λ (s : Strip). All Single s.o) (some-injective s s' e) h
strip-Single (suc i) bl s s' low h e =
    let (j, e1, e2) = >>=-eq-some (get_elem? bl i) _ e in
    let (c, e3, e4) = >>=-eq-some (get_elem? s.row j) _ e2 in
    strip-Single i bl (strip_one i j c s) s' low
      (strip_one-Single i j c s (All-get_elem? (λ j. j < 9) bl i low e1) h) e4

missing_from-Single : (o1 o2 : List MjGrain) → All Single o1 → All Single (missing_from o1 o2)
unfolding missing_from
missing_from-Single [] o2 h = tt
missing_from-Single (g ∷ o1) o2 (s, h) =
    All-if Single (has_tile g.n o2) (missing_from o1 o2) (g ∷ missing_from o1 o2)
      (missing_from-Single o1 o2 h) (s, missing_from-Single o1 o2 h)

merge_readings-Single :
    (w : ℤ) (o : List MjGrain) (r1 r2 : ℤ × List MjGrain)
    → All Single o
    → All Single r1.1
    → All Single r2.1
    → All Single (merge_readings w o r1 r2).1
unfolding merge_readings
merge_readings-Single w o (w1, o1) (w2, o2) h h1 h2 = elim (Bool-cases (ltb_ℤ w2 w1)) [
  | inl second ↦ rw second (All-append Single o o2 h h2)
  | inr no_second ↦ elim (Bool-cases (ltb_ℤ w1 w2)) [
    | inl first ↦ rw (no_second, first) (All-append Single o o1 h h1)
    | inr both ↦
        rw (no_second, both)
          (All-append Single (o ++ missing_from o1 o2) o2
            (All-append Single o (missing_from o1 o2) h (missing_from-Single o1 o2 h1)) h2)
  ]
]

drop-Low : (n : ℕ) (bl : List ℕ) → Low bl → Low (drop n bl)
drop-Low zero bl h = h
drop-Low (suc n) [] h = tt
drop-Low (suc n) (j ∷ bl) h = drop-Low n bl h.1

weight_val-Single :
    (fuel : ℕ) (row : Row) (bl : List ℕ) (w : ℤ) (o : List MjGrain) (r : ℤ × List MjGrain)
    → Low bl
    → All Single o
    → weight_val fuel row bl w o ≡ some r
    → All Single r.1
unfolding weight_val
weight_val-Single zero row bl w o r low h e = absurd cc
weight_val-Single (suc fuel) row [] w o r low h e =
    subst (λ (r : ℤ × List MjGrain). All Single r.1) (some-injective (w, o) r e) h
weight_val-Single (suc fuel) row (b ∷ bl) w o r low h e =
    elim (Bool-cases (ltb (length (b ∷ bl)) 3)) [
      | inl short ↦ weight_short-Single row (b ∷ bl) w o r low h (rw short at e)
      | inr long ↦
          let (n, e1, e2) = >>=-eq-some (get_elem? row b) _ (rw long at e) in
          elim (Bool-cases (gtb_ℤ n (pos 2))) [
            | inl full ↦ weight_val-Single fuel row bl w o r low.1 h (rw full at e2)
            | inr few ↦
                let start : Strip = record { row = row; start = 3; isb = false; w = w; o = o } in
                let (s, e3, e4) = >>=-eq-some (strip 3 (b ∷ bl) start) _ (rw few at e2) in
                let h1 = strip-Single 3 (b ∷ bl) start s low h e3 in
                let rest : List ℕ = drop s.start (b ∷ bl) in
                let low1 = drop-Low s.start (b ∷ bl) low in
                elim (Bool-cases (ltb (length rest) 3)) [
                  | inl once ↦ weight_val-Single fuel s.row rest s.w s.o r low1 h1 (rw once at e4)
                  | inr twice ↦
                      let (r1, e5, e6) =
                        >>=-eq-some (weight_val fuel s.row rest (pos 0) []) _ (rw twice at e4) in
                      let (r2, e7, e8) =
                        >>=-eq-some (weight_val fuel s.row (reverse rest) (pos 0) []) _ e6 in
                      subst (λ (r : ℤ × List MjGrain). All Single r.1) (some-injective _ _ e8)
                        (merge_readings-Single s.w s.o r1 r2 h1
                          (weight_val-Single fuel s.row rest (pos 0) [] r1 low1 tt e5)
                          (weight_val-Single fuel s.row (reverse rest) (pos 0) [] r2
                            (All-reverse (λ j. j < 9) rest low1) tt e7))
                ]
          ]
    ]

choose_reading-Single :
    (r1 r2 : ℤ × List MjGrain)
    → All Single r1.1
    → All Single r2.1
    → All Single (choose_reading r1 r2).1
unfolding choose_reading
choose_reading-Single (w1, o1) (w2, o2) h1 h2 = elim (Bool-cases (ltb_ℤ w2 w1)) [
  | inl second ↦ rw second h2
  | inr no_second ↦ elim (Bool-cases (ltb_ℤ w1 w2)) [
    | inl first ↦ rw (no_second, first) h1
    | inr both ↦
        rw (no_second, both)
          (All-append Single o1 (missing_from o2 o1) h1 (missing_from-Single o2 o1 h2))
  ]
]

-- The tiles lie in the row, if the positions of the run do.
pub get_weight_val-Single :
    (row : Row) (bl : List ℕ) (r : ℤ × List MjGrain)
    → All (λ j. j < 9) bl
    → get_weight_val row bl ≡ some r
    → All Single r.1
unfolding get_weight_val
get_weight_val-Single row bl r low e = elim (Bool-cases (ltb (length bl) 3)) [
  | inl short ↦ weight_val-Single (weight_fuel row bl) row bl (pos 0) [] r low tt (rw short at e)
  | inr long ↦
      let (r1, e1, e2) =
        >>=-eq-some (weight_val (weight_fuel row bl) row bl (pos 0) []) _ (rw long at e) in
      let (r2, e3, e4) =
        >>=-eq-some (weight_val (weight_fuel row bl) row (reverse bl) (pos 0) []) _ e2 in
      let h1 = weight_val-Single (weight_fuel row bl) row bl (pos 0) [] r1 low tt e1 in
      let h2 =
        weight_val-Single (weight_fuel row bl) row (reverse bl) (pos 0) [] r2
          (All-reverse (λ j. j < 9) bl low) tt e3 in
      subst (λ (r : ℤ × List MjGrain). All Single r.1) (some-injective _ _ e4)
        (choose_reading-Single r1 r2 h1 h2)
]
