-- ===== src/Mjai/Grain/Best.antt =====
-- mjai/Ai.go: `SortGrainArrs` returns one of the candidates, and one of the best first score.
use mathlib.Core.List.{Mem, Perm, mem-cons_self}
use mathlib.Core.List.Perm
use mathlib.Core.Bool.{Bool-set}
use native.Mathlib.Nat.{ℕ_set}
use route_server.Prelude.{
  ℕ, suc, ◌+◌, ◌<◌, ℤ, Bool, true, false, ◌||◌, Option, some, List, [], ◌∷◌, ◌≡◌, ◌⊎◌, refl, sym,
  ap, ◌∙◌, subst, inl, inr, ◌>>=◌, length, take, All, ◌==ℤ◌, ◌==◌, leb, if◌then◌else◌, arith, ℤ-set,
  Bool-cases, ==ℤ→eq,
}
use route_server.Mjai.Bubble.{sort_all}
use route_server.Mjai.Bubble.Laws.{IsSorted, sort_all-sorts, sort_all-equal}
use route_server.Mjai.Grain.{MjGrain, score, before, tie_cut, sort_grain_arrs}
use route_server.Mjai.Grain.Laws.{
  key, Uniform, Uniform-HasKey, before-IsOrder, before_irrefl, get_elem?-get_or, mem_of_mem-take,
  All-take, All-perm, mem-All, tie_cut-keeps,
}

abbrev IsFirst : Bool → ℕ → List MjGrain → ℤ → Type 0
IsFirst d o grs k = All (λ g. before d (key o g) k ≡ false) grs

-- The grains of a list sorted by the score `o`.
record Sorted (d : Bool) (o n : ℕ) (grs : List MjGrain) : Type 0 where
  first : MjGrain
  second : MjGrain
  rest : List MjGrain
  sorted : sort_all (score o) (before d) grs ≡ some (first ∷ second ∷ rest)
  same : Perm (first ∷ second ∷ rest) grs
  best : IsFirst d o grs (key o first)
  uniform : Uniform n (first ∷ second ∷ rest)

module _ (d : Bool) (o n : ℕ) (lt : o < n) where
  sort-Sorted :
      (a b : MjGrain) (gs : List MjGrain) → Uniform n (a ∷ b ∷ gs) → Sorted d o n (a ∷ b ∷ gs)
  sort-Sorted a b gs u = split (
      sort_all-sorts (score o) (before d) (key o) (before-IsOrder d) (a ∷ b ∷ gs)
        (Uniform-HasKey n o (a ∷ b ∷ gs) lt u))
    where
      split :
          (ys : List MjGrain) × (sort_all (score o) (before d) (a ∷ b ∷ gs) ≡ some ys)
            × Perm ys (a ∷ b ∷ gs)
            × IsSorted (score o) (before d) (key o) ys
            × (length ys ≡ length (a ∷ b ∷ gs))
          → Sorted d o n (a ∷ b ∷ gs)
      split ([], e, p, s, l) = absurd (omega arith)
      split (x ∷ [], e, p, s, l) = absurd (omega arith)
      split (x ∷ y ∷ zs, e, p, s, l) = record {
        first = x;
        second = y;
        rest = zs;
        sorted = e;
        same = p;
        best =
            All-perm (λ g. before d (key o g) (key o x) ≡ false) (λ g. Bool-set _ _) (Perm.symm p)
              (before_irrefl d (key o x), s.0);
        uniform = All-perm (λ g. length g.o ≡ n) (λ g. ℕ_set _ _) p u;
      }

abbrev Chooses : List Bool → ℕ → List MjGrain → Type 0
Chooses isd o grs = (r : MjGrain) × (sort_grain_arrs isd grs o ≡ some r) × Mem r grs

-- What the code does behind the sort.
abbrev after_sort : List Bool → ℕ → MjGrain → MjGrain → List MjGrain → Option MjGrain
after_sort isd o first second rest =
    if key o first ==ℤ key o second
    then (do
      cut ← tie_cut (key o first) o 0 rest
      sort_grain_arrs isd (take cut (first ∷ second ∷ rest)) (suc o))
    else some first

module _ (d : Bool) (isd : List Bool) (o n : ℕ) (lt : o < n) where
  abbrev Best : List MjGrain → Option MjGrain → Type 0
  Best grs m = (r : MjGrain) × (m ≡ some r) × Mem r grs × IsFirst d o grs (key o r)

  -- The candidates that are left when the first two tie have the best score.
  tied-Best :
      (grs : List MjGrain) (s : Sorted d o n grs) (c : ℕ)
      → key o s.first ≡ key o s.second
      → All (λ g. key o g ≡ key o s.first) (take c s.rest)
      → Chooses isd (suc o) (take (suc (suc c)) (s.first ∷ s.second ∷ s.rest))
      → Best grs (sort_grain_arrs isd (take (suc (suc c)) (s.first ∷ s.second ∷ s.rest)) (suc o))
  tied-Best grs s c tie keys (r, e, m) =
      let same : key o r ≡ key o s.first =
        mem-All (λ g. key o g ≡ key o s.first) (λ g. ℤ-set _ _) (s.first ∷ s.second ∷ take c s.rest)
          r (refl, (sym tie, keys)) m in
      (
        r,
        e,
        (Perm.mem_iff s.same).0 (mem_of_mem-take (suc (suc c)) (s.first ∷ s.second ∷ s.rest) r m),
        subst (IsFirst d o grs) (sym same) s.best,
      )

  after_sort-Best :
      (grs : List MjGrain) (s : Sorted d o n grs)
      → ((gs : List MjGrain) → 0 < length gs → Uniform n gs → Chooses isd (suc o) gs)
      → Best grs (after_sort isd o s.first s.second s.rest)
  after_sort-Best grs s ih = elim (Bool-cases (key o s.first ==ℤ key o s.second)) [
    | inr other ↦ rw other (s.first, refl, (Perm.mem_iff s.same).0 mem-cons_self, s.best)
    | inl tie ↦
        let (c, cut, kept) = tie_cut-keeps n o (key o s.first) 0 s.rest lt s.uniform.1.1 in
        rw (tie, cut, two c)
          (tied-Best grs s c (==ℤ→eq _ _ tie) (keys c kept)
            (ih _ (omega arith) (All-take _ (suc (suc c)) (s.first ∷ s.second ∷ s.rest) s.uniform)))
  ]
    where
      two : (c : ℕ) → 2 + c ≡ suc (suc c)
      two c = omega arith

      keys :
          (c : ℕ)
          → (c ≡ 0)
            ⊎ ((c' : ℕ) × (c ≡ 0 + c') × All (λ g. key o g ≡ key o s.first) (take c' s.rest))
          → All (λ g. key o g ≡ key o s.first) (take c s.rest)
      keys c (inl z) = rw z tt
      keys c (inr (c', z, a)) = let e : c ≡ c' = omega arith in rw e a

  sort_grain_arrs-Best :
      (a b : MjGrain) (gs : List MjGrain)
      → Uniform n (a ∷ b ∷ gs)
      → ((gs : List MjGrain) → 0 < length gs → Uniform n gs → Chooses isd (suc o) gs)
      → Best (a ∷ b ∷ gs) (sort_grain_arrs (d ∷ isd) (a ∷ b ∷ gs) o)
  unfolding sort_grain_arrs
  sort_grain_arrs-Best a b gs u ih =
      let s = sort-Sorted d o n lt a b gs u in
      rw
        (
          not_last,
          s.sorted,
          get_elem?-get_or s.first.o o (omega (arith, s.uniform.0)),
          get_elem?-get_or s.second.o o (omega (arith, s.uniform.1.0)),
        )
        (after_sort-Best (a ∷ b ∷ gs) s ih)
    where
      not_last : (leb (length a.o) o || length (a ∷ b ∷ gs) == 1) ≡ false
      not_last = ground arith

-- A choice among at least one candidate returns one of them.
choice :
    (isd : List Bool) (grs : List MjGrain) (o n : ℕ)
    → 0 < length grs
    → Uniform n grs
    → Chooses isd o grs
unfolding sort_grain_arrs
choice isd [] o n some_left u = absurd (omega arith)
choice [] (a ∷ gs) o n some_left u = (a, refl, mem-cons_self)
choice (d ∷ isd) (a ∷ []) o n some_left u = (a, ground arith, mem-cons_self)
choice (d ∷ isd) (a ∷ b ∷ gs) o n some_left u = elim (Bool-cases (leb n o)) [
  | inl past ↦ (a, rw (stops past), mem-cons_self)
  | inr more ↦
      let (r, e, m, f) =
        sort_grain_arrs-Best d isd o n (ground arith) a b gs u
          (λ gs' p u'. choice isd gs' (suc o) n p u') in
      (r, e, m)
]
  where
    stops : leb n o ≡ true → (leb (length a.o) o || length (a ∷ b ∷ gs) == 1) ≡ true
    stops past = ground arith

-- Of at least one candidate, all with one number of scores above `o`, `SortGrainArrs` returns one of
-- them, and no other has a better score at `o`: a greater one where `isd[o]` is set, a lesser one where it is not.
pub sort_grain_arrs_best :
    (d : Bool) (isd : List Bool) (grs : List MjGrain) (o n : ℕ)
    → o < n
    → 0 < length grs
    → Uniform n grs
    → (r : MjGrain) × (sort_grain_arrs (d ∷ isd) grs o ≡ some r)
      × Mem r grs
      × All (λ g. before d (key o g) (key o r) ≡ false) grs
unfolding sort_grain_arrs
sort_grain_arrs_best d isd [] o n lt some_left u = absurd (omega arith)
sort_grain_arrs_best d isd (a ∷ []) o n lt some_left u =
    (a, ground arith, mem-cons_self, (before_irrefl d (key o a), tt))
sort_grain_arrs_best d isd (a ∷ b ∷ gs) o n lt some_left u =
    sort_grain_arrs-Best d isd o n lt a b gs u (λ gs' p u'. choice isd gs' (suc o) n p u')

tie_cut-tied :
    (o : ℕ) (c : ℤ) (i : ℕ) (gs : List MjGrain)
    → All (λ g. score o g ≡ some c) gs
    → tie_cut c o i gs ≡ some 2
unfolding tie_cut
tie_cut-tied o c i [] h = refl
tie_cut-tied o c i (g ∷ gs) (e, h) = rw (e, same c) (tie_cut-tied o c (i + 1) gs h)
  where
    same : (c : ℤ) → (c ==ℤ c) ≡ true
    same c = ground arith

-- Where all of at least two candidates have one score `c` at `o`, only the first two go on to the
-- next score: the others are dropped, however good they are there.
pub sort_grain_arrs-tied :
    (d : Bool) (isd : List Bool) (a b : MjGrain) (gs : List MjGrain) (o n : ℕ) (c : ℤ)
    → o < n
    → Uniform n (a ∷ b ∷ gs)
    → All (λ g. key o g ≡ c) (a ∷ b ∷ gs)
    → sort_grain_arrs (d ∷ isd) (a ∷ b ∷ gs) o ≡ sort_grain_arrs isd (a ∷ b ∷ []) (suc o)
unfolding sort_grain_arrs
sort_grain_arrs-tied d isd a b gs o n c lt u ties = rw (
  not_last,
  sort_all-equal (score o) (before d) (key o) (before-IsOrder d) c (a ∷ b ∷ gs) (before_irrefl d c)
      (Uniform-HasKey n o (a ∷ b ∷ gs) lt u) ties,
  get_elem?-get_or a.o o (omega (arith, u.0)),
  get_elem?-get_or b.o o (omega (arith, u.1.0)),
  ties.0,
  ties.1.0,
  same c,
  tie_cut-tied o c 0 gs (at_score gs u.1.1 ties.1.1),
)
  where
    not_last : (leb (length a.o) o || length (a ∷ b ∷ gs) == 1) ≡ false
    not_last = ground arith

    same : (c : ℤ) → (c ==ℤ c) ≡ true
    same c = ground arith

    at_score :
        (gs : List MjGrain)
        → Uniform n gs
        → All (λ g. key o g ≡ c) gs
        → All (λ g. score o g ≡ some c) gs
    at_score [] u h = tt
    at_score (g ∷ gs) (e, u) (h, hs) =
        (get_elem?-get_or g.o o (omega arith) ∙ ap some h, at_score gs u hs)
