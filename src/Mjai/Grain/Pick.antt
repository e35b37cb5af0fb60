-- ===== src/Mjai/Grain/Pick.antt =====
-- mjai/Ai.go: `SortGrainArrs` on candidates that have at least as many scores as it compares.
use mathlib.Core.List.{Mem, Perm, mem-cons_self}
use mathlib.Core.List.Perm
use native.Mathlib.Bridge.{le_prop}
use route_server.Prelude.{
  ℕ, suc, ◌+◌, ◌<◌, ◌≤◌, ℤ, Bool, false, some, List, [], ◌∷◌, ◌≡◌, refl, inl, inr, length, take,
  All, All-map, ◌==ℤ◌, ◌==◌, leb, arith, Bool-cases, Gives,
}
use route_server.Mjai.Bubble.{sort_all}
use route_server.Mjai.Bubble.Laws.{IsSorted, sort_all-sorts}
use route_server.Mjai.Grain.{MjGrain, score, before, tie_cut, sort_grain_arrs}
use route_server.Mjai.Grain.Laws.{
  key, before-IsOrder, get_elem?-get_or, mem_of_mem-take, All-take, All-perm,
}

-- All grains have at least `n` scores.
abbrev pub AtLeast : ℕ → List MjGrain → Type 0
AtLeast n grs = All (λ g. n ≤ length g.o) grs

tie_cut-two :
    (n o : ℕ) (first : ℤ) (i : ℕ) (gs : List MjGrain)
    → o < n
    → AtLeast n gs
    → (c : ℕ) × (tie_cut first o i gs ≡ some (2 + c))
unfolding tie_cut
tie_cut-two n o first i [] lt u = (0, refl)
tie_cut-two n o first i (g ∷ gs) lt (e, u) =
    rw (get_elem?-get_or g.o o (omega arith)) (elim (Bool-cases (key o g ==ℤ first)) [
      | inl same ↦ rw same (tie_cut-two n o first (i + 1) gs lt u)
      | inr other ↦ rw other (i, refl)
    ])

-- The first two of the sorted candidates.
record Pair (d : Bool) (o n : ℕ) (grs : List MjGrain) : Type 0 where
  first : MjGrain
  second : MjGrain
  rest : List MjGrain
  sorted : sort_all (score o) (before d) grs ≡ some (first ∷ second ∷ rest)
  same : Perm (first ∷ second ∷ rest) grs
  enough : AtLeast n (first ∷ second ∷ rest)

sort-Pair :
    (d : Bool) (o n : ℕ) (a b : MjGrain) (gs : List MjGrain)
    → o < n
    → AtLeast n (a ∷ b ∷ gs)
    → Pair d o n (a ∷ b ∷ gs)
sort-Pair d o n a b gs lt u = split (
    sort_all-sorts (score o) (before d) (key o) (before-IsOrder d) (a ∷ b ∷ gs) (
      All-map (λ (g : MjGrain). n ≤ length g.o) (λ g. score o g ≡ some (key o g)) (a ∷ b ∷ gs)
        (λ g h. get_elem?-get_or g.o o (omega arith)) u))
  where
    split :
        (ys : List MjGrain) × (sort_all (score o) (before d) (a ∷ b ∷ gs) ≡ some ys)
          × Perm ys (a ∷ b ∷ gs)
          × IsSorted (score o) (before d) (key o) ys
          × (length ys ≡ length (a ∷ b ∷ gs))
        → Pair d o n (a ∷ b ∷ gs)
    split ([], e, p, s, l) = absurd (omega arith)
    split (x ∷ [], e, p, s, l) = absurd (omega arith)
    split (x ∷ y ∷ zs, e, p, s, l) = record {
      first = x;
      second = y;
      rest = zs;
      sorted = e;
      same = p;
      enough = All-perm (λ g. n ≤ length g.o) (λ g. le_prop) p u;
    }

-- Of at least one candidate, all with at least as many scores as there are orders to compare by,
-- `SortGrainArrs` returns one.
pub sort_grain_arrs-picks :
    (isd : List Bool) (grs : List MjGrain) (o n : ℕ)
    → o + length isd ≤ n
    → 0 < length grs
    → AtLeast n grs
    → Gives (sort_grain_arrs isd grs o) (λ r. Mem r grs)
unfolding sort_grain_arrs
sort_grain_arrs-picks isd [] o n le some_one u = absurd (omega arith)
sort_grain_arrs-picks [] (a ∷ gs) o n le some_one u = (a, refl, mem-cons_self)
sort_grain_arrs-picks (d ∷ isd) (a ∷ []) o n le some_one u =
    let enough = u.0 in
    let test : leb (length a.o) o ≡ false = ground arith in rw test (a, refl, mem-cons_self)
sort_grain_arrs-picks (d ∷ isd) (a ∷ b ∷ gs) o n le some_one u =
    let enough = u.0 in
    let test : leb (length a.o) o ≡ false = ground arith in
    let several : (length (a ∷ b ∷ gs) == 1) ≡ false = ground arith in
    let s = sort-Pair d o n a b gs (omega arith) u in
    let e1 = s.enough.0 in
    let e2 = s.enough.1.0 in
    let (c, cut) = tie_cut-two n o (key o s.first) 0 s.rest (omega arith) s.enough.1.1 in
    let two : 2 + c ≡ suc (suc c) = omega arith in
    let sorted : List MjGrain = s.first ∷ s.second ∷ s.rest in
    let (r, e, m) =
      sort_grain_arrs-picks isd (take (suc (suc c)) sorted) (suc o) n (omega arith) (omega arith)
        (All-take (λ (g : MjGrain). n ≤ length g.o) (suc (suc c)) sorted s.enough) in
    rw
      (
        test,
        several,
        s.sorted,
        get_elem?-get_or s.first.o o (omega arith),
        get_elem?-get_or s.second.o o (omega arith),
      )
      (elim (Bool-cases (key o s.first ==ℤ key o s.second)) [
        | inl tie ↦
            rw (tie, cut, two)
              (r, e, (Perm.mem_iff s.same).0 (mem_of_mem-take (suc (suc c)) sorted r m))
        | inr other ↦ rw other (s.first, refl, (Perm.mem_iff s.same).0 mem-cons_self)
      ])
