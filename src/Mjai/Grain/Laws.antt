-- ===== src/Mjai/Grain/Laws.antt =====
-- The choice of the best candidate, mjai/Ai.go: what `SortGrainArrs` returns.

use mathlib.Core.Logic.Or
use mathlib.Core.List.{
  Mem, Perm, mem-cons_self, mem-cons_of_mem, eq-or-mem_of_mem-cons, not-mem-nil,
}
use mathlib.Core.List.Perm
use route_server.Prelude.{
  ℕ, zero, suc, ◌+◌, ◌<◌, ℤ, pos, Bool, true, false, some, List, [], ◌∷◌, ◌≡◌, ◌⊎◌, refl, sym,
  subst, inl, inr, get_elem?, length, take, All, ◌==ℤ◌, arith, Bool-cases, ==ℤ→eq,
}
use route_server.Mjai.Bubble.Laws.{IsOrder}
use route_server.Mjai.Grain.{MjGrain, score, before, tie_cut}

abbrev pub get_or : List ℤ → ℕ → ℤ
get_or [] i = pos 0
get_or (x ∷ xs) zero = x
get_or (x ∷ xs) (suc i) = get_or xs i

-- The score at `o` of a grain that has one.
abbrev pub key : ℕ → MjGrain → ℤ
key o g = get_or g.o o

-- All grains have `n` scores.
abbrev pub Uniform : ℕ → List MjGrain → Type 0
Uniform n grs = All (λ g. length g.o ≡ n) grs

pub get_elem?-get_or : (xs : List ℤ) (i : ℕ) → i < length xs → get_elem? xs i ≡ some (get_or xs i)
get_elem?-get_or [] i h = absurd (omega arith)
get_elem?-get_or (x ∷ xs) zero h = refl
get_elem?-get_or (x ∷ xs) (suc i) h = get_elem?-get_or xs i (omega arith)

pub Uniform-HasKey :
    (n o : ℕ) (grs : List MjGrain)
    → o < n
    → Uniform n grs
    → All (λ g. score o g ≡ some (key o g)) grs
Uniform-HasKey n o [] lt u = tt
Uniform-HasKey n o (g ∷ gs) lt (e, u) =
    (get_elem?-get_or g.o o (omega arith), Uniform-HasKey n o gs lt u)

pub before-IsOrder : (d : Bool) → IsOrder (before d)
before-IsOrder true = record { asym = λ a b h. ground arith; trans = λ a b c h k. ground arith }
before-IsOrder false = record { asym = λ a b h. ground arith; trans = λ a b c h k. ground arith }

pub before_irrefl : (d : Bool) (a : ℤ) → before d a a ≡ false
before_irrefl true a = ground arith
before_irrefl false a = ground arith

module _ {A : Type 0} (P : A → Type 0) where
  pub All-of_mem : (xs : List A) → ((a : A) → Mem a xs → P a) → All P xs
  All-of_mem [] f = tt
  All-of_mem (x ∷ xs) f = (f x mem-cons_self, All-of_mem xs (λ a m. f a (mem-cons_of_mem x m)))

  pub mem-All : ((a : A) → IsProp (P a)) → (xs : List A) (a : A) → All P xs → Mem a xs → P a
  mem-All prop [] a h m = absurd (not-mem-nil m)
  mem-All prop (x ∷ xs) a h m =
      Or.elim (prop a) (eq-or-mem_of_mem-cons m) (λ e. subst P (sym e) h.0)
        (λ m'. mem-All prop xs a h.1 m')

  pub All-perm : ((a : A) → IsProp (P a)) → {xs ys : List A} → Perm ys xs → All P xs → All P ys
  All-perm prop {xs} {ys} p h = All-of_mem ys (λ a m. mem-All prop xs a h ((Perm.mem_iff p).0 m))

pub mem_of_mem-take : {A : Type 0} (n : ℕ) (xs : List A) (a : A) → Mem a (take n xs) → Mem a xs
mem_of_mem-take zero xs a m = absurd (not-mem-nil m)
mem_of_mem-take (suc n) [] a m = m
mem_of_mem-take (suc n) (x ∷ xs) a m =
    Or.elim squash₁ (eq-or-mem_of_mem-cons m)
      (λ e. subst (λ y. Mem y (x ∷ xs)) (sym e) mem-cons_self)
      (λ m'. mem-cons_of_mem x (mem_of_mem-take n xs a m'))

pub All-take : {A : Type 0} (P : A → Type 0) (n : ℕ) (xs : List A) → All P xs → All P (take n xs)
All-take P zero xs h = tt
All-take P (suc n) [] h = tt
All-take P (suc n) (x ∷ xs) h = (h.0, All-take P n xs h.1)

-- The cut keeps the first two grains, and of the others only ones with the same score.
pub tie_cut-keeps :
    (n o : ℕ) (first : ℤ) (i : ℕ) (gs : List MjGrain)
    → o < n
    → Uniform n gs
    → (c : ℕ) × (tie_cut first o i gs ≡ some (2 + c))
      × ((c ≡ 0) ⊎ ((c' : ℕ) × (c ≡ i + c') × All (λ g. key o g ≡ first) (take c' gs)))
unfolding tie_cut
tie_cut-keeps n o first i [] lt u = (0, refl, inl refl)
tie_cut-keeps n o first i (g ∷ gs) lt (e, u) =
    rw (get_elem?-get_or g.o o (omega arith)) (elim (Bool-cases (key o g ==ℤ first)) [
      | inl same ↦ rw same (longer same (tie_cut-keeps n o first (i + 1) gs lt u))
      | inr other ↦ rw other (i, refl, inr (0, omega arith, tt))
    ])
  where
    longer :
        (key o g ==ℤ first) ≡ true
        → ((c : ℕ) × (tie_cut first o (i + 1) gs ≡ some (2 + c))
            × ((c ≡ 0) ⊎ ((c' : ℕ) × (c ≡ i + 1 + c') × All (λ g. key o g ≡ first) (take c' gs))))
        → (c : ℕ) × (tie_cut first o (i + 1) gs ≡ some (2 + c))
          × ((c ≡ 0) ⊎ ((c' : ℕ) × (c ≡ i + c') × All (λ g. key o g ≡ first) (take c' (g ∷ gs))))
    longer same (c, e, inl z) = (c, e, inl z)
    longer same (c, e, inr (c', z, a)) = (c, e, inr (suc c', omega arith, (==ℤ→eq _ _ same, a)))
