-- ===== src/Mjai/Bubble/Laws.antt =====
-- What the passes and the sort of mjai/Bubble.antt do to a list: `SortGrain`, `SortdGrain` and
-- `SortNewBlock` are instances.
use mathlib.Core.List.{Perm, append-nil, perm_middle}
use mathlib.Core.List.Perm
use route_server.Prelude.{
  ℕ, zero, suc, ◌+◌, ℤ, Bool, true, false, Option, some, List, [], ◌∷◌, ◌++◌, ◌≡◌, refl, inl, inr,
  get_elem?, set, length, if◌then◌else◌, rev_append, All, arith, Bool-cases, length-rev_append,
}
use route_server.Mjai.Bubble.{bubble, rounds, sort_all}

-- A strict order whose failure is transitive.
pub record IsOrder (lt : ℤ → ℤ → Bool) : Type 0 where
  pub asym : (a b : ℤ) → lt a b ≡ true → lt b a ≡ false
  pub trans : (a b c : ℤ) → lt b a ≡ false → lt c b ≡ false → lt c a ≡ false

module _ {A : Type 0} where
  get_elem?-rev_append :
      (pre : List A) (k : ℕ) (ys : List A)
      → get_elem? (rev_append pre ys) (length pre + k) ≡ get_elem? ys k
  get_elem?-rev_append [] k ys = rw (zero_add k)
    where
      zero_add : (k : ℕ) → zero + k ≡ k
      zero_add k = omega arith
  get_elem?-rev_append (p ∷ pre) k ys = rw (shift k) (get_elem?-rev_append pre (suc k) (p ∷ ys))
    where
      shift : (k : ℕ) → suc (length pre) + k ≡ length pre + suc k
      shift k = omega arith

  set-rev_append :
      (pre : List A) (k : ℕ) (ys : List A) (v : A)
      → set (rev_append pre ys) (length pre + k) v ≡ rev_append pre (set ys k v)
  set-rev_append [] k ys v = rw (zero_add k)
    where
      zero_add : (k : ℕ) → zero + k ≡ k
      zero_add k = omega arith
  set-rev_append (p ∷ pre) k ys v = rw (shift k) (set-rev_append pre (suc k) (p ∷ ys) v)
    where
      shift : (k : ℕ) → suc (length pre) + k ≡ length pre + suc k
      shift k = omega arith

  pub at_zero :
      (pre : List A) (y : A) (ys : List A)
      → get_elem? (rev_append pre (y ∷ ys)) (length pre) ≡ some y
  at_zero pre y ys = rw add_zero at (get_elem?-rev_append pre 0 (y ∷ ys))
    where
      add_zero : length pre + 0 ≡ length pre
      add_zero = omega arith

  at_one :
      (pre : List A) (y z : A) (ys : List A)
      → get_elem? (rev_append pre (y ∷ z ∷ ys)) (suc (length pre)) ≡ some z
  at_one pre y z ys = rw add_one at (get_elem?-rev_append pre 1 (y ∷ z ∷ ys))
    where
      add_one : length pre + 1 ≡ suc (length pre)
      add_one = omega arith

  swap_front :
      (pre : List A) (y z : A) (ys : List A)
      → set (set (rev_append pre (y ∷ z ∷ ys)) (suc (length pre)) y) (length pre) z
        ≡ rev_append pre (z ∷ y ∷ ys)
  swap_front pre y z ys =
      rw (one, set-rev_append pre 1 (y ∷ z ∷ ys) y, zeroth, set-rev_append pre 0 (y ∷ y ∷ ys) z)
    where
      one : suc (length pre) ≡ length pre + 1
      one = omega arith

      zeroth : length pre ≡ length pre + 0
      zeroth = omega arith

-- `k` is the value of the key wherever it can be read.
module _ {A : Type 0} (key : A → Option ℤ) (lt : ℤ → ℤ → Bool) (k : A → ℤ) where
  abbrev pub HasKey : A → Type 0
  HasKey a = key a ≡ some (k a)

  -- No later entry comes before an earlier one.
  abbrev pub IsSorted : List A → Type 0
  IsSorted [] = Unit
  IsSorted (x ∷ xs) = All (λ y. lt (k y) (k x) ≡ false) xs × IsSorted xs

  -- A pass, over the entries in front of `x` in reversed order.
  pub sift : List A → A → List A → List A
  sift [] x rest = x ∷ rest
  sift (p ∷ pre) x rest = if lt (k x) (k p) then sift pre x (p ∷ rest) else sift pre p (x ∷ rest)

  pub bubble-sift :
      (pre : List A) (x : A) (rest : List A)
      → All HasKey pre
      → HasKey x
      → bubble key lt (rev_append pre (x ∷ rest)) (length pre) ≡ some (sift pre x rest)
  unfolding bubble sift
  bubble-sift [] x rest hs h = refl
  bubble-sift (p ∷ pre) x rest (hp, hs) h =
      rw (at_one pre p x rest, h, at_zero pre p (x ∷ rest), hp)
        (elim (Bool-cases (lt (k x) (k p))) [
          | inl e ↦ rw (e, swap_front pre p x rest) (bubble-sift pre x (p ∷ rest) hs h)
          | inr e ↦ rw e (bubble-sift pre p (x ∷ rest) hs hp)
        ])

  -- The insertion that a pass makes, into entries in reversed order.
  pub insert : A → List A → List A
  insert x [] = x ∷ []
  insert x (p ∷ pre) = if lt (k x) (k p) then p ∷ insert x pre else x ∷ p ∷ pre

  insert_all : List A → List A → List A
  insert_all pre [] = pre
  insert_all pre (x ∷ xs) = insert_all (insert x pre) xs

  abbrev pub Descends : List A → Type 0
  Descends [] = Unit
  Descends (p ∷ pre) = All (λ y. lt (k p) (k y) ≡ false) pre × Descends pre

  All-map : {P Q : A → Type 0} (xs : List A) → ((a : A) → P a → Q a) → All P xs → All Q xs
  All-map [] f h = tt
  All-map (x ∷ xs) f (h, hs) = (f x h, All-map xs f hs)

  pub All-insert : (P : A → Type 0) (x : A) (pre : List A) → P x → All P pre → All P (insert x pre)
  unfolding insert
  All-insert P x [] h hs = (h, tt)
  All-insert P x (p ∷ pre) h (hp, hs) = elim (Bool-cases (lt (k x) (k p))) [
    | inl e ↦ rw e (hp, All-insert P x pre h hs)
    | inr e ↦ rw e (h, (hp, hs))
  ]

  All-insert_all :
      (P : A → Type 0) (pre xs : List A) → All P pre → All P xs → All P (insert_all pre xs)
  unfolding insert_all
  All-insert_all P pre [] h hs = h
  All-insert_all P pre (x ∷ xs) h (hx, hs) =
      All-insert_all P (insert x pre) xs (All-insert P x pre hx h) hs

  sift_settled :
      (pre : List A) (x : A) (rest : List A)
      → All (λ y. lt (k x) (k y) ≡ false) pre
      → Descends pre
      → sift pre x rest ≡ rev_append pre (x ∷ rest)
  unfolding sift
  sift_settled [] x rest hs d = refl
  sift_settled (p ∷ pre) x rest (e, hs) d = rw e (sift_settled pre p (x ∷ rest) d.0 d.1)

  pub sift-insert :
      (pre : List A) (x : A) (rest : List A)
      → Descends pre
      → sift pre x rest ≡ rev_append (insert x pre) rest
  unfolding sift insert
  sift-insert [] x rest d = refl
  sift-insert (p ∷ pre) x rest d = elim (Bool-cases (lt (k x) (k p))) [
    | inl e ↦ rw e (sift-insert pre x (p ∷ rest) d.1)
    | inr e ↦ rw e (sift_settled pre p (x ∷ rest) d.0 d.1)
  ]

  length-insert : (x : A) (pre : List A) → length (insert x pre) ≡ suc (length pre)
  unfolding insert
  length-insert x [] = refl
  length-insert x (p ∷ pre) = ground (arith, length-insert x pre)

  length-insert_all : (pre xs : List A) → length (insert_all pre xs) ≡ length pre + length xs
  unfolding insert_all
  length-insert_all pre [] = omega arith
  length-insert_all pre (x ∷ xs) =
      omega (arith, length-insert_all (insert x pre) xs, length-insert x pre)

  pub insert-perm : (x : A) (pre : List A) → Perm (insert x pre) (x ∷ pre)
  unfolding insert
  insert-perm x [] = Perm.refl (x ∷ [])
  insert-perm x (p ∷ pre) = elim (Bool-cases (lt (k x) (k p))) [
    | inl e ↦ rw e (Perm.trans (Perm.cons p (insert-perm x pre)) (Perm.swap x p pre))
    | inr e ↦ rw e (Perm.refl (x ∷ p ∷ pre))
  ]

  insert_all-perm : (pre xs : List A) → Perm (insert_all pre xs) (rev_append xs pre)
  unfolding insert_all
  insert_all-perm pre [] = Perm.refl pre
  insert_all-perm pre (x ∷ xs) =
      Perm.trans (insert_all-perm (insert x pre) xs) (rev_append-perm xs (insert-perm x pre))
    where
      rev_append-perm :
          (zs : List A) {a b : List A} → Perm a b → Perm (rev_append zs a) (rev_append zs b)
      rev_append-perm [] p = p
      rev_append-perm (z ∷ zs) p = rev_append-perm zs (Perm.cons z p)

  pub rev_append-middle : (xs ys : List A) → Perm (rev_append xs ys) (xs ++ ys)
  rev_append-middle [] ys = Perm.refl ys
  rev_append-middle (x ∷ xs) ys = Perm.trans (rev_append-middle xs (x ∷ ys)) (perm_middle xs ys)

  module _ (o : IsOrder lt) where
    pub insert-Descends : (x : A) (pre : List A) → Descends pre → Descends (insert x pre)
    unfolding insert
    insert-Descends x [] d = (tt, tt)
    insert-Descends x (p ∷ pre) d = elim (Bool-cases (lt (k x) (k p))) [
      | inl e ↦ rw e (
        All-insert (λ y. lt (k p) (k y) ≡ false) x pre (o.asym _ _ e) d.0,
        insert-Descends x pre d.1,
      )
      | inr e ↦ rw e ((e, All-map pre (λ y h. o.trans (k y) (k p) (k x) h e) d.0), d)
    ]

    insert_all-Descends : (pre xs : List A) → Descends pre → Descends (insert_all pre xs)
    unfolding insert_all
    insert_all-Descends pre [] d = d
    insert_all-Descends pre (x ∷ xs) d =
        insert_all-Descends (insert x pre) xs (insert-Descends x pre d)

    rounds-insert_all :
        (pre xs : List A)
        → All HasKey pre
        → All HasKey xs
        → Descends pre
        → rounds key lt (length xs) (length pre) (rev_append pre xs)
          ≡ some (rev_append (insert_all pre xs) [])
    unfolding rounds insert_all
    rounds-insert_all pre [] hs h d = refl
    rounds-insert_all pre (x ∷ xs) hs (h, hxs) d =
        rw (bubble-sift pre x xs hs h, sift-insert pre x xs d, ← length-insert x pre)
          (rounds-insert_all (insert x pre) xs (All-insert HasKey x pre h hs) hxs
            (insert-Descends x pre d))

    pub IsSorted-rev_append :
        (pre ys : List A)
        → Descends pre
        → IsSorted ys
        → All (λ p. All (λ y. lt (k y) (k p) ≡ false) ys) pre
        → IsSorted (rev_append pre ys)
    IsSorted-rev_append [] ys d s a = s
    IsSorted-rev_append (p ∷ pre) ys d s a =
        IsSorted-rev_append pre (p ∷ ys) d.1 (a.0, s) (both pre d.0 a.1)
      where
        both :
            (pre : List A)
            → All (λ y. lt (k p) (k y) ≡ false) pre
            → All (λ p. All (λ y. lt (k y) (k p) ≡ false) ys) pre
            → All (λ q. All (λ y. lt (k y) (k q) ≡ false) (p ∷ ys)) pre
        both [] f g = tt
        both (q ∷ pre) f g = ((f.0, g.0), both pre f.1 g.1)

    -- The sort returns, with a sorted list of the same entries.
    pub sort_all-sorts :
        (xs : List A)
        → All HasKey xs
        → (ys : List A) × (sort_all key lt xs ≡ some ys)
          × Perm ys xs
          × IsSorted ys
          × (length ys ≡ length xs)
    unfolding sort_all
    sort_all-sorts xs h = (
      rev_append (insert_all [] xs) [],
      rounds-insert_all [] xs tt h tt,
      Perm.trans (rev_append-middle (insert_all [] xs) []) (
          rw (append-nil (insert_all [] xs))
            (Perm.trans (insert_all-perm [] xs) (rw (append-nil xs) at (rev_append-middle xs [])))),
      IsSorted-rev_append (insert_all [] xs) [] (insert_all-Descends [] xs tt) tt
          (none_after (insert_all [] xs)),
      omega (arith, length-rev_append (insert_all [] xs) [], length-insert_all [] xs),
    )
      where
        none_after : (zs : List A) → All (λ p. All (λ y. lt (k y) (k p) ≡ false) []) zs
        none_after [] = tt
        none_after (z ∷ zs) = (tt, none_after zs)

    insert_all_equal :
        (c : ℤ) (pre xs : List A)
        → lt c c ≡ false
        → All (λ a. k a ≡ c) pre
        → All (λ a. k a ≡ c) xs
        → insert_all pre xs ≡ rev_append xs pre
    unfolding insert_all insert
    insert_all_equal c pre [] e hs h = refl
    insert_all_equal c [] (x ∷ xs) e hs (h, hx) = insert_all_equal c (x ∷ []) xs e (h, tt) hx
    insert_all_equal c (p ∷ pre) (x ∷ xs) e (hp, hs) (h, hx) =
        let stays : lt (k x) (k p) ≡ false = rw (h, hp) e in
        rw stays (insert_all_equal c (x ∷ p ∷ pre) xs e (h, (hp, hs)) hx)

    pub rev_append-rev_append :
        (xs ys zs : List A) → rev_append (rev_append xs ys) zs ≡ rev_append ys (xs ++ zs)
    rev_append-rev_append [] ys zs = refl
    rev_append-rev_append (x ∷ xs) ys zs = rev_append-rev_append xs (x ∷ ys) zs

    -- The sort leaves entries with equal keys where they are.
    pub sort_all-equal :
        (c : ℤ) (xs : List A)
        → lt c c ≡ false
        → All HasKey xs
        → All (λ a. k a ≡ c) xs
        → sort_all key lt xs ≡ some xs
    unfolding sort_all
    sort_all-equal c xs e h hc = rw (
      rounds-insert_all [] xs tt h tt,
      insert_all_equal c [] xs e tt hc,
      rev_append-rev_append xs [] [],
      append-nil xs,
    )
