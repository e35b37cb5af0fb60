-- ===== src/Mjai/Bubble/Pass.antt =====
-- One pass of mjai/Bubble.antt over a sorted list with a new last entry.
use mathlib.Core.List.{Perm, append-nil}
use mathlib.Core.List.Perm
use route_server.Prelude.{
  ℤ, Bool, false, Option, some, List, [], ◌∷◌, ◌++◌, ◌≡◌, ap, ◌∙◌, sym, length, rev_append, All,
  arith, length-rev_append,
}
use route_server.Mjai.Bubble.{bubble}
use route_server.Mjai.Bubble.Laws.{
  IsOrder, IsSorted, Descends, insert, bubble-sift, sift-insert, All-insert, insert-perm,
  rev_append-middle, insert-Descends, IsSorted-rev_append, rev_append-rev_append,
}

All-rev_append :
    {A : Type 0} (P : A → Type 0) (xs ys : List A) → All P xs → All P ys → All P (rev_append xs ys)
All-rev_append P [] ys h g = g
All-rev_append P (x ∷ xs) ys (hx, h) g = All-rev_append P xs (x ∷ ys) h (hx, g)

module _ {A : Type 0} (key : A → Option ℤ) (lt : ℤ → ℤ → Bool) (k : A → ℤ) (o : IsOrder lt) where
  Descends-rev_append :
      (xs pre : List A)
      → IsSorted key lt k xs
      → Descends key lt k pre
      → All (λ x. All (λ p. lt (k x) (k p) ≡ false) pre) xs
      → Descends key lt k (rev_append xs pre)
  Descends-rev_append [] pre s d a = d
  Descends-rev_append (x ∷ xs) pre s d a =
      Descends-rev_append xs (x ∷ pre) s.1 (a.0, d) (both xs s.0 a.1)
    where
      both :
          (ys : List A)
          → All (λ y. lt (k y) (k x) ≡ false) ys
          → All (λ y. All (λ p. lt (k y) (k p) ≡ false) pre) ys
          → All (λ y. All (λ p. lt (k y) (k p) ≡ false) (x ∷ pre)) ys
      both [] f g = tt
      both (y ∷ ys) f g = ((f.0, g.0), both ys f.1 g.1)

  none_above : (xs : List A) → All (λ x. All (λ p. lt (k x) (k p) ≡ false) []) xs
  none_above [] = tt
  none_above (x ∷ xs) = (tt, none_above xs)

  none_below : (xs : List A) → All (λ p. All (λ y. lt (k y) (k p) ≡ false) []) xs
  none_below [] = tt
  none_below (x ∷ xs) = (tt, none_below xs)

  -- The pass sorts the list.
  pub bubble-last :
      (xs : List A) (x : A)
      → All (λ a. key a ≡ some (k a)) xs
      → key x ≡ some (k x)
      → IsSorted key lt k xs
      → (ys : List A) × (bubble key lt (xs ++ x ∷ []) (length xs) ≡ some ys)
        × Perm ys (x ∷ xs)
        × All (λ a. key a ≡ some (k a)) ys
        × IsSorted key lt k ys
  bubble-last xs x hs h s =
      let pre : List A = rev_append xs [] in
      let keyed : All (λ a. key a ≡ some (k a)) pre =
        All-rev_append (λ a. key a ≡ some (k a)) xs [] hs tt in
      let d : Descends key lt k pre = Descends-rev_append xs [] s tt (none_above xs) in
      let whole : rev_append pre (x ∷ []) ≡ xs ++ x ∷ [] =
        rev_append-rev_append key lt k o xs [] (x ∷ []) in
      let size : length pre ≡ length xs = omega (arith, length-rev_append xs []) in
      let passed = bubble-sift key lt k pre x [] keyed h in
      let same : Perm pre xs = rw (append-nil xs) at (rev_append-middle key lt k xs []) in
      let ins : List A = insert key lt k x pre in
      (
        rev_append ins [],
        (λ t. bubble key lt (sym whole t) (sym size t))
            ∙ passed
            ∙ ap some (sift-insert key lt k pre x [] d),
        Perm.trans (rw (append-nil ins) at (rev_append-middle key lt k ins []))
            (Perm.trans (insert-perm key lt k x pre) (Perm.cons x same)),
        All-rev_append (λ a. key a ≡ some (k a)) ins []
            (All-insert key lt k (λ a. key a ≡ some (k a)) x pre h keyed) tt,
        IsSorted-rev_append key lt k o ins [] (insert-Descends key lt k o x pre d) tt
            (none_below ins),
      )
