-- ===== src/Mjai/Weight/Runs.antt =====
-- The runs of a row for mjai's `WeightVal`: distinct positions at which the row has tiles.
use mathlib.Core.List.{reverse-cons}
use route_server.Prelude.{
  ℕ, suc, pos, some, List, [], ◌∷◌, ◌++◌, reverse, ◌≡◌, ◌≢◌, sym, get_elem?, All, All-append,
}
use route_server.Mjai.Weight.{Row}

-- The row has tiles at position `j`.
abbrev pub Held : Row → ℕ → Type 0
Held row j = (c : ℕ) × (get_elem? row j ≡ some (pos (suc c)))

abbrev pub Apart : ℕ → List ℕ → Type 0
Apart j bl = All (λ i. j ≢ i) bl

abbrev pub Distinct : List ℕ → Type 0
Distinct [] = Unit
Distinct (j ∷ bl) = Apart j bl × Distinct bl

-- The positions of a run are distinct, and the row has tiles at each.
pub record IsRun (row : Row) (bl : List ℕ) : Type 0 where
  pub held : All (Held row) bl
  pub distinct : Distinct bl

pub All-reverse : {A : Type 0} (P : A → Type 0) (xs : List A) → All P xs → All P (reverse xs)
All-reverse P [] h = tt
All-reverse P (x ∷ xs) h =
    rw (reverse-cons x xs) (All-append P (reverse xs) (x ∷ []) (All-reverse P xs h.1) (h.0, tt))

Distinct-append : (xs : List ℕ) (x : ℕ) → Distinct xs → Apart x xs → Distinct (xs ++ x ∷ [])
Distinct-append [] x d a = (tt, tt)
Distinct-append (y ∷ xs) x d a =
    (All-append (λ i. y ≢ i) xs (x ∷ []) d.0 ((λ e. a.0 (sym e)), tt), Distinct-append xs x d.1 a.1)

pub reverse-IsRun : (row : Row) (bl : List ℕ) → IsRun row bl → IsRun row (reverse bl)
reverse-IsRun row bl r = record {
  held = All-reverse (Held row) bl r.held;
  distinct = distinct bl r.distinct;
}
  where
    distinct : (bl : List ℕ) → Distinct bl → Distinct (reverse bl)
    distinct [] d = tt
    distinct (x ∷ xs) d =
        rw (reverse-cons x xs)
          (Distinct-append (reverse xs) x (distinct xs d.1) (All-reverse (λ i. x ≢ i) xs d.0))
