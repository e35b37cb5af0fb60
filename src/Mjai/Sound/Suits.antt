-- ===== src/Mjai/Sound/Suits.antt =====
-- The suits of the blocks, while `InitNow` makes and sorts them.
use mathlib.Core.Option.{some-injective}
use route_server.Prelude.{
  ℕ, zero, suc, ◌<◌, Bool, true, false, some, List, [], ◌∷◌, ◌++◌, ◌≡◌, ◌≢◌, ◌⊎◌, refl, sym, ap,
  ◌∙◌, subst, inl, inr, get_elem?, set, length, All, arith, All-map, All-append, ◌==◌,
  length-append,
}
use route_server.Mjai.Weight.Runs.{Distinct}
use route_server.Mjai.NewBlock.{NewBlock}
use route_server.Mjai.NewBlock.Ends.{Distinct-end}
use route_server.Mjai.Search.{suits}
use route_server.Mjai.Sound.{Has}

-- A list after a swap of two neighbours.
pub data Swapped : List ℕ → List ℕ → Type 0 where
  first : {x y : ℕ} {r : List ℕ} → Swapped (x ∷ y ∷ r) (y ∷ x ∷ r)
  later : {a : ℕ} {xs ys : List ℕ} → Swapped xs ys → Swapped (a ∷ xs) (a ∷ ys)

All-Swapped : (P : ℕ → Type 0) {xs ys : List ℕ} → Swapped xs ys → All P xs → All P ys
All-Swapped P first (p, (q, h)) = (q, (p, h))
All-Swapped P (later s) (p, h) = (p, All-Swapped P s h)

pub Distinct-Swapped : {xs ys : List ℕ} → Swapped xs ys → Distinct xs → Distinct ys
Distinct-Swapped first ((ne, a), (b, d)) = (((λ e. ne (sym e)), b), (a, d))
Distinct-Swapped (later {a} s) (x, d) = (All-Swapped (λ j. a ≢ j) s x, Distinct-Swapped s d)

pub Has-Swapped : (i : ℕ) {xs ys : List ℕ} → Swapped xs ys → Has i xs → Has i ys
Has-Swapped i first (inl e) = inr (inl e)
Has-Swapped i first (inr (inl e)) = inl e
Has-Swapped i first (inr (inr h)) = inr (inr h)
Has-Swapped i (later s) (inl e) = inl e
Has-Swapped i (later s) (inr h) = inr (Has-Swapped i s h)

pub length-Swapped : {xs ys : List ℕ} → Swapped xs ys → length ys ≡ length xs
length-Swapped first = refl
length-Swapped (later s) = ap suc (length-Swapped s)

pub suits-Swapped :
    (bs : List NewBlock) (i : ℕ) (x y : NewBlock)
    → get_elem? bs (suc i) ≡ some x
    → get_elem? bs i ≡ some y
    → Swapped (suits bs) (suits (set (set bs (suc i) y) i x))
suits-Swapped [] i x y h k = absurd (cc)
suits-Swapped (a ∷ []) zero x y h k = absurd (cc)
suits-Swapped (a ∷ b ∷ bs) zero x y h k =
    subst (λ (c : NewBlock). Swapped (a.i ∷ b.i ∷ suits bs) (c.i ∷ y.i ∷ suits bs))
      (some-injective _ _ h)
      (subst (λ (c : NewBlock). Swapped (a.i ∷ b.i ∷ suits bs) (b.i ∷ c.i ∷ suits bs))
        (some-injective _ _ k) first)
suits-Swapped (a ∷ bs) (suc i) x y h k = later (suits-Swapped bs i x y h k)

-- Each of the suits below `n` once.
pub record UpTo (n : ℕ) (ss : List ℕ) : Type 0 where
  pub size : length ss ≡ n
  pub once : Distinct ss
  pub all : (i : ℕ) → i < n → Has i ss
  pub low : All (λ i. i < n) ss

pub UpTo-Swapped : (n : ℕ) {xs ys : List ℕ} → Swapped xs ys → UpTo n xs → UpTo n ys
UpTo-Swapped n s u = record {
  size = length-Swapped s ∙ u.size;
  once = Distinct-Swapped s u.once;
  all = λ i l. Has-Swapped i s (u.all i l);
  low = All-Swapped (λ i. i < n) s u.low;
}

Has-append : (i : ℕ) (xs ys : List ℕ) → Has i xs ⊎ Has i ys → Has i (xs ++ ys)
Has-append i [] ys (inl h) = elim h [ ]
Has-append i [] ys (inr h) = h
Has-append i (x ∷ xs) ys (inl (inl e)) = inl e
Has-append i (x ∷ xs) ys (inl (inr h)) = inr (Has-append i xs ys (inl h))
Has-append i (x ∷ xs) ys (inr h) = inr (Has-append i xs ys (inr h))

pub UpTo-suc : (n : ℕ) (ss : List ℕ) → UpTo n ss → UpTo (suc n) (ss ++ n ∷ [])
UpTo-suc n ss u = record {
  size = let s = u.size in omega (arith, length-append ss (n ∷ []));
  once = Distinct-end n ss u.low u.once;
  all = λ i l. Has-append i ss (n ∷ []) (there i l (i == n) refl);
  low =
      All-append (λ i. i < suc n) ss (n ∷ [])
        (All-map (λ i. i < n) (λ i. i < suc n) ss (λ i h. omega arith) u.low) (omega arith, tt);
}
  where
    there : (i : ℕ) → i < suc n → (t : Bool) → (i == n) ≡ t → Has i ss ⊎ Has i (n ∷ [])
    there i l true e = inr (inl (ground arith))
    there i l false e = inl (u.all i (ground arith))

pub suits-append : (bs cs : List NewBlock) → suits (bs ++ cs) ≡ suits bs ++ suits cs
suits-append [] cs = refl
suits-append (b ∷ bs) cs = ap (λ t. b.i ∷ t) (suits-append bs cs)
