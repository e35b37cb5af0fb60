-- ===== src/Mjai/Sound/Tiles.antt =====
-- The list of completing tiles: the sorting pass returns, and keeps what all entries have.
use route_server.Prelude.{
  ℕ, zero, suc, ◌<◌, ℤ, pos, Bool, ◌&&◌, not, Option, some, List, [], ◌∷◌, ◌++◌, ◌≡◌, refl, ◌∙◌,
  inl, inr, get_elem?, set, length, All, arith, Bool-cases, Gives, Gives-bind, get_elem?-All,
  All-set, All-get_elem?, All-append, length-set, length-append, gtb_ℤ, ltb_ℤ, ltb, get_elem?-of_lt,
}
use route_server.Mjai.Bubble.{bubble}
use route_server.Mjai.Grain.{MjGrain, score, sortd_grain}
use route_server.Mjai.Search.{keep_jiao}
use route_server.Mjai.Sound.Readings.{Returns, IsTile}

-- A swap of the neighbours at `i` and `suc i`.
abbrev pub swap : {A : Type 0} → List A → ℕ → A → A → List A
swap xs i x y = set (set xs (suc i) y) i x

module _ {A : Type 0} (key : A → Option ℤ) (lt : ℤ → ℤ → Bool) (P : A → Type 0)
    (K : List A → Type 0) where
  pub bubble-keeps :
      ((a : A) → P a → Returns (key a))
      → ((xs : List A) → K xs → All P xs)
      → ((xs : List A) (i : ℕ) (x y : A)
          → get_elem? xs (suc i) ≡ some x
          → get_elem? xs i ≡ some y
          → K xs
          → K (swap xs i x y))
      → (xs : List A) (i : ℕ) → K xs
      → i < length xs
      → Gives (bubble key lt xs i) K
  unfolding bubble
  bubble-keeps keyed all swaps xs zero h l = (xs, refl, h)
  bubble-keeps keyed all swaps xs (suc i) h l =
      Gives-bind (get_elem?-All P xs (suc i) (all xs h) l) (λ x e p.
        Gives-bind (keyed x p) (λ k e1 _.
          Gives-bind (get_elem?-All P xs i (all xs h) (omega arith)) (λ y e2 q.
            Gives-bind (keyed y q) (λ m e3 _. elim (Bool-cases (lt k m)) [
              | inl less ↦
                  let size = length-set (set xs (suc i) y) i x ∙ length-set xs (suc i) y in
                  rw less (
                    bubble-keeps keyed all swaps (swap xs i x y) i (swaps xs i x y e e2 h)
                      (omega arith))
              | inr other ↦ rw other (bubble-keeps keyed all swaps xs i h (omega arith))
            ]))))

pub All-swap :
    {A : Type 0} (P : A → Type 0) (xs : List A) (i : ℕ) (x y : A)
    → get_elem? xs (suc i) ≡ some x
    → get_elem? xs i ≡ some y
    → All P xs
    → All P (swap xs i x y)
All-swap P xs i x y e e1 h =
    All-set P (set xs (suc i) y) i x (All-set P xs (suc i) y h (All-get_elem? P xs i h e1))
      (All-get_elem? P xs (suc i) h e)

pub bubble-returns :
    {A : Type 0} (key : A → Option ℤ) (lt : ℤ → ℤ → Bool) (P : A → Type 0)
    → ((a : A) → P a → Returns (key a))
    → (xs : List A) (i : ℕ) → All P xs
    → i < length xs
    → Gives (bubble key lt xs i) (All P)
bubble-returns key lt P keyed = bubble-keeps key lt P (All P) keyed (λ xs h. h) (All-swap P)

pub keep_jiao-returns :
    (isf : ℤ) (i j fn : ℕ) (gr : List MjGrain)
    → i < 3
    → j < 9
    → All IsTile gr
    → Gives (keep_jiao isf i j fn gr) (All IsTile)
unfolding keep_jiao sortd_grain
keep_jiao-returns isf i j fn gr l k h = elim (Bool-cases (ltb 0 fn && not (ltb_ℤ (pos fn) isf))) [
  | inr low ↦ rw low (gr, refl, h)
  | inl kept ↦
      let g : MjGrain = record { h = pos i; n = j; o = pos fn ∷ [] } in
      let tile : IsTile g = record { suit = (i, refl, l); number = k; scored = omega arith } in
      let size = length-append gr (g ∷ []) in
      rw kept (
        bubble-returns (score 0) gtb_ℤ IsTile (λ a t. get_elem?-of_lt a.o 0 t.scored) (gr ++ g ∷ [])
          (length gr) (All-append IsTile gr (g ∷ []) h (tile, tt)) (omega arith))
]
