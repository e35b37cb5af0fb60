-- ===== src/Mjai/Sound/TakenOut.antt =====
-- mjai's `OutDiscard` takes the tiles that it passes on out of the hand.
use mathlib.Core.Option.{some-injective}
use route_server.Prelude.{
  ℕ, ◌+◌, ◌*◌, ◌<◌, ℤ, pos, ◌-ℤ◌, int_laws, byte_of, some, List, [], ◌∷◌, ◌++◌, ◌≡◌, sym, ap, ◌∙◌,
  subst, inl, inr, get_elem?, set, All, All-append, arith, Bool-cases, >>=-eq-some, ◌==◌,
  if◌then◌else◌, get_elem?-set_self, lt-length_of_get_elem?,
}
use route_server.Mjai.Ai.{Ai, UserPublic, cell, change, now_cell, change_now}
use route_server.Mjai.Search.{dec}
use route_server.Mjai.Sound.Waits.{now_cell-public}
use route_server.Mjai.Sound.Cells.{change-others}
use route_server.Mjai.Sound.Shows.{change_now-there}

pub change_now-others :
    (f : ℤ → ℤ) (i j k l : ℕ) (ai ai' : Ai)
    → change_now f i j ai ≡ some ai'
    → ¬ ((i ≡ k) × (j ≡ l))
    → now_cell k l ai' ≡ now_cell k l ai
change_now-others f i j k l ai ai' h apart =
    let (u, e1, h1) = >>=-eq-some (get_elem? ai.public 3) _ h in
    let (now, e2, h2) = >>=-eq-some (change f u.now i j) _ h1 in
    let u' : UserPublic = record u { now = now } in
    let own : get_elem? (set ai.public 3 u') 3 ≡ some u' =
      get_elem?-set_self ai.public 3 u' (lt-length_of_get_elem? ai.public 3 e1) in
    let there : cell now k l ≡ cell u.now k l = change-others f u.now now i j k l e2 apart in
    ap (λ (a : Ai). now_cell k l a) (sym (some-injective _ _ h2)) ∙ rw (own, e1) there

-- How often a tile is in a list.
abbrev pub count_tile : ℕ → List ℕ → ℕ
count_tile t [] = 0
count_tile t (s ∷ ts) = (if s == t then 1 else 0) + count_tile t ts

count_tile-append :
    (t : ℕ) (ss ts : List ℕ) → count_tile t (ss ++ ts) ≡ count_tile t ss + count_tile t ts
count_tile-append t [] ts = omega arith
count_tile-append t (s ∷ ss) ts = omega (arith, count_tile-append t ss ts)

-- From `ai` to `ai'` the hand has lost the tiles `ts`, all of the suits, and nothing else.
pub record TakenOut (ts : List ℕ) (ai ai' : Ai) : Type 0 where
  pub tiles : All (λ t. t < 27) ts
  pub kept :
      (k l : ℕ) (c : ℤ)
      → l < 9
      → now_cell k l ai ≡ some c
      → now_cell k l ai' ≡ some (c -ℤ pos (count_tile (k * 9 + l) ts))

minus_none : (c : ℤ) → c ≡ c -ℤ pos 0
minus_none c = omega int_laws

pub TakenOut-none : (ai ai' : Ai) → ai'.public ≡ ai.public → TakenOut [] ai ai'
TakenOut-none ai ai' e = record {
  tiles = tt;
  kept = λ k l c low at. now_cell-public k l ai ai' e ∙ at ∙ ap some (minus_none c);
}

minus_both : (c : ℤ) (m n : ℕ) → (c -ℤ pos m) -ℤ pos n ≡ c -ℤ pos (m + n)
minus_both c m n = omega int_laws

pub TakenOut-append :
    (ss ts : List ℕ) (ai ai1 ai2 : Ai)
    → TakenOut ss ai ai1
    → TakenOut ts ai1 ai2
    → TakenOut (ss ++ ts) ai ai2
TakenOut-append ss ts ai ai1 ai2 p q = record {
  tiles = All-append (λ t. t < 27) ss ts p.tiles q.tiles;
  kept = λ k l c low at.
      q.kept k l _ low (p.kept k l c low at)
      ∙ ap some (
          minus_both c (count_tile (k * 9 + l) ss) (count_tile (k * 9 + l) ts)
          ∙ ap (λ n. c -ℤ pos n) (sym (count_tile-append (k * 9 + l) ss ts)));
}

-- The byte of a tile.
byte_of-tile : (i j : ℕ) → i < 3 → j < 9 → byte_of (pos (i * 9 + j)) ≡ i * 9 + j
unfolding byte_of
byte_of-tile i j l m = omega arith

pub TakenOut-one :
    (i j : ℕ) (ai ai' : Ai)
    → i < 3
    → j < 9
    → change_now dec i j ai ≡ some ai'
    → TakenOut (byte_of (pos (i * 9 + j)) ∷ []) ai ai'
TakenOut-one i j ai ai' l m h =
    subst (λ t. TakenOut (t ∷ []) ai ai') (sym (byte_of-tile i j l m))
      (record { tiles = (omega arith, tt); kept = kept })
  where
    kept :
        (k n : ℕ) (c : ℤ)
        → n < 9
        → now_cell k n ai ≡ some c
        → now_cell k n ai' ≡ some (c -ℤ pos (count_tile (k * 9 + n) ((i * 9 + j) ∷ [])))
    kept k n c low at = elim (Bool-cases ((i * 9 + j) == (k * 9 + n))) [
      | inl here ↦
          let suit : i ≡ k = ground arith in
          let place : j ≡ n = ground arith in
          let at_tile : now_cell i j ai ≡ some c =
            subst (λ a. now_cell a j ai ≡ some c) (sym suit)
              (subst (λ b. now_cell k b ai ≡ some c) (sym place) at) in
          let less : now_cell i j ai' ≡ some (c -ℤ pos 1) =
            change_now-there dec i j ai ai' c at_tile h in
          rw here (
            subst (λ a. now_cell a n ai' ≡ some (c -ℤ pos 1)) suit
              (subst (λ b. now_cell i b ai' ≡ some (c -ℤ pos 1)) place less))
      | inr other ↦ rw other (
          change_now-others dec i j k n ai ai' h (λ e. absurd (ground arith))
          ∙ at
          ∙ ap some (minus_none c))
    ]
