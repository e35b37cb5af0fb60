-- ===== src/Mjai/SeeOuts/Offered.antt =====
-- mjai's `SeeOuts` makes only claims that are offered.
use mathlib.Core.Option.{some-injective}
use route_server.Prelude.{
  ℕ, zero, suc, ◌/◌, ◌%◌, ◌≤◌, ℤ, pos, pos_part, Bool, true, false, ◌||◌, Option, none, some, List,
  [], ◌∷◌, ◌≡◌, ◌⊎◌, refl, sym, ap, subst, ◌∙◌, inl, inr, ◌>>=◌, ◌==◌, gtb_ℤ, ltb_ℤ, if◌then◌else◌,
  replicate, arith, Bool-cases,
}
use route_server.Mjai.Ai.{Ai}
use route_server.Mjai.SeeOuts.{offers, claim, claim_win, claim_pair, see_outs}

abbrev pub offered : ℕ → List ℕ → Bool
offered k [] = false
offered k (j ∷ key) = if j == k then true else offered k key

-- The four claims from the highest down, where `a` to `d` stand for those that are not offered.
offers_lem :
    (a b c d : ℕ) (key : List ℕ)
    → offers (a ∷ b ∷ c ∷ d ∷ []) key
      ≡ (if offered 3 key then 3 else a)
        ∷ (if offered 2 key then 2 else b)
        ∷ (if offered 1 key then 1 else c)
        ∷ (if offered 0 key then 0 else d)
        ∷ []
unfolding offers
offers_lem a b c d [] = refl
offers_lem a b c d (zero ∷ key) = offers_lem a b c 0 key ∙ ground arith
offers_lem a b c d (suc zero ∷ key) = offers_lem a b 1 d key ∙ ground arith
offers_lem a b c d (suc (suc zero) ∷ key) = offers_lem a 2 c d key ∙ ground arith
offers_lem a b c d (suc (suc (suc zero)) ∷ key) = offers_lem 3 b c d key ∙ ground arith
offers_lem a b c d (suc (suc (suc (suc k))) ∷ key) = ground (arith, offers_lem a b c d key)

abbrev Claimed : List ℕ → ℕ → Type 0
Claimed ks k = (k ≡ 0) ⊎ ((k ≤ 3) × (offered k ks ≡ true))

Claimed-here : (n k : ℕ) (ks : List ℕ) → n ≤ 3 → n ≡ k → Claimed (n ∷ ks) k
Claimed-here n k ks le e = inr (omega arith, ground arith)

Claimed-later : (n k : ℕ) (ks : List ℕ) → Claimed ks k → Claimed (n ∷ ks) k
Claimed-later n k ks (inl z) = inl z
Claimed-later n k ks (inr (le, h)) = inr (le, ground arith)

test_le : (n m : ℕ) → (n == m) ≡ true → n ≤ m
test_le n m h = ground arith

-- A claim of the loop is 0, or one of the list and no more than 3.
claim-Claimed :
    (i j : ℕ) (isf : ℤ) (ks : List ℕ) (ai : Ai) (k : ℕ) (ai' : Ai)
    → claim i j isf ks ai ≡ some (k, ai')
    → Claimed ks k
unfolding claim
claim-Claimed i j isf [] ai k ai' h = inl (sym (ap (λ p. p.0) (some-injective _ _ h)))
claim-Claimed i j isf (n ∷ ks) ai k ai' h = elim (Bool-cases (n == 3)) [
  | inl three ↦
      tried (claim_win i j isf ai) (λ ai1 e. claim-Claimed i j isf ks ai1 k ai' e)
        (omega (arith, test_le n 3 three)) (rw three at h)
  | inr not3 ↦ elim (Bool-cases (n == 2)) [
    | inl two ↦
        Claimed-here n k ks (omega (arith, test_le n 2 two))
          (ap (λ p. p.0) (some-injective _ _ (rw (not3, two) at h)))
    | inr not2 ↦ elim (Bool-cases (n == 1)) [
      | inl one ↦
          tried (claim_pair i j isf ai) (λ ai1 e. claim-Claimed i j isf ks ai1 k ai' e)
            (omega (arith, test_le n 1 one)) (rw (not3, not2, one) at h)
      | inr not1 ↦ elim (Bool-cases (n == 0)) [
        | inl pass ↦
            inl (sym (ap (λ p. p.0) (some-injective _ _ (rw (not3, not2, not1, pass) at h))))
        | inr other ↦
            Claimed-later n k ks
              (claim-Claimed i j isf ks ai k ai' (rw (not3, not2, not1, other) at h))
      ]
    ]
  ]
]
  where
    tried :
        (m : Option (Bool × Ai))
        → ((ai1 : Ai) → claim i j isf ks ai1 ≡ some (k, ai') → Claimed ks k)
        → n ≤ 3
        → (m >>= λ p. if p.0 then some (n, p.1) else claim i j isf ks p.1) ≡ some (k, ai')
        → Claimed (n ∷ ks) k
    tried none later le e = absurd (cc)
    tried (some (true, ai1)) later le e =
        Claimed-here n k ks le (ap (λ p. p.0) (some-injective _ _ e))
    tried (some (false, ai1)) later le e = Claimed-later n k ks (later ai1 e)

-- The list of the code with the offered claims.
abbrev all_offers : List ℕ → List ℕ
all_offers key =
    (if offered 3 key then 3 else 5)
    ∷ (if offered 2 key then 2 else 5)
    ∷ (if offered 1 key then 1 else 5)
    ∷ (if offered 0 key then 0 else 5)
    ∷ []

offered-all_offers :
    (key : List ℕ) (k : ℕ) → k ≤ 3 → offered k (all_offers key) ≡ true → offered k key ≡ true
offered-all_offers key zero le h = ground arith
offered-all_offers key (suc zero) le h = ground arith
offered-all_offers key (suc (suc zero)) le h = ground arith
offered-all_offers key (suc (suc (suc zero))) le h = ground arith
offered-all_offers key (suc (suc (suc (suc k)))) le h = absurd (omega arith)

-- If `SeeOuts` returns, its claim is one that is offered, or none: 0 stands for no claim.
pub see_outs-offered :
    (v : ℤ) (key : List ℕ) (isf : ℤ) (ai : Ai) (k : ℕ) (ai' : Ai)
    → see_outs v key isf ai ≡ some (k, ai')
    → (k ≡ 0) ⊎ ((k ≤ 3) × (offered k key ≡ true))
unfolding see_outs
see_outs-offered v key isf ai k ai' h = elim (Bool-cases (ltb_ℤ v (pos 0) || gtb_ℤ v (pos 26))) [
  | inl outside ↦ inl (sym (ap (λ p. p.0) (some-injective _ _ (rw outside at h))))
  | inr inside ↦ from_offers (
      claim-Claimed (pos_part v / 9) (pos_part v % 9) isf (offers (replicate 4 5) key) ai k ai'
        (rw inside at h))
]
  where
    from_offers :
        Claimed (offers (replicate 4 5) key) k → (k ≡ 0) ⊎ ((k ≤ 3) × (offered k key ≡ true))
    from_offers (inl z) = inl z
    from_offers (inr (le, e)) = inr (
      le,
      offered-all_offers key k le (subst (λ l. offered k l ≡ true) (offers_lem 5 5 5 5 key) e),
    )

-- For a discard from 0 to 26, three of a kind that may become four is claimed whenever that is
-- offered and a win is not.
pub see_outs-four :
    (v : ℕ) (key : List ℕ) (isf : ℤ) (ai : Ai)
    → v ≤ 26
    → offered 3 key ≡ false
    → offered 2 key ≡ true
    → see_outs (pos v) key isf ai ≡ some (2, ai)
unfolding see_outs
see_outs-four v key isf ai le no_win four = rw (inside, offers_lem 5 5 5 5 key, no_win, four, claim)
  where
    inside : (ltb_ℤ (pos v) (pos 0) || gtb_ℤ (pos v) (pos 26)) ≡ false
    inside = ground arith
