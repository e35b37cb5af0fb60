-- ===== src/Proxy/Calls/Single.antt =====
-- The calls of `GetRemoteAddr` of which at most one is under way.
use mathlib.Core.Option.{some-injective}
use route_server.Prelude.{
  ℕ, some, List, [], ◌∷◌, ◌++◌, ◌≡◌, ◌≢◌, ◌⊎◌, refl, sym, ap, ◌∙◌, subst, inl, inr, ◌==◌, arith,
  get_elem?, set, take, length, Bool-cases, get_elem?-set_self, get_elem?-set_ne,
  lt-length_of_get_elem?,
}
use route_server.Proxy.Calls.{Reply, Phase, State, asking, waiting, holding, returned}

pub take-append : (xs ys : List ℕ) → take (length xs) (xs ++ ys) ≡ xs
take-append [] ys = refl
take-append (x ∷ xs) ys = ap (λ t. x ∷ t) (take-append xs ys)

-- A call that is not under way.
abbrev pub IsRest : Phase → Type 0
IsRest (asking p) = Unit
IsRest (waiting p) = ⊥
IsRest (holding p r) = ⊥
IsRest (returned p a) = Unit

-- No call is under way.
abbrev pub Quiet : State → Type 0
Quiet s = (i : ℕ) (c : Phase) → get_elem? s.calls i ≡ some c → IsRest c

-- All calls are at rest but the call `i`, which is `c`.
pub record Only (i : ℕ) (c : Phase) (calls : List Phase) : Type 0 where
  pub at : get_elem? calls i ≡ some c
  pub others : (j : ℕ) (d : Phase) → i ≢ j → get_elem? calls j ≡ some d → IsRest d

pub set-cases :
    (calls : List Phase) (i j : ℕ) (c d e : Phase)
    → get_elem? calls i ≡ some c
    → get_elem? (set calls i d) j ≡ some e
    → ((i ≡ j) × (e ≡ d)) ⊎ ((i ≢ j) × (get_elem? calls j ≡ some e))
set-cases calls i j c d e at h = elim (Bool-cases (i == j)) [
  | inl same ↦
      let here : i ≡ j = ground arith in
      let there = get_elem?-set_self calls i d (lt-length_of_get_elem? calls i at) in
      inl (here, some-injective _ _ (sym h ∙ ap (get_elem? (set calls i d)) (sym here) ∙ there))
  | inr other ↦
      let apart : i ≢ j = λ k. absurd (ground arith) in
      inr (apart, sym (get_elem?-set_ne calls d apart) ∙ h)
]

-- The call `i` moves from `c` on to `d`.
pub Only-set :
    (calls : List Phase) (i : ℕ) (c d : Phase) → Only i c calls → Only i d (set calls i d)
Only-set calls i c d o = record {
  at = get_elem?-set_self calls i d (lt-length_of_get_elem? calls i o.at);
  others = λ j e apart h. o.others j e apart (sym (get_elem?-set_ne calls d apart) ∙ h);
}

pub Only-start :
    (calls : List Phase) (i : ℕ) (c d : Phase)
    → ((j : ℕ) (e : Phase) → get_elem? calls j ≡ some e → IsRest e)
    → get_elem? calls i ≡ some c
    → Only i d (set calls i d)
Only-start calls i c d rest at = record {
  at = get_elem?-set_self calls i d (lt-length_of_get_elem? calls i at);
  others = λ j e apart h. rest j e (sym (get_elem?-set_ne calls d apart) ∙ h);
}

-- A call that is under way is the one that is.
pub Only-same :
    (calls : List Phase) (i j : ℕ) (c d : Phase)
    → Only i c calls
    → get_elem? calls j ≡ some d
    → ¬ (IsRest d)
    → (i ≡ j) × (c ≡ d)
Only-same calls i j c d o at busy = elim (Bool-cases (i == j)) [
  | inl same ↦
      let here : i ≡ j = ground arith in
      (here, some-injective _ _ (sym o.at ∙ ap (get_elem? calls) here ∙ at))
  | inr other ↦ absurd (busy (o.others j d (λ k. absurd (ground arith)) at))
]

pub waiting_not_holding :
    (p q : List ℕ) (r : Reply) (i j : ℕ) (calls : List Phase)
    → Only j (waiting q) calls
    → get_elem? calls i ≡ some (holding p r)
    → ⊥
waiting_not_holding p q r i j calls o at =
    let (here, same) = Only-same calls j i (waiting q) (holding p r) o at (λ b. b) in cc

pub Quiet-set :
    (calls : List Phase) (i : ℕ) (c d : Phase)
    → Only i c calls
    → IsRest d
    → (j : ℕ) (e : Phase) → get_elem? (set calls i d) j ≡ some e
    → IsRest e
Quiet-set calls i c d o rest j e h = elim (set-cases calls i j c d e o.at h) [
  | inl (here, same) ↦ subst IsRest (sym same) rest
  | inr (apart, before) ↦ o.others j e apart before
]
