-- ===== src/Scann/Fresh.antt =====
-- Which range `GetScannIP` hands out.
use route_server.Prelude.{
  ℕ, zero, suc, ◌+◌, ◌≤◌, ◌<◌, false, some, List, [], ◌∷◌, ◌≡◌, refl, ◌∙◌, ◌⊎◌, inl, inr, ◌==◌,
  if◌then◌else◌, get_elem?, arith, All, All-get_elem?, Bool-cases,
}
use route_server.Scann.{Span, last_zero, span_at, choose_span}

-- The rows come by their times.
abbrev pub Ascending : List Span → Type 0
Ascending [] = Unit
Ascending (s ∷ rows) = All (λ t. s.time ≤ t.time) rows × Ascending rows

abbrev Fresh : List Span → ℕ → Type 0
Fresh rows k = (t : Span) × (get_elem? rows k ≡ some t) × (t.time ≡ 0)

last_zero-Fresh :
    (z i : ℕ) (rows : List Span)
    → (last_zero z i rows ≡ z) ⊎ ((k : ℕ) × (last_zero z i rows ≡ i + k) × Fresh rows k)
unfolding last_zero
last_zero-Fresh z i [] = inl refl
last_zero-Fresh z i (s ∷ rows) = elim (Bool-cases (s.time == 0)) [
  | inl fresh ↦ rw fresh (elim (last_zero-Fresh i (suc i) rows) [
    | inl here ↦ inr (0, here ∙ omega arith, (s, refl, ground arith))
    | inr (k, at, (t, found, none_yet)) ↦ inr (suc k, at ∙ omega arith, (t, found, none_yet))
  ])
  | inr scanned ↦ rw scanned (elim (last_zero-Fresh z (suc i) rows) [
    | inl here ↦ inl here
    | inr (k, at, (t, found, none_yet)) ↦ inr (suc k, at ∙ omega arith, (t, found, none_yet))
  ])
]

-- Rows in front of a fresh one are fresh.
Fresh-before : (rows : List Span) (a b : ℕ) → Ascending rows → a ≤ b → Fresh rows b → Fresh rows a
Fresh-before [] a b asc le (t, found, fresh) = absurd (cc)
Fresh-before (s ∷ rows) zero zero asc le f = f
Fresh-before (s ∷ rows) zero (suc b) asc le (t, found, fresh) =
    let below = All-get_elem? (λ t. s.time ≤ t.time) rows b asc.0 found in (s, refl, omega arith)
Fresh-before (s ∷ rows) (suc a) zero asc le f = absurd (omega arith)
Fresh-before (s ∷ rows) (suc a) (suc b) asc le f = Fresh-before rows a b asc.1 (omega arith) f

-- Where the rows come by their times, the first of them with time 0, and the random number is below
-- its bound, the range that is chosen has time 0: it has never been handed out.
pub choose_span-fresh :
    (random : ℕ → ℕ) (s : Span) (rows : List Span)
    → ((n : ℕ) → 0 < n → random n < n)
    → Ascending (s ∷ rows)
    → s.time ≡ 0
    → (choose_span random (s ∷ rows)).time ≡ 0
unfolding choose_span
choose_span-fresh random s rows in_range asc fresh =
    chosen (last_zero 0 0 (s ∷ rows)) (last_zero-Fresh 0 0 (s ∷ rows))
  where
    at_Fresh : (a : ℕ) → Fresh (s ∷ rows) a → (span_at (s ∷ rows) a).time ≡ 0
    at_Fresh a (t, found, zero_time) = rw (found, zero_time) refl

    chosen :
        (z : ℕ)
        → (z ≡ 0) ⊎ ((k : ℕ) × (z ≡ 0 + k) × Fresh (s ∷ rows) k)
        → (span_at (s ∷ rows) (if z == 0 then 0 else random z)).time ≡ 0
    chosen zero f = fresh
    chosen (suc z) (inl none_found) = absurd (omega arith)
    chosen (suc z) (inr (k, at, f)) =
        let less = in_range (suc z) (omega arith) in
        let some_found : (suc z == 0) ≡ false = ground arith in
        rw some_found (
          at_Fresh (random (suc z))
            (Fresh-before (s ∷ rows) (random (suc z)) k asc (omega arith) f))
