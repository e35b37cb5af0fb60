-- ===== src/Prelude/Options.antt =====
-- Calls that may not return. `none` is a run-time panic (a nil pointer, an index out of range) or a
-- recursion without end, which the Go runtime stops as a stack overflow.
use mathlib.Core.Path.{◌≡◌, refl, sym, subst}
use mathlib.Core.Logic.{◌⊎◌, inl, inr}
use mathlib.Core.Option.{Option, none, some, some-injective}

infixl 5 ◌>>=◌
abbrev pub ◌>>=◌ {ℓ κ} : {A : Type ℓ} {B : Type κ} → Option A → (A → Option B) → Option B
none >>= f = none
some a >>= f = f a

pub Option-cases {ℓ} : {A : Type ℓ} (o : Option A) → (o ≡ none) ⊎ ((a : A) × (o ≡ some a))
Option-cases none = inl refl
Option-cases (some a) = inr (a, refl)

-- Inversion of a bind that returns.
pub >>=-eq-some {ℓ κ} :
    {A : Type ℓ} {B : Type κ} (m : Option A) (f : A → Option B) {b : B}
    → (m >>= f) ≡ some b
    → (a : A) × (m ≡ some a) × (f a ≡ some b)
>>=-eq-some none f h = cc
>>=-eq-some (some a) f h = (a, refl, h)

pub >>=-congr {ℓ κ} :
    {A : Type ℓ} {B : Type κ} (m : Option A) (f g : A → Option B)
    → ((a : A) → f a ≡ g a)
    → (m >>= f) ≡ (m >>= g)
>>=-congr none f g h = refl
>>=-congr (some a) f g h = h a

-- A call returns, with a result that has the property.
abbrev pub Gives {ℓ κ} : {A : Type ℓ} → Option A → (A → Type κ) → Type (ℓ ⊔ κ)
Gives {A} m P = (a : A) × (m ≡ some a) × P a

pub Gives-bind {ℓ κ λ1 λ2} :
    {A : Type ℓ} {B : Type κ} {P : A → Type λ1} {Q : B → Type λ2} {m : Option A} {f : A → Option B}
    → Gives m P
    → ((a : A) → m ≡ some a → P a → Gives (f a) Q)
    → Gives (m >>= f) Q
Gives-bind {m = none} (a, e, p) k = absurd (cc)
Gives-bind {P} {m = some a'} {f = f} (a, e, p) k =
    k a' refl (subst P (sym (some-injective _ _ e)) p)
