-- ===== src/Prelude/Action.antt =====
-- Python code that mutates a state and may raise. What was written before a raise stays written,
-- so the state comes back beside the exception too.
use mathlib.Core.Path.{◌≡◌, refl}
use mathlib.Core.Logic.{◌⊎◌, inl, inr}
use mathlib.Core.Bool.{Bool, true, false}
use native.Mathlib.Omega.{arith}

pub data Result {ℓ} (E A : Type ℓ) : Type ℓ where
  ok : A → Result E A
  err : E → Result E A

abbrev pub Action {ℓ} : Type ℓ → Type ℓ → Type ℓ → Type ℓ
Action S E A = S → Result E A × S

module _ {ℓ} {S E A : Type ℓ} where
  abbrev pub pure : A → Action S E A
  pure a s = (ok a, s)

  abbrev pub raise : E → Action S E A
  raise e s = (err e, s)

  abbrev pub gets : (S → A) → Action S E A
  gets f s = (ok (f s), s)

infixl 5 ◌>>=◌ ◌>>◌
abbrev pub ◌>>=◌ {ℓ} : {S E A B : Type ℓ} → Action S E A → (A → Action S E B) → Action S E B
◌>>=◌ m f s = let (r, s') = m s in elim r [ ok a ↦ f a s' | err e ↦ (err e, s') ]

abbrev pub ◌>>◌ {ℓ} : {S E A B : Type ℓ} → Action S E A → Action S E B → Action S E B
m >> k = m >>= λ _. k

-- `try: m  except E as e: h`
abbrev pub try_except {ℓ} : {S E A : Type ℓ} → Action S E A → (E → Action S E A) → Action S E A
try_except m h s = let (r, s') = m s in elim r [ ok a ↦ (ok a, s') | err e ↦ h e s' ]

module _ {S E : Type 0} where
  abbrev pub modify : (S → S) → Action S E Unit
  modify f s = (ok tt, f s)

  abbrev pub raise_if : Bool → E → Action S E Unit
  raise_if true e s = (err e, s)
  raise_if false e s = (ok tt, s)

-- `P` holds of the value and the state of a call that returned; nothing is said of one that raised.
abbrev pub Returned {ℓ κ} : {S E A : Type ℓ} → (A → S → Type κ) → Result E A × S → Type κ
Returned P (ok a, s) = P a s
Returned P (err e, s) = Unit

-- `P` holds of the state after a call that raised.
abbrev pub Failed {ℓ κ} : {S E A : Type ℓ} → (S → Type κ) → Result E A × S → Type κ
Failed P (ok a, s) = Unit
Failed P (err e, s) = P s

-- The same, of the exception and the state.
abbrev pub FailedBy {ℓ κ} : {S E A : Type ℓ} → (E → S → Type κ) → Result E A × S → Type κ
FailedBy P (ok a, s) = Unit
FailedBy P (err e, s) = P e s

-- To split on a computed result and keep the equation.
pub Result-cases {ℓ} :
    {E A : Type ℓ} (r : Result E A) → ((a : A) × (r ≡ ok a)) ⊎ ((e : E) × (r ≡ err e))
Result-cases (ok a) = inl (a, refl)
Result-cases (err e) = inr (e, refl)

-- From a state with `P`, the action ends in one with `P`, and a value that it returns has `Q`.
abbrev pub Keeps : {S E A : Type 0} → (S → Type 0) → (A → Type 0) → Action S E A → Type 0
Keeps {S = S} P Q m = (s : S) → P s → P (m s).1 × Returned (λ a s'. Q a) (m s)

pub >>=-Keeps :
    {S E A B : Type 0} (P : S → Type 0) (Q : A → Type 0) (R : B → Type 0) (m : Action S E A)
    (f : A → Action S E B)
    → Keeps P Q m
    → ((a : A) → Q a → Keeps P R (f a))
    → Keeps P R (m >>= f)
>>=-Keeps P Q R m f first then s p = elim (Result-cases (m s).0) [
  | inl (a, e) ↦
      let q : Q a = ground (arith, first s p) in ground (arith, then a q (m s).1 (first s p).0)
  | inr (x, e) ↦ ground (arith, first s p)
]
