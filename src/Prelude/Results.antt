-- ===== src/Prelude/Results.antt =====
-- Go's `(value, error)` pairs where the value is used only beside a nil error.
use mathlib.Core.Path.{◌≡◌, refl, ap}
use mathlib.Core.Logic.{◌⊎◌, inl, inr}
use mathlib.Core.Bool.{Bool, true, false}
use mathlib.Core.Option.{Option, none, some}

pub data Result {ℓ} (E A : Type ℓ) : Type ℓ where
  ok : A → Result E A
  err : E → Result E A

abbrev err_or {ℓ} : {E A : Type ℓ} → E → Result E A → E
err_or d (ok a) = d
err_or d (err e) = e

pub err-injective {ℓ} : {E A : Type ℓ} {a b : E} → ◌≡◌ {A = Result E A} (err a) (err b) → a ≡ b
err-injective {a} h = ap (err_or a) h

module _ {ℓ} {E A B : Type ℓ} where
  infixl 5 ◌>>=◌
  -- `if err != nil { return err }`, and on with the value.
  abbrev pub ◌>>=◌ : Result E A → (A → Result E B) → Result E B
  err failure >>= next = err failure
  ok value >>= next = next value

  pub >>=-eq-ok :
      (first : Result E A) (next : A → Result E B) {result : B}
      → (first >>= next) ≡ ok result
      → (value : A) × (first ≡ ok value) × (next value ≡ ok result)
  >>=-eq-ok (err failure) next h = cc
  >>=-eq-ok (ok value) next h = (value, refl, h)

  -- Where a chain fails.
  pub >>=-eq-err :
      (first : Result E A) (next : A → Result E B) {failure : E}
      → ◌≡◌ {A = Result E B} (first >>= next) (err failure)
      → (◌≡◌ {A = Result E A} first (err failure))
        ⊎ ((value : A) × (first ≡ ok value) × (next value ≡ err failure))
  >>=-eq-err (err failure) next h = inl (ap err (err-injective h))
  >>=-eq-err (ok value) next h = inr (value, refl, h)

module _ {ℓ} {E A : Type ℓ} where
  abbrev pub or_err : Option A → E → Result E A
  or_err none failure = err failure
  or_err (some value) failure = ok value

module _ {ℓ} {E B : Type ℓ} where
  infixl 5 ◌>>◌
  abbrev pub ◌>>◌ : Result E (Unit {ℓ}) → Result E B → Result E B
  first >> then_do = first >>= λ _. then_do

-- `if !test { return failure }`
abbrev pub guard {ℓ} : {E : Type ℓ} → Bool → E → Result E (Unit {ℓ})
guard false failure = err failure
guard true failure = ok tt

-- A guard that a successful run has passed.
pub guard-eq-ok {ℓ} :
    {E B : Type ℓ} (b : Bool) (e : E) (k : Result E B) {x : B}
    → (guard b e >> k) ≡ ok x
    → (b ≡ true) × (k ≡ ok x)
guard-eq-ok true e k h = (refl, h)
guard-eq-ok false e k h = cc

-- A step for its errors alone.
pub >>-eq-ok {ℓ} :
    {E B : Type ℓ} (m : Result E (Unit {ℓ})) (k : Result E B) {x : B}
    → (m >> k) ≡ ok x
    → (m ≡ ok tt) × (k ≡ ok x)
>>-eq-ok (ok tt) k h = (refl, h)
>>-eq-ok (err e) k h = cc

pub Result-cases {ℓ} :
    {E A : Type ℓ} (r : Result E A) → ((e : E) × (r ≡ err e)) ⊎ ((a : A) × (r ≡ ok a))
Result-cases (ok a) = inr (a, refl)
Result-cases (err e) = inl (e, refl)

abbrev ok_or {ℓ} : {E A : Type ℓ} → A → Result E A → A
ok_or d (ok a) = a
ok_or d (err e) = d

pub ok-injective {ℓ} : {E A : Type ℓ} {a b : A} → ◌≡◌ {A = Result E A} (ok a) (ok b) → a ≡ b
ok-injective {a} h = ap (ok_or a) h
