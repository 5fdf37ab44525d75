-- ===== src/Prelude/Results.antt =====
-- Rust's `Result` with its `?` operator as a bind.
use mathlib.Core.Path.{◌≡◌, refl}
use mathlib.Core.Logic.{◌⊎◌, inl, inr}
use native.Mathlib.Omega.{arith}
use mathlib.Core.Option.{Option, none, some}

pub data Result {ℓ κ} (E : Type ℓ) (A : Type κ) : Type (ℓ ⊔ κ) where
  ok : A → Result E A
  err : E → Result E A

-- `?`: an error ends the block.
infixl 5 ◌>>=◌
abbrev pub ◌>>=◌ {ℓ κ μ} :
    {E : Type ℓ} {A : Type κ} {B : Type μ} → Result E A → (A → Result E B) → Result E B
err failure >>= next = err failure
ok value >>= next = next value

-- `Option::ok_or`
abbrev pub ok_or {ℓ κ} : {E : Type ℓ} {A : Type κ} → Option A → E → Result E A
ok_or none e = err e
ok_or (some a) e = ok a

-- `Result::unwrap_or`
abbrev pub ok_unwrap_or {ℓ κ} : {E : Type ℓ} {A : Type κ} → Result E A → A → A
ok_unwrap_or (ok a) d = a
ok_unwrap_or (err e) d = d

pub Result-cases {ℓ κ} :
    {E : Type ℓ} {A : Type κ} (r : Result E A) → ((a : A) × (r ≡ ok a)) ⊎ ((e : E) × (r ≡ err e))
Result-cases (ok a) = inl (a, refl)
Result-cases (err e) = inr (e, refl)

pub ok_same {ℓ κ} :
    {E : Type ℓ} {A : Type κ} {r : Result E A} {a b : A} → r ≡ ok a → r ≡ ok b → a ≡ b
ok_same h h' = ground arith

-- A block that ends well has passed its first step.
pub >>=-eq-ok {ℓ κ μ} :
    {E : Type ℓ} {A : Type κ} {B : Type μ} (first : Result E A) (next : A → Result E B) {out : B}
    → (first >>= next) ≡ ok out
    → (value : A) × (first ≡ ok value) × (next value ≡ ok out)
>>=-eq-ok (err failure) next done = cc
>>=-eq-ok (ok value) next done = (value, refl, done)
