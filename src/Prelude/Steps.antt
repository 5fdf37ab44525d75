-- ===== src/Prelude/Steps.antt =====
-- An `async fn(&mut self) -> Result<A, E>`: a step of the world that may fail, and that has changed the world also
-- when it fails.
use mathlib.Core.Path.{◌≡◌, refl}
use mathlib.Core.Logic.{inl, inr}
use native.Mathlib.Omega.{arith}
use presage.Prelude.Results.{Result, ok, err, Result-cases}

abbrev pub Step : Type 0 → Type 0 → Type 0 → Type 0
Step W E A = W → Result E A × W

module _ {W E : Type 0} where
  abbrev pub done : {A : Type 0} → A → Step W E A
  done a w = (ok a, w)

  abbrev pub fail : {A : Type 0} → E → Step W E A
  fail e w = (err e, w)

  -- `?` on a result that is already there
  abbrev pub lift : {A : Type 0} → Result E A → Step W E A
  lift r w = (r, w)

  -- A call that cannot fail.
  abbrev pub run_total : {A : Type 0} → (W → A × W) → Step W E A
  run_total call w = (ok (call w).0, (call w).1)

  abbrev pub run_unit : (W → W) → Step W E (Unit {0})
  run_unit call w = (ok tt, call w)

  -- The result as a value, for a `match` on it.
  abbrev pub attempt : {A : Type 0} → Step W E A → Step W E (Result E A)
  attempt step w = (ok (step w).0, (step w).1)

  abbrev pub continue : {A B : Type 0} → (A → Step W E B) → Result E A → Step W E B
  continue next (ok a) w = next a w
  continue next (err e) w = (err e, w)

  infixl 5 ◌>>=◌ ◌>>◌
  abbrev pub ◌>>=◌ : {A B : Type 0} → Step W E A → (A → Step W E B) → Step W E B
  (step >>= next) w = continue next (step w).0 (step w).1

  abbrev pub ◌>>◌ : {A B : Type 0} → Step W E A → Step W E B → Step W E B
  step >> next = step >>= λ _. next

module _ {W E : Type 0} where
  -- A block that ends well has passed its first step.
  pub >>=-ends_ok :
      {A B : Type 0} (step : Step W E A) (next : A → Step W E B) (w : W) {b : B}
      → ((step >>= next) w).0 ≡ ok b
      → (a : A) × ((step w).0 ≡ ok a)
        × ((next a (step w).1).0 ≡ ok b)
        × (((step >>= next) w).1 ≡ (next a (step w).1).1)
  >>=-ends_ok step next w h = elim (Result-cases (step w).0) [
    | inl (a, e) ↦ (a, e, rw e at h, rw e refl)
    | inr (x, e) ↦ absurd (let bad = rw e at h in ground arith)
  ]

  -- A transitive relation between the worlds before and after each step is one between those of a block.
  pub >>=-keeps :
      {A B : Type 0} (R : W → W → Type 0)
      → ((a b c : W) → R a b → R b c → R a c)
      → (step : Step W E A) (next : A → Step W E B) → ((w : W) → R w (step w).1)
      → ((a : A) (w : W) → R w (next a w).1)
      → (w : W) → R w ((step >>= next) w).1
  >>=-keeps R trans step next first rest w = elim (Result-cases (step w).0) [
    | inl (a, e) ↦ rw e (trans w (step w).1 _ (first w) (rest a (step w).1))
    | inr (x, e) ↦ rw e (first w)
  ]

  -- The same where the first step and the rest have relations of their own.
  pub >>=-within :
      {A B : Type 0} (R Q T : W → W → Type 0)
      → ((a b : W) → R a b → T a b)
      → ((a b c : W) → R a b → Q b c → T a c)
      → (step : Step W E A) (next : A → Step W E B) → ((w : W) → R w (step w).1)
      → ((a : A) (w : W) → Q w (next a w).1)
      → (w : W) → T w ((step >>= next) w).1
  >>=-within R Q T ends trans step next first rest w = elim (Result-cases (step w).0) [
    | inl (a, e) ↦ rw e (trans w (step w).1 _ (first w) (rest a (step w).1))
    | inr (x, e) ↦ rw e (ends w _ (first w))
  ]

  -- A block whose first step is known goes on from there.
  pub >>=-from :
      {A B : Type 0} (step : Step W E A) (next : A → Step W E B) (w v : W) {a : A}
      → (step w).0 ≡ ok a
      → (step w).1 ≡ v
      → (step >>= next) w ≡ next a v
  >>=-from step next w v first at = rw (first, at) refl

  pub continue_same :
      {A B : Type 0} (next next' : A → Step W E B)
      → ((a : A) (v : W) → next a v ≡ next' a v)
      → (r : Result E A) (w : W) → continue next r w ≡ continue next' r w
  continue_same next next' same (ok a) w = same a w
  continue_same next next' same (err e) w = refl
