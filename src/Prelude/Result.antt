-- ===== src/Prelude/Result.antt =====
-- Rust's `Result`, its `?` as the bind of a `do` block, and the conversions that the program uses.
use mathlib.Core.Path.{◌≡◌, refl}
use mathlib.Core.Logic.{◌⊎◌, ◌≢◌, inl, inr}
use mathlib.Core.Bool.{Bool, true, false}
use mathlib.Core.Option.{Option, none, some}
use native.Mathlib.Omega.{arith}

pub data Result {ℓ κ} (A : Type ℓ) (E : Type κ) : Type (ℓ ⊔ κ) where
  ok : A → Result A E
  err : E → Result A E

module _ {ℓ κ μ} {A : Type ℓ} {B : Type κ} {E : Type μ} where
  infixl 5 ◌>>=◌
  abbrev pub ◌>>=◌ : Result A E → (A → Result B E) → Result B E
  ok a >>= f = f a
  err e >>= f = err e

module _ {ℓ κ} {B : Type ℓ} {E : Type κ} where
  infixl 5 ◌>>◌
  abbrev pub ◌>>◌ : Result (Unit {0}) E → Result B E → Result B E
  m >> k = m >>= λ _. k

module _ {ℓ} {E : Type ℓ} where
  -- `if !test { return Err(e) }`
  abbrev pub guard : Bool → E → Result (Unit {0}) E
  guard true e = ok tt
  guard false e = err e

module _ {ℓ κ} {A : Type ℓ} {E : Type κ} where
  abbrev pub ok_or : Option A → E → Result A E
  ok_or none e = err e
  ok_or (some a) e = ok a

  -- `is_ok`
  abbrev pub is_ok : Result A E → Bool
  is_ok (ok a) = true
  is_ok (err e) = false

module _ {ℓ κ μ} {A : Type ℓ} {E : Type κ} {F : Type μ} where
  abbrev pub map_err : Result A E → (E → F) → Result A F
  map_err (ok a) f = ok a
  map_err (err e) f = err (f e)

-- To split on a computed result and keep the equation.
pub Result-cases {ℓ κ} :
    {A : Type ℓ} {E : Type κ} (r : Result A E) → ((a : A) × (r ≡ ok a)) ⊎ ((e : E) × (r ≡ err e))
Result-cases (ok a) = inl (a, refl)
Result-cases (err e) = inr (e, refl)

-- Inversion of the steps of a `do` block that returned.
module _ {ℓ κ μ} {E : Type ℓ} {A : Type κ} {B : Type μ} where
  pub >>=-eq-ok :
      (step : Result A E) (rest : A → Result B E) {out : B}
      → (step >>= rest) ≡ ok out
      → (got : A) × (step ≡ ok got) × (rest got ≡ ok out)
  >>=-eq-ok (err failure) rest returned = cc
  >>=-eq-ok (ok got) rest returned = (got, refl, returned)

pub guard-eq-ok {ℓ κ} :
    {B : Type ℓ} {E : Type κ} (t : Bool) (e : E) (m : Result B E) {b : B}
    → (guard t e >> m) ≡ ok b
    → (t ≡ true) × (m ≡ ok b)
guard-eq-ok true e m h = (refl, h)
guard-eq-ok false e m h = cc

pub ok_or-eq-ok {ℓ κ} :
    {A : Type ℓ} {E : Type κ} (o : Option A) (e : E) {a : A} → ok_or o e ≡ ok a → o ≡ some a
ok_or-eq-ok none e h = cc
ok_or-eq-ok (some a) e h = cc

pub map_err-eq-ok {ℓ κ μ} :
    {A : Type ℓ} {E : Type κ} {F : Type μ} (r : Result A E) (f : E → F) {a : A}
    → map_err r f ≡ ok a
    → r ≡ ok a
map_err-eq-ok (ok a) f h = cc
map_err-eq-ok (err e) f h = cc

-- The same by a property of the result, step by step: what a step returned is a variable then.
pub >>=-elim {ℓ κ μ ν} :
    {A : Type ℓ} {B : Type κ} {E : Type μ} (P : B → Type ν) (m : Result A E) (f : A → Result B E)
    → ((a : A) → m ≡ ok a → (b : B) → f a ≡ ok b → P b)
    → (b : B) → (m >>= f) ≡ ok b
    → P b
>>=-elim P (ok a) f k b h = k a refl b h
>>=-elim P (err e) f k b h = absurd (ground arith)

pub ok-eq-ok {ℓ κ} :
    {A : Type ℓ} {E : Type κ} {a b : A} → ◌≡◌ {A = Result A E} (ok a) (ok b) → a ≡ b
ok-eq-ok h = cc

pub ok-ne-err {ℓ κ} :
    {A : Type ℓ} {E : Type κ} {a : A} {e : E} → ◌≢◌ {A = Result A E} (ok a) (err e)
ok-ne-err h = cc
