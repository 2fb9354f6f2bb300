-- ===== src/Prelude/Results.antt =====
-- Rust's `Result`, with `?` as bind and an early `return Err(..)` as `reject_if`.
use mathlib.Core.Path.{◌≡◌, refl}
use mathlib.Core.Logic.{◌⊎◌, inl, inr}
use mathlib.Core.Bool.{Bool, true, false, not}

pub data Result {ℓ κ} (E : Type κ) (A : Type ℓ) : Type (ℓ ⊔ κ) where
  ok : A → Result E A
  err : E → Result E A

infixl 5 ◌>>=◌ ◌>>◌
abbrev pub ◌>>=◌ {ℓ κ μ} :
    {E : Type μ} {A : Type ℓ} {B : Type κ} → Result E A → (A → Result E B) → Result E B
ok a >>= f = f a
err e >>= f = err e

abbrev pub ◌>>◌ {ℓ μ} : {E : Type μ} {B : Type ℓ} → Result E (Unit {0}) → Result E B → Result E B
m >> k = m >>= λ _. k

abbrev pub reject_if {μ} : {E : Type μ} → Bool → E → Result E (Unit {0})
reject_if true e = err e
reject_if false e = ok tt

-- `map_err`, which the conversion `#[from]` of an error makes under `?`.
abbrev pub map_err {ℓ μ ν} :
    {E : Type μ} {F : Type ν} {A : Type ℓ} → (E → F) → Result E A → Result F A
map_err f (ok a) = ok a
map_err f (err e) = err (f e)

pub Result-cases {ℓ ℓ'} :
    {E : Type ℓ} {A : Type ℓ'} (r : Result E A) → ((e : E) × (r ≡ err e)) ⊎ ((a : A) × (r ≡ ok a))
Result-cases (err e) = inl (e, refl)
Result-cases (ok a) = inr (a, refl)

-- What a chain that gave a value ran through.
module _ {ℓ κ μ} {E : Type μ} {A : Type ℓ} {B : Type κ} where
  pub bind-ok :
      (r : Result E A) (f : A → Result E B) (b : B)
      → (r >>= f) ≡ ok b
      → (a : A) × (r ≡ ok a) × (f a ≡ ok b)
  bind-ok (ok a) f b h = (a, refl, h)
  bind-ok (err e) f b h = absurd (cc)

pub bind-ok_tt {κ μ} :
    {E : Type μ} {B : Type κ} (r : Result E (Unit {0})) (k : Result E B) (b : B)
    → (r >> k) ≡ ok b
    → (r ≡ ok tt) × (k ≡ ok b)
bind-ok_tt (ok tt) k b h = (refl, h)
bind-ok_tt (err e) k b h = absurd (cc)

pub map_err-ok {ℓ μ ν} :
    {E : Type μ} {F : Type ν} {A : Type ℓ} (f : E → F) (r : Result E A) (a : A)
    → map_err f r ≡ ok a
    → r ≡ ok a
map_err-ok f (ok b) a h = cc
map_err-ok f (err e) a h = absurd (cc)

pub reject_if-ok {μ} : {E : Type μ} (b : Bool) (e : E) → reject_if b e ≡ ok tt → b ≡ false
reject_if-ok true e h = absurd (cc)
reject_if-ok false e h = refl

-- A guard that is a negated test.
pub reject_if-not-ok {μ} : {E : Type μ} (b : Bool) (e : E) → reject_if (not b) e ≡ ok tt → b ≡ true
reject_if-not-ok true e h = refl
reject_if-not-ok false e h = absurd (cc)

pub ok-inj {ℓ μ} : {E : Type μ} {A : Type ℓ} {a b : A} → ◌≡◌ {A = Result E A} (ok a) (ok b) → a ≡ b
ok-inj h = cc

-- What makes a chain give a value.
pub bind-intro {ℓ κ μ} :
    {E : Type μ} {A : Type ℓ} {B : Type κ} (r : Result E A) (f : A → Result E B) (a : A) (b : B)
    → r ≡ ok a
    → f a ≡ ok b
    → (r >>= f) ≡ ok b
bind-intro r f a b e h = rw e h

pub bind-intro_tt {κ μ} :
    {E : Type μ} {B : Type κ} (r : Result E (Unit {0})) (k : Result E B) (b : B)
    → r ≡ ok tt
    → k ≡ ok b
    → (r >> k) ≡ ok b
bind-intro_tt r k b e h = rw e h
