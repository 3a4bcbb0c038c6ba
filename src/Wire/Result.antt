-- ===== src/Wire/Result.antt =====
-- What a call of package p returns: a value, a Go `error`, or a run-time panic, which an index or a
-- slice bound out of range raises and which nothing in the package recovers from.
use chan.Prelude.{ℕ, ◌≡◌, refl}

-- The errors of p9.go and unpack.go, one for each text; `Errornum` is EINVAL in each.
pub data Error : Type 0 where
  short_buffer buffer_too_small buffer_too_short : Error
  buffer_too_short_expected : ℕ → ℕ → Error
  invalid_id invalid_message_id invalid_size : Error

pub data Result {ℓ} (A : Type ℓ) : Type ℓ where
  ok : A → Result A
  err : Error → Result A
  panic : Result A

infixl 5 ◌>>=◌
abbrev pub ◌>>=◌ {ℓ κ} : {A : Type ℓ} {B : Type κ} → Result A → (A → Result B) → Result B
ok a >>= f = f a
err e >>= f = err e
panic >>= f = panic

-- A step that gave `a`, and the rest of the run from there to `b`.
abbrev pub Ran {ℓ κ} : {A : Type ℓ} {B : Type κ} → Result A → (A → Result B) → B → Type (ℓ ⊔ κ)
Ran {A} m f b = (a : A) × (m ≡ ok a) × (f a ≡ ok b)

-- A run of two steps that returns ran the first one to a value.
pub bind-Ran {ℓ κ} :
    {A : Type ℓ} {B : Type κ} (step : Result A) (next : A → Result B) (b : B)
    → (step >>= next) ≡ ok b
    → Ran step next b
bind-Ran panic next b e = cc
bind-Ran (err x) next b e = cc
bind-Ran (ok a) next b e = (a, refl, e)

pub ok-injective {ℓ} : {A : Type ℓ} {a b : A} → ok a ≡ ok b → a ≡ b
ok-injective h = cc
