-- ===== src/Prelude/Run.antt =====
-- Runs of Go functions on a state: the outcomes, and the monad of the functions that change the state.
use chan.Prelude.{ℕ, ◌==◌, Option, none, some, if◌then◌else◌}

-- A run ends with a value, or with a nil pointer or an index out of range, or it has used up the fuel
-- of a model.
pub data Outcome {ℓ} (A : Type ℓ) : Type ℓ where
  done : A → Outcome A
  panic : Outcome A
  stuck : Outcome A

abbrev pub Run : Type 0 → Type 0 → Type 0
Run S A = S → Outcome (A × S)

module _ {S : Type 0} where
  abbrev pub pure : {A : Type 0} → A → Run S A
  pure a s = done (a, s)

  abbrev pub crash : {A : Type 0} → Run S A
  crash s = panic

  abbrev pub follow : {A B : Type 0} → Outcome (A × S) → (A → Run S B) → Outcome (B × S)
  follow (done (a, s)) k = k a s
  follow panic k = panic
  follow stuck k = stuck

  infixl 5 ◌>>=◌ ◌>>◌
  abbrev pub ◌>>=◌ : {A B : Type 0} → Run S A → (A → Run S B) → Run S B
  ◌>>=◌ m k s = follow (m s) k

  abbrev pub ◌>>◌ : {B : Type 0} → Run S (Unit {0}) → Run S B → Run S B
  ◌>>◌ m k s = follow (m s) (λ _. k)

  abbrev pub gets : {A : Type 0} → (S → A) → Run S A
  gets f s = done (f s, s)

  abbrev pub modify : (S → S) → Run S (Unit {0})
  modify f s = done (tt, f s)

  -- `*ptr` for a pointer that may be nil
  abbrev pub deref : {A : Type 0} → Option A → Run S A
  deref none = crash
  deref (some a) = pure a

-- A map with one entry set, or taken out.
abbrev pub update : {A : Type 0} → (ℕ → Option A) → ℕ → Option A → ℕ → Option A
update m k v j = if k == j then v else m j
