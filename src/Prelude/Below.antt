-- ===== src/Prelude/Below.antt =====
-- The bits of a number, and facts on small numbers that are proved by trying them all.
use chan.Prelude.{
  ℕ, zero, suc, ◌/◌, ◌%◌, ◌^◌, ◌<◌, ◌==◌, ◌≡◌, ◌⊎◌, inl, inr, refl, sym, arith, Bool, true, false,
  ◌&&◌, not,
}
use mathlib.Core.Path.{subst}

abbrev pub bit : ℕ → ℕ → Bool
bit b i = b / 2 ^ i % 2 == 1

-- A test that holds of every number below `n`.
abbrev pub all_below : ℕ → (ℕ → Bool) → Bool
all_below zero f = true
all_below (suc n) f = f n && all_below n f

pub all_below_holds : (n : ℕ) (f : ℕ → Bool) (i : ℕ) → all_below n f ≡ true → i < n → f i ≡ true
all_below_holds zero f i h lt = absurd (omega arith)
all_below_holds (suc n) f i h lt = elim (last_or_less i n lt) [
  | inl e ↦ subst (λ k. f k ≡ true) (sym e) (ground arith)
  | inr less ↦ all_below_holds n f i (ground arith) less
]
  where
    last_or_less : (i n : ℕ) → i < suc n → (i ≡ n) ⊎ (i < n)
    last_or_less i n h = omega arith

abbrev pub same : Bool → Bool → Bool
same true b = b
same false b = not b

pub same_sound : (a b : Bool) → same a b ≡ true → a ≡ b
same_sound true b h = sym h
same_sound false true h = absurd (ground arith)
same_sound false false h = refl
