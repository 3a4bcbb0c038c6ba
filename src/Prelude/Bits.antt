-- ===== src/Prelude/Bits.antt =====
-- Go's `x << k` and `|` on unsigned words, and the sum that a union of disjoint fields is.
use Prim.Native.Nat.{max, min, digits, bit_or-bitwise, bit_and-bitwise}
use Prim.Native.Nat.{ℕ, zero, suc, ◌+◌, ◌*◌, ◌/◌, ◌%◌, ◌^◌, ◌≤◌, ◌<◌, bit_or, bit_and}
use mathlib.Core.Path.{◌≡◌, refl, sym, ap, ◌∙◌}
use native.Mathlib.Omega.{arith}
use native.Mathlib.Nat.{pow-suc}

-- `x << k` of a `w`-bit word
abbrev pub shl : ℕ → ℕ → ℕ → ℕ
shl w x k = x * 2 ^ k % 2 ^ w

-- `x >> k`
abbrev pub shr : ℕ → ℕ → ℕ
shr x k = x / 2 ^ k

-- An operation on the binary digits of two numbers, whose digits are read with some fuel.
module _ (ends : ℕ → ℕ) (op : ℕ → ℕ → ℕ) where
  on_digits : ℕ → ℕ → ℕ → ℕ
  on_digits k x y = digits ends op k x y

  on_digits_zero : (k y : ℕ) → on_digits k 0 y ≡ ends y
  unfolding on_digits
  on_digits_zero zero y = refl
  on_digits_zero (suc k) y = refl

  -- Any fuel that is no less than the first number will do.
  on_digits_same : (x k l y : ℕ) → x ≤ k → x ≤ l → on_digits k x y ≡ on_digits l x y
  unfolding on_digits
  on_digits_same zero k l y h h' = on_digits_zero k y ∙ sym (on_digits_zero l y)
  on_digits_same (suc x) (suc k) (suc l) y h h' =
      ap (λ z. z * 2 + op (suc x % 2) (y % 2))
        (on_digits_same (suc x / 2) k l (y / 2) (omega arith) (omega arith))
  on_digits_same (suc x) zero l y h h' = absurd (omega arith)
  on_digits_same (suc x) (suc k) zero y h h' = absurd (omega arith)

  split_low :
      (f : ℕ → ℕ → ℕ)
      → ((x y : ℕ) → f x y ≡ on_digits x x y)
      → (x y : ℕ) → f (suc x) y ≡ f (suc x / 2) (y / 2) * 2 + op (suc x % 2) (y % 2)
  unfolding on_digits
  split_low f e x y =
      e (suc x) y
      ∙ ap (λ z. z * 2 + op (suc x % 2) (y % 2))
          (on_digits_same (suc x / 2) x (suc x / 2) (y / 2) (omega arith) (omega arith)
            ∙ sym (e (suc x / 2) (y / 2)))

zero-bit_or : (y : ℕ) → bit_or 0 y ≡ y
zero-bit_or y = bit_or-bitwise 0 y

bit_or_step : (x y : ℕ) → bit_or x y ≡ bit_or (x / 2) (y / 2) * 2 + max (x % 2) (y % 2)
unfolding on_digits
bit_or_step zero y = omega (arith, zero-bit_or y, zero-bit_or (y / 2))
bit_or_step (suc x) y = split_low (λ z. z) max bit_or bit_or-bitwise x y

bit_and_halves : (x y : ℕ) → bit_and x y ≡ bit_and (x / 2) (y / 2) * 2 + min (x % 2) (y % 2)
unfolding on_digits
bit_and_halves zero y = omega (arith, bit_and-bitwise 0 y, bit_and-bitwise 0 (y / 2))
bit_and_halves (suc x) y = split_low (λ z. 0) min bit_and bit_and-bitwise x y

-- A low field `r` of `k` bits and a field above it.
pub bit_or_disjoint : (k r q : ℕ) → r < 2 ^ k → bit_or r (q * 2 ^ k) ≡ r + q * 2 ^ k
bit_or_disjoint zero r q h = ground (arith, zero-bit_or (q * 1))
bit_or_disjoint (suc k) r q h = ground (
  arith,
  bit_or_step r (q * 2 ^ suc k),
  pow-suc 2 k,
  ap (λ (t : ℕ). q * t) (pow-suc 2 k),
  bit_or_disjoint k (r / 2) q,
)

and_none : (k a : ℕ) → a ≤ k → bit_and a 0 ≡ 0
and_none k zero h = refl
and_none zero (suc a) h = absurd (omega arith)
and_none (suc k) (suc a) h =
    omega (arith, bit_and_halves (suc a) 0, and_none k (suc a / 2) (omega arith))

-- The lowest three bits.
pub bit_and_low : (a : ℕ) → bit_and a 7 ≡ a % 8
bit_and_low a = omega (
  arith,
  bit_and_halves a 7,
  bit_and_halves (a / 2) 3,
  bit_and_halves (a / 2 / 2) 1,
  and_none (a / 2 / 2 / 2) (a / 2 / 2 / 2) (omega arith),
)
