-- ===== src/Clnt/Pool/Ids.antt =====
-- The bitmap as the set of the ids that are in use.
use chan.Prelude.{
  ℕ, zero, suc, ◌+◌, ◌-◌, ◌*◌, ◌/◌, ◌%◌, ◌^◌, ◌≤◌, ◌<◌, ◌==◌, ◌≡◌, ◌≢◌, ◌⊎◌, inl, inr, refl, sym,
  ◌∙◌, ap, arith, Bool, true, false, ◌&&◌, ◌||◌, not, List, [], ◌∷◌, All, bit_and, bit_or,
  if◌then◌else◌, length,
}
use chan.Wire.Types.{Bytes}
use chan.Clnt.Pool.{nth, set_nth, Pool}
use chan.Prelude.Below.{bit}
use chan.Clnt.Pool.Bits.{bit-bit_or, bit-bit_and}

-- The bit of an id; what is behind the bitmap is not in use.
abbrev pub in_use : Bytes → ℕ → Bool
in_use imap n = bit (nth imap (n / 8)) (n % 8)

abbrev pub IsByte : ℕ → Type 0
IsByte b = b < 256

-- The bytes are bytes, and there are none behind that of `maxid`.
abbrev pub IsPool : Pool → Type 0
IsPool p = All IsByte p.imap × (length p.imap ≤ p.maxid / 8 + 1)

pub nth_byte : (xs : Bytes) (n : ℕ) → All IsByte xs → nth xs n < 256
unfolding nth
nth_byte [] n h = omega arith
nth_byte (x ∷ xs) zero h = h.0
nth_byte (x ∷ xs) (suc n) h = nth_byte xs n h.1

pub set_nth_bytes : (xs : Bytes) (n v : ℕ) → All IsByte xs → v < 256 → All IsByte (set_nth xs n v)
unfolding set_nth
set_nth_bytes [] n v h hv = tt
set_nth_bytes (x ∷ xs) zero v h hv = (hv, h.1)
set_nth_bytes (x ∷ xs) (suc n) v h hv = (h.0, set_nth_bytes xs n v h.1 hv)

pub length-set_nth : (xs : List ℕ) (n v : ℕ) → length (set_nth xs n v) ≡ length xs
unfolding set_nth
length-set_nth [] n v = refl
length-set_nth (x ∷ xs) zero v = refl
length-set_nth (x ∷ xs) (suc n) v = ap suc (length-set_nth xs n v)

nth-set_nth :
    (xs : List ℕ) (n m v : ℕ)
    → n < length xs
    → nth (set_nth xs n v) m ≡ (if n == m then v else nth xs m)
unfolding nth set_nth
nth-set_nth [] n m v h = absurd (omega arith)
nth-set_nth (x ∷ xs) zero zero v h = ground arith
nth-set_nth (x ∷ xs) zero (suc m) v h = ground arith
nth-set_nth (x ∷ xs) (suc n) zero v h = ground arith
nth-set_nth (x ∷ xs) (suc n) (suc m) v h = ground (arith, nth-set_nth xs n m v (omega arith))

bit-if : (c : Bool) (v w i : ℕ) → bit (if c then v else w) i ≡ (if c then bit v i else bit w i)
bit-if true v w i = refl
bit-if false v w i = refl

pub eq_cases : (a b : ℕ) → (a ≡ b) ⊎ (a ≢ b)
eq_cases a b = omega arith

pub eq_true : (a b : ℕ) → a ≡ b → (a == b) ≡ true
eq_true a b h = ground arith

pub eq_false : (a b : ℕ) → a ≢ b → (a == b) ≡ false
eq_false a b h = ground arith

eq_same : (a b c d : ℕ) → (a ≡ b → c ≡ d) → (c ≡ d → a ≡ b) → (a == b) ≡ (c == d)
eq_same a b c d f g = elim (eq_cases a b) [
  | inl e ↦ eq_true a b e ∙ sym (eq_true c d (f e))
  | inr e ↦ eq_false a b e ∙ sym (eq_false c d (λ x. e (g x)))
]

write_bit :
    (xs : Bytes) (n v j : ℕ)
    → n < length xs
    → in_use (set_nth xs n v) j ≡ (if n == j / 8 then bit v (j % 8) else in_use xs j)
write_bit xs n v j inside =
    ap (λ b. bit b (j % 8)) (nth-set_nth xs n (j / 8) v inside)
    ∙ bit-if (n == j / 8) v (nth xs (j / 8)) (j % 8)

-- An id is taken: its bit is set, and no other changes.
pub set_bit :
    (xs : Bytes) (n r j : ℕ)
    → All IsByte xs
    → n < length xs
    → r < 8
    → in_use (set_nth xs n (bit_or (nth xs n) (2 ^ r))) j ≡ ((r + n * 8 == j) || in_use xs j)
set_bit xs n r j bytes inside small = elim (eq_cases n (j / 8)) [
  | inl e ↦
      let (set, _) = bit-bit_or (nth xs n) r (j % 8) (nth_byte xs n bytes) small (omega arith) in
      write_bit xs n (bit_or (nth xs n) (2 ^ r)) j inside
      ∙ rw
          (
            eq_true n (j / 8) e,
            set,
            eq_same r (j % 8) (r + n * 8) j (λ x. omega arith) (λ x. omega arith),
          )
          (ap (λ k. (r + n * 8 == j) || bit (nth xs k) (j % 8)) e)
  | inr e ↦
      write_bit xs n (bit_or (nth xs n) (2 ^ r)) j inside
      ∙ rw (eq_false n (j / 8) e, eq_false (r + n * 8) j (λ x. e (omega arith))) refl
]

-- An id is given back: its bit is cleared, and no other changes.
pub clear_bit :
    (xs : Bytes) (i j : ℕ)
    → All IsByte xs
    → i / 8 < length xs
    → in_use (set_nth xs (i / 8) (bit_and (nth xs (i / 8)) (255 - 2 ^ (i % 8)))) j
      ≡ (not (i == j) && in_use xs j)
clear_bit xs i j bytes inside = elim (eq_cases (i / 8) (j / 8)) [
  | inl e ↦
      let (cleared, _) =
        bit-bit_and (nth xs (i / 8)) (i % 8) (j % 8) (nth_byte xs (i / 8) bytes) (omega arith)
          (omega arith) in
      write_bit xs (i / 8) (bit_and (nth xs (i / 8)) (255 - 2 ^ (i % 8))) j inside
      ∙ rw
          (
            eq_true (i / 8) (j / 8) e,
            cleared,
            eq_same (i % 8) (j % 8) i j (λ x. omega arith) (λ x. omega arith),
          )
          (ap (λ k. not (i == j) && bit (nth xs k) (j % 8)) e)
  | inr e ↦
      write_bit xs (i / 8) (bit_and (nth xs (i / 8)) (255 - 2 ^ (i % 8))) j inside
      ∙ rw (eq_false (i / 8) (j / 8) e, eq_false i j (λ x. e (omega arith))) refl
]

pub nth_out : (xs : List ℕ) (n : ℕ) → length xs ≤ n → nth xs n ≡ 0
unfolding nth
nth_out [] n h = refl
nth_out (x ∷ xs) zero h = absurd (omega arith)
nth_out (x ∷ xs) (suc n) h = nth_out xs n (omega arith)
