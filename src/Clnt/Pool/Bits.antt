-- ===== src/Clnt/Pool/Bits.antt =====
-- The bits of a byte, and the table m2id, by trying all bytes.
use chan.Prelude.{
  ℕ, ◌-◌, ◌^◌, ◌<◌, ◌==◌, ◌≡◌, ◌≢◌, refl, arith, Bool, true, false, ◌&&◌, ◌||◌, not, ltb, bit_and,
  bit_or,
}
use chan.Prelude.Below.{bit, all_below, all_below_holds, same, same_sound}
use chan.Clnt.Pool.{m2id, nth}

abbrev all_bytes : (ℕ → ℕ → ℕ → Bool) → Bool
all_bytes f = all_below 256 λ b. all_below 8 λ r. all_below 8 λ i. f b r i

all_bytes_hold :
    (f : ℕ → ℕ → ℕ → Bool) (b r i : ℕ)
    → all_bytes f ≡ true
    → b < 256
    → r < 8
    → i < 8
    → f b r i ≡ true
all_bytes_hold f b r i h hb hr hi =
    all_below_holds 8 (λ i. f b r i) i
      (all_below_holds 8 (λ r. all_below 8 λ i. f b r i) r
        (all_below_holds 256 (λ b. all_below 8 λ r. all_below 8 λ i. f b r i) b h hb) hr)
      hi

and_true : (a b : Bool) → (a && b) ≡ true → (a ≡ true) × (b ≡ true)
and_true true b h = (refl, h)
and_true false b h = absurd (ground arith)

ltb-true : (a b : ℕ) → ltb a b ≡ true → a < b
ltb-true a b h = ground arith

abbrev or_test : ℕ → ℕ → ℕ → Bool
or_test b r i = same (bit (bit_or b (2 ^ r)) i) (r == i || bit b i) && ltb (bit_or b (2 ^ r)) 256

abbrev and_test : ℕ → ℕ → ℕ → Bool
and_test b r i =
    same (bit (bit_and b (255 - 2 ^ r)) i) (not (r == i) && bit b i)
    && ltb (bit_and b (255 - 2 ^ r)) 256

abbrev free_test : ℕ → ℕ → ℕ → Bool
free_test b r i =
    (b == 255)
    || (ltb (nth m2id b) 8 && not (bit b (nth m2id b)) && (not (ltb i (nth m2id b)) || bit b i))

or_tried : all_bytes or_test ≡ true
or_tried = refl

and_tried : all_bytes and_test ≡ true
and_tried = refl

free_tried : all_bytes free_test ≡ true
unfolding nth
free_tried = refl

-- `b |= 1 << r` sets one bit of a byte.
pub bit-bit_or :
    (b r i : ℕ)
    → b < 256
    → r < 8
    → i < 8
    → (bit (bit_or b (2 ^ r)) i ≡ (r == i || bit b i)) × (bit_or b (2 ^ r) < 256)
bit-bit_or b r i hb hr hi =
    let (set, byte) = and_true _ _ (all_bytes_hold or_test b r i or_tried hb hr hi) in
    (same_sound _ _ set, ltb-true _ _ byte)

-- `b &= ^(1 << r)` clears one.
pub bit-bit_and :
    (b r i : ℕ)
    → b < 256
    → r < 8
    → i < 8
    → (bit (bit_and b (255 - 2 ^ r)) i ≡ (not (r == i) && bit b i))
      × (bit_and b (255 - 2 ^ r) < 256)
bit-bit_and b r i hb hr hi =
    let (cleared, byte) = and_true _ _ (all_bytes_hold and_test b r i and_tried hb hr hi) in
    (same_sound _ _ cleared, ltb-true _ _ byte)

free_facts :
    (b i m : ℕ) (x y : Bool)
    → b ≢ 255
    → ((b == 255) || (ltb m 8 && not x && (not (ltb i m) || y))) ≡ true
    → (m < 8) × (x ≡ false) × (i < m → y ≡ true)
free_facts b i m x y h t = (ground arith, ground arith, λ lt. ground arith)

-- The table names the lowest bit that is clear.
pub m2id_lowest :
    (b i : ℕ)
    → b < 256
    → b ≢ 255
    → i < 8
    → (nth m2id b < 8) × (bit b (nth m2id b) ≡ false) × (i < nth m2id b → bit b i ≡ true)
m2id_lowest b i hb h hi =
    free_facts b i (nth m2id b) _ _ h
      (all_bytes_hold free_test b 0 i free_tried hb (omega arith) hi)

-- All bits of 0xFF are set.
pub bit_full : (i : ℕ) → i < 8 → bit 255 i ≡ true
bit_full i h = all_below_holds 8 (bit 255) i refl h

pub bit_clear : (i : ℕ) → i < 8 → bit 0 i ≡ false
bit_clear i h = same_sound (bit 0 i) false (all_below_holds 8 (λ i. same (bit 0 i) false) i refl h)
