-- ===== src/Wire/Ints.antt =====
-- The integer and string codecs of p9.go: gint8 to gstr, pint8 to pstr, and `copy`.
-- A reader takes a slice and returns what it read with the slice behind it. A writer stores
-- through a slice of the buffer and returns the slice behind what it stored: it is modelled with a
-- `Cursor`, the buffer cut at the place where the slice begins.
pub mod Laws
use chan.Prelude.{
  ℕ, ◌%◌, ◌^◌, Bool, Option, none, some, [], ◌∷◌, ◌++◌, bit_or, ltb, if◌then◌else◌, length, take,
  drop,
}
use chan.Prelude.Bits.{shl, shr}
use chan.Wire.Result.{Result, ok, panic, ◌>>=◌}
use chan.Wire.Types.{Bytes}

-- A slice that may be nil.
abbrev pub Slice : Type 0
Slice = Option Bytes

unfoldable pub gint8 : Bytes → Result (ℕ × Bytes)
gint8 (b0 ∷ buf) = ok (b0, buf)
gint8 [] = panic

unfoldable pub gint16 : Bytes → Result (ℕ × Bytes)
gint16 (b0 ∷ b1 ∷ buf) = ok (bit_or b0 (shl 16 b1 8), buf)
gint16 _ = panic

unfoldable pub gint32 : Bytes → Result (ℕ × Bytes)
gint32 (b0 ∷ b1 ∷ b2 ∷ b3 ∷ buf) =
    ok (bit_or (bit_or (bit_or b0 (shl 32 b1 8)) (shl 32 b2 16)) (shl 32 b3 24), buf)
gint32 _ = panic

unfoldable pub gint64 : Bytes → Result (ℕ × Bytes)
gint64 (b0 ∷ b1 ∷ b2 ∷ b3 ∷ b4 ∷ b5 ∷ b6 ∷ b7 ∷ buf) =
    let low = bit_or (bit_or (bit_or b0 (shl 64 b1 8)) (shl 64 b2 16)) (shl 64 b3 24) in
    let more = bit_or (bit_or low (shl 64 b4 32)) (shl 64 b5 40) in
    ok (bit_or (bit_or more (shl 64 b6 48)) (shl 64 b7 56), buf)
gint64 _ = panic

unfoldable pub gstr : Slice → Result (Bytes × Slice)
gstr none = ok ([], none)
gstr (some buf) = do
  (n, buf') ← gint16 buf
  if ltb (length buf') n then ok ([], none) else ok (take n buf', some (drop n buf'))

-- The bytes before the slice that is written through, and the slice.
abbrev pub Cursor : Type 0
Cursor = Bytes × Bytes

-- `buf[0] = x0; buf[1] = x1; …` and the slice behind
unfoldable pub store : Bytes → Cursor → Result Cursor
store [] p = ok p
store (x ∷ xs) (before, []) = panic
store (x ∷ xs) (before, _ ∷ buf) = store xs (before ++ x ∷ [], buf)

-- `uint8(val >> k)`
abbrev pub byte : ℕ → ℕ → ℕ
byte val k = shr val k % 2 ^ 8

unfoldable pub le8 : ℕ → Bytes
le8 val = val ∷ []

unfoldable pub le16 : ℕ → Bytes
le16 val = byte val 0 ∷ byte val 8 ∷ []

unfoldable pub le32 : ℕ → Bytes
le32 val = byte val 0 ∷ byte val 8 ∷ byte val 16 ∷ byte val 24 ∷ []

unfoldable pub le64 : ℕ → Bytes
le64 val =
    byte val 0
    ∷ byte val 8
    ∷ byte val 16
    ∷ byte val 24
    ∷ byte val 32
    ∷ byte val 40
    ∷ byte val 48
    ∷ byte val 56
    ∷ []

unfoldable pub pint8 : ℕ → Cursor → Result Cursor
unfolding store le8
pint8 val = store (le8 val)

unfoldable pub pint16 : ℕ → Cursor → Result Cursor
unfolding store le16
pint16 val = store (le16 val)

unfoldable pub pint32 : ℕ → Cursor → Result Cursor
unfolding store le32
pint32 val = store (le32 val)

unfoldable pub pint64 : ℕ → Cursor → Result Cursor
unfolding store le64
pint64 val = store (le64 val)

-- Go's `copy`, which stops at the end of the shorter slice
unfoldable pub copy : Bytes → Bytes → Bytes
copy [] src = []
copy (d ∷ dst) [] = d ∷ dst
copy (d ∷ dst) (s ∷ src) = s ∷ copy dst src

-- `return buf[n:len(buf)]`
unfoldable pub skip : ℕ → Cursor → Result Cursor
skip n (before, buf) = if ltb (length buf) n then panic else ok (before ++ take n buf, drop n buf)

-- The length is cut to 16 bits, the copy is not.
unfoldable pub pstr : Bytes → Cursor → Result Cursor
pstr val p = do
  let n = length val % 2 ^ 16
  (before, buf) ← pint16 n p
  skip n (before, copy buf val)

-- Two writes, one behind the other: `buf = f(…, buf); buf = g(…, buf)`.
infixr 20 ◌⟫◌
unfoldable pub ◌⟫◌ : (Cursor → Result Cursor) → (Cursor → Result Cursor) → Cursor → Result Cursor
◌⟫◌ f g p = f p >>= g

-- No write.
unfoldable pub stay : Cursor → Result Cursor
stay p = ok p

-- A write under `if dotu`.
unfoldable pub when : Bool → (Cursor → Result Cursor) → Cursor → Result Cursor
unfolding stay
when dotu f = if dotu then f else stay
