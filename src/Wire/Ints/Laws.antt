-- ===== src/Wire/Ints/Laws.antt =====
-- What the codecs of p9.go write, and that the readers read it back.
use chan.Prelude.{
  ℕ, ◌+◌, ◌*◌, ◌%◌, ◌≤◌, ◌<◌, ◌^◌, ◌≡◌, refl, ap, arith, bit_or, Bool, true, false, some, [], ◌∷◌,
  ◌++◌, append-nil, append-nil, append_assoc, ◌∙◌, ◌∙◌, ltb-eq-false, if◌then◌else◌, length,
  length-append, length-drop, drop, take-append, drop-append, drop-drop,
}
use native.Mathlib.Nat.{mod-lt, mod-eq_of_lt}
use chan.Prelude.Bits.{bit_or_disjoint, shl}
use chan.Wire.Result.{Result, ok}
use chan.Wire.Types.{Bytes, IsU16, IsU32, IsU64}
use chan.Wire.Ints.{
  gint8, gint16, gint32, gint64, gstr, Cursor, store, byte, le8, le16, le32, le64, pint8, pint16,
  pint32, pint64, copy, skip, pstr, ◌⟫◌, stay, when,
}

-- One more byte above the `k` bits read so far.
join :
    (w k v : ℕ)
    → byte v k * 2 ^ k < 2 ^ w
    → 0 < 2 ^ k
    → v % 2 ^ k + byte v k * 2 ^ k ≡ v % 2 ^ (k + 8)
    → bit_or (v % 2 ^ k) (shl w (byte v k) k) ≡ v % 2 ^ (k + 8)
join w k v fits pos e = rw (mod-eq_of_lt fits, bit_or_disjoint k, mod-lt _ pos) e

pub le16_read : (v : ℕ) (rest : Bytes) → IsU16 v → gint16 (le16 v ++ rest) ≡ ok (v, rest)
unfolding gint16 le16
le16_read v rest h = ground (arith, join 16 8 v (omega arith) (omega arith) (omega arith))

pub le32_read : (v : ℕ) (rest : Bytes) → IsU32 v → gint32 (le32 v ++ rest) ≡ ok (v, rest)
unfolding gint32 le32
le32_read v rest h = ground (
  arith,
  join 32 8 v (omega arith) (omega arith) (omega arith),
  join 32 16 v (omega arith) (omega arith) (omega arith),
  join 32 24 v (omega arith) (omega arith) (omega arith),
)

pub le64_read : (v : ℕ) (rest : Bytes) → IsU64 v → gint64 (le64 v ++ rest) ≡ ok (v, rest)
unfolding gint64 le64
le64_read v rest h = ground (
  arith,
  join 64 8 v (omega arith) (omega arith) (omega arith),
  join 64 16 v (omega arith) (omega arith) (omega arith),
  join 64 24 v (omega arith) (omega arith) (omega arith),
  join 64 32 v (omega arith) (omega arith) (omega arith),
  join 64 40 v (omega arith) (omega arith) (omega arith),
  join 64 48 v (omega arith) (omega arith) (omega arith),
  join 64 56 v (omega arith) (omega arith) (omega arith),
)

pub le8_read : (v : ℕ) (rest : Bytes) → gint8 (le8 v ++ rest) ≡ ok (v, rest)
unfolding gint8 le8
le8_read v rest = refl

-- A string on the wire: its length in two bytes, and its bytes.
unfoldable pub str : Bytes → Bytes
str s = le16 (length s) ++ s

pub str_read : (s rest : Bytes) → IsU16 (length s) → gstr (some (str s ++ rest)) ≡ ok (s, some rest)
unfolding gstr str
str_read s rest h = simp (
  append_assoc,
  le16_read (length s) (s ++ rest) h,
  length-append {0},
  ltb-eq-false (length s + length rest) (length s) (omega arith),
  take-append,
  drop-append,
)

pub length-le8 : (v : ℕ) → length (le8 v) ≡ 1
unfolding le8
length-le8 v = refl

pub length-le16 : (v : ℕ) → length (le16 v) ≡ 2
unfolding le16
length-le16 v = refl

pub length-le32 : (v : ℕ) → length (le32 v) ≡ 4
unfolding le32
length-le32 v = refl

pub length-le64 : (v : ℕ) → length (le64 v) ≡ 8
unfolding le64
length-le64 v = refl

pub length-str : (s : Bytes) → length (str s) ≡ 2 + length s
unfolding str le16
length-str s = omega arith

-- The cursor behind a write of `xs`.
abbrev pub advance : Bytes → Cursor → Cursor
advance xs (before, buf) = (before ++ xs, drop (length xs) buf)

-- `m` writes exactly `xs` when the buffer has room for them.
pub record Puts (m : Cursor → Result Cursor) (xs : Bytes) : Type 0 where
  pub run : (p : Cursor) → length xs ≤ length p.1 → m p ≡ ok (advance xs p)

store_lem :
    (xs before buf : Bytes)
    → length xs ≤ length buf
    → store xs (before, buf) ≡ ok (advance xs (before, buf))
unfolding store
store_lem [] before buf h = rw append-nil
store_lem (x ∷ xs) before [] h = absurd (omega arith)
store_lem (x ∷ xs) before (b ∷ buf) h =
    store_lem xs (before ++ x ∷ []) buf (omega arith) ∙ rw append_assoc

pub pint8-Puts : (v : ℕ) → Puts (pint8 v) (le8 v)
unfolding pint8
pint8-Puts v = record { run = λ p h. store_lem (le8 v) p.0 p.1 h }

pub pint16-Puts : (v : ℕ) → Puts (pint16 v) (le16 v)
unfolding pint16
pint16-Puts v = record { run = λ p h. store_lem (le16 v) p.0 p.1 h }

pub pint32-Puts : (v : ℕ) → Puts (pint32 v) (le32 v)
unfolding pint32
pint32-Puts v = record { run = λ p h. store_lem (le32 v) p.0 p.1 h }

pub pint64-Puts : (v : ℕ) → Puts (pint64 v) (le64 v)
unfolding pint64
pint64-Puts v = record { run = λ p h. store_lem (le64 v) p.0 p.1 h }

pub copy_lem :
    (dst src : Bytes) → length src ≤ length dst → copy dst src ≡ src ++ drop (length src) dst
unfolding copy
copy_lem [] [] h = refl
copy_lem [] (s ∷ src) h = absurd (omega arith)
copy_lem (d ∷ dst) [] h = refl
copy_lem (d ∷ dst) (s ∷ src) h = ap (λ t. s ∷ t) (copy_lem dst src (omega arith))

skip_lem : (xs before buf : Bytes) → skip (length xs) (before, xs ++ buf) ≡ ok (before ++ xs, buf)
unfolding skip
skip_lem xs before buf = simp (
  length-append {0},
  ltb-eq-false (length xs + length buf) (length xs) (omega arith),
  take-append,
  drop-append,
)

pstr_run :
    (s before buf : Bytes)
    → IsU16 (length s)
    → length (str s) ≤ length buf
    → pstr s (before, buf) ≡ ok (advance (str s) (before, buf))
unfolding pstr str
pstr_run s before buf h r =
    rw
      (
        mod-eq_of_lt h,
        (pint16-Puts (length s)).run (before, buf)
            (omega (arith, length-le16 (length s), length-str s)),
        copy_lem (drop (length (le16 (length s))) buf) s room,
      )
      (skip_lem s (before ++ le16 (length s)) _ ∙ rw (append_assoc, drop-drop, length-append))
  where
    room : length s ≤ length (drop (length (le16 (length s))) buf)
    room = rw length-drop (omega (arith, length-le16 (length s), length-str s))

pub pstr-Puts : (s : Bytes) → IsU16 (length s) → Puts (pstr s) (str s)
pstr-Puts s h = record { run = λ p r. pstr_run s p.0 p.1 h r }

-- One write behind another.
infixr 20 ◌⊕◌
pub ◌⊕◌ :
    {f g : Cursor → Result Cursor} {xs ys : Bytes} → Puts f xs → Puts g ys → Puts (f ⟫ g) (xs ++ ys)
unfolding ◌⟫◌
◌⊕◌ {f} {g} {xs} {ys} pf pg = record {
  run = λ p r. rw (pf.run p (omega (arith, length-append xs ys))) (
      pg.run (advance xs p) (omega (arith, length-append xs ys, length-drop (length xs) p.1))
      ∙ rw (append_assoc, drop-drop, length-append));
}

pub stay-Puts : Puts stay []
unfolding stay
stay-Puts = record { run = λ p h. rw append-nil }

pub when-Puts :
    (dotu : Bool) {f : Cursor → Result Cursor} (xs : Bytes)
    → Puts f xs
    → Puts (when dotu f) (if dotu then xs else [])
unfolding when
when-Puts true xs pf = pf
when-Puts false xs pf = stay-Puts
