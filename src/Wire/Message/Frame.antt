-- ===== src/Wire/Message/Frame.antt =====
-- The frame that `pack` puts around a body, for any buffer that has room and any that has not.
use chan.Prelude.{
  ℕ, ◌+◌, ◌≤◌, ◌<◌, ◌^◌, ◌≡◌, ◌∙◌, arith, [], ◌++◌, append_assoc, ◌⌢◌, ltb-eq-true, ltb-eq-false,
  length, length-append, length-drop, take, drop, take-append,
}
use native.Mathlib.Nat.{mod-eq_of_lt}
use chan.Wire.Result.{Result, ok, err, buffer_too_small}
use chan.Wire.Types.{Bytes, Fcall, notag}
use chan.Wire.Ints.{Cursor, le8, le16, le32}
use chan.Wire.Ints.Laws.{
  advance, Puts, ◌⊕◌, pint8-Puts, pint16-Puts, pint32-Puts, length-le8, length-le16, length-le32,
}
use chan.Wire.Pack.{pack, pack_common, commit}
use chan.Wire.Message.{frame}

pub length-frame : (type tag : ℕ) (body : Bytes) → length (frame type tag body) ≡ length body + 7
unfolding frame
length-frame type tag body =
    simp (length-append, length-le8, length-le16, length-le32) (omega arith)

abbrev pub header : ℕ → ℕ → Bytes
header size id = le32 size ⌢ le8 id ⌢ le16 notag

pub length-header : (size id : ℕ) → length (header size id) ≡ 7
length-header size id = simp (length-append, length-le8, length-le16, length-le32)

-- The header is written, and the slice behind it is what the body has room in.
pub pack_common_ok :
    (fc : Fcall) (size id : ℕ)
    → size + 7 ≤ length fc.buf
    → size + 7 < 2 ^ 32
    → pack_common fc size id
      ≡ ok (
        record fc { size = size + 7; type = id; tag = notag },
        (header (size + 7) id, drop 7 fc.buf),
      )
unfolding pack_common
pack_common_ok fc size id room small = rw (
  ltb-eq-false (length fc.buf) (size + 7) room,
  mod-eq_of_lt small,
  (pint32-Puts (size + 7) ⊕ pint8-Puts id ⊕ pint16-Puts notag).run ([], fc.buf) fits,
  length-header (size + 7) id,
)
  where
    fits : length (header (size + 7) id) ≤ length fc.buf
    fits = omega (arith, length-header (size + 7) id)

pub pack_common_short :
    (fc : Fcall) (size id : ℕ)
    → length fc.buf < size + 7
    → pack_common fc size id ≡ err buffer_too_small
unfolding pack_common
pack_common_short fc size id h = rw (ltb-eq-true (length fc.buf) (size + 7) h)

-- `r` is a message whose packet is `bytes`.
abbrev pub Packs : Result Fcall → Bytes → Type 0
Packs r bytes = (fc : Fcall) × (r ≡ ok fc) × (fc.pkt ≡ bytes)

pub take_front : (n : ℕ) (xs ys : Bytes) → length xs ≡ n → take n (xs ++ ys) ≡ xs
take_front n xs ys e = rw (← e) (take-append xs ys)

pub header-append : (id : ℕ) (bs : Bytes) → header (length bs + 7) id ++ bs ≡ frame id notag bs
unfolding frame
header-append id bs = simp append_assoc

module _ (fc : Fcall) (size id : ℕ) (fill : Fcall → Fcall) (body : Cursor → Result Cursor) where
  pub pack_ok :
      (bs : Bytes)
      → Puts body bs
      → length bs ≡ size
      → size + 7 ≤ length fc.buf
      → size + 7 < 2 ^ 32
      → Packs (pack fc size id fill body) (frame id notag bs)
  unfolding pack
  pack_ok bs puts e room small = (
    commit (fill (record fc { size = size + 7; type = id; tag = notag })) (size + 7)
        (advance bs (header (size + 7) id, drop 7 fc.buf)),
    rw (pack_common_ok fc size id room small, puts.run (header (size + 7) id, drop 7 fc.buf) fits),
    take_front (size + 7) _ _ len ∙ rw (← e) (header-append id bs),
  )
    where
      fits : length bs ≤ length (drop 7 fc.buf)
      fits = rw length-drop (omega arith)

      len : length (header (size + 7) id ++ bs) ≡ size + 7
      len = omega (arith, length-append (header (size + 7) id) bs, length-header (size + 7) id)

  pub pack_short : length fc.buf < size + 7 → pack fc size id fill body ≡ err buffer_too_small
  unfolding pack
  pack_short h = rw (pack_common_short fc size id h)

-- The two outcomes of packing `bytes` into a buffer.
abbrev pub PacksInto : Result Fcall → Bytes → Bytes → Type 0
PacksInto r buf bytes =
    (length bytes ≤ length buf → Packs r bytes)
    × (length buf < length bytes → r ≡ err buffer_too_small)

pub pack_into :
    (fc : Fcall) (size id : ℕ) (fill : Fcall → Fcall) {body : Cursor → Result Cursor} {bs : Bytes}
    → Puts body bs
    → length bs ≡ size
    → length bs + 7 < 2 ^ 32
    → PacksInto (pack fc size id fill body) fc.buf (frame id notag bs)
pack_into fc size id fill {body} {bs} puts e small = (
  λ room.
      pack_ok fc size id fill body bs puts e (omega (arith, length-frame id notag bs))
        (omega arith),
  λ short. pack_short fc size id fill body (omega (arith, length-frame id notag bs)),
)
