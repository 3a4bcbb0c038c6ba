-- ===== src/Wire/Pack.antt =====
-- The frame of a message: packCommon, SetTag, NewFcall, and what every Pack function does around
-- its own fields.
-- `fc.Pkt` is a view of the first bytes of `fc.Buf`, and the writes go through slices of `fc.Buf`:
-- `commit` puts the written buffer and that view back when the last write is done.
use chan.Prelude.{
  ℕ, ◌+◌, ◌%◌, ◌^◌, [], ◌∷◌, ◌++◌, ltb, if◌then◌else◌, length, take, drop, zero, suc,
}
use chan.Wire.Result.{Result, ok, err, buffer_too_small, ◌>>=◌}
use chan.Wire.Types.{Bytes, Fcall, zero_fcall, notag}
use chan.Wire.Ints.{Cursor, pint8, pint16, pint32, ◌⟫◌, skip}

abbrev pub zeros : ℕ → Bytes
zeros zero = []
zeros (suc n) = 0 ∷ zeros n

unfoldable pub new_fcall : ℕ → Fcall
new_fcall sz = record zero_fcall { buf = zeros sz }

-- `fc.Pkt = fc.Buf[0:size]`, with what was written through `p`.
abbrev pub commit : Fcall → ℕ → Cursor → Fcall
commit fc size (before, rest) = record fc { pkt = take size (before ++ rest); buf = before ++ rest }

-- Returns the message and the slice behind its header. `size` counts the bytes behind the header.
unfoldable pub pack_common : Fcall → ℕ → ℕ → Result (Fcall × Cursor)
pack_common fc size id =
    let total = size + 7 in
    if ltb (length fc.buf) total then err buffer_too_small else do
      p ← (pint32 (total % 2 ^ 32) ⟫ pint8 id ⟫ pint16 notag) ([], fc.buf)
      ok (record fc { size = total % 2 ^ 32; type = id; tag = notag }, p)

-- A Pack function: packCommon, the fields that it sets, and the writes of its body.
unfoldable pub pack : Fcall → ℕ → ℕ → (Fcall → Fcall) → (Cursor → Result Cursor) → Result Fcall
pack fc size id fill body = do
  (fc1, p) ← pack_common fc size id
  p1 ← body p
  ok (commit (fill fc1) (size + 7) p1)

-- Writes the tag into `fc.Pkt[5:]`, which is a part of `fc.Buf` too.
unfoldable pub set_tag : Fcall → ℕ → Result Fcall
set_tag fc tag = do
  p ← skip 5 ([], fc.pkt)
  (before, rest) ← pint16 tag p
  let pkt = before ++ rest
  ok (record fc { tag = tag; pkt = pkt; buf = pkt ++ drop (length fc.pkt) fc.buf })
