-- ===== src/Wire/Message/Data.antt =====
-- The two messages that carry file data, Twrite and Rread: their data is copied into the buffer
-- instead of written through `p`.
use chan.Prelude.{
  ℕ, ◌+◌, ◌-◌, ◌%◌, ◌≤◌, ◌<◌, ◌^◌, ◌≡◌, refl, ap, ◌∙◌, arith, ◌++◌, append-nil, append_assoc, ◌⌢◌,
  ltb-eq-false, length, length-append, length-drop, length-take, drop-take, take, drop,
}
use native.Mathlib.Nat.{mod-eq_of_lt}
use chan.Wire.Result.{ok}
use chan.Wire.Types
use chan.Wire.Types.{Bytes, Fcall, Qid, notag, IsU16}
use chan.Wire.Ints.{le32, le64, copy}
use chan.Wire.Ints.Laws.{◌⊕◌, pint32-Puts, pint64-Puts, copy_lem, length-le32, length-le64}
use chan.Wire.Pack.{commit}
use chan.Wire.PackT.{pack_twrite}
use chan.Wire.PackR.{pack_rread, init_rread, copy_data, slice}
use chan.Wire.Message.{frame}
use chan.Wire.Message.Frame.{
  PacksInto, pack_common_ok, pack_common_short, header, length-header, header-append, take_front,
  length-frame,
}

-- A packet of header `h`, fixed fields `pre` and data `bytes` copied over the rest of the buffer.
packet_of_copy :
    (id size : ℕ) (pre bytes rest : Bytes)
    → length pre + length bytes ≡ size
    → length bytes ≤ length rest
    → take (size + 7) ((header (size + 7) id ++ pre) ++ copy rest bytes)
      ≡ frame id notag (pre ++ bytes)
packet_of_copy id size pre bytes rest e room =
    rw (copy_lem rest bytes room, ← append_assoc (header (size + 7) id ++ pre) bytes _)
      (take_front (size + 7) _ _ len ∙ (append_assoc (header (size + 7) id) pre bytes ∙ framed))
  where
    len : length ((header (size + 7) id ++ pre) ++ bytes) ≡ size + 7
    len = omega (
      arith,
      length-append (header (size + 7) id ++ pre) bytes,
      length-append (header (size + 7) id) pre,
      length-header (size + 7) id,
    )

    len' : length (pre ++ bytes) ≡ size
    len' = rw length-append e

    framed : header (size + 7) id ++ (pre ++ bytes) ≡ frame id notag (pre ++ bytes)
    framed = rw (← len') (header-append id (pre ++ bytes))

abbrev twrite_fields : ℕ → ℕ → ℕ → Bytes
twrite_fields fid offset count = le32 fid ⌢ le64 offset ⌢ le32 count

length-twrite_fields : (fid offset count : ℕ) → length (twrite_fields fid offset count) ≡ 16
length-twrite_fields fid offset count = simp (length-append, length-le32, length-le64)

pub twrite_into :
    (fc : Fcall) (fid offset count : ℕ) (bytes : Bytes)
    → 16 + length bytes + 7 < 2 ^ 32
    → PacksInto
        (pack_twrite fc fid offset count bytes)
        fc.buf
        (frame Types.twrite notag (twrite_fields fid offset count ++ bytes))
unfolding pack_twrite
twrite_into fc fid offset count bytes small = (
  λ room.
      let pre = twrite_fields fid offset count in
      let size = 16 + length bytes in
      let enough : size + 7 ≤ length fc.buf = omega (arith, total, room) in
      let rest = drop (length pre) (drop 7 fc.buf) in
      (
        commit
            (record fc {
              size = size + 7;
              type = Types.twrite;
              tag = notag;
              fid = fid;
              offset = offset;
              count = count;
              dat = copy rest bytes;
            })
            (size + 7) (header (size + 7) Types.twrite ++ pre, copy rest bytes),
        rw (
          pack_common_ok fc size Types.twrite enough small,
          (pint32-Puts fid ⊕ pint64-Puts offset ⊕ pint32-Puts count).run
              (header (size + 7) Types.twrite, drop 7 fc.buf) (fields_fit enough),
        ),
        packet_of_copy Types.twrite size pre bytes rest
            (omega (arith, length-twrite_fields fid offset count)) (data_fits enough),
      ),
  λ short. rw (pack_common_short fc (16 + length bytes) Types.twrite (omega (arith, total))),
)
  where
    total :
        length (frame Types.twrite notag (twrite_fields fid offset count ++ bytes))
        ≡ 16 + length bytes + 7
    total = rw (length-frame, length-append, length-twrite_fields)

    fields_fit :
        16 + length bytes + 7 ≤ length fc.buf
        → length (twrite_fields fid offset count) ≤ length (drop 7 fc.buf)
    fields_fit h = rw (length-drop, length-twrite_fields) (omega arith)

    data_fits :
        16 + length bytes + 7 ≤ length fc.buf
        → length bytes ≤ length (drop (length (twrite_fields fid offset count)) (drop 7 fc.buf))
    data_fits h = rw (length-drop, length-drop, length-twrite_fields) (omega arith)

slice_lem :
    (p : Bytes) (count : ℕ)
    → 4 + count < 2 ^ 32
    → 4 + count ≤ length p
    → slice p 4 ((count + 4) % 2 ^ 32) ≡ ok (take count (drop 4 p))
slice_lem p count small room =
    rw
      (
        mod-eq_of_lt {n = count + 4} {m = 2 ^ 32} (omega arith),
        ltb-eq-false (count + 4) 4 (omega arith),
        ltb-eq-false (length p) (count + 4) (omega arith),
      )
      (ap (λ n. ok (take n (drop 4 p))) minus)
  where
    minus : count + 4 - 4 ≡ count
    minus = omega arith

-- The message of InitRread, with `rest` the buffer from `fc.Data` on.
abbrev rread_fcall : Fcall → ℕ → Fcall
rread_fcall fc count =
    commit
      (record fc {
        size = 4 + count + 7;
        type = Types.rread;
        tag = notag;
        count = count;
        dat = take count (drop 4 (drop 7 fc.buf));
      })
      (4 + count + 7) (header (4 + count + 7) Types.rread ++ le32 count, drop 4 (drop 7 fc.buf))

init_rread_ok :
    (fc : Fcall) (count : ℕ)
    → 4 + count + 7 < 2 ^ 32
    → 4 + count + 7 ≤ length fc.buf
    → init_rread fc count ≡ ok (rread_fcall fc count)
unfolding init_rread
init_rread_ok fc count small room = rw (
  mod-eq_of_lt {n = 4 + count} {m = 2 ^ 32} (omega arith),
  pack_common_ok fc (4 + count) Types.rread room small,
  slice_lem (drop 7 fc.buf) count (omega arith) fits,
  (pint32-Puts count).run (header (4 + count + 7) Types.rread, drop 7 fc.buf) fits4,
  length-le32,
)
  where
    fits : 4 + count ≤ length (drop 7 fc.buf)
    fits = rw length-drop (omega arith)

    fits4 : length (le32 count) ≤ length (drop 7 fc.buf)
    fits4 = rw length-le32 (omega (arith, fits))

copy_all :
    (n : ℕ) (rest bytes : Bytes)
    → length bytes ≡ n
    → n ≤ length rest
    → copy (take n rest) bytes ≡ bytes
copy_all n rest bytes e room =
    rw (copy_lem (take n rest) bytes (omega (arith, length-take n rest room)), e, drop-take)
      (append-nil bytes)

-- The packet after `copy(fc.Data, data)`.
rread_packet :
    (fc : Fcall) (bytes : Bytes)
    → 4 + length bytes + 7 ≤ length fc.buf
    → (copy_data (rread_fcall fc (length bytes)) bytes).pkt
      ≡ frame Types.rread notag (le32 (length bytes) ++ bytes)
unfolding copy_data
rread_packet fc bytes room =
    rw
      (
        copy_all (length bytes) rest bytes refl fits,
        take_front 11 start rest len,
        length-take (4 + length bytes + 7) (start ++ rest) whole,
        ← append_assoc start bytes (drop (11 + length bytes) (start ++ rest)),
      )
      (take_front (4 + length bytes + 7) (start ++ bytes) _ total
        ∙ (append_assoc (header (4 + length bytes + 7) Types.rread) (le32 (length bytes)) bytes
            ∙ framed))
  where
    start : Bytes
    start = header (4 + length bytes + 7) Types.rread ++ le32 (length bytes)

    rest : Bytes
    rest = drop 4 (drop 7 fc.buf)

    len : length start ≡ 11
    len = rw (length-append, length-header, length-le32)

    fits : length bytes ≤ length rest
    fits = rw (length-drop 4 (drop 7 fc.buf), length-drop 7 fc.buf) (omega arith)

    whole : 4 + length bytes + 7 ≤ length (start ++ rest)
    whole = omega (arith, length-append start rest, len, fits)

    total : length (start ++ bytes) ≡ 4 + length bytes + 7
    total = omega (arith, length-append start bytes, len)

    body : length (le32 (length bytes) ++ bytes) ≡ 4 + length bytes
    body = rw (length-append, length-le32)

    framed :
        header (4 + length bytes + 7) Types.rread ++ (le32 (length bytes) ++ bytes)
        ≡ frame Types.rread notag (le32 (length bytes) ++ bytes)
    framed = rw (← body) (header-append Types.rread (le32 (length bytes) ++ bytes))

pub rread_into :
    (fc : Fcall) (bytes : Bytes)
    → 4 + length bytes + 7 < 2 ^ 32
    → PacksInto
        (pack_rread fc bytes)
        fc.buf
        (frame Types.rread notag (le32 (length bytes) ++ bytes))
unfolding pack_rread
rread_into fc bytes small = (
  λ room.
      let enough : 4 + length bytes + 7 ≤ length fc.buf = omega (arith, total, room) in
      (
        copy_data (rread_fcall fc (length bytes)) bytes,
        rw (
          mod-eq_of_lt {n = length bytes} {m = 2 ^ 32} (omega arith),
          init_rread_ok fc (length bytes) small enough,
        ),
        rread_packet fc bytes enough,
      ),
  λ short.
      unfold init_rread in
      rw (
        mod-eq_of_lt {n = length bytes} {m = 2 ^ 32} (omega arith),
        mod-eq_of_lt {n = 4 + length bytes} {m = 2 ^ 32} (omega arith),
        pack_common_short fc (4 + length bytes) Types.rread (omega (arith, total)),
      ),
)
  where
    total : length (frame Types.rread notag (le32 (length bytes) ++ bytes)) ≡ 4 + length bytes + 7
    total = rw (length-frame, length-append, length-le32)
