-- ===== src/Wire/Message/Unpack.antt =====
-- Unpack reads back what the encoding of a message says.
use chan.Prelude.{
  ℕ, ◌+◌, ◌-◌, ◌≤◌, ◌<◌, ◌^◌, ◌≡◌, ◌≢◌, ◌⊎◌, refl, arith, Bool, true, false, some, List, [], ◌∷◌,
  ◌++◌, append-nil, append_assoc, ◌⌢◌, ltb, leb, ◌==◌, ltb-eq-true, ltb-eq-false, if◌then◌else◌,
  length, length-append, drop-length, All, ◌||◌,
}
use chan.Wire.Result.{ok}
use chan.Wire.Types
use chan.Wire.Types.{
  Bytes, Fcall, Qid, Dir, IsU8, IsU16, IsU32, IsU64, zero_fcall, nofid, nouid, notag,
}
use chan.Wire.Ints.{gint8, gint16, gint32, gstr, le8, le16, le32, le64}
use chan.Wire.Ints.Laws.{
  str, le8_read, le16_read, le32_read, le64_read, str_read, length-le8, length-le16, length-le32,
  length-le64, length-str,
}
use chan.Wire.Stat.{gqid, gstat}
use chan.Wire.Stat.Laws.{
  qid_bytes, dir_bytes, wire_dir, IsQid, IsDir, qid_read, dir_read, length-qid_bytes,
  length-dir_bytes,
}
use chan.Wire.Unpack.{
  min_fcsize, min_fcusize, at, unpack_version, gunamenum, unpack_tauth, unpack_qid, unpack_tflush,
  unpack_tattach, unpack_rerror, gstrs, unpack_twalk, gqids, unpack_rwalk, unpack_topen,
  unpack_ropen, unpack_tcreate, unpack_tread, unpack_rread, unpack_twrite, unpack_rwrite,
  unpack_fid, unpack_rstat, unpack_twstat, unpack_body, header_fcall, unpack_header, unpack,
}
use chan.Wire.Message.{
  Message, tversion, rversion, tauth, rauth, tattach, rattach, rerror, tflush, rflush, twalk, rwalk,
  topen, ropen, tcreate, rcreate, tread, rread, twrite, rwrite, tclunk, rclunk, tremove, rremove,
  tstat, rstat, twstat, rwstat, strs, qids, frame, encode, body_bytes, type_of, HasFields,
  IsMessage, with_fields, decoded, pack_message,
}
use chan.Wire.Message.Frame.{length-frame, take_front}
use chan.Wire.Message.Pack.{packed_packet}

ruleset lengths = (
  length-append, length-le8, length-le16, length-le32, length-le64, length-str, length-qid_bytes,
  length-dir_bytes,
)

gstrs_read :
    (ws : List Bytes) (rest : Bytes)
    → All (λ w. IsU16 (length w)) ws
    → gstrs (length ws) (strs ws ++ rest) ≡ ok (ws, rest)
unfolding gstrs strs
gstrs_read [] rest h = refl
gstrs_read (w ∷ ws) rest (hw, hws) =
    rw (append_assoc, str_read w (strs ws ++ rest) hw, gstrs_read ws rest hws)

gqids_read :
    (qs : List Qid) (rest : Bytes)
    → All IsQid qs
    → gqids (length qs) (qids qs ++ rest) ≡ ok (qs, rest)
unfolding gqids qids
gqids_read [] rest h = refl
gqids_read (q ∷ qs) rest (hq, hqs) =
    rw (append_assoc, qid_read q (qids qs ++ rest) hq, gqids_read qs rest hqs)

gunamenum_read : (v : ℕ) (rest : Bytes) → IsU32 v → gunamenum (le32 v ++ rest) ≡ ok (v, rest)
unfolding gunamenum
gunamenum_read v rest h = rw (ltb-eq-true 0 (length (le32 v ++ rest)) pos, le32_read v rest h)
  where
    pos : 0 < length (le32 v ++ rest)
    pos = omega (arith, length-append (le32 v) rest, length-le32 v)

-- The end of a body.
le32_end : (v : ℕ) → IsU32 v → gint32 (le32 v) ≡ ok (v, [])
le32_end v h = rw append-nil at (le32_read v [] h)

le16_end : (v : ℕ) → IsU16 v → gint16 (le16 v) ≡ ok (v, [])
le16_end v h = rw append-nil at (le16_read v [] h)

le8_end : (v : ℕ) → gint8 (le8 v) ≡ ok (v, [])
le8_end v = rw append-nil at (le8_read v [])

str_end : (s : Bytes) → IsU16 (length s) → gstr (some (str s)) ≡ ok (s, some [])
str_end s h = rw append-nil at (str_read s [] h)

gunamenum_end : (v : ℕ) → IsU32 v → gunamenum (le32 v) ≡ ok (v, [])
gunamenum_end v h = rw append-nil at (gunamenum_read v [] h)

qid_end : (q : Qid) → IsQid q → gqid (qid_bytes q) ≡ ok (q, [])
qid_end q h = rw append-nil at (qid_read q [] h)

gstrs_end :
    (ws : List Bytes) → All (λ w. IsU16 (length w)) ws → gstrs (length ws) (strs ws) ≡ ok (ws, [])
gstrs_end ws h = rw append-nil at (gstrs_read ws [] h)

gqids_end : (qs : List Qid) → All IsQid qs → gqids (length qs) (qids qs) ≡ ok (qs, [])
gqids_end qs h = rw append-nil at (gqids_read qs [] h)

dir_end :
    (d d0 : Dir) (dotu : Bool)
    → IsDir d dotu
    → gstat (dir_bytes d dotu) d0 dotu ≡ ok (wire_dir d dotu d0, some [])
dir_end d d0 dotu h = rw append-nil at (dir_read d d0 dotu [] h)

ltb_irrefl : (n : ℕ) → ltb n n ≡ false
ltb_irrefl n = ground arith

==-refl : (n : ℕ) → (n == n) ≡ true
==-refl n = ground arith

-- The length of the data of a message fits the field `count`.
IsU32-of_size : (xs bytes : Bytes) → length (xs ++ bytes) + 7 < 2 ^ 32 → IsU32 (length bytes)
IsU32-of_size xs bytes h = omega (arith, length-append xs bytes)

-- The switch, on the body of each message.
body_read :
    (m : Message) (dotu : Bool) (fc : Fcall)
    → IsMessage m dotu
    → unpack_body (type_of m) dotu fc (body_bytes m dotu) ≡ ok (with_fields m dotu fc, some [])
unfolding unpack_body type_of body_bytes with_fields HasFields unpack_version unpack_tauth
    unpack_tattach unpack_rerror unpack_qid unpack_tflush unpack_twalk unpack_rwalk unpack_topen
    unpack_ropen unpack_tcreate unpack_tread unpack_rread unpack_twrite unpack_rwrite unpack_fid
    unpack_rstat unpack_twstat
body_read (tversion msize version) dotu fc h = simp (le32_read, str_end, h.fields.0, h.fields.1)
body_read (rversion msize version) dotu fc h = simp (le32_read, str_end, h.fields.0, h.fields.1)
body_read (tauth afid uname aname unamenum) true fc h =
    simp (le32_read, str_read, gunamenum_end, h.fields.0, h.fields.1, h.fields.2, h.fields.3)
body_read (tauth afid uname aname unamenum) false fc h =
    simp (append-nil, le32_read, str_read, str_end, h.fields.0, h.fields.1, h.fields.2)
body_read (rauth qid) dotu fc h = simp (qid_end, h.fields)
body_read (tattach fid afid uname aname unamenum) true fc h =
    simp (
      le32_read, str_read, gunamenum_end, h.fields.0, h.fields.1, h.fields.2, h.fields.3,
      h.fields.4,
    )
body_read (tattach fid afid uname aname unamenum) false fc h =
    simp (append-nil, le32_read, str_read, str_end, h.fields.0, h.fields.1, h.fields.2, h.fields.3)
body_read (rattach qid) dotu fc h = simp (qid_end, h.fields)
body_read (rerror ename ecode) true fc h = simp (str_read, le32_end, h.fields.0, h.fields.1)
body_read (rerror ename ecode) false fc h = simp (append-nil, str_end, h.fields.0)
body_read (tflush oldtag) dotu fc h = simp (le16_end, h.fields)
body_read rflush dotu fc h = refl
body_read (twalk fid newfid wname) dotu fc h =
    simp (le32_read, le16_read, gstrs_end, h.fields.0, h.fields.1, h.fields.2, h.fields.3)
body_read (rwalk wqid) dotu fc h = simp (le16_read, gqids_end, h.fields.0, h.fields.1)
body_read (topen fid mode) dotu fc h = simp (le32_read, le8_end, h.fields.0)
body_read (ropen qid iounit) dotu fc h = simp (qid_read, le32_end, h.fields.0, h.fields.1)
body_read (tcreate fid name perm mode ext) true fc h =
    simp (le32_read, str_read, le8_read, str_end, h.fields.0, h.fields.1, h.fields.2, h.fields.4)
body_read (tcreate fid name perm mode ext) false fc h =
    simp (append-nil, le32_read, str_read, le8_end, h.fields.0, h.fields.1, h.fields.2)
body_read (rcreate qid iounit) dotu fc h = simp (qid_read, le32_end, h.fields.0, h.fields.1)
body_read (tread fid offset count) dotu fc h =
    simp (le32_read, le64_read, le32_end, h.fields.0, h.fields.1, h.fields.2)
body_read (rread bytes) dotu fc h =
    simp (le32_read, IsU32-of_size (le32 (length bytes)) bytes h.size, ltb_irrefl, drop-length)
body_read (twrite fid offset bytes) dotu fc h =
    let fits =
      IsU32-of_size (le32 fid ⌢ le64 offset ⌢ le32 (length bytes)) bytes
        (simp append_assoc h.size) in
    simp (le32_read, le64_read, h.fields.0, h.fields.1, fits, ==-refl, drop-length)
body_read (rwrite count) dotu fc h = simp (le32_end, h.fields)
body_read (tclunk fid) dotu fc h = simp (le32_end, h.fields)
body_read rclunk dotu fc h = refl
body_read (tremove fid) dotu fc h = simp (le32_end, h.fields)
body_read rremove dotu fc h = refl
body_read (tstat fid) dotu fc h = simp (le32_end, h.fields)
body_read (rstat d) dotu fc h = simp (le16_read, dir_end, h.fields.fits, h.fields)
body_read (twstat fid d) dotu fc h =
    simp (le32_read, le16_read, dir_end, h.fields.0, h.fields.1.fits, h.fields.1)
body_read rwstat dotu fc h = refl

type_in_range :
    (m : Message) → (ltb (type_of m) Types.tversion || leb Types.tlast (type_of m)) ≡ false
unfolding type_of
type_in_range (tversion _ _) = refl
type_in_range _ = refl

type_of-IsU8 : (m : Message) → IsU8 (type_of m)
unfolding type_of
type_of-IsU8 (tversion _ _) = omega arith
type_of-IsU8 _ = omega arith

-- No message but Rwstat falls short of the table that Unpack looks its size up in.
min_size_ok :
    (m : Message) (dotu : Bool)
    → (m ≢ rwstat) ⊎ (dotu ≡ true)
    → at (if dotu then min_fcsize else min_fcusize) (type_of m - Types.tversion)
      ≤ length (body_bytes m dotu) + 7
unfolding type_of body_bytes
min_size_ok rwstat true e = omega arith
min_size_ok rwstat false e = ground arith
min_size_ok rflush true e = omega arith
min_size_ok rflush false e = omega arith
min_size_ok rclunk true e = omega arith
min_size_ok rclunk false e = omega arith
min_size_ok rremove true e = omega arith
min_size_ok rremove false e = omega arith
min_size_ok _ true e = simp lengths (omega arith)
min_size_ok _ false e = simp lengths (omega arith)

pub frame_size_read :
    (type tag : ℕ) (body rest : Bytes)
    → length body + 7 < 2 ^ 32
    → gint32 (frame type tag body ++ rest)
      ≡ ok (length body + 7, le8 type ++ (le16 tag ++ (body ++ rest)))
unfolding frame
frame_size_read type tag body rest small = simp (append_assoc, le32_read, small)

-- The header of a frame is read, and the slice behind it is cut to the message.
pub header_read :
    (type tag : ℕ) (body rest : Bytes) (dotu : Bool)
    → IsU8 type
    → IsU16 tag
    → length body + 7 < 2 ^ 32
    → (ltb type Types.tversion || leb Types.tlast type) ≡ false
    → at (if dotu then min_fcsize else min_fcusize) (type - Types.tversion) ≤ length body + 7
    → unpack_header (frame type tag body ++ rest) dotu
      ≡ ok (header_fcall (length body + 7) type tag (frame type tag body), body)
unfolding unpack_header
header_read type tag body rest dotu t8 t16 small range table = rw (
  ltb-eq-false (length (frame type tag body ++ rest)) 7 (omega (arith, total)),
  size_read,
  le8_read,
  le16_read tag (body ++ rest) t16,
  ltb-eq-false (length (frame type tag body ++ rest)) (length body + 7) (omega (arith, total)),
  ltb-eq-false (length body + 7) 7 (omega arith),
  range,
  ltb-eq-false (length body + 7) _ table,
  take_front (length body + 7) (frame type tag body) rest (length-frame type tag body),
  take_front (length body + 7 - 7) body rest (omega arith),
)
  where
    total : length (frame type tag body ++ rest) ≡ length body + 7 + length rest
    total = rw (length-append, length-frame)

    size_read :
        gint32 (frame type tag body ++ rest)
        ≡ ok (length body + 7, le8 type ++ (le16 tag ++ (body ++ rest)))
    size_read = frame_size_read type tag body rest small

-- Unpack of the bytes of a message, whatever follows them, with fields that fit, gives the message's
-- struct and the number of its bytes, in 9P2000.u for every message and in 9P2000 for every message
-- but Rwstat.
pub unpack-encode :
    (m : Message) (dotu : Bool) (tag : ℕ) (rest : Bytes)
    → IsMessage m dotu
    → IsU16 tag
    → (m ≢ rwstat) ⊎ (dotu ≡ true)
    → unpack (encode m dotu tag ++ rest) dotu ≡ ok (decoded m dotu tag, length (encode m dotu tag))
unfolding unpack encode decoded
unpack-encode m dotu tag rest h t e = rw (
  header_read (type_of m) tag (body_bytes m dotu) rest dotu (type_of-IsU8 m) t h.size
      (type_in_range m) (min_size_ok m dotu e),
  body_read m dotu _ h,
  length-frame,
)

-- What a Pack function wrote of a message whose fields fit their widths, Unpack reads back, and takes as
-- many bytes as the packet has, whatever follows it; in 9P2000.u this holds for every such message, and in
-- 9P2000 for every one but Rwstat.
pub unpack-pack_message :
    (m : Message) (dotu : Bool) (fc fc' : Fcall) (rest : Bytes)
    → IsMessage m dotu
    → (m ≢ rwstat) ⊎ (dotu ≡ true)
    → pack_message m dotu fc ≡ ok fc'
    → unpack (fc'.pkt ++ rest) dotu ≡ ok (decoded m dotu notag, length fc'.pkt)
unpack-pack_message m dotu fc fc' rest h e packed =
    rw packet (unpack-encode m dotu notag rest h (omega arith) e)
  where
    packet : fc'.pkt ≡ encode m dotu notag
    packet = packed_packet m dotu fc fc' h packed
