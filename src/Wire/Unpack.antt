-- ===== src/Wire/Unpack.antt =====
-- unpack.go: a message from its bytes. One function for each case of the switch; the tables of
-- minimum sizes are those of p9.go.
pub mod Size
use chan.Prelude.{
  ℕ, zero, suc, ◌-◌, Bool, Option, none, some, List, [], ◌∷◌, ◌||◌, ltb, leb, ◌==◌, if◌then◌else◌,
  length, take, drop,
}
use chan.Wire.Result.{
  Result, ok, err, buffer_too_short, buffer_too_short_expected, invalid_id, invalid_message_id,
  invalid_size, ◌>>=◌,
}
use chan.Wire.Types
use chan.Wire.Types.{Bytes, Fcall, Qid, zero_fcall, nofid, nouid}
use chan.Wire.Ints.{gint8, gint16, gint32, gint64, gstr, Slice, copy}
use chan.Wire.Stat.{gqid, gstat}
use chan.Wire.Pack.{zeros}

abbrev pub min_fcsize : List ℕ
min_fcsize =
    6 ∷ 6 ∷ 8 ∷ 13 ∷ 12 ∷ 13 ∷ 0 ∷ 2 ∷ 2 ∷ 0 ∷ 10 ∷ 2 ∷ 5 ∷ 17 ∷ 11 ∷ 17 ∷ 16 ∷ 4 ∷ 16 ∷ 4 ∷ 4 ∷ 0
    ∷ 4 ∷ 0 ∷ 4 ∷ 4 ∷ 8 ∷ 0 ∷ 20 ∷ 4 ∷ 20 ∷ 4 ∷ 16 ∷ 0 ∷ []

-- This table has no entry for Rwstat.
abbrev pub min_fcusize : List ℕ
min_fcusize =
    6 ∷ 6 ∷ 12 ∷ 13 ∷ 16 ∷ 13 ∷ 0 ∷ 6 ∷ 2 ∷ 0 ∷ 10 ∷ 2 ∷ 5 ∷ 17 ∷ 13 ∷ 17 ∷ 16 ∷ 4 ∷ 16 ∷ 4 ∷ 4 ∷ 0
    ∷ 4 ∷ 0 ∷ 4 ∷ 4 ∷ 8 ∷ 20 ∷ 4 ∷ 20 ∷ 4 ∷ 16 ∷ 0 ∷ []

abbrev pub at : List ℕ → ℕ → ℕ
at [] i = 0
at (x ∷ xs) zero = x
at (x ∷ xs) (suc i) = at xs i

-- A message, as far as it is read, and the slice behind what was read.
abbrev pub Part : Type 0
Part = Fcall × Slice

-- `if p == nil { goto szerror }`
abbrev pub checked {ℓ} : {A : Type ℓ} → Slice → (Bytes → Result A) → Result A
checked none k = err invalid_size
checked (some p) k = k p

unfoldable pub unpack_version : Fcall → Bytes → Result Part
unpack_version fc p = do
  (msize, p1) ← gint32 p
  (version, r) ← gstr (some p1)
  checked r λ p2. ok (record fc { msize = msize; version = version }, some p2)

-- n_uname[4] of the 9P2000.u extension, which may be missing.
unfoldable pub gunamenum : Bytes → Result (ℕ × Bytes)
gunamenum p = if ltb 0 (length p) then gint32 p else ok (nouid, p)

unfoldable pub unpack_tauth : Bool → Fcall → Bytes → Result Part
unpack_tauth dotu fc p = do
  (afid, p1) ← gint32 p
  (uname, r) ← gstr (some p1)
  checked r λ p2. do
    (aname, r1) ← gstr (some p2)
    checked r1 λ p3. do
      let fc1 = record fc { afid = afid; uname = uname; aname = aname }
      (unamenum, p4) ← if dotu then gunamenum p3 else ok (nouid, p3)
      ok (record fc1 { unamenum = unamenum }, some p4)

unfoldable pub unpack_qid : Fcall → Bytes → Result Part
unpack_qid fc p = do (qid, p1) ← gqid p; ok (record fc { qid = qid }, some p1)

unfoldable pub unpack_tflush : Fcall → Bytes → Result Part
unpack_tflush fc p = do (oldtag, p1) ← gint16 p; ok (record fc { oldtag = oldtag }, some p1)

-- Without dotu `Unamenum` is left at 0.
unfoldable pub unpack_tattach : Bool → Fcall → Bytes → Result Part
unpack_tattach dotu fc p = do
  (fid, p1) ← gint32 p
  (afid, p2) ← gint32 p1
  (uname, r) ← gstr (some p2)
  checked r λ p3. do
    (aname, r1) ← gstr (some p3)
    checked r1 λ p4. do
      let fc1 = record fc { fid = fid; afid = afid; uname = uname; aname = aname }
      (unamenum, p5) ← if dotu then gunamenum p4 else ok (fc1.unamenum, p4)
      ok (record fc1 { unamenum = unamenum }, some p5)

unfoldable pub unpack_rerror : Bool → Fcall → Bytes → Result Part
unpack_rerror dotu fc p = do
  (error, r) ← gstr (some p)
  checked r λ p1. do
    (errornum, p2) ← if dotu then gint32 p1 else ok (0, p1)
    ok (record fc { error = error; errornum = errornum }, some p2)

-- The loop of Twalk, over the names left to read.
unfoldable pub gstrs : ℕ → Bytes → Result (List Bytes × Bytes)
gstrs zero p = ok ([], p)
gstrs (suc m) p = do
  (name, r) ← gstr (some p)
  checked r λ p1. do (names, p2) ← gstrs m p1; ok (name ∷ names, p2)

unfoldable pub unpack_twalk : Fcall → Bytes → Result Part
unpack_twalk fc p = do
  (fid, p1) ← gint32 p
  (newfid, p2) ← gint32 p1
  (m, p3) ← gint16 p2
  (wname, p4) ← gstrs m p3
  ok (record fc { fid = fid; newfid = newfid; wname = wname }, some p4)

-- The loop of Rwalk.
unfoldable pub gqids : ℕ → Bytes → Result (List Qid × Bytes)
gqids zero p = ok ([], p)
gqids (suc m) p = do (qid, p1) ← gqid p; (qids, p2) ← gqids m p1; ok (qid ∷ qids, p2)

unfoldable pub unpack_rwalk : Fcall → Bytes → Result Part
unpack_rwalk fc p = do
  (m, p1) ← gint16 p
  (wqid, p2) ← gqids m p1
  ok (record fc { wqid = wqid }, some p2)

unfoldable pub unpack_topen : Fcall → Bytes → Result Part
unpack_topen fc p = do
  (fid, p1) ← gint32 p
  (mode, p2) ← gint8 p1
  ok (record fc { fid = fid; mode = mode }, some p2)

unfoldable pub unpack_ropen : Fcall → Bytes → Result Part
unpack_ropen fc p = do
  (qid, p1) ← gqid p
  (iounit, p2) ← gint32 p1
  ok (record fc { qid = qid; iounit = iounit }, some p2)

unfoldable pub unpack_tcreate : Bool → Fcall → Bytes → Result Part
unpack_tcreate dotu fc p = do
  (fid, p1) ← gint32 p
  (name, r) ← gstr (some p1)
  checked r λ p2. do
    (perm, p3) ← gint32 p2
    (mode, p4) ← gint8 p3
    let fc1 = record fc { fid = fid; name = name; perm = perm; mode = mode }
    (ext, r1) ← if dotu then gstr (some p4) else ok (fc1.ext, some p4)
    checked r1 λ p5. ok (record fc1 { ext = ext }, some p5)

unfoldable pub unpack_tread : Fcall → Bytes → Result Part
unpack_tread fc p = do
  (fid, p1) ← gint32 p
  (offset, p2) ← gint64 p1
  (count, p3) ← gint32 p2
  ok (record fc { fid = fid; offset = offset; count = count }, some p3)

unfoldable pub unpack_rread : Fcall → Bytes → Result Part
unpack_rread fc p = do
  (count, p1) ← gint32 p
  if ltb (length p1) count
      then err invalid_size
      else ok (record fc { count = count; dat = p1 }, some (drop count p1))

-- A count that is not the number of bytes left gives a fresh slice of `count` bytes.
unfoldable pub unpack_twrite : Fcall → Bytes → Result Part
unpack_twrite fc p = do
  (fid, p1) ← gint32 p
  (offset, p2) ← gint64 p1
  (count, p3) ← gint32 p2
  let fc1 = record fc { fid = fid; offset = offset; count = count }
  if length p3 == count
      then ok (record fc1 { dat = p3 }, some (drop count p3))
      else ok (record fc1 { dat = copy (zeros count) p3 }, some [])

unfoldable pub unpack_rwrite : Fcall → Bytes → Result Part
unpack_rwrite fc p = do (count, p1) ← gint32 p; ok (record fc { count = count }, some p1)

unfoldable pub unpack_fid : Fcall → Bytes → Result Part
unpack_fid fc p = do (fid, p1) ← gint32 p; ok (record fc { fid = fid }, some p1)

unfoldable pub unpack_rstat : Bool → Fcall → Bytes → Result Part
unpack_rstat dotu fc p = do
  (m, p1) ← gint16 p
  (dir, r) ← gstat p1 fc.dir dotu
  checked r λ p2. ok (record fc { dir = dir }, some p2)

-- A nil slice from gstat is not checked here.
unfoldable pub unpack_twstat : Bool → Fcall → Bytes → Result Part
unpack_twstat dotu fc p = do
  (fid, p1) ← gint32 p
  (m, p2) ← gint16 p1
  (dir, r) ← gstat p2 fc.dir dotu
  ok (record fc { fid = fid; dir = dir }, r)

-- `switch fc.Type`
unfoldable pub unpack_body : ℕ → Bool → Fcall → Bytes → Result Part
unpack_body type dotu fc p =
    if type == Types.tversion || type == Types.rversion
    then unpack_version fc p
    else if type == Types.tauth
    then unpack_tauth dotu fc p
    else if type == Types.rauth || type == Types.rattach
    then unpack_qid fc p
    else if type == Types.tflush
    then unpack_tflush fc p
    else if type == Types.tattach
    then unpack_tattach dotu fc p
    else if type == Types.rerror
    then unpack_rerror dotu fc p
    else if type == Types.twalk
    then unpack_twalk fc p
    else if type == Types.rwalk
    then unpack_rwalk fc p
    else if type == Types.topen
    then unpack_topen fc p
    else if type == Types.ropen || type == Types.rcreate
    then unpack_ropen fc p
    else if type == Types.tcreate
    then unpack_tcreate dotu fc p
    else if type == Types.tread
    then unpack_tread fc p
    else if type == Types.rread
    then unpack_rread fc p
    else if type == Types.twrite
    then unpack_twrite fc p
    else if type == Types.rwrite
    then unpack_rwrite fc p
    else if type == Types.tclunk || type == Types.tremove || type == Types.tstat
    then unpack_fid fc p
    else if type == Types.rstat
    then unpack_rstat dotu fc p
    else if type == Types.twstat
    then unpack_twstat dotu fc p
    else if type == Types.rflush
        || type == Types.rclunk
        || type == Types.rremove
        || type == Types.rwstat
    then ok (fc, some p)
    else err invalid_message_id

-- `if len(p) > 0 { goto szerror }`; a nil slice has length 0.
abbrev pub used_up : ℕ → Part → Result (Fcall × ℕ)
used_up fcsz (fc, none) = ok (fc, fcsz)
used_up fcsz (fc, some []) = ok (fc, fcsz)
used_up fcsz (fc, some (b ∷ p)) = err invalid_size

-- `new(Fcall)` with the three fids at NOFID, and the fields of the header.
abbrev pub header_fcall : ℕ → ℕ → ℕ → Bytes → Fcall
header_fcall size type tag pkt = record zero_fcall {
  fid = nofid;
  afid = nofid;
  newfid = nofid;
  size = size;
  type = type;
  tag = tag;
  pkt = pkt;
}

-- What is read before the switch: the header and the checks of the size and the type.
unfoldable pub unpack_header : Bytes → Bool → Result (Fcall × Bytes)
unpack_header buf dotu = if ltb (length buf) 7 then err buffer_too_short else do
  (size, p1) ← gint32 buf
  (type, p2) ← gint8 p1
  (tag, p3) ← gint16 p2
  if ltb (length buf) size || ltb size 7
      then err (buffer_too_short_expected (length buf) size)
      else if ltb type Types.tversion || leb Types.tlast type
      then err invalid_id
      else if ltb size (at (if dotu then min_fcsize else min_fcusize) (type - Types.tversion))
      then err invalid_size
      else ok (header_fcall size type tag (take size buf), take (size - 7) p3)

-- The message and the number of bytes of `buf` that it takes.
unfoldable pub unpack : Bytes → Bool → Result (Fcall × ℕ)
unpack buf dotu = do
  (fc, p) ← unpack_header buf dotu
  part ← unpack_body fc.type dotu fc p
  used_up fc.size part
