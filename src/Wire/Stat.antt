-- ===== src/Wire/Stat.antt =====
-- Qids and stat entries of p9.go: gqid, gstat, pqid, pstat, statsz, PackDir and UnpackDir.
pub mod Laws
pub mod RoundTrip
use chan.Prelude.{
  ℕ, ◌+◌, ◌-◌, ◌%◌, ◌^◌, ◌≡◌, Bool, none, some, [], ◌∷◌, ◌++◌, ltb, if◌then◌else◌, length,
}
use chan.Wire.Result.{Result, ok, err, short_buffer, ◌>>=◌}
use chan.Wire.Types.{Bytes, Qid, Dir, zero_dir, nouid}
use chan.Wire.Ints.{
  gint8, gint16, gint32, gint64, gstr, Slice, Cursor, pint8, pint16, pint32, pint64, pstr, ◌⟫◌,
  when,
}

unfoldable pub gqid : Bytes → Result (Qid × Bytes)
gqid buf = do
  (type, buf1) ← gint8 buf
  (version, buf2) ← gint32 buf1
  (path, buf3) ← gint64 buf2
  ok (record { type = type; version = version; path = path }, buf3)

-- `if buf == nil { return nil }`: the fields that are already read stay in `d`.
abbrev pub unless_nil : Dir → Slice → (Bytes → Result (Dir × Slice)) → Result (Dir × Slice)
unless_nil d none k = ok (d, none)
unless_nil d (some buf) k = k buf

-- The part of gstat that the 9P2000.u extension adds.
unfoldable pub gstat_dotu : Bytes → Dir → Result (Dir × Slice)
gstat_dotu buf d = do
  (ext, rest) ← gstr (some buf)
  let d1 = record d { ext = ext }
  unless_nil d1 rest λ buf1. do
    (uidnum, buf2) ← gint32 buf1
    (gidnum, buf3) ← gint32 buf2
    (muidnum, buf4) ← gint32 buf3
    ok (record d1 { uidnum = uidnum; gidnum = gidnum; muidnum = muidnum }, some buf4)

-- The four names of a stat entry.
unfoldable pub gstat_names :
    Bytes → Dir → (Bytes → Dir → Result (Dir × Slice)) → Result (Dir × Slice)
gstat_names buf d k = do
  (name, rest) ← gstr (some buf)
  let d1 = record d { name = name }
  unless_nil d1 rest λ buf1. do
    (uid, rest1) ← gstr (some buf1)
    let d2 = record d1 { uid = uid }
    unless_nil d2 rest1 λ buf2. do
      (gid, rest2) ← gstr (some buf2)
      let d3 = record d2 { gid = gid }
      unless_nil d3 rest2 λ buf3. do
        (muid, rest3) ← gstr (some buf3)
        let d4 = record d3 { muid = muid }
        unless_nil d4 rest3 λ buf4. k buf4 d4

-- Returns the entry, as far as it was read, and the slice behind it or nil.
unfoldable pub gstat : Bytes → Dir → Bool → Result (Dir × Slice)
gstat buf d dotu = do
  (size, buf1) ← gint16 buf
  (type, buf2) ← gint16 buf1
  (dev, buf3) ← gint32 buf2
  (qid, buf4) ← gqid buf3
  (mode, buf5) ← gint32 buf4
  (atime, buf6) ← gint32 buf5
  (mtime, buf7) ← gint32 buf6
  (len, buf8) ← gint64 buf7
  let d1 = record d {
    size = size;
    type = type;
    dev = dev;
    qid = qid;
    mode = mode;
    atime = atime;
    mtime = mtime;
    length = len;
  }
  gstat_names buf8 d1 λ buf9 d2.
      if dotu
      then gstat_dotu buf9 d2
      else ok (record d2 { uidnum = nouid; gidnum = nouid; muidnum = nouid }, some buf9)

unfoldable pub pqid : Qid → Cursor → Result Cursor
pqid val = pint8 val.type ⟫ pint32 val.version ⟫ pint64 val.path

unfoldable pub statsz : Dir → Bool → ℕ
statsz d dotu =
    let sz = 49 + length d.name + length d.uid + length d.gid + length d.muid in
    if dotu then sz + (14 + length d.ext) else sz

unfoldable pub pstat : Dir → Bool → Cursor → Result Cursor
pstat d dotu =
    pint16 ((statsz d dotu - 2) % 2 ^ 16)
    ⟫ pint16 d.type
    ⟫ pint32 d.dev
    ⟫ pqid d.qid
    ⟫ pint32 d.mode
    ⟫ pint32 d.atime
    ⟫ pint32 d.mtime
    ⟫ pint64 d.length
    ⟫ pstr d.name
    ⟫ pstr d.uid
    ⟫ pstr d.gid
    ⟫ pstr d.muid
    ⟫ when dotu (pstr d.ext ⟫ pint32 d.uidnum ⟫ pint32 d.gidnum ⟫ pint32 d.muidnum)

-- The number of bytes written, and the buffer.
unfoldable pub pack_dir : Dir → Bytes → Bool → Result (ℕ × Bytes)
pack_dir d buf dotu =
    let sz = statsz d dotu in
    if ltb (length buf) sz
    then ok (0, buf)
    else do (before, rest) ← pstat d dotu ([], buf); ok (sz, before ++ rest)

-- `if buf == nil { goto szerror }`
abbrev pub non_nil : Dir × Slice → Result Dir
non_nil (d, none) = err short_buffer
non_nil (d, some buf) = ok d

unfoldable pub unpack_dir : Bytes → Bool → Result Dir
unpack_dir buf dotu =
    let sz = if dotu then 63 else 49 in
    if ltb (length buf) sz then err short_buffer else gstat buf zero_dir dotu >>= non_nil
