-- ===== src/Wire/Stat/Laws.antt =====
-- A qid and a stat entry on the wire: pqid and pstat write them, gqid and gstat read them back.
use chan.Prelude.{
  ◌-◌, ◌^◌, ◌<◌, ◌≡◌, refl, arith, Bool, true, false, some, [], ◌++◌, append_assoc, ◌⌢◌,
  if◌then◌else◌, length, length-append,
}
use native.Mathlib.Nat.{mod-eq_of_lt}
use chan.Wire.Result.{Result, ok}
use chan.Wire.Types.{Bytes, Qid, Dir, nouid, IsU8, IsU16, IsU32, IsU64}
use chan.Wire.Ints.{Slice, le8, le16, le32, le64, ◌⟫◌, when, pint32, pstr}
use chan.Wire.Ints.Laws.{
  str, Puts, pint8-Puts, pint16-Puts, pint32-Puts, pint64-Puts, pstr-Puts, ◌⊕◌, stay-Puts, le8_read,
  le16_read, le32_read, le64_read, str_read, length-le8, length-le16, length-le32, length-le64,
  length-str,
}
use chan.Wire.Stat.{gqid, gstat, gstat_names, gstat_dotu, pqid, pstat, statsz}

-- type[1] version[4] path[8]
unfoldable pub qid_bytes : Qid → Bytes
qid_bytes q = le8 q.type ⌢ le32 q.version ⌢ le64 q.path

pub record IsQid (q : Qid) : Type 0 where
  pub type : IsU8 q.type
  pub version : IsU32 q.version
  pub path : IsU64 q.path

pub qid_read : (q : Qid) (rest : Bytes) → IsQid q → gqid (qid_bytes q ++ rest) ≡ ok (q, rest)
unfolding gqid qid_bytes
qid_read q rest h = simp (append_assoc, le8_read, le32_read, le64_read, h.version, h.path)

pub pqid-Puts : (q : Qid) → Puts (pqid q) (qid_bytes q)
unfolding pqid qid_bytes
pqid-Puts q = pint8-Puts _ ⊕ pint32-Puts _ ⊕ pint64-Puts _

pub length-qid_bytes : (q : Qid) → length (qid_bytes q) ≡ 13
unfolding qid_bytes
length-qid_bytes q = simp (length-append, length-le8, length-le32, length-le64)

-- size[2] type[2] dev[4] qid[13] mode[4] atime[4] mtime[4] length[8] name[s] uid[s] gid[s] muid[s],
-- and in 9P2000.u extension[s] n_uid[4] n_gid[4] n_muid[4]
unfoldable pub dir_bytes : Dir → Bool → Bytes
dir_bytes d dotu =
    le16 (statsz d dotu - 2)
    ⌢ le16 d.type
    ⌢ le32 d.dev
    ⌢ qid_bytes d.qid
    ⌢ le32 d.mode
    ⌢ le32 d.atime
    ⌢ le32 d.mtime
    ⌢ le64 d.length
    ⌢ str d.name
    ⌢ str d.uid
    ⌢ str d.gid
    ⌢ str d.muid
    ⌢ (if dotu then str d.ext ⌢ le32 d.uidnum ⌢ le32 d.gidnum ⌢ le32 d.muidnum else [])

-- Every number fits its field, and the entry fits its size field.
pub record IsDir (d : Dir) (dotu : Bool) : Type 0 where
  pub type : IsU16 d.type
  pub dev : IsU32 d.dev
  pub qid : IsQid d.qid
  pub mode : IsU32 d.mode
  pub atime : IsU32 d.atime
  pub mtime : IsU32 d.mtime
  pub length : IsU64 d.length
  pub uidnum : IsU32 d.uidnum
  pub gidnum : IsU32 d.gidnum
  pub muidnum : IsU32 d.muidnum
  pub fits : statsz d dotu < 2 ^ 16

-- What a stat entry carries of `d`, read over `d0`.
abbrev pub wire_dir : Dir → Bool → Dir → Dir
wire_dir d true d0 = record d { size = statsz d true - 2 }
wire_dir d false d0 = record d {
  size = statsz d false - 2;
  ext = d0.ext;
  uidnum = nouid;
  gidnum = nouid;
  muidnum = nouid;
}

-- The names of an entry are short when the entry fits.
pub record HasShortNames (d : Dir) : Type 0 where
  pub name : IsU16 (length d.name)
  pub uid : IsU16 (length d.uid)
  pub gid : IsU16 (length d.gid)
  pub muid : IsU16 (length d.muid)

HasShortNames-of_fits : (d : Dir) (dotu : Bool) → statsz d dotu < 2 ^ 16 → HasShortNames d
unfolding statsz
HasShortNames-of_fits d dotu h = ground arith

ext_short : (d : Dir) → statsz d true < 2 ^ 16 → IsU16 (length d.ext)
unfolding statsz
ext_short d h = omega arith

dotu_read :
    (d d0 : Dir) (rest : Bytes)
    → IsU16 (length d.ext)
    → IsU32 d.uidnum
    → IsU32 d.gidnum
    → IsU32 d.muidnum
    → gstat_dotu (str d.ext ++ (le32 d.uidnum ++ (le32 d.gidnum ++ (le32 d.muidnum ++ rest)))) d0
      ≡ ok (
        record d0 { ext = d.ext; uidnum = d.uidnum; gidnum = d.gidnum; muidnum = d.muidnum },
        some rest,
      )
unfolding gstat_dotu
dotu_read d d0 rest e u g m = simp (str_read, le32_read, e, u, g, m)

names_read :
    (d d0 : Dir) (rest : Bytes) (k : Bytes → Dir → Result (Dir × Slice))
    → HasShortNames d
    → gstat_names (str d.name ++ (str d.uid ++ (str d.gid ++ (str d.muid ++ rest)))) d0 k
      ≡ k rest (record d0 { name = d.name; uid = d.uid; gid = d.gid; muid = d.muid })
unfolding gstat_names
names_read d d0 rest k h = simp (str_read, h.name, h.uid, h.gid, h.muid)

pub dir_read :
    (d d0 : Dir) (dotu : Bool) (rest : Bytes)
    → IsDir d dotu
    → gstat (dir_bytes d dotu ++ rest) d0 dotu ≡ ok (wire_dir d dotu d0, some rest)
unfolding gstat dir_bytes
dir_read d d0 true rest h =
    let names = HasShortNames-of_fits d true h.fits in
    let size : IsU16 (statsz d true - 2) = omega (arith, h.fits) in
    simp (
      append_assoc,
      le16_read,
      le32_read,
      le64_read,
      qid_read,
      names_read d,
      dotu_read d,
      size,
      h.type,
      h.dev,
      h.qid,
      h.mode,
      h.atime,
      h.mtime,
      h.length,
      names,
      ext_short d h.fits,
      h.uidnum,
      h.gidnum,
      h.muidnum,
    )
dir_read d d0 false rest h =
    let names = HasShortNames-of_fits d false h.fits in
    let size : IsU16 (statsz d false - 2) = omega (arith, h.fits) in
    simp (
      append_assoc,
      le16_read,
      le32_read,
      le64_read,
      qid_read,
      names_read d,
      size,
      h.type,
      h.dev,
      h.qid,
      h.mode,
      h.atime,
      h.mtime,
      h.length,
      names,
    )

dotu-Puts :
    (d : Dir) (dotu : Bool)
    → (dotu ≡ true → IsU16 (length d.ext))
    → Puts
        (when dotu (pstr d.ext ⟫ pint32 d.uidnum ⟫ pint32 d.gidnum ⟫ pint32 d.muidnum))
        (if dotu then str d.ext ⌢ le32 d.uidnum ⌢ le32 d.gidnum ⌢ le32 d.muidnum else [])
unfolding when
dotu-Puts d true h = pstr-Puts d.ext (h refl) ⊕ pint32-Puts _ ⊕ pint32-Puts _ ⊕ pint32-Puts _
dotu-Puts d false h = stay-Puts

ext_of_dotu : (d : Dir) (dotu : Bool) → IsDir d dotu → dotu ≡ true → IsU16 (length d.ext)
ext_of_dotu d true h e = ext_short d h.fits
ext_of_dotu d false h e = cc

pub pstat-Puts : (d : Dir) (dotu : Bool) → IsDir d dotu → Puts (pstat d dotu) (dir_bytes d dotu)
unfolding pstat dir_bytes
pstat-Puts d dotu h =
    let names = HasShortNames-of_fits d dotu h.fits in
    let size : statsz d dotu - 2 < 2 ^ 16 = omega (arith, h.fits) in
    rw (mod-eq_of_lt size) (
      pint16-Puts _
      ⊕ pint16-Puts _
      ⊕ pint32-Puts _
      ⊕ pqid-Puts _
      ⊕ pint32-Puts _
      ⊕ pint32-Puts _
      ⊕ pint32-Puts _
      ⊕ pint64-Puts _
      ⊕ pstr-Puts _ names.name
      ⊕ pstr-Puts _ names.uid
      ⊕ pstr-Puts _ names.gid
      ⊕ pstr-Puts _ names.muid
      ⊕ dotu-Puts d dotu (ext_of_dotu d dotu h))

pub length-dir_bytes : (d : Dir) (dotu : Bool) → length (dir_bytes d dotu) ≡ statsz d dotu
unfolding dir_bytes statsz
length-dir_bytes d true =
    simp (length-append, length-le16, length-le32, length-le64, length-str, length-qid_bytes)
      (omega arith)
length-dir_bytes d false =
    simp (length-append, length-le16, length-le32, length-le64, length-str, length-qid_bytes)
      (omega arith)
