-- ===== src/Wire/Message.antt =====
-- The abstract view of package p: a 9P2000 message with the fields of its kind, its bytes as the
-- protocol's manual gives them, and the message that a reader should get back.
-- `pack_message` calls the Pack function of the message's kind.
pub mod Frame
pub mod Data
pub mod Pack
pub mod Unpack
pub mod Tag
pub mod Faults
mod Examples
use chan.Prelude.{
  ℕ, ◌+◌, ◌-◌, ◌<◌, ◌^◌, Bool, true, false, List, [], ◌∷◌, ◌++◌, ◌⌢◌, if◌then◌else◌, length, All,
}
use chan.Wire.Result.{Result}
use chan.Wire.Types
use chan.Wire.Types.{
  Bytes, Fcall, Qid, Dir, IsU8, IsU16, IsU32, IsU64, zero_fcall, zero_dir, nofid, nouid,
}
use chan.Wire.Ints.{le8, le16, le32, le64}
use chan.Wire.Ints.Laws.{str}
use chan.Wire.Stat.{statsz}
use chan.Wire.Stat.Laws.{qid_bytes, dir_bytes, wire_dir, IsQid, IsDir}
use chan.Wire.PackT
use chan.Wire.PackR
use chan.Wire.Unpack.{header_fcall}

pub data Message : Type 0 where
  tversion : ℕ → Bytes → Message
  rversion : ℕ → Bytes → Message
  tauth : ℕ → Bytes → Bytes → ℕ → Message
  rauth : Qid → Message
  tattach : ℕ → ℕ → Bytes → Bytes → ℕ → Message
  rattach : Qid → Message
  rerror : Bytes → ℕ → Message
  tflush : ℕ → Message
  rflush : Message
  twalk : ℕ → ℕ → List Bytes → Message
  rwalk : List Qid → Message
  topen : ℕ → ℕ → Message
  ropen : Qid → ℕ → Message
  tcreate : ℕ → Bytes → ℕ → ℕ → Bytes → Message
  rcreate : Qid → ℕ → Message
  tread : ℕ → ℕ → ℕ → Message
  rread : Bytes → Message
  twrite : ℕ → ℕ → Bytes → Message
  rwrite : ℕ → Message
  tclunk : ℕ → Message
  rclunk : Message
  tremove : ℕ → Message
  rremove : Message
  tstat : ℕ → Message
  rstat : Dir → Message
  twstat : ℕ → Dir → Message
  rwstat : Message

unfoldable pub type_of : Message → ℕ
type_of (tversion _ _) = Types.tversion
type_of (rversion _ _) = Types.rversion
type_of (tauth _ _ _ _) = Types.tauth
type_of (rauth _) = Types.rauth
type_of (tattach _ _ _ _ _) = Types.tattach
type_of (rattach _) = Types.rattach
type_of (rerror _ _) = Types.rerror
type_of (tflush _) = Types.tflush
type_of rflush = Types.rflush
type_of (twalk _ _ _) = Types.twalk
type_of (rwalk _) = Types.rwalk
type_of (topen _ _) = Types.topen
type_of (ropen _ _) = Types.ropen
type_of (tcreate _ _ _ _ _) = Types.tcreate
type_of (rcreate _ _) = Types.rcreate
type_of (tread _ _ _) = Types.tread
type_of (rread _) = Types.rread
type_of (twrite _ _ _) = Types.twrite
type_of (rwrite _) = Types.rwrite
type_of (tclunk _) = Types.tclunk
type_of rclunk = Types.rclunk
type_of (tremove _) = Types.tremove
type_of rremove = Types.rremove
type_of (tstat _) = Types.tstat
type_of (rstat _) = Types.rstat
type_of (twstat _ _) = Types.twstat
type_of rwstat = Types.rwstat

-- A field that only the 9P2000.u extension has.
abbrev pub only : Bool → Bytes → Bytes
only dotu xs = if dotu then xs else []

unfoldable pub strs : List Bytes → Bytes
strs [] = []
strs (w ∷ ws) = str w ++ strs ws

unfoldable pub qids : List Qid → Bytes
qids [] = []
qids (q ∷ qs) = qid_bytes q ++ qids qs

-- The bytes behind the header.
unfoldable pub body_bytes : Message → Bool → Bytes
body_bytes (tversion msize version) dotu = le32 msize ⌢ str version
body_bytes (rversion msize version) dotu = le32 msize ⌢ str version
body_bytes (tauth afid uname aname unamenum) dotu =
    le32 afid ⌢ str uname ⌢ str aname ⌢ only dotu (le32 unamenum)
body_bytes (rauth aqid) dotu = qid_bytes aqid
body_bytes (tattach fid afid uname aname unamenum) dotu =
    le32 fid ⌢ le32 afid ⌢ str uname ⌢ str aname ⌢ only dotu (le32 unamenum)
body_bytes (rattach qid) dotu = qid_bytes qid
body_bytes (rerror ename ecode) dotu = str ename ⌢ only dotu (le32 ecode)
body_bytes (tflush oldtag) dotu = le16 oldtag
body_bytes rflush dotu = []
body_bytes (twalk fid newfid wname) dotu = le32 fid ⌢ le32 newfid ⌢ le16 (length wname) ⌢ strs wname
body_bytes (rwalk wqid) dotu = le16 (length wqid) ⌢ qids wqid
body_bytes (topen fid mode) dotu = le32 fid ⌢ le8 mode
body_bytes (ropen qid iounit) dotu = qid_bytes qid ⌢ le32 iounit
body_bytes (tcreate fid name perm mode ext) dotu =
    le32 fid ⌢ str name ⌢ le32 perm ⌢ le8 mode ⌢ only dotu (str ext)
body_bytes (rcreate qid iounit) dotu = qid_bytes qid ⌢ le32 iounit
body_bytes (tread fid offset count) dotu = le32 fid ⌢ le64 offset ⌢ le32 count
body_bytes (rread bytes) dotu = le32 (length bytes) ⌢ bytes
body_bytes (twrite fid offset bytes) dotu = le32 fid ⌢ le64 offset ⌢ le32 (length bytes) ⌢ bytes
body_bytes (rwrite count) dotu = le32 count
body_bytes (tclunk fid) dotu = le32 fid
body_bytes rclunk dotu = []
body_bytes (tremove fid) dotu = le32 fid
body_bytes rremove dotu = []
body_bytes (tstat fid) dotu = le32 fid
body_bytes (rstat d) dotu = le16 (statsz d dotu) ⌢ dir_bytes d dotu
body_bytes (twstat fid d) dotu = le32 fid ⌢ le16 (statsz d dotu) ⌢ dir_bytes d dotu
body_bytes rwstat dotu = []

-- size[4] type[1] tag[2] body
unfoldable pub frame : ℕ → ℕ → Bytes → Bytes
frame type tag body = le32 (length body + 7) ⌢ le8 type ⌢ le16 tag ⌢ body

unfoldable pub encode : Message → Bool → ℕ → Bytes
encode m dotu tag = frame (type_of m) tag (body_bytes m dotu)

-- Every number fits its field and every string its length, and so does the message.
unfoldable pub HasFields : Message → Bool → Type 0
HasFields (tversion msize version) dotu = IsU32 msize × IsU16 (length version)
HasFields (rversion msize version) dotu = IsU32 msize × IsU16 (length version)
HasFields (tauth afid uname aname unamenum) dotu =
    IsU32 afid × IsU16 (length uname) × IsU16 (length aname) × IsU32 unamenum
HasFields (rauth qid) dotu = IsQid qid
HasFields (tattach fid afid uname aname unamenum) dotu =
    IsU32 fid × IsU32 afid × IsU16 (length uname) × IsU16 (length aname) × IsU32 unamenum
HasFields (rattach qid) dotu = IsQid qid
HasFields (rerror ename ecode) dotu = IsU16 (length ename) × IsU32 ecode
HasFields (tflush oldtag) dotu = IsU16 oldtag
HasFields rflush dotu = Unit
HasFields (twalk fid newfid wname) dotu =
    IsU32 fid × IsU32 newfid × IsU16 (length wname) × All (λ w. IsU16 (length w)) wname
HasFields (rwalk wqid) dotu = IsU16 (length wqid) × All IsQid wqid
HasFields (topen fid mode) dotu = IsU32 fid × IsU8 mode
HasFields (ropen qid iounit) dotu = IsQid qid × IsU32 iounit
HasFields (tcreate fid name perm mode ext) dotu =
    IsU32 fid × IsU16 (length name) × IsU32 perm × IsU8 mode × IsU16 (length ext)
HasFields (rcreate qid iounit) dotu = IsQid qid × IsU32 iounit
HasFields (tread fid offset count) dotu = IsU32 fid × IsU64 offset × IsU32 count
HasFields (rread bytes) dotu = Unit
HasFields (twrite fid offset bytes) dotu = IsU32 fid × IsU64 offset
HasFields (rwrite count) dotu = IsU32 count
HasFields (tclunk fid) dotu = IsU32 fid
HasFields rclunk dotu = Unit
HasFields (tremove fid) dotu = IsU32 fid
HasFields rremove dotu = Unit
HasFields (tstat fid) dotu = IsU32 fid
HasFields (rstat d) dotu = IsDir d dotu
HasFields (twstat fid d) dotu = IsU32 fid × IsDir d dotu
HasFields rwstat dotu = Unit

pub record IsMessage (m : Message) (dotu : Bool) : Type 0 where
  pub fields : HasFields m dotu
  pub size : length (body_bytes m dotu) + 7 < 2 ^ 32

unfoldable pub pack_message : Message → Bool → Fcall → Result Fcall
pack_message (tversion msize version) dotu fc = PackT.pack_tversion fc msize version
pack_message (rversion msize version) dotu fc = PackR.pack_rversion fc msize version
pack_message (tauth afid uname aname unamenum) dotu fc =
    PackT.pack_tauth fc afid uname aname unamenum dotu
pack_message (rauth aqid) dotu fc = PackR.pack_rauth fc aqid
pack_message (tattach fid afid uname aname unamenum) dotu fc =
    PackT.pack_tattach fc fid afid uname aname unamenum dotu
pack_message (rattach qid) dotu fc = PackR.pack_rattach fc qid
pack_message (rerror ename ecode) dotu fc = PackR.pack_rerror fc ename ecode dotu
pack_message (tflush oldtag) dotu fc = PackT.pack_tflush fc oldtag
pack_message rflush dotu fc = PackR.pack_rflush fc
pack_message (twalk fid newfid wname) dotu fc = PackT.pack_twalk fc fid newfid wname
pack_message (rwalk wqid) dotu fc = PackR.pack_rwalk fc wqid
pack_message (topen fid mode) dotu fc = PackT.pack_topen fc fid mode
pack_message (ropen qid iounit) dotu fc = PackR.pack_ropen fc qid iounit
pack_message (tcreate fid name perm mode ext) dotu fc =
    PackT.pack_tcreate fc fid name perm mode ext dotu
pack_message (rcreate qid iounit) dotu fc = PackR.pack_rcreate fc qid iounit
pack_message (tread fid offset count) dotu fc = PackT.pack_tread fc fid offset count
pack_message (rread bytes) dotu fc = PackR.pack_rread fc bytes
pack_message (twrite fid offset bytes) dotu fc =
    PackT.pack_twrite fc fid offset (length bytes) bytes
pack_message (rwrite count) dotu fc = PackR.pack_rwrite fc count
pack_message (tclunk fid) dotu fc = PackT.pack_tclunk fc fid
pack_message rclunk dotu fc = PackR.pack_rclunk fc
pack_message (tremove fid) dotu fc = PackT.pack_tremove fc fid
pack_message rremove dotu fc = PackR.pack_rremove fc
pack_message (tstat fid) dotu fc = PackT.pack_tstat fc fid
pack_message (rstat d) dotu fc = PackR.pack_rstat fc d dotu
pack_message (twstat fid d) dotu fc = PackT.pack_twstat fc fid d dotu
pack_message rwstat dotu fc = PackR.pack_rwstat fc

-- The struct with the message's own fields set. What the extension adds is read only with `dotu`;
-- without it Tauth gets NOUID, and Tattach keeps what `fc` has.
unfoldable pub with_fields : Message → Bool → Fcall → Fcall
with_fields (tversion msize version) dotu fc = record fc { msize = msize; version = version }
with_fields (rversion msize version) dotu fc = record fc { msize = msize; version = version }
with_fields (tauth afid uname aname unamenum) dotu fc = record fc {
  afid = afid;
  uname = uname;
  aname = aname;
  unamenum = if dotu then unamenum else nouid;
}
with_fields (rauth aqid) dotu fc = record fc { qid = aqid }
with_fields (tattach fid afid uname aname unamenum) dotu fc = record fc {
  fid = fid;
  afid = afid;
  uname = uname;
  aname = aname;
  unamenum = if dotu then unamenum else fc.unamenum;
}
with_fields (rattach qid) dotu fc = record fc { qid = qid }
with_fields (rerror ename ecode) dotu fc = record fc {
  error = ename;
  errornum = if dotu then ecode else 0;
}
with_fields (tflush oldtag) dotu fc = record fc { oldtag = oldtag }
with_fields rflush dotu fc = fc
with_fields (twalk fid newfid wname) dotu fc = record fc {
  fid = fid;
  newfid = newfid;
  wname = wname;
}
with_fields (rwalk wqid) dotu fc = record fc { wqid = wqid }
with_fields (topen fid mode) dotu fc = record fc { fid = fid; mode = mode }
with_fields (ropen qid iounit) dotu fc = record fc { qid = qid; iounit = iounit }
with_fields (tcreate fid name perm mode ext) dotu fc = record fc {
  fid = fid;
  name = name;
  perm = perm;
  mode = mode;
  ext = if dotu then ext else fc.ext;
}
with_fields (rcreate qid iounit) dotu fc = record fc { qid = qid; iounit = iounit }
with_fields (tread fid offset count) dotu fc = record fc {
  fid = fid;
  offset = offset;
  count = count;
}
with_fields (rread bytes) dotu fc = record fc { count = length bytes; dat = bytes }
with_fields (twrite fid offset bytes) dotu fc = record fc {
  fid = fid;
  offset = offset;
  count = length bytes;
  dat = bytes;
}
with_fields (rwrite count) dotu fc = record fc { count = count }
with_fields (tclunk fid) dotu fc = record fc { fid = fid }
with_fields rclunk dotu fc = fc
with_fields (tremove fid) dotu fc = record fc { fid = fid }
with_fields rremove dotu fc = fc
with_fields (tstat fid) dotu fc = record fc { fid = fid }
with_fields (rstat d) dotu fc = record fc { dir = wire_dir d dotu fc.dir }
with_fields (twstat fid d) dotu fc = record fc { fid = fid; dir = wire_dir d dotu fc.dir }
with_fields rwstat dotu fc = fc

-- The struct that a reader of `encode m dotu tag` gets.
unfoldable pub decoded : Message → Bool → ℕ → Fcall
decoded m dotu tag =
    with_fields m dotu
      (header_fcall (length (body_bytes m dotu) + 7) (type_of m) tag (encode m dotu tag))
