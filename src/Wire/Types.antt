-- ===== src/Wire/Types.antt =====
-- The constants and structs of p9.go. A Go string and a byte slice are the list of their bytes; an
-- integer field is the number it holds, below the bound of its type.
use chan.Prelude.{ℕ, ◌<◌, ◌^◌, List, []}

-- The bytes of a Go string or slice.
abbrev pub Bytes : Type 0
Bytes = List ℕ

abbrev pub IsU8 : ℕ → Type 0
IsU8 x = x < 2 ^ 8

abbrev pub IsU16 : ℕ → Type 0
IsU16 x = x < 2 ^ 16

abbrev pub IsU32 : ℕ → Type 0
IsU32 x = x < 2 ^ 32

abbrev pub IsU64 : ℕ → Type 0
IsU64 x = x < 2 ^ 64

-- The message types, `Tversion = 100 + iota` up to `Tlast`.
abbrev pub tversion : ℕ
tversion = 100

abbrev pub rversion : ℕ
rversion = 101

abbrev pub tauth : ℕ
tauth = 102

abbrev pub rauth : ℕ
rauth = 103

abbrev pub tattach : ℕ
tattach = 104

abbrev pub rattach : ℕ
rattach = 105

abbrev pub rerror : ℕ
rerror = 107

abbrev pub tflush : ℕ
tflush = 108

abbrev pub rflush : ℕ
rflush = 109

abbrev pub twalk : ℕ
twalk = 110

abbrev pub rwalk : ℕ
rwalk = 111

abbrev pub topen : ℕ
topen = 112

abbrev pub ropen : ℕ
ropen = 113

abbrev pub tcreate : ℕ
tcreate = 114

abbrev pub rcreate : ℕ
rcreate = 115

abbrev pub tread : ℕ
tread = 116

abbrev pub rread : ℕ
rread = 117

abbrev pub twrite : ℕ
twrite = 118

abbrev pub rwrite : ℕ
rwrite = 119

abbrev pub tclunk : ℕ
tclunk = 120

abbrev pub rclunk : ℕ
rclunk = 121

abbrev pub tremove : ℕ
tremove = 122

abbrev pub rremove : ℕ
rremove = 123

abbrev pub tstat : ℕ
tstat = 124

abbrev pub rstat : ℕ
rstat = 125

abbrev pub twstat : ℕ
twstat = 126

abbrev pub rwstat : ℕ
rwstat = 127

abbrev pub tlast : ℕ
tlast = 128

abbrev pub notag : ℕ
notag = 0xffff

abbrev pub nofid : ℕ
nofid = 0xffff_ffff

abbrev pub nouid : ℕ
nouid = 0xffff_ffff

pub record Qid : Type 0 where
  pub type : ℕ
  pub version : ℕ
  pub path : ℕ

pub record Dir : Type 0 where
  pub size : ℕ
  pub type : ℕ
  pub dev : ℕ
  pub qid : Qid
  pub mode : ℕ
  pub atime : ℕ
  pub mtime : ℕ
  pub length : ℕ
  pub name : Bytes
  pub uid : Bytes
  pub gid : Bytes
  pub muid : Bytes
  pub ext : Bytes
  pub uidnum : ℕ
  pub gidnum : ℕ
  pub muidnum : ℕ

-- `dat` is the field `Data` of the source.
pub record Fcall : Type 0 where
  pub size : ℕ
  pub type : ℕ
  pub fid : ℕ
  pub tag : ℕ
  pub msize : ℕ
  pub version : Bytes
  pub oldtag : ℕ
  pub error : Bytes
  pub qid : Qid
  pub iounit : ℕ
  pub afid : ℕ
  pub uname : Bytes
  pub aname : Bytes
  pub perm : ℕ
  pub name : Bytes
  pub mode : ℕ
  pub newfid : ℕ
  pub wname : List Bytes
  pub wqid : List Qid
  pub offset : ℕ
  pub count : ℕ
  pub dat : Bytes
  pub dir : Dir
  pub errornum : ℕ
  pub ext : Bytes
  pub unamenum : ℕ
  pub pkt : Bytes
  pub buf : Bytes

-- `new(Qid)`, `new(Dir)` and `new(Fcall)`
abbrev pub zero_qid : Qid
zero_qid = record { type = 0; version = 0; path = 0 }

abbrev pub zero_dir : Dir
zero_dir = record {
  size = 0;
  type = 0;
  dev = 0;
  qid = zero_qid;
  mode = 0;
  atime = 0;
  mtime = 0;
  length = 0;
  name = [];
  uid = [];
  gid = [];
  muid = [];
  ext = [];
  uidnum = 0;
  gidnum = 0;
  muidnum = 0;
}

abbrev pub zero_fcall : Fcall
zero_fcall = record {
  size = 0;
  type = 0;
  fid = 0;
  tag = 0;
  msize = 0;
  version = [];
  oldtag = 0;
  error = [];
  qid = zero_qid;
  iounit = 0;
  afid = 0;
  uname = [];
  aname = [];
  perm = 0;
  name = [];
  mode = 0;
  newfid = 0;
  wname = [];
  wqid = [];
  offset = 0;
  count = 0;
  dat = [];
  dir = zero_dir;
  errornum = 0;
  ext = [];
  unamenum = 0;
  pkt = [];
  buf = [];
}
