-- ===== src/Srv/State.antt =====
-- The state of a connection: the structs Conn, Fid and Req of p/srv/srv.go on an explicit heap, and
-- the monad of the functions that change it.
-- A `*Fid` or `*Req` is the number of its cell. What leaves the program is kept in the order in which
-- it happens: `calls` of the file server's methods, `reqout` of the responses, `ready` of the
-- requests that are handed to a goroutine.
use chan.Prelude.{ℕ, Bool, Option, some, List}
use chan.Prelude.Int.{ℤ}
use chan.Wire.Result
pub use chan.Prelude.Run.{
  Outcome, done, panic, stuck, Run, pure, crash, follow, ◌>>=◌, ◌>>◌, gets, modify, deref, update,
}
use chan.Wire.Types.{Bytes, Fcall, Qid}

-- The id of a user; users are looked up by the interface p.Users.
abbrev pub User : Type 0
User = ℕ

-- A pointer to a Fid, and one to a Req.
abbrev pub FidPtr : Type 0
FidPtr = ℕ

abbrev pub ReqPtr : Type 0
ReqPtr = ℕ

-- The errors of srv.go and those that fcall.go makes; `wire`
-- is one of package p, and `op` is one that the file server returns.
pub data Error : Type 0 where
  unknown_fid no_auth in_use bad_use opened not_dir perm too_large bad_offset no_user : Error
  not_impl msize_too_small unknown_message_type : Error
  wire : Result.Error → Error
  op : ℕ → Error

pub record Fid : Type 0 where
  pub fid : ℕ
  pub refcount : ℤ
  pub opened : Bool
  pub omode : ℕ
  pub type : ℕ
  pub diroffset : ℕ
  pub user : Option User

-- The bits of `status` are four fields.
pub record Req : Type 0 where
  pub tc : Fcall
  pub rc : Fcall
  pub fid : Option FidPtr
  pub afid : Option FidPtr
  pub newfid : Option FidPtr
  pub is_flush : Bool
  pub is_work : Bool
  pub is_responded : Bool
  pub is_saved : Bool
  pub flushreq : Option ReqPtr
  pub prev : Option ReqPtr
  pub next : Option ReqPtr

-- The methods that the server calls on the file server's value.
pub data Call : Type 0 where
  attach walk open_op create read write clunk remove stat wstat flush : ReqPtr → Call
  auth_destroy fid_destroy : FidPtr → Call

pub record Conn : Type 0 where
  pub msize : ℕ
  pub dotu : Bool
  pub fids : FidPtr → Option Fid
  pub next_fid : FidPtr
  pub fidpool : ℕ → Option FidPtr
  pub requests : ReqPtr → Option Req
  pub reqs : List (ℕ × ReqPtr)
  pub calls : List Call
  pub reqout : List ReqPtr
  pub ready : List ReqPtr

-- What a method of the file server returns: a value or an error.
pub data Answer {ℓ} (A : Type ℓ) : Type ℓ where
  answer : A → Answer A
  fail : Error → Answer A

-- What the server takes from its environment: the interfaces that the file server's value implements,
-- the answers of those that return one, the users, and the texts and numbers of errors.
pub record Ops : Type 0 where
  pub srv_dotu : Bool
  pub has_auth : Bool
  pub has_flush : Bool
  pub has_fid_ops : Bool
  pub auth_init : Fid → Bytes → Answer Qid
  pub auth_check : Fid → Option Fid → Bytes → Option Error
  pub auth_read : Fid → ℕ → ℕ → Answer Bytes
  pub auth_write : Fid → ℕ → Bytes → Answer ℕ
  pub uid2user : ℕ → Option User
  pub uname2user : Bytes → Option User
  pub error_text : Error → Bytes
  pub error_num : Error → ℕ

abbrev pub Act : Type 0 → Type 0
Act A = Run Conn A

abbrev pub get_fid : FidPtr → Act Fid
get_fid p s = deref (s.fids p) s

abbrev pub put_fid : FidPtr → Fid → Act (Unit {0})
put_fid p f = modify λ s. record s { fids = update s.fids p (some f) }

abbrev pub get_req : ReqPtr → Act Req
get_req r s = deref (s.requests r) s

abbrev pub put_req : ReqPtr → Req → Act (Unit {0})
put_req r q = modify λ s. record s { requests = update s.requests r (some q) }
