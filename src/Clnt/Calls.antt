-- ===== src/Clnt/Calls.antt =====
-- The calls of a client: Rpc, FidAlloc, NewFcall and FreeFcall of p/clnt/clnt.go, and Clunk, Walk, FWalk,
-- Remove, FRemove, Stat, FStat and Wstat of p/clnt/close.go, walk.go, remove.go and stat.go.
-- A `*Fid` is the number of its cell. What is between `Rpcnb` and `<-r.Done` is a parameter, `remote`,
-- with a state of its own. A call that waits for an id is stuck.
pub mod Io
pub mod Files
pub mod Runs
pub mod Sizes
pub mod Batches
pub mod Places
pub mod Transfer
pub mod Stores
pub mod Fill
pub mod Loads
mod Examples
use chan.Prelude.{
  ℕ, zero, suc, ◌+◌, ◌-◌, ◌%◌, ◌^◌, ◌==◌, Bool, true, false, not, ◌&&◌, ltb, leb, Option, none,
  some, List, [], ◌∷◌, ◌++◌, length, take, drop, if◌then◌else◌,
}
use chan.Prelude.Run.{Run, Outcome, done, panic, stuck, update}
use chan.Wire.Result
use chan.Wire.Types.{Bytes, Fcall, Qid, Dir, rerror, nofid}
use chan.Wire.Pack.{new_fcall}
use chan.Wire.PackT.{pack_twalk, pack_tclunk, pack_tremove, pack_tstat, pack_twstat}
use chan.Clnt.Pool.{Pool, Got, gives, waits, get_id, Put, handed, freed, out_of_range, put_id}
use chan.Clnt.Rpc.{ClntError}

abbrev pub FidPtr : Type 0
FidPtr = ℕ

-- The errors of a call: of a Pack function, of Rpc, of the server, "file not found", and io.EOF.
pub data CallError : Type 0 where
  packing : Result.Error → CallError
  rpc_failed : ClntError → CallError
  server_said : Bytes → ℕ → CallError
  file_not_found eof : CallError

pub data Answer (A : Type 0) : Type 0 where
  returns : A → Answer A
  fails : CallError → Answer A

-- What the methods Name and Id of a user return.
pub record User : Type 0 where
  pub name : Bytes
  pub id : ℕ

pub record Fid : Type 0 where
  pub iounit : ℕ
  pub qid : Qid
  pub mode : ℕ
  pub fid : ℕ
  pub user : Option User
  pub walked : Bool

-- What becomes of a request: Rpcnb refuses it, or it comes back with a response, an error, or both.
pub data Reply : Type 0 where
  refused : ClntError → Reply
  back : Option Fcall → Option ClntError → Reply

pub record Session (W : Type 0) : Type 0 where
  pub world : W
  pub msize : ℕ
  pub dotu : Bool
  pub root : Option FidPtr
  pub fidpool : Pool
  pub tchan : List Fcall
  pub fids : FidPtr → Option Fid
  pub next_fid : FidPtr

abbrev pub Call : Type 0 → Type 0 → Type 0
Call W A = Run (Session W) (Answer A)

-- `rc.Wqid[l-1]`, or the other one where there is none
abbrev pub last_qid : Qid → List Qid → Qid
last_qid q [] = q
last_qid q (r ∷ rs) = last_qid r rs

module _ {W : Type 0} where
  abbrev pub pure : {A : Type 0} → A → Call W A
  pure a s = done (returns a, s)

  abbrev pub fail : {A : Type 0} → CallError → Call W A
  fail e s = done (fails e, s)

  abbrev pub crash : {A : Type 0} → Call W A
  crash s = panic

  abbrev pub follow :
      {A B : Type 0}
      → Outcome (Answer A × Session W)
      → (A → Call W B)
      → Outcome (Answer B × Session W)
  follow (done (returns a, s)) k = k a s
  follow (done (fails e, s)) k = done (fails e, s)
  follow panic k = panic
  follow stuck k = stuck

  infixl 5 ◌>>=◌ ◌>>◌
  abbrev pub ◌>>=◌ : {A B : Type 0} → Call W A → (A → Call W B) → Call W B
  ◌>>=◌ m k s = follow (m s) k

  abbrev pub ◌>>◌ : {B : Type 0} → Call W (Unit {0}) → Call W B → Call W B
  ◌>>◌ m k s = follow (m s) (λ _. k)

  -- The answer of a call as a value, for the code that looks at its error itself.
  abbrev pub caught :
      {A : Type 0} → Outcome (Answer A × Session W) → Outcome (Answer (Answer A) × Session W)
  caught (done (a, s)) = done (returns a, s)
  caught panic = panic
  caught stuck = stuck

  abbrev pub try : {A : Type 0} → Call W A → Call W (Answer A)
  try m s = caught (m s)

  abbrev pub answered : {A : Type 0} → Answer A → Call W A
  answered a s = done (a, s)

  abbrev pub gets : {A : Type 0} → (Session W → A) → Call W A
  gets f s = done (returns (f s), s)

  abbrev pub modify : (Session W → Session W) → Call W (Unit {0})
  modify f s = done (returns tt, f s)

  abbrev pub deref : {A : Type 0} → Option A → Call W A
  deref none = crash
  deref (some a) = pure a

  abbrev pub get_fid : FidPtr → Call W Fid
  get_fid p s = deref (s.fids p) s

  abbrev pub put_fid : FidPtr → Fid → Call W (Unit {0})
  put_fid p f = modify λ s. record s { fids = update s.fids p (some f) }

  -- What a Pack function returned.
  abbrev pub packed : Result.Result Fcall → Call W Fcall
  packed (Result.ok tc) = pure tc
  packed (Result.err e) = fail (packing e)
  packed Result.panic = crash

  abbrev pub next_fcall : List Fcall → Call W Fcall
  next_fcall [] = gets (λ s. new_fcall s.msize)
  next_fcall (tc ∷ rest) = do modify λ s. record s { tchan = rest }; pure tc

  -- NewFcall
  abbrev pub take_fcall : Call W Fcall
  take_fcall s = next_fcall s.tchan s

  unfoldable pub free_fcall : Fcall → Call W (Unit {0})
  free_fcall tc = modify λ s.
      if leb s.msize (length tc.buf) && ltb (length s.tchan) 16
      then record s { tchan = s.tchan ++ tc ∷ [] }
      else s

  abbrev pub allocated : Got → Call W FidPtr
  allocated (gives id pool) s = done (
    returns s.next_fid,
    record s {
      fidpool = pool;
      next_fid = suc s.next_fid;
      fids = update s.fids s.next_fid (
          some (record {
            iounit = 0;
            qid = record { type = 0; version = 0; path = 0 };
            mode = 0;
            fid = id;
            user = none;
            walked = false;
          }));
    },
  )
  allocated (waits pool) s = stuck

  unfoldable pub fid_alloc : Call W FidPtr
  unfolding get_id
  fid_alloc s = allocated (get_id s.fidpool) s

  abbrev pub returned : Put → Call W (Unit {0})
  returned (handed id pool) = modify λ s. record s { fidpool = pool }
  returned (freed pool) = modify λ s. record s { fidpool = pool }
  returned out_of_range = crash

  -- `clnt.fidpool.putId(fid.Fid)`
  unfoldable pub give_back : ℕ → Call W (Unit {0})
  unfolding put_id
  give_back id s = returned (put_id s.fidpool id) s

module _ {W : Type 0} (remote : Fcall → W → Reply × W) where
  -- Behind Rpcnb: the request is freed where it was sent, with its message.
  abbrev pub came_back : Fcall → Reply → Call W (Option Fcall × Option ClntError)
  came_back tc (refused e) = pure (none, some e)
  came_back tc (back rc err) = do free_fcall tc; pure (rc, err)

  unfoldable pub rpc : Fcall → Call W (Option Fcall × Option ClntError)
  unfolding free_fcall
  rpc tc s =
      let (reply, world) = remote tc s.world in came_back tc reply (record s { world = world })

  abbrev pub not_error : Fcall → Call W Fcall
  not_error rc = if rc.type == rerror then fail (server_said rc.error rc.errornum) else pure rc

  abbrev pub checked : Option Fcall × Option ClntError → Call W Fcall
  checked (rc, some e) = fail (rpc_failed e)
  checked (rc, none) = do r ← deref rc; not_error r

  -- Rpc with the two tests that most of the calls make behind it.
  unfoldable pub ask : Fcall → Call W Fcall
  unfolding rpc
  ask tc = do reply ← rpc tc; checked reply

  -- The error of Rpc is assigned to a variable that the block declares, and is not returned.
  unfoldable pub tell_clunk : Fid → Call W (Unit {0})
  unfolding rpc pack_tclunk
  tell_clunk f =
      if f.walked
      then (do tc0 ← take_fcall; tc ← packed (pack_tclunk tc0 f.fid); reply ← rpc tc; pure tt)
      else pure tt

  unfoldable pub clunk : FidPtr → Call W (Unit {0})
  unfolding tell_clunk give_back
  clunk p = do
    f ← get_fid p
    tell_clunk f
    give_back f.fid
    put_fid p (record f { walked = false; fid = nofid })

  unfoldable pub walk : FidPtr → FidPtr → List Bytes → Call W (List Qid)
  unfolding ask pack_twalk
  walk p new wnames = do
    f ← get_fid p
    g ← get_fid new
    tc0 ← take_fcall
    tc ← packed (pack_twalk tc0 f.fid g.fid wnames)
    rc ← ask tc
    h ← get_fid new
    if length rc.wqid == length wnames
        then put_fid new (record h { qid = last_qid f.qid rc.wqid; walked = true })
        else pure tt
    pure rc.wqid
