-- ===== src/Clnt/Tags.antt =====
-- The calls with a tag of their own, p/clnt/tag.go: each sends its request and returns, and reqproc does
-- to the fid what the response says when it comes.
-- What Rpcnb does with the request is a parameter, `send`; the request that comes back is an argument of
-- reqproc, and what reqproc sends on is not recorded. The pool of tags is left out.
pub mod Walks
mod Examples
use chan.Prelude.{
  ℕ, ◌+◌, ◌%◌, ◌^◌, ◌==◌, Bool, true, false, not, ltb, Option, none, some, List, [], ◌∷◌, length,
  if◌then◌else◌,
}
use chan.Wire.Result
use chan.Wire.Types
use chan.Wire.Types.{Bytes, Fcall, Dir, rerror, nofid}
use chan.Wire.PackT.{
  pack_tauth, pack_tattach, pack_twalk, pack_topen, pack_tcreate, pack_tread, pack_twrite,
  pack_tclunk, pack_tremove, pack_tstat, pack_twstat,
}
use chan.Clnt.Rpc.{ClntError}
use chan.Clnt.Calls.{
  FidPtr, CallError, rpc_failed, User, Fid, Session, Call, pure, fail, crash, ◌>>=◌, ◌>>◌, gets,
  modify, deref, get_fid, put_fid, packed, take_fcall, give_back, last_qid,
}

-- A request that came back: its message, the response, and the fid.
pub record Req : Type 0 where
  pub tc : Fcall
  pub rc : Option Fcall
  pub fid : FidPtr

module _ {W : Type 0} where
  abbrev set_user : FidPtr → Option User → Call W (Unit {0})
  set_user p u = do f ← get_fid p; put_fid p (record f { user = u })

  abbrev set_mode : FidPtr → ℕ → Call W (Unit {0})
  set_mode p mode = do f ← get_fid p; put_fid p (record f { mode = mode })

  -- The switch of reqproc, by the type of the request. The cases of Topen and Tclunk are empty.
  unfoldable pub settle : Req → Fcall → Call W (Unit {0})
  unfolding give_back
  settle r rc = do
    f ← get_fid r.fid
    let error = rc.type == rerror
    if r.tc.type == Types.tauth
        then (if error then set_user r.fid none else pure tt)
        else if r.tc.type == Types.tattach
        then (if error then set_user r.fid none else put_fid r.fid (record f { qid = rc.qid }))
        else if r.tc.type == Types.twalk
        then (if error
            then set_user r.fid none
            else put_fid r.fid (record f { walked = true; qid = last_qid f.qid rc.wqid }))
        else if r.tc.type == Types.tcreate
        then (if error
            then set_mode r.fid 0
            else put_fid r.fid (record f { iounit = rc.iounit; qid = rc.qid }))
        else if r.tc.type == Types.tremove
        then give_back f.fid
        else pure tt

  -- A turn of reqproc: the response is read first.
  unfoldable pub reqproc : Req → Call W (Unit {0})
  unfolding settle
  reqproc r = do rc ← deref r.rc; settle r rc

module _ {W : Type 0} (send : FidPtr → Fcall → W → Option ClntError × W) where
  abbrev sent : Option ClntError → Call W (Unit {0})
  sent none = pure tt
  sent (some e) = fail (rpc_failed e)

  -- `tag.clnt.Rpcnb(req)`
  abbrev pub rpcnb : FidPtr → Fcall → Call W (Unit {0})
  rpcnb p tc s = let (e, w) = send p tc s.world in sent e (record s { world = w })

  abbrev pub afid_of : Option FidPtr → Call W ℕ
  afid_of none = pure nofid
  afid_of (some p) = do f ← get_fid p; pure f.fid

  unfoldable pub auth : FidPtr → User → Bytes → Call W (Unit {0})
  unfolding pack_tauth
  auth p user aname = do
    tc0 ← take_fcall
    f ← get_fid p
    dotu ← gets (λ s. s.dotu)
    tc ← packed (pack_tauth tc0 f.fid user.name aname user.id dotu)
    set_user p (some user)
    rpcnb p tc

  unfoldable pub attach : FidPtr → Option FidPtr → User → Bytes → Call W (Unit {0})
  unfolding pack_tattach
  attach p afid user aname = do
    afno ← afid_of afid
    tc0 ← take_fcall
    f ← get_fid p
    dotu ← gets (λ s. s.dotu)
    tc ← packed (pack_tattach tc0 f.fid afno user.name aname user.id dotu)
    set_user p (some user)
    rpcnb p tc

  unfoldable pub walk : FidPtr → FidPtr → List Bytes → Call W (Unit {0})
  unfolding pack_twalk
  walk p new wnames = do
    tc0 ← take_fcall
    f ← get_fid p
    g ← get_fid new
    put_fid new (if length wnames == 0 then record g { qid = f.qid } else g)
    f1 ← get_fid p
    tc ← packed (pack_twalk tc0 f1.fid g.fid wnames)
    set_user new f1.user
    rpcnb new tc

  unfoldable pub open_fid : FidPtr → ℕ → Call W (Unit {0})
  unfolding pack_topen
  open_fid p mode = do
    tc0 ← take_fcall
    f ← get_fid p
    tc ← packed (pack_topen tc0 f.fid mode)
    set_mode p mode
    rpcnb p tc

  unfoldable pub create : FidPtr → Bytes → ℕ → ℕ → Bytes → Call W (Unit {0})
  unfolding pack_tcreate
  create p name perm mode ext = do
    tc0 ← take_fcall
    f ← get_fid p
    dotu ← gets (λ s. s.dotu)
    tc ← packed (pack_tcreate tc0 f.fid name perm mode ext dotu)
    set_mode p mode
    rpcnb p tc

  -- The requests that change nothing before they are sent: reqAlloc, the Pack function, Rpcnb.
  abbrev request : FidPtr → (Fcall → ℕ → Result.Result Fcall) → Call W (Unit {0})
  request p pack = do tc0 ← take_fcall; f ← get_fid p; tc ← packed (pack tc0 f.fid); rpcnb p tc

  unfoldable pub read : FidPtr → ℕ → ℕ → Call W (Unit {0})
  unfolding pack_tread
  read p offset count = request p (λ tc fid. pack_tread tc fid offset count)

  unfoldable pub write : FidPtr → Bytes → ℕ → Call W (Unit {0})
  unfolding pack_twrite
  write p data_bytes offset =
      request p (λ tc fid. pack_twrite tc fid offset (length data_bytes % 2 ^ 32) data_bytes)

  unfoldable pub clunk : FidPtr → Call W (Unit {0})
  unfolding pack_tclunk
  clunk p = request p pack_tclunk

  unfoldable pub remove : FidPtr → Call W (Unit {0})
  unfolding pack_tremove
  remove p = request p pack_tremove

  unfoldable pub stat : FidPtr → Call W (Unit {0})
  unfolding pack_tstat
  stat p = request p pack_tstat

  unfoldable pub wstat : FidPtr → Dir → Call W (Unit {0})
  unfolding pack_twstat
  wstat p dir = do dotu ← gets (λ s. s.dotu); request p (λ tc fid. pack_twstat tc fid dir dotu)
