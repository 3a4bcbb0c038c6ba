-- ===== src/Srv/Process.antt =====
-- (*Req).Process and (*Req).process of p/srv/srv.go, for a file server that leaves both to the
-- package (it has no ReqProcessOps).
pub mod Guards
use chan.Prelude.{ℕ, ◌==◌, true, false, not, ◌||◌, none, some, if◌then◌else◌}
use chan.Wire.Types
use chan.Wire.Types.{nofid}
use chan.Srv.State.{
  ReqPtr, unknown_fid, unknown_message_type, Ops, Act, pure, ◌>>=◌, ◌>>◌, get_req, put_req,
}
use chan.Srv.Fids.{fid_get}
use chan.Srv.Respond.{respond, respond_error}
use chan.Srv.Handlers.Session.{version, auth, attach, flush}
use chan.Srv.Handlers.Files.{walk, open_fid, create, read, write, clunk, remove, stat, wstat}

-- The inner switch: the types that need a fid.
unfoldable pub on_fid : ℕ → Ops → ReqPtr → ℕ → Act (Unit {0})
on_fid n ops r type =
    if type == Types.twalk
    then walk n ops r
    else if type == Types.topen
    then open_fid n ops r
    else if type == Types.tcreate
    then create n ops r
    else if type == Types.tread
    then read n ops r
    else if type == Types.twrite
    then write n ops r
    else if type == Types.tclunk
    then clunk n ops r
    else if type == Types.tremove
    then remove r
    else if type == Types.tstat
    then stat r
    else if type == Types.twstat
    then wstat r
    else respond_error n ops r unknown_message_type

-- The outer switch.
unfoldable pub dispatch : ℕ → Ops → ReqPtr → Act (Unit {0})
unfolding on_fid
dispatch n ops r = do
  q ← get_req r
  let type = q.tc.type
  if type == Types.tversion
      then version n ops r
      else if type == Types.tauth
      then auth n ops r
      else if type == Types.tattach
      then attach n ops r
      else if type == Types.tflush
      then flush n ops r
      else elim q.fid [ none ↦ respond_error n ops r unknown_fid | some p ↦ on_fid n ops r type ]

unfoldable pub process_req : ℕ → Ops → ReqPtr → Act (Unit {0})
unfolding dispatch
process_req n ops r = do
  q ← get_req r
  if q.tc.fid == nofid || q.tc.type == Types.tattach then dispatch n ops r else do
    fid ← fid_get q.tc.fid
    put_req r (record q { fid = fid })
    elim fid [ none ↦ respond_error n ops r unknown_fid | some p ↦ dispatch n ops r ]

-- A request that was flushed is answered, and then processed all the same.
unfoldable pub process : ℕ → Ops → ReqPtr → Act (Unit {0})
unfolding process_req
process n ops r = do
  q ← get_req r
  put_req r (record q { is_work = if q.is_flush then q.is_work else true })
  if q.is_flush then respond n ops r else pure tt
  process_req n ops r
  q1 ← get_req r
  put_req r (record q1 { is_work = false; is_saved = q1.is_saved || not q1.is_responded })
