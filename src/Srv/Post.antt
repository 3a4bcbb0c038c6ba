-- ===== src/Srv/Post.antt =====
-- PostProcess of srv.go and the Post handlers of fcall.go, which run when a request is answered.
pub mod Frame
pub mod Runs
use chan.Prelude.{
  ℕ, zero, suc, ◌+◌, ◌-◌, ◌%◌, ◌^◌, ◌==◌, Bool, true, false, not, ◌&&◌, ◌||◌, Option, none, some,
  List, [], ◌∷◌, bit_and, if◌then◌else◌, length,
}
use chan.Wire.Types
use chan.Wire.Types.{Qid}
use chan.Srv.State.{
  FidPtr, ReqPtr, Fid, Req, Conn, Ops, Outcome, done, Act, pure, crash, ◌>>=◌, ◌>>◌, deref, get_fid,
  put_fid, get_req, put_req,
}
use chan.Srv.Fids.{inc_ref, dec_ref}

-- `fid.Type & p.QTDIR != 0`
abbrev pub is_dir : Fid → Bool
is_dir f = not (bit_and f.type 0x80 == 0)

unfoldable pub auth_post : Req → Act (Unit {0})
auth_post q = if q.rc.type == Types.rauth then (do p ← deref q.afid; inc_ref p) else pure tt

unfoldable pub attach_post : Req → Act (Unit {0})
attach_post q =
    if q.rc.type == Types.rattach
    then (do
      p ← deref q.fid
      f ← get_fid p
      put_fid p (record f { type = q.rc.qid.type })
      inc_ref p)
    else pure tt

-- `rc.Wqid[n-1].Type`, or the type of the walked fid when nothing was walked
unfoldable pub last_type : List Qid → ℕ → ℕ
last_type [] type = type
last_type (q ∷ qs) type = last_type qs q.type

unfoldable pub walked : Req → FidPtr → Act (Unit {0})
unfolding last_type
walked q n = do
  p ← deref q.fid
  f ← get_fid p
  g ← get_fid n
  put_fid n (record g { type = last_type q.rc.wqid f.type })
  let whole = length q.rc.wqid == length q.tc.wname
  if whole && not (g.fid == f.fid) then inc_ref n else pure tt

unfoldable pub walk_post : Req → Act (Unit {0})
unfolding walked
walk_post q =
    if q.rc.type == Types.rwalk
    then elim q.newfid [ none ↦ pure tt | some n ↦ walked q n ]
    else pure tt

unfoldable pub set_opened : FidPtr → Bool → Act (Unit {0})
set_opened p opened = do f ← get_fid p; put_fid p (record f { opened = opened })

unfoldable pub open_post : Req → Act (Unit {0})
unfolding set_opened
open_post q = elim q.fid [ none ↦ pure tt | some p ↦ set_opened p (q.rc.type == Types.ropen) ]

unfoldable pub created : Req → FidPtr → Act (Unit {0})
created q p = do f ← get_fid p; put_fid p (record f { type = q.rc.qid.type; opened = true })

unfoldable pub create_post : Req → Act (Unit {0})
unfolding created
create_post q =
    if q.rc.type == Types.rcreate
    then elim q.fid [ none ↦ pure tt | some p ↦ created q p ]
    else pure tt

unfoldable pub read_post : Req → Act (Unit {0})
read_post q =
    if q.rc.type == Types.rread
    then (do
      p ← deref q.fid
      f ← get_fid p
      if is_dir f
          then put_fid p (record f { diroffset = (f.diroffset + q.rc.count) % 2 ^ 64 })
          else pure tt)
    else pure tt

unfoldable pub dec_ref_of : Ops → Option FidPtr → Act (Unit {0})
dec_ref_of ops none = pure tt
dec_ref_of ops (some p) = dec_ref ops p

unfoldable pub clunk_post : Ops → Req → Act (Unit {0})
unfolding dec_ref_of
clunk_post ops q = if q.rc.type == Types.rclunk then dec_ref_of ops q.fid else pure tt

-- The reply's type is not looked at: a remove that failed drops the fid too.
unfoldable pub remove_post : Ops → Req → Act (Unit {0})
unfolding dec_ref_of
remove_post ops q = dec_ref_of ops q.fid

-- `switch req.Tc.Type`
unfoldable pub post_handler : Ops → Req → Act (Unit {0})
unfolding auth_post attach_post walk_post open_post create_post read_post clunk_post remove_post
post_handler ops q =
    let type = q.tc.type in
    if type == Types.tauth
    then auth_post q
    else if type == Types.tattach
    then attach_post q
    else if type == Types.twalk
    then walk_post q
    else if type == Types.topen
    then open_post q
    else if type == Types.tcreate
    then create_post q
    else if type == Types.tread
    then read_post q
    else if type == Types.tclunk
    then clunk_post ops q
    else if type == Types.tremove
    then remove_post ops q
    else pure tt

-- The three references of the request are given back.
unfoldable pub post_process : Ops → ReqPtr → Act (Unit {0})
unfolding post_handler dec_ref_of
post_process ops r = do
  q ← get_req r
  post_handler ops q
  dec_ref_of ops q.fid
  dec_ref_of ops q.afid
  dec_ref_of ops q.newfid
  q1 ← get_req r
  put_req r (record q1 { fid = none; afid = none; newfid = none })
