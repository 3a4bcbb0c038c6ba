-- ===== src/Srv/Handlers/Faults.antt =====
-- attach of p/srv/fcall.go goes on behind an error.
use chan.Prelude.{arith, ℕ, suc, ◌==◌, ◌≡◌, true, false, none, some}
use chan.Wire.Result.{ok}
use chan.Wire.Types
use chan.Wire.Types.{Bytes, Fcall, nofid}
use chan.Wire.PackR.{pack_rerror}
use chan.Srv.State.{ReqPtr, User, unknown_fid, Req, Conn, Ops, panic}
use chan.Srv.Fids.{got, fid_get, new_entry, fid_new, dec_ref, drop_fid}
use chan.Srv.Post.{post_handler, attach_post, dec_ref_of, post_process}
use chan.Srv.Respond.{unlink, send, start_next, finish, respond, respond_all, respond_error}
use chan.Srv.Handlers.Session.{find_user, attach_user, attach_afid, attach}

eq_true : (r : ℕ) → (r == r) ≡ true
eq_true r = ground arith

-- A Tattach that stands alone under its tag and has no response yet.
abbrev pub IsAloneAttach : Req → Type 0
IsAloneAttach q =
    (q.tc.type ≡ Types.tattach)
    × (q.is_responded ≡ false)
    × (q.prev ≡ none)
    × (q.flushreq ≡ none)
    × (q.afid ≡ none)
    × (q.newfid ≡ none)

-- A Tattach that stands alone under its tag, of a fid that is not in use, with another number for an
-- authentication fid that does not exist, ends the program with a nil dereference, where its user is
-- known and the error "unknown fid" can be packed.
pub attach_panics :
    (n : ℕ) (ops : Ops) (r : ReqPtr) (s : Conn) (q : Req) (rc : Fcall) (user : User)
    → s.requests r ≡ some q
    → IsAloneAttach q
    → (q.tc.fid == nofid) ≡ false
    → s.fidpool q.tc.fid ≡ none
    → (q.tc.afid == nofid) ≡ false
    → (q.tc.fid == q.tc.afid) ≡ false
    → s.fidpool q.tc.afid ≡ none
    → pack_rerror q.rc (ops.error_text unknown_fid) (ops.error_num unknown_fid) s.dotu ≡ ok rc
    → (rc.type == Types.rattach) ≡ false
    → find_user ops s.dotu q.tc ≡ some user
    → attach (suc (suc n)) ops r s ≡ panic
unfolding attach attach_afid attach_user fid_new new_entry fid_get got respond_error respond
    respond_all finish unlink send start_next post_process post_handler attach_post dec_ref_of
    dec_ref drop_fid
attach_panics n ops r s q rc user there (type, new, prev, flushreq, afid, newfid) fid absent named
      apart unknown packed other known =
    ground arith
