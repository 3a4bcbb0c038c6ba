-- ===== src/Srv/Examples.antt =====
-- Runs of the server on a small connection.
mod Handlers
use chan.Prelude.{
  if◌then◌else◌, arith, ℕ, ◌≡◌, ◌≢◌, refl, sym, ap, true, false, none, some, [], ◌∷◌,
}
use chan.Prelude.Int.{pos, dec, is_pos}
use chan.Wire.Types
use chan.Wire.Types.{Qid, Fcall, zero_fcall}
use chan.Srv.State.{
  no_auth, Fid, Req, Conn, Ops, Outcome, done, panic, stuck, fid_destroy, fail, pure, ◌>>=◌, ◌>>◌,
  update,
}
use chan.Wire.Result.{ok}
use chan.Wire.Ints.{pint8, pint16, pint32, pstr, ◌⟫◌, stay, when, skip, copy}
use chan.Wire.Pack.{pack, pack_common}
use chan.Wire.PackR.{pack_rerror}
use chan.Srv.State.{too_large, unknown_fid, opened, bad_use, not_dir, perm, Call}
use chan.Srv.Respond.{respond_error, lookup}
use chan.Prelude.{◌==◌}
use chan.Srv.Respond.Alone.{respond_alone}
use chan.Srv.Handlers.Session.{find_user, attach, negotiated, dotu_version}
use chan.Srv.Handlers.Files.{read, write, walk, open_fid, create}
use chan.Srv.Handlers.Guards.{opened_refused, file_refused, directory_refused}
use chan.Srv.Handlers.Limits.{negotiated_lem, io-too_large, io-unlimited}
use chan.Srv.Handlers.Faults.{attach_panics}
use chan.Srv.Process.{process_req}
use chan.Srv.Process.Guards.{process_req-HasNoFid}
use chan.Prelude.{inr, ◌⊎◌, ◌≤◌}
use chan.Srv.Fids.{call, drop_fid, dec_ref, fid_get, fid_new}
use chan.Srv.Fids.Laws.{fid_get-dec_ref}
use chan.Srv.Fids.Table.{IsTable, fid_get-IsTable, dec_ref-IsTable, fid_new-IsTable}
use chan.Srv.Post.{post_handler, clunk_post, dec_ref_of, post_process}
use chan.Srv.Post.Frame.{SameRequests, post_handler-SameRequests}
use chan.Srv.Respond.{delete, unlink, send, start_next, finish, respond, respond_all}
use chan.Srv.Respond.Once.{IsOnce, respond-IsOnce}

-- A file server without options, whose users all exist.
abbrev pub plain_ops : Ops
plain_ops = record {
  srv_dotu = false;
  has_auth = false;
  has_flush = false;
  has_fid_ops = true;
  auth_init = λ f name. fail no_auth;
  auth_check = λ f a name. none;
  auth_read = λ f offset count. fail no_auth;
  auth_write = λ f offset bytes. fail no_auth;
  uid2user = λ id. some id;
  uname2user = λ name. some 0;
  error_text = λ e. 101 ∷ [];
  error_num = λ e. 22;
}

-- Fid 7, opened, with the table's reference.
abbrev pub file_fid : Fid
file_fid = record {
  fid = 7;
  refcount = pos 1;
  opened = true;
  omode = 0;
  type = 0;
  diroffset = 0;
  user = some 0;
}

-- A Tclunk of fid 7, and its Rclunk.
abbrev pub clunk_req : Req
clunk_req = record {
  tc = record zero_fcall { type = Types.tclunk; tag = 1; fid = 7 };
  rc = record zero_fcall { type = Types.rclunk; tag = 1 };
  fid = some 0;
  afid = none;
  newfid = none;
  is_flush = false;
  is_work = true;
  is_responded = false;
  is_saved = false;
  flushreq = none;
  prev = none;
  next = none;
}

abbrev pub start : Conn
start = record {
  msize = 8192;
  dotu = false;
  fids = update (λ p. none) 0 (some file_fid);
  next_fid = 1;
  fidpool = update (λ n. none) 7 (some 0);
  requests = update (λ r. none) 0 (some clunk_req);
  reqs = (1, 0) ∷ [];
  calls = [];
  reqout = [];
  ready = [];
}

-- The same while the clunk runs, with the request's own reference.
abbrev pub serving : Conn
serving = record start { fids = update (λ p. none) 0 (some (record file_fid { refcount = pos 2 })) }

start-IsTable : IsTable start
start-IsTable n p h =
    let number : 7 ≡ n = ground arith in
    let cell : 0 ≡ p = ground arith in
    (file_fid, ap start.fids (sym cell), number, refl, omega arith)

-- The state that a run ends in.
abbrev state_of : Outcome (Unit {0} × Conn) → Conn
state_of (done (u, s)) = s
state_of panic = start
state_of stuck = start

clunk_run :
    post_handler plain_ops clunk_req serving
    ≡ done (tt, state_of (post_handler plain_ops clunk_req serving))
unfolding post_handler clunk_post dec_ref_of dec_ref drop_fid
clunk_run = refl

respond_run : respond 3 plain_ops 0 serving ≡ done (tt, state_of (respond 3 plain_ops 0 serving))
unfolding respond respond_all finish unlink delete send start_next post_process post_handler
    clunk_post dec_ref_of dec_ref drop_fid
respond_run = refl

-- The clunk is answered, its fid is gone from the table, and the file server is told.
respond_effect :
    let s = state_of (respond 3 plain_ops 0 serving) in
    (s.reqout ≡ 0 ∷ []) × (s.fidpool 7 ≡ none) × (s.reqs ≡ []) × (s.calls ≡ fid_destroy 0 ∷ [])
unfolding respond respond_all finish unlink delete send start_next post_process post_handler
    clunk_post dec_ref_of dec_ref drop_fid
respond_effect = (refl, refl, refl, refl)

fid_get-dec_ref_example :
    (fid_get 7 >>= λ q. dec_ref plain_ops 0 >> pure q) start ≡ done (some 0, start)
fid_get-dec_ref_example = fid_get-dec_ref plain_ops start 7 0 file_fid 0 refl refl refl

fid_get-IsTable_example : (s' : Conn) × (fid_get 7 start ≡ done (start.fidpool 7, s')) × IsTable s'
fid_get-IsTable_example = fid_get-IsTable start 7 start-IsTable

dec_ref-IsTable_example :
    (s' : Conn) × (dec_ref plain_ops 0 start ≡ done (tt, s'))
    × (s'.fidpool 7 ≡ (if is_pos (dec (pos 1)) then start.fidpool 7 else none))
    × IsTable s'
dec_ref-IsTable_example = dec_ref-IsTable plain_ops start 0 file_fid start-IsTable refl

fid_new-IsTable_example :
    (s' : Conn) × (fid_new 9 start ≡ done (some 1, s'))
    × (s'.fidpool 9 ≡ some 1)
    × ((m : ℕ) → 9 ≢ m → (s'.fidpool m ≡ start.fidpool m) × (start.fidpool m ≢ some 1))
    × (fid_new 9 s' ≡ done (none, s'))
    × IsTable s'
fid_new-IsTable_example = fid_new-IsTable start 9 start-IsTable refl

post_handler-SameRequests_example :
    SameRequests serving (state_of (post_handler plain_ops clunk_req serving))
post_handler-SameRequests_example =
    post_handler-SameRequests plain_ops clunk_req serving tt
      (state_of (post_handler plain_ops clunk_req serving)) clunk_run

respond-IsOnce_example : IsOnce (state_of (respond 3 plain_ops 0 serving))
respond-IsOnce_example =
    respond-IsOnce plain_ops 3 0 serving (state_of (respond 3 plain_ops 0 serving))
      (λ r. omega arith) respond_run

respond_alone_example :
    (s' : Conn) × (respond 3 plain_ops 0 serving ≡ done (tt, s'))
    × (s'.reqout ≡ 0 ∷ [])
    × ((u : ℕ) → lookup s'.reqs u ≡ (if 1 == u then none else lookup ((1, 0) ∷ []) u))
respond_alone_example =
    respond_alone plain_ops 1 0 serving clunk_req refl refl refl refl (refl, refl, refl, refl)
