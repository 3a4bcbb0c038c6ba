-- ===== src/Srv/Examples/Handlers.antt =====
-- Runs of the handlers on a small connection.
use chan.Prelude.{arith, ℕ, ◌≡◌, refl, true, false, none, some, [], ◌∷◌}
use chan.Prelude.Int.{pos}
use chan.Wire.Types
use chan.Wire.Types.{Qid, Fcall, zero_fcall}
use chan.Srv.State.{Fid, Req, Conn, panic, update}
use chan.Wire.Result.{ok}
use chan.Wire.Ints.{pint8, pint16, pint32, pstr, ◌⟫◌, stay, when, skip, copy}
use chan.Wire.Pack.{pack, pack_common}
use chan.Wire.PackR.{pack_rerror}
use chan.Srv.State.{too_large, unknown_fid, opened, bad_use, not_dir, perm, Call}
use chan.Srv.Respond.{respond_error}
use chan.Srv.Handlers.Session.{find_user, attach, negotiated, dotu_version}
use chan.Srv.Handlers.Files.{read, write, walk, open_fid, create}
use chan.Srv.Handlers.Guards.{opened_refused, file_refused, directory_refused}
use chan.Srv.Handlers.Limits.{negotiated_lem, io-too_large, io-unlimited}
use chan.Srv.Handlers.Faults.{attach_panics}
use chan.Srv.Process.{process_req}
use chan.Srv.Process.Guards.{process_req-HasNoFid}
use chan.Prelude.{inr, ◌⊎◌, ◌≤◌}
use chan.Srv.Fids.{call}
use chan.Srv.Examples.{plain_ops, file_fid, clunk_req, start, serving}

-- A Tattach of fid 9 with an authentication fid that does not exist, and room for its answer.
abbrev attach_req : Req
attach_req = record clunk_req {
  tc = record zero_fcall { type = Types.tattach; tag = 1; fid = 9; afid = 8; unamenum = 5 };
  rc = record zero_fcall { buf = 0 ∷ 0 ∷ 0 ∷ 0 ∷ 0 ∷ 0 ∷ 0 ∷ 0 ∷ 0 ∷ 0 ∷ 0 ∷ 0 ∷ [] };
  fid = none;
}

abbrev attaching : Conn
attaching = record start { requests = update (λ r. none) 0 (some attach_req) }

abbrev attach_error : Fcall
attach_error = record attach_req.rc {
  size = 10;
  type = Types.rerror;
  tag = 0xffff;
  error = 101 ∷ [];
  pkt = 10 ∷ 0 ∷ 0 ∷ 0 ∷ 107 ∷ 255 ∷ 255 ∷ 1 ∷ 0 ∷ 101 ∷ [];
  buf = 10 ∷ 0 ∷ 0 ∷ 0 ∷ 107 ∷ 255 ∷ 255 ∷ 1 ∷ 0 ∷ 101 ∷ 0 ∷ 0 ∷ [];
}

attach_packed : pack_rerror attach_req.rc (101 ∷ []) 22 false ≡ ok attach_error
unfolding pack_rerror pack pack_common pint32 pint8 pint16 pstr ◌⟫◌ stay when skip copy
attach_packed = refl

attach_user_known : find_user plain_ops false attach_req.tc ≡ some 5
unfolding find_user
attach_user_known = refl

attach_panics_example : attach 2 plain_ops 0 attaching ≡ panic
attach_panics_example =
    attach_panics 0 plain_ops 0 attaching attach_req attach_error 5 refl
      (refl, refl, refl, refl, refl, refl) refl refl refl refl refl attach_packed refl
      attach_user_known

-- A read of 2^32 - 1 bytes and one of 9000, from fid 7, which is opened for both reading and writing.
abbrev io_fid : Fid
io_fid = record file_fid { omode = 2 }

abbrev io_req : ℕ → Req
io_req count = record clunk_req {
  tc = record zero_fcall { type = Types.tread; tag = 1; fid = 7; count = count };
}

abbrev io_conn : ℕ → Conn
io_conn count = record start {
  fids = update (λ p. none) 0 (some io_fid);
  requests = update (λ r. none) 0 (some (io_req count));
}

io-too_large_example :
    (read 3 plain_ops 0 (io_conn 9000) ≡ respond_error 3 plain_ops 0 too_large (io_conn 9000))
    × (write 3 plain_ops 0 (io_conn 9000) ≡ respond_error 3 plain_ops 0 too_large (io_conn 9000))
io-too_large_example =
    io-too_large 3 plain_ops 0 (io_conn 9000) (io_req 9000) 0 io_fid refl refl refl (omega arith)
      (omega arith) refl refl refl refl

io-unlimited_example :
    (read 3 plain_ops 0 (io_conn 0xffffffff) ≡ call (Call.read 0) (io_conn 0xffffffff))
    × (write 3 plain_ops 0 (io_conn 0xffffffff) ≡ call (Call.write 0) (io_conn 0xffffffff))
io-unlimited_example =
    io-unlimited 3 plain_ops 0 (io_conn 0xffffffff) (io_req 0xffffffff) 0 io_fid refl refl refl
      (omega arith) (omega arith) (omega arith) refl refl refl refl

negotiated_lem_example :
    ((negotiated plain_ops start zero_fcall).msize ≤ 0)
    × ((negotiated plain_ops start zero_fcall).msize ≤ 8192)
    × (((negotiated plain_ops start zero_fcall).msize ≡ 0)
        ⊎ ((negotiated plain_ops start zero_fcall).msize ≡ 8192))
    × ((negotiated plain_ops start zero_fcall).dotu ≡ true → ([] ≡ dotu_version) × (false ≡ true))
negotiated_lem_example = negotiated_lem plain_ops start zero_fcall

-- A Tclunk of fid 6, which is not in the table.
abbrev stray_req : Req
stray_req = record clunk_req {
  tc = record zero_fcall { type = Types.tclunk; tag = 1; fid = 6 };
  fid = none;
}

abbrev stray : Conn
stray = record start { requests = update (λ r. none) 0 (some stray_req) }

process_req-HasNoFid_example :
    (s' : Conn) × (process_req 3 plain_ops 0 stray ≡ respond_error 3 plain_ops 0 unknown_fid s')
    × (s'.requests 0 ≡ some stray_req)
    × (s'.calls ≡ [])
    × (s'.fids ≡ stray.fids)
    × (s'.reqout ≡ [])
process_req-HasNoFid_example =
    process_req-HasNoFid 3 plain_ops 0 stray stray_req refl refl (inr (refl, refl))

opened_refused_example :
    (open_fid 3 plain_ops 0 serving ≡ respond_error 3 plain_ops 0 opened serving)
    × (create 3 plain_ops 0 serving ≡ respond_error 3 plain_ops 0 opened serving)
    × (walk 3 plain_ops 0 serving ≡ respond_error 3 plain_ops 0 bad_use serving)
opened_refused_example =
    opened_refused 3 plain_ops 0 serving clunk_req 0 (record file_fid { refcount = pos 2 }) refl
      refl refl refl

-- A closed file, and a directory, under a request with a name, a mode and a permission.
abbrev closed_fid : ℕ → Fid
closed_fid type = record file_fid { opened = false; type = type }

abbrev create_req : Req
create_req = record clunk_req {
  tc = record zero_fcall {
    type = Types.tcreate;
    fid = 7;
    newfid = 8;
    wname = (97 ∷ []) ∷ [];
    mode = 1;
    perm = 0x80000000;
  };
}

abbrev creating : ℕ → Conn
creating type = record start {
  fids = update (λ p. none) 0 (some (closed_fid type));
  requests = update (λ r. none) 0 (some create_req);
}

file_refused_example :
    (create 3 plain_ops 0 (creating 0) ≡ respond_error 3 plain_ops 0 not_dir (creating 0))
    × (walk 3 plain_ops 0 (creating 0) ≡ respond_error 3 plain_ops 0 not_dir (creating 0))
file_refused_example =
    file_refused 3 plain_ops 0 (creating 0) create_req 0 (closed_fid 0) refl refl refl refl
      (omega arith)

directory_refused_example :
    (open_fid 3 plain_ops 0 (creating 0x80) ≡ respond_error 3 plain_ops 0 perm (creating 0x80))
    × (create 3 plain_ops 0 (creating 0x80) ≡ respond_error 3 plain_ops 0 perm (creating 0x80))
directory_refused_example =
    directory_refused 3 plain_ops 0 (creating 0x80) create_req 0 (closed_fid 0x80) refl refl refl
      refl refl refl refl
