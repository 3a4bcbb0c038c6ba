-- ===== src/Srv/Handlers/Guards.antt =====
-- What the handlers of walk, open and create refuse, and that they change nothing then.
use chan.Prelude.{
  arith, ℕ, ◌<◌, ◌==◌, ltb, ◌≡◌, true, false, not, ◌&&◌, some, bit_and, if◌then◌else◌, length,
}
use chan.Srv.State.{FidPtr, ReqPtr, bad_use, opened, not_dir, perm, Fid, Req, Conn, Ops}
use chan.Srv.Post.{is_dir}
use chan.Srv.Respond.{respond_error}
use chan.Srv.Handlers.Files.{walk, open_fid, create}

-- A request whose fid is in a cell.
module _ (n : ℕ) (ops : Ops) (r : ReqPtr) (s : Conn) (q : Req) (p : FidPtr) (f : Fid)
    (there : s.requests r ≡ some q) (target : q.fid ≡ some p) (cell : s.fids p ≡ some f) where
  -- A fid that is opened is not opened again, no file is created in it, and it is neither walked nor
  -- cloned: the request is answered with an error, and nothing else changes.
  pub opened_refused :
      f.opened ≡ true
      → (open_fid n ops r s ≡ respond_error n ops r opened s)
        × (create n ops r s ≡ respond_error n ops r opened s)
        × (walk n ops r s
            ≡ respond_error n ops r
                (if ltb 0 (length q.tc.wname) && not (is_dir f) then not_dir else bad_use)
                s)
  unfolding open_fid create walk
  opened_refused is_open = (ground arith, ground arith, ground arith)

  -- In a file nothing is created, and no name is walked to from it: the request is answered with an
  -- error, and nothing else changes.
  pub file_refused :
      is_dir f ≡ false
      → 0 < length q.tc.wname
      → (create n ops r s ≡ respond_error n ops r (if f.opened then opened else not_dir) s)
        × (walk n ops r s ≡ respond_error n ops r not_dir s)
  unfolding create walk
  file_refused file names = (ground arith, ground arith)

  -- A directory that is not opened yet is not opened with a mode other than reading, and no
  -- directory is created in it with one: the request is answered with "permission denied", and nothing else changes.
  pub directory_refused :
      is_dir f ≡ true
      → f.opened ≡ false
      → (q.tc.mode == 0) ≡ false
      → (bit_and q.tc.perm 0x80000000 == 0) ≡ false
      → (open_fid n ops r s ≡ respond_error n ops r perm s)
        × (create n ops r s ≡ respond_error n ops r perm s)
  unfolding open_fid create
  directory_refused dir closed mode wants_dir = (ground arith, ground arith)
