-- ===== src/Srv/Handlers/Files.antt =====
-- The handlers of p/srv/fcall.go on a fid: walk, open, create, read, write, clunk, remove, stat, wstat.
use chan.Prelude.{
  ℕ, ◌+◌, ◌%◌, ◌^◌, ◌==◌, ltb, Bool, not, ◌&&◌, ◌||◌, none, some, bit_and, if◌then◌else◌, length,
}
use chan.Wire.Result
use chan.Wire.PackR.{pack_rwrite, pack_rclunk, init_rread, set_rread_count, copy_data}
use chan.Srv.State.{
  FidPtr, ReqPtr, in_use, bad_use, opened, not_dir, perm, too_large, bad_offset, not_impl, wire,
  Fid, Call, Ops, answer, fail, Act, crash, ◌>>=◌, ◌>>◌, gets, deref, get_fid, put_fid, get_req,
  put_req,
}
use chan.Srv.Fids.{call, fid_new, inc_ref}
use chan.Srv.Post.{is_dir}
use chan.Srv.Respond.{respond, respond_error, respond_packed}

-- The fid to walk to: a new one, or the walked fid itself.
unfoldable pub walk_newfid : ℕ → Ops → ReqPtr → FidPtr → Fid → Act (Unit {0})
walk_newfid n ops r p f = do
  q ← get_req r
  if q.tc.fid == q.tc.newfid
      then (do put_req r (record q { newfid = some p }); inc_ref p; call (Call.walk r))
      else do
        new ← fid_new q.tc.newfid
        put_req r (record q { newfid = new })
        elim new [
          | none ↦ respond_error n ops r in_use
          | some m ↦ do
            g ← get_fid m
            put_fid m (record g { user = f.user; type = f.type })
            call (Call.walk r)
        ]

unfoldable pub walk : ℕ → Ops → ReqPtr → Act (Unit {0})
unfolding walk_newfid
walk n ops r = do
  q ← get_req r
  p ← deref q.fid
  f ← get_fid p
  if ltb 0 (length q.tc.wname) && not (is_dir f)
      then respond_error n ops r not_dir
      else if f.opened
      then respond_error n ops r bad_use
      else walk_newfid n ops r p f

unfoldable pub open_fid : ℕ → Ops → ReqPtr → Act (Unit {0})
open_fid n ops r = do
  q ← get_req r
  p ← deref q.fid
  f ← get_fid p
  if f.opened
      then respond_error n ops r opened
      else if is_dir f && not (q.tc.mode == 0)
      then respond_error n ops r perm
      else do put_fid p (record f { omode = q.tc.mode }); call (Call.open_op r)

-- `p.DMNAMEDPIPE|p.DMSYMLINK|p.DMLINK|p.DMDEVICE|p.DMSOCKET`
abbrev pub special_modes : ℕ
special_modes = 0x03b00000

unfoldable pub create : ℕ → Ops → ReqPtr → Act (Unit {0})
create n ops r = do
  q ← get_req r
  p ← deref q.fid
  f ← get_fid p
  dotu ← gets (λ s. s.dotu)
  if f.opened
      then respond_error n ops r opened
      else if not (is_dir f)
      then respond_error n ops r not_dir
      else if not (bit_and q.tc.perm 0x80000000 == 0) && not (q.tc.mode == 0)
      then respond_error n ops r perm
      else if not (bit_and q.tc.perm special_modes == 0) && not dotu
      then respond_error n ops r perm
      else do put_fid p (record f { omode = q.tc.mode }); call (Call.create r)

-- `fid.Type & p.QTAUTH != 0`
abbrev pub is_auth : Fid → Bool
is_auth f = not (bit_and f.type 0x08 == 0)

-- `tc.Count+p.IOHDRSZ > req.Conn.Msize`, in uint32
abbrev pub exceeds_msize : ℕ → ℕ → Bool
exceeds_msize count msize = ltb msize ((count + 24) % 2 ^ 32)

-- A read of an authentication fid.
unfoldable pub read_auth : ℕ → Ops → ReqPtr → Fid → Act (Unit {0})
read_auth n ops r f = do
  q ← get_req r
  elim (init_rread q.rc q.tc.count) [
    | Result.panic ↦ crash
    | Result.err e ↦ respond_error n ops r (wire e)
    | Result.ok rc ↦ do
      put_req r (record q { rc = rc })
      if ops.has_auth
          then elim (ops.auth_read f q.tc.offset q.tc.count) [
            | fail e ↦ respond_error n ops r e
            | answer bytes ↦ elim (set_rread_count (copy_data rc bytes) (length bytes % 2 ^ 32)) [
              | Result.ok rc1 ↦ do put_req r (record q { rc = rc1 }); respond n ops r
              | Result.err e ↦ crash
              | Result.panic ↦ crash
            ]
          ]
          else respond_error n ops r not_impl
  ]

-- A directory is read from the start or from where the last read ended.
unfoldable pub read_dir : ℕ → Ops → ReqPtr → FidPtr → Fid → Act (Unit {0})
read_dir n ops r p f = do
  q ← get_req r
  if q.tc.offset == 0
      then (do put_fid p (record f { diroffset = 0 }); call (Call.read r))
      else if q.tc.offset == f.diroffset
      then call (Call.read r)
      else respond_error n ops r bad_offset

unfoldable pub read : ℕ → Ops → ReqPtr → Act (Unit {0})
unfolding read_auth read_dir
read n ops r = do
  q ← get_req r
  p ← deref q.fid
  f ← get_fid p
  msize ← gets (λ s. s.msize)
  if exceeds_msize q.tc.count msize
      then respond_error n ops r too_large
      else if is_auth f
      then read_auth n ops r f
      else if is_dir f
      then read_dir n ops r p f
      else call (Call.read r)

unfoldable pub write_auth : ℕ → Ops → ReqPtr → Fid → Act (Unit {0})
write_auth n ops r f = do
  q ← get_req r
  if ops.has_auth
      then elim (ops.auth_write f q.tc.offset q.tc.dat) [
        | fail e ↦ respond_error n ops r e
        | answer count ↦ respond_packed n ops r (λ rc. pack_rwrite rc (count % 2 ^ 32))
      ]
      else respond_error n ops r not_impl

unfoldable pub write : ℕ → Ops → ReqPtr → Act (Unit {0})
unfolding write_auth
write n ops r = do
  q ← get_req r
  p ← deref q.fid
  f ← get_fid p
  msize ← gets (λ s. s.msize)
  if is_auth f
      then write_auth n ops r f
      else if not f.opened || is_dir f || bit_and f.omode 3 == 0
      then respond_error n ops r bad_use
      else if exceeds_msize q.tc.count msize
      then respond_error n ops r too_large
      else call (Call.write r)

unfoldable pub clunk : ℕ → Ops → ReqPtr → Act (Unit {0})
clunk n ops r = do
  q ← get_req r
  p ← deref q.fid
  f ← get_fid p
  if is_auth f
      then if ops.has_auth
        then (do call (Call.auth_destroy p); respond_packed n ops r pack_rclunk)
        else respond_error n ops r not_impl
      else call (Call.clunk r)

unfoldable pub remove : ReqPtr → Act (Unit {0})
remove r = call (Call.remove r)

unfoldable pub stat : ReqPtr → Act (Unit {0})
stat r = call (Call.stat r)

unfoldable pub wstat : ReqPtr → Act (Unit {0})
wstat r = call (Call.wstat r)
