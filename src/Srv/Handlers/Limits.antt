-- ===== src/Srv/Handlers/Limits.antt =====
-- The message size: what Tversion settles, and how Tread and Twrite are held to it.
use chan.Prelude.{
  arith, ℕ, ◌+◌, ◌%◌, ◌^◌, ◌≤◌, ◌⊎◌, ◌<◌, ◌==◌, ltb-eq-true, ltb-eq-false, ◌≡◌, refl, true, false,
  some, [], ◌∷◌, bit_and,
}
use chan.Wire.Types.{Bytes, Fcall}
use chan.Srv.State.{FidPtr, ReqPtr, too_large, Fid, Req, Call, Conn, Ops}
use chan.Srv.Fids.{call}
use chan.Srv.Post.{is_dir}
use chan.Srv.Respond.{respond_error}
use chan.Srv.Handlers.Session.{bytes_eq, negotiated, dotu_version}
use chan.Srv.Handlers.Files.{exceeds_msize, is_auth, read, write}

bytes_eq_sound : (xs ys : Bytes) → bytes_eq xs ys ≡ true → xs ≡ ys
unfolding bytes_eq
bytes_eq_sound [] [] h = refl
bytes_eq_sound [] (y ∷ ys) h = absurd (ground arith)
bytes_eq_sound (x ∷ xs) [] h = absurd (ground arith)
bytes_eq_sound (x ∷ xs) (y ∷ ys) h =
    let head : x ≡ y = ground arith in
    let tail : bytes_eq xs ys ≡ true = ground arith in let rest = bytes_eq_sound xs ys tail in cc

-- Tversion settles a message size that neither side's exceeds and that is one of the two, and
-- 9P2000.u only where the client asked for it by its name and the server has it.
pub negotiated_lem :
    (ops : Ops) (s : Conn) (tc : Fcall)
    → ((negotiated ops s tc).msize ≤ tc.msize)
      × ((negotiated ops s tc).msize ≤ s.msize)
      × (((negotiated ops s tc).msize ≡ tc.msize) ⊎ ((negotiated ops s tc).msize ≡ s.msize))
      × ((negotiated ops s tc).dotu ≡ true → (tc.version ≡ dotu_version) × (ops.srv_dotu ≡ true))
unfolding negotiated
negotiated_lem ops s tc = (
  ground arith,
  ground arith,
  ground arith,
  λ h. (bytes_eq_sound tc.version dotu_version (ground arith), ground arith),
)

wrapped :
    (count msize : ℕ)
    → count < 2 ^ 32
    → 2 ^ 32 ≤ count + 24
    → 24 ≤ msize
    → exceeds_msize count msize ≡ false
wrapped count msize small big room =
    let left : (count + 24) % 2 ^ 32 ≤ msize = omega arith in
    ltb-eq-false msize ((count + 24) % 2 ^ 32) left

exceeds :
    (count msize : ℕ) → count + 24 < 2 ^ 32 → msize < count + 24 → exceeds_msize count msize ≡ true
exceeds count msize small more =
    let whole : (count + 24) % 2 ^ 32 ≡ count + 24 = omega arith in
    rw (whole, ltb-eq-true msize (count + 24) more)

-- A request whose fid is in a cell.
module _ (n : ℕ) (ops : Ops) (r : ReqPtr) (s : Conn) (q : Req) (p : FidPtr) (f : Fid)
    (there : s.requests r ≡ some q) (target : q.fid ≡ some p) (cell : s.fids p ≡ some f) where
  -- A read of a file and a write to a file that is opened for it, of more bytes than fit in a message
  -- behind the 24 that are kept for its header, are refused, where the count and 24 are below 2^32.
  pub io-too_large :
      q.tc.count + 24 < 2 ^ 32
      → s.msize < q.tc.count + 24
      → is_auth f ≡ false
      → is_dir f ≡ false
      → f.opened ≡ true
      → (bit_and f.omode 3 == 0) ≡ false
      → (read n ops r s ≡ respond_error n ops r too_large s)
        × (write n ops r s ≡ respond_error n ops r too_large s)
  unfolding read write
  io-too_large small more auth dir opened mode =
      let over = exceeds q.tc.count s.msize small more in
      (rw (there, target, cell, over), rw (there, target, cell, over, auth, dir, opened, mode))

  -- A read of a file and a write to a file that is opened for it are handed to the file server where
  -- the count in the message is 2^32 - 24 or more, whatever the message size from 24 on is.
  pub io-unlimited :
      q.tc.count < 2 ^ 32
      → 2 ^ 32 ≤ q.tc.count + 24
      → 24 ≤ s.msize
      → is_auth f ≡ false
      → is_dir f ≡ false
      → f.opened ≡ true
      → (bit_and f.omode 3 == 0) ≡ false
      → (read n ops r s ≡ call (Call.read r) s) × (write n ops r s ≡ call (Call.write r) s)
  unfolding read write
  io-unlimited small big room auth dir opened mode =
      let fits = wrapped q.tc.count s.msize small big room in
      (
        rw (there, target, cell, fits, auth, dir),
        rw (there, target, cell, fits, auth, dir, opened, mode),
      )
