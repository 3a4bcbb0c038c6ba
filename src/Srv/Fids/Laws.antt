-- ===== src/Srv/Fids/Laws.antt =====
-- The fid table: the numbers in use, the references that are counted, and the table's invariant.
use chan.Prelude.{ℕ, suc, ◌≡◌, ◌≢◌, arith, true, Option, some}
use mathlib.Core.Path.{fun_ext}
use chan.Prelude.Int.{ℤ, pos, inc, dec, is_pos, dec-inc}
use chan.Srv.State.{FidPtr, Fid, Conn, Ops, done, pure, ◌>>=◌, ◌>>◌, update}
use chan.Srv.Fids.{inc_ref, dec_ref, got, fid_get}

pub update-same : {A : Type 0} (m : ℕ → Option A) (k : ℕ) (v : Option A) → update m k v k ≡ v
update-same m k v = ground arith

pub update-other :
    {A : Type 0} (m : ℕ → Option A) (k j : ℕ) (v : Option A) → k ≢ j → update m k v j ≡ m j
update-other m k j v h = ground arith

-- An entry that is written twice and ends as it was.
pub update-restored :
    {A : Type 0} (m : ℕ → Option A) (k : ℕ) (v w : Option A)
    → m k ≡ w
    → update (update m k v) k w ≡ m
update-restored m k v w h = fun_ext λ j. ground arith

-- The fid with another count, and the connection with that fid in its cell.
abbrev pub with_count : Fid → ℤ → Fid
with_count f count = record f { refcount = count }

abbrev pub set_cell : FidPtr → Fid → Conn → Conn
set_cell p f s = record s { fids = update s.fids p (some f) }

pub inc_ref_run :
    (s : Conn) (p : FidPtr) (f : Fid)
    → s.fids p ≡ some f
    → inc_ref p s ≡ done (tt, set_cell p (with_count f (inc f.refcount)) s)
unfolding inc_ref
inc_ref_run s p f h = rw h

pub dec_ref_stays :
    (ops : Ops) (s : Conn) (p : FidPtr) (f : Fid)
    → s.fids p ≡ some f
    → is_pos (dec f.refcount) ≡ true
    → dec_ref ops p s ≡ done (tt, set_cell p (with_count f (dec f.refcount)) s)
unfolding dec_ref
dec_ref_stays ops s p f h more = rw (h, more)

pub fid_get_run :
    (s : Conn) (fidno : ℕ) (p : FidPtr) (f : Fid)
    → s.fidpool fidno ≡ some p
    → s.fids p ≡ some f
    → fid_get fidno s ≡ done (some p, set_cell p (with_count f (inc f.refcount)) s)
unfolding fid_get got
fid_get_run s fidno p f known cell = rw (known, inc_ref_run s p f cell)

-- FidGet and then DecRef on what it found leave the connection exactly as it was, wherever the
-- fid that the number names has at least one reference.
pub fid_get-dec_ref :
    (ops : Ops) (s : Conn) (fidno : ℕ) (p : FidPtr) (f : Fid) (k : ℕ)
    → s.fidpool fidno ≡ some p
    → s.fids p ≡ some f
    → f.refcount ≡ pos (suc k)
    → (fid_get fidno >>= λ q. dec_ref ops p >> pure q) s ≡ done (some p, s)
fid_get-dec_ref ops s fidno p f k known cell count =
    let g = with_count f (inc f.refcount) in
    let s1 = set_cell p g s in
    let back : dec_ref ops p s1 ≡ done (tt, set_cell p (with_count g (dec g.refcount)) s1) =
      dec_ref_stays ops s1 p g (update-same s.fids p (some g)) (rw count) in
    let same : update s1.fids p (some (with_count g (dec g.refcount))) ≡ s.fids =
      update-restored s.fids p (some g) (some (with_count g (dec g.refcount)))
        (rw (cell, dec-inc f.refcount)) in
    rw (fid_get_run s fidno p f known cell, back, same)
