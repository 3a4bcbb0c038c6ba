-- ===== src/Srv/Fids.antt =====
-- The fid table of srv.go: IncRef, DecRef, FidGet and FidNew.
pub mod Laws
pub mod Table
use chan.Prelude.{ℕ, suc, ◌==◌, Bool, false, Option, none, some, List, [], ◌∷◌, ◌++◌, if◌then◌else◌}
use chan.Prelude.Int.{ℤ, pos, inc, dec, is_pos}
use chan.Srv.State.{
  FidPtr, Fid, Conn, Ops, Call, fid_destroy, Outcome, done, Act, pure, ◌>>=◌, ◌>>◌, gets, modify,
  update, deref, get_fid, put_fid,
}

abbrev pub call : Call → Act (Unit {0})
call c = modify λ s. record s { calls = s.calls ++ c ∷ [] }

unfoldable pub inc_ref : FidPtr → Act (Unit {0})
inc_ref p = do f ← get_fid p; put_fid p (record f { refcount = inc f.refcount })

-- The entry is taken out under the fid's number, and the file server is told.
unfoldable pub drop_fid : Ops → FidPtr → Fid → Act (Unit {0})
drop_fid ops p f = do
  modify λ s. record s { fidpool = update s.fidpool f.fid none }
  if ops.has_fid_ops then call (fid_destroy p) else pure tt

unfoldable pub dec_ref : Ops → FidPtr → Act (Unit {0})
unfolding drop_fid
dec_ref ops p = do
  f ← get_fid p
  let g = record f { refcount = dec f.refcount }
  put_fid p g
  if is_pos g.refcount then pure tt else drop_fid ops p g

-- `if present { fid.IncRef() }`
unfoldable pub got : Option FidPtr → Act (Option FidPtr)
unfolding inc_ref
got none = pure none
got (some p) = do inc_ref p; pure (some p)

unfoldable pub fid_get : ℕ → Act (Option FidPtr)
unfolding got
fid_get fidno = do present ← gets (λ s. s.fidpool fidno); got present

-- `new(Fid)` at a fresh cell, for an absent number.
unfoldable pub new_entry : ℕ → Option FidPtr → Act (Option FidPtr)
new_entry fidno (some p) = pure none
new_entry fidno none = do
  p ← gets (λ s. s.next_fid)
  modify λ s. record s {
    fids = update s.fids p (
        some (record {
          fid = fidno;
          refcount = pos 1;
          opened = false;
          omode = 0;
          type = 0;
          diroffset = 0;
          user = none;
        }));
    next_fid = suc p;
    fidpool = update s.fidpool fidno (some p);
  }
  pure (some p)

unfoldable pub fid_new : ℕ → Act (Option FidPtr)
unfolding new_entry
fid_new fidno = do present ← gets (λ s. s.fidpool fidno); new_entry fidno present
