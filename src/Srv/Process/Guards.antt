-- ===== src/Srv/Process/Guards.antt =====
-- What Process refuses before any handler runs.
use chan.Prelude.{
  arith, ℕ, ◌==◌, ◌≡◌, ◌⊎◌, inl, inr, refl, ap, ◌∙◌, Bool, true, false, not, ◌||◌, none, some,
}
use chan.Wire.Types
use chan.Wire.Types.{nofid}
use chan.Srv.State.{ReqPtr, unknown_fid, Req, Conn, Ops, update}
use chan.Srv.Fids.{fid_get, got}
use chan.Srv.Respond.{respond_error}
use chan.Srv.Process.{dispatch, process_req}

-- The types that may come without a fid.
abbrev pub needs_fid : ℕ → Bool
needs_fid type =
    not (
      type == Types.tversion
      || type == Types.tauth
      || type == Types.tattach
      || type == Types.tflush)

-- The fid that the request brings is missing: it is NOFID, or it is not in the table.
abbrev pub HasNoFid : Conn → Req → Type 0
HasNoFid s q =
    (((q.tc.fid == nofid) ≡ true) × (q.fid ≡ none))
    ⊎ (((q.tc.fid == nofid) ≡ false) × (s.fidpool q.tc.fid ≡ none))

-- A request of a type that needs a fid, and that brings NOFID or a number that is not in the table, is
-- answered with "unknown fid"; the request's fid is nil then, and the fids, the calls of the file
-- server and what was sent are as they were.
pub process_req-HasNoFid :
    (n : ℕ) (ops : Ops) (r : ReqPtr) (s : Conn) (q : Req)
    → s.requests r ≡ some q
    → needs_fid q.tc.type ≡ true
    → HasNoFid s q
    → (s' : Conn) × (process_req n ops r s ≡ respond_error n ops r unknown_fid s')
      × (s'.requests r ≡ some (record q { fid = none }))
      × (s'.calls ≡ s.calls)
      × (s'.fids ≡ s.fids)
      × (s'.reqout ≡ s.reqout)
unfolding process_req dispatch fid_get got
process_req-HasNoFid n ops r s q there type (inl (nofid, nil)) =
    (s, ground arith, there ∙ ap (λ o. some (record q { fid = o })) nil, refl, refl, refl)
process_req-HasNoFid n ops r s q there type (inr (named, absent)) = (
  record s { requests = update s.requests r (some (record q { fid = none })) },
  ground arith,
  ground arith,
  refl,
  refl,
  refl,
)
