-- ===== src/Srv/Respond.antt =====
-- Respond and Flush of srv.go, and the RespondR functions of respond.go.
-- A call of Respond answers the requests that wait to flush this one, and so on: the model counts
-- these calls with fuel.
pub mod Quiet
pub mod Once
pub mod Alone
use chan.Prelude.{
  ℕ, zero, suc, ◌+◌, ◌==◌, Bool, true, false, not, Option, none, some, List, [], ◌∷◌, ◌++◌,
  if◌then◌else◌,
}
use chan.Wire.Result
use chan.Wire.Types.{Bytes, Fcall}
use chan.Wire.PackR.{pack_rerror}
use chan.Srv.State.{
  FidPtr, ReqPtr, Error, wire, Fid, Req, Conn, Ops, Outcome, done, panic, stuck, Act, pure, crash,
  ◌>>=◌, ◌>>◌, gets, modify, deref, get_req, put_req,
}
use chan.Srv.Post.{post_process}

-- `conn.reqs[tag]`, and `delete(conn.reqs, tag)`
unfoldable pub lookup : List (ℕ × ReqPtr) → ℕ → Option ReqPtr
lookup [] tag = none
lookup ((t, r) ∷ m) tag = if t == tag then some r else lookup m tag

unfoldable pub delete : List (ℕ × ReqPtr) → ℕ → List (ℕ × ReqPtr)
delete [] tag = []
delete ((t, r) ∷ m) tag = let rest = delete m tag in if t == tag then rest else (t, r) ∷ rest

-- The last request of a chain of `flushreq`.
unfoldable pub last_flush : ℕ → ReqPtr → Act ReqPtr
last_flush zero r = λ s. stuck
last_flush (suc n) r = do q ← get_req r; elim q.flushreq [ none ↦ pure r | some f ↦ last_flush n f ]

-- The flush requests are moved to the next request of the tag.
unfoldable pub move_flushes : ℕ → ReqPtr → ReqPtr → Act (Unit {0})
move_flushes n next flushes = do
  q ← get_req next
  elim q.flushreq [
    | none ↦ put_req next (record q { flushreq = some flushes })
    | some f ↦ do l ← last_flush n f; p ← get_req l; put_req l (record p { next = some flushes })
  ]

-- "remove the request and all requests flushing it": the flushes to answer now.
unfoldable pub unlink : ℕ → Req → Act (Option ReqPtr)
unfolding move_flushes
unlink n q = elim q.prev [
  | none ↦ do modify λ s. record s { reqs = delete s.reqs q.tc.tag }; pure q.flushreq
  | some next ↦ do
    p ← get_req next
    put_req next (record p { next = none })
    elim q.flushreq [ none ↦ pure tt | some flushes ↦ move_flushes n next flushes ]
    pure none
]

-- `conn.reqout <- req`, unless the request was flushed
unfoldable pub send : ReqPtr → Bool → Act (Unit {0})
send r flushed = if flushed then pure tt else modify λ s. record s { reqout = s.reqout ++ r ∷ [] }

-- The next request with the same tag goes to a goroutine.
unfoldable pub start_next : Option ReqPtr → Act (Unit {0})
start_next none = pure tt
start_next (some next) = modify λ s. record s { ready = s.ready ++ next ∷ [] }

-- What Respond does with a request that has no response yet, before it answers the flushes.
unfoldable pub finish : Ops → ℕ → ReqPtr → Req → Act (Option ReqPtr)
unfolding unlink send start_next
finish ops n r q = do
  flushes ← unlink n q
  post_process ops r
  send r q.is_flush
  start_next q.prev
  pure flushes

unfoldable mutual
  unfolding finish

  pub respond : ℕ → Ops → ReqPtr → Act (Unit {0})
  respond zero ops r = λ s. stuck
  respond (suc n) ops r = do
    q ← get_req r
    put_req r (record q { is_responded = true; is_work = false })
    let go = (finish ops n r q >>= λ flushes. respond_all n ops flushes)
    if q.is_responded then pure tt else go

  pub respond_all : ℕ → Ops → Option ReqPtr → Act (Unit {0})
  respond_all zero ops f = λ s. stuck
  respond_all (suc n) ops none = pure tt
  respond_all (suc n) ops (some f) = do respond n ops f; q ← get_req f; respond_all n ops q.flushreq

-- The message of a Pack function, which leaves `fc` as it was where it returns an error.
abbrev pub unless_error : Result.Result Fcall → Fcall → Fcall
unless_error (Result.ok fc') fc = fc'
unless_error (Result.err e) fc = fc
unless_error Result.panic fc = fc

abbrev pub panics : Result.Result Fcall → Bool
panics (Result.ok fc) = false
panics (Result.err e) = false
panics Result.panic = true

-- The error of PackRerror is dropped.
unfoldable pub respond_error : ℕ → Ops → ReqPtr → Error → Act (Unit {0})
respond_error n ops r e = do
  q ← get_req r
  dotu ← gets (λ s. s.dotu)
  let packed = pack_rerror q.rc (ops.error_text e) (ops.error_num e) dotu
  if panics packed then crash else pure tt
  put_req r (record q { rc = unless_error packed q.rc })
  respond n ops r

-- The RespondR functions: pack the response, and answer with it or with the error of the packing.
unfoldable pub respond_packed : ℕ → Ops → ReqPtr → (Fcall → Result.Result Fcall) → Act (Unit {0})
unfolding respond_error
respond_packed n ops r pack = do
  q ← get_req r
  elim (pack q.rc) [
    | Result.ok rc ↦ do put_req r (record q { rc = rc }); respond n ops r
    | Result.err e ↦ respond_error n ops r (wire e)
    | Result.panic ↦ crash
  ]

-- `req.Flush()`
unfoldable pub flush_req : ℕ → Ops → ReqPtr → Act (Unit {0})
flush_req n ops r = do q ← get_req r; put_req r (record q { is_flush = true }); respond n ops r
