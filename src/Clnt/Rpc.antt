-- ===== src/Clnt/Rpc.antt =====
-- The requests of a client that wait for an answer: Rpcnb, and the part of recv that a response and the
-- end of the connection set off, of p/clnt/clnt.go.
-- A `*Req` is the number of its cell. What goes to the sender (`reqout`) and what is sent on the
-- channels Done (`delivered`) is recorded, in order; the lock is left out.
mod Examples
pub mod Pending
pub mod Answers
pub mod Balance
pub mod Steps
pub mod Closing
use chan.Prelude.{
  ℕ, zero, suc, ◌+◌, ◌%◌, ◌^◌, ◌==◌, ◌&&◌, Bool, true, false, not, Option, none, some, List, [],
  ◌∷◌, ◌++◌, if◌then◌else◌,
}
use chan.Prelude.Run.{Run, stuck, pure, crash, ◌>>=◌, ◌>>◌, gets, modify, deref, update}
use chan.Wire.Result
use chan.Wire.Types.{Bytes, Fcall, tversion, rerror, notag}
use chan.Wire.Pack.{set_tag}

abbrev pub ReqPtr : Type 0
ReqPtr = ℕ

-- The errors of a client: of the connection, of Unpack, "unexpected response", "invalid response",
-- "connection closed", and one that the server answered with.
pub data ClntError : Type 0 where
  connection unexpected invalid closed : ClntError
  protocol : Result.Error → ClntError
  answered : Bytes → ℕ → ClntError

pub record Req : Type 0 where
  pub tc : Fcall
  pub rc : Option Fcall
  pub err : Option ClntError
  pub has_done : Bool
  pub tag : ℕ
  pub prev : Option ReqPtr
  pub next : Option ReqPtr

pub record Clnt : Type 0 where
  pub reqs : ReqPtr → Option Req
  pub reqfirst : Option ReqPtr
  pub reqlast : Option ReqPtr
  pub err : Option ClntError
  pub reqout : List ReqPtr
  pub delivered : List ReqPtr

abbrev pub get_req : ReqPtr → Run Clnt Req
get_req r s = deref (s.reqs r) s

abbrev pub put_req : ReqPtr → Req → Run Clnt (Unit {0})
put_req r q = modify λ s. record s { reqs = update s.reqs r (some q) }

abbrev pub set_first : Option ReqPtr → Run Clnt (Unit {0})
set_first r = modify λ s. record s { reqfirst = r }

abbrev pub set_last : Option ReqPtr → Run Clnt (Unit {0})
set_last r = modify λ s. record s { reqlast = r }

-- `p.SetTag(r.Tc, tag)`
abbrev pub put_tagged : ReqPtr → Req → Result.Result Fcall → Run Clnt (Unit {0})
put_tagged r q (Result.ok tc) = put_req r (record q { tc = tc })
put_tagged r q (Result.err e) = crash
put_tagged r q Result.panic = crash

unfoldable pub tagged : ReqPtr → Req → Run Clnt (Unit {0})
tagged r q = put_tagged r q (set_tag q.tc (if q.tc.type == tversion then notag else q.tag))

-- `p.next = v`, or the list begins with `v`; `p.prev = v`, or the list ends with `v`.
abbrev pub link_on : Option ReqPtr → Option ReqPtr → Run Clnt (Unit {0})
link_on none v = set_first v
link_on (some p) v = do g ← get_req p; put_req p (record g { next = v })

abbrev pub link_back : Option ReqPtr → Option ReqPtr → Run Clnt (Unit {0})
link_back none v = set_last v
link_back (some p) v = do g ← get_req p; put_req p (record g { prev = v })

unfoldable pub enlist : ReqPtr → Run Clnt (Unit {0})
enlist r = do
  last ← gets (λ s. s.reqlast)
  link_on last (some r)
  q ← get_req r
  put_req r (record q { prev = last })
  set_last (some r)
  modify λ s. record s { reqout = s.reqout ++ r ∷ [] }

abbrev pub send_unless : Option ClntError → ReqPtr → Run Clnt (Option ClntError)
unfolding enlist
send_unless (some e) r = pure (some e)
send_unless none r = do enlist r; pure none

unfoldable pub rpcnb : ReqPtr → Run Clnt (Option ClntError)
unfolding tagged send_unless
rpcnb r = do q ← get_req r; tagged r q; err ← gets (λ s. s.err); send_unless err r

-- `for r = clnt.reqfirst; r != nil; r = r.next`, until one has the tag.
unfoldable pub with_tag : ℕ → ℕ → Option ReqPtr → Run Clnt (Option ReqPtr)
with_tag zero tag r = λ s. stuck
with_tag (suc n) tag none = pure none
with_tag (suc n) tag (some r) = do
  q ← get_req r
  if q.tc.tag == tag then pure (some r) else with_tag n tag q.next

unfoldable pub unlink : ReqPtr → Run Clnt (Unit {0})
unlink r = do q ← get_req r; link_on q.prev q.next; q1 ← get_req r; link_back q1.next q1.prev

-- The error of a response that is not the one to the request.
abbrev pub checked : Req → Fcall → Option ClntError
checked q fc =
    if q.tc.type == (fc.type + 0xff) % 2 ^ 8
    then q.err
    else if not (fc.type == rerror)
    then some invalid
    else elim q.err [ none ↦ some (answered fc.error fc.errornum) | some e ↦ some e ]

abbrev pub deliver : ReqPtr → Run Clnt (Unit {0})
deliver r = do
  q ← get_req r
  if q.has_done then (modify λ s. record s { delivered = s.delivered ++ r ∷ [] }) else pure tt

-- A response, behind Unpack: whether recv goes on.
unfoldable pub answer : ℕ → Fcall → Run Clnt Bool
unfolding with_tag unlink
answer n fc = do
  first ← gets (λ s. s.reqfirst)
  found ← with_tag n fc.tag first
  elim found [
    | none ↦ do modify λ s. record s { err = some unexpected }; pure false
    | some r ↦ do
      q ← get_req r
      put_req r (record q { rc = some fc })
      unlink r
      q1 ← get_req r
      put_req r (record q1 { err = checked q1 fc })
      deliver r
      pure true
  ]

-- What ReqFree does to the request. Tc, which it sets to nil, is left: it is read in the list only.
abbrev pub req_free : ReqPtr → Run Clnt (Unit {0})
req_free r = do
  q ← get_req r
  put_req r (record q { rc = none; err = none; has_done = false; next = none; prev = none })

-- Whoever waits on Done, as Rpc does, may free the request before the loop below goes on: `frees`
-- says of which requests.
abbrev pub picked_up : Bool → ReqPtr → Run Clnt (Unit {0})
picked_up false r = pure tt
picked_up true r = req_free r

-- `for ; r != nil; r = r.next { r.Err = err; r.Done <- r }`
unfoldable pub notify : (ReqPtr → Bool) → ℕ → Option ClntError → Option ReqPtr → Run Clnt (Unit {0})
notify frees zero err r = λ s. stuck
notify frees (suc n) err none = pure tt
notify frees (suc n) err (some r) = do
  q ← get_req r
  put_req r (record q { err = err })
  deliver r
  picked_up (q.has_done && frees r) r
  q1 ← get_req r
  notify frees n err q1.next

-- Behind the label `closed`, with the connection's error where Read returned one.
unfoldable pub close : (ReqPtr → Bool) → ℕ → Option ClntError → Run Clnt (Unit {0})
unfolding notify
close frees n err = do
  r ← gets (λ s. s.reqfirst)
  set_first none
  set_last none
  e ← gets (λ s. s.err)
  notify frees n (elim err [ none ↦ e | some x ↦ some x ]) r

-- What Unpack gave: whether recv goes on. Behind an error the list is closed.
unfoldable pub receive : (ReqPtr → Bool) → ℕ → Result.Result Fcall → Run Clnt Bool
unfolding answer close
receive frees n (Result.ok fc) = do
  on ← answer n fc
  if on then pure true else (do close frees n none; pure false)
receive frees n (Result.err e) = do
  modify λ s. record s { err = some (protocol e) }
  close frees n none
  pure false
receive frees n Result.panic = crash

-- Unmount: the calls behind it are refused, and Read fails on the closed connection.
abbrev pub unmount : Run Clnt (Unit {0})
unmount = modify λ s. record s { err = some closed }

-- Where Read failed, or returned no bytes: `oerr.Error()` is taken of an error that may be nil.
unfoldable pub read_failed : (ReqPtr → Bool) → ℕ → Bool → Run Clnt (Unit {0})
unfolding close
read_failed frees n has_error =
    if has_error
    then (do modify λ s. record s { err = some connection }; close frees n (some connection))
    else crash
