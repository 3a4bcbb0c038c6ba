-- ===== src/Srv/Respond/Once.antt =====
-- Respond hands each request to the sender once at most.
use chan.Prelude.{
  arith, ℕ, zero, suc, ◌+◌, ◌≤◌, ◌==◌, ◌≡◌, refl, sym, ◌∙◌, true, false, Bool, Option, none, some,
  List, [], ◌∷◌, ◌++◌, if◌then◌else◌,
}
use mathlib.Core.Path.{subst}
use chan.Srv.State.{ReqPtr, Req, Conn, Ops, done, pure, ◌>>=◌, update, get_req}
use chan.Srv.Post.{post_process}
use chan.Srv.Respond.{unlink, send, start_next, finish, respond, respond_all}
use chan.Srv.Respond.Quiet.{
  answered, IsQuiet, quiet, read_req, put_req-IsQuiet, post_process-IsQuiet, unlink-IsQuiet,
}
use chan.Srv.Frame.{Change, Keeps, follow-done, bind-Keeps, pure-Keeps, modify-Keeps, deref-Keeps}

-- How often a request was handed to the sender.
abbrev pub count : ReqPtr → List ReqPtr → ℕ
count r [] = 0
count r (x ∷ xs) = (if x == r then 1 else 0) + count r xs

-- Every request that was handed to the sender has its response, and was handed to it once.
abbrev pub IsOnce : Conn → Type 0
IsOnce s = (r : ReqPtr) → count r s.reqout ≤ answered (s.requests r)

-- The same, where one request has its response and was not sent.
abbrev pub IsPending : ReqPtr → Conn → Type 0
IsPending r s = IsOnce s × (count r s.reqout ≡ 0) × (answered (s.requests r) ≡ 1)

abbrev pub once : Change
once = record {
  rel = λ s s'. IsOnce s → IsOnce s';
  unchanged = λ s h. h;
  chained = λ s t u f g h. g (f h);
}

pub quiet-IsOnce : (s s' : Conn) → IsQuiet s s' → IsOnce s → IsOnce s'
quiet-IsOnce s s' (out, same) ok r = rw (out, same r) (ok r)

quiet-IsPending : (r : ReqPtr) (s s' : Conn) → IsQuiet s s' → IsPending r s → IsPending r s'
quiet-IsPending r s s' (out, same) (ok, unsent, has) =
    (quiet-IsOnce s s' (out, same) ok, rw out unsent, same r ∙ has)

count-append :
    (r x : ReqPtr) (xs : List ReqPtr) → count r (xs ++ x ∷ []) ≡ count r xs + count r (x ∷ [])
count-append r x [] = omega arith
count-append r x (y ∷ xs) = omega (arith, count-append r x xs)

sent_once :
    (r j n m a : ℕ)
    → n ≤ a
    → (r ≡ j → (n ≡ 0) × (a ≡ 1))
    → m ≡ n + ((if r == j then 1 else 0) + 0)
    → m ≤ a
sent_once r j n m a ok here e = ground arith

sent-IsOnce :
    (r : ReqPtr) (s : Conn) → IsPending r s → IsOnce (record s { reqout = s.reqout ++ r ∷ [] })
sent-IsOnce r s (ok, unsent, has) j =
    sent_once r j (count j s.reqout) _ (answered (s.requests j)) (ok j)
      (λ e. subst (λ x. (count x s.reqout ≡ 0) × (answered (s.requests x) ≡ 1)) e (unsent, has))
      (count-append j r s.reqout)

send-IsOnce :
    (r : ReqPtr) (flushed : Bool) (s : Conn) (u : Unit {0}) (s' : Conn)
    → IsPending r s
    → send r flushed s ≡ done (u, s')
    → IsOnce s'
unfolding send
send-IsOnce r true s u s' pending h = pure-Keeps once tt s u s' h pending.0
send-IsOnce r false s u s' pending h =
    pure-Keeps once tt (record s { reqout = s.reqout ++ r ∷ [] }) u s' h (sent-IsOnce r s pending)

start_next-IsQuiet : (next : Option ReqPtr) → Keeps quiet (start_next next)
unfolding start_next
start_next-IsQuiet none = pure-Keeps quiet tt
start_next-IsQuiet (some next) = modify-Keeps quiet _ (λ s. (refl, λ r. refl))

finish-IsOnce :
    (ops : Ops) (n : ℕ) (r : ReqPtr) (q : Req) (s : Conn) (f : Option ReqPtr) (s' : Conn)
    → IsPending r s
    → finish ops n r q s ≡ done (f, s')
    → IsOnce s'
unfolding finish
finish-IsOnce ops n r q s f s' pending h =
    let (a, s1, h1, k1) = follow-done (unlink n q s) _ (f, s') h in
    let (b, s2, h2, k2) = follow-done (post_process ops r s1) _ (f, s') k1 in
    let (c, s3, h3, k3) = follow-done (send r q.is_flush s2) _ (f, s') k2 in
    let first = quiet-IsPending r s s1 (unlink-IsQuiet n q s a s1 h1) pending in
    let second = quiet-IsPending r s1 s2 (post_process-IsQuiet ops r s1 b s2 h2) first in
    quiet-IsOnce s3 s'
      (bind-Keeps quiet (start_next q.prev) _ (start_next-IsQuiet q.prev) (λ _. pure-Keeps quiet a)
        s3 f s' k3)
      (send-IsOnce r q.is_flush s2 c s3 second h3)

-- The state once the request is marked as answered.
abbrev pub marked : Conn → ReqPtr → Req → Conn
marked s r q = record s {
  requests = update s.requests r (some (record q { is_responded = true; is_work = false }));
}

marked-IsPending :
    (s : Conn) (r : ReqPtr) (q : Req)
    → s.requests r ≡ some q
    → q.is_responded ≡ false
    → IsOnce s
    → IsPending r (marked s r q)
marked-IsPending s r q there new ok =
    let zero-sent : count r s.reqout ≤ 0 = rw (there, new) at (ok r) in
    (λ j. ground (arith, zero-sent, ok j), omega arith, ground arith)

-- Respond from there on, where the flushes that wait keep the claim.
answer-IsOnce :
    (ops : Ops) (n : ℕ) (r : ReqPtr) (q : Req) (s : Conn) (u : Unit {0}) (s' : Conn) (b : Bool)
    → ((f : Option ReqPtr) → Keeps once (respond_all n ops f))
    → s.requests r ≡ some q
    → q.is_responded ≡ b
    → (if b then pure tt else (finish ops n r q >>= λ f. respond_all n ops f)) (marked s r q)
      ≡ done (u, s')
    → IsOnce s
    → IsOnce s'
answer-IsOnce ops n r q s u s' true later there had h ok =
    pure-Keeps once tt (marked s r q) u s' h (
      quiet-IsOnce s (marked s r q) (put_req-IsQuiet s r q _ tt (marked s r q) there (sym had) refl)
        ok)
answer-IsOnce ops n r q s u s' false later there new h ok =
    let (f, t, h1, k1) = follow-done (finish ops n r q (marked s r q)) _ (u, s') h in
    later f t u s' k1
      (finish-IsOnce ops n r q (marked s r q) f t (marked-IsPending s r q there new ok) h1)

flushes-IsOnce :
    (ops : Ops) (n : ℕ) (f : Option ReqPtr)
    → ((r : ReqPtr) → Keeps once (respond n ops r))
    → ((f : Option ReqPtr) → Keeps once (respond_all n ops f))
    → Keeps once (respond_all (suc n) ops f)
unfolding respond_all
flushes-IsOnce ops n none one all = pure-Keeps once tt
flushes-IsOnce ops n (some f) one all = bind-Keeps once (respond n ops f) _ (one f) λ _.
    bind-Keeps once (get_req f) _ (λ s q s' h. deref-Keeps once (s.requests f) s q s' h)
      λ q. all q.flushreq

-- Both functions, by the fuel: for one more call of Respond, and for the flushes that wait.
rounds-IsOnce :
    (ops : Ops) (n : ℕ)
    → ((r : ReqPtr) → Keeps once (respond n ops r))
      × ((f : Option ReqPtr) → Keeps once (respond_all n ops f))
unfolding respond respond_all
rounds-IsOnce ops zero = (λ r s u s' h. absurd (ground arith), λ f s u s' h. absurd (ground arith))
rounds-IsOnce ops (suc n) =
    let (one, all) = rounds-IsOnce ops n in
    (
      λ r s u s' h.
          let (q, t, h1, k1) = follow-done (get_req r s) _ (u, s') h in
          let (there, still) = read_req s t r q h1 in
          answer-IsOnce ops n r q s u s' q.is_responded all there refl (
            subst
              (λ x.
                (if q.is_responded
                    then pure tt
                    else (finish ops n r q >>= λ f. respond_all n ops f))
                  (marked x r q)
                ≡ done (u, s'))
              still k1),
      λ f. flushes-IsOnce ops n f one all,
    )

-- Whenever Respond returns, it keeps this: every request that was handed to the sender has its
-- response and was handed to it once. It holds for the request itself, the requests of the same tag and the flushes that wait,
-- whatever the file server and the fids are.
pub respond-IsOnce :
    (ops : Ops) (n : ℕ) (r : ReqPtr) (s s' : Conn)
    → IsOnce s
    → respond n ops r s ≡ done (tt, s')
    → IsOnce s'
respond-IsOnce ops n r s s' ok h = (rounds-IsOnce ops n).0 r s tt s' h ok
