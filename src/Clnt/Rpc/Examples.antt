-- ===== src/Clnt/Rpc/Examples.antt =====
-- Runs of a client with two requests, of the tags 1 and 2.
use chan.Prelude.{
  ℕ, ◌<◌, ◌≡◌, ◌≢◌, refl, sym, ap, ◌∙◌, arith, Bool, true, false, ◌==◌, Option, none, some, List,
  [], ◌∷◌, ◌++◌, All, length,
}
use chan.Prelude.Run.{done, update}
use chan.Wire.Result
use chan.Wire.Types
use chan.Wire.Types.{Fcall, zero_fcall}
use chan.Wire.Pack.{set_tag}
use chan.Wire.Ints.{pint16, skip}
use chan.Clnt.Rpc.{
  ReqPtr, ClntError, Req, Clnt, rpcnb, answer, receive, close, read_failed, notify, connection,
  tagged, enlist, send_unless, unlink, with_tag,
}
use chan.Clnt.Rpc.Pending.{IsPending, done_of, rpcnb-IsPending, Called}
use chan.Clnt.Rpc.Answers.{Answered, answer-Answered}
use chan.Clnt.Rpc.Closing.{WasTold, close-IsPending}
use chan.Clnt.Rpc.Balance.{Reach-IsBalanced}
use chan.Clnt.Rpc.Steps.{call, packet, lost, start, after, IsBalanced}

-- Tclunk of the fid 7, as PackTclunk leaves it.
abbrev clunk_7 : Fcall
clunk_7 = record zero_fcall {
  size = 11;
  type = Types.tclunk;
  tag = Types.notag;
  fid = 7;
  pkt = 11 ∷ 0 ∷ 0 ∷ 0 ∷ 120 ∷ 255 ∷ 255 ∷ 7 ∷ 0 ∷ 0 ∷ 0 ∷ [];
  buf = 11 ∷ 0 ∷ 0 ∷ 0 ∷ 120 ∷ 255 ∷ 255 ∷ 7 ∷ 0 ∷ 0 ∷ 0 ∷ [];
}

abbrev clunk_tagged : ℕ → Fcall
clunk_tagged tag = record clunk_7 {
  tag = tag;
  pkt = 11 ∷ 0 ∷ 0 ∷ 0 ∷ 120 ∷ tag ∷ 0 ∷ 7 ∷ 0 ∷ 0 ∷ 0 ∷ [];
  buf = 11 ∷ 0 ∷ 0 ∷ 0 ∷ 120 ∷ tag ∷ 0 ∷ 7 ∷ 0 ∷ 0 ∷ 0 ∷ [];
}

abbrev waiting : ℕ → Req
waiting tag = record {
  tc = clunk_7;
  rc = none;
  err = none;
  has_done = true;
  tag = tag;
  prev = none;
  next = none;
}

-- No request waits yet; the requests 0 and 1 are allocated.
abbrev idle : Clnt
idle = record {
  reqs = update (update (λ p. none) 1 (some (waiting 2))) 0 (some (waiting 1));
  reqfirst = none;
  reqlast = none;
  err = none;
  reqout = [];
  delivered = [];
}

-- Both wait.
abbrev busy : Clnt
busy = record idle {
  reqs =
      update
        (update (λ p. none) 1 (some (record (waiting 2) { tc = clunk_tagged 2; prev = some 0 }))) 0
        (some (record (waiting 1) { tc = clunk_tagged 1; next = some 1 }));
  reqfirst = some 0;
  reqlast = some 1;
  reqout = 0 ∷ 1 ∷ [];
}

ne_01 : ◌≢◌ {A = ℕ} 0 1
ne_01 e = omega arith

ne_10 : ◌≢◌ {A = ℕ} 1 0
ne_10 e = omega arith

busy-IsPending : IsPending busy (0 ∷ 1 ∷ [])
busy-IsPending =
    ((refl, _, refl, refl, (refl, _, refl, refl, (refl, refl))), ((ne_01, tt), (tt, tt)))

-- Rclunk with the tag 2.
abbrev rclunk_2 : Fcall
rclunk_2 = record zero_fcall { type = Types.rclunk; tag = 2 }

answer-Answered_example : Answered 3 rclunk_2 busy (0 ∷ 1 ∷ [])
answer-Answered_example = answer-Answered 3 rclunk_2 busy (0 ∷ 1 ∷ []) busy-IsPending (omega arith)

-- The answer reaches the second request.
second_answered : (s' : Clnt) × (answer 3 rclunk_2 busy ≡ done (true, s')) × (s'.delivered ≡ 1 ∷ [])
unfolding answer with_tag unlink
second_answered = (_, refl, refl)

set_tag_run : set_tag clunk_7 2 ≡ Result.ok (clunk_tagged 2)
unfolding set_tag skip pint16
set_tag_run = refl

-- The receiver of the first request frees it before the loop goes on: the second is not told.
abbrev first_frees : ReqPtr → Bool
first_frees r = r == 0

close-IsPending_example :
    (s' : Clnt) × (close first_frees 3 none busy ≡ done (tt, s'))
    × IsPending s' []
    × (s'.delivered ≡ [] ++ 0 ∷ [])
    × All (WasTold first_frees s'.reqs none) (0 ∷ [])
    × ((x : ReqPtr) → All (λ c. c ≢ x) (0 ∷ []) → s'.reqs x ≡ busy.reqs x)
    × (s'.reqout ≡ 0 ∷ 1 ∷ [])
    × (s'.err ≡ none)
close-IsPending_example =
    close-IsPending first_frees 3 none busy (0 ∷ 1 ∷ []) busy-IsPending (refl, (refl, tt))
      (omega arith)

-- The first request waits, and Rpcnb is called with the second.
abbrev half : Clnt
half = record idle {
  reqs =
      update (update (λ p. none) 1 (some (waiting 2))) 0
        (some (record (waiting 1) { tc = clunk_tagged 1 }));
  reqfirst = some 0;
  reqlast = some 0;
  reqout = 0 ∷ [];
}

half-IsPending : IsPending half (0 ∷ [])
half-IsPending = ((refl, _, refl, refl, (refl, refl)), (tt, tt))

rpcnb-IsPending_example :
    (o : Option ClntError) × (s' : Clnt) × (rpcnb 1 half ≡ done (o, s'))
    × Called (0 ∷ []) 1 (0 ∷ []) none o s'
    × (s'.delivered ≡ [])
    × (s'.err ≡ none)
    × ((x : ReqPtr) → done_of (s'.reqs x) ≡ done_of (half.reqs x))
rpcnb-IsPending_example =
    rpcnb-IsPending half 1 (waiting 2) (clunk_tagged 2) (0 ∷ []) half-IsPending refl refl
      set_tag_run (ne_01, tt)

-- What can wait in `half` is the first request.
some_inj : (x y : ℕ) → some x ≡ some y → x ≡ y
some_inj x y e = cc

not_some : (x : ℕ) → ¬ (none ≡ some x)
not_some x e = cc

next_of : Option Req → Option ReqPtr
next_of none = none
next_of (some q) = q.next

half_waits : (rs : List ReqPtr) → IsPending half rs → All (λ c. c ≡ 0) rs × (length rs < 2)
unfolding next_of
half_waits [] _ = (tt, omega arith)
half_waits (c ∷ []) ((e, _, _, _, _), _) = ((sym (some_inj 0 c e), tt), omega arith)
half_waits (c ∷ d ∷ ds) ((e, q, cell, _, (on, _, _, _, _)), _) =
    let zero_c : 0 ≡ c = some_inj 0 c e in
    absurd (not_some d (ap next_of (ap half.reqs zero_c ∙ cell) ∙ on))

half-IsBalanced : IsBalanced true half
half-IsBalanced = (0 ∷ [], [], half-IsPending, (refl, tt), (λ r. omega arith), (λ e. refl))

-- Rclunk with the tag 1.
abbrev rclunk_1 : Fcall
rclunk_1 = record zero_fcall { type = Types.rclunk; tag = 1 }

-- The first request was answered.
abbrev answered_first : Clnt
answered_first = record half {
  reqs =
      update
        (update half.reqs 0 (some (record (waiting 1) { tc = clunk_tagged 1; rc = some rclunk_1 })))
        0 (some (record (waiting 1) { tc = clunk_tagged 1; rc = some rclunk_1 }));
  reqfirst = none;
  reqlast = none;
  delivered = 0 ∷ [];
}

none_waits : (rs : List ReqPtr) → IsPending answered_first rs → All (λ c. c ≢ 1) rs
none_waits [] _ = tt
none_waits (c ∷ cs) ((e, _, _, _, _), _) = absurd (not_some c e)

-- Then the second is sent.
abbrev sent_second : Clnt
sent_second = record answered_first {
  reqs =
      update (update answered_first.reqs 1 (some (record (waiting 2) { tc = clunk_tagged 2 }))) 1
        (some (record (waiting 2) { tc = clunk_tagged 2 }));
  reqfirst = some 1;
  reqlast = some 1;
  reqout = 0 ∷ 1 ∷ [];
}

-- No receiver is as early as that.
abbrev no_one : ReqPtr → Bool
no_one r = false

first_step : receive no_one 2 (Result.ok rclunk_1) half ≡ done (true, answered_first)
unfolding receive answer with_tag unlink
first_step = refl

second_step : rpcnb 1 answered_first ≡ done (none, sent_second)
unfolding rpcnb tagged enlist send_unless set_tag skip pint16
second_step = refl

-- Then the connection breaks, and the receiver of the second request frees it at once.
abbrev second_frees : ReqPtr → Bool
second_frees r = r == 1

abbrev broken : Clnt
broken = record sent_second {
  reqs =
      update
        (update sent_second.reqs 1
          (some (record (waiting 2) { tc = clunk_tagged 2; err = some connection })))
        1 (some (record (waiting 2) { tc = clunk_tagged 2; has_done = false }));
  reqfirst = none;
  reqlast = none;
  err = some connection;
  delivered = 0 ∷ 1 ∷ [];
}

one_waits : (rs : List ReqPtr) → IsPending sent_second rs → length rs < 2
unfolding next_of
one_waits [] _ = omega arith
one_waits (c ∷ []) _ = omega arith
one_waits (c ∷ d ∷ ds) ((e, q, cell, _, (on, _, _, _, _)), _) =
    let one_c : 1 ≡ c = some_inj 1 c e in
    absurd (not_some d (ap next_of (ap sent_second.reqs one_c ∙ cell) ∙ on))

third_step : read_failed second_frees 2 true sent_second ≡ done (tt, broken)
unfolding read_failed close notify
third_step = refl

is_false : false ≢ true
is_false e = cc

Reach-IsBalanced_example : IsBalanced false broken
Reach-IsBalanced_example = Reach-IsBalanced half false broken half-IsBalanced (
    after
      (after
        (after start (
          packet no_one true 2 (Result.ok rclunk_1) true (λ _ r. refl)
            (λ rs pending. (half_waits rs pending).1) first_step))
        (call 1 (waiting 2) (clunk_tagged 2) none refl refl refl set_tag_run none_waits
          second_step))
      (lost second_frees false 2 (λ e. absurd (is_false e)) one_waits third_step))
