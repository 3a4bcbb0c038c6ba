-- ===== src/Clnt/Rpc/Balance.antt =====
-- The requests of a client over any run of its calls, of the packets that come in, and of the end of
-- the connection.
use chan.Prelude.{
  ℕ, ◌<◌, ◌&&◌, ◌≡◌, ◌≢◌, refl, sym, ap, ◌∙◌, arith, Bool, true, false, none, some, List, [], ◌∷◌,
  ◌++◌, All, length, if◌then◌else◌,
}
use mathlib.Core.Path.{subst}
use chan.Prelude.Run.{Outcome, done, update}
use chan.Prelude.Distinct.{All-map, append-All, All-append, count-append, count-middle}
use chan.Wire.Result
use chan.Wire.Types.{Fcall}
use chan.Clnt.Rpc.{
  unmount, closed, ReqPtr, unexpected, protocol, connection, Clnt, rpcnb, answer, receive, close,
  read_failed,
}
use chan.Clnt.Rpc.Pending.{IsPending, done_of, rpcnb-IsPending}
use chan.Clnt.Rpc.Answers.{Answered, unasked, told, answer-Answered}
use chan.Clnt.Rpc.Closing.{HasDone}
use chan.Clnt.Rpc.Steps.{
  Step, call, held, packet, lost, unmounted, Reach, start, after, IsBalanced, IsEven, IsPatient,
  and_left, call-IsBalanced, closed-IsBalanced, held-IsBalanced,
}

same_end :
    {A : Type 0} (a b : A) (s s' : Clnt) (o : Outcome (A × Clnt))
    → o ≡ done (a, s)
    → o ≡ done (b, s')
    → s ≡ s'
same_end a b s s' o e e' = ap (λ w. end_of w s) (sym e ∙ e')
  where
    end_of : {A : Type 0} → Outcome (A × Clnt) → Clnt → Clnt
    end_of (done (a, x)) s = x
    end_of o s = s

receive_on :
    (frees : ReqPtr → Bool) (n : ℕ) (fc : Fcall) (s s' : Clnt)
    → answer n fc s ≡ done (true, s')
    → receive frees n (Result.ok fc) s ≡ done (true, s')
unfolding receive
receive_on frees n fc s s' run = rw run refl

receive_off :
    (frees : ReqPtr → Bool) (n : ℕ) (fc : Fcall) (s s1 s' : Clnt)
    → answer n fc s ≡ done (false, s1)
    → close frees n none s1 ≡ done (tt, s')
    → receive frees n (Result.ok fc) s ≡ done (false, s')
unfolding receive
receive_off frees n fc s s1 s' run run' = rw run (rw run' refl)

receive_error :
    (frees : ReqPtr → Bool) (n : ℕ) (e : Result.Error) (s s' : Clnt)
    → close frees n none (record s { err = some (protocol e) }) ≡ done (tt, s')
    → receive frees n (Result.err e) s ≡ done (false, s')
unfolding receive
receive_error frees n e s s' run = rw run refl

answer-IsBalanced :
    (b p : Bool) (frees : ReqPtr → Bool) (n : ℕ) (fc : Fcall) (s : Clnt) (rs gone : List ReqPtr)
    → IsPatient p frees
    → IsPending s rs
    → HasDone s.reqs rs
    → IsEven s rs gone
    → (b ≡ true → gone ≡ [])
    → length rs < n
    → Answered n fc s rs
    → (on : Bool) × (s' : Clnt) × (receive frees n (Result.ok fc) s ≡ done (on, s'))
      × IsBalanced (b && p) s'
answer-IsBalanced b p frees n fc s rs gone patient pending has even all enough (unasked _ run) =
    let (s', run', balanced) =
      closed-IsBalanced b p frees n none (record s { err = some unexpected }) rs gone patient
        pending has even all enough in
    (false, s', receive_off frees n fc s (record s { err = some unexpected }) s' run run', balanced)
answer-IsBalanced b p frees n fc s rs gone patient pending has even all enough
      (told xs ys r q s' parts cell _ _ run pending' _ sent out _ same) =
    let Has = λ (c : ReqPtr). done_of (s.reqs c) ≡ true in
    let (hx, (hr, hy)) = append-All Has xs (r ∷ ys) (subst (λ l. All Has l) parts has) in
    let told_r : q.has_done ≡ true = sym (ap done_of cell) ∙ hr in
    let sent' : s'.delivered ≡ s.delivered ++ r ∷ [] =
      sent ∙ ap (λ b. if b then s.delivered ++ r ∷ [] else s.delivered) told_r in
    (
      true,
      s',
      receive_on frees n fc s s' run,
      (
        xs ++ ys,
        gone,
        pending',
        All-map Has (λ c. done_of (s'.reqs c) ≡ true) (λ c h. same c ∙ h) (xs ++ ys)
            (All-append Has xs ys hx hy),
        (λ x.
            rw
              (
                out,
                sent',
                count-append x s.delivered (r ∷ []),
                even x,
                parts,
                count-middle x r xs ys,
              )
              omega arith),
        (λ e. all (and_left b p e)),
      ),
    )

-- A packet, where Unpack returns, and the fuel is more than the number of requests that wait: recv
-- dereferences no nil pointer, and the books stay balanced.
pub receive-IsBalanced :
    (b p : Bool) (frees : ReqPtr → Bool) (n : ℕ) (fc : Result.Result Fcall) (s : Clnt)
    → IsPatient p frees
    → IsBalanced b s
    → ((rs : List ReqPtr) → IsPending s rs → length rs < n)
    → fc ≢ Result.panic
    → (on : Bool) × (s' : Clnt) × (receive frees n fc s ≡ done (on, s')) × IsBalanced (b && p) s'
receive-IsBalanced b p frees n (Result.ok fc) s patient (rs, gone, pending, has, even, all) fuel
      some_fc =
    answer-IsBalanced b p frees n fc s rs gone patient pending has even all (fuel rs pending)
      (answer-Answered n fc s rs pending (fuel rs pending))
receive-IsBalanced b p frees n (Result.err e) s patient (rs, gone, pending, has, even, all) fuel
      some_fc =
    let (s', run, balanced) =
      closed-IsBalanced b p frees n none (record s { err = some (protocol e) }) rs gone patient
        pending has even all (fuel rs pending) in
    (false, s', receive_error frees n e s s' run, balanced)
receive-IsBalanced b p frees n Result.panic s patient _ fuel some_fc = absurd (some_fc refl)

lost_run :
    (frees : ReqPtr → Bool) (n : ℕ) (s s' : Clnt)
    → close frees n (some connection) (record s { err = some connection }) ≡ done (tt, s')
    → read_failed frees n true s ≡ done (tt, s')
unfolding read_failed
lost_run frees n s s' run = run

received :
    (frees : ReqPtr → Bool) (n : ℕ) (fc : Result.Result Fcall) (on : Bool) (s s' : Clnt)
    → receive frees n fc s ≡ done (on, s')
    → fc ≢ Result.panic
unfolding receive
received frees n (Result.ok fc) on s s' run e = cc
received frees n (Result.err x) on s s' run e = cc
received frees n Result.panic on s s' run e = cc

and_true : (b : Bool) → b && true ≡ b
and_true true = refl
and_true false = refl

Step-IsBalanced : (b p : Bool) (s s' : Clnt) → IsBalanced b s → Step s p s' → IsBalanced (b && p) s'
Step-IsBalanced b p s s' (rs, gone, pending, has, even, all)
      (call r q tc o cell free has_r ok outside run) =
    let (o', s2, run', called, sent, _, same) =
      rpcnb-IsPending s r q tc rs pending cell free ok (outside rs pending) in
    subst (λ c. IsBalanced c s') (sym (and_true b))
      (subst (IsBalanced b) (same_end o' o s2 s' (rpcnb r s) run' run) (
        call-IsBalanced b s.err o' s s2 r rs gone called has (ap done_of cell ∙ has_r) even all sent
          same))
Step-IsBalanced b p s s' balanced (held r q outside) =
    subst (λ c. IsBalanced c (record s { reqs = update s.reqs r q })) (sym (and_true b))
      (held-IsBalanced b s r q balanced outside)
Step-IsBalanced b p s s' balanced (packet frees _ n fc on patient fuel run) =
    let (on', s2, run', balanced') =
      receive-IsBalanced b p frees n fc s patient balanced fuel (received frees n fc on s s' run) in
    subst (IsBalanced (b && p)) (same_end on' on s2 s' (receive frees n fc s) run' run) balanced'
Step-IsBalanced b p s s' (rs, gone, pending, has, even, all) (lost frees _ n patient fuel run) =
    let (s2, run', balanced') =
      closed-IsBalanced b p frees n (some connection) (record s { err = some connection }) rs gone
        patient pending has even all (fuel rs pending) in
    subst (IsBalanced (b && p))
      (same_end tt tt s2 s' (read_failed frees n true s) (lost_run frees n s s2 run') run) balanced'
Step-IsBalanced b p s s' balanced (unmounted run) =
    subst (λ c. IsBalanced c s') (sym (and_true b))
      (subst (IsBalanced b)
        (same_end tt tt (record s { err = some closed }) s' (unmount s) refl run) balanced)

-- Over any run of calls of Rpcnb, of packets that come in, of failures of Read, of Unmount, and of changes
-- to requests that do not wait, from a client whose books are balanced with none missed: every
-- request that Rpcnb sent was told, waits, or was missed at the end of the connection, once for each time
-- it was sent; none is missed where no receiver frees its request before the loop at the end of recv goes
-- on from it.
pub Reach-IsBalanced :
    (s : Clnt) (b : Bool) (s' : Clnt) → IsBalanced true s → Reach s b s' → IsBalanced b s'
Reach-IsBalanced s b s' balanced start = balanced
Reach-IsBalanced s b s' balanced (after {b1} {p} {s1} run step) =
    Step-IsBalanced b1 p s1 s' (Reach-IsBalanced s b1 s1 balanced run) step
