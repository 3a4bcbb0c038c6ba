-- ===== src/Clnt/Rpc/Closing.antt =====
-- The end of the connection: which of the requests that wait are told.
use chan.Prelude.{
  ℕ, zero, suc, ◌<◌, ◌≡◌, ◌≢◌, refl, sym, ap, ◌∙◌, arith, Bool, true, false, Bool-cases, inl, inr,
  if◌then◌else◌, Option, none, some, List, [], ◌∷◌, ◌++◌, append-nil, append_assoc, All, length,
}
use mathlib.Core.Path.{subst}
use chan.Prelude.Run.{done, update}
use chan.Prelude.Distinct.{IsDistinct, All-map, eq_same, eq_other}
use chan.Prelude.Links.{IsSeg, IsSeg-update}
use chan.Clnt.Rpc.{ReqPtr, ClntError, Req, Clnt, notify, close}
use chan.Clnt.Rpc.Pending.{req_links, IsPending, done_of, done_of-update}
use chan.Clnt.Rpc.Answers.{deliver_run}

-- The requests have channels.
abbrev pub HasDone : (ReqPtr → Option Req) → List ReqPtr → Type 0
HasDone reqs rs = All (λ c. done_of (reqs c) ≡ true) rs

abbrev pub HasErr : (ReqPtr → Option Req) → Option ClntError → ReqPtr → Type 0
HasErr reqs err c = (q : Req) × (reqs c ≡ some q) × (q.err ≡ err)

-- The requests up to the first one that its receiver frees in time, with this one; and those behind.
abbrev pub reached : (ReqPtr → Bool) → List ReqPtr → List ReqPtr
reached frees [] = []
reached frees (c ∷ cs) = c ∷ (if frees c then [] else reached frees cs)

abbrev pub missed : (ReqPtr → Bool) → List ReqPtr → List ReqPtr
missed frees [] = []
missed frees (c ∷ cs) = if frees c then cs else missed frees cs

pub reached-missed :
    (frees : ReqPtr → Bool) (rs : List ReqPtr) → rs ≡ reached frees rs ++ missed frees rs
reached-missed frees [] = refl
reached-missed frees (c ∷ cs) = elim (Bool-cases (frees c)) [
  | inl freed ↦ rw freed refl
  | inr kept ↦ rw kept (ap (λ l. c ∷ l) (reached-missed frees cs))
]

pub missed_none :
    (frees : ReqPtr → Bool) (rs : List ReqPtr)
    → ((r : ReqPtr) → frees r ≡ false)
    → missed frees rs ≡ []
missed_none frees [] patient = refl
missed_none frees (c ∷ cs) patient = rw (patient c) (missed_none frees cs patient)

-- A request that was told has the error, where its receiver has not freed it.
abbrev pub WasTold : (ReqPtr → Bool) → (ReqPtr → Option Req) → Option ClntError → ReqPtr → Type 0
WasTold frees reqs err c = frees c ≡ false → HasErr reqs err c

abbrev freed_req : Req → Req
freed_req q = record q { rc = none; err = none; has_done = false; next = none; prev = none }

notify_kept :
    (frees : ReqPtr → Bool) (n : ℕ) (err : Option ClntError) (s : Clnt) (r : ReqPtr) (q : Req)
    → s.reqs r ≡ some q
    → q.has_done ≡ true
    → frees r ≡ false
    → notify frees (suc n) err (some r) s
      ≡ notify frees n err q.next (record s {
        reqs = update s.reqs r (some (record q { err = err }));
        delivered = s.delivered ++ r ∷ [];
      })
unfolding notify
notify_kept frees n err s r q cell e kept =
    rw
      (
        cell,
        deliver_run true (record s { reqs = update s.reqs r (some (record q { err = err })) }) r
            (record q { err = err }) (rw (eq_same r) refl) e,
        e,
        kept,
        eq_same r,
      )
      refl

notify_freed :
    (frees : ReqPtr → Bool) (n : ℕ) (err : Option ClntError) (s : Clnt) (r : ReqPtr) (q : Req)
    → s.reqs r ≡ some q
    → q.has_done ≡ true
    → frees r ≡ true
    → notify frees (suc (suc n)) err (some r) s
      ≡ done (
        tt,
        record s {
          reqs =
              update
                (update s.reqs r (some (record q { err = err })))
                r
                (some (freed_req (record q { err = err })));
          delivered = s.delivered ++ r ∷ [];
        },
      )
unfolding notify
notify_freed frees n err s r q cell e freed =
    rw
      (
        cell,
        deliver_run true (record s { reqs = update s.reqs r (some (record q { err = err })) }) r
            (record q { err = err }) (rw (eq_same r) refl) e,
        e,
        freed,
        eq_same r,
      )
      (rw (eq_same r) refl)

-- What the loop at the end of recv leaves.
abbrev Notified :
    (ReqPtr → Bool) → ℕ → Option ClntError → Option ReqPtr → List ReqPtr → Clnt → Type 0
Notified frees n err a rs s =
    (reqs : ReqPtr → Option Req) × (sent : List ReqPtr) × (notify frees n err a s
      ≡ done (tt, record s { reqs = reqs; delivered = sent }))
    × (sent ≡ s.delivered ++ reached frees rs)
    × All (WasTold frees reqs err) (reached frees rs)
    × ((x : ReqPtr) → All (λ c. c ≢ x) (reached frees rs) → reqs x ≡ s.reqs x)

true_ne : (b : Bool) → b ≡ true → b ≢ false
true_ne b e e' = cc

told_freed :
    (frees : ReqPtr → Bool) (n : ℕ) (err : Option ClntError) (s : Clnt) (c : ReqPtr)
    (cs : List ReqPtr) (q : Req)
    → s.reqs c ≡ some q
    → q.has_done ≡ true
    → frees c ≡ true
    → Notified frees (suc (suc n)) err (some c) (c ∷ cs) s
told_freed frees n err s c cs q cell has freed = (
  update (update s.reqs c (some (record q { err = err }))) c
      (some (freed_req (record q { err = err }))),
  s.delivered ++ c ∷ [],
  notify_freed frees n err s c q cell has freed,
  rw freed refl,
  rw freed ((λ kept. absurd (true_ne true refl kept)), tt),
  λ x (ne, nes). rw (eq_other c x ne) refl,
)

reached-All :
    (P : ReqPtr → Type 0) (frees : ReqPtr → Bool) (rs : List ReqPtr)
    → All P rs
    → All P (reached frees rs)
reached-All P frees [] h = tt
reached-All P frees (x ∷ xs) (h, hs) = elim (Bool-cases (frees x)) [
  | inl freed ↦ rw freed (h, tt)
  | inr kept ↦ rw kept (h, reached-All P frees xs hs)
]

-- The loop at the end of recv.
notify_them :
    (frees : ReqPtr → Bool) (n : ℕ) (err : Option ClntError) (p a l : Option ReqPtr)
    (rs : List ReqPtr) (s : Clnt)
    → IsSeg req_links s.reqs p a l none rs
    → IsDistinct rs
    → HasDone s.reqs rs
    → length rs < n
    → Notified frees n err a rs s
unfolding notify
notify_them frees zero err p a l rs s linked apart told enough = absurd (omega arith)
notify_them frees (suc n) err p a l [] s (e, _) apart told enough =
    (s.reqs, s.delivered, rw e refl, sym (append-nil s.delivered), tt, λ x _. refl)
notify_them frees (suc zero) err p a l (c ∷ cs) s linked apart told enough = absurd (omega arith)
notify_them frees (suc (suc n)) err p a l (c ∷ cs) s (e, q, cell, back, rest) (own, apart)
      (has, others) enough =
    let q' = record q { err = err } in
    let s1 : Clnt = record s {
      reqs = update s.reqs c (some q');
      delivered = s.delivered ++ c ∷ [];
    } in
    let (reqs, sent, run, all, errs, same) =
      notify_them frees (suc n) err (some c) q.next l cs s1
        (IsSeg-update req_links s.reqs c q q' (some c) q.next l none cs cell refl refl rest) apart
        (All-map (λ x. done_of (s.reqs x) ≡ true) (λ x. done_of (s1.reqs x) ≡ true)
          (λ x h. done_of-update s.reqs c q q' x cell refl ∙ h) cs others)
        (omega arith) in
    let has_q : q.has_done ≡ true = sym (ap done_of cell) ∙ has in
    elim (Bool-cases (frees c)) [
      | inl freed ↦
          subst (λ o. Notified frees (suc (suc n)) err o (c ∷ cs) s) (sym e)
            (told_freed frees n err s c cs q cell has_q freed)
      | inr kept ↦ (
        reqs,
        sent,
        ap (λ o. notify frees (suc (suc n)) err o s) e
            ∙ notify_kept frees (suc n) err s c q cell has_q kept
            ∙ run,
        rw kept (all ∙ append_assoc s.delivered (c ∷ []) (reached frees cs)),
        rw kept (
          (λ _. (
            q',
            same c (
                  reached-All (λ x. x ≢ c) frees cs
                    (All-map (λ x. c ≢ x) (λ x. x ≢ c) (λ x ne e. ne (sym e)) cs own))
                ∙ rw (eq_same c) refl,
            refl,
          )),
          errs,
        ),
        rw kept (λ x (ne, nes). same x nes ∙ rw (eq_other c x ne) refl),
      )
    ]

-- The error that the requests are told.
abbrev pub reason : Option ClntError → Option ClntError → Option ClntError
reason none e = e
reason (some x) e = some x

close_run :
    (frees : ReqPtr → Bool) (n : ℕ) (err : Option ClntError) (s : Clnt)
    → close frees n err s
      ≡ notify frees n (reason err s.err) s.reqfirst (record s { reqfirst = none; reqlast = none })
unfolding close
close_run frees n none s = refl
close_run frees n (some x) s = refl

-- The end of recv, where the requests that wait have channels, and the fuel is more than their number;
-- a receiver may free its request before the loop goes on from it. The requests are told in the order of
-- the calls, up to the first that is freed in time, with this one, or all of them where none is; those
-- told have the error of Read, or else the client's, unless they were freed; the requests behind are
-- never told and stay as they were, and none waits any more.
pub close-IsPending :
    (frees : ReqPtr → Bool) (n : ℕ) (err : Option ClntError) (s : Clnt) (rs : List ReqPtr)
    → IsPending s rs
    → HasDone s.reqs rs
    → length rs < n
    → (s' : Clnt) × (close frees n err s ≡ done (tt, s'))
      × IsPending s' []
      × (s'.delivered ≡ s.delivered ++ reached frees rs)
      × All (WasTold frees s'.reqs (reason err s.err)) (reached frees rs)
      × ((x : ReqPtr) → All (λ c. c ≢ x) (reached frees rs) → s'.reqs x ≡ s.reqs x)
      × (s'.reqout ≡ s.reqout)
      × (s'.err ≡ s.err)
close-IsPending frees n err s rs (linked, apart) told enough =
    let cut : Clnt = record s { reqfirst = none; reqlast = none } in
    let (reqs, sent, run, all, errs, same) =
      notify_them frees n (reason err s.err) none s.reqfirst s.reqlast rs cut linked apart told
        enough in
    (
      record cut { reqs = reqs; delivered = sent },
      close_run frees n err s ∙ run,
      ((refl, refl), tt),
      all,
      errs,
      same,
      refl,
      refl,
    )
