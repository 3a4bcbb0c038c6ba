-- ===== src/Clnt/Rpc/Steps.antt =====
-- The steps of a client, and what they are to keep: which requests were told, wait, or were missed.
use chan.Prelude.{
  ℕ, ◌+◌, ◌<◌, ◌==◌, ◌&&◌, ◌≡◌, ◌≢◌, refl, sym, ap, ◌∙◌, arith, Bool, true, false, Option, none,
  some, List, [], ◌∷◌, ◌++◌, All, length, if◌then◌else◌,
}
use chan.Prelude.Run.{done, update}
use chan.Prelude.Distinct.{All-map, eq_other, All-append, count, count-append}
use chan.Prelude.Links.{IsSeg-same}
use chan.Wire.Result
use chan.Wire.Types.{Fcall, tversion, notag}
use chan.Wire.Pack.{set_tag}
use chan.Clnt.Rpc.{unmount, ReqPtr, ClntError, Req, Clnt, rpcnb, receive, close, read_failed}
use chan.Clnt.Rpc.Pending.{IsPending, req_links, done_of, Called}
use chan.Clnt.Rpc.Closing.{HasDone, close-IsPending, reached, missed, reached-missed, missed_none}

-- A step; the Bool says that no receiver freed a request before the loop at the end of recv went on from
-- it. Rpcnb is called with a request that waits for no answer, has no link and has a channel; who
-- holds a request that does not wait changes it as it likes, as ReqAlloc, ReqFree and the callers of
-- Rpcnb do; recv takes a packet, or Read fails, with enough fuel; Unmount.
pub data Step (s : Clnt) : Bool → Clnt → Type 0 where
  call :
      {s' : Clnt} (r : ReqPtr) (q : Req) (tc : Fcall) (o : Option ClntError)
      → s.reqs r ≡ some q
      → q.next ≡ none
      → q.has_done ≡ true
      → set_tag q.tc (if q.tc.type == tversion then notag else q.tag) ≡ Result.ok tc
      → ((rs : List ReqPtr) → IsPending s rs → All (λ c. c ≢ r) rs)
      → rpcnb r s ≡ done (o, s')
      → Step s true s'
  held :
      (r : ReqPtr) (q : Option Req)
      → ((rs : List ReqPtr) → IsPending s rs → All (λ c. c ≢ r) rs)
      → Step s true (record s { reqs = update s.reqs r q })
  packet :
      {s' : Clnt} (frees : ReqPtr → Bool) (patient : Bool) (n : ℕ) (fc : Result.Result Fcall)
      (on : Bool)
      → (patient ≡ true → (r : ReqPtr) → frees r ≡ false)
      → ((rs : List ReqPtr) → IsPending s rs → length rs < n)
      → receive frees n fc s ≡ done (on, s')
      → Step s patient s'
  lost :
      {s' : Clnt} (frees : ReqPtr → Bool) (patient : Bool) (n : ℕ)
      → (patient ≡ true → (r : ReqPtr) → frees r ≡ false)
      → ((rs : List ReqPtr) → IsPending s rs → length rs < n)
      → read_failed frees n true s ≡ done (tt, s')
      → Step s patient s'
  unmounted : {s' : Clnt} → unmount s ≡ done (tt, s') → Step s true s'

-- Whether no receiver was that early in a whole run.
pub data Reach (s : Clnt) : Bool → Clnt → Type 0 where
  start : Reach s true s
  after : {b1 p : Bool} {s1 s2 : Clnt} → Reach s b1 s1 → Step s1 p s2 → Reach s (b1 && p) s2

-- Some requests wait, each of them with a channel; what was sent to the server was told, or waits, or
-- was missed at the end of the connection, which cannot be where every receiver left the loop its time.
abbrev pub IsBalanced : Bool → Clnt → Type 0
IsBalanced patient s =
    (rs gone : List ReqPtr) × IsPending s rs
    × HasDone s.reqs rs
    × ((r : ReqPtr) → count r s.reqout ≡ count r s.delivered + count r rs + count r gone)
    × (patient ≡ true → gone ≡ [])

abbrev pub IsEven : Clnt → List ReqPtr → List ReqPtr → Type 0
IsEven s rs gone = (r : ReqPtr) → count r s.reqout ≡ count r s.delivered + count r rs + count r gone

abbrev pub IsPatient : Bool → (ReqPtr → Bool) → Type 0
IsPatient p frees = p ≡ true → (r : ReqPtr) → frees r ≡ false

pub and_left : (a b : Bool) → a && b ≡ true → a ≡ true
and_left true b e = refl
and_left false b e = e

pub and_right : (a b : Bool) → a && b ≡ true → b ≡ true
and_right true b e = e
and_right false b e = cc

pub call-IsBalanced :
    (b : Bool) (err o : Option ClntError) (s s' : Clnt) (r : ReqPtr) (rs gone : List ReqPtr)
    → Called s.reqout r rs err o s'
    → HasDone s.reqs rs
    → done_of (s.reqs r) ≡ true
    → IsEven s rs gone
    → (b ≡ true → gone ≡ [])
    → s'.delivered ≡ s.delivered
    → ((x : ReqPtr) → done_of (s'.reqs x) ≡ done_of (s.reqs x))
    → IsBalanced b s'
call-IsBalanced b (some e) o s s' r rs gone (_, pending, out) has has_r even all sent same = (
  rs,
  gone,
  pending,
  All-map (λ c. done_of (s.reqs c) ≡ true) (λ c. done_of (s'.reqs c) ≡ true) (λ c h. same c ∙ h) rs
      has,
  (λ x. rw (out, sent) (even x)),
  all,
)
call-IsBalanced b none o s s' r rs gone (_, pending, out) has has_r even all sent same = (
  rs ++ r ∷ [],
  gone,
  pending,
  All-map (λ c. done_of (s.reqs c) ≡ true) (λ c. done_of (s'.reqs c) ≡ true) (λ c h. same c ∙ h)
      (rs ++ r ∷ []) (All-append (λ c. done_of (s.reqs c) ≡ true) rs (r ∷ []) has (has_r, tt)),
  (λ x.
      rw (out, sent, count-append x s.reqout (r ∷ []), count-append x rs (r ∷ []), even x) omega
        arith),
  all,
)

pub closed-IsBalanced :
    (b p : Bool) (frees : ReqPtr → Bool) (n : ℕ) (err : Option ClntError) (s : Clnt)
    (rs gone : List ReqPtr)
    → IsPatient p frees
    → IsPending s rs
    → HasDone s.reqs rs
    → IsEven s rs gone
    → (b ≡ true → gone ≡ [])
    → length rs < n
    → (s' : Clnt) × (close frees n err s ≡ done (tt, s')) × IsBalanced (b && p) s'
closed-IsBalanced b p frees n err s rs gone patient pending has even all enough =
    let (s', run, none_left, sent, _, _, out, _) =
      close-IsPending frees n err s rs pending has enough in
    (
      s',
      run,
      (
        [],
        missed frees rs ++ gone,
        none_left,
        tt,
        (λ x.
            let parts : count x rs ≡ count x (reached frees rs) + count x (missed frees rs) =
              ap (λ l. count x l) (reached-missed frees rs)
              ∙ count-append x (reached frees rs) (missed frees rs) in
            rw
              (
                out,
                sent,
                count-append x s.delivered (reached frees rs),
                count-append x (missed frees rs) gone,
                even x,
                parts,
              )
              omega arith),
        (λ e. rw (missed_none frees rs (patient (and_right b p e))) (all (and_left b p e))),
      ),
    )

-- A request that does not wait is outside of the list.
pub held-IsBalanced :
    (b : Bool) (s : Clnt) (r : ReqPtr) (q : Option Req)
    → IsBalanced b s
    → ((rs : List ReqPtr) → IsPending s rs → All (λ c. c ≢ r) rs)
    → IsBalanced b (record s { reqs = update s.reqs r q })
held-IsBalanced b s r q (rs, gone, (linked, apart), has, even, all) outside =
    let same : All (λ x. update s.reqs r q x ≡ s.reqs x) rs =
      All-map (λ c. c ≢ r) (λ x. update s.reqs r q x ≡ s.reqs x)
        (λ x ne. rw (eq_other r x (λ e. ne (sym e))) refl) rs (outside rs (linked, apart)) in
    (
      rs,
      gone,
      (
        IsSeg-same req_links s.reqs (update s.reqs r q) none s.reqfirst s.reqlast none rs same
            linked,
        apart,
      ),
      All-and-map rs has same,
      even,
      all,
    )
  where
    All-and-map :
        (l : List ReqPtr)
        → HasDone s.reqs l
        → All (λ x. update s.reqs r q x ≡ s.reqs x) l
        → HasDone (update s.reqs r q) l
    All-and-map [] h e = tt
    All-and-map (x ∷ xs) (h, hs) (e, es) = (ap done_of e ∙ h, All-and-map xs hs es)
