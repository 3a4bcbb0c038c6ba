-- ===== src/Clnt/Rpc/Answers.antt =====
-- A response reaches the request that it is the answer to.
use chan.Prelude.{
  ℕ, ◌<◌, ◌==◌, ◌≡◌, ◌≢◌, refl, sym, ap, ◌∙◌, Bool, true, false, Option, none, some, List, [], ◌∷◌,
  ◌++◌, All, length, if◌then◌else◌,
}
use mathlib.Core.Path.{subst}
use chan.Prelude.Run.{done, update}
use chan.Prelude.Distinct.{IsApart-swap, All-map, append-IsDistinct, IsDistinct-append, eq_same}
use chan.Prelude.Links.{
  IsSeg-update, on_next, on_prev, on_next-other, on_prev-other, first_of, last_ptr, around,
}
use chan.Prelude.Links.Unlink.{end_cell, begin_cell, ends_other, begins_other, unlinked}
use chan.Wire.Types.{Fcall}
use chan.Clnt.Rpc.{
  ReqPtr, unexpected, Req, Clnt, link_on, link_back, unlink, with_tag, checked, deliver, answer,
}
use chan.Clnt.Rpc.Pending.{
  req_links, IsPending, HasNoTag, IsFirst, missing, found, with_tag-IsFirst, done_of,
  done_of-update,
}

link_on_run :
    (s : Clnt) (m b : Option ReqPtr)
    → ((c : ReqPtr) → m ≡ some c → (g : Req) × (s.reqs c ≡ some g))
    → (link_on m b s
        ≡ done (
          tt,
          record s {
            reqs = on_next req_links s.reqs m b;
            reqfirst = first_of req_links m b s.reqfirst;
          },
        ))
      × ((x : ReqPtr) → done_of (on_next req_links s.reqs m b x) ≡ done_of (s.reqs x))
link_on_run s none b cell = (refl, λ x. refl)
link_on_run s (some c) b cell =
    let (g, at) = cell c refl in
    (rw at refl, λ x. rw at (done_of-update s.reqs c g (record g { next = b }) x at refl))

link_back_run :
    (s : Clnt) (b m : Option ReqPtr)
    → ((c : ReqPtr) → b ≡ some c → (g : Req) × (s.reqs c ≡ some g))
    → (link_back b m s
        ≡ done (
          tt,
          record s {
            reqs = on_prev req_links s.reqs b m;
            reqlast = last_ptr req_links b m s.reqlast;
          },
        ))
      × ((x : ReqPtr) → done_of (on_prev req_links s.reqs b m x) ≡ done_of (s.reqs x))
link_back_run s none m cell = (refl, λ x. refl)
link_back_run s (some c) m cell =
    let (g, at) = cell c refl in
    (rw at refl, λ x. rw at (done_of-update s.reqs c g (record g { prev = m }) x at refl))

unlink_run :
    (s s1 s2 : Clnt) (r : ReqPtr) (q : Req)
    → s.reqs r ≡ some q
    → link_on q.prev q.next s ≡ done (tt, s1)
    → s1.reqs r ≡ some q
    → link_back q.next q.prev s1 ≡ done (tt, s2)
    → unlink r s ≡ done (tt, s2)
unfolding unlink
unlink_run s s1 s2 r q cell run1 cell1 run2 = rw cell (rw run1 (rw cell1 run2))

-- A request that waits is taken out.
pub unlink-IsPending :
    (s : Clnt) (r : ReqPtr) (q : Req) (xs ys : List ReqPtr)
    → IsPending s (xs ++ r ∷ ys)
    → s.reqs r ≡ some q
    → (s' : Clnt) × (unlink r s ≡ done (tt, s'))
      × IsPending s' (xs ++ ys)
      × (s'.reqs r ≡ some q)
      × (s'.reqout ≡ s.reqout)
      × (s'.delivered ≡ s.delivered)
      × (s'.err ≡ s.err)
      × ((x : ReqPtr) → done_of (s'.reqs x) ≡ done_of (s.reqs x))
unlink-IsPending s r q xs ys (linked, apart) cell =
    let m = q.prev in
    let b = q.next in
    let h = s.reqs in
    let (sx, sy) = around req_links h s.reqfirst s.reqlast xs r ys q linked cell in
    let (dx, ((ry, dy), across)) = append-IsDistinct xs (r ∷ ys) apart in
    let b_r = begins_other req_links h s.reqfirst s.reqlast xs r ys q linked apart cell r ry in
    let m_r =
      ends_other req_links h s.reqfirst s.reqlast xs r ys q linked apart cell r
        (All-map (λ x. (x ≢ r) × All (λ y. x ≢ y) ys) (λ x. x ≢ r) (λ x h. h.0) xs across) in
    let (run1, same1) = link_on_run s m b (λ c e.
      let (g, at, _) =
        end_cell req_links h s.reqfirst m (some r) xs c (λ x. (x ≢ r) × All (λ y. x ≢ y) ys) sx e
          across in
      (g, at)) in
    let h1 = on_next req_links h m b in
    let s1 : Clnt = record s { reqs = h1; reqfirst = first_of req_links m b s.reqfirst } in
    let between =
      All-map (λ x. (x ≢ r) × All (λ y. x ≢ y) ys) (λ x. All (λ y. x ≢ y) ys) (λ x h. h.1) xs
        across in
    let (run2, same2) = link_back_run s1 b m (λ c e.
      let (g, at, behind) =
        begin_cell req_links h (some r) b s.reqlast ys c (λ y. All (λ x. x ≢ y) xs) sy e
          (IsApart-swap xs ys between) in
      (
        g,
        on_next-other req_links h m b c
              (ends_other req_links h s.reqfirst s.reqlast xs r ys q linked apart cell c behind)
            ∙ at,
      )) in
    let cell1 : h1 r ≡ some q = on_next-other req_links h m b r m_r ∙ cell in
    (
      record s1 { reqs = on_prev req_links h1 b m; reqlast = last_ptr req_links b m s.reqlast },
      unlink_run s s1
          (record s1 {
            reqs = on_prev req_links h1 b m;
            reqlast = last_ptr req_links b m s.reqlast;
          })
          r q cell run1 cell1 run2,
      (
        unlinked req_links h s.reqfirst s.reqlast xs r ys q linked apart cell,
        IsDistinct-append xs ys dx dy between,
      ),
      on_prev-other req_links h1 b m r b_r ∙ cell1,
      refl,
      refl,
      refl,
      λ x. same2 x ∙ same1 x,
    )

-- What a response comes to: no request waits for its tag, and recv ends with an error; or the first
-- that does has the response and the error that `checked` gives, waits no longer, and is sent on its
-- channel where it has one.
pub data Answered (n : ℕ) (fc : Fcall) (s : Clnt) (rs : List ReqPtr) : Type 0 where
  unasked :
      All (HasNoTag s.reqs fc.tag) rs
      → answer n fc s ≡ done (false, record s { err = some unexpected })
      → Answered n fc s rs
  told :
      (xs ys : List ReqPtr) (r : ReqPtr) (q : Req) (s' : Clnt)
      → rs ≡ xs ++ r ∷ ys
      → s.reqs r ≡ some q
      → q.tc.tag == fc.tag ≡ true
      → All (HasNoTag s.reqs fc.tag) xs
      → answer n fc s ≡ done (true, s')
      → IsPending s' (xs ++ ys)
      → s'.reqs r ≡ some (record q { rc = some fc; err = checked q fc })
      → s'.delivered ≡ (if q.has_done then s.delivered ++ r ∷ [] else s.delivered)
      → s'.reqout ≡ s.reqout
      → s'.err ≡ s.err
      → ((x : ReqPtr) → done_of (s'.reqs x) ≡ done_of (s.reqs x))
      → Answered n fc s rs

-- The run of a response that is asked for, from the request's cell on.
pub deliver_run :
    (b : Bool) (s : Clnt) (r : ReqPtr) (q : Req)
    → s.reqs r ≡ some q
    → q.has_done ≡ b
    → deliver r s
      ≡ done (tt, record s { delivered = if b then s.delivered ++ r ∷ [] else s.delivered })
deliver_run true s r q cell e = rw (cell, e) refl
deliver_run false s r q cell e = rw (cell, e) refl

answer_run :
    (n : ℕ) (fc : Fcall) (s s1 o : Clnt) (r : ReqPtr) (q q1 : Req)
    → with_tag n fc.tag s.reqfirst s ≡ done (some r, s)
    → s.reqs r ≡ some q
    → unlink r (record s { reqs = update s.reqs r (some (record q { rc = some fc })) })
      ≡ done (tt, s1)
    → s1.reqs r ≡ some q1
    → deliver r (record s1 { reqs = update s1.reqs r (some (record q1 { err = checked q1 fc })) })
      ≡ done (tt, o)
    → answer n fc s ≡ done (true, o)
unfolding answer
answer_run n fc s s1 o r q q1 run0 cell run1 cell1 run2 =
    rw run0 (rw cell (rw run1 (rw cell1 (rw run2 refl))))

unasked_run :
    (n : ℕ) (fc : Fcall) (s : Clnt)
    → with_tag n fc.tag s.reqfirst s ≡ done (none, s)
    → answer n fc s ≡ done (false, record s { err = some unexpected })
unfolding answer
unasked_run n fc s run = rw run refl

reached :
    (n : ℕ) (fc : Fcall) (s : Clnt) (xs ys : List ReqPtr) (r : ReqPtr) (q : Req)
    → IsPending s (xs ++ r ∷ ys)
    → s.reqs r ≡ some q
    → q.tc.tag == fc.tag ≡ true
    → All (HasNoTag s.reqs fc.tag) xs
    → with_tag n fc.tag s.reqfirst s ≡ done (some r, s)
    → Answered n fc s (xs ++ r ∷ ys)
reached n fc s xs ys r q (linked, apart) cell hit before run0 =
    let q1 = record q { rc = some fc } in
    let q2 = record q1 { err = checked q1 fc } in
    let s1 : Clnt = record s { reqs = update s.reqs r (some q1) } in
    let (s2, run1, (linked2, apart2), cell2, out, told_so, err, same) =
      unlink-IsPending s1 r q1 xs ys
        (
          IsSeg-update req_links s.reqs r q q1 none s.reqfirst s.reqlast none (xs ++ r ∷ ys) cell
              refl refl linked,
          apart,
        )
        (rw (eq_same r) refl) in
    let s3 : Clnt = record s2 { reqs = update s2.reqs r (some q2) } in
    let s4 : Clnt = record s3 {
      delivered = if q.has_done then s3.delivered ++ r ∷ [] else s3.delivered;
    } in
    told xs ys r q s4 refl cell hit before
      (answer_run n fc s s2 s4 r q q1 run0 cell run1 cell2
        (deliver_run q.has_done s3 r q2 (rw (eq_same r) refl) refl))
      (
        IsSeg-update req_links s2.reqs r q1 q2 none s2.reqfirst s2.reqlast none (xs ++ ys) cell2
            refl refl linked2,
        apart2,
      )
      (rw (eq_same r) refl) (ap (λ l. if q.has_done then l ++ r ∷ [] else l) told_so) out err
      (λ x.
        done_of-update s2.reqs r q1 q2 x cell2 refl
        ∙ same x
        ∙ done_of-update s.reqs r q q1 x cell refl)

-- A response, where the fuel is more than the number of requests that wait: recv dereferences no nil
-- pointer; the first request with the response's tag has it, is told, and waits no longer, and the
-- others keep their order; where none has the tag, recv ends with the error "unexpected response".
pub answer-Answered :
    (n : ℕ) (fc : Fcall) (s : Clnt) (rs : List ReqPtr)
    → IsPending s rs
    → length rs < n
    → Answered n fc s rs
answer-Answered n fc s rs (linked, apart) enough =
    let (o, run, first) = with_tag-IsFirst n fc.tag none s.reqfirst s.reqlast rs s linked enough in
    split o rs run (linked, apart) first
  where
    split :
        (o : Option ReqPtr) (rs : List ReqPtr)
        → with_tag n fc.tag s.reqfirst s ≡ done (o, s)
        → IsPending s rs
        → IsFirst s.reqs fc.tag rs o
        → Answered n fc s rs
    split o rs run pending (missing e others) =
        unasked others (unasked_run n fc s (run ∙ ap (λ o. done (o, s)) e))
    split o rs run pending (found xs ys r q e parts cell hit before) =
        subst (λ rs. Answered n fc s rs) (sym parts)
          (reached n fc s xs ys r q (subst (λ rs. IsPending s rs) parts pending) cell hit before
            (run ∙ ap (λ o. done (o, s)) e))
