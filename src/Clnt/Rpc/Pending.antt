-- ===== src/Clnt/Rpc/Pending.antt =====
-- The requests that wait, as a list; Rpcnb puts a request behind them.
use chan.Prelude.{
  ℕ, zero, suc, ◌<◌, ◌==◌, ◌≡◌, ◌≢◌, refl, sym, ap, ◌∙◌, arith, Bool, true, false, Bool-cases, inl,
  inr, Option, none, some, List, [], ◌∷◌, ◌++◌, All, length, if◌then◌else◌,
}
use mathlib.Core.Path.{subst}
use chan.Prelude.Run.{done, update}
use chan.Prelude.Distinct.{
  IsDistinct, last_of, last-All, All-map, IsDistinct-append, eq_same, eq_other, eq_cases,
}
use chan.Prelude.Links.{Links, IsSeg, IsSeg-same, last_lem, first_of, on_next, appended}
use chan.Wire.Result
use chan.Wire.Types.{Fcall, tversion, notag}
use chan.Wire.Pack.{set_tag}
use chan.Clnt.Rpc.{
  ReqPtr, ClntError, Req, Clnt, put_tagged, tagged, enlist, send_unless, rpcnb, with_tag,
}

abbrev pub req_links : Links Req
req_links = record {
  next = λ g. g.next;
  prev = λ g. g.prev;
  set_next = λ v g. record g { next = v };
  set_prev = λ v g. record g { prev = v };
  next-set_next = λ v g. refl;
  prev-set_next = λ v g. refl;
  next-set_prev = λ v g. refl;
  prev-set_prev = λ v g. refl;
}

-- The list of the client holds the requests `rs`, in order, none of them twice.
abbrev pub IsPending : Clnt → List ReqPtr → Type 0
IsPending s rs = IsSeg req_links s.reqs none s.reqfirst s.reqlast none rs × IsDistinct rs

abbrev pub HasNoTag : (ReqPtr → Option Req) → ℕ → ReqPtr → Type 0
HasNoTag reqs tag c = (q : Req) → reqs c ≡ some q → q.tc.tag == tag ≡ false

-- The first of some requests with a tag, if there is one.
pub data IsFirst (reqs : ReqPtr → Option Req) (tag : ℕ) (rs : List ReqPtr) (o : Option ReqPtr)
    : Type 0 where
  missing : o ≡ none → All (HasNoTag reqs tag) rs → IsFirst reqs tag rs o
  found :
      (xs ys : List ReqPtr) (r : ReqPtr) (q : Req)
      → o ≡ some r
      → rs ≡ xs ++ r ∷ ys
      → reqs r ≡ some q
      → q.tc.tag == tag ≡ true
      → All (HasNoTag reqs tag) xs
      → IsFirst reqs tag rs o

same_cell : (q q' : Req) (o : Option Req) → o ≡ some q → o ≡ some q' → q ≡ q'
same_cell q q' o e e' = let h : some q ≡ some q' = sym e ∙ e' in cc

has_no_tag :
    (reqs : ReqPtr → Option Req) (tag : ℕ) (c : ReqPtr) (q : Req)
    → reqs c ≡ some q
    → q.tc.tag == tag ≡ false
    → HasNoTag reqs tag c
has_no_tag reqs tag c q cell other q' cell' =
    subst (λ w. w.tc.tag == tag ≡ false) (same_cell q q' (reqs c) cell cell') other

IsFirst-cons :
    (reqs : ReqPtr → Option Req) (tag : ℕ) (c : ReqPtr) (cs : List ReqPtr) (o : Option ReqPtr)
    → HasNoTag reqs tag c
    → IsFirst reqs tag cs o
    → IsFirst reqs tag (c ∷ cs) o
IsFirst-cons reqs tag c cs o h (missing e all) = missing e (h, all)
IsFirst-cons reqs tag c cs o h (found xs ys r q e split cell hit all) =
    found (c ∷ xs) ys r q e (ap (λ l. c ∷ l) split) cell hit (h, all)

-- The search of recv.
pub with_tag-IsFirst :
    (n tag : ℕ) (p a l : Option ReqPtr) (rs : List ReqPtr) (s : Clnt)
    → IsSeg req_links s.reqs p a l none rs
    → length rs < n
    → (o : Option ReqPtr) × (with_tag n tag a s ≡ done (o, s)) × IsFirst s.reqs tag rs o
unfolding with_tag
with_tag-IsFirst zero tag p a l rs s h enough = absurd (omega arith)
with_tag-IsFirst (suc n) tag p a l [] s (e, _) enough = (none, rw e refl, missing refl tt)
with_tag-IsFirst (suc n) tag p a l (c ∷ cs) s (e, q, cell, back, rest) enough =
    elim (Bool-cases (q.tc.tag == tag)) [
      | inl hit ↦ (some c, rw (e, cell, hit) refl, found [] cs c q refl refl cell hit tt)
      | inr other ↦
          let (o, run, first) = with_tag-IsFirst n tag (some c) q.next l cs s rest (omega arith) in
          (
            o,
            rw (e, cell, other) run,
            IsFirst-cons s.reqs tag c cs o (has_no_tag s.reqs tag c q cell other) first,
          )
    ]

-- What a request's channel is, whatever its links are.
abbrev pub done_of : Option Req → Bool
done_of none = false
done_of (some q) = q.has_done

pub done_of-update :
    (h : ReqPtr → Option Req) (c : ReqPtr) (g g' : Req) (x : ReqPtr)
    → h c ≡ some g
    → g'.has_done ≡ g.has_done
    → done_of (update h c (some g') x) ≡ done_of (h x)
done_of-update h c g g' x cell e = elim (eq_cases c x) [
  | inl (hit, same) ↦ rw (hit, sym same, cell) e
  | inr (other, _) ↦ rw other refl
]

-- The run of enlist.
pub enlist-IsPending :
    (s : Clnt) (r : ReqPtr) (q : Req) (rs : List ReqPtr)
    → IsPending s rs
    → s.reqs r ≡ some q
    → q.next ≡ none
    → All (λ c. c ≢ r) rs
    → (s' : Clnt) × (enlist r s ≡ done (tt, s'))
      × IsPending s' (rs ++ r ∷ [])
      × (s'.reqout ≡ s.reqout ++ r ∷ [])
      × (s'.delivered ≡ s.delivered)
      × (s'.err ≡ s.err)
      × ((x : ReqPtr) → done_of (s'.reqs x) ≡ done_of (s.reqs x))
unfolding enlist
enlist-IsPending s r q [] ((first, last), apart) cell free outside = (
  record s {
    reqfirst = some r;
    reqlast = some r;
    reqs = update s.reqs r (some (record q { prev = s.reqlast }));
    reqout = s.reqout ++ r ∷ [];
  },
  rw (last, cell) refl,
  ((refl, record q { prev = s.reqlast }, rw (eq_same r) refl, last, (free, refl)), (tt, tt)),
  refl,
  refl,
  refl,
  λ x. done_of-update s.reqs r q (record q { prev = s.reqlast }) x cell refl,
)
enlist-IsPending s r q (c ∷ cs) (linked, apart) cell free outside =
    let (at_last, last, cell_l) =
      last_lem req_links s.reqs none s.reqfirst s.reqlast none c cs linked in
    let l = last_of c cs in
    let lr = eq_other l r (last-All (λ x. x ≢ r) c cs outside) in
    let q' = record q { prev = s.reqlast } in
    let reqs1 = update s.reqs l (some (record last { next = some r })) in
    let reqs' = update reqs1 r (some q') in
    (
      record s { reqlast = some r; reqs = reqs'; reqout = s.reqout ++ r ∷ [] },
      rw (at_last, cell_l, lr, cell) refl,
      (
        subst
            (λ o.
              IsSeg req_links reqs' none (first_of req_links o (some r) s.reqfirst) (some r) none
                ((c ∷ cs) ++ r ∷ []))
            at_last
            (appended req_links s.reqs reqs' s.reqfirst s.reqlast (c ∷ cs) r q' linked apart
              (All-map (λ x. x ≢ r) (λ x. reqs' x ≡ on_next req_links s.reqs s.reqlast (some r) x)
                (λ x ne. rw (eq_other r x (λ e. ne (sym e)), at_last, cell_l) refl) (c ∷ cs)
                outside)
              (rw (eq_same r) refl) refl free),
        IsDistinct-append (c ∷ cs) (r ∷ []) apart (tt, tt)
            (All-map (λ x. x ≢ r) (λ x. All (λ y. x ≢ y) (r ∷ [])) (λ x ne. (ne, tt)) (c ∷ cs)
              outside),
      ),
      refl,
      refl,
      refl,
      λ x.
          done_of-update reqs1 r q q' x (rw lr cell) refl
          ∙ done_of-update s.reqs l last (record last { next = some r }) x cell_l refl,
    )

-- What Rpcnb comes to where the client has an error, and where it has none.
abbrev pub Called :
    List ReqPtr → ReqPtr → List ReqPtr → Option ClntError → Option ClntError → Clnt → Type 0
Called out r rs none o s' = (o ≡ none) × IsPending s' (rs ++ r ∷ []) × (s'.reqout ≡ out ++ r ∷ [])
Called out r rs (some e) o s' = (o ≡ some e) × IsPending s' rs × (s'.reqout ≡ out)

send_unless-IsPending :
    (err : Option ClntError) (s : Clnt) (r : ReqPtr) (q : Req) (rs : List ReqPtr)
    → IsPending s rs
    → s.reqs r ≡ some q
    → q.next ≡ none
    → All (λ c. c ≢ r) rs
    → (o : Option ClntError) × (s' : Clnt) × (send_unless err r s ≡ done (o, s'))
      × Called s.reqout r rs err o s'
      × (s'.delivered ≡ s.delivered)
      × (s'.err ≡ s.err)
      × ((x : ReqPtr) → done_of (s'.reqs x) ≡ done_of (s.reqs x))
unfolding send_unless
send_unless-IsPending (some e) s r q rs pending cell free outside =
    (some e, s, refl, (refl, pending, refl), refl, refl, λ x. refl)
send_unless-IsPending none s r q rs pending cell free outside =
    let (s', run, pending', out, told, err, same) =
      enlist-IsPending s r q rs pending cell free outside in
    (none, s', rw run refl, (refl, pending', out), told, err, same)

tagged_run :
    (s : Clnt) (r : ReqPtr) (q : Req) (tc : Fcall)
    → set_tag q.tc (if q.tc.type == tversion then notag else q.tag) ≡ Result.ok tc
    → tagged r q s ≡ done (tt, record s { reqs = update s.reqs r (some (record q { tc = tc })) })
unfolding tagged
tagged_run s r q tc ok = ap (λ o. put_tagged r q o s) ok

rpcnb_run :
    (s s1 : Clnt) (r : ReqPtr) (q : Req)
    → s.reqs r ≡ some q
    → tagged r q s ≡ done (tt, s1)
    → rpcnb r s ≡ send_unless s1.err r s1
unfolding rpcnb
rpcnb_run s s1 r q cell run = rw cell (rw run refl)

-- Rpcnb, where the message has room for the tag, and the request is on no list: where the client has
-- no error yet, the request comes behind those that wait, and goes to the sender; where it has one,
-- Rpcnb returns it, and nothing is sent.
pub rpcnb-IsPending :
    (s : Clnt) (r : ReqPtr) (q : Req) (tc : Fcall) (rs : List ReqPtr)
    → IsPending s rs
    → s.reqs r ≡ some q
    → q.next ≡ none
    → set_tag q.tc (if q.tc.type == tversion then notag else q.tag) ≡ Result.ok tc
    → All (λ c. c ≢ r) rs
    → (o : Option ClntError) × (s' : Clnt) × (rpcnb r s ≡ done (o, s'))
      × Called s.reqout r rs s.err o s'
      × (s'.delivered ≡ s.delivered)
      × (s'.err ≡ s.err)
      × ((x : ReqPtr) → done_of (s'.reqs x) ≡ done_of (s.reqs x))
rpcnb-IsPending s r q tc rs (linked, apart) cell free ok outside =
    let q1 = record q { tc = tc } in
    let s1 : Clnt = record s { reqs = update s.reqs r (some q1) } in
    let kept : IsPending s1 rs = (
      IsSeg-same req_links s.reqs s1.reqs none s.reqfirst s.reqlast none rs
          (All-map (λ c. c ≢ r) (λ c. s1.reqs c ≡ s.reqs c)
            (λ c ne. rw (eq_other r c (λ e. ne (sym e))) refl) rs outside)
          linked,
      apart,
    ) in
    let (o, s2, run, called, told, err, same) =
      send_unless-IsPending s.err s1 r q1 rs kept (rw (eq_same r) refl) free outside in
    (
      o,
      s2,
      rpcnb_run s s1 r q cell (tagged_run s r q tc ok) ∙ run,
      called,
      told,
      err,
      λ x. same x ∙ done_of-update s.reqs r q q1 x cell refl,
    )
