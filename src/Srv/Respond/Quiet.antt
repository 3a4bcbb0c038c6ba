-- ===== src/Srv/Respond/Quiet.antt =====
-- The parts of Respond that send nothing and give no request its response: the unlinking of the
-- request from its tag, with the flushes that wait for it, and PostProcess.
use chan.Prelude.{arith, ℕ, zero, suc, ◌≡◌, refl, ◌∙◌, ap, Option, none, some, if◌then◌else◌}
use mathlib.Core.Path.{subst}
use chan.Srv.State.{
  FidPtr, ReqPtr, Req, Conn, Ops, done, Act, pure, ◌>>=◌, ◌>>◌, modify, get_req, put_req,
}
use chan.Srv.Post.{dec_ref_of, post_handler, post_process}
use chan.Srv.Post.Frame.{SameRequests, dec_ref_of-SameRequests, post_handler-SameRequests}
use chan.Srv.Respond.{delete, last_flush, move_flushes, unlink}
use chan.Srv.Frame.{Change, Keeps, follow-done, bind-Keeps, pure-Keeps, modify-Keeps, deref-Keeps}

-- 1 for a request that has its response.
abbrev pub answered : Option Req → ℕ
answered none = 0
answered (some q) = if q.is_responded then 1 else 0

-- Nothing is sent, and no request gets or loses its response.
abbrev pub IsQuiet : Conn → Conn → Type 0
IsQuiet s s' =
    (s'.reqout ≡ s.reqout) × ((r : ReqPtr) → answered (s'.requests r) ≡ answered (s.requests r))

abbrev pub quiet : Change
quiet = record {
  rel = IsQuiet;
  unchanged = λ s. (refl, λ r. refl);
  chained = λ s t u (a, b) (a', b'). (a' ∙ a, λ r. b' r ∙ b r);
}

pub same-IsQuiet : (s s' : Conn) → SameRequests s s' → IsQuiet s s'
same-IsQuiet s s' (a, b, c, d) = (c, λ r. ap (λ m. answered (m r)) a)

pub read_req :
    (s t : Conn) (r : ReqPtr) (q : Req)
    → get_req r s ≡ done (q, t)
    → (s.requests r ≡ some q) × (t ≡ s)
read_req s t r q h = (ground arith, ground arith)

get_req-IsQuiet : (r : ReqPtr) → Keeps quiet (get_req r)
get_req-IsQuiet r s q s' h = deref-Keeps quiet (s.requests r) s q s' h

-- A request is written again with its response as it was.
pub put_req-IsQuiet :
    (s : Conn) (r : ReqPtr) (q q' : Req) (u : Unit {0}) (s' : Conn)
    → s.requests r ≡ some q
    → q'.is_responded ≡ q.is_responded
    → put_req r q' s ≡ done (u, s')
    → IsQuiet s s'
put_req-IsQuiet s r q q' u s' there same h = (ground arith, λ j. ground arith)

edit_req-IsQuiet :
    (r : ReqPtr) (f : Req → Req)
    → ((q : Req) → (f q).is_responded ≡ q.is_responded)
    → Keeps quiet (get_req r >>= λ q. put_req r (f q))
edit_req-IsQuiet r f same s u s' h =
    let (q, t, h1, h2) = follow-done (get_req r s) (λ q. put_req r (f q)) (u, s') h in
    let (there, still) = read_req s t r q h1 in
    put_req-IsQuiet s r q (f q) u s' there (same q) (rw still at h2)

-- The same with more behind it.
edit_then-IsQuiet :
    {A : Type 0} (r : ReqPtr) (f : Req → Req) (k : Act A)
    → ((q : Req) → (f q).is_responded ≡ q.is_responded)
    → Keeps quiet k
    → Keeps quiet (get_req r >>= λ q. put_req r (f q) >> k)
edit_then-IsQuiet r f k same later s a s' h =
    let (q, t, h1, h2) = follow-done (get_req r s) (λ q. put_req r (f q) >> k) (a, s') h in
    let (there, still) = read_req s t r q h1 in
    let (u, v, h3, h4) = follow-done (put_req r (f q) t) (λ _. k) (a, s') h2 in
    quiet.chained s v s'
      (put_req-IsQuiet s r q (f q) u v there (same q)
        (subst (λ x. put_req r (f q) x ≡ done (u, v)) still h3))
      (later v a s' h4)

last_flush-IsQuiet : (n : ℕ) (r : ReqPtr) → Keeps quiet (last_flush n r)
unfolding last_flush
last_flush-IsQuiet zero r = λ s u s' h. absurd (ground arith)
last_flush-IsQuiet (suc n) r =
    bind-Keeps quiet (get_req r) (λ q. elim q.flushreq [ none ↦ pure r | some f ↦ last_flush n f ])
      (get_req-IsQuiet r)
      λ q.
        elim q.flushreq
          as (λ o. Keeps quiet {A = ReqPtr} (elim o [ none ↦ pure r | some f ↦ last_flush n f ])) [
            | none ↦ pure-Keeps quiet r
            | some f ↦ last_flush-IsQuiet n f
          ]

dec_ref_of-IsQuiet : (ops : Ops) (o : Option FidPtr) → Keeps quiet (dec_ref_of ops o)
dec_ref_of-IsQuiet ops o s u s' h = same-IsQuiet s s' (dec_ref_of-SameRequests ops o s u s' h)

pub post_process-IsQuiet : (ops : Ops) (r : ReqPtr) → Keeps quiet (post_process ops r)
unfolding post_process
post_process-IsQuiet ops r = bind-Keeps quiet (get_req r) _ (get_req-IsQuiet r) λ q.
    bind-Keeps quiet (post_handler ops q) _
      (λ s u s' h. same-IsQuiet s s' (post_handler-SameRequests ops q s u s' h))
      λ _. bind-Keeps quiet (dec_ref_of ops q.fid) _ (dec_ref_of-IsQuiet ops q.fid) λ _.
        bind-Keeps quiet (dec_ref_of ops q.afid) _ (dec_ref_of-IsQuiet ops q.afid) λ _.
          bind-Keeps quiet (dec_ref_of ops q.newfid) _ (dec_ref_of-IsQuiet ops q.newfid) λ _.
            edit_req-IsQuiet r (λ q. record q { fid = none; afid = none; newfid = none })
              (λ q. refl)

-- The two cases of `nextreq.flushreq`.
moved-IsQuiet :
    (n : ℕ) (next flushes : ReqPtr) (q : Req) (o : Option ReqPtr) (s : Conn) (u : Unit {0})
    (s' : Conn)
    → s.requests next ≡ some q
    → (elim o as (λ _. Act (Unit {0})) [
      | none ↦ put_req next (record q { flushreq = some flushes })
      | some f ↦
          last_flush n f >>= λ l. get_req l >>= λ p. put_req l (record p { next = some flushes })
    ])
        s
      ≡ done (u, s')
    → IsQuiet s s'
moved-IsQuiet n next flushes q none s u s' there h = put_req-IsQuiet s next q _ u s' there refl h
moved-IsQuiet n next flushes q (some f) s u s' there h =
    bind-Keeps quiet (last_flush n f) _ (last_flush-IsQuiet n f)
      (λ l. edit_req-IsQuiet l (λ p. record p { next = some flushes }) (λ q. refl)) s u s' h

move_flushes-IsQuiet : (n : ℕ) (next flushes : ReqPtr) → Keeps quiet (move_flushes n next flushes)
unfolding move_flushes
move_flushes-IsQuiet n next flushes s u s' h =
    let (q, t, h1, h2) = follow-done (get_req next s) _ (u, s') h in
    let (there, still) = read_req s t next q h1 in
    moved-IsQuiet n next flushes q q.flushreq s u s' there (rw still at h2)

unlinked-IsQuiet :
    (n : ℕ) (next : ReqPtr) (o : Option ReqPtr)
    → Keeps quiet {A = Unit {0}}
        (elim o [ none ↦ pure tt | some flushes ↦ move_flushes n next flushes ])
unlinked-IsQuiet n next none = pure-Keeps quiet tt
unlinked-IsQuiet n next (some f) = move_flushes-IsQuiet n next f

pub unlink-IsQuiet : (n : ℕ) (q : Req) → Keeps quiet (unlink n q)
unfolding unlink
unlink-IsQuiet n q =
    elim q.prev
      as (λ o. Keeps quiet {A = Option ReqPtr} (elim o [
        | none ↦ modify (λ s. record s { reqs = delete s.reqs q.tc.tag }) >> pure q.flushreq
        | some next ↦ get_req next >>= λ p.
            put_req next (record p { next = none })
            >> ((elim q.flushreq as (λ _. Act (Unit {0})) [
              | none ↦ pure tt
              | some flushes ↦ move_flushes n next flushes
            ])
                >> pure none)
      ])) [
        | none ↦
            bind-Keeps quiet (modify (λ s. record s { reqs = delete s.reqs q.tc.tag })) _
              (modify-Keeps quiet _ (λ s. (refl, λ r. refl))) (λ _. pure-Keeps quiet q.flushreq)
        | some next ↦
            edit_then-IsQuiet next (λ p. record p { next = none }) _ (λ p. refl)
              (bind-Keeps quiet
                (elim q.flushreq as (λ _. Act (Unit {0})) [
                  | none ↦ pure tt
                  | some flushes ↦ move_flushes n next flushes
                ])
                _ (unlinked-IsQuiet n next q.flushreq) (λ _. pure-Keeps quiet none))
      ]
