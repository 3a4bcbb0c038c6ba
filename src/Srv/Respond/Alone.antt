-- ===== src/Srv/Respond/Alone.antt =====
-- Respond to a request that is alone under its tag and that no flush waits for.
use chan.Prelude.{
  arith, ℕ, suc, ◌==◌, ◌≡◌, refl, ◌∙◌, ap, Bool, true, false, Option, none, some, List, [], ◌∷◌,
  ◌++◌, if◌then◌else◌,
}
use chan.Srv.State.{
  FidPtr, ReqPtr, Req, Conn, Ops, Outcome, done, panic, stuck, ◌>>=◌, ◌>>◌, get_req, put_req,
}
use chan.Srv.Post.{dec_ref_of, post_handler, post_process}
use chan.Srv.Post.Frame.{dec_ref_of-SameRequests, post_handler-SameRequests}
use chan.Srv.Post.Runs.{
  is_done, is_live, has_fids, returns_bind, is_live_grown, post_handler_returns,
  post_handler-IsGrown, dec_ref_of_returns, dec_ref_of-IsGrown,
}
use chan.Srv.Fids.Laws.{update-same}
use chan.Srv.Frame.{Change, Keeps, bind-Keeps, modify-Keeps, deref-Keeps}
use chan.Srv.Respond.{lookup, delete, unlink, send, start_next, finish, respond, respond_all}
use chan.Srv.Respond.Once.{marked}

-- The table of tags and what was sent are as they were.
abbrev same_table : Change
same_table = record {
  rel = λ s s'. (s'.reqs ≡ s.reqs) × (s'.reqout ≡ s.reqout);
  unchanged = λ s. (refl, refl);
  chained = λ s t u (a, b) (a', b'). (a' ∙ a, b' ∙ b);
}

get_req-Table : (r : ReqPtr) → Keeps same_table (get_req r)
get_req-Table r s q s' h = deref-Keeps same_table (s.requests r) s q s' h

dec_ref_of-Table : (ops : Ops) (o : Option FidPtr) → Keeps same_table (dec_ref_of ops o)
dec_ref_of-Table ops o s u s' h =
    let (a, b, c, d) = dec_ref_of-SameRequests ops o s u s' h in (b, c)

post_process-Table : (ops : Ops) (r : ReqPtr) → Keeps same_table (post_process ops r)
unfolding post_process
post_process-Table ops r = bind-Keeps same_table (get_req r) _ (get_req-Table r) λ q.
    bind-Keeps same_table (post_handler ops q) _
      (λ s u s' h. let (a, b, c, d) = post_handler-SameRequests ops q s u s' h in (b, c))
      λ _. bind-Keeps same_table (dec_ref_of ops q.fid) _ (dec_ref_of-Table ops q.fid) λ _.
        bind-Keeps same_table (dec_ref_of ops q.afid) _ (dec_ref_of-Table ops q.afid) λ _.
          bind-Keeps same_table (dec_ref_of ops q.newfid) _ (dec_ref_of-Table ops q.newfid) λ _.
            bind-Keeps same_table (get_req r) _ (get_req-Table r)
              λ q1. modify-Keeps same_table _ (λ s. (refl, refl))

-- The pointers of the request are nil or those of cells, and it has the fids of its message.
abbrev pub IsServed : Conn → Req → Type 0
IsServed s q =
    (has_fids q ≡ true)
    × (is_live s q.fid ≡ true)
    × (is_live s q.afid ≡ true)
    × (is_live s q.newfid ≡ true)

cleared_returns :
    (s : Conn) (r : ReqPtr) (q : Req)
    → s.requests r ≡ some q
    → is_done
        ((get_req r >>= λ q1. put_req r (record q1 { fid = none; afid = none; newfid = none })) s)
      ≡ true
cleared_returns s r q there = ground arith

-- The three DecRefs, each where the pointer is live from the start.
dropped_returns :
    (ops : Ops) (a b c : Option FidPtr) (s : Conn) (r : ReqPtr) (q : Req)
    → s.requests r ≡ some q
    → is_live s a ≡ true
    → is_live s b ≡ true
    → is_live s c ≡ true
    → is_done (
        (dec_ref_of ops a
            >> (dec_ref_of ops b
                >> (dec_ref_of ops c
                    >> (get_req r >>= λ q1.
                        put_req r (record q1 { fid = none; afid = none; newfid = none })))))
          s)
      ≡ true
dropped_returns ops a b c s r q there la lb lc =
    returns_bind (dec_ref_of ops a s) _ (dec_ref_of_returns ops a s la) λ u t h.
      let g = dec_ref_of-IsGrown ops a s u t h in
      let (e, _, _, _) = dec_ref_of-SameRequests ops a s u t h in
      returns_bind (dec_ref_of ops b t) _ (dec_ref_of_returns ops b t (is_live_grown s t b g lb))
        λ u' t' h'.
          let g' = dec_ref_of-IsGrown ops b t u' t' h' in
          let (e', _, _, _) = dec_ref_of-SameRequests ops b t u' t' h' in
          returns_bind (dec_ref_of ops c t') _
            (dec_ref_of_returns ops c t' (is_live_grown t t' c g' (is_live_grown s t c g lc)))
            λ u'' t'' h''.
              let (e'', _, _, _) = dec_ref_of-SameRequests ops c t' u'' t'' h'' in
              cleared_returns t'' r q (ap (λ m. m r) (e'' ∙ e' ∙ e) ∙ there)

post_process_returns :
    (ops : Ops) (r : ReqPtr) (s : Conn) (q : Req)
    → s.requests r ≡ some q
    → IsServed s q
    → is_done (post_process ops r s) ≡ true
unfolding post_process
post_process_returns ops r s q there (has, fid, afid, newfid) = rw there (
    returns_bind (post_handler ops q s) _ (post_handler_returns ops q s has fid afid newfid)
      λ u t h.
        let g = post_handler-IsGrown ops q s u t h in
        let (e, _, _, _) = post_handler-SameRequests ops q s u t h in
        dropped_returns ops q.fid q.afid q.newfid t r q (ap (λ m. m r) e ∙ there)
          (is_live_grown s t q.fid g fid) (is_live_grown s t q.afid g afid)
          (is_live_grown s t q.newfid g newfid))

lookup-delete :
    (m : List (ℕ × ReqPtr)) (tag u : ℕ)
    → lookup (delete m tag) u ≡ (if tag == u then none else lookup m u)
unfolding lookup delete
lookup-delete [] tag u = ground arith
lookup-delete ((t, r) ∷ m) tag u = let rest = lookup-delete m tag u in ground arith

done_of : {A : Type 0} (o : Outcome A) → is_done o ≡ true → (a : A) × (o ≡ done a)
done_of (done a) h = (a, refl)
done_of panic h = absurd (ground arith)
done_of stuck h = absurd (ground arith)

-- The state in which PostProcess runs.
abbrev unlinked : Conn → ReqPtr → Req → Conn
unlinked s r q = record (marked s r q) { reqs = delete s.reqs q.tc.tag }

sent_out :
    (b : Bool) (r : ReqPtr) (t : Conn) (xs : List ReqPtr)
    → t.reqout ≡ xs
    → (if b then t else record t { reqout = t.reqout ++ r ∷ [] }).reqout
      ≡ (if b then xs else xs ++ r ∷ [])
sent_out true r t xs h = h
sent_out false r t xs h = ap (λ l. l ++ r ∷ []) h

sent_tags :
    (b : Bool) (r : ReqPtr) (t : Conn)
    → (if b then t else record t { reqout = t.reqout ++ r ∷ [] }).reqs ≡ t.reqs
sent_tags true r t = refl
sent_tags false r t = refl

respond_run :
    (ops : Ops) (n : ℕ) (r : ReqPtr) (s t : Conn) (q : Req) (u : Unit {0})
    → s.requests r ≡ some q
    → q.is_responded ≡ false
    → q.prev ≡ none
    → q.flushreq ≡ none
    → post_process ops r (unlinked s r q) ≡ done (u, t)
    → respond (suc (suc n)) ops r s
      ≡ done (tt, if q.is_flush then t else record t { reqout = t.reqout ++ r ∷ [] })
unfolding respond respond_all finish unlink send start_next
respond_run ops n r s t q u there new prev flushreq h = ground arith

-- Respond to a request without a response, alone under its tag, that no flush waits for and whose
-- fids are in place, returns with two units of fuel; the request is sent, behind what was sent before,
-- unless it was flushed, and its tag is free, while every other tag is as it was.
pub respond_alone :
    (ops : Ops) (n : ℕ) (r : ReqPtr) (s : Conn) (q : Req)
    → s.requests r ≡ some q
    → q.is_responded ≡ false
    → q.prev ≡ none
    → q.flushreq ≡ none
    → IsServed s q
    → (s' : Conn) × (respond (suc (suc n)) ops r s ≡ done (tt, s'))
      × (s'.reqout ≡ (if q.is_flush then s.reqout else s.reqout ++ r ∷ []))
      × ((u : ℕ) → lookup s'.reqs u ≡ (if q.tc.tag == u then none else lookup s.reqs u))
respond_alone ops n r s q there new prev flushreq served =
    let s1 = unlinked s r q in
    let ((u, t), run) = done_of (post_process ops r s1) (
      post_process_returns ops r s1 (record q { is_responded = true; is_work = false })
        (update-same s.requests r _) served) in
    let (tags, out) = post_process-Table ops r s1 u t run in
    (
      _,
      respond_run ops n r s t q u there new prev flushreq run,
      sent_out q.is_flush r t s.reqout out,
      λ v. ap (λ m. lookup m v) (sent_tags q.is_flush r t ∙ tags) ∙ lookup-delete s.reqs q.tc.tag v,
    )
