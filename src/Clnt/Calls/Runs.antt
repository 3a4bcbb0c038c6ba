-- ===== src/Clnt/Calls/Runs.antt =====
-- The runs of NewFcall, FreeFcall and Rpc: the buffers that are kept stay long enough, and a request
-- comes back.
use chan.Prelude.{
  ℕ, zero, suc, ◌≤◌, ◌==◌, ◌≡◌, ◌≢◌, refl, sym, ap, ◌∙◌, arith, ◌&&◌, ltb, leb, Bool-cases, inl,
  inr, none, some, List, [], ◌∷◌, ◌++◌, All, length, if◌then◌else◌,
}
use chan.Prelude.Run.{done}
use chan.Wire.Types.{IsU32, Fcall, rerror}
use chan.Wire.Pack.{new_fcall, zeros}
use chan.Clnt.Rpc.{ClntError, unexpected}
use chan.Clnt.Calls.{
  eof, rpc_failed, server_said, Answer, returns, fails, Reply, refused, back, Session, follow,
  next_fcall, take_fcall, free_fcall, came_back, rpc, checked, ask,
}
use chan.Clnt.Calls.Io.{iohdrsz}

-- The buffers that are kept are as long as the largest message, which has room for a header.
abbrev pub HasBuffers : ℕ → List Fcall → Type 0
HasBuffers msize tcs = (iohdrsz ≤ msize) × IsU32 msize × All (λ tc. msize ≤ length tc.buf) tcs

length-zeros : (n : ℕ) → length (zeros n) ≡ n
length-zeros zero = refl
length-zeros (suc n) = omega (arith, length-zeros n)

pub length-new_fcall : (n : ℕ) → n ≤ length ((new_fcall n).buf)
unfolding new_fcall
length-new_fcall n = omega (arith, length-zeros n)

pub take_fcall_run :
    {W : Type 0} (s : Session W)
    → HasBuffers s.msize s.tchan
    → (tc : Fcall) × (tcs : List Fcall) × (take_fcall s
        ≡ done (returns tc, record s { tchan = tcs }))
      × (s.msize ≤ length tc.buf)
      × HasBuffers s.msize tcs
take_fcall_run {W} s = go s.tchan s
  where
    go :
        (tcs : List Fcall) (s : Session W)
        → HasBuffers s.msize tcs
        → (tc : Fcall) × (rest : List Fcall) × (next_fcall tcs (record s { tchan = tcs })
            ≡ done (returns tc, record s { tchan = rest }))
          × (s.msize ≤ length tc.buf)
          × HasBuffers s.msize rest
    go [] s (least, u32, _) =
        (new_fcall s.msize, [], refl, length-new_fcall s.msize, (least, u32, tt))
    go (tc ∷ rest) s (least, u32, (long, all)) = (tc, rest, refl, long, (least, u32, all))

-- A server's answer, and what stands between Rpcnb and `<-r.Done`: a request that comes back has a
-- response, or an error.
abbrev pub IsAnswer : Reply → Type 0
IsAnswer (refused e) = Unit {0}
IsAnswer (back (some rc) err) = Unit {0}
IsAnswer (back none err) = (e : ClntError) × (err ≡ some e)

abbrev pub IsAnswering : {W : Type 0} → (Fcall → W → Reply × W) → Type 0
IsAnswering {W} remote = (tc : Fcall) (w : W) → IsAnswer ((remote tc w).0)

HasBuffers-free :
    (msize : ℕ) (tcs : List Fcall) (tc : Fcall)
    → HasBuffers msize tcs
    → msize ≤ length tc.buf
    → HasBuffers msize (tcs ++ tc ∷ [])
HasBuffers-free msize [] tc (least, u32, _) long = (least, u32, (long, tt))
HasBuffers-free msize (x ∷ xs) tc (least, u32, (h, hs)) long =
    let (_, _, all) = HasBuffers-free msize xs tc (least, u32, hs) long in (least, u32, (h, all))

-- The buffers that are free behind a call.
abbrev pub freed_list : ℕ → List Fcall → Fcall → List Fcall
freed_list msize tcs tc =
    if leb msize (length tc.buf) && ltb (length tcs) 16 then tcs ++ tc ∷ [] else tcs

freed_list-HasBuffers :
    (msize : ℕ) (tcs : List Fcall) (tc : Fcall)
    → HasBuffers msize tcs
    → HasBuffers msize (freed_list msize tcs tc)
freed_list-HasBuffers msize tcs tc h = elim (Bool-cases (leb msize (length tc.buf))) [
  | inr short ↦ rw short h
  | inl long ↦ elim (Bool-cases (ltb (length tcs) 16)) [
    | inr full ↦ rw (long, full) h
    | inl free ↦ rw (long, free) (HasBuffers-free msize tcs tc h (grind arith))
  ]
]

pub free_run :
    {W : Type 0} (s : Session W) (tc : Fcall)
    → free_fcall tc s ≡ done (returns tt, record s { tchan = freed_list s.msize s.tchan tc })
unfolding free_fcall
free_run s tc = elim (Bool-cases (leb s.msize (length tc.buf) && ltb (length s.tchan) 16)) [
  | inl kept ↦ rw kept refl
  | inr other ↦ rw other refl
]

-- What Rpc and the two tests behind it make of a reply.
abbrev pub outcome_of : Reply → Answer Fcall
outcome_of (refused e) = fails (rpc_failed e)
outcome_of (back rc (some e)) = fails (rpc_failed e)
outcome_of (back none none) = fails (rpc_failed unexpected)
outcome_of (back (some rc) none) =
    if rc.type == rerror then fails (server_said rc.error rc.errornum) else returns rc

pub outcome_of-eof : (reply : Reply) → outcome_of reply ≢ fails eof
outcome_of-eof (refused e) = λ h. cc
outcome_of-eof (back rc (some e)) = λ h. cc
outcome_of-eof (back none none) = λ h. cc
outcome_of-eof (back (some rc) none) = elim (Bool-cases (rc.type == rerror)) [
  | inl error ↦ rw error (λ h. cc)
  | inr fine ↦ rw fine (λ h. cc)
]

module _ {W : Type 0} (remote : Fcall → W → Reply × W) where
  came_checked :
      (reply : Reply) (tc : Fcall) (s : Session W)
      → IsAnswer reply
      → HasBuffers s.msize s.tchan
      → (a : Answer Fcall) × (tcs : List Fcall) × (follow
            (came_back remote tc reply s)
            (checked remote)
          ≡ done (a, record s { tchan = tcs }))
        × HasBuffers s.msize tcs
        × (a ≡ outcome_of reply)
  came_checked (refused e) tc s answering h = (fails (rpc_failed e), s.tchan, refl, h, refl)
  came_checked (back none err) tc s (e, at) h = (
    fails (rpc_failed e),
    freed_list s.msize s.tchan tc,
    rw (free_run s tc, at) refl,
    freed_list-HasBuffers s.msize s.tchan tc h,
    ap (λ o. outcome_of (back none o)) (sym at),
  )
  came_checked (back (some rc) (some e)) tc s _ h = (
    fails (rpc_failed e),
    freed_list s.msize s.tchan tc,
    rw (free_run s tc) refl,
    freed_list-HasBuffers s.msize s.tchan tc h,
    refl,
  )
  came_checked (back (some rc) none) tc s _ h = elim (Bool-cases (rc.type == rerror)) [
    | inl error ↦ (
      fails (server_said rc.error rc.errornum),
      freed_list s.msize s.tchan tc,
      rw (free_run s tc, error) refl,
      freed_list-HasBuffers s.msize s.tchan tc h,
      rw error refl,
    )
    | inr fine ↦ (
      returns rc,
      freed_list s.msize s.tchan tc,
      rw (free_run s tc, fine) refl,
      freed_list-HasBuffers s.msize s.tchan tc h,
      rw fine refl,
    )
  ]

  -- A request comes back, with a response or an error, and the fids are as they were.
  pub ask_outcome :
      (tc : Fcall) (s : Session W)
      → IsAnswering remote
      → HasBuffers s.msize s.tchan
      → (tcs : List Fcall) × (ask remote tc s
          ≡ done (
            outcome_of ((remote tc s.world).0),
            record s { world = (remote tc s.world).1; tchan = tcs },
          ))
        × HasBuffers s.msize tcs
  unfolding ask rpc
  ask_outcome tc s answering h =
      let w = (remote tc s.world).1 in
      let (a, tcs, run, h', e) =
        came_checked ((remote tc s.world).0) tc (record s { world = w }) (answering tc s.world) h in
      (tcs, run ∙ ap (λ x. done (x, record s { world = w; tchan = tcs })) e, h')

  pub ask_run :
      (tc : Fcall) (s : Session W)
      → IsAnswering remote
      → HasBuffers s.msize s.tchan
      → (a : Answer Fcall) × (w : W) × (tcs : List Fcall) × (ask remote tc s
          ≡ done (a, record s { world = w; tchan = tcs }))
        × HasBuffers s.msize tcs
  ask_run tc s answering h =
      let (tcs, run, h') = ask_outcome tc s answering h in
      (outcome_of ((remote tc s.world).0), (remote tc s.world).1, tcs, run, h')
