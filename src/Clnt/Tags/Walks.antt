-- ===== src/Clnt/Tags/Walks.antt =====
-- A Walk with a tag, and reqproc behind it, next to the Walk that waits for its answer.
use chan.Prelude.{
  ℕ, ◌≤◌, ◌<◌, ◌==◌, ◌≡◌, ◌≢◌, refl, ap, ◌∙◌, arith, true, false, Option, none, some, List, length,
  if◌then◌else◌,
}
use chan.Prelude.Run.{done, update}
use chan.Prelude.Distinct.{eq_same, eq_other}
use chan.Wire.Result
use chan.Wire.Types
use chan.Wire.Types.{Bytes, Fcall, Qid, rerror, notag}
use chan.Wire.PackT.{pack_twalk}
use chan.Wire.Message.{twalk, encode, IsMessage, pack_message}
use chan.Wire.Message.Pack.{pack_message-encode}
use chan.Clnt.Rpc.{ClntError}
use chan.Clnt.Calls
use chan.Clnt.Calls.{
  FidPtr, Answer, returns, fails, Fid, Reply, Session, Call, follow, take_fcall, ask, last_qid,
}
use chan.Clnt.Calls.Runs.{HasBuffers, take_fcall_run}
use chan.Clnt.Tags.{Req, settle, reqproc, rpcnb, walk}

-- Rpcnb sends each request.
abbrev pub IsSending : {W : Type 0} → (FidPtr → Fcall → W → Option ClntError × W) → Type 0
IsSending {W} send = (p : FidPtr) (tc : Fcall) (w : W) → (send p tc w).0 ≡ none

-- The fid of a Walk that was sent.
abbrev pub sent_fid : Fid → Fid → List Bytes → Fid
sent_fid f g names = record (if length names == 0 then record g { qid = f.qid } else g) {
  user = f.user;
}

-- A fid that was walked, along the names that a response has.
abbrev pub walked_fid : Fid → Qid → List Qid → Fid
walked_fid g q wqid = record g { qid = last_qid q wqid; walked = true }

twalk-packs :
    (fid newfid : ℕ) (names : List Bytes) (fc : Fcall)
    → IsMessage (twalk fid newfid names) false
    → length (encode (twalk fid newfid names) false notag) ≤ length fc.buf
    → (tc : Fcall) × (pack_twalk fc fid newfid names ≡ Result.ok tc)
unfolding pack_message
twalk-packs fid newfid names fc fits long =
    let (tc, run, _) = pack_message-encode (twalk fid newfid names) false fc fits long in (tc, run)

module _ {W : Type 0} where
  settle_walk :
      (s : Session W) (r : Req) (rc : Fcall) (g : Fid)
      → s.fids r.fid ≡ some g
      → r.tc.type ≡ Types.twalk
      → rc.type == rerror ≡ false
      → settle r rc s
        ≡ done (
          returns tt,
          record s { fids = update s.fids r.fid (some (walked_fid g g.qid rc.wqid)) },
        )
  unfolding settle
  settle_walk s r rc g cell type fine = rw (cell, type, fine) refl

  reqproc_walk :
      (s : Session W) (r : Req) (rc : Fcall) → r.rc ≡ some rc → reqproc r s ≡ settle r rc s
  unfolding reqproc
  reqproc_walk s r rc e = rw e refl

  -- A response without an error to a Twalk: reqproc says of the fid that it was walked, however many of
  -- the names the response has.
  pub reqproc-walked_fid :
      (s : Session W) (r : Req) (rc : Fcall) (g : Fid)
      → s.fids r.fid ≡ some g
      → r.tc.type ≡ Types.twalk
      → r.rc ≡ some rc
      → rc.type == rerror ≡ false
      → (s' : Session W) × (reqproc r s ≡ done (returns tt, s'))
        × (s'.fids r.fid ≡ some (walked_fid g g.qid rc.wqid))
  reqproc-walked_fid s r rc g cell type answer fine = (
    record s { fids = update s.fids r.fid (some (walked_fid g g.qid rc.wqid)) },
    reqproc_walk s r rc answer ∙ settle_walk s r rc g cell type fine,
    rw (eq_same r.fid) refl,
  )

module _ {W : Type 0} (send : FidPtr → Fcall → W → Option ClntError × W) where
  rpcnb_run :
      (p : FidPtr) (tc : Fcall) (s : Session W)
      → IsSending send
      → (w : W) × (rpcnb send p tc s ≡ done (returns tt, record s { world = w }))
  rpcnb_run p tc s sending = ((send p tc s.world).1, rw (sending p tc s.world) refl)

  walk_run :
      (s s0 : Session W) (p new : FidPtr) (f g : Fid) (names : List Bytes) (tc0 tc : Fcall)
      → take_fcall s ≡ done (returns tc0, s0)
      → s0.fids p ≡ some f
      → s0.fids new ≡ some g
      → new == p ≡ false
      → pack_twalk tc0 f.fid g.fid names ≡ Result.ok tc
      → walk send p new names s
        ≡ rpcnb send new tc (record s0 {
          fids =
              update
                (update s0.fids new
                  (some (if length names == 0 then record g { qid = f.qid } else g)))
                new
                (some (sent_fid f g names));
        })
  unfolding walk
  walk_run s s0 p new f g names tc0 tc take cell_p cell_new apart packs =
      rw take (rw (cell_p, cell_new, apart, cell_p) (rw packs (rw (eq_same new) refl)))

  -- A Walk with a tag sends its request, and the fid is then the new one, with the user of the other.
  walk-sent_fid :
      (s : Session W) (p new : FidPtr) (f g : Fid) (names : List Bytes)
      → IsSending send
      → HasBuffers s.msize s.tchan
      → s.fids p ≡ some f
      → s.fids new ≡ some g
      → new ≢ p
      → IsMessage (twalk f.fid g.fid names) false
      → length (encode (twalk f.fid g.fid names) false notag) ≤ s.msize
      → (s' : Session W) × (walk send p new names s ≡ done (returns tt, s'))
        × (s'.fids new ≡ some (sent_fid f g names))
  walk-sent_fid s p new f g names sending h cell_p cell_new apart fits small =
      let (tc0, tcs, take, long, _) = take_fcall_run s h in
      let (tc, packs) = twalk-packs f.fid g.fid names tc0 fits (omega arith) in
      let s0 : Session W = record s { tchan = tcs } in
      let fids =
        update
          (update s.fids new (some (if length names == 0 then record g { qid = f.qid } else g))) new
          (some (sent_fid f g names)) in
      let (w, run) = rpcnb_run new tc (record s0 { fids = fids }) sending in
      (
        record s0 { fids = fids; world = w },
        walk_run s s0 p new f g names tc0 tc take cell_p cell_new (eq_other new p apart) packs
            ∙ run,
        rw (eq_same new) refl,
      )

-- A server that answers the request of a Walk with `rc`, and changes no fid of the client.
abbrev pub Gives : {W : Type 0} → (Fcall → W → Reply × W) → Fcall → Type 0
Gives {W} remote rc =
    (tc : Fcall) (s : Session W)
    → (s' : Session W) × (ask remote tc s ≡ done (returns rc, s')) × (s'.fids ≡ s.fids)

module _ {W : Type 0} (remote : Fcall → W → Reply × W) where
  short_run :
      (s s0 s1 : Session W) (p new : FidPtr) (f g : Fid) (names : List Bytes) (tc0 tc rc : Fcall)
      → s.fids p ≡ some f
      → s.fids new ≡ some g
      → take_fcall s ≡ done (returns tc0, s0)
      → pack_twalk tc0 f.fid g.fid names ≡ Result.ok tc
      → ask remote tc s0 ≡ done (returns rc, s1)
      → s1.fids new ≡ some g
      → length rc.wqid == length names ≡ false
      → Calls.walk remote p new names s ≡ done (returns rc.wqid, s1)
  unfolding Calls.walk
  short_run s s0 s1 p new f g names tc0 tc rc cell_p cell_new take packs run cell short =
      rw (cell_p, cell_new) (rw take (rw packs (rw run (rw (cell, short) refl))))

  -- A response to a Walk, not an error, that has fewer qids than there are names, possibly none: Walk
  -- returns these qids and no error and leaves the fid as it was, and reqproc says that it was walked.
  pub walk-reqproc_short :
      (send : FidPtr → Fcall → W → Option ClntError × W) (s : Session W) (p new : FidPtr)
      (f g : Fid) (names : List Bytes) (tc rc : Fcall)
      → IsSending send
      → Gives remote rc
      → HasBuffers s.msize s.tchan
      → s.fids p ≡ some f
      → s.fids new ≡ some g
      → new ≢ p
      → IsMessage (twalk f.fid g.fid names) false
      → length (encode (twalk f.fid g.fid names) false notag) ≤ s.msize
      → tc.type ≡ Types.twalk
      → rc.type == rerror ≡ false
      → length rc.wqid < length names
      → (h : Fid) × (s1 s2 s3 : Session W) × (Calls.walk remote p new names s
          ≡ done (returns rc.wqid, s1))
        × (walk send p new names s ≡ done (returns tt, s2))
        × (reqproc (record { tc = tc; rc = some rc; fid = new }) s2 ≡ done (returns tt, s3))
        × (s1.fids new ≡ some g)
        × (s3.fids new ≡ some h)
        × (h.walked ≡ true)
  walk-reqproc_short send s p new f g names tc rc sending given h cell_p cell_new apart fits small
        type fine less =
      let (tc0, tcs, take, long, _) = take_fcall_run s h in
      let (packed, packs) = twalk-packs f.fid g.fid names tc0 fits (omega arith) in
      let s0 : Session W = record s { tchan = tcs } in
      let (s1, run, same) = given packed s0 in
      let (s2, run2, cell2) =
        walk-sent_fid send s p new f g names sending h cell_p cell_new apart fits small in
      let (s3, run3, cell3) =
        reqproc-walked_fid s2 (record { tc = tc; rc = some rc; fid = new }) rc (sent_fid f g names)
          cell2 type refl fine in
      let cell = ap (λ m. m new) same ∙ cell_new in
      (
        walked_fid (sent_fid f g names) ((sent_fid f g names).qid) rc.wqid,
        s1,
        s2,
        s3,
        short_run s s0 s1 p new f g names tc0 packed rc cell_p cell_new take packs run cell
            (grind arith),
        run2,
        run3,
        cell,
        cell3,
        refl,
      )
