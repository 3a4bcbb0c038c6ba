-- ===== src/Clnt/Calls/Places.antt =====
-- The loop of FWalk, p/clnt/walk.go, over the Walk of this package and a server that walks.
use chan.Prelude.{
  ℕ, ◌+◌, ◌≤◌, ◌<◌, ◌==◌, ◌≡◌, ◌≢◌, refl, sym, ap, ◌∙◌, inl, inr, arith, Bool, true, false,
  Bool-cases, Option, none, some, List, [], ◌++◌, length,
}
use chan.Prelude.Run.{done, update}
use chan.Prelude.Distinct.{eq_same}
use chan.Wire.Result
use chan.Wire.Types.{IsU32, Bytes, Fcall, notag}
use chan.Wire.Ints.{le32, le16, le8}
use chan.Wire.PackT.{pack_twalk}
use chan.Wire.Message.{
  twalk, rwstat, encode, decoded, frame, body_bytes, IsMessage, HasFields, pack_message,
}
use chan.Wire.Message.Pack.{pack_message-encode}
use chan.Wire.Unpack.{unpack}
use chan.Clnt.Calls.{
  FidPtr, CallError, Answer, returns, fails, Fid, Reply, Session, take_fcall, ask, last_qid, walk,
}
use chan.Clnt.Calls.Runs.{HasBuffers, take_fcall_run, IsAnswering, outcome_of, ask_outcome}
use chan.Clnt.Calls.Files.{walk_step}
use chan.Clnt.Calls.Sizes.{read_back}
use chan.Clnt.Calls.Batches.{FitIn, Walked, IsWalker, Batched, batches_over}

twalk-IsMessage :
    (fid newfid limit : ℕ) (names : List Bytes) (dotu : Bool)
    → IsU32 fid
    → IsU32 newfid
    → FitIn limit names
    → length names ≤ 16
    → IsU32 (limit + 17)
    → IsMessage (twalk fid newfid names) dotu
unfolding HasFields body_bytes le32 le16 le8
twalk-IsMessage fid newfid limit names dotu u32 u32' (short, small) few len = record {
  fields = (u32, u32', omega arith, short);
  size = omega arith;
}

twalk-packs :
    (fid newfid limit : ℕ) (names : List Bytes) (dotu : Bool) (fc : Fcall)
    → IsMessage (twalk fid newfid names) dotu
    → FitIn limit names
    → limit + 17 ≤ length fc.buf
    → (tc : Fcall) × (pack_twalk fc fid newfid names ≡ Result.ok tc)
      × (tc.pkt ≡ encode (twalk fid newfid names) dotu notag)
unfolding pack_message body_bytes le32 le16 le8 encode frame
twalk-packs fid newfid limit names dotu fc fits (_, small) long =
    pack_message-encode (twalk fid newfid names) dotu fc fits (omega arith)

twalk_ne : {fid newfid : ℕ} {names : List Bytes} → twalk fid newfid names ≢ rwstat
twalk_ne e = cc

-- A session in which a walk from one fid to another can be asked for, of names that take at most so many
-- bytes.
pub record CanWalk {W : Type 0} (dotu : Bool) (limit : ℕ) (new p : FidPtr) (s : Session W)
    : Type 0 where
  pub f : Fid
  pub g : Fid
  pub from : s.fids p ≡ some f
  pub to : s.fids new ≡ some g
  pub from_number : IsU32 f.fid
  pub to_number : IsU32 g.fid
  pub dialect : s.dotu ≡ dotu
  pub fits : limit + 17 ≤ s.msize
  pub buffers : HasBuffers s.msize s.tchan

-- Where a fid stands, for the server.
abbrev pub place_of : {W : Type 0} → (W → ℕ → List Bytes) → Session W → Option Fid → List Bytes
place_of stands s none = []
place_of stands s (some f) = stands s.world f.fid

module _ {W : Type 0} (remote : Fcall → W → Reply × W) (stands : W → ℕ → List Bytes) (dotu : Bool)
    (limit : ℕ) (new : FidPtr) where
  abbrev pub place : Session W → FidPtr → List Bytes
  place s p = place_of stands s (s.fids p)

  -- What a Twalk does: where the response has as many qids as there are names, newfid stands where the
  -- names lead from fid.
  abbrev pub Moved : ℕ → ℕ → List Bytes → Answer Fcall → W → W → Type 0
  Moved fid newfid names (returns rc) w w' =
      length rc.wqid == length names ≡ true → stands w' newfid ≡ stands w fid ++ names
  Moved fid newfid names (fails e) w w' = Unit {0}

  -- A server that does this for each packet that it reads as a Twalk of at most 16 names.
  pub record IsWalking : Type 0 where
    pub answering : IsAnswering remote
    pub moves :
        (tc : Fcall) (w : W) (fid newfid : ℕ) (names : List Bytes)
        → unpack tc.pkt dotu
          ≡ Result.ok (decoded (twalk fid newfid names) dotu notag, length tc.pkt)
        → length names ≤ 16
        → Moved fid newfid names (outcome_of ((remote tc w).0)) w ((remote tc w).1)

  abbrev Stepped : FidPtr → List Bytes → Session W → Type 0
  Stepped p names s =
      (a : Answer ℕ) × (s' : Session W) × (walk_step remote new p names s ≡ done (a, s'))
      × Walked (walk_step remote new) place new (CanWalk dotu limit new) limit p names s a s'
      × CanWalk dotu limit new new s'

  module _ (s s0 s1 : Session W) (p : FidPtr) (f g : Fid) (names : List Bytes) (tc0 tc : Fcall)
      (from : s.fids p ≡ some f) (to : s.fids new ≡ some g)
      (take : take_fcall s ≡ done (returns tc0, s0))
      (packs : pack_twalk tc0 f.fid g.fid names ≡ Result.ok tc) where
    step_fails :
        (e : CallError)
        → ask remote tc s0 ≡ done (fails e, s1)
        → walk_step remote new p names s ≡ done (fails e, s1)
    unfolding walk
    step_fails e run = rw (from, to) (rw take (rw packs (rw run refl)))

    step_all :
        (rc : Fcall)
        → ask remote tc s0 ≡ done (returns rc, s1)
        → s1.fids new ≡ some g
        → length rc.wqid == length names ≡ true
        → walk_step remote new p names s
          ≡ done (
            returns (length rc.wqid),
            record s1 {
              fids =
                  update s1.fids new
                    (some (record g { qid = last_qid f.qid rc.wqid; walked = true }));
            },
          )
    unfolding walk
    step_all rc run cell all = rw (from, to) (rw take (rw packs (rw run (rw (cell, all) refl))))

    step_short :
        (rc : Fcall)
        → ask remote tc s0 ≡ done (returns rc, s1)
        → s1.fids new ≡ some g
        → length rc.wqid == length names ≡ false
        → walk_step remote new p names s ≡ done (returns (length rc.wqid), s1)
    unfolding walk
    step_short rc run cell short =
        rw (from, to) (rw take (rw packs (rw run (rw (cell, short) refl))))

  -- The session behind a walk, of which the new fid still can be walked from.
  walkable :
      (g : Fid) (s : Session W)
      → s.fids new ≡ some g
      → IsU32 g.fid
      → s.dotu ≡ dotu
      → limit + 17 ≤ s.msize
      → HasBuffers s.msize s.tchan
      → CanWalk dotu limit new new s
  walkable g s cell u32 dialect fits buffers = record {
    f = g;
    g = g;
    from = cell;
    to = cell;
    from_number = u32;
    to_number = u32;
    dialect = dialect;
    fits = fits;
    buffers = buffers;
  }

  step_outcome :
      (p : FidPtr) (names : List Bytes) (s : Session W) (c : CanWalk dotu limit new p s)
      (tc0 tc : Fcall) (tcs tcs2 : List Fcall) (w : W) (a : Answer Fcall)
      → take_fcall s ≡ done (returns tc0, record s { tchan = tcs })
      → pack_twalk tc0 c.f.fid c.g.fid names ≡ Result.ok tc
      → ask remote tc (record s { tchan = tcs }) ≡ done (a, record s { world = w; tchan = tcs2 })
      → HasBuffers s.msize tcs2
      → Moved c.f.fid c.g.fid names a s.world w
      → Stepped p names s
  step_outcome p names s c tc0 tc tcs tcs2 w (fails e) take packs run h _ =
      let s1 : Session W = record s { world = w; tchan = tcs2 } in
      (
        fails e,
        s1,
        step_fails s (record s { tchan = tcs }) s1 p c.f c.g names tc0 tc c.from c.to take packs e
            run,
        tt,
        walkable c.g s1 c.to c.to_number c.dialect c.fits h,
      )
  step_outcome p names s c tc0 tc tcs tcs2 w (returns rc) take packs run h moved =
      let s0 : Session W = record s { tchan = tcs } in
      let s1 : Session W = record s { world = w; tchan = tcs2 } in
      elim (Bool-cases (length rc.wqid == length names)) [
        | inr short ↦ (
          returns (length rc.wqid),
          s1,
          step_short s s0 s1 p c.f c.g names tc0 tc c.from c.to take packs rc run c.to short,
          inr short,
          walkable c.g s1 c.to c.to_number c.dialect c.fits h,
        )
        | inl all ↦
            let g' = record c.g { qid = last_qid c.f.qid rc.wqid; walked = true } in
            let s2 : Session W = record s1 { fids = update s.fids new (some g') } in
            (
              returns (length rc.wqid),
              s2,
              step_all s s0 s1 p c.f c.g names tc0 tc c.from c.to take packs rc run c.to all,
              inl (
                all,
                ap (λ o. place_of stands s2 o) (eq_cell new g' s.fids)
                    ∙ moved all
                    ∙ ap (λ o. place_of stands s o ++ names) (sym c.from),
              ),
              walkable g' s2 (eq_cell new g' s.fids) c.to_number c.dialect c.fits h,
            )
      ]
    where
      eq_cell :
          (r : FidPtr) (g : Fid) (fids : FidPtr → Option Fid) → update fids r (some g) r ≡ some g
      eq_cell r g fids = rw (eq_same r) refl

  -- The Walk of this package over such a server.
  walk_step-IsWalker :
      IsWalking → IsWalker (walk_step remote new) place new (CanWalk dotu limit new) limit
  walk_step-IsWalker walking = record { walks = walks }
    where
      walks :
          (p : FidPtr) (names : List Bytes) (s : Session W)
          → CanWalk dotu limit new p s
          → FitIn limit names
          → length names ≤ 16
          → Stepped p names s
      walks p names s c fits few =
          let (tc0, tcs, take_run, long, h1) = take_fcall_run s c.buffers in
          let ok =
            twalk-IsMessage c.f.fid c.g.fid limit names dotu c.from_number c.to_number fits few
              (omega (arith, c.fits, c.buffers.1)) in
          let (tc, packs, pkt) =
            twalk-packs c.f.fid c.g.fid limit names dotu tc0 ok fits
              (omega (arith, long, c.fits)) in
          let s0 : Session W = record s { tchan = tcs } in
          let (tcs2, run, h2) = ask_outcome remote tc s0 walking.answering h1 in
          step_outcome p names s c tc0 tc tcs tcs2 ((remote tc s.world).1)
            (outcome_of ((remote tc s.world).0)) take_run packs run h2
            (walking.moves tc s.world c.f.fid c.g.fid names
              (read_back (twalk c.f.fid c.g.fid names) dotu tc.pkt ok twalk_ne pkt) few)

  -- The loop of FWalk over the Walk of this package, between fids that are there, of names that fit into a
  -- message together, from a server whose responses to a Twalk of at most 16 names have as many qids as
  -- there are names only where newfid then stands where the names lead from fid; the fuel is more than the
  -- number of names: the loop ends, and unless it fails, the new fid stands where all the names lead from
  -- the first fid.
  pub walk_batches-Arrived :
      (fuel : ℕ) (p : FidPtr) (names : List Bytes) (s : Session W)
      → IsWalking
      → CanWalk dotu limit new p s
      → FitIn limit names
      → length names < fuel
      → Batched (walk_step remote new) place new (CanWalk dotu limit new) limit fuel p names s
  walk_batches-Arrived fuel p names s walking c fits enough =
      batches_over (walk_step remote new) place new (CanWalk dotu limit new) limit fuel p names s
        (walk_step-IsWalker walking) c fits enough
