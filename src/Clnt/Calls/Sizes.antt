-- ===== src/Clnt/Calls/Sizes.antt =====
-- What Open and Create make of the size of the messages, and that a Write then fits into its buffer.
use chan.Prelude.{
  ℕ, zero, suc, ◌+◌, ◌%◌, ◌^◌, ◌≤◌, ◌<◌, ◌≡◌, ◌≢◌, refl, sym, ap, ◌∙◌, append-nil, arith, Bool,
  false, ltb, Bool-cases, inl, inr, Option, some, [], ◌∷◌, length, take,
}
use chan.Prelude.Run.{done, update}
use chan.Prelude.Distinct.{eq_same}
use chan.Wire.Result
use chan.Wire.Types.{IsU8, IsU32, IsU64, Bytes, Fcall, notag}
use chan.Wire.PackT.{pack_topen, pack_twrite}
use chan.Wire.Ints.{le64, le32, le16, le8}
use chan.Wire.Message.{
  Message, frame, topen, twrite, rwstat, encode, decoded, body_bytes, IsMessage, HasFields,
  pack_message,
}
use chan.Wire.Unpack.{unpack}
use chan.Wire.Message.Unpack.{unpack-encode}
use chan.Wire.Message.Pack.{pack_message-encode}
use chan.Clnt.Calls.{
  FidPtr, Answer, returns, fails, Fid, Reply, Session, follow, pure, take_fcall, ask,
}
use chan.Clnt.Calls.Runs.{HasBuffers, take_fcall_run, IsAnswering, ask_run}
use chan.Clnt.Calls.Io.{iohdrsz, sized, clipped, set_open, open_fid, write}

-- What the Iounit of an open fid is.
pub sized-fits :
    (msize iounit : ℕ) → iohdrsz ≤ msize → IsU32 msize → sized msize iounit + iohdrsz ≤ msize
unfolding sized
sized-fits msize iounit least u32 = ground arith

pub sized-positive : (msize iounit : ℕ) → iohdrsz < msize → IsU32 msize → 0 < sized msize iounit
unfolding sized
sized-positive msize iounit least u32 = ground arith

topen-IsMessage :
    (fid mode : ℕ) (dotu : Bool) → IsU32 fid → IsU8 mode → IsMessage (topen fid mode) dotu
unfolding HasFields body_bytes le32 le16 le8
topen-IsMessage fid mode dotu u32 u8 = record { fields = (u32, u8); size = omega arith }

topen-packs :
    (fid mode : ℕ) (fc : Fcall)
    → IsU32 fid
    → IsU8 mode
    → iohdrsz ≤ length fc.buf
    → (tc : Fcall) × (pack_topen fc fid mode ≡ Result.ok tc)
unfolding pack_message body_bytes le32 le16 le8 encode frame
topen-packs fid mode fc u32 u8 long =
    let (tc, run, _) =
      pack_message-encode (topen fid mode) false fc (topen-IsMessage fid mode false u32 u8)
        (omega arith) in
    (tc, run)

pub twrite-IsMessage :
    (fid offset : ℕ) (bytes : Bytes) (dotu : Bool)
    → IsU32 fid
    → IsU64 offset
    → length bytes + iohdrsz < 2 ^ 32
    → IsMessage (twrite fid offset bytes) dotu
unfolding HasFields body_bytes le64 le32 le16 le8
twrite-IsMessage fid offset bytes dotu u32 u64 small = record {
  fields = (u32, u64);
  size = omega arith;
}

pub twrite-packs :
    (fid offset : ℕ) (bytes : Bytes) (dotu : Bool) (fc : Fcall)
    → IsU32 fid
    → IsU64 offset
    → length bytes + iohdrsz ≤ length fc.buf
    → length bytes + iohdrsz < 2 ^ 32
    → (tc : Fcall) × (pack_twrite fc fid offset (length bytes % 2 ^ 32) bytes ≡ Result.ok tc)
      × (tc.pkt ≡ encode (twrite fid offset bytes) dotu notag)
unfolding pack_message body_bytes le64 le32 le16 le8 encode frame
twrite-packs fid offset bytes dotu fc u32 u64 fits small =
    let same : length bytes % 2 ^ 32 ≡ length bytes = omega arith in
    rw same (
      pack_message-encode (twrite fid offset bytes) dotu fc
        (twrite-IsMessage fid offset bytes dotu u32 u64 small) (omega arith))

take_all : (n : ℕ) (xs : Bytes) → length xs ≤ n → take n xs ≡ xs
take_all zero [] h = refl
take_all zero (x ∷ xs) h = absurd (omega arith)
take_all (suc n) [] h = refl
take_all (suc n) (x ∷ xs) h = ap (λ t. x ∷ t) (take_all n xs (omega arith))

pub length-clip : (n : ℕ) (xs : Bytes) → length (take n xs) ≤ n
length-clip zero xs = omega arith
length-clip (suc n) [] = omega arith
length-clip (suc n) (x ∷ xs) = omega (arith, length-clip n xs)

pub read_back :
    (m : Message) (dotu : Bool) (pkt : Bytes)
    → IsMessage m dotu
    → m ≢ rwstat
    → pkt ≡ encode m dotu notag
    → unpack pkt dotu ≡ Result.ok (decoded m dotu notag, length pkt)
read_back m dotu pkt fits other e =
    ap (λ l. unpack l dotu) (e ∙ sym (append-nil (encode m dotu notag)))
    ∙ unpack-encode m dotu notag [] fits (omega arith) (inl other)
    ∙ ap (λ (l : Bytes). Result.ok (decoded m dotu notag, length l)) (sym e)

pub twrite_ne : {fid offset : ℕ} {bytes : Bytes} → twrite fid offset bytes ≢ rwstat
twrite_ne e = cc

module _ {W : Type 0} (remote : Fcall → W → Reply × W) where
  open_follow :
      (s s1 : Session W) (p : FidPtr) (f : Fid) (mode : ℕ) (tc0 tc : Fcall)
      → s.fids p ≡ some f
      → take_fcall s ≡ done (returns tc0, s1)
      → pack_topen tc0 f.fid mode ≡ Result.ok tc
      → open_fid remote p mode s ≡ follow (ask remote tc s1) (set_open remote p mode)
  unfolding open_fid
  open_follow s s1 p f mode tc0 tc cell take packs = rw cell (rw take (rw packs refl))

  -- What Open leaves: a fid whose Iounit leaves room for a header in a message; or all fids as they
  -- were.
  abbrev pub Opened : Session W → FidPtr → ℕ → Answer (Unit {0}) → Session W → Type 0
  Opened s p mode (returns _) s' =
      (f : Fid) × (s'.fids p ≡ some f) × (f.mode ≡ mode) × (f.iounit + iohdrsz ≤ s'.msize)
  Opened s p mode (fails e) s' = s'.fids ≡ s.fids

  set_open_run :
      (a : Answer Fcall) (s0 s : Session W) (p : FidPtr) (f : Fid) (mode : ℕ)
      → s.fids p ≡ some f
      → s.fids ≡ s0.fids
      → HasBuffers s.msize s.tchan
      → (a' : Answer (Unit {0})) × (fids : FidPtr → Option Fid) × (follow
            (done (a, s))
            (set_open remote p mode)
          ≡ done (a', record s { fids = fids }))
        × Opened s0 p mode a' (record s { fids = fids })
  set_open_run (fails e) s0 s p f mode cell same h = (fails e, s.fids, refl, same)
  set_open_run (returns rc) s0 s p f mode cell same (least, u32, _) =
      let g = record f { qid = rc.qid; iounit = sized s.msize rc.iounit; mode = mode } in
      (
        returns tt,
        update s.fids p (some g),
        rw cell refl,
        (g, rw (eq_same p) refl, refl, sized-fits s.msize rc.iounit least u32),
      )

  -- Open of a fid, where the messages have room for a header: it dereferences no nil pointer, and the
  -- fid has the mode and an Iounit that leaves room for a header; or Open fails and no fid is changed.
  pub open_fid-Opened :
      (s : Session W) (p : FidPtr) (f : Fid) (mode : ℕ)
      → IsAnswering remote
      → HasBuffers s.msize s.tchan
      → s.fids p ≡ some f
      → IsU32 f.fid
      → IsU8 mode
      → (a : Answer (Unit {0})) × (s' : Session W) × (open_fid remote p mode s ≡ done (a, s'))
        × Opened s p mode a s'
        × HasBuffers s'.msize s'.tchan
  open_fid-Opened s p f mode answering h cell u32 u8 =
      let (tc0, tcs, take, long, h1) = take_fcall_run s h in
      let (tc, packs) = topen-packs f.fid mode tc0 u32 u8 (omega (arith, h.0)) in
      let s1 : Session W = record s { tchan = tcs } in
      let (a, w, tcs2, run, h2) = ask_run remote tc s1 answering h1 in
      let s2 : Session W = record s1 { world = w; tchan = tcs2 } in
      let (a', fids, run', opened) = set_open_run a s s2 p f mode cell refl h2 in
      (
        a',
        record s2 { fids = fids },
        open_follow s s1 p f mode tc0 tc cell take packs
            ∙ ap (λ o. follow o (set_open remote p mode)) run
            ∙ run',
        opened,
        h2,
      )

  pub write_follow :
      (s s1 : Session W) (p : FidPtr) (f : Fid) (bytes : Bytes) (offset : ℕ) (tc0 tc : Fcall)
      → s.fids p ≡ some f
      → take_fcall s ≡ done (returns tc0, s1)
      → pack_twrite tc0 f.fid offset
          (length (clipped remote f.iounit bytes) % 2 ^ 32)
          (clipped remote f.iounit bytes)
        ≡ Result.ok tc
      → write remote p bytes offset s ≡ follow (ask remote tc s1) (λ rc. pure rc.count)
  unfolding write
  write_follow s s1 p f bytes offset tc0 tc cell take packs = rw cell (rw take (rw packs refl))

  pub clipped_lem :
      (iounit : ℕ) (bytes : Bytes)
      → IsU32 (length bytes)
      → clipped remote iounit bytes ≡ take iounit bytes
  clipped_lem iounit bytes u32 = elim (Bool-cases (ltb iounit (length bytes % 2 ^ 32))) [
    | inl more ↦ rw more refl
    | inr less ↦ rw less (sym (take_all iounit bytes (grind arith)))
  ]

  abbrev pub count_of : Answer Fcall → Answer ℕ
  count_of (returns rc) = returns rc.count
  count_of (fails e) = fails e

  pub follow_count :
      (a : Answer Fcall) (s : Session W)
      → follow (done (a, s)) (λ rc. pure rc.count) ≡ done (count_of a, s)
  follow_count (returns rc) s = refl
  follow_count (fails e) s = refl

  -- Write of any bytes that a slice with an uint32 for its length can hold, to a fid whose Iounit leaves
  -- room for a header: no Pack function fails; the packet is Twrite of the bytes up to the Iounit,
  -- which Unpack reads back, and Write returns the count of the response, or the error with which the
  -- request came back.
  pub write-encode :
      (s : Session W) (p : FidPtr) (f : Fid) (bytes : Bytes) (offset : ℕ)
      → IsAnswering remote
      → HasBuffers s.msize s.tchan
      → s.fids p ≡ some f
      → f.iounit + iohdrsz ≤ s.msize
      → IsU32 f.fid
      → IsU64 offset
      → IsU32 (length bytes)
      → (tc : Fcall) × (s1 s2 : Session W) × (a : Answer Fcall) × (tc.pkt
          ≡ encode (twrite f.fid offset (take f.iounit bytes)) s.dotu notag)
        × (unpack tc.pkt s.dotu
            ≡ Result.ok
                (decoded (twrite f.fid offset (take f.iounit bytes)) s.dotu notag, length tc.pkt))
        × (ask remote tc s1 ≡ done (a, s2))
        × (write remote p bytes offset s ≡ done (count_of a, s2))
        × (s2.fids ≡ s.fids)
        × HasBuffers s2.msize s2.tchan
  write-encode s p f bytes offset answering h cell fits u32 u64 len =
      let (tc0, tcs, take_run, long, h1) = take_fcall_run s h in
      let clip = clipped_lem f.iounit bytes len in
      let short = length-clip f.iounit bytes in
      let (tc, packs, pkt) =
        twrite-packs f.fid offset (take f.iounit bytes) s.dotu tc0 u32 u64 (omega arith)
          (omega (arith, h.1)) in
      let s1 : Session W = record s { tchan = tcs } in
      let (a, w, tcs2, run, h2) = ask_run remote tc s1 answering h1 in
      let s2 : Session W = record s1 { world = w; tchan = tcs2 } in
      (
        tc,
        s1,
        s2,
        a,
        pkt,
        read_back (twrite f.fid offset (take f.iounit bytes)) s.dotu tc.pkt
            (twrite-IsMessage f.fid offset (take f.iounit bytes) s.dotu u32 u64
              (omega (arith, h.1)))
            twrite_ne pkt,
        run,
        write_follow s s1 p f bytes offset tc0 tc cell take_run
              (ap (λ c. pack_twrite tc0 f.fid offset (length c % 2 ^ 32) c) clip ∙ packs)
            ∙ ap (λ o. follow o (λ rc. pure rc.count)) run
            ∙ follow_count a s2,
        refl,
        h2,
      )
