-- ===== src/Clnt/Calls/Stores.antt =====
-- Writen of p/clnt/write.go, over the Write of this package and a server that stores bytes.
use chan.Prelude.{
  ℕ, zero, suc, ◌+◌, ◌%◌, ◌^◌, ◌≤◌, ◌<◌, ◌≡◌, refl, sym, ap, ◌∙◌, arith, Bool, some, List, [], ◌∷◌,
  length, take,
}
use mathlib.Core.Path.{subst}
use chan.Prelude.Run.{done}
use chan.Wire.Result
use chan.Wire.Types.{IsU32, IsU64, Bytes, Fcall, notag}
use chan.Wire.PackT.{pack_twrite}
use chan.Wire.Message.{twrite, decoded}
use chan.Wire.Unpack.{unpack}
use chan.Clnt.Calls.{FidPtr, Answer, returns, fails, Fid, Reply, Session, follow, pure}
use chan.Clnt.Calls.Runs.{HasBuffers, take_fcall_run, IsAnswering, outcome_of, ask_outcome}
use chan.Clnt.Calls.Io.{iohdrsz, write}
use chan.Clnt.Calls.Sizes.{
  twrite-packs, twrite-IsMessage, twrite_ne, read_back, write_follow, clipped_lem, follow_count,
  count_of, length-clip,
}
use chan.Clnt.Calls.Transfer.{put, Wrote, IsWriter, Written, writen-Written}

pub take-clip :
    (n k : ℕ) (bytes : Bytes) → n ≤ length (take k bytes) → take n (take k bytes) ≡ take n bytes
take-clip zero k bytes h = refl
take-clip (suc n) zero bytes h = absurd (omega arith)
take-clip (suc n) (suc k) [] h = refl
take-clip (suc n) (suc k) (b ∷ bs) h = ap (λ l. b ∷ l) (take-clip n k bs (omega arith))

pub length-clip_least : (k : ℕ) (bytes : Bytes) → length (take k bytes) ≤ length bytes
length-clip_least zero bytes = omega arith
length-clip_least (suc k) [] = omega arith
length-clip_least (suc k) (b ∷ bs) = omega (arith, length-clip_least k bs)

pub clip_some : (k c : ℕ) (cs : Bytes) → 0 < k → 0 < length (take k (c ∷ cs))
clip_some zero c cs h = absurd (omega arith)
clip_some (suc k) c cs h = omega arith

-- A session in which the fid is open, as Open leaves it.
pub record IsOpen {W : Type 0} (p : FidPtr) (fid : ℕ) (dotu : Bool) (s : Session W) : Type 0 where
  pub f : Fid
  pub cell : s.fids p ≡ some f
  pub number : f.fid ≡ fid
  pub dialect : s.dotu ≡ dotu
  pub fits : f.iounit + iohdrsz ≤ s.msize
  pub some_room : 0 < f.iounit
  pub buffers : HasBuffers s.msize s.tchan

module _ {W : Type 0} (remote : Fcall → W → Reply × W) (store : W → ℕ → ℕ) (fid : ℕ)
    (dotu : Bool) where
  -- What a Twrite of some bytes does: some of them are stored, and counted; or there is an error, and none
  -- is stored.
  abbrev pub Stored : ℕ → Bytes → Answer Fcall → W → W → Type 0
  Stored offset bytes (returns rc) w w' =
      (0 < rc.count)
      × (rc.count ≤ length bytes)
      × (store w' ≡ put (store w) offset (take rc.count bytes))
  Stored offset bytes (fails e) w w' = store w' ≡ store w

  -- A server that does this for each packet that it reads as a Twrite of the fid.
  pub record IsStoring : Type 0 where
    pub answering : IsAnswering remote
    pub stores :
        (tc : Fcall) (w : W) (offset : ℕ) (bytes : Bytes)
        → unpack tc.pkt dotu
          ≡ Result.ok (decoded (twrite fid offset bytes) dotu notag, length tc.pkt)
        → 0 < length bytes
        → Stored offset bytes (outcome_of ((remote tc w).0)) w ((remote tc w).1)

  abbrev pub stored_in : Session W → ℕ → ℕ
  stored_in s = store s.world

  write_run :
      (p : FidPtr) (f : Fid) (bytes : Bytes) (offset : ℕ) (s : Session W)
      → IsAnswering remote
      → HasBuffers s.msize s.tchan
      → s.fids p ≡ some f
      → f.iounit + iohdrsz ≤ s.msize
      → IsU32 f.fid
      → IsU64 offset
      → IsU32 (length bytes)
      → (tc : Fcall) × (tcs : List Fcall) × (unpack tc.pkt s.dotu
          ≡ Result.ok
              (decoded (twrite f.fid offset (take f.iounit bytes)) s.dotu notag, length tc.pkt))
        × (write remote p bytes offset s
            ≡ done (
              count_of remote (outcome_of ((remote tc s.world).0)),
              record s { world = (remote tc s.world).1; tchan = tcs },
            ))
        × HasBuffers s.msize tcs
  write_run p f bytes offset s answering h cell fits u32 u64 len =
      let (tc0, tcs, take_run, long, h1) = take_fcall_run s h in
      let short = length-clip f.iounit bytes in
      let (tc, packs, pkt) =
        twrite-packs f.fid offset (take f.iounit bytes) s.dotu tc0 u32 u64 (omega arith)
          (omega (arith, h.1)) in
      let s1 : Session W = record s { tchan = tcs } in
      let (tcs2, run, h2) = ask_outcome remote tc s1 answering h1 in
      let got = outcome_of ((remote tc s.world).0) in
      (
        tc,
        tcs2,
        read_back (twrite f.fid offset (take f.iounit bytes)) s.dotu tc.pkt
            (twrite-IsMessage f.fid offset (take f.iounit bytes) s.dotu u32 u64
              (omega (arith, h.1)))
            twrite_ne pkt,
        write_follow remote s s1 p f bytes offset tc0 tc cell take_run (
              ap (λ c. pack_twrite tc0 f.fid offset (length c % 2 ^ 32) c)
                (clipped_lem remote f.iounit bytes len)
              ∙ packs)
            ∙ ap (λ o. follow o (λ rc. pure rc.count)) run
            ∙ follow_count remote got (record s1 { world = (remote tc s.world).1; tchan = tcs2 }),
        h2,
      )

  Stored-Wrote :
      (p : FidPtr) (k : ℕ) (bytes : Bytes) (offset : ℕ) (s : Session W) (a : Answer Fcall) (w : W)
      (tcs : List Fcall)
      → Stored offset (take k bytes) a s.world w
      → Wrote
          (write remote p)
          stored_in
          (IsOpen p fid dotu)
          bytes
          offset
          s
          (count_of remote a)
          (record s { world = w; tchan = tcs })
  Stored-Wrote p k bytes offset s (fails e) w tcs none_stored = none_stored
  Stored-Wrote p k bytes offset s (returns rc) w tcs (some_n, most, stored) = (
    some_n,
    omega (arith, most, length-clip_least k bytes),
    stored ∙ ap (λ l. put (store s.world) offset l) (take-clip rc.count k bytes most),
  )

  -- The Write of this package over such a server, of a fid that is open.
  write-IsWriter :
      (p : FidPtr) → IsStoring → IsU32 fid → IsWriter (write remote p) stored_in (IsOpen p fid dotu)
  write-IsWriter p storing u32 = record { writes = writes }
    where
      writes :
          (c : ℕ) (cs : Bytes) (offset : ℕ) (s : Session W)
          → IsOpen p fid dotu s
          → IsU64 offset
          → IsU32 (length (c ∷ cs))
          → (a : Answer ℕ) × (s' : Session W) × (write remote p (c ∷ cs) offset s ≡ done (a, s'))
            × Wrote (write remote p) stored_in (IsOpen p fid dotu) (c ∷ cs) offset s a s'
            × IsOpen p fid dotu s'
      writes c cs offset s o u64 len =
          let (tc, tcs, read, run, h) =
            write_run p o.f (c ∷ cs) offset s storing.answering o.buffers o.cell o.fits
              (subst IsU32 (sym o.number) u32) u64 len in
          let bytes = take o.f.iounit (c ∷ cs) in
          let read' : unpack tc.pkt dotu
              ≡ Result.ok (decoded (twrite fid offset bytes) dotu notag, length tc.pkt) =
            subst
              (λ n.
                unpack tc.pkt dotu
                ≡ Result.ok (decoded (twrite n offset bytes) dotu notag, length tc.pkt))
              o.number
              (subst
                (λ d.
                  unpack tc.pkt d
                  ≡ Result.ok (decoded (twrite o.f.fid offset bytes) d notag, length tc.pkt))
                o.dialect read) in
          (
            _,
            _,
            run,
            Stored-Wrote p o.f.iounit (c ∷ cs) offset s (outcome_of ((remote tc s.world).0))
                ((remote tc s.world).1) tcs
                (storing.stores tc s.world offset bytes read'
                  (clip_some o.f.iounit c cs o.some_room)),
            record {
              f = o.f;
              cell = o.cell;
              number = o.number;
              dialect = o.dialect;
              fits = o.fits;
              some_room = o.some_room;
              buffers = h;
            },
          )

  -- Writen of a fid that is open, with an Iounit that is not 0 and leaves room for a header in a message, to
  -- a server that stores and counts at least one of the bytes of each Twrite, or answers with an error and
  -- stores none; the fuel is more than the length, and the offsets stay below 2^64: Writen ends, the
  -- server has stored the first bytes of the buffer, as many as Writen returns, and changed no other;
  -- these are all, unless Writen returns an error.
  pub writen-put :
      (p : FidPtr) (fuel : ℕ) (buf : Bytes) (offset : ℕ) (s : Session W)
      → IsStoring
      → IsU32 fid
      → IsOpen p fid dotu s
      → length buf < fuel
      → IsU32 (length buf)
      → offset + length buf < 2 ^ 64
      → Written (write remote p) stored_in (IsOpen p fid dotu) fuel buf offset s
  writen-put p fuel buf offset s storing u32 o enough len small =
      writen-Written (write remote p) stored_in (IsOpen p fid dotu) fuel buf offset s
        (write-IsWriter p storing u32) o enough len small
