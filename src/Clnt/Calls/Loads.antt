-- ===== src/Clnt/Calls/Loads.antt =====
-- Readn of p/clnt/read.go, over the Read and ReadAt of this package and a server that has a file.
use chan.Prelude.{
  ℕ, ◌+◌, ◌%◌, ◌^◌, ◌≤◌, ◌<◌, ◌==◌, ◌≡◌, ◌≢◌, refl, sym, ap, ◌∙◌, arith, Bool, true, ltb,
  Bool-cases, inl, inr, some, List, ◌∷◌, ◌++◌, length, take, drop, length-drop, if◌then◌else◌,
}
use mathlib.Core.Path.{subst}
use chan.Prelude.Run.{done}
use chan.Wire.Result
use chan.Wire.Types.{IsU32, IsU64, Bytes, Fcall, notag}
use chan.Wire.Ints.{copy, le64, le32, le16, le8}
use chan.Wire.Ints.Laws.{copy_lem}
use chan.Wire.PackT.{pack_tread}
use chan.Wire.Message.{
  tread, rwstat, encode, decoded, frame, body_bytes, IsMessage, HasFields, pack_message,
}
use chan.Wire.Message.Pack.{pack_message-encode}
use chan.Wire.Unpack.{unpack}
use chan.Clnt.Calls.{
  FidPtr, eof, Answer, returns, fails, Fid, Reply, Session, follow, pure, take_fcall, ask,
}
use chan.Clnt.Calls.Runs.{
  HasBuffers, take_fcall_run, IsAnswering, outcome_of, outcome_of-eof, ask_outcome,
}
use chan.Clnt.Calls.Io.{iohdrsz, read, read_at}
use chan.Clnt.Calls.Sizes.{read_back}
use chan.Clnt.Calls.Stores.{IsOpen, length-clip_least}
use chan.Clnt.Calls.Fill.{Got, IsReader, Read, readn_over}

tread-IsMessage :
    (fid offset count : ℕ) (dotu : Bool)
    → IsU32 fid
    → IsU64 offset
    → IsU32 count
    → IsMessage (tread fid offset count) dotu
unfolding HasFields body_bytes le64 le32 le16 le8
tread-IsMessage fid offset count dotu u32 u64 len = record {
  fields = (u32, u64, len);
  size = omega arith;
}

tread-packs :
    (fid offset count : ℕ) (dotu : Bool) (fc : Fcall)
    → IsU32 fid
    → IsU64 offset
    → IsU32 count
    → iohdrsz ≤ length fc.buf
    → (tc : Fcall) × (pack_tread fc fid offset count ≡ Result.ok tc)
      × (tc.pkt ≡ encode (tread fid offset count) dotu notag)
unfolding pack_message body_bytes le64 le32 le16 le8 encode frame
tread-packs fid offset count dotu fc u32 u64 len long =
    pack_message-encode (tread fid offset count) dotu fc
      (tread-IsMessage fid offset count dotu u32 u64 len) (omega arith)

tread_ne : {fid offset count : ℕ} → tread fid offset count ≢ rwstat
tread_ne e = cc

-- How much Read asks for.
abbrev pub asked : ℕ → ℕ → ℕ
asked iounit count = if ltb iounit count then iounit else count

module _ {W : Type 0} (remote : Fcall → W → Reply × W) where
  read_follow :
      (s s1 : Session W) (p : FidPtr) (f : Fid) (offset count : ℕ) (tc0 tc : Fcall)
      → s.fids p ≡ some f
      → take_fcall s ≡ done (returns tc0, s1)
      → pack_tread tc0 f.fid offset (asked f.iounit count) ≡ Result.ok tc
      → read remote p offset count s ≡ follow (ask remote tc s1) (λ rc. pure rc.dat)
  unfolding read
  read_follow s s1 p f offset count tc0 tc cell take packs = rw cell (rw take (rw packs refl))

  abbrev pub data_of : Answer Fcall → Answer Bytes
  data_of (returns rc) = returns rc.dat
  data_of (fails e) = fails e

  follow_data :
      (a : Answer Fcall) (s : Session W)
      → follow (done (a, s)) (λ rc. pure rc.dat) ≡ done (data_of a, s)
  follow_data (returns rc) s = refl
  follow_data (fails e) s = refl

  asked-IsU32 : (iounit count : ℕ) → IsU32 count → IsU32 (asked iounit count)
  asked-IsU32 iounit count u32 = ground arith

  -- A Read: the packet is Tread of as many bytes as the Iounit allows, which Unpack reads back, and Read
  -- gives the data of the response.
  pub read_run :
      (p : FidPtr) (f : Fid) (offset count : ℕ) (s : Session W)
      → IsAnswering remote
      → HasBuffers s.msize s.tchan
      → s.fids p ≡ some f
      → IsU32 f.fid
      → IsU64 offset
      → IsU32 count
      → (tc : Fcall) × (tcs : List Fcall) × (unpack tc.pkt s.dotu
          ≡ Result.ok
              (decoded (tread f.fid offset (asked f.iounit count)) s.dotu notag, length tc.pkt))
        × (read remote p offset count s
            ≡ done (
              data_of (outcome_of ((remote tc s.world).0)),
              record s { world = (remote tc s.world).1; tchan = tcs },
            ))
        × HasBuffers s.msize tcs
  read_run p f offset count s answering h cell u32 u64 len =
      let (tc0, tcs, take_run, long, h1) = take_fcall_run s h in
      let count1 = asked f.iounit count in
      let len1 = asked-IsU32 f.iounit count len in
      let (tc, packs, pkt) =
        tread-packs f.fid offset count1 s.dotu tc0 u32 u64 len1 (omega (arith, h.0)) in
      let s1 : Session W = record s { tchan = tcs } in
      let (tcs2, run, h2) = ask_outcome remote tc s1 answering h1 in
      (
        tc,
        tcs2,
        read_back (tread f.fid offset count1) s.dotu tc.pkt
            (tread-IsMessage f.fid offset count1 s.dotu u32 u64 len1) tread_ne pkt,
        read_follow s s1 p f offset count tc0 tc cell take_run packs
            ∙ ap (λ o. follow o (λ rc. pure rc.dat)) run
            ∙ follow_data (outcome_of ((remote tc s.world).0))
                (record s1 { world = (remote tc s.world).1; tchan = tcs2 }),
        h2,
      )

  -- What ReadAt makes of the data.
  abbrev pub into : Bytes → Answer Bytes → Answer (ℕ × Bytes)
  into buf (returns b) = if length b == 0 then fails eof else returns (length b, copy buf b)
  into buf (fails e) = fails e

  pub read_at_run :
      (p : FidPtr) (buf : Bytes) (offset : ℕ) (s s' : Session W) (a : Answer Bytes)
      → read remote p offset (length buf % 2 ^ 32) s ≡ done (a, s')
      → read_at remote p buf offset s ≡ done (into buf a, s')
  unfolding read_at
  read_at_run p buf offset s s' (fails e) run = rw run refl
  read_at_run p buf offset s s' (returns b) run = elim (Bool-cases (length b == 0)) [
    | inl none_left ↦ rw (run, none_left) refl
    | inr more ↦ rw (run, more) refl
  ]

-- A ReadAt of a fid that is open: what becomes of its Tread, and that the fid stays open.
pub read_at_outcome :
    {W : Type 0} (remote : Fcall → W → Reply × W) (p : FidPtr) (fid : ℕ) (dotu : Bool) (buf : Bytes)
    (offset : ℕ) (s : Session W)
    → IsAnswering remote
    → (o : IsOpen p fid dotu s) → IsU32 fid
    → IsU64 offset
    → IsU32 (length buf)
    → (tc : Fcall) × (s' : Session W) × (unpack tc.pkt dotu
        ≡ Result.ok
            (decoded (tread fid offset (asked o.f.iounit (length buf))) dotu notag, length tc.pkt))
      × (read_at remote p buf offset s
          ≡ done (into remote buf (data_of remote (outcome_of ((remote tc s.world).0))), s'))
      × (s'.world ≡ (remote tc s.world).1)
      × ((o' : IsOpen p fid dotu s') × (o'.f ≡ o.f))
read_at_outcome remote p fid dotu buf offset s answering o u32 u64 len =
    let (tc, tcs, got, run, h) =
      read_run remote p o.f offset (length buf) s answering o.buffers o.cell
        (subst IsU32 (sym o.number) u32) u64 len in
    let count = asked o.f.iounit (length buf) in
    let s' = record s { world = (remote tc s.world).1; tchan = tcs } in
    let same : length buf ≡ length buf % 2 ^ 32 = omega arith in
    (
      tc,
      s',
      subst
          (λ n.
            unpack tc.pkt dotu
            ≡ Result.ok (decoded (tread n offset count) dotu notag, length tc.pkt))
          o.number
          (subst
            (λ d.
              unpack tc.pkt d
              ≡ Result.ok (decoded (tread o.f.fid offset count) d notag, length tc.pkt))
            o.dialect got),
      read_at_run remote p buf offset s s' (data_of remote (outcome_of ((remote tc s.world).0)))
          (ap (λ n. read remote p offset n s) (sym same) ∙ run),
      refl,
      (
        record {
          f = o.f;
          cell = o.cell;
          number = o.number;
          dialect = o.dialect;
          fits = o.fits;
          some_room = o.some_room;
          buffers = h;
        },
        refl,
      ),
    )

pub asked_some : (iounit count : ℕ) → 0 < iounit → 0 < count → 0 < asked iounit count
asked_some iounit count h h' = ground arith

pub asked_most : (iounit count : ℕ) → asked iounit count ≤ count
asked_most iounit count = ground arith

empty : (b : Bytes) → length b == 0 ≡ true → length b ≡ 0
empty b e = grind arith

module _ {W : Type 0} (remote : Fcall → W → Reply × W) (file : Bytes) (fid : ℕ) (dotu : Bool) where
  -- What a Tread gives: at most as many bytes as it asks for, those of the file from the offset on, and none
  -- only where the file has ended; or an error.
  abbrev pub Loaded : ℕ → ℕ → Answer Fcall → Type 0
  Loaded offset count (returns rc) =
      (length rc.dat ≤ count)
      × (rc.dat ≡ take (length rc.dat) (drop offset file))
      × (length rc.dat ≡ 0 → length file ≤ offset)
  Loaded offset count (fails e) = Unit {0}

  -- A server that does this for each packet that it reads as a Tread of the fid.
  pub record IsLoading : Type 0 where
    pub answering : IsAnswering remote
    pub loads :
        (tc : Fcall) (w : W) (offset count : ℕ)
        → unpack tc.pkt dotu
          ≡ Result.ok (decoded (tread fid offset count) dotu notag, length tc.pkt)
        → 0 < count
        → Loaded offset count (outcome_of ((remote tc w).0))

  Loaded-Got :
      (p : FidPtr) (buf : Bytes) (offset count : ℕ) (a : Answer Fcall)
      → a ≢ fails eof
      → count ≤ length buf
      → Loaded offset count a
      → Got
          (read_at remote p)
          file
          (IsOpen p fid dotu)
          buf
          offset
          (into remote buf (data_of remote a))
  Loaded-Got p buf offset count (fails e) other most _ =
      λ end. absurd (other (ap (λ x. fails x) end))
  Loaded-Got p buf offset count (returns rc) other most (small, parts, end) =
      elim (Bool-cases (length rc.dat == 0)) [
        | inl none_left ↦ rw none_left (λ _. end (empty rc.dat none_left))
        | inr more ↦
            let short = length-clip_least (length rc.dat) (drop offset file) in
            let same = ap (λ (l : Bytes). length l) parts in
            let some_n : 0 < length rc.dat = grind arith in
            rw more (
              some_n,
              omega (arith, small, most),
              omega (arith, short, same, some_n, length-drop offset file),
              copy_lem buf rc.dat (omega (arith, small, most))
                  ∙ ap (λ l. l ++ drop (length rc.dat) buf) parts,
            )
      ]

  -- The ReadAt of this package over such a server, of a fid that is open.
  read_at-IsReader :
      (p : FidPtr) → IsLoading → IsU32 fid → IsReader (read_at remote p) file (IsOpen p fid dotu)
  read_at-IsReader p loading u32 = record {
    reads = λ c cs offset s o u64 len.
        let (tc, s', got, run, _, (o', _)) =
          read_at_outcome remote p fid dotu (c ∷ cs) offset s loading.answering o u32 u64 len in
        (
          _,
          s',
          run,
          Loaded-Got p (c ∷ cs) offset (asked o.f.iounit (length (c ∷ cs)))
              (outcome_of ((remote tc s.world).0)) (outcome_of-eof ((remote tc s.world).0))
              (asked_most o.f.iounit (length (c ∷ cs)))
              (loading.loads tc s.world offset (asked o.f.iounit (length (c ∷ cs))) got
                (asked_some o.f.iounit (length (c ∷ cs)) o.some_room (omega arith))),
          o',
        );
  }

  -- Readn of a fid that is open, with an Iounit that is not 0 and leaves room for a header in a message, from
  -- a server that answers each Tread with at least one byte of the file, and at most as many as are asked
  -- for, with none only at its end, or with an error; the fuel is more than the length, the offsets
  -- stay below 2^64, and the first is not behind the end: Readn ends; it fills the buffer with the
  -- bytes of the file from the offset on, or fails, with io.EOF only where the file ends before.
  pub readn-Filled :
      (p : FidPtr) (fuel : ℕ) (buf : Bytes) (offset : ℕ) (s : Session W)
      → IsLoading
      → IsU32 fid
      → IsOpen p fid dotu s
      → length buf < fuel
      → IsU32 (length buf)
      → offset + length buf < 2 ^ 64
      → offset ≤ length file
      → Read (read_at remote p) file (IsOpen p fid dotu) fuel buf offset s
  readn-Filled p fuel buf offset s loading u32 o enough len small inside =
      readn_over (read_at remote p) file (IsOpen p fid dotu) fuel buf offset s
        (read_at-IsReader p loading u32) o enough len small inside
