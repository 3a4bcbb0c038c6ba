-- ===== src/Clnt/Readdir/Entries.antt =====
-- Readdir of p/clnt/read.go, over the Read and ReadAt of this package and a server that has a directory.
use chan.Prelude.{
  ℕ, ◌+◌, ◌%◌, ◌^◌, ◌≤◌, ◌<◌, ◌==◌, Bool, true, false, ◌≡◌, ◌≢◌, refl, sym, ap, ◌∙◌, inl, inr,
  arith, Bool-cases, List, [], ◌∷◌, ◌++◌, All, length, length-append, take, drop, take-append,
  length-drop,
}
use mathlib.Core.Path.{subst}
use chan.Wire.Result
use chan.Wire.Types.{Bytes, Dir}
use chan.Wire.Stat.Laws.{dir_bytes, IsDir, length-dir_bytes}
use chan.Wire.Types.{IsU32, IsU64, Fcall, notag}
use chan.Wire.Message.{tread, decoded}
use chan.Wire.Unpack.{unpack}
use chan.Wire.Ints.Laws.{copy_lem}
use chan.Clnt.Calls.Runs.{IsAnswering, outcome_of, outcome_of-eof}
use chan.Clnt.Calls.Io.{read_at}
use chan.Clnt.Calls.Stores.{IsOpen}
use chan.Clnt.Calls.Loads.{into, data_of, read_at_outcome, asked, asked_most}
use chan.Clnt.Readdir.{dirs_bytes, statsz_positive}
use chan.Clnt.Calls.{Fid, FidPtr, Reply, eof, Answer, returns, fails, Session}
use chan.Clnt.Readdir.Reads.{Listed, IsDirectory, Whole, readdir_over}

empty : (b : Bytes) → length b == 0 ≡ true → length b ≡ 0
empty b e = grind arith

none_seen : (dotu : Bool) (ds : List Dir) → length (dirs_bytes dotu ds) ≡ 0 → ds ≡ []
none_seen dotu [] e = refl
none_seen dotu (d ∷ ds) e = absurd (
    omega (
      arith,
      e,
      length-append (dir_bytes d dotu) (dirs_bytes dotu ds),
      length-dir_bytes d dotu,
      statsz_positive d dotu,
    ))

some_seen :
    (dotu : Bool) (ds : List Dir) (b : Bytes)
    → b ≡ dirs_bytes dotu ds
    → length b == 0 ≡ false
    → 0 < length ds
some_seen dotu [] b e more = let h = ap (λ (l : Bytes). length l) e in absurd (grind arith)
some_seen dotu (d ∷ ds) b e more = omega arith

module _ {W : Type 0} (remote : Fcall → W → Reply × W) (left : ℕ → List Dir) (least : ℕ) (fid : ℕ)
    (dotu : Bool) where
  -- What a Tread of a directory gives: some whole entries, no more bytes than it asks for, and none only
  -- at the end; or an error.
  abbrev pub Shown : ℕ → ℕ → Answer Fcall → Type 0
  Shown offset count (returns rc) =
      (seen : List Dir) × All (λ d. IsDir d dotu) seen
      × (rc.dat ≡ dirs_bytes dotu seen)
      × (length rc.dat ≤ count)
      × (left offset ≡ seen ++ left ((offset + length rc.dat) % 2 ^ 64))
      × (seen ≡ [] → left offset ≡ [])
  Shown offset count (fails e) = Unit {0}

  -- A server that does this for each packet that it reads as a Tread of the fid which asks for enough.
  pub record IsShowing : Type 0 where
    pub answering : IsAnswering remote
    pub shows :
        (tc : Fcall) (w : W) (offset count : ℕ)
        → unpack tc.pkt dotu
          ≡ Result.ok (decoded (tread fid offset count) dotu notag, length tc.pkt)
        → IsU64 offset
        → least ≤ count
        → Shown offset count (outcome_of ((remote tc w).0))

  -- The fid is open, with an Iounit that allows enough.
  abbrev pub IsWide : FidPtr → Session W → Type 0
  IsWide p s = (o : IsOpen p fid dotu s) × (least ≤ o.f.iounit)

  Shown-Listed :
      (p : FidPtr) (buf : Bytes) (offset count : ℕ) (a : Answer Fcall)
      → a ≢ fails eof
      → count ≤ length buf
      → Shown offset count a
      → Listed
          (read_at remote p)
          dotu
          left
          (length buf)
          (IsWide p)
          offset
          (into remote buf (data_of remote a))
  Shown-Listed p buf offset count (fails e) other most _ =
      λ end. absurd (other (ap (λ x. fails x) end))
  Shown-Listed p buf offset count (returns rc) other most (seen, fit, bytes, small, parts, end) =
      elim (Bool-cases (length rc.dat == 0)) [
        | inl none_left ↦ rw none_left (λ _. end (
            none_seen dotu seen
              (ap (λ (l : Bytes). length l) (sym bytes) ∙ empty rc.dat none_left)))
        | inr more ↦
            let front = copy_lem buf rc.dat (omega (arith, small, most)) in
            rw more (
              seen,
              some_seen dotu seen rc.dat bytes more,
              fit,
              parts,
              ap (λ (l : Bytes). length l) bytes,
              ap (λ l. take (length rc.dat) l) front
                  ∙ take-append rc.dat (drop (length rc.dat) buf)
                  ∙ bytes,
              omega (
                arith,
                ap (λ (l : Bytes). length l) front,
                length-append rc.dat (drop (length rc.dat) buf),
                length-drop (length rc.dat) buf,
                small,
                most,
              ),
            )
      ]

  read_at-IsDirectory :
      (p : FidPtr) (room : ℕ)
      → IsShowing
      → IsU32 fid
      → least ≤ room
      → IsU32 room
      → IsDirectory (read_at remote p) dotu left room (IsWide p)
  read_at-IsDirectory p room showing u32 enough len = record {
    lists = λ buf offset s (o, wide) u64 long.
        let len' : IsU32 (length buf) = omega (arith, len, long) in
        let (tc, s', got, run, _, (o', same)) =
          read_at_outcome remote p fid dotu buf offset s showing.answering o u32 u64 len' in
        let count = asked o.f.iounit (length buf) in
        (
          _,
          s',
          run,
          subst
              (λ r.
                Listed (read_at remote p) dotu left r (IsWide p) offset
                  (into remote buf (data_of remote (outcome_of ((remote tc s.world).0)))))
              long
              (Shown-Listed p buf offset count (outcome_of ((remote tc s.world).0))
                (outcome_of-eof ((remote tc s.world).0)) (asked_most o.f.iounit (length buf))
                (showing.shows tc s.world offset count got u64
                  (asked_least o.f.iounit (length buf) wide (omega (arith, enough, long))))),
          (o', omega (arith, wide, ap (λ (f : Fid). f.iounit) same)),
        );
  }
    where
      asked_least : (iounit count : ℕ) → least ≤ iounit → least ≤ count → least ≤ asked iounit count
      asked_least iounit count h h' = ground arith

  -- Readdir of all entries, by a fid that is open, whose Iounit leaves room for a header in a message, from a
  -- server that answers each Tread that asks for enough bytes with some whole entries, at most as many
  -- bytes as are asked for, with none only at the end, or with an error; the Iounit and the buffer are
  -- no smaller than that, and the fuel is more than the number of the entries left: Readdir ends; it
  -- returns all the entries in order, as UnpackDir reads them, or fails, but not with io.EOF.
  pub readdir-as_read :
      (p : FidPtr) (fuel pos offset : ℕ) (buf : Bytes) (s : Session W)
      → IsShowing
      → IsU32 fid
      → IsWide p s
      → least ≤ length buf
      → IsU32 (length buf)
      → IsU64 offset
      → length (left offset) < fuel
      → Whole (read_at remote p) dotu left (length buf) (IsWide p) fuel buf offset pos s
  readdir-as_read p fuel pos offset buf s showing u32 wide enough len u64 more =
      readdir_over (read_at remote p) dotu left (length buf) (IsWide p) fuel pos offset buf s
        (read_at-IsDirectory p (length buf) showing u32 enough len) wide u64 refl more
