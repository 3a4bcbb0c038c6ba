-- ===== src/Clnt/Readdir/Reads.antt =====
-- Readdir of p/clnt/read.go, over reads of which each gives some whole entries, or meets the end, or fails.
use chan.Prelude.{
  ℕ, zero, suc, ◌+◌, ◌%◌, ◌^◌, ◌<◌, ◌==◌, Bool, false, ◌≡◌, ◌≢◌, refl, sym, ap, ◌∙◌, arith, List,
  [], ◌∷◌, ◌++◌, All, length, length-append, take,
}
use chan.Prelude.Run.{done}
use chan.Wire.Types.{Bytes, Dir, zero_dir}
use chan.Wire.Stat.Laws.{dir_bytes, wire_dir, IsDir, length-dir_bytes}
use chan.Wire.Types.{IsU64}
use chan.Clnt.Readdir.{
  entries_of, readdir, ended, dirs_bytes, as_read, statsz_positive, entries_of-as_read,
}
use chan.Clnt.Calls.{
  CallError, packing, eof, rpc_failed, server_said, file_not_found, Answer, returns, fails, Session,
  Call, fail,
}

module _ {W : Type 0} (at : Bytes → ℕ → Call W (ℕ × Bytes)) (dotu : Bool) (left : ℕ → List Dir)
    (room : ℕ) (Good : Session W → Type 0) where
  -- What a read of a directory gives, of which `left` is what is behind an offset: some whole entries, or
  -- the end of the file, or another error.
  abbrev pub Listed : ℕ → Answer (ℕ × Bytes) → Type 0
  Listed offset (returns (n, buf)) =
      (seen : List Dir) × (0 < length seen)
      × All (λ d. IsDir d dotu) seen
      × (left offset ≡ seen ++ left ((offset + n) % 2 ^ 64))
      × (n ≡ length (dirs_bytes dotu seen))
      × (take n buf ≡ dirs_bytes dotu seen)
      × (length buf ≡ room)
  Listed offset (fails e) = e ≡ eof → left offset ≡ []

  pub record IsDirectory : Type 0 where
    pub lists :
        (buf : Bytes) (offset : ℕ) (s : Session W)
        → Good s
        → IsU64 offset
        → length buf ≡ room
        → (a : Answer (ℕ × Bytes)) × (s' : Session W) × (at buf offset s ≡ done (a, s'))
          × Listed offset a
          × Good s'

  -- What Readdir returns: all entries behind the offset, or an error, which is not io.EOF.
  abbrev pub IsAll : ℕ → Answer (List Dir × ℕ) → Type 0
  IsAll offset (returns (ds, behind)) = ds ≡ as_read dotu (left offset)
  IsAll offset (fails e) = e ≢ eof

  abbrev pub Whole : ℕ → Bytes → ℕ → ℕ → Session W → Type 0
  Whole fuel buf offset pos s =
      (a : Answer (List Dir × ℕ)) × (s' : Session W) × (readdir fuel at dotu 0 buf offset pos s
        ≡ done (a, s'))
      × IsAll offset a

  ends_run :
      (fuel pos offset : ℕ) (buf : Bytes) (s s1 : Session W)
      → at buf offset s ≡ done (fails eof, s1)
      → readdir (suc fuel) at dotu 0 buf offset pos s ≡ done (returns ([], offset), s1)
  unfolding readdir
  ends_run fuel pos offset buf s s1 run = rw run refl

  fails_run :
      (fuel pos offset : ℕ) (buf : Bytes) (s s1 : Session W) (e : CallError)
      → at buf offset s ≡ done (fails e, s1)
      → ended {W = W} (fails e) ≡ fail e
      → readdir (suc fuel) at dotu 0 buf offset pos s ≡ done (fails e, s1)
  unfolding readdir
  fails_run fuel pos offset buf s s1 e run other = rw (run, other) refl

  abbrev more_of : List Dir → Answer (List Dir × ℕ) → Answer (List Dir × ℕ)
  more_of ds (returns (more, behind)) = returns (ds ++ more, behind)
  more_of ds (fails e) = fails e

  goes_run :
      (fuel pos offset n : ℕ) (buf buf1 : Bytes) (ds : List Dir) (a : Answer (List Dir × ℕ))
      (s s1 s2 : Session W)
      → at buf offset s ≡ done (returns (n, buf1), s1)
      → n == 0 ≡ false
      → entries_of (suc n) dotu 0 pos (take n buf1) s1 ≡ done (returns ds, s1)
      → readdir fuel at dotu 0 buf1 ((offset + n) % 2 ^ 64) (pos + length ds) s1 ≡ done (a, s2)
      → readdir (suc fuel) at dotu 0 buf offset pos s ≡ done (more_of ds a, s2)
  unfolding readdir
  goes_run fuel pos offset n buf buf1 ds (returns (more, behind)) s s1 s2 run some_n entries rest =
      rw (run, some_n) (rw entries (rw rest refl))
  goes_run fuel pos offset n buf buf1 ds (fails e) s s1 s2 run some_n entries rest =
      rw (run, some_n) (rw entries (rw rest refl))

  as_read-append : (xs ys : List Dir) → as_read dotu (xs ++ ys) ≡ as_read dotu xs ++ as_read dotu ys
  as_read-append [] ys = refl
  as_read-append (x ∷ xs) ys = ap (λ l. wire_dir x dotu zero_dir ∷ l) (as_read-append xs ys)

  bytes_least : (ds : List Dir) → 0 < length ds → 0 < length (dirs_bytes dotu ds)
  bytes_least [] h = absurd (omega arith)
  bytes_least (d ∷ ds) h = omega (
    arith,
    length-append (dir_bytes d dotu) (dirs_bytes dotu ds),
    length-dir_bytes d dotu,
    statsz_positive d dotu,
  )

  IsAll-more :
      (offset on : ℕ) (seen : List Dir) (a : Answer (List Dir × ℕ))
      → left offset ≡ seen ++ left on
      → IsAll on a
      → IsAll offset (more_of (as_read dotu seen) a)
  IsAll-more offset on seen (returns (ds, behind)) parts all =
      ap (λ l. as_read dotu seen ++ l) all
      ∙ sym (as_read-append seen (left on))
      ∙ ap (λ l. as_read dotu l) (sym parts)
  IsAll-more offset on seen (fails e) parts other = other

  one_fails :
      (fuel pos offset : ℕ) (buf : Bytes) (s s1 : Session W) (e : CallError)
      → at buf offset s ≡ done (fails e, s1)
      → Listed offset (fails e)
      → Whole (suc fuel) buf offset pos s
  one_fails fuel pos offset buf s s1 eof run end = (
    returns ([], offset),
    s1,
    ends_run fuel pos offset buf s s1 run,
    ap (λ l. as_read dotu l) (sym (end refl)),
  )
  one_fails fuel pos offset buf s s1 (packing e) run end =
      (_, s1, fails_run fuel pos offset buf s s1 (packing e) run refl, λ h. cc)
  one_fails fuel pos offset buf s s1 (rpc_failed e) run end =
      (_, s1, fails_run fuel pos offset buf s s1 (rpc_failed e) run refl, λ h. cc)
  one_fails fuel pos offset buf s s1 (server_said t e) run end =
      (_, s1, fails_run fuel pos offset buf s s1 (server_said t e) run refl, λ h. cc)
  one_fails fuel pos offset buf s s1 file_not_found run end =
      (_, s1, fails_run fuel pos offset buf s s1 file_not_found run refl, λ h. cc)

  one_read :
      (fuel pos offset : ℕ) (buf : Bytes) (s s1 : Session W) (a : Answer (ℕ × Bytes))
      → at buf offset s ≡ done (a, s1)
      → Listed offset a
      → ((n k : ℕ) (buf1 : Bytes)
          → length buf1 ≡ room
          → length (left ((offset + n) % 2 ^ 64)) < length (left offset)
          → Whole fuel buf1 ((offset + n) % 2 ^ 64) k s1)
      → Whole (suc fuel) buf offset pos s
  one_read fuel pos offset buf s s1 (fails e) run end again =
      one_fails fuel pos offset buf s s1 e run end
  one_read fuel pos offset buf s s1 (returns (n, buf1)) run
        (seen, some_seen, fit, parts, size, bytes, long) again =
      let on = (offset + n) % 2 ^ 64 in
      let least = bytes_least seen some_seen in
      let less : length (left on) < length (left offset) =
        omega (arith, ap (λ (l : List Dir). length l) parts, length-append seen (left on)) in
      let (a, s2, rest, all) = again n (pos + length (as_read dotu seen)) buf1 long less in
      let entries =
        ap (λ b. entries_of (suc n) dotu 0 pos b s1) bytes
        ∙ entries_of-as_read (suc n) pos dotu seen s1 fit (omega (arith, size)) in
      (
        more_of (as_read dotu seen) a,
        s2,
        goes_run fuel pos offset n buf buf1 (as_read dotu seen) a s s1 s2 run (grind arith) entries
            rest,
        IsAll-more offset on seen a parts all,
      )

  -- Readdir of all entries, over reads each of which gives some whole entries, or meets the end, or fails.
  pub readdir_over :
      (fuel pos offset : ℕ) (buf : Bytes) (s : Session W)
      → IsDirectory
      → Good s
      → IsU64 offset
      → length buf ≡ room
      → length (left offset) < fuel
      → Whole fuel buf offset pos s
  readdir_over zero pos offset buf s directory good u64 long enough = absurd (omega arith)
  readdir_over (suc fuel) pos offset buf s directory good u64 long enough =
      let (a, s1, run, listed, good1) = directory.lists buf offset s good u64 long in
      one_read fuel pos offset buf s s1 a run listed (λ n k buf1 long1 less.
        readdir_over fuel k ((offset + n) % 2 ^ 64) buf1 s1 directory good1 (omega arith) long1
          (omega arith))
