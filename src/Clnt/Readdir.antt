-- ===== src/Clnt/Readdir.antt =====
-- Readdir of a File, p/clnt/read.go, over what ReadAt does.
mod Examples
pub mod Reads
pub mod Entries
use chan.Prelude.{
  ℕ, zero, suc, ◌+◌, ◌-◌, ◌%◌, ◌^◌, ◌≤◌, ◌<◌, ◌==◌, ◌&&◌, not, Bool, true, false, ltb, leb,
  ltb-eq-false, ◌≡◌, refl, sym, ap, ◌∙◌, inl, inr, arith, Bool-cases, Option, none, some, List, [],
  ◌∷◌, ◌++◌, All, append-nil, append_assoc, length, length-append, take, drop, drop-append,
  if◌then◌else◌,
}
use chan.Prelude.Run.{Outcome, done, stuck}
use chan.Wire.Result
use chan.Wire.Types.{Bytes, Dir, zero_dir}
use chan.Wire.Stat.{statsz, unpack_dir}
use chan.Wire.Ints.{le16, le8}
use chan.Wire.Stat.Laws.{dir_bytes, wire_dir, IsDir, length-dir_bytes}
use chan.Wire.Stat.RoundTrip.{unpack_dir-dir_bytes}
use chan.Clnt.Calls.{
  CallError, packing, eof, rpc_failed, server_said, file_not_found, Answer, returns, fails, Session,
  Call, follow, pure, fail, crash, try, ◌>>=◌, ◌>>◌,
}

module _ {W : Type 0} where
  abbrev pub unpacked : Result.Result Dir → Call W Dir
  unpacked (Result.ok d) = pure d
  unpacked (Result.err e) = fail (packing e)
  unpacked Result.panic = crash

  -- The loop over the bytes of one read; `d.Size+2` is an uint16. Where `num` entries are there, this loop ends, and not the other.
  unfoldable pub entries_of : ℕ → Bool → ℕ → ℕ → Bytes → Call W (List Dir)
  unfolding unpack_dir
  entries_of zero dotu num pos b = λ s. stuck
  entries_of (suc n) dotu num pos [] = pure []
  entries_of (suc n) dotu num pos (c ∷ cs) = do
    d ← unpacked (unpack_dir (c ∷ cs) dotu)
    let step = (d.size + 2) % 2 ^ 16
    let rest = entries_of n dotu num (pos + 1) (drop step (c ∷ cs))
    if ltb (length (c ∷ cs)) step
        then crash
        else if not (num == 0) && leb num (pos + 1)
        then pure (d ∷ [])
        else (do ds ← rest; pure (d ∷ ds))

  abbrev pub ended : Answer (ℕ × Bytes) → Call W (ℕ × Bytes)
  ended (returns r) = pure r
  ended (fails eof) = pure (0, [])
  ended (fails e) = fail e

  -- The loop over the reads, from an offset on, with the number of the entries before; returns the
  -- offset behind.
  unfoldable pub readdir :
      ℕ → (Bytes → ℕ → Call W (ℕ × Bytes)) → Bool → ℕ → Bytes → ℕ → ℕ → Call W (List Dir × ℕ)
  unfolding entries_of
  readdir zero at dotu num buf offset pos = λ s. stuck
  readdir (suc fuel) at dotu num buf offset pos = do
    answer ← try (at buf offset)
    (n, buf1) ← ended answer
    let rest = λ (k : ℕ). readdir fuel at dotu num buf1 ((offset + n) % 2 ^ 64) (pos + k)
    if n == 0 then pure ([], offset) else (do
      ds ← entries_of (suc n) dotu num pos (take n buf1)
      (more, behind) ← rest (length ds)
      pure (ds ++ more, behind))

-- The bytes of some entries, and the entries as they are read.
abbrev pub dirs_bytes : Bool → List Dir → Bytes
dirs_bytes dotu [] = []
dirs_bytes dotu (d ∷ ds) = dir_bytes d dotu ++ dirs_bytes dotu ds

abbrev pub as_read : Bool → List Dir → List Dir
as_read dotu [] = []
as_read dotu (d ∷ ds) = wire_dir d dotu zero_dir ∷ as_read dotu ds

wire_size : (d : Dir) (dotu : Bool) → (wire_dir d dotu zero_dir).size + 2 ≡ statsz d dotu
unfolding statsz
wire_size d true = omega arith
wire_size d false = omega arith

pub statsz_positive : (d : Dir) (dotu : Bool) → 0 < statsz d dotu
unfolding statsz
statsz_positive d true = omega arith
statsz_positive d false = omega arith

non_empty :
    (d : Dir) (dotu : Bool) (rest : Bytes)
    → (c : ℕ) × (cs : Bytes) × (dir_bytes d dotu ++ rest ≡ c ∷ cs)
unfolding dir_bytes le16 le8
non_empty d true rest = (_, _, refl)
non_empty d false rest = (_, _, refl)

module _ {W : Type 0} where
  entry_run :
      (n pos : ℕ) (dotu : Bool) (c : ℕ) (cs : Bytes) (d : Dir) (ds : List Dir) (s s' : Session W)
      → unpack_dir (c ∷ cs) dotu ≡ Result.ok d
      → (d.size + 2) % 2 ^ 16 ≤ length (c ∷ cs)
      → entries_of n dotu 0 (pos + 1) (drop ((d.size + 2) % 2 ^ 16) (c ∷ cs)) s
        ≡ done (returns ds, s')
      → entries_of (suc n) dotu 0 pos (c ∷ cs) s ≡ done (returns (d ∷ ds), s')
  unfolding entries_of
  entry_run n pos dotu c cs d ds s s' e room rest =
      rw (e, ltb-eq-false (length (c ∷ cs)) ((d.size + 2) % 2 ^ 16) room) (rw rest refl)

  pub entries_of-as_read :
      (n pos : ℕ) (dotu : Bool) (ds : List Dir) (s : Session W)
      → All (λ d. IsDir d dotu) ds
      → length (dirs_bytes dotu ds) < n
      → entries_of n dotu 0 pos (dirs_bytes dotu ds) s ≡ done (returns (as_read dotu ds), s)
  unfolding entries_of
  entries_of-as_read zero pos dotu ds s fit enough = absurd (omega arith)
  entries_of-as_read (suc n) pos dotu [] s fit enough = refl
  entries_of-as_read (suc n) pos dotu (d ∷ ds) s (h, hs) enough =
      let rest = dirs_bytes dotu ds in
      let (c, cs, e) = non_empty d dotu rest in
      let wire = wire_dir d dotu zero_dir in
      let size : (wire.size + 2) % 2 ^ 16 ≡ statsz d dotu =
        omega (arith, wire_size d dotu, h.fits) in
      let long : length (dir_bytes d dotu ++ rest) ≡ statsz d dotu + length rest =
        length-append (dir_bytes d dotu) rest
        ∙ ap (λ k. k + length rest) (length-dir_bytes d dotu) in
      let left : drop ((wire.size + 2) % 2 ^ 16) (c ∷ cs) ≡ rest =
        ap (λ l. drop ((wire.size + 2) % 2 ^ 16) l) (sym e)
        ∙ ap (λ k. drop k (dir_bytes d dotu ++ rest)) (size ∙ sym (length-dir_bytes d dotu))
        ∙ drop-append (dir_bytes d dotu) rest in
      ap (λ b. entries_of (suc n) dotu 0 pos b s) e
      ∙ entry_run n pos dotu c cs wire (as_read dotu ds) s s
          (ap (λ b. unpack_dir b dotu) (sym e) ∙ unpack_dir-dir_bytes d rest dotu h)
          (omega (arith, size, long, ap (λ (b : Bytes). length b) e))
          (ap (λ b. entries_of n dotu 0 (pos + 1) b s) left
            ∙ entries_of-as_read n (pos + 1) dotu ds s hs
                (omega (arith, long, statsz_positive d dotu)))
