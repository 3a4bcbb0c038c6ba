-- ===== src/Srv/Fsrv/Listing.antt =====
-- What a read of a directory returns.
use chan.Prelude.{
  ℕ, ◌+◌, ◌-◌, ◌≤◌, ◌<◌, ◌==◌, ◌≡◌, ◌≢◌, refl, sym, ap, ◌∙◌, inl, inr, arith, Bool, true, false,
  Bool-cases, Option, none, some, List, [], ◌∷◌, ◌++◌, ◌⊎◌, All, length, drop, take, take-append,
  length-append, length-drop, if◌then◌else◌,
}
use chan.Wire.Types.{Bytes, Dir, Fcall}
use chan.Wire.Stat.{statsz}
use chan.Wire.Stat.Laws.{IsDir, dir_bytes, length-dir_bytes}
use chan.Wire.Stat.RoundTrip.{pack_dir_ok, pack_dir_short}
use chan.Prelude.Run.{done}
use chan.Srv.Tree.{FilePtr, FFid, File, Site}
use chan.Srv.Fsrv.{FidPtr, Request, pack_dirs, read_dirs, reply_read}

abbrev entry : Bool → Option File → Bytes
entry dotu none = []
entry dotu (some file) = if file.is_removed then [] else dir_bytes file.dir dotu

-- The stat entries of some files, without those that were removed.
abbrev pub entries : Bool → (FilePtr → Option File) → List FilePtr → Bytes
entries dotu files [] = []
entries dotu files (g ∷ gs) = entry dotu (files g) ++ entries dotu files gs

abbrev pub IsListed : Bool → (FilePtr → Option File) → FilePtr → Type 0
IsListed dotu files g = (file : File) × (files g ≡ some file) × IsDir file.dir dotu

-- The files left are none, or the first of them is still there and its entry has no room.
abbrev pub IsLeft : Bool → (FilePtr → Option File) → ℕ → List FilePtr → Type 0
IsLeft dotu files room [] = Unit {0}
IsLeft dotu files room (g ∷ gs) =
    (file : File) × (files g ≡ some file)
    × (file.is_removed ≡ false)
    × (room < statsz file.dir dotu)

abbrev pub IsPacked : Bool → List FilePtr → Bytes → Site → Bytes × List FilePtr → Type 0
IsPacked dotu gs b s r =
    (seen : List FilePtr) × (gs ≡ seen ++ r.1)
    × (r.0 ≡ entries dotu s.files seen)
    × (room : ℕ) × (length r.0 + room ≡ length b)
    × IsLeft dotu s.files room r.1

statsz_some : (d : Dir) (dotu : Bool) → 0 < statsz d dotu
unfolding statsz
statsz_some d true = omega arith
statsz_some d false = omega arith

fits_or : (a b : ℕ) → (a ≤ b) ⊎ (b < a)
fits_or a b = omega arith

not_zero : (n : ℕ) → 0 < n → n == 0 ≡ false
not_zero n h = ground arith

-- The loop of a directory read, over the files that are left.
pub pack_dirs-IsPacked :
    (dotu : Bool) (gs : List FilePtr) (b : Bytes) (s : Site)
    → All (IsListed dotu s.files) gs
    → (r : Bytes × List FilePtr) × (pack_dirs dotu gs b s ≡ done (r, s)) × IsPacked dotu gs b s r
unfolding pack_dirs
pack_dirs-IsPacked dotu [] b s h = (([], []), refl, ([], refl, refl, length b, omega arith, tt))
pack_dirs-IsPacked dotu (g ∷ gs) b s ((file, cell, ok), hs) = elim (Bool-cases file.is_removed) [
  | inl gone ↦
      let (r, run, (seen, e, bytes, room, fits, left)) = pack_dirs-IsPacked dotu gs b s hs in
      (
        r,
        rw (cell, gone) run,
        (g ∷ seen, ap (λ l. g ∷ l) e, bytes ∙ rw (cell, gone) refl, room, fits, left),
      )
  | inr live ↦ elim (fits_or (statsz file.dir dotu) (length b)) [
    | inl room ↦
        let d = file.dir in
        let b1 = dir_bytes d dotu ++ drop (statsz d dotu) b in
        let taken : take (statsz d dotu) b1 ≡ dir_bytes d dotu =
          ap (λ k. take k b1) (sym (length-dir_bytes d dotu))
          ∙ take-append (dir_bytes d dotu) (drop (statsz d dotu) b) in
        let (r, run, (seen, e, bytes, spare, fits, left)) =
          pack_dirs-IsPacked dotu gs (drop (statsz d dotu) b1) s hs in
        let size : length (drop (statsz d dotu) b1) ≡ length b - statsz d dotu = omega (
          arith,
          length-drop (statsz d dotu) b1,
          length-append (dir_bytes d dotu) (drop (statsz d dotu) b),
          length-drop (statsz d dotu) b,
          length-dir_bytes d dotu,
        ) in
        (
          (dir_bytes d dotu ++ r.0, r.1),
          rw
              (
                cell,
                live,
                pack_dir_ok d b dotu ok room,
                not_zero (statsz d dotu) (statsz_some d dotu),
                run,
                taken,
              )
              refl,
          (
            g ∷ seen,
            ap (λ l. g ∷ l) e,
            ap (λ l. dir_bytes d dotu ++ l) bytes ∙ rw (cell, live) refl,
            spare,
            omega (
              arith,
              fits,
              size,
              room,
              length-append (dir_bytes d dotu) r.0,
              length-dir_bytes d dotu,
            ),
            left,
          ),
        )
    | inr full ↦ (
      ([], g ∷ gs),
      rw (cell, live, pack_dir_short file.dir b dotu full) refl,
      ([], refl, refl, length b, omega arith, (file, cell, live, full)),
    )
  ]
]

-- The files whose entries a read of a directory begins with: its children at offset 0, and otherwise what
-- the read before has left.
abbrev pub ahead : Request → FFid → List FilePtr → List FilePtr
ahead req fd cs = if req.tc.offset == 0 then cs else fd.dirs

-- What a read of a directory leaves, and what it answers with.
abbrev pub DirsRead : ℕ → Request → FilePtr → Fcall → Site → FFid → List FilePtr → Type 0
DirsRead n req f rc s fd gs =
    (bytes : Bytes) × (left : List FilePtr) × (ffids : FidPtr → Option FFid) × (read_dirs n req f rc
        s
      ≡ reply_read rc bytes (record s { ffids = ffids }))
    × (ffids req.fid ≡ some (record fd { dirs = left }))
    × ((x : FidPtr) → req.fid ≢ x → ffids x ≡ s.ffids x)
    × IsPacked req.dotu gs rc.dat s (bytes, left)
