-- ===== src/Srv/Tree/Siblings.antt =====
-- The children of a directory as a list: what the links on the heap stand for.
use chan.Prelude.{
  ℕ, zero, suc, ◌<◌, ◌≡◌, refl, arith, Bool-cases, inl, inr, Option, none, some, List, [], ◌∷◌,
  length, if◌then◌else◌,
}
use chan.Wire.Types.{Bytes}
use chan.Prelude.Run.{done}
use chan.Prelude.Links.{Links, IsSeg}
use chan.Srv.Handlers.Session.{bytes_eq}
use chan.Srv.Tree.{FilePtr, File, Site, child_named, find}

abbrev pub file_links : Links File
file_links = record {
  next = λ g. g.next;
  prev = λ g. g.prev;
  set_next = λ v g. record g { next = v };
  set_prev = λ v g. record g { prev = v };
  next-set_next = λ v g. refl;
  prev-set_next = λ v g. refl;
  next-set_prev = λ v g. refl;
  prev-set_prev = λ v g. refl;
}

-- From `a` on, behind `p`, the siblings are `cs`, of which `l` is the last: each knows the one before
-- it, and the last has none behind it.
abbrev pub IsLinked :
    (FilePtr → Option File)
    → Option FilePtr
    → Option FilePtr
    → Option FilePtr
    → List FilePtr
    → Type 0
IsLinked files p a l cs = IsSeg file_links files p a l none cs

-- The children of a directory, in order.
abbrev pub IsChildren : (FilePtr → Option File) → FilePtr → List FilePtr → Type 0
IsChildren files d cs =
    (dir : File) × (files d ≡ some dir) × IsLinked files none dir.cfirst dir.clast cs

-- The first of some files that has a name.
abbrev pub named : Bytes → FilePtr → Option File → Option FilePtr → Option FilePtr
named name c none rest = none
named name c (some g) rest = if bytes_eq name g.dir.name then some c else rest

abbrev pub first_named : (FilePtr → Option File) → Bytes → List FilePtr → Option FilePtr
first_named files name [] = none
first_named files name (c ∷ cs) = named name c (files c) (first_named files name cs)

pub child_named_lem :
    (n : ℕ) (name : Bytes) (p a l : Option FilePtr) (cs : List FilePtr) (s : Site)
    → IsLinked s.files p a l cs
    → length cs < n
    → child_named n name a s ≡ done (first_named s.files name cs, s)
unfolding child_named
child_named_lem zero name p a l cs s h enough = absurd (omega arith)
child_named_lem (suc n) name p a l [] s (e, _) enough = rw e refl
child_named_lem (suc n) name p a l (c ∷ cs) s (e, file, cell, back, rest) enough =
    rw (e, cell)
      (elim (Bool-cases (bytes_eq name file.dir.name)) [
        | inl same ↦ rw same refl
        | inr other ↦ rw other (child_named_lem n name (some c) file.next l cs s rest (omega arith))
      ])

-- Find, where the fuel is more than the number of children, returns the first child with the name, or
-- nil if there is none, and changes nothing.
pub find-first_named :
    (n : ℕ) (d : FilePtr) (name : Bytes) (cs : List FilePtr) (s : Site)
    → IsChildren s.files d cs
    → length cs < n
    → find n d name s ≡ done (first_named s.files name cs, s)
unfolding find
find-first_named n d name cs s (dir, cell, linked) enough =
    rw cell (child_named_lem n name none dir.cfirst dir.clast cs s linked enough)
