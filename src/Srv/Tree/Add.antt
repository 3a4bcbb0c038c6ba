-- ===== src/Srv/Tree/Add.antt =====
-- Add, on the list of a directory's children.
use chan.Prelude.{
  ℕ, ◌+◌, ◌%◌, ◌^◌, ◌<◌, ◌==◌, ◌≡◌, ◌≢◌, refl, sym, ap, ◌∙◌, arith, false, Bool-cases, inl, inr,
  Option, none, some, List, [], ◌∷◌, ◌++◌, All, length,
}
use chan.Wire.Types.{Bytes}
use chan.Prelude.Run.{done, follow, update, Run, pure, ◌>>◌}
use chan.Srv.Tree.{
  Account, Group, FilePtr, File, FileError, already_exists, Site, new_dir, child_named, link_last,
  set_ops, add,
}
use chan.Srv.Tree.Siblings.{IsLinked, IsChildren, named, first_named, child_named_lem}
use chan.Prelude.Distinct.{IsDistinct, eq_same, eq_other, All-map}
use chan.Srv.Tree.Grow.{link_last-IsChildren}

-- Every file that was there is there, with the same links.
abbrev pub HasLinks : File → File → Type 0
HasLinks g g' =
    (g'.next ≡ g.next) × (g'.prev ≡ g.prev) × (g'.cfirst ≡ g.cfirst) × (g'.clast ≡ g.clast)

abbrev pub IsAlike : (FilePtr → Option File) → (FilePtr → Option File) → Type 0
IsAlike files files' =
    (x : FilePtr) (g : File) → files x ≡ some g → (g' : File) × (files' x ≡ some g') × HasLinks g g'

module _ (files files' : FilePtr → Option File) (alike : IsAlike files files') where
  IsLinked-alike :
      (p a b l m : Option FilePtr) (cs : List FilePtr)
      → b ≡ a
      → m ≡ l
      → IsLinked files p a l cs
      → IsLinked files' p b m cs
  IsLinked-alike p a b l m [] first last (e, e') = (first ∙ e, last ∙ e')
  IsLinked-alike p a b l m (c ∷ cs) first last (e, file, cell, back, rest) =
      let (file', cell', (on, back', _, _)) = alike c file cell in
      (
        first ∙ e,
        file',
        cell',
        back' ∙ back,
        IsLinked-alike (some c) file.next file'.next l m cs on last rest,
      )

  pub IsChildren-alike :
      (d : FilePtr) (cs : List FilePtr) → IsChildren files d cs → IsChildren files' d cs
  IsChildren-alike d cs (dir, cell, linked) =
      let (dir', cell', (_, _, first, last)) = alike d dir cell in
      (
        dir',
        cell',
        IsLinked-alike none dir.cfirst dir'.cfirst dir.clast dir'.clast cs first last linked,
      )

-- A file that is replaced by one with the same links.
pub update-IsAlike :
    (files : FilePtr → Option File) (f : FilePtr) (old new : File)
    → files f ≡ some old
    → HasLinks old new
    → IsAlike files (update files f (some new))
update-IsAlike files f old new at links x g cell = elim (Bool-cases (f == x)) [
  | inl same ↦
      let e : f ≡ x = ground arith in
      let old_g : some old ≡ some g = sym at ∙ ap files e ∙ cell in
      let og : old ≡ g = cc in (new, rw same refl, rw (← og) links)
  | inr other ↦ (g, rw other cell, (refl, refl, refl, refl))
]

first_named-same :
    (files files' : FilePtr → Option File) (name : Bytes) (cs : List FilePtr)
    → All (λ c. files' c ≡ files c) cs
    → first_named files' name cs ≡ first_named files name cs
first_named-same files files' name [] h = refl
first_named-same files files' name (c ∷ cs) (e, h) =
    ap (λ o. named name c o (first_named files' name cs)) e
    ∙ ap (named name c (files c)) (first_named-same files files' name cs h)

member_cell :
    (files : FilePtr → Option File) (p a l : Option FilePtr) (cs : List FilePtr) (f : FilePtr)
    → IsLinked files p a l (cs ++ f ∷ [])
    → (g : File) × (files f ≡ some g)
member_cell files p a l [] f (_, g, cell, _, _) = (g, cell)
member_cell files p a l (c ∷ cs) f (_, g, cell, _, rest) =
    member_cell files (some c) g.next l cs f rest

-- The runs of Add on a directory and a file that is neither the directory nor one of its children.
module _ (s : Site) (n d f : ℕ) (file : File) (name : Bytes) (uid : Option Account)
    (gid : Option Group) (mode ops now : ℕ) (cs : List FilePtr) (below : IsChildren s.files d cs)
    (at : s.files f ≡ some file) (other : f ≢ d) (outside : All (λ c. (c ≢ f) × (c ≢ d)) cs)
    (enough : length cs < n) where
  abbrev owned : File
  owned = record file { dir = new_dir file.dir s.qnext name uid gid mode now }

  abbrev adopted : File
  adopted = record owned { parent = some d }

  abbrev before : Site
  before = record s {
    qnext = (s.qnext + 1) % 2 ^ 64;
    files = update (update s.files f (some owned)) f (some adopted);
  }

  kept : (x : FilePtr) → f == x ≡ false → before.files x ≡ s.files x
  kept x h = rw h refl

  first-IsAlike : IsAlike s.files (update s.files f (some owned))
  first-IsAlike = update-IsAlike s.files f file owned at (refl, refl, refl, refl)

  second-IsAlike : IsAlike (update s.files f (some owned)) before.files
  second-IsAlike =
      update-IsAlike (update s.files f (some owned)) f owned adopted (rw (eq_same f) refl)
        (refl, refl, refl, refl)

  below' : IsChildren before.files d cs
  below' =
      IsChildren-alike (update s.files f (some owned)) before.files second-IsAlike d cs
        (IsChildren-alike s.files (update s.files f (some owned)) first-IsAlike d cs below)

  linked' : IsLinked before.files none below.0.cfirst below.0.clast cs
  linked' =
      let a = below.0.cfirst in
      let l = below.0.clast in
      IsLinked-alike (update s.files f (some owned)) before.files second-IsAlike none a a l l cs
        refl refl
        (IsLinked-alike s.files (update s.files f (some owned)) first-IsAlike none a a l l cs refl
          refl below.2)

  searched : child_named n name below.0.cfirst before ≡ done (first_named s.files name cs, before)
  searched =
      child_named_lem n name none below.0.cfirst below.0.clast cs before linked' enough
      ∙ ap (λ o. done (o, before))
          (first_named-same s.files before.files name cs (
            All-map (λ c. (c ≢ f) × (c ≢ d)) (λ c. before.files c ≡ s.files c)
              (λ c (cf, _). kept c (eq_other f c (λ e. cf (sym e)))) cs outside))

  -- Add, behind its search.
  abbrev behind_search : Option FilePtr → Run Site (Option FileError)
  behind_search none = link_last f d >> (set_ops f ops >> pure none)
  behind_search (some c) = pure (some already_exists)

  add_run :
      add n f (some d) name uid gid mode ops now s
      ≡ behind_search (first_named s.files name cs) before
  unfolding add
  add_run =
      rw (at, eq_same f)
        (rw (eq_other f d other, below.1) (ap (λ w. follow w behind_search) searched))

  linked_run :
      (s1 s2 : Site) (g : File)
      → link_last f d s1 ≡ done (tt, s2)
      → s2.files f ≡ some g
      → behind_search none s1
        ≡ done (none, record s2 { files = update s2.files f (some (record g { ops = ops })) })
  linked_run s1 s2 g run cell = rw (run, cell) refl

  -- Add of a file that is there and is neither the directory nor one of its children, with more fuel
  -- than there are children, where one of them has the name: it returns Eexist and the children stay.
  pub add-exists :
      (c : FilePtr)
      → first_named s.files name cs ≡ some c
      → (s' : Site) × (add n f (some d) name uid gid mode ops now s
          ≡ done (some already_exists, s'))
        × IsChildren s'.files d cs
  add-exists c taken = (before, add_run ∙ ap (λ o. behind_search o before) taken, below')

  -- Add of a file that is there and is neither the directory nor one of its children, with more fuel
  -- than there are children, which are distinct, where none of them has the name: it succeeds, and the
  -- file is the last child, behind the others in their order.
  pub add-IsChildren :
      IsDistinct cs
      → first_named s.files name cs ≡ none
      → (s' : Site) × (add n f (some d) name uid gid mode ops now s ≡ done (none, s'))
        × IsChildren s'.files d (cs ++ f ∷ [])
  add-IsChildren apart free =
      let (s', run, linked) =
        link_last-IsChildren before d f adopted cs below' apart (rw (eq_same f) refl) other
          outside in
      let (g, cell) = member_cell s'.files none linked.0.cfirst linked.0.clast cs f linked.2 in
      (
        record s' { files = update s'.files f (some (record g { ops = ops })) },
        add_run ∙ ap (λ o. behind_search o before) free ∙ linked_run before s' g run cell,
        IsChildren-alike s'.files (update s'.files f (some (record g { ops = ops })))
            (update-IsAlike s'.files f g (record g { ops = ops }) cell (refl, refl, refl, refl)) d
            (cs ++ f ∷ []) linked,
      )
