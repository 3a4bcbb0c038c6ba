-- ===== src/Srv/Tree/Grow.antt =====
-- Add puts a file behind the last child of a directory.
use chan.Prelude.{◌≡◌, ◌≢◌, refl, sym, none, some, List, [], ◌∷◌, ◌++◌, All}
use mathlib.Core.Path.{subst}
use chan.Prelude.Run.{done, update}
use chan.Prelude.Distinct.{IsDistinct, last_of, last-All, All-map, eq_same, eq_other}
use chan.Prelude.Links.{last_lem, first_of, on_next, appended}
use chan.Srv.Tree.{FilePtr, File, Site, link_last}
use chan.Srv.Tree.Siblings.{file_links, IsLinked, IsChildren}

-- Add's part on the links: a file that is neither the directory nor among its children becomes the last
-- child, where the children are distinct and the directory is none of them.
pub link_last-IsChildren :
    (s : Site) (d f : FilePtr) (file : File) (cs : List FilePtr)
    → IsChildren s.files d cs
    → IsDistinct cs
    → s.files f ≡ some file
    → f ≢ d
    → All (λ c. (c ≢ f) × (c ≢ d)) cs
    → (s' : Site) × (link_last f d s ≡ done (tt, s')) × IsChildren s'.files d (cs ++ f ∷ [])
unfolding link_last
link_last-IsChildren s d f file [] (dir, cell_d, (first, last)) apart cell_f other outside =
    let fd = eq_other f d other in
    let df = eq_other d f (λ e. other (sym e)) in
    let dir' = record dir { cfirst = some f; clast = some f } in
    (
      record s {
        files =
            update
              (update (update s.files d (some (record dir { cfirst = some f }))) f
                (some (record file { prev = dir.clast; next = none })))
              d (some dir');
      },
      rw (cell_d, last) (rw (df, cell_f) (rw (fd, eq_same d, last) refl)),
      (
        dir',
        rw (eq_same d) refl,
        (
          refl,
          record file { prev = dir.clast; next = none },
          rw (df, eq_same f) refl,
          last,
          (refl, refl),
        ),
      ),
    )
link_last-IsChildren s d f file (c ∷ cs) (dir, cell_d, linked) apart cell_f other outside =
    let (at_last, last, cell_l) =
      last_lem file_links s.files none dir.cfirst dir.clast none c cs linked in
    let l = last_of c cs in
    let (lf_ne, ld_ne) = last-All (λ c. (c ≢ f) × (c ≢ d)) c cs outside in
    let fd = eq_other f d other in
    let df = eq_other d f (λ e. other (sym e)) in
    let lf = eq_other l f lf_ne in
    let ld = eq_other l d ld_ne in
    let files' =
      update
        (update (update s.files l (some (record last { next = some f }))) f
          (some (record file { prev = some l; next = none })))
        d (some (record dir { clast = some f })) in
    (
      record s { files = files' },
      rw (cell_d, at_last, cell_l, lf, cell_f) (rw (fd, ld, cell_d) refl),
      (
        record dir { clast = some f },
        rw (eq_same d) refl,
        subst
            (λ o.
              IsLinked files' none (first_of file_links o (some f) dir.cfirst) (some f)
                ((c ∷ cs) ++ f ∷ []))
            at_last
            (appended file_links s.files files' dir.cfirst dir.clast (c ∷ cs) f
              (record file { prev = some l; next = none }) linked apart
              (All-map (λ c. (c ≢ f) × (c ≢ d))
                (λ x. files' x ≡ on_next file_links s.files dir.clast (some f) x)
                (λ x (xf, xd).
                  rw
                    (
                      eq_other d x (λ e. xd (sym e)),
                      eq_other f x (λ e. xf (sym e)),
                      at_last,
                      cell_l,
                    )
                    refl)
                (c ∷ cs) outside)
              (rw (df, eq_same f) refl) (sym at_last) refl),
      ),
    )
