-- ===== src/Srv/Tree/Shrink.antt =====
-- Remove takes a file out of the list of a directory's children.
use chan.Prelude.{◌≡◌, ◌≢◌, refl, sym, ◌∙◌, true, false, Option, none, some, List, ◌∷◌, ◌++◌, All}
use chan.Prelude.Run.{done, update}
use chan.Prelude.Distinct.{
  IsDistinct, All-map, All-and, append-All, All-append, append-IsDistinct, eq_same, eq_other,
}
use chan.Prelude.Links.{
  IsSeg-same, on_next, on_prev, on_next-other, on_prev-other, first_of, last_ptr, around,
}
use chan.Prelude.Links.Unlink.{
  end_cell, begin_cell, on_next-same, ends_other, begins_other, unlinked_back,
}
use chan.Srv.Tree.{FilePtr, File, Site, link_back, link_on, unlink_file, remove_file}
use chan.Srv.Tree.Add.{IsChildren-alike, update-IsAlike}
use chan.Srv.Tree.Siblings.{file_links, IsChildren}

-- `f.next.prev = f.prev` or `p.clast = f.prev`: the links of the siblings, and the directory's end.
link_back_run :
    (s : Site) (d : FilePtr) (dir : File) (b m : Option FilePtr)
    → s.files d ≡ some dir
    → ((c : FilePtr) → b ≡ some c → (g : File) × (s.files c ≡ some g) × (c ≢ d))
    → (files : FilePtr → Option File) × (link_back d b m s ≡ done (tt, record s { files = files }))
      × ((x : FilePtr) → x ≢ d → files x ≡ on_prev file_links s.files b m x)
      × (files d ≡ some (record dir { clast = last_ptr file_links b m dir.clast }))
link_back_run s d dir none m cell at = (
  update s.files d (some (record dir { clast = m })),
  rw cell refl,
  λ x xd. rw (eq_other d x (λ e. xd (sym e))) refl,
  rw (eq_same d) refl,
)
link_back_run s d dir (some c) m cell at =
    let (g, cell_c, cd) = at c refl in
    (
      update s.files c (some (record g { prev = m })),
      rw cell_c refl,
      λ x xd. rw cell_c refl,
      rw (eq_other c d cd) cell,
    )

link_on_run :
    (s : Site) (d : FilePtr) (dir : File) (m b : Option FilePtr)
    → s.files d ≡ some dir
    → ((c : FilePtr) → m ≡ some c → (g : File) × (s.files c ≡ some g) × (c ≢ d))
    → (files : FilePtr → Option File) × (link_on d m b s ≡ done (tt, record s { files = files }))
      × ((x : FilePtr) → x ≢ d → files x ≡ on_next file_links s.files m b x)
      × (files d ≡ some (record dir { cfirst = first_of file_links m b dir.cfirst }))
link_on_run s d dir none b cell at = (
  update s.files d (some (record dir { cfirst = b })),
  rw cell refl,
  λ x xd. rw (eq_other d x (λ e. xd (sym e))) refl,
  rw (eq_same d) refl,
)
link_on_run s d dir (some c) b cell at =
    let (g, cell_c, cd) = at c refl in
    (
      update s.files c (some (record g { next = b })),
      rw cell_c refl,
      λ x xd. rw cell_c refl,
      rw (eq_other c d cd) cell,
    )

unlink_run :
    (s s1 s2 : Site) (d f : FilePtr) (file : File)
    → s.files f ≡ some file
    → file.parent ≡ some d
    → link_back d file.next file.prev s ≡ done (tt, s1)
    → s1.files f ≡ some file
    → link_on d file.prev file.next s1 ≡ done (tt, s2)
    → s2.files f ≡ some file
    → unlink_file f s
      ≡ done (
        tt,
        record s2 { files = update s2.files f (some (record file { next = none; prev = none })) },
      )
unfolding unlink_file
unlink_run s s1 s2 d f file cell home run1 cell1 run2 cell2 =
    rw (cell, home) (rw run1 (rw cell1 (rw run2 (rw (cell2, home) refl))))

-- Remove's part on the links: a file that stands among the children of its directory is taken out of
-- them, where they are distinct and the directory is none of them.
pub unlink_file-IsChildren :
    (s : Site) (d f : FilePtr) (file : File) (xs ys : List FilePtr)
    → IsChildren s.files d (xs ++ f ∷ ys)
    → IsDistinct (xs ++ f ∷ ys)
    → All (λ c. c ≢ d) (xs ++ f ∷ ys)
    → s.files f ≡ some file
    → file.parent ≡ some d
    → (s' : Site) × (unlink_file f s ≡ done (tt, s')) × IsChildren s'.files d (xs ++ ys)
unlink_file-IsChildren s d f file xs ys (dir, cell_d, linked) apart outside cell_f home =
    let m = file.prev in
    let b = file.next in
    let h = s.files in
    let (sx, sy) = around file_links h dir.cfirst dir.clast xs f ys file linked cell_f in
    let (xd, (fd, yd)) = append-All (λ c. c ≢ d) xs (f ∷ ys) outside in
    let (dx, ((fy, dy), across)) = append-IsDistinct xs (f ∷ ys) apart in
    let before = λ (c : FilePtr) (e : m ≡ some c).
      end_cell file_links h dir.cfirst m (some f) xs c (λ c. (c ≢ d) × All (λ y. c ≢ y) ys) sx e
        (All-and (λ c. c ≢ d) (λ c. All (λ y. c ≢ y) ys) xs xd
          (All-map (λ x. (x ≢ f) × All (λ y. x ≢ y) ys) (λ x. All (λ y. x ≢ y) ys) (λ x h. h.1) xs
            across)) in
    let (h1, run1, same1, end1) =
      link_back_run s d dir b m cell_d
        (λ c e. begin_cell file_links h (some f) b dir.clast ys c (λ c. c ≢ d) sy e yd) in
    let b_f =
      begins_other file_links h dir.cfirst dir.clast xs f ys file linked apart cell_f f fy in
    let m_f =
      ends_other file_links h dir.cfirst dir.clast xs f ys file linked apart cell_f f
        (All-map (λ x. (x ≢ f) × All (λ y. x ≢ y) ys) (λ x. x ≢ f) (λ x h. h.0) xs across) in
    let cell1 : h1 f ≡ some file = same1 f fd ∙ on_prev-other file_links h b m f b_f ∙ cell_f in
    let s1 = record s { files = h1 } in
    let (h2, run2, same2, end2) =
      link_on_run s1 d (record dir { clast = last_ptr file_links b m dir.clast }) m b end1
        (λ c e.
          let (g, cell, (cd, cy)) = before c e in
          (
            g,
            same1 c cd
                ∙ on_prev-other file_links h b m c (
                    begins_other file_links h dir.cfirst dir.clast xs f ys file linked apart cell_f
                      c cy)
                ∙ cell,
            cd,
          )) in
    let cell2 : h2 f ≡ some file = same2 f fd ∙ on_next-other file_links h1 m b f m_f ∙ cell1 in
    let others =
      All-append (λ x. (x ≢ d) × (x ≢ f)) xs ys
        (All-and (λ x. x ≢ d) (λ x. x ≢ f) xs xd
          (All-map (λ x. (x ≢ f) × All (λ y. x ≢ y) ys) (λ x. x ≢ f) (λ x h. h.0) xs across))
        (All-and (λ x. x ≢ d) (λ x. x ≢ f) ys yd
          (All-map (λ y. f ≢ y) (λ y. y ≢ f) (λ y ne e. ne (sym e)) ys fy)) in
    let gone = record file { next = none; prev = none } in
    (
      record s { files = update h2 f (some gone) },
      unlink_run s s1 (record s { files = h2 }) d f file cell_f home run1 cell1 run2 cell2,
      (
        record dir {
          clast = last_ptr file_links b m dir.clast;
          cfirst = first_of file_links m b dir.cfirst;
        },
        rw (eq_other f d fd) end2,
        IsSeg-same file_links (on_next file_links (on_prev file_links h b m) m b)
            (update h2 f (some gone)) none (first_of file_links m b dir.cfirst)
            (last_ptr file_links b m dir.clast) none (xs ++ ys)
            (All-map (λ x. (x ≢ d) × (x ≢ f))
              (λ x. update h2 f (some gone) x ≡ on_next file_links (on_prev file_links h b m) m b x)
              (λ x (xd', xf). rw (eq_other f x (λ e. xf (sym e))) (
                same2 x xd'
                ∙ on_next-same file_links h1 (on_prev file_links h b m) m b x (same1 x xd')
                    (λ c e. let (g, cell, (cd, cy)) = before c e in same1 c cd)))
              (xs ++ ys) others)
            (unlinked_back file_links h dir.cfirst dir.clast xs f ys file linked apart cell_f),
      ),
    )

-- Remove of a file that was not removed yet and stands among the children of its directory, where
-- these are distinct and the directory is none of them: the others stay, in their order.
pub remove_file-IsChildren :
    (s : Site) (d f : FilePtr) (file : File) (xs ys : List FilePtr)
    → IsChildren s.files d (xs ++ f ∷ ys)
    → IsDistinct (xs ++ f ∷ ys)
    → All (λ c. c ≢ d) (xs ++ f ∷ ys)
    → s.files f ≡ some file
    → file.parent ≡ some d
    → file.is_removed ≡ false
    → (s' : Site) × (remove_file f s ≡ done (tt, s')) × IsChildren s'.files d (xs ++ ys)
unfolding remove_file
remove_file-IsChildren s d f file xs ys below apart outside cell home live =
    let marked = record file { is_removed = true } in
    let s1 = record s { files = update s.files f (some marked) } in
    let below1 =
      IsChildren-alike s.files s1.files
        (update-IsAlike s.files f file marked cell (refl, refl, refl, refl)) d (xs ++ f ∷ ys)
        below in
    let (s', run, left) =
      unlink_file-IsChildren s1 d f marked xs ys below1 apart outside (rw (eq_same f) refl) home in
    (s', rw (cell, live) run, left)
