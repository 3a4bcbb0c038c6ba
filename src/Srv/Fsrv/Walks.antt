-- ===== src/Srv/Fsrv/Walks.antt =====
-- What the method Walk of the file server does not test.
use chan.Prelude.{
  ℕ, ◌<◌, ◌++◌, ◌≡◌, refl, sym, ap, ◌∙◌, ltb, ◌==◌, ◌&&◌, Bool-cases, inl, inr, arith, false,
  Option, none, some, List, [], ◌∷◌, length,
}
use mathlib.Core.Path.{fun_ext, subst}
use chan.Wire.Types.{Bytes, Qid}
use chan.Prelude.Run.{done, follow, Run, ◌>>=◌, ◌>>◌, pure, gets, update}
use chan.Srv.Tree.{Account, FilePtr, FFid, File, Site, get_file, rwalk}
use chan.Srv.Handlers.Session.{bytes_eq}
use chan.Srv.Tree.Siblings.{IsChildren, first_named, find-first_named}
use chan.Srv.Fsrv.{walk_name, walk_names, walk, walked, Request, ensure_ffid, get_ffid, dotdot}

walk_name_user :
    (n : ℕ) (u v : Option Account) (p : FilePtr) (name : Bytes)
    → walk_name n u p name ≡ walk_name n v p name
unfolding walk_name
walk_name_user n u v p name = refl

-- Behind one name.
abbrev onward :
    Option FilePtr
    → (Option FilePtr → Run Site (Option FilePtr × List Qid))
    → Option FilePtr
    → Run Site (Option FilePtr × List Qid)
onward f rest none = pure (f, [])
onward f rest (some g) =
    get_file g >>= λ file. rest (some g) >>= λ r. pure (r.0, file.dir.qid ∷ r.1)

walk_names_user :
    (n : ℕ) (u v : Option Account) (f : Option FilePtr) (names : List Bytes)
    → walk_names n u f names ≡ walk_names n v f names
unfolding walk_names
walk_names_user n u v f [] = refl
walk_names_user n u v none (name ∷ names) = refl
walk_names_user n u v (some p) (name ∷ names) =
    let rest : (λ f. walk_names n u f names) ≡ (λ f. walk_names n v f names) =
      fun_ext (λ f. walk_names_user n u v f names) in
    fun_ext (λ s.
      ap (λ w. follow (w s) (onward (some p) (λ f. walk_names n u f names)))
        (walk_name_user n u v p name)
      ∙ ap (λ w. follow (walk_name n v p name s) (onward (some p) w)) rest)

-- Walk does the same whoever the user is: the permission to search a directory is never looked at.
pub walk_user :
    (n : ℕ) (req : Request) (user : Option Account)
    → walk n (record req { user = user }) ≡ walk n req
unfolding walk walked
walk_user n req user =
    ap
      (λ w. get_ffid req.fid >>= λ fid. gets (λ s. s.ffids req.newfid) >>= λ aux.
        ensure_ffid req.newfid aux >> (w fid.file >>= walked req))
      (fun_ext (λ f. walk_names_user n user req.user f req.tc.wname))

module _ (n : ℕ) (user : Option Account) (d : FilePtr) (name : Bytes) (cs : List FilePtr) (s : Site)
    (below : IsChildren s.files d cs) (enough : length cs < n)
    (plain : bytes_eq name dotdot ≡ false) where
  walk_name-first_named : walk_name n user d name s ≡ done (first_named s.files name cs, s)
  unfolding walk_name
  walk_name-first_named = rw (below.1, plain) (find-first_named n d name cs s below enough)

-- From a directory, names of which none is ".." lead to a file, each found among the children of the one
-- before, of which there are fewer than the fuel; the qids are those of the files on the way.
abbrev pub Leads : ℕ → (FilePtr → Option File) → FilePtr → List Bytes → List Qid → FilePtr → Type 0
Leads n files d [] qids g = (qids ≡ []) × (d ≡ g)
Leads n files d (name ∷ names) qids g =
    (cs : List FilePtr) × (h : FilePtr) × (file : File) × (rest : List Qid) × IsChildren files d cs
    × (length cs < n)
    × (bytes_eq name dotdot ≡ false)
    × (first_named files name cs ≡ some h)
    × (files h ≡ some file)
    × (qids ≡ file.dir.qid ∷ rest)
    × Leads n files h names rest g

-- A file that has no child of a name.
abbrev pub Lacks : ℕ → (FilePtr → Option File) → FilePtr → Bytes → Type 0
Lacks n files g name =
    (cs : List FilePtr) × IsChildren files g cs
    × (length cs < n)
    × (bytes_eq name dotdot ≡ false)
    × (first_named files name cs ≡ none)

walk_names_stop :
    (n : ℕ) (user : Option Account) (d g : FilePtr) (names later : List Bytes) (b : Bytes)
    (qids : List Qid) (s : Site)
    → Leads n s.files d names qids g
    → Lacks n s.files g b
    → walk_names n user (some d) (names ++ b ∷ later) s ≡ done ((some g, qids), s)
unfolding walk_names
walk_names_stop n user d g [] later b qids s (none_yet, here) (cs, below, enough, plain, missing) =
    subst (λ x. walk_names n user (some x) (b ∷ later) s ≡ done ((some g, qids), s)) (sym here)
      (rw (walk_name-first_named n user g b cs s below enough plain, missing, none_yet) refl)
walk_names_stop n user d g (name ∷ names) later b qids s
      (cs, h, file, rest, below, enough, plain, found, cell, all, on) lacks =
    let further = walk_names_stop n user h g names later b rest s on lacks in
    rw (walk_name-first_named n user d name cs s below enough plain, found, cell, further, all) refl

kept : (n : ℕ) (qids : List Qid) (q : Qid) → ltb 0 n && (length (q ∷ qids) == 0) ≡ false
kept n qids q =
    let some_qid : length (q ∷ qids) == 0 ≡ false = grind arith in
    elim (Bool-cases (ltb 0 n)) [
      | inl more ↦ rw (more, some_qid) refl
      | inr none_left ↦ rw none_left refl
    ]

-- A walk of a fid onto itself, of which the first names, one or more, lead to a file that lacks the next one,
-- whatever names come behind: the answer has the qids of the files found, and the fid, though the walk
-- did not find all its names, now stands for the file where the walk stopped.
pub walk_partial :
    (n : ℕ) (req : Request) (s : Site) (fd : FFid) (d g : FilePtr) (name b : Bytes)
    (names later : List Bytes) (qids : List Qid)
    → req.newfid ≡ req.fid
    → s.ffids req.fid ≡ some fd
    → fd.file ≡ some d
    → req.tc.wname ≡ (name ∷ names) ++ b ∷ later
    → Leads n s.files d (name ∷ names) qids g
    → Lacks n s.files g b
    → walk n req s
      ≡ done (
        tt,
        record s {
          ffids = update s.ffids req.fid (some (record fd { file = some g }));
          replies = s.replies ++ rwalk qids ∷ [];
        },
      )
unfolding walk walked
walk_partial n req s fd d g name b names later qids same aux at all leads lacks =
    let (cs, h, file, rest, below, enough, plain, found, cell, some_qids, on) = leads in
    let stop = walk_names_stop n req.user d g (name ∷ names) later b qids s leads lacks in
    rw (same, aux, at, all)
      (rw aux (
        rw stop (
          rw some_qids
            (rw (kept (length ((name ∷ names) ++ b ∷ later)) rest file.dir.qid) (rw aux refl)))))
