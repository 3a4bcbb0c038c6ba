-- ===== src/Chan9/Names/Clean.antt =====
-- What ParseName leaves of a path: the rules of the comment above it.
use chan.Prelude.{
  ℕ, ◌==◌, true, false, Bool-cases, List, [], ◌∷◌, ◌++◌, append-nil, append_assoc, All, ◌≡◌, refl,
  sym, ap, ◌∙◌, inl, inr,
}
use mathlib.Core.Path.{subst}
use chan.Wire.Types.{Bytes}
use chan.Chan9.Names.{slash, is_dotdot, ref_of, behind_ref, parse_name}
use chan.Chan9.Names.Split.{
  glue, pieces, is_blank, go_up, visit, visit_all, reverse, parse_name-cleaned,
}

abbrev pub HasNoSlash : Bytes → Type 0
HasNoSlash s = All (λ c. c == slash ≡ false) s

-- An element that is not empty, ".", or "..", and one that is "..".
abbrev pub IsName : Bytes → Type 0
IsName s = HasNoSlash s × (is_blank s ≡ false) × (is_dotdot s ≡ false)

abbrev pub IsUp : Bytes → Type 0
IsUp s = is_dotdot s ≡ true

-- Some "..", then names; where the path is rooted, names only.
abbrev pub IsTidy : ℕ → List Bytes → Type 0
IsTidy ref es =
    (ups : List Bytes) × (names : List Bytes) × (es ≡ ups ++ names)
    × All IsUp ups
    × All IsName names
    × (ref == slash ≡ true → ups ≡ [])

pieces-HasNoSlash : (cs : Bytes) → All HasNoSlash (pieces cs)
unfolding pieces
pieces-HasNoSlash [] = (tt, tt)
pieces-HasNoSlash (c ∷ cs) = elim (Bool-cases (c == slash)) [
  | inl at ↦ rw at (tt, pieces-HasNoSlash cs)
  | inr within ↦ rw within (glued (pieces cs) within (pieces-HasNoSlash cs))
]
  where
    glued :
        (ps : List Bytes)
        → c == slash ≡ false
        → All HasNoSlash ps
        → All HasNoSlash (glue (c ∷ []) ps)
    glued [] e h = ((e, tt), tt)
    glued (p ∷ ps) e (h, hs) = ((e, h), hs)

-- A stack has its names on top.
abbrev IsStack : ℕ → List Bytes → Type 0
IsStack ref ts =
    (names : List Bytes) × (ups : List Bytes) × (ts ≡ names ++ ups)
    × All IsName names
    × All IsUp ups
    × (ref == slash ≡ true → ups ≡ [])

false-true : ¬ (false ≡ true)
false-true e = cc

go_up-IsStack :
    (ref : ℕ) (names ups : List Bytes) (s : Bytes)
    → All IsName names
    → All IsUp ups
    → (ref == slash ≡ true → ups ≡ [])
    → IsUp s
    → IsStack ref (go_up ref (names ++ ups) s)
go_up-IsStack ref [] [] s hn hu root up = elim (Bool-cases (ref == slash)) [
  | inl rooted ↦ rw rooted ([], [], refl, tt, tt, λ e. refl)
  | inr free ↦ rw free ([], s ∷ [], refl, tt, (up, tt), λ e. absurd (false-true e))
]
go_up-IsStack ref [] (u ∷ ups) s hn (h, hu) root up =
    rw h ([], s ∷ u ∷ ups, refl, tt, (up, (h, hu)), λ e. absurd (cons_nil (root e)))
  where
    cons_nil : ¬ (u ∷ ups ≡ [])
    cons_nil e = cc
go_up-IsStack ref (t ∷ names) ups s (h, hn) hu root up = rw h.2 (names, ups, refl, hn, hu, root)

visit-IsStack :
    (ref : ℕ) (ts : List Bytes) (s : Bytes)
    → HasNoSlash s
    → IsStack ref ts
    → IsStack ref (visit ref ts s)
unfolding visit
visit-IsStack ref ts s whole (names, ups, e, hn, hu, root) = elim (Bool-cases (is_blank s)) [
  | inl blank ↦ rw blank (names, ups, e, hn, hu, root)
  | inr some ↦ rw some (elim (Bool-cases (is_dotdot s)) [
    | inl up ↦ rw (up, e) (go_up-IsStack ref names ups s hn hu root up)
    | inr name ↦ rw (name, e) (s ∷ names, ups, refl, ((whole, some, name), hn), hu, root)
  ])
]

visit_all-IsStack :
    (ref : ℕ) (ts ps : List Bytes)
    → All HasNoSlash ps
    → IsStack ref ts
    → IsStack ref (visit_all ref ts ps)
unfolding visit_all
visit_all-IsStack ref ts [] whole h = h
visit_all-IsStack ref ts (p ∷ ps) (w, whole) h =
    visit_all-IsStack ref (visit ref ts p) ps whole (visit-IsStack ref ts p w h)

reverse-append : (xs ys : List Bytes) → reverse (xs ++ ys) ≡ reverse ys ++ reverse xs
reverse-append [] ys = sym (append-nil (reverse ys))
reverse-append (x ∷ xs) ys =
    ap (λ l. l ++ x ∷ []) (reverse-append xs ys) ∙ append_assoc (reverse ys) (reverse xs) (x ∷ [])

module _ (P : Bytes → Type 0) where
  append-All : (xs ys : List Bytes) → All P xs → All P ys → All P (xs ++ ys)
  append-All [] ys h k = k
  append-All (x ∷ xs) ys (h, hs) k = (h, append-All xs ys hs k)

  reverse-All : (xs : List Bytes) → All P xs → All P (reverse xs)
  reverse-All [] h = tt
  reverse-All (x ∷ xs) (h, hs) = append-All (reverse xs) (x ∷ []) (reverse-All xs hs) (h, tt)

reverse-IsTidy : (ref : ℕ) (ts : List Bytes) → IsStack ref ts → IsTidy ref (reverse ts)
reverse-IsTidy ref ts (names, ups, e, hn, hu, root) = (
  reverse ups,
  reverse names,
  ap reverse e ∙ reverse-append names ups,
  reverse-All IsUp ups hu,
  reverse-All IsName names hn,
  λ r. ap reverse (root r),
)

-- ParseName leaves some ".." elements and then names, each of them without a slash and not empty, "."
-- or ".."; a rooted path has no "..".
pub parse_name-IsTidy : (name : Bytes) → IsTidy (parse_name name).ref (parse_name name).elems
parse_name-IsTidy name =
    let ref = ref_of name in
    let ps = pieces (behind_ref name) in
    let stack =
      visit_all-IsStack ref [] ps (pieces-HasNoSlash (behind_ref name))
        ([], [], refl, tt, tt, λ e. refl) in
    subst (λ e. IsTidy e.ref e.elems) (sym (parse_name-cleaned name))
      (reverse-IsTidy ref (visit_all ref [] ps) stack)
