-- ===== src/Chan9/Names/Split.antt =====
-- ParseName against a reference: the string is split at its slashes, and a stack takes the pieces.
use chan.Prelude.{
  ℕ, ◌==◌, Bool, true, false, not, ◌&&◌, ◌||◌, Bool-cases, List, [], ◌∷◌, ◌++◌, append-nil,
  append_assoc, if◌then◌else◌, ◌≡◌, refl, sym, ap, ◌∙◌, inl, inr,
}
use chan.Wire.Types.{Bytes}
use chan.Chan9.Names.{
  slash, dot, is_dotdot, ends_up, but_last, Elemlist, add_elem, Scan, goes_on, step, scan, finish,
  ref_of, behind_ref, parse_name,
}

-- Text in front of the first piece.
abbrev pub glue : Bytes → List Bytes → List Bytes
glue x [] = x ∷ []
glue x (p ∷ ps) = (x ++ p) ∷ ps

-- The pieces of a string between its slashes.
unfoldable pub pieces : Bytes → List Bytes
pieces [] = [] ∷ []
pieces (c ∷ cs) = let ps = pieces cs in if c == slash then [] ∷ ps else glue (c ∷ []) ps

-- An empty piece, or ".".
abbrev pub is_blank : Bytes → Bool
is_blank [] = true
is_blank (c ∷ []) = c == dot
is_blank (c ∷ d ∷ s) = false

-- A stack of elements, the last of the path first.
abbrev pub go_up : ℕ → List Bytes → Bytes → List Bytes
go_up ref [] s = if ref == slash then [] else s ∷ []
go_up ref (t ∷ ts) s = if is_dotdot t then s ∷ t ∷ ts else ts

unfoldable pub visit : ℕ → List Bytes → Bytes → List Bytes
visit ref ts s = if is_blank s then ts else if is_dotdot s then go_up ref ts s else s ∷ ts

unfoldable pub visit_all : ℕ → List Bytes → List Bytes → List Bytes
unfolding visit
visit_all ref ts [] = ts
visit_all ref ts (p ∷ ps) = visit_all ref (visit ref ts p) ps

abbrev pub reverse : List Bytes → List Bytes
reverse [] = []
reverse (t ∷ ts) = reverse ts ++ t ∷ []

-- Whether the last piece is empty, "." or "..".
abbrev pub ends_dir : Bool → List Bytes → Bool
ends_dir b [] = b
ends_dir b (p ∷ ps) = ends_dir (is_blank p || is_dotdot p) ps

abbrev pub cleaned : ℕ → Bool → List Bytes → List Bytes → Elemlist
cleaned ref b ts ps = record {
  elems = reverse (visit_all ref ts ps);
  ref = ref;
  mustbedir = ends_dir b ps;
}

glue-glue : (x y : Bytes) (ps : List Bytes) → glue x (glue y ps) ≡ glue (x ++ y) ps
glue-glue x y [] = refl
glue-glue x y (p ∷ ps) = ap (λ h. h ∷ ps) (sym (append_assoc x y p))

ends_up_last : (es : List Bytes) (t : Bytes) → ends_up (es ++ t ∷ []) ≡ is_dotdot t
unfolding ends_up
ends_up_last [] t = refl
ends_up_last (e ∷ []) t = refl
ends_up_last (e ∷ f ∷ es) t = ends_up_last (f ∷ es) t

but_last_lem : (es : List Bytes) (t : Bytes) → but_last (es ++ t ∷ []) ≡ es
unfolding but_last
but_last_lem [] t = refl
but_last_lem (e ∷ []) t = refl
but_last_lem (e ∷ f ∷ es) t = ap (λ l. e ∷ l) (but_last_lem (f ∷ es) t)

-- addelem at the end of a list that has a last element.
add_elem_last :
    (ref : ℕ) (es : List Bytes) (t s : Bytes)
    → add_elem ref (es ++ t ∷ []) s
      ≡ (if is_dotdot s && not (is_dotdot t) then es else (es ++ t ∷ []) ++ s ∷ [])
unfolding add_elem
add_elem_last ref es t s =
    behind es
    ∙ ap (λ b. if is_dotdot s && not b then but_last (es ++ t ∷ []) else (es ++ t ∷ []) ++ s ∷ [])
        (ends_up_last es t)
    ∙ ap (λ l. if is_dotdot s && not (is_dotdot t) then l else (es ++ t ∷ []) ++ s ∷ [])
        (but_last_lem es t)
  where
    behind :
        (es : List Bytes)
        → add_elem ref (es ++ t ∷ []) s ≡ (
            if is_dotdot s && not (ends_up (es ++ t ∷ []))
            then but_last (es ++ t ∷ [])
            else (es ++ t ∷ []) ++ s ∷ [])
    behind [] = refl
    behind (e ∷ es) = refl

-- addelem and the stack do the same.
add_elem-visit :
    (ref : ℕ) (ts : List Bytes) (s : Bytes)
    → is_blank s ≡ false
    → add_elem ref (reverse ts) s ≡ reverse (visit ref ts s)
unfolding visit add_elem
add_elem-visit ref [] s some = rw some (first (is_dotdot s) (ref == slash))
  where
    first :
        (d r : Bool)
        → (if d && r then [] else s ∷ [])
          ≡ reverse (if d then (if r then [] else s ∷ []) else s ∷ [])
    first true true = refl
    first true false = refl
    first false r = refl
add_elem-visit ref (t ∷ ts) s some =
    add_elem_last ref (reverse ts) t s ∙ rw some (second (is_dotdot s) (is_dotdot t))
  where
    second :
        (d u : Bool)
        → (if d && not u then reverse ts else (reverse ts ++ t ∷ []) ++ s ∷ [])
          ≡ reverse (if d then (if u then s ∷ t ∷ ts else ts) else s ∷ t ∷ ts)
    second true true = refl
    second true false = refl
    second false u = refl

visit_blank : (ref : ℕ) (ts : List Bytes) (s : Bytes) → is_blank s ≡ true → visit ref ts s ≡ ts
unfolding visit
visit_blank ref ts s h = rw h refl

-- A blank first piece changes nothing.
cleaned_blank :
    (ref : ℕ) (b : Bool) (ts : List Bytes) (p : Bytes) (ps : List Bytes)
    → is_blank p ≡ true
    → cleaned ref b ts (p ∷ ps) ≡ cleaned ref true ts ps
unfolding visit_all
cleaned_blank ref b ts p ps h = rw (visit_blank ref ts p h, h) refl

-- Where a piece follows, it alone says how the name ends.
ends_dir-pieces : (b d : Bool) (cs : Bytes) → ends_dir b (pieces cs) ≡ ends_dir d (pieces cs)
unfolding pieces
ends_dir-pieces b d [] = refl
ends_dir-pieces b d (c ∷ cs) = elim (Bool-cases (c == slash)) [
  | inl at ↦ rw at refl
  | inr within ↦ rw within (glued (pieces cs))
]
  where
    glued : (ps : List Bytes) → ends_dir b (glue (c ∷ []) ps) ≡ ends_dir d (glue (c ∷ []) ps)
    glued [] = refl
    glued (p ∷ ps) = refl

abbrev first : List Bytes → Bytes
first [] = []
first (p ∷ ps) = p

not_left : (b d : Bool) → (not b || not d) ≡ true → d ≡ true → b ≡ false
not_left true d h e = cc
not_left false d h e = refl

not-false : (b : Bool) → not b ≡ false → b ≡ true
not-false true h = refl
not-false false h = cc

-- The piece that follows "." or another byte, where the loop takes it for an element.
first_some :
    (c : ℕ) (cs : Bytes)
    → (not (c == dot) || goes_on cs) ≡ true
    → is_blank (first (glue (c ∷ []) (pieces cs))) ≡ false
unfolding pieces
first_some c [] h = not_left (c == dot) true h refl
first_some c (d ∷ cs) h = elim (Bool-cases (d == slash)) [
  | inl at ↦ rw at (not_left (c == dot) (d == slash) h at)
  | inr within ↦ rw within (longer (pieces cs))
]
  where
    longer : (ps : List Bytes) → is_blank (first (glue (c ∷ []) (glue (d ∷ []) ps))) ≡ false
    longer [] = refl
    longer (p ∷ ps) = refl

-- A byte that the loop skips, before an element: a slash, or "." where a slash or the end follows.
skipped :
    (ref : ℕ) (ts : List Bytes) (c : ℕ) (cs : Bytes)
    → (not (c == slash) && (not (c == dot) || goes_on cs)) ≡ false
    → cleaned ref true ts (pieces (c ∷ cs)) ≡ cleaned ref true ts (pieces cs)
unfolding pieces
skipped ref ts c cs h = elim (Bool-cases (c == slash)) [
  | inl at ↦ rw at (cleaned_blank ref true ts [] (pieces cs) refl)
  | inr within ↦ rw within (single_dot cs (both (c == slash) (c == dot) (goes_on cs) within h))
]
  where
    both : (a b g : Bool) → a ≡ false → (not a && (not b || g)) ≡ false → (b ≡ true) × (g ≡ false)
    both true b g e h = cc
    both false true g e h = (refl, h)
    both false false g e h = cc

    single_dot :
        (cs : Bytes)
        → (c == dot ≡ true) × (goes_on cs ≡ false)
        → cleaned ref true ts (glue (c ∷ []) (pieces cs)) ≡ cleaned ref true ts (pieces cs)
    single_dot [] (e, _) =
        cleaned_blank ref true ts (c ∷ []) [] e ∙ sym (cleaned_blank ref true ts [] [] refl)
    single_dot (d ∷ cs) (e, g) =
        let at : d == slash ≡ true = not-false (d == slash) g in
        rw at (
          cleaned_blank ref true ts (c ∷ []) (pieces cs) e
          ∙ sym (cleaned_blank ref true ts [] (pieces cs) refl))

pieces-slash : (c : ℕ) (cs : Bytes) → c == slash ≡ true → pieces (c ∷ cs) ≡ [] ∷ pieces cs
unfolding pieces
pieces-slash c cs h = rw h refl

pieces_within :
    (c : ℕ) (cs : Bytes) → c == slash ≡ false → pieces (c ∷ cs) ≡ glue (c ∷ []) (pieces cs)
unfolding pieces
pieces_within c cs h = rw h refl

nothing_left :
    (ref : ℕ) (ts : List Bytes) (x : Bytes)
    → finish ref (record { elems = reverse ts; mustbedir = true; elem = x })
      ≡ cleaned ref true ts (pieces [])
unfolding finish pieces visit_all
nothing_left ref ts x = sym (cleaned_blank ref true ts [] [] refl)

-- The four ways that a byte is taken.
module _ (ref : ℕ) (es : List Bytes) (x : Bytes) (c : ℕ) (cs : Bytes) where
  step_begins :
      (not (c == slash) && (not (c == dot) || goes_on cs)) ≡ true
      → step ref (record { elems = es; mustbedir = true; elem = x }) c cs
        ≡ record { elems = es; mustbedir = false; elem = c ∷ [] }
  unfolding step
  step_begins h = rw h refl

  step_skips :
      (not (c == slash) && (not (c == dot) || goes_on cs)) ≡ false
      → step ref (record { elems = es; mustbedir = true; elem = x }) c cs
        ≡ record { elems = es; mustbedir = true; elem = x }
  unfolding step
  step_skips h = rw h refl

  step_ends :
      c == slash ≡ true
      → step ref (record { elems = es; mustbedir = false; elem = x }) c cs
        ≡ record { elems = add_elem ref es x; mustbedir = true; elem = x }
  unfolding step
  step_ends h = rw h refl

  step_within :
      c == slash ≡ false
      → step ref (record { elems = es; mustbedir = false; elem = x }) c cs
        ≡ record { elems = es; mustbedir = false; elem = x ++ c ∷ [] }
  unfolding step
  step_within h = rw h refl

abbrev rest_of : ℕ → Bytes → Scan → Elemlist
rest_of ref cs s = finish ref (scan ref s cs)

-- The last element, and one that a slash ends.
last_elem :
    (ref : ℕ) (ts : List Bytes) (x : Bytes)
    → is_blank x ≡ false
    → finish ref (record { elems = reverse ts; mustbedir = false; elem = x })
      ≡ cleaned ref true ts (x ∷ [])
unfolding finish visit_all
last_elem ref ts x some = rw (add_elem-visit ref ts x some, some) refl

nothing_behind :
    (ref : ℕ) (ts : List Bytes) (x : Bytes)
    → is_blank (first (glue x (pieces []))) ≡ false
    → finish ref (record { elems = reverse ts; mustbedir = false; elem = x })
      ≡ cleaned ref true ts (glue x (pieces []))
unfolding pieces
nothing_behind ref ts x some =
    last_elem ref ts x (ap is_blank (sym (append-nil x)) ∙ some)
    ∙ ap (λ y. cleaned ref true ts (y ∷ [])) (sym (append-nil x))

an_elem :
    (ref : ℕ) (ts : List Bytes) (x cs : Bytes)
    → cleaned ref true (visit ref ts x) (pieces cs) ≡ cleaned ref true ts (x ∷ pieces cs)
unfolding visit_all
an_elem ref ts x cs =
    ap
      (λ b. record {
        elems = reverse (visit_all ref (visit ref ts x) (pieces cs));
        ref = ref;
        mustbedir = b;
      })
      (ends_dir-pieces true (is_blank x || is_dotdot x) cs)

begins_some : (a b : Bool) → (not a && b) ≡ true → (a ≡ false) × (b ≡ true)
begins_some true b h = cc
begins_some false b h = (refl, h)

-- What the loop makes of a text, between two elements and within one.
mutual
  unfolding scan

  between_elems :
      (ref : ℕ) (ts : List Bytes) (x cs : Bytes)
      → rest_of ref cs (record { elems = reverse ts; mustbedir = true; elem = x })
        ≡ cleaned ref true ts (pieces cs)
  between_elems ref ts x [] = nothing_left ref ts x
  between_elems ref ts x (c ∷ cs) =
      elim (Bool-cases (not (c == slash) && (not (c == dot) || goes_on cs))) [
        | inl begins ↦
            let (not_slash, some) =
              begins_some (c == slash) (not (c == dot) || goes_on cs) begins in
            ap (rest_of ref cs) (step_begins ref (reverse ts) x c cs begins)
            ∙ within_elem ref ts (c ∷ []) cs (first_some c cs some)
            ∙ ap (cleaned ref true ts) (sym (pieces_within c cs not_slash))
        | inr skips ↦
            ap (rest_of ref cs) (step_skips ref (reverse ts) x c cs skips)
            ∙ between_elems ref ts x cs
            ∙ sym (skipped ref ts c cs skips)
      ]

  within_elem :
      (ref : ℕ) (ts : List Bytes) (x cs : Bytes)
      → is_blank (first (glue x (pieces cs))) ≡ false
      → rest_of ref cs (record { elems = reverse ts; mustbedir = false; elem = x })
        ≡ cleaned ref true ts (glue x (pieces cs))
  within_elem ref ts x [] some = nothing_behind ref ts x some
  within_elem ref ts x (c ∷ cs) some = elim (Bool-cases (c == slash)) [
    | inl at ↦
        let x_some : is_blank x ≡ false =
          ap is_blank (sym (append-nil x))
          ∙ ap (λ ps. is_blank (first (glue x ps))) (sym (pieces-slash c cs at))
          ∙ some in
        ap (rest_of ref cs) (step_ends ref (reverse ts) x c cs at)
        ∙ ap (λ es. rest_of ref cs (record { elems = es; mustbedir = true; elem = x }))
            (add_elem-visit ref ts x x_some)
        ∙ between_elems ref (visit ref ts x) x cs
        ∙ an_elem ref ts x cs
        ∙ ap (λ y. cleaned ref true ts (y ∷ pieces cs)) (sym (append-nil x))
        ∙ ap (λ ps. cleaned ref true ts (glue x ps)) (sym (pieces-slash c cs at))
    | inr within ↦
        let glued : glue (x ++ c ∷ []) (pieces cs) ≡ glue x (pieces (c ∷ cs)) =
          sym (glue-glue x (c ∷ []) (pieces cs)) ∙ ap (glue x) (sym (pieces_within c cs within)) in
        ap (rest_of ref cs) (step_within ref (reverse ts) x c cs within)
        ∙ within_elem ref ts (x ++ c ∷ []) cs (ap (λ ps. is_blank (first ps)) glued ∙ some)
        ∙ ap (cleaned ref true ts) glued
  ]

-- ParseName, for every string: the reference of its reference character and of the pieces behind it.
pub parse_name-cleaned :
    (name : Bytes) → parse_name name ≡ cleaned (ref_of name) true [] (pieces (behind_ref name))
unfolding parse_name
parse_name-cleaned name = between_elems (ref_of name) [] [] (behind_ref name)
