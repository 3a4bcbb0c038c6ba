-- ===== src/Logger/Ring.antt =====
-- The ring of the logger as a list, the oldest entry first.
use chan.Prelude.{
  ℕ, zero, suc, ◌+◌, ◌≤◌, ◌<◌, ◌≡◌, refl, sym, ap, ◌∙◌, inl, inr, arith, leb, Bool-cases, Option,
  some, List, [], ◌∷◌, ◌++◌, append-nil, append_assoc, length, length-append, length-drop,
  length-take, take, drop, drop-length, take-length,
}
use chan.Logger.{Log, Logger, set_at, around, log}

module _ {D : Type 0} where
  -- The places from `idx` on, and then those before it.
  abbrev pub ring : Logger D → List (Option (Log D))
  ring l = drop l.idx l.items ++ take l.idx l.items

  abbrev pub IsRing : Logger D → Type 0
  IsRing l = (l.idx ≤ length l.items) × (0 < length l.items)

  drop-set_at :
      (xs : List (Option (Log D))) (k : ℕ) (v : Option (Log D))
      → drop (suc k) (set_at xs k v) ≡ drop (suc k) xs
  drop-set_at [] k v = refl
  drop-set_at (x ∷ xs) zero v = refl
  drop-set_at (x ∷ xs) (suc k) v = drop-set_at xs k v

  take-set_at :
      (xs : List (Option (Log D))) (k : ℕ) (v : Option (Log D))
      → k < length xs
      → take (suc k) (set_at xs k v) ≡ take k xs ++ v ∷ []
  take-set_at [] k v h = absurd (omega arith)
  take-set_at (x ∷ xs) zero v h = refl
  take-set_at (x ∷ xs) (suc k) v h = ap (λ l. x ∷ l) (take-set_at xs k v (omega arith))

  length-set_at :
      (xs : List (Option (Log D))) (k : ℕ) (v : Option (Log D)) → length (set_at xs k v) ≡ length xs
  length-set_at [] k v = refl
  length-set_at (x ∷ xs) zero v = refl
  length-set_at (x ∷ xs) (suc k) v = omega (arith, length-set_at xs k v)

  drop_one :
      (xs ys : List (Option (Log D))) (k : ℕ)
      → k < length xs
      → drop 1 (drop k xs ++ ys) ≡ drop (suc k) xs ++ ys
  drop_one [] ys k h = absurd (omega arith)
  drop_one (x ∷ xs) ys zero h = refl
  drop_one (x ∷ xs) ys (suc k) h = drop_one xs ys k (omega arith)

  around-ring :
      (l : Logger D)
      → IsRing l
      → (around l l.idx < length l.items)
        × (ring l ≡ drop (around l l.idx) l.items ++ take (around l l.idx) l.items)
  around-ring l (inside, some_items) = elim (Bool-cases (leb (length l.items) l.idx)) [
    | inr less ↦ rw less (grind arith, refl)
    | inl full ↦ rw full (
      some_items,
      let e : l.idx ≡ length l.items = grind arith in
          ap (λ k. drop k l.items ++ take k l.items) e
          ∙ ap (λ xs. xs ++ take (length l.items) l.items) (drop-length l.items)
          ∙ take-length l.items
          ∙ sym (append-nil l.items),
    )
  ]

  -- An entry takes the place of the oldest, and is the newest.
  log-ring :
      (it : Log D) (l : Logger D)
      → IsRing l
      → IsRing (log it l) × (ring (log it l) ≡ drop 1 (ring l) ++ some it ∷ [])
  unfolding log
  log-ring it l h =
      let k = around l l.idx in
      let (below, view) = around-ring l h in
      let size = length-set_at l.items k (some it) in
      let next : k + 1 ≡ suc k = omega arith in
      (
        (omega (arith, size, below), omega (arith, size, below)),
        ap (λ n. drop n (set_at l.items k (some it)) ++ take n (set_at l.items k (some it))) next
            ∙ ap (λ xs. xs ++ take (suc k) (set_at l.items k (some it)))
                (drop-set_at l.items k (some it))
            ∙ ap (λ xs. drop (suc k) l.items ++ xs) (take-set_at l.items k (some it) below)
            ∙ sym (append_assoc (drop (suc k) l.items) (take k l.items) (some it ∷ []))
            ∙ ap (λ xs. xs ++ some it ∷ [])
                (sym (drop_one l.items (take k l.items) k below) ∙ ap (λ xs. drop 1 xs) (sym view)),
      )

  -- Some entries, one after the other.
  abbrev pub log_all : List (Log D) → Logger D → Logger D
  log_all [] l = l
  log_all (it ∷ its) l = log_all its (log it l)

  abbrev pub held : List (Log D) → List (Option (Log D))
  held [] = []
  held (it ∷ its) = some it ∷ held its

  drop_within :
      (n : ℕ) (xs ys : List (Option (Log D)))
      → 0 < length xs
      → drop n (drop 1 xs ++ ys) ≡ drop (suc n) (xs ++ ys)
  drop_within n [] ys h = absurd (omega arith)
  drop_within n (x ∷ xs) ys h = refl

  ring_size : (l : Logger D) → IsRing l → 0 < length (ring l)
  ring_size l (inside, some_items) = omega (
    arith,
    length-append (drop l.idx l.items) (take l.idx l.items),
    length-drop l.idx l.items,
    length-take l.idx l.items inside,
  )

  -- Behind any entries, the ring has as many of the last ones, those from before counted in, as it has
  -- places: the oldest are gone, and the order is that of their coming.
  pub log_all-ring :
      (its : List (Log D)) (l : Logger D)
      → IsRing l
      → IsRing (log_all its l) × (ring (log_all its l) ≡ drop (length its) (ring l ++ held its))
  log_all-ring [] l h = (h, sym (append-nil (ring l)))
  log_all-ring (it ∷ its) l h =
      let (h1, one) = log-ring it l h in
      let (h2, rest) = log_all-ring its (log it l) h1 in
      (
        h2,
        rest
            ∙ ap (λ xs. drop (length its) (xs ++ held its)) one
            ∙ ap (λ xs. drop (length its) xs)
                (append_assoc (drop 1 (ring l)) (some it ∷ []) (held its))
            ∙ drop_within (length its) (ring l) (some it ∷ held its) (ring_size l h),
      )
