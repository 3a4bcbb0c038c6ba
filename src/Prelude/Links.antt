-- ===== src/Prelude/Links.antt =====
-- Doubly linked lists of cells on a heap: what their links stand for, and how a cell is put behind them.
-- Links/Unlink takes one out.
pub mod Unlink
use chan.Prelude.{
  ℕ, ◌==◌, ◌≡◌, ◌≢◌, refl, sym, ap, ◌∙◌, inl, inr, arith, true, false, Option, none, some, List, [],
  ◌∷◌, ◌++◌, All, if◌then◌else◌,
}
use mathlib.Core.Path.{subst}
use chan.Prelude.Run.{update}
use chan.Prelude.Distinct.{
  IsDistinct, last_of, last-All, All-map, IsApart, IsApart-swap, append-IsDistinct, eq_same,
  eq_other, eq_cases,
}

-- The two links of a cell, and how they are set.
pub record Links (A : Type 0) : Type 0 where
  pub next : A → Option ℕ
  pub prev : A → Option ℕ
  pub set_next : Option ℕ → A → A
  pub set_prev : Option ℕ → A → A
  pub next-set_next : (v : Option ℕ) (a : A) → next (set_next v a) ≡ v
  pub prev-set_next : (v : Option ℕ) (a : A) → prev (set_next v a) ≡ prev a
  pub next-set_prev : (v : Option ℕ) (a : A) → next (set_prev v a) ≡ next a
  pub prev-set_prev : (v : Option ℕ) (a : A) → prev (set_prev v a) ≡ v

module _ {A : Type 0} (k : Links A) where
  -- From `a` on, behind `p`, stand the cells `cs`, each of which knows the one before it; the last of
  -- all these is `q`, and `z` is behind them.
  abbrev pub IsSeg : (ℕ → Option A) → Option ℕ → Option ℕ → Option ℕ → Option ℕ → List ℕ → Type 0
  IsSeg h p a q z [] = (a ≡ z) × (q ≡ p)
  IsSeg h p a q z (c ∷ cs) =
      (a ≡ some c) × (g : A) × (h c ≡ some g) × (k.prev g ≡ p) × IsSeg h (some c) (k.next g) q z cs

  pub append-IsSeg :
      (h : ℕ → Option A) (p a q z : Option ℕ) (xs ys : List ℕ)
      → IsSeg h p a q z (xs ++ ys)
      → (m : Option ℕ) × (b : Option ℕ) × IsSeg h p a m b xs × IsSeg h m b q z ys
  append-IsSeg h p a q z [] ys s = (p, a, (refl, refl), s)
  append-IsSeg h p a q z (x ∷ xs) ys (e, g, cell, back, s) =
      let (m, b, sx, sy) = append-IsSeg h (some x) (k.next g) q z xs ys s in
      (m, b, (e, g, cell, back, sx), sy)

  pub IsSeg-append :
      (h : ℕ → Option A) (p a m b q z : Option ℕ) (xs ys : List ℕ)
      → IsSeg h p a m b xs
      → IsSeg h m b q z ys
      → IsSeg h p a q z (xs ++ ys)
  IsSeg-append h p a m b q z [] ys (e, e') s =
      subst (λ m. IsSeg h m a q z ys) e' (subst (λ b. IsSeg h m b q z ys) (sym e) s)
  IsSeg-append h p a m b q z (x ∷ xs) ys (e, g, cell, back, sx) sy =
      (e, g, cell, back, IsSeg-append h (some x) (k.next g) m b q z xs ys sx sy)

  -- A segment stays where its cells do.
  pub IsSeg-same :
      (h h' : ℕ → Option A) (p a q z : Option ℕ) (cs : List ℕ)
      → All (λ c. h' c ≡ h c) cs
      → IsSeg h p a q z cs
      → IsSeg h' p a q z cs
  IsSeg-same h h' p a q z [] same s = s
  IsSeg-same h h' p a q z (c ∷ cs) (e', same) (e, g, cell, back, s) =
      (e, g, e' ∙ cell, back, IsSeg-same h h' (some c) (k.next g) q z cs same s)

  -- A segment stays where a cell is changed that keeps its links.
  pub IsSeg-update :
      (h : ℕ → Option A) (r : ℕ) (g g' : A) (p a q z : Option ℕ) (cs : List ℕ)
      → h r ≡ some g
      → k.next g' ≡ k.next g
      → k.prev g' ≡ k.prev g
      → IsSeg h p a q z cs
      → IsSeg (update h r (some g')) p a q z cs
  IsSeg-update h r g g' p a q z [] at on back s = s
  IsSeg-update h r g g' p a q z (c ∷ cs) at on back (e, f, cell, before, s) =
      let rest = IsSeg-update h r g g' (some c) (k.next f) q z cs at on back s in
      elim (eq_cases r c) [
        | inl (hit, same) ↦
            let e0 : some f ≡ some g = sym cell ∙ ap h (sym same) ∙ at in
            let fg : f ≡ g = cc in
            (
              e,
              g',
              rw hit refl,
              back ∙ ap k.prev (sym fg) ∙ before,
              subst (λ o. IsSeg (update h r (some g')) (some c) o q z cs) (ap k.next fg ∙ sym on)
                  rest,
            )
        | inr (other, _) ↦ (e, f, rw other cell, before, rest)
      ]

  -- `*ptr` with a link set, for a pointer that may be nil.
  abbrev pub relink : (ℕ → Option A) → ℕ → (A → A) → Option A → ℕ → Option A
  relink h c f none = h
  relink h c f (some g) = update h c (some (f g))

  abbrev pub on_next : (ℕ → Option A) → Option ℕ → Option ℕ → ℕ → Option A
  on_next h none v = h
  on_next h (some c) v = relink h c (k.set_next v) (h c)

  abbrev pub on_prev : (ℕ → Option A) → Option ℕ → Option ℕ → ℕ → Option A
  on_prev h none v = h
  on_prev h (some c) v = relink h c (k.set_prev v) (h c)

  relink-other :
      (h : ℕ → Option A) (c : ℕ) (f : A → A) (o : Option A) (x : ℕ) → c ≢ x → relink h c f o x ≡ h x
  relink-other h c f none x other = refl
  relink-other h c f (some g) x other = rw (eq_other c x other) refl

  pub on_next-other :
      (h : ℕ → Option A) (m v : Option ℕ) (x : ℕ) → m ≢ some x → on_next h m v x ≡ h x
  on_next-other h none v x other = refl
  on_next-other h (some c) v x other =
      relink-other h c (k.set_next v) (h c) x (λ e. other (ap some e))

  pub on_prev-other :
      (h : ℕ → Option A) (m v : Option ℕ) (x : ℕ) → m ≢ some x → on_prev h m v x ≡ h x
  on_prev-other h none v x other = refl
  on_prev-other h (some c) v x other =
      relink-other h c (k.set_prev v) (h c) x (λ e. other (ap some e))

  -- What the links say of the last cell.
  pub last_lem :
      (h : ℕ → Option A) (p a q z : Option ℕ) (c : ℕ) (cs : List ℕ)
      → IsSeg h p a q z (c ∷ cs)
      → (q ≡ some (last_of c cs)) × (g : A) × (h (last_of c cs) ≡ some g)
  last_lem h p a q z c [] (_, g, cell, _, (_, e)) = (e, g, cell)
  last_lem h p a q z c (d ∷ cs) (_, g, cell, _, s) = last_lem h (some c) (k.next g) q z d cs s

  -- The end of a segment is led elsewhere.
  lead_last :
      (h h' : ℕ → Option A) (p a q z v : Option ℕ) (c : ℕ) (cs : List ℕ)
      → IsSeg h p a q z (c ∷ cs)
      → IsDistinct (c ∷ cs)
      → ((g : A) → h (last_of c cs) ≡ some g → h' (last_of c cs) ≡ some (k.set_next v g))
      → All (λ x. x ≢ last_of c cs → h' x ≡ h x) (c ∷ cs)
      → IsSeg h' p a q v (c ∷ cs)
  lead_last h h' p a q z v c [] (e, g, cell, back, (_, e')) apart at keep =
      (e, k.set_next v g, at g cell, k.prev-set_next v g ∙ back, (k.next-set_next v g, e'))
  lead_last h h' p a q z v c (d ∷ cs) (e, g, cell, back, s) (apart, others) at (same, keep) = (
    e,
    g,
    same (last-All (λ x. c ≢ x) d cs apart) ∙ cell,
    back,
    lead_last h h' (some c) (k.next g) q z v d cs s others at keep,
  )

  -- `m.next = v`, or the list's first cell is `v`.
  abbrev pub first_of : Option ℕ → Option ℕ → Option ℕ → Option ℕ
  first_of none v a = v
  first_of (some b) v a = a

  pub some_inj : (x y : ℕ) → some x ≡ some y → x ≡ y
  some_inj x y e = cc

  pub on_next-IsSeg :
      (h : ℕ → Option A) (a m z v : Option ℕ) (xs : List ℕ)
      → IsSeg h none a m z xs
      → IsDistinct xs
      → IsSeg (on_next h m v) none (first_of m v a) m v xs
  on_next-IsSeg h a m z v [] (e, e') apart = rw e' (refl, refl)
  on_next-IsSeg h a m z v (c ∷ cs) s apart =
      let (e, g, cell) = last_lem h none a m z c cs s in
      let l = last_of c cs in
      let led : IsSeg (on_next h (some l) v) none a m v (c ∷ cs) =
        lead_last h (on_next h (some l) v) none a m z v c cs s apart
          (λ g' e. rw (e, eq_same l) refl) (all_keep l (c ∷ cs)) in
      subst (λ o. IsSeg (on_next h o v) none (first_of o v a) m v (c ∷ cs)) (sym e) led
    where
      all_keep : (l : ℕ) (xs : List ℕ) → All (λ x. x ≢ l → on_next h (some l) v x ≡ h x) xs
      all_keep l [] = tt
      all_keep l (x ∷ xs) =
          ((λ ne. on_next-other h (some l) v x (λ e. ne (sym (some_inj l x e)))), all_keep l xs)

  abbrev pub last_ptr : Option ℕ → Option ℕ → Option ℕ → Option ℕ
  last_ptr none v q = v
  last_ptr (some c) v q = q

  pub on_prev-IsSeg :
      (h : ℕ → Option A) (m b q v : Option ℕ) (ys : List ℕ)
      → IsSeg h m b q none ys
      → IsDistinct ys
      → IsSeg (on_prev h b v) v b (last_ptr b v q) none ys
  on_prev-IsSeg h m b q v [] (e, e') apart = rw e (refl, refl)
  on_prev-IsSeg h m b q v (c ∷ cs) (e, g, cell, back, s) (apart, others) =
      let h' = on_prev h (some c) v in
      let keep =
        All-map (λ x. c ≢ x) (λ x. h' x ≡ h x)
          (λ x ne. on_prev-other h (some c) v x (λ e. ne (some_inj c x e))) cs apart in
      let rest : IsSeg h' (some c) (k.next (k.set_prev v g)) q none cs =
        subst (λ o. IsSeg h' (some c) o q none cs) (sym (k.next-set_prev v g))
          (IsSeg-same h h' (some c) (k.next g) q none cs keep s) in
      subst (λ o. IsSeg (on_prev h o v) v o (last_ptr o v q) none (c ∷ cs)) (sym e)
        (refl, k.set_prev v g, rw (cell, eq_same c) refl, k.prev-set_prev v g, rest)

  -- The links of a list around one of its cells.
  pub around :
      (h : ℕ → Option A) (a q : Option ℕ) (xs : List ℕ) (r : ℕ) (ys : List ℕ) (g : A)
      → IsSeg h none a q none (xs ++ r ∷ ys)
      → h r ≡ some g
      → IsSeg h none a (k.prev g) (some r) xs × IsSeg h (some r) (k.next g) q none ys
  around h a q xs r ys g s at =
      let (m, b, sx, (e, g', cell, back, sy)) = append-IsSeg h none a q none xs (r ∷ ys) s in
      let same : some g' ≡ some g = sym cell ∙ at in
      let gg : g' ≡ g = cc in
      (
        subst (λ o. IsSeg h none a o (some r) xs) (sym back ∙ ap k.prev gg)
            (subst (λ o. IsSeg h none a m o xs) e sx),
        subst (λ o. IsSeg h (some r) o q none ys) (ap k.next gg) sy,
      )

  -- A cell is put behind the last.
  pub appended :
      (h h' : ℕ → Option A) (a q : Option ℕ) (cs : List ℕ) (r : ℕ) (g : A)
      → IsSeg h none a q none cs
      → IsDistinct cs
      → All (λ c. h' c ≡ on_next h q (some r) c) cs
      → h' r ≡ some g
      → k.prev g ≡ q
      → k.next g ≡ none
      → IsSeg h' none (first_of q (some r) a) (some r) none (cs ++ r ∷ [])
  appended h h' a q cs r g s apart same at back on =
      IsSeg-append h' none (first_of q (some r) a) q (some r) (some r) none cs (r ∷ [])
        (IsSeg-same (on_next h q (some r)) h' none (first_of q (some r) a) q (some r) cs same
          (on_next-IsSeg h a q none (some r) cs s apart))
        (refl, g, at, back, (on, refl))
