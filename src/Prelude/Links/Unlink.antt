-- ===== src/Prelude/Links/Unlink.antt =====
-- A cell of a doubly linked list is taken out.
use chan.Prelude.{
  ℕ, ◌==◌, if◌then◌else◌, ◌≡◌, ◌≢◌, refl, sym, ap, ◌∙◌, Option, none, some, List, [], ◌∷◌, ◌++◌,
  All,
}
use mathlib.Core.Path.{subst, ap₂}
use chan.Prelude.Distinct.{IsDistinct, last_of, last-All, All-map, IsApart-swap, append-IsDistinct}
use chan.Prelude.Links.{
  Links, IsSeg, IsSeg-append, IsSeg-same, relink, on_next, on_prev, on_next-other, on_prev-other,
  on_next-IsSeg, on_prev-IsSeg, first_of, last_ptr, last_lem, around, some_inj,
}

not_some : (x : ℕ) → ¬ (none ≡ some x)
not_some x e = cc

module _ {A : Type 0} (k : Links A) where
  -- The cells at the end and at the beginning of a list are on the heap, and what holds of all holds of
  -- them.
  pub end_cell :
      (h : ℕ → Option A) (a m z : Option ℕ) (xs : List ℕ) (l : ℕ) (P : ℕ → Type 0)
      → IsSeg k h none a m z xs
      → m ≡ some l
      → All P xs
      → (g : A) × (h l ≡ some g) × P l
  end_cell h a m z [] l P (e, e') at hs = absurd (not_some l (sym e' ∙ at))
  end_cell h a m z (c ∷ cs) l P s at hs =
      let (e, g, cell) = last_lem k h none a m z c cs s in
      let same = some_inj k (last_of c cs) l (sym e ∙ at) in
      (g, ap h (sym same) ∙ cell, subst P same (last-All P c cs hs))

  pub begin_cell :
      (h : ℕ → Option A) (m b q : Option ℕ) (ys : List ℕ) (c : ℕ) (P : ℕ → Type 0)
      → IsSeg k h m b q none ys
      → b ≡ some c
      → All P ys
      → (g : A) × (h c ≡ some g) × P c
  begin_cell h m b q [] c P (e, e') at hs = absurd (not_some c (sym e ∙ at))
  begin_cell h m b q (y ∷ ys) c P (e, g, cell, _, _) at (p, _) =
      let same = some_inj k y c (sym e ∙ at) in (g, ap h (sym same) ∙ cell, subst P same p)

  abbrev read_at : ℕ → ℕ → (A → A) → Option A → Option A → Option A
  read_at c x f none w = w
  read_at c x f (some g) w = if c == x then some (f g) else w

  relink_read :
      (h : ℕ → Option A) (c : ℕ) (f : A → A) (o : Option A) (x : ℕ)
      → relink k h c f o x ≡ read_at c x f o (h x)
  relink_read h c f none x = refl
  relink_read h c f (some g) x = refl

  -- The links of two heaps that agree where it matters.
  pub on_next-same :
      (h h' : ℕ → Option A) (m v : Option ℕ) (x : ℕ)
      → h x ≡ h' x
      → ((c : ℕ) → m ≡ some c → h c ≡ h' c)
      → on_next k h m v x ≡ on_next k h' m v x
  on_next-same h h' none v x e at = e
  on_next-same h h' (some c) v x e at =
      relink_read h c (k.set_next v) (h c) x
      ∙ ap₂ (λ o w. read_at c x (k.set_next v) o w) (at c refl) e
      ∙ sym (relink_read h' c (k.set_next v) (h' c) x)

  -- A cell in which a list does not end, and one with which it does not begin.
  end_other :
      (h : ℕ → Option A) (a m z : Option ℕ) (xs : List ℕ) (y : ℕ)
      → IsSeg k h none a m z xs
      → All (λ x. x ≢ y) xs
      → m ≢ some y
  end_other h a m z [] y (e, e') apart at = not_some y (sym e' ∙ at)
  end_other h a m z (c ∷ cs) y s apart at =
      last-All (λ x. x ≢ y) c cs apart
        (some_inj k (last_of c cs) y (sym ((last_lem k h none a m z c cs s).0) ∙ at))

  begin_other :
      (h : ℕ → Option A) (m b q : Option ℕ) (ys : List ℕ) (x : ℕ)
      → IsSeg k h m b q none ys
      → All (λ y. x ≢ y) ys
      → b ≢ some x
  begin_other h m b q [] x (e, e') apart at = not_some x (sym e ∙ at)
  begin_other h m b q (c ∷ cs) x (e, _, _, _, _) (ne, _) at = ne (some_inj k x c (sym at ∙ e))

  module _ (h : ℕ → Option A) (a q : Option ℕ) (xs : List ℕ) (r : ℕ) (ys : List ℕ) (g : A)
      (s : IsSeg k h none a q none (xs ++ r ∷ ys)) (apart : IsDistinct (xs ++ r ∷ ys))
      (at : h r ≡ some g) where
    pub ends_other : (y : ℕ) → All (λ x. x ≢ y) xs → k.prev g ≢ some y
    ends_other y = end_other h a (k.prev g) (some r) xs y ((around k h a q xs r ys g s at).0)

    pub begins_other : (x : ℕ) → All (λ y. x ≢ y) ys → k.next g ≢ some x
    begins_other x = begin_other h (some r) (k.next g) q ys x ((around k h a q xs r ys g s at).1)

    -- A cell is taken out: what stood before it goes on with what stood behind it, and that goes back to
    -- what stood before.
    pub unlinked :
        IsSeg k
          (on_prev k (on_next k h (k.prev g) (k.next g)) (k.next g) (k.prev g))
          none
          (first_of k (k.prev g) (k.next g) a)
          (last_ptr k (k.next g) (k.prev g) q)
          none
          (xs ++ ys)
    unlinked =
        let m = k.prev g in
        let b = k.next g in
        let h1 = on_next k h m b in
        let h2 = on_prev k h1 b m in
        let (sx, sy) = around k h a q xs r ys g s at in
        let (dx, ((_, dy), across)) = append-IsDistinct xs (r ∷ ys) apart in
        let ys_apart = IsApart-swap xs ys (
          All-map (λ x. (x ≢ r) × All (λ y. x ≢ y) ys) (λ x. All (λ y. x ≢ y) ys) (λ x h. h.1) xs
            across) in
        let sy1 =
          IsSeg-same k h h1 (some r) b q none ys
            (All-map (λ y. All (λ x. x ≢ y) xs) (λ y. h1 y ≡ h y)
              (λ y ne. on_next-other k h m b y (ends_other y ne)) ys ys_apart)
            sy in
        let sx1 = on_next-IsSeg k h a m (some r) b xs sx dx in
        let sx2 =
          IsSeg-same k h1 h2 none (first_of k m b a) m b xs
            (All-map (λ x. (x ≢ r) × All (λ y. x ≢ y) ys) (λ x. h2 x ≡ h1 x)
              (λ x ne. on_prev-other k h1 b m x (begins_other x ne.1)) xs across)
            sx1 in
        IsSeg-append k h2 none (first_of k m b a) m b (last_ptr k b m q) none xs ys sx2
          (on_prev-IsSeg k h1 (some r) b q m ys sy1 dy)

    -- The same in the other order.
    pub unlinked_back :
        IsSeg k
          (on_next k (on_prev k h (k.next g) (k.prev g)) (k.prev g) (k.next g))
          none
          (first_of k (k.prev g) (k.next g) a)
          (last_ptr k (k.next g) (k.prev g) q)
          none
          (xs ++ ys)
    unlinked_back =
        let m = k.prev g in
        let b = k.next g in
        let h1 = on_prev k h b m in
        let h2 = on_next k h1 m b in
        let (sx, sy) = around k h a q xs r ys g s at in
        let (dx, ((_, dy), across)) = append-IsDistinct xs (r ∷ ys) apart in
        let ys_apart = IsApart-swap xs ys (
          All-map (λ x. (x ≢ r) × All (λ y. x ≢ y) ys) (λ x. All (λ y. x ≢ y) ys) (λ x h. h.1) xs
            across) in
        let sx1 =
          IsSeg-same k h h1 none a m (some r) xs
            (All-map (λ x. (x ≢ r) × All (λ y. x ≢ y) ys) (λ x. h1 x ≡ h x)
              (λ x ne. on_prev-other k h b m x (begins_other x ne.1)) xs across)
            sx in
        let sy1 = on_prev-IsSeg k h (some r) b q m ys sy dy in
        let sy2 =
          IsSeg-same k h1 h2 m b (last_ptr k b m q) none ys
            (All-map (λ y. All (λ x. x ≢ y) xs) (λ y. h2 y ≡ h1 y)
              (λ y ne. on_next-other k h1 m b y (ends_other y ne)) ys ys_apart)
            sy1 in
        IsSeg-append k h2 none (first_of k m b a) m b (last_ptr k b m q) none xs ys
          (on_next-IsSeg k h1 a m (some r) b xs sx1 dx) sy2
