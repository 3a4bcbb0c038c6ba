-- ===== src/Srv/Recv/Stream.antt =====
-- The outer loop of recv, over a connection's bytes and any sizes of the Reads.
use chan.Prelude.{
  ℕ, zero, suc, ◌+◌, ◌-◌, ◌*◌, ◌^◌, ◌≤◌, ◌<◌, ◌≡◌, ◌⊎◌, inl, inr, refl, sym, ◌∙◌, ap, arith, Bool,
  List, [], ◌∷◌, ◌++◌, ltb, length, take, drop, length-append, take-append, drop-append, drop-drop,
  length-drop, append-nil, append_assoc, Bool-cases,
}
use mathlib.Core.Path.{subst, ap₂}
use native.Mathlib.Nat.{zero-add, suc-add}
use chan.Wire.Types.{Bytes, Fcall}
use chan.Wire.Pack.{zeros}
use chan.Srv.Recv.{
  Input, End, waiting, closed, and_also, drain, ensure, store, room, received, goes_on, recv,
}
use chan.Srv.Recv.Frames.{held}
use chan.Srv.Recv.Chunks.{frames, frames-append, continue}
use chan.Srv.Recv.Buffer.{
  IsSameEnd, waits, closes, panics, sticks, IsSameRun, drain_same, grow-held,
}

length-zeros : (n : ℕ) → length (zeros n) ≡ n
length-zeros zero = refl
length-zeros (suc n) = omega (arith, length-zeros n)

take-nil : (n : ℕ) → take {A = ℕ} n [] ≡ []
take-nil zero = refl
take-nil (suc n) = refl

take-split : (n m : ℕ) (xs : Bytes) → take (n + m) xs ≡ take n xs ++ take m (drop n xs)
take-split zero m xs = rw zero-add
take-split (suc n) m [] = rw (suc-add, take-nil m)
take-split (suc n) m (x ∷ xs) = rw suc-add (ap (λ l. x ∷ l) (take-split n m xs))

self_append : {A : Type 0} (xs ys : List A) → xs ≡ xs ++ ys → ys ≡ []
self_append [] ys h = sym h
self_append (x ∷ xs) ys h = self_append xs ys cc

left_over_of :
    (fcs : List Fcall) (w : End) (r : List Fcall × End) → (fcs, w) ≡ and_also fcs r → r ≡ ([], w)
left_over_of fcs w (xs, e) h =
    let none : xs ≡ [] = self_append fcs xs (ap (λ z. z.0) h) in
    let ends : w ≡ e = ap (λ z. z.1) h in rw (none, ends)

-- A run of recv that read `n` bytes of the stream found the messages of `q` and those bytes. It ends
-- where the reference does, or where the stream ends; if it waits, each Read brought a byte.
abbrev pub IsRead : ℕ → Bool → Bytes → Bytes → ℕ → List Fcall × End → ℕ → Type 0
IsRead msize dotu q stream reads r n =
    (r.0 ≡ (frames msize dotu (q ++ take n stream)).0)
    × (IsSameEnd msize r.1 (frames msize dotu (q ++ take n stream)).1
        ⊎ ((r.1 ≡ closed) × (length stream ≤ n)))
    × ((i : Input) → r.1 ≡ waiting i → reads ≤ n)
    × (n ≤ length stream)

module _ (msize : ℕ) (dotu : Bool) (large : 4 < msize) (small : msize * 8 < 2 ^ 32) where
  ensure-held :
      (p more : Bytes)
      → length p < msize
      → (more' : Bytes) × (ensure msize (held p more) ≡ held p more')
        × (msize ≤ length (p ++ more'))
  unfolding ensure
  ensure-held p more part = elim (Bool-cases (ltb (length (p ++ more)) msize)) [
    | inl grows ↦ (
      zeros (msize * 8 - length p),
      rw (grows, grow-held msize p more small (omega arith)),
      omega (
        arith,
        length-append p (zeros (msize * 8 - length p)),
        length-zeros (msize * 8 - length p),
      ),
    )
    | inr stays ↦ (more, rw stays, ground arith)
  ]

  -- What is left of some bytes holds no message.
  left_over :
      (q p : Bytes) (fcs : List Fcall)
      → frames msize dotu q ≡ (fcs, waiting (held p []))
      → frames msize dotu p ≡ ([], waiting (held p []))
  left_over q p fcs h = left_over_of fcs (waiting (held p [])) (frames msize dotu p) (
      sym h
      ∙ ap (frames msize dotu) (sym (append-nil q))
      ∙ frames-append msize dotu q []
      ∙ ap (λ r. continue msize dotu r []) h
      ∙ ap (λ l. and_also fcs (frames msize dotu l)) (append-nil (p ++ []) ∙ append-nil p))

  store-held :
      (p more chunk : Bytes)
      → store (held p more) chunk ≡ held (p ++ chunk) (drop (length chunk) more)
  store-held p more chunk =
      let behind : drop (length p + length chunk) (p ++ more) ≡ drop (length chunk) more =
        sym (drop-drop (length p) (length chunk) (p ++ more))
        ∙ ap (drop (length chunk)) (drop-append p more) in
      rw (
        take-append p more,
        behind,
        append_assoc p chunk (drop (length chunk) more),
        length-append p chunk,
      )

  received-frames :
      (p more chunk : Bytes)
      → 0 < length chunk
      → IsSameRun msize (received msize dotu (held p more) chunk) (frames msize dotu (p ++ chunk))
  unfolding received frames
  received-frames p more [] some = absurd (omega arith)
  received-frames p more (b ∷ chunk) some =
      subst
        (λ i. IsSameRun msize (drain (suc i.pos) msize dotu i) (frames msize dotu (p ++ b ∷ chunk)))
        (sym (store-held p more (b ∷ chunk)))
        (drain_same (suc (length (p ++ b ∷ chunk))) msize dotu large small (p ++ b ∷ chunk)
          (drop (length (b ∷ chunk)) more) (omega arith))

  -- The bytes behind the first `n`, with `k` more, are those behind `n + k`.
  frames_later :
      (q stream : Bytes) (n k : ℕ)
      → frames msize dotu (q ++ take (n + k) stream)
        ≡ continue msize dotu (frames msize dotu (q ++ take n stream)) (take k (drop n stream))
  frames_later q stream n k =
      ap (λ l. frames msize dotu (q ++ l)) (take-split n k stream)
      ∙ ap (frames msize dotu) (sym (append_assoc q (take n stream) (take k (drop n stream))))
      ∙ frames-append msize dotu (q ++ take n stream) (take k (drop n stream))

  module _ (q stream : Bytes) (n reads : ℕ) (some : 0 < n) (most : n ≤ length stream)
      (rest : Input → List Fcall × End)
      (later : (p more : Bytes)
        → length p < msize
        → frames msize dotu p ≡ ([], waiting (held p []))
        → (k : ℕ) × IsRead msize dotu p (drop n stream) reads (rest (held p more)) k) where
    behind-IsRead :
        (fcs gcs : List Fcall) (e g : End)
        → fcs ≡ gcs
        → IsSameEnd msize e g
        → frames msize dotu (q ++ take n stream) ≡ (gcs, g)
        → (k : ℕ) × IsRead msize dotu q stream (suc reads) (and_also fcs (goes_on e rest)) k
    behind-IsRead fcs gcs _ _ same (waits p more part) found =
        let (k, (fcs_same, end, waited, rests)) =
          later p more part (left_over (q ++ take n stream) p gcs found) in
        let all : frames msize dotu (q ++ take (n + k) stream)
            ≡ and_also gcs (frames msize dotu (p ++ take k (drop n stream))) =
          frames_later q stream n k
          ∙ ap (λ r. continue msize dotu r (take k (drop n stream))) found
          ∙ ap (λ l. and_also gcs (frames msize dotu (l ++ take k (drop n stream))))
              (append-nil p) in
        (
          n + k,
          (
            rw all (ap₂ (λ xs ys. xs ++ ys) same fcs_same),
            elim end [
              | inl ends ↦ inl (rw all ends)
              | inr (over, all_read) ↦ inr (over, omega (arith, length-drop n stream))
            ],
            λ i x. omega (arith, waited i x),
            omega (arith, length-drop n stream),
          ),
        )
    behind-IsRead fcs gcs _ _ same closes found = (
      n,
      (rw (found, append-nil fcs) same, inl (rw found closes), λ i x. absurd (ground arith), most),
    )
    behind-IsRead fcs gcs _ _ same panics found = (
      n,
      (rw (found, append-nil fcs) same, inl (rw found panics), λ i x. absurd (ground arith), most),
    )
    behind-IsRead fcs gcs _ _ same sticks found = (
      n,
      (rw (found, append-nil fcs) same, inl (rw found sticks), λ i x. absurd (ground arith), most),
    )

take_exact :
    (n : ℕ) (xs : Bytes)
    → (take (length (take n xs)) xs ≡ take n xs) × (length (take n xs) ≤ length xs)
take_exact zero xs = (refl, omega arith)
take_exact (suc n) [] = (refl, omega arith)
take_exact (suc n) (x ∷ xs) = let (e, h) = take_exact n xs in (ap (λ l. x ∷ l) e, omega arith)

take_some : (n b : ℕ) (xs : Bytes) → 0 < n → 0 < length (take n (b ∷ xs))
take_some zero b xs h = absurd (omega arith)
take_some (suc n) b xs h = omega arith

-- A run of recv that holds the beginning of a message, with any contents behind it in the buffer and
-- Reads of any sizes, finds just the messages that the reference finds in what it held and the bytes
-- that it has read; it ends as the reference does there or because the stream is used up, and while it
-- goes on, every Read has brought a byte. The message size is more than 4, and eight of it fit 32 bits.
pub recv-frames :
    (msize : ℕ) (dotu : Bool)
    → 4 < msize
    → msize * 8 < 2 ^ 32
    → (p more stream : Bytes) (sizes : List ℕ) → length p < msize
    → frames msize dotu p ≡ ([], waiting (held p []))
    → (n : ℕ) × IsRead msize dotu p stream
        (length sizes)
        (recv msize dotu (held p more) stream sizes)
        n
unfolding recv received
recv-frames msize dotu large small p more stream [] part left =
    let now : frames msize dotu (p ++ []) ≡ ([], waiting (held p [])) =
      ap (frames msize dotu) (append-nil p) ∙ left in
    (0, (rw now refl, inl (rw now (waits p more part)), λ i x. omega arith, omega arith))
recv-frames msize dotu large small p more [] (size ∷ sizes) part left =
    let now : frames msize dotu (p ++ []) ≡ ([], waiting (held p [])) =
      ap (frames msize dotu) (append-nil p) ∙ left in
    rw (take-nil (room (ensure msize (held p more)) (suc size))) (
      0,
      (sym (ap (λ r. r.0) now), inr (refl, omega arith), λ i x. absurd (ground arith), omega arith),
    )
recv-frames msize dotu large small p more (b ∷ stream) (size ∷ sizes) part left =
    let (more', ready, fits) = ensure-held msize dotu large small p more part in
    let chunk = take (room (held p more') (suc size)) (b ∷ stream) in
    let (exact, most) = take_exact (room (held p more') (suc size)) (b ∷ stream) in
    let some = take_some (room (held p more') (suc size)) b stream (ground arith) in
    let run = received-frames msize dotu large small p more' chunk some in
    let got = received msize dotu (held p more') chunk in
    let found = frames msize dotu (p ++ chunk) in
    rw ready (
      behind-IsRead msize dotu large small p (b ∷ stream) (length chunk) (length sizes) some most
        (λ i. recv msize dotu i (drop (length chunk) (b ∷ stream)) sizes)
        (λ p' more'' part' left'.
          recv-frames msize dotu large small p' more'' (drop (length chunk) (b ∷ stream)) sizes
            part' left')
        got.0 found.0 got.1 found.1 run.0 run.1 (ap (λ c. frames msize dotu (p ++ c)) exact))
