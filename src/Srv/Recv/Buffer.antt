-- ===== src/Srv/Recv/Buffer.antt =====
-- The buffer of recv: the inner loop finds the messages of the bytes that were read, whatever lies
-- behind them, and leaves room for a Read.
use chan.Prelude.{
  ℕ, zero, suc, ◌+◌, ◌-◌, ◌*◌, ◌%◌, ◌^◌, ◌≤◌, ◌<◌, ◌≡◌, refl, ap, arith, Bool, List, [], ◌∷◌, ◌++◌,
  ltb, length, drop, length-drop, take-append, Bool-cases, inl, inr,
}
use chan.Wire.Types.{Bytes, Fcall}
use chan.Wire.Ints.{copy}
use chan.Wire.Pack.{zeros}
use chan.Srv.Recv.{
  Next, idle, bad, crash, short, got, next, grow, End, waiting, closed, panicked, stuck, advance,
  drained, drain,
}
use chan.Srv.Recv.Frames.{held, next_crop, next_got, next_short, next_idle}
use chan.Srv.Recv.Chunks.{scanned, scan, drop-append_le}

-- The loop waits where the reference does, with the same bytes; fewer than a message may have.
pub data IsSameEnd (msize : ℕ) : End → End → Type 0 where
  waits :
      (p more : Bytes)
      → length p < msize
      → IsSameEnd msize (waiting (held p more)) (waiting (held p []))
  closes : IsSameEnd msize closed closed
  panics : IsSameEnd msize panicked panicked
  sticks : IsSameEnd msize stuck stuck

abbrev pub IsSameRun : ℕ → List Fcall × End → List Fcall × End → Type 0
IsSameRun msize r t = (r.0 ≡ t.0) × IsSameEnd msize r.1 t.1

copy_over : (n m : ℕ) (p : Bytes) → n ≡ length p + m → copy (zeros n) p ≡ p ++ zeros m
unfolding copy
copy_over zero m [] h = let e : m ≡ 0 = omega arith in rw e
copy_over zero m (x ∷ p) h = absurd (omega arith)
copy_over (suc n) m [] h = let e : m ≡ suc n = omega arith in rw e
copy_over (suc n) m (x ∷ p) h = ap (λ l. x ∷ l) (copy_over n m p (omega arith))

pub grow-held :
    (msize : ℕ) (p more : Bytes)
    → msize * 8 < 2 ^ 32
    → length p ≤ msize
    → grow msize (held p more) ≡ held p (zeros (msize * 8 - length p))
unfolding grow
grow-held msize p more small fits =
    let all : msize * 8 % 2 ^ 32 ≡ msize * 8 = omega arith in
    rw (all, take-append p more, copy_over (msize * 8) (msize * 8 - length p) p (omega arith))

pub advance-held :
    (p more : Bytes) (n : ℕ) → n ≤ length p → advance (held p more) n ≡ held (drop n p) more
advance-held p more n h = rw (drop-append_le n p more h, length-drop n p)

module _ (k msize : ℕ) (dotu : Bool) (large : 4 < msize) (small : msize * 8 < 2 ^ 32) where
  step_same :
      (p more : Bytes) (o : Next)
      → ((r : Bytes)
          → length r < k
          → IsSameRun msize (drain k msize dotu (held r more)) (scan k msize dotu r))
      → length p ≤ k
      → next msize dotu (held p []) ≡ o
      → IsSameRun msize
          (drained (drain k msize dotu) msize (held p more) o)
          (scanned (scan k msize dotu) p o)
  unfolding drained
  step_same p more idle shorter room e =
      (refl, waits p more (omega (arith, next_idle msize dotu p e)))
  step_same p more (short sz) shorter room e =
      let (part, most) = next_short msize dotu p sz e in
      elim (Bool-cases (ltb (length (p ++ more)) sz)) [
        | inl grows ↦
            rw (grows, grow-held msize p more small (omega arith))
              (refl, waits p (zeros (msize * 8 - length p)) (omega arith))
        | inr stays ↦ rw stays (refl, waits p more (omega arith))
      ]
  step_same p more bad shorter room e = (refl, closes)
  step_same p more crash shorter room e = (refl, panics)
  step_same p more (got fc n) shorter room e =
      let (seven, most) = next_got msize dotu p fc n e in
      let (same, ends) = shorter (drop n p) (omega (arith, length-drop n p)) in
      rw (advance-held p more n most) (ap (λ l. fc ∷ l) same, ends)

pub drain_same :
    (k msize : ℕ) (dotu : Bool)
    → 4 < msize
    → msize * 8 < 2 ^ 32
    → (p more : Bytes) → length p < k
    → IsSameRun msize (drain k msize dotu (held p more)) (scan k msize dotu p)
unfolding drain scan
drain_same zero msize dotu large small p more h = absurd (omega arith)
drain_same (suc k) msize dotu large small p more h = rw (next_crop msize dotu p more) (
    step_same k msize dotu large small p more (next msize dotu (held p []))
      (λ r shorter. drain_same k msize dotu large small r more shorter) (omega arith) refl)
