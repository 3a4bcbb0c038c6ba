-- ===== src/Srv/Recv/Chunks.antt =====
-- The loops of recv find the same messages however the bytes come in.
use chan.Prelude.{
  ℕ, zero, suc, ◌≤◌, ◌<◌, ◌≡◌, ◌≢◌, refl, sym, ◌∙◌, ap, arith, Bool, List, [], ◌∷◌, ◌++◌, length,
  drop, append_assoc, append-nil, length-drop,
}
use chan.Wire.Types.{Bytes, Fcall}
use chan.Srv.Recv.{
  Next, idle, bad, crash, short, got, next, End, waiting, closed, panicked, stuck, and_also, room,
}
use chan.Srv.Recv.Frames.{held, next-append, next_got}

-- What a round leads to, as in the loop, without the buffer.
abbrev pub scanned : (Bytes → List Fcall × End) → Bytes → Next → List Fcall × End
scanned rest p idle = ([], waiting (held p []))
scanned rest p bad = ([], closed)
scanned rest p crash = ([], panicked)
scanned rest p (short sz) = ([], waiting (held p []))
scanned rest p (got fc n) = and_also (fc ∷ []) (rest (drop n p))

unfoldable pub scan : ℕ → ℕ → Bool → Bytes → List Fcall × End
scan zero msize dotu p = ([], stuck)
scan (suc fuel) msize dotu p = scanned (scan fuel msize dotu) p (next msize dotu (held p []))

-- The messages of the bytes `p`, and what is left of them.
unfoldable pub frames : ℕ → Bool → Bytes → List Fcall × End
unfolding scan
frames msize dotu p = scan (suc (length p)) msize dotu p

scanned_same :
    (f g : Bytes → List Fcall × End) (p : Bytes) (o : Next)
    → ((fc : Fcall) (n : ℕ) → o ≡ got fc n → f (drop n p) ≡ g (drop n p))
    → scanned f p o ≡ scanned g p o
scanned_same f g p idle h = refl
scanned_same f g p bad h = refl
scanned_same f g p crash h = refl
scanned_same f g p (short sz) h = refl
scanned_same f g p (got fc n) h = ap (λ r. and_also (fc ∷ []) r) (h fc n refl)

scan_enough :
    (k m msize : ℕ) (dotu : Bool) (p : Bytes)
    → length p < k
    → length p < m
    → scan k msize dotu p ≡ scan m msize dotu p
unfolding scan
scan_enough zero m msize dotu p hk hm = absurd (omega arith)
scan_enough (suc k) zero msize dotu p hk hm = absurd (omega arith)
scan_enough (suc k) (suc m) msize dotu p hk hm =
    scanned_same (scan k msize dotu) (scan m msize dotu) p (next msize dotu (held p [])) λ fc n e.
      let (seven, most) = next_got msize dotu p fc n e in
      scan_enough k m msize dotu (drop n p) (omega (arith, length-drop n p))
        (omega (arith, length-drop n p))

-- One round and the rest.
pub frames_round :
    (msize : ℕ) (dotu : Bool) (p : Bytes)
    → frames msize dotu p ≡ scanned (frames msize dotu) p (next msize dotu (held p []))
unfolding frames scan
frames_round msize dotu p =
    scanned_same (scan (length p) msize dotu) (frames msize dotu) p (next msize dotu (held p []))
      λ fc n e.
        let (seven, most) = next_got msize dotu p fc n e in
        scan_enough (length p) (suc (length (drop n p))) msize dotu (drop n p)
          (omega (arith, length-drop n p)) (omega arith)

-- What was found goes on with the bytes that come later.
abbrev pub continue : ℕ → Bool → List Fcall × End → Bytes → List Fcall × End
continue msize dotu (fcs, waiting i) q = and_also fcs (frames msize dotu (i.buf ++ q))
continue msize dotu (fcs, closed) q = (fcs, closed)
continue msize dotu (fcs, panicked) q = (fcs, panicked)
continue msize dotu (fcs, stuck) q = (fcs, stuck)

pub drop-append_le : (n : ℕ) (xs ys : Bytes) → n ≤ length xs → drop n (xs ++ ys) ≡ drop n xs ++ ys
drop-append_le zero xs ys h = refl
drop-append_le (suc n) [] ys h = absurd (omega arith)
drop-append_le (suc n) (x ∷ xs) ys h = drop-append_le n xs ys (omega arith)

and_also-continue :
    (msize : ℕ) (dotu : Bool) (xs : List Fcall) (r : List Fcall × End) (q : Bytes)
    → and_also xs (continue msize dotu r q) ≡ continue msize dotu (and_also xs r) q
and_also-continue msize dotu xs (ys, waiting i) q =
    ap (λ l. (l, (frames msize dotu (i.buf ++ q)).1)) (sym (append_assoc xs ys _))
and_also-continue msize dotu xs (ys, closed) q = refl
and_also-continue msize dotu xs (ys, panicked) q = refl
and_also-continue msize dotu xs (ys, stuck) q = refl

module _ (k msize : ℕ) (dotu : Bool) (p q : Bytes)
    (shorter : (r : Bytes)
      → length r < k
      → frames msize dotu (r ++ q) ≡ continue msize dotu (scan k msize dotu r) q) where
  waits-append : frames msize dotu (p ++ q) ≡ continue msize dotu ([], waiting (held p [])) q
  waits-append = ap (λ r. frames msize dotu (r ++ q)) (sym (append-nil p))

  round-append :
      (o : Next)
      → length p ≤ k
      → next msize dotu (held p []) ≡ o
      → o ≢ idle
      → ((sz : ℕ) → o ≢ short sz)
      → frames msize dotu (p ++ q) ≡ scanned (frames msize dotu) (p ++ q) o
  round-append o room e one two =
      frames_round msize dotu (p ++ q)
      ∙ ap (scanned (frames msize dotu) (p ++ q))
          (next-append msize dotu p q (λ x. one (sym e ∙ x)) (λ sz x. two sz (sym e ∙ x)) ∙ e)

  step-append :
      (o : Next)
      → length p ≤ k
      → next msize dotu (held p []) ≡ o
      → frames msize dotu (p ++ q) ≡ continue msize dotu (scanned (scan k msize dotu) p o) q
  step-append idle room e = waits-append
  step-append (short sz) room e = waits-append
  step-append bad room e = round-append bad room e (λ x. cc) (λ sz x. cc)
  step-append crash room e = round-append crash room e (λ x. cc) (λ sz x. cc)
  step-append (got fc n) room e =
      let (seven, most) = next_got msize dotu p fc n e in
      round-append (got fc n) room e (λ x. cc) (λ sz x. cc)
      ∙ ap (λ r. and_also (fc ∷ []) (frames msize dotu r)) (drop-append_le n p q most)
      ∙ ap (λ r. and_also (fc ∷ []) r) (shorter (drop n p) (omega (arith, length-drop n p)))
      ∙ and_also-continue msize dotu (fc ∷ []) (scan k msize dotu (drop n p)) q

frames-append_fuel :
    (k msize : ℕ) (dotu : Bool) (p q : Bytes)
    → length p < k
    → frames msize dotu (p ++ q) ≡ continue msize dotu (scan k msize dotu p) q
unfolding scan
frames-append_fuel zero msize dotu p q h = absurd (omega arith)
frames-append_fuel (suc k) msize dotu p q h =
    step-append k msize dotu p q (λ r small. frames-append_fuel k msize dotu r q small)
      (next msize dotu (held p [])) (omega arith) refl

-- The messages of bytes that come in two parts are those of the first, and those of what is left of it
-- followed by the second.
pub frames-append :
    (msize : ℕ) (dotu : Bool) (p q : Bytes)
    → frames msize dotu (p ++ q) ≡ continue msize dotu (frames msize dotu p) q
unfolding frames
frames-append msize dotu p q = frames-append_fuel (suc (length p)) msize dotu p q (omega arith)
