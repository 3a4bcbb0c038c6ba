-- ===== src/Clnt/Calls/Fill.antt =====
-- Readn, over what ReadAt does for a piece.
use chan.Prelude.{
  ℕ, zero, suc, ◌+◌, ◌%◌, ◌^◌, ◌≤◌, ◌<◌, ◌==◌, ◌≡◌, refl, sym, ap, ◌∙◌, arith, false, ltb-eq-false,
  [], ◌∷◌, ◌++◌, length, take, drop, length-drop, length-append, length-take, take-add, drop-drop,
}
use chan.Prelude.Run.{done}
use chan.Wire.Types.{IsU32, IsU64, Bytes}
use chan.Clnt.Calls.{CallError, eof, Answer, returns, fails, Session, Call}
use chan.Clnt.Calls.Io.{readn}

module _ {W : Type 0} (at : Bytes → ℕ → Call W (ℕ × Bytes)) (file : Bytes)
    (Good : Session W → Type 0) where
  -- What a piece comes to: some bytes of the file are copied into the front of the buffer, or the file
  -- has ended, or there is another error.
  abbrev pub Got : Bytes → ℕ → Answer (ℕ × Bytes) → Type 0
  Got buf offset (returns (n, buf')) =
      (0 < n)
      × (n ≤ length buf)
      × (offset + n ≤ length file)
      × (buf' ≡ take n (drop offset file) ++ drop n buf)
  Got buf offset (fails e) = e ≡ eof → length file ≤ offset

  pub record IsReader : Type 0 where
    pub reads :
        (c : ℕ) (cs : Bytes) (offset : ℕ) (s : Session W)
        → Good s
        → IsU64 offset
        → IsU32 (length (c ∷ cs))
        → (a : Answer (ℕ × Bytes)) × (s' : Session W) × (at (c ∷ cs) offset s ≡ done (a, s'))
          × Got (c ∷ cs) offset a
          × Good s'

  -- What Readn comes to: all of the buffer's length, from the file; or an error, which is io.EOF only where
  -- the file ends before.
  abbrev pub Filled : Bytes → ℕ → Answer (ℕ × Bytes) → Type 0
  Filled buf offset (returns (n, buf')) =
      (n ≡ length buf) × (offset + n ≤ length file) × (buf' ≡ take n (drop offset file))
  Filled buf offset (fails e) = e ≡ eof → length file < offset + length buf

  abbrev pub Read : ℕ → Bytes → ℕ → Session W → Type 0
  Read fuel buf offset s =
      (a : Answer (ℕ × Bytes)) × (s' : Session W) × (readn fuel at buf offset s ≡ done (a, s'))
      × Filled buf offset a

  readn_fails :
      (fuel c : ℕ) (cs : Bytes) (offset : ℕ) (s s1 : Session W) (e : CallError)
      → at (c ∷ cs) offset s ≡ done (fails e, s1)
      → readn (suc fuel) at (c ∷ cs) offset s ≡ done (fails e, s1)
  unfolding readn
  readn_fails fuel c cs offset s s1 e run = rw run refl

  abbrev rest_of : ℕ → Bytes → Answer (ℕ × Bytes) → Answer (ℕ × Bytes)
  rest_of n front (returns (ret, buf)) = returns (n + ret, front ++ buf)
  rest_of n front (fails e) = fails e

  readn_goes :
      (fuel c : ℕ) (cs : Bytes) (offset n : ℕ) (buf1 : Bytes) (s s1 s2 : Session W)
      (a : Answer (ℕ × Bytes))
      → at (c ∷ cs) offset s ≡ done (returns (n, buf1), s1)
      → n == 0 ≡ false
      → n ≤ length buf1
      → readn fuel at (drop n buf1) ((offset + n) % 2 ^ 64) s1 ≡ done (a, s2)
      → readn (suc fuel) at (c ∷ cs) offset s ≡ done (rest_of n (take n buf1) a, s2)
  unfolding readn
  readn_goes fuel c cs offset n buf1 s s1 s2 (returns (ret, buf)) run some_n most rest =
      rw (run, some_n, ltb-eq-false (length buf1) n most) (rw rest refl)
  readn_goes fuel c cs offset n buf1 s s1 s2 (fails e) run some_n most rest =
      rw (run, some_n, ltb-eq-false (length buf1) n most) (rw rest refl)

  Filled-rest :
      (n offset : ℕ) (buf front : Bytes) (a : Answer (ℕ × Bytes))
      → n ≤ length buf
      → front ≡ take n (drop offset file)
      → Filled (drop n buf) (offset + n) a
      → Filled buf offset (rest_of n front a)
  Filled-rest n offset buf front (returns (ret, got)) most e (all, inside, copied) = (
    omega (arith, length-drop n buf),
    omega arith,
    rw (e, copied)
        (ap (λ l. take n (drop offset file) ++ take ret l) (sym (drop-drop offset n file))
          ∙ sym (take-add n ret (drop offset file))),
  )
  Filled-rest n offset buf front (fails x) most e short =
      λ end. let h = short end in omega (arith, h, length-drop n buf)

  -- The buffer behind a piece.
  piece_front :
      (n : ℕ) (xs ys : Bytes) → length xs ≡ n → (take n (xs ++ ys) ≡ xs) × (drop n (xs ++ ys) ≡ ys)
  piece_front zero [] ys e = (refl, refl)
  piece_front zero (x ∷ xs) ys e = absurd (omega arith)
  piece_front (suc n) [] ys e = absurd (omega arith)
  piece_front (suc n) (x ∷ xs) ys e =
      let (front, back) = piece_front n xs ys (omega arith) in (ap (λ t. x ∷ t) front, back)

  one_fill :
      (fuel c : ℕ) (cs : Bytes) (offset : ℕ) (s s1 : Session W) (a : Answer (ℕ × Bytes))
      → at (c ∷ cs) offset s ≡ done (a, s1)
      → Got (c ∷ cs) offset a
      → offset + length (c ∷ cs) < 2 ^ 64
      → ((n : ℕ)
          → 0 < n
          → n ≤ length (c ∷ cs)
          → offset + n ≤ length file
          → Read fuel (drop n (c ∷ cs)) (offset + n) s1)
      → Read (suc fuel) (c ∷ cs) offset s
  one_fill fuel c cs offset s s1 (fails e) run short small again = (
    fails e,
    s1,
    readn_fails fuel c cs offset s s1 e run,
    (λ end. let h = short end in omega (arith, h)),
  )
  one_fill fuel c cs offset s s1 (returns (n, buf1)) run (some_n, most, inside, copied) small
        again =
      let piece = take n (drop offset file) in
      let size : length piece ≡ n =
        length-take n (drop offset file) (omega (arith, length-drop offset file)) in
      let (front, back) = piece_front n piece (drop n (c ∷ cs)) size in
      let here : offset + n ≡ (offset + n) % 2 ^ 64 = omega arith in
      let (a, s2, rest, filled) = again n some_n most inside in
      let rest_here = ap (λ o. readn fuel at (drop n (c ∷ cs)) o s1) (sym here) ∙ rest in
      let left : drop n buf1 ≡ drop n (c ∷ cs) = ap (λ l. drop n l) copied ∙ back in
      (
        rest_of n (take n buf1) a,
        s2,
        readn_goes fuel c cs offset n buf1 s s1 s2 a run (grind arith)
            (omega
              (arith, ap (λ (l : Bytes). length l) copied, length-append piece (drop n (c ∷ cs))))
            (ap (λ l. readn fuel at l ((offset + n) % 2 ^ 64) s1) left ∙ rest_here),
        Filled-rest n offset (c ∷ cs) (take n buf1) a most (ap (λ l. take n l) copied ∙ front)
            filled,
      )

  -- Readn over pieces that each copy some bytes of the file, or meet its end, or fail.
  pub readn_over :
      (fuel : ℕ) (buf : Bytes) (offset : ℕ) (s : Session W)
      → IsReader
      → Good s
      → length buf < fuel
      → IsU32 (length buf)
      → offset + length buf < 2 ^ 64
      → offset ≤ length file
      → Read fuel buf offset s
  unfolding readn
  readn_over zero buf offset s reader good enough u32 small inside = absurd (omega arith)
  readn_over (suc fuel) [] offset s reader good enough u32 small inside =
      (returns (0, []), s, refl, (refl, omega arith, refl))
  readn_over (suc fuel) (c ∷ cs) offset s reader good enough u32 small inside =
      let (a, s1, run, got, good1) = reader.reads c cs offset s good (omega arith) u32 in
      one_fill fuel c cs offset s s1 a run got small (λ n some_n most still.
        readn_over fuel (drop n (c ∷ cs)) (offset + n) s1 reader good1
          (omega (arith, length-drop n (c ∷ cs))) (omega (arith, length-drop n (c ∷ cs)))
          (omega (arith, length-drop n (c ∷ cs))) still)
