-- ===== src/Clnt/Calls/Transfer.antt =====
-- Writen, over what WriteAt does for a piece.
use chan.Prelude.{
  ℕ, zero, suc, ◌+◌, ◌%◌, ◌^◌, ◌≤◌, ◌<◌, ◌==◌, ◌≡◌, refl, sym, ap, ◌∙◌, arith, false, ltb-eq-false,
  Option, none, some, [], ◌∷◌, ◌++◌, length, take, drop, length-drop, length-take, take-add,
  if◌then◌else◌,
}
use chan.Prelude.Run.{done}
use chan.Wire.Types.{IsU32, IsU64, Bytes}
use chan.Clnt.Calls.{CallError, Answer, returns, fails, Session, Call}
use chan.Clnt.Calls.Io.{writen}

-- The bytes of a file, from an offset on, set to those of a buffer.
abbrev pub put : (ℕ → ℕ) → ℕ → Bytes → ℕ → ℕ
put file offset [] = file
put file offset (b ∷ bs) = put (λ i. if i == offset then b else file i) (offset + 1) bs

put-append :
    (file : ℕ → ℕ) (offset : ℕ) (xs ys : Bytes)
    → put file offset (xs ++ ys) ≡ put (put file offset xs) (offset + length xs) ys
put-append file offset [] ys =
    let e : offset + 0 ≡ offset = omega arith in ap (λ o. put file o ys) (sym e)
put-append file offset (x ∷ xs) ys =
    let e : offset + 1 + length xs ≡ offset + length (x ∷ xs) = omega arith in
    let file1 = λ (i : ℕ). if i == offset then x else file i in
    put-append file1 (offset + 1) xs ys ∙ ap (λ o. put (put file1 (offset + 1) xs) o ys) e

module _ {W : Type 0} (at : Bytes → ℕ → Call W ℕ) (store : Session W → ℕ → ℕ)
    (Good : Session W → Type 0) where
  -- What a piece comes to, in a session that has what it takes: some of its bytes are in the file, or none is, and there is an error.
  abbrev pub Wrote : Bytes → ℕ → Session W → Answer ℕ → Session W → Type 0
  Wrote buf offset s (returns n) s' =
      (0 < n) × (n ≤ length buf) × (store s' ≡ put (store s) offset (take n buf))
  Wrote buf offset s (fails e) s' = store s' ≡ store s

  pub record IsWriter : Type 0 where
    pub writes :
        (c : ℕ) (cs : Bytes) (offset : ℕ) (s : Session W)
        → Good s
        → IsU64 offset
        → IsU32 (length (c ∷ cs))
        → (a : Answer ℕ) × (s' : Session W) × (at (c ∷ cs) offset s ≡ done (a, s'))
          × Wrote (c ∷ cs) offset s a s'
          × Good s'

  -- What Writen returned: the length of the buffer; or a smaller number, and an error.
  abbrev pub Ended : Bytes → ℕ → Option CallError → Type 0
  Ended buf ret none = ret ≡ length buf
  Ended buf ret (some e) = ret < length buf

  -- The outcome of Writen on a buffer.
  abbrev pub Written : ℕ → Bytes → ℕ → Session W → Type 0
  Written fuel buf offset s =
      (ret : ℕ) × (e : Option CallError) × (s' : Session W) × (writen fuel at buf offset s
        ≡ done (returns (ret, e), s'))
      × (store s' ≡ put (store s) offset (take ret buf))
      × Ended buf ret e

  writen_fails :
      (fuel c : ℕ) (cs : Bytes) (offset : ℕ) (s s1 : Session W) (e : CallError)
      → at (c ∷ cs) offset s ≡ done (fails e, s1)
      → writen (suc fuel) at (c ∷ cs) offset s ≡ done (returns (0, some e), s1)
  unfolding writen
  writen_fails fuel c cs offset s s1 e run = rw run refl

  writen_goes :
      (fuel c : ℕ) (cs : Bytes) (offset n ret : ℕ) (s s1 s2 : Session W) (e : Option CallError)
      → at (c ∷ cs) offset s ≡ done (returns n, s1)
      → n == 0 ≡ false
      → n ≤ length (c ∷ cs)
      → writen fuel at (drop n (c ∷ cs)) ((offset + n) % 2 ^ 64) s1 ≡ done (returns (ret, e), s2)
      → writen (suc fuel) at (c ∷ cs) offset s ≡ done (returns (n + ret, e), s2)
  unfolding writen
  writen_goes fuel c cs offset n ret s s1 s2 e run some_n most rest =
      rw (run, some_n, ltb-eq-false (length (c ∷ cs)) n most) (rw rest refl)

  Ended-drop :
      (n ret : ℕ) (buf : Bytes) (e : Option CallError)
      → n ≤ length buf
      → Ended (drop n buf) ret e
      → Ended buf (n + ret) e
  Ended-drop n ret buf none most ended = omega (arith, length-drop n buf)
  Ended-drop n ret buf (some e) most ended = omega (arith, length-drop n buf)

  one_piece :
      (fuel c : ℕ) (cs : Bytes) (offset : ℕ) (s s1 : Session W) (a : Answer ℕ)
      → at (c ∷ cs) offset s ≡ done (a, s1)
      → Wrote (c ∷ cs) offset s a s1
      → offset + length (c ∷ cs) < 2 ^ 64
      → ((n : ℕ) → 0 < n → n ≤ length (c ∷ cs) → Written fuel (drop n (c ∷ cs)) (offset + n) s1)
      → Written (suc fuel) (c ∷ cs) offset s
  one_piece fuel c cs offset s s1 (fails e) run wrote small again =
      (0, some e, s1, writen_fails fuel c cs offset s s1 e run, wrote, omega arith)
  one_piece fuel c cs offset s s1 (returns n) run (some_n, most, wrote) small again =
      let (ret, e, s2, rest, wrote2, ended) = again n some_n most in
      let here : offset + n ≡ (offset + n) % 2 ^ 64 = omega arith in
      let front : offset + length (take n (c ∷ cs)) ≡ offset + n =
        omega (arith, length-take n (c ∷ cs) most) in
      (
        n + ret,
        e,
        s2,
        writen_goes fuel c cs offset n ret s s1 s2 e run (grind arith) most
            (ap (λ o. writen fuel at (drop n (c ∷ cs)) o s1) (sym here) ∙ rest),
        wrote2
            ∙ ap (λ f. put f (offset + n) (take ret (drop n (c ∷ cs)))) wrote
            ∙ ap (λ o. put (put (store s) offset (take n (c ∷ cs))) o (take ret (drop n (c ∷ cs))))
                (sym front)
            ∙ sym (put-append (store s) offset (take n (c ∷ cs)) (take ret (drop n (c ∷ cs))))
            ∙ ap (λ bs. put (store s) offset bs) (sym (take-add n ret (c ∷ cs))),
        Ended-drop n ret (c ∷ cs) e most ended,
      )

  -- Writen over pieces of which each writes some of its bytes or fails.
  pub writen-Written :
      (fuel : ℕ) (buf : Bytes) (offset : ℕ) (s : Session W)
      → IsWriter
      → Good s
      → length buf < fuel
      → IsU32 (length buf)
      → offset + length buf < 2 ^ 64
      → Written fuel buf offset s
  unfolding writen
  writen-Written zero buf offset s writer good enough u32 small = absurd (omega arith)
  writen-Written (suc fuel) [] offset s writer good enough u32 small =
      (0, none, s, refl, refl, omega arith)
  writen-Written (suc fuel) (c ∷ cs) offset s writer good enough u32 small =
      let (a, s1, run, wrote, good1) = writer.writes c cs offset s good (omega arith) u32 in
      one_piece fuel c cs offset s s1 a run wrote small (λ n some_n most.
        writen-Written fuel (drop n (c ∷ cs)) (offset + n) s1 writer good1
          (omega (arith, length-drop n (c ∷ cs))) (omega (arith, length-drop n (c ∷ cs)))
          (omega (arith, length-drop n (c ∷ cs))))
