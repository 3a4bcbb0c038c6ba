-- ===== src/Clnt/Calls/Batches.antt =====
-- The loop of FWalk walks all names, at most 16 at a time.
use chan.Prelude.{
  ℕ, zero, suc, ◌-◌, ◌≤◌, ◌<◌, ◌==◌, ◌≡◌, refl, sym, ap, ◌∙◌, ◌⊎◌, inl, inr, arith, true, false,
  ltb, Bool-cases, List, [], ◌∷◌, ◌++◌, append_assoc, append-nil, length, take, drop, All,
  length-append, length-drop, length-take, if◌then◌else◌,
}
use chan.Prelude.Run.{done}
use chan.Wire.Types.{Bytes, IsU16}
use chan.Wire.Message.{strs}
use chan.Wire.Ints.Laws.{str}
use chan.Clnt.Calls.{FidPtr, CallError, file_not_found, Answer, returns, fails, Session, Call}
use chan.Clnt.Calls.Files.{walk_batches}

take-drop : (n : ℕ) (xs : List Bytes) → take n xs ++ drop n xs ≡ xs
take-drop zero xs = refl
take-drop (suc n) [] = refl
take-drop (suc n) (x ∷ xs) = ap (λ t. x ∷ t) (take-drop n xs)

length_zero : (xs : List Bytes) → length xs == 0 ≡ true → xs ≡ []
length_zero [] e = refl
length_zero (x ∷ xs) e = absurd (grind arith)

smaller_by :
    (l d fuel : ℕ) → d ≡ l - (if ltb 16 l then 16 else l) → d == 0 ≡ false → l < suc fuel → d < fuel
smaller_by l d fuel e more enough = ground arith

-- The names, each of which fits its field, take at most so many bytes of a message.
abbrev pub FitIn : ℕ → List Bytes → Type 0
FitIn limit names = All (λ n. IsU16 (length n)) names × (length (strs names) ≤ limit)

FitIn-split :
    (limit n : ℕ) (names : List Bytes)
    → FitIn limit names
    → FitIn limit (take n names) × FitIn limit (drop n names)
unfolding strs
FitIn-split limit zero names h = ((tt, omega arith), h)
FitIn-split limit (suc n) [] h = (h, h)
FitIn-split limit (suc n) (x ∷ xs) ((h, hs), small) =
    let size = length-append (str x) (strs xs) in
    let rest : length (strs xs) ≤ limit - length (str x) = omega (arith, small, size) in
    let ((front, least), (back, most)) = FitIn-split (limit - length (str x)) n xs (hs, rest) in
    (
      ((h, front), omega (arith, small, size, least, length-append (str x) (strs (take n xs)))),
      (back, omega (arith, most)),
    )

-- A walk from a fid, over names that one Twalk can hold, and the place where the new fid then stands.
module _ {W : Type 0} (step : FidPtr → List Bytes → Call W ℕ)
    (place : Session W → FidPtr → List Bytes) (new : FidPtr) (Good : FidPtr → Session W → Type 0)
    (limit : ℕ) where
  abbrev pub Walked : FidPtr → List Bytes → Session W → Answer ℕ → Session W → Type 0
  Walked p names s (returns n) s' =
      ((n == length names ≡ true) × (place s' new ≡ place s p ++ names))
      ⊎ (n == length names ≡ false)
  Walked p names s (fails e) s' = Unit

  pub record IsWalker : Type 0 where
    pub walks :
        (p : FidPtr) (names : List Bytes) (s : Session W)
        → Good p s
        → FitIn limit names
        → length names ≤ 16
        → (a : Answer ℕ) × (s' : Session W) × (step p names s ≡ done (a, s'))
          × Walked p names s a s'
          × Good new s'

  -- Where the new fid stands behind the loop, unless it fails.
  abbrev pub Arrived : FidPtr → List Bytes → Session W → Answer (Unit {0}) → Session W → Type 0
  Arrived p names s (returns _) s' = place s' new ≡ place s p ++ names
  Arrived p names s (fails e) s' = Unit

  abbrev pub Batched : ℕ → FidPtr → List Bytes → Session W → Type 0
  Batched fuel p names s =
      (a : Answer (Unit {0})) × (s' : Session W) × (walk_batches fuel step p new names s
        ≡ done (a, s'))
      × Arrived p names s a s'

  abbrev batch : List Bytes → ℕ
  batch names = if ltb 16 (length names) then 16 else length names

  batch_lem : (names : List Bytes) → (batch names ≤ 16) × (batch names ≤ length names)
  batch_lem names = (ground arith, ground arith)

  loop_fails :
      (fuel : ℕ) (p : FidPtr) (names : List Bytes) (s s1 : Session W) (e : CallError)
      → step p (take (batch names) names) s ≡ done (fails e, s1)
      → walk_batches (suc fuel) step p new names s ≡ done (fails e, s1)
  unfolding walk_batches
  loop_fails fuel p names s s1 e run = rw run refl

  loop_short :
      (fuel n : ℕ) (p : FidPtr) (names : List Bytes) (s s1 : Session W)
      → step p (take (batch names) names) s ≡ done (returns n, s1)
      → n == batch names ≡ false
      → walk_batches (suc fuel) step p new names s ≡ done (fails file_not_found, s1)
  unfolding walk_batches
  loop_short fuel n p names s s1 run short = rw (run, short) refl

  loop_ends :
      (fuel n : ℕ) (p : FidPtr) (names : List Bytes) (s s1 : Session W)
      → step p (take (batch names) names) s ≡ done (returns n, s1)
      → n == batch names ≡ true
      → length (drop (batch names) names) == 0 ≡ true
      → walk_batches (suc fuel) step p new names s ≡ done (returns tt, s1)
  unfolding walk_batches
  loop_ends fuel n p names s s1 run all last = rw (run, all, last) refl

  loop_again :
      (fuel n : ℕ) (p : FidPtr) (names : List Bytes) (s s1 : Session W)
      → step p (take (batch names) names) s ≡ done (returns n, s1)
      → n == batch names ≡ true
      → length (drop (batch names) names) == 0 ≡ false
      → walk_batches (suc fuel) step p new names s
        ≡ walk_batches fuel step new new (drop (batch names) names) s1
  unfolding walk_batches
  loop_again fuel n p names s s1 run all more = rw (run, all, more) refl

  Arrived-further :
      (p : FidPtr) (names front rest : List Bytes) (s s1 s2 : Session W) (a : Answer (Unit {0}))
      → front ++ rest ≡ names
      → place s1 new ≡ place s p ++ front
      → Arrived new rest s1 a s2
      → Arrived p names s a s2
  Arrived-further p names front rest s s1 s2 (returns _) parts here there =
      there
      ∙ ap (λ l. l ++ rest) here
      ∙ append_assoc (place s p) front rest
      ∙ ap (λ l. place s p ++ l) parts
  Arrived-further p names front rest s s1 s2 (fails e) parts here there = tt

  walk_batch :
      (fuel : ℕ) (p : FidPtr) (names : List Bytes) (s s1 : Session W) (a : Answer ℕ)
      → step p (take (batch names) names) s ≡ done (a, s1)
      → Walked p (take (batch names) names) s a s1
      → (length (drop (batch names) names) == 0 ≡ false
          → Batched fuel new (drop (batch names) names) s1)
      → Batched (suc fuel) p names s
  walk_batch fuel p names s s1 (fails e) run _ again =
      (fails e, s1, loop_fails fuel p names s s1 e run, tt)
  walk_batch fuel p names s s1 (returns n) run (inr short) again =
      let size = length-take (batch names) names ((batch_lem names).1) in
      (
        fails file_not_found,
        s1,
        loop_short fuel n p names s s1 run (ap (λ k. n == k) (sym size) ∙ short),
        tt,
      )
  walk_batch fuel p names s s1 (returns n) run (inl (all, here)) again =
      let size = length-take (batch names) names ((batch_lem names).1) in
      let all' : n == batch names ≡ true = ap (λ k. n == k) (sym size) ∙ all in
      elim (Bool-cases (length (drop (batch names) names) == 0)) [
        | inl last ↦ (
          returns tt,
          s1,
          loop_ends fuel n p names s s1 run all' last,
          Arrived-further p names (take (batch names) names) (drop (batch names) names) s s1 s1
              (returns tt) (take-drop (batch names) names) here
              (sym (append-nil (place s1 new))
                ∙ ap (λ l. place s1 new ++ l) (sym (length_zero (drop (batch names) names) last))),
        )
        | inr more ↦
            let (a, s2, rest, there) = again more in
            (
              a,
              s2,
              loop_again fuel n p names s s1 run all' more ∙ rest,
              Arrived-further p names (take (batch names) names) (drop (batch names) names) s s1 s2
                  a (take-drop (batch names) names) here there,
            )
      ]

  smaller :
      (fuel : ℕ) (names : List Bytes)
      → length names < suc fuel
      → length (drop (batch names) names) == 0 ≡ false
      → length (drop (batch names) names) < fuel
  smaller fuel names enough more =
      smaller_by (length names) (length (drop (batch names) names)) fuel
        (length-drop (batch names) names) more enough

  -- The loop of FWalk over walks of at most 16 names, each of which moves the new fid as far as its names
  -- lead, or does not, or fails.
  pub batches_over :
      (fuel : ℕ) (p : FidPtr) (names : List Bytes) (s : Session W)
      → IsWalker
      → Good p s
      → FitIn limit names
      → length names < fuel
      → Batched fuel p names s
  batches_over zero p names s walker good fits enough = absurd (omega arith)
  batches_over (suc fuel) p names s walker good fits enough =
      let (le, in_range) = batch_lem names in
      let (front, back) = FitIn-split limit (batch names) names fits in
      let (a, s1, run, walked, good1) =
        walker.walks p (take (batch names) names) s good front
          (omega (arith, length-take (batch names) names in_range, le)) in
      walk_batch fuel p names s s1 a run walked (λ more.
        batches_over fuel new (drop (batch names) names) s1 walker good1 back
          (smaller fuel names enough more))
