-- ===== src/Chan9/Names/Join.antt =====
-- PathJoin of a path without ".." and one that is walked from there.
use chan.Prelude.{
  ℕ, zero, suc, ◌-◌, ◌≤◌, true, false, List, [], ◌∷◌, ◌++◌, append-nil, append_assoc, All, ◌≡◌,
  refl, sym, ap, ◌∙◌, arith, length, take, drop, length-append, drop-append, drop-nil,
}
use chan.Wire.Types.{Bytes}
use chan.Chan9.Names.{slash, is_dotdot, count_up, joined, path_join}
use chan.Chan9.Names.Split.{is_blank, visit, visit_all, reverse}
use chan.Chan9.Names.Clean.{IsName, IsUp}

length-reverse : (ts : List Bytes) → length (reverse ts) ≡ length ts
length-reverse [] = refl
length-reverse (t ∷ ts) = omega (arith, length-append (reverse ts) (t ∷ []), length-reverse ts)

take_behind : (k : ℕ) (xs ys : List Bytes) → k ≤ length xs → take k (xs ++ ys) ≡ take k xs
take_behind zero xs ys h = refl
take_behind (suc k) [] ys h = absurd (omega arith)
take_behind (suc k) (x ∷ xs) ys h = ap (λ l. x ∷ l) (take_behind k xs ys (omega arith))

take_whole : (k : ℕ) (xs : List Bytes) → length xs ≤ k → take k xs ≡ xs
take_whole zero [] h = refl
take_whole zero (x ∷ xs) h = absurd (omega arith)
take_whole (suc k) [] h = refl
take_whole (suc k) (x ∷ xs) h = ap (λ l. x ∷ l) (take_whole k xs (omega arith))

-- Without the last `k` elements.
take-reverse :
    (k : ℕ) (ts : List Bytes) → take (length (reverse ts) - k) (reverse ts) ≡ reverse (drop k ts)
take-reverse zero ts = take_whole (length (reverse ts) - 0) (reverse ts) (omega arith)
take-reverse (suc k) [] = take_whole (0 - suc k) [] (omega arith)
take-reverse (suc k) (t ∷ ts) =
    let same : length (reverse ts ++ t ∷ []) - suc k ≡ length (reverse ts) - k =
      omega (arith, length-append (reverse ts) (t ∷ [])) in
    ap (λ n. take n (reverse ts ++ t ∷ [])) same
    ∙ take_behind (length (reverse ts) - k) (reverse ts) (t ∷ []) (omega arith)
    ∙ take-reverse k ts

-- Names are put on the stack, and each ".." takes one off.
visit_all-names :
    (ts names : List Bytes)
    → All IsName names
    → reverse (visit_all slash ts names) ≡ reverse ts ++ names
unfolding visit_all visit
visit_all-names ts [] h = sym (append-nil (reverse ts))
visit_all-names ts (s ∷ names) ((whole, some, name), h) =
    rw (some, name) (visit_all-names (s ∷ ts) names h) ∙ append_assoc (reverse ts) (s ∷ []) names

dotdot_some : (s : Bytes) → is_dotdot s ≡ true → is_blank s ≡ false
dotdot_some [] h = absurd (ground arith)
dotdot_some (a ∷ []) h = absurd (ground arith)
dotdot_some (a ∷ b ∷ s) h = refl

visit_up_root : (u : Bytes) → is_dotdot u ≡ true → visit slash [] u ≡ []
unfolding visit
visit_up_root u h = rw (dotdot_some u h, h) refl

visit_up :
    (t : Bytes) (ts : List Bytes) (u : Bytes)
    → is_dotdot t ≡ false
    → is_dotdot u ≡ true
    → visit slash (t ∷ ts) u ≡ ts
unfolding visit
visit_up t ts u name h = rw (dotdot_some u h, h, name) refl

visit_all-ups :
    (ts ups names : List Bytes)
    → All IsName ts
    → All IsUp ups
    → visit_all slash ts (ups ++ names) ≡ visit_all slash (drop (length ups) ts) names
unfolding visit_all
visit_all-ups ts [] names ht hu = refl
visit_all-ups [] (u ∷ ups) names ht (h, hu) =
    ap (λ l. visit_all slash l (ups ++ names)) (visit_up_root u h)
    ∙ visit_all-ups [] ups names tt hu
    ∙ ap (λ l. visit_all slash l names) (drop-nil (length ups))
visit_all-ups (t ∷ ts) (u ∷ ups) names (name, ht) (h, hu) =
    ap (λ l. visit_all slash l (ups ++ names)) (visit_up t ts u name.2 h)
    ∙ visit_all-ups ts ups names ht hu

count_up-ups :
    (ups names : List Bytes)
    → All IsUp ups
    → All IsName names
    → count_up (ups ++ names) ≡ length ups
unfolding count_up
count_up-ups [] [] hu hn = refl
count_up-ups [] (s ∷ names) hu (h, hn) = rw h.2 refl
count_up-ups (u ∷ ups) names (h, hu) hn = rw h (ap suc (count_up-ups ups names hu hn))

-- PathJoin of a path of names, given as its stack, and of a path that begins with some ".." and goes on
-- with names, is where a walk from the first along the second ends: each ".." takes off the last
-- element, or does nothing at the root, and each name is put behind.
pub path_join-visit_all :
    {I : Type 0} (ts ups names : List Bytes) (pfrom padd : List I)
    → All IsName ts
    → All IsUp ups
    → All IsName names
    → (path_join (reverse ts) (ups ++ names) pfrom padd).0
      ≡ reverse (visit_all slash ts (ups ++ names))
unfolding path_join
path_join-visit_all ts ups names pfrom padd ht hu hn =
    ap (λ k. joined k (reverse ts) (ups ++ names)) (count_up-ups ups names hu hn)
    ∙ ap (λ l. take (length (reverse ts) - length ups) (reverse ts) ++ l) (drop-append ups names)
    ∙ ap (λ l. l ++ names) (take-reverse (length ups) ts)
    ∙ sym (visit_all-names (drop (length ups) ts) names hn)
    ∙ ap reverse (sym (visit_all-ups ts ups names ht hu))
