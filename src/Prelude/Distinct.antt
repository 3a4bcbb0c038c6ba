-- ===== src/Prelude/Distinct.antt =====
-- Lists of distinct numbers, and the tests of equal pointers.
use chan.Prelude.{
  ℕ, ◌==◌, ◌≡◌, ◌≢◌, sym, ◌∙◌, ◌⊎◌, inl, inr, arith, true, false, Bool-cases, if◌then◌else◌, ◌+◌,
  List, [], ◌∷◌, ◌++◌, All,
}
use mathlib.Core.Path.{subst}

-- No cell stands twice in a list.
abbrev pub IsDistinct : List ℕ → Type 0
IsDistinct [] = Unit {0}
IsDistinct (c ∷ cs) = All (λ x. c ≢ x) cs × IsDistinct cs

abbrev pub last_of : ℕ → List ℕ → ℕ
last_of c [] = c
last_of c (d ∷ cs) = last_of d cs

pub last-All : (P : ℕ → Type 0) (c : ℕ) (cs : List ℕ) → All P (c ∷ cs) → P (last_of c cs)
last-All P c [] (h, _) = h
last-All P c (d ∷ cs) (_, hs) = last-All P d cs hs

pub All-map : (P Q : ℕ → Type 0) → ((x : ℕ) → P x → Q x) → (cs : List ℕ) → All P cs → All Q cs
All-map P Q g [] h = tt
All-map P Q g (c ∷ cs) (h, hs) = (g c h, All-map P Q g cs hs)

pub All-and : (P Q : ℕ → Type 0) (cs : List ℕ) → All P cs → All Q cs → All (λ c. P c × Q c) cs
All-and P Q [] h k = tt
All-and P Q (c ∷ cs) (h, hs) (k, ks) = ((h, k), All-and P Q cs hs ks)

pub append-All : (P : ℕ → Type 0) (xs ys : List ℕ) → All P (xs ++ ys) → All P xs × All P ys
append-All P [] ys h = (tt, h)
append-All P (x ∷ xs) ys (h, hs) = let (hx, hy) = append-All P xs ys hs in ((h, hx), hy)

pub All-append : (P : ℕ → Type 0) (xs ys : List ℕ) → All P xs → All P ys → All P (xs ++ ys)
All-append P [] ys h k = k
All-append P (x ∷ xs) ys (h, hs) k = (h, All-append P xs ys hs k)

-- The two parts of a list of distinct cells have no cell in common.
abbrev pub IsApart : List ℕ → List ℕ → Type 0
IsApart xs ys = All (λ x. All (λ y. x ≢ y) ys) xs

apart_one :
    (x : ℕ) (ys : List ℕ) (xs : List ℕ)
    → All (λ y. x ≢ y) ys
    → All (λ y. All (λ z. z ≢ y) xs) ys
    → All (λ y. All (λ z. z ≢ y) (x ∷ xs)) ys
apart_one x [] xs h k = tt
apart_one x (y ∷ ys) xs (h, hs) (k, ks) = ((h, k), apart_one x ys xs hs ks)

pub IsApart-swap : (xs ys : List ℕ) → IsApart xs ys → All (λ y. All (λ x. x ≢ y) xs) ys
IsApart-swap [] [] h = tt
IsApart-swap [] (y ∷ ys) h = (tt, IsApart-swap [] ys tt)
IsApart-swap (x ∷ xs) ys (h, hs) = apart_one x ys xs h (IsApart-swap xs ys hs)

pub append-IsDistinct :
    (xs ys : List ℕ) → IsDistinct (xs ++ ys) → IsDistinct xs × (IsDistinct ys × IsApart xs ys)
append-IsDistinct [] ys h = (tt, (h, tt))
append-IsDistinct (x ∷ xs) ys (h, hs) =
    let (own, others) = append-All (λ y. x ≢ y) xs ys h in
    let (dx, (dy, apart)) = append-IsDistinct xs ys hs in ((own, dx), (dy, (others, apart)))

pub IsDistinct-append :
    (xs ys : List ℕ) → IsDistinct xs → IsDistinct ys → IsApart xs ys → IsDistinct (xs ++ ys)
IsDistinct-append [] ys dx dy apart = dy
IsDistinct-append (x ∷ xs) ys (own, dx) dy (others, apart) =
    (All-append (λ y. x ≢ y) xs ys own others, IsDistinct-append xs ys dx dy apart)

pub eq_same : (a : ℕ) → a == a ≡ true
eq_same a = ground arith

pub eq_other : (a b : ℕ) → a ≢ b → a == b ≡ false
eq_other a b h = ground arith

pub same-eq : (a b : ℕ) → a == b ≡ true → a ≡ b
same-eq a b h = grind arith

pub eq_cases : (a b : ℕ) → ((a == b ≡ true) × (a ≡ b)) ⊎ ((a == b ≡ false) × (a ≢ b))
eq_cases a b = elim (Bool-cases (a == b)) [
  | inl hit ↦ inl (hit, same-eq a b hit)
  | inr other ↦ inr (other, λ e. true_false (sym (eq_same b) ∙ subst (λ x. x == b ≡ false) e other))
]
  where
    true_false : ¬ (true ≡ false)
    true_false e = cc

-- How often a number stands in a list.
abbrev pub count : ℕ → List ℕ → ℕ
count x [] = 0
count x (y ∷ ys) = (if x == y then 1 else 0) + count x ys

pub count-append : (x : ℕ) (ys zs : List ℕ) → count x (ys ++ zs) ≡ count x ys + count x zs
count-append x [] zs = omega arith
count-append x (y ∷ ys) zs = rw (count-append x ys zs) omega arith

pub count-middle :
    (x y : ℕ) (xs ys : List ℕ) → count x (xs ++ y ∷ ys) ≡ count x (y ∷ []) + count x (xs ++ ys)
count-middle x y xs ys = rw (count-append x xs (y ∷ ys), count-append x xs ys) omega arith
