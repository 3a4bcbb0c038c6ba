-- ===== src/Clnt/Pool/Get.antt =====
-- getId: the id that it returns is new.
use chan.Prelude.{
  ℕ, zero, suc, ◌+◌, ◌*◌, ◌/◌, ◌%◌, ◌^◌, ◌≤◌, ◌<◌, ◌==◌, ◌≡◌, ◌≢◌, ◌⊎◌, inl, inr, refl, sym, ◌∙◌,
  ap, arith, true, false, ◌||◌, Bool-cases, [], ◌∷◌, All, ltb, leb, bit_or, if◌then◌else◌, length,
}
use chan.Wire.Types.{Bytes}
use chan.Wire.Ints.{copy}
use chan.Wire.Pack.{zeros}
use chan.Clnt.Pool.{m2id, nth, Pool, Got, gives, waits, first_free, grown, ready, take_id, get_id}
use chan.Prelude.Below.{bit}
use chan.Clnt.Pool.Bits.{bit-bit_or, m2id_lowest, bit_full}
use chan.Clnt.Pool.Ids.{
  in_use, IsByte, IsPool, nth_byte, set_nth_bytes, length-set_nth, set_bit, nth_out,
}

-- All bytes before the first with a clear bit are full, and that one is not.
first_free_le : (xs : Bytes) → first_free xs ≤ length xs
unfolding first_free
first_free_le [] = omega arith
first_free_le (x ∷ xs) = ground (arith, first_free_le xs)

first_free_before : (xs : Bytes) (m : ℕ) → m < first_free xs → nth xs m ≡ 255
unfolding first_free nth
first_free_before [] m h = absurd (omega arith)
first_free_before (x ∷ xs) zero h = ground arith
first_free_before (x ∷ xs) (suc m) h = first_free_before xs m (ground arith)

first_free_at : (xs : Bytes) → first_free xs < length xs → nth xs (first_free xs) ≢ 255
unfolding first_free nth
first_free_at [] h = absurd (omega arith)
first_free_at (x ∷ xs) h = elim (Bool-cases (x == 255)) [
  | inl full ↦ rw full (first_free_at xs (ground arith))
  | inr free ↦ rw free (λ e. ground arith)
]

-- What `copy` leaves of a bitmap in a longer one.
nth-copy : (k : ℕ) (xs : Bytes) (n : ℕ) → length xs ≤ k → nth (copy (zeros k) xs) n ≡ nth xs n
unfolding copy nth
nth-copy zero [] n h = refl
nth-copy zero (x ∷ xs) n h = absurd (omega arith)
nth-copy (suc k) [] zero h = refl
nth-copy (suc k) [] (suc n) h = nth-zeros k n
  where
    nth-zeros : (k n : ℕ) → nth (zeros k) n ≡ 0
    nth-zeros zero n = refl
    nth-zeros (suc k) zero = refl
    nth-zeros (suc k) (suc n) = nth-zeros k n
nth-copy (suc k) (x ∷ xs) zero h = refl
nth-copy (suc k) (x ∷ xs) (suc n) h = nth-copy k xs n (omega arith)

length-copy : (k : ℕ) (xs : Bytes) → length (copy (zeros k) xs) ≡ k
unfolding copy
length-copy zero xs = refl
length-copy (suc k) [] = ap suc (length_zeros k)
  where
    length_zeros : (k : ℕ) → length (zeros k) ≡ k
    length_zeros zero = refl
    length_zeros (suc k) = ap suc (length_zeros k)
length-copy (suc k) (x ∷ xs) = ap suc (length-copy k xs)

copy_bytes : (k : ℕ) (xs : Bytes) → All IsByte xs → All IsByte (copy (zeros k) xs)
unfolding copy
copy_bytes zero xs h = tt
copy_bytes (suc k) [] h = (omega arith, zeros_bytes k)
  where
    zeros_bytes : (k : ℕ) → All IsByte (zeros k)
    zeros_bytes zero = tt
    zeros_bytes (suc k) = (omega arith, zeros_bytes k)
copy_bytes (suc k) (x ∷ xs) h = (h.0, copy_bytes k xs h.1)

size_lem :
    (len maxid k : ℕ)
    → len ≤ maxid / 8 + 1
    → len + 32 < 2 ^ 29
    → k ≡ (
        if ltb maxid ((len + 32) % 2 ^ 32 * 8 % 2 ^ 32) then maxid / 8 + 1 else (len + 32) % 2 ^ 32)
    → (len ≤ k) × (k ≤ maxid / 8 + 1) × (k < 2 ^ 29) × ((len < k) ⊎ (k ≡ maxid / 8 + 1))
size_lem len maxid k short small e =
    let m : (len + 32) % 2 ^ 32 ≡ len + 32 = omega arith in
    let m8 : (len + 32) * 8 % 2 ^ 32 ≡ (len + 32) * 8 = omega arith in
    let e' : k ≡ (if ltb maxid ((len + 32) * 8) then maxid / 8 + 1 else len + 32) =
      e ∙ rw (m, m8) refl in
    cases_of e'
  where
    cases_of :
        k ≡ (if ltb maxid ((len + 32) * 8) then maxid / 8 + 1 else len + 32)
        → (len ≤ k) × (k ≤ maxid / 8 + 1) × (k < 2 ^ 29) × ((len < k) ⊎ (k ≡ maxid / 8 + 1))
    cases_of e' = (ground arith, ground arith, ground arith, ground arith)

grown_lem :
    (maxid : ℕ) (imap : Bytes)
    → length imap ≤ maxid / 8 + 1
    → length imap + 32 < 2 ^ 29
    → All IsByte imap
    → All IsByte (grown maxid imap)
      × (length (grown maxid imap) ≤ maxid / 8 + 1)
      × (length (grown maxid imap) < 2 ^ 29)
      × ((n : ℕ) → nth (grown maxid imap) n ≡ nth imap n)
      × ((length imap < length (grown maxid imap)) ⊎ (length (grown maxid imap) ≡ maxid / 8 + 1))
unfolding grown
grown_lem maxid imap short small bytes =
    let k =
      if ltb maxid ((length imap + 32) % 2 ^ 32 * 8 % 2 ^ 32)
      then maxid / 8 + 1
      else (length imap + 32) % 2 ^ 32 in
    let (low, high, under, more) = size_lem (length imap) maxid k short small refl in
    let size = length-copy k imap in
    (copy_bytes k imap bytes, rw size high, rw size under, λ n. nth-copy k imap n low, rw size more)

-- The bitmap that getId works on: the same ids are in use, and it has a byte to look at, unless it is
-- as long as `maxid` allows.
ready_lem :
    (p : Pool)
    → IsPool p
    → length p.imap + 32 < 2 ^ 29
    → IsPool (ready p)
      × ((ready p).maxid ≡ p.maxid)
      × ((ready p).need ≡ p.need)
      × (length (ready p).imap < 2 ^ 29)
      × ((n : ℕ) → nth (ready p).imap n ≡ nth p.imap n)
      × ((first_free p.imap < length (ready p).imap)
          ⊎ ((length (ready p).imap ≤ first_free p.imap) × (p.maxid / 8 + 1 ≤ first_free p.imap)))
unfolding ready
ready_lem p (bytes, short) small = elim (Bool-cases (leb (length p.imap) (first_free p.imap))) [
  | inl all ↦
      let (bytes', short', under, same, more) = grown_lem p.maxid p.imap short small bytes in
      rw all ((bytes', short'), refl, refl, under, same, ground (arith, more, first_free_le p.imap))
  | inr free ↦ rw free ((bytes, short), refl, refl, omega arith, λ n. refl, inl (ground arith))
]

-- What getId may do: an id that was not in use is in use from then on, and no other changes; it is at
-- most `maxid`, rounded up to the end of its byte; or, where all such ids are in use, the caller waits.
abbrev pub IsGot : Pool → Got → Type 0
IsGot p (gives i p') =
    (in_use p.imap i ≡ false)
    × (i / 8 ≤ p.maxid / 8)
    × ((j : ℕ) → in_use p'.imap j ≡ ((i == j) || in_use p.imap j))
    × (p'.need ≡ p.need)
    × (p'.maxid ≡ p.maxid)
    × IsPool p'
IsGot p (waits p') =
    ((j : ℕ) → j / 8 ≤ p.maxid / 8 → in_use p.imap j ≡ true)
    × ((j : ℕ) → in_use p'.imap j ≡ in_use p.imap j)
    × (p'.need ≡ p.need + 1)

-- The id that a byte with a clear bit gives.
take_id-IsGot :
    (p : Pool) (n : ℕ)
    → IsPool p
    → length p.imap < 2 ^ 29
    → n < length p.imap
    → nth p.imap n ≢ 255
    → IsGot p (take_id p n)
unfolding take_id
take_id-IsGot p n (bytes, short) small inside free =
    let b = nth p.imap n in
    let byte = nth_byte p.imap n bytes in
    let (low, clear, _) = m2id_lowest b 0 byte free (omega arith) in
    let r = nth m2id b in
    let i : (r + n * 8) % 2 ^ 32 ≡ r + n * 8 = omega arith in
    let (_, stays) = bit-bit_or b r 0 byte low (omega arith) in
    let q : (r + n * 8) / 8 ≡ n = omega arith in
    let m : (r + n * 8) % 8 ≡ r = omega arith in
    rw (leb_false (length p.imap) n inside, i)
      (
        rw (q, m) clear,
        omega arith,
        λ j. set_bit p.imap n r j bytes inside low,
        refl,
        refl,
        (
          set_nth_bytes p.imap n (bit_or b (2 ^ r)) bytes stays,
          rw (length-set_nth p.imap n (bit_or b (2 ^ r))) short,
        ),
      )
  where
    leb_false : (a b : ℕ) → b < a → leb a b ≡ false
    leb_false a b h = ground arith

all_full :
    (p : Pool) (j : ℕ)
    → p.maxid / 8 + 1 ≤ first_free p.imap
    → j / 8 ≤ p.maxid / 8
    → in_use p.imap j ≡ true
all_full p j full most =
    rw (first_free_before p.imap (j / 8) (omega arith)) (bit_full (j % 8) (omega arith))

-- The bitmap that getId works on has the same bits as the pool's.
IsGot-ready :
    (p p' : Pool) (g : Got)
    → ((n : ℕ) → nth p'.imap n ≡ nth p.imap n)
    → p'.maxid ≡ p.maxid
    → p'.need ≡ p.need
    → IsGot p' g
    → IsGot p g
IsGot-ready p p' (gives i p'') same max need (new, most, sets, e, e', ok) = (
  rw (← same (i / 8)) new,
  rw (← max) most,
  λ j. rw (← same (j / 8)) (sets j),
  e ∙ need,
  e' ∙ max,
  ok,
)
IsGot-ready p p' (waits p'') same max need (full, sets, e) = (
  λ j h. rw (← same (j / 8)) (full j (rw max h)),
  λ j. rw (← same (j / 8)) (sets j),
  rw (← need) e,
)

not_full : (xs : Bytes) → nth xs (first_free xs) ≢ 255
not_full xs = elim (in_or_out (first_free xs) (length xs)) [
  | inl inside ↦ first_free_at xs inside
  | inr out ↦ λ e. zero_not_full (sym (nth_out xs (first_free xs) out) ∙ e)
]
  where
    in_or_out : (a b : ℕ) → (a < b) ⊎ (b ≤ a)
    in_or_out a b = omega arith

    zero_not_full : zero ≢ 255
    zero_not_full e = omega arith

take_id_waits :
    (p : Pool) (n : ℕ) → length p.imap ≤ n → take_id p n ≡ waits (record p { need = p.need + 1 })
unfolding take_id
take_id_waits p n h = ground arith

-- getId of a pool whose bitmap is well formed and has fewer than 2^29 - 32 bytes: the id that it
-- returns was not in use and is in use from then on, no other id changes, the bitmap stays well formed,
-- and the id is at most `maxid` rounded up to the end of its byte; or all such ids are in use, and the
-- caller waits.
pub get_id-IsGot : (p : Pool) → IsPool p → length p.imap + 32 < 2 ^ 29 → IsGot p (get_id p)
unfolding get_id
get_id-IsGot p ok small =
    let (ok', max, need, under, same, more) = ready_lem p ok small in
    elim more [
      | inl some ↦ IsGot-ready p (ready p) (take_id (ready p) (first_free p.imap)) same max need (
          take_id-IsGot (ready p) (first_free p.imap) ok' under some
            (rw (same (first_free p.imap)) (not_full p.imap)))
      | inr (none, all) ↦ rw (take_id_waits (ready p) (first_free p.imap) none) (
        λ j h. all_full p j all h,
        λ j. ap (λ b. bit b (j % 8)) (same (j / 8)),
        ap (λ k. k + 1) need,
      )
    ]

-- Where all ids below `maxid` are in use, `maxid` itself is not and it ends a byte, getId returns
-- `maxid`; the pool is well formed and its bitmap has fewer than 2^29 - 32 bytes.
pub get_id_last :
    (p : Pool)
    → IsPool p
    → length p.imap + 32 < 2 ^ 29
    → p.maxid % 8 ≡ 7
    → ((j : ℕ) → j < p.maxid → in_use p.imap j ≡ true)
    → in_use p.imap p.maxid ≡ false
    → (p' : Pool) × (get_id p ≡ gives p.maxid p')
get_id_last p ok small last full free = last_of (get_id p) refl (get_id-IsGot p ok small)
  where
    true_not_false : true ≢ false
    true_not_false e = cc

    at_least : (i : ℕ) → in_use p.imap i ≡ false → p.maxid ≤ i
    at_least i new = elim (below_or i p.maxid) [
      | inl below ↦ absurd (true_not_false (sym (full i below) ∙ new))
      | inr above ↦ above
    ]
      where
        below_or : (a b : ℕ) → (a < b) ⊎ (b ≤ a)
        below_or a b = omega arith

    last_of : (g : Got) → get_id p ≡ g → IsGot p g → (p' : Pool) × (get_id p ≡ gives p.maxid p')
    last_of (gives i p') e (new, most, _, _, _, _) =
        let more = at_least i new in
        let same : i ≡ p.maxid = omega arith in (p', e ∙ ap (λ k. gives k p') same)
    last_of (waits p') e (all, _, _) =
        absurd (true_not_false (sym (all p.maxid (omega arith)) ∙ free))
