-- ===== src/Clnt/Pool/Return.antt =====
-- putId undoes getId.
use chan.Prelude.{
  ℕ, ◌+◌, ◌-◌, ◌/◌, ◌%◌, ◌^◌, ◌≤◌, ◌<◌, ◌==◌, ◌≡◌, ◌≢◌, ◌⊎◌, inl, inr, refl, sym, ◌∙◌, ap, arith,
  true, false, ◌&&◌, ◌||◌, not, leb, bit_and, length,
}
use mathlib.Core.Path.{subst}
use chan.Wire.Types.{Bytes}
use chan.Clnt.Pool.{nth, set_nth, Pool, gives, freed, get_id, put_id}
use chan.Prelude.Below.{bit}
use chan.Clnt.Pool.Bits.{bit-bit_and, bit_clear}
use chan.Clnt.Pool.Ids.{
  in_use, IsPool, nth_byte, set_nth_bytes, length-set_nth, eq_cases, eq_true, eq_false, clear_bit,
  nth_out,
}
use chan.Clnt.Pool.Get.{IsGot, get_id-IsGot}

used_inside : (xs : Bytes) (i : ℕ) → in_use xs i ≡ true → i / 8 < length xs
used_inside xs i h = elim (in_or_out (i / 8) (length xs)) [
  | inl inside ↦ inside
  | inr out ↦ absurd (clear (sym h ∙ ap (λ b. bit b (i % 8)) (nth_out xs (i / 8) out)))
]
  where
    in_or_out : (a b : ℕ) → (a < b) ⊎ (b ≤ a)
    in_or_out a b = omega arith

    clear : true ≢ bit 0 (i % 8)
    clear e = let x : true ≡ false = e ∙ bit_clear (i % 8) (omega arith) in cc

given_back :
    (xs : Bytes) (i j : ℕ)
    → in_use xs i ≡ false
    → (not (i == j) && ((i == j) || in_use xs j)) ≡ in_use xs j
given_back xs i j new = elim (eq_cases i j) [
  | inl e ↦ rw (eq_true i j e) (sym (ap (in_use xs) (sym e) ∙ new))
  | inr e ↦ rw (eq_false i j e) refl
]

-- putId of an id that getId returned, from a well-formed pool whose bitmap has fewer than 2^29 - 32 bytes
-- and where no caller waits, gives a well-formed pool back, in which just the ids are in use that were
-- before.
pub put_id-get_id :
    (p p' : Pool) (i : ℕ)
    → IsPool p
    → length p.imap + 32 < 2 ^ 29
    → p.need ≡ 0
    → get_id p ≡ gives i p'
    → (p'' : Pool) × (put_id p' i ≡ freed p'')
      × ((j : ℕ) → in_use p''.imap j ≡ in_use p.imap j)
      × IsPool p''
unfolding put_id
put_id-get_id p p' i ok small idle h =
    let (new, most, sets, need, max, (bytes, short)) =
      subst (IsGot p) h (get_id-IsGot p ok small) in
    let taken : in_use p'.imap i ≡ true =
      sets i ∙ ap (λ b. b || in_use p.imap i) (eq_true i i refl) in
    let inside = used_inside p'.imap i taken in
    let last =
      bit-bit_and (nth p'.imap (i / 8)) (i % 8) 0 (nth_byte p'.imap (i / 8) bytes) (omega arith)
        (omega arith) in
    (
      record p' {
        imap = set_nth p'.imap (i / 8) (bit_and (nth p'.imap (i / 8)) (255 - 2 ^ (i % 8)));
      },
      rw (need ∙ idle, leb_false (length p'.imap) (i / 8) inside),
      λ j.
          clear_bit p'.imap i j bytes inside
          ∙ ap (λ b. not (i == j) && b) (sets j)
          ∙ given_back p.imap i j new,
      (
        set_nth_bytes p'.imap (i / 8) (bit_and (nth p'.imap (i / 8)) (255 - 2 ^ (i % 8))) bytes
            last.1,
        rw (length-set_nth p'.imap (i / 8) (bit_and (nth p'.imap (i / 8)) (255 - 2 ^ (i % 8))))
            short,
      ),
    )
  where
    leb_false : (a b : ℕ) → b < a → leb a b ≡ false
    leb_false a b h = ground arith
