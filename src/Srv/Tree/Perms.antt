-- ===== src/Srv/Tree/Perms.antt =====
-- The permission check of a file, by its bits.
use chan.Prelude.{
  ℕ, ◌/◌, ◌%◌, ◌^◌, ◌<◌, ◌≡◌, refl, arith, Bool, true, false, not, ◌&&◌, ◌||◌, some, bit_or,
  if◌then◌else◌,
}
use chan.Prelude.Bits.{bit_and_low}
use chan.Prelude.Below.{bit, all_below, all_below_holds, same, same_sound}
use chan.Wire.Types.{Dir}
use chan.Srv.Tree.{Account, grants, is_owner, in_group, check_perm}

-- The bit `i` of what is wanted is not set, or it is granted to others, to the owner, who the user is,
-- or to the group, of which the user is.
abbrev pub has_bit : Bool → Bool → ℕ → ℕ → ℕ → ℕ → ℕ → Bool
has_bit own grp other user group want i =
    not (bit want i) || bit other i || (own && bit user i) || (grp && bit group i)

abbrev pub has_bits : Bool → Bool → ℕ → ℕ → ℕ → ℕ → Bool
has_bits own grp other user group want =
    has_bit own grp other user group want 0
    && has_bit own grp other user group want 1
    && has_bit own grp other user group want 2

-- The three tests of CheckPerm on three bits each.
abbrev three_tests : Bool → Bool → ℕ → ℕ → ℕ → ℕ → Bool
three_tests own grp other user group want =
    let with_user = if own then bit_or other user else other in
    let with_group = if grp then bit_or with_user group else with_user in
    if grants other want
    then true
    else if grants with_user want
    then true
    else grants with_group want

-- Both, for all numbers of three bits.
module _ (own grp : Bool) where
  abbrev agree_want : ℕ → ℕ → ℕ → ℕ → Bool
  agree_want other user group want =
      same (three_tests own grp other user group want) (has_bits own grp other user group want)

  abbrev agree_group : ℕ → ℕ → ℕ → Bool
  agree_group other user group = all_below 8 λ want. agree_want other user group want

  abbrev agree_user : ℕ → ℕ → Bool
  agree_user other user = all_below 8 λ group. agree_group other user group

  abbrev agree_other : ℕ → Bool
  agree_other other = all_below 8 λ user. agree_user other user

abbrev try_all : Bool → Bool → Bool
try_all own grp = all_below 8 λ other. agree_other own grp other

tried : (own grp : Bool) → try_all own grp ≡ true
tried true true = refl
tried true false = refl
tried false true = refl
tried false false = refl

tests-bits :
    (own grp : Bool) (other user group want : ℕ)
    → other < 8
    → user < 8
    → group < 8
    → want < 8
    → three_tests own grp other user group want ≡ has_bits own grp other user group want
tests-bits own grp other user group want ho hu hg hw =
    same_sound (three_tests own grp other user group want) (has_bits own grp other user group want)
      (all_below_holds 8 (agree_want own grp other user group) want
        (all_below_holds 8 (agree_group own grp other user) group
          (all_below_holds 8 (agree_user own grp other) user
            (all_below_holds 8 (agree_other own grp) other (tried own grp) ho) hu)
          hg)
        hw)

-- CheckPerm of a user grants just the permissions of which each is granted by the mode's three bits
-- for others, by those for the owner where the user is the owner, or by those for the group where the
-- user is in it.
pub check_perm-has_bits :
    (d : Dir) (u : Account) (perm : ℕ)
    → check_perm d (some u) perm
      ≡ has_bits
          (is_owner d u)
          (in_group d u.groups)
          (d.mode % 8)
          (d.mode / 2 ^ 6 % 8)
          (d.mode / 2 ^ 3 % 8)
          (perm % 8)
unfolding check_perm
check_perm-has_bits d u perm =
    rw
      (
        bit_and_low d.mode,
        bit_and_low (d.mode / 2 ^ 6),
        bit_and_low (d.mode / 2 ^ 3),
        bit_and_low perm,
      )
      (tests-bits (is_owner d u) (in_group d u.groups) (d.mode % 8) (d.mode / 2 ^ 6 % 8)
        (d.mode / 2 ^ 3 % 8) (perm % 8) (omega arith) (omega arith) (omega arith) (omega arith))
