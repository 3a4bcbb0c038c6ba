-- ===== src/Srv/Tree/Examples.antt =====
-- Runs on a small tree of files: a root with the directory "a" and the file "b".
use chan.Prelude.{
  zero, suc, ◌/◌, ◌%◌, ◌^◌, ◌≡◌, ◌≢◌, refl, arith, false, Option, none, some, [], ◌∷◌,
}
use chan.Wire.Types.{zero_dir}
use chan.Prelude.Run.{done}
use chan.Srv.Handlers.Session.{bytes_eq}
use chan.Srv.Tree.{
  Account, FilePtr, File, already_exists, Site, child_named, find, add, remove_file, unlink_file,
  rename, check_perm, in_group, is_owner,
}
use chan.Srv.Tree.Siblings.{IsChildren, first_named, find-first_named}
use chan.Srv.Tree.Add.{add-exists, add-IsChildren}
use chan.Srv.Tree.Shrink.{remove_file-IsChildren}
use chan.Srv.Tree.Perms.{has_bits, check_perm-has_bits}

abbrev pub plain : File
plain = record {
  dir = zero_dir;
  is_removed = false;
  parent = some 0;
  next = none;
  prev = none;
  cfirst = none;
  clast = none;
  ops = 0;
}

abbrev root_file : File
root_file = record plain { cfirst = some 1; clast = some 2 }

abbrev pub file_a : File
file_a = record plain {
  dir = record zero_dir { name = b'a' ∷ []; mode = 0x80000000; uid = b'u' ∷ [] };
  next = some 2;
}

abbrev pub file_b : File
file_b = record plain { dir = record zero_dir { name = b'b' ∷ []; mode = 0x1a4 }; prev = some 1 }

abbrev pub sample_files : FilePtr → Option File
sample_files zero = some root_file
sample_files (suc zero) = some file_a
sample_files (suc (suc zero)) = some file_b
sample_files (suc (suc (suc zero))) = some plain
sample_files (suc (suc (suc (suc n)))) = none

abbrev pub sample : Site
sample = record {
  files = sample_files;
  qnext = 4;
  ffids = λ p. none;
  omodes = λ p. 0;
  replies = [];
}

pub root-IsChildren : IsChildren sample_files 0 (1 ∷ 2 ∷ [])
root-IsChildren =
    (root_file, refl, (refl, file_a, refl, refl, (refl, file_b, refl, refl, (refl, refl))))

pub a-IsChildren : IsChildren sample_files 1 []
a-IsChildren = (file_a, refl, (refl, refl))

ne_10 : suc zero ≢ zero
ne_10 e = cc

ne_20 : suc (suc zero) ≢ zero
ne_20 e = cc

ne_30 : suc (suc (suc zero)) ≢ zero
ne_30 e = cc

ne_13 : suc zero ≢ suc (suc (suc zero))
ne_13 e = omega arith

ne_23 : suc (suc zero) ≢ suc (suc (suc zero))
ne_23 e = omega arith

ne_12 : suc zero ≢ suc (suc zero)
ne_12 e = omega arith

find-first_named_example :
    find 3 0 (b'b' ∷ []) sample ≡ done (first_named sample_files (b'b' ∷ []) (1 ∷ 2 ∷ []), sample)
find-first_named_example =
    find-first_named 3 0 (b'b' ∷ []) (1 ∷ 2 ∷ []) sample root-IsChildren (omega arith)

fresh : first_named sample_files (b'c' ∷ []) (1 ∷ 2 ∷ []) ≡ none
unfolding bytes_eq
fresh = refl

taken : first_named sample_files (b'b' ∷ []) (1 ∷ 2 ∷ []) ≡ some 2
unfolding bytes_eq
taken = refl

add-IsChildren_example :
    (s' : Site) × (add 3 3 (some 0) (b'c' ∷ []) none none 0x1a4 7 100 sample ≡ done (none, s'))
    × IsChildren s'.files 0 (1 ∷ 2 ∷ 3 ∷ [])
add-IsChildren_example =
    add-IsChildren sample 3 0 3 plain (b'c' ∷ []) none none 0x1a4 7 100 (1 ∷ 2 ∷ []) root-IsChildren
      refl ne_30 ((ne_13, ne_10), ((ne_23, ne_20), tt)) (omega arith) ((ne_12, tt), (tt, tt)) fresh

add-exists_example :
    (s' : Site) × (add 3 3 (some 0) (b'b' ∷ []) none none 0x1a4 7 100 sample
      ≡ done (some already_exists, s'))
    × IsChildren s'.files 0 (1 ∷ 2 ∷ [])
add-exists_example =
    add-exists sample 3 0 3 plain (b'b' ∷ []) none none 0x1a4 7 100 (1 ∷ 2 ∷ []) root-IsChildren
      refl ne_30 ((ne_13, ne_10), ((ne_23, ne_20), tt)) (omega arith) 2 taken

-- The user "u", who is in no group, and a mode of 0644.
abbrev user_u : Account
user_u = record { name = b'u' ∷ []; id = 5; groups = [] }

check_perm-has_bits_example :
    check_perm file_b.dir (some user_u) 4
    ≡ has_bits
        (is_owner file_b.dir user_u)
        (in_group file_b.dir [])
        (0x1a4 % 8)
        (0x1a4 / 2 ^ 6 % 8)
        (0x1a4 / 2 ^ 3 % 8)
        (4 % 8)
check_perm-has_bits_example = check_perm-has_bits file_b.dir user_u 4

-- A file that is renamed to the name that it has.
same_name : (s' : Site) × (rename 3 2 (b'b' ∷ []) sample ≡ done (some already_exists, s'))
unfolding rename child_named bytes_eq
same_name = (sample, refl)

-- The first of two children is removed.
removed_first :
    (s' : Site) × (remove_file 1 sample ≡ done (tt, s')) × IsChildren s'.files 0 (2 ∷ [])
unfolding remove_file unlink_file
removed_first = (_, refl, (_, refl, (refl, _, refl, refl, (refl, refl))))

-- The file "b", the second of two children, is removed.
remove_file-IsChildren_example :
    (s' : Site) × (remove_file 2 sample ≡ done (tt, s')) × IsChildren s'.files 0 (1 ∷ [])
remove_file-IsChildren_example =
    remove_file-IsChildren sample 0 2 file_b (1 ∷ []) [] root-IsChildren ((ne_12, tt), (tt, tt))
      (ne_10, (ne_20, tt)) refl refl refl
