-- ===== src/Srv/Fsrv/Examples.antt =====
-- Runs of the file server's methods on the small tree of Srv/Tree/Examples.
use chan.Prelude.{ℕ, zero, suc, ◌≡◌, refl, arith, true, false, Option, none, some, [], ◌∷◌}
use chan.Wire.Types.{Fcall, zero_fcall}
use chan.Prelude.Run.{done, update}
use chan.Srv.Handlers.Session.{bytes_eq}
use chan.Srv.Tree.{Account, FFid, Site, refused, ropen, rwalk, op, check_perm, in_group, dm_exec}
use chan.Srv.Tree.Siblings.{first_named}
use chan.Wire.Pack.{zeros}
use chan.Srv.Tree.Examples.{sample_files, sample, root-IsChildren, a-IsChildren, file_a, file_b}
use chan.Srv.Fsrv.{Methods, Request, fails, openmode, mode2perm, walk, open_file}
use chan.Srv.Fsrv.Walks.{walk_user, walk_partial}
use chan.Srv.Fsrv.Opens.{open_file_fails}

-- Files with no methods of their own but an Open that fails.
abbrev failing : Methods
failing = record {
  stat = λ o. none;
  wstat = λ o. none;
  read = λ o. none;
  write = λ o. none;
  create = λ o. none;
  remove = λ o. none;
  open_op = λ o. some (λ p mode s. done (fails 9, s));
  clunk = λ o. none;
  destroy = λ o. none;
}

abbrev at_root : FFid
at_root = record { file = some 0; dirs = [] }

abbrev at_b : FFid
at_b = record { file = some 2; dirs = [] }

abbrev ffids : ℕ → Option FFid
ffids zero = none
ffids (suc zero) = some at_root
ffids (suc (suc zero)) = some at_b
ffids (suc (suc (suc n))) = none

abbrev opened : Site
opened = record sample { ffids = ffids }

-- A walk of fid 1 onto itself, by "a" and "b".
abbrev walk_request : Request
walk_request = record {
  fid = 1;
  newfid = 1;
  user = none;
  tc = record zero_fcall { wname = (b'a' ∷ []) ∷ (b'b' ∷ []) ∷ [] };
  rc = zero_fcall;
  dotu = false;
}

abbrev somebody : Option Account
somebody = some (record { name = b'u' ∷ []; id = 5; groups = [] })

walk_user_example : walk 3 (record walk_request { user = somebody }) ≡ walk 3 walk_request
walk_user_example = walk_user 3 walk_request somebody

a_plain : bytes_eq (b'a' ∷ []) (b'.' ∷ b'.' ∷ []) ≡ false
unfolding bytes_eq
a_plain = refl

b_plain : bytes_eq (b'b' ∷ []) (b'.' ∷ b'.' ∷ []) ≡ false
unfolding bytes_eq
b_plain = refl

found_a : first_named sample_files (b'a' ∷ []) (1 ∷ 2 ∷ []) ≡ some 1
unfolding bytes_eq
found_a = refl

walk_partial_example :
    walk 3 walk_request opened
    ≡ done (
      tt,
      record opened {
        ffids = update ffids 1 (some (record at_root { file = some 1 }));
        replies = rwalk (file_a.dir.qid ∷ []) ∷ [];
      },
    )
walk_partial_example =
    walk_partial 3 walk_request opened at_root 0 1 (b'a' ∷ []) (b'b' ∷ []) [] []
      (file_a.dir.qid ∷ []) refl refl refl refl
      (
        1 ∷ 2 ∷ [],
        1,
        file_a,
        [],
        root-IsChildren,
        omega arith,
        a_plain,
        found_a,
        refl,
        refl,
        (refl, refl),
      )
      ([], a-IsChildren, omega arith, b_plain, refl)

-- Nobody may search the directory "a", which has no permission bits.
not_searchable : check_perm file_a.dir somebody dm_exec ≡ false
unfolding check_perm in_group bytes_eq
not_searchable = refl

abbrev open_request : Request
open_request = record walk_request { fid = 2; user = somebody; tc = zero_fcall }

readable : check_perm file_b.dir somebody (mode2perm 0) ≡ true
unfolding check_perm in_group bytes_eq mode2perm
readable = refl

read_mode : openmode 0 ≡ some 0
unfolding openmode
read_mode = refl

open_file_fails_example :
    (s' : Site) × (open_file failing open_request opened ≡ done (tt, s'))
    × (s'.replies ≡ refused (op 9) ∷ ropen file_b.dir.qid 0 ∷ [])
open_file_fails_example =
    open_file_fails failing open_request opened at_b 2 file_b 0 9 refl refl refl read_mode readable
      refl

-- A response with room for one entry of 51 bytes and for one byte more.
abbrev room_for_one : Fcall
room_for_one = record zero_fcall { dat = zeros 52 }
