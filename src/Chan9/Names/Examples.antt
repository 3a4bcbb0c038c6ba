-- ===== src/Chan9/Names/Examples.antt =====
-- Runs of the functions of p/chan9/nselem.go, among them those of its tests.
use chan.Prelude.{ℕ, true, false, [], ◌∷◌, ◌≡◌, refl}
use chan.Wire.Types.{Bytes}
use chan.Chan9.Names.{
  slash, dot, dotdot, add_elem, ends_up, but_last, step, scan, finish, behind_ref, parse_name, join,
  string, count_up, path_join,
}
use chan.Chan9.Names.Split.{pieces, cleaned, parse_name-cleaned, reverse, visit_all}
use chan.Chan9.Names.Join.{path_join-visit_all}
use chan.Chan9.Names.Clean.{IsTidy, parse_name-IsTidy}

-- "/../test/./1/.."
abbrev rooted : Bytes
rooted = b'/' ∷ b'.' ∷ b'.' ∷ b'/' ∷ b't' ∷ b'/' ∷ b'.' ∷ b'/' ∷ b'1' ∷ b'/' ∷ b'.' ∷ b'.' ∷ []

rooted_run : parse_name rooted ≡ record { elems = (b't' ∷ []) ∷ []; ref = slash; mustbedir = true }
unfolding parse_name scan step finish add_elem ends_up but_last
rooted_run = refl

-- "../t/../../..."
abbrev free : Bytes
free =
    b'.' ∷ b'.' ∷ b'/' ∷ b't' ∷ b'/' ∷ b'.' ∷ b'.' ∷ b'/' ∷ b'.' ∷ b'.' ∷ b'/' ∷ b'.' ∷ b'.' ∷ b'.'
    ∷ []

free_run : parse_name free ≡ record {
  elems = dotdot ∷ dotdot ∷ (b'.' ∷ b'.' ∷ b'.' ∷ []) ∷ [];
  ref = dot;
  mustbedir = false;
}
unfolding parse_name scan step finish add_elem ends_up but_last
free_run = refl

-- The empty path is printed as the root.
empty_run : string (parse_name []) ≡ slash ∷ []
unfolding parse_name scan finish string join
empty_run = refl

join_run :
    path_join {I = ℕ}
      ((b'a' ∷ []) ∷ (b'h' ∷ []) ∷ (b'r' ∷ []) ∷ [])
      (dotdot ∷ dotdot ∷ (b'c' ∷ []) ∷ [])
      (1 ∷ 2 ∷ 2 ∷ [])
      (2 ∷ 1 ∷ 3 ∷ [])
    ≡ ((b'a' ∷ []) ∷ (b'c' ∷ []) ∷ [], 1 ∷ 3 ∷ [])
unfolding path_join count_up
join_run = refl

parse_name-cleaned_example : parse_name rooted ≡ cleaned slash true [] (pieces (behind_ref rooted))
parse_name-cleaned_example = parse_name-cleaned rooted

parse_name-IsTidy_example : IsTidy (parse_name free).ref (parse_name free).elems
parse_name-IsTidy_example = parse_name-IsTidy free

-- The path "a/h" and then "../c".
path_join-visit_all_example :
    (path_join {I = ℕ}
      (reverse ((b'h' ∷ []) ∷ (b'a' ∷ []) ∷ []))
      (dotdot ∷ (b'c' ∷ []) ∷ [])
      []
      []).0
    ≡ reverse (visit_all slash ((b'h' ∷ []) ∷ (b'a' ∷ []) ∷ []) (dotdot ∷ (b'c' ∷ []) ∷ []))
path_join-visit_all_example =
    path_join-visit_all ((b'h' ∷ []) ∷ (b'a' ∷ []) ∷ []) (dotdot ∷ []) ((b'c' ∷ []) ∷ []) [] []
      (((refl, tt), refl, refl), (((refl, tt), refl, refl), tt)) (refl, tt)
      (((refl, tt), refl, refl), tt)
