-- ===== src/Chan9/Names.antt =====
-- Path names of p/chan9/nselem.go: ParseName, String and PathJoin.
-- A string is the list of its bytes. ParseName ranges over the string's runes: those that it looks for
-- are single bytes, and no byte of a longer rune, nor a byte that begins no rune, equals one of them.
mod Examples
pub mod Split
pub mod Clean
pub mod Join
use chan.Prelude.{
  ℕ, zero, suc, ◌+◌, ◌-◌, ◌==◌, Bool, true, false, not, ◌&&◌, ◌||◌, List, [], ◌∷◌, ◌++◌, ltb,
  if◌then◌else◌, length, take, drop,
}
use chan.Wire.Types.{Bytes}

abbrev pub slash : ℕ
slash = b'/'

abbrev pub hash : ℕ
hash = b'#'

abbrev pub dot : ℕ
dot = b'.'

abbrev pub dotdot : Bytes
dotdot = b'.' ∷ b'.' ∷ []

pub record Elemlist : Type 0 where
  pub elems : List Bytes
  pub ref : ℕ
  pub mustbedir : Bool

-- `s == ".."`
abbrev pub is_dotdot : Bytes → Bool
is_dotdot (a ∷ b ∷ []) = a == dot && b == dot
is_dotdot s = false

-- `e.Elems[l-1]` is "..", and `e.Elems[:l-1]`
unfoldable pub ends_up : List Bytes → Bool
ends_up [] = false
ends_up (e ∷ []) = is_dotdot e
ends_up (e ∷ f ∷ es) = ends_up (f ∷ es)

unfoldable pub but_last : List Bytes → List Bytes
but_last [] = []
but_last (e ∷ []) = []
but_last (e ∷ f ∷ es) = e ∷ but_last (f ∷ es)

-- The closure addelem, with e.Ref.
unfoldable pub add_elem : ℕ → List Bytes → Bytes → List Bytes
unfolding ends_up but_last
add_elem ref [] s = if is_dotdot s && ref == slash then [] else s ∷ []
add_elem ref (e ∷ es) s =
    if is_dotdot s && not (ends_up (e ∷ es)) then but_last (e ∷ es) else (e ∷ es) ++ s ∷ []

-- The loop's state: e.Elems, e.Mustbedir, and `name[n:i]`, which is of use where not Mustbedir.
pub record Scan : Type 0 where
  pub elems : List Bytes
  pub mustbedir : Bool
  pub elem : Bytes

-- `len(name) > i+1 && name[i+1] != '/'`
abbrev pub goes_on : Bytes → Bool
goes_on [] = false
goes_on (d ∷ rest) = not (d == slash)

unfoldable pub step : ℕ → Scan → ℕ → Bytes → Scan
unfolding add_elem
step ref s c rest =
    if s.mustbedir
    then if not (c == slash) && (not (c == dot) || goes_on rest)
      then record s { mustbedir = false; elem = c ∷ [] }
      else s
    else if c == slash
    then record s { mustbedir = true; elems = add_elem ref s.elems s.elem }
    else record s { elem = s.elem ++ c ∷ [] }

unfoldable pub scan : ℕ → Scan → Bytes → Scan
unfolding step
scan ref s [] = s
scan ref s (c ∷ rest) = scan ref (step ref s c rest) rest

-- Behind the loop.
unfoldable pub finish : ℕ → Scan → Elemlist
unfolding add_elem
finish ref s =
    if s.mustbedir
    then record { elems = s.elems; ref = ref; mustbedir = true }
    else record { elems = add_elem ref s.elems s.elem; ref = ref; mustbedir = is_dotdot s.elem }

abbrev pub start : Scan
start = record { elems = []; mustbedir = true; elem = [] }

-- The switch on the first rune.
abbrev pub ref_of : Bytes → ℕ
ref_of [] = dot
ref_of (c ∷ name) = if c == slash then slash else if c == hash then hash else dot

abbrev pub behind_ref : Bytes → Bytes
behind_ref [] = []
behind_ref (c ∷ name) = if c == slash || c == hash then name else c ∷ name

unfoldable pub parse_name : Bytes → Elemlist
unfolding scan finish
parse_name name = let ref = ref_of name in finish ref (scan ref start (behind_ref name))

-- strings.Join(e.Elems, "/")
unfoldable pub join : List Bytes → Bytes
join [] = []
join (e ∷ []) = e
join (e ∷ f ∷ es) = e ++ slash ∷ join (f ∷ es)

unfoldable pub string : Elemlist → Bytes
unfolding join
string e =
    (if e.ref == slash then slash ∷ [] else if e.ref == hash then hash ∷ [] else [])
    ++ (join e.elems ++ (if e.mustbedir then slash ∷ [] else []))

-- The number of ".." elements that begin a list.
unfoldable pub count_up : List Bytes → ℕ
count_up [] = 0
count_up (e ∷ es) = let n = count_up es in if is_dotdot e then suc n else 0

-- Slices of the two lists of elements and of those of file ids; subtraction stops at 0, as the
-- tests for bad input have it.
abbrev pub joined : {A : Type 0} → ℕ → List A → List A → List A
joined n from add = take (length from - n) from ++ drop n add

unfoldable pub path_join :
    {I : Type 0} → List Bytes → List Bytes → List I → List I → List Bytes × List I
unfolding count_up
path_join from add pfrom padd =
    let ndotdot = count_up add in
    let n = if ltb (length padd) ndotdot then length padd else ndotdot in
    (joined ndotdot from add, joined n pfrom padd)
