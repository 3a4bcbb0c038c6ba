-- ===== src/Clnt/Pool.antt =====
-- The pool of ids of p/clnt/pool.go and p/chan9/pool.go: one bit for each id, in a bitmap that grows.
-- A caller that finds no free id waits on `nchan`; `need` counts those that wait.
pub mod Bits
pub mod Ids
pub mod Get
pub mod Return
mod Examples
use chan.Prelude.{
  ℕ, zero, suc, ◌+◌, ◌-◌, ◌*◌, ◌/◌, ◌%◌, ◌^◌, ◌==◌, Bool, List, [], ◌∷◌, ltb, leb, bit_and, bit_or,
  if◌then◌else◌, length,
}
use chan.Wire.Types.{Bytes, nofid}
use chan.Wire.Ints.{copy}
use chan.Wire.Pack.{zeros}

abbrev pub m2id : List ℕ
m2id =
    0 ∷ 1 ∷ 0 ∷ 2 ∷ 0 ∷ 1 ∷ 0 ∷ 3 ∷ 0 ∷ 1 ∷ 0 ∷ 2 ∷ 0 ∷ 1 ∷ 0 ∷ 4 ∷ 0 ∷ 1 ∷ 0 ∷ 2 ∷ 0 ∷ 1 ∷ 0 ∷ 3
    ∷ 0 ∷ 1 ∷ 0 ∷ 2 ∷ 0 ∷ 1 ∷ 0 ∷ 5 ∷ 0 ∷ 1 ∷ 0 ∷ 2 ∷ 0 ∷ 1 ∷ 0 ∷ 3 ∷ 0 ∷ 1 ∷ 0 ∷ 2 ∷ 0 ∷ 1 ∷ 0 ∷ 4
    ∷ 0 ∷ 1 ∷ 0 ∷ 2 ∷ 0 ∷ 1 ∷ 0 ∷ 3 ∷ 0 ∷ 1 ∷ 0 ∷ 2 ∷ 0 ∷ 1 ∷ 0 ∷ 6 ∷ 0 ∷ 1 ∷ 0 ∷ 2 ∷ 0 ∷ 1 ∷ 0 ∷ 3
    ∷ 0 ∷ 1 ∷ 0 ∷ 2 ∷ 0 ∷ 1 ∷ 0 ∷ 4 ∷ 0 ∷ 1 ∷ 0 ∷ 2 ∷ 0 ∷ 1 ∷ 0 ∷ 3 ∷ 0 ∷ 1 ∷ 0 ∷ 2 ∷ 0 ∷ 1 ∷ 0 ∷ 5
    ∷ 0 ∷ 1 ∷ 0 ∷ 2 ∷ 0 ∷ 1 ∷ 0 ∷ 3 ∷ 0 ∷ 1 ∷ 0 ∷ 2 ∷ 0 ∷ 1 ∷ 0 ∷ 4 ∷ 0 ∷ 1 ∷ 0 ∷ 2 ∷ 0 ∷ 1 ∷ 0 ∷ 3
    ∷ 0 ∷ 1 ∷ 0 ∷ 2 ∷ 0 ∷ 1 ∷ 0 ∷ 7 ∷ 0 ∷ 1 ∷ 0 ∷ 2 ∷ 0 ∷ 1 ∷ 0 ∷ 3 ∷ 0 ∷ 1 ∷ 0 ∷ 2 ∷ 0 ∷ 1 ∷ 0 ∷ 4
    ∷ 0 ∷ 1 ∷ 0 ∷ 2 ∷ 0 ∷ 1 ∷ 0 ∷ 3 ∷ 0 ∷ 1 ∷ 0 ∷ 2 ∷ 0 ∷ 1 ∷ 0 ∷ 5 ∷ 0 ∷ 1 ∷ 0 ∷ 2 ∷ 0 ∷ 1 ∷ 0 ∷ 3
    ∷ 0 ∷ 1 ∷ 0 ∷ 2 ∷ 0 ∷ 1 ∷ 0 ∷ 4 ∷ 0 ∷ 1 ∷ 0 ∷ 2 ∷ 0 ∷ 1 ∷ 0 ∷ 3 ∷ 0 ∷ 1 ∷ 0 ∷ 2 ∷ 0 ∷ 1 ∷ 0 ∷ 6
    ∷ 0 ∷ 1 ∷ 0 ∷ 2 ∷ 0 ∷ 1 ∷ 0 ∷ 3 ∷ 0 ∷ 1 ∷ 0 ∷ 2 ∷ 0 ∷ 1 ∷ 0 ∷ 4 ∷ 0 ∷ 1 ∷ 0 ∷ 2 ∷ 0 ∷ 1 ∷ 0 ∷ 3
    ∷ 0 ∷ 1 ∷ 0 ∷ 2 ∷ 0 ∷ 1 ∷ 0 ∷ 5 ∷ 0 ∷ 1 ∷ 0 ∷ 2 ∷ 0 ∷ 1 ∷ 0 ∷ 3 ∷ 0 ∷ 1 ∷ 0 ∷ 2 ∷ 0 ∷ 1 ∷ 0 ∷ 4
    ∷ 0 ∷ 1 ∷ 0 ∷ 2 ∷ 0 ∷ 1 ∷ 0 ∷ 3 ∷ 0 ∷ 1 ∷ 0 ∷ 2 ∷ 0 ∷ 1 ∷ 0 ∷ 0 ∷ []

pub record Pool : Type 0 where
  pub need : ℕ
  pub maxid : ℕ
  pub imap : Bytes

abbrev pub new_pool : ℕ → Pool
new_pool maxid = record { need = 0; maxid = maxid; imap = [] }

-- What getId does: it returns an id, or waits for one.
pub data Got : Type 0 where
  gives : ℕ → Pool → Got
  waits : Pool → Got

-- The index of the first byte that is not 0xFF, or the length.
unfoldable pub first_free : Bytes → ℕ
first_free [] = 0
first_free (b ∷ bs) = let n = first_free bs in if b == 0xff then suc n else 0

-- `p.imap` with 32 bytes more, or all that `maxid` allows.
unfoldable pub grown : ℕ → Bytes → Bytes
unfolding copy
grown maxid imap =
    let m = (length imap + 32) % 2 ^ 32 in
    copy (zeros (if ltb maxid (m * 8 % 2 ^ 32) then maxid / 8 + 1 else m)) imap

-- `xs[n]`, for an index in range
unfoldable pub nth : List ℕ → ℕ → ℕ
nth [] n = 0
nth (x ∷ xs) zero = x
nth (x ∷ xs) (suc n) = nth xs n

unfoldable pub set_nth : List ℕ → ℕ → ℕ → List ℕ
set_nth [] n v = []
set_nth (x ∷ xs) zero v = v ∷ xs
set_nth (x ∷ xs) (suc n) v = x ∷ set_nth xs n v

unfoldable pub take_id : Pool → ℕ → Got
unfolding nth set_nth
take_id p n =
    if leb (length p.imap) n
    then waits (record p { need = p.need + 1 })
    else let b = nth p.imap n in
      let ret = nth m2id b in
      gives ((ret + n * 8) % 2 ^ 32) (record p { imap = set_nth p.imap n (bit_or b (2 ^ ret)) })

-- `if int(n) >= len(p.imap) { … }`
unfoldable pub ready : Pool → Pool
unfolding first_free grown
ready p =
    if leb (length p.imap) (first_free p.imap) then record p { imap = grown p.maxid p.imap } else p

unfoldable pub get_id : Pool → Got
unfolding ready take_id
get_id p = take_id (ready p) (first_free p.imap)

-- What putId does: the id goes to one that waits, or its bit is cleared, or the index is out of range.
pub data Put : Type 0 where
  handed : ℕ → Pool → Put
  freed : Pool → Put
  out_of_range : Put

unfoldable pub put_id : Pool → ℕ → Put
unfolding nth set_nth
put_id p id =
    if ltb 0 p.need
    then handed id (record p { need = p.need - 1 })
    else if leb (length p.imap) (id / 8)
    then out_of_range
    else freed (record p {
      imap = set_nth p.imap (id / 8) (bit_and (nth p.imap (id / 8)) (255 - 2 ^ (id % 8)));
    })

-- The putId of p/chan9, which takes no fid that was not opened.
unfoldable pub put_fid : Pool → ℕ → Put
unfolding put_id
put_fid p id = if id == nofid then freed p else put_id p id
