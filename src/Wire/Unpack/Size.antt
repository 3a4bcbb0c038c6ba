-- ===== src/Wire/Unpack/Size.antt =====
-- How much of the buffer Unpack takes, and that it looks at nothing behind that.
use chan.Prelude.{
  ℕ, ◌+◌, ◌-◌, ◌≤◌, ◌≡◌, refl, ap, arith, Bool, none, some, [], ◌∷◌, ◌++◌, if◌then◌else◌, length,
  length-append, length-take, take, suc, zero,
}
use chan.Wire.Result.{ok, bind-Ran}
use chan.Wire.Types
use chan.Wire.Types.{Bytes, Fcall}
use chan.Wire.Ints.{gint8, gint16, gint32}
use chan.Wire.Unpack.{
  Part, min_fcsize, min_fcusize, at, unpack_body, used_up, unpack_header, unpack,
}

gint32_rest : (p rest : Bytes) (v : ℕ) → gint32 p ≡ ok (v, rest) → length p ≡ 4 + length rest
unfolding gint32
gint32_rest (a ∷ b ∷ c ∷ d ∷ p) rest v h = ground arith
gint32_rest (a ∷ b ∷ c ∷ []) rest v h = cc
gint32_rest (a ∷ b ∷ []) rest v h = cc
gint32_rest (a ∷ []) rest v h = cc
gint32_rest [] rest v h = cc

-- What a header that is accepted says of the buffer.
pub header_bounds :
    (buf : Bytes) (dotu : Bool) (fc : Fcall) (p : Bytes)
    → unpack_header buf dotu ≡ ok (fc, p)
    → (7 ≤ fc.size)
      × (fc.size ≤ length buf)
      × (length p + 7 ≡ fc.size)
      × (fc.pkt ≡ take fc.size buf)
      × (at (if dotu then min_fcsize else min_fcusize) (fc.type - Types.tversion) ≤ fc.size)
unfolding unpack_header gint32 gint8 gint16
header_bounds (a ∷ b ∷ c ∷ d ∷ t ∷ u ∷ v ∷ buf) dotu fc p h =
    ground (arith, length-take (fc.size - 7) buf)
header_bounds _ dotu fc p h = cc

pub take-append_le : (n : ℕ) (xs ys : Bytes) → n ≤ length xs → take n (xs ++ ys) ≡ take n xs
take-append_le zero xs ys h = refl
take-append_le (suc n) [] ys h = absurd (omega arith)
take-append_le (suc n) (x ∷ xs) ys h = ap (λ t. x ∷ t) (take-append_le n xs ys (omega arith))

used_up_size : (fcsz n : ℕ) (part : Part) (fc : Fcall) → used_up fcsz part ≡ ok (fc, n) → n ≡ fcsz
used_up_size fcsz n (fc', none) fc h = ground arith
used_up_size fcsz n (fc', some []) fc h = ground arith
used_up_size fcsz n (fc', some (b ∷ p)) fc h = cc

-- When Unpack returns a message, it took at least the seven bytes of a header and no more bytes than
-- the buffer has.
pub unpack_bounds :
    (buf : Bytes) (dotu : Bool) (fc : Fcall) (n : ℕ)
    → unpack buf dotu ≡ ok (fc, n)
    → (7 ≤ n) × (n ≤ length buf)
unfolding unpack
unpack_bounds buf dotu fc n h =
    let ((fc0, p), header, rest) = bind-Ran (unpack_header buf dotu) _ (fc, n) h in
    let (part, body, last) = bind-Ran (unpack_body fc0.type dotu fc0 p) _ (fc, n) rest in
    let (lower, upper, _, _, _) = header_bounds buf dotu fc0 p header in
    let e = used_up_size fc0.size n part fc last in omega (arith, e, lower, upper)

header-append :
    (buf more : Bytes) (dotu : Bool) (fc : Fcall) (p : Bytes)
    → unpack_header buf dotu ≡ ok (fc, p)
    → unpack_header (buf ++ more) dotu ≡ ok (fc, p)
unfolding unpack_header gint32 gint8 gint16
header-append (a ∷ b ∷ c ∷ d ∷ t ∷ u ∷ v ∷ buf) more dotu fc p h = ground (
  arith,
  length-append buf more,
  take-append_le (fc.size - 7) buf more,
  take-append_le fc.size (a ∷ b ∷ c ∷ d ∷ t ∷ u ∷ v ∷ buf) more,
)
header-append _ more dotu fc p h = cc

-- Bytes behind a message change nothing: what Unpack reads from a buffer it reads from every longer
-- one.
pub unpack-append :
    (buf more : Bytes) (dotu : Bool) (fc : Fcall) (n : ℕ)
    → unpack buf dotu ≡ ok (fc, n)
    → unpack (buf ++ more) dotu ≡ ok (fc, n)
unfolding unpack
unpack-append buf more dotu fc n h =
    let ((fc0, p), header, rest) = bind-Ran (unpack_header buf dotu) _ (fc, n) h in
    rw (header-append buf more dotu fc0 p header) rest
