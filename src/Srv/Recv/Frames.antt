-- ===== src/Srv/Recv/Frames.antt =====
-- The messages of a sequence of bytes, without a buffer: what the loops of recv should find.
use chan.Prelude.{
  ℕ, ◌-◌, ◌≤◌, ◌<◌, ◌≡◌, ◌≢◌, refl, arith, Bool, [], ◌∷◌, ◌++◌, ltb, if◌then◌else◌, length,
  length-append, ◌⊎◌, inl, inr, sym, ◌∙◌,
}
use chan.Wire.Result
use chan.Wire.Types.{Bytes, Fcall}
use chan.Wire.Ints.{gint8, gint16, gint32}
use chan.Wire.Unpack.{unpack, unpack_header}
use chan.Wire.Unpack.Size.{unpack_bounds, take-append_le}
use chan.Srv.Recv.{Next, idle, bad, short, got, unpacked, sized, next, Input}

header_crop :
    (p more : Bytes) (dotu : Bool) (sz : ℕ) (rest : Bytes)
    → gint32 p ≡ Result.ok (sz, rest)
    → 7 ≤ sz
    → sz ≤ length p
    → unpack_header (p ++ more) dotu ≡ unpack_header p dotu
unfolding unpack_header gint32 gint8 gint16
header_crop (a ∷ b ∷ c ∷ d ∷ t ∷ u ∷ v ∷ p) more dotu sz rest size large room = ground (
  arith,
  length-append p more,
  take-append_le (sz - 7) p more,
  take-append_le sz (a ∷ b ∷ c ∷ d ∷ t ∷ u ∷ v ∷ p) more,
)
header_crop _ more dotu sz rest size large room = absurd (omega arith)

header_small :
    (p : Bytes) (dotu : Bool) (sz : ℕ) (rest : Bytes)
    → gint32 p ≡ Result.ok (sz, rest)
    → sz < 7
    → (e : Result.Error) × (unpack_header p dotu ≡ Result.err e)
unfolding unpack_header gint32 gint8 gint16
header_small (a ∷ b ∷ c ∷ d ∷ t ∷ u ∷ v ∷ p) dotu sz rest size small =
    (Result.buffer_too_short_expected (length (a ∷ b ∷ c ∷ d ∷ t ∷ u ∷ v ∷ p)) sz, ground arith)
header_small _ dotu sz rest size small = (Result.buffer_too_short, refl)

gint32-append :
    (p more : Bytes) (sz : ℕ) (rest : Bytes)
    → gint32 p ≡ Result.ok (sz, rest)
    → gint32 (p ++ more) ≡ Result.ok (sz, rest ++ more)
unfolding gint32
gint32-append (a ∷ b ∷ c ∷ d ∷ p) more sz rest h = ground arith
gint32-append _ more sz rest h = cc

-- What Unpack makes of a message that is there in full does not depend on what lies behind it.
unpack_crop :
    (p more : Bytes) (dotu : Bool) (sz : ℕ) (rest : Bytes)
    → gint32 p ≡ Result.ok (sz, rest)
    → sz ≤ length p
    → unpacked (unpack (p ++ more) dotu) ≡ unpacked (unpack p dotu)
unfolding unpack unpacked
unpack_crop p more dotu sz rest size room = elim (small_or_large sz) [
  | inl large ↦ rw (header_crop p more dotu sz rest size large room)
  | inr small ↦
      let (e, h) = header_small p dotu sz rest size small in
      let (e', h') =
        header_small (p ++ more) dotu sz (rest ++ more) (gint32-append p more sz rest size) small in
      rw (h, h')
]
  where
    small_or_large : (n : ℕ) → (7 ≤ n) ⊎ (n < 7)
    small_or_large n = omega arith

-- A buffer that begins with the bytes `p`, which were read, and goes on with `more`, which were not.
abbrev pub held : Bytes → Bytes → Input
held p more = record { buf = p ++ more; pos = length p }

gint32_long :
    (p : Bytes) → 4 < length p → (sz : ℕ) × (rest : Bytes) × (gint32 p ≡ Result.ok (sz, rest))
unfolding gint32
gint32_long (a ∷ b ∷ c ∷ d ∷ p) h = (_, _, refl)
gint32_long _ h = absurd (omega arith)

next_brief :
    (msize : ℕ) (dotu : Bool) (p more : Bytes) → length p ≤ 4 → next msize dotu (held p more) ≡ idle
unfolding next
next_brief msize dotu p more h = ground arith

-- What the round does with more than four bytes, of which the first four are the size.
abbrev choose : ℕ → Bool → Bytes → ℕ → Next
choose msize dotu p sz =
    if ltb msize sz then bad else if ltb (length p) sz then short sz else unpacked (unpack p dotu)

pub next_long :
    (msize : ℕ) (dotu : Bool) (p more : Bytes) (sz : ℕ) (rest : Bytes)
    → 4 < length p
    → gint32 p ≡ Result.ok (sz, rest)
    → next msize dotu (held p more) ≡ choose msize dotu p sz
unfolding next sized
next_long msize dotu p more sz rest long size = elim (leb_cases sz (length p)) [
  | inl room ↦
      ground (arith, gint32-append p more sz rest size, unpack_crop p more dotu sz rest size room)
  | inr less ↦ ground (arith, gint32-append p more sz rest size)
]
  where
    leb_cases : (n m : ℕ) → (n ≤ m) ⊎ (m < n)
    leb_cases n m = omega arith

brief_or_long : (n : ℕ) → (n ≤ 4) ⊎ (4 < n)
brief_or_long n = omega arith

-- Nothing behind `pos` is looked at.
pub next_crop :
    (msize : ℕ) (dotu : Bool) (p more : Bytes)
    → next msize dotu (held p more) ≡ next msize dotu (held p [])
next_crop msize dotu p more = elim (brief_or_long (length p)) [
  | inl brief ↦ rw (next_brief msize dotu p more brief, next_brief msize dotu p [] brief)
  | inr long ↦
      let (sz, rest, size) = gint32_long p long in
      rw
        (next_long msize dotu p more sz rest long size, next_long msize dotu p [] sz rest long size)
]

-- Bytes that come later change nothing of what is complete.
pub next-append :
    (msize : ℕ) (dotu : Bool) (p q : Bytes)
    → next msize dotu (held p []) ≢ idle
    → ((sz : ℕ) → next msize dotu (held p []) ≢ short sz)
    → next msize dotu (held (p ++ q) []) ≡ next msize dotu (held p [])
next-append msize dotu p q one two = elim (brief_or_long (length p)) [
  | inl brief ↦ absurd (one (next_brief msize dotu p [] brief))
  | inr long ↦
      let (sz, rest, size) = gint32_long p long in
      let here = next_long msize dotu p [] sz rest long size in
      let there =
        next_long msize dotu (p ++ q) [] sz (rest ++ q) (omega (arith, length-append p q))
          (gint32-append p q sz rest size) in
      there ∙ choose-append msize dotu p q sz rest size (λ e. two sz (here ∙ e)) ∙ sym here
]
  where
    choose-append :
        (msize : ℕ) (dotu : Bool) (p q : Bytes) (sz : ℕ) (rest : Bytes)
        → gint32 p ≡ Result.ok (sz, rest)
        → choose msize dotu p sz ≢ short sz
        → choose msize dotu (p ++ q) sz ≡ choose msize dotu p sz
    choose-append msize dotu p q sz rest size h =
        grind (arith, length-append p q, λ (r : sz ≤ length p). unpack_crop p q dotu sz rest size r)

unpacked-got :
    (r : Result.Result (Fcall × ℕ)) (fc : Fcall) (n : ℕ)
    → unpacked r ≡ got fc n
    → r ≡ Result.ok (fc, n)
unfolding unpacked
unpacked-got (Result.ok (fc', n')) fc n h = ground arith
unpacked-got (Result.err e) fc n h = cc
unpacked-got Result.panic fc n h = cc

choose-got :
    (msize : ℕ) (dotu : Bool) (p : Bytes) (sz : ℕ) (fc : Fcall) (n : ℕ)
    → choose msize dotu p sz ≡ got fc n
    → unpacked (unpack p dotu) ≡ got fc n
choose-got msize dotu p sz fc n h = ground arith

-- A message that was read is not longer than what was there.
pub next_got :
    (msize : ℕ) (dotu : Bool) (p : Bytes) (fc : Fcall) (n : ℕ)
    → next msize dotu (held p []) ≡ got fc n
    → (7 ≤ n) × (n ≤ length p)
next_got msize dotu p fc n h = elim (brief_or_long (length p)) [
  | inl brief ↦ absurd (idle_not_got (sym (next_brief msize dotu p [] brief) ∙ h))
  | inr long ↦
      let (sz, rest, size) = gint32_long p long in
      let e =
        choose-got msize dotu p sz fc n (sym (next_long msize dotu p [] sz rest long size) ∙ h) in
      unpack_bounds p dotu fc n (unpacked-got (unpack p dotu) fc n e)
]
  where
    idle_not_got : idle ≢ got fc n
    idle_not_got e = cc

unpacked_not_short : (r : Result.Result (Fcall × ℕ)) (sz : ℕ) → unpacked r ≢ short sz
unfolding unpacked
unpacked_not_short (Result.ok (fc', n')) sz h = cc
unpacked_not_short (Result.err e) sz h = cc
unpacked_not_short Result.panic sz h = cc

choose_short :
    (msize : ℕ) (dotu : Bool) (p : Bytes) (sz sz' : ℕ)
    → choose msize dotu p sz ≡ short sz'
    → (length p < sz') × (sz' ≤ msize)
choose_short msize dotu p sz sz' h = ground (arith, unpacked_not_short (unpack p dotu) sz')

-- What waits is shorter than the message that it begins, and this one is not too long.
pub next_short :
    (msize : ℕ) (dotu : Bool) (p : Bytes) (sz : ℕ)
    → next msize dotu (held p []) ≡ short sz
    → (length p < sz) × (sz ≤ msize)
next_short msize dotu p sz h = elim (brief_or_long (length p)) [
  | inl brief ↦ absurd (idle_not_short (sym (next_brief msize dotu p [] brief) ∙ h))
  | inr long ↦
      let (sz', rest, size) = gint32_long p long in
      choose_short msize dotu p sz' sz (sym (next_long msize dotu p [] sz' rest long size) ∙ h)
]
  where
    idle_not_short : idle ≢ short sz
    idle_not_short e = cc

pub next_idle :
    (msize : ℕ) (dotu : Bool) (p : Bytes) → next msize dotu (held p []) ≡ idle → length p ≤ 4
unfolding unpacked
next_idle msize dotu p h = elim (brief_or_long (length p)) [
  | inl brief ↦ brief
  | inr long ↦
      let (sz, rest, size) = gint32_long p long in
      absurd (choose_not_idle sz (sym (next_long msize dotu p [] sz rest long size) ∙ h))
]
  where
    unpacked_not_idle : (r : Result.Result (Fcall × ℕ)) → unpacked r ≢ idle
    unpacked_not_idle (Result.ok (fc', n')) h = cc
    unpacked_not_idle (Result.err e) h = cc
    unpacked_not_idle Result.panic h = cc

    choose_not_idle : (sz : ℕ) → choose msize dotu p sz ≢ idle
    choose_not_idle sz h = ground (arith, unpacked_not_idle (unpack p dotu))
