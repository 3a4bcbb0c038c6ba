-- ===== src/Srv/Recv.antt =====
-- (*Conn).recv of p/srv/conn.go: how the bytes of a connection are cut into messages.
-- `buf` is the whole buffer and `pos` the number of bytes in it that were read and not yet used; what
-- lies behind them is left from before. The connection is its bytes, and the number of bytes that it
-- has ready at each Read, less one.
pub mod Frames
pub mod Chunks
pub mod Buffer
pub mod Stream
pub mod Delivery
mod Examples
use chan.Prelude.{
  ℕ, zero, suc, ◌+◌, ◌-◌, ◌*◌, ◌%◌, ◌^◌, Bool, List, [], ◌∷◌, ◌++◌, ltb, leb, if◌then◌else◌, length,
  take, drop,
}
use chan.Wire.Result
use chan.Wire.Types.{Bytes, Fcall}
use chan.Wire.Ints.{gint32, copy}
use chan.Wire.Pack.{zeros}
use chan.Wire.Unpack.{unpack}

pub record Input : Type 0 where
  pub buf : Bytes
  pub pos : ℕ

-- One round of the inner loop: it ends, it waits for the rest of a message of a size, the connection
-- is closed, the program ends, or a message is read with its number of bytes.
pub data Next : Type 0 where
  idle bad crash : Next
  short : ℕ → Next
  got : Fcall → ℕ → Next

-- `b := make([]byte, conn.Msize*8); copy(b, buf[0:pos])`
unfoldable pub grow : ℕ → Input → Input
unfolding copy
grow msize i = record i { buf = copy (zeros (msize * 8 % 2 ^ 32)) (take i.pos i.buf) }

unfoldable pub unpacked : Result.Result (Fcall × ℕ) → Next
unpacked (Result.ok (fc, n)) = got fc n
unpacked (Result.err e) = bad
unpacked Result.panic = crash

-- With the size that the message begins with.
unfoldable pub sized : ℕ → Bool → Input → Result.Result (ℕ × Bytes) → Next
unfolding unpacked unpack
sized msize dotu i (Result.ok (sz, _)) =
    if ltb msize sz then bad else if ltb i.pos sz then short sz else unpacked (unpack i.buf dotu)
sized msize dotu i (Result.err e) = crash
sized msize dotu i Result.panic = crash

unfoldable pub next : ℕ → Bool → Input → Next
unfolding sized gint32
next msize dotu i = if leb i.pos 4 then idle else sized msize dotu i (gint32 i.buf)

-- How the loops end: behind a Read, at `closed`, with a panic, or out of the model's fuel.
pub data End : Type 0 where
  waiting : Input → End
  closed panicked stuck : End

-- `buf = buf[fcsize:]; pos -= fcsize`
abbrev pub advance : Input → ℕ → Input
advance i n = record { buf = drop n i.buf; pos = i.pos - n }

abbrev pub and_also : List Fcall → List Fcall × End → List Fcall × End
and_also xs (ys, e) = (xs ++ ys, e)

-- What a round leads to, with the rounds behind it.
unfoldable pub drained : (Input → List Fcall × End) → ℕ → Input → Next → List Fcall × End
unfolding grow
drained rest msize i idle = ([], waiting i)
drained rest msize i bad = ([], closed)
drained rest msize i crash = ([], panicked)
drained rest msize i (short sz) = ([], waiting (if ltb (length i.buf) sz then grow msize i else i))
drained rest msize i (got fc n) = and_also (fc ∷ []) (rest (advance i n))

-- The inner loop: the messages that are complete, in order.
unfoldable pub drain : ℕ → ℕ → Bool → Input → List Fcall × End
unfolding next drained
drain zero msize dotu i = ([], stuck)
drain (suc fuel) msize dotu i = drained (drain fuel msize dotu) msize i (next msize dotu i)

-- `if len(buf) < int(conn.Msize)`, before each Read
unfoldable pub ensure : ℕ → Input → Input
unfolding grow
ensure msize i = if ltb (length i.buf) msize then grow msize i else i

-- `conn.conn.Read(buf[pos:])` stores as many of the bytes that are ready as there is room for.
abbrev pub room : Input → ℕ → ℕ
room i ready = let free = length i.buf - i.pos in if ltb free ready then free else ready

abbrev pub store : Input → Bytes → Input
store i chunk = record {
  buf = take i.pos i.buf ++ (chunk ++ drop (i.pos + length chunk) i.buf);
  pos = i.pos + length chunk;
}

-- `if err != nil || n == 0 { goto closed }`, and the inner loop.
unfoldable pub received : ℕ → Bool → Input → Bytes → List Fcall × End
unfolding drain
received msize dotu i [] = ([], closed)
received msize dotu i (b ∷ chunk) = let i' = store i (b ∷ chunk) in drain (suc i'.pos) msize dotu i'

-- The outer loop behind the inner one, which may have ended it.
abbrev pub goes_on : End → (Input → List Fcall × End) → List Fcall × End
goes_on (waiting i) rest = rest i
goes_on closed rest = ([], closed)
goes_on panicked rest = ([], panicked)
goes_on stuck rest = ([], stuck)

-- The outer loop, for a number of Reads.
unfoldable pub recv : ℕ → Bool → Input → Bytes → List ℕ → List Fcall × End
unfolding ensure received
recv msize dotu i stream [] = ([], waiting i)
recv msize dotu i stream (more ∷ sizes) =
    let j = ensure msize i in
    let chunk = take (room j (suc more)) stream in
    let (fcs, end) = received msize dotu j chunk in
    and_also fcs (goes_on end λ i'. recv msize dotu i' (drop (length chunk) stream) sizes)
