-- ===== src/Clnt/Calls/Io.antt =====
-- Open, Create, Read, Write, and the methods Read, ReadAt, Readn, Write, WriteAt and Writen of File:
-- p/clnt/open.go, read.go and write.go.
use chan.Prelude.{
  ℕ, zero, suc, ◌+◌, ◌-◌, ◌%◌, ◌^◌, ◌==◌, ◌||◌, ltb, Option, none, some, [], ◌∷◌, ◌++◌, length,
  take, drop, if◌then◌else◌,
}
use chan.Prelude.Run.{stuck}
use chan.Wire.Types.{Bytes, Fcall}
use chan.Wire.Ints.{copy}
use chan.Wire.PackT.{pack_topen, pack_tcreate, pack_tread, pack_twrite}
use chan.Clnt.Calls.{
  FidPtr, CallError, eof, returns, fails, Reply, Call, pure, fail, crash, ◌>>=◌, try, gets, get_fid,
  put_fid, packed, take_fcall, ask,
}

abbrev pub iohdrsz : ℕ
iohdrsz = 24

-- `clnt.Msize - p.IOHDRSZ`, of an uint32
abbrev pub room : ℕ → ℕ
room msize = (msize + (2 ^ 32 - iohdrsz)) % 2 ^ 32

-- The Iounit of a fid, from the one that the server answered.
unfoldable pub sized : ℕ → ℕ → ℕ
sized msize iounit = if (iounit == 0) || ltb (room msize) iounit then room msize else iounit

pub record File : Type 0 where
  pub fid : FidPtr
  pub offset : ℕ

module _ {W : Type 0} (remote : Fcall → W → Reply × W) where
  abbrev pub set_open : FidPtr → ℕ → Fcall → Call W (Unit {0})
  set_open p mode rc = do
    f ← get_fid p
    msize ← gets (λ s. s.msize)
    put_fid p (record f { qid = rc.qid; iounit = sized msize rc.iounit; mode = mode })

  unfoldable pub open_fid : FidPtr → ℕ → Call W (Unit {0})
  unfolding pack_topen ask sized
  open_fid p mode = do
    f ← get_fid p
    tc0 ← take_fcall
    tc ← packed (pack_topen tc0 f.fid mode)
    rc ← ask remote tc
    set_open p mode rc

  unfoldable pub create_fid : FidPtr → Bytes → ℕ → ℕ → Bytes → Call W (Unit {0})
  unfolding pack_tcreate ask sized
  create_fid p name perm mode ext = do
    f ← get_fid p
    dotu ← gets (λ s. s.dotu)
    tc0 ← take_fcall
    tc ← packed (pack_tcreate tc0 f.fid name perm mode ext dotu)
    rc ← ask remote tc
    set_open p mode rc

  unfoldable pub read : FidPtr → ℕ → ℕ → Call W Bytes
  unfolding pack_tread ask
  read p offset count = do
    f ← get_fid p
    tc0 ← take_fcall
    tc ← packed (pack_tread tc0 f.fid offset (if ltb f.iounit count then f.iounit else count))
    rc ← ask remote tc
    pure rc.dat

  -- `data[0:fid.Iounit]`, where that is less than the length
  abbrev pub clipped : ℕ → Bytes → Bytes
  clipped iounit data_bytes =
      if ltb iounit (length data_bytes % 2 ^ 32) then take iounit data_bytes else data_bytes

  unfoldable pub write : FidPtr → Bytes → ℕ → Call W ℕ
  unfolding pack_twrite ask
  write p data_bytes offset = do
    f ← get_fid p
    let clip = clipped f.iounit data_bytes
    tc0 ← take_fcall
    tc ← packed (pack_twrite tc0 f.fid offset (length clip % 2 ^ 32) clip)
    rc ← ask remote tc
    pure rc.count

  -- Returns the number of bytes, and the buffer with what was copied into it.
  unfoldable pub read_at : FidPtr → Bytes → ℕ → Call W (ℕ × Bytes)
  unfolding read
  read_at p buf offset = do
    b ← read p offset (length buf % 2 ^ 32)
    if length b == 0 then fail eof else pure (length b, copy buf b)

  unfoldable pub file_read : File → Bytes → Call W (ℕ × Bytes × File)
  unfolding read_at
  file_read f buf = do
    (n, buf1) ← read_at f.fid buf f.offset
    pure (n, buf1, record f { offset = (f.offset + n) % 2 ^ 64 })

  unfoldable pub file_write : File → Bytes → Call W (ℕ × File)
  unfolding write
  file_write f buf = do
    n ← write f.fid buf f.offset
    pure (n, record f { offset = (f.offset + n) % 2 ^ 64 })

-- The loops of Readn and Writen, over ReadAt and WriteAt.
module _ {W : Type 0} where
  unfoldable pub readn : ℕ → (Bytes → ℕ → Call W (ℕ × Bytes)) → Bytes → ℕ → Call W (ℕ × Bytes)
  readn zero at buf offset = λ s. stuck
  readn (suc fuel) at [] offset = pure (0, [])
  readn (suc fuel) at (c ∷ cs) offset = do
    (n, buf1) ← at (c ∷ cs) offset
    let rest = readn fuel at (drop n buf1) ((offset + n) % 2 ^ 64)
    if n == 0
        then pure (0, buf1)
        else if ltb (length buf1) n
        then crash
        else (do (ret, buf2) ← rest; pure (n + ret, take n buf1 ++ buf2))

  unfoldable pub writen : ℕ → (Bytes → ℕ → Call W ℕ) → Bytes → ℕ → Call W (ℕ × Option CallError)
  writen zero at buf offset = λ s. stuck
  writen (suc fuel) at [] offset = pure (0, none)
  writen (suc fuel) at (c ∷ cs) offset = do
    answer ← try (at (c ∷ cs) offset)
    elim answer [
      | fails e ↦ pure (0, some e)
      | returns n ↦
          let rest = writen fuel at (drop n (c ∷ cs)) ((offset + n) % 2 ^ 64) in
          if n == 0
          then pure (0, none)
          else if ltb (length (c ∷ cs)) n
          then crash
          else (do (ret, e) ← rest; pure (n + ret, e))
    ]
