-- ===== src/Wire/PackR.antt =====
-- packr.go: the R-messages.
use chan.Prelude.{
  ℕ, ◌+◌, ◌-◌, ◌*◌, ◌%◌, ◌^◌, Bool, List, [], ◌∷◌, ◌++◌, ◌||◌, ltb, if◌then◌else◌, length, take,
  drop,
}
use chan.Wire.Result.{Result, ok, panic, ◌>>=◌}
use chan.Wire.Types.{
  Bytes, Fcall, Qid, Dir, rversion, rauth, rerror, rflush, rattach, rwalk, ropen, rcreate, rread,
  rwrite, rclunk, rremove, rstat, rwstat,
}
use chan.Wire.Ints.{Cursor, pint16, pint32, pstr, copy, skip, ◌⟫◌, when, stay}
use chan.Wire.Stat.{pqid, statsz, pstat}
use chan.Wire.Pack.{pack, pack_common, commit}

unfoldable pub pack_rversion : Fcall → ℕ → Bytes → Result Fcall
pack_rversion fc msize version =
    pack fc (4 + 2 + length version) rversion
      (λ fc1. record fc1 { msize = msize; version = version }) (pint32 msize ⟫ pstr version)

unfoldable pub pack_rauth : Fcall → Qid → Result Fcall
pack_rauth fc aqid = pack fc 13 rauth (λ fc1. record fc1 { qid = aqid }) (pqid aqid)

unfoldable pub pack_rerror : Fcall → Bytes → ℕ → Bool → Result Fcall
pack_rerror fc error errornum dotu =
    let size = 2 + length error in
    pack fc (if dotu then size + 4 else size) rerror
      (λ fc1. record fc1 { error = error; errornum = if dotu then errornum else fc1.errornum })
      (pstr error ⟫ when dotu (pint32 errornum))

unfoldable pub pack_rflush : Fcall → Result Fcall
pack_rflush fc = pack fc 0 rflush (λ fc1. fc1) stay

unfoldable pub pack_rattach : Fcall → Qid → Result Fcall
pack_rattach fc aqid = pack fc 13 rattach (λ fc1. record fc1 { qid = aqid }) (pqid aqid)

-- `for i := 0; i < nwqid; i++ { p = pqid(&wqids[i], p) }`
unfoldable pub pqids : List Qid → Cursor → Result Cursor
pqids [] = stay
pqids (q ∷ qs) = pqid q ⟫ pqids qs

unfoldable pub pack_rwalk : Fcall → List Qid → Result Fcall
pack_rwalk fc wqids =
    let nwqid = length wqids in
    pack fc (2 + nwqid * 13) rwalk (λ fc1. record fc1 { wqid = wqids })
      (pint16 (nwqid % 2 ^ 16) ⟫ pqids wqids)

unfoldable pub pack_ropen : Fcall → Qid → ℕ → Result Fcall
pack_ropen fc qid iounit =
    pack fc (13 + 4) ropen (λ fc1. record fc1 { qid = qid; iounit = iounit })
      (pqid qid ⟫ pint32 iounit)

unfoldable pub pack_rcreate : Fcall → Qid → ℕ → Result Fcall
pack_rcreate fc qid iounit =
    pack fc (13 + 4) rcreate (λ fc1. record fc1 { qid = qid; iounit = iounit })
      (pqid qid ⟫ pint32 iounit)

-- `p[lo:hi]`
abbrev pub slice : Bytes → ℕ → ℕ → Result Bytes
slice p lo hi = if ltb hi lo || ltb (length p) hi then panic else ok (take (hi - lo) (drop lo p))

-- `4 + count` is a uint32 and wraps.
unfoldable pub init_rread : Fcall → ℕ → Result Fcall
init_rread fc count = do
  let size = (4 + count) % 2 ^ 32
  (fc1, p) ← pack_common fc size rread
  dat ← slice p.1 4 ((count + 4) % 2 ^ 32)
  p1 ← pint32 count p
  ok (commit (record fc1 { count = count; dat = dat }) (size + 7) p1)

-- For a message of InitRread: `fc.Pkt` starts `fc.Buf`, and `fc.Data` starts at its byte 11.
unfoldable pub set_rread_count : Fcall → ℕ → Result Fcall
set_rread_count fc count = do
  let size = (4 + 1 + 2 + 4 + count) % 2 ^ 32
  p ← pint32 size ([], fc.buf)
  p1 ← skip 3 p
  (before, rest) ← pint32 count p1
  let buf = before ++ rest
  pkt ← slice buf 0 size
  dat ← slice buf 11 (11 + count)
  ok (record fc { size = size; count = count; pkt = pkt; dat = dat; buf = buf })

-- `copy(fc.Data, data)`, where `fc.Data` is the part of `fc.Buf` and `fc.Pkt` from byte 11 on.
unfoldable pub copy_data : Fcall → Bytes → Fcall
copy_data fc data_bytes =
    let dat = copy fc.dat data_bytes in
    let buf = take 11 fc.buf ++ (dat ++ drop (11 + length dat) fc.buf) in
    record fc { dat = dat; pkt = take (length fc.pkt) buf; buf = buf }

unfoldable pub pack_rread : Fcall → Bytes → Result Fcall
pack_rread fc data_bytes = do
  fc1 ← init_rread fc (length data_bytes % 2 ^ 32)
  ok (copy_data fc1 data_bytes)

unfoldable pub pack_rwrite : Fcall → ℕ → Result Fcall
pack_rwrite fc count = pack fc 4 rwrite (λ fc1. record fc1 { count = count }) (pint32 count)

unfoldable pub pack_rclunk : Fcall → Result Fcall
pack_rclunk fc = pack fc 0 rclunk (λ fc1. fc1) stay

unfoldable pub pack_rremove : Fcall → Result Fcall
pack_rremove fc = pack fc 0 rremove (λ fc1. fc1) stay

unfoldable pub pack_rstat : Fcall → Dir → Bool → Result Fcall
pack_rstat fc d dotu =
    let stsz = statsz d dotu in
    pack fc (2 + stsz) rstat (λ fc1. record fc1 { dir = d }) (pint16 (stsz % 2 ^ 16) ⟫ pstat d dotu)

unfoldable pub pack_rwstat : Fcall → Result Fcall
pack_rwstat fc = pack fc 0 rwstat (λ fc1. fc1) stay
