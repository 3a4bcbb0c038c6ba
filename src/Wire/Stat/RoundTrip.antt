-- ===== src/Wire/Stat/RoundTrip.antt =====
-- PackDir and UnpackDir.
use chan.Prelude.{
  ◌≤◌, ◌<◌, ◌≡◌, arith, Bool, true, false, [], ◌++◌, ltb-eq-true, ltb-eq-false, if◌then◌else◌,
  length, length-append, drop,
}
use chan.Wire.Result.{ok}
use chan.Wire.Types.{Bytes, Dir, zero_dir}
use chan.Wire.Stat.{statsz, pack_dir, unpack_dir}
use chan.Wire.Stat.Laws.{dir_bytes, wire_dir, IsDir, pstat-Puts, dir_read, length-dir_bytes}

-- PackDir of an entry whose fields fit, into a buffer with room, writes the entry's bytes over the
-- front of the buffer, leaves the rest, and returns their number.
pub pack_dir_ok :
    (d : Dir) (buf : Bytes) (dotu : Bool)
    → IsDir d dotu
    → statsz d dotu ≤ length buf
    → pack_dir d buf dotu ≡ ok (statsz d dotu, dir_bytes d dotu ++ drop (statsz d dotu) buf)
unfolding pack_dir
pack_dir_ok d buf dotu h room = rw (
  ltb-eq-false (length buf) (statsz d dotu) room,
  (pstat-Puts d dotu h).run ([], buf) (omega (arith, length-dir_bytes d dotu)),
  length-dir_bytes,
)

statsz_least : (d : Dir) (dotu : Bool) → (if dotu then 63 else 49) ≤ statsz d dotu
unfolding statsz
statsz_least d true = omega arith
statsz_least d false = omega arith

-- UnpackDir of the bytes of an entry, whatever follows them.
pub unpack_dir-dir_bytes :
    (d : Dir) (rest : Bytes) (dotu : Bool)
    → IsDir d dotu
    → unpack_dir (dir_bytes d dotu ++ rest) dotu ≡ ok (wire_dir d dotu zero_dir)
unfolding unpack_dir
unpack_dir-dir_bytes d rest dotu h =
    rw (ltb-eq-false (length (dir_bytes d dotu ++ rest)) _ long, dir_read d zero_dir dotu rest h)
  where
    long : (if dotu then 63 else 49) ≤ length (dir_bytes d dotu ++ rest)
    long = rw (length-append, length-dir_bytes) (omega (arith, statsz_least d dotu))

-- UnpackDir reads back the entry that PackDir wrote, of an entry whose fields fit their widths, into a buffer
-- that has room for it: every field of the protocol version in use, with
-- the size field set, and without 9P2000.u no extension and the three numeric ids at NOUID.
pub unpack_dir-pack_dir :
    (d : Dir) (buf : Bytes) (dotu : Bool)
    → IsDir d dotu
    → statsz d dotu ≤ length buf
    → (buf' : Bytes) × (pack_dir d buf dotu ≡ ok (statsz d dotu, buf'))
      × (unpack_dir buf' dotu ≡ ok (wire_dir d dotu zero_dir))
unpack_dir-pack_dir d buf dotu h room = (
  dir_bytes d dotu ++ drop (statsz d dotu) buf,
  pack_dir_ok d buf dotu h room,
  unpack_dir-dir_bytes d (drop (statsz d dotu) buf) dotu h,
)

-- PackDir into a buffer shorter than the entry returns 0 and leaves the buffer as it was.
pub pack_dir_short :
    (d : Dir) (buf : Bytes) (dotu : Bool)
    → length buf < statsz d dotu
    → pack_dir d buf dotu ≡ ok (0, buf)
unfolding pack_dir
pack_dir_short d buf dotu h = rw (ltb-eq-true (length buf) (statsz d dotu) h)
