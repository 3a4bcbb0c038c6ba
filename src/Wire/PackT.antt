-- ===== src/Wire/PackT.antt =====
-- packt.go: the T-messages.
use chan.Prelude.{ℕ, ◌+◌, ◌*◌, ◌%◌, ◌^◌, Bool, List, [], ◌∷◌, if◌then◌else◌, length}
use chan.Wire.Result.{Result, ok, ◌>>=◌}
use chan.Wire.Types.{
  Bytes, Fcall, Dir, tversion, tauth, tflush, tattach, twalk, topen, tcreate, tread, twrite, tclunk,
  tremove, tstat, twstat,
}
use chan.Wire.Ints.{Cursor, pint8, pint16, pint32, pint64, pstr, copy, ◌⟫◌, when, stay}
use chan.Wire.Stat.{statsz, pstat}
use chan.Wire.Pack.{pack, pack_common, commit}

unfoldable pub pack_tversion : Fcall → ℕ → Bytes → Result Fcall
pack_tversion fc msize version =
    pack fc (4 + 2 + length version) tversion
      (λ fc1. record fc1 { msize = msize; version = version }) (pint32 msize ⟫ pstr version)

unfoldable pub pack_tauth : Fcall → ℕ → Bytes → Bytes → ℕ → Bool → Result Fcall
pack_tauth fc fid uname aname unamenum dotu =
    let size = 4 + 2 + 2 + length uname + length aname in
    pack fc (if dotu then size + 4 else size) tauth
      (λ fc1. record fc1 {
        fid = fid;
        uname = uname;
        aname = aname;
        unamenum = if dotu then unamenum else fc1.unamenum;
      })
      (pint32 fid ⟫ pstr uname ⟫ pstr aname ⟫ when dotu (pint32 unamenum))

unfoldable pub pack_tflush : Fcall → ℕ → Result Fcall
pack_tflush fc oldtag = pack fc 2 tflush (λ fc1. record fc1 { oldtag = oldtag }) (pint16 oldtag)

unfoldable pub pack_tattach : Fcall → ℕ → ℕ → Bytes → Bytes → ℕ → Bool → Result Fcall
pack_tattach fc fid afid uname aname unamenum dotu =
    let size = 4 + 4 + 2 + length uname + 2 + length aname in
    pack fc (if dotu then size + 4 else size) tattach
      (λ fc1. record fc1 {
        fid = fid;
        afid = afid;
        uname = uname;
        aname = aname;
        unamenum = if dotu then unamenum else fc1.unamenum;
      })
      (pint32 fid ⟫ pint32 afid ⟫ pstr uname ⟫ pstr aname ⟫ when dotu (pint32 unamenum))

-- `for i := 0; i < nwname; i++ { size += len(wnames[i]) }`
unfoldable pub sum_lengths : List Bytes → ℕ
sum_lengths [] = 0
sum_lengths (w ∷ ws) = length w + sum_lengths ws

-- `for i := 0; i < nwname; i++ { p = pstr(wnames[i], p) }`
unfoldable pub pstrs : List Bytes → Cursor → Result Cursor
pstrs [] = stay
pstrs (w ∷ ws) = pstr w ⟫ pstrs ws

unfoldable pub pack_twalk : Fcall → ℕ → ℕ → List Bytes → Result Fcall
pack_twalk fc fid newfid wnames =
    let nwname = length wnames in
    pack fc (4 + 4 + 2 + nwname * 2 + sum_lengths wnames) twalk
      (λ fc1. record fc1 { fid = fid; newfid = newfid; wname = wnames })
      (pint32 fid ⟫ pint32 newfid ⟫ pint16 (nwname % 2 ^ 16) ⟫ pstrs wnames)

unfoldable pub pack_topen : Fcall → ℕ → ℕ → Result Fcall
pack_topen fc fid mode =
    pack fc (4 + 1) topen (λ fc1. record fc1 { fid = fid; mode = mode }) (pint32 fid ⟫ pint8 mode)

unfoldable pub pack_tcreate : Fcall → ℕ → Bytes → ℕ → ℕ → Bytes → Bool → Result Fcall
pack_tcreate fc fid name perm mode ext dotu =
    let size = 4 + 2 + length name + 4 + 1 in
    pack fc (if dotu then size + (2 + length ext) else size) tcreate
      (λ fc1. record fc1 {
        fid = fid;
        name = name;
        perm = perm;
        mode = mode;
        ext = if dotu then ext else fc1.ext;
      })
      (pint32 fid ⟫ pstr name ⟫ pint32 perm ⟫ pint8 mode ⟫ when dotu (pstr ext))

unfoldable pub pack_tread : Fcall → ℕ → ℕ → ℕ → Result Fcall
pack_tread fc fid offset count =
    pack fc (4 + 8 + 4) tread (λ fc1. record fc1 { fid = fid; offset = offset; count = count })
      (pint32 fid ⟫ pint64 offset ⟫ pint32 count)

-- `fc.Data = p` is all of the buffer behind the header, and `copy` fills its front.
unfoldable pub pack_twrite : Fcall → ℕ → ℕ → ℕ → Bytes → Result Fcall
pack_twrite fc fid offset count data_bytes = do
  let size = 4 + 8 + 4 + length data_bytes
  (fc1, p) ← pack_common fc size twrite
  (before, rest) ← (pint32 fid ⟫ pint64 offset ⟫ pint32 count) p
  let dat = copy rest data_bytes
  let fc2 = record fc1 { fid = fid; offset = offset; count = count; dat = dat }
  ok (commit fc2 (size + 7) (before, dat))

unfoldable pub pack_tclunk : Fcall → ℕ → Result Fcall
pack_tclunk fc fid = pack fc 4 tclunk (λ fc1. record fc1 { fid = fid }) (pint32 fid)

unfoldable pub pack_tremove : Fcall → ℕ → Result Fcall
pack_tremove fc fid = pack fc 4 tremove (λ fc1. record fc1 { fid = fid }) (pint32 fid)

unfoldable pub pack_tstat : Fcall → ℕ → Result Fcall
pack_tstat fc fid = pack fc 4 tstat (λ fc1. record fc1 { fid = fid }) (pint32 fid)

unfoldable pub pack_twstat : Fcall → ℕ → Dir → Bool → Result Fcall
pack_twstat fc fid d dotu =
    let stsz = statsz d dotu in
    pack fc (4 + 2 + stsz) twstat (λ fc1. record fc1 { fid = fid; dir = d })
      (pint32 fid ⟫ pint16 (stsz % 2 ^ 16) ⟫ pstat d dotu)
