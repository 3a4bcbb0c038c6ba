-- ===== src/Wire/Message/Faults.antt =====
-- Packets that Unpack does not treat as the protocol asks.
use chan.Prelude.{
  ℕ, ◌+◌, ◌-◌, ◌≤◌, ◌<◌, ◌^◌, ◌≡◌, ◌≢◌, ◌⊎◌, ◌||◌, inl, inr, refl, arith, Bool, true, false, none,
  some, [], ◌∷◌, ◌++◌, ◌⌢◌, ltb, leb, ltb-eq-true, if◌then◌else◌, length, length-append,
}
use chan.Wire.Result.{ok, panic, ◌>>=◌, bind-Ran}
use chan.Wire.Types
use chan.Wire.Types.{Bytes, Fcall, Dir, nofid, IsU8, IsU16, IsU32, IsU64, zero_fcall, zero_dir}
use chan.Wire.Ints.{gint8, gint16, gint32, gstr, le16, le32, le64}
use chan.Wire.Ints.Laws.{le16_read, le32_read, le64_read, length-le32}
use chan.Wire.Stat.{gstat, gstat_names}
use chan.Wire.Stat.Laws.{qid_bytes, qid_read, IsQid}
use chan.Wire.Unpack.{
  min_fcsize, min_fcusize, at, unpack_body, used_up, header_fcall, unpack_header, unpack,
  unpack_version, unpack_tflush, unpack_topen, unpack_fid, unpack_twstat,
}
use chan.Wire.Unpack.Size.{header_bounds}
use chan.Wire.Message.{frame}
use chan.Wire.Message.Unpack.{header_read}

header_type :
    (a b c d t u v : ℕ) (rest : Bytes) (dotu : Bool) (fc : Fcall) (p : Bytes)
    → unpack_header (a ∷ b ∷ c ∷ d ∷ t ∷ u ∷ v ∷ rest) dotu ≡ ok (fc, p)
    → fc.type ≡ t
unfolding unpack_header gint32 gint8 gint16
header_type a b c d t u v rest dotu fc p h = ground arith

rwstat_leftover :
    (fc fc' : Fcall) (p : Bytes) (n : ℕ)
    → 0 < length p
    → (unpack_body Types.rwstat false fc p >>= used_up fc.size) ≢ ok (fc', n)
unfolding unpack_body
rwstat_leftover fc fc' [] n h = absurd (omega arith)
rwstat_leftover fc fc' (b ∷ p) n h = λ e. cc

-- Without 9P2000.u, Unpack returns no message for any packet of type Rwstat, whatever its size, its
-- tag and the bytes behind its header.
pub unpack-rwstat_refused :
    (a b c d u v : ℕ) (rest : Bytes) (fc : Fcall) (n : ℕ)
    → unpack (a ∷ b ∷ c ∷ d ∷ Types.rwstat ∷ u ∷ v ∷ rest) false ≢ ok (fc, n)
unfolding unpack
unpack-rwstat_refused a b c d u v rest fc n h =
    let buf = a ∷ b ∷ c ∷ d ∷ Types.rwstat ∷ u ∷ v ∷ rest in
    let ((fc0, p), header, last) = bind-Ran (unpack_header buf false) _ (fc, n) h in
    let (_, _, room, _, table) = header_bounds buf false fc0 p header in
    let type : fc0.type ≡ Types.rwstat = header_type a b c d _ u v rest false fc0 p header in
    let least : 20 ≤ fc0.size = rw type at table in
    rwstat_leftover fc0 fc p n (omega arith) (rw type at last)

-- The types whose minimum size in both tables is at most the seven bytes of the header, and whose
-- body starts with a field.
abbrev pub HasUncheckedBody : ℕ → Type 0
HasUncheckedBody t =
    (t ≡ Types.tversion)
    ⊎ (t ≡ Types.tflush)
    ⊎ (t ≡ Types.topen)
    ⊎ (t ≡ Types.tclunk)
    ⊎ (t ≡ Types.tremove)
    ⊎ (t ≡ Types.tstat)

body_panics :
    (t : ℕ) (dotu : Bool) (fc : Fcall) → HasUncheckedBody t → unpack_body t dotu fc [] ≡ panic
unfolding unpack_body unpack_version unpack_tflush unpack_topen unpack_fid gint32 gint16
body_panics t dotu fc (inl e) = rw e
body_panics t dotu fc (inr (inl e)) = rw e
body_panics t dotu fc (inr (inr (inl e))) = rw e
body_panics t dotu fc (inr (inr (inr (inl e)))) = rw e
body_panics t dotu fc (inr (inr (inr (inr (inl e))))) = rw e
body_panics t dotu fc (inr (inr (inr (inr (inr e))))) = rw e

-- Such a header passes every check before the switch.
unchecked_header :
    (t : ℕ) (dotu : Bool)
    → HasUncheckedBody t
    → IsU8 t
      × ((ltb t Types.tversion || leb Types.tlast t) ≡ false)
      × (at (if dotu then min_fcsize else min_fcusize) (t - Types.tversion) ≤ 7)
unchecked_header t true h = ground arith
unchecked_header t false h = ground arith

-- A packet of seven bytes, a header with no body, of type Tversion, Tflush, Topen, Tclunk, Tremove or
-- Tstat makes Unpack panic, with and without 9P2000.u.
pub unpack_panics :
    (t tag : ℕ) (rest : Bytes) (dotu : Bool)
    → HasUncheckedBody t
    → IsU16 tag
    → unpack (frame t tag [] ++ rest) dotu ≡ panic
unfolding unpack
unpack_panics t tag rest dotu h u16 =
    let (u8, range, table) = unchecked_header t dotu h in
    rw (header_read t tag [] rest dotu u8 u16 (omega arith) range table, body_panics t dotu _ h)

gstr_short :
    (k : ℕ) (s : Bytes) → IsU16 k → length s < k → gstr (some (le16 k ++ s)) ≡ ok ([], none)
unfolding gstr
gstr_short k s h short = rw (le16_read k s h, ltb-eq-true (length s) k short)

pub record HasStatFields (d : Dir) : Type 0 where
  pub size : IsU16 d.size
  pub type : IsU16 d.type
  pub dev : IsU32 d.dev
  pub qid : IsQid d.qid
  pub mode : IsU32 d.mode
  pub atime : IsU32 d.atime
  pub mtime : IsU32 d.mtime
  pub length : IsU64 d.length

-- The entry that is left when the first name does not fit.
abbrev pub nameless : Dir → Dir
nameless d = record zero_dir {
  size = d.size;
  type = d.type;
  dev = d.dev;
  qid = d.qid;
  mode = d.mode;
  atime = d.atime;
  mtime = d.mtime;
  length = d.length;
}

gstat-nameless :
    (d : Dir) (k : ℕ) (s : Bytes) (dotu : Bool)
    → HasStatFields d
    → IsU16 k
    → length s < k
    → gstat
        (le16 d.size
          ⌢ le16 d.type
          ⌢ le32 d.dev
          ⌢ qid_bytes d.qid
          ⌢ le32 d.mode
          ⌢ le32 d.atime
          ⌢ le32 d.mtime
          ⌢ le64 d.length
          ⌢ le16 k
          ⌢ s)
        zero_dir
        dotu
      ≡ ok (nameless d, none)
unfolding gstat gstat_names
gstat-nameless d k s dotu h u16 short = simp (
  gstr_short, u16, short, le16_read, le32_read, le64_read, qid_read, h.size, h.type, h.dev, h.qid,
  h.mode, h.atime, h.mtime, h.length,
)

-- fid[4] n[2], the fixed fields, and a name of `k` bytes of which only `s` is there
abbrev pub twstat_body : ℕ → ℕ → Dir → ℕ → Bytes → Bytes
twstat_body fid n d k s =
    le32 fid
    ⌢ le16 n
    ⌢ le16 d.size
    ⌢ le16 d.type
    ⌢ le32 d.dev
    ⌢ qid_bytes d.qid
    ⌢ le32 d.mode
    ⌢ le32 d.atime
    ⌢ le32 d.mtime
    ⌢ le64 d.length
    ⌢ le16 k
    ⌢ s

cut_body :
    (fid n k : ℕ) (d : Dir) (s : Bytes) (dotu : Bool) (fc : Fcall)
    → IsU32 fid
    → IsU16 n
    → HasStatFields d
    → IsU16 k
    → length s < k
    → fc.dir ≡ zero_dir
    → unpack_body Types.twstat dotu fc (twstat_body fid n d k s)
      ≡ ok (record fc { fid = fid; dir = nameless d }, none)
unfolding unpack_body unpack_twstat
cut_body fid n k d s dotu fc hf hn hd hk short e =
    rw (le32_read, hf, le16_read n, hn, e, gstat-nameless d k s dotu hd hk short)

-- Unpack accepts a Twstat whose stat entry is cut off in its first name, and returns it with an entry
-- that has the fields before the names and no name at all.
pub unpack-twstat_cut :
    (fid n k tag : ℕ) (d : Dir) (s rest : Bytes) (dotu : Bool)
    → IsU32 fid
    → IsU16 n
    → IsU16 tag
    → HasStatFields d
    → IsU16 k
    → length s < k
    → length (twstat_body fid n d k s) + 7 < 2 ^ 32
    → (fc : Fcall) × (unpack (frame Types.twstat tag (twstat_body fid n d k s) ++ rest) dotu
        ≡ ok (fc, length (twstat_body fid n d k s) + 7))
      × (fc.fid ≡ fid)
      × (fc.dir ≡ nameless d)
unfolding unpack
unpack-twstat_cut fid n k tag d s rest dotu hf hn ht hd hk short small = (
  record (header_fcall size Types.twstat tag packet) { fid = fid; dir = nameless d },
  rw (
    header_read Types.twstat tag (twstat_body fid n d k s) rest dotu (omega arith) ht small refl
        (table dotu),
    cut_body fid n k d s dotu (header_fcall size Types.twstat tag packet) hf hn hd hk short refl,
  ),
  refl,
  refl,
)
  where
    size : ℕ
    size = length (twstat_body fid n d k s) + 7

    packet : Bytes
    packet = frame Types.twstat tag (twstat_body fid n d k s)

    table :
        (dotu : Bool)
        → at (if dotu then min_fcsize else min_fcusize) 26 ≤ length (twstat_body fid n d k s) + 7
    table true = rw length-append (omega (arith, length-le32 fid))
    table false = rw length-append (omega (arith, length-le32 fid))
