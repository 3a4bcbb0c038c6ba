-- ===== src/Clnt/Readdir/Examples.antt =====
-- Directories of one and of two entries, of which a read gives one.
use chan.Prelude.{
  ℕ, zero, suc, ◌==◌, ◌≡◌, ◌≤◌, ◌+◌, ◌%◌, ◌^◌, ◌++◌, ap, refl, arith, true, false, none, some, List,
  [], ◌∷◌, length, if◌then◌else◌,
}
use chan.Prelude.Run.{done, update}
use chan.Wire.Types.{Bytes, Dir, zero_dir}
use chan.Wire.Stat.{unpack_dir, statsz, gstat, gstat_names, gstat_dotu, gqid}
use chan.Wire.Stat.Laws.{dir_bytes, IsDir, qid_bytes}
use chan.Wire.Ints.{gint8, gint16, gint32, gint64, gstr, le8, le16, le32, le64}
use chan.Wire.Ints.Laws.{str}
use chan.Clnt.Calls.{eof, Answer, returns, fails, Session, Call}
use chan.Wire.Types
use chan.Wire.Types.{Fcall, zero_fcall, notag, IsU32, IsU64}
use chan.Wire.Message.{decoded, with_fields, tread}
use chan.Wire.Unpack.{unpack}
use chan.Wire.Result
use chan.Clnt.Rpc.{closed}
use chan.Clnt.Calls.{Fid, Reply, back}
use chan.Clnt.Calls.Runs.{IsAnswer, outcome_of}
use chan.Clnt.Calls.Io.{read_at}
use chan.Clnt.Calls.Stores.{IsOpen}
use chan.Clnt.Readdir.{readdir, entries_of, dirs_bytes}
use chan.Clnt.Readdir.Reads.{Whole}
use chan.Clnt.Readdir.Entries.{Shown, IsShowing, IsWide, readdir-as_read}

abbrev idle : Session (Unit {0})
idle = record {
  world = tt;
  msize = 8216;
  dotu = false;
  root = none;
  fidpool = record { need = 0; maxid = 7; imap = [] };
  tchan = [];
  fids = λ p. none;
  next_fid = 0;
}

zero_dir-IsDir : IsDir zero_dir false
unfolding statsz
zero_dir-IsDir = record {
  type = omega arith;
  dev = omega arith;
  qid = record { type = omega arith; version = omega arith; path = omega arith };
  mode = omega arith;
  atime = omega arith;
  mtime = omega arith;
  length = omega arith;
  uidnum = omega arith;
  gidnum = omega arith;
  muidnum = omega arith;
  fits = omega arith;
}

abbrev left : ℕ → List Dir
left zero = zero_dir ∷ []
left (suc n) = []

-- A server that gives what is left at the offset of a Tread.
abbrev entry_shown : Result.Result (Fcall × ℕ) → ℕ → Reply × ℕ
entry_shown (Result.ok (fc, _)) w = (
  back (some (record zero_fcall { type = Types.rread; dat = dirs_bytes false (left fc.offset) }))
      none,
  suc w,
)
entry_shown (Result.err e) w = (back (some (record zero_fcall { type = Types.rerror })) none, w)
entry_shown Result.panic w = (back none (some closed), w)

abbrev showing_entry : Fcall → ℕ → Reply × ℕ
showing_entry tc w = entry_shown (unpack tc.pkt false) w

entry_shown-IsAnswer : (r : Result.Result (Fcall × ℕ)) (w : ℕ) → IsAnswer ((entry_shown r w).0)
entry_shown-IsAnswer (Result.ok (fc, _)) w = tt
entry_shown-IsAnswer (Result.err e) w = tt
entry_shown-IsAnswer Result.panic w = (closed, refl)

entry_at :
    (offset count : ℕ)
    → IsU64 offset
    → 49 ≤ count
    → Shown showing_entry left 49 5 false offset count
        (returns (record zero_fcall { type = Types.rread; dat = dirs_bytes false (left offset) }))
unfolding dir_bytes qid_bytes str le64 le32 le16 le8
entry_at zero count u64 enough =
    (zero_dir ∷ [], (zero_dir-IsDir, tt), refl, omega arith, refl, λ e. cc)
entry_at (suc n) count u64 enough =
    let same : suc n ≡ (suc n + 0) % 2 ^ 64 = omega arith in
    ([], tt, refl, omega arith, ap left same, λ e. refl)

entry_shown_lem :
    (tc : Fcall) (w offset count : ℕ)
    → unpack tc.pkt false ≡ Result.ok (decoded (tread 5 offset count) false notag, length tc.pkt)
    → IsU64 offset
    → 49 ≤ count
    → Shown showing_entry left 49 5 false offset count (outcome_of ((showing_entry tc w).0))
unfolding decoded with_fields
entry_shown_lem tc w offset count e u64 enough = rw e (entry_at offset count u64 enough)

showing_entry-IsShowing : IsShowing showing_entry left 49 5 false
showing_entry-IsShowing = record {
  answering = λ tc w. entry_shown-IsAnswer (unpack tc.pkt false) w;
  shows = entry_shown_lem;
}

abbrev fid_5 : Fid
fid_5 = record {
  iounit = 8192;
  qid = record { type = 0; version = 0; path = 0 };
  mode = 0;
  fid = 5;
  user = none;
  walked = true;
}

abbrev opened : Session ℕ
opened = record {
  world = 0;
  msize = 8216;
  dotu = false;
  root = none;
  fidpool = record { need = 0; maxid = 7; imap = 32 ∷ [] };
  tchan = [];
  fids = update (λ p. none) 0 (some fid_5);
  next_fid = 1;
}

abbrev wide_5 : IsOpen 0 5 false opened
wide_5 = record {
  f = fid_5;
  cell = refl;
  number = refl;
  dialect = refl;
  fits = omega arith;
  some_room = omega arith;
  buffers = (omega arith, omega arith, tt);
}

abbrev buffer : Bytes
buffer = dir_bytes zero_dir false ++ 0 ∷ []

buffer_room : (49 ≤ length buffer) × IsU32 (length buffer)
unfolding dir_bytes qid_bytes str le64 le32 le16 le8
buffer_room = (omega arith, omega arith)

readdir-as_read_example :
    Whole
      (read_at showing_entry 0)
      false
      left
      (length buffer)
      (IsWide showing_entry left 49 5 false 0)
      2
      buffer
      0
      0
      opened
readdir-as_read_example =
    readdir-as_read showing_entry left 49 5 false 0 2 0 0 buffer opened showing_entry-IsShowing
      (omega arith) (wide_5, omega arith) buffer_room.0 buffer_room.1 (omega arith) (omega arith)

-- The same entry at the offsets 0 and 49, and the end behind.
abbrev two_entries : Bytes → ℕ → Call (Unit {0}) (ℕ × Bytes)
two_entries buf offset s =
    done (if offset == 98 then fails eof else returns (49, dir_bytes zero_dir false), s)

-- Where one entry is asked for, Readdir returns both.
abbrev number : Answer (List Dir × ℕ) → ℕ
number (returns (ds, behind)) = length ds
number (fails e) = 0

more_than_asked :
    (a : Answer (List Dir × ℕ)) × (s' : Session (Unit {0})) × (readdir 3 two_entries false 1 [] 0 0
        idle
      ≡ done (a, s'))
    × (number a ≡ 2)
unfolding readdir entries_of unpack_dir gstat gstat_names gstat_dotu gqid gint8 gint16 gint32 gint64
    gstr dir_bytes qid_bytes str le64 le32 le16 le8 statsz
more_than_asked = (_, _, refl, refl)
