-- ===== src/Clnt/Calls/Examples.antt =====
-- Calls of a client with messages of 64 bytes, of which the fid 5 is in use.
use chan.Prelude.{
  ◌<◌, ℕ, zero, suc, ◌==◌, ◌≡◌, refl, arith, true, false, none, some, List, [], ◌∷◌, ◌++◌, length,
  take, drop, drop-nil, if◌then◌else◌,
}
use chan.Prelude.Run.{done, panic, update}
use chan.Wire.Types
use chan.Wire.Types.{Bytes, Fcall, zero_fcall, notag, nofid}
use chan.Wire.Message.{encode, decoded, with_fields, twrite, tread, twalk, strs}
use chan.Wire.Unpack.{unpack}
use chan.Wire.Result
use chan.Wire.Ints.{pint8, pint16, pint32, ◌⟫◌}
use chan.Wire.Pack.{pack, pack_common, new_fcall}
use chan.Wire.PackT.{pack_tremove}
use chan.Clnt.Pool.{put_id, nth, set_nth}
use chan.Clnt.Rpc.{closed}
use chan.Clnt.Calls.{Answer, returns, Fid, Reply, refused, back, Session, rpc, ask, give_back}
use chan.Clnt.Calls.Runs.{HasBuffers, IsAnswer, IsAnswering, outcome_of}
use chan.Clnt.Calls.Io.{open_fid, write, read_at}
use chan.Clnt.Calls.Files.{remove, walk_step}
use chan.Clnt.Calls.Sizes.{Opened, open_fid-Opened, count_of, write-encode}
use chan.Clnt.Calls.Transfer.{put, Written}
use chan.Clnt.Calls.Stores.{IsOpen, Stored, IsStoring, stored_in, writen-put}
use chan.Clnt.Calls.Fill.{Read}
use chan.Clnt.Calls.Loads.{Loaded, IsLoading, readn-Filled}
use chan.Clnt.Calls.Batches.{FitIn, Batched}
use chan.Clnt.Calls.Places.{CanWalk, Moved, IsWalking, place, walk_batches-Arrived}
use chan.Wire.Types.{Qid}
use chan.Wire.Ints.{le16, le8}
use chan.Wire.Ints.Laws.{str}
use chan.Prelude.{◌≤◌}

abbrev fid_5 : Fid
fid_5 = record {
  iounit = 40;
  qid = record { type = 0; version = 0; path = 0 };
  mode = 0;
  fid = 5;
  user = none;
  walked = true;
}

abbrev with_world : (W : Type 0) → W → Session W
with_world W w = record {
  world = w;
  msize = 64;
  dotu = false;
  root = some 0;
  fidpool = record { need = 0; maxid = 7; imap = 32 ∷ [] };
  tchan = [];
  fids = update (λ p. none) 0 (some fid_5);
  next_fid = 1;
}

-- A server that answers every request with an Iounit of 100 and a count of 3, and counts them.
abbrev answering : Fcall → ℕ → Reply × ℕ
answering tc n =
    (back (some (record zero_fcall { type = Types.ropen; iounit = 100; count = 3 })) none, suc n)

answering-IsAnswering : IsAnswering answering
answering-IsAnswering tc w = tt

some_buffers : HasBuffers 64 []
some_buffers = (omega arith, omega arith, tt)

open_fid-Opened_example :
    (a : Answer (Unit {0})) × (s' : Session ℕ) × (open_fid answering 0 2 (with_world ℕ 0)
      ≡ done (a, s'))
    × Opened answering (with_world ℕ 0) 0 2 a s'
    × HasBuffers s'.msize s'.tchan
open_fid-Opened_example =
    open_fid-Opened answering (with_world ℕ 0) 0 fid_5 2 answering-IsAnswering some_buffers refl
      (omega arith) (omega arith)

write-encode_example :
    (tc : Fcall) × (s1 s2 : Session ℕ) × (a : Answer Fcall) × (tc.pkt
      ≡ encode (twrite 5 9 (take 40 (1 ∷ 2 ∷ 3 ∷ []))) false notag)
    × (unpack tc.pkt false
        ≡ Result.ok (decoded (twrite 5 9 (take 40 (1 ∷ 2 ∷ 3 ∷ []))) false notag, length tc.pkt))
    × (ask answering tc s1 ≡ done (a, s2))
    × (write answering 0 (1 ∷ 2 ∷ 3 ∷ []) 9 (with_world ℕ 0) ≡ done (count_of answering a, s2))
    × (s2.fids ≡ update (λ p. none) 0 (some fid_5))
    × HasBuffers s2.msize s2.tchan
write-encode_example =
    write-encode answering (with_world ℕ 0) 0 fid_5 (1 ∷ 2 ∷ 3 ∷ []) 9 answering-IsAnswering
      some_buffers refl (omega arith) (omega arith) (omega arith) (omega arith)

-- A server that stores the first byte of each Twrite.
abbrev one_stored : Result.Result (Fcall × ℕ) → (ℕ → ℕ) → Reply × (ℕ → ℕ)
one_stored (Result.ok (fc, _)) w = (
  back (some (record zero_fcall { type = Types.rwrite; count = 1 })) none,
  put w fc.offset (take 1 fc.dat),
)
one_stored (Result.err e) w = (back (some (record zero_fcall { type = Types.rerror })) none, w)
one_stored Result.panic w = (back none (some closed), w)

abbrev storing_one : Fcall → (ℕ → ℕ) → Reply × (ℕ → ℕ)
storing_one tc w = one_stored (unpack tc.pkt false) w

one_stored-IsAnswer : (r : Result.Result (Fcall × ℕ)) (w : ℕ → ℕ) → IsAnswer ((one_stored r w).0)
one_stored-IsAnswer (Result.ok (fc, _)) w = tt
one_stored-IsAnswer (Result.err e) w = tt
one_stored-IsAnswer Result.panic w = (closed, refl)

one_stored_lem :
    (tc : Fcall) (w : ℕ → ℕ) (offset : ℕ) (bytes : Bytes)
    → unpack tc.pkt false ≡ Result.ok (decoded (twrite 5 offset bytes) false notag, length tc.pkt)
    → 0 < length bytes
    → Stored storing_one
        (λ v. v)
        5
        false
        offset
        bytes
        (outcome_of ((storing_one tc w).0))
        w
        ((storing_one tc w).1)
unfolding decoded with_fields
one_stored_lem tc w offset bytes e some_bytes = rw e (omega arith, omega arith, refl)

storing_one-IsStoring : IsStoring storing_one (λ w. w) 5 false
storing_one-IsStoring = record {
  answering = λ tc w. one_stored-IsAnswer (unpack tc.pkt false) w;
  stores = one_stored_lem;
}

opened_5 : {W : Type 0} (w : W) → IsOpen 0 5 false (with_world W w)
opened_5 w = record {
  f = fid_5;
  cell = refl;
  number = refl;
  dialect = refl;
  fits = omega arith;
  some_room = omega arith;
  buffers = some_buffers;
}

writen-put_example :
    Written
      (write storing_one 0)
      (stored_in storing_one (λ w. w) 5 false)
      (IsOpen 0 5 false)
      4
      (7 ∷ 8 ∷ 9 ∷ [])
      2
      (with_world (ℕ → ℕ) (λ i. 0))
writen-put_example =
    writen-put storing_one (λ w. w) 5 false 0 4 (7 ∷ 8 ∷ 9 ∷ []) 2 (with_world (ℕ → ℕ) (λ i. 0))
      storing_one-IsStoring (omega arith) (opened_5 (λ i. 0)) (omega arith) (omega arith)
      (omega arith)

-- A file of three bytes, of which each Tread gets one.
abbrev short_file : Bytes
short_file = 7 ∷ 8 ∷ 9 ∷ []

abbrev one_loaded : Result.Result (Fcall × ℕ) → ℕ → Reply × ℕ
one_loaded (Result.ok (fc, _)) w = (
  back (some (record zero_fcall { type = Types.rread; dat = take 1 (drop fc.offset short_file) }))
      none,
  suc w,
)
one_loaded (Result.err e) w = (back (some (record zero_fcall { type = Types.rerror })) none, w)
one_loaded Result.panic w = (back none (some closed), w)

abbrev loading_one : Fcall → ℕ → Reply × ℕ
loading_one tc w = one_loaded (unpack tc.pkt false) w

one_loaded-IsAnswer : (r : Result.Result (Fcall × ℕ)) (w : ℕ) → IsAnswer ((one_loaded r w).0)
one_loaded-IsAnswer (Result.ok (fc, _)) w = tt
one_loaded-IsAnswer (Result.err e) w = tt
one_loaded-IsAnswer Result.panic w = (closed, refl)

one_got :
    (offset count : ℕ)
    → 0 < count
    → Loaded loading_one short_file 5 false offset count
        (returns (record zero_fcall { type = Types.rread; dat = take 1 (drop offset short_file) }))
one_got zero count h = (omega arith, refl, λ e. omega arith)
one_got (suc zero) count h = (omega arith, refl, λ e. omega arith)
one_got (suc (suc zero)) count h = (omega arith, refl, λ e. omega arith)
one_got (suc (suc (suc n))) count h = rw (drop-nil n) (omega arith, refl, λ e. omega arith)

one_loaded_lem :
    (tc : Fcall) (w offset count : ℕ)
    → unpack tc.pkt false ≡ Result.ok (decoded (tread 5 offset count) false notag, length tc.pkt)
    → 0 < count
    → Loaded loading_one short_file 5 false offset count (outcome_of ((loading_one tc w).0))
unfolding decoded with_fields
one_loaded_lem tc w offset count e some_count = rw e (one_got offset count some_count)

loading_one-IsLoading : IsLoading loading_one short_file 5 false
loading_one-IsLoading = record {
  answering = λ tc w. one_loaded-IsAnswer (unpack tc.pkt false) w;
  loads = one_loaded_lem;
}

readn-Filled_example :
    Read (read_at loading_one 0) short_file (IsOpen 0 5 false) 3 (0 ∷ 0 ∷ []) 1 (with_world ℕ 0)
readn-Filled_example =
    readn-Filled loading_one short_file 5 false 0 3 (0 ∷ 0 ∷ []) 1 (with_world ℕ 0)
      loading_one-IsLoading (omega arith) (opened_5 0) (omega arith) (omega arith) (omega arith)
      (omega arith)

-- A server that finds all names of each Twalk; its state says where each fid stands.
abbrev qids_for : List Bytes → List Qid
qids_for [] = []
qids_for (n ∷ ns) = record { type = 0; version = 0; path = 0 } ∷ qids_for ns

abbrev all_found : Result.Result (Fcall × ℕ) → (ℕ → List Bytes) → Reply × (ℕ → List Bytes)
all_found (Result.ok (fc, _)) w = (
  back (some (record zero_fcall { type = Types.rwalk; wqid = qids_for fc.wname })) none,
  λ q. if q == fc.newfid then w fc.fid ++ fc.wname else w q,
)
all_found (Result.err e) w = (back (some (record zero_fcall { type = Types.rerror })) none, w)
all_found Result.panic w = (back none (some closed), w)

abbrev finding_all : Fcall → (ℕ → List Bytes) → Reply × (ℕ → List Bytes)
finding_all tc w = all_found (unpack tc.pkt false) w

all_found-IsAnswer :
    (r : Result.Result (Fcall × ℕ)) (w : ℕ → List Bytes) → IsAnswer ((all_found r w).0)
all_found-IsAnswer (Result.ok (fc, _)) w = tt
all_found-IsAnswer (Result.err e) w = tt
all_found-IsAnswer Result.panic w = (closed, refl)

length_same : (n : ℕ) → n == n ≡ true
length_same n = ground arith

all_found_lem :
    (tc : Fcall) (w : ℕ → List Bytes) (fid newfid : ℕ) (names : List Bytes)
    → unpack tc.pkt false ≡ Result.ok (decoded (twalk fid newfid names) false notag, length tc.pkt)
    → length names ≤ 16
    → Moved finding_all
        (λ v. v)
        false
        14
        1
        fid
        newfid
        names
        (outcome_of ((finding_all tc w).0))
        w
        ((finding_all tc w).1)
unfolding decoded with_fields
all_found_lem tc w fid newfid names e few = rw e (λ h. rw (length_same newfid) refl)

finding_all-IsWalking : IsWalking finding_all (λ w. w) false 14 1
finding_all-IsWalking = record {
  answering = λ tc w. all_found-IsAnswer (unpack tc.pkt false) w;
  moves = all_found_lem;
}

abbrev fid_6 : Fid
fid_6 = record fid_5 { fid = 6; walked = false }

abbrev two_fids : Session (ℕ → List Bytes)
two_fids = record (with_world (ℕ → List Bytes) (λ q. [])) {
  fids = update (update (λ p. none) 1 (some fid_6)) 0 (some fid_5);
}

two_fids-CanWalk : CanWalk false 14 1 0 two_fids
two_fids-CanWalk = record {
  f = fid_5;
  g = fid_6;
  from = refl;
  to = refl;
  from_number = omega arith;
  to_number = omega arith;
  dialect = refl;
  fits = omega arith;
  buffers = some_buffers;
}

abbrev names_ab : List Bytes
names_ab = (b'a' ∷ []) ∷ (b'b' ∷ []) ∷ []

names_ab-FitIn : FitIn 14 names_ab
unfolding strs str le16 le8
names_ab-FitIn = ((omega arith, (omega arith, tt)), omega arith)

walk_batches-Arrived_example :
    Batched
      (walk_step finding_all 1)
      (place finding_all (λ w. w) false 14 1)
      1
      (CanWalk false 14 1)
      14
      3
      0
      names_ab
      two_fids
walk_batches-Arrived_example =
    walk_batches-Arrived finding_all (λ w. w) false 14 1 3 0 names_ab two_fids finding_all-IsWalking
      two_fids-CanWalk names_ab-FitIn (omega arith)

-- Remove on a connection that is closed.
abbrev hung_up : Fcall → ℕ → Reply × ℕ
hung_up tc n = (refused closed, n)

remove_panics : remove hung_up 0 (with_world ℕ 0) ≡ panic
unfolding remove rpc give_back put_id nth set_nth pack_tremove pack pack_common new_fcall pint32
    pint8 pint16 ◌⟫◌
remove_panics = refl
