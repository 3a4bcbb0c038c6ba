-- ===== src/Clnt/Tags/Examples.antt =====
-- Walks of a client with two fids, one of which is the root.
use chan.Prelude.{
  ℕ, suc, ◌≡◌, ◌≢◌, ◌≤◌, refl, inl, inr, arith, true, false, Bool-cases, ◌&&◌, leb, ltb, ◌++◌,
  Option, none, some, List, [], ◌∷◌, length,
}
use chan.Prelude.Run.{done, panic, update}
use chan.Wire.Types
use chan.Wire.Types.{Bytes, Fcall, Qid, zero_fcall, notag}
use chan.Wire.Message.{twalk, encode, IsMessage, HasFields, body_bytes, strs, frame}
use chan.Wire.Ints.Laws.{str}
use chan.Wire.Ints.{le8, le16, le32}
use chan.Clnt.Rpc.{ClntError}
use chan.Clnt.Calls
use chan.Clnt.Calls.{FidPtr, returns, Fid, Reply, back, Session, ask, rpc, free_fcall}
use chan.Clnt.Tags.{reqproc, settle, walk}
use chan.Clnt.Tags.Walks.{IsSending, Gives, walk-reqproc_short}

abbrev no_qid : Qid
no_qid = record { type = 0; version = 0; path = 0 }

abbrev fid_of : ℕ → Fid
fid_of n = record { iounit = 0; qid = no_qid; mode = 0; fid = n; user = none; walked = false }

abbrev two_fids : Session ℕ
two_fids = record {
  world = 0;
  msize = 64;
  dotu = false;
  root = some 0;
  fidpool = record { need = 0; maxid = 7; imap = 3 ∷ [] };
  tchan = [];
  fids = update (update (λ p. none) 1 (some (fid_of 1))) 0 (some (fid_of 0));
  next_fid = 2;
}

abbrev name_a : List Bytes
name_a = (b'a' ∷ []) ∷ []

abbrev rwalk_of : List Qid → Fcall
rwalk_of wqid = record zero_fcall { type = Types.rwalk; wqid = wqid }

abbrev gives : Fcall → Fcall → ℕ → Reply × ℕ
gives rc tc n = (back (some rc) none, suc n)

abbrev sends : FidPtr → Fcall → ℕ → Option ClntError × ℕ
sends p tc n = (none, suc n)

sends-IsSending : IsSending sends
sends-IsSending p tc w = refl

rwalk-Gives : (wqid : List Qid) → Gives (gives (rwalk_of wqid)) (rwalk_of wqid)
unfolding ask rpc free_fcall
rwalk-Gives wqid tc s = elim (Bool-cases (leb s.msize (length tc.buf) && ltb (length s.tchan) 16)) [
  | inl kept ↦ (record s { world = suc s.world; tchan = s.tchan ++ tc ∷ [] }, rw kept refl, refl)
  | inr dropped ↦ (record s { world = suc s.world }, rw dropped refl, refl)
]

ne_10 : ◌≢◌ {A = ℕ} 1 0
ne_10 e = omega arith

-- A response with a Qid for the name.
abbrev one_qid : List Qid
one_qid = record { type = 0; version = 0; path = 7 } ∷ []

abbrev twalk_sent : Fcall
twalk_sent = record zero_fcall { type = Types.twalk }

-- Two names, of which the server finds the first.
abbrev names_ab : List Bytes
names_ab = (b'a' ∷ []) ∷ (b'b' ∷ []) ∷ []

names_ab-IsMessage : IsMessage (twalk 0 1 names_ab) false
unfolding HasFields body_bytes strs str le32 le16 le8
names_ab-IsMessage = record {
  fields = (omega arith, omega arith, omega arith, (omega arith, (omega arith, tt)));
  size = omega arith;
}

names_ab_fit : length (encode (twalk 0 1 names_ab) false notag) ≤ 64
unfolding encode frame body_bytes strs str le32 le16 le8
names_ab_fit = omega arith

walk-reqproc_short_example :
    (h : Fid) × (s1 s2 s3 : Session ℕ) × (Calls.walk
        (gives (rwalk_of one_qid))
        0
        1
        names_ab
        two_fids
      ≡ done (returns one_qid, s1))
    × (walk sends 0 1 names_ab two_fids ≡ done (returns tt, s2))
    × (reqproc (record { tc = twalk_sent; rc = some (rwalk_of one_qid); fid = 1 }) s2
        ≡ done (returns tt, s3))
    × (s1.fids 1 ≡ some (fid_of 1))
    × (s3.fids 1 ≡ some h)
    × (h.walked ≡ true)
walk-reqproc_short_example =
    walk-reqproc_short (gives (rwalk_of one_qid)) sends two_fids 0 1 (fid_of 0) (fid_of 1) names_ab
      twalk_sent (rwalk_of one_qid) sends-IsSending (rwalk-Gives one_qid)
      (omega arith, omega arith, tt) refl refl ne_10 names_ab-IsMessage names_ab_fit refl refl
      (omega arith)

-- The response to a Topen changes nothing, and that to a request of a connection that ended is not there.
topen_settles :
    reqproc
      (record {
        tc = record zero_fcall { type = Types.topen };
        rc = some (record zero_fcall { type = Types.ropen; iounit = 8 });
        fid = 1;
      })
      two_fids
    ≡ done (returns tt, two_fids)
unfolding reqproc settle
topen_settles = refl

no_response : reqproc (record { tc = twalk_sent; rc = none; fid = 1 }) two_fids ≡ panic
unfolding reqproc settle
no_response = refl
