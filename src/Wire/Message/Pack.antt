-- ===== src/Wire/Message/Pack.antt =====
-- Every Pack function writes the bytes of its message, and refuses the buffers that are too short.
use chan.Prelude.{
  ◌⊎◌, inl, inr, ℕ, ◌+◌, ◌*◌, ◌≤◌, ◌<◌, ◌≡◌, refl, ap, sym, ◌∙◌, arith, Bool, true, false, List, [],
  ◌∷◌, ◌++◌, append_assoc, if◌then◌else◌, length, length-append, All,
}
use native.Mathlib.Nat.{mod-eq_of_lt}
use chan.Wire.Result.{ok, err, buffer_too_small, ok-injective}
use chan.Wire.Types.{Bytes, Fcall, Qid, notag, IsU16}
use chan.Wire.Ints.{le32, le64}
use chan.Wire.Ints.Laws.{
  str, Puts, ◌⊕◌, pint8-Puts, pint16-Puts, pint32-Puts, pint64-Puts, pstr-Puts, stay-Puts,
  when-Puts, length-le8, length-le16, length-le32, length-le64, length-str,
}
use chan.Wire.Stat.Laws.{qid_bytes, pqid-Puts, pstat-Puts, length-qid_bytes, length-dir_bytes}
use chan.Wire.PackT.{
  pstrs, sum_lengths, pack_tversion, pack_tauth, pack_tflush, pack_tattach, pack_twalk, pack_topen,
  pack_tcreate, pack_tread, pack_tclunk, pack_tremove, pack_tstat, pack_twstat,
}
use chan.Wire.PackR.{
  pqids, pack_rversion, pack_rauth, pack_rerror, pack_rflush, pack_rattach, pack_rwalk, pack_ropen,
  pack_rcreate, pack_rwrite, pack_rclunk, pack_rremove, pack_rstat, pack_rwstat,
}
use chan.Wire.Message.{
  Message, tversion, rversion, tauth, rauth, tattach, rattach, rerror, tflush, rflush, twalk, rwalk,
  topen, ropen, tcreate, rcreate, tread, rread, twrite, rwrite, tclunk, rclunk, tremove, rremove,
  tstat, rstat, twstat, rwstat, strs, qids, encode, body_bytes, type_of, only, HasFields, IsMessage,
  pack_message,
}
use chan.Wire.Message.Data.{twrite_into, rread_into}
use chan.Wire.Message.Frame.{PacksInto, pack_into}

ruleset lengths = (
  length-append, length-le8, length-le16, length-le32, length-le64, length-str, length-qid_bytes,
  length-dir_bytes,
)

pstrs-Puts : (ws : List Bytes) → All (λ w. IsU16 (length w)) ws → Puts (pstrs ws) (strs ws)
unfolding pstrs strs
pstrs-Puts [] h = stay-Puts
pstrs-Puts (w ∷ ws) (hw, hws) = pstr-Puts w hw ⊕ pstrs-Puts ws hws

length-strs : (ws : List Bytes) → length (strs ws) ≡ length ws * 2 + sum_lengths ws
unfolding strs sum_lengths
length-strs [] = refl
length-strs (w ∷ ws) = omega (arith, length-append (str w) (strs ws), length-str w, length-strs ws)

pqids-Puts : (qs : List Qid) → Puts (pqids qs) (qids qs)
unfolding pqids qids
pqids-Puts [] = stay-Puts
pqids-Puts (q ∷ qs) = pqid-Puts q ⊕ pqids-Puts qs

length-qids : (qs : List Qid) → length (qids qs) ≡ length qs * 13
unfolding qids
length-qids [] = refl
length-qids (q ∷ qs) =
    omega (arith, length-append (qid_bytes q) (qids qs), length-qid_bytes q, length-qids qs)

length-only : (dotu : Bool) (xs : Bytes) → length (only dotu xs) ≡ (if dotu then length xs else 0)
length-only true xs = refl
length-only false xs = refl

-- Both outcomes, for every message.
pack_message_into :
    (m : Message) (dotu : Bool) (fc : Fcall)
    → IsMessage m dotu
    → PacksInto (pack_message m dotu fc) fc.buf (encode m dotu notag)
unfolding pack_message encode type_of body_bytes HasFields pack_tversion pack_tauth pack_tflush
    pack_tattach pack_twalk pack_topen pack_tcreate pack_tread pack_tclunk pack_tremove pack_tstat
    pack_twstat pack_rversion pack_rauth pack_rerror pack_rflush pack_rattach pack_rwalk pack_ropen
    pack_rcreate pack_rwrite pack_rclunk pack_rremove pack_rstat pack_rwstat
pack_message_into (tversion msize version) dotu fc h =
    pack_into fc _ _ _ (pint32-Puts _ ⊕ pstr-Puts _ h.fields.1) (simp lengths (omega arith)) h.size
pack_message_into (rversion msize version) dotu fc h =
    pack_into fc _ _ _ (pint32-Puts _ ⊕ pstr-Puts _ h.fields.1) (simp lengths (omega arith)) h.size
pack_message_into (tauth afid uname aname unamenum) dotu fc h =
    pack_into fc _ _ _
      (pint32-Puts _
        ⊕ pstr-Puts _ h.fields.1
        ⊕ pstr-Puts _ h.fields.2
        ⊕ when-Puts dotu _ (pint32-Puts _))
      (simp (lengths, length-only) (ground arith)) h.size
pack_message_into (rauth qid) dotu fc h =
    pack_into fc _ _ _ (pqid-Puts _) (simp lengths (omega arith)) h.size
pack_message_into (tattach fid afid uname aname unamenum) dotu fc h =
    pack_into fc _ _ _
      (pint32-Puts _
        ⊕ pint32-Puts _
        ⊕ pstr-Puts _ h.fields.2
        ⊕ pstr-Puts _ h.fields.3
        ⊕ when-Puts dotu _ (pint32-Puts _))
      (simp (lengths, length-only) (ground arith)) h.size
pack_message_into (rattach qid) dotu fc h =
    pack_into fc _ _ _ (pqid-Puts _) (simp lengths (omega arith)) h.size
pack_message_into (rerror ename ecode) dotu fc h =
    pack_into fc _ _ _ (pstr-Puts _ h.fields.0 ⊕ when-Puts dotu _ (pint32-Puts _))
      (simp (lengths, length-only) (ground arith)) h.size
pack_message_into (tflush oldtag) dotu fc h =
    pack_into fc _ _ _ (pint16-Puts _) (simp lengths (omega arith)) h.size
pack_message_into rflush dotu fc h = pack_into fc _ _ _ (stay-Puts) refl h.size
pack_message_into (rwalk wqid) dotu fc h = rw (mod-eq_of_lt h.fields.0) (
    pack_into fc _ _ _ (pint16-Puts _ ⊕ pqids-Puts wqid) (simp (lengths, length-qids) (omega arith))
      h.size)
pack_message_into (topen fid mode) dotu fc h =
    pack_into fc _ _ _ (pint32-Puts _ ⊕ pint8-Puts _) (simp lengths (omega arith)) h.size
pack_message_into (ropen qid iounit) dotu fc h =
    pack_into fc _ _ _ (pqid-Puts _ ⊕ pint32-Puts _) (simp lengths (omega arith)) h.size
pack_message_into (tcreate fid name perm mode ext) dotu fc h =
    pack_into fc _ _ _
      (pint32-Puts _
        ⊕ pstr-Puts _ h.fields.1
        ⊕ pint32-Puts _
        ⊕ pint8-Puts _
        ⊕ when-Puts dotu _ (pstr-Puts _ h.fields.4))
      (simp (lengths, length-only) (ground arith)) h.size
pack_message_into (rcreate qid iounit) dotu fc h =
    pack_into fc _ _ _ (pqid-Puts _ ⊕ pint32-Puts _) (simp lengths (omega arith)) h.size
pack_message_into (tread fid offset count) dotu fc h =
    pack_into fc _ _ _ (pint32-Puts _ ⊕ pint64-Puts _ ⊕ pint32-Puts _) (simp lengths (omega arith))
      h.size
pack_message_into (rwrite count) dotu fc h =
    pack_into fc _ _ _ (pint32-Puts _) (simp lengths (omega arith)) h.size
pack_message_into (tclunk fid) dotu fc h =
    pack_into fc _ _ _ (pint32-Puts _) (simp lengths (omega arith)) h.size
pack_message_into rclunk dotu fc h = pack_into fc _ _ _ (stay-Puts) refl h.size
pack_message_into (tremove fid) dotu fc h =
    pack_into fc _ _ _ (pint32-Puts _) (simp lengths (omega arith)) h.size
pack_message_into rremove dotu fc h = pack_into fc _ _ _ (stay-Puts) refl h.size
pack_message_into (tstat fid) dotu fc h =
    pack_into fc _ _ _ (pint32-Puts _) (simp lengths (omega arith)) h.size
pack_message_into rwstat dotu fc h = pack_into fc _ _ _ (stay-Puts) refl h.size
pack_message_into (twalk fid newfid wname) dotu fc h = rw (mod-eq_of_lt h.fields.2) (
    pack_into fc _ _ _ (pint32-Puts _ ⊕ pint32-Puts _ ⊕ pint16-Puts _ ⊕ pstrs-Puts wname h.fields.3)
      (simp (lengths, length-strs) (omega arith)) h.size)
pack_message_into (rstat d) dotu fc h = rw (mod-eq_of_lt h.fields.fits) (
    pack_into fc _ _ _ (pint16-Puts _ ⊕ pstat-Puts d dotu h.fields) (simp lengths (omega arith))
      h.size)
pack_message_into (twstat fid d) dotu fc h = rw (mod-eq_of_lt h.fields.1.fits) (
    pack_into fc _ _ _ (pint32-Puts _ ⊕ pint16-Puts _ ⊕ pstat-Puts d dotu h.fields.1)
      (simp lengths (omega arith)) h.size)
pack_message_into (twrite fid offset bytes) dotu fc h =
    rw
      (
        ← append_assoc (le32 fid) (le64 offset) (le32 (length bytes) ++ bytes),
        ← append_assoc (le32 fid ++ le64 offset) (le32 (length bytes)) bytes,
        append_assoc (le32 fid) (le64 offset) (le32 (length bytes)),
      )
      (twrite_into fc fid offset (length bytes) bytes (omega (arith, (simp lengths at h.size))))
pack_message_into (rread bytes) dotu fc h =
    rread_into fc bytes (omega (arith, (simp lengths at h.size)))

-- Every Pack function, given a message whose fields fit and a buffer that has room for it, returns
-- a message whose packet is the size, the type, the tag NOTAG and the body of the protocol.
pub pack_message-encode :
    (m : Message) (dotu : Bool) (fc : Fcall)
    → IsMessage m dotu
    → length (encode m dotu notag) ≤ length fc.buf
    → (fc' : Fcall) × (pack_message m dotu fc ≡ ok fc') × (fc'.pkt ≡ encode m dotu notag)
pack_message-encode m dotu fc h room = (pack_message_into m dotu fc h).0 room

-- Every Pack function, given a message whose fields fit and a buffer that is shorter than its bytes,
-- returns the error "buffer too small".
pub pack_message_short :
    (m : Message) (dotu : Bool) (fc : Fcall)
    → IsMessage m dotu
    → length fc.buf < length (encode m dotu notag)
    → pack_message m dotu fc ≡ err buffer_too_small
pack_message_short m dotu fc h short = (pack_message_into m dotu fc h).1 short

le-or-lt : (a b : ℕ) → (a ≤ b) ⊎ (b < a)
le-or-lt a b = grind arith

-- A message that a Pack function returns has the packet of its encoding.
pub packed_packet :
    (m : Message) (dotu : Bool) (fc fc' : Fcall)
    → IsMessage m dotu
    → pack_message m dotu fc ≡ ok fc'
    → fc'.pkt ≡ encode m dotu notag
packed_packet m dotu fc fc' h e = elim (le-or-lt (length (encode m dotu notag)) (length fc.buf)) [
  | inl room ↦
      let (fc1, packed, pkt) = pack_message-encode m dotu fc h room in
      ap (λ (f : Fcall). f.pkt) (ok-injective (sym e ∙ packed)) ∙ pkt
  | inr short ↦ cc (e, pack_message_short m dotu fc h short)
]
