-- ===== src/Wire/Message/Examples.antt =====
-- Runs of the wire format on concrete messages, and the theorems at concrete inputs.
use chan.Prelude.{
  ℕ, ◌+◌, ◌≤◌, ◌<◌, ◌^◌, ◌≡◌, ◌≢◌, refl, inl, inr, arith, true, false, [], ◌∷◌, ◌++◌, length,
}
use chan.Wire.Result.{ok, err, panic, buffer_too_small, ◌>>=◌}
use chan.Wire.Types
use chan.Wire.Types.{Bytes, Fcall, Qid, Dir, notag, nofid, zero_qid, zero_dir}
use chan.Wire.Ints.{
  le8, le16, le32, le64, pint8, pint16, pint32, copy, ◌⟫◌, stay, gint8, gint16, gint32,
}
use chan.Wire.Stat.{statsz, pack_dir, unpack_dir}
use chan.Wire.Stat.Laws.{qid_bytes, wire_dir, IsDir}
use chan.Wire.Stat.RoundTrip.{unpack_dir-pack_dir, pack_dir_short}
use chan.Wire.Pack.{new_fcall, pack, pack_common, set_tag}
use chan.Wire.PackT.{pack_tclunk}
use chan.Wire.PackR.{pack_rread, init_rread, copy_data, pack_rwstat}
use chan.Wire.Unpack.{unpack, unpack_header, unpack_body, unpack_fid, header_fcall}
use chan.Wire.Unpack.Size.{unpack_bounds, unpack-append}
use chan.Wire.Message.{
  tclunk, rwstat, type_of, body_bytes, frame, encode, decoded, HasFields, IsMessage, pack_message,
}
use chan.Wire.Message.Pack.{pack_message-encode, pack_message_short}
use chan.Wire.Message.Tag.{set_tag-encode}
use chan.Wire.Message.Unpack.{unpack-encode, unpack-pack_message}
use chan.Wire.Message.Faults.{
  unpack-rwstat_refused, unpack_panics, unpack-twstat_cut, HasStatFields, twstat_body, nameless,
}

-- Tclunk of fid 7 with tag NOTAG.
abbrev clunk_packet : Bytes
clunk_packet = 11 ∷ 0 ∷ 0 ∷ 0 ∷ 120 ∷ 255 ∷ 255 ∷ 7 ∷ 0 ∷ 0 ∷ 0 ∷ []

abbrev packed_clunk : Fcall
packed_clunk = record (Types.zero_fcall) {
  size = 11;
  type = Types.tclunk;
  tag = notag;
  fid = 7;
  pkt = clunk_packet;
  buf = clunk_packet ++ 0 ∷ [];
}

pack_clunk_run : pack_message (tclunk 7) false (new_fcall 12) ≡ ok packed_clunk
unfolding pack_message pack_tclunk pack pack_common new_fcall pint32 pint8 pint16 ◌⟫◌
pack_clunk_run = refl

-- Rread of two bytes, in a buffer that held others.
pack_rread_run :
    (pack_rread
        (record (Types.zero_fcall) {
          buf = 9 ∷ 9 ∷ 9 ∷ 9 ∷ 9 ∷ 9 ∷ 9 ∷ 9 ∷ 9 ∷ 9 ∷ 9 ∷ 9 ∷ 9 ∷ 9 ∷ [];
        })
        (1 ∷ 2 ∷ [])
      >>= λ fc. ok fc.pkt)
    ≡ ok (13 ∷ 0 ∷ 0 ∷ 0 ∷ 117 ∷ 255 ∷ 255 ∷ 2 ∷ 0 ∷ 0 ∷ 0 ∷ 1 ∷ 2 ∷ [])
unfolding pack_rread init_rread copy_data pack_common pint32 pint8 pint16 ◌⟫◌ copy
pack_rread_run = refl

clunk-IsMessage : IsMessage (tclunk 7) false
unfolding HasFields body_bytes le32
clunk-IsMessage = record { fields = omega arith; size = omega arith }

clunk_ne_rwstat : tclunk 7 ≢ rwstat
clunk_ne_rwstat e = cc

unpack-pack_message_example :
    unpack (clunk_packet ++ 1 ∷ []) false ≡ ok (decoded (tclunk 7) false notag, length clunk_packet)
unpack-pack_message_example =
    unpack-pack_message (tclunk 7) false (new_fcall 12) packed_clunk (1 ∷ []) clunk-IsMessage
      (inl clunk_ne_rwstat) pack_clunk_run

rwstat-IsMessage : IsMessage rwstat true
unfolding HasFields body_bytes
rwstat-IsMessage = record { fields = tt; size = omega arith }

unpack-encode_example :
    unpack (encode rwstat true 5 ++ 1 ∷ []) true
    ≡ ok (decoded rwstat true 5, length (encode rwstat true 5))
unpack-encode_example =
    unpack-encode rwstat true 5 (1 ∷ []) rwstat-IsMessage (omega arith) (inr refl)

clunk_room : length (encode (tclunk 7) false notag) ≤ length (new_fcall 12).buf
unfolding encode frame type_of body_bytes new_fcall le32 le16 le8
clunk_room = omega arith

pack_message-encode_example :
    (fc' : Fcall) × (pack_message (tclunk 7) false (new_fcall 12) ≡ ok fc')
    × (fc'.pkt ≡ encode (tclunk 7) false notag)
pack_message-encode_example =
    pack_message-encode (tclunk 7) false (new_fcall 12) clunk-IsMessage clunk_room

clunk_short : length (new_fcall 10).buf < length (encode (tclunk 7) false notag)
unfolding encode frame type_of body_bytes new_fcall le32 le16 le8
clunk_short = omega arith

pack_message_short_example : pack_message (tclunk 7) false (new_fcall 10) ≡ err buffer_too_small
pack_message_short_example =
    pack_message_short (tclunk 7) false (new_fcall 10) clunk-IsMessage clunk_short

clunk_encoded : packed_clunk.pkt ≡ encode (tclunk 7) false notag
unfolding encode frame type_of body_bytes le32 le16 le8
clunk_encoded = refl

set_tag-encode_example :
    (fc' : Fcall) × (set_tag packed_clunk 3 ≡ ok fc')
    × (fc'.tag ≡ 3)
    × (fc'.pkt ≡ encode (tclunk 7) false 3)
set_tag-encode_example = set_tag-encode (tclunk 7) false notag 3 packed_clunk clunk_encoded

abbrev sample_dir : Dir
sample_dir = record zero_dir {
  mode = 0x800001ed;
  length = 4096;
  name = 97 ∷ 98 ∷ [];
  uid = 99 ∷ [];
  uidnum = 1000;
}

abbrev blank : ℕ → Bytes
blank n = (new_fcall n).buf

sample-IsDir : IsDir sample_dir true
unfolding statsz
sample-IsDir = omega arith

sample_room : statsz sample_dir true ≤ length (blank 70)
unfolding statsz new_fcall
sample_room = omega arith

unpack_dir-pack_dir_example :
    (buf' : Bytes) × (pack_dir sample_dir (blank 70) true ≡ ok (statsz sample_dir true, buf'))
    × (unpack_dir buf' true ≡ ok (wire_dir sample_dir true zero_dir))
unpack_dir-pack_dir_example =
    unpack_dir-pack_dir sample_dir (blank 70) true sample-IsDir sample_room

sample_short : length (blank 65) < statsz sample_dir true
unfolding statsz new_fcall
sample_short = omega arith

pack_dir_short_example : pack_dir sample_dir (blank 65) true ≡ ok (0, blank 65)
pack_dir_short_example = pack_dir_short sample_dir (blank 65) true sample_short

-- The struct that Unpack makes of `clunk_packet`.
abbrev read_clunk : Fcall
read_clunk = record (header_fcall 11 Types.tclunk notag clunk_packet) { fid = 7 }

unpack_clunk_run : unpack clunk_packet false ≡ ok (read_clunk, 11)
unfolding unpack unpack_header unpack_body unpack_fid gint8 gint16 gint32
unpack_clunk_run = refl

unpack_bounds_example : (7 ≤ 11) × (11 ≤ length clunk_packet)
unpack_bounds_example = unpack_bounds clunk_packet false read_clunk 11 unpack_clunk_run

unpack-append_example : unpack (clunk_packet ++ 5 ∷ 6 ∷ []) false ≡ ok (read_clunk, 11)
unpack-append_example = unpack-append clunk_packet (5 ∷ 6 ∷ []) false read_clunk 11 unpack_clunk_run

-- The packet that PackRwstat writes.
unpack-rwstat_refused_example :
    unpack (7 ∷ 0 ∷ 0 ∷ 0 ∷ 127 ∷ 255 ∷ 255 ∷ []) false
    ≢ ok (header_fcall 7 Types.rwstat notag (7 ∷ 0 ∷ 0 ∷ 0 ∷ 127 ∷ 255 ∷ 255 ∷ []), 7)
unpack-rwstat_refused_example =
    unpack-rwstat_refused 7 0 0 0 255 255 []
      (header_fcall 7 Types.rwstat notag (7 ∷ 0 ∷ 0 ∷ 0 ∷ 127 ∷ 255 ∷ 255 ∷ [])) 7

rwstat_packed :
    (pack_rwstat (new_fcall 9) >>= λ fc. ok fc.pkt) ≡ ok (7 ∷ 0 ∷ 0 ∷ 0 ∷ 127 ∷ 255 ∷ 255 ∷ [])
unfolding pack_rwstat pack pack_common new_fcall pint32 pint8 pint16 ◌⟫◌ stay
rwstat_packed = refl

unpack_panics_example : unpack (frame Types.tversion 0xffff [] ++ []) false ≡ panic
unpack_panics_example = unpack_panics Types.tversion 0xffff [] false (inl refl) (omega arith)

sample_fields : HasStatFields sample_dir
sample_fields = omega arith

cut_size : length (twstat_body 7 49 sample_dir 2 (97 ∷ [])) + 7 < 2 ^ 32
unfolding le8 le16 le32 le64 qid_bytes
cut_size = omega arith

unpack-twstat_cut_example :
    (fc : Fcall) × (unpack
        (frame Types.twstat 1 (twstat_body 7 49 sample_dir 2 (97 ∷ [])) ++ [])
        true
      ≡ ok (fc, length (twstat_body 7 49 sample_dir 2 (97 ∷ [])) + 7))
    × (fc.fid ≡ 7)
    × (fc.dir ≡ nameless sample_dir)
unpack-twstat_cut_example =
    unpack-twstat_cut 7 49 2 1 sample_dir (97 ∷ []) [] true (omega arith) (omega arith)
      (omega arith) sample_fields (omega arith) (omega arith) cut_size
