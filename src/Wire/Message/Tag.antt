-- ===== src/Wire/Message/Tag.antt =====
-- SetTag on a packed message.
use chan.Prelude.{ℕ, ◌≡◌, refl, arith, Bool, ◌++◌, ltb-eq-false, length, drop}
use chan.Wire.Result.{ok}
use chan.Wire.Types.{Bytes, Fcall}
use chan.Wire.Ints.{le8, le16, le32, pint16, skip}
use chan.Wire.Pack.{set_tag}
use chan.Wire.Message.{Message, frame, encode, type_of, body_bytes}

-- SetTag overwrites the two bytes of the tag, and nothing else of the packet.
frame-set_tag :
    (type old tag : ℕ) (body : Bytes) (fc : Fcall)
    → fc.pkt ≡ frame type old body
    → (fc' : Fcall) × (set_tag fc tag ≡ ok fc') × (fc'.tag ≡ tag) × (fc'.pkt ≡ frame type tag body)
unfolding set_tag frame skip pint16 le32 le16 le8
frame-set_tag type old tag body fc e = (
  record fc {
    tag = tag;
    pkt = frame type tag body;
    buf = frame type tag body ++ drop (length fc.pkt) fc.buf;
  },
  rw (e, ltb-eq-false (length (frame type old body)) 5 (omega arith)),
  refl,
  refl,
)

-- After SetTag the packet of a message is its encoding with that tag.
pub set_tag-encode :
    (m : Message) (dotu : Bool) (old tag : ℕ) (fc : Fcall)
    → fc.pkt ≡ encode m dotu old
    → (fc' : Fcall) × (set_tag fc tag ≡ ok fc') × (fc'.tag ≡ tag) × (fc'.pkt ≡ encode m dotu tag)
unfolding encode
set_tag-encode m dotu old tag fc e = frame-set_tag (type_of m) old tag (body_bytes m dotu) fc e
