-- ===== src/Srv/Recv/Delivery.antt =====
-- From end to end: the messages that a client packed reach the server's handlers, however the
-- connection cuts their bytes.
use chan.Prelude.{
  ℕ, zero, suc, ◌+◌, ◌*◌, ◌^◌, ◌≤◌, ◌<◌, ◌≡◌, ◌≢◌, ◌⊎◌, inl, inr, refl, sym, ◌∙◌, ap, arith, Bool,
  true, List, [], ◌∷◌, ◌++◌, ltb-eq-false, length, take, drop, drop-append, length-append, All,
}
use mathlib.Core.Path.{ap₂}
use chan.Wire.Result
use chan.Wire.Types.{Bytes, Fcall, IsU16}
use chan.Wire.Ints.{gint32}
use chan.Wire.Message.{Message, rwstat, IsMessage, encode, decoded, type_of, body_bytes}
use chan.Wire.Message.Frame.{length-frame}
use chan.Wire.Message.Unpack.{unpack-encode, frame_size_read}
use chan.Srv.Recv.{
  got, unpacked, next, Input, End, waiting, closed, panicked, stuck, and_also, recv,
}
use chan.Srv.Recv.Frames.{held, next_long}
use chan.Srv.Recv.Chunks.{frames, scan, frames_round, scanned, frames-append, continue}
use chan.Srv.Recv.Buffer.{IsSameEnd, waits, closes, panics, sticks}
use chan.Srv.Recv.Stream.{recv-frames}

-- A message and its tag.
abbrev pub Letter : Type 0
Letter = Message × ℕ

-- The bytes of some letters, one behind the other, and the structs that they should be read as.
abbrev pub stream : Bool → List Letter → Bytes
stream dotu [] = []
stream dotu ((m, tag) ∷ ls) = encode m dotu tag ++ stream dotu ls

abbrev pub delivered : Bool → List Letter → List Fcall
delivered dotu [] = []
delivered dotu ((m, tag) ∷ ls) = decoded m dotu tag ∷ delivered dotu ls

-- A letter whose fields fit, which is not too long, and which Unpack knows in this dialect.
abbrev pub IsLetter : ℕ → Bool → Letter → Type 0
IsLetter msize dotu (m, tag) =
    IsMessage m dotu
    × IsU16 tag
    × ((m ≢ rwstat) ⊎ (dotu ≡ true))
    × (length (encode m dotu tag) ≤ msize)

length-encode :
    (m : Message) (dotu : Bool) (tag : ℕ)
    → length (encode m dotu tag) ≡ length (body_bytes m dotu) + 7
unfolding encode
length-encode m dotu tag = length-frame (type_of m) tag (body_bytes m dotu)

encode_read :
    (m : Message) (dotu : Bool) (tag : ℕ) (more : Bytes)
    → IsMessage m dotu
    → (rest : Bytes) × (gint32 (encode m dotu tag ++ more)
        ≡ Result.ok (length (body_bytes m dotu) + 7, rest))
unfolding encode
encode_read m dotu tag more h = (_, frame_size_read (type_of m) tag (body_bytes m dotu) more h.size)

letter_next :
    (msize : ℕ) (dotu : Bool) (m : Message) (tag : ℕ) (more : Bytes)
    → IsLetter msize dotu (m, tag)
    → next msize dotu (held (encode m dotu tag ++ more) [])
      ≡ got (decoded m dotu tag) (length (encode m dotu tag))
unfolding unpacked
letter_next msize dotu m tag more (h, t, known, fits) =
    let p = encode m dotu tag ++ more in
    let (rest, size) = encode_read m dotu tag more h in
    let total : length p ≡ length (body_bytes m dotu) + 7 + length more =
      rw (length-append (encode m dotu tag) more, length-encode m dotu tag) refl in
    next_long msize dotu p [] (length (body_bytes m dotu) + 7) rest (omega (arith, total)) size
    ∙ rw (
      ltb-eq-false msize (length (body_bytes m dotu) + 7) (omega (arith, length-encode m dotu tag)),
      ltb-eq-false (length p) (length (body_bytes m dotu) + 7) (omega (arith, total)),
      unpack-encode m dotu tag more h t known,
    )

-- The messages of a stream of letters are the letters.
frames-stream :
    (msize : ℕ) (dotu : Bool) (ls : List Letter)
    → All (IsLetter msize dotu) ls
    → frames msize dotu (stream dotu ls) ≡ (delivered dotu ls, waiting (held [] []))
unfolding frames scan next
frames-stream msize dotu [] h = refl
frames-stream msize dotu ((m, tag) ∷ ls) (h, hs) =
    let p = stream dotu ((m, tag) ∷ ls) in
    frames_round msize dotu p
    ∙ ap (scanned (frames msize dotu) p) (letter_next msize dotu m tag (stream dotu ls) h)
    ∙ ap (λ r. and_also (decoded m dotu tag ∷ []) (frames msize dotu r))
        (drop-append (encode m dotu tag) (stream dotu ls))
    ∙ ap (λ r. and_also (decoded m dotu tag ∷ []) r) (frames-stream msize dotu ls hs)

take-drop : (n : ℕ) (xs : Bytes) → take n xs ++ drop n xs ≡ xs
take-drop zero xs = refl
take-drop (suc n) [] = refl
take-drop (suc n) (x ∷ xs) = ap (λ l. x ∷ l) (take-drop n xs)

take_all : (n : ℕ) (xs : Bytes) → length xs ≤ n → take n xs ≡ xs
take_all zero [] h = refl
take_all zero (x ∷ xs) h = absurd (omega arith)
take_all (suc n) [] h = refl
take_all (suc n) (x ∷ xs) h = ap (λ l. x ∷ l) (take_all n xs (omega arith))

-- Where the whole stream ends by waiting, so does every part of it.
waits_within :
    (msize : ℕ) (dotu : Bool) (e g : End) (gcs ds : List Fcall) (rest : Bytes) (w : Input)
    → IsSameEnd msize e g
    → continue msize dotu (gcs, g) rest ≡ (ds, waiting w)
    → (i : Input) × (e ≡ waiting i)
waits_within msize dotu _ _ gcs ds rest w (waits p more part) h = (held p more, refl)
waits_within msize dotu _ _ gcs ds rest w closes h = absurd (closed_not_waiting (ap (λ r. r.1) h))
  where
    closed_not_waiting : closed ≢ waiting w
    closed_not_waiting e = cc
waits_within msize dotu _ _ gcs ds rest w panics h = absurd (panicked_not_waiting (ap (λ r. r.1) h))
  where
    panicked_not_waiting : panicked ≢ waiting w
    panicked_not_waiting e = cc
waits_within msize dotu _ _ gcs ds rest w sticks h = absurd (stuck_not_waiting (ap (λ r. r.1) h))
  where
    stuck_not_waiting : stuck ≢ waiting w
    stuck_not_waiting e = cc

frames_nil : (msize : ℕ) (dotu : Bool) → frames msize dotu [] ≡ ([], waiting (held [] []))
unfolding frames scan next
frames_nil msize dotu = refl

-- Letters whose fields fit, which Unpack knows in this dialect, and each no longer than the message
-- size, that come in over a connection in pieces of any sizes, are received one by one, in order and in
-- full, with nothing else; then the connection ends. There are more Reads than bytes, the message size
-- is more than 4 and eight of it fit 32 bits; what the buffer held before does not matter.
pub recv-stream :
    (msize : ℕ) (dotu : Bool) (ls : List Letter) (more : Bytes) (sizes : List ℕ)
    → 4 < msize
    → msize * 8 < 2 ^ 32
    → All (IsLetter msize dotu) ls
    → length (stream dotu ls) < length sizes
    → recv msize dotu (held [] more) (stream dotu ls) sizes ≡ (delivered dotu ls, closed)
recv-stream msize dotu ls more sizes large small h enough =
    let st = stream dotu ls in
    let run = recv msize dotu (held [] more) st sizes in
    let (n, (found, end, waited, most)) =
      recv-frames msize dotu large small [] more st sizes (omega arith) (frames_nil msize dotu) in
    let part = frames msize dotu (take n st) in
    let parts : continue msize dotu part (drop n st) ≡ (delivered dotu ls, waiting (held [] [])) =
      sym (frames-append msize dotu (take n st) (drop n st))
      ∙ ap (frames msize dotu) (take-drop n st)
      ∙ frames-stream msize dotu ls h in
    elim end [
      | inl same ↦
          let (i, e) =
            waits_within msize dotu run.1 part.1 part.0 (delivered dotu ls) (drop n st) (held [] [])
              same parts in
          absurd (too_many (waited i e) most)
      | inr (over, all_read) ↦
          let whole : part ≡ (delivered dotu ls, waiting (held [] [])) =
            ap (frames msize dotu) (take_all n st all_read) ∙ frames-stream msize dotu ls h in
          ap₂ (λ fcs e. (fcs, e)) (found ∙ ap (λ r. r.0) whole) over
    ]
  where
    too_many : {n : ℕ} → length sizes ≤ n → ¬ (n ≤ length (stream dotu ls))
    too_many {n} a b = omega arith
