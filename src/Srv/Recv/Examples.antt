-- ===== src/Srv/Recv/Examples.antt =====
-- Runs of the receive loop of p/srv/conn.go.
use chan.Prelude.{ℕ, ◌^◌, ◌<◌, ◌≡◌, ◌≢◌, inl, refl, arith, false, List, [], ◌∷◌, ◌++◌, length}
use chan.Wire.Types.{notag}
use chan.Wire.Ints.{le8, le16, le32}
use chan.Wire.Pack.{zeros}
use chan.Wire.Message.{tclunk, rwstat, type_of, body_bytes, frame, encode, HasFields, IsMessage}
use chan.Srv.Recv.{waiting, closed, next, recv}
use chan.Srv.Recv.Frames.{held}
use chan.Srv.Recv.Chunks.{frames, scan, frames-append, continue}
use chan.Srv.Recv.Stream.{recv-frames, IsRead}
use chan.Srv.Recv.Delivery.{Letter, stream, delivered, IsLetter, recv-stream}

-- Two messages, Tclunk of fid 7 and of fid 8.
abbrev two_letters : List Letter
two_letters = (tclunk 7, 3) ∷ (tclunk 8, notag) ∷ []

clunk-IsMessage : (fid : ℕ) → fid < 2 ^ 32 → IsMessage (tclunk fid) false
unfolding HasFields body_bytes le32
clunk-IsMessage fid h = record { fields = h; size = omega arith }

clunk-IsLetter : (fid tag : ℕ) → fid < 2 ^ 32 → tag < 2 ^ 16 → IsLetter 64 false (tclunk fid, tag)
unfolding encode frame type_of body_bytes le32 le16 le8
clunk-IsLetter fid tag h t = (clunk-IsMessage fid h, t, inl ne_rwstat, omega arith)
  where
    ne_rwstat : tclunk fid ≢ rwstat
    ne_rwstat e = cc

short_stream : length (stream false two_letters) < length (zeros 23)
unfolding encode frame type_of body_bytes le32 le16 le8
short_stream = omega arith

recv-stream_example :
    recv 64 false (held [] []) (stream false two_letters) (zeros 23)
    ≡ (delivered false two_letters, closed)
recv-stream_example =
    recv-stream 64 false two_letters [] (zeros 23) (omega arith) (omega arith)
      (
        clunk-IsLetter 7 3 (omega arith) (omega arith),
        (clunk-IsLetter 8 notag (omega arith) (omega arith), tt),
      )
      short_stream

nothing_held : frames 64 false [] ≡ ([], waiting (held [] []))
unfolding frames scan next
nothing_held = refl

-- A size that is over the limit, in two Reads.
recv-frames_example :
    (n : ℕ) × IsRead 64 false []
      (255 ∷ 1 ∷ 0 ∷ 0 ∷ 100 ∷ [])
      2
      (recv 64 false (held [] []) (255 ∷ 1 ∷ 0 ∷ 0 ∷ 100 ∷ []) (2 ∷ 9 ∷ []))
      n
recv-frames_example =
    recv-frames 64 false (omega arith) (omega arith) [] [] (255 ∷ 1 ∷ 0 ∷ 0 ∷ 100 ∷ []) (2 ∷ 9 ∷ [])
      (omega arith) nothing_held

frames-append_example :
    frames 64 false ((11 ∷ 0 ∷ 0 ∷ []) ++ (0 ∷ 120 ∷ []))
    ≡ continue 64 false (frames 64 false (11 ∷ 0 ∷ 0 ∷ [])) (0 ∷ 120 ∷ [])
frames-append_example = frames-append 64 false (11 ∷ 0 ∷ 0 ∷ []) (0 ∷ 120 ∷ [])
