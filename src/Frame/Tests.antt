-- ===== src/Frame/Tests.antt =====
-- crates/handoff/src/frame.rs: runs on small frames. The codec knows heartbeats alone.
use handoff.Prelude.{Bool, true, false, ◌==◌, ℕ, ◌≡◌, refl, Option, some, inl, List, [], ◌∷◌, arith}
use handoff.Error.{Result, ok, err, codec, from_kind, would_block}
use handoff.Protocol.{Message, heartbeat}
use handoff.Frame.{
  Codec, Reader, chunk, fails, FrameAccumulator, new, encode, poll_read, read, absorb, fill, decode,
  advance, poll_loop,
}
use handoff.Frame.RoundTrip.{IsInverse}
use handoff.Frame.Write.{Writes, write_frame, write_frame-Writes}
use handoff.Sock.Send.{Socket, sent}
use handoff.Frame.Patient.{poll_until_some, poll_until_some-encode}
use handoff.Frame.{bytes}

abbrev write_beat : Message → Result (List ℕ)
write_beat (heartbeat t) = ok (13 ∷ t ∷ [])
write_beat _ = err (codec 0)

abbrev read_tagged : Bool → ℕ → Result Message
read_tagged true t = ok (heartbeat t)
read_tagged false t = err (codec 1)

abbrev read_beat : List ℕ → Result Message
read_beat (tag ∷ t ∷ []) = read_tagged (tag == 13) t
read_beat _ = err (codec 1)

abbrev beats : Codec
beats = record { to_allocvec = write_beat; from_bytes = read_beat }

beats-inverse :
    (m : Message) (bs : List ℕ) → beats.to_allocvec m ≡ ok bs → beats.from_bytes bs ≡ ok m
beats-inverse (heartbeat t) bs h = ground arith
beats-inverse m bs h = absurd (ground arith)

beats-IsInverse : IsInverse beats
beats-IsInverse = record { inverse = beats-inverse }

abbrev beat_frame : List ℕ
beat_frame = 4 ∷ 0 ∷ 0 ∷ 0 ∷ 1 ∷ 0 ∷ 13 ∷ 7 ∷ []

beat_encoded : encode beats 1 (heartbeat 7) ≡ ok beat_frame
unfolding encode
beat_encoded = refl

-- Half a length prefix has come; the rest comes in two pieces, with a byte of the next frame.
abbrev half_read : FrameAccumulator
half_read = record { buf = 4 ∷ 0 ∷ []; want = 4 }

abbrev pieces : Reader
pieces = chunk 0 (0 ∷ 1 ∷ []) ∷ chunk 0 (13 ∷ 7 ∷ 9 ∷ []) ∷ []

abbrev interrupted_pieces : Reader
interrupted_pieces =
    chunk 0 (0 ∷ 1 ∷ []) ∷ fails (from_kind would_block) ∷ chunk 0 (13 ∷ 7 ∷ []) ∷ []

pieces_delivered :
    poll_read beats half_read pieces ≡ some (ok (some (1, heartbeat 7)), new, chunk 9 [] ∷ [])
unfolding poll_read poll_loop fill absorb read advance decode
pieces_delivered = refl

timeout_kept :
    poll_read beats half_read interrupted_pieces
    ≡ some (
      ok Option.none,
      record { buf = 4 ∷ 0 ∷ 0 ∷ 0 ∷ 1 ∷ []; want = 8 },
      chunk 0 (13 ∷ 7 ∷ []) ∷ [],
    )
unfolding poll_read poll_loop fill absorb read advance decode
timeout_kept = refl

-- One timeout, and two polls.
poll_until_some-encode_example :
    (r : Reader) × (poll_until_some beats 2 half_read interrupted_pieces
      ≡ some (ok (1, heartbeat 7), new, r))
    × (bytes r ≡ [])
poll_until_some-encode_example =
    poll_until_some-encode beats beats-IsInverse 1 (heartbeat 7) beat_frame [] half_read
      interrupted_pieces (omega arith) beat_encoded (inl (refl, omega arith)) (tt, tt) refl

-- Three bytes go out, and then the write timeout ends the call.
abbrev choked : Socket
choked = record { answers = sent 3 ∷ []; delivered = [] }

write_frame-Writes_example :
    Writes beats 1 (heartbeat 7) [] (write_frame beats 1 (heartbeat 7) choked)
write_frame-Writes_example =
    write_frame-Writes beats beats-IsInverse 1 (omega arith) (heartbeat 7) choked
