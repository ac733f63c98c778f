-- ===== src/Frame.antt =====
-- crates/handoff/src/frame.rs: length-prefixed frames over a byte stream. A byte is a native number.
-- The payload codec (the `postcard` crate) is the parameter `Codec`.
-- A reader is the list of what its successive `read` calls can return: a chunk of at least one byte,
-- of which a call may take a part, or an error; after the list the stream is at its end.
pub mod RoundTrip
mod Fill
mod Stages
mod Refine
mod Deliver
mod Soft
mod Patient
pub mod Write
mod Tests
use handoff.Prelude.{
  ℕ, zero, suc, ◌+◌, ◌-◌, ◌*◌, ◌/◌, ◌%◌, ◌^◌, Bool, true, false, Option, none, some, List, [], ◌∷◌,
  ◌++◌, length, take, drop, ltb, ◌==◌, if◌then◌else◌,
}
use handoff.Error.{
  Result, ok, err, ◌>>=◌, Error, io, frame_too_large, frame_malformed, IoError, from_kind,
  ErrorKind, unexpected_eof, interrupted, would_block, timed_out,
}
use handoff.Protocol.{Message, ProtoVersion}

abbrev pub max_frame_bytes : ℕ
max_frame_bytes = 2 ^ 20

abbrev pub len_prefix : ℕ
len_prefix = 4

abbrev pub version_field : ℕ
version_field = 2

-- `to_le_bytes` of an integer of the given number of bytes, and `from_le_bytes`.
abbrev pub to_le_bytes : ℕ → ℕ → List ℕ
to_le_bytes zero n = []
to_le_bytes (suc k) n = n % 256 ∷ to_le_bytes k (n / 256)

abbrev pub from_le_bytes : List ℕ → ℕ
from_le_bytes [] = 0
from_le_bytes (b ∷ bs) = b + 256 * from_le_bytes bs

-- What the crate calls of `postcard`.
pub record Codec : Type 0 where
  pub to_allocvec : Message → Result (List ℕ)
  pub from_bytes : List ℕ → Result Message

-- `Read::read_exact` on a stream that ends after `bs`.
pub read_exact : ℕ → List ℕ → Result (List ℕ × List ℕ)
read_exact n bs =
    if ltb (length bs) n then err (io (from_kind unexpected_eof)) else ok (take n bs, drop n bs)

pub data Pulse : Type 0 where
  chunk : ℕ → List ℕ → Pulse
  fails : IoError → Pulse

abbrev pub Reader : Type 0
Reader = List Pulse

pub data ReadResult : Type 0 where
  got : List ℕ → ReadResult
  failed : IoError → ReadResult

abbrev pub put_back : List ℕ → Reader → Reader
put_back [] r = r
put_back (b ∷ bs) r = chunk b bs ∷ r

-- One `read` into a buffer of `k` bytes; no byte means the end of the stream.
pub read : ℕ → Reader → ReadResult × Reader
read k [] = (got [], [])
read k (chunk b bs ∷ r) = (got (take k (b ∷ bs)), put_back (drop k (b ∷ bs)) r)
read k (fails e ∷ r) = (failed e, r)

pub record FrameAccumulator : Type 0 where
  pub buf : List ℕ
  pub want : ℕ

-- `new`, and the state that `reset` leaves
abbrev pub new : FrameAccumulator
new = record { buf = []; want = len_prefix }

pub has_partial : FrameAccumulator → Bool
has_partial a = elim a.buf [ [] ↦ false | _ ∷ _ ↦ true ]

-- The bytes that a reader still holds, and a bound on the calls of `read` that it answers.
abbrev pub bytes : Reader → List ℕ
bytes [] = []
bytes (chunk b bs ∷ r) = (b ∷ bs) ++ bytes r
bytes (fails e ∷ r) = bytes r

abbrev pub calls : Reader → ℕ
calls [] = 0
calls (chunk b bs ∷ r) = length (b ∷ bs) + calls r
calls (fails e ∷ r) = suc (calls r)

-- What the inner loop does with the result of one `read`; `ok true` means that the buffer is full,
-- `ok false` that `poll_read` returns `Ok(None)`.
pub absorb :
    (List ℕ → Reader → Option (Result Bool × List ℕ × Reader))
    → List ℕ
    → ReadResult × Reader
    → Option (Result Bool × List ℕ × Reader)
absorb next buf (got [], r) = some (err (io (from_kind unexpected_eof)), buf, r)
absorb next buf (got (b ∷ bs), r) = next (buf ++ b ∷ bs) r
absorb next buf (failed e, r) = elim e.kind [
  | interrupted ↦ next buf r
  | would_block ↦ some (ok false, buf, r)
  | timed_out ↦ some (ok false, buf, r)
  | _ ↦ some (err (io e), buf, r)
]

-- `while self.buf.len() < self.want`, on fuel: `none` means that the fuel ran out.
pub fill : ℕ → ℕ → List ℕ → Reader → Option (Result Bool × List ℕ × Reader)
fill zero want buf r = none
fill (suc f) want buf r =
    let rest = absorb (fill f want) buf (read (want - length buf) r) in
    if ltb (length buf) want then rest else some (ok true, buf, r)

-- The codec is a parameter of what calls it.
module _ (c : Codec) where
  unfoldable pub encode : ProtoVersion → Message → Result (List ℕ)
  encode version msg = do
    payload ← c.to_allocvec msg
    let inner_len = version_field + length payload
    if ltb inner_len (2 ^ 64)
        then (if ltb max_frame_bytes inner_len
            then err (frame_too_large (inner_len % 2 ^ 32))
            else ok (
                to_le_bytes len_prefix inner_len ++ (to_le_bytes version_field version ++ payload)))
        else err (frame_too_large (2 ^ 32 - 1))

  pub read_message : List ℕ → Result ((ProtoVersion × Message) × List ℕ)
  read_message bs = do
    (len_buf, bs₁) ← read_exact len_prefix bs
    let frame_len = from_le_bytes len_buf
    if ltb frame_len version_field
        then err (frame_malformed frame_len)
        else (if ltb max_frame_bytes frame_len then err (frame_too_large frame_len) else (do
          (ver_buf, bs₂) ← read_exact version_field bs₁
          (payload, bs₃) ← read_exact (frame_len - version_field) bs₂
          msg ← c.from_bytes payload
          ok ((from_le_bytes ver_buf, msg), bs₃)))

  pub decode : List ℕ → Result (Option (ProtoVersion × Message))
  decode buf = do
    let version = from_le_bytes (take version_field (drop len_prefix buf))
    msg ← c.from_bytes (drop (len_prefix + version_field) buf)
    ok (some (version, msg))

  -- The part of the outer loop behind the inner one; `next` is the loop's next round.
  pub advance :
      (FrameAccumulator
        → Reader
        → Option (Result (Option (ProtoVersion × Message)) × FrameAccumulator × Reader))
      → ℕ
      → Result Bool × List ℕ × Reader
      → Option (Result (Option (ProtoVersion × Message)) × FrameAccumulator × Reader)
  advance next want (err e, buf, r) = some (err e, record { buf = buf; want = want }, r)
  advance next want (ok false, buf, r) = some (ok none, record { buf = buf; want = want }, r)
  advance next want (ok true, buf, r) =
      let frame_len = from_le_bytes (take len_prefix buf) in
      let more = next (record { buf = buf; want = len_prefix + frame_len }) r in
      if want == len_prefix
      then (if ltb frame_len version_field
          then some (err (frame_malformed frame_len), new, r)
          else (if ltb max_frame_bytes frame_len
              then some (err (frame_too_large frame_len), new, r)
              else more))
      else some (decode buf, new, r)

  pub poll_loop :
      ℕ
      → FrameAccumulator
      → Reader
      → Option (Result (Option (ProtoVersion × Message)) × FrameAccumulator × Reader)
  poll_loop zero a r = none
  poll_loop (suc f) a r = elim (fill (suc (calls r)) a.want a.buf r) [
    | none ↦ none
    | some filled ↦ advance (poll_loop f) a.want filled
  ]

  -- Two rounds at most: one for the length prefix, one for the frame.
  pub poll_read :
      FrameAccumulator
      → Reader
      → Option (Result (Option (ProtoVersion × Message)) × FrameAccumulator × Reader)
  poll_read a r = poll_loop 2 (record a { want = if a.want == 0 then len_prefix else a.want }) r
