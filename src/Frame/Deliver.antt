-- ===== src/Frame/Deliver.antt =====
-- crates/handoff/src/frame.rs: a frame that `encode` wrote, read by `poll_read` in any pieces.
use handoff.Prelude.{
  ℕ, ◌^◌, ◌<◌, ◌≡◌, subst, sym, ◌∙◌, inl, inr, Option, none, some, List, ◌++◌, arith,
}
use handoff.Error.{Result, ok, err, io, IoError}
use handoff.Protocol.{Message, ProtoVersion}
use handoff.Frame.{Codec, Reader, FrameAccumulator, new, bytes, encode, poll_read, read_message}
use handoff.Frame.RoundTrip.{IsInverse, read_message-encode}
use handoff.Frame.Refine.{pending, IsValid, Refines, poll_read-Refines}

-- What one poll may do to a stream whose next bytes are the frame of `(version, msg)`, before `rest`.
abbrev pub Delivers :
    ProtoVersion
    → Message
    → (frame rest : List ℕ) → Result (Option (ProtoVersion × Message))
    → FrameAccumulator
    → Reader
    → Type 0
Delivers version msg frame rest (ok (some m)) a r =
    (m ≡ (version, msg)) × (bytes r ≡ rest) × (a ≡ new)
Delivers version msg frame rest (ok none) a r = (pending a r ≡ frame ++ rest) × IsValid a
Delivers version msg frame rest (err e) a r =
    (i : IoError) × (e ≡ io i) × (pending a r ≡ frame ++ rest) × IsValid a

Refines-Delivers :
    (c : Codec) (version : ProtoVersion) (msg : Message) (frame rest : List ℕ)
    (x : Result (Option (ProtoVersion × Message))) (a : FrameAccumulator) (r : Reader)
    → read_message c (frame ++ rest) ≡ ok ((version, msg), rest)
    → Refines c (frame ++ rest) x a r
    → Delivers version msg frame rest x a r
Refines-Delivers c version msg frame rest (ok (some m)) a r e (d, n) =
    let p : ◌≡◌ {A = Result ((ProtoVersion × Message) × List ℕ)} (ok (m, bytes r))
        (ok ((version, msg), rest)) =
      sym d ∙ e in
    (ground arith, ground arith, n)
Refines-Delivers c version msg frame rest (ok none) a r e (p, v, _) = (p, v)
Refines-Delivers c version msg frame rest (err x) a r e (inl d) = absurd (ground arith)
Refines-Delivers c version msg frame rest (err x) a r e (inr (i, io_error, p, v)) =
    (i, io_error, p, v)

-- For a codec that decodes what it encoded, a version that fits a `u16`, a valid accumulator and any
-- reader: if the pending bytes begin with the frame that `encode` wrote for a message, then a poll
-- delivers that version and message and leaves exactly the bytes behind the frame; or it returns
-- `Ok(None)` or an I/O error, and the pending bytes still begin with the whole frame. No poll
-- delivers another message, or reports the frame as malformed.
pub poll_read-encode :
    (c : Codec) (inv : IsInverse c) (version : ProtoVersion) (msg : Message) (frame rest : List ℕ)
    (a : FrameAccumulator) (r : Reader)
    → version < 2 ^ 16
    → encode c version msg ≡ ok frame
    → IsValid a
    → pending a r ≡ frame ++ rest
    → (out : Result (Option (ProtoVersion × Message)) × FrameAccumulator × Reader) × (poll_read c a
          r
        ≡ some out)
      × Delivers version msg frame rest out.0 out.1 out.2
poll_read-encode c inv version msg frame rest a r hv h v p =
    let (out, e, s) = poll_read-Refines c a r v in
    (
      out,
      e,
      Refines-Delivers c version msg frame rest out.0 out.1 out.2
          (read_message-encode c inv version msg frame rest hv h).0
          (subst (λ q. Refines c q out.0 out.1 out.2) p s),
    )
