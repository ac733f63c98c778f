-- ===== src/Frame/Write.antt =====
-- crates/handoff/src/frame.rs: `write_frame`, over the `send_all` of sock.rs, and what the peer reads of it.
use handoff.Prelude.{
  ℕ, ◌+◌, ◌^◌, ◌≤◌, ◌<◌, ◌≡◌, ◌⊎◌, refl, sym, ap, ◌∙◌, inl, inr, List, [], ◌++◌, append-nil, length,
  length-take, take, drop, take-append, take-append-drop, arith, dec_lt,
}
use handoff.Error.{Result, ok, err, Result-cases, io, from_kind, unexpected_eof, Error}
use handoff.Protocol.{Message, ProtoVersion}
use handoff.Frame.{Codec, encode, read_message, to_le_bytes, from_le_bytes, max_frame_bytes}
use handoff.Frame.Stages.{read_message-no_prefix, read_message-cut}
use handoff.Frame.RoundTrip.{
  IsInverse, read_message-encode, frame_of, encode-eq-ok, from_le-to_le_four,
}
use handoff.Sock.Send.{Socket, Sends, send_all, send_all-Sends}

abbrev sent_frame : Result (List ℕ) → Socket → Result (Unit {0}) × Socket
sent_frame (err e) s = (err e, s)
sent_frame (ok bs) s = send_all bs s

unfoldable pub write_frame : Codec → ProtoVersion → Message → Socket → Result (Unit {0}) × Socket
write_frame c version msg s = sent_frame (encode c version msg) s

abbrev eof : Error
eof = io (from_kind unexpected_eof)

-- Behind a length prefix that promises more.
read_message-short :
    (c : Codec) (n : ℕ) (xs : List ℕ)
    → (4 ≤ length xs → from_le_bytes (take 4 xs) ≡ 2 + n)
    → 2 + n ≤ max_frame_bytes
    → length xs < 6 + n
    → read_message c xs ≡ err eof
read_message-short c n xs e hl l = elim (dec_lt (length xs) 4) [
  | yes short ↦ read_message-no_prefix c xs short
  | no long ↦
      let f = e (omega arith) in
      read_message-cut c xs (omega (arith, f)) (omega (arith, f)) (omega arith) (omega (arith, f))
]

take_four-frame_of :
    (version : ProtoVersion) (payload xs ys : List ℕ)
    → xs ++ ys ≡ frame_of version payload
    → 4 ≤ length xs
    → take 4 xs ≡ to_le_bytes 4 (2 + length payload)
take_four-frame_of version payload xs ys e l = sym (take-append 4 xs ys l) ∙ ap (take 4) e

-- A beginning of the message's frame that is not the whole; nothing, if there is no frame.
abbrev pub IsCut : Codec → ProtoVersion → Message → List ℕ → Type 0
IsCut c version msg bs =
    (bs ≡ [])
    ⊎ ((frame : List ℕ) × (k : ℕ) × (encode c version msg ≡ ok frame)
        × (k < length frame)
        × (bs ≡ take k frame))

-- What the peer has got behind the call: the message, or a cut frame.
abbrev pub Writes :
    Codec → ProtoVersion → Message → (before : List ℕ) → Result (Unit {0}) × Socket → Type 0
Writes c version msg d (ok _, s) =
    (bs : List ℕ) × (s.delivered ≡ d ++ bs)
    × ((rest : List ℕ) → read_message c (bs ++ rest) ≡ ok ((version, msg), rest))
Writes c version msg d (err e, s) =
    (bs : List ℕ) × (s.delivered ≡ d ++ bs) × IsCut c version msg bs × (read_message c bs ≡ err eof)

module _ (c : Codec) (inv : IsInverse c) (version : ProtoVersion) (hv : version < 2 ^ 16)
    (msg : Message) where
  take-unread :
      (bs : List ℕ) (k : ℕ)
      → encode c version msg ≡ ok bs
      → k < length bs
      → read_message c (take k bs) ≡ err eof
  take-unread bs k e l =
      let (payload, _, hl, w) = encode-eq-ok c version msg e in
      let n : length bs ≡ 6 + length payload = rw (← w) (omega arith) in
      read_message-short c (length payload) (take k bs)
        (λ four.
          ap from_le_bytes (
            take_four-frame_of version payload (take k bs) (drop k bs)
              (take-append-drop k bs ∙ sym w) four)
          ∙ from_le-to_le_four (2 + length payload) (omega arith))
        hl (omega (arith, length-take k bs))

  sent-Writes :
      (bs d : List ℕ) (out : Result (Unit {0}) × Socket)
      → encode c version msg ≡ ok bs
      → Sends bs d out
      → Writes c version msg d out
  sent-Writes bs d (ok _, s) e h =
      (bs, h, λ rest. (read_message-encode c inv version msg bs rest hv e).0)
  sent-Writes bs d (err x, s) e (k, l, h) =
      (take k bs, h, inr (bs, k, e, l, refl), take-unread bs k e l)

  -- For a codec that decodes what it encoded, a version that fits a `u16`, every message and every
  -- sequence of results of `send`: if `write_frame` succeeds, the peer has got bytes from which `read_message`
  -- reads the same version and message, whatever follows them; if it fails, in `encode` or in the middle of the
  -- frame, the peer has got a beginning of the frame that is not the whole of it, and if the connection ends there,
  -- `read_message` reports the end of the stream.
  pub write_frame-Writes :
      (s : Socket) → Writes c version msg s.delivered (write_frame c version msg s)
  unfolding write_frame
  write_frame-Writes s = elim (Result-cases (encode c version msg)) [
    | inl (bs, e) ↦ rw e (sent-Writes bs s.delivered (send_all bs s) e (send_all-Sends bs s))
    | inr (x, e) ↦
        rw e ([], sym (append-nil s.delivered), inl refl, read_message-no_prefix c [] (omega arith))
  ]
