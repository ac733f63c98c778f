-- ===== src/Frame/Patient.antt =====
-- crates/handoff/src/frame.rs: `poll_read`, called again while it returns `Ok(None)`, on a reader that only ever times out or
-- is interrupted.
use handoff.Prelude.{
  ℕ, zero, suc, ◌^◌, ◌<◌, ◌≡◌, refl, ap, sym, ◌∙◌, inl, inr, Option, none, some, List, ◌++◌, length,
  append-nil, subst, arith,
}
use handoff.Error.{Result, ok, err, io, from_kind, unexpected_eof}
use handoff.Protocol.{Message, ProtoVersion}
use handoff.Frame.{Codec, Reader, FrameAccumulator, new, bytes, read_message, poll_read, encode}
use handoff.Frame.Stages.{read_message-no_prefix, read_message-cut}
use handoff.Frame.RoundTrip.{IsInverse, read_message-encode}
use handoff.Frame.Refine.{pending, IsValid, Refines, poll_read-Refines}
use handoff.Frame.Soft.{AllSoft, timeouts, PollSoft, Polls, poll_read-Polls}

-- A frame that is short, at the end of the stream.
short-eof :
    (c : Codec) (a : FrameAccumulator)
    → IsValid a
    → length a.buf < a.want
    → read_message c a.buf ≡ err (io (from_kind unexpected_eof))
short-eof c a (inl (w, h)) l = read_message-no_prefix c a.buf (omega (arith, w))
short-eof c a (inr (n, h)) l =
    read_message-cut c a.buf (rw h.prefix h.lo) (rw h.prefix h.hi) h.has_prefix
      (rw h.prefix (omega (arith, h.want_frame)))

-- A poll that does not deliver has met a timeout, and has kept every byte.
abbrev Steps :
    ProtoVersion
    → Message
    → List ℕ
    → List ℕ
    → ℕ
    → Result (Option (ProtoVersion × Message))
    → FrameAccumulator
    → Reader
    → Type 0
Steps version msg p rest t (ok (some m)) a r = (m ≡ (version, msg)) × (bytes r ≡ rest) × (a ≡ new)
Steps version msg p rest t (ok none) a r =
    (pending a r ≡ p) × IsValid a × AllSoft r × (timeouts r < t)
Steps version msg p rest t (err e) a r = ⊥

Refines-Steps :
    (c : Codec) (version : ProtoVersion) (msg : Message) (p rest : List ℕ) (t : ℕ)
    (x : Result (Option (ProtoVersion × Message))) (a : FrameAccumulator) (r : Reader)
    → read_message c p ≡ ok ((version, msg), rest)
    → Refines c p x a r
    → PollSoft t p x a r
    → Steps version msg p rest t x a r
Refines-Steps c version msg p rest t (ok (some m)) a r e (d, n) s =
    let q : ◌≡◌ {A = Result ((ProtoVersion × Message) × List ℕ)} (ok (m, bytes r))
        (ok ((version, msg), rest)) =
      sym d ∙ e in
    (ground arith, ground arith, n)
Refines-Steps c version msg p rest t (ok none) a r e (k, v, _) s = (k, v, s.0, s.1)
Refines-Steps c version msg p rest t (err x) a r e (inl d) s = absurd (ground arith)
Refines-Steps c version msg p rest t (err x) a r e (inr (i, y, k, v)) (inl (ended, short)) =
    let q : a.buf ≡ p = sym (append-nil a.buf) ∙ ap (λ (z : List ℕ). a.buf ++ z) (sym ended) ∙ k in
    let z : read_message c p ≡ err (io (from_kind unexpected_eof)) =
      ap (read_message c) (sym q) ∙ short-eof c a v short in
    absurd (ground (arith, z, e))
Refines-Steps c version msg p rest t (err x) a r e (inr (i, y, k, v)) (inr (is_new, less)) =
    let q : bytes r ≡ p = ap (λ (z : FrameAccumulator). z.buf ++ bytes r) (sym is_new) ∙ k in
    let z : length (bytes r) ≡ length p = ap length q in absurd (omega (arith, z, less))

one_poll :
    (c : Codec) (version : ProtoVersion) (msg : Message) (p rest : List ℕ) (a : FrameAccumulator)
    (r : Reader)
    → read_message c p ≡ ok ((version, msg), rest)
    → pending a r ≡ p
    → IsValid a
    → AllSoft r
    → (out : Result (Option (ProtoVersion × Message)) × FrameAccumulator × Reader) × (poll_read c a
          r
        ≡ some out)
      × Steps version msg p rest (timeouts r) out.0 out.1 out.2
one_poll c version msg p rest a r e k v s =
    let (out, same, h) = poll_read-Refines c a r v in
    (
      out,
      same,
      Refines-Steps c version msg p rest (timeouts r) out.0 out.1 out.2 e
          (subst (λ q. Refines c q out.0 out.1 out.2) k h)
          (subst (λ q. PollSoft (timeouts r) q out.0 out.1 out.2) k
            (subst (Polls (timeouts r) (pending a r)) same (poll_read-Polls c a r v s))),
    )

abbrev again :
    (FrameAccumulator
      → Reader
      → Option (Result (ProtoVersion × Message) × FrameAccumulator × Reader))
    → Option (Result (Option (ProtoVersion × Message)) × FrameAccumulator × Reader)
    → Option (Result (ProtoVersion × Message) × FrameAccumulator × Reader)
again next none = none
again next (some (ok (some m), a, r)) = some (ok m, a, r)
again next (some (ok none, a, r)) = next a r
again next (some (err e, a, r)) = some (err e, a, r)

-- At most `n` polls, up to the first that does not return `Ok(None)`.
pub poll_until_some :
    Codec
    → ℕ
    → FrameAccumulator
    → Reader
    → Option (Result (ProtoVersion × Message) × FrameAccumulator × Reader)
poll_until_some c zero a r = none
poll_until_some c (suc n) a r = again (poll_until_some c n) (poll_read c a r)

abbrev Arrives : Codec → ℕ → ProtoVersion → Message → List ℕ → FrameAccumulator → Reader → Type 0
Arrives c n version msg rest a r =
    (r' : Reader) × (poll_until_some c n a r ≡ some (ok (version, msg), new, r'))
    × (bytes r' ≡ rest)

after-Arrives :
    (c : Codec) (version : ProtoVersion) (msg : Message) (p rest : List ℕ) (n t : ℕ)
    (a a' : FrameAccumulator) (r r' : Reader) (x : Result (Option (ProtoVersion × Message)))
    → poll_read c a r ≡ some (x, a', r')
    → Steps version msg p rest t x a' r'
    → ((pending a' r' ≡ p)
        → IsValid a'
        → AllSoft r'
        → timeouts r' < t
        → Arrives c n version msg rest a' r')
    → Arrives c (suc n) version msg rest a r
unfolding poll_until_some
after-Arrives c version msg p rest n t a a' r r' (ok (some m)) same (d, b, fresh) next =
    (r', rw (same, d, fresh) refl, b)
after-Arrives c version msg p rest n t a a' r r' (ok none) same (k, v, s, l) next =
    let (q, arrives, b) = next k v s l in (q, rw same arrives, b)
after-Arrives c version msg p rest n t a a' r r' (err x) same h next = absurd h

poll_until_some-Arrives :
    (c : Codec) (version : ProtoVersion) (msg : Message) (p rest : List ℕ) (n : ℕ)
    (a : FrameAccumulator) (r : Reader)
    → read_message c p ≡ ok ((version, msg), rest)
    → pending a r ≡ p
    → IsValid a
    → AllSoft r
    → timeouts r < n
    → Arrives c n version msg rest a r
poll_until_some-Arrives c version msg p rest zero a r e k v s l = absurd (omega arith)
poll_until_some-Arrives c version msg p rest (suc n) a r e k v s l =
    let (out, same, steps) = one_poll c version msg p rest a r e k v s in
    after-Arrives c version msg p rest n (timeouts r) a out.1 r out.2 out.0 same steps
      (λ k' v' s' l'.
        poll_until_some-Arrives c version msg p rest n out.1 out.2 e k' v' s' (omega (arith, l')))

-- For a codec that decodes what it encoded, a version that fits a `u16`, a valid accumulator, and a reader whose calls
-- of `read` return the stream in any pieces with any number of timeouts and interruptions between them: if the
-- pending bytes begin with the frame that `encode` wrote for a message, then as many calls of `poll_read` as there are
-- timeouts, and one more, return that version and message, leave exactly the bytes behind the frame, and leave
-- the accumulator as it was made.
pub poll_until_some-encode :
    (c : Codec) (inv : IsInverse c) (version : ProtoVersion) (msg : Message) (frame rest : List ℕ)
    (a : FrameAccumulator) (r : Reader)
    → version < 2 ^ 16
    → encode c version msg ≡ ok frame
    → IsValid a
    → AllSoft r
    → pending a r ≡ frame ++ rest
    → Arrives c (suc (timeouts r)) version msg rest a r
poll_until_some-encode c inv version msg frame rest a r hv h v s p =
    poll_until_some-Arrives c version msg (frame ++ rest) rest (suc (timeouts r)) a r
      (read_message-encode c inv version msg frame rest hv h).0 p v s (omega arith)
