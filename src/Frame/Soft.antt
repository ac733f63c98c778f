-- ===== src/Frame/Soft.antt =====
-- crates/handoff/src/frame.rs: one `poll_read` on a reader that only ever times out or is interrupted.
use handoff.Prelude.{
  ℕ, zero, suc, ◌+◌, ◌-◌, ◌≤◌, ◌<◌, ◌≡◌, ◌≢◌, refl, ◌⊎◌, inl, inr, Bool, true, false, Option, none,
  some, List, [], ◌∷◌, ◌++◌, length, take, drop, subst, eqb-of_ne, ltb-of_lt, ltb-of_le,
  length-append, dec_lt, arith,
}
use handoff.Error.{
  Result, ok, err, ErrorKind, interrupted, would_block, frame_malformed, frame_too_large,
  Result-cases,
}
use handoff.Protocol.{Message, ProtoVersion}
use handoff.Frame.{
  Codec, Reader, chunk, fails, put_back, read, absorb, FrameAccumulator, new, bytes, calls, fill,
  from_le_bytes, max_frame_bytes, decode, advance, poll_loop, poll_read,
}
use handoff.Frame.Fill.{Fills, fill-FillsTo}
use handoff.Frame.Refine.{pending, InFrame, IsValid, poll_loop-filled}

abbrev pub IsSoft : ErrorKind → Type 0
IsSoft interrupted = Unit
IsSoft would_block = Unit
IsSoft ErrorKind.timed_out = Unit
IsSoft _ = ⊥

-- No `read` fails but for an interruption or a timeout.
abbrev pub AllSoft : Reader → Type 0
AllSoft [] = Unit
AllSoft (chunk b bs ∷ r) = AllSoft r
AllSoft (fails e ∷ r) = IsSoft e.kind × AllSoft r

abbrev pub pauses : ErrorKind → ℕ
pauses would_block = 1
pauses ErrorKind.timed_out = 1
pauses _ = 0

abbrev pub timeouts : Reader → ℕ
timeouts [] = 0
timeouts (chunk b bs ∷ r) = timeouts r
timeouts (fails e ∷ r) = pauses e.kind + timeouts r

put_back-AllSoft : (xs : List ℕ) (r : Reader) → AllSoft r → AllSoft (put_back xs r)
put_back-AllSoft [] r h = h
put_back-AllSoft (x ∷ xs) r h = h

timeouts-put_back : (xs : List ℕ) (r : Reader) → timeouts (put_back xs r) ≡ timeouts r
timeouts-put_back [] r = refl
timeouts-put_back (x ∷ xs) r = refl

-- How the inner loop ends on such a reader, of which `t` bounds the timeouts.
abbrev SoftFill : ℕ → Result Bool × List ℕ × Reader → Type 0
SoftFill t (ok true, buf, r) = AllSoft r × (timeouts r ≤ t)
SoftFill t (ok false, buf, r) = AllSoft r × (timeouts r < t)
SoftFill t (err e, buf, r) = bytes r ≡ []

abbrev Softens : ℕ → Option (Result Bool × List ℕ × Reader) → Type 0
Softens t none = Unit
Softens t (some out) = SoftFill t out

full-Softens :
    (f want : ℕ) (buf : List ℕ) (r : Reader)
    → AllSoft r
    → want ≤ length buf
    → Softens (timeouts r) (fill (suc f) want buf r)
unfolding fill
full-Softens f want buf r h full = rw (ltb-of_le (length buf) want full) (h, omega arith)

fails-Softens :
    (f want : ℕ) (buf : List ℕ) (k : ErrorKind) (o : Option ℕ) (r : Reader)
    → length buf < want
    → IsSoft k
    → AllSoft r
    → Softens (timeouts r) (fill f want buf r)
    → Softens
        (pauses k + timeouts r)
        (fill (suc f) want buf (fails (record { kind = k; raw_os_error = o }) ∷ r))
unfolding fill read absorb
fails-Softens f want buf interrupted o r short s h ih =
    let same : 0 + timeouts r ≡ timeouts r = omega arith in
    rw (ltb-of_lt (length buf) want short, same) ih
fails-Softens f want buf would_block o r short s h ih =
    rw (ltb-of_lt (length buf) want short) (h, omega arith)
fails-Softens f want buf ErrorKind.timed_out o r short s h ih =
    rw (ltb-of_lt (length buf) want short) (h, omega arith)
fails-Softens f want buf k o r short s h ih = absurd (ground (arith, s))

fill-Softens :
    (f want : ℕ) (buf : List ℕ) (r : Reader) → AllSoft r → Softens (timeouts r) (fill f want buf r)
unfolding fill read absorb
fill-Softens zero want buf r h = tt
fill-Softens (suc f) want buf [] h = elim (dec_lt (length buf) want) [
  | no full ↦ full-Softens f want buf [] h (omega arith)
  | yes short ↦ rw (ltb-of_lt (length buf) want short) refl
]
fill-Softens (suc f) want buf (fails e ∷ r) h = elim (dec_lt (length buf) want) [
  | no full ↦ full-Softens f want buf (fails e ∷ r) h (omega arith)
  | yes short ↦
      fails-Softens f want buf e.kind e.raw_os_error r short h.0 h.1 (fill-Softens f want buf r h.1)
]
fill-Softens (suc f) want buf (chunk b bs ∷ r) h = elim (dec_lt (length buf) want) [
  | no full ↦ full-Softens f want buf (chunk b bs ∷ r) h (omega arith)
  | yes short ↦
      let k : ℕ = want - length buf - 1 in
      let e : want - length buf ≡ suc k = omega arith in
      rw (e, ltb-of_lt (length buf) want short)
        (subst (λ t. Softens t (fill f want (buf ++ b ∷ take k bs) (put_back (drop k bs) r)))
          (timeouts-put_back (drop k bs) r)
          (fill-Softens f want (buf ++ b ∷ take k bs) (put_back (drop k bs) r)
            (put_back-AllSoft (drop k bs) r h)))
]

-- How one poll ends, of the pending bytes `p`: an error comes of the end of the stream, or of bytes that were taken-Polls.
abbrev pub PollSoft :
    ℕ → List ℕ → Result (Option (ProtoVersion × Message)) → FrameAccumulator → Reader → Type 0
PollSoft t p (ok (some m)) a r = Unit
PollSoft t p (ok none) a r = AllSoft r × (timeouts r < t)
PollSoft t p (err e) a r =
    ((bytes r ≡ []) × (length a.buf < a.want)) ⊎ ((a ≡ new) × (length (bytes r) < length p))

abbrev pub Polls :
    ℕ
    → List ℕ
    → Option (Result (Option (ProtoVersion × Message)) × FrameAccumulator × Reader)
    → Type 0
Polls t p none = Unit
Polls t p (some (x, a, r)) = PollSoft t p x a r

taken-Polls :
    (t : ℕ) (p buf : List ℕ) (r : Reader) (x : Result (Option (ProtoVersion × Message)))
    → buf ++ bytes r ≡ p
    → 0 < length buf
    → (x ≢ ok none)
    → Polls t p (some (x, new, r))
taken-Polls t p buf r (ok (some m)) k l n = tt
taken-Polls t p buf r (ok none) k l n = absurd (n refl)
taken-Polls t p buf r (err e) k l n = inr (
  refl,
  subst (λ (q : List ℕ). length (bytes r) < length q) k
      (omega (arith, length-append buf (bytes r))),
)

module _ (c : Codec) where
  decode-some : (buf : List ℕ) → decode c buf ≢ ok none
  unfolding decode
  decode-some buf e = elim (Result-cases (c.from_bytes (drop 6 buf))) [
    | inl (m, d) ↦ absurd (ground arith)
    | inr (x, d) ↦ absurd (ground arith)
  ]

  -- The round that reads the frame.
  frame-Polls :
      (f n : ℕ) (a : FrameAccumulator) (r : Reader) (out : Result Bool × List ℕ × Reader)
      → 2 ≤ n
      → Fills (4 + n) a.buf r out
      → SoftFill (timeouts r) out
      → Polls (timeouts r) (pending a r) (advance c (poll_loop c f) (4 + n) out)
  unfolding advance
  frame-Polls f n a r (ok true, buf, r') lo fs s = rw (eqb-of_ne (4 + n) 4 (omega (arith, lo))) (
      taken-Polls (timeouts r) (pending a r) buf r' (decode c buf) fs.kept (omega (arith, fs.ends))
        (decode-some buf))
  frame-Polls f n a r (ok false, buf, r') lo fs s = s
  frame-Polls f n a r (err e, buf, r') lo fs s = inl (s, fs.ends.0)

  poll_frame-Polls :
      (f n : ℕ) (a : FrameAccumulator) (r : Reader)
      → InFrame n a
      → AllSoft r
      → Polls (timeouts r) (pending a r) (poll_loop c (suc f) a r)
  poll_frame-Polls f n a r h s =
      let (out, e, fs) =
        fill-FillsTo (suc (calls r)) (4 + n) a.buf r (omega arith) (omega (arith, h.within)) in
      rw (poll_loop-filled c f (4 + n) a r out h.want_frame e) (
        frame-Polls f n a r out h.lo fs
          (subst (Softens (timeouts r)) e (fill-Softens (suc (calls r)) (4 + n) a.buf r s)))

  later-Polls :
      (t u : ℕ) (p : List ℕ)
      (x : Option (Result (Option (ProtoVersion × Message)) × FrameAccumulator × Reader))
      → t ≤ u
      → Polls t p x
      → Polls u p x
  later-Polls t u p none l h = tt
  later-Polls t u p (some (ok (some m), a, r)) l h = tt
  later-Polls t u p (some (ok none, a, r)) l h = (h.0, omega (arith, h.1))
  later-Polls t u p (some (err e, a, r)) l h = h

  -- The round that reads the length prefix.
  prefix-Polls :
      (f : ℕ) (a : FrameAccumulator) (r : Reader) (out : Result Bool × List ℕ × Reader)
      → Fills 4 a.buf r out
      → SoftFill (timeouts r) out
      → Polls (timeouts r) (pending a r) (advance c (poll_loop c (suc f)) 4 out)
  unfolding advance
  prefix-Polls f a r (ok true, buf, r') fs s =
      let n : ℕ = from_le_bytes (take 4 buf) in
      elim (dec_lt n 2) [
        | yes small ↦ rw (ltb-of_lt n 2 small) (
            taken-Polls (timeouts r) (pending a r) buf r' (err (frame_malformed n)) fs.kept
              (omega (arith, fs.ends)) (λ e. ground (arith, e)))
        | no lo ↦ elim (dec_lt max_frame_bytes n) [
          | yes large ↦
              rw (ltb-of_le n 2 (omega arith), ltb-of_lt max_frame_bytes n large)
                (taken-Polls (timeouts r) (pending a r) buf r' (err (frame_too_large n)) fs.kept
                  (omega (arith, fs.ends)) (λ e. ground (arith, e)))
          | no hi ↦
              rw (ltb-of_le n 2 (omega arith), ltb-of_le max_frame_bytes n (omega arith))
                (later-Polls (timeouts r') (timeouts r) (pending a r)
                  (poll_loop c (suc f) (record { buf = buf; want = 4 + n }) r') s.1
                  (subst
                    (λ q.
                      Polls (timeouts r') q
                        (poll_loop c (suc f) (record { buf = buf; want = 4 + n }) r'))
                    fs.kept
                    (poll_frame-Polls f n (record { buf = buf; want = 4 + n }) r'
                      (record {
                        want_frame = refl;
                        prefix = refl;
                        lo = omega arith;
                        hi = omega arith;
                        has_prefix = omega (arith, fs.ends);
                        within = omega (arith, fs.ends);
                      })
                      s.0)))
        ]
      ]
  prefix-Polls f a r (ok false, buf, r') fs s = s
  prefix-Polls f a r (err e, buf, r') fs s = inl (s, fs.ends.0)

  pub poll_read-Polls :
      (a : FrameAccumulator) (r : Reader)
      → IsValid a
      → AllSoft r
      → Polls (timeouts r) (pending a r) (poll_read c a r)
  unfolding poll_read
  poll_read-Polls a r (inl (w, h)) s =
      let (out, e, fs) = fill-FillsTo (suc (calls r)) 4 a.buf r (omega arith) h in
      rw (w, poll_loop-filled c 1 4 (record a { want = 4 }) r out refl e)
        (prefix-Polls 0 a r out fs
          (subst (Softens (timeouts r)) e (fill-Softens (suc (calls r)) 4 a.buf r s)))
  poll_read-Polls a r (inr (n, h)) s =
      rw (eqb-of_ne a.want 0 (omega (arith, h.want_frame))) (poll_frame-Polls 1 n a r h s)
