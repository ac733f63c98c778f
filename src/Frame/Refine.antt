-- ===== src/Frame/Refine.antt =====
-- crates/handoff/src/frame.rs: `FrameAccumulator::poll_read` against `read_message`.
use handoff.Prelude.{
  ℕ, suc, ◌+◌, ◌≤◌, ◌<◌, ◌≡◌, refl, ap, sym, ◌∙◌, ◌⊎◌, inl, inr, Bool, true, false, Option, none,
  some, List, [], ◌++◌, length, take, drop, append-nil, subst, eqb-of_ne, ltb-of_lt, ltb-of_le,
  take-append, dec_lt, arith,
}
use handoff.Error.{
  Result, ok, err, io, from_kind, unexpected_eof, IoError, frame_malformed, frame_too_large,
  Result-cases,
}
use handoff.Protocol.{Message, ProtoVersion}
use handoff.Frame.{
  Codec, Reader, FrameAccumulator, new, bytes, calls, fill, from_le_bytes, max_frame_bytes,
  read_message, decode, advance, poll_loop, poll_read,
}
use handoff.Frame.Fill.{Fills, fill-FillsTo}
use handoff.Frame.Stages.{
  read_message-malformed, read_message-too_large, read_message-no_prefix, read_message-whole,
  read_message-cut,
}

-- The bytes of the stream from the start of the frame in progress.
abbrev pub pending : FrameAccumulator → Reader → List ℕ
pending a r = a.buf ++ bytes r

-- An accumulator that waits for the rest of a frame of `n` bytes behind its length prefix.
pub record InFrame (n : ℕ) (a : FrameAccumulator) : Type 0 where
  pub want_frame : a.want ≡ 4 + n
  pub prefix : from_le_bytes (take 4 a.buf) ≡ n
  pub lo : 2 ≤ n
  pub hi : n ≤ max_frame_bytes
  pub has_prefix : 4 ≤ length a.buf
  pub within : length a.buf ≤ 4 + n

-- The states that `new` and `poll_read` leave an accumulator in.
abbrev pub IsValid : FrameAccumulator → Type 0
IsValid a = ((a.want ≡ 4) × (length a.buf ≤ 4)) ⊎ ((n : ℕ) × InFrame n a)

-- What `poll_read` returns, by what `read_message` makes of the pending bytes `p`.
abbrev pub Refines :
    Codec → List ℕ → Result (Option (ProtoVersion × Message)) → FrameAccumulator → Reader → Type 0
Refines c p (ok (some m)) a r = (read_message c p ≡ ok (m, bytes r)) × (a ≡ new)
Refines c p (ok none) a r = (pending a r ≡ p) × IsValid a × (length a.buf < a.want)
Refines c p (err e) a r =
    (read_message c p ≡ err e) ⊎ ((i : IoError) × (e ≡ io i) × (pending a r ≡ p) × IsValid a)

pub RefinesTo :
    Codec
    → List ℕ
    → Option (Result (Option (ProtoVersion × Message)) × FrameAccumulator × Reader)
    → Type 0
RefinesTo c p polled =
    (out : Result (Option (ProtoVersion × Message)) × FrameAccumulator × Reader) × (polled
      ≡ some out)
    × Refines c p out.0 out.1 out.2

module _ (c : Codec) where
  -- The frame is whole.
  decode-RefinesTo :
      (buf : List ℕ) (r : Reader)
      → 2 ≤ from_le_bytes (take 4 buf)
      → from_le_bytes (take 4 buf) ≤ max_frame_bytes
      → length buf ≡ 4 + from_le_bytes (take 4 buf)
      → RefinesTo c (buf ++ bytes r) (some (decode c buf, new, r))
  unfolding decode RefinesTo
  decode-RefinesTo buf r lo hi h = elim (Result-cases (c.from_bytes (drop 6 buf))) [
    | inl (msg, e) ↦ (
      (ok (some (from_le_bytes (take 2 (drop 4 buf)), msg)), new, r),
      rw e,
      (read_message-whole c buf lo hi (bytes r) h ∙ rw e refl, refl),
    )
    | inr (x, e) ↦
        ((err x, new, r), rw e, inl (read_message-whole c buf lo hi (bytes r) h ∙ rw e refl))
  ]

  -- The inner loop keeps the prefix of a buffer that has one.
  pub prefix-kept :
      (n : ℕ) (a : FrameAccumulator) (buf : List ℕ) (r r' : Reader)
      → InFrame n a
      → buf ++ bytes r' ≡ a.buf ++ bytes r
      → length a.buf ≤ length buf
      → take 4 buf ≡ take 4 a.buf
  prefix-kept n a buf r r' h kept grows =
      sym (take-append 4 buf (bytes r') (omega (arith, h.has_prefix)))
      ∙ ap (take 4) kept
      ∙ take-append 4 a.buf (bytes r) h.has_prefix

  kept-InFrame :
      (n : ℕ) (a : FrameAccumulator) (buf : List ℕ) (r r' : Reader)
      → InFrame n a
      → buf ++ bytes r' ≡ a.buf ++ bytes r
      → length a.buf ≤ length buf
      → length buf ≤ 4 + n
      → InFrame n (record { buf = buf; want = 4 + n })
  kept-InFrame n a buf r r' h kept grows fits = record {
    want_frame = refl;
    prefix = ap from_le_bytes (prefix-kept n a buf r r' h kept grows) ∙ h.prefix;
    lo = h.lo;
    hi = h.hi;
    has_prefix = omega (arith, h.has_prefix);
    within = fits;
  }

  -- The round of the outer loop that reads the frame.
  frame-RefinesTo :
      (f n : ℕ) (a : FrameAccumulator) (r : Reader) (out : Result Bool × List ℕ × Reader)
      → InFrame n a
      → Fills (4 + n) a.buf r out
      → RefinesTo c (pending a r) (advance c (poll_loop c f) (4 + n) out)
  unfolding RefinesTo advance
  frame-RefinesTo f n a r (ok true, buf, r') h fs =
      let p : from_le_bytes (take 4 buf) ≡ n =
        ap from_le_bytes (prefix-kept n a buf r r' h fs.kept fs.grows) ∙ h.prefix in
      rw (eqb-of_ne (4 + n) 4 (omega (arith, h.lo))) (
        subst (λ q. RefinesTo c q (some (decode c buf, new, r'))) fs.kept
          (decode-RefinesTo buf r' (rw p h.lo) (rw p h.hi) (rw p fs.ends)))
  frame-RefinesTo f n a r (ok false, buf, r') h fs = (
    (ok none, record { buf = buf; want = 4 + n }, r'),
    refl,
    (
      fs.kept,
      inr (n, kept-InFrame n a buf r r' h fs.kept fs.grows (omega (arith, fs.ends))),
      fs.ends,
    ),
  )
  frame-RefinesTo f n a r (err e, buf, r') h fs = (
    (err e, record { buf = buf; want = 4 + n }, r'),
    refl,
    elim fs.ends.1 [
      | inl eof ↦ inl (cut eof)
      | inr (i, e') ↦ inr (
        i,
        e',
        fs.kept,
        inr (n, kept-InFrame n a buf r r' h fs.kept fs.grows (omega (arith, fs.ends.0))),
      )
    ],
  )
    where
      p : from_le_bytes (take 4 buf) ≡ n
      p = ap from_le_bytes (prefix-kept n a buf r r' h fs.kept fs.grows) ∙ h.prefix

      cut :
          (e ≡ io (from_kind unexpected_eof)) × (bytes r' ≡ [])
          → read_message c (pending a r) ≡ err e
      cut (eof, ended) =
          ap (read_message c) (sym fs.kept ∙ ap (◌++◌ buf) ended ∙ append-nil buf)
          ∙ read_message-cut c buf (rw p h.lo) (rw p h.hi) (omega (arith, h.has_prefix, fs.grows))
              (rw p fs.ends.0)
          ∙ ap err (sym eof)

  pub poll_loop-filled :
      (f w : ℕ) (a : FrameAccumulator) (r : Reader) (out : Result Bool × List ℕ × Reader)
      → a.want ≡ w
      → fill (suc (calls r)) w a.buf r ≡ some out
      → poll_loop c (suc f) a r ≡ advance c (poll_loop c f) w out
  unfolding poll_loop
  poll_loop-filled f w a r out h e = ground arith

  poll_frame-RefinesTo :
      (f n : ℕ) (a : FrameAccumulator) (r : Reader)
      → InFrame n a
      → RefinesTo c (pending a r) (poll_loop c (suc f) a r)
  poll_frame-RefinesTo f n a r h =
      let (out, e, fs) =
        fill-FillsTo (suc (calls r)) (4 + n) a.buf r (omega arith) (omega (arith, h.within)) in
      rw (poll_loop-filled f (4 + n) a r out h.want_frame e) (frame-RefinesTo f n a r out h fs)

  -- The round that reads the length prefix.
  prefix-RefinesTo :
      (f : ℕ) (a : FrameAccumulator) (r : Reader) (out : Result Bool × List ℕ × Reader)
      → Fills 4 a.buf r out
      → RefinesTo c (pending a r) (advance c (poll_loop c (suc f)) 4 out)
  unfolding RefinesTo advance
  prefix-RefinesTo f a r (ok true, buf, r') fs =
      let n : ℕ = from_le_bytes (take 4 buf) in
      let same : read_message c (buf ++ bytes r') ≡ read_message c (pending a r) =
        ap (read_message c) fs.kept in
      elim (dec_lt n 2) [
        | yes small ↦ rw (ltb-of_lt n 2 small) (
          (err (frame_malformed n), new, r'),
          refl,
          inl (sym same ∙ read_message-malformed c buf (bytes r') (omega (arith, fs.ends)) small),
        )
        | no lo ↦ elim (dec_lt max_frame_bytes n) [
          | yes large ↦
              rw (ltb-of_le n 2 (omega arith), ltb-of_lt max_frame_bytes n large)
                (
                  (err (frame_too_large n), new, r'),
                  refl,
                  inl (
                      sym same
                      ∙ read_message-too_large c buf (bytes r') (omega (arith, fs.ends)) large),
                )
          | no hi ↦
              rw (ltb-of_le n 2 (omega arith), ltb-of_le max_frame_bytes n (omega arith))
                (subst
                  (λ q. RefinesTo c q (poll_loop c (suc f) (record { buf = buf; want = 4 + n }) r'))
                  fs.kept
                  (poll_frame-RefinesTo f n (record { buf = buf; want = 4 + n }) r'
                    (record {
                      want_frame = refl;
                      prefix = refl;
                      lo = omega arith;
                      hi = omega arith;
                      has_prefix = omega (arith, fs.ends);
                      within = omega (arith, fs.ends);
                    })))
        ]
      ]
  prefix-RefinesTo f a r (ok false, buf, r') fs = (
    (ok none, record { buf = buf; want = 4 }, r'),
    refl,
    (fs.kept, inl (refl, omega (arith, fs.ends)), fs.ends),
  )
  prefix-RefinesTo f a r (err e, buf, r') fs = (
    (err e, record { buf = buf; want = 4 }, r'),
    refl,
    elim fs.ends.1 [
      | inl eof ↦ inl (
          ap (read_message c) (sym fs.kept ∙ ap (◌++◌ buf) eof.1 ∙ append-nil buf)
          ∙ read_message-no_prefix c buf fs.ends.0
          ∙ ap err (sym eof.0))
      | inr (i, e') ↦ inr (i, e', fs.kept, inl (refl, omega (arith, fs.ends.0)))
    ],
  )

  poll_prefix-RefinesTo :
      (f : ℕ) (a : FrameAccumulator) (r : Reader)
      → a.want ≡ 4
      → length a.buf ≤ 4
      → RefinesTo c (pending a r) (poll_loop c (suc (suc f)) a r)
  poll_prefix-RefinesTo f a r w h =
      let (out, e, fs) = fill-FillsTo (suc (calls r)) 4 a.buf r (omega arith) h in
      rw (poll_loop-filled (suc f) 4 a r out w e) (prefix-RefinesTo f a r out fs)

pub poll_read-Refines :
    (c : Codec) (a : FrameAccumulator) (r : Reader)
    → IsValid a
    → (out : Result (Option (ProtoVersion × Message)) × FrameAccumulator × Reader) × (poll_read c a
          r
        ≡ some out)
      × Refines c (pending a r) out.0 out.1 out.2
unfolding poll_read RefinesTo
poll_read-Refines c a r (inl (w, h)) =
    rw (w) (poll_prefix-RefinesTo c 0 (record a { want = 4 }) r refl h)
poll_read-Refines c a r (inr (n, h)) =
    rw (eqb-of_ne a.want 0 (omega (arith, h.want_frame))) (poll_frame-RefinesTo c 1 n a r h)
