-- ===== src/Frame/Fill.antt =====
-- crates/handoff/src/frame.rs: the inner loop of `FrameAccumulator::poll_read`.
use handoff.Prelude.{
  ℕ, zero, suc, ◌+◌, ◌-◌, ◌≤◌, ◌<◌, ◌≡◌, refl, ap, sym, ◌∙◌, ◌⊎◌, inl, inr, Bool, true, false,
  dec_lt, ltb-of_lt, Option, some, List, [], ◌∷◌, ◌++◌, length, take, drop, append_assoc,
  length-append, take-append-drop, length-take, length-drop, arith,
}
use handoff.Error.{
  Result, ok, err, io, from_kind, unexpected_eof, IoError, ErrorKind, interrupted, would_block,
}
use handoff.Frame.{Reader, chunk, fails, put_back, read, bytes, calls, absorb, fill}

bytes-put_back : (xs : List ℕ) (r : Reader) → bytes (put_back xs r) ≡ xs ++ bytes r
bytes-put_back [] r = refl
bytes-put_back (x ∷ xs) r = refl

calls-put_back : (xs : List ℕ) (r : Reader) → calls (put_back xs r) ≡ length xs + calls r
calls-put_back [] r = omega arith
calls-put_back (x ∷ xs) r = refl

-- How the inner loop ends: with a full buffer, or short of it at a timeout, at the end of the
-- stream, or at another I/O error.
abbrev pub Ends : ℕ → Result Bool → List ℕ → Reader → Type 0
Ends want (ok true) buf r = length buf ≡ want
Ends want (ok false) buf r = length buf < want
Ends want (err e) buf r =
    (length buf < want)
    × (((e ≡ io (from_kind unexpected_eof)) × (bytes r ≡ [])) ⊎ ((i : IoError) × (e ≡ io i)))

-- No byte is lost or reordered, and no byte is read beyond the frame in progress.
pub record Fills (want : ℕ) (buf : List ℕ) (r : Reader) (out : Result Bool × List ℕ × Reader)
    : Type 0 where
  pub kept : out.1 ++ bytes out.2 ≡ buf ++ bytes r
  pub grows : length buf ≤ length out.1
  pub ends : Ends want out.0 out.1 out.2

abbrev pub FillsTo : ℕ → ℕ → List ℕ → Reader → Type 0
FillsTo f want buf r =
    (out : Result Bool × List ℕ × Reader) × (fill f want buf r ≡ some out) × Fills want buf r out

Fills-chunk :
    (want k b : ℕ) (bs buf : List ℕ) (r : Reader) (out : Result Bool × List ℕ × Reader)
    → Fills want (buf ++ b ∷ take k bs) (put_back (drop k bs) r) out
    → Fills want buf (chunk b bs ∷ r) out
Fills-chunk want k b bs buf r out h = record {
  kept =
      h.kept
      ∙ append_assoc buf (b ∷ take k bs) (bytes (put_back (drop k bs) r))
      ∙ ap (λ (t : List ℕ). buf ++ b ∷ t)
          (ap (◌++◌ (take k bs)) (bytes-put_back (drop k bs) r)
            ∙ sym (append_assoc (take k bs) (drop k bs) (bytes r))
            ∙ ap (λ (t : List ℕ). t ++ bytes r) (take-append-drop k bs));
  grows = omega (arith, h.grows, length-append buf (b ∷ take k bs));
  ends = h.ends;
}

fill-full :
    (f want : ℕ) (buf : List ℕ) (r : Reader) → length buf ≡ want → FillsTo (suc f) want buf r
unfolding fill
fill-full f want buf r h =
    ((ok true, buf, r), ground arith, record { kept = refl; grows = omega arith; ends = h })

-- A buffer that is short by `suc k` bytes, before an error.
fill-fails :
    (f want : ℕ) (buf : List ℕ) (k : ErrorKind) (o : Option ℕ) (r : Reader)
    → length buf < want
    → FillsTo f want buf r
    → FillsTo (suc f) want buf (fails (record { kind = k; raw_os_error = o }) ∷ r)
unfolding fill read absorb
fill-fails f want buf interrupted o r h (out, e, fs) =
    (out, ground arith, record { kept = fs.kept; grows = fs.grows; ends = fs.ends })
fill-fails f want buf would_block o r h ih =
    ((ok false, buf, r), ground arith, record { kept = refl; grows = omega arith; ends = h })
fill-fails f want buf ErrorKind.timed_out o r h ih =
    ((ok false, buf, r), ground arith, record { kept = refl; grows = omega arith; ends = h })
fill-fails f want buf k o r h ih = (
  (err (io (record { kind = k; raw_os_error = o })), buf, r),
  ground arith,
  record { kept = refl; grows = omega arith; ends = (h, inr (_, refl)) },
)

-- A buffer that is short by `suc k` bytes, before a chunk.
fill-chunk :
    (f want k : ℕ) (buf : List ℕ) (b : ℕ) (bs : List ℕ) (r : Reader)
    → want - length buf ≡ suc k
    → length buf < want
    → FillsTo f want (buf ++ b ∷ take k bs) (put_back (drop k bs) r)
    → FillsTo (suc f) want buf (chunk b bs ∷ r)
unfolding fill read absorb
fill-chunk f want k buf b bs r e short (out, o, fs) =
    (out, rw (e, ltb-of_lt (length buf) want short) o, Fills-chunk want k b bs buf r out fs)

-- Enough fuel: the inner loop ends, and does what it should.
pub fill-FillsTo :
    (f want : ℕ) (buf : List ℕ) (r : Reader)
    → calls r < f
    → length buf ≤ want
    → FillsTo f want buf r
unfolding fill read absorb
fill-FillsTo zero want buf r h hb = elim h [ ]
fill-FillsTo (suc f) want buf [] h hb = elim (dec_lt (length buf) want) [
  | no full ↦ fill-full f want buf [] (omega arith)
  | yes short ↦ (
    (err (io (from_kind unexpected_eof)), buf, []),
    ground arith,
    record { kept = refl; grows = omega arith; ends = (short, inl (refl, refl)) },
  )
]
fill-FillsTo (suc f) want buf (fails e ∷ r) h hb = elim (dec_lt (length buf) want) [
  | no full ↦ fill-full f want buf (fails e ∷ r) (omega arith)
  | yes short ↦
      fill-fails f want buf e.kind e.raw_os_error r short
        (fill-FillsTo f want buf r (omega arith) hb)
]
fill-FillsTo (suc f) want buf (chunk b bs ∷ r) h hb = elim (dec_lt (length buf) want) [
  | no full ↦ fill-full f want buf (chunk b bs ∷ r) (omega arith)
  | yes short ↦
      let k : ℕ = want - length buf - 1 in
      let e : want - length buf ≡ suc k = omega arith in
      fill-chunk f want k buf b bs r e short (
        fill-FillsTo f want (buf ++ b ∷ take k bs) (put_back (drop k bs) r)
          (omega (arith, calls-put_back (drop k bs) r, length-drop k bs))
          (omega (arith, length-append buf (b ∷ take k bs), length-take k bs)))
]
