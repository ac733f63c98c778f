-- ===== src/Frame/Stages.antt =====
-- crates/handoff/src/frame.rs: what `read_message` makes of a frame that is whole, and of one that
-- is cut short.
use handoff.Prelude.{
  ℕ, ◌+◌, ◌-◌, ◌≤◌, ◌<◌, ◌≡◌, List, ◌++◌, length, take, drop, length-append, length-drop,
  take-append, drop-append, take-length, drop-length, drop-drop, dec_lt, arith,
}
use handoff.Error.{ok, err, ◌>>=◌, io, from_kind, unexpected_eof, frame_malformed, frame_too_large}
use handoff.Frame.{Codec, read_exact, read_message, from_le_bytes, max_frame_bytes}

read_exact-ok : (n : ℕ) (xs : List ℕ) → n ≤ length xs → read_exact n xs ≡ ok (take n xs, drop n xs)
unfolding read_exact
read_exact-ok n xs h = ground arith

read_exact-split :
    (n : ℕ) (xs ys : List ℕ)
    → n ≤ length xs
    → read_exact n (xs ++ ys) ≡ ok (take n xs, drop n xs ++ ys)
unfolding read_exact
read_exact-split n xs ys h =
    ground (arith, take-append n xs ys h, drop-append n xs ys h, length-append xs ys)

read_exact-all : (n : ℕ) (xs ys : List ℕ) → length xs ≡ n → read_exact n (xs ++ ys) ≡ ok (xs, ys)
read_exact-all n xs ys h =
    rw (read_exact-split n xs ys (omega arith), ← h, take-length xs, drop-length xs)

read_exact-short :
    (n : ℕ) (xs : List ℕ) → length xs < n → read_exact n xs ≡ err (io (from_kind unexpected_eof))
unfolding read_exact
read_exact-short n xs h = ground arith

module _ (c : Codec) (buf : List ℕ) where
  abbrev frame_len : ℕ
  frame_len = from_le_bytes (take 4 buf)

  pub read_message-malformed :
      (rest : List ℕ)
      → 4 ≤ length buf
      → frame_len < 2
      → read_message c (buf ++ rest) ≡ err (frame_malformed frame_len)
  unfolding read_message
  read_message-malformed rest h lt = rw (read_exact-split 4 buf rest h) (ground arith)

  pub read_message-too_large :
      (rest : List ℕ)
      → 4 ≤ length buf
      → max_frame_bytes < frame_len
      → read_message c (buf ++ rest) ≡ err (frame_too_large frame_len)
  unfolding read_message
  read_message-too_large rest h lt = rw (read_exact-split 4 buf rest h) (ground arith)

  pub read_message-no_prefix :
      length buf < 4 → read_message c buf ≡ err (io (from_kind unexpected_eof))
  unfolding read_message
  read_message-no_prefix h = rw (read_exact-short 4 buf h)

  module _ (lo : 2 ≤ frame_len) (hi : frame_len ≤ max_frame_bytes) where
    pub read_message-whole :
        (rest : List ℕ)
        → length buf ≡ 4 + frame_len
        → read_message c (buf ++ rest) ≡ (
            c.from_bytes (drop 6 buf) >>= λ msg.
            ok ((from_le_bytes (take 2 (drop 4 buf)), msg), rest))
    unfolding read_message
    read_message-whole rest h =
        rw
          (
            read_exact-split 4 buf rest (omega arith),
            read_exact-split 2 (drop 4 buf) rest (omega (arith, length-drop 4 buf)),
            drop-drop 4 2 buf,
            read_exact-all (frame_len - 2) (drop 6 buf) rest (omega (arith, length-drop 6 buf)),
          )
          (ground arith)

    pub read_message-cut :
        4 ≤ length buf
        → length buf < 4 + frame_len
        → read_message c buf ≡ err (io (from_kind unexpected_eof))
    unfolding read_message
    read_message-cut h lt = elim (dec_lt (length buf) 6) [
      | yes no_version ↦
          rw
            (
              read_exact-ok 4 buf h,
              read_exact-short 2 (drop 4 buf) (omega (arith, length-drop 4 buf)),
            )
            (ground arith)
      | no payload ↦
          rw
            (
              read_exact-ok 4 buf h,
              read_exact-ok 2 (drop 4 buf) (omega (arith, length-drop 4 buf)),
              drop-drop 4 2 buf,
              read_exact-short (frame_len - 2) (drop 6 buf) (omega (arith, length-drop 6 buf)),
            )
            (ground arith)
    ]
