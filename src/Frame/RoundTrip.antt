-- ===== src/Frame/RoundTrip.antt =====
-- crates/handoff/src/frame.rs: what `encode` writes, `read_message` reads back.
use handoff.Prelude.{
  ℕ, ◌+◌, ◌-◌, ◌^◌, ◌≤◌, ◌<◌, ◌≡◌, refl, inl, inr, List, ◌++◌, length, length-append, take-append,
  drop-append, take-length, drop-length, arith,
}
use handoff.Error.{ok, ◌>>=◌, Result-cases}
use handoff.Protocol.{Message, ProtoVersion}
use handoff.Frame.{
  Codec, to_le_bytes, from_le_bytes, max_frame_bytes, version_field, len_prefix, read_exact, encode,
  read_message,
}

-- `postcard` decodes what it encoded.
pub record IsInverse (c : Codec) : Type 0 where
  pub inverse : (m : Message) (bs : List ℕ) → c.to_allocvec m ≡ ok bs → c.from_bytes bs ≡ ok m

pub from_le-to_le_four : (n : ℕ) → n < 2 ^ 32 → from_le_bytes (to_le_bytes 4 n) ≡ n
from_le-to_le_four n h = omega arith

from_le-to_le_two : (n : ℕ) → n < 2 ^ 16 → from_le_bytes (to_le_bytes 2 n) ≡ n
from_le-to_le_two n h = omega arith

read_exact-append : (n : ℕ) (xs ys : List ℕ) → length xs ≡ n → read_exact n (xs ++ ys) ≡ ok (xs, ys)
unfolding read_exact
read_exact-append n xs ys h =
    rw
      (
        ← h,
        take-append (length xs) xs ys (omega arith),
        drop-append (length xs) xs ys (omega arith),
        take-length xs,
        drop-length xs,
        length-append xs ys,
      )
      (ground arith)

-- The bytes of a frame around a payload.
abbrev pub frame_of : ProtoVersion → List ℕ → List ℕ
frame_of version payload = to_le_bytes 4 (2 + length payload) ++ (to_le_bytes 2 version ++ payload)

-- What a successful `encode` has checked and built.
pub encode-eq-ok :
    (c : Codec) (version : ProtoVersion) (msg : Message) {bs : List ℕ}
    → encode c version msg ≡ ok bs
    → (payload : List ℕ) × (c.to_allocvec msg ≡ ok payload)
      × (2 + length payload ≤ max_frame_bytes)
      × (frame_of version payload ≡ bs)
unfolding encode
encode-eq-ok c version msg h = elim (Result-cases (c.to_allocvec msg)) [
  | inl (payload, e) ↦ (payload, e, ground arith, ground arith)
  | inr (x, e) ↦ absurd (ground arith)
]

read_message-frame_of :
    (c : Codec) (version : ProtoVersion) (payload rest : List ℕ)
    → version < 2 ^ 16
    → 2 + length payload ≤ max_frame_bytes
    → read_message c (frame_of version payload ++ rest)
      ≡ (c.from_bytes payload >>= λ msg. ok ((version, msg), rest))
unfolding read_message
read_message-frame_of c version payload rest hv hl =
    let n : ℕ = 2 + length payload in
    rw
      (
        read_exact-append 4 (to_le_bytes 4 n) (to_le_bytes 2 version ++ (payload ++ rest)) refl,
        from_le-to_le_four n (omega arith),
        read_exact-append 2 (to_le_bytes 2 version) (payload ++ rest) refl,
        from_le-to_le_two version hv,
      )
      (ground (arith, read_exact-append (n - version_field) payload rest (omega arith)))

-- For a codec that decodes what it encoded and a version that fits a `u16`: when `encode` returns
-- bytes, `read_message` reads from them the same version and message, whatever bytes follow, and
-- leaves exactly those that follow; and the frame is at most 4 bytes longer than the cap.
pub read_message-encode :
    (c : Codec) (inv : IsInverse c) (version : ProtoVersion) (msg : Message) (bs rest : List ℕ)
    → version < 2 ^ 16
    → encode c version msg ≡ ok bs
    → (read_message c (bs ++ rest) ≡ ok ((version, msg), rest))
      × (length bs ≤ len_prefix + max_frame_bytes)
read_message-encode c inv version msg bs rest hv h =
    let (payload, e, hl, w) = encode-eq-ok c version msg h in
    (
      rw (← w, read_message-frame_of c version payload rest hv hl, inv.inverse msg payload e),
      rw (← w) (omega arith),
    )
