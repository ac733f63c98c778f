-- ===== src/Sock/Send.antt =====
-- crates/handoff/src/sock.rs: `send_all`. The socket is the list of what its `send` calls return, with the bytes
-- that the peer has got; behind the end of the list a call runs into the write timeout.
use handoff.Prelude.{
  ℕ, zero, suc, ◌+◌, ◌≤◌, ◌<◌, ◌≡◌, refl, sym, ap, ◌∙◌, List, [], ◌∷◌, ◌++◌, append-nil,
  append_assoc, length, take, drop, take-append-drop, length-drop, arith,
}
use handoff.Error.{Result, ok, err, io, IoError, from_kind, interrupted, would_block, write_zero}

pub data Sent : Type 0 where
  sent : ℕ → Sent
  failed : IoError → Sent

pub record Socket : Type 0 where
  pub answers : List Sent
  pub delivered : List ℕ

-- What is done with the failure of a call.
abbrev pub retry_or : {A : Type 0} → IoError → (retry stop : A) → A
retry_or e retry stop = elim e.kind [ interrupted ↦ retry | _ ↦ stop ]

-- The loop, with the bytes that are still to be sent.
unfoldable pub send_rest : List Sent → (rest delivered : List ℕ) → Result (Unit {0}) × Socket
send_rest xs [] d = (ok tt, record { answers = xs; delivered = d })
send_rest [] (b ∷ bs) d = (err (io (from_kind would_block)), record { answers = []; delivered = d })
send_rest (failed e ∷ xs) (b ∷ bs) d =
    retry_or e (send_rest xs (b ∷ bs) d) (err (io e), record { answers = xs; delivered = d })
send_rest (sent zero ∷ xs) (b ∷ bs) d =
    (err (io (from_kind write_zero)), record { answers = xs; delivered = d })
send_rest (sent (suc n) ∷ xs) (b ∷ bs) d = send_rest xs (drop n bs) (d ++ (b ∷ take n bs))

unfoldable pub send_all : List ℕ → Socket → Result (Unit {0}) × Socket
send_all buf s = send_rest s.answers buf s.delivered

-- All of it was sent, or a part from its start.
abbrev pub Sends : (buf before : List ℕ) → Result (Unit {0}) × Socket → Type 0
Sends buf d (ok _, s) = s.delivered ≡ d ++ buf
Sends buf d (err e, s) = (k : ℕ) × (k < length buf) × (s.delivered ≡ d ++ take k buf)

take-nil : (n : ℕ) → take {A = ℕ} n [] ≡ []
take-nil zero = refl
take-nil (suc n) = refl

take-plus : (n k : ℕ) (bs : List ℕ) → take n bs ++ take k (drop n bs) ≡ take (n + k) bs
take-plus zero k bs = ap (λ (j : ℕ). take j bs) {x = k} {y = 0 + k} (omega arith)
take-plus (suc n) k [] = rw (take-nil k, take-nil (suc n + k)) refl
take-plus (suc n) k (b ∷ bs) =
    ap (◌∷◌ b) (take-plus n k bs)
    ∙ ap (λ (j : ℕ). take j (b ∷ bs)) {x = suc (n + k)} {y = suc n + k} (omega arith)

partial-Sends :
    (n b : ℕ) (bs d : List ℕ) (out : Result (Unit {0}) × Socket)
    → Sends (drop n bs) (d ++ (b ∷ take n bs)) out
    → Sends (b ∷ bs) d out
partial-Sends n b bs d (ok _, s) h =
    h
    ∙ append_assoc d (b ∷ take n bs) (drop n bs)
    ∙ ap (λ (x : List ℕ). d ++ (b ∷ x)) (take-append-drop n bs)
partial-Sends n b bs d (err e, s) (k, l, h) = (
  suc (n + k),
  omega (arith, length-drop n bs),
  h
      ∙ append_assoc d (b ∷ take n bs) (take k (drop n bs))
      ∙ ap (λ (x : List ℕ). d ++ (b ∷ x)) (take-plus n k bs),
)

unsent-Sends :
    (b : ℕ) (bs d : List ℕ) (e : IoError) (xs : List Sent)
    → Sends (b ∷ bs) d (err (io e), record { answers = xs; delivered = d })
unsent-Sends b bs d e xs = (0, omega arith, sym (append-nil d))

send_rest-Sends : (xs : List Sent) (buf d : List ℕ) → Sends buf d (send_rest xs buf d)
unfolding send_rest
send_rest-Sends xs [] d = sym (append-nil d)
send_rest-Sends [] (b ∷ bs) d = unsent-Sends b bs d (from_kind would_block) []
send_rest-Sends (failed e ∷ xs) (b ∷ bs) d =
    ground (arith, send_rest-Sends xs (b ∷ bs) d, unsent-Sends b bs d e xs)
send_rest-Sends (sent zero ∷ xs) (b ∷ bs) d = unsent-Sends b bs d (from_kind write_zero) xs
send_rest-Sends (sent (suc n) ∷ xs) (b ∷ bs) d =
    partial-Sends n b bs d (send_rest xs (drop n bs) (d ++ (b ∷ take n bs)))
      (send_rest-Sends xs (drop n bs) (d ++ (b ∷ take n bs)))

-- For every buffer and every sequence of results of `send`, interruptions and partial writes among them:
-- if `send_all` succeeds, the peer has got exactly the buffer behind what it had before; if
-- it fails, a part from the buffer's start that lacks at least its last byte.
pub send_all-Sends : (buf : List ℕ) (s : Socket) → Sends buf s.delivered (send_all buf s)
unfolding send_all
send_all-Sends buf s = send_rest-Sends s.answers buf s.delivered

-- Calls that are interrupted or send something, `n` of them the latter.
abbrev pub Progresses : ℕ → List Sent → Type 0
Progresses zero xs = Unit
Progresses (suc n) [] = ⊥
Progresses (suc n) (failed e ∷ xs) = (e.kind ≡ interrupted) × Progresses (suc n) xs
Progresses (suc n) (sent zero ∷ xs) = ⊥
Progresses (suc n) (sent (suc k) ∷ xs) = Progresses n xs

send_rest-completes :
    (n : ℕ) (xs : List Sent) (buf d : List ℕ)
    → length buf ≤ n
    → Progresses n xs
    → (send_rest xs buf d).0 ≡ ok tt
unfolding send_rest
send_rest-completes n xs [] d l p = refl
send_rest-completes zero xs (b ∷ bs) d l p = absurd (omega arith)
send_rest-completes (suc n) [] (b ∷ bs) d l p = absurd p
send_rest-completes (suc n) (failed e ∷ xs) (b ∷ bs) d l (i, p) =
    rw i (send_rest-completes (suc n) xs (b ∷ bs) d l p)
send_rest-completes (suc n) (sent zero ∷ xs) (b ∷ bs) d l p = absurd p
send_rest-completes (suc n) (sent (suc k) ∷ xs) (b ∷ bs) d l p =
    send_rest-completes n xs (drop k bs) (d ++ (b ∷ take k bs)) (omega (arith, length-drop k bs)) p

-- For every buffer: if each call of `send` is interrupted or sends at least one byte, and as many send as
-- the buffer has bytes, `send_all` succeeds, and the peer has got exactly the buffer.
pub send_all-completes :
    (buf : List ℕ) (s : Socket)
    → Progresses (length buf) s.answers
    → ((send_all buf s).0 ≡ ok tt) × ((send_all buf s).1.delivered ≡ s.delivered ++ buf)
unfolding send_all
send_all-completes buf s p =
    let e = send_rest-completes (length buf) s.answers buf s.delivered (omega arith) p in
    (e, ground (arith, e, send_all-Sends buf s))
