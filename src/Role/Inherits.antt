-- ===== src/Role/Inherits.antt =====
-- crates/handoff/src/role.rs: the loop that adopts the inherited listeners.
use handoff.Prelude.{
  ℕ, zero, suc, ◌+◌, ◌^◌, ◌≤◌, ◌<◌, ◌≡◌, ◌≢◌, refl, sym, ap, subst, ◌∙◌, Bool, true, false,
  Bool-cases, inl, inr, Option, none, some, List, [], ◌∷◌, ◌++◌, append-nil, append_assoc, length,
  arith,
}
use handoff.Error.{ℤ, pos, negsuc, IoError}
use handoff.Text.{Text, same}
use handoff.Fd.{Slot, Table}
use handoff.Process.{
  Process, Host, described, slot_at, put_at, description_of, fd_is_socket, set_cloexec,
  clear_nonblocking, setfd,
}
use handoff.Role.Environment.{
  Listeners, insert, get_elem?, as_i32, name_at, normalize_inherited_fd, adopt, adopt_all,
}

pub same-≡ : (a b : Text) → same a b ≡ true → a ≡ b
same-≡ [] [] h = refl
same-≡ (c ∷ cs) (d ∷ ds) h = ground (arith, same-≡ cs ds)
same-≡ [] (d ∷ ds) h = absurd (ground arith)
same-≡ (c ∷ cs) [] h = absurd (ground arith)

pub same-≢ : (a b : Text) → a ≢ b → same a b ≡ false
same-≢ a b n = elim (Bool-cases (same a b)) [ inl e ↦ absurd (n (same-≡ a b e)) | inr e ↦ e ]

abbrev pub Absent : Text → List Text → Type 0
Absent w [] = Unit
Absent w (v ∷ vs) = (w ≢ v) × Absent w vs

abbrev pub AreDistinct : List Text → Type 0
AreDistinct [] = Unit
AreDistinct (w ∷ ws) = Absent w ws × AreDistinct ws

-- No name of `ws` is a key.
abbrev pub Apart : Listeners → List Text → Type 0
Apart [] ws = Unit
Apart ((n, f) ∷ ls) ws = Absent n ws × Apart ls ws

insert-new :
    (name : Text) (fd : ℤ) (ls : Listeners) (ws : List Text)
    → Apart ls (name ∷ ws)
    → insert name fd ls ≡ ls ++ ((name, fd) ∷ [])
unfolding insert
insert-new name fd [] ws h = refl
insert-new name fd ((n, f) ∷ ls) ws ((d, _), h) =
    rw (same-≢ n name d) (ap (◌∷◌ (n, f)) (insert-new name fd ls ws h))

Apart-append :
    (name : Text) (fd : ℤ) (ls : Listeners) (ws : List Text)
    → Apart ls (name ∷ ws)
    → Absent name ws
    → Apart (ls ++ ((name, fd) ∷ [])) ws
Apart-append name fd [] ws h a = (a, tt)
Apart-append name fd ((n, f) ∷ ls) ws ((_, b), h) a = (b, Apart-append name fd ls ws h a)

-- Behind every descriptor is the open file description that was there before.
abbrev pub Preserves : Process → Process → Type 0
Preserves p q = (fd : ℤ) → described q fd ≡ described p fd

-- The names, each at its descriptor.
abbrev pub positions : ℕ → List Text → Listeners
positions i [] = []
positions i (w ∷ ws) = (w, pos (3 + i)) ∷ positions (suc i) ws

-- What the loop leaves.
abbrev pub Adopts : List Text → (i : ℕ) → Listeners × Process → Listeners × Process → Type 0
Adopts ws i (ls, p) (ls', q) = (ls' ≡ ls ++ positions i ws) × Preserves p q

put_at-described :
    (t : Table) (fd : ℤ) (s : Slot) (b : Bool) (j : ℤ)
    → slot_at t fd ≡ some s
    → description_of (slot_at (put_at fd (record s { cloexec = b }) t) j)
      ≡ description_of (slot_at t j)
put_at-described t (pos a) s b (pos j) e = ground arith
put_at-described t (pos a) s b (negsuc j) e = refl
put_at-described t (negsuc a) s b j e = refl

module _ (h : Host) where
  setfd-Preserves :
      (fd : ℤ) (s : Slot) (r : Option IoError) (p : Process)
      → slot_at p.table fd ≡ some s
      → Preserves p (setfd h fd s r p).1
  setfd-Preserves fd s none p e j = put_at-described p.table fd s true j e
  setfd-Preserves fd s (some x) p e j = refl

  pub set_cloexec-Preserves : (fd : ℤ) (p : Process) → Preserves p (set_cloexec h fd p).1
  unfolding set_cloexec
  set_cloexec-Preserves fd p = go (slot_at p.table fd) refl
    where
      go : (slot : Option Slot) → slot_at p.table fd ≡ slot → Preserves p (set_cloexec h fd p).1
      go none e j = ground arith
      go (some s) e j = ground (arith, setfd-Preserves fd s (h.refuses_setfd p fd) p e j)

  clear_nonblocking-Preserves : (fd : ℤ) (p : Process) → Preserves p (clear_nonblocking h fd p).1
  unfolding clear_nonblocking
  clear_nonblocking-Preserves fd p j = ground arith

  pub normalize_inherited_fd-Preserves :
      (fd : ℤ) (p : Process) → Preserves p (normalize_inherited_fd h fd p)
  unfolding normalize_inherited_fd
  normalize_inherited_fd-Preserves fd p j =
      clear_nonblocking-Preserves fd (set_cloexec h fd p).1 j ∙ set_cloexec-Preserves fd p j

  pub fd_is_socket-Preserves :
      (p q : Process) (fd : ℤ)
      → Preserves p q
      → fd_is_socket h fd p ≡ true
      → fd_is_socket h fd q ≡ true
  unfolding fd_is_socket
  fd_is_socket-Preserves p q fd k e = rw (k fd) e

  -- Each of the `n` descriptors from the `i`-th on is a socket.
  abbrev pub AllSockets : (n i : ℕ) → Process → Type 0
  AllSockets zero i p = Unit
  AllSockets (suc n) i p = (fd_is_socket h (pos (3 + i)) p ≡ true) × AllSockets n (suc i) p

  AllSockets-Preserves :
      (n i : ℕ) (p q : Process) → Preserves p q → AllSockets n i p → AllSockets n i q
  AllSockets-Preserves zero i p q k s = tt
  AllSockets-Preserves (suc n) i p q k (e, s) =
      (fd_is_socket-Preserves p q (pos (3 + i)) k e, AllSockets-Preserves n (suc i) p q k s)

  as_i32-small : (n : ℕ) → n < 2 ^ 31 → as_i32 n ≡ pos n
  as_i32-small n l = ground arith

  adopt-socket :
      (w : Text) (i : ℕ) (names ws : List Text) (ls : Listeners) (p : Process)
      → get_elem? names i ≡ some w
      → 3 + i < 2 ^ 31
      → fd_is_socket h (pos (3 + i)) p ≡ true
      → Apart ls (w ∷ ws)
      → adopt h (name_at (get_elem? names i) i) (as_i32 (3 + i)) (ls, p)
        ≡ (ls ++ ((w, pos (3 + i)) ∷ []), normalize_inherited_fd h (pos (3 + i)) p)
  adopt-socket w i names ws ls p n l s a =
      rw (n, as_i32-small (3 + i) l, s, insert-new w (pos (3 + i)) ls ws a)

  pub adopt_all-Adopts :
      (ws : List Text) (i : ℕ) (names : List Text) (ls : Listeners) (p : Process)
      → ((j : ℕ) → get_elem? names (i + j) ≡ get_elem? ws j)
      → 3 + i + length ws ≤ 2 ^ 31
      → AllSockets (length ws) i p
      → Apart ls ws
      → AreDistinct ws
      → Adopts ws i (ls, p) (adopt_all h (length ws) i names (ls, p))
  unfolding adopt_all
  adopt_all-Adopts [] i names ls p n l s a d = (sym (append-nil ls), (λ j. refl))
  adopt_all-Adopts (w ∷ ws) i names ls p n l (s, ss) a (x, d) =
      let e =
        adopt-socket w i names ws ls p
          (ap (get_elem? names) {x = i} {y = i + 0} (omega arith) ∙ n 0) (omega arith) s a in
      let q = normalize_inherited_fd h (pos (3 + i)) p in
      let k = normalize_inherited_fd-Preserves (pos (3 + i)) p in
      let (r, k') =
        adopt_all-Adopts ws (suc i) names (ls ++ ((w, pos (3 + i)) ∷ [])) q
          (λ j. ap (get_elem? names) {x = suc i + j} {y = i + suc j} (omega arith) ∙ n (suc j))
          (omega arith) (AllSockets-Preserves (length ws) (suc i) p q k ss)
          (Apart-append w (pos (3 + i)) ls ws a x) d in
      subst (λ s. Adopts (w ∷ ws) i (ls, p) (adopt_all h (length ws) (suc i) names s)) (sym e)
        (r ∙ append_assoc ls ((w, pos (3 + i)) ∷ []) (positions (suc i) ws), (λ j. k' j ∙ k j))

  normalize_inherited_fd-vars :
      (fd : ℤ) (p : Process) → (normalize_inherited_fd h fd p).vars ≡ p.vars
  unfolding normalize_inherited_fd set_cloexec clear_nonblocking
  normalize_inherited_fd-vars fd p = ground arith

  pub adopt_all-vars :
      (n i : ℕ) (names : List Text) (s : Listeners × Process)
      → (adopt_all h n i names s).1.vars ≡ s.1.vars
  unfolding adopt_all
  adopt_all-vars zero i names s = refl
  adopt_all-vars (suc n) i names (ls, p) =
      let fd = as_i32 (3 + i) in
      let name = name_at (get_elem? names i) i in
      adopt_all-vars n (suc i) names (adopt h name fd (ls, p))
      ∙ ground (arith, normalize_inherited_fd-vars fd p)
