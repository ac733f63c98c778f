-- ===== src/Sock/Publishes.antt =====
-- crates/handoff/src/sock.rs: who can be reached at the path during `bind_socket`.
use handoff.Prelude.{
  ℕ, suc, ◌+◌, ◌%◌, ◌^◌, ◌≡◌, ◌≢◌, ◌⊎◌, refl, Bool, true, false, inl, inr, Option, none, some, List,
  [], ◌∷◌, if◌then◌else◌, arith,
}
use handoff.Error.{Result, ok, err, Error, io, IoError}
use handoff.Fallible.{and_then}
use handoff.Text.{Text, same}
use handoff.Role.Inherits.{same-≢}
use handoff.Sock.{validate_socket_path}
use handoff.Sock.Bind.{
  Bound, Files, Disk, System, socket_mode, put, change, call, chmod, moved, staging_path, bound,
  publish, finish, bind_at, bind_socket, create_parent, has_parent,
}

same_refl : (a : Text) → same a a ≡ true
same_refl [] = refl
same_refl (c ∷ cs) = ground (arith, same_refl cs)

-- At the path is what was there before, or the new listener with its final mode.
abbrev pub IsIntact : (path : Text) → (old : Option Bound) → (listener : ℕ) → Files → Type 0
IsIntact path old l fs =
    (fs path ≡ old) ⊎ (fs path ≡ some (record { listener = l; mode = socket_mode }))

abbrev pub AllIntact : (path : Text) → (old : Option Bound) → (listener : ℕ) → List Files → Type 0
AllIntact path old l [] = Unit
AllIntact path old l (fs ∷ seen) = IsIntact path old l fs × AllIntact path old l seen

-- What `bind_socket` may leave behind.
abbrev pub Publishes : (staging path : Text) → Disk → Result ℕ × Disk → Type 0
Publishes staging path d (ok l, d') =
    (l ≡ d.count)
    × (d'.files path ≡ some (record { listener = l; mode = socket_mode }))
    × (d'.files staging ≡ none)
    × AllIntact path (d.files path) d.count d'.seen
Publishes staging path d (err e, d') =
    IsIntact path (d.files path) d.count d'.files × AllIntact path (d.files path) d.count d'.seen

-- The path still holds what it held.
record IsBefore (path : Text) (d d' : Disk) : Type 0 where
  held : d'.files path ≡ d.files path
  intact : AllIntact path (d.files path) d.count d'.seen

module _ (s : System) (staging path : Text) (apart : staging ≢ path) (d : Disk) where
  err-Publishes :
      (e : Error) (d' : Disk) → IsBefore path d d' → Publishes staging path d (err e, d')
  err-Publishes e d' b = (inl b.held, b.intact)

  -- Behind the removal of the staging file, after a failure.
  removed-Publishes :
      (e : Error) (o : Option IoError) (d' : Disk)
      → IsBefore path d d'
      → Publishes staging path d (err e, (call o (put staging none) d').1)
  removed-Publishes e (some x) d' b = err-Publishes e d' b
  removed-Publishes e none d' b =
      (inl (ground (arith, same-≢ staging path apart, b.held)), (inl b.held, b.intact))

  cloexec-Publishes :
      (o : Option IoError) (d' : Disk)
      → d'.files path ≡ some (record { listener = d.count; mode = socket_mode })
      → d'.files staging ≡ none
      → AllIntact path (d.files path) d.count d'.seen
      → Publishes staging path d (and_then (call o (λ fs. fs) d') (λ _ d''. (ok d.count, d'')))
  cloexec-Publishes (some x) d' p f a = (inr p, a)
  cloexec-Publishes none d' p f a = (refl, p, f, (inr p, a))

  -- Behind the change of the mode.
  renamed-Publishes :
      (o : Option IoError) (d' : Disk)
      → IsBefore path d d'
      → d'.files staging ≡ some (record { listener = d.count; mode = socket_mode })
      → Publishes staging path d (
          and_then
            (ok (call o (moved staging path) d').0, (call o (moved staging path) d').1)
            (finish s staging d.count))
  renamed-Publishes (some x) d' b f = removed-Publishes (io x) s.remove_last d' b
  renamed-Publishes none d' b f =
      cloexec-Publishes s.set_cloexec (change (moved staging path) d')
        (ground (arith, same-≢ staging path apart, same_refl path, f))
        (ground (arith, same_refl staging)) (inl b.held, b.intact)

  -- Behind the bind: the mode is changed where nobody looks.
  changed-Publishes :
      (o : Option IoError) (d' : Disk)
      → IsBefore path d d'
      → d'.files staging ≡ some (record { listener = d.count; mode = s.umask_mode })
      → let out : Result (Unit {0}) × Disk =
          and_then
            (call o (chmod staging socket_mode) d')
            (λ _. call s.rename (moved staging path)) in
        Publishes staging path d (and_then (ok out.0, out.1) (finish s staging d.count))
  changed-Publishes (some x) d' b f = removed-Publishes (io x) s.remove_last d' b
  changed-Publishes none d' b f =
      renamed-Publishes s.rename (change (chmod staging socket_mode) d')
        (record {
          held = ground (arith, f, same-≢ staging path apart, b.held);
          intact = (inl b.held, b.intact);
        })
        (ground (arith, f, same_refl staging))

  bound-Publishes :
      (o : Option IoError) (b : Option Bound) (d' : Disk)
      → IsBefore path d d'
      → d'.count ≡ d.count
      → d'.files staging ≡ b
      → Publishes staging path d (
          and_then (bound s staging o b d') (λ l d₂.
            and_then
              (ok (publish s staging path d₂).0, (publish s staging path d₂).1)
              (finish s staging l)))
  bound-Publishes (some x) b d' h n f = err-Publishes (io x) d' h
  bound-Publishes none (some b) d' h n f = err-Publishes (io s.eaddrinuse) d' h
  bound-Publishes none none d' h n f = rw n (
      changed-Publishes s.set_permissions
        (record (change (put staging (some (record { listener = d.count; mode = s.umask_mode })))
          d') { count = suc d.count })
        (record {
          held = ground (arith, same-≢ staging path apart, h.held);
          intact = (inl h.held, h.intact);
        })
        (ground (arith, same_refl staging)))

  cleared-Publishes :
      (o : Option IoError) (d' : Disk)
      → IsBefore path d d'
      → d'.count ≡ d.count
      → let d₁ = (call o (put staging none) d').1 in
        Publishes staging path d (
          and_then (bound s staging s.bind (d₁.files staging) d₁) (λ l d₂.
            and_then
              (ok (publish s staging path d₂).0, (publish s staging path d₂).1)
              (finish s staging l)))
  cleared-Publishes (some x) d' b n = bound-Publishes s.bind (d'.files staging) d' b n refl
  cleared-Publishes none d' b n =
      bound-Publishes s.bind (put staging none d'.files staging) (change (put staging none) d')
        (record {
          held = ground (arith, same-≢ staging path apart, b.held);
          intact = (inl b.held, b.intact);
        })
        n refl

  staged-Publishes :
      (r : Result (Unit {0})) (d' : Disk)
      → IsBefore path d d'
      → d'.count ≡ d.count
      → Publishes staging path d (and_then (r, d') (λ _. bind_at s staging path))
  staged-Publishes (err e) d' b n = err-Publishes e d' b
  staged-Publishes (ok _) d' b n = cleared-Publishes s.remove_first d' b n

-- Behind the checks on the path.
parent-Publishes :
    (s : System) (path : Text) (d : Disk) (made : Bool) (o : Option IoError)
    → staging_path s path d.seq ≢ path
    → d.seen ≡ []
    → Publishes (staging_path s path d.seq) path d (
        and_then (if made then call o (λ fs. fs) d else (ok tt, d)) (λ _ d'.
          and_then
            (ok (staging_path s path d'.seq), record d' { seq = (d'.seq + 1) % 2 ^ 32 })
            (λ staging d₁.
              and_then
                (validate_socket_path s.sun_path staging, d₁)
                (λ _. bind_at s staging path))))
parent-Publishes s path d true (some x) a e = (inl refl, rw e tt)
parent-Publishes s path d true none a e =
    staged-Publishes s (staging_path s path d.seq) path a d
      (validate_socket_path s.sun_path (staging_path s path d.seq))
      (record (change (λ fs. fs) d) { seq = (d.seq + 1) % 2 ^ 32 })
      (record { held = refl; intact = (inl refl, rw e tt) }) refl
parent-Publishes s path d false o a e =
    staged-Publishes s (staging_path s path d.seq) path a d
      (validate_socket_path s.sun_path (staging_path s path d.seq))
      (record d { seq = (d.seq + 1) % 2 ^ 32 }) (record { held = refl; intact = rw e tt }) refl

checked-Publishes :
    (s : System) (path : Text) (d : Disk) (r : Result (Unit {0}))
    → staging_path s path d.seq ≢ path
    → d.seen ≡ []
    → Publishes (staging_path s path d.seq) path d (
        and_then
          (r, d)
          (λ _ d₀. and_then (create_parent s path d₀) (λ _ d'.
            and_then
              (ok (staging_path s path d'.seq), record d' { seq = (d'.seq + 1) % 2 ^ 32 })
              (λ staging d₁.
                and_then
                  (validate_socket_path s.sun_path staging, d₁)
                  (λ _. bind_at s staging path)))))
checked-Publishes s path d (err x) a e = (inl refl, rw e tt)
checked-Publishes s path d (ok _) a e =
    parent-Publishes s path d (has_parent (s.parent path)) s.create_dir_all a e

-- For every path, file system, result of each call and umask, where the staging path is not the path itself:
-- in every state of the file system that `bind_socket` passes through, and in the one it leaves, the path holds what
-- it held before or the new listener with mode 0600, never nothing instead of an old binding and never the new
-- listener with another mode. If it succeeds, the path holds the listener that it returns, with mode 0600, and the
-- staging path holds nothing.
pub bind_socket-Publishes :
    (s : System) (path : Text) (d : Disk)
    → staging_path s path d.seq ≢ path
    → d.seen ≡ []
    → Publishes (staging_path s path d.seq) path d (bind_socket s path d)
unfolding bind_socket
bind_socket-Publishes s path d a e =
    checked-Publishes s path d (validate_socket_path s.sun_path path) a e
