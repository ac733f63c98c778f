-- ===== src/Primitive/Serves.antt =====
-- crates/handoff-tests/src/bin/primitive.rs: what holds once the process serves, and when it does not come to that.
use handoff.Prelude.{
  ℕ, ◌^◌, ◌<◌, ◌≡◌, ◌≢◌, ◌⊎◌, ap, ◌∙◌, sym, refl, inl, inr, none, some, List, [], ◌++◌,
}
use handoff.Error.{IsErr, Result, ok, err, Result-cases}
use handoff.Protocol.{proto_max}
use handoff.Frame.{read_message}
use handoff.Frame.RoundTrip.{IsInverse}
use handoff.Frame.Write.{write_frame}
use handoff.Lock
use handoff.Lock.{DataDirLock, acquire, release, remove_pidfile}
use handoff.Lock.Acquire.{Acquires, acquire-Acquires}
use handoff.Sock.Bind.{Disk, staging_path, socket_mode, bind_socket}
use handoff.Sock.Publishes.{Publishes, IsIntact, bind_socket-Publishes}
use handoff.Fallible.{and_then, pure}
use handoff.Role.{Reads, BegunSuccessor, handshake, start, ready_of}
use handoff.Role.Begin.{Starts, start-Starts}
use handoff.Role.Takeover.{
  Takeover, Incumbent, announce_and_bind, TakesOver, announce_and_bind-TakesOver,
}
use handoff.Incumbent.Sessions.{IsIdle}
use handoff.Incumbent.Accepts.{ServeEnds, serve-ServeEnds}
use handoff.Fleet.{fresh}
use handoff.Primitive.{
  Around, State, Run, failed, served, snapshot, go_on, succeed_with, begun_with, greeting_of,
  cold_start_with, run_cold_start, run_successor,
}

module _ (a : Around) where
  -- The peer has the whole `Ready` of a handoff that the supervisor began, behind what it had.
  abbrev pub IsAnnounced : Reads → (before after : Takeover) → Type 0
  IsAnnounced control t t' =
      (b : BegunSuccessor) × Starts b control
      × (bs : List ℕ) × (t'.control.delivered ≡ t.control.delivered ++ bs)
      × ((rest : List ℕ) → read_message a.codec (bs ++ rest) ≡ ok (ready_of b snapshot, rest))

  -- The flock was free, and `acquire` took it.
  abbrev pub HasLock : Lock.Disk → Type 0
  HasLock d =
      (l : DataDirLock) × ((acquire a.env.me a.faults d).0 ≡ ok l)
      × (d.flock ≡ none)
      × ((acquire a.env.me a.faults d).1.flock ≡ some a.env.me)

  -- The path leads to a listener with its final mode.
  abbrev pub IsBound : Takeover → Type 0
  IsBound t =
      (l : ℕ) × (t.disk.files a.socket_path ≡ some (record { listener = l; mode = socket_mode }))

  -- A successor that stops before `serve`, and how far it has come: it was not begun; or it has not the lock; or it
  -- has the lock, and the files are as they were or it has delivered its `Ready`.
  abbrev pub Stops : Reads → Takeover → Lock.Disk → State → Type 0
  Stops control t d s =
      ((s.takeover ≡ t) × (s.flock ≡ d))
      ⊎ (((b : BegunSuccessor) × Starts b control)
          × ((IsErr (acquire a.env.me a.faults d).0
                × (s.takeover ≡ t)
                × (s.flock ≡ (acquire a.env.me a.faults d).1))
              ⊎ (HasLock d × ((s.takeover.disk ≡ t.disk) ⊎ IsAnnounced control t s.takeover))))

  -- How a successor runs, with the `Hello` sent in `t`.
  abbrev pub Runs : Reads → Takeover → Lock.Disk → Run → Type 0
  Runs control t d (served t' end w) =
      HasLock d × IsAnnounced control t t' × IsBound t' × ServeEnds (end, w)
  Runs control t d (failed e s) = (s.flock.flock ≡ d.flock) × Stops control t d s

  fresh-IsIdle : (l : DataDirLock) (d : Lock.Disk) → IsIdle (fresh l d)
  fresh-IsIdle l d = record { settled = refl; has_lock = refl; ordered = tt }

  go_on-Runs :
      (control : Reads) (b : BegunSuccessor) (t : Takeover) (before d : Lock.Disk)
      (lock : DataDirLock) (out : Result Incumbent × Takeover)
      → HasLock before
      → Starts b control
      → TakesOver a.codec a.system (ready_of b snapshot) a.socket_path t out
      → Runs control t before (go_on a lock d out)
  unfolding release remove_pidfile
  go_on-Runs control b t before d lock (ok i, t') has s (inl ((bs, e, reads), p)) = (
    has,
    (b, s, bs, e, reads),
    (i.listener, p.1),
    serve-ServeEnds a.env a.libc a.euid a.accepts (fresh lock d) (fresh-IsIdle lock d),
  )
  go_on-Runs control b t before d lock (ok i, t') has s (inr (x, e)) = absurd x
  go_on-Runs control b t before d lock (err x, t') has s (inl ((bs, e, reads), p)) =
      let (_, _, free, _) = has in (sym free, inr ((b, s), inr (has, inr (b, s, bs, e, reads))))
  go_on-Runs control b t before d lock (err x, t') has s (inr (y, e)) =
      let (_, _, free, _) = has in (sym free, inr ((b, s), inr (has, inl e)))

  acquired-HasLock :
      (d d' : Lock.Disk) (l : DataDirLock)
      → acquire a.env.me a.faults d ≡ (ok l, d')
      → Acquires a.env.me d (ok l, d')
      → HasLock d
  acquired-HasLock d d' l e (free, _, held, _) = (
    l,
    ap (λ (x : Result DataDirLock × Lock.Disk). x.0) e,
    free,
    ap (λ (x : Result DataDirLock × Lock.Disk). x.1.flock) e ∙ held,
  )

  succeed_with-Runs :
      (control : Reads) (b : BegunSuccessor) (t : Takeover) (before : Lock.Disk)
      (out : Result DataDirLock × Lock.Disk)
      → acquire a.env.me a.faults before ≡ out
      → Acquires a.env.me before out
      → Starts b control
      → ((l : DataDirLock)
          → TakesOver a.codec a.system
              (ready_of b snapshot)
              a.socket_path
              t
              (announce_and_bind a.codec a.system b snapshot a.socket_path a.data_dir l t))
      → Runs control t before (succeed_with a b t out)
  succeed_with-Runs control b t before (ok l, d) same q s takes =
      go_on-Runs control b t before d l
        (announce_and_bind a.codec a.system b snapshot a.socket_path a.data_dir l t)
        (acquired-HasLock before d l same q) s (takes l)
  succeed_with-Runs control b t before (err e, d) same q s takes =
      (q, inr ((b, s), inl (rw same tt, refl, rw same refl)))

  -- The bytes of `Hello` are behind what the supervisor had.
  abbrev pub greeted : State → Takeover
  greeted s = record s.takeover {
    control = (write_frame a.codec proto_max (greeting_of a) s.takeover.control).1;
  }

  begun_with-Runs :
      (inv : IsInverse a.codec) (control : Reads) (t : Takeover) (d : Lock.Disk)
      (written : Result (Unit {0}))
      → ((b : BegunSuccessor) → Starts b control → b.proto_version < 2 ^ 16)
      → staging_path a.system a.socket_path t.disk.seq ≢ a.socket_path
      → t.disk.seen ≡ []
      → Runs control t d (begun_with a t d (start a.wrong_id written control))
  unfolding handshake
  begun_with-Runs inv control t d (err e) fits apart unseen = (refl, inl (refl, refl))
  begun_with-Runs inv control t d (ok _) fits apart unseen =
      elim (Result-cases (start a.wrong_id (ok tt) control)) [
        | inr (x, e) ↦ rw e (refl, inl (refl, refl))
        | inl (b, e) ↦
            let s = (start-Starts a.wrong_id control b).0 e in
            rw e (
              succeed_with-Runs control b t d (acquire a.env.me a.faults d) refl
                (acquire-Acquires a.env.me a.faults d) s
                (λ l.
                  announce_and_bind-TakesOver a.codec a.system a.socket_path a.data_dir l inv b
                    snapshot t (fits b s) apart unseen))
      ]

  -- For a codec that decodes what it encoded, versions that fit a `u16`, and every answer of the supervisor, the operating
  -- system and the consumer's hooks: a successor that comes to `serve` was begun by the supervisor, has taken the flock,
  -- which was free, has had its whole `Ready` delivered and has bound the path, and `serve` ends as it does from
  -- an idle process. One that stops before leaves the flock with its holder. If it was not begun, it has not
  -- touched the lock, and has neither written to the control socket behind its `Hello` nor changed a file; if its
  -- `acquire` failed, it has done nothing beyond that call; and if its `acquire` took the free flock, the files
  -- are as they were or it had delivered its whole `Ready`.
  pub run_successor-Runs :
      (inv : IsInverse a.codec) (control : Reads) (s : State)
      → ((b : BegunSuccessor) → Starts b control → b.proto_version < 2 ^ 16)
      → staging_path a.system a.socket_path s.takeover.disk.seq ≢ a.socket_path
      → s.takeover.disk.seen ≡ []
      → Runs control (greeted s) s.flock (run_successor a control s)
  unfolding run_successor
  run_successor-Runs inv control s fits apart unseen =
      begun_with-Runs inv control (greeted s) s.flock
        (write_frame a.codec proto_max (greeting_of a) s.takeover.control).0 fits apart unseen

  -- How a cold start runs.
  abbrev pub ColdStarts : Takeover → Lock.Disk → Run → Type 0
  ColdStarts t d (served t' end w) = HasLock d × IsBound t' × ServeEnds (end, w)
  ColdStarts t d (failed e s) =
      (s.flock.flock ≡ d.flock)
      × ((IsErr (acquire a.env.me a.faults d).0
            × (s.takeover ≡ t)
            × (s.flock ≡ (acquire a.env.me a.faults d).1))
          ⊎ (HasLock d
              × IsIntact a.socket_path (t.disk.files a.socket_path) t.disk.count
                  s.takeover.disk.files))

  bound_cold :
      (t : Takeover) (before d : Lock.Disk) (lock : DataDirLock) (out : Result ℕ × Disk)
      → HasLock before
      → Publishes (staging_path a.system a.socket_path t.disk.seq) a.socket_path t.disk out
      → ColdStarts t before (
          go_on a lock d (
            and_then
              (out.0, record t { disk = out.1 })
              λ l.
                pure (record {
                  listener = l;
                  lock = some lock;
                  data_dir = a.data_dir;
                  build_id = [];
                })))
  unfolding release remove_pidfile
  bound_cold t before d lock (ok l, k) has p = (
    has,
    (l, p.1),
    serve-ServeEnds a.env a.libc a.euid a.accepts (fresh lock d) (fresh-IsIdle lock d),
  )
  bound_cold t before d lock (err e, k) has p =
      let (_, _, free, _) = has in (sym free, inr (has, p.0))

  started_cold :
      (t : Takeover) (before : Lock.Disk) (out : Result DataDirLock × Lock.Disk)
      → acquire a.env.me a.faults before ≡ out
      → Acquires a.env.me before out
      → Publishes
          (staging_path a.system a.socket_path t.disk.seq)
          a.socket_path
          t.disk
          (bind_socket a.system a.socket_path t.disk)
      → ColdStarts t before (cold_start_with a t out)
  started_cold t before (ok l, d) same q p =
      bound_cold t before d l (bind_socket a.system a.socket_path t.disk)
        (acquired-HasLock before d l same q) p
  started_cold t before (err e, d) same q p = (q, inl (rw same tt, refl, rw same refl))

  -- For every answer of the operating system and the consumer's hooks: a cold start that comes to `serve` has taken
  -- the flock, which was free, and has bound the path, and `serve` ends as it does from an idle process. One that
  -- fails before leaves the flock with its holder; if its `acquire` failed, it has done nothing beyond that call,
  -- so that the path and every other file are as they were; and if its `acquire` took the free flock, the path
  -- holds what was there or the new listener with its final mode.
  pub run_cold_start-starts :
      (s : State)
      → staging_path a.system a.socket_path s.takeover.disk.seq ≢ a.socket_path
      → s.takeover.disk.seen ≡ []
      → ColdStarts s.takeover s.flock (run_cold_start a s)
  unfolding run_cold_start
  run_cold_start-starts s apart unseen =
      started_cold s.takeover s.flock (acquire a.env.me a.faults s.flock) refl
        (acquire-Acquires a.env.me a.faults s.flock)
        (bind_socket-Publishes a.system a.socket_path s.takeover.disk apart unseen)
