-- ===== src/Together/Commits.antt =====
-- crates/handoff/src/incumbent.rs and supervisor.rs together: a handoff in which all goes well commits on both sides.
use handoff.Prelude.{
  ℕ, ◌≡◌, refl, subst, ap, ◌∙◌, true, false, none, some, List, [], ◌∷◌, ◌++◌, arith,
}
use handoff.Error.{ok, err}
use handoff.Protocol.{
  ProtoVersion, HandoffId, Message, incumbent, hello_ack, prepare_handoff, seal_request, commit,
  drained, seal_complete,
}
use handoff.Supervisor
use handoff.Supervisor.World.{Event, sent}
use handoff.Supervisor.Handoff.{SpawnSpec, perform_handoff}
use handoff.Supervisor.Healthy
use handoff.Supervisor.Healthy.{told_of}
use handoff.Supervisor.Script.{Script, IsCooperative, committed_with}
use handoff.Supervisor.Greeted.{incumbent_left, successor_left}
use handoff.Supervisor.Commits.{perform_handoff-commits}
use handoff.Incumbent.World.{Env, World, DrainReport, SealReport, is_held}
use handoff.Incumbent.Session.{Poll, chosen_version}
use handoff.Incumbent.Serve.{
  Libc, Accept, accepted, Connection, returned, prepare_session_stream, serve,
}
use handoff.Incumbent.Quiet.{answers}
use handoff.Incumbent.Answers.{IsHealthy, AllPauses, script}
use handoff.Incumbent.Commits.{greeting, serve-commits}
use handoff.Together.{to_incumbent}

-- Reads that give the frames in order, with timeouts before each.
pub data Paced (v : ProtoVersion) : List Message → List Poll → Type 0 where
  end : (rest : List Poll) → Paced v [] rest
  pause : {ms : List Message} {ps : List Poll} → Paced v ms ps → Paced v ms (ok none ∷ ps)
  read :
      (m : Message) {ms : List Message} {ps : List Poll}
      → Paced v ms ps
      → Paced v (m ∷ ms) (ok (some (v, m)) ∷ ps)

-- The first frame comes in the first read.
abbrev pub IsReadFrom : ProtoVersion → List Message → List Poll → Type 0
IsReadFrom chosen (m ∷ ms) (ok (some (_, m')) ∷ ps) = (m' ≡ m) × Paced chosen ms ps
IsReadFrom chosen _ _ = ⊥

abbrev pub IsAccepted : ProtoVersion → List Message → Type 0
IsAccepted chosen [] = ⊥
IsAccepted chosen (m ∷ ms) = chosen_version m ≡ ok chosen

-- The reads up to the next frame, and those behind it.
abbrev Cut : ProtoVersion → Message → List Message → List Poll → Type 0
Cut v m ms ps =
    (p : List Poll) × (later : List Poll) × (ps ≡ p ++ (ok (some (v, m)) ∷ later))
    × AllPauses p
    × Paced v ms later

cut :
    (v : ProtoVersion) (m : Message) (ms all : List Message) (ps : List Poll)
    → Paced v all ps
    → all ≡ m ∷ ms
    → Cut v m ms ps
cut v m ms _ ps (end rest) e = absurd (ground arith)
cut v m ms all _ (pause k) e =
    let (p, later, same, h, next) = cut v m ms all _ k e in
    (ok none ∷ p, later, ap (λ x. ok none ∷ x) same, h, next)
cut v m ms _ _ (read n {ms = ns} {ps = qs} k) e =
    let same : n ≡ m = ground arith in
    let rest : ns ≡ ms = ground arith in
    ([], qs, rw same refl, tt, subst (λ x. Paced v x qs) rest k)

-- The reads of the three frames behind `HelloAck`.
paced-script :
    (env : Env) (d : DrainReport) (r : SealReport) (healthy : IsHealthy env d r) (v : ProtoVersion)
    (id : HandoffId) (pid left grace : ℕ) (ps : List Poll)
    → Paced v (prepare_handoff id pid left grace ∷ seal_request id ∷ commit id ∷ []) ps
    → (a b c rest : List Poll) × (ps ≡ script env d r healthy v id a b c pid left grace rest)
      × AllPauses a
      × AllPauses b
      × AllPauses c
paced-script env d r healthy v id pid left grace ps k =
    let (a, p₁, e₁, h₁, k₁) = cut v (prepare_handoff id pid left grace) _ _ ps k refl in
    let (b, p₂, e₂, h₂, k₂) = cut v (seal_request id) _ _ p₁ k₁ refl in
    let (c, p₃, e₃, h₃, k₃) = cut v (commit id) _ _ p₂ k₂ refl in
    (
      a,
      b,
      c,
      p₃,
      e₁
          ∙ ap (λ x. a ++ (ok (some (v, prepare_handoff id pid left grace)) ∷ x))
              (e₂ ∙ ap (λ x. b ++ (ok (some (v, seal_request id)) ∷ x)) e₃),
      h₁,
      h₂,
      h₃,
    )

-- The oldest first, and the newest first.
abbrev reversed : List Message → List Message
reversed [] = []
reversed (m ∷ ms) = reversed ms ++ (m ∷ [])

to_incumbent-told_of : (t : List Event) → to_incumbent t ≡ reversed (told_of t)
to_incumbent-told_of [] = refl
to_incumbent-told_of (sent incumbent m ∷ t) = ap (λ x. x ++ (m ∷ [])) (to_incumbent-told_of t)
to_incumbent-told_of (e ∷ t) = to_incumbent-told_of t

first_read :
    (v : ProtoVersion) (m : Message) (ms : List Message) (ps : List Poll)
    → IsReadFrom v (m ∷ ms) ps
    → (u : ProtoVersion) × (later : List Poll) × (ps ≡ ok (some (u, m)) ∷ later) × Paced v ms later
first_read v m ms [] h = absurd h
first_read v m ms (err e ∷ ps) h = absurd h
first_read v m ms (ok none ∷ ps) h = absurd h
first_read v m ms (ok (some (u, n)) ∷ ps) (e, k) = (u, ps, rw e refl, k)

module _ (sup : Supervisor.World.Env) (pid delay : ℕ) (sound : Healthy.IsHealthy sup pid delay)
    (spec : SpawnSpec) (s : Script) (coop : IsCooperative sup pid delay spec s) (env : Env)
    (d : DrainReport) (r : SealReport) (healthy : IsHealthy env d r) (chosen : ProtoVersion) where
  told_frames :
      (t : List Event) (v left : ℕ)
      → told_of t
        ≡ commit sup.handoff_id
          ∷ seal_request sup.handoff_id
          ∷ prepare_handoff sup.handoff_id pid left spec.drain_grace
          ∷ hello_ack v sup.handoff_id
          ∷ []
      → to_incumbent t
        ≡ hello_ack v sup.handoff_id
          ∷ prepare_handoff sup.handoff_id pid left spec.drain_grace
          ∷ seal_request sup.handoff_id
          ∷ commit sup.handoff_id
          ∷ []
  told_frames t v left e = to_incumbent-told_of t ∙ ap reversed e

  -- Where every call succeeds on both sides: if the supervisor starts with no other handoff in flight and an empty trace,
  -- both processes answer it as they should and in time, and the first connection of the incumbent, which
  -- holds the lock, reads the frames that this `perform_handoff` writes to it, the first at once and the others
  -- with any number of timeouts before them, in a version that it accepts, then `perform_handoff` commits and passes the child on, and
  -- `serve` returns `Ok` with the lock released, having sent `Hello`, `Drained` and `SealComplete` of this
  -- handoff with the reports of its hooks, apart from heartbeats.
  pub serve-perform_handoff-commits :
      (b : Supervisor.World.World) (libc : Libc) (euid : ℕ) (c : Connection) (later : List Accept)
      (w : World)
      → b.in_flight ≡ false
      → b.guard ≡ none
      → b.trace ≡ []
      → b.from_incumbent ≡ s.greeting ∷ incumbent_left s
      → b.from_successor ≡ s.successor_greeting ∷ successor_left s
      → prepare_session_stream euid c ≡ ok tt
      → IsReadFrom chosen (to_incumbent (perform_handoff sup spec b).1.trace) c.polls
      → IsAccepted chosen (to_incumbent (perform_handoff sup spec b).1.trace)
      → is_held w.lock ≡ true
      → ((perform_handoff sup spec b).0 ≡ ok (committed_with sup pid))
        × ((serve env libc euid (accepted c ∷ later) w).0 ≡ returned (ok tt))
        × (is_held (serve env libc euid (accepted c ∷ later) w).1.lock ≡ false)
        × (answers (serve env libc euid (accepted c ∷ later) w).1.trace
            ≡ seal_complete sup.handoff_id r.last_revision_per_shard r.data_dir_fingerprint
              ∷ drained d.open_conns_remaining d.accept_closed
              ∷ greeting env d r healthy chosen sup.handoff_id
              ∷ answers w.trace)
  serve-perform_handoff-commits b libc euid c later w free g empty fi fs prepared reads accepts
        held =
      let (done, (v, left, told)) =
        perform_handoff-commits sup pid delay sound spec s coop b free g fi fs in
      let frames = told_frames (perform_handoff sup spec b).1.trace v left (
        told
        ∙ ap
            (λ x.
              commit sup.handoff_id
              ∷ seal_request sup.handoff_id
              ∷ prepare_handoff sup.handoff_id pid left spec.drain_grace
              ∷ hello_ack v sup.handoff_id
              ∷ told_of x)
            empty) in
      let (u, ps, first, paced) =
        first_read chosen _ _ c.polls (subst (λ x. IsReadFrom chosen x c.polls) frames reads) in
      let (p, q, o, rest, same, h₁, h₂, h₃) =
        paced-script env d r healthy chosen sup.handoff_id pid left spec.drain_grace ps paced in
      let (ended, released, replied) =
        serve-commits env d r healthy chosen sup.handoff_id p q o rest pid left spec.drain_grace
          (h₁, h₂, h₃) libc euid c later u v w prepared
          (first ∙ ap (λ x. ok (some (u, hello_ack v sup.handoff_id)) ∷ x) same)
          (subst (IsAccepted chosen) frames accepts) held in
      (done, ended, released, replied)
