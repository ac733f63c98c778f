-- ===== src/Supervisor/Resume.antt =====
-- crates/handoff/src/supervisor.rs: `resume_from_journal`, at the restart of a supervisor. `fault` is the error of
-- the journal's read, if it fails.
use handoff.Prelude.{
  subst, List, [], ℕ, ◌≡◌, refl, sym, ap, ◌∙◌, true, Option, none, some, if◌then◌else◌, arith,
}
use handoff.Error.{Result, ok, err, IoError}
use handoff.Fallible.{◌>>◌, pure}
use handoff.Protocol.{incumbent}
use handoff.State.{Phase, StateJournal, Inode, Store, decoded, read, delete, write_atomic}
use handoff.State.Durable.{IsInverse, Leaves, Writes, write_atomic-Writes}
use handoff.Supervisor.World.{Env, World, M, ticked, journaled, entry, journal_set}
use handoff.Supervisor.Wire.{poll_read}

abbrev on_disk : Option (List ℕ) → Option Inode
on_disk none = none
on_disk (some bs) = some (record { bytes = bs; synced = true })

module _ (env : Env) where
  -- The incumbent's `Hello` is read, if it can be reached; nothing depends on it.
  abbrev pub probe : Result (Unit {0}) → World → World
  probe (err e) w = ticked w
  probe (ok _) w = (poll_read incumbent w).1

  abbrev pub deleted : StateJournal → M (Option StateJournal)
  deleted j = do λ w. journaled env (delete (env.unlink w.tick) w.journal) w; pure (some j)

  abbrev pub resumed : Result (Option StateJournal) → M (Option StateJournal)
  resumed (err e) w = (err e, w)
  resumed (ok none) w = (ok none, w)
  resumed (ok (some j)) w = deleted j (probe env.connect w)

  unfoldable pub resume_from_journal : (fault : Option IoError) → M (Option StateJournal)
  resume_from_journal fault w =
      if env.has_journal then resumed (read env.codec fault w.journal) w else (ok none, w)

  probe-journal : (r : Result (Unit {0})) (w : World) → (probe r w).journal ≡ w.journal
  unfolding poll_read
  probe-journal (err e) w = refl
  probe-journal (ok _) w = ground arith

  -- Behind a journal that is read.
  deleted-removes :
      (j : StateJournal) (w : World)
      → env.unlink w.tick ≡ none
      → ((deleted j w).0 ≡ ok (some j)) × ((deleted j w).1.journal.entry ≡ none)
  unfolding delete
  deleted-removes j w e = ground (arith, e)

  resumed-removes :
      (j : StateJournal) (w : World) (r : Result (Option StateJournal))
      → r ≡ ok (some j)
      → ((n : ℕ) → env.unlink n ≡ none)
      → ((resumed r w).0 ≡ ok (some j)) × ((resumed r w).1.journal.entry ≡ none)
  resumed-removes j w r e u =
      rw e (deleted-removes j (probe env.connect w) (u (probe env.connect w).tick))

  journaled-Writes :
      (phase : Phase) (pid started : ℕ) (w : World) (left : Option (List ℕ))
      (out : Result (Unit {0}) × Store)
      → Writes env.codec (entry env phase pid started) w.journal left out
      → (journaled env out w).0 ≡ ok tt
      → (read env.codec none (journaled env out w).1.journal
          ≡ ok (some (entry env phase pid started)))
        × (decoded env.codec left ≡ ok (some (entry env phase pid started)))
  journaled-Writes phase pid started w left (ok _, store) h e = h
  journaled-Writes phase pid started w left (err x, store) h e = absurd (ground arith)

  resume-removes :
      (j : StateJournal) (w : World)
      → env.has_journal ≡ true
      → ((n : ℕ) → env.unlink n ≡ none)
      → read env.codec none w.journal ≡ ok (some j)
      → ((resume_from_journal none w).0 ≡ ok (some j))
        × ((resume_from_journal none w).1.journal.entry ≡ none)
  unfolding resume_from_journal
  resume-removes j w h u e = simp h (resumed-removes j w (read env.codec none w.journal) e u)

  journal_set-journaled :
      (phase : Phase) (pid started : ℕ) (w : World)
      → env.has_journal ≡ true
      → journal_set env phase pid started w
        ≡ journaled env
            (write_atomic env.codec (env.faults w.tick) (entry env phase pid started) w.journal)
            w
  unfolding journal_set
  journal_set-journaled phase pid started w h = simp h refl

  -- The state at a restart, with what a power failure left of the journal.
  abbrev pub restarted : Option (List ℕ) → World → World
  restarted left w = record w { journal = record { entry = on_disk left; older = []; tmp = none } }

  restarted-read :
      (left : Option (List ℕ)) (r : Result (Option StateJournal)) (w : World)
      → decoded env.codec left ≡ r
      → read env.codec none (restarted left w).journal ≡ r
  unfolding read
  restarted-read none r w e = e
  restarted-read (some bs) r w e = e

  abbrev pub Resumes : StateJournal → World → Type 0
  Resumes j w =
      ((resume_from_journal none w).0 ≡ ok (some j))
      × ((resume_from_journal none w).1.journal.entry ≡ none)

  -- For a codec that decodes what it encoded, a supervisor that keeps a journal, and every answer of the incumbent, be
  -- it unreachable: if a `journal_set` succeeded last, and the journal's file can be read and removed, then
  -- `resume_from_journal` returns exactly the entry that was set, and leaves no journal; and so it does where
  -- the machine lost power in between, whatever that left of the journal.
  pub resume_from_journal-journal_set :
      (inv : IsInverse env.codec) (phase : Phase) (pid started : ℕ) (w : World)
      (left : Option (List ℕ))
      → env.has_journal ≡ true
      → ((n : ℕ) → env.unlink n ≡ none)
      → (journal_set env phase pid started w).0 ≡ ok tt
      → Leaves (journal_set env phase pid started w).1.journal left
      → Resumes (entry env phase pid started) (journal_set env phase pid started w).1
        × Resumes
            (entry env phase pid started)
            (restarted left (journal_set env phase pid started w).1)
  resume_from_journal-journal_set inv phase pid started w left j u e h =
      let set =
        write_atomic env.codec (env.faults w.tick) (entry env phase pid started) w.journal in
      let q : journal_set env phase pid started w ≡ journaled env set w =
        journal_set-journaled phase pid started w j in
      let (now, later) =
        journaled-Writes phase pid started w left set
          (write_atomic-Writes env.codec inv (env.faults w.tick) (entry env phase pid started)
            w.journal left
            (subst (λ (x : Result (Unit {0}) × World). Leaves x.1.journal left) q h)).0
          (ap (λ (x : Result (Unit {0}) × World). x.0) (sym q) ∙ e) in
      (
        resume-removes (entry env phase pid started) (journal_set env phase pid started w).1 j u
            (ap (λ (x : Result (Unit {0}) × World). read env.codec none x.1.journal) q ∙ now),
        resume-removes (entry env phase pid started)
            (restarted left (journal_set env phase pid started w).1) j u
            (restarted-read left _ (journal_set env phase pid started w).1 later),
      )
