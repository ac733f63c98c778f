-- ===== src/State/Example.antt =====
-- crates/handoff/src/state.rs: a codec of the journal.
use handoff.Prelude.{ℕ, ◌≡◌, refl, ◌==◌, Option, none, some, List, [], ◌∷◌, arith, if◌then◌else◌}
use handoff.Error.{Result, ok, err, codec}
use handoff.State.{
  StateJournal, Phase, negotiating, draining, sealing, awaiting_ready, committed,
  resuming_after_abort, Codec,
}
use handoff.State.Durable.{IsInverse}

abbrev pub write_phase : Phase → ℕ
write_phase negotiating = 0
write_phase draining = 1
write_phase sealing = 2
write_phase awaiting_ready = 3
write_phase committed = 4
write_phase resuming_after_abort = 5

abbrev pub read_phase : ℕ → Phase
read_phase n =
    if n == 0
    then negotiating
    else (if n == 1
        then draining
        else (if n == 2
            then sealing
            else (if n == 3
                then awaiting_ready
                else (if n == 4 then committed else resuming_after_abort))))

abbrev pub write_pid : Option ℕ → List ℕ
write_pid none = []
write_pid (some p) = p ∷ []

abbrev pub read_pid : List ℕ → Option ℕ
read_pid [] = none
read_pid (p ∷ _) = some p

abbrev pub read_entry : List ℕ → Result StateJournal
read_entry (id ∷ phase ∷ pid ∷ started ∷ rest) = ok (record {
  handoff_id = id;
  phase = read_phase phase;
  incumbent_pid = pid;
  successor_pid = read_pid rest;
  started_at_unix_ms = started;
})
read_entry _ = err (codec 1)

abbrev pub write_entry : StateJournal → List ℕ
write_entry j =
    j.handoff_id
    ∷ write_phase j.phase
    ∷ j.incumbent_pid
    ∷ j.started_at_unix_ms
    ∷ write_pid j.successor_pid

abbrev pub numbers : Codec
numbers = record { to_allocvec = λ j. ok (write_entry j); from_bytes = read_entry }

read_phase-write_phase : (p : Phase) → read_phase (write_phase p) ≡ p
read_phase-write_phase p = ground arith

read_pid-write_pid : (p : Option ℕ) → read_pid (write_pid p) ≡ p
read_pid-write_pid p = ground arith

read_entry-write_entry : (j : StateJournal) → read_entry (write_entry j) ≡ ok j
read_entry-write_entry j =
    rw (read_phase-write_phase j.phase, read_pid-write_pid j.successor_pid) refl

numbers-inverse :
    (j : StateJournal) (bs : List ℕ) → numbers.to_allocvec j ≡ ok bs → numbers.from_bytes bs ≡ ok j
numbers-inverse j bs h =
    let e : write_entry j ≡ bs = ground (arith, h) in rw (← e) (read_entry-write_entry j)

pub numbers-IsInverse : IsInverse numbers
numbers-IsInverse = record { inverse = numbers-inverse }
