-- ===== src/State/Tests.antt =====
-- crates/handoff/src/state.rs: a write whose directory sync fails.
use handoff.Prelude.{◌≡◌, refl, inl, inr, none, some}
use handoff.Error.{ok, from_kind, timed_out}
use handoff.State.{StateJournal, sealing, Faults, empty, write_atomic, read, delete}
use handoff.State.Durable.{Writes, write_atomic-Writes}
use handoff.State.Example.{numbers, numbers-IsInverse}

abbrev entry : StateJournal
entry = record {
  handoff_id = 9;
  phase = sealing;
  incumbent_pid = 1;
  successor_pid = some 2;
  started_at_unix_ms = 0;
}

abbrev unsynced : Faults
unsynced = record {
  create_dir = none;
  open_tmp = none;
  write_tmp = none;
  written = 0;
  sync_tmp = none;
  rename_tmp = none;
  sync_dir = some (from_kind timed_out);
}

-- The rename stands, although the call fails.
kept_entry : read numbers none (write_atomic numbers unsynced entry empty).1 ≡ ok (some entry)
unfolding read write_atomic
kept_entry = refl

-- A power failure that loses the rename.
write_atomic-Writes_example :
    Writes numbers entry empty none (write_atomic numbers unsynced entry empty)
    × (read numbers none (delete none (write_atomic numbers unsynced entry empty).1).1 ≡ ok none)
unfolding write_atomic
write_atomic-Writes_example =
    write_atomic-Writes numbers numbers-IsInverse unsynced entry empty none (inr (inl refl))
