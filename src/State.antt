-- ===== src/State.antt =====
-- crates/handoff/src/state.rs: the journal of a handoff. `Store` is the part of the file system that it
-- uses: the file under the journal's path and the temporary file beside it. `Faults` says which system calls of
-- one write fail; the codec (the `postcard` crate) is the parameter `Codec`.
pub mod Durable
pub mod Example
mod Tests
use handoff.Prelude.{ℕ, Option, none, some, List, [], ◌∷◌, ◌++◌, Bool, true, false, take}
use handoff.Fallible.{◌>>=◌, ◌>>◌, throw}
use handoff.Error.{Result, ok, err, io, IoError, ErrorKind, not_found}
use handoff.Protocol.{HandoffId}

pub data Phase : Type 0 where
  negotiating draining sealing awaiting_ready committed resuming_after_abort : Phase

pub record StateJournal : Type 0 where
  pub handoff_id : HandoffId
  pub phase : Phase
  pub incumbent_pid : ℕ
  pub successor_pid : Option ℕ
  pub started_at_unix_ms : ℕ

-- A file; what is not yet synced is in the page cache alone.
pub record Inode : Type 0 where
  pub bytes : List ℕ
  pub synced : Bool

-- `older` are the entries of the journal's path that the disk may still hold, since the directory was not synced
-- behind them.
pub record Store : Type 0 where
  pub entry : Option Inode
  pub older : List (Option Inode)
  pub tmp : Option Inode

abbrev pub empty : Store
empty = record { entry = none; older = []; tmp = none }

pub record Codec : Type 0 where
  pub to_allocvec : StateJournal → Result (List ℕ)
  pub from_bytes : List ℕ → Result StateJournal

pub record Faults : Type 0 where
  pub create_dir : Option IoError
  pub open_tmp : Option IoError
  pub write_tmp : Option IoError
  pub written : ℕ  -- the bytes that a failing write has written
  pub sync_tmp : Option IoError
  pub rename_tmp : Option IoError
  pub sync_dir : Option IoError

-- `OpenOptions` with `create` and `truncate`.
abbrev pub open_tmp : Store → Store
open_tmp s = record s { tmp = some (record { bytes = []; synced = false }) }

abbrev pub appended : List ℕ → Inode → Inode
appended bs i = record { bytes = i.bytes ++ bs; synced = false }

abbrev pub changed : (Inode → Inode) → Option Inode → Option Inode
changed f none = none
changed f (some i) = some (f i)

abbrev pub write_tmp : List ℕ → Store → Store
write_tmp bs s = record s { tmp = changed (appended bs) s.tmp }

-- `write_all`; if it fails, a part may be written.
abbrev pub write_all : Faults → List ℕ → Store → Result (Unit {0}) × Store
write_all f bs s = elim f.write_tmp [
  | some e ↦ (err (io e), write_tmp (take f.written bs) s)
  | none ↦ (ok tt, write_tmp bs s)
]

abbrev pub synced_file : Inode → Inode
synced_file i = record i { synced = true }

abbrev pub sync_tmp : Store → Store
sync_tmp s = record s { tmp = changed synced_file s.tmp }

-- The old entry may be on the disk until the directory is synced.
abbrev pub rename_tmp : Store → Store
rename_tmp s = record { entry = s.tmp; older = s.entry ∷ s.older; tmp = none }

-- `fsync_dir`
abbrev pub sync_dir : Store → Store
sync_dir s = record s { older = [] }

abbrev pub call : Option IoError → (Store → Store) → Store → Result (Unit {0}) × Store
call (some e) f s = (err (io e), s)
call none f s = (ok tt, f s)

-- Behind `to_allocvec`.
abbrev pub install : Faults → Result (List ℕ) → Store → Result (Unit {0}) × Store
install f (err e) = throw e
install f (ok bytes) = do
  call f.open_tmp open_tmp
  write_all f bytes
  call f.sync_tmp sync_tmp
  call f.rename_tmp rename_tmp
  call f.sync_dir sync_dir

unfoldable pub write_atomic : Codec → Faults → StateJournal → Store → Result (Unit {0}) × Store
write_atomic c f j = do call f.create_dir (λ s. s); install f (c.to_allocvec j)

abbrev pub contents : Option Inode → Option (List ℕ)
contents none = none
contents (some i) = some i.bytes

abbrev pub found : Result StateJournal → Result (Option StateJournal)
found (ok j) = ok (some j)
found (err e) = err e

abbrev pub decoded : Codec → Option (List ℕ) → Result (Option StateJournal)
decoded c none = ok none
decoded c (some bytes) = found (c.from_bytes bytes)

-- What `std::fs::read` returns, if it is an error, is `fault`.
unfoldable pub read : Codec → (fault : Option IoError) → Store → Result (Option StateJournal)
read c (some e) s = elim e.kind [ not_found ↦ ok none | _ ↦ err (io e) ]
read c none s = decoded c (contents s.entry)

-- `remove_file`; without a file there is nothing to remove. The removal is not synced.
unfoldable pub delete : (fault : Option IoError) → Store → Result (Unit {0}) × Store
delete (some e) s = (elim e.kind [ not_found ↦ ok tt | _ ↦ err (io e) ], s)
delete none s = (ok tt, record s { entry = none; older = s.entry ∷ s.older })
