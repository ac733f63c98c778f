-- ===== src/State/Durable.antt =====
-- crates/handoff/src/state.rs: what a write leaves under the journal's path, also if it fails, and what is left
-- behind a power failure.
use handoff.Prelude.{ℕ, ◌≡◌, ◌⊎◌, inl, inr, refl, true, Option, none, some, List, [], ◌∷◌}
use handoff.Error.{Result, ok, err, IoError}
use handoff.Fallible.{and_then}
use handoff.State.{
  StateJournal, Inode, Store, Codec, Faults, contents, decoded, call, install, write_atomic, read,
  delete,
}

-- `postcard` decodes what it encoded.
pub record IsInverse (c : Codec) : Type 0 where
  pub inverse : (j : StateJournal) (bs : List ℕ) → c.to_allocvec j ≡ ok bs → c.from_bytes bs ≡ ok j

-- What a power failure may leave of a file: of one that is not synced, any bytes.
abbrev pub Survives : Option Inode → Option (List ℕ) → Type 0
Survives none left = left ≡ none
Survives (some i) none = ⊥
Survives (some i) (some bs) = (i.synced ≡ true) → bs ≡ i.bytes

abbrev pub AnySurvives : List (Option Inode) → Option (List ℕ) → Type 0
AnySurvives [] left = ⊥
AnySurvives (o ∷ os) left = Survives o left ⊎ AnySurvives os left

-- What a power failure may leave under the journal's path.
abbrev pub Leaves : Store → Option (List ℕ) → Type 0
Leaves s left = Survives s.entry left ⊎ AnySurvives s.older left

-- What a write of `j` may leave: the new journal, or, behind an error, the old file. `left` is what a power
-- failure behind the write leaves.
abbrev pub Writes :
    Codec → StateJournal → Store → Option (List ℕ) → Result (Unit {0}) × Store → Type 0
Writes c j old left (ok _, s) = (read c none s ≡ ok (some j)) × (decoded c left ≡ ok (some j))
Writes c j old left (err e, s) =
    ((s.entry ≡ old.entry) ⊎ (read c none s ≡ ok (some j)))
    × (Leaves old left ⊎ (decoded c left ≡ ok (some j)))

-- Without a power failure.
pub contents-Survives : (o : Option Inode) → Survives o (contents o)
contents-Survives none = refl
contents-Survives (some i) = λ _. refl

new_Survives :
    (c : Codec) (j : StateJournal) (bs : List ℕ) (left : Option (List ℕ))
    → c.from_bytes bs ≡ ok j
    → Survives (some (record { bytes = bs; synced = true })) left
    → decoded c left ≡ ok (some j)
new_Survives c j bs none e h = absurd h
new_Survives c j bs (some x) e h = let same : x ≡ bs = h refl in rw (same, e) refl

-- By which calls fail.
abbrev faults :
    (create open_ write : Option IoError) (n : ℕ) (sync rename dir : Option IoError) → Faults
faults create open_ write n sync rename dir = record {
  create_dir = create;
  open_tmp = open_;
  write_tmp = write;
  written = n;
  sync_tmp = sync;
  rename_tmp = rename;
  sync_dir = dir;
}

installed-Writes :
    (c : Codec) (j : StateJournal) (old : Store) (bs : List ℕ) (left : Option (List ℕ))
    (create open_ write : Option IoError) (n : ℕ) (sync rename dir : Option IoError)
    → c.from_bytes bs ≡ ok j
    → Leaves (install (faults create open_ write n sync rename dir) (ok bs) old).1 left
    → Writes c j old left (install (faults create open_ write n sync rename dir) (ok bs) old)
unfolding read
installed-Writes c j old bs left _ (some x) _ n _ _ _ e h = (inl refl, inl h)
installed-Writes c j old bs left _ none (some x) n _ _ _ e h = (inl refl, inl h)
installed-Writes c j old bs left _ none none n (some x) _ _ e h = (inl refl, inl h)
installed-Writes c j old bs left _ none none n none (some x) _ e h = (inl refl, inl h)
installed-Writes c j old bs left _ none none n none none (some x) e (inl new) =
    (inr (rw e refl), inr (new_Survives c j bs left e new))
installed-Writes c j old bs left _ none none n none none (some x) e (inr kept) =
    (inr (rw e refl), inl kept)
installed-Writes c j old bs left _ none none n none none none e (inl new) =
    (rw e refl, new_Survives c j bs left e new)
installed-Writes c j old bs left _ none none n none none none e (inr k) = absurd k

created-Writes :
    (c : Codec) (inv : IsInverse c) (f : Faults) (j : StateJournal) (old : Store)
    (left : Option (List ℕ)) (create : Option IoError) (payload : Result (List ℕ))
    → c.to_allocvec j ≡ payload
    → Leaves (and_then (call create (λ s. s) old) (λ _. install f payload)).1 left
    → Writes c j old left (and_then (call create (λ s. s) old) (λ _. install f payload))
created-Writes c inv f j old left (some x) payload e h = (inl refl, inl h)
created-Writes c inv f j old left none (err x) e h = (inl refl, inl h)
created-Writes c inv f j old left none (ok bs) e h =
    installed-Writes c j old bs left f.create_dir f.open_tmp f.write_tmp f.written f.sync_tmp
      f.rename_tmp f.sync_dir (inv.inverse j bs e) h

-- For a codec that decodes what it encoded, whatever system calls fail, and whatever a power failure behind the write
-- leaves under the journal's path, where it may keep any directory entry since the last sync of the directory and may
-- ruin a file that is not synced: if `write_atomic` succeeds, `read` returns the journal that was written,
-- and what the power failure leaves decodes to it; if it fails, the path holds the old file or the new
-- journal, whole, and the power failure leaves what it could have left before the write, or the new
-- journal, whole; and behind either a `delete` that does not fail leaves nothing to read.
pub write_atomic-Writes :
    (c : Codec) (inv : IsInverse c) (f : Faults) (j : StateJournal) (old : Store)
    (left : Option (List ℕ))
    → Leaves (write_atomic c f j old).1 left
    → Writes c j old left (write_atomic c f j old)
      × (read c none (delete none (write_atomic c f j old).1).1 ≡ ok none)
unfolding write_atomic read delete
write_atomic-Writes c inv f j old left h =
    (created-Writes c inv f j old left f.create_dir (c.to_allocvec j) refl h, refl)
