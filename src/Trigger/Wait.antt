-- ===== src/Trigger/Wait.antt =====
-- crates/handoff-supervisor/src/main.rs: `wait_child_with_timeout`. The child answers the `n`-th `try_wait`; time
-- is in milliseconds, and `lag` passes besides the sleeps, before the `n`-th reading of the clock.
use handoff.Prelude.{
  ℕ, zero, suc, ◌+◌, ◌*◌, ◌/◌, ◌≤◌, ◌<◌, ◌≡◌, refl, ap, ◌∙◌, Bool, true, false, leb, if◌then◌else◌,
  arith, dec_lt,
}
use handoff.Error.{IoError}

-- What `try_wait` returns.
pub data TryWait : Type 0 where
  exited : (status : ℕ) → TryWait
  running : TryWait
  refused : IoError → TryWait

-- What the call returns; `out_of_fuel` never occurs.
pub data Waited : Type 0 where
  reaped : (status : ℕ) → Waited
  unreapable : IoError → Waited
  expired out_of_fuel : Waited

abbrev pub poll_interval : ℕ
poll_interval = 50

module _ (try_wait : ℕ → TryWait) (lag : ℕ → ℕ) where
  -- A round: `next` is the following one, behind the sleep.
  abbrev pub sort_wait : TryWait → (late : Bool) → Waited → Waited
  sort_wait (exited status) late next = reaped status
  sort_wait (refused e) late next = unreapable e
  sort_wait running late next = if late then expired else next

  unfoldable pub wait_loop : (fuel : ℕ) → (deadline : ℕ) → (n time : ℕ) → Waited
  wait_loop zero deadline n time = out_of_fuel
  wait_loop (suc fuel) deadline n time =
      let now = time + lag n in
      sort_wait (try_wait n) (leb deadline now)
        (wait_loop fuel deadline (suc n) (now + poll_interval))

  -- One round per interval in the timeout, and two more.
  unfoldable pub wait_child_with_timeout : (timeout now : ℕ) → Waited
  wait_child_with_timeout timeout now =
      wait_loop (suc (suc (timeout / poll_interval))) (now + timeout) 0 now

  -- Before the `n`-th round the child has been running in each earlier one; `m` are left in the fuel.
  abbrev pub Runs : ℕ → Type 0
  Runs n = (i : ℕ) → i < n → try_wait i ≡ running

  -- The call ends with the first round in which the child is not running, or gives up on a child that has
  -- run in every round so far.
  abbrev pub Ends : ℕ → Waited → Type 0
  Ends bound (reaped status) = (n : ℕ) × (n < bound) × Runs n × (try_wait n ≡ exited status)
  Ends bound (unreapable e) = (n : ℕ) × (n < bound) × Runs n × (try_wait n ≡ refused e)
  Ends bound expired = (n : ℕ) × (n < bound) × Runs (suc n)
  Ends bound out_of_fuel = ⊥

  Runs-suc : (n : ℕ) → Runs n → try_wait n ≡ running → Runs (suc n)
  Runs-suc n h e i l = elim (dec_lt i n) [
    | yes earlier ↦ h i earlier
    | no last ↦ ap try_wait {x = i} {y = n} (omega arith) ∙ e
  ]

  -- A round, by what the child answers and whether it is late.
  round-Ends :
      (bound n : ℕ) (t : TryWait) (late : Bool) (next : Waited)
      → try_wait n ≡ t
      → n < bound
      → Runs n
      → (late ≡ false → Runs (suc n) → Ends bound next)
      → Ends bound (sort_wait t late next)
  round-Ends bound n (exited status) late next e l h k = (n, l, h, e)
  round-Ends bound n (refused x) late next e l h k = (n, l, h, e)
  round-Ends bound n running true next e l h k = (n, l, Runs-suc n h e)
  round-Ends bound n running false next e l h k = k refl (Runs-suc n h e)

  wait_loop-Ends :
      (f deadline n time bound : ℕ)
      → deadline ≤ time + 50 * f
      → n + suc f ≤ bound
      → Runs n
      → Ends bound (wait_loop (suc f) deadline n time)
  unfolding wait_loop
  wait_loop-Ends zero deadline n time bound d b h =
      round-Ends bound n (try_wait n) (leb deadline (time + lag n)) out_of_fuel refl (omega arith) h
        (λ early _. absurd (ground (arith, early)))
  wait_loop-Ends (suc f) deadline n time bound d b h =
      round-Ends bound n (try_wait n) (leb deadline (time + lag n))
        (wait_loop (suc f) deadline (suc n) (time + lag n + 50)) refl (omega arith) h
        (λ _ r.
          wait_loop-Ends f deadline (suc n) (time + lag n + 50) bound (omega arith) (omega arith) r)

  -- For every child, clock and timeout: the call ends within `timeout / 50 + 2` calls of `try_wait`, however long the
  -- child runs. It returns the child's status, or the error of `try_wait`, with the first call that does not
  -- find the child running; otherwise it expires behind calls that all found it running.
  pub wait_child_with_timeout-Ends :
      (timeout now : ℕ)
      → Ends (suc (suc (timeout / poll_interval))) (wait_child_with_timeout timeout now)
  unfolding wait_child_with_timeout
  wait_child_with_timeout-Ends timeout now =
      wait_loop-Ends (suc (timeout / poll_interval)) (now + timeout) 0 now _ (omega arith)
        (omega arith) (λ i l. absurd (omega arith))
