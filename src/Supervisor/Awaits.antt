-- ===== src/Supervisor/Awaits.antt =====
-- crates/handoff/src/supervisor.rs: the loops that wait for a frame, with a peer that keeps sending.
use handoff.Prelude.{ℕ, ◌+◌, ◌<◌, ◌≤◌, max, ◌≡◌, refl, Bool, List, [], ◌∷◌, ◌++◌, String, arith}
use handoff.Fallible.{pure, Gives, and_then-Gives}
use handoff.Protocol.{Message, Side, incumbent}
use handoff.Supervisor.World.{Env, World, M, Reading, instant_now, min_read_timeout}
use handoff.Supervisor.Wire.{SealOutcome, sort_reading, read_loop, read_until, sort_seal, seal_loop}
use handoff.Supervisor.Healthy.{
  IsHealthy, IsAlive, AllAlive, cost, Kept, At, later-At, instant_now-Gives, round-Gives,
}

module _ (env : Env) where
  alive-sort_reading :
      (go : M Message) (awaiting : String) (pred : Message → Bool) (r : Reading)
      → IsAlive r
      → sort_reading env go awaiting pred r ≡ go
  alive-sort_reading go awaiting pred r h = ground arith

  alive-sort_seal : (go : M SealOutcome) (r : Reading) → IsAlive r → sort_seal env go r ≡ go
  alive-sort_seal go r h = ground arith

module _ (env : Env) (pid delay : ℕ) (healthy : IsHealthy env pid delay) (peer : Side)
    (theirs : List Reading) (kept : Kept) (rest : List Reading) where
  abbrev Delivers : ℕ → Message → Message → World → Type 0
  Delivers last m m' w' = (m' ≡ m) × At last peer rest theirs kept w'

  module _ (awaiting : String) (pred : Message → Bool) (r : Reading) (m : Message)
      (hit : (go : M Message) → sort_reading env go awaiting pred r ≡ pure m) where
    read_loop-Gives :
        (deadline last : ℕ) (noise : List Reading) (limit : ℕ) (w : World)
        → AllAlive noise
        → At limit peer (noise ++ (r ∷ rest)) theirs kept w
        → limit + cost delay noise + delay < deadline
        → limit + cost delay noise + delay + r.took ≤ last
        → Gives
            (Delivers last m)
            (read_loop env peer deadline awaiting pred (noise ++ (r ∷ rest)) w)
    unfolding read_loop
    read_loop-Gives deadline last [] limit w a v early fits =
        round-Gives env pid delay healthy peer theirs kept _ limit deadline r rest _ _ w v
          (omega arith)
          λ w' v'.
            rw (hit (read_loop env peer deadline awaiting pred rest)) (
              refl,
              later-At (limit + delay + r.took) last peer rest theirs kept w' (omega arith) v',
            )
    read_loop-Gives deadline last (n ∷ ns) limit w (a, more) v early fits =
        round-Gives env pid delay healthy peer theirs kept _ limit deadline n (ns ++ (r ∷ rest)) _ _
          w v (omega arith)
          λ w' v'.
            rw
              (alive-sort_reading env (read_loop env peer deadline awaiting pred (ns ++ (r ∷ rest)))
                awaiting pred n a)
              (read_loop-Gives deadline last ns (limit + delay + n.took) w' more v' (omega arith)
                (omega arith))

    -- The message is returned if what comes before it takes no longer than the limit.
    pub read_until-Gives :
        (span last : ℕ) (noise : List Reading) (limit : ℕ) (w : World)
        → AllAlive noise
        → At limit peer (noise ++ (r ∷ rest)) theirs kept w
        → cost delay noise + delay < span
        → limit + delay + cost delay noise + delay + r.took ≤ last
        → Gives (Delivers last m) (read_until env peer span awaiting pred w)
    unfolding read_until
    read_until-Gives span last noise limit w a v early fits =
        and_then-Gives _ _ (instant_now env w) _
          (instant_now-Gives env pid delay healthy peer theirs kept limit (noise ++ (r ∷ rest)) w v)
          λ now w₁ (soon, _, v₁). rw v₁.left (
            read_loop-Gives (now + max span min_read_timeout) last noise now w₁ a v₁ (omega arith)
              (omega arith))

  -- The same of the wait for the seal.
  pub seal_loop-Gives :
      (r : Reading) (o : SealOutcome)
      → ((go : M SealOutcome) → sort_seal env go r ≡ pure o)
      → (deadline last : ℕ) (noise : List Reading) (limit : ℕ) (w : World) → AllAlive noise
      → At limit incumbent (noise ++ (r ∷ rest)) theirs kept w
      → limit + cost delay noise + delay < deadline
      → limit + cost delay noise + delay + r.took ≤ last
      → Gives
          (λ o' w'. (o' ≡ o) × At last incumbent rest theirs kept w')
          (seal_loop env deadline (noise ++ (r ∷ rest)) w)
  unfolding seal_loop
  seal_loop-Gives r o hit deadline last [] limit w a v early fits =
      round-Gives env pid delay healthy incumbent theirs kept _ limit deadline r rest _ _ w v
        (omega arith)
        λ w' v'. rw (hit (seal_loop env deadline rest)) (
          refl,
          later-At (limit + delay + r.took) last incumbent rest theirs kept w' (omega arith) v',
        )
  seal_loop-Gives r o hit deadline last (n ∷ ns) limit w (a, more) v early fits =
      round-Gives env pid delay healthy incumbent theirs kept _ limit deadline n (ns ++ (r ∷ rest))
        _ _ w v (omega arith)
        λ w' v'. rw (alive-sort_seal env (seal_loop env deadline (ns ++ (r ∷ rest))) n a) (
          seal_loop-Gives r o hit deadline last ns (limit + delay + n.took) w' more v' (omega arith)
            (omega arith))
