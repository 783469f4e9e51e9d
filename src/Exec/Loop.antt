-- ===== src/Exec/Loop.antt =====
-- src/exec/exec.c: the loop over the steps, and what its count and its status tell.
use oemu.Common.{
  ℕ, zero, suc, ◌+◌, ◌<◌, true, false, Option, ◌≡◌, refl, arith, if_both, if◌then◌else◌,
}
use oemu.Common.Status.{Status, ok, err_timeout, is_ok}
use oemu.Memory.{Memory}
use oemu.Exec.Cpu.{Machine, Memops, EnvOps, Ran, ran, panicked}
use oemu.Exec.Run.{Finished, finished, is_halted, step_bus, finish, continue, run_from, run_bus}
use oemu.Exec.Precise.{IsLawful, Precise, completes, stays}
use oemu.Exec.Precise.Step.{step_bus-Precise}
use oemu.Exec.Concrete.{memory_memops, Granted, memory_memops-IsLawful, exec_run}

module _ {σ : Type 0} (mem : Memops σ) (env : Option (EnvOps σ)) where
  -- As many steps as counted that ended with OEMU_OK, none of which halted the guest.
  pub data Running : ℕ → Machine σ → Machine σ → Type 0 where
    start : {m : Machine σ} → Running 0 m m
    continues :
        {k : ℕ} {m m' last : Machine σ}
        → (step_bus mem env m).0 ≡ ran ok m'
        → is_halted env m'.state ≡ false
        → Running k m' last
        → Running (suc k) m last

  -- How a run of at most `left` instructions ends, after `done` before it: the budget is spent, a
  -- step halts the guest, or a step fails and leaves the core as it was.
  pub data Ends (left done : ℕ) (m : Machine σ) : Finished σ → Type 0 where
    exhausts :
        {n : ℕ} {last : Machine σ}
        → n ≡ done + left
        → Running left m last
        → Ends left done m (finished (if is_halted env last.state then ok else err_timeout) n last)
    halts :
        {n k : ℕ} {last halted : Machine σ}
        → n ≡ done + suc k
        → k < left
        → Running k m last
        → (step_bus mem env last).0 ≡ ran ok halted
        → is_halted env halted.state ≡ true
        → Ends left done m (finished ok n halted)
    fails :
        {n k : ℕ} {last failed : Machine σ} {status : Status}
        → n ≡ done + k
        → k < left
        → Running k m last
        → (step_bus mem env last).0 ≡ ran status failed
        → is_ok status ≡ false
        → failed.cpu ≡ last.cpu
        → Ends left done m (finished status n failed)

  -- A step that went on, before the rest of the run.
  later :
      (left done : ℕ) (m m' : Machine σ) (r : Finished σ)
      → (step_bus mem env m).0 ≡ ran ok m'
      → is_halted env m'.state ≡ false
      → Ends left (done + 1) m' r
      → Ends (suc left) done m r
  later left done m m' r stepped running (exhausts e run) =
      exhausts (omega (arith, e)) (continues stepped running run)
  later left done m m' r stepped running (halts e short run last halted) =
      halts (omega (arith, e)) (omega (arith, short)) (continues stepped running run) last halted
  later left done m m' r stepped running (fails e short run last failed same) =
      fails (omega (arith, e)) (omega (arith, short)) (continues stepped running run) last failed
        same

  module _ (Granted : σ → ℕ → ℕ → ℕ → Type 0) (law : IsLawful mem Granted) where
    stepped-Ends :
        (left done : ℕ) (m : Machine σ) (next : Machine σ → Finished σ)
        → ((m' : Machine σ) → Ends left (done + 1) m' (next m'))
        → (r : Ran σ) → (step_bus mem env m).0 ≡ r
        → Precise m.cpu r
        → Ends (suc left) done m (continue mem env next done r)
    unfolding continue finish
    stepped-Ends left done m next rest panicked e h = elim h [ ]
    stepped-Ends left done m next rest (ran ok m') e completes =
        if_both (Ends (suc left) done m) (is_halted env m'.state) (λ halted. halted_now halted)
          λ running. later left done m m' (next m') e running (rest m')
      where
        halted_now :
            is_halted env m'.state ≡ true → Ends (suc left) done m (finish mem env (done + 1) m')
        halted_now halted = rw halted (halts (omega arith) (omega arith) start e halted)
    stepped-Ends left done m next rest (ran status m') e (stays failed same) =
        if_both (Ends (suc left) done m) (is_ok status) (λ good. cc)
          λ _. fails (omega arith) (omega arith) start e failed same

    run_from-Ends :
        (left done : ℕ) (m : Machine σ) → Ends left done m (run_from mem env left done m)
    unfolding run_from finish
    run_from-Ends zero done m = exhausts (omega arith) start
    run_from-Ends (suc left) done m =
        stepped-Ends left done m (λ m'. run_from mem env left (done + 1) m')
          (λ m'. run_from-Ends left (done + 1) m') (step_bus mem env m).0 refl
          (step_bus-Precise mem env Granted law m)

-- A run of the guest from its memory with a budget ends in one of three ways, and never on a failed
-- check: with OEMU_OK where the step that it counts last halts the guest; with OEMU_ERR_TIMEOUT (or
-- OEMU_OK, for a budget of 0 on a halted guest) where as many steps as the budget went well; or with
-- the status of a step that fails, which it does not count, and the core as before that step. Every
-- step that it counts ended with OEMU_OK, and none but the last halted the guest.
pub exec_run-Ends :
    {ε : Type 0} (env : Option (EnvOps (Memory × ε))) (max_insns : ℕ) (m : Machine (Memory × ε))
    → Ends memory_memops env max_insns 0 m (exec_run env max_insns m)
unfolding exec_run run_bus
exec_run-Ends env max_insns m =
    run_from-Ends memory_memops env Granted memory_memops-IsLawful max_insns 0 m
