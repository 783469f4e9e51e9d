-- ===== src/Exec/Run.antt =====
-- src/exec/exec.c: a step of the core, and the loop over the steps.
use oemu.Common.{ℕ, zero, suc, ◌+◌, Bool, false, Option, none, some, if◌then◌else◌}
use oemu.Common.Status.{Status, ok, err_timeout, is_ok}
use oemu.Decode.{Insn}
use oemu.Decode.Word.{decode}
use oemu.Exec.Cpu.{Machine, Memops, EnvOps, Ran, ran, panicked}
use oemu.Exec.Dispatch.{dispatch_bus}

-- What the loop leaves, with the number of instructions that it completed.
pub data Finished (σ : Type 0) : Type 0 where
  finished : Status → ℕ → Machine σ → Finished σ
  aborted : Finished σ

-- `envops_halted`: without an environment or its callback, the guest runs.
module _ {σ : Type 0} where
  abbrev pub says_halted : Option (σ → Bool) → σ → Bool
  says_halted none s = false
  says_halted (some halted) s = halted s

  unfoldable pub is_halted : Option (EnvOps σ) → σ → Bool
  is_halted none s = false
  is_halted (some env) s = says_halted env.halted s

module _ {σ : Type 0} (mem : Memops σ) (env : Option (EnvOps σ)) where
  -- What follows the decoding, with what `insn_out` holds.
  unfoldable pub decoded_step : Status × Insn → Machine σ → Ran σ × Option Insn
  unfolding dispatch_bus
  decoded_step (status, insn) m =
      (if is_ok status then dispatch_bus mem env insn m else ran status m, some insn)

  -- `oemu_exec_step_bus`, with what it stores in `insn_out`
  unfoldable pub step_bus : Machine σ → Ran σ × Option Insn
  unfolding decoded_step decode
  step_bus m =
      let answer = mem.fetch32 m.state m.cpu.regs.pc in
      let fetched = record m { state = answer.1 } in
      if is_ok answer.0.0
      then decoded_step (decode answer.0.1 m.cpu.regs.pc) fetched
      else (ran answer.0.0 fetched, none)

  -- The end of the loop.
  unfoldable pub finish : ℕ → Machine σ → Finished σ
  unfolding is_halted
  finish done m = finished (if is_halted env m.state then ok else err_timeout) done m

  -- What follows a step in the loop.
  unfoldable pub continue : (Machine σ → Finished σ) → ℕ → Ran σ → Finished σ
  unfolding is_halted finish
  continue next done panicked = aborted
  continue next done (ran status m) =
      if is_ok status
      then (if is_halted env m.state then finish (done + 1) m else next m)
      else finished status done m

  -- The loop, with `left` instructions to go.
  unfoldable pub run_from : ℕ → ℕ → Machine σ → Finished σ
  unfolding step_bus finish continue
  run_from zero done m = finish done m
  run_from (suc left) done m = continue (λ m'. run_from left (done + 1) m') done (step_bus m).0

  -- `oemu_exec_run_bus`
  unfoldable pub run_bus : ℕ → Machine σ → Finished σ
  unfolding run_from
  run_bus max_insns m = run_from max_insns 0 m
