-- ===== src/Exec/Dispatch.antt =====
-- src/exec/exec.c: one instruction (`oemu_exec_internal_dispatch_bus`).
use oemu.Common.{ℕ, Bank, false, Option, none, some, ltb, if◌then◌else◌}
use oemu.Common.Status.{Status, ok, err_unsupported, is_ok}
use oemu.Regs.{Width, w32, w64, insn_size, cond_holds, advance_pc, set_pc, set_sp}
use oemu.Exec.Cpu.{Cpu, Machine, Memops, EnvOps, Ran, ran, panicked, write_g}
use oemu.Exec.Access.{do_pair, do_pair_vector, do_single_vector, do_single_mem, do_exclusive}
use oemu.Decode.{Insn}
use oemu.Exec.Switch.{
  advance, AccessKind, single, pair, exclusive, single_vector, pair_vector, Effect, retires, jumps,
  decides, accesses, accesses_either, calls, stops, effect_of, decide,
}

-- The arguments of a system call: x0 to x5.
abbrev pub arguments : Cpu → Bank
arguments cpu n = if ltb n 6 then oemu.Regs.read cpu.regs n w64 else 0

module _ {σ : Type 0} where
  -- An instruction of the registers is over.
  abbrev pub retire : (Cpu → Cpu) → Machine σ → Ran σ
  retire change m = ran ok (record m { cpu = change m.cpu })

  unfoldable pub falls : (Cpu → Cpu) → Machine σ → Ran σ
  unfolding advance
  falls change m = retire (λ cpu. advance (change cpu)) m

  -- An instruction whose status decides whether the PC moves.
  unfoldable pub concluded : Machine σ → Status × Cpu → Ran σ
  unfolding advance
  concluded m (status, cpu) =
      ran status (record m { cpu = if is_ok status then advance cpu else cpu })

  unfoldable pub concluded_access : Ran σ → Ran σ
  unfolding concluded
  concluded_access panicked = panicked
  concluded_access (ran status m) = concluded m (status, m.cpu)

  unfoldable pub called : Machine σ → Option (σ → ℕ → Bank → ℕ × σ) → Ran σ
  unfolding falls write_g oemu.Regs.read
  called m none = ran err_unsupported m
  called m (some syscall) =
      let answer = syscall m.state (oemu.Regs.read m.cpu.regs 8 w64) (arguments m.cpu) in
      falls (λ cpu. write_g cpu 0 false w64 answer.0) (record m { state = answer.1 })

  unfoldable pub do_svc : Option (EnvOps σ) → Machine σ → Ran σ
  unfolding called
  do_svc none m = ran err_unsupported m
  do_svc (some env) m = called m env.syscall

  module _ (mem : Memops σ) (env : Option (EnvOps σ)) where
    unfoldable pub access : AccessKind → Insn → Machine σ → Ran σ
    unfolding do_single_mem do_pair do_exclusive do_single_vector do_pair_vector
    access single i m = do_single_mem mem i m
    access pair i m = do_pair mem i m
    access exclusive i m = do_exclusive mem i m
    access single_vector i m = do_single_vector mem i m
    access pair_vector i m = do_pair_vector mem i m

    unfoldable pub perform : Effect → Insn → Machine σ → Ran σ
    unfolding falls concluded concluded_access decide access do_svc
    perform (retires change) i m = falls (change i) m
    perform (jumps change) i m = retire (change i) m
    perform (decides decision) i m = concluded m (decide decision m.cpu i)
    perform (accesses kind) i m = concluded_access (access kind i m)
    perform (accesses_either vector scalar) i m =
        concluded_access (access (if i.is_vector then vector else scalar) i m)
    perform calls i m = do_svc env m
    perform (stops status) i m = ran status m

    -- `oemu_exec_internal_dispatch_bus`
    unfoldable pub dispatch_bus : Insn → Machine σ → Ran σ
    unfolding perform effect_of
    dispatch_bus i m = perform (effect_of i.op) i m
