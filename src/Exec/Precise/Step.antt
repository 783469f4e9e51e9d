-- ===== src/Exec/Precise/Step.antt =====
-- src/exec/exec.c: faults of a step and the run of steps.
use oemu.Common.{
  bit_and, Bank, ℕ, false, Option, none, some, ◌≡◌, refl, ◌∙◌, if_both, ◌==◌, ◌||◌, if◌then◌else◌,
  leb,
}
use oemu.Common.Status.{Status, ok, is_ok}
use oemu.Regs.{bits}
use oemu.Decode.{Insn}
use oemu.Exec.Cpu.{Cpu, Machine, Memops, EnvOps, Ran, ran, panicked}
use oemu.Exec.Switch.{
  advance, AccessKind, single, pair, exclusive, single_vector, pair_vector, Decision, by_bitfield,
  by_mrs, by_msr, Effect, retires, jumps, decides, accesses, accesses_either, calls, stops,
  effect_of, decide,
}
use oemu.Exec.Dispatch.{
  falls, concluded, concluded_access, do_svc, called, access, perform, dispatch_bus,
}
use oemu.Exec.Precise.{IsLawful, Precise, completes, stays}
use oemu.Exec.Precise.Scalar.{single-Precise, pair-Precise, exclusive-Precise}
use oemu.Exec.Precise.Vector.{single_vector-Precise, pair_vector-Precise}
use oemu.Exec.Bitfield.{do_bitfield}
use oemu.Exec.Switch.{
  do_mrs, do_msr, user_register, mrs_of, sysreg_mask, sysreg_sp_el0, sysreg_nzcv,
  sysreg_tpidrur_el0,
}
use oemu.Exec.Run.{step_bus, decoded_step}
use oemu.Decode.Word.{decode}

-- What an instruction decides: a refusal changes nothing.
data Decided (before : Cpu) : Status × Cpu → Type 0 where
  accepts : {cpu : Cpu} → Decided before (ok, cpu)
  refuses : {status : Status} → is_ok status ≡ false → Decided before (status, before)

mrs_of-Decided : (cpu : Cpu) (i : Insn) (value : Option ℕ) → Decided cpu (mrs_of cpu i value)
mrs_of-Decided cpu i none = refuses refl
mrs_of-Decided cpu i (some value) = accepts

decide-Decided : (decision : Decision) (cpu : Cpu) (i : Insn) → Decided cpu (decide decision cpu i)
unfolding decide do_bitfield do_mrs do_msr
decide-Decided by_bitfield cpu i =
    if_both (Decided cpu) (leb (bits i.width) i.shift_amount || leb (bits i.width) i.bit_pos)
      (λ _. refuses refl) λ _. accepts
decide-Decided by_mrs cpu i =
    mrs_of-Decided cpu i (user_register cpu (bit_and i.sysreg sysreg_mask))
decide-Decided by_msr cpu i =
    if_both (Decided cpu) (bit_and i.sysreg sysreg_mask == sysreg_sp_el0) (λ _. accepts)
      λ _.
        if_both (Decided cpu) (bit_and i.sysreg sysreg_mask == sysreg_nzcv) (λ _. accepts)
          λ _.
            if_both (Decided cpu) (bit_and i.sysreg sysreg_mask == sysreg_tpidrur_el0)
              (λ _. accepts) λ _. refuses refl

unmoved :
    (status : Status) (cpu : Cpu)
    → is_ok status ≡ false
    → (if is_ok status then advance cpu else cpu) ≡ cpu
unmoved status cpu e = rw e refl

module _ {σ : Type 0} where
  concluded-Precise :
      (m : Machine σ) (result : Status × Cpu)
      → Decided m.cpu result
      → Precise m.cpu (concluded m result)
  unfolding concluded
  concluded-Precise m (ok, cpu) accepts = completes
  concluded-Precise m (status, cpu) (refuses e) = stays e (unmoved status m.cpu e)

  concluded_access-Precise :
      (before : Cpu) (r : Ran σ) → Precise before r → Precise before (concluded_access r)
  unfolding concluded_access concluded
  concluded_access-Precise before panicked h = elim h [ ]
  concluded_access-Precise before (ran ok m) completes = completes
  concluded_access-Precise before (ran status m) (stays e same) =
      stays e (unmoved status m.cpu e ∙ same)

  called-Precise :
      (m : Machine σ) (syscall : Option (σ → ℕ → Bank → ℕ × σ)) → Precise m.cpu (called m syscall)
  unfolding called falls
  called-Precise m none = stays refl refl
  called-Precise m (some syscall) = completes

  do_svc-Precise : (env : Option (EnvOps σ)) (m : Machine σ) → Precise m.cpu (do_svc env m)
  unfolding do_svc
  do_svc-Precise none m = stays refl refl
  do_svc-Precise (some env) m = called-Precise m env.syscall

  stopped-Precise : (status : Status) (m : Machine σ) → Precise m.cpu (ran status m)
  stopped-Precise ok m = completes
  stopped-Precise _ m = stays refl refl

module _ {σ : Type 0} (mem : Memops σ) (env : Option (EnvOps σ)) (Granted : σ → ℕ → ℕ → ℕ → Type 0)
    (law : IsLawful mem Granted) where
  access-Precise :
      (kind : AccessKind) (i : Insn) (m : Machine σ) → Precise m.cpu (access mem env kind i m)
  unfolding access
  access-Precise single i m = single-Precise mem Granted law m.cpu i m refl
  access-Precise pair i m = pair-Precise mem Granted law m.cpu i m refl
  access-Precise exclusive i m = exclusive-Precise mem Granted law m.cpu i m refl
  access-Precise single_vector i m = single_vector-Precise mem Granted law m.cpu i m refl
  access-Precise pair_vector i m = pair_vector-Precise mem Granted law m.cpu i m refl

  perform-Precise :
      (effect : Effect) (i : Insn) (m : Machine σ) → Precise m.cpu (perform mem env effect i m)
  unfolding perform falls
  perform-Precise (retires change) i m = completes
  perform-Precise (jumps change) i m = completes
  perform-Precise (decides decision) i m = concluded-Precise m _ (decide-Decided decision m.cpu i)
  perform-Precise (accesses kind) i m = concluded_access-Precise m.cpu _ (access-Precise kind i m)
  perform-Precise (accesses_either vector scalar) i m =
      concluded_access-Precise m.cpu _ (access-Precise (if i.is_vector then vector else scalar) i m)
  perform-Precise calls i m = do_svc-Precise env m
  perform-Precise (stops status) i m = stopped-Precise status m

  decoded_step-Precise :
      (answer : Status × Insn) (m : Machine σ) → Precise m.cpu (decoded_step mem env answer m).0
  unfolding decoded_step dispatch_bus
  decoded_step-Precise (status, insn) m =
      if_both (Precise m.cpu) (is_ok status) (λ _. perform-Precise (effect_of insn.op) insn m)
        λ _. stopped-Precise status m

  -- Over a bus that serves what it grants, a step ends with OEMU_OK, or it ends with an error and the
  -- core is exactly as it was: its registers, flags, PC, vector registers and reservation. It never
  -- fails a check.
  pub step_bus-Precise : (m : Machine σ) → Precise m.cpu (step_bus mem env m).0
  unfolding step_bus
  step_bus-Precise m =
      let answer = mem.fetch32 m.state m.cpu.regs.pc in
      let fetched = record m { state = answer.1 } in
      if_both {A = Ran σ × Option Insn} (λ r. Precise m.cpu r.0) (is_ok answer.0.0)
        (λ _. decoded_step-Precise (decode answer.0.1 m.cpu.regs.pc) fetched)
        λ _. stopped-Precise answer.0.0 fetched
