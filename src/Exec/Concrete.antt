-- ===== src/Exec/Concrete.antt =====
-- src/memory/memory.c: the bus view of the guest's memory; src/exec/exec.c: the step and the run
-- over it. `ε` is the state of the environment, which a system call changes beside the memory.
use oemu.Common.{arith, ℕ, Bool, true, Option, none, some, ◌≡◌}
use oemu.Common.Status.{Status, ok, err_fault, is_ok, MemSize, byte, half, word, dword, quad}
use oemu.Decode.{Insn}
use oemu.Memory.{Memory, nbytes, find, validate, read, write, fetch32, perm_read, perm_write}
use oemu.Exec.Cpu.{Machine, Memops, EnvOps, Ran}
use oemu.Exec.Run.{Finished, step_bus, run_bus}
use oemu.Exec.Precise.{IsLawful, Precise}
use oemu.Exec.Precise.Step.{step_bus-Precise}

-- A refusal is OEMU_ERR_FAULT.
abbrev pub served : Option ℕ → Status × ℕ
served none = (err_fault, 0)
served (some value) = (ok, value)

read_granted :
    (mem : Memory) (a : ℕ) (size : MemSize) (x : Bool)
    → is_ok (validate mem a (nbytes size) perm_read) ≡ true
    → is_ok (served (read mem a size x)).0 ≡ true
unfolding validate read
read_granted mem a byte x granted = ground arith
read_granted mem a half x granted = ground arith
read_granted mem a word x granted = ground arith
read_granted mem a dword x granted = ground arith
read_granted mem a quad x granted = ground arith

module _ {ε : Type 0} where
  abbrev pub stored : Memory × ε → Option Memory → Status × (Memory × ε)
  stored s none = (err_fault, s)
  stored (mem, world) (some after) = (ok, (after, world))

  -- `oemu_memory_memops`, with its four callbacks
  unfoldable pub memory_memops : Memops (Memory × ε)
  unfolding fetch32 read write validate
  memory_memops = record {
    fetch32 = λ (mem, world) pa. (served (fetch32 mem pa), (mem, world));
    read =
        λ (mem, world) pa size sign_extend. (served (read mem pa size sign_extend), (mem, world));
    write = λ (mem, world) pa size value. stored (mem, world) (write mem pa size value);
    validate = λ (mem, world) pa size perms. (validate mem pa size perms, (mem, world));
  }

  -- `oemu_exec_step`
  unfoldable pub exec_step :
      Option (EnvOps (Memory × ε)) → Machine (Memory × ε) → Ran (Memory × ε) × Option Insn
  unfolding step_bus memory_memops
  exec_step env m = step_bus memory_memops env m

  -- `oemu_exec_run`
  unfoldable pub exec_run :
      Option (EnvOps (Memory × ε)) → ℕ → Machine (Memory × ε) → Finished (Memory × ε)
  unfolding run_bus memory_memops
  exec_run env max_insns m = run_bus memory_memops env max_insns m

  -- A range that the table of regions answers for.
  abbrev pub Granted : Memory × ε → ℕ → ℕ → ℕ → Type 0
  Granted s a n p = is_ok (validate s.0 a n p) ≡ true

  write_granted :
      (s : Memory × ε) (a : ℕ) (size : MemSize) (v : ℕ)
      → is_ok (validate s.0 a (nbytes size) perm_write) ≡ true
      → is_ok (stored s (write s.0 a size v)).0 ≡ true
  unfolding validate write
  write_granted s a byte v granted = ground arith
  write_granted s a half v granted = ground arith
  write_granted s a word v granted = ground arith
  write_granted s a dword v granted = ground arith
  write_granted s a quad v granted = ground arith

  write_keeps :
      (s : Memory × ε) (a n p b : ℕ) (size : MemSize) (v : ℕ)
      → Granted s a n p
      → Granted (stored s (write s.0 b size v)).1 a n p
  unfolding validate write find
  write_keeps s a n p b byte v granted = ground arith
  write_keeps s a n p b half v granted = ground arith
  write_keeps s a n p b word v granted = ground arith
  write_keeps s a n p b dword v granted = ground arith
  write_keeps s a n p b quad v granted = ground arith

  pub memory_memops-IsLawful : IsLawful memory_memops Granted
  unfolding memory_memops
  memory_memops-IsLawful = record {
    grants = λ s a n p granted. granted;
    keeps_validate = λ s a n p b k q granted. granted;
    keeps_read = λ s a n p b size x granted. granted;
    keeps_write = write_keeps;
    reads = λ s. read_granted s.0;
    writes = write_granted;
  }

  -- Over the guest's memory, whatever it maps: a step ends with OEMU_OK, or it ends with an error and
  -- the core is exactly as it was, with its registers, flags, PC, vector registers and reservation.
  -- It never fails a check.
  pub exec_step-Precise :
      (env : Option (EnvOps (Memory × ε))) (m : Machine (Memory × ε))
      → Precise m.cpu (exec_step env m).0
  unfolding exec_step
  exec_step-Precise env m = step_bus-Precise memory_memops env Granted memory_memops-IsLawful m
