-- ===== src/Exec/Cpu.antt =====
-- src/exec/exec.c: the state of a core, and the buses and the environment that it drives.
use oemu.Common.{
  ℕ, ◌-◌, Bank, update, Bool, false, Option, none, some, leb, ltb, ◌&&◌, if◌then◌else◌,
}
use oemu.Common.Status.{Status, ok, err_invalid_arg, MemSize}
use oemu.Regs.{Regs, Width, w64, insn_size}

-- `oemu_cpu`; a vector register is its two halves.
pub record Cpu : Type 0 where
  pub regs : Regs
  pub monitor_addr : ℕ
  pub monitor_size : ℕ
  pub monitor_valid : Bool
  pub tpidrur_el0 : ℕ
  pub lo : Bank
  pub hi : Bank

-- `oemu_memops`, over a state of its own
pub record Memops (σ : Type 0) : Type 0 where
  pub fetch32 : σ → ℕ → (Status × ℕ) × σ
  pub read : σ → ℕ → MemSize → Bool → (Status × ℕ) × σ
  pub write : σ → ℕ → MemSize → ℕ → Status × σ
  pub validate : σ → ℕ → ℕ → ℕ → Status × σ

-- `oemu_env_ops`: a callback may be missing. A system call has its number and six arguments, and it
-- reaches the memory through the state.
pub record EnvOps (σ : Type 0) : Type 0 where
  pub syscall : Option (σ → ℕ → Bank → ℕ × σ)
  pub halted : Option (σ → Bool)

-- A core with the state of its bus and of its environment.
pub record Machine (σ : Type 0) : Type 0 where
  pub cpu : Cpu
  pub state : σ

-- What a step leaves; `panicked` is a failed OEMU_REQUIRE, which ends the program.
pub data Ran (σ : Type 0) : Type 0 where
  ran : Status → Machine σ → Ran σ
  panicked : Ran σ

-- OEMU_VEC_REGS
abbrev pub vec_regs : ℕ
vec_regs = 32

-- `oemu_cpu_init`, on a core that is there
unfoldable pub cpu_init : ℕ → ℕ → Cpu
unfolding oemu.Regs.init
cpu_init entry_pc initial_sp = record {
  regs = oemu.Regs.init entry_pc initial_sp;
  monitor_addr = 0;
  monitor_size = 0;
  monitor_valid = false;
  tpidrur_el0 = 0;
  lo = λ n. 0;
  hi = λ n. 0;
}

-- The value that a cast of a pair of halves stores in the n-th vector register.
abbrev pub set_vector : Cpu → ℕ → ℕ → ℕ → Cpu
set_vector cpu n low high = record cpu { lo = update cpu.lo n low; hi = update cpu.hi n high }

-- `oemu_vec_read`, with places for both halves
unfoldable pub vec_read : Cpu → ℕ → Option (ℕ × ℕ)
vec_read cpu n = if leb vec_regs n then none else some (cpu.lo n, cpu.hi n)

unfoldable pub vec_write : Cpu → ℕ → ℕ → ℕ → Status × Cpu
vec_write cpu n low high =
    if leb vec_regs n then (err_invalid_arg, cpu) else (ok, set_vector cpu n low high)

unfoldable pub read_g : Cpu → ℕ → Bool → Width → ℕ
unfolding oemu.Regs.read oemu.Regs.read_sp_form
read_g cpu n sp_form width =
    if sp_form then oemu.Regs.read_sp_form cpu.regs n width else oemu.Regs.read cpu.regs n width

unfoldable pub write_g : Cpu → ℕ → Bool → Width → ℕ → Cpu
unfolding oemu.Regs.write oemu.Regs.write_sp_form
write_g cpu n sp_form width value = record cpu {
  regs =
      if sp_form
      then oemu.Regs.write_sp_form cpu.regs n width value
      else oemu.Regs.write cpu.regs n width value;
}

unfoldable pub set_flags : Cpu → ℕ → Cpu
unfolding oemu.Regs.set_nzcv
set_flags cpu nzcv = record cpu { regs = oemu.Regs.set_nzcv cpu.regs nzcv }

-- `note_store`: a store that overlaps the reservation ends it.
unfoldable pub overlaps : ℕ → ℕ → ℕ → ℕ → Bool
overlaps reserved size addr nbytes =
    if leb reserved addr then ltb (addr - reserved) size else ltb (reserved - addr) nbytes

unfoldable pub note_store : Cpu → ℕ → ℕ → Cpu
unfolding overlaps
note_store cpu addr nbytes =
    if cpu.monitor_valid && overlaps cpu.monitor_addr cpu.monitor_size addr nbytes
    then record cpu { monitor_valid = false }
    else cpu
