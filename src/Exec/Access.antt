-- ===== src/Exec/Access.antt =====
-- src/exec/exec.c: the loads and the stores. The recording of accesses for the tracer is left out.
use oemu.Common.{ℕ, ◌+◌, ◌*◌, Bool, true, false, not, ◌&&◌, ◌||◌, ◌==◌, if◌then◌else◌}
use oemu.Common.Status.{ok, err_fault, is_ok, MemSize, byte, half, word, dword, quad}
use oemu.Common.Word.{u64}
use oemu.Regs.{w32, w64}
use oemu.Exec.{Extend, uxtb, extend_operand}
use oemu.Exec.Cpu.{
  Cpu, Machine, Memops, Ran, ran, panicked, read_g, write_g, set_vector, note_store,
}
use oemu.Decode.{Opcode, OperandKind, imm_operand, IndexMode, index_none, index_post, Insn}
use oemu.Memory.{nbytes, perm_read, perm_write}

abbrev pub is_uxtb : Extend → Bool
is_uxtb uxtb = true
is_uxtb _ = false

abbrev pub is_post : IndexMode → Bool
is_post index_post = true
is_post _ = false

abbrev pub is_none : IndexMode → Bool
is_none index_none = true
is_none _ = false

abbrev pub is_literal : OperandKind → Bool
is_literal imm_operand = true
is_literal _ = false

abbrev pub is_quad : MemSize → Bool
is_quad quad = true
is_quad _ = false

-- STR, STLR, STP and STXR
abbrev pub op_is_store : Opcode → Bool
op_is_store Opcode.str = true
op_is_store Opcode.stp = true
op_is_store Opcode.stlr = true
op_is_store Opcode.stxr = true
op_is_store _ = false

abbrev pub perm_of : Bool → ℕ
perm_of is_store = if is_store then perm_write else perm_read

-- `resolve_mem_addr`: the address and the value that is written back.
unfoldable pub resolve_mem_addr : Cpu → Insn → ℕ × ℕ
unfolding read_g extend_operand
resolve_mem_addr cpu i =
    let base = read_g cpu i.rn true w64 in
    let offset =
      if not (is_uxtb i.extend_type) || i.extend_is_lsl
      then extend_operand (read_g cpu i.rm false w64) i.extend_type i.shift_amount
      else i.imm in
    let moved = u64 (base + offset) in (if is_post i.index_mode then base else moved, moved)

-- The base register after an access.
unfoldable pub write_back : Insn → ℕ → Cpu → Cpu
unfolding write_g
write_back i value cpu = if is_none i.index_mode then cpu else write_g cpu i.rn true w64 value

-- The reservation is live, on exactly this range.
unfoldable pub holds : Cpu → ℕ → ℕ → Bool
holds cpu addr size = cpu.monitor_valid && cpu.monitor_addr == addr && cpu.monitor_size == size

-- The end of STXR: the reservation is over, and the status register tells how it went.
abbrev pub released : Insn → ℕ → Cpu → Cpu
released i failed cpu = write_g (record cpu { monitor_valid = false }) i.rm false w32 failed

abbrev pub is_ldxr : Opcode → Bool
is_ldxr Opcode.ldxr = true
is_ldxr _ = false

module _ {σ : Type 0} (mem : Memops σ) where
  -- A validation, and what follows where it answers OEMU_OK.
  unfoldable pub validated : ℕ → ℕ → ℕ → (Machine σ → Ran σ) → Machine σ → Ran σ
  validated addr bytes perms next m =
      let answer = mem.validate m.state addr bytes perms in
      let after = record m { state = answer.1 } in
      if is_ok answer.0 then next after else ran err_fault after

  -- A load that may not fail.
  unfoldable pub loading : ℕ → MemSize → Bool → (ℕ → Machine σ → Ran σ) → Machine σ → Ran σ
  loading addr size sign_extend next m =
      let answer = mem.read m.state addr size sign_extend in
      if is_ok answer.0.0 then next answer.0.1 (record m { state = answer.1 }) else panicked

  -- A store that may not fail.
  unfoldable pub storing : ℕ → MemSize → ℕ → (Machine σ → Ran σ) → Machine σ → Ran σ
  storing addr size value next m =
      let answer = mem.write m.state addr size value in
      if is_ok answer.0 then next (record m { state = answer.1 }) else panicked

  abbrev pub completed : (Cpu → Cpu) → Machine σ → Ran σ
  completed change m = ran ok (record m { cpu = change m.cpu })

  unfoldable pub load_pair : Insn → ℕ → ℕ → ℕ → Machine σ → Ran σ
  unfolding loading write_g write_back
  load_pair i addr addr2 base = loading addr i.mem_size i.is_signed_load λ v1.
      loading addr2 i.mem_size i.is_signed_load λ v2. completed λ cpu.
        write_back i base (write_g (write_g cpu i.rd false i.width v1) i.rt2 false i.width v2)

  unfoldable pub store_pair : Insn → ℕ → ℕ → ℕ → Machine σ → Ran σ
  unfolding storing read_g note_store write_back
  store_pair i addr addr2 base m =
      storing addr i.mem_size (read_g m.cpu i.rd false i.width)
        (storing addr2 i.mem_size (read_g m.cpu i.rt2 false i.width)
          (completed λ cpu. write_back i base (note_store cpu addr (nbytes i.mem_size * 2))))
        m

  unfoldable pub do_pair : Insn → Machine σ → Ran σ
  unfolding resolve_mem_addr validated load_pair store_pair
  do_pair i m =
      let r = resolve_mem_addr m.cpu i in
      let transfer = nbytes i.mem_size in
      let addr2 = u64 (r.0 + transfer) in
      let perms = perm_of (op_is_store i.op) in
      validated r.0 transfer perms
        (validated addr2 transfer perms
          (if op_is_store i.op then store_pair i r.0 addr2 r.1 else load_pair i r.0 addr2 r.1))
        m

  -- The pieces of a vector register are validated.
  unfoldable pub validate_vector : MemSize → ℕ → ℕ → (Machine σ → Ran σ) → Machine σ → Ran σ
  unfolding validated
  validate_vector quad addr perms next =
      validated addr 8 perms (validated (u64 (addr + 8)) 8 perms next)
  validate_vector dword addr perms next = validated addr 8 perms next
  validate_vector word addr perms next = validated addr 4 perms next
  validate_vector half addr perms next = validated addr 2 perms next
  validate_vector byte addr perms next = validated addr 1 perms next

  -- The transfer of the n-th vector register, in one piece or in two.
  unfoldable pub store_vector : MemSize → ℕ → ℕ → (Machine σ → Ran σ) → Machine σ → Ran σ
  unfolding storing
  store_vector quad addr n next m =
      storing addr dword (m.cpu.lo n) (storing (u64 (addr + 8)) dword (m.cpu.hi n) next) m
  store_vector size addr n next m = storing addr size (m.cpu.lo n) next m

  unfoldable pub load_vector : MemSize → ℕ → ℕ → (Machine σ → Ran σ) → Machine σ → Ran σ
  unfolding loading
  load_vector quad addr n next = loading addr dword false λ low.
      loading (u64 (addr + 8)) dword false
        λ high m. next (record m { cpu = set_vector m.cpu n low high })
  load_vector size addr n next =
      loading addr size false λ low m. next (record m { cpu = set_vector m.cpu n low 0 })

  unfoldable pub do_pair_vector : Insn → Machine σ → Ran σ
  unfolding resolve_mem_addr validate_vector store_vector load_vector note_store write_back
  do_pair_vector i m =
      let r = resolve_mem_addr m.cpu i in
      let stride = nbytes i.mem_size in
      let addr2 = u64 (r.0 + stride) in
      let perms = perm_of (op_is_store i.op) in
      let last : Machine σ → Ran σ = completed λ cpu.
        write_back i r.1 (if op_is_store i.op then note_store cpu r.0 (stride * 2) else cpu) in
      validate_vector i.mem_size r.0 perms
        (validate_vector i.mem_size addr2 perms (
          if op_is_store i.op
          then store_vector i.mem_size r.0 i.rd (store_vector i.mem_size addr2 i.rt2 last)
          else load_vector i.mem_size r.0 i.rd (load_vector i.mem_size addr2 i.rt2 last)))
        m

  unfoldable pub do_single_vector : Insn → Machine σ → Ran σ
  unfolding resolve_mem_addr validate_vector store_vector load_vector write_back
  do_single_vector i m =
      let r = resolve_mem_addr m.cpu i in
      let last : Machine σ → Ran σ = completed λ cpu. write_back i r.1 cpu in
      validate_vector quad r.0 (perm_of (op_is_store i.op))
        (if op_is_store i.op
          then store_vector quad r.0 i.rd last
          else load_vector quad r.0 i.rd last)
        m

  -- The end of a single access: the write-back is of the register forms only.
  abbrev pub single_back : Insn → ℕ → Cpu → Cpu
  single_back i base cpu = if is_literal i.operand_kind then cpu else write_back i base cpu

  unfoldable pub load_single : Insn → ℕ → ℕ → Machine σ → Ran σ
  unfolding loading write_g write_back
  load_single i addr base =
      loading addr i.mem_size i.is_signed_load
        λ value. completed λ cpu. single_back i base (write_g cpu i.rd false i.width value)

  unfoldable pub store_single : Insn → ℕ → ℕ → Machine σ → Ran σ
  unfolding storing read_g note_store write_back
  store_single i addr base m =
      storing addr i.mem_size (read_g m.cpu i.rd false i.width)
        (completed λ cpu. single_back i base (note_store cpu addr (nbytes i.mem_size))) m

  unfoldable pub do_single_mem : Insn → Machine σ → Ran σ
  unfolding resolve_mem_addr validated load_single store_single
  do_single_mem i m =
      let r = resolve_mem_addr m.cpu i in
      let addr = if is_literal i.operand_kind then i.imm else r.0 in
      validated addr (nbytes i.mem_size) (perm_of (op_is_store i.op))
        (if op_is_store i.op then store_single i addr r.1 else load_single i addr r.1) m

  unfoldable pub load_exclusive : Insn → ℕ → Machine σ → Ran σ
  unfolding loading write_g
  load_exclusive i addr = loading addr i.mem_size false λ value. completed λ cpu.
      record (write_g cpu i.rd false i.width value) {
        monitor_addr = addr;
        monitor_size = nbytes i.mem_size;
        monitor_valid = true;
      }

  unfoldable pub store_exclusive : Insn → ℕ → Machine σ → Ran σ
  unfolding storing read_g write_g holds
  store_exclusive i addr m =
      if holds m.cpu addr (nbytes i.mem_size)
      then storing addr i.mem_size (read_g m.cpu i.rd false i.width) (completed (released i 0)) m
      else completed (released i 1) m

  unfoldable pub do_exclusive : Insn → Machine σ → Ran σ
  unfolding validated load_exclusive store_exclusive read_g
  do_exclusive i m =
      let addr = read_g m.cpu i.rn true w64 in
      validated addr (nbytes i.mem_size) (if is_ldxr i.op then perm_read else perm_write)
        (if is_ldxr i.op then load_exclusive i addr else store_exclusive i addr) m
