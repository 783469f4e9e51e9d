-- ===== src/Exec/Examples.antt =====
-- Operands of the multiplication, of the count and of the reversal.
use oemu.Common.Bits.{bit}
use oemu.Common.Status.{ok, byte, word}
use oemu.Decode.{Opcode, Insn, insn_reset}
use oemu.Exec.Access.{do_exclusive}
use oemu.Exec.Switch.{single}
use oemu.Exec.Dispatch.{access}
use oemu.Exec.Bitfield.{bitfield_result}
use oemu.Exec.Fields.{expected_bit, bitfield_result-expected_bit}
use oemu.Exec.Monitor.{any_meets}
use oemu.Exec.Exclusive.{Between, arrives, moves, status_of, released-after_stores}
use oemu.Common.{true, false, [], ◌∷◌, update, none, ◌≡◌, refl}
use oemu.Common.Status.{err_fault}
use oemu.Memory.{Memory, covers}
use oemu.Decode.{is_set, bits, to_mem_size, field_rn}
use oemu.Decode.Word.{decode}
use oemu.Exec.Access.{resolve_mem_addr}
use oemu.Exec.Cpu.{Machine, Ran, ran, panicked, cpu_init, read_g, write_g}
use oemu.Exec.Run.{step_bus}
use oemu.Exec.Precise.{Precise}
use oemu.Exec.Concrete.{memory_memops, exec_step, exec_run, exec_step-Precise}
use oemu.Exec.Loop.{Ends, exec_run-Ends}
use oemu.Common.{◌≡◌, ◌*◌, ◌/◌, ◌%◌, ◌^◌, arith, refl}
use oemu.Regs.{w32, w64}
use oemu.Exec.{umulh, clz, rev, rev32}
use oemu.Exec.Count.{Counts, clz-Counts}
use oemu.Exec.Reflect.{Reverses, rbit-Reverses}
use oemu.Exec.Multiply.{umulh_lem}

umulh_lem_example :
    umulh 0xffffffffffffffff 0xfffffffffffffffe ≡ 0xffffffffffffffff * 0xfffffffffffffffe / 2 ^ 64
umulh_lem_example = umulh_lem 0xffffffffffffffff 0xfffffffffffffffe (omega arith) (omega arith)

clz-Counts_example :
    Counts (oemu.Regs.bits w32) (0xff00012345 % 2 ^ oemu.Regs.bits w32) (clz 0xff00012345 w32)
clz-Counts_example = clz-Counts 0xff00012345 w32 (omega arith)

rbit-Reverses_example : Reverses 0x12345678 w32
rbit-Reverses_example = rbit-Reverses 0x12345678 w32

byte_order : rev 0x0102030405060708 w64 ≡ 0x0807060504030201
unfolding rev
byte_order = refl

-- The words change places; their bytes do not.
word_order : rev32 0x0102030405060708 ≡ 0x0506070801020304
unfolding rev32
word_order = refl

-- A guest of one page at 0x1000 that holds `str x0, [x1]`, with x1 at an unmapped address.
abbrev guest : Memory
guest = record {
  regions = record { gva = 0x1000; size = 0x1000; perms = 7; host = 0; owned = true } ∷ [];
  region_capacity = 1;
  heap = update (update (λ i. 0) 0 0x20) 3 0xf9;
}

abbrev machine : Machine (Memory × Unit)
machine = record { cpu = cpu_init 0x1000 0x2000; state = (guest, tt) }

-- The step reports the fault and keeps the core.
faulting_step : (exec_step none machine).0 ≡ ran err_fault machine
unfolding exec_step step_bus decode bits is_set field_rn read_g cpu_init resolve_mem_addr covers
    to_mem_size
faulting_step = refl

exec_step-Precise_example : Precise (cpu_init 0x1000 0x2000) (exec_step none machine).0
exec_step-Precise_example = exec_step-Precise none machine

exec_run-Ends_example : Ends memory_memops none 3 0 machine (exec_run none 3 machine)
exec_run-Ends_example = exec_run-Ends none 3 machine

-- `bfi x2, x0, #32, #32`, which joins two halves
joined_halves : bitfield_result Opcode.bfm w64 32 31 7 5 ≡ 0x700000005
unfolding bitfield_result
joined_halves = refl

bitfield_result-expected_bit_example :
    bit (bitfield_result Opcode.bfm w64 32 31 7 5) 33 ≡ expected_bit Opcode.bfm 64 32 31 7 5 33
bitfield_result-expected_bit_example =
    bitfield_result-expected_bit Opcode.bfm w64 32 31 7 5 33 (omega arith) (omega arith)
      (omega arith) (omega arith)

-- An exclusive load of the word at x1, stores of the word above it and of its last byte, and the
-- exclusive store: its status register x3 tells failure.
abbrev pointing : Machine (Memory × Unit)
pointing = record {
  cpu = record (cpu_init 0x1000 0x2000) {
    regs = record (oemu.Regs.init 0x1000 0x2000) { x = update (λ n. 0) 1 0x1100 };
  };
  state = (guest, tt);
}

abbrev load_exclusively : Insn
load_exclusively = record (insn_reset 0) {
  op = Opcode.ldxr;
  width = w32;
  mem_size = word;
  rd = 2;
  rn = 1;
}

abbrev store_exclusively : Insn
store_exclusively = record load_exclusively { op = Opcode.stxr; rm = 3 }

abbrev store_above : Insn
store_above = record load_exclusively { op = Opcode.str; imm = 4 }

abbrev store_inside : Insn
store_inside = record load_exclusively { op = Opcode.str; mem_size = byte; imm = 3 }

abbrev machine_of : Machine (Memory × Unit) → Ran (Memory × Unit) → Machine (Memory × Unit)
machine_of m (ran status after) = after
machine_of m panicked = m

abbrev reserved : Machine (Memory × Unit)
reserved = machine_of pointing (do_exclusive memory_memops load_exclusively pointing)

abbrev stored_above : Machine (Memory × Unit)
stored_above = machine_of reserved (access memory_memops none single store_above reserved)

abbrev stored_inside : Machine (Memory × Unit)
stored_inside = machine_of stored_above (access memory_memops none single store_inside stored_above)

abbrev closed : Machine (Memory × Unit)
closed = machine_of stored_inside (do_exclusive memory_memops store_exclusively stored_inside)

loaded : do_exclusive memory_memops load_exclusively pointing ≡ ran ok reserved
unfolding do_exclusive memory_memops covers
loaded = refl

above : access memory_memops none single store_above reserved ≡ ran ok stored_above
unfolding access do_exclusive memory_memops covers insn_reset
above = refl

inside : access memory_memops none single store_inside stored_above ≡ ran ok stored_inside
unfolding access do_exclusive memory_memops covers insn_reset
inside = refl

refused : do_exclusive memory_memops store_exclusively stored_inside ≡ ran ok closed
unfolding access do_exclusive memory_memops covers insn_reset
refused = refl

between : Between memory_memops none reserved ((0x1104, 4) ∷ (0x1103, 1) ∷ []) stored_inside
unfolding access do_exclusive memory_memops covers insn_reset resolve_mem_addr read_g
between = moves single store_above refl above (moves single store_inside refl inside arrives)

same_base : read_g stored_inside.cpu 1 true w64 ≡ read_g pointing.cpu 1 true w64
unfolding access do_exclusive memory_memops covers insn_reset read_g
same_base = refl

released-after_stores_example :
    closed.cpu
    ≡ write_g
        (record stored_inside.cpu { monitor_valid = false })
        3
        false
        w32
        (status_of (any_meets (read_g pointing.cpu 1 true w64) 4 ((0x1104, 4) ∷ (0x1103, 1) ∷ [])))
released-after_stores_example =
    released-after_stores memory_memops none load_exclusively store_exclusively pointing refl refl
      loaded between same_base refl refused
