-- ===== src/Lib.antt =====
-- oemu is an emulator of a 64-bit ARM machine. This library models its register file, exceptions,
-- guest memory, address space and MMU, the decoder, the executor, three devices, the firmware calls
-- and the byte buffer of its tools.
--
-- The program's parts and their modules
--
-- - Regs: src/regs/regs.c, the register file (`oemu_regs`), the condition codes and
--   add-with-carry. Regs/Flags and Regs/Conditions are about the flags, Regs/File about reads and
--   writes of registers.
-- - Sysreg: the state of include/oemu/sysreg.h and the stack-pointer switch of
--   src/sysreg/sysreg.c. A core pairs it with a register file, as the source's pointer does.
-- - Exc: src/exc/exc.c, exception entry (`take` is `oemu_exc_take`); Exc/Sources has the return
--   (`eret`) and the sources of exceptions, Exc/Syndrome the fields of the syndrome words,
--   Exc/Delivery what a handler finds, and Exc/Return, Exc/Raise and Exc/Refused the three outcomes.
-- - Gicv2: src/dev/gicv2.c, the interrupt controller; Gicv2/Bus has its two register windows.
-- - Pl011: src/dev/pl011.c, the UART; Pl011/Bus has its registers and the pump.
-- - Gtimer: src/dev/gtimer.c, the timer's expiry test.
-- - Psci: src/fw/psci.c, the firmware calls.
-- - Board: src/main.c, the refresh of the interrupt levels between the devices, the controller and
--   the vCPU (`boot_refresh_levels`).
-- - Memory: src/memory/memory.c, the region table and the guest's accesses.
-- - Mmu: src/mmu/mmu.c, stage-1 translation. Mmu has the pure functions, Mmu/Walk the walk over the
--   tables, Mmu/Tlb the cache and `translate`. Mmu/Total is about the walk's end, Mmu/Page,
--   Mmu/Follow and Mmu/Descent about the walks of one page's addresses, Mmu/Parity and
--   Mmu/Coherent about the entries of the cache, Mmu/Transparent and Mmu/Run about translations.
--   Mmu/Bus is the bus layer on top, whose accesses Mmu/Precise and Mmu/Store follow byte by byte,
--   and Mmu/Probe its permission probe.
-- - Aspace: src/aspace/aspace.c, the physical address space of memory and devices. Aspace/Access
--   has its loads, stores and fetches and the bus that the MMU stands on, Aspace/Table is about the
--   region table and Aspace/Route about the way to a device.
-- - Exec: src/exec/exec.c, the executor, with its pure functions; Exec/Multiply is about the high
--   product, Exec/Count about leading zeros and Exec/Reflect about the reversal of bits. Exec/Cpu has
--   the core (`oemu_cpu`) and the records of a bus and of an environment, Exec/Alu, Exec/Bitfield and
--   Exec/Access the classes of instructions, Exec/Switch and Exec/Dispatch the switch over the
--   operations (an `Effect` for each, which `perform` runs), Exec/Run the step and the loop, and
--   Exec/Concrete both over the view of the guest's memory. Exec/Precise is about faults, Exec/Loop
--   about what a run counts, Exec/FieldBits and Exec/Fields about the bits of a bitfield move.
--   Exec/Monitor, Exec/Ends, Exec/Hears, Exec/HearsVector and Exec/Exclusive are about the exclusive
--   monitor.
-- - Decode: src/decode/decode.c, the instruction decoder; `decode` of Decode/Word is `oemu_decode`.
--   Decode/Immediate, Decode/Branch, Decode/Register and Decode/LoadStore have the groups of words,
--   Decode/Masks the logical immediates, whose pattern Decode/Masks/Pattern is about, and
--   Decode/WellFormed the shape of what is decoded.
-- - Image: src/kernel/image.c, the loader of kernel images (`image_load`); Image/Confined is about the
--   window that it writes to.
-- - Buffer: src/buffer/buffer.c, the growable buffer.
-- - Common: the tests, arrays, words, bit laws, ring queues and status values that these share.
--
-- The boot loop of src/main.c ties the parts together: it drives the controller's lines with
-- `set_pending` from the UART's `irq_level` and the timer's `pending`, passes the controller's
-- `irq_level` to the vCPU, which takes an interrupt with `take`, and drains the UART with `pump`; the
-- guest's accesses go through the MMU's bus layer to the view of the address space (`memops`), and
-- from there to memory or to the devices' reads and writes. Board models the refresh; the other
-- interactions are lists of events on one part (Gicv2/Run, Pl011/Run, Psci/Run, Mmu/Run).
--
-- How the code is modelled
--
-- Structures are records and each function is one definition of its name, from the state to the
-- state and the results. Machine words are numbers with their wrap-around written out. An array is
-- a function from its indices, used below its bound as in the source. A call that fails an
-- OEMU_REQUIRE is the result `none` where the check depends on a value (`take`, `init` of the
-- controller); a pointer that is required or tested for NULL is taken to be there, except where the
-- absence is a result. A signed offset is its two's complement word.
--
-- Loops recurse on the number of rounds left, which is the bound in the source: 64 lines, 32 bits,
-- the bytes of an access, the four levels of a walk, the bits of a word, the bytes queued in the
-- transmit ring, the regions of the table. The growth loop of the buffer recurses on a fuel of
-- `required` rounds, which is enough since each round adds at least 8 to the capacity; the
-- permission probe of the MMU has a round for each byte of its range and one for the end, which is
-- enough since each round passes at least one byte. A run of the executor recurses on its budget.
--
-- Outside the repository: the allocator's answers and the text that vsnprintf renders are
-- arguments, and the host's output sink is a log of what it was handed. A result on
-- reallocation assumes that realloc keeps the bytes of the old block. Host memory is one function
-- from addresses to bytes.
--
-- The bus below the MMU is a parameter, a record of operations over a state of its own. The reads
-- of a walk are taken to change nothing in it. A fault address that the source leaves uninitialised
-- is an argument (`stale`).
--
-- Not modelled: the executor's system mode and tracer, the machine, the ELF loader, the
-- device trees, the system-register table, the vCPU loop and the rest of the command line; and
-- tables of names, callbacks and identification values.
pub mod Aspace
pub mod Board
pub mod Buffer
pub mod Common
pub mod Decode
pub mod Exc
pub mod Exec
pub mod Gicv2
pub mod Gtimer
pub mod Image
pub mod Memory
pub mod Mmu
pub mod Pl011
pub mod Psci
pub mod Regs
pub mod Sysreg
