-- ===== src/Exec/HearsVector.antt =====
-- src/exec/exec.c: which stores of vector registers the exclusive monitor hears of.
use oemu.Common.{ℕ, ◌+◌, ◌*◌, Bool, true, false, [], ◌∷◌, ◌≡◌, refl, ◌∙◌, if◌then◌else◌}
use oemu.Common.Status.{ok, MemSize, byte, half, word, dword, quad}
use oemu.Common.Word.{u64}
use oemu.Memory.{nbytes}
use oemu.Decode.{Insn}
use oemu.Exec.Cpu.{Cpu, Machine, Memops, Ran, note_store, set_vector}
use oemu.Exec.Access.{
  loading, validate_vector, store_vector, load_vector, do_pair_vector, do_single_vector,
  op_is_store, resolve_mem_addr, write_back, perm_of, completed,
}
use oemu.Exec.Switch.{pair_vector}
use oemu.Exec.Monitor.{after_stores, monitor}
use oemu.Exec.Ends.{done-Ends, loading-Ends, validate_vector-Ends, store_vector-Ends}
use oemu.Exec.Hears.{stores_of, Hears, write_back-monitor}

module _ {σ : Type 0} (mem : Memops σ) (i : Insn) where
  -- Vector registers that are loaded leave the monitor.
  load_vector-Hears :
      (size : MemSize) (a n : ℕ) (heard : Cpu) (next : Machine σ → Ran σ) (m : Machine σ)
      → ((m' : Machine σ) → monitor m'.cpu ≡ monitor m.cpu → Hears heard (next m'))
      → Hears heard (load_vector mem size a n next m)
  unfolding load_vector
  load_vector-Hears quad a n heard next m follows =
      loading-Ends mem _ a dword false
        (λ low.
          loading mem (u64 (a + 8)) dword false
            λ high m'. next (record m' { cpu = set_vector m'.cpu n low high }))
        m
        λ low s.
          loading-Ends mem _ (u64 (a + 8)) dword false
            (λ high m'. next (record m' { cpu = set_vector m'.cpu n low high }))
            (record m { state = s }) λ high s'. follows _ refl
  load_vector-Hears dword a n heard next m follows =
      loading-Ends mem _ a dword false
        (λ low m'. next (record m' { cpu = set_vector m'.cpu n low 0 })) m λ v s. follows _ refl
  load_vector-Hears word a n heard next m follows =
      loading-Ends mem _ a word false
        (λ low m'. next (record m' { cpu = set_vector m'.cpu n low 0 })) m λ v s. follows _ refl
  load_vector-Hears half a n heard next m follows =
      loading-Ends mem _ a half false
        (λ low m'. next (record m' { cpu = set_vector m'.cpu n low 0 })) m λ v s. follows _ refl
  load_vector-Hears byte a n heard next m follows =
      loading-Ends mem _ a byte false
        (λ low m'. next (record m' { cpu = set_vector m'.cpu n low 0 })) m λ v s. follows _ refl

  pub do_single_vector-Hears : (m : Machine σ) → Hears m.cpu (do_single_vector mem i m)
  unfolding do_single_vector
  do_single_vector-Hears m =
      let addr = (resolve_mem_addr m.cpu i).0 in
      let base = (resolve_mem_addr m.cpu i).1 in
      let last : Machine σ → Ran σ = completed mem λ cpu. write_back i base cpu in
      validate_vector-Ends mem _ quad addr (perm_of (op_is_store i.op))
        (if op_is_store i.op
          then store_vector mem quad addr i.rd last
          else load_vector mem quad addr i.rd last)
        m
        λ s.
          elim (op_is_store i.op)
            as (λ writes. Hears m.cpu (
              (if writes
                  then store_vector mem quad addr i.rd last
                  else load_vector mem quad addr i.rd last)
                (record m { state = s }))) [
                  | true ↦
                      store_vector-Ends mem _ quad addr i.rd last (record m { state = s })
                        λ s'. done-Ends _ ok _ (write_back-monitor i base _)
                  | false ↦
                      load_vector-Hears quad addr i.rd m.cpu last (record m { state = s })
                        λ m' e. done-Ends _ ok _ (write_back-monitor i base _ ∙ e)
                ]

  pub do_pair_vector-Hears :
      (m : Machine σ)
      → Hears (after_stores m.cpu (stores_of pair_vector i m.cpu)) (do_pair_vector mem i m)
  unfolding do_pair_vector
  do_pair_vector-Hears m =
      let size = i.mem_size in
      let addr = (resolve_mem_addr m.cpu i).0 in
      let base = (resolve_mem_addr m.cpu i).1 in
      let bytes = nbytes size in
      let addr2 = u64 (addr + bytes) in
      let perms = perm_of (op_is_store i.op) in
      let last : Bool → Machine σ → Ran σ = λ writes.
        completed mem
          λ cpu. write_back i base (if writes then note_store cpu addr (bytes * 2) else cpu) in
      let transfer : Bool → Machine σ → Ran σ = λ writes.
        if writes
        then store_vector mem size addr i.rd (store_vector mem size addr2 i.rt2 (last writes))
        else load_vector mem size addr i.rd (load_vector mem size addr2 i.rt2 (last writes)) in
      validate_vector-Ends mem _ size addr perms
        (validate_vector mem size addr2 perms (transfer (op_is_store i.op))) m
        λ s.
          validate_vector-Ends mem _ size addr2 perms (transfer (op_is_store i.op))
            (record m { state = s })
            λ s'.
              elim (op_is_store i.op)
                as (λ writes.
                  Hears (after_stores m.cpu (if writes then (addr, bytes * 2) ∷ [] else []))
                    (transfer writes (record m { state = s' }))) [
                      | true ↦
                          store_vector-Ends mem _ size addr i.rd _ (record m { state = s' })
                            λ t.
                              store_vector-Ends mem _ size addr2 i.rt2 (last true)
                                (record m { state = t })
                                λ t'. done-Ends _ ok _ (write_back-monitor i base _)
                      | false ↦
                          load_vector-Hears size addr i.rd m.cpu
                            (load_vector mem size addr2 i.rt2 (last false))
                            (record m { state = s' })
                            λ m1 e1.
                              load_vector-Hears size addr2 i.rt2 m.cpu (last false) m1
                                λ m2 e2. done-Ends _ ok _ (write_back-monitor i base _ ∙ e2 ∙ e1)
                    ]
