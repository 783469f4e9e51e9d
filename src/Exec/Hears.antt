-- ===== src/Exec/Hears.antt =====
-- src/exec/exec.c: which stores the exclusive monitor hears of.
use oemu.Common.{ℕ, ◌+◌, ◌*◌, Bool, true, false, List, [], ◌∷◌, ◌≡◌, refl, if_both, if◌then◌else◌}
use oemu.Common.Status.{ok}
use oemu.Common.Word.{u64}
use oemu.Memory.{nbytes}
use oemu.Decode.{Insn}
use oemu.Exec.Cpu.{Cpu, Machine, Memops, Ran, read_g, write_g, note_store}
use oemu.Exec.Access.{
  validated, loading, storing, load_pair, store_pair, do_pair, load_single, store_single,
  do_single_mem, op_is_store, resolve_mem_addr, write_back, is_none, is_literal, perm_of,
  single_back, completed,
}
use oemu.Exec.Switch.{AccessKind, single, pair, exclusive, pair_vector}
use oemu.Exec.Monitor.{after_stores, monitor}
use oemu.Exec.Ends.{Ends, done-Ends, validated-Ends, loading-Ends, storing-Ends}

-- The ranges that an access notes, from the core before it: those of the scalar stores and of the
-- stores of pairs. A load has none. Nor has the store of a single vector register, of which the
-- monitor does not hear.
abbrev pub stores_of : AccessKind → Insn → Cpu → List (ℕ × ℕ)
stores_of single i cpu =
    if op_is_store i.op
    then (
      (if is_literal i.operand_kind then i.imm else (resolve_mem_addr cpu i).0),
      nbytes i.mem_size,
    )
      ∷ []
    else []
stores_of pair i cpu =
    if op_is_store i.op then ((resolve_mem_addr cpu i).0, nbytes i.mem_size * 2) ∷ [] else []
stores_of pair_vector i cpu =
    if op_is_store i.op then ((resolve_mem_addr cpu i).0, nbytes i.mem_size * 2) ∷ [] else []
stores_of _ i cpu = []

abbrev pub is_exclusive : AccessKind → Bool
is_exclusive exclusive = true
is_exclusive _ = false

pub write_back-monitor :
    (i : Insn) (value : ℕ) (cpu : Cpu) → monitor (write_back i value cpu) ≡ monitor cpu
unfolding write_back write_g
write_back-monitor i value cpu =
    if_both (λ c. monitor c ≡ monitor cpu) (is_none i.index_mode) (λ _. refl) λ _. refl

-- The accesses end with the monitor of a core that heard of their stores.
abbrev pub Hears : {σ : Type 0} → Cpu → Ran σ → Type 0
Hears heard = Ends λ cpu. monitor cpu ≡ monitor heard

module _ {σ : Type 0} (mem : Memops σ) (i : Insn) where
  single_back-monitor :
      (value : ℕ) (cpu : Cpu) → monitor (single_back mem i value cpu) ≡ monitor cpu
  single_back-monitor value cpu =
      if_both (λ c. monitor c ≡ monitor cpu) (is_literal i.operand_kind) (λ _. refl)
        λ _. write_back-monitor i value cpu

  load_single-Hears : (addr base : ℕ) (m : Machine σ) → Hears m.cpu (load_single mem i addr base m)
  unfolding load_single write_g
  load_single-Hears addr base m =
      loading-Ends mem _ addr i.mem_size i.is_signed_load
        (λ v. completed mem λ cpu. single_back mem i base (write_g cpu i.rd false i.width v)) m
        λ v s. done-Ends _ ok _ (single_back-monitor base (write_g m.cpu i.rd false i.width v))

  store_single-Hears :
      (addr base : ℕ) (m : Machine σ)
      → Hears (note_store m.cpu addr (nbytes i.mem_size)) (store_single mem i addr base m)
  unfolding store_single
  store_single-Hears addr base m =
      storing-Ends mem _ addr i.mem_size _
        (completed mem λ cpu. single_back mem i base (note_store cpu addr (nbytes i.mem_size))) m
        λ s. done-Ends _ ok _ (single_back-monitor base (note_store m.cpu addr (nbytes i.mem_size)))

  pub do_single_mem-Hears :
      (m : Machine σ)
      → Hears (after_stores m.cpu (stores_of single i m.cpu)) (do_single_mem mem i m)
  unfolding do_single_mem
  do_single_mem-Hears m =
      let addr = if is_literal i.operand_kind then i.imm else (resolve_mem_addr m.cpu i).0 in
      let base = (resolve_mem_addr m.cpu i).1 in
      validated-Ends mem _ addr (nbytes i.mem_size) (perm_of (op_is_store i.op))
        (if op_is_store i.op then store_single mem i addr base else load_single mem i addr base) m
        λ s.
          elim (op_is_store i.op)
            as (λ writes.
              Hears (after_stores m.cpu (if writes then (addr, nbytes i.mem_size) ∷ [] else [])) (
                (if writes then store_single mem i addr base else load_single mem i addr base)
                  (record m { state = s }))) [
                    | true ↦ store_single-Hears addr base (record m { state = s })
                    | false ↦ load_single-Hears addr base (record m { state = s })
                  ]

  load_pair-Hears :
      (addr addr2 base : ℕ) (m : Machine σ) → Hears m.cpu (load_pair mem i addr addr2 base m)
  unfolding load_pair write_g
  load_pair-Hears addr addr2 base m =
      let last : ℕ → ℕ → Machine σ → Ran σ = λ v1 v2. completed mem λ cpu.
        write_back i base (write_g (write_g cpu i.rd false i.width v1) i.rt2 false i.width v2) in
      loading-Ends mem _ addr i.mem_size i.is_signed_load
        (λ v1. loading mem addr2 i.mem_size i.is_signed_load (last v1)) m
        λ v1 s.
          loading-Ends mem _ addr2 i.mem_size i.is_signed_load (last v1) (record m { state = s })
            λ v2 s'. done-Ends _ ok _ (write_back-monitor i base _)

  store_pair-Hears :
      (addr addr2 base : ℕ) (m : Machine σ)
      → Hears (note_store m.cpu addr (nbytes i.mem_size * 2)) (store_pair mem i addr addr2 base m)
  unfolding store_pair
  store_pair-Hears addr addr2 base m =
      let second = read_g m.cpu i.rt2 false i.width in
      let last : Machine σ → Ran σ =
        completed mem λ cpu. write_back i base (note_store cpu addr (nbytes i.mem_size * 2)) in
      storing-Ends mem _ addr i.mem_size _ (storing mem addr2 i.mem_size second last) m λ s.
        storing-Ends mem _ addr2 i.mem_size second last (record m { state = s })
          λ s'. done-Ends _ ok _ (write_back-monitor i base _)

  pub do_pair-Hears :
      (m : Machine σ) → Hears (after_stores m.cpu (stores_of pair i m.cpu)) (do_pair mem i m)
  unfolding do_pair
  do_pair-Hears m =
      let addr = (resolve_mem_addr m.cpu i).0 in
      let base = (resolve_mem_addr m.cpu i).1 in
      let bytes = nbytes i.mem_size in
      let addr2 = u64 (addr + bytes) in
      let perms = perm_of (op_is_store i.op) in
      let last : Machine σ → Ran σ =
        if op_is_store i.op
        then store_pair mem i addr addr2 base
        else load_pair mem i addr addr2 base in
      validated-Ends mem _ addr bytes perms (validated mem addr2 bytes perms last) m λ s.
        validated-Ends mem _ addr2 bytes perms last (record m { state = s })
          λ s'.
            elim (op_is_store i.op)
              as (λ writes.
                Hears (after_stores m.cpu (if writes then (addr, bytes * 2) ∷ [] else [])) (
                  (if writes
                      then store_pair mem i addr addr2 base
                      else load_pair mem i addr addr2 base)
                    (record m { state = s' }))) [
                      | true ↦ store_pair-Hears addr addr2 base (record m { state = s' })
                      | false ↦ load_pair-Hears addr addr2 base (record m { state = s' })
                    ]
