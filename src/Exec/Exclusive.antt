-- ===== src/Exec/Exclusive.antt =====
-- src/exec/exec.c: the exclusive monitor from an exclusive load to the store that closes it.
use oemu.Common.{
  ℕ, ◌<◌, Bool, true, false, not, List, [], ◌++◌, ◌≡◌, refl, sym, ap, ap₂, ◌∙◌, ◌==◌, ◌&&◌, arith,
  subst, if_both, if◌then◌else◌, Option,
}
use oemu.Common.Status.{ok, MemSize, byte, half, word, dword, quad}
use oemu.Memory.{nbytes, perm_read, perm_write}
use oemu.Regs.{w32, w64}
use oemu.Decode.{Insn}
use oemu.Exec.Cpu.{Cpu, Machine, Memops, EnvOps, ran, read_g, write_g}
use oemu.Exec.Access.{
  storing, load_exclusive, holds, store_exclusive, do_exclusive, op_is_store, is_ldxr, released,
  completed,
}
use oemu.Exec.Switch.{AccessKind, single, pair, exclusive, single_vector, pair_vector}
use oemu.Exec.Dispatch.{access}
use oemu.Exec.Monitor.{
  after_stores, AllPositive, any_meets, monitor, holds-after_stores, monitor-after_stores,
  after_stores-append, append-AllPositive,
}
use oemu.Exec.Ends.{Ends, done-Ends, ended, validated-Ends, loading-Ends, storing-Ends}
use oemu.Exec.Hears.{stores_of, is_exclusive, Hears, do_single_mem-Hears, do_pair-Hears}
use oemu.Exec.HearsVector.{do_single_vector-Hears, do_pair_vector-Hears}

size_pos : (size : MemSize) → 0 < nbytes size
size_pos byte = omega arith
size_pos half = omega arith
size_pos word = omega arith
size_pos dword = omega arith
size_pos quad = omega arith

-- A monitor that holds a range.
abbrev held : ℕ × ℕ × Bool → ℕ → ℕ → Bool
held (addr, size, live) a n = live && addr == a && size == n

-- The status of an exclusive store.
abbrev pub status_of : Bool → ℕ
status_of failed = if failed then 1 else 0

status_of-not : (failed : Bool) → (if not failed then 0 else 1) ≡ status_of failed
status_of-not true = refl
status_of-not false = refl

module _ {σ : Type 0} (mem : Memops σ) where
  reserves :
      (i : Insn) (m : Machine σ)
      → is_ldxr i.op ≡ true
      → Ends
          (λ cpu. monitor cpu ≡ (read_g m.cpu i.rn true w64, nbytes i.mem_size, true))
          (do_exclusive mem i m)
  unfolding do_exclusive load_exclusive
  reserves i m e =
      let addr = read_g m.cpu i.rn true w64 in
      rw e (
        validated-Ends mem _ addr (nbytes i.mem_size) perm_read (load_exclusive mem i addr) m λ s.
          loading-Ends mem _ addr i.mem_size false
            (λ value. completed mem λ cpu. record (write_g cpu i.rd false i.width value) {
              monitor_addr = addr;
              monitor_size = nbytes i.mem_size;
              monitor_valid = true;
            })
            (record m { state = s }) λ v s'. done-Ends _ ok _ refl)

  closes :
      (i : Insn) (m : Machine σ)
      → is_ldxr i.op ≡ false
      → Ends
          (λ cpu.
            cpu
            ≡ released i
                (if holds m.cpu (read_g m.cpu i.rn true w64) (nbytes i.mem_size) then 0 else 1)
                m.cpu)
          (do_exclusive mem i m)
  unfolding do_exclusive store_exclusive
  closes i m e =
      let addr = read_g m.cpu i.rn true w64 in
      let live = holds m.cpu addr (nbytes i.mem_size) in
      let value = read_g m.cpu i.rd false i.width in
      rw e (
        validated-Ends mem _ addr (nbytes i.mem_size) perm_write (store_exclusive mem i addr) m λ s.
          elim live
            as (λ held.
              Ends (λ cpu. cpu ≡ released i (if held then 0 else 1) m.cpu)
                (if held
                  then storing mem addr i.mem_size value (completed mem (released i 0))
                      (record m { state = s })
                  else completed mem (released i 1) (record m { state = s }))) [
                    | true ↦
                        storing-Ends mem _ addr i.mem_size value (completed mem (released i 0))
                          (record m { state = s }) λ s'. done-Ends _ ok _ refl
                    | false ↦ done-Ends _ ok _ refl
                  ])

module _ {σ : Type 0} (mem : Memops σ) (env : Option (EnvOps σ)) where
  access-Hears :
      (kind : AccessKind) (i : Insn) (m : Machine σ)
      → is_exclusive kind ≡ false
      → Hears (after_stores m.cpu (stores_of kind i m.cpu)) (access mem env kind i m)
  unfolding access
  access-Hears single i m e = do_single_mem-Hears mem i m
  access-Hears pair i m e = do_pair-Hears mem i m
  access-Hears exclusive i m e = absurd (cc)
  access-Hears single_vector i m e = do_single_vector-Hears mem i m
  access-Hears pair_vector i m e = do_pair_vector-Hears mem i m

  -- A stretch of a run without exclusive accesses, and the ranges that its stores note: accesses that
  -- end well, and anything else that leaves the monitor alone.
  pub data Between : Machine σ → List (ℕ × ℕ) → Machine σ → Type 0 where
    arrives : {m : Machine σ} → Between m [] m
    moves :
        {m next after : Machine σ} {stores : List (ℕ × ℕ)} (kind : AccessKind) (i : Insn)
        → is_exclusive kind ≡ false
        → access mem env kind i m ≡ ran ok next
        → Between next stores after
        → Between m (stores_of kind i m.cpu ++ stores) after
    other :
        {m next after : Machine σ} {stores : List (ℕ × ℕ)}
        → monitor next.cpu ≡ monitor m.cpu
        → Between next stores after
        → Between m stores after

  stores_of-AllPositive :
      (kind : AccessKind) (i : Insn) (cpu : Cpu) → AllPositive (stores_of kind i cpu)
  stores_of-AllPositive single i cpu =
      if_both AllPositive (op_is_store i.op) (λ _. (size_pos i.mem_size, tt)) λ _. tt
  stores_of-AllPositive pair i cpu =
      if_both AllPositive (op_is_store i.op) (λ _. (omega (arith, size_pos i.mem_size), tt)) λ _. tt
  stores_of-AllPositive pair_vector i cpu =
      if_both AllPositive (op_is_store i.op) (λ _. (omega (arith, size_pos i.mem_size), tt)) λ _. tt
  stores_of-AllPositive exclusive i cpu = tt
  stores_of-AllPositive single_vector i cpu = tt

  Between-AllPositive :
      {m after : Machine σ} {stores : List (ℕ × ℕ)} → Between m stores after → AllPositive stores
  Between-AllPositive arrives = tt
  Between-AllPositive (moves {m} {stores = stores} kind i e r rest) =
      append-AllPositive (stores_of kind i m.cpu) stores (stores_of-AllPositive kind i m.cpu)
        (Between-AllPositive rest)
  Between-AllPositive (other e rest) = Between-AllPositive rest

  Between-monitor :
      {m after : Machine σ} {stores : List (ℕ × ℕ)}
      → Between m stores after
      → monitor after.cpu ≡ monitor (after_stores m.cpu stores)
  Between-monitor arrives = refl
  Between-monitor (moves {m} {next} {stores = stores} kind i e r rest) =
      let heard = after_stores m.cpu (stores_of kind i m.cpu) in
      let there : monitor next.cpu ≡ monitor heard =
        ended _ next (subst (Hears heard) r (access-Hears kind i m e)) in
      Between-monitor rest
      ∙ monitor-after_stores stores next.cpu heard there
      ∙ ap monitor (sym (after_stores-append (stores_of kind i m.cpu) stores m.cpu))
  Between-monitor (other {m} {next} {stores = stores} e rest) =
      Between-monitor rest ∙ monitor-after_stores stores next.cpu m.cpu e

  -- An exclusive load of a range, a stretch of the run, and an exclusive store to the same range, the
  -- load and the store ending well; the stretch is of accesses that end well, none of them exclusive,
  -- and of anything else that leaves the monitor alone. The store leaves no reservation, and its
  -- status register tells success (0) exactly where none of the stores that were noted in the stretch
  -- met the reserved bytes, and failure (1) otherwise; no other register changes. Noted are
  -- the stores of one and of two general registers and those of two vector registers, of any size;
  -- the store of a single vector register is not, although it may write the reserved bytes. A range
  -- here is the addresses from its first on, without wrap-round.
  pub released-after_stores :
      (load store : Insn) (m : Machine σ) {reserved before after : Machine σ}
      {stores : List (ℕ × ℕ)}
      → is_ldxr load.op ≡ true
      → is_ldxr store.op ≡ false
      → do_exclusive mem load m ≡ ran ok reserved
      → Between reserved stores before
      → read_g before.cpu store.rn true w64 ≡ read_g m.cpu load.rn true w64
      → nbytes store.mem_size ≡ nbytes load.mem_size
      → do_exclusive mem store before ≡ ran ok after
      → after.cpu
        ≡ write_g
            (record before.cpu { monitor_valid = false })
            store.rm
            false
            w32
            (status_of (any_meets (read_g m.cpu load.rn true w64) (nbytes load.mem_size) stores))
  unfolding holds
  released-after_stores load store m {reserved} {before} {after} {stores} l x e between addr size
        f =
      let a = read_g m.cpu load.rn true w64 in
      let n = nbytes load.mem_size in
      let start : monitor reserved.cpu ≡ (a, n, true) =
        ended _ reserved (subst (Ends _) e (reserves mem load m l)) in
      let stop = ended _ after (subst (Ends _) f (closes mem store before x)) in
      let kept : holds before.cpu a n ≡ not (any_meets a n stores) =
        ap (λ t. held t a n) (Between-monitor between)
        ∙ ap (λ t. holds (after_stores reserved.cpu stores) t n) (ap (λ t. t.0) (sym start))
        ∙ holds-after_stores stores reserved.cpu n (Between-AllPositive between)
            (size_pos load.mem_size) (ap (λ t. t.2) start) (ap (λ t. t.1) start)
        ∙ ap (λ t. not (any_meets t n stores)) (ap (λ t. t.0) start) in
      stop
      ∙ ap₂ (λ t k. released store (if holds before.cpu t k then 0 else 1) before.cpu) addr size
      ∙ ap (λ t. released store (if t then 0 else 1) before.cpu) kept
      ∙ ap (λ t. released store t before.cpu) (status_of-not (any_meets a n stores))
