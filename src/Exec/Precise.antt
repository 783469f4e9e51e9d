-- ===== src/Exec/Precise.antt =====
-- src/exec/exec.c: faults of a step, over a bus that keeps its word.
pub mod Scalar
pub mod Vector
pub mod Step
use oemu.Common.{
  ℕ, zero, suc, ◌+◌, ◌*◌, Bool, true, false, Option, none, some, ◌≡◌, refl, sym, ap, ◌∙◌, subst,
  if_both, ◌==◌, ◌&&◌, ◌||◌, not, if◌then◌else◌, leb,
}
use oemu.Common.Status.{
  Status, ok, is_ok, err_invalid_arg, err_unsupported, err_fault, err_decode, MemSize, byte, half,
  word, dword, quad,
}
use oemu.Common.Word.{u64}
use oemu.Memory.{nbytes, perm_read, perm_write}
use oemu.Regs.{Width, w32, w64, bits}
use oemu.Decode.{Insn, Opcode}
use oemu.Exec.Cpu.{
  Cpu, Machine, Memops, EnvOps, Ran, ran, panicked, read_g, write_g, note_store, set_vector,
}
use oemu.Exec.Access.{
  validated, loading, storing, completed, load_pair, store_pair, do_pair, validate_vector,
  store_vector, load_vector, do_pair_vector, do_single_vector, load_single, store_single,
  do_single_mem, load_exclusive, holds, store_exclusive, do_exclusive, perm_of, op_is_store,
  resolve_mem_addr, write_back, is_ldxr, is_literal, released,
}
use oemu.Exec.Switch.{
  advance, AccessKind, single, pair, exclusive, single_vector, pair_vector, Decision, by_bitfield,
  by_mrs, by_msr, Effect, retires, jumps, decides, accesses, accesses_either, calls, stops,
  effect_of, decide,
}
use oemu.Exec.Dispatch.{
  falls, concluded, concluded_access, do_svc, called, access, perform, dispatch_bus,
}

-- The contract of a bus: a range that it grants it serves, and no later use takes it back.
pub record IsLawful {σ : Type 0} (mem : Memops σ) (Granted : σ → ℕ → ℕ → ℕ → Type 0) : Type 0 where
  pub grants :
      (s : σ) (a n p : ℕ)
      → is_ok (mem.validate s a n p).0 ≡ true
      → Granted (mem.validate s a n p).1 a n p
  pub keeps_validate :
      (s : σ) (a n p b k q : ℕ) → Granted s a n p → Granted (mem.validate s b k q).1 a n p
  pub keeps_read :
      (s : σ) (a n p b : ℕ) (size : MemSize) (x : Bool)
      → Granted s a n p
      → Granted (mem.read s b size x).1 a n p
  pub keeps_write :
      (s : σ) (a n p b : ℕ) (size : MemSize) (v : ℕ)
      → Granted s a n p
      → Granted (mem.write s b size v).1 a n p
  pub reads :
      (s : σ) (a : ℕ) (size : MemSize) (x : Bool)
      → Granted s a (nbytes size) perm_read
      → is_ok (mem.read s a size x).0.0 ≡ true
  pub writes :
      (s : σ) (a : ℕ) (size : MemSize) (v : ℕ)
      → Granted s a (nbytes size) perm_write
      → is_ok (mem.write s a size v).0 ≡ true

-- A step that completes, or one that does not and leaves the core as it was.
pub data Precise {σ : Type 0} (before : Cpu) : Ran σ → Type 0 where
  completes : {m : Machine σ} → Precise before (ran ok m)
  stays :
      {status : Status} {m : Machine σ}
      → is_ok status ≡ false
      → m.cpu ≡ before
      → Precise before (ran status m)

module _ {σ : Type 0} (mem : Memops σ) where
  -- The machine after a validation, a load or a store.
  abbrev pub after_validate : ℕ → ℕ → ℕ → Machine σ → Machine σ
  after_validate a n p m = record m { state = (mem.validate m.state a n p).1 }

  abbrev pub after_read : ℕ → MemSize → Bool → Machine σ → Machine σ
  after_read a size x m = record m { state = (mem.read m.state a size x).1 }

  abbrev pub after_write : ℕ → MemSize → ℕ → Machine σ → Machine σ
  after_write a size v m = record m { state = (mem.write m.state a size v).1 }

module _ {σ : Type 0} (mem : Memops σ) (Granted : σ → ℕ → ℕ → ℕ → Type 0)
    (law : IsLawful mem Granted) (before : Cpu) where
  pub validated-Precise :
      (a n p : ℕ) (next : Machine σ → Ran σ) (m : Machine σ)
      → m.cpu ≡ before
      → (Granted (mem.validate m.state a n p).1 a n p
          → Precise before (next (record m { state = (mem.validate m.state a n p).1 })))
      → Precise before (validated mem a n p next m)
  unfolding validated
  validated-Precise a n p next m e follows =
      if_both (Precise before) (is_ok (mem.validate m.state a n p).0)
        (λ granted. follows (law.grants m.state a n p granted)) λ _. stays refl e

  pub loading-Precise :
      (a : ℕ) (size : MemSize) (x : Bool) (next : ℕ → Machine σ → Ran σ) (m : Machine σ)
      → Granted m.state a (nbytes size) perm_read
      → Precise before (
          next (mem.read m.state a size x).0.1 (record m { state = (mem.read m.state a size x).1 }))
      → Precise before (loading mem a size x next m)
  unfolding loading
  loading-Precise a size x next m granted follows =
      if_both (Precise before) (is_ok (mem.read m.state a size x).0.0) (λ _. follows)
        λ refused. let served = law.reads m.state a size x granted in cc

  pub storing-Precise :
      (a : ℕ) (size : MemSize) (v : ℕ) (next : Machine σ → Ran σ) (m : Machine σ)
      → Granted m.state a (nbytes size) perm_write
      → Precise before (next (record m { state = (mem.write m.state a size v).1 }))
      → Precise before (storing mem a size v next m)
  unfolding storing
  storing-Precise a size v next m granted follows =
      if_both (Precise before) (is_ok (mem.write m.state a size v).0) (λ _. follows)
        λ refused. let served = law.writes m.state a size v granted in cc

  -- The two directions of an access to one range, or to two.
  pub transfer-Precise :
      (is_store : Bool) (store load : Machine σ → Ran σ) (m : Machine σ) (a n : ℕ)
      → Granted m.state a n (perm_of is_store)
      → (Granted m.state a n perm_write → Precise before (store m))
      → (Granted m.state a n perm_read → Precise before (load m))
      → Precise before ((if is_store then store else load) m)
  transfer-Precise true store load m a n granted stored loaded = stored granted
  transfer-Precise false store load m a n granted stored loaded = loaded granted

  pub transfer_both-Precise :
      (is_store : Bool) (store load : Machine σ → Ran σ) (m : Machine σ) (a b n : ℕ)
      → Granted m.state a n (perm_of is_store)
      → Granted m.state b n (perm_of is_store)
      → (Granted m.state a n perm_write → Granted m.state b n perm_write → Precise before (store m))
      → (Granted m.state a n perm_read → Granted m.state b n perm_read → Precise before (load m))
      → Precise before ((if is_store then store else load) m)
  transfer_both-Precise true store load m a b n ga gb stored loaded = stored ga gb
  transfer_both-Precise false store load m a b n ga gb stored loaded = loaded ga gb
