-- ===== src/Exec/Precise/Scalar.antt =====
-- src/exec/exec.c: faults of the accesses of the general registers.
use oemu.Common.{ℕ, ◌+◌, Bool, true, false, ◌≡◌, if_both, if◌then◌else◌}
use oemu.Common.Status.{is_ok}
use oemu.Common.Word.{u64}
use oemu.Memory.{nbytes, perm_read, perm_write}
use oemu.Regs.{w64}
use oemu.Decode.{Insn}
use oemu.Exec.Cpu.{Cpu, Machine, Memops, read_g}
use oemu.Exec.Access.{
  validated, loading, storing, load_pair, store_pair, do_pair, load_single, store_single,
  do_single_mem, load_exclusive, holds, store_exclusive, do_exclusive, perm_of, op_is_store,
  resolve_mem_addr, is_ldxr, is_literal,
}
use oemu.Exec.Precise.{
  IsLawful, Precise, completes, after_validate, after_read, after_write, validated-Precise,
  transfer-Precise, transfer_both-Precise,
}

module _ {σ : Type 0} (mem : Memops σ) (Granted : σ → ℕ → ℕ → ℕ → Type 0)
    (law : IsLawful mem Granted) (before : Cpu) where
  load_single-Precise :
      (i : Insn) (a base : ℕ) (m : Machine σ)
      → Granted m.state a (nbytes i.mem_size) perm_read
      → Precise before (load_single mem i a base m)
  unfolding load_single loading
  load_single-Precise i a base m granted =
      if_both (Precise before) (is_ok (mem.read m.state a i.mem_size i.is_signed_load).0.0)
        (λ _. completes)
        λ refused. let served = law.reads m.state a i.mem_size i.is_signed_load granted in cc

  store_single-Precise :
      (i : Insn) (a base : ℕ) (m : Machine σ)
      → Granted m.state a (nbytes i.mem_size) perm_write
      → Precise before (store_single mem i a base m)
  unfolding store_single storing
  store_single-Precise i a base m granted =
      if_both (Precise before)
        (is_ok (mem.write m.state a i.mem_size (read_g m.cpu i.rd false i.width)).0)
        (λ _. completes)
        λ refused.
          let served = law.writes m.state a i.mem_size (read_g m.cpu i.rd false i.width) granted in
          cc

  pub single-Precise :
      (i : Insn) (m : Machine σ) → m.cpu ≡ before → Precise before (do_single_mem mem i m)
  unfolding do_single_mem
  single-Precise i m e =
      let base = (resolve_mem_addr m.cpu i).1 in
      let a = if is_literal i.operand_kind then i.imm else (resolve_mem_addr m.cpu i).0 in
      let size = nbytes i.mem_size in
      let store = store_single mem i a base in
      let load = load_single mem i a base in
      let after = after_validate mem a size (perm_of (op_is_store i.op)) m in
      validated-Precise mem Granted law before a size (perm_of (op_is_store i.op))
        (if op_is_store i.op then store else load) m e
        λ granted.
          transfer-Precise mem Granted law before (op_is_store i.op) store load after a size granted
            (λ g. store_single-Precise i a base after g) λ g. load_single-Precise i a base after g

  load_pair-Precise :
      (i : Insn) (a b base : ℕ) (m : Machine σ)
      → Granted m.state a (nbytes i.mem_size) perm_read
      → Granted m.state b (nbytes i.mem_size) perm_read
      → Precise before (load_pair mem i a b base m)
  unfolding load_pair loading
  load_pair-Precise i a b base m ga gb =
      let after = after_read mem a i.mem_size i.is_signed_load m in
      let kept =
        law.keeps_read m.state b (nbytes i.mem_size) perm_read a i.mem_size i.is_signed_load gb in
      if_both (Precise before) (is_ok (mem.read m.state a i.mem_size i.is_signed_load).0.0)
        (λ _.
          if_both (Precise before) (is_ok (mem.read after.state b i.mem_size i.is_signed_load).0.0)
            (λ _. completes)
            λ refused. let served = law.reads after.state b i.mem_size i.is_signed_load kept in cc)
        λ refused. let served = law.reads m.state a i.mem_size i.is_signed_load ga in cc

  store_pair-Precise :
      (i : Insn) (a b base : ℕ) (m : Machine σ)
      → Granted m.state a (nbytes i.mem_size) perm_write
      → Granted m.state b (nbytes i.mem_size) perm_write
      → Precise before (store_pair mem i a b base m)
  unfolding store_pair storing
  store_pair-Precise i a b base m ga gb =
      let v1 = read_g m.cpu i.rd false i.width in
      let v2 = read_g m.cpu i.rt2 false i.width in
      let after = after_write mem a i.mem_size v1 m in
      let kept = law.keeps_write m.state b (nbytes i.mem_size) perm_write a i.mem_size v1 gb in
      if_both (Precise before) (is_ok (mem.write m.state a i.mem_size v1).0)
        (λ _.
          if_both (Precise before) (is_ok (mem.write after.state b i.mem_size v2).0)
            (λ _. completes)
            λ refused. let served = law.writes after.state b i.mem_size v2 kept in cc)
        λ refused. let served = law.writes m.state a i.mem_size v1 ga in cc

  pub pair-Precise : (i : Insn) (m : Machine σ) → m.cpu ≡ before → Precise before (do_pair mem i m)
  unfolding do_pair
  pair-Precise i m e =
      let a = (resolve_mem_addr m.cpu i).0 in
      let base = (resolve_mem_addr m.cpu i).1 in
      let size = nbytes i.mem_size in
      let b = u64 (a + size) in
      let p = perm_of (op_is_store i.op) in
      let store = store_pair mem i a b base in
      let load = load_pair mem i a b base in
      let next = if op_is_store i.op then store else load in
      let one = after_validate mem a size p m in
      let two = after_validate mem b size p one in
      validated-Precise mem Granted law before a size p (validated mem b size p next) m e λ first.
        validated-Precise mem Granted law before b size p next one e λ second.
          transfer_both-Precise mem Granted law before (op_is_store i.op) store load two a b size
            (law.keeps_validate one.state a size p b size p first) second
            (λ ga gb. store_pair-Precise i a b base two ga gb)
            λ ga gb. load_pair-Precise i a b base two ga gb

  load_exclusive-Precise :
      (i : Insn) (a : ℕ) (m : Machine σ)
      → Granted m.state a (nbytes i.mem_size) perm_read
      → Precise before (load_exclusive mem i a m)
  unfolding load_exclusive loading
  load_exclusive-Precise i a m granted =
      if_both (Precise before) (is_ok (mem.read m.state a i.mem_size false).0.0) (λ _. completes)
        λ refused. let served = law.reads m.state a i.mem_size false granted in cc

  store_exclusive-Precise :
      (i : Insn) (a : ℕ) (m : Machine σ)
      → Granted m.state a (nbytes i.mem_size) perm_write
      → Precise before (store_exclusive mem i a m)
  unfolding store_exclusive storing
  store_exclusive-Precise i a m granted =
      let v = read_g m.cpu i.rd false i.width in
      if_both (Precise before) (holds m.cpu a (nbytes i.mem_size))
        (λ _.
          if_both (Precise before) (is_ok (mem.write m.state a i.mem_size v).0) (λ _. completes)
            λ refused. let served = law.writes m.state a i.mem_size v granted in cc)
        λ _. completes

  either_exclusive-Precise :
      (is_load : Bool) (i : Insn) (a : ℕ) (m : Machine σ)
      → Granted m.state a (nbytes i.mem_size) (if is_load then perm_read else perm_write)
      → Precise before ((if is_load then load_exclusive mem i a else store_exclusive mem i a) m)
  either_exclusive-Precise true i a m granted = load_exclusive-Precise i a m granted
  either_exclusive-Precise false i a m granted = store_exclusive-Precise i a m granted

  pub exclusive-Precise :
      (i : Insn) (m : Machine σ) → m.cpu ≡ before → Precise before (do_exclusive mem i m)
  unfolding do_exclusive
  exclusive-Precise i m e =
      let a = read_g m.cpu i.rn true w64 in
      let size = nbytes i.mem_size in
      let p = if is_ldxr i.op then perm_read else perm_write in
      let load = load_exclusive mem i a in
      let store = store_exclusive mem i a in
      let after = after_validate mem a size p m in
      validated-Precise mem Granted law before a size p (if is_ldxr i.op then load else store) m e
        λ granted. either_exclusive-Precise (is_ldxr i.op) i a after granted
