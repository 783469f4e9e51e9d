-- ===== src/Exec/Precise/Vector.antt =====
-- src/exec/exec.c: faults of the accesses of the vector registers.
use oemu.Common.{ℕ, ◌+◌, ◌*◌, Bool, true, false, ◌≡◌, if◌then◌else◌}
use oemu.Common.Status.{MemSize, byte, half, word, dword, quad}
use oemu.Common.Word.{u64}
use oemu.Memory.{nbytes, perm_read, perm_write}
use oemu.Decode.{Insn}
use oemu.Exec.Cpu.{Cpu, Machine, Memops, Ran, note_store, set_vector}
use oemu.Exec.Access.{
  validated, loading, storing, completed, validate_vector, store_vector, load_vector,
  do_pair_vector, do_single_vector, perm_of, op_is_store, resolve_mem_addr, write_back,
}
use oemu.Exec.Precise.{
  IsLawful, Precise, completes, after_validate, after_read, after_write, validated-Precise,
  loading-Precise, storing-Precise,
}

module _ {σ : Type 0} (mem : Memops σ) (Granted : σ → ℕ → ℕ → ℕ → Type 0)
    (law : IsLawful mem Granted) (before : Cpu) where
  -- The grants of a vector register's pieces.
  abbrev GrantedVector : σ → ℕ → MemSize → ℕ → Type 0
  GrantedVector s a quad p = Granted s a 8 p × Granted s (u64 (a + 8)) 8 p
  GrantedVector s a size p = Granted s a (nbytes size) p

  -- What every use of the bus keeps.
  record IsKept (Q : σ → Type 0) : Type 0 where
    by_validate : (s : σ) (b k q : ℕ) → Q s → Q (mem.validate s b k q).1
    by_read : (s : σ) (b : ℕ) (size : MemSize) (x : Bool) → Q s → Q (mem.read s b size x).1
    by_write : (s : σ) (b : ℕ) (size : MemSize) (v : ℕ) → Q s → Q (mem.write s b size v).1

  Granted-IsKept : (a n p : ℕ) → IsKept (λ s. Granted s a n p)
  Granted-IsKept a n p = record {
    by_validate = λ s. law.keeps_validate s a n p;
    by_read = λ s. law.keeps_read s a n p;
    by_write = λ s. law.keeps_write s a n p;
  }

  both-IsKept : (Q R : σ → Type 0) → IsKept Q → IsKept R → IsKept (λ s. Q s × R s)
  both-IsKept Q R hq hr = record {
    by_validate = λ s b k q (f, g). (hq.by_validate s b k q f, hr.by_validate s b k q g);
    by_read = λ s b size x (f, g). (hq.by_read s b size x f, hr.by_read s b size x g);
    by_write = λ s b size v (f, g). (hq.by_write s b size v f, hr.by_write s b size v g);
  }

  GrantedVector-IsKept : (a : ℕ) (size : MemSize) (p : ℕ) → IsKept (λ s. GrantedVector s a size p)
  GrantedVector-IsKept a quad p =
      both-IsKept _ _ (Granted-IsKept a 8 p) (Granted-IsKept (u64 (a + 8)) 8 p)
  GrantedVector-IsKept a dword p = Granted-IsKept a 8 p
  GrantedVector-IsKept a word p = Granted-IsKept a 4 p
  GrantedVector-IsKept a half p = Granted-IsKept a 2 p
  GrantedVector-IsKept a byte p = Granted-IsKept a 1 p

  module _ (Q : σ → Type 0) (kept : IsKept Q) where
    validate_vector-Precise :
        (size : MemSize) (a p : ℕ) (next : Machine σ → Ran σ) (m : Machine σ)
        → m.cpu ≡ before
        → Q m.state
        → ((m' : Machine σ)
            → m'.cpu ≡ before
            → Q m'.state
            → GrantedVector m'.state a size p
            → Precise before (next m'))
        → Precise before (validate_vector mem size a p next m)
    unfolding validate_vector
    validate_vector-Precise quad a p next m e q follows =
        let one = after_validate mem a 8 p m in
        let b = u64 (a + 8) in
        validated-Precise mem Granted law before a 8 p (validated mem b 8 p next) m e λ first.
          validated-Precise mem Granted law before b 8 p next one e λ second.
            follows (after_validate mem b 8 p one) e
              (kept.by_validate one.state b 8 p (kept.by_validate m.state a 8 p q))
              (law.keeps_validate one.state a 8 p b 8 p first, second)
    validate_vector-Precise dword a p next m e q follows =
        validated-Precise mem Granted law before a 8 p next m e
          λ g. follows (after_validate mem a 8 p m) e (kept.by_validate m.state a 8 p q) g
    validate_vector-Precise word a p next m e q follows =
        validated-Precise mem Granted law before a 4 p next m e
          λ g. follows (after_validate mem a 4 p m) e (kept.by_validate m.state a 4 p q) g
    validate_vector-Precise half a p next m e q follows =
        validated-Precise mem Granted law before a 2 p next m e
          λ g. follows (after_validate mem a 2 p m) e (kept.by_validate m.state a 2 p q) g
    validate_vector-Precise byte a p next m e q follows =
        validated-Precise mem Granted law before a 1 p next m e
          λ g. follows (after_validate mem a 1 p m) e (kept.by_validate m.state a 1 p q) g

    one_store-Precise :
        (size : MemSize) (a n : ℕ) (next : Machine σ → Ran σ) (m : Machine σ)
        → Q m.state
        → Granted m.state a (nbytes size) perm_write
        → ((m' : Machine σ) → Q m'.state → Precise before (next m'))
        → Precise before (storing mem a size (m.cpu.lo n) next m)
    one_store-Precise size a n next m q g follows =
        storing-Precise mem Granted law before a size (m.cpu.lo n) next m g (
          follows (after_write mem a size (m.cpu.lo n) m)
            (kept.by_write m.state a size (m.cpu.lo n) q))

    store_vector-Precise :
        (size : MemSize) (a n : ℕ) (next : Machine σ → Ran σ) (m : Machine σ)
        → Q m.state
        → GrantedVector m.state a size perm_write
        → ((m' : Machine σ) → Q m'.state → Precise before (next m'))
        → Precise before (store_vector mem size a n next m)
    unfolding store_vector
    store_vector-Precise quad a n next m q (g, h) follows =
        let b = u64 (a + 8) in
        let v = m.cpu.lo n in
        let w = m.cpu.hi n in
        let one = after_write mem a dword v m in
        storing-Precise mem Granted law before a dword v (storing mem b dword w next) m g (
          storing-Precise mem Granted law before b dword w next one
            (law.keeps_write m.state b 8 perm_write a dword v h)
            (follows (after_write mem b dword w one)
              (kept.by_write one.state b dword w (kept.by_write m.state a dword v q))))
    store_vector-Precise dword a n next m q g follows =
        one_store-Precise dword a n next m q g follows
    store_vector-Precise word a n next m q g follows = one_store-Precise word a n next m q g follows
    store_vector-Precise half a n next m q g follows = one_store-Precise half a n next m q g follows
    store_vector-Precise byte a n next m q g follows = one_store-Precise byte a n next m q g follows

    -- A register after its load in one piece.
    abbrev loaded : ℕ → (Machine σ → Ran σ) → ℕ → Machine σ → Ran σ
    loaded n next low m = next (record m { cpu = set_vector m.cpu n low 0 })

    -- A register after its load in two pieces.
    abbrev loaded_both : ℕ → (Machine σ → Ran σ) → ℕ → ℕ → Machine σ → Ran σ
    loaded_both n next low high m = next (record m { cpu = set_vector m.cpu n low high })

    one_load-Precise :
        (size : MemSize) (a n : ℕ) (next : Machine σ → Ran σ) (m : Machine σ)
        → Q m.state
        → Granted m.state a (nbytes size) perm_read
        → ((m' : Machine σ) → Q m'.state → Precise before (next m'))
        → Precise before (loading mem a size false (loaded n next) m)
    one_load-Precise size a n next m q g follows =
        loading-Precise mem Granted law before a size false (loaded n next) m g (
          follows
            (record (after_read mem a size false m) {
              cpu = set_vector m.cpu n (mem.read m.state a size false).0.1 0;
            })
            (kept.by_read m.state a size false q))

    load_vector-Precise :
        (size : MemSize) (a n : ℕ) (next : Machine σ → Ran σ) (m : Machine σ)
        → Q m.state
        → GrantedVector m.state a size perm_read
        → ((m' : Machine σ) → Q m'.state → Precise before (next m'))
        → Precise before (load_vector mem size a n next m)
    unfolding load_vector
    load_vector-Precise quad a n next m q (g, h) follows =
        let b = u64 (a + 8) in
        let low = (mem.read m.state a dword false).0.1 in
        let one = after_read mem a dword false m in
        let high = (mem.read one.state b dword false).0.1 in
        loading-Precise mem Granted law before a dword false
          (λ low'. loading mem b dword false (loaded_both n next low')) m g
          (loading-Precise mem Granted law before b dword false (loaded_both n next low) one
            (law.keeps_read m.state b 8 perm_read a dword false h)
            (follows
              (record (after_read mem b dword false one) { cpu = set_vector m.cpu n low high })
              (kept.by_read one.state b dword false (kept.by_read m.state a dword false q))))
    load_vector-Precise dword a n next m q g follows = one_load-Precise dword a n next m q g follows
    load_vector-Precise word a n next m q g follows = one_load-Precise word a n next m q g follows
    load_vector-Precise half a n next m q g follows = one_load-Precise half a n next m q g follows
    load_vector-Precise byte a n next m q g follows = one_load-Precise byte a n next m q g follows

  unit-IsKept : IsKept (λ s. Unit)
  unit-IsKept = record {
    by_validate = λ s b k q u. u;
    by_read = λ s b size x u. u;
    by_write = λ s b size v u. u;
  }

  transfer_single-Precise :
      (is_store : Bool) (a n : ℕ) (change : Cpu → Cpu) (m : Machine σ)
      → GrantedVector m.state a quad (perm_of is_store)
      → Precise before (
          (if is_store
              then store_vector mem quad a n (completed mem change)
              else load_vector mem quad a n (completed mem change))
            m)
  transfer_single-Precise true a n change m granted =
      store_vector-Precise (λ s. Unit) unit-IsKept quad a n (completed mem change) m tt granted
        λ m' u. completes
  transfer_single-Precise false a n change m granted =
      load_vector-Precise (λ s. Unit) unit-IsKept quad a n (completed mem change) m tt granted
        λ m' u. completes

  pub single_vector-Precise :
      (i : Insn) (m : Machine σ) → m.cpu ≡ before → Precise before (do_single_vector mem i m)
  unfolding do_single_vector
  single_vector-Precise i m e =
      let a = (resolve_mem_addr m.cpu i).0 in
      let base = (resolve_mem_addr m.cpu i).1 in
      let change = write_back i base in
      let next =
        if op_is_store i.op
        then store_vector mem quad a i.rd (completed mem change)
        else load_vector mem quad a i.rd (completed mem change) in
      validate_vector-Precise (λ s. Unit) unit-IsKept quad a (perm_of (op_is_store i.op)) next m e
        tt λ m' e' u granted. transfer_single-Precise (op_is_store i.op) a i.rd change m' granted

  transfer_pair-Precise :
      (is_store : Bool) (size : MemSize) (a b n k : ℕ) (change : Cpu → Cpu) (m : Machine σ)
      → GrantedVector m.state a size (perm_of is_store)
      → GrantedVector m.state b size (perm_of is_store)
      → Precise before (
          (if is_store
              then store_vector mem size a n (store_vector mem size b k (completed mem change))
              else load_vector mem size a n (load_vector mem size b k (completed mem change)))
            m)
  transfer_pair-Precise true size a b n k change m ga gb =
      store_vector-Precise (λ s. GrantedVector s b size perm_write)
        (GrantedVector-IsKept b size perm_write) size a n
        (store_vector mem size b k (completed mem change)) m gb ga
        λ m' g.
          store_vector-Precise (λ s. Unit) unit-IsKept size b k (completed mem change) m' tt g
            λ m'' u. completes
  transfer_pair-Precise false size a b n k change m ga gb =
      load_vector-Precise (λ s. GrantedVector s b size perm_read)
        (GrantedVector-IsKept b size perm_read) size a n
        (load_vector mem size b k (completed mem change)) m gb ga
        λ m' g.
          load_vector-Precise (λ s. Unit) unit-IsKept size b k (completed mem change) m' tt g
            λ m'' u. completes

  pub pair_vector-Precise :
      (i : Insn) (m : Machine σ) → m.cpu ≡ before → Precise before (do_pair_vector mem i m)
  unfolding do_pair_vector
  pair_vector-Precise i m e =
      let a = (resolve_mem_addr m.cpu i).0 in
      let base = (resolve_mem_addr m.cpu i).1 in
      let size = i.mem_size in
      let b = u64 (a + nbytes size) in
      let p = perm_of (op_is_store i.op) in
      let change : Cpu → Cpu = λ cpu.
        write_back i base (if op_is_store i.op then note_store cpu a (nbytes size * 2) else cpu) in
      let last = completed mem change in
      let next =
        if op_is_store i.op
        then store_vector mem size a i.rd (store_vector mem size b i.rt2 last)
        else load_vector mem size a i.rd (load_vector mem size b i.rt2 last) in
      validate_vector-Precise (λ s. Unit) unit-IsKept size a p (validate_vector mem size b p next) m
        e tt
        λ m' e' u ga.
          validate_vector-Precise (λ s. GrantedVector s a size p) (GrantedVector-IsKept a size p)
            size b p next m' e' ga
            λ m'' e'' ga' gb.
              transfer_pair-Precise (op_is_store i.op) size a b i.rd i.rt2 change m'' ga' gb
