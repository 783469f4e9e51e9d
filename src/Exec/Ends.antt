-- ===== src/Exec/Ends.antt =====
-- src/exec/exec.c: what holds of the core where an access ends well.
use oemu.Common.{ℕ, ◌+◌, Bool, true, ◌≡◌, refl, if_both}
use oemu.Common.Status.{Status, is_ok, ok, err_fault, MemSize, byte, half, word, dword, quad}
use oemu.Common.Word.{u64}
use oemu.Exec.Cpu.{Cpu, Machine, Memops, Ran, ran, panicked}
use oemu.Exec.Access.{validated, loading, storing, validate_vector, store_vector}

-- What holds of the core after an access that ends well.
unfoldable pub Ends : {σ : Type 0} → (Cpu → Type 0) → Ran σ → Type 0
Ends P (ran status m) = is_ok status ≡ true → P m.cpu
Ends P panicked = Unit

refused-Ends : {σ : Type 0} (P : Cpu → Type 0) (m : Machine σ) → Ends P (ran err_fault m)
unfolding Ends
refused-Ends P m e = absurd (cc)

panicked-Ends : (σ : Type 0) (P : Cpu → Type 0) → Ends {σ = σ} P panicked
unfolding Ends
panicked-Ends σ P = tt

pub done-Ends :
    {σ : Type 0} (P : Cpu → Type 0) (status : Status) (m : Machine σ)
    → P m.cpu
    → Ends P (ran status m)
unfolding Ends
done-Ends P status m h e = h

pub ended : {σ : Type 0} (P : Cpu → Type 0) (m : Machine σ) → Ends P (ran ok m) → P m.cpu
unfolding Ends
ended P m h = h refl

module _ {σ : Type 0} (mem : Memops σ) (P : Cpu → Type 0) where
  pub validated-Ends :
      (a n p : ℕ) (next : Machine σ → Ran σ) (m : Machine σ)
      → ((s : σ) → Ends P (next (record m { state = s })))
      → Ends P (validated mem a n p next m)
  unfolding validated
  validated-Ends a n p next m follows =
      if_both (Ends P) (is_ok (mem.validate m.state a n p).0) (λ _. follows _) λ _. refused-Ends P _

  pub loading-Ends :
      (a : ℕ) (size : MemSize) (x : Bool) (next : ℕ → Machine σ → Ran σ) (m : Machine σ)
      → ((v : ℕ) (s : σ) → Ends P (next v (record m { state = s })))
      → Ends P (loading mem a size x next m)
  unfolding loading
  loading-Ends a size x next m follows =
      if_both (Ends P) (is_ok (mem.read m.state a size x).0.0) (λ _. follows _ _)
        λ _. panicked-Ends _ P

  pub storing-Ends :
      (a : ℕ) (size : MemSize) (v : ℕ) (next : Machine σ → Ran σ) (m : Machine σ)
      → ((s : σ) → Ends P (next (record m { state = s })))
      → Ends P (storing mem a size v next m)
  unfolding storing
  storing-Ends a size v next m follows =
      if_both (Ends P) (is_ok (mem.write m.state a size v).0) (λ _. follows _)
        λ _. panicked-Ends _ P

  pub validate_vector-Ends :
      (size : MemSize) (a p : ℕ) (next : Machine σ → Ran σ) (m : Machine σ)
      → ((s : σ) → Ends P (next (record m { state = s })))
      → Ends P (validate_vector mem size a p next m)
  unfolding validate_vector
  validate_vector-Ends quad a p next m follows =
      validated-Ends a 8 p (validated mem (u64 (a + 8)) 8 p next) m
        λ s. validated-Ends (u64 (a + 8)) 8 p next (record m { state = s }) follows
  validate_vector-Ends dword a p next m follows = validated-Ends a 8 p next m follows
  validate_vector-Ends word a p next m follows = validated-Ends a 4 p next m follows
  validate_vector-Ends half a p next m follows = validated-Ends a 2 p next m follows
  validate_vector-Ends byte a p next m follows = validated-Ends a 1 p next m follows

  pub store_vector-Ends :
      (size : MemSize) (a n : ℕ) (next : Machine σ → Ran σ) (m : Machine σ)
      → ((s : σ) → Ends P (next (record m { state = s })))
      → Ends P (store_vector mem size a n next m)
  unfolding store_vector
  store_vector-Ends quad a n next m follows =
      storing-Ends a dword (m.cpu.lo n) (storing mem (u64 (a + 8)) dword (m.cpu.hi n) next) m
        λ s. storing-Ends (u64 (a + 8)) dword (m.cpu.hi n) next (record m { state = s }) follows
  store_vector-Ends dword a n next m follows = storing-Ends a dword (m.cpu.lo n) next m follows
  store_vector-Ends word a n next m follows = storing-Ends a word (m.cpu.lo n) next m follows
  store_vector-Ends half a n next m follows = storing-Ends a half (m.cpu.lo n) next m follows
  store_vector-Ends byte a n next m follows = storing-Ends a byte (m.cpu.lo n) next m follows
