-- ===== src/Memory/Access.antt =====
-- src/memory/memory.c: what the guest reads after it has written.
use oemu.Common.{
  ℕ, ◌+◌, ◌-◌, ◌*◌, ◌%◌, ◌^◌, ◌≤◌, ◌<◌, bit_and, ◌≡◌, refl, sym, ap, ◌∙◌, Bool, ◌&&◌, Option, none,
  some, Bank, leb, if◌then◌else◌, arith,
}
use native.Mathlib.Nat.{mod-lt, one-le-pow}
use oemu.Common.Bits.{bit_lem}
use oemu.Common.Bits.Masks.{bit_and_absorb, bit_and_flag, bit_or_comm, bit_or_fields, bit_or-zero}
use oemu.Common.Status.{ok, MemSize, byte, half, word, dword, quad}
use oemu.Common.Word.{complement}
use oemu.Memory.{
  Region, Memory, perm_read, perm_write, find, disassemble, assemble, load, store, nbytes, validate,
  extend, read, write,
}
use oemu.Memory.Bytes.{disassemble-assemble, length-assemble, load-store}
use oemu.Memory.Find.{In, Covers, Finds, FindsIn, find-Finds, Covers-unique}
use oemu.Memory.Table.{IsValid}

-- A region that covers the range is the one that the search answers.
pub find_unique :
    (mem : Memory) (r : Region) (gva size perms : ℕ)
    → 0 < size
    → IsValid mem
    → In r mem.regions
    → Covers r gva size perms
    → find mem gva size perms ≡ some r
unfolding Finds FindsIn
find_unique mem r gva size perms there valid i c =
    answered (find mem gva size perms) (find-Finds mem gva size perms there)
  where
    answered : (o : Option Region) → Finds mem gva size perms o → o ≡ some r
    answered none h = absurd (h r i c)
    answered (some q) (j, d) =
        ap some (Covers-unique mem.regions q r gva size perms perms there valid.table j i d c)

-- The two's complement word of the low n bytes of a value, or the bytes alone.
abbrev pub extended : ℕ → Bool → ℕ → ℕ
extended n sign_extend x =
    if sign_extend && leb (2 ^ (8 * n - 1)) x then x + (2 ^ 64 - 2 ^ (8 * n)) else x

pub extend-extended :
    (size : MemSize) (sign_extend : Bool) (x : ℕ)
    → nbytes size ≤ 8
    → x < 2 ^ (8 * nbytes size)
    → extend (nbytes size) sign_extend x ≡ extended (nbytes size) sign_extend x
unfolding extend
extend-extended byte sign_extend x fits small = ground (
  arith,
  bit_and_flag 7 x,
  bit_lem x 7,
  bit_or_comm x (complement 64 (2 ^ 8 - 1)),
  bit_or_fields 8 (2 ^ 56 - 1) x small,
)
extend-extended half sign_extend x fits small = ground (
  arith,
  bit_and_flag 15 x,
  bit_lem x 15,
  bit_or_comm x (complement 64 (2 ^ 16 - 1)),
  bit_or_fields 16 (2 ^ 48 - 1) x small,
)
extend-extended word sign_extend x fits small = ground (
  arith,
  bit_and_flag 31 x,
  bit_lem x 31,
  bit_or_comm x (complement 64 (2 ^ 32 - 1)),
  bit_or_fields 32 (2 ^ 32 - 1) x small,
)
extend-extended dword sign_extend x fits small =
    ground (arith, bit_and_flag 63 x, bit_lem x 63, bit_or-zero x)
extend-extended quad sign_extend x fits small = absurd (omega arith)

grants_less :
    (r : Region) (gva size perms less : ℕ)
    → bit_and perms less ≡ less
    → Covers r gva size perms
    → Covers r gva size less
grants_less r gva size perms less e c = record {
  above = c.above;
  below = c.below;
  grants = sym (bit_and_absorb r.perms perms less e) ∙ ap (λ t. bit_and t less) c.grants ∙ e;
}

-- What a guest sees of its own store: `size` bytes of the value, extended as asked.
unfoldable pub read_back : Memory → ℕ → MemSize → ℕ → Bool → Option ℕ
read_back mem gva size value sign_extend = elim (write mem gva size value) [
  | none ↦ none
  | some after ↦ read after gva size sign_extend
]

nbytes_positive : (size : MemSize) → 0 < nbytes size
nbytes_positive byte = omega arith
nbytes_positive half = omega arith
nbytes_positive word = omega arith
nbytes_positive dword = omega arith
nbytes_positive quad = omega arith

-- The bytes of a value, through host memory.
bytes_back :
    (heap : Bank) (host n value : ℕ)
    → disassemble (load (store heap host (assemble n value)) host n) ≡ value % 2 ^ (8 * n)
bytes_back heap host n value =
    ap (λ t. disassemble (load (store heap host (assemble n value)) host t))
      (sym (length-assemble n value))
    ∙ ap disassemble (load-store heap host (assemble n value))
    ∙ disassemble-assemble n value

read_found :
    (mem : Memory) (gva : ℕ) (size : MemSize) (sign_extend : Bool) (r : Region)
    → find mem gva (nbytes size) perm_read ≡ some r
    → read mem gva size sign_extend
      ≡ some (
          extend
            (nbytes size)
            sign_extend
            (disassemble (load mem.heap (r.host + (gva - r.gva)) (nbytes size))))
unfolding read
read_found mem gva size sign_extend r e = ground (arith, e)

read_back_found :
    (mem : Memory) (gva value : ℕ) (size : MemSize) (sign_extend : Bool) (r : Region)
    → find mem gva (nbytes size) perm_write ≡ some r
    → read_back mem gva size value sign_extend
      ≡ read
          (record mem {
            heap = store mem.heap (r.host + (gva - r.gva)) (assemble (nbytes size) value);
          })
          gva
          size
          sign_extend
unfolding read_back write
read_back_found mem gva value size sign_extend r e = ground (arith, e)

-- The same in the region that both searches answer.
region_back :
    (mem : Memory) (gva value : ℕ) (size : MemSize) (sign_extend : Bool) (r : Region)
    → nbytes size ≤ 8
    → find mem gva (nbytes size) perm_read ≡ some r
    → find mem gva (nbytes size) perm_write ≡ some r
    → read_back mem gva size value sign_extend
      ≡ some (extended (nbytes size) sign_extend (value % 2 ^ (8 * nbytes size)))
unfolding find
region_back mem gva value size sign_extend r fits reads writes =
    after_write
    ∙ after_read
    ∙ ap some (
        ap (extend (nbytes size) sign_extend)
          (bytes_back mem.heap (r.host + (gva - r.gva)) (nbytes size) value)
        ∙ extend-extended size sign_extend (value % 2 ^ (8 * nbytes size)) fits
            (mod-lt value (one-le-pow (8 * nbytes size) 2 (omega arith))))
  where
    stored : Memory
    stored = record mem {
      heap = store mem.heap (r.host + (gva - r.gva)) (assemble (nbytes size) value);
    }

    after_write : read_back mem gva size value sign_extend ≡ read stored gva size sign_extend
    after_write = read_back_found mem gva value size sign_extend r writes

    after_read :
        read stored gva size sign_extend
        ≡ some (
            extend
              (nbytes size)
              sign_extend
              (disassemble (load stored.heap (r.host + (gva - r.gva)) (nbytes size))))
    after_read = read_found stored gva size sign_extend r reads

refused :
    (mem : Memory) (gva size : ℕ) → find mem gva size 3 ≡ none → validate mem gva size 3 ≡ ok → ⊥
unfolding validate
refused mem gva size e may = ground (arith, e, may)

-- The region that the checks of a load and a store agree on.
may_both :
    (mem : Memory) (gva size : ℕ)
    → 0 < size
    → validate mem gva size 3 ≡ ok
    → (r : Region) × In r mem.regions × Covers r gva size 3
unfolding Finds FindsIn
may_both mem gva size there may =
    answered (find mem gva size 3) refl (find-Finds mem gva size 3 there)
  where
    answered :
        (o : Option Region)
        → find mem gva size 3 ≡ o
        → Finds mem gva size 3 o
        → (r : Region) × In r mem.regions × Covers r gva size 3
    answered none e h = absurd (refused mem gva size e may)
    answered (some r) e (i, c) = (r, i, c)

-- In a valid table, a store of up to eight bytes to a range that may be read and written is made,
-- and the load that follows it, at the same address and of the same size, gives the low bytes of
-- the value, zero-extended or, where asked, sign-extended to 64 bits.
pub read_back-extended :
    (mem : Memory) (gva value : ℕ) (size : MemSize) (sign_extend : Bool)
    → IsValid mem
    → nbytes size ≤ 8
    → validate mem gva (nbytes size) 3 ≡ ok
    → read_back mem gva size value sign_extend
      ≡ some (extended (nbytes size) sign_extend (value % 2 ^ (8 * nbytes size)))
read_back-extended mem gva value size sign_extend valid fits may =
    let (r, i, c) = may_both mem gva (nbytes size) (nbytes_positive size) may in
    region_back mem gva value size sign_extend r fits
      (find_unique mem r gva (nbytes size) perm_read (nbytes_positive size) valid i
        (grants_less r gva (nbytes size) 3 perm_read refl c))
      (find_unique mem r gva (nbytes size) perm_write (nbytes_positive size) valid i
        (grants_less r gva (nbytes size) 3 perm_write refl c))
