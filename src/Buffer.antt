-- ===== src/Buffer.antt =====
-- src/buffer/buffer.c: the growable byte buffer. A buffer and its block are taken to be there; the
-- answers of the allocator and the text that vsnprintf renders are arguments.
pub mod Growth
pub mod Contents
pub mod Append
mod Examples
use oemu.Common.{
  ℕ, zero, suc, ◌+◌, ◌-◌, ◌*◌, ◌/◌, ◌%◌, ◌^◌, Bool, true, false, not, ◌&&◌, ◌||◌, Option, none,
  some, List, [], ◌∷◌, ◌++◌, length, Bank, update, ltb, leb, ◌==◌, ◌!=◌, if◌then◌else◌,
}
use oemu.Common.Status.{Status, is_ok, ok, err_invalid_arg, err_overflow, err_no_memory}
use oemu.Memory.{store}

-- `oemu_buffer`, with the bytes of its block
pub record Buffer : Type 0 where
  pub bytes : Bank
  pub has_data : Bool
  pub len : ℕ
  pub cap : ℕ

-- A status with the buffer that it leaves.
pub record Outcome : Type 0 where
  pub status : Status
  pub buffer : Buffer

abbrev pub size_max : ℕ
size_max = 2 ^ 64 - 1

abbrev pub min_cap : ℕ
min_cap = 16

-- `oemu_buffer_internal_checked_add`
unfoldable pub checked_add : ℕ → ℕ → Option ℕ
checked_add a b = if ltb (size_max - b) a then none else some (a + b)

-- The loop of `oemu_buffer_internal_grow_capacity`; every round adds to `cap`, so that `required`
-- rounds are enough.
unfoldable pub grow_loop : ℕ → ℕ → ℕ → ℕ
grow_loop zero cap required = cap
grow_loop (suc fuel) cap required =
    let half = cap / 2 in
    let next = cap + half in
    let rest = grow_loop fuel next required in
    if not (ltb cap required)
    then cap
    else if ltb (size_max - half) cap
    then required
    else if leb next cap
    then required
    else rest

unfoldable pub grow_capacity : ℕ → ℕ → ℕ
unfolding grow_loop
grow_capacity current_cap required =
    if leb required current_cap
    then current_cap
    else grow_loop required (if ltb current_cap min_cap then min_cap else current_cap) required

-- The end of `buffer_grow`, with what realloc answers.
unfoldable pub regrow : Buffer → ℕ → Option Bank → Outcome
unfolding grow_capacity
regrow buf required none = record { status = err_no_memory; buffer = buf }
regrow buf required (some moved) = record {
  status = ok;
  buffer = record buf { bytes = moved; has_data = true; cap = grow_capacity buf.cap required };
}

-- The rest of `buffer_grow`, after the checked addition.
unfoldable pub grow_to : Buffer → Option Bank → Option ℕ → Outcome
unfolding regrow
grow_to buf block none = record { status = err_overflow; buffer = buf }
grow_to buf block (some required) =
    if leb required buf.cap then record { status = ok; buffer = buf } else regrow buf required block

-- `buffer_grow`
unfoldable pub grow : Buffer → ℕ → Option Bank → Outcome
unfolding checked_add grow_to
grow buf additional block = grow_to buf block (checked_add buf.len additional)

-- `oemu_buffer_init`, with what the allocator answers
unfoldable pub init : ℕ → Bank → Option Bank → Outcome
init initial_cap garbage block =
    let empty : Buffer = record { bytes = garbage; has_data = false; len = 0; cap = 0 } in
    if initial_cap == 0 then record { status = ok; buffer = empty } else elim block [
      | none ↦ record { status = err_no_memory; buffer = empty }
      | some moved ↦ record {
        status = ok;
        buffer = record { bytes = moved; has_data = true; len = 0; cap = initial_cap };
      }
    ]

unfoldable pub dispose : Buffer → Buffer
dispose buf = record buf { has_data = false; len = 0; cap = 0 }

unfoldable pub clear : Buffer → Buffer
clear buf = record buf { len = 0 }

unfoldable pub reserve : Buffer → ℕ → Option Bank → Outcome
unfolding grow
reserve buf additional block = grow buf additional block

-- `memcpy(buf->data + buf->len, bytes, size)` with a terminator or without, and the new length
unfoldable pub put : Buffer → List ℕ → ℕ → Buffer
unfolding store
put buf written added = record buf {
  bytes = store buf.bytes buf.len written;
  len = buf.len + added;
}

-- What follows a growth that succeeded.
unfoldable pub when_grown : Outcome → (Buffer → Buffer) → Outcome
when_grown grown next =
    if is_ok grown.status then record { status = ok; buffer = next grown.buffer } else grown

-- `oemu_buffer_append`, from bytes that are there; `oemu_buffer_append_str` passes the bytes
-- before the terminator.
unfoldable pub append : Buffer → List ℕ → Option Bank → Outcome
unfolding grow put when_grown
append buf src block =
    if length src == 0
    then record { status = ok; buffer = buf }
    else when_grown (grow buf (length src) block) λ grown. put grown src (length src)

-- The rest of `oemu_buffer_appendf`, after its checked addition: the terminator is written and
-- not counted.
unfoldable pub appendf_to : Buffer → List ℕ → Option Bank → Option ℕ → Outcome
unfolding grow put when_grown
appendf_to buf text block none = record { status = err_overflow; buffer = buf }
appendf_to buf text block (some with_nul) =
    when_grown (grow buf with_nul block) λ grown. put grown (text ++ (0 ∷ [])) (length text)

-- `oemu_buffer_appendf`, with the text that vsnprintf renders in both passes; `none` is a rendering
-- that fails.
unfoldable pub appendf : Buffer → Option (List ℕ) → Option Bank → Outcome
unfolding appendf_to checked_add
appendf buf none block = record { status = err_invalid_arg; buffer = buf }
appendf buf (some text) block =
    if length text == 0
    then record { status = ok; buffer = buf }
    else appendf_to buf text block (checked_add (length text) 1)

-- `oemu_buffer_cstr`; a status other than OK is the answer NULL.
unfoldable pub cstr : Buffer → Option Bank → Outcome
unfolding grow put when_grown
cstr buf block = when_grown (grow buf 1 block) λ grown. put grown (0 ∷ []) 0
