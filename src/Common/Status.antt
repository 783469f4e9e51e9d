-- ===== src/Common/Status.antt =====
-- The results of include/oemu/status.h and the access sizes of include/oemu/decode.h.
use mathlib.Core.Bool.{Bool, true, false}

-- `oemu_status`, in the order of its numbers.
pub data Status : Type 0 where
  ok err_invalid_arg err_no_memory err_overflow err_range err_decode err_unsupported : Status
  err_fault err_timeout err_blocked err_state err_format err_not_found err_full : Status

-- `st == OEMU_OK`
abbrev pub is_ok : Status → Bool
is_ok ok = true
is_ok err_invalid_arg = false
is_ok err_no_memory = false
is_ok err_overflow = false
is_ok err_range = false
is_ok err_decode = false
is_ok err_unsupported = false
is_ok err_fault = false
is_ok err_timeout = false
is_ok err_blocked = false
is_ok err_state = false
is_ok err_format = false
is_ok err_not_found = false
is_ok err_full = false

-- `oemu_mem_size`
pub data MemSize : Type 0 where
  byte half word dword quad : MemSize
