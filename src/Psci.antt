-- ===== src/Psci.antt =====
-- src/fw/psci.c: the firmware calls. The pointers are taken to be there.
pub mod Run
mod Examples
use oemu.Common.{
  ℕ, ◌+◌, ◌-◌, ◌*◌, ◌/◌, ◌%◌, ◌^◌, bit_and, Bool, true, false, not, ◌&&◌, ◌||◌, Option, none, some,
  ◌==◌, ◌!=◌, if◌then◌else◌,
}
use oemu.Common.Word.{◌>>>◌, u64}

-- `oemu_psci`
pub record Psci : Type 0 where
  pub halted : Bool
  pub reset : Bool
  pub calls : ℕ

-- A consumed call: the state and `*ret0`.
pub record Answer : Type 0 where
  pub psci : Psci
  pub ret0 : ℕ

abbrev pub fn_version : ℕ
fn_version = 0x84000000

abbrev pub fn_features : ℕ
fn_features = 0x8400000a

abbrev pub fn_system_off : ℕ
fn_system_off = 0x84000008

abbrev pub fn_system_reset : ℕ
fn_system_reset = 0x84000009

abbrev pub psci_version : ℕ
psci_version = 0x00010001

abbrev pub smccc_version : ℕ
smccc_version = 0x00010000

abbrev pub not_supported : ℕ
not_supported = 2 ^ 64 - 1

-- `oemu_psci_init`
unfoldable pub init : Psci
init = record { halted = false; reset = false; calls = 0 }

unfoldable pub is_psci_class : ℕ → Bool
is_psci_class fnid = let hi = bit_and (fnid >>> 24) 0xff in hi == 0x84 || hi == 0xc4

unfoldable pub is_fast_class : ℕ → Bool
is_fast_class fnid = let hi = bit_and (fnid >>> 24) 0xff in hi == 0x80 || hi == 0xc0

-- The service spaces that are answered here.
unfoldable pub is_ours : ℕ → Bool
unfolding is_psci_class is_fast_class
is_ours fnid =
    let owner = bit_and (fnid >>> 16) 0xff in
    let is_psci = is_psci_class fnid && owner == 0 in
    let is_fast = is_fast_class fnid && owner == 0 in
    let is_std = is_psci_class fnid && owner == 0x47 in
    not (not is_psci && not is_fast && not is_std)

unfoldable pub is_smccc_probe : ℕ → Bool
unfolding is_fast_class
is_smccc_probe fnid =
    (is_fast_class fnid && bit_and (fnid >>> 16) 0xff == 0) && bit_and fnid 0xffff == 0

-- The switch of `oemu_psci_dispatch`.
unfoldable pub answer : Psci → ℕ → Answer
answer psci fnid =
    if fnid == fn_version
    then record { psci = psci; ret0 = psci_version }
    else if fnid == fn_features
    then record { psci = psci; ret0 = 0 }
    else if fnid == fn_system_off
    then record { psci = record psci { halted = true }; ret0 = 0 }
    else if fnid == fn_system_reset
    then record { psci = record psci { reset = true }; ret0 = 0 }
    else record { psci = psci; ret0 = not_supported }

-- `psci->calls++`
unfoldable pub count_call : Answer → Answer
count_call given = record given { psci = record given.psci { calls = u64 (given.psci.calls + 1) } }

-- `oemu_psci_dispatch`; `none` is a call that is left to the guest's own trap path.
unfoldable pub dispatch : Psci → ℕ → Option Answer
unfolding is_ours is_smccc_probe answer count_call
dispatch psci fnid =
    if not (is_ours fnid)
    then none
    else if is_smccc_probe fnid
    then some (count_call (record { psci = psci; ret0 = smccc_version }))
    else some (count_call (answer psci fnid))

-- `psci_halted`, the stop test of the environment.
unfoldable pub is_stopped : Psci → Bool
is_stopped psci = psci.halted || psci.reset
