-- ===== src/Aspace/Examples.antt =====
-- Memory at 0x40000000, and a device that counts its accesses.
use oemu.Common.{ℕ, ◌+◌, ◌≡◌, refl, true, some, [], ◌∷◌, Bank, arith}
use oemu.Common.Status.{ok, word}
use oemu.Aspace.{size_to_bytes, DeviceOps, ram, Aspace, World, attach_device}
use oemu.Aspace.Table.{IsTable, AllApart, IsPlaced, IsValid, MapsKeep, map-MapsKeep}
use oemu.Aspace.Route.{Serves, attach_device-Serves}

abbrev counter : DeviceOps ℕ
counter = record {
  read = λ n offset size. record { status = ok; value = n; state = n + 1 };
  write = λ n offset size v. record { status = ok; value = 0; state = n + v };
}

abbrev one_bank : Aspace ℕ
one_bank = record {
  regions = record { pa = 0x40000000; size = 0x1000; perms = 7; backing = ram 0x500000 true } ∷ [];
  region_capacity = 4;
}

abbrev heap : Bank
heap = λ i. 0

abbrev world : World ℕ
world = record { heap = heap; devices = 5 }

attached : (attach_device one_bank heap 0x9000000 0x1000 counter).status ≡ ok
unfolding attach_device
attached = refl

one_bank-IsValid : IsValid one_bank
unfolding IsTable AllApart IsPlaced
one_bank-IsValid = record {
  table = (record { there = omega arith; fits = omega arith; placed = tt }, (tt, tt));
  room = omega arith;
}

map-MapsKeep_example : MapsKeep one_bank heap 0x9000000 0x1000 3 0x600000 (some 0x700000) counter
map-MapsKeep_example =
    map-MapsKeep one_bank heap 0x9000000 0x1000 3 0x600000 (some 0x700000) counter (omega arith)
      one_bank-IsValid

attach_device-Serves_example : Serves one_bank heap 0x9000000 0x1000 counter world 0x18 word true 7
unfolding attach_device size_to_bytes
attach_device-Serves_example =
    attach_device-Serves one_bank heap 0x9000000 0x1000 counter world 0x18 word true 7 (omega arith)
      refl (omega arith)
