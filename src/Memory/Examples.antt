-- ===== src/Memory/Examples.antt =====
-- One owned region of 4096 bytes that may be read and written, at 0x1000.
use oemu.Common.{◌*◌, ◌%◌, ◌^◌, ◌≡◌, refl, true, some, [], ◌∷◌, arith}
use oemu.Common.Status.{ok, half}
use oemu.Memory.{Memory, find_in, find, covers, validate, nbytes}
use oemu.Memory.Table.{AllApart, IsTable, IsValid, MapsKeep, map-IsValid}
use oemu.Memory.Access.{extended, read_back, read_back-extended}

abbrev one_page : Memory
one_page = record {
  regions = record { gva = 0x1000; size = 0x1000; perms = 3; host = 0x500000; owned = true } ∷ [];
  region_capacity = 4;
  heap = λ i. 0;
}

one_page-IsValid : IsValid one_page
unfolding IsTable AllApart
one_page-IsValid = record { table = (omega arith, omega arith, tt, tt); room = omega arith }

one_page_may : validate one_page 0x1ffe (nbytes half) 3 ≡ ok
unfolding validate find find_in covers
one_page_may = refl

map-IsValid_example : MapsKeep one_page 0x3000 0x1000 1 0x600000 (1 ∷ 2 ∷ []) (some 0x700000)
map-IsValid_example =
    map-IsValid one_page 0x3000 0x1000 1 0x600000 (1 ∷ 2 ∷ []) (some 0x700000) (omega arith)
      one_page-IsValid

read_back-extended_example :
    read_back one_page 0x1ffe half 0x18001 true
    ≡ some (extended (nbytes half) true (0x18001 % 2 ^ (8 * nbytes half)))
read_back-extended_example =
    read_back-extended one_page 0x1ffe 0x18001 half true one_page-IsValid (omega arith) one_page_may
