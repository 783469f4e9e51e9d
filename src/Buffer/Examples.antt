-- ===== src/Buffer/Examples.antt =====
-- A buffer of capacity 16 with two bytes, and a block of zeros that keeps them.
use oemu.Common.{◌+◌, refl, true, some, [], ◌∷◌, arith}
use oemu.Buffer.{Buffer, grow_capacity}
use oemu.Buffer.Growth.{Fits, grow_capacity-Fits}
use oemu.Buffer.Contents.{IsValid, KeepsBytes}
use oemu.Buffer.Append.{AllAppend, append-AllAppend}

abbrev two_bytes : Buffer
two_bytes = record { bytes = λ i. i + 65; has_data = true; len = 2; cap = 2 }

two_bytes-IsValid : IsValid two_bytes
two_bytes-IsValid = record { within = omega arith; word = omega arith }

-- realloc that keeps every byte
moved-KeepsBytes : KeepsBytes two_bytes (some λ i. i + 65)
unfolding KeepsBytes
moved-KeepsBytes i h = refl

grow_capacity-Fits_example : Fits 16 100 (grow_capacity 16 100)
grow_capacity-Fits_example = grow_capacity-Fits 16 100 (omega arith) (omega arith)

append-AllAppend_example : AllAppend two_bytes (67 ∷ 68 ∷ []) (some λ i. i + 65)
append-AllAppend_example =
    append-AllAppend two_bytes (67 ∷ 68 ∷ []) (some λ i. i + 65) (omega arith) two_bytes-IsValid
      moved-KeepsBytes
