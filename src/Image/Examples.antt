-- ===== src/Image/Examples.antt =====
-- An image of 70 bytes for a bus that remembers the highest address of a store.
use oemu.Common.{ℕ, ◌+◌, ◌<◌, max, Bank, update, ◌≡◌, refl, arith}
use oemu.Common.Status.{ok, err_format, err_fault}
use oemu.Common.Word.{u64}
use oemu.Exec.Cpu.{Memops}
use oemu.Image.{loaded, failed, image_load}
use oemu.Image.Confined.{Confined, image_load-Confined}

-- A branch, then the magic.
abbrev kernel : Bank
kernel =
    update (update (update (update (update (λ i. 0) 3 0x14) 0x38 0x41) 0x39 0x52) 0x3a 0x4d) 0x3b
      0x64

abbrev highest : Memops ℕ
highest = record {
  fetch32 = λ s a. ((err_fault, 0), s);
  read = λ s a size x. ((ok, 0), s);
  write = λ s a size v. (ok, max s a);
  validate = λ s a n p. (ok, s);
}

abbrev Below : ℕ → Type 0
Below s = s < 0x40200000

Below-max : (s k v : ℕ) → k < 0x200000 → Below s → Below (max s (u64 (0x40000000 + k)))
Below-max s k v h below = omega arith

-- The last store is of the six bytes that are left over.
whole_load :
    image_load highest kernel 70 0x40000000 0x200000 0
    ≡ loaded
        (record {
          text_offset = 0;
          image_size = 0;
          flags = 0;
          load_pa = 0x40000000;
          entry_pa = 0x40000000;
        })
        0x40000040
unfolding image_load
whole_load = refl

-- A file that ends in the header is refused before any store.
short_load : image_load highest kernel 63 0x40000000 0x200000 0 ≡ failed err_format 0
unfolding image_load
short_load = refl

image_load-Confined_example :
    Confined Below 0x40000000 (image_load highest kernel 70 0x40000000 0x200000 0)
image_load-Confined_example =
    image_load-Confined highest kernel Below 0x40000000 0x200000 Below-max 70 0 (omega arith)
      (omega arith)
