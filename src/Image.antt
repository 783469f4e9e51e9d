-- ===== src/Image.antt =====
-- src/kernel/image.c: the loader of kernel images. The file is an array of `len` bytes.
pub mod Confined
mod Examples
use oemu.Common.{
  ℕ, zero, suc, ◌+◌, ◌-◌, ◌*◌, ◌/◌, ◌^◌, Bank, bit_and, bit_or, Bool, true, false, not, ◌&&◌, ◌||◌,
  ltb, leb, ◌==◌, ◌!=◌, if◌then◌else◌,
}
use oemu.Common.Status.{Status, err_format, err_unsupported, err_range, is_ok, dword}
use oemu.Common.Word.{◌>>>◌, ◌<<<◌, u32, u64}
use oemu.Memory.{disassemble}
use oemu.Exec.Cpu.{Memops}

-- `oemu_image`
pub record Image : Type 0 where
  pub text_offset : ℕ
  pub image_size : ℕ
  pub flags : ℕ
  pub load_pa : ℕ
  pub entry_pa : ℕ

-- What a header parses to.
pub data Header : Type 0 where
  accepted : Image → Header
  rejected : Status → Header

-- What a load leaves in the bus, with the image on OEMU_OK.
pub data Loaded (σ : Type 0) : Type 0 where
  loaded : Image → σ → Loaded σ
  failed : Status → σ → Loaded σ

-- OEMU_IMAGE_HEADER_SIZE, OEMU_IMAGE_MAGIC and the encodings of the first two words
abbrev pub image_header_size : ℕ
image_header_size = 64

abbrev pub image_magic : ℕ
image_magic = 0x644d5241

unfoldable pub img_le32 : Bank → ℕ → ℕ
img_le32 p at =
    bit_or (bit_or (bit_or (p at) (u32 (p (at + 1) <<< 8))) (u32 (p (at + 2) <<< 16)))
      (u32 (p (at + 3) <<< 24))

unfoldable pub img_le64 : Bank → ℕ → ℕ
unfolding img_le32
img_le64 p at = bit_or (img_le32 p at) (u64 (img_le32 p (at + 4) <<< 32))

abbrev pub is_branch : ℕ → Bool
is_branch code = bit_and code 0xfc000000 == 0x14000000

abbrev pub is_bti : ℕ → Bool
is_bti code = bit_and code 0xfffffedf == 0xd503201f

-- `oemu_image_parse_header`, of bytes and a place that are there
unfoldable pub parse_header : Bank → Header
unfolding img_le32 img_le64
parse_header head =
    let code0 = img_le32 head 0 in
    let code1 = img_le32 head 4 in
    let flags = img_le64 head 0x18 in
    let page_size = bit_and (flags >>> 1) 3 in
    let text_offset = img_le64 head 0x08 in
    if not (is_branch code0) && not (is_bti code0 && is_branch code1)
    then rejected err_format
    else if img_le32 head 0x38 != image_magic
    then rejected err_format
    else if bit_and flags 1 != 0
    then rejected err_unsupported
    else if page_size == 2 || page_size == 3
    then rejected err_unsupported
    else if bit_and text_offset 0xfff != 0 || leb 0x200000 text_offset
    then rejected err_format
    else accepted (record {
      text_offset = u32 text_offset;
      image_size = img_le64 head 0x10;
      flags = flags;
      load_pa = 0;
      entry_pa = 0;
    })

module _ {σ : Type 0} (phys : Memops σ) (bytes : Bank) where
  -- The loop over whole words, with `left` to go from the offset `off`.
  unfoldable pub write_words : (ℕ → σ → Loaded σ) → ℕ → ℕ → ℕ → ℕ → σ → Loaded σ
  unfolding img_le64
  write_words next at load zero off s = next off s
  write_words next at load (suc left) off s =
      let w = phys.write s (u64 (load + off)) dword (img_le64 bytes (at + off)) in
      if is_ok w.0 then write_words next at load left (off + 8) w.1 else failed w.0 w.1

  -- The bytes after the last whole word, on a little-endian host.
  unfoldable pub write_tail : (σ → Loaded σ) → ℕ → ℕ → ℕ → ℕ → σ → Loaded σ
  unfolding disassemble oemu.Memory.load
  write_tail next at load text_len off s =
      let word = disassemble (oemu.Memory.load bytes (at + off) (text_len - off)) in
      let w = phys.write s (u64 (load + off)) dword word in
      if off != text_len then (if is_ok w.0 then next w.1 else failed w.0 w.1) else next s

  -- The text of an accepted image.
  unfoldable pub load_text : Image → ℕ → ℕ → ℕ → σ → Loaded σ
  unfolding write_words write_tail
  load_text info len mem_base ram_size s =
      let text_len = len - info.text_offset in
      let load = u64 (mem_base + info.text_offset) in
      if leb len info.text_offset
      then failed err_format s
      else if ltb ram_size (u64 (info.text_offset + text_len))
      then failed err_range s
      else write_words
          (write_tail (loaded (record info { load_pa = load; entry_pa = load })) info.text_offset
            load text_len)
          info.text_offset load (text_len / 8) 0 s

  abbrev pub when_accepted : Header → ℕ → ℕ → ℕ → σ → Loaded σ
  when_accepted (rejected status) len mem_base ram_size s = failed status s
  when_accepted (accepted info) len mem_base ram_size s = load_text info len mem_base ram_size s

  -- `oemu_image_load`, with a place, a file and a bus that are there
  unfoldable pub image_load : ℕ → ℕ → ℕ → σ → Loaded σ
  unfolding parse_header load_text
  image_load len mem_base ram_size s =
      if ltb len image_header_size
      then failed err_format s
      else when_accepted (parse_header bytes) len mem_base ram_size s
