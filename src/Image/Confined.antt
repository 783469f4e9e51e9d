-- ===== src/Image/Confined.antt =====
-- src/kernel/image.c: the window that a load writes to.
use oemu.Common.{
  ℕ, zero, suc, ◌+◌, ◌-◌, ◌*◌, ◌/◌, ◌%◌, ◌^◌, ◌<◌, ◌≤◌, ◌≡◌, Bank, bit_and, false, not, ◌&&◌, ◌||◌,
  refl, ltb, leb, ◌==◌, ◌!=◌, arith, subst, if_both,
}
use oemu.Common.Bits.Masks.{bit_and_low}
use oemu.Common.Status.{Status, is_ok, dword}
use oemu.Common.Word.{u64, ◌>>>◌}
use oemu.Memory.{disassemble}
use oemu.Exec.Cpu.{Memops}
use oemu.Image.{
  Image, Header, accepted, rejected, Loaded, loaded, failed, img_le32, img_le64, is_branch, is_bti,
  image_magic, image_header_size, parse_header, write_words, write_tail, load_text, when_accepted,
  image_load,
}

-- A load that keeps what holds of the bus, and on OEMU_OK an image at a page of the first 2 MiB.
pub data Confined {σ : Type 0} (Inv : σ → Type 0) (mem_base : ℕ) : Loaded σ → Type 0 where
  done :
      {image : Image} {s : σ}
      → Inv s
      → image.text_offset % 4096 ≡ 0
      → image.text_offset < 2 ^ 21
      → image.load_pa ≡ u64 (mem_base + image.text_offset)
      → image.entry_pa ≡ image.load_pa
      → Confined Inv mem_base (loaded image s)
  stopped :
      {status : Status} {s : σ}
      → is_ok status ≡ false
      → Inv s
      → Confined Inv mem_base (failed status s)

-- A header that is accepted.
data Accepts : Header → Type 0 where
  accepts :
      {image : Image}
      → image.text_offset % 4096 ≡ 0
      → image.text_offset < 2 ^ 21
      → Accepts (accepted image)
  rejects : {status : Status} → is_ok status ≡ false → Accepts (rejected status)

parse_header-Accepts : (head : Bank) → Accepts (parse_header head)
unfolding parse_header
parse_header-Accepts head =
    if_both Accepts
      (not (is_branch (img_le32 head 0))
        && not (is_bti (img_le32 head 0) && is_branch (img_le32 head 4)))
      (λ _. rejects refl)
      λ _.
        if_both Accepts (img_le32 head 0x38 != image_magic) (λ _. rejects refl)
          λ _.
            if_both Accepts (bit_and (img_le64 head 0x18) 1 != 0) (λ _. rejects refl)
              λ _.
                if_both Accepts
                  (bit_and (img_le64 head 0x18 >>> 1) 3 == 2
                    || bit_and (img_le64 head 0x18 >>> 1) 3 == 3)
                  (λ _. rejects refl)
                  λ _.
                    if_both Accepts
                      (bit_and (img_le64 head 0x08) 0xfff != 0 || leb 0x200000 (img_le64 head 0x08))
                      (λ _. rejects refl)
                      λ fits.
                        accepts (ground (arith, fits, bit_and_low 12 (img_le64 head 0x08)))
                          (ground (arith, fits))

module _ {σ : Type 0} (phys : Memops σ) (bytes : Bank) (Inv : σ → Type 0) (mem_base ram_size : ℕ)
    (keeps : (s : σ) (k v : ℕ)
      → k < ram_size
      → Inv s
      → Inv (phys.write s (u64 (mem_base + k)) dword v).1) where
  -- A word of the text lies in the window.
  kept :
      (s : σ) (at off v : ℕ)
      → at + off < ram_size
      → Inv s
      → Inv (phys.write s (u64 (u64 (mem_base + at) + off)) dword v).1
  kept s at off v inside holds =
      subst (λ a. Inv (phys.write s a dword v).1) (omega arith) (keeps s (at + off) v inside holds)

  write_words-Confined :
      (next : ℕ → σ → Loaded σ) (at left off : ℕ) (s : σ)
      → at + off + 8 * left ≤ ram_size
      → ((s' : σ) → Inv s' → Confined Inv mem_base (next (off + 8 * left) s'))
      → Inv s
      → Confined Inv mem_base (write_words phys bytes next at (u64 (mem_base + at)) left off s)
  unfolding write_words
  write_words-Confined next at zero off s inside rest holds =
      subst (λ o. Confined Inv mem_base (next o s)) (omega arith) (rest s holds)
  write_words-Confined next at (suc left) off s inside rest holds =
      if_both (Confined Inv mem_base)
        (is_ok (phys.write s (u64 (u64 (mem_base + at) + off)) dword (img_le64 bytes (at + off))).0)
        (λ _.
          write_words-Confined next at left (off + 8) _ (omega arith)
            (λ s' h. subst (λ o. Confined Inv mem_base (next o s')) (omega arith) (rest s' h))
            (kept s at off (img_le64 bytes (at + off)) (omega arith) holds))
        λ refused. stopped refused (kept s at off (img_le64 bytes (at + off)) (omega arith) holds)

  write_tail-Confined :
      (next : σ → Loaded σ) (at text_len off : ℕ) (s : σ)
      → off ≤ text_len
      → at + text_len ≤ ram_size
      → ((s' : σ) → Inv s' → Confined Inv mem_base (next s'))
      → Inv s
      → Confined Inv mem_base (write_tail phys bytes next at (u64 (mem_base + at)) text_len off s)
  unfolding write_tail
  write_tail-Confined next at text_len off s low inside rest holds =
      let word = disassemble (oemu.Memory.load bytes (at + off) (text_len - off)) in
      if_both (Confined Inv mem_base) (off != text_len)
        (λ more.
          if_both (Confined Inv mem_base)
            (is_ok (phys.write s (u64 (u64 (mem_base + at) + off)) dword word).0)
            (λ _. rest _ (kept s at off word (ground arith) holds))
            λ refused. stopped refused (kept s at off word (ground arith) holds))
        λ _. rest s holds

  load_text-Confined :
      (info : Image) (len : ℕ) (s : σ)
      → len < 2 ^ 64
      → info.text_offset % 4096 ≡ 0
      → info.text_offset < 2 ^ 21
      → Inv s
      → Confined Inv mem_base (load_text phys bytes info len mem_base ram_size s)
  unfolding load_text
  load_text-Confined info len s sized aligned low holds =
      let at = info.text_offset in
      let text_len = len - at in
      let load = u64 (mem_base + at) in
      let end : σ → Loaded σ = loaded (record info { load_pa = load; entry_pa = load }) in
      if_both (Confined Inv mem_base) (leb len at) (λ _. stopped refl holds)
        λ longer.
          if_both (Confined Inv mem_base) (ltb ram_size (u64 (at + text_len)))
            (λ _. stopped refl holds)
            λ fits.
              write_words-Confined (write_tail phys bytes end at load text_len) at (text_len / 8) 0
                s (ground (arith, longer, fits))
                (λ s' h.
                  write_tail-Confined end at text_len (0 + 8 * (text_len / 8)) s' (omega arith)
                    (ground (arith, longer, fits)) (λ s'' h'. done h' aligned low refl refl) h)
                holds

  when_accepted-Confined :
      (header : Header) (len : ℕ) (s : σ)
      → len < 2 ^ 64
      → Accepts header
      → Inv s
      → Confined Inv mem_base (when_accepted phys bytes header len mem_base ram_size s)
  when_accepted-Confined (accepted info) len s sized (accepts aligned low) holds =
      load_text-Confined info len s sized aligned low holds
  when_accepted-Confined (rejected status) len s sized (rejects refused) holds =
      stopped refused holds

  -- A load of a file of less than 2^64 bytes stores double words that start in the RAM window only:
  -- whatever such stores at `mem_base + k`, for k below `ram_size`, keep of the bus, the load keeps,
  -- also where it fails on the way. On OEMU_OK the text offset is a page's, below 2 MiB, and the image is loaded and
  -- entered at that offset from `mem_base`.
  pub image_load-Confined :
      (len : ℕ) (s : σ)
      → len < 2 ^ 64
      → Inv s
      → Confined Inv mem_base (image_load phys bytes len mem_base ram_size s)
  unfolding image_load
  image_load-Confined len s sized holds =
      if_both (Confined Inv mem_base) (ltb len image_header_size) (λ _. stopped refl holds)
        λ _.
          when_accepted-Confined (parse_header bytes) len s sized (parse_header-Accepts bytes) holds
