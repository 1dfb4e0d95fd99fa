-- ===== src/Elf/Validate.antt =====
-- What `validate_segment` of Project 3/userprog/process.c accepts, stated without machine words.
use comp_sys_pint_os.Base.{ℕ, ◌+◌, ◌%◌, ◌^◌, ◌≤◌, ◌<◌, ◌≡◌, ◌↔◌, true, arith}
use comp_sys_pint_os.Platform.{Platform, IsPlatform, page_size}
use comp_sys_pint_os.Elf.{Phdr, validate_segment}

-- The fields are words.
pub record IsWord (p : Phdr) : Type 0 where
  pub offset_word : p.p_offset < 2 ^ 32
  pub vaddr_word : p.p_vaddr < 2 ^ 32
  pub filesz_word : p.p_filesz < 2 ^ 32
  pub memsz_word : p.p_memsz < 2 ^ 32

-- A segment that may be loaded: it lies, with no wrap-around, above page 0 and below `base`.
pub record IsLoadable (base length : ℕ) (p : Phdr) : Type 0 where
  pub congruent : p.p_offset % page_size ≡ p.p_vaddr % page_size
  pub in_file : p.p_offset ≤ length
  pub holds_file : p.p_filesz ≤ p.p_memsz
  pub nonempty : 0 < p.p_memsz
  pub above_zero : page_size ≤ p.p_vaddr
  pub below_base : p.p_vaddr + p.p_memsz < base

module _ (pf : Platform) (lawful : IsPlatform pf) (p : Phdr) (length : ℕ) (words : IsWord p)
    (length_word : length < 2 ^ 31) where
  pub validate_segment_sound :
      validate_segment pf p length ≡ true → IsLoadable pf.phys_base length p
  unfolding validate_segment
  validate_segment_sound h = ground (
    arith,
    lawful.user p.p_vaddr,
    lawful.user ((p.p_vaddr + p.p_memsz) % 2 ^ 32),
    lawful.base_fits,
    words.vaddr_word,
    words.memsz_word,
  )

  pub validate_segment_complete :
      IsLoadable pf.phys_base length p → validate_segment pf p length ≡ true
  unfolding validate_segment
  validate_segment_complete h = ground (
    arith,
    lawful.user p.p_vaddr,
    lawful.user ((p.p_vaddr + p.p_memsz) % 2 ^ 32),
    lawful.base_fits,
    words.vaddr_word,
    words.memsz_word,
  )

  -- For 32-bit fields, a file length that fits an off_t and a platform as documented:
  -- `validate_segment` accepts exactly the segments whose offset and address agree modulo the page
  -- size, whose offset lies in the file, that are not empty, hold at least their file part, start
  -- above page 0, and end below PHYS_BASE with no wrap-around.
  pub validate_segment_exact :
      (validate_segment pf p length ≡ true) ↔ IsLoadable pf.phys_base length p
  validate_segment_exact = (validate_segment_sound, validate_segment_complete)
