-- ===== src/Elf.antt =====
-- Project 3/userprog/process.c: the structures and checks of the ELF loader, `validate_segment` and
-- the page arithmetic of `load`. A 32-bit word is a native number, its wrap-around written out.
pub mod Validate
pub mod Arithmetic
use comp_sys_pint_os.Base.{
  ℕ, ◌+◌, ◌-◌, ◌*◌, ◌/◌, ◌%◌, ◌^◌, Bool, true, false, ltb, ◌==◌, if◌then◌else◌, not, List, ◌||◌,
}
use comp_sys_pint_os.Platform.{Platform, page_size, u32}

-- `struct Elf32_Ehdr`; of `e_ident` the sixteen bytes as a list.
pub record Ehdr : Type 0 where
  pub e_ident : List ℕ
  pub e_type : ℕ
  pub e_machine : ℕ
  pub e_version : ℕ
  pub e_entry : ℕ
  pub e_phoff : ℕ
  pub e_shoff : ℕ
  pub e_flags : ℕ
  pub e_ehsize : ℕ
  pub e_phentsize : ℕ
  pub e_phnum : ℕ
  pub e_shentsize : ℕ
  pub e_shnum : ℕ
  pub e_shstrndx : ℕ

-- `struct Elf32_Phdr`
pub record Phdr : Type 0 where
  pub p_type : ℕ
  pub p_offset : ℕ
  pub p_vaddr : ℕ
  pub p_paddr : ℕ
  pub p_filesz : ℕ
  pub p_memsz : ℕ
  pub p_flags : ℕ
  pub p_align : ℕ

-- Values of `p_type`.
abbrev pub pt_load : ℕ
pt_load = 1

abbrev pub pt_dynamic : ℕ
pt_dynamic = 2

abbrev pub pt_interp : ℕ
pt_interp = 3

abbrev pub pt_shlib : ℕ
pt_shlib = 5

-- `validate_segment`; `length` is what `file_length` returns.
unfoldable pub validate_segment : Platform → Phdr → ℕ → Bool
validate_segment pf p length =
    if not (p.p_offset % page_size == p.p_vaddr % page_size)
    then false
    else if ltb (u32 length) p.p_offset
    then false
    else if ltb p.p_memsz p.p_filesz
    then false
    else if p.p_memsz == 0
    then false
    else if not (pf.is_user_vaddr p.p_vaddr)
    then false
    else if not (pf.is_user_vaddr (u32 (p.p_vaddr + p.p_memsz)))
    then false
    else if ltb (u32 (p.p_vaddr + p.p_memsz)) p.p_vaddr
    then false
    else if ltb p.p_vaddr page_size
    then false
    else true

-- The arguments that the PT_LOAD case of `load` computes for `load_segment`.
pub record Segment : Type 0 where
  pub file_page : ℕ
  pub mem_page : ℕ
  pub read_bytes : ℕ
  pub zero_bytes : ℕ
  pub writable : Bool

-- `(p_flags & PF_W) != 0`, with PF_W = 2
abbrev pub has_pf_w : ℕ → Bool
has_pf_w flags = not (flags / 2 % 2 == 0)

-- `x & ~PGMASK` and `x & PGMASK`
abbrev pub page_of : ℕ → ℕ
page_of x = x / page_size * page_size

abbrev pub offset_of : ℕ → ℕ
offset_of x = x % page_size

unfoldable pub segment_of : Platform → Phdr → Segment
segment_of pf p =
    let page_offset = offset_of p.p_vaddr in
    let top = pf.round_up (u32 (page_offset + p.p_memsz)) in
    let read = u32 (page_offset + p.p_filesz) in
    record {
      file_page = page_of p.p_offset;
      mem_page = page_of p.p_vaddr;
      read_bytes = if ltb 0 p.p_filesz then read else 0;
      zero_bytes = if ltb 0 p.p_filesz then u32 (top + 2 ^ 32 - read) else top;
      writable = has_pf_w p.p_flags;
    }
