-- ===== src/Loader.antt =====
-- Project 3/userprog/process.c: `load_segment` and `load`.
-- What they call outside the file is an argument: the operations of `World`, over a state `S` of
-- files, page directory and page table. The loops run on fuel.
pub mod Pages
pub mod Total
use comp_sys_pint_os.Base.{
  ℕ, zero, suc, ◌+◌, ◌-◌, ◌*◌, ◌/◌, ◌%◌, ◌^◌, Bool, true, false, ltb, leb, ◌==◌, if◌then◌else◌, not,
  List, [], ◌∷◌, ◌||◌, ◌&&◌, Option, none, some, Outcome, returns, stuck, ◌>>=◌, ◌>>◌, assert,
}
use comp_sys_pint_os.Platform.{Platform, page_size, u32}
use comp_sys_pint_os.Elf.{
  Ehdr, Phdr, Segment, pt_load, pt_dynamic, pt_interp, pt_shlib, validate_segment, segment_of,
}

-- The arguments of one call of `add_file_to_page_table`.
pub record PageRequest : Type 0 where
  pub offset : ℕ
  pub upage : ℕ
  pub page_read_bytes : ℕ
  pub page_zero_bytes : ℕ
  pub writable : Bool

-- The operations that `load` calls. A read is `none` unless it delivers the whole structure.
-- `setup_stack` of the same file may panic the kernel: it allocates a frame, and the eviction of a page
-- of a mapped file takes the lock that `load` holds.
pub record World (S : Type 0) : Type 0 where
  pub pagedir_create : S → Bool × S
  pub process_activate : S → S
  pub filesys_open : S → Bool × S
  pub file_deny_write : S → S
  pub read_ehdr : S → Option Ehdr × S
  pub file_length : S → ℕ
  pub file_seek : ℕ → S → S
  pub read_phdr : S → Option Phdr × S
  pub add_file_to_page_table : PageRequest → S → Bool × S
  pub setup_stack : S → Outcome (Bool × S)

-- What the current thread and the lock of the file system hold while `load` runs.
pub record LoadState (S : Type 0) : Type 0 where
  pub world : S
  pub file_lock : Bool
  pub executable : Bool
  pub eip : ℕ

-- "\177ELF\1\1\1", the bytes that `memcmp` compares.
abbrev pub elf_magic : List ℕ
elf_magic = 0x7f ∷ b'E' ∷ b'L' ∷ b'F' ∷ 1 ∷ 1 ∷ 1 ∷ []

abbrev pub starts_with : List ℕ → List ℕ → Bool
starts_with [] ys = true
starts_with (x ∷ xs) [] = false
starts_with (x ∷ xs) (y ∷ ys) = x == y && starts_with xs ys

-- `sizeof (struct Elf32_Phdr)`
abbrev pub sizeof_phdr : ℕ
sizeof_phdr = 32

-- The header check of `load`.
unfoldable pub valid_ehdr : Ehdr → Bool
valid_ehdr h =
    starts_with elf_magic h.e_ident
    && (h.e_type == 2)
    && (h.e_machine == 3)
    && (h.e_version == 1)
    && (h.e_phentsize == sizeof_phdr)
    && not (ltb 1024 h.e_phnum)

module _ {S : Type 0} (w : World S) where
  -- Continue after a call that returned true; a call that returned false ends the loop.
  unfoldable pub after_add : Bool × S → (S → Option (Bool × S)) → Option (Bool × S)
  after_add (true, s) rest = rest s
  after_add (false, s) rest = some (false, s)

  -- The `while` loop of `load_segment`; `none` if the fuel runs out.
  unfoldable pub fill_pages : ℕ → ℕ → ℕ → ℕ → ℕ → Bool → S → Option (Bool × S)
  unfolding after_add
  fill_pages zero ofs upage read_bytes zero_bytes writable s = none
  fill_pages (suc fuel) ofs upage read_bytes zero_bytes writable s =
      let page_read = if ltb read_bytes page_size then read_bytes else page_size in
      let page_zero = page_size - page_read in
      let request : PageRequest = record {
        offset = ofs;
        upage = upage;
        page_read_bytes = page_read;
        page_zero_bytes = page_zero;
        writable = writable;
      } in
      let round = after_add (w.add_file_to_page_table request s) (
        fill_pages fuel (u32 (ofs + page_read)) (u32 (upage + page_size))
          (u32 (read_bytes + 2 ^ 32 - page_read)) (u32 (zero_bytes + 2 ^ 32 - page_zero))
          writable) in
      if ltb 0 read_bytes || ltb 0 zero_bytes then round else some (true, s)

  -- Enough rounds for every pair of counters whose sum is a whole number of pages.
  abbrev pub segment_fuel : ℕ → ℕ → ℕ
  segment_fuel read_bytes zero_bytes = (read_bytes + zero_bytes) / page_size + 1

  abbrev pub or_stuck : Option (Bool × S) → Outcome (Bool × S)
  or_stuck none = stuck
  or_stuck (some r) = returns r

  unfoldable pub load_segment : ℕ → ℕ → ℕ → ℕ → Bool → S → Outcome (Bool × S)
  unfolding fill_pages
  load_segment ofs upage read_bytes zero_bytes writable s = do
    assert (u32 (read_bytes + zero_bytes) % page_size == 0)
    assert (upage % page_size == 0)
    assert (ofs % page_size == 0)
    or_stuck (
        fill_pages (segment_fuel read_bytes zero_bytes) ofs upage read_bytes zero_bytes writable
          (w.file_seek ofs s))

  -- One program header: the `switch` of `load`. The result is false for `goto done`.
  unfoldable pub load_phdr : Platform → Phdr → LoadState S → Outcome (Bool × LoadState S)
  load_phdr pf p s =
      if p.p_type == pt_dynamic || p.p_type == pt_interp || p.p_type == pt_shlib
      then returns (false, s)
      else if not (p.p_type == pt_load)
      then returns (true, s)
      else if not (validate_segment pf p (w.file_length s.world))
      then returns (false, s)
      else (let g = segment_of pf p in
          load_segment g.file_page g.mem_page g.read_bytes g.zero_bytes g.writable s.world >>= λ r.
          returns (r.0, record s { world = r.1 }))

  -- A program header that may not have been read whole.
  unfoldable pub load_read_phdr :
      Platform → Option Phdr × S → LoadState S → Outcome (Bool × LoadState S)
  unfolding load_phdr
  load_read_phdr pf (none, t) s = returns (false, record s { world = t })
  load_read_phdr pf (some p, t) s = load_phdr pf p (record s { world = t })

  abbrev pub if_loaded :
      Bool × LoadState S
      → (LoadState S → Outcome (Bool × LoadState S))
      → Outcome (Bool × LoadState S)
  if_loaded (true, s) rest = rest s
  if_loaded (false, s) rest = returns (false, s)

  -- The loop over the program headers, on the number that is left; `file_ofs` is the bit pattern of
  -- an off_t, negative from 2 ^ 31 on.
  unfoldable pub load_phdrs : Platform → ℕ → ℕ → LoadState S → Outcome (Bool × LoadState S)
  unfolding load_read_phdr
  load_phdrs pf zero file_ofs s = returns (true, s)
  load_phdrs pf (suc left) file_ofs s =
      let t = w.file_seek file_ofs s.world in
      let round = load_read_phdr pf (w.read_phdr t) (record s { world = t }) >>= λ r.
      if_loaded r (load_phdrs pf left (u32 (file_ofs + sizeof_phdr))) in
      if leb (2 ^ 31) file_ofs || ltb (w.file_length s.world) file_ofs
      then returns (false, s)
      else round

  -- The stack and the start address.
  unfoldable pub load_stack : Ehdr → Bool × S → LoadState S → Outcome (Bool × LoadState S)
  load_stack h (true, t) s = returns (true, record s { world = t; eip = h.e_entry })
  load_stack h (false, t) s = returns (false, record s { world = t })

  unfoldable pub load_ehdr : Platform → Option Ehdr → LoadState S → Outcome (Bool × LoadState S)
  unfolding valid_ehdr load_phdrs load_stack
  load_ehdr pf none s = returns (false, s)
  load_ehdr pf (some h) s =
      if valid_ehdr h
      then (load_phdrs pf h.e_phnum h.e_phoff s >>= λ r.
          if_loaded r (λ t. w.setup_stack t.world >>= λ q. load_stack h q t))
      else returns (false, s)

  -- From `filesys_open` on, with the lock held.
  unfoldable pub load_file : Platform → Bool × S → LoadState S → Outcome (Bool × LoadState S)
  unfolding load_ehdr
  load_file pf (false, t) s = returns (false, record s { world = t })
  load_file pf (true, t) s =
      let (h, u) = w.read_ehdr (w.file_deny_write t) in
      load_ehdr pf h (record s { world = u; executable = true })

  -- The label `done`: `lock_release` asserts that the current thread holds the lock.
  unfoldable pub load_done : Bool × LoadState S → Outcome (Bool × LoadState S)
  load_done (success, s) = do assert s.file_lock; returns (success, record s { file_lock = false })

  unfoldable pub load_mapped : Platform → Bool × S → LoadState S → Outcome (Bool × LoadState S)
  unfolding load_done load_file
  load_mapped pf (false, t) s = load_done (false, record s { world = t })
  load_mapped pf (true, t) s = do
    let u = w.process_activate t
    assert (not s.file_lock)
    r ← load_file pf (w.filesys_open u) (record s { world = u; file_lock = true })
    load_done r

  unfoldable pub load : Platform → LoadState S → Outcome (Bool × LoadState S)
  unfolding load_mapped
  load pf s = load_mapped pf (w.pagedir_create s.world) s
