-- ===== src/Elf/Arithmetic.antt =====
-- The arguments that `load` of Project 3/userprog/process.c hands to `load_segment`.
use comp_sys_pint_os.Base.{ℕ, ◌+◌, ◌-◌, ◌*◌, ◌/◌, ◌%◌, ◌^◌, ◌≤◌, ◌<◌, ◌≡◌, arith}
use comp_sys_pint_os.Platform.{Platform, IsPlatform, page_size}
use comp_sys_pint_os.Elf.{Phdr, Segment, segment_of}
use comp_sys_pint_os.Elf.Validate.{IsWord, IsLoadable}

-- What `load_segment` asserts, and that its pages cover the segment and stay in user memory.
pub record IsCovering (base : ℕ) (p : Phdr) (s : Segment) : Type 0 where
  pub whole_pages : (s.read_bytes + s.zero_bytes) % page_size ≡ 0
  pub page_aligned : s.mem_page % page_size ≡ 0
  pub file_aligned : s.file_page % page_size ≡ 0
  pub starts_below : s.mem_page ≤ p.p_vaddr
  pub ends_above : p.p_vaddr + p.p_memsz ≤ s.mem_page + s.read_bytes + s.zero_bytes
  pub in_user_memory : s.mem_page + s.read_bytes + s.zero_bytes ≤ base
  pub reads_file_part : 0 < p.p_filesz → s.file_page + s.read_bytes ≡ p.p_offset + p.p_filesz
  pub lands_at_vaddr : p.p_offset - s.file_page ≡ p.p_vaddr - s.mem_page

module _ (pf : Platform) (lawful : IsPlatform pf) (p : Phdr) (length : ℕ) where
  -- The end of the segment, counted from its first page and rounded up.
  abbrev top : ℕ
  top = pf.round_up ((p.p_vaddr % page_size + p.p_memsz) % 2 ^ 32)

  record IsTop : Type 0 where
    aligned : top % page_size ≡ 0
    above : p.p_vaddr % page_size + p.p_memsz ≤ top
    inside : p.p_vaddr / page_size * page_size + top ≤ pf.phys_base

  top-IsTop : IsWord p → IsLoadable pf.phys_base length p → IsTop
  top-IsTop words h = record {
    aligned = lawful.round_aligned x fits;
    above = omega (arith, lawful.round_above x fits);
    inside = omega (
      arith,
      lawful.round_aligned x fits,
      lawful.round_near x fits,
      lawful.base_aligned,
      lawful.base_fits,
      h.below_base,
    );
  }
    where
      x : ℕ
      x = (p.p_vaddr % page_size + p.p_memsz) % 2 ^ 32

      fits : x + page_size ≤ 2 ^ 32
      fits = omega (arith, lawful.base_fits, h.below_base)

  -- For 32-bit fields and a segment that `validate_segment` accepts: the three assertions of
  -- `load_segment` hold of the arguments that `load` computes, the pages start at or below the
  -- segment, reach its end, and do not pass PHYS_BASE; where the segment has a file part, the bytes
  -- read end exactly where it ends in the file; and the file page lies as far below the file part
  -- as the memory page lies below the address.
  pub segment_of-IsCovering :
      IsWord p → IsLoadable pf.phys_base length p → IsCovering pf.phys_base p (segment_of pf p)
  unfolding segment_of
  segment_of-IsCovering words h = record {
    whole_pages = ground (arith, t.aligned, t.above, t.inside, lawful.base_fits);
    page_aligned = omega arith;
    file_aligned = omega arith;
    starts_below = omega arith;
    ends_above = ground (arith, t.above, t.inside, lawful.base_fits);
    in_user_memory = ground (arith, t.above, t.inside, lawful.base_fits);
    reads_file_part = λ some_file. ground arith;
    lands_at_vaddr = omega (arith, h.congruent);
  }
    where
      t : IsTop
      t = top-IsTop words h
