-- ===== src/Examples/Loading.antt =====
-- The loader of Project 3/userprog/process.c on a small program.
use comp_sys_pint_os.Base.{
  returns, ◌⊎◌, ℕ, ◌+◌, subst, ◌≡◌, ◌↔◌, refl, true, false, [], ◌∷◌, some, Returns, returns, panic,
  arith,
}
use comp_sys_pint_os.Elf.{Ehdr, Phdr, validate_segment, segment_of}
use comp_sys_pint_os.Elf.Validate.{IsWord, IsLoadable, validate_segment_exact}
use comp_sys_pint_os.Elf.Arithmetic.{IsCovering, segment_of-IsCovering}
use comp_sys_pint_os.Loader.{World, LoadState, load, load_segment}
use comp_sys_pint_os.Loader.Pages.{load_segment-add_all, add_all, requests}
use comp_sys_pint_os.Loader.Total.{DeliversWords, StackFails, load_releases, load_without_pagedir}
use comp_sys_pint_os.Examples.Machine.{pc, pc-IsPlatform}

-- Code and data from 0x08048123 on: 5,000 bytes of the file, then zeros.
abbrev text : Phdr
text = record {
  p_type = 1;
  p_offset = 0x123;
  p_vaddr = 0x8048123;
  p_paddr = 0;
  p_filesz = 5000;
  p_memsz = 9000;
  p_flags = 7;
  p_align = 4096;
}

text-IsWord : IsWord text
text-IsWord = record {
  offset_word = omega arith;
  vaddr_word = omega arith;
  filesz_word = omega arith;
  memsz_word = omega arith;
}

text-IsLoadable : IsLoadable pc.phys_base 10000 text
text-IsLoadable = record {
  congruent = refl;
  in_file = omega arith;
  holds_file = omega arith;
  nonempty = omega arith;
  above_zero = omega arith;
  below_base = omega arith;
}

validate_segment_exact_example :
    (validate_segment pc text 10000 ≡ true) ↔ IsLoadable pc.phys_base 10000 text
validate_segment_exact_example =
    validate_segment_exact pc pc-IsPlatform text 10000 text-IsWord (omega arith)

segment_of-IsCovering_example : IsCovering pc.phys_base text (segment_of pc text)
segment_of-IsCovering_example =
    segment_of-IsCovering pc pc-IsPlatform text 10000 text-IsWord text-IsLoadable

abbrev header : Ehdr
header = record {
  e_ident = 0x7f ∷ b'E' ∷ b'L' ∷ b'F' ∷ 1 ∷ 1 ∷ 1 ∷ [];
  e_type = 2;
  e_machine = 3;
  e_version = 1;
  e_entry = 0x8048200;
  e_phoff = 52;
  e_shoff = 0;
  e_flags = 0;
  e_ehsize = 52;
  e_phentsize = 32;
  e_phnum = 1;
  e_shentsize = 0;
  e_shnum = 0;
  e_shstrndx = 0;
}

-- A file with that header and segment; the state is the number of pages that were added.
abbrev disk : World ℕ
disk = record {
  pagedir_create = λ s. (true, s);
  process_activate = λ s. s;
  filesys_open = λ s. (true, s);
  file_deny_write = λ s. s;
  read_ehdr = λ s. (some header, s);
  file_length = λ s. 10000;
  file_seek = λ o s. s;
  read_phdr = λ s. (some text, s);
  add_file_to_page_table = λ r s. (true, s + 1);
  setup_stack = λ s. returns (true, s);
}

-- The same, with no memory for a page directory.
abbrev full_disk : World ℕ
full_disk = record disk { pagedir_create = λ s. (false, s) }

abbrev start : LoadState ℕ
start = record { world = 0; file_lock = false; executable = false; eip = 0 }

some_inj : (p q : Phdr) → some p ≡ some q → p ≡ q
some_inj p q e = cc

disk-DeliversWords : DeliversWords disk
disk-DeliversWords = record {
  words = λ s p e. subst IsWord (some_inj text p e) text-IsWord;
  length_word = λ s. omega arith;
}

full_disk-DeliversWords : DeliversWords full_disk
full_disk-DeliversWords = record {
  words = λ s p e. subst IsWord (some_inj text p e) text-IsWord;
  length_word = λ s. omega arith;
}

load_segment-add_all_example :
    load_segment disk 0 0x8048000 5000 3192 true 0
    ≡ returns (add_all disk (requests 0 0x8048000 5000 true 0 2) 0)
load_segment-add_all_example =
    load_segment-add_all disk 0 0x8048000 5000 3192 2 true 0 refl refl refl (omega arith)
      (omega arith)

load_releases_example :
    Returns (λ q. q.1.file_lock ≡ false) (load disk pc start)
    ⊎ StackFails disk pc pc-IsPlatform disk-DeliversWords (load disk pc start)
load_releases_example = load_releases disk pc pc-IsPlatform disk-DeliversWords start refl refl

load_without_pagedir_example : load full_disk pc start ≡ panic
load_without_pagedir_example =
    load_without_pagedir full_disk pc pc-IsPlatform full_disk-DeliversWords start refl refl
