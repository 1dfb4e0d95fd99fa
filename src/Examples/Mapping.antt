-- ===== src/Examples/Mapping.antt =====
-- A mapping of a file of 5000 bytes at 0x10000000, beside one of the page 0x20000000.
use comp_sys_pint_os.Base.{
  List, Option, ℕ, ◌+◌, ◌*◌, ◌-◌, ◌<◌, ◌≡◌, ◌≢◌, refl, true, false, if◌then◌else◌, ◌==◌, [], ◌∷◌,
  none, some, min, Returns, returns, arith,
}
use comp_sys_pint_os.Platform.{page_size}
use comp_sys_pint_os.Vm.{Kernel}
use comp_sys_pint_os.Mmap.{MapFiles, Maps, mmap_entry, process_get_file, munmap, mmap}
use comp_sys_pint_os.Mmap.Removal.{covers, others, Unlocked, SamePages, munmap-removes}
use comp_sys_pint_os.Mmap.Adding.{Allocates}
use comp_sys_pint_os.Mmap.Atomic.{IsValid, AllOrNothing, mmap-AllOrNothing}
use comp_sys_pint_os.Mmap.Pages.{MapsPage}
use comp_sys_pint_os.Mmap.Mapping.{mmap-maps}
use comp_sys_pint_os.Exit.{ExitCalls}
use comp_sys_pint_os.Examples.Machine.{pc}

-- The blocks below the state are in use.
abbrev heap : Kernel ℕ
heap = record {
  malloc = λ w. (some w, w + 1);
  free = λ p w. w;
  palloc_get_page = λ flags w. (none, w);
  palloc_free_page = λ p w. w;
  pagedir_get_page = λ w t v. if v == 0x20000000 then some 0xc0400000 else none;
  pagedir_set_page = λ t v p b w. (true, w);
  pagedir_clear_page = λ t v w. w;
  pagedir_is_accessed = λ w t v. true;
  pagedir_set_accessed = λ t v b w. w;
  pagedir_is_dirty = λ w t v. true;
  file_read_at = λ f buffer size offset w. (size, w);
  file_write_at = λ f buffer size offset w. w;
  clear_bytes = λ a n w. w;
  swap_in = λ i a w. returns w;
  swap_out = λ frame w. returns (5, w);
}

abbrev InUse : ℕ → ℕ → Type 0
InUse w p = p < w

heap-Allocates : Allocates heap InUse
heap-Allocates = record {
  fresh = λ w v p q e u. ground arith;
  taken = λ w v p e. ground arith;
  kept = λ w v o q e u. ground arith;
}

-- Opening a file again gives the next number.
abbrev disk : MapFiles ℕ
disk = record {
  file_reopen = λ f w. (some (f + 1), w);
  file_length = λ w f. 5000;
  file_close = λ f w. w;
}

-- One mapping, whose page is loaded and dirty.
abbrev one_mapping : Maps ℕ
one_mapping = record {
  vm = record {
    frame_tbl_list = record { elem = 3; frame = 0xc0400000; thread = 1; spte = 7 } ∷ [];
    frame_tbl_lock = false;
    file_lock = false;
    spte_at = λ p. record (mmap_entry 20 0 0x20000000 4096 0 0) { is_loaded = true };
    spt = λ va. if va == 0x20000000 then some 7 else none;
    thread_current = 1;
    world = 10;
  };
  mapid = 1;
  mmap_list = record { elem = 8; spte = 7; mapid = 1 } ∷ [];
  fd = 3;
  file_list = record { elem = 9; file = 30; fd = 2 } ∷ [];
}

one_mapping-IsValid : IsValid heap disk InUse one_mapping
one_mapping-IsValid = record {
  unlocked = (refl, refl);
  numbered = (omega arith, tt);
  counter = omega arith;
  fresh = (omega arith, tt);
}

munmap-removes_example :
    Returns
      (λ t.
        Unlocked heap disk t.vm
        × (t.mmap_list ≡ others 1 one_mapping.mmap_list)
        × ((va : ℕ)
            → t.vm.spt va ≡ (
                if covers one_mapping.vm.spte_at 1 one_mapping.mmap_list va
                then none
                else one_mapping.vm.spt va))
        × SamePages one_mapping.vm.spte_at t.vm.spte_at
        × (t.mapid ≡ 1)
        × (t.file_list ≡ one_mapping.file_list))
      (munmap heap disk 1 one_mapping)
munmap-removes_example = munmap-removes heap disk 1 one_mapping (refl, refl)

mmap-AllOrNothing_example :
    Returns (AllOrNothing heap disk InUse one_mapping) (mmap heap disk pc 2 0x10000000 one_mapping)
mmap-AllOrNothing_example =
    mmap-AllOrNothing heap disk InUse heap-Allocates one_mapping pc 2 0x10000000 one_mapping-IsValid
      (λ f w q u. u)

mmap-maps_example :
    Returns
      (λ r.
        (r.0 ≡ 2)
        × ((j : ℕ)
            → page_size * j < 5000
            → MapsPage heap disk InUse 31
                (page_size * j)
                (0x10000000 + page_size * j)
                (min (5000 - page_size * j) page_size)
                r.1)
        × ((va : ℕ)
            → ((j : ℕ) → page_size * j < 5000 → 0x10000000 + page_size * j ≢ va)
            → r.1.vm.spt va ≡ one_mapping.vm.spt va))
      (mmap heap disk pc 2 0x10000000 one_mapping)
unfolding process_get_file
mmap-maps_example =
    mmap-maps heap disk InUse heap-Allocates (λ w. (w, w + 1, refl)) one_mapping pc 2 0x10000000 30
      31 10 refl refl refl refl (omega arith) refl (omega arith) (λ j lt. ground arith)

-- The entries of a page table are visited in the order of their pages; here there is one page.
abbrev exit_calls : ExitCalls ℕ
exit_calls = record {
  pagedir_activate = λ w. w;
  pagedir_destroy = λ pd w. w;
  elements = λ spt. if_present (spt 0x20000000);
}
  where
    if_present : Option ℕ → List ℕ
    if_present none = []
    if_present (some p) = p ∷ []
