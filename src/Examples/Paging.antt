-- ===== src/Examples/Paging.antt =====
-- The frame table, the pages and the page-fault handler of Project 3 on a small memory.
use comp_sys_pint_os.Base.{
  ◌⊎◌, ◌≤◌, ℕ, ◌+◌, ◌*◌, ◌%◌, ◌<◌, ◌≡◌, refl, Bool, true, false, if◌then◌else◌, ◌==◌, ◌&&◌, ltb, [],
  ◌∷◌, none, some, Returns, Outcome, returns, panic, arith, inl, inr,
}
use comp_sys_pint_os.Vm.{PageType, Spte, FrameEntry, Flags, Kernel, Vm}
use comp_sys_pint_os.Vm.Frame.{frame_alloc, find_frame, evict_frame, evict_scan}
use comp_sys_pint_os.Vm.Evict.{ClearsAccessed, Evicts, In, pinned_in, evict_frame-Evicts}
use comp_sys_pint_os.Vm.Pinned.{evict_scan_without_victim}
use comp_sys_pint_os.Vm.Unload.{Evicted, SwapFails, evict_frame-Returns}
use comp_sys_pint_os.Vm.Page.{load_file, get_spte, load_page}
use comp_sys_pint_os.Vm.Load.{HasPage, LoadEnds, load_file-LoadEnds}
use comp_sys_pint_os.Vm.Fault.{FaultFrame, FaultEnd, user_code, page_fault, user_vaddr_bottom}
use comp_sys_pint_os.Vm.FaultSafety.{MayLoad, page_fault_resumes}
use comp_sys_pint_os.Pointers.{Check, check_valid_buffer}
use comp_sys_pint_os.Pointers.Ranges.{check_valid_buffer-passed}
use comp_sys_pint_os.Examples.Machine.{pc, pc-IsPlatform}

-- The next page and the next block of memory to be given out, and the accessed bits.
record Memory : Type 0 where
  next_page : ℕ
  next_node : ℕ
  accessed : ℕ → ℕ → Bool

abbrev kernel : Kernel Memory
kernel = record {
  malloc = λ w. (some w.next_node, record w { next_node = w.next_node + 1 });
  free = λ p w. w;
  palloc_get_page = λ flags w. (some w.next_page, record w { next_page = w.next_page + 4096 });
  palloc_free_page = λ p w. w;
  pagedir_get_page = λ w t v. none;
  pagedir_set_page = λ t v p b w. (true, w);
  pagedir_clear_page = λ t v w. w;
  pagedir_is_accessed = λ w t v. w.accessed t v;
  pagedir_set_accessed =
      λ t v b w. record w { accessed = λ u x. if t == u && v == x then b else w.accessed u x };
  pagedir_is_dirty = λ w t v. true;
  file_read_at = λ f buffer size offset w. (size, w);
  file_write_at = λ f buffer size offset w. w;
  clear_bytes = λ a n w. w;
  swap_in = λ i a w. returns w;
  swap_out = λ frame w. returns (5, w);
}

kernel-ClearsAccessed : ClearsAccessed kernel
kernel-ClearsAccessed = record {
  cleared = λ w t v. ground arith;
  sets_none = λ w t v u x h. ground arith;
}

abbrev page : ℕ → Bool → Bool → Spte
page va loaded pinned = record {
  unused_virtual_address = va;
  type = PageType.file;
  writable = true;
  is_loaded = loaded;
  pinned = pinned;
  file = 9;
  offset = 0;
  read_bytes = 4096;
  zero_bytes = 0;
  swap_index = 0;
}

abbrev entry : ℕ → FrameEntry
entry i = record { elem = 100 + i; frame = 4096 * i; thread = 1; spte = i }

-- Two frames: the page of the first is pinned where `first` is true, that of the second where
-- `second` is; both have been accessed.
abbrev two_frames : Bool → Bool → Vm Memory
two_frames first second = record {
  frame_tbl_list = entry 0 ∷ entry 1 ∷ [];
  frame_tbl_lock = false;
  file_lock = false;
  spte_at = λ p. page (0x8048000 + 4096 * p) (ltb p 2) (if p == 0 then first else second);
  spt = λ va. if va == 0x804f000 then some 7 else none;
  thread_current = 1;
  world = record { next_page = 65536; next_node = 200; accessed = λ t v. true };
}

abbrev flags : Flags
flags = record { user = true; zeroed = false }

evict_frame-Evicts_example :
    Evicts kernel kernel-ClearsAccessed flags
      (entry 0 ∷ entry 1 ∷ entry 0 ∷ entry 1 ∷ [])
      (entry 0 ∷ entry 1 ∷ [])
      (record (two_frames true false) { frame_tbl_lock = true })
      (two_frames true false).world
      (evict_frame kernel flags (two_frames true false))
evict_frame-Evicts_example =
    evict_frame-Evicts kernel kernel-ClearsAccessed flags (two_frames true false) (entry 1) refl
      (inr (inl refl)) refl

evict_scan_without_victim_example :
    evict_scan kernel panic 1000 flags
      (entry 0 ∷ entry 1 ∷ [])
      (entry 0 ∷ entry 1 ∷ [])
      (two_frames true true)
    ≡ panic
evict_scan_without_victim_example =
    evict_scan_without_victim kernel kernel-ClearsAccessed flags panic (two_frames true true) 1000
      (entry 0) (entry 1 ∷ []) refl (refl, (refl, tt))

evict_frame-Returns_example :
    (y : FrameEntry) × In y (entry 0 ∷ entry 1 ∷ [])
    × (pinned_in kernel kernel-ClearsAccessed flags (two_frames true false) y ≡ false)
    × (Returns
          (λ r.
            (r.1.frame_tbl_lock ≡ true)
            × Evicted kernel kernel-ClearsAccessed flags y
                (record (two_frames true false) { frame_tbl_lock = true })
                r.1)
          (evict_frame kernel flags (two_frames true false))
        ⊎ SwapFails kernel kernel-ClearsAccessed flags y
            (evict_frame kernel flags (two_frames true false)))
evict_frame-Returns_example =
    evict_frame-Returns kernel kernel-ClearsAccessed flags (two_frames true false) (entry 1) refl
      refl (inr (inl refl)) refl

has_page : HasPage kernel (record { user = true; zeroed = false }) 7 (two_frames true false)
has_page = record {
  frame = 65536;
  elem = 200;
  allotted = record { next_page = 69632; next_node = 200; accessed = λ t v. true };
  ready = record { next_page = 69632; next_node = 201; accessed = λ t v. true };
  page = refl;
  node = refl;
  new_frame = unfold find_frame in refl;
  new_elem = (refl, (refl, tt));
  unlocked = refl;
  file_unlocked = refl;
}

load_file-LoadEnds_example :
    Returns (LoadEnds kernel has_page) (load_file kernel 3 7 (two_frames true false))
load_file-LoadEnds_example = load_file-LoadEnds kernel 3 7 (two_frames true false) has_page

-- A fault in the page of entry 7, which is not loaded.
abbrev fault : FaultFrame
fault = record { fault_addr = 0x804f010; error_code = 4; esp = 0xbffff000; cs = user_code }

state_of : Outcome (FaultEnd × Vm Memory) → Vm Memory
state_of (returns r) = r.1
state_of m = two_frames true false

page_fault_resumes_example :
    (4 % 2 ≡ 0)
    × (user_vaddr_bottom < 0x804f010)
    × (0x804f010 < pc.phys_base)
    × MayLoad kernel pc pc-IsPlatform 3 fault (two_frames true false)
page_fault_resumes_example =
    page_fault_resumes kernel pc pc-IsPlatform 3 fault (two_frames true false)
      (state_of (page_fault kernel pc 3 fault (two_frames true false)))
      (unfold page_fault state_of get_spte load_page frame_alloc in refl)

-- Two bytes of that page are to be read.
after_check : Outcome (Check (Unit {0}) × Vm Memory) → Vm Memory
after_check (returns r) = r.1
after_check m = two_frames true false

check_valid_buffer-passed_example : (user_vaddr_bottom ≤ 0x804f010) × (0x804f010 + 2 ≤ pc.phys_base)
check_valid_buffer-passed_example =
    check_valid_buffer-passed kernel pc pc-IsPlatform 3 2 0x804f010 0xbffff000 false
      (two_frames true false)
      (after_check
        (check_valid_buffer kernel pc 3 2 0x804f010 0xbffff000 false (two_frames true false)))
      (unfold check_valid_buffer after_check get_spte load_page frame_alloc in refl) (omega arith)
