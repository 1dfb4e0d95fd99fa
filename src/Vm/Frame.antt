-- ===== src/Vm/Frame.antt =====
-- Project 3/vm/frame.c: the frame table and its eviction policy.
use comp_sys_pint_os.Base.{
  update, ℕ, zero, suc, ◌*◌, true, false, ◌==◌, if◌then◌else◌, not, ◌||◌, List, [], ◌∷◌, ◌++◌,
  Option, none, some, Outcome, returns, stuck, ◌>>=◌, ◌>>◌, assert, length,
}
use comp_sys_pint_os.Vm.{PageType, FrameEntry, Flags, Kernel, Vm, is_swap, is_mmap}

-- `list_remove`
unfoldable pub list_remove : ℕ → List FrameEntry → List FrameEntry
list_remove elem [] = []
list_remove elem (e ∷ es) = if e.elem == elem then es else e ∷ list_remove elem es

-- The first entry of a frame.
unfoldable pub find_frame : ℕ → List FrameEntry → Option FrameEntry
find_frame frame [] = none
find_frame frame (e ∷ es) = if e.frame == frame then some e else find_frame frame es

-- `list_next`, and back to the beginning at the end.
abbrev pub next_entry : List FrameEntry → List FrameEntry → List FrameEntry
next_entry [] table = table
next_entry (e ∷ es) table = e ∷ es

module _ {W : Type 0} (k : Kernel W) where
  unfoldable pub frame_tbl_init : Vm W → Vm W
  frame_tbl_init s = record s { frame_tbl_list = []; frame_tbl_lock = false }

  -- The result of `malloc` is written to unchecked.
  unfoldable pub add_entry : Option ℕ × W → ℕ → ℕ → Vm W → Outcome (Vm W)
  add_entry (none, w) frame spte s = stuck
  add_entry (some p, w) frame spte s = do
    assert (not s.frame_tbl_lock)
    returns (record s {
      frame_tbl_list =
          s.frame_tbl_list
          ++ record { elem = p; frame = frame; thread = s.thread_current; spte = spte } ∷ [];
      world = w;
    })

  unfoldable pub add_frame_to_tbl : ℕ → ℕ → Vm W → Outcome (Vm W)
  unfolding add_entry
  add_frame_to_tbl frame spte s = add_entry (k.malloc s.world) frame spte s

  unfoldable pub free_found : Option FrameEntry → ℕ → Vm W → Vm W
  unfolding list_remove
  free_found none frame s = s
  free_found (some e) frame s = record s {
    frame_tbl_list = list_remove e.elem s.frame_tbl_list;
    world = k.palloc_free_page frame (k.free e.elem s.world);
  }

  unfoldable pub free_frame : ℕ → Vm W → Outcome (Vm W)
  unfolding free_found find_frame
  free_frame frame s = do
    assert (not s.frame_tbl_lock)
    returns (free_found (find_frame frame s.frame_tbl_list) frame s)

  -- The page of `x` is in the swap partition, at the slot that `swap_out` returned.
  unfoldable pub swapped : FrameEntry → Vm W → ℕ × W → Vm W
  swapped x s (index, w) = record s {
    spte_at =
        update s.spte_at x.spte
          (record (s.spte_at x.spte) { type = PageType.swap; swap_index = index });
    world = w;
  }

  -- What the victim's page is written to before it goes: a mapped file, or the swap partition.
  unfoldable pub write_back : FrameEntry → Vm W → Outcome (Vm W)
  unfolding swapped
  write_back x s =
      let p = s.spte_at x.spte in
      let to_file =
        assert (not s.file_lock)
        >> returns
            (record s { world = k.file_write_at p.file x.frame p.read_bytes p.offset s.world }) in
      let to_swap = k.swap_out x.frame s.world >>= λ r. returns (swapped x s r) in
      if k.pagedir_is_dirty s.world x.thread p.unused_virtual_address || is_swap p.type
      then if is_mmap p.type then to_file else to_swap
      else returns s

  unfoldable pub unload : Flags → FrameEntry → Vm W → Option ℕ × Vm W
  unfolding list_remove
  unload flags x s =
      let p = s.spte_at x.spte in
      let cleared = k.pagedir_clear_page x.thread p.unused_virtual_address s.world in
      let freed = k.free x.elem (k.palloc_free_page x.frame cleared) in
      let (page, w) = k.palloc_get_page flags freed in
      (
        page,
        record s {
          frame_tbl_list = list_remove x.elem s.frame_tbl_list;
          spte_at = update s.spte_at x.spte (record p { is_loaded = false });
          world = w;
        },
      )

  unfoldable pub evict_entry : Flags → FrameEntry → Vm W → Outcome (Option ℕ × Vm W)
  unfolding write_back unload
  evict_entry flags x s = do t ← write_back x s; returns (unload flags x t)

  -- The `while` of `evict_frame`; the second list begins at the element `e`. An empty table has no
  -- element: the code would read the end of the list as an entry. `unfinished` is the outcome where the
  -- fuel is used up and the loop is not at its end.
  unfoldable pub evict_scan :
      Outcome (Option ℕ × Vm W)
      → ℕ
      → Flags
      → List FrameEntry
      → List FrameEntry
      → Vm W
      → Outcome (Option ℕ × Vm W)
  unfolding evict_entry
  evict_scan unfinished zero flags table es s = unfinished
  evict_scan unfinished (suc fuel) flags table [] s = stuck
  evict_scan unfinished (suc fuel) flags table (e ∷ es) s =
      let p = s.spte_at e.spte in
      let va = p.unused_virtual_address in
      let skipped = evict_scan unfinished fuel flags table (next_entry es table) s in
      let second_chance =
        evict_scan unfinished fuel flags table (next_entry es table)
          (record s { world = k.pagedir_set_accessed e.thread va false s.world }) in
      if p.pinned
      then skipped
      else if k.pagedir_is_accessed s.world e.thread va
      then second_chance
      else evict_entry flags e s

  -- `evict_frame`: the lock is taken, and left to the caller to release. Two rounds of the table are
  -- enough where a frame can be evicted.
  unfoldable pub evict_frame : Flags → Vm W → Outcome (Option ℕ × Vm W)
  unfolding evict_scan
  evict_frame flags s = do
    assert (not s.frame_tbl_lock)
    let locked = record s { frame_tbl_lock = true }
    evict_scan stuck (2 * length s.frame_tbl_list) flags s.frame_tbl_list s.frame_tbl_list locked

  -- `lock_release (&frame_tbl_lock)` after an eviction, and the test of the loop.
  unfoldable pub evict_until : ℕ → Flags → Vm W → Outcome (ℕ × Vm W)
  unfolding evict_frame
  evict_until zero flags s = stuck
  evict_until (suc fuel) flags s = evict_frame flags s >>= λ r.
      let t = record (r.1) { frame_tbl_lock = false } in
      elim (r.0) [ none ↦ evict_until fuel flags t | some frame ↦ returns (frame, t) ]

  unfoldable pub alloc_with : ℕ → Flags → ℕ → Option ℕ × W → Vm W → Outcome (Option ℕ × Vm W)
  unfolding add_frame_to_tbl evict_until
  alloc_with fuel flags spte (some frame, w) s =
      add_frame_to_tbl frame spte (record s { world = w }) >>= λ t. returns (some frame, t)
  alloc_with fuel flags spte (none, w) s = do
    r ← evict_until fuel flags (record s { world = w })
    t ← add_frame_to_tbl r.0 spte r.1
    returns (some r.0, t)

  -- `frame_alloc`; the fuel bounds the number of evictions.
  unfoldable pub frame_alloc : ℕ → Flags → ℕ → Vm W → Outcome (Option ℕ × Vm W)
  unfolding alloc_with
  frame_alloc fuel flags spte s =
      if flags.user
      then alloc_with fuel flags spte (k.palloc_get_page flags s.world) s
      else returns (none, s)
