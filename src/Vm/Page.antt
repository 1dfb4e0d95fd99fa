-- ===== src/Vm/Page.antt =====
-- Project 3/vm/page.c: supplemental page table entries and how a page is brought in.
-- A hash table keyed by the page address is the function `spt`.
use comp_sys_pint_os.Base.{
  update, ℕ, ◌+◌, ◌-◌, ◌%◌, ◌^◌, Bool, true, false, ◌==◌, ltb, if◌then◌else◌, not, Option, none,
  some, Outcome, returns, ◌>>=◌, ◌>>◌, assert,
}
use comp_sys_pint_os.Platform.{Platform, pg_round_down}
use comp_sys_pint_os.Vm.{PageType, Spte, Flags, Kernel, Vm}
use comp_sys_pint_os.Vm.Frame.{frame_alloc, free_frame}

-- MAX_STACK_SIZE
abbrev pub max_stack_size : ℕ
max_stack_size = 2 ^ 23

unfoldable pub page_compare : Spte → Spte → Bool
page_compare a b = if ltb a.unused_virtual_address b.unused_virtual_address then true else false

abbrev pub or_null : Option ℕ → ℕ
or_null none = 0
or_null (some p) = p

module _ {W : Type 0} (k : Kernel W) where
  -- Put an entry where a pointer leads.
  abbrev pub put : ℕ → Spte → Vm W → Vm W
  put p e s = record s { spte_at = update s.spte_at p e }

  unfoldable pub get_spte : ℕ → Vm W → Option ℕ
  get_spte va s = s.spt (pg_round_down va)

  -- `page_table_init`
  unfoldable pub page_table_init : Vm W → Vm W
  page_table_init s = record s { spt = λ va. none }

  -- `hash_insert`: the old element, if the key has one; it is kept then.
  unfoldable pub hash_insert : ℕ → Vm W → Option ℕ × Vm W
  hash_insert p s =
      let va = (s.spte_at p).unused_virtual_address in
      elim (s.spt va) [
        | some old ↦ (some old, s)
        | none ↦ (none, record s { spt = update s.spt va (some p) })
      ]

  -- The frame and the mapping of a page go; without a mapping the frame is NULL.
  unfoldable pub page_free : ℕ → Option ℕ → Vm W → Outcome (Vm W)
  page_free va frame s = free_frame k (or_null frame) s >>= λ t.
      returns (record t { world = k.pagedir_clear_page t.thread_current va t.world })

  -- `page_function`, the destructor that `page_table_rm` runs on each entry.
  unfoldable pub page_function : ℕ → Vm W → Outcome (Vm W)
  unfolding page_free
  page_function p s =
      let va = (s.spte_at p).unused_virtual_address in
      let unloaded = page_free va (k.pagedir_get_page s.world s.thread_current va) s >>= λ t.
      returns (record t { world = k.free p t.world }) in
      if (s.spte_at p).is_loaded then unloaded else returns (record s { world = k.free p s.world })

  -- `install_page` of Project 3/userprog/process.c
  unfoldable pub install_page : ℕ → ℕ → Bool → Vm W → Bool × Vm W
  install_page upage kpage writable s =
      let (set, w) = k.pagedir_set_page s.thread_current upage kpage writable s.world in
      elim (k.pagedir_get_page s.world s.thread_current upage) [
        | some old ↦ (false, s)
        | none ↦ (set, record s { world = w })
      ]

  -- The page is mapped, or the frame goes back.
  unfoldable pub finish_load : ℕ → ℕ → Bool × Vm W → Outcome (Bool × Vm W)
  finish_load p frame (true, s) =
      returns (true, put p (record (s.spte_at p) { is_loaded = true }) s)
  finish_load p frame (false, s) = free_frame k frame s >>= λ t. returns (false, t)

  unfoldable pub install_loaded : ℕ → ℕ → Vm W → Outcome (Bool × Vm W)
  unfolding install_page finish_load
  install_loaded p frame s =
      let e = s.spte_at p in
      finish_load p frame (install_page e.unused_virtual_address frame e.writable s)

  -- The bytes of the file, under the lock of the file system; false if fewer were read.
  unfoldable pub read_file : ℕ → ℕ → Vm W → Outcome (Bool × Vm W)
  read_file p frame s =
      let e = s.spte_at p in
      let (count, w) = k.file_read_at e.file frame e.read_bytes e.offset s.world in
      let zeroed = k.clear_bytes (frame + e.read_bytes) e.zero_bytes w in
      assert (not s.file_lock)
      >> returns (
          if count == e.read_bytes
          then (true, record s { world = zeroed })
          else (false, record s { world = w }))

  unfoldable pub load_read : ℕ → ℕ → Bool × Vm W → Outcome (Bool × Vm W)
  unfolding install_loaded
  load_read p frame (true, s) = install_loaded p frame s
  load_read p frame (false, s) = free_frame k frame s >>= λ t. returns (false, t)

  unfoldable pub load_framed : ℕ → Option ℕ × Vm W → Outcome (Bool × Vm W)
  unfolding read_file load_read
  load_framed p (none, s) = returns (false, s)
  load_framed p (some frame, s) =
      let reading = read_file p frame s >>= load_read p frame in
      if ltb 0 (s.spte_at p).read_bytes then reading else install_loaded p frame s

  unfoldable pub load_file : ℕ → ℕ → Vm W → Outcome (Bool × Vm W)
  unfolding load_framed
  load_file fuel p s = do
    let flags : Flags = record { user = true; zeroed = (s.spte_at p).read_bytes == 0 }
    r ← frame_alloc k fuel flags p s
    load_framed p r

  -- Bring the page in through its own mapping.
  unfoldable pub swap_mapped : ℕ → Bool × Vm W → ℕ → Outcome (Bool × Vm W)
  swap_mapped p (false, s) frame = free_frame k frame s >>= λ t. returns (false, t)
  swap_mapped p (true, s) frame =
      let e = s.spte_at p in
      k.swap_in e.swap_index e.unused_virtual_address s.world >>= λ w.
      returns (true, put p (record e { is_loaded = true }) (record s { world = w }))

  unfoldable pub swap_framed : ℕ → Option ℕ × Vm W → Outcome (Bool × Vm W)
  unfolding swap_mapped install_page
  swap_framed p (none, s) = returns (false, s)
  swap_framed p (some frame, s) =
      let e = s.spte_at p in
      swap_mapped p (install_page e.unused_virtual_address frame e.writable s) frame

  unfoldable pub load_swap : ℕ → ℕ → Vm W → Outcome (Bool × Vm W)
  unfolding swap_framed
  load_swap fuel p s = do
    r ← frame_alloc k fuel (record { user = true; zeroed = false }) p s
    swap_framed p r

  -- The `switch` of `load_page`; of a type without a case nothing is loaded.
  unfoldable pub load_type : PageType → ℕ → ℕ → Vm W → Outcome (Bool × Vm W)
  unfolding load_file load_swap
  load_type PageType.file fuel p s = load_file fuel p s
  load_type PageType.swap fuel p s = load_swap fuel p s
  load_type PageType.mmap fuel p s = load_file fuel p s
  load_type PageType.hash_error fuel p s = returns (false, s)

  unfoldable pub load_page : ℕ → ℕ → Vm W → Outcome (Bool × Vm W)
  unfolding load_type
  load_page fuel p s =
      let t = put p (record (s.spte_at p) { pinned = true }) s in
      if (s.spte_at p).is_loaded then returns (false, t) else load_type (s.spte_at p).type fuel p t

  -- The result of `hash_insert` is compared with NULL.
  abbrev pub was_inserted : Option ℕ × Vm W → Bool × Vm W
  was_inserted (none, s) = (true, s)
  was_inserted (some old, s) = (false, s)

  -- `add_file_page_tbl`; the swap index is not set, and keeps what `malloc` left there.
  unfoldable pub add_file_at : Option ℕ × W → ℕ → ℕ → ℕ → ℕ → ℕ → Bool → Vm W → Bool × Vm W
  unfolding hash_insert
  add_file_at (none, w) file ofs upage read_bytes zero_bytes writable s =
      (false, record s { world = w })
  add_file_at (some p, w) file ofs upage read_bytes zero_bytes writable s =
      let e : Spte = record {
        unused_virtual_address = upage;
        type = PageType.file;
        writable = writable;
        is_loaded = false;
        pinned = false;
        file = file;
        offset = ofs;
        read_bytes = read_bytes;
        zero_bytes = zero_bytes;
        swap_index = (s.spte_at p).swap_index;
      } in
      was_inserted (hash_insert p (put p e (record s { world = w })))

  unfoldable pub add_file_page_tbl : ℕ → ℕ → ℕ → ℕ → ℕ → Bool → Vm W → Bool × Vm W
  unfolding add_file_at
  add_file_page_tbl file ofs upage read_bytes zero_bytes writable s =
      add_file_at (k.malloc s.world) file ofs upage read_bytes zero_bytes writable s

  -- The rest of `stack_growth`, once the page has a frame.
  unfoldable pub grow_mapped : Bool → ℕ → ℕ → Bool × Vm W → Outcome (Bool × Vm W)
  unfolding hash_insert
  grow_mapped in_interrupt p frame (false, s) =
      free_frame k frame (record s { world = k.free p s.world }) >>= λ t. returns (false, t)
  grow_mapped in_interrupt p frame (true, s) =
      let unpinned = put p (record (s.spte_at p) { pinned = false }) s in
      returns (was_inserted (hash_insert p (if in_interrupt then unpinned else s)))

  unfoldable pub grow_framed : Bool → ℕ → Option ℕ × Vm W → Outcome (Bool × Vm W)
  unfolding grow_mapped install_page
  grow_framed in_interrupt p (none, s) = returns (false, record s { world = k.free p s.world })
  grow_framed in_interrupt p (some frame, s) =
      let e = s.spte_at p in
      grow_mapped in_interrupt p frame (install_page e.unused_virtual_address frame e.writable s)

  unfoldable pub grow_at : ℕ → Bool → ℕ → Option ℕ × W → Vm W → Outcome (Bool × Vm W)
  unfolding grow_framed
  grow_at fuel in_interrupt va (none, w) s = returns (false, record s { world = w })
  grow_at fuel in_interrupt va (some p, w) s = do
    let e : Spte = record (s.spte_at p) {
      unused_virtual_address = pg_round_down va;
      is_loaded = true;
      writable = true;
      type = PageType.swap;
      pinned = true;
    }
    r ←
        frame_alloc k fuel (record { user = true; zeroed = false }) p
          (put p e (record s { world = w }))
    grow_framed in_interrupt p r

  -- `stack_growth`; `in_interrupt` is what `intr_context` returns.
  unfoldable pub stack_growth : Platform → ℕ → Bool → ℕ → Vm W → Outcome (Bool × Vm W)
  unfolding grow_at
  stack_growth pf fuel in_interrupt va s =
      let grown = grow_at fuel in_interrupt va (k.malloc s.world) s in
      if ltb max_stack_size ((pf.phys_base + 2 ^ 32 - pg_round_down va) % 2 ^ 32)
      then returns (false, s)
      else grown
