-- ===== src/Mmap.antt =====
-- Memory-mapped files: `mmap` and `munmap` of Project 3/userprog/syscall.c, the two lists that
-- Project 3/userprog/process.c keeps for them, and `add_mmap_page_tbl` of Project 3/vm/page.c.
-- A word that the user passes or receives is its bit pattern.
pub mod Removal
pub mod Adding
pub mod Atomic
pub mod Pages
pub mod Mapping
use comp_sys_pint_os.Base.{
  ℕ, zero, suc, ◌+◌, ◌-◌, ◌/◌, ◌%◌, ◌^◌, Bool, true, false, ◌==◌, ltb, if◌then◌else◌, not, ◌||◌,
  List, [], ◌∷◌, ◌++◌, Option, none, some, Outcome, returns, stuck, ◌>>=◌, ◌>>◌, assert,
}
use comp_sys_pint_os.Platform.{Platform, page_size, u32}
use comp_sys_pint_os.Vm.{PageType, Spte, Kernel, Vm}
use comp_sys_pint_os.Vm.Page.{put, hash_insert, page_free}
use comp_sys_pint_os.Vm.Fault.{user_vaddr_bottom}

-- `struct mmap_file`; `elem` is its own address, `spte` a pointer.
pub record MmapFile : Type 0 where
  pub elem : ℕ
  pub spte : ℕ
  pub mapid : ℕ

-- `struct process_file`, with its own address
pub record ProcessFile : Type 0 where
  pub elem : ℕ
  pub file : ℕ
  pub fd : ℕ

-- The files that are opened and closed, beyond what the pages use.
pub record MapFiles (W : Type 0) : Type 0 where
  pub file_reopen : ℕ → W → Option ℕ × W
  pub file_length : W → ℕ → ℕ
  pub file_close : ℕ → W → W

-- The pages, and the members of `struct thread` that the calls use.
pub record Maps (W : Type 0) : Type 0 where
  pub vm : Vm W
  pub mapid : ℕ
  pub mmap_list : List MmapFile
  pub fd : ℕ
  pub file_list : List ProcessFile

-- ERROR and CLOSE_ALL, both -1
abbrev pub error : ℕ
error = 2 ^ 32 - 1

abbrev pub close_all : ℕ
close_all = 2 ^ 32 - 1

unfoldable pub find_file : ℕ → List ProcessFile → Option ℕ
find_file fd [] = none
find_file fd (pf ∷ pfs) = if fd == pf.fd then some pf.file else find_file fd pfs

abbrev pub is_hash_error : PageType → Bool
is_hash_error PageType.hash_error = true
is_hash_error _ = false

abbrev pub mmap_entry : ℕ → ℕ → ℕ → ℕ → ℕ → ℕ → Spte
mmap_entry file ofs upage read_bytes zero_bytes swap_index = record {
  unused_virtual_address = upage;
  type = PageType.mmap;
  writable = true;
  is_loaded = false;
  pinned = false;
  file = file;
  offset = ofs;
  read_bytes = read_bytes;
  zero_bytes = zero_bytes;
  swap_index = swap_index;
}

-- What the loop of `process_remove_mmap` keeps between two nodes: `close`, `f`, the nodes that it
-- has left in the list, and the pages.
pub record Walk (W : Type 0) : Type 0 where
  pub close : ℕ
  pub f : Option ℕ
  pub kept : List MmapFile
  pub pages : Vm W

module _ {W : Type 0} (k : Kernel W) (files : MapFiles W) where
  abbrev pub in_world : (W → W) → Maps W → Maps W
  in_world f s = record s { vm = record (s.vm) { world = f s.vm.world } }

  abbrev pub with_world : W → Maps W → Maps W
  with_world w s = in_world (λ _. w) s

  -- `malloc` and the rest of `process_add_file`
  unfoldable pub add_file : ℕ → Option ℕ × W → Maps W → ℕ × Maps W
  add_file f (none, w) s = (error, with_world w s)
  add_file f (some pf, w) s = (
    s.fd,
    record (with_world w s) {
      fd = s.fd + 1;
      file_list = s.file_list ++ record { elem = pf; file = f; fd = s.fd } ∷ [];
    },
  )

  unfoldable pub process_add_file : ℕ → Maps W → ℕ × Maps W
  unfolding add_file
  process_add_file f s = add_file f (k.malloc s.vm.world) s

  unfoldable pub process_get_file : ℕ → Maps W → Option ℕ
  unfolding find_file
  process_get_file fd s = find_file fd s.file_list

  -- The loop of `process_close_file`, which stops after a match unless all go.
  unfoldable pub close_files : ℕ → List ProcessFile → W → List ProcessFile × W
  close_files fd [] w = ([], w)
  close_files fd (pf ∷ pfs) w =
      let closed = k.free pf.elem (files.file_close pf.file w) in
      let all = close_files fd pfs closed in
      let (kept, v) = close_files fd pfs w in
      if fd == close_all then all else if fd == pf.fd then (pfs, closed) else (pf ∷ kept, v)

  unfoldable pub process_close_file : ℕ → Maps W → Maps W
  unfolding close_files
  process_close_file fd s =
      let (kept, w) = close_files fd s.file_list s.vm.world in
      record (with_world w s) { file_list = kept }

  -- The rest of `process_add_mmap`, after `malloc`
  unfoldable pub add_mmap : ℕ → Option ℕ × W → Maps W → Bool × Maps W
  add_mmap spte (none, w) s = (false, with_world w s)
  add_mmap spte (some mm, w) s = (
    true,
    record (with_world w s) {
      mmap_list = s.mmap_list ++ record { elem = mm; spte = spte; mapid = s.mapid } ∷ [];
    },
  )

  unfoldable pub process_add_mmap : ℕ → Maps W → Bool × Maps W
  unfolding add_mmap
  process_add_mmap spte s = add_mmap spte (k.malloc s.vm.world) s

  -- An entry whose page is mapped already stays in the list, marked.
  unfoldable pub mark_inserted : ℕ → Option ℕ × Vm W → Maps W → Bool × Maps W
  mark_inserted p (none, v) s = (true, record s { vm = v })
  mark_inserted p (some old, v) s =
      (false, record s { vm = put k p (record (v.spte_at p) { type = PageType.hash_error }) v })

  unfoldable pub add_listed : ℕ → Bool × Maps W → Bool × Maps W
  unfolding mark_inserted hash_insert
  add_listed p (false, s) = (false, in_world (k.free p) s)
  add_listed p (true, s) = mark_inserted p (hash_insert k p s.vm) s

  -- The swap index is not set, and keeps what `malloc` left there.
  unfoldable pub add_mmap_at : Option ℕ × W → ℕ → ℕ → ℕ → ℕ → ℕ → Maps W → Bool × Maps W
  unfolding add_listed process_add_mmap
  add_mmap_at (none, w) file ofs upage read_bytes zero_bytes s = (false, with_world w s)
  add_mmap_at (some p, w) file ofs upage read_bytes zero_bytes s =
      let e = mmap_entry file ofs upage read_bytes zero_bytes (s.vm.spte_at p).swap_index in
      let t = with_world w s in add_listed p (process_add_mmap p (record t { vm = put k p e t.vm }))

  unfoldable pub add_mmap_page_tbl : ℕ → ℕ → ℕ → ℕ → ℕ → Maps W → Bool × Maps W
  unfolding add_mmap_at
  add_mmap_page_tbl file ofs upage read_bytes zero_bytes s =
      add_mmap_at (k.malloc s.vm.world) file ofs upage read_bytes zero_bytes s

  -- `file_close`, under the lock of the file system
  unfoldable pub close_file : Option ℕ → Vm W → Outcome (Vm W)
  close_file none v = returns v
  close_file (some f) v =
      assert (not v.file_lock) >> returns (record v { world = files.file_close f v.world })

  -- A dirty page is written to its file before it goes; the bytes are read at the user's address.
  unfoldable pub write_dirty : Spte → Vm W → Outcome (Vm W)
  write_dirty e v =
      let written = k.file_write_at e.file e.unused_virtual_address e.read_bytes e.offset v.world in
      if k.pagedir_is_dirty v.world v.thread_current e.unused_virtual_address
      then assert (not v.file_lock) >> returns (record v { world = written })
      else returns v

  unfoldable pub drop_page : Spte → Vm W → Outcome (Vm W)
  unfolding write_dirty page_free
  drop_page e v =
      let va = e.unused_virtual_address in
      let dropped = write_dirty e v >>= λ u.
      page_free k va (k.pagedir_get_page u.world u.thread_current va) u in
      if e.is_loaded then dropped else returns v

  -- `hash_delete`
  unfoldable pub hash_delete : ℕ → Vm W → Vm W
  hash_delete va v = record v { spt = λ a. if va == a then none else v.spt a }

  -- A matching node of the loop, up to its removal from the list.
  unfoldable pub drop_entry : ℕ → Vm W → Outcome (Vm W)
  unfolding drop_page hash_delete
  drop_entry p v =
      let e = record (v.spte_at p) { pinned = true } in
      drop_page e (put k p e v) >>= λ u.
      returns (if is_hash_error e.type then u else hash_delete e.unused_virtual_address u)

  -- Where a mapping ends, the file of the one before is closed.
  unfoldable pub close_before : MmapFile → Walk W → Outcome (Walk W)
  unfolding close_file
  close_before mm r =
      let e = r.pages.spte_at mm.spte in
      let next = close_file r.f r.pages >>= λ v.
      returns (record r { close = mm.mapid; f = some e.file; pages = v }) in
      if mm.mapid == r.close then returns r else next

  unfoldable pub remove_mapped : MmapFile → Walk W → Outcome (Walk W)
  unfolding drop_entry close_before
  remove_mapped mm r = do
    v ← drop_entry mm.spte r.pages
    q ← close_before mm (record r { pages = v })
    returns (record q {
      pages = record (q.pages) { world = k.free mm.elem (k.free mm.spte q.pages.world) };
    })

  -- One node of the list.
  unfoldable pub remove_node : ℕ → MmapFile → Walk W → Outcome (Walk W)
  unfolding remove_mapped
  remove_node mapping mm r =
      if mm.mapid == mapping || mapping == close_all
      then remove_mapped mm r
      else returns (record r { kept = r.kept ++ mm ∷ [] })

  unfoldable pub remove_nodes : ℕ → List MmapFile → Walk W → Outcome (Walk W)
  unfolding remove_node
  remove_nodes mapping [] r = returns r
  remove_nodes mapping (mm ∷ mms) r = remove_node mapping mm r >>= remove_nodes mapping mms

  -- `process_remove_mmap`
  unfoldable pub munmap : ℕ → Maps W → Outcome (Maps W)
  unfolding remove_nodes close_file
  munmap mapping s = do
    let start : Walk W = record { close = 0; f = none; kept = []; pages = s.vm }
    r ← remove_nodes mapping s.mmap_list start
    v ← close_file r.f r.pages
    returns (record s { vm = v; mmap_list = r.kept })

  unfoldable pub after_add : Bool × Maps W → Outcome (ℕ × Maps W) → Outcome (ℕ × Maps W)
  unfolding munmap
  after_add (true, s) rest = rest
  after_add (false, s) rest = munmap s.mapid s >>= λ t. returns (error, t)

  -- The `while` of `mmap`.
  unfoldable pub map_pages : ℕ → ℕ → ℕ → ℕ → ℕ → Maps W → Outcome (ℕ × Maps W)
  unfolding after_add add_mmap_page_tbl
  map_pages zero file ofs addr read_bytes s = stuck
  map_pages (suc fuel) file ofs addr read_bytes s =
      let page_read = if ltb read_bytes page_size then read_bytes else page_size in
      let added = add_mmap_page_tbl file ofs addr page_read (page_size - page_read) s in
      let next =
        map_pages fuel file (u32 (ofs + page_read)) (u32 (addr + page_size))
          (read_bytes - page_read) (added.1) in
      if ltb 0 read_bytes then after_add added next else returns (s.mapid, s)

  unfoldable pub map_reopened : ℕ → ℕ → Option ℕ × W → Maps W → Outcome (ℕ × Maps W)
  unfolding map_pages
  map_reopened old_file addr (none, w) s = returns (error, with_world w s)
  map_reopened old_file addr (some file, w) s =
      let t = with_world w s in
      let read_bytes = u32 (files.file_length w file) in
      let mapped =
        map_pages (read_bytes / page_size + 2) file 0 addr read_bytes
          (record t { mapid = (s.mapid + 1) % 2 ^ 32 }) in
      if files.file_length w old_file == 0 then returns (error, t) else mapped

  unfoldable pub mmap_found : Platform → Option ℕ → ℕ → Maps W → Outcome (ℕ × Maps W)
  unfolding map_reopened
  mmap_found pf none addr s = returns (error, s)
  mmap_found pf (some old_file) addr s =
      let reopened = map_reopened old_file addr (files.file_reopen old_file s.vm.world) s in
      if not (pf.is_user_vaddr addr) || ltb addr user_vaddr_bottom || not (addr % page_size == 0)
      then returns (error, s)
      else reopened

  unfoldable pub mmap : Platform → ℕ → ℕ → Maps W → Outcome (ℕ × Maps W)
  unfolding mmap_found process_get_file
  mmap pf fd addr s = mmap_found pf (process_get_file fd s) addr s
