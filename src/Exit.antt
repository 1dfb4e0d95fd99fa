-- ===== src/Exit.antt =====
-- `process_exit` of Project 3/userprog/process.c: a process gives back its files, children, mappings and
-- pages. It is made of the parts that Mmap, Children and Vm model.
pub mod Frees
use comp_sys_pint_os.Base.{
  ℕ, Bool, true, false, if◌then◌else◌, not, ◌&&◌, List, [], ◌∷◌, Option, none, some, Outcome,
  returns, ◌>>=◌, ◌>>◌, assert,
}
use comp_sys_pint_os.Vm.{Kernel, Vm}
use comp_sys_pint_os.Vm.Page.{page_function}
use comp_sys_pint_os.Mmap.{MapFiles, Maps, close_all, in_world, process_close_file, munmap}
use comp_sys_pint_os.Children.{Family, remove_child_processes, child_exits}

-- The page directories, and the order in which `hash_destroy` visits the entries of a page table.
pub record ExitCalls (W : Type 0) : Type 0 where
  pub pagedir_activate : W → W
  pub pagedir_destroy : ℕ → W → W
  pub elements : (ℕ → Option ℕ) → List ℕ

-- The members of `struct thread` that the function reads; `cp` is the process in the list of its
-- parent, and `parent_alive` what `thread_alive (parent)` returns.
pub record Process (W : Type 0) : Type 0 where
  pub maps : Maps W
  pub family : Family
  pub parent : Family
  pub parent_alive : Bool
  pub cp : Option ℕ
  pub executable : Option ℕ
  pub pagedir : Option ℕ

abbrev pub is_set : Option ℕ → Bool
is_set none = false
is_set (some p) = true

module _ {W : Type 0} (k : Kernel W) (files : MapFiles W) (calls : ExitCalls W) where
  -- `hash_destroy` of page_table_rm runs `page_function` on every entry.
  unfoldable pub destroy_all : List ℕ → Vm W → Outcome (Vm W)
  unfolding page_function
  destroy_all [] v = returns v
  destroy_all (p ∷ ps) v = page_function k p v >>= destroy_all ps

  -- `hash_destroy` visits the elements that the argument `elements` names, and leaves no table behind.
  unfoldable pub page_table_rm : Vm W → Outcome (Vm W)
  unfolding destroy_all
  page_table_rm v =
      destroy_all (calls.elements v.spt) v >>= λ u. returns (record u { spt = λ va. none })

  abbrev pub close_executable : Option ℕ → Maps W → Maps W
  close_executable none s = s
  close_executable (some f) s = in_world k files (files.file_close f) s

  -- The open files and the executable, under the lock of the file system.
  unfoldable pub close_opened : Process W → Outcome (Process W)
  unfolding process_close_file
  close_opened s = do
    assert (not s.maps.vm.file_lock)
    let closed = process_close_file k files close_all s.maps
    returns (record s { maps = close_executable s.executable closed })

  -- The parent learns of the exit, if it is alive and the process was loaded.
  unfoldable pub tell_parent : Option ℕ → Process W → Process W
  unfolding child_exits
  tell_parent none s = s
  tell_parent (some pid) s =
      if s.parent_alive
      then record s { parent = child_exits (is_set s.executable) pid s.parent }
      else s

  unfoldable pub drop_pagedir : Option ℕ → Process W → Process W
  drop_pagedir none s = s
  drop_pagedir (some pd) s = record s {
    pagedir = none;
    maps = in_world k files (λ w. calls.pagedir_destroy pd (calls.pagedir_activate w)) s.maps;
  }

  -- The mappings, the page table and the page directory.
  unfoldable pub free_pages : Process W → Outcome (Process W)
  unfolding munmap page_table_rm drop_pagedir
  free_pages s = do
    m ← munmap k files close_all s.maps
    v ← page_table_rm m.vm
    returns (drop_pagedir s.pagedir (record s { maps = record m { vm = v } }))

  unfoldable pub process_exit : Process W → Outcome (Process W)
  unfolding close_opened remove_child_processes tell_parent free_pages
  process_exit s = do
    a ← close_opened s
    free_pages (tell_parent a.cp (record a { family = remove_child_processes a.family }))
