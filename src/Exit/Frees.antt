-- ===== src/Exit/Frees.antt =====
-- What `process_exit` of Project 3/userprog/process.c leaves of a process.
use comp_sys_pint_os.Base.{
  ℕ, ◌≡◌, refl, ap, ◌∙◌, sym, subst, Bool, true, false, not, ◌||◌, ◌==◌, if◌then◌else◌, List, [],
  ◌∷◌, Option, none, some, Bool-cases, inl, inr, Returns, Returns->>=, Returns-assert,
}
use comp_sys_pint_os.Vm.{Kernel, Vm}
use comp_sys_pint_os.Vm.Page.{page_function}
use comp_sys_pint_os.Mmap.{
  MmapFile, ProcessFile, MapFiles, Maps, close_all, close_files, process_close_file, munmap,
}
use comp_sys_pint_os.Mmap.Removal.{Unlocked, Kept, page_free-Kept, others, munmap-removes}
use comp_sys_pint_os.Children.{Family, remove_child_processes, child_exits}
use comp_sys_pint_os.Exit.{
  ExitCalls, Process, is_set, destroy_all, page_table_rm, close_executable, close_opened,
  tell_parent, drop_pagedir, free_pages, process_exit,
}

others_of_all : (mms : List MmapFile) → others close_all mms ≡ []
unfolding others
others_of_all [] = refl
others_of_all (mm ∷ mms) = rw (or_true (mm.mapid == close_all)) (others_of_all mms)
  where
    or_true : (b : Bool) → (b || true) ≡ true
    or_true true = refl
    or_true false = refl

module _ {W : Type 0} (k : Kernel W) (files : MapFiles W) (calls : ExitCalls W) where
  close_files-all : (pfs : List ProcessFile) (w : W) → (close_files k files close_all pfs w).0 ≡ []
  unfolding close_files
  close_files-all [] w = refl
  close_files-all (pf ∷ pfs) w = close_files-all pfs _

  page_function-Unlocked :
      (p : ℕ) (v : Vm W) → Unlocked k files v → Returns (Unlocked k files) (page_function k p v)
  unfolding page_function
  page_function-Unlocked p v h = elim (Bool-cases (v.spte_at p).is_loaded) [
    | inl loaded ↦ rw loaded (
        Returns->>= (Kept k files v) (Unlocked k files) _ _
          (page_free-Kept k files (v.spte_at p).unused_virtual_address
            (k.pagedir_get_page v.world v.thread_current (v.spte_at p).unused_virtual_address) v h)
          (λ u q. q.unlocked))
    | inr unloaded ↦ rw unloaded h
  ]

  destroy_all-Unlocked :
      (ps : List ℕ) (v : Vm W)
      → Unlocked k files v
      → Returns (Unlocked k files) (destroy_all k files calls ps v)
  unfolding destroy_all page_function
  destroy_all-Unlocked [] v h = h
  destroy_all-Unlocked (p ∷ ps) v h =
      Returns->>= (Unlocked k files) (Unlocked k files) (page_function k p v) _
        (page_function-Unlocked p v h) (λ u q. destroy_all-Unlocked ps u q)

  -- The page table is empty, and neither lock is held.
  abbrev Emptied : Vm W → Type 0
  Emptied v = Unlocked k files v × ((va : ℕ) → v.spt va ≡ none)

  page_table_rm-Emptied :
      (v : Vm W) → Unlocked k files v → Returns Emptied (page_table_rm k files calls v)
  unfolding page_table_rm
  page_table_rm-Emptied v h =
      Returns->>= (Unlocked k files) Emptied (destroy_all k files calls (calls.elements v.spt) v) _
        (destroy_all-Unlocked (calls.elements v.spt) v h) (λ u q. (q, λ va. refl))

  -- What the parent is told: of a process in its list that was loaded, if the parent is alive.
  abbrev pub told : Option ℕ → Bool → Option ℕ → Family → Family
  told none alive executable parent = parent
  told (some pid) alive executable parent =
      if alive then child_exits (is_set executable) pid parent else parent

  -- Nothing is left of the process, and its parent has been told.
  pub record Freed (s t : Process W) : Type 0 where
    pub unlocked : Unlocked k files t.maps.vm
    pub no_files : t.maps.file_list ≡ []
    pub no_mappings : t.maps.mmap_list ≡ []
    pub no_pages : (va : ℕ) → t.maps.vm.spt va ≡ none
    pub no_children : t.family.child_list ≡ []
    pub no_pagedir : t.pagedir ≡ none
    pub parent : t.parent ≡ told s.cp s.parent_alive s.executable s.parent

  -- The files are closed, and the members that the rest reads are as they were.
  record Closed (s t : Process W) : Type 0 where
    pub unlocked : Unlocked k files t.maps.vm
    pub no_files : t.maps.file_list ≡ []
    pub cp : t.cp ≡ s.cp
    pub parent_alive : t.parent_alive ≡ s.parent_alive
    pub executable : t.executable ≡ s.executable
    pub parent : t.parent ≡ s.parent

  close_opened-Closed :
      (s : Process W)
      → Unlocked k files s.maps.vm
      → Returns (Closed s) (close_opened k files calls s)
  unfolding close_opened process_close_file
  close_opened-Closed s h =
      Returns-assert (Closed s) (not s.maps.vm.file_lock) _ (ap not h.0) (closed s.executable)
    where
      maps : Maps W
      maps = process_close_file k files close_all s.maps

      closed : (o : Option ℕ) → Closed s (record s { maps = close_executable k files calls o maps })
      closed none = record {
        unlocked = h;
        no_files = close_files-all s.maps.file_list s.maps.vm.world;
        cp = refl;
        parent_alive = refl;
        executable = refl;
        parent = refl;
      }
      closed (some f) = record {
        unlocked = h;
        no_files = close_files-all s.maps.file_list s.maps.vm.world;
        cp = refl;
        parent_alive = refl;
        executable = refl;
        parent = refl;
      }

  -- Only the parent has changed.
  tell_parent-told :
      (o : Option ℕ) (s : Process W)
      → tell_parent k files calls o s
        ≡ record s { parent = told o s.parent_alive s.executable s.parent }
  unfolding tell_parent
  tell_parent-told none s = refl
  tell_parent-told (some pid) s = elim (Bool-cases s.parent_alive) [
    | inl yes_told ↦ rw yes_told refl
    | inr not_told ↦ rw not_told refl
  ]

  drop_pagedir-Freed :
      (s t : Process W) (o : Option ℕ)
      → t.pagedir ≡ o
      → Freed s (record t { pagedir = none })
      → Freed s (drop_pagedir k files calls o t)
  unfolding drop_pagedir
  drop_pagedir-Freed s t none e f = record {
    unlocked = f.unlocked;
    no_files = f.no_files;
    no_mappings = f.no_mappings;
    no_pages = f.no_pages;
    no_children = f.no_children;
    no_pagedir = e;
    parent = f.parent;
  }
  drop_pagedir-Freed s t (some pd) e f = record {
    unlocked = f.unlocked;
    no_files = f.no_files;
    no_mappings = f.no_mappings;
    no_pages = f.no_pages;
    no_children = f.no_children;
    no_pagedir = refl;
    parent = f.parent;
  }

  free_pages-Freed :
      (s t : Process W)
      → Unlocked k files t.maps.vm
      → t.maps.file_list ≡ []
      → t.family.child_list ≡ []
      → t.parent ≡ told s.cp s.parent_alive s.executable s.parent
      → Returns (Freed s) (free_pages k files calls t)
  unfolding free_pages
  free_pages-Freed s t h no_files no_children parent =
      Returns->>= _ (Freed s) (munmap k files close_all t.maps) _
        (munmap-removes k files close_all t.maps h)
        (λ m r.
          Returns->>= Emptied (Freed s) (page_table_rm k files calls m.vm) _
            (page_table_rm-Emptied m.vm r.0)
            (λ v e.
              drop_pagedir-Freed s (record t { maps = record m { vm = v } }) t.pagedir refl
                (record {
                  unlocked = e.0;
                  no_files = r.5 ∙ no_files;
                  no_mappings = r.1 ∙ others_of_all t.maps.mmap_list;
                  no_pages = e.1;
                  no_children = no_children;
                  no_pagedir = refl;
                  parent = parent;
                })))

  -- If neither lock is held, `process_exit` returns, with neither lock held. The process has nothing in
  -- `file_list`, no mappings, no pages in its page table, no children in its list and no page directory
  -- any more; and its entry in the list of its parent is marked as exited, with its semaphore up,
  -- exactly if it has one, the parent is alive and the process was loaded.
  pub process_exit-Freed :
      (s : Process W)
      → Unlocked k files s.maps.vm
      → Returns (Freed s) (process_exit k files calls s)
  unfolding process_exit remove_child_processes
  process_exit-Freed s h =
      Returns->>= (Closed s) (Freed s) (close_opened k files calls s) _ (close_opened-Closed s h)
        (λ a c.
          let b = record a { family = remove_child_processes a.family } in
          subst (λ t. Returns (Freed s) (free_pages k files calls t))
            (sym (tell_parent-told a.cp b))
            (free_pages-Freed s
              (record b { parent = told a.cp a.parent_alive a.executable a.parent }) c.unlocked
              c.no_files refl (rw (c.cp, c.parent_alive, c.executable, c.parent) refl)))
