-- ===== src/Mmap/Atomic.antt =====
-- `mmap` of Project 3/userprog/syscall.c: a mapping is made whole or not at all, and `munmap` undoes it.
use comp_sys_pint_os.Base.{
  ℕ, zero, suc, ◌+◌, ◌-◌, ◌*◌, ◌/◌, ◌≤◌, ◌<◌, ◌^◌, ◌≡◌, refl, ap, ◌∙◌, sym, subst, Bool, true,
  false, not, ◌||◌, ◌%◌, ◌==◌, ltb, if◌then◌else◌, List, [], ◌∷◌, Option, none, some, arith,
  Bool-cases, ◌⊎◌, inl, inr, All, Outcome, returns, ◌>>=◌, Returns, Returns->>=, Returns-map,
}
use comp_sys_pint_os.Platform.{Platform, page_size, u32}
use comp_sys_pint_os.Vm.{Spte, Kernel}
use comp_sys_pint_os.Vm.Fault.{user_vaddr_bottom}
use comp_sys_pint_os.Mmap.{
  MmapFile, MapFiles, Maps, error, with_world, add_mmap_page_tbl, munmap, after_add, map_pages,
  map_reopened, mmap_found, mmap, process_get_file,
}
use comp_sys_pint_os.Mmap.Removal.{covers, others, Unlocked, is_chosen, munmap-removes}
use comp_sys_pint_os.Mmap.Adding.{
  All-each, Allocates, Undoable, Fresh, Added, add_mmap_page_tbl-Added,
}

is_chosen_of_older :
    (n : ℕ) (mm : MmapFile) → n + 1 < 2 ^ 31 → mm.mapid ≤ n → is_chosen (n + 1) mm ≡ false
is_chosen_of_older n mm b h = ground arith

covers_of_older :
    (at : ℕ → Spte) (n : ℕ) (mms : List MmapFile) (va : ℕ)
    → n + 1 < 2 ^ 31
    → All (λ mm. mm.mapid ≤ n) mms
    → covers at (n + 1) mms va ≡ false
unfolding covers
covers_of_older at n [] va b h = refl
covers_of_older at n (mm ∷ mms) va b h =
    rw (is_chosen_of_older n mm b h.0, covers_of_older at n mms va b h.1) refl

others_of_older :
    (n : ℕ) (mms : List MmapFile)
    → n + 1 < 2 ^ 31
    → All (λ mm. mm.mapid ≤ n) mms
    → others (n + 1) mms ≡ mms
unfolding others
others_of_older n [] b h = refl
others_of_older n (mm ∷ mms) b h =
    rw (is_chosen_of_older n mm b h.0) (ap (λ l. mm ∷ l) (others_of_older n mms b h.1))

module _ {W : Type 0} (k : Kernel W) (files : MapFiles W) (InUse : W → ℕ → Type 0) where
  -- Both locks are free, no mapping has a number above the counter, and their entries are blocks
  -- in use.
  pub record IsValid (s : Maps W) : Type 0 where
    pub unlocked : Unlocked k files s.vm
    pub numbered : All (λ mm. mm.mapid ≤ s.mapid) s.mmap_list
    pub counter : s.mapid + 1 < 2 ^ 31
    pub fresh : All (λ mm. InUse s.vm.world mm.spte) s.mmap_list

  -- The page table and the list of mappings are those of `s`, and neither lock is held.
  pub record Restored (s t : Maps W) : Type 0 where
    pub unlocked : Unlocked k files t.vm
    pub listed : t.mmap_list ≡ s.mmap_list
    pub page_table : (va : ℕ) → t.vm.spt va ≡ s.vm.spt va

  -- `mmap` failed and left nothing behind, or what it made can be taken back.
  pub AllOrNothing : Maps W → ℕ × Maps W → Type 0
  AllOrNothing s (id, t) =
      ((id ≡ error) × Restored s t)
      ⊎ ((id ≡ s.mapid + 1)
          × (t.mapid ≡ s.mapid + 1)
          × Unlocked k files t.vm
          × Returns (Restored s) (munmap k files (s.mapid + 1) t))

  module _ (lawful : Allocates k InUse) (s : Maps W) (valid : IsValid s) where
    abbrev id : ℕ
    id = s.mapid + 1

    abbrev CanUndo : Maps W → Type 0
    CanUndo = Undoable k files InUse lawful id s.vm.spt s.mmap_list

    undo-Restored : (t : Maps W) → CanUndo t → Returns (Restored s) (munmap k files id t)
    undo-Restored t u =
        Returns-map _ (Restored s) (munmap k files id t)
          (λ v r. record {
            unlocked = r.0;
            listed = r.1 ∙ u.listed;
            page_table = λ va. r.2 va ∙ u.mapped va;
          })
          (munmap-removes k files id t u.unlocked)

    abbrev IsAdded : Bool × Maps W → Type 0
    IsAdded = Added k files InUse lawful id s.vm.spt s.mmap_list

    abbrev IsFresh : Maps W → Type 0
    IsFresh = Fresh k files InUse lawful id s.vm.spt s.mmap_list

    failed-AllOrNothing :
        (t : Maps W)
        → CanUndo t
        → Returns (AllOrNothing s) (munmap k files t.mapid t >>= λ v. returns (error, v))
    unfolding AllOrNothing
    failed-AllOrNothing t u =
        subst (λ n. Returns (AllOrNothing s) (munmap k files n t >>= λ v. returns (error, v)))
          (sym u.counted)
          (Returns->>= (Restored s) (AllOrNothing s) (munmap k files id t) _ (undo-Restored t u)
            (λ v r. inl (refl, r)))

    after_add-AllOrNothing :
        (r : Bool × Maps W) (rest : Outcome (ℕ × Maps W))
        → IsAdded r
        → (CanUndo (r.1) → IsFresh (r.1) → Returns (AllOrNothing s) rest)
        → Returns (AllOrNothing s) (after_add k files r rest)
    unfolding after_add
    after_add-AllOrNothing (true, t) rest a next = next a.0 (a.1 refl)
    after_add-AllOrNothing (false, t) rest a next = failed-AllOrNothing t a.0

    map_pages-AllOrNothing :
        (fuel file ofs addr read_bytes : ℕ) (t : Maps W)
        → read_bytes + page_size ≤ page_size * fuel
        → CanUndo t
        → IsFresh t
        → Returns (AllOrNothing s) (map_pages k files fuel file ofs addr read_bytes t)
    unfolding map_pages AllOrNothing
    map_pages-AllOrNothing zero file ofs addr read_bytes t f u h = absurd (omega arith)
    map_pages-AllOrNothing (suc fuel) file ofs addr read_bytes t f u h =
        elim (Bool-cases (ltb 0 read_bytes)) [
          | inl more ↦ rw more (
              after_add-AllOrNothing added _
                (add_mmap_page_tbl-Added k files InUse lawful id s.vm.spt s.mmap_list file ofs addr
                  page_read (page_size - page_read) t u h)
                (λ v g.
                  map_pages-AllOrNothing fuel file (u32 (ofs + page_read)) (u32 (addr + page_size))
                    (read_bytes - page_read) (added.1) (ground arith) v g))
          | inr done ↦ rw done (inr (u.counted, u.counted, u.unlocked, undo-Restored t u))
        ]
      where
        page_read : ℕ
        page_read = if ltb read_bytes page_size then read_bytes else page_size

        added : Bool × Maps W
        added = add_mmap_page_tbl k files file ofs addr page_read (page_size - page_read) t

    unchanged : (w : W) → Restored s (with_world k files w s)
    unchanged w = record { unlocked = valid.unlocked; listed = refl; page_table = λ va. refl }

    started-CanUndo : (w : W) → CanUndo (record (with_world k files w s) { mapid = id })
    started-CanUndo w = record {
      unlocked = valid.unlocked;
      counted = refl;
      listed = others_of_older s.mapid s.mmap_list valid.counter valid.numbered;
      mapped = λ va.
          rw (covers_of_older s.vm.spte_at s.mapid s.mmap_list va valid.counter valid.numbered)
            refl;
    }

    module _
        (reopens : (f : ℕ) (w : W) (q : ℕ) → InUse w q → InUse (files.file_reopen f w).1 q) where
      map_reopened-AllOrNothing :
          (old_file addr : ℕ) (m : Option ℕ × W)
          → ((q : ℕ) → InUse s.vm.world q → InUse (m.1) q)
          → Returns (AllOrNothing s) (map_reopened k files old_file addr m s)
      unfolding map_reopened AllOrNothing
      map_reopened-AllOrNothing old_file addr (none, w) keeps = inl (refl, unchanged w)
      map_reopened-AllOrNothing old_file addr (some file, w) keeps =
          elim (Bool-cases (files.file_length w old_file == 0)) [
            | inl empty ↦ rw empty (inl (refl, unchanged w))
            | inr filled ↦
                rw (filled, in_range)
                  (map_pages-AllOrNothing (u32 (files.file_length w file) / page_size + 2) file 0
                    addr (u32 (files.file_length w file))
                    (record (with_world k files w s) { mapid = id }) (omega arith)
                    (started-CanUndo w)
                    (All-each _ _ s.mmap_list (λ mm. keeps mm.spte) valid.fresh))
          ]
        where
          in_range : (s.mapid + 1) % 2 ^ 32 ≡ s.mapid + 1
          in_range = omega (arith, valid.counter)

      mmap_found-AllOrNothing :
          (pf : Platform) (o : Option ℕ) (addr : ℕ)
          → Returns (AllOrNothing s) (mmap_found k files pf o addr s)
      unfolding mmap_found AllOrNothing
      mmap_found-AllOrNothing pf none addr = inl (refl, unchanged s.vm.world)
      mmap_found-AllOrNothing pf (some old_file) addr =
          elim (Bool-cases (
            not (pf.is_user_vaddr addr)
            || ltb addr user_vaddr_bottom
            || not (addr % page_size == 0))) [
              | inl refused ↦ rw refused (inl (refl, unchanged s.vm.world))
              | inr allowed ↦ rw allowed (
                  map_reopened-AllOrNothing old_file addr (files.file_reopen old_file s.vm.world)
                    (reopens old_file s.vm.world))
            ]

  -- If the state is valid, `malloc` gives out blocks that are not in use, and `file_reopen` frees
  -- none, then `mmap` returns for every descriptor and address. Either it returns ERROR, with the page
  -- table and the list of mappings as they were and neither lock held; or it returns the next number,
  -- with neither lock held, and `munmap` of that number returns and restores both.
  pub mmap-AllOrNothing :
      (lawful : Allocates k InUse) (s : Maps W) (pf : Platform) (fd addr : ℕ)
      → IsValid s
      → ((f : ℕ) (w : W) (q : ℕ) → InUse w q → InUse (files.file_reopen f w).1 q)
      → Returns (AllOrNothing s) (mmap k files pf fd addr s)
  unfolding mmap
  mmap-AllOrNothing lawful s pf fd addr valid reopens =
      mmap_found-AllOrNothing lawful s valid reopens pf (process_get_file k files fd s) addr
