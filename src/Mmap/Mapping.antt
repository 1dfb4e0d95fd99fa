-- ===== src/Mmap/Mapping.antt =====
-- The loop of `mmap` of Project 3/userprog/syscall.c, and the page table that it makes.
use comp_sys_pint_os.Base.{
  ℕ, zero, suc, ◌+◌, ◌-◌, ◌*◌, ◌/◌, ◌≤◌, ◌<◌, ◌^◌, ◌≡◌, ◌≢◌, refl, subst, true, false, not, ◌||◌,
  ◌%◌, ◌==◌, ltb, none, some, min, arith, ==_ne, Returns, Returns-map,
}
use comp_sys_pint_os.Platform.{Platform, page_size, u32}
use comp_sys_pint_os.Vm.{Kernel}
use comp_sys_pint_os.Vm.Fault.{user_vaddr_bottom}
use comp_sys_pint_os.Mmap.{
  MapFiles, Maps, with_world, map_pages, map_reopened, mmap_found, mmap, process_get_file,
}
use comp_sys_pint_os.Mmap.Adding.{Allocates}
use comp_sys_pint_os.Mmap.Pages.{
  MapsPage, with_page, add_mmap_page_tbl_adds, Filled, map_pages-suc, step-Filled, MapsPage-cong,
}

module _ {W : Type 0} (k : Kernel W) (files : MapFiles W) (InUse : W → ℕ → Type 0) where
  module _ (lawful : Allocates k InUse)
      (allocates : (w : W) → (p : ℕ) × (v : W) × (k.malloc w ≡ (some p, v))) where
    map_pages-Filled :
        (fuel file ofs addr read_bytes : ℕ) (t : Maps W)
        → read_bytes + page_size ≤ page_size * fuel
        → ofs + read_bytes < 2 ^ 32
        → (0 < read_bytes → addr + read_bytes + page_size ≤ 2 ^ 32)
        → ((j : ℕ) → page_size * j < read_bytes → t.vm.spt (addr + page_size * j) ≡ none)
        → Returns
            (Filled k files InUse lawful allocates file ofs addr read_bytes t)
            (map_pages k files fuel file ofs addr read_bytes t)
    map_pages-Filled zero file ofs addr read_bytes t f of af free = absurd (omega arith)
    map_pages-Filled (suc fuel) file ofs addr zero t f of af free =
        unfold map_pages in
        record {
          number = refl;
          kept = λ va q m i. (m, refl);
          pages = λ j lt. absurd (omega arith);
          elsewhere = λ va out. refl;
        }
    map_pages-Filled (suc fuel) file ofs addr (suc rest) t f of af free =
        rw
          (map_pages-suc k files InUse lawful allocates fuel file ofs addr (suc rest) t next
            (omega arith)
            (add_mmap_page_tbl_adds k files InUse file ofs addr (min (suc rest) page_size) a.0 b.0
              a.1 b.1 t a.2 b.2 absent))
          (Returns-map _ _ _
            (step-Filled k files InUse lawful allocates fuel file ofs addr (suc rest) t a.0 b.0 a.1
              b.1 a.2 b.2 (omega arith) absent of (af (omega arith)))
            (map_pages-Filled fuel file _ _ (suc rest - min (suc rest) page_size) next (omega arith)
              (omega arith) (λ m. omega (arith, af (omega arith))) (λ j lt. later j lt)))
      where
        a : (p : ℕ) × (v : W) × (k.malloc t.vm.world ≡ (some p, v))
        a = allocates t.vm.world

        b : (p : ℕ) × (v : W) × (k.malloc a.1 ≡ (some p, v))
        b = allocates a.1

        absent : t.vm.spt addr ≡ none
        absent = subst (λ x. t.vm.spt x ≡ none) (omega arith) (free 0 (omega arith))

        next : Maps W
        next = with_page k files InUse a.0 b.0 b.1 file ofs addr (min (suc rest) page_size) t

        later :
            (j : ℕ)
            → page_size * j < suc rest - min (suc rest) page_size
            → next.vm.spt (u32 (addr + page_size) + page_size * j) ≡ none
        later j lt =
            subst (λ x. next.vm.spt x ≡ none) at
              (rw (==_ne addr (addr + page_size * suc j) (λ e. omega (arith, e)))
                (free (suc j) (omega arith)))
          where
            at : addr + page_size * suc j ≡ u32 (addr + page_size) + page_size * j
            at = omega (arith, af (omega arith))

    -- If `malloc` always succeeds, with blocks that are not in use, the descriptor has a file that is
    -- not empty and can be opened again, the address is a user address of a page from
    -- USER_VADDR_BOTTOM on, the mapping ends at least a page below 2 ^ 32, and none of its pages is in
    -- the page table, then `mmap` returns the next number. The page with number `j` then reads the
    -- bytes of the file from `page_size * j` on, up to a page, with zeros after them, for each page
    -- that begins within the file; every other address has the entry that it had.
    pub mmap-maps :
        (s : Maps W) (pf : Platform) (fd addr old_file file : ℕ) (w : W)
        → process_get_file k files fd s ≡ some old_file
        → files.file_reopen old_file s.vm.world ≡ (some file, w)
        → (files.file_length w old_file == 0) ≡ false
        → pf.is_user_vaddr addr ≡ true
        → user_vaddr_bottom ≤ addr
        → addr % page_size ≡ 0
        → addr + files.file_length w file + page_size ≤ 2 ^ 32
        → ((j : ℕ)
            → page_size * j < files.file_length w file
            → s.vm.spt (addr + page_size * j) ≡ none)
        → Returns
            (λ r.
              (r.0 ≡ (s.mapid + 1) % 2 ^ 32)
              × ((j : ℕ)
                  → page_size * j < files.file_length w file
                  → MapsPage k files InUse file
                      (page_size * j)
                      (addr + page_size * j)
                      (min (files.file_length w file - page_size * j) page_size)
                      r.1)
              × ((va : ℕ)
                  → ((j : ℕ) → page_size * j < files.file_length w file → addr + page_size * j ≢ va)
                  → r.1.vm.spt va ≡ s.vm.spt va))
            (mmap k files pf fd addr s)
    unfolding mmap mmap_found map_reopened
    mmap-maps s pf fd addr old_file file w found reopened filled user above aligned fits free =
        rw (found, allowed, reopened, filled)
          (Returns-map (Filled k files InUse lawful allocates file 0 addr (u32 length) started) _ _
            (λ r h. (
              h.number,
              (λ j lt.
                  MapsPage-cong k files InUse lawful allocates file r.1 (omega arith) (omega arith)
                    (omega arith) (h.pages j (omega arith))),
              (λ va out. h.elsewhere va (λ j lt. out j (omega arith))),
            ))
            (map_pages-Filled (u32 length / page_size + 2) file 0 addr (u32 length) started
              (omega arith) (omega arith) (λ m. omega arith) (λ j lt. free j (omega arith))))
      where
        length : ℕ
        length = files.file_length w file

        allowed :
            (not (pf.is_user_vaddr addr)
              || ltb addr user_vaddr_bottom
              || not (addr % page_size == 0))
            ≡ false
        allowed = ground arith

        started : Maps W
        started = record (with_world k files w s) { mapid = (s.mapid + 1) % 2 ^ 32 }
