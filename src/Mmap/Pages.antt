-- ===== src/Mmap/Pages.antt =====
-- The page table that `mmap` of Project 3/userprog/syscall.c makes, where nothing stands in its way.
use comp_sys_pint_os.Base.{
  ℕ, zero, suc, ◌+◌, ◌-◌, ◌*◌, ◌≤◌, ◌<◌, ◌^◌, ◌≡◌, ◌≢◌, refl, ap, ◌∙◌, sym, subst, true, ltb,
  if◌then◌else◌, [], ◌∷◌, ◌++◌, none, some, min, arith, update, ==_refl, ==_ne, ℕ_discrete,
}
use comp_sys_pint_os.Platform.{page_size, u32}
use comp_sys_pint_os.Vm.{Spte, Kernel, Vm}
use comp_sys_pint_os.Mmap.{
  MapFiles, Maps, mmap_entry, add_mmap, process_add_mmap, mark_inserted, add_listed, add_mmap_at,
  add_mmap_page_tbl, after_add, map_pages,
}
use comp_sys_pint_os.Mmap.Adding.{Allocates, hash_insert-absent}

module _ {W : Type 0} (k : Kernel W) (files : MapFiles W) (InUse : W → ℕ → Type 0) where
  -- The page `va` reads `count` bytes of the file from `ofs` on, and zeros after them.
  pub record MapsPage (file ofs va count : ℕ) (t : Maps W) : Type 0 where
    pub entry : ℕ
    pub in_table : t.vm.spt va ≡ some entry
    pub contents :
        t.vm.spte_at entry
        ≡ mmap_entry file ofs va count (page_size - count) (t.vm.spte_at entry).swap_index

  -- The state once an entry has been added, at the block `p`, with its node at `mm`.
  abbrev pub with_page : ℕ → ℕ → W → ℕ → ℕ → ℕ → ℕ → Maps W → Maps W
  with_page p mm w file ofs va count s = record s {
    vm = record s.vm {
      spte_at =
          update s.vm.spte_at p
            (mmap_entry file ofs va count (page_size - count) (s.vm.spte_at p).swap_index);
      spt = update s.vm.spt va (some p);
      world = w;
    };
    mmap_list = s.mmap_list ++ record { elem = mm; spte = p; mapid = s.mapid } ∷ [];
  }

  pub add_mmap_page_tbl_adds :
      (file ofs va count p mm : ℕ) (v w : W) (s : Maps W)
      → k.malloc s.vm.world ≡ (some p, v)
      → k.malloc v ≡ (some mm, w)
      → s.vm.spt va ≡ none
      → add_mmap_page_tbl k files file ofs va count (page_size - count) s
        ≡ (true, with_page p mm w file ofs va count s)
  unfolding add_mmap_page_tbl add_mmap_at process_add_mmap add_mmap add_listed mark_inserted
  add_mmap_page_tbl_adds file ofs va count p mm v w s e f free =
      rw (e, f, hash_insert-absent k p va entered (rw (==_refl p) refl) free) refl
    where
      entered : Vm W
      entered = record s.vm {
        spte_at =
            update s.vm.spte_at p
              (mmap_entry file ofs va count (page_size - count) (s.vm.spte_at p).swap_index);
        world = w;
      }

  module _ (lawful : Allocates k InUse)
      (allocates : (w : W) → (p : ℕ) × (v : W) × (k.malloc w ≡ (some p, v))) where
    -- What the loop has done once it returns: it has mapped the pages and kept the others.
    pub record Filled (file ofs addr read_bytes : ℕ) (t : Maps W) (r : ℕ × Maps W) : Type 0 where
      pub number : r.0 ≡ t.mapid
      pub kept :
          (va p : ℕ)
          → t.vm.spt va ≡ some p
          → InUse t.vm.world p
          → (r.1.vm.spt va ≡ some p) × (r.1.vm.spte_at p ≡ t.vm.spte_at p)
      pub pages :
          (j : ℕ)
          → page_size * j < read_bytes
          → MapsPage file
              (ofs + page_size * j)
              (addr + page_size * j)
              (min (read_bytes - page_size * j) page_size)
              r.1
      pub elsewhere :
          (va : ℕ)
          → ((j : ℕ) → page_size * j < read_bytes → addr + page_size * j ≢ va)
          → r.1.vm.spt va ≡ t.vm.spt va

    pub map_pages-suc :
        (fuel file ofs addr read_bytes : ℕ) (t u : Maps W)
        → 0 < read_bytes
        → add_mmap_page_tbl k files file ofs addr
            (min read_bytes page_size)
            (page_size - min read_bytes page_size)
            t
          ≡ (true, u)
        → map_pages k files (suc fuel) file ofs addr read_bytes t
          ≡ map_pages k files fuel file
              (u32 (ofs + min read_bytes page_size))
              (u32 (addr + page_size))
              (read_bytes - min read_bytes page_size)
              u
    unfolding map_pages after_add
    map_pages-suc fuel file ofs addr read_bytes t u h e = rw (more, picked, e) refl
      where
        picked :
            (if ltb read_bytes page_size then read_bytes else page_size) ≡ min read_bytes page_size
        picked = ground arith

        more : ltb 0 read_bytes ≡ true
        more = ground arith

    pub MapsPage-cong :
        (file : ℕ) {o o' a a' c c' : ℕ} (t : Maps W)
        → o ≡ o'
        → a ≡ a'
        → c ≡ c'
        → MapsPage file o a c t
        → MapsPage file o' a' c' t
    MapsPage-cong file {o} {o'} {a} {a'} {c} {c'} t p q r h =
        subst (λ x. MapsPage file x a' c' t) p
          (subst (λ x. MapsPage file o x c' t) q (subst (λ x. MapsPage file o a x t) r h))

    module _ (fuel file ofs addr read_bytes : ℕ) (t : Maps W) (p mm : ℕ) (v w : W)
        (first : k.malloc t.vm.world ≡ (some p, v)) (second : k.malloc v ≡ (some mm, w))
        (more : 0 < read_bytes) (absent : t.vm.spt addr ≡ none)
        (ofs_fits : ofs + read_bytes < 2 ^ 32)
        (addr_fits : addr + read_bytes + page_size ≤ 2 ^ 32) where
      abbrev count : ℕ
      count = min read_bytes page_size

      abbrev next : Maps W
      next = with_page p mm w file ofs addr count t

      pub step-Filled :
          (r : ℕ × Maps W)
          → Filled file (u32 (ofs + count)) (u32 (addr + page_size)) (read_bytes - count) next r
          → Filled file ofs addr read_bytes t r
      step-Filled r h = record {
        number = h.number;
        kept = λ va q m i.
            let apart = lawful.fresh t.vm.world v p q first i in
            let (still, same) =
              h.kept va q (table_kept va q m) (
                lawful.kept v w (some mm) q second (lawful.kept t.vm.world v (some p) q first i)) in
            (still, same ∙ (rw apart refl));
        pages = λ j lt. page j lt;
        elsewhere = λ va out.
            h.elsewhere va (λ j lt e. out (suc j) (omega arith) (omega (arith, e)))
            ∙ rw (==_ne addr va (λ e. out 0 (omega arith) (omega (arith, e)))) refl;
      }
        where
          table_kept : (va q : ℕ) → t.vm.spt va ≡ some q → next.vm.spt va ≡ some q
          table_kept va q m = elim (ℕ_discrete addr va) [
            | yes e ↦ absurd cc
            | no ne ↦ rw (==_ne addr va ne) m
          ]

          in_next : next.vm.spt addr ≡ some p
          in_next = rw (==_refl addr) refl

          found : (r.1.vm.spt addr ≡ some p) × (r.1.vm.spte_at p ≡ next.vm.spte_at p)
          found =
              h.kept addr p in_next
                (lawful.kept v w (some mm) p second (lawful.taken t.vm.world v p first))

          entry_at : ℕ → Spte
          entry_at = mmap_entry file ofs addr count (page_size - count)

          written : r.1.vm.spte_at p ≡ entry_at (t.vm.spte_at p).swap_index
          written = found.1 ∙ rw (==_refl p) refl

          contents : r.1.vm.spte_at p ≡ entry_at (r.1.vm.spte_at p).swap_index
          contents = written ∙ ap entry_at (sym (ap (λ (e : Spte). e.swap_index) written))

          first_page : MapsPage file ofs addr count r.1
          first_page = record { entry = p; in_table = found.0; contents = contents }

          page :
              (j : ℕ)
              → page_size * j < read_bytes
              → MapsPage file
                  (ofs + page_size * j)
                  (addr + page_size * j)
                  (min (read_bytes - page_size * j) page_size)
                  r.1
          page zero lt = MapsPage-cong file r.1 (omega arith) (omega arith) (omega arith) first_page
          page (suc j) lt =
              MapsPage-cong file r.1 (omega arith) (omega arith) (omega arith)
                (h.pages j (omega arith))
