-- ===== src/Vm/Unload.antt =====
-- What an eviction of Project 3/vm/frame.c leaves behind.
use comp_sys_pint_os.Base.{
  ℕ, ◌≡◌, refl, Bool, true, false, returns, arith, Bool-cases, ap, ◌||◌, ◌==◌, Returns, Returns->>=,
  Returns-map, Returns-assert, not, inl, inr, ◌++◌, ◌⊎◌, sym, subst, if_true, if_false, Outcome,
  panic, stuck, ◌>>=◌, SameFailure, SameFailure->>=,
}
use comp_sys_pint_os.Vm.{Spte, FrameEntry, Flags, Kernel, Vm, is_swap, is_mmap}
use comp_sys_pint_os.Vm.Evict.{ClearsAccessed, In, pinned_in, Evicts, evict_frame-Evicts, at}
use comp_sys_pint_os.Vm.Frame.{list_remove, swapped, write_back, unload, evict_entry, evict_frame}

module _ {W : Type 0} (k : Kernel W) (lawful : ClearsAccessed k) (flags : Flags) where
  -- What an eviction of `x` leaves behind.
  pub record Evicted (x : FrameEntry) (s t : Vm W) : Type 0 where
    pub removed : t.frame_tbl_list ≡ list_remove x.elem s.frame_tbl_list
    pub unloaded : (t.spte_at x.spte).is_loaded ≡ false
    pub still_locked : t.frame_tbl_lock ≡ s.frame_tbl_lock
    pub file_unlocked : t.file_lock ≡ false
    pub page_table : t.spt ≡ s.spt
    pub elsewhere : (p : ℕ) → (p == x.spte) ≡ false → t.spte_at p ≡ s.spte_at p

  abbrev WroteBack : FrameEntry → Vm W → Vm W → Type 0
  WroteBack x s t =
      (t.frame_tbl_list ≡ s.frame_tbl_list)
      × (t.frame_tbl_lock ≡ s.frame_tbl_lock)
      × (t.file_lock ≡ false)
      × (t.spt ≡ s.spt)
      × ((p : ℕ) → (p == x.spte) ≡ false → t.spte_at p ≡ s.spte_at p)

  -- The outcome is that of `swap_out` of the frame of `x` in some world, where it panics or is
  -- undefined.
  abbrev pub SwapFails {ℓ} : {A : Type ℓ} → FrameEntry → Outcome A → Type ℓ
  SwapFails x o = (w : W) × SameFailure (k.swap_out x.frame w) o

  abbrev Ends {ℓ} : {A : Type ℓ} → FrameEntry → (A → Type 0) → Outcome A → Type ℓ
  Ends x P o = Returns P o ⊎ SwapFails x o

  write_back-WroteBack :
      (x : FrameEntry) (s : Vm W) → s.file_lock ≡ false → Ends x (WroteBack x s) (write_back k x s)
  unfolding write_back
  write_back-WroteBack x s free = elim (Bool-cases written) [
    | inl yes_written ↦
        subst (Ends x (WroteBack x s)) (sym (if_true _ _ _ yes_written))
          (elim (Bool-cases (is_mmap p.type)) [
            | inl mapped ↦ subst (Ends x (WroteBack x s)) (sym (if_true _ _ _ mapped)) (
                inl (
                  Returns-assert (WroteBack x s) (not s.file_lock) _ (ap not free)
                    (refl, refl, free, refl, λ q ne. refl)))
            | inr anonymous ↦
                subst (Ends x (WroteBack x s)) (sym (if_false _ _ _ anonymous))
                  (swap (k.swap_out x.frame s.world) refl)
          ])
    | inr clean ↦
        subst (Ends x (WroteBack x s)) (sym (if_false _ _ _ clean))
          (inl (refl, refl, free, refl, λ q ne. refl))
  ]
    where
      swap :
          (m : Outcome (ℕ × W))
          → k.swap_out x.frame s.world ≡ m
          → Ends x (WroteBack x s) (m >>= λ r. returns (swapped k x s r))
      swap (returns r) e = inl (refl, refl, free, refl, λ q ne. ground arith)
      swap panic e = inr (s.world, inl (e, refl))
      swap stuck e = inr (s.world, inr (e, refl))

      p : Spte
      p = s.spte_at x.spte

      written : Bool
      written = k.pagedir_is_dirty s.world x.thread p.unused_virtual_address || is_swap p.type

  evict_entry-Evicted :
      (x : FrameEntry) (s : Vm W)
      → s.file_lock ≡ false
      → Ends x (λ r. Evicted x s r.1) (evict_entry k flags x s)
  unfolding evict_entry unload
  evict_entry-Evicted x s free = elim (write_back-WroteBack x s free) [
    | inr (w, fails) ↦ inr (w, SameFailure->>= (k.swap_out x.frame w) (write_back k x s) _ fails)
    | inl wrote ↦ inl (
        Returns->>= (WroteBack x s) _ (write_back k x s) _ wrote λ t h. record {
          removed = ap (list_remove x.elem) h.0;
          unloaded = ground arith;
          still_locked = h.1;
          file_unlocked = h.2;
          page_table = h.3;
          elsewhere = λ p ne. ground (arith, h.4 p);
        })
  ]

  -- If the frame table's lock and the file system's are free and some entry of the table is not pinned,
  -- then `evict_frame` has chosen an entry of the table that is not pinned, and it returns with the
  -- frame table's lock held: it has removed that entry; its page is no longer loaded; the entries of the
  -- other pages, the page table and the file system's lock are as they were. Or `swap_out` of the frame
  -- of that entry panics or is undefined, and so is `evict_frame`.
  pub evict_frame-Returns :
      (s : Vm W) (x : FrameEntry)
      → s.frame_tbl_lock ≡ false
      → s.file_lock ≡ false
      → In x s.frame_tbl_list
      → pinned_in k lawful flags s x ≡ false
      → (y : FrameEntry) × In y s.frame_tbl_list
        × (pinned_in k lawful flags s y ≡ false)
        × (Returns
              (λ r.
                (r.1.frame_tbl_lock ≡ true) × Evicted y (record s { frame_tbl_lock = true }) r.1)
              (evict_frame k flags s)
            ⊎ SwapFails y (evict_frame k flags s))
  evict_frame-Returns s x free file_free listed unpinned = (
    found.victim,
    found.listed,
    found.unpinned,
    subst
        (λ o.
          Returns (λ r. (r.1.frame_tbl_lock ≡ true) × Evicted found.victim locked r.1) o
          ⊎ SwapFails found.victim o)
        (sym found.evicted)
        (elim (evict_entry-Evicted found.victim there file_free) [
          | inr fails ↦ inr fails
          | inl evicted ↦ inl (
              Returns-map _ _ (evict_entry k flags found.victim there)
                (λ r h. (
                  h.still_locked,
                  record {
                    removed = h.removed;
                    unloaded = h.unloaded;
                    still_locked = h.still_locked;
                    file_unlocked = h.file_unlocked;
                    page_table = h.page_table;
                    elsewhere = h.elsewhere;
                  },
                ))
                evicted)
        ]),
  )
    where
      locked : Vm W
      locked = record s { frame_tbl_lock = true }

      found :
          Evicts k lawful flags
            (s.frame_tbl_list ++ s.frame_tbl_list)
            s.frame_tbl_list
            locked
            s.world
            (evict_frame k flags s)
      found = evict_frame-Evicts k lawful flags s x free listed unpinned

      there : Vm W
      there = at k lawful flags locked found.after
