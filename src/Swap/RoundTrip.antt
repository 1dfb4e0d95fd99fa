-- ===== src/Swap/RoundTrip.antt =====
-- What `swap_out` and `swap_in` of Project 3/vm/swap.c promise their callers.
use comp_sys_pint_os.Base.{
  ℕ, ◌+◌, ◌-◌, ◌*◌, ◌/◌, ◌%◌, ◌≤◌, ◌<◌, ◌≡◌, ◌≢◌, refl, sym, ap, ap₂, ◌∙◌, subst, Returns-assert,
  Returns-map, ◌⊎◌, arith, true, false, Option, none, some, Returns, not,
}
use comp_sys_pint_os.Platform.{page_size}
use comp_sys_pint_os.Swap.{
  BlockDevice, Bitmap, Swap, sector_size, sectors_per_page, swap_in, swap_in_slot, swap_in_with,
  swap_out, swap_out_slot, swap_out_with, write_sectors, read_sectors,
}
use comp_sys_pint_os.Swap.Laws.{IsBlockDevice, IsBitmap}
use comp_sys_pint_os.Swap.Transfer.{
  slot_byte, size-write_sectors, read-write_sectors, read-write_sectors_outside, read_sectors_lem,
}

module _ {D B : Type 0} (dev : BlockDevice D) (bits : Bitmap B) (lawful_dev : IsBlockDevice dev)
    (lawful_bits : IsBitmap bits) where
  -- The swap partition is there, the lock is free, and slot `i` lies inside the device.
  pub record HasSlot (d : D) (b : B) (i : ℕ) (s : Swap D B) : Type 0 where
    pub has_block : s.swap_block ≡ some d
    pub has_map : s.swap_map ≡ some b
    pub unlocked : s.swap_lock ≡ false
    pub inside : (i + 1) * sectors_per_page ≤ dev.block_size d

  -- After `swap_out` of the page at `frame` into slot `i`.
  pub record SwappedOut (d : D) (b : B) (i frame : ℕ) (s t : Swap D B) (d' : D) : Type 0 where
    pub block : t.swap_block ≡ some d'
    pub map : t.swap_map ≡ some (bits.bitmap_flip b i)
    pub was_free : bits.bitmap_test b i ≡ false
    pub released : t.swap_lock ≡ false
    pub memory : t.memory ≡ s.memory
    pub size : dev.block_size d' ≡ dev.block_size d
    pub stored : (k : ℕ) → k < page_size → slot_byte dev d' i k ≡ s.memory (frame + k)
    pub others : (j k : ℕ) → j ≢ i → k < page_size → slot_byte dev d' j k ≡ slot_byte dev d j k

  swap_out_slot_stores :
      (d : D) (b : B) (i frame : ℕ) (s : Swap D B) (r : Option ℕ × B)
      → HasSlot d b i s
      → r.0 ≡ some i
      → r.1 ≡ bits.bitmap_flip b i
      → bits.bitmap_test b i ≡ false
      → Returns
          (λ q. (q.0 ≡ i) × ((d' : D) × SwappedOut d b i frame s q.1 d'))
          (swap_out_slot dev bits d r frame s)
  unfolding swap_out_slot
  swap_out_slot_stores d b i frame s (none, b') h found flipped free = cc
  swap_out_slot_stores d b i frame s (some j, b') h found flipped free = (
    same,
    (
      d',
      record {
        block = refl;
        map = ap some flipped;
        was_free = free;
        released = refl;
        memory = refl;
        size = size-write_sectors dev lawful_dev sectors_per_page 0 d j frame s.memory;
        stored = λ k lt. rw (← same) (
            read-write_sectors dev lawful_dev sectors_per_page 0 d j frame s.memory
              (k / sector_size) (k % sector_size) (omega arith) (omega arith) (omega arith)
              (omega (arith, h.inside, same))
            ∙ ap s.memory (omega arith));
        others = λ l k ne lt.
            read-write_sectors_outside dev lawful_dev sectors_per_page 0 d j frame s.memory _ _
              (ground (arith, l≢i l ne));
      },
    ),
  )
    where
      same : j ≡ i
      same = cc

      d' : D
      d' = write_sectors dev sectors_per_page 0 d j frame s.memory

      l≢i : (l : ℕ) → l ≢ i → l ≢ j
      l≢i l ne = rw same ne

  -- If the bitmap finds a free slot inside the device, `swap_out` returns that slot; it was free and
  -- is now in use, it holds the page, every other slot keeps its bytes, memory is unchanged and the
  -- lock is free again.
  pub swap_out_stores :
      (d : D) (b : B) (i frame : ℕ) (s : Swap D B)
      → HasSlot d b i s
      → (bits.bitmap_scan_and_flip b 0 1 false).0 ≡ some i
      → Returns
          (λ r. (r.0 ≡ i) × ((d' : D) × SwappedOut d b i frame s r.1 d'))
          (swap_out dev bits frame s)
  unfolding swap_out swap_out_with
  swap_out_stores d b i frame s h found =
      subst (Returns _)
        (sym (ap₂ (λ x y. swap_out_with dev bits x y frame s) h.has_block h.has_map))
        (Returns-assert _ (not s.swap_lock) _ (ap not h.unlocked) (
          swap_out_slot_stores d b i frame s _ h found (lawful_bits.scan_flips b i found)
            (lawful_bits.scan_found b i found)))

  -- After `swap_in` of slot `i` to `frame`.
  pub record SwappedIn (d : D) (b : B) (i frame : ℕ) (s t : Swap D B) : Type 0 where
    pub block : t.swap_block ≡ some d
    pub map : t.swap_map ≡ some (bits.bitmap_flip b i)
    pub freed : bits.bitmap_test (bits.bitmap_flip b i) i ≡ false
    pub released : t.swap_lock ≡ false
    pub loaded : (k : ℕ) → k < page_size → t.memory (frame + k) ≡ slot_byte dev d i k
    pub outside : (a : ℕ) → (a < frame) ⊎ (frame + page_size ≤ a) → t.memory a ≡ s.memory a

  -- `swap_in` of a slot in use copies it to the frame, touches no other byte of memory and frees the
  -- slot.
  pub swap_in_loads :
      (d : D) (b : B) (i frame : ℕ) (s : Swap D B)
      → HasSlot d b i s
      → bits.bitmap_test b i ≡ true
      → Returns (SwappedIn d b i frame s) (swap_in dev bits i frame s)
  unfolding swap_in swap_in_with swap_in_slot
  swap_in_loads d b i frame s h used =
      subst (Returns _)
        (sym (ap₂ (λ x y. swap_in_with dev bits x y i frame s) h.has_block h.has_map))
        (Returns-assert _ (not s.swap_lock) _ (ap not h.unlocked)
          (Returns-assert _ (bits.bitmap_test b i) _ used result))
    where
      memory' : ℕ → ℕ
      memory' = read_sectors dev sectors_per_page 0 d i frame s.memory

      t : Swap D B
      t = record s { swap_map = some (bits.bitmap_flip b i); memory = memory'; swap_lock = false }

      result : SwappedIn d b i frame s t
      result = record {
        block = h.has_block;
        map = refl;
        freed = lawful_bits.test_flip_self b i ∙ ap not used;
        released = refl;
        loaded = λ k lt.
            let back : frame + k - frame ≡ k = omega arith in
            read_sectors_lem dev lawful_dev sectors_per_page 0 d i frame s.memory (frame + k)
            ∙ rw back (ground arith);
        outside = λ a out.
            read_sectors_lem dev lawful_dev sectors_per_page 0 d i frame s.memory a ∙ ground arith;
      }

  -- Round trip: with a free slot inside the device, `swap_out` of the page at `frame` returns a slot
  -- such that, whatever memory holds by then, `swap_in` of that slot to any frame returns, puts the
  -- bytes of the page there, and leaves the bitmap with that slot free.
  pub swap_out-swap_in :
      (d : D) (b : B) (i frame target : ℕ) (s : Swap D B) (memory' : ℕ → ℕ)
      → HasSlot d b i s
      → (bits.bitmap_scan_and_flip b 0 1 false).0 ≡ some i
      → Returns
          (λ r.
            Returns
              (λ t.
                ((k : ℕ) → k < page_size → t.memory (target + k) ≡ s.memory (frame + k))
                × ((c : B) × (t.swap_map ≡ some c) × (bits.bitmap_test c r.0 ≡ false)))
              (swap_in dev bits r.0 target (record r.1 { memory = memory' })))
          (swap_out dev bits frame s)
  swap_out-swap_in d b i frame target s memory' h found =
      Returns-map _ _ (swap_out dev bits frame s) (λ r q. back r.0 r.1 q.0 q.1.0 q.1.1)
        (swap_out_stores d b i frame s h found)
    where
      back :
          (j : ℕ) (u : Swap D B)
          → j ≡ i
          → (d' : D) → SwappedOut d b i frame s u d'
          → Returns
              (λ t.
                ((k : ℕ) → k < page_size → t.memory (target + k) ≡ s.memory (frame + k))
                × ((c : B) × (t.swap_map ≡ some c) × (bits.bitmap_test c j ≡ false)))
              (swap_in dev bits j target (record u { memory = memory' }))
      back j u e d' o = rw e (
          Returns-map _ _ (swap_in dev bits i target (record u { memory = memory' }))
            (λ t m. (
              λ k lt. m.loaded k lt ∙ o.stored k lt,
              (bits.bitmap_flip (bits.bitmap_flip b i) i, m.map, m.freed),
            ))
            (swap_in_loads d' (bits.bitmap_flip b i) i target (record u { memory = memory' })
              (record {
                has_block = o.block;
                has_map = o.map;
                unlocked = o.released;
                inside = omega (arith, o.size, h.inside);
              })
              (lawful_bits.test_flip_self b i ∙ ap not o.was_free)))
