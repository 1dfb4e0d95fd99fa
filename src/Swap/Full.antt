-- ===== src/Swap/Full.antt =====
-- When `swap_out` of Project 3/vm/swap.c panics the kernel.
use comp_sys_pint_os.Base.{◌≡◌, ◌⊎◌, false, none, some}
use comp_sys_pint_os.Swap.{BlockDevice, Bitmap, Swap}

module _ {D B : Type 0} (dev : BlockDevice D) (bits : Bitmap B) where
  -- There is nowhere to swap out to.
  abbrev pub NoSlot : Swap D B → Type 0
  NoSlot s =
      (s.swap_block ≡ none)
      ⊎ ((s.swap_map ≡ none)
          ⊎ ((b : B) × (s.swap_map ≡ some b) × ((bits.bitmap_scan_and_flip b 0 1 false).0 ≡ none)))
