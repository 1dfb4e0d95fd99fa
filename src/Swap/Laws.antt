-- ===== src/Swap/Laws.antt =====
-- What Project 3/vm/swap.c relies on of the block device and the bitmap: their documented behaviour.
use comp_sys_pint_os.Base.{ℕ, ◌<◌, ◌≡◌, ◌≢◌, false, not, some}
use comp_sys_pint_os.Swap.{BlockDevice, Bitmap, sector_size}

pub record IsBlockDevice {D : Type 0} (dev : BlockDevice D) : Type 0 where
  pub size_write : (d : D) (t : ℕ) (f : ℕ → ℕ) → dev.block_size (dev.write d t f) ≡ dev.block_size d
  pub read_write_self :
      (d : D) (t o : ℕ) (f : ℕ → ℕ)
      → t < dev.block_size d
      → o < sector_size
      → dev.read (dev.write d t f) t o ≡ f o
  pub read_write_ne :
      (d : D) (t u o : ℕ) (f : ℕ → ℕ) → t ≢ u → dev.read (dev.write d t f) u o ≡ dev.read d u o

pub record IsBitmap {B : Type 0} (bits : Bitmap B) : Type 0 where
  pub test_flip_self :
      (b : B) (i : ℕ) → bits.bitmap_test (bits.bitmap_flip b i) i ≡ not (bits.bitmap_test b i)
  pub test_flip_ne :
      (b : B) (i j : ℕ) → i ≢ j → bits.bitmap_test (bits.bitmap_flip b i) j ≡ bits.bitmap_test b j
  pub scan_found :
      (b : B) (i : ℕ)
      → (bits.bitmap_scan_and_flip b 0 1 false).0 ≡ some i
      → bits.bitmap_test b i ≡ false
  pub scan_flips :
      (b : B) (i : ℕ)
      → (bits.bitmap_scan_and_flip b 0 1 false).0 ≡ some i
      → (bits.bitmap_scan_and_flip b 0 1 false).1 ≡ bits.bitmap_flip b i
