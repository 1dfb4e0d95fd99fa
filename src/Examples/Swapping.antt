-- ===== src/Examples/Swapping.antt =====
-- The swap table of Project 3/vm/swap.c on a partition of two slots.
use comp_sys_pint_os.Base.{
  ℕ, ◌+◌, ◌%◌, ◌<◌, ◌≡◌, refl, Bool, true, false, if◌then◌else◌, ◌==◌, not, Option, none, some,
  Returns, arith,
}
use comp_sys_pint_os.Platform.{page_size}
use comp_sys_pint_os.Swap.{BlockDevice, Bitmap, Swap, swap_in, swap_out}
use comp_sys_pint_os.Swap.Laws.{IsBlockDevice, IsBitmap}
use comp_sys_pint_os.Swap.RoundTrip.{HasSlot, swap_out-swap_in}

-- Sixteen sectors; a byte is a function of the sector and the offset.
abbrev disk : BlockDevice (ℕ → ℕ → ℕ)
disk = record {
  block_size = λ d. 16;
  read = λ d t o. d t o;
  write = λ d t f u o. if t == u then f o else d u o;
}

disk-IsBlockDevice : IsBlockDevice disk
disk-IsBlockDevice = record {
  size_write = λ d t f. refl;
  read_write_self = λ d t o f h k. ground arith;
  read_write_ne = λ d t u o f ne. ground arith;
}

-- Two bits: the number of the map is in binary, 0 for both free. A scan takes the first free one.
abbrev flip : (ℕ → Bool) → ℕ → ℕ → Bool
flip b i j = if i == j then not (b j) else b j

abbrev scan : (ℕ → Bool) → Option ℕ × (ℕ → Bool)
scan b =
    if not (b 0) then (some 0, flip b 0) else if not (b 1) then (some 1, flip b 1) else (none, b)

abbrev two_bits : Bitmap (ℕ → Bool)
two_bits = record {
  bitmap_create = λ n. some (λ i. false);
  bitmap_set_all = λ b v i. v;
  bitmap_test = λ b i. b i;
  bitmap_flip = flip;
  bitmap_scan_and_flip = λ b start count v. scan b;
}

two_bits-IsBitmap : IsBitmap two_bits
two_bits-IsBitmap = record {
  test_flip_self = λ b i. ground arith;
  test_flip_ne = λ b i j ne. ground arith;
  scan_found = λ b i h. ground arith;
  scan_flips = λ b i h. ground arith;
}

-- Both slots free; then the first in use; then both.
abbrev none_used : ℕ → Bool
none_used i = false

abbrev one_used : ℕ → Bool
one_used i = i == 0

abbrev all_used : ℕ → Bool
all_used i = true

abbrev sectors : ℕ → ℕ → ℕ
sectors t o = t

abbrev machine : (ℕ → Bool) → Swap (ℕ → ℕ → ℕ) (ℕ → Bool)
machine b = record {
  swap_block = some sectors;
  swap_map = some b;
  swap_lock = false;
  memory = λ a. a % 256;
}

slot_1 :
    (b : ℕ → Bool)
    → HasSlot disk two_bits disk-IsBlockDevice two_bits-IsBitmap sectors b 1 (machine b)
slot_1 b = record { has_block = refl; has_map = refl; unlocked = refl; inside = omega arith }

slot_0 :
    (b : ℕ → Bool)
    → HasSlot disk two_bits disk-IsBlockDevice two_bits-IsBitmap sectors b 0 (machine b)
slot_0 b = record { has_block = refl; has_map = refl; unlocked = refl; inside = omega arith }

-- Out from 8192, and, with memory cleared in between, in to 4096.
swap_out-swap_in_example :
    Returns
      (λ r.
        Returns
          (λ t.
            ((k : ℕ) → k < page_size → t.memory (4096 + k) ≡ (machine one_used).memory (8192 + k))
            × ((c : ℕ → Bool) × (t.swap_map ≡ some c) × (c r.0 ≡ false)))
          (swap_in disk two_bits r.0 4096 (record r.1 { memory = λ a. 0 })))
      (swap_out disk two_bits 8192 (machine one_used))
swap_out-swap_in_example =
    swap_out-swap_in disk two_bits disk-IsBlockDevice two_bits-IsBitmap sectors one_used 1 8192 4096
      (machine one_used) (λ a. 0) (slot_1 one_used) refl
