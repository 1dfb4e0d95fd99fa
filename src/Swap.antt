-- ===== src/Swap.antt =====
-- Project 3/vm/swap.c: the swap table. The block device and the bitmap are kernel libraries; their
-- operations are the arguments `BlockDevice` and `Bitmap`. A kernel address is a number.
pub mod Laws
pub mod Transfer
pub mod RoundTrip
pub mod Full
use comp_sys_pint_os.Base.{
  ℕ, zero, suc, ◌+◌, ◌-◌, ◌*◌, ◌/◌, Bool, true, false, ltb, leb, if◌then◌else◌, not, ◌&&◌, Option,
  none, some, Outcome, returns, panic, ◌>>=◌, ◌>>◌, assert,
}
use comp_sys_pint_os.Platform.{page_size}

-- BLOCK_SECTOR_SIZE of devices/block.h
abbrev pub sector_size : ℕ
sector_size = 512

abbrev pub sectors_per_page : ℕ
sectors_per_page = page_size / sector_size

abbrev pub swap_free : Bool
swap_free = false

-- devices/block.h: `read d t o` is the byte at offset `o` of sector `t`; `write d t f` stores the
-- bytes `f o`.
pub record BlockDevice (D : Type 0) : Type 0 where
  pub block_size : D → ℕ
  pub read : D → ℕ → ℕ → ℕ
  pub write : D → ℕ → (ℕ → ℕ) → D

-- lib/kernel/bitmap.h; `none` is a failed allocation, or BITMAP_ERROR.
pub record Bitmap (B : Type 0) : Type 0 where
  pub bitmap_create : ℕ → Option B
  pub bitmap_set_all : B → Bool → B
  pub bitmap_test : B → ℕ → Bool
  pub bitmap_flip : B → ℕ → B
  pub bitmap_scan_and_flip : B → ℕ → ℕ → Bool → Option ℕ × B

-- The globals of swap.h, and kernel memory.
pub record Swap (D B : Type 0) : Type 0 where
  pub swap_block : Option D
  pub swap_map : Option B
  pub swap_lock : Bool
  pub memory : ℕ → ℕ

module _ {D : Type 0} (dev : BlockDevice D) where
  -- `block_read` of sector `t` into memory at `buffer`.
  unfoldable pub block_read : D → ℕ → ℕ → (ℕ → ℕ) → ℕ → ℕ
  block_read d t buffer memory a =
      if leb buffer a && ltb a (buffer + sector_size) then dev.read d t (a - buffer) else memory a

  -- The loop of `swap_in`, from round `i` on, with `left` rounds left.
  unfoldable pub read_sectors : ℕ → ℕ → D → ℕ → ℕ → (ℕ → ℕ) → ℕ → ℕ
  read_sectors zero i d index frame memory = memory
  read_sectors (suc left) i d index frame memory =
      read_sectors left (i + 1) d index frame
        (block_read d (index * sectors_per_page + i) (frame + i * sector_size) memory)

  -- The loop of `swap_out`.
  unfoldable pub write_sectors : ℕ → ℕ → D → ℕ → ℕ → (ℕ → ℕ) → D
  write_sectors zero i d index frame memory = d
  write_sectors (suc left) i d index frame memory =
      write_sectors left (i + 1)
        (dev.write d (index * sectors_per_page + i) (λ o. memory (frame + i * sector_size + o)))
        index frame memory

module _ {D B : Type 0} (dev : BlockDevice D) (bits : Bitmap B) where
  -- `start_swap`; `role` is what `block_get_role (BLOCK_SWAP)` returns. The lock is initialised last.
  unfoldable pub start_map : D → Option B → Swap D B → Swap D B
  start_map d none s = record s { swap_block = some d; swap_map = none }
  start_map d (some b) s = record s {
    swap_block = some d;
    swap_map = some (bits.bitmap_set_all b swap_free);
    swap_lock = false;
  }

  unfoldable pub start_swap : Option D → Swap D B → Swap D B
  unfolding start_map
  start_swap none s = record s { swap_block = none }
  start_swap (some d) s = start_map d (bits.bitmap_create (dev.block_size d / sectors_per_page)) s

  unfoldable pub swap_in_slot : D → B → ℕ → ℕ → Swap D B → Outcome (Swap D B)
  unfolding read_sectors
  swap_in_slot d b used_index frame s = do
    assert (not s.swap_lock)
    assert (bits.bitmap_test b used_index)
    let memory' = read_sectors dev sectors_per_page 0 d used_index frame s.memory
    returns (record s {
      swap_map = some (bits.bitmap_flip b used_index);
      memory = memory';
      swap_lock = false;
    })

  unfoldable pub swap_in_with : Option D → Option B → ℕ → ℕ → Swap D B → Outcome (Swap D B)
  unfolding swap_in_slot
  swap_in_with none map used_index frame s = returns s
  swap_in_with (some d) none used_index frame s = returns s
  swap_in_with (some d) (some b) used_index frame s = swap_in_slot d b used_index frame s

  -- Without a swap partition nothing happens; the slot must be in use.
  unfoldable pub swap_in : ℕ → ℕ → Swap D B → Outcome (Swap D B)
  unfolding swap_in_with
  swap_in used_index frame s = swap_in_with s.swap_block s.swap_map used_index frame s

  unfoldable pub swap_out_slot : D → Option ℕ × B → ℕ → Swap D B → Outcome (ℕ × Swap D B)
  unfolding write_sectors
  swap_out_slot d (none, b) frame s = panic
  swap_out_slot d (some free_index, b) frame s =
      let d' = write_sectors dev sectors_per_page 0 d free_index frame s.memory in
      returns (free_index, record s { swap_block = some d'; swap_map = some b; swap_lock = false })

  unfoldable pub swap_out_with : Option D → Option B → ℕ → Swap D B → Outcome (ℕ × Swap D B)
  unfolding swap_out_slot
  swap_out_with none map frame s = panic
  swap_out_with (some d) none frame s = panic
  swap_out_with (some d) (some b) frame s = do
    assert (not s.swap_lock)
    swap_out_slot d (bits.bitmap_scan_and_flip b 0 1 swap_free) frame s

  unfoldable pub swap_out : ℕ → Swap D B → Outcome (ℕ × Swap D B)
  unfolding swap_out_with
  swap_out frame s = swap_out_with s.swap_block s.swap_map frame s
