-- ===== src/Vm.antt =====
-- Project 3/vm: the state that frame.c and page.c share, and what they call outside it.
pub mod Frame
pub mod Evict
pub mod Pinned
pub mod Unload
pub mod Page
pub mod Load
pub mod Fault
pub mod FaultSafety
use comp_sys_pint_os.Base.{ℕ, ◌==◌, if◌then◌else◌, Bool, List, Option, Outcome}

-- `type` of a supplemental page table entry: FILE, SWAP, MMAP and HASH_ERROR of page.h.
pub data PageType : Type 0 where
  file swap mmap hash_error : PageType

-- `struct suppl_page_tbl_ent`
pub record Spte : Type 0 where
  pub unused_virtual_address : ℕ
  pub type : PageType
  pub writable : Bool
  pub is_loaded : Bool
  pub pinned : Bool
  pub file : ℕ
  pub offset : ℕ
  pub read_bytes : ℕ
  pub zero_bytes : ℕ
  pub swap_index : ℕ

-- `struct frame_tbl_ent`; `elem` is its own address, `spte` a pointer, `thread` its owner.
pub record FrameEntry : Type 0 where
  pub elem : ℕ
  pub frame : ℕ
  pub thread : ℕ
  pub spte : ℕ

-- `enum palloc_flags`, as far as it is used.
pub record Flags : Type 0 where
  pub user : Bool
  pub zeroed : Bool

-- The page allocator, the page directories, files, memory and the swap table, over a state `W`.
-- A thread stands for its page directory.
pub record Kernel (W : Type 0) : Type 0 where
  pub malloc : W → Option ℕ × W
  pub free : ℕ → W → W
  pub palloc_get_page : Flags → W → Option ℕ × W
  pub palloc_free_page : ℕ → W → W
  pub pagedir_get_page : W → ℕ → ℕ → Option ℕ
  pub pagedir_set_page : ℕ → ℕ → ℕ → Bool → W → Bool × W
  pub pagedir_clear_page : ℕ → ℕ → W → W
  pub pagedir_is_accessed : W → ℕ → ℕ → Bool
  pub pagedir_set_accessed : ℕ → ℕ → Bool → W → W
  pub pagedir_is_dirty : W → ℕ → ℕ → Bool
  pub file_read_at : ℕ → ℕ → ℕ → ℕ → W → ℕ × W
  pub file_write_at : ℕ → ℕ → ℕ → ℕ → W → W
  pub clear_bytes : ℕ → ℕ → W → W
  pub swap_in : ℕ → ℕ → W → Outcome W
  pub swap_out : ℕ → W → Outcome (ℕ × W)

-- The frame table with its lock, the lock of the file system (each: does the current thread hold
-- it?), the entries that pointers lead to, the page table of the current thread, and the rest.
pub record Vm (W : Type 0) : Type 0 where
  pub frame_tbl_list : List FrameEntry
  pub frame_tbl_lock : Bool
  pub file_lock : Bool
  pub spte_at : ℕ → Spte
  pub spt : ℕ → Option ℕ
  pub thread_current : ℕ
  pub world : W

abbrev pub is_swap : PageType → Bool
is_swap swap = Bool.true
is_swap _ = Bool.false

abbrev pub is_mmap : PageType → Bool
is_mmap mmap = Bool.true
is_mmap _ = Bool.false
