-- ===== src/Platform.antt =====
-- What the code takes from the headers of Pintos: the page size, the base of kernel memory, and two
-- macros over addresses. thread.h draws a page as 4 kB.
use comp_sys_pint_os.Base.{ℕ, ◌+◌, ◌*◌, ◌/◌, ◌%◌, ◌^◌, ◌≤◌, ◌<◌, ◌≡◌, Bool, ltb}

abbrev pub page_size : ℕ
page_size = 4096

abbrev pub u32 : ℕ → ℕ
u32 n = n % 2 ^ 32

pub record Platform : Type 0 where
  pub phys_base : ℕ
  pub is_user_vaddr : ℕ → Bool
  pub round_up : ℕ → ℕ

-- What the headers document: user memory lies below PHYS_BASE, which is a page boundary below the
-- last page; ROUND_UP (x, PGSIZE) is the least multiple of a page from x on.
pub record IsPlatform (p : Platform) : Type 0 where
  pub base_fits : p.phys_base + page_size ≤ 2 ^ 32
  pub base_aligned : p.phys_base % page_size ≡ 0
  pub user : (v : ℕ) → p.is_user_vaddr v ≡ ltb v p.phys_base
  pub round_aligned : (x : ℕ) → x + page_size ≤ 2 ^ 32 → p.round_up x % page_size ≡ 0
  pub round_above : (x : ℕ) → x + page_size ≤ 2 ^ 32 → x ≤ p.round_up x
  pub round_near : (x : ℕ) → x + page_size ≤ 2 ^ 32 → p.round_up x < x + page_size

-- `pg_round_down` of threads/vaddr.h: the start of the page of an address.
abbrev pub pg_round_down : ℕ → ℕ
pg_round_down va = va / page_size * page_size
