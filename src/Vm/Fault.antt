-- ===== src/Vm/Fault.antt =====
-- Project 3/userprog/exception.c: the page-fault handler, over the pages of Project 3/vm.
use comp_sys_pint_os.Base.{
  ℕ, ◌+◌, ◌-◌, ◌%◌, ◌^◌, Bool, true, false, ltb, leb, ◌==◌, if◌then◌else◌, ◌&&◌, Option, none, some,
  Outcome, returns, panic, ◌>>=◌,
}
use comp_sys_pint_os.Platform.{Platform, u32}
use comp_sys_pint_os.Vm.{Kernel, Vm}
use comp_sys_pint_os.Vm.Page.{put, get_spte, load_page, stack_growth}

-- USER_VADDR_BOTTOM and STACK_H of syscall.h
abbrev pub user_vaddr_bottom : ℕ
user_vaddr_bottom = 0x08048000

abbrev pub stack_h : ℕ
stack_h = 32

-- The code segments that `kill` tells apart: SEL_UCSEG, SEL_KCSEG and any other.
pub data CodeSegment : Type 0 where
  user_code kernel_code unknown_code : CodeSegment

-- What the handler reads: CR2, and three members of the interrupt frame.
pub record FaultFrame : Type 0 where
  pub fault_addr : ℕ
  pub error_code : ℕ
  pub esp : ℕ
  pub cs : CodeSegment

-- How the handler ends: the program goes on, or the thread exits.
pub data FaultEnd : Type 0 where
  resumes exits : FaultEnd

-- `(error_code & PF_P) == 0`, the bit 1
abbrev pub not_present : FaultFrame → Bool
not_present f = f.error_code % 2 == 0

-- Messages aside, `kill` ends the thread, or panics the kernel.
unfoldable pub kill : {A : Type 0} → CodeSegment → A → Outcome (FaultEnd × A)
kill user_code s = returns (exits, s)
kill kernel_code s = panic
kill unknown_code s = returns (exits, s)

module _ {W : Type 0} (k : Kernel W) (pf : Platform) (fuel : ℕ) where
  -- The page has an entry: bring it in and unpin it.
  unfoldable pub fault_load : ℕ → Vm W → Outcome (Bool × Vm W)
  fault_load p s = load_page k fuel p s >>= λ r.
      returns (r.0, put k p (record ((r.1).spte_at p) { pinned = false }) r.1)

  unfoldable pub fault_entry : FaultFrame → Option ℕ → Vm W → Outcome (Bool × Vm W)
  unfolding fault_load
  fault_entry f (some p) s = fault_load p s
  fault_entry f none s =
      if leb (u32 (f.esp + 2 ^ 32 - stack_h)) f.fault_addr
      then stack_growth k pf fuel false f.fault_addr s
      else returns (false, s)

  unfoldable pub end_fault : FaultFrame → Bool × Vm W → Outcome (FaultEnd × Vm W)
  unfolding kill
  end_fault f (true, s) = returns (resumes, s)
  end_fault f (false, s) = kill f.cs s

  -- The handler runs in an internal interrupt, so `intr_context` returns false in `stack_growth`.
  unfoldable pub page_fault : FaultFrame → Vm W → Outcome (FaultEnd × Vm W)
  unfolding fault_entry end_fault
  page_fault f s =
      (if not_present f && ltb user_vaddr_bottom f.fault_addr && pf.is_user_vaddr f.fault_addr
        then fault_entry f (get_spte k f.fault_addr s) s
        else returns (false, s))
      >>= end_fault f
