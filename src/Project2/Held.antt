-- ===== src/Project2/Held.antt =====
-- The calls of Project 2/userprog/syscall.c once LOCK is held by the caller.
use mathlib.Core.Bool.{false≢true}
use comp_sys_pint_os.Base.{ℕ, ◌≡◌, refl, Bool, true, false, panic}
use comp_sys_pint_os.Platform.{Platform}
use comp_sys_pint_os.Project2.{Machine, Process, validaddr, valid_name, acquire}
use comp_sys_pint_os.Project2.Calls.{
  Number, sys_create, sys_remove, sys_open, sys_filesize, sys_read, sys_write, sys_seek, sys_tell,
  sys_halt, sys_exit, sys_exec, sys_wait, sys_other, syscall_handler,
}
use comp_sys_pint_os.Project2.Locked.{args_of}

module _ {W : Type 0} (m : Machine W) (pf : Platform) where
  -- The calls that go on to take LOCK.
  unfoldable pub takes_lock : Number → (ℕ → ℕ) → Process W → Bool
  takes_lock sys_create arg s = valid_name m pf (arg 0) s
  takes_lock sys_remove arg s = valid_name m pf (arg 0) s
  takes_lock sys_open arg s = valid_name m pf (arg 0) s
  takes_lock sys_filesize arg s = true
  takes_lock sys_read arg s = validaddr m pf (arg 1) (arg 2)
  takes_lock sys_write arg s = validaddr m pf (arg 1) (arg 2)
  takes_lock sys_seek arg s = true
  takes_lock sys_tell arg s = true
  takes_lock number arg s = false

  -- While the caller holds LOCK, every call on files panics the kernel: `create`, `remove` and `open` of
  -- a name that passes the check, `read` and `write` of a buffer that does, and `filesize`, `seek` and
  -- `tell`.
  pub syscall_handler_panics :
      (number : Number) (esp : ℕ) (uninitialised : ℕ → ℕ) (s : Process W)
      → s.lock ≡ true
      → takes_lock number (args_of m pf esp uninitialised s) s ≡ true
      → syscall_handler m pf number esp uninitialised s ≡ panic
  unfolding syscall_handler takes_lock acquire
  syscall_handler_panics sys_create esp un s h t = rw (t, h) refl
  syscall_handler_panics sys_remove esp un s h t = rw (t, h) refl
  syscall_handler_panics sys_open esp un s h t = rw (t, h) refl
  syscall_handler_panics sys_filesize esp un s h t = rw h refl
  syscall_handler_panics sys_read esp un s h t = rw (t, h) refl
  syscall_handler_panics sys_write esp un s h t = rw (t, h) refl
  syscall_handler_panics sys_seek esp un s h t = rw h refl
  syscall_handler_panics sys_tell esp un s h t = rw h refl
  syscall_handler_panics sys_halt esp un s h t = absurd (false≢true t)
  syscall_handler_panics sys_exit esp un s h t = absurd (false≢true t)
  syscall_handler_panics sys_exec esp un s h t = absurd (false≢true t)
  syscall_handler_panics sys_wait esp un s h t = absurd (false≢true t)
  syscall_handler_panics sys_other esp un s h t = absurd (false≢true t)
