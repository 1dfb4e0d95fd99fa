-- ===== src/Files/Calls.antt =====
-- All system calls on files of Project 3/userprog/syscall.c: the table and the lock across a call.
use comp_sys_pint_os.Base.{ℕ, ◌+◌, ◌≤◌, ◌≡◌, ◌≢◌, Bool, false, Outcome, ◌||◌, ◌%◌, ◌^◌}
use comp_sys_pint_os.Platform.{Platform}
use comp_sys_pint_os.Files.{
  Descriptor, FileSystem, Process, Result, value, not_valid, create, remove, open_file, filesize,
  read, write, seek, tell, close,
}
use comp_sys_pint_os.Files.Table.{IsTable}

-- A call with its arguments.
pub data Call : Type 0 where
  creates : (file initial_size : ℕ) → Call
  removes : (file : ℕ) → Call
  opens : (file : ℕ) → Call
  asks_size : (fd : ℕ) → Call
  reads : (fd buffer size : ℕ) → Call
  writes : (fd buffer size : ℕ) → Call
  seeks : (fd position : ℕ) → Call
  tells : (fd : ℕ) → Call
  closes : (fd : ℕ) → Call

-- The call does not look up the number that is read at the end of the list of descriptors.
unfoldable pub AvoidsEnd : Descriptor → Call → Type 0
AvoidsEnd sentinel (asks_size fd) = sentinel.fd ≢ fd
AvoidsEnd sentinel (reads fd buffer size) = sentinel.fd ≢ fd
AvoidsEnd sentinel (writes fd buffer size) = sentinel.fd ≢ fd
AvoidsEnd sentinel (seeks fd position) = sentinel.fd ≢ fd
AvoidsEnd sentinel (tells fd) = sentinel.fd ≢ fd
AvoidsEnd sentinel _ = Unit

module _ {W : Type 0} (fs : FileSystem W) (pf : Platform) (sentinel : Descriptor) where
  -- The cases of `syscall_handler` that concern files.
  unfoldable pub run_call : Call → Process W → Outcome (Result × Process W)
  run_call (creates file size) s = create fs pf sentinel file size s
  run_call (removes file) s = remove fs pf sentinel file s
  run_call (opens file) s = open_file fs pf sentinel file s
  run_call (asks_size fd) s = filesize fs pf sentinel fd s
  run_call (reads fd buffer size) s = read fs pf sentinel fd buffer size s
  run_call (writes fd buffer size) s = write fs pf sentinel fd buffer size s
  run_call (seeks fd position) s = seek fs pf sentinel fd position s
  run_call (tells fd) s = tell fs pf sentinel fd s
  run_call (closes fd) s = close fs pf sentinel fd s

  -- What holds after a call.
  pub record Sound (s : Process W) (q : Result × Process W) : Type 0 where
    pub table : IsTable q.1
    pub never_reused : s.next_fd ≤ q.1.next_fd
    pub unlocked : (v : ℕ) → q.0 ≡ value v → q.1.file_lock ≡ false

  abbrev bad_buffer : ℕ → ℕ → Process W → Bool
  bad_buffer buffer size s =
      not_valid fs pf sentinel buffer s || not_valid fs pf sentinel ((buffer + size) % 2 ^ 32) s
