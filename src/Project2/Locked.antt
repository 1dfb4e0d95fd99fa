-- ===== src/Project2/Locked.antt =====
-- Which calls of Project 2/userprog/syscall.c leave LOCK held, and what a held LOCK leads to.
use comp_sys_pint_os.Base.{
  ℕ, ◌≡◌, refl, Bool, true, false, ◌==◌, ltb, leb, if◌then◌else◌, not, ◌&&◌, Option, none, some,
  Outcome, returns, panic, stuck, Bool-cases, inl, inr, ◌>>=◌,
}
use comp_sys_pint_os.Platform.{Platform}
use comp_sys_pint_os.Project2.{
  Machine, Process, Result, value, nothing, thread_exits, shuts_down, executes, waits, validaddr,
  valid_name, acquire, release, done, create, create_named, remove, remove_locked, process_file_add,
  open_found, open_named, open_file, filesize, file_check, max_file_size, max_file_name_length,
}
use comp_sys_pint_os.Project2.Calls.{
  Number, sys_halt, sys_exit, sys_exec, sys_wait, sys_create, sys_remove, sys_open, sys_filesize,
  sys_read, sys_write, sys_seek, sys_tell, sys_other, read_locked, read, write_file, write_locked,
  write, seek_file, seek, tell, exec, arg_get, syscall_handler, stdin_fileno, stdout_fileno,
  without_eax,
}

-- If the function returns, its result satisfies `P`.
abbrev pub Ends {ℓ} : {A : Type ℓ} → (A → Type 0) → Outcome A → Type 0
Ends P (returns a) = P a
Ends P panic = Unit
Ends P stuck = Unit

Ends-if {ℓ} :
    {A : Type ℓ} (P : A → Type 0) (b : Bool) (x y : Outcome A)
    → Ends P x
    → Ends P y
    → Ends P (if b then x else y)
Ends-if P true x y h k = h
Ends-if P false x y h k = k

Ends-then {ℓ κ} :
    {A : Type ℓ} {B : Type κ} (P : A → Type 0) (Q : B → Type 0) (x : Outcome A) (f : A → Outcome B)
    → Ends P x
    → ((a : A) → P a → Ends Q (f a))
    → Ends Q (x >>= f)
Ends-then P Q (returns a) f h k = k a h
Ends-then P Q panic f h k = tt
Ends-then P Q stuck f h k = tt

Ends->>= {ℓ κ} :
    {A : Type ℓ} {B : Type κ} (P : B → Type 0) (x : Outcome A) (f : A → Outcome B)
    → ((a : A) → Ends P (f a))
    → Ends P (x >>= f)
Ends->>= P (returns a) f h = h a
Ends->>= P panic f h = tt
Ends->>= P stuck f h = tt

module _ {W : Type 0} (m : Machine W) (pf : Platform) where
  abbrev IsFree : Result × Process W → Type 0
  IsFree a = a.1.lock ≡ false

  -- The lock is free after a call that has released it.
  done-IsFree : (r : Result) (s : Process W) → Ends IsFree (done m pf r s)
  unfolding done release
  done-IsFree r s = elim (Bool-cases s.lock) [ inl held ↦ rw held refl | inr free ↦ rw free tt ]

  create-IsFree :
      (file size : ℕ) (s : Process W) → s.lock ≡ false → Ends IsFree (create m pf file size s)
  unfolding create create_named
  create-IsFree file size s h = Ends-if IsFree (not (valid_name m pf file s)) _ _ h (
      Ends->>= IsFree (acquire m pf s) _ (λ t.
        Ends-if IsFree (leb size max_file_size) _ _
          (Ends-if IsFree (ltb max_file_name_length (m.strlen t.world file)) _ _ (done-IsFree _ t)
            (Ends-if IsFree (m.strlen t.world file == 0) _ _ (done-IsFree _ t) (done-IsFree _ _)))
          (done-IsFree _ t)))

  remove-IsFree : (file : ℕ) (s : Process W) → s.lock ≡ false → Ends IsFree (remove m pf file s)
  unfolding remove remove_locked
  remove-IsFree file s h =
      Ends-if IsFree (not (valid_name m pf file s)) _ _ h
        (Ends->>= IsFree (acquire m pf s) _ (λ t. done-IsFree _ _))

  open_found-IsFree : (r : Option ℕ × W) (s : Process W) → Ends IsFree (open_found m pf r s)
  unfolding open_found
  open_found-IsFree (none, w) s =
      Ends->>= IsFree (release m pf (record s { world = w })) _
        (λ t. Ends->>= IsFree (process_file_add m pf 0 t) _ (λ a. done-IsFree _ _))
  open_found-IsFree (some f, w) s =
      Ends->>= IsFree (process_file_add m pf f (record s { world = w })) _ (λ a. done-IsFree _ _)

  filesize-IsFree : (fd : ℕ) (s : Process W) → Ends IsFree (filesize m pf fd s)
  unfolding filesize
  filesize-IsFree fd s = Ends->>= IsFree (acquire m pf s) _ (λ t. done-IsFree _ _)

  read-IsFree :
      (fd buffer size : ℕ) (s : Process W)
      → s.lock ≡ false
      → Ends IsFree (read m pf fd buffer size s)
  unfolding read read_locked
  read-IsFree fd buffer size s h = Ends-if IsFree (not (validaddr m pf buffer size)) _ _ h (
      Ends->>= IsFree (acquire m pf s) _
        (λ t. Ends-if IsFree (fd == stdin_fileno) _ _ (done-IsFree _ _) (done-IsFree _ _)))

  seek_file-IsFree : (p : ℕ) (s : Process W) (f : Option ℕ) → Ends IsFree (seek_file m pf p s f)
  unfolding seek_file
  seek_file-IsFree p s none = done-IsFree _ _
  seek_file-IsFree p s (some f) = done-IsFree _ _

  write_file-IsFree :
      (buffer size : ℕ) (s : Process W) (f : Option ℕ)
      → Ends IsFree (write_file m pf buffer size s f)
  unfolding write_file
  write_file-IsFree buffer size s none = done-IsFree _ _
  write_file-IsFree buffer size s (some f) = done-IsFree _ _

  seek-IsFree : (fd p : ℕ) (s : Process W) → Ends IsFree (seek m pf fd p s)
  unfolding seek
  seek-IsFree fd p s =
      Ends->>= IsFree (acquire m pf s) _
        (λ t. Ends->>= IsFree (file_check fd t.file_list) _ (λ f. seek_file-IsFree p t f))

  tell-IsFree : (fd : ℕ) (s : Process W) → Ends IsFree (tell m pf fd s)
  unfolding tell
  tell-IsFree fd s =
      Ends->>= IsFree (acquire m pf s) _
        (λ t. Ends->>= IsFree (file_check fd t.file_list) _ (λ f. done-IsFree _ _))

  -- The calls that return with LOCK held: `open` of an empty name, and `write` to the console.
  unfoldable pub keeps_lock : Number → (ℕ → ℕ) → Process W → Bool
  keeps_lock sys_open arg s = valid_name m pf (arg 0) s && (m.strlen s.world (arg 0) == 0)
  keeps_lock sys_write arg s = validaddr m pf (arg 1) (arg 2) && (arg 0 == stdout_fileno)
  keeps_lock number arg s = false

  open_file-keeps :
      (file : ℕ) (s : Process W)
      → s.lock ≡ false
      → Ends
          (λ a. a.1.lock ≡ (valid_name m pf file s && (m.strlen s.world file == 0)))
          (open_file m pf file s)
  unfolding open_file open_named acquire
  open_file-keeps file s h = elim (Bool-cases (valid_name m pf file s)) [
    | inr bad ↦ rw bad h
    | inl good ↦ elim (Bool-cases (m.strlen s.world file == 0)) [
      | inl empty ↦ rw (good, h, empty) refl
      | inr named ↦
          rw (good, h, named)
            (open_found-IsFree (m.filesys_open file s.world) (record s { lock = true }))
    ]
  ]

  without_eax-Ends :
      (b : Bool) (a : Result × Process W)
      → a.1.lock ≡ b
      → Ends (λ c. c.1.lock ≡ b) (without_eax m pf a)
  without_eax-Ends b (value n, s) h = h
  without_eax-Ends b (nothing, s) h = h
  without_eax-Ends b (thread_exits, s) h = h
  without_eax-Ends b (shuts_down, s) h = h
  without_eax-Ends b (executes n, s) h = h
  without_eax-Ends b (waits n, s) h = h

  write-keeps :
      (fd buffer size : ℕ) (s : Process W)
      → s.lock ≡ false
      → Ends
          (λ a. a.1.lock ≡ (validaddr m pf buffer size && (fd == stdout_fileno)))
          (write m pf fd buffer size s)
  unfolding write write_locked acquire
  write-keeps fd buffer size s h = elim (Bool-cases (validaddr m pf buffer size)) [
    | inr bad ↦ rw bad h
    | inl good ↦ elim (Bool-cases (fd == stdout_fileno)) [
      | inl console ↦ rw (good, h, console) refl
      | inr other ↦
          rw (good, h, other)
            (Ends->>= IsFree (file_check fd s.file_list) _
              (λ f. write_file-IsFree buffer size (record s { lock = true }) f))
    ]
  ]

  exec-IsFree : (file : ℕ) (s : Process W) → s.lock ≡ false → Ends IsFree (exec m pf file s)
  unfolding exec
  exec-IsFree file s h = Ends-if IsFree (not (valid_name m pf file s)) _ _ h h

  -- The words that the handler finds in its array.
  abbrev pub args_of : ℕ → (ℕ → ℕ) → Process W → ℕ → ℕ
  args_of esp uninitialised s = arg_get m pf esp 1 0 uninitialised s.world

  -- If LOCK is free and a system call returns, LOCK is free after it, unless the call was `open` of an
  -- empty name or `write` to the console, with addresses that passed the check: then it is held.
  pub syscall_handler-keeps_lock :
      (number : Number) (esp : ℕ) (uninitialised : ℕ → ℕ) (s : Process W)
      → s.lock ≡ false
      → Ends
          (λ a. a.1.lock ≡ keeps_lock number (args_of esp uninitialised s) s)
          (syscall_handler m pf number esp uninitialised s)
  unfolding syscall_handler keeps_lock
  syscall_handler-keeps_lock sys_halt esp un s h = h
  syscall_handler-keeps_lock sys_exit esp un s h = h
  syscall_handler-keeps_lock sys_exec esp un s h = exec-IsFree (args_of esp un s 0) s h
  syscall_handler-keeps_lock sys_wait esp un s h = h
  syscall_handler-keeps_lock sys_create esp un s h =
      create-IsFree (args_of esp un s 0) (args_of esp un s 1) s h
  syscall_handler-keeps_lock sys_remove esp un s h = remove-IsFree (args_of esp un s 0) s h
  syscall_handler-keeps_lock sys_open esp un s h = open_file-keeps (args_of esp un s 0) s h
  syscall_handler-keeps_lock sys_filesize esp un s h = filesize-IsFree (args_of esp un s 0) s
  syscall_handler-keeps_lock sys_read esp un s h =
      read-IsFree (args_of esp un s 0) (args_of esp un s 1) (args_of esp un s 2) s h
  syscall_handler-keeps_lock sys_write esp un s h =
      Ends-then (λ a. a.1.lock ≡ keeps_lock sys_write (args_of esp un s) s) _ _ (without_eax m pf)
        (write-keeps (args_of esp un s 0) (args_of esp un s 1) (args_of esp un s 2) s h)
        (λ a e. without_eax-Ends (keeps_lock sys_write (args_of esp un s) s) a e)
  syscall_handler-keeps_lock sys_seek esp un s h =
      seek-IsFree (args_of esp un s 0) (args_of esp un s 1) s
  syscall_handler-keeps_lock sys_tell esp un s h = tell-IsFree (args_of esp un s 0) s
  syscall_handler-keeps_lock sys_other esp un s h = h
