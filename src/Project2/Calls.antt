-- ===== src/Project2/Calls.antt =====
-- Project 2/userprog/syscall.c: the calls on open files, and the system call handler.
use comp_sys_pint_os.Base.{
  ℕ, zero, suc, ◌+◌, ◌*◌, ◌==◌, if◌then◌else◌, not, Option, none, some, Outcome, returns, ◌>>=◌,
}
use comp_sys_pint_os.Platform.{Platform, u32}
use comp_sys_pint_os.Project2.{
  Machine, Process, Result, value, nothing, thread_exits, shuts_down, executes, waits, minus_one,
  file_check, validaddr, valid_name, acquire, done, create, remove, open_file, filesize,
}

-- STDIN_FILENO, STDOUT_FILENO and MAX_ARGS
abbrev pub stdin_fileno : ℕ
stdin_fileno = 0

abbrev pub stdout_fileno : ℕ
stdout_fileno = 1

abbrev pub max_args : ℕ
max_args = 10

-- The numbers that the handler tells apart.
pub data Number : Type 0 where
  sys_halt sys_exit sys_exec sys_wait sys_create sys_remove sys_open sys_filesize : Number
  sys_read sys_write sys_seek sys_tell sys_other : Number

module _ {W : Type 0} (m : Machine W) (pf : Platform) where
  -- The loop over `input_getc`, from byte `offset` on.
  unfoldable pub read_keys : ℕ → ℕ → ℕ → W → W
  read_keys zero buffer offset w = w
  read_keys (suc left) buffer offset w =
      let (key, v) = m.input_getc w in
      read_keys left buffer (offset + 1) (m.store_byte (buffer + offset) key v)

  unfoldable pub read_locked : ℕ → ℕ → ℕ → Process W → Outcome (Result × Process W)
  unfolding read_keys done
  read_locked fd buffer size s =
      if fd == stdin_fileno
      then done m pf (value size) (record s { world = read_keys size buffer 0 s.world })
      else done m pf (value minus_one) s

  unfoldable pub read : ℕ → ℕ → ℕ → Process W → Outcome (Result × Process W)
  unfolding validaddr acquire read_locked
  read fd buffer size s =
      let called = acquire m pf s >>= read_locked fd buffer size in
      if not (validaddr m pf buffer size) then returns (thread_exits, s) else called

  unfoldable pub write_file : ℕ → ℕ → Process W → Option ℕ → Outcome (Result × Process W)
  unfolding done
  write_file buffer size s none = done m pf (value minus_one) s
  write_file buffer size s (some f) =
      let (count, w) = m.file_write f buffer size s.world in
      done m pf (value count) (record s { world = w })

  -- To the console, LOCK is not released.
  unfoldable pub write_locked : ℕ → ℕ → ℕ → Process W → Outcome (Result × Process W)
  unfolding write_file file_check
  write_locked fd buffer size s =
      let to_file = file_check fd s.file_list >>= write_file buffer size s in
      if fd == stdout_fileno
      then returns (value size, record s { world = m.putbuf buffer size s.world })
      else to_file

  unfoldable pub write : ℕ → ℕ → ℕ → Process W → Outcome (Result × Process W)
  unfolding validaddr acquire write_locked
  write fd buffer size s =
      let called = acquire m pf s >>= write_locked fd buffer size in
      if not (validaddr m pf buffer size) then returns (thread_exits, s) else called

  unfoldable pub seek_file : ℕ → Process W → Option ℕ → Outcome (Result × Process W)
  unfolding done
  seek_file position s none = done m pf nothing s
  seek_file position s (some f) =
      done m pf nothing (record s { world = m.file_seek f position s.world })

  unfoldable pub seek : ℕ → ℕ → Process W → Outcome (Result × Process W)
  unfolding acquire seek_file file_check
  seek fd position s = do t ← acquire m pf s; f ← file_check fd t.file_list; seek_file position t f

  abbrev pub tell_of : Option ℕ → Process W → ℕ
  tell_of none s = minus_one
  tell_of (some f) s = m.file_tell s.world f

  unfoldable pub tell : ℕ → Process W → Outcome (Result × Process W)
  unfolding acquire done file_check
  tell fd s = do
    t ← acquire m pf s
    f ← file_check fd t.file_list
    done m pf (value (tell_of f t)) t

  unfoldable pub exec : ℕ → Process W → Outcome (Result × Process W)
  unfolding valid_name
  exec file_name s =
      if not (valid_name m pf file_name s)
      then returns (thread_exits, s)
      else returns (executes file_name, s)

  -- `arg_get`: the first `n` words above the stack pointer; the others keep what the array held.
  unfoldable pub arg_get : ℕ → ℕ → ℕ → (ℕ → ℕ) → W → ℕ → ℕ
  arg_get esp zero i arg w = arg
  arg_get esp (suc n) i arg w =
      let rest = arg_get esp n (i + 1) arg w in
      λ j. if i == j then m.word w (u32 (esp + 4 * (i + 1))) else rest j

  -- The result of `write` is not stored for the user.
  abbrev pub without_eax : Result × Process W → Outcome (Result × Process W)
  without_eax (value n, s) = returns (nothing, s)
  without_eax (r, s) = returns (r, s)

  -- One argument is fetched for every call; `uninitialised` is what the rest of the array holds.
  unfoldable pub syscall_handler : Number → ℕ → (ℕ → ℕ) → Process W → Outcome (Result × Process W)
  unfolding create remove open_file filesize read write seek tell exec arg_get
  syscall_handler number esp uninitialised s =
      let arg = arg_get esp 1 0 uninitialised s.world in
      elim number [
        | sys_halt ↦ returns (shuts_down, s)
        | sys_exit ↦ returns (nothing, s)
        | sys_exec ↦ exec (arg 0) s
        | sys_wait ↦ returns (waits (arg 0), s)
        | sys_create ↦ create m pf (arg 0) (arg 1) s
        | sys_remove ↦ remove m pf (arg 0) s
        | sys_open ↦ open_file m pf (arg 0) s
        | sys_filesize ↦ filesize m pf (arg 0) s
        | sys_read ↦ read (arg 0) (arg 1) (arg 2) s
        | sys_write ↦ write (arg 0) (arg 1) (arg 2) s >>= without_eax
        | sys_seek ↦ seek (arg 0) (arg 1) s
        | sys_tell ↦ tell (arg 0) s
        | sys_other ↦ returns (nothing, s)
      ]
