-- ===== src/Project2.antt =====
-- Project 2/userprog/syscall.c: the earlier version of the system calls.
-- User memory, the file system and the console are the operations of `Machine`, over a state `W`.
-- LOCK is taken to be initialised. A number from the user is the bit pattern of a 32-bit word.
pub mod Calls
pub mod Lookup
pub mod Locked
pub mod Held
use comp_sys_pint_os.Base.{
  ℕ, zero, suc, ◌+◌, ◌-◌, ◌*◌, ◌%◌, ◌^◌, Bool, true, false, ltb, leb, ◌==◌, if◌then◌else◌, not,
  ◌&&◌, ◌||◌, List, [], ◌∷◌, ◌++◌, Option, none, some, Outcome, returns, panic, stuck, ◌>>=◌, ◌>>◌,
  assert,
}
use comp_sys_pint_os.Platform.{Platform, u32}

-- `struct process_file`
pub record ProcessFile : Type 0 where
  pub file : ℕ
  pub fd : ℕ

-- `strlen` and `word` read user memory.
pub record Machine (W : Type 0) : Type 0 where
  pub strlen : W → ℕ → ℕ
  pub word : W → ℕ → ℕ
  pub malloc : W → Bool × W
  pub filesys_create : ℕ → ℕ → W → Bool × W
  pub filesys_remove : ℕ → W → Bool × W
  pub filesys_open : ℕ → W → Option ℕ × W
  pub file_length : W → ℕ → ℕ
  pub file_write : ℕ → ℕ → ℕ → W → ℕ × W
  pub file_seek : ℕ → ℕ → W → W
  pub file_tell : W → ℕ → ℕ
  pub input_getc : W → ℕ × W
  pub store_byte : ℕ → ℕ → W → W
  pub putbuf : ℕ → ℕ → W → W

-- The members of `struct thread` that the calls use, whether the current thread holds LOCK, and the
-- rest of the machine.
pub record Process (W : Type 0) : Type 0 where
  pub fd : ℕ
  pub file_list : List ProcessFile
  pub lock : Bool
  pub world : W

-- How a call ends: with a word, with no result, in `thread_exit`, in `shutdown`, or in
-- `process_execute` or `process_wait` of process.c.
pub data Result : Type 0 where
  value : ℕ → Result
  nothing : Result
  thread_exits : Result
  shuts_down : Result
  executes : ℕ → Result
  waits : ℕ → Result

-- MAX_FILE_SIZE and MAX_FILE_NAME_LENGTH
abbrev pub max_file_size : ℕ
max_file_size = 204800

abbrev pub max_file_name_length : ℕ
max_file_name_length = 64

abbrev pub minus_one : ℕ
minus_one = 2 ^ 32 - 1

abbrev pub word_of : Bool → ℕ
word_of true = 1
word_of false = 0

-- The loop of `file_check` advances twice in a round: after an element that does not match, the next
-- is passed over, and beyond the last one `list_next` is undefined.
unfoldable pub file_check : ℕ → List ProcessFile → Outcome (Option ℕ)
file_check fd [] = returns none
file_check fd (pf ∷ []) = if fd == pf.fd then returns (some pf.file) else stuck
file_check fd (pf ∷ skipped ∷ pfs) =
    let rest = file_check fd pfs in if fd == pf.fd then returns (some pf.file) else rest

-- The loop of `process_file_get`
unfoldable pub process_file_get : ℕ → List ProcessFile → Option ℕ
process_file_get fd [] = none
process_file_get fd (pf ∷ pfs) = if fd == pf.fd then some pf.file else process_file_get fd pfs

module _ {W : Type 0} (m : Machine W) (pf : Platform) where
  unfoldable pub validaddr : ℕ → ℕ → Bool
  validaddr addr size = pf.is_user_vaddr (u32 (addr + size))

  -- The test of a file name at the start of a call.
  unfoldable pub valid_name : ℕ → Process W → Bool
  unfolding validaddr
  valid_name file s = validaddr file 0 && validaddr file (m.strlen s.world file)

  -- `lock_acquire` of a lock that no other thread holds, and `lock_release`
  unfoldable pub acquire : Process W → Outcome (Process W)
  acquire s = assert (not s.lock) >> returns (record s { lock = true })

  unfoldable pub release : Process W → Outcome (Process W)
  release s = assert s.lock >> returns (record s { lock = false })

  unfoldable pub done : Result → Process W → Outcome (Result × Process W)
  unfolding release
  done r s = release s >>= λ t. returns (r, t)

  unfoldable pub create_named : ℕ → ℕ → Process W → Outcome (Result × Process W)
  unfolding done
  create_named file initial_size s =
      let (made, w) = m.filesys_create file initial_size s.world in
      let refused = done (value 0) s in
      let created = done (value (word_of made)) (record s { world = w }) in
      if leb initial_size max_file_size
      then if ltb max_file_name_length (m.strlen s.world file)
        then refused
        else if m.strlen s.world file == 0
        then refused
        else created
      else refused

  unfoldable pub create : ℕ → ℕ → Process W → Outcome (Result × Process W)
  unfolding valid_name acquire create_named
  create file initial_size s =
      let called = acquire s >>= create_named file initial_size in
      if not (valid_name file s) then returns (thread_exits, s) else called

  unfoldable pub remove_locked : ℕ → Process W → Outcome (Result × Process W)
  unfolding done
  remove_locked file s =
      let (removed, w) = m.filesys_remove file s.world in
      done (value (word_of removed)) (record s { world = w })

  unfoldable pub remove : ℕ → Process W → Outcome (Result × Process W)
  unfolding valid_name acquire remove_locked
  remove file s =
      let called = acquire s >>= remove_locked file in
      if not (valid_name file s) then returns (thread_exits, s) else called

  -- `process_file_add`, which writes to the result of `malloc` unchecked.
  unfoldable pub add_at : ℕ → Bool × W → Process W → Outcome (ℕ × Process W)
  add_at f (false, w) s = stuck
  add_at f (true, w) s = returns (
    s.fd,
    record s {
      fd = s.fd + 1;
      file_list = s.file_list ++ record { file = f; fd = s.fd } ∷ [];
      world = w;
    },
  )

  unfoldable pub process_file_add : ℕ → Process W → Outcome (ℕ × Process W)
  unfolding add_at
  process_file_add f s = add_at f (m.malloc s.world) s

  -- `open` of a name that is not empty: without a file LOCK is released at once, NULL is added all the
  -- same, and LOCK is released again.
  unfoldable pub open_found : Option ℕ × W → Process W → Outcome (Result × Process W)
  unfolding release process_file_add done
  open_found (none, w) s = do
    t ← release (record s { world = w })
    r ← process_file_add 0 t
    done (value r.0) r.1
  open_found (some f, w) s = do
    r ← process_file_add f (record s { world = w })
    done (value r.0) r.1

  unfoldable pub open_named : ℕ → Process W → Outcome (Result × Process W)
  unfolding open_found
  open_named file s =
      let opened = open_found (m.filesys_open file s.world) s in
      if m.strlen s.world file == 0 then returns (value minus_one, s) else opened

  unfoldable pub open_file : ℕ → Process W → Outcome (Result × Process W)
  unfolding valid_name acquire open_named
  open_file file s =
      let called = acquire s >>= open_named file in
      if not (valid_name file s) then returns (thread_exits, s) else called

  abbrev pub length_of : Option ℕ → Process W → ℕ
  length_of none s = minus_one
  length_of (some f) s = m.file_length s.world f

  unfoldable pub filesize : ℕ → Process W → Outcome (Result × Process W)
  unfolding acquire done process_file_get
  filesize fd s = acquire s >>= λ t. done (value (length_of (process_file_get fd t.file_list) t)) t
