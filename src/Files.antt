-- ===== src/Files.antt =====
-- Project 3/userprog/syscall.c: the system calls on files, over the descriptor table of a process.
-- User memory, the file system and the console are the operations of `FileSystem`, over a state `W`.
-- A number that the user passes or receives is the bit pattern of a 32-bit word.
pub mod Table
pub mod Lookup
pub mod Calls
use mathlib.Core.List.{reverse}
use comp_sys_pint_os.Base.{
  ℕ, zero, suc, ◌+◌, ◌-◌, ◌%◌, ◌^◌, Bool, true, false, ◌==◌, if◌then◌else◌, not, ◌||◌, List, [],
  ◌∷◌, ◌++◌, Option, none, some, Outcome, returns, panic, stuck, ◌>>=◌, ◌>>◌, assert,
}
use comp_sys_pint_os.Platform.{Platform}

-- `struct file_descriptor`
pub record Descriptor : Type 0 where
  pub fd : ℕ
  pub file : ℕ

pub record FileSystem (W : Type 0) : Type 0 where
  pub is_mapped : W → ℕ → Bool
  pub malloc : W → Bool × W
  pub free : W → W
  pub filesys_create : ℕ → ℕ → W → Bool × W
  pub filesys_remove : ℕ → W → Bool × W
  pub filesys_open : ℕ → W → Option ℕ × W
  pub file_close : ℕ → W → W
  pub file_length : W → ℕ → ℕ
  pub file_read : ℕ → ℕ → ℕ → W → ℕ × W
  pub file_write : ℕ → ℕ → ℕ → W → ℕ × W
  pub file_seek : ℕ → ℕ → W → W
  pub file_tell : W → ℕ → ℕ
  pub input_getc : W → ℕ × W
  pub store_byte : ℕ → ℕ → W → W
  pub putbuf : ℕ → ℕ → W → W

-- The members of `struct thread` that the calls use, whether the current thread holds `file_lock`,
-- and the rest of the machine.
pub record Process (W : Type 0) : Type 0 where
  pub next_fd : ℕ
  pub files : List Descriptor
  pub file_lock : Bool
  pub world : W

-- A call returns a word, or ends the process with an exit status.
pub data Result : Type 0 where
  value : ℕ → Result
  exited : ℕ → Result

abbrev pub minus_one : ℕ
minus_one = 2 ^ 32 - 1

abbrev pub word_of : Bool → ℕ
word_of true = 1
word_of false = 0

-- STDIN_FILENO and STDOUT_FILENO
abbrev pub stdin_fileno : ℕ
stdin_fileno = 0

abbrev pub stdout_fileno : ℕ
stdout_fileno = 1

-- The file of the first descriptor with that number.
unfoldable pub find_fd : ℕ → List Descriptor → Option ℕ
find_fd fd [] = none
find_fd fd (d ∷ ds) = if d.fd == fd then some d.file else find_fd fd ds

-- The loop of `close` removes the first descriptor with that number.
unfoldable pub remove_fd : ℕ → List Descriptor → List Descriptor
remove_fd fd [] = []
remove_fd fd (d ∷ ds) = if d.fd == fd then ds else d ∷ remove_fd fd ds

-- `sentinel` is what the code reads where it takes the end of the list for a descriptor.
module _ {W : Type 0} (fs : FileSystem W) (pf : Platform) (sentinel : Descriptor) where
  -- `get_file` walks from `list_tail`, the end itself, back to the first element. The pointer that
  -- lies beside the number at the end is none of a file: unless it is NULL, every caller goes on to
  -- use it, which is undefined.
  unfoldable pub get_file : ℕ → Process W → Outcome (Option ℕ)
  unfolding find_fd
  get_file fd s =
      if sentinel.fd == fd
      then (if sentinel.file == 0 then returns none else stuck)
      else returns (find_fd fd (reverse s.files))

  unfoldable pub not_valid : ℕ → Process W → Bool
  not_valid pointer s =
      not (pf.is_user_vaddr pointer) || pointer == 0 || not (fs.is_mapped s.world pointer)

  abbrev pub locked : Process W → Process W
  locked s = record s { file_lock = true }

  -- `lock_release`, with a result.
  unfoldable pub done : Result → Process W → Outcome (Result × Process W)
  done r s = assert s.file_lock >> returns (r, record s { file_lock = false })

  unfoldable pub create : ℕ → ℕ → Process W → Outcome (Result × Process W)
  unfolding not_valid done
  create file initial_size s =
      let (made, w) = fs.filesys_create file initial_size s.world in
      let checked =
        assert (not s.file_lock) >> done (value (word_of made)) (locked (record s { world = w })) in
      if not_valid file s then returns (exited minus_one, s) else checked

  unfoldable pub remove_opened : ℕ → Option ℕ × W → Process W → Outcome (Result × Process W)
  unfolding done
  remove_opened file (none, w) s = done (value 0) (record s { world = w })
  remove_opened file (some f, w) s =
      let (removed, v) = fs.filesys_remove file (fs.file_close f w) in
      done (value (word_of removed)) (record s { world = v })

  unfoldable pub remove : ℕ → Process W → Outcome (Result × Process W)
  unfolding not_valid remove_opened
  remove file s =
      let checked =
        assert (not s.file_lock) >> remove_opened file (fs.filesys_open file s.world) (locked s) in
      if not_valid file s then returns (exited minus_one, s) else checked

  -- `open` after `malloc`, whose result it writes to unchecked.
  unfoldable pub open_opened : Bool → Option ℕ × W → Process W → Outcome (Result × Process W)
  unfolding done
  open_opened made (none, w) s = done (value minus_one) (record s { world = w })
  open_opened false (some f, w) s = stuck
  open_opened true (some f, w) s = done (value s.next_fd) (record s {
    next_fd = (s.next_fd + 1) % 2 ^ 32;
    files = s.files ++ record { fd = s.next_fd; file = f } ∷ [];
    world = w;
  })

  unfoldable pub open_file : ℕ → Process W → Outcome (Result × Process W)
  unfolding not_valid open_opened
  open_file file s =
      let (made, w) = fs.malloc s.world in
      let checked =
        assert (not s.file_lock) >> open_opened made (fs.filesys_open file w) (locked s) in
      if not_valid file s then returns (exited minus_one, s) else checked

  abbrev pub length_or_error : Option ℕ → Process W → ℕ
  length_or_error none s = minus_one
  length_or_error (some f) s = fs.file_length s.world f

  unfoldable pub filesize : ℕ → Process W → Outcome (Result × Process W)
  unfolding get_file done
  filesize fd s =
      assert (not s.file_lock)
      >> (get_file fd s >>= λ o. done (value (length_or_error o s)) (locked s))

  -- The loop over `input_getc`, from byte `count` on.
  unfoldable pub read_keys : ℕ → ℕ → ℕ → W → W
  read_keys zero buffer count w = w
  read_keys (suc left) buffer count w =
      let (key, v) = fs.input_getc w in
      read_keys left buffer (count + 1) (fs.store_byte (buffer + count) key v)

  unfoldable pub read_file : Option ℕ → ℕ → ℕ → Process W → Outcome (Result × Process W)
  unfolding done
  read_file none buffer size s = done (value minus_one) s
  read_file (some f) buffer size s =
      let (count, w) = fs.file_read f buffer size s.world in
      done (value count) (record s { world = w })

  unfoldable pub read : ℕ → ℕ → ℕ → Process W → Outcome (Result × Process W)
  unfolding not_valid read_keys read_file get_file
  read fd buffer size s =
      let keys =
        assert (not s.file_lock)
        >> done (value size) (locked (record s { world = read_keys size buffer 0 s.world })) in
      let from_file =
        assert (not s.file_lock) >> (get_file fd s >>= λ o. read_file o buffer size (locked s)) in
      if not_valid buffer s || not_valid ((buffer + size) % 2 ^ 32) s || fd == stdout_fileno
      then returns (exited minus_one, s)
      else if fd == stdin_fileno
      then keys
      else from_file

  unfoldable pub write_file : Option ℕ → ℕ → ℕ → Process W → Outcome (Result × Process W)
  unfolding done
  write_file none buffer size s = done (value minus_one) s
  write_file (some f) buffer size s =
      let (count, w) = fs.file_write f buffer size s.world in
      done (value count) (record s { world = w })

  unfoldable pub write : ℕ → ℕ → ℕ → Process W → Outcome (Result × Process W)
  unfolding not_valid write_file get_file
  write fd buffer size s =
      let console =
        assert (not s.file_lock)
        >> done (value size) (locked (record s { world = fs.putbuf buffer size s.world })) in
      let to_file =
        assert (not s.file_lock) >> (get_file fd s >>= λ o. write_file o buffer size (locked s)) in
      if not_valid buffer s || not_valid ((buffer + size) % 2 ^ 32) s || fd == stdin_fileno
      then returns (exited minus_one, s)
      else if fd == stdout_fileno
      then console
      else to_file

  -- Without a file the process exits, and the lock is not released first.
  unfoldable pub seek_file : Option ℕ → ℕ → Process W → Outcome (Result × Process W)
  unfolding done
  seek_file none position s = returns (exited minus_one, s)
  seek_file (some f) position s =
      done (value 0) (record s { world = fs.file_seek f position s.world })

  unfoldable pub seek : ℕ → ℕ → Process W → Outcome (Result × Process W)
  unfolding seek_file get_file
  seek fd position s =
      assert (not s.file_lock) >> (get_file fd s >>= λ o. seek_file o position (locked s))

  abbrev pub tell_or_zero : Option ℕ → Process W → ℕ
  tell_or_zero none s = 0
  tell_or_zero (some f) s = fs.file_tell s.world f

  unfoldable pub tell : ℕ → Process W → Outcome (Result × Process W)
  unfolding get_file done
  tell fd s =
      assert (not s.file_lock)
      >> (get_file fd s >>= λ o. done (value (tell_or_zero o s)) (locked s))

  unfoldable pub close_found : Option ℕ → ℕ → Process W → Process W
  unfolding remove_fd
  close_found none fd s = s
  close_found (some f) fd s = record s {
    files = remove_fd fd s.files;
    world = fs.free (fs.file_close f s.world);
  }

  -- `close` walks from the first element on, and stops before the end.
  unfoldable pub close : ℕ → Process W → Outcome (Result × Process W)
  unfolding close_found find_fd done
  close fd s =
      assert (not s.file_lock) >> done (value 0) (close_found (find_fd fd s.files) fd (locked s))
