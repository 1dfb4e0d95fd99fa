-- ===== src/Examples/Filing.antt =====
-- The system calls of Project 3/userprog/syscall.c for a process with two open files.
use comp_sys_pint_os.Base.{
  ℕ, ◌+◌, ◌≡◌, refl, true, false, if◌then◌else◌, ◌==◌, [], ◌∷◌, none, some, Returns, returns, arith,
}
use comp_sys_pint_os.Files.{
  not_valid, Descriptor, FileSystem, Process, value, find_fd, get_file, open_file, close,
}
use comp_sys_pint_os.Files.Table.{
  IsTable, Updates, get_file-find_fd, open_file-Updates, close-Updates,
}
use comp_sys_pint_os.Examples.Machine.{pc}

-- The state counts the files that were opened; every name is a file.
abbrev disk : FileSystem ℕ
disk = record {
  is_mapped = λ w a. true;
  malloc = λ w. (true, w);
  free = λ w. w;
  filesys_create = λ name size w. (true, w);
  filesys_remove = λ name w. (true, w);
  filesys_open = λ name w. (some (50 + w), w + 1);
  file_close = λ f w. w;
  file_length = λ w f. 100;
  file_read = λ f buffer size w. (size, w);
  file_write = λ f buffer size w. (size, w);
  file_seek = λ f position w. w;
  file_tell = λ w f. 0;
  input_getc = λ w. (65, w);
  store_byte = λ a b w. w;
  putbuf = λ a n w. w;
}

-- What stands before the first list element in `struct thread`.
abbrev garbage : Descriptor
garbage = record { fd = 77; file = 3 }

abbrev two_open : Process ℕ
two_open = record {
  next_fd = 4;
  files = record { fd = 2; file = 48 } ∷ record { fd = 3; file = 49 } ∷ [];
  file_lock = false;
  world = 0;
}

two_open-IsTable : IsTable two_open
two_open-IsTable = record {
  numbered = ((omega arith, omega arith), ((omega arith, omega arith), tt));
  distinct = ((refl, tt), (tt, tt));
  above_console = omega arith;
}

get_file-find_fd_example : get_file disk pc garbage 3 two_open ≡ returns (find_fd 3 two_open.files)
get_file-find_fd_example =
    get_file-find_fd disk pc garbage 3 two_open two_open-IsTable (λ e. omega (arith, e))

open_file-Updates_example :
    (find_fd 4 two_open.files ≡ none)
    × Returns
        (Updates disk pc garbage two_open
          (value 4)
          (λ key. if 4 == key then some 50 else find_fd key two_open.files))
        (open_file disk pc garbage 5000 two_open)
open_file-Updates_example =
    open_file-Updates disk pc garbage 5000 50 two_open two_open-IsTable (omega arith) refl
      (unfold not_valid in refl) refl refl

close-Updates_example :
    Returns
      (Updates disk pc garbage two_open
        (value 0)
        (λ key. if 2 == key then none else find_fd key two_open.files))
      (close disk pc garbage 2 two_open)
close-Updates_example = close-Updates disk pc garbage 2 two_open two_open-IsTable refl
