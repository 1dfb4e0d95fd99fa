-- ===== src/Examples/Calling.antt =====
-- The system calls of Project 2 on a process with three open files, where every word of user memory
-- is 100 and every string is empty.
use comp_sys_pint_os.Base.{ℕ, ◌+◌, ◌≡◌, refl, Bool, true, false, List, [], ◌∷◌, some, panic}
use comp_sys_pint_os.Project2.{ProcessFile, Machine, Process, file_check, process_file_get}
use comp_sys_pint_os.Project2.Calls.{sys_open, sys_seek, syscall_handler}
use comp_sys_pint_os.Project2.Lookup.{every_second, is_even, looked_up, file_check-every_second}
use comp_sys_pint_os.Project2.Locked.{Ends, keeps_lock, args_of, syscall_handler-keeps_lock}
use comp_sys_pint_os.Project2.Held.{takes_lock, syscall_handler_panics}
use comp_sys_pint_os.Examples.Machine.{pc}

abbrev machine : Machine ℕ
machine = record {
  strlen = λ w a. 0;
  word = λ w a. 100;
  malloc = λ w. (true, w);
  filesys_create = λ f n w. (true, w + 1);
  filesys_remove = λ f w. (true, w + 1);
  filesys_open = λ f w. (some 7, w);
  file_length = λ w f. 512;
  file_write = λ f b n w. (n, w);
  file_seek = λ f p w. w;
  file_tell = λ w f. 0;
  input_getc = λ w. (65, w);
  store_byte = λ a b w. w;
  putbuf = λ b n w. w;
}

abbrev three_files : List ProcessFile
three_files =
    record { file = 11; fd = 2 } ∷ record { file = 12; fd = 3 } ∷ record { file = 13; fd = 4 } ∷ []

abbrev process : Bool → Process ℕ
process held = record { fd = 5; file_list = three_files; lock = held; world = 0 }

abbrev garbage : ℕ → ℕ
garbage n = 0

file_check-every_second_example :
    file_check 3 three_files
    ≡ looked_up (process_file_get 3 (every_second three_files)) (is_even three_files)
file_check-every_second_example = file_check-every_second 3 three_files

syscall_handler-keeps_lock_example :
    Ends
      (λ a.
        a.1.lock
        ≡ keeps_lock machine pc sys_open
            (args_of machine pc 4096 garbage (process false))
            (process false))
      (syscall_handler machine pc sys_open 4096 garbage (process false))
syscall_handler-keeps_lock_example =
    syscall_handler-keeps_lock machine pc sys_open 4096 garbage (process false) refl

syscall_handler_panics_example :
    syscall_handler machine pc sys_seek 4096 garbage (process true) ≡ panic
unfolding takes_lock
syscall_handler_panics_example =
    syscall_handler_panics machine pc sys_seek 4096 garbage (process true) refl refl
