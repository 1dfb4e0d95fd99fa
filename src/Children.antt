-- ===== src/Children.antt =====
-- Project 3/userprog: the children of one process. `struct child_process` and its list are those of
-- syscall.c, `process_wait` and the end of a child in `process_exit` those of process.c.
-- The parent and its children run in any order: `Step` lets each take its next piece.
pub mod Table
pub mod Steps
pub mod Protocol
use comp_sys_pint_os.Base.{
  ℕ, ◌+◌, ◌-◌, ◌≡◌, Bool, true, false, ◌==◌, if◌then◌else◌, List, [], ◌∷◌, ◌++◌, Option, none, some,
}

-- `struct child_process`; of `exit_sema` the value. `status` is `none` as `malloc` left it.
pub record Child : Type 0 where
  pub pid : ℕ
  pub load : ℕ
  pub wait : Bool
  pub exit : Bool
  pub status : Option ℕ
  pub exit_sema : ℕ

-- NOT_LOADED
abbrev pub not_loaded : ℕ
not_loaded = 0

-- What the parent does: it runs, or it is in `process_wait`, in the `sema_down` for a child.
pub data Parent : Type 0 where
  runs : Parent
  blocks : (pid : ℕ) → Parent

-- `executable` is a member of each child's own thread: whether its executable is open.
pub record Family : Type 0 where
  pub child_list : List Child
  pub executable : ℕ → Bool
  pub parent : Parent

-- `add_child_process`; `allocated` is whether `malloc` has memory.
unfoldable pub add_child_process : Bool → ℕ → Family → Family
add_child_process allocated pid s =
    if allocated
    then record s {
      child_list =
          s.child_list
          ++ record {
            pid = pid;
            load = not_loaded;
            wait = false;
            exit = false;
            status = none;
            exit_sema = 0;
          }
            ∷ [];
    }
    else s

unfoldable pub find_child : ℕ → List Child → Option Child
find_child pid [] = none
find_child pid (c ∷ cs) = if pid == c.pid then some c else find_child pid cs

unfoldable pub get_child_process : ℕ → Family → Option Child
unfolding find_child
get_child_process pid s = find_child pid s.child_list

-- A write to the child that `get_child_process` finds.
unfoldable pub change_child : ℕ → (Child → Child) → List Child → List Child
change_child pid f [] = []
change_child pid f (c ∷ cs) = if pid == c.pid then f c ∷ cs else c ∷ change_child pid f cs

unfoldable pub remove_child : ℕ → List Child → List Child
remove_child pid [] = []
remove_child pid (c ∷ cs) = if pid == c.pid then cs else c ∷ remove_child pid cs

-- `remove_child_process` of the child that `get_child_process` finds.
unfoldable pub remove_child_process : ℕ → Family → Family
unfolding remove_child
remove_child_process pid s = record s { child_list = remove_child pid s.child_list }

unfoldable pub remove_child_processes : Family → Family
remove_child_processes s = record s { child_list = [] }

-- What `process_wait` has come to: it returns ERROR, or a status, or it sleeps.
pub data WaitEnd : Type 0 where
  error : WaitEnd
  status : Option ℕ → WaitEnd
  sleeps : WaitEnd

-- `process_wait` up to its only pause.
unfoldable pub wait_found : ℕ → Option Child → Family → WaitEnd × Family
unfolding change_child remove_child_process
wait_found pid none s = (error, s)
wait_found pid (some c) s =
    let noted : Family = record s {
      child_list = change_child pid (λ x. record x { wait = true }) s.child_list;
    } in
    if c.wait
    then (error, s)
    else if c.exit
    then (status c.status, remove_child_process pid noted)
    else (sleeps, record noted { parent = blocks pid })

unfoldable pub process_wait : ℕ → Family → WaitEnd × Family
unfolding wait_found get_child_process
process_wait pid s = wait_found pid (get_child_process pid s) s

-- `process_wait` from its `sema_down` on, when the semaphore of the child `c` is up.
unfoldable pub wait_resume : ℕ → Child → Family → WaitEnd × Family
unfolding remove_child_process
wait_resume pid c s = (status c.status, record (remove_child_process pid s) { parent = runs })

-- The end of a child in `process_exit`, where its parent is alive: nothing is said to the parent of a
-- child whose executable is not open.
unfoldable pub child_exits : Bool → ℕ → Family → Family
unfolding change_child
child_exits false pid s = s
child_exits true pid s = record s {
  child_list =
      change_child pid (λ c. record c { exit = true; exit_sema = c.exit_sema + 1 }) s.child_list;
}

-- The parent makes a child with a new identifier, calls `process_wait`, or wakes from its
-- `sema_down`; or a child exits.
pub data Step : Family → Family → Type 0 where
  forks :
      (pid : ℕ) (s : Family)
      → s.parent ≡ runs
      → find_child pid s.child_list ≡ none
      → Step s (add_child_process true pid s)
  waits : (pid : ℕ) (s : Family) → s.parent ≡ runs → Step s (process_wait pid s).1
  resumes :
      (pid : ℕ) (c : Child) (s : Family)
      → s.parent ≡ blocks pid
      → find_child pid s.child_list ≡ some c
      → (c.exit_sema == 0) ≡ false
      → Step s (wait_resume pid c s).1
  exits :
      (pid : ℕ) (c : Child) (s : Family)
      → find_child pid s.child_list ≡ some c
      → c.exit ≡ false
      → Step s (child_exits (s.executable pid) pid s)

abbrev pub childless : (ℕ → Bool) → Family
childless executable = record { child_list = []; executable = executable; parent = runs }

pub data Reachable : Family → Type 0 where
  starts : (executable : ℕ → Bool) → Reachable (childless executable)
  steps : {s u : Family} → Reachable s → Step s u → Reachable u
