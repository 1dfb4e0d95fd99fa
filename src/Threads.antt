-- ===== src/Threads.antt =====
-- Project 3/threads/thread.c: threads, their identifiers and the round-robin scheduler.
-- A thread is the address of its page; the members of `struct thread` are functions of it. Pages,
-- memory and page directories are the operations of `Pages`, over a state `W`. No operation but
-- `thread_tick` is called in an interrupt.
pub mod Switch
pub mod Lists
pub mod Invariant
pub mod Leaving
pub mod Names
pub mod Frames
pub mod Creation
pub mod Operations
pub mod Turns
use comp_sys_pint_os.Base.{
  ℕ, zero, suc, ◌+◌, ◌-◌, ◌%◌, ◌^◌, Bool, true, false, leb, ◌==◌, if◌then◌else◌, not, ◌&&◌, List,
  [], ◌∷◌, ◌++◌, Option, none, some, Outcome, returns, panic, ◌>>=◌, ◌>>◌, assert, update,
}
use comp_sys_pint_os.Platform.{page_size}
use comp_sys_pint_os.Alarm.{Status, running, ready, blocked, dying, is_blocked, is_running}

abbrev pub is_dying : Status → Bool
is_dying dying = true
is_dying _ = false

-- `struct process`, as `thread_create` fills it in, with PROCESS_RUN as `runs`.
pub record Process : Type 0 where
  pub runs : Bool
  pub exit : ℕ
  pub pid : ℕ
  pub sema : ℕ

-- The allocators; the sizes are those of the frames of switch.h.
pub record Pages (W : Type 0) : Type 0 where
  pub palloc_get_page : W → Option ℕ × W
  pub palloc_free_page : ℕ → W → W
  pub malloc : W → Bool × W
  pub process_activate : ℕ → W → W
  pub sizeof_switch_entry : ℕ
  pub sizeof_switch_threads : ℕ

-- The globals of the file, and the members of the threads.
pub record Threads (W : Type 0) : Type 0 where
  pub status : ℕ → Status
  pub tid : ℕ → ℕ
  pub priority : ℕ → ℕ
  pub magic : ℕ → Bool
  pub stack : ℕ → ℕ
  pub function : ℕ → ℕ
  pub aux : ℕ → ℕ
  pub has_pagedir : ℕ → Bool
  pub children : ℕ → List Process
  pub all_list : List ℕ
  pub ready_list : List ℕ
  pub current : ℕ
  pub idle_thread : ℕ
  pub initial_thread : ℕ
  pub next_tid : ℕ
  pub idle_ticks : ℕ
  pub kernel_ticks : ℕ
  pub user_ticks : ℕ
  pub thread_ticks : ℕ
  pub intr_on : Bool
  pub yield_on_return : Bool
  pub world : W

-- TID_ERROR, PRI_MAX, TIME_SLICE and the size of `struct kernel_thread_frame`
abbrev pub tid_error : ℕ
tid_error = 2 ^ 32 - 1

abbrev pub pri_max : ℕ
pri_max = 63

abbrev pub time_slice : ℕ
time_slice = 4

abbrev pub sizeof_kernel_thread : ℕ
sizeof_kernel_thread = 12

-- `list_remove`
unfoldable pub remove : ℕ → List ℕ → List ℕ
remove t [] = []
remove t (u ∷ us) = if t == u then us else u ∷ remove t us

-- The loop of `thread_alive` over the list of all threads.
unfoldable pub has_tid : (ℕ → ℕ) → ℕ → List ℕ → Bool
has_tid tid pid [] = false
has_tid tid pid (t ∷ ts) = if tid t == pid then true else has_tid tid pid ts

module _ {W : Type 0} (k : Pages W) where
  unfoldable pub is_thread : ℕ → Threads W → Bool
  is_thread t s = not (t == 0) && s.magic t

  -- `allocate_tid`; its lock is free, since nothing else is done under it. The counter is the bit
  -- pattern of an `int`.
  unfoldable pub allocate_tid : Threads W → ℕ × Threads W
  allocate_tid s = (s.next_tid, record s { next_tid = (s.next_tid + 1) % 2 ^ 32 })

  -- `init_thread`, without the name: `memset`, then the members that are not zero.
  unfoldable pub init_thread : ℕ → ℕ → Threads W → Outcome (Threads W)
  init_thread t priority s = do
    assert (not (t == 0))
    assert (leb priority pri_max)
    returns (record s {
      status = update s.status t blocked;
      tid = update s.tid t 0;
      priority = update s.priority t priority;
      magic = update s.magic t true;
      stack = update s.stack t (t + page_size);
      has_pagedir = update s.has_pagedir t false;
      children = update s.children t [];
      all_list = s.all_list ++ t ∷ [];
    })

  unfoldable pub alloc_frame : ℕ → ℕ → Threads W → Outcome (Threads W)
  unfolding is_thread
  alloc_frame t size s = do
    assert (is_thread t s)
    assert (size % 4 == 0)
    returns (record s { stack = update s.stack t (s.stack t - size) })

  unfoldable pub thread_unblock : ℕ → Threads W → Outcome (Threads W)
  unfolding is_thread
  thread_unblock t s = do
    assert (is_thread t s)
    assert (is_blocked (s.status t))
    returns (record s { ready_list = s.ready_list ++ t ∷ []; status = update s.status t ready })

  -- The three frames on the stack of the new thread, and the first of them filled in.
  unfoldable pub push_frames : ℕ → ℕ → ℕ → Threads W → Outcome (Threads W)
  unfolding alloc_frame
  push_frames t function aux s = do
    a ← alloc_frame t sizeof_kernel_thread s
    b ←
        alloc_frame t k.sizeof_switch_entry
          (record a { function = update a.function t function; aux = update a.aux t aux })
    alloc_frame t k.sizeof_switch_threads b

  -- After `malloc` of the `struct process`: without it the page goes back, and the thread stays in
  -- the list of all threads.
  unfoldable pub create_process : ℕ → ℕ → ℕ → ℕ → Bool × W → Threads W → Outcome (ℕ × Threads W)
  unfolding push_frames thread_unblock
  create_process t tid function aux (false, w) s =
      returns (tid_error, record s { world = k.palloc_free_page t w })
  create_process t tid function aux (true, w) s = do
    let p : Process = record { runs = true; exit = 2 ^ 32 - 1; pid = tid; sema = 0 }
    let parent = s.current
    let listed = record s {
      children = update (update s.children t []) parent (update s.children t [] parent ++ p ∷ []);
      world = w;
    }
    a ← push_frames t function aux listed
    b ← thread_unblock t a
    returns (tid, b)

  unfoldable pub create_on : ℕ → ℕ → ℕ → Option ℕ × W → Threads W → Outcome (ℕ × Threads W)
  unfolding create_process init_thread allocate_tid
  create_on priority function aux (none, w) s = returns (tid_error, record s { world = w })
  create_on priority function aux (some t, w) s = do
    a ← init_thread t priority (record s { world = w })
    let n = allocate_tid a
    let b = record (n.1) { tid = update n.1.tid t n.0 }
    create_process t n.0 function aux (k.malloc b.world) b

  unfoldable pub thread_create : ℕ → ℕ → ℕ → Threads W → Outcome (ℕ × Threads W)
  unfolding create_on
  thread_create priority function aux s =
      assert (not (function == 0)) >> create_on priority function aux (k.palloc_get_page s.world) s

  unfoldable pub thread_alive : ℕ → Threads W → Bool
  unfolding has_tid
  thread_alive pid s = has_tid s.tid pid s.all_list

  -- The first steps of `idle`.
  unfoldable pub start_idle : Threads W → Threads W
  start_idle s = record s { idle_thread = s.current }

  -- `thread_init`, in the thread whose page is `t`; the lists are empty.
  unfoldable pub thread_init : ℕ → Threads W → Outcome (Threads W)
  unfolding init_thread allocate_tid
  thread_init t s = do
    assert (not s.intr_on)
    a ← init_thread t 31 (record s { ready_list = []; all_list = []; initial_thread = t })
    let n = allocate_tid (record a { status = update a.status t running })
    returns (record (n.1) { tid = update n.1.tid t n.0 })

  unfoldable pub thread_set_priority : ℕ → Threads W → Threads W
  thread_set_priority p s = record s { priority = update s.priority s.current p }

  unfoldable pub thread_get_priority : Threads W → ℕ
  thread_get_priority s = s.priority s.current

  -- `thread_foreach`, whose `func` may change the rest of the machine.
  unfoldable pub for_each : (ℕ → W → W) → List ℕ → W → W
  for_each func [] w = w
  for_each func (t ∷ ts) w = for_each func ts (func t w)

  unfoldable pub thread_foreach : (ℕ → W → W) → Threads W → Outcome (Threads W)
  unfolding for_each
  thread_foreach func s =
      assert (not s.intr_on) >> returns (record s { world = for_each func s.all_list s.world })
