-- ===== src/Alarm.antt =====
-- Project 1/thread.c and Project 1/timer.c: the priority scheduler and the alarm clock.
-- A thread is its identifier; the members of `struct thread` are functions of it. Ticks and
-- priorities are native numbers: the 64-bit counter is taken not to wrap, and `timer_sleep` to be
-- called with a number of ticks that is not negative.
pub mod Order
pub mod Invariant
pub mod Switch
pub mod Wake
use comp_sys_pint_os.Base.{
  update, ℕ, zero, suc, ◌+◌, ◌-◌, Bool, true, false, ltb, leb, ◌==◌, if◌then◌else◌, not, List, [],
  ◌∷◌, Outcome, returns, panic, ◌>>=◌, ◌>>◌, assert,
}

-- `enum thread_status`
pub data Status : Type 0 where
  running ready blocked dying : Status

abbrev pub is_blocked : Status → Bool
is_blocked blocked = true
is_blocked _ = false

abbrev pub is_running : Status → Bool
is_running running = true
is_running _ = false

-- The globals of both files, and the members of the threads.
pub record Kernel : Type 0 where
  pub status : ℕ → Status
  pub priority : ℕ → ℕ
  pub wake_tick : ℕ → ℕ
  pub ready_list : List ℕ
  pub wait_list : List ℕ
  pub current : ℕ
  pub idle_thread : ℕ
  pub ticks : ℕ
  pub thread_ticks : ℕ
  pub idle_ticks : ℕ
  pub kernel_ticks : ℕ
  pub intr_on : Bool

-- `least_sleep` and `prio_detect`, the orders of the two lists.
unfoldable pub least_sleep : (ℕ → ℕ) → ℕ → ℕ → Bool
least_sleep wake_tick a b = ltb (wake_tick a) (wake_tick b)

unfoldable pub prio_detect : (ℕ → ℕ) → ℕ → ℕ → Bool
prio_detect priority a b = ltb (priority b) (priority a)

-- `list_insert_ordered` of lib/kernel/list.h is the argument `insert`.
module _ (insert : (ℕ → ℕ → Bool) → ℕ → List ℕ → List ℕ) where
  unfoldable pub thread_unblock : ℕ → Kernel → Outcome Kernel
  unfolding prio_detect
  thread_unblock t s = do
    assert (is_blocked (s.status t))
    returns (record s {
      ready_list = insert (prio_detect s.priority) t s.ready_list;
      status = update s.status t ready;
    })

  -- `next_thread_to_run`: the thread, and the ready list that it leaves.
  unfoldable pub next_thread_to_run : ℕ → List ℕ → ℕ × List ℕ
  next_thread_to_run idle_thread [] = (idle_thread, [])
  next_thread_to_run idle_thread (t ∷ ts) = (t, ts)

  -- `thread_schedule_tail` in the thread that was switched to; no thread is dying here, so none is
  -- freed.
  unfoldable pub thread_schedule_tail : Kernel → Kernel
  thread_schedule_tail s = record s { status = update s.status s.current running; thread_ticks = 0 }

  unfoldable pub schedule : Kernel → Outcome Kernel
  unfolding next_thread_to_run thread_schedule_tail
  schedule s = do
    let next = next_thread_to_run s.idle_thread s.ready_list
    assert (not s.intr_on)
    assert (not (is_running (s.status s.current)))
    returns (thread_schedule_tail (record s { current = next.0; ready_list = next.1 }))

  unfoldable pub thread_block : Kernel → Outcome Kernel
  unfolding schedule
  thread_block s = do
    assert (not s.intr_on)
    schedule (record s { status = update s.status s.current blocked })

  -- `thread_yield`; the caller's interrupt level comes back when it runs again.
  unfoldable pub thread_yield : Kernel → Outcome Kernel
  unfolding schedule prio_detect
  thread_yield s =
      let ready_list' =
        if s.current == s.idle_thread
        then s.ready_list
        else insert (prio_detect s.priority) s.current s.ready_list in
      schedule (record s {
        intr_on = false;
        ready_list = ready_list';
        status = update s.status s.current ready;
      })

  unfoldable pub timer_sleep : ℕ → Kernel → Outcome Kernel
  unfolding thread_block least_sleep
  timer_sleep ticks s =
      let wake_tick' = update s.wake_tick s.current (s.ticks + ticks) in
      assert s.intr_on
      >> thread_block (record s {
        intr_on = false;
        wake_tick = wake_tick';
        wait_list = insert (least_sleep wake_tick') s.current s.wait_list;
      })

  -- `thread_tick`: statistics only, since the preemption is commented out.
  unfoldable pub thread_tick : Kernel → Kernel
  thread_tick s =
      if s.current == s.idle_thread
      then record s { idle_ticks = s.idle_ticks + 1 }
      else record s { kernel_ticks = s.kernel_ticks + 1 }

  -- The loop of `timer_interrupt` over the wait list: the front is popped and made ready while its
  -- time has come.
  unfoldable pub wake_front : List ℕ → Kernel → Outcome Kernel
  unfolding thread_unblock
  wake_front [] s = returns s
  wake_front (t ∷ ts) s =
      let woken = thread_unblock t (record s { wait_list = ts }) >>= wake_front ts in
      if leb (s.wake_tick t) s.ticks then woken else returns s

  unfoldable pub timer_interrupt : Kernel → Outcome Kernel
  unfolding wake_front thread_tick
  timer_interrupt s =
      let t = thread_tick (record s { ticks = s.ticks + 1 }) in wake_front t.wait_list t

  -- `start` is a value that `timer_ticks` returned before.
  unfoldable pub timer_elapsed : ℕ → Kernel → ℕ
  timer_elapsed start s = s.ticks - start
