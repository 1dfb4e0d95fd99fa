-- ===== src/Threads/Switch.antt =====
-- Project 3/threads/thread.c: how the running thread gives way to the next.
use comp_sys_pint_os.Base.{
  ℕ, ◌+◌, true, false, leb, ◌==◌, if◌then◌else◌, not, ◌&&◌, List, [], ◌∷◌, ◌++◌, Option, none, some,
  Outcome, returns, ◌>>◌, assert, update,
}
use comp_sys_pint_os.Alarm.{running, ready, blocked, dying, is_running}
use comp_sys_pint_os.Threads.{Pages, Threads, time_slice, is_dying, is_thread, remove}

-- `next_thread_to_run`: the thread, and the ready list that it leaves.
unfoldable pub next_thread_to_run : ℕ → List ℕ → ℕ × List ℕ
next_thread_to_run idle_thread [] = (idle_thread, [])
next_thread_to_run idle_thread (t ∷ ts) = (t, ts)

module _ {W : Type 0} (k : Pages W) where
  -- `thread_schedule_tail`, in the thread that was switched to. A dying thread is freed, unless it is
  -- the initial one; without a switch there is no previous thread.
  unfoldable pub thread_schedule_tail : Option ℕ → Threads W → Outcome (Threads W)
  thread_schedule_tail prev s = do
    assert (not s.intr_on)
    let activated = record s {
      status = update s.status s.current running;
      thread_ticks = 0;
      world = k.process_activate s.current s.world;
    }
    elim prev [
      | none ↦ returns activated
      | some p ↦
          let freed =
            assert (not (p == s.current))
            >> returns (record activated { world = k.palloc_free_page p activated.world }) in
          if is_dying (activated.status p) && not (p == s.initial_thread)
          then freed
          else returns activated
    ]

  unfoldable pub schedule : Threads W → Outcome (Threads W)
  unfolding next_thread_to_run thread_schedule_tail is_thread
  schedule s = do
    let next = next_thread_to_run s.idle_thread s.ready_list
    let prev = if s.current == next.0 then none else some s.current
    assert (not s.intr_on)
    assert (not (is_running (s.status s.current)))
    assert (is_thread k (next.0) s)
    thread_schedule_tail prev (record s { current = next.0; ready_list = next.1 })

  unfoldable pub thread_block : Threads W → Outcome (Threads W)
  unfolding schedule
  thread_block s = do
    assert (not s.intr_on)
    schedule (record s { status = update s.status s.current blocked })

  -- `thread_yield`; the caller's interrupt level comes back when it runs again.
  unfoldable pub thread_yield : Threads W → Outcome (Threads W)
  unfolding schedule
  thread_yield s = schedule (record s {
    intr_on = false;
    ready_list =
        if s.current == s.idle_thread then s.ready_list else s.ready_list ++ s.current ∷ [];
    status = update s.status s.current ready;
  })

  -- The end of `thread_exit`, after `process_exit` and `release_locks`: the thread leaves the list of
  -- all threads and gives way for good.
  unfoldable pub leave_for_good : Threads W → Outcome (Threads W)
  unfolding schedule remove
  leave_for_good s = schedule (record s {
    intr_on = false;
    all_list = remove s.current s.all_list;
    status = update s.status s.current dying;
  })

  -- `thread_tick`: statistics, and a request to yield at the end of the interrupt.
  unfoldable pub thread_tick : Threads W → Threads W
  thread_tick s =
      let counted =
        if s.current == s.idle_thread
        then record s { idle_ticks = s.idle_ticks + 1 }
        else if s.has_pagedir s.current
        then record s { user_ticks = s.user_ticks + 1 }
        else record s { kernel_ticks = s.kernel_ticks + 1 } in
      record counted {
        thread_ticks = s.thread_ticks + 1;
        yield_on_return = if leb time_slice (s.thread_ticks + 1) then true else s.yield_on_return;
      }
