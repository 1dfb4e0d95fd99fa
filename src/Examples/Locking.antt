-- ===== src/Examples/Locking.antt =====
-- One lock of Project 3/threads/synch.c and three threads.
use comp_sys_pint_os.Base.{
  update, ◌==◌, ℕ, ◌+◌, ◌∷◌, true, ◌==◌, if◌then◌else◌, ◌≡◌, refl, false, [], some, none, ◌⊎◌,
  Returns, arith,
}
use comp_sys_pint_os.Synch.{
  sema_init, sema_down_round, testing, releasing, System, Reachable, start, starts, steps, acquires,
  notes, releases, ups, down, up, note_holder, lock_acquire, lock_release, lock_try_acquire,
  sema_up, lock_held_by,
}
use comp_sys_pint_os.Synch.Condition.{
  Monitor, cond_signal, cond_broadcast, cond_signal_wakes, cond_broadcast_counts,
}
use comp_sys_pint_os.Synch.Exclusion.{Reachable-exclusion, Reachable-wakes, lock_try_acquire_lists}

-- Thread 1 gets the lock, thread 2 waits for it.
abbrev one_holds : System
one_holds = note_holder 1 (down 1 start)

abbrev two_waits : System
two_waits = down 2 one_holds

one_holds-Reachable : Reachable one_holds
unfolding start down note_holder lock_acquire lock_held_by
one_holds-Reachable =
    steps (steps starts (acquires 1 start (down 1 start) refl refl)) (notes 1 (down 1 start) refl)

two_waits-Reachable : Reachable two_waits
unfolding start down note_holder lock_acquire lock_held_by
two_waits-Reachable = steps one_holds-Reachable (acquires 2 one_holds two_waits refl refl)

-- Thread 1 has given the lock back, and woken thread 2.
abbrev given_back : System
given_back = record {
  lock = record (two_waits.lock) { holder = none; listed = none };
  place = λ t. if 1 == t then releasing else two_waits.place t;
}

abbrev two_woken : System
two_woken = up 1 given_back

two_woken-Reachable : Reachable two_woken
unfolding start down note_holder lock_release lock_held_by
two_woken-Reachable =
    steps (steps two_waits-Reachable (releases 1 two_waits given_back refl refl))
      (ups 1 given_back refl)

abbrev first : ℕ
first = 1

Reachable-exclusion_example : (first ≡ first) × (two_waits.lock.holder ≡ some 1)
Reachable-exclusion_example =
    Reachable-exclusion two_waits 1 1 two_waits-Reachable (unfold start down note_holder in refl)
      (unfold start down note_holder in refl)

Reachable-wakes_example :
    (two_woken.lock.semaphore.waiters ≡ []) ⊎ ((t : ℕ) × (two_woken.place t ≡ testing))
Reachable-wakes_example =
    Reachable-wakes two_woken two_woken-Reachable
      (unfold start down note_holder up sema_up in λ e. omega (arith, e))

lock_try_acquire_lists_example :
    Returns
      (λ r. (r.0 ≡ false) × (r.1.lock.holder ≡ some 1) × (r.1.lock.listed ≡ some 3))
      (lock_try_acquire 3 two_waits)
lock_try_acquire_lists_example =
    lock_try_acquire_lists two_waits 3 1 two_waits-Reachable (unfold start down note_holder in refl)
      (unfold start down note_holder in refl)

-- Threads 4 and 5 wait for a condition, and 4 sleeps; the current thread holds the lock.
abbrev two_wait : Monitor
two_wait = record {
  held = true;
  waiters = 4 ∷ 5 ∷ [];
  semas = update (λ t. sema_init 0) 4 (record { value = 0; waiters = 4 ∷ [] });
  asleep = λ t. t == 4;
}

cond_signal_wakes_example :
    Returns
      (λ u.
        (u.waiters ≡ 5 ∷ [])
        × (u.asleep 4 ≡ false)
        × ((sema_down_round 4 (u.semas 4)).0 ≡ true)
        × (u.semas 5 ≡ two_wait.semas 5))
      (cond_signal two_wait)
cond_signal_wakes_example = cond_signal_wakes 4 5 (5 ∷ []) two_wait refl refl (λ e. refl) refl

cond_broadcast_counts_example :
    Returns
      (λ u. (u.waiters ≡ []) × ((u.semas 5).value ≡ (two_wait.semas 5).value + 1))
      (cond_broadcast two_wait)
cond_broadcast_counts_example = cond_broadcast_counts 5 two_wait refl
