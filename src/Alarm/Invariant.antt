-- ===== src/Alarm/Invariant.antt =====
-- The lists and states of Project 1/thread.c and timer.c across every operation.
use comp_sys_pint_os.Base.{
  Lacks, IsDistinct, All-map, All-zip, update, ℕ, ◌<◌, ◌≡◌, ◌≢◌, refl, sym, ap, ◌∙◌, Bool, true,
  false, ◌==◌, ltb, not, List, [], ◌∷◌, All, arith, Returns, Returns-assert, ==_iff, ==_refl,
  if_true, Bool-cases, inl, inr, if_false, In, ◌⊎◌,
}
use comp_sys_pint_os.Alarm.{
  Kernel, Status, running, ready, blocked, dying, is_blocked, is_running, least_sleep, prio_detect,
  thread_unblock, next_thread_to_run, thread_schedule_tail, schedule,
}
use comp_sys_pint_os.Alarm.Order.{
  IsSorted, InsertsOrdered, prio_detect-IsOrder, All-insert, IsDistinct-insert,
}

-- What holds of the two lists, whoever runs. Each is in order and without repetition; the threads on
-- one are ready, those on the other blocked; and the idle thread is on neither.
pub record ListsValid (s : Kernel) : Type 0 where
  pub all_ready : All (λ t. s.status t ≡ ready) s.ready_list
  pub all_blocked : All (λ t. s.status t ≡ blocked) s.wait_list
  pub ready_sorted : IsSorted (prio_detect s.priority) s.ready_list
  pub wait_sorted : IsSorted (least_sleep s.wake_tick) s.wait_list
  pub ready_distinct : IsDistinct s.ready_list
  pub wait_distinct : IsDistinct s.wait_list
  pub idle_not_ready : Lacks s.idle_thread s.ready_list
  pub idle_not_waiting : Lacks s.idle_thread s.wait_list

pub record IsValid (s : Kernel) : Type 0 where
  pub lists : ListsValid s
  pub future : All (λ t. s.ticks < s.wake_tick t) s.wait_list
  pub runs : s.status s.current ≡ running

-- A thread of another state is not in a list of threads of one state.
pub Lacks-status :
    (status : ℕ → Status) (a b : Status) (t : ℕ) (ts : List ℕ)
    → a ≢ b
    → status t ≡ a
    → All (λ u. status u ≡ b) ts
    → Lacks t ts
Lacks-status status a b t ts ne e = All-map _ _ ts λ u h. elim (Bool-cases (t == u)) [
  | inl same ↦ absurd (ne (sym e ∙ ap status ((==_iff t u).0 same) ∙ h))
  | inr other ↦ other
]

-- Threads that the changed one is not among keep their state.
pub All-update :
    (status : ℕ → Status) (a b : Status) (t : ℕ) (ts : List ℕ)
    → Lacks t ts
    → All (λ u. status u ≡ b) ts
    → All (λ u. update status t a u ≡ b) ts
All-update status a b t ts l h = All-zip _ _ _ ts (λ u ne e. ground arith) l h

pub IsSorted-cong :
    (v w : ℕ → ℕ) (ts : List ℕ)
    → All (λ t. v t ≡ w t) ts
    → IsSorted (least_sleep w) ts
    → IsSorted (least_sleep v) ts
unfolding least_sleep
IsSorted-cong v w [] h s = tt
IsSorted-cong v w (t ∷ ts) h s = (
  All-zip (λ u. v u ≡ w u) (λ u. ltb (w u) (w t) ≡ false) (λ u. ltb (v u) (v t) ≡ false) ts
      (λ u e k. ground (arith, h.0)) h.1 s.0,
  IsSorted-cong v w ts h.1 s.1,
)

module _ (insert : (ℕ → ℕ → Bool) → ℕ → List ℕ → List ℕ) (lawful : InsertsOrdered insert) where
  -- A blocked thread that is on no wait list becomes ready.
  pub thread_unblock-ListsValid :
      (t : ℕ) (s : Kernel)
      → ListsValid s
      → s.status t ≡ blocked
      → Lacks t s.wait_list
      → (s.idle_thread == t) ≡ false
      → Returns
          (λ u.
            ListsValid u
            × (u ≡ record s {
              ready_list = insert (prio_detect s.priority) t s.ready_list;
              status = update s.status t ready;
            }))
          (thread_unblock insert t s)
  unfolding thread_unblock
  thread_unblock-ListsValid t s h e out not_idle =
      Returns-assert _ (is_blocked (s.status t)) _ (ap is_blocked e) (
        record {
          all_ready =
              All-insert insert lawful _ _ t s.ready_list (ground arith)
                (All-map _ _ s.ready_list (λ u r. ground arith) h.all_ready);
          all_blocked = All-update s.status ready blocked t s.wait_list out h.all_blocked;
          ready_sorted =
              lawful.ordered _ t s.ready_list (prio_detect-IsOrder s.priority) h.ready_sorted;
          wait_sorted = h.wait_sorted;
          ready_distinct =
              IsDistinct-insert insert lawful _ t s.ready_list
                (Lacks-status s.status blocked ready t s.ready_list (λ x. cc) e h.all_ready)
                h.ready_distinct;
          wait_distinct = h.wait_distinct;
          idle_not_ready = All-insert insert lawful _ _ t s.ready_list not_idle h.idle_not_ready;
          idle_not_waiting = h.idle_not_waiting;
        },
        refl,
      )

  not_running : (a : Status) → a ≢ running → not (is_running a) ≡ true
  not_running running ne = absurd (ne refl)
  not_running ready ne = refl
  not_running blocked ne = refl
  not_running dying ne = refl

  -- The switch to the front of the ready list `rs`, or to the idle thread.
  switched :
      (s : Kernel) (rs : List ℕ)
      → All (λ t. s.status t ≡ ready) rs
      → IsSorted (prio_detect s.priority) rs
      → IsDistinct rs
      → Lacks s.idle_thread rs
      → ListsValid s
      → All (λ t. s.ticks < s.wake_tick t) s.wait_list
      → IsValid (
          thread_schedule_tail insert (record s {
            current = (next_thread_to_run insert s.idle_thread rs).0;
            ready_list = (next_thread_to_run insert s.idle_thread rs).1;
          }))
  unfolding next_thread_to_run thread_schedule_tail
  switched s [] all_ready sorted distinct idle h future = record {
    lists = record {
      all_ready = tt;
      all_blocked =
          All-update s.status running blocked s.idle_thread s.wait_list h.idle_not_waiting
            h.all_blocked;
      ready_sorted = tt;
      wait_sorted = h.wait_sorted;
      ready_distinct = tt;
      wait_distinct = h.wait_distinct;
      idle_not_ready = tt;
      idle_not_waiting = h.idle_not_waiting;
    };
    future = future;
    runs = if_true (s.idle_thread == s.idle_thread) _ _ (==_refl s.idle_thread);
  }
  switched s (t ∷ ts) all_ready sorted distinct idle h future = record {
    lists = record {
      all_ready = All-update s.status running ready t ts distinct.0 all_ready.1;
      all_blocked =
          All-update s.status running blocked t s.wait_list
            (Lacks-status s.status ready blocked t s.wait_list (λ x. cc) all_ready.0 h.all_blocked)
            h.all_blocked;
      ready_sorted = sorted.1;
      wait_sorted = h.wait_sorted;
      ready_distinct = distinct.1;
      wait_distinct = h.wait_distinct;
      idle_not_ready = idle.1;
      idle_not_waiting = h.idle_not_waiting;
    };
    future = future;
    runs = if_true (t == t) _ _ (==_refl t);
  }

  -- The state in which `schedule` is called: the current thread does not run any more.
  pub schedule-IsValid :
      (s : Kernel)
      → ListsValid s
      → All (λ t. s.ticks < s.wake_tick t) s.wait_list
      → s.intr_on ≡ false
      → s.status s.current ≢ running
      → Returns IsValid (schedule insert s)
  unfolding schedule
  schedule-IsValid s h future off stopped = Returns-assert _ (not s.intr_on) _ (ap not off) (
      Returns-assert _ (not (is_running (s.status s.current))) _
        (not_running (s.status s.current) stopped)
        (switched s s.ready_list h.all_ready h.ready_sorted h.ready_distinct h.idle_not_ready h
          future))

  switched-keeps :
      (u : ℕ) (s : Kernel) (rs : List ℕ)
      → All (λ t. s.status t ≡ ready) rs
      → (s.idle_thread == u) ≡ false
      → s.status u ≡ blocked
      → (thread_schedule_tail insert (record s {
        current = (next_thread_to_run insert s.idle_thread rs).0;
        ready_list = (next_thread_to_run insert s.idle_thread rs).1;
      })).status
          u
        ≡ blocked
  unfolding next_thread_to_run thread_schedule_tail
  switched-keeps u s [] all_ready busy e = if_false (s.idle_thread == u) _ _ busy ∙ e
  switched-keeps u s (t ∷ ts) all_ready busy e = elim (Bool-cases (t == u)) [
    | inl same ↦ absurd (apart (sym all_ready.0 ∙ ap s.status ((==_iff t u).0 same) ∙ e))
    | inr other ↦ if_false (t == u) _ _ other ∙ e
  ]
    where
      apart : ready ≢ blocked
      apart x = cc

  -- A blocked thread stays blocked, and the wait list stays, when another thread is switched to.
  pub schedule-keeps :
      (u : ℕ) (s : Kernel)
      → All (λ t. s.status t ≡ ready) s.ready_list
      → s.intr_on ≡ false
      → s.status s.current ≢ running
      → (s.idle_thread == u) ≡ false
      → s.status u ≡ blocked
      → Returns (λ t. (t.status u ≡ blocked) × (t.wait_list ≡ s.wait_list)) (schedule insert s)
  unfolding schedule thread_schedule_tail
  schedule-keeps u s all_ready off stopped busy e =
      Returns-assert _ (not s.intr_on) _ (ap not off) (
        Returns-assert _ (not (is_running (s.status s.current))) _
          (not_running (s.status s.current) stopped)
          (switched-keeps u s s.ready_list all_ready busy e, refl))

  -- What `schedule` leaves: the front of the ready list, or the idle thread, runs; the rest of the
  -- ready list, the wake ticks and the clock stay.
  pub schedule-next :
      (s : Kernel)
      → s.intr_on ≡ false
      → s.status s.current ≢ running
      → Returns
          (λ t.
            (t.current ≡ (next_thread_to_run insert s.idle_thread s.ready_list).0)
            × (t.ready_list ≡ (next_thread_to_run insert s.idle_thread s.ready_list).1)
            × (t.wake_tick ≡ s.wake_tick)
            × (t.ticks ≡ s.ticks))
          (schedule insert s)
  unfolding schedule thread_schedule_tail
  schedule-next s off stopped = Returns-assert _ (not s.intr_on) _ (ap not off) (
      Returns-assert _ (not (is_running (s.status s.current))) _
        (not_running (s.status s.current) stopped) (refl, refl, refl, refl))

  -- Whoever is on a list is the next thread to run, or still on it.
  pub In-next_thread_to_run :
      (idle u : ℕ) (rs : List ℕ)
      → In u rs
      → (u ≡ (next_thread_to_run insert idle rs).0) ⊎ In u (next_thread_to_run insert idle rs).1
  unfolding next_thread_to_run
  In-next_thread_to_run idle u [] m = absurd m
  In-next_thread_to_run idle u (t ∷ ts) m = m

  -- Nobody left on a list in order comes before the next thread to run.
  pub next_thread_to_run-first :
      (less : ℕ → ℕ → Bool) (idle : ℕ) (rs : List ℕ)
      → IsSorted less rs
      → All
          (λ u. less u (next_thread_to_run insert idle rs).0 ≡ false)
          (next_thread_to_run insert idle rs).1
  unfolding next_thread_to_run
  next_thread_to_run-first less idle [] h = tt
  next_thread_to_run-first less idle (t ∷ ts) h = h.0
