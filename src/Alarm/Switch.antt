-- ===== src/Alarm/Switch.antt =====
-- The operations of Project 1/thread.c and timer.c in which the running thread gives way.
use comp_sys_pint_os.Base.{
  Lacks, IsDistinct, All-map, All-zip, update, ℕ, ◌+◌, ◌<◌, ◌≡◌, ◌≢◌, refl, sym, subst, Bool, true,
  false, ◌==◌, if◌then◌else◌, List, All, arith, Returns, Returns-assert, Returns-map, Returns-both,
  In, ==_refl, if_true, if_false, Bool-cases, inl, inr, ◌⊎◌, ◌∷◌, ◌∙◌, ==_iff,
}
use comp_sys_pint_os.Alarm.{
  Kernel, running, ready, blocked, least_sleep, prio_detect, thread_block, thread_yield,
  timer_sleep, schedule, next_thread_to_run,
}
use comp_sys_pint_os.Alarm.Order.{
  IsSorted, InsertsOrdered, least_sleep-IsOrder, prio_detect-IsOrder, All-insert, In-insert,
  IsDistinct-insert,
}
use comp_sys_pint_os.Alarm.Invariant.{
  ListsValid, IsValid, Lacks-status, All-update, IsSorted-cong, schedule-IsValid, schedule-keeps,
  schedule-next, In-next_thread_to_run, next_thread_to_run-first,
}

module _ (insert : (ℕ → ℕ → Bool) → ℕ → List ℕ → List ℕ) (lawful : InsertsOrdered insert) where
  -- In a valid state with interrupts on, if a thread other than the idle thread sleeps for one tick or
  -- more, no assertion fails and the state is valid again; the thread is blocked and on the wait list,
  -- to be woken that number of ticks after the present one, and the wake ticks of the others and the
  -- clock are as they were.
  pub timer_sleep-IsValid :
      (d : ℕ) (s : Kernel)
      → IsValid s
      → s.intr_on ≡ true
      → (s.idle_thread == s.current) ≡ false
      → 0 < d
      → Returns
          (λ t.
            IsValid t
            × (t.status s.current ≡ blocked)
            × In s.current t.wait_list
            × (t.wake_tick ≡ update s.wake_tick s.current (s.ticks + d))
            × (t.ticks ≡ s.ticks))
          (timer_sleep insert d s)
  unfolding timer_sleep thread_block
  timer_sleep-IsValid d s h on busy later = Returns-assert _ s.intr_on _ on (
      Returns-map _ _ (schedule insert asleep)
        (λ t r. (r.0.0, r.0.1.0, subst (In s.current) (sym r.0.1.1) listed, r.1.2, r.1.3))
        (Returns-both _ _ (schedule insert asleep)
          (Returns-both _ _ (schedule insert asleep)
            (schedule-IsValid insert lawful asleep lists' future' refl stopped)
            (schedule-keeps insert lawful s.current asleep lists'.all_ready refl stopped busy
              at_rest))
          (schedule-next insert lawful asleep refl stopped)))
    where
      wake' : ℕ → ℕ
      wake' = update s.wake_tick s.current (s.ticks + d)

      asleep : Kernel
      asleep = record s {
        intr_on = false;
        wake_tick = wake';
        wait_list = insert (least_sleep wake') s.current s.wait_list;
        status = update s.status s.current blocked;
      }

      at_rest : asleep.status s.current ≡ blocked
      at_rest = if_true (s.current == s.current) _ _ (==_refl s.current)

      listed : In s.current asleep.wait_list
      listed = In-insert insert lawful s.current _ s.current s.wait_list (inl refl)

      not_waiting : Lacks s.current s.wait_list
      not_waiting =
          Lacks-status s.status running blocked s.current s.wait_list (λ x. cc) h.runs
            h.lists.all_blocked

      not_ready : Lacks s.current s.ready_list
      not_ready =
          Lacks-status s.status running ready s.current s.ready_list (λ x. cc) h.runs
            h.lists.all_ready

      same_wake : All (λ t. wake' t ≡ s.wake_tick t) s.wait_list
      same_wake = All-map _ _ s.wait_list (λ t ne. ground arith) not_waiting

      stopped : asleep.status asleep.current ≢ running
      stopped e = ground arith

      lists' : ListsValid asleep
      lists' = record {
        all_ready =
            All-update s.status blocked ready s.current s.ready_list not_ready h.lists.all_ready;
        all_blocked =
            All-insert insert lawful _ _ s.current s.wait_list (ground arith)
              (All-map _ _ s.wait_list (λ u b. ground arith) h.lists.all_blocked);
        ready_sorted = h.lists.ready_sorted;
        wait_sorted =
            lawful.ordered _ s.current s.wait_list (least_sleep-IsOrder wake')
              (IsSorted-cong wake' s.wake_tick s.wait_list same_wake h.lists.wait_sorted);
        ready_distinct = h.lists.ready_distinct;
        wait_distinct =
            IsDistinct-insert insert lawful _ s.current s.wait_list not_waiting
              h.lists.wait_distinct;
        idle_not_ready = h.lists.idle_not_ready;
        idle_not_waiting =
            All-insert insert lawful _ _ s.current s.wait_list busy h.lists.idle_not_waiting;
      }

      future' : All (λ t. s.ticks < wake' t) asleep.wait_list
      future' =
          All-insert insert lawful _ _ s.current s.wait_list (ground arith)
            (All-zip _ _ _ s.wait_list (λ t e lt. omega (arith, e)) same_wake h.future)

  -- In a valid state a thread that yields leaves a valid state: no assertion fails, the lists are in
  -- order and the thread that was switched to runs. Nobody is lost: the thread that yielded and the
  -- ready ones, other than the idle thread, each run or are on the ready list. And no thread on the
  -- ready list has a higher priority than the one that runs.
  pub thread_yield-IsValid :
      (s : Kernel)
      → IsValid s
      → Returns
          (λ t.
            IsValid t
            × ((u : ℕ)
                → In u (s.current ∷ s.ready_list)
                → u ≢ s.idle_thread
                → (u ≡ t.current) ⊎ In u t.ready_list)
            × All (λ u. prio_detect s.priority u t.current ≡ false) t.ready_list)
          (thread_yield insert s)
  unfolding thread_yield
  thread_yield-IsValid s h =
      Returns-map _ _ (schedule insert yielded)
        (λ t r. (
          r.0,
          λ u m ne.
              moved t u r.1.0 r.1.1
                (In-next_thread_to_run insert lawful s.idle_thread u queue (kept u m ne)),
          subst (λ c. All (λ u. prio_detect s.priority u c ≡ false) t.ready_list) (sym r.1.0)
              (subst
                (All (λ u.
                  prio_detect s.priority u (next_thread_to_run insert s.idle_thread queue).0
                  ≡ false))
                (sym r.1.1)
                (next_thread_to_run-first insert lawful _ s.idle_thread queue lists'.ready_sorted)),
        ))
        (Returns-both _ _ (schedule insert yielded)
          (schedule-IsValid insert lawful yielded lists' h.future refl stopped)
          (schedule-next insert lawful yielded refl stopped))
    where
      moved :
          (t : Kernel) (u : ℕ) {c : ℕ} {rs : List ℕ}
          → t.current ≡ c
          → t.ready_list ≡ rs
          → (u ≡ c) ⊎ In u rs
          → (u ≡ t.current) ⊎ In u t.ready_list
      moved t u e d (inl same) = inl (same ∙ sym e)
      moved t u e d (inr m) = inr (subst (In u) (sym d) m)

      queue : List ℕ
      queue =
          if s.current == s.idle_thread
          then s.ready_list
          else insert (prio_detect s.priority) s.current s.ready_list

      yielded : Kernel
      yielded = record s {
        intr_on = false;
        ready_list = queue;
        status = update s.status s.current ready;
      }

      not_waiting : Lacks s.current s.wait_list
      not_waiting =
          Lacks-status s.status running blocked s.current s.wait_list (λ x. cc) h.runs
            h.lists.all_blocked

      not_ready : Lacks s.current s.ready_list
      not_ready =
          Lacks-status s.status running ready s.current s.ready_list (λ x. cc) h.runs
            h.lists.all_ready

      -- A property of both possible queues.
      either :
          (P : List ℕ → Type 0)
          → P s.ready_list
          → ((s.idle_thread == s.current) ≡ false
              → P (insert (prio_detect s.priority) s.current s.ready_list))
          → P queue
      either P old new = elim (Bool-cases (s.current == s.idle_thread)) [
        | inl idle ↦ subst P (sym (if_true _ _ _ idle)) old
        | inr other ↦ subst P (sym (if_false _ _ _ other)) (new (ground arith))
      ]

      kept : (u : ℕ) → In u (s.current ∷ s.ready_list) → u ≢ s.idle_thread → In u queue
      kept u m ne = elim (Bool-cases (s.current == s.idle_thread)) [
        | inl idle ↦ subst (In u) (sym (if_true _ _ _ idle)) (other idle m)
        | inr busy ↦
            subst (In u) (sym (if_false _ _ _ busy))
              (In-insert insert lawful u _ s.current s.ready_list m)
      ]
        where
          other :
              (s.current == s.idle_thread) ≡ true
              → In u (s.current ∷ s.ready_list)
              → In u s.ready_list
          other idle (inl e) = absurd (ne (e ∙ (==_iff s.current s.idle_thread).0 idle))
          other idle (inr n) = n

      stopped : yielded.status yielded.current ≢ running
      stopped e = ground arith

      still_ready : All (λ t. yielded.status t ≡ ready) s.ready_list
      still_ready = All-map _ _ s.ready_list (λ u r. ground arith) h.lists.all_ready

      lists' : ListsValid yielded
      lists' = record {
        all_ready =
            either (All (λ t. yielded.status t ≡ ready)) still_ready
              λ ne. All-insert insert lawful _ _ s.current s.ready_list (ground arith) still_ready;
        all_blocked =
            All-update s.status ready blocked s.current s.wait_list not_waiting h.lists.all_blocked;
        ready_sorted = either (IsSorted (prio_detect s.priority)) h.lists.ready_sorted λ ne.
            lawful.ordered _ s.current s.ready_list (prio_detect-IsOrder s.priority)
              h.lists.ready_sorted;
        wait_sorted = h.lists.wait_sorted;
        ready_distinct = either IsDistinct h.lists.ready_distinct λ ne.
            IsDistinct-insert insert lawful _ s.current s.ready_list not_ready
              h.lists.ready_distinct;
        wait_distinct = h.lists.wait_distinct;
        idle_not_ready =
            either (Lacks s.idle_thread) h.lists.idle_not_ready
              λ ne. All-insert insert lawful _ _ s.current s.ready_list ne h.lists.idle_not_ready;
        idle_not_waiting = h.lists.idle_not_waiting;
      }
