-- ===== src/Alarm/Wake.antt =====
-- The alarm clock of Project 1/timer.c: who wakes at a timer interrupt.
use comp_sys_pint_os.Base.{
  In, All-map, All-In, update, ℕ, ◌+◌, ◌≤◌, ◌<◌, ◌≡◌, ◌≢◌, refl, sym, ap, subst, ◌∙◌, Bool, true,
  false, ◌==◌, leb, if_true, if_false, List, [], ◌∷◌, All, arith, Returns, Returns->>=, Returns-map,
  ==_iff, Bool-cases, ◌⊎◌, inl, inr,
}
use comp_sys_pint_os.Alarm.{
  Kernel, running, ready, blocked, least_sleep, prio_detect, thread_unblock, thread_tick,
  wake_front, timer_interrupt,
}
use comp_sys_pint_os.Alarm.Order.{InsertsOrdered, In-insert}
use comp_sys_pint_os.Alarm.Invariant.{ListsValid, IsValid, thread_unblock-ListsValid}

module _ (insert : (ℕ → ℕ → Bool) → ℕ → List ℕ → List ℕ) (lawful : InsertsOrdered insert) where
  -- From `s` to `t` the threads whose time has come have moved from the one list to the other.
  pub record Woken (s t : Kernel) : Type 0 where
    pub lists : ListsValid t
    pub future : All (λ u. t.ticks < t.wake_tick u) t.wait_list
    pub due : (u : ℕ) → In u s.wait_list → s.wake_tick u ≤ s.ticks → In u t.ready_list
    pub not_due : (u : ℕ) → In u s.wait_list → s.ticks < s.wake_tick u → In u t.wait_list
    pub queued : (u : ℕ) → In u s.ready_list → In u t.ready_list
    pub same_ticks : t.ticks ≡ s.ticks
    pub same_wake_ticks : t.wake_tick ≡ s.wake_tick
    pub same_current : t.current ≡ s.current
    pub still_runs : s.status s.current ≡ running → t.status s.current ≡ running

  blocked≢running : blocked ≢ running
  blocked≢running e = cc

  -- The front thread was made ready, and the loop ended in `t`.
  one_more :
      (x : ℕ) (ts : List ℕ) (s t : Kernel)
      → s.wake_tick x ≤ s.ticks
      → s.status x ≡ blocked
      → Woken
          (record s {
            wait_list = ts;
            ready_list = insert (prio_detect s.priority) x s.ready_list;
            status = update s.status x ready;
          })
          t
      → Woken (record s { wait_list = x ∷ ts }) t
  one_more x ts s t is_due is_blocked w = record {
    lists = w.lists;
    future = w.future;
    due = λ u m le. by_cases_due u m le;
    not_due = λ u m lt. by_cases_not_due u m lt;
    queued = λ u m. w.queued u (In-insert insert lawful u _ x s.ready_list (inr m));
    same_ticks = w.same_ticks;
    same_wake_ticks = w.same_wake_ticks;
    same_current = w.same_current;
    still_runs = λ r. w.still_runs (not_x r (Bool-cases (x == s.current)));
  }
    where
      by_cases_due : (u : ℕ) → In u (x ∷ ts) → s.wake_tick u ≤ s.ticks → In u t.ready_list
      by_cases_due u (inl e) le = w.queued u (In-insert insert lawful u _ x s.ready_list (inl e))
      by_cases_due u (inr m) le = w.due u m le

      by_cases_not_due : (u : ℕ) → In u (x ∷ ts) → s.ticks < s.wake_tick u → In u t.wait_list
      by_cases_not_due u (inl e) lt = absurd (not_both (ap s.wake_tick e))
        where
          not_both : s.wake_tick u ≢ s.wake_tick x
          not_both same = omega arith
      by_cases_not_due u (inr m) lt = w.not_due u m lt

      not_x :
          s.status s.current ≡ running
          → ((x == s.current) ≡ true) ⊎ ((x == s.current) ≡ false)
          → update s.status x ready s.current ≡ running
      not_x r (inl e) =
          absurd (blocked≢running (sym is_blocked ∙ ap s.status ((==_iff x s.current).0 e) ∙ r))
      not_x r (inr ne) = if_false (x == s.current) _ _ ne ∙ r

  leb_le : (a b : ℕ) → leb a b ≡ true → a ≤ b
  leb_le a b h = ground arith

  popped :
      (x : ℕ) (ts : List ℕ) (s : Kernel)
      → ListsValid (record s { wait_list = x ∷ ts })
      → ListsValid (record s { wait_list = ts })
  popped x ts s h = record {
    all_ready = h.all_ready;
    all_blocked = h.all_blocked.1;
    ready_sorted = h.ready_sorted;
    wait_sorted = h.wait_sorted.1;
    ready_distinct = h.ready_distinct;
    wait_distinct = h.wait_distinct.1;
    idle_not_ready = h.idle_not_ready;
    idle_not_waiting = h.idle_not_waiting.1;
  }

  -- The loop on a wait list `ts`.
  wake_front-Woken :
      (ts : List ℕ) (s : Kernel)
      → ListsValid (record s { wait_list = ts })
      → Returns
          (Woken (record s { wait_list = ts }))
          (wake_front insert ts (record s { wait_list = ts }))
  unfolding wake_front least_sleep
  wake_front-Woken [] s h = record {
    lists = h;
    future = tt;
    due = λ u m le. absurd m;
    not_due = λ u m lt. m;
    queued = λ u m. m;
    same_ticks = refl;
    same_wake_ticks = refl;
    same_current = refl;
    still_runs = λ r. r;
  }
  wake_front-Woken (x ∷ ts) s h = elim (Bool-cases (leb (s.wake_tick x) s.ticks)) [
    | inl is_due ↦ subst (Returns _) (sym (if_true _ _ _ is_due)) (
        Returns->>= _ (Woken (record s { wait_list = x ∷ ts }))
          (thread_unblock insert x (record s { wait_list = ts })) (wake_front insert ts)
          (thread_unblock-ListsValid insert lawful x (record s { wait_list = ts }) (popped x ts s h)
            h.all_blocked.0 h.wait_distinct.0 h.idle_not_waiting.0)
          λ u r. next u is_due r.1 (wake_front-Woken ts made_ready (subst ListsValid r.1 r.0)))
    | inr ahead ↦ subst (Returns _) (sym (if_false _ _ _ ahead)) record {
      lists = h;
      future = all_ahead ahead;
      due = λ u m le. absurd (not_due' u (All-In _ u (x ∷ ts) (all_ahead ahead) m) le);
      not_due = λ u m lt. m;
      queued = λ u m. m;
      same_ticks = refl;
      same_wake_ticks = refl;
      same_current = refl;
      still_runs = λ r. r;
    }
  ]
    where
      made_ready : Kernel
      made_ready = record s {
        wait_list = ts;
        ready_list = insert (prio_detect s.priority) x s.ready_list;
        status = update s.status x ready;
      }

      next :
          (u : Kernel)
          → leb (s.wake_tick x) s.ticks ≡ true
          → u ≡ made_ready
          → Returns (Woken made_ready) (wake_front insert ts made_ready)
          → Returns (Woken (record s { wait_list = x ∷ ts })) (wake_front insert ts u)
      next u is_due e more =
          subst (λ v. Returns (Woken (record s { wait_list = x ∷ ts })) (wake_front insert ts v))
            (sym e)
            (Returns-map _ _ (wake_front insert ts made_ready)
              (λ v w. one_more x ts s v (leb_le _ _ is_due) h.all_blocked.0 w) more)

      not_due' : (u : ℕ) → s.ticks < s.wake_tick u → ¬ (s.wake_tick u ≤ s.ticks)
      not_due' u lt le = omega arith

      all_ahead : leb (s.wake_tick x) s.ticks ≡ false → All (λ u. s.ticks < s.wake_tick u) (x ∷ ts)
      all_ahead ahead =
          (ground arith, All-map _ _ ts (λ u k. ground (arith, ahead)) h.wait_sorted.0)

  -- What a timer interrupt does: the clock goes on by one; of the waiting threads those whose time
  -- has come are ready, and the others wait on; and the threads that were ready still are.
  pub record Interrupted (s t : Kernel) : Type 0 where
    pub one_tick : t.ticks ≡ s.ticks + 1
    pub woken :
        (u : ℕ)
        → In u s.wait_list
        → s.wake_tick u ≤ s.ticks + 1
        → In u t.ready_list × (t.status u ≡ ready)
    pub waiting :
        (u : ℕ)
        → In u s.wait_list
        → s.ticks + 1 < s.wake_tick u
        → In u t.wait_list × (t.status u ≡ blocked)
    pub kept : (u : ℕ) → In u s.ready_list → In u t.ready_list
    pub same_current : t.current ≡ s.current

  -- The clock and the counters stand in none of the lists' conditions.
  counted : Kernel → ℕ → ℕ → Kernel
  counted s i k = record s { ticks = s.ticks + 1; idle_ticks = i; kernel_ticks = k }

  ticked : Kernel → Kernel
  ticked s = thread_tick insert (record s { ticks = s.ticks + 1 })

  ticked_cases :
      (s : Kernel) → (P : Kernel → Type 0) → ((i k : ℕ) → P (counted s i k)) → P (ticked s)
  unfolding ticked thread_tick counted
  ticked_cases s P f = elim (Bool-cases (s.current == s.idle_thread)) [
    | inl idle ↦ subst P (sym (if_true _ _ _ idle)) (f (s.idle_ticks + 1) s.kernel_ticks)
    | inr busy ↦ subst P (sym (if_false _ _ _ busy)) (f s.idle_ticks (s.kernel_ticks + 1))
  ]

  counted-ListsValid : (s : Kernel) (i k : ℕ) → ListsValid s → ListsValid (counted s i k)
  unfolding counted
  counted-ListsValid s i k h = record {
    all_ready = h.all_ready;
    all_blocked = h.all_blocked;
    ready_sorted = h.ready_sorted;
    wait_sorted = h.wait_sorted;
    ready_distinct = h.ready_distinct;
    wait_distinct = h.wait_distinct;
    idle_not_ready = h.idle_not_ready;
    idle_not_waiting = h.idle_not_waiting;
  }

  ended :
      (s t : Kernel) (i k : ℕ) → IsValid s → Woken (counted s i k) t → IsValid t × Interrupted s t
  unfolding counted
  ended s t i k h w = (
    record {
      lists = w.lists;
      future = w.future;
      runs = ap t.status w.same_current ∙ w.still_runs h.runs;
    },
    record {
      one_tick = w.same_ticks;
      woken = λ u m le. (w.due u m le, All-In _ u t.ready_list w.lists.all_ready (w.due u m le));
      waiting = λ u m lt.
          (w.not_due u m lt, All-In _ u t.wait_list w.lists.all_blocked (w.not_due u m lt));
      kept = w.queued;
      same_current = w.same_current;
    },
  )

  -- In a valid state the interrupt handler returns, in a valid state: no thread is waiting whose time
  -- has come, exactly the waiting threads whose time has come have become ready, and the running
  -- thread runs on.
  pub timer_interrupt-Interrupted :
      (s : Kernel)
      → IsValid s
      → Returns (λ t. IsValid t × Interrupted s t) (timer_interrupt insert s)
  unfolding timer_interrupt ticked counted
  timer_interrupt-Interrupted s h =
      ticked_cases s
        (λ v. Returns (λ t. IsValid t × Interrupted s t) (wake_front insert v.wait_list v))
        λ i k.
          Returns-map _ _ (wake_front insert s.wait_list (counted s i k)) (λ t w. ended s t i k h w)
            (wake_front-Woken s.wait_list (counted s i k) (counted-ListsValid s i k h.lists))
