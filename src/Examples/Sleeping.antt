-- ===== src/Examples/Sleeping.antt =====
-- The scheduler and the alarm clock of Project 1 with four threads.
use comp_sys_pint_os.Base.{
  In, All-map, ℕ, ◌≡◌, refl, sym, ap, ◌∙◌, Bool, true, if◌then◌else◌, ◌==◌, List, [], ◌∷◌, ◌++◌,
  All, Bool-cases, inl, inr, Returns, arith, if_true, if_false, subst, update, ◌+◌, ◌⊎◌, ◌≢◌, false,
}
use comp_sys_pint_os.Alarm.{
  Kernel, Status, running, ready, blocked, timer_sleep, thread_yield, timer_interrupt, least_sleep,
  prio_detect,
}
use comp_sys_pint_os.Alarm.Order.{IsSorted, IsOrder, InsertsOrdered}
use comp_sys_pint_os.Alarm.Invariant.{IsValid}
use comp_sys_pint_os.Alarm.Switch.{timer_sleep-IsValid, thread_yield-IsValid}
use comp_sys_pint_os.Alarm.Wake.{Interrupted, timer_interrupt-Interrupted}

-- Before the first element that is greater.
insert : (ℕ → ℕ → Bool) → ℕ → List ℕ → List ℕ
insert less x [] = x ∷ []
insert less x (y ∷ ys) = if less x y then x ∷ y ∷ ys else y ∷ insert less x ys

Places : (ℕ → ℕ → Bool) → ℕ → List ℕ → Type 0
Places less x xs =
    (pre : List ℕ) × (post : List ℕ) × (xs ≡ pre ++ post) × (insert less x xs ≡ pre ++ x ∷ post)

insert-Places : (less : ℕ → ℕ → Bool) (x : ℕ) (xs : List ℕ) → Places less x xs
unfolding insert Places
insert-Places less x [] = ([], [], refl, refl)
insert-Places less x (y ∷ ys) = elim (Bool-cases (less x y)) [
  | inl before ↦ ([], y ∷ ys, refl, if_true _ _ _ before)
  | inr after ↦
      let (pre, post, e, d) = insert-Places less x ys in
      (y ∷ pre, post, ap (λ zs. y ∷ zs) e, if_false _ _ _ after ∙ ap (λ zs. y ∷ zs) d)
]

insert-All :
    (P : ℕ → Type 0) (less : ℕ → ℕ → Bool) (x : ℕ) (xs : List ℕ)
    → P x
    → All P xs
    → All P (insert less x xs)
unfolding insert
insert-All P less x [] px h = (px, tt)
insert-All P less x (y ∷ ys) px h = elim (Bool-cases (less x y)) [
  | inl before ↦ subst (All P) (sym (if_true _ _ _ before)) (px, h)
  | inr after ↦ subst (All P) (sym (if_false _ _ _ after)) (h.0, insert-All P less x ys px h.1)
]

insert-IsSorted :
    (less : ℕ → ℕ → Bool) (x : ℕ) (xs : List ℕ)
    → IsOrder less
    → IsSorted less xs
    → IsSorted less (insert less x xs)
unfolding insert
insert-IsSorted less x [] o h = (tt, tt)
insert-IsSorted less x (y ∷ ys) o h = elim (Bool-cases (less x y)) [
  | inl before ↦ subst (IsSorted less) (sym (if_true _ _ _ before)) (
    (
      o.asymmetric x y before,
      All-map _ _ ys (λ z le. o.negatively_transitive z y x le (o.asymmetric x y before)) h.0,
    ),
    h,
  )
  | inr after ↦
      subst (IsSorted less) (sym (if_false _ _ _ after))
        (insert-All _ less x ys after h.0, insert-IsSorted less x ys o h.1)
]

insert-InsertsOrdered : InsertsOrdered insert
unfolding Places
insert-InsertsOrdered = record { inserted = insert-Places; ordered = insert-IsSorted }

-- Thread 1 runs, 2 is ready, 3 sleeps until tick 11 and 4 until tick 20; thread 0 is the idle thread.
abbrev status_of : ℕ → Status
status_of t = if t == 1 then running else if t == 2 then ready else blocked

abbrev wake_of : ℕ → ℕ
wake_of t = if t == 3 then 11 else 20

abbrev machine : Kernel
machine = record {
  status = status_of;
  priority = λ t. 31;
  wake_tick = wake_of;
  ready_list = 2 ∷ [];
  wait_list = 3 ∷ 4 ∷ [];
  current = 1;
  idle_thread = 0;
  ticks = 10;
  thread_ticks = 0;
  idle_ticks = 0;
  kernel_ticks = 10;
  intr_on = true;
}

machine-IsValid : IsValid machine
unfolding least_sleep
machine-IsValid = record {
  lists = record {
    all_ready = (refl, tt);
    all_blocked = (refl, (refl, tt));
    ready_sorted = (tt, tt);
    wait_sorted = ((refl, tt), (tt, tt));
    ready_distinct = (tt, tt);
    wait_distinct = ((refl, tt), (tt, tt));
    idle_not_ready = (refl, tt);
    idle_not_waiting = (refl, (refl, tt));
  };
  future = (omega arith, (omega arith, tt));
  runs = refl;
}

timer_sleep-IsValid_example :
    Returns
      (λ t.
        IsValid t
        × (t.status 1 ≡ blocked)
        × In 1 t.wait_list
        × (t.wake_tick ≡ update wake_of 1 (10 + 7))
        × (t.ticks ≡ 10))
      (timer_sleep insert 7 machine)
timer_sleep-IsValid_example =
    timer_sleep-IsValid insert insert-InsertsOrdered 7 machine machine-IsValid refl refl
      (omega arith)

thread_yield-IsValid_example :
    Returns
      (λ t.
        IsValid t
        × ((u : ℕ) → In u (1 ∷ 2 ∷ []) → u ≢ 0 → (u ≡ t.current) ⊎ In u t.ready_list)
        × All (λ u. prio_detect (λ x. 31) u t.current ≡ false) t.ready_list)
      (thread_yield insert machine)
thread_yield-IsValid_example =
    thread_yield-IsValid insert insert-InsertsOrdered machine machine-IsValid

timer_interrupt-Interrupted_example :
    Returns
      (λ t. IsValid t × Interrupted insert insert-InsertsOrdered machine t)
      (timer_interrupt insert machine)
timer_interrupt-Interrupted_example =
    timer_interrupt-Interrupted insert insert-InsertsOrdered machine machine-IsValid
