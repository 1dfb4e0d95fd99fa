-- ===== src/Examples/Threading.antt =====
-- Four threads of Project 3: one runs, two are ready, and the idle thread is blocked.
use comp_sys_pint_os.Base.{
  ℕ, ◌+◌, ◌≡◌, refl, Bool, true, false, if◌then◌else◌, ◌==◌, ltb, [], ◌∷◌, some, Returns, arith,
  inl, inr, not, In, ap, ◌⊎◌, ◌≢◌,
}
use comp_sys_pint_os.Alarm.{Status, running, ready, blocked}
use comp_sys_pint_os.Threads.{Pages, Threads, is_thread, thread_create, tid_error}
use comp_sys_pint_os.Threads.Lists.{IsValid}
use comp_sys_pint_os.Threads.Operations.{create, MayRun, run_op, run_op-IsValid}
use comp_sys_pint_os.Threads.Creation.{Created, thread_create-Created, thread_create_leaves_thread}
use comp_sys_pint_os.Threads.Turns.{yields, yields-reach}

-- The state is the next page; `malloc` fails where `full` is true.
abbrev pages : Bool → Pages ℕ
pages full = record {
  palloc_get_page = λ w. (some w, w + 4096);
  palloc_free_page = λ p w. w + 1;
  malloc = λ w. (not full, w);
  process_activate = λ t w. w;
  sizeof_switch_entry = 4;
  sizeof_switch_threads = 28;
}

-- The thread 1 runs, 2 is the idle thread, and 3 and 4 are ready.
abbrev four_threads : Threads ℕ
four_threads = record {
  status = λ t. if t == 1 then running else if t == 2 then blocked else ready;
  tid = λ t. t;
  priority = λ t. 31;
  magic = λ t. ltb 0 t;
  stack = λ t. t + 4096;
  function = λ t. 0;
  aux = λ t. 0;
  has_pagedir = λ t. false;
  children = λ t. [];
  all_list = 1 ∷ 2 ∷ 3 ∷ 4 ∷ [];
  ready_list = 3 ∷ 4 ∷ [];
  current = 1;
  idle_thread = 2;
  initial_thread = 1;
  next_tid = 5;
  idle_ticks = 0;
  kernel_ticks = 0;
  user_ticks = 0;
  thread_ticks = 0;
  intr_on = true;
  yield_on_return = false;
  world = 8192;
}

four_threads-IsValid : (full : Bool) → IsValid (pages full) four_threads
unfolding is_thread
four_threads-IsValid full = record {
  lists = record {
    all_ready = (refl, (refl, tt));
    ready_distinct = ((refl, tt), (tt, tt));
    ready_known = (inr (inr (inl refl)), (inr (inr (inr (inl refl))), tt));
    idle_not_ready = (refl, (refl, tt));
    idle_known = inr (inl refl);
    magic = (refl, (refl, (refl, (refl, tt))));
    tids = (omega arith, (omega arith, (omega arith, (omega arith, tt))));
    tids_distinct = ((refl, (refl, (refl, tt))), ((refl, (refl, tt)), ((refl, tt), (tt, tt))));
  };
  runs = refl;
  runs_known = inl refl;
  all_listed = λ t known r ne. listed t known r ne;
}
  where
    blocked_or_running : {a : Status} → (a ≡ running) ⊎ (a ≡ blocked) → a ≢ ready
    blocked_or_running (inl e) r = cc
    blocked_or_running (inr e) r = cc

    listed :
        (t : ℕ)
        → In t (1 ∷ 2 ∷ 3 ∷ 4 ∷ [])
        → four_threads.status t ≡ ready
        → t ≢ 2
        → In t (3 ∷ 4 ∷ [])
    listed t (inl e) r ne = absurd (blocked_or_running (inl (ap four_threads.status e)) r)
    listed t (inr (inl e)) r ne = absurd (ne e)
    listed t (inr (inr m)) r ne = m

run_op-IsValid_example :
    Returns (IsValid (pages false)) (run_op (pages false) (create 20 77 0) four_threads)
unfolding MayRun
run_op-IsValid_example =
    run_op-IsValid (pages false) (create 20 77 0) four_threads refl refl
      (four_threads-IsValid false)
      (
        omega arith,
        (λ e. omega (arith, e)),
        omega arith,
        record {
          page = 8192;
          rest = 12288;
          after = 12288;
          gets_page = refl;
          gets_process = refl;
          not_null = λ e. omega (arith, e);
          unused = (refl, (refl, (refl, (refl, tt))));
        },
      )

thread_create-Created_example :
    Returns
      (Created (pages false) four_threads 8192)
      (thread_create (pages false) 20 77 0 four_threads)
thread_create-Created_example =
    thread_create-Created (pages false) four_threads 8192 20 77 0 12288 12288
      (four_threads-IsValid false) (λ e. omega (arith, e)) (refl, (refl, (refl, (refl, tt))))
      (omega arith) (λ e. omega (arith, e)) (omega arith) refl refl refl refl

thread_create_leaves_thread_example :
    Returns
      (λ r. (r.0 ≡ tid_error) × (r.1.world ≡ 12289) × (r.1.all_list ≡ 1 ∷ 2 ∷ 3 ∷ 4 ∷ 8192 ∷ []))
      (thread_create (pages true) 20 77 0 four_threads)
thread_create_leaves_thread_example =
    thread_create_leaves_thread (pages true) four_threads 8192 20 77 0 12288 12288
      (λ e. omega (arith, e)) (λ e. omega (arith, e)) (omega arith) refl refl

yields-reach_example : Returns (λ u. u.current ≡ 4) (yields (pages false) 2 four_threads)
yields-reach_example =
    yields-reach (pages false) (3 ∷ []) 4 [] four_threads (four_threads-IsValid false) refl
