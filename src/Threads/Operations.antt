-- ===== src/Threads/Operations.antt =====
-- Any sequence of operations of Project 3/threads/thread.c, from a valid state.
use comp_sys_pint_os.Base.{
  ℕ, ◌%◌, ◌+◌, ◌<◌, ◌^◌, ◌≤◌, ◌≡◌, ◌≢◌, refl, true, false, ◌==◌, Lacks, In, some, Bool-cases, inl,
  inr, Outcome, returns, ◌>>=◌, Returns, Returns->>=, Returns-map,
}
use comp_sys_pint_os.Alarm.{blocked}
use comp_sys_pint_os.Threads.{Pages, Threads, pri_max, thread_create, thread_unblock}
use comp_sys_pint_os.Threads.Switch.{thread_block, thread_yield, thread_tick}
use comp_sys_pint_os.Threads.Lists.{IsValid}
use comp_sys_pint_os.Threads.Invariant.{block-IsValid, yield-IsValid, unblock-IsValid}
use comp_sys_pint_os.Threads.Frames.{Unmoved-IsValid}
use comp_sys_pint_os.Threads.Creation.{Created, thread_create-Created}

-- What a thread, or the timer, asks of the scheduler.
pub data Op : Type 0 where
  create : ℕ → ℕ → ℕ → Op
  block : Op
  unblock : ℕ → Op
  yield : Op
  tick : Op

module _ {W : Type 0} (k : Pages W) where
  unfoldable pub run_op : Op → Threads W → Outcome (Threads W)
  unfolding thread_create thread_block thread_unblock thread_yield thread_tick
  run_op (create priority function aux) s =
      thread_create k priority function aux s >>= λ r. returns r.1
  run_op block s = thread_block k s
  run_op (unblock t) s = thread_unblock k t s
  run_op yield s = thread_yield k s
  run_op tick s = returns (thread_tick k s)

  -- The memory that `thread_create` needs, in a page that no thread uses.
  pub record HasMemory (s : Threads W) : Type 0 where
    pub page : ℕ
    pub rest : W
    pub after : W
    pub gets_page : k.palloc_get_page s.world ≡ (some page, rest)
    pub gets_process : k.malloc rest ≡ (true, after)
    pub not_null : page ≢ 0
    pub unused : Lacks page s.all_list

  -- What a caller has to see to: a created thread has a function, a priority in range and memory, and
  -- the counter of identifiers is not at the end of an `int`; interrupts are off at `thread_block`; a
  -- thread that is unblocked is known, blocked and not the idle thread.
  unfoldable pub MayRun : Op → Threads W → Type 0
  MayRun (create priority function aux) s =
      (priority ≤ pri_max) × (function ≢ 0) × (s.next_tid + 1 < 2 ^ 31) × HasMemory s
  MayRun block s = s.intr_on ≡ false
  MayRun (unblock t) s = In t s.all_list × (s.status t ≡ blocked) × (t ≢ s.idle_thread)
  MayRun yield s = Unit
  MayRun tick s = Unit

  tick-IsValid : (s : Threads W) → IsValid k s → IsValid k (thread_tick k s)
  unfolding thread_tick
  tick-IsValid s v = elim (Bool-cases (s.current == s.idle_thread)) [
    | inl idle ↦ rw idle (
        Unmoved-IsValid k s _
          (record {
            status = refl;
            tid = refl;
            magic = refl;
            all_list = refl;
            ready_list = refl;
            current = refl;
            idle_thread = refl;
            next_tid = refl;
          })
          v)
    | inr other ↦ elim (Bool-cases (s.has_pagedir s.current)) [
      | inl user ↦
          rw (other, user)
            (Unmoved-IsValid k s _
              (record {
                status = refl;
                tid = refl;
                magic = refl;
                all_list = refl;
                ready_list = refl;
                current = refl;
                idle_thread = refl;
                next_tid = refl;
              })
              v)
      | inr kernel ↦
          rw (other, kernel)
            (Unmoved-IsValid k s _
              (record {
                status = refl;
                tid = refl;
                magic = refl;
                all_list = refl;
                ready_list = refl;
                current = refl;
                idle_thread = refl;
                next_tid = refl;
              })
              v)
    ]
  ]

  Created-IsValid : (s : Threads W) (t : ℕ) (r : ℕ × Threads W) → Created k s t r → IsValid k (r.1)
  unfolding Created
  Created-IsValid s t r c = c.1

  -- If the frames of switch.h are whole words, each of `thread_create`, `thread_block`,
  -- `thread_unblock`, `thread_yield` and `thread_tick` returns from a valid state, if its caller sees to
  -- what `MayRun` says, and leaves a valid state: the ready list holds just the known and ready threads
  -- other than the idle thread, each once; the identifiers of the known threads are different and below
  -- the next one; and the current thread runs and is known.
  pub run_op-IsValid :
      (op : Op) (s : Threads W)
      → k.sizeof_switch_entry % 4 ≡ 0
      → k.sizeof_switch_threads % 4 ≡ 0
      → IsValid k s
      → MayRun op s
      → Returns (IsValid k) (run_op op s)
  unfolding run_op MayRun
  run_op-IsValid (create priority function aux) s entry_words threads_words v (low, f, small, m) =
      Returns->>= (Created k s m.page) (IsValid k) (thread_create k priority function aux s) _
        (thread_create-Created k s m.page priority function aux m.rest m.after v m.not_null m.unused
          small f low m.gets_page m.gets_process entry_words threads_words)
        (λ r c. Created-IsValid s m.page r c)
  run_op-IsValid block s entry_words threads_words v off = block-IsValid k s v off
  run_op-IsValid (unblock t) s entry_words threads_words v (known, stopped, ne) =
      Returns-map _ (IsValid k) (thread_unblock k t s) (λ u h. h.0)
        (unblock-IsValid k s v t known stopped ne)
  run_op-IsValid yield s entry_words threads_words v m = yield-IsValid k s v
  run_op-IsValid tick s entry_words threads_words v m = tick-IsValid s v
