-- ===== src/Threads/Creation.antt =====
-- `thread_create` of Project 3/threads/thread.c: a new thread, with an identifier of its own.
use comp_sys_pint_os.Base.{
  ℕ, ◌+◌, ◌-◌, ◌%◌, ◌<◌, ◌≤◌, ◌≡◌, ◌≢◌, ◌^◌, refl, sym, ap, ◌∙◌, subst, true, false, ◌==◌, leb,
  if◌then◌else◌, [], ◌∷◌, ◌++◌, map, All-append, Lacks, In, All-In, All-map, All-zip, some, update,
  arith, Returns, Returns->>=, ==_refl, ==_ne,
}
use comp_sys_pint_os.Alarm.{Status, ready, blocked}
use comp_sys_pint_os.Alarm.Invariant.{All-update}
use comp_sys_pint_os.Threads.{
  Pages, Threads, pri_max, has_tid, is_thread, allocate_tid, init_thread, push_frames,
  thread_unblock, create_process, create_on, thread_create, thread_alive, tid_error,
}
use comp_sys_pint_os.Threads.Lists.{IsValid, ready_before}
use comp_sys_pint_os.Threads.Invariant.{IsDistinct-append, unblock-IsValid, blocked≢ready}
use comp_sys_pint_os.Threads.Names.{
  In-append-last, In-append, In-unappend, map-update, map-append, All-below, has_tid-append,
  has_tid-update,
}
use comp_sys_pint_os.Threads.Frames.{Unmoved, Unmoved-IsValid, push_frames-Unmoved}

ne_of_apart : (a b : ℕ) → (a == b) ≡ false → a ≢ b
ne_of_apart a b h e = ground arith

leb_of_le : (a b : ℕ) → a ≤ b → leb a b ≡ true
leb_of_le a b h = ground arith

module _ {W : Type 0} (k : Pages W) where
  -- The thread `t` has been added, with the identifier that was the next one, and is the last of the
  -- ready threads.
  unfoldable pub Created : Threads W → ℕ → ℕ × Threads W → Type 0
  Created s t (tid, u) =
      (tid ≡ s.next_tid)
      × IsValid k u
      × (u.ready_list ≡ s.ready_list ++ t ∷ [])
      × (u.status t ≡ ready)
      × ((pid : ℕ)
          → thread_alive k pid u ≡ (if s.next_tid == pid then true else thread_alive k pid s))

  module _ (s : Threads W) (v : IsValid k s) (t priority : ℕ) (w : W) (nonzero : t ≢ 0)
      (new : Lacks t s.all_list) (small : s.next_tid + 1 < 2 ^ 31) where
    -- The state once the new thread is in the list of all threads, with its identifier.
    entered : Threads W
    entered = record s {
      status = update s.status t blocked;
      tid = update (update s.tid t 0) t s.next_tid;
      priority = update s.priority t priority;
      magic = update s.magic t true;
      stack = update s.stack t (t + 4096);
      has_pagedir = update s.has_pagedir t false;
      children = update s.children t [];
      all_list = s.all_list ++ t ∷ [];
      next_tid = (s.next_tid + 1) % 2 ^ 32;
      world = w;
    }

    tids_before : map (update (update s.tid t 0) t s.next_tid) s.all_list ≡ map s.tid s.all_list
    tids_before =
        map-update (update s.tid t 0) t s.next_tid s.all_list new
        ∙ map-update s.tid t 0 s.all_list new

    apart : (u : ℕ) → In u s.all_list → (t == u) ≡ false
    apart u m = All-In (λ x. (t == x) ≡ false) u s.all_list new m

    apart_ready : Lacks t s.ready_list
    apart_ready = All-map _ _ s.ready_list apart v.lists.ready_known

    entered-IsValid : IsValid k entered
    unfolding entered is_thread
    entered-IsValid = record {
      lists = record {
        all_ready = All-update s.status blocked ready t s.ready_list apart_ready v.lists.all_ready;
        ready_distinct = v.lists.ready_distinct;
        ready_known =
            All-map _ _ s.ready_list (λ u m. In-append u t s.all_list m) v.lists.ready_known;
        idle_not_ready = v.lists.idle_not_ready;
        idle_known = In-append s.idle_thread t s.all_list v.lists.idle_known;
        magic =
            All-append _ s.all_list (t ∷ [])
              (All-zip (λ u. (t == u) ≡ false) (λ u. is_thread k u s ≡ true) _ s.all_list
                (λ u ne m. rw ne m) new v.lists.magic)
              (rw (==_refl t, ==_ne t 0 nonzero) refl, tt);
        tids =
            All-append _ s.all_list (t ∷ [])
              (All-zip (λ u. (t == u) ≡ false) (λ u. s.tid u < s.next_tid) _ s.all_list
                (λ u ne m. rw ne (omega (arith, m, small))) new v.lists.tids)
              (rw (==_refl t) (omega (arith, small)), tt);
        tids_distinct =
            rw
              (
                map-append (update (update s.tid t 0) t s.next_tid) t s.all_list,
                tids_before,
                ==_refl t,
              )
              (IsDistinct-append s.next_tid (map s.tid s.all_list) v.lists.tids_distinct
                (All-below s.tid s.next_tid s.all_list v.lists.tids));
      };
      runs = rw (apart s.current v.runs_known) v.runs;
      runs_known = In-append s.current t s.all_list v.runs_known;
      all_listed = λ u known r ne.
          let (was, other) = ready_before s.status t u blocked blocked≢ready r in
          v.all_listed u (In-unappend t u s.all_list other known) was ne;
    }

    entered-alive :
        (pid : ℕ)
        → has_tid entered.tid pid entered.all_list
          ≡ (if s.next_tid == pid then true else has_tid s.tid pid s.all_list)
    unfolding entered
    entered-alive pid =
        has_tid-append entered.tid t pid s.all_list
        ∙ rw
            (
              ==_refl t,
              has_tid-update (update s.tid t 0) t s.next_tid pid s.all_list new,
              has_tid-update s.tid t 0 pid s.all_list new,
            )
            refl

    known : In t entered.all_list
    unfolding entered
    known = In-append-last t s.all_list

    real : (u : Threads W) → IsValid k u → u.all_list ≡ entered.all_list → is_thread k t u ≡ true
    real u h e =
        All-In (λ x. is_thread k x u ≡ true) t u.all_list h.lists.magic (subst (In t) (sym e) known)

    process-Created :
        (function aux : ℕ) (x : W)
        → k.sizeof_switch_entry % 4 ≡ 0
        → k.sizeof_switch_threads % 4 ≡ 0
        → Returns (Created s t) (create_process k t s.next_tid function aux (true, x) entered)
    unfolding create_process Created thread_alive entered
    process-Created function aux x entry_words threads_words =
        Returns->>= (Unmoved k listed) (Created s t) (push_frames k t function aux listed) _
          (push_frames-Unmoved k t function aux listed (real listed listed-IsValid refl) entry_words
            threads_words)
          (λ a p.
            let va = Unmoved-IsValid k listed a p listed-IsValid in
            Returns->>= (Unblocked a) (Created s t) (thread_unblock k t a) _
              (unblock-IsValid k a va t (subst (In t) (sym p.all_list) known)
                (ap (λ (f : ℕ → Status). f t) p.status ∙ rw (==_refl t) refl)
                (λ e.
                  ne_of_apart t s.idle_thread (apart s.idle_thread v.lists.idle_known)
                    (e ∙ p.idle_thread)))
              (λ b q. (
                refl,
                q.0,
                q.3 ∙ ap (λ l. l ++ t ∷ []) p.ready_list,
                q.4,
                λ pid. rw (q.1, q.2, p.tid, p.all_list) (entered-alive pid),
              )))
      where
        Unblocked : Threads W → Threads W → Type 0
        Unblocked a u =
            IsValid k u
            × (u.tid ≡ a.tid)
            × (u.all_list ≡ a.all_list)
            × (u.ready_list ≡ a.ready_list ++ t ∷ [])
            × (u.status t ≡ ready)

        listed : Threads W
        listed = record entered {
          children = update (update entered.children t []) s.current (
              update entered.children t [] s.current
              ++ record { runs = true; exit = 2 ^ 32 - 1; pid = s.next_tid; sema = 0 } ∷ []);
          world = x;
        }

        listed-IsValid : IsValid k listed
        listed-IsValid =
            Unmoved-IsValid k entered listed
              (record {
                status = refl;
                tid = refl;
                magic = refl;
                all_list = refl;
                ready_list = refl;
                current = refl;
                idle_thread = refl;
                next_tid = refl;
              })
              entered-IsValid

  -- In a valid state, if the counter of identifiers is not at the end of an `int`, there is a function,
  -- the priority is at most PRI_MAX, a page is allocated, which is not NULL and not the page of a known
  -- thread, the `struct process` is allocated and the frames of switch.h are whole words, then
  -- `thread_create` returns the next identifier, with a valid state. The new thread is ready, at the end
  -- of the ready list, whose other threads stay. `thread_alive` is then true of that identifier, and as
  -- before of every other.
  pub thread_create-Created :
      (s : Threads W) (t priority function aux : ℕ) (w x : W)
      → IsValid k s
      → t ≢ 0
      → Lacks t s.all_list
      → s.next_tid + 1 < 2 ^ 31
      → function ≢ 0
      → priority ≤ pri_max
      → k.palloc_get_page s.world ≡ (some t, w)
      → k.malloc w ≡ (true, x)
      → k.sizeof_switch_entry % 4 ≡ 0
      → k.sizeof_switch_threads % 4 ≡ 0
      → Returns (Created s t) (thread_create k priority function aux s)
  unfolding thread_create create_on init_thread allocate_tid entered
  thread_create-Created s t priority function aux w x v nonzero new small f p page info entry_words
        threads_words =
      rw (==_ne function 0 f, page, ==_ne t 0 nonzero, low, info)
        (process-Created s v t priority w nonzero new small function aux x entry_words
          threads_words)
    where
      low : leb priority pri_max ≡ true
      low = leb_of_le priority pri_max p

  -- In any state, if there is a function, the priority is at most PRI_MAX and a page other than NULL is
  -- allocated, but no `struct process`, then `thread_create` returns TID_ERROR and gives the page back,
  -- while the thread in it stays at the end of the list of all threads.
  pub thread_create_leaves_thread :
      (s : Threads W) (t priority function aux : ℕ) (w x : W)
      → t ≢ 0
      → function ≢ 0
      → priority ≤ pri_max
      → k.palloc_get_page s.world ≡ (some t, w)
      → k.malloc w ≡ (false, x)
      → Returns
          (λ r.
            (r.0 ≡ tid_error)
            × (r.1.world ≡ k.palloc_free_page t x)
            × (r.1.all_list ≡ s.all_list ++ t ∷ []))
          (thread_create k priority function aux s)
  unfolding thread_create create_on init_thread allocate_tid create_process
  thread_create_leaves_thread s t priority function aux w x nonzero f p page info =
      rw (==_ne function 0 f, page, ==_ne t 0 nonzero, low, info) (refl, refl, refl)
    where
      low : leb priority pri_max ≡ true
      low = leb_of_le priority pri_max p
