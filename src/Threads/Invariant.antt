-- ===== src/Threads/Invariant.antt =====
-- The lists, states and identifiers of Project 3/threads/thread.c across its operations.
use comp_sys_pint_os.Base.{
  ℕ, ◌≡◌, ◌≢◌, refl, sym, ap, ◌∙◌, Bool, true, false, not, ◌==◌, if◌then◌else◌, List, [], ◌∷◌, ◌++◌,
  All, All-append, Lacks, IsDistinct, In, All-In, All-map, update, arith, Returns, Returns-map,
  Returns-assert, ==_refl, ==_ne, ==_iff, Bool-cases, inl, inr, subst, if_true, if_false,
}
use comp_sys_pint_os.Threads.Names.{In-append-last, In-append}
use comp_sys_pint_os.Alarm.{Status, running, ready, blocked, is_running}
use comp_sys_pint_os.Alarm.Invariant.{Lacks-status, All-update}
use comp_sys_pint_os.Threads.{Pages, Threads, is_thread, thread_unblock}
use comp_sys_pint_os.Threads.Switch.{thread_block, thread_yield, schedule}
use comp_sys_pint_os.Threads.Lists.{
  ListsValid, AllListed, IsValid, ready_before, Tailed, given_way, next_of, schedule-Tailed,
  next-Lists, Tailed-IsValid,
}

pub Lacks-append : (t u : ℕ) (ts : List ℕ) → Lacks t ts → (t == u) ≡ false → Lacks t (ts ++ u ∷ [])
Lacks-append t u ts h e = All-append _ ts (u ∷ []) h (e, tt)

pub IsDistinct-append :
    (u : ℕ) (ts : List ℕ)
    → IsDistinct ts
    → All (λ t. (t == u) ≡ false) ts
    → IsDistinct (ts ++ u ∷ [])
IsDistinct-append u [] d h = (tt, tt)
IsDistinct-append u (t ∷ ts) d h = (Lacks-append t u ts d.0 h.0, IsDistinct-append u ts d.1 h.1)

-- Where `t` is absent, no element is `t`.
pub Lacks-flip : (t : ℕ) (ts : List ℕ) → Lacks t ts → All (λ u. (u == t) ≡ false) ts
Lacks-flip t ts h = All-map _ _ ts (λ u e. ground arith) h

pub blocked≢ready : blocked ≢ ready
blocked≢ready e = cc

-- A thread that is ready once `c` has changed its state is on the list with `c` at its end.
listed-append :
    (f : ℕ → Status) (c u : ℕ) (a : Status) (rs : List ℕ)
    → (f u ≡ ready → In u rs)
    → update f c a u ≡ ready
    → In u (rs ++ c ∷ [])
listed-append f c u a rs listed r = elim (Bool-cases (c == u)) [
  | inl same ↦ subst (λ x. In x (rs ++ c ∷ [])) ((==_iff c u).0 same) (In-append-last c rs)
  | inr other ↦ In-append u c rs (listed (sym (if_false _ _ _ other) ∙ r))
]

module _ {W : Type 0} (k : Pages W) where
  -- `schedule` returns once the current thread has left the state of running; the next thread runs.
  pub schedule-Switches :
      (s : Threads W)
      → ListsValid k s
      → AllListed k s
      → s.intr_on ≡ false
      → is_running (s.status s.current) ≡ false
      → Returns (λ t. IsValid k t × Tailed k (given_way k s) t) (schedule k s)
  schedule-Switches s v l off stopped =
      Returns-map (Tailed k (given_way k s)) _ (schedule k s)
        (λ t h. (Tailed-IsValid k s t v l h, h))
        (schedule-Tailed k s off stopped (
          All-In (λ t. is_thread k t s ≡ true) (next_of k s).0 s.all_list v.magic
            (next-Lists k s s.ready_list refl v).0))

  pub schedule-IsValid :
      (s : Threads W)
      → ListsValid k s
      → AllListed k s
      → s.intr_on ≡ false
      → is_running (s.status s.current) ≡ false
      → Returns (IsValid k) (schedule k s)
  schedule-IsValid s v l off stopped =
      Returns-map _ (IsValid k) (schedule k s) (λ t h. h.0) (schedule-Switches s v l off stopped)

  module _ (s : Threads W) (v : IsValid k s) where
    pub running_not_ready : Lacks s.current s.ready_list
    running_not_ready =
        Lacks-status s.status running ready s.current s.ready_list running≢ready v.runs
          v.lists.all_ready
      where
        running≢ready : running ≢ ready
        running≢ready e = cc

    -- The current thread leaves the state of running, and the ready list stays as it is.
    pub stopped-Lists :
        (a : Status) (on : Bool)
        → ListsValid k (record s { intr_on = on; status = update s.status s.current a })
    unfolding is_thread
    stopped-Lists a on = record {
      all_ready =
          All-update s.status a ready s.current s.ready_list running_not_ready v.lists.all_ready;
      ready_distinct = v.lists.ready_distinct;
      ready_known = v.lists.ready_known;
      idle_not_ready = v.lists.idle_not_ready;
      idle_known = v.lists.idle_known;
      magic = v.lists.magic;
      tids = v.lists.tids;
      tids_distinct = v.lists.tids_distinct;
    }

    -- The current thread leaves the state of running for one that is not ready.
    pub stopped-AllListed :
        (a : Status) (on : Bool)
        → a ≢ ready
        → AllListed k (record s { intr_on = on; status = update s.status s.current a })
    stopped-AllListed a on na u known r ne =
        v.all_listed u known (ready_before s.status s.current u a na r).0 ne

    pub block-IsValid : s.intr_on ≡ false → Returns (IsValid k) (thread_block k s)
    unfolding thread_block
    block-IsValid off = Returns-assert (IsValid k) (not s.intr_on) _ (ap not off) (
        schedule-IsValid (record s { status = update s.status s.current blocked })
          (stopped-Lists blocked s.intr_on) (stopped-AllListed blocked s.intr_on blocked≢ready) off
          (rw (==_refl s.current) refl))

    pub yielded-Lists :
        (b : Bool)
        → (s.current == s.idle_thread) ≡ b
        → ListsValid k (record s {
          intr_on = false;
          ready_list = if b then s.ready_list else s.ready_list ++ s.current ∷ [];
          status = update s.status s.current ready;
        })
    unfolding is_thread
    yielded-Lists true e = stopped-Lists ready false
    yielded-Lists false e =
        let l = stopped-Lists ready false in
        record {
          all_ready =
              All-append _ s.ready_list (s.current ∷ []) l.all_ready
                (rw (==_refl s.current) (refl, tt));
          ready_distinct =
              IsDistinct-append s.current s.ready_list l.ready_distinct
                (Lacks-flip s.current s.ready_list running_not_ready);
          ready_known = All-append _ s.ready_list (s.current ∷ []) l.ready_known (v.runs_known, tt);
          idle_not_ready =
              Lacks-append s.idle_thread s.current s.ready_list l.idle_not_ready (ground arith);
          idle_known = l.idle_known;
          magic = l.magic;
          tids = l.tids;
          tids_distinct = l.tids_distinct;
        }

    pub yielded-AllListed :
        (b : Bool)
        → (s.current == s.idle_thread) ≡ b
        → AllListed k (record s {
          intr_on = false;
          ready_list = if b then s.ready_list else s.ready_list ++ s.current ∷ [];
          status = update s.status s.current ready;
        })
    yielded-AllListed true e u known r ne = v.all_listed u known (sym (if_false _ _ _ other) ∙ r) ne
      where
        other : (s.current == u) ≡ false
        other = ground arith
    yielded-AllListed false e u known r ne =
        listed-append s.status s.current u ready s.ready_list (λ was. v.all_listed u known was ne) r

    pub yield-IsValid : Returns (IsValid k) (thread_yield k s)
    unfolding thread_yield
    yield-IsValid =
        schedule-IsValid _ (yielded-Lists (s.current == s.idle_thread) refl)
          (yielded-AllListed (s.current == s.idle_thread) refl) refl (rw (==_refl s.current) refl)

    pub unblock-IsValid :
        (t : ℕ)
        → In t s.all_list
        → s.status t ≡ blocked
        → t ≢ s.idle_thread
        → Returns
            (λ u.
              IsValid k u
              × (u.tid ≡ s.tid)
              × (u.all_list ≡ s.all_list)
              × (u.ready_list ≡ s.ready_list ++ t ∷ [])
              × (u.status t ≡ ready))
            (thread_unblock k t s)
    unfolding thread_unblock is_thread
    unblock-IsValid t known stopped ne =
        Returns-assert _ (is_thread k t s) _
          (All-In (λ u. is_thread k u s ≡ true) t s.all_list v.lists.magic known)
          (rw stopped (
            record {
              lists = record {
                all_ready =
                    All-append _ s.ready_list (t ∷ [])
                      (All-update s.status ready ready t s.ready_list apart v.lists.all_ready)
                      (rw (==_refl t) (refl, tt));
                ready_distinct =
                    IsDistinct-append t s.ready_list v.lists.ready_distinct
                      (Lacks-flip t s.ready_list apart);
                ready_known = All-append _ s.ready_list (t ∷ []) v.lists.ready_known (known, tt);
                idle_not_ready =
                    Lacks-append s.idle_thread t s.ready_list v.lists.idle_not_ready
                      (==_ne s.idle_thread t (λ e. ne (sym e)));
                idle_known = v.lists.idle_known;
                magic = v.lists.magic;
                tids = v.lists.tids;
                tids_distinct = v.lists.tids_distinct;
              };
              runs =
                  rw
                    (==_ne t s.current
                      (λ e. blocked≢running (sym stopped ∙ ap s.status e ∙ v.runs)))
                    v.runs;
              runs_known = v.runs_known;
              all_listed = λ u m r n.
                  listed-append s.status t u ready s.ready_list (λ was. v.all_listed u m was n) r;
            },
            refl,
            refl,
            refl,
            if_true _ _ _ (==_refl t),
          ))
      where
        blocked≢running : blocked ≢ running
        blocked≢running e = cc

        apart : Lacks t s.ready_list
        apart =
            Lacks-status s.status blocked ready t s.ready_list blocked≢ready stopped
              v.lists.all_ready
