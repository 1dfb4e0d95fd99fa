-- ===== src/Threads/Frames.antt =====
-- The stack frames of a new thread in Project 3/threads/thread.c.
use comp_sys_pint_os.Base.{
  ℕ, ◌%◌, ◌≡◌, refl, ◌∙◌, true, ◌==◌, update, Returns, Returns->>=, Returns-map, Returns-assert,
  ==_iff, subst, sym, ap, In,
}
use comp_sys_pint_os.Alarm.{Status}
use comp_sys_pint_os.Threads.{
  Pages, Threads, sizeof_kernel_thread, is_thread, alloc_frame, push_frames,
}
use comp_sys_pint_os.Threads.Lists.{IsValid}

module _ {W : Type 0} (k : Pages W) where
  -- The members that the lists and the identifiers depend on are as they were.
  pub record Unmoved (s t : Threads W) : Type 0 where
    pub status : t.status ≡ s.status
    pub tid : t.tid ≡ s.tid
    pub magic : t.magic ≡ s.magic
    pub all_list : t.all_list ≡ s.all_list
    pub ready_list : t.ready_list ≡ s.ready_list
    pub current : t.current ≡ s.current
    pub idle_thread : t.idle_thread ≡ s.idle_thread
    pub next_tid : t.next_tid ≡ s.next_tid

  pub Unmoved-IsValid : (s t : Threads W) → Unmoved s t → IsValid k s → IsValid k t
  unfolding is_thread
  Unmoved-IsValid s t h v = record {
    lists = record {
      all_ready = rw (h.ready_list, h.status) v.lists.all_ready;
      ready_distinct = rw h.ready_list v.lists.ready_distinct;
      ready_known = rw (h.ready_list, h.all_list) v.lists.ready_known;
      idle_not_ready = rw (h.ready_list, h.idle_thread) v.lists.idle_not_ready;
      idle_known = rw (h.all_list, h.idle_thread) v.lists.idle_known;
      magic = rw (h.all_list, h.magic) v.lists.magic;
      tids = rw (h.all_list, h.tid, h.next_tid) v.lists.tids;
      tids_distinct = rw (h.all_list, h.tid) v.lists.tids_distinct;
    };
    runs = rw (h.current, h.status) v.runs;
    runs_known = rw (h.current, h.all_list) v.runs_known;
    all_listed = λ u known r ne. subst (In u) (sym h.ready_list) (
        v.all_listed u (subst (In u) h.all_list known)
          (ap (λ (f : ℕ → Status). f u) (sym h.status) ∙ r) (λ e. ne (e ∙ sym h.idle_thread)));
  }

  alloc_frame-Unmoved :
      (t size : ℕ) (s : Threads W)
      → is_thread k t s ≡ true
      → size % 4 ≡ 0
      → Returns (Unmoved s) (alloc_frame k t size s)
  unfolding alloc_frame
  alloc_frame-Unmoved t size s real words = Returns-assert (Unmoved s) (is_thread k t s) _ real (
      Returns-assert (Unmoved s) (size % 4 == 0) _ ((==_iff (size % 4) 0).1 words) (record {
        status = refl;
        tid = refl;
        magic = refl;
        all_list = refl;
        ready_list = refl;
        current = refl;
        idle_thread = refl;
        next_tid = refl;
      }))

  Unmoved-trans : (s t u : Threads W) → Unmoved s t → Unmoved t u → Unmoved s u
  Unmoved-trans s t u p q = record {
    status = q.status ∙ p.status;
    tid = q.tid ∙ p.tid;
    magic = q.magic ∙ p.magic;
    all_list = q.all_list ∙ p.all_list;
    ready_list = q.ready_list ∙ p.ready_list;
    current = q.current ∙ p.current;
    idle_thread = q.idle_thread ∙ p.idle_thread;
    next_tid = q.next_tid ∙ p.next_tid;
  }

  is_thread-Unmoved :
      (t : ℕ) (s u : Threads W) → Unmoved s u → is_thread k t s ≡ true → is_thread k t u ≡ true
  unfolding is_thread
  is_thread-Unmoved t s u h e = rw h.magic e

  pub push_frames-Unmoved :
      (t function aux : ℕ) (s : Threads W)
      → is_thread k t s ≡ true
      → k.sizeof_switch_entry % 4 ≡ 0
      → k.sizeof_switch_threads % 4 ≡ 0
      → Returns (Unmoved s) (push_frames k t function aux s)
  unfolding push_frames
  push_frames-Unmoved t function aux s real entry_words threads_words =
      Returns->>= (Unmoved s) (Unmoved s) (alloc_frame k t sizeof_kernel_thread s) _
        (alloc_frame-Unmoved t sizeof_kernel_thread s real refl)
        (λ a p.
          let a' = record a { function = update a.function t function; aux = update a.aux t aux } in
          let p' : Unmoved s a' = record {
            status = p.status;
            tid = p.tid;
            magic = p.magic;
            all_list = p.all_list;
            ready_list = p.ready_list;
            current = p.current;
            idle_thread = p.idle_thread;
            next_tid = p.next_tid;
          } in
          Returns->>= (Unmoved a') (Unmoved s) (alloc_frame k t k.sizeof_switch_entry a') _
            (alloc_frame-Unmoved t k.sizeof_switch_entry a' (is_thread-Unmoved t s a' p' real)
              entry_words)
            (λ b q.
              let r = Unmoved-trans s a' b p' q in
              Returns-map (Unmoved b) (Unmoved s) (alloc_frame k t k.sizeof_switch_threads b)
                (λ c u. Unmoved-trans s b c r u)
                (alloc_frame-Unmoved t k.sizeof_switch_threads b (is_thread-Unmoved t s b r real)
                  threads_words)))
