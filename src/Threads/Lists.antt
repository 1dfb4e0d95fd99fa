-- ===== src/Threads/Lists.antt =====
-- The lists of Project 3/threads/thread.c: what holds of them while a thread gives way.
use comp_sys_pint_os.Base.{
  ℕ, ◌<◌, ◌≡◌, ◌≢◌, refl, sym, ap, ◌∙◌, true, false, not, ◌==◌, ◌&&◌, if◌then◌else◌, List, [], ◌∷◌,
  map, All, Lacks, IsDistinct, In, Option, none, some, update, Bool-cases, inl, inr, Returns,
  Returns-assert, ==_refl, subst, if_true, if_false, arith,
}
use comp_sys_pint_os.Alarm.{Status, running, ready, is_running}
use comp_sys_pint_os.Alarm.Invariant.{All-update}
use comp_sys_pint_os.Threads.{Pages, Threads, is_dying, is_thread}
use comp_sys_pint_os.Threads.Switch.{next_thread_to_run, thread_schedule_tail, schedule}

-- The previous thread, if there was a switch, is not the next one.
apart : (a n p : ℕ) → (if a == n then none else some a) ≡ some p → (p == n) ≡ false
apart a n p h = elim (Bool-cases (a == n)) [
  | inl same ↦ absurd (not_none (sym (if_true (a == n) none (some a) same) ∙ h))
  | inr other ↦
      subst (λ x. (x == n) ≡ false) (same_thread (sym (if_false (a == n) none (some a) other) ∙ h))
        other
]
  where
    not_none : {x : ℕ} → none ≢ some x
    not_none e = cc

    same_thread : {x y : ℕ} → some x ≡ some y → x ≡ y
    same_thread e = cc

-- A thread that is ready once another has left that state was ready before, and is not the other.
pub ready_before :
    (f : ℕ → Status) (c t : ℕ) (a : Status)
    → a ≢ ready
    → update f c a t ≡ ready
    → (f t ≡ ready) × ((c == t) ≡ false)
ready_before f c t a ne r = elim (Bool-cases (c == t)) [
  | inl same ↦ absurd (ne (sym (if_true _ _ _ same) ∙ r))
  | inr other ↦ (sym (if_false _ _ _ other) ∙ r, other)
]

running≢ready : running ≢ ready
running≢ready e = cc

In-behind : (t u : ℕ) (us : List ℕ) → (u == t) ≡ false → In t (u ∷ us) → In t us
In-behind t u us other (inl e) = ground arith
In-behind t u us other (inr m) = m

-- The same of the list that the next thread leaves, once that thread runs.
next-listed :
    (f : ℕ → Status) (idle t : ℕ) (rs : List ℕ)
    → (f t ≡ ready → In t rs)
    → update f (next_thread_to_run idle rs).0 running t ≡ ready
    → In t (next_thread_to_run idle rs).1
unfolding next_thread_to_run
next-listed f idle t [] listed r = listed (ready_before f idle t running running≢ready r).0
next-listed f idle t (u ∷ us) listed r =
    let (was, other) = ready_before f u t running running≢ready r in
    In-behind t u us other (listed was)

module _ {W : Type 0} (k : Pages W) where
  -- What holds of the lists, whoever runs. The threads on the ready list are ready, known and different,
  -- and the idle thread is none of them; every known thread has its magic, and an identifier below the
  -- next one that no other has.
  pub record ListsValid (s : Threads W) : Type 0 where
    pub all_ready : All (λ t. s.status t ≡ ready) s.ready_list
    pub ready_distinct : IsDistinct s.ready_list
    pub ready_known : All (λ t. In t s.all_list) s.ready_list
    pub idle_not_ready : Lacks s.idle_thread s.ready_list
    pub idle_known : In s.idle_thread s.all_list
    pub magic : All (λ t. is_thread k t s ≡ true) s.all_list
    pub tids : All (λ t. s.tid t < s.next_tid) s.all_list
    pub tids_distinct : IsDistinct (map s.tid s.all_list)

  -- Every known thread that is ready is on the ready list, unless it is the idle thread.
  abbrev pub AllListed : Threads W → Type 0
  AllListed s =
      (t : ℕ) → In t s.all_list → s.status t ≡ ready → t ≢ s.idle_thread → In t s.ready_list

  pub record IsValid (s : Threads W) : Type 0 where
    pub lists : ListsValid s
    pub runs : s.status s.current ≡ running
    pub runs_known : In s.current s.all_list
    pub all_listed : AllListed s

  -- What `thread_schedule_tail` leaves as it is, and the new state of the running thread.
  pub record Tailed (s t : Threads W) : Type 0 where
    pub current : t.current ≡ s.current
    pub ready_list : t.ready_list ≡ s.ready_list
    pub status : t.status ≡ update s.status s.current running
    pub all_list : t.all_list ≡ s.all_list
    pub tid : t.tid ≡ s.tid
    pub next_tid : t.next_tid ≡ s.next_tid
    pub magic : t.magic ≡ s.magic
    pub idle_thread : t.idle_thread ≡ s.idle_thread
    pub intr_on : t.intr_on ≡ false

  tail-Tailed :
      (prev : Option ℕ) (s : Threads W)
      → ((p : ℕ) → prev ≡ some p → (p == s.current) ≡ false)
      → s.intr_on ≡ false
      → Returns (Tailed s) (thread_schedule_tail k prev s)
  unfolding thread_schedule_tail
  tail-Tailed none s ne off = Returns-assert (Tailed s) (not s.intr_on) _ (ap not off) (record {
    current = refl;
    ready_list = refl;
    status = refl;
    all_list = refl;
    tid = refl;
    next_tid = refl;
    magic = refl;
    idle_thread = refl;
    intr_on = off;
  })
  tail-Tailed (some p) s ne off =
      Returns-assert (Tailed s) (not s.intr_on) _ (ap not off)
        (elim (Bool-cases
          (is_dying (update s.status s.current running p) && not (p == s.initial_thread))) [
            | inl freed ↦ rw freed (
                Returns-assert (Tailed s) (not (p == s.current)) _ (ap not (ne p refl)) (record {
                  current = refl;
                  ready_list = refl;
                  status = refl;
                  all_list = refl;
                  tid = refl;
                  next_tid = refl;
                  magic = refl;
                  idle_thread = refl;
                  intr_on = off;
                }))
            | inr kept ↦ rw kept (record {
              current = refl;
              ready_list = refl;
              status = refl;
              all_list = refl;
              tid = refl;
              next_tid = refl;
              magic = refl;
              idle_thread = refl;
              intr_on = off;
            })
          ])

  abbrev pub next_of : Threads W → ℕ × List ℕ
  next_of s = next_thread_to_run s.idle_thread s.ready_list

  -- The state in which the next thread is the current one, before it is marked as running.
  abbrev pub given_way : Threads W → Threads W
  given_way s = record s { current = (next_of s).0; ready_list = (next_of s).1 }

  pub schedule-Tailed :
      (s : Threads W)
      → s.intr_on ≡ false
      → is_running (s.status s.current) ≡ false
      → is_thread k (next_of s).0 s ≡ true
      → Returns (Tailed (given_way s)) (schedule k s)
  unfolding schedule
  schedule-Tailed s off stopped real = Returns-assert _ (not s.intr_on) _ (ap not off) (
      Returns-assert _ (not (is_running (s.status s.current))) _ (ap not stopped) (
        Returns-assert _ (is_thread k (next_of s).0 s) _ real
          (tail-Tailed prev (given_way s) (apart s.current (next_of s).0) off)))
    where
      prev : Option ℕ
      prev = if s.current == (next_of s).0 then none else some s.current

  -- Threads that were ready stay so when another is made to run.
  pub next-Lists :
      (s : Threads W) (rs : List ℕ)
      → s.ready_list ≡ rs
      → ListsValid s
      → In (next_thread_to_run s.idle_thread rs).0 s.all_list
        × All
            (λ t. update s.status (next_thread_to_run s.idle_thread rs).0 running t ≡ ready)
            (next_thread_to_run s.idle_thread rs).1
        × IsDistinct (next_thread_to_run s.idle_thread rs).1
        × All (λ t. In t s.all_list) (next_thread_to_run s.idle_thread rs).1
        × Lacks s.idle_thread (next_thread_to_run s.idle_thread rs).1
  unfolding next_thread_to_run
  next-Lists s [] e v = (v.idle_known, tt, tt, tt, tt)
  next-Lists s (t ∷ ts) e v = (
    known.0,
    All-update s.status running ready t ts distinct.0 all_ready.1,
    distinct.1,
    known.1,
    lacks.1,
  )
    where
      known : All (λ u. In u s.all_list) (t ∷ ts)
      known = subst (All (λ u. In u s.all_list)) e v.ready_known

      distinct : IsDistinct (t ∷ ts)
      distinct = subst IsDistinct e v.ready_distinct

      all_ready : All (λ u. s.status u ≡ ready) (t ∷ ts)
      all_ready = subst (All (λ u. s.status u ≡ ready)) e v.all_ready

      lacks : Lacks s.idle_thread (t ∷ ts)
      lacks = subst (Lacks s.idle_thread) e v.idle_not_ready

  pub Tailed-IsValid :
      (s t : Threads W) → ListsValid s → AllListed s → Tailed (given_way s) t → IsValid t
  unfolding is_thread
  Tailed-IsValid s t v l h =
      let n = next-Lists s s.ready_list refl v in
      record {
        lists = record {
          all_ready = rw (h.ready_list, h.status) n.1;
          ready_distinct = rw h.ready_list n.2;
          ready_known = rw (h.ready_list, h.all_list) n.3;
          idle_not_ready = rw (h.ready_list, h.idle_thread) n.4;
          idle_known = rw (h.all_list, h.idle_thread) v.idle_known;
          magic = rw (h.all_list, h.magic) v.magic;
          tids = rw (h.all_list, h.tid, h.next_tid) v.tids;
          tids_distinct = rw (h.all_list, h.tid) v.tids_distinct;
        };
        runs = rw (h.current, h.status) (rw (==_refl (next_of s).0) refl);
        runs_known = rw (h.current, h.all_list) n.0;
        all_listed = λ u known r ne. subst (In u) (sym h.ready_list) (
            next-listed s.status s.idle_thread u s.ready_list
              (λ was. l u (subst (In u) h.all_list known) was (λ e. ne (e ∙ sym h.idle_thread)))
              (ap (λ (f : ℕ → Status). f u) (sym h.status) ∙ r));
      }
