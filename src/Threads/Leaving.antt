-- ===== src/Threads/Leaving.antt =====
-- `thread_exit` of Project 3/threads/thread.c: the thread leaves the list of all threads.
use comp_sys_pint_os.Base.{
  ℕ, ◌≡◌, ◌≢◌, refl, ap, subst, Bool, true, false, ◌==◌, if◌then◌else◌, List, [], ◌∷◌, map, All,
  Lacks, IsDistinct, In, All-In, All-zip, update, arith, Bool-cases, inl, inr, Returns, Returns-map,
  ==_refl, ==_iff, ==_ne, if_true, if_false,
}
use comp_sys_pint_os.Alarm.{dying, ready}
use comp_sys_pint_os.Threads.{Pages, Threads, is_thread, remove, has_tid, thread_alive}
use comp_sys_pint_os.Threads.Switch.{leave_for_good, schedule}
use comp_sys_pint_os.Threads.Lists.{ListsValid, AllListed, IsValid, ready_before}
use comp_sys_pint_os.Threads.Invariant.{schedule-Switches, running_not_ready, stopped-Lists}

In-cons :
    (t u x : ℕ) (ts rest : List ℕ)
    → (t == u) ≡ false
    → (In u ts → In u rest)
    → In u (x ∷ ts)
    → In u (if t == x then ts else x ∷ rest)
In-cons t u x ts rest ne more (inl e) = rw (subst (λ y. (t == y) ≡ false) e ne) (inl e)
In-cons t u x ts rest ne more (inr m) = elim (Bool-cases (t == x)) [
  | inl same ↦ rw same m
  | inr other ↦ rw other (inr (more m))
]

In-remove : (t u : ℕ) (ts : List ℕ) → (t == u) ≡ false → In u ts → In u (remove t ts)
unfolding remove
In-remove t u [] ne h = absurd h
In-remove t u (x ∷ ts) ne h = In-cons t u x ts (remove t ts) ne (In-remove t u ts ne) h

In-of-remove : (t u : ℕ) (ts : List ℕ) → In u (remove t ts) → In u ts
unfolding remove
In-of-remove t u [] h = absurd h
In-of-remove t u (x ∷ ts) h = elim (Bool-cases (t == x)) [
  | inl same ↦ inr (subst (In u) (if_true _ _ _ same) h)
  | inr other ↦ kept (In-of-remove t u ts) (subst (In u) (if_false _ _ _ other) h)
]
  where
    kept : (In u (remove t ts) → In u ts) → In u (x ∷ remove t ts) → In u (x ∷ ts)
    kept more (inl e) = inl e
    kept more (inr m) = inr (more m)

All-remove : (P : ℕ → Type 0) (t : ℕ) (ts : List ℕ) → All P ts → All P (remove t ts)
unfolding remove
All-remove P t [] h = tt
All-remove P t (u ∷ ts) h = elim (Bool-cases (t == u)) [
  | inl same ↦ rw same h.1
  | inr other ↦ rw other (h.0, All-remove P t ts h.1)
]

Lacks-map-remove :
    (f : ℕ → ℕ) (n t : ℕ) (ts : List ℕ) → Lacks n (map f ts) → Lacks n (map f (remove t ts))
unfolding remove
Lacks-map-remove f n t [] h = tt
Lacks-map-remove f n t (u ∷ ts) h = elim (Bool-cases (t == u)) [
  | inl same ↦ rw same h.1
  | inr other ↦ rw other (h.0, Lacks-map-remove f n t ts h.1)
]

IsDistinct-map-remove :
    (f : ℕ → ℕ) (t : ℕ) (ts : List ℕ) → IsDistinct (map f ts) → IsDistinct (map f (remove t ts))
unfolding remove
IsDistinct-map-remove f t [] h = tt
IsDistinct-map-remove f t (u ∷ ts) h = elim (Bool-cases (t == u)) [
  | inl same ↦ rw same h.1
  | inr other ↦ rw other (Lacks-map-remove f (f u) t ts h.0, IsDistinct-map-remove f t ts h.1)
]

-- Nobody has an identifier that none of the list has.
Lacks-has_tid : (f : ℕ → ℕ) (n : ℕ) (ts : List ℕ) → Lacks n (map f ts) → has_tid f n ts ≡ false
unfolding has_tid
Lacks-has_tid f n [] h = refl
Lacks-has_tid f n (t ∷ ts) h = rw (==_flip n (f t) h.0, Lacks-has_tid f n ts h.1) refl
  where
    ==_flip : (a b : ℕ) → (a == b) ≡ false → (b == a) ≡ false
    ==_flip a b e = ground arith

In-map : (f : ℕ → ℕ) (t : ℕ) (ts : List ℕ) → In t ts → In (f t) (map f ts)
In-map f t [] h = absurd h
In-map f t (u ∷ ts) (inl e) = inl (ap f e)
In-map f t (u ∷ ts) (inr m) = inr (In-map f t ts m)

ne_of_apart : (a b : ℕ) → (a == b) ≡ false → b ≢ a
ne_of_apart a b h e = ground arith

not_both : (a b n : ℕ) → (a == n) ≡ true → (b == n) ≡ true → (b == a) ≡ false → ⊥
not_both a b n p q h = ground arith

-- Once `t` is removed nobody has its identifier, and the others are as before.
has_tid-remove :
    (f : ℕ → ℕ) (t n : ℕ) (ts : List ℕ)
    → In t ts
    → IsDistinct (map f ts)
    → has_tid f n (remove t ts) ≡ (if f t == n then false else has_tid f n ts)
unfolding remove has_tid
has_tid-remove f t n [] h d = absurd h
has_tid-remove f t n (u ∷ ts) (inl e) d = rw (e, ==_refl u) (first (f u == n) refl)
  where
    first :
        (b : Bool)
        → (f u == n) ≡ b
        → has_tid f n ts ≡ (if b then false else (if b then true else has_tid f n ts))
    first true same =
        Lacks-has_tid f n ts (subst (λ m. Lacks m (map f ts)) ((==_iff (f u) n).0 same) d.0)
    first false other = refl
has_tid-remove f t n (u ∷ ts) (inr m) d =
    rw (==_ne t u (λ e. differ (ap f e)), has_tid-remove f t n ts m d.1)
      (later (f t == n) refl (f u == n) refl)
  where
    apart : (f u == f t) ≡ false
    apart = All-In (λ x. (f u == x) ≡ false) (f t) (map f ts) d.0 (In-map f t ts m)

    differ : f t ≢ f u
    differ e = ne_of_apart (f u) (f t) apart e

    later :
        (a : Bool)
        → (f t == n) ≡ a
        → (b : Bool) → (f u == n) ≡ b
        → (if b then true else (if a then false else has_tid f n ts))
          ≡ (if a then false else (if b then true else has_tid f n ts))
    later true p true q = absurd (not_both (f t) (f u) n p q apart)
    later true p false q = refl
    later false p b q = refl

module _ {W : Type 0} (k : Pages W) (s : Threads W) (v : IsValid k s)
    (ne : s.current ≢ s.idle_thread) where
  left : Threads W
  left = record s {
    intr_on = false;
    all_list = remove s.current s.all_list;
    status = update s.status s.current dying;
  }

  left-Lists : ListsValid k left
  unfolding left is_thread
  left-Lists =
      let l = stopped-Lists k s v dying false in
      record {
        all_ready = l.all_ready;
        ready_distinct = l.ready_distinct;
        ready_known =
            All-zip _ _ _ s.ready_list
              (λ t apart known. In-remove s.current t s.all_list apart known)
              (running_not_ready k s v) l.ready_known;
        idle_not_ready = l.idle_not_ready;
        idle_known =
            In-remove s.current s.idle_thread s.all_list (==_ne s.current s.idle_thread ne)
              l.idle_known;
        magic = All-remove _ s.current s.all_list l.magic;
        tids = All-remove _ s.current s.all_list l.tids;
        tids_distinct = IsDistinct-map-remove s.tid s.current s.all_list l.tids_distinct;
      }

  left-AllListed : AllListed k left
  unfolding left
  left-AllListed u known r other =
      v.all_listed u (In-of-remove s.current u s.all_list known)
        (ready_before s.status s.current u dying dying≢ready r).0 other
    where
      dying≢ready : dying ≢ ready
      dying≢ready e = cc

  -- In a valid state, if the current thread is not the idle thread, then what `thread_exit` does after
  -- `process_exit` and `release_locks` returns in the next thread, with a valid state. `thread_alive`
  -- is then false of the identifier of the thread that exited, and as before of every other.
  pub leave_for_good-ends :
      Returns
        (λ t.
          IsValid k t
          × ((pid : ℕ)
              → thread_alive k pid t
                ≡ (if s.tid s.current == pid then false else thread_alive k pid s)))
        (leave_for_good k s)
  unfolding leave_for_good left thread_alive
  leave_for_good-ends =
      Returns-map _ _ (schedule k left)
        (λ t h. (
          h.0,
          λ pid.
              rw (h.1.tid, h.1.all_list)
                (has_tid-remove s.tid s.current pid s.all_list v.runs_known v.lists.tids_distinct),
        ))
        (schedule-Switches k left left-Lists left-AllListed refl (rw (==_refl s.current) refl))
