-- ===== src/Synch/Exclusion.antt =====
-- The lock of Project 3/threads/synch.c: at most one thread holds it, and no wake-up is lost.
use comp_sys_pint_os.Base.{
  ℕ, ◌≡◌, ◌≢◌, refl, ap, ◌∙◌, subst, Bool, true, false, ◌==◌, ==_iff, ==_refl, if_true, not, [],
  Option, none, some, returns, arith, Bool-cases, ◌⊎◌, inl, inr, assert, ◌>>◌, Returns,
  Returns-assert,
}
use comp_sys_pint_os.Synch.{
  Place, outside, testing, asleep, downed, holding, releasing, System, Step, Reachable, start,
  starts, steps, acquires, tests, tries, notes, releases, ups, sema_down_round, down, lock_acquire,
  sema_try_down, lock_try_acquire, note_holder, lock_release, up, lock_held_by, is_thread,
  try_result, sema_init, lock_init,
}
use comp_sys_pint_os.Synch.Invariant.{owns, Owners, IsValid, Owners-one, Owners-le}
use comp_sys_pint_os.Synch.Moves.{Asks, took, noted, released, upped, down-IsValid}

-- What a piece that asserts and returned has returned.
assert_result : {A : Type 0} (b : Bool) (x u : A) → (assert b >> returns x) ≡ returns u → x ≡ u
assert_result true x u e = cc
assert_result false x u e = cc

Asks-outside : (p : Place) → p ≡ outside → Asks p
Asks-outside p e = (ap owns e, λ x. cc)

Asks-testing : (p : Place) → p ≡ testing → Asks p
Asks-testing p e = (ap owns e, λ x. cc)

tried :
    (t : ℕ) (s : System)
    → Asks (s.place t)
    → IsValid s
    → IsValid (try_result t (sema_try_down s.lock.semaphore) s).1
unfolding sema_try_down try_result
tried t s asks h = elim (Bool-cases (s.lock.semaphore.value == 0)) [
  | inl used ↦ rw used record {
    owners = h.owners;
    holder_holds = h.holder_holds;
    holds_holder = h.holds_holder;
    sleep = h.sleep;
    distinct = h.distinct;
    woken = h.woken;
  }
  | inr left ↦ rw left (took t _ _ _ s.place asks left h)
]

-- Every step of every thread keeps the lock and the places of the threads in agreement.
pub Step-IsValid : (s u : System) → Step s u → IsValid s → IsValid u
unfolding lock_acquire lock_try_acquire lock_release note_holder up
Step-IsValid _ _ (acquires t s u here e) h =
    subst IsValid (assert_result _ _ _ e) (down-IsValid t s (Asks-outside _ here) h)
Step-IsValid _ _ (tests t s here) h = down-IsValid t s (Asks-testing _ here) h
Step-IsValid _ _ (tries t s u success here e) h =
    subst IsValid (ap (λ r. r.1) (assert_result _ _ _ e)) (tried t s (Asks-outside _ here) h)
Step-IsValid _ _ (notes t s here) h = noted t _ _ _ s.place here h
Step-IsValid _ _ (releases t s u here e) h =
    subst IsValid (assert_result _ _ _ e) (released t _ _ _ s.place here h)
Step-IsValid _ _ (ups t s here) h = upped t _ s.lock.semaphore s.place here h

start-IsValid : IsValid start
unfolding start lock_init sema_init
start-IsValid = record {
  owners = inl (refl, λ t. refl);
  holder_holds = λ t e. cc;
  holds_holder = λ t e. cc;
  sleep = tt;
  distinct = tt;
  woken = λ e. inl refl;
}

-- In every state that the threads can reach, in whatever order they run, the lock, its semaphore and
-- the places of the threads agree.
pub Reachable-IsValid : (s : System) → Reachable s → IsValid s
Reachable-IsValid _ starts = start-IsValid
Reachable-IsValid _ (steps {s} {u} r m) = Step-IsValid s u m (Reachable-IsValid s r)

-- Mutual exclusion: in every state that the threads can reach, in whatever order they run, two threads
-- that hold the lock are the same, and it is noted as the holder.
pub Reachable-exclusion :
    (s : System) (t u : ℕ)
    → Reachable s
    → s.place t ≡ holding
    → s.place u ≡ holding
    → (t ≡ u) × (s.lock.holder ≡ some t)
Reachable-exclusion s t u r ht hu =
    let h = Reachable-IsValid s r in
    (
      Owners-one s.lock.semaphore.value s.place t u h.owners (ap owns ht) (ap owns hu),
      h.holds_holder t ht,
    )

-- No wake-up is lost: in every state that the threads can reach in which the semaphore's value is not
-- 0, either no thread waits in its list, or some thread is awake and about to test the value.
pub Reachable-wakes :
    (s : System)
    → Reachable s
    → s.lock.semaphore.value ≢ 0
    → (s.lock.semaphore.waiters ≡ []) ⊎ ((t : ℕ) × (s.place t ≡ testing))
Reachable-wakes s r ne =
    let h = Reachable-IsValid s r in
    h.woken (omega (arith, Owners-le s.lock.semaphore.value s.place h.owners, ne))

-- In every state that the threads can reach, a thread that holds the lock can release it: the
-- assertion of `lock_release` holds.
pub Reachable-release :
    (s : System) (t : ℕ)
    → Reachable s
    → s.place t ≡ holding
    → Returns (λ u. (u.lock.holder ≡ none) × (u.place t ≡ releasing)) (lock_release t s)
unfolding lock_release lock_held_by
Reachable-release s t r here =
    Returns-assert _ (is_thread s.lock.holder t) _
      (ap (λ o. is_thread o t) ((Reachable-IsValid s r).holds_holder t here) ∙ ==_refl t)
      (refl, if_true (t == t) _ _ (==_refl t))

not_holder : (o : Option ℕ) (t : ℕ) → o ≢ some t → is_thread o t ≡ false
not_holder none t ne = refl
not_holder (some u) t ne = elim (Bool-cases (u == t)) [
  | inl same ↦ absurd (ne (ap some ((==_iff u t).0 same)))
  | inr other ↦ other
]

not_held :
    (s : System) (t : ℕ)
    → Reachable s
    → s.place t ≡ outside
    → not (is_thread s.lock.holder t) ≡ true
not_held s t r here =
    ap not (not_holder s.lock.holder t λ e. cc ((Reachable-IsValid s r).holder_holds t e))

down_place : (t : ℕ) (s : System) → ((down t s).place t ≡ downed) ⊎ ((down t s).place t ≡ asleep)
unfolding down sema_down_round
down_place t s = elim (Bool-cases (s.lock.semaphore.value == 0)) [
  | inl used ↦ rw used (inr (if_true (t == t) _ _ (==_refl t)))
  | inr left ↦ rw left (inl (if_true (t == t) _ _ (==_refl t)))
]

-- In every state that the threads can reach, a thread that does not use the lock can ask for it: the
-- assertion of `lock_acquire` holds, and the thread has the semaphore down or sleeps.
pub Reachable-acquire :
    (s : System) (t : ℕ)
    → Reachable s
    → s.place t ≡ outside
    → Returns (λ u. (u.place t ≡ downed) ⊎ (u.place t ≡ asleep)) (lock_acquire t s)
unfolding lock_acquire lock_held_by
Reachable-acquire s t r here =
    Returns-assert _ (not (is_thread s.lock.holder t)) _ (not_held s t r here) (down_place t s)

Owners-used :
    (value : ℕ) (place : ℕ → Place) (t : ℕ)
    → Owners value place
    → owns (place t) ≡ true
    → (value == 0) ≡ true
Owners-used value place t (inl (one, free)) e = cc (free t)
Owners-used value place t (inr (zero, o)) e = ground (arith, zero)

-- In every state that the threads can reach, if another thread holds the lock, `lock_try_acquire`
-- returns false, but it has put the lock on the list of the caller's locks; the holder is as before.
pub lock_try_acquire_lists :
    (s : System) (t u : ℕ)
    → Reachable s
    → s.place u ≡ holding
    → s.place t ≡ outside
    → Returns
        (λ r. (r.0 ≡ false) × (r.1.lock.holder ≡ some u) × (r.1.lock.listed ≡ some t))
        (lock_try_acquire t s)
unfolding lock_try_acquire lock_held_by sema_try_down try_result
lock_try_acquire_lists s t u r held here =
    let h = Reachable-IsValid s r in
    let used = Owners-used s.lock.semaphore.value s.place u h.owners (ap owns held) in
    Returns-assert _ (not (is_thread s.lock.holder t)) _ (not_held s t r here)
      (rw used (refl, h.holds_holder u held, refl))
