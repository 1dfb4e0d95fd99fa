-- ===== src/Synch/Condition.antt =====
-- Project 3/threads/synch.c: condition variables. Each waiting thread has a semaphore of its own,
-- named by the thread.
use comp_sys_pint_os.Base.{
  ℕ, zero, suc, ◌+◌, ◌≡◌, refl, sym, ap, ◌∙◌, subst, Bool, true, false, ◌==◌, ==_iff, ==_refl,
  if◌then◌else◌, if_true, if_false, update, List, [], ◌∷◌, ◌++◌, length, Outcome, returns, stuck,
  ◌>>=◌, not, Option, none, some, arith, Bool-cases, inl, inr, assert, assert-true, ◌>>◌, Returns,
  Returns-assert, Returns-map,
}
use comp_sys_pint_os.Synch.{Semaphore, sema_init, sema_up, sema_wake, sema_down_round}

-- `struct condition`, the semaphores of the waiting threads, whether the current thread holds the
-- lock, and which threads are blocked in `sema_down` of their semaphores.
pub record Monitor : Type 0 where
  pub held : Bool
  pub waiters : List ℕ
  pub semas : ℕ → Semaphore
  pub asleep : ℕ → Bool

unfoldable pub cond_init : Monitor → Monitor
cond_init s = record s { waiters = [] }

-- `cond_wait` of the thread `t` up to its first pause, in `sema_down` of its semaphore.
unfoldable pub cond_enter : ℕ → Monitor → Outcome Monitor
unfolding sema_init
cond_enter t s = do
  assert s.held
  returns (record {
    held = false;
    waiters = s.waiters ++ t ∷ [];
    semas = update s.semas t (sema_init 0);
    asleep = s.asleep;
  })

-- One round of that `sema_down`: the thread goes on, or sleeps.
unfoldable pub waiter_down : ℕ → Monitor → Monitor
unfolding sema_down_round
waiter_down t s =
    let (over, sema) = sema_down_round t (s.semas t) in
    record s { semas = update s.semas t sema; asleep = update s.asleep t (not over) }

-- `thread_unblock` of the thread that `sema_up` takes off the list, if there is one.
abbrev pub unblock : Option ℕ → (ℕ → Bool) → ℕ → Bool
unblock none asleep = asleep
unblock (some t) asleep = update asleep t false

unfoldable pub signal_front : List ℕ → Monitor → Monitor
unfolding sema_up
signal_front [] s = s
signal_front (t ∷ ts) s = record s {
  waiters = ts;
  semas = update s.semas t (sema_up (s.semas t)).1;
  asleep = unblock (sema_up (s.semas t)).0 s.asleep;
}

unfoldable pub cond_signal : Monitor → Outcome Monitor
unfolding signal_front
cond_signal s = do assert s.held; returns (signal_front s.waiters s)

abbrev pub is_empty : List ℕ → Bool
is_empty [] = true
is_empty (t ∷ ts) = false

-- The loop of `cond_broadcast`.
unfoldable pub broadcast_rounds : ℕ → Monitor → Outcome Monitor
unfolding cond_signal
broadcast_rounds zero s = stuck
broadcast_rounds (suc fuel) s =
    let rest = cond_signal s >>= broadcast_rounds fuel in
    if is_empty s.waiters then returns s else rest

-- A round for each waiting thread, and the last test.
unfoldable pub cond_broadcast : Monitor → Outcome Monitor
unfolding broadcast_rounds
cond_broadcast s = broadcast_rounds (length s.waiters + 1) s

-- How often a thread stands in a list.
abbrev pub count : ℕ → List ℕ → ℕ
count t [] = 0
count t (u ∷ us) = if u == t then count t us + 1 else count t us

sema_up-value : (s : Semaphore) → (sema_up s).1.value ≡ s.value + 1
unfolding sema_up
sema_up-value s = go s.waiters
  where
    go : (ws : List ℕ) → (sema_wake ws s).1.value ≡ s.value + 1
    go [] = unfold sema_wake in refl
    go (w ∷ ws) = unfold sema_wake in refl

down-up : (t : ℕ) (s : Semaphore) → (sema_down_round t (sema_up s).1).0 ≡ true
unfolding sema_down_round
down-up t s =
    ap (λ (r : Bool × Semaphore). r.0)
      (if_false ((sema_up s).1.value == 0) _ _ (ground (arith, sema_up-value s)))

-- A thread that sleeps alone for its semaphore, or does not sleep, does not sleep after `sema_up`.
up_wakes :
    (t : ℕ) (s : Semaphore) (asleep : ℕ → Bool)
    → (asleep t ≡ true → s.waiters ≡ t ∷ [])
    → unblock (sema_up s).0 asleep t ≡ false
unfolding sema_up
up_wakes t s asleep alone = elim (Bool-cases (asleep t)) [
  | inl sleeps ↦
      subst (λ ws. unblock (sema_wake ws s).0 asleep t ≡ false) (sym (alone sleeps))
        (unfold sema_wake in if_true (t == t) _ _ (==_refl t))
  | inr awake ↦ still awake s.waiters
]
  where
    other : asleep t ≡ false → (w : ℕ) → update asleep w false t ≡ false
    other awake w = elim (Bool-cases (w == t)) [
      | inl same ↦ if_true _ _ _ same
      | inr ne ↦ if_false _ _ _ ne ∙ awake
    ]

    still : asleep t ≡ false → (ws : List ℕ) → unblock (sema_wake ws s).0 asleep t ≡ false
    still awake [] = unfold sema_wake in awake
    still awake (w ∷ ws) = unfold sema_wake in other awake w

-- A thread that waits for a condition and comes to `sema_down` first sleeps, alone on its semaphore.
pub cond_enter_sleeps :
    (t : ℕ) (s : Monitor)
    → s.held ≡ true
    → Returns
        (λ u. ((waiter_down t u).asleep t ≡ true) × (((waiter_down t u).semas t).waiters ≡ t ∷ []))
        (cond_enter t s)
unfolding cond_enter waiter_down sema_down_round sema_init
cond_enter_sleeps t s held = Returns-assert _ s.held _ held (rw (==_refl t) (refl, refl))

-- No signal is lost: if the current thread holds the lock and threads wait, the first of which, where
-- it sleeps in `sema_down` by now, is the one in the list of its semaphore, then `cond_signal` takes
-- that one off the list. It does not sleep any more, and its next test of its semaphore succeeds. The
-- semaphore of another thread is unchanged.
pub cond_signal_wakes :
    (t u : ℕ) (ts : List ℕ) (s : Monitor)
    → s.held ≡ true
    → s.waiters ≡ t ∷ ts
    → (s.asleep t ≡ true → (s.semas t).waiters ≡ t ∷ [])
    → (t == u) ≡ false
    → Returns
        (λ v.
          (v.waiters ≡ ts)
          × (v.asleep t ≡ false)
          × ((sema_down_round t (v.semas t)).0 ≡ true)
          × (v.semas u ≡ s.semas u))
        (cond_signal s)
unfolding cond_signal signal_front
cond_signal_wakes t u ts s held front alone ne = Returns-assert _ s.held _ held (
    subst
      (λ ws.
        (signal_front ws s).waiters ≡ ts
        × ((signal_front ws s).asleep t ≡ false)
        × ((sema_down_round t ((signal_front ws s).semas t)).0 ≡ true)
        × ((signal_front ws s).semas u ≡ s.semas u))
      (sym front)
      (
        refl,
        up_wakes t (s.semas t) s.asleep alone,
        ap (λ x. (sema_down_round t x).0) (if_true (t == t) _ _ (==_refl t))
            ∙ down-up t (s.semas t),
        if_false (t == u) _ _ ne,
      ))

raised : ℕ → Monitor → Monitor
raised w s = record s {
  semas = update s.semas w (sema_up (s.semas w)).1;
  asleep = unblock (sema_up (s.semas w)).0 s.asleep;
}

-- What one signal adds to a semaphore.
raised-count :
    (u w n : ℕ) (s : Monitor)
    → ((raised w s).semas u).value + n ≡ (s.semas u).value + (if w == u then n + 1 else n)
unfolding raised
raised-count u w n s = elim (Bool-cases (w == u)) [
  | inl same ↦ rw (same, ← (==_iff w u).0 same, sema_up-value (s.semas w)) (omega arith)
  | inr other ↦ rw other refl
]

-- The loop with `ws` waiting.
rounds :
    (u : ℕ) (ws : List ℕ) (s : Monitor)
    → s.held ≡ true
    → Returns
        (λ v. (v.waiters ≡ []) × ((v.semas u).value ≡ (s.semas u).value + count u ws))
        (broadcast_rounds (suc (length ws)) (record s { waiters = ws }))
unfolding broadcast_rounds
rounds u [] s held = (refl, omega arith)
rounds u (w ∷ ws) s held =
    subst (Returns _) (sym (ap (λ m. m >>= broadcast_rounds (suc (length ws))) signalled)) (
      Returns-map _ _ (broadcast_rounds (suc (length ws)) (record (raised w s) { waiters = ws }))
        (λ v r. (r.0, r.1 ∙ raised-count u w (count u ws) s))
        (rounds u ws (raised w s) (unfold raised in held)))
  where
    signalled :
        cond_signal (record s { waiters = w ∷ ws }) ≡ returns (record (raised w s) { waiters = ws })
    signalled = unfold cond_signal signal_front raised in assert-true s.held _ held

-- If the current thread holds the lock, `cond_broadcast` returns: no thread is on the list any more,
-- and the semaphore of every thread has gone up once for each time the thread was on it.
pub cond_broadcast_counts :
    (u : ℕ) (s : Monitor)
    → s.held ≡ true
    → Returns
        (λ v. (v.waiters ≡ []) × ((v.semas u).value ≡ (s.semas u).value + count u s.waiters))
        (cond_broadcast s)
unfolding cond_broadcast
cond_broadcast_counts u s held =
    let last : suc (length s.waiters) ≡ length s.waiters + 1 = omega arith in
    subst
      (λ n.
        Returns
          (λ v. (v.waiters ≡ []) × ((v.semas u).value ≡ (s.semas u).value + count u s.waiters))
          (broadcast_rounds n s))
      last (rounds u s.waiters s held)
