-- ===== src/Synch.antt =====
-- Project 3/threads/synch.c: semaphores and locks, and the threads that use one lock.
-- A function runs with interrupts off up to the point where the thread blocks, or where they are
-- turned on again. Between two such points other threads run: the functions below are the pieces,
-- and `Step` lets any thread run its next piece.
pub mod Invariant
pub mod Moves
pub mod Exclusion
pub mod Condition
use comp_sys_pint_os.Base.{
  ℕ, ◌+◌, ◌-◌, ◌≡◌, Bool, true, false, ◌==◌, if◌then◌else◌, not, update, List, [], ◌∷◌, ◌++◌,
  Option, none, some, Outcome, returns, ◌>>=◌, ◌>>◌, assert,
}

-- `struct semaphore`, with the waiting threads in order.
pub record Semaphore : Type 0 where
  pub value : ℕ
  pub waiters : List ℕ

-- `struct lock`; `listed` is the thread on whose `lock_list` the lock was put last.
pub record Lock : Type 0 where
  pub holder : Option ℕ
  pub semaphore : Semaphore
  pub listed : Option ℕ

-- Where a thread stands with respect to the lock: it does not use it; it is about to test the value
-- in the loop of `sema_down`; it is blocked there; it is back from `sema_down` or `sema_try_down`
-- and is about to note that it holds the lock; it holds it; it has noted that it does not, and is
-- about to call `sema_up`.
pub data Place : Type 0 where
  outside testing asleep downed holding releasing : Place

pub record System : Type 0 where
  pub lock : Lock
  pub place : ℕ → Place

unfoldable pub sema_init : ℕ → Semaphore
sema_init value = record { value = value; waiters = [] }

unfoldable pub lock_init : Lock
unfolding sema_init
lock_init = record { holder = none; semaphore = sema_init 1; listed = none }

-- One round of the `while` of `sema_down`, for the thread `t`: it is over, or the thread sleeps.
unfoldable pub sema_down_round : ℕ → Semaphore → Bool × Semaphore
sema_down_round t s =
    if s.value == 0
    then (false, record s { waiters = s.waiters ++ t ∷ [] })
    else (true, record s { value = s.value - 1 })

unfoldable pub sema_try_down : Semaphore → Bool × Semaphore
sema_try_down s = if s.value == 0 then (false, s) else (true, record s { value = s.value - 1 })

-- The thread to unblock, if any waits.
unfoldable pub sema_wake : List ℕ → Semaphore → Option ℕ × Semaphore
sema_wake [] s = (none, record s { value = s.value + 1; waiters = [] })
sema_wake (t ∷ ts) s = (some t, record s { value = s.value + 1; waiters = ts })

unfoldable pub sema_up : Semaphore → Option ℕ × Semaphore
unfolding sema_wake
sema_up s = sema_wake s.waiters s

abbrev pub is_thread : Option ℕ → ℕ → Bool
is_thread none t = false
is_thread (some u) t = u == t

unfoldable pub lock_held_by : ℕ → Lock → Bool
lock_held_by t l = is_thread l.holder t

-- `sema_down`, entered or come back to.
unfoldable pub down : ℕ → System → System
unfolding sema_down_round
down t s =
    let (over, sema) = sema_down_round t s.lock.semaphore in
    record {
      lock = record (s.lock) { semaphore = sema };
      place = update s.place t (if over then downed else asleep);
    }

-- `lock_acquire` up to its first pause.
unfoldable pub lock_acquire : ℕ → System → Outcome System
unfolding lock_held_by down
lock_acquire t s = do assert (not (lock_held_by t s.lock)); returns (down t s)

-- `lock_acquire` and `lock_try_acquire` after the semaphore is down.
unfoldable pub note_holder : ℕ → System → System
note_holder t s = record {
  lock = record (s.lock) { holder = some t; listed = some t };
  place = update s.place t holding;
}

-- `lock_try_acquire` up to the note of the holder. The call of `list_push_back` stands outside the
-- `if`: where the lock is not to be had, it is put on the caller's list all the same.
unfoldable pub try_result : ℕ → Bool × Semaphore → System → Bool × System
try_result t (true, sema) s =
    (true, record { lock = record (s.lock) { semaphore = sema }; place = update s.place t downed })
try_result t (false, sema) s = (false, record s { lock = record (s.lock) { listed = some t } })

unfoldable pub lock_try_acquire : ℕ → System → Outcome (Bool × System)
unfolding lock_held_by sema_try_down try_result
lock_try_acquire t s = do
  assert (not (lock_held_by t s.lock))
  returns (try_result t (sema_try_down s.lock.semaphore) s)

-- `lock_release` up to the call of `sema_up`.
unfoldable pub lock_release : ℕ → System → Outcome System
unfolding lock_held_by
lock_release t s = do
  assert (lock_held_by t s.lock)
  returns (record {
    lock = record (s.lock) { holder = none; listed = none };
    place = update s.place t releasing;
  })

-- `thread_unblock`: the thread goes on in the loop of `sema_down`.
abbrev pub unblock : Option ℕ → (ℕ → Place) → ℕ → Place
unblock none place = place
unblock (some t) place = update place t testing

-- The `sema_up` of `lock_release`.
unfoldable pub up : ℕ → System → System
unfolding sema_up
up t s =
    let (woken, sema) = sema_up s.lock.semaphore in
    record {
      lock = record (s.lock) { semaphore = sema };
      place = unblock woken (update s.place t outside);
    }

-- Any thread takes its next step; a thread that does not use the lock may ask for it.
pub data Step : System → System → Type 0 where
  acquires : (t : ℕ) (s u : System) → s.place t ≡ outside → lock_acquire t s ≡ returns u → Step s u
  tests : (t : ℕ) (s : System) → s.place t ≡ testing → Step s (down t s)
  tries :
      (t : ℕ) (s u : System) (success : Bool)
      → s.place t ≡ outside
      → lock_try_acquire t s ≡ returns (success, u)
      → Step s u
  notes : (t : ℕ) (s : System) → s.place t ≡ downed → Step s (note_holder t s)
  releases : (t : ℕ) (s u : System) → s.place t ≡ holding → lock_release t s ≡ returns u → Step s u
  ups : (t : ℕ) (s : System) → s.place t ≡ releasing → Step s (up t s)

unfoldable pub start : System
unfolding lock_init
start = record { lock = lock_init; place = λ t. outside }

pub data Reachable : System → Type 0 where
  starts : Reachable start
  steps : {s u : System} → Reachable s → Step s u → Reachable u
