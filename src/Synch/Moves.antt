-- ===== src/Synch/Moves.antt =====
-- The pieces of the functions on locks of Project 3/threads/synch.c, one by one.
use comp_sys_pint_os.Base.{
  ℕ, ◌+◌, ◌-◌, ◌≡◌, ◌≢◌, refl, sym, ap, true, false, ◌==◌, ==_iff, ==_refl, if_true, update, List,
  [], ◌∷◌, ◌++◌, All, All-append, Option, none, some, arith, Bool-cases, inl, inr,
}
use comp_sys_pint_os.Synch.{
  Semaphore, Place, outside, testing, asleep, downed, holding, releasing, System, sema_down_round,
  down, sema_up, sema_wake, unblock,
}
use comp_sys_pint_os.Synch.Invariant.{
  owns, Agrees, IsValid, update_cases, Owners-keep, Owners-take, Owners-give, Owners-free,
  Owners-one, Owners-le, Lacks-place, All-moved, IsDistinct-push,
}

-- A thread that asks for the lock does not hold it and is not asleep.
abbrev pub Asks : Place → Type 0
Asks p = (owns p ≡ false) × (p ≢ asleep)

-- The lock is had: the value goes down.
pub took :
    (t : ℕ) (o : Option ℕ) (v : ℕ) (ws : List ℕ) (place : ℕ → Place)
    → Asks (place t)
    → (v == 0) ≡ false
    → Agrees o v ws place
    → Agrees o (v - 1) ws (update place t downed)
took t o v ws place asks some_left h = record {
  owners = Owners-take v place t downed some_left refl h.owners;
  holder_holds = λ u e.
      update_cases (λ q. q ≡ holding) place t downed u
        (λ s. cc (asks.0, ap (λ x. owns (place x)) s, ap owns (h.holder_holds u e)))
        (λ n. h.holder_holds u e);
  holds_holder = λ u.
      update_cases (λ q. q ≡ holding → o ≡ some u) place t downed u (λ s e. cc)
        (λ n e. h.holds_holder u e);
  sleep = All-moved place t downed ws (Lacks-place place t ws asks.1 h.sleep) h.sleep;
  distinct = h.distinct;
  woken = λ e. absurd (omega (arith, e, Owners-le v place h.owners));
}

-- The lock is not to be had: the thread sleeps.
slept :
    (t : ℕ) (o : Option ℕ) (v : ℕ) (ws : List ℕ) (place : ℕ → Place)
    → Asks (place t)
    → (v == 0) ≡ true
    → Agrees o v ws place
    → Agrees o v (ws ++ t ∷ []) (update place t asleep)
slept t o v ws place asks used h = record {
  owners = Owners-keep v place t asleep (sym asks.0) h.owners;
  holder_holds = λ u e.
      update_cases (λ q. q ≡ holding) place t asleep u
        (λ s. cc (asks.0, ap (λ x. owns (place x)) s, ap owns (h.holder_holds u e)))
        (λ n. h.holder_holds u e);
  holds_holder = λ u.
      update_cases (λ q. q ≡ holding → o ≡ some u) place t asleep u (λ s e. cc)
        (λ n e. h.holds_holder u e);
  sleep =
      All-append _ ws (t ∷ [])
        (All-moved place t asleep ws (Lacks-place place t ws asks.1 h.sleep) h.sleep)
        (if_true (t == t) _ _ (==_refl t), tt);
  distinct = IsDistinct-push t ws (Lacks-place place t ws asks.1 h.sleep) h.distinct;
  woken = λ e. absurd (omega (arith, (==_iff v 0).0 used));
}

pub noted :
    (t : ℕ) (o : Option ℕ) (v : ℕ) (ws : List ℕ) (place : ℕ → Place)
    → place t ≡ downed
    → Agrees o v ws place
    → Agrees (some t) v ws (update place t holding)
noted t o v ws place here h = record {
  owners = Owners-keep v place t holding (sym (ap owns here)) h.owners;
  holder_holds =
      λ u e. update_cases (λ q. q ≡ holding) place t holding u (λ s. refl) (λ n. absurd (n cc));
  holds_holder = λ u.
      update_cases (λ q. q ≡ holding → some t ≡ some u) place t holding u (λ s e. ap some s)
        (λ n e. absurd (n (Owners-one v place t u h.owners (ap owns here) (ap owns e))));
  sleep = All-moved place t holding ws (Lacks-place place t ws (λ x. cc) h.sleep) h.sleep;
  distinct = h.distinct;
  woken = λ e. cc (Owners-free v place t h.owners e, ap owns here);
}

pub released :
    (t : ℕ) (o : Option ℕ) (v : ℕ) (ws : List ℕ) (place : ℕ → Place)
    → place t ≡ holding
    → Agrees o v ws place
    → Agrees none v ws (update place t releasing)
released t o v ws place here h = record {
  owners = Owners-keep v place t releasing (sym (ap owns here)) h.owners;
  holder_holds = λ u e. cc;
  holds_holder = λ u.
      update_cases (λ q. q ≡ holding → none ≡ some u) place t releasing u (λ s e. cc)
        (λ n e. absurd (n (Owners-one v place t u h.owners (ap owns here) (ap owns e))));
  sleep = All-moved place t releasing ws (Lacks-place place t ws (λ x. cc) h.sleep) h.sleep;
  distinct = h.distinct;
  woken = λ e. cc (Owners-free v place t h.owners e, ap owns here);
}

-- The value goes up, and the first thread that waits is woken.
pub upped :
    (t : ℕ) (o : Option ℕ) (s : Semaphore) (place : ℕ → Place)
    → place t ≡ releasing
    → Agrees o s.value s.waiters place
    → Agrees o
        (sema_up s).1.value
        (sema_up s).1.waiters
        (unblock (sema_up s).0 (update place t outside))
unfolding sema_up
upped t o s place here h = wake s.waiters h
  where
    gone :
        (ws : List ℕ) → Agrees o s.value ws place → All (λ u. update place t outside u ≡ asleep) ws
    gone ws h = All-moved place t outside ws (Lacks-place place t ws (λ x. cc) h.sleep) h.sleep

    held :
        (h : (u : ℕ) → o ≡ some u → place u ≡ holding) (u : ℕ)
        → o ≡ some u
        → update place t outside u ≡ holding
    held h u e =
        update_cases (λ q. q ≡ holding) place t outside u (λ x. cc (h u e, ap place x)) (λ n. h u e)

    holds :
        (h : (u : ℕ) → place u ≡ holding → o ≡ some u) (u : ℕ)
        → update place t outside u ≡ holding
        → o ≡ some u
    holds h u =
        update_cases (λ q. q ≡ holding → o ≡ some u) place t outside u (λ x e. cc) (λ n e. h u e)

    wake :
        (ws : List ℕ)
        → Agrees o s.value ws place
        → Agrees o
            (sema_wake ws s).1.value
            (sema_wake ws s).1.waiters
            (unblock (sema_wake ws s).0 (update place t outside))
    wake [] h =
        unfold sema_wake in
        record {
          owners = Owners-give s.value place t outside (ap owns here) refl h.owners;
          holder_holds = held h.holder_holds;
          holds_holder = holds h.holds_holder;
          sleep = tt;
          distinct = tt;
          woken = λ e. inl refl;
        }
    wake (w ∷ ws) h =
        unfold sema_wake in
        record {
          owners =
              Owners-keep (s.value + 1) (update place t outside) w testing
                (sym (ap owns (gone (w ∷ ws) h).0))
                (Owners-give s.value place t outside (ap owns here) refl h.owners);
          holder_holds = λ u e.
              update_cases (λ q. q ≡ holding) (update place t outside) w testing u
                (λ x.
                  cc (held h.holder_holds u e, ap (update place t outside) x, (gone (w ∷ ws) h).0))
                (λ n. held h.holder_holds u e);
          holds_holder = λ u.
              update_cases (λ q. q ≡ holding → o ≡ some u) (update place t outside) w testing u
                (λ x e. cc) (λ n e. holds h.holds_holder u e);
          sleep = All-moved (update place t outside) w testing ws h.distinct.0 (gone (w ∷ ws) h).1;
          distinct = h.distinct.1;
          woken = λ e. inr (w, if_true (w == w) _ _ (==_refl w));
        }

pub down-IsValid : (t : ℕ) (s : System) → Asks (s.place t) → IsValid s → IsValid (down t s)
unfolding down sema_down_round
down-IsValid t s asks h = elim (Bool-cases (s.lock.semaphore.value == 0)) [
  | inl used ↦ rw used (slept t _ _ _ s.place asks used h)
  | inr left ↦ rw left (took t _ _ _ s.place asks left h)
]
