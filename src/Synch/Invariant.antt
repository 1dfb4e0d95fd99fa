-- ===== src/Synch/Invariant.antt =====
-- The lock of Project 3/threads/synch.c: what holds after every step of every thread.
use comp_sys_pint_os.Base.{
  ℕ, ◌+◌, ◌-◌, ◌≤◌, ◌≡◌, ◌≢◌, sym, ap, ◌∙◌, subst, Bool, true, false, ◌==◌, ==_iff, ==_refl,
  if_true, if_false, update, List, [], ◌∷◌, ◌++◌, All, All-append, All-map, All-zip, Lacks,
  IsDistinct, Option, some, arith, Bool-cases, ◌⊎◌, inl, inr,
}
use comp_sys_pint_os.Synch.{Place, testing, asleep, downed, holding, releasing, System}

-- The thread has the semaphore down.
abbrev pub owns : Place → Bool
owns downed = true
owns holding = true
owns releasing = true
owns _ = false

-- The value is 1 and no thread has the semaphore down, or it is 0 and exactly one has.
abbrev pub Owners : ℕ → (ℕ → Place) → Type 0
Owners value place =
    ((value ≡ 1) × ((t : ℕ) → owns (place t) ≡ false))
    ⊎ ((value ≡ 0)
        × ((o : ℕ) × (owns (place o) ≡ true) × ((t : ℕ) → owns (place t) ≡ true → t ≡ o)))

-- The holder, the value and the waiting threads agree with the places; and where the lock is free,
-- no thread waits for it, or one that was woken is about to test it.
pub record Agrees (holder : Option ℕ) (value : ℕ) (waiters : List ℕ) (place : ℕ → Place)
    : Type 0 where
  pub owners : Owners value place
  pub holder_holds : (t : ℕ) → holder ≡ some t → place t ≡ holding
  pub holds_holder : (t : ℕ) → place t ≡ holding → holder ≡ some t
  pub sleep : All (λ t. place t ≡ asleep) waiters
  pub distinct : IsDistinct waiters
  pub woken : value ≡ 1 → (waiters ≡ []) ⊎ ((t : ℕ) × (place t ≡ testing))

abbrev pub IsValid : System → Type 0
IsValid s = Agrees s.lock.holder s.lock.semaphore.value s.lock.semaphore.waiters s.place

-- By cases on whether a place is the one that changed.
pub update_cases :
    (P : Place → Type 0) (place : ℕ → Place) (t : ℕ) (p : Place) (u : ℕ)
    → (t ≡ u → P p)
    → (t ≢ u → P (place u))
    → P (update place t p u)
update_cases P place t p u same other = elim (Bool-cases (t == u)) [
  | inl e ↦ subst P (sym (if_true (t == u) _ _ e)) (same ((==_iff t u).0 e))
  | inr n ↦ subst P (sym (if_false (t == u) _ _ n)) (other (λ e. ground arith))
]

pub Owners-keep :
    (value : ℕ) (place : ℕ → Place) (t : ℕ) (p : Place)
    → owns p ≡ owns (place t)
    → Owners value place
    → Owners value (update place t p)
Owners-keep value place t p e (inl (one, free)) =
    inl (one, λ u. update_cases (λ q. owns q ≡ false) place t p u (λ s. e ∙ free t) (λ n. free u))
Owners-keep value place t p e (inr (zero, (o, has, only))) = inr (
  zero,
  (
    o,
    update_cases (λ q. owns q ≡ true) place t p o (λ s. e ∙ ap (λ x. owns (place x)) s ∙ has)
        (λ n. has),
    λ u.
        update_cases (λ q. owns q ≡ true → u ≡ o) place t p u (λ s h. sym s ∙ only t (sym e ∙ h))
          (λ n h. only u h),
  ),
)

pub Owners-take :
    (value : ℕ) (place : ℕ → Place) (t : ℕ) (p : Place)
    → (value == 0) ≡ false
    → owns p ≡ true
    → Owners value place
    → Owners (value - 1) (update place t p)
Owners-take value place t p some_left e (inl (one, free)) = inr (
  omega arith,
  (
    t,
    ap owns (if_true (t == t) p (place t) (==_refl t)) ∙ e,
    λ u. update_cases (λ q. owns q ≡ true → u ≡ t) place t p u (λ s h. sym s) (λ n h. cc (free u)),
  ),
)
Owners-take value place t p some_left e (inr (zero, (o, has, only))) = ground arith

pub Owners-give :
    (value : ℕ) (place : ℕ → Place) (t : ℕ) (p : Place)
    → owns (place t) ≡ true
    → owns p ≡ false
    → Owners value place
    → Owners (value + 1) (update place t p)
Owners-give value place t p had e (inl (one, free)) = cc (free t)
Owners-give value place t p had e (inr (zero, (o, has, only))) = inl (
  omega arith,
  λ u.
      update_cases (λ q. owns q ≡ false) place t p u (λ s. e)
        (λ n. not_owner u n (Bool-cases (owns (place u)))),
)
  where
    not_owner :
        (u : ℕ)
        → t ≢ u
        → (owns (place u) ≡ true) ⊎ (owns (place u) ≡ false)
        → owns (place u) ≡ false
    not_owner u n (inl own) = absurd (n (only t had ∙ sym (only u own)))
    not_owner u n (inr free) = free

-- No thread has the semaphore down where its value is not 0.
pub Owners-free :
    (value : ℕ) (place : ℕ → Place) (t : ℕ)
    → Owners value place
    → value ≡ 1
    → owns (place t) ≡ false
Owners-free value place t (inl (one, free)) e = free t
Owners-free value place t (inr (zero, o)) e = absurd (omega arith)

pub Owners-le : (value : ℕ) (place : ℕ → Place) → Owners value place → value ≤ 1
Owners-le value place (inl (one, free)) = omega arith
Owners-le value place (inr (zero, o)) = omega arith

pub Owners-one :
    (value : ℕ) (place : ℕ → Place) (t u : ℕ)
    → Owners value place
    → owns (place t) ≡ true
    → owns (place u) ≡ true
    → t ≡ u
Owners-one value place t u (inl (one, free)) ht hu = cc (free t)
Owners-one value place t u (inr (zero, (o, has, only))) ht hu = only t ht ∙ sym (only u hu)

-- A thread at another place is not among the sleepers.
pub Lacks-place :
    (place : ℕ → Place) (t : ℕ) (ts : List ℕ)
    → place t ≢ asleep
    → All (λ u. place u ≡ asleep) ts
    → Lacks t ts
Lacks-place place t ts ne h =
    All-map _ _ ts
      (λ u e. elim (Bool-cases (t == u)) [
        | inl s ↦ absurd (ne (ap place ((==_iff t u).0 s) ∙ e))
        | inr n ↦ n
      ])
      h

pub All-moved :
    (place : ℕ → Place) (t : ℕ) (p : Place) (ts : List ℕ)
    → Lacks t ts
    → All (λ u. place u ≡ asleep) ts
    → All (λ u. update place t p u ≡ asleep) ts
All-moved place t p ts l h = All-zip _ _ _ ts (λ u ne e. if_false (t == u) _ _ ne ∙ e) l h

pub IsDistinct-push : (t : ℕ) (ts : List ℕ) → Lacks t ts → IsDistinct ts → IsDistinct (ts ++ t ∷ [])
IsDistinct-push t [] l h = (tt, tt)
IsDistinct-push t (u ∷ ts) l h =
    (All-append _ ts (t ∷ []) h.0 (ground (arith, l.0), tt), IsDistinct-push t ts l.1 h.1)
