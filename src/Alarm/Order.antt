-- ===== src/Alarm/Order.antt =====
-- Ordered lists of threads, and what Project 1/thread.c and timer.c rely on of
-- `list_insert_ordered`.
use comp_sys_pint_os.Base.{
  Lacks, IsDistinct, In, ℕ, ◌≡◌, Bool, true, false, List, [], ◌∷◌, ◌++◌, All, arith, sym, subst,
  ◌⊎◌, inl, inr,
}
use comp_sys_pint_os.Alarm.{least_sleep, prio_detect}

-- No element stands before one that is less.
abbrev pub IsSorted : (ℕ → ℕ → Bool) → List ℕ → Type 0
IsSorted less [] = Unit
IsSorted less (x ∷ xs) = All (λ y. less y x ≡ false) xs × IsSorted less xs

pub record IsOrder (less : ℕ → ℕ → Bool) : Type 0 where
  pub asymmetric : (a b : ℕ) → less a b ≡ true → less b a ≡ false
  pub negatively_transitive : (a b c : ℕ) → less a b ≡ false → less b c ≡ false → less a c ≡ false

pub least_sleep-IsOrder : (wake : ℕ → ℕ) → IsOrder (least_sleep wake)
unfolding least_sleep
least_sleep-IsOrder wake = record {
  asymmetric = λ a b h. ground arith;
  negatively_transitive = λ a b c h k. ground arith;
}

pub prio_detect-IsOrder : (priority : ℕ → ℕ) → IsOrder (prio_detect priority)
unfolding prio_detect
prio_detect-IsOrder priority = record {
  asymmetric = λ a b h. ground arith;
  negatively_transitive = λ a b c h k. ground arith;
}

-- The documented behaviour: the element is put somewhere into the list, and a list in order by an
-- order stays so.
pub record InsertsOrdered (insert : (ℕ → ℕ → Bool) → ℕ → List ℕ → List ℕ) : Type 0 where
  pub inserted :
      (less : ℕ → ℕ → Bool) (x : ℕ) (xs : List ℕ)
      → (pre : List ℕ) × (post : List ℕ) × (xs ≡ pre ++ post) × (insert less x xs ≡ pre ++ x ∷ post)
  pub ordered :
      (less : ℕ → ℕ → Bool) (x : ℕ) (xs : List ℕ)
      → IsOrder less
      → IsSorted less xs
      → IsSorted less (insert less x xs)

All-split : (P : ℕ → Type 0) (pre post : List ℕ) → All P (pre ++ post) → All P pre × All P post
All-split P [] post h = (tt, h)
All-split P (x ∷ pre) post h = ((h.0, (All-split P pre post h.1).0), (All-split P pre post h.1).1)

All-insert-at :
    (P : ℕ → Type 0) (x : ℕ) (pre post : List ℕ)
    → P x
    → All P (pre ++ post)
    → All P (pre ++ x ∷ post)
All-insert-at P x [] post px h = (px, h)
All-insert-at P x (y ∷ pre) post px h = (h.0, All-insert-at P x pre post px h.1)

IsDistinct-insert-at :
    (x : ℕ) (pre post : List ℕ)
    → Lacks x (pre ++ post)
    → IsDistinct (pre ++ post)
    → IsDistinct (pre ++ x ∷ post)
IsDistinct-insert-at x [] post l h = (l, h)
IsDistinct-insert-at x (y ∷ pre) post l h =
    (All-insert-at _ x pre post (ground (arith, l.0)) h.0, IsDistinct-insert-at x pre post l.1 h.1)

In-insert-at : (t x : ℕ) (pre post : List ℕ) → (t ≡ x) ⊎ In t (pre ++ post) → In t (pre ++ x ∷ post)
In-insert-at t x [] post h = h
In-insert-at t x (y ∷ pre) post (inl e) = inr (In-insert-at t x pre post (inl e))
In-insert-at t x (y ∷ pre) post (inr (inl e)) = inl e
In-insert-at t x (y ∷ pre) post (inr (inr m)) = inr (In-insert-at t x pre post (inr m))

module _ (insert : (ℕ → ℕ → Bool) → ℕ → List ℕ → List ℕ) (lawful : InsertsOrdered insert) where
  pub All-insert :
      (P : ℕ → Type 0) (less : ℕ → ℕ → Bool) (x : ℕ) (xs : List ℕ)
      → P x
      → All P xs
      → All P (insert less x xs)
  All-insert P less x xs px h =
      let (pre, post, e, d) = lawful.inserted less x xs in
      subst (All P) (sym d) (All-insert-at P x pre post px (subst (All P) e h))

  pub IsDistinct-insert :
      (less : ℕ → ℕ → Bool) (x : ℕ) (xs : List ℕ)
      → Lacks x xs
      → IsDistinct xs
      → IsDistinct (insert less x xs)
  IsDistinct-insert less x xs l h =
      let (pre, post, e, d) = lawful.inserted less x xs in
      subst IsDistinct (sym d)
        (IsDistinct-insert-at x pre post (subst (Lacks x) e l) (subst IsDistinct e h))

  pub In-insert :
      (t : ℕ) (less : ℕ → ℕ → Bool) (x : ℕ) (xs : List ℕ)
      → (t ≡ x) ⊎ In t xs
      → In t (insert less x xs)
  In-insert t less x xs h =
      let (pre, post, e, d) = lawful.inserted less x xs in
      subst (In t) (sym d) (In-insert-at t x pre post (moved pre post e h))
    where
      moved :
          (pre post : List ℕ) → xs ≡ pre ++ post → (t ≡ x) ⊎ In t xs → (t ≡ x) ⊎ In t (pre ++ post)
      moved pre post e (inl same) = inl same
      moved pre post e (inr m) = inr (subst (In t) e m)
