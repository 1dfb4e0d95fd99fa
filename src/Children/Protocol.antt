-- ===== src/Children/Protocol.antt =====
-- How a parent and its children of Project 3/userprog meet: what holds in every order of their steps.
use comp_sys_pint_os.Base.{
  ℕ, ◌≡◌, refl, sym, ◌∙◌, Bool, true, false, if◌then◌else◌, Option, none, some, ◌==◌, ◌≢◌, ==_iff,
  if_false, subst,
}
use comp_sys_pint_os.Children.{
  Child, blocks, Family, find_child, get_child_process, change_child, remove_child_process, WaitEnd,
  error, status, sleeps, wait_found, process_wait, wait_resume, Reachable,
}
use comp_sys_pint_os.Children.Table.{
  All-find_child, find_child-pid, Unique-change_child, find_child-remove_child,
}
use comp_sys_pint_os.Children.Steps.{IsChild, IsFamily, note_wait, Reachable-IsFamily}

-- In whatever order the parent and its children run: a child that the parent sleeps for is on its
-- list, noted as waited for, and its semaphore is up just if the child has told of its exit, so that
-- the parent can wake then and not before. For a child whose executable is not open, that is never: the
-- semaphore is down in every state that can be reached.
pub Reachable-awaited :
    (s : Family) (pid : ℕ)
    → Reachable s
    → s.parent ≡ blocks pid
    → (c : Child) × (find_child pid s.child_list ≡ some c)
      × (c.wait ≡ true)
      × (c.exit_sema ≡ (if c.exit then 1 else 0))
      × (s.executable pid ≡ false → c.exit_sema ≡ 0)
Reachable-awaited s pid r b =
    let h = Reachable-IsFamily s r in
    let (c, found, w) = h.awaited pid b in
    let i = All-find_child (IsChild s.executable) pid s.child_list c h.children found in
    (
      c,
      found,
      w,
      i.up_if_exited,
      λ unopened.
          i.up_if_exited
          ∙ if_false c.exit 1 0 (
              not_opened c.exit (s.executable c.pid) i.opened (
                subst (λ q. s.executable q ≡ false)
                  ((==_iff pid c.pid).0 (find_child-pid pid c s.child_list found)) unopened)),
    )
  where
    not_opened : (b o : Bool) → (b ≡ true → o ≡ true) → o ≡ false → b ≡ false
    not_opened true o h e = absurd (true≢false (sym (h refl) ∙ e))
      where
        true≢false : true ≢ false
        true≢false x = cc
    not_opened false o h e = refl

wait_missing :
    (pid : ℕ) (s : Family) → find_child pid s.child_list ≡ none → (process_wait pid s).0 ≡ error
unfolding process_wait get_child_process wait_found
wait_missing pid s e = rw e refl

-- Once the parent has slept for a child and woken, a second `process_wait` for it returns ERROR.
pub process_wait-wait_resume :
    (s : Family) (pid : ℕ) (c : Child)
    → Reachable s
    → (process_wait pid (wait_resume pid c s).1).0 ≡ error
unfolding wait_resume remove_child_process
process_wait-wait_resume s pid c r =
    wait_missing pid _ (find_child-remove_child pid s.child_list (Reachable-IsFamily s r).unique)

abbrev chosen : Bool → Bool → Option ℕ → Family → Family → Family → WaitEnd × Family
chosen again gone m s u v =
    if again then (error, s) else if gone then (status m, u) else (sleeps, v)

-- Only the branch of a child that has exited returns a status.
only_exited :
    (pid : ℕ) (again gone : Bool) (m n : Option ℕ) (s u v : Family)
    → (chosen again gone m s u v).0 ≡ status n
    → find_child pid u.child_list ≡ none
    → (m ≡ n) × (find_child pid (chosen again gone m s u v).1.child_list ≡ none)
only_exited pid true gone m n s u v r removed = cc
only_exited pid false true m n s u v r removed = (cc, removed)
only_exited pid false false m n s u v r removed = cc

-- What a `process_wait` that returned a status has done.
found_status :
    (pid : ℕ) (o : Option Child) (s : Family) (n : Option ℕ)
    → IsFamily s
    → find_child pid s.child_list ≡ o
    → (wait_found pid o s).0 ≡ status n
    → (n ≡ none) × (find_child pid (wait_found pid o s).1.child_list ≡ none)
unfolding wait_found remove_child_process
found_status pid none s n h e r = cc
found_status pid (some c) s n h e r =
    let q = only_exited pid c.wait c.exit c.status n s _ _ r (
      find_child-remove_child pid (change_child pid note_wait s.child_list)
        (Unique-change_child note_wait (λ x. refl) pid s.child_list h.unique)) in
    (
      sym q.0 ∙ (All-find_child (IsChild s.executable) pid s.child_list c h.children e).no_status,
      q.1,
    )

-- The parent has got a status for a child: from `process_wait` at once, or once it slept and woke.
pub data Returned : Family → ℕ → Option ℕ → Family → Type 0 where
  at_once :
      (s : Family) (pid : ℕ) (n : Option ℕ)
      → (process_wait pid s).0 ≡ status n
      → Returned s pid n (process_wait pid s).1
  woken :
      (s : Family) (pid : ℕ) (n : Option ℕ) (c : Child)
      → s.parent ≡ blocks pid
      → find_child pid s.child_list ≡ some c
      → (c.exit_sema == 0) ≡ false
      → (wait_resume pid c s).0 ≡ status n
      → Returned s pid n (wait_resume pid c s).1

-- A child's status is returned at most once: after a `process_wait` that returned a status, at once or
-- after a sleep, another for the same child returns ERROR. And the status is not one that the child
-- exited with: it is as `malloc` left it.
pub process_wait-once :
    (s : Family) (pid : ℕ) (n : Option ℕ) (t : Family)
    → Reachable s
    → Returned s pid n t
    → ((process_wait pid t).0 ≡ error) × (n ≡ none)
unfolding process_wait get_child_process wait_resume
process_wait-once _ _ _ _ r (at_once s pid n e) =
    let f = found_status pid (find_child pid s.child_list) s n (Reachable-IsFamily s r) refl e in
    (wait_missing pid _ f.1, f.0)
process_wait-once _ _ _ _ r (woken s pid n c b found up e) = (
  process_wait-wait_resume s pid c r,
  same c.status n e
      ∙ (let i =
            All-find_child (IsChild s.executable) pid s.child_list c
              (Reachable-IsFamily s r).children found in
          i.no_status),
)
  where
    same : (m k : Option ℕ) → status m ≡ status k → k ≡ m
    same m k x = cc
