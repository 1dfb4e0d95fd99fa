-- ===== src/Children/Steps.antt =====
-- What every step of a parent and its children of Project 3/userprog keeps.
use comp_sys_pint_os.Base.{
  ℕ, ◌+◌, ◌≡◌, refl, sym, ap, ◌∙◌, subst, true, false, if◌then◌else◌, if_true, if_false, All,
  All-append, Option, none, some, Bool-cases, ◌⊎◌, inl, inr, Bool, ==_iff,
}
use comp_sys_pint_os.Children.{
  Child, runs, blocks, Family, add_child_process, find_child, get_child_process, change_child,
  remove_child_process, WaitEnd, wait_found, process_wait, wait_resume, child_exits, Step, forks,
  waits, resumes, exits, Reachable, starts, steps,
}
use comp_sys_pint_os.Children.Table.{
  Unique, some_inj, Unique-change_child, All-change_child, find_child-change_self, find_child-pid,
  find_child-change, Unique-remove_child, All-remove_child, Unique-push,
}

-- The semaphore is up just if the child has exited, which needs an open executable; nobody has set its
-- status.
pub record IsChild (executable : ℕ → Bool) (c : Child) : Type 0 where
  pub up_if_exited : c.exit_sema ≡ (if c.exit then 1 else 0)
  pub no_status : c.status ≡ none
  pub opened : c.exit ≡ true → executable c.pid ≡ true

-- The children are as above, each once; and a child that the parent waits for is on the list, noted as
-- waited for.
pub record IsFamily (s : Family) : Type 0 where
  pub children : All (IsChild s.executable) s.child_list
  pub unique : Unique s.child_list
  pub awaited :
      (pid : ℕ)
      → s.parent ≡ blocks pid
      → (c : Child) × (find_child pid s.child_list ≡ some c) × (c.wait ≡ true)

abbrev pub note_wait : Child → Child
note_wait c = record c { wait = true }

abbrev note_exit : Child → Child
note_exit c = record c { exit = true; exit_sema = c.exit_sema + 1 }

forked :
    (pid : ℕ) (s : Family)
    → s.parent ≡ runs
    → find_child pid s.child_list ≡ none
    → IsFamily s
    → IsFamily (add_child_process true pid s)
unfolding add_child_process
forked pid s running fresh h = record {
  children =
      All-append _ s.child_list _ h.children
        (record { up_if_exited = refl; no_status = refl; opened = λ e. cc }, tt);
  unique = Unique-push s.child_list _ fresh h.unique;
  awaited = λ q e. cc;
}

waited :
    (pid : ℕ) (o : Option Child) (s : Family)
    → s.parent ≡ runs
    → find_child pid s.child_list ≡ o
    → IsFamily s
    → IsFamily (wait_found pid o s).1
unfolding wait_found remove_child_process
waited pid none s running e h = h
waited pid (some c) s running e h = elim (Bool-cases c.wait) [
  | inl again ↦ subst (λ (r : WaitEnd × Family). IsFamily r.1) (sym (if_true _ _ _ again)) h
  | inr first ↦
      subst (λ (r : WaitEnd × Family). IsFamily r.1) (sym (if_false _ _ _ first))
        (elim (Bool-cases c.exit) [
          | inl gone ↦
              subst (λ (r : WaitEnd × Family). IsFamily r.1) (sym (if_true _ _ _ gone))
                (record {
                  children = All-remove_child _ pid _ changed;
                  unique = Unique-remove_child pid _ once;
                  awaited = λ q b. cc;
                })
          | inr alive ↦
              subst (λ (r : WaitEnd × Family). IsFamily r.1) (sym (if_false _ _ _ alive))
                (record {
                  children = changed;
                  unique = once;
                  awaited = λ q b.
                      subst
                        (λ n.
                          (d : Child) × (find_child n (change_child pid note_wait s.child_list)
                            ≡ some d)
                          × (d.wait ≡ true))
                        (blocks_inj q b)
                        (
                          note_wait c,
                          find_child-change_self note_wait (λ x. refl) pid s.child_list c e,
                          refl,
                        );
                })
        ])
]
  where
    blocks_inj : (q : ℕ) → blocks pid ≡ blocks q → pid ≡ q
    blocks_inj q b = cc

    changed : All (IsChild s.executable) (change_child pid note_wait s.child_list)
    changed =
        All-change_child note_wait (λ x. refl) (IsChild s.executable) pid s.child_list h.children
          (λ d f i. record {
            up_if_exited = i.up_if_exited;
            no_status = i.no_status;
            opened = i.opened;
          })

    once : Unique (change_child pid note_wait s.child_list)
    once = Unique-change_child note_wait (λ x. refl) pid s.child_list h.unique

exited :
    (b : Bool) (pid : ℕ) (c : Child) (s : Family)
    → s.executable pid ≡ b
    → find_child pid s.child_list ≡ some c
    → c.exit ≡ false
    → IsFamily s
    → IsFamily (child_exits b pid s)
unfolding child_exits
exited false pid c s o e alive h = h
exited true pid c s o e alive h = record {
  children =
      All-change_child note_exit (λ x. refl) (IsChild s.executable) pid s.child_list h.children
        (λ d f i. record {
          up_if_exited =
              up d (ap (λ (x : Child). x.exit) (some_inj d c (sym f ∙ e)) ∙ alive) i.up_if_exited;
          no_status = i.no_status;
          opened = λ _.
              subst (λ q. s.executable q ≡ true)
                ((==_iff pid d.pid).0 (find_child-pid pid d s.child_list f)) o;
        });
  unique = Unique-change_child note_exit (λ x. refl) pid s.child_list h.unique;
  awaited = λ q b. still q (h.awaited q b);
}
  where
    up :
        (d : Child) → d.exit ≡ false → d.exit_sema ≡ (if d.exit then 1 else 0) → d.exit_sema + 1 ≡ 1
    up d a i = ap (λ n. n + 1) (i ∙ if_false d.exit 1 0 a)

    still :
        (q : ℕ)
        → (x : Child) × (find_child q s.child_list ≡ some x) × (x.wait ≡ true)
        → (x : Child) × (find_child q (change_child pid note_exit s.child_list) ≡ some x)
          × (x.wait ≡ true)
    still q (x, found, w) =
        let (d, found', same) =
          find_child-change note_exit (λ y. refl) q pid s.child_list x found in
        (d, found', wait_of d x w same)
      where
        wait_of : (d x : Child) → x.wait ≡ true → (d ≡ x) ⊎ (d ≡ note_exit x) → d.wait ≡ true
        wait_of d x w (inl e) = ap (λ (y : Child). y.wait) e ∙ w
        wait_of d x w (inr e) = ap (λ (y : Child). y.wait) e ∙ w

resumed : (pid : ℕ) (c : Child) (s : Family) → IsFamily s → IsFamily (wait_resume pid c s).1
unfolding wait_resume remove_child_process
resumed pid c s h = record {
  children = All-remove_child _ pid _ h.children;
  unique = Unique-remove_child pid _ h.unique;
  awaited = λ q b. cc;
}

-- Every step of the parent or of a child keeps the list of children as it should be.
pub Step-IsFamily : (s u : Family) → Step s u → IsFamily s → IsFamily u
unfolding process_wait get_child_process
Step-IsFamily _ _ (forks pid s running fresh) h = forked pid s running fresh h
Step-IsFamily _ _ (waits pid s running) h =
    waited pid (find_child pid s.child_list) s running refl h
Step-IsFamily _ _ (resumes pid c s b e up) h = resumed pid c s h
Step-IsFamily _ _ (exits pid c s e alive) h = exited (s.executable pid) pid c s refl e alive h

pub Reachable-IsFamily : (s : Family) → Reachable s → IsFamily s
Reachable-IsFamily _ (starts executable) = record {
  children = tt;
  unique = tt;
  awaited = λ q b. cc;
}
Reachable-IsFamily _ (steps {s} {u} r m) = Step-IsFamily s u m (Reachable-IsFamily s r)
