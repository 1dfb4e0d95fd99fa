-- ===== src/Examples/Waiting.antt =====
-- A process with two children, of which it waits for one.
use comp_sys_pint_os.Base.{
  Bool, not, ◌==◌, ℕ, ◌≡◌, refl, true, false, if◌then◌else◌, Option, some, none,
}
use comp_sys_pint_os.Children.{
  Child, Family, childless, Reachable, starts, steps, forks, waits, exits, add_child_process,
  process_wait, get_child_process, find_child, child_exits, error, change_child, wait_resume,
}
use comp_sys_pint_os.Children.Protocol.{Reachable-awaited, woken, process_wait-once}

-- The executables of all children but the ninth are open.
abbrev opened : ℕ → Bool
opened pid = not (pid == 9)

abbrev family : Family
family = childless opened

abbrev two_children : Family
two_children = add_child_process true 8 (add_child_process true 7 family)

two_children-Reachable : Reachable two_children
unfolding add_child_process find_child
two_children-Reachable =
    steps (steps (starts opened) (forks 7 family refl refl))
      (forks 8 (add_child_process true 7 family) refl refl)

-- The parent waits for the first, which has not exited.
abbrev one_awaited : Family
one_awaited = (process_wait 7 two_children).1

one_awaited-Reachable : Reachable one_awaited
unfolding add_child_process find_child
one_awaited-Reachable = steps two_children-Reachable (waits 7 two_children refl)

-- The second has exited.
abbrev one_exited : Family
one_exited = child_exits true 8 two_children

one_exited-Reachable : Reachable one_exited
unfolding add_child_process find_child
one_exited-Reachable = steps two_children-Reachable (
    exits 8 (record { pid = 8; load = 0; wait = false; exit = false; status = none; exit_sema = 0 })
      two_children refl refl)

Reachable-awaited_example :
    (c : Child) × (find_child 7 one_awaited.child_list ≡ some c)
    × (c.wait ≡ true)
    × (c.exit_sema ≡ (if c.exit then 1 else 0))
    × (opened 7 ≡ false → c.exit_sema ≡ 0)
unfolding process_wait add_child_process
Reachable-awaited_example =
    Reachable-awaited one_awaited 7 one_awaited-Reachable
      (unfold process_wait get_child_process add_child_process find_child in refl)

-- The first child exits while the parent sleeps for it.
abbrev first_child : Child
first_child = record { pid = 7; load = 0; wait = true; exit = false; status = none; exit_sema = 0 }

abbrev first_exited : Child
first_exited = record { pid = 7; load = 0; wait = true; exit = true; status = none; exit_sema = 1 }

abbrev woken_parent : Family
woken_parent = child_exits true 7 one_awaited

woken_parent-Reachable : Reachable woken_parent
unfolding process_wait get_child_process add_child_process find_child change_child
woken_parent-Reachable = steps one_awaited-Reachable (exits 7 first_child one_awaited refl refl)

abbrev unset : Option ℕ
unset = none

process_wait-once_example :
    ((process_wait 7 (wait_resume 7 first_exited woken_parent).1).0 ≡ error) × (unset ≡ none)
unfolding process_wait get_child_process child_exits add_child_process find_child wait_resume
process_wait-once_example =
    process_wait-once woken_parent 7 unset (wait_resume 7 first_exited woken_parent).1
      woken_parent-Reachable (woken woken_parent 7 unset first_exited refl refl refl refl)
