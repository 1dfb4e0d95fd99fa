-- ===== src/Project2/Lookup.antt =====
-- What `file_check` of Project 2/userprog/syscall.c finds, against `process_file_get`.
use comp_sys_pint_os.Base.{
  ℕ, ◌≡◌, refl, Bool, true, false, ◌==◌, not, List, [], ◌∷◌, Option, none, some, Outcome, returns,
  stuck, Bool-cases, inl, inr,
}
use comp_sys_pint_os.Project2.{ProcessFile, file_check, process_file_get}

-- The first, the third, the fifth element and so on.
unfoldable pub every_second : List ProcessFile → List ProcessFile
every_second [] = []
every_second (x ∷ []) = x ∷ []
every_second (x ∷ skipped ∷ xs) = x ∷ every_second xs

unfoldable pub is_even : List ProcessFile → Bool
is_even [] = true
is_even (x ∷ xs) = not (is_even xs)

-- A file that is found is returned; otherwise the end is met where the length is even, and missed
-- where it is odd.
abbrev pub looked_up : Option ℕ → Bool → Outcome (Option ℕ)
looked_up (some f) even = returns (some f)
looked_up none true = returns none
looked_up none false = stuck

-- For every descriptor and every list, `file_check` finds what `process_file_get` finds among the
-- first, third, fifth element and so on. If none of those matches, it returns NULL where the number
-- of elements is even, and is undefined where it is odd.
pub file_check-every_second :
    (fd : ℕ) (pfs : List ProcessFile)
    → file_check fd pfs ≡ looked_up (process_file_get fd (every_second pfs)) (is_even pfs)
unfolding file_check process_file_get every_second is_even
file_check-every_second fd [] = refl
file_check-every_second fd (pf ∷ []) = elim (Bool-cases (fd == pf.fd)) [
  | inl same ↦ rw same refl
  | inr other ↦ rw other refl
]
file_check-every_second fd (pf ∷ skipped ∷ pfs) = elim (Bool-cases (fd == pf.fd)) [
  | inl same ↦ rw same refl
  | inr other ↦ rw (other, not_not (is_even pfs)) (file_check-every_second fd pfs)
]
  where
    not_not : (b : Bool) → not (not b) ≡ b
    not_not true = refl
    not_not false = refl
