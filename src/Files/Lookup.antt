-- ===== src/Files/Lookup.antt =====
-- Lists of descriptors with distinct numbers (Project 3/userprog/syscall.c).
use mathlib.Core.List.{reverse, reverse-cons}
use comp_sys_pint_os.Base.{
  ℕ, ◌≡◌, refl, ◌∙◌, ap, true, false, ◌==◌, if◌then◌else◌, List, [], ◌∷◌, ◌++◌, Option, none, some,
  All, All-append, arith, Bool-cases, inl, inr,
}
use comp_sys_pint_os.Files.{Descriptor, find_fd, remove_fd}

-- No descriptor of the list has the number.
abbrev pub Lacks : ℕ → List Descriptor → Type 0
Lacks fd = All (λ d. (d.fd == fd) ≡ false)

abbrev pub IsDistinct : List Descriptor → Type 0
IsDistinct [] = Unit
IsDistinct (d ∷ ds) = Lacks d.fd ds × IsDistinct ds

abbrev or_else : Option ℕ → Option ℕ → Option ℕ
or_else none o = o
or_else (some f) o = some f

find_fd-append :
    (fd : ℕ) (xs ys : List Descriptor)
    → find_fd fd (xs ++ ys) ≡ or_else (find_fd fd xs) (find_fd fd ys)
unfolding find_fd
find_fd-append fd [] ys = refl
find_fd-append fd (x ∷ xs) ys = ground (arith, find_fd-append fd xs ys)

pub find_fd-Lacks : (fd : ℕ) (xs : List Descriptor) → Lacks fd xs → find_fd fd xs ≡ none
unfolding find_fd
find_fd-Lacks fd [] h = refl
find_fd-Lacks fd (x ∷ xs) h = ground (arith, find_fd-Lacks fd xs h.1)

Lacks-transport : (a b : ℕ) (xs : List Descriptor) → (a == b) ≡ true → Lacks a xs → Lacks b xs
Lacks-transport a b [] e h = tt
Lacks-transport a b (x ∷ xs) e h = (ground arith, Lacks-transport a b xs e h.1)

-- With distinct numbers, a search from the back finds what one from the front finds.
pub find_fd-reverse :
    (fd : ℕ) (xs : List Descriptor) → IsDistinct xs → find_fd fd (reverse xs) ≡ find_fd fd xs
unfolding find_fd
find_fd-reverse fd [] h = refl
find_fd-reverse fd (x ∷ xs) h =
    ap (find_fd fd) (reverse-cons x xs)
    ∙ find_fd-append fd (reverse xs) (x ∷ [])
    ∙ ground (arith, find_fd-reverse fd xs h.1, find_fd-Lacks fd xs, Lacks-transport x.fd fd xs)

pub find_fd-push :
    (fd : ℕ) (xs : List Descriptor) (d : Descriptor)
    → Lacks d.fd xs
    → find_fd fd (xs ++ d ∷ []) ≡ (if d.fd == fd then some d.file else find_fd fd xs)
unfolding find_fd
find_fd-push fd [] d h = refl
find_fd-push fd (x ∷ xs) d h = ground (arith, find_fd-push fd xs d h.1)

pub IsDistinct-push :
    (xs : List Descriptor) (d : Descriptor)
    → IsDistinct xs
    → Lacks d.fd xs
    → IsDistinct (xs ++ d ∷ [])
IsDistinct-push [] d h l = (tt, tt)
IsDistinct-push (x ∷ xs) d h l =
    (All-append _ xs (d ∷ []) h.0 (ground (arith, l.0), tt), IsDistinct-push xs d h.1 l.1)

pub All-remove_fd :
    (P : Descriptor → Type 0) (fd : ℕ) (xs : List Descriptor) → All P xs → All P (remove_fd fd xs)
unfolding remove_fd
All-remove_fd P fd [] h = h
All-remove_fd P fd (x ∷ xs) h = elim (Bool-cases (x.fd == fd)) [
  | inl same ↦ rw same h.1
  | inr other ↦ rw other (h.0, All-remove_fd P fd xs h.1)
]

pub IsDistinct-remove_fd :
    (fd : ℕ) (xs : List Descriptor) → IsDistinct xs → IsDistinct (remove_fd fd xs)
unfolding remove_fd
IsDistinct-remove_fd fd [] h = h
IsDistinct-remove_fd fd (x ∷ xs) h = elim (Bool-cases (x.fd == fd)) [
  | inl same ↦ rw same h.1
  | inr other ↦ rw other (All-remove_fd _ fd xs h.0, IsDistinct-remove_fd fd xs h.1)
]

pub find_fd-remove_fd :
    (fd key : ℕ) (xs : List Descriptor)
    → IsDistinct xs
    → find_fd key (remove_fd fd xs) ≡ (if fd == key then none else find_fd key xs)
unfolding find_fd remove_fd
find_fd-remove_fd fd key [] h = ground arith
find_fd-remove_fd fd key (x ∷ xs) h =
    ground
      (arith, find_fd-remove_fd fd key xs h.1, find_fd-Lacks key xs, Lacks-transport x.fd key xs)
