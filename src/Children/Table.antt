-- ===== src/Children/Table.antt =====
-- The list of children of Project 3/userprog/syscall.c: look-up, change and removal.
use comp_sys_pint_os.Base.{
  ℕ, ◌≡◌, refl, sym, ap, ◌∙◌, subst, true, false, ◌==◌, ==_iff, if_true, if_false, List, [], ◌∷◌,
  ◌++◌, All, none, some, arith, Bool-cases, ◌⊎◌, inl, inr,
}
use comp_sys_pint_os.Children.{Child, find_child, change_child, remove_child}

-- No identifier stands twice in the list.
abbrev pub Unique : List Child → Type 0
Unique [] = Unit
Unique (c ∷ cs) = (find_child c.pid cs ≡ none) × Unique cs

pub find_child-head :
    (q : ℕ) (c : Child) (cs : List Child) → (q == c.pid) ≡ true → find_child q (c ∷ cs) ≡ some c
unfolding find_child
find_child-head q c cs e = if_true _ _ _ e

pub find_child-tail :
    (q : ℕ) (c : Child) (cs : List Child)
    → (q == c.pid) ≡ false
    → find_child q (c ∷ cs) ≡ find_child q cs
unfolding find_child
find_child-tail q c cs e = if_false _ _ _ e

pub some_inj : (c d : Child) → some c ≡ some d → c ≡ d
some_inj c d e = cc

pub find_child-pid :
    (q : ℕ) (c : Child) (cs : List Child) → find_child q cs ≡ some c → (q == c.pid) ≡ true
unfolding find_child
find_child-pid q c [] e = cc
find_child-pid q c (x ∷ xs) e = elim (Bool-cases (q == x.pid)) [
  | inl same ↦
      subst (λ (d : Child). (q == d.pid) ≡ true) (some_inj x c (sym (if_true _ _ _ same) ∙ e)) same
  | inr other ↦ find_child-pid q c xs (sym (if_false _ _ _ other) ∙ e)
]

pub All-find_child :
    (P : Child → Type 0) (q : ℕ) (cs : List Child) (c : Child)
    → All P cs
    → find_child q cs ≡ some c
    → P c
All-find_child P q [] c h e = unfold find_child in cc
All-find_child P q (d ∷ ds) c h e = elim (Bool-cases (q == d.pid)) [
  | inl same ↦ subst P (some_inj d c (sym (find_child-head q d ds same) ∙ e)) h.0
  | inr other ↦ All-find_child P q ds c h.1 (sym (find_child-tail q d ds other) ∙ e)
]

-- A child is changed; its identifier stays.
module _ (f : Child → Child) (same_pid : (c : Child) → (f c).pid ≡ c.pid) where
  pub find_child-change_none :
      (q pid : ℕ) (cs : List Child)
      → find_child q cs ≡ none
      → find_child q (change_child pid f cs) ≡ none
  unfolding find_child change_child
  find_child-change_none q pid [] e = refl
  find_child-change_none q pid (c ∷ cs) e = elim (Bool-cases (q == c.pid)) [
    | inl same ↦ cc (find_child-head q c cs same)
    | inr other ↦
        let e' = sym (find_child-tail q c cs other) ∙ e in
        elim (Bool-cases (pid == c.pid)) [
          | inl here ↦ rw (here, same_pid c, other) e'
          | inr there ↦ rw (there, other) (find_child-change_none q pid cs e')
        ]
  ]

  pub Unique-change_child : (pid : ℕ) (cs : List Child) → Unique cs → Unique (change_child pid f cs)
  unfolding change_child
  Unique-change_child pid [] h = tt
  Unique-change_child pid (c ∷ cs) h = elim (Bool-cases (pid == c.pid)) [
    | inl here ↦ rw here (subst (λ n. find_child n cs ≡ none) (sym (same_pid c)) h.0, h.1)
    | inr there ↦ rw there (find_child-change_none c.pid pid cs h.0, Unique-change_child pid cs h.1)
  ]

  pub All-change_child :
      (P : Child → Type 0) (pid : ℕ) (cs : List Child)
      → All P cs
      → ((c : Child) → find_child pid cs ≡ some c → P c → P (f c))
      → All P (change_child pid f cs)
  unfolding change_child
  All-change_child P pid [] h k = tt
  All-change_child P pid (c ∷ cs) h k = elim (Bool-cases (pid == c.pid)) [
    | inl here ↦ rw here (k c (find_child-head pid c cs here) h.0, h.1)
    | inr there ↦
        rw there
          (h.0, All-change_child P pid cs h.1 (λ d e. k d (find_child-tail pid c cs there ∙ e)))
  ]

  pub find_child-change_self :
      (pid : ℕ) (cs : List Child) (c : Child)
      → find_child pid cs ≡ some c
      → find_child pid (change_child pid f cs) ≡ some (f c)
  unfolding find_child change_child
  find_child-change_self pid [] c e = cc
  find_child-change_self pid (x ∷ xs) c e = elim (Bool-cases (pid == x.pid)) [
    | inl here ↦ rw here (
        find_child-head pid (f x) xs (subst (λ n. (pid == n) ≡ true) (sym (same_pid x)) here)
        ∙ ap (λ y. some (f y)) (some_inj x c (sym (find_child-head pid x xs here) ∙ e)))
    | inr there ↦ rw there (
        find_child-tail pid x _ there
        ∙ find_child-change_self pid xs c (sym (find_child-tail pid x xs there) ∙ e))
  ]

  -- A child that is found is still found, as it was or changed.
  pub find_child-change :
      (q pid : ℕ) (cs : List Child) (c : Child)
      → find_child q cs ≡ some c
      → (d : Child) × (find_child q (change_child pid f cs) ≡ some d) × ((d ≡ c) ⊎ (d ≡ f c))
  unfolding find_child change_child
  find_child-change q pid [] c e = cc
  find_child-change q pid (x ∷ xs) c e = elim (Bool-cases (q == x.pid)) [
    | inl same ↦
        let x≡c : some x ≡ some c = sym (find_child-head q x xs same) ∙ e in
        elim (Bool-cases (pid == x.pid)) [
          | inl here ↦ rw here (
            f x,
            find_child-head q (f x) xs (subst (λ n. (q == n) ≡ true) (sym (same_pid x)) same),
            inr (ap f (some_inj x c x≡c)),
          )
          | inr there ↦ rw there (x, find_child-head q x _ same, inl (some_inj x c x≡c))
        ]
    | inr other ↦
        let e' = sym (find_child-tail q x xs other) ∙ e in
        elim (Bool-cases (pid == x.pid)) [
          | inl here ↦ rw here (
            c,
            find_child-tail q (f x) xs (subst (λ n. (q == n) ≡ false) (sym (same_pid x)) other)
                ∙ e',
            inl refl,
          )
          | inr there ↦ rw (there, other) (find_child-change q pid xs c e')
        ]
  ]

pub find_child-remove_none :
    (q pid : ℕ) (cs : List Child)
    → find_child q cs ≡ none
    → find_child q (remove_child pid cs) ≡ none
unfolding remove_child
find_child-remove_none q pid [] e = e
find_child-remove_none q pid (c ∷ cs) e = elim (Bool-cases (q == c.pid)) [
  | inl same ↦ cc (find_child-head q c cs same)
  | inr other ↦
      let e' = sym (find_child-tail q c cs other) ∙ e in
      elim (Bool-cases (pid == c.pid)) [
        | inl here ↦ rw here e'
        | inr there ↦ rw there (find_child-tail q c _ other ∙ find_child-remove_none q pid cs e')
      ]
]

pub Unique-remove_child : (pid : ℕ) (cs : List Child) → Unique cs → Unique (remove_child pid cs)
unfolding remove_child
Unique-remove_child pid [] h = tt
Unique-remove_child pid (c ∷ cs) h = elim (Bool-cases (pid == c.pid)) [
  | inl here ↦ rw here h.1
  | inr there ↦ rw there (find_child-remove_none c.pid pid cs h.0, Unique-remove_child pid cs h.1)
]

pub All-remove_child :
    (P : Child → Type 0) (pid : ℕ) (cs : List Child) → All P cs → All P (remove_child pid cs)
unfolding remove_child
All-remove_child P pid [] h = tt
All-remove_child P pid (c ∷ cs) h = elim (Bool-cases (pid == c.pid)) [
  | inl here ↦ rw here h.1
  | inr there ↦ rw there (h.0, All-remove_child P pid cs h.1)
]

-- A child that was removed is gone.
pub find_child-remove_child :
    (pid : ℕ) (cs : List Child) → Unique cs → find_child pid (remove_child pid cs) ≡ none
unfolding remove_child
find_child-remove_child pid [] h = unfold find_child in refl
find_child-remove_child pid (c ∷ cs) h = elim (Bool-cases (pid == c.pid)) [
  | inl here ↦ rw here (subst (λ n. find_child n cs ≡ none) (sym ((==_iff pid c.pid).0 here)) h.0)
  | inr there ↦ rw there (find_child-tail pid c _ there ∙ find_child-remove_child pid cs h.1)
]

pub find_child-push :
    (q : ℕ) (cs : List Child) (c : Child)
    → find_child q cs ≡ none
    → (q == c.pid) ≡ false
    → find_child q (cs ++ c ∷ []) ≡ none
find_child-push q [] c e ne = find_child-tail q c [] ne ∙ unfold find_child in refl
find_child-push q (x ∷ xs) c e ne = elim (Bool-cases (q == x.pid)) [
  | inl same ↦ cc (find_child-head q x xs same)
  | inr other ↦
      find_child-tail q x _ other
      ∙ find_child-push q xs c (sym (find_child-tail q x xs other) ∙ e) ne
]

pub Unique-push :
    (cs : List Child) (c : Child) → find_child c.pid cs ≡ none → Unique cs → Unique (cs ++ c ∷ [])
Unique-push [] c e h = (unfold find_child in refl, tt)
Unique-push (x ∷ xs) c e h = elim (Bool-cases (c.pid == x.pid)) [
  | inl same ↦ cc (find_child-head c.pid x xs same)
  | inr other ↦ (
    find_child-push x.pid xs c h.0 (ground arith),
    Unique-push xs c (sym (find_child-tail c.pid x xs other) ∙ e) h.1,
  )
]
