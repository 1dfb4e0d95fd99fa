-- ===== src/Pointers/Ranges.antt =====
-- What the checks and the unpinning of Project 3/userprog/syscall.c do to a whole range.
use comp_sys_pint_os.Base.{
  ℕ, zero, suc, ◌+◌, ◌^◌, ◌≤◌, ◌<◌, ◌≡◌, refl, sym, ap, ◌∙◌, subst, Bool, false, ◌==◌, ==_iff, ltb,
  if_true, if_false, not, ◌||◌, Option, none, some, Outcome, returns, panic, stuck, ◌>>=◌, arith,
  Bool-cases, inl, inr,
}
use comp_sys_pint_os.Platform.{Platform, IsPlatform, u32, pg_round_down}
use comp_sys_pint_os.Vm.{Spte, Kernel, Vm}
use comp_sys_pint_os.Vm.Page.{get_spte}
use comp_sys_pint_os.Vm.Fault.{user_vaddr_bottom}
use comp_sys_pint_os.Pointers.{
  Check, exited, passed, then_check, check_entry, check_loaded, check_valid_ptr, check_writable,
  check_valid_buffer, unpin_entry, unpin_ptr, unpin_buffer,
}

-- A chain of checks that passed has a first part that passed.
then_check-passed :
    {A B W : Type 0} (m : Outcome (Check A × W)) (f : A → W → Outcome (Check B × W)) (b : B) (t : W)
    → (m >>= λ r. then_check r f) ≡ returns (passed b, t)
    → (a : A) × (s : W) × (m ≡ returns (passed a, s)) × (f a s ≡ returns (passed b, t))
then_check-passed (returns (passed a, s)) f b t h = (a, s, refl, h)
then_check-passed (returns (exited, s)) f b t h = cc
then_check-passed panic f b t h = cc
then_check-passed stuck f b t h = cc

module _ {W : Type 0} (k : Kernel W) (pf : Platform) (lawful : IsPlatform pf) (fuel : ℕ) where
  check_valid_ptr-passed :
      (vaddr esp : ℕ) (s t : Vm W) (o : Option ℕ)
      → check_valid_ptr k pf fuel vaddr esp s ≡ returns (passed o, t)
      → (user_vaddr_bottom ≤ vaddr) × (vaddr < pf.phys_base)
  unfolding check_valid_ptr
  check_valid_ptr-passed vaddr esp s t o h =
      elim (Bool-cases (not (pf.is_user_vaddr vaddr) || ltb vaddr user_vaddr_bottom)) [
        | inl bad ↦ cc (sym (if_true _ (returns (exited, s)) checked bad) ∙ h)
        | inr good ↦ (ground (arith, good), ground (arith, good, lawful.user vaddr))
      ]
    where
      checked : Outcome (Check (Option ℕ) × Vm W)
      checked = check_entry k pf fuel (get_spte k vaddr s) vaddr esp s >>= λ r.
          returns (check_loaded k pf fuel (get_spte k vaddr s) r)

  -- If `check_valid_buffer` passes a buffer that is not empty, every byte of it lies in user memory:
  -- the buffer starts at USER_VADDR_BOTTOM or above and ends at PHYS_BASE or below.
  pub check_valid_buffer-passed :
      (size buffer esp : ℕ) (to_write : Bool) (s t : Vm W)
      → check_valid_buffer k pf fuel size buffer esp to_write s ≡ returns (passed tt, t)
      → 0 < size
      → (user_vaddr_bottom ≤ buffer) × (buffer + size ≤ pf.phys_base)
  unfolding check_valid_buffer
  check_valid_buffer-passed zero buffer esp to_write s t h some_byte = absurd (omega arith)
  check_valid_buffer-passed (suc zero) buffer esp to_write s t h some_byte =
      let (o, u, first, rest) =
        then_check-passed (check_valid_ptr k pf fuel buffer esp s) _ tt t h in
      let r = check_valid_ptr-passed buffer esp s u o first in (r.0, omega (arith, r.1))
  check_valid_buffer-passed (suc (suc left)) buffer esp to_write s t h some_byte =
      let (o, u, first, more) =
        then_check-passed (check_valid_ptr k pf fuel buffer esp s) _ tt t h in
      let r = check_valid_ptr-passed buffer esp s u o first in
      let (a, v, second, rest) =
        then_check-passed (returns (check_writable k pf fuel o to_write u)) _ tt t more in
      let q =
        check_valid_buffer-passed (suc left) (u32 (buffer + 1)) esp to_write v t rest
          (omega arith) in
      (r.0, omega (arith, r.1, q.1, lawful.base_fits))

  unpin_ptr-spt : (vaddr : ℕ) (s : Vm W) → (unpin_ptr k pf fuel vaddr s).spt ≡ s.spt
  unfolding unpin_ptr
  unpin_ptr-spt vaddr s = go (get_spte k vaddr s)
    where
      go : (o : Option ℕ) → (unpin_entry k pf fuel o s).spt ≡ s.spt
      go none = refl
      go (some p) = refl

  unpin_ptr-keeps :
      (vaddr p : ℕ) (s : Vm W)
      → (s.spte_at p).pinned ≡ false
      → ((unpin_ptr k pf fuel vaddr s).spte_at p).pinned ≡ false
  unfolding unpin_ptr
  unpin_ptr-keeps vaddr p s h = go (get_spte k vaddr s)
    where
      go : (o : Option ℕ) → ((unpin_entry k pf fuel o s).spte_at p).pinned ≡ false
      go none = h
      go (some q) = elim (Bool-cases (q == p)) [
        | inl same ↦ ap (λ (e : Spte). e.pinned) (if_true (q == p) _ _ same)
        | inr other ↦ ap (λ (e : Spte). e.pinned) (if_false (q == p) _ _ other) ∙ h
      ]

  unpin_ptr-unpins :
      (vaddr p : ℕ) (s : Vm W)
      → get_spte k vaddr s ≡ some p
      → ((unpin_ptr k pf fuel vaddr s).spte_at p).pinned ≡ false
  unfolding unpin_ptr
  unpin_ptr-unpins vaddr p s e =
      subst (λ o. ((unpin_entry k pf fuel o s).spte_at p).pinned ≡ false) (sym e)
        (ap (λ (x : Spte). x.pinned) (if_true (p == p) _ _ ((==_iff p p).1 refl)))

  unpin_buffer-keeps :
      (size buffer p : ℕ) (s : Vm W)
      → (s.spte_at p).pinned ≡ false
      → ((unpin_buffer k pf fuel size buffer s).spte_at p).pinned ≡ false
  unfolding unpin_buffer
  unpin_buffer-keeps zero buffer p s h = h
  unpin_buffer-keeps (suc left) buffer p s h =
      unpin_buffer-keeps left (u32 (buffer + 1)) p _ (unpin_ptr-keeps buffer p s h)

  -- After `unpin_buffer` of a buffer that does not wrap around, the page of every byte of it that has
  -- an entry in the page table is not pinned.
  pub unpin_buffer-unpins :
      (size buffer i p : ℕ) (s : Vm W)
      → buffer + size < 2 ^ 32
      → i < size
      → get_spte k (buffer + i) s ≡ some p
      → ((unpin_buffer k pf fuel size buffer s).spte_at p).pinned ≡ false
  unfolding unpin_buffer
  unpin_buffer-unpins zero buffer i p s fits lt e = absurd (omega arith)
  unpin_buffer-unpins (suc left) buffer zero p s fits lt e =
      unpin_buffer-keeps left (u32 (buffer + 1)) p _
        (unpin_ptr-unpins buffer p s (ap (λ a. get_spte k a s) (omega arith) ∙ e))
  unpin_buffer-unpins (suc left) buffer (suc i) p s fits lt e =
      unpin_buffer-unpins left (u32 (buffer + 1)) i p (unpin_ptr k pf fuel buffer s) (omega arith)
        (omega arith)
        (unfold get_spte in
          ap (λ f. f (pg_round_down (u32 (buffer + 1) + i))) (unpin_ptr-spt buffer s)
          ∙ ap (λ a. s.spt (pg_round_down a)) next
          ∙ e)
    where
      next : u32 (buffer + 1) + i ≡ buffer + suc i
      next = omega arith
