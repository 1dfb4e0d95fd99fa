-- ===== src/Vm/FaultSafety.antt =====
-- Which faults the handler of Project 3/userprog/exception.c may resume from.
use comp_sys_pint_os.Base.{
  ℕ, ◌+◌, ◌-◌, ◌%◌, ◌^◌, ◌≤◌, ◌<◌, ◌≡◌, refl, sym, ◌∙◌, Bool, true, false, ltb, leb, ◌&&◌, Option,
  none, some, ◌⊎◌, inl, inr, Outcome, returns, panic, stuck, ◌>>=◌, arith, Bool-cases, if_true,
  if_false,
}
use comp_sys_pint_os.Platform.{Platform, IsPlatform, pg_round_down, u32}
use comp_sys_pint_os.Vm.{Kernel, Vm}
use comp_sys_pint_os.Vm.Page.{get_spte, stack_growth, grow_at, max_stack_size}
use comp_sys_pint_os.Vm.Fault.{
  FaultFrame, resumes, not_present, kill, fault_entry, end_fault, page_fault, user_vaddr_bottom,
  stack_h,
}

module _ {W : Type 0} (k : Kernel W) (pf : Platform) (lawful : IsPlatform pf) (fuel : ℕ) where
  stack_growth_limit :
      (in_interrupt : Bool) (va : ℕ) (s t : Vm W)
      → va < pf.phys_base
      → stack_growth k pf fuel in_interrupt va s ≡ returns (true, t)
      → pf.phys_base ≤ pg_round_down va + max_stack_size
  unfolding stack_growth
  stack_growth_limit in_interrupt va s t below h =
      elim (Bool-cases (ltb max_stack_size ((pf.phys_base + 2 ^ 32 - pg_round_down va) % 2 ^ 32))) [
        | inl beyond ↦ cc (if_true _ (returns (false, s)) grown beyond)
        | inr within ↦ ground (arith, lawful.base_fits)
      ]
    where
      grown : Outcome (Bool × Vm W)
      grown = grow_at k fuel in_interrupt va (k.malloc s.world) s

  -- The page may be brought in: it has an entry, or the stack may grow to it.
  abbrev pub MayLoad : FaultFrame → Vm W → Type 0
  MayLoad f s =
      ((p : ℕ) × (get_spte k f.fault_addr s ≡ some p))
      ⊎ ((u32 (f.esp + 2 ^ 32 - stack_h) ≤ f.fault_addr)
          × (pf.phys_base ≤ pg_round_down f.fault_addr + max_stack_size))

  fault_entry-MayLoad :
      (f : FaultFrame) (o : Option ℕ) (s t : Vm W)
      → get_spte k f.fault_addr s ≡ o
      → f.fault_addr < pf.phys_base
      → fault_entry k pf fuel f o s ≡ returns (true, t)
      → MayLoad f s
  unfolding fault_entry
  fault_entry-MayLoad f (some p) s t e below h = inl (p, e)
  fault_entry-MayLoad f none s t e below h =
      elim (Bool-cases (leb (u32 (f.esp + 2 ^ 32 - stack_h)) f.fault_addr)) [
        | inl near ↦ inr (
          ground arith,
          stack_growth_limit false f.fault_addr s t below (sym (if_true _ _ _ near) ∙ h),
        )
        | inr far ↦
            cc (if_false _ (stack_growth k pf fuel false f.fault_addr s) (returns (false, s)) far)
      ]

  end_fault_inv :
      (f : FaultFrame) (m : Outcome (Bool × Vm W)) (t : Vm W)
      → (m >>= end_fault k pf fuel f) ≡ returns (resumes, t)
      → m ≡ returns (true, t)
  unfolding end_fault
  end_fault_inv f (returns (true, u)) t h = ground arith
  end_fault_inv f (returns (false, u)) t h = unfold kill in ground arith
  end_fault_inv f panic t h = cc
  end_fault_inv f stuck t h = cc

  -- A fault that the handler resumes from was on a page that is not present, at an address above
  -- USER_VADDR_BOTTOM and below PHYS_BASE; and either the page table has an entry for its page, or
  -- the address is at most STACK_H bytes below the stack pointer, as a 32-bit word, and its page at
  -- most MAX_STACK_SIZE below PHYS_BASE.
  pub page_fault_resumes :
      (f : FaultFrame) (s t : Vm W)
      → page_fault k pf fuel f s ≡ returns (resumes, t)
      → (f.error_code % 2 ≡ 0)
        × (user_vaddr_bottom < f.fault_addr)
        × (f.fault_addr < pf.phys_base)
        × MayLoad f s
  unfolding page_fault
  page_fault_resumes f s t h = elim (Bool-cases admitted) [
    | inl in_user ↦ (
      ground arith,
      ground arith,
      below in_user,
      fault_entry-MayLoad f (get_spte k f.fault_addr s) s t refl (below in_user)
          (sym (if_true _ _ _ in_user) ∙ end_fault_inv f _ t h),
    )
    | inr refused ↦ cc (sym (if_false _ _ _ refused) ∙ end_fault_inv f _ t h)
  ]
    where
      admitted : Bool
      admitted =
          not_present f && ltb user_vaddr_bottom f.fault_addr && pf.is_user_vaddr f.fault_addr

      below : admitted ≡ true → f.fault_addr < pf.phys_base
      below e = ground (arith, lawful.user f.fault_addr)
