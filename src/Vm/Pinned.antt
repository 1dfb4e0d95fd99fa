-- ===== src/Vm/Pinned.antt =====
-- The eviction of Project 3/vm/frame.c where every page is pinned.
use comp_sys_pint_os.Base.{
  ℕ, zero, suc, ◌≡◌, refl, true, List, [], ◌∷◌, All, Option, Outcome, sym, subst,
}
use comp_sys_pint_os.Vm.{FrameEntry, Flags, Kernel, Vm}
use comp_sys_pint_os.Vm.Frame.{evict_scan}
use comp_sys_pint_os.Vm.Evict.{ClearsAccessed, pinned_in}

module _ {W : Type 0} (k : Kernel W) (lawful : ClearsAccessed k) (flags : Flags)
    (unfinished : Outcome (Option ℕ × Vm W)) (s : Vm W) where
  abbrev AllPinned : List FrameEntry → Type 0
  AllPinned = All (λ x. pinned_in k lawful flags s x ≡ true)

  scan_unfinished :
      (fuel : ℕ) (x : FrameEntry) (xs : List FrameEntry) (e : FrameEntry) (es : List FrameEntry)
      → AllPinned (x ∷ xs)
      → AllPinned (e ∷ es)
      → evict_scan k unfinished fuel flags (x ∷ xs) (e ∷ es) s ≡ unfinished
  unfolding evict_scan
  scan_unfinished zero x xs e es all here = refl
  scan_unfinished (suc fuel) x xs e [] all here = rw here.0 (scan_unfinished fuel x xs x xs all all)
  scan_unfinished (suc fuel) x xs e (y ∷ es) all here =
      rw here.0 (scan_unfinished fuel x xs y es all here.1)

  -- Where the frame table is not empty and every entry of it is pinned, the scan comes to no end, with
  -- however much fuel: it neither returns nor panics, nor is it undefined, whatever outcome stands for
  -- the fuel being used up.
  pub evict_scan_without_victim :
      (fuel : ℕ) (x : FrameEntry) (xs : List FrameEntry)
      → s.frame_tbl_list ≡ x ∷ xs
      → AllPinned s.frame_tbl_list
      → evict_scan k unfinished fuel flags s.frame_tbl_list s.frame_tbl_list s ≡ unfinished
  evict_scan_without_victim fuel x xs e all =
      subst (λ l. evict_scan k unfinished fuel flags l l s ≡ unfinished) (sym e)
        (scan_unfinished fuel x xs x xs (subst AllPinned e all) (subst AllPinned e all))
