-- ===== src/Pointers.antt =====
-- Project 3/userprog/syscall.c: the checks of what a user program passes, and the unpinning of its
-- pages after a call. `exit` does not return: a check that calls it ends as `exited`.
-- User memory is read by `read_byte` and `read_word`.
pub mod Ranges
use comp_sys_pint_os.Base.{
  ℕ, zero, suc, ◌+◌, ◌-◌, ◌*◌, ◌%◌, ◌^◌, Bool, true, false, ◌==◌, ltb, leb, if◌then◌else◌, not,
  ◌||◌, ◌&&◌, update, List, [], ◌∷◌, ◌++◌, Option, none, some, Outcome, returns, stuck, ◌>>=◌,
}
use comp_sys_pint_os.Platform.{Platform, u32}
use comp_sys_pint_os.Vm.{Spte, Kernel, Vm}
use comp_sys_pint_os.Vm.Page.{put, get_spte, load_page, stack_growth}
use comp_sys_pint_os.Vm.Fault.{user_vaddr_bottom, stack_h}

-- The process has exited, or the check passed, with a result.
pub data Check (A : Type 0) : Type 0 where
  exited : Check A
  passed : A → Check A

-- Go on after a check that passed.
abbrev pub then_check :
    {A B W : Type 0} → Check A × W → (A → W → Outcome (Check B × W)) → Outcome (Check B × W)
then_check (exited, s) f = returns (exited, s)
then_check (passed a, s) f = f a s

module _ {W : Type 0} (k : Kernel W) (pf : Platform) (fuel : ℕ) where
  unfoldable pub check_write_permission : ℕ → Vm W → Check (Unit {0}) × Vm W
  check_write_permission p s = if (s.spte_at p).writable then (passed tt, s) else (exited, s)

  -- The end of `check_valid_ptr`: was the page loaded?
  abbrev pub check_loaded : Option ℕ → Bool × Vm W → Check (Option ℕ) × Vm W
  check_loaded o (true, s) = (passed o, s)
  check_loaded o (false, s) = (exited, s)

  unfoldable pub check_entry : Option ℕ → ℕ → ℕ → Vm W → Outcome (Bool × Vm W)
  check_entry (some p) vaddr esp s =
      load_page k fuel p s >>= λ r. returns (((r.1).spte_at p).is_loaded, r.1)
  check_entry none vaddr esp s =
      if leb (u32 (esp + 2 ^ 32 - stack_h)) vaddr
      then stack_growth k pf fuel false vaddr s
      else returns (false, s)

  unfoldable pub check_valid_ptr : ℕ → ℕ → Vm W → Outcome (Check (Option ℕ) × Vm W)
  unfolding check_entry
  check_valid_ptr vaddr esp s =
      let entry = get_spte k vaddr s in
      if not (pf.is_user_vaddr vaddr) || ltb vaddr user_vaddr_bottom
      then returns (exited, s)
      else (check_entry entry vaddr esp s >>= λ r. returns (check_loaded entry r))

  -- A page that is to be written must be writable; a page of the stack has no entry to look at.
  abbrev pub check_writable : Option ℕ → Bool → Vm W → Check (Unit {0}) × Vm W
  check_writable none to_write s = (passed tt, s)
  check_writable (some p) to_write s =
      if to_write && not (s.spte_at p).writable then (exited, s) else (passed tt, s)

  -- The loop of `check_valid_buffer`, with `left` bytes left.
  unfoldable pub check_valid_buffer : ℕ → ℕ → ℕ → Bool → Vm W → Outcome (Check (Unit {0}) × Vm W)
  unfolding check_valid_ptr
  check_valid_buffer zero buffer esp to_write s = returns (passed tt, s)
  check_valid_buffer (suc left) buffer esp to_write s = check_valid_ptr buffer esp s >>= λ r.
      then_check r λ spte t.
        then_check (check_writable spte to_write t)
          λ u v. check_valid_buffer left (u32 (buffer + 1)) esp to_write v

  -- `read_byte w a` is the byte that the program has at `a`; `string_fuel` bounds the string.
  unfoldable pub check_valid_string :
      (W → ℕ → ℕ) → ℕ → ℕ → ℕ → Vm W → Outcome (Check (Unit {0}) × Vm W)
  unfolding check_valid_ptr
  check_valid_string read_byte zero str esp s = stuck
  check_valid_string read_byte (suc string_fuel) str esp s = check_valid_ptr str esp s >>= λ r.
      then_check r λ spte t.
        let rest = check_valid_string read_byte string_fuel (u32 (str + 1)) esp t in
        if read_byte t.world str == 0 then returns (passed tt, t) else rest

  -- The loop of `get_arg` from the argument `i` on, with `left` to fetch; `args` are those before.
  unfoldable pub get_arg : (W → ℕ → ℕ) → ℕ → ℕ → ℕ → List ℕ → Vm W → Outcome (Check (List ℕ) × Vm W)
  unfolding check_valid_ptr
  get_arg read_word zero i esp args s = returns (passed args, s)
  get_arg read_word (suc left) i esp args s =
      let pointer = u32 (esp + 4 * (i + 1)) in
      check_valid_ptr pointer esp s >>= λ r.
      then_check r
        λ spte t. get_arg read_word left (i + 1) esp (args ++ read_word t.world pointer ∷ []) t

  abbrev pub unpin_entry : Option ℕ → Vm W → Vm W
  unpin_entry none s = s
  unpin_entry (some p) s = put k p (record (s.spte_at p) { pinned = false }) s

  unfoldable pub unpin_ptr : ℕ → Vm W → Vm W
  unpin_ptr vaddr s = unpin_entry (get_spte k vaddr s) s

  unfoldable pub unpin_buffer : ℕ → ℕ → Vm W → Vm W
  unfolding unpin_ptr
  unpin_buffer zero buffer s = s
  unpin_buffer (suc left) buffer s = unpin_buffer left (u32 (buffer + 1)) (unpin_ptr buffer s)

  unfoldable pub unpin_string : (W → ℕ → ℕ) → ℕ → ℕ → Vm W → Outcome (Vm W)
  unfolding unpin_ptr
  unpin_string read_byte zero str s = stuck
  unpin_string read_byte (suc string_fuel) str s =
      let t = unpin_ptr str s in
      let rest = unpin_string read_byte string_fuel (u32 (str + 1)) t in
      if read_byte t.world str == 0 then returns t else rest
