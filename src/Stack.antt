-- ===== src/Stack.antt =====
-- Project 3/userprog/process.c: `setup_stack`, the arguments of a program on its stack.
-- The stack is its pointer and the bytes from there to PHYS_BASE. `strtok_r` is a library function:
-- the tokens that it delivers, as bytes without the NUL, are an argument. So are the answers of
-- `malloc` and `realloc`: `grants n` for a vector of `n` pointers.
pub mod Strings
pub mod Loops
pub mod Layout
use comp_sys_pint_os.Base.{
  ℕ, zero, suc, ◌+◌, ◌-◌, ◌*◌, ◌/◌, ◌%◌, ◌^◌, Bool, leb, if◌then◌else◌, not, ◌&&◌, List, [], ◌∷◌,
  ◌++◌, length, Option, none, some,
}
use comp_sys_pint_os.Platform.{u32}

pub record Stack : Type 0 where
  pub esp : ℕ
  pub bytes : List ℕ

-- `*esp -= n`, and a `memcpy` of `n` bytes to it.
unfoldable pub push : List ℕ → Stack → Stack
push bytes s = record { esp = u32 (s.esp + 2 ^ 32 - length bytes); bytes = bytes ++ s.bytes }

-- The four bytes of a word, the lowest first.
abbrev pub word : ℕ → List ℕ
word n = n % 256 ∷ n / 256 % 256 ∷ n / 65536 % 256 ∷ n / 16777216 % 256 ∷ []

abbrev pub zeros : ℕ → List ℕ
zeros zero = []
zeros (suc n) = 0 ∷ zeros n

abbrev pub c_string : List ℕ → List ℕ
c_string token = token ++ 0 ∷ []

-- DEFAULT_ARGV
abbrev pub default_argv : ℕ
default_argv = 2

module _ (grants : ℕ → Bool) where
  -- The loop over the tokens; `none` if the vector cannot be enlarged.
  unfoldable pub push_args : List (List ℕ) → List ℕ → ℕ → Stack → Option (List ℕ × Stack)
  unfolding push
  push_args [] argv argv_size s = some (argv, s)
  push_args (token ∷ tokens) argv argv_size s =
      let t = push (c_string token) s in
      let argv' = argv ++ t.esp ∷ [] in
      let is_full = leb argv_size (length argv') in
      let argv_size' = if is_full then argv_size * 2 else argv_size in
      let rest = push_args tokens argv' argv_size' t in
      if is_full && not (grants argv_size') then none else rest

  -- The loop from the last pointer down to the first.
  unfoldable pub push_pointers : List ℕ → Stack → Stack
  unfolding push
  push_pointers [] s = s
  push_pointers (p ∷ ps) s = push (word p) (push_pointers ps s)

  -- What follows the strings: the padding to a word, the pointers and their end, `argv`, `argc` and a
  -- return address.
  unfoldable pub push_vector : List ℕ → Stack → Stack
  unfolding push_pointers
  push_vector argv s =
      let aligned = push (zeros (s.esp % 4)) s in
      let pointers = push_pointers (argv ++ 0 ∷ []) aligned in
      push (word 0) (push (word (length argv)) (push (word pointers.esp) pointers))

  unfoldable pub finish_stack : Option (List ℕ × Stack) → Option Stack
  unfolding push_vector
  finish_stack none = none
  finish_stack (some (argv, s)) = some (push_vector argv s)

  -- `setup_stack`; `grown` is what `grow_stack` returns, and `none` the result false.
  unfoldable pub setup_stack : Bool → ℕ → List (List ℕ) → Option Stack
  unfolding push_args finish_stack
  setup_stack grown phys_base tokens =
      if grown && grants default_argv
      then finish_stack (push_args tokens [] default_argv (record { esp = phys_base; bytes = [] }))
      else none
