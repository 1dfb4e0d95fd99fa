-- ===== src/Original.antt =====
-- Project 3/Original Files/process.c: the arguments of a program, cut into tokens and pushed onto a stack
-- of one page, with a test before each write.
-- `strtok_r` is a library function: the tokens that it delivers, as bytes without the NUL, are an
-- argument. A push that would leave the page ends everything, so a result false is `none`.
pub mod Image
pub mod Room
use comp_sys_pint_os.Base.{
  ℕ, zero, suc, ◌+◌, ◌-◌, ◌*◌, ◌/◌, ◌%◌, ◌^◌, Bool, ltb, ◌==◌, if◌then◌else◌, not, ◌&&◌, List, [],
  ◌∷◌, ◌++◌, length, Option, none, some,
}
use comp_sys_pint_os.Platform.{page_size, u32}
use comp_sys_pint_os.Stack.{word}

-- ARGV_SIZE, with 4 bytes for `unsigned` and for a pointer, and BAD_ARGS
abbrev pub argv_size : ℕ
argv_size = (page_size - page_size / 2 - 4) / 4

abbrev pub bad_args : ℕ
bad_args = 2 ^ 32 - 1

-- The stack pointer, the bytes from there to PHYS_BASE, and the pointers in `argv` so far.
pub record Arguments : Type 0 where
  pub esp : ℕ
  pub bytes : List ℕ
  pub argv : List ℕ

-- The loop of `argument_tokenize`: `argc`, and the tokens that stand in `argv`.
unfoldable pub argument_tokenize : ℕ → List (List ℕ) → ℕ × List (List ℕ)
argument_tokenize argc [] = (argc, [])
argument_tokenize argc (token ∷ tokens) =
    let rest = argument_tokenize (argc + 1) tokens in
    if argc == argv_size then (bad_args, []) else (rest.0, token ∷ rest.1)

abbrev pub and_then : Option Arguments → (Arguments → Option Arguments) → Option Arguments
and_then none f = none
and_then (some a) f = f a

-- `limit` is USER_STACK_VADDR.
module _ (limit : ℕ) where
  unfoldable pub push_byte_to_stack : ℕ → Arguments → Option Arguments
  push_byte_to_stack val a =
      let esp' = u32 (a.esp + 2 ^ 32 - 1) in
      if ltb esp' limit then none else some (record a { esp = esp'; bytes = val ∷ a.bytes })

  unfoldable pub push_word_to_stack : ℕ → Arguments → Option Arguments
  push_word_to_stack val a =
      let esp' = u32 (a.esp + 2 ^ 32 - 4) in
      if ltb esp' limit then none else some (record a { esp = esp'; bytes = word val ++ a.bytes })

  -- The bytes of a string, from its NUL down to its first byte.
  unfoldable pub push_string : List ℕ → Arguments → Option Arguments
  unfolding push_byte_to_stack
  push_string [] a = push_byte_to_stack 0 a
  push_string (c ∷ cs) a = and_then (push_string cs a) (push_byte_to_stack c)

  abbrev pub note_pointer : Arguments → Option Arguments
  note_pointer a = some (record a { argv = a.esp ∷ a.argv })

  -- The strings, from the last argument to the first; `argv[i]` then holds the address of the string.
  unfoldable pub push_strings : List (List ℕ) → Arguments → Option Arguments
  unfolding push_string
  push_strings [] a = some a
  push_strings (token ∷ tokens) a =
      and_then (and_then (push_strings tokens a) (push_string token)) note_pointer

  unfoldable pub push_zeros : ℕ → Arguments → Option Arguments
  unfolding push_byte_to_stack
  push_zeros zero a = some a
  push_zeros (suc n) a = and_then (push_byte_to_stack 0 a) (push_zeros n)

  -- The pointers, from the last to the first.
  unfoldable pub push_pointers : List ℕ → Arguments → Option Arguments
  unfolding push_word_to_stack
  push_pointers [] a = some a
  push_pointers (p ∷ ps) a = and_then (push_pointers ps a) (push_word_to_stack p)

  -- The vector, with a null pointer at its end.
  unfoldable pub push_vector : Arguments → Option Arguments
  unfolding push_pointers
  push_vector a = and_then (push_word_to_stack 0 a) (push_pointers a.argv)

  -- `argv`, `argc` and the return address.
  unfoldable pub push_header : ℕ → Arguments → Option Arguments
  unfolding push_word_to_stack
  push_header argc a =
      and_then (and_then (push_word_to_stack a.esp a) (push_word_to_stack argc))
        (push_word_to_stack 0)

  unfoldable pub push_args_to_stack : List (List ℕ) → Arguments → Option Arguments
  unfolding push_strings push_zeros push_vector push_header
  push_args_to_stack tokens a =
      let aligned = and_then (push_strings tokens a) (λ b. push_zeros (b.esp % 4) b) in
      and_then (and_then aligned push_vector) (push_header (length tokens))

  -- `setup_stack`; `has_page` and `installed` are the results of `palloc_get_page` and `install_page`.
  unfoldable pub setup_stack : Bool → Bool → ℕ → List (List ℕ) → Option Arguments
  unfolding push_args_to_stack
  setup_stack has_page installed phys_base tokens =
      let pushed = push_args_to_stack tokens (record { esp = phys_base; bytes = []; argv = [] }) in
      if has_page && installed then pushed else none
