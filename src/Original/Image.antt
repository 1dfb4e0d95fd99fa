-- ===== src/Original/Image.antt =====
-- What the arguments of Project 3/Original Files/process.c look like on the stack page.
use comp_sys_pint_os.Base.{
  ℕ, zero, suc, ◌+◌, ◌-◌, ◌*◌, ◌%◌, ◌≡◌, refl, ap, List, [], ◌∷◌, ◌++◌, length,
}
use comp_sys_pint_os.Stack.{word}
use comp_sys_pint_os.Stack.Strings.{strings_size}

-- The bytes of the strings with their NULs, the padding to a word, the vector with its end, and
-- three words.
abbrev pub args_size : ℕ → List (List ℕ) → ℕ
args_size esp tokens =
    strings_size tokens + (esp - strings_size tokens) % 4 + (4 + 4 * length tokens) + 12

-- What stands on the stack, from low addresses to high ones: the strings, each with its NUL.
abbrev pub strings_image : List (List ℕ) → List ℕ
strings_image [] = []
strings_image (token ∷ tokens) = (token ++ 0 ∷ []) ++ strings_image tokens

-- The address of each string, below `base`.
abbrev pub addresses : ℕ → List (List ℕ) → List ℕ
addresses base [] = []
addresses base (token ∷ tokens) = (base - strings_size (token ∷ tokens)) ∷ addresses base tokens

abbrev pub zeros : ℕ → List ℕ
zeros zero = []
zeros (suc n) = zeros n ++ 0 ∷ []

abbrev pub pointer_bytes : List ℕ → List ℕ
pointer_bytes [] = []
pointer_bytes (p ∷ ps) = word p ++ pointer_bytes ps

-- The address of the vector, at a multiple of 4 below the strings.
abbrev pub vector_address : ℕ → List (List ℕ) → ℕ
vector_address base tokens =
    base - (strings_size tokens + (base - strings_size tokens) % 4 + (4 + 4 * length tokens))

-- A return address of 0, the number of arguments, the address of the vector, the vector with a null
-- pointer at its end, the padding and the strings.
abbrev pub args_image : ℕ → List (List ℕ) → List ℕ
args_image base tokens =
    (word 0 ++ (word (length tokens) ++ word (vector_address base tokens)))
    ++ ((pointer_bytes (addresses base tokens) ++ word 0)
        ++ (zeros ((base - strings_size tokens) % 4) ++ strings_image tokens))

pub length-addresses :
    (base : ℕ) (tokens : List (List ℕ)) → length (addresses base tokens) ≡ length tokens
length-addresses base [] = refl
length-addresses base (token ∷ tokens) = ap suc (length-addresses base tokens)
