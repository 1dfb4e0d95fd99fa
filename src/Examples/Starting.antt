-- ===== src/Examples/Starting.antt =====
-- The stack of Project 3/userprog/process.c for the command line "ls -l".
use comp_sys_pint_os.Base.{◌≡◌, refl, true, List, [], ◌∷◌, ℕ, some, arith}
use comp_sys_pint_os.Stack.{Stack, setup_stack}
use comp_sys_pint_os.Stack.Layout.{IsLayout, setup_stack-IsLayout}

abbrev tokens : List (List ℕ)
tokens = (b'l' ∷ b's' ∷ []) ∷ (b'-' ∷ b'l' ∷ []) ∷ []

setup_stack-IsLayout_example :
    (t : Stack) × (setup_stack (λ n. true) true 0xc0000000 tokens ≡ some t)
    × IsLayout (λ n. true) (λ n. refl) 0xc0000000 (omega arith) tokens t
setup_stack-IsLayout_example =
    setup_stack-IsLayout (λ n. true) (λ n. refl) 0xc0000000 (omega arith) tokens (omega arith)
