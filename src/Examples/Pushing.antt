-- ===== src/Examples/Pushing.antt =====
-- The stack page of Project 3/Original Files/process.c for two arguments.
use comp_sys_pint_os.Base.{
  ℕ, ◌+◌, ◌≤◌, ◌<◌, ◌≡◌, true, List, [], ◌∷◌, length, none, some, ◌⊎◌, arith,
}
use comp_sys_pint_os.Platform.{page_size}
use comp_sys_pint_os.Original.{Arguments, setup_stack}
use comp_sys_pint_os.Original.Image.{args_size, args_image, addresses}
use comp_sys_pint_os.Original.Room.{setup_stack-fits}

-- Two arguments on a page below 0xc0000000.
abbrev two_arguments : List (List ℕ)
two_arguments = (101 ∷ []) ∷ (102 ∷ 103 ∷ []) ∷ []

setup_stack-fits_example :
    ((setup_stack 0xbffff000 true true 0xc0000000 two_arguments ≡ none)
      × (page_size < args_size 0xc0000000 two_arguments))
    ⊎ ((b : Arguments) × (setup_stack 0xbffff000 true true 0xc0000000 two_arguments ≡ some b)
        × (args_size 0xc0000000 two_arguments ≤ page_size)
        × (b.esp + args_size 0xc0000000 two_arguments ≡ 0xc0000000)
        × (length b.bytes ≡ args_size 0xc0000000 two_arguments)
        × (b.bytes ≡ args_image 0xc0000000 two_arguments)
        × (b.argv ≡ addresses 0xc0000000 two_arguments))
setup_stack-fits_example =
    setup_stack-fits 0xbffff000 (omega arith) 0xc0000000 two_arguments (omega arith) (omega arith)
