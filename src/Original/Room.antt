-- ===== src/Original/Room.antt =====
-- When and how the arguments fit into the stack page of Project 3/Original Files/process.c.
use mathlib.Core.List.{append-nil, append_assoc}
use comp_sys_pint_os.Base.{
  ℕ, zero, suc, ◌+◌, ◌-◌, ◌*◌, ◌%◌, ◌^◌, ◌≤◌, ◌<◌, ◌≡◌, refl, ap, subst, true, ltb, List, [], ◌∷◌,
  length, Option, none, some, ◌⊎◌, inl, inr, arith, Bool-cases, ◌++◌, ◌∙◌, sym,
}
use comp_sys_pint_os.Platform.{page_size, u32}
use comp_sys_pint_os.Stack.{word}
use comp_sys_pint_os.Stack.Strings.{strings_size, length-append}
use comp_sys_pint_os.Original.Image.{
  args_size, strings_image, addresses, zeros, pointer_bytes, vector_address, args_image,
  length-addresses,
}
use comp_sys_pint_os.Original.{
  Arguments, and_then, push_byte_to_stack, push_word_to_stack, push_string, note_pointer,
  push_strings, push_zeros, push_pointers, push_vector, push_header, push_args_to_stack,
  setup_stack,
}

module _ (limit : ℕ) where
  -- The `n` bytes `bs` have been pushed, and the `p` pointers `ps` noted; or there was no room.
  unfoldable pub Takes : ℕ → ℕ → List ℕ → List ℕ → Arguments → Option Arguments → Type 0
  Takes n p bs ps a none = a.esp < limit + n
  Takes n p bs ps a (some b) =
      (limit + n ≤ a.esp)
      × (b.esp + n ≡ a.esp)
      × (length b.bytes ≡ length a.bytes + n)
      × (length b.argv ≡ length a.argv + p)
      × (b.bytes ≡ bs ++ a.bytes)
      × (b.argv ≡ ps ++ a.argv)

  abbrev Bounded : Arguments → Type 0
  Bounded a = (limit ≤ a.esp) × (a.esp < 2 ^ 32)

  Takes-then :
      (n m p q : ℕ) (bs cs ps qs : List ℕ) (a : Arguments) (o : Option Arguments)
      (f : Arguments → Option Arguments)
      → Takes n p bs ps a o
      → ((b : Arguments)
          → Bounded b
          → b.esp + n ≡ a.esp
          → b.argv ≡ ps ++ a.argv
          → Takes m q cs qs b (f b))
      → Bounded a
      → Takes (n + m) (p + q) (cs ++ bs) (qs ++ ps) a (and_then o f)
  unfolding Takes
  Takes-then n m p q bs cs ps qs a none f h k ba = omega (arith, h)
  Takes-then n m p q bs cs ps qs a (some b) f h k ba =
      after (f b) (k b (omega (arith, h.0, h.1), omega (arith, h.1, ba.1)) h.1 h.5)
    where
      behind :
          (xs ys zs : List ℕ) {us vs : List ℕ}
          → us ≡ ys ++ zs
          → vs ≡ xs ++ us
          → vs ≡ (xs ++ ys) ++ zs
      behind xs ys zs e d = d ∙ ap (λ l. xs ++ l) e ∙ sym (append_assoc xs ys zs)

      after :
          (o : Option Arguments)
          → Takes m q cs qs b o
          → Takes (n + m) (p + q) (cs ++ bs) (qs ++ ps) a o
      after none l = omega (arith, l, h.1)
      after (some c) l = (
        omega (arith, l.0, h.1),
        omega (arith, l.1, h.1),
        omega (arith, l.2, h.2),
        omega (arith, l.3, h.3),
        behind cs bs a.bytes h.4 l.4,
        behind qs ps a.argv h.5 l.5,
      )

  push_byte-Takes :
      (v : ℕ) (a : Arguments)
      → 1 ≤ limit
      → Bounded a
      → Takes 1 0 (v ∷ []) [] a (push_byte_to_stack limit v a)
  unfolding push_byte_to_stack Takes
  push_byte-Takes v a l ba = elim (Bool-cases (ltb (u32 (a.esp + 2 ^ 32 - 1)) limit)) [
    | inl low ↦ rw low (ground arith)
    | inr high ↦ rw high (ground arith, ground arith, ground arith, ground arith, refl, refl)
  ]

  push_word-Takes :
      (v : ℕ) (a : Arguments)
      → 4 ≤ limit
      → Bounded a
      → Takes 4 0 (word v) [] a (push_word_to_stack limit v a)
  unfolding push_word_to_stack Takes
  push_word-Takes v a l ba = elim (Bool-cases (ltb (u32 (a.esp + 2 ^ 32 - 4)) limit)) [
    | inl low ↦ rw low (ground arith)
    | inr high ↦ rw high (ground arith, ground arith, ground arith, ground arith, refl, refl)
  ]

  Takes-size :
      {n n' p p' : ℕ} {bs bs' ps ps' : List ℕ} (a : Arguments) (o : Option Arguments)
      → n ≡ n'
      → p ≡ p'
      → bs ≡ bs'
      → ps ≡ ps'
      → Takes n p bs ps a o
      → Takes n' p' bs' ps' a o
  Takes-size {n} {n'} {p} {p'} {bs} {bs'} {ps} {ps'} a o e f g d h =
      subst (λ x. Takes x p' bs' ps' a o) e
        (subst (λ x. Takes n x bs' ps' a o) f
          (subst (λ x. Takes n p x ps' a o) g (subst (λ x. Takes n p bs x a o) d h)))

  nothing-Takes : (a : Arguments) → Bounded a → Takes 0 0 [] [] a (some a)
  unfolding Takes
  nothing-Takes a ba = (omega (arith, ba.0), omega arith, omega arith, omega arith, refl, refl)

  note_pointer-Takes :
      (a : Arguments) → Bounded a → Takes 0 1 [] (a.esp ∷ []) a (note_pointer limit a)
  unfolding Takes
  note_pointer-Takes a ba = (omega (arith, ba.0), omega arith, omega arith, omega arith, refl, refl)

  module _ (room : 4 ≤ limit) where
    push_string-Takes :
        (token : List ℕ) (a : Arguments)
        → Bounded a
        → Takes (length token + 1) 0 (token ++ 0 ∷ []) [] a (push_string limit token a)
    unfolding push_string
    push_string-Takes [] a ba = push_byte-Takes 0 a (omega arith) ba
    push_string-Takes (c ∷ cs) a ba = Takes-size a _ (omega arith) refl refl refl (
        Takes-then (length cs + 1) 1 0 0 (cs ++ 0 ∷ []) (c ∷ []) [] [] a (push_string limit cs a)
          (push_byte_to_stack limit c) (push_string-Takes cs a ba)
          (λ b bb e g. push_byte-Takes c b (omega arith) bb) ba)

    push_strings-Takes :
        (tokens : List (List ℕ)) (a : Arguments)
        → Bounded a
        → Takes
            (strings_size tokens)
            (length tokens)
            (strings_image tokens)
            (addresses a.esp tokens)
            a
            (push_strings limit tokens a)
    unfolding push_strings
    push_strings-Takes [] a ba = nothing-Takes a ba
    push_strings-Takes (token ∷ tokens) a ba = Takes-size a _ size (omega arith) refl refl (
        Takes-then (strings_size tokens + (length token + 1)) 0 (length tokens + 0) 1
          ((token ++ 0 ∷ []) ++ strings_image tokens) [] (addresses a.esp tokens)
          ((a.esp - strings_size (token ∷ tokens)) ∷ []) a _ (note_pointer limit)
          (Takes-then (strings_size tokens) (length token + 1) (length tokens) 0
            (strings_image tokens) (token ++ 0 ∷ []) (addresses a.esp tokens) [] a _
            (push_string limit token) (push_strings-Takes tokens a ba)
            (λ b bb e g. push_string-Takes token b bb) ba)
          (λ b bb e g.
            Takes-size b _ refl refl refl (ap (λ x. x ∷ []) (omega (arith, e, size)))
              (note_pointer-Takes b bb))
          ba)
      where
        size : strings_size tokens + (length token + 1) + 0 ≡ strings_size (token ∷ tokens)
        size = omega (arith, length-append token (0 ∷ []))

    push_zeros-Takes :
        (n : ℕ) (a : Arguments) → Bounded a → Takes n 0 (zeros n) [] a (push_zeros limit n a)
    unfolding push_zeros
    push_zeros-Takes zero a ba = nothing-Takes a ba
    push_zeros-Takes (suc n) a ba = Takes-size a _ (omega arith) refl refl refl (
        Takes-then 1 n 0 0 (0 ∷ []) (zeros n) [] [] a (push_byte_to_stack limit 0 a)
          (push_zeros limit n) (push_byte-Takes 0 a (omega arith) ba)
          (λ b bb e g. push_zeros-Takes n b bb) ba)

    push_pointers-Takes :
        (ps : List ℕ) (a : Arguments)
        → Bounded a
        → Takes (4 * length ps) 0 (pointer_bytes ps) [] a (push_pointers limit ps a)
    unfolding push_pointers
    push_pointers-Takes [] a ba = nothing-Takes a ba
    push_pointers-Takes (p ∷ ps) a ba = Takes-size a _ (omega arith) refl refl refl (
        Takes-then (4 * length ps) 4 0 0 (pointer_bytes ps) (word p) [] [] a
          (push_pointers limit ps a) (push_word_to_stack limit p) (push_pointers-Takes ps a ba)
          (λ b bb e g. push_word-Takes p b room bb) ba)

    push_vector-Takes :
        (a : Arguments)
        → Bounded a
        → Takes
            (4 + 4 * length a.argv)
            0
            (pointer_bytes a.argv ++ word 0)
            []
            a
            (push_vector limit a)
    unfolding push_vector
    push_vector-Takes a ba =
        Takes-then 4 (4 * length a.argv) 0 0 (word 0) (pointer_bytes a.argv) [] [] a
          (push_word_to_stack limit 0 a) (push_pointers limit a.argv) (push_word-Takes 0 a room ba)
          (λ b bb e g. push_pointers-Takes a.argv b bb) ba

    push_header-Takes :
        (argc : ℕ) (a : Arguments)
        → Bounded a
        → Takes 12 0 (word 0 ++ (word argc ++ word a.esp)) [] a (push_header limit argc a)
    unfolding push_header
    push_header-Takes argc a ba =
        Takes-then 8 4 0 0 (word argc ++ word a.esp) (word 0) [] [] a _ (push_word_to_stack limit 0)
          (Takes-then 4 4 0 0 (word a.esp) (word argc) [] [] a _ (push_word_to_stack limit argc)
            (push_word-Takes a.esp a room ba) (λ b bb e g. push_word-Takes argc b room bb) ba)
          (λ b bb e g. push_word-Takes 0 b room bb) ba

    push_args-Takes :
        (tokens : List (List ℕ)) (a : Arguments)
        → a.argv ≡ []
        → Bounded a
        → Takes
            (args_size a.esp tokens)
            (length tokens)
            (args_image a.esp tokens)
            (addresses a.esp tokens)
            a
            (push_args_to_stack limit tokens a)
    unfolding push_args_to_stack
    push_args-Takes tokens a none_yet ba = Takes-size a _ refl (omega arith) refl refl (
        Takes-then (strings_size tokens + padding + (4 + 4 * length tokens)) 12
          (length tokens + 0 + 0) 0 (vector ++ (zeros padding ++ strings_image tokens))
          (word 0 ++ (word (length tokens) ++ word (vector_address a.esp tokens))) pointers [] a _
          (push_header limit (length tokens))
          (Takes-then (strings_size tokens + padding) (4 + 4 * length tokens) (length tokens + 0) 0
            (zeros padding ++ strings_image tokens) vector pointers [] a _ (push_vector limit)
            (Takes-then (strings_size tokens) padding (length tokens) 0 (strings_image tokens)
              (zeros padding) pointers [] a _ (λ b. push_zeros limit (b.esp % 4) b)
              (push_strings-Takes tokens a ba)
              (λ b bb e g.
                let pad : b.esp % 4 ≡ padding = omega (arith, e) in
                Takes-size b _ pad refl (ap zeros pad) refl (push_zeros-Takes (b.esp % 4) b bb))
              ba)
            (λ b bb e g.
              Takes-size b _
                (ap (λ l. 4 + 4 * length l) (noted b g)
                  ∙ omega (arith, length-addresses a.esp tokens))
                refl (ap (λ l. pointer_bytes l ++ word 0) (noted b g)) refl
                (push_vector-Takes b bb))
            ba)
          (λ b bb e g.
            let at : b.esp ≡ vector_address a.esp tokens = omega (arith, e) in
            Takes-size b _ refl refl (ap (λ x. word 0 ++ (word (length tokens) ++ word x)) at) refl
              (push_header-Takes (length tokens) b bb))
          ba)
      where
        padding : ℕ
        padding = (a.esp - strings_size tokens) % 4

        pointers : List ℕ
        pointers = addresses a.esp tokens

        vector : List ℕ
        vector = pointer_bytes pointers ++ word 0

        noted : (b : Arguments) → b.argv ≡ pointers ++ a.argv → b.argv ≡ pointers
        noted b g = g ∙ ap (λ l. pointers ++ l) none_yet ∙ append-nil pointers

    -- On a stack page from `limit` to `base`, once the page is allocated and mapped, `setup_stack`
    -- returns false exactly if the arguments take more than a page: the strings with their NULs, the
    -- padding to a word, the vector with its end and three words. Otherwise it has written exactly
    -- these, from its stack pointer, which is in the page, up to `base`: a return address of 0, the
    -- number of arguments, the address of the vector, the addresses of the strings and a null pointer,
    -- the padding, and the strings.
    pub setup_stack-fits :
        (base : ℕ) (tokens : List (List ℕ))
        → limit + page_size ≡ base
        → base < 2 ^ 32
        → ((setup_stack limit true true base tokens ≡ none) × (page_size < args_size base tokens))
          ⊎ ((b : Arguments) × (setup_stack limit true true base tokens ≡ some b)
              × (args_size base tokens ≤ page_size)
              × (b.esp + args_size base tokens ≡ base)
              × (length b.bytes ≡ args_size base tokens)
              × (b.bytes ≡ args_image base tokens)
              × (b.argv ≡ addresses base tokens))
    unfolding setup_stack Takes
    setup_stack-fits base tokens whole fits =
        split (push_args_to_stack limit tokens start) refl
          (push_args-Takes tokens start refl (omega (arith, whole), fits))
      where
        start : Arguments
        start = record { esp = base; bytes = []; argv = [] }

        split :
            (o : Option Arguments)
            → push_args_to_stack limit tokens start ≡ o
            → Takes
                (args_size base tokens)
                (length tokens)
                (args_image base tokens)
                (addresses base tokens)
                start
                o
            → ((push_args_to_stack limit tokens start ≡ none) × (page_size < args_size base tokens))
              ⊎ ((b : Arguments) × (push_args_to_stack limit tokens start ≡ some b)
                  × (args_size base tokens ≤ page_size)
                  × (b.esp + args_size base tokens ≡ base)
                  × (length b.bytes ≡ args_size base tokens)
                  × (b.bytes ≡ args_image base tokens)
                  × (b.argv ≡ addresses base tokens))
        split none e h = inl (e, omega (arith, h, whole))
        split (some b) e h = inr (
          b,
          e,
          omega (arith, h.0, whole),
          omega (arith, h.1),
          omega (arith, h.2),
          h.4 ∙ append-nil (args_image base tokens),
          h.5 ∙ append-nil (addresses base tokens),
        )
