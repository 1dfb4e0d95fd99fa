-- ===== src/Stack/Layout.antt =====
-- What a program finds on the stack that `setup_stack` of Project 3/userprog/process.c makes.
use comp_sys_pint_os.Base.{
  ℕ, ◌+◌, ◌*◌, ◌%◌, ◌^◌, ◌≤◌, ◌<◌, ◌≡◌, refl, sym, ap, ◌∙◌, subst, Bool, true, List, [], ◌∷◌, ◌++◌,
  length, Option, none, some, arith, if_true,
}
use comp_sys_pint_os.Stack.{
  Stack, push, word, zeros, default_argv, push_args, push_pointers, push_vector, finish_stack,
  setup_stack,
}
use comp_sys_pint_os.Stack.Strings.{
  length-append, length-zeros, words, AllPoint, strings_size, AllPoint-push, AllPoint-length,
  Reaches, push-esp, push-Reaches,
}
use comp_sys_pint_os.Stack.Loops.{Pushed, Pointed, push_args-Pushed, push_pointers-Pointed}

module _ (grants : ℕ → Bool) (granted : (n : ℕ) → grants n ≡ true) (base : ℕ)
    (fits : base < 2 ^ 32) where
  -- What the program finds from its stack pointer on: a return address of 0, the number of tokens,
  -- the address of the vector, and there the vector with a null pointer at its end; the pointers lead
  -- to the tokens, as strings with a NUL, in order.
  pub record IsLayout (tokens : List (List ℕ)) (s : Stack) : Type 0 where
    pub argv : List ℕ
    pub tail : List ℕ
    pub bytes :
        s.bytes
        ≡ word 0
          ++ (word (length tokens) ++ (word (s.esp + 12) ++ (words (argv ++ 0 ∷ []) ++ tail)))
    pub aligned : s.esp % 4 ≡ 0
    pub reaches : Reaches base s
    pub points : AllPoint base s.bytes argv tokens

  -- Five words and pushes later.
  push_vector-IsLayout :
      (tokens : List (List ℕ)) (argv : List ℕ) (s : Stack)
      → Reaches base s
      → AllPoint base s.bytes argv tokens
      → 4 * length tokens + 19 ≤ s.esp
      → IsLayout tokens (push_vector grants argv s)
  unfolding push_vector
  push_vector-IsLayout tokens argv s h k room = record {
    argv = argv;
    tail = aligned.bytes;
    bytes =
        ap (λ n. word 0 ++ (word n ++ (word first.esp ++ first.bytes))) same
        ∙ ap (λ n. word 0 ++ (word (length tokens) ++ (word n ++ first.bytes))) at
        ∙ ap (λ xs. word 0 ++ (word (length tokens) ++ (word (last.esp + 12) ++ xs))) p.bytes;
    aligned = omega (arith, last_esp, third_esp, second_esp, first_esp, aligned_esp, room);
    reaches =
        push-Reaches base (word 0) third fits h3
          (omega (arith, third_esp, second_esp, first_esp, aligned_esp, room));
    points = AllPoint-push base third.bytes (word 0) argv tokens (
        AllPoint-push base second.bytes (word (length argv)) argv tokens (
          AllPoint-push base first.bytes (word first.esp) argv tokens (
            subst (λ xs. AllPoint base xs argv tokens) (sym p.bytes)
              (AllPoint-push base aligned.bytes (words (argv ++ 0 ∷ [])) argv tokens
                (AllPoint-push base s.bytes (zeros (s.esp % 4)) argv tokens k)))));
  }
    where
      same : length argv ≡ length tokens
      same = AllPoint-length base s.bytes argv tokens k

      aligned : Stack
      aligned = push (zeros (s.esp % 4)) s

      aligned_esp : aligned.esp + s.esp % 4 ≡ s.esp
      aligned_esp =
          ap (λ n. aligned.esp + n) (sym (length-zeros (s.esp % 4)))
          ∙ push-esp base (zeros (s.esp % 4)) s fits h (omega (arith, length-zeros (s.esp % 4)))

      h0 : Reaches base aligned
      h0 = push-Reaches base (zeros (s.esp % 4)) s fits h (omega (arith, length-zeros (s.esp % 4)))

      first : Stack
      first = push_pointers grants (argv ++ 0 ∷ []) aligned

      p : Pointed grants granted base fits (argv ++ 0 ∷ []) aligned first
      p =
          push_pointers-Pointed grants granted base fits (argv ++ 0 ∷ []) aligned h0
            (omega (arith, length-append argv (0 ∷ []), same, aligned_esp, room))

      first_esp : first.esp + 4 * length tokens + 4 ≡ aligned.esp
      first_esp = omega (arith, p.esp, length-append argv (0 ∷ []), same)

      second : Stack
      second = push (word first.esp) first

      h2 : Reaches base second
      h2 =
          push-Reaches base (word first.esp) first fits p.reaches
            (omega (arith, first_esp, aligned_esp, room))

      second_esp : second.esp + 4 ≡ first.esp
      second_esp =
          push-esp base (word first.esp) first fits p.reaches
            (omega (arith, first_esp, aligned_esp, room))

      third : Stack
      third = push (word (length argv)) second

      h3 : Reaches base third
      h3 =
          push-Reaches base (word (length argv)) second fits h2
            (omega (arith, second_esp, first_esp, aligned_esp, room))

      third_esp : third.esp + 4 ≡ second.esp
      third_esp =
          push-esp base (word (length argv)) second fits h2
            (omega (arith, second_esp, first_esp, aligned_esp, room))

      last : Stack
      last = push (word 0) third

      last_esp : last.esp + 4 ≡ third.esp
      last_esp =
          push-esp base (word 0) third fits h3
            (omega (arith, third_esp, second_esp, first_esp, aligned_esp, room))

      at : first.esp ≡ last.esp + 12
      at = omega (arith, last_esp, third_esp, second_esp)

  finish_stack-IsLayout :
      (tokens : List (List ℕ)) (s : Stack) (r : Option (List ℕ × Stack))
      → s.esp ≡ base
      → strings_size tokens + 4 * length tokens + 19 ≤ base
      → Pushed base (strings_size tokens) tokens s r
      → (t : Stack) × (finish_stack grants r ≡ some t) × IsLayout tokens t
  unfolding finish_stack
  finish_stack-IsLayout tokens s r from room p = (
    push_vector grants p.argv p.after,
    ap (finish_stack grants) p.result,
    push_vector-IsLayout tokens p.argv p.after p.reaches p.points
        (omega (arith, p.moved, from, room)),
  )

  -- If the stack page can be had, no memory runs out, and the strings, the pointers and 19 bytes more
  -- fit below `base`, a word, then `setup_stack` succeeds. The stack pointer is a multiple of 4;
  -- from it on stand a return address of 0, the number of tokens, the address of the argument vector
  -- and the vector itself, ended by a null pointer, whose pointers lead to the tokens as strings with
  -- a NUL, in order.
  pub setup_stack-IsLayout :
      (tokens : List (List ℕ))
      → strings_size tokens + 4 * length tokens + 19 ≤ base
      → (t : Stack) × (setup_stack grants true base tokens ≡ some t) × IsLayout tokens t
  unfolding setup_stack
  setup_stack-IsLayout tokens room =
      let bottom : Stack = record { esp = base; bytes = [] } in
      let (t, e, l) =
        finish_stack-IsLayout tokens bottom (push_args grants tokens [] default_argv bottom) refl
          room
          (push_args-Pushed grants granted base fits tokens [] default_argv bottom [] (omega arith)
            tt (omega (arith, room))) in
      (t, if_true (grants default_argv) _ none (granted default_argv) ∙ e, l)
