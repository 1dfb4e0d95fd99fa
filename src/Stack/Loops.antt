-- ===== src/Stack/Loops.antt =====
-- The two loops of `setup_stack` of Project 3/userprog/process.c.
use mathlib.Core.List.{append_assoc, append-nil}
use comp_sys_pint_os.Base.{
  ℕ, ◌+◌, ◌*◌, ◌^◌, ◌≤◌, ◌<◌, ◌≡◌, refl, sym, ap, ◌∙◌, subst, Bool, true, false, leb, if◌then◌else◌,
  not, ◌&&◌, List, [], ◌∷◌, ◌++◌, length, Option, none, some, arith, if_false,
}
use comp_sys_pint_os.Stack.{Stack, push, word, c_string, push_args, push_pointers}
use comp_sys_pint_os.Stack.Strings.{
  words, AllPoint, strings_size, AllPoint-push, AllPoint-snoc, Reaches, push-esp, push-Reaches,
}

-- After the loop over the tokens `ts`, which started at the stack `s`.
pub record Pushed (base size : ℕ) (ts : List (List ℕ)) (s : Stack) (r : Option (List ℕ × Stack))
    : Type 0 where
  pub argv : List ℕ
  pub after : Stack
  pub result : r ≡ some (argv, after)
  pub reaches : Reaches base after
  pub points : AllPoint base after.bytes argv ts
  pub moved : after.esp + size ≡ s.esp

and_not : (a b : Bool) → b ≡ true → (a && not b) ≡ false
and_not true true e = refl
and_not false true e = refl
and_not a false e = cc

module _ (grants : ℕ → Bool) (granted : (n : ℕ) → grants n ≡ true) (base : ℕ)
    (fits : base < 2 ^ 32) where
  -- One token more.
  one_token :
      (t : List ℕ) (ts : List (List ℕ)) (argv : List ℕ) (argv_size : ℕ) (s : Stack)
      (done : List (List ℕ))
      → Reaches base s
      → strings_size (t ∷ ts) ≤ s.esp
      → ((argv_size' : ℕ)
          → Pushed base (strings_size ts) ((done ++ t ∷ []) ++ ts) (push (c_string t) s) (
              push_args grants ts
                (argv ++ (push (c_string t) s).esp ∷ [])
                argv_size'
                (push (c_string t) s)))
      → Pushed base
          (strings_size (t ∷ ts))
          (done ++ t ∷ ts)
          s
          (push_args grants (t ∷ ts) argv argv_size s)
  unfolding push_args
  one_token t ts argv argv_size s done h room rest = record {
    argv = r.argv;
    after = r.after;
    result =
        if_false (is_full && not (grants argv_size')) none _
          (and_not is_full (grants argv_size') (granted argv_size'))
        ∙ r.result;
    reaches = r.reaches;
    points = subst (AllPoint base r.after.bytes r.argv) (append_assoc done (t ∷ []) ts) r.points;
    moved = omega (arith, r.moved, push-esp base (c_string t) s fits h (omega (arith, room)));
  }
    where
      is_full : Bool
      is_full = leb argv_size (length (argv ++ (push (c_string t) s).esp ∷ []))

      argv_size' : ℕ
      argv_size' = if is_full then argv_size * 2 else argv_size

      r : Pushed base (strings_size ts) ((done ++ t ∷ []) ++ ts) (push (c_string t) s) (
          push_args grants ts
            (argv ++ (push (c_string t) s).esp ∷ [])
            argv_size'
            (push (c_string t) s))
      r = rest argv_size'

  pub push_args-Pushed :
      (ts : List (List ℕ)) (argv : List ℕ) (argv_size : ℕ) (s : Stack) (done : List (List ℕ))
      → Reaches base s
      → AllPoint base s.bytes argv done
      → strings_size ts ≤ s.esp
      → Pushed base (strings_size ts) (done ++ ts) s (push_args grants ts argv argv_size s)
  unfolding push_args push
  push_args-Pushed [] argv argv_size s done h k room = record {
    argv = argv;
    after = s;
    result = refl;
    reaches = h;
    points = subst (AllPoint base s.bytes argv) (sym (append-nil done)) k;
    moved = omega arith;
  }
  push_args-Pushed (t ∷ ts) argv argv_size s done h k room =
      let below : (push (c_string t) s).esp + length (c_string t) ≡ s.esp =
        push-esp base (c_string t) s fits h (omega (arith, room)) in
      let h' = push-Reaches base (c_string t) s fits h (omega (arith, room)) in
      one_token t ts argv argv_size s done h room λ argv_size'.
        push_args-Pushed ts (argv ++ (push (c_string t) s).esp ∷ []) argv_size'
          (push (c_string t) s) (done ++ t ∷ []) h'
          (AllPoint-snoc base (push (c_string t) s).bytes argv done (push (c_string t) s).esp t
            (AllPoint-push base s.bytes (c_string t) argv done k) ([], s.bytes, refl, h'))
          (omega (arith, below, room))

  -- The pointers, from the last down.
  pub record Pointed (ps : List ℕ) (s t : Stack) : Type 0 where
    pub bytes : t.bytes ≡ words ps ++ s.bytes
    pub esp : t.esp + 4 * length ps ≡ s.esp
    pub reaches : Reaches base t

  pub push_pointers-Pointed :
      (ps : List ℕ) (s : Stack)
      → Reaches base s
      → 4 * length ps ≤ s.esp
      → Pointed ps s (push_pointers grants ps s)
  unfolding push_pointers
  push_pointers-Pointed [] s h room = record { bytes = refl; esp = omega arith; reaches = h }
  push_pointers-Pointed (p ∷ ps) s h room =
      one_pointer (push_pointers-Pointed ps s h (omega (arith, room)))
    where
      one_pointer :
          Pointed ps s (push_pointers grants ps s)
          → Pointed (p ∷ ps) s (push (word p) (push_pointers grants ps s))
      one_pointer r = record {
        bytes = unfold push in ap (λ xs. word p ++ xs) r.bytes;
        esp = omega (
          arith,
          r.esp,
          push-esp base (word p) (push_pointers grants ps s) fits r.reaches
              (omega (arith, r.esp, room)),
        );
        reaches =
            push-Reaches base (word p) (push_pointers grants ps s) fits r.reaches
              (omega (arith, r.esp, room));
      }
