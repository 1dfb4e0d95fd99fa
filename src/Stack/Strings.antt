-- ===== src/Stack/Strings.antt =====
-- The strings on the stack of Project 3/userprog/process.c, and the pointers to them.
use mathlib.Core.List.{append_assoc}
use comp_sys_pint_os.Base.{
  ℕ, zero, suc, ◌+◌, ◌^◌, ◌≤◌, ◌<◌, ◌≡◌, refl, sym, ap, ◌∙◌, List, [], ◌∷◌, ◌++◌, length, arith,
}
use comp_sys_pint_os.Stack.{Stack, push, word, zeros, c_string}

pub length-append : {A : Type 0} (xs ys : List A) → length (xs ++ ys) ≡ length xs + length ys
length-append [] ys = omega arith
length-append (x ∷ xs) ys = omega (arith, length-append xs ys)

pub length-zeros : (n : ℕ) → length (zeros n) ≡ n
length-zeros zero = refl
length-zeros (suc n) = ap suc (length-zeros n)

-- The words one after the other.
abbrev pub words : List ℕ → List ℕ
words [] = []
words (p ∷ ps) = word p ++ words ps

-- The string stands in the bytes, and the address leads to it; `base` is the address of their end.
abbrev pub Points : ℕ → List ℕ → ℕ → List ℕ → Type 0
Points base bytes p token =
    (pre : List ℕ) × (post : List ℕ) × (bytes ≡ pre ++ (c_string token ++ post))
    × (p + length (c_string token ++ post) ≡ base)

-- The addresses lead to the strings, in order.
abbrev pub AllPoint : ℕ → List ℕ → List ℕ → List (List ℕ) → Type 0
AllPoint base bytes [] [] = Unit
AllPoint base bytes [] (t ∷ ts) = ⊥
AllPoint base bytes (p ∷ ps) [] = ⊥
AllPoint base bytes (p ∷ ps) (t ∷ ts) = Points base bytes p t × AllPoint base bytes ps ts

abbrev pub strings_size : List (List ℕ) → ℕ
strings_size [] = 0
strings_size (t ∷ ts) = length (c_string t) + strings_size ts

pub AllPoint-push :
    (base : ℕ) (bytes new : List ℕ) (ps : List ℕ) (ts : List (List ℕ))
    → AllPoint base bytes ps ts
    → AllPoint base (new ++ bytes) ps ts
AllPoint-push base bytes new [] [] h = tt
AllPoint-push base bytes new [] (t ∷ ts) h = h
AllPoint-push base bytes new (p ∷ ps) [] h = h
AllPoint-push base bytes new (p ∷ ps) (t ∷ ts) h =
    let (pre, post, e, d) = h.0 in
    (
      (new ++ pre, post, ap (λ xs. new ++ xs) e ∙ sym (append_assoc new pre _), d),
      AllPoint-push base bytes new ps ts h.1,
    )

pub AllPoint-snoc :
    (base : ℕ) (bytes : List ℕ) (ps : List ℕ) (ts : List (List ℕ)) (p : ℕ) (t : List ℕ)
    → AllPoint base bytes ps ts
    → Points base bytes p t
    → AllPoint base bytes (ps ++ p ∷ []) (ts ++ t ∷ [])
AllPoint-snoc base bytes [] [] p t h k = (k, tt)
AllPoint-snoc base bytes [] (u ∷ ts) p t h k = absurd h
AllPoint-snoc base bytes (q ∷ ps) [] p t h k = absurd h
AllPoint-snoc base bytes (q ∷ ps) (u ∷ ts) p t h k = (h.0, AllPoint-snoc base bytes ps ts p t h.1 k)

pub AllPoint-length :
    (base : ℕ) (bytes : List ℕ) (ps : List ℕ) (ts : List (List ℕ))
    → AllPoint base bytes ps ts
    → length ps ≡ length ts
AllPoint-length base bytes [] [] h = refl
AllPoint-length base bytes [] (t ∷ ts) h = absurd h
AllPoint-length base bytes (p ∷ ps) [] h = absurd h
AllPoint-length base bytes (p ∷ ps) (t ∷ ts) h = ap suc (AllPoint-length base bytes ps ts h.1)

-- The bytes reach from the stack pointer to `base`.
abbrev pub Reaches : ℕ → Stack → Type 0
Reaches base s = s.esp + length s.bytes ≡ base

pub push-esp :
    (base : ℕ) (new : List ℕ) (s : Stack)
    → base < 2 ^ 32
    → Reaches base s
    → length new ≤ s.esp
    → (push new s).esp + length new ≡ s.esp
unfolding push
push-esp base new s fits h room = omega (arith, h)

pub push-Reaches :
    (base : ℕ) (new : List ℕ) (s : Stack)
    → base < 2 ^ 32
    → Reaches base s
    → length new ≤ s.esp
    → Reaches base (push new s)
unfolding push
push-Reaches base new s fits h room = omega (arith, h, length-append new s.bytes)
