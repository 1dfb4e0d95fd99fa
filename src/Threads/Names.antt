-- ===== src/Threads/Names.antt =====
-- Lists of threads and their identifiers in Project 3/threads/thread.c, when one is added.
use comp_sys_pint_os.Base.{
  ℕ, ◌<◌, ◌≡◌, refl, ap, Bool, true, false, ◌==◌, if◌then◌else◌, List, [], ◌∷◌, ◌++◌, map, All,
  Lacks, In, update, arith, inl, inr, ==_ne,
}
use comp_sys_pint_os.Threads.{has_tid}

pub In-append-last : (t : ℕ) (ts : List ℕ) → In t (ts ++ t ∷ [])
In-append-last t [] = inl refl
In-append-last t (u ∷ ts) = inr (In-append-last t ts)

-- What is in a longer list, and is not its last element, is in the list.
pub In-unappend : (t u : ℕ) (ts : List ℕ) → (t == u) ≡ false → In u (ts ++ t ∷ []) → In u ts
In-unappend t u [] ne (inl e) = ground arith
In-unappend t u [] ne (inr m) = absurd m
In-unappend t u (x ∷ ts) ne (inl e) = inl e
In-unappend t u (x ∷ ts) ne (inr m) = inr (In-unappend t u ts ne m)

pub In-append : (t u : ℕ) (ts : List ℕ) → In t ts → In t (ts ++ u ∷ [])
In-append t u [] h = absurd h
In-append t u (x ∷ ts) (inl e) = inl e
In-append t u (x ∷ ts) (inr m) = inr (In-append t u ts m)

pub map-update : (f : ℕ → ℕ) (t n : ℕ) (ts : List ℕ) → Lacks t ts → map (update f t n) ts ≡ map f ts
map-update f t n [] h = refl
map-update f t n (u ∷ ts) h = rw (h.0, map-update f t n ts h.1) refl

pub map-append : (f : ℕ → ℕ) (t : ℕ) (ts : List ℕ) → map f (ts ++ t ∷ []) ≡ map f ts ++ f t ∷ []
map-append f t [] = refl
map-append f t (u ∷ ts) = ap (λ l. f u ∷ l) (map-append f t ts)

-- An identifier below which all of the list lie is that of none.
pub All-below :
    (f : ℕ → ℕ) (n : ℕ) (ts : List ℕ)
    → All (λ t. f t < n) ts
    → All (λ x. (x == n) ≡ false) (map f ts)
All-below f n [] h = tt
All-below f n (t ∷ ts) h = (==_ne (f t) n (λ e. omega (arith, e, h.0)), All-below f n ts h.1)

pub has_tid-append :
    (f : ℕ → ℕ) (t n : ℕ) (ts : List ℕ)
    → has_tid f n (ts ++ t ∷ []) ≡ (if f t == n then true else has_tid f n ts)
unfolding has_tid
has_tid-append f t n [] = refl
has_tid-append f t n (u ∷ ts) =
    rw (has_tid-append f t n ts) (swap (f u == n) (f t == n) (has_tid f n ts))
  where
    swap :
        (a b c : Bool)
        → (if a then true else (if b then true else c))
          ≡ (if b then true else (if a then true else c))
    swap true true c = refl
    swap true false c = refl
    swap false b c = refl

pub has_tid-update :
    (f : ℕ → ℕ) (t m n : ℕ) (ts : List ℕ)
    → Lacks t ts
    → has_tid (update f t m) n ts ≡ has_tid f n ts
unfolding has_tid
has_tid-update f t m n [] h = refl
has_tid-update f t m n (u ∷ ts) h = rw (h.0, has_tid-update f t m n ts h.1) refl
