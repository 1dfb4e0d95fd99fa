-- ===== src/Base/Members.antt =====
-- Lists of threads as sets: membership, absence and repetition.
use Prim.Native.Nat.{ℕ}
use mathlib.Core.Path.{◌≡◌, sym, subst}
use mathlib.Core.Logic.{◌⊎◌, inl, inr}
use mathlib.Core.Bool.{false}
use mathlib.Core.List.{List, [], ◌∷◌}
use comp_sys_pint_os.Base.Tests.{◌==◌}
use comp_sys_pint_os.Base.Lists.{All}

abbrev pub Lacks : ℕ → List ℕ → Type 0
Lacks t = All (λ u. (t == u) ≡ false)

abbrev pub IsDistinct : List ℕ → Type 0
IsDistinct [] = Unit
IsDistinct (t ∷ ts) = Lacks t ts × IsDistinct ts

abbrev pub In : ℕ → List ℕ → Type 0
In t [] = ⊥
In t (u ∷ us) = (t ≡ u) ⊎ In t us

pub All-In : (P : ℕ → Type 0) (t : ℕ) (ts : List ℕ) → All P ts → In t ts → P t
All-In P t (u ∷ us) h (inl e) = subst P (sym e) h.0
All-In P t (u ∷ us) h (inr m) = All-In P t us h.1 m
All-In P t [] h m = absurd m

pub All-map : (P Q : ℕ → Type 0) (ts : List ℕ) → ((t : ℕ) → P t → Q t) → All P ts → All Q ts
All-map P Q [] f h = tt
All-map P Q (t ∷ ts) f h = (f t h.0, All-map P Q ts f h.1)

pub All-zip :
    (P Q R : ℕ → Type 0) (ts : List ℕ)
    → ((t : ℕ) → P t → Q t → R t)
    → All P ts
    → All Q ts
    → All R ts
All-zip P Q R [] f h k = tt
All-zip P Q R (t ∷ ts) f h k = (f t h.0 k.0, All-zip P Q R ts f h.1 k.1)
