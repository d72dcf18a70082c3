-- ===== src/Prelude/Every.antt =====
-- A property of every element of a list.
use Prim.Native.Nat.{ℕ, zero, suc}
use mathlib.Core.Path.{◌≡◌, subst}
use mathlib.Core.List.{List, [], ◌∷◌, ◌++◌}
use mathlib.Core.Option.{some, some-injective}
use archipelago.Prelude.Lists.{get_elem?, set}

abbrev pub All {ℓ ℓ'} : {A : Type ℓ} → (A → Type ℓ') → List A → Type ℓ'
All P [] = Unit
All P (e ∷ es) = P e × All P es

pub All-set {ℓ ℓ'} :
    {A : Type ℓ} (P : A → Type ℓ') (es : List A) (i : ℕ) (e : A)
    → All P es
    → P e
    → All P (set es i e)
All-set P [] i e a p = tt
All-set P (x ∷ es) zero e a p = (p, a.1)
All-set P (x ∷ es) (suc i) e a p = (a.0, All-set P es i e a.1 p)

pub All-get {ℓ ℓ'} :
    {A : Type ℓ} (P : A → Type ℓ') (es : List A) (i : ℕ) {e : A}
    → All P es
    → get_elem? es i ≡ some e
    → P e
All-get P [] i a g = absurd (cc)
All-get P (x ∷ es) zero a g = subst P (some-injective _ _ g) a.0
All-get P (x ∷ es) (suc i) a g = All-get P es i a.1 g

pub All-append {ℓ ℓ'} :
    {A : Type ℓ} (P : A → Type ℓ') (es fs : List A) → All P es → All P fs → All P (es ++ fs)
All-append P [] fs a b = b
All-append P (x ∷ es) fs a b = (a.0, All-append P es fs a.1 b)
