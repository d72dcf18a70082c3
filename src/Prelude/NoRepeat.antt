-- ===== src/Prelude/NoRepeat.antt =====
-- Lists of numbers without repetition.
use Prim.Native.Nat.{ℕ}
use mathlib.Core.Path.{sym}
use mathlib.Core.Logic.{◌≢◌}
use mathlib.Core.List.{List, [], ◌∷◌, ◌++◌}
use archipelago.Prelude.Every.{All}

abbrev pub NotIn : ℕ → List ℕ → Type 0
NotIn i [] = Unit {0}
NotIn i (j ∷ js) = (i ≢ j) × NotIn i js

abbrev pub Distinct : List ℕ → Type 0
Distinct [] = Unit {0}
Distinct (i ∷ is) = NotIn i is × Distinct is

pub NotIn-append : (i : ℕ) (xs ys : List ℕ) → NotIn i xs → NotIn i ys → NotIn i (xs ++ ys)
NotIn-append i [] ys a b = b
NotIn-append i (x ∷ xs) ys a b = (a.0, NotIn-append i xs ys a.1 b)

pub append-NotIn : (i : ℕ) (xs ys : List ℕ) → NotIn i (xs ++ ys) → NotIn i xs × NotIn i ys
append-NotIn i [] ys n = (tt, n)
append-NotIn i (x ∷ xs) ys n = let (a, b) = append-NotIn i xs ys n.1 in ((n.0, a), b)

pub append-Distinct : (xs ys : List ℕ) → Distinct (xs ++ ys) → Distinct xs × Distinct ys
append-Distinct [] ys d = (tt, d)
append-Distinct (x ∷ xs) ys d =
    let (a, b) = append-Distinct xs ys d.1 in (((append-NotIn x xs ys d.0).0, a), b)

-- An element that is left out occurs nowhere else.
pub Distinct-remove :
    (i : ℕ) (xs ys : List ℕ) → Distinct (xs ++ i ∷ ys) → NotIn i (xs ++ ys) × Distinct (xs ++ ys)
Distinct-remove i [] ys d = d
Distinct-remove i (x ∷ xs) ys d =
    let (a, b) = Distinct-remove i xs ys d.1 in
    let (l, r) = append-NotIn x xs (i ∷ ys) d.0 in
    ((λ e. r.0 (sym e), a), (NotIn-append x xs ys l r.1, b))

pub Distinct-insert :
    (i : ℕ) (xs ys : List ℕ) → NotIn i (xs ++ ys) → Distinct (xs ++ ys) → Distinct (xs ++ i ∷ ys)
Distinct-insert i [] ys n d = (n, d)
Distinct-insert i (x ∷ xs) ys n d =
    let (l, r) = append-NotIn x xs ys d.0 in
    (NotIn-append x xs (i ∷ ys) l (λ e. n.0 (sym e), r), Distinct-insert i xs ys n.1 d.1)

pub append-All {ℓ ℓ'} :
    {A : Type ℓ} (P : A → Type ℓ') (xs ys : List A) → All P (xs ++ ys) → All P xs × All P ys
append-All P [] ys a = (tt, a)
append-All P (x ∷ xs) ys a = let (l, r) = append-All P xs ys a.1 in ((a.0, l), r)
