-- ===== src/Lockdep/Paths.antt =====
-- Paths of the graph of lock orders, and what a new edge adds to them.
use archipelago.Prelude.{ℕ, ◌≡◌, ◌⊎◌, refl, sym, subst, List, [], ◌∷◌, inl, inr}
use archipelago.Lockdep.{EdgeRecord}

pub data Edge (x y : ℕ) : List EdgeRecord → Type 0 where
  here : (es : List EdgeRecord) → Edge x y (record { from = x; to = y } ∷ es)
  there : (e : EdgeRecord) (es : List EdgeRecord) → Edge x y es → Edge x y (e ∷ es)

pub data Reaches (es : List EdgeRecord) : ℕ → ℕ → Type 0 where
  done : (x : ℕ) → Reaches es x x
  step : (x y z : ℕ) → Edge x y es → Reaches es y z → Reaches es x z

-- No lock is ordered before itself.
abbrev pub Acyclic : List EdgeRecord → Type 0
Acyclic es = (x y : ℕ) → Edge x y es → ¬ Reaches es y x

Reaches-trans :
    (es : List EdgeRecord) (x y z : ℕ) → Reaches es x y → Reaches es y z → Reaches es x z
Reaches-trans es _ _ z (Reaches.done x) q = q
Reaches-trans es _ _ z (Reaches.step x y w e p) q =
    Reaches.step x y z e (Reaches-trans es y w z p q)

-- The ends of an edge at the front.
front :
    (es : List EdgeRecord) (a b x y : ℕ)
    → Edge x y (record { from = a; to = b } ∷ es)
    → ((x ≡ a) × (y ≡ b)) ⊎ Edge x y es
front es a b _ _ (Edge.here _) = inl (refl, refl)
front es a b x y (Edge.there _ _ e) = inr e

-- A path in the larger graph is one of the smaller graph, or goes through the new edge.
through :
    (es : List EdgeRecord) (a b x z : ℕ)
    → Reaches (record { from = a; to = b } ∷ es) x z
    → Reaches es x z ⊎ (Reaches es x a × Reaches es b z)
through es a b _ _ (Reaches.done x) = inl (Reaches.done x)
through es a b _ _ (Reaches.step x y z e p) = elim (front es a b x y e) [
  | inl (ex, ey) ↦ elim (through es a b y z p) [
    | inl q ↦
        inr
          (subst (λ w. Reaches es w a) (sym ex) (Reaches.done a), subst (λ w. Reaches es w z) ey q)
    | inr (q, r) ↦ inr (subst (λ w. Reaches es w a) (sym ex) (Reaches.done a), r)
  ]
  | inr old ↦ elim (through es a b y z p) [
    | inl q ↦ inl (Reaches.step x y z old q)
    | inr (q, r) ↦ inr (Reaches.step x y a old q, r)
  ]
]

pub Acyclic-insert :
    (es : List EdgeRecord) (a b : ℕ)
    → Acyclic es
    → ¬ Reaches es b a
    → Acyclic (record { from = a; to = b } ∷ es)
Acyclic-insert es a b acyclic apart x y e p = elim (front es a b x y e) [
  | inl (ex, ey) ↦
      let p' =
        subst (λ w. Reaches (record { from = a; to = b } ∷ es) w a) ey
          (subst (λ w. Reaches (record { from = a; to = b } ∷ es) y w) ex p) in
      elim (through es a b b a p') [ inl q ↦ apart q | inr (q, r) ↦ apart q ]
  | inr old ↦ elim (through es a b y x p) [
    | inl q ↦ acyclic x y old q
    | inr (q, r) ↦ apart (Reaches-trans es b x a r (Reaches.step x y a old q))
  ]
]

-- More edges keep every path.
pub Reaches-grows :
    (es fs : List EdgeRecord)
    → ((x y : ℕ) → Edge x y es → Edge x y fs)
    → (x y : ℕ) → Reaches es x y
    → Reaches fs x y
Reaches-grows es fs g _ _ (Reaches.done x) = Reaches.done x
Reaches-grows es fs g _ _ (Reaches.step x y z e p) =
    Reaches.step x y z (g x y e) (Reaches-grows es fs g y z p)

pub Reaches-nil : (x y : ℕ) → Reaches [] x y → x ≡ y
Reaches-nil _ _ (Reaches.done x) = refl
Reaches-nil _ _ (Reaches.step x y z e p) = elim e [ ]
