-- ===== src/Lockdep/Found.antt =====
-- A path that `path_exists` finds is one.
use archipelago.Prelude.{
  ℕ, zero, suc, ◌-◌, ◌≡◌, refl, sym, ap, ◌∙◌, subst, arith, Bool, true, false, List, [], ◌∷◌, ◌==◌,
  get_elem?, set, Bool-cases, Option-cases, inl, inr,
}
use archipelago.Lockdep.{EdgeRecord, try_edges, path_exists}
use archipelago.Lockdep.Paths.{Edge, Reaches}

module _ (es : List EdgeRecord) (goal : ℕ) where
  -- A path that was found is one.
  module _ (search : ℕ → List Bool → Bool × List Bool)
      (sound : (x : ℕ) (v : List Bool) → (search x v).0 ≡ true → Reaches es x goal) (from : ℕ) where
    tried_found :
        (left : List EdgeRecord) (v : List Bool)
        → ((x y : ℕ) → Edge x y left → Edge x y es)
        → (try_edges search from left v).0 ≡ true
        → Reaches es from goal
    unfolding try_edges
    tried_found [] v inside h = absurd (cc h)
    tried_found (e ∷ left) v inside h =
        let later : (x y : ℕ) → Edge x y left → Edge x y es =
          λ x y d. inside x y (Edge.there e left d) in
        elim (Bool-cases (e.from == from)) [
          | inr other ↦
              let skip : try_edges search from (e ∷ left) v ≡ try_edges search from left v =
                rw (other, try_edges) refl in
              tried_found left v later (ap (λ (o : Bool × List Bool). o.0) (sym skip) ∙ h)
          | inl mine ↦ elim (Bool-cases (search e.to v).0) [
            | inl found ↦
                let f : e.from ≡ from = ground (arith, mine) in
                subst (λ x. Reaches es x goal) f
                  (Reaches.step e.from e.to goal (inside e.from e.to (Edge.here left))
                    (sound e.to v found))
            | inr missed ↦
                let go : try_edges search from (e ∷ left) v
                    ≡ try_edges search from left (search e.to v).1 =
                  rw (mine, try_edges) (rw (missed, try_edges) refl) in
                tried_found left (search e.to v).1 later
                  (ap (λ (o : Bool × List Bool). o.0) (sym go) ∙ h)
          ]
        ]

  pub path_exists-found :
      (fuel x : ℕ) (v : List Bool) → (path_exists fuel es goal x v).0 ≡ true → Reaches es x goal
  unfolding path_exists
  path_exists-found zero x v h = absurd (cc h)
  path_exists-found (suc fuel) x v h = elim (Bool-cases (x == goal)) [
    | inl arrived ↦
        let e : x ≡ goal = ground (arith, arrived) in
        subst (λ y. Reaches es y goal) (sym e) (Reaches.done goal)
    | inr apart ↦ elim (Option-cases (get_elem? v (x - 1))) [
      | inl outside ↦
          let e : path_exists (suc fuel) es goal x v ≡ (false, v) =
            rw (apart, path_exists) (rw (outside, path_exists) refl) in
          let z : false ≡ true = ap (λ (o : Bool × List Bool). o.0) (sym e) ∙ h in absurd (cc z)
      | inr (true, seen) ↦
          let e : path_exists (suc fuel) es goal x v ≡ (false, v) =
            rw (apart, path_exists) (rw (seen, path_exists) refl) in
          let z : false ≡ true = ap (λ (o : Bool × List Bool). o.0) (sym e) ∙ h in absurd (cc z)
      | inr (false, fresh) ↦
          let e : path_exists (suc fuel) es goal x v
              ≡ try_edges (path_exists fuel es goal) x es (set v (x - 1) true) =
            rw (apart, path_exists) (rw (fresh, path_exists) refl) in
          tried_found (path_exists fuel es goal) (path_exists-found fuel) x es (set v (x - 1) true)
            (λ y z d. d) (ap (λ (o : Bool × List Bool). o.0) (sym e) ∙ h)
    ]
  ]
