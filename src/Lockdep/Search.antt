-- ===== src/Lockdep/Search.antt =====
-- `path_exists` finds every path: what it visited when it finds none is closed under the edges.
use archipelago.Prelude.{
  ℕ, zero, suc, ◌+◌, ◌-◌, ◌≤◌, ◌<◌, ◌≡◌, ◌≢◌, ◌⊎◌, refl, sym, ap, ◌∙◌, subst, arith, Bool, true,
  false, some, List, [], ◌∷◌, ◌==◌, if◌then◌else◌, length, length-set, get_elem?, set,
  get_elem?-set_self, get_elem?-set_ne, get_elem?-lt, get_elem?_of_lt, Bool-cases, Option-cases,
  inl, inr,
}
use mathlib.Core.Option.{some-injective}
use archipelago.Lockdep.{EdgeRecord, try_edges, path_exists}
use archipelago.Lockdep.Paths.{Edge, Reaches}

abbrev pub Marked : List Bool → ℕ → Type 0
Marked v x = get_elem? v (x - 1) ≡ some true

-- How many identities were not visited.
abbrev pub unmarked : List Bool → ℕ
unmarked [] = 0
unmarked (b ∷ bs) = let rest = unmarked bs in if b then rest else rest + 1

unmarked-set :
    (v : List Bool) (i : ℕ) → get_elem? v i ≡ some false → unmarked (set v i true) + 1 ≡ unmarked v
unmarked-set [] i h = absurd (cc h)
unmarked-set (b ∷ bs) zero h = rw (some-injective _ _ h) refl
unmarked-set (true ∷ bs) (suc i) h = unmarked-set bs i h
unmarked-set (false ∷ bs) (suc i) h = omega (arith, unmarked-set bs i h)

module _ (es : List EdgeRecord) (goal : ℕ) where
  abbrev pub Nodes : ℕ → Type 0
  Nodes n = (x y : ℕ) → Edge x y es → (0 < y) × (y ≤ n)

  -- The successors of what was marked between `v` and `w` are marked in `w`.
  abbrev Closed : List Bool → List Bool → Type 0
  Closed v w = (x : ℕ) → 0 < x → Marked w x → Marked v x ⊎ ((y : ℕ) → Edge x y es → Marked w y)

  pub record Explored (v w : List Bool) : Type 0 where
    pub grows : (x : ℕ) → Marked v x → Marked w x
    pub same : length w ≡ length v
    pub fewer : unmarked w ≤ unmarked v
    pub avoids : ¬ Marked v goal → ¬ Marked w goal
    pub closed : Closed v w

  Explored-refl : (v : List Bool) → Explored v v
  Explored-refl v = record {
    grows = λ x h. h;
    same = refl;
    fewer = omega arith;
    avoids = λ h. h;
    closed = λ x pos h. inl h;
  }

  Explored-trans : (u v w : List Bool) → Explored u v → Explored v w → Explored u w
  Explored-trans u v w a b = record {
    grows = λ x h. b.grows x (a.grows x h);
    same = b.same ∙ a.same;
    fewer = omega (arith, a.fewer, b.fewer);
    avoids = λ h. b.avoids (a.avoids h);
    closed = λ x pos h. elim (b.closed x pos h) [
      | inr next ↦ inr next
      | inl m ↦ elim (a.closed x pos m) [
        | inl m' ↦ inl m'
        | inr next ↦ inr (λ y e. b.grows y (next y e))
      ]
    ];
  }

  -- What the calls of the loop are known to do.
  abbrev Searches : ℕ → ℕ → (ℕ → List Bool → Bool × List Bool) → Type 0
  Searches n fuel search =
      (x : ℕ) (v : List Bool)
      → 0 < x
      → x ≤ n
      → length v ≡ n
      → unmarked v < fuel
      → (search x v).0 ≡ false
      → Explored v (search x v).1 × Marked (search x v).1 x

  record Tried (from : ℕ) (left : List EdgeRecord) (v w : List Bool) : Type 0 where
    explored : Explored v w
    next : (y : ℕ) → Edge from y left → Marked w y

  edge-cons :
      (e : EdgeRecord) (left : List EdgeRecord) (x y : ℕ)
      → Edge x y (e ∷ left)
      → ((e.from ≡ x) × (e.to ≡ y)) ⊎ Edge x y left
  edge-cons _ _ _ _ (Edge.here _) = inl (refl, refl)
  edge-cons _ _ _ _ (Edge.there _ _ h) = inr h

  module _ (n fuel : ℕ) (nodes : Nodes n) (search : ℕ → List Bool → Bool × List Bool)
      (searches : Searches n fuel search) (from : ℕ) where
    try_skip :
        (e : EdgeRecord) (left : List EdgeRecord) (v : List Bool)
        → (e.from == from) ≡ false
        → try_edges search from (e ∷ left) v ≡ try_edges search from left v
    unfolding try_edges
    try_skip e left v h = rw (h, try_edges) refl

    try_next :
        (e : EdgeRecord) (left : List EdgeRecord) (v : List Bool)
        → (e.from == from) ≡ true
        → (search e.to v).0 ≡ false
        → try_edges search from (e ∷ left) v ≡ try_edges search from left (search e.to v).1
    unfolding try_edges
    try_next e left v h m = rw (h, try_edges) (rw (m, try_edges) refl)

    try_found :
        (e : EdgeRecord) (left : List EdgeRecord) (v : List Bool)
        → (e.from == from) ≡ true
        → (search e.to v).0 ≡ true
        → (try_edges search from (e ∷ left) v).0 ≡ true
    unfolding try_edges
    try_found e left v h m = rw (h, try_edges) (rw (m, try_edges) refl)

    tried :
        (left : List EdgeRecord) (v : List Bool)
        → ((x y : ℕ) → Edge x y left → Edge x y es)
        → length v ≡ n
        → unmarked v < fuel
        → (try_edges search from left v).0 ≡ false
        → Tried from left v (try_edges search from left v).1
    unfolding try_edges
    tried [] v inside len enough h = record { explored = Explored-refl v; next = λ y e. elim e [ ] }
    tried (e ∷ left) v inside len enough h =
        let later : (x y : ℕ) → Edge x y left → Edge x y es =
          λ x y d. inside x y (Edge.there e left d) in
        elim (Bool-cases (e.from == from)) [
          | inr other ↦
              let t =
                tried left v later len enough
                  (ap (λ (o : Bool × List Bool). o.0) (sym (try_skip e left v other)) ∙ h) in
              subst (λ (o : Bool × List Bool). Tried from (e ∷ left) v o.1)
                (sym (try_skip e left v other))
                (record {
                  explored = t.explored;
                  next = λ y d. elim (edge-cons e left from y d) [
                    | inl (f, g) ↦ absurd (ground (arith, other, f))
                    | inr d' ↦ t.next y d'
                  ];
                })
          | inl mine ↦ elim (Bool-cases (search e.to v).0) [
            | inl found ↦
                let z : true ≡ false = sym (try_found e left v mine found) ∙ h in absurd (cc z)
            | inr missed ↦
                let f : e.from ≡ from = ground (arith, mine) in
                let bound =
                  nodes from e.to
                    (inside from e.to (subst (λ x. Edge x e.to (e ∷ left)) f (Edge.here left))) in
                let (x, m) = searches e.to v bound.0 bound.1 len enough missed in
                let go = try_next e left v mine missed in
                let t =
                  tried left (search e.to v).1 later (x.same ∙ len) (omega (arith, x.fewer, enough))
                    (ap (λ (o : Bool × List Bool). o.0) (sym go) ∙ h) in
                subst (λ (o : Bool × List Bool). Tried from (e ∷ left) v o.1) (sym go)
                  (record {
                    explored = Explored-trans v (search e.to v).1 _ x t.explored;
                    next = λ y d. elim (edge-cons e left from y d) [
                      | inl (f', g) ↦ t.explored.grows y (subst (Marked (search e.to v).1) g m)
                      | inr d' ↦ t.next y d'
                    ];
                  })
          ]
        ]

  module _ (n : ℕ) (nodes : Nodes n) (positive : 0 < goal) where
    marks :
        (v : List Bool) (x y : ℕ) → x - 1 < length v → Marked v y → Marked (set v (x - 1) true) y
    marks v x y lt m = elim (Bool-cases (x - 1 == y - 1)) [
      | inl same ↦
          let e : x - 1 ≡ y - 1 = ground (arith, same) in
          subst (λ i. get_elem? (set v (x - 1) true) i ≡ some true) e
            (get_elem?-set_self v (x - 1) true lt)
      | inr other ↦
          let d : x - 1 ≢ y - 1 = ground (arith, other) in
          get_elem?-set_ne v (x - 1) (y - 1) true d ∙ m
    ]

    unmarks :
        (v : List Bool) (x y : ℕ)
        → 0 < x
        → 0 < y
        → x ≢ y
        → Marked (set v (x - 1) true) y
        → Marked v y
    unmarks v x y px py d m =
        let d' : x - 1 ≢ y - 1 = omega (arith, px, py, d) in
        sym (get_elem?-set_ne v (x - 1) (y - 1) true d') ∙ m

    -- A call that marks `x` and tries its edges.
    entered :
        (x : ℕ) (v w : List Bool)
        → 0 < x
        → x ≢ goal
        → get_elem? v (x - 1) ≡ some false
        → Tried x es (set v (x - 1) true) w
        → Explored v w × Marked w x
    entered x v w pos d fresh t =
        let lt = get_elem?-lt v (x - 1) fresh in
        (
          record {
            grows = λ y m. t.explored.grows y (marks v x y lt m);
            same = t.explored.same ∙ length-set v (x - 1) true;
            fewer = omega (arith, t.explored.fewer, unmarked-set v (x - 1) fresh);
            avoids = λ h. t.explored.avoids (λ m. h (unmarks v x goal pos positive d m));
            closed = λ y py m. elim (t.explored.closed y py m) [
              | inr next ↦ inr next
              | inl before ↦ elim (Bool-cases (x == y)) [
                | inl same ↦
                    let e : x ≡ y = ground (arith, same) in
                    inr (subst (λ u. (z : ℕ) → Edge u z es → Marked w z) e t.next)
                | inr other ↦
                    let d' : x ≢ y = ground (arith, other) in inl (unmarks v x y pos py d' before)
              ]
            ];
          },
          t.explored.grows x (get_elem?-set_self v (x - 1) true lt),
        )

    explore : (fuel : ℕ) → Searches n fuel (path_exists fuel es goal)
    unfolding path_exists
    explore zero x v pos le len enough h = absurd (omega (arith, enough))
    explore (suc fuel) x v pos le len enough h = elim (Bool-cases (x == goal)) [
      | inl arrived ↦
          let e : (path_exists (suc fuel) es goal x v).0 ≡ true = rw (arrived, path_exists) refl in
          let z : true ≡ false = sym e ∙ h in absurd (cc z)
      | inr apart ↦ elim (Option-cases (get_elem? v (x - 1))) [
        | inl outside ↦
            let (b, inside) = get_elem?_of_lt v (x - 1) (omega (arith, le, len, pos)) in
            absurd (cc (outside, inside))
        | inr (true, seen) ↦
            let e : path_exists (suc fuel) es goal x v ≡ (false, v) =
              rw (apart, path_exists) (rw (seen, path_exists) refl) in
            subst (λ (o : Bool × List Bool). Explored v o.1 × Marked o.1 x) (sym e)
              (Explored-refl v, seen)
        | inr (false, fresh) ↦
            let v' = set v (x - 1) true in
            let e : path_exists (suc fuel) es goal x v
                ≡ try_edges (path_exists fuel es goal) x es v' =
              rw (apart, path_exists) (rw (fresh, path_exists) refl) in
            let t =
              tried n fuel nodes (path_exists fuel es goal) (explore fuel) x es v' (λ y z d. d)
                (length-set v (x - 1) true ∙ len)
                (omega (arith, unmarked-set v (x - 1) fresh, enough))
                (ap (λ (o : Bool × List Bool). o.0) (sym e) ∙ h) in
            let d : x ≢ goal = ground (arith, apart) in
            subst (λ (o : Bool × List Bool). Explored v o.1 × Marked o.1 x) (sym e)
              (entered x v _ pos d fresh t)
      ]
    ]

    -- From a marked identity, a path stays among the marked ones.
    stays :
        (w : List Bool)
        → ((y : ℕ) → 0 < y → Marked w y → (z : ℕ) → Edge y z es → Marked w z)
        → (x z : ℕ) → Reaches es x z
        → 0 < x
        → Marked w x
        → Marked w z
    stays w next _ _ (Reaches.done x) pos m = m
    stays w next _ _ (Reaches.step x y z e p) pos m =
        stays w next y z p (nodes x y e).0 (next x pos m y e)

    -- A search that starts with nothing marked and finds no path shows that there is none.
    pub path_exists-none :
        (fuel : ℕ) (x : ℕ) (v : List Bool)
        → 0 < x
        → x ≤ n
        → length v ≡ n
        → unmarked v < fuel
        → ((y : ℕ) → ¬ Marked v y)
        → (path_exists fuel es goal x v).0 ≡ false
        → ¬ Reaches es x goal
    path_exists-none fuel x v pos le len enough empty h p =
        let (found, m) = explore fuel x v pos le len enough h in
        found.avoids (empty goal) (
          stays (path_exists fuel es goal x v).1
            (λ y py my. elim (found.closed y py my) [
              | inl before ↦ absurd (empty y before)
              | inr next ↦ next
            ])
            x goal p pos m)
