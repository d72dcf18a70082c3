-- ===== src/Lockdep/Acyclic.antt =====
-- The order of locks that was learned has no cycle, whatever is acquired, released, allocated and freed.
use archipelago.Prelude.{
  ℕ, zero, suc, ◌-◌, ◌≤◌, ◌<◌, ◌≡◌, refl, subst, arith, Bool, true, false, ◌&&◌, ◌||◌, Option, none,
  some, List, [], ◌∷◌, ◌==◌, length, length-replicate, get_elem?, replicate, Bool-cases, inl, inr,
  All,
}
use mathlib.Core.Option.{some-injective}
use archipelago.Lockdep.{EdgeRecord, Tables, path_exists, search_fuel, has_edge, learn_edge}
use archipelago.Lockdep.Paths.{Edge, Reaches, Acyclic, Acyclic-insert}
use archipelago.Lockdep.Found.{path_exists-found}
use archipelago.Lockdep.Search.{unmarked, path_exists-none}

abbrev pub EdgeOk : EdgeRecord → Type 0
EdgeOk e = (0 < e.from) × (e.from ≤ 128) × (0 < e.to) × (e.to ≤ 128)

pub record Inv (t : Tables) : Type 0 where
  pub acyclic : Acyclic t.edges
  pub ends : All EdgeOk t.edges
  pub room : length t.edges ≤ 512

pub Edge-Nodes :
    (x y : ℕ) (es : List EdgeRecord) → Edge x y es → All EdgeOk es → (0 < y) × (y ≤ 128)
Edge-Nodes x y _ (Edge.here _) all = (all.0.2, all.0.3)
Edge-Nodes x y _ (Edge.there e es h) all = Edge-Nodes x y es h all.1

nothing_marked : (n i : ℕ) → ¬ (get_elem? (replicate n false) i ≡ some true)
nothing_marked zero i h = cc h
nothing_marked (suc n) zero h = cc (some-injective _ _ h)
nothing_marked (suc n) (suc i) h = nothing_marked n i h

unmarked-replicate : (n : ℕ) → unmarked (replicate n false) ≡ n
unmarked-replicate zero = refl
unmarked-replicate (suc n) = omega (arith, unmarked-replicate n)

or_right : (a b : Bool) → (a || b) ≡ true → a ≡ false → b ≡ true
or_right true b h e = absurd (cc e)
or_right false b h e = h

has_edge-Edge : (x y : ℕ) (es : List EdgeRecord) → has_edge x y es ≡ true → Edge x y es
unfolding has_edge
has_edge-Edge x y [] h = absurd (cc h)
has_edge-Edge x y (e ∷ es) h = elim (Bool-cases ((e.from == x) && (e.to == y))) [
  | inl this ↦
      let f : e.from ≡ x = ground (arith, this) in
      let g : e.to ≡ y = ground (arith, this) in
      subst (λ a. Edge a y (e ∷ es)) f (subst (λ b. Edge e.from b (e ∷ es)) g (Edge.here es))
  | inr other ↦ Edge.there e es (has_edge-Edge x y es (or_right _ _ h other))
]

-- The outcomes of `learn_edge`.
pub data Learned (t : Tables) (from to : ℕ) (out : Option Tables) : Type 0 where
  known : out ≡ some t → (0 < from → 0 < to → Edge from to t.edges) → Learned t from to out
  added :
      (t' : Tables)
      → out ≡ some t'
      → t'.edges ≡ record { from = from; to = to } ∷ t.edges
      → Inv t'
      → Learned t from to out
  cycle : out ≡ none → Reaches t.edges to from → Learned t from to out
  capacity : out ≡ none → length t.edges ≡ 512 → Learned t from to out

-- With edges in order and both identities real, `learn_edge` keeps what it knows, adds the edge and stays without a cycle,
-- or stops, because there is a path back or no room.
pub learn_edge-Learned :
    (t : Tables) (from to : ℕ)
    → Inv t
    → from ≤ 128
    → to ≤ 128
    → Learned t from to (learn_edge t from to)
unfolding learn_edge
learn_edge-Learned t from to v hf ht =
    let search = path_exists search_fuel t.edges from to (replicate 128 false) in
    elim (Bool-cases ((from == 0) || (to == 0))) [
      | inl unnamed ↦
          Learned.known (rw (unnamed, learn_edge) refl)
            (λ pf pt. absurd (ground (arith, unnamed, pf, pt)))
      | inr named ↦ elim (Bool-cases (has_edge from to t.edges)) [
        | inl old ↦
            Learned.known (rw (named, learn_edge) (rw (old, learn_edge) refl))
              (λ pf pt. has_edge-Edge from to t.edges old)
        | inr new ↦ elim (Bool-cases search.0) [
          | inl found ↦
              Learned.cycle
                (rw (named, learn_edge) (rw (new, learn_edge) (rw (found, learn_edge) refl)))
                (path_exists-found t.edges from search_fuel to (replicate 128 false) found)
          | inr missed ↦ elim (Bool-cases (length t.edges == 512)) [
            | inl full ↦
                Learned.capacity
                  (rw (named, learn_edge)
                    (rw (new, learn_edge) (rw (missed, learn_edge) (rw (full, learn_edge) refl))))
                  (ground (arith, full))
            | inr room ↦
                let pf : (0 < from) × (0 < to) = ground (arith, named) in
                let apart =
                  path_exists-none t.edges from 128 (λ x y e. Edge-Nodes x y t.edges e v.ends) pf.0
                    search_fuel to (replicate 128 false) pf.1 ht (length-replicate 128 false)
                    (omega (arith, unmarked-replicate 128)) (λ y. nothing_marked 128 (y - 1))
                    missed in
                Learned.added (record t { edges = record { from = from; to = to } ∷ t.edges })
                  (rw (named, learn_edge)
                    (rw (new, learn_edge) (rw (missed, learn_edge) (rw (room, learn_edge) refl))))
                  refl
                  (record {
                    acyclic = Acyclic-insert t.edges from to v.acyclic apart;
                    ends = ((pf.0, hf, pf.1, ht), v.ends);
                    room = ground (arith, room, v.room);
                  })
          ]
        ]
      ]
    ]
