-- ===== src/Lockdep/Release.antt =====
-- `release_identity`: which edges and records go.
use archipelago.Prelude.{
  ℕ, ◌≤◌, ◌<◌, ◌≡◌, ◌≢◌, ◌⊎◌, refl, sym, ap, ◌∙◌, subst, arith, Bool, ◌||◌, List, [], ◌∷◌, ◌==◌,
  if◌then◌else◌, length, ltb, not, Bool-cases, inl, inr, All, Result, ok, fault,
}
use archipelago.Lockdep.{EdgeRecord, Tables, no_lock, put_lock, drop_edges, release_identity}
use archipelago.Lockdep.Paths.{Edge, Reaches-grows}
use archipelago.Lockdep.Acyclic.{EdgeOk, Inv}

-- What `drop_edges` leaves.
record Dropped (identity : ℕ) (es out : List EdgeRecord) : Type 0 where
  less : (x y : ℕ) → Edge x y out → Edge x y es
  clear : (x y : ℕ) → Edge x y out → (x ≢ identity) × (y ≢ identity)
  rest : (x y : ℕ) → x ≢ identity → y ≢ identity → Edge x y es → Edge x y out
  shorter : length out ≤ length es
  ends : All EdgeOk es → All EdgeOk out

cases :
    (e : EdgeRecord) (es : List EdgeRecord) (x y : ℕ)
    → Edge x y (e ∷ es)
    → ((e.from ≡ x) × (e.to ≡ y)) ⊎ Edge x y es
cases _ _ _ _ (Edge.here _) = inl (refl, refl)
cases _ _ _ _ (Edge.there _ _ h) = inr h

drop_edges-Dropped :
    (identity : ℕ) (es : List EdgeRecord) → Dropped identity es (drop_edges identity es)
unfolding drop_edges
drop_edges-Dropped identity [] = record {
  less = λ x y d. d;
  clear = λ x y d. elim d [ ];
  rest = λ x y n m d. d;
  shorter = omega arith;
  ends = λ a. tt;
}
drop_edges-Dropped identity (e ∷ es) =
    let d = drop_edges-Dropped identity es in
    let choose : Bool → List EdgeRecord =
      λ b. if b then drop_edges identity es else e ∷ drop_edges identity es in
    elim (Bool-cases ((e.from == identity) || (e.to == identity))) [
      | inl named ↦ subst (Dropped identity (e ∷ es)) (sym (ap choose named)) (record {
        less = λ x y f. Edge.there e es (d.less x y f);
        clear = d.clear;
        rest = λ x y n m f. elim (cases e es x y f) [
          | inl (p, q) ↦ absurd (ground (arith, named, n, m, p, q))
          | inr f' ↦ d.rest x y n m f'
        ];
        shorter = omega (arith, d.shorter);
        ends = λ a. d.ends a.1;
      })
      | inr other ↦
          let nf : e.from ≢ identity = ground (arith, other) in
          let nt : e.to ≢ identity = ground (arith, other) in
          subst (Dropped identity (e ∷ es)) (sym (ap choose other)) (record {
            less = λ x y f. elim (cases e (drop_edges identity es) x y f) [
              | inl (p, q) ↦
                  subst (λ a. Edge a y (e ∷ es)) p
                    (subst (λ b. Edge e.from b (e ∷ es)) q (Edge.here es))
              | inr f' ↦ Edge.there e es (d.less x y f')
            ];
            clear = λ x y f. elim (cases e (drop_edges identity es) x y f) [
              | inl (p, q) ↦ ((λ h. nf (p ∙ h)), (λ h. nt (q ∙ h)))
              | inr f' ↦ d.clear x y f'
            ];
            rest = λ x y n m f. elim (cases e es x y f) [
              | inl (p, q) ↦
                  subst (λ a. Edge a y (e ∷ drop_edges identity es)) p
                    (subst (λ b. Edge e.from b (e ∷ drop_edges identity es)) q
                      (Edge.here (drop_edges identity es)))
              | inr f' ↦ Edge.there e (drop_edges identity es) (d.rest x y n m f')
            ];
            shorter = omega (arith, d.shorter);
            ends = λ a. (a.0, d.ends a.1);
          })
    ]

-- What the tables know after an identity was released.
pub record Forgotten (t t' : Tables) (identity : ℕ) : Type 0 where
  pub inv : Inv t'
  pub clear : (x y : ℕ) → Edge x y t'.edges → (x ≢ identity) × (y ≢ identity)
  pub rest : (x y : ℕ) → x ≢ identity → y ≢ identity → Edge x y t.edges → Edge x y t'.edges
  pub known : (x y : ℕ) → Edge x y t'.edges → Edge x y t.edges
  pub next : t'.free_list ≡ identity ∷ t.free_list
  pub cleared : t'.locks identity ≡ no_lock
  pub others : (i : ℕ) → i ≢ identity → t'.locks i ≡ t.locks i

-- The outcomes of `release_identity`.
pub data ReleaseOutcome (t : Tables) (identity : ℕ) (out : Result Tables) : Type 0 where
  unchanged : identity ≡ 0 → out ≡ ok t → ReleaseOutcome t identity out
  forgotten :
      (t' : Tables)
      → out ≡ ok t'
      → (0 < identity) × (identity ≤ 128) × (length t.free_list < 128)
      → Forgotten t t' identity
      → ReleaseOutcome t identity out
  overrun :
      out ≡ fault → (128 < identity) ⊎ (128 ≤ length t.free_list) → ReleaseOutcome t identity out

-- From edges in order, releasing an identity from 1 to 128 while the free list has room leaves edges in
-- order and without a cycle: those that do not name the identity, and no others. The identity comes next
-- off the free list and its record is empty; the other records stay. Releasing 0 changes nothing. A larger
-- identity, or a free list of 128 entries, makes the code write outside of an array.
pub release_identity-Forgotten :
    (t : Tables) (identity : ℕ) → Inv t → ReleaseOutcome t identity (release_identity t identity)
unfolding release_identity put_lock
release_identity-Forgotten t identity v = elim (Bool-cases (identity == 0)) [
  | inl zero' ↦ ReleaseOutcome.unchanged (ground (arith, zero')) (rw (zero', release_identity) refl)
  | inr named ↦ elim (Bool-cases (ltb 128 identity || not (ltb (length t.free_list) 128))) [
    | inl out ↦
        ReleaseOutcome.overrun (rw (named, release_identity) (rw (out, release_identity) refl))
          (elim (Bool-cases (ltb 128 identity)) [
            | inl above ↦ inl (ground (arith, above))
            | inr below ↦ inr (ground (arith, out, below))
          ])
    | inr inside ↦
        let d = drop_edges-Dropped identity t.edges in
        let t' : Tables = record t {
          edges = drop_edges identity t.edges;
          locks = put_lock t.locks identity no_lock;
          free_list = identity ∷ t.free_list;
        } in
        ReleaseOutcome.forgotten t'
          (rw (named, release_identity) (rw (inside, release_identity) refl))
          (ground (arith, named), ground (arith, inside), ground (arith, inside))
          (record {
            inv = record {
              acyclic = λ x y e p.
                  v.acyclic x y (d.less x y e)
                    (Reaches-grows (drop_edges identity t.edges) t.edges d.less y x p);
              ends = d.ends v.ends;
              room = omega (arith, d.shorter, v.room);
            };
            clear = d.clear;
            rest = d.rest;
            known = d.less;
            next = refl;
            cleared = ground arith;
            others = λ i n. ground (arith, n);
          })
  ]
]
