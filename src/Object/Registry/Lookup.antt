-- ===== src/Object/Registry/Lookup.antt =====
-- obj/type_registry.cpp: what a registration makes findable, and what the instance counters count.
use Prim.Native.String.{String}
use archipelago.Prelude.{
  ℕ, suc, ◌+◌, ◌-◌, ◌%◌, ◌^◌, ◌<◌, ◌≤◌, ◌≡◌, ◌≢◌, refl, sym, ap, ◌∙◌, subst, arith, false, none,
  some, List, [], ◌∷◌, ◌++◌, ◌==◌, if◌then◌else◌, length, get_elem?, set, ok, Option-cases,
  Bool-cases, inl, inr, get_elem?_of_lt, get_elem?-set, length-set,
}
use archipelago.Object.Registry.{
  TypeDescriptor, TypeRegistry, max_types, find_type, find_index, is_duplicate, lookup,
  register_type, index_for_id, bump_count, on_object_created, on_object_destroyed, live_count,
}

find_type_absent :
    (id : ℕ) (name : String) (ts : List TypeDescriptor)
    → is_duplicate id name ts ≡ false
    → find_type id ts ≡ none
unfolding find_type is_duplicate
find_type_absent id name [] h = refl
find_type_absent id name (t ∷ ts) h = ground (arith, find_type_absent id name ts)

find_type-append :
    (id : ℕ) (ts : List TypeDescriptor) (d : TypeDescriptor)
    → find_type id (ts ++ d ∷ [])
      ≡ elim (find_type id ts) [ none ↦ if d.id == id then some d else none | some t ↦ some t ]
unfolding find_type
find_type-append id [] d = ground arith
find_type-append id (t ∷ ts) d = ground (arith, find_type-append id ts d)

-- After a type was registered, its id finds its descriptor and every other id finds what it found
-- before; there was room for it.
pub register_type-lookup :
    (r : TypeRegistry) (d : TypeDescriptor) (index id : ℕ)
    → (register_type r d).0 ≡ ok index
    → (lookup (register_type r d).1 id ≡ (if d.id == id then some d else lookup r id))
      × (index < max_types)
unfolding register_type lookup
register_type-lookup r d index id h =
    let e = find_type-append id r.types d in
    elim (Bool-cases (is_duplicate d.id d.name r.types)) [
      | inl twice ↦ absurd (ground arith)
      | inr once ↦ elim (Bool-cases (d.id == id)) [
        | inl own ↦
            let same : d.id ≡ id = ground arith in
            let absent : find_type id r.types ≡ none =
              subst (λ i. find_type i r.types ≡ none) same
                (find_type_absent d.id d.name r.types once) in
            (ground (arith, e, absent), ground arith)
        | inr other ↦ elim (Option-cases (find_type id r.types)) [
          | inl unknown ↦ (ground (arith, e, unknown), ground arith)
          | inr (t, known) ↦ (ground (arith, e, known), ground arith)
        ]
      ]
    ]

-- `find_index` finds a position whose descriptor has that id.
find_index-get :
    (id i k : ℕ) (ts : List TypeDescriptor)
    → find_index id i ts ≡ some k
    → (i ≤ k)
      × (k < i + length ts)
      × (t : TypeDescriptor) × (get_elem? ts (k - i) ≡ some t)
      × (t.id ≡ id)
unfolding find_index
find_index-get id i k [] h = absurd (cc)
find_index-get id i k (t ∷ ts) h = elim (Bool-cases (t.id == id)) [
  | inl here ↦
      let first : k ≡ i = ground arith in
      (
        omega (arith, first),
        omega (arith, first),
        t,
        ap (get_elem? (t ∷ ts)) {y = 0} (omega (arith, first)),
        ground arith,
      )
  | inr later ↦
      let (low, high, u, at, same) = find_index-get id (i + 1) k ts (ground arith) in
      (
        omega arith,
        omega arith,
        u,
        ap (get_elem? (t ∷ ts)) {y = suc (k - (i + 1))} (omega (arith, low)) ∙ at,
        same,
      )
]

-- Two ids have two positions.
index_for_id-same :
    (r : TypeRegistry) (id id' k : ℕ)
    → index_for_id r id ≡ some k
    → index_for_id r id' ≡ some k
    → id ≡ id'
unfolding index_for_id
index_for_id-same r id id' k h h' =
    let (l, u, t, g, e) = find_index-get id 0 k r.types h in
    let (l', u', t', g', e') = find_index-get id' 0 k r.types h' in
    let same : t ≡ t' = ground arith in sym e ∙ ap (λ d. d.id) same ∙ e'

-- Where counting finds a registered id, its counter changes by `f` and no other does.
bump_count-live_count :
    (f : ℕ → ℕ) (r : TypeRegistry) (id id' k : ℕ)
    → index_for_id r id ≡ some k
    → length r.types ≤ length r.instance_counts
    → live_count (bump_count f r id) id'
      ≡ (if id == id' then f (live_count r id') else live_count r id')
unfolding live_count bump_count index_for_id
bump_count-live_count f r id id' k h w =
    let (low, high, t, at, same) = find_index-get id 0 k r.types h in
    let (n, g) = get_elem?_of_lt r.instance_counts k (omega arith) in
    let bumped : bump_count f r id ≡ record r { instance_counts = set r.instance_counts k (f n) } =
      ground (arith, h, g) in
    rw bumped (elim (Option-cases (find_index id' 0 r.types)) [
      | inl unknown ↦ elim (Bool-cases (id == id')) [
        | inl own ↦
            let e : id ≡ id' = ground arith in
            absurd (cc (ap (λ i. find_index i 0 r.types) e, h, unknown))
        | inr other ↦ ground (arith, unknown)
      ]
      | inr (k', known) ↦
          let after = get_elem?-set r.instance_counts k k' (f n) g in
          elim (Bool-cases (id == id')) [
            | inl own ↦
                let e : id ≡ id' = ground arith in
                let kk : some k ≡ some k' = sym h ∙ ap (λ i. find_index i 0 r.types) e ∙ known in
                ground (arith, known, after, kk, g)
            | inr other ↦
                let apart : k ≢ k' = λ p.
                  absurd
                    (ground (arith, index_for_id-same r id id' k h (known ∙ ap some (sym p)))) in
                ground (arith, known, after, apart)
          ]
    ])

bump_count-types :
    (f : ℕ → ℕ) (r : TypeRegistry) (id : ℕ)
    → ((bump_count f r id).types ≡ r.types)
      × (length (bump_count f r id).instance_counts ≡ length r.instance_counts)
unfolding bump_count
bump_count-types f r id = elim (Option-cases (find_index id 0 r.types)) [
  | inl unknown ↦ (ground (arith, unknown), ground (arith, unknown))
  | inr (k, known) ↦ elim (Option-cases (get_elem? r.instance_counts k)) [
    | inl outside ↦ (ground (arith, known, outside), ground (arith, known, outside))
    | inr (n, g) ↦
        (ground (arith, known, g), ground (arith, known, g, length-set r.instance_counts k (f n)))
  ]
]

-- Creating an object of a registered type adds one to the live count of that type, on 32 bits, and
-- changes no other; destroying one takes it back. Every type has a counter.
pub created-live_count :
    (r : TypeRegistry) (id id' k : ℕ)
    → index_for_id r id ≡ some k
    → length r.types ≤ length r.instance_counts
    → live_count r id' < 2 ^ 32
    → (live_count (on_object_created r id) id'
        ≡ (if id == id' then (live_count r id' + 1) % 2 ^ 32 else live_count r id'))
      × (live_count (on_object_destroyed (on_object_created r id) id) id' ≡ live_count r id')
unfolding on_object_created on_object_destroyed index_for_id
created-live_count r id id' k h w small =
    let up = bump_count-live_count (λ n. (n + 1) % 2 ^ 32) r id id' k h w in
    let (types, counts) = bump_count-types (λ n. (n + 1) % 2 ^ 32) r id in
    let raised : TypeRegistry = bump_count (λ n. (n + 1) % 2 ^ 32) r id in
    let still : index_for_id raised id ≡ some k = ap (find_index id 0) types ∙ h in
    let wide : length raised.types ≤ length raised.instance_counts =
      omega (arith, ap length types, counts) in
    let down = bump_count-live_count (λ n. (n + 2 ^ 32 - 1) % 2 ^ 32) raised id id' k still wide in
    (up, ground (arith, up, down))
