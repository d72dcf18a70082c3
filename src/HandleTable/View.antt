-- ===== src/HandleTable/View.antt =====
-- What a handle table means to its clients: which handle ids name which object, with which rights.
use archipelago.Prelude.{
  ℕ, zero, suc, ◌≡◌, refl, sym, ap, ◌∙◌, ◌⊎◌, inl, inr, Option, none, some, List, [], ◌∷◌, ◌++◌,
  arith, ◌==◌, if◌then◌else◌, Bool-cases, Option-cases, get_elem?, set, replicate, get_elem?-set,
  ==_iff,
}
use archipelago.Object.{Object}
use archipelago.HandleTable.{HandleId, HandleEntry, HandleTable, fresh_entry, lookup_entry, id_eq}
use archipelago.HandleTable.Invariant.{contents}

abbrev pub slot_view : Option HandleEntry → ℕ → Option (Object × ℕ)
slot_view none g = none
slot_view (some e) g =
    if e.generation == g then elim e.object [ none ↦ none | some o ↦ some (o, e.rights) ] else none

-- The object and the rights that a handle id names.
abbrev pub view : HandleTable → HandleId → Option (Object × ℕ)
view t id = slot_view (get_elem? t.entries id.index) id.generation

-- A found entry, with what the view says of it.
pub record Found (t : HandleTable) (id : HandleId) (e : HandleEntry) (o : Object) : Type 0 where
  pub found : lookup_entry t id ≡ some e
  pub slot : get_elem? t.entries id.index ≡ some e
  pub object : e.object ≡ some o
  pub generation : e.generation ≡ id.generation
  pub named : view t id ≡ some (o, e.rights)

-- `lookup_entry` finds exactly what the view names.
pub lookup_cases :
    (t : HandleTable) (id : HandleId)
    → ((lookup_entry t id ≡ none) × (view t id ≡ none))
      ⊎ ((e : HandleEntry) × (o : Object) × Found t id e o)
unfolding lookup_entry
lookup_cases t id = elim (Option-cases (get_elem? t.entries id.index)) [
  | inl gone ↦ inl (ground arith, ground arith)
  | inr (e, g) ↦ elim (Option-cases e.object) [
    | inl dead ↦ inl (ground arith, ground arith)
    | inr (o, l) ↦ elim (Bool-cases (e.generation == id.generation)) [
      | inr other ↦ inl (ground arith, ground arith)
      | inl same ↦ inr (
        e,
        o,
        record {
          found = ground arith;
          slot = g;
          object = l;
          generation = (==_iff _ _).0 same;
          named = ground arith;
        },
      )
    ]
  ]
]

pub slot_view-contents :
    (es : List HandleEntry) (i g : ℕ)
    → slot_view (get_elem? (contents es) i) g ≡ slot_view (get_elem? es i) g
slot_view-contents [] i g = refl
slot_view-contents (x ∷ es) zero g = refl
slot_view-contents (x ∷ es) (suc i) g = slot_view-contents es i g

-- The links do not matter to the view.
pub view_of_same :
    (es fs : List HandleEntry) (i g : ℕ)
    → contents fs ≡ contents es
    → slot_view (get_elem? fs i) g ≡ slot_view (get_elem? es i) g
view_of_same es fs i g c =
    sym (slot_view-contents fs i g)
    ∙ ap (λ cs. slot_view (get_elem? cs i) g) c
    ∙ slot_view-contents es i g

slot_view-fresh : (k i g : ℕ) → slot_view (get_elem? (replicate k fresh_entry) i) g ≡ none
slot_view-fresh zero i g = refl
slot_view-fresh (suc k) zero g = ground arith
slot_view-fresh (suc k) (suc i) g = slot_view-fresh k i g

-- Fresh slots at the end name nothing.
pub slot_view-append :
    (es : List HandleEntry) (k i g : ℕ)
    → slot_view (get_elem? (es ++ replicate k fresh_entry) i) g ≡ slot_view (get_elem? es i) g
slot_view-append [] k i g = slot_view-fresh k i g
slot_view-append (x ∷ es) k zero g = refl
slot_view-append (x ∷ es) k (suc i) g = slot_view-append es k i g

-- The view after a dead slot comes alive.
pub view-claim :
    (es : List HandleEntry) (i : ℕ) (e e' : HandleEntry) (o : Object) (j : HandleId)
    → get_elem? es i ≡ some e
    → e.object ≡ none
    → e'.object ≡ some o
    → e'.generation ≡ e.generation
    → slot_view (get_elem? (set es i e') j.index) j.generation ≡ (
        if id_eq (record { index = i; generation = e.generation }) j
        then some (o, e'.rights)
        else slot_view (get_elem? es j.index) j.generation)
unfolding id_eq
view-claim es i e e' o j g d l s = elim (Bool-cases (i == j.index)) [
  | inl here ↦
      let p : i ≡ j.index = (==_iff _ _).0 here in
      ground (arith, get_elem?-set es i j.index e' g, ap (get_elem? es) p)
  | inr there ↦ ground (arith, get_elem?-set es i j.index e' g)
]

-- The view after a live slot is emptied.
pub view-empty :
    (es : List HandleEntry) (id j : HandleId) (e e' : HandleEntry)
    → get_elem? es id.index ≡ some e
    → e.generation ≡ id.generation
    → e'.object ≡ none
    → slot_view (get_elem? (set es id.index e') j.index) j.generation
      ≡ (if id_eq id j then none else slot_view (get_elem? es j.index) j.generation)
unfolding id_eq
view-empty es id j e e' g s d = elim (Bool-cases (id.index == j.index)) [
  | inl here ↦
      let p : id.index ≡ j.index = (==_iff _ _).0 here in
      ground (arith, get_elem?-set es id.index j.index e' g, ap (get_elem? es) p)
  | inr there ↦ ground (arith, get_elem?-set es id.index j.index e' g)
]
