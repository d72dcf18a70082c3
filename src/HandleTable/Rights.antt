-- ===== src/HandleTable/Rights.antt =====
-- What a handle lets its holder do: `verify`, and why `duplicate` never adds a right.
use archipelago.Prelude.{
  ℕ, ◌≡◌, ◌≢◌, ap, inl, inr, Bool, true, false, not, ◌&&◌, Option, none, some, List, arith, ◌==◌,
  Bool-cases, ==_iff, Result, ok, err, bit_and, if◌then◌else◌, subst, is_ok,
}
use archipelago.Prelude.Bits.{bit_and-of_masked}
use archipelago.Prelude.Errc.{handle_invalid, rights_violation, wrong_type}
use archipelago.Object.{Object, right_duplicate}
use archipelago.Object.Registry.{TypeRegistry}
use archipelago.Object.TypeIds.{invalid}
use archipelago.HandleTable.{
  HandleId, HandleTable, HandleEntry, VerifiedHandle, create_handle, duplicate, verify,
  lookup_entry, id_eq,
}
use archipelago.HandleTable.Invariant.{Inv}
use archipelago.HandleTable.View.{view, lookup_cases, Found}
use archipelago.HandleTable.Create.{CreateOutcome, created, refused, create_handle-outcome}

-- The checks in their order, on what an id names.
abbrev pub checked : Option (Object × ℕ) → ℕ → ℕ → Result VerifiedHandle
checked none required expected = err handle_invalid
checked (some (o, rights)) required expected =
    if not (expected == invalid) && not (o.type_id == expected)
    then err wrong_type
    else if bit_and rights required == required
    then ok (record { object = some o; rights = rights })
    else err rights_violation

-- `verify` makes these checks on the handle that the id names, and reports the first that fails.
pub verify-view :
    (t : HandleTable) (id : HandleId) (required expected : ℕ)
    → verify t id required expected ≡ checked (view t id) required expected
unfolding verify
verify-view t id required expected = elim (lookup_cases t id) [
  | inl (absent, unnamed) ↦ rw (absent, verify) (rw unnamed)
  | inr (e, o, f) ↦ rw (f.found, verify) (rw (f.object, verify) (rw f.named))
]

-- A duplicate passes only checks that its source passes.
checked-masked :
    (o : Object) (rights mask required expected : ℕ)
    → is_ok (checked (some (o, bit_and rights mask)) required expected) ≡ true
    → is_ok (checked (some (o, rights)) required expected) ≡ true
checked-masked o rights mask required expected h =
    elim (Bool-cases (bit_and (bit_and rights mask) required == required)) [
      | inl passes ↦
          let p = bit_and-of_masked rights mask required ((==_iff _ _).0 passes) in
          ground (arith, p)
      | inr fails ↦ ground arith
    ]

-- What a successful `duplicate` says of its source and its result.
pub record Duplicated (t : HandleTable) (source : HandleId) (mask : ℕ) (id : HandleId)
    (t' : HandleTable) : Type 0 where
  pub object : Object
  pub rights : ℕ
  pub held : view t source ≡ some (object, rights)
  pub allowed : bit_and rights right_duplicate ≢ 0
  pub new : view t id ≡ none
  pub effect :
      (j : HandleId)
      → view t' j ≡ (if id_eq id j then some (object, bit_and rights mask) else view t j)
  pub weaker :
      (required expected : ℕ)
      → is_ok (checked (some (object, bit_and rights mask)) required expected) ≡ true
      → is_ok (verify t source required expected) ≡ true

module _ (room : ℕ → Bool) (reg : TypeRegistry) (t : HandleTable) (fl : List ℕ) (source : HandleId)
    (mask : ℕ) (v : Inv t fl) where
  duplicate-eq :
      {e : HandleEntry} {o : Object}
      → Found t source e o
      → (bit_and e.rights right_duplicate == 0) ≡ false
      → duplicate room reg t source mask ≡ create_handle room reg t (some o) (bit_and e.rights mask)
  unfolding duplicate
  duplicate-eq f p = rw (f.found, duplicate) (rw (p, duplicate) (rw f.object))

  duplicate-refused :
      {e : HandleEntry} {o : Object}
      → Found t source e o
      → (bit_and e.rights right_duplicate == 0) ≡ true
      → (duplicate room reg t source mask).0 ≡ err rights_violation
  unfolding duplicate
  duplicate-refused f p = rw (f.found, duplicate) (rw (p, duplicate))

  duplicate-missing :
      lookup_entry t source ≡ none → (duplicate room reg t source mask).0 ≡ err handle_invalid
  unfolding duplicate
  duplicate-missing h = rw (h, duplicate)

  -- On a table in order, a new handle made by `duplicate` names its source's object with no right that the source lacks,
  -- the source carried the right to be duplicated, and no other handle changed.
  pub duplicate-Duplicated :
      (id : HandleId)
      → (duplicate room reg t source mask).0 ≡ ok id
      → Duplicated t source mask id (duplicate room reg t source mask).1
  duplicate-Duplicated id success = elim (lookup_cases t source) [
    | inl (absent, unnamed) ↦ absurd (cc (duplicate-missing absent))
    | inr (e, o, f) ↦ elim (Bool-cases (bit_and e.rights right_duplicate == 0)) [
      | inl barred ↦ absurd (cc (duplicate-refused f barred))
      | inr may ↦
          go e o f may (create_handle room reg t (some o) (bit_and e.rights mask))
            (duplicate-eq f may)
            (create_handle-outcome room reg t fl (some o) (bit_and e.rights mask) v)
    ]
  ]
    where
      go :
          (e : HandleEntry) (o : Object) (f : Found t source e o)
          (may : (bit_and e.rights right_duplicate == 0) ≡ false)
          (out : Result HandleId × HandleTable)
          → duplicate room reg t source mask ≡ out
          → CreateOutcome reg t fl (some o) (bit_and e.rights mask) out
          → Duplicated t source mask id (duplicate room reg t source mask).1
      go e o f may out p (refused why d r) = absurd (cc (ap (λ x. x.0) p, r.result))
      go e o f may out p (created o' same a c) =
          let same_id : c.id ≡ id = ground (arith, ap (λ x. x.0) p, c.result, success) in
          let same_object : o' ≡ o = ground arith in
          record {
            object = o;
            rights = e.rights;
            held = f.named;
            allowed = λ z. ground arith;
            new = subst (λ i. view t i ≡ none) same_id c.new;
            effect = λ j. rw (p, ← same_id, ← same_object) (c.effect j);
            weaker = λ required expected h.
                rw (verify-view, f.named) (checked-masked o e.rights mask required expected h);
          }
