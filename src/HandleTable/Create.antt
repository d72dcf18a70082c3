-- ===== src/HandleTable/Create.antt =====
-- `create_handle` and `duplicate`: every outcome, with its reason.
use archipelago.Prelude.{
  ℕ, ◌≡◌, refl, inl, inr, Bool, false, Option, none, some, List, ◌==◌, Bool-cases, Option-cases,
  ==_iff, Result, err, bit_and, Errc,
}
use archipelago.Prelude.Errc.{null_argument, oom, wrong_type, rights_violation}
use archipelago.Object.{Object, not32}
use archipelago.Object.Registry.{TypeRegistry, TypeDescriptor, lookup}
use archipelago.HandleTable.{HandleId, HandleTable, create_handle}
use archipelago.HandleTable.Invariant.{Inv}
use archipelago.HandleTable.Stale.{Keeps-refl}
use archipelago.HandleTable.Claim.{Created, Refused, claim-outcome}

-- Why `create_handle` refuses.
pub data Denied (reg : TypeRegistry) (t : HandleTable) (rights : ℕ)
    : Option Object → Errc → Type 0 where
  no_object : Denied reg t rights none null_argument
  no_type : (o : Object) → lookup reg o.type_id ≡ none → Denied reg t rights (some o) wrong_type
  no_right :
      (o : Object) (d : TypeDescriptor)
      → lookup reg o.type_id ≡ some d
      → (bit_and rights (not32 d.valid_rights) == 0) ≡ false
      → Denied reg t rights (some o) rights_violation
  no_room : (o : Object) → t.free_head ≡ none → Denied reg t rights (some o) oom

-- An object with rights that its type allows.
abbrev pub Allowed : TypeRegistry → Object → ℕ → Type 0
Allowed reg o rights =
    (d : TypeDescriptor) × (lookup reg o.type_id ≡ some d)
    × (bit_and rights (not32 d.valid_rights) ≡ 0)

pub data CreateOutcome (reg : TypeRegistry) (t : HandleTable) (fl : List ℕ) (object : Option Object)
    (rights : ℕ) (out : Result HandleId × HandleTable) : Type 0 where
  created :
      (o : Object)
      → object ≡ some o
      → Allowed reg o rights
      → Created t fl o rights out
      → CreateOutcome reg t fl object rights out
  refused :
      (e : Errc)
      → Denied reg t rights object e
      → Refused t fl e out
      → CreateOutcome reg t fl object rights out

unchanged : (t : HandleTable) (fl : List ℕ) (e : Errc) → Inv t fl → Refused t fl e (err e, t)
unchanged t fl e v = record { result = refl; effect = λ j. refl; keeps = Keeps-refl t fl v }

-- On a table in order, `create_handle` either makes a new handle, for an object and rights within the type's contract,
-- or refuses for one of four reasons and changes no handle.
pub create_handle-outcome :
    (room : ℕ → Bool) (reg : TypeRegistry) (t : HandleTable) (fl : List ℕ) (object : Option Object)
    (rights : ℕ)
    → Inv t fl
    → CreateOutcome reg t fl object rights (create_handle room reg t object rights)
unfolding create_handle
create_handle-outcome room reg t fl none rights v =
    refused null_argument no_object (unchanged t fl null_argument v)
create_handle-outcome room reg t fl (some o) rights v = elim (Option-cases (lookup reg o.type_id)) [
  | inl missing ↦
      rw (missing, create_handle)
        (refused wrong_type (no_type o missing) (unchanged t fl wrong_type v))
  | inr (d, found) ↦ elim (Bool-cases (bit_and rights (not32 d.valid_rights) == 0)) [
    | inr outside ↦
        rw (found, outside, create_handle)
          (refused rights_violation (no_right o d found outside)
            (unchanged t fl rights_violation v))
    | inl inside ↦
        rw (found, inside, create_handle)
          (elim (claim-outcome room t o rights fl v) [
            | inl made ↦ created o refl (d, found, (==_iff _ _).0 inside) made
            | inr (failed, full) ↦ refused oom (no_room o full) failed
          ])
  ]
]
