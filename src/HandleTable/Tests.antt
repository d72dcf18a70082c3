-- ===== src/HandleTable/Tests.antt =====
-- The handle table on one object: the theorems at a concrete table.
use archipelago.Prelude.{
  ℕ, ◌≡◌, ◌≢◌, refl, arith, true, Bool, none, some, [], ◌∷◌, ok, replicate, ◌≤◌, ◌<◌, ◌^◌,
}
use archipelago.Object.{Object}
use archipelago.Object.Registry.{TypeRegistry, lookup, find_type}
use archipelago.HandleTable.{
  HandleId, HandleTable, empty_table, create_handle, duplicate, insert, take, close, clear, grow,
  verify, pack_handle, lookup_entry, claim, claim_slot, grow_push, grow_chain, chain_slot,
  unpack_handle, max_generation,
}
use archipelago.HandleTable.Stale.{Keeps}
use archipelago.HandleTable.View.{view}
use archipelago.HandleTable.Create.{CreateOutcome, create_handle-outcome}
use archipelago.HandleTable.Take.{TakeOutcome, take-outcome}
use archipelago.HandleTable.Clear.{Cleared, clear-Cleared}
use archipelago.HandleTable.Rights.{checked, verify-view, Duplicated, duplicate-Duplicated}
use archipelago.HandleTable.Packing.{unpack-pack}
use archipelago.HandleTable.History.{
  inserts, takes, clears, run, step, run-Keeps, empty-Inv, closed_forever,
}

abbrev registry : TypeRegistry
registry = record {
  types = record { id = 5; name = "channel"; valid_rights = 47; default_rights = 47 } ∷ [];
  instance_counts = replicate 64 0;
}

abbrev object : Object
object = record { id = 1; type_id = 5 }

abbrev always : ℕ → Bool
always n = true

abbrev first_id : HandleId
first_id = record { index = 0; generation = 0 }

abbrev busy : HandleTable
busy = run registry empty_table (inserts always (some object) 7 ∷ [])

abbrev busy_keeps : Keeps empty_table [] busy
busy_keeps = run-Keeps registry empty_table [] (inserts always (some object) 7 ∷ []) empty-Inv

first_lem : view busy first_id ≡ some (object, 7)
unfolding run step insert create_handle grow lookup find_type claim grow_push claim_slot grow_chain
    chain_slot
first_lem = refl

first_held : view busy first_id ≢ none
first_held = λ p. absurd (cc (first_lem, p))

closed_forever_example :
    view
      (run registry (close busy first_id).1 (inserts always (some object) 7 ∷ clears ∷ []))
      first_id
    ≡ none
closed_forever_example =
    closed_forever registry (inserts always (some object) 7 ∷ [])
      (inserts always (some object) 7 ∷ clears ∷ []) first_id first_held

run-Keeps_example :
    Keeps empty_table []
      (run registry empty_table (inserts always (some object) 7 ∷ takes first_id ∷ clears ∷ []))
run-Keeps_example =
    run-Keeps registry empty_table []
      (inserts always (some object) 7 ∷ takes first_id ∷ clears ∷ []) empty-Inv

take-outcome_example : TakeOutcome busy busy_keeps.list first_id (take busy first_id)
take-outcome_example = take-outcome busy busy_keeps.list first_id busy_keeps.inv

create_handle-outcome_example :
    CreateOutcome registry empty_table []
      (some object)
      7
      (create_handle always registry empty_table (some object) 7)
create_handle-outcome_example =
    create_handle-outcome always registry empty_table [] (some object) 7 empty-Inv

clear-Cleared_example : Cleared busy busy_keeps.list (clear busy)
clear-Cleared_example = clear-Cleared busy busy_keeps.list busy_keeps.inv

verify-view_example : verify busy first_id 3 5 ≡ checked (view busy first_id) 3 5
verify-view_example = verify-view busy first_id 3 5

copied : (duplicate always registry busy first_id 5).0 ≡ ok (record { index = 1; generation = 0 })
unfolding run step insert create_handle grow duplicate lookup_entry lookup find_type claim grow_push
    claim_slot grow_chain chain_slot
copied = refl

duplicate-Duplicated_example :
    Duplicated busy first_id 5
      (record { index = 1; generation = 0 })
      (duplicate always registry busy first_id 5).1
duplicate-Duplicated_example =
    duplicate-Duplicated always registry busy busy_keeps.list first_id 5 busy_keeps.inv
      (record { index = 1; generation = 0 }) copied

unpack-pack_example :
    (unpack_handle (pack_handle first_id) ≡ first_id)
    × (first_id.generation ≤ max_generation → pack_handle first_id < 2 ^ 63)
unpack-pack_example = unpack-pack first_id (omega arith) (omega arith)
