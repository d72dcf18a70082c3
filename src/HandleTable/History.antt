-- ===== src/HandleTable/History.antt =====
-- Sequences of calls on one handle table.
use archipelago.Prelude.{
  ℕ, ◌≡◌, refl, sym, inl, inr, Bool, Option, none, List, [], ◌∷◌, arith, ◌==◌, Bool-cases,
  Option-cases, Result, ◌≢◌, bit_and, subst,
}
use archipelago.Object.{Object, right_duplicate}
use archipelago.Object.Registry.{TypeRegistry}
use archipelago.HandleTable.{
  HandleId, HandleTable, VerifiedHandle, empty_table, insert, duplicate, take, close, clear,
  lookup_entry,
}
use archipelago.HandleTable.Invariant.{Inv}
use archipelago.HandleTable.View.{view}
use archipelago.HandleTable.Stale.{Stale, Stale-view, Keeps, Keeps-refl}
use archipelago.HandleTable.Create.{CreateOutcome, created, refused, create_handle-outcome}
use archipelago.HandleTable.Take.{TakeOutcome, missing, taken, take-outcome}
use archipelago.HandleTable.Clear.{clear-Cleared}

-- A call that changes the table, with its arguments and what the heap answers.
pub data Call : Type 0 where
  inserts : (ℕ → Bool) → Option Object → ℕ → Call
  duplicates : (ℕ → Bool) → HandleId → ℕ → Call
  takes : HandleId → Call
  closes : HandleId → Call
  clears : Call

module _ (reg : TypeRegistry) where
  unfoldable pub step : HandleTable → Call → HandleTable
  step t (inserts room object rights) = (insert room reg t object rights).1
  step t (duplicates room source mask) = (duplicate room reg t source mask).1
  step t (takes id) = (take t id).1
  step t (closes id) = (close t id).1
  step t clears = clear t

  unfoldable pub run : HandleTable → List Call → HandleTable
  run t [] = t
  run t (c ∷ cs) = run (step t c) cs

create-Keeps :
    {reg : TypeRegistry} {t : HandleTable} {fl : List ℕ} {object : Option Object} {rights : ℕ}
    {out : Result HandleId × HandleTable}
    → CreateOutcome reg t fl object rights out
    → Keeps t fl out.1
create-Keeps (created o e a c) = c.keeps
create-Keeps (refused e d r) = r.keeps

pub duplicate-Keeps :
    (room : ℕ → Bool) (reg : TypeRegistry) (t : HandleTable) (fl : List ℕ) (source : HandleId)
    (mask : ℕ)
    → Inv t fl
    → Keeps t fl (duplicate room reg t source mask).1
unfolding duplicate
duplicate-Keeps room reg t fl source mask v = elim (Option-cases (lookup_entry t source)) [
  | inl gone ↦ rw (gone, duplicate) (Keeps-refl t fl v)
  | inr (e, found) ↦ elim (Bool-cases (bit_and e.rights right_duplicate == 0)) [
    | inl barred ↦ rw (found, duplicate) (rw (barred, duplicate) (Keeps-refl t fl v))
    | inr allowed ↦
        rw (found, duplicate)
          (rw (allowed, duplicate)
            (create-Keeps (create_handle-outcome room reg t fl e.object (bit_and e.rights mask) v)))
  ]
]

take-Keeps : (t : HandleTable) (fl : List ℕ) (id : HandleId) → Inv t fl → Keeps t fl (take t id).1
take-Keeps t fl id v = go (take t id) (take-outcome t fl id v)
  where
    go : (out : Result VerifiedHandle × HandleTable) → TakeOutcome t fl id out → Keeps t fl out.1
    go out (missing n e) = subst (λ o. Keeps t fl o.1) (sym e) (Keeps-refl t fl v)
    go out (taken o r n e removed) = removed.keeps

close-take : (t : HandleTable) (id : HandleId) → (close t id).1 ≡ (take t id).1
unfolding close
close-take t id = ground arith

module _ (reg : TypeRegistry) where
  step-Keeps : (t : HandleTable) (fl : List ℕ) (c : Call) → Inv t fl → Keeps t fl (step reg t c)
  unfolding step insert
  step-Keeps t fl (inserts room object rights) v =
      create-Keeps (create_handle-outcome room reg t fl object rights v)
  step-Keeps t fl (duplicates room source mask) v = duplicate-Keeps room reg t fl source mask v
  step-Keeps t fl (takes id) v = take-Keeps t fl id v
  step-Keeps t fl (closes id) v = subst (Keeps t fl) (sym (close-take t id)) (take-Keeps t fl id v)
  step-Keeps t fl clears v = (clear-Cleared t fl v).keeps

  -- Any calls, in any order, keep the invariant of a table in order, and keep every stale id stale.
  pub run-Keeps :
      (t : HandleTable) (fl : List ℕ) (cs : List Call) → Inv t fl → Keeps t fl (run reg t cs)
  unfolding run
  run-Keeps t fl [] v = Keeps-refl t fl v
  run-Keeps t fl (c ∷ cs) v =
      let first = step-Keeps t fl c v in
      let rest = run-Keeps (step reg t c) first.list cs first.inv in
      record { list = rest.list; inv = rest.inv; stale = λ id s. rest.stale id (first.stale id s) }

pub empty-Inv : Inv empty_table []
empty-Inv = record { chain = refl; distinct = tt; counted = refl; sound = tt }

take-Stale :
    (t : HandleTable) (fl : List ℕ) (id : HandleId)
    → Inv t fl
    → view t id ≢ none
    → (k : Keeps t fl (take t id).1) × Stale (take t id).1 k.list id
take-Stale t fl id v held = go (take t id) (take-outcome t fl id v)
  where
    go :
        (out : Result VerifiedHandle × HandleTable)
        → TakeOutcome t fl id out
        → (k : Keeps t fl out.1) × Stale out.1 k.list id
    go out (missing n e) = absurd (held n)
    go out (taken o r n e removed) = (removed.keeps, removed.closed)

-- From an empty table, after any calls, closing a handle that is good at that time, and any calls
-- after that: the closed id names nothing.
pub closed_forever :
    (reg : TypeRegistry) (before after : List Call) (id : HandleId)
    → view (run reg empty_table before) id ≢ none
    → view (run reg (close (run reg empty_table before) id).1 after) id ≡ none
closed_forever reg before after id held =
    let t = run reg empty_table before in
    let old = run-Keeps reg empty_table [] before empty-Inv in
    let (k, gone) = take-Stale t old.list id old.inv held in
    let later = run-Keeps reg (take t id).1 k.list after k.inv in
    subst (λ u. view (run reg u after) id ≡ none) (sym (close-take t id))
      (Stale-view (run reg (take t id).1 after) later.list id (later.stale id gone))
