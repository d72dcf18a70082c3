-- ===== src/HandleTable/Stale.antt =====
-- Handle ids that were closed: why none of them is ever good again.
use archipelago.Prelude.{ℕ, ◌<◌, ◌≡◌, ◌⊎◌, inl, inr, none, some, List, arith, get_elem?}
use archipelago.HandleTable.{HandleId, HandleEntry, HandleTable, max_generation}
use archipelago.Prelude.{NotIn}
use archipelago.HandleTable.Invariant.{Inv}
use archipelago.HandleTable.View.{view}

-- The slot has moved on to a later generation, or is retired at the last one.
abbrev pub Stale : HandleTable → List ℕ → HandleId → Type 0
Stale t fl id =
    (e : HandleEntry) × (get_elem? t.entries id.index ≡ some e)
    × ((id.generation < e.generation)
        ⊎ ((e.generation ≡ id.generation)
            × (e.generation ≡ max_generation)
            × (e.object ≡ none)
            × NotIn id.index fl))

-- A stale id names nothing.
pub Stale-view : (t : HandleTable) (fl : List ℕ) (id : HandleId) → Stale t fl id → view t id ≡ none
Stale-view t fl id (e, g, inl h) = ground arith
Stale-view t fl id (e, g, inr h) = ground arith

-- What each operation leaves: a table in order, in which every stale id is still stale.
pub record Keeps (t : HandleTable) (fl : List ℕ) (t' : HandleTable) : Type 0 where
  pub list : List ℕ
  pub inv : Inv t' list
  pub stale : (id : HandleId) → Stale t fl id → Stale t' list id

pub Keeps-refl : (t : HandleTable) (fl : List ℕ) → Inv t fl → Keeps t fl t
Keeps-refl t fl v = record { list = fl; inv = v; stale = λ id s. s }
