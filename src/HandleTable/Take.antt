-- ===== src/HandleTable/Take.antt =====
-- Removing a handle: `take` and `close`.
use mathlib.Core.Option.{some-injective}
use archipelago.Prelude.{
  ℕ, ◌+◌, ◌-◌, ◌≤◌, ◌%◌, ◌^◌, ◌≡◌, ◌≢◌, refl, sym, ap, ◌∙◌, inl, inr, true, false, Option, none,
  some, List, ◌∷◌, arith, ◌==◌, subst, Bool-cases, ==_iff, Result, ok, err, if◌then◌else◌, is_some,
  get_elem?, set, get_elem?-set_ne, get_elem?-set_self, get_elem?-lt,
}
use archipelago.Prelude.Errc.{handle_invalid}
use archipelago.Object.{Object}
use archipelago.HandleTable.{
  HandleId, HandleEntry, HandleTable, VerifiedHandle, id_eq, emptied, take, max_generation,
}
use archipelago.HandleTable.FreeList.{Chain-set, Chain-cons, Chain-NotIn, live-set_empty}
use archipelago.Prelude.{NotIn}
use archipelago.Prelude.{All-set, All-get}
use archipelago.HandleTable.Invariant.{IsSound, Inv}
use archipelago.HandleTable.View.{view, lookup_cases, Found, view-empty}
use archipelago.HandleTable.Stale.{Stale, Keeps}

-- The table after a handle was removed: only that id lost its meaning, and it is stale from now on.
pub record Removed (t : HandleTable) (fl : List ℕ) (id : HandleId) (t' : HandleTable) : Type 0 where
  pub effect : (j : HandleId) → view t' j ≡ (if id_eq id j then none else view t j)
  pub keeps : Keeps t fl t'
  pub closed : Stale t' keeps.list id

module _ (t : HandleTable) (fl : List ℕ) (id : HandleId) (e : HandleEntry) (o : Object)
    (v : Inv t fl) (f : Found t id e o) where
  in_range : e.generation ≤ max_generation
  in_range = (All-get IsSound t.entries id.index v.sound f.slot).1

  off_list : NotIn id.index fl
  off_list = Chain-NotIn t.entries t.free_head fl id.index v.chain f.slot f.object

  slot-set : (e' : HandleEntry) → get_elem? (set t.entries id.index e') id.index ≡ some e'
  slot-set e' = get_elem?-set_self t.entries id.index e' (get_elem?-lt t.entries id.index f.slot)

  -- Another stale id stays stale when this slot is emptied.
  empty-Stale :
      (e' : HandleEntry) (fl' : List ℕ) (count : ℕ) (head : Option ℕ) (j : HandleId)
      → e.generation ≤ e'.generation
      → ((i : ℕ) → i ≢ id.index → NotIn i fl → NotIn i fl')
      → Stale t fl j
      → Stale
          (record { entries = set t.entries id.index e'; count = count; free_head = head })
          fl'
          j
  empty-Stale e' fl' count head j grows keep (x, g, h) = elim (Bool-cases (id.index == j.index)) [
    | inl here ↦
        let p : id.index ≡ j.index = (==_iff _ _).0 here in
        let same : x ≡ e = some-injective _ _ (sym g ∙ ap (get_elem? t.entries) (sym p) ∙ f.slot) in
        let gen : x.generation ≡ e.generation = ap (λ y. y.generation) same in
        (
          e',
          subst (λ k. get_elem? (set t.entries id.index e') k ≡ some e') p (slot-set e'),
          elim h [
            | inl later ↦ inl (omega arith)
            | inr r ↦ absurd (ground (arith, ap (λ y. y.object) same, r.2, f.object))
          ],
        )
    | inr there ↦
        let ne : id.index ≢ j.index = λ p. ground arith in
        (
          x,
          get_elem?-set_ne t.entries id.index j.index e' ne ∙ g,
          elim h [
            | inl later ↦ inl later
            | inr r ↦ inr (r.0, r.1, r.2, keep j.index (λ p. ne (sym p)) r.3)
          ],
        )
  ]

  -- The slot as `take` leaves it when its generation is the last.
  abbrev retired : HandleEntry
  retired = record e { object = none; strong = none; rights = 0; next_free = none }

  -- And otherwise.
  abbrev recycled : HandleEntry
  recycled = record e {
    object = none;
    strong = none;
    rights = 0;
    generation = (e.generation + 1) % 2 ^ 32;
    next_free = t.free_head;
  }

  was_live : is_some e.object ≡ true
  was_live = rw f.object

  retire-Removed :
      e.generation ≡ max_generation
      → Removed t fl id (record {
        entries = set t.entries id.index retired;
        count = t.count - 1;
        free_head = t.free_head;
      })
  retire-Removed last = record {
    effect = λ j. view-empty t.entries id j e retired f.slot f.generation refl;
    keeps = record {
      list = fl;
      inv = record {
        chain = Chain-set t.entries t.free_head fl id.index retired off_list v.chain;
        distinct = v.distinct;
        counted =
            omega
              (arith, v.counted, live-set_empty e retired t.entries id.index f.slot was_live refl);
        sound = All-set IsSound t.entries id.index retired v.sound (refl, in_range);
      };
      stale =
          λ j s. empty-Stale retired fl (t.count - 1) t.free_head j (omega arith) (λ i n m. m) s;
    };
    closed = (retired, slot-set retired, inr (f.generation, last, refl, off_list));
  }

  recycle-Removed :
      (e.generation == max_generation) ≡ false
      → Removed t fl id (record {
        entries = set t.entries id.index recycled;
        count = t.count - 1;
        free_head = some id.index;
      })
  recycle-Removed more =
      let ne : e.generation ≢ max_generation = λ p. ground arith in
      let next : (e.generation + 1) % 2 ^ 32 ≡ e.generation + 1 = omega (arith, in_range) in
      record {
        effect = λ j. view-empty t.entries id j e recycled f.slot f.generation refl;
        keeps = record {
          list = id.index ∷ fl;
          inv = record {
            chain =
                Chain-cons t.entries t.free_head fl id.index e recycled off_list v.chain f.slot refl
                  refl;
            distinct = (off_list, v.distinct);
            counted = omega (
              arith,
              v.counted,
              live-set_empty e recycled t.entries id.index f.slot was_live refl,
            );
            sound =
                All-set IsSound t.entries id.index recycled v.sound (refl, omega (arith, in_range));
          };
          stale = λ j s.
              empty-Stale recycled (id.index ∷ fl) (t.count - 1) (some id.index) j (omega arith)
                (λ i n m. (n, m)) s;
        };
        closed = (recycled, slot-set recycled, inl (omega (arith, f.generation)));
      }

-- Whether `take` succeeds, and what it hands out and leaves.
pub data TakeOutcome (t : HandleTable) (fl : List ℕ) (id : HandleId)
    (out : Result VerifiedHandle × HandleTable) : Type 0 where
  missing : view t id ≡ none → out ≡ (err handle_invalid, t) → TakeOutcome t fl id out
  taken :
      (o : Object) (rights : ℕ)
      → view t id ≡ some (o, rights)
      → out.0 ≡ ok (record { object = some o; rights = rights })
      → Removed t fl id out.1
      → TakeOutcome t fl id out

-- On a table in order, `take` removes exactly the handle it is given and hands out its object and rights; it fails, and
-- changes nothing, exactly when the id names nothing.
pub take-outcome :
    (t : HandleTable) (fl : List ℕ) (id : HandleId) → Inv t fl → TakeOutcome t fl id (take t id)
unfolding take emptied
take-outcome t fl id v = elim (lookup_cases t id) [
  | inl (absent, unnamed) ↦ missing unnamed (rw (absent, take))
  | inr (e, o, f) ↦
      let strong : e.strong ≡ some o =
        (All-get IsSound t.entries id.index v.sound f.slot).0 ∙ f.object in
      elim (Bool-cases (e.generation == max_generation)) [
        | inl last ↦ taken o e.rights f.named (rw (f.found, take) (rw strong)) (
            rw (f.found, take)
              (rw (last, emptied) (retire-Removed t fl id e o v f ((==_iff _ _).0 last))))
        | inr more ↦
            taken o e.rights f.named (rw (f.found, take) (rw strong))
              (rw (f.found, take) (rw (more, emptied) (recycle-Removed t fl id e o v f more)))
      ]
]
