-- ===== src/HandleTable/Clear.antt =====
-- `HandleTable::clear`: every handle is closed, and the free list is built anew.
use mathlib.Core.Option.{some-injective}
use archipelago.Prelude.{
  ℕ, zero, suc, ◌-◌, ◌≤◌, ◌≡◌, ◌≢◌, refl, sym, ap, ◌∙◌, inl, inr, true, Option, none, some, List,
  [], ◌∷◌, arith, subst, Bool-cases, is_some, get_elem?, get_elem?-lt, length,
}
use archipelago.HandleTable.{
  HandleId, HandleEntry, HandleTable, close_live, closed_entry, rebuild, clear, max_generation,
}
use archipelago.HandleTable.FreeList.{live}
use archipelago.Prelude.{All}
use archipelago.HandleTable.Invariant.{IsSound, Inv, forget, get-contents, get_of_contents}
use archipelago.HandleTable.Grow.{IsSound-of_same, live_of_same}
use archipelago.HandleTable.Rebuild.{
  IsDead, Ascending, Ascending-Distinct, IsIn, Rebuilt, rebuild-Rebuilt,
}
use archipelago.HandleTable.View.{view, slot_view, view_of_same}
use archipelago.HandleTable.Stale.{Stale, Keeps}

-- What becomes of an entry in the first loop.
abbrev Closes : HandleEntry → HandleEntry → Type 0
Closes x y = (x.generation ≤ y.generation) × (x.object ≡ none → y ≡ x)

pub record Closed (es : List HandleEntry) (count : ℕ) (out : List HandleEntry × ℕ) : Type 0 where
  pub dead : All IsDead out.0
  pub sound : All IsSound out.0
  pub counted : out.1 ≡ count - live es
  pub each :
      (i : ℕ) (x : HandleEntry)
      → get_elem? es i ≡ some x
      → (y : HandleEntry) × (get_elem? out.0 i ≡ some y) × Closes x y

closed_entry-Closes :
    (e : HandleEntry)
    → is_some e.object ≡ true
    → IsSound e
    → IsDead (closed_entry e) × IsSound (closed_entry e) × Closes e (closed_entry e)
unfolding closed_entry
closed_entry-Closes e l s = (refl, (refl, ground arith), (ground arith, λ d. absurd (ground arith)))

close_live-Closed :
    (es : List HandleEntry) (count : ℕ) → All IsSound es → Closed es count (close_live es count)
unfolding close_live
close_live-Closed [] count s = record {
  dead = tt;
  sound = tt;
  counted = omega arith;
  each = λ i x g. absurd (cc);
}
close_live-Closed (e ∷ es) count s = elim (Bool-cases (is_some e.object)) [
  | inl open_slot ↦
      let rest = close_live-Closed es (count - 1) s.1 in
      let head = closed_entry-Closes e open_slot s.0 in
      rw open_slot (record {
        dead = (head.0, rest.dead);
        sound = (head.1, rest.sound);
        counted = rw open_slot (omega (arith, rest.counted));
        each = elim [
          | zero ↦ λ x g. (
            closed_entry e,
            refl,
            subst (λ z. Closes z (closed_entry e)) (some-injective _ _ g) head.2,
          )
          | suc i ↦ λ x g. rest.each i x g
        ];
      })
  | inr dead ↦
      let rest = close_live-Closed es count s.1 in
      rw dead (record {
        dead = (ground arith, rest.dead);
        sound = (s.0, rest.sound);
        counted = rw dead rest.counted;
        each = elim [
          | zero ↦ λ x g.
              (e, refl, subst (λ z. Closes z e) (some-injective _ _ g) (omega arith, λ d. refl))
          | suc i ↦ λ x g. rest.each i x g
        ];
      })
]

-- A table after `clear`: no handle names anything, none is counted, every slot that is not retired
-- is on the free list, which is ascending, and stale ids stay stale.
pub record Cleared (t : HandleTable) (fl : List ℕ) (t' : HandleTable) : Type 0 where
  pub keeps : Keeps t fl t'
  pub none_left : (id : HandleId) → view t' id ≡ none
  pub none_counted : t'.count ≡ 0
  pub ascending : Ascending 0 keeps.list
  pub complete :
      (k : ℕ) (x : HandleEntry)
      → get_elem? t'.entries k ≡ some x
      → x.generation ≢ max_generation
      → IsIn k keeps.list

dead-slot_view :
    (es : List HandleEntry) (i g : ℕ) → All IsDead es → slot_view (get_elem? es i) g ≡ none
dead-slot_view [] i g d = refl
dead-slot_view (x ∷ es) zero g d = ground (arith, d.0)
dead-slot_view (x ∷ es) (suc i) g d = dead-slot_view es i g d.1

dead-live : (es : List HandleEntry) → All IsDead es → live es ≡ 0
dead-live [] d = refl
dead-live (x ∷ es) d = ground (arith, dead-live es d.1)

module _ (t : HandleTable) (fl : List ℕ) (v : Inv t fl) where
  abbrev emptied : List HandleEntry × ℕ
  emptied = close_live t.entries t.count

  abbrev relisted : List HandleEntry × Option ℕ
  relisted = rebuild (length emptied.0) emptied.0 none

  emptied-Closed : Closed t.entries t.count emptied
  emptied-Closed = close_live-Closed t.entries t.count v.sound

  no_slots : Rebuilt (length emptied.0) emptied.0 (emptied.0, none) []
  no_slots = record {
    chain = refl;
    ascending = tt;
    same = refl;
    retired = λ k x g last. tt;
    complete = λ k x lo g ne. absurd (omega (arith, get_elem?-lt emptied.0 k g));
  }

  list-Rebuilt : (list : List ℕ) × Rebuilt 0 emptied.0 relisted list
  list-Rebuilt =
      rebuild-Rebuilt (length emptied.0) emptied.0 emptied.0 none [] emptied-Closed.dead
        (omega arith) no_slots

  module _ (list : List ℕ) (r : Rebuilt 0 emptied.0 relisted list) where
    abbrev cleared : HandleTable
    cleared = record { entries = relisted.0; count = emptied.1; free_head = relisted.1 }

    dead_count : emptied.1 ≡ 0
    dead_count = omega (arith, emptied-Closed.counted, v.counted)

    cleared-Inv : Inv cleared list
    cleared-Inv = record {
      chain = r.chain;
      distinct = Ascending-Distinct 0 list r.ascending;
      counted =
          dead_count
          ∙ sym
              (live_of_same emptied.0 relisted.0 r.same ∙ dead-live emptied.0 emptied-Closed.dead);
      sound = IsSound-of_same emptied.0 relisted.0 r.same emptied-Closed.sound;
    }

    relisted_at :
        (k : ℕ) {y : HandleEntry}
        → get_elem? emptied.0 k ≡ some y
        → (z : HandleEntry) × (get_elem? relisted.0 k ≡ some z) × (forget z ≡ forget y)
    relisted_at k g =
        get_of_contents relisted.0 k (ap (λ cs. get_elem? cs k) r.same ∙ get-contents emptied.0 k g)

    cleared-Stale : (id : HandleId) → Stale t fl id → Stale cleared list id
    cleared-Stale id (x, g, h) =
        let (y, gy, closes) = emptied-Closed.each id.index x g in
        let (grows, kept) = closes in
        let (z, gz, f) = relisted_at id.index gy in
        let gen : z.generation ≡ y.generation = ap (λ w. w.generation) f in
        (
          z,
          gz,
          elim h [
            | inl later ↦ inl (omega arith)
            | inr s ↦
                let same : y.generation ≡ x.generation = ap (λ w. w.generation) (kept s.2) in
                inr (
                  gen ∙ same ∙ s.0,
                  gen ∙ same ∙ s.1,
                  ap (λ w. w.object) f ∙ ap (λ w. w.object) (kept s.2) ∙ s.2,
                  r.retired id.index y gy (same ∙ s.1),
                )
          ],
        )

    cleared-Cleared : Cleared t fl cleared
    cleared-Cleared = record {
      keeps = record { list = list; inv = cleared-Inv; stale = cleared-Stale };
      none_left = λ id.
          view_of_same emptied.0 relisted.0 id.index id.generation r.same
          ∙ dead-slot_view emptied.0 id.index id.generation emptied-Closed.dead;
      none_counted = dead_count;
      ascending = r.ascending;
      complete = λ k x g ne.
          let c = ap (λ cs. get_elem? cs k) (sym r.same) ∙ get-contents relisted.0 k g in
          let (y, gy, f) = get_of_contents emptied.0 k c in
          r.complete k y (omega arith) gy (λ p. ne (sym (ap (λ w. w.generation) f) ∙ p));
    }

-- On a table in order, `clear` closes every handle, and leaves every slot but the retired ones on an ascending free list.
pub clear-Cleared : (t : HandleTable) (fl : List ℕ) → Inv t fl → Cleared t fl (clear t)
unfolding clear
clear-Cleared t fl v = let (list, r) = list-Rebuilt t fl v in cleared-Cleared t fl v list r
