-- ===== src/HandleTable/Invariant.antt =====
-- The invariant of a handle table, and the growing of its free list.
use archipelago.Prelude.{
  ℕ, zero, suc, ◌≤◌, ◌≡◌, refl, ap, Option, none, some, List, [], ◌∷◌, ◌++◌, map, arith, length,
  get_elem?, set, replicate,
}
use archipelago.HandleTable.{HandleEntry, HandleTable, max_generation, fresh_entry, chain_slot}
use archipelago.HandleTable.FreeList.{Chain, live, Chain-cons}
use archipelago.Prelude.{NotIn, Distinct}
use archipelago.Prelude.{All}

abbrev pub IsSound : HandleEntry → Type 0
IsSound e = (e.strong ≡ e.object) × (e.generation ≤ max_generation)

-- `fl` are the slots of the free list: distinct dead slots. The count is that of the live entries,
-- each of which holds one strong reference to its object, and no generation is past the limit.
pub record Inv (t : HandleTable) (fl : List ℕ) : Type 0 where
  pub chain : Chain t.entries t.free_head fl
  pub distinct : Distinct fl
  pub counted : t.count ≡ live t.entries
  pub sound : All IsSound t.entries

-- What an entry says apart from its link.
abbrev pub forget : HandleEntry → HandleEntry
forget e = record e { next_free = none }

abbrev pub contents : List HandleEntry → List HandleEntry
contents es = map forget es

pub contents-set :
    (es : List HandleEntry) (i : ℕ) (e e' : HandleEntry)
    → get_elem? es i ≡ some e
    → forget e' ≡ forget e
    → contents (set es i e') ≡ contents es
contents-set [] i e e' g f = refl
contents-set (x ∷ es) zero e e' g f = ground arith
contents-set (x ∷ es) (suc i) e e' g f = ap (λ r. forget x ∷ r) (contents-set es i e e' g f)

pub contents-append : (es fs : List HandleEntry) → contents (es ++ fs) ≡ contents es ++ contents fs
contents-append [] fs = refl
contents-append (x ∷ es) fs = ap (λ r. forget x ∷ r) (contents-append es fs)

pub contents-fresh : (k : ℕ) → contents (replicate k fresh_entry) ≡ replicate k fresh_entry
contents-fresh zero = refl
contents-fresh (suc k) = ap (λ r. fresh_entry ∷ r) (contents-fresh k)

pub live-contents : (es : List HandleEntry) → live (contents es) ≡ live es
live-contents [] = refl
live-contents (x ∷ es) = ground (arith, live-contents es)

pub length-contents : (es : List HandleEntry) → length (contents es) ≡ length es
length-contents [] = refl
length-contents (x ∷ es) = ap suc (length-contents es)

pub IsSound-contents : (es : List HandleEntry) → All IsSound es → All IsSound (contents es)
IsSound-contents [] a = tt
IsSound-contents (x ∷ es) a = (a.0, IsSound-contents es a.1)

pub contents-IsSound : (es : List HandleEntry) → All IsSound (contents es) → All IsSound es
contents-IsSound [] a = tt
contents-IsSound (x ∷ es) a = (a.0, contents-IsSound es a.1)

pub get-contents :
    (es : List HandleEntry) (i : ℕ) {e : HandleEntry}
    → get_elem? es i ≡ some e
    → get_elem? (contents es) i ≡ some (forget e)
get-contents [] i g = cc
get-contents (x ∷ es) zero g = ground arith
get-contents (x ∷ es) (suc i) g = get-contents es i g

pub get_of_contents :
    (es : List HandleEntry) (i : ℕ) {c : HandleEntry}
    → get_elem? (contents es) i ≡ some c
    → (e : HandleEntry) × (get_elem? es i ≡ some e) × (forget e ≡ c)
get_of_contents [] i g = absurd (cc)
get_of_contents (x ∷ es) zero g = (x, refl, ground arith)
get_of_contents (x ∷ es) (suc i) g = get_of_contents es i g

-- What `chain_slot` does to a dead slot off the list.
pub record Chained (es : List HandleEntry) (fl : List ℕ) (i : ℕ) (out : List HandleEntry × Option ℕ)
    : Type 0 where
  pub chain : Chain out.0 out.1 (i ∷ fl)
  pub same : contents out.0 ≡ contents es

pub chain_slot-Chained :
    (es : List HandleEntry) (head : Option ℕ) (fl : List ℕ) (i : ℕ) (e : HandleEntry)
    → get_elem? es i ≡ some e
    → e.object ≡ none
    → NotIn i fl
    → Chain es head fl
    → Chained es fl i (chain_slot i es head)
unfolding chain_slot
chain_slot-Chained es head fl i e g d n c =
    rw (g, chain_slot)
      (record {
        chain = Chain-cons es head fl i e (record e { next_free = head }) n c g d refl;
        same = contents-set es i e (record e { next_free = head }) g refl;
      })
