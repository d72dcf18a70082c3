-- ===== src/HandleTable/FreeList.antt =====
-- The free list that runs through the dead slots of a handle table.
use archipelago.Prelude.{
  ℕ, zero, suc, ◌+◌, ◌≡◌, refl, ap, ◌∙◌, true, false, Option, none, some, List, [], ◌∷◌, ◌++◌,
  arith, if◌then◌else◌, is_some, get_elem?, set, get_elem?-set_ne, get_elem?-set_self, get_elem?-lt,
}
use archipelago.Object.{Object}
use archipelago.HandleTable.{HandleEntry}
use archipelago.Prelude.{NotIn}

-- From `head` on, the links visit the dead slots `fl`, in that order.
abbrev pub Chain : List HandleEntry → Option ℕ → List ℕ → Type 0
Chain es head [] = head ≡ none
Chain es head (i ∷ is) =
    (head ≡ some i)
    × (e : HandleEntry) × (get_elem? es i ≡ some e)
    × (e.object ≡ none)
    × Chain es e.next_free is

-- The number of live entries.
abbrev pub live : List HandleEntry → ℕ
live [] = 0
live (e ∷ es) = if is_some e.object then suc (live es) else live es

-- A write to a slot that is not on the list leaves the list alone.
pub Chain-set :
    (es : List HandleEntry) (head : Option ℕ) (fl : List ℕ) (i : ℕ) (e : HandleEntry)
    → NotIn i fl
    → Chain es head fl
    → Chain (set es i e) head fl
Chain-set es head [] i e n c = c
Chain-set es head (j ∷ js) i e n c =
    (c.0, c.1, get_elem?-set_ne es i j e n.0 ∙ c.2, c.3, Chain-set es c.1.next_free js i e n.1 c.4)

-- A live slot is not on the list.
pub Chain-NotIn :
    (es : List HandleEntry) (head : Option ℕ) (fl : List ℕ) (i : ℕ) {e : HandleEntry} {o : Object}
    → Chain es head fl
    → get_elem? es i ≡ some e
    → e.object ≡ some o
    → NotIn i fl
Chain-NotIn es head [] i c g l = tt
Chain-NotIn es head (j ∷ js) i {e} {o} c g l =
    (λ p. ground (arith, c.2, c.3, ap (get_elem? es) p), Chain-NotIn es c.1.next_free js i c.4 g l)

-- Slots at or past the end are on no list.
pub Chain-NotIn_of_none :
    (es : List HandleEntry) (head : Option ℕ) (fl : List ℕ) (i : ℕ)
    → Chain es head fl
    → get_elem? es i ≡ none
    → NotIn i fl
Chain-NotIn_of_none es head [] i c g = tt
Chain-NotIn_of_none es head (j ∷ js) i c g =
    (λ p. ground (arith, c.2, ap (get_elem? es) p), Chain-NotIn_of_none es c.1.next_free js i c.4 g)

-- Appending entries leaves the list alone.
pub Chain-append :
    (es fs : List HandleEntry) (head : Option ℕ) (fl : List ℕ)
    → Chain es head fl
    → Chain (es ++ fs) head fl
Chain-append es fs head [] c = c
Chain-append es fs head (j ∷ js) c =
    (c.0, c.1, get_append es fs j c.2, c.3, Chain-append es fs c.1.next_free js c.4)
  where
    get_append :
        (es fs : List HandleEntry) (j : ℕ) {e : HandleEntry}
        → get_elem? es j ≡ some e
        → get_elem? (es ++ fs) j ≡ some e
    get_append [] fs j h = cc
    get_append (x ∷ es) fs zero h = h
    get_append (x ∷ es) fs (suc j) h = get_append es fs j h

-- A dead slot that is not on the list can be put before it.
pub Chain-cons :
    (es : List HandleEntry) (head : Option ℕ) (fl : List ℕ) (i : ℕ) (e e' : HandleEntry)
    → NotIn i fl
    → Chain es head fl
    → get_elem? es i ≡ some e
    → e'.object ≡ none
    → e'.next_free ≡ head
    → Chain (set es i e') (some i) (i ∷ fl)
Chain-cons es head fl i e e' n c g d l = (
  refl,
  e',
  get_elem?-set_self es i e' (get_elem?-lt es i g),
  d,
  rw l (Chain-set es head fl i e' n c),
)

module _ (e e' : HandleEntry) where
  -- Live entries after a write.
  pub live-set_claim :
      (es : List HandleEntry) (i : ℕ)
      → get_elem? es i ≡ some e
      → is_some e.object ≡ false
      → is_some e'.object ≡ true
      → live (set es i e') ≡ suc (live es)
  live-set_claim [] i g d l = cc
  live-set_claim (x ∷ es) zero g d l = ground arith
  live-set_claim (x ∷ es) (suc i) g d l = ground (arith, live-set_claim es i g d l)

  pub live-set_empty :
      (es : List HandleEntry) (i : ℕ)
      → get_elem? es i ≡ some e
      → is_some e.object ≡ true
      → is_some e'.object ≡ false
      → suc (live (set es i e')) ≡ live es
  live-set_empty [] i g l d = cc
  live-set_empty (x ∷ es) zero g l d = ground arith
  live-set_empty (x ∷ es) (suc i) g l d = ground (arith, live-set_empty es i g l d)

  pub live-set_same :
      (es : List HandleEntry) (i : ℕ)
      → get_elem? es i ≡ some e
      → e'.object ≡ e.object
      → live (set es i e') ≡ live es
  live-set_same [] i g l = cc
  live-set_same (x ∷ es) zero g l = ground arith
  live-set_same (x ∷ es) (suc i) g l = ground (arith, live-set_same es i g l)

pub live-append : (es fs : List HandleEntry) → live (es ++ fs) ≡ live es + live fs
live-append [] fs = omega arith
live-append (x ∷ es) fs = ground (arith, live-append es fs)
