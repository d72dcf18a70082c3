-- ===== src/HandleTable/Rebuild.antt =====
-- The second loop of `HandleTable::clear`: the free list is built anew, in ascending order.
use mathlib.Core.Option.{some-injective}
use archipelago.Prelude.{
  ℕ, zero, suc, ◌<◌, ◌≤◌, ◌≡◌, ◌≢◌, refl, sym, ap, ◌∙◌, ◌⊎◌, inl, inr, Option, none, some, List, [],
  ◌∷◌, arith, ◌==◌, Bool-cases, ==_iff, get_elem?, set, length, get_elem?_of_lt,
}
use archipelago.HandleTable.{HandleEntry, rebuild_slot, rebuild, max_generation}
use archipelago.HandleTable.FreeList.{Chain, Chain-cons, Chain-set}
use archipelago.Prelude.{NotIn, Distinct}
use archipelago.Prelude.{All-get, All}
use archipelago.HandleTable.Invariant.{contents, contents-set, get-contents, get_of_contents}

abbrev pub IsDead : HandleEntry → Type 0
IsDead e = e.object ≡ none

-- From `lo` on, in ascending order.
abbrev pub Ascending : ℕ → List ℕ → Type 0
Ascending lo [] = Unit {0}
Ascending lo (i ∷ is) = (lo ≤ i) × Ascending (suc i) is

Ascending-mono : (lo hi : ℕ) (fl : List ℕ) → lo ≤ hi → Ascending hi fl → Ascending lo fl
Ascending-mono lo hi [] h a = tt
Ascending-mono lo hi (i ∷ is) h a = (omega arith, a.1)

Ascending-NotIn : (k lo : ℕ) (fl : List ℕ) → k < lo → Ascending lo fl → NotIn k fl
Ascending-NotIn k lo [] h a = tt
Ascending-NotIn k lo (i ∷ is) h a =
    (λ p. absurd (omega arith), Ascending-NotIn k (suc i) is (omega arith) a.1)

pub Ascending-Distinct : (lo : ℕ) (fl : List ℕ) → Ascending lo fl → Distinct fl
Ascending-Distinct lo [] a = tt
Ascending-Distinct lo (i ∷ is) a =
    (Ascending-NotIn i (suc i) is (omega arith) a.1, Ascending-Distinct (suc i) is a.1)

abbrev pub IsIn : ℕ → List ℕ → Type 0
IsIn k [] = ⊥
IsIn k (i ∷ is) = (k ≡ i) ⊎ IsIn k is

-- The list built over the slots of `base` from `i` on: ascending, of each slot that is not retired.
pub record Rebuilt (i : ℕ) (base : List HandleEntry) (out : List HandleEntry × Option ℕ)
    (fl : List ℕ) : Type 0 where
  pub chain : Chain out.0 out.1 fl
  pub ascending : Ascending i fl
  pub same : contents out.0 ≡ contents base
  pub retired :
      (k : ℕ) (x : HandleEntry)
      → get_elem? base k ≡ some x
      → x.generation ≡ max_generation
      → NotIn k fl
  pub complete :
      (k : ℕ) (x : HandleEntry)
      → i ≤ k
      → get_elem? base k ≡ some x
      → x.generation ≢ max_generation
      → IsIn k fl

module _ (i : ℕ) (base es : List HandleEntry) (head : Option ℕ) (fl : List ℕ) (b e : HandleEntry)
    (gb : get_elem? base i ≡ some b) (g : get_elem? es i ≡ some e) (d : e.object ≡ none)
    (m : e.generation ≡ b.generation) (r : Rebuilt (suc i) base (es, head) fl) where
  off : NotIn i fl
  off = Ascending-NotIn i (suc i) fl (omega arith) r.ascending

  generation_at :
      (k : ℕ) (x : HandleEntry) → k ≡ i → get_elem? base k ≡ some x → x.generation ≡ e.generation
  generation_at k x p gk =
      ap (λ z. z.generation) (some-injective x b (sym gk ∙ ap (get_elem? base) p ∙ gb)) ∙ sym m

  -- A retired slot stays off the list.
  skip-Rebuilt :
      e.generation ≡ max_generation
      → Rebuilt i base (set es i (record e { next_free = none }), head) fl
  skip-Rebuilt last = record {
    chain = Chain-set es head fl i (record e { next_free = none }) off r.chain;
    ascending = Ascending-mono i (suc i) fl (omega arith) r.ascending;
    same = contents-set es i e (record e { next_free = none }) g refl ∙ r.same;
    retired = r.retired;
    complete = λ k x lo gk ne. elim (Bool-cases (k == i)) [
      | inl here ↦ absurd (ne (generation_at k x ((==_iff _ _).0 here) gk ∙ last))
      | inr there ↦ r.complete k x (ground arith) gk ne
    ];
  }

  -- Any other goes to its front.
  push-Rebuilt :
      e.generation ≢ max_generation
      → Rebuilt i base (set es i (record e { next_free = head }), some i) (i ∷ fl)
  push-Rebuilt more = record {
    chain = Chain-cons es head fl i e (record e { next_free = head }) off r.chain g d refl;
    ascending = (omega arith, r.ascending);
    same = contents-set es i e (record e { next_free = head }) g refl ∙ r.same;
    retired =
        λ k x gk last. (λ p. more (sym (generation_at k x p gk) ∙ last), r.retired k x gk last);
    complete = λ k x lo gk ne. elim (Bool-cases (k == i)) [
      | inl here ↦ inl ((==_iff _ _).0 here)
      | inr there ↦ inr (r.complete k x (ground arith) gk ne)
    ];
  }

  rebuild_slot-Rebuilt : (fl' : List ℕ) × Rebuilt i base (rebuild_slot i es head) fl'
  unfolding rebuild_slot
  rebuild_slot-Rebuilt = elim (Bool-cases (e.generation == max_generation)) [
    | inl last ↦ (
      fl,
      rw (g, rebuild_slot)
          (rw (d, rebuild_slot) (rw (last, rebuild_slot) (skip-Rebuilt ((==_iff _ _).0 last)))),
    )
    | inr more ↦ (
      i ∷ fl,
      rw (g, rebuild_slot)
          (rw (d, rebuild_slot) (rw (more, rebuild_slot) (push-Rebuilt (λ p. ground arith)))),
    )
  ]

pub rebuild-Rebuilt :
    (i : ℕ) (base es : List HandleEntry) (head : Option ℕ) (fl : List ℕ)
    → All IsDead base
    → i ≤ length base
    → Rebuilt i base (es, head) fl
    → (list : List ℕ) × Rebuilt 0 base (rebuild i es head) list
unfolding rebuild
rebuild-Rebuilt zero base es head fl d h r = (fl, r)
rebuild-Rebuilt (suc i) base es head fl d h r =
    let (b, gb) = get_elem?_of_lt base i (omega arith) in
    let (e, g, f) =
      get_of_contents es i (ap (λ cs. get_elem? cs i) r.same ∙ get-contents base i gb) in
    let dead : e.object ≡ none = ap (λ z. z.object) f ∙ All-get IsDead base i d gb in
    let (fl', r') =
      rebuild_slot-Rebuilt i base es head fl b e gb g dead (ap (λ z. z.generation) f) r in
    rebuild-Rebuilt i base (rebuild_slot i es head).0 (rebuild_slot i es head).1 fl' d (omega arith)
      r'
