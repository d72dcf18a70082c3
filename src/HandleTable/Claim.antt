-- ===== src/HandleTable/Claim.antt =====
-- Creating a handle: `create_handle`, `insert` and `duplicate`.
use archipelago.Prelude.{
  ℕ, suc, ◌+◌, ◌<◌, ◌≡◌, refl, sym, ap, ◌∙◌, ◌⊎◌, inl, inr, Bool, false, none, some, List, [], ◌∷◌,
  arith, ◌==◌, if◌then◌else◌, subst, is_some, Bool-cases, length, get_elem?, set, get_elem?-set_ne,
  get_elem?-set_self, get_elem?-lt, get_elem?-append_left, ==_iff, Result, ok, err, Errc,
}
use archipelago.Prelude.Errc.{oom}
use mathlib.Core.Option.{some-injective}
use archipelago.Object.{Object}
use archipelago.HandleTable.{HandleId, HandleEntry, HandleTable, id_eq, claim_slot, claim, grow}
use archipelago.HandleTable.FreeList.{Chain-set, live-set_claim}
use archipelago.Prelude.{NotIn}
use archipelago.Prelude.{All-set, All-get}
use archipelago.HandleTable.Invariant.{
  IsSound, Inv, forget, contents, get-contents, get_of_contents, length-contents,
}
use archipelago.HandleTable.Grow.{Grown, grow-Grown, batch, batch-cons, NotIn-batch}
use archipelago.HandleTable.View.{view, slot_view, slot_view-contents, slot_view-append, view-claim}
use archipelago.HandleTable.Stale.{Stale, Keeps}

-- A new handle: its id named nothing, and now it alone names the object, with these rights.
pub record Created (t : HandleTable) (fl : List ℕ) (o : Object) (rights : ℕ)
    (out : Result HandleId × HandleTable) : Type 0 where
  pub id : HandleId
  pub result : out.0 ≡ ok id
  pub new : view t id ≡ none
  pub effect : (j : HandleId) → view out.1 j ≡ (if id_eq id j then some (o, rights) else view t j)
  pub keeps : Keeps t fl out.1

-- A refusal: every handle names what it named.
pub record Refused (t : HandleTable) (fl : List ℕ) (e : Errc) (out : Result HandleId × HandleTable)
    : Type 0 where
  pub result : out.0 ≡ err e
  pub effect : (j : HandleId) → view out.1 j ≡ view t j
  pub keeps : Keeps t fl out.1

module _ (t : HandleTable) (slot : ℕ) (fl : List ℕ) (v : Inv t (slot ∷ fl)) (o : Object)
    (rights : ℕ) where
  -- The dead entry at the head of the free list, and the live one that takes its place.
  abbrev free : HandleEntry
  free = v.chain.1

  abbrev claimed : HandleEntry
  claimed = record free { object = some o; strong = some o; rights = rights; next_free = none }

  abbrev after : HandleTable
  after = record {
    entries = set t.entries slot claimed;
    count = t.count + 1;
    free_head = free.next_free;
  }

  claimed-Stale : (id : HandleId) → Stale t (slot ∷ fl) id → Stale after fl id
  claimed-Stale id (x, g, h) = elim (Bool-cases (slot == id.index)) [
    | inl here ↦
        let p : slot ≡ id.index = (==_iff _ _).0 here in
        let same : x ≡ free =
          some-injective _ _ (sym g ∙ ap (get_elem? t.entries) (sym p) ∙ v.chain.2) in
        (
          claimed,
          subst (λ k. get_elem? (set t.entries slot claimed) k ≡ some claimed) p
              (get_elem?-set_self t.entries slot claimed (get_elem?-lt t.entries slot v.chain.2)),
          elim h [
            | inl later ↦ inl (subst (λ y. id.generation < y.generation) same later)
            | inr r ↦ absurd (r.3.0 (sym p))
          ],
        )
    | inr there ↦
        (x, get_elem?-set_ne t.entries slot id.index claimed (λ p. ground arith) ∙ g, ground arith)
  ]

  after-Inv : Inv after fl
  after-Inv = record {
    chain = Chain-set t.entries free.next_free fl slot claimed v.distinct.0 v.chain.4;
    distinct = v.distinct.1;
    counted =
        let d : is_some free.object ≡ false = rw v.chain.3 in
        omega (arith, v.counted, live-set_claim free claimed t.entries slot v.chain.2 d refl);
    sound =
        All-set IsSound t.entries slot claimed v.sound
          (refl, (All-get IsSound t.entries slot v.sound v.chain.2).1);
  }

  claim_slot-Created : Created t (slot ∷ fl) o rights (claim_slot t o rights)
  unfolding claim_slot
  claim_slot-Created =
      rw (v.chain.0, claim_slot)
        (rw (v.chain.2, claim_slot)
          (record {
            id = record { index = slot; generation = free.generation };
            result = refl;
            new = rw v.chain.2 (ground (arith, v.chain.3));
            effect = λ j. view-claim t.entries slot free claimed o j v.chain.2 v.chain.3 refl refl;
            keeps = record { list = fl; inv = after-Inv; stale = claimed-Stale };
          }))

module _ (t : HandleTable) (fl : List ℕ) (out : Result ℕ × HandleTable) (g : Grown t fl out) where
  Grown-view : (j : HandleId) → view out.1 j ≡ view t j
  Grown-view j =
      sym (slot_view-contents out.1.entries j.index j.generation)
      ∙ ap (λ cs. slot_view (get_elem? cs j.index) j.generation) g.same
      ∙ slot_view-append (contents t.entries) g.added j.index j.generation
      ∙ slot_view-contents t.entries j.index j.generation

  Grown-NotIn : (i : ℕ) → i < length t.entries → NotIn i fl → NotIn i g.list
  Grown-NotIn i h n = elim g.outcome [
    | inl full ↦ rw full.2 (NotIn-batch (length t.entries) g.added i fl h n)
    | inr unchanged ↦ rw unchanged.1 n
  ]

  Grown-Stale : (id : HandleId) → Stale t fl id → Stale out.1 g.list id
  Grown-Stale id (x, s, h) =
      let lt = get_elem?-lt t.entries id.index s in
      let c : get_elem? (contents out.1.entries) id.index ≡ some (forget x) =
        ap (λ cs. get_elem? cs id.index) g.same
        ∙ get_elem?-append_left (contents t.entries) _ id.index
            (omega (arith, length-contents t.entries))
        ∙ get-contents t.entries id.index s in
      let (y, sy, f) = get_of_contents out.1.entries id.index c in
      let gen : y.generation ≡ x.generation = ap (λ z. z.generation) f in
      let obj : y.object ≡ x.object = ap (λ z. z.object) f in
      (
        y,
        sy,
        elim h [
          | inl later ↦ inl (omega arith)
          | inr r ↦ inr (gen ∙ r.0, gen ∙ r.1, obj ∙ r.2, Grown-NotIn id.index lt r.3)
        ],
      )

  -- What follows `grow` is seen from before it.
  Created-after :
      (o : Object) (rights : ℕ) (next : Result HandleId × HandleTable)
      → Created out.1 g.list o rights next
      → Created t fl o rights next
  Created-after o rights next c = record {
    id = c.id;
    result = c.result;
    new = sym (Grown-view c.id) ∙ c.new;
    effect =
        λ j. c.effect j ∙ ap (λ w. if id_eq c.id j then some (o, rights) else w) (Grown-view j);
    keeps = record {
      list = c.keeps.list;
      inv = c.keeps.inv;
      stale = λ id s. c.keeps.stale id (Grown-Stale id s);
    };
  }

  Refused-after : Refused t fl oom (err oom, out.1)
  Refused-after = record {
    result = refl;
    effect = Grown-view;
    keeps = record { list = g.list; inv = g.inv; stale = Grown-Stale };
  }

-- A table that grew by a batch has the first new slot at the head of its list.
Grown-head :
    (t : HandleTable) (out : Result ℕ × HandleTable) (g : Grown t [] out)
    → g.added ≡ 32
    → g.list ≡ batch (length t.entries) g.added []
    → g.list ≡ length t.entries ∷ batch (suc (length t.entries)) 31 []
Grown-head t out g full l =
    l ∙ ap (λ n. batch (length t.entries) n []) full ∙ batch-cons (length t.entries) 31 []

module _ (room : ℕ → Bool) (t : HandleTable) (o : Object) (rights : ℕ) where
  claim-free : {slot : ℕ} → t.free_head ≡ some slot → claim room t o rights ≡ claim_slot t o rights
  unfolding claim
  claim-free h = ground arith

  claim-ok :
      {n : ℕ}
      → t.free_head ≡ none
      → (grow room t).0 ≡ ok n
      → claim room t o rights ≡ claim_slot (grow room t).1 o rights
  unfolding claim
  claim-ok h g = ground arith

  claim-err :
      {e : Errc}
      → t.free_head ≡ none
      → (grow room t).0 ≡ err e
      → claim room t o rights ≡ (err e, (grow room t).1)
  unfolding claim
  claim-err h g = ground arith

  -- A handle is created, or the heap ran out and nothing changed.
  pub claim-outcome :
      (fl : List ℕ)
      → Inv t fl
      → Created t fl o rights (claim room t o rights)
        ⊎ (Refused t fl oom (claim room t o rights) × (t.free_head ≡ none))
  claim-outcome (slot ∷ fl) v = inl (
      subst (Created t (slot ∷ fl) o rights) (sym (claim-free v.chain.0))
        (claim_slot-Created t slot fl v o rights))
  claim-outcome [] v =
      let g = grow-Grown room t [] v in
      elim g.outcome [
        | inl (success, full, l) ↦
            let head = Grown-head t (grow room t) g full l in
            let made =
              claim_slot-Created (grow room t).1 (length t.entries)
                (batch (suc (length t.entries)) 31 []) (subst (Inv (grow room t).1) head g.inv) o
                rights in
            inl (
              subst (Created t [] o rights) (sym (claim-ok v.chain success)) (
                Created-after t [] (grow room t) g o rights (claim_slot (grow room t).1 o rights) (
                  subst
                    (λ l. Created (grow room t).1 l o rights (claim_slot (grow room t).1 o rights))
                    (sym head) made)))
        | inr (fails, l) ↦ inr (
          subst (Refused t [] oom) (sym (claim-err v.chain fails))
              (Refused-after t [] (grow room t) g),
          v.chain,
        )
      ]
