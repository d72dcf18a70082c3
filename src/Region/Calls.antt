-- ===== src/Region/Calls.antt =====
-- `insert_slot`: a slot is placed exactly where it fits.
use archipelago.Prelude.{
  ℕ, ◌+◌, ◌-◌, ◌%◌, ◌^◌, ◌<◌, ◌≤◌, ◌≡◌, refl, sym, subst, arith, Bool, true, false, not, ◌||◌, ltb,
  ◌==◌, Bool-cases, inl, inr, Result, ok, err, Errc,
}
use archipelago.Prelude.Errc.{invalid_operation, out_of_range, rights_violation, oom}
use archipelago.Region.{
  Slot, Region, Content, region_end, prot_within, insert, collides, page_aligned, insert_slot,
}
use archipelago.Region.Layout.{IsSlot, Inv, Free, collides-Free, Free-collides, insert-Laid}

-- A slot of this size and protection may stand at `base`.
pub record Fits (r : Region) (base size prot : ℕ) : Type 0 where
  pub not_empty : 0 < size
  pub base_aligned : base % 4096 ≡ 0
  pub size_aligned : size % 4096 ≡ 0
  pub above : r.base ≤ base
  pub below : base + size ≤ r.base + r.size
  pub within : prot_within prot r.max_prot ≡ true
  pub free : Free base (base + size) r.children

-- The outcomes of `insert_slot`.
pub data Inserted (room : Bool) (r : Region) (base size prot : ℕ) (content : Content)
    (out : Result Slot × Region) : Type 0 where
  placed :
      Fits r base size prot
      → room ≡ true
      → (slot : Slot) → slot ≡ record { base = base; size = size; prot = prot; content = content }
      → out ≡ (ok slot, record r { children = insert slot r.children })
      → Inv out.1
      → Inserted room r base size prot content out
  refused :
      (e : Errc)
      → (Fits r base size prot → (room ≡ false) × (e ≡ oom))
      → out ≡ (err e, r)
      → Inserted room r base size prot content out

module _ (room : Bool) (r : Region) (base size prot : ℕ) (content : Content) (v : Inv r)
    (base_word : base < 2 ^ 64) (size_word : size < 2 ^ 64) where
  abbrev new : Slot
  new = record { base = base; size = size; prot = prot; content = content }

  abbrev end : ℕ
  end = (base + size) % 2 ^ 64

  -- The checks before the search.
  abbrev askew : Bool
  askew = (size == 0 || not (page_aligned base)) || not (page_aligned size)

  abbrev outside : Bool
  outside = ltb end base || (ltb base r.base || ltb (region_end r) end)

  abbrev too_strong : Bool
  too_strong = not (prot_within prot r.max_prot)

  -- What those checks leave to be known.
  record IsChecked : Type 0 where
    not_empty : 0 < size
    base_aligned : base % 4096 ≡ 0
    size_aligned : size % 4096 ≡ 0
    above : r.base ≤ base
    below : base + size ≤ r.base + r.size
    within : prot_within prot r.max_prot ≡ true
    last : end - 1 + 1 ≡ base + size

  passed-IsChecked : askew ≡ false → outside ≡ false → too_strong ≡ false → IsChecked
  unfolding page_aligned
  passed-IsChecked a b c = record {
    not_empty = ground arith;
    base_aligned = ground arith;
    size_aligned = ground arith;
    above = ground arith;
    below = ground (arith, v.in_memory);
    within = ground arith;
    last = ground (arith, v.in_memory);
  }

  Fits-passed : Fits r base size prot → (askew ≡ false) × (outside ≡ false) × (too_strong ≡ false)
  unfolding page_aligned
  Fits-passed f = (
    ground (arith, f.not_empty, f.base_aligned, f.size_aligned),
    ground (arith, f.above, f.below, v.in_memory),
    ground (arith, f.within),
  )

  checked-Inserted :
      askew ≡ false
      → outside ≡ false
      → too_strong ≡ false
      → Inserted room r base size prot content (insert_slot room r base size prot content)
  unfolding insert_slot
  checked-Inserted a b c =
      let k = passed-IsChecked a b c in
      elim (Bool-cases (collides base (end - 1) r.children)) [
        | inl taken ↦
            refused invalid_operation
              (λ f. absurd (
                cc (
                  taken,
                  Free-collides r.max_prot r.base (r.base + r.size) base (end - 1) r.children v.laid
                      v.in_memory (subst (λ x. Free base x r.children) (sym k.last) f.free),
                )))
              (ground arith)
        | inr vacant ↦
            let free : Free base (base + size) r.children =
              subst (λ x. Free base x r.children) k.last
                (collides-Free r.max_prot r.base (r.base + r.size) base (end - 1) r.children v.laid
                  v.in_memory vacant) in
            let whole : IsSlot r.max_prot new = record {
              not_empty = k.not_empty;
              base_aligned = k.base_aligned;
              size_aligned = k.size_aligned;
              within = k.within;
            } in
            elim (Bool-cases room) [
              | inr none_left ↦ refused oom (λ f. (none_left, refl)) (ground arith)
              | inl some_left ↦
                  let e : insert_slot room r base size prot content
                      ≡ (ok new, record r { children = insert new r.children }) =
                    ground arith in
                  placed
                    (record {
                      not_empty = k.not_empty;
                      base_aligned = k.base_aligned;
                      size_aligned = k.size_aligned;
                      above = k.above;
                      below = k.below;
                      within = k.within;
                      free = free;
                    })
                    some_left new refl e
                    (subst (λ o. Inv o.1) (sym e)
                      (record {
                        in_memory = v.in_memory;
                        laid =
                            insert-Laid r.max_prot r.base (r.base + r.size) new r.children whole
                              k.above k.below free v.laid;
                      }))
            ]
      ]

  -- `insert_slot` places the slot where it fits, in bounds, on pages, with a protection within the
  -- region's and apart from all others, if it could be allocated; otherwise it changes nothing. A
  -- region in order stays in order. The arguments are 64-bit words.
  pub insert_slot-Inserted :
      Inserted room r base size prot content (insert_slot room r base size prot content)
  unfolding insert_slot
  insert_slot-Inserted = elim (Bool-cases askew) [
    | inl bad ↦ refused invalid_operation (λ f. absurd (cc (bad, (Fits-passed f).0))) (ground arith)
    | inr straight ↦ elim (Bool-cases outside) [
      | inl bad ↦ refused out_of_range (λ f. absurd (cc (bad, (Fits-passed f).1))) (ground arith)
      | inr inside ↦ elim (Bool-cases too_strong) [
        | inl bad ↦
            refused rights_violation (λ f. absurd (cc (bad, (Fits-passed f).2))) (ground arith)
        | inr weak ↦ checked-Inserted straight inside weak
      ]
    ]
  ]
