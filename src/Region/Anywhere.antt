-- ===== src/Region/Anywhere.antt =====
-- `map_anywhere`: the lowest place that fits.
use archipelago.Prelude.{
  ℕ, ◌+◌, ◌^◌, ◌<◌, ◌≤◌, ◌≡◌, ◌≢◌, refl, sym, subst, arith, Bool, true, false, Option, none, some,
  ltb, if◌then◌else◌, Bool-cases, inl, inr, Result, ok, err, fault,
}
use archipelago.Prelude.Errc.{oom, capacity_exhausted}
use archipelago.Region.{
  Slot, Region, Content, binding, CacheMode, Vmo, region_end, erase, mapped_cache, insert_slot,
  vmo_fits, bind, map_locked, scan, map_anywhere,
}
use archipelago.Region.Layout.{Inv, erase-Laid}
use archipelago.Region.Fit.{scan-ge, scan-least}
use archipelago.Region.Calls.{Fits, Inserted, placed, refused, insert_slot-Inserted}

module _ (room linked : Bool) (r : Region) (vmo : Option Vmo) (offset prot : ℕ) (cache : CacheMode)
    (v : Inv r) where
  -- A binding that was made.
  abbrev Bound : ℕ → ℕ → Result ℕ × Region → Type 0
  Bound vaddr size out = ((z : ℕ) → out.0 ≡ ok z → Fits r vaddr size prot) × Inv out.1

  erased-Inv : (base : ℕ) (t : Region) → Inv t → Inv (record t { children = erase base t.children })
  erased-Inv base t w = record {
    in_memory = w.in_memory;
    laid = erase-Laid t.max_prot t.base (t.base + t.size) base t.children w.laid;
  }

  -- What `bind` makes of the outcome of `insert_slot`.
  abbrev bound_of : Bool → Result Slot × Region → Result ℕ × Region
  bound_of added out = elim out.0 [
    | ok slot ↦
        if added
        then (ok 0, out.1)
        else (err oom, record out.1 { children = erase slot.base out.1.children })
    | err e ↦ (err e, out.1)
    | fault ↦ (fault, out.1)
  ]

  bound_of-Bound :
      (vaddr size : ℕ) (content : Content) (added : Bool) (out : Result Slot × Region)
      → Inserted room r vaddr size prot content out
      → Bound vaddr size (bound_of added out)
  bound_of-Bound vaddr size content added out (refused why f p) =
      subst (λ o. Bound vaddr size (bound_of added o)) (sym p) (λ z x. absurd (cc x), v)
  bound_of-Bound vaddr size content true out (placed f some_left slot same p w) =
      subst (λ o. Bound vaddr size (bound_of true o)) (sym p) (λ z x. f, subst (λ o. Inv o.1) p w)
  bound_of-Bound vaddr size content false out (placed f some_left slot same p w) =
      subst (λ o. Bound vaddr size (bound_of false o)) (sym p)
        (λ z x. f, erased-Inv slot.base _ (subst (λ o. Inv o.1) p w))

  bind-Bound :
      (vaddr size : ℕ)
      → vaddr < 2 ^ 64
      → size < 2 ^ 64
      → Bound vaddr size (bind room linked r vaddr size vmo offset prot cache)
  unfolding bind
  bind-Bound vaddr size a b =
      let content = binding vmo offset (mapped_cache vmo cache) in
      bound_of-Bound vaddr size content (elim vmo [ none ↦ true | some x ↦ linked ]) _
        (insert_slot-Inserted room r vaddr size prot content v a b)

  map_locked-Bound :
      (vaddr size : ℕ)
      → vaddr < 2 ^ 64
      → size < 2 ^ 64
      → Bound vaddr size (map_locked room linked r vaddr size vmo offset prot cache)
  unfolding map_locked vmo_fits
  map_locked-Bound vaddr size a b =
      let made = bind-Bound vaddr size a b in
      (λ z e. made.0 z (ground arith), ground (arith, made.1, v))

  map_locked-not_exhausted :
      (vaddr size : ℕ)
      → (map_locked room linked r vaddr size vmo offset prot cache).0 ≢ err capacity_exhausted
  unfolding map_locked bind insert_slot vmo_fits
  map_locked-not_exhausted vaddr size = λ p. ground arith

  abbrev start : ℕ → ℕ
  start floor = if ltb r.base floor then floor else r.base

  abbrev cursor : ℕ → ℕ → ℕ
  cursor floor size = scan size (start floor) r.children

  -- What `map_anywhere` makes of the outcome of `map_locked`.
  abbrev reply : ℕ → Result ℕ → Result ℕ
  reply at (ok z) = ok at
  reply at (err e) = err e
  reply at fault = fault

  reply-ok :
      (place at : ℕ) (m : Result ℕ) → reply place m ≡ ok at → (at ≡ place) × (z : ℕ) × (m ≡ ok z)
  reply-ok place at (ok z) h = (ground arith, z, refl)
  reply-ok place at (err e) h = absurd (cc h)
  reply-ok place at fault h = absurd (cc h)

  anywhere-cursor :
      (floor size at : ℕ)
      → (map_anywhere room linked r floor size vmo offset prot cache).0 ≡ ok at
      → (cursor floor size ≤ region_end r)
        × (at ≡ cursor floor size)
        × (z : ℕ) × ((map_locked room linked r (cursor floor size) size vmo offset prot cache).0
            ≡ ok z)
  unfolding map_anywhere
  anywhere-cursor floor size at h =
      let (same, z, made) =
        reply-ok (cursor floor size) at
          (map_locked room linked r (cursor floor size) size vmo offset prot cache).0
          (ground arith) in
      (ground arith, same, z, made)

  -- Where `map_anywhere` succeeds on a region in order, the place it returns is at or above the floor, and a slot of that
  -- size and protection fitted there.
  pub map_anywhere-Fits :
      (floor size at : ℕ)
      → size < 2 ^ 64
      → (map_anywhere room linked r floor size vmo offset prot cache).0 ≡ ok at
      → (floor ≤ at) × Fits r at size prot
  map_anywhere-Fits floor size at b h =
      let c = anywhere-cursor floor size at h in
      let up =
        scan-ge size (start floor) r.max_prot r.base (r.base + r.size) r.children v.laid
          v.in_memory in
      (
        ground (arith, c.1, up),
        subst (λ p. Fits r p size prot) (sym c.1)
            ((map_locked-Bound (cursor floor size) size (ground (arith, c.0)) b).0 c.2 c.3),
      )

  -- Where `map_anywhere` succeeds on a region in order, no place at or above the floor that fits is lower than the one it
  -- returns.
  pub map_anywhere_least :
      (floor size at w : ℕ)
      → (map_anywhere room linked r floor size vmo offset prot cache).0 ≡ ok at
      → floor ≤ w
      → Fits r w size prot
      → at ≤ w
  map_anywhere_least floor size at w h above f =
      let c = anywhere-cursor floor size at h in
      let low =
        scan-least size (start floor) r.max_prot r.base (r.base + r.size) w r.children v.laid
          v.in_memory (ground (arith, f.above)) f.free in
      omega (arith, c.1, low)

  -- On a region in order, `map_anywhere` reports that there is no capacity only where no place at or above the floor fits.
  pub map_anywhere_exhausted :
      (floor size w : ℕ)
      → (map_anywhere room linked r floor size vmo offset prot cache).0 ≡ err capacity_exhausted
      → floor ≤ w
      → ¬ (Fits r w size prot)
  unfolding map_anywhere
  map_anywhere_exhausted floor size w h above = λ f.
      let low =
        scan-least size (start floor) r.max_prot r.base (r.base + r.size) w r.children v.laid
          v.in_memory (ground (arith, f.above)) f.free in
      let other = map_locked-not_exhausted (cursor floor size) size in
      absurd (ground (arith, low, other, f.below, f.not_empty, f.size_aligned, v.in_memory))

  -- Whatever it answers, `map_anywhere` leaves a region in order.
  pub map_anywhere-Inv :
      (floor size : ℕ)
      → size < 2 ^ 64
      → Inv (map_anywhere room linked r floor size vmo offset prot cache).1
  unfolding map_anywhere
  map_anywhere-Inv floor size b = elim (Bool-cases (ltb (region_end r) (cursor floor size))) [
    | inl none_left ↦ ground (arith, v)
    | inr some_left ↦
        let made = map_locked-Bound (cursor floor size) size (ground arith) b in
        ground (arith, v, made.1)
  ]

  -- Whatever it answers, `map` leaves a region in order.
  pub map_locked-Inv :
      (vaddr size : ℕ)
      → vaddr < 2 ^ 64
      → size < 2 ^ 64
      → Inv (map_locked room linked r vaddr size vmo offset prot cache).1
  map_locked-Inv vaddr size a b = (map_locked-Bound vaddr size a b).1
