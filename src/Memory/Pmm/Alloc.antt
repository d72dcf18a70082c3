-- ===== src/Memory/Pmm/Alloc.antt =====
-- `alloc`: the page it takes.
use archipelago.Prelude.{
  ℕ, ◌+◌, ◌-◌, ◌≡◌, sym, ap, ◌∙◌, subst, arith, Option, none, some, List, [], ◌∷◌, ◌++◌, length,
  length-append, All, All-append, append-All, Distinct, Distinct-remove,
}
use archipelago.Memory.Frames.{zero_frame}
use archipelago.Memory.Descriptors.{Descriptors, PageState, set_state}
use archipelago.Memory.Pmm.{Pmm, fetch, alloc}
use archipelago.Memory.Pmm.Invariant.{free_frames, IsFree, Inv, Takes, All-set_state}
use archipelago.Memory.Pmm.Fetch.{Fetched, fetch-Fetched}

-- The outcomes of `alloc`.
pub data Allocated (p : Pmm) (zs ds : List ℕ) (out : Option ℕ × Pmm) : Type 0 where
  page :
      (a : ℕ) (p' : Pmm) (zs' ds' : List ℕ)
      → out ≡ (some a, p')
      → Takes a (free_frames p zs ds) (free_frames p' zs' ds')
      → p'.memory a ≡ zero_frame
      → Inv p' zs' ds'
      → Allocated p zs ds out
  no_page :
      (p' : Pmm)
      → out ≡ (none, p')
      → free_frames p zs ds ≡ []
      → Inv p' zs ds
      → p'.alloc_failures ≡ p.alloc_failures + 1
      → Allocated p zs ds out

alloc_found :
    (p p' : Pmm) (a : ℕ)
    → fetch p ≡ (some a, p')
    → alloc p ≡ (
      some a,
      record p' {
        free_pages = p'.free_pages - 1;
        alloc_count = p'.alloc_count + 1;
        descriptors = set_state p'.descriptors a PageState.active;
      },
    )
unfolding alloc
alloc_found p p' a e =
    rw (e, alloc)
      (ap
        (λ (o : Option ℕ × Pmm). (
          some a,
          record o.1 {
            free_pages = o.1.free_pages - 1;
            alloc_count = o.1.alloc_count + 1;
            descriptors = set_state o.1.descriptors a PageState.active;
          },
        ))
        e)

alloc_none :
    (p p' : Pmm)
    → fetch p ≡ (none, p')
    → alloc p ≡ (none, record p' { alloc_failures = p'.alloc_failures + 1 })
unfolding alloc
alloc_none p p' e =
    rw (e, alloc)
      (ap (λ (o : Option ℕ × Pmm). (none, record o.1 { alloc_failures = o.1.alloc_failures + 1 }))
        e)

-- A frame that is taken leaves the free ones in order.
pub Takes-rest :
    (ds : Descriptors) (a : ℕ) (s : PageState) (xs ys : List ℕ)
    → Takes a xs ys
    → Distinct xs
    → All (IsFree ds) xs
    → All (IsFree (set_state ds a s)) ys × (length xs ≡ length ys + 1)
Takes-rest ds a s xs ys t d v =
    let (left, right) =
      append-All (IsFree ds) t.before (a ∷ t.after) (subst (All (IsFree ds)) t.whole v) in
    let (apart, d') = Distinct-remove a t.before t.after (subst Distinct t.whole d) in
    (
      subst (All (IsFree (set_state ds a s))) (sym t.rest) (
          All-set_state ds a s (t.before ++ t.after) right.0.aligned apart
            (All-append (IsFree ds) t.before t.after left right.1)),
      omega (
        arith,
        ap length t.whole,
        ap length t.rest,
        length-append t.before (a ∷ t.after),
        length-append t.before t.after,
      ),
    )

counted_out :
    (p : Pmm) (zs ds : List ℕ)
    → Inv p zs ds
    → Fetched p zs ds (fetch p)
    → Allocated p zs ds (alloc p)
counted_out p zs ds v (Fetched.drained p' e f f' s n k) =
    Allocated.no_page _ (alloc_none p p' e) f
      (record {
        shape = s;
        free = subst (All (IsFree p'.descriptors)) (sym f') tt;
        counted = n ∙ (v.counted ∙ ap length (f ∙ sym f'));
      })
      (omega (arith, k))
counted_out p zs ds v (Fetched.found a p' zs' ds' e t s z n d) =
    let (marked, len) = Takes-rest p.descriptors a PageState.active _ _ t v.shape.distinct v.free in
    Allocated.page a _ zs' ds' (alloc_found p p' a e) t z (record {
      shape = s;
      free =
          subst (λ x. All (IsFree (set_state x a PageState.active)) (free_frames p' zs' ds'))
            (sym d) marked;
      counted = omega (arith, n, len, v.counted);
    })

-- On an allocator in order, `alloc` takes exactly one of the free frames, which is zero, and leaves the rest in order; it
-- fails, and counts the failure, only when no frame is free.
pub alloc-Allocated : (p : Pmm) (zs ds : List ℕ) → Inv p zs ds → Allocated p zs ds (alloc p)
alloc-Allocated p zs ds v = counted_out p zs ds v (fetch-Fetched p zs ds v.shape)
