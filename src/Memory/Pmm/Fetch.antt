-- ===== src/Memory/Pmm/Fetch.antt =====
-- The search of `alloc` for a page, in each of the three places where one may lie.
use archipelago.Prelude.{
  ℕ, ◌-◌, ◌≡◌, refl, ap, ◌∙◌, subst, arith, Bool, true, false, Option, none, some, List, [], ◌∷◌,
  ◌++◌, if◌then◌else◌, Distinct, append-NotIn,
}
use archipelago.Memory.Frames.{Frame, Memory, zero_frame, set_word, zero_page, FrameStack, pop}
use archipelago.Memory.Frames.Stack.{
  IsStack-store, All-store, store_same, pop_empty, pop_top, popped, popped-IsStack,
}
use archipelago.Memory.Pmm.{PageRegion, Pmm, pop_tail, pop_free_page, fetch}
use archipelago.Memory.Pmm.Invariant.{region_frames, ShapeOf, free_frames, Takes, Tails-store}
use archipelago.Memory.Pmm.Tails.{TailTaken, pop_tail-TailTaken}

-- What `fetch` found, before the counters change.
pub data Fetched (p : Pmm) (zs ds : List ℕ) (out : Option ℕ × Pmm) : Type 0 where
  found :
      (a : ℕ) (p' : Pmm) (zs' ds' : List ℕ)
      → out ≡ (some a, p')
      → Takes a (free_frames p zs ds) (free_frames p' zs' ds')
      → ShapeOf p' zs' ds'
      → p'.memory a ≡ zero_frame
      → p'.free_pages ≡ p.free_pages
      → p'.descriptors ≡ p.descriptors
      → Fetched p zs ds out
  drained :
      (p' : Pmm)
      → out ≡ (none, p')
      → free_frames p zs ds ≡ []
      → free_frames p' zs ds ≡ []
      → ShapeOf p' zs ds
      → p'.free_pages ≡ p.free_pages
      → p'.alloc_failures ≡ p.alloc_failures
      → Fetched p zs ds out

fetch_pooled :
    (p : Pmm) (a : ℕ) (m : Memory) (z : FrameStack)
    → pop p.memory p.zeroed ≡ (some a, m, z)
    → fetch p ≡ (some a, record p { memory = m; zeroed = z })
unfolding fetch
fetch_pooled p a m z h =
    rw (h, fetch)
      (ap
        (λ (o : Option ℕ × Memory × FrameStack). (some a, record p { memory = o.1; zeroed = o.2 }))
        h)

fetch_free :
    (p p' : Pmm) (a : ℕ) (pre : Bool) (m : Memory) (z : FrameStack)
    → pop p.memory p.zeroed ≡ (none, m, z)
    → pop_free_page p ≡ (some (a, pre), p')
    → fetch p ≡ (some a, if pre then p' else record p' { memory = zero_page p'.memory a })
unfolding fetch
fetch_free p p' a pre m z h e =
    rw (h, fetch)
      (rw (e, fetch)
        (ap
          (λ (o : Option (ℕ × Bool) × Pmm).
            (some a, if pre then o.1 else record o.1 { memory = zero_page o.1.memory a }))
          e))

fetch_none :
    (p p' : Pmm) (m : Memory) (z : FrameStack)
    → pop p.memory p.zeroed ≡ (none, m, z)
    → pop_free_page p ≡ (none, p')
    → fetch p ≡ (none, p')
unfolding fetch
fetch_none p p' m z h e =
    rw (h, fetch) (rw (e, fetch) (ap (λ (o : Option (ℕ × Bool) × Pmm). (none, o.1)) e))

free_dirty :
    (p : Pmm) (a : ℕ) (m : Memory) (d : FrameStack)
    → pop p.memory p.dirty ≡ (some a, m, d)
    → pop_free_page p ≡ (some (a, false), record p { memory = m; dirty = d })
unfolding pop_free_page
free_dirty p a m d h =
    rw (h, pop_free_page)
      (ap
        (λ (o : Option ℕ × Memory × FrameStack).
          (some (a, false), record p { memory = o.1; dirty = o.2 }))
        h)

free_tail :
    (p : Pmm) (a : ℕ) (pre : Bool) (rs : List PageRegion) (m : Memory) (d : FrameStack)
    → pop p.memory p.dirty ≡ (none, m, d)
    → pop_tail p.regions ≡ (some (a, pre), rs)
    → pop_free_page p ≡ (
      some (a, pre),
      record p {
        regions = rs;
        region_zeroed = if pre then p.region_zeroed - 1 else p.region_zeroed;
      },
    )
unfolding pop_free_page
free_tail p a pre rs m d h e =
    rw (h, pop_free_page)
      (rw (e, pop_free_page)
        (ap
          (λ (o : Option (ℕ × Bool) × List PageRegion). (
            some (a, pre),
            record p {
              regions = o.1;
              region_zeroed = if pre then p.region_zeroed - 1 else p.region_zeroed;
            },
          ))
          e))

free_none :
    (p : Pmm) (rs : List PageRegion) (m : Memory) (d : FrameStack)
    → pop p.memory p.dirty ≡ (none, m, d)
    → pop_tail p.regions ≡ (none, rs)
    → pop_free_page p ≡ (none, record p { regions = rs })
unfolding pop_free_page
free_none p rs m d h e =
    rw (h, pop_free_page)
      (rw (e, pop_free_page)
        (ap (λ (o : Option (ℕ × Bool) × List PageRegion). (none, record p { regions = o.1 })) e))

from_zeroed :
    (p : Pmm) (a : ℕ) (zs ds : List ℕ) → ShapeOf p (a ∷ zs) ds → Fetched p (a ∷ zs) ds (fetch p)
from_zeroed p a zs ds v =
    let (n_zs, n_rest) = append-NotIn a zs (ds ++ region_frames p.regions) v.distinct.0 in
    let (n_ds, n_rs) = append-NotIn a ds (region_frames p.regions) n_rest in
    Fetched.found a
      (record p { memory = set_word p.memory a 0; zeroed = popped p.memory p.zeroed a }) zs ds
      (fetch_pooled p a _ _ (pop_top p.memory p.zeroed a zs v.zeroed))
      (record {
        before = [];
        after = zs ++ (ds ++ region_frames p.regions);
        whole = refl;
        rest = refl;
      })
      (record {
        distinct = v.distinct.1;
        zeroed = popped-IsStack p.memory p.zeroed a zs _ n_zs v.zeroed;
        dirty = IsStack-store p.memory a _ p.dirty ds n_ds v.dirty;
        clean = All-store (λ (f : Frame). f.clean ≡ true) p.memory a _ zs n_zs v.clean.1;
        tails = Tails-store p.memory a _ p.regions n_rs v.tails;
        summed = v.summed;
      })
      (ground (arith, store_same p.memory a (record (p.memory a) { word = 0 }), v.clean.0)) refl
      refl

from_dirty :
    (p : Pmm) (a : ℕ) (ds : List ℕ) → ShapeOf p [] (a ∷ ds) → Fetched p [] (a ∷ ds) (fetch p)
from_dirty p a ds v =
    let (n_ds, n_rs) = append-NotIn a ds (region_frames p.regions) v.distinct.0 in
    let once = set_word p.memory a 0 in
    Fetched.found a (record p { memory = zero_page once a; dirty = popped p.memory p.dirty a }) []
      ds
      (fetch_free p _ a false _ _ (pop_empty p.memory p.zeroed v.zeroed)
        (free_dirty p a _ _ (pop_top p.memory p.dirty a ds v.dirty)))
      (record { before = []; after = ds ++ region_frames p.regions; whole = refl; rest = refl })
      (record {
        distinct = v.distinct.1;
        zeroed =
            IsStack-store once a _ p.zeroed [] tt
              (IsStack-store p.memory a _ p.zeroed [] tt v.zeroed);
        dirty =
            IsStack-store once a _ _ ds n_ds (popped-IsStack p.memory p.dirty a ds _ n_ds v.dirty);
        clean = tt;
        tails =
            Tails-store once a _ p.regions n_rs (Tails-store p.memory a _ p.regions n_rs v.tails);
        summed = v.summed;
      })
      (store_same once a zero_frame) refl refl

from_tails :
    (p : Pmm)
    → ShapeOf p [] []
    → TailTaken p.memory p.regions (pop_tail p.regions)
    → Fetched p [] [] (fetch p)
from_tails p v (TailTaken.exhausted e f z) =
    Fetched.drained (record p { regions = [] })
      (fetch_none p _ _ _ (pop_empty p.memory p.zeroed v.zeroed)
        (free_none p [] _ _ (pop_empty p.memory p.dirty v.dirty) e))
      f refl
      (record {
        distinct = tt;
        zeroed = v.zeroed;
        dirty = v.dirty;
        clean = tt;
        tails = tt;
        summed = v.summed ∙ z;
      })
      refl refl
from_tails p v (TailTaken.taken a true rest e f t z c) =
    Fetched.found a (record p { regions = rest; region_zeroed = p.region_zeroed - 1 }) [] []
      (fetch_free p _ a true _ _ (pop_empty p.memory p.zeroed v.zeroed)
        (free_tail p a true rest _ _ (pop_empty p.memory p.dirty v.dirty) e))
      (record { before = []; after = region_frames rest; whole = f; rest = refl })
      (record {
        distinct = (subst Distinct f v.distinct).1;
        zeroed = v.zeroed;
        dirty = v.dirty;
        clean = tt;
        tails = t;
        summed = omega (arith, v.summed, z);
      })
      (c refl) refl refl
from_tails p v (TailTaken.taken a false rest e f t z c) =
    let d : Distinct (a ∷ region_frames rest) = subst Distinct f v.distinct in
    Fetched.found a (record p { regions = rest; memory = zero_page p.memory a }) [] []
      (fetch_free p _ a false _ _ (pop_empty p.memory p.zeroed v.zeroed)
        (free_tail p a false rest _ _ (pop_empty p.memory p.dirty v.dirty) e))
      (record { before = []; after = region_frames rest; whole = f; rest = refl })
      (record {
        distinct = d.1;
        zeroed = IsStack-store p.memory a _ p.zeroed [] tt v.zeroed;
        dirty = IsStack-store p.memory a _ p.dirty [] tt v.dirty;
        clean = tt;
        tails = Tails-store p.memory a _ rest d.0 t;
        summed = omega (arith, v.summed, z);
      })
      (store_same p.memory a zero_frame) refl refl

pub fetch-Fetched : (p : Pmm) (zs ds : List ℕ) → ShapeOf p zs ds → Fetched p zs ds (fetch p)
fetch-Fetched p (a ∷ zs) ds v = from_zeroed p a zs ds v
fetch-Fetched p [] (a ∷ ds) v = from_dirty p a ds v
fetch-Fetched p [] [] v = from_tails p v (pop_tail-TailTaken p.memory p.regions v.tails)
