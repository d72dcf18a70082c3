-- ===== src/Memory/Pmm/Zero.antt =====
-- `zero_one_page`: free memory becomes zero one page at a time.
use archipelago.Prelude.{
  ℕ, ◌+◌, ◌≤◌, ◌<◌, ◌≡◌, refl, sym, ap, ◌∙◌, subst, arith, Bool, true, false, Option, none, some,
  List, [], ◌∷◌, ◌++◌, ◌==◌, length, length-append, All, All-append, append-All, Distinct,
  append-NotIn, Distinct-remove, Bool-cases, inl, inr,
}
use archipelago.Memory.Frames.{Frame, Memory, zero_frame, store, zero_page, FrameStack, push, pop}
use archipelago.Memory.Frames.Stack.{
  IsStack-store, All-store, store_same, push-IsStack, pop_empty, pop_top, popped, popped-IsStack,
}
use archipelago.Memory.Descriptors.{PageState, set_state}
use archipelago.Memory.Pmm.{PageRegion, Pmm, zeroed_pages, zero_tail, zero_one_page}
use archipelago.Memory.Pmm.Invariant.{region_frames, zero_sum, Tails, IsFree, Inv, Tails-store}
use archipelago.Memory.Pmm.Free.{Inv-insert}
use archipelago.Memory.Pmm.Growth.{
  Place, TailZeroed, Place-NotIn, Place-All, zero_tail-TailZeroed, All-set_free, zero_sum-le,
}

-- The outcomes of `zero_one_page`.
pub data Zeroed (p : Pmm) (zs ds : List ℕ) (out : Bool × Pmm) : Type 0 where
  one :
      (p' : Pmm) (zs' ds' : List ℕ)
      → out ≡ (true, p')
      → zeroed_pages p' ≡ zeroed_pages p + 1
      → p'.free_pages ≡ p.free_pages
      → Inv p' zs' ds'
      → Zeroed p zs ds out
  all_zero : out ≡ (false, p) → zeroed_pages p ≡ p.free_pages → Zeroed p zs ds out

-- The allocator after a dirty page joined the zeroed ones, with the memory `m` once it had left the dirty stack.
drained : Pmm → ℕ → Memory → FrameStack → Pmm
drained p a m d = record p {
  memory = (push (zero_page m a) p.zeroed a).0;
  dirty = d;
  zeroed = (push (zero_page m a) p.zeroed a).1;
  descriptors = set_state p.descriptors a PageState.zeroed;
}

zero_dirty :
    (p : Pmm) (a : ℕ) (m : Memory) (d : FrameStack)
    → pop p.memory p.dirty ≡ (some a, m, d)
    → zero_one_page p ≡ (true, drained p a m d)
unfolding zero_one_page drained
zero_dirty p a m d h =
    rw (h, zero_one_page)
      (ap (λ (o : Option ℕ × Memory × FrameStack). (true, drained p a o.1 o.2)) h)

drained-Inv :
    (p : Pmm) (zs : List ℕ) (a : ℕ) (ds : List ℕ)
    → Inv p zs (a ∷ ds)
    → Inv
        (drained p a
          (store p.memory a (record (p.memory a) { word = 0 }))
          (popped p.memory p.dirty a))
        (a ∷ zs)
        ds
unfolding drained push
drained-Inv p zs a ds v =
    let m = store p.memory a (record (p.memory a) { word = 0 }) in
    let (n, d) = Distinct-remove a zs (ds ++ region_frames p.regions) v.shape.distinct in
    let (n_zs, n_rest) = append-NotIn a zs (ds ++ region_frames p.regions) n in
    let (n_ds, n_rs) = append-NotIn a ds (region_frames p.regions) n_rest in
    let (l, r) =
      append-All (IsFree p.descriptors) zs (a ∷ (ds ++ region_frames p.regions)) v.free in
    let clean : All (λ x. (m x).clean ≡ true) zs =
      All-store (λ (f : Frame). f.clean ≡ true) p.memory a _ zs n_zs v.shape.clean in
    let zero_clean : All (λ x. (zero_page m a x).clean ≡ true) zs =
      All-store (λ (f : Frame). f.clean ≡ true) m a _ zs n_zs clean in
    let zero_zs =
      IsStack-store m a zero_frame p.zeroed zs n_zs
        (IsStack-store p.memory a _ p.zeroed zs n_zs v.shape.zeroed) in
    record {
      shape = record {
        distinct = (n, d);
        zeroed = push-IsStack (zero_page m a) p.zeroed zs a v.shape.dirty.chain.1 n_zs zero_zs;
        dirty = IsStack-store (zero_page m a) a _ _ ds n_ds (
            IsStack-store m a _ _ ds n_ds
              (popped-IsStack p.memory p.dirty a ds _ n_ds v.shape.dirty));
        clean = (
          ground (
            arith,
            store_same (zero_page m a) a (record (zero_page m a a) { word = p.zeroed.head }),
            store_same m a zero_frame,
          ),
          All-store (λ (f : Frame). f.clean ≡ true) (zero_page m a) a _ zs n_zs zero_clean,
        );
        tails = Tails-store (zero_page m a) a _ p.regions n_rs (
            Tails-store m a _ p.regions n_rs
              (Tails-store p.memory a _ p.regions n_rs v.shape.tails));
        summed = v.shape.summed;
      };
      free =
          Inv-insert p.descriptors a PageState.zeroed [] (zs ++ (ds ++ region_frames p.regions))
            refl r.0.aligned n
            (All-append (IsFree p.descriptors) zs (ds ++ region_frames p.regions) l r.1);
      counted = omega (
        arith,
        v.counted,
        length-append zs (ds ++ region_frames p.regions),
        length-append zs (a ∷ (ds ++ region_frames p.regions)),
      );
    }

from_dirty :
    (p : Pmm) (zs : List ℕ) (a : ℕ) (ds : List ℕ)
    → Inv p zs (a ∷ ds)
    → Zeroed p zs (a ∷ ds) (zero_one_page p)
unfolding zeroed_pages drained push
from_dirty p zs a ds v =
    Zeroed.one _ (a ∷ zs) ds (zero_dirty p a _ _ (pop_top p.memory p.dirty a ds v.shape.dirty))
      (omega arith) refl (drained-Inv p zs a ds v)

-- The allocator after the page `a` of a region was cleared.
cleared : Pmm → ℕ → List PageRegion → Pmm
cleared p a rs = record p {
  memory = zero_page p.memory a;
  regions = rs;
  region_zeroed = p.region_zeroed + 1;
  descriptors = set_state p.descriptors a PageState.zeroed;
}

zero_nothing :
    (p : Pmm)
    → pop p.memory p.dirty ≡ (none, p.memory, p.dirty)
    → p.free_pages ≤ zeroed_pages p
    → zero_one_page p ≡ (false, p)
unfolding zero_one_page
zero_nothing p h le = rw (h, zero_one_page) (ground (arith, le))

zero_region :
    (p : Pmm) (a : ℕ) (rs : List PageRegion)
    → pop p.memory p.dirty ≡ (none, p.memory, p.dirty)
    → zeroed_pages p < p.free_pages
    → zero_tail p.regions ≡ (some a, rs)
    → zero_one_page p ≡ (true, cleared p a rs)
unfolding zero_one_page cleared
zero_region p a rs h lt e =
    rw (h, zero_one_page)
      (rw (e, zero_one_page)
        (ground (arith, lt, ap (λ (o : Option ℕ × List PageRegion). cleared p a o.1) e)))

cleared-Inv :
    (p : Pmm) (zs : List ℕ) (a : ℕ) (rs : List PageRegion)
    → Inv p zs []
    → region_frames rs ≡ region_frames p.regions
    → Place a (region_frames p.regions)
    → Tails (zero_page p.memory a) rs
    → zero_sum rs ≡ zero_sum p.regions + 1
    → Inv (cleared p a rs) zs []
unfolding cleared
cleared-Inv p zs a rs v f place t z =
    let n = Place-NotIn a zs (region_frames p.regions) place v.shape.distinct in
    let h =
      (Place-All (IsFree p.descriptors) a (region_frames p.regions) place
        (append-All (IsFree p.descriptors) zs (region_frames p.regions) v.free).1).aligned in
    record {
      shape = record {
        distinct = subst (λ xs. Distinct (zs ++ xs)) (sym f) v.shape.distinct;
        zeroed = IsStack-store p.memory a _ p.zeroed zs n v.shape.zeroed;
        dirty = IsStack-store p.memory a _ p.dirty [] tt v.shape.dirty;
        clean = All-store (λ (f : Frame). f.clean ≡ true) p.memory a _ zs n v.shape.clean;
        tails = t;
        summed = omega (arith, v.shape.summed, z);
      };
      free =
          subst (λ xs. All (IsFree (set_state p.descriptors a PageState.zeroed)) (zs ++ xs)) (sym f)
            (All-set_free p.descriptors a PageState.zeroed (zs ++ region_frames p.regions) refl h
              v.free);
      counted = v.counted ∙ ap (λ xs. length (zs ++ xs)) (sym f);
    }

from_regions :
    (p : Pmm) (zs : List ℕ)
    → Inv p zs []
    → TailZeroed p.memory p.regions (zero_tail p.regions)
    → Zeroed p zs [] (zero_one_page p)
unfolding zeroed_pages cleared
from_regions p zs v (TailZeroed.all_zero e z) =
    let all : zeroed_pages p ≡ p.free_pages = omega (
      arith,
      z,
      v.counted,
      v.shape.summed,
      v.shape.zeroed.counted,
      length-append zs (region_frames p.regions),
    ) in
    Zeroed.all_zero (zero_nothing p (pop_empty p.memory p.dirty v.shape.dirty) (omega (arith, all)))
      all
from_regions p zs v (TailZeroed.grown a rs e f place t z) =
    elim (Bool-cases (p.free_pages == zeroed_pages p)) [
      | inl full ↦
          let all : zeroed_pages p ≡ p.free_pages = ground (arith, full) in
          Zeroed.all_zero
            (zero_nothing p (pop_empty p.memory p.dirty v.shape.dirty) (omega (arith, all))) all
      | inr room ↦
          let le = zero_sum-le p.memory p.regions v.shape.tails in
          let lt : zeroed_pages p < p.free_pages = ground (
            arith,
            room,
            le,
            v.counted,
            v.shape.summed,
            v.shape.zeroed.counted,
            length-append zs (region_frames p.regions),
          ) in
          Zeroed.one (cleared p a rs) zs []
            (zero_region p a rs (pop_empty p.memory p.dirty v.shape.dirty) lt e) (omega arith) refl
            (cleared-Inv p zs a rs v f place t z)
    ]

-- On an allocator in order, `zero_one_page` makes one more free page zero and leaves the allocator in order, with as many
-- free pages, or returns false and changes nothing, when every free page is zero.
pub zero_one_page-Zeroed :
    (p : Pmm) (zs ds : List ℕ) → Inv p zs ds → Zeroed p zs ds (zero_one_page p)
zero_one_page-Zeroed p zs (a ∷ ds) v = from_dirty p zs a ds v
zero_one_page-Zeroed p zs [] v =
    from_regions p zs v (zero_tail-TailZeroed p.memory p.regions v.shape.tails)
