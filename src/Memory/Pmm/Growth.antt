-- ===== src/Memory/Pmm/Growth.antt =====
-- `zero_tail`: the page of a region that becomes zero next.
use archipelago.Prelude.{
  ℕ, zero, suc, ◌+◌, ◌-◌, ◌*◌, ◌%◌, ◌≤◌, ◌<◌, ◌≡◌, ◌≢◌, refl, sym, ap, ◌∙◌, subst, arith, true,
  Option, none, some, List, [], ◌∷◌, ◌++◌, ◌==◌, length, length-append, append_assoc, take, All,
  append-All, NotIn, Distinct, append-NotIn, Distinct-remove, Bool-cases, inl, inr,
}
use archipelago.Memory.Frames.{Memory, zero_frame, store, zero_page, page_size}
use archipelago.Memory.Frames.Stack.{store_same}
use archipelago.Memory.Descriptors.{Descriptors, PageState, set_state}
use archipelago.Memory.Pmm.{PageRegion, is_free_state, zero_tail}
use archipelago.Memory.Pmm.Invariant.{
  page_run, region_frames, zero_sum, Tails, IsFree, IsFree-set_state,
}
use archipelago.Memory.Pmm.Free.{set_state-marked}

stays_zero :
    (m : Memory) (a : ℕ) (xs : List ℕ)
    → All (λ x. m x ≡ zero_frame) xs
    → All (λ x. zero_page m a x ≡ zero_frame) xs
unfolding store
stays_zero m a [] v = tt
stays_zero m a (x ∷ xs) v = (ground (arith, v.0), stays_zero m a xs v.1)

Tails-zero : (m : Memory) (a : ℕ) (rs : List PageRegion) → Tails m rs → Tails (zero_page m a) rs
Tails-zero m a [] t = tt
Tails-zero m a (r ∷ rs) t = (
  t.0,
  stays_zero m a (take r.zeroed_count (page_run r.start r.count)) t.1,
  Tails-zero m a rs t.2,
)

-- One more page of a run.
All-take_next :
    (P : ℕ → Type 0) (start n k : ℕ)
    → k < n
    → All P (take k (page_run start n))
    → P (start + (n - k - 1) * page_size)
    → All P (take (suc k) (page_run start n))
All-take_next P start zero k h v p = absurd (omega (arith, h))
All-take_next P start (suc n) zero h v p =
    (subst (λ x. P (start + x * page_size)) (omega arith) p, tt)
All-take_next P start (suc n) (suc k) h v p = (
  v.0,
  All-take_next P start n k (omega (arith, h)) v.1
      (subst (λ x. P (start + x * page_size)) (omega arith) p),
)

length-page_run : (start n : ℕ) → length (page_run start n) ≡ n
length-page_run start zero = refl
length-page_run start (suc n) = omega (arith, length-page_run start n)

-- An element and what stands around it.
pub record Place (a : ℕ) (xs : List ℕ) : Type 0 where
  pub before : List ℕ
  pub after : List ℕ
  pub whole : xs ≡ before ++ a ∷ after

page_run-Place : (start n k : ℕ) → k < n → Place (start + k * page_size) (page_run start n)
page_run-Place start zero k h = absurd (omega (arith, h))
page_run-Place start (suc n) k h = elim (Bool-cases (k == n)) [
  | inl last ↦
      let e : n ≡ k = ground (arith, last) in
      record {
        before = [];
        after = page_run start n;
        whole = ap (λ x. (start + x * page_size) ∷ page_run start n) e;
      }
  | inr earlier ↦
      let p = page_run-Place start n k (ground (arith, earlier, h)) in
      record {
        before = (start + n * page_size) ∷ p.before;
        after = p.after;
        whole = ap (λ xs. (start + n * page_size) ∷ xs) p.whole;
      }
]

Place-append : (a : ℕ) (xs ys : List ℕ) → Place a xs → Place a (xs ++ ys)
Place-append a xs ys p = record {
  before = p.before;
  after = p.after ++ ys;
  whole = ap (λ zs. zs ++ ys) p.whole ∙ append_assoc p.before (a ∷ p.after) ys;
}

append-Place : (a : ℕ) (xs ys : List ℕ) → Place a ys → Place a (xs ++ ys)
append-Place a xs ys p = record {
  before = xs ++ p.before;
  after = p.after;
  whole = ap (λ zs. xs ++ zs) p.whole ∙ sym (append_assoc xs p.before (a ∷ p.after));
}

-- What occurs in the second part of a list without repetition is not in the first.
pub Place-NotIn : (a : ℕ) (xs ys : List ℕ) → Place a ys → Distinct (xs ++ ys) → NotIn a xs
Place-NotIn a xs ys p d =
    let whole : xs ++ ys ≡ (xs ++ p.before) ++ a ∷ p.after =
      ap (λ zs. xs ++ zs) p.whole ∙ sym (append_assoc xs p.before (a ∷ p.after)) in
    let n = (Distinct-remove a (xs ++ p.before) p.after (subst Distinct whole d)).0 in
    (append-NotIn a xs p.before (append-NotIn a (xs ++ p.before) p.after n).0).0

pub Place-All : (P : ℕ → Type 0) (a : ℕ) (xs : List ℕ) → Place a xs → All P xs → P a
Place-All P a xs p v = (append-All P p.before (a ∷ p.after) (subst (All P) p.whole v)).1.0

-- The outcomes of `zero_tail`.
pub data TailZeroed (m : Memory) (rs : List PageRegion) (out : Option ℕ × List PageRegion)
    : Type 0 where
  grown :
      (a : ℕ) (rs' : List PageRegion)
      → out ≡ (some a, rs')
      → region_frames rs' ≡ region_frames rs
      → Place a (region_frames rs)
      → Tails (zero_page m a) rs'
      → zero_sum rs' ≡ zero_sum rs + 1
      → TailZeroed m rs out
  all_zero : out ≡ (none, rs) → zero_sum rs ≡ length (region_frames rs) → TailZeroed m rs out

zero_tail_region :
    (m : Memory) (r : PageRegion) (rs : List PageRegion)
    → Tails m (r ∷ rs)
    → TailZeroed m rs (zero_tail rs)
    → r.zeroed_count ≢ r.count
    → TailZeroed m (r ∷ rs) (zero_tail (r ∷ rs))
unfolding zero_tail
zero_tail_region m r rs t later h =
    let a = r.start + (r.count - r.zeroed_count - 1) * page_size in
    let lt : r.zeroed_count < r.count = omega (arith, t.0, h) in
    TailZeroed.grown a (record r { zeroed_count = r.zeroed_count + 1 } ∷ rs) (ground (arith, h))
      refl
      (Place-append a (page_run r.start r.count) (region_frames rs)
        (page_run-Place r.start r.count (r.count - r.zeroed_count - 1) (omega (arith, lt))))
      (
        omega (arith, lt),
        subst (λ n. All (λ x. zero_page m a x ≡ zero_frame) (take n (page_run r.start r.count)))
            {x = suc r.zeroed_count} (omega arith)
            (All-take_next (λ x. zero_page m a x ≡ zero_frame) r.start r.count r.zeroed_count lt
              (stays_zero m a (take r.zeroed_count (page_run r.start r.count)) t.1)
              (store_same m a zero_frame)),
        Tails-zero m a rs t.2,
      )
      (omega arith)

zero_tail_full :
    (m : Memory) (r : PageRegion) (rs : List PageRegion)
    → TailZeroed m rs (zero_tail rs)
    → Tails m (r ∷ rs)
    → r.zeroed_count ≡ r.count
    → TailZeroed m (r ∷ rs) (zero_tail (r ∷ rs))
unfolding zero_tail
zero_tail_full m r rs (TailZeroed.all_zero e z) t h = TailZeroed.all_zero (ground (arith, e, h)) (
    omega (
      arith,
      z,
      h,
      length-append (page_run r.start r.count) (region_frames rs),
      length-page_run r.start r.count,
    ))
zero_tail_full m r rs (TailZeroed.grown a rs' e f p t' z) t h =
    TailZeroed.grown a (r ∷ rs') (ground (arith, e, h)) (ap (λ x. page_run r.start r.count ++ x) f)
      (append-Place a (page_run r.start r.count) (region_frames rs) p)
      (t.0, stays_zero m a (take r.zeroed_count (page_run r.start r.count)) t.1, t')
      (omega (arith, z))

pub zero_tail-TailZeroed :
    (m : Memory) (rs : List PageRegion) → Tails m rs → TailZeroed m rs (zero_tail rs)
unfolding zero_tail
zero_tail-TailZeroed m [] t = TailZeroed.all_zero refl refl
zero_tail-TailZeroed m (r ∷ rs) t = elim (Bool-cases (r.zeroed_count == r.count)) [
  | inl full ↦ zero_tail_full m r rs (zero_tail-TailZeroed m rs t.2) t (ground (arith, full))
  | inr room ↦ zero_tail_region m r rs t (zero_tail-TailZeroed m rs t.2) (ground (arith, room))
]

pub All-set_free :
    (ds : Descriptors) (a : ℕ) (s : PageState) (xs : List ℕ)
    → is_free_state s ≡ true
    → a % 4096 ≡ 0
    → All (IsFree ds) xs
    → All (IsFree (set_state ds a s)) xs
All-set_free ds a s [] f h v = tt
All-set_free ds a s (x ∷ xs) f h v = (
  elim (Bool-cases (a == x)) [
    | inl same ↦
        subst (IsFree (set_state ds a s)) (ground (arith, same))
          (record { aligned = h; marked = set_state-marked ds a s f })
    | inr other ↦ IsFree-set_state ds a x s h (ground (arith, other)) v.0
  ],
  All-set_free ds a s xs f h v.1,
)

pub zero_sum-le :
    (m : Memory) (rs : List PageRegion) → Tails m rs → zero_sum rs ≤ length (region_frames rs)
zero_sum-le m [] t = omega arith
zero_sum-le m (r ∷ rs) t = omega (
  arith,
  t.0,
  zero_sum-le m rs t.2,
  length-append (page_run r.start r.count) (region_frames rs),
  length-page_run r.start r.count,
)
