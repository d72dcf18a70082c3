-- ===== src/Memory/Pmm/Invariant.antt =====
-- The invariant of the frame allocator: the free frames are those of the two stacks and of the
-- regions, without repetition; what should be zero is zero; the counters count.
use archipelago.Prelude.{
  ℕ, zero, suc, ◌+◌, ◌*◌, ◌/◌, ◌%◌, ◌≤◌, ◌≡◌, ◌≢◌, refl, arith, Bool, true, none, some, List, [],
  ◌∷◌, ◌++◌, length, take, get_elem?, get_elem?-set_ne, All, NotIn, Distinct, append-NotIn,
  Option-cases, inl, inr,
}
use archipelago.Memory.Frames.{Frame, Memory, zero_frame, store, FrameStack, page_size}
use archipelago.Memory.Frames.Stack.{IsStack, All-store}
use archipelago.Memory.Descriptors.{Descriptors, PageState, lookup, set_state}
use archipelago.Memory.Pmm.{PageRegion, Pmm, is_free_state}

-- The pages of a region of `n` pages, the last first.
abbrev pub page_run : ℕ → ℕ → List ℕ
page_run start zero = []
page_run start (suc n) = (start + n * page_size) ∷ page_run start n

abbrev pub region_frames : List PageRegion → List ℕ
region_frames [] = []
region_frames (r ∷ rs) = page_run r.start r.count ++ region_frames rs

abbrev pub zero_sum : List PageRegion → ℕ
zero_sum [] = 0
zero_sum (r ∷ rs) = r.zeroed_count + zero_sum rs

-- The counted top pages of the regions are zero.
abbrev pub Tails : Memory → List PageRegion → Type 0
Tails m [] = Unit {0}
Tails m (r ∷ rs) =
    (r.zeroed_count ≤ r.count)
    × All (λ a. m a ≡ zero_frame) (take r.zeroed_count (page_run r.start r.count))
    × Tails m rs

-- How the free frames `zs`, `ds` and those of the regions lie in memory.
pub record Shape (m : Memory) (z d : FrameStack) (rs : List PageRegion) (rz : ℕ) (zs ds : List ℕ)
    : Type 0 where
  pub distinct : Distinct (zs ++ (ds ++ region_frames rs))
  pub zeroed : IsStack m z zs
  pub dirty : IsStack m d ds
  pub clean : All (λ a. (m a).clean ≡ true) zs
  pub tails : Tails m rs
  pub summed : rz ≡ zero_sum rs

abbrev pub ShapeOf : Pmm → List ℕ → List ℕ → Type 0
ShapeOf p zs ds = Shape p.memory p.zeroed p.dirty p.regions p.region_zeroed zs ds

abbrev pub free_frames : Pmm → List ℕ → List ℕ → List ℕ
free_frames p zs ds = zs ++ (ds ++ region_frames p.regions)

-- Whether the descriptor of a frame, if it has one, says that it is free.
abbrev pub marked_free : Descriptors → ℕ → Bool
marked_free descriptors a = elim (lookup descriptors a) [
  | none ↦ true
  | some d ↦ is_free_state d.state
]

pub record IsFree (descriptors : Descriptors) (a : ℕ) : Type 0 where
  pub aligned : a % 4096 ≡ 0
  pub marked : marked_free descriptors a ≡ true

pub record Inv (p : Pmm) (zs ds : List ℕ) : Type 0 where
  pub shape : ShapeOf p zs ds
  pub free : All (IsFree p.descriptors) (free_frames p zs ds)
  pub counted : p.free_pages ≡ length (free_frames p zs ds)

-- `ys` is `xs` without one `a`.
pub record Takes (a : ℕ) (xs ys : List ℕ) : Type 0 where
  pub before : List ℕ
  pub after : List ℕ
  pub whole : xs ≡ before ++ a ∷ after
  pub rest : ys ≡ before ++ after

pub take-All {ℓ} : (P : ℕ → Type ℓ) (n : ℕ) (xs : List ℕ) → All P xs → All P (take n xs)
take-All P zero xs a = tt
take-All P (suc n) [] a = tt
take-All P (suc n) (x ∷ xs) a = (a.0, take-All P n xs a.1)

take-NotIn : (a n : ℕ) (xs : List ℕ) → NotIn a xs → NotIn a (take n xs)
take-NotIn a zero xs h = tt
take-NotIn a (suc n) [] h = tt
take-NotIn a (suc n) (x ∷ xs) h = (h.0, take-NotIn a n xs h.1)

-- A write to a frame that is in no region.
pub Tails-store :
    (m : Memory) (a : ℕ) (f : Frame) (rs : List PageRegion)
    → NotIn a (region_frames rs)
    → Tails m rs
    → Tails (store m a f) rs
Tails-store m a f [] n t = tt
Tails-store m a f (r ∷ rs) n t =
    let (here, later) = append-NotIn a (page_run r.start r.count) (region_frames rs) n in
    (
      t.0,
      All-store (λ x. x ≡ zero_frame) m a f (take r.zeroed_count (page_run r.start r.count))
          (take-NotIn a r.zeroed_count (page_run r.start r.count) here) t.1,
      Tails-store m a f rs later t.2,
    )

-- Another page keeps its descriptor.
pub IsFree-set_state :
    (descriptors : Descriptors) (a b : ℕ) (s : PageState)
    → a % 4096 ≡ 0
    → a ≢ b
    → IsFree descriptors b
    → IsFree (set_state descriptors a s) b
unfolding set_state lookup
IsFree-set_state none a b s h n v = record { aligned = v.aligned; marked = refl }
IsFree-set_state (some array) a b s h n v =
    let apart : a / 4096 ≢ b / 4096 = λ e. n (omega (arith, h, v.aligned)) in
    elim (Option-cases (get_elem? array (a / 4096))) [
      | inl outside ↦ rw (outside, set_state) v
      | inr (d, found) ↦
          rw (found, set_state)
            (record {
              aligned = v.aligned;
              marked = ground (
                arith,
                v.marked,
                get_elem?-set_ne array (a / 4096) (b / 4096) (record d { state = s }) apart,
              );
            })
    ]

pub All-set_state :
    (descriptors : Descriptors) (a : ℕ) (s : PageState) (xs : List ℕ)
    → a % 4096 ≡ 0
    → NotIn a xs
    → All (IsFree descriptors) xs
    → All (IsFree (set_state descriptors a s)) xs
All-set_state descriptors a s [] h n v = tt
All-set_state descriptors a s (x ∷ xs) h n v =
    (IsFree-set_state descriptors a x s h n.0 v.0, All-set_state descriptors a s xs h n.1 v.1)
