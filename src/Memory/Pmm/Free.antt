-- ===== src/Memory/Pmm/Free.antt =====
-- `free`: what it takes back, and the double free it refuses.
use archipelago.Prelude.{
  ℕ, ◌+◌, ◌/◌, ◌%◌, ◌≡◌, refl, sym, subst, arith, true, false, Option, none, some, List, [], ◌∷◌,
  ◌++◌, length-append, All, All-append, append-All, NotIn, append-NotIn, Distinct-insert,
  Bool-cases, Option-cases, inl, inr, get_elem?, get_elem?-set_self, get_elem?-lt,
}
use archipelago.Memory.Frames.{Frame, push}
use archipelago.Memory.Frames.Stack.{IsStack-store, All-store, push-IsStack}
use archipelago.Memory.Descriptors.{Descriptors, PageState, PageDescriptor, lookup, set_state}
use archipelago.Memory.Pmm.{Pmm, is_free_state, free}
use archipelago.Memory.Pmm.Invariant.{
  region_frames, free_frames, marked_free, IsFree, Inv, Tails-store, All-set_state,
}

-- A page that a descriptor marks as taken is not among the free ones.
pub marked-NotIn :
    (ds : Descriptors) (a : ℕ) (xs : List ℕ)
    → marked_free ds a ≡ false
    → All (IsFree ds) xs
    → NotIn a xs
marked-NotIn ds a [] h v = tt
marked-NotIn ds a (x ∷ xs) h v = (
  λ e. absurd (cc (subst (λ y. marked_free ds y ≡ true) (sym e) v.0.marked)),
  marked-NotIn ds a xs h v.1,
)

pub set_state-marked :
    (ds : Descriptors) (a : ℕ) (s : PageState)
    → is_free_state s ≡ true
    → marked_free (set_state ds a s) a ≡ true
unfolding set_state lookup
set_state-marked none a s h = refl
set_state-marked (some array) a s h = elim (Option-cases (get_elem? array (a / 4096))) [
  | inl outside ↦ rw (outside, set_state) (ground (arith, outside))
  | inr (d, found) ↦
      rw (found, set_state)
        (ground (
          arith,
          h,
          get_elem?-set_self array (a / 4096) (record d { state = s })
              (get_elem?-lt array (a / 4096) found),
        ))
]

-- A page put on a list of free ones.
pub Inv-insert :
    (ds : Descriptors) (a : ℕ) (s : PageState) (xs ys : List ℕ)
    → is_free_state s ≡ true
    → a % 4096 ≡ 0
    → NotIn a (xs ++ ys)
    → All (IsFree ds) (xs ++ ys)
    → All (IsFree (set_state ds a s)) (xs ++ a ∷ ys)
Inv-insert ds a s xs ys f h n v =
    let (l, r) =
      append-All (IsFree (set_state ds a s)) xs ys (All-set_state ds a s (xs ++ ys) h n v) in
    All-append (IsFree (set_state ds a s)) xs (a ∷ ys) l
      (record { aligned = h; marked = set_state-marked ds a s f }, r)

-- The allocator after it took back `a`.
abbrev pub freed : Pmm → ℕ → Pmm
freed p a = record p {
  memory = (push p.memory p.dirty a).0;
  dirty = (push p.memory p.dirty a).1;
  free_pages = p.free_pages + 1;
  free_count = p.free_count + 1;
  descriptors = set_state p.descriptors a PageState.free;
}

pub freed-Inv :
    (p : Pmm) (zs ds : List ℕ) (a : ℕ)
    → Inv p zs ds
    → a % 4096 ≡ 0
    → NotIn a (free_frames p zs ds)
    → Inv (freed p a) zs (a ∷ ds)
unfolding push
freed-Inv p zs ds a v h n =
    let (n_zs, n_rest) = append-NotIn a zs (ds ++ region_frames p.regions) n in
    let (n_ds, n_rs) = append-NotIn a ds (region_frames p.regions) n_rest in
    record {
      shape = record {
        distinct = Distinct-insert a zs (ds ++ region_frames p.regions) n v.shape.distinct;
        zeroed = IsStack-store p.memory a _ p.zeroed zs n_zs v.shape.zeroed;
        dirty = push-IsStack p.memory p.dirty ds a (λ e. omega (arith, h, e)) n_ds v.shape.dirty;
        clean = All-store (λ (f : Frame). f.clean ≡ true) p.memory a _ zs n_zs v.shape.clean;
        tails = Tails-store p.memory a _ p.regions n_rs v.shape.tails;
        summed = v.shape.summed;
      };
      free =
          Inv-insert p.descriptors a PageState.free zs (ds ++ region_frames p.regions) refl h n
            v.free;
      counted = omega (
        arith,
        v.counted,
        length-append zs (ds ++ region_frames p.regions),
        length-append zs (a ∷ (ds ++ region_frames p.regions)),
      );
    }

-- The outcomes of `free`.
pub data Freed (p : Pmm) (zs ds : List ℕ) (a : ℕ) (out : Option Pmm) : Type 0 where
  returned :
      (p' : Pmm)
      → out ≡ some p'
      → NotIn a (free_frames p zs ds)
      → Inv p' zs (a ∷ ds)
      → Freed p zs ds a out
  double : out ≡ none → marked_free p.descriptors a ≡ true → Freed p zs ds a out

-- On an allocator in order, `free` of an aligned frame that has a descriptor either puts a frame that was not free on the
-- dirty stack, where it is free exactly once, or stops at a descriptor that says that the frame is free.
pub free-Freed :
    (p : Pmm) (zs ds : List ℕ) (a : ℕ) (d : PageDescriptor)
    → Inv p zs ds
    → a % 4096 ≡ 0
    → lookup p.descriptors a ≡ some d
    → Freed p zs ds a (free p a)
unfolding free
free-Freed p zs ds a d v h e = elim (Bool-cases (is_free_state d.state)) [
  | inl holds ↦ Freed.double (ground (arith, e, holds)) (ground (arith, e, holds))
  | inr fails ↦
      let n =
        marked-NotIn p.descriptors a (free_frames p zs ds) (ground (arith, e, fails)) v.free in
      Freed.returned (freed p a) (ground (arith, e, fails)) n (freed-Inv p zs ds a v h n)
]
