-- ===== src/EarlyHeap/RoundTrip.antt =====
-- What `alloc` handed out, `free` takes back: the blocks in use are then those from before.
use archipelago.Prelude.{
  ℕ, ◌+◌, ◌≤◌, ◌<◌, ◌^◌, ◌≡◌, ◌≢◌, refl, sym, ap, ◌∙◌, subst, arith, Bool, true, false, some, List,
  [], ◌∷◌, ◌++◌, if◌then◌else◌, Bool-cases, inl, inr, All, NotIn, Distinct, drop, append-All,
}
use mathlib.Core.Option.{some-injective}
use archipelago.EarlyHeap.{Block, EarlyHeap, serves, alloc, free}
use archipelago.EarlyHeap.Layout.{Tiled, Inv}
use archipelago.EarlyHeap.Fit.{Split}
use archipelago.EarlyHeap.Alloc.{Granted, alloc-Granted}
use archipelago.EarlyHeap.Free.{used_blocks, Returned, free-Returned}

abbrev payloads : List Block → List ℕ
payloads [] = []
payloads (b ∷ bs) = b.payload_base ∷ payloads bs

above-NotIn : (p low : ℕ) (qs : List ℕ) → p < low → All (λ q. low ≤ q) qs → NotIn p qs
above-NotIn p low [] lt all = tt
above-NotIn p low (q ∷ qs) lt all = (omega (arith, lt, all.0), above-NotIn p low qs lt all.1)

weaken : (low low' : ℕ) (qs : List ℕ) → low ≤ low' → All (λ q. low' ≤ q) qs → All (λ q. low ≤ q) qs
weaken low low' [] le all = tt
weaken low low' (q ∷ qs) le all = (omega (arith, le, all.0), weaken low low' qs le all.1)

-- Payloads of blocks in use grow along the heap.
ordered :
    (low high : ℕ) (bs : List Block)
    → Tiled low high bs
    → All (λ q. low + 32 ≤ q) (payloads (used_blocks bs)) × Distinct (payloads (used_blocks bs))
ordered low high [] t = (tt, tt)
ordered low high (b ∷ bs) t =
    let (above, distinct) = ordered (low + b.size) high bs t.2 in
    let later =
      weaken (low + 32) (low + b.size + 32) (payloads (used_blocks bs)) (omega arith) above in
    let choose : Bool → List Block = λ f. if f then used_blocks bs else b ∷ used_blocks bs in
    elim (Bool-cases b.free) [
      | inl idle ↦
          subst (λ us. All (λ q. low + 32 ≤ q) (payloads us) × Distinct (payloads us))
            (sym (ap choose idle)) (later, distinct)
      | inr busy ↦
          let (after, inside) = t.1.payload busy in
          subst (λ us. All (λ q. low + 32 ≤ q) (payloads us) × Distinct (payloads us))
            (sym (ap choose busy))
            (
              (omega (arith, after, t.0), later),
              (
                above-NotIn b.payload_base (low + b.size + 32) (payloads (used_blocks bs))
                    (omega (arith, inside, t.0)) above,
                distinct,
              ),
            )
    ]

middle-NotIn :
    (p : ℕ) (us : List Block) (b : Block) (vs : List Block)
    → NotIn p (payloads (us ++ b ∷ vs))
    → p ≢ b.payload_base
middle-NotIn p [] b vs n = n.0
middle-NotIn p (u ∷ us) b vs n = middle-NotIn p us b vs n.1

head_payload : List Block → ℕ
head_payload [] = 0
head_payload (b ∷ bs) = b.payload_base

first_block : Block → List Block → Block
first_block d [] = d
first_block d (b ∷ bs) = b

unique :
    (xs ys us vs : List Block) (u b : Block)
    → Distinct (payloads (xs ++ u ∷ ys))
    → xs ++ u ∷ ys ≡ us ++ b ∷ vs
    → u.payload_base ≡ b.payload_base
    → xs ++ ys ≡ us ++ vs
unfolding head_payload first_block
unique [] ys [] vs u b d e p = ap (drop 1) e
unique [] ys (w ∷ us) vs u b d e p = absurd (
    middle-NotIn u.payload_base us b vs
      (subst (λ zs. NotIn u.payload_base (payloads zs)) (ap (drop 1) e) d.0) p)
unique (x ∷ xs) ys [] vs u b d e p =
    absurd (middle-NotIn x.payload_base xs u ys d.0 (ap head_payload e ∙ sym p))
unique (x ∷ xs) ys (w ∷ us) vs u b d e p =
    ap (λ c. c ∷ (xs ++ ys)) (ap (first_block x) e)
    ∙ ap (λ zs. w ∷ zs) (unique xs ys us vs u b d.1 (ap (drop 1) e) p)

used-append : (xs ys : List Block) → used_blocks (xs ++ ys) ≡ used_blocks xs ++ used_blocks ys
used-append [] ys = refl
used-append (x ∷ xs) ys = elim (Bool-cases x.free) [
  | inl idle ↦
      ap (λ f. if f then used_blocks (xs ++ ys) else x ∷ used_blocks (xs ++ ys)) idle
      ∙ used-append xs ys
      ∙ ap (λ zs. zs ++ used_blocks ys)
          (sym (ap (λ f. if f then used_blocks xs else x ∷ used_blocks xs) idle))
  | inr busy ↦
      ap (λ f. if f then used_blocks (xs ++ ys) else x ∷ used_blocks (xs ++ ys)) busy
      ∙ ap (λ zs. x ∷ zs) (used-append xs ys)
      ∙ ap (λ zs. zs ++ used_blocks ys)
          (sym (ap (λ f. if f then used_blocks xs else x ∷ used_blocks xs) busy))
]

used-All : (P : Block → Type 0) (bs : List Block) → All P bs → All P (used_blocks bs)
used-All P [] all = tt
used-All P (b ∷ bs) all = elim (Bool-cases b.free) [
  | inl idle ↦
      subst (All P) (sym (ap (λ f. if f then used_blocks bs else b ∷ used_blocks bs) idle))
        (used-All P bs all.1)
  | inr busy ↦
      subst (All P) (sym (ap (λ f. if f then used_blocks bs else b ∷ used_blocks bs) busy))
        (all.0, used-All P bs all.1)
]

used_head :
    (b : Block) (bs : List Block) → b.free ≡ false → used_blocks (b ∷ bs) ≡ b ∷ used_blocks bs
used_head b bs busy = ap (λ f. if f then used_blocks bs else b ∷ used_blocks bs) busy

free_head : (b : Block) (bs : List Block) → b.free ≡ true → used_blocks (b ∷ bs) ≡ used_blocks bs
free_head b bs idle = ap (λ f. if f then used_blocks bs else b ∷ used_blocks bs) idle

record HandedOut (p : ℕ) (parts after : List Block) : Type 0 where
  block : Block
  busy : block.free ≡ false
  payload : block.payload_base ≡ p
  used : used_blocks (parts ++ after) ≡ block ∷ used_blocks after

Split-HandedOut :
    (size p : ℕ) (b : Block) (parts after : List Block)
    → Split size p b parts
    → HandedOut p parts after
Split-HandedOut size p b parts after (Split.whole u e used same) = record {
  block = u;
  busy = used.free;
  payload = used.payload_base;
  used = ap (λ xs. used_blocks (xs ++ after)) e ∙ used_head u after used.free;
}
Split-HandedOut size p b parts after (Split.parts u rest e used next free ok sum) = record {
  block = u;
  busy = used.free;
  payload = used.payload_base;
  used =
      ap (λ xs. used_blocks (xs ++ after)) e
      ∙ used_head u (rest ∷ after) used.free
      ∙ ap (λ xs. u ∷ xs) (free_head rest after free);
}

-- The heap after the pointer that `alloc` returned was given back.
pub record Restored (heap heap' : EarlyHeap) (p : ℕ) : Type 0 where
  pub after : EarlyHeap
  pub freed : free heap' p ≡ some after
  pub same : used_blocks after.blocks ≡ used_blocks heap.blocks
  pub inv : Inv after

give_back :
    (heap heap' : EarlyHeap) (p : ℕ) (before after : List Block) (u : Block)
    → Inv heap'
    → 0 < p
    → u.free ≡ false
    → u.payload_base ≡ p
    → used_blocks heap'.blocks ≡ before ++ u ∷ after
    → used_blocks heap.blocks ≡ before ++ after
    → Returned heap' p (free heap' p)
    → Restored heap heap' p
give_back heap heap' p before after u v pos busy at whole left (Returned.null z e) =
    absurd (omega (arith, pos, z))
give_back heap heap' p before after u v pos busy at whole left (Returned.unknown e all) =
    let others =
      subst (All (λ b. serves p b ≡ false)) whole
        (used-All (λ b. serves p b ≡ false) heap'.blocks all) in
    absurd (
      ground
        (arith, busy, at, (append-All (λ b. serves p b ≡ false) before (u ∷ after) others).1.0))
give_back heap heap' p before after u v pos busy at whole left
      (Returned.freed done b us vs e served whole' left' inv) =
    let distinct =
      subst (λ xs. Distinct (payloads xs)) whole
        (ordered heap'.heap_start heap'.heap_end heap'.blocks v.tiled).1 in
    let target : u.payload_base ≡ b.payload_base = ground (arith, at, served) in
    record {
      after = done;
      freed = e;
      inv = inv;
      same =
          left'
          ∙ sym (unique before after us vs u b distinct (sym whole ∙ whole') target)
          ∙ sym left;
    }

restored :
    (heap heap' : EarlyHeap) (size alignment p : ℕ)
    → Inv heap
    → 0 < size
    → alloc heap size alignment ≡ some (p, heap')
    → Granted heap size alignment (alloc heap size alignment)
    → Restored heap heap' p
restored heap heap' size alignment p v pos e (Granted.null z f) = absurd (omega (arith, pos, z))
restored heap heap' size alignment p v pos e (Granted.refused odd f) = absurd (cc (e, f))
restored heap heap' size alignment p v pos e (Granted.exhausted f all) = absurd (cc (e, f))
restored heap heap' size alignment p v pos e
      (Granted.given q done before b after parts f whole now all serves' cut inv) =
    let h = Split-HandedOut size q b parts after cut in
    subst (λ (o : ℕ × EarlyHeap). Restored heap o.1 o.0) (some-injective _ _ (sym f ∙ e))
      (give_back heap done q (used_blocks before) (used_blocks after) h.block inv
        (omega (arith, serves'.after_header)) h.busy h.payload
        (ap used_blocks now
          ∙ used-append before (parts ++ after)
          ∙ ap (λ xs. used_blocks before ++ xs) h.used)
        (ap used_blocks whole
          ∙ used-append before (b ∷ after)
          ∙ ap (λ xs. used_blocks before ++ xs) (free_head b after serves'.free))
        (free-Returned done q inv))

-- On a heap in order, where `alloc` of a size that is not 0, at an alignment below 2^64, returns a pointer, `free` of that
-- pointer does not stop, and leaves a heap in order with the blocks in use from before.
pub free-alloc :
    (heap heap' : EarlyHeap) (size alignment p : ℕ)
    → Inv heap
    → 0 < size
    → alignment < 2 ^ 64
    → alloc heap size alignment ≡ some (p, heap')
    → Restored heap heap' p
free-alloc heap heap' size alignment p v pos small e =
    restored heap heap' size alignment p v pos e (alloc-Granted heap size alignment v small)
