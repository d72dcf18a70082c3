-- ===== src/EarlyHeap/Free.antt =====
-- `free`: the block of the pointer, and only that one, goes out of use, and neighbours that are free
-- become one block.
use archipelago.Prelude.{
  ℕ, ◌+◌, ◌≡◌, refl, sym, ap, ◌∙◌, subst, arith, Bool, true, false, ◌&&◌, Option, none, some, List,
  [], ◌∷◌, ◌++◌, ◌==◌, if◌then◌else◌, Bool-cases, inl, inr, All,
}
use archipelago.EarlyHeap.{Block, EarlyHeap, serves, serves_first, absorb, free_block, free}
use archipelago.EarlyHeap.Layout.{BlockOk, Tiled, Coalesced, starts_free, Inv}

-- The blocks in use.
abbrev pub used_blocks : List Block → List Block
used_blocks [] = []
used_blocks (b ∷ bs) = let rest = used_blocks bs in if b.free then rest else b ∷ rest

record Absorbed (low high : ℕ) (bs out : List Block) : Type 0 where
  tiled : Tiled low high out
  coalesced : Coalesced out
  first : starts_free out ≡ true
  used : used_blocks out ≡ used_blocks bs

absorb-Absorbed :
    (low high : ℕ) (b : Block) (bs : List Block)
    → b.free ≡ true
    → Tiled low high (b ∷ bs)
    → Coalesced bs
    → Absorbed low high bs (absorb b bs)
unfolding absorb
absorb-Absorbed low high b [] free t c = record {
  tiled = t;
  coalesced = (λ h. refl, tt);
  first = free;
  used = rw free refl;
}
absorb-Absorbed low high b (n ∷ ns) free t c =
    let merged : Block = record b { size = b.size + n.size } in
    let choose : Bool → List Block = λ y. if y then absorb merged ns else b ∷ n ∷ ns in
    elim (Bool-cases n.free) [
      | inr used ↦ subst (Absorbed low high (n ∷ ns)) (sym (ap choose used)) (record {
        tiled = t;
        coalesced = (λ h. used, c);
        first = free;
        used = ap (λ y. if y then used_blocks (n ∷ ns) else b ∷ used_blocks (n ∷ ns)) free;
      })
      | inl also ↦
          let ok : BlockOk merged = record {
            aligned = t.1.aligned;
            header = omega (arith, t.1.header);
            unused = t.1.unused;
            payload = λ h. let z : true ≡ false = sym free ∙ h in absurd (cc z);
          } in
          let a =
            absorb-Absorbed low high merged ns free
              (
                t.0,
                ok,
                subst (λ x. Tiled x high ns) {x = low + b.size + n.size} (omega arith) t.2.2,
              )
              c.1 in
          subst (Absorbed low high (n ∷ ns)) (sym (ap choose also)) (record {
            tiled = a.tiled;
            coalesced = a.coalesced;
            first = a.first;
            used = a.used ∙ sym (ap (λ y. if y then used_blocks ns else n ∷ used_blocks ns) also);
          })
    ]

-- The outcomes of `free_block`.
pub data Released (target low high : ℕ) (bs : List Block) (out : Option (List Block)) : Type 0 where
  released :
      (rest : List Block) (b : Block) (before after : List Block)
      → out ≡ some rest
      → Tiled low high rest
      → Coalesced rest
      → (serves_first target bs ≡ false → starts_free rest ≡ starts_free bs)
      → serves target b ≡ true
      → used_blocks bs ≡ before ++ b ∷ after
      → used_blocks rest ≡ before ++ after
      → Released target low high bs out
  unknown : out ≡ none → All (λ b. serves target b ≡ false) bs → Released target low high bs out

and_false : (x y : Bool) → (x && y) ≡ false → x ≡ true → y ≡ false
and_false true y h e = h
and_false false y h e = absurd (cc e)

and_true : (x y : Bool) → (x && y) ≡ true → x ≡ true
and_true true y h = refl
and_true false y h = h

serves-used : (target : ℕ) (b : Block) → serves target b ≡ true → b.free ≡ false
serves-used target b h = ground (arith, h)

release :
    (target low high : ℕ) (b : Block) (bs : List Block)
    → serves target b ≡ true
    → Tiled low high (b ∷ bs)
    → Coalesced bs
    → Released target low high (b ∷ bs) (free_block target (b ∷ bs))
unfolding free_block
release target low high b bs h t c =
    let ok : BlockOk (record b { free = true; payload_base = 0 }) = record {
      aligned = t.1.aligned;
      header = t.1.header;
      unused = λ e. refl;
      payload = λ e. absurd (cc e);
    } in
    let a =
      absorb-Absorbed low high (record b { free = true; payload_base = 0 }) bs refl (t.0, ok, t.2)
        c in
    Released.released (absorb (record b { free = true; payload_base = 0 }) bs) b [] (used_blocks bs)
      (rw (h, free_block) refl) a.tiled a.coalesced
      (λ e. let z : true ≡ false = sym h ∙ e in absurd (cc z)) h (rw (serves-used target b h) refl)
      a.used

pass_over :
    (target low high : ℕ) (b : Block) (bs : List Block)
    → serves target b ≡ false
    → Tiled low high (b ∷ bs)
    → Coalesced (b ∷ bs)
    → Released target (low + b.size) high bs (free_block target bs)
    → Released target low high (b ∷ bs) (free_block target (b ∷ bs))
unfolding free_block
pass_over target low high b bs h t c (Released.unknown e all) =
    Released.unknown (rw (h, free_block) (rw (e, free_block) refl)) (h, all)
pass_over target low high b bs h t c
      (Released.released rest x before after e t' c' same served whole left) =
    elim (Bool-cases (b.free && serves_first target bs)) [
      | inl joins ↦
          let free : b.free ≡ true = and_true b.free (serves_first target bs) joins in
          let a = absorb-Absorbed low high b rest free (t.0, t.1, t') c' in
          let out : free_block target (b ∷ bs) ≡ some (absorb b rest) =
            rw (h, free_block) (rw (e, free_block) (rw (joins, free_block) refl)) in
          Released.released (absorb b rest) x before after out a.tiled a.coalesced
            (λ f. a.first ∙ sym free) served
            (ap (λ y. if y then used_blocks bs else b ∷ used_blocks bs) free ∙ whole)
            (a.used ∙ left)
      | inr apart ↦
          let out : free_block target (b ∷ bs) ≡ some (b ∷ rest) =
            rw (h, free_block) (rw (e, free_block) (rw (apart, free_block) refl)) in
          let ordered : Coalesced (b ∷ rest) =
            (λ f. same (and_false b.free (serves_first target bs) apart f) ∙ c.0 f, c') in
          elim (Bool-cases b.free) [
            | inl free ↦
                Released.released (b ∷ rest) x before after out (t.0, t.1, t') ordered (λ f. refl)
                  served (ap (λ y. if y then used_blocks bs else b ∷ used_blocks bs) free ∙ whole)
                  (ap (λ y. if y then used_blocks rest else b ∷ used_blocks rest) free ∙ left)
            | inr busy ↦
                Released.released (b ∷ rest) x (b ∷ before) after out (t.0, t.1, t') ordered
                  (λ f. refl) served
                  (ap (λ y. if y then used_blocks bs else b ∷ used_blocks bs) busy
                    ∙ ap (λ xs. b ∷ xs) whole)
                  (ap (λ y. if y then used_blocks rest else b ∷ used_blocks rest) busy
                    ∙ ap (λ xs. b ∷ xs) left)
          ]
    ]

free_block-Released :
    (target low high : ℕ) (bs : List Block)
    → Tiled low high bs
    → Coalesced bs
    → Released target low high bs (free_block target bs)
unfolding free_block
free_block-Released target low high [] t c = Released.unknown refl tt
free_block-Released target low high (b ∷ bs) t c = elim (Bool-cases (serves target b)) [
  | inl hit ↦ release target low high b bs hit t c.1
  | inr miss ↦
      pass_over target low high b bs miss t c
        (free_block-Released target (low + b.size) high bs t.2 c.1)
]

-- The outcomes of `free`.
pub data Returned (heap : EarlyHeap) (target : ℕ) (out : Option EarlyHeap) : Type 0 where
  null : target ≡ 0 → out ≡ some heap → Returned heap target out
  freed :
      (heap' : EarlyHeap) (b : Block) (before after : List Block)
      → out ≡ some heap'
      → serves target b ≡ true
      → used_blocks heap.blocks ≡ before ++ b ∷ after
      → used_blocks heap'.blocks ≡ before ++ after
      → Inv heap'
      → Returned heap target out
  unknown : out ≡ none → All (λ b. serves target b ≡ false) heap.blocks → Returned heap target out

finish :
    (heap : EarlyHeap) (target : ℕ)
    → Inv heap
    → (target == 0) ≡ false
    → Released target heap.heap_start heap.heap_end heap.blocks (free_block target heap.blocks)
    → Returned heap target (free heap target)
unfolding free
finish heap target v h (Released.unknown e all) =
    Returned.unknown (rw (h, free) (rw (e, free) refl)) all
finish heap target v h (Released.released rest b before after e t c same served whole left) =
    Returned.freed (record heap { blocks = rest; free_calls = heap.free_calls + 1 }) b before after
      (rw (h, free) (rw (e, free) refl)) served whole left
      (record { positive = v.positive; bounded = v.bounded; tiled = t; coalesced = c })

-- On a heap in order, `free` of a pointer takes exactly the block of that payload out of use, leaves the blocks in use
-- otherwise as they were and the heap in order, with neighbours that are free merged; it stops when no block in use has that
-- payload, and ignores the null pointer.
pub free-Returned :
    (heap : EarlyHeap) (target : ℕ) → Inv heap → Returned heap target (free heap target)
unfolding free
free-Returned heap target v = elim (Bool-cases (target == 0)) [
  | inl null' ↦ Returned.null (ground (arith, null')) (rw (null', free) refl)
  | inr pointer ↦
      finish heap target v pointer
        (free_block-Released target heap.heap_start heap.heap_end heap.blocks v.tiled v.coalesced)
]
