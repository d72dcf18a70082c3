-- ===== src/EarlyHeap/Fit.antt =====
-- The block that `alloc` chooses, and what it becomes.
use archipelago.Prelude.{
  ℕ, suc, ◌+◌, ◌-◌, ◌*◌, ◌/◌, ◌%◌, ◌^◌, ◌≤◌, ◌<◌, ◌≡◌, refl, sym, ap, ◌∙◌, arith, true, false, ◌&&◌,
  none, some, List, [], ◌∷◌, leb, ltb, Bool-cases, inl, inr,
}
use mathlib.Core.Option.{some-injective}
use native.Mathlib.Nat.{div-add-mod', mod-lt, mul-le-mul_right}
use archipelago.EarlyHeap.{Block, align_up, fit, cut, split}
use archipelago.EarlyHeap.Layout.{BlockOk, align_up-cases}

-- A block that serves a request, with the payload in it.
pub record Serves (size alignment p : ℕ) (b : Block) : Type 0 where
  pub free : b.free ≡ true
  pub after_header : b.address + 32 ≤ p
  pub aligned : p % alignment ≡ 0
  pub room : p + size ≤ b.address + b.size

module _ (size alignment : ℕ) (pos : 0 < alignment) (small : alignment < 2 ^ 64) where
  fit-outcome :
      (b : Block) (p : ℕ)
      → fit size alignment b ≡ some p
      → let payload = align_up ((b.address + 32) % 2 ^ 64) alignment in
        (b.free ≡ true) × ((payload + 2 ^ 64 - b.address) % 2 ^ 64 + size ≤ b.size) × (p ≡ payload)
  unfolding fit
  fit-outcome b p h =
      let payload = align_up ((b.address + 32) % 2 ^ 64) alignment in
      let prefix = (payload + 2 ^ 64 - b.address) % 2 ^ 64 in
      elim (Bool-cases b.free) [
        | inr used ↦ let e : fit size alignment b ≡ none = rw (used, fit) refl in absurd (cc (e, h))
        | inl free ↦ elim (Bool-cases (ltb b.size prefix)) [
          | inl short ↦
              let e : fit size alignment b ≡ none = rw (free, fit) (rw (short, fit) refl) in
              absurd (cc (e, h))
          | inr reached ↦ elim (Bool-cases (ltb (b.size - prefix) size)) [
            | inl small ↦
                let e : fit size alignment b ≡ none =
                  rw (free, fit) (rw (reached, fit) (rw (small, fit) refl)) in
                absurd (cc (e, h))
            | inr enough ↦
                let e : fit size alignment b ≡ some payload =
                  rw (free, fit) (rw (reached, fit) (rw (enough, fit) refl)) in
                (free, ground (arith, reached, enough), some-injective _ _ (sym h ∙ e))
          ]
        ]
      ]

  pub fit-Serves :
      (b : Block) (p : ℕ)
      → 0 < b.address
      → b.address + b.size < 2 ^ 64
      → 32 ≤ b.size
      → fit size alignment b ≡ some p
      → Serves size alignment p b
  unfolding fit
  fit-Serves b p start bound header h =
      let payload = align_up ((b.address + 32) % 2 ^ 64) alignment in
      let prefix = (payload + 2 ^ 64 - b.address) % 2 ^ 64 in
      let (free, room, e) = fit-outcome b p h in
      let base : (b.address + 32) % 2 ^ 64 ≡ b.address + 32 = omega (arith, bound, header) in
      elim (align_up-cases ((b.address + 32) % 2 ^ 64) alignment (omega arith) pos small) [
        | inl wrapped ↦ absurd (omega (arith, wrapped, room, start, bound))
        | inr (above, aligned, below) ↦ record {
          free = free;
          after_header = omega (arith, above, e, base);
          aligned = ap (λ x. x % alignment) e ∙ aligned;
          room = omega (arith, room, e, above, below, base);
        }
      ]

multiple_between : (a q k n : ℕ) → q * a ≤ n → n < k * a + a → q * a ≤ k * a
multiple_between a q k n low high = elim (Bool-cases (leb q k)) [
  | inl le ↦ mul-le-mul_right a (ground (arith, le))
  | inr gt ↦
      let more : suc k * a ≤ q * a = mul-le-mul_right a (ground (arith, gt)) in
      let next : suc k * a ≡ k * a + a = omega arith in
      absurd (omega (arith, low, high, more, next))
]

next_multiple : (a k j : ℕ) → k * a < j * a → k * a + a ≤ j * a
next_multiple a k j lt = elim (Bool-cases (ltb k j)) [
  | inl below ↦
      let more : suc k * a ≤ j * a = mul-le-mul_right a (ground (arith, below)) in
      let next : suc k * a ≡ k * a + a = omega arith in omega (arith, more, next)
  | inr above ↦
      let more : j * a ≤ k * a = mul-le-mul_right a (ground (arith, above)) in
      absurd (omega (arith, more, lt))
]

-- Rounding up gives the least multiple of an alignment that divides 2^64, where there is one below 2^64.
align_up_least :
    (v a j p : ℕ)
    → 0 < a
    → j * a ≡ 2 ^ 64
    → v ≤ p
    → p % a ≡ 0
    → p < 2 ^ 64
    → (v ≤ align_up v a) × (align_up v a ≤ p)
unfolding align_up
align_up_least v a j p pos whole le multiple below =
    let n = v + (a - 1) in
    let k = p / a in
    let at : k * a ≡ p = omega (arith, div-add-mod' p a, multiple) in
    let next = next_multiple a k j (omega (arith, at, whole, below)) in
    let e : n % 2 ^ 64 ≡ n = omega (arith, next, at, whole, le, pos) in
    let d = div-add-mod' (n % 2 ^ 64) a in
    let l = mod-lt (n % 2 ^ 64) pos in
    (
      omega (arith, e, d, l, pos),
      omega (
        arith,
        multiple_between a (n % 2 ^ 64 / a) k n (omega (arith, d, e)) (omega (arith, at, le, pos)),
        at,
      ),
    )

-- A block that is not chosen cannot serve the request.
pub fit_none :
    (size a j : ℕ) (b : Block) (p : ℕ)
    → 0 < a
    → j * a ≡ 2 ^ 64
    → 0 < b.address
    → b.address + b.size < 2 ^ 64
    → fit size a b ≡ none
    → ¬ Serves size a p b
unfolding fit
fit_none size a j b p pos whole start bound h s =
    let payload = align_up ((b.address + 32) % 2 ^ 64) a in
    let prefix = (payload + 2 ^ 64 - b.address) % 2 ^ 64 in
    let base : (b.address + 32) % 2 ^ 64 ≡ b.address + 32 =
      omega (arith, s.after_header, s.room, bound) in
    let least =
      align_up_least ((b.address + 32) % 2 ^ 64) a j p pos whole
        (omega (arith, base, s.after_header)) s.aligned (omega (arith, s.room, bound)) in
    let distance : prefix ≡ payload - b.address =
      omega (arith, least, base, s.room, bound, start) in
    let reached : ltb b.size prefix ≡ false = ground (arith, distance, least, s.room) in
    let enough : ltb (b.size - prefix) size ≡ false =
      ground (arith, distance, least, s.room, base) in
    let e : fit size a b ≡ some payload =
      rw (s.free, fit) (rw (reached, fit) (rw (enough, fit) refl)) in
    absurd (cc (e, h))

-- The block that is handed out for a request of `size` bytes at `p`.
pub record Used (size p : ℕ) (b used : Block) : Type 0 where
  pub address : used.address ≡ b.address
  pub free : used.free ≡ false
  pub payload_base : used.payload_base ≡ p
  pub room : p + size ≤ used.address + used.size
  pub ok : BlockOk used

-- What a block becomes.
pub data Split (size p : ℕ) (b : Block) (out : List Block) : Type 0 where
  whole :
      (used : Block)
      → out ≡ used ∷ []
      → Used size p b used
      → used.size ≡ b.size
      → Split size p b out
  parts :
      (used rest : Block)
      → out ≡ used ∷ rest ∷ []
      → Used size p b used
      → rest.address ≡ used.address + used.size
      → rest.free ≡ true
      → BlockOk rest
      → used.size + rest.size ≡ b.size
      → Split size p b out

module _ (size p : ℕ) (b : Block) (after : b.address + 32 ≤ p)
    (room : p + size ≤ b.address + b.size) (ok : BlockOk b)
    (bound : b.address + b.size + 8 ≤ 2 ^ 64) where
  cut-Split :
      (consumed remaining : ℕ)
      → p - b.address + size ≤ consumed
      → (48 ≤ remaining → (consumed + remaining ≡ b.size) × ((b.address + consumed) % 8 ≡ 0))
      → Split size p b (cut p consumed remaining b)
  unfolding cut
  cut-Split consumed remaining enough fits = elim (Bool-cases (leb 48 remaining)) [
    | inl large ↦
        let (sum, aligned) = fits (ground (arith, large)) in
        rw (large, cut)
          (Split.parts _ _ refl
            (record {
              address = refl;
              free = refl;
              payload_base = refl;
              room = omega (arith, after, enough);
              ok = record {
                aligned = ok.aligned;
                header = omega (arith, after, enough);
                unused = λ h. absurd (cc h);
                payload = λ h. (after, omega (arith, after, enough));
              };
            })
            refl refl
            (record {
              aligned = aligned;
              header = ground (arith, large);
              unused = λ h. refl;
              payload = λ h. absurd (cc h);
            })
            sum)
    | inr small ↦
        rw (small, cut)
          (Split.whole _ refl
            (record {
              address = refl;
              free = refl;
              payload_base = refl;
              room = room;
              ok = record {
                aligned = ok.aligned;
                header = ok.header;
                unused = λ h. absurd (cc h);
                payload = λ h. (after, omega (arith, room));
              };
            })
            refl)
  ]

  pub split-Split : Split size p b (split size p b)
  unfolding split align_up
  split-Split =
      let consumed = p - b.address + size in
      let remaining = b.size - consumed in
      let gap = (b.address + consumed + 7) % 2 ^ 64 / 8 * 8 - (b.address + consumed) in
      let low : b.address + consumed ≤ b.address + b.size = omega (arith, after, room) in
      let up : (b.address + consumed + gap) % 8 ≡ 0 = omega (arith, low, bound) in
      elim (Bool-cases (ltb 0 remaining && ltb 0 gap)) [
        | inr still ↦
            rw (still, split)
              (cut-Split consumed remaining (omega arith)
                (λ h. (omega (arith, h), ground (arith, still, h, low, bound))))
        | inl moved ↦ elim (Bool-cases (leb remaining gap)) [
          | inl gone ↦
              rw (moved, split)
                (rw (gone, split)
                  (cut-Split consumed 0 (omega arith) (λ h. absurd (omega (arith, h)))))
          | inr stays ↦
              rw (moved, split)
                (rw (stays, split)
                  (cut-Split (consumed + gap) (remaining - gap) (omega arith)
                    (λ h. (omega (arith, h), ground (arith, up)))))
        ]
      ]
