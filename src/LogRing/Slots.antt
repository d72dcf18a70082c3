-- ===== src/LogRing/Slots.antt =====
-- Sequence numbers of one window stand in different slots, and what a store to one slot leaves alone.
use archipelago.Prelude.{
  ℕ, ◌+◌, ◌*◌, ◌/◌, ◌%◌, ◌^◌, ◌≤◌, ◌<◌, ◌≡◌, ◌≢◌, sym, ap, subst, arith, true, false, ◌==◌, leb,
  ltb, if◌then◌else◌, Bool-cases, inl, inr,
}
use native.Mathlib.Nat.{div-add-mod, mul-le-mul_left, mul-add}
use archipelago.LogRing.{Slot, put, is_full}
use archipelago.LogRing.Steps.{at}

quotients :
    (capacity a b qa qb m : ℕ)
    → capacity * qa + m ≡ a
    → capacity * qb + m ≡ b
    → a ≤ b
    → b < a + capacity
    → a ≡ b
quotients capacity a b qa qb m ea eb le lt = elim (Bool-cases (qa == qb)) [
  | inl same ↦
      let e : capacity * qa ≡ capacity * qb = ap (λ q. capacity * q) (ground (arith, same)) in
      omega (arith, ea, eb, e)
  | inr other ↦ elim (Bool-cases (ltb qa qb)) [
    | inl lt' ↦
        let h : capacity * (qa + 1) ≤ capacity * qb =
          mul-le-mul_left capacity (ground (arith, lt')) in
        absurd (omega (arith, ea, eb, lt, h, mul-add capacity qa 1))
    | inr gt ↦
        let h : capacity * (qb + 1) ≤ capacity * qa =
          mul-le-mul_left capacity (ground (arith, gt, other)) in
        absurd (omega (arith, ea, eb, le, lt, h, mul-add capacity qb 1))
  ]
]

same_slot-le : (capacity a b : ℕ) → a % capacity ≡ b % capacity → a ≤ b → b < a + capacity → a ≡ b
same_slot-le capacity a b e le lt =
    quotients capacity a b (a / capacity) (b / capacity) (a % capacity) (div-add-mod a capacity)
      (omega (arith, div-add-mod b capacity, e)) le lt

-- Two sequence numbers of a window that share a slot are one.
pub same_slot :
    (capacity low a b : ℕ)
    → a % capacity ≡ b % capacity
    → low ≤ a
    → low ≤ b
    → a < low + capacity
    → b < low + capacity
    → a ≡ b
same_slot capacity low a b e la lb ha hb = elim (Bool-cases (leb a b)) [
  | inl le ↦ same_slot-le capacity a b e (ground (arith, le)) (omega (arith, la, hb))
  | inr gt ↦ sym (same_slot-le capacity b a (sym e) (ground (arith, gt)) (omega (arith, lb, ha)))
]

-- The test of `reserve` on counters that do not wrap.
pub not_full :
    (capacity w r : ℕ)
    → capacity ≤ 2 ^ 63
    → w < 2 ^ 63
    → r ≤ 2 ^ 63
    → is_full capacity w r ≡ false
    → (r ≤ w) × (w < r + capacity)
unfolding is_full
not_full capacity w r hc hw hr h = elim (Bool-cases (leb r w)) [
  | inl le ↦ ground (arith, le, h)
  | inr gt ↦ ground (arith, gt, h)
]

pub put_same : {T : Type 0} (slots : ℕ → Slot T) (i : ℕ) (s : Slot T) → put slots i s i ≡ s
unfolding put
put_same slots i s = ground arith

pub put_other :
    {T : Type 0} (slots : ℕ → Slot T) (i j : ℕ) (s : Slot T) → i ≢ j → put slots i s j ≡ slots j
unfolding put
put_other slots i j s h = ground (arith, h)

pub at_same {ℓ} : {A : Type ℓ} (f : ℕ → A) (i : ℕ) (a : A) → at f i a i ≡ a
at_same f i a = ground arith

pub at_other {ℓ} : {A : Type ℓ} (f : ℕ → A) (i j : ℕ) (a : A) → i ≢ j → at f i a j ≡ f j
at_other f i j a h = ground (arith, h)

-- The slots after a store, where the store keeps what the property needs.
pub on_put {ℓ} :
    {T : Type 0} (P : ℕ → Slot T → Type ℓ) (slots : ℕ → Slot T) (i : ℕ) (s : Slot T)
    → P i s
    → ((j : ℕ) → i ≢ j → P j (slots j))
    → (j : ℕ) → P j (put slots i s j)
on_put P slots i s here other j = elim (Bool-cases (j == i)) [
  | inl same ↦
      let e : i ≡ j = ground (arith, same) in
      subst (λ k. P k (put slots i s k)) e (subst (P i) (sym (put_same slots i s)) here)
  | inr differs ↦
      let n : i ≢ j = ground (arith, differs) in
      subst (P j) (sym (put_other slots i j s n)) (other j n)
]

pub on_at {ℓ ℓ'} :
    {A : Type ℓ} (P : ℕ → A → Type ℓ') (f : ℕ → A) (i : ℕ) (a : A)
    → P i a
    → ((j : ℕ) → i ≢ j → P j (f j))
    → (j : ℕ) → P j (at f i a j)
on_at P f i a here other j = elim (Bool-cases (j == i)) [
  | inl same ↦
      let e : i ≡ j = ground (arith, same) in
      subst (λ k. P k (at f i a k)) e (subst (P i) (sym (at_same f i a)) here)
  | inr differs ↦
      let n : i ≢ j = ground (arith, differs) in subst (P j) (sym (at_other f i j a n)) (other j n)
]

pub put_either {ℓ} :
    {T : Type 0} (P : Slot T → Type ℓ) (slots : ℕ → Slot T) (i j : ℕ) (s : Slot T)
    → P s
    → P (slots j)
    → P (put slots i s j)
unfolding put
put_either P slots i j s new old = elim (j == i) as (λ b. P (if b then s else slots j)) [
  | true ↦ new
  | false ↦ old
]
