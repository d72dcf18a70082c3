-- ===== src/EarlyHeap/Powers.antt =====
-- `is_power_of_two`: the powers of two that fit in a 64-bit word divide 2^64.
use archipelago.Prelude.{
  ℕ, zero, suc, ◌-◌, ◌*◌, ◌/◌, ◌%◌, ◌^◌, ◌<◌, ◌≡◌, sym, ap, subst, arith, true, ◌==◌, ltb, bit_and,
  Bool-cases, inl, inr,
}
use archipelago.Prelude.Bits.{bit_and-digits, bit_and_idem}
use native.Mathlib.Nat.{pow-suc}
use archipelago.EarlyHeap.{is_power_of_two, stricter}

pub data Divides (a b : ℕ) : Type 0 where
  times : (k : ℕ) → k * a ≡ b → Divides a b

Divides-double : (m b : ℕ) → Divides m b → Divides (2 * m) (b * 2)
Divides-double m b (Divides.times k e) = Divides.times k (omega (arith, e))

lone_bit : (n v : ℕ) → 0 < v → v < 2 ^ n → bit_and v (v - 1) ≡ 0 → Divides v (2 ^ n)
lone_bit zero v pos small h = absurd (omega (arith, pos, small))
lone_bit (suc n) v pos small h =
    let power = pow-suc 2 n in
    let d = bit_and-digits v (v - 1) in
    elim (Bool-cases (v % 2 == 0)) [
      | inl even' ↦
          let half : (v - 1) / 2 ≡ v / 2 - 1 = ground (arith, even') in
          let upper = ap (bit_and (v / 2)) half in
          let r =
            lone_bit n (v / 2) (ground (arith, even', pos)) (omega (arith, power, small))
              (omega (arith, upper, d, h)) in
          subst (λ a. Divides a (2 ^ suc n)) {x = 2 * (v / 2)} (ground (arith, even'))
            (subst (Divides (2 * (v / 2))) (sym power) (Divides-double (v / 2) (2 ^ n) r))
      | inr odd ↦
          let upper = ap (bit_and (v / 2)) {x = (v - 1) / 2} {y = v / 2} (ground (arith, odd)) in
          let one : v ≡ 1 = ground (arith, odd, upper, bit_and_idem (v / 2), d, h) in
          Divides.times (2 ^ suc n) (subst (λ a. 2 ^ suc n * a ≡ 2 ^ suc n) (sym one) (omega arith))
    ]

pub stricter-Divides :
    (alignment : ℕ)
    → is_power_of_two alignment ≡ true
    → alignment < 2 ^ 64
    → Divides (stricter alignment) (2 ^ 64)
unfolding is_power_of_two
stricter-Divides alignment power small = elim (Bool-cases (ltb alignment 16)) [
  | inl low ↦ rw (low, stricter) (Divides.times (2 ^ 60) (omega arith))
  | inr high ↦
      let sparse : bit_and alignment (alignment - 1) ≡ 0 = ground (arith, power, high) in
      rw (high, stricter) (lone_bit 64 alignment (ground (arith, high)) small sparse)
]
