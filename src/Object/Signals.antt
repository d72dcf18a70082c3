-- ===== src/Object/Signals.antt =====
-- The three low signal bits of an object under `signal_set` and `signal_clear`.
use native.Mathlib.Nat.{
  pow-suc, one-le-pow, mod-lt, mod-eq_of_lt, div-add-mod, mul-add-mod_self_left,
}
use archipelago.Prelude.{
  ℕ, zero, suc, ◌+◌, ◌*◌, ◌/◌, ◌%◌, ◌-◌, ◌^◌, ◌<◌, ◌≤◌, ◌≡◌, arith, bit_and, bit_or, ap, ◌∙◌,
}
use archipelago.Prelude.Bits.{bit_and-digits, bit_or-digits, bit_and-nothing, nothing-bit_or}
use archipelago.Object.{signal_set, signal_clear}

bit_or-zero_fuel : (n a : ℕ) → a ≤ n → bit_or a 0 ≡ a
bit_or-zero_fuel n zero h = nothing-bit_or 0
bit_or-zero_fuel zero (suc a) h = absurd (omega arith)
bit_or-zero_fuel (suc n) (suc a) h =
    omega (arith, bit_or-digits (suc a) 0, bit_or-zero_fuel n (suc a / 2) (omega arith))

bit_or-zero : (a : ℕ) → bit_or a 0 ≡ a
bit_or-zero a = bit_or-zero_fuel a a (omega arith)

mod-double : (p a : ℕ) → 0 < p → a % (p * 2) ≡ (a / 2 % p) * 2 + a % 2
mod-double p a h =
    let low : ℕ = (a / 2 % p) * 2 + a % 2 in
    let r : a / 2 % p < p = mod-lt (a / 2) h in
    let e : a ≡ p * 2 * (a / 2 / p) + low = omega (arith, div-add-mod (a / 2) p) in
    ap (λ t. t % (p * 2)) e
    ∙ mul-add-mod_self_left (p * 2) (a / 2 / p) low
    ∙ mod-eq_of_lt {n = low} {m = p * 2} (omega arith)

-- A mask of `k` ones keeps the low `k` bits.
pub bit_and-ones : (k a : ℕ) → bit_and a (2 ^ k - 1) ≡ a % 2 ^ k
bit_and-ones zero a = omega (arith, bit_and-nothing a)
bit_and-ones (suc k) a =
    let p : 2 ^ suc k ≡ 2 ^ k * 2 = pow-suc 2 k in
    let pos : 0 < 2 ^ k = one-le-pow k 2 (omega arith) in
    let half : (2 ^ suc k - 1) / 2 ≡ 2 ^ k - 1 = omega arith in
    let odd : (2 ^ suc k - 1) % 2 ≡ 1 = omega arith in
    let wide : a % 2 ^ suc k ≡ a % (2 ^ k * 2) = ap (λ m. a % m) p in
    omega (
      arith,
      bit_and-digits a (2 ^ suc k - 1),
      ap (bit_and (a / 2)) half,
      bit_and-ones k (a / 2),
      mod-double (2 ^ k) a pos,
    )

pub set_bit0 : (x : ℕ) → signal_set x 1 ≡ x / 2 * 2 + 1
set_bit0 x = omega (arith, bit_or-digits x 1, bit_or-zero (x / 2))

pub set_bit1 : (x : ℕ) → signal_set x 2 ≡ (x / 4 * 2 + 1) * 2 + x % 2
set_bit1 x = omega (arith, bit_or-digits x 2, set_bit0 (x / 2))

pub set_bit2 : (x : ℕ) → signal_set x 4 ≡ ((x / 8 * 2 + 1) * 2 + x / 2 % 2) * 2 + x % 2
set_bit2 x = omega (arith, bit_or-digits x 4, set_bit1 (x / 2))

pub clear_bit0 : (x : ℕ) → signal_clear x 1 ≡ x / 2 % 2 ^ 31 * 2
clear_bit0 x = omega (arith, bit_and-digits x 0xffff_fffe, bit_and-ones 31 (x / 2))

pub clear_bit1 : (x : ℕ) → signal_clear x 2 ≡ x / 4 % 2 ^ 30 * 4 + x % 2
clear_bit1 x = omega (
  arith,
  bit_and-digits x 0xffff_fffd,
  bit_and-digits (x / 2) 0x7fff_fffe,
  bit_and-ones 30 (x / 2 / 2),
)

-- What each change of a signal word does to the three bits.
pub hang_bits :
    (x : ℕ)
    → let y = signal_set (signal_clear x 2) 4 in (y % 2 ≡ x % 2) × (y / 2 % 2 ≡ 0) × (y / 4 % 2 ≡ 1)
hang_bits x = omega (arith, set_bit2 (signal_clear x 2), clear_bit1 x)

pub set0_bits :
    (x : ℕ)
    → let y = signal_set x 1 in (y % 2 ≡ 1) × (y / 2 % 2 ≡ x / 2 % 2) × (y / 4 % 2 ≡ x / 4 % 2)
set0_bits x = omega (arith, set_bit0 x)

pub clear0_bits :
    (x : ℕ)
    → let y = signal_clear x 1 in (y % 2 ≡ 0) × (y / 2 % 2 ≡ x / 2 % 2) × (y / 4 % 2 ≡ x / 4 % 2)
clear0_bits x = omega (arith, clear_bit0 x)

pub set1_bits :
    (x : ℕ) → let y = signal_set x 2 in (y % 2 ≡ x % 2) × (y / 2 % 2 ≡ 1) × (y / 4 % 2 ≡ x / 4 % 2)
set1_bits x = omega (arith, set_bit1 x)

pub clear1_bits :
    (x : ℕ)
    → let y = signal_clear x 2 in (y % 2 ≡ x % 2) × (y / 2 % 2 ≡ 0) × (y / 4 % 2 ≡ x / 4 % 2)
clear1_bits x = omega (arith, clear_bit1 x)
