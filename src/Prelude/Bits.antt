-- ===== src/Prelude/Bits.antt =====
-- Masks of rights and signals: the laws of `bit_and` that the components use.
use Prim.Native.Nat.{
  ℕ, zero, suc, ◌+◌, ◌*◌, ◌/◌, ◌%◌, ◌≤◌, ◌<◌, ◌^◌, min, max, bit_and, bit_or, digits,
  bit_and-bitwise, bit_or-bitwise,
}
use mathlib.Core.Path.{◌≡◌, refl, ap, sym, ◌∙◌}
use native.Mathlib.Nat.{pow-suc}
use native.Mathlib.Omega.{arith}

-- A bitwise operation with enough fuel gives the same number with any more. `rest` is what it
-- makes of the second number where the first one has run out, `op` what it makes of two digits.
module _ (rest : ℕ → ℕ) (op : ℕ → ℕ → ℕ) where
  digits-enough :
      (x y : ℕ) (fuel more : ℕ)
      → x ≤ fuel
      → x ≤ more
      → digits rest op fuel x y ≡ digits rest op more x y
  digits-enough zero y zero zero h k = refl
  digits-enough zero y zero (suc more) h k = refl
  digits-enough zero y (suc fuel) zero h k = refl
  digits-enough zero y (suc fuel) (suc more) h k = refl
  digits-enough (suc x) y zero more h k = absurd (omega arith)
  digits-enough (suc x) y (suc fuel) zero h k = absurd (omega arith)
  digits-enough (suc x) y (suc fuel) (suc more) h k =
      let halves = digits-enough (suc x / 2) (y / 2) fuel more (omega arith) (omega arith) in
      ap (λ d. d * 2 + op (suc x % 2) (y % 2)) halves

pub nothing-bit_and : (y : ℕ) → bit_and 0 y ≡ 0
nothing-bit_and y = bit_and-bitwise 0 y

-- Low digits with low digits, the rest with the rest.
pub bit_and-digits : (x y : ℕ) → bit_and x y ≡ min (x % 2) (y % 2) + 2 * bit_and (x / 2) (y / 2)
bit_and-digits (suc x) y =
    let upper =
      digits-enough (λ y. zero) min (suc x / 2) (y / 2) x (suc x / 2) (omega arith) (omega arith) in
    omega (arith, upper, bit_and-bitwise (suc x) y, bit_and-bitwise (suc x / 2) (y / 2))
bit_and-digits zero y = omega (arith, nothing-bit_and y, nothing-bit_and (y / 2))

bit_and-nothing_fuel : (n x : ℕ) → x ≤ n → bit_and x 0 ≡ 0
bit_and-nothing_fuel n zero h = nothing-bit_and 0
bit_and-nothing_fuel zero (suc x) h = absurd (omega arith)
bit_and-nothing_fuel (suc n) (suc x) h =
    omega (arith, bit_and-digits (suc x) 0, bit_and-nothing_fuel n (suc x / 2) (omega arith))

pub bit_and-nothing : (x : ℕ) → bit_and x 0 ≡ 0
bit_and-nothing x = bit_and-nothing_fuel x x (omega arith)

bit_and-half : (a b : ℕ) → bit_and a b / 2 ≡ bit_and (a / 2) (b / 2)
bit_and-half a b = omega (arith, bit_and-digits a b)

bit_and-parity : (a b : ℕ) → bit_and a b % 2 ≡ min (a % 2) (b % 2)
bit_and-parity a b = omega (arith, bit_and-digits a b)

bit_and_assoc_fuel : (n a b c : ℕ) → a ≤ n → bit_and (bit_and a b) c ≡ bit_and a (bit_and b c)
bit_and_assoc_fuel n zero b c h =
    ap (λ t. bit_and t c) (nothing-bit_and b)
    ∙ nothing-bit_and c
    ∙ sym (nothing-bit_and (bit_and b c))
bit_and_assoc_fuel zero (suc a) b c h = absurd (omega arith)
bit_and_assoc_fuel (suc n) (suc a) b c h =
    bit_and-digits (bit_and (suc a) b) c
    ∙ omega (
      arith,
      ap (λ t. bit_and t (c / 2)) (bit_and-half (suc a) b),
      ap (λ t. bit_and (suc a / 2) t) (bit_and-half b c),
      bit_and-parity (suc a) b,
      bit_and-parity b c,
      bit_and-digits (suc a) (bit_and b c),
      bit_and_assoc_fuel n (suc a / 2) (b / 2) (c / 2) (omega arith),
    )

pub bit_and_assoc : (a b c : ℕ) → bit_and (bit_and a b) c ≡ bit_and a (bit_and b c)
bit_and_assoc a b c = bit_and_assoc_fuel a a b c (omega arith)

bit_and-idem_fuel : (n a : ℕ) → a ≤ n → bit_and a a ≡ a
bit_and-idem_fuel n zero h = nothing-bit_and 0
bit_and-idem_fuel zero (suc a) h = absurd (omega arith)
bit_and-idem_fuel (suc n) (suc a) h =
    omega (arith, bit_and-digits (suc a) (suc a), bit_and-idem_fuel n (suc a / 2) (omega arith))

pub bit_and_idem : (a : ℕ) → bit_and a a ≡ a
bit_and_idem a = bit_and-idem_fuel a a (omega arith)

-- What is contained in a masked value is contained in the value.
pub bit_and-of_masked : (a m r : ℕ) → bit_and (bit_and a m) r ≡ r → bit_and a r ≡ r
bit_and-of_masked a m r h =
    ap (bit_and a) (sym h)
    ∙ sym (bit_and_assoc a (bit_and a m) r)
    ∙ ap (λ t. bit_and t r) (sym (bit_and_assoc a a m) ∙ ap (λ t. bit_and t m) (bit_and_idem a))
    ∙ h

pub nothing-bit_or : (y : ℕ) → bit_or 0 y ≡ y
nothing-bit_or y = bit_or-bitwise 0 y

pub bit_or-digits : (x y : ℕ) → bit_or x y ≡ max (x % 2) (y % 2) + 2 * bit_or (x / 2) (y / 2)
bit_or-digits (suc x) y =
    let upper =
      digits-enough (λ y. y) max (suc x / 2) (y / 2) x (suc x / 2) (omega arith) (omega arith) in
    omega (arith, upper, bit_or-bitwise (suc x) y, bit_or-bitwise (suc x / 2) (y / 2))
bit_or-digits zero y = omega (arith, nothing-bit_or y, nothing-bit_or (y / 2))

-- Fields that do not overlap are joined by `|` as by `+`.
pub bit_or-disjoint : (k a b : ℕ) → a < 2 ^ k → bit_or a (b * 2 ^ k) ≡ a + b * 2 ^ k
bit_or-disjoint zero zero b h = omega (arith, nothing-bit_or (b * 1))
bit_or-disjoint zero (suc a) b h = absurd (omega arith)
bit_or-disjoint (suc k) a b h =
    let p : 2 ^ suc k ≡ 2 ^ k * 2 = pow-suc 2 k in
    let whole : b * 2 ^ suc k ≡ b * 2 ^ k * 2 = rw p (omega arith) in
    let half : b * 2 ^ suc k / 2 ≡ b * 2 ^ k = omega arith in
    omega (
      arith,
      bit_or-digits a (b * 2 ^ suc k),
      ap (bit_or (a / 2)) half,
      bit_or-disjoint k (a / 2) b (omega arith),
    )
