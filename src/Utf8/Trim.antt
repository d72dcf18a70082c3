-- ===== src/Utf8/Trim.antt =====
-- What `utf8_trim_partial` cuts off.
use archipelago.Prelude.{ℕ, zero, suc, ◌+◌, ◌/◌, ◌<◌, ◌≤◌, ◌≡◌, arith, List, ◌∷◌, ◌++◌, All}
use archipelago.Utf8.{walk_back, expected_length, utf8_trim_partial}

-- Bytes of the form 10xxxxxx.
abbrev pub IsTail : List ℕ → Type 0
IsTail tail = All (λ c. (0x80 ≤ c) × (c < 0xc0)) tail

-- The byte `c` starts a sequence of `n` bytes: it has the form 110xxxxx, 1110xxxx or 1111xxxx.
pub data Starts (c n : ℕ) : Type 0 where
  two : c / 32 ≡ 6 → n ≡ 2 → Starts c n
  three : c / 16 ≡ 14 → n ≡ 3 → Starts c n
  four : c / 16 ≡ 15 → n ≡ 4 → Starts c n

module _ (text tail : List ℕ) (c : ℕ) (byte : c < 256) (lead : 0xc0 ≤ c) (t : IsTail tail) where
  abbrev whole : List ℕ
  whole = text ++ c ∷ tail

walk_back-le : (s : List ℕ) (len lead : ℕ) → walk_back s len lead ≤ lead
unfolding walk_back
walk_back-le s len zero = omega arith
walk_back-le s len (suc lead) = ground (arith, walk_back-le s len lead)

-- Whatever the bytes are, the length never grows and at most three bytes are cut off.
pub utf8_trim_partial-le :
    (s : List ℕ) (len : ℕ) → (utf8_trim_partial s len ≤ len) × (len ≤ utf8_trim_partial s len + 3)
unfolding utf8_trim_partial expected_length
utf8_trim_partial-le s len =
    let back = walk_back-le s len len in (ground (arith, back), ground (arith, back))
