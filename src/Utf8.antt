-- ===== src/Utf8.antt =====
-- includes/ktl/utf8: counting code points and cutting off a truncated sequence, on a list of bytes.
pub mod Trim
mod Tests
use archipelago.Prelude.{
  ℕ, zero, suc, ◌+◌, ◌-◌, Bool, true, false, not, ◌&&◌, List, [], ◌∷◌, ltb, leb, ◌==◌,
  if◌then◌else◌, bit_and, length,
}
use archipelago.Prelude.Window.{get_or}

unfoldable pub utf8_is_continuation : ℕ → Bool
utf8_is_continuation c = bit_and c 0xc0 == 0x80

unfoldable pub utf8_codepoints : List ℕ → ℕ
utf8_codepoints [] = 0
utf8_codepoints (c ∷ s) =
    let rest = utf8_codepoints s in if utf8_is_continuation c then rest else rest + 1

-- The loop of `utf8_trim_partial`: where the walk back from `lead` ends.
unfoldable pub walk_back : List ℕ → ℕ → ℕ → ℕ
walk_back s len zero = zero
walk_back s len (suc lead) =
    let further = walk_back s len lead in
    if ltb (len - suc lead) 3 && utf8_is_continuation (get_or s lead 0) then further else suc lead

-- The length of the sequence that a lead byte starts.
unfoldable pub expected_length : ℕ → ℕ
expected_length c = if leb 0xf0 c then 4 else if leb 0xe0 c then 3 else if leb 0xc0 c then 2 else 1

unfoldable pub utf8_trim_partial : List ℕ → ℕ → ℕ
utf8_trim_partial s len =
    let lead = walk_back s len len in
    let c = get_or s (lead - 1) 0 in
    if lead == 0
    then len
    else if leb 0xc0 c && ltb (len - (lead - 1)) (expected_length c)
    then lead - 1
    else len
