-- ===== src/Utf8/Tests.antt =====
-- The euro sign e2 82 ac after a letter, and the same cut short.
use archipelago.Prelude.{ℕ, List, [], ◌∷◌}

abbrev letter : List ℕ
letter = 65 ∷ []

abbrev cut_tail : List ℕ
cut_tail = 0x82 ∷ []
