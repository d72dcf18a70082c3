-- ===== src/Object/TypeIds.antt =====
-- The constants of namespace `type_ids` in includes/kernel/obj/types.h.
use archipelago.Prelude.{ℕ}

abbrev pub invalid : ℕ
invalid = 0

abbrev pub event : ℕ
event = 1

abbrev pub region : ℕ
region = 3

abbrev pub vmo : ℕ
vmo = 4

abbrev pub channel : ℕ
channel = 8

abbrev pub port : ℕ
port = 9

abbrev pub socket : ℕ
socket = 10
