-- ===== src/Object.antt =====
-- includes/kernel/obj/types.h, object.h and object.cpp: what the kernel knows of an object, its
-- type ids, the rights, and the signal bits. Paths in this tree are below src/sys/kernel.
pub mod Registry
pub mod TypeIds
pub mod Signals
mod Tests
use archipelago.Prelude.{ℕ, ◌-◌, ◌^◌, bit_and, bit_or, bit_xor}

-- An object is known to the handle layer by its identity and its type.
pub record Object : Type 0 where
  pub id : ℕ
  pub type_id : ℕ

abbrev pub right_read : ℕ
right_read = 1

abbrev pub right_write : ℕ
right_write = 2

abbrev pub right_duplicate : ℕ
right_duplicate = 4

abbrev pub right_transfer : ℕ
right_transfer = 8

abbrev pub right_wait : ℕ
right_wait = 32

-- `~x` on a uint32_t.
abbrev pub not32 : ℕ → ℕ
not32 x = bit_xor 0xffff_ffff x

-- `Object::signal_set` and `Object::signal_clear` on the word of signal bits. Waking the waiters
-- and the ports is not part of them here.
abbrev pub signal_set : ℕ → ℕ → ℕ
signal_set signals bits = bit_or signals bits

abbrev pub signal_clear : ℕ → ℕ → ℕ
signal_clear signals bits = bit_and signals (not32 bits)
