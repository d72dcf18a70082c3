-- ===== src/Prelude/Results.antt =====
-- `ktl::errc` and `ktl::result`. `fault` is the model's own: an access outside an array, which the
-- source does not check.
use mathlib.Core.Bool.{Bool, true, false}

pub data Errc : Type 0 where
  null_argument invalid_operation oom wrong_type handle_invalid : Errc
  already_registered rights_violation registry_full capacity_exhausted : Errc
  out_of_range truncated would_block peer_closed timed_out : Errc

pub data Result {ℓ} (A : Type ℓ) : Type ℓ where
  ok : A → Result A
  err : Errc → Result A
  fault : Result A

abbrev pub is_ok {ℓ} : {A : Type ℓ} → Result A → Bool
is_ok (ok a) = true
is_ok (err e) = false
is_ok fault = false
