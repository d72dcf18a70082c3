-- ===== src/Socket/Tests.antt =====
-- A socket pair as `create` leaves it: the theorems at concrete calls.
use archipelago.Prelude.{ℕ, ◌≡◌, refl, arith, List, [], ◌∷◌, replicate, length-replicate}
use archipelago.Socket.{End, SocketState, first, second, fresh_end}
use archipelago.Socket.Ring.{IsRing}
use archipelago.Socket.Invariant.{Inv, Signals}
use archipelago.Socket.Run.{
  Call, writes, reads, closes, call, run, run_streams, streams, IsValid, call-IsValid, run_refines,
}

abbrev new_end : End
new_end = fresh_end (replicate 4096 0)

new-IsRing : IsRing new_end.inbound
new-IsRing = record {
  whole = length-replicate {A = ℕ} 4096 0;
  head_in = omega arith;
  count_in = omega arith;
}

new-Signals : Signals new_end new_end
new-Signals = record { readable = λ h. refl; writable = λ h. refl; hung_up = λ h. refl }

new-Inv : Inv new_end new_end
new-Inv = record {
  ring = new-IsRing;
  peer_ring = new-IsRing;
  signals = new-Signals;
  peer_signals = new-Signals;
}

abbrev pair : SocketState
pair = record { first = new_end; second = new_end }

abbrev dialogue : List Call
dialogue =
    writes first (104 ∷ 105 ∷ [])
    ∷ reads second 1
    ∷ closes first
    ∷ writes second (1 ∷ [])
    ∷ reads second 5
    ∷ reads second 5
    ∷ reads first 1
    ∷ []

run_refines_example : run pair dialogue ≡ run_streams (streams pair) dialogue
run_refines_example = run_refines dialogue pair new-Inv

call-IsValid_example : IsValid (call pair (writes first (104 ∷ 105 ∷ []))).1
call-IsValid_example = call-IsValid pair (writes first (104 ∷ 105 ∷ [])) new-Inv
