-- ===== src/Socket/Invariant.antt =====
-- The invariant of a socket pair: the rings stay inside their pages, and the signal bits of a live
-- socket say what its ring, its peer and its peer's ring say.
use archipelago.Prelude.{ℕ, ◌/◌, ◌%◌, ◌≡◌, arith, Bool, true, false, not, ◌==◌, ◌&&◌}
use archipelago.Object.Signals.{hang_bits}
use archipelago.Socket.{End, buffer_bytes, hang_up}
use archipelago.Socket.Ring.{IsRing}

abbrev pub bit : Bool → ℕ
bit true = 1
bit false = 0

-- READABLE, WRITABLE and PEER_CLOSED of the end `mine`.
pub record Signals (mine peer : End) : Type 0 where
  pub readable : mine.alive ≡ true → mine.signals % 2 ≡ bit (not (mine.inbound.count == 0))
  pub writable :
      mine.alive ≡ true
      → mine.signals / 2 % 2 ≡ bit (peer.alive && not (peer.inbound.count == buffer_bytes))
  pub hung_up : mine.alive ≡ true → mine.signals / 4 % 2 ≡ bit (not peer.alive)

pub record Inv (mine peer : End) : Type 0 where
  pub ring : IsRing mine.inbound
  pub peer_ring : IsRing peer.inbound
  pub signals : Signals mine peer
  pub peer_signals : Signals peer mine

hang_up-Signals :
    (mine peer : End) → Signals peer mine → let (m, p) = hang_up mine peer in Signals p m
unfolding hang_up
hang_up-Signals mine peer v = record {
  readable = λ h. ground (arith, hang_bits peer.signals);
  writable = λ h. ground (arith, hang_bits peer.signals);
  hung_up = λ h. ground (arith, hang_bits peer.signals);
}

-- Closing an end keeps the invariant.
pub hang_up-Inv : (mine peer : End) → Inv mine peer → let (m, p) = hang_up mine peer in Inv m p
unfolding hang_up
hang_up-Inv mine peer v = record {
  ring = v.ring;
  peer_ring = ground (arith, v.peer_ring);
  signals = record {
    readable = λ h. absurd (cc);
    writable = λ h. absurd (cc);
    hung_up = λ h. absurd (cc);
  };
  peer_signals = hang_up-Signals mine peer v.peer_signals;
}
