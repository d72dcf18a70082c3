-- ===== src/Socket/Calls.antt =====
-- The branches of `write` and `read`, each with what holds there, and the invariant after each.
use archipelago.Prelude.{
  ℕ, ◌+◌, ◌-◌, ◌≤◌, ◌≡◌, refl, sym, arith, true, false, List, [], ltb, ◌==◌, if◌then◌else◌, length,
  Bool-cases, inl, inr, ◌≢◌, Result, ok, err, min, subst,
}
use archipelago.Prelude.Errc.{capacity_exhausted, would_block, peer_closed}
use archipelago.Object.{signal_set, signal_clear}
use archipelago.Socket.{
  ByteRing, End, buffer_bytes, fill, drained, write_ends, read_ends, signal_readable,
  signal_writable,
}
use archipelago.Socket.Ring.{fill-IsRing, advanced, advanced-IsRing}
use archipelago.Socket.Invariant.{Inv}
use archipelago.Object.Signals.{set0_bits, clear0_bits, set1_bits, clear1_bits}

-- The ends after `n` bytes were written.
abbrev pub sent : End → End → List ℕ → ℕ → End × End
sent mine peer src n = (
  if peer.inbound.count + n == buffer_bytes
      then record mine { signals = signal_clear mine.signals signal_writable }
      else mine,
  record peer {
    signals = signal_set peer.signals signal_readable;
    inbound = fill peer.inbound src n;
  },
)

pub data Written (mine peer : End) (src : List ℕ) (out : Result ℕ × End × End) : Type 0 where
  no_peer : peer.alive ≡ false → out ≡ (err peer_closed, mine, peer) → Written mine peer src out
  nothing :
      peer.alive ≡ true → length src ≡ 0 → out ≡ (ok 0, mine, peer) → Written mine peer src out
  full :
      peer.alive ≡ true
      → length src ≢ 0
      → 4096 - peer.inbound.count ≡ 0
      → out ≡ (err capacity_exhausted, mine, peer)
      → Written mine peer src out
  some_sent :
      (n : ℕ)
      → peer.alive ≡ true
      → length src ≢ 0
      → 4096 - peer.inbound.count ≢ 0
      → n ≡ min (length src) (4096 - peer.inbound.count)
      → out ≡ (ok n, (sent mine peer src n).0, (sent mine peer src n).1)
      → Written mine peer src out

fill-count : (r : ByteRing) (src : List ℕ) (n : ℕ) → (fill r src n).count ≡ r.count + n
unfolding fill
fill-count r src n = refl

pub write_ends-Written :
    (mine peer : End) (src : List ℕ) → Written mine peer src (write_ends mine peer src)
unfolding write_ends
write_ends-Written mine peer src = elim (Bool-cases peer.alive) [
  | inr gone ↦ no_peer gone (ground arith)
  | inl there ↦ elim (Bool-cases (length src == 0)) [
    | inl empty ↦ nothing there (ground arith) (ground arith)
    | inr some_bytes ↦ elim (Bool-cases (4096 - peer.inbound.count == 0)) [
      | inl no_space ↦ full there (λ p. ground arith) (ground arith) (ground arith)
      | inr space ↦
          let n : ℕ =
            if ltb (length src) (4096 - peer.inbound.count)
            then length src
            else 4096 - peer.inbound.count in
          some_sent n there (λ p. ground arith) (λ p. ground arith) (ground arith)
            (ground (arith, fill-count peer.inbound src n))
    ]
  ]
]

abbrev pub received : End → End → ℕ → End × End
received mine peer n = (
  record mine {
    signals =
        if mine.inbound.count - n == 0
        then signal_clear mine.signals signal_readable
        else mine.signals;
    inbound = advanced mine.inbound n;
  },
  if mine.inbound.count == buffer_bytes
      then if peer.alive
        then record peer { signals = signal_set peer.signals signal_writable }
        else peer
      else peer,
)

pub data Readout (mine peer : End) (capacity : ℕ) (out : Result (List ℕ) × End × End) : Type 0 where
  empty :
      mine.inbound.count ≡ 0
      → out ≡ (err (if peer.alive then would_block else peer_closed), mine, peer)
      → Readout mine peer capacity out
  no_room :
      mine.inbound.count ≢ 0
      → capacity ≡ 0
      → out ≡ (ok [], mine, peer)
      → Readout mine peer capacity out
  some_read :
      (n : ℕ)
      → mine.inbound.count ≢ 0
      → capacity ≢ 0
      → n ≡ min capacity mine.inbound.count
      → out ≡ (ok (drained mine.inbound n), (received mine peer n).0, (received mine peer n).1)
      → Readout mine peer capacity out

pub read_ends-Readout :
    (mine peer : End) (capacity : ℕ) → Readout mine peer capacity (read_ends mine peer capacity)
unfolding read_ends
read_ends-Readout mine peer capacity = elim (Bool-cases (mine.inbound.count == 0)) [
  | inl none_left ↦ empty (ground arith) (ground arith)
  | inr some_left ↦ elim (Bool-cases (capacity == 0)) [
    | inl closed ↦ no_room (λ p. ground arith) (ground arith) (ground arith)
    | inr open_room ↦
        let n : ℕ = if ltb capacity mine.inbound.count then capacity else mine.inbound.count in
        some_read n (λ p. ground arith) (λ p. ground arith) (ground arith) (ground arith)
  ]
]

module _ (mine peer : End) (v : Inv mine peer) where
  sent-Inv :
      (src : List ℕ) (n : ℕ)
      → peer.alive ≡ true
      → n ≤ length src
      → n ≤ 4096 - peer.inbound.count
      → n ≢ 0
      → let (m, p) = sent mine peer src n in Inv m p
  sent-Inv src n there enough room some_bytes =
      let ring = fill-IsRing peer.inbound v.peer_ring src n enough room in
      let c = fill-count peer.inbound src n in
      record {
        ring = ground (arith, v.ring);
        peer_ring = ring;
        signals = record {
          readable = λ h. ground (arith, clear1_bits mine.signals);
          writable = λ h. ground (arith, c, clear1_bits mine.signals);
          hung_up = λ h. ground (arith, clear1_bits mine.signals);
        };
        peer_signals = record {
          readable = λ h. ground (arith, c, set0_bits peer.signals);
          writable = λ h. ground (arith, set0_bits peer.signals);
          hung_up = λ h. ground (arith, set0_bits peer.signals);
        };
      }

  received-Inv :
      (n : ℕ)
      → mine.alive ≡ true
      → n ≤ mine.inbound.count
      → n ≢ 0
      → let (m, p) = received mine peer n in Inv m p
  received-Inv n live enough some_bytes = record {
    ring = advanced-IsRing mine.inbound n v.ring;
    peer_ring = ground (arith, v.peer_ring);
    signals = record {
      readable = λ h. ground (arith, clear0_bits mine.signals);
      writable = λ h. ground (arith, clear0_bits mine.signals);
      hung_up = λ h. ground (arith, clear0_bits mine.signals);
    };
    peer_signals = record {
      readable = λ h. ground (arith, set1_bits peer.signals);
      writable = λ h. ground (arith, set1_bits peer.signals);
      hung_up = λ h. ground (arith, set1_bits peer.signals);
    };
  }

-- `write` keeps the invariant, on every branch.
pub write_ends-Inv :
    (mine peer : End) (src : List ℕ)
    → Inv mine peer
    → Inv (write_ends mine peer src).1 (write_ends mine peer src).2
write_ends-Inv mine peer src v = go (write_ends mine peer src) (write_ends-Written mine peer src)
  where
    go : (out : Result ℕ × End × End) → Written mine peer src out → Inv out.1 out.2
    go out (no_peer a e) = subst (λ o. Inv o.1 o.2) (sym e) v
    go out (nothing a b e) = subst (λ o. Inv o.1 o.2) (sym e) v
    go out (full a b c e) = subst (λ o. Inv o.1 o.2) (sym e) v
    go out (some_sent n a b c d e) =
        subst (λ o. Inv o.1 o.2) (sym e)
          (sent-Inv mine peer v src n a (omega arith) (omega arith) (λ p. omega arith))

-- `read` by a live socket keeps the invariant, on every branch.
pub read_ends-Inv :
    (mine peer : End) (capacity : ℕ)
    → mine.alive ≡ true
    → Inv mine peer
    → Inv (read_ends mine peer capacity).1 (read_ends mine peer capacity).2
read_ends-Inv mine peer capacity live v =
    go (read_ends mine peer capacity) (read_ends-Readout mine peer capacity)
  where
    go : (out : Result (List ℕ) × End × End) → Readout mine peer capacity out → Inv out.1 out.2
    go out (empty a e) = subst (λ o. Inv o.1 o.2) (sym e) v
    go out (no_room a b e) = subst (λ o. Inv o.1 o.2) (sym e) v
    go out (some_read n a b d e) =
        subst (λ o. Inv o.1 o.2) (sym e)
          (received-Inv mine peer v n live (omega arith) (λ p. omega arith))
