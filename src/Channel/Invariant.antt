-- ===== src/Channel/Invariant.antt =====
-- The invariant of a channel pair: sound queues, and signal bits of a live channel that say what its
-- queue, its peer and its peer's queue say.
use archipelago.Prelude.{
  ℕ, ◌/◌, ◌%◌, ◌≡◌, ◌≢◌, sym, arith, Bool, true, false, not, ◌&&◌, ◌==◌, if◌then◌else◌, Bool-cases,
  inl, inr, subst,
}
use archipelago.Object.{Object, signal_set, signal_clear}
use archipelago.Object.Signals.{hang_bits, set0_bits, clear0_bits, set1_bits, clear1_bits}
use archipelago.HandleTable.{HandleTable}
use archipelago.Channel.{
  Message, End, After, queue_depth, enqueue, dequeue, write_ends, read_ends, read_front, hang_up,
  carries_endpoint,
}
use archipelago.Channel.Queue.{IsQueue, enqueue_lem, front_slot, dequeue-IsQueue}

abbrev pub bit : Bool → ℕ
bit true = 1
bit false = 0

-- READABLE, WRITABLE and PEER_CLOSED of the end `mine`.
pub record Signals (mine peer : End) : Type 0 where
  pub readable : mine.alive ≡ true → mine.signals % 2 ≡ bit (not (mine.inbound.count == 0))
  pub writable :
      mine.alive ≡ true
      → mine.signals / 2 % 2 ≡ bit (peer.alive && not (peer.inbound.count == queue_depth))
  pub hung_up : mine.alive ≡ true → mine.signals / 4 % 2 ≡ bit (not peer.alive)

pub record IsPair (mine peer : End) : Type 0 where
  pub queue : IsQueue mine.inbound
  pub peer_queue : IsQueue peer.inbound
  pub signals : Signals mine peer
  pub peer_signals : Signals peer mine

kept : (a : After) {m p : End} → IsPair m p → a.mine ≡ m → a.peer ≡ p → IsPair a.mine a.peer
kept a {m} {p} w em ep = subst (λ x. IsPair x a.peer) (sym em) (subst (IsPair m) (sym ep) w)

module _ (mine peer : End) (v : IsPair mine peer) where
  -- The ends after a message was accepted.
  sent-IsPair :
      (escrow : HandleTable) (message : Message)
      → peer.alive ≡ true
      → peer.inbound.count ≢ 8
      → let queued = (enqueue escrow peer.inbound message).1 in
        IsPair
          (if queued.count == queue_depth
            then record mine { signals = signal_clear mine.signals 2 }
            else mine)
          (record peer { signals = signal_set peer.signals 1; inbound = queued })
  sent-IsPair escrow message there room =
      let q = enqueue_lem escrow peer.inbound message v.peer_queue room in
      record {
        queue = ground (arith, v.queue);
        peer_queue = q.3;
        signals = record {
          readable = λ h. ground (arith, clear1_bits mine.signals);
          writable = λ h. ground (arith, q.1, clear1_bits mine.signals);
          hung_up = λ h. ground (arith, clear1_bits mine.signals);
        };
        peer_signals = record {
          readable = λ h. ground (arith, q.1, set0_bits peer.signals);
          writable = λ h. ground (arith, set0_bits peer.signals);
          hung_up = λ h. ground (arith, set0_bits peer.signals);
        };
      }

  -- The ends after a message left the queue.
  received-IsPair :
      mine.alive ≡ true
      → mine.inbound.count ≢ 0
      → IsPair
          (record mine {
            signals =
                if (dequeue mine.inbound).count == 0
                then signal_clear mine.signals 1
                else mine.signals;
            inbound = dequeue mine.inbound;
          })
          (if mine.inbound.count == queue_depth && peer.alive
            then record peer { signals = signal_set peer.signals 2 }
            else peer)
  unfolding dequeue
  received-IsPair live some_left = record {
    queue = dequeue-IsQueue mine.inbound v.queue some_left;
    peer_queue = ground (arith, v.peer_queue);
    signals = record {
      readable = λ h. ground (arith, clear0_bits mine.signals);
      writable = λ h. ground (arith, clear0_bits mine.signals);
      hung_up = λ h. ground (arith, clear0_bits mine.signals);
    };
    peer_signals = record {
      readable = λ h. ground (arith, set1_bits peer.signals);
      writable = λ h. ground (arith, set1_bits peer.signals, v.queue.count_in);
      hung_up = λ h. ground (arith, set1_bits peer.signals);
    };
  }

  -- `write` keeps the invariant, on every branch.
  pub write_ends-IsPair :
      (pair_of : Object → ℕ) (pair : ℕ) (escrow : HandleTable) (message : Message)
      → let (r, a) = write_ends pair_of pair escrow mine peer message in IsPair a.mine a.peer
  unfolding write_ends
  write_ends-IsPair pair_of pair escrow message =
      elim (Bool-cases (carries_endpoint pair_of pair escrow message.handles)) [
        | inl own ↦
            kept (write_ends pair_of pair escrow mine peer message).1 v (ground arith)
              (ground arith)
        | inr foreign ↦ elim (Bool-cases peer.alive) [
          | inr gone ↦
              kept (write_ends pair_of pair escrow mine peer message).1 v (ground arith)
                (ground arith)
          | inl there ↦ elim (Bool-cases (peer.inbound.count == 8)) [
            | inl full ↦
                kept (write_ends pair_of pair escrow mine peer message).1 v (ground arith)
                  (ground arith)
            | inr room ↦
                kept (write_ends pair_of pair escrow mine peer message).1
                  (sent-IsPair escrow message there (λ e. ground arith)) (ground arith)
                  (ground arith)
          ]
        ]
      ]

  -- `read` by a live channel keeps the invariant, on every branch.
  pub read_ends-IsPair :
      (escrow : HandleTable) (max_bytes max_count : ℕ)
      → mine.alive ≡ true
      → let (r, a) = read_ends escrow mine peer max_bytes max_count in IsPair a.mine a.peer
  unfolding read_ends read_front
  read_ends-IsPair escrow max_bytes max_count live = elim (Bool-cases (mine.inbound.count == 0)) [
    | inl none_left ↦
        kept (read_ends escrow mine peer max_bytes max_count).1 v (ground arith) (ground arith)
    | inr some_left ↦
        let ne : mine.inbound.count ≢ 0 = λ e. ground arith in
        let f = front_slot mine.inbound v.queue ne in
        kept (read_ends escrow mine peer max_bytes max_count).1 (received-IsPair live ne)
          (ground (arith, f)) (ground (arith, f))
  ]

  -- Closing an end of a pair that is in order keeps the invariant.
  pub hang_up-IsPair : let (m, p) = hang_up mine peer in IsPair m p
  unfolding hang_up
  hang_up-IsPair = record {
    queue = v.queue;
    peer_queue = ground (arith, v.peer_queue);
    signals = record {
      readable = λ h. absurd (cc);
      writable = λ h. absurd (cc);
      hung_up = λ h. absurd (cc);
    };
    peer_signals = record {
      readable = λ h. ground (arith, hang_bits peer.signals);
      writable = λ h. ground (arith, hang_bits peer.signals);
      hung_up = λ h. ground (arith, hang_bits peer.signals);
    };
  }
