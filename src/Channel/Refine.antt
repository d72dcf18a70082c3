-- ===== src/Channel/Refine.antt =====
-- The channel pair refines the mailboxes.
use archipelago.Prelude.{
  ℕ, ◌≡◌, ◌≢◌, refl, sym, subst, arith, true, false, List, [], ◌∷◌, ◌++◌, ◌==◌, length, Bool-cases,
  inl, inr, ==_iff, Result, ok, err,
}
use archipelago.Prelude.Errc.{invalid_operation, peer_closed, capacity_exhausted}
use archipelago.HandleTable.Invariant.{Inv}
use archipelago.Channel.Escrow.{Carries, carries_endpoint-Carries, Dropped, release_handles-Dropped}
use archipelago.Object.{Object}
use archipelago.HandleTable.{HandleTable}
use archipelago.Channel.{
  Message, End, After, queue_depth, write_ends, read_ends, read_front, carries_endpoint,
  release_handles,
}
use archipelago.Channel.Queue.{
  IsQueue, contents, length-contents, enqueue_lem, front_slot, contents-dequeue,
}
use archipelago.Channel.Mailbox.{Mailbox, post, fetch}

abbrev pub mailbox : End → Mailbox
mailbox e = record { alive = e.alive; queue = contents e.inbound }

abbrev pub shown {ℓ} : {R : Type ℓ} → R × After → R × HandleTable × Mailbox × Mailbox
shown out = (out.0, out.1.escrow, mailbox out.1.mine, mailbox out.1.peer)

-- `write` does what `post` does to the peer's mailbox.
write_ends-post :
    (pair_of : Object → ℕ) (pair : ℕ) (escrow : HandleTable) (mine peer : End) (message : Message)
    → IsQueue peer.inbound
    → let own = carries_endpoint pair_of pair escrow message.handles in
      let (r, t, p) = post queue_depth own escrow (mailbox peer) message in
      shown (write_ends pair_of pair escrow mine peer message) ≡ (r, t, mailbox mine, p)
unfolding write_ends post
write_ends-post pair_of pair escrow mine peer message v =
    elim (Bool-cases (peer.inbound.count == 8)) [
      | inl full ↦ ground (arith, length-contents peer.inbound)
      | inr room ↦
          let q = enqueue_lem escrow peer.inbound message v (λ e. ground arith) in
          ground (arith, length-contents peer.inbound, q)
    ]

-- The outcomes of `write` on the mailboxes of the two ends. A message that is refused loses its
-- handles; the tests come in this order.
pub data Written (pair_of : Object → ℕ) (pair : ℕ) (escrow : HandleTable) (fl : List ℕ)
    (mine peer : Mailbox) (message : Message) (out : Result ℕ × HandleTable × Mailbox × Mailbox)
    : Type 0 where
  looped :
      (t : HandleTable)
      → out ≡ (err invalid_operation, t, mine, peer)
      → Carries pair_of pair escrow message.handles
      → Dropped escrow fl message.handles t
      → Written pair_of pair escrow fl mine peer message out
  hung_up :
      (t : HandleTable)
      → out ≡ (err peer_closed, t, mine, peer)
      → (¬ Carries pair_of pair escrow message.handles)
      → peer.alive ≡ false
      → Dropped escrow fl message.handles t
      → Written pair_of pair escrow fl mine peer message out
  full :
      (t : HandleTable)
      → out ≡ (err capacity_exhausted, t, mine, peer)
      → (¬ Carries pair_of pair escrow message.handles)
      → peer.alive ≡ true
      → length peer.queue ≡ queue_depth
      → Dropped escrow fl message.handles t
      → Written pair_of pair escrow fl mine peer message out
  sent :
      out ≡ (ok 0, escrow, mine, record peer { queue = peer.queue ++ message ∷ [] })
      → (¬ Carries pair_of pair escrow message.handles)
      → peer.alive ≡ true
      → length peer.queue ≢ queue_depth
      → Written pair_of pair escrow fl mine peer message out

post-Written :
    (pair_of : Object → ℕ) (pair : ℕ) (escrow : HandleTable) (fl : List ℕ) (mine peer : Mailbox)
    (message : Message)
    → Inv escrow fl
    → let own = carries_endpoint pair_of pair escrow message.handles in
      let (r, t, p) = post queue_depth own escrow peer message in
      Written pair_of pair escrow fl mine peer message (r, t, mine, p)
unfolding post
post-Written pair_of pair escrow fl mine peer message v =
    let lost = release_handles-Dropped escrow fl message.handles v in
    let own = carries_endpoint pair_of pair escrow message.handles in
    let OutcomeOf : Result ℕ × HandleTable × Mailbox → Type 0 =
      λ o. Written pair_of pair escrow fl mine peer message (o.0, o.1, mine, o.2) in
    elim (carries_endpoint-Carries pair_of pair escrow message.handles) [
      | inl (found, end) ↦ rw (found, post) (Written.looped _ refl end lost)
      | inr (missed, foreign) ↦ elim (Bool-cases peer.alive) [
        | inr closed ↦
            let e : post queue_depth own escrow peer message
                ≡ (err peer_closed, release_handles escrow message.handles, peer) =
              ground (arith, missed, closed) in
            subst OutcomeOf (sym e) (Written.hung_up _ refl foreign closed lost)
        | inl living ↦ elim (Bool-cases (length peer.queue == queue_depth)) [
          | inl at_limit ↦
              let e : post queue_depth own escrow peer message
                  ≡ (err capacity_exhausted, release_handles escrow message.handles, peer) =
                ground (arith, missed, living, at_limit) in
              subst OutcomeOf (sym e)
                (Written.full _ refl foreign living ((==_iff _ _).0 at_limit) lost)
          | inr room ↦
              let e : post queue_depth own escrow peer message
                  ≡ (ok 0, escrow, record peer { queue = peer.queue ++ message ∷ [] }) =
                ground (arith, missed, living, room) in
              subst OutcomeOf (sym e) (Written.sent refl foreign living (ground (arith, room)))
        ]
      ]
    ]

-- Where the peer's queue and the escrow table are in order, `write` refuses a message of which a handle
-- names an end of this channel pair, then one to an end that is closed, then one for which the peer's
-- queue is full. The handles of a refused message name nothing in the escrow any more, and every other
-- handle there names what it did. A message that is not refused comes last in the peer's queue and the
-- escrow stays as it is. The caller's queue never changes.
pub write_ends-Written :
    (pair_of : Object → ℕ) (pair : ℕ) (escrow : HandleTable) (fl : List ℕ) (mine peer : End)
    (message : Message)
    → IsQueue peer.inbound
    → Inv escrow fl
    → Written pair_of pair escrow fl
        (mailbox mine)
        (mailbox peer)
        message
        (shown (write_ends pair_of pair escrow mine peer message))
write_ends-Written pair_of pair escrow fl mine peer message q v =
    subst (Written pair_of pair escrow fl (mailbox mine) (mailbox peer) message)
      (sym (write_ends-post pair_of pair escrow mine peer message q))
      (post-Written pair_of pair escrow fl (mailbox mine) (mailbox peer) message v)

-- Where the caller's queue is sound, `read` does what `fetch` does to the caller's mailbox, and nothing
-- to the peer's.
pub read_ends-fetch :
    (escrow : HandleTable) (mine peer : End) (max_bytes max_count : ℕ)
    → IsQueue mine.inbound
    → let (r, t, m) = fetch escrow (mailbox mine) peer.alive max_bytes max_count in
      shown (read_ends escrow mine peer max_bytes max_count) ≡ (r, t, m, mailbox peer)
unfolding read_ends read_front fetch
read_ends-fetch escrow mine peer max_bytes max_count v =
    elim (Bool-cases (mine.inbound.count == 0)) [
      | inl none_left ↦ let e : mine.inbound.count ≡ 0 = ground arith in ground (arith, e)
      | inr some_left ↦
          let ne : mine.inbound.count ≢ 0 = λ e. ground arith in
          ground (arith, front_slot mine.inbound v ne, contents-dequeue mine.inbound v ne)
    ]
