-- ===== src/Channel/Queue.antt =====
-- The slot ring of a channel: `enqueue` appends to its messages, `dequeue` drops the front one.
use archipelago.Prelude.{
  ℕ, zero, suc, ◌+◌, ◌-◌, ◌%◌, ◌≤◌, ◌<◌, ◌≡◌, ◌≢◌, refl, sym, ap, ◌∙◌, arith, some, List, [], ◌∷◌,
  ◌++◌, ltb, length, get_elem?, set, Bool-cases, inl, inr, ltb→lt, length-append, length-set,
}
use archipelago.Prelude.Window.{
  get_or, window, length-window, get_or-window, list_ext, get_or-append, get_or-set,
}
use archipelago.HandleTable.{HandleTable}
use archipelago.Channel.{Message, MessageQueue, no_message, enqueue, dequeue, release_handles}

-- The queue stays inside its slots, and the slots that hold no queued message are empty.
pub record IsQueue (q : MessageQueue) : Type 0 where
  pub whole : length q.slots ≡ 8
  pub head_in : q.head < 8
  pub count_in : q.count ≤ 8
  pub vacant :
      (i : ℕ) → q.count ≤ i → i < 8 → get_or q.slots ((q.head + i) % 8) no_message ≡ no_message

-- The queued messages, oldest first.
abbrev pub contents : MessageQueue → List Message
contents q = window q.slots 8 no_message q.head q.count

pub length-contents : (q : MessageQueue) → length (contents q) ≡ q.count
length-contents q = length-window q.slots 8 no_message q.head q.count

get_elem?-get_or :
    (xs : List Message) (i : ℕ) → i < length xs → get_elem? xs i ≡ some (get_or xs i no_message)
get_elem?-get_or [] i h = absurd (omega arith)
get_elem?-get_or (x ∷ xs) zero h = refl
get_elem?-get_or (x ∷ xs) (suc i) h = get_elem?-get_or xs i (omega arith)

-- Two indices of a ring of eight name one slot only if they are equal.
same_slot : (h i j : ℕ) → i < 8 → j < 8 → (h + i) % 8 ≡ (h + j) % 8 → i ≡ j
same_slot h i j a b e = omega arith

module _ (escrow : HandleTable) (q : MessageQueue) (m : Message) (v : IsQueue q)
    (room : q.count ≢ 8) where
  abbrev slot : ℕ
  slot = (q.head + q.count) % 8

  slot_in : slot < length q.slots
  slot_in = omega (arith, v.whole)

  other_slot :
      (i : ℕ)
      → i < 8
      → i ≢ q.count
      → get_or (set q.slots slot m) ((q.head + i) % 8) no_message
        ≡ get_or q.slots ((q.head + i) % 8) no_message
  other_slot i h ne =
      let distinct : slot ≢ (q.head + i) % 8 =
        λ e. ne (sym (same_slot q.head q.count i (omega (arith, v.count_in)) h e)) in
      ground (arith, get_or-set q.slots slot ((q.head + i) % 8) m no_message slot_in)

  abbrev longer : MessageQueue
  longer = record q { slots = set q.slots slot m; count = q.count + 1 }

  longer-IsQueue : IsQueue longer
  longer-IsQueue = record {
    whole = length-set q.slots slot m ∙ v.whole;
    head_in = v.head_in;
    count_in = omega (arith, v.count_in);
    vacant = λ i lo hi. other_slot i hi (λ e. omega arith) ∙ v.vacant i (omega arith) hi;
  }

  contents-longer : contents longer ≡ contents q ++ m ∷ []
  contents-longer =
      list_ext (contents longer) (contents q ++ m ∷ []) no_message
        (omega
          (arith, length-contents q, length-contents longer, length-append (contents q) (m ∷ [])))
        (λ i h. byte i (omega (arith, length-contents longer)))
    where
      byte :
          (i : ℕ)
          → i < q.count + 1
          → get_or (contents longer) i no_message ≡ get_or (contents q ++ m ∷ []) i no_message
      byte i h =
          get_or-window longer.slots 8 no_message q.head (q.count + 1) i v.head_in h
          ∙ elim (Bool-cases (ltb i q.count)) [
            | inl old ↦
                let lt = ltb→lt i q.count old in
                ground (
                  arith,
                  other_slot i (omega (arith, v.count_in)) (λ e. omega arith),
                  length-contents q,
                  get_or-append (contents q) (m ∷ []) i no_message,
                  get_or-window q.slots 8 no_message q.head q.count i v.head_in lt,
                )
            | inr new ↦
                let e : i ≡ q.count = ground arith in
                let z : i - q.count ≡ 0 = omega arith in
                ground (
                  arith,
                  ap (λ k. get_or (set q.slots slot m) ((q.head + k) % 8) no_message) e,
                  get_or-set q.slots slot slot m no_message slot_in,
                  length-contents q,
                  get_or-append (contents q) (m ∷ []) i no_message,
                  ap (λ k. get_or (m ∷ []) k no_message) z,
                )
          ]

  -- `enqueue` closes nothing and puts the message last.
  pub enqueue_lem :
      ((enqueue escrow q m).0 ≡ escrow)
      × ((enqueue escrow q m).1.count ≡ q.count + 1)
      × (contents (enqueue escrow q m).1 ≡ contents q ++ m ∷ [])
      × IsQueue (enqueue escrow q m).1
  unfolding enqueue release_handles
  enqueue_lem =
      let empty : get_elem? q.slots slot ≡ some no_message =
        get_elem?-get_or q.slots slot slot_in
        ∙ ap some (v.vacant q.count (omega arith) (omega (arith, v.count_in))) in
      (rw (empty, enqueue), refl, contents-longer, longer-IsQueue)

module _ (q : MessageQueue) (v : IsQueue q) (some_left : q.count ≢ 0) where
  head_at : q.head < length q.slots
  head_at = omega (arith, v.whole, v.head_in)

  abbrev message : Message
  message = get_or q.slots q.head no_message

  pub front_slot : get_elem? q.slots q.head ≡ some message
  front_slot = get_elem?-get_or q.slots q.head head_at

  slot_after :
      (i : ℕ)
      → i < 7
      → get_or (set q.slots q.head no_message) (((q.head + 1) % 8 + i) % 8) no_message
        ≡ get_or q.slots ((q.head + suc i) % 8) no_message
  slot_after i h =
      let e : ((q.head + 1) % 8 + i) % 8 ≡ (q.head + suc i) % 8 = omega arith in
      let ne : q.head ≢ (q.head + suc i) % 8 = λ p. omega (arith, v.head_in) in
      ap (λ k. get_or (set q.slots q.head no_message) k no_message) e
      ∙ ground
          (arith, get_or-set q.slots q.head ((q.head + suc i) % 8) no_message no_message head_at)

  pub dequeue-IsQueue : IsQueue (dequeue q)
  unfolding dequeue
  dequeue-IsQueue = record {
    whole = length-set q.slots q.head no_message ∙ v.whole;
    head_in = omega arith;
    count_in = omega (arith, v.count_in);
    vacant = λ i lo hi. elim (Bool-cases (ltb i 7)) [
      | inl inside ↦
          slot_after i (ltb→lt i 7 inside)
          ∙ v.vacant (suc i) (omega arith) (omega (arith, ltb→lt i 7 inside))
      | inr last ↦
          let e : ((q.head + 1) % 8 + i) % 8 ≡ q.head = ground (arith, v.head_in) in
          ap (λ k. get_or (set q.slots q.head no_message) k no_message) e
          ∙ ground (arith, get_or-set q.slots q.head q.head no_message no_message head_at)
    ];
  }

  -- The front message is the oldest, and `dequeue` leaves the others in their order.
  pub contents-dequeue : contents q ≡ message ∷ contents (dequeue q)
  unfolding dequeue
  contents-dequeue =
      let e : q.count ≡ suc (q.count - 1) = omega arith in
      ap (window q.slots 8 no_message q.head) e
      ∙ ap (λ ms. message ∷ ms)
          (list_ext (window q.slots 8 no_message ((q.head + 1) % 8) (q.count - 1))
            (contents (dequeue q)) no_message
            (length-window q.slots 8 no_message ((q.head + 1) % 8) (q.count - 1)
              ∙ sym (length-contents (dequeue q)))
            (λ i h.
              byte i (
                omega
                  (arith, length-window q.slots 8 no_message ((q.head + 1) % 8) (q.count - 1)))))
    where
      byte :
          (i : ℕ)
          → i < q.count - 1
          → get_or (window q.slots 8 no_message ((q.head + 1) % 8) (q.count - 1)) i no_message
            ≡ get_or (contents (dequeue q)) i no_message
      byte i h =
          let e : ((q.head + 1) % 8 + i) % 8 ≡ (q.head + suc i) % 8 = omega arith in
          get_or-window q.slots 8 no_message ((q.head + 1) % 8) (q.count - 1) i (omega arith) h
          ∙ ap (λ k. get_or q.slots k no_message) e
          ∙ sym (
              get_or-window (dequeue q).slots 8 no_message ((q.head + 1) % 8) (q.count - 1) i
                (omega arith) h
              ∙ slot_after i (omega (arith, v.count_in)))
