-- ===== src/Channel/Tests.antt =====
-- A channel pair as `create` leaves it: the theorems at concrete messages.
use archipelago.Prelude.{
  ℕ, ◌≡◌, refl, arith, true, none, some, [], ◌∷◌, zero, suc, ◌+◌, ◌%◌, replicate,
}
use archipelago.Prelude.Window.{get_or}
use archipelago.Object.{Object}
use archipelago.Object.TypeIds
use archipelago.HandleTable.{HandleTable, empty_table}
use archipelago.HandleTable.Invariant.{Inv}
use archipelago.Channel.{Message, no_message, fresh_end, write_ends, read_ends}
use archipelago.Channel.Queue.{IsQueue}
use archipelago.Channel.Mailbox.{fetch}
use archipelago.Channel.Invariant.{IsPair, Signals, write_ends-IsPair, read_ends-IsPair}
use archipelago.Channel.Refine.{mailbox, shown, Written, write_ends-Written, read_ends-fetch}

get_or-replicate : (n i : ℕ) → get_or (replicate n no_message) i no_message ≡ no_message
get_or-replicate zero i = refl
get_or-replicate (suc n) zero = refl
get_or-replicate (suc n) (suc i) = get_or-replicate n i

new-IsQueue : IsQueue fresh_end.inbound
new-IsQueue = record {
  whole = refl;
  head_in = omega arith;
  count_in = omega arith;
  vacant = λ i a b. get_or-replicate 8 ((0 + i) % 8);
}

new-Signals : Signals fresh_end fresh_end
new-Signals = record { readable = λ h. refl; writable = λ h. refl; hung_up = λ h. refl }

new-IsPair : IsPair fresh_end fresh_end
new-IsPair = record {
  queue = new-IsQueue;
  peer_queue = new-IsQueue;
  signals = new-Signals;
  peer_signals = new-Signals;
}

abbrev message : Message
message = record { bytes = 104 ∷ 105 ∷ []; handles = [] }

-- The shared state of a channel object, from its identity.
abbrev pair_of : Object → ℕ
pair_of o = o.id

-- An escrow table with one handle, which names an end of channel pair 1.
abbrev endpoint : Object
endpoint = record { id = 1; type_id = TypeIds.channel }

abbrev escrow : HandleTable
escrow = record {
  entries =
      record {
        object = some endpoint;
        strong = some endpoint;
        rights = 7;
        generation = 0;
        next_free = none;
      }
      ∷ [];
  count = 1;
  free_head = none;
}

escrow-Inv : Inv escrow []
escrow-Inv = record {
  chain = refl;
  distinct = tt;
  counted = refl;
  sound = ((refl, omega arith), tt);
}

abbrev with_handle : Message
with_handle = record { bytes = 104 ∷ []; handles = record { index = 0; generation = 0 } ∷ [] }

write_ends-Written_example :
    Written pair_of 1 escrow []
      (mailbox fresh_end)
      (mailbox fresh_end)
      with_handle
      (shown (write_ends pair_of 1 escrow fresh_end fresh_end with_handle))
write_ends-Written_example =
    write_ends-Written pair_of 1 escrow [] fresh_end fresh_end with_handle new-IsQueue escrow-Inv

read_ends-fetch_example :
    let (r, t, m) = fetch empty_table (mailbox fresh_end) true 4096 4 in
    shown (read_ends empty_table fresh_end fresh_end 4096 4) ≡ (r, t, m, mailbox fresh_end)
read_ends-fetch_example = read_ends-fetch empty_table fresh_end fresh_end 4096 4 new-IsQueue

write_ends-IsPair_example :
    let (r, a) = write_ends pair_of 1 empty_table fresh_end fresh_end message in
    IsPair a.mine a.peer
write_ends-IsPair_example =
    write_ends-IsPair fresh_end fresh_end new-IsPair pair_of 1 empty_table message

read_ends-IsPair_example :
    let (r, a) = read_ends empty_table fresh_end fresh_end 4096 4 in IsPair a.mine a.peer
read_ends-IsPair_example = read_ends-IsPair fresh_end fresh_end new-IsPair empty_table 4096 4 refl
