-- ===== src/HandleTable.antt =====
-- includes/kernel/obj/handle_table.h and obj/handle_table.cpp: a task's table of handles.
-- An operation returns its `ktl::result` and the table that it leaves. `next_free` and `m_free_head`
-- hold -1 for the end of the free list, here `none`. A `ref<Object>` is an optional object: moving
-- one out leaves `none`. The heap is asked for room when the vector grows by an entry: `room n` says
-- whether a push onto `n` entries succeeds. Each operation holds the table's lock throughout, so it
-- is one step; `clear` and `duplicate` drop it in between, and are modelled without other calls
-- there.
-- Slot numbers are unbounded: the source's casts of them to int32_t and back keep
-- the number below 2^31 slots, and a table of more is not modelled.
pub mod FreeList
pub mod Invariant
pub mod Grow
pub mod View
pub mod Stale
pub mod Claim
pub mod Create
pub mod Take
pub mod Rebuild
pub mod Clear
pub mod History
pub mod Rights
pub mod Packing
mod Tests
use Prim.Native.Nat.{bit_or}
use archipelago.Prelude.{
  ℕ, zero, suc, ◌+◌, ◌-◌, ◌*◌, ◌/◌, ◌%◌, ◌^◌, bit_and, Bool, true, false, not, ◌&&◌, Option, none,
  some, List, [], ◌∷◌, ◌++◌, ◌==◌, if◌then◌else◌, is_some, length, get_elem?, set, Result, ok, err,
  fault,
}
use archipelago.Prelude.Errc.{null_argument, oom, wrong_type, handle_invalid, rights_violation}
use archipelago.Object.{Object, right_duplicate, not32}
use archipelago.Object.TypeIds.{invalid}
use archipelago.Object.Registry.{TypeRegistry, lookup}

pub record HandleId : Type 0 where
  pub index : ℕ
  pub generation : ℕ

unfoldable pub id_eq : HandleId → HandleId → Bool
id_eq a b = (a.index == b.index) && (a.generation == b.generation)

unfoldable pub pack_handle : HandleId → ℕ
pack_handle id = bit_or id.index (id.generation * 2 ^ 32 % 2 ^ 64)

unfoldable pub unpack_handle : ℕ → HandleId
unpack_handle handle = record { index = handle % 2 ^ 32; generation = handle / 2 ^ 32 % 2 ^ 32 }

pub record HandleInfo : Type 0 where
  pub id : HandleId
  pub rights : ℕ
  pub type_id : ℕ
  pub object_id : ℕ

pub record VerifiedHandle : Type 0 where
  pub object : Option Object
  pub rights : ℕ

pub record HandleEntry : Type 0 where
  pub object : Option Object
  pub strong : Option Object
  pub rights : ℕ
  pub generation : ℕ
  pub next_free : Option ℕ

pub record HandleTable : Type 0 where
  pub entries : List HandleEntry
  pub count : ℕ
  pub free_head : Option ℕ

abbrev pub max_generation : ℕ
max_generation = 0x7fff_ffff

abbrev pub grow_batch : ℕ
grow_batch = 32

abbrev pub fresh_entry : HandleEntry
fresh_entry = record { object = none; strong = none; rights = 0; generation = 0; next_free = none }

abbrev pub empty_table : HandleTable
empty_table = record { entries = []; count = 0; free_head = none }

-- The first loop of `grow`: it stops at the first push that fails, and keeps what was pushed.
unfoldable pub grow_push : (ℕ → Bool) → ℕ → List HandleEntry → Bool × List HandleEntry
grow_push room zero es = (true, es)
grow_push room (suc n) es =
    let rest = grow_push room n (es ++ fresh_entry ∷ []) in
    if room (length es) then rest else (false, es)

-- Puts slot `i` before the free list: `m_entries[i].next_free = m_free_head; m_free_head = i`.
unfoldable pub chain_slot : ℕ → List HandleEntry → Option ℕ → List HandleEntry × Option ℕ
chain_slot i es head = elim (get_elem? es i) [
  | none ↦ (es, head)
  | some e ↦ (set es i (record e { next_free = head }), some i)
]

-- The second loop of `grow`, from `old + n` down to `old`.
unfoldable pub grow_chain : ℕ → ℕ → List HandleEntry → Option ℕ → List HandleEntry × Option ℕ
unfolding chain_slot
grow_chain old zero es head = (es, head)
grow_chain old (suc n) es head =
    let (es', head') = chain_slot (old + n) es head in grow_chain old n es' head'

unfoldable pub grow : (ℕ → Bool) → HandleTable → Result ℕ × HandleTable
grow room t =
    let (pushed, es) = grow_push room grow_batch t.entries in
    let (es', head) = grow_chain (length t.entries) grow_batch es t.free_head in
    if pushed
    then (ok 0, record t { entries = es'; free_head = head })
    else (err oom, record t { entries = es })

unfoldable pub lookup_entry : HandleTable → HandleId → Option HandleEntry
lookup_entry t id = elim (get_elem? t.entries id.index) [
  | none ↦ none
  | some e ↦
      if e.generation == id.generation then (if is_some e.object then some e else none) else none
]

-- The end of `create_handle`: the head of the free list becomes a live entry.
unfoldable pub claim_slot : HandleTable → Object → ℕ → Result HandleId × HandleTable
claim_slot t object rights = elim t.free_head [
  | none ↦ (fault, t)
  | some slot ↦ elim (get_elem? t.entries slot) [
    | none ↦ (fault, t)
    | some e ↦ (
      ok (record { index = slot; generation = e.generation }),
      record {
        entries = set t.entries slot (record e {
          object = some object;
          strong = some object;
          rights = rights;
          next_free = none;
        });
        count = t.count + 1;
        free_head = e.next_free;
      },
    )
  ]
]

-- `create_handle` after its checks.
unfoldable pub claim : (ℕ → Bool) → HandleTable → Object → ℕ → Result HandleId × HandleTable
claim room t object rights =
    if is_some t.free_head
    then claim_slot t object rights
    else let (grown, t') = grow room t in
      elim grown [ ok _ ↦ claim_slot t' object rights | err e ↦ (err e, t') | fault ↦ (fault, t') ]

unfoldable pub create_handle :
    (ℕ → Bool) → TypeRegistry → HandleTable → Option Object → ℕ → Result HandleId × HandleTable
create_handle room reg t none rights = (err null_argument, t)
create_handle room reg t (some object) rights = elim (lookup reg object.type_id) [
  | none ↦ (err wrong_type, t)
  | some d ↦
      if bit_and rights (not32 d.valid_rights) == 0
      then claim room t object rights
      else (err rights_violation, t)
]

-- `insert`; `emplace` is the same after `make_ref`, whose failure it reports as `oom`.
unfoldable pub insert :
    (ℕ → Bool) → TypeRegistry → HandleTable → Option Object → ℕ → Result HandleId × HandleTable
insert room reg t object rights = create_handle room reg t object rights

unfoldable pub emplace :
    (ℕ → Bool) → TypeRegistry → HandleTable → Option Object → ℕ → Result HandleId × HandleTable
emplace room reg t none rights = (err oom, t)
emplace room reg t (some object) rights = create_handle room reg t (some object) rights

unfoldable pub duplicate :
    (ℕ → Bool) → TypeRegistry → HandleTable → HandleId → ℕ → Result HandleId × HandleTable
duplicate room reg t source mask = elim (lookup_entry t source) [
  | none ↦ (err handle_invalid, t)
  | some src ↦
      if bit_and src.rights right_duplicate == 0
      then (err rights_violation, t)
      else create_handle room reg t src.object (bit_and src.rights mask)
]

-- The entry that `take` leaves, and whether its slot goes back to the free list.
unfoldable pub emptied : HandleEntry → Option ℕ → HandleEntry
emptied e head =
    if e.generation == max_generation
    then record e { object = none; strong = none; rights = 0; next_free = none }
    else record e {
      object = none;
      strong = none;
      rights = 0;
      generation = (e.generation + 1) % 2 ^ 32;
      next_free = head;
    }

unfoldable pub take : HandleTable → HandleId → Result VerifiedHandle × HandleTable
take t id = elim (lookup_entry t id) [
  | none ↦ (err handle_invalid, t)
  | some e ↦ (
    ok (record { object = e.strong; rights = e.rights }),
    record {
      entries = set t.entries id.index (emptied e t.free_head);
      count = t.count - 1;
      free_head = if e.generation == max_generation then t.free_head else some id.index;
    },
  )
]

unfoldable pub close : HandleTable → HandleId → Result ℕ × HandleTable
close t id =
    let (taken, t') = take t id in
    elim taken [ ok _ ↦ (ok 0, t') | err e ↦ (err e, t') | fault ↦ (fault, t') ]

-- `expected_type` 0 means any type.
unfoldable pub verify : HandleTable → HandleId → ℕ → ℕ → Result VerifiedHandle
verify t id required expected = elim (lookup_entry t id) [
  | none ↦ err handle_invalid
  | some e ↦ elim e.object [
    | none ↦ fault
    | some o ↦
        if not (expected == invalid) && not (o.type_id == expected)
        then err wrong_type
        else if bit_and e.rights required == required
        then ok (record { object = some o; rights = e.rights })
        else err rights_violation
  ]
]

-- `get<T>` with `T::TYPE_ID` for `expected`.
unfoldable pub get : HandleTable → HandleId → ℕ → ℕ → Result (Option Object)
get t id required expected = elim (verify t id required expected) [
  | ok v ↦ ok v.object
  | err e ↦ err e
  | fault ↦ fault
]

unfoldable pub is_valid : HandleTable → HandleId → Bool
is_valid t id = is_some (lookup_entry t id)

-- The loop of `snapshot`, from slot `i` on; `room` answers each push onto `out`.
unfoldable pub snapshot_from :
    (ℕ → Bool) → ℕ → List HandleEntry → List HandleInfo → Bool × List HandleInfo
snapshot_from room i [] out = (true, out)
snapshot_from room i (e ∷ es) out = elim e.object [
  | none ↦ snapshot_from room (i + 1) es out
  | some o ↦
      let info : HandleInfo = record {
        id = record { index = i; generation = e.generation };
        rights = e.rights;
        type_id = o.type_id;
        object_id = o.id;
      } in
      let rest = snapshot_from room (i + 1) es (out ++ info ∷ []) in
      if room (length out) then rest else (false, out)
]

-- `reserves` says whether `out.reserve` succeeds.
unfoldable pub snapshot : Bool → (ℕ → Bool) → HandleTable → List HandleInfo → Bool × List HandleInfo
unfolding snapshot_from
snapshot reserves room t out = if reserves then snapshot_from room 0 t.entries out else (false, out)

-- What `clear` makes of a live entry. Its link is overwritten when the free list is rebuilt.
unfoldable pub closed_entry : HandleEntry → HandleEntry
closed_entry e = record e {
  object = none;
  strong = none;
  rights = 0;
  generation = if e.generation == max_generation then e.generation else (e.generation + 1) % 2 ^ 32;
}

-- The first loop of `clear`: every live entry is closed, in slot order.
unfoldable pub close_live : List HandleEntry → ℕ → List HandleEntry × ℕ
close_live [] count = ([], count)
close_live (e ∷ es) count =
    let live = is_some e.object in
    let (es', count') = close_live es (if live then count - 1 else count) in
    ((if live then closed_entry e else e) ∷ es', count')

-- One round of the second loop of `clear`, at slot `i`.
unfoldable pub rebuild_slot : ℕ → List HandleEntry → Option ℕ → List HandleEntry × Option ℕ
rebuild_slot i es head = elim (get_elem? es i) [
  | none ↦ (es, head)
  | some e ↦ elim (is_some e.object) [
    | true ↦ (set es i (record e { next_free = none }), head)
    | false ↦
        if e.generation == max_generation
        then (set es i (record e { next_free = none }), head)
        else (set es i (record e { next_free = head }), some i)
  ]
]

unfoldable pub rebuild : ℕ → List HandleEntry → Option ℕ → List HandleEntry × Option ℕ
unfolding rebuild_slot
rebuild zero es head = (es, head)
rebuild (suc i) es head = let (es', head') = rebuild_slot i es head in rebuild i es' head'

unfoldable pub clear : HandleTable → HandleTable
clear t =
    let (es, count) = close_live t.entries t.count in
    let (es', head) = rebuild (length es) es none in
    record { entries = es'; count = count; free_head = head }
