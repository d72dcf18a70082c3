-- ===== src/Lockdep.antt =====
-- task/sync/lockdep.cpp in a build with its checks: the order in which locks are taken, as a graph. The
-- tables are guarded by one lock, so each operation is one step; `none` is a panic. The arrays with a
-- count are lists, the free list with its last entry first; a lock's record stands at its identity.
-- `release_identity`, which checks no bound, has a `fault` for a write outside of an array.
pub mod Paths
pub mod Search
pub mod Found
pub mod Acyclic
pub mod Held
pub mod Release
mod Tests
use archipelago.Prelude.{
  ℕ, zero, suc, ◌+◌, ◌-◌, Bool, true, false, ◌&&◌, ◌||◌, not, Option, none, some, List, [], ◌∷◌,
  ◌++◌, ◌==◌, ltb, if◌then◌else◌, length, get_elem?, set, replicate, reverse, Result, ok, fault,
}

abbrev pub max_locks : ℕ
max_locks = 128

abbrev pub max_edges : ℕ
max_edges = 512

abbrev pub max_held : ℕ
max_held = 16

-- `lock_record`; `name` is the address of its text.
pub record LockRecord : Type 0 where
  pub address : ℕ
  pub name : ℕ
  pub owner_cpu : ℕ
  pub owner_thread : ℕ
  pub owned : Bool

abbrev pub no_lock : LockRecord
no_lock = record { address = 0; name = 0; owner_cpu = 0; owner_thread = 0; owned = false }

-- `edge_record`.
pub record EdgeRecord : Type 0 where
  pub from : ℕ
  pub to : ℕ

pub record Tables : Type 0 where
  pub locks : ℕ → LockRecord
  pub edges : List EdgeRecord
  pub free_list : List ℕ
  pub next_identity : ℕ

-- `held_lock`.
pub record HeldLock : Type 0 where
  pub address : ℕ
  pub identity : ℕ

-- The part of `execution_context` that the checker uses; `held` has the last lock first.
pub record Context : Type 0 where
  pub cpu_index : ℕ
  pub thread_id : ℕ
  pub held : List HeldLock

abbrev pub empty_tables : Tables
empty_tables = record { locks = λ i. no_lock; edges = []; free_list = []; next_identity = 1 }

-- The bound test of `record`.
unfoldable pub is_valid : Tables → ℕ → Bool
is_valid t identity =
    not (identity == 0) && ltb identity t.next_identity && ltb identity (max_locks + 1)

unfoldable pub put_lock : (ℕ → LockRecord) → ℕ → LockRecord → ℕ → LockRecord
put_lock locks i lock j = if j == i then lock else locks j

-- The loop of `path_exists` over the edges of `from`, with `search` for the calls it makes: whether one
-- of them finds the goal, and what was visited.
unfoldable pub try_edges :
    (ℕ → List Bool → Bool × List Bool) → ℕ → List EdgeRecord → List Bool → Bool × List Bool
try_edges search from [] visited = (false, visited)
try_edges search from (e ∷ es) visited =
    let (found, visited') = if e.from == from then search e.to visited else (false, visited) in
    let rest = try_edges search from es visited' in if found then (true, visited') else rest

-- `fuel` bounds the depth of the calls. Identities are from 1 to 128 where it is called, so that each has
-- a mark; for one that has none, where the source reads outside of `visited`, the answer is no.
unfoldable pub path_exists : ℕ → List EdgeRecord → ℕ → ℕ → List Bool → Bool × List Bool
path_exists zero edges to from visited = (false, visited)
path_exists (suc fuel) edges to from visited =
    let search = path_exists fuel edges to in
    if from == to then (true, visited) else elim (get_elem? visited (from - 1)) [
      | none ↦ (false, visited)
      | some true ↦ (false, visited)
      | some false ↦ try_edges search from edges (set visited (from - 1) true)
    ]

-- Every call but the last marks an identity, so one more than their number is enough.
abbrev pub search_fuel : ℕ
search_fuel = 129

unfoldable pub has_edge : ℕ → ℕ → List EdgeRecord → Bool
has_edge from to [] = false
has_edge from to (e ∷ es) = (e.from == from) && (e.to == to) || has_edge from to es

unfoldable pub learn_edge : Tables → ℕ → ℕ → Option Tables
learn_edge t from to =
    let (found, visited) = path_exists search_fuel t.edges from to (replicate max_locks false) in
    if (from == 0) || (to == 0)
    then some t
    else if has_edge from to t.edges
    then some t
    else if found
    then none
    else if length t.edges == max_edges
    then none
    else some (record t { edges = record { from = from; to = to } ∷ t.edges })

unfoldable pub allocate_identity : Tables → ℕ → ℕ → Option (ℕ × Tables)
allocate_identity t address name =
    let fresh = record no_lock { address = address; name = name } in
    elim t.free_list [
      | identity ∷ rest ↦
          some (identity, record t { free_list = rest; locks = put_lock t.locks identity fresh })
      | [] ↦
          if ltb max_locks t.next_identity
          then none
          else some (
            t.next_identity,
            record t {
              next_identity = t.next_identity + 1;
              locks = put_lock t.locks t.next_identity fresh;
            },
          )
    ]

-- The loop of `release_identity`: the edges that do not name the identity. The source moves the last
-- edge into the gap; their order does not matter.
unfoldable pub drop_edges : ℕ → List EdgeRecord → List EdgeRecord
drop_edges identity [] = []
drop_edges identity (e ∷ es) =
    let rest = drop_edges identity es in
    if (e.from == identity) || (e.to == identity) then rest else e ∷ rest

-- The two arrays have `max_locks` entries and the source checks neither write; `fault` is a write
-- outside of one of them.
unfoldable pub release_identity : Tables → ℕ → Result Tables
release_identity t identity =
    if identity == 0
    then ok t
    else if ltb max_locks identity || not (ltb (length t.free_list) max_locks)
    then fault
    else ok (record t {
      edges = drop_edges identity t.edges;
      locks = put_lock t.locks identity no_lock;
      free_list = identity ∷ t.free_list;
    })

-- The loop of `acquired` over the locks that are held, the oldest first.
unfoldable pub learn_held : Tables → ℕ → ℕ → List HeldLock → Option Tables
learn_held t address identity [] = some t
learn_held t address identity (h ∷ hs) =
    if h.address == address then none else elim (learn_edge t h.identity identity) [
      | none ↦ none
      | some t' ↦ learn_held t' address identity hs
    ]

-- The checks of the record of a lock that is taken.
unfoldable pub take_lock : Tables → Context → ℕ → Option Tables
take_lock t context identity =
    let lock = t.locks identity in
    let taken = record lock {
      owner_cpu = context.cpu_index;
      owner_thread = context.thread_id;
      owned = true;
    } in
    if not (is_valid t identity)
    then none
    else if lock.owned
    then none
    else some (record t { locks = put_lock t.locks identity taken })

unfoldable pub acquired : Tables → Context → ℕ → ℕ → Option (Tables × Context)
acquired t context address identity = elim (learn_held t address identity (reverse context.held)) [
  | none ↦ none
  | some t' ↦
      let held = record context {
        held = record { address = address; identity = identity } ∷ context.held;
      } in
      if length context.held == max_held
      then none
      else if identity == 0
      then some (t', held)
      else elim (take_lock t' context identity) [ none ↦ none | some t'' ↦ some (t'', held) ]
]

unfoldable pub released : Tables → Context → ℕ → ℕ → Option (Tables × Context)
released t context address identity = elim context.held [
  | [] ↦ none
  | h ∷ hs ↦
      let context' = record context { held = hs } in
      let lock = t.locks identity in
      if not (h.address == address)
      then none
      else if identity == 0
      then some (t, context')
      else if not (is_valid t identity)
      then none
      else if not lock.owned || not (lock.owner_thread == context.thread_id)
      then none
      else some
          (record t { locks = put_lock t.locks identity (record lock { owned = false }) }, context')
]

unfoldable pub assert_not_owned : Tables → ℕ → Option Tables
assert_not_owned t identity =
    if identity == 0
    then some t
    else if not (is_valid t identity)
    then none
    else if (t.locks identity).owned
    then none
    else some t
