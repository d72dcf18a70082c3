-- ===== src/Lockdep/Tests.antt =====
-- Two locks, the second taken under the first: the theorems at concrete calls.
use archipelago.Prelude.{◌≡◌, refl, arith, true, none, some, [], ◌∷◌}
use archipelago.Lockdep.{
  Tables, Context, empty_tables, acquired, learn_held, learn_edge, path_exists, try_edges, has_edge,
  take_lock, is_valid, put_lock, release_identity,
}
use archipelago.Lockdep.Paths.{Edge, Reaches, Reaches-nil, Acyclic-insert}
use archipelago.Lockdep.Acyclic.{Inv}
use archipelago.Lockdep.Held.{Recorded, acquired-Recorded, acquired_inversion}
use archipelago.Lockdep.Release.{ReleaseOutcome, release_identity-Forgotten}

abbrev tables : Tables
tables = record empty_tables { edges = record { from = 1; to = 2 } ∷ []; next_identity = 4 }

tables-Inv : Inv tables
tables-Inv = record {
  acyclic = Acyclic-insert [] 1 2 (λ x y e p. elim e [ ]) (λ p. omega (arith, Reaches-nil 2 1 p));
  ends = ((omega arith, omega arith, omega arith, omega arith), tt);
  room = omega arith;
}

-- A thread that holds the second lock.
abbrev context : Context
context = record {
  cpu_index = 0;
  thread_id = 7;
  held = record { address = 0x2000; identity = 2 } ∷ [];
}

-- The third lock, by this thread.
abbrev third : Tables
third = record tables {
  edges = record { from = 2; to = 3 } ∷ record { from = 1; to = 2 } ∷ [];
  locks =
      put_lock tables.locks 3
        (record { address = 0; name = 0; owner_cpu = 0; owner_thread = 7; owned = true });
}

abbrev holds_both : Context
holds_both = record context {
  held = record { address = 0x3000; identity = 3 } ∷ record { address = 0x2000; identity = 2 } ∷ [];
}

takes_third : acquired tables context 0x3000 3 ≡ some (third, holds_both)
unfolding acquired learn_held learn_edge path_exists try_edges has_edge take_lock is_valid
takes_third = refl

acquired-Recorded_example : Recorded tables third 3 context.held
acquired-Recorded_example =
    acquired-Recorded tables third context holds_both 0x3000 3 tables-Inv (omega arith)
      (omega arith, tt) takes_third

-- The first lock under the second.
acquired_inversion_example : acquired tables context 0x1000 1 ≡ none
acquired_inversion_example =
    acquired_inversion tables context 0x1000 1 (record { address = 0x2000; identity = 2 }) [] []
      tables-Inv (omega arith) (omega arith) (omega arith) (omega arith, tt) refl
      (Reaches.step 1 2 2 (Edge.here []) (Reaches.done 2))

release_identity-Forgotten_example : ReleaseOutcome tables 2 (release_identity tables 2)
release_identity-Forgotten_example = release_identity-Forgotten tables 2 tables-Inv
