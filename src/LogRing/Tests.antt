-- ===== src/LogRing/Tests.antt =====
-- A ring of four slots, two producers and the flusher: the theorems at concrete runs.
use archipelago.Prelude.{ℕ, ◌≡◌, refl, arith, true, false, [], ◌∷◌}
use archipelago.LogRing.{
  is_ready, is_full, claim, number, mark, fill, publish, put, drain, drain_loop, flush, advance,
  end_flush, for_each, try_flush, at_ready, LogRing, crash_scan, crash_from,
}
use archipelago.LogRing.Steps.{Stage, System, at, Step, Run}
use archipelago.LogRing.Invariant.{Inv, slot_of}
use archipelago.LogRing.Order.{
  empty_ring, boot, InOrder, Run-InOrder, Run-exclusive, Run-Inv, boot-Inv,
}
use archipelago.LogRing.Drain.{Drained, drain-Drained}
use archipelago.LogRing.Scan.{Visits, for_each-Visits}

abbrev start : System ℕ
start = boot 0

-- The producer of 1 is done before the producer of 0 has begun to write.
abbrev claimed_0 : System ℕ
claimed_0 = record start { ring = (claim start.ring 0).1; stage = at start.stage 0 Stage.claimed }

abbrev claimed_1 : System ℕ
claimed_1 = record claimed_0 {
  ring = (claim claimed_0.ring 1).1;
  stage = at claimed_0.stage 1 Stage.claimed;
}

abbrev numbered_1 : System ℕ
numbered_1 = record claimed_1 {
  ring = number 4 claimed_1.ring 1;
  stage = at claimed_1.stage 1 Stage.numbered;
}

abbrev marked_1 : System ℕ
marked_1 = record numbered_1 {
  ring = mark 4 numbered_1.ring 1;
  stage = at numbered_1.stage 1 Stage.writing;
}

abbrev filled_1 : System ℕ
filled_1 = record marked_1 {
  ring = fill 4 marked_1.ring 1 7;
  stage = at marked_1.stage 1 Stage.writing;
}

abbrev published_1 : System ℕ
published_1 = record filled_1 {
  ring = publish 4 filled_1.ring 1;
  stage = at filled_1.stage 1 Stage.none;
  messages = at filled_1.messages 1 (slot_of 4 filled_1 1).value;
}

run_published : Run 4 start published_1
unfolding claim number mark is_full
run_published =
    Run.step start claimed_0 published_1
      (Step.claimed start 0 0 (omega arith) refl refl (omega arith))
      (Run.step claimed_0 claimed_1 published_1
        (Step.claimed claimed_0 1 0 (omega arith) refl refl (omega arith))
        (Run.step claimed_1 numbered_1 published_1 (Step.numbered claimed_1 1 refl) (
          Run.step numbered_1 marked_1 published_1 (Step.marked numbered_1 1 refl) (
            Run.step marked_1 filled_1 published_1 (Step.filled marked_1 1 7 refl) (
              Run.step filled_1 published_1 published_1 (Step.published filled_1 1 refl)
                (Run.done published_1))))))

Run-InOrder_example : InOrder 4 (omega arith) published_1
Run-InOrder_example = Run-InOrder 4 (omega arith) 0 published_1 run_published

run_claimed : Run 4 start claimed_1
unfolding claim is_full
run_claimed =
    Run.step start claimed_0 claimed_1
      (Step.claimed start 0 0 (omega arith) refl refl (omega arith))
      (Run.step claimed_0 claimed_1 claimed_1
        (Step.claimed claimed_0 1 0 (omega arith) refl refl (omega arith)) (Run.done claimed_1))

Run-exclusive_example : (is_ready (slot_of 4 claimed_1 1).state ≡ false) × (◌≡◌ {A = ℕ} 1 1)
Run-exclusive_example = Run-exclusive 4 (omega arith) 0 claimed_1 1 1 run_claimed refl refl refl

-- One message waits.
abbrev numbered_0 : System ℕ
numbered_0 = record claimed_0 {
  ring = number 4 claimed_0.ring 0;
  stage = at claimed_0.stage 0 Stage.numbered;
}

abbrev marked_0 : System ℕ
marked_0 = record numbered_0 {
  ring = mark 4 numbered_0.ring 0;
  stage = at numbered_0.stage 0 Stage.writing;
}

abbrev filled_0 : System ℕ
filled_0 = record marked_0 {
  ring = fill 4 marked_0.ring 0 5;
  stage = at marked_0.stage 0 Stage.writing;
}

abbrev published_0 : System ℕ
published_0 = record filled_0 {
  ring = publish 4 filled_0.ring 0;
  stage = at filled_0.stage 0 Stage.none;
  messages = at filled_0.messages 0 (slot_of 4 filled_0 0).value;
}

run_waiting : Run 4 start published_0
unfolding claim number mark is_full
run_waiting =
    Run.step start claimed_0 published_0
      (Step.claimed start 0 0 (omega arith) refl refl (omega arith))
      (Run.step claimed_0 numbered_0 published_0 (Step.numbered claimed_0 0 refl) (
        Run.step numbered_0 marked_0 published_0 (Step.marked numbered_0 0 refl) (
          Run.step marked_0 filled_0 published_0 (Step.filled marked_0 0 5 refl) (
            Run.step filled_0 published_0 published_0 (Step.published filled_0 0 refl)
              (Run.done published_0)))))

published_0-Inv : Inv 4 published_0
published_0-Inv = Run-Inv 4 (omega arith) start published_0 run_waiting (boot-Inv 4 (omega arith) 0)

emits_one : (drain 4 4 published_0.ring).0 ≡ 5 ∷ []
unfolding drain drain_loop claim number mark fill publish put try_flush at_ready flush advance
    end_flush
emits_one = refl

idle : published_0.ring.flushing ≡ false
unfolding claim number mark fill publish
idle = refl

drain-Drained_example :
    Drained 4 published_0 (drain 4 4 published_0.ring).0 (drain 4 4 published_0.ring).1
drain-Drained_example = drain-Drained 4 published_0 published_0-Inv idle

for_each-Visits_example : Visits 4 published_0 0 0 (for_each 4 published_0.ring 0)
unfolding publish fill mark number claim
for_each-Visits_example = for_each-Visits 4 published_0 published_0-Inv 0 (omega arith)

-- Between the two loads of `reserve`, another context wrote a message and a flusher took it out: the
-- ring is empty, and the test says that it is full.
spurious_drop : is_full 4 0 1 ≡ true
unfolding is_full
spurious_drop = refl

-- A ring of one slot whose message 0 came out, and the producer of 1 between its two stores.
abbrev once : LogRing ℕ
once = publish 1 (fill 1 (mark 1 (number 1 (claim (empty_ring 0) 0).1 0) 0) 0 7) 0

abbrev between : LogRing ℕ
between = number 1 (claim (advance (flush 1 once 0) 0) 1).1 1

-- The crash scan shows message 0 under the number 1, and does not say that a producer holds the slot.
stale_shown : (crash_scan 1 between).0 ≡ (7, false) ∷ []
unfolding crash_scan crash_from claim number mark fill publish flush advance put
stale_shown = refl
