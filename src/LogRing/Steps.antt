-- ===== src/LogRing/Steps.antt =====
-- The accesses of all contexts, one at a time. A producer that was interrupted holds counters that it
-- loaded earlier: `read` only grows, so what it loaded is at most what the ring holds now. A sequence
-- number belongs to one producer from its exchange to `publish`, so the producers' positions are kept
-- by sequence number; `flushing` admits one flusher. Accesses take effect in the order of the steps.
-- `crash_scan` is left out: it runs when nothing else does.
use archipelago.Prelude.{
  ℕ, ◌%◌, ◌^◌, ◌≤◌, ◌<◌, ◌≡◌, Bool, true, false, List, ◌∷◌, ◌==◌, if◌then◌else◌,
}
use archipelago.LogRing.{
  LogRing, is_full, drop_message, claim, number, mark, fill, publish, at_ready, flush, advance,
  try_flush, end_flush,
}

-- Where the producer of a sequence number stands.
pub data Stage : Type 0 where
  none claimed numbered writing : Stage

abbrev pub is_busy : Stage → Bool
is_busy Stage.none = false
is_busy Stage.claimed = true
is_busy Stage.numbered = true
is_busy Stage.writing = true

-- Where the flusher stands with the sequence number that `read` holds.
pub data Flusher : Type 0 where
  resting scanning emitted cleared : Flusher

-- `messages` are the payloads by sequence number, as they were published, and `out` is what was
-- emitted, the last first.
pub record System (T : Type 0) : Type 0 where
  pub ring : LogRing T
  pub stage : ℕ → Stage
  pub flusher : Flusher
  pub messages : ℕ → T
  pub out : List T

abbrev pub at {ℓ} : {A : Type ℓ} → (ℕ → A) → ℕ → A → ℕ → A
at f i a j = if j == i then a else f j

-- One access. Sequence numbers stay below 2^63, the number of messages of a machine's life; an exchange
-- that is lost changes nothing and is no step.
pub data Step {T : Type 0} (capacity : ℕ) : System T → System T → Type 0 where
  dropped :
      (s : System T) (w r : ℕ)
      → is_full capacity w r ≡ true
      → Step capacity s (record s { ring = drop_message s.ring })
  claimed :
      (s : System T) (w r : ℕ)
      → r ≤ s.ring.read
      → is_full capacity w r ≡ false
      → (claim s.ring w).0 ≡ true
      → w < 2 ^ 63
      → Step capacity s (record s { ring = (claim s.ring w).1; stage = at s.stage w Stage.claimed })
  numbered :
      (s : System T) (w : ℕ)
      → s.stage w ≡ Stage.claimed
      → Step capacity s
          (record s { ring = number capacity s.ring w; stage = at s.stage w Stage.numbered })
  marked :
      (s : System T) (w : ℕ)
      → s.stage w ≡ Stage.numbered
      → Step capacity s
          (record s { ring = mark capacity s.ring w; stage = at s.stage w Stage.writing })
  filled :
      (s : System T) (w : ℕ) (v : T)
      → s.stage w ≡ Stage.writing
      → Step capacity s
          (record s { ring = fill capacity s.ring w v; stage = at s.stage w Stage.writing })
  published :
      (s : System T) (w : ℕ)
      → s.stage w ≡ Stage.writing
      → Step capacity s (record s {
        ring = publish capacity s.ring w;
        stage = at s.stage w Stage.none;
        messages = at s.messages w (s.ring.slots (w % capacity)).value;
      })
  started :
      (s : System T)
      → (try_flush s.ring).0 ≡ true
      → Step capacity s (record s { ring = (try_flush s.ring).1; flusher = Flusher.scanning })
  emitted :
      (s : System T)
      → s.flusher ≡ Flusher.scanning
      → at_ready capacity s.ring s.ring.read ≡ true
      → Step capacity s (record s {
        flusher = Flusher.emitted;
        out = (s.ring.slots (s.ring.read % capacity)).value ∷ s.out;
      })
  cleared :
      (s : System T)
      → s.flusher ≡ Flusher.emitted
      → Step capacity s
          (record s { ring = flush capacity s.ring s.ring.read; flusher = Flusher.cleared })
  advanced :
      (s : System T)
      → s.flusher ≡ Flusher.cleared
      → Step capacity s (record s { ring = advance s.ring s.ring.read; flusher = Flusher.scanning })
  stopped :
      (s : System T)
      → s.flusher ≡ Flusher.scanning
      → at_ready capacity s.ring s.ring.read ≡ false
      → Step capacity s (record s { ring = end_flush s.ring; flusher = Flusher.resting })

pub data Run {T : Type 0} (capacity : ℕ) : System T → System T → Type 0 where
  done : (s : System T) → Run capacity s s
  step : (s t u : System T) → Step capacity s t → Run capacity t u → Run capacity s u
