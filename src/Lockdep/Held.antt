-- ===== src/Lockdep/Held.antt =====
-- `acquired` records the order of the new lock after every lock that is held, and refuses an inversion.
use archipelago.Prelude.{
  ℕ, ◌≤◌, ◌<◌, ◌≡◌, refl, sym, ap, ◌∙◌, subst, true, false, not, none, some, List, [], ◌∷◌, ◌++◌,
  ◌==◌, length, reverse, Bool-cases, Option-cases, inl, inr, All, All-append, append-All,
}
use mathlib.Core.Option.{some-injective}
use mathlib.Core.List.{reverse-cons, reverse-reverse}
use archipelago.Lockdep.{
  EdgeRecord, Tables, HeldLock, Context, learn_edge, learn_held, take_lock, acquired, is_valid,
  put_lock, max_held,
}
use archipelago.Lockdep.Paths.{Edge, Reaches, Acyclic, Reaches-grows}
use archipelago.Lockdep.Acyclic.{EdgeOk, Inv, Learned, learn_edge-Learned}

-- What is known stays known.
pub record Grown (t t' : Tables) : Type 0 where
  pub inv : Inv t'
  pub grows : (x y : ℕ) → Edge x y t.edges → Edge x y t'.edges

-- The lock with the identity `to` comes after the lock `h`.
abbrev pub Before : Tables → ℕ → HeldLock → Type 0
Before t to h = 0 < h.identity → 0 < to → Edge h.identity to t.edges

abbrev pub HeldOk : HeldLock → Type 0
HeldOk h = h.identity ≤ 128

record Ordered (t t' : Tables) (to : ℕ) (hs : List HeldLock) : Type 0 where
  grown : Grown t t'
  before : All (Before t' to) hs

after_edge :
    (t t' : Tables) (address to : ℕ) (h : HeldLock) (hs : List HeldLock)
    → Inv t
    → to ≤ 128
    → All HeldOk hs
    → (h.address == address) ≡ false
    → learn_held t address to (h ∷ hs) ≡ some t'
    → Learned t h.identity to (learn_edge t h.identity to)
    → ((u : Tables) → Inv u → learn_held u address to hs ≡ some t' → Ordered u t' to hs)
    → Ordered t t' to (h ∷ hs)
unfolding learn_held
after_edge t t' address to h hs v ht ok other e (Learned.known f known) rest =
    let go : learn_held t address to (h ∷ hs) ≡ learn_held t address to hs =
      rw (other, learn_held) (rw (f, learn_held) refl) in
    let o = rest t v (sym go ∙ e) in
    record {
      grown = o.grown;
      before = (λ pf pt. o.grown.grows h.identity to (known pf pt), o.before);
    }
after_edge t t' address to h hs v ht ok other e (Learned.added u f edges inv) rest =
    let go : learn_held t address to (h ∷ hs) ≡ learn_held u address to hs =
      rw (other, learn_held) (rw (f, learn_held) refl) in
    let o = rest u inv (sym go ∙ e) in
    record {
      grown = record {
        inv = o.grown.inv;
        grows = λ x y d. o.grown.grows x y (subst (Edge x y) (sym edges) (Edge.there _ t.edges d));
      };
      before = (
        λ pf pt.
            o.grown.grows h.identity to
              (subst (Edge h.identity to) (sym edges) (Edge.here t.edges)),
        o.before,
      );
    }
after_edge t t' address to h hs v ht ok other e (Learned.cycle f p) rest =
    let go : learn_held t address to (h ∷ hs) ≡ none =
      rw (other, learn_held) (rw (f, learn_held) refl) in
    absurd (cc (go, e))
after_edge t t' address to h hs v ht ok other e (Learned.capacity f full) rest =
    let go : learn_held t address to (h ∷ hs) ≡ none =
      rw (other, learn_held) (rw (f, learn_held) refl) in
    absurd (cc (go, e))

learn_held-Ordered :
    (t t' : Tables) (address to : ℕ) (hs : List HeldLock)
    → Inv t
    → to ≤ 128
    → All HeldOk hs
    → learn_held t address to hs ≡ some t'
    → Ordered t t' to hs
unfolding learn_held
learn_held-Ordered t t' address to [] v ht ok e = record {
  grown = subst (Grown t) (some-injective _ _ e) (record { inv = v; grows = λ x y d. d });
  before = tt;
}
learn_held-Ordered t t' address to (h ∷ hs) v ht ok e = elim (Bool-cases (h.address == address)) [
  | inl same ↦
      let stop : learn_held t address to (h ∷ hs) ≡ none = rw (same, learn_held) refl in
      absurd (cc (stop, e))
  | inr other ↦
      after_edge t t' address to h hs v ht ok.1 other e
        (learn_edge-Learned t h.identity to v ok.0 ht)
        (λ u w f. learn_held-Ordered u t' address to hs w ht ok.1 f)
]

All-reverse {ℓ} : {A : Type 0} (P : A → Type ℓ) (xs : List A) → All P xs → All P (reverse xs)
All-reverse P [] all = tt
All-reverse P (x ∷ xs) all =
    subst (All P) (sym (reverse-cons x xs))
      (All-append P (reverse xs) (x ∷ []) (All-reverse P xs all.1) (all.0, tt))

take_lock-edges :
    (t t' : Tables) (context : Context) (identity : ℕ)
    → take_lock t context identity ≡ some t'
    → t'.edges ≡ t.edges
unfolding take_lock
take_lock-edges t t' context identity e = elim (Bool-cases (not (is_valid t identity))) [
  | inl bad ↦
      let f : take_lock t context identity ≡ none = rw (bad, take_lock) refl in absurd (cc (e, f))
  | inr good ↦ elim (Bool-cases (t.locks identity).owned) [
    | inl busy ↦
        let f : take_lock t context identity ≡ none =
          rw (good, take_lock) (rw (busy, take_lock) refl) in
        absurd (cc (e, f))
    | inr idle ↦
        let f : take_lock t context identity
            ≡ some (record t {
              locks = put_lock t.locks identity (record (t.locks identity) {
                owner_cpu = context.cpu_index;
                owner_thread = context.thread_id;
                owned = true;
              });
            }) =
          rw (good, take_lock) (rw (idle, take_lock) refl) in
        ap (λ (u : Tables). u.edges) (some-injective _ _ (sym e ∙ f))
  ]
]

abbrev holding : Context → ℕ → ℕ → Context
holding context address identity = record context {
  held = record { address = address; identity = identity } ∷ context.held;
}

-- Where `acquired` succeeds, the loop over the held locks did, and nothing later touches the edges.
acquired_learned :
    (t t' : Tables) (context context' : Context) (address identity : ℕ)
    → acquired t context address identity ≡ some (t', context')
    → (u : Tables) × (learn_held t address identity (reverse context.held) ≡ some u)
      × (t'.edges ≡ u.edges)
unfolding acquired
acquired_learned t t' context context' address identity e =
    elim (Option-cases (learn_held t address identity (reverse context.held))) [
      | inl fails ↦
          let f : acquired t context address identity ≡ none = rw (fails, acquired) refl in
          absurd (cc (e, f))
      | inr (u, learned) ↦ elim (Bool-cases (length context.held == max_held)) [
        | inl full ↦
            let f : acquired t context address identity ≡ none =
              rw (learned, acquired) (rw (full, acquired) refl) in
            absurd (cc (e, f))
        | inr room ↦ elim (Bool-cases (identity == 0)) [
          | inl unnamed ↦
              let f : acquired t context address identity
                  ≡ some (u, holding context address identity) =
                rw (learned, acquired) (rw (room, acquired) (rw (unnamed, acquired) refl)) in
              (
                u,
                learned,
                ap (λ (o : Tables × Context). o.0.edges) (some-injective _ _ (sym e ∙ f)),
              )
          | inr named ↦ elim (Option-cases (take_lock u context identity)) [
            | inl fails ↦
                let f : acquired t context address identity ≡ none =
                  rw (learned, acquired)
                    (rw (room, acquired) (rw (named, acquired) (rw (fails, acquired) refl))) in
                absurd (cc (e, f))
            | inr (w, takes) ↦
                let f : acquired t context address identity
                    ≡ some (w, holding context address identity) =
                  rw (learned, acquired)
                    (rw (room, acquired) (rw (named, acquired) (rw (takes, acquired) refl))) in
                (
                  u,
                  learned,
                  ap (λ (o : Tables × Context). o.0.edges) (some-injective _ _ (sym e ∙ f))
                      ∙ take_lock-edges u w context identity takes,
                )
          ]
        ]
      ]
    ]

-- What a successful `acquired` recorded.
pub record Recorded (t t' : Tables) (identity : ℕ) (held : List HeldLock) : Type 0 where
  pub grown : Grown t t'
  pub before : All (Before t' identity) held

-- From edges in order, where `acquired` succeeds, the edges stay in order and without a cycle, none is lost, and every lock
-- that was held comes before the new one.
pub acquired-Recorded :
    (t t' : Tables) (context context' : Context) (address identity : ℕ)
    → Inv t
    → identity ≤ 128
    → All HeldOk context.held
    → acquired t context address identity ≡ some (t', context')
    → Recorded t t' identity context.held
acquired-Recorded t t' context context' address identity v hi ok e =
    let (u, learned, edges) = acquired_learned t t' context context' address identity e in
    let o =
      learn_held-Ordered t u address identity (reverse context.held) v hi
        (All-reverse HeldOk context.held ok) learned in
    record {
      grown = record {
        inv = record {
          acyclic = subst Acyclic (sym edges) o.grown.inv.acyclic;
          ends = subst (All EdgeOk) (sym edges) o.grown.inv.ends;
          room = subst (λ (es : List EdgeRecord). length es ≤ 512) (sym edges) o.grown.inv.room;
        };
        grows = λ x y d. subst (Edge x y) (sym edges) (o.grown.grows x y d);
      };
      before =
          subst
            (λ (es : List EdgeRecord).
              All (λ (h : HeldLock). 0 < h.identity → 0 < identity → Edge h.identity identity es)
                context.held)
            (sym edges)
            (subst (All (Before u identity)) (reverse-reverse context.held)
              (All-reverse (Before u identity) (reverse context.held) o.before));
    }

-- From edges in order, `acquired` of a lock that is known to come before one that is held stops.
pub acquired_inversion :
    (t : Tables) (context : Context) (address identity : ℕ) (h : HeldLock)
    (before after : List HeldLock)
    → Inv t
    → 0 < identity
    → identity ≤ 128
    → 0 < h.identity
    → All HeldOk context.held
    → context.held ≡ before ++ h ∷ after
    → Reaches t.edges identity h.identity
    → acquired t context address identity ≡ none
acquired_inversion t context address identity h before after v pi hi ph ok at p =
    elim (Option-cases (acquired t context address identity)) [
      | inl stops ↦ stops
      | inr ((t', context'), e) ↦
          let r = acquired-Recorded t t' context context' address identity v hi ok e in
          let mine =
            (append-All (Before t' identity) before (h ∷ after)
              (subst (All (Before t' identity)) at r.before)).1.0 in
          absurd (
            r.grown.inv.acyclic h.identity identity (mine ph pi)
              (Reaches-grows t.edges t'.edges r.grown.grows identity h.identity p))
    ]
