-- ===== src/Channel/Escrow.antt =====
-- The handles of a message: whether one of them is an end of the channel, and what dropping them does.
use archipelago.Prelude.{
  ℕ, ◌≡◌, ◌⊎◌, refl, sym, ap, ◌∙◌, subst, arith, Bool, true, false, ◌&&◌, none, some, List, [], ◌∷◌,
  ◌==◌, if◌then◌else◌, Bool-cases, inl, inr, Result, ok, err,
}
use mathlib.Core.Option.{some-injective}
use archipelago.Prelude.Bits.{bit_and-nothing}
use archipelago.Prelude.Errc.{handle_invalid}
use archipelago.Object.{Object}
use archipelago.Object.TypeIds
use archipelago.HandleTable
use archipelago.HandleTable.{HandleId, HandleTable, id_eq, lookup_entry}
use archipelago.HandleTable.Invariant.{Inv}
use archipelago.HandleTable.View.{view, lookup_cases}
use archipelago.HandleTable.Stale.{Keeps, Keeps-refl}
use archipelago.HandleTable.Take.{TakeOutcome, take-outcome}
use archipelago.HandleTable.Rights.{checked, verify-view}
use archipelago.Channel.{release_handles, carries_endpoint}

-- The handle names an end of the channel pair.
pub record IsEnd (pair_of : Object → ℕ) (pair : ℕ) (t : HandleTable) (id : HandleId) : Type 0 where
  pub object : Object
  pub rights : ℕ
  pub named : view t id ≡ some (object, rights)
  pub channel : object.type_id ≡ TypeIds.channel
  pub own : pair_of object ≡ pair

-- One of the handles does.
pub data Carries (pair_of : Object → ℕ) (pair : ℕ) (t : HandleTable) : List HandleId → Type 0 where
  here :
      (h : HandleId) (hs : List HandleId) → IsEnd pair_of pair t h → Carries pair_of pair t (h ∷ hs)
  there :
      (h : HandleId) (hs : List HandleId)
      → Carries pair_of pair t hs
      → Carries pair_of pair t (h ∷ hs)

-- The handle ids in a list.
abbrev pub is_among : List HandleId → HandleId → Bool
is_among [] j = false
is_among (h ∷ hs) j = if id_eq h j then true else is_among hs j

-- The table after these handles were closed: every other id means what it did.
pub record Dropped (t : HandleTable) (fl : List ℕ) (hs : List HandleId) (t' : HandleTable)
    : Type 0 where
  pub effect : (j : HandleId) → view t' j ≡ (if is_among hs j then none else view t j)
  pub keeps : Keeps t fl t'

id_eq-view : (t : HandleTable) (a b : HandleId) → id_eq a b ≡ true → view t a ≡ view t b
unfolding id_eq
id_eq-view t a b h =
    let i : a.index ≡ b.index = ground (arith, h) in
    let g : a.generation ≡ b.generation = ground (arith, h) in
    ap (λ i. view t (record { index = i; generation = a.generation })) i
    ∙ ap (λ g. view t (record { index = b.index; generation = g })) g

close_one :
    (t : HandleTable) (fl : List ℕ) (h : HandleId)
    → Inv t fl
    → Dropped t fl (h ∷ []) (HandleTable.close t h).1
unfolding HandleTable.close
close_one t fl h v = elim (take-outcome t fl h v) [
  | TakeOutcome.missing unnamed e ↦
      let same : (HandleTable.close t h).1 ≡ t =
        rw (e, HandleTable.close)
          (ap (λ (x : Result HandleTable.VerifiedHandle × HandleTable). x.1) e) in
      subst (Dropped t fl (h ∷ [])) (sym same) (record {
        effect = λ j. elim (Bool-cases (id_eq h j)) [
          | inl this ↦ rw this (sym (id_eq-view t h j this) ∙ unnamed)
          | inr other ↦ rw other refl
        ];
        keeps = Keeps-refl t fl v;
      })
  | TakeOutcome.taken o rights named e removed ↦
      let same : (HandleTable.close t h).1 ≡ (HandleTable.take t h).1 =
        rw (e, HandleTable.close) refl in
      subst (Dropped t fl (h ∷ [])) (sym same) (record {
        effect = λ j.
            removed.effect j
            ∙ elim (Bool-cases (id_eq h j)) [ inl this ↦ rw this refl | inr other ↦ rw other refl ];
        keeps = removed.keeps;
      })
]

pub release_handles-Dropped :
    (t : HandleTable) (fl : List ℕ) (hs : List HandleId)
    → Inv t fl
    → Dropped t fl hs (release_handles t hs)
unfolding release_handles
release_handles-Dropped t fl [] v = record { effect = λ j. refl; keeps = Keeps-refl t fl v }
release_handles-Dropped t fl (h ∷ hs) v =
    let first = close_one t fl h v in
    let rest =
      release_handles-Dropped (HandleTable.close t h).1 first.keeps.list hs first.keeps.inv in
    record {
      effect = λ j. rest.effect j ∙ elim (Bool-cases (is_among hs j)) [
        | inl named ↦ elim (Bool-cases (id_eq h j)) [
          | inl this ↦ rw (named, this) refl
          | inr other ↦ rw (other, named) refl
        ]
        | inr free ↦ rw free (first.effect j)
      ];
      keeps = record {
        list = rest.keeps.list;
        inv = rest.keeps.inv;
        stale = λ id k. rest.keeps.stale id (first.keeps.stale id k);
      };
    }

module _ (pair_of : Object → ℕ) (pair : ℕ) (t : HandleTable) where
  -- What `carries_endpoint` finds of the first handle.
  first_handle :
      (h : HandleId) (hs : List HandleId)
      → ((carries_endpoint pair_of pair t (h ∷ hs) ≡ true) × IsEnd pair_of pair t h)
        ⊎ ((carries_endpoint pair_of pair t (h ∷ hs) ≡ carries_endpoint pair_of pair t hs)
            × (¬ IsEnd pair_of pair t h))
  unfolding carries_endpoint
  first_handle h hs = elim (lookup_cases t h) [
    | inl (absent, unnamed) ↦
        let e : HandleTable.verify t h 0 TypeIds.invalid ≡ err handle_invalid =
          verify-view t h 0 TypeIds.invalid ∙ ap (λ n. checked n 0 TypeIds.invalid) unnamed in
        inr (rw (e, carries_endpoint) refl, λ k. absurd (cc (k.named, unnamed)))
    | inr (entry, o, f) ↦
        let e : HandleTable.verify t h 0 TypeIds.invalid
            ≡ ok (record { object = some o; rights = entry.rights }) =
          verify-view t h 0 TypeIds.invalid
          ∙ ap (λ n. checked n 0 TypeIds.invalid) f.named
          ∙ rw (bit_and-nothing entry.rights) refl in
        elim (Bool-cases (o.type_id == TypeIds.channel && pair_of o == pair)) [
          | inl own ↦ inl (
            rw (e, carries_endpoint) (rw (own, carries_endpoint) refl),
            record {
              object = o;
              rights = entry.rights;
              named = f.named;
              channel = ground (arith, own);
              own = ground (arith, own);
            },
          )
          | inr other ↦ inr (
            rw (e, carries_endpoint) (rw (other, carries_endpoint) refl),
            λ k.
                let same : k.object ≡ o =
                  ap (λ (x : Object × ℕ). x.0) (some-injective _ _ (sym k.named ∙ f.named)) in
                let channel : o.type_id ≡ TypeIds.channel =
                  ap (λ (x : Object). x.type_id) (sym same) ∙ k.channel in
                let own : pair_of o ≡ pair = ap pair_of (sym same) ∙ k.own in
                ground (arith, other, channel, own),
          )
        ]
  ]

  -- `carries_endpoint` is true exactly when one of the handles names an end of the pair.
  pub carries_endpoint-Carries :
      (hs : List HandleId)
      → ((carries_endpoint pair_of pair t hs ≡ true) × Carries pair_of pair t hs)
        ⊎ ((carries_endpoint pair_of pair t hs ≡ false) × (¬ Carries pair_of pair t hs))
  unfolding carries_endpoint
  carries_endpoint-Carries [] = inr (refl, λ c. elim c [ ])
  carries_endpoint-Carries (h ∷ hs) = elim (first_handle h hs) [
    | inl (found, own) ↦ inl (found, Carries.here h hs own)
    | inr (same, other) ↦ elim (carries_endpoint-Carries hs) [
      | inl (found, later) ↦ inl (same ∙ found, Carries.there h hs later)
      | inr (missed, never) ↦ inr (same ∙ missed, λ c. not_first h hs other never c)
    ]
  ]
    where
      not_first :
          (h : HandleId) (hs : List HandleId)
          → (¬ IsEnd pair_of pair t h)
          → (¬ Carries pair_of pair t hs)
          → ¬ Carries pair_of pair t (h ∷ hs)
      not_first h hs other never (Carries.here _ _ own) = other own
      not_first h hs other never (Carries.there _ _ later) = never later
