-- ===== src/HandleTable/Grow.antt =====
-- `HandleTable::grow`: the table gains dead slots, which the free list then visits in ascending order.
use archipelago.Prelude.{
  ◌-◌, ℕ, zero, suc, ◌+◌, ◌≤◌, ◌<◌, ◌≡◌, refl, sym, ap, ◌∙◌, ◌⊎◌, inl, inr, Bool, true, Option,
  none, some, List, [], ◌∷◌, ◌++◌, arith, append-nil, append_assoc, subst, Bool-cases, length,
  get_elem?, replicate, get_elem?_of_le, Result, ok, err,
}
use archipelago.Prelude.Errc.{oom}
use archipelago.HandleTable.{
  HandleEntry, HandleTable, fresh_entry, grow_batch, grow_push, chain_slot, grow_chain, grow,
}
use archipelago.HandleTable.FreeList.{Chain, live, Chain-append, Chain-NotIn_of_none, live-append}
use archipelago.Prelude.{NotIn, Distinct}
use archipelago.Prelude.{All-append, All}
use archipelago.HandleTable.Invariant.{
  IsSound, Inv, contents, contents-append, contents-fresh, live-contents, IsSound-contents,
  contents-IsSound, get-contents, get_of_contents, chain_slot-Chained,
}

-- The slots `old .. old + n`, in front of `fl`.
unfoldable pub batch : ℕ → ℕ → List ℕ → List ℕ
batch old zero fl = fl
batch old (suc n) fl = batch old n ((old + n) ∷ fl)

pub NotIn-batch : (old n i : ℕ) (fl : List ℕ) → i < old → NotIn i fl → NotIn i (batch old n fl)
unfolding batch
NotIn-batch old zero i fl h a = a
NotIn-batch old (suc n) i fl h a =
    NotIn-batch old n i ((old + n) ∷ fl) h (λ p. absurd (omega arith), a)

-- The first of the new slots comes first.
pub batch-cons : (old n : ℕ) (fl : List ℕ) → batch old (suc n) fl ≡ old ∷ batch (suc old) n fl
unfolding batch
batch-cons old zero fl = ap (λ k. k ∷ fl) {x = old + 0} (omega arith)
batch-cons old (suc n) fl =
    batch-cons old n ((old + suc n) ∷ fl)
    ∙ ap (λ k. old ∷ batch (suc old) n (k ∷ fl)) {x = old + suc n} {y = suc old + n} (omega arith)

-- A slot of the array that holds no object.
abbrev Dead : List HandleEntry → ℕ → Type 0
Dead cs i = (c : HandleEntry) × (get_elem? cs i ≡ some c) × (c.object ≡ none)

record Batch (old n : ℕ) (es : List HandleEntry) (fl : List ℕ) (out : List HandleEntry × Option ℕ)
    : Type 0 where
  chain : Chain out.0 out.1 (batch old n fl)
  distinct : Distinct (batch old n fl)
  same : contents out.0 ≡ contents es

grow_chain-Batch :
    (old n : ℕ) (es : List HandleEntry) (head : Option ℕ) (fl : List ℕ)
    → ((i : ℕ) → old ≤ i → i < old + n → Dead (contents es) i)
    → ((i : ℕ) → old ≤ i → i < old + n → NotIn i fl)
    → Chain es head fl
    → Distinct fl
    → Batch old n es fl (grow_chain old n es head)
unfolding grow_chain batch
grow_chain-Batch old zero es head fl dead new c d = record { chain = c; distinct = d; same = refl }
grow_chain-Batch old (suc n) es head fl dead new c d =
    let dead_top : Dead (contents es) (old + n) = dead (old + n) (omega arith) (omega arith) in
    let top : NotIn (old + n) fl = new (old + n) (omega arith) (omega arith) in
    let dead_rest : (i : ℕ) → old ≤ i → i < old + n → Dead (contents es) i =
      λ i lo hi. dead i lo (omega arith) in
    let new_rest : (i : ℕ) → old ≤ i → i < old + n → NotIn i ((old + n) ∷ fl) =
      λ i lo hi. (λ p. absurd (omega arith), new i lo (omega arith)) in
    let (e, g, f) = get_of_contents es (old + n) dead_top.1 in
    let step =
      chain_slot-Chained es head fl (old + n) e g (ap (λ x. x.object) f ∙ dead_top.2) top c in
    let rest =
      grow_chain-Batch old n (chain_slot (old + n) es head).0 (chain_slot (old + n) es head).1
        ((old + n) ∷ fl) (λ i lo hi. subst (λ cs. Dead cs i) (sym step.same) (dead_rest i lo hi))
        new_rest step.chain (top, d) in
    record { chain = rest.chain; distinct = rest.distinct; same = rest.same ∙ step.same }

-- What the pushes leave: the old entries and some fresh ones, all of them if no push failed.
grow_push_lem :
    (room : ℕ → Bool) (n : ℕ) (es : List HandleEntry)
    → (k : ℕ) × ((grow_push room n es).1 ≡ es ++ replicate k fresh_entry)
      × ((grow_push room n es).0 ≡ true → k ≡ n)
unfolding grow_push
grow_push_lem room zero es = (0, sym (append-nil es), λ _. refl)
grow_push_lem room (suc n) es = elim (Bool-cases (room (length es))) [
  | inl more ↦
      let (k, e, f) = grow_push_lem room n (es ++ fresh_entry ∷ []) in
      rw more
        (suc k, e ∙ append_assoc es (fresh_entry ∷ []) (replicate k fresh_entry), λ p. ap suc (f p))
  | inr stop ↦ rw stop (0, sym (append-nil es), λ p. absurd (cc))
]

get-replicate : (k i : ℕ) → i < k → get_elem? (replicate k fresh_entry) i ≡ some fresh_entry
get-replicate zero i h = elim h [ ]
get-replicate (suc k) zero h = refl
get-replicate (suc k) (suc i) h = get-replicate k i (omega arith)

get-append :
    (es fs : List HandleEntry) (i : ℕ) {e : HandleEntry}
    → length es ≤ i
    → get_elem? fs (i - length es) ≡ some e
    → get_elem? (es ++ fs) i ≡ some e
get-append [] fs i h g = ap (get_elem? fs) {x = i} {y = i - 0} (omega arith) ∙ g
get-append (x ∷ es) fs zero h g = absurd (omega arith)
get-append (x ∷ es) fs (suc i) h g =
    get-append es fs i (omega arith)
      (ap (get_elem? fs) {x = i - length es} {y = suc i - suc (length es)} (omega arith) ∙ g)

-- The fresh slots are dead.
fresh-Dead :
    (es : List HandleEntry) (k i : ℕ)
    → length es ≤ i
    → i < length es + k
    → Dead (contents (es ++ replicate k fresh_entry)) i
fresh-Dead es k i lo hi = (
  fresh_entry,
  get-contents _ i (get-append es (replicate k fresh_entry) i lo (get-replicate k _ (omega arith))),
  refl,
)

live-fresh : (k : ℕ) → live (replicate k fresh_entry) ≡ 0
live-fresh zero = refl
live-fresh (suc k) = live-fresh k

fresh-IsSound : (k : ℕ) → All IsSound (replicate k fresh_entry)
fresh-IsSound zero = tt
fresh-IsSound (suc k) = ((refl, omega arith), fresh-IsSound k)

-- Equal but for links, equal in what the invariant says of the entries.
pub IsSound-of_same :
    (es fs : List HandleEntry) → contents fs ≡ contents es → All IsSound es → All IsSound fs
IsSound-of_same es fs c a =
    contents-IsSound fs (subst (All IsSound) (sym c) (IsSound-contents es a))

pub live_of_same : (es fs : List HandleEntry) → contents fs ≡ contents es → live fs ≡ live es
live_of_same es fs c = sym (live-contents fs) ∙ ap live c ∙ live-contents es

-- After `grow`: the entries are the old ones and some fresh ones, but for links; the new slots
-- stand in front of the free list in ascending order, or the heap ran out and the list is as it was.
pub record Grown (t : HandleTable) (fl : List ℕ) (out : Result ℕ × HandleTable) : Type 0 where
  pub list : List ℕ
  pub inv : Inv out.1 list
  pub added : ℕ
  pub same : contents out.1.entries ≡ contents t.entries ++ replicate added fresh_entry
  pub outcome :
      ((out.0 ≡ ok 0) × (added ≡ grow_batch) × (list ≡ batch (length t.entries) added fl))
      ⊎ ((out.0 ≡ err oom) × (list ≡ fl))

pub NotIn_above :
    (es : List HandleEntry) (head : Option ℕ) (fl : List ℕ) (i : ℕ)
    → Chain es head fl
    → length es ≤ i
    → NotIn i fl
NotIn_above es head fl i c h = Chain-NotIn_of_none es head fl i c (get_elem?_of_le es i h)

abbrev chained : ℕ → HandleTable → HandleTable
chained n t =
    let es = t.entries ++ replicate n fresh_entry in
    let out = grow_chain (length t.entries) n es t.free_head in
    record t { entries = out.0; free_head = out.1 }

module _ (n : ℕ) (t : HandleTable) (fl : List ℕ) (v : Inv t fl) where
  pushed-contents :
      contents (t.entries ++ replicate n fresh_entry)
      ≡ contents t.entries ++ replicate n fresh_entry
  pushed-contents =
      contents-append t.entries (replicate n fresh_entry)
      ∙ ap (λ r. contents t.entries ++ r) (contents-fresh n)

  pushed-Inv : Inv (record t { entries = t.entries ++ replicate n fresh_entry }) fl
  pushed-Inv = record {
    chain = Chain-append t.entries (replicate n fresh_entry) t.free_head fl v.chain;
    distinct = v.distinct;
    counted =
        omega (arith, v.counted, live-append t.entries (replicate n fresh_entry), live-fresh n);
    sound = All-append IsSound t.entries (replicate n fresh_entry) v.sound (fresh-IsSound n);
  }

  chained-Batch :
      Batch
        (length t.entries)
        n
        (t.entries ++ replicate n fresh_entry)
        fl
        (grow_chain (length t.entries) n (t.entries ++ replicate n fresh_entry) t.free_head)
  chained-Batch =
      grow_chain-Batch (length t.entries) n (t.entries ++ replicate n fresh_entry) t.free_head fl
        (λ i lo hi. fresh-Dead t.entries n i lo hi)
        (λ i lo hi. NotIn_above t.entries t.free_head fl i v.chain lo) (pushed-Inv).chain v.distinct

  chained-Inv : Inv (chained n t) (batch (length t.entries) n fl)
  chained-Inv = record {
    chain = (chained-Batch).chain;
    distinct = (chained-Batch).distinct;
    counted =
        pushed-Inv.counted
        ∙ sym (live_of_same (t.entries ++ replicate n fresh_entry) _ chained-Batch.same);
    sound =
        IsSound-of_same (t.entries ++ replicate n fresh_entry) _ chained-Batch.same
          pushed-Inv.sound;
  }

  chained-Grown : n ≡ grow_batch → Grown t fl (ok 0, chained n t)
  chained-Grown full = record {
    list = batch (length t.entries) n fl;
    inv = chained-Inv;
    added = n;
    same = chained-Batch.same ∙ pushed-contents;
    outcome = inl (refl, full, refl);
  }

-- Growing a table in order keeps the invariant, whether or not the heap has room.
pub grow-Grown :
    (room : ℕ → Bool) (t : HandleTable) (fl : List ℕ) → Inv t fl → Grown t fl (grow room t)
unfolding grow
grow-Grown room t fl v =
    let (k, e, full) = grow_push_lem room grow_batch t.entries in
    elim (Bool-cases (grow_push room grow_batch t.entries).0) [
      | inr stop ↦
          rw (stop, e)
            (record {
              list = fl;
              inv = pushed-Inv k t fl v;
              added = k;
              same = pushed-contents k t fl v;
              outcome = inr (refl, refl);
            })
      | inl done ↦ rw (done, e, full done) (chained-Grown grow_batch t fl v refl)
    ]
