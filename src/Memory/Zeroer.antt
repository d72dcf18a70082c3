-- ===== src/Memory/Zeroer.antt =====
-- The thread of core/boot.cpp that clears free pages in the background: a batch of calls of
-- `zero_one_page` at every wake-up.
use archipelago.Prelude.{
  ℕ, zero, suc, ◌+◌, ◌*◌, ◌≤◌, ◌≡◌, refl, sym, ◌∙◌, subst, arith, not, List, ◌++◌, if◌then◌else◌,
  min, length-append,
}
use archipelago.Memory.Pmm.{Pmm, zeroed_pages, zero_one_page}
use archipelago.Memory.Pmm.Invariant.{region_frames, Inv}
use archipelago.Memory.Pmm.Growth.{zero_sum-le}
use archipelago.Memory.Pmm.Zero.{Zeroed, zero_one_page-Zeroed}

abbrev pub batch_pages : ℕ
batch_pages = 16

-- The `for` loop, with `i` calls left.
unfoldable pub zero_batch : ℕ → Pmm → Pmm
zero_batch zero p = p
zero_batch (suc i) p =
    let (more, p') = zero_one_page p in let rest = zero_batch i p' in if not more then p' else rest

-- The first `k` turns of the `while` loop.
unfoldable pub zeroer_thread_main : ℕ → Pmm → Pmm
zeroer_thread_main zero p = p
zeroer_thread_main (suc k) p = zeroer_thread_main k (zero_batch batch_pages p)

zeroed-le : (p : Pmm) (zs ds : List ℕ) → Inv p zs ds → zeroed_pages p ≤ p.free_pages
unfolding zeroed_pages
zeroed-le p zs ds v = omega (
  arith,
  zero_sum-le p.memory p.regions v.shape.tails,
  v.counted,
  v.shape.summed,
  v.shape.zeroed.counted,
  length-append zs (ds ++ region_frames p.regions),
  length-append ds (region_frames p.regions),
)

-- What up to `n` calls of `zero_one_page` did.
pub record Cleared (p : Pmm) (n : ℕ) (out : Pmm) : Type 0 where
  pub zs : List ℕ
  pub ds : List ℕ
  pub inv : Inv out zs ds
  pub kept : out.free_pages ≡ p.free_pages
  pub zeroed : zeroed_pages out ≡ min (zeroed_pages p + n) p.free_pages

zero_batch-step :
    (i : ℕ) (p : Pmm) (zs ds : List ℕ)
    → Inv p zs ds
    → ((q : Pmm) (zs' ds' : List ℕ) → Inv q zs' ds' → Cleared q i (zero_batch i q))
    → Zeroed p zs ds (zero_one_page p)
    → Cleared p (suc i) (zero_batch (suc i) p)
unfolding zero_batch
zero_batch-step i p zs ds v rest (Zeroed.all_zero e z) =
    let stop : zero_batch (suc i) p ≡ p = rw (e, zero_batch) refl in
    subst (Cleared p (suc i)) (sym stop)
      (record { zs = zs; ds = ds; inv = v; kept = refl; zeroed = ground (arith, z) })
zero_batch-step i p zs ds v rest (Zeroed.one p' zs' ds' e z k v') =
    let c = rest p' zs' ds' v' in
    let go : zero_batch (suc i) p ≡ zero_batch i p' = rw (e, zero_batch) refl in
    subst (Cleared p (suc i)) (sym go) (record {
      zs = c.zs;
      ds = c.ds;
      inv = c.inv;
      kept = c.kept ∙ k;
      zeroed = ground (arith, c.zeroed, z, k, zeroed-le p' zs' ds' v');
    })

pub zero_batch-Cleared :
    (i : ℕ) (p : Pmm) (zs ds : List ℕ) → Inv p zs ds → Cleared p i (zero_batch i p)
unfolding zero_batch
zero_batch-Cleared zero p zs ds v = record {
  zs = zs;
  ds = ds;
  inv = v;
  kept = refl;
  zeroed = ground (arith, zeroed-le p zs ds v);
}
zero_batch-Cleared (suc i) p zs ds v =
    zero_batch-step i p zs ds v (zero_batch-Cleared i) (zero_one_page-Zeroed p zs ds v)

-- After `k` wake-ups of the clearing thread, an allocator in order is in order, has as many free pages, and 16 · `k` more of
-- them are zero, or all of them are.
pub zeroer_thread_main-Cleared :
    (k : ℕ) (p : Pmm) (zs ds : List ℕ)
    → Inv p zs ds
    → Cleared p (k * batch_pages) (zeroer_thread_main k p)
unfolding zeroer_thread_main
zeroer_thread_main-Cleared zero p zs ds v = record {
  zs = zs;
  ds = ds;
  inv = v;
  kept = refl;
  zeroed = ground (arith, zeroed-le p zs ds v);
}
zeroer_thread_main-Cleared (suc k) p zs ds v =
    let b = zero_batch-Cleared batch_pages p zs ds v in
    let c = zeroer_thread_main-Cleared k (zero_batch batch_pages p) b.zs b.ds b.inv in
    record {
      zs = c.zs;
      ds = c.ds;
      inv = c.inv;
      kept = c.kept ∙ b.kept;
      zeroed = ground (arith, c.zeroed, b.zeroed, b.kept);
    }
