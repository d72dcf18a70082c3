-- ===== src/Socket/Ring.antt =====
-- The byte ring of a socket: `fill` appends to its contents, and `drained` is their front.
use archipelago.Prelude.{
  ℕ, ◌+◌, ◌-◌, ◌%◌, ◌≤◌, ◌<◌, ◌≡◌, sym, ap, ◌∙◌, arith, List, ◌++◌, ltb, leb, if◌then◌else◌, length,
  take, drop, Bool-cases, ◌⊎◌, inl, inr, ltb→lt, length-append, length-take, length-drop, ◌&&◌,
}
use archipelago.Prelude.Window.{
  get_or, memcpy, window, length-window, get_or-window, list_ext, get_or-append, get_or-take,
  get_or-drop, length-memcpy, get_or-memcpy,
}
use archipelago.Socket.{ByteRing, fill, drained}

-- The ring stays inside its page.
pub record IsRing (r : ByteRing) : Type 0 where
  pub whole : length r.page ≡ 4096
  pub head_in : r.head < 4096
  pub count_in : r.count ≤ 4096

-- The buffered bytes, oldest first.
abbrev pub contents : ByteRing → List ℕ
contents r = window r.page 4096 0 r.head r.count

pub length-contents : (r : ByteRing) → length (contents r) ≡ r.count
length-contents r = length-window r.page 4096 0 r.head r.count

-- Where index `i` of the ring lies, when `run` of `n` new bytes follow the `count` old ones before
-- the edge of the page and the rest come after it.
module _ (head count n run i : ℕ) (hh : head < 4096) (hn : count + n ≤ 4096) (hr : run ≤ n)
    (edge : (head + count) % 4096 + run ≤ 4096)
    (wraps : (run ≡ n) ⊎ ((head + count) % 4096 + run ≡ 4096)) where
  old_index :
      i < count
      → (n - run ≤ (head + i) % 4096)
        × ((head + count) % 4096 ≤ (head + i) % 4096
            → (head + count) % 4096 + run ≤ (head + i) % 4096)
  old_index h = omega arith

  front_index :
      count ≤ i
      → i < count + run
      → ((head + i) % 4096 ≡ (head + count) % 4096 + (i - count)) × (n - run ≤ (head + i) % 4096)
  front_index lo hi = omega arith

  back_index :
      count + run ≤ i
      → i < count + n
      → ((head + i) % 4096 < n - run) × (run + (head + i) % 4096 ≡ i - count)
  back_index lo hi = omega arith

module _ (r : ByteRing) (v : IsRing r) (src : List ℕ) (n : ℕ) (enough : n ≤ length src)
    (room : n ≤ 4096 - r.count) where
  abbrev tail : ℕ
  tail = (r.head + r.count) % 4096

  abbrev run : ℕ
  run = if ltb n (4096 - tail) then n else 4096 - tail

  run_bounds :
      (run ≤ n) × (tail + run ≤ 4096) × (n - run ≤ tail) × ((run ≡ n) ⊎ (tail + run ≡ 4096))
  run_bounds = ground (arith, v.count_in)

  fits : r.count + n ≤ 4096
  fits = omega (arith, v.count_in)

  abbrev front : List ℕ
  front = take run src

  abbrev back : List ℕ
  back = take (n - run) (drop run src)

  length-front : length front ≡ run
  length-front = omega (arith, length-take run src, run_bounds)

  length-back : length back ≡ n - run
  length-back = omega (arith, length-take (n - run) (drop run src), length-drop run src, run_bounds)

  first_fits : tail + length front ≤ length r.page
  first_fits = omega (arith, length-front, run_bounds, v.whole)

  length-first : length (memcpy r.page tail front) ≡ 4096
  length-first = length-memcpy r.page front tail first_fits ∙ v.whole

  second_fits : 0 + length back ≤ length (memcpy r.page tail front)
  second_fits = omega (arith, length-back, length-first, run_bounds)

  pub fill-IsRing : IsRing (fill r src n)
  unfolding fill
  fill-IsRing = record {
    whole = length-memcpy (memcpy r.page tail front) back 0 second_fits ∙ length-first;
    head_in = v.head_in;
    count_in = omega (arith, v.count_in);
  }

  -- The page after both runs.
  page_at :
      (j : ℕ)
      → get_or (memcpy (memcpy r.page tail front) 0 back) j 0 ≡ (
          if ltb j (n - run)
          then get_or src (run + j) 0
          else if leb tail j && ltb j (tail + run)
          then get_or src (j - tail) 0
          else get_or r.page j 0)
  page_at j =
      let e : j - 0 ≡ j = omega arith in
      get_or-memcpy (memcpy r.page tail front) back 0 j 0 second_fits
      ∙ rw (length-back, e)
          (elim (Bool-cases (ltb j (n - run))) [
            | inl inside ↦
                ground (arith, get_or-take (n - run) (drop run src) j 0, get_or-drop run src j 0)
            | inr past ↦ ground (
              arith,
              get_or-memcpy r.page front tail j 0 first_fits,
              length-front,
              get_or-take run src (j - tail) 0,
            )
          ])

  -- The bytes after `fill`, at an index of the ring.
  fill_at :
      (i : ℕ)
      → i < r.count + n
      → get_or (fill r src n).page ((r.head + i) % 4096) 0 ≡ (
          if ltb i r.count
          then get_or r.page ((r.head + i) % 4096) 0
          else get_or src (i - r.count) 0)
  unfolding fill
  fill_at i h = page_at ((r.head + i) % 4096) ∙ elim (Bool-cases (ltb i r.count)) [
    | inl old ↦
        let k =
          old_index r.head r.count n run i v.head_in fits run_bounds.0 run_bounds.1 run_bounds.3
            (ltb→lt i r.count old) in
        ground (arith, k)
    | inr new ↦ elim (Bool-cases (ltb i (r.count + run))) [
      | inl front_byte ↦
          let k =
            front_index r.head r.count n run i v.head_in fits run_bounds.0 run_bounds.1 run_bounds.3
              (ground arith) (ltb→lt i (r.count + run) front_byte) in
          let e : (r.head + i) % 4096 - tail ≡ i - r.count = omega (arith, k) in
          ground (arith, k, ap (λ t. get_or src t 0) e)
      | inr back_byte ↦
          let k =
            back_index r.head r.count n run i v.head_in fits run_bounds.0 run_bounds.1 run_bounds.3
              (ground arith) h in
          ground (arith, k, ap (λ t. get_or src t 0) k.1)
    ]
  ]

  -- `fill` appends the first `n` bytes of the source.
  pub contents-fill : contents (fill r src n) ≡ contents r ++ take n src
  unfolding fill
  contents-fill =
      list_ext (contents (fill r src n)) (contents r ++ take n src) 0
        (omega (
          arith,
          length-contents r,
          length-contents (fill r src n),
          length-append (contents r) (take n src),
          length-take n src,
        ))
        (λ i h. byte i (omega (arith, length-contents (fill r src n))))
    where
      byte :
          (i : ℕ)
          → i < r.count + n
          → get_or (contents (fill r src n)) i 0 ≡ get_or (contents r ++ take n src) i 0
      byte i h =
          get_or-window (fill r src n).page 4096 0 r.head (r.count + n) i v.head_in h
          ∙ fill_at i h
          ∙ elim (Bool-cases (ltb i r.count)) [
            | inl old ↦ ground (
              arith,
              length-contents r,
              get_or-append (contents r) (take n src) i 0,
              get_or-window r.page 4096 0 r.head r.count i v.head_in (ltb→lt i r.count old),
            )
            | inr new ↦ ground (
              arith,
              length-contents r,
              get_or-append (contents r) (take n src) i 0,
              get_or-take n src (i - r.count) 0,
            )
          ]

module _ (r : ByteRing) (v : IsRing r) (n : ℕ) (enough : n ≤ r.count) where
  abbrev left : ℕ
  left = if ltb n (4096 - r.head) then n else 4096 - r.head

  left_bounds : (left ≤ n) × (r.head + left ≤ 4096) × ((left ≡ n) ⊎ (r.head + left ≡ 4096))
  left_bounds = ground (arith, v.head_in)

  length-drained : length (drained r n) ≡ n
  unfolding drained
  length-drained = omega (
    arith,
    length-append (take left (drop r.head r.page)) (take (n - left) r.page),
    length-take left (drop r.head r.page),
    length-drop r.head r.page,
    length-take (n - left) r.page,
    left_bounds,
    v.whole,
    v.count_in,
  )

  length-left : length (take left (drop r.head r.page)) ≡ left
  length-left = omega (
    arith,
    length-take left (drop r.head r.page),
    length-drop r.head r.page,
    left_bounds,
    v.whole,
  )

  drained_at : (i : ℕ) → i < n → get_or (drained r n) i 0 ≡ get_or r.page ((r.head + i) % 4096) 0
  unfolding drained
  drained_at i h = elim (Bool-cases (ltb i left)) [
    | inl before ↦
        let e : r.head + i ≡ (r.head + i) % 4096 =
          omega (arith, ltb→lt i left before, left_bounds, v.head_in) in
        ground (
          arith,
          length-left,
          get_or-append (take left (drop r.head r.page)) (take (n - left) r.page) i 0,
          get_or-take left (drop r.head r.page) i 0,
          get_or-drop r.head r.page i 0,
          ap (λ t. get_or r.page t 0) e,
        )
    | inr after ↦
        let past : left ≤ i = ground arith in
        let e : i - left ≡ (r.head + i) % 4096 =
          omega (arith, left_bounds, v.head_in, v.count_in) in
        ground (
          arith,
          length-left,
          get_or-append (take left (drop r.head r.page)) (take (n - left) r.page) i 0,
          get_or-take (n - left) r.page (i - left) 0,
          ap (λ t. get_or r.page t 0) e,
        )
  ]

  -- `drained` is the front of the contents.
  pub drained-take : drained r n ≡ take n (contents r)
  drained-take =
      list_ext (drained r n) (take n (contents r)) 0
        (omega (arith, length-drained, length-take n (contents r), length-contents r))
        (λ i h. byte i (omega (arith, length-drained)))
    where
      byte : (i : ℕ) → i < n → get_or (drained r n) i 0 ≡ get_or (take n (contents r)) i 0
      byte i h =
          drained_at i h
          ∙ sym (
              get_or-take n (contents r) i 0 h
              ∙ get_or-window r.page 4096 0 r.head r.count i v.head_in (omega arith))

abbrev pub advanced : ByteRing → ℕ → ByteRing
advanced r n = record r { head = (r.head + n) % 4096; count = r.count - n }

-- Reading moves the window past the bytes that were read.
pub contents-advanced :
    (r : ByteRing) (n : ℕ) → IsRing r → n ≤ r.count → contents (advanced r n) ≡ drop n (contents r)
contents-advanced r n v enough =
    list_ext (contents (advanced r n)) (drop n (contents r)) 0
      (omega (arith, length-contents (advanced r n), length-contents r, length-drop n (contents r)))
      (λ i h. byte i (omega (arith, length-contents (advanced r n))))
  where
    byte :
        (i : ℕ)
        → i < r.count - n
        → get_or (contents (advanced r n)) i 0 ≡ get_or (drop n (contents r)) i 0
    byte i h =
        let e : ((r.head + n) % 4096 + i) % 4096 ≡ (r.head + (n + i)) % 4096 = omega arith in
        get_or-window r.page 4096 0 ((r.head + n) % 4096) (r.count - n) i (omega arith) h
        ∙ ap (λ t. get_or r.page t 0) e
        ∙ sym (
            get_or-drop n (contents r) i 0
            ∙ get_or-window r.page 4096 0 r.head r.count (n + i) v.head_in (omega arith))

pub advanced-IsRing : (r : ByteRing) (n : ℕ) → IsRing r → IsRing (advanced r n)
advanced-IsRing r n v = record {
  whole = v.whole;
  head_in = omega arith;
  count_in = omega (arith, v.count_in);
}
