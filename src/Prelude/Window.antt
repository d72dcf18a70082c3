-- ===== src/Prelude/Window.antt =====
-- Rings: `n` entries of an array from index `h` on, going round at `size`; and block copies.
use native.Mathlib.Nat.{mod-add-mod, mod-eq_of_lt}
use archipelago.Prelude.{
  ℕ, zero, suc, ◌+◌, ◌-◌, ◌%◌, ◌≤◌, ◌<◌, ◌≡◌, refl, ap, ◌∙◌, sym, List, [], ◌∷◌, ◌++◌, arith,
  length, set, take, drop, if◌then◌else◌, leb, ltb, ◌&&◌, length-append, length-take, length-drop,
  Bool-cases, inl, inr,
}

abbrev pub get_or {ℓ} : {A : Type ℓ} → List A → ℕ → A → A
get_or [] i d = d
get_or (x ∷ xs) zero d = x
get_or (x ∷ xs) (suc i) d = get_or xs i d

module _ {ℓ} {A : Type ℓ} where
  -- Lists of one length that agree at each index are equal.
  pub list_ext :
      (xs ys : List A) (d : A)
      → length xs ≡ length ys
      → ((i : ℕ) → i < length xs → get_or xs i d ≡ get_or ys i d)
      → xs ≡ ys
  list_ext [] [] d l h = refl
  list_ext [] (y ∷ ys) d l h = absurd (omega arith)
  list_ext (x ∷ xs) [] d l h = absurd (omega arith)
  list_ext (x ∷ xs) (y ∷ ys) d l h =
      let head : x ≡ y = h 0 (omega arith) in
      let tail = list_ext xs ys d (omega arith) (λ i lt. h (suc i) (omega arith)) in cc

  pub get_or-append :
      (xs ys : List A) (i : ℕ) (d : A)
      → get_or (xs ++ ys) i d
        ≡ (if ltb i (length xs) then get_or xs i d else get_or ys (i - length xs) d)
  get_or-append [] ys i d = ap (λ k. get_or ys k d) {y = i - 0} (omega arith) ∙ ground arith
  get_or-append (x ∷ xs) ys zero d = ground arith
  get_or-append (x ∷ xs) ys (suc i) d =
      let e : i - length xs ≡ suc i - suc (length xs) = omega arith in
      ground (arith, get_or-append xs ys i d, ap (λ k. get_or ys k d) e)

  pub get_or-take :
      (n : ℕ) (xs : List A) (i : ℕ) (d : A) → i < n → get_or (take n xs) i d ≡ get_or xs i d
  get_or-take zero xs i d h = absurd (omega arith)
  get_or-take (suc n) [] i d h = refl
  get_or-take (suc n) (x ∷ xs) zero d h = refl
  get_or-take (suc n) (x ∷ xs) (suc i) d h = get_or-take n xs i d (omega arith)

  pub get_or-drop :
      (n : ℕ) (xs : List A) (i : ℕ) (d : A) → get_or (drop n xs) i d ≡ get_or xs (n + i) d
  get_or-drop zero xs i d = ap (λ k. get_or xs k d) (omega arith)
  get_or-drop (suc n) [] i d = refl
  get_or-drop (suc n) (x ∷ xs) i d =
      get_or-drop n xs i d ∙ ap (λ k. get_or (x ∷ xs) k d) {x = suc (n + i)} (omega arith)

  pub get_or-set :
      (xs : List A) (i j : ℕ) (v d : A)
      → i < length xs
      → get_or (set xs i v) j d ≡ (if leb i j && leb j i then v else get_or xs j d)
  get_or-set [] i j v d h = elim h [ ]
  get_or-set (x ∷ xs) zero zero v d h = refl
  get_or-set (x ∷ xs) zero (suc j) v d h = ground arith
  get_or-set (x ∷ xs) (suc i) zero v d h = ground arith
  get_or-set (x ∷ xs) (suc i) (suc j) v d h = ground (arith, get_or-set xs i j v d)

  -- The entries of a ring.
  abbrev pub window : List A → ℕ → A → ℕ → ℕ → List A
  window page size d h zero = []
  window page size d h (suc n) = get_or page h d ∷ window page size d ((h + 1) % size) n

  pub length-window :
      (page : List A) (size : ℕ) (d : A) (h n : ℕ) → length (window page size d h n) ≡ n
  length-window page size d h zero = refl
  length-window page size d h (suc n) = ap suc (length-window page size d ((h + 1) % size) n)

  pub get_or-window :
      (page : List A) (size : ℕ) (d : A) (h n i : ℕ)
      → h < size
      → i < n
      → get_or (window page size d h n) i d ≡ get_or page ((h + i) % size) d
  get_or-window page size d h zero i hc hi = absurd (omega arith)
  get_or-window page size d h (suc n) zero hc hi =
      let e : h ≡ (h + 0) % size =
        sym (mod-eq_of_lt {n = h + 0} {m = size} (omega arith) ∙ omega arith) in
      ap (λ k. get_or page k d) e
  get_or-window page size d h (suc n) (suc i) hc hi =
      let e : h + 1 + i ≡ h + suc i = omega arith in
      get_or-window page size d ((h + 1) % size) n i (omega arith) (omega arith)
      ∙ ap (λ k. get_or page k d) (mod-add-mod (h + 1) size i ∙ ap (λ k. k % size) e)

-- `memcpy(page + off, src, length src)`, inside the page.
unfoldable pub memcpy : List ℕ → ℕ → List ℕ → List ℕ
memcpy page off src = take off page ++ (src ++ drop (off + length src) page)

pub length-memcpy :
    (page src : List ℕ) (off : ℕ)
    → off + length src ≤ length page
    → length (memcpy page off src) ≡ length page
unfolding memcpy
length-memcpy page src off h = omega (
  arith,
  length-append (take off page) (src ++ drop (off + length src) page),
  length-append src (drop (off + length src) page),
  length-take off page,
  length-drop (off + length src) page,
)

pub get_or-memcpy :
    (page src : List ℕ) (off j d : ℕ)
    → off + length src ≤ length page
    → get_or (memcpy page off src) j d
      ≡ (if leb off j && ltb j (off + length src) then get_or src (j - off) d else get_or page j d)
unfolding memcpy
get_or-memcpy page src off j d h =
    let l : length (take off page) ≡ off = omega (arith, length-take off page) in
    get_or-append (take off page) (src ++ drop (off + length src) page) j d
    ∙ rw l (elim (Bool-cases (ltb j off)) [
      | inl before ↦ ground (arith, get_or-take off page j d)
      | inr after ↦ elim (Bool-cases (ltb (j - off) (length src))) [
        | inl inside ↦ ground (arith, get_or-append src (drop (off + length src) page) (j - off) d)
        | inr past ↦
            let e : off + length src + (j - off - length src) ≡ j = ground arith in
            ground (
              arith,
              get_or-append src (drop (off + length src) page) (j - off) d,
              get_or-drop (off + length src) page (j - off - length src) d,
              ap (λ k. get_or page k d) e,
            )
      ]
    ])
