-- ===== src/Elf/Loadable.antt =====
-- What an accepted image is.
use archipelago.Prelude.{
  ℕ, zero, suc, ◌+◌, ◌-◌, ◌*◌, ◌/◌, ◌%◌, ◌<◌, ◌≤◌, ◌^◌, ◌≡◌, ◌≢◌, ◌⊎◌, refl, arith, Bool, true,
  false, not, ◌&&◌, ◌||◌, none, some, List, [], ◌∷◌, ◌++◌, leb, ltb, ◌==◌, if◌then◌else◌,
  Option-cases, Bool-cases, inl, inr, length, length-append, bit_and, All, All-append, subst, drop,
}
use archipelago.Elf.{
  ElfError, Header, ProgramHeader, Segment, Image, Parsed, accepted, rejected, undefined, Step,
  go_on, stop, field, mapped_bytes, extent_wraps, check_segment, segment_of, entry_covered,
  max_image_bytes, max_segments, program_header, take_header, finish, parse_headers, parse_image,
  header_of, region_in_bounds,
}
use archipelago.Elf.Bounds.{resume}

-- The whole pages that hold `size` bytes.
abbrev pub pages : ℕ → ℕ
pages size = (size + 4095) / 4096 * 4096

pub record IsSegment (size : ℕ) (s : Segment) : Type 0 where
  pub write_xor_execute : (bit_and s.flags 2 ≡ 0) ⊎ (bit_and s.flags 1 ≡ 0)
  pub aligned : s.vaddr % 4096 ≡ 0
  pub not_empty : 0 < s.memsz
  pub filled : s.filesz ≤ s.memsz
  pub in_file : s.file_offset + s.filesz ≤ size
  pub in_memory : s.vaddr + pages s.memsz < 2 ^ 64

-- The memory that segments take, in bytes.
abbrev pub extent : List Segment → ℕ
extent [] = 0
extent (s ∷ segs) = pages s.memsz + extent segs

extent-append : (xs ys : List Segment) → extent (xs ++ ys) ≡ extent xs + extent ys
extent-append [] ys = omega arith
extent-append (x ∷ xs) ys = omega (arith, extent-append xs ys)

-- The numbers of `width` bytes.
abbrev range : ℕ → ℕ
range zero = 1
range (suc width) = 256 * range width

field-range : (width : ℕ) (bytes : List ℕ) → field width bytes < range width
unfolding field
field-range zero bytes = omega arith
field-range (suc width) [] = omega (arith, field-range width [])
field-range (suc width) (b ∷ bytes) = omega (arith, field-range width bytes)

field-word : (bytes : List ℕ) → field 8 bytes < 2 ^ 64
field-word bytes = field-range 8 bytes

-- The words of a program header.
record IsWords (ph : ProgramHeader) : Type 0 where
  at : ph.vaddr < 2 ^ 64
  size : ph.memsz < 2 ^ 64

program_header-IsWords :
    (bytes : List ℕ) (at : ℕ) (ph : ProgramHeader) → program_header bytes at ≡ some ph → IsWords ph
unfolding program_header
program_header-IsWords bytes at ph h = record {
  at = ground (arith, field-word (drop 16 (drop at bytes)));
  size = ground (arith, field-word (drop 40 (drop at bytes)));
}

mapped_bytes-pages :
    (memsz bytes : ℕ) → memsz < 2 ^ 64 → mapped_bytes memsz ≡ some bytes → bytes ≡ pages memsz
unfolding mapped_bytes
mapped_bytes-pages memsz bytes w h = ground arith

check_segment-IsSegment :
    (ph : ProgramHeader) (size : ℕ)
    → IsWords ph
    → ph.memsz ≢ 0
    → check_segment ph size ≡ none
    → IsSegment size (segment_of ph)
unfolding check_segment segment_of extent_wraps mapped_bytes region_in_bounds
check_segment-IsSegment ph size w some_bytes h = record {
  write_xor_execute = ground arith;
  aligned = ground arith;
  not_empty = omega arith;
  filled = ground arith;
  in_file = ground arith;
  in_memory = ground (arith, w.at, w.size);
}

-- What the loop has so far.
record IsLoaded (size : ℕ) (segs : List Segment) (total : ℕ) : Type 0 where
  each : All (IsSegment size) segs
  few : length segs ≤ 8
  counted : total ≡ extent segs
  bounded : total ≤ max_image_bytes

-- The cases in which the loop goes on.
data Taken (size : ℕ) (ph : ProgramHeader) (segs : List Segment) (total : ℕ) : Step → Type 0 where
  skipped : Taken size ph segs total (go_on segs total)
  stopped : (error : ElfError) → Taken size ph segs total (stop error)
  loaded :
      check_segment ph size ≡ none
      → ph.memsz ≢ 0
      → length segs ≢ max_segments
      → (bytes : ℕ) → mapped_bytes ph.memsz ≡ some bytes
      → bytes ≤ max_image_bytes
      → (total + bytes) % 2 ^ 64 ≤ max_image_bytes
      → Taken size ph segs total (go_on (segs ++ segment_of ph ∷ []) ((total + bytes) % 2 ^ 64))

take_header-Taken :
    (size : ℕ) (ph : ProgramHeader) (segs : List Segment) (total : ℕ)
    → Taken size ph segs total (take_header size ph segs total)
unfolding take_header
take_header-Taken size ph segs total = elim (Bool-cases (ph.type == 3 || ph.type == 2)) [
  | inl bad ↦ rw (bad, take_header) (stopped ElfError.dynamic)
  | inr fine ↦ elim (Bool-cases (not (ph.type == 1) || ph.memsz == 0)) [
    | inl other ↦ subst (Taken size ph segs total) {x = go_on segs total} (ground arith) skipped
    | inr load ↦ elim (Option-cases (check_segment ph size)) [
      | inr (error, refused) ↦
          subst (Taken size ph segs total) {x = stop error} (ground arith) (stopped error)
      | inl passed ↦ elim (Option-cases (mapped_bytes ph.memsz)) [
        | inl wraps ↦
            subst (Taken size ph segs total)
              {x = stop (
                if length segs == max_segments
                then ElfError.too_many_segments
                else ElfError.bad_segment)}
              (ground arith) (stopped _)
        | inr (bytes, mapped) ↦
            elim (Bool-cases (
              length segs == max_segments
              || ltb max_image_bytes bytes
              || ltb max_image_bytes ((total + bytes) % 2 ^ 64))) [
                | inl refused ↦
                    subst (Taken size ph segs total)
                      {x = stop (
                        if length segs == max_segments
                        then ElfError.too_many_segments
                        else ElfError.image_too_large)}
                      (ground arith) (stopped _)
                | inr fits ↦
                    subst (Taken size ph segs total)
                      {x = go_on (segs ++ segment_of ph ∷ []) ((total + bytes) % 2 ^ 64)}
                      (ground arith)
                      (loaded passed (λ e. ground arith) (λ e. ground arith) bytes mapped
                        (ground arith) (ground arith))
              ]
      ]
    ]
  ]
]

-- What holds after a header if the loop goes on.
Goes {ℓ} : (List Segment → ℕ → Type ℓ) → Step → Type ℓ
Goes P (go_on segs total) = P segs total
Goes P (stop error) = Unit

Taken-IsLoaded :
    (size : ℕ) (ph : ProgramHeader) (segs : List Segment) (total : ℕ) (step : Step)
    → IsWords ph
    → IsLoaded size segs total
    → Taken size ph segs total step
    → Goes (IsLoaded size) step
unfolding Goes segment_of
Taken-IsLoaded size ph segs total _ w v skipped = v
Taken-IsLoaded size ph segs total _ w v (stopped error) = tt
Taken-IsLoaded size ph segs total _ w v (loaded passed ne few bytes mapped small fits) =
    let b : bytes ≡ pages ph.memsz = mapped_bytes-pages ph.memsz bytes w.size mapped in
    let limit : total ≤ max_image_bytes = v.bounded in
    record {
      each =
          All-append (IsSegment size) segs (segment_of ph ∷ []) v.each
            (check_segment-IsSegment ph size w ne passed, tt);
      few = omega (arith, length-append segs (segment_of ph ∷ []), v.few, few);
      counted = ground (arith, extent-append segs (segment_of ph ∷ []), v.counted, b, limit, small);
      bounded = fits;
    }

-- A segment that holds an address.
pub data Covers (entry : ℕ) : List Segment → Type 0 where
  here :
      {s : Segment} {segs : List Segment}
      → s.vaddr ≤ entry
      → entry < s.vaddr + s.memsz
      → Covers entry (s ∷ segs)
  there : {s : Segment} {segs : List Segment} → Covers entry segs → Covers entry (s ∷ segs)

entry_covered-Covers :
    (entry : ℕ) (segs : List Segment) → entry_covered entry segs ≡ true → Covers entry segs
unfolding entry_covered
entry_covered-Covers entry [] h = absurd (cc)
entry_covered-Covers entry (s ∷ segs) h =
    elim (Bool-cases (leb s.vaddr entry && ltb (entry - s.vaddr) s.memsz)) [
      | inl inside ↦ here (ground arith) (ground arith)
      | inr outside ↦ there (entry_covered-Covers entry segs (ground arith))
    ]

pub record IsLoadable (size : ℕ) (img : Image) : Type 0 where
  pub segments : All (IsSegment size) img.segments
  pub some_segment : 0 < length img.segments
  pub few : length img.segments ≤ max_segments
  pub bounded : extent img.segments ≤ max_image_bytes
  pub entry : Covers img.entry img.segments

-- What `Parsed` says of an accepted image.
unfoldable pub Yields {ℓ} : (Image → Type ℓ) → Parsed → Type ℓ
Yields P (accepted img) = P img
Yields P (rejected error) = Unit
Yields P undefined = Unit

finish-IsLoadable :
    (size entry : ℕ) (segs : List Segment) (total : ℕ)
    → IsLoaded size segs total
    → Yields (IsLoadable size) (finish entry segs)
unfolding Yields finish
finish-IsLoadable size entry segs total v = elim (Bool-cases (length segs == 0)) [
  | inl none_found ↦ rw (none_found, finish) tt
  | inr found ↦ elim (Bool-cases (entry_covered entry segs)) [
    | inr outside ↦ rw (found, finish) (rw (outside, finish) tt)
    | inl inside ↦
        rw (found, finish)
          (rw (inside, finish)
            (record {
              segments = v.each;
              some_segment = ground arith;
              few = v.few;
              bounded = omega (arith, v.counted, v.bounded);
              entry = entry_covered-Covers entry segs inside;
            }))
  ]
]

resume-IsLoadable :
    (bytes : List ℕ) (hdr : Header) (left i : ℕ) (step : Step)
    → Goes (IsLoaded (length bytes)) step
    → ((segs : List Segment) (total : ℕ)
        → IsLoaded (length bytes) segs total
        → Yields (IsLoadable (length bytes)) (parse_headers bytes hdr left (i + 1) segs total))
    → Yields (IsLoadable (length bytes)) (resume bytes hdr left i step)
unfolding Goes Yields
resume-IsLoadable bytes hdr left i (stop error) g later = tt
resume-IsLoadable bytes hdr left i (go_on segs total) g later = later segs total g

headers-IsLoadable :
    (bytes : List ℕ) (hdr : Header) (left i : ℕ) (segs : List Segment) (total : ℕ)
    → IsLoaded (length bytes) segs total
    → Yields (IsLoadable (length bytes)) (parse_headers bytes hdr left i segs total)
unfolding parse_headers Yields
headers-IsLoadable bytes hdr zero i segs total v =
    finish-IsLoadable (length bytes) hdr.entry segs total v
headers-IsLoadable bytes hdr (suc left) i segs total v =
    elim (Bool-cases (leb (2 ^ 31) (i * hdr.phentsize))) [
      | inl large ↦ rw (large, parse_headers) tt
      | inr small ↦ elim (Option-cases (program_header bytes (hdr.phoff + i * hdr.phentsize))) [
        | inl outside ↦ rw (small, parse_headers) (rw (outside, parse_headers) tt)
        | inr (ph, found) ↦
            let w = program_header-IsWords bytes (hdr.phoff + i * hdr.phentsize) ph found in
            rw (small, parse_headers)
              (rw (found, parse_headers)
                (resume-IsLoadable bytes hdr left i (take_header (length bytes) ph segs total)
                  (Taken-IsLoaded (length bytes) ph segs total _ w v
                    (take_header-Taken (length bytes) ph segs total))
                  (λ segs' total'. headers-IsLoadable bytes hdr left (i + 1) segs' total')))
      ]
    ]

-- A check that may refuse.
pub Yields-guard {ℓ} :
    (P : Image → Type ℓ) (b : Bool) (error : ElfError) (out : Parsed)
    → Yields P out
    → Yields P (if b then rejected error else out)
unfolding Yields
Yields-guard P true error out y = tt
Yields-guard P false error out y = y

parse_image-Yields :
    (native address : ℕ) (bytes : List ℕ)
    → Yields (IsLoadable (length bytes)) (parse_image native address bytes)
unfolding parse_image Yields
parse_image-Yields native address bytes = elim (Option-cases (header_of address bytes)) [
  | inl other ↦ rw (other, parse_image) tt
  | inr (hdr, found) ↦
      let all =
        headers-IsLoadable bytes hdr hdr.phnum 0 [] 0
          (record { each = tt; few = omega arith; counted = refl; bounded = omega arith }) in
      rw (found, parse_image) (search (Yields-guard, all))
]

-- An accepted image has at least one and at most eight segments, together of at most 64 MiB. None of
-- them is writable and executable; each is page-aligned, holds no more file bytes than it has memory,
-- takes its bytes from inside the image, and ends below 2^64. The entry point lies in one of them.
pub parse_image-IsLoadable :
    (native address : ℕ) (bytes : List ℕ) (img : Image)
    → parse_image native address bytes ≡ accepted img
    → IsLoadable (length bytes) img
unfolding Yields
parse_image-IsLoadable native address bytes img h =
    subst (Yields (IsLoadable (length bytes))) h (parse_image-Yields native address bytes)
