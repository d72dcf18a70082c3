-- ===== src/Elf/Bounds.antt =====
-- The parser reads nothing outside the image.
use archipelago.Prelude.{
  ℕ, zero, suc, ◌+◌, ◌*◌, ◌<◌, ◌≤◌, ◌^◌, ◌≡◌, ◌≢◌, arith, false, ◌&&◌, none, List, [], leb,
  Option-cases, Bool-cases, inl, inr, length,
}
use archipelago.Elf.{
  Header, Segment, Parsed, rejected, undefined, Step, go_on, stop, program_header, take_header,
  finish, parse_headers, parse_image, header_of, region_in_bounds,
}

finish-defined : (entry : ℕ) (segs : List Segment) → finish entry segs ≢ undefined
unfolding finish
finish-defined entry segs = λ p. ground arith

program_header-some :
    (bytes : List ℕ) (at : ℕ) → at + 56 ≤ length bytes → program_header bytes at ≢ none
unfolding program_header
program_header-some bytes at h = λ p. ground arith

-- What the loop does after a header.
abbrev pub resume : List ℕ → Header → ℕ → ℕ → Step → Parsed
resume bytes hdr left i (stop error) = rejected error
resume bytes hdr left i (go_on segs total) = parse_headers bytes hdr left (i + 1) segs total

resume-defined :
    (bytes : List ℕ) (hdr : Header) (left i : ℕ) (step : Step)
    → ((segs : List Segment) (total : ℕ)
        → parse_headers bytes hdr left (i + 1) segs total ≢ undefined)
    → resume bytes hdr left i step ≢ undefined
resume-defined bytes hdr left i (stop error) later = λ p. ground arith
resume-defined bytes hdr left i (go_on segs total) later = later segs total

-- The loop stays inside a table that lies inside the image.
headers-defined :
    (bytes : List ℕ) (hdr : Header) (left i : ℕ) (segs : List Segment) (total : ℕ)
    → 56 ≤ hdr.phentsize
    → hdr.phoff + (i + left) * hdr.phentsize ≤ length bytes
    → length bytes < 2 ^ 31
    → parse_headers bytes hdr left i segs total ≢ undefined
unfolding parse_headers
headers-defined bytes hdr zero i segs total e b s = finish-defined hdr.entry segs
headers-defined bytes hdr (suc left) i segs total e b s =
    let small : leb (2 ^ 31) (i * hdr.phentsize) ≡ false = ground (arith, fits) in
    elim (Option-cases (program_header bytes (hdr.phoff + i * hdr.phentsize))) [
      | inl outside ↦
          absurd (
            program_header-some bytes (hdr.phoff + i * hdr.phentsize) (omega (arith, fits)) outside)
      | inr (ph, found) ↦
          rw (small, parse_headers)
            (rw (found, parse_headers)
              (resume-defined bytes hdr left i (take_header (length bytes) ph segs total)
                (λ segs' total'.
                  headers-defined bytes hdr left (i + 1) segs' total' e (omega (arith, fits)) s)))
    ]
  where
    fits : hdr.phoff + i * hdr.phentsize + hdr.phentsize + left * hdr.phentsize ≤ length bytes
    fits = omega arith

-- Whatever its bytes say, parsing an image of less than 2 GiB reads no program header that does not
-- lie inside the image, and no offset computed on the way overflows.
pub parse_image-defined :
    (native address : ℕ) (bytes : List ℕ)
    → length bytes < 2 ^ 31
    → parse_image native address bytes ≢ undefined
unfolding parse_image region_in_bounds
parse_image-defined native address bytes s = elim (Option-cases (header_of address bytes)) [
  | inl other ↦ rw (other, parse_image) (λ p. ground arith)
  | inr (hdr, found) ↦
      rw (found, parse_image)
        (elim (Bool-cases (
          leb 56 hdr.phentsize
          && region_in_bounds hdr.phoff (hdr.phnum * hdr.phentsize) (length bytes))) [
            | inr bad ↦ λ p. ground arith
            | inl good ↦
                let inside =
                  headers-defined bytes hdr hdr.phnum 0 [] 0 (ground arith) (ground arith) s in
                λ p. inside (ground arith)
          ])
]
