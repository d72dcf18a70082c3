-- ===== src/Elf/Segments.antt =====
-- The segments of an accepted image are those of its program headers.
use archipelago.Prelude.{
  ℕ, zero, suc, ◌+◌, ◌*◌, ◌^◌, ◌≡◌, ◌≢◌, refl, sym, ap, ◌∙◌, subst, arith, not, ◌&&◌, none, some,
  List, [], ◌∷◌, ◌++◌, append-nil, append_assoc, leb, ◌==◌, if◌then◌else◌, Option-cases, Bool-cases,
  inl, inr, length, All,
}
use archipelago.Elf.{
  Header, ProgramHeader, Segment, Image, Parsed, accepted, rejected, undefined, Step, go_on, stop,
  segment_of, program_header, take_header, finish, parse_headers, parse_image, header_of,
}
use archipelago.Elf.Bounds.{resume}
use archipelago.Elf.Loadable.{Yields, Yields-guard}

-- The program headers from the `i`th on, as far as they lie inside the image.
unfoldable pub table : List ℕ → Header → ℕ → ℕ → List ProgramHeader
table bytes hdr zero i = []
table bytes hdr (suc left) i =
    let rest = table bytes hdr left (i + 1) in
    elim (program_header bytes (hdr.phoff + i * hdr.phentsize)) [ none ↦ [] | some ph ↦ ph ∷ rest ]

-- The segments of the headers that load something.
unfoldable pub loads : List ProgramHeader → List Segment
loads [] = []
loads (ph ∷ phs) =
    let rest = loads phs in
    if ph.type == 1 && not (ph.memsz == 0) then segment_of ph ∷ rest else rest

abbrev pub IsStatic : ProgramHeader → Type 0
IsStatic ph = (ph.type ≢ 2) × (ph.type ≢ 3)

-- What the loop adds to the segments it has, with `phs` to go.
abbrev Loads : List Segment → List ProgramHeader → Image → Type 0
Loads segs phs img = (img.segments ≡ segs ++ loads phs) × All IsStatic phs

-- What one header adds.
Adds : List Segment → ProgramHeader → Step → Type 0
Adds segs ph (stop error) = Unit
Adds segs ph (go_on segs' total') = (segs' ≡ segs ++ loads (ph ∷ [])) × IsStatic ph

take_header-Adds :
    (size : ℕ) (ph : ProgramHeader) (segs : List Segment) (total : ℕ)
    → (out : Step) → take_header size ph segs total ≡ out
    → Adds segs ph out
unfolding take_header loads Adds
take_header-Adds size ph segs total (stop error) h = tt
take_header-Adds size ph segs total (go_on segs' total') h = (
  ground (arith, append-nil segs),
  (λ p. absurd (ground (arith, p)), λ p. absurd (ground (arith, p))),
)

Yields-map {ℓ} :
    (P Q : Image → Type ℓ)
    → ((img : Image) → P img → Q img)
    → (out : Parsed) → Yields P out
    → Yields Q out
unfolding Yields
Yields-map P Q f (accepted img) y = f img y
Yields-map P Q f (rejected error) y = tt
Yields-map P Q f undefined y = tt

loads-cons :
    (ph : ProgramHeader) (phs : List ProgramHeader)
    → loads (ph ∷ phs) ≡ loads (ph ∷ []) ++ loads phs
unfolding loads
loads-cons ph phs = ground arith

resume-Loads :
    (bytes : List ℕ) (hdr : Header) (left i : ℕ) (segs : List Segment) (ph : ProgramHeader)
    (phs : List ProgramHeader) (step : Step)
    → Adds segs ph step
    → ((segs' : List Segment) (total' : ℕ)
        → Yields (Loads segs' phs) (parse_headers bytes hdr left (i + 1) segs' total'))
    → Yields (Loads segs (ph ∷ phs)) (resume bytes hdr left i step)
unfolding Adds Yields
resume-Loads bytes hdr left i segs ph phs (stop error) a later = tt
resume-Loads bytes hdr left i segs ph phs (go_on segs' total') a later =
    Yields-map (Loads segs' phs) (Loads segs (ph ∷ phs))
      (λ img y. (
        y.0
            ∙ ap (λ xs. xs ++ loads phs) a.0
            ∙ append_assoc segs (loads (ph ∷ [])) (loads phs)
            ∙ ap (λ xs. segs ++ xs) (sym (loads-cons ph phs)),
        (a.1, y.1),
      ))
      (parse_headers bytes hdr left (i + 1) segs' total') (later segs' total')

same-Loads :
    (entry : ℕ) (segs : List Segment)
    → Yields (Loads segs []) (accepted (record { segments = segs; entry = entry }))
unfolding Yields loads
same-Loads entry segs = (sym (append-nil segs), tt)

finish-Loads : (entry : ℕ) (segs : List Segment) → Yields (Loads segs []) (finish entry segs)
unfolding finish
finish-Loads entry segs = search (Yields-guard, same-Loads)

headers-Loads :
    (bytes : List ℕ) (hdr : Header) (left i : ℕ) (segs : List Segment) (total : ℕ)
    → Yields (Loads segs (table bytes hdr left i)) (parse_headers bytes hdr left i segs total)
unfolding parse_headers table Yields
headers-Loads bytes hdr zero i segs total = finish-Loads hdr.entry segs
headers-Loads bytes hdr (suc left) i segs total =
    elim (Bool-cases (leb (2 ^ 31) (i * hdr.phentsize))) [
      | inl large ↦ rw (large, parse_headers) tt
      | inr small ↦ elim (Option-cases (program_header bytes (hdr.phoff + i * hdr.phentsize))) [
        | inl outside ↦ rw (small, parse_headers) (rw (outside, parse_headers) tt)
        | inr (ph, found) ↦
            let rest = table bytes hdr left (i + 1) in
            let here : table bytes hdr (suc left) i ≡ ph ∷ rest = ground (arith, found) in
            subst (λ phs. Yields (Loads segs phs) (parse_headers bytes hdr (suc left) i segs total))
              (sym here)
              (rw (small, parse_headers)
                (rw (found, parse_headers)
                  (resume-Loads bytes hdr left i segs ph rest
                    (take_header (length bytes) ph segs total)
                    (take_header-Adds (length bytes) ph segs total _ refl)
                    (λ segs' total'. headers-Loads bytes hdr left (i + 1) segs' total'))))
      ]
    ]

-- An accepted image has exactly the segments of its loadable program headers, in their order; none
-- of its program headers asks for an interpreter or for dynamic linking.
pub parse_image-loads :
    (native address : ℕ) (bytes : List ℕ) (hdr : Header) (img : Image)
    → header_of address bytes ≡ some hdr
    → parse_image native address bytes ≡ accepted img
    → (img.segments ≡ loads (table bytes hdr hdr.phnum 0))
      × All IsStatic (table bytes hdr hdr.phnum 0)
unfolding parse_image Yields
parse_image-loads native address bytes hdr img found h =
    let phs = table bytes hdr hdr.phnum 0 in
    let all = headers-Loads bytes hdr hdr.phnum 0 [] 0 in
    subst (Yields (Loads [] phs)) h (rw (found, parse_image) (search (Yields-guard, all)))
