-- ===== src/Elf.antt =====
-- includes/kernel/elf.h, includes/kernel/elf_loader.h and elf/elf_parse.cpp: which binaries the
-- kernel's loader accepts. An image is a list of bytes, a byte a number modulo 2^8; structs are read
-- from it little-endian, as the accepted targets do. `undefined` is the model's own: a struct read
-- past the end of the image, or an overflow of the signed product `i * e_phentsize`.
pub mod Bounds
pub mod Loadable
pub mod Segments
mod Tests
use archipelago.Prelude.{
  ℕ, zero, suc, ◌+◌, ◌-◌, ◌*◌, ◌/◌, ◌%◌, ◌^◌, Bool, true, false, not, ◌&&◌, ◌||◌, Option, none,
  some, List, [], ◌∷◌, ◌++◌, ltb, leb, ◌==◌, if◌then◌else◌, length, drop, bit_and,
}

abbrev pub page_size : ℕ
page_size = 0x1000

abbrev pub max_segments : ℕ
max_segments = 8

abbrev pub max_image_bytes : ℕ
max_image_bytes = 0x400_0000

pub data ElfError : Type 0 where
  not_elf wrong_machine not_executable dynamic truncated bad_entry : ElfError
  no_segments too_many_segments wx_segment unaligned_segment : ElfError
  bad_segment image_too_large : ElfError

-- `Elf64_Ehdr`, the fields that the parser reads.
pub record Header : Type 0 where
  pub magic : ℕ
  pub class : ℕ
  pub encoding : ℕ
  pub version : ℕ
  pub type : ℕ
  pub machine : ℕ
  pub entry : ℕ
  pub phoff : ℕ
  pub phentsize : ℕ
  pub phnum : ℕ

-- `Elf64_Phdr`, the fields that the parser reads.
pub record ProgramHeader : Type 0 where
  pub type : ℕ
  pub flags : ℕ
  pub offset : ℕ
  pub vaddr : ℕ
  pub filesz : ℕ
  pub memsz : ℕ

pub record Segment : Type 0 where
  pub file_offset : ℕ
  pub vaddr : ℕ
  pub filesz : ℕ
  pub memsz : ℕ
  pub flags : ℕ

-- `segments` is the first `count` of the source's array.
pub record Image : Type 0 where
  pub segments : List Segment
  pub entry : ℕ

pub data Parsed : Type 0 where
  accepted : Image → Parsed
  rejected : ElfError → Parsed
  undefined : Parsed

-- An unsigned field of `width` bytes.
unfoldable pub field : ℕ → List ℕ → ℕ
field zero bytes = 0
field (suc width) [] = 0
field (suc width) (b ∷ bytes) = b % 2 ^ 8 + 2 ^ 8 * field width bytes

unfoldable pub region_in_bounds : ℕ → ℕ → ℕ → Bool
region_in_bounds offset size elf_size = leb offset elf_size && leb size (elf_size - offset)

unfoldable pub read_header : List ℕ → Header
read_header bytes = record {
  magic = field 4 bytes;
  class = field 1 (drop 4 bytes);
  encoding = field 1 (drop 5 bytes);
  version = field 1 (drop 6 bytes);
  type = field 2 (drop 16 bytes);
  machine = field 2 (drop 18 bytes);
  entry = field 8 (drop 24 bytes);
  phoff = field 8 (drop 32 bytes);
  phentsize = field 2 (drop 54 bytes);
  phnum = field 2 (drop 56 bytes);
}

-- `header_of`: `address` is that of the image in memory, 0 for the null pointer. The four magic
-- bytes 7f 45 4c 46 are compared as one little-endian number.
unfoldable pub header_of : ℕ → List ℕ → Option Header
header_of address bytes =
    let hdr = read_header bytes in
    if address == 0 || ltb (length bytes) 64
    then none
    else if not (address % 8 == 0)
    then none
    else if not (hdr.magic == 0x464c_457f)
    then none
    else if not (hdr.class == 2)
    then none
    else if not (hdr.encoding == 1)
    then none
    else if not (hdr.version == 1)
    then none
    else some hdr

-- One program header, `none` where the struct does not lie inside the image.
unfoldable pub program_header : List ℕ → ℕ → Option ProgramHeader
program_header bytes at =
    let ph = drop at bytes in
    if leb (at + 56) (length bytes)
    then some (record {
      type = field 4 ph;
      flags = field 4 (drop 4 ph);
      offset = field 8 (drop 8 ph);
      vaddr = field 8 (drop 16 ph);
      filesz = field 8 (drop 32 ph);
      memsz = field 8 (drop 40 ph);
    })
    else none

-- The mask `~(PAGE_SIZE - 1)` rounds down to a multiple of the page size, a power of two.
unfoldable pub mapped_bytes : ℕ → Option ℕ
mapped_bytes memsz =
    let rounded = (memsz + (page_size - 1)) % 2 ^ 64 in
    if ltb rounded memsz then none else some (rounded / page_size * page_size)

unfoldable pub extent_wraps : ℕ → ℕ → Bool
extent_wraps vaddr memsz = elim (mapped_bytes memsz) [
  | none ↦ true
  | some bytes ↦ ltb ((vaddr + bytes) % 2 ^ 64) vaddr
]

-- Why a segment is refused, if it is.
unfoldable pub check_segment : ProgramHeader → ℕ → Option ElfError
check_segment ph size =
    if not (bit_and ph.flags 2 == 0) && not (bit_and ph.flags 1 == 0)
    then some ElfError.wx_segment
    else if not (ph.vaddr % page_size == 0)
    then some ElfError.unaligned_segment
    else if ltb ph.memsz ph.filesz
    then some ElfError.bad_segment
    else if extent_wraps ph.vaddr ph.memsz
    then some ElfError.bad_segment
    else if not (region_in_bounds ph.offset ph.filesz size)
    then some ElfError.truncated
    else none

unfoldable pub entry_covered : ℕ → List Segment → Bool
entry_covered entry [] = false
entry_covered entry (seg ∷ segs) =
    (leb seg.vaddr entry && ltb (entry - seg.vaddr) seg.memsz) || entry_covered entry segs

unfoldable pub segment_of : ProgramHeader → Segment
segment_of ph = record {
  file_offset = ph.offset;
  vaddr = ph.vaddr;
  filesz = ph.filesz;
  memsz = ph.memsz;
  flags = ph.flags;
}

-- The body of the loop for one header: an error, or the segments and the total after it.
pub data Step : Type 0 where
  go_on : List Segment → ℕ → Step
  stop : ElfError → Step

unfoldable pub take_header : ℕ → ProgramHeader → List Segment → ℕ → Step
take_header size ph segs total =
    if ph.type == 3 || ph.type == 2
    then stop ElfError.dynamic
    else if not (ph.type == 1)
    then go_on segs total
    else if ph.memsz == 0
    then go_on segs total
    else elim (check_segment ph size) [
      | some error ↦ stop error
      | none ↦
          if length segs == max_segments
          then stop ElfError.too_many_segments
          else elim (mapped_bytes ph.memsz) [
            | none ↦ stop ElfError.bad_segment
            | some bytes ↦
                if ltb max_image_bytes bytes
                then stop ElfError.image_too_large
                else if ltb max_image_bytes ((total + bytes) % 2 ^ 64)
                then stop ElfError.image_too_large
                else go_on (segs ++ segment_of ph ∷ []) ((total + bytes) % 2 ^ 64)
          ]
    ]

-- What follows the loop.
unfoldable pub finish : ℕ → List Segment → Parsed
finish entry segs =
    if length segs == 0
    then rejected ElfError.no_segments
    else if not (entry_covered entry segs)
    then rejected ElfError.bad_entry
    else accepted (record { segments = segs; entry = entry })

-- The loop, from header `i` on, with `left` headers to go.
unfoldable pub parse_headers : List ℕ → Header → ℕ → ℕ → List Segment → ℕ → Parsed
parse_headers bytes hdr zero i segs total = finish hdr.entry segs
parse_headers bytes hdr (suc left) i segs total =
    if leb (2 ^ 31) (i * hdr.phentsize)
    then undefined
    else elim (program_header bytes (hdr.phoff + i * hdr.phentsize)) [
      | none ↦ undefined
      | some ph ↦ elim (take_header (length bytes) ph segs total) [
        | stop error ↦ rejected error
        | go_on segs' total' ↦ parse_headers bytes hdr left (i + 1) segs' total'
      ]
    ]

-- `native` is the machine that the kernel was built for, `EM_NATIVE`.
unfoldable pub parse_image : ℕ → ℕ → List ℕ → Parsed
parse_image native address bytes = elim (header_of address bytes) [
  | none ↦ rejected ElfError.not_elf
  | some hdr ↦
      if not (hdr.machine == native)
      then rejected ElfError.wrong_machine
      else if not (hdr.type == 2)
      then rejected ElfError.not_executable
      else if hdr.phoff == 0 || ltb hdr.phentsize 56
      then rejected ElfError.truncated
      else if not (region_in_bounds hdr.phoff (hdr.phnum * hdr.phentsize) (length bytes))
      then rejected ElfError.truncated
      else if not ((address + hdr.phoff) % 8 == 0)
      then rejected ElfError.truncated
      else parse_headers bytes hdr hdr.phnum 0 [] 0
]
