-- ===== src/Elf/Tests.antt =====
-- A small image for the loader: one read-only segment of 176 bytes at 0x400000.
use archipelago.Prelude.{ℕ, ◌≡◌, ◌≢◌, refl, arith, List, [], ◌∷◌, ◌++◌, length, replicate}
use archipelago.Elf.{
  Image, accepted, undefined, parse_image, header_of, read_header, field, region_in_bounds,
  parse_headers, program_header, take_header, check_segment, extent_wraps, mapped_bytes, segment_of,
  finish, entry_covered,
}
use archipelago.Elf.Bounds.{parse_image-defined}
use archipelago.Prelude.{some, All}
use archipelago.Elf.Segments.{table, loads, IsStatic, parse_image-loads}
use archipelago.Elf.Loadable.{IsLoadable, parse_image-IsLoadable}

-- A little-endian word: its low byte, then `zeros` bytes 0.
abbrev low : ℕ → ℕ → List ℕ
low b zeros = b ∷ replicate zeros 0

abbrev address_bytes : List ℕ
address_bytes = 0 ∷ 0 ∷ 0x40 ∷ replicate 5 0

abbrev file_header : List ℕ
file_header =
    0x7f ∷ 0x45 ∷ 0x4c ∷ 0x46 ∷ 2 ∷ 1 ∷ low 1 9
    ++ low 2 1
    ++ low 62 1
    ++ low 1 3
    ++ address_bytes
    ++ low 64 7
    ++ replicate 8 0
    ++ replicate 4 0
    ++ low 64 1
    ++ low 56 1
    ++ low 1 1
    ++ replicate 6 0

abbrev program : List ℕ
program =
    low 1 3
    ++ low 4 3
    ++ replicate 8 0
    ++ address_bytes
    ++ address_bytes
    ++ low 120 7
    ++ low 176 7
    ++ replicate 8 0

abbrev binary : List ℕ
binary = file_header ++ program

abbrev loaded : Image
loaded = record {
  segments =
      record { file_offset = 0; vaddr = 0x40_0000; filesz = 120; memsz = 176; flags = 4 } ∷ [];
  entry = 0x40_0000;
}

binary_lem : parse_image 62 4096 binary ≡ accepted loaded
unfolding parse_image header_of read_header field region_in_bounds parse_headers program_header
    take_header check_segment extent_wraps mapped_bytes segment_of finish entry_covered
binary_lem = refl

parse_image-IsLoadable_example : IsLoadable (length binary) loaded
parse_image-IsLoadable_example = parse_image-IsLoadable 62 4096 binary loaded binary_lem

parse_image-defined_example : parse_image 62 4096 binary ≢ undefined
parse_image-defined_example = parse_image-defined 62 4096 binary (omega arith)

binary_header : header_of 4096 binary ≡ some (read_header binary)
unfolding header_of read_header field
binary_header = refl

parse_image-loads_example :
    (loaded.segments ≡ loads (table binary (read_header binary) (read_header binary).phnum 0))
    × All IsStatic (table binary (read_header binary) (read_header binary).phnum 0)
parse_image-loads_example =
    parse_image-loads 62 4096 binary (read_header binary) loaded binary_header binary_lem
