-- ===== src/Elf/Tests.antt =====
-- The theorems on the ELF parser at a concrete file.
use new_os.Base.{◌<◌, ◌≡◌, refl, inl, ◌⊎◌, ◌∷◌, arith, length, Bytes, replicate, u64_mod, to_le}
use new_os.Elf.{ElfHeader, err, parse_header, parse_program_header, ParseError}
use new_os.Elf.Safety.{checks, parse_header-checks}
use new_os.Elf.ProgramHeaders.{InFile, load_at, start_of, parse_program_header_lem}
use new_os.Elf.RoundTrip.{layout, Fits, parse_header-layout}

-- A header with one program header, which follows it.
abbrev small_header : ElfHeader
small_header = record {
  entry = 0x400000;
  program_header_offset = 64;
  program_header_entry_size = 56;
  program_header_count = 1;
}

abbrev small_file : Bytes
small_file = layout 2 small_header (1 ∷ 0 ∷ 0 ∷ 0 ∷ replicate 52 0)

small_header-Fits : Fits 2 small_header
small_header-Fits = record {
  e_type_known = inl refl;
  entry = omega arith;
  offset = omega arith;
  size = omega arith;
  size_min = omega arith;
  count = omega arith;
}

parse_header-checks_example : parse_header small_file ≡ checks small_file
parse_header-checks_example = parse_header-checks small_file

small_file-length : length small_file < u64_mod
unfolding to_le
small_file-length = omega arith

parse_program_header_lem_example :
    ((InFile small_file small_header 0)
      × (parse_program_header small_file small_header 0
          ≡ load_at small_file (start_of small_header 0)))
    ⊎ ((¬ InFile small_file small_header 0)
        × (parse_program_header small_file small_header 0
            ≡ err ParseError.program_header_out_of_bounds))
parse_program_header_lem_example =
    parse_program_header_lem small_file small_header 0
      (parse_header-layout 2 small_header (1 ∷ 0 ∷ 0 ∷ 0 ∷ replicate 52 0) small_header-Fits)
      small_file-length
