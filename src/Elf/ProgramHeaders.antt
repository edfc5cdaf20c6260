-- ===== src/Elf/ProgramHeaders.antt =====
-- `parse_program_header` (kernel/src/elf.rs) on a file whose header was accepted.
use new_os.Base.{
  ℕ, ◌+◌, ◌*◌, ◌≤◌, ◌<◌, ◌≡◌, not, ◌&&◌, Bool-cases, ◌⊎◌, inl, inr, Option, none, some, arith, ltb,
  leb, ◌==◌, if◌then◌else◌, length, Bytes, u64_mod,
}
use new_os.Elf.{
  ElfHeader, ProgramHeader, Parse, ParseError, ok, err, parse_header, parse_load,
  parse_program_header,
}
use new_os.Elf.Safety.{field, read_le-field, parse_header-checks}

-- What a record of 56 bytes at `start` says.
abbrev pub program_header_at : Bytes → ℕ → ProgramHeader
program_header_at bytes start = record {
  file_offset = field bytes (start + 8) 8;
  virtual_address = field bytes (start + 16) 8;
  physical_address = field bytes (start + 24) 8;
  file_size = field bytes (start + 32) 8;
  memory_size = field bytes (start + 40) 8;
  flags = field bytes (start + 4) 4;
  align = field bytes (start + 48) 8;
}

abbrev pub load_at : Bytes → ℕ → Parse (Option ProgramHeader)
load_at bytes start =
    if not (field bytes start 4 == 1)
    then ok none
    else if ltb (field bytes (start + 40) 8) (field bytes (start + 32) 8)
    then err ParseError.program_header_out_of_bounds
    else ok (some (program_header_at bytes start))

parse_load-load_at :
    (bytes : Bytes) (start : ℕ)
    → start + 56 ≤ length bytes
    → parse_load bytes start ≡ load_at bytes start
unfolding parse_load
parse_load-load_at bytes start h = ground (
  arith,
  read_le-field bytes start 4 (omega arith),
  read_le-field bytes (start + 4) 4 (omega arith),
  read_le-field bytes (start + 8) 8 (omega arith),
  read_le-field bytes (start + 16) 8 (omega arith),
  read_le-field bytes (start + 24) 8 (omega arith),
  read_le-field bytes (start + 32) 8 (omega arith),
  read_le-field bytes (start + 40) 8 (omega arith),
  read_le-field bytes (start + 48) 8 (omega arith),
)

-- The record of an index lies inside the file.
abbrev pub InFile : Bytes → ElfHeader → ℕ → Type 0
InFile bytes h index =
    (h.program_header_offset + index * h.program_header_entry_size < length bytes)
    × (h.program_header_offset + index * h.program_header_entry_size + h.program_header_entry_size
        ≤ length bytes)

abbrev pub start_of : ElfHeader → ℕ → ℕ
start_of h index = h.program_header_offset + index * h.program_header_entry_size

entry_size :
    (bytes : Bytes) (h : ElfHeader) → parse_header bytes ≡ ok h → 56 ≤ h.program_header_entry_size
entry_size bytes h e = ground (arith, parse_header-checks bytes)

-- With the file shorter than 2^64 bytes, as every slice is: the record is refused as out of bounds
-- unless it lies inside the file.
parse_program_header_cases :
    (bytes : Bytes) (h : ElfHeader) (index : ℕ)
    → 56 ≤ h.program_header_entry_size
    → length bytes < u64_mod
    → ((InFile bytes h index)
        × (parse_program_header bytes h index ≡ load_at bytes (start_of h index)))
      ⊎ ((¬ InFile bytes h index)
          × (parse_program_header bytes h index ≡ err ParseError.program_header_out_of_bounds))
unfolding parse_program_header
parse_program_header_cases bytes h index size small =
    elim (Bool-cases (
      ltb (start_of h index) (length bytes)
      && leb (start_of h index + h.program_header_entry_size) (length bytes))) [
        | inl inside ↦ inl (
          (ground arith, ground arith),
          ground (arith, parse_load-load_at bytes (start_of h index)),
        )
        | inr outside ↦ inr ((λ p. ground arith), ground arith)
      ]

-- For a file shorter than 2^64 bytes with an accepted header, `parse_program_header` never indexes
-- out of range, at any index: a record that does not lie inside the file is refused as out of
-- bounds; one that does is skipped if its type is not PT_LOAD, refused if its file size is above
-- its memory size, and otherwise read field by field.
pub parse_program_header_lem :
    (bytes : Bytes) (h : ElfHeader) (index : ℕ)
    → parse_header bytes ≡ ok h
    → length bytes < u64_mod
    → ((InFile bytes h index)
        × (parse_program_header bytes h index ≡ load_at bytes (start_of h index)))
      ⊎ ((¬ InFile bytes h index)
          × (parse_program_header bytes h index ≡ err ParseError.program_header_out_of_bounds))
parse_program_header_lem bytes h index e small =
    parse_program_header_cases bytes h index (entry_size bytes h e) small
