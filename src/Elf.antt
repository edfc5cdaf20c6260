-- ===== src/Elf.antt =====
-- The ELF parser of the kernel (kernel/src/elf.rs).
pub mod Safety
pub mod ProgramHeaders
pub mod RoundTrip
pub mod Tests
use new_os.Base.{
  ℕ, zero, suc, ◌+◌, ◌*◌, Bool, true, false, ◌&&◌, ◌||◌, not, Option, none, some, List, [], ◌∷◌,
  ltb, leb, ◌==◌, if◌then◌else◌, length, get_elem?, Bytes, bytes_eq, from_le, slice, checked_add,
  checked_mul,
}

abbrev pub elf_magic : Bytes
elf_magic = 0x7f ∷ b'E' ∷ b'L' ∷ b'F' ∷ []

abbrev pub elf_class_64 : ℕ
elf_class_64 = 2

abbrev pub elf_data_little_endian : ℕ
elf_data_little_endian = 1

abbrev pub elf_type_exec : ℕ
elf_type_exec = 2

abbrev pub elf_type_dyn : ℕ
elf_type_dyn = 3

abbrev pub elf_machine_x86_64 : ℕ
elf_machine_x86_64 = 62

abbrev pub program_header_load : ℕ
program_header_load = 1

pub record ElfHeader : Type 0 where
  pub entry : ℕ
  pub program_header_offset : ℕ
  pub program_header_entry_size : ℕ
  pub program_header_count : ℕ

pub record ProgramHeader : Type 0 where
  pub file_offset : ℕ
  pub virtual_address : ℕ
  pub physical_address : ℕ
  pub file_size : ℕ
  pub memory_size : ℕ
  pub flags : ℕ
  pub align : ℕ

pub data ParseError : Type 0 where
  file_too_small bad_magic unsupported_class unsupported_endian unsupported_type unsupported_machine
        invalid_program_header_size program_header_out_of_bounds :
      ParseError

-- `Result<A, ParseError>`, and the panic of an index out of range.
pub data Parse (A : Type 0) : Type 0 where
  ok : A → Parse A
  err : ParseError → Parse A
  panics : Parse A

infixl 5 ◌>>=◌ ◌>>◌
abbrev pub ◌>>=◌ : {A B : Type 0} → Parse A → (A → Parse B) → Parse B
ok a >>= f = f a
err e >>= f = err e
panics >>= f = panics

abbrev pub ◌>>◌ : {B : Type 0} → Parse (Unit {0}) → Parse B → Parse B
m >> k = m >>= λ _. k

-- `if test { return Err(e); }`
abbrev pub fail_if : Bool → ParseError → Parse (Unit {0})
fail_if true e = err e
fail_if false e = ok tt

-- `data[i]`
unfoldable pub byte : Bytes → ℕ → Parse ℕ
byte bytes i = elim (get_elem? bytes i) [ none ↦ panics | some b ↦ ok b ]

unfoldable pub read_bytes : Bytes → ℕ → ℕ → Parse Bytes
read_bytes bytes pos zero = ok []
read_bytes bytes pos (suc width) = do
  b ← byte bytes pos
  rest ← read_bytes bytes (pos + 1) width
  ok (b ∷ rest)

-- `uN::from_le_bytes([data[pos], data[pos + 1], ..])` of `width` bytes
unfoldable pub read_le : Bytes → ℕ → ℕ → Parse ℕ
unfolding read_bytes
read_le bytes pos width = do field ← read_bytes bytes pos width; ok (from_le field)

-- `&data[start..end]`
unfoldable pub sub_slice : Bytes → ℕ → ℕ → Parse Bytes
unfolding slice
sub_slice bytes start end = elim (slice bytes start end) [ none ↦ panics | some part ↦ ok part ]

unfoldable pub parse_header : Bytes → Parse ElfHeader
parse_header bytes = do
  fail_if (ltb (length bytes) 64) file_too_small
  magic ← sub_slice bytes 0 4
  fail_if (not (bytes_eq magic elf_magic)) bad_magic
  class ← byte bytes 4
  fail_if (not (class == elf_class_64)) unsupported_class
  endian ← byte bytes 5
  fail_if (not (endian == elf_data_little_endian)) unsupported_endian
  e_type ← read_le bytes 16 2
  fail_if (not (e_type == elf_type_exec) && not (e_type == elf_type_dyn)) unsupported_type
  e_machine ← read_le bytes 18 2
  fail_if (not (e_machine == elf_machine_x86_64)) unsupported_machine
  e_phoff ← read_le bytes 32 8
  e_phentsize ← read_le bytes 54 2
  e_phnum ← read_le bytes 56 2
  fail_if (ltb e_phentsize 56) invalid_program_header_size
  entry ← read_le bytes 24 8
  ok (record {
    entry = entry;
    program_header_offset = e_phoff;
    program_header_entry_size = e_phentsize;
    program_header_count = e_phnum;
  })

-- `.ok_or(ParseError::ProgramHeaderOutOfBounds)?`
abbrev pub or_out_of_bounds : Option ℕ → Parse ℕ
or_out_of_bounds none = err program_header_out_of_bounds
or_out_of_bounds (some n) = ok n

-- The part behind the bounds checks.
unfoldable pub parse_load : Bytes → ℕ → Parse (Option ProgramHeader)
unfolding from_le
parse_load bytes start = do
  p_type ← read_le bytes start 4
  if not (p_type == program_header_load) then ok none else do
    flags ← read_le bytes (start + 4) 4
    file_offset ← read_le bytes (start + 8) 8
    virtual_address ← read_le bytes (start + 16) 8
    physical_address ← read_le bytes (start + 24) 8
    file_size ← read_le bytes (start + 32) 8
    memory_size ← read_le bytes (start + 40) 8
    align ← read_le bytes (start + 48) 8
    fail_if (ltb memory_size file_size) program_header_out_of_bounds
    ok (
        some (record {
          file_offset = file_offset;
          virtual_address = virtual_address;
          physical_address = physical_address;
          file_size = file_size;
          memory_size = memory_size;
          flags = flags;
          align = align;
        }))

unfoldable pub parse_program_header : Bytes → ElfHeader → ℕ → Parse (Option ProgramHeader)
unfolding parse_load
parse_program_header bytes header index = do
  let entry_size = header.program_header_entry_size
  scaled ← or_out_of_bounds (checked_mul index entry_size)
  start ← or_out_of_bounds (checked_add header.program_header_offset scaled)
  end ← or_out_of_bounds (checked_add start entry_size)
  fail_if (leb (length bytes) start || ltb (length bytes) end) program_header_out_of_bounds
  parse_load bytes start
