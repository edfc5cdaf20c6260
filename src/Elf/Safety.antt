-- ===== src/Elf/Safety.antt =====
-- The parser of kernel/src/elf.rs never indexes out of range.
use new_os.Base.{
  ℕ, zero, suc, ◌+◌, ◌-◌, ◌≤◌, ◌<◌, ◌≡◌, ◌≢◌, refl, ap, false, not, ◌&&◌, Bool-cases, inl, inr,
  some, [], ◌∷◌, arith, ltb, ◌==◌, length, take, drop, get_elem?, lt-get_elem?, Bytes, bytes_eq,
  from_le, le→leb,
}
use new_os.Elf
use new_os.Elf.{
  ElfHeader, ProgramHeader, Parse, ParseError, ok, err, panics, ◌>>=◌, ◌>>◌, fail_if, byte,
  read_bytes, read_le, sub_slice, parse_header, parse_load, parse_program_header, or_out_of_bounds,
}

-- The bytes of a field, and its number.
abbrev pub field : Bytes → ℕ → ℕ → ℕ
field bytes pos width = from_le (take width (drop pos bytes))

take-drop-suc :
    (bytes : Bytes) (pos width b : ℕ)
    → get_elem? bytes pos ≡ some b
    → take (suc width) (drop pos bytes) ≡ b ∷ take width (drop (suc pos) bytes)
take-drop-suc [] pos width b h = absurd (ground arith)
take-drop-suc (x ∷ bytes) zero width b h = ground arith
take-drop-suc (x ∷ bytes) (suc pos) width b h = take-drop-suc bytes pos width b h

byte-some : (bytes : Bytes) (pos b : ℕ) → get_elem? bytes pos ≡ some b → byte bytes pos ≡ ok b
unfolding byte
byte-some bytes pos b h = rw (h, byte)

read_bytes-take :
    (bytes : Bytes) (pos width : ℕ)
    → pos + width ≤ length bytes
    → read_bytes bytes pos width ≡ ok (take width (drop pos bytes))
unfolding read_bytes
read_bytes-take bytes pos zero h = refl
read_bytes-take bytes pos (suc width) h =
    let (b, here) = lt-get_elem? bytes pos (omega arith) in
    let rest = read_bytes-take bytes (pos + 1) width (omega arith) in
    let next : pos + 1 ≡ suc pos = omega arith in
    rw (byte-some bytes pos b here, rest, take-drop-suc bytes pos width b here, next)

pub read_le-field :
    (bytes : Bytes) (pos width : ℕ)
    → pos + width ≤ length bytes
    → read_le bytes pos width ≡ ok (field bytes pos width)
unfolding read_le
read_le-field bytes pos width h = rw (read_bytes-take bytes pos width h)

-- What is read of a header that is accepted.
abbrev pub header_of : Bytes → ElfHeader
header_of bytes = record {
  entry = field bytes 24 8;
  program_header_offset = field bytes 32 8;
  program_header_entry_size = field bytes 54 2;
  program_header_count = field bytes 56 2;
}

-- The tests of `parse_header` in their order, without an index that could be out of range.
abbrev pub checks : Bytes → Parse ElfHeader
checks bytes = do
  fail_if (ltb (length bytes) 64) ParseError.file_too_small
  fail_if (not (bytes_eq (take 4 bytes) Elf.elf_magic)) ParseError.bad_magic
  fail_if (not (field bytes 4 1 == 2)) ParseError.unsupported_class
  fail_if (not (field bytes 5 1 == 1)) ParseError.unsupported_endian
  fail_if (not (field bytes 16 2 == 2) && not (field bytes 16 2 == 3)) ParseError.unsupported_type
  fail_if (not (field bytes 18 2 == 62)) ParseError.unsupported_machine
  fail_if (ltb (field bytes 54 2) 56) ParseError.invalid_program_header_size
  ok (header_of bytes)

pub get_elem?-field :
    (bytes : Bytes) (pos : ℕ) → pos < length bytes → get_elem? bytes pos ≡ some (field bytes pos 1)
unfolding from_le
get_elem?-field bytes pos h =
    let (b, here) = lt-get_elem? bytes pos h in
    rw (here, take-drop-suc bytes pos 0 b here) (ap some (omega arith))

byte-field :
    (bytes : Bytes) (pos : ℕ) → pos < length bytes → byte bytes pos ≡ ok (field bytes pos 1)
unfolding byte from_le
byte-field bytes pos h =
    let (b, here) = lt-get_elem? bytes pos h in
    rw (here, byte, take-drop-suc bytes pos 0 b here) (ap ok (omega arith))

sub_slice-take :
    (bytes : Bytes) (n : ℕ) → n ≤ length bytes → sub_slice bytes 0 n ≡ ok (take n bytes)
unfolding sub_slice
sub_slice-take bytes n h =
    let all : n - 0 ≡ n = omega arith in
    rw (le→leb 0 n (omega arith), sub_slice, le→leb n (length bytes) h, all)

-- The bytes of an accepted length can all be read.
parse_header-checks_long :
    (bytes : Bytes)
    → 64 ≤ length bytes
    → ltb (length bytes) 64 ≡ false
    → parse_header bytes ≡ checks bytes
unfolding parse_header
parse_header-checks_long bytes h long = rw (
  long,
  sub_slice-take bytes 4 (omega arith),
  byte-field bytes 4 (omega arith),
  byte-field bytes 5 (omega arith),
  read_le-field bytes 16 2 (omega arith),
  read_le-field bytes 18 2 (omega arith),
  read_le-field bytes 32 8 (omega arith),
  read_le-field bytes 54 2 (omega arith),
  read_le-field bytes 56 2 (omega arith),
  read_le-field bytes 24 8 (omega arith),
)

-- `parse_header` never indexes out of range, and its result is that of the eight tests in their
-- order, each with its error, on the fields of the header; so it accepts a header exactly if all
-- of them pass.
pub parse_header-checks : (bytes : Bytes) → parse_header bytes ≡ checks bytes
parse_header-checks bytes = elim (Bool-cases (ltb (length bytes) 64)) [
  | inl small ↦ unfold parse_header in rw (small, parse_header)
  | inr long ↦ parse_header-checks_long bytes (ground arith) long
]

pub parse_header-ne-panics : (bytes : Bytes) → parse_header bytes ≢ panics
parse_header-ne-panics bytes e = ground (arith, parse_header-checks bytes)
