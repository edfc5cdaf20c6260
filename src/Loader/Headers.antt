-- ===== src/Loader/Headers.antt =====
-- The parsers of boot/uefi-loader/src/elf.rs on any bytes: an answer, never a panic.
use new_os.Base.{
  ℕ, ◌+◌, ◌-◌, ◌≤◌, ◌<◌, ◌≡◌, refl, ◌⊎◌, inl, inr, arith, Bool, true, false, ◌&&◌, not, Option,
  none, some, Bool-cases, ltb, ◌==◌, lt→ltb, length, take, get_elem?, Bytes, bytes_eq, slice,
  slice-some, checked_add, checked_mul, u64_mod,
}
use Prim.Native.Nat.{bit_and}
use new_os.Elf.Safety.{field, get_elem?-field}
use new_os.Loader.{
  LoadError, ElfHeader, ProgramHeader, ok, ◌>>=◌, fail_if, ok_or, or_panic, elf_magic, read_le,
  parse_header, parse_segment, parse_entry, parse_program_header,
}
use new_os.Loader.Answers.{
  Answers, answer, Answers-bind, Answers-ok_or, Answers-or_panic, Answers-fail_if,
}

-- A number is read, or the error of the table of program headers is returned.
read_le-Answers :
    (width : ℕ) (bytes : Bytes) (offset : ℕ) → Answers (λ _. Unit {0}) (read_le width bytes offset)
unfolding read_le
read_le-Answers width bytes offset =
    Answers-bind (ok_or (checked_add offset width) LoadError.program_header_out_of_bounds)
      (Answers-ok_or _ _)
      (λ end e.
        Answers-bind (ok_or (slice bytes offset end) LoadError.program_header_out_of_bounds)
          (Answers-ok_or _ _) (λ part e'. answer _ tt))

read_le-field :
    (width : ℕ) (bytes : Bytes) (offset : ℕ)
    → offset + width ≤ length bytes
    → length bytes < u64_mod
    → read_le width bytes offset ≡ ok (field bytes offset width)
unfolding read_le ok_or ◌>>=◌
read_le-field width bytes offset within small =
    let fits : ltb (offset + width) u64_mod ≡ true = lt→ltb _ _ (omega arith) in
    let count : offset + width - offset ≡ width = omega arith in
    rw (fits, slice-some bytes offset (offset + width) (omega arith) within, count) refl

abbrev pub IsPageAligned : ℕ → Type 0
IsPageAligned address = (bit_and address 0xFFF == 0) ≡ true

-- The bytes that a segment takes of the file fit into its memory, which starts at a page.
abbrev pub IsSegment : Option ProgramHeader → Type 0
IsSegment none = Unit
IsSegment (some s) = (s.file_size ≤ s.memory_size) × IsPageAligned s.virtual_address

not-false : (b : Bool) → not b ≡ false → b ≡ true
not-false true h = refl
not-false false h = absurd (ground arith)

ltb-false : (a b : ℕ) → ltb a b ≡ false → b ≤ a
ltb-false a b h = ground arith

parse_segment-Answers : (bytes : Bytes) → Answers IsSegment (parse_segment bytes)
unfolding parse_segment
parse_segment-Answers bytes =
    Answers-bind (read_le 8 bytes 16) (read_le-Answers 8 bytes 16) (λ virtual _.
      Answers-bind (read_le 8 bytes 24) (read_le-Answers 8 bytes 24) (λ physical _.
        Answers-bind (fail_if _ _) (Answers-fail_if _ _) (λ _ aligned.
          Answers-bind (read_le 8 bytes 32) (read_le-Answers 8 bytes 32) (λ in_file _.
            Answers-bind (read_le 8 bytes 40) (read_le-Answers 8 bytes 40) (λ in_memory _.
              Answers-bind (fail_if _ _) (Answers-fail_if _ _) (λ _ enough.
                Answers-bind (read_le 8 bytes 8) (read_le-Answers 8 bytes 8) (λ offset _.
                  answer _ (ltb-false in_memory in_file enough, not-false _ aligned))))))))

sum-le : (a b sum : ℕ) → checked_add a b ≡ some sum → a ≤ sum
sum-le a b sum h = ground arith

tested : (a b : ℕ) → not (a == b) ≡ false → a ≡ b
tested a b h = ground arith

two_types : (n : ℕ) → (not (n == 2) && not (n == 3)) ≡ false → (n ≡ 2) ⊎ (n ≡ 3)
two_types n h = ground arith

byte_at :
    (image : Bytes) (i : ℕ)
    → i < length image
    → Answers (λ b. b ≡ field image i 1) (or_panic (get_elem? image i))
byte_at image i within = Answers-or_panic _ _ (get_elem?-field image i within)

field_at :
    (image : Bytes) (offset width : ℕ)
    → length image < u64_mod
    → offset + width ≤ length image
    → Answers (λ n. n ≡ field image offset width) (read_le width image offset)
field_at image offset width small within =
    rw (read_le-field width image offset within small) (answer _ refl)

parse_entry-Answers : (bytes : Bytes) → Answers IsSegment (parse_entry bytes)
unfolding parse_entry
parse_entry-Answers bytes = Answers-bind (read_le 4 bytes 0) (read_le-Answers 4 bytes 0) (λ kind _.
    elim (Bool-cases (not (kind == 1))) [
      | inl other ↦ rw other (answer none tt)
      | inr load ↦ rw load (parse_segment-Answers bytes)
    ])

-- At any index, for any header.
pub parse_program_header-Answers :
    (image : Bytes) (header : ElfHeader) (index : ℕ)
    → Answers IsSegment (parse_program_header image header index)
unfolding parse_program_header
parse_program_header-Answers image header index =
    Answers-bind (ok_or (checked_mul index header.program_header_entry_size) _) (Answers-ok_or _ _)
      (λ skipped _.
        Answers-bind (ok_or (checked_add header.program_header_offset skipped) _)
          (Answers-ok_or _ _)
          (λ start _.
            Answers-bind (ok_or (checked_add start header.program_header_entry_size) _)
              (Answers-ok_or _ _)
              (λ end summed.
                Answers-bind (fail_if (ltb (length image) end) _) (Answers-fail_if _ _) (λ _ within.
                  let ordered : start ≤ end =
                    sum-le start header.program_header_entry_size end summed in
                  Answers-bind (or_panic (slice image start end))
                    (Answers-or_panic _ _
                      (slice-some image start end ordered (ltb-false _ _ within)))
                    (λ part _. parse_entry-Answers part)))))

-- What a header that is accepted consists of.
pub record IsAccepted (image : Bytes) (header : ElfHeader) : Type 0 where
  pub long_enough : 64 ≤ length image
  pub magic : bytes_eq (take 4 image) elf_magic ≡ true
  pub class : field image 4 1 ≡ 2
  pub endian : field image 5 1 ≡ 1
  pub version : field image 6 1 ≡ 1
  pub elf_type : (field image 16 2 ≡ 2) ⊎ (field image 16 2 ≡ 3)
  pub machine : field image 18 2 ≡ 62
  pub entry_size : 56 ≤ field image 54 2
  pub fields : header ≡ record {
    entry_point = field image 24 8;
    program_header_offset = field image 32 8;
    program_header_entry_size = field image 54 2;
    program_header_count = field image 56 2;
  }

-- For a file shorter than 2^64 bytes, as every slice is: the header is refused, or what it consists
-- of is as it has to be, and its fields are read; no index is out of range.
pub parse_header-Answers :
    (image : Bytes) → length image < u64_mod → Answers (IsAccepted image) (parse_header image)
unfolding parse_header
parse_header-Answers image small =
    Answers-bind (fail_if (ltb (length image) 64) _) (Answers-fail_if _ _) (λ _ long.
      let within : 64 ≤ length image = ltb-false _ _ long in
      Answers-bind (or_panic (slice image 0 4))
        (Answers-or_panic _ _ (slice-some image 0 4 (omega arith) (omega arith)))
        (λ magic magic_bytes.
          Answers-bind (fail_if (not (bytes_eq magic elf_magic)) _) (Answers-fail_if _ _)
            (λ _ is_magic.
              Answers-bind (or_panic (get_elem? image 4)) (byte_at image 4 (omega arith))
                (λ class class_byte.
                  Answers-bind (fail_if (not (class == 2)) _) (Answers-fail_if _ _) (λ _ is_class.
                    Answers-bind (or_panic (get_elem? image 5)) (byte_at image 5 (omega arith))
                      (λ endian endian_byte.
                        Answers-bind (fail_if (not (endian == 1)) _) (Answers-fail_if _ _)
                          (λ _ is_endian.
                            Answers-bind (or_panic (get_elem? image 6))
                              (byte_at image 6 (omega arith))
                              (λ version version_byte.
                                Answers-bind (fail_if (not (version == 1)) _) (Answers-fail_if _ _)
                                  (λ _ is_version.
                                    Answers-bind (read_le 2 image 16)
                                      (field_at image 16 2 small (omega arith))
                                      (λ elf_type type_field.
                                        Answers-bind
                                          (fail_if (not (elf_type == 2) && not (elf_type == 3)) _)
                                          (Answers-fail_if _ _)
                                          (λ _ is_type.
                                            Answers-bind (read_le 2 image 18)
                                              (field_at image 18 2 small (omega arith))
                                              (λ machine machine_field.
                                                Answers-bind (fail_if (not (machine == 62)) _)
                                                  (Answers-fail_if _ _)
                                                  (λ _ is_machine.
                                                    Answers-bind (read_le 2 image 54)
                                                      (field_at image 54 2 small (omega arith))
                                                      (λ entry_size size_field.
                                                        Answers-bind (fail_if (ltb entry_size 56) _)
                                                          (Answers-fail_if _ _)
                                                          (λ _ is_size.
                                                            Answers-bind (read_le 8 image 24)
                                                            (field_at image 24 8 small
                                                            (omega arith))
                                                            (λ entry entry_field.
                                                            Answers-bind (read_le 8 image 32)
                                                            (field_at image 32 8 small
                                                            (omega arith))
                                                            (λ offset offset_field.
                                                            Answers-bind (read_le 2 image 56)
                                                            (field_at image 56 2 small
                                                            (omega arith))
                                                            (λ count count_field. answer _ (record {
                                                            long_enough = within;
                                                            magic =
                                                            rw magic_bytes at
                                                            (not-false _ is_magic);
                                                            class = omega (
                                                            arith,
                                                            class_byte,
                                                            tested class 2 is_class,
                                                            );
                                                            endian = omega (
                                                            arith,
                                                            endian_byte,
                                                            tested endian 1 is_endian,
                                                            );
                                                            version = omega (
                                                            arith,
                                                            version_byte,
                                                            tested version 1 is_version,
                                                            );
                                                            elf_type =
                                                            rw type_field at
                                                            (two_types elf_type is_type);
                                                            machine = omega (
                                                            arith,
                                                            machine_field,
                                                            tested machine 62 is_machine,
                                                            );
                                                            entry_size = omega (
                                                            arith,
                                                            size_field,
                                                            ltb-false _ _ is_size,
                                                            );
                                                            fields =
                                                            rw
                                                            (
                                                            entry_field, offset_field, size_field,
                                                            count_field,
                                                            )
                                                            refl;
                                                            })))))))))))))))))))
