-- ===== src/Loader.antt =====
-- The kernel loader of the boot program (boot/uefi-loader/src/elf.rs). The firmware's
-- `boot::allocate_pages` is a parameter. The pages that it hands out are the list of their bytes.
pub mod Answers
pub mod Headers
pub mod Survey
pub mod Copies
pub mod Image
pub mod Success
pub mod Tests
use Prim.Native.Nat.{bit_and}
use new_os.Base.{
  ℕ, zero, suc, ◌+◌, ◌-◌, ◌*◌, ◌/◌, min, max, Bool, true, false, ◌&&◌, not, Option, none, some,
  List, [], ◌∷◌, ◌++◌, ltb, leb, ◌==◌, if◌then◌else◌, length, take, drop, replicate, get_elem?,
  Bytes, bytes_eq, from_le, slice, checked_add, checked_mul, u64_mod,
}

abbrev pub elf_magic : Bytes
elf_magic = 0x7f ∷ b'E' ∷ b'L' ∷ b'F' ∷ []

abbrev pub elf_class_64 : ℕ
elf_class_64 = 2

abbrev pub elf_data_little_endian : ℕ
elf_data_little_endian = 1

abbrev pub elf_version_current : ℕ
elf_version_current = 1

abbrev pub elf_type_exec : ℕ
elf_type_exec = 2

abbrev pub elf_type_dyn : ℕ
elf_type_dyn = 3

abbrev pub elf_machine_x86_64 : ℕ
elf_machine_x86_64 = 62

abbrev pub program_header_load : ℕ
program_header_load = 1

pub record LoadedKernel : Type 0 where
  pub entry_point : ℕ
  pub virtual_base : ℕ
  pub physical_base : ℕ
  pub image_size : ℕ

pub data LoadError : Type 0 where
  file_too_small bad_magic : LoadError
  unsupported_class unsupported_endian unsupported_version unsupported_type unsupported_machine
        invalid_program_header_size :
      ℕ → LoadError
  program_header_out_of_bounds segment_out_of_bounds : LoadError
  segment_alignment : ℕ → LoadError
  segment_address_overflow no_load_segments : LoadError
  allocation_failed : ℕ → LoadError

pub record ElfHeader : Type 0 where
  pub entry_point : ℕ
  pub program_header_offset : ℕ
  pub program_header_entry_size : ℕ
  pub program_header_count : ℕ

pub record ProgramHeader : Type 0 where
  pub file_offset : ℕ
  pub virtual_address : ℕ
  pub physical_address : ℕ
  pub file_size : ℕ
  pub memory_size : ℕ

-- `Result<A, LoadError>`, a panic, and a copy that leaves the file or the pages allocated.
pub data Load (A : Type 0) : Type 0 where
  ok : A → Load A
  err : LoadError → Load A
  panics : Load A
  strays : Load A

infixl 5 ◌>>=◌ ◌>>◌
unfoldable pub ◌>>=◌ : {A B : Type 0} → Load A → (A → Load B) → Load B
ok a >>= f = f a
err e >>= f = err e
panics >>= f = panics
strays >>= f = strays

abbrev pub ◌>>◌ : {B : Type 0} → Load (Unit {0}) → Load B → Load B
m >> k = m >>= λ _. k

-- `if test { return Err(e); }`
unfoldable pub fail_if : Bool → LoadError → Load (Unit {0})
fail_if true e = err e
fail_if false e = ok tt

-- `o.ok_or(e)?`
unfoldable pub ok_or : {A : Type 0} → Option A → LoadError → Load A
ok_or none e = err e
ok_or (some a) e = ok a

-- An index or an overflow that panics.
unfoldable pub or_panic : {A : Type 0} → Option A → Load A
or_panic none = panics
or_panic (some a) = ok a

-- A source that leaves the file.
unfoldable pub or_strays : {A : Type 0} → Option A → Load A
or_strays none = strays
or_strays (some a) = ok a

-- `read_u16`, `read_u32` and `read_u64`, by the number of bytes.
unfoldable pub read_le : ℕ → Bytes → ℕ → Load ℕ
unfolding slice from_le
read_le width bytes offset = do
  end ← ok_or (checked_add offset width) program_header_out_of_bounds
  part ← ok_or (slice bytes offset end) program_header_out_of_bounds
  ok (from_le part)

unfoldable pub parse_header : Bytes → Load ElfHeader
unfolding read_le bytes_eq
parse_header image = do
  fail_if (ltb (length image) 64) file_too_small
  magic ← or_panic (slice image 0 4)
  fail_if (not (bytes_eq magic elf_magic)) bad_magic
  class ← or_panic (get_elem? image 4)
  fail_if (not (class == elf_class_64)) (unsupported_class class)
  endian ← or_panic (get_elem? image 5)
  fail_if (not (endian == elf_data_little_endian)) (unsupported_endian endian)
  version ← or_panic (get_elem? image 6)
  fail_if (not (version == elf_version_current)) (unsupported_version version)
  elf_type ← read_le 2 image 16
  fail_if (not (elf_type == elf_type_exec) && not (elf_type == elf_type_dyn))
      (unsupported_type elf_type)
  machine ← read_le 2 image 18
  fail_if (not (machine == elf_machine_x86_64)) (unsupported_machine machine)
  entry_size ← read_le 2 image 54
  fail_if (ltb entry_size 56) (invalid_program_header_size entry_size)
  entry ← read_le 8 image 24
  program_headers ← read_le 8 image 32
  count ← read_le 2 image 56
  ok (record {
    entry_point = entry;
    program_header_offset = program_headers;
    program_header_entry_size = entry_size;
    program_header_count = count;
  })

-- The part of `parse_program_header` behind the test of the type.
unfoldable pub parse_segment : Bytes → Load (Option ProgramHeader)
unfolding read_le
parse_segment program_header = do
  virtual ← read_le 8 program_header 16
  physical ← read_le 8 program_header 24
  fail_if (not (bit_and virtual 0xFFF == 0)) (segment_alignment virtual)
  in_file ← read_le 8 program_header 32
  in_memory ← read_le 8 program_header 40
  fail_if (ltb in_memory in_file) segment_out_of_bounds
  offset ← read_le 8 program_header 8
  ok (
      some (record {
        file_offset = offset;
        virtual_address = virtual;
        physical_address = physical;
        file_size = in_file;
        memory_size = in_memory;
      }))

-- The part behind the slice of the record.
unfoldable pub parse_entry : Bytes → Load (Option ProgramHeader)
unfolding read_le parse_segment
parse_entry program_header = do
  kind ← read_le 4 program_header 0
  if not (kind == program_header_load) then ok none else parse_segment program_header

unfoldable pub parse_program_header : Bytes → ElfHeader → ℕ → Load (Option ProgramHeader)
unfolding slice parse_entry
parse_program_header image header index = do
  skipped ← ok_or (checked_mul index header.program_header_entry_size) program_header_out_of_bounds
  start ← ok_or (checked_add header.program_header_offset skipped) program_header_out_of_bounds
  end ← ok_or (checked_add start header.program_header_entry_size) program_header_out_of_bounds
  fail_if (ltb (length image) end) program_header_out_of_bounds
  program_header ← or_panic (slice image start end)
  parse_entry program_header

-- The variables of the first loop of `load_kernel`.
pub record Extent : Type 0 where
  pub loadable : ℕ
  pub virtual_base : ℕ
  pub virtual_end : ℕ

abbrev pub no_extent : Extent
no_extent = record { loadable = 0; virtual_base = u64_mod - 1; virtual_end = 0 }

unfoldable pub extend : Extent → Option ProgramHeader → Load Extent
extend x none = ok x
extend x (some s) = do
  segment_end ← ok_or (checked_add s.virtual_address s.memory_size) segment_address_overflow
  ok (record {
    loadable = x.loadable + 1;
    virtual_base = min x.virtual_base s.virtual_address;
    virtual_end = max x.virtual_end segment_end;
  })

-- The first loop: `n` rounds from an index on.
unfoldable pub survey : Bytes → ElfHeader → ℕ → ℕ → Extent → Load Extent
unfolding parse_program_header extend
survey image header zero index x = ok x
survey image header (suc n) index x = do
  found ← parse_program_header image header index
  x' ← extend x found
  survey image header n (suc index) x'

-- `ptr::copy_nonoverlapping` to an address of the pages at `physical_base`.
unfoldable pub copy_to : ℕ → Bytes → ℕ → Bytes → Load Bytes
copy_to physical_base pages dest source =
    let offset = dest - physical_base in
    if leb physical_base dest && leb (offset + length source) (length pages)
    then ok (take offset pages ++ source ++ drop (offset + length source) pages)
    else strays

unfoldable pub copy_segment : Bytes → ℕ → ℕ → Bytes → Option ProgramHeader → Load Bytes
unfolding slice copy_to
copy_segment image virtual_base physical_base pages none = ok pages
copy_segment image virtual_base physical_base pages (some s) = do
  source_end ← ok_or (checked_add s.file_offset s.file_size) segment_out_of_bounds
  fail_if (ltb (length image) source_end) segment_out_of_bounds
  offset ←
      if ltb s.virtual_address virtual_base then panics else ok (s.virtual_address - virtual_base)
  dest_physical ← or_panic (checked_add physical_base offset)
  source ← or_strays (slice image s.file_offset source_end)
  copy_to physical_base pages dest_physical source

-- The second loop: `n` rounds from an index on.
unfoldable pub copy_segments : Bytes → ElfHeader → ℕ → ℕ → ℕ → ℕ → Bytes → Load Bytes
unfolding parse_program_header copy_segment
copy_segments image header virtual_base physical_base zero index pages = ok pages
copy_segments image header virtual_base physical_base (suc n) index pages = do
  found ← parse_program_header image header index
  pages' ← copy_segment image virtual_base physical_base pages found
  copy_segments image header virtual_base physical_base n (suc index) pages'

-- What `boot::allocate_pages` of a number of pages comes to: an error status, or an address.
pub data Allocation : Type 0 where
  refused : ℕ → Allocation
  allocated : ℕ → Allocation

unfoldable pub physical_pages : Allocation → Load ℕ
physical_pages (refused status) = err (allocation_failed status)
physical_pages (allocated address) = ok address

-- The part of `load_kernel` behind the first loop, with the bytes of the pages.
unfoldable pub load_extent :
    (ℕ → Allocation) → Bytes → ElfHeader → Extent → Load (LoadedKernel × Bytes)
unfolding copy_segments
load_extent allocate_pages image header x = do
  fail_if (x.loadable == 0) no_load_segments
  fail_if (not (bit_and x.virtual_base 0xFFF == 0)) (segment_alignment x.virtual_base)
  fail_if (ltb x.virtual_end x.virtual_base) segment_address_overflow
  let size = x.virtual_end - x.virtual_base
  let page_count = (size + 4095) / 4096
  base ← physical_pages (allocate_pages page_count)
  page_bytes ← or_panic (checked_mul page_count 4096)
  pages ←
      copy_segments image header x.virtual_base base header.program_header_count 0
        (replicate page_bytes 0)
  ok (
    record {
      entry_point = header.entry_point;
      virtual_base = x.virtual_base;
      physical_base = base;
      image_size = size;
    },
    pages,
  )

unfoldable pub load_kernel : (ℕ → Allocation) → Bytes → Load (LoadedKernel × Bytes)
unfolding parse_header survey load_extent
load_kernel allocate_pages image = do
  header ← parse_header image
  x ← survey image header header.program_header_count 0 no_extent
  load_extent allocate_pages image header x
