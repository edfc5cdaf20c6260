-- ===== src/Loader/Tests.antt =====
-- A kernel of one segment, loaded (boot/uefi-loader/src/elf.rs).
use new_os.Base.{
  ℕ, zero, suc, ◌+◌, ◌-◌, ◌/◌, ◌%◌, ◌≤◌, ◌<◌, ◌≡◌, refl, arith, some, [], ◌∷◌, ◌++◌, leb,
  if◌then◌else◌, replicate, Bytes,
}
use new_os.Loader.{
  LoadedKernel, ElfHeader, ProgramHeader, ok, ◌>>=◌, fail_if, ok_or, or_panic, parse_header,
  parse_program_header, Allocation, refused, allocated, load_kernel,
}
use new_os.Loader.Answers.{Answers}
use new_os.Loader.Headers.{IsAccepted}
use new_os.Loader.Survey.{segment_list}
use new_os.Loader.Image.{AllocatesBelow, IsLoaded, load_kernel_lem}
use new_os.Loader.Success.{IsReadable, load_kernel_succeeds}

abbrev word : ℕ → Bytes
word n = n % 256 ∷ n / 256 ∷ replicate 6 0

abbrev file_header : Bytes
file_header =
    0x7f ∷ 69 ∷ 76 ∷ 70 ∷ 2 ∷ 1 ∷ 1 ∷ replicate 9 0
    ++ 2 ∷ 0 ∷ 62 ∷ 0 ∷ replicate 4 0
    ++ word 0x1000
    ++ word 64
    ++ word 0
    ++ replicate 6 0
    ++ 56 ∷ 0 ∷ 1 ∷ 0 ∷ replicate 6 0

abbrev load_record : Bytes
load_record = 1 ∷ replicate 7 0 ++ word 120 ++ word 0x1000 ++ word 0 ++ word 3 ++ word 5 ++ word 0

abbrev kernel_file : Bytes
kernel_file = file_header ++ load_record ++ 7 ∷ 8 ∷ 9 ∷ []

abbrev segment : ProgramHeader
segment = record {
  file_offset = 120;
  virtual_address = 0x1000;
  physical_address = 0;
  file_size = 3;
  memory_size = 5;
}

abbrev kernel_header : ElfHeader
kernel_header = record {
  entry_point = 0x1000;
  program_header_offset = 64;
  program_header_entry_size = 56;
  program_header_count = 1;
}

-- A firmware with 1,024 pages at 2 MiB.
abbrev firmware : ℕ → Allocation
firmware n = if leb n 1024 then allocated 0x200000 else refused 9

firmware-AllocatesBelow : AllocatesBelow firmware
firmware-AllocatesBelow n address e = ground arith

firmware_grants :
    (n : ℕ) → n ≤ (0x2000 - 0x1000 + 4095) / 4096 → (address : ℕ) × (firmware n ≡ allocated address)
firmware_grants n h = (0x200000, ground arith)

header_parsed : parse_header kernel_file ≡ ok kernel_header
unfolding parse_header ◌>>=◌ fail_if ok_or or_panic
header_parsed = refl

record_parsed : parse_program_header kernel_file kernel_header 0 ≡ ok (some segment)
unfolding parse_program_header ◌>>=◌ fail_if ok_or or_panic
record_parsed = refl

one_segment : segment_list kernel_file kernel_header 1 0 ≡ segment ∷ []
unfolding segment_list parse_program_header ◌>>=◌ fail_if ok_or or_panic
one_segment = refl

readable : (i : ℕ) → i < 1 → IsReadable kernel_file kernel_header 0x1000 0x2000 i
readable zero h = (some segment, record_parsed, (omega arith, omega arith, omega arith))
readable (suc i) h = absurd (omega arith)

load_kernel_succeeds_example :
    (kernel : LoadedKernel) × (pages : Bytes) × (load_kernel firmware kernel_file
      ≡ ok (kernel, pages))
    × IsLoaded firmware kernel_file kernel_header kernel pages
load_kernel_succeeds_example =
    load_kernel_succeeds firmware firmware-AllocatesBelow kernel_file (omega arith) kernel_header
      0x1000 0x2000 (omega arith) (omega arith) firmware_grants readable
      (rw one_segment (omega arith)) header_parsed

load_kernel_lem_example :
    Answers
      (λ r.
        (header : ElfHeader) × IsAccepted kernel_file header
        × IsLoaded firmware kernel_file header r.0 r.1)
      (load_kernel firmware kernel_file)
load_kernel_lem_example = load_kernel_lem firmware firmware-AllocatesBelow kernel_file (omega arith)
