-- ===== src/Process/Tests.antt =====
-- Runs of the process code (kernel/src/process.rs), and the theorems at concrete inputs.
use new_os.Base.{
  ℕ, zero, suc, ◌+◌, ◌*◌, ◌/◌, ◌<◌, ◌≡◌, refl, Option, some, [], ◌∷◌, ◌++◌, inr, replicate,
  returned, Bytes, bytes_eq, from_le, arith,
}
use new_os.Elf.{
  ElfHeader, ProgramHeader, ok, parse_header, parse_program_header, sub_slice, byte, read_le,
}
use new_os.Paging.{Machine}
use new_os.Paging.Sample.{sample, free, no_flags, Gives-sample, before, root_tables}
use new_os.Paging.Entries.{Gives}
use new_os.Paging.Spaces.{IsSpace, user_cost}
use new_os.Process.Fork.{Forked, fork, IsFork, fork_lem}
use new_os.Process.{ProcessInner, Memory, map_user_region}
use new_os.Process.Sample.{sample_mapper}
use new_os.Process.Program.{Loaded, new_from_elf, load_segment}
use new_os.Process.Mapping.{IsApart, Maps}
use new_os.Process.Regions.{region_pages, map_user_region_lem}
use new_os.Process.Loading.{IsLoadable, IsLoaded, segment_pages, load_segment_lem}
use new_os.Process.NewProcess.{IsProgram, StackIsCanonical, program_frames, Runs, new_from_elf_lem}

-- A machine with an empty kernel root in frame 0.
abbrev empty_machine : Machine sample
empty_machine = record { tables = λ t i. free; allocator = 1 }

abbrev empty_memory : Memory sample sample_mapper
empty_memory = record { machine = empty_machine; bytes = λ a. 0xcc }

-- A program of 120 bytes: the header, and one program header, whose segment is the first six bytes
-- of the file and two zeros behind them, at 0x400ffa and so in two pages.
abbrev program_bytes : Bytes
program_bytes =
    (0x7f ∷ b'E' ∷ b'L' ∷ b'F' ∷ 2 ∷ 1 ∷ 1 ∷ 0 ∷ replicate 8 0)
    ++ ((2 ∷ 0 ∷ 62 ∷ 0 ∷ 1 ∷ 0 ∷ 0 ∷ 0 ∷ 0xfa ∷ 0x0f ∷ 0x40 ∷ 0 ∷ 0 ∷ 0 ∷ 0 ∷ 0 ∷ [])
        ++ ((64 ∷ replicate 7 0)
            ++ (replicate 12 0
                ++ ((64 ∷ 0 ∷ 56 ∷ 0 ∷ 1 ∷ 0 ∷ 0 ∷ 0 ∷ 0 ∷ 0 ∷ 0 ∷ 0 ∷ [])
                    ++ ((1 ∷ 0 ∷ 0 ∷ 0 ∷ 6 ∷ 0 ∷ 0 ∷ 0 ∷ [])
                        ++ (replicate 8 0
                            ++ ((0xfa ∷ 0x0f ∷ 0x40 ∷ 0 ∷ 0 ∷ 0 ∷ 0 ∷ 0 ∷ [])
                                ++ (replicate 8 0
                                    ++ ((6 ∷ replicate 7 0)
                                        ++ ((8 ∷ replicate 7 0) ++ replicate 8 0))))))))))

abbrev header : ElfHeader
header = record {
  entry = 0x400ffa;
  program_header_offset = 64;
  program_header_entry_size = 56;
  program_header_count = 1;
}

abbrev segment : ProgramHeader
segment = record {
  file_offset = 0;
  virtual_address = 0x400ffa;
  physical_address = 0;
  file_size = 6;
  memory_size = 8;
  flags = 6;
  align = 0;
}

program_parses : parse_header program_bytes ≡ ok header
unfolding parse_header sub_slice bytes_eq byte read_le from_le
program_parses = refl

segment_parses : parse_program_header program_bytes header 0 ≡ ok (some segment)
unfolding parse_program_header read_le byte
segment_parses = refl

abbrev headers : ℕ → Option ProgramHeader
headers j = some segment

segment_loads : IsLoadable sample program_bytes segment
segment_loads = record {
  sizes = omega arith;
  within = omega arith;
  small = omega arith;
  region = record {
    not_empty = omega arith;
    user = omega arith;
    end_canonical = refl;
    last_canonical = refl;
  };
  canonical = λ o inside. refl;
}

header-IsProgram : IsProgram sample program_bytes header headers
header-IsProgram = record {
  parsed = program_parses;
  entry = refl;
  each_parsed = only_one;
  fits = λ j below. inr segment_loads;
  disjoint = λ j l lt below. absurd (omega (arith, lt, below));
}
  where
    only_one : (j : ℕ) → j < 1 → parse_program_header program_bytes header j ≡ ok (some segment)
    only_one zero below = segment_parses
    only_one (suc j) below = absurd (omega (arith, below))

stack_canonical : StackIsCanonical sample
stack_canonical = record { start = refl; last = refl; top = refl }

new_from_elf_lem_example :
    (l : Loaded sample sample_mapper) × (new_from_elf sample sample_mapper program_bytes 0 7
        empty_memory
      ≡ ok l)
    × Runs sample sample_mapper program_bytes header headers 7 empty_memory l
new_from_elf_lem_example =
    new_from_elf_lem sample sample_mapper 0 7 program_bytes 0 empty_memory header headers
      header-IsProgram stack_canonical (omega arith)
      (Gives-sample (program_frames header headers + 0) 1)

empty-IsApart : IsApart sample sample_mapper 0 empty_machine
empty-IsApart = record {
  sound = tt;
  lands = λ q a low there. absurd (cc);
  apart = λ q r a low_q low_r at_q at_r. absurd (cc);
}

map_user_region_lem_example :
    (m' : Machine sample) × (map_user_region sample sample_mapper 0 0x400ffa 8 no_flags
        empty_machine
      ≡ returned m')
    × IsApart sample sample_mapper 0 m'
    × Maps sample sample_mapper 0 (0x400ffa / 4096) (region_pages 0x400ffa 8) empty_machine m'
    × Gives sample 0 m'.allocator
map_user_region_lem_example =
    map_user_region_lem sample sample_mapper 0 0 0x400ffa 8 no_flags empty_machine
      segment_loads.region empty-IsApart (Gives-sample (4 * region_pages 0x400ffa 8 + 0) 1)

load_segment_lem_example :
    (m' : Memory sample sample_mapper) × (load_segment sample sample_mapper program_bytes segment 0
        empty_memory
      ≡ ok m')
    × IsLoaded sample sample_mapper 0 program_bytes segment empty_memory m'
    × Gives sample 0 m'.machine.allocator
load_segment_lem_example =
    load_segment_lem sample sample_mapper 0 0 program_bytes segment empty_memory segment_loads
      empty-IsApart (Gives-sample (4 * segment_pages segment + 0) 1)

abbrev parent : ProcessInner sample sample_mapper
parent = record {
  id = 4;
  pml4_frame = 1;
  entry_point = 0x400ffa;
  stack_top = 0x700000008000;
  threads = 2 ∷ [];
}

one_page-IsSpace : IsSpace sample 1 before
one_page-IsSpace = record {
  root = omega arith;
  tables_used =
      λ x high used. root_tables (λ t. t < 10) (omega arith) (omega arith) (omega arith) x used;
}

fork_lem_example :
    (f : Forked sample sample_mapper) × (fork sample sample_mapper parent 0 5 before ≡ returned f)
    × IsFork sample sample_mapper parent before f
fork_lem_example =
    fork_lem sample sample_mapper 0 5 parent 0 before one_page-IsSpace (omega arith)
      (Gives-sample (suc (user_cost sample 1 before + 0)) 10)
