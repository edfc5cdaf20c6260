-- ===== src/Process/NewProcess.antt =====
-- A new process from a program: `new_from_elf` (kernel/src/process.rs).
use new_os.Base.{ℕ, suc, ◌+◌, ◌-◌, ◌*◌, ◌≤◌, ◌<◌, ◌≡◌, refl, true, Option, some, [], Bytes, arith}
use mathlib.Core.Path.{subst}
use new_os.Elf.{ElfHeader, ProgramHeader, ok, parse_header, parse_program_header}
use new_os.Paging.{Platform, Machine, writable}
use new_os.Paging.Entries.{Gives}
use new_os.Paging.Trees.{sum_from}
use new_os.Paging.Spaces.{Made, create_process_pml4_lem}
use new_os.Process.{Mapper, Memory, stack_start, stack_size, new_id}
use new_os.Process.Program.{Loaded, new_from_elf, of_run}
use new_os.Process.Mapping.{page_at, IsApart}
use new_os.Process.Regions.{IsRegion, map_user_region_lem}
use new_os.Process.Programs.{Fits, frames, DisjointHeaders, HoldsHeader, load_segments_lem}

-- A program with this header and these program headers, that can be loaded.
pub record IsProgram (p : Platform) (elf_data : Bytes) (header : ElfHeader)
    (headers : ℕ → Option ProgramHeader) : Type 0 where
  pub parsed : parse_header elf_data ≡ ok header
  pub entry : Platform.is_canonical p header.entry ≡ true
  pub each_parsed :
      (j : ℕ)
      → j < header.program_header_count
      → parse_program_header elf_data header j ≡ ok (headers j)
  pub fits : (j : ℕ) → j < header.program_header_count → Fits p elf_data (headers j)
  pub disjoint :
      (j l : ℕ) → j < l → l < header.program_header_count → DisjointHeaders (headers j) (headers l)

-- The addresses of the stack are canonical.
pub record StackIsCanonical (p : Platform) : Type 0 where
  pub start : Platform.is_canonical p stack_start ≡ true
  pub last : Platform.is_canonical p (stack_start + stack_size - 1) ≡ true
  pub top : Platform.is_canonical p (stack_start + stack_size) ≡ true

-- The frames that suffice for a program: the root, the stack's, and those of the segments.
abbrev pub program_frames : ElfHeader → (ℕ → Option ProgramHeader) → ℕ
program_frames header headers =
    suc (4 * 8 + sum_from (λ j. frames (headers j)) header.program_header_count 0)

module _ (p : Platform) (x : Mapper p) where
  open p use {PhysFrame, Used}

  -- The process that a program makes.
  pub record Runs (elf_data : Bytes) (header : ElfHeader) (headers : ℕ → Option ProgramHeader)
      (next : ℕ) (m : Memory p x) (l : Loaded p x) : Type 0 where
    pub new_root : ¬ Used m.machine.allocator l.process.pml4_frame
    pub same_id : l.process.id ≡ next
    pub same_entry : l.process.entry_point ≡ header.entry
    pub same_stack : l.process.stack_top ≡ stack_start + stack_size
    pub no_threads : l.process.threads ≡ []
    pub stack :
        (q : ℕ)
        → stack_start ≤ 4096 * q
        → 4096 * q < stack_start + stack_size
        → (a : ℕ) × (page_at p x l.process.pml4_frame q l.memory.machine ≡ some a)
    pub apart : IsApart p x l.process.pml4_frame l.memory.machine
    pub holds :
        (j : ℕ)
        → j < header.program_header_count
        → HoldsHeader p x l.process.pml4_frame elf_data (headers j) l.memory

  -- A new space maps no user page.
  Made-IsApart : (kernel d : PhysFrame) (m m' : Machine p) → Made p kernel d m m' → IsApart p x d m'
  Made-IsApart kernel d m m' made = record {
    sound = x.sound_empty d m' made.lower;
    lands = λ q a low there.
        let free = x.translate_empty d (4096 * q) m'.tables made.lower (omega (arith, low)) in
        absurd (cc);
    apart = λ q r a low_q low_r at_q at_r.
        let free = x.translate_empty d (4096 * q) m'.tables made.lower (omega (arith, low_q)) in
        absurd (cc);
  }

  stack_region : StackIsCanonical p → IsRegion p stack_start stack_size
  stack_region c = record {
    not_empty = omega arith;
    user = omega arith;
    end_canonical = c.top;
    last_canonical = c.last;
  }

  -- For a program whose headers parse, whose segments lie in the file and in the user half and have
  -- no address in common, with frames enough and the kernel's root in use, `new_from_elf` returns a
  -- process: a new root, the program's entry point, the stack's top and no thread. Its stack is
  -- mapped, every address of every segment is mapped and holds the file's byte, or zero beyond the
  -- file size, and no two user pages lie on the same frame.
  pub new_from_elf_lem :
      (k next : ℕ) (elf_data : Bytes) (kernel : PhysFrame) (m : Memory p x) (header : ElfHeader)
      (headers : ℕ → Option ProgramHeader)
      → IsProgram p elf_data header headers
      → StackIsCanonical p
      → Used m.machine.allocator kernel
      → Gives p (program_frames header headers + k) m.machine.allocator
      → (l : Loaded p x) × (new_from_elf p x elf_data kernel next m ≡ ok l)
        × Runs elf_data header headers next m l
  unfolding new_from_elf of_run
  new_from_elf_lem k next elf_data kernel m header headers program stack used gives =
      let count = header.program_header_count in
      let total = sum_from (λ j. frames (headers j)) count 0 in
      let (d, n, created, made, left) =
        create_process_pml4_lem p (4 * 8 + (total + k)) kernel m.machine used
          (subst (λ c. Gives p c m.machine.allocator) (omega arith) gives) in
      let top_ok = x.virt_add_lem stack_start stack_size stack.top (omega arith) in
      let (n', mapped, v, maps, left') =
        map_user_region_lem p x d (total + k) stack_start stack_size
          (p.insert x.empty_flags writable) n (stack_region stack)
          (Made-IsApart kernel d m.machine n made) left in
      let (m', loaded, v', older, holds, keeps, rest) =
        load_segments_lem p x d elf_data header headers k count 0 (record m { machine = n' })
          (λ j low high. program.each_parsed j (omega (arith, high)))
          (λ j low high. program.fits j (omega (arith, high)))
          (λ j l low lt high. program.disjoint j l lt (omega (arith, high))) v left' in
      (
        record {
          process = record {
            id = next;
            pml4_frame = d;
            entry_point = header.entry;
            stack_top = stack_start + stack_size;
            threads = [];
          };
          memory = m';
          next_id = (new_id next).1;
        },
        rw (program.parsed, created, stack.start, top_ok, program.entry, mapped, loaded) refl,
        record {
          new_root = made.was_free;
          same_id = refl;
          same_entry = refl;
          same_stack = refl;
          no_threads = refl;
          stack = λ q low high.
              let (a, there) = maps.mapped q (omega (arith, low)) (omega (arith, low, high)) in
              (a, older q a (omega (arith, high)) there);
          apart = v';
          holds = λ j below. holds j (omega arith) (omega (arith, below));
        },
      )
