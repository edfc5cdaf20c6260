-- ===== src/Process/Program.antt =====
-- A process from an ELF program: `new_from_elf` (kernel/src/process.rs).
use new_os.Base.{
  ℕ, zero, suc, ◌+◌, Option, none, some, [], ltb, ◌==◌, if◌then◌else◌, length, Run, returned,
  panicked, checked_add, Bytes,
}
use new_os.Elf.{
  ElfHeader, ProgramHeader, program_header_out_of_bounds, Parse, ok, panics, ◌>>=◌, ◌>>◌, fail_if,
  or_out_of_bounds, parse_header, parse_program_header,
}
use new_os.Paging.{Platform, create_process_pml4, writable}
use new_os.Process.{
  Mapper, ProcessInner, Memory, map_user_region, map_segment, new_id, stack_start, stack_size,
}

-- The code's `Run` inside a function that returns errors.
unfoldable pub of_run : {A : Type 0} → Run A → Parse A
of_run (returned a) = ok a
of_run panicked = panics

module _ (p : Platform) (x : Mapper p) where
  open p use {PhysFrame, insert, is_canonical}
  open x use {empty_flags, virt_add}

  unfoldable pub load_segment : Bytes → ProgramHeader → PhysFrame → Memory p x → Parse (Memory p x)
  load_segment elf_data ph s m = if ph.memory_size == 0 then ok m else do
    file_end ← or_out_of_bounds (checked_add ph.file_offset ph.file_size)
    fail_if (ltb (length elf_data) file_end) program_header_out_of_bounds
    of_run (map_segment p x elf_data ph s m)

  unfoldable pub load_header :
      Bytes → Option ProgramHeader → PhysFrame → Memory p x → Parse (Memory p x)
  load_header elf_data none s m = ok m
  load_header elf_data (some ph) s m = load_segment elf_data ph s m

  -- `for i in 0..header.program_header_count`
  unfoldable pub load_segments :
      Bytes → ElfHeader → ℕ → ℕ → PhysFrame → Memory p x → Parse (Memory p x)
  unfolding load_header
  load_segments elf_data header zero i s m = ok m
  load_segments elf_data header (suc n) i s m = do
    ph ← parse_program_header elf_data header i
    m' ← load_header elf_data ph s m
    load_segments elf_data header n (i + 1) s m'

  -- The new process, the memory and the counter of process ids. The memory that an error leaves
  -- behind is not modelled. `kernel` is the frame that Cr3 names.
  pub record Loaded : Type 0 where
    pub process : ProcessInner p x
    pub memory : Memory p x
    pub next_id : ℕ

  -- `VirtAddr::new(entry)`
  abbrev pub address_of : ℕ → Run ℕ
  address_of v = if is_canonical v then returned v else panicked

  unfoldable pub new_from_elf : Bytes → PhysFrame → ℕ → Memory p x → Parse Loaded
  new_from_elf elf_data kernel next m = do
    header ← parse_header elf_data
    (pml4, machine) ← of_run (create_process_pml4 p kernel m.machine)
    start ← of_run (address_of stack_start)
    stack_top ← of_run (virt_add start stack_size)
    entry ← of_run (address_of header.entry)
    machine' ←
        of_run (map_user_region p x pml4 start stack_size (insert empty_flags writable) machine)
    m' ←
        load_segments elf_data header header.program_header_count 0 pml4
          (record m { machine = machine' })
    ok (record {
      process = record {
        id = (new_id next).0;
        pml4_frame = pml4;
        entry_point = entry;
        stack_top = stack_top;
        threads = [];
      };
      memory = m';
      next_id = (new_id next).1;
    })
