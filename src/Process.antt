-- ===== src/Process.antt =====
-- Processes and the loading of a program into one (kernel/src/process.rs). Page tables are those of
-- Paging; the mapper of the x86_64 crate is a parameter, `Mapper`. Data in physical memory is a byte
-- at each physical address.
pub mod Program
pub mod Mapping
pub mod Regions
pub mod Chunks
pub mod Filling
pub mod Segments
pub mod Loading
pub mod Holding
pub mod Programs
pub mod NewProcess
pub mod Fork
pub mod Sample
pub mod Tests
use Prim.Native.Nat.{bit_and}
use new_os.Base.{
  ℕ, zero, suc, ◌+◌, ◌-◌, ◌*◌, ◌/◌, ◌%◌, ◌^◌, ◌<◌, ◌≤◌, ◌≡◌, ◌≢◌, refl, min, Bool, true, false, not,
  Option, none, some, List, [], ◌∷◌, ◌++◌, ltb, leb, ◌==◌, if◌then◌else◌, length, replicate, Run,
  returned, panicked, ◌>>=◌, unwrap, u64_mod, checked_add, Bytes, slice,
}
use new_os.Paging.{
  Platform, Tables, Machine, new_table, create_process_pml4, clone_user_mappings_cow, mark, present,
  writable, user_accessible,
}
use new_os.Paging.Entries.{Gives, Fresh}
use new_os.Elf.{ProgramHeader}

abbrev pub pf_x : ℕ
pf_x = 1

abbrev pub pf_w : ℕ
pf_w = 2

-- PageTableFlags::NO_EXECUTE
abbrev pub no_execute : ℕ
no_execute = 63

abbrev pub stack_start : ℕ
stack_start = 0x700000000000

abbrev pub stack_size : ℕ
stack_size = 4096 * 8

-- The pages of the user half.
abbrev pub user_pages : ℕ
user_pages = 2 ^ 35

-- What the code takes of VirtAddr and OffsetPageTable of the x86_64 crate, with the documented
-- behaviour. An address is translated page by page, and one of the user half through the first half
-- of the root table. `Sound` says that the tables of the user half are reached on one path each, as
-- they are in an empty space and after each mapping. In a sound space the bit of user mode changes
-- no translation; a user page that is not translated is mapped with at most three frames for
-- tables, and this changes the translation of no other user page.
pub record Mapper (p : Platform) : Type 1 where
  pub virt_add : ℕ → ℕ → Run ℕ
  pub virt_add_lem :
      (v n : ℕ)
      → Platform.is_canonical p (v + n) ≡ true
      → v + n < u64_mod
      → virt_add v n ≡ returned (v + n)
  pub virt_sub : ℕ → ℕ → Run ℕ
  pub virt_sub_lem :
      (v n : ℕ) → n ≤ v → Platform.is_canonical p (v - n) ≡ true → virt_sub v n ≡ returned (v - n)
  pub empty_flags : Platform.Flags p
  pub address : Platform.PhysFrame p → ℕ
  pub address_aligned : (f : Platform.PhysFrame p) → address f % 4096 ≡ 0
  pub address_injective : (f g : Platform.PhysFrame p) → address f ≡ address g → f ≡ g
  pub translate_addr : Platform.PhysFrame p → ℕ → Tables p → Option ℕ
  pub translate_offset :
      (s : Platform.PhysFrame p) (page o a : ℕ) (m : Tables p)
      → translate_addr s (4096 * page) m ≡ some a
      → o < 4096
      → translate_addr s (4096 * page + o) m ≡ some (a + o)
  pub translate_empty :
      (s : Platform.PhysFrame p) (v : ℕ) (m : Tables p)
      → ((i : ℕ) → i < 256 → Platform.is_unused p (m s i) ≡ true)
      → v < 2 ^ 47
      → translate_addr s v m ≡ none
  pub Sound : Platform.PhysFrame p → Machine p → Type 0
  pub sound_empty :
      (s : Platform.PhysFrame p) (m : Machine p)
      → ((i : ℕ) → i < 256 → Platform.is_unused p (m.tables s i) ≡ true)
      → Sound s m
  pub sound_fresh :
      (s f : Platform.PhysFrame p) (m m' : Machine p) → Fresh p m m' f → Sound s m → Sound s m'
  pub mark_lem :
      (s : Platform.PhysFrame p) (v : ℕ) (m : Machine p)
      → Sound s m
      → v < 2 ^ 47
      → Sound s (mark p s (Platform.p4_index p v) m)
        × ((w : ℕ)
            → w < 2 ^ 47
            → translate_addr s w (mark p s (Platform.p4_index p v) m).tables
              ≡ translate_addr s w m.tables)
  pub map_to :
      Platform.PhysFrame p
      → ℕ
      → Platform.PhysFrame p
      → Platform.Flags p
      → Machine p
      → Option (Machine p)
  pub map_to_succeeds :
      (k : ℕ) (s f : Platform.PhysFrame p) (page : ℕ) (fl : Platform.Flags p) (m : Machine p)
      → Sound s m
      → page < user_pages
      → translate_addr s (4096 * page) m.tables ≡ none
      → Gives p (3 + k) m.allocator
      → (m' : Machine p) × (map_to s page f fl m ≡ some m') × Gives p k m'.allocator
  pub map_to_maps :
      (s f : Platform.PhysFrame p) (page : ℕ) (fl : Platform.Flags p) (m m' : Machine p)
      → Sound s m
      → page < user_pages
      → map_to s page f fl m ≡ some m'
      → Sound s m'
        × (translate_addr s (4096 * page) m'.tables ≡ some (address f))
        × ((q : ℕ)
            → q < user_pages
            → q ≢ page
            → translate_addr s (4096 * q) m'.tables ≡ translate_addr s (4096 * q) m.tables)
        × ((g : Platform.PhysFrame p)
            → Platform.Used p m.allocator g
            → Platform.Used p m'.allocator g)

-- `ProcessId::new`: the counter's value, and the counter after it, which wraps.
abbrev pub new_id : ℕ → ℕ × ℕ
new_id next = (next, (next + 1) % u64_mod)

-- The pages from that of the first address to that of the last.
abbrev pub page_count : ℕ → ℕ → ℕ
page_count first last = last / 4096 + 1 - first / 4096

-- The bytes of memory with `part` laid from address `d` on.
unfoldable pub lay : ℕ → List ℕ → (ℕ → ℕ) → ℕ → ℕ
lay d [] bytes a = bytes a
lay d (b ∷ part) bytes a = if d == a then b else lay (d + 1) part bytes a

-- The part of the file that `copy_nonoverlapping` reads. A read past the file's end counts as a
-- panic, as does the index out of range.
unfoldable pub file_part : Bytes → ℕ → ℕ → ℕ → Run (List ℕ)
unfolding slice
file_part elf_data file_offset offset n =
    unwrap (slice elf_data (file_offset + offset) (file_offset + offset + n))

-- `write_bytes(dest_ptr, 0, copy_size)`
abbrev pub zero_part : ℕ → ℕ → Run (List ℕ)
zero_part offset n = returned (replicate n 0)

module _ (p : Platform) (x : Mapper p) where
  open p use {PhysFrame, Flags, contains, insert, is_canonical, p4_index}
  open x use {virt_add, virt_sub, empty_flags, address, translate_addr, map_to}

  -- The lock of `Process` is left out: each operation holds it for the whole of what it reads.
  pub record ProcessInner : Type 0 where
    pub id : ℕ
    pub pml4_frame : PhysFrame
    pub entry_point : ℕ
    pub stack_top : ℕ
    pub threads : List ℕ

  abbrev pub add_thread : ℕ → ProcessInner → ProcessInner
  add_thread thread_id q = record q { threads = q.threads ++ thread_id ∷ [] }

  abbrev pub kernel_process : PhysFrame → ProcessInner
  kernel_process pml4 = record {
    id = 0;
    pml4_frame = pml4;
    entry_point = 0;
    stack_top = 0;
    threads = [];
  }

  -- Tables and data.
  pub record Memory : Type 0 where
    pub machine : Machine p
    pub bytes : ℕ → ℕ

  -- `map_to(..).expect(..)` with a new frame.
  unfoldable pub map_new : PhysFrame → Flags → ℕ → Machine p → Run (Machine p)
  map_new s flags page m = do (frame, m') ← new_table p m; unwrap (map_to s page frame flags m')

  -- The loop of `map_user_region` over `n` pages.
  unfoldable pub map_pages : PhysFrame → Flags → ℕ → ℕ → Machine p → Run (Machine p)
  map_pages s flags zero page m = returned m
  map_pages s flags (suc n) page m = do
    m' ← elim (translate_addr s (4096 * page) m.tables) [
      | none ↦ map_new s flags page m
      | some a ↦ returned m
    ]
    map_pages s flags n (page + 1) m'

  abbrev pub user_flags : Flags → Flags
  user_flags extra = insert (insert extra present) user_accessible

  -- `virt_start + size - 1u64` on addresses
  last_address : ℕ → ℕ → Run ℕ
  last_address start size = do end ← virt_add start size; virt_sub end 1

  unfoldable pub map_user_region : PhysFrame → ℕ → ℕ → Flags → Machine p → Run (Machine p)
  unfolding last_address
  map_user_region s start size extra m = do
    last ← last_address start size
    m' ← map_pages s (user_flags extra) (page_count start last) (start / 4096) m
    returned (mark p s (p4_index start) m')

  -- The loop of `map_kernel_region` over `n` pages.
  unfoldable pub map_kernel_pages : PhysFrame → Flags → ℕ → ℕ → Machine p → Run (Machine p)
  map_kernel_pages s flags zero page m = returned m
  map_kernel_pages s flags (suc n) page m = do
    m' ← map_new s flags page m
    map_kernel_pages s flags n (page + 1) m'

  unfoldable pub map_kernel_region : PhysFrame → ℕ → ℕ → Flags → Machine p → Run (Machine p)
  unfolding last_address
  map_kernel_region s start size flags m = do
    last ← last_address start size
    map_kernel_pages s (insert flags present) (page_count start last) (start / 4096) m

  -- One chunk: up to the end of the page or to `limit`. `part` gives the bytes to write from an
  -- offset on, and how many there are.
  unfoldable pub write_chunk :
      (ℕ → ℕ → Run (List ℕ)) → PhysFrame → ℕ → ℕ → ℕ → Memory → Run (ℕ × Memory)
  write_chunk part s start limit offset m = do
    chunk_virt ← virt_add start offset
    chunk_phys ← unwrap (translate_addr s chunk_virt m.machine.tables)
    let copy_size = min (limit - offset) (4096 - chunk_virt % 4096)
    written ← part offset copy_size
    returned (offset + copy_size, record m { bytes = lay chunk_phys written m.bytes })

  -- `while offset < limit`, on fuel.
  unfoldable pub write_chunks :
      (ℕ → ℕ → Run (List ℕ)) → PhysFrame → ℕ → ℕ → ℕ → ℕ → Memory → Run Memory
  write_chunks part s start limit zero offset m = returned m
  write_chunks part s start limit (suc fuel) offset m = elim (ltb offset limit) [
    | true ↦ write_chunk part s start limit offset m >>= λ (next : ℕ × Memory).
        write_chunks part s start limit fuel next.0 next.1
    | false ↦ returned m
  ]

  -- The two loops over a segment: the file's bytes, then zeros. The second starts where the first
  -- ends, at the file size.
  unfoldable pub fill_segment : Bytes → ProgramHeader → PhysFrame → ℕ → Memory → Run Memory
  fill_segment elf_data ph s start m = do
    m' ← write_chunks (file_part elf_data ph.file_offset) s start ph.file_size ph.file_size 0 m
    write_chunks zero_part s start ph.memory_size ph.memory_size ph.file_size m'

  segment_flags : ProgramHeader → Flags
  segment_flags ph =
      let flags = if bit_and ph.flags pf_w == 0 then empty_flags else insert empty_flags writable in
      if bit_and ph.flags pf_x == 0 then insert flags no_execute else flags

  -- A segment that is not empty, behind its bounds checks.
  unfoldable pub map_segment : Bytes → ProgramHeader → PhysFrame → Memory → Run Memory
  unfolding segment_flags
  map_segment elf_data ph s m = do
    start ← if is_canonical ph.virtual_address then returned ph.virtual_address else panicked
    machine ← map_user_region s start ph.memory_size (segment_flags ph) m.machine
    fill_segment elf_data ph s start (record m { machine = machine })
