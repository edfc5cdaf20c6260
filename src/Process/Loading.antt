-- ===== src/Process/Loading.antt =====
-- The loading of a segment into the space of a process (`new_from_elf` of kernel/src/process.rs).
use new_os.Base.{
  ℕ, ◌+◌, ◌*◌, ◌/◌, ◌%◌, ◌≤◌, ◌<◌, ◌≡◌, ◌≢◌, refl, sym, ap, ◌∙◌, true, false, Option, none, some,
  length, ltb, ◌==◌, returned, u64_mod, lt→ltb, Bytes, arith,
}
use new_os.Elf.{ProgramHeader, ok}
use new_os.Paging.{Platform, Machine}
use new_os.Paging.Entries.{Gives}
use new_os.Process.{Mapper, user_pages, Memory, map_segment, segment_flags}
use new_os.Process.Program.{of_run, load_segment}
use new_os.Process.Mapping.{page_at, IsApart, Maps}
use new_os.Process.Regions.{IsRegion, region_pages, map_user_region_lem}
use new_os.Process.Chunks.{IsLaid, place, translate_place}
use new_os.Process.Segments.{segment_byte, fill_segment_lem}

-- A segment that lies in the user half, and whose bytes lie in the file.
pub record IsLoadable (p : Platform) (elf_data : Bytes) (ph : ProgramHeader) : Type 0 where
  pub sizes : ph.file_size ≤ ph.memory_size
  pub within : ph.file_offset + ph.file_size ≤ length elf_data
  pub small : length elf_data < u64_mod
  pub region : IsRegion p ph.virtual_address ph.memory_size
  pub canonical :
      (o : ℕ) → o < ph.memory_size → Platform.is_canonical p (ph.virtual_address + o) ≡ true

abbrev pub segment_pages : ProgramHeader → ℕ
segment_pages ph = region_pages ph.virtual_address ph.memory_size

module _ (p : Platform) (x : Mapper p) (s : Platform.PhysFrame p) where
  open p use {PhysFrame, is_canonical}

  -- What stands after a segment has been loaded.
  pub record IsLoaded (elf_data : Bytes) (ph : ProgramHeader) (m m' : Memory p x) : Type 0 where
    pub apart : IsApart p x s m'.machine
    pub maps : Maps p x s (ph.virtual_address / 4096) (segment_pages ph) m.machine m'.machine
    pub holds :
        (o : ℕ)
        → o < ph.memory_size
        → (a : ℕ) × (x.translate_addr s (ph.virtual_address + o) m'.machine.tables ≡ some a)
          × (m'.bytes a ≡ segment_byte elf_data ph o)
    pub others :
        (a : ℕ)
        → ((o : ℕ)
            → o < ph.memory_size
            → x.translate_addr s (ph.virtual_address + o) m'.machine.tables ≢ some a)
        → m'.bytes a ≡ m.bytes a

  -- Where a page lies.
  base_of : Option ℕ → ℕ
  base_of none = 0
  base_of (some a) = a

  page_base : Machine p → ℕ → ℕ
  page_base m q = base_of (page_at p x s q m)

  module _ (elf_data : Bytes) (ph : ProgramHeader) (fit : IsLoadable p elf_data ph)
      (l m : Machine p) (apart : IsApart p x s m)
      (maps : Maps p x s (ph.virtual_address / 4096) (segment_pages ph) l m) where
    page_mapped :
        (o : ℕ)
        → o < ph.memory_size
        → (a : ℕ) × (page_at p x s ((ph.virtual_address + o) / 4096) m ≡ some a)
          × (page_base m ((ph.virtual_address + o) / 4096) ≡ a)
    unfolding page_base base_of
    page_mapped o inside =
        let (a, there) =
          maps.mapped ((ph.virtual_address + o) / 4096) (omega arith) (omega (arith, inside)) in
        (a, there, rw there refl)

    page_low : (o : ℕ) → o < ph.memory_size → (ph.virtual_address + o) / 4096 < user_pages
    page_low o inside = let user = fit.region.user in omega (arith, user, inside)

    laid : IsLaid p x s ph.virtual_address ph.memory_size (page_base m) m
    laid = record {
      fits = let user = fit.region.user in omega (arith, user);
      canonical = fit.canonical;
      mapped = λ o inside.
          let (a, there, same) = page_mapped o inside in there ∙ ap (λ (a : ℕ). some a) (sym same);
      aligned = λ o inside.
          let (a, there, same) = page_mapped o inside in
          let (f, at, used) =
            apart.lands ((ph.virtual_address + o) / 4096) a (page_low o inside) there in
          ap (λ (a : ℕ). a % 4096) (same ∙ at) ∙ x.address_aligned f;
      apart = λ o u in_o in_u e.
          let (a, at_o, same_o) = page_mapped o in_o in
          let (b, at_u, same_u) = page_mapped u in_u in
          let eq : b ≡ a = sym same_u ∙ sym e ∙ same_o in
          apart.apart ((ph.virtual_address + o) / 4096) ((ph.virtual_address + u) / 4096) a
            (page_low o in_o) (page_low u in_u) at_o (at_u ∙ ap (λ (a : ℕ). some a) eq);
    }

  map_segment_lem :
      (k : ℕ) (elf_data : Bytes) (ph : ProgramHeader) (m : Memory p x)
      → IsLoadable p elf_data ph
      → IsApart p x s m.machine
      → Gives p (4 * segment_pages ph + k) m.machine.allocator
      → (m' : Memory p x) × (map_segment p x elf_data ph s m ≡ returned m')
        × IsLoaded elf_data ph m m'
        × Gives p k m'.machine.allocator
  unfolding map_segment
  map_segment_lem k elf_data ph m fit v gives =
      let v0 = ph.virtual_address in
      let zero_off : v0 + 0 ≡ v0 = omega arith in
      let positive = fit.region.not_empty in
      let start_ok : is_canonical v0 ≡ true =
        ap is_canonical (sym zero_off) ∙ fit.canonical 0 positive in
      let (n, ran, v', maps, rest) =
        map_user_region_lem p x s k v0 ph.memory_size (segment_flags p x ph) m.machine fit.region v
          gives in
      let here = laid elf_data ph fit m.machine n v' maps in
      let (d, done, w) =
        fill_segment_lem p x s elf_data ph v0 (page_base n) n here fit.sizes fit.within m.bytes in
      (
        record { machine = n; bytes = d },
        rw (start_ok, ran) done,
        record {
          apart = v';
          maps = maps;
          holds = λ o inside. (
            place (page_base n) (v0 + o),
            translate_place p x s v0 ph.memory_size (page_base n) n here o inside,
            w.inside o (omega arith) inside,
          );
          others = λ a far. w.outside a (λ o low inside same. far o inside (
              translate_place p x s v0 ph.memory_size (page_base n) n here o inside
              ∙ ap (λ (a : ℕ). some a) (sym same)));
        },
        rest,
      )

  -- Of a segment in the user half, whose bytes lie in the file, with four frames left for each of
  -- its pages and no two user pages on the same frame: `new_from_elf` loads it without an error. Then
  -- each of its addresses is mapped and holds the file's byte, or zero beyond the file size; every
  -- byte of physical memory where no address of the segment lies is what it was; pages that were
  -- mapped before lie where they lay, and still no two user pages lie on the same frame.
  pub load_segment_lem :
      (k : ℕ) (elf_data : Bytes) (ph : ProgramHeader) (m : Memory p x)
      → IsLoadable p elf_data ph
      → IsApart p x s m.machine
      → Gives p (4 * segment_pages ph + k) m.machine.allocator
      → (m' : Memory p x) × (load_segment p x elf_data ph s m ≡ ok m')
        × IsLoaded elf_data ph m m'
        × Gives p k m'.machine.allocator
  unfolding load_segment of_run
  load_segment_lem k elf_data ph m fit v gives =
      let (m', ran, loaded, rest) = map_segment_lem k elf_data ph m fit v gives in
      let positive = fit.region.not_empty in
      let within = fit.within in
      let small = fit.small in
      let full : (ph.memory_size == 0) ≡ false = ground arith in
      let sum : ltb (ph.file_offset + ph.file_size) u64_mod ≡ true =
        lt→ltb _ _ (omega (arith, within, small)) in
      let inside : ltb (length elf_data) (ph.file_offset + ph.file_size) ≡ false = ground arith in
      (m', rw (full, sum, inside, ran) refl, loaded, rest)
