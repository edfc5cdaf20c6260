-- ===== src/Loader/Success.antt =====
-- When `load_kernel` (boot/uefi-loader/src/elf.rs) succeeds.
use new_os.Base.{
  slice-some, ℕ, zero, suc, ◌+◌, ◌-◌, ◌*◌, ◌/◌, ◌≤◌, ◌<◌, min, max, ◌≡◌, refl, ap, ◌⊎◌, inl, inr,
  arith, false, Option, none, some, List, [], ◌∷◌, ◌++◌, All, ltb, ◌==◌, length, length-replicate,
  replicate, take, drop, Bytes, checked_add, checked_mul, u64_mod,
}
use new_os.Loader.{
  LoadedKernel, ElfHeader, ProgramHeader, ok, ◌>>=◌, ok_or, or_panic, or_strays, fail_if,
  parse_header, parse_program_header, Extent, no_extent, extend, survey, copy_segment,
  copy_segments, Allocation, allocated, physical_pages, load_extent, load_kernel,
}
use new_os.Loader.Answers.{Answers, answer, Answers-bind, Answers-ok, Answers-ok_or}
use new_os.Loader.Headers.{IsPageAligned, IsSegment, parse_program_header-Answers}
use new_os.Loader.Survey.{segment_list, added, listed-ok, Within, Extends, survey-Answers}
use new_os.Loader.Copies.{copy_segment-Answers, copy_to-ok, length-source}
use new_os.Loader.Image.{AllocatesBelow, IsLoaded, load_extent-Answers, All-first, All-rest}

-- The variable `virtual_base` is that of a segment as soon as there is one.
abbrev IsSurveyed : Extent → Type 0
IsSurveyed x = ((x.loadable ≡ 0) × (x.virtual_base ≡ u64_mod - 1)) ⊎ IsPageAligned x.virtual_base

min_cases : (a b : ℕ) → (min a b ≡ a) ⊎ (min a b ≡ b)
min_cases a b = ground arith

extend-IsSurveyed :
    (x : Extent) (found : Option ProgramHeader)
    → IsSegment found
    → IsSurveyed x
    → Answers IsSurveyed (extend x found)
unfolding extend
extend-IsSurveyed x none h surveyed = answer x surveyed
extend-IsSurveyed x (some s) h surveyed =
    Answers-bind (ok_or (checked_add s.virtual_address s.memory_size) _) (Answers-ok_or _ _)
      (λ end sum.
        let below : s.virtual_address ≤ u64_mod - 1 = ground arith in
        answer _ (elim surveyed [
          | inl (first, top) ↦
              let same : min x.virtual_base s.virtual_address ≡ s.virtual_address = omega arith in
              inr (rw same h.1)
          | inr aligned ↦ elim (min_cases x.virtual_base s.virtual_address) [
            | inl left ↦ inr (rw left aligned)
            | inr right ↦ inr (rw right h.1)
          ]
        ]))

survey-IsSurveyed :
    (image : Bytes) (header : ElfHeader) (n index : ℕ) (x : Extent)
    → IsSurveyed x
    → Answers IsSurveyed (survey image header n index x)
unfolding survey
survey-IsSurveyed image header zero index x surveyed = answer x surveyed
survey-IsSurveyed image header (suc n) index x surveyed =
    Answers-bind (parse_program_header image header index)
      (parse_program_header-Answers image header index)
      (λ found segment.
        Answers-bind (extend x found) (extend-IsSurveyed x found segment surveyed)
          (λ y surveyed'. survey-IsSurveyed image header n (suc index) y surveyed'))

-- A record that is read, and is skipped or is of a segment whose memory lies between two virtual
-- addresses and whose bytes lie in the file.
abbrev pub Fits : Bytes → ℕ → ℕ → Option ProgramHeader → Type 0
Fits image low high none = Unit
Fits image low high (some s) =
    (low ≤ s.virtual_address)
    × (s.virtual_address + s.memory_size ≤ high)
    × (s.file_offset + s.file_size ≤ length image)

abbrev pub IsReadable : Bytes → ElfHeader → ℕ → ℕ → ℕ → Type 0
IsReadable image header low high index =
    (found : Option ProgramHeader) × (parse_program_header image header index ≡ ok found)
    × Fits image low high found

abbrev IsBetween : ℕ → ℕ → Extent → Type 0
IsBetween low high x = (low ≤ x.virtual_base) × (x.virtual_end ≤ high)

module _ (image : Bytes) (low high : ℕ) (limit : high < u64_mod) where
  extend-ok :
      (x : Extent) (found : Option ProgramHeader)
      → Fits image low high found
      → IsBetween low high x
      → (y : Extent) × (extend x found ≡ ok y) × IsBetween low high y
  unfolding extend ◌>>=◌ ok_or
  extend-ok x none h between = (x, refl, between)
  extend-ok x (some s) h between =
      let (above, below, in_file) = h in
      let sum : checked_add s.virtual_address s.memory_size
          ≡ some (s.virtual_address + s.memory_size) =
        ground arith in
      let y : Extent = record {
        loadable = x.loadable + 1;
        virtual_base = min x.virtual_base s.virtual_address;
        virtual_end = max x.virtual_end (s.virtual_address + s.memory_size);
      } in
      (y, rw sum refl, (omega (arith, between.0, above), omega (arith, between.1, below)))

  survey-ok :
      (header : ElfHeader) (n index : ℕ) (x : Extent)
      → ((i : ℕ) → i < index + n → IsReadable image header low high i)
      → IsBetween low high x
      → (y : Extent) × (survey image header n index x ≡ ok y) × IsBetween low high y
  unfolding survey ◌>>=◌
  survey-ok header zero index x readable between = (x, refl, between)
  survey-ok header (suc n) index x readable between =
      let (found, parsed, fits) = readable index (omega arith) in
      let (y, extended, between') = extend-ok x found fits between in
      let (z, rest, between'') =
        survey-ok header n (suc index) y (λ i h. readable i (omega (arith, h))) between' in
      (z, rw (parsed, extended) rest, between'')

copy_segment-ok :
    (image : Bytes) (low high virtual_base base : ℕ) (pages : Bytes) (x : Extent)
    (found : Option ProgramHeader)
    → x.virtual_base ≡ virtual_base
    → x.virtual_end - virtual_base ≤ length pages
    → base + length pages < u64_mod
    → length image < u64_mod
    → All (Within x) (added found [])
    → Fits image low high found
    → (pages' : Bytes) × (copy_segment image virtual_base base pages found ≡ ok pages')
unfolding copy_segment ◌>>=◌ ok_or fail_if or_panic or_strays
copy_segment-ok image low high virtual_base base pages x none start room limit small within fits =
    (pages, refl)
copy_segment-ok image low high virtual_base base pages x (some s) start room limit small within
      fits =
    let (lower, upper, in_file) = fits in
    let segment = within.0 in
    let offset = s.virtual_address - virtual_base in
    let end = s.file_offset + s.file_size in
    let sum : checked_add s.file_offset s.file_size ≡ some end = ground (arith, in_file) in
    let inside : ltb (length image) end ≡ false = ground (arith, in_file) in
    let above : ltb s.virtual_address virtual_base ≡ false = ground (arith, segment.low) in
    let place : checked_add base offset ≡ some (base + offset) =
      ground (arith, segment.fits, segment.high, segment.low) in
    let source = take (end - s.file_offset) (drop s.file_offset image) in
    let count : end - s.file_offset ≡ s.file_size = omega arith in
    let size : length source ≡ s.file_size =
      length-source image virtual_base base pages s source
        (ap (λ n. take n (drop s.file_offset image)) count) in_file in
    let copied =
      copy_to-ok base pages source offset
        (omega (arith, size, segment.fits, segment.high, segment.low)) in
    (
      take offset pages ++ source ++ drop (offset + length source) pages,
      rw (sum, inside, above, place, slice-some image s.file_offset end (omega arith) in_file)
          copied,
    )

copy_segments-ok :
    (image : Bytes) (header : ElfHeader) (low high : ℕ) (x : Extent) (base n index : ℕ)
    (pages : Bytes)
    → x.virtual_end - x.virtual_base ≤ length pages
    → base + length pages < u64_mod
    → length image < u64_mod
    → All (Within x) (segment_list image header n index)
    → ((i : ℕ) → i < index + n → IsReadable image header low high i)
    → (pages' : Bytes) × (copy_segments image header x.virtual_base base n index pages ≡ ok pages')
unfolding copy_segments segment_list ◌>>=◌
copy_segments-ok image header low high x base zero index pages room limit small within readable =
    (pages, refl)
copy_segments-ok image header low high x base (suc n) index pages room limit small within readable =
    let (found, parsed, fits) = readable index (omega arith) in
    let rest = segment_list image header n (suc index) in
    let within' : All (Within x) (added found rest) =
      rw (← listed-ok (parse_program_header image header index) found rest parsed) within in
    let first = All-first (Within x) found rest within' in
    let (pages', copied) =
      copy_segment-ok image low high x.virtual_base base pages x found refl room limit small first
        fits in
    let same =
      (Answers-ok pages'
        (copy_segment-Answers image x.virtual_base base pages x found refl room limit first)
        copied).same_length in
    let (pages'', later) =
      copy_segments-ok image header low high x base n (suc index) pages' (omega (arith, room, same))
        (omega (arith, limit, same)) small (All-rest (Within x) found rest within')
        (λ i h. readable i (omega (arith, h))) in
    (pages'', rw (parsed, copied) later)

ordered_extent :
    (x : Extent) (segments : List ProgramHeader)
    → 0 < length segments
    → All (Within x) segments
    → ltb x.virtual_end x.virtual_base ≡ false
ordered_extent x [] some_segment within = absurd (omega arith)
ordered_extent x (s ∷ segments) some_segment within = ground (arith, within.0.low, within.0.high)

module _ (allocate_pages : ℕ → Allocation) (below : AllocatesBelow allocate_pages) (image : Bytes)
    (small : length image < u64_mod) (header : ElfHeader) (low high : ℕ) (low_below : low < u64_mod)
    (limit : high < u64_mod)
    (grants : (n : ℕ)
      → n ≤ (high - low + 4095) / 4096
      → (address : ℕ) × (allocate_pages n ≡ allocated address))
    (readable : (i : ℕ) → i < header.program_header_count → IsReadable image header low high i)
    (some_segment : 0 < length (segment_list image header header.program_header_count 0)) where
  load_extent-ok :
      (x : Extent)
      → Extends no_extent (segment_list image header header.program_header_count 0) x
      → IsSurveyed x
      → IsBetween low high x
      → (r : LoadedKernel × Bytes) × (load_extent allocate_pages image header x ≡ ok r)
  unfolding load_extent ◌>>=◌ fail_if or_panic physical_pages
  load_extent-ok x extends surveyed between =
      let some_loadable : (x.loadable == 0) ≡ false = ground (arith, extends.loadable) in
      let aligned : IsPageAligned x.virtual_base = elim surveyed [
        | inl (nothing, top) ↦ absurd (omega (arith, extends.loadable))
        | inr aligned ↦ aligned
      ] in
      let ordered : ltb x.virtual_end x.virtual_base ≡ false =
        ordered_extent x (segment_list image header header.program_header_count 0) some_segment
          extends.all in
      let size = x.virtual_end - x.virtual_base in
      let page_count = (size + 4095) / 4096 in
      let (base, granted) = grants page_count (omega (arith, between.0, between.1)) in
      let below_end : base + page_count * 4096 < u64_mod = below page_count base granted in
      let no_overflow : checked_mul page_count 4096 ≡ some (page_count * 4096) = ground arith in
      let all_bytes : length {A = ℕ} (replicate (page_count * 4096) 0) ≡ page_count * 4096 =
        length-replicate (page_count * 4096) 0 in
      let (pages, copied) =
        copy_segments-ok image header low high x base header.program_header_count 0
          (replicate (page_count * 4096) 0) (omega (arith, all_bytes))
          (omega (arith, all_bytes, below_end)) small extends.all
          (λ i h. readable i (omega (arith, h))) in
      (
        (
          record {
            entry_point = header.entry_point;
            virtual_base = x.virtual_base;
            physical_base = base;
            image_size = size;
          },
          pages,
        ),
        rw (some_loadable, aligned, ordered, granted, no_overflow, copied) refl,
      )

  -- For a file shorter than 2^64 bytes whose header is accepted, with at least one loadable segment, and
  -- every record of the table readable, its segment's memory between two virtual addresses and its bytes
  -- in the file: when the firmware grants as many pages as fit between the two addresses, below the
  -- largest address, `load_kernel` succeeds, and the pages then hold the kernel.
  pub load_kernel_succeeds :
      parse_header image ≡ ok header
      → (kernel : LoadedKernel) × (pages : Bytes) × (load_kernel allocate_pages image
          ≡ ok (kernel, pages))
        × IsLoaded allocate_pages image header kernel pages
  unfolding load_kernel ◌>>=◌
  load_kernel_succeeds accepted =
      let (x, surveyed, between) =
        survey-ok image low high limit header header.program_header_count 0 no_extent
          (λ i h. readable i (omega (arith, h))) (omega (arith, low_below), (omega arith)) in
      let extends =
        Answers-ok x (survey-Answers image header header.program_header_count 0 no_extent)
          surveyed in
      let top : IsSurveyed no_extent = inl (refl, refl) in
      let base =
        Answers-ok x (survey-IsSurveyed image header header.program_header_count 0 no_extent top)
          surveyed in
      let (r, loaded) = load_extent-ok x extends base between in
      (
        r.0,
        r.1,
        rw (accepted, surveyed) loaded,
        Answers-ok r (load_extent-Answers allocate_pages below image header x extends) loaded,
      )
