-- ===== src/Loader/Image.antt =====
-- `load_kernel` (boot/uefi-loader/src/elf.rs) as a whole: what the pages of the kernel hold.
use new_os.Base.{
  ℕ, zero, suc, ◌+◌, ◌-◌, ◌*◌, ◌/◌, ◌≤◌, ◌<◌, ◌≡◌, refl, ap, ◌∙◌, arith, not, Option, none, some,
  List, [], ◌∷◌, All, ltb, ◌==◌, length, length-replicate, replicate, get_elem?, Bytes, checked_mul,
  u64_mod,
}
use Prim.Native.Nat.{bit_and}
use new_os.Loader.{
  LoadError, LoadedKernel, ElfHeader, ProgramHeader, or_panic, fail_if, parse_header,
  parse_program_header, Extent, no_extent, survey, copy_segment, copy_segments, Allocation, refused,
  allocated, physical_pages, load_extent, load_kernel,
}
use new_os.Loader.Answers.{
  Answers, answer, refusal, Answers-bind, Answers-same, Answers-weaken, Answers-or_panic,
  Answers-fail_if,
}
use new_os.Loader.Headers.{parse_program_header-Answers, IsAccepted, parse_header-Answers}
use new_os.Loader.Survey.{segment_list, added, listed-ok, Within, Extends, survey-Answers}
use new_os.Loader.Copies.{loaded_byte, Copied, copy_segment-Answers}

Copied-trans :
    (image : Bytes) (virtual_base : ℕ) (found : Option ProgramHeader) (rest : List ProgramHeader)
    (p q r : Bytes)
    → Copied image virtual_base (added found []) p q
    → Copied image virtual_base rest q r
    → Copied image virtual_base (added found rest) p r
unfolding loaded_byte
Copied-trans image virtual_base none rest p q r first later = record {
  same_length = later.same_length ∙ first.same_length;
  bytes = λ a above. later.bytes a above ∙ ap (loaded_byte image rest a) (first.bytes a above);
}
Copied-trans image virtual_base (some s) rest p q r first later = record {
  same_length = later.same_length ∙ first.same_length;
  bytes = λ a above. later.bytes a above ∙ ap (loaded_byte image rest a) (first.bytes a above);
}

pub All-first :
    (P : ProgramHeader → Type 0) (found : Option ProgramHeader) (rest : List ProgramHeader)
    → All P (added found rest)
    → All P (added found [])
All-first P none rest h = tt
All-first P (some s) rest h = (h.0, tt)

pub All-rest :
    (P : ProgramHeader → Type 0) (found : Option ProgramHeader) (rest : List ProgramHeader)
    → All P (added found rest)
    → All P rest
All-rest P none rest h = h
All-rest P (some s) rest h = h.1

pub copy_segments-Answers :
    (image : Bytes) (header : ElfHeader) (x : Extent) (base n index : ℕ) (pages : Bytes)
    → x.virtual_end - x.virtual_base ≤ length pages
    → base + length pages < u64_mod
    → All (Within x) (segment_list image header n index)
    → Answers
        (Copied image x.virtual_base (segment_list image header n index) pages)
        (copy_segments image header x.virtual_base base n index pages)
unfolding copy_segments segment_list loaded_byte
copy_segments-Answers image header x base zero index pages room limit within =
    answer pages (record { same_length = refl; bytes = λ a above. refl })
copy_segments-Answers image header x base (suc n) index pages room limit within =
    let m = parse_program_header image header index in
    let rest = segment_list image header n (suc index) in
    Answers-bind m (Answers-same m (parse_program_header-Answers image header index))
      (λ found (fits, parsed).
        let within' : All (Within x) (added found rest) =
          rw (← listed-ok m found rest parsed) within in
        Answers-bind (copy_segment image x.virtual_base base pages found)
          (copy_segment-Answers image x.virtual_base base pages x found refl room limit
            (All-first (Within x) found rest within'))
          (λ pages' first.
            Answers-weaken
              (copy_segments-Answers image header x base n (suc index) pages'
                (omega (arith, room, first.same_length)) (omega (arith, limit, first.same_length))
                (All-rest (Within x) found rest within'))
              (λ pages'' later.
                rw (listed-ok m found rest parsed)
                  (Copied-trans image x.virtual_base found rest pages pages' pages'' first later))))

-- The pages that the firmware hands out end below the largest address.
abbrev pub AllocatesBelow : (ℕ → Allocation) → Type 0
AllocatesBelow allocate_pages =
    (n address : ℕ) → allocate_pages n ≡ allocated address → address + n * 4096 < u64_mod

-- A kernel in its pages: every loadable segment of the file lies in the image with all its memory,
-- and the bytes of the pages are those of the segments, and zeros elsewhere.
pub record IsLoaded (allocate_pages : ℕ → Allocation) (image : Bytes) (header : ElfHeader)
    (kernel : LoadedKernel) (pages : Bytes) : Type 0 where
  pub entry_point : kernel.entry_point ≡ header.entry_point
  pub segments : List ProgramHeader
  pub all_segments : segments ≡ segment_list image header header.program_header_count 0
  pub some_segment : 0 < length segments
  pub page_count : ℕ
  pub enough : kernel.image_size ≤ page_count * 4096
  pub allocation : allocate_pages page_count ≡ allocated kernel.physical_base
  pub size : length pages ≡ page_count * 4096
  pub inside :
      All
        (λ s.
          (kernel.virtual_base ≤ s.virtual_address)
          × (s.virtual_address + s.memory_size ≤ kernel.virtual_base + kernel.image_size))
        segments
  pub bytes :
      (address : ℕ)
      → kernel.virtual_base ≤ address
      → address < kernel.virtual_base + length pages
      → get_elem? pages (address - kernel.virtual_base)
        ≡ loaded_byte image segments address (some 0)

get_elem?-replicate : (n i : ℕ) → i < n → get_elem? {A = ℕ} (replicate n 0) i ≡ some 0
get_elem?-replicate zero i h = absurd (omega arith)
get_elem?-replicate (suc n) zero h = refl
get_elem?-replicate (suc n) (suc i) h = get_elem?-replicate n i (omega arith)

All-weaken :
    (P Q : ProgramHeader → Type 0) (xs : List ProgramHeader)
    → ((s : ProgramHeader) → P s → Q s)
    → All P xs
    → All Q xs
All-weaken P Q [] f h = tt
All-weaken P Q (s ∷ xs) f h = (f s h.0, All-weaken P Q xs f h.1)

physical_pages-Answers : (a : Allocation) → Answers (λ base. a ≡ allocated base) (physical_pages a)
unfolding physical_pages
physical_pages-Answers (refused status) = refusal (LoadError.allocation_failed status)
physical_pages-Answers (allocated base) = answer base refl

module _ (allocate_pages : ℕ → Allocation) (below : AllocatesBelow allocate_pages)
    (image : Bytes) where
  pub load_extent-Answers :
      (header : ElfHeader) (x : Extent)
      → Extends no_extent (segment_list image header header.program_header_count 0) x
      → Answers
          (λ r. IsLoaded allocate_pages image header r.0 r.1)
          (load_extent allocate_pages image header x)
  unfolding load_extent
  load_extent-Answers header x extends =
      let segments = segment_list image header header.program_header_count 0 in
      let size = x.virtual_end - x.virtual_base in
      let page_count = (size + 4095) / 4096 in
      Answers-bind (fail_if (x.loadable == 0) _) (Answers-fail_if _ _) (λ _ some_loadable.
        Answers-bind (fail_if (not (bit_and x.virtual_base 0xFFF == 0)) _) (Answers-fail_if _ _)
          (λ _ _.
            Answers-bind (fail_if (ltb x.virtual_end x.virtual_base) _) (Answers-fail_if _ _)
              (λ _ ordered.
                Answers-bind (physical_pages (allocate_pages page_count)) (physical_pages-Answers _)
                  (λ base allocation.
                    let limit : base + page_count * 4096 < u64_mod =
                      below page_count base allocation in
                    let no_overflow : checked_mul page_count 4096 ≡ some (page_count * 4096) =
                      ground arith in
                    Answers-bind (or_panic (checked_mul page_count 4096))
                      (Answers-or_panic _ _ no_overflow)
                      (λ page_bytes total.
                        let all_bytes : length {A = ℕ} (replicate page_bytes 0) ≡ page_bytes =
                          length-replicate page_bytes 0 in
                        let zeros : length {A = ℕ} (replicate page_bytes 0) ≡ page_count * 4096 =
                          all_bytes ∙ total in
                        let room : size ≤ length (replicate page_bytes 0) = omega (arith, zeros) in
                        Answers-bind
                          (copy_segments image header x.virtual_base base
                            header.program_header_count 0 (replicate page_bytes 0))
                          (copy_segments-Answers image header x base header.program_header_count 0
                            (replicate page_bytes 0) room (omega (arith, limit, zeros)) extends.all)
                          (λ pages copied. answer _ (record {
                            entry_point = refl;
                            segments = segments;
                            all_segments = refl;
                            some_segment = ground (arith, extends.loadable);
                            page_count = page_count;
                            enough = omega arith;
                            allocation = allocation;
                            size = copied.same_length ∙ zeros;
                            inside =
                                All-weaken (Within x) _ segments
                                  (λ s within.
                                    (within.low, ground (arith, within.low, within.high)))
                                  extends.all;
                            bytes = λ a low high.
                                copied.bytes a low
                                ∙ ap (loaded_byte image segments a) (
                                    get_elem?-replicate page_bytes (a - x.virtual_base)
                                      (omega (arith, high, copied.same_length, all_bytes)));
                          })))))))

  -- On any file shorter than 2^64 bytes, with a firmware whose pages end below the largest address,
  -- `load_kernel` returns an error, or the header is as it has to be and the pages hold the kernel: it
  -- does not panic, and never copies from outside the file or to outside the pages.
  pub load_kernel_lem :
      length image < u64_mod
      → Answers
          (λ r.
            (header : ElfHeader) × IsAccepted image header
            × IsLoaded allocate_pages image header r.0 r.1)
          (load_kernel allocate_pages image)
  unfolding load_kernel
  load_kernel_lem small =
      Answers-bind (parse_header image) (parse_header-Answers image small) (λ header accepted.
        Answers-bind (survey image header header.program_header_count 0 no_extent)
          (survey-Answers image header header.program_header_count 0 no_extent)
          (λ x extends.
            Answers-weaken (load_extent-Answers header x extends)
              (λ r loaded. (header, accepted, loaded))))
