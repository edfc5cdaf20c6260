-- ===== src/Process/Segments.antt =====
-- The bytes of a loaded segment (`new_from_elf` of kernel/src/process.rs).
use new_os.Base.{
  ℕ, zero, suc, ◌+◌, ◌-◌, ◌≤◌, ◌<◌, ◌≡◌, refl, ◌∙◌, none, some, length, get_elem?, take, drop,
  replicate, ltb, if◌then◌else◌, returned, lt→ltb, lt-get_elem?, length-take, length-drop,
  length-replicate, get_elem?-drop, slice-some, Bytes, arith,
}
use new_os.Elf.{ProgramHeader}
use new_os.Paging.{Platform, Machine}
use new_os.Process.{Mapper, file_part, zero_part, fill_segment}
use new_os.Process.Chunks.{IsLaid}
use new_os.Process.Filling.{Supplies, Written, Written-append, write_chunks_lem}

-- The byte at an offset of a segment: the file's byte, or zero beyond the file size.
unfoldable pub segment_byte : Bytes → ProgramHeader → ℕ → ℕ
segment_byte elf_data ph o =
    if ltb o ph.file_size
    then elim (get_elem? elf_data (ph.file_offset + o)) [ none ↦ 0 | some b ↦ b ]
    else 0

file_byte :
    (elf_data : Bytes) (ph : ProgramHeader) (o : ℕ)
    → o < ph.file_size
    → ph.file_offset + ph.file_size ≤ length elf_data
    → get_elem? elf_data (ph.file_offset + o) ≡ some (segment_byte elf_data ph o)
unfolding segment_byte
file_byte elf_data ph o low within =
    let (b, there) = lt-get_elem? elf_data (ph.file_offset + o) (omega (arith, low, within)) in
    rw (lt→ltb o ph.file_size low, there) refl

file_part-Supplies :
    (elf_data : Bytes) (ph : ProgramHeader)
    → ph.file_offset + ph.file_size ≤ length elf_data
    → Supplies (segment_byte elf_data ph) 0 ph.file_size (file_part elf_data ph.file_offset)
unfolding file_part
file_part-Supplies elf_data ph within o n low high =
    let from = ph.file_offset + o in
    let size : from + n - from ≡ n = omega arith in
    let cut = slice-some elf_data from (from + n) (omega arith) (omega (arith, high, within)) in
    (
      take (from + n - from) (drop from elf_data),
      rw cut refl,
      omega (
        arith,
        length-take {0} (from + n - from) (drop from elf_data),
        length-drop {0} from elf_data,
        high,
        within,
      ),
      λ i below.
          get_elem?-drop elf_data from (from + n - from) i (ph.file_offset + (o + i))
            (omega (arith, below)) (omega arith)
          ∙ file_byte elf_data ph (o + i) (omega (arith, below, high)) within,
    )

get_elem?-replicate : (n i a : ℕ) → i < n → get_elem? (replicate n a) i ≡ some a
get_elem?-replicate zero i a h = absurd (omega (arith, h))
get_elem?-replicate (suc n) zero a h = refl
get_elem?-replicate (suc n) (suc i) a h = get_elem?-replicate n i a (omega (arith, h))

zero_part-Supplies :
    (elf_data : Bytes) (ph : ProgramHeader)
    → Supplies (segment_byte elf_data ph) ph.file_size ph.memory_size zero_part
unfolding segment_byte
zero_part-Supplies elf_data ph o n low high = (
  replicate n 0,
  refl,
  length-replicate n 0,
  λ i below. get_elem?-replicate n i 0 below ∙ ground (arith, low),
)

module _ (p : Platform) (x : Mapper p) (s : Platform.PhysFrame p) where
  open p use {PhysFrame, is_canonical}

  module _ (elf_data : Bytes) (ph : ProgramHeader) (start : ℕ) (base : ℕ → ℕ) (m : Machine p)
      (laid : IsLaid p x s start ph.memory_size base m) (sizes : ph.file_size ≤ ph.memory_size)
      (within : ph.file_offset + ph.file_size ≤ length elf_data) where
    pub fill_segment_lem :
        (b : ℕ → ℕ)
        → (d : ℕ → ℕ) × (fill_segment p x elf_data ph s start (record { machine = m; bytes = b })
            ≡ returned (record { machine = m; bytes = d }))
          × Written p x s start ph.memory_size base m laid
              (segment_byte elf_data ph)
              0
              ph.memory_size
              b
              d
    unfolding fill_segment
    fill_segment_lem b =
        let f = segment_byte elf_data ph in
        let (c, ran, first) =
          write_chunks_lem p x s start ph.memory_size base m laid f 0 ph.file_size sizes
            (file_part elf_data ph.file_offset) (file_part-Supplies elf_data ph within) ph.file_size
            0 b (omega arith) (omega arith) in
        let (d, done, rest) =
          write_chunks_lem p x s start ph.memory_size base m laid f ph.file_size ph.memory_size
            (omega arith) zero_part (zero_part-Supplies elf_data ph) ph.memory_size ph.file_size c
            (omega arith) (omega arith) in
        (
          d,
          rw ran done,
          Written-append p x s start ph.memory_size base m laid f 0 ph.file_size ph.memory_size b c
              d (omega arith) sizes (omega arith) first rest,
        )
