-- ===== src/Process/Programs.antt =====
-- The loading of all segments of a program (`new_from_elf` of kernel/src/process.rs).
use new_os.Base.{
  ℕ, zero, suc, ◌+◌, ◌*◌, ◌≤◌, ◌<◌, ◌≡◌, refl, ◌⊎◌, inl, inr, true, false, Option, none, some, ◌==◌,
  if◌then◌else◌, ==_iff, Bytes, arith,
}
use mathlib.Core.Path.{subst}
use native.Mathlib.Decide.{ℕ_discrete}
use new_os.Elf.{ElfHeader, ProgramHeader, ok, parse_program_header}
use new_os.Paging.{Platform}
use new_os.Paging.Entries.{Gives}
use new_os.Paging.Trees.{sum_from}
use new_os.Process.{Mapper, user_pages, Memory}
use new_os.Process.Program.{load_segment, load_segments, load_header}
use new_os.Process.Mapping.{page_at, IsApart}
use new_os.Process.Loading.{IsLoadable, IsLoaded, segment_pages, load_segment_lem}
use new_os.Process.Holding.{Disjoint, Holds, IsLoaded-Holds, Holds-IsLoaded}

-- No address belongs to both, where both are segments to load.
abbrev pub DisjointHeaders : Option ProgramHeader → Option ProgramHeader → Type 0
DisjointHeaders none qh = Unit
DisjointHeaders (some ph) none = Unit
DisjointHeaders (some ph) (some qh) = Disjoint ph qh

-- Nothing to load, an empty segment, or one that can be loaded.
abbrev pub Fits : Platform → Bytes → Option ProgramHeader → Type 0
Fits p elf_data none = Unit
Fits p elf_data (some ph) = (ph.memory_size ≡ 0) ⊎ IsLoadable p elf_data ph

-- The frames that suffice for a segment.
abbrev pub frames : Option ProgramHeader → ℕ
frames none = 0
frames (some ph) = if ph.memory_size == 0 then 0 else 4 * segment_pages ph

module _ (p : Platform) (x : Mapper p) (s : Platform.PhysFrame p) (elf_data : Bytes) where
  abbrev pub HoldsHeader : Option ProgramHeader → Memory p x → Type 0
  HoldsHeader none m = Unit
  HoldsHeader (some ph) m = Holds p x s elf_data ph m

  -- What one round of the loop does.
  record Round (header : Option ProgramHeader) (m m' : Memory p x) : Type 0 where
    apart : IsApart p x s m'.machine
    older :
        (q a : ℕ)
        → q < user_pages
        → page_at p x s q m.machine ≡ some a
        → page_at p x s q m'.machine ≡ some a
    holds : HoldsHeader header m'
    keeps :
        (qh : Option ProgramHeader)
        → Fits p elf_data qh
        → DisjointHeaders qh header
        → HoldsHeader qh m
        → HoldsHeader qh m'

  Round-same :
      (ph : Option ProgramHeader) (m : Memory p x)
      → IsApart p x s m.machine
      → HoldsHeader ph m
      → Round ph m m
  Round-same ph m v h = record {
    apart = v;
    older = λ q a low there. there;
    holds = h;
    keeps = λ qh fit disjoint holds. holds;
  }

  Holds-empty :
      (ph : ProgramHeader) (m : Memory p x) → ph.memory_size ≡ 0 → Holds p x s elf_data ph m
  Holds-empty ph m empty = record { at = λ o inside. absurd (omega (arith, inside, empty)) }

  Round-loaded :
      (ph : ProgramHeader) (m m' : Memory p x)
      → IsLoadable p elf_data ph
      → IsLoaded p x s elf_data ph m m'
      → Round (some ph) m m'
  Round-loaded ph m m' fit loaded = record {
    apart = loaded.apart;
    older = loaded.maps.older;
    holds = IsLoaded-Holds p x s elf_data ph m m' loaded;
    keeps = keeps;
  }
    where
      keeps :
          (qh : Option ProgramHeader)
          → Fits p elf_data qh
          → DisjointHeaders qh (some ph)
          → HoldsHeader qh m
          → HoldsHeader qh m'
      keeps none fits disjoint holds = tt
      keeps (some qh) (inl empty) disjoint holds = Holds-empty qh m' empty
      keeps (some qh) (inr fits) disjoint holds =
          Holds-IsLoaded p x s elf_data qh ph m m' fits.region.user fit disjoint loaded holds

  round_lem :
      (k : ℕ) (ph : Option ProgramHeader) (m : Memory p x)
      → Fits p elf_data ph
      → IsApart p x s m.machine
      → Gives p (frames ph + k) m.machine.allocator
      → (m' : Memory p x) × (load_header p x elf_data ph s m ≡ ok m')
        × Round ph m m'
        × Gives p k m'.machine.allocator
  unfolding load_header load_segment
  round_lem k none m fit v gives = (
    m,
    refl,
    Round-same none m v tt,
    subst (λ c. Gives p c m.machine.allocator) (omega arith) gives,
  )
  round_lem k (some ph) m (inl empty) v gives =
      let full : (ph.memory_size == 0) ≡ true = (==_iff ph.memory_size 0).1 empty in
      let free : frames (some ph) + k ≡ k = rw full (omega arith) in
      (
        m,
        rw full refl,
        Round-same (some ph) m v (Holds-empty ph m empty),
        subst (λ c. Gives p c m.machine.allocator) free gives,
      )
  round_lem k (some ph) m (inr fit) v gives =
      let positive = fit.region.not_empty in
      let full : (ph.memory_size == 0) ≡ false = ground arith in
      let cost : frames (some ph) + k ≡ 4 * segment_pages ph + k = rw full refl in
      let (m', ran, loaded, rest) =
        load_segment_lem p x s k elf_data ph m fit v
          (subst (λ c. Gives p c m.machine.allocator) cost gives) in
      (m', ran, Round-loaded ph m m' fit loaded, rest)

  module _ (header : ElfHeader) (headers : ℕ → Option ProgramHeader) where
    -- With the program headers parsed, no error in them, no two segments with an address in common,
    -- and frames enough, the loop of `new_from_elf` ends without an error; then each segment is
    -- mapped and holds its bytes, what was loaded before keeps its own, and each page that was mapped
    -- lies where it lay.
    pub load_segments_lem :
        (k n i : ℕ) (m : Memory p x)
        → ((j : ℕ) → i ≤ j → j < i + n → parse_program_header elf_data header j ≡ ok (headers j))
        → ((j : ℕ) → i ≤ j → j < i + n → Fits p elf_data (headers j))
        → ((j l : ℕ) → i ≤ j → j < l → l < i + n → DisjointHeaders (headers j) (headers l))
        → IsApart p x s m.machine
        → Gives p (sum_from (λ j. frames (headers j)) n i + k) m.machine.allocator
        → (m' : Memory p x) × (load_segments p x elf_data header n i s m ≡ ok m')
          × IsApart p x s m'.machine
          × ((q a : ℕ)
              → q < user_pages
              → page_at p x s q m.machine ≡ some a
              → page_at p x s q m'.machine ≡ some a)
          × ((j : ℕ) → i ≤ j → j < i + n → HoldsHeader (headers j) m')
          × ((qh : Option ProgramHeader)
              → Fits p elf_data qh
              → ((j : ℕ) → i ≤ j → j < i + n → DisjointHeaders qh (headers j))
              → HoldsHeader qh m
              → HoldsHeader qh m')
          × Gives p k m'.machine.allocator
    unfolding load_segments sum_from
    load_segments_lem k zero i m parsed fits disjoint v gives = (
      m,
      refl,
      v,
      λ q a low there. there,
      λ j low high. absurd (omega (arith, low, high)),
      λ qh fit apart holds. holds,
      subst (λ c. Gives p c m.machine.allocator) (omega arith) gives,
    )
    load_segments_lem k (suc n) i m parsed fits disjoint v gives =
        let costs = λ (j : ℕ). frames (headers j) in
        let (m', ran, r, left) =
          round_lem (sum_from costs n (i + 1) + k) (headers i) m
            (fits i (omega arith) (omega arith)) v
            (subst (λ c. Gives p c m.machine.allocator) (omega arith) gives) in
        let (o, done, v', older, holds, keeps, rest) =
          load_segments_lem k n (i + 1) m'
            (λ j low high. parsed j (omega (arith, low)) (omega (arith, high)))
            (λ j low high. fits j (omega (arith, low)) (omega (arith, high)))
            (λ j l low lt high. disjoint j l (omega (arith, low)) lt (omega (arith, high))) r.apart
            left in
        (
          o,
          rw (parsed i (omega arith) (omega arith), ran) done,
          v',
          λ q a low there. older q a low (r.older q a low there),
          λ j low high. elim (ℕ_discrete i j) [
            | yes here ↦
                subst (λ j. HoldsHeader (headers j) o) here
                  (keeps (headers i) (fits i (omega arith) (omega arith))
                    (λ l low high.
                      disjoint i l (omega arith) (omega (arith, low)) (omega (arith, high)))
                    r.holds)
            | no there ↦ holds j (ground (arith, there)) (omega (arith, high))
          ],
          λ qh fit apart h.
              keeps qh fit (λ j low high. apart j (omega (arith, low)) (omega (arith, high)))
                (r.keeps qh fit (apart i (omega arith) (omega arith)) h),
          rest,
        )
