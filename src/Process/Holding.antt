-- ===== src/Process/Holding.antt =====
-- Segments that keep their bytes while others are loaded (`new_from_elf` of
-- kernel/src/process.rs).
use new_os.Base.{ℕ, ◌+◌, ◌*◌, ◌/◌, ◌%◌, ◌≤◌, ◌<◌, ◌≡◌, ◌≢◌, sym, ap, ◌∙◌, some, Bytes, arith}
use mathlib.Core.Path.{subst}
use new_os.Elf.{ProgramHeader}
use new_os.Paging.{Platform, Machine}
use new_os.Process.{Mapper, user_pages, Memory}
use new_os.Process.Mapping.{page_at, IsApart}
use new_os.Process.Segments.{segment_byte}
use new_os.Process.Loading.{IsLoadable, IsLoaded}

-- No address belongs to both segments.
abbrev pub Disjoint : ProgramHeader → ProgramHeader → Type 0
Disjoint ph qh =
    (o u : ℕ)
    → o < ph.memory_size
    → u < qh.memory_size
    → ph.virtual_address + o ≢ qh.virtual_address + u

module _ (p : Platform) (x : Mapper p) (s : Platform.PhysFrame p) where
  open x use {translate_addr}

  -- Each address of the segment is mapped, and the byte that it leads to is the segment's.
  pub record Holds (elf_data : Bytes) (ph : ProgramHeader) (m : Memory p x) : Type 0 where
    pub at :
        (o : ℕ)
        → o < ph.memory_size
        → (b : ℕ) × (page_at p x s ((ph.virtual_address + o) / 4096) m.machine ≡ some b)
          × (m.bytes (b + (ph.virtual_address + o) % 4096) ≡ segment_byte elf_data ph o)

  -- The translation of an address whose page is mapped.
  translate_page :
      (v b : ℕ) (m : Machine p)
      → page_at p x s (v / 4096) m ≡ some b
      → translate_addr s v m.tables ≡ some (b + v % 4096)
  translate_page v b m there =
      let split : 4096 * (v / 4096) + v % 4096 ≡ v = omega arith in
      subst (λ w. translate_addr s w m.tables ≡ some (b + v % 4096)) split
        (x.translate_offset s (v / 4096) (v % 4096) b m.tables there (omega arith))

  pub IsLoaded-Holds :
      (elf_data : Bytes) (ph : ProgramHeader) (m m' : Memory p x)
      → IsLoaded p x s elf_data ph m m'
      → Holds elf_data ph m'
  IsLoaded-Holds elf_data ph m m' loaded = record { at = at }
    where
      at :
          (o : ℕ)
          → o < ph.memory_size
          → (b : ℕ) × (page_at p x s ((ph.virtual_address + o) / 4096) m'.machine ≡ some b)
            × (m'.bytes (b + (ph.virtual_address + o) % 4096) ≡ segment_byte elf_data ph o)
      at o inside =
          let v = ph.virtual_address + o in
          let (b, there) = loaded.maps.mapped (v / 4096) (omega arith) (omega (arith, inside)) in
          let (a, leads, byte) = loaded.holds o inside in
          let same : some a ≡ some (b + v % 4096) =
            sym leads ∙ translate_page v b m'.machine there in
          (b, there, (let e : a ≡ b + v % 4096 = cc in ap m'.bytes (sym e) ∙ byte))

  -- Two user addresses with the same place are the same.
  same_address :
      (v w b c : ℕ) (m : Machine p)
      → IsApart p x s m
      → v / 4096 < user_pages
      → w / 4096 < user_pages
      → page_at p x s (v / 4096) m ≡ some b
      → page_at p x s (w / 4096) m ≡ some c
      → b + v % 4096 ≡ c + w % 4096
      → v ≡ w
  same_address v w b c m a low_v low_w at_v at_w same =
      let (f, is_f, _) = a.lands (v / 4096) b low_v at_v in
      let (g, is_g, _) = a.lands (w / 4096) c low_w at_w in
      let aligned_b : b % 4096 ≡ 0 = ap (λ (b : ℕ). b % 4096) is_f ∙ x.address_aligned f in
      let aligned_c : c % 4096 ≡ 0 = ap (λ (b : ℕ). b % 4096) is_g ∙ x.address_aligned g in
      let bases : c ≡ b = omega (arith, aligned_b, aligned_c, same) in
      let pages =
        a.apart (v / 4096) (w / 4096) b low_v low_w at_v (at_w ∙ ap (λ (a : ℕ). some a) bases) in
      omega (arith, bases, pages, same)

  -- A segment that was loaded before keeps its bytes when one apart from it is loaded.
  pub Holds-IsLoaded :
      (elf_data : Bytes) (ph qh : ProgramHeader) (m m' : Memory p x)
      → ph.virtual_address + ph.memory_size ≤ 4096 * user_pages
      → IsLoadable p elf_data qh
      → Disjoint ph qh
      → IsLoaded p x s elf_data qh m m'
      → Holds elf_data ph m
      → Holds elf_data ph m'
  Holds-IsLoaded elf_data ph qh m m' user fit disjoint loaded h = record { at = at }
    where
      at :
          (o : ℕ)
          → o < ph.memory_size
          → (b : ℕ) × (page_at p x s ((ph.virtual_address + o) / 4096) m'.machine ≡ some b)
            × (m'.bytes (b + (ph.virtual_address + o) % 4096) ≡ segment_byte elf_data ph o)
      at o inside =
          let v = ph.virtual_address + o in
          let (b, there, byte) = h.at o inside in
          let still = loaded.maps.older (v / 4096) b (omega (arith, user, inside)) there in
          (
            b,
            still,
            loaded.others (b + v % 4096) (λ u in_u leads.
                  let w = qh.virtual_address + u in
                  let (c, at_w) =
                    loaded.maps.mapped (w / 4096) (omega arith) (omega (arith, in_u)) in
                  let same : some (b + v % 4096) ≡ some (c + w % 4096) =
                    sym leads ∙ translate_page w c m'.machine at_w in
                  let eq : b + v % 4096 ≡ c + w % 4096 = cc in
                  let user' = fit.region.user in
                  disjoint o u inside in_u (
                    same_address v w b c m'.machine loaded.apart (omega (arith, user, inside))
                      (omega (arith, user', in_u)) still at_w eq))
                ∙ byte,
          )
