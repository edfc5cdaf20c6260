-- ===== src/Heap/Allocate.antt =====
-- `allocate` and `deallocate` of kernel/src/memory/allocator/linked_list.rs.
use new_os.Base.{
  ℕ, zero, suc, ◌+◌, ◌-◌, ◌*◌, ◌/◌, ◌%◌, ◌^◌, ◌≤◌, ◌<◌, max, ◌≡◌, refl, ap, ◌∙◌, ◌⊎◌, inl, inr,
  arith, true, false, some, List, ◌∷◌, ltb, lt→ltb, Run, returned, u64_mod,
}
use native.Mathlib.Nat.{pow-le-pow_right}
use new_os.Heap.{Layout, Region, size_align, carve, allocate, deallocate, end_addr}
use new_os.Heap.Align.{IsAligned, IsAligned-pow, rounded, rounded_bounds, rounded-IsAligned}
use new_os.Heap.Cover.{in_block, covers, in_block_split}
use new_os.Heap.LinkedList.{
  IsRegion, AreRegions, IsLayout, Fit, FindResult, find_region_lem, add_free_region_lem,
}

-- The alignment and the size that a layout is given.
abbrev pub exponent_of : ℕ → ℕ
exponent_of k = max k 3

unfoldable pub block_size : Layout → ℕ
block_size l = max (rounded l.size (max l.align 8)) 16

align_of : (k : ℕ) → max (2 ^ k) 8 ≡ 2 ^ exponent_of k
align_of zero = refl
align_of (suc zero) = refl
align_of (suc (suc zero)) = refl
align_of (suc (suc (suc k))) =
    let big : 2 ^ 3 ≤ 2 ^ suc (suc (suc k)) =
      pow-le-pow_right {n = 2} (omega arith) {i = 3} {j = suc (suc (suc k))} (omega arith) in
    let same : max (suc (suc (suc k))) 3 ≡ suc (suc (suc k)) = omega arith in
    omega (arith, big, ap (λ (n : ℕ). 2 ^ n) same)

align_lem : (l : Layout) (h : IsLayout l) → max l.align 8 ≡ 2 ^ exponent_of h.exponent
align_lem l h = ap (λ (n : ℕ). max n 8) h.align ∙ align_of h.exponent

size_align_lem :
    (l : Layout) (h : IsLayout l)
    → size_align l ≡ returned (block_size l, 2 ^ exponent_of h.exponent)
unfolding size_align block_size rounded
size_align_lem l h =
    let small : 2 ^ h.exponent ≤ 2 ^ 32 = pow-le-pow_right {n = 2} (omega arith) h.exponent-le in
    let bound : l.size + max l.align 8 ≤ 2 ^ 63 = omega (arith, small, h.align, h.size) in
    let fits : ltb (2 ^ 63) (l.size + max l.align 8) ≡ false = ground (arith, bound) in
    rw fits (
      ap
        (λ (n : ℕ).
          returned (max ((l.size + (max l.align 8 - 1)) / max l.align 8 * max l.align 8) 16, n))
        (align_lem l h))

multiple-mod : (x : ℕ) → IsAligned x (2 ^ 3) → x % 8 ≡ 0
multiple-mod x (q, e) = omega (arith, e)

-- A multiple of a power of two that is at least 8.
aligned_node : (x k : ℕ) → IsAligned x (2 ^ exponent_of k) → x % 8 ≡ 0
aligned_node x k h = multiple-mod x (IsAligned-pow x (exponent_of k) 3 (omega arith) h)

-- The block holds what was asked for, and a node; its end is as aligned as a node has to be.
pub block_size_lem :
    (l : Layout) (h : IsLayout l)
    → (l.size ≤ block_size l) × (16 ≤ block_size l) × (block_size l % 8 ≡ 0)
unfolding block_size
block_size_lem l h =
    let pos : 0 < max l.align 8 = omega arith in
    let low = rounded_bounds l.size (max l.align 8) pos in
    let aligned : rounded l.size (2 ^ exponent_of h.exponent) % 8 ≡ 0 =
      aligned_node _ h.exponent (rounded-IsAligned l.size (2 ^ exponent_of h.exponent)) in
    let aligned' : rounded l.size (max l.align 8) % 8 ≡ 0 =
      ap (λ (n : ℕ). rounded l.size n % 8) (align_lem l h) ∙ aligned in
    (omega (arith, low), omega arith, omega (arith, aligned'))

-- What `allocate` comes to: nothing fits, or a block of free memory is free no more.
unfoldable pub Allocates : (l : Layout) → IsLayout l → List Region → Run (ℕ × List Region) → Type 0
Allocates l h rs result =
    (result ≡ returned (0, rs))
    ⊎ ((p : ℕ) × (rs' : List Region) × (result ≡ returned (p, rs'))
        × AreRegions rs'
        × IsRegion p (block_size l)
        × IsAligned p (2 ^ exponent_of h.exponent)
        × ((a : ℕ) → in_block a p (block_size l) + covers a rs' ≤ covers a rs))

module _ (l : Layout) (h : IsLayout l) (rs rest : List Region) (r : Region) (start : ℕ)
    (region : IsRegion r.addr r.size) (fit : Fit r (block_size l) (exponent_of h.exponent) start)
    (regions : AreRegions rest)
    (same : (a : ℕ) → in_block a r.addr r.size + covers a rest ≡ covers a rs) where
  block : IsRegion start (block_size l)
  block =
      let (size, node, multiple) = block_size_lem l h in
      record {
        positive = omega (arith, region.positive, fit.low);
        aligned = aligned_node start h.exponent fit.aligned;
        node_fits = node;
        limit = omega (arith, region.limit, fit.high);
      }

  carve_whole :
      start + block_size l ≡ r.addr + r.size
      → Allocates l h rs (carve (block_size l) (some (r, start), rest))
  unfolding carve end_addr Allocates
  carve_whole whole =
      let end_fits : ltb (start + block_size l) u64_mod ≡ true =
        lt→ltb _ _ (omega (arith, region.limit, fit.high)) in
      let region_fits : ltb (r.addr + r.size) u64_mod ≡ true =
        lt→ltb _ _ (omega (arith, region.limit)) in
      inr (
        start,
        rest,
        ground (arith, end_fits, region_fits),
        regions,
        block,
        fit.aligned,
        λ a.
            omega
              (arith, same a, in_block_split a r.addr r.size start (block_size l) fit.low fit.high),
      )

  carve_part :
      start + block_size l + 16 ≤ r.addr + r.size
      → Allocates l h rs (carve (block_size l) (some (r, start), rest))
  unfolding carve end_addr Allocates
  carve_part part =
      let (size, node, multiple) = block_size_lem l h in
      let alloc_end = start + block_size l in
      let excess = r.addr + r.size - alloc_end in
      let end_fits : ltb alloc_end u64_mod ≡ true =
        lt→ltb _ _ (omega (arith, region.limit, fit.high)) in
      let region_fits : ltb (r.addr + r.size) u64_mod ≡ true =
        lt→ltb _ _ (omega (arith, region.limit)) in
      let left : IsRegion alloc_end excess = record {
        positive = omega (arith, block.positive);
        aligned = omega (arith, block.aligned, multiple);
        node_fits = omega (arith, part);
        limit = omega (arith, region.limit, part);
      } in
      inr (
        start,
        record { addr = alloc_end; size = excess } ∷ rest,
        ground (arith, end_fits, region_fits, part, add_free_region_lem alloc_end excess rest left),
        (left, regions),
        block,
        fit.aligned,
        λ a.
            omega
              (arith, same a, in_block_split a r.addr r.size start (block_size l) fit.low fit.high),
      )

  carve_lem : Allocates l h rs (carve (block_size l) (some (r, start), rest))
  carve_lem = elim fit.rest [ inl whole ↦ carve_whole whole | inr part ↦ carve_part part ]

-- On well-formed regions and a layout of at most 2^62 bytes with an alignment up to 2^32, `allocate`
-- does not panic: it returns null and keeps the regions, or takes a block out of free memory that has
-- the size and the alignment and is covered by no region left.
pub allocate_lem :
    (l : Layout) (h : IsLayout l) (rs : List Region)
    → AreRegions rs
    → Allocates l h rs (allocate l rs)
unfolding allocate FindResult
allocate_lem l h rs regions =
    rw (size_align_lem l h)
      (elim (find_region_lem rs (exponent_of h.exponent) (block_size l) regions
        (omega (arith, h.exponent-le))) [
          | inl e ↦ (unfold Allocates carve in inl (rw e refl))
          | inr (r, start, rest, e, region, fit, left, same) ↦
              rw e (carve_lem l h rs rest r start region fit left same)
        ])

-- What `deallocate` does with a block that `allocate` could have handed out.
pub deallocate_lem :
    (l : Layout) (h : IsLayout l) (p : ℕ) (rs : List Region)
    → IsRegion p (block_size l)
    → deallocate p l rs ≡ returned (record { addr = p; size = block_size l } ∷ rs)
unfolding deallocate
deallocate_lem l h p rs block =
    rw (size_align_lem l h) (add_free_region_lem p (block_size l) rs block)
