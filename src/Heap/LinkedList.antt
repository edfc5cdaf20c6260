-- ===== src/Heap/LinkedList.antt =====
-- The linked list allocator (kernel/src/memory/allocator/linked_list.rs): what it hands out lies
-- in free memory, and is not free any more.
use new_os.Base.{
  ℕ, ◌+◌, ◌-◌, ◌%◌, ◌^◌, ◌≤◌, ◌<◌, ◌≡◌, refl, ◌⊎◌, inl, inr, arith, ◌&&◌, true, false, Bool-cases,
  none, some, List, [], ◌∷◌, All, ltb, lt→ltb, Run, returned, u64_mod, ==_self, le→leb,
}
use native.Mathlib.Nat.{pow-le-pow_right, one-le-pow}
use new_os.Heap.{
  Layout, Region, Found, add_free_region, fits, alloc_from_region, place_at, found_at, find_region,
  end_addr,
}
use new_os.Heap.Align.{IsAligned, rounded, rounded_bounds, rounded-IsAligned, align_up_lem}
use new_os.Heap.Cover.{in_block, covers}

-- Free memory ends at or below this address, so that no alignment overflows.
abbrev pub max_end : ℕ
max_end = 2 ^ 64 - 2 ^ 46

pub record IsRegion (addr size : ℕ) : Type 0 where
  pub positive : 0 < addr
  pub aligned : addr % 8 ≡ 0
  pub node_fits : 16 ≤ size
  pub limit : addr + size ≤ max_end

abbrev pub AreRegions : List Region → Type 0
AreRegions = All (λ r. IsRegion r.addr r.size)

-- A power of two for the alignment, as every Layout has, and bounds on both.
pub record IsLayout (layout : Layout) : Type 0 where
  pub exponent : ℕ
  pub align : layout.align ≡ 2 ^ exponent
  pub exponent-le : exponent ≤ 32
  pub size : layout.size ≤ 2 ^ 62

pub add_free_region_lem :
    (addr size : ℕ) (rs : List Region)
    → IsRegion addr size
    → add_free_region addr size rs ≡ returned (record { addr = addr; size = size } ∷ rs)
unfolding add_free_region rounded
add_free_region_lem addr size rs h =
    let same : rounded addr 8 ≡ addr = omega (arith, h.aligned) in
    rw (
      align_up_lem addr 3 (omega arith) (omega (arith, h.limit)),
      same,
      ==_self addr,
      le→leb 16 size h.node_fits,
    )

-- Where a block is put in a region: at its place, with nothing or a whole node left behind.
pub record Fit (r : Region) (size k start : ℕ) : Type 0 where
  pub aligned : IsAligned start (2 ^ k)
  pub low : r.addr ≤ start
  pub high : start + size ≤ r.addr + r.size
  pub rest : (start + size ≡ r.addr + r.size) ⊎ (start + size + 16 ≤ r.addr + r.size)

whole_or_node :
    (region_end alloc_end : ℕ)
    → ltb region_end alloc_end ≡ false
    → (ltb 0 (region_end - alloc_end) && ltb (region_end - alloc_end) 16) ≡ false
    → (alloc_end ≡ region_end) ⊎ (alloc_end + 16 ≤ region_end)
whole_or_node region_end alloc_end within enough = ground arith

fits_cases :
    (r : Region) (k start size : ℕ)
    → IsRegion r.addr r.size
    → IsAligned start (2 ^ k)
    → r.addr ≤ start
    → (fits r start (start + size) ≡ returned none)
      ⊎ ((fits r start (start + size) ≡ returned (some start)) × Fit r size k start)
unfolding fits end_addr
fits_cases r k start size h aligned low =
    let no_overflow : ltb (r.addr + r.size) u64_mod ≡ true = lt→ltb _ _ (omega (arith, h.limit)) in
    let excess = r.addr + r.size - (start + size) in
    elim (Bool-cases (ltb (r.addr + r.size) (start + size))) [
      | inl over ↦ inl (rw (no_overflow, over) refl)
      | inr within ↦ elim (Bool-cases (ltb 0 excess && ltb excess 16)) [
        | inl small ↦ inl (rw (no_overflow, within, small) refl)
        | inr enough ↦ inr (
          rw (no_overflow, within, enough) refl,
          record {
            aligned = aligned;
            low = low;
            high = ground arith;
            rest = whole_or_node (r.addr + r.size) (start + size) within enough;
          },
        )
      ]
    ]

place_at_cases :
    (r : Region) (k start size : ℕ)
    → IsRegion r.addr r.size
    → IsAligned start (2 ^ k)
    → r.addr ≤ start
    → (place_at r size start ≡ returned none)
      ⊎ ((place_at r size start ≡ returned (some start)) × Fit r size k start)
unfolding place_at
place_at_cases r k start size h aligned low = elim (Bool-cases (ltb (start + size) u64_mod)) [
  | inr over ↦ inl (rw (place_at, over) refl)
  | inl within ↦ rw (place_at, within) (fits_cases r k start size h aligned low)
]

alloc_from_region_lem :
    (r : Region) (k size : ℕ)
    → IsRegion r.addr r.size
    → k ≤ 32
    → (alloc_from_region r size (2 ^ k) ≡ returned none)
      ⊎ ((start : ℕ) × (alloc_from_region r size (2 ^ k) ≡ returned (some start))
          × Fit r size k start)
unfolding alloc_from_region
alloc_from_region_lem r k size h le =
    let start = rounded r.addr (2 ^ k) in
    let small : 2 ^ k ≤ 2 ^ 32 = pow-le-pow_right {n = 2} (omega arith) le in
    let low = (rounded_bounds r.addr (2 ^ k) (one-le-pow k 2 (omega arith))).0 in
    let up = align_up_lem r.addr k (omega arith) (omega (arith, h.limit, small)) in
    elim (place_at_cases r k start size h (rounded-IsAligned r.addr (2 ^ k)) low) [
      | inl e ↦ inl (rw up e)
      | inr (e, fit) ↦ inr (start, rw up e, fit)
    ]

-- The search: nothing fits, or a region is taken out of the list.
unfoldable pub FindResult : List Region → ℕ → ℕ → Run Found → Type 0
FindResult rs k size found =
    (found ≡ returned (none, rs))
    ⊎ ((r : Region) × (start : ℕ) × (rest : List Region) × (found
          ≡ returned (some (r, start), rest))
        × IsRegion r.addr r.size
        × Fit r size k start
        × AreRegions rest
        × ((a : ℕ) → in_block a r.addr r.size + covers a rest ≡ covers a rs))

pub find_region_lem :
    (rs : List Region) (k size : ℕ)
    → AreRegions rs
    → k ≤ 32
    → FindResult rs k size (find_region rs size (2 ^ k))
unfolding FindResult find_region found_at
find_region_lem [] k size h le = inl refl
find_region_lem (r ∷ rs) k size h le = elim (alloc_from_region_lem r k size h.0 le) [
  | inr (start, e, fit) ↦ inr (r, start, rs, rw e refl, h.0, fit, h.1, λ a. refl)
  | inl e ↦ elim (find_region_lem rs k size h.1 le) [
    | inl rest ↦ inl (rw (e, rest) refl)
    | inr (r', start, rs', rest, hr, fit, hs, same) ↦
        inr (r', start, r ∷ rs', rw (e, rest) refl, hr, fit, (h.0, hs), λ a. omega (arith, same a))
  ]
]
