-- ===== src/Heap.antt =====
-- The kernel's heap allocators (kernel/src/memory/allocator/mod.rs, linked_list.rs,
-- fixed_size_block.rs, and the constants of kernel/src/memory/heap.rs). The list of free regions
-- stands in the free memory itself; here it is a list, first node first.
pub mod Align
pub mod Cover
pub mod LinkedList
pub mod Allocate
pub mod Nodes
pub mod FixedBlocks
pub mod Release
pub mod History
pub mod Live
pub mod Tests
use Prim.Native.Nat.{bit_and}
use new_os.Base.{
  ℕ, zero, suc, ◌+◌, ◌-◌, ◌*◌, ◌/◌, ◌^◌, max, Bool, true, false, ◌&&◌, Option, none, some, List, [],
  ◌∷◌, ltb, leb, ◌==◌, if◌then◌else◌, get_elem?, set, replicate, Run, returned, panicked, ◌>>=◌,
  u64_mod, add64, sub64, checked_add, unwrap,
}

abbrev pub heap_start : ℕ
heap_start = 0xFFFF_A000_0000_0000

abbrev pub heap_size : ℕ
heap_size = 100 * 1024

-- core::alloc::Layout
pub record Layout : Type 0 where
  pub size : ℕ
  pub align : ℕ

unfoldable pub align_up : ℕ → ℕ → Run ℕ
align_up addr align = do
  above ← add64 addr align
  last ← sub64 above 1
  mask ← sub64 align 1
  returned (bit_and last (u64_mod - 1 - mask))

-- A ListNode at its address.
pub record Region : Type 0 where
  pub addr : ℕ
  pub size : ℕ

-- size_of::<ListNode>() and align_of::<ListNode>() of linked_list.rs.
abbrev pub node_size : ℕ
node_size = 16

abbrev pub node_align : ℕ
node_align = 8

unfoldable pub end_addr : Region → Run ℕ
end_addr region = add64 region.addr region.size

unfoldable pub add_free_region : ℕ → ℕ → List Region → Run (List Region)
unfolding align_up
add_free_region addr size regions = do
  aligned ← align_up addr node_align
  if aligned == addr && leb node_size size
      then returned (record { addr = addr; size = size } ∷ regions)
      else panicked

-- The part of `alloc_from_region` behind the overflow check.
unfoldable pub fits : Region → ℕ → ℕ → Run (Option ℕ)
unfolding end_addr
fits region alloc_start alloc_end = do
  region_end ← end_addr region
  let excess_size = region_end - alloc_end
  if ltb region_end alloc_end
      then returned none
      else if ltb 0 excess_size && ltb excess_size node_size
      then returned none
      else returned (some alloc_start)

-- The part behind the alignment.
unfoldable pub place_at : Region → ℕ → ℕ → Run (Option ℕ)
unfolding fits
place_at region size alloc_start = elim (checked_add alloc_start size) [
  | none ↦ returned none
  | some alloc_end ↦ fits region alloc_start alloc_end
]

unfoldable pub alloc_from_region : Region → ℕ → ℕ → Run (Option ℕ)
unfolding align_up place_at
alloc_from_region region size align = do
  alloc_start ← align_up region.addr align
  place_at region size alloc_start

abbrev pub Found : Type 0
Found = Option (Region × ℕ) × List Region

-- The step of `find_region`'s loop at a region; `rest` is the loop on the regions behind it.
unfoldable pub found_at : Region → List Region → Run Found → Option ℕ → Run Found
found_at region regions rest (some alloc_start) = returned (some (region, alloc_start), regions)
found_at region regions rest none = do (found, regions') ← rest; returned (found, region ∷ regions')

unfoldable pub find_region : List Region → ℕ → ℕ → Run Found
unfolding alloc_from_region found_at
find_region [] size align = returned (none, [])
find_region (region ∷ regions) size align =
    let rest = find_region regions size align in
    alloc_from_region region size align >>= found_at region regions rest

-- `layout.align_to(8).expect(..).pad_to_align()`, of which the first fails if the size that is
-- rounded up would exceed isize::MAX.
unfoldable pub size_align : Layout → Run (ℕ × ℕ)
size_align layout =
    let align = max layout.align node_align in
    if ltb (2 ^ 63) (layout.size + align)
    then panicked
    else returned (max ((layout.size + (align - 1)) / align * align) node_size, align)

-- The part of `allocate` behind the search.
unfoldable pub carve : ℕ → Found → Run (ℕ × List Region)
unfolding end_addr add_free_region
carve size (none, regions) = returned (0, regions)
carve size (some (region, alloc_start), regions) = do
  alloc_end ← unwrap (checked_add alloc_start size)
  region_end ← end_addr region
  excess_size ← sub64 region_end alloc_end
  if ltb 0 excess_size
      then (do
        regions' ← add_free_region alloc_end excess_size regions
        returned (alloc_start, regions'))
      else returned (alloc_start, regions)

-- The address, which is 0 for the null pointer.
unfoldable pub allocate : Layout → List Region → Run (ℕ × List Region)
unfolding size_align find_region carve
allocate layout regions = do
  (size, align) ← size_align layout
  found ← find_region regions size align
  carve size found

unfoldable pub deallocate : ℕ → Layout → List Region → Run (List Region)
unfolding size_align add_free_region
deallocate ptr layout regions = do
  (size, align) ← size_align layout
  add_free_region ptr size regions

abbrev pub block_sizes : List ℕ
block_sizes = 8 ∷ 16 ∷ 32 ∷ 64 ∷ 128 ∷ 256 ∷ 512 ∷ 1024 ∷ 2048 ∷ []

pub record FixedSizeBlockAllocator : Type 0 where
  pub list_heads : List (List ℕ)
  pub fallback_allocator : List Region

abbrev pub new : FixedSizeBlockAllocator
new = record { list_heads = replicate 9 []; fallback_allocator = [] }

unfoldable pub init : ℕ → ℕ → FixedSizeBlockAllocator → Run FixedSizeBlockAllocator
unfolding add_free_region
init start size allocator = do
  regions ← add_free_region start size allocator.fallback_allocator
  returned (record allocator { fallback_allocator = regions })

-- `BLOCK_SIZES.iter().position(|&s| s >= required)`
unfoldable pub position : List ℕ → ℕ → Option ℕ
position [] required = none
position (s ∷ sizes) required =
    let rest = position sizes required in
    if leb required s then some 0 else elim rest [ none ↦ none | some i ↦ some (suc i) ]

unfoldable pub list_index : Layout → Option ℕ
unfolding position
list_index layout = position block_sizes (max layout.size layout.align)

abbrev pub Allocated : Type 0
Allocated = Run (ℕ × FixedSizeBlockAllocator)

unfoldable pub fallback_alloc : Layout → FixedSizeBlockAllocator → Allocated
unfolding allocate
fallback_alloc layout allocator = do
  (ptr, regions) ← allocate layout allocator.fallback_allocator
  returned (ptr, record allocator { fallback_allocator = regions })

-- `alloc` at the list of an index; the two tables have that index.
unfoldable pub alloc_at : ℕ → Option (List ℕ) → Option ℕ → FixedSizeBlockAllocator → Allocated
unfolding fallback_alloc
alloc_at index none size allocator = panicked
alloc_at index (some (node ∷ rest)) size allocator =
    returned (node, record allocator { list_heads = set allocator.list_heads index rest })
alloc_at index (some []) none allocator = panicked
alloc_at index (some []) (some block_size) allocator =
    fallback_alloc (record { size = block_size; align = block_size }) allocator

unfoldable pub alloc : Layout → FixedSizeBlockAllocator → Allocated
unfolding list_index alloc_at
alloc layout allocator = elim (list_index layout) [
  | none ↦ fallback_alloc layout allocator
  | some index ↦
      alloc_at index (get_elem? allocator.list_heads index) (get_elem? block_sizes index) allocator
]

-- `dealloc` at the list of an index; a node of 8 bytes has to fit into a block.
unfoldable pub dealloc_at :
    ℕ → ℕ → Option (List ℕ) → Option ℕ → FixedSizeBlockAllocator → Run FixedSizeBlockAllocator
dealloc_at ptr index none size allocator = panicked
dealloc_at ptr index (some nodes) none allocator = panicked
dealloc_at ptr index (some nodes) (some block_size) allocator =
    if leb 8 block_size
    then returned (record allocator { list_heads = set allocator.list_heads index (ptr ∷ nodes) })
    else panicked

unfoldable pub dealloc : ℕ → Layout → FixedSizeBlockAllocator → Run FixedSizeBlockAllocator
unfolding list_index dealloc_at deallocate
dealloc ptr layout allocator = elim (list_index layout) [
  | none ↦ do
    regions ← deallocate ptr layout allocator.fallback_allocator
    returned (record allocator { fallback_allocator = regions })
  | some index ↦
      dealloc_at ptr index (get_elem? allocator.list_heads index) (get_elem? block_sizes index)
        allocator
]
