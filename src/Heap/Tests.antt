-- ===== src/Heap/Tests.antt =====
-- The kernel's heap after a few calls, on the addresses of kernel/src/memory/heap.rs.
use new_os.Base.{ℕ, ◌+◌, ◌-◌, ◌≤◌, ◌<◌, ◌≡◌, refl, ◌⊎◌, arith, some, [], ◌∷◌, returned, ◌>>=◌}
use new_os.Heap.{
  Layout, FixedSizeBlockAllocator, heap_start, heap_size, new, init, alloc, dealloc, list_index,
}
use new_os.Heap.Align.{IsAligned}
use new_os.Heap.Cover.{in_block}
use new_os.Heap.LinkedList.{IsRegion, IsLayout}
use new_os.Heap.FixedBlocks.{Block, IsHeap, reserved, free_cover}
use new_os.Heap.Release.{alloc-dealloc}
use new_os.Heap.History.{State, Reach, initialised, allocated, IsValid-Reach}
use new_os.Heap.Live.{live_apart, live_inside, alloc-Reach, dealloc-Reach}

abbrev small : Layout
small = record { size = 24; align = 8 }

abbrev large : Layout
large = record { size = 3000; align = 16 }

small_layout : IsLayout small
small_layout = record { exponent = 3; align = refl; exponent-le = omega arith; size = omega arith }

large_layout : IsLayout large
large_layout = record { exponent = 4; align = refl; exponent-le = omega arith; size = omega arith }

abbrev heap_from : ℕ → FixedSizeBlockAllocator
heap_from used = record new {
  fallback_allocator = record { addr = heap_start + used; size = heap_size - used } ∷ [];
}

abbrev small_block : Block
small_block = record { ptr = heap_start; layout = small }

abbrev large_block : Block
large_block = record { ptr = heap_start + 32; layout = large }

abbrev two_blocks : State
two_blocks = record { heap = heap_from 3040; live = large_block ∷ small_block ∷ [] }

heap_region : IsRegion heap_start heap_size
heap_region = record {
  positive = omega arith;
  aligned = refl;
  node_fits = omega arith;
  limit = omega arith;
}

init_heap : init heap_start heap_size new ≡ returned (heap_from 0)
unfolding init
init_heap = refl

alloc_first : alloc small (heap_from 0) ≡ returned (heap_start, heap_from 32)
unfolding alloc
alloc_first = refl

alloc_second : alloc large (heap_from 32) ≡ returned (heap_start + 32, heap_from 3040)
unfolding alloc
alloc_second = refl

two_blocks-Reach : Reach heap_start heap_size two_blocks
two_blocks-Reach =
    allocated large (heap_start + 32)
      (allocated small heap_start (initialised init_heap) small_layout alloc_first (omega arith))
      large_layout alloc_second (omega arith)

live_apart_example :
    (large_block.ptr + 3000 ≤ small_block.ptr) ⊎ (small_block.ptr + 24 ≤ large_block.ptr)
live_apart_example =
    live_apart heap_start heap_size heap_region two_blocks two_blocks-Reach 0 1 large_block
      small_block (omega arith) refl refl

live_inside_example :
    (heap_start ≤ large_block.ptr)
    × (large_block.ptr + 3000 ≤ heap_start + heap_size)
    × IsAligned large_block.ptr 16
live_inside_example =
    live_inside heap_start heap_size heap_region two_blocks two_blocks-Reach 0 large_block refl

alloc-Reach_example :
    (alloc small (heap_from 3040) ≡ returned (0, heap_from 3040))
    ⊎ ((p : ℕ) × (h : FixedSizeBlockAllocator) × (alloc small (heap_from 3040) ≡ returned (p, h))
        × (0 < p)
        × Reach heap_start heap_size
            (record { heap = h; live = record { ptr = p; layout = small } ∷ two_blocks.live }))
alloc-Reach_example =
    alloc-Reach heap_start heap_size heap_region two_blocks two_blocks-Reach small small_layout

dealloc-Reach_example :
    (h : FixedSizeBlockAllocator) × (dealloc heap_start small (heap_from 3040) ≡ returned h)
    × Reach heap_start heap_size (record { heap = h; live = large_block ∷ [] })
    × ((a : ℕ)
        → free_cover a h ≡ in_block a heap_start (reserved small) + free_cover a (heap_from 3040))
dealloc-Reach_example =
    dealloc-Reach heap_start heap_size heap_region two_blocks two_blocks-Reach 1 small_block refl

two_blocks-IsHeap : IsHeap (heap_from 3040)
two_blocks-IsHeap =
    (IsValid-Reach heap_start heap_size heap_region two_blocks two_blocks-Reach).heap

small_index : list_index small ≡ some 2
unfolding list_index
small_index = refl

alloc-dealloc_example :
    dealloc heap_start small (heap_from 3040) >>= alloc small
    ≡ returned (heap_start, heap_from 3040)
alloc-dealloc_example =
    alloc-dealloc heap_start small 2 (heap_from 3040) two_blocks-IsHeap small_index
