-- ===== src/Heap/Live.antt =====
-- What the kernel's heap promises to those who use it, after any calls of `alloc` and `dealloc`
-- (kernel/src/memory/allocator/fixed_size_block.rs).
use new_os.Base.{
  ℕ, zero, suc, ◌+◌, ◌-◌, ◌≤◌, ◌<◌, ◌≡◌, ◌≢◌, refl, ap, ◌⊎◌, inl, inr, arith, some, Option-cases,
  List, [], ◌∷◌, returned, get_elem?,
}
use mathlib.Core.Option.{some-injective}
use native.Mathlib.Nat.{pow-le-pow_right}
use new_os.Heap.{Layout, FixedSizeBlockAllocator, list_index, alloc, dealloc}
use new_os.Heap.Align.{IsAligned}
use new_os.Heap.Cover.{in_block}
use new_os.Heap.LinkedList.{IsRegion, IsLayout}
use new_os.Heap.Allocate.{block_size_lem}
use new_os.Heap.Nodes.{list_index_lem, block_sizes_lem}
use new_os.Heap.FixedBlocks.{
  Block, IsBlock, reserved, reserved-large, reserved-small, free_cover, Allocs, alloc_lem,
}
use new_os.Heap.Release.{Deallocs, dealloc_lem}
use new_os.Heap.History.{
  State, remove, Reach, allocated, released, live_cover, IsValid-Reach, get_elem?-IsBlock,
}

reserved_positive : (b : Block) → IsBlock b → 0 < reserved b.layout
reserved_positive b block = elim (Option-cases (list_index b.layout)) [
  | inl large ↦
      omega (arith, reserved-large b.layout large, (block_size_lem b.layout block.layout).1)
  | inr (i, small) ↦
      let (s, size, enough) = list_index_lem b.layout i small in
      let (k, power, low, high) = block_sizes_lem i s size in
      omega (
        arith,
        reserved-small b.layout i s small size,
        power,
        pow-le-pow_right {n = 2} (omega arith) {i = 3} {j = k} low,
      )
]

covered :
    (a : ℕ) (bs : List Block) (i : ℕ) (b : Block)
    → get_elem? bs i ≡ some b
    → in_block a b.ptr (reserved b.layout) ≤ live_cover a bs
covered a [] i b e = absurd (cc)
covered a (x ∷ bs) zero b e =
    omega (arith, ap (λ (c : Block). in_block a c.ptr (reserved c.layout)) (some-injective x b e))
covered a (x ∷ bs) (suc i) b e = omega (arith, covered a bs i b e)

covered_twice :
    (a : ℕ) (bs : List Block) (i j : ℕ) (b c : Block)
    → i ≢ j
    → get_elem? bs i ≡ some b
    → get_elem? bs j ≡ some c
    → in_block a b.ptr (reserved b.layout) + in_block a c.ptr (reserved c.layout) ≤ live_cover a bs
covered_twice a [] i j b c ne e f = absurd (cc)
covered_twice a (x ∷ bs) zero zero b c ne e f = absurd (ne refl)
covered_twice a (x ∷ bs) zero (suc j) b c ne e f = omega (
  arith,
  covered a bs j c f,
  ap (λ (d : Block). in_block a d.ptr (reserved d.layout)) (some-injective x b e),
)
covered_twice a (x ∷ bs) (suc i) zero b c ne e f = omega (
  arith,
  covered a bs i b e,
  ap (λ (d : Block). in_block a d.ptr (reserved d.layout)) (some-injective x c f),
)
covered_twice a (x ∷ bs) (suc i) (suc j) b c ne e f =
    omega (arith, covered_twice a bs i j b c (λ s. ne (ap suc s)) e f)

-- Blocks of which no address is in both lie one behind the other.
apart :
    (p n q m : ℕ)
    → 0 < n
    → 0 < m
    → ((a : ℕ) → in_block a p n + in_block a q m ≤ 1)
    → (p + n ≤ q) ⊎ (q + m ≤ p)
unfolding in_block
apart p n q m hn hm once = let at_p = once p in let at_q = once q in ground (arith, at_p, at_q)

inside :
    (p n start size : ℕ)
    → 0 < n
    → ((a : ℕ) → in_block a p n ≤ in_block a start size)
    → (start ≤ p) × (p + n ≤ start + size)
unfolding in_block
inside p n start size hn within =
    let first = within p in
    let last = within (p + n - 1) in (ground (arith, first), ground (arith, last))

at_most_one : (a p n : ℕ) → in_block a p n ≤ 1
unfolding in_block
at_most_one a p n = ground arith

module _ (start size : ℕ) (region : IsRegion start size) (s : State)
    (reach : Reach start size s) where
  -- In every state that calls of `alloc` and `dealloc` lead to from `init` on a region that ends below
  -- `max_end`, two different blocks in use do not overlap.
  pub live_apart :
      (i j : ℕ) (b c : Block)
      → i ≢ j
      → get_elem? s.live i ≡ some b
      → get_elem? s.live j ≡ some c
      → (b.ptr + b.layout.size ≤ c.ptr) ⊎ (c.ptr + c.layout.size ≤ b.ptr)
  live_apart i j b c ne e f =
      let valid = IsValid-Reach start size region s reach in
      let of_b = get_elem?-IsBlock s.live i b valid.live e in
      let of_c = get_elem?-IsBlock s.live j c valid.live f in
      let once : (a : ℕ)
          → in_block a b.ptr (reserved b.layout) + in_block a c.ptr (reserved c.layout) ≤ 1 =
        λ a.
          omega (
            arith,
            covered_twice a s.live i j b c ne e f,
            valid.cover a,
            at_most_one a start size,
          ) in
      elim (apart b.ptr (reserved b.layout) c.ptr (reserved c.layout) (reserved_positive b of_b)
        (reserved_positive c of_c) once) [
          | inl before ↦ inl (omega (arith, before, of_b.holds))
          | inr behind ↦ inr (omega (arith, behind, of_c.holds))
        ]

  -- In every state that calls of `alloc` and `dealloc` lead to from `init` on a region that ends below
  -- `max_end`, a block in use lies in the region that `init` was given, with the whole size
  -- of its layout, and starts at a multiple of the alignment of its layout.
  pub live_inside :
      (i : ℕ) (b : Block)
      → get_elem? s.live i ≡ some b
      → (start ≤ b.ptr) × (b.ptr + b.layout.size ≤ start + size) × IsAligned b.ptr b.layout.align
  live_inside i b e =
      let valid = IsValid-Reach start size region s reach in
      let block = get_elem?-IsBlock s.live i b valid.live e in
      let (low, high) =
        inside b.ptr (reserved b.layout) start size (reserved_positive b block)
          (λ a. omega (arith, covered a s.live i b e, valid.cover a)) in
      (low, omega (arith, high, block.holds), block.aligned)

  -- In every state that calls of `alloc` and `dealloc` lead to from `init` on a region that ends below
  -- `max_end`, `alloc` of a layout of at most 2^62 bytes with an alignment up to 2^32 does not
  -- panic: it returns null and changes nothing, or a block that is in use from then on.
  pub alloc-Reach :
      (l : Layout)
      → IsLayout l
      → (alloc l s.heap ≡ returned (0, s.heap))
        ⊎ ((p : ℕ) × (h : FixedSizeBlockAllocator) × (alloc l s.heap ≡ returned (p, h))
            × (0 < p)
            × Reach start size
                (record { heap = h; live = record { ptr = p; layout = l } ∷ s.live }))
  unfolding Allocs
  alloc-Reach l layout =
      let valid = IsValid-Reach start size region s reach in
      elim (alloc_lem l layout s.heap valid.heap) [
        | inl full ↦ inl full
        | inr (p, h, e, takes) ↦
            inr (p, h, e, takes.block.positive, allocated l p reach layout e takes.block.positive)
      ]

  -- In every state that calls of `alloc` and `dealloc` lead to from `init` on a region that ends below
  -- `max_end`, `dealloc` of a block in use does not panic, and makes the bytes that were set
  -- aside for the block free once more, and no others.
  pub dealloc-Reach :
      (i : ℕ) (b : Block)
      → get_elem? s.live i ≡ some b
      → (h : FixedSizeBlockAllocator) × (dealloc b.ptr b.layout s.heap ≡ returned h)
        × Reach start size (record { heap = h; live = remove s.live i })
        × ((a : ℕ) → free_cover a h ≡ in_block a b.ptr (reserved b.layout) + free_cover a s.heap)
  unfolding Deallocs
  dealloc-Reach i b at =
      let valid = IsValid-Reach start size region s reach in
      let (h, e, frees) =
        dealloc_lem b (get_elem?-IsBlock s.live i b valid.live at) s.heap valid.heap in
      (h, e, released i b reach at e, frees.cover)
