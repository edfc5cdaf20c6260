-- ===== src/Heap/FixedBlocks.antt =====
-- `alloc` and `dealloc` of kernel/src/memory/allocator/fixed_size_block.rs.
use new_os.Base.{
  ℕ, ◌+◌, ◌^◌, ◌≤◌, ◌<◌, ◌≡◌, refl, sym, ap, ◌∙◌, ◌⊎◌, inl, inr, arith, none, some, Option-cases,
  List-cases, List, [], ◌∷◌, returned, get_elem?, set,
}
use mathlib.Core.Option.{some-injective}
use native.Mathlib.Nat.{pow-le-pow_right}
use new_os.Heap.{
  Layout, FixedSizeBlockAllocator, Allocated, list_index, block_sizes, fallback_alloc, alloc_at,
  alloc,
}
use new_os.Heap.Align.{IsAligned, IsAligned-pow}
use new_os.Heap.Cover.{in_block, in_block-le, covers}
use new_os.Heap.LinkedList.{IsRegion, AreRegions, IsLayout}
use new_os.Heap.Allocate.{exponent_of, block_size, block_size_lem, Allocates, allocate_lem}
use new_os.Heap.Nodes.{
  AreNodes, AreNodes-get_elem?, AreNodes-pop, heads_cover, list_index_lem, block_sizes_lem,
  exponent-le, IsNode,
}

-- A block in use, with the layout that it was allocated with.
pub record Block : Type 0 where
  pub ptr : ℕ
  pub layout : Layout

-- The bytes that are set aside for a layout.
unfoldable pub reserved : Layout → ℕ
reserved l = elim (list_index l) [
  | none ↦ block_size l
  | some i ↦ elim (get_elem? block_sizes i) [ none ↦ 0 | some s ↦ s ]
]

pub record IsBlock (b : Block) : Type 0 where
  pub layout : IsLayout b.layout
  pub positive : 0 < b.ptr
  pub aligned : IsAligned b.ptr b.layout.align
  pub holds : b.layout.size ≤ reserved b.layout
  pub node :
      (i s : ℕ)
      → list_index b.layout ≡ some i
      → get_elem? block_sizes i ≡ some s
      → IsAligned b.ptr s
  pub region : list_index b.layout ≡ none → IsRegion b.ptr (block_size b.layout)

pub record IsHeap (h : FixedSizeBlockAllocator) : Type 0 where
  pub fallback : AreRegions h.fallback_allocator
  pub heads : AreNodes block_sizes h.list_heads

-- How often an address is free.
unfoldable pub free_cover : ℕ → FixedSizeBlockAllocator → ℕ
free_cover a h = covers a h.fallback_allocator + heads_cover a block_sizes h.list_heads

-- An allocation either finds nothing and changes nothing, or takes a block out of the free memory.
pub record Takes (l : Layout) (h : FixedSizeBlockAllocator) (p : ℕ) (h' : FixedSizeBlockAllocator)
    : Type 0 where
  pub heap : IsHeap h'
  pub block : IsBlock (record { ptr = p; layout = l })
  pub cover : (a : ℕ) → in_block a p (reserved l) + free_cover a h' ≤ free_cover a h

unfoldable pub Allocs : Layout → FixedSizeBlockAllocator → Allocated → Type 0
Allocs l h result =
    (result ≡ returned (0, h))
    ⊎ ((p : ℕ) × (h' : FixedSizeBlockAllocator) × (result ≡ returned (p, h')) × Takes l h p h')

IsAligned-align :
    (l : Layout) (layout : IsLayout l) (p k : ℕ)
    → layout.exponent ≤ k
    → IsAligned p (2 ^ k)
    → IsAligned p l.align
IsAligned-align l layout p k le h = rw layout.align (IsAligned-pow p k layout.exponent le h)

pub reserved-large : (l : Layout) → list_index l ≡ none → reserved l ≡ block_size l
unfolding reserved
reserved-large l large = rw (reserved, large) refl

pub reserved-small :
    (l : Layout) (i s : ℕ)
    → list_index l ≡ some i
    → get_elem? block_sizes i ≡ some s
    → reserved l ≡ s
unfolding reserved
reserved-small l i s small size = rw (reserved, small, size) refl

module _ (l : Layout) (layout : IsLayout l) where
  large_block :
      (p : ℕ)
      → list_index l ≡ none
      → IsRegion p (block_size l)
      → IsAligned p (2 ^ exponent_of layout.exponent)
      → IsBlock (record { ptr = p; layout = l })
  large_block p large region aligned = record {
    layout = layout;
    positive = region.positive;
    aligned = IsAligned-align l layout p (exponent_of layout.exponent) (omega arith) aligned;
    holds = rw (reserved-large l large) (block_size_lem l layout).0;
    node = λ i s some_list. absurd (cc);
    region = λ e. region;
  }

  small_block :
      (p i s : ℕ)
      → list_index l ≡ some i
      → get_elem? block_sizes i ≡ some s
      → IsNode s p
      → IsBlock (record { ptr = p; layout = l })
  small_block p i s small size node =
      let (t, size', enough) = list_index_lem l i small in
      let same : t ≡ s = some-injective t s (sym size' ∙ size) in
      let (k, power, low, high) = block_sizes_lem i s size in
      let le : 2 ^ layout.exponent ≤ 2 ^ k = omega (arith, enough, same, power, layout.align) in
      record {
        layout = layout;
        positive = node.0;
        aligned =
            IsAligned-align l layout p k (exponent-le layout.exponent k le) (rw power at node.1);
        holds = omega (arith, reserved-small l i s small size, enough, same);
        node = λ j u list size''.
            let index : i ≡ j = some-injective i j (sym small ∙ list) in
            let same' : s ≡ u =
              some-injective s u (sym size ∙ ap (get_elem? block_sizes) index ∙ size'') in
            rw same' at node.1;
        region = λ e. absurd (cc);
      }

block_size-small :
    (i s : ℕ) → get_elem? block_sizes i ≡ some s → IsLayout (record { size = s; align = s })
block_size-small i s size =
    let (k, power, low, high) = block_sizes_lem i s size in
    record {
      exponent = k;
      align = power;
      exponent-le = omega (arith, high);
      size = omega (arith, power, pow-le-pow_right {n = 2} (omega arith) high);
    }

-- What is reserved is counted in the region that the fallback allocator hands out.
fallback_cover :
    (a p part size free free' heads : ℕ)
    → part ≤ size
    → in_block a p size + free' ≤ free
    → in_block a p part + (free' + heads) ≤ free + heads
fallback_cover a p part size free free' heads le h = omega (arith, in_block-le a p part size le, h)

module _ (l : Layout) (layout : IsLayout l) (h : FixedSizeBlockAllocator) (heap : IsHeap h) where
  alloc_large : list_index l ≡ none → Allocs l h (alloc l h)
  unfolding alloc fallback_alloc Allocs Allocates
  alloc_large large =
      rw (alloc, large)
        (elim (allocate_lem l layout h.fallback_allocator heap.fallback) [
          | inl e ↦ inl (rw e refl)
          | inr (p, rs, e, regions, region, aligned, cover) ↦ inr (
            p,
            record h { fallback_allocator = rs },
            rw e refl,
            record {
              heap = record { fallback = regions; heads = heap.heads };
              block = large_block l layout p large region aligned;
              cover = λ a.
                  (unfold free_cover in
                    fallback_cover a p (reserved l) (block_size l) _ _ _
                      (omega (arith, reserved-large l large)) (cover a));
            },
          )
        ])

  module _ (i s : ℕ) (small : list_index l ≡ some i) (size : get_elem? block_sizes i ≡ some s) where
    alloc_popped :
        (p : ℕ) (ps : List ℕ)
        → get_elem? h.list_heads i ≡ some (p ∷ ps)
        → Allocs l h (alloc_at i (some (p ∷ ps)) (some s) h)
    unfolding alloc_at Allocs
    alloc_popped p ps nodes =
        let (kept, node, cover) =
          AreNodes-pop block_sizes h.list_heads i s p ps heap.heads size nodes in
        inr (
          p,
          record h { list_heads = set h.list_heads i ps },
          refl,
          record {
            heap = record { fallback = heap.fallback; heads = kept };
            block = small_block l layout p i s small size node;
            cover = λ a.
                (unfold free_cover in
                  omega (arith, cover a, ap (in_block a p) (reserved-small l i s small size)));
          },
        )

    alloc_filled : Allocs l h (alloc_at i (some []) (some s) h)
    unfolding alloc_at fallback_alloc Allocs Allocates
    alloc_filled =
        let layout' = block_size-small i s size in
        elim (allocate_lem (record { size = s; align = s }) layout' h.fallback_allocator
          heap.fallback) [
            | inl e ↦ inl (rw e refl)
            | inr (p, rs, e, regions, region, aligned, cover) ↦
                let node =
                  IsAligned-align (record { size = s; align = s }) layout' p
                    (exponent_of layout'.exponent) (omega arith) aligned in
                inr (
                  p,
                  record h { fallback_allocator = rs },
                  rw e refl,
                  record {
                    heap = record { fallback = regions; heads = heap.heads };
                    block = small_block l layout p i s small size (region.positive, node);
                    cover = λ a.
                        (unfold free_cover in
                          fallback_cover a p (reserved l)
                            (block_size (record { size = s; align = s })) _ _ _
                            (omega (
                              arith,
                              reserved-small l i s small size,
                              (block_size_lem (record { size = s; align = s }) layout').0,
                            ))
                            (cover a));
                  },
                )
          ]

  alloc_small : (i : ℕ) → list_index l ≡ some i → Allocs l h (alloc l h)
  unfolding alloc
  alloc_small i small =
      let (s, size, enough) = list_index_lem l i small in
      let (ps, nodes) = AreNodes-get_elem? block_sizes h.list_heads i s heap.heads size in
      rw (alloc, small, nodes, size)
        (elim (List-cases ps) [
          | inl empty ↦ rw empty (alloc_filled i s small size)
          | inr (q, qs, full) ↦ rw full (alloc_popped i s small size q qs (nodes ∙ ap some full))
        ])

  pub alloc_lem : Allocs l h (alloc l h)
  alloc_lem = elim (Option-cases (list_index l)) [
    | inl large ↦ alloc_large large
    | inr (i, small) ↦ alloc_small i small
  ]
