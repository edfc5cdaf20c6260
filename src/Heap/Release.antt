-- ===== src/Heap/Release.antt =====
-- `dealloc` of kernel/src/memory/allocator/fixed_size_block.rs, of a block in use.
use new_os.Base.{
  ℕ, zero, suc, get_elem?-set_self, get_elem?-lt, ◌+◌, ◌≡◌, refl, sym, ap, inl, inr, arith, true,
  none, some, Option-cases, List, [], ◌∷◌, leb, le→leb, Run, returned, get_elem?, set, ◌>>=◌,
}
use mathlib.Core.Option.{some-injective}
use native.Mathlib.Nat.{pow-le-pow_right}
use new_os.Heap.{
  Layout, FixedSizeBlockAllocator, list_index, block_sizes, dealloc_at, dealloc, alloc, alloc_at,
}
use new_os.Heap.Cover.{in_block}
use new_os.Heap.Allocate.{block_size, deallocate_lem}
use new_os.Heap.Nodes.{AreNodes-get_elem?, AreNodes-push, list_index_lem, block_sizes_lem, IsNode}
use new_os.Heap.FixedBlocks.{
  Block, IsBlock, IsHeap, reserved, reserved-large, reserved-small, free_cover,
}

-- A heap with exactly the bytes of a block added to the free memory.
pub record Frees (b : Block) (h h' : FixedSizeBlockAllocator) : Type 0 where
  pub heap : IsHeap h'
  pub cover : (a : ℕ) → free_cover a h' ≡ in_block a b.ptr (reserved b.layout) + free_cover a h

unfoldable pub Deallocs : Block → FixedSizeBlockAllocator → Run FixedSizeBlockAllocator → Type 0
Deallocs b h result = (h' : FixedSizeBlockAllocator) × (result ≡ returned h') × Frees b h h'

module _ (b : Block) (block : IsBlock b) (h : FixedSizeBlockAllocator) (heap : IsHeap h) where
  dealloc_large : list_index b.layout ≡ none → Deallocs b h (dealloc b.ptr b.layout h)
  unfolding dealloc Deallocs
  dealloc_large large =
      let region = block.region large in
      let freed = record { addr = b.ptr; size = block_size b.layout } ∷ h.fallback_allocator in
      (
        record h { fallback_allocator = freed },
        rw (dealloc, large, deallocate_lem b.layout block.layout b.ptr h.fallback_allocator region)
            refl,
        record {
          heap = record { fallback = (region, heap.fallback); heads = heap.heads };
          cover = λ a.
              (unfold free_cover in
                omega (arith, ap (in_block a b.ptr) (reserved-large b.layout large)));
        },
      )

  dealloc_small : (i : ℕ) → list_index b.layout ≡ some i → Deallocs b h (dealloc b.ptr b.layout h)
  unfolding dealloc dealloc_at Deallocs
  dealloc_small i small =
      let (s, size, enough) = list_index_lem b.layout i small in
      let (ps, nodes) = AreNodes-get_elem? block_sizes h.list_heads i s heap.heads size in
      let node : IsNode s b.ptr = (block.positive, block.node i s small size) in
      let (kept, cover) =
        AreNodes-push block_sizes h.list_heads i s b.ptr ps heap.heads node size nodes in
      let (k, power, low, high) = block_sizes_lem i s size in
      let holds_node : leb 8 s ≡ true =
        le→leb 8 s
          (omega (arith, power, pow-le-pow_right {n = 2} (omega arith) {i = 3} {j = k} low)) in
      (
        record h { list_heads = set h.list_heads i (b.ptr ∷ ps) },
        rw (dealloc, small, nodes, size, holds_node) refl,
        record {
          heap = record { fallback = heap.fallback; heads = kept };
          cover = λ a.
              (unfold free_cover in
                omega
                  (arith, cover a, ap (in_block a b.ptr) (reserved-small b.layout i s small size)));
        },
      )

  pub dealloc_lem : Deallocs b h (dealloc b.ptr b.layout h)
  dealloc_lem = elim (Option-cases (list_index b.layout)) [
    | inl large ↦ dealloc_large large
    | inr (i, small) ↦ dealloc_small i small
  ]

set_back :
    (xss : List (List ℕ)) (i : ℕ) (ys xs : List ℕ)
    → get_elem? xss i ≡ some xs
    → set (set xss i ys) i xs ≡ xss
set_back [] i ys xs e = refl
set_back (zs ∷ xss) zero ys xs e = ap (λ t. t ∷ xss) (sym (some-injective zs xs e))
set_back (zs ∷ xss) (suc i) ys xs e = ap (λ t. zs ∷ t) (set_back xss i ys xs e)

-- On a well-formed heap, an address that is released with a layout that has a list is what the next
-- allocation of that layout returns, and the heap is then as before.
pub alloc-dealloc :
    (p : ℕ) (l : Layout) (i : ℕ) (h : FixedSizeBlockAllocator)
    → IsHeap h
    → list_index l ≡ some i
    → dealloc p l h >>= alloc l ≡ returned (p, h)
unfolding dealloc dealloc_at alloc alloc_at
alloc-dealloc p l i h heap small =
    let (s, size, enough) = list_index_lem l i small in
    let (ps, nodes) = AreNodes-get_elem? block_sizes h.list_heads i s heap.heads size in
    let (k, power, low, high) = block_sizes_lem i s size in
    let holds_node : leb 8 s ≡ true =
      le→leb 8 s
        (omega (arith, power, pow-le-pow_right {n = 2} (omega arith) {i = 3} {j = k} low)) in
    let again = get_elem?-set_self h.list_heads i (p ∷ ps) (get_elem?-lt h.list_heads i ps nodes) in
    rw (dealloc, alloc, small, nodes, size, holds_node, again)
      (ap (λ heads. returned (p, record h { list_heads = heads }))
        (set_back h.list_heads i (p ∷ ps) ps nodes))
