-- ===== src/Heap/History.antt =====
-- The kernel's heap over its life: what `init`, `alloc` and `dealloc` of
-- kernel/src/memory/allocator/fixed_size_block.rs come to, one call after another.
use new_os.Base.{
  ℕ, zero, suc, ◌+◌, ◌≤◌, ◌<◌, ◌≡◌, refl, sym, ap, ◌∙◌, inl, inr, arith, some, List, [], ◌∷◌, All,
  returned, get_elem?, replicate,
}
use mathlib.Core.Option.{some-injective}
use mathlib.Core.Path.{subst}
use new_os.Heap.Nodes.{AreNodes}
use new_os.Heap.{block_sizes, Layout, FixedSizeBlockAllocator, new, init, alloc, dealloc}
use new_os.Heap.Cover.{in_block}
use new_os.Heap.LinkedList.{IsRegion, IsLayout, add_free_region_lem}
use new_os.Heap.FixedBlocks.{Block, IsBlock, IsHeap, reserved, free_cover, Takes, Allocs, alloc_lem}
use new_os.Heap.Release.{Frees, Deallocs, dealloc_lem}

-- The allocator with the blocks that are in use, the last one first.
pub record State : Type 0 where
  pub heap : FixedSizeBlockAllocator
  pub live : List Block

abbrev pub remove : List Block → ℕ → List Block
remove [] i = []
remove (b ∷ bs) zero = bs
remove (b ∷ bs) (suc i) = b ∷ remove bs i

-- The states that calls lead to from `init start size`; a call of `dealloc` is given a block in use
-- with the layout that it was allocated with.
pub data Reach (start size : ℕ) : State → Type 0 where
  initialised :
      {h : FixedSizeBlockAllocator}
      → init start size new ≡ returned h
      → Reach start size (record { heap = h; live = [] })
  allocated :
      {s : State} {h : FixedSizeBlockAllocator} (l : Layout) (p : ℕ)
      → Reach start size s
      → IsLayout l
      → alloc l s.heap ≡ returned (p, h)
      → 0 < p
      → Reach start size (record { heap = h; live = record { ptr = p; layout = l } ∷ s.live })
  exhausted :
      {s : State} {h : FixedSizeBlockAllocator} (l : Layout)
      → Reach start size s
      → IsLayout l
      → alloc l s.heap ≡ returned (0, h)
      → Reach start size (record { heap = h; live = s.live })
  released :
      {s : State} {h : FixedSizeBlockAllocator} (i : ℕ) (b : Block)
      → Reach start size s
      → get_elem? s.live i ≡ some b
      → dealloc b.ptr b.layout s.heap ≡ returned h
      → Reach start size (record { heap = h; live = remove s.live i })

-- The number of blocks in use that contain an address.
abbrev pub live_cover : ℕ → List Block → ℕ
live_cover a [] = 0
live_cover a (b ∷ bs) = in_block a b.ptr (reserved b.layout) + live_cover a bs

-- No byte of the heap is in two places.
pub record IsValid (start size : ℕ) (s : State) : Type 0 where
  pub heap : IsHeap s.heap
  pub live : All IsBlock s.live
  pub cover : (a : ℕ) → live_cover a s.live + free_cover a s.heap ≤ in_block a start size

pub get_elem?-IsBlock :
    (bs : List Block) (i : ℕ) (b : Block) → All IsBlock bs → get_elem? bs i ≡ some b → IsBlock b
get_elem?-IsBlock [] i b h e = absurd (cc)
get_elem?-IsBlock (x ∷ bs) zero b h e = subst IsBlock (some-injective x b e) h.0
get_elem?-IsBlock (x ∷ bs) (suc i) b h e = get_elem?-IsBlock bs i b h.1 e

remove-IsBlock : (bs : List Block) (i : ℕ) → All IsBlock bs → All IsBlock (remove bs i)
remove-IsBlock [] i h = tt
remove-IsBlock (x ∷ bs) zero h = h.1
remove-IsBlock (x ∷ bs) (suc i) h = (h.0, remove-IsBlock bs i h.1)

remove_cover :
    (a : ℕ) (bs : List Block) (i : ℕ) (b : Block)
    → get_elem? bs i ≡ some b
    → in_block a b.ptr (reserved b.layout) + live_cover a (remove bs i) ≡ live_cover a bs
remove_cover a [] i b e = absurd (cc)
remove_cover a (x ∷ bs) zero b e =
    ap (λ (c : Block). in_block a c.ptr (reserved c.layout) + live_cover a bs)
      (sym (some-injective x b e))
remove_cover a (x ∷ bs) (suc i) b e = omega (arith, remove_cover a bs i b e)

returned_injective : {A : Type 0} (x y : A) → returned x ≡ returned y → x ≡ y
returned_injective x y e = cc

module _ (l : Layout) (layout : IsLayout l) (h : FixedSizeBlockAllocator) (heap : IsHeap h) where
  Takes-alloc :
      (p : ℕ) (h' : FixedSizeBlockAllocator) → alloc l h ≡ returned (p, h') → 0 < p → Takes l h p h'
  unfolding Allocs
  Takes-alloc p h' e positive = elim (alloc_lem l layout h heap) [
    | inl none_left ↦ absurd (
        omega
          (arith, ap (λ r. r.0) (returned_injective (p, h') (0, h) (sym e ∙ none_left)), positive))
    | inr (q, h'', e', takes) ↦
        subst (λ r. Takes l h r.0 r.1) (returned_injective (q, h'') (p, h') (sym e' ∙ e)) takes
  ]

  alloc_null : (h' : FixedSizeBlockAllocator) → alloc l h ≡ returned (0, h') → h' ≡ h
  unfolding Allocs
  alloc_null h' e = elim (alloc_lem l layout h heap) [
    | inl none_left ↦ ap (λ r. r.1) (returned_injective (0, h') (0, h) (sym e ∙ none_left))
    | inr (q, h'', e', takes) ↦ absurd (
        omega (
          arith,
          ap (λ r. r.0) (returned_injective (0, h') (q, h'') (sym e ∙ e')),
          takes.block.positive,
        ))
  ]

Frees-dealloc :
    (b : Block) (block : IsBlock b) (h h' : FixedSizeBlockAllocator)
    → IsHeap h
    → dealloc b.ptr b.layout h ≡ returned h'
    → Frees b h h'
unfolding Deallocs
Frees-dealloc b block h h' heap e =
    let (h'', e', frees) = dealloc_lem b block h heap in
    subst (Frees b h) (returned_injective h'' h' (sym e' ∙ e)) frees

pub init_lem :
    (start size : ℕ)
    → IsRegion start size
    → init start size new
      ≡ returned (record new { fallback_allocator = record { addr = start; size = size } ∷ [] })
unfolding init
init_lem start size region = rw (init, add_free_region_lem start size [] region) refl

module _ (start size : ℕ) (region : IsRegion start size) where
  IsValid-init :
      (h : FixedSizeBlockAllocator)
      → init start size new ≡ returned h
      → IsValid start size (record { heap = h; live = [] })
  IsValid-init h e =
      subst (λ h'. IsValid start size (record { heap = h'; live = [] }))
        (returned_injective _ h (sym (init_lem start size region) ∙ e))
        (record {
          heap = record { fallback = (region, tt); heads = heads };
          live = tt;
          cover = λ a. (unfold free_cover in omega arith);
        })
    where
      heads : AreNodes block_sizes (replicate 9 [])
      heads = (tt, (tt, (tt, (tt, (tt, (tt, (tt, (tt, (tt, tt)))))))))

  pub IsValid-Reach : (s : State) → Reach start size s → IsValid start size s
  IsValid-Reach _ (initialised e) = IsValid-init _ e
  IsValid-Reach _ (allocated {s} {h} l p reach layout e positive) =
      let valid = IsValid-Reach s reach in
      let takes = Takes-alloc l layout s.heap valid.heap p h e positive in
      record {
        heap = takes.heap;
        live = (takes.block, valid.live);
        cover = λ a. omega (arith, takes.cover a, valid.cover a);
      }
  IsValid-Reach _ (exhausted {s} {h} l reach layout e) =
      let valid = IsValid-Reach s reach in
      subst (λ h'. IsValid start size (record { heap = h'; live = s.live }))
        (sym (alloc_null l layout s.heap valid.heap h e)) valid
  IsValid-Reach _ (released {s} {h} i b reach at e) =
      let valid = IsValid-Reach s reach in
      let frees =
        Frees-dealloc b (get_elem?-IsBlock s.live i b valid.live at) s.heap h valid.heap e in
      record {
        heap = frees.heap;
        live = remove-IsBlock s.live i valid.live;
        cover = λ a. omega (arith, frees.cover a, remove_cover a s.live i b at, valid.cover a);
      }
