-- ===== src/Paging/KernelFrames.antt =====
-- The kernel's frame allocator as the allocator of the page table code (kernel/src/memory.rs, the
-- trait implementation, and kernel/src/memory/paging.rs).
use new_os.Base.{
  ℕ, ◌%◌, ◌^◌, ◌≤◌, ◌<◌, ◌≡◌, sym, ap, ◌∙◌, ◌⊎◌, inl, inr, Option, none, some, returned, panicked,
  arith,
}
use mathlib.Core.Path.{subst}
use new_os.Memory
use new_os.Memory.{FrameAllocator, Allocation, allocate_physical_frame}
use new_os.Memory.Frames.{InRange, Handed, Allocated}
use new_os.Memory.Allocation.{one_call, allocated_lem, next_after}
use new_os.Memory.FreePages.{IsPaged, IsFreePage, Gives, Gives-Allocated}
use new_os.Paging.{Platform}

-- An allocator on a map of whole pages within 52-bit addresses.
pub record KernelAllocator : Type 0 where
  pub allocator : FrameAllocator
  pub paged : IsPaged allocator.memory_map
  pub inside : InRange allocator.memory_map
  pub low : allocator.next_address ≤ 2 ^ 53

-- `frame_of` stands for `PhysFrame::containing_address`, which tells page-aligned addresses of 52
-- bits apart.
module _ (p : Platform) (frame_of : ℕ → Platform.PhysFrame p)
    (injective : (a b : ℕ)
      → a % 4096 ≡ 0
      → b % 4096 ≡ 0
      → a < 2 ^ 52
      → b < 2 ^ 52
      → frame_of a ≡ frame_of b
      → a ≡ b) where
  open p use {PhysFrame}

  -- A frame is in use if it is below the next address, or not a whole page of conventional or boot
  -- services memory: what the loader placed, the firmware and the devices.
  pub record InUse (s : KernelAllocator) (t : PhysFrame) : Type 0 where
    pub start : ℕ
    pub same : t ≡ frame_of start
    pub aligned : start % 4096 ≡ 0
    pub small : start < 2 ^ 52
    pub taken : (start < s.allocator.next_address) ⊎ (¬ IsFreePage s.allocator.memory_map start)

  -- The result of a call, which is no panic.
  unfoldable pub from_result :
      (s : KernelAllocator) (r : Allocation)
      → Allocated 0 s.allocator r
      → Option PhysFrame × KernelAllocator
  unfolding Allocated
  from_result s panicked h = absurd h
  from_result s (returned (none, c)) h = (none, s)
  from_result s (returned (some f, c)) h =
      let after = one_call s.allocator c (some f) s.inside s.low h in
      (
        some (frame_of f.start_address),
        record {
          allocator = c;
          paged = subst IsPaged (sym after.same_map) s.paged;
          inside = after.inside;
          low = after.low;
        },
      )

  unfoldable pub allocate_frame : KernelAllocator → Option PhysFrame × KernelAllocator
  unfolding from_result
  allocate_frame s =
      from_result s (allocate_physical_frame s.allocator) (allocated_lem s.allocator s.inside s.low)

  handed_bounds :
      (s : KernelAllocator) (f : Memory.PhysFrame) (c : FrameAllocator)
      → Allocated 0 s.allocator (returned (some f, c))
      → (f.start_address % 4096 ≡ 0) × (f.start_address < 2 ^ 52)
  unfolding Allocated Handed InRange
  handed_bounds s f c (e, (above, aligned, j, d, found, usable, lower, upper, first)) =
      let bound = s.inside j d found in (aligned, omega (arith, bound, upper))

  -- What stays in use when the next address grows.
  kept :
      (s b : KernelAllocator) (g : PhysFrame)
      → s.allocator.next_address ≤ b.allocator.next_address
      → b.allocator.memory_map ≡ s.allocator.memory_map
      → InUse s g
      → InUse b g
  kept s b g grows same_map u = record {
    start = u.start;
    same = u.same;
    aligned = u.aligned;
    small = u.small;
    taken = elim u.taken [
      | inl below ↦ inl (omega (arith, below, grows))
      | inr reserved ↦ inr (λ p. reserved (subst (λ m. IsFreePage m u.start) same_map p))
    ];
  }

  free_page :
      (s : KernelAllocator) (f : Memory.PhysFrame) (c : FrameAllocator)
      → Allocated 0 s.allocator (returned (some f, c))
      → IsFreePage s.allocator.memory_map f.start_address
  unfolding Gives
  free_page s f c h = (Gives-Allocated s.allocator (returned (some f, c)) s.paged h).2

  not_taken :
      (s : KernelAllocator) (f : Memory.PhysFrame) (c : FrameAllocator)
      → Allocated 0 s.allocator (returned (some f, c))
      → ¬ InUse s (frame_of f.start_address)
  not_taken s f c h u =
      let (above, next) = next_after s.allocator c f h in
      let (aligned, small) = handed_bounds s f c h in
      let at = injective u.start f.start_address u.aligned aligned u.small small (sym u.same) in
      elim u.taken [
        | inl below ↦ absurd (omega (arith, at, below, above))
        | inr reserved ↦
            reserved (subst (λ a. IsFreePage s.allocator.memory_map a) (sym at) (free_page s f c h))
      ]

  from_result-fresh :
      (s b : KernelAllocator) (t : PhysFrame) (r : Allocation) (h : Allocated 0 s.allocator r)
      → from_result s r h ≡ (some t, b)
      → (¬ InUse s t) × InUse b t × ((g : PhysFrame) → InUse s g → InUse b g)
  unfolding from_result Allocated
  from_result-fresh s b t panicked h e = absurd h
  from_result-fresh s b t (returned (none, c)) h e =
      absurd (let first = ap (λ (q : Option PhysFrame × KernelAllocator). q.0) e in cc)
  from_result-fresh s b t (returned (some f, c)) h e =
      let after = one_call s.allocator c (some f) s.inside s.low h in
      let (above, next) = next_after s.allocator c f h in
      let (aligned, small) = handed_bounds s f c h in
      let first = ap (λ (q : Option PhysFrame × KernelAllocator). q.0) e in
      let is_t : t ≡ frame_of f.start_address = cc in
      let is_b = ap (λ (q : Option PhysFrame × KernelAllocator). q.1.allocator.next_address) e in
      let map_b = ap (λ (q : Option PhysFrame × KernelAllocator). q.1.allocator.memory_map) e in
      (
        rw is_t (not_taken s f c h),
        record {
          start = f.start_address;
          same = is_t;
          aligned = aligned;
          small = small;
          taken = inl (omega (arith, next, is_b));
        },
        λ g u. kept s b g (omega (arith, above, next, is_b)) (sym map_b ∙ after.same_map) u,
      )

  -- Where the frames of different page-aligned addresses below 2^52 differ, on a memory map of whole
  -- pages within 52-bit addresses and with the next address at most 2^53, the kernel's frame allocator
  -- keeps the contract that the page table code relies on. A frame is in use if it starts below the
  -- next address, or is not a whole page of a descriptor of conventional or boot services memory. A
  -- frame that the allocator hands out was not in use, is in use from then on, and so is every frame
  -- that was.
  pub allocate_frame-fresh :
      (s b : KernelAllocator) (t : PhysFrame)
      → allocate_frame s ≡ (some t, b)
      → (¬ InUse s t) × InUse b t × ((g : PhysFrame) → InUse s g → InUse b g)
  unfolding allocate_frame
  allocate_frame-fresh s b t e =
      from_result-fresh s b t (allocate_physical_frame s.allocator)
        (allocated_lem s.allocator s.inside s.low) e

  -- The platform with the kernel's own allocator.
  abbrev kernel_platform : Platform
  kernel_platform = record p {
    Allocator = KernelAllocator;
    allocate_frame = allocate_frame;
    Used = InUse;
    fresh = allocate_frame-fresh;
  }
