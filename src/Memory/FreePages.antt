-- ===== src/Memory/FreePages.antt =====
-- The pages that the frame allocator (kernel/src/memory.rs) may hand out, told by the types of the
-- UEFI memory map and without the code's own tests.
use new_os.Base.{ℕ, ◌+◌, ◌*◌, ◌%◌, ◌^◌, ◌≤◌, ◌≡◌, ◌⊎◌, true, none, some, arith, returned, panicked}
use new_os.Memory.{
  BootMemoryDescriptor, BootMemoryMap, get, is_usable, FrameAllocator, Allocation,
  allocate_physical_frame,
}
use new_os.Memory.Frames.{InRange, Exhausted, Handed, Allocated, candidate}
use new_os.Memory.Allocation.{allocated_lem}

-- Conventional memory, or code or data of the boot services.
abbrev pub IsFreeType : ℕ → Type 0
IsFreeType ty = (ty ≡ 7) ⊎ (ty ≡ 3) ⊎ (ty ≡ 4)

-- A page that lies wholly in a descriptor.
pub record IsPageOf (f : ℕ) (d : BootMemoryDescriptor) : Type 0 where
  pub aligned : f % 4096 ≡ 0
  pub from_start : d.phys_start ≤ f
  pub to_end : f + 4096 ≤ d.phys_start + d.page_count * 4096

-- The descriptors of the map start at page boundaries, as UEFI has it.
unfoldable pub IsPaged : BootMemoryMap → Type 0
IsPaged map = (i : ℕ) (d : BootMemoryDescriptor) → get map i ≡ some d → d.phys_start % 4096 ≡ 0

-- A page of free memory of the map.
pub record IsFreePage (map : BootMemoryMap) (f : ℕ) : Type 0 where
  pub index : ℕ
  pub descriptor : BootMemoryDescriptor
  pub found : get map index ≡ some descriptor
  pub free : IsFreeType descriptor.ty
  pub page : IsPageOf f descriptor

-- What a call may do: hand out a free page that is not below the next address, the lowest one of
-- its descriptor, and move the next address to its end; or change nothing, when there is no such page.
unfoldable pub Gives : FrameAllocator → Allocation → Type 0
Gives a panicked = ⊥
Gives a (returned (none, b)) =
    (b ≡ a) × ((g : ℕ) → a.next_address ≤ g → ¬ IsFreePage a.memory_map g)
Gives a (returned (some f, b)) =
    (b ≡ record a { next_address = f.start_address + 4096 })
    × (a.next_address ≤ f.start_address)
    × (free : IsFreePage a.memory_map f.start_address) × ((g : ℕ)
        → a.next_address ≤ g
        → IsPageOf g free.descriptor
        → f.start_address ≤ g)

usable-IsFreeType : (d : BootMemoryDescriptor) → is_usable d ≡ true → IsFreeType d.ty
usable-IsFreeType d h = ground arith

IsFreeType-usable : (d : BootMemoryDescriptor) → IsFreeType d.ty → is_usable d ≡ true
IsFreeType-usable d h = ground arith

lowest :
    (a : FrameAllocator) (d : BootMemoryDescriptor) (g : ℕ)
    → a.next_address ≤ g
    → IsPageOf g d
    → candidate a d ≤ g
lowest a d g above p =
    let aligned = p.aligned in let from = p.from_start in omega (arith, above, aligned, from)

pub Gives-Allocated :
    (a : FrameAllocator) (r : Allocation) → IsPaged a.memory_map → Allocated 0 a r → Gives a r
unfolding Gives Allocated Handed Exhausted IsPaged
Gives-Allocated a panicked paged h = h
Gives-Allocated a (returned (none, b)) paged (e, exhausted) = (
  e,
  λ g above p.
      let low = lowest a p.descriptor g above p.page in
      let over =
        exhausted p.index p.descriptor (omega arith) p.found
          (IsFreeType-usable p.descriptor p.free) in
      let to_end = p.page.to_end in absurd (omega (arith, low, over, to_end)),
)
Gives-Allocated a (returned (some f, b)) paged
      (e, (above, aligned, j, d, found, usable, lower, upper, first)) =
    let start = paged j d found in
    (
      e,
      above,
      record {
        index = j;
        descriptor = d;
        found = found;
        free = usable-IsFreeType d usable;
        page = record {
          aligned = aligned;
          from_start = lower;
          to_end = omega (arith, start, aligned, lower, upper);
        };
      },
      λ g above' p. let low = lowest a d g above' p in omega (arith, low, first),
    )

-- On a map whose descriptors start at page boundaries and end at or below 2^52, with the next
-- address at or below 2^53, the allocator returns. If it returns a frame, the frame is a whole page
-- of a descriptor of conventional memory or of boot services, not below the next address and the
-- lowest such page of that descriptor, and only the next address changes, to the end of that frame.
-- If it returns no frame, the allocator is unchanged and no such page of any such descriptor is
-- left.
pub allocate_physical_frame_lem :
    (a : FrameAllocator)
    → IsPaged a.memory_map
    → InRange a.memory_map
    → a.next_address ≤ 2 ^ 53
    → Gives a (allocate_physical_frame a)
allocate_physical_frame_lem a paged inside low =
    Gives-Allocated a (allocate_physical_frame a) paged (allocated_lem a inside low)
