-- ===== src/Memory.antt =====
-- The physical frame allocator (kernel/src/memory.rs) and the loader's memory map that it reads
-- (shared/abi/src/boot.rs). The map's table is memory behind a raw pointer: here the function that
-- gives the descriptor found at a byte offset, or nothing for a null pointer.
pub mod Frames
pub mod Allocation
pub mod FreePages
pub mod Tests
use Prim.Native.Nat.{bit_and}
use new_os.Base.{
  ℕ, zero, suc, ◌+◌, ◌-◌, ◌/◌, max, Bool, true, false, ◌||◌, Option, none, some, ltb, leb, ◌==◌,
  if◌then◌else◌, Run, returned, panicked, ◌>>=◌, u64_mod, checked_add, checked_mul, unwrap,
}

abbrev pub page_size : ℕ
page_size = 4096

abbrev pub low_memory_cutoff : ℕ
low_memory_cutoff = 0x100000

-- size_of::<BootMemoryDescriptor>() in its C layout.
abbrev pub descriptor_size : ℕ
descriptor_size = 40

pub record BootMemoryDescriptor : Type 0 where
  pub ty : ℕ
  pub reserved : ℕ
  pub phys_start : ℕ
  pub virt_start : ℕ
  pub page_count : ℕ
  pub att : ℕ

pub record BootMemoryMap : Type 0 where
  pub descriptors : Option (ℕ → BootMemoryDescriptor)
  pub map_size : ℕ
  pub desc_size : ℕ
  pub desc_version : ℕ

abbrev pub empty : BootMemoryMap
empty = record { descriptors = none; map_size = 0; desc_size = 0; desc_version = 0 }

abbrev pub entry_count : BootMemoryMap → ℕ
entry_count map = if map.desc_size == 0 then 0 else map.map_size / map.desc_size

-- The dereference at the computed offset, with the null pointer's test.
descriptor_at : Option (ℕ → BootMemoryDescriptor) → Option ℕ → Option BootMemoryDescriptor
descriptor_at (some table) (some offset) = some (table offset)
descriptor_at (some table) none = none
descriptor_at none offset = none

unfoldable pub get : BootMemoryMap → ℕ → Option BootMemoryDescriptor
unfolding descriptor_at
get map index =
    if leb (entry_count map) index || ltb map.desc_size descriptor_size
    then none
    else descriptor_at map.descriptors (checked_mul index map.desc_size)

pub record BootMemoryMapIter : Type 0 where
  pub map : BootMemoryMap
  pub index : ℕ

abbrev pub iter : BootMemoryMap → BootMemoryMapIter
iter m = record { map = m; index = 0 }

unfoldable pub next : BootMemoryMapIter → Option (BootMemoryDescriptor × BootMemoryMapIter)
unfolding get
next it = elim (get it.map it.index) [
  | none ↦ none
  | some item ↦ some (item, record it { index = it.index + 1 })
]

pub record AddressRange : Type 0 where
  pub start : ℕ
  pub end_address : ℕ

unfoldable pub usable_range : BootMemoryDescriptor → Option AddressRange
usable_range descriptor = elim (checked_mul descriptor.page_count page_size) [
  | none ↦ none
  | some len ↦ elim (checked_add descriptor.phys_start len) [
    | none ↦ none
    | some e ↦ some (record { start = descriptor.phys_start; end_address = e })
  ]
]

unfoldable pub align_up : ℕ → ℕ → ℕ
align_up value alignment =
    if alignment == 0 then value else elim (checked_add value (alignment - 1)) [
      | none ↦ value
      | some adjusted ↦ bit_and adjusted (u64_mod - 1 - (alignment - 1))
    ]

pub record PhysFrame : Type 0 where
  pub start_address : ℕ

pub record FrameAllocator : Type 0 where
  pub memory_map : BootMemoryMap
  pub next_address : ℕ

abbrev pub new : BootMemoryMap → FrameAllocator
new map = record { memory_map = map; next_address = low_memory_cutoff }

abbrev pub is_usable : BootMemoryDescriptor → Bool
is_usable descriptor = descriptor.ty == 7 || descriptor.ty == 3 || descriptor.ty == 4

abbrev pub Allocation : Type 0
Allocation = Run (Option PhysFrame × FrameAllocator)

-- `self.next_address = candidate.checked_add(PAGE_SIZE)?` and the frame.
hand_out : ℕ → FrameAllocator → Allocation
hand_out candidate a = elim (checked_add candidate page_size) [
  | none ↦ returned (none, a)
  | some n ↦ returned (some (record { start_address = candidate }), record a { next_address = n })
]

-- A usable descriptor's part of the loop's body; `rest` is the loop on what follows.
in_range : FrameAllocator → Allocation → AddressRange → Allocation
unfolding hand_out align_up
in_range a rest range =
    let candidate = align_up (max a.next_address range.start) page_size in
    if ltb candidate range.end_address then hand_out candidate a else rest

-- The loop over the map, on fuel: one step for each descriptor.
unfoldable pub loop : ℕ → BootMemoryMapIter → FrameAllocator → Allocation
unfolding next usable_range in_range
loop zero it a = returned (none, a)
loop (suc fuel) it a = elim (next it) [
  | none ↦ returned (none, a)
  | some (descriptor, it') ↦
      let rest = loop fuel it' a in
      if is_usable descriptor then unwrap (usable_range descriptor) >>= in_range a rest else rest
]

unfoldable pub allocate_physical_frame : FrameAllocator → Allocation
unfolding loop
allocate_physical_frame a = loop (entry_count a.memory_map) (iter a.memory_map) a
