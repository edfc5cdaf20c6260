-- ===== src/Memory/Tests.antt =====
-- The theorems on the frame allocator at a concrete memory map.
use new_os.Base.{◌+◌, ◌≤◌, ◌≡◌, refl, some, arith, returned}
use new_os.Memory
use new_os.Memory.{
  BootMemoryDescriptor, BootMemoryMap, FrameAllocator, PhysFrame, allocate_physical_frame, get,
}
use new_os.Memory.Frames.{InRange}
use new_os.Memory.Allocation.{now, frames_disjoint}
use new_os.Memory.FreePages.{IsPaged, Gives, allocate_physical_frame_lem}

-- One descriptor of four usable pages from 2 MiB on.
abbrev pages : BootMemoryDescriptor
pages = record {
  ty = 7;
  reserved = 0;
  phys_start = 0x200000;
  virt_start = 0;
  page_count = 4;
  att = 0;
}

abbrev one_range : BootMemoryMap
one_range = record {
  descriptors = some (λ offset. pages);
  map_size = 40;
  desc_size = 40;
  desc_version = 1;
}

abbrev allocator : FrameAllocator
allocator = Memory.new one_range

one_range-InRange : InRange one_range
unfolding InRange get
one_range-InRange i d h = ground arith

one_range-IsPaged : IsPaged one_range
unfolding IsPaged get
one_range-IsPaged i d h = ground arith

allocate_physical_frame_lem_example : Gives allocator (allocate_physical_frame allocator)
allocate_physical_frame_lem_example =
    allocate_physical_frame_lem allocator one_range-IsPaged one_range-InRange (omega arith)

first_call :
    allocate_physical_frame allocator
    ≡ returned
        (some (record { start_address = 0x200000 }), record allocator { next_address = 0x201000 })
unfolding allocate_physical_frame
first_call = refl

second_call :
    allocate_physical_frame (record allocator { next_address = 0x201000 })
    ≡ returned
        (some (record { start_address = 0x201000 }), record allocator { next_address = 0x202000 })
unfolding allocate_physical_frame
second_call = refl

frames_disjoint_example : 0x200000 + 4096 ≤ 0x201000
frames_disjoint_example =
    frames_disjoint allocator (record allocator { next_address = 0x201000 })
      (record allocator { next_address = 0x201000 }) (record allocator { next_address = 0x202000 })
      (record { start_address = 0x200000 }) (record { start_address = 0x201000 }) one_range-InRange
      (omega arith) first_call now second_call
