-- ===== src/Paging/Tests.antt =====
-- Runs of the page table code (kernel/src/memory/paging.rs).
use new_os.Base.{
  ℕ, zero, suc, ◌+◌, ◌*◌, ◌<◌, ◌^◌, ◌%◌, ◌≡◌, refl, Bool, true, some, returned, arith,
}
use new_os.Paging.{Machine, clone_user_mappings, set_user_accessible}
use new_os.Paging.Sample.{sample, Gives-sample, before, root_tables}
use new_os.Paging.Entries.{Gives}
use new_os.Paging.CopyOnWrite.{IsCopyable, UserCopied, clone_user_mappings_lem}
use new_os.Paging.Marks.{Grows}
use new_os.Memory.{
  BootMemoryDescriptor, BootMemoryMap, FrameAllocator, allocate_physical_frame, get,
}
use new_os.Memory
use new_os.Memory.Frames.{InRange}
use new_os.Memory.FreePages.{IsPaged}
use new_os.Paging.KernelFrames
use new_os.Paging.KernelFrames.{KernelAllocator, InUse, allocate_frame-fresh}
use new_os.Paging.UserAccess.{Path4, IsOpen, set_user_accessible_lem}
use new_os.Paging.Spaces.{user_cost}

one_page-IsCopyable : IsCopyable sample 1 8 before
one_page-IsCopyable = record {
  source = omega arith;
  target = omega arith;
  apart = λ e. omega (arith, e);
  empty = λ x high. refl;
  tables_apart = λ x high used.
      root_tables (λ t. (t < 10) × (¬ (t ≡ 8))) (omega arith) (omega arith) (omega arith) x used;
}

clone_user_mappings_lem_example :
    (m' : Machine sample) × (clone_user_mappings sample 1 8 true before ≡ returned m')
    × UserCopied sample true 1 8 before m'
    × Gives sample 0 m'.allocator
clone_user_mappings_lem_example =
    clone_user_mappings_lem sample 0 1 8 true before one_page-IsCopyable
      (Gives-sample (user_cost sample 1 before + 0) 10)

set_user_accessible_lem_example :
    (m' : Machine sample) × (set_user_accessible sample 1 0x5000 100 before ≡ returned m')
    × Grows sample before m'
    × ((j : ℕ) → 4096 * j < 100 → IsOpen sample 1 (0x5000 + 4096 * j) m')
set_user_accessible_lem_example =
    set_user_accessible_lem sample 1 0x5000 100 before (omega arith) one_visit
  where
    one_visit :
        (j : ℕ)
        → 4096 * j < 100
        → ◌≡◌ {A = Bool} true true × Path4 sample 1 (0x5000 + 4096 * j) before
    one_visit zero below =
        (refl, record { p3 = 2; p2 = 3; p1 = 4; to_p3 = refl; to_p2 = refl; to_p1 = refl })
    one_visit (suc j) below = absurd (omega (arith, below))

-- The loop visits every 4096th address from the start on: of a range that is not aligned it can
-- leave out the last page. Here the range ends in the second page.
unaligned_range :
    set_user_accessible sample 1 0x5fff 2 before ≡ set_user_accessible sample 1 0x5fff 1 before
unfolding set_user_accessible
unaligned_range = refl

-- One descriptor of four usable pages from 2 MiB on.
abbrev pages : BootMemoryDescriptor
pages = record {
  ty = 7;
  reserved = 0;
  phys_start = 0x200000;
  virt_start = 0;
  page_count = 4;
  att = 0;
}

abbrev one_range : BootMemoryMap
one_range = record {
  descriptors = some (λ offset. pages);
  map_size = 40;
  desc_size = 40;
  desc_version = 1;
}

one_range-InRange : InRange one_range
unfolding InRange get
one_range-InRange i d h = ground arith

one_range-IsPaged : IsPaged one_range
unfolding IsPaged get
one_range-IsPaged i d h = ground arith

abbrev kernel_allocator : KernelAllocator
kernel_allocator = record {
  allocator = Memory.new one_range;
  paged = one_range-IsPaged;
  inside = one_range-InRange;
  low = omega arith;
}

abbrev sample_frame : ℕ → ℕ
sample_frame a = a

sample_frame-injective :
    (a b : ℕ)
    → a % 4096 ≡ 0
    → b % 4096 ≡ 0
    → a < 2 ^ 52
    → b < 2 ^ 52
    → sample_frame a ≡ sample_frame b
    → a ≡ b
sample_frame-injective a b a_aligned b_aligned a_low b_low e = e

abbrev after_one : KernelAllocator
after_one =
    (KernelFrames.allocate_frame sample sample_frame sample_frame-injective kernel_allocator).1

first_frame :
    KernelFrames.allocate_frame sample sample_frame sample_frame-injective kernel_allocator
    ≡ (some 0x200000, after_one)
unfolding KernelFrames.allocate_frame KernelFrames.from_result allocate_physical_frame
first_frame = refl

allocate_frame-fresh_example :
    (¬ InUse sample sample_frame sample_frame-injective kernel_allocator 0x200000)
    × InUse sample sample_frame sample_frame-injective after_one 0x200000
    × ((g : ℕ)
        → InUse sample sample_frame sample_frame-injective kernel_allocator g
        → InUse sample sample_frame sample_frame-injective after_one g)
allocate_frame-fresh_example =
    allocate_frame-fresh sample sample_frame sample_frame-injective kernel_allocator after_one
      0x200000 first_frame
