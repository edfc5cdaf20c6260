-- ===== src/Fs/Superblock.antt =====
-- The superblock of a device that is mounted (kernel/src/fs/ext2.rs).
use new_os.Base.{
  ℕ, ◌+◌, ◌-◌, ◌*◌, ◌/◌, ◌%◌, ◌^◌, ◌≤◌, ◌<◌, ◌≡◌, refl, ◌⊎◌, inl, inr, Bool, true, false, List,
  Bool-cases, ltb, leb, ◌==◌, if◌then◌else◌, returned, panicked, u64_mod, u32_mod, lt→ltb, le→leb,
  arith,
}
use native.Mathlib.Nat.{pow-le-pow_right, one-le-pow, div-mul-le_self, mul-le-mul_right}
use new_os.Fs.{
  Ext2Superblock, Filesystems, block_size, group_count, descriptors_size, init_with, store_fs,
}

-- A superblock whose numbers `init` can work with: blocks of at most 4 KiB, groups that are not
-- empty, at most 256 groups, and a count of blocks that the sum with them does not overflow.
pub record IsUsable (sb : Ext2Superblock) : Type 0 where
  pub small : sb.log_block_size ≤ 2
  pub not_empty : 0 < sb.blocks_per_group
  pub few : sb.block_count ≤ 256 * sb.blocks_per_group
  pub fits : sb.block_count + sb.blocks_per_group < u32_mod

-- The size of a block, with its bounds.
size_lem :
    (sb : Ext2Superblock)
    → sb.log_block_size ≤ 2
    → (block_size sb ≡ returned (1024 * 2 ^ sb.log_block_size))
      × (1024 ≤ 1024 * 2 ^ sb.log_block_size)
      × (1024 * 2 ^ sb.log_block_size ≤ 4096)
unfolding block_size
size_lem sb small =
    let up : 2 ^ sb.log_block_size ≤ 2 ^ 2 = pow-le-pow_right (omega arith) small in
    let down : 1 ≤ 2 ^ sb.log_block_size = one-le-pow sb.log_block_size 2 (omega arith) in
    (
      shift_lem sb.log_block_size (2 ^ sb.log_block_size) up small,
      omega (arith, down),
      omega (arith, up),
    )
  where
    shift_lem :
        (log power : ℕ)
        → power ≤ 2 ^ 2
        → log ≤ 2
        → (if leb 64 log then panicked else returned (1024 * power % u64_mod))
          ≡ returned (1024 * power)
    shift_lem log power up small = ground arith

at_most : (g size : ℕ) → g * size < 257 * size → g ≤ 256
at_most g size below = elim (Bool-cases (leb g 256)) [
  | inl le ↦ ground (arith, le)
  | inr gt ↦
      let above : 257 ≤ g = ground (arith, gt) in
      let more = mul-le-mul_right {m = 257} {n = g} size above in
      absurd (omega (arith, below, more))
]

group_count_lem :
    (sb : Ext2Superblock) → IsUsable sb → (g : ℕ) × (group_count sb ≡ returned g) × (g ≤ 256)
unfolding group_count
group_count_lem sb u =
    let positive = u.not_empty in
    let fits = u.fits in
    let top = sb.block_count + sb.blocks_per_group - 1 in
    let few = u.few in
    let below = div-mul-le_self top sb.blocks_per_group in
    let some_sum : ltb (sb.block_count + sb.blocks_per_group) 1 ≡ false = ground arith in
    let some_group : (sb.blocks_per_group == 0) ≡ false = ground arith in
    (
      top / sb.blocks_per_group,
      rw (lt→ltb _ _ fits, some_sum, some_group) refl,
      at_most (top / sb.blocks_per_group) sb.blocks_per_group (omega (arith, below, few, positive)),
    )

descriptors_size_lem :
    (groups size : ℕ)
    → groups ≤ 256
    → 1024 ≤ size
    → size ≤ 4096
    → (n : ℕ) × (descriptors_size groups size ≡ returned n) × (n ≤ 2 ^ 14)
unfolding descriptors_size
descriptors_size_lem groups size few some_size small =
    let top = groups * 32 + size - 1 in
    let below = div-mul-le_self top size in
    let fits : ltb (groups * 32) u64_mod ≡ true = ground arith in
    let sum : ltb (groups * 32 + size) u64_mod ≡ true = ground arith in
    let more : ltb (groups * 32 + size) 1 ≡ false = ground arith in
    let not_zero : (size == 0) ≡ false = ground arith in
    let bytes : ltb (top / size * size) u64_mod ≡ true =
      lt→ltb _ _ (omega (arith, below, few, small)) in
    (
      top / size * size,
      rw (fits, sum, more, not_zero, bytes) refl,
      omega (arith, below, few, small),
    )

module _ (read_blocks : ℕ → ℕ → ℕ → List ℕ → Bool × List ℕ) (allocates : ℕ → Bool) where
  -- For a usable superblock, and a heap that can give the descriptors' vector of at most 16 KiB,
  -- the driver records the file system with its block size, and nothing else changes.
  pub init_with_lem :
      (device_id : ℕ) (sb : Ext2Superblock) (s : Filesystems)
      → IsUsable sb
      → ((n : ℕ) → n ≤ 2 ^ 14 → allocates n ≡ true)
      → init_with read_blocks allocates device_id sb s
        ≡ returned
            (true, store_fs read_blocks allocates device_id sb (1024 * 2 ^ sb.log_block_size) s)
  unfolding init_with
  init_with_lem device_id sb s u room =
      let (sized, low, high) = size_lem sb u.small in
      let (g, counted, few) = group_count_lem sb u in
      let (n, measured, bound) =
        descriptors_size_lem g (1024 * 2 ^ sb.log_block_size) few low high in
      rw (sized, counted, measured, room n bound) refl

  -- A superblock that no check refuses can still end the kernel: one with empty groups, or with a
  -- block size that is no shift of a 64-bit word.
  pub init_with_panics :
      (device_id : ℕ) (sb : Ext2Superblock) (s : Filesystems)
      → (sb.blocks_per_group ≡ 0) ⊎ (64 ≤ sb.log_block_size)
      → init_with read_blocks allocates device_id sb s ≡ panicked
  unfolding init_with block_size group_count
  init_with_panics device_id sb s (inr shift) = rw (le→leb 64 sb.log_block_size shift) refl
  init_with_panics device_id sb s (inl empty) = ground arith
