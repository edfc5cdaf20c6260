-- ===== src/Fs/Mounting.antt =====
-- Mounting a device (kernel/src/fs/ext2.rs, kernel/src/fs/mod.rs).
use new_os.Base.{
  ℕ, ◌*◌, ◌^◌, ◌≡◌, Bool, true, false, [], ◌∷◌, Run, returned, ◌>>=◌, Bytes, if◌then◌else◌,
}
use new_os.Fs.{
  Ext2Superblock, Filesystems, FsType, is_valid, superblock_at, dummy_superblock, init_from,
  read_result, store_fs, fs_mount,
}

module _ (read_blocks : ℕ → ℕ → ℕ → Bytes → Bool × Bytes) (allocates : ℕ → Bool) where
  -- What mounting a device does: a device whose block 2 reads without the magic number is refused,
  -- and one with it is mounted with its superblock; one that cannot be read is mounted with a
  -- made-up superblock.
  pub data Mounts (device_id : ℕ) (s : Filesystems)
      : Bool × Bytes → Run (Bool × Filesystems) → Type 0 where
    refused :
        {buffer : Bytes}
        → is_valid (superblock_at buffer) ≡ false
        → Mounts device_id s (true, buffer) (returned (false, s))
    mounted :
        {buffer : Bytes} {size : ℕ}
        → is_valid (superblock_at buffer) ≡ true
        → size ≡ 1024 * 2 ^ Ext2Superblock.log_block_size (superblock_at buffer)
        → Mounts device_id s
            (true, buffer)
            (returned (
              true,
              fs_mount read_blocks allocates device_id FsType.ext2
                  (b'/' ∷ [])
                  (store_fs read_blocks allocates device_id (superblock_at buffer) size s),
            ))
    made_up :
        {buffer : Bytes}
        → Mounts device_id s
            (false, buffer)
            (returned (
              true,
              fs_mount read_blocks allocates device_id FsType.ext2
                  (b'/' ∷ [])
                  (store_fs read_blocks allocates device_id dummy_superblock 1024 s),
            ))

  -- The sum of what follows the read.
  abbrev mount_result : ℕ → Filesystems → Bool × Bytes → Run (Bool × Filesystems)
  mount_result device_id s r =
      init_from read_blocks allocates device_id (read_result read_blocks allocates r) s
      >>= λ (q : Bool × Filesystems). returned (
          if q.0
          then (true, fs_mount read_blocks allocates device_id FsType.ext2 (b'/' ∷ []) q.1)
          else (false, q.1))
