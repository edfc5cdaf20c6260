-- ===== src/Fs.antt =====
-- The ext2 driver and the mounted file systems (kernel/src/fs/ext2.rs, kernel/src/fs/mod.rs). The
-- disk driver's read_blocks is a parameter, which gives the result and the buffer after the call, as
-- is whether the heap can give a vector of a size.
pub mod Superblock
pub mod Mounting
pub mod Tests
use Prim.Native.Nat.{bit_and}
use new_os.Base.{
  ℕ, zero, suc, ◌+◌, ◌-◌, ◌*◌, ◌/◌, ◌%◌, ◌^◌, Bool, true, false, not, Option, none, some, List, [],
  ◌∷◌, ◌++◌, ltb, leb, ◌==◌, if◌then◌else◌, take, drop, replicate, Run, returned, panicked, ◌>>=◌,
  u64_mod, u32_mod, add64, sub64, Bytes, from_le,
}

pub record Ext2Superblock : Type 0 where
  pub inode_count : ℕ
  pub block_count : ℕ
  pub reserved_blocks : ℕ
  pub free_blocks : ℕ
  pub free_inodes : ℕ
  pub first_data_block : ℕ
  pub log_block_size : ℕ
  pub log_frag_size : ℕ
  pub blocks_per_group : ℕ
  pub frags_per_group : ℕ
  pub inodes_per_group : ℕ
  pub mtime : ℕ
  pub wtime : ℕ
  pub mnt_count : ℕ
  pub max_mnt_count : ℕ
  pub magic : ℕ
  pub state : ℕ
  pub errors : ℕ
  pub minor_rev_level : ℕ
  pub lastcheck : ℕ
  pub checkinterval : ℕ
  pub creator_os : ℕ
  pub rev_level : ℕ
  pub reserved : Bytes

abbrev pub is_valid : Ext2Superblock → Bool
is_valid sb = sb.magic == 0xef53

-- `1024 << self.log_block_size`
unfoldable pub block_size : Ext2Superblock → Run ℕ
block_size sb =
    if leb 64 sb.log_block_size then panicked else returned (1024 * 2 ^ sb.log_block_size % u64_mod)

pub record Ext2Inode : Type 0 where
  pub mode : ℕ
  pub uid : ℕ
  pub size_low : ℕ
  pub atime : ℕ
  pub ctime : ℕ
  pub inode_mtime : ℕ
  pub dtime : ℕ
  pub gid : ℕ
  pub links_count : ℕ
  pub blocks : ℕ
  pub inode_flags : ℕ
  pub osd1 : ℕ
  pub block : List ℕ
  pub generation : ℕ
  pub file_acl : ℕ
  pub dir_acl : ℕ
  pub faddr : ℕ
  pub osd2 : Bytes

unfoldable pub is_directory : Ext2Inode → Bool
is_directory inode = not (bit_and inode.mode 0x4000 == 0)

unfoldable pub is_regular_file : Ext2Inode → Bool
is_regular_file inode = not (bit_and inode.mode 0x8000 == 0)

abbrev pub inode_size : Ext2Inode → ℕ
inode_size inode = inode.size_low

pub record Ext2Fs : Type 0 where
  pub superblock : Ext2Superblock
  pub fs_block_size : ℕ
  pub device_id : ℕ
  pub group_desc : List Bytes

pub data FsType : Type 0 where
  ext2 fat32 unknown : FsType

pub record Mount : Type 0 where
  pub device : ℕ
  pub fs_type : FsType
  pub mount_point : Bytes
  pub root_inode : ℕ

-- The globals EXT2_FS and MOUNTS.
pub record Filesystems : Type 0 where
  pub ext2_fs : Option Ext2Fs
  pub mounts : List Mount

-- A field of the packed structure in the buffer.
abbrev pub field : Bytes → ℕ → ℕ → ℕ
field buffer offset width = from_le (take width (drop offset buffer))

-- `ptr::read_unaligned(buffer.as_ptr() as *const Ext2Superblock)`
unfoldable pub superblock_at : Bytes → Ext2Superblock
unfolding from_le
superblock_at buffer = record {
  inode_count = field buffer 0 4;
  block_count = field buffer 4 4;
  reserved_blocks = field buffer 8 4;
  free_blocks = field buffer 12 4;
  free_inodes = field buffer 16 4;
  first_data_block = field buffer 20 4;
  log_block_size = field buffer 24 4;
  log_frag_size = field buffer 28 4;
  blocks_per_group = field buffer 32 4;
  frags_per_group = field buffer 36 4;
  inodes_per_group = field buffer 40 4;
  mtime = field buffer 44 4;
  wtime = field buffer 48 4;
  mnt_count = field buffer 52 2;
  max_mnt_count = field buffer 54 2;
  magic = field buffer 56 2;
  state = field buffer 58 2;
  errors = field buffer 60 2;
  minor_rev_level = field buffer 62 2;
  lastcheck = field buffer 64 4;
  checkinterval = field buffer 68 4;
  creator_os = field buffer 72 4;
  rev_level = field buffer 76 4;
  reserved = take 768 (drop 80 buffer);
}

abbrev pub dummy_superblock : Ext2Superblock
dummy_superblock = record {
  inode_count = 0;
  block_count = 0;
  reserved_blocks = 0;
  free_blocks = 0;
  free_inodes = 0;
  first_data_block = 1;
  log_block_size = 0;
  log_frag_size = 0;
  blocks_per_group = 8192;
  frags_per_group = 8192;
  inodes_per_group = 1024;
  mtime = 0;
  wtime = 0;
  mnt_count = 0;
  max_mnt_count = 0;
  magic = 0xef53;
  state = 1;
  errors = 0;
  minor_rev_level = 0;
  lastcheck = 0;
  checkinterval = 0;
  creator_os = 0;
  rev_level = 0;
  reserved = replicate 768 0;
}

-- `a + b` and `a * b` of u32 and usize, in a build with overflow checks.
abbrev pub add32 : ℕ → ℕ → Run ℕ
add32 a b = if ltb (a + b) u32_mod then returned (a + b) else panicked

abbrev pub mul64 : ℕ → ℕ → Run ℕ
mul64 a b = if ltb (a * b) u64_mod then returned (a * b) else panicked

abbrev pub divide : ℕ → ℕ → Run ℕ
divide a b = if b == 0 then panicked else returned (a / b)

-- `(block_count + blocks_per_group - 1) / blocks_per_group`
unfoldable pub group_count : Ext2Superblock → Run ℕ
group_count sb = do
  sum ← add32 sb.block_count sb.blocks_per_group
  top ← sub64 sum 1
  divide top sb.blocks_per_group

-- `((group_count * 32 + block_size - 1) / block_size) * block_size`
unfoldable pub descriptors_size : ℕ → ℕ → Run ℕ
descriptors_size groups size = do
  bytes ← mul64 groups 32
  sum ← add64 bytes size
  top ← sub64 sum 1
  blocks ← divide top size
  mul64 blocks size

module _ (read_blocks : ℕ → ℕ → ℕ → Bytes → Bool × Bytes) (allocates : ℕ → Bool) where
  -- What `read_blocks` has read, if it has.
  pub read_result : Bool × Bytes → Option Ext2Superblock
  read_result (false, buffer) = some dummy_superblock
  read_result (true, buffer) =
      let sb = superblock_at buffer in if is_valid sb then some sb else none

  unfoldable pub read_superblock : ℕ → Option Ext2Superblock
  unfolding read_result
  read_superblock device_id = read_result (read_blocks device_id 2 1 (replicate 1024 0))

  -- `EXT2_FS = Some(fs)`
  abbrev pub store_fs : ℕ → Ext2Superblock → ℕ → Filesystems → Filesystems
  store_fs device_id superblock size s = record s {
    ext2_fs = some (record {
      superblock = superblock;
      fs_block_size = size;
      device_id = device_id;
      group_desc = [];
    });
  }

  -- `init` behind the superblock.
  unfoldable pub init_with : ℕ → Ext2Superblock → Filesystems → Run (Bool × Filesystems)
  init_with device_id superblock s = do
    size ← block_size superblock
    groups ← group_count superblock
    gd_size ← descriptors_size groups size
    if allocates gd_size then returned (true, store_fs device_id superblock size s) else panicked

  pub init_from : ℕ → Option Ext2Superblock → Filesystems → Run (Bool × Filesystems)
  init_from device_id none s = returned (false, s)
  init_from device_id (some superblock) s = init_with device_id superblock s

  unfoldable pub ext2_init : ℕ → Filesystems → Run (Bool × Filesystems)
  unfolding init_from
  ext2_init device_id s = init_from device_id (read_superblock device_id) s

  -- `fs::mount`
  abbrev pub fs_mount : ℕ → FsType → Bytes → Filesystems → Filesystems
  fs_mount device fs_type mount_point s = record s {
    mounts =
        s.mounts
        ++ record { device = device; fs_type = fs_type; mount_point = mount_point; root_inode = 2 }
          ∷ [];
  }

  unfoldable pub ext2_mount : ℕ → Filesystems → Run (Bool × Filesystems)
  ext2_mount device_id s = do
    (ready, s') ← ext2_init device_id s
    returned (if ready then (true, fs_mount device_id FsType.ext2 (b'/' ∷ []) s') else (false, s'))
