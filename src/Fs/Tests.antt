-- ===== src/Fs/Tests.antt =====
-- Runs of the ext2 driver (kernel/src/fs/ext2.rs).
use new_os.Base.{ℕ, ◌≡◌, refl, Bool, true, none, [], ◌∷◌, ◌++◌, replicate, Bytes}
use new_os.Fs.{Ext2Inode, Filesystems, is_directory, is_regular_file}

-- A device of 100 blocks of 4096 bytes, in one group.
abbrev block_2 : Bytes
block_2 =
    replicate 4 0
    ++ ((100 ∷ replicate 19 0)
        ++ ((2 ∷ replicate 7 0)
            ++ ((0 ∷ 128 ∷ 0 ∷ 0 ∷ replicate 20 0) ++ ((0x53 ∷ 0xef ∷ []) ++ replicate 790 0))))

abbrev reads_block_2 : ℕ → ℕ → ℕ → Bytes → Bool × Bytes
reads_block_2 device_id lba count buffer = (true, block_2)

abbrev has_room : ℕ → Bool
has_room n = true

abbrev nothing_mounted : Filesystems
nothing_mounted = record { ext2_fs = none; mounts = [] }

abbrev inode_of : ℕ → Ext2Inode
inode_of mode = record {
  mode = mode;
  uid = 0;
  size_low = 0;
  atime = 0;
  ctime = 0;
  inode_mtime = 0;
  dtime = 0;
  gid = 0;
  links_count = 1;
  blocks = 0;
  inode_flags = 0;
  osd1 = 0;
  block = [];
  generation = 0;
  file_acl = 0;
  dir_acl = 0;
  faddr = 0;
  osd2 = [];
}

-- A symbolic link, of mode 0xa1ff, passes for a regular file, and a block device, of mode 0x61b0,
-- for a directory: the tests look at one bit of the file type each.
symlink_is_regular : is_regular_file (inode_of 0xa1ff) ≡ true
unfolding is_regular_file
symlink_is_regular = refl

block_device_is_directory : is_directory (inode_of 0x61b0) ≡ true
unfolding is_directory
block_device_is_directory = refl
