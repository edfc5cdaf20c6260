-- ===== src/Vfs/Ramdisk.antt =====
-- The ramdisk: `Vfs::init_from_ramdisk` (kernel/src/vfs.rs), which reads it, and the `add_file`
-- closure of `build_kernel_image` (tools/xtask/src/main.rs), which writes it. `data` is the slice
-- of the `size` bytes from `addr` on.
use new_os.Base.{
  ℕ, zero, suc, ◌+◌, ◌-◌, min, true, false, ◌&&◌, Option, none, some, List, [], ◌∷◌, ◌++◌, Run,
  returned, panicked, unwrap, add64, ◌>>=◌, ltb, leb, ◌==◌, if◌then◌else◌, length, take, replicate,
  Bytes, codes, slice, from_le, to_le, from_utf8,
}
use new_os.Vfs.{VfsEntry, Vfs, regular, init_defaults}

-- The bytes before the first 0: `&name_bytes[..name_len]`.
unfoldable pub until_nul : Bytes → Bytes
until_nul [] = []
until_nul (b ∷ bs) = if b == 0 then [] else b ∷ until_nul bs

-- `from_utf8(..).unwrap_or("unknown")`
unfoldable pub record_name : Bytes → Bytes
unfolding until_nul from_utf8
record_name name_bytes = elim (from_utf8 (until_nul name_bytes)) [
  | none ↦ codes "unknown"
  | some name ↦ name
]

-- One round of the loop: the entry pushed and the new offset, or `none` for the `break`.
unfoldable pub parse_record : ℕ → Bytes → Run (Option (VfsEntry × ℕ))
parse_record offset data_bytes = do
  name_bytes ← unwrap (slice data_bytes offset (offset + 64))
  size_bytes ← unwrap (slice data_bytes (offset + 64) (offset + 72))
  end ← add64 (offset + 72) (from_le size_bytes)
  if leb end (length data_bytes)
      then (do
        file_data ← unwrap (slice data_bytes (offset + 72) end)
        returned (
            some (
              record {
                name = record_name name_bytes;
                file_type = regular;
                contents = some file_data;
              },
              end,
            )))
      else returned none

-- The loop, with fuel; `none` means that the fuel ran out.
unfoldable pub scan : ℕ → ℕ → Bytes → List VfsEntry → Option (Run (List VfsEntry))
scan zero offset data_bytes es = none
scan (suc fuel) offset data_bytes es = elim (leb (offset + 72) (length data_bytes)) [
  | false ↦ some (returned es)
  | true ↦ elim (parse_record offset data_bytes) [
    | panicked ↦ some panicked
    | returned none ↦ some (returned es)
    | returned (some (e, offset')) ↦ scan fuel offset' data_bytes (es ++ e ∷ [])
  ]
]

-- Every round goes on by at least 72 bytes, so one more round than there are bytes is enough.
abbrev pub scan_all : Bytes → List VfsEntry → Option (Run (List VfsEntry))
scan_all data_bytes es = scan (suc (length data_bytes)) 0 data_bytes es

scanned : Vfs → Option (Run (List VfsEntry)) → Run Vfs
scanned v none = panicked
scanned v (some r) = do es ← r; returned (record v { entries = es })

unfoldable pub init_from_ramdisk : ℕ → Bytes → Vfs → Run Vfs
unfolding scanned
init_from_ramdisk addr data_bytes v =
    let v' = init_defaults v in
    if ltb 0 addr && ltb 0 (length data_bytes)
    then scanned v' (scan_all data_bytes v'.entries)
    else returned v'

pub record File : Type 0 where
  pub name : Bytes
  pub bytes : Bytes

-- The 64 bytes of the name, of which the last is 0, and the 8 bytes of the length.
unfoldable pub header : Bytes → Bytes
header name =
    let name_len = min (length name) 63 in take name_len name ++ replicate (64 - name_len) 0

unfoldable pub add_file : Bytes → File → Bytes
unfolding header
add_file ramdisk file = ramdisk ++ (header file.name ++ (to_le 8 (length file.bytes) ++ file.bytes))

unfoldable pub add_files : Bytes → List File → Bytes
unfolding add_file
add_files ramdisk [] = ramdisk
add_files ramdisk (file ∷ files) = add_files (add_file ramdisk file) files
