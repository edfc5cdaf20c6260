-- ===== src/Vfs/RamdiskRoundTrip.antt =====
-- What the ramdisk writer (tools/xtask/src/main.rs) puts in, the reader (kernel/src/vfs.rs) gets
-- out.
use mathlib.Core.List.{append_assoc, append-nil}
use new_os.Base.{
  ℕ, zero, suc, ◌+◌, ◌-◌, ◌≤◌, ◌<◌, min, ◌≡◌, refl, sym, ap, ◌∙◌, true, some, List, [], ◌∷◌, ◌++◌,
  map, arith, returned, ltb, leb, lt→ltb, le→leb, u64_mod, length, take, replicate, length-append,
  length-replicate, take_all, length-take, All, Bytes, slice, slice-append, from_le, to_le,
  length-to_le, from_le-to_le, from_utf8, is_utf8,
}
use new_os.Vfs
use new_os.Vfs.{VfsEntry, Vfs, regular, init_defaults, default_entries}
use new_os.Vfs.Ramdisk.{
  until_nul, record_name, parse_record, scan, init_from_ramdisk, File, header, add_file, add_files,
}

-- A file whose name fits its field: valid UTF-8 of at most 63 bytes with no 0 among them.
pub record IsFile (file : File) : Type 0 where
  pub short : length file.name ≤ 63
  pub no_nul : All (λ b. 0 < b) file.name
  pub utf8 : is_utf8 file.name ≡ true

-- The entry that stands for it.
abbrev pub entry_of : File → VfsEntry
entry_of file = record { name = file.name; file_type = regular; contents = some file.bytes }

-- The bytes of one record, and of a ramdisk.
abbrev sizes : File → Bytes
sizes file = to_le 8 (length file.bytes)

abbrev record_of : File → Bytes
record_of file = header file.name ++ (sizes file ++ file.bytes)

abbrev image : List File → Bytes
image [] = []
image (file ∷ files) = record_of file ++ image files

add_files-image :
    (ramdisk : Bytes) (files : List File) → add_files ramdisk files ≡ ramdisk ++ image files
unfolding add_files
add_files-image ramdisk [] = sym (append-nil ramdisk)
add_files-image ramdisk (file ∷ files) =
    add_files-image (add_file ramdisk file) files ∙ (unfold add_file in append_assoc ramdisk _ _)

length-header : (file : File) → length (header file.name) ≡ 64
unfolding header
length-header file = omega (
  arith,
  length-append {0} (take (min (length file.name) 63) file.name)
      (replicate (64 - min (length file.name) 63) 0),
  length-take {0} (min (length file.name) 63) file.name,
  length-replicate {0} (64 - min (length file.name) 63) zero,
)

until_nul-zeros :
    (name : Bytes) (k : ℕ) → All (λ b. 0 < b) name → until_nul (name ++ replicate (suc k) 0) ≡ name
unfolding until_nul
until_nul-zeros [] k h = refl
until_nul-zeros (b ∷ bs) k h = ground (arith, until_nul-zeros bs k h.1)

record_name-until_nul :
    (field name : Bytes) → until_nul field ≡ name → is_utf8 name ≡ true → record_name field ≡ name
unfolding record_name from_utf8
record_name-until_nul field name h valid = rw (h, record_name, valid)

record_name-header : (file : File) → IsFile file → record_name (header file.name) ≡ file.name
record_name-header file h = record_name-until_nul (header file.name) file.name padded h.utf8
  where
    padded : until_nul (header file.name) ≡ file.name
    padded =
        let len : min (length file.name) 63 ≡ length file.name = omega arith in
        let pad : 64 - length file.name ≡ suc (63 - length file.name) = omega arith in
        unfold header in
        rw (len, take_all file.name (length file.name) (omega arith), pad)
          (until_nul-zeros file.name (63 - length file.name) h.no_nul)

-- Reading a record that stands between other bytes.
module _ (pre rest : Bytes) (file : File) (h : IsFile file)
    (fits : length (pre ++ (record_of file ++ rest)) < u64_mod) where
  abbrev tail_of : Bytes
  tail_of = file.bytes ++ rest

  abbrev whole : Bytes
  whole = pre ++ (header file.name ++ (sizes file ++ tail_of))

  whole_eq : pre ++ (record_of file ++ rest) ≡ whole
  whole_eq =
      ap (λ t. pre ++ t)
        (append_assoc (header file.name) (sizes file ++ file.bytes) rest
          ∙ ap (λ t. header file.name ++ t) (append_assoc (sizes file) file.bytes rest))

  behind_header : whole ≡ (pre ++ header file.name) ++ (sizes file ++ tail_of)
  behind_header = sym (append_assoc pre (header file.name) (sizes file ++ tail_of))

  behind_sizes : whole ≡ ((pre ++ header file.name) ++ sizes file) ++ tail_of
  behind_sizes = behind_header ∙ sym (append_assoc (pre ++ header file.name) (sizes file) tail_of)

  length-before : length (pre ++ header file.name) ≡ length pre + 64
  length-before = omega (arith, length-append {0} pre (header file.name), length-header file)

  length-behind : length ((pre ++ header file.name) ++ sizes file) ≡ length pre + 72
  length-behind = omega (
    arith,
    length-before,
    length-append {0} (pre ++ header file.name) (sizes file),
    length-to_le 8 (length file.bytes),
  )

  length-whole : length whole ≡ length pre + 72 + length file.bytes + length rest
  length-whole =
      ap length behind_sizes
      ∙ omega (
        arith,
        length-behind,
        length-append {0} ((pre ++ header file.name) ++ sizes file) tail_of,
        length-append {0} file.bytes rest,
      )

  name_slice : slice whole (length pre) (length pre + 64) ≡ some (header file.name)
  name_slice =
      slice-append pre (header file.name) (sizes file ++ tail_of) _ _ refl
        (omega (arith, length-header file))

  size_slice : slice whole (length pre + 64) (length pre + 72) ≡ some (sizes file)
  size_slice = rw behind_header (
      slice-append (pre ++ header file.name) (sizes file) tail_of _ _ (sym length-before)
        (omega (arith, length-to_le 8 (length file.bytes))))

  body_slice : slice whole (length pre + 72) (length pre + 72 + length file.bytes) ≡ some file.bytes
  body_slice = rw behind_sizes (
      slice-append ((pre ++ header file.name) ++ sizes file) file.bytes rest _ _ (sym length-behind)
        refl)

  size_read : from_le (sizes file) ≡ length file.bytes
  size_read = from_le-to_le 8 (length file.bytes) (omega (arith, length-whole, ap length whole_eq))

  parse_record-record :
      parse_record (length pre) whole
      ≡ returned (some (entry_of file, length pre + 72 + length file.bytes))
  unfolding parse_record
  parse_record-record =
      let size : length (pre ++ (record_of file ++ rest)) ≡ length whole = ap length whole_eq in
      rw (
        name_slice,
        size_slice,
        size_read,
        lt→ltb (length pre + 72 + length file.bytes) u64_mod (omega (arith, length-whole)),
        le→leb (length pre + 72 + length file.bytes) (length whole) (omega (arith, length-whole)),
        body_slice,
        record_name-header file h,
      )

  same_rest : whole ≡ (pre ++ record_of file) ++ rest
  same_rest = sym whole_eq ∙ sym (append_assoc pre (record_of file) rest)

  length-next : length pre + 72 + length file.bytes ≡ length (pre ++ record_of file)
  length-next = omega (
    arith,
    length-append {0} (header file.name) (sizes file ++ file.bytes),
    length-append {0} (sizes file) file.bytes,
    length-header file,
    length-to_le 8 (length file.bytes),
    length-append {0} pre (record_of file),
  )

  room : leb (length pre + 72) (length whole) ≡ true
  room = le→leb _ _ (omega (arith, length-whole))

  -- One round of the loop reads one record.
  scan-record :
      (fuel : ℕ) (es : List VfsEntry)
      → scan (suc fuel) (length pre) (pre ++ (record_of file ++ rest)) es
        ≡ scan fuel
            (length (pre ++ record_of file))
            ((pre ++ record_of file) ++ rest)
            (es ++ entry_of file ∷ [])
  unfolding scan
  scan-record fuel es = rw whole_eq (
      rw (room, scan, parse_record-record)
        (ap (λ (o : ℕ). scan fuel o whole (es ++ entry_of file ∷ [])) length-next
          ∙ ap
              (λ (w : Bytes).
                scan fuel (length (pre ++ record_of file)) w (es ++ entry_of file ∷ []))
              same_rest))

scan-image :
    (fuel : ℕ) (pre : Bytes) (files : List File) (es : List VfsEntry)
    → All IsFile files
    → length (pre ++ image files) < u64_mod
    → length (image files) < fuel
    → scan fuel (length pre) (pre ++ image files) es ≡ some (returned (es ++ map entry_of files))
scan-image zero pre files es h fits enough = absurd (omega arith)
scan-image (suc fuel) pre [] es h fits enough =
    let short : ltb (length (pre ++ [])) (length pre + 72) ≡ true =
      lt→ltb _ _ (omega (arith, length-append {0} pre [])) in
    unfold scan in ground (arith, append-nil es)
scan-image (suc fuel) pre (file ∷ files) es h fits enough =
    let again : length ((pre ++ record_of file) ++ image files) < u64_mod =
      rw (append_assoc pre (record_of file) (image files)) fits in
    let less : length (image files) < fuel = omega (
      arith,
      length-append {0} (record_of file) (image files),
      length-append {0} (header file.name) (sizes file ++ file.bytes),
      length-header file,
    ) in
    scan-record pre (image files) file h.0 fits fuel es
    ∙ scan-image fuel (pre ++ record_of file) files (es ++ entry_of file ∷ []) h.1 again less
    ∙ ap (λ t. some (returned t)) (append_assoc es (entry_of file ∷ []) (map entry_of files))

-- A ramdisk that the build tool writes from files with names of at most 63 bytes, valid UTF-8 and
-- without a 0, is read back by a fresh file system into the four default entries, followed by one
-- regular file for each file written, in order, with its name and exactly its bytes. The address
-- is not 0, at least one file is written, and the ramdisk has fewer than 2^64 bytes.
pub init_from_ramdisk-add_files :
    (addr : ℕ) (files : List File)
    → 0 < addr
    → 0 < length files
    → All IsFile files
    → length (add_files [] files) < u64_mod
    → init_from_ramdisk addr (add_files [] files) Vfs.new
      ≡ returned (record Vfs.new { entries = default_entries ++ map entry_of files })
unfolding init_from_ramdisk
init_from_ramdisk-add_files addr [] ha hf h fits = absurd (omega arith)
init_from_ramdisk-add_files addr (file ∷ files) ha hf h fits =
    let e = add_files-image [] (file ∷ files) in
    let fits' : length (image (file ∷ files)) < u64_mod = rw e at fits in
    let some_bytes : 0 < length (image (file ∷ files)) = omega (
      arith,
      length-append {0} (record_of file) (image files),
      length-append {0} (header file.name) (sizes file ++ file.bytes),
      length-header file,
    ) in
    let read_back =
      scan-image (suc (length (image (file ∷ files)))) [] (file ∷ files) default_entries h fits'
        (omega arith) in
    rw (e, lt→ltb 0 addr ha, lt→ltb 0 (length (image (file ∷ files))) some_bytes, read_back)
