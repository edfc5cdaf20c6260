-- ===== src/Vfs.antt =====
-- The virtual file system (kernel/src/vfs.rs). A path or a name is its bytes.
pub mod Lookup
pub mod Open
pub mod Invariant
pub mod InvariantWrite
pub mod History
pub mod FileMap
pub mod Unchanged
pub mod Refinement
pub mod Files
pub mod Load
pub mod Terminal
pub mod Ramdisk
pub mod RamdiskLaws
pub mod RamdiskRoundTrip
pub mod Tests
use new_os.Base.{
  ℕ, zero, suc, ◌+◌, ◌-◌, ◌^◌, ◌≤◌, min, max, Bool, true, false, ◌&&◌, Option, none, some, List, [],
  ◌∷◌, ◌++◌, map, Run, returned, panicked, ltb, leb, if◌then◌else◌, length, take, drop, get_elem?,
  set, replicate, Bytes, codes, bytes_eq, from_utf8, encode_utf8,
}
use new_os.Tty
use new_os.Tty.{Tty}

abbrev pub max_open_files : ℕ
max_open_files = 16

pub data FileType : Type 0 where
  regular directory device pipe : FileType

pub record FileStat : Type 0 where
  pub size : ℕ
  pub file_type : FileType

pub record FileDescriptor : Type 0 where
  pub name : Bytes
  pub file_type : FileType
  pub offset : ℕ

pub record VfsEntry : Type 0 where
  pub name : Bytes
  pub file_type : FileType
  pub contents : Option Bytes

pub record Vfs : Type 0 where
  pub entries : List VfsEntry
  pub open_files : List (Option FileDescriptor)
  pub cwd : Bytes

abbrev pub new : Vfs
new = record { entries = []; open_files = replicate max_open_files none; cwd = codes "/" }

-- The four entries that `init_defaults` pushes.
abbrev pub default_entries : List VfsEntry
default_entries =
    record { name = codes "."; file_type = directory; contents = none }
    ∷ record { name = codes "dev"; file_type = directory; contents = none }
    ∷ record { name = codes "null"; file_type = device; contents = none }
    ∷ record { name = codes "tty"; file_type = device; contents = none }
    ∷ []

abbrev pub init_defaults : Vfs → Vfs
init_defaults v = record v { entries = v.entries ++ default_entries }

-- `entries.iter().find(|e| e.name == path)`
unfoldable pub find_entry : Bytes → List VfsEntry → Option VfsEntry
find_entry path [] = none
find_entry path (e ∷ es) = if bytes_eq e.name path then some e else find_entry path es

-- The write through `entries.iter_mut().find(..)`: the first entry of that name gets new contents.
unfoldable pub put_contents : Bytes → Bytes → List VfsEntry → List VfsEntry
put_contents path bytes [] = []
put_contents path bytes (e ∷ es) =
    if bytes_eq e.name path
    then record e { contents = some bytes } ∷ es
    else e ∷ put_contents path bytes es

-- The first index of the table that holds `None`.
unfoldable pub first_free : List (Option FileDescriptor) → Option ℕ
first_free [] = none
first_free (none ∷ fs) = some 0
first_free (some fd ∷ fs) = elim (first_free fs) [ none ↦ none | some j ↦ some (suc j) ]

-- The body of the loop over the entries at an entry of that name; `rest` is what the loop gives
-- on the entries behind it, to which it goes on when no slot is free.
install : FileDescriptor → Vfs × Option ℕ → Vfs → Vfs × Option ℕ
unfolding first_free
install fd rest v = elim (first_free v.open_files) [
  | none ↦ rest
  | some j ↦ (record v { open_files = set v.open_files j (some fd) }, some j)
]

open_loop : List VfsEntry → Bytes → Vfs → Vfs × Option ℕ
unfolding install
open_loop [] path v = (v, none)
open_loop (e ∷ es) path v =
    let rest = open_loop es path v in
    if bytes_eq e.name path
    then install (record { name = path; file_type = e.file_type; offset = 0 }) rest v
    else rest

unfoldable pub open_file : Bytes → Vfs → Vfs × Option ℕ
unfolding open_loop
open_file path v = open_loop v.entries path v

-- The descriptor in a slot; `none` beyond the table too.
unfoldable pub descriptor : Vfs → ℕ → Option FileDescriptor
descriptor v i = elim (get_elem? v.open_files i) [ none ↦ none | some slot ↦ slot ]

unfoldable pub close : ℕ → Vfs → Vfs × Bool
unfolding descriptor
close i v = elim (descriptor v i) [
  | none ↦ (v, false)
  | some fd ↦ (record v { open_files = set v.open_files i none }, true)
]

-- `buf[..len].copy_from_slice(..)` with the bytes of `src`.
abbrev pub copy_into : Bytes → Bytes → Bytes
copy_into src buf = src ++ drop (length src) buf

pub record ReadResult : Type 0 where
  pub vfs : Vfs
  pub tty : Tty
  pub buf : Bytes
  pub count : Option ℕ

read_tty : Bytes → Vfs → Tty → Option (List ℕ) × Tty → ReadResult
read_tty buf v tty (none, tty') = record { vfs = v; tty = tty'; buf = buf; count = some 0 }
read_tty buf v tty (some line, tty') =
    let bytes = encode_utf8 line in
    let len = min (length buf) (length bytes) in
    record { vfs = v; tty = tty'; buf = copy_into (take len bytes) buf; count = some len }

pub advance : ℕ → FileDescriptor → ℕ → Vfs → Vfs
advance i fd n v = record v {
  open_files = set v.open_files i (some (record fd { offset = fd.offset + n }));
}

-- `start >= data.len()`
abbrev pub at_end : Bytes → FileDescriptor → Bool
at_end bytes fd = leb (length bytes) fd.offset

read_contents : ℕ → FileDescriptor → Bytes → Vfs → Tty → Bytes → ReadResult
unfolding advance
read_contents i fd buf v tty bytes =
    if at_end bytes fd
    then record { vfs = v; tty = tty; buf = buf; count = some 0 }
    else (let len = min (length buf) (length bytes - fd.offset) in
        record {
          vfs = advance i fd len v;
          tty = tty;
          buf = copy_into (take len (drop fd.offset bytes)) buf;
          count = some len;
        })

read_entry : ℕ → FileDescriptor → Bytes → Vfs → Tty → Option VfsEntry → ReadResult
unfolding read_contents
read_entry i fd buf v tty none = record { vfs = v; tty = tty; buf = buf; count = none }
read_entry i fd buf v tty (some e) = elim e.contents [
  | none ↦ record { vfs = v; tty = tty; buf = buf; count = none }
  | some bytes ↦ read_contents i fd buf v tty bytes
]

unfoldable pub read : ℕ → Bytes → Vfs → Tty → ReadResult
unfolding descriptor find_entry read_tty read_entry
read i buf v tty = elim (descriptor v i) [
  | none ↦ record { vfs = v; tty = tty; buf = buf; count = none }
  | some fd ↦
      if bytes_eq fd.name (codes "tty")
      then read_tty buf v tty (Tty.read_line tty)
      else read_entry i fd buf v tty (find_entry fd.name v.entries)
]

pub record WriteResult : Type 0 where
  pub vfs : Vfs
  pub tty : Tty
  pub count : Option ℕ

-- `data.resize(start, 0)` when start > data.len(), then `extend_from_slice`.
unfoldable pub appended : ℕ → Bytes → Bytes → Bytes
appended start buf bytes =
    (if ltb (length bytes) start then bytes ++ replicate (start - length bytes) 0 else bytes) ++ buf

-- A Vec holds at most isize::MAX bytes; growing it further panics.
abbrev pub vec_limit : ℕ
vec_limit = 2 ^ 63

write_contents : ℕ → FileDescriptor → Bytes → Vfs → Tty → Bytes → Run WriteResult
unfolding advance appended
write_contents i fd buf v tty bytes =
    if ltb (max fd.offset (length bytes) + length buf) vec_limit
    then returned (record {
      vfs =
          advance i fd (length buf)
            (record v { entries = put_contents fd.name (appended fd.offset buf bytes) v.entries });
      tty = tty;
      count = some (length buf);
    })
    else panicked

write_entry : ℕ → FileDescriptor → Bytes → Vfs → Tty → Option VfsEntry → Run WriteResult
unfolding write_contents
write_entry i fd buf v tty none = returned (record { vfs = v; tty = tty; count = none })
write_entry i fd buf v tty (some e) = elim e.contents [
  | none ↦ returned (record { vfs = v; tty = tty; count = none })
  | some bytes ↦ write_contents i fd buf v tty bytes
]

write_tty : Bytes → Vfs → Tty → Option Bytes → Run WriteResult
write_tty buf v tty none = returned (record { vfs = v; tty = tty; count = none })
write_tty buf v tty (some s) =
    returned (record { vfs = v; tty = Tty.write s tty; count = some (length buf) })

unfoldable pub write : ℕ → Bytes → Vfs → Tty → Run WriteResult
unfolding descriptor find_entry put_contents write_tty write_entry
write i buf v tty = elim (descriptor v i) [
  | none ↦ returned (record { vfs = v; tty = tty; count = none })
  | some fd ↦
      if bytes_eq fd.name (codes "tty")
      then write_tty buf v tty (from_utf8 buf)
      else write_entry i fd buf v tty (find_entry fd.name v.entries)
]

unfoldable pub seek : ℕ → ℕ → Vfs → Vfs × Bool
unfolding descriptor
seek i offset v = elim (descriptor v i) [
  | none ↦ (v, false)
  | some fd ↦
      (record v { open_files = set v.open_files i (some (record fd { offset = offset })) }, true)
]

abbrev contents_size : Option Bytes → ℕ
contents_size none = 0
contents_size (some bytes) = length bytes

unfoldable pub stat : Bytes → Vfs → Option FileStat
unfolding find_entry
stat path v = elim (find_entry path v.entries) [
  | none ↦ none
  | some e ↦ some (record { size = contents_size e.contents; file_type = e.file_type })
]

unfoldable pub list_dir : Vfs → List Bytes
list_dir v = map (λ e. e.name) v.entries

is_directory : FileType → Bool
is_directory directory = true
is_directory regular = false
is_directory device = false
is_directory pipe = false

-- `entries.iter().any(..)` of `chdir`
unfoldable pub has_directory : Bytes → List VfsEntry → Bool
unfolding is_directory
has_directory path [] = false
has_directory path (e ∷ es) =
    if bytes_eq e.name path && is_directory e.file_type then true else has_directory path es

unfoldable pub chdir : Bytes → Vfs → Vfs × Bool
unfolding has_directory
chdir path v = if has_directory path v.entries then (record v { cwd = path }, true) else (v, false)

unfoldable pub mkdir : Bytes → Vfs → Vfs × Bool
unfolding find_entry
mkdir path v = elim (find_entry path v.entries) [
  | some e ↦ (v, false)
  | none ↦ (
    record v {
      entries = v.entries ++ record { name = path; file_type = directory; contents = some [] } ∷ [];
    },
    true,
  )
]

-- `entries.remove(index)` at the first entry of that name.
unfoldable pub remove_entry : Bytes → List VfsEntry → List VfsEntry
remove_entry path [] = []
remove_entry path (e ∷ es) = if bytes_eq e.name path then es else e ∷ remove_entry path es

-- The loop of `unlink` over the descriptors.
unfoldable pub close_named : Bytes → List (Option FileDescriptor) → List (Option FileDescriptor)
close_named path [] = []
close_named path (none ∷ fs) = none ∷ close_named path fs
close_named path (some fd ∷ fs) =
    (if bytes_eq fd.name path then none else some fd) ∷ close_named path fs

unfoldable pub unlink : Bytes → Vfs → Vfs × Bool
unfolding find_entry remove_entry close_named
unlink path v = elim (find_entry path v.entries) [
  | none ↦ (v, false)
  | some e ↦ (
    record v { entries = remove_entry path v.entries; open_files = close_named path v.open_files },
    true,
  )
]
