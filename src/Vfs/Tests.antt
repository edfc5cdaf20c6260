-- ===== src/Vfs/Tests.antt =====
-- The theorems on the file system at concrete states.
use new_os.Vfs.Terminal.{typed_line_is_read}
use new_os.Tty.{is_control}
use new_os.Tty.Line.{IsPrintable, HasInput, typed}
use new_os.Base.{
  ℕ, min, take, drop, encode_utf8, ◌≤◌, ◌≡◌, ◌≢◌, refl, none, some, List, [], ◌∷◌, ◌++◌, map, arith,
  Bytes, returned, codes, length, ◌<◌, set, u64_mod, is_utf8, bytes_eq, to_le,
}
use new_os.Tty
use new_os.Tty.{Tty}
use new_os.Vfs
use new_os.Vfs.{
  Vfs, VfsEntry, FileDescriptor, WriteResult, regular, default_entries, descriptor, find_entry,
  first_free, open_file, unlink, close, read, write, max_open_files,
}
use new_os.Vfs.History.{here, next, step_open, step_unlink, open_descriptors_resolve}
use new_os.Vfs.FileMap.{view, AreUnique}
use new_os.Vfs.Refinement.{change, calls_refine}
use new_os.Vfs.Invariant.{Resolves}
use new_os.Vfs.Open.{Opens, open_file-Opens}
use new_os.Vfs.Files.{OpenFile, read_lem, write_lem, written}
use new_os.Vfs.Load.{Loaded, load_file, load_file-contents}
use new_os.Vfs.Ramdisk.{File, init_from_ramdisk, add_files}
use new_os.Vfs.RamdiskRoundTrip.{IsFile, entry_of, init_from_ramdisk-add_files}

-- Two files, and the terminal.
abbrev motd : VfsEntry
motd = record { name = codes "motd"; file_type = regular; contents = some (codes "hello") }

abbrev notes : VfsEntry
notes = record { name = codes "notes"; file_type = regular; contents = some [] }

abbrev two_files : List VfsEntry
two_files = notes ∷ motd ∷ []

abbrev fs : Vfs
fs = record Vfs.new { entries = two_files }

abbrev tty : Tty
tty = Tty.new none

-- `motd` is open in slot 0, after its first byte.
abbrev motd_fd : FileDescriptor
motd_fd = record { name = codes "motd"; file_type = regular; offset = 1 }

abbrev open_fs : Vfs
open_fs = record fs { open_files = set fs.open_files 0 (some motd_fd) }

not_tty : codes "motd" ≢ codes "tty"
not_tty e = cc

motd_open : OpenFile open_fs 0 motd_fd motd (codes "hello")
unfolding descriptor find_entry bytes_eq
motd_open = record { slot = refl; not_tty = not_tty; found = refl; contents = refl }

notes_ne : codes "notes" ≢ codes "motd"
notes_ne e = cc

read_lem_example :
    (((read 0 (0 ∷ 0 ∷ 7 ∷ []) open_fs tty).count ≡ some 3))
    × ((read 0 (0 ∷ 0 ∷ 7 ∷ []) open_fs tty).buf ≡ codes "ell")
    × (descriptor (read 0 (0 ∷ 0 ∷ 7 ∷ []) open_fs tty).vfs 0
        ≡ some (record motd_fd { offset = 4 }))
    × ((read 0 (0 ∷ 0 ∷ 7 ∷ []) open_fs tty).vfs.entries ≡ two_files)
read_lem_example = read_lem open_fs 0 motd_fd motd (codes "hello") (0 ∷ 0 ∷ 7 ∷ []) tty motd_open

write_lem_example :
    (r : WriteResult) × (write 0 (codes "abc") open_fs tty ≡ returned r)
    × (r.count ≡ some 3)
    × (find_entry (codes "motd") r.vfs.entries
        ≡ some (record motd { contents = some (written motd_fd (codes "abc") (codes "hello")) }))
    × (descriptor r.vfs 0 ≡ some (record motd_fd { offset = 4 }))
    × (find_entry (codes "notes") r.vfs.entries ≡ find_entry (codes "notes") two_files)
write_lem_example =
    write_lem open_fs 0 motd_fd motd (codes "hello") (codes "abc") tty (codes "notes") motd_open
      notes_ne (omega arith)

open_file-Opens_example : Opens (codes "motd") fs (open_file (codes "motd") fs)
open_file-Opens_example = open_file-Opens (codes "motd") fs

-- After `open("motd")`, the descriptor 0 has the entry of that file.
abbrev fresh_fd : FileDescriptor
fresh_fd = record { name = codes "motd"; file_type = regular; offset = 0 }

is_open : descriptor (open_file (codes "motd") fs).0 0 ≡ some fresh_fd
unfolding open_file Vfs.open_loop descriptor bytes_eq
is_open = refl

open_descriptors_resolve_example :
    (length (open_file (codes "motd") fs).0.open_files ≡ max_open_files)
    × Resolves (open_file (codes "motd") fs).0.entries fresh_fd
open_descriptors_resolve_example =
    open_descriptors_resolve two_files (open_file (codes "motd") fs).0 0 fresh_fd
      (next here (step_open (codes "motd") fs)) is_open

found_motd : find_entry (codes "motd") two_files ≡ some motd
unfolding find_entry bytes_eq
found_motd = refl

free_slot : first_free fs.open_files ≡ some 0
unfolding first_free
free_slot = refl

load_file-contents_example :
    (r : Loaded) × (load_file (codes "motd") fs tty ≡ returned r)
    × (r.bytes ≡ some (codes "hello"))
    × (descriptor r.vfs 0 ≡ some (record fresh_fd { offset = 5 }))
    × (r.vfs.entries ≡ two_files)
load_file-contents_example =
    load_file-contents (codes "motd") fs tty motd (codes "hello") 0 not_tty found_motd refl
      free_slot

abbrev shell_file : File
shell_file = record { name = codes "sh"; bytes = 1 ∷ 2 ∷ 3 ∷ [] }

shell_file-IsFile : IsFile shell_file
unfolding is_utf8
shell_file-IsFile = record {
  short = omega arith;
  no_nul = (omega arith, (omega arith, tt));
  utf8 = refl;
}

short_ramdisk : length (add_files [] (shell_file ∷ [])) < u64_mod
unfolding add_files to_le
short_ramdisk = omega arith

init_from_ramdisk-add_files_example :
    init_from_ramdisk 4096 (add_files [] (shell_file ∷ [])) Vfs.new
    ≡ returned (record Vfs.new { entries = default_entries ++ map entry_of (shell_file ∷ []) })
init_from_ramdisk-add_files_example =
    init_from_ramdisk-add_files 4096 (shell_file ∷ []) (omega arith) (omega arith)
      (shell_file-IsFile, tt) short_ramdisk

-- The terminal is open in slot 0.
abbrev tty_fd : FileDescriptor
tty_fd = record { name = codes "tty"; file_type = regular; offset = 0 }

abbrev tty_fs : Vfs
tty_fs = record fs { open_files = set fs.open_files 0 (some tty_fd) }

tty_slot : descriptor tty_fs 0 ≡ some tty_fd
unfolding descriptor
tty_slot = refl

letter-IsPrintable : (c : ℕ) → 97 ≤ c → c < 123 → IsPrintable c
unfolding is_control
letter-IsPrintable c low high = ground arith

-- The keys l, x, backspace, s and enter.
typed_line_is_read_example :
    let r = read 0 (1 ∷ 1 ∷ 1 ∷ 1 ∷ []) tty_fs (typed (108 ∷ 120 ∷ 8 ∷ 115 ∷ 10 ∷ []) tty) in
    let bytes = encode_utf8 (codes "ls" ++ 10 ∷ []) in
    let n = min 4 (length bytes) in
    (r.count ≡ some n)
    × (r.buf ≡ take n bytes ++ drop n (1 ∷ 1 ∷ 1 ∷ 1 ∷ []))
    × (r.vfs ≡ tty_fs)
    × HasInput r.tty [] []
typed_line_is_read_example =
    typed_line_is_read tty_fs 0 tty_fd (1 ∷ 1 ∷ 1 ∷ 1 ∷ []) tty (108 ∷ []) (115 ∷ []) 120 tty_slot
      refl (letter-IsPrintable 108 (omega arith) (omega arith), tt)
      (letter-IsPrintable 120 (omega arith) (omega arith))
      (letter-IsPrintable 115 (omega arith) (omega arith), tt)
      (record { line_buffer = refl; input_queue = refl })

two_files-AreUnique : AreUnique two_files
unfolding find_entry bytes_eq
two_files-AreUnique = (refl, (refl, tt))

-- After `open("motd")`, the removal of the other file.
calls_refine_example :
    AreUnique (unlink (codes "notes") (open_file (codes "motd") fs).0).0.entries
    × ((name : Bytes)
        → view (unlink (codes "notes") (open_file (codes "motd") fs).0).0 name
          ≡ change
              (step_unlink (codes "notes") (open_file (codes "motd") fs).0)
              (view (open_file (codes "motd") fs).0)
              name)
calls_refine_example =
    calls_refine two_files-AreUnique (next here (step_open (codes "motd") fs))
      (step_unlink (codes "notes") (open_file (codes "motd") fs).0)
