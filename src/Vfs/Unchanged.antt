-- ===== src/Vfs/Unchanged.antt =====
-- The methods of the file system (kernel/src/vfs.rs) that keep its entries.
use new_os.Base.{
  ℕ, ◌≡◌, refl, arith, Bool-cases, inl, inr, Option, none, some, Option-cases, List, Bytes,
  bytes_eq, codes,
}
use new_os.Tty
use new_os.Tty.{Tty}
use new_os.Vfs
use new_os.Vfs.{
  VfsEntry, FileDescriptor, FileType, Vfs, ReadResult, WriteResult, find_entry, put_contents,
  remove_entry, close_named, appended, descriptor, at_end, open_file, close, read, read_tty,
  read_entry, read_contents, seek, chdir, mkdir, unlink, write, write_entry, write_contents,
  write_tty, first_free, vec_limit,
}
use new_os.Vfs.Open.{opened, open_file-eq-opened}

opened_entries :
    (path : Bytes) (v : Vfs) (e : Option VfsEntry) (slot : Option ℕ)
    → (opened path v e slot).0.entries ≡ v.entries
opened_entries path v none slot = refl
opened_entries path v (some e) none = refl
opened_entries path v (some e) (some j) = refl

pub open_entries : (path : Bytes) (v : Vfs) → (open_file path v).0.entries ≡ v.entries
open_entries path v =
    rw (open_file-eq-opened path v)
      (opened_entries path v (find_entry path v.entries) (first_free v.open_files))

pub close_entries : (i : ℕ) (v : Vfs) → (close i v).0.entries ≡ v.entries
unfolding close
close_entries i v = ground arith

pub seek_entries : (i offset : ℕ) (v : Vfs) → (seek i offset v).0.entries ≡ v.entries
unfolding seek
seek_entries i offset v = ground arith

pub chdir_entries : (path : Bytes) (v : Vfs) → (chdir path v).0.entries ≡ v.entries
unfolding chdir
chdir_entries path v = ground arith

read_tty_entries :
    (buf : Bytes) (v : Vfs) (tty : Tty) (line : Option (List ℕ) × Tty)
    → (read_tty buf v tty line).vfs.entries ≡ v.entries
unfolding read_tty
read_tty_entries buf v tty (none, tty') = refl
read_tty_entries buf v tty (some line, tty') = refl

read_contents_entries :
    (i : ℕ) (fd : FileDescriptor) (buf : Bytes) (v : Vfs) (tty : Tty) (bytes : Bytes)
    → (read_contents i fd buf v tty bytes).vfs.entries ≡ v.entries
unfolding read_contents Vfs.advance
read_contents_entries i fd buf v tty bytes = elim (Bool-cases (at_end bytes fd)) [
  | inl done ↦ rw (read_contents, done) refl
  | inr more ↦ rw (read_contents, more) refl
]

read_entry_entries :
    (i : ℕ) (fd : FileDescriptor) (buf : Bytes) (v : Vfs) (tty : Tty) (e : Option VfsEntry)
    → (read_entry i fd buf v tty e).vfs.entries ≡ v.entries
unfolding read_entry
read_entry_entries i fd buf v tty none = refl
read_entry_entries i fd buf v tty (some e) = elim (Option-cases e.contents) [
  | inl empty ↦ rw (read_entry, empty) refl
  | inr (bytes, full) ↦ rw (read_entry, full) (read_contents_entries i fd buf v tty bytes)
]

pub read_entries :
    (i : ℕ) (buf : Bytes) (v : Vfs) (tty : Tty) → (read i buf v tty).vfs.entries ≡ v.entries
unfolding read
read_entries i buf v tty = elim (Option-cases (descriptor v i)) [
  | inl free ↦ rw (read, free) refl
  | inr (fd, used) ↦ elim (Bool-cases (bytes_eq fd.name (codes "tty"))) [
    | inl is_tty ↦ rw (read, used, is_tty) (read_tty_entries buf v tty (Tty.read_line tty))
    | inr other ↦
        rw (read, used, other) (read_entry_entries i fd buf v tty (find_entry fd.name v.entries))
  ]
]
