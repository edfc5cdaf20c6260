-- ===== src/Vfs/Invariant.antt =====
-- The invariant of the file system (kernel/src/vfs.rs): every open descriptor resolves.
use new_os.Base.{
  sym, ℕ, ◌≡◌, ◌≢◌, refl, ◌∙◌, true, false, inl, inr, Bool-cases, Option, none, some, Option-cases,
  List, arith, length, get_elem?, set, length-set, Bytes, bytes_eq, bytes_eq_self, codes,
}
use new_os.Tty.{Tty}
use new_os.Vfs
use new_os.Vfs.{
  VfsEntry, FileDescriptor, Vfs, WriteResult, find_entry, first_free, open_file, descriptor, close,
  read, read_tty, read_entry, read_contents, write, write_tty, write_entry, write_contents, seek,
  chdir, mkdir, unlink, advance, put_contents, max_open_files, vec_limit, appended,
}
use new_os.Vfs.Lookup.{
  find_entry-append, find_entry-remove_entry, length-close_named, get_elem?-close_named,
  get_elem?-set_cases,
}
use new_os.Vfs.Open.{open_file-eq-opened, opened}

-- The descriptor's name has an entry, whose type is the descriptor's.
abbrev pub Resolves : List VfsEntry → FileDescriptor → Type 0
Resolves es fd = (e : VfsEntry) × (find_entry fd.name es ≡ some e) × (e.file_type ≡ fd.file_type)

pub record IsValid (v : Vfs) : Type 0 where
  pub table : length v.open_files ≡ max_open_files
  pub resolved :
      (i : ℕ) (fd : FileDescriptor)
      → get_elem? v.open_files i ≡ some (some fd)
      → Resolves v.entries fd

pub get_elem?-descriptor :
    (v : Vfs) (i : ℕ) (fd : FileDescriptor)
    → descriptor v i ≡ some fd
    → get_elem? v.open_files i ≡ some (some fd)
unfolding descriptor
get_elem?-descriptor v i fd h = ground arith

-- A slot may be given to a descriptor that resolves.
pub set-IsValid :
    (v : Vfs) (i : ℕ) (fd : FileDescriptor)
    → IsValid v
    → Resolves v.entries fd
    → IsValid (record v { open_files = set v.open_files i (some fd) })
set-IsValid v i fd h ok = record {
  table = length-set v.open_files i (some fd) ∙ h.table;
  resolved = λ j x p. elim (get_elem?-set_cases v.open_files i j (some fd) (some x) p) [
    | inl e ↦ let same : fd ≡ x = cc e in (ok.0, rw (← same) ok.1, rw (← same) ok.2)
    | inr old ↦ h.resolved j x old
  ];
}

clear-IsValid :
    (v : Vfs) (i : ℕ) → IsValid v → IsValid (record v { open_files = set v.open_files i none })
clear-IsValid v i h = record {
  table = length-set v.open_files i none ∙ h.table;
  resolved = λ j x p. elim (get_elem?-set_cases v.open_files i j none (some x) p) [
    | inl e ↦ absurd (cc e)
    | inr old ↦ h.resolved j x old
  ];
}

opened-IsValid :
    (path : Bytes) (v : Vfs) (entry : Option VfsEntry) (slot : Option ℕ)
    → find_entry path v.entries ≡ entry
    → IsValid v
    → IsValid (opened path v entry slot).0
opened-IsValid path v none slot e h = h
opened-IsValid path v (some x) none e h = h
opened-IsValid path v (some x) (some j) e h = set-IsValid v j _ h (x, e, refl)

pub open_file-IsValid : (path : Bytes) (v : Vfs) → IsValid v → IsValid (open_file path v).0
open_file-IsValid path v h =
    rw open_file-eq-opened (opened-IsValid path v (find_entry path v.entries) _ refl h)

pub close-IsValid : (i : ℕ) (v : Vfs) → IsValid v → IsValid (close i v).0
unfolding close
close-IsValid i v h = elim (Option-cases (descriptor v i)) [
  | inl e ↦ rw (e, close) h
  | inr (fd, e) ↦ rw (e, close) (clear-IsValid v i h)
]

pub seek-IsValid : (i offset : ℕ) (v : Vfs) → IsValid v → IsValid (seek i offset v).0
unfolding seek
seek-IsValid i offset v h = elim (Option-cases (descriptor v i)) [
  | inl e ↦ rw (e, seek) h
  | inr (fd, e) ↦
      rw (e, seek) (set-IsValid v i _ h (h.resolved i fd (get_elem?-descriptor v i fd e)))
]

pub advance-IsValid :
    (i : ℕ) (fd : FileDescriptor) (n : ℕ) (v : Vfs)
    → Resolves v.entries fd
    → IsValid v
    → IsValid (advance i fd n v)
unfolding advance
advance-IsValid i fd n v ok h = set-IsValid v i _ h ok

read_tty-IsValid :
    (buf : Bytes) (v : Vfs) (tty : Tty) (line : Option (List ℕ) × Tty)
    → IsValid v
    → IsValid (read_tty buf v tty line).vfs
unfolding read_tty
read_tty-IsValid buf v tty (none, tty') h = h
read_tty-IsValid buf v tty (some line, tty') h = h

read_entry-IsValid :
    (i : ℕ) (fd : FileDescriptor) (buf : Bytes) (v : Vfs) (tty : Tty) (entry : Option VfsEntry)
    → Resolves v.entries fd
    → IsValid v
    → IsValid (read_entry i fd buf v tty entry).vfs
unfolding read_entry read_contents
read_entry-IsValid i fd buf v tty none ok h = h
read_entry-IsValid i fd buf v tty (some e) ok h = elim (Option-cases e.contents) [
  | inl empty ↦ rw empty h
  | inr (bytes, full) ↦ rw full (elim (Bool-cases (Vfs.at_end bytes fd)) [
    | inl eof ↦ rw eof h
    | inr more ↦ rw more (advance-IsValid i fd _ v ok h)
  ])
]

pub read-IsValid :
    (i : ℕ) (buf : Bytes) (v : Vfs) (tty : Tty) → IsValid v → IsValid (read i buf v tty).vfs
unfolding read
read-IsValid i buf v tty h = elim (Option-cases (descriptor v i)) [
  | inl e ↦ rw (e, read) h
  | inr (fd, e) ↦
      rw (e, read)
        (elim (Bool-cases (bytes_eq fd.name (codes "tty"))) [
          | inl is_tty ↦ rw is_tty (read_tty-IsValid buf v tty _ h)
          | inr other ↦ rw other (
              read_entry-IsValid i fd buf v tty _ (h.resolved i fd (get_elem?-descriptor v i fd e))
                h)
        ])
]

names_differ : (a b : Bytes) → bytes_eq a b ≡ false → a ≢ b
names_differ a b h e = let same : bytes_eq a b ≡ true = rw e (bytes_eq_self b) in cc (sym same ∙ h)

pub mkdir-IsValid : (path : Bytes) (v : Vfs) → IsValid v → IsValid (mkdir path v).0
unfolding mkdir
mkdir-IsValid path v h = elim (Option-cases (find_entry path v.entries)) [
  | inr (e, found) ↦ rw (found, mkdir) h
  | inl fresh ↦
      rw (fresh, mkdir)
        (record {
          table = h.table;
          resolved = λ j x p.
              let (e, found, types) = h.resolved j x p in
              (e, find_entry-append x.name v.entries _ e found, types);
        })
]

pub unlink-IsValid : (path : Bytes) (v : Vfs) → IsValid v → IsValid (unlink path v).0
unfolding unlink
unlink-IsValid path v h = elim (Option-cases (find_entry path v.entries)) [
  | inl missing ↦ rw (missing, unlink) h
  | inr (e, found) ↦
      rw (found, unlink)
        (record {
          table = length-close_named path v.open_files ∙ h.table;
          resolved = λ j x p.
              let (was_open, differs) = get_elem?-close_named path v.open_files j x p in
              let (e', found', types) = h.resolved j x was_open in
              let ne : x.name ≢ path = names_differ x.name path differs in
              (e', find_entry-remove_entry x.name path v.entries ne ∙ found', types);
        })
]

pub chdir-IsValid : (path : Bytes) (v : Vfs) → IsValid v → IsValid (chdir path v).0
unfolding chdir
chdir-IsValid path v h = elim (Bool-cases (Vfs.has_directory path v.entries)) [
  | inl found ↦ rw (found, chdir) (record { table = h.table; resolved = h.resolved })
  | inr missing ↦ rw (missing, chdir) h
]
