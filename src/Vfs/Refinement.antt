-- ===== src/Vfs/Refinement.antt =====
-- The methods of the file system (kernel/src/vfs.rs) as operations on the map from names to entries.
use new_os.Base.{
  ℕ, ◌+◌, max, ltb, ◌≡◌, refl, sym, ap, ◌∙◌, arith, Bool-cases, inl, inr, Option, none, some,
  Option-cases, if◌then◌else◌, length, Bytes, bytes_eq, codes, from_utf8, returned, Run,
}
use mathlib.Core.Path.{subst}
use new_os.Tty.{Tty}
use new_os.Vfs
use new_os.Vfs.{
  VfsEntry, FileDescriptor, FileType, Vfs, ReadResult, WriteResult, find_entry, put_contents,
  remove_entry, close_named, appended, descriptor, at_end, open_file, close, read, read_tty,
  read_entry, read_contents, seek, chdir, mkdir, unlink, write, write_entry, write_contents,
  write_tty, first_free, vec_limit,
}
use new_os.Vfs.Unchanged.{open_entries, close_entries, seek_entries, chdir_entries, read_entries}
use new_os.Vfs.History.{
  Step, Reach, step_open, step_close, step_read, step_write, step_seek, step_chdir, step_mkdir,
  step_unlink, here, next,
}
use new_os.Vfs.FileMap.{
  FileMap, view, update, AreUnique, new_directory, view-append, view-remove, view-put,
  AreUnique-put_contents, AreUnique-remove_entry, AreUnique-append,
}

-- A write through a descriptor, as far as the map is concerned.
unfoldable pub written_to : FileDescriptor → Bytes → FileMap → FileMap
written_to fd buf m = elim (m fd.name) [
  | none ↦ m
  | some e ↦ elim e.contents [
    | none ↦ m
    | some bytes ↦
        update m fd.name (some (record e { contents = some (appended fd.offset buf bytes) }))
  ]
]

unfoldable pub made : Bytes → FileMap → FileMap
made path m = elim (m path) [ none ↦ update m path (some (new_directory path)) | some e ↦ m ]

unfoldable pub taken_out : Bytes → FileMap → FileMap
taken_out path m = elim (m path) [ none ↦ m | some e ↦ update m path none ]

unfoldable pub written_by : Option FileDescriptor → Bytes → FileMap → FileMap
written_by none buf m = m
written_by (some fd) buf m = if bytes_eq fd.name (codes "tty") then m else written_to fd buf m

-- What a call does to the map: `mkdir` adds a directory if the name is free, `unlink` takes the name
-- out, a write on a file appends to its contents, and nothing else changes the map.
unfoldable pub change : {v w : Vfs} → Step v w → FileMap → FileMap
change (step_mkdir path v) m = made path m
change (step_unlink path v) m = taken_out path m
change (step_write i buf tty v r e) m = written_by (descriptor v i) buf m
change (step_open path v) m = m
change (step_close i v) m = m
change (step_read i buf tty v) m = m
change (step_seek i offset v) m = m
change (step_chdir path v) m = m

-- A call on entries with unique names keeps them unique, and does to the map what it should.
pub record Refines {v w : Vfs} (st : Step v w) : Type 0 where
  pub unique : AreUnique w.entries
  pub map : (name : Bytes) → view w name ≡ change st (view v) name

-- A call that changes no entry.
Refines-same :
    {v w : Vfs} (st : Step v w)
    → w.entries ≡ v.entries
    → change st (view v) ≡ view v
    → AreUnique v.entries
    → Refines st
Refines-same {v} {w} st same idle unique = record {
  unique = subst AreUnique (sym same) unique;
  map = λ name. ap (find_entry name) same ∙ sym (ap (λ m. m name) idle);
}

mkdir_map :
    (path : Bytes) (v : Vfs) (name : Bytes) → view (mkdir path v).0 name ≡ made path (view v) name
unfolding mkdir made
mkdir_map path v name = elim (Option-cases (find_entry path v.entries)) [
  | inl fresh ↦ rw (mkdir, made, fresh) (view-append path name v.entries fresh)
  | inr (e, taken) ↦ rw (mkdir, made, taken) refl
]

AreUnique-mkdir :
    (path : Bytes) (v : Vfs) → AreUnique v.entries → AreUnique (mkdir path v).0.entries
unfolding mkdir
AreUnique-mkdir path v unique = elim (Option-cases (find_entry path v.entries)) [
  | inl fresh ↦ rw (mkdir, fresh) (AreUnique-append path v.entries unique fresh)
  | inr (e, taken) ↦ rw (mkdir, taken) unique
]

unlink_map :
    (path : Bytes) (v : Vfs) (name : Bytes)
    → AreUnique v.entries
    → view (unlink path v).0 name ≡ taken_out path (view v) name
unfolding unlink taken_out
unlink_map path v name unique = elim (Option-cases (find_entry path v.entries)) [
  | inl missing ↦ rw (unlink, taken_out, missing) refl
  | inr (e, found) ↦ rw (unlink, taken_out, found) (view-remove path name v.entries unique)
]

AreUnique-unlink :
    (path : Bytes) (v : Vfs) → AreUnique v.entries → AreUnique (unlink path v).0.entries
unfolding unlink
AreUnique-unlink path v unique = elim (Option-cases (find_entry path v.entries)) [
  | inl missing ↦ rw (unlink, missing) unique
  | inr (e, found) ↦ rw (unlink, found) (AreUnique-remove_entry path v.entries unique)
]

-- The entries after a write, which returned.
abbrev Wrote : Vfs → FileMap → Run WriteResult → Type 0
Wrote v m result =
    (r : WriteResult)
    → result ≡ returned r
    → AreUnique r.vfs.entries × ((name : Bytes) → view r.vfs name ≡ m name)

-- A write that leaves the file system as it is.
Wrote-same :
    (v : Vfs) (m : FileMap) (result : WriteResult)
    → AreUnique v.entries
    → result.vfs ≡ v
    → ((name : Bytes) → view v name ≡ m name)
    → Wrote v m (returned result)
Wrote-same v m result unique same idle r e =
    let there : v ≡ r.vfs = cc in
    subst (λ (w : Vfs). AreUnique w.entries × ((name : Bytes) → view w name ≡ m name)) there
      (unique, idle)

Wrote-contents :
    (i : ℕ) (fd : FileDescriptor) (buf : Bytes) (v : Vfs) (tty : Tty) (e : VfsEntry) (bytes : Bytes)
    → AreUnique v.entries
    → find_entry fd.name v.entries ≡ some e
    → Wrote v
        (update
          (view v)
          fd.name
          (some (record e { contents = some (appended fd.offset buf bytes) })))
        (write_contents i fd buf v tty bytes)
unfolding write_contents Vfs.advance
Wrote-contents i fd buf v tty e bytes unique found r h =
    elim (Bool-cases (ltb (max fd.offset (length bytes) + length buf) vec_limit)) [
      | inl fits ↦
          let contents = appended fd.offset buf bytes in
          let there : put_contents fd.name contents v.entries ≡ r.vfs.entries =
            ground (arith, fits) in
          (
            subst AreUnique there (AreUnique-put_contents fd.name contents v.entries unique),
            λ name.
                sym (ap (find_entry name) there) ∙ view-put fd.name name contents v.entries e found,
          )
      | inr over ↦ absurd (ground (arith, over))
    ]

Wrote-entry :
    (i : ℕ) (fd : FileDescriptor) (buf : Bytes) (v : Vfs) (tty : Tty)
    → AreUnique v.entries
    → Wrote v
        (written_to fd buf (view v))
        (write_entry i fd buf v tty (find_entry fd.name v.entries))
unfolding write_entry written_to
Wrote-entry i fd buf v tty unique = elim (Option-cases (find_entry fd.name v.entries)) [
  | inl missing ↦
      rw (write_entry, written_to, missing) (Wrote-same v (view v) _ unique refl (λ name. refl))
  | inr (e, found) ↦ elim (Option-cases e.contents) [
    | inl empty ↦
        rw (write_entry, written_to, found, empty)
          (Wrote-same v (view v) _ unique refl (λ name. refl))
    | inr (bytes, full) ↦
        rw (write_entry, written_to, found, full)
          (Wrote-contents i fd buf v tty e bytes unique found)
  ]
]

Wrote-tty :
    (buf : Bytes) (v : Vfs) (tty : Tty) (s : Option Bytes)
    → AreUnique v.entries
    → Wrote v (view v) (write_tty buf v tty s)
unfolding write_tty
Wrote-tty buf v tty none unique = Wrote-same v (view v) _ unique refl (λ name. refl)
Wrote-tty buf v tty (some s) unique = Wrote-same v (view v) _ unique refl (λ name. refl)

Wrote-write :
    (i : ℕ) (buf : Bytes) (v : Vfs) (tty : Tty)
    → AreUnique v.entries
    → Wrote v (written_by (descriptor v i) buf (view v)) (write i buf v tty)
unfolding write written_by
Wrote-write i buf v tty unique = elim (Option-cases (descriptor v i)) [
  | inl free ↦ rw (write, written_by, free) (Wrote-same v (view v) _ unique refl (λ name. refl))
  | inr (fd, used) ↦ elim (Bool-cases (bytes_eq fd.name (codes "tty"))) [
    | inl is_tty ↦ rw (write, written_by, used, is_tty) (Wrote-tty buf v tty (from_utf8 buf) unique)
    | inr other ↦ rw (write, written_by, used, other) (Wrote-entry i fd buf v tty unique)
  ]
]

Refines-Step : {v w : Vfs} (st : Step v w) → AreUnique v.entries → Refines st
unfolding change
Refines-Step (step_mkdir path v) unique = record {
  unique = AreUnique-mkdir path v unique;
  map = mkdir_map path v;
}
Refines-Step (step_unlink path v) unique = record {
  unique = AreUnique-unlink path v unique;
  map = λ name. unlink_map path v name unique;
}
Refines-Step (step_write i buf tty v r e) unique =
    let wrote = Wrote-write i buf v tty unique r e in record { unique = wrote.0; map = wrote.1 }
Refines-Step (step_open path v) unique =
    Refines-same (step_open path v) (open_entries path v) refl unique
Refines-Step (step_close i v) unique = Refines-same (step_close i v) (close_entries i v) refl unique
Refines-Step (step_read i buf tty v) unique =
    Refines-same (step_read i buf tty v) (read_entries i buf v tty) refl unique
Refines-Step (step_seek i offset v) unique =
    Refines-same (step_seek i offset v) (seek_entries i offset v) refl unique
Refines-Step (step_chdir path v) unique =
    Refines-same (step_chdir path v) (chdir_entries path v) refl unique

AreUnique-Reach : {s v : Vfs} → AreUnique s.entries → Reach s v → AreUnique v.entries
AreUnique-Reach unique here = unique
AreUnique-Reach unique (next reach st) = (Refines-Step st (AreUnique-Reach unique reach)).unique

-- In every history of calls from a file system whose entries have unique names, the names stay unique,
-- and each call does to the map from names to entries what it should: `mkdir` adds an empty directory if
-- the name is free, `unlink` takes the name out, a write through a descriptor of a file appends to the
-- contents of that name at the descriptor's offset, and no other call changes the map.
pub calls_refine :
    {s v w : Vfs}
    → AreUnique s.entries
    → Reach s v
    → (st : Step v w)
    → AreUnique w.entries × ((name : Bytes) → view w name ≡ change st (view v) name)
calls_refine unique reach st =
    let refines = Refines-Step st (AreUnique-Reach unique reach) in (refines.unique, refines.map)
