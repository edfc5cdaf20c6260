-- ===== src/Vfs/InvariantWrite.antt =====
-- `Vfs::write` (kernel/src/vfs.rs) keeps the invariant of the file system.
use new_os.Base.{
  ℕ, ◌≡◌, ◌∙◌, inl, inr, Bool-cases, Option, none, some, Option-cases, arith, length, Bytes,
  bytes_eq, returned, codes, max, ltb, ◌+◌,
}
use new_os.Tty.{Tty}
use new_os.Vfs.{
  VfsEntry, FileDescriptor, Vfs, WriteResult, descriptor, write, write_tty, write_entry,
  write_contents, advance, put_contents, vec_limit, appended,
}
use new_os.Vfs.Lookup.{find_entry-put_contents}
use new_os.Vfs.Invariant.{Resolves, IsValid, get_elem?-descriptor, advance-IsValid}

-- A write changes the contents of an entry, and keeps its type.
put_contents-IsValid :
    (name bytes : Bytes) (v : Vfs)
    → IsValid v
    → IsValid (record v { entries = put_contents name bytes v.entries })
put_contents-IsValid name bytes v h = record {
  table = h.table;
  resolved = λ j x p.
      let (e, found, types) = h.resolved j x p in
      let (e', found', types') = find_entry-put_contents x.name name bytes v.entries e found in
      (e', found', types' ∙ types);
}

write_contents-IsValid :
    (i : ℕ) (fd : FileDescriptor) (buf : Bytes) (v : Vfs) (tty : Tty) (bytes : Bytes)
    (r : WriteResult)
    → write_contents i fd buf v tty bytes ≡ returned r
    → Resolves v.entries fd
    → IsValid v
    → IsValid r.vfs
unfolding write_contents
write_contents-IsValid i fd buf v tty bytes r e ok h =
    elim (Bool-cases (ltb (max fd.offset (length bytes) + length buf) vec_limit)) [
      | inl fits ↦
          let (x, found, types) = ok in
          let contents = appended fd.offset buf bytes in
          let (x', found', types') =
            find_entry-put_contents fd.name fd.name contents v.entries x found in
          let same : record_after contents ≡ r.vfs = ground (arith, fits) in
          rw (← same) (
            advance-IsValid i fd (length buf)
              (record v { entries = put_contents fd.name contents v.entries })
              (x', found', types' ∙ types) (put_contents-IsValid fd.name contents v h))
      | inr over ↦ absurd (ground (arith, over))
    ]
  where
    record_after : Bytes → Vfs
    record_after c =
        advance i fd (length buf) (record v { entries = put_contents fd.name c v.entries })

write_entry-IsValid :
    (i : ℕ) (fd : FileDescriptor) (buf : Bytes) (v : Vfs) (tty : Tty) (entry : Option VfsEntry)
    (r : WriteResult)
    → write_entry i fd buf v tty entry ≡ returned r
    → Resolves v.entries fd
    → IsValid v
    → IsValid r.vfs
unfolding write_entry
write_entry-IsValid i fd buf v tty none r e ok h =
    let same : v ≡ r.vfs = ground (arith, e) in rw (← same) h
write_entry-IsValid i fd buf v tty (some x) r e ok h = elim (Option-cases x.contents) [
  | inl empty ↦ let same : v ≡ r.vfs = ground (arith, e, empty) in rw (← same) h
  | inr (bytes, full) ↦ write_contents-IsValid i fd buf v tty bytes r (ground (arith, e, full)) ok h
]

write_tty-vfs :
    (buf : Bytes) (v : Vfs) (tty : Tty) (s : Option Bytes) (r : WriteResult)
    → write_tty buf v tty s ≡ returned r
    → v ≡ r.vfs
unfolding write_tty
write_tty-vfs buf v tty none r e = ground (arith, e)
write_tty-vfs buf v tty (some s) r e = ground (arith, e)

pub write-IsValid :
    (i : ℕ) (buf : Bytes) (v : Vfs) (tty : Tty) (r : WriteResult)
    → write i buf v tty ≡ returned r
    → IsValid v
    → IsValid r.vfs
unfolding write
write-IsValid i buf v tty r e h = elim (Option-cases (descriptor v i)) [
  | inl free ↦ let same : v ≡ r.vfs = ground (arith, e, free) in rw (← same) h
  | inr (fd, used) ↦ elim (Bool-cases (bytes_eq fd.name (codes "tty"))) [
    | inl is_tty ↦ rw (← write_tty-vfs buf v tty _ r (rw (used, write, is_tty) at e)) h
    | inr other ↦
        write_entry-IsValid i fd buf v tty _ r (rw (used, write, other) at e)
          (h.resolved i fd (get_elem?-descriptor v i fd used)) h
  ]
]
