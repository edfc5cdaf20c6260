-- ===== src/Vfs/Files.antt =====
-- What `read` and `write` of kernel/src/vfs.rs do to a file behind an open descriptor.
use mathlib.Core.List.{append_assoc}
use new_os.Base.{
  ℕ, zero, suc, ◌+◌, ◌-◌, ◌≤◌, ◌<◌, min, max, ◌≡◌, ◌≢◌, refl, ap, ◌∙◌, false, inl, inr, Bool-cases,
  some, List, [], ◌∷◌, ◌++◌, arith, ltb, lt→ltb, length, take, drop, set, replicate, length-take,
  length-drop, get_elem?-set_self, get_elem?-lt, Bytes, bytes_eq, bytes_eq→eq, codes, returned,
}
use new_os.Tty.{Tty}
use new_os.Vfs.{
  VfsEntry, FileDescriptor, Vfs, WriteResult, find_entry, descriptor, read, read_entry,
  read_contents, write, write_entry, write_contents, advance, appended, at_end, put_contents,
  vec_limit,
}
use new_os.Vfs.Lookup.{find_entry-put_contents_self, find_entry-put_contents_ne}
use new_os.Vfs.Invariant.{get_elem?-descriptor}

-- A descriptor, the entry that it names and the bytes of that file.
pub record OpenFile (v : Vfs) (i : ℕ) (fd : FileDescriptor) (e : VfsEntry) (bytes : Bytes)
    : Type 0 where
  pub slot : descriptor v i ≡ some fd
  pub not_tty : fd.name ≢ codes "tty"
  pub found : find_entry fd.name v.entries ≡ some e
  pub contents : e.contents ≡ some bytes

pub not_eq : (a b : Bytes) → a ≢ b → bytes_eq a b ≡ false
not_eq a b ne = elim (Bool-cases (bytes_eq a b)) [
  | inl e ↦ absurd (ne (bytes_eq→eq a b e))
  | inr e ↦ e
]

pub descriptor-set :
    (v : Vfs) (i : ℕ) (fd x : FileDescriptor)
    → descriptor v i ≡ some fd
    → descriptor (record v { open_files = set v.open_files i (some x) }) i ≡ some x
unfolding descriptor
descriptor-set v i fd x h =
    let used = get_elem?-descriptor v i fd h in
    rw (
      get_elem?-set_self v.open_files i (some x) (get_elem?-lt v.open_files i (some fd) used),
      descriptor,
    )

read-read_contents :
    (v : Vfs) (i : ℕ) (fd : FileDescriptor) (e : VfsEntry) (bytes buf : Bytes) (tty : Tty)
    → OpenFile v i fd e bytes
    → read i buf v tty ≡ read_contents i fd buf v tty bytes
unfolding read read_entry
read-read_contents v i fd e bytes buf tty h =
    rw (h.slot, read, not_eq fd.name (codes "tty") h.not_tty, h.found, h.contents)

drop-length : {A : Type 0} (n : ℕ) (xs : List A) → length xs ≤ n → drop n xs ≡ []
drop-length zero [] h = refl
drop-length zero (x ∷ xs) h = absurd (omega arith)
drop-length (suc n) [] h = refl
drop-length (suc n) (x ∷ xs) h = drop-length n xs (omega arith)

abbrev pub read_count : FileDescriptor → Bytes → Bytes → ℕ
read_count fd buf bytes = min (length buf) (length bytes - fd.offset)

length-read_part :
    (fd : FileDescriptor) (buf bytes : Bytes)
    → length (take (read_count fd buf bytes) (drop fd.offset bytes)) ≡ read_count fd buf bytes
length-read_part fd buf bytes = omega (
  arith,
  length-take (read_count fd buf bytes) (drop fd.offset bytes),
  length-drop fd.offset bytes,
)

take-empty : (n : ℕ) (xs : Bytes) → length xs ≡ 0 → take n xs ≡ []
take-empty zero xs h = refl
take-empty (suc n) [] h = refl
take-empty (suc n) (x ∷ xs) h = absurd (omega arith)

-- `read` on a regular file: with `n` the lesser of the buffer's length and of the bytes left
-- behind the offset, it returns n, puts the file's next n bytes in front of the buffer, leaves the
-- rest of the buffer, moves the offset on by n, and changes no entry.
pub read_lem :
    (v : Vfs) (i : ℕ) (fd : FileDescriptor) (e : VfsEntry) (bytes buf : Bytes) (tty : Tty)
    → OpenFile v i fd e bytes
    → let r = read i buf v tty in
      let n = read_count fd buf bytes in
      (r.count ≡ some n)
      × (r.buf ≡ take n (drop fd.offset bytes) ++ drop n buf)
      × (descriptor r.vfs i ≡ some (record fd { offset = fd.offset + n }))
      × (r.vfs.entries ≡ v.entries)
unfolding read_contents advance
read_lem v i fd e bytes buf tty h =
    rw (read-read_contents v i fd e bytes buf tty h) (elim (Bool-cases (at_end bytes fd)) [
      | inl eof ↦
          let n0 : read_count fd buf bytes ≡ 0 = ground arith in
          rw (eof, n0)
            (
              refl,
              refl,
              h.slot ∙ ap (λ (k : ℕ). some (record fd { offset = k })) (omega arith),
              refl,
            )
      | inr more ↦ rw more (
        refl,
        ap (λ (k : ℕ). take (read_count fd buf bytes) (drop fd.offset bytes) ++ drop k buf)
            (length-read_part fd buf bytes),
        descriptor-set v i fd _ h.slot,
        refl,
      )
    ])

-- The file after a write: zeros up to the offset where it lies past the end, and then the buffer.
abbrev pub written : FileDescriptor → Bytes → Bytes → Bytes
written fd buf bytes = bytes ++ (replicate (fd.offset - length bytes) 0 ++ buf)

written-appended :
    (fd : FileDescriptor) (buf bytes : Bytes) → appended fd.offset buf bytes ≡ written fd buf bytes
unfolding appended
written-appended fd buf bytes = elim (Bool-cases (ltb (length bytes) fd.offset)) [
  | inl past ↦ rw past (append_assoc bytes (replicate (fd.offset - length bytes) 0) buf)
  | inr inside ↦ let z : fd.offset - length bytes ≡ 0 = ground arith in rw (inside, z)
]

write-write_contents :
    (v : Vfs) (i : ℕ) (fd : FileDescriptor) (e : VfsEntry) (bytes buf : Bytes) (tty : Tty)
    → OpenFile v i fd e bytes
    → write i buf v tty ≡ write_contents i fd buf v tty bytes
unfolding write write_entry
write-write_contents v i fd e bytes buf tty h =
    rw (h.slot, write, not_eq fd.name (codes "tty") h.not_tty, h.found, h.contents)

-- `write` on a regular file, as long as the result fits in a Vec: it returns the length of the
-- buffer; the file keeps all the bytes that it had and gets the buffer behind them, with zeros in
-- between where the offset lies past the end; the offset moves on by the length of the buffer; the entries of other names stay.
pub write_lem :
    (v : Vfs) (i : ℕ) (fd : FileDescriptor) (e : VfsEntry) (bytes buf : Bytes) (tty : Tty)
    (name : Bytes)
    → OpenFile v i fd e bytes
    → name ≢ fd.name
    → max fd.offset (length bytes) + length buf < vec_limit
    → (r : WriteResult) × (write i buf v tty ≡ returned r)
      × (r.count ≡ some (length buf))
      × (find_entry fd.name r.vfs.entries
          ≡ some (record e { contents = some (written fd buf bytes) }))
      × (descriptor r.vfs i ≡ some (record fd { offset = fd.offset + length buf }))
      × (find_entry name r.vfs.entries ≡ find_entry name v.entries)
unfolding write_contents advance descriptor
write_lem v i fd e bytes buf tty name h ne fits = (
  after,
  write-write_contents v i fd e bytes buf tty h
      ∙ (rw (lt→ltb _ _ fits, written-appended fd buf bytes)),
  refl,
  find_entry-put_contents_self fd.name (written fd buf bytes) v.entries e h.found,
  descriptor-set v i fd _ h.slot,
  find_entry-put_contents_ne name fd.name (written fd buf bytes) v.entries ne,
)
  where
    after : WriteResult
    after = record {
      vfs =
          advance i fd (length buf)
            (record v { entries = put_contents fd.name (written fd buf bytes) v.entries });
      tty = tty;
      count = some (length buf);
    }
