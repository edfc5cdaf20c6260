-- ===== src/Vfs/FileMap.antt =====
-- The file system (kernel/src/vfs.rs) as a map from names to entries, which forgets the order of the
-- entries.
use new_os.Base.{
  ◌≡◌, ◌≢◌, refl, ap, arith, false, Bool-cases, inl, inr, Option, none, some, Option-cases, List,
  [], ◌∷◌, ◌++◌, if◌then◌else◌, Bytes, bytes_eq, bytes_eq→eq, bytes_eq_self,
}
use new_os.Vfs.{VfsEntry, FileType, Vfs, find_entry, put_contents, remove_entry}
use new_os.Vfs.Lookup.{
  find_entry-append, find_entry-append_none, find_entry-put_contents_self,
  find_entry-put_contents_ne, find_entry-remove_entry,
}

abbrev pub FileMap : Type 0
FileMap = Bytes → Option VfsEntry

abbrev pub view : Vfs → FileMap
view v path = find_entry path v.entries

unfoldable pub update : FileMap → Bytes → Option VfsEntry → FileMap
update m path entry name = if bytes_eq path name then entry else m name

-- No two entries have the same name.
abbrev pub AreUnique : List VfsEntry → Type 0
AreUnique [] = Unit
AreUnique (e ∷ es) = (find_entry e.name es ≡ none) × AreUnique es

other_name : (path name : Bytes) → bytes_eq path name ≡ false → name ≢ path
other_name path name h e = absurd (ground (arith, bytes_eq_self path, ap (bytes_eq path) e))

bytes_eq_sym : (xs ys : Bytes) → bytes_eq xs ys ≡ false → bytes_eq ys xs ≡ false
bytes_eq_sym xs ys h = elim (Bool-cases (bytes_eq ys xs)) [
  | inl same ↦ absurd (other_name xs ys h (bytes_eq→eq ys xs same))
  | inr other ↦ other
]

abbrev pub new_directory : Bytes → VfsEntry
new_directory path = record { name = path; file_type = FileType.directory; contents = some [] }

pub view-append :
    (path name : Bytes) (es : List VfsEntry)
    → find_entry path es ≡ none
    → find_entry name (es ++ new_directory path ∷ [])
      ≡ update (λ q. find_entry q es) path (some (new_directory path)) name
unfolding update find_entry
view-append path name es fresh = elim (Option-cases (find_entry name es)) [
  | inl missing ↦ ground (arith, find_entry-append_none name es (new_directory path ∷ []) missing)
  | inr (e, found) ↦ elim (Bool-cases (bytes_eq path name)) [
    | inl same ↦ absurd (ground (arith, ap (λ q. find_entry q es) (bytes_eq→eq path name same)))
    | inr other ↦ ground (arith, find_entry-append name es (new_directory path ∷ []) e found)
  ]
]

-- Entries of which none has a name, without their first of another name.
find_entry-remove_none :
    (name path : Bytes) (es : List VfsEntry)
    → find_entry name es ≡ none
    → find_entry name (remove_entry path es) ≡ none
unfolding find_entry remove_entry
find_entry-remove_none name path [] h = refl
find_entry-remove_none name path (e ∷ es) h = ground (arith, find_entry-remove_none name path es)

find_entry-remove_self :
    (path : Bytes) (es : List VfsEntry)
    → AreUnique es
    → find_entry path (remove_entry path es) ≡ none
unfolding find_entry remove_entry
find_entry-remove_self path [] h = refl
find_entry-remove_self path (e ∷ es) h = elim (Bool-cases (bytes_eq e.name path)) [
  | inl same ↦ ground (arith, h.0, ap (λ q. find_entry q es) (bytes_eq→eq e.name path same))
  | inr other ↦ ground (arith, find_entry-remove_self path es h.1)
]

pub view-remove :
    (path name : Bytes) (es : List VfsEntry)
    → AreUnique es
    → find_entry name (remove_entry path es) ≡ update (λ q. find_entry q es) path none name
unfolding update
view-remove path name es unique = elim (Bool-cases (bytes_eq path name)) [
  | inl same ↦ rw same (rw (← bytes_eq→eq path name same) (find_entry-remove_self path es unique))
  | inr other ↦ rw other (find_entry-remove_entry name path es (other_name path name other))
]

pub view-put :
    (path name bytes : Bytes) (es : List VfsEntry) (e : VfsEntry)
    → find_entry path es ≡ some e
    → find_entry name (put_contents path bytes es)
      ≡ update (λ q. find_entry q es) path (some (record e { contents = some bytes })) name
unfolding update
view-put path name bytes es e found = elim (Bool-cases (bytes_eq path name)) [
  | inl same ↦
      rw same
        (rw (← bytes_eq→eq path name same) (find_entry-put_contents_self path bytes es e found))
  | inr other ↦
      rw other (find_entry-put_contents_ne name path bytes es (other_name path name other))
]

find_entry-put_none :
    (name path bytes : Bytes) (es : List VfsEntry)
    → find_entry name es ≡ none
    → find_entry name (put_contents path bytes es) ≡ none
unfolding find_entry put_contents
find_entry-put_none name path bytes [] h = refl
find_entry-put_none name path bytes (e ∷ es) h =
    ground (arith, find_entry-put_none name path bytes es)

pub AreUnique-put_contents :
    (path bytes : Bytes) (es : List VfsEntry)
    → AreUnique es
    → AreUnique (put_contents path bytes es)
unfolding put_contents
AreUnique-put_contents path bytes [] h = tt
AreUnique-put_contents path bytes (e ∷ es) h = elim (Bool-cases (bytes_eq e.name path)) [
  | inl same ↦ rw same h
  | inr other ↦
      rw other
        (find_entry-put_none e.name path bytes es h.0, AreUnique-put_contents path bytes es h.1)
]

pub AreUnique-remove_entry :
    (path : Bytes) (es : List VfsEntry) → AreUnique es → AreUnique (remove_entry path es)
unfolding remove_entry
AreUnique-remove_entry path [] h = tt
AreUnique-remove_entry path (e ∷ es) h = elim (Bool-cases (bytes_eq e.name path)) [
  | inl same ↦ rw same h.1
  | inr other ↦
      rw other (find_entry-remove_none e.name path es h.0, AreUnique-remove_entry path es h.1)
]

pub AreUnique-append :
    (path : Bytes) (es : List VfsEntry)
    → AreUnique es
    → find_entry path es ≡ none
    → AreUnique (es ++ new_directory path ∷ [])
unfolding find_entry
AreUnique-append path [] h fresh = (refl, tt)
AreUnique-append path (e ∷ es) h fresh = elim (Bool-cases (bytes_eq e.name path)) [
  | inl same ↦ absurd (ground (arith, same))
  | inr other ↦
      let back = bytes_eq_sym e.name path other in
      let rest = find_entry-append_none e.name es (new_directory path ∷ []) h.0 in
      (ground (arith, rest), AreUnique-append path es h.1 (ground (arith, other)))
]
