-- ===== src/Vfs/Lookup.antt =====
-- Lemmas on the searches of kernel/src/vfs.rs: the entry of a name, and the free descriptor.
use new_os.Base.{
  ℕ, zero, suc, ◌<◌, ◌≡◌, ◌≢◌, ◌⊎◌, inl, inr, refl, ap, false, Bool-cases, Option, none, some, List,
  [], ◌∷◌, ◌++◌, arith, length, get_elem?, set, Bytes, bytes_eq, bytes_eq→eq,
}
use new_os.Vfs.{
  VfsEntry, FileDescriptor, find_entry, put_contents, remove_entry, close_named, first_free,
}

pub find_entry-append :
    (path : Bytes) (es fs : List VfsEntry) (e : VfsEntry)
    → find_entry path es ≡ some e
    → find_entry path (es ++ fs) ≡ some e
unfolding find_entry
find_entry-append path [] fs e h = ground arith
find_entry-append path (x ∷ es) fs e h = ground (arith, find_entry-append path es fs e)

pub find_entry-append_none :
    (path : Bytes) (es fs : List VfsEntry)
    → find_entry path es ≡ none
    → find_entry path (es ++ fs) ≡ find_entry path fs
unfolding find_entry
find_entry-append_none path [] fs h = refl
find_entry-append_none path (x ∷ es) fs h = ground (arith, find_entry-append_none path es fs)

-- The entry found has the name searched for.
pub name-find_entry :
    (path : Bytes) (es : List VfsEntry) (e : VfsEntry) → find_entry path es ≡ some e → e.name ≡ path
unfolding find_entry
name-find_entry path [] e h = ground arith
name-find_entry path (x ∷ es) e h =
    ground (arith, bytes_eq→eq x.name path, name-find_entry path es e)

-- A write keeps each name's entry, its name and its type.
pub find_entry-put_contents :
    (name path bytes : Bytes) (es : List VfsEntry) (e : VfsEntry)
    → find_entry name es ≡ some e
    → (e' : VfsEntry) × (find_entry name (put_contents path bytes es) ≡ some e')
      × (e'.file_type ≡ e.file_type)
unfolding find_entry put_contents
find_entry-put_contents name path bytes [] e h = absurd (ground arith)
find_entry-put_contents name path bytes (x ∷ es) e h = elim (Bool-cases (bytes_eq x.name path)) [
  | inl hit ↦ elim (Bool-cases (bytes_eq x.name name)) [
    | inl same ↦ (record x { contents = some bytes }, ground arith, ground arith)
    | inr other ↦ (e, ground arith, refl)
  ]
  | inr miss ↦ elim (Bool-cases (bytes_eq x.name name)) [
    | inl same ↦ (x, ground arith, ground arith)
    | inr other ↦
        let (e', found, types) = find_entry-put_contents name path bytes es e (ground arith) in
        (e', ground arith, types)
  ]
]

-- The entry that is written to.
pub find_entry-put_contents_self :
    (path bytes : Bytes) (es : List VfsEntry) (e : VfsEntry)
    → find_entry path es ≡ some e
    → find_entry path (put_contents path bytes es) ≡ some (record e { contents = some bytes })
unfolding find_entry put_contents
find_entry-put_contents_self path bytes [] e h = ground arith
find_entry-put_contents_self path bytes (x ∷ es) e h =
    ground (arith, find_entry-put_contents_self path bytes es e)

-- The entries of other names are untouched by a write.
pub find_entry-put_contents_ne :
    (name path bytes : Bytes) (es : List VfsEntry)
    → name ≢ path
    → find_entry name (put_contents path bytes es) ≡ find_entry name es
unfolding find_entry put_contents
find_entry-put_contents_ne name path bytes [] ne = refl
find_entry-put_contents_ne name path bytes (x ∷ es) ne = ground (
  arith,
  bytes_eq→eq x.name path,
  bytes_eq→eq x.name name,
  find_entry-put_contents_ne name path bytes es ne,
)

pub find_entry-remove_entry :
    (name path : Bytes) (es : List VfsEntry)
    → name ≢ path
    → find_entry name (remove_entry path es) ≡ find_entry name es
unfolding find_entry remove_entry
find_entry-remove_entry name path [] ne = refl
find_entry-remove_entry name path (x ∷ es) ne = ground (
  arith,
  bytes_eq→eq x.name path,
  bytes_eq→eq x.name name,
  find_entry-remove_entry name path es ne,
)

pub length-close_named :
    (path : Bytes) (fs : List (Option FileDescriptor)) → length (close_named path fs) ≡ length fs
unfolding close_named
length-close_named path [] = refl
length-close_named path (none ∷ fs) = ap suc (length-close_named path fs)
length-close_named path (some fd ∷ fs) = ap suc (length-close_named path fs)

-- What `unlink` leaves open was open, and has another name.
pub get_elem?-close_named :
    (path : Bytes) (fs : List (Option FileDescriptor)) (i : ℕ) (fd : FileDescriptor)
    → get_elem? (close_named path fs) i ≡ some (some fd)
    → (get_elem? fs i ≡ some (some fd)) × (bytes_eq fd.name path ≡ false)
unfolding close_named
get_elem?-close_named path [] i fd h = absurd (ground arith)
get_elem?-close_named path (none ∷ fs) zero fd h = absurd (ground arith)
get_elem?-close_named path (some x ∷ fs) zero fd h = (ground arith, ground arith)
get_elem?-close_named path (none ∷ fs) (suc i) fd h = get_elem?-close_named path fs i fd h
get_elem?-close_named path (some x ∷ fs) (suc i) fd h = get_elem?-close_named path fs i fd h

-- A slot after a write to the table.
pub get_elem?-set_cases {ℓ} :
    {A : Type ℓ} (xs : List A) (i j : ℕ) (a b : A)
    → get_elem? (set xs i a) j ≡ some b
    → (a ≡ b) ⊎ (get_elem? xs j ≡ some b)
get_elem?-set_cases [] i j a b h = inr h
get_elem?-set_cases (x ∷ xs) zero zero a b h = inl (ground arith)
get_elem?-set_cases (x ∷ xs) zero (suc j) a b h = inr h
get_elem?-set_cases (x ∷ xs) (suc i) zero a b h = inr h
get_elem?-set_cases (x ∷ xs) (suc i) (suc j) a b h = get_elem?-set_cases xs i j a b h

-- The slot found is free, and every slot below it is in use.
pub first_free-least :
    (fs : List (Option FileDescriptor)) (j : ℕ)
    → first_free fs ≡ some j
    → (get_elem? fs j ≡ some none)
      × ((i : ℕ) → i < j → (fd : FileDescriptor) × (get_elem? fs i ≡ some (some fd)))
unfolding first_free
first_free-least [] j h = absurd (ground arith)
first_free-least (none ∷ fs) zero h = (refl, λ i lt. elim lt [ ])
first_free-least (none ∷ fs) (suc j) h = absurd (ground arith)
first_free-least (some fd ∷ fs) zero h = absurd (ground arith)
first_free-least (some fd ∷ fs) (suc j) h =
    let (free, used) = first_free-least fs j (ground arith) in (free, below used)
  where
    below :
        ((i : ℕ) → i < j → (fd' : FileDescriptor) × (get_elem? fs i ≡ some (some fd')))
        → (i : ℕ) → i < suc j
        → (fd' : FileDescriptor) × (get_elem? (some fd ∷ fs) i ≡ some (some fd'))
    below used zero lt = (fd, refl)
    below used (suc i) lt = used i (omega arith)

-- No slot is found only if every one is in use.
pub first_free-none :
    (fs : List (Option FileDescriptor)) (i : ℕ) → first_free fs ≡ none → get_elem? fs i ≢ some none
unfolding first_free
first_free-none [] i h = λ e. ground arith
first_free-none (none ∷ fs) i h = λ e. ground arith
first_free-none (some fd ∷ fs) zero h = λ e. ground arith
first_free-none (some fd ∷ fs) (suc i) h = first_free-none fs i (ground arith)
