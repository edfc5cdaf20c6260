-- ===== src/Vfs/Open.antt =====
-- `Vfs::open` (kernel/src/vfs.rs): the two nested loops against a description without loops.
use new_os.Base.{
  ℕ, ◌<◌, ◌≡◌, ◌≢◌, refl, sym, ap, ◌∙◌, inl, inr, false, Bool-cases, Option, none, some,
  Option-cases, List, [], ◌∷◌, ◌++◌, arith, set, get_elem?, All, Bytes, bytes_eq, bytes_eq→eq,
  bytes_eq_self,
}
use new_os.Vfs.Lookup.{first_free-least, first_free-none}
use new_os.Vfs.{
  FileDescriptor, VfsEntry, Vfs, find_entry, first_free, open_loop, install, open_file,
}

-- The descriptor goes to the lowest free slot, if the path names an entry and there is a slot.
abbrev pub opened : Bytes → Vfs → Option VfsEntry → Option ℕ → Vfs × Option ℕ
opened path v none slot = (v, none)
opened path v (some e) none = (v, none)
opened path v (some e) (some j) = (
  record v {
    open_files =
        set v.open_files j (some (record { name = path; file_type = e.file_type; offset = 0 }));
  },
  some j,
)

open_loop_full :
    (es : List VfsEntry) (path : Bytes) (v : Vfs)
    → first_free v.open_files ≡ none
    → open_loop es path v ≡ (v, none)
unfolding open_loop install
open_loop_full [] path v h = refl
open_loop_full (e ∷ es) path v h = ground (arith, open_loop_full es path v h)

open_loop-opened :
    (es : List VfsEntry) (path : Bytes) (v : Vfs)
    → open_loop es path v ≡ opened path v (find_entry path es) (first_free v.open_files)
unfolding open_loop install find_entry
open_loop-opened [] path v = refl
open_loop-opened (e ∷ es) path v = elim (Option-cases (first_free v.open_files)) [
  | inl full ↦ rw full (ground (arith, open_loop_full es path v full, open_loop-opened es path v))
  | inr (j, free) ↦ ground (arith, open_loop-opened es path v, free)
]

pub open_file-eq-opened :
    (path : Bytes) (v : Vfs)
    → open_file path v ≡ opened path v (find_entry path v.entries) (first_free v.open_files)
unfolding open_file
open_file-eq-opened path v = open_loop-opened v.entries path v

-- The first entry of a name.
pub record IsFirstNamed (path : Bytes) (es : List VfsEntry) (e : VfsEntry) : Type 0 where
  pub before : List VfsEntry
  pub after : List VfsEntry
  pub stands : es ≡ before ++ e ∷ after
  pub named : e.name ≡ path
  pub others : All (λ (x : VfsEntry). x.name ≢ path) before

-- The lowest slot of the table that is free.
pub record IsLowestFree (slots : List (Option FileDescriptor)) (j : ℕ) : Type 0 where
  pub free : get_elem? slots j ≡ some none
  pub used : (i : ℕ) → i < j → (fd : FileDescriptor) × (get_elem? slots i ≡ some (some fd))

-- The outcomes of `open`.
pub data Opens (path : Bytes) (v : Vfs) : Vfs × Option ℕ → Type 0 where
  no_entry : All (λ (x : VfsEntry). x.name ≢ path) v.entries → Opens path v (v, none)
  no_slot : ((i : ℕ) → get_elem? v.open_files i ≢ some none) → Opens path v (v, none)
  opens :
      {e : VfsEntry} {j : ℕ}
      → IsFirstNamed path v.entries e
      → IsLowestFree v.open_files j
      → Opens path v (
        record v {
          open_files =
              set v.open_files j
                (some (record { name = path; file_type = e.file_type; offset = 0 }));
        },
        some j,
      )

not_named : (x path : Bytes) → bytes_eq x path ≡ false → x ≢ path
not_named x path miss e =
    let hit = ap (λ (y : Bytes). bytes_eq y path) e ∙ bytes_eq_self path in
    ground (arith, hit, miss)

find_entry-none :
    (path : Bytes) (es : List VfsEntry)
    → find_entry path es ≡ none
    → All (λ (x : VfsEntry). x.name ≢ path) es
unfolding find_entry
find_entry-none path [] h = tt
find_entry-none path (x ∷ es) h = elim (Bool-cases (bytes_eq x.name path)) [
  | inl hit ↦ absurd (ground (arith, hit))
  | inr miss ↦ (not_named x.name path miss, find_entry-none path es (ground (arith, miss)))
]

find_entry-IsFirstNamed :
    (path : Bytes) (es : List VfsEntry) (e : VfsEntry)
    → find_entry path es ≡ some e
    → IsFirstNamed path es e
unfolding find_entry
find_entry-IsFirstNamed path [] e h = absurd (ground arith)
find_entry-IsFirstNamed path (x ∷ es) e h = elim (Bool-cases (bytes_eq x.name path)) [
  | inl hit ↦
      let same : x ≡ e = ground (arith, hit) in
      record {
        before = [];
        after = es;
        stands = ap (λ (y : VfsEntry). y ∷ es) same;
        named = ap (λ (y : VfsEntry). y.name) (sym same) ∙ bytes_eq→eq x.name path hit;
        others = tt;
      }
  | inr miss ↦
      let later = find_entry-IsFirstNamed path es e (ground (arith, miss)) in
      record {
        before = x ∷ later.before;
        after = later.after;
        stands = ap (λ (ys : List VfsEntry). x ∷ ys) later.stands;
        named = later.named;
        others = (not_named x.name path miss, later.others);
      }
]

-- `open` gives the lowest free slot of the table a descriptor of the path, with the offset 0 and the
-- type of the first entry of that name, and returns the slot; when no entry has the name, or every
-- slot is in use, it changes nothing and returns `None`.
pub open_file-Opens : (path : Bytes) (v : Vfs) → Opens path v (open_file path v)
open_file-Opens path v =
    rw (open_file-eq-opened path v) (elim (Option-cases (find_entry path v.entries)) [
      | inl missing ↦ rw missing (no_entry (find_entry-none path v.entries missing))
      | inr (e, found) ↦ elim (Option-cases (first_free v.open_files)) [
        | inl full ↦ rw (found, full) (no_slot (λ i. first_free-none v.open_files i full))
        | inr (j, slot) ↦
            let (free, used) = first_free-least v.open_files j slot in
            rw (found, slot)
              (opens (find_entry-IsFirstNamed path v.entries e found)
                (record { free = free; used = used }))
      ]
    ])
