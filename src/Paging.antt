-- ===== src/Paging.antt =====
-- Page tables of a process (kernel/src/memory/paging.rs). The types PageTableEntry, PageTableFlags,
-- PhysFrame and VirtAddr of the x86_64 crate and the frame allocator are a parameter, `Platform`.
-- Physical memory is seen as tables: the entry at each index of the table in each frame.
pub mod Entries
pub mod Trees
pub mod Copies
pub mod Level
pub mod Descent
pub mod Halves
pub mod Spaces
pub mod CopyOnWrite
pub mod Marks
pub mod UserAccess
pub mod KernelFrames
pub mod Sample
pub mod Tests
use new_os.Base.{
  ℕ, zero, suc, ◌+◌, ◌-◌, ◌/◌, ◌≡◌, ◌↔◌, Bool, true, false, ◌&&◌, Option, none, some, ◌==◌,
  if◌then◌else◌, Run, returned, panicked, ◌>>=◌, unwrap, add64,
}

-- The bits of PageTableFlags that the code names.
abbrev pub present : ℕ
present = 0

abbrev pub writable : ℕ
writable = 1

abbrev pub user_accessible : ℕ
user_accessible = 2

abbrev pub huge_page : ℕ
huge_page = 7

-- Marks a page as copy-on-write.
abbrev pub bit_9 : ℕ
bit_9 = 9

-- What the code takes from the x86_64 crate and from its caller's frame allocator, with the
-- documented behaviour. An entry holds flags and points to a frame; `frame` gives that frame only
-- for an entry that is present and not a huge page; an entry with a flag is in use. The allocator
-- keeps the contract of its trait: it returns only frames that are not in use.
pub record Platform : Type 1 where
  pub Entry : Type 0
  pub Flags : Type 0
  pub PhysFrame : Type 0
  pub same_frame : PhysFrame → PhysFrame → Bool
  pub same_frame_iff : (f g : PhysFrame) → (same_frame f g ≡ true) ↔ (f ≡ g)
  pub contains : Flags → ℕ → Bool
  pub insert : Flags → ℕ → Flags
  pub contains-insert :
      (f : Flags) (b c : ℕ) → contains (insert f b) c ≡ (if b == c then true else contains f c)
  pub remove : Flags → ℕ → Flags
  pub contains-remove :
      (f : Flags) (b c : ℕ) → contains (remove f b) c ≡ (if b == c then false else contains f c)
  pub unused : Entry
  pub is_unused : Entry → Bool
  pub is_unused-unused : is_unused unused ≡ true
  pub flags : Entry → Flags
  pub flags-is_unused : (e : Entry) (b : ℕ) → contains (flags e) b ≡ true → is_unused e ≡ false
  pub points_to : Entry → PhysFrame
  pub frame : Entry → Option PhysFrame
  pub frame_lem :
      (e : Entry)
      → frame e ≡ (
          if contains (flags e) present
          then if contains (flags e) huge_page then none else some (points_to e)
          else none)
  pub set_frame : PhysFrame → Flags → Entry
  pub flags-set_frame : (t : PhysFrame) (f : Flags) → flags (set_frame t f) ≡ f
  pub points_to-set_frame : (t : PhysFrame) (f : Flags) → points_to (set_frame t f) ≡ t
  pub set_flags : Entry → Flags → Entry
  pub flags-set_flags : (e : Entry) (f : Flags) → flags (set_flags e f) ≡ f
  pub points_to-set_flags : (e : Entry) (f : Flags) → points_to (set_flags e f) ≡ points_to e
  pub Allocator : Type 0
  pub allocate_frame : Allocator → Option PhysFrame × Allocator
  pub Used : Allocator → PhysFrame → Type 0
  pub fresh :
      (a b : Allocator) (t : PhysFrame)
      → allocate_frame a ≡ (some t, b)
      → ¬ Used a t × Used b t × ((g : PhysFrame) → Used a g → Used b g)
  pub is_canonical : ℕ → Bool
  pub p4_index : ℕ → ℕ
  pub p3_index : ℕ → ℕ
  pub p2_index : ℕ → ℕ
  pub p1_index : ℕ → ℕ

module _ (p : Platform) where
  open p use {
    Entry, Flags, PhysFrame, same_frame, insert, remove, unused, is_unused, flags, frame, set_frame,
    set_flags, Allocator, allocate_frame, is_canonical, p4_index, p3_index, p2_index, p1_index,
  }

  abbrev pub Tables : Type 0
  Tables = PhysFrame → ℕ → Entry

  pub record Machine : Type 0 where
    pub tables : Tables
    pub allocator : Allocator

  -- `table[i] = entry`
  abbrev pub store : PhysFrame → ℕ → Entry → Tables → Tables
  store d j e m t i = if same_frame d t && j == i then e else m t i

  abbrev pub put : PhysFrame → ℕ → Entry → Machine → Machine
  put d j e m = record m { tables = store d j e m.tables }

  -- `frame_allocator.allocate_frame().expect(..)`
  expect_frame : Option PhysFrame × Allocator → Machine → Run (PhysFrame × Machine)
  expect_frame (none, a) m = panicked
  expect_frame (some t, a) m = returned (t, record m { allocator = a })

  unfoldable pub new_table : Machine → Run (PhysFrame × Machine)
  unfolding expect_frame
  new_table m = expect_frame (allocate_frame m.allocator) m

  -- The copy of an entry of the last level.
  unfoldable pub clone_leaf : Bool → Entry → Entry
  clone_leaf cow src_entry =
      if cow
      then set_flags src_entry (insert (remove (flags src_entry) writable) bit_9)
      else src_entry

  abbrev pub Cloner : Type 0
  Cloner = Entry → PhysFrame → ℕ → Machine → Run Machine

  -- The loop of `clone_table_level` over one table, from index `i` on for `n` indices.
  unfoldable pub clone_entries : Cloner → ℕ → ℕ → PhysFrame → PhysFrame → Machine → Run Machine
  clone_entries clone zero i src dst m = returned m
  clone_entries clone (suc n) i src dst m = do
    m' ←
        if is_unused (m.tables src i)
        then returned (put dst i unused m)
        else clone (m.tables src i) dst i m
    clone_entries clone n (i + 1) src dst m'

  -- The copy of the table that `src_entry` leads to, into the new table.
  unfoldable pub clone_table : Cloner → Entry → PhysFrame → Machine → Run Machine
  clone_table clone src_entry new_frame m = do
    src_next ← unwrap (frame src_entry)
    clone_entries clone 512 0 src_next new_frame m

  -- `src_entry` is copied to index `j` of the table in frame `d`, with the tables below it.
  unfoldable pub clone_table_level : ℕ → Bool → Cloner
  unfolding clone_leaf
  clone_table_level zero cow src_entry d j m = returned (put d j (clone_leaf cow src_entry) m)
  clone_table_level (suc level) cow src_entry d j m = do
    (new_frame, m') ← new_table m
    clone_table (clone_table_level level cow) src_entry new_frame
        (put d j (set_frame new_frame (flags src_entry)) m')

  -- The loop of `clone_user_mappings`: entries that are not used are left as they are.
  unfoldable pub clone_used : Cloner → ℕ → ℕ → PhysFrame → PhysFrame → Machine → Run Machine
  clone_used clone zero i src dst m = returned m
  clone_used clone (suc n) i src dst m = do
    m' ← if is_unused (m.tables src i) then returned m else clone (m.tables src i) dst i m
    clone_used clone n (i + 1) src dst m'

  unfoldable pub clone_user_mappings : PhysFrame → PhysFrame → Bool → Machine → Run Machine
  clone_user_mappings src dst cow m = clone_used (clone_table_level 3 cow) 256 0 src dst m

  -- `dst[i] = src[i].clone()` for `n` indices from `i` on.
  unfoldable pub copy_entries : ℕ → ℕ → PhysFrame → PhysFrame → Machine → Machine
  copy_entries zero i src dst m = m
  copy_entries (suc n) i src dst m = copy_entries n (i + 1) src dst (put dst i (m.tables src i) m)

  unfoldable pub clone_user_mappings_cow : PhysFrame → PhysFrame → Machine → Run Machine
  clone_user_mappings_cow src dst m = do
    m' ← clone_used (clone_table_level 3 true) 256 0 src dst m
    returned (copy_entries 256 256 src dst m')

  -- `core::ptr::write_bytes(table, 0, 1)`
  abbrev pub clear : PhysFrame → Machine → Machine
  clear d m = record m { tables = λ t i. if same_frame d t then unused else m.tables t i }

  -- The frame that Cr3 names is an argument.
  unfoldable pub create_process_pml4 : PhysFrame → Machine → Run (PhysFrame × Machine)
  create_process_pml4 kernel m = do
    (new_frame, m') ← new_table m
    returned (new_frame, copy_entries 256 256 kernel new_frame (clear new_frame m'))

  -- `table[i].set_flags(table[i].flags() | USER_ACCESSIBLE)`
  abbrev pub mark : PhysFrame → ℕ → Machine → Machine
  mark t i m = put t i (set_flags (m.tables t i) (insert (flags (m.tables t i)) user_accessible)) m

  -- The body of the loop of `set_user_accessible`, at one address.
  unfoldable pub mark_page : PhysFrame → ℕ → Machine → Run Machine
  mark_page pml4 v m = do
    let m4 = mark pml4 (p4_index v) m
    p3 ← unwrap (frame (m4.tables pml4 (p4_index v)))
    let m3 = mark p3 (p3_index v) m4
    p2 ← unwrap (frame (m3.tables p3 (p3_index v)))
    let m2 = mark p2 (p2_index v) m3
    p1 ← unwrap (frame (m2.tables p2 (p2_index v)))
    returned (mark p1 (p1_index v) m2)

  unfoldable pub mark_pages : PhysFrame → ℕ → ℕ → Machine → Run Machine
  unfolding mark_page
  mark_pages pml4 zero v m = returned m
  mark_pages pml4 (suc n) v m = do
    m' ← if is_canonical v then mark_page pml4 v m else panicked
    mark_pages pml4 n (v + 4096) m'

  -- `for addr in (start..end).step_by(4096)`
  unfoldable pub set_user_accessible : PhysFrame → ℕ → ℕ → Machine → Run Machine
  unfolding mark_pages
  set_user_accessible pml4 start size m = do
    _ ← add64 start size
    mark_pages pml4 ((size + 4095) / 4096) start m
