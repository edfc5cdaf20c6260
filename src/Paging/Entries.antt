-- ===== src/Paging/Entries.antt =====
-- Entries, the memory of tables and the frame allocator (kernel/src/memory/paging.rs).
use new_os.Base.{
  ℕ, zero, suc, ◌≡◌, ◌≢◌, refl, ◌∙◌, inl, inr, Bool, true, false, some, returned, Bool-cases,
  ==_self, arith,
}
use new_os.Paging.{
  Platform, Tables, Machine, store, new_table, clone_leaf, present, writable, huge_page, bit_9,
}

module _ (p : Platform) where
  open p use {
    Entry, PhysFrame, same_frame, same_frame_iff, contains, insert, remove, contains-insert,
    contains-remove, is_unused, flags, flags-is_unused, points_to, frame, frame_lem, set_frame,
    flags-set_frame, points_to-set_frame, set_flags, flags-set_flags, points_to-set_flags,
    Allocator, allocate_frame, Used, fresh,
  }

  pub same_frame_self : (t : PhysFrame) → same_frame t t ≡ true
  same_frame_self t = (same_frame_iff t t).1 refl

  pub store_self : (d : PhysFrame) (j : ℕ) (e : Entry) (m : Tables p) → store p d j e m d j ≡ e
  store_self d j e m = rw (same_frame_self d, ==_self j) refl

  pub store_other :
      (d t : PhysFrame) (j i : ℕ) (e : Entry) (m : Tables p) → j ≢ i → store p d j e m t i ≡ m t i
  store_other d t j i e m h = elim (Bool-cases (same_frame d t)) [
    | inl same ↦ ground arith
    | inr other ↦ rw other refl
  ]

  pub store_frame :
      (d t : PhysFrame) (j i : ℕ) (e : Entry) (m : Tables p)
      → ¬ (t ≡ d)
      → store p d j e m t i ≡ m t i
  store_frame d t j i e m h = elim (Bool-cases (same_frame d t)) [
    | inl same ↦ absurd (h (sym_frame same))
    | inr other ↦ rw other refl
  ]
    where
      sym_frame : same_frame d t ≡ true → t ≡ d
      sym_frame same = let e : d ≡ t = (same_frame_iff d t).0 same in cc

  -- An entry that leads to a table keeps to do so when it is given another table's frame.
  pub frame-set_frame :
      (e : Entry) (s t : PhysFrame)
      → frame e ≡ some s
      → (frame (set_frame t (flags e)) ≡ some t) × (is_unused (set_frame t (flags e)) ≡ false)
  frame-set_frame e s t points =
      let l = frame_lem e in
      let l' = frame_lem (set_frame t (flags e)) in
      let same = flags-set_frame t (flags e) in
      let to = points_to-set_frame t (flags e) in
      elim (Bool-cases (contains (flags e) present)) [
        | inl is_present ↦ elim (Bool-cases (contains (flags e) huge_page)) [
          | inl huge ↦ absurd (let c = rw (is_present, huge) at l in cc)
          | inr small ↦
              let shown = rw (same, is_present, small, to) at l' in
              let set_bit : contains (flags (set_frame t (flags e))) present ≡ true =
                rw same is_present in
              (shown, flags-is_unused _ present set_bit)
        ]
        | inr is_absent ↦ absurd (let c = rw is_absent at l in cc)
      ]

  -- A copied entry is in use where the entry is.
  pub clone_leaf-is_unused :
      (cow : Bool) (e : Entry) → is_unused e ≡ false → is_unused (clone_leaf p cow e) ≡ false
  unfolding clone_leaf
  clone_leaf-is_unused false e used = used
  clone_leaf-is_unused true e used =
      let f = insert (remove (flags e) writable) bit_9 in
      let set_bit : contains (flags (set_flags e f)) bit_9 ≡ true =
        rw (flags-set_flags e f) (contains-insert _ bit_9 bit_9) in
      flags-is_unused (set_flags e f) bit_9 set_bit

  -- A page shared copy-on-write: the same frame and flags, but not writable, and marked.
  pub record IsShared (e e' : Entry) : Type 0 where
    pub same_frame : points_to e' ≡ points_to e
    pub read_only : contains (flags e') writable ≡ false
    pub is_marked : contains (flags e') bit_9 ≡ true
    pub same_flags :
        (b : ℕ) → b ≢ writable → b ≢ bit_9 → contains (flags e') b ≡ contains (flags e) b

  pub clone_leaf-IsShared : (e : Entry) → IsShared e (clone_leaf p true e)
  unfolding clone_leaf
  clone_leaf-IsShared e =
      let f = remove (flags e) writable in
      let g = insert f bit_9 in
      record {
        same_frame = points_to-set_flags e g;
        read_only =
            rw (flags-set_flags e g)
              (contains-insert f bit_9 writable ∙ contains-remove (flags e) writable writable);
        is_marked = rw (flags-set_flags e g) (contains-insert f bit_9 bit_9);
        same_flags = λ b other unmarked. rw (flags-set_flags e g) (
            contains-insert f bit_9 b
            ∙ ground (arith, unmarked, other, contains-remove (flags e) writable b));
      }

  -- The allocator can still hand out `n` frames.
  unfoldable pub Gives : ℕ → Allocator → Type 0
  Gives zero a = Unit
  Gives (suc n) a = (t : PhysFrame) × (b : Allocator) × (allocate_frame a ≡ (some t, b)) × Gives n b

  -- A new table: its frame was not in use, and no table changes.
  pub record Fresh (m m' : Machine p) (t : PhysFrame) : Type 0 where
    pub unchanged : m'.tables ≡ m.tables
    pub was_free : ¬ Used m.allocator t
    pub is_taken : Used m'.allocator t
    pub kept : (g : PhysFrame) → Used m.allocator g → Used m'.allocator g

  pub new_table_lem :
      (n : ℕ) (m : Machine p)
      → Gives (suc n) m.allocator
      → (t : PhysFrame) × (m' : Machine p) × (new_table p m ≡ returned (t, m'))
        × Fresh m m' t
        × Gives n m'.allocator
  unfolding new_table Gives
  new_table_lem n m (t, b, given, rest) =
      let (free, taken, kept) = fresh m.allocator b t given in
      (
        t,
        record m { allocator = b },
        rw given refl,
        record { unchanged = refl; was_free = free; is_taken = taken; kept = kept },
        rest,
      )
