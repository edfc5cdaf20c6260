-- ===== src/Paging/Spaces.antt =====
-- The address space of a new process and of the copy of a process: `create_process_pml4`,
-- `clone_user_mappings` and `clone_user_mappings_cow` (kernel/src/memory/paging.rs).
use new_os.Base.{
  ℕ, suc, ◌≤◌, ◌<◌, ◌≡◌, refl, sym, ap, ◌∙◌, inl, inr, true, false, Option, none, List, [], ◌∷◌,
  returned, Bool-cases, arith,
}
use mathlib.Core.Path.{subst}
use new_os.Paging.{Platform, Tables, Machine, clear, copy_entries, create_process_pml4}
use new_os.Paging.Trees.{unless_unused, walk, Below, cost, sum_from}
use new_os.Paging.Entries.{same_frame_self, Gives, Fresh, new_table_lem}
use new_os.Paging.Halves.{copy_entries_lem}

module _ (p : Platform) where
  open p use {Entry, PhysFrame, is_unused, is_unused-unused, Used}

  -- The entry of the last level that an address's indices lead to in the space of `pml4`.
  unfoldable pub resolve : PhysFrame → List ℕ → Tables p → Option Entry
  unfolding walk
  resolve pml4 [] m = none
  resolve pml4 (i ∷ path) m = unless_unused p (m pml4 i) (walk p 3 (m pml4 i) path m)

  -- The tables that stand for the user half of a space.
  abbrev pub user_cost : PhysFrame → Machine p → ℕ
  user_cost s m = sum_from (λ x. cost p 3 (m.tables s x) m.tables) 256 0

  -- The tables of a space are in use.
  pub record IsSpace (s : PhysFrame) (m : Machine p) : Type 0 where
    pub root : Used m.allocator s
    pub tables_used :
        (x : ℕ)
        → x < 512
        → is_unused (m.tables s x) ≡ false
        → Below p (Used m.allocator) 3 (m.tables s x) m.tables

  -- A new space: a frame that was not in use, whose user half is empty and whose other half is the
  -- kernel's.
  pub record Made (kernel d : PhysFrame) (m m' : Machine p) : Type 0 where
    pub was_free : ¬ Used m.allocator d
    pub is_taken : Used m'.allocator d
    pub kept : (t : PhysFrame) → Used m.allocator t → Used m'.allocator t
    pub others : (t : PhysFrame) → ¬ (t ≡ d) → (i : ℕ) → m'.tables t i ≡ m.tables t i
    pub lower : (x : ℕ) → x < 256 → is_unused (m'.tables d x) ≡ true
    pub upper : (x : ℕ) → 256 ≤ x → x < 512 → m'.tables d x ≡ m.tables kernel x

  clear_other :
      (d t : PhysFrame) (i : ℕ) (m : Machine p)
      → ¬ (t ≡ d)
      → (clear p d m).tables t i ≡ m.tables t i
  clear_other d t i m apart = elim (Bool-cases (p.same_frame d t)) [
    | inl same ↦ absurd (apart (sym ((p.same_frame_iff d t).0 same)))
    | inr other ↦ rw other refl
  ]

  made :
      (kernel d : PhysFrame) (m m' : Machine p)
      → Used m.allocator kernel
      → Fresh p m m' d
      → Made kernel d m (copy_entries p 256 256 kernel d (clear p d m'))
  made kernel d m m' used f =
      let apart = λ (e : kernel ≡ d). f.was_free (subst (Used m.allocator) e used) in
      let (alloc, others, copied) = copy_entries_lem p 256 256 kernel d (clear p d m') apart in
      let same = λ (t : PhysFrame) (i : ℕ). ap (λ (tables : Tables p). tables t i) f.unchanged in
      record {
        was_free = f.was_free;
        is_taken = subst (λ a. Used a d) (sym alloc) f.is_taken;
        kept = λ t was. subst (λ a. Used a t) (sym alloc) (f.kept t was);
        others = λ t far i. others t i (inl far) ∙ clear_other d t i m' far ∙ same t i;
        lower = λ x high.
            ap is_unused (others d x (inr (λ c. omega (arith, c, high))))
            ∙ rw (same_frame_self p d) is_unused-unused;
        upper = λ x low high. copied x low high ∙ clear_other d kernel x m' apart ∙ same kernel x;
      }

  -- With a frame left and the kernel's table in use, `create_process_pml4` returns a new space.
  pub create_process_pml4_lem :
      (k : ℕ) (kernel : PhysFrame) (m : Machine p)
      → Used m.allocator kernel
      → Gives p (suc k) m.allocator
      → (d : PhysFrame) × (m' : Machine p) × (create_process_pml4 p kernel m ≡ returned (d, m'))
        × Made kernel d m m'
        × Gives p k m'.allocator
  unfolding create_process_pml4
  create_process_pml4_lem k kernel m used gives =
      let (d, m', ran, f, rest) = new_table_lem p k m gives in
      let new_space = made kernel d m m' used f in
      let alloc =
        (copy_entries_lem p 256 256 kernel d (clear p d m')
          (λ e. f.was_free (subst (Used m.allocator) e used))).0 in
      (
        d,
        copy_entries p 256 256 kernel d (clear p d m'),
        rw ran refl,
        new_space,
        subst (Gives p k) (sym alloc) rest,
      )
