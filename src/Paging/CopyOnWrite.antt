-- ===== src/Paging/CopyOnWrite.antt =====
-- The copy of a process's address space: `clone_user_mappings` and `clone_user_mappings_cow`
-- (kernel/src/memory/paging.rs).
use new_os.Base.{
  ℕ, ◌+◌, ◌≤◌, ◌<◌, ◌≡◌, refl, sym, ◌∙◌, ◌⊎◌, inl, inr, Bool, true, false, List, ◌∷◌, returned,
  Bool-cases, arith,
}
use mathlib.Core.Option
use mathlib.Core.Path.{subst}
use new_os.Paging.{
  Platform, Machine, clone_leaf, clone_table_level, clone_user_mappings, clone_user_mappings_cow,
  copy_entries,
}
use new_os.Paging.Trees.{Indices, Below-weaken, Below-agree, walk-agree}
use new_os.Paging.Entries.{Gives}
use new_os.Paging.Copies.{Extends, Copied, Source, Copied-after}
use new_os.Paging.Descent.{clone_table_level_lem}
use new_os.Paging.Halves.{clone_used_lem, copy_entries_lem}
use new_os.Paging.Spaces.{resolve, user_cost, IsSpace, Made}

module _ (p : Platform) where
  open p use {Entry, PhysFrame, is_unused, Used}

  -- What stands when the user half of `s` has been copied to `d`.
  pub record UserCopied (cow : Bool) (s d : PhysFrame) (m m' : Machine p) : Type 0 where
    pub others :
        (t : PhysFrame)
        → Used m.allocator t
        → (i : ℕ) → (¬ (t ≡ d)) ⊎ (256 ≤ i)
        → m'.tables t i ≡ m.tables t i
    pub kept : (t : PhysFrame) → Used m.allocator t → Used m'.allocator t
    pub copies : (x : ℕ) → x < 256 → Copied p 3 cow (m.tables s x) (m'.tables d x) m m'

  -- The space `s` can be copied to `d`: `d` is a table in use, but none of the tables of `s`, and
  -- its user half is empty.
  pub record IsCopyable (s d : PhysFrame) (m : Machine p) : Type 0 where
    pub source : Used m.allocator s
    pub target : Used m.allocator d
    pub apart : ¬ (s ≡ d)
    pub empty : (x : ℕ) → x < 256 → is_unused (m.tables d x) ≡ true
    pub tables_apart :
        (x : ℕ) → x < 256 → is_unused (m.tables s x) ≡ false → Source p d 3 (m.tables s x) m

  -- With a frame left for each table of the user half, `clone_user_mappings` returns. It changes no
  -- table in use but the user half of the target, and makes each entry there a copy, on new tables,
  -- of the source's.
  pub clone_user_mappings_lem :
      (k : ℕ) (s d : PhysFrame) (cow : Bool) (m : Machine p)
      → IsCopyable s d m
      → Gives p (user_cost p s m + k) m.allocator
      → (m' : Machine p) × (clone_user_mappings p s d cow m ≡ returned m')
        × UserCopied cow s d m m'
        × Gives p k m'.allocator
  unfolding clone_user_mappings
  clone_user_mappings_lem k s d cow m c gives =
      let (m', ran, ext, copies, rest) =
        clone_used_lem p 3 cow (clone_table_level p 3 cow) (clone_table_level_lem p cow 3) s d
          c.apart k 256 0 m refl c.source c.target (λ x low high _. c.empty x high)
          (λ x low high used. c.tables_apart x high used) gives in
      (
        m',
        ran,
        record {
          others = λ t used i out. ext.others t used i (outside t i out);
          kept = ext.kept;
          copies = λ x high. copies x (omega arith) high;
        },
        rest,
      )
    where
      outside :
          (t : PhysFrame) (i : ℕ)
          → (¬ (t ≡ d)) ⊎ (256 ≤ i)
          → (¬ (t ≡ d)) ⊎ (¬ ((0 ≤ i) × (i < 256)))
      outside t i (inl far) = inl far
      outside t i (inr high) = inr (λ b. omega (arith, b, high))

  -- What stands when `s` has been copied to `d` by `clone_user_mappings_cow`.
  pub record SpaceCopied (s d : PhysFrame) (m m' : Machine p) : Type 0 where
    pub others :
        (t : PhysFrame) → Used m.allocator t → (¬ (t ≡ d)) → (i : ℕ) → m'.tables t i ≡ m.tables t i
    pub kept : (t : PhysFrame) → Used m.allocator t → Used m'.allocator t
    pub copies : (x : ℕ) → x < 256 → Copied p 3 true (m.tables s x) (m'.tables d x) m m'
    pub upper : (x : ℕ) → 256 ≤ x → x < 512 → m'.tables d x ≡ m.tables s x

  upper_Extends :
      (s d : PhysFrame) (n : Machine p)
      → ¬ (s ≡ d)
      → Extends p d (λ i. 256 ≤ i) n (copy_entries p 256 256 s d n)
  upper_Extends s d n apart =
      let (alloc, same, copied) = copy_entries_lem p 256 256 s d n apart in
      record {
        others = λ t used i out. same t i (outside t i out);
        kept = λ t used. subst (λ a. Used a t) (sym alloc) used;
      }
    where
      outside :
          (t : PhysFrame) (i : ℕ)
          → (¬ (t ≡ d)) ⊎ (¬ (256 ≤ i))
          → (¬ (t ≡ d)) ⊎ (¬ ((256 ≤ i) × (i < 256 + 256)))
      outside t i (inl far) = inl far
      outside t i (inr low) = inr (λ b. low b.0)

  pub clone_user_mappings_cow_lem :
      (k : ℕ) (s d : PhysFrame) (m : Machine p)
      → IsCopyable s d m
      → Gives p (user_cost p s m + k) m.allocator
      → (m' : Machine p) × (clone_user_mappings_cow p s d m ≡ returned m')
        × SpaceCopied s d m m'
        × Gives p k m'.allocator
  unfolding clone_user_mappings_cow clone_user_mappings
  clone_user_mappings_cow_lem k s d m c gives =
      let (n, ran, u, rest) = clone_user_mappings_lem k s d true m c gives in
      let m' = copy_entries p 256 256 s d n in
      let (alloc, same, copied) = copy_entries_lem p 256 256 s d n c.apart in
      (
        m',
        rw ran refl,
        record {
          others = λ t used far i. same t i (inl far) ∙ u.others t used i (inl far);
          kept = λ t used. subst (λ a. Used a t) (sym alloc) (u.kept t used);
          copies = λ x high.
              let still : m'.tables d x ≡ n.tables d x =
                same d x (inr (λ b. omega (arith, b, high))) in
              subst (λ e. Copied p 3 true (m.tables s x) e m m') (sym still)
                (Copied-after p 3 true (m.tables s x) (n.tables d x) m n m' c.target
                  (upper_Extends s d n c.apart) (u.copies x high));
          upper = λ x low high. copied x low high ∙ u.others s c.source x (inl c.apart);
        },
        subst (Gives p k) (sym alloc) rest,
      )

  -- The space of a new process can take the copy of a space that was there before.
  pub Made-IsCopyable :
      (s kernel d : PhysFrame) (m m' : Machine p)
      → IsSpace p s m
      → Made p kernel d m m'
      → IsCopyable s d m'
  Made-IsCopyable s kernel d m m' sp made = record {
    source = made.kept s sp.root;
    target = made.is_taken;
    apart = is_old s sp.root;
    empty = made.lower;
    tables_apart = λ x high used.
        let same = made.others s (is_old s sp.root) x in
        let here =
          sp.tables_used x (omega (arith, high)) (subst (λ e. is_unused e ≡ false) same used) in
        subst (λ e. Source p d 3 e m') (sym same)
          (Below-weaken p (λ t was. (made.kept t was, is_old t was)) 3 (m.tables s x) m'.tables
            (Below-agree p m.tables m'.tables (λ t was i b. made.others t (is_old t was) i) 3
              (m.tables s x) here));
  }
    where
      is_old : (t : PhysFrame) → Used m.allocator t → ¬ (t ≡ d)
      is_old t was e = made.was_free (subst (Used m.allocator) e was)

  -- Tables that stay as they are, with what an address leads to.
  pub resolve-IsSpace :
      (s d : PhysFrame) (m m' : Machine p) (x : ℕ) (path : List ℕ)
      → IsSpace p s m
      → ((t : PhysFrame) → Used m.allocator t → (i : ℕ) → m'.tables t i ≡ m.tables t i)
      → m'.tables d x ≡ m.tables s x
      → x < 512
      → Indices p path
      → resolve p d (x ∷ path) m'.tables ≡ resolve p s (x ∷ path) m.tables
  unfolding resolve
  resolve-IsSpace s d m m' x path sp agree same bound valid =
      rw same (elim (Bool-cases (is_unused (m.tables s x))) [
        | inl free ↦ rw free refl
        | inr used ↦ rw used (
            walk-agree p m.tables m'.tables (λ t was i b. agree t was i) 3 (m.tables s x) path
              (sp.tables_used x bound used) valid)
      ])

  -- The user half of the copy: each address leads to the copy of the entry that it led to.
  pub resolve-Copied :
      (s d : PhysFrame) (m m' : Machine p) (x : ℕ) (path : List ℕ)
      → Copied p 3 true (m.tables s x) (m'.tables d x) m m'
      → Indices p path
      → resolve p d (x ∷ path) m'.tables
        ≡ Option.map (clone_leaf p true) (resolve p s (x ∷ path) m.tables)
  unfolding resolve
  resolve-Copied s d m m' x path c valid =
      rw c.in_use (elim (Bool-cases (is_unused (m.tables s x))) [
        | inl free ↦ rw free refl
        | inr used ↦ rw used (c.paths used path valid)
      ])
