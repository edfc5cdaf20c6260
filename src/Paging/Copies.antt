-- ===== src/Paging/Copies.antt =====
-- What a copy of an entry, with the tables below it, leaves behind (`clone_table_level` of
-- kernel/src/memory/paging.rs).
use new_os.Base.{
  ℕ, ◌+◌, ◌<◌, ◌≡◌, refl, sym, ap, ◌∙◌, ◌⊎◌, inl, inr, Bool, false, List, returned, Bool-cases,
}
use mathlib.Core.Option
use mathlib.Core.Path.{subst}
use new_os.Paging.{Platform, Machine, clone_leaf, Cloner}
use new_os.Paging.Trees.{
  Indices, walk, Below, table_count, cost, Below-weaken, Below-agree, walk-agree, table_count-agree,
}
use new_os.Paging.Entries.{Gives}

module _ (p : Platform) where
  open p use {Entry, PhysFrame, is_unused, flags, frame, set_frame, Allocator, Used}

  -- From `m` to `m'` the tables in use change at most in the entries of `d` that `W` names.
  pub record Extends (d : PhysFrame) (W : ℕ → Type 0) (m m' : Machine p) : Type 0 where
    pub others :
        (t : PhysFrame)
        → Used m.allocator t
        → (i : ℕ) → (¬ (t ≡ d)) ⊎ (¬ W i)
        → m'.tables t i ≡ m.tables t i
    pub kept : (t : PhysFrame) → Used m.allocator t → Used m'.allocator t

  -- `e'` is a copy of `e`: it is in use exactly if `e` is, it stands on tables that were not in use
  -- before, and every path of indices leads to the copy of the entry that it leads to from `e`.
  pub record Copied (level : ℕ) (cow : Bool) (e e' : Entry) (m m' : Machine p) : Type 0 where
    pub in_use : is_unused e' ≡ is_unused e
    pub below :
        is_unused e ≡ false
        → Below p (λ t. (¬ Used m.allocator t) × Used m'.allocator t) level e' m'.tables
    pub paths :
        is_unused e ≡ false
        → (path : List ℕ) → Indices p path
        → walk p level e' path m'.tables
          ≡ Option.map (clone_leaf p cow) (walk p level e path m.tables)

  -- The tables below `e` are in use and none of them is `d`.
  abbrev pub Source : PhysFrame → ℕ → Entry → Machine p → Type 0
  Source d level e m = Below p (λ t. Used m.allocator t × (¬ (t ≡ d))) level e m.tables

  -- What a copy of an entry to index `j` of `d` does.
  abbrev pub Clones : ℕ → Bool → Cloner p → Type 0
  Clones level cow clone =
      (k : ℕ) (e : Entry) (d : PhysFrame) (j : ℕ) (m : Machine p)
      → is_unused e ≡ false
      → Used m.allocator d
      → Source d level e m
      → Gives p (table_count p level e m.tables + k) m.allocator
      → (m' : Machine p) × (clone e d j m ≡ returned m')
        × Extends d (λ i. i ≡ j) m m'
        × Copied level cow e (m'.tables d j) m m'
        × Gives p k m'.allocator

  pub Extends-trans :
      {d : PhysFrame} {V W : ℕ → Type 0} (m n o : Machine p)
      → ((i : ℕ) → V i → W i)
      → Extends d V m n
      → Extends d W n o
      → Extends d W m o
  Extends-trans {d} {V} {W} m n o sub first second = record {
    others = λ t used i free.
        second.others t (first.kept t used) i free ∙ first.others t used i (narrow t i free);
    kept = λ t used. second.kept t (first.kept t used);
  }
    where
      narrow : (t : PhysFrame) (i : ℕ) → (¬ (t ≡ d)) ⊎ (¬ W i) → (¬ (t ≡ d)) ⊎ (¬ V i)
      narrow t i (inl apart) = inl apart
      narrow t i (inr apart) = inr (λ v. apart (sub i v))

  pub Extends-sub :
      {d : PhysFrame} {V W : ℕ → Type 0} {m n : Machine p}
      → ((i : ℕ) → V i → W i)
      → Extends d V m n
      → Extends d W m n
  Extends-sub {d} {V} {W} sub first = record {
    others = λ t used i free. first.others t used i (narrow t i free);
    kept = first.kept;
  }
    where
      narrow : (t : PhysFrame) (i : ℕ) → (¬ (t ≡ d)) ⊎ (¬ W i) → (¬ (t ≡ d)) ⊎ (¬ V i)
      narrow t i (inl apart) = inl apart
      narrow t i (inr apart) = inr (λ v. apart (sub i v))

  module _ {d : PhysFrame} {W : ℕ → Type 0} (m n : Machine p) (ext : Extends d W m n) where
    source_agree :
        (t : PhysFrame)
        → Used m.allocator t × (¬ (t ≡ d))
        → (i : ℕ) → i < 512
        → n.tables t i ≡ m.tables t i
    source_agree t (used, apart) i bound = ext.others t used i (inl apart)

    -- The source of a copy stays as it is.
    pub Source-Extends : (level : ℕ) (e : Entry) → Source d level e m → Source d level e n
    Source-Extends level e h =
        Below-weaken p (λ t (used, apart). (ext.kept t used, apart)) level e n.tables
          (Below-agree p m.tables n.tables source_agree level e h)

    pub table_count-Extends :
        (level : ℕ) (e : Entry)
        → Source d level e m
        → table_count p level e n.tables ≡ table_count p level e m.tables
    table_count-Extends level e h = table_count-agree p m.tables n.tables source_agree level e h

    pub cost-Extends :
        (level : ℕ) (e : Entry)
        → (is_unused e ≡ false → Source d level e m)
        → cost p level e n.tables ≡ cost p level e m.tables
    cost-Extends level e source = elim (Bool-cases (is_unused e)) [
      | inl free ↦ rw free refl
      | inr used ↦ rw used (table_count-Extends level e (source used))
    ]

    -- A copy that was made after these changes is a copy of the entry before them.
    pub Copied-before :
        (level : ℕ) (cow : Bool) (e e' : Entry) (o : Machine p)
        → (is_unused e ≡ false → Source d level e m)
        → Copied level cow e e' n o
        → Copied level cow e e' m o
    Copied-before level cow e e' o source c = record {
      in_use = c.in_use;
      below = λ used.
          Below-weaken p (λ t (free, taken). (λ was. free (ext.kept t was), taken)) level e'
            o.tables (c.below used);
      paths = λ used path valid.
          c.paths used path valid
          ∙ ap (Option.map (clone_leaf p cow))
              (walk-agree p m.tables n.tables source_agree level e path (source used) valid);
    }

  -- A copy stays a copy when later changes are made only to `d`, which was in use before.
  pub Copied-after :
      {d : PhysFrame} {W : ℕ → Type 0} (level : ℕ) (cow : Bool) (e e' : Entry) (m n o : Machine p)
      → Used m.allocator d
      → Extends d W n o
      → Copied level cow e e' m n
      → Copied level cow e e' m o
  Copied-after {d} level cow e e' m n o used_d ext c = record {
    in_use = c.in_use;
    below = λ used.
        Below-weaken p (λ t (free, taken). (free, ext.kept t taken)) level e' o.tables
          (Below-agree p n.tables o.tables agree level e' (c.below used));
    paths = λ used path valid.
        walk-agree p n.tables o.tables agree level e' path (c.below used) valid
        ∙ c.paths used path valid;
  }
    where
      agree :
          (t : PhysFrame)
          → (¬ Used m.allocator t) × Used n.allocator t
          → (i : ℕ) → i < 512
          → o.tables t i ≡ n.tables t i
      agree t (free, taken) i bound =
          ext.others t taken i (inl (λ e. free (subst (Used m.allocator) (sym e) used_d)))
