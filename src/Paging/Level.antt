-- ===== src/Paging/Level.antt =====
-- The loop of `clone_table_level` over the entries of a table, and its last level
-- (kernel/src/memory/paging.rs).
use new_os.Base.{
  ℕ, zero, suc, ◌+◌, ◌≤◌, ◌<◌, ◌≡◌, refl, sym, ◌⊎◌, inl, inr, Bool, false, if◌then◌else◌, returned,
  Bool-cases, arith,
}
use mathlib.Core.Path.{subst}
use native.Mathlib.Decide.{ℕ_discrete}
use new_os.Paging.{
  Platform, Machine, put, store, clone_leaf, clone_entries, clone_table_level, Cloner,
}
use new_os.Paging.Trees.{walk, Below, table_count, cost, sum_from, sum_from-eq}
use new_os.Paging.Entries.{store_self, store_other, store_frame, clone_leaf-is_unused, Gives}
use new_os.Paging.Copies.{
  Extends, Copied, Source, Clones, Extends-trans, Extends-sub, Source-Extends, cost-Extends,
  Copied-before, Copied-after,
}

module _ (p : Platform) where
  open p use {Entry, PhysFrame, is_unused, is_unused-unused, unused, flags, frame, set_frame, Used}

  -- A write to one entry.
  pub put-Extends :
      (d : PhysFrame) (j : ℕ) (e : Entry) (m : Machine p)
      → Extends p d (λ i. i ≡ j) m (put p d j e m)
  put-Extends d j e m = record { others = others; kept = λ t used. used }
    where
      others :
          (t : PhysFrame)
          → Used m.allocator t
          → (i : ℕ) → (¬ (t ≡ d)) ⊎ (¬ (i ≡ j))
          → store p d j e m.tables t i ≡ m.tables t i
      others t used i (inl apart) = store_frame p d t j i e m.tables apart
      others t used i (inr apart) = store_other p d t j i e m.tables (λ e. apart (sym e))

  module _ (level : ℕ) (cow : Bool) (clone : Cloner p) (spec : Clones p level cow clone)
      (s d : PhysFrame) (apart : ¬ (s ≡ d)) where
    -- The loop's body at one index.
    clone_entry :
        (r i : ℕ) (m : Machine p)
        → Used m.allocator d
        → (is_unused (m.tables s i) ≡ false → Source p d level (m.tables s i) m)
        → Gives p (cost p level (m.tables s i) m.tables + r) m.allocator
        → (m' : Machine p) × ((if is_unused (m.tables s i)
              then returned (put p d i unused m)
              else clone (m.tables s i) d i m)
            ≡ returned m')
          × Extends p d (λ x. x ≡ i) m m'
          × Copied p level cow (m.tables s i) (m'.tables d i) m m'
          × Gives p r m'.allocator
    clone_entry r i m used_d source gives = elim (Bool-cases (is_unused (m.tables s i))) [
      | inl free ↦ (
        put p d i unused m,
        rw free refl,
        put-Extends d i unused m,
        record {
          in_use = rw (store_self p d i unused m.tables, free) is_unused-unused;
          below = λ used. absurd (let c = free in cc);
          paths = λ used. absurd (let c = free in cc);
        },
        subst (λ n. Gives p n m.allocator) (rw free (omega arith)) gives,
      )
      | inr used ↦
          let same : cost p level (m.tables s i) m.tables + r
              ≡ table_count p level (m.tables s i) m.tables + r =
            rw used refl in
          let (m', ran, ext, copied, rest) =
            spec r (m.tables s i) d i m used used_d (source used)
              (subst (λ n. Gives p n m.allocator) same gives) in
          (m', rw used ran, ext, copied, rest)
    ]

    -- The rest of the table stays a source after the body at one index.
    pub entry_agree :
        (i : ℕ) (m n : Machine p)
        → Used m.allocator s
        → Extends p d (λ x. x ≡ i) m n
        → (x : ℕ) → n.tables s x ≡ m.tables s x
    entry_agree i m n used_s ext x = ext.others s used_s x (inl apart)

    pub cost_agree :
        (i : ℕ) (m n : Machine p)
        → Used m.allocator s
        → Extends p d (λ x. x ≡ i) m n
        → (x : ℕ) → (is_unused (m.tables s x) ≡ false → Source p d level (m.tables s x) m)
        → cost p level (n.tables s x) n.tables ≡ cost p level (m.tables s x) m.tables
    cost_agree i m n used_s ext x source =
        let same = entry_agree i m n used_s ext x in
        rw same (cost-Extends p m n ext level (m.tables s x) source)

    -- The entries copied by the rest of the loop, and the one copied before it.
    pub join_copies :
        (bound i : ℕ) (m n o : Machine p)
        → Used m.allocator s
        → Used m.allocator d
        → Extends p d (λ x. x ≡ i) m n
        → Extends p d (λ x. i + 1 ≤ x) n o
        → Copied p level cow (m.tables s i) (n.tables d i) m n
        → ((x : ℕ) → i + 1 ≤ x → x < bound → Copied p level cow (n.tables s x) (o.tables d x) n o)
        → (x : ℕ) → i ≤ x
        → x < bound
        → (is_unused (m.tables s x) ≡ false → Source p d level (m.tables s x) m)
        → Copied p level cow (m.tables s x) (o.tables d x) m o
    join_copies bound i m n o used_s used_d first later copied rest x low high source =
        elim (ℕ_discrete i x) [
          | yes here ↦
              let stays : o.tables d i ≡ n.tables d i =
                later.others d (first.kept d used_d) i (inr (λ c. omega (arith, c))) in
              let both =
                Copied-after p level cow (m.tables s i) (n.tables d i) m n o used_d later copied in
              subst (λ x. Copied p level cow (m.tables s x) (o.tables d x) m o) here
                (subst (λ e. Copied p level cow (m.tables s i) e m o) (sym stays) both)
          | no apart_x ↦
              let c = rest x (ground (arith, apart_x)) high in
              Copied-before p m n first level cow (m.tables s x) (o.tables d x) o source (
                subst (λ e. Copied p level cow e (o.tables d x) n o)
                  (entry_agree i m n used_s first x) c)
        ]

    pub clone_entries_lem :
        (k n i : ℕ) (m : Machine p)
        → i + n ≡ 512
        → Used m.allocator s
        → Used m.allocator d
        → ((x : ℕ)
            → i ≤ x
            → x < 512
            → is_unused (m.tables s x) ≡ false
            → Source p d level (m.tables s x) m)
        → Gives p (sum_from (λ x. cost p level (m.tables s x) m.tables) n i + k) m.allocator
        → (m' : Machine p) × (clone_entries p clone n i s d m ≡ returned m')
          × Extends p d (λ x. i ≤ x) m m'
          × ((x : ℕ) → i ≤ x → x < 512 → Copied p level cow (m.tables s x) (m'.tables d x) m m')
          × Gives p k m'.allocator
    unfolding clone_entries sum_from
    clone_entries_lem k zero i m total used_s used_d source gives = (
      m,
      refl,
      record { others = λ t used x free. refl; kept = λ t used. used },
      λ x low high. absurd (omega (arith, total, low, high)),
      subst (λ n. Gives p n m.allocator) (omega arith) gives,
    )
    clone_entries_lem k (suc n) i m total used_s used_d source gives =
        let f = λ (x : ℕ). cost p level (m.tables s x) m.tables in
        let (m', ran, ext, copied, left) =
          clone_entry (sum_from f n (i + 1) + k) i m used_d
            (source i (omega arith) (omega (arith, total)))
            (subst (λ n. Gives p n m.allocator) (omega arith) gives) in
        let costs : sum_from f n (i + 1)
            ≡ sum_from (λ x. cost p level (m'.tables s x) m'.tables) n (i + 1) =
          sum_from-eq _ _ n (i + 1) (λ (x : ℕ) (low : i + 1 ≤ x) (h : x < i + 1 + n). sym (
            cost_agree i m m' used_s ext x
              (source x (omega (arith, low)) (omega (arith, h, total))))) in
        let source' =
          λ (x : ℕ) (low : i + 1 ≤ x) (high : x < 512) (used : is_unused (m'.tables s x) ≡ false).
            let same = entry_agree i m m' used_s ext x in
            subst (λ e. Source p d level e m') (sym same)
              (Source-Extends p m m' ext level (m.tables s x) (
                source x (omega (arith, low)) high (subst (λ e. is_unused e ≡ false) same used))) in
        let (o, done, later, copies, rest) =
          clone_entries_lem k n (i + 1) m' (omega (arith, total)) (ext.kept s used_s)
            (ext.kept d used_d) source' (subst (λ c. Gives p (c + k) m'.allocator) costs left) in
        (
          o,
          rw ran done,
          Extends-trans p m m' o (λ x (e : x ≡ i). omega (arith, e)) ext
              (Extends-sub p (λ x (low : i + 1 ≤ x). omega (arith, low)) later),
          λ x low high.
              join_copies 512 i m m' o used_s used_d ext later copied copies x low high
                (source x low high),
          rest,
        )

pub clone_leaf_lem : (p : Platform) (cow : Bool) → Clones p 0 cow (clone_table_level p 0 cow)
unfolding clone_table_level walk Below table_count
clone_leaf_lem p cow k e d j m used used_d source gives =
    let e' = clone_leaf p cow e in
    let here = store_self p d j e' m.tables in
    (
      put p d j e' m,
      refl,
      put-Extends p d j e' m,
      record {
        in_use = rw (here, used) (clone_leaf-is_unused p cow e used);
        below = λ _. tt;
        paths = λ _ path valid. rw here refl;
      },
      subst (λ n. Gives p n m.allocator) (omega arith) gives,
    )
