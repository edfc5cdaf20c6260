-- ===== src/Paging/Halves.antt =====
-- The two halves of an address space: the loops of `clone_user_mappings`,
-- `clone_user_mappings_cow` and `create_process_pml4` (kernel/src/memory/paging.rs).
use new_os.Base.{
  ℕ, zero, suc, ◌+◌, ◌≤◌, ◌<◌, ◌≡◌, ◌≢◌, refl, sym, ap, ◌∙◌, ◌⊎◌, inl, inr, Bool, true, false,
  if◌then◌else◌, returned, Bool-cases, arith,
}
use mathlib.Core.Path.{subst}
use native.Mathlib.Decide.{ℕ_discrete}
use new_os.Paging.{Platform, Machine, put, store, clone_used, copy_entries, Cloner}
use new_os.Paging.Trees.{table_count, cost, sum_from, sum_from-eq}
use new_os.Paging.Entries.{store_self, store_other, store_frame, Gives}
use new_os.Paging.Copies.{
  Extends, Copied, Source, Clones, Extends-trans, Extends-sub, Source-Extends,
}
use new_os.Paging.Level.{entry_agree, cost_agree, join_copies}

module _ (p : Platform) where
  open p use {Entry, PhysFrame, is_unused, Used}

  module _ (level : ℕ) (cow : Bool) (clone : Cloner p) (spec : Clones p level cow clone)
      (s d : PhysFrame) (apart : ¬ (s ≡ d)) where
    -- The loop's body at one index.
    used_entry :
        (r i : ℕ) (m : Machine p)
        → Used m.allocator d
        → (is_unused (m.tables s i) ≡ true → is_unused (m.tables d i) ≡ true)
        → (is_unused (m.tables s i) ≡ false → Source p d level (m.tables s i) m)
        → Gives p (cost p level (m.tables s i) m.tables + r) m.allocator
        → (m' : Machine p) × ((if is_unused (m.tables s i)
              then returned m
              else clone (m.tables s i) d i m)
            ≡ returned m')
          × Extends p d (λ x. x ≡ i) m m'
          × Copied p level cow (m.tables s i) (m'.tables d i) m m'
          × Gives p r m'.allocator
    used_entry r i m used_d empty source gives = elim (Bool-cases (is_unused (m.tables s i))) [
      | inl free ↦ (
        m,
        rw free refl,
        record { others = λ t used x out. refl; kept = λ t used. used },
        record {
          in_use = empty free ∙ sym free;
          below = λ used. absurd (let c = free in cc);
          paths = λ used. absurd (let c = free in cc);
        },
        subst (λ n. Gives p n m.allocator) (rw free (omega arith)) gives,
      )
      | inr used ↦
          let same : cost p level (m.tables s i) m.tables + r
              ≡ table_count p level (m.tables s i) m.tables + r =
            rw used refl in
          let (m', ran, ext, copied, rest) =
            spec r (m.tables s i) d i m used used_d (source used)
              (subst (λ n. Gives p n m.allocator) same gives) in
          (m', rw used ran, ext, copied, rest)
    ]

    pub clone_used_lem :
        (k n i : ℕ) (m : Machine p)
        → i + n ≡ 256
        → Used m.allocator s
        → Used m.allocator d
        → ((x : ℕ)
            → i ≤ x
            → x < 256
            → is_unused (m.tables s x) ≡ true
            → is_unused (m.tables d x) ≡ true)
        → ((x : ℕ)
            → i ≤ x
            → x < 256
            → is_unused (m.tables s x) ≡ false
            → Source p d level (m.tables s x) m)
        → Gives p (sum_from (λ x. cost p level (m.tables s x) m.tables) n i + k) m.allocator
        → (m' : Machine p) × (clone_used p clone n i s d m ≡ returned m')
          × Extends p d (λ x. (i ≤ x) × (x < 256)) m m'
          × ((x : ℕ) → i ≤ x → x < 256 → Copied p level cow (m.tables s x) (m'.tables d x) m m')
          × Gives p k m'.allocator
    unfolding clone_used sum_from
    clone_used_lem k zero i m total used_s used_d empty source gives = (
      m,
      refl,
      record { others = λ t used x free. refl; kept = λ t used. used },
      λ x low high. absurd (omega (arith, total, low, high)),
      subst (λ n. Gives p n m.allocator) (omega arith) gives,
    )
    clone_used_lem k (suc n) i m total used_s used_d empty source gives =
        let f = λ (x : ℕ). cost p level (m.tables s x) m.tables in
        let (m', ran, ext, copied, left) =
          used_entry (sum_from f n (i + 1) + k) i m used_d
            (empty i (omega arith) (omega (arith, total)))
            (source i (omega arith) (omega (arith, total)))
            (subst (λ n. Gives p n m.allocator) (omega arith) gives) in
        let costs : sum_from f n (i + 1)
            ≡ sum_from (λ x. cost p level (m'.tables s x) m'.tables) n (i + 1) =
          sum_from-eq _ _ n (i + 1) (λ (x : ℕ) (low : i + 1 ≤ x) (h : x < i + 1 + n). sym (
            cost_agree p level cow clone spec s d apart i m m' used_s ext x
              (source x (omega (arith, low)) (omega (arith, h, total))))) in
        let agree = entry_agree p level cow clone spec s d apart i m m' used_s ext in
        let source' =
          λ (x : ℕ) (low : i + 1 ≤ x) (high : x < 256) (used : is_unused (m'.tables s x) ≡ false).
            subst (λ e. Source p d level e m') (sym (agree x))
              (Source-Extends p m m' ext level (m.tables s x) (
                source x (omega (arith, low)) high
                  (subst (λ e. is_unused e ≡ false) (agree x) used))) in
        let empty' =
          λ (x : ℕ) (low : i + 1 ≤ x) (high : x < 256) (free : is_unused (m'.tables s x) ≡ true).
            ap is_unused (ext.others d used_d x (inr (λ c. omega (arith, low, c))))
            ∙ empty x (omega (arith, low)) high (subst (λ e. is_unused e ≡ true) (agree x) free) in
        let (o, done, later, copies, rest) =
          clone_used_lem k n (i + 1) m' (omega (arith, total)) (ext.kept s used_s)
            (ext.kept d used_d) empty' source'
            (subst (λ c. Gives p (c + k) m'.allocator) costs left) in
        (
          o,
          rw ran done,
          Extends-trans p m m' o (λ x (e : x ≡ i). omega (arith, e, total)) ext
              (Extends-sub p {n = o} (λ x low. omega (arith, low)) later),
          λ x low high.
              join_copies p level cow clone spec s d apart 256 i m m' o used_s used_d ext
                (Extends-sub p {n = o} (λ x low. low.0) later) copied copies x low high
                (source x low high),
          rest,
        )

  -- An entry outside the range of a loop is outside what is left of it, and is not the first.
  narrow :
      (n i x : ℕ) (t d : PhysFrame)
      → (¬ (t ≡ d)) ⊎ (¬ ((i ≤ x) × (x < i + suc n)))
      → (¬ (t ≡ d)) ⊎ (¬ ((i + 1 ≤ x) × (x < i + 1 + n)))
  narrow n i x t d (inl apart) = inl apart
  narrow n i x t d (inr out) = inr (λ c. out (omega (arith, c)))

  first :
      (n i x : ℕ) (t d : PhysFrame)
      → (¬ (t ≡ d)) ⊎ (¬ ((i ≤ x) × (x < i + suc n)))
      → (¬ (t ≡ d)) ⊎ (i ≢ x)
  first n i x t d (inl apart) = inl apart
  first n i x t d (inr out) = inr (λ e. out (omega (arith, e)))

  stored :
      (d : PhysFrame) (j : ℕ) (e : Entry) (m : Machine p) (t : PhysFrame) (x : ℕ)
      → (¬ (t ≡ d)) ⊎ (j ≢ x)
      → store p d j e m.tables t x ≡ m.tables t x
  stored d j e m t x (inl apart) = store_frame p d t j x e m.tables apart
  stored d j e m t x (inr apart) = store_other p d t j x e m.tables apart

  -- What the copy of a range of entries changes.
  pub copy_entries_lem :
      (n i : ℕ) (s d : PhysFrame) (m : Machine p)
      → ¬ (s ≡ d)
      → ((copy_entries p n i s d m).allocator ≡ m.allocator)
        × ((t : PhysFrame) (x : ℕ)
            → (¬ (t ≡ d)) ⊎ (¬ ((i ≤ x) × (x < i + n)))
            → (copy_entries p n i s d m).tables t x ≡ m.tables t x)
        × ((x : ℕ) → i ≤ x → x < i + n → (copy_entries p n i s d m).tables d x ≡ m.tables s x)
  unfolding copy_entries
  copy_entries_lem zero i s d m apart =
      (refl, λ t x out. refl, λ x low high. absurd (omega (arith, low, high)))
  copy_entries_lem (suc n) i s d m apart =
      let (alloc, others, copied) =
        copy_entries_lem n (i + 1) s d (put p d i (m.tables s i) m) apart in
      (
        alloc,
        λ t x out.
            others t x (narrow n i x t d out)
            ∙ stored d i (m.tables s i) m t x (first n i x t d out),
        λ x low high. elim (ℕ_discrete i x) [
          | yes here ↦
              subst (λ x. (copy_entries p (suc n) i s d m).tables d x ≡ m.tables s x) here
                (others d i (inr (λ c. omega (arith, c)))
                  ∙ store_self p d i (m.tables s i) m.tables)
          | no there ↦
              copied x (ground (arith, there)) (omega (arith, high))
              ∙ store_frame p d s i x (m.tables s i) m.tables apart
        ],
      )
