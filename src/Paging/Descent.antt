-- ===== src/Paging/Descent.antt =====
-- The copy of an entry with the tables below it: `clone_table_level`
-- (kernel/src/memory/paging.rs).
use new_os.Base.{
  ℕ, zero, suc, ◌+◌, ◌≤◌, ◌<◌, ◌≡◌, refl, sym, ap, ◌∙◌, inl, inr, Bool, false, some, List, [], ◌∷◌,
  returned, Bool-cases, arith,
}
use mathlib.Core.Option
use mathlib.Core.Path.{subst}
use new_os.Paging.{
  Platform, Tables, Machine, put, clone_leaf, clone_table, clone_table_level, Cloner,
}
use new_os.Paging.Trees.{
  Indices, walk, Below, cost, sum_from, sum_from-eq, Below-weaken, Below-agree, walk-agree,
  walk_step, table_count_step,
}
use new_os.Paging.Entries.{store_self, frame-set_frame, Gives, Fresh, new_table_lem}
use new_os.Paging.Copies.{Extends, Copied, Source, Clones, cost-Extends}
use new_os.Paging.Level.{put-Extends, clone_entries_lem, clone_leaf_lem}

module _ (p : Platform) where
  open p use {Entry, PhysFrame, is_unused, flags, frame, set_frame, Used}

  -- `e` leads to the table `s`; `t` is a new table, to which index `j` of `d` then leads.
  module _ (level : ℕ) (cow : Bool) (e : Entry) (s d t : PhysFrame) (j : ℕ) (m m' : Machine p)
      (used : is_unused e ≡ false) (used_d : Used m.allocator d) (points : frame e ≡ some s)
      (used_s : Used m.allocator s) (apart : ¬ (s ≡ d)) (f : Fresh p m m' t)
      (below : (i : ℕ)
        → i < 512
        → is_unused (m.tables s i) ≡ false
        → Source p d level (m.tables s i) m) where
    pub linked : Machine p
    linked = put p d j (set_frame t (flags e)) m'

    is_new : (g : PhysFrame) → Used m.allocator g → ¬ (g ≡ t)
    is_new g was same = f.was_free (subst (Used m.allocator) same was)

    linked-Extends : Extends p d (λ i. i ≡ j) m linked
    unfolding linked
    linked-Extends =
        let put_ext = put-Extends p d j (set_frame t (flags e)) m' in
        record {
          others = λ g was i free.
              put_ext.others g (f.kept g was) i free
              ∙ ap (λ (tables : Tables p). tables g i) f.unchanged;
          kept = f.kept;
        }

    linked_source : (i : ℕ) → linked.tables s i ≡ m.tables s i
    linked_source i = linked-Extends.others s used_s i (inl apart)

    child_is_Source :
        (i : ℕ)
        → i < 512
        → is_unused (linked.tables s i) ≡ false
        → Source p t level (linked.tables s i) linked
    child_is_Source i bound in_use =
        let same = linked_source i in
        let h = below i bound (subst (λ e. is_unused e ≡ false) same in_use) in
        subst (λ e. Source p t level e linked) (sym same)
          (Below-weaken p (λ g (was, far). (linked-Extends.kept g was, is_new g was)) level
            (m.tables s i) linked.tables
            (Below-agree p m.tables linked.tables
              (λ g (was, far) x b. linked-Extends.others g was x (inl far)) level (m.tables s i) h))

    linked_cost :
        sum_from (λ i. cost p level (m.tables s i) m.tables) 512 0
        ≡ sum_from (λ i. cost p level (linked.tables s i) linked.tables) 512 0
    linked_cost = sum_from-eq _ _ 512 0 (λ (i : ℕ) (low : 0 ≤ i) (h : i < 0 + 512).
        let same = linked_source i in
        sym (
          rw same (
            cost-Extends p m linked linked-Extends level (m.tables s i)
              (below i (omega (arith, h))))))

    -- The loop has filled the new table.
    module _ (o : Machine p) (ext : Extends p t (λ x. 0 ≤ x) linked o)
        (copies : (x : ℕ)
          → 0 ≤ x
          → x < 512
          → Copied p level cow (linked.tables s x) (o.tables t x) linked o) where
      filled-Extends : Extends p d (λ i. i ≡ j) m o
      filled-Extends = record {
        others = λ g was i free.
            ext.others g (linked-Extends.kept g was) i (inl (is_new g was))
            ∙ linked-Extends.others g was i free;
        kept = λ g was. ext.kept g (linked-Extends.kept g was);
      }

      filled_entry : o.tables d j ≡ set_frame t (flags e)
      unfolding linked
      filled_entry =
          ext.others d (linked-Extends.kept d used_d) j (inl (is_new d used_d))
          ∙ store_self p d j (set_frame t (flags e)) m'.tables

      filled_paths :
          (path : List ℕ)
          → Indices p path
          → walk p (suc level) (set_frame t (flags e)) path o.tables
            ≡ Option.map (clone_leaf p cow) (walk p (suc level) e path m.tables)
      unfolding walk
      filled_paths [] valid = refl
      filled_paths (i ∷ path) (bound, valid) =
          let leads = (frame-set_frame p e s t points).0 in
          let c = copies i (omega arith) bound in
          let same = linked_source i in
          let in_use : is_unused (o.tables t i) ≡ is_unused (m.tables s i) =
            c.in_use ∙ ap is_unused same in
          rw
            (
              walk_step p level (set_frame t (flags e)) t i path o.tables leads,
              walk_step p level e s i path m.tables points,
              in_use,
            )
            (elim (Bool-cases (is_unused (m.tables s i))) [
              | inl free ↦ rw free refl
              | inr busy ↦
                  let busy' : is_unused (linked.tables s i) ≡ false = ap is_unused same ∙ busy in
                  rw busy (
                    c.paths busy' path valid
                    ∙ ap (λ x. Option.map (clone_leaf p cow) (walk p level x path linked.tables))
                        same
                    ∙ ap (Option.map (clone_leaf p cow)) (
                        walk-agree p m.tables linked.tables
                          (λ g (was, far) x b. linked-Extends.others g was x (inl far)) level
                          (m.tables s i) path (below i bound busy) valid))
            ])

      filled-Copied : Copied p (suc level) cow e (o.tables d j) m o
      unfolding Below linked
      filled-Copied =
          let (leads, busy) = frame-set_frame p e s t points in
          subst (λ e'. Copied p (suc level) cow e e' m o) (sym filled_entry)
            (record {
              in_use = busy ∙ sym used;
              below = λ _. (
                t,
                leads,
                (f.was_free, ext.kept t (f.is_taken)),
                λ i bound in_use.
                    let c = copies i (omega arith) bound in
                    Below-weaken p
                      (λ g (free, taken). (λ was. free (linked-Extends.kept g was), taken)) level
                      (o.tables t i) o.tables (c.below (sym c.in_use ∙ in_use)),
              );
              paths = λ _ path valid. filled_paths path valid;
            })

    -- The new table.
    fill :
        (clone : Cloner p) (k : ℕ)
        → Clones p level cow clone
        → Gives p (sum_from (λ i. cost p level (m.tables s i) m.tables) 512 0 + k) m'.allocator
        → (o : Machine p) × (clone_table p clone e t (put p d j (set_frame t (flags e)) m')
            ≡ returned o)
          × Extends p d (λ i. i ≡ j) m o
          × Copied p (suc level) cow e (o.tables d j) m o
          × Gives p k o.allocator
    unfolding linked clone_table
    fill clone k spec gives =
        let (o, ran, ext, copies, rest) =
          clone_entries_lem p level cow clone spec s t (is_new s used_s) k 512 0 linked refl
            (linked-Extends.kept s used_s) f.is_taken
            (λ i low bound busy. child_is_Source i bound busy)
            (subst (λ n. Gives p (n + k) m'.allocator) linked_cost gives) in
        (o, rw points ran, filled-Extends o ext copies, filled-Copied o ext copies, rest)

-- For an entry in use whose tables are in use and apart from the table `d`, with frames left for
-- each of them: the copy returns, changes no table in use but the entry at index `j` of `d`, and
-- makes that entry a copy on new tables, in which every path of indices leads to the copy of the
-- entry that it leads to from the original.
pub clone_table_level_lem :
    (p : Platform) (cow : Bool) (level : ℕ) → Clones p level cow (clone_table_level p level cow)
unfolding clone_table_level Below
clone_table_level_lem p cow zero k e d j m used used_d source gives =
    clone_leaf_lem p cow k e d j m used used_d source gives
clone_table_level_lem p cow (suc level) k e d j m used used_d (s, points, (used_s, apart), below)
      gives =
    let needed = table_count_step p level e s m.tables points in
    let (t, m', made, f, left) =
      new_table_lem p (sum_from (λ i. cost p level (m.tables s i) m.tables) 512 0 + k) m
        (subst (λ n. Gives p n m.allocator) (omega (arith, needed)) gives) in
    let (o, ran, ext, copied, rest) =
      fill p level cow e s d t j m m' used used_d points used_s apart f below
        (clone_table_level p level cow) k (clone_table_level_lem p cow level) left in
    (o, rw made ran, ext, copied, rest)
