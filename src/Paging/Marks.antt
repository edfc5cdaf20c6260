-- ===== src/Paging/Marks.antt =====
-- Pages made accessible to user mode: `set_user_accessible` (kernel/src/memory/paging.rs).
use new_os.Base.{ℕ, ◌≡◌, ◌≢◌, refl, sym, ◌∙◌, inl, inr, true, Bool-cases, arith}
use mathlib.Core.Path.{subst}
use native.Mathlib.Decide.{ℕ_discrete}
use new_os.Paging.{Platform, Machine, mark, present, huge_page, user_accessible}
use new_os.Paging.Entries.{store_self, store_other}

module _ (p : Platform) where
  open p use {
    Entry, Flags, PhysFrame, contains, insert, contains-insert, flags, points_to, frame, frame_lem,
    set_flags, flags-set_flags, points_to-set_flags, is_canonical, p4_index, p3_index, p2_index,
    p1_index,
  }

  -- An entry that may have gained the bit of user mode, and is otherwise the same.
  pub record Gains (e e' : Entry) : Type 0 where
    pub same_frame : points_to e' ≡ points_to e
    pub same_flags : (b : ℕ) → b ≢ user_accessible → contains (flags e') b ≡ contains (flags e) b
    pub keeps_user :
        contains (flags e) user_accessible ≡ true → contains (flags e') user_accessible ≡ true

  pub record Grows (m m' : Machine p) : Type 0 where
    pub entries : (t : PhysFrame) (i : ℕ) → Gains (m.tables t i) (m'.tables t i)
    pub same_allocator : m'.allocator ≡ m.allocator

  Gains-refl : (e : Entry) → Gains e e
  Gains-refl e = record { same_frame = refl; same_flags = λ b other. refl; keeps_user = λ h. h }

  pub Grows-refl : (m : Machine p) → Grows m m
  Grows-refl m = record { entries = λ t i. Gains-refl (m.tables t i); same_allocator = refl }

  pub Grows-trans : (m n o : Machine p) → Grows m n → Grows n o → Grows m o
  Grows-trans m n o g h = record {
    entries = λ t i. record {
      same_frame = (h.entries t i).same_frame ∙ (g.entries t i).same_frame;
      same_flags =
          λ b other. (h.entries t i).same_flags b other ∙ (g.entries t i).same_flags b other;
      keeps_user = λ u. (h.entries t i).keeps_user ((g.entries t i).keeps_user u);
    };
    same_allocator = h.same_allocator ∙ g.same_allocator;
  }

  -- An entry leads to the same table with the bit as without it.
  pub Gains-frame : (e e' : Entry) → Gains e e' → frame e' ≡ frame e
  Gains-frame e e' g =
      let here : contains (flags e') present ≡ contains (flags e) present =
        g.same_flags present (λ c. omega (arith, c)) in
      let huge : contains (flags e') huge_page ≡ contains (flags e) huge_page =
        g.same_flags huge_page (λ c. omega (arith, c)) in
      frame_lem e' ∙ rw (here, huge, g.same_frame) (sym (frame_lem e))

  abbrev pub IsUser : Entry → Type 0
  IsUser e = contains (flags e) user_accessible ≡ true

  marked : Entry → Entry
  marked e = set_flags e (insert (flags e) user_accessible)

  marked-Gains : (e : Entry) → Gains e (marked e)
  unfolding marked
  marked-Gains e =
      let f = insert (flags e) user_accessible in
      record {
        same_frame = points_to-set_flags e f;
        same_flags = λ b other.
            rw (flags-set_flags e f)
              (contains-insert (flags e) user_accessible b ∙ ground (arith, other));
        keeps_user = λ u.
            rw (flags-set_flags e f) (contains-insert (flags e) user_accessible user_accessible);
      }

  marked-IsUser : (e : Entry) → IsUser (marked e)
  unfolding marked
  marked-IsUser e =
      let f = insert (flags e) user_accessible in
      rw (flags-set_flags e f) (contains-insert (flags e) user_accessible user_accessible)

  pub mark_lem :
      (t : PhysFrame) (i : ℕ) (m : Machine p)
      → Grows m (mark p t i m) × IsUser ((mark p t i m).tables t i)
  unfolding marked
  mark_lem t i m = (
    record { entries = entries; same_allocator = refl },
    subst IsUser (sym (store_self p t i (marked (m.tables t i)) m.tables))
        (marked-IsUser (m.tables t i)),
  )
    where
      entries : (g : PhysFrame) (x : ℕ) → Gains (m.tables g x) ((mark p t i m).tables g x)
      entries g x = elim (Bool-cases (p.same_frame t g)) [
        | inl same ↦
            subst (λ g. Gains (m.tables g x) ((mark p t i m).tables g x))
              ((p.same_frame_iff t g).0 same)
              (elim (ℕ_discrete i x) [
                | yes here ↦
                    subst (λ x. Gains (m.tables t x) ((mark p t i m).tables t x)) here
                      (subst (Gains (m.tables t i))
                        (sym (store_self p t i (marked (m.tables t i)) m.tables))
                        (marked-Gains (m.tables t i)))
                | no there ↦
                    subst (Gains (m.tables t x))
                      (sym (store_other p t t i x (marked (m.tables t i)) m.tables there))
                      (Gains-refl (m.tables t x))
              ])
        | inr other ↦ rw other (Gains-refl (m.tables g x))
      ]
