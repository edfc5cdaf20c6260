-- ===== src/Paging/UserAccess.antt =====
-- A range of pages made accessible to user mode: the loop of `set_user_accessible`
-- (kernel/src/memory/paging.rs).
use new_os.Base.{
  ℕ, zero, suc, ◌+◌, ◌*◌, ◌/◌, ◌<◌, ◌≡◌, refl, sym, ◌∙◌, true, some, returned, u64_mod, lt→ltb,
  arith,
}
use mathlib.Core.Path.{subst}
use new_os.Paging.{Platform, Machine, mark, mark_page, mark_pages, set_user_accessible}
use new_os.Paging.Marks.{Grows, Grows-refl, Grows-trans, Gains-frame, IsUser, mark_lem}

module _ (p : Platform) where
  open p use {PhysFrame, frame, is_canonical, p4_index, p3_index, p2_index, p1_index}

  -- The tables that an address leads through.
  pub record Path4 (pml4 : PhysFrame) (v : ℕ) (m : Machine p) : Type 0 where
    pub p3 : PhysFrame
    pub p2 : PhysFrame
    pub p1 : PhysFrame
    pub to_p3 : frame (m.tables pml4 (p4_index v)) ≡ some p3
    pub to_p2 : frame (m.tables p3 (p3_index v)) ≡ some p2
    pub to_p1 : frame (m.tables p2 (p2_index v)) ≡ some p1

  -- The entries of all four levels are accessible to user mode.
  pub record IsOpen (pml4 : PhysFrame) (v : ℕ) (m : Machine p) : Type 0 where
    pub path : Path4 pml4 v m
    pub user4 : IsUser p (m.tables pml4 (p4_index v))
    pub user3 : IsUser p (m.tables path.p3 (p3_index v))
    pub user2 : IsUser p (m.tables path.p2 (p2_index v))
    pub user1 : IsUser p (m.tables path.p1 (p1_index v))

  module _ (m n : Machine p) (g : Grows p m n) where
    frame_Grows : (t : PhysFrame) (i : ℕ) → frame (n.tables t i) ≡ frame (m.tables t i)
    frame_Grows t i = Gains-frame p (m.tables t i) (n.tables t i) (g.entries t i)

    Path4-Grows : (pml4 : PhysFrame) (v : ℕ) → Path4 pml4 v m → Path4 pml4 v n
    Path4-Grows pml4 v w = record {
      p3 = w.p3;
      p2 = w.p2;
      p1 = w.p1;
      to_p3 = frame_Grows pml4 (p4_index v) ∙ w.to_p3;
      to_p2 = frame_Grows w.p3 (p3_index v) ∙ w.to_p2;
      to_p1 = frame_Grows w.p2 (p2_index v) ∙ w.to_p1;
    }

    IsOpen-Grows : (pml4 : PhysFrame) (v : ℕ) → IsOpen pml4 v m → IsOpen pml4 v n
    unfolding Path4-Grows
    IsOpen-Grows pml4 v o = record {
      path = Path4-Grows pml4 v o.path;
      user4 = (g.entries pml4 (p4_index v)).keeps_user o.user4;
      user3 = (g.entries o.path.p3 (p3_index v)).keeps_user o.user3;
      user2 = (g.entries o.path.p2 (p2_index v)).keeps_user o.user2;
      user1 = (g.entries o.path.p1 (p1_index v)).keeps_user o.user1;
    }

  mark_page_lem :
      (pml4 : PhysFrame) (v : ℕ) (m : Machine p)
      → Path4 pml4 v m
      → (m' : Machine p) × (mark_page p pml4 v m ≡ returned m') × Grows p m m' × IsOpen pml4 v m'
  unfolding mark_page Path4-Grows
  mark_page_lem pml4 v m w =
      let m4 = mark p pml4 (p4_index v) m in
      let (g4, u4) = mark_lem p pml4 (p4_index v) m in
      let m3 = mark p w.p3 (p3_index v) m4 in
      let (g3, u3) = mark_lem p w.p3 (p3_index v) m4 in
      let m2 = mark p w.p2 (p2_index v) m3 in
      let (g2, u2) = mark_lem p w.p2 (p2_index v) m3 in
      let m1 = mark p w.p1 (p1_index v) m2 in
      let (g1, u1) = mark_lem p w.p1 (p1_index v) m2 in
      let g43 = Grows-trans p m m4 m3 g4 g3 in
      let g42 = Grows-trans p m m3 m2 g43 g2 in
      let after2 = g1 in
      let after3 = Grows-trans p m3 m2 m1 g2 g1 in
      let after4 = Grows-trans p m4 m3 m1 g3 after3 in
      let all = Grows-trans p m m4 m1 g4 after4 in
      (
        m1,
        rw
            (
              frame_Grows m m4 g4 pml4 (p4_index v) ∙ w.to_p3,
              frame_Grows m m3 g43 w.p3 (p3_index v) ∙ w.to_p2,
              frame_Grows m m2 g42 w.p2 (p2_index v) ∙ w.to_p1,
            )
            refl,
        all,
        record {
          path = Path4-Grows m m1 all pml4 v w;
          user4 = (after4.entries pml4 (p4_index v)).keeps_user u4;
          user3 = (after3.entries w.p3 (p3_index v)).keeps_user u3;
          user2 = (after2.entries w.p2 (p2_index v)).keeps_user u2;
          user1 = u1;
        },
      )

  mark_pages_lem :
      (pml4 : PhysFrame) (n v : ℕ) (m : Machine p)
      → ((j : ℕ) → j < n → (is_canonical (v + 4096 * j) ≡ true) × Path4 pml4 (v + 4096 * j) m)
      → (m' : Machine p) × (mark_pages p pml4 n v m ≡ returned m')
        × Grows p m m'
        × ((j : ℕ) → j < n → IsOpen pml4 (v + 4096 * j) m')
  unfolding mark_pages
  mark_pages_lem pml4 zero v m ready =
      (m, refl, Grows-refl p m, λ j below. absurd (omega (arith, below)))
  mark_pages_lem pml4 (suc n) v m ready =
      let first : v + 4096 * 0 ≡ v = omega arith in
      let (canonical, path) =
        subst (λ v. (is_canonical v ≡ true) × Path4 pml4 v m) first (ready 0 (omega arith)) in
      let (m', ran, g, open_v) = mark_page_lem pml4 v m path in
      let shift = λ (j : ℕ). let e : v + 4096 * suc j ≡ v + 4096 + 4096 * j = omega arith in e in
      let (o, done, later, opened) = mark_pages_lem pml4 n (v + 4096) m' (λ j below.
        let (c, w) =
          subst (λ v. (is_canonical v ≡ true) × Path4 pml4 v m) (shift j)
            (ready (suc j) (omega (arith, below))) in
        (c, Path4-Grows m m' g pml4 (v + 4096 + 4096 * j) w)) in
      (
        o,
        rw (canonical, ran) done,
        Grows-trans p m m' o g later,
        opened_all n v o pml4
            (subst (λ v. IsOpen pml4 v o) (sym first) (IsOpen-Grows m' o later pml4 v open_v))
            opened,
      )
    where
      opened_all :
          (n v : ℕ) (o : Machine p) (pml4 : PhysFrame)
          → IsOpen pml4 (v + 4096 * 0) o
          → ((j : ℕ) → j < n → IsOpen pml4 (v + 4096 + 4096 * j) o)
          → (j : ℕ) → j < suc n
          → IsOpen pml4 (v + 4096 * j) o
      opened_all n v o pml4 here rest zero below = here
      opened_all n v o pml4 here rest (suc j) below =
          let e : v + 4096 + 4096 * j ≡ v + 4096 * suc j = omega arith in
          subst (λ v. IsOpen pml4 v o) e (rest j (omega (arith, below)))

  -- On a range that does not pass the end of the address space, of which each address that the loop
  -- visits, every 4096th from the start on, is canonical and mapped by a page of 4 KiB,
  -- `set_user_accessible` returns. Then each visited address lies behind four entries that are all
  -- accessible to user mode, every entry of every table keeps its frame and its other flags, and no
  -- entry loses the access.
  pub set_user_accessible_lem :
      (pml4 : PhysFrame) (start size : ℕ) (m : Machine p)
      → start + size < u64_mod
      → ((j : ℕ)
          → 4096 * j < size
          → (is_canonical (start + 4096 * j) ≡ true) × Path4 pml4 (start + 4096 * j) m)
      → (m' : Machine p) × (set_user_accessible p pml4 start size m ≡ returned m')
        × Grows p m m'
        × ((j : ℕ) → 4096 * j < size → IsOpen pml4 (start + 4096 * j) m')
  unfolding set_user_accessible
  set_user_accessible_lem pml4 start size m fits ready =
      let (m', ran, g, opened) =
        mark_pages_lem pml4 ((size + 4095) / 4096) start m
          (λ j below. ready j (omega (arith, below))) in
      (
        m',
        rw (lt→ltb (start + size) u64_mod fits) ran,
        g,
        λ j below. opened j (omega (arith, below)),
      )
