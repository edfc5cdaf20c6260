-- ===== src/Process/Mapping.antt =====
-- Pages mapped on new frames (`map_user_region` of kernel/src/process.rs).
use new_os.Base.{
  ℕ, ◌+◌, ◌*◌, ◌≤◌, ◌<◌, ◌≡◌, ◌≢◌, sym, ap, ◌∙◌, ◌⊎◌, inl, inr, Option, none, some, arith,
}
use mathlib.Core.Path.{subst}
use native.Mathlib.Decide.{ℕ_discrete}
use new_os.Paging.{Platform, Tables, Machine}
use new_os.Paging.Entries.{Fresh}
use new_os.Process.{Mapper, user_pages}

module _ (p : Platform) (x : Mapper p) (s : Platform.PhysFrame p) where
  open p use {PhysFrame, Flags, Used, is_canonical, p4_index}
  open x use {translate_addr, address, map_to}

  abbrev pub page_at : ℕ → Machine p → Option ℕ
  page_at q m = translate_addr s (4096 * q) m.tables

  -- The space is sound; the user pages that are mapped lie on frames in use, no two on the same.
  pub record IsApart (m : Machine p) : Type 0 where
    pub sound : x.Sound s m
    pub lands :
        (q a : ℕ)
        → q < user_pages
        → page_at q m ≡ some a
        → (f : PhysFrame) × (a ≡ address f) × Used m.allocator f
    pub apart :
        (q r a : ℕ)
        → q < user_pages
        → r < user_pages
        → page_at q m ≡ some a
        → page_at r m ≡ some a
        → q ≡ r

  -- `n` pages from `first` on are mapped, and every user page that was mapped lies where it lay.
  pub record Maps (first n : ℕ) (m m' : Machine p) : Type 0 where
    pub mapped : (q : ℕ) → first ≤ q → q < first + n → (a : ℕ) × (page_at q m' ≡ some a)
    pub older : (q a : ℕ) → q < user_pages → page_at q m ≡ some a → page_at q m' ≡ some a
    pub outside :
        (q : ℕ) → q < user_pages → (q < first) ⊎ (first + n ≤ q) → page_at q m' ≡ page_at q m
    pub kept : (g : PhysFrame) → Used m.allocator g → Used m'.allocator g

  -- A page mapped on a new frame.
  module _ (m m' n : Machine p) (f : PhysFrame) (page : ℕ) (fresh : Fresh p m m' f)
      (here : page_at page n ≡ some (address f)) (sound : x.Sound s n)
      (others : (q : ℕ) → q < user_pages → q ≢ page → page_at q n ≡ page_at q m')
      (kept : (g : PhysFrame) → Used m'.allocator g → Used n.allocator g) where
    elsewhere : (q : ℕ) → q < user_pages → q ≢ page → page_at q n ≡ page_at q m
    elsewhere q low other =
        others q low other ∙ ap (λ (t : Tables p). translate_addr s (4096 * q) t) fresh.unchanged

    not_new : (q : ℕ) → IsApart m → q < user_pages → q ≢ page → page_at q n ≡ some (address f) → ⊥
    not_new q v low other there =
        let (g, same, used) = v.lands q (address f) low (sym (elsewhere q low other) ∙ there) in
        fresh.was_free (subst (Used m.allocator) (sym (x.address_injective f g same)) used)

    pub mapped-IsApart : IsApart m → IsApart n
    mapped-IsApart v = record { sound = sound; lands = lands; apart = apart }
      where
        lands :
            (q a : ℕ)
            → q < user_pages
            → page_at q n ≡ some a
            → (f : PhysFrame) × (a ≡ address f) × Used n.allocator f
        lands q a low there = elim (ℕ_discrete q page) [
          | yes same ↦
              let at_q : page_at q n ≡ some (address f) = rw same here in
              (
                f,
                (let e : some a ≡ some (address f) = sym there ∙ at_q in cc),
                kept f fresh.is_taken,
              )
          | no other ↦
              let (g, same, used) = v.lands q a low (sym (elsewhere q low other) ∙ there) in
              (g, same, kept g (fresh.kept g used))
        ]

        apart :
            (q r a : ℕ)
            → q < user_pages
            → r < user_pages
            → page_at q n ≡ some a
            → page_at r n ≡ some a
            → q ≡ r
        apart q r a low_q low_r at_q at_r = elim (ℕ_discrete q page) [
          | yes same_q ↦ elim (ℕ_discrete r page) [
            | yes same_r ↦ same_q ∙ sym same_r
            | no other_r ↦
                let q_new : page_at q n ≡ some (address f) = rw same_q here in
                absurd (not_new r v low_r other_r (at_r ∙ sym at_q ∙ q_new))
          ]
          | no other_q ↦ elim (ℕ_discrete r page) [
            | yes same_r ↦
                let r_new : page_at r n ≡ some (address f) = rw same_r here in
                absurd (not_new q v low_q other_q (at_q ∙ sym at_r ∙ r_new))
            | no other_r ↦
                v.apart q r a low_q low_r (sym (elsewhere q low_q other_q) ∙ at_q)
                  (sym (elsewhere r low_r other_r) ∙ at_r)
          ]
        ]

    pub mapped-Maps : page_at page m ≡ none → Maps page 1 m n
    mapped-Maps was = record {
      mapped = λ q low high.
          let same : page ≡ q = omega (arith, low, high) in
          (address f, subst (λ q. page_at q n ≡ some (address f)) same here);
      older = λ q a low there.
          elsewhere q low (λ e.
            let at_page : page_at page m ≡ some a = subst (λ q. page_at q m ≡ some a) e there in cc)
          ∙ there;
      outside = λ q low out. elsewhere q low (λ e. beside q e out);
      kept = λ g used. kept g (fresh.kept g used);
    }
      where
        beside : (q : ℕ) → q ≡ page → (q < page) ⊎ (page + 1 ≤ q) → ⊥
        beside q e (inl low) = omega (arith, e, low)
        beside q e (inr high) = omega (arith, e, high)
