-- ===== src/Process/Chunks.antt =====
-- The places of a region in physical memory, and bytes laid there (the two loops of
-- `new_from_elf`, kernel/src/process.rs).
use new_os.Base.{
  ℕ, zero, suc, ◌+◌, ◌*◌, ◌/◌, ◌%◌, ◌≤◌, ◌<◌, ◌≡◌, refl, ap, ◌⊎◌, inl, inr, true, some, List, [],
  ◌∷◌, length, get_elem?, u64_mod, arith,
}
use mathlib.Core.Path.{subst}
use new_os.Paging.{Platform, Machine}
use new_os.Process.{Mapper, lay}
use new_os.Process.Mapping.{page_at}

pub lay_outside :
    (d : ℕ) (part : List ℕ) (bytes : ℕ → ℕ) (a : ℕ)
    → (a < d) ⊎ (d + length part ≤ a)
    → lay d part bytes a ≡ bytes a
unfolding lay
lay_outside d [] bytes a out = refl
lay_outside d (b ∷ part) bytes a (inl low) =
    ground (arith, lay_outside (d + 1) part bytes a (inl (omega (arith, low))))
lay_outside d (b ∷ part) bytes a (inr high) =
    ground (arith, lay_outside (d + 1) part bytes a (inr (omega (arith, high))))

pub lay_inside :
    (d i b : ℕ) (part : List ℕ) (bytes : ℕ → ℕ)
    → get_elem? part i ≡ some b
    → lay d part bytes (d + i) ≡ b
unfolding lay
lay_inside d i b [] bytes h = ground arith
lay_inside d zero b (c ∷ part) bytes h = ground arith
lay_inside d (suc i) b (c ∷ part) bytes h =
    let e : d + suc i ≡ d + 1 + i = omega arith in
    rw e (ground (arith, lay_inside (d + 1) i b part bytes h))

-- The physical address of a virtual one.
abbrev pub place : (ℕ → ℕ) → ℕ → ℕ
place base v = base (v / 4096) + v % 4096

module _ (p : Platform) (x : Mapper p) where
  -- A region of a space, whose pages lie at `base`, no two at the same place.
  pub record IsLaid (s : Platform.PhysFrame p) (start size : ℕ) (base : ℕ → ℕ) (m : Machine p)
      : Type 0 where
    pub fits : start + size < u64_mod
    pub canonical : (o : ℕ) → o < size → Platform.is_canonical p (start + o) ≡ true
    pub mapped :
        (o : ℕ) → o < size → page_at p x s ((start + o) / 4096) m ≡ some (base ((start + o) / 4096))
    pub aligned : (o : ℕ) → o < size → base ((start + o) / 4096) % 4096 ≡ 0
    pub apart :
        (o u : ℕ)
        → o < size
        → u < size
        → base ((start + o) / 4096) ≡ base ((start + u) / 4096)
        → (start + o) / 4096 ≡ (start + u) / 4096

  module _ (s : Platform.PhysFrame p) (start size : ℕ) (base : ℕ → ℕ) (m : Machine p)
      (laid : IsLaid s start size base m) where
    pub translate_place :
        (o : ℕ) → o < size → x.translate_addr s (start + o) m.tables ≡ some (place base (start + o))
    translate_place o inside =
        let v = start + o in
        let split : 4096 * (v / 4096) + v % 4096 ≡ v = omega arith in
        subst (λ w. x.translate_addr s w m.tables ≡ some (place base v)) split
          (x.translate_offset s (v / 4096) (v % 4096) (base (v / 4096)) m.tables
            (laid.mapped o inside) (omega arith))

    pub place_injective :
        (o u : ℕ) → o < size → u < size → place base (start + o) ≡ place base (start + u) → o ≡ u
    place_injective o u in_o in_u same =
        let a = laid.aligned o in_o in
        let b = laid.aligned u in_u in
        let bases : base ((start + o) / 4096) ≡ base ((start + u) / 4096) =
          omega (arith, a, b, same) in
        let pages = laid.apart o u in_o in_u bases in omega (arith, pages, bases, same)

    -- Within a page addresses are consecutive.
    pub place_add :
        (o i : ℕ)
        → (start + o) % 4096 + i < 4096
        → place base (start + (o + i)) ≡ place base (start + o) + i
    place_add o i short =
        let same : (start + (o + i)) / 4096 ≡ (start + o) / 4096 = omega (arith, short) in
        let rest : (start + (o + i)) % 4096 ≡ (start + o) % 4096 + i = omega (arith, short) in
        omega (arith, ap base same, rest)
