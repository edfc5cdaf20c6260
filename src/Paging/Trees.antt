-- ===== src/Paging/Trees.antt =====
-- The tree of tables below an entry, as the walk of an address through it sees it
-- (kernel/src/memory/paging.rs).
use new_os.Base.{
  ℕ, zero, suc, ◌+◌, ◌≤◌, ◌<◌, ◌≡◌, refl, ap, false, Option, none, some, List, [], ◌∷◌,
  if◌then◌else◌, All, Bool-cases, inl, inr, arith,
}
use new_os.Paging.{Platform, Tables}

-- The sum of `f` over `n` indices from `i` on.
unfoldable pub sum_from : (ℕ → ℕ) → ℕ → ℕ → ℕ
sum_from f zero i = 0
sum_from f (suc n) i = f i + sum_from f n (i + 1)

pub sum_from-eq :
    (f g : ℕ → ℕ) (n i : ℕ)
    → ((x : ℕ) → i ≤ x → x < i + n → f x ≡ g x)
    → sum_from f n i ≡ sum_from g n i
unfolding sum_from
sum_from-eq f g zero i same = refl
sum_from-eq f g (suc n) i same = omega (
  arith,
  same i (omega arith) (omega arith),
  sum_from-eq f g n (i + 1) (λ (x : ℕ) (low : i + 1 ≤ x) (h : x < i + 1 + n).
      same x (omega (arith, low)) (omega (arith, h))),
)

module _ (p : Platform) where
  open p use {Entry, PhysFrame, is_unused, frame}

  -- The indices of an address, one for each level.
  abbrev pub Indices : List ℕ → Type 0
  Indices path = All (λ (i : ℕ). i < 512) path

  abbrev pub unless_unused {ℓ} : {A : Type ℓ} → Entry → Option A → Option A
  unless_unused e found = if is_unused e then none else found

  -- The entry of the last level that a path of indices leads to, from an entry `level` levels
  -- above it.
  unfoldable pub walk : ℕ → Entry → List ℕ → Tables p → Option Entry
  walk zero e path m = some e
  walk (suc level) e [] m = none
  walk (suc level) e (i ∷ path) m = elim (frame e) [
    | none ↦ none
    | some t ↦ unless_unused (m t i) (walk level (m t i) path m)
  ]

  -- Each entry in use above the last level leads to a table, and each such table has the property.
  unfoldable pub Below : (PhysFrame → Type 0) → ℕ → Entry → Tables p → Type 0
  Below P zero e m = Unit
  Below P (suc level) e m =
      (t : PhysFrame) × (frame e ≡ some t)
      × P t
      × ((i : ℕ) → i < 512 → is_unused (m t i) ≡ false → Below P level (m t i) m)

  -- The number of tables below an entry.
  unfoldable pub table_count : ℕ → Entry → Tables p → ℕ
  unfolding sum_from
  table_count zero e m = 0
  table_count (suc level) e m = elim (frame e) [
    | none ↦ 0
    | some t ↦
        suc (sum_from (λ i. if is_unused (m t i) then 0 else table_count level (m t i) m) 512 0)
  ]

  abbrev pub cost : ℕ → Entry → Tables p → ℕ
  cost level e m = if is_unused e then 0 else table_count level e m

  pub walk_step :
      (level : ℕ) (e : Entry) (t : PhysFrame) (i : ℕ) (path : List ℕ) (m : Tables p)
      → frame e ≡ some t
      → walk (suc level) e (i ∷ path) m ≡ unless_unused (m t i) (walk level (m t i) path m)
  unfolding walk
  walk_step level e t i path m points = rw (points, walk) refl

  pub table_count_step :
      (level : ℕ) (e : Entry) (t : PhysFrame) (m : Tables p)
      → frame e ≡ some t
      → table_count (suc level) e m ≡ suc (sum_from (λ i. cost level (m t i) m) 512 0)
  unfolding table_count
  table_count_step level e t m points = rw (points, table_count) refl

  pub Below-weaken :
      {P Q : PhysFrame → Type 0}
      → ((t : PhysFrame) → P t → Q t)
      → (level : ℕ) (e : Entry) (m : Tables p) → Below P level e m
      → Below Q level e m
  unfolding Below
  Below-weaken f zero e m h = tt
  Below-weaken f (suc level) e m (t, points, here, below) =
      (t, points, f t here, λ i bound used. Below-weaken f level (m t i) m (below i bound used))

  module _ {P : PhysFrame → Type 0} (m n : Tables p)
      (agree : (t : PhysFrame) → P t → (i : ℕ) → i < 512 → n t i ≡ m t i) where
    pub Below-agree : (level : ℕ) (e : Entry) → Below P level e m → Below P level e n
    unfolding Below
    Below-agree zero e h = tt
    Below-agree (suc level) e (t, points, here, below) = (
      t,
      points,
      here,
      λ i bound used.
          let same = agree t here i bound in
          rw same (Below-agree level (m t i) (below i bound (rw same at used))),
    )

    pub walk-agree :
        (level : ℕ) (e : Entry) (path : List ℕ)
        → Below P level e m
        → Indices path
        → walk level e path n ≡ walk level e path m
    unfolding walk Below
    walk-agree zero e path h valid = refl
    walk-agree (suc level) e [] h valid = refl
    walk-agree (suc level) e (i ∷ path) (t, points, here, below) (bound, valid) =
        let same = agree t here i bound in
        rw (walk_step level e t i path n points, walk_step level e t i path m points, same)
          (elim (Bool-cases (is_unused (m t i))) [
            | inl free ↦ rw free refl
            | inr used ↦ rw used (walk-agree level (m t i) path (below i bound used) valid)
          ])

    pub table_count-agree :
        (level : ℕ) (e : Entry) → Below P level e m → table_count level e n ≡ table_count level e m
    unfolding table_count Below
    table_count-agree zero e h = refl
    table_count-agree (suc level) e (t, points, here, below) =
        rw (table_count_step level e t n points, table_count_step level e t m points)
          (ap suc (
            sum_from-eq (λ i. cost level (n t i) n) (λ i. cost level (m t i) m) 512 0
              (λ (i : ℕ) (low : 0 ≤ i) (h : i < 0 + 512).
                let same = agree t here i (omega (arith, h)) in
                elim (Bool-cases (is_unused (m t i))) [
                  | inl free ↦ rw (same, free) refl
                  | inr used ↦
                      rw (same, used)
                        (table_count-agree level (m t i) (below i (omega (arith, h)) used))
                ])))
