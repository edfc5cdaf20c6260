-- ===== src/Process/Regions.antt =====
-- The mapping of a region of user addresses: `map_user_region` (kernel/src/process.rs).
use new_os.Base.{
  ℕ, zero, suc, ◌+◌, ◌-◌, ◌*◌, ◌/◌, ◌^◌, ◌≤◌, ◌<◌, ◌≡◌, refl, sym, ap, ◌∙◌, ◌⊎◌, inl, inr, true,
  none, some, returned, Option-cases, arith,
}
use mathlib.Core.Path.{subst}
use native.Mathlib.Decide.{dec_lt}
use new_os.Paging.{Platform, Tables, Machine, mark}
use new_os.Paging.Entries.{Gives, new_table_lem}
use new_os.Process.{Mapper, user_pages, map_new, map_pages, map_user_region, user_flags, page_count}
use new_os.Process.Mapping.{page_at, IsApart, Maps, mapped-IsApart, mapped-Maps}

-- A region of the user half that is not empty.
pub record IsRegion (p : Platform) (start size : ℕ) : Type 0 where
  pub not_empty : 0 < size
  pub user : start + size ≤ 4096 * user_pages
  pub end_canonical : Platform.is_canonical p (start + size) ≡ true
  pub last_canonical : Platform.is_canonical p (start + size - 1) ≡ true

abbrev pub region_pages : ℕ → ℕ → ℕ
region_pages start size = page_count start (start + size - 1)

module _ (p : Platform) (x : Mapper p) (s : Platform.PhysFrame p) where
  open p use {PhysFrame, Flags, Used, is_canonical, p4_index}
  open x use {translate_addr, address, map_to}

  map_new_lem :
      (k : ℕ) (flags : Flags) (page : ℕ) (m : Machine p)
      → IsApart p x s m
      → page < user_pages
      → page_at p x s page m ≡ none
      → Gives p (4 + k) m.allocator
      → (m' : Machine p) × (map_new p x s flags page m ≡ returned m')
        × IsApart p x s m'
        × Maps p x s page 1 m m'
        × Gives p k m'.allocator
  unfolding map_new
  map_new_lem k flags page m v low free gives =
      let (f, n, made, fresh, left) =
        new_table_lem p (3 + k) m (subst (λ c. Gives p c m.allocator) (omega arith) gives) in
      let still : page_at p x s page n ≡ none =
        ap (λ (t : Tables p). translate_addr s (4096 * page) t) fresh.unchanged ∙ free in
      let sound = x.sound_fresh s f m n fresh v.sound in
      let (o, done, rest) = x.map_to_succeeds k s f page flags n sound low still left in
      let (sound', here, others, kept) = x.map_to_maps s f page flags n o sound low done in
      (
        o,
        rw (made, done) refl,
        mapped-IsApart p x s m n o f page fresh here sound' others kept v,
        mapped-Maps p x s m n o f page fresh here sound' others kept free,
        rest,
      )

  Maps-none : (page : ℕ) (m : Machine p) → Maps p x s page 0 m m
  Maps-none page m = record {
    mapped = λ q low high. absurd (omega (arith, low, high));
    older = λ q a low there. there;
    outside = λ q low out. refl;
    kept = λ g used. used;
  }

  Maps-already :
      (page a : ℕ) (m : Machine p) → page_at p x s page m ≡ some a → Maps p x s page 1 m m
  Maps-already page a m there = record {
    mapped = λ q low high.
        let same : page ≡ q = omega (arith, low, high) in
        (a, subst (λ q. page_at p x s q m ≡ some a) same there);
    older = λ q a low there. there;
    outside = λ q low out. refl;
    kept = λ g used. used;
  }

  Maps-append :
      (page n : ℕ) (m m' o : Machine p)
      → page + suc n ≤ user_pages
      → Maps p x s page 1 m m'
      → Maps p x s (page + 1) n m' o
      → Maps p x s page (suc n) m o
  Maps-append page n m m' o user f g = record {
    mapped = mapped;
    older = λ q a low there. g.older q a low (f.older q a low there);
    outside = λ q low out. g.outside q low (after q out) ∙ f.outside q low (before q out);
    kept = λ t used. g.kept t (f.kept t used);
  }
    where
      mapped : (q : ℕ) → page ≤ q → q < page + suc n → (a : ℕ) × (page_at p x s q o ≡ some a)
      mapped q low high = elim (dec_lt page q) [
        | yes later ↦ g.mapped q (omega (arith, later)) (omega (arith, high))
        | no here ↦
            let (a, there) = f.mapped q low (ground (arith, here)) in
            (a, g.older q a (omega (arith, high, user)) there)
      ]

      after : (q : ℕ) → (q < page) ⊎ (page + suc n ≤ q) → (q < page + 1) ⊎ (page + 1 + n ≤ q)
      after q (inl low) = inl (omega (arith, low))
      after q (inr high) = inr (omega (arith, high))

      before : (q : ℕ) → (q < page) ⊎ (page + suc n ≤ q) → (q < page) ⊎ (page + 1 ≤ q)
      before q (inl low) = inl low
      before q (inr high) = inr (omega (arith, high))

  drop_one : (n : ℕ) (a : Platform.Allocator p) → Gives p (suc n) a → Gives p n a
  unfolding Gives
  drop_one zero a h = tt
  drop_one (suc n) a (t, b, e, h) = (t, b, e, drop_one n b h)

  weaken_gives : (n k : ℕ) (a : Platform.Allocator p) → Gives p (n + k) a → Gives p k a
  weaken_gives zero k a h = subst (λ c. Gives p c a) (omega arith) h
  weaken_gives (suc n) k a h =
      weaken_gives n k a (drop_one (n + k) a (subst (λ c. Gives p c a) (omega arith) h))

  pub map_pages_lem :
      (k n page : ℕ) (flags : Flags) (m : Machine p)
      → page + n ≤ user_pages
      → IsApart p x s m
      → Gives p (4 * n + k) m.allocator
      → (m' : Machine p) × (map_pages p x s flags n page m ≡ returned m')
        × IsApart p x s m'
        × Maps p x s page n m m'
        × Gives p k m'.allocator
  unfolding map_pages
  map_pages_lem k zero page flags m user v gives =
      (m, refl, v, Maps-none page m, subst (λ c. Gives p c m.allocator) (omega arith) gives)
  map_pages_lem k (suc n) page flags m user v gives = elim (Option-cases (page_at p x s page m)) [
    | inl free ↦
        let (m', ran, v', first, left) =
          map_new_lem (4 * n + k) flags page m v (omega (arith, user)) free
            (subst (λ c. Gives p c m.allocator) (omega arith) gives) in
        let (o, done, v'', rest, end) =
          map_pages_lem k n (page + 1) flags m' (omega (arith, user)) v' left in
        (o, rw (free, ran) done, v'', Maps-append page n m m' o user first rest, end)
    | inr (a, there) ↦
        let (o, done, v'', rest, end) =
          map_pages_lem k n (page + 1) flags m (omega (arith, user)) v (
            weaken_gives 4 (4 * n + k) m.allocator
              (subst (λ c. Gives p c m.allocator) (omega arith) gives)) in
        (
          o,
          rw there done,
          v'',
          Maps-append page n m m o user (Maps-already page a m there) rest,
          end,
        )
  ]

  module _ (m : Machine p) (v : ℕ) (low_v : v < 2 ^ 47) (apart : IsApart p x s m) where
    marked : Machine p
    marked = mark p s (p4_index v) m

    -- The bit of user mode moves no page.
    same_page : (q : ℕ) → q < user_pages → page_at p x s q marked ≡ page_at p x s q m
    unfolding marked
    same_page q low = (x.mark_lem s v m apart.sound low_v).1 (4096 * q) (omega (arith, low))

    mark-IsApart : IsApart p x s marked
    unfolding marked
    mark-IsApart = record {
      sound = (x.mark_lem s v m apart.sound low_v).0;
      lands = λ q a low there. apart.lands q a low (sym (same_page q low) ∙ there);
      apart = λ q r a low_q low_r at_q at_r.
          apart.apart q r a low_q low_r (sym (same_page q low_q) ∙ at_q)
            (sym (same_page r low_r) ∙ at_r);
    }

    mark-Maps :
        (first n : ℕ) (l : Machine p)
        → first + n ≤ user_pages
        → Maps p x s first n l m
        → Maps p x s first n l marked
    unfolding marked
    mark-Maps first n l user h = record {
      mapped = λ q low high.
          let (a, there) = h.mapped q low high in
          (a, same_page q (omega (arith, high, user)) ∙ there);
      older = λ q a low there. same_page q low ∙ h.older q a low there;
      outside = λ q low out. same_page q low ∙ h.outside q low out;
      kept = h.kept;
    }

  -- With four frames left for each page of the region, `map_user_region` returns; then every page
  -- that the region touches is mapped, each user page that was mapped before lies on its frame as before,
  -- user pages outside the region are as they were, and no two user pages lie on the same frame if none
  -- did before.
  pub map_user_region_lem :
      (k start size : ℕ) (extra : Flags) (m : Machine p)
      → IsRegion p start size
      → IsApart p x s m
      → Gives p (4 * region_pages start size + k) m.allocator
      → (m' : Machine p) × (map_user_region p x s start size extra m ≡ returned m')
        × IsApart p x s m'
        × Maps p x s (start / 4096) (region_pages start size) m m'
        × Gives p k m'.allocator
  unfolding map_user_region marked
  map_user_region_lem k start size extra m r v gives =
      let positive = r.not_empty in
      let user = r.user in
      let ends = x.virt_add_lem start size r.end_canonical (omega (arith, user)) in
      let last = x.virt_sub_lem (start + size) 1 (omega (arith, positive)) r.last_canonical in
      let pages : start / 4096 + region_pages start size ≤ user_pages =
        omega (arith, user, positive) in
      let low : start < 2 ^ 47 = omega (arith, user, positive) in
      let (n, ran, v', maps, rest) =
        map_pages_lem k (region_pages start size) (start / 4096) (user_flags p x extra) m pages v
          gives in
      (
        mark p s (p4_index start) n,
        rw (ends, last, ran) refl,
        mark-IsApart n start low v',
        mark-Maps n start low v' (start / 4096) (region_pages start size) m pages maps,
        rest,
      )
