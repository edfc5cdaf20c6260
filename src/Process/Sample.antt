-- ===== src/Process/Sample.antt =====
-- A concrete mapper on the concrete platform of Paging.Sample, on which the code of
-- kernel/src/process.rs runs: each entry of a root holds the pages behind it.
use new_os.Base.{
  ℕ, ◌+◌, ◌-◌, ◌*◌, ◌/◌, ◌%◌, ◌^◌, ◌<◌, ◌≡◌, ◌≢◌, refl, ap, inl, inr, true, false, ◌&&◌, Option,
  none, some, ◌==◌, if◌then◌else◌, ==_self, Bool-cases, returned, arith,
}
use mathlib.Core.Path.{subst}
use new_os.Paging.{Machine, Tables, put, mark}
use new_os.Paging.Sample.{
  sample, SampleEntry, free, entry, no_flags, entry_flags, entry_target, entry_pages, entry_free,
  Gives-sample,
}
use new_os.Process.{Mapper, user_pages}

abbrev pub place_in : Option ℕ → ℕ → Option ℕ
place_in none o = none
place_in (some f) o = some (4096 * f + o)

abbrev pub sample_translate : ℕ → ℕ → Tables sample → Option ℕ
sample_translate s v m = place_in (entry_pages (m s (v / 2 ^ 39 % 512)) (v / 4096)) (v % 4096)

pub sample_offset :
    (s page o a : ℕ) (m : Tables sample)
    → sample_translate s (4096 * page) m ≡ some a
    → o < 4096
    → sample_translate s (4096 * page + o) m ≡ some (a + o)
sample_offset s page o a m there small =
    let root : (4096 * page + o) / 2 ^ 39 % 512 ≡ 4096 * page / 2 ^ 39 % 512 =
      omega (arith, small) in
    let number : (4096 * page + o) / 4096 ≡ 4096 * page / 4096 = omega (arith, small) in
    let rest : (4096 * page + o) % 4096 ≡ o = omega (arith, small) in
    let none_over : 4096 * page % 4096 ≡ 0 = omega arith in rw (root, number, rest) (ground arith)

pub free_pages : (e : SampleEntry) (q : ℕ) → entry_free e ≡ true → entry_pages e q ≡ none
free_pages free q h = refl
free_pages (entry f t pages) q h = absurd (cc)

pub sample_empty :
    (s v : ℕ) (m : Tables sample)
    → ((i : ℕ) → i < 256 → entry_free (m s i) ≡ true)
    → v < 2 ^ 47
    → sample_translate s v m ≡ none
sample_empty s v m all_free low =
    rw
      (free_pages (m s (v / 2 ^ 39 % 512)) (v / 4096)
        (all_free (v / 2 ^ 39 % 512) (omega (arith, low))))
      refl

pub mark_pages_same :
    (s i t j : ℕ) (m : Machine sample)
    → entry_pages ((mark sample s i m).tables t j) ≡ entry_pages (m.tables t j)
mark_pages_same s i t j m = elim (Bool-cases (s == t && i == j)) [
  | inl same ↦
      let frame : s ≡ t = ground (arith, same) in
      let index : i ≡ j = ground (arith, same) in rw (same, frame, index) refl
  | inr other ↦ rw other refl
]

pub marked_same :
    (s v : ℕ) (m : Machine sample) (w : ℕ)
    → sample_translate s w (mark sample s (v / 2 ^ 39 % 512) m).tables
      ≡ sample_translate s w m.tables
marked_same s v m w =
    ap (λ (pages : ℕ → Option ℕ). place_in (pages (w / 4096)) (w % 4096))
      (mark_pages_same s (v / 2 ^ 39 % 512) s (w / 2 ^ 39 % 512) m)

-- The root's entry with one more page behind it.
abbrev pub with_page : ℕ → ℕ → SampleEntry → SampleEntry
with_page page f e =
    entry (entry_flags e) (entry_target e) (λ q. if q == page then some f else entry_pages e q)

abbrev pub root_index : ℕ → ℕ
root_index page = 4096 * page / 2 ^ 39 % 512

abbrev pub map_page : ℕ → ℕ → ℕ → Machine sample → Machine sample
map_page s page f m =
    put sample s (root_index page) (with_page page f (m.tables s (root_index page))) m

pub map_page_here :
    (s page f : ℕ) (m : Machine sample)
    → sample_translate s (4096 * page) (map_page s page f m).tables ≡ some (4096 * f)
map_page_here s page f m =
    let number : 4096 * page / 4096 ≡ page = omega arith in
    let rest : 4096 * page % 4096 ≡ 0 = omega arith in
    let sum : 4096 * f + 0 ≡ 4096 * f = omega arith in
    rw (==_self s, ==_self (root_index page), number, ==_self page, rest, sum) refl

pub map_page_others :
    (s page f q : ℕ) (m : Machine sample)
    → q ≢ page
    → sample_translate s (4096 * q) (map_page s page f m).tables
      ≡ sample_translate s (4096 * q) m.tables
map_page_others s page f q m other =
    let number : 4096 * q / 4096 ≡ q = omega arith in
    let apart : (q == page) ≡ false = ground (arith, other) in
    elim (Bool-cases (s == s && root_index page == root_index q)) [
      | inl same ↦
          let index : root_index page ≡ root_index q = ground (arith, same) in
          rw (same, number, apart, index) refl
      | inr elsewhere ↦ rw elsewhere refl
    ]

pub map_page_result :
    (s page f : ℕ) (m m' : Machine sample)
    → ◌≡◌ {A = Option (Machine sample)} (some (map_page s page f m)) (some m')
    → Unit {0}
      × (sample_translate s (4096 * page) m'.tables ≡ some (4096 * f))
      × ((q : ℕ)
          → q < user_pages
          → q ≢ page
          → sample_translate s (4096 * q) m'.tables ≡ sample_translate s (4096 * q) m.tables)
      × ((g : ℕ) → g < m.allocator → g < m'.allocator)
map_page_result s page f m m' h =
    let same : map_page s page f m ≡ m' = cc in
    subst
      (λ (n : Machine sample).
        Unit {0}
        × (sample_translate s (4096 * page) n.tables ≡ some (4096 * f))
        × ((q : ℕ)
            → q < user_pages
            → q ≢ page
            → sample_translate s (4096 * q) n.tables ≡ sample_translate s (4096 * q) m.tables)
        × ((g : ℕ) → g < m.allocator → g < n.allocator))
      same
      (
        tt,
        map_page_here s page f m,
        λ q low other. map_page_others s page f q m other,
        λ g low. low,
      )

pub aligned_lem : (f : ℕ) → 4096 * f % 4096 ≡ 0
aligned_lem f = omega arith

pub injective_lem : (f g : ℕ) → 4096 * f ≡ 4096 * g → f ≡ g
injective_lem f g h = omega (arith, h)

abbrev pub sample_mapper : Mapper sample
sample_mapper = record {
  virt_add = λ v n. returned (v + n);
  virt_add_lem = λ v n canonical fits. refl;
  virt_sub = λ v n. returned (v - n);
  virt_sub_lem = λ v n le canonical. refl;
  empty_flags = no_flags;
  address = λ f. 4096 * f;
  address_aligned = aligned_lem;
  address_injective = injective_lem;
  translate_addr = sample_translate;
  translate_offset = sample_offset;
  translate_empty = sample_empty;
  Sound = λ s m. Unit {0};
  sound_empty = λ s m empty. tt;
  sound_fresh = λ s f m m' fresh sound. tt;
  mark_lem = λ s v m sound low. (tt, λ w low_w. marked_same s v m w);
  map_to = λ s page f flags m. some (map_page s page f m);
  map_to_succeeds = λ k s f page flags m sound low free gives.
      (map_page s page f m, refl, Gives-sample k m.allocator);
  map_to_maps = λ s f page flags m m' sound low done. map_page_result s page f m m' done;
}
