-- ===== src/Paging/Sample.antt =====
-- A concrete platform, on which the code of kernel/src/memory/paging.rs runs: an entry holds its
-- flags, the number of its frame, and the pages behind it; the allocator counts frames upwards.
use new_os.Base.{
  ℕ, zero, suc, ◌+◌, ◌/◌, ◌%◌, ◌^◌, ◌<◌, ◌≡◌, refl, ap, Bool, true, false, Option, none, some, ◌==◌,
  if◌then◌else◌, ◌&&◌, ◌||◌, ==_iff, arith,
}
use new_os.Paging.{Platform, Machine, Tables, present, writable, huge_page}
use new_os.Paging.Trees.{Below}
use new_os.Paging.Entries.{Gives}

abbrev pub FlagSet : Type 0
FlagSet = ℕ → Bool

pub data SampleEntry : Type 0 where
  free : SampleEntry
  entry : FlagSet → ℕ → (ℕ → Option ℕ) → SampleEntry

abbrev pub no_flags : FlagSet
no_flags b = false

abbrev pub no_pages : ℕ → Option ℕ
no_pages page = none

abbrev pub entry_flags : SampleEntry → FlagSet
entry_flags free = no_flags
entry_flags (entry f t pages) = f

abbrev pub entry_target : SampleEntry → ℕ
entry_target free = 0
entry_target (entry f t pages) = t

abbrev pub entry_pages : SampleEntry → ℕ → Option ℕ
entry_pages free = no_pages
entry_pages (entry f t pages) = pages

abbrev pub entry_free : SampleEntry → Bool
entry_free free = true
entry_free (entry f t pages) = false

pub entry_free_lem : (e : SampleEntry) (b : ℕ) → entry_flags e b ≡ true → entry_free e ≡ false
entry_free_lem free b h = absurd (cc)
entry_free_lem (entry f t pages) b h = refl

pub counts :
    (a b : ℕ) (t : ℕ)
    → ◌≡◌ {A = Option ℕ × ℕ} (some a, a + 1) (some t, b)
    → (¬ (t < a)) × (t < b) × ((g : ℕ) → g < a → g < b)
counts a b t h =
    let first : some a ≡ some t = ap (λ (r : Option ℕ × ℕ). r.0) h in
    let same : a ≡ t = cc in
    let next : a + 1 ≡ b = ap (λ (r : Option ℕ × ℕ). r.1) h in
    (
      λ below. omega (arith, same, below),
      omega (arith, same, next),
      λ g below. omega (arith, next, below),
    )

abbrev pub sample : Platform
sample = record {
  Entry = SampleEntry;
  Flags = FlagSet;
  PhysFrame = ℕ;
  same_frame = λ f g. f == g;
  same_frame_iff = ==_iff;
  contains = λ f b. f b;
  insert = λ f b c. if b == c then true else f c;
  contains-insert = λ f b c. refl;
  remove = λ f b c. if b == c then false else f c;
  contains-remove = λ f b c. refl;
  unused = free;
  is_unused = entry_free;
  is_unused-unused = refl;
  flags = entry_flags;
  flags-is_unused = entry_free_lem;
  points_to = entry_target;
  frame = λ e.
      if entry_flags e present
      then if entry_flags e huge_page then none else some (entry_target e)
      else none;
  frame_lem = λ e. refl;
  set_frame = λ t f. entry f t no_pages;
  flags-set_frame = λ t f. refl;
  points_to-set_frame = λ t f. refl;
  set_flags = λ e f. entry f (entry_target e) (entry_pages e);
  flags-set_flags = λ e f. refl;
  points_to-set_flags = λ e f. refl;
  Allocator = ℕ;
  allocate_frame = λ a. (some a, a + 1);
  Used = λ a t. t < a;
  fresh = counts;
  is_canonical = λ v. true;
  p4_index = λ v. v / 2 ^ 39 % 512;
  p3_index = λ v. v / 2 ^ 30 % 512;
  p2_index = λ v. v / 2 ^ 21 % 512;
  p1_index = λ v. v / 2 ^ 12 % 512;
}

-- The counter never ends.
pub Gives-sample : (n : ℕ) (a : ℕ) → Gives sample n a
unfolding Gives
Gives-sample zero a = tt
Gives-sample (suc n) a = (a, a + 1, refl, Gives-sample n (a + 1))

abbrev pub page_flags : FlagSet
page_flags b = b == present || b == writable

-- A table with one entry, at index 0.
abbrev pub only : SampleEntry → ℕ → SampleEntry
only e zero = e
only e (suc i) = free

-- One page: root 1, tables 2, 3 and 4, page frame 9.
abbrev pub one_page : Tables sample
one_page t i =
    if t == 1
    then only (entry page_flags 2 no_pages) i
    else if t == 2
    then only (entry page_flags 3 no_pages) i
    else if t == 3
    then only (entry page_flags 4 no_pages) i
    else if t == 4 && i == 5
    then entry page_flags 9 no_pages
    else free

abbrev pub InUse : SampleEntry → Type 0
InUse e = entry_free e ≡ false

abbrev pub before : Machine sample
before = record { tables = one_page; allocator = 10 }

module _ (P : ℕ → Type 0) (p2 : P 2) (p3 : P 3) (p4 : P 4) where
  third_tables : (i : ℕ) → InUse (one_page 3 i) → Below sample P 1 (one_page 3 i) one_page
  unfolding Below
  third_tables zero used = (4, refl, p4, λ i bound used. tt)
  third_tables (suc i) used = absurd (cc)

  second_tables : (i : ℕ) → InUse (one_page 2 i) → Below sample P 2 (one_page 2 i) one_page
  unfolding Below
  second_tables zero used = (3, refl, p3, λ i bound used. third_tables i used)
  second_tables (suc i) used = absurd (cc)

  -- The tables below the root.
  pub root_tables : (i : ℕ) → InUse (one_page 1 i) → Below sample P 3 (one_page 1 i) one_page
  unfolding Below
  root_tables zero used = (2, refl, p2, λ i bound used. second_tables i used)
  root_tables (suc i) used = absurd (cc)
