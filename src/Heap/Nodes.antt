-- ===== src/Heap/Nodes.antt =====
-- The lists of free blocks of kernel/src/memory/allocator/fixed_size_block.rs, one for each size.
use new_os.Base.{
  ℕ, zero, suc, ◌+◌, ◌^◌, ◌≤◌, ◌<◌, max, ◌≡◌, ◌⊎◌, refl, ap, arith, some, List, [], ◌∷◌, All, leb,
  leb→le, Bool-cases, inl, inr, get_elem?, set, Option-cases,
}
use mathlib.Core.Option.{some-injective}
use native.Mathlib.Nat.{pow-le-pow_right, pow-suc, one-le-pow}
use new_os.Heap.{position, list_index, block_sizes, Layout}
use new_os.Heap.Align.{IsAligned}
use new_os.Heap.Cover.{in_block}

-- Free blocks are not null, and aligned to their size.
abbrev pub IsNode : ℕ → ℕ → Type 0
IsNode size p = (0 < p) × IsAligned p size

abbrev pub AreNodes : List ℕ → List (List ℕ) → Type 0
AreNodes [] [] = Unit
AreNodes [] (ps ∷ pss) = ⊥
AreNodes (s ∷ sizes) [] = ⊥
AreNodes (s ∷ sizes) (ps ∷ pss) = All (IsNode s) ps × AreNodes sizes pss

abbrev pub nodes_cover : ℕ → ℕ → List ℕ → ℕ
nodes_cover a s [] = 0
nodes_cover a s (p ∷ ps) = in_block a p s + nodes_cover a s ps

abbrev pub heads_cover : ℕ → List ℕ → List (List ℕ) → ℕ
heads_cover a [] pss = 0
heads_cover a (s ∷ sizes) [] = 0
heads_cover a (s ∷ sizes) (ps ∷ pss) = nodes_cover a s ps + heads_cover a sizes pss

-- Each size has its list.
pub AreNodes-get_elem? :
    (sizes : List ℕ) (pss : List (List ℕ)) (i s : ℕ)
    → AreNodes sizes pss
    → get_elem? sizes i ≡ some s
    → (ps : List ℕ) × (get_elem? pss i ≡ some ps)
AreNodes-get_elem? [] pss i s h e = absurd (cc)
AreNodes-get_elem? (t ∷ sizes) [] i s h e = absurd h
AreNodes-get_elem? (t ∷ sizes) (ps ∷ pss) zero s h e = (ps, refl)
AreNodes-get_elem? (t ∷ sizes) (ps ∷ pss) (suc i) s h e = AreNodes-get_elem? sizes pss i s h.1 e

-- A block is taken out of its list.
pub AreNodes-pop :
    (sizes : List ℕ) (pss : List (List ℕ)) (i s p : ℕ) (ps : List ℕ)
    → AreNodes sizes pss
    → get_elem? sizes i ≡ some s
    → get_elem? pss i ≡ some (p ∷ ps)
    → AreNodes sizes (set pss i ps)
      × IsNode s p
      × ((a : ℕ) → heads_cover a sizes pss ≡ in_block a p s + heads_cover a sizes (set pss i ps))
AreNodes-pop [] pss i s p ps h e f = absurd (cc)
AreNodes-pop (t ∷ sizes) [] i s p ps h e f = absurd h
AreNodes-pop (t ∷ sizes) (qs ∷ pss) zero s p ps h e f =
    let same : t ≡ s = some-injective t s e in
    let nodes : qs ≡ p ∷ ps = some-injective qs (p ∷ ps) f in
    let all : All (IsNode t) (p ∷ ps) = rw nodes at h.0 in
    (
      (all.1, h.1),
      rw same at all.0,
      λ a. omega (
        arith,
        ap (λ (n : ℕ). nodes_cover a n qs) same,
        ap (nodes_cover a s) nodes,
        ap (λ (n : ℕ). nodes_cover a n ps) same,
      ),
    )
AreNodes-pop (t ∷ sizes) (qs ∷ pss) (suc i) s p ps h e f =
    let (kept, node, cover) = AreNodes-pop sizes pss i s p ps h.1 e f in
    ((h.0, kept), node, λ a. omega (arith, cover a))

-- A block is put in front of its list.
pub AreNodes-push :
    (sizes : List ℕ) (pss : List (List ℕ)) (i s p : ℕ) (ps : List ℕ)
    → AreNodes sizes pss
    → IsNode s p
    → get_elem? sizes i ≡ some s
    → get_elem? pss i ≡ some ps
    → AreNodes sizes (set pss i (p ∷ ps))
      × ((a : ℕ)
          → heads_cover a sizes (set pss i (p ∷ ps)) ≡ in_block a p s + heads_cover a sizes pss)
AreNodes-push [] pss i s p ps h node e f = absurd (cc)
AreNodes-push (t ∷ sizes) [] i s p ps h node e f = absurd h
AreNodes-push (t ∷ sizes) (qs ∷ pss) zero s p ps h node e f =
    let same : t ≡ s = some-injective t s e in
    let nodes : qs ≡ ps = some-injective qs ps f in
    (
      ((rw same node, rw (← nodes) h.0), h.1),
      λ a. omega (arith, ap (in_block a p) same, ap (nodes_cover a t) nodes),
    )
AreNodes-push (t ∷ sizes) (qs ∷ pss) (suc i) s p ps h node e f =
    let (kept, cover) = AreNodes-push sizes pss i s p ps h.1 node e f in
    ((h.0, kept), λ a. omega (arith, cover a))

position_lem :
    (sizes : List ℕ) (required i : ℕ)
    → position sizes required ≡ some i
    → (s : ℕ) × (get_elem? sizes i ≡ some s) × (required ≤ s)
unfolding position
position_lem [] required i e = absurd (cc)
position_lem (t ∷ sizes) required i e = elim (Bool-cases (leb required t)) [
  | inl fits ↦ let here : i ≡ 0 = ground (arith, fits) in (t, rw here refl, leb→le required t fits)
  | inr small ↦ elim (Option-cases (position sizes required)) [
    | inl missing ↦ absurd (ground (arith, small, missing))
    | inr (j, found) ↦
        let there : i ≡ suc j = ground (arith, small, found) in
        let (s, at, enough) = position_lem sizes required j found in (s, rw there at, enough)
  ]
]

-- The list of a layout is that of a size which is no less than its size and its alignment.
pub list_index_lem :
    (l : Layout) (i : ℕ)
    → list_index l ≡ some i
    → (s : ℕ) × (get_elem? block_sizes i ≡ some s) × (max l.size l.align ≤ s)
unfolding list_index
list_index_lem l i e = position_lem block_sizes (max l.size l.align) i e

-- A power of two from 8 to 2048.
abbrev pub IsBlockSize : ℕ → Type 0
IsBlockSize s = (k : ℕ) × (s ≡ 2 ^ k) × (3 ≤ k) × (k ≤ 11)

get_elem?-All : (P : ℕ → Type 0) (xs : List ℕ) (i x : ℕ) → All P xs → get_elem? xs i ≡ some x → P x
get_elem?-All P [] i x h e = absurd (cc)
get_elem?-All P (y ∷ xs) zero x h e = rw (← some-injective y x e) h.0
get_elem?-All P (y ∷ xs) (suc i) x h e = get_elem?-All P xs i x h.1 e

power : (k : ℕ) → 3 ≤ k → k ≤ 11 → IsBlockSize (2 ^ k)
power k low high = (k, refl, low, high)

pub block_sizes_lem : (i s : ℕ) → get_elem? block_sizes i ≡ some s → IsBlockSize s
block_sizes_lem i s e =
    get_elem?-All IsBlockSize block_sizes i s
      (
        power 3 (omega arith) (omega arith),
        (
          power 4 (omega arith) (omega arith),
          (
            power 5 (omega arith) (omega arith),
            (
              power 6 (omega arith) (omega arith),
              (
                power 7 (omega arith) (omega arith),
                (
                  power 8 (omega arith) (omega arith),
                  (
                    power 9 (omega arith) (omega arith),
                    (
                      power 10 (omega arith) (omega arith),
                      (power 11 (omega arith) (omega arith), tt),
                    ),
                  ),
                ),
              ),
            ),
          ),
        ),
      )
      e

below_or_above : (k j : ℕ) → (k ≤ j) ⊎ (suc j ≤ k)
below_or_above k j = ground arith

pub exponent-le : (k j : ℕ) → 2 ^ k ≤ 2 ^ j → k ≤ j
exponent-le k j h = elim (below_or_above k j) [
  | inl le ↦ le
  | inr above ↦ absurd (
      omega (
        arith,
        pow-le-pow_right {n = 2} (omega arith) {i = suc j} {j = k} above,
        pow-suc 2 j,
        one-le-pow j 2 (omega arith),
        h,
      ))
]
