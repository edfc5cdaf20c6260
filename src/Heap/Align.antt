-- ===== src/Heap/Align.antt =====
-- Alignment (`align_up` of kernel/src/memory/allocator/mod.rs).
use new_os.Base.{
  ℕ, zero, suc, ◌+◌, ◌-◌, ◌*◌, ◌/◌, ◌^◌, ◌≤◌, ◌<◌, ◌≡◌, refl, sym, ap, ◌∙◌, arith, bit_and-high,
  u64_mod, returned, ltb, lt→ltb, false,
}
use native.Mathlib.Nat.{pow-suc, mul_assoc, mul_comm, mul-sub, one-le-pow, div-add-mod', mod-lt}
use new_os.Heap.{align_up}

-- A multiple.
abbrev pub IsAligned : ℕ → ℕ → Type 0
IsAligned x align = (q : ℕ) × (x ≡ q * align)

pub pow_add : (k w : ℕ) → 2 ^ (k + w) ≡ 2 ^ k * 2 ^ w
pow_add zero w = let e : 0 + w ≡ w = omega arith in ap (λ (n : ℕ). 2 ^ n) e ∙ omega arith
pow_add (suc k) w =
    let e : suc k + w ≡ suc (k + w) = omega arith in
    ap (λ (n : ℕ). 2 ^ n) e
    ∙ pow-suc 2 (k + w)
    ∙ ap (λ (t : ℕ). t * 2) (pow_add k w)
    ∙ omega (
      arith,
      mul_assoc (2 ^ k) (2 ^ w) 2,
      mul_comm (2 ^ w) 2,
      mul_assoc (2 ^ k) 2 (2 ^ w),
      ap (λ (t : ℕ). t * 2 ^ w) (pow-suc 2 k),
    )

-- A power of two that is not greater divides.
pub IsAligned-pow : (x j k : ℕ) → k ≤ j → IsAligned x (2 ^ j) → IsAligned x (2 ^ k)
IsAligned-pow x j k le (q, e) =
    let split : j - k + k ≡ j = omega arith in
    (
      q * 2 ^ (j - k),
      e
          ∙ ap (λ (n : ℕ). q * 2 ^ n) (sym split)
          ∙ ap (λ (t : ℕ). q * t) (pow_add (j - k) k)
          ∙ sym (mul_assoc q (2 ^ (j - k)) (2 ^ k)),
    )

mask : (k w : ℕ) → k + w ≡ 64 → u64_mod - 1 - (2 ^ k - 1) ≡ 2 ^ k * (2 ^ w - 1)
mask k w e = omega (
  arith,
  mul-sub (2 ^ k) (2 ^ w) 1,
  pow_add k w,
  ap (λ (n : ℕ). 2 ^ n) e,
  one-le-pow k 2 (omega arith),
  one-le-pow w 2 (omega arith),
)

-- The least multiple that is not below.
unfoldable pub rounded : ℕ → ℕ → ℕ
rounded value align = (value + (align - 1)) / align * align

pub rounded_bounds :
    (value align : ℕ)
    → 0 < align
    → (value ≤ rounded value align) × (rounded value align < value + align)
unfolding rounded
rounded_bounds value align pos =
    omega (arith, div-add-mod' (value + (align - 1)) align, mod-lt (value + (align - 1)) pos)

pub rounded-IsAligned : (value align : ℕ) → IsAligned (rounded value align) align
unfolding rounded
rounded-IsAligned value align = ((value + (align - 1)) / align, refl)

pub align_up_lem :
    (addr k : ℕ)
    → k ≤ 64
    → addr + 2 ^ k < u64_mod
    → align_up addr (2 ^ k) ≡ returned (rounded addr (2 ^ k))
unfolding align_up rounded
align_up_lem addr k le small =
    let pos = one-le-pow k 2 (omega arith) in
    let fits = lt→ltb (addr + 2 ^ k) u64_mod small in
    let above : ltb (addr + 2 ^ k) 1 ≡ false = ground arith in
    let some_bit : ltb (2 ^ k) 1 ≡ false = ground arith in
    let sum : addr + 2 ^ k - 1 ≡ addr + (2 ^ k - 1) = omega arith in
    let width : k + (64 - k) ≡ 64 = omega arith in
    let range : addr + (2 ^ k - 1) < 2 ^ k * 2 ^ (64 - k) =
      omega (arith, pow_add k (64 - k), ap (λ (n : ℕ). 2 ^ n) width) in
    rw (fits, above, some_bit, sum, mask k (64 - k) width)
      (ap returned (bit_and-high k (64 - k) (addr + (2 ^ k - 1)) range))
