-- ===== src/Shell/Decimal.antt =====
-- What the user shell prints for a number (userland/shell/src/main.rs).
use native.Mathlib.Nat.{pow-suc}
use new_os.Base.{
  ℕ, zero, suc, ◌+◌, ◌-◌, ◌*◌, ◌/◌, ◌%◌, ◌^◌, ◌≤◌, ◌<◌, ◌≡◌, refl, sym, ap, ◌∙◌, ◌⊎◌, inl, inr,
  ltb→lt, Bool-cases, [], ◌∷◌, ltb, ◌==◌, set, drop, replicate, length, length-set, length-drop,
  Bytes, codes, All, arith, is_utf8-ascii, from_utf8, returned, u64_mod,
}
use new_os.Shell.{fill, printed, print_u64}

-- The number that a text of digits stands for, behind the digits read so far.
abbrev pub decimal : ℕ → Bytes → ℕ
decimal n [] = n
decimal n (d ∷ ds) = decimal (n * 10 + (d - 48)) ds

abbrev pub IsDigit : ℕ → Type 0
IsDigit d = (48 ≤ d) × (d ≤ 57)

-- A first digit that is not 0.
abbrev pub LeadsNonzero : Bytes → Type 0
LeadsNonzero [] = ⊥
LeadsNonzero (d ∷ ds) = 48 < d

-- The text is the shortest one of the number: a first digit that is not 0, or `0` for 0.
abbrev pub IsShortest : ℕ → Bytes → Type 0
IsShortest n out = LeadsNonzero out ⊎ ((n ≡ 0) × (out ≡ codes "0"))

drop-set : (xs : Bytes) (i d : ℕ) → i < length xs → drop i (set xs i d) ≡ d ∷ drop (suc i) xs
drop-set [] i d h = absurd (omega arith)
drop-set (x ∷ xs) zero d h = refl
drop-set (x ∷ xs) (suc i) d h = drop-set xs i d (omega arith)

-- The digits that stand in the buffer from an index on.
pub record Filled (n idx : ℕ) (buf : Bytes) : Type 0 where
  pub digits : All IsDigit (drop idx buf)
  pub value : decimal 0 (drop idx buf) ≡ n
  pub room : idx ≤ length buf
  pub leads : LeadsNonzero (drop idx buf)

first_digit : (n : ℕ) → 0 < n → n / 10 ≡ 0 → 48 < 48 + n % 10
first_digit n some_left last = omega arith

fill_lem :
    (n idx total : ℕ) (buf : Bytes)
    → n < 10 ^ idx
    → idx ≤ length buf
    → All IsDigit (drop idx buf)
    → decimal n (drop idx buf) ≡ total
    → (n ≡ 0 → LeadsNonzero (drop idx buf))
    → (i : ℕ) × (out : Bytes) × (fill n idx buf ≡ returned (i, out))
      × (length out ≡ length buf)
      × Filled total i out
unfolding fill
fill_lem n zero total buf below room digits value leads =
    let done : n ≡ 0 = omega arith in
    (
      0,
      buf,
      rw done refl,
      refl,
      record { digits = digits; value = rw done at value; room = omega arith; leads = leads done },
    )
fill_lem n (suc idx) total buf below room digits value leads = elim (Bool-cases (ltb 0 n)) [
  | inr over ↦
      let done : n ≡ 0 = ground arith in
      (
        suc idx,
        buf,
        rw over refl,
        refl,
        record { digits = digits; value = rw done at value; room = room; leads = leads done },
      )
  | inl more ↦
      let written = drop-set buf idx (48 + n % 10) (omega arith) in
      let pow = pow-suc 10 idx in
      let same : n / 10 * 10 + (48 + n % 10 - 48) ≡ n = omega arith in
      let (i, out, e, len, filled) =
        fill_lem (n / 10) idx total (set buf idx (48 + n % 10)) (omega (arith, pow))
          (omega (arith, length-set buf idx (48 + n % 10)))
          (rw written ((omega arith, omega arith), digits))
          (rw written (ap (λ (m : ℕ). decimal m (drop (suc idx) buf)) same ∙ value))
          (λ last. rw written (first_digit n (ltb→lt 0 n more) last)) in
      (i, out, rw more e, len ∙ length-set buf idx (48 + n % 10), filled)
]

All-ascii : (bs : Bytes) → All IsDigit bs → All (λ b. b < 0x80) bs
All-ascii [] h = tt
All-ascii (b ∷ bs) h = (omega (arith, h.0.1), All-ascii bs h.1)

printed_lem : (i : ℕ) (out : Bytes) → All IsDigit (drop i out) → printed (i, out) ≡ drop i out
unfolding printed from_utf8
printed_lem i out h = rw (printed, is_utf8-ascii (drop i out) (All-ascii (drop i out) h)) refl

-- For every 64-bit number the printing returns, the twenty places suffice, and what is printed is
-- at most twenty digits that stand for the number in base ten and start with no 0, or `0` for 0.
pub print_u64_lem :
    (n : ℕ)
    → n < u64_mod
    → (out : Bytes) × (print_u64 n ≡ returned out)
      × All IsDigit out
      × (decimal 0 out ≡ n)
      × IsShortest n out
      × (length out ≤ 20)
unfolding print_u64
print_u64_lem n h = elim (Bool-cases (n == 0)) [
  | inl z ↦
      let none_left : n ≡ 0 = ground arith in
      (
        codes "0",
        rw z refl,
        ((omega arith, omega arith), tt),
        sym none_left,
        inr (none_left, refl),
        omega arith,
      )
  | inr nz ↦
      let (i, out, e, len, filled) =
        fill_lem n 20 n (replicate 20 0) (omega arith) (omega arith) tt refl
          (λ z. absurd (ground (arith, z, nz))) in
      (
        drop i out,
        rw (nz, e) (ap returned (printed_lem i out filled.digits)),
        filled.digits,
        filled.value,
        inl filled.leads,
        omega (arith, length-drop {0} i out, len),
      )
]
