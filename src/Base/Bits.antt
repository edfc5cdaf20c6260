-- ===== src/Base/Bits.antt =====
-- `x & !(2^k - 1)` of a 64-bit word, as arithmetic.
use Prim.Native.Nat.{
  ℕ, zero, suc, ◌+◌, ◌-◌, ◌*◌, ◌/◌, ◌%◌, ◌^◌, ◌≤◌, ◌<◌, min, bit_and, digits, bit_and-bitwise,
}
use mathlib.Core.Path.{◌≡◌, refl, ap, sym, ◌∙◌}
use native.Mathlib.Omega.{arith}
use native.Mathlib.Nat.{
  pow-suc, one-le-pow, mul_comm, mul_assoc, mul_right_comm, div-div-eq-div-mul,
}

-- Any number of rounds from the left operand on computes the same: `bound` bounds the rounds.
digits-bit_and :
    (bound rounds x y : ℕ)
    → rounds ≤ bound
    → x ≤ rounds
    → digits (λ d. zero) min rounds x y ≡ bit_and x y
digits-bit_and bound zero x y some_rounds le =
    let none_left : x ≡ 0 = omega arith in rw (none_left, bit_and-bitwise 0 y) refl
digits-bit_and bound (suc rounds) zero y some_rounds le = sym (bit_and-bitwise 0 y)
digits-bit_and zero (suc rounds) (suc x) y some_rounds le = absurd (omega arith)
digits-bit_and (suc bound) (suc rounds) (suc x) y some_rounds le =
    let half = suc x / 2 in
    omega (
      arith,
      digits-bit_and bound rounds half (y / 2) (omega arith) (omega arith),
      digits-bit_and bound x half (y / 2) (omega arith) (omega arith),
      bit_and-bitwise (suc x) y,
    )

-- The lowest digit, and the digits above it.
bit_and-halves : (x y : ℕ) → bit_and x y ≡ bit_and (x / 2) (y / 2) * 2 + min (x % 2) (y % 2)
bit_and-halves zero y = omega (arith, bit_and-bitwise 0 y, bit_and-bitwise 0 (y / 2))
bit_and-halves (suc x) y =
    bit_and-bitwise (suc x) y
    ∙ ap (λ (high : ℕ). high * 2 + min (suc x % 2) (y % 2))
        (digits-bit_and x x (suc x / 2) (y / 2) (omega arith) (omega arith))

-- The ones of a width keep a number of that width.
pub bit_and-ones : (w x : ℕ) → x < 2 ^ w → bit_and x (2 ^ w - 1) ≡ x
bit_and-ones zero x h = let z : x ≡ 0 = omega arith in rw z (bit_and-bitwise 0 (2 ^ 0 - 1))
bit_and-ones (suc w) x h =
    let pow = pow-suc 2 w in
    let some_bit : 1 ≤ 2 ^ w = one-le-pow w 2 (omega arith) in
    let half : (2 ^ suc w - 1) / 2 ≡ 2 ^ w - 1 = omega (arith, pow) in
    let low : (2 ^ suc w - 1) % 2 ≡ 1 = omega (arith, pow) in
    bit_and-halves x (2 ^ suc w - 1)
    ∙ ap (λ (m : ℕ). bit_and (x / 2) m * 2 + min (x % 2) ((2 ^ suc w - 1) % 2)) half
    ∙ omega (arith, bit_and-ones w (x / 2) (omega (arith, pow)), low)

twice_lem : (p q m : ℕ) → q ≡ p * 2 → q * m ≡ p * m * 2
twice_lem p q m e = ap (λ (t : ℕ). t * m) e ∙ mul_right_comm p 2 m

even_step : (x m : ℕ) → bit_and x (m * 2) ≡ bit_and (x / 2) m * 2
even_step x m =
    let half : m * 2 / 2 ≡ m = omega arith in
    let low : m * 2 % 2 ≡ 0 = omega arith in
    bit_and-halves x (m * 2)
    ∙ ap (λ (t : ℕ). bit_and (x / 2) t * 2 + min (x % 2) (m * 2 % 2)) half
    ∙ omega (arith, low)

-- Zeros below clear the low digits.
pub bit_and-high :
    (k w x : ℕ) → x < 2 ^ k * 2 ^ w → bit_and x (2 ^ k * (2 ^ w - 1)) ≡ x / 2 ^ k * 2 ^ k
bit_and-high zero w x h =
    let one : 2 ^ 0 * (2 ^ w - 1) ≡ 2 ^ w - 1 = omega arith in
    ap (λ (m : ℕ). bit_and x m) one ∙ bit_and-ones w x (omega arith) ∙ omega arith
bit_and-high (suc k) w x h =
    let pow = pow-suc 2 k in
    let twice : 2 ^ suc k * (2 ^ w - 1) ≡ 2 ^ k * (2 ^ w - 1) * 2 =
      twice_lem (2 ^ k) (2 ^ suc k) (2 ^ w - 1) pow in
    let range : 2 ^ suc k * 2 ^ w ≡ 2 ^ k * 2 ^ w * 2 = twice_lem (2 ^ k) (2 ^ suc k) (2 ^ w) pow in
    ap (λ (m : ℕ). bit_and x m) twice
    ∙ even_step x (2 ^ k * (2 ^ w - 1))
    ∙ ap (λ (m : ℕ). m * 2) (bit_and-high k w (x / 2) (omega (arith, range)))
    ∙ ap (λ (m : ℕ). m * 2 ^ k * 2) (div-div-eq-div-mul x 2 (2 ^ k))
    ∙ ap (λ (p : ℕ). x / p * 2 ^ k * 2) (mul_comm 2 (2 ^ k) ∙ sym pow)
    ∙ mul_assoc (x / 2 ^ suc k) (2 ^ k) 2
    ∙ ap (λ (p : ℕ). x / 2 ^ suc k * p) (sym pow)
