-- ===== src/Base/Text.antt =====
-- Byte strings: a `str` is its UTF-8 bytes, so that `==`, `len` and `as_bytes` are those of the
-- byte list; little-endian numbers; checked slices; and `core::str::from_utf8`.
use Prim.Native.Nat.{ℕ, zero, suc, ◌+◌, ◌-◌, ◌*◌, ◌/◌, ◌%◌, ◌^◌, ◌≤◌, ◌<◌}
use mathlib.Core.Path.{◌≡◌, refl, ap}
use mathlib.Core.Bool.{Bool, true, false, ◌&&◌}
use mathlib.Core.Option.{Option, none, some}
use mathlib.Core.List.{List, [], ◌∷◌, ◌++◌}
use Prim.Native.Char.{code}
use Prim.Native.String.{String}
use native.Mathlib.Omega.{arith}
use native.Mathlib.Nat.{pow-suc}
use new_os.Base.Tests.{leb, ◌==◌, le→leb, if◌then◌else◌}
use new_os.Base.Lists.{length, take, drop, length-append, take-append, drop-append}

abbrev pub Bytes : Type 0
Bytes = List ℕ

-- The bytes of an ASCII literal.
abbrev pub codes : String → Bytes
codes String.[] = []
codes (String.◌∷◌ c s) = code c ∷ codes s

-- `a == b` of two strings or slices.
unfoldable pub bytes_eq : Bytes → Bytes → Bool
bytes_eq [] [] = true
bytes_eq (x ∷ xs) (y ∷ ys) = x == y && bytes_eq xs ys
bytes_eq _ _ = false

pub bytes_eq→eq : (xs ys : Bytes) → bytes_eq xs ys ≡ true → xs ≡ ys
unfolding bytes_eq
bytes_eq→eq [] [] h = refl
bytes_eq→eq (x ∷ xs) (y ∷ ys) h = ground (arith, bytes_eq→eq xs ys)
bytes_eq→eq [] (y ∷ ys) h = ground arith
bytes_eq→eq (x ∷ xs) [] h = ground arith

pub bytes_eq_self : (xs : Bytes) → bytes_eq xs xs ≡ true
unfolding bytes_eq
bytes_eq_self [] = refl
bytes_eq_self (x ∷ xs) = ground (arith, bytes_eq_self xs)

-- `uN::from_le_bytes` and `to_le_bytes`.
unfoldable pub from_le : Bytes → ℕ
from_le [] = 0
from_le (b ∷ bs) = b + 256 * from_le bs

unfoldable pub to_le : ℕ → ℕ → Bytes
to_le zero n = []
to_le (suc w) n = n % 256 ∷ to_le w (n / 256)

pub length-to_le : (w n : ℕ) → length (to_le w n) ≡ w
unfolding to_le
length-to_le zero n = refl
length-to_le (suc w) n = ap suc (length-to_le w (n / 256))

pub from_le-to_le : (w n : ℕ) → n < 256 ^ w → from_le (to_le w n) ≡ n
unfolding from_le to_le
from_le-to_le zero n h = omega arith
from_le-to_le (suc w) n h =
    let bound : n / 256 < 256 ^ w = omega (arith, pow-suc 256 w) in
    omega (arith, from_le-to_le w (n / 256) bound)

-- `xs[start..end]`, which panics unless start ≤ end ≤ xs.len(): `none` here.
unfoldable pub slice : Bytes → ℕ → ℕ → Option Bytes
slice xs start end =
    if leb start end && leb end (length xs) then some (take (end - start) (drop start xs)) else none

pub slice-append :
    (pre mid post : Bytes) (start end : ℕ)
    → start ≡ length pre
    → end ≡ start + length mid
    → slice (pre ++ (mid ++ post)) start end ≡ some mid
unfolding slice
slice-append pre mid post start end hs he =
    let fits : end ≤ length (pre ++ (mid ++ post)) =
      omega (arith, length-append {0} pre (mid ++ post), length-append {0} mid post) in
    let ordered : start ≤ end = omega arith in
    rw (le→leb start end ordered, le→leb end _ fits, drop-append pre (mid ++ post) start hs)
      (ap some (take-append mid post (end - start) (omega arith)))

pub slice-some :
    (xs : Bytes) (start end : ℕ)
    → start ≤ end
    → end ≤ length xs
    → slice xs start end ≡ some (take (end - start) (drop start xs))
unfolding slice
slice-some xs start end ordered within =
    rw (le→leb start end ordered, le→leb end (length xs) within) refl
