-- ===== src/Base/Utf8.antt =====
-- UTF-8 of the Rust core library: validation (`core::str::from_utf8`) and encoding
-- (`char::encode_utf8`, which `String::push` and `as_bytes` go by).
use Prim.Native.Nat.{ℕ, zero, suc, ◌+◌, ◌/◌, ◌%◌, ◌<◌}
use mathlib.Core.Bool.{Bool, true, false, ◌&&◌}
use mathlib.Core.Option.{Option, none, some}
use mathlib.Core.List.{List, [], ◌∷◌, ◌++◌}
use mathlib.Core.Path.{◌≡◌, refl}
use new_os.Base.Lists.{All}
use new_os.Base.Tests.{lt→ltb, ltb, leb, ◌==◌, if◌then◌else◌}
use new_os.Base.Text.{Bytes}

-- What the next byte has to be: the start of a character, or a continuation byte in a range with
-- `more` further ones behind it.
pub data Expect : Type 0 where
  start : Expect
  tail : (more low high : ℕ) → Expect

within : ℕ → ℕ → ℕ → Bool
within low high b = leb low b && leb b high

expect_more : ℕ → Expect
expect_more zero = start
expect_more (suc more) = tail more 0x80 0xbf

utf8_step : Expect → ℕ → Option Expect
unfolding within expect_more
utf8_step start b =
    if ltb b 0x80
    then some start
    else if within 0xc2 0xdf b
    then some (tail 0 0x80 0xbf)
    else if b == 0xe0
    then some (tail 1 0xa0 0xbf)
    else if b == 0xed
    then some (tail 1 0x80 0x9f)
    else if within 0xe1 0xef b
    then some (tail 1 0x80 0xbf)
    else if b == 0xf0
    then some (tail 2 0x90 0xbf)
    else if within 0xf1 0xf3 b
    then some (tail 2 0x80 0xbf)
    else if b == 0xf4
    then some (tail 2 0x80 0x8f)
    else none
utf8_step (tail more low high) b = if within low high b then some (expect_more more) else none

utf8_from : Expect → Bytes → Bool
unfolding utf8_step
utf8_from start [] = true
utf8_from (tail more low high) [] = false
utf8_from e (b ∷ bs) = elim (utf8_step e b) [ none ↦ false | some e' ↦ utf8_from e' bs ]

unfoldable pub is_utf8 : Bytes → Bool
unfolding utf8_from
is_utf8 bs = utf8_from start bs

unfoldable pub from_utf8 : Bytes → Option Bytes
unfolding is_utf8
from_utf8 bs = if is_utf8 bs then some bs else none

unfoldable pub encode_char : ℕ → Bytes
encode_char c =
    if ltb c 0x80
    then c ∷ []
    else if ltb c 0x800
    then (0xc0 + c / 64) ∷ (0x80 + c % 64) ∷ []
    else if ltb c 0x10000
    then (0xe0 + c / 4096) ∷ (0x80 + c / 64 % 64) ∷ (0x80 + c % 64) ∷ []
    else (0xf0 + c / 262144) ∷ (0x80 + c / 4096 % 64) ∷ (0x80 + c / 64 % 64) ∷ (0x80 + c % 64) ∷ []

unfoldable pub encode_utf8 : List ℕ → Bytes
unfolding encode_char
encode_utf8 [] = []
encode_utf8 (c ∷ cs) = encode_char c ++ encode_utf8 cs

utf8_step-ascii : (b : ℕ) → b < 0x80 → utf8_step start b ≡ some start
unfolding utf8_step
utf8_step-ascii b h = rw (lt→ltb b 0x80 h) refl

utf8_from-ascii : (bs : Bytes) → All (λ b. b < 0x80) bs → utf8_from start bs ≡ true
unfolding utf8_from
utf8_from-ascii [] h = refl
utf8_from-ascii (b ∷ bs) h = rw (utf8_from, utf8_step-ascii b h.0) (utf8_from-ascii bs h.1)

pub is_utf8-ascii : (bs : Bytes) → All (λ b. b < 0x80) bs → is_utf8 bs ≡ true
unfolding is_utf8
is_utf8-ascii bs h = utf8_from-ascii bs h
