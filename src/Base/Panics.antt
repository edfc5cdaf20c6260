-- ===== src/Base/Panics.antt =====
-- Code that may panic: an index out of range, an arithmetic overflow of a debug build, `unwrap`
-- or `expect` of nothing, a failed `assert!`.
use Prim.Native.Nat.{ℕ, ◌+◌, ◌-◌, ◌*◌, ◌^◌}
use mathlib.Core.Option.{Option, none, some}
use new_os.Base.Tests.{ltb, if◌then◌else◌}

pub data Run {ℓ} (A : Type ℓ) : Type ℓ where
  returned : A → Run A
  panicked : Run A

infixl 5 ◌>>=◌
abbrev pub ◌>>=◌ {ℓ κ} : {A : Type ℓ} {B : Type κ} → Run A → (A → Run B) → Run B
returned a >>= f = f a
panicked >>= f = panicked

-- The number of values of a u64, which is also that of a usize.
abbrev pub u64_mod : ℕ
u64_mod = 2 ^ 64

abbrev pub u32_mod : ℕ
u32_mod = 2 ^ 32

-- `a.checked_add(b)` and `a.checked_mul(b)` of u64 and usize.
abbrev pub checked_add : ℕ → ℕ → Option ℕ
checked_add a b = if ltb (a + b) u64_mod then some (a + b) else none

abbrev pub checked_mul : ℕ → ℕ → Option ℕ
checked_mul a b = if ltb (a * b) u64_mod then some (a * b) else none

-- `a + b` of a build with overflow checks.
abbrev pub add64 : ℕ → ℕ → Run ℕ
add64 a b = if ltb (a + b) u64_mod then returned (a + b) else panicked

-- `o.unwrap()` and `o.expect(..)`.
abbrev pub unwrap {ℓ} : {A : Type ℓ} → Option A → Run A
unwrap none = panicked
unwrap (some a) = returned a

-- `a - b` of a build with overflow checks.
abbrev pub sub64 : ℕ → ℕ → Run ℕ
sub64 a b = if ltb a b then panicked else returned (a - b)
