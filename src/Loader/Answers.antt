-- ===== src/Loader/Answers.antt =====
-- Results of the boot loader (boot/uefi-loader/src/elf.rs) that are neither a panic nor a copy that
-- leaves the file or the pages.
use new_os.Base.{◌≡◌, refl, Bool, true, false, Option, none, some}
use mathlib.Core.Path.{subst}
use new_os.Loader.{LoadError, Load, ok, err, ◌>>=◌, fail_if, ok_or, or_panic, or_strays}

-- An error, or a result with a property; neither a panic nor a copy that strays.
pub data Answers {A : Type 0} (P : A → Type 0) : Load A → Type 0 where
  answer : (a : A) → P a → Answers P (ok a)
  refusal : (e : LoadError) → Answers P (err e)

ok-injective : {A : Type 0} (a b : A) → ok a ≡ ok b → a ≡ b
ok-injective a b e = cc

module _ {A : Type 0} where
  pub Answers-bind :
      {B : Type 0} {P : A → Type 0} {Q : B → Type 0} (m : Load A) {f : A → Load B}
      → Answers P m
      → ((a : A) → P a → Answers Q (f a))
      → Answers Q (m >>= f)
  unfolding ◌>>=◌
  Answers-bind _ (answer a h) next = next a h
  Answers-bind _ (refusal e) next = refusal e

  -- The result is known to be the result.
  pub Answers-same : {P : A → Type 0} (m : Load A) → Answers P m → Answers (λ a. P a × (m ≡ ok a)) m
  Answers-same _ (answer a h) = answer a (h, refl)
  Answers-same _ (refusal e) = refusal e

  pub Answers-weaken :
      {P Q : A → Type 0} {m : Load A} → Answers P m → ((a : A) → P a → Q a) → Answers Q m
  Answers-weaken (answer a h) f = answer a (f a h)
  Answers-weaken (refusal e) f = refusal e

  pub Answers-ok : {P : A → Type 0} {m : Load A} (a : A) → Answers P m → m ≡ ok a → P a
  Answers-ok {P} a (answer b h) e = subst P (ok-injective b a e) h
  Answers-ok a (refusal f) e = absurd (cc)

  pub Answers-ok_or : (o : Option A) (e : LoadError) → Answers (λ a. o ≡ some a) (ok_or o e)
  unfolding ok_or
  Answers-ok_or none e = refusal e
  Answers-ok_or (some a) e = answer a refl

  pub Answers-or_panic : (o : Option A) (a : A) → o ≡ some a → Answers (λ b. b ≡ a) (or_panic o)
  unfolding or_panic
  Answers-or_panic o a h = rw h (answer a refl)

  pub Answers-or_strays : (o : Option A) (a : A) → o ≡ some a → Answers (λ b. b ≡ a) (or_strays o)
  unfolding or_strays
  Answers-or_strays o a h = rw h (answer a refl)

pub Answers-fail_if : (b : Bool) (e : LoadError) → Answers (λ _. b ≡ false) (fail_if b e)
unfolding fail_if
Answers-fail_if true e = refusal e
Answers-fail_if false e = answer tt refl
