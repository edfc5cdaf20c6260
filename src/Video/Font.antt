-- ===== src/Video/Font.antt =====
-- The glyphs of a font (kernel/src/drivers/video/psf.rs).
use new_os.Base.{
  ℕ, suc, ◌+◌, ◌-◌, ◌*◌, ◌/◌, ◌≤◌, ◌<◌, ◌≡◌, refl, ap, arith, Bool-cases, inl, inr, Option, none,
  some, leb, lt→ltb, length, length-take, length-drop, drop, slice, slice-some, Bytes, u32_mod,
  u64_mod,
}
use native.Mathlib.Nat.{mul-le-mul_right}
use new_os.Video.{mul64, add64, or_panic, Psf2Font, get_glyph}
use new_os.Video.Pixels.{Draws, drawn, Draws-bind, Draws-add64}

-- The glyphs are as many as the header says, each with the bytes of a whole glyph.
pub record IsFont (font : Psf2Font) : Type 0 where
  pub glyphs : length font.glyphs ≡ font.header.length * font.header.char_size
  pub small : font.header.length * font.header.char_size < u32_mod
  pub glyph_small : font.header.char_size < u32_mod
  pub glyph_fits : font.header.height * ((font.header.width + 7) / 8) ≤ font.header.char_size

abbrev pub IsGlyph : Psf2Font → Option Bytes → Type 0
IsGlyph font none = Unit
IsGlyph font (some glyph) = length glyph ≡ font.header.char_size

mul64-Draws : (a b : ℕ) → a * b < u64_mod → Draws (λ c. c ≡ a * b) (mul64 a b)
unfolding mul64
mul64-Draws a b h = rw (lt→ltb (a * b) u64_mod h) (drawn (a * b) refl)

or_panic-Draws : {A : Type 0} (o : Option A) (a : A) → o ≡ some a → Draws (λ b. b ≡ a) (or_panic o)
unfolding or_panic
or_panic-Draws o a h = rw h (drawn a refl)

-- In a well-formed font, the look-up of any character does not panic, and finds no glyph, or one of the
-- size that the header says.
pub get_glyph-Draws :
    (c : ℕ) (font : Psf2Font) → IsFont font → Draws (IsGlyph font) (get_glyph c font)
unfolding get_glyph
get_glyph-Draws c font h = elim (Bool-cases (leb font.header.length c)) [
  | inl beyond ↦ rw beyond (drawn none tt)
  | inr known ↦
      let size = font.header.char_size in
      let below : suc c ≤ font.header.length = ground arith in
      let scaled = mul-le-mul_right {m = suc c} {n = font.header.length} size below in
      let end_inside : c * size + size ≤ length font.glyphs = ground (arith, scaled, h.glyphs) in
      rw known (
        Draws-bind (mul64 c size)
          (mul64-Draws c size (omega (arith, end_inside, h.glyphs, h.small)))
          (λ start starts.
            Draws-bind (add64 start size)
              (Draws-add64 start size (omega (arith, end_inside, h.glyphs, h.small, starts)))
              (λ end ends.
                let within : end ≤ length font.glyphs = omega (arith, end_inside, starts, ends) in
                Draws-bind (or_panic (slice font.glyphs start end))
                  (or_panic-Draws _ _
                    (slice-some font.glyphs start end (omega (arith, ends)) within))
                  (λ glyph bytes. drawn (some glyph) (
                    omega (
                      arith,
                      ap length bytes,
                      length-take (end - start) (drop start font.glyphs),
                      length-drop start font.glyphs,
                      starts,
                      ends,
                      within,
                    ))))))
]
