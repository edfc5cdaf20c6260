-- ===== src/Video/Tests.antt =====
-- A text console of two by two glyphs (kernel/src/drivers/video/mod.rs).
use new_os.Base.{◌≡◌, refl, arith, some, [], ◌∷◌, replicate, Bytes, from_le}
use new_os.Video
use new_os.Video.{
  Draw, done, ◌>>=◌, Psf2Header, Psf2Font, header_at, new, get_glyph, Framebuffer, TextConsole,
  Screen, console_of, write_str, scroll, backspace,
}
use new_os.Video.Pixels.{Draws, IsFramebuffer}
use new_os.Video.Font.{IsFont}
use new_os.Video.Writing.{IsScreen, write_str-IsScreen}
use new_os.Video.Scrolling.{IsScrolled, scroll_lem}

-- Three glyphs of two bytes each.
abbrev font_file : Bytes
font_file =
    0x72 ∷ 0xb5 ∷ 0x4a ∷ 0x86 ∷ 0 ∷ 0 ∷ 0 ∷ 0 ∷ 32 ∷ 0 ∷ 0 ∷ 0 ∷ 0 ∷ 0 ∷ 0 ∷ 0 ∷ 3 ∷ 0 ∷ 0 ∷ 0 ∷ 2
    ∷ 0 ∷ 0 ∷ 0 ∷ 2 ∷ 0 ∷ 0 ∷ 0 ∷ 2 ∷ 0 ∷ 0 ∷ 0 ∷ 0 ∷ 0 ∷ 192 ∷ 192 ∷ 128 ∷ 64 ∷ []

abbrev font : Psf2Font
font = record { header = header_at font_file; glyphs = 0 ∷ 0 ∷ 192 ∷ 192 ∷ 128 ∷ 64 ∷ [] }

font_read : new font_file ≡ done (some font)
unfolding new ◌>>=◌ Video.mul32 Video.add64 Video.or_panic
font_read = refl

font-IsFont : IsFont font
unfolding from_le
font-IsFont = record {
  glyphs = refl;
  small = omega arith;
  glyph_small = omega arith;
  glyph_fits = omega arith;
}

abbrev framebuffer : Framebuffer
framebuffer = record {
  addr = 0x8000;
  width = 4;
  height = 4;
  pitch = 5;
  format = 0;
  cells = replicate 20 0;
}

framebuffer-IsFramebuffer : IsFramebuffer framebuffer
framebuffer-IsFramebuffer = record {
  lines = omega arith;
  cells = refl;
  small = omega arith;
  below = omega arith;
}

abbrev screen : Screen
screen = (console_of font, some framebuffer)

screen-IsScreen : IsScreen screen
unfolding from_le
screen-IsScreen = record {
  screen = framebuffer-IsFramebuffer;
  font = font-IsFont;
  wide = omega arith;
  high = omega arith;
  width_small = omega arith;
  height_small = omega arith;
  in_line = omega arith;
  on_screen = omega arith;
}

write_str-IsScreen_example : Draws IsScreen (write_str (1 ∷ 2 ∷ 1 ∷ 10 ∷ 2 ∷ 65 ∷ []) screen)
write_str-IsScreen_example =
    write_str-IsScreen (1 ∷ 2 ∷ 1 ∷ 10 ∷ 2 ∷ 65 ∷ []) screen screen-IsScreen

scroll_lem_example :
    Draws (IsScrolled (console_of font) framebuffer) (scroll (console_of font) framebuffer)
scroll_lem_example = scroll_lem (console_of font) framebuffer screen-IsScreen
