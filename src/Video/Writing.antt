-- ===== src/Video/Writing.antt =====
-- What is written on the text console of kernel/src/drivers/video/mod.rs.
use new_os.Base.{
  ℕ, ◌+◌, ◌-◌, ◌*◌, ◌/◌, ◌≤◌, ◌<◌, ◌^◌, ◌≡◌, refl, ap, arith, Bool-cases, inl, inr, Option, none,
  some, List, [], ◌∷◌, ltb, ◌==◌, length, Bytes, u32_mod,
}
use new_os.Video.{
  add32, Framebuffer, TextConsole, Screen, Psf2Font, get_glyph, draw_rect, newline_locked, newline,
  shown, draw_glyph, wrap, put_glyph, write_glyph, write_char, write_str, backspace,
}
use new_os.Video.Pixels.{
  Draws, drawn, Draws-bind, Draws-weaken, Draws-add32, Redraws-refl, draw_rect-Redraws,
}
use new_os.Video.Font.{IsFont, IsGlyph, get_glyph-Draws}
use new_os.Video.Console.{Shows, Later, moved, newline_locked-AtStart, draw_glyph-Redraws}

-- A console with a font, and with its cursor on the framebuffer, if there is one.
abbrev pub IsScreen : Screen → Type 0
IsScreen (console, none) = IsFont console.font × (console.font.header.width < 2 ^ 30)
IsScreen (console, some fb) = Shows console fb

wrap-Later :
    (console : TextConsole) (fb : Framebuffer)
    → Shows console fb
    → Draws
        (λ after.
          Later console.font fb after × (after.0.cursor_x + console.font.header.width ≤ fb.width))
        (wrap console fb)
unfolding wrap
wrap-Later console fb h =
    Draws-bind (add32 console.cursor_x console.font.header.width)
      (Draws-add32 _ _ (omega (arith, h.in_line, h.wide, h.width_small)))
      (λ right sum. elim (Bool-cases (ltb fb.width right)) [
        | inl full ↦ rw full (
            Draws-weaken (newline_locked-AtStart console fb h)
              (λ after start. (start.0, omega (arith, start.1, h.wide))))
        | inr room ↦ rw room (
            drawn _ (
              record { same_font = refl; shows = h; redraws = Redraws-refl fb h.screen },
              ground (arith, room, sum),
            ))
      ])

put_glyph-IsScreen :
    (glyph : Bytes) (per_line : ℕ) (console : TextConsole) (fb : Framebuffer)
    → Shows console fb
    → per_line ≡ (console.font.header.width + 7) / 8
    → length glyph ≡ console.font.header.char_size
    → length glyph < u32_mod
    → console.cursor_x + console.font.header.width ≤ fb.width
    → Draws IsScreen (put_glyph glyph per_line (console, fb))
unfolding put_glyph
put_glyph-IsScreen glyph per_line console fb h pads size small room =
    let whole : console.font.header.height * per_line ≤ length glyph =
      omega (arith, h.font.glyph_fits, ap (λ n. console.font.header.height * n) pads, size) in
    Draws-bind (draw_glyph glyph console per_line console.font.header.height 0 fb)
      (draw_glyph-Redraws glyph console per_line pads whole small
        (omega (arith, room, h.width_small)) (omega (arith, h.on_screen, h.height_small))
        console.font.header.height 0 fb h.screen (omega arith))
      (λ fb' redraws.
        Draws-bind (add32 console.cursor_x console.font.header.width)
          (Draws-add32 _ _ (omega (arith, room, h.width_small)))
          (λ x sum.
            drawn _
              (moved console fb fb' x console.cursor_y h redraws (omega (arith, sum, room))
                h.on_screen).shows))

write_glyph-IsScreen :
    (glyph : Option Bytes) (console : TextConsole) (fb : Option Framebuffer)
    → IsScreen (console, fb)
    → IsGlyph console.font glyph
    → Draws IsScreen (write_glyph glyph (console, fb))
unfolding write_glyph
write_glyph-IsScreen none console none h size = drawn (console, none) h
write_glyph-IsScreen none console (some fb) h size = drawn (console, some fb) h
write_glyph-IsScreen (some glyph) console none h size =
    Draws-bind (add32 console.font.header.width 7) (Draws-add32 _ _ (omega (arith, h.1)))
      (λ padded _. drawn (console, none) h)
write_glyph-IsScreen (some glyph) console (some fb) h size =
    Draws-bind (add32 console.font.header.width 7)
      (Draws-add32 _ _ (omega (arith, h.wide, h.width_small)))
      (λ padded pads. Draws-bind (wrap console fb) (wrap-Later console fb h) (λ after (later, room).
        let font = later.same_font in
        let width : after.0.font.header.width ≡ console.font.header.width =
          ap (λ (f : Psf2Font). f.header.width) font in
        let char_size : after.0.font.header.char_size ≡ console.font.header.char_size =
          ap (λ (f : Psf2Font). f.header.char_size) font in
        put_glyph-IsScreen glyph (padded / 8) after.0 after.1 later.shows
          (omega (arith, pads, width)) (omega (arith, size, char_size))
          (omega (arith, size, char_size, later.shows.font.glyph_small))
          (omega (arith, room, width, later.redraws.width))))

newline-IsScreen :
    (console : TextConsole) (fb : Option Framebuffer)
    → IsScreen (console, fb)
    → Draws IsScreen (newline (console, fb))
unfolding newline shown
newline-IsScreen console none h = drawn (console, none) h
newline-IsScreen console (some fb) h =
    Draws-bind (newline_locked console fb) (newline_locked-AtStart console fb h)
      (λ after start. drawn (after.0, some after.1) start.0.shows)

font-IsScreen :
    (console : TextConsole) (fb : Option Framebuffer) → IsScreen (console, fb) → IsFont console.font
font-IsScreen console none h = h.0
font-IsScreen console (some fb) h = h.font

write_char-IsScreen :
    (c : ℕ) (screen : Screen) → IsScreen screen → Draws IsScreen (write_char c screen)
unfolding write_char
write_char-IsScreen c (console, fb) h = elim (Bool-cases (c == 10)) [
  | inl line_end ↦ rw line_end (newline-IsScreen console fb h)
  | inr other ↦ rw other (
      Draws-bind (get_glyph c console.font)
        (get_glyph-Draws c console.font (font-IsScreen console fb h))
        (λ glyph size. write_glyph-IsScreen glyph console fb h size))
]

-- On a console with a well-formed font, with its cursor on a framebuffer of less than 2^30 by 2^30 pixels
-- whose cells are all there, if there is a framebuffer: any text is written without a panic and without a
-- write outside the framebuffer, and leaves such a console.
pub write_str-IsScreen :
    (cs : List ℕ) (screen : Screen) → IsScreen screen → Draws IsScreen (write_str cs screen)
unfolding write_str
write_str-IsScreen [] screen h = drawn screen h
write_str-IsScreen (c ∷ cs) screen h =
    Draws-bind (write_char c screen) (write_char-IsScreen c screen h)
      (λ screen' h'. write_str-IsScreen cs screen' h')

-- On a console with a well-formed font, with its cursor on a framebuffer of less than 2^30 by 2^30 pixels
-- whose cells are all there, if there is a framebuffer: a backspace does not panic, writes inside the
-- framebuffer only, and leaves such a console.
pub backspace-IsScreen : (screen : Screen) → IsScreen screen → Draws IsScreen (backspace screen)
unfolding backspace
backspace-IsScreen (console, none) h =
    elim (Bool-cases (ltb console.cursor_x console.font.header.width)) [
      | inl at_start ↦ rw at_start (drawn (console, none) h)
      | inr behind ↦ rw behind (drawn _ h)
    ]
backspace-IsScreen (console, some fb) h =
    elim (Bool-cases (ltb console.cursor_x console.font.header.width)) [
      | inl at_start ↦ rw at_start (drawn (console, some fb) h)
      | inr behind ↦
          let x = console.cursor_x - console.font.header.width in
          rw behind (
            Draws-bind
              (draw_rect x console.cursor_y console.font.header.width console.font.header.height
                console.background fb)
              (draw_rect-Redraws x console.cursor_y console.font.header.width
                console.font.header.height console.background fb h.screen
                (omega (arith, h.in_line, h.wide, h.width_small))
                (omega (arith, h.on_screen, h.height_small)))
              (λ fb' redraws.
                drawn _
                  (moved console fb fb' x console.cursor_y h redraws (omega (arith, h.in_line))
                    h.on_screen).shows))
    ]
