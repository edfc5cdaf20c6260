-- ===== src/Video/Console.antt =====
-- The text console of kernel/src/drivers/video/mod.rs on any characters.
use new_os.Base.{
  ℕ, zero, suc, ◌+◌, ◌-◌, ◌*◌, ◌/◌, ◌%◌, ◌^◌, ◌≤◌, ◌<◌, ◌≡◌, refl, arith, Bool-cases, inl, inr, ltb,
  ◌==◌, if◌then◌else◌, length, get_elem?, lt-get_elem?, Bytes, u32_mod,
}
use native.Mathlib.Nat.{mul-le-mul_left, mul-le-mul_right}
use new_os.Video.{
  add32, mul32, sub, or_panic, Framebuffer, TextConsole, Psf2Font, set_pixel, moved_up, clear_from,
  scroll, newline_locked, draw_glyph_row, draw_glyph,
}
use new_os.Video.Pixels.{
  Draws, drawn, Draws-bind, Draws-weaken, Draws-add32, Draws-mul32, Draws-sub, IsFramebuffer,
  Redraws, Redraws-refl, Redraws-trans, cells-Redraws, set_pixel-Redraws, clear_from-Redraws,
  moved_up-Redraws,
}
use new_os.Video.Font.{IsFont}

-- A console whose cursor is on the framebuffer, with room for a glyph below it.
pub record Shows (console : TextConsole) (fb : Framebuffer) : Type 0 where
  pub screen : IsFramebuffer fb
  pub font : IsFont console.font
  pub wide : console.font.header.width ≤ fb.width
  pub high : console.font.header.height ≤ fb.height
  pub width_small : fb.width < 2 ^ 30
  pub height_small : fb.height < 2 ^ 30
  pub in_line : console.cursor_x ≤ fb.width
  pub on_screen : console.cursor_y + console.font.header.height ≤ fb.height

-- A console with its framebuffer later on.
pub record Later (font : Psf2Font) (fb : Framebuffer) (after : TextConsole × Framebuffer)
    : Type 0 where
  pub same_font : after.0.font ≡ font
  pub shows : Shows after.0 after.1
  pub redraws : Redraws fb after.1

-- The cursor is at the start of a line.
abbrev pub AtStart : Psf2Font → Framebuffer → TextConsole × Framebuffer → Type 0
AtStart font fb after = Later font fb after × (after.0.cursor_x ≡ 0)

pub moved :
    (console : TextConsole) (fb fb' : Framebuffer) (x y : ℕ)
    → Shows console fb
    → Redraws fb fb'
    → x ≤ fb.width
    → y + console.font.header.height ≤ fb.height
    → Later console.font fb (record console { cursor_x = x; cursor_y = y }, fb')
moved console fb fb' x y h redraws in_line on_screen = record {
  same_font = refl;
  shows = record {
    screen = redraws.screen;
    font = h.font;
    wide = omega (arith, h.wide, redraws.width);
    high = omega (arith, h.high, redraws.height);
    width_small = omega (arith, h.width_small, redraws.width);
    height_small = omega (arith, h.height_small, redraws.height);
    in_line = omega (arith, in_line, redraws.width);
    on_screen = omega (arith, on_screen, redraws.height);
  };
  redraws = redraws;
}

-- Scrolling keeps the cells of the framebuffer, and puts the cursor on the last line.
scroll-AtStart :
    (console : TextConsole) (fb : Framebuffer)
    → Shows console fb
    → console.cursor_x ≡ 0
    → Draws (AtStart console.font fb) (scroll console fb)
unfolding scroll
scroll-AtStart console fb h start =
    let height = console.font.header.height in
    let line = mul-le-mul_left {m = height} {n = fb.height} fb.pitch h.high in
    Draws-bind (mul32 fb.pitch height) (Draws-mul32 _ _ (omega (arith, line, h.screen.small)))
      (λ line_cells lines.
        Draws-bind (mul32 fb.pitch fb.height) (Draws-mul32 _ _ h.screen.small) (λ total_cells total.
          Draws-bind (sub total_cells line_cells)
            (Draws-sub _ _ (omega (arith, line, lines, total)))
            (λ kept rest.
              let all : line_cells + kept ≡ length fb.cells =
                omega (arith, line, lines, total, rest, h.screen.cells) in
              Draws-bind (moved_up line_cells kept fb)
                (moved_up-Redraws line_cells kept fb h.screen all)
                (λ up first.
                  let room : kept + line_cells ≤ length up.cells =
                    omega (arith, all, cells-Redraws fb up h.screen first) in
                  Draws-bind (clear_from line_cells kept console.background up)
                    (clear_from-Redraws line_cells kept console.background up first.screen room)
                    (λ fb' later.
                      Draws-bind (sub fb.height height) (Draws-sub _ _ h.high) (λ cursor last.
                        drawn _ (
                          moved console fb fb' console.cursor_x cursor h
                              (Redraws-trans fb up fb' first later) (omega (arith, start))
                              (omega (arith, last, h.high)),
                          start,
                        )))))))

pub newline_locked-AtStart :
    (console : TextConsole) (fb : Framebuffer)
    → Shows console fb
    → Draws (AtStart console.font fb) (newline_locked console fb)
unfolding newline_locked
newline_locked-AtStart console fb h =
    let height = console.font.header.height in
    Draws-bind (mul32 2 height) (Draws-mul32 _ _ (omega (arith, h.high, h.height_small)))
      (λ two_lines doubled.
        Draws-bind (add32 console.cursor_y two_lines)
          (Draws-add32 _ _ (omega (arith, h.on_screen, h.high, h.height_small, doubled)))
          (λ bottom sum. elim (Bool-cases (ltb fb.height bottom)) [
            | inl full ↦
                let start = record console { cursor_x = 0 } in
                let at_start =
                  moved console fb fb 0 console.cursor_y h (Redraws-refl fb h.screen) (omega arith)
                    h.on_screen in
                rw full (scroll-AtStart start fb at_start.shows refl)
            | inr room ↦ rw room (
                Draws-bind (add32 console.cursor_y height)
                  (Draws-add32 _ _ (omega (arith, h.on_screen, h.height_small)))
                  (λ cursor next. drawn _ (
                    moved console fb fb 0 cursor h (Redraws-refl fb h.screen) (omega arith)
                        (ground (arith, room, sum, doubled, next)),
                    refl,
                  )))
          ]))

or_panic-get_elem? :
    (bytes : Bytes) (i : ℕ)
    → i < length bytes
    → Draws (λ b. Unit {0}) (or_panic (get_elem? bytes i))
unfolding or_panic
or_panic-get_elem? bytes i h = let (b, here) = lt-get_elem? bytes i h in rw here (drawn b tt)

-- The bit of a pixel of a glyph is in the glyph.
bit_inside :
    (row height col width per_line size : ℕ)
    → row < height
    → col < width
    → per_line ≡ (width + 7) / 8
    → height * per_line ≤ size
    → row * per_line + col / 8 < size
bit_inside row height col width per_line size hr hc hp hs =
    let scaled = mul-le-mul_right {m = suc row} {n = height} per_line hr in
    let column : col / 8 < per_line = omega arith in ground (arith, scaled, column, hs)

module _ (glyph : Bytes) (console : TextConsole) (per_line : ℕ)
    (pads : per_line ≡ (console.font.header.width + 7) / 8)
    (whole : console.font.header.height * per_line ≤ length glyph) (small : length glyph < u32_mod)
    (across : console.cursor_x + console.font.header.width < u32_mod)
    (down : console.cursor_y + console.font.header.height < u32_mod) where
  draw_glyph_row-Redraws :
      (row n col : ℕ) (fb : Framebuffer)
      → IsFramebuffer fb
      → row < console.font.header.height
      → col + n ≤ console.font.header.width
      → Draws (Redraws fb) (draw_glyph_row glyph console per_line row n col fb)
  unfolding draw_glyph_row
  draw_glyph_row-Redraws row zero col fb h in_height in_width = drawn fb (Redraws-refl fb h)
  draw_glyph_row-Redraws row (suc n) col fb h in_height in_width =
      let inside =
        bit_inside row console.font.header.height col console.font.header.width per_line
          (length glyph) in_height (omega arith) pads whole in
      Draws-bind (mul32 row per_line) (Draws-mul32 _ _ (omega (arith, inside, small)))
        (λ line lines.
          Draws-bind (add32 line (col / 8)) (Draws-add32 _ _ (omega (arith, inside, small, lines)))
            (λ index indices.
              Draws-bind (or_panic (get_elem? glyph index))
                (or_panic-get_elem? glyph index (omega (arith, inside, lines, indices)))
                (λ byte _.
                  Draws-bind (add32 console.cursor_x col) (Draws-add32 _ _ (omega (arith, across)))
                    (λ x _.
                      Draws-bind (add32 console.cursor_y row)
                        (Draws-add32 _ _ (omega (arith, down)))
                        (λ y _.
                          let color =
                            if byte / 2 ^ (7 - col % 8) % 2 == 1
                            then console.foreground
                            else console.background in
                          Draws-bind (set_pixel x y color fb) (set_pixel-Redraws x y color fb h)
                            (λ fb' first.
                              Draws-weaken
                                (draw_glyph_row-Redraws row n (suc col) fb' first.screen in_height
                                  (omega arith))
                                (λ fb'' later. Redraws-trans fb fb' fb'' first later)))))))

  pub draw_glyph-Redraws :
      (n row : ℕ) (fb : Framebuffer)
      → IsFramebuffer fb
      → row + n ≤ console.font.header.height
      → Draws (Redraws fb) (draw_glyph glyph console per_line n row fb)
  unfolding draw_glyph
  draw_glyph-Redraws zero row fb h in_height = drawn fb (Redraws-refl fb h)
  draw_glyph-Redraws (suc n) row fb h in_height =
      Draws-bind (draw_glyph_row glyph console per_line row console.font.header.width 0 fb)
        (draw_glyph_row-Redraws row console.font.header.width 0 fb h (omega arith) (omega arith))
        (λ fb' first.
          Draws-weaken (draw_glyph-Redraws n (suc row) fb' first.screen (omega arith))
            (λ fb'' later. Redraws-trans fb fb' fb'' first later))
