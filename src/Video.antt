-- ===== src/Video.antt =====
-- The text console on the framebuffer (kernel/src/drivers/video/mod.rs) and its font
-- (kernel/src/drivers/video/psf.rs). The framebuffer is its 32-bit cells, and a character is its code
-- point.
pub mod Font
pub mod Pixels
pub mod Console
pub mod Writing
pub mod Scrolling
pub mod Tests
use Prim.Native.Nat.{bit_and, bit_or}
use new_os.Base.{
  ℕ, zero, suc, ◌+◌, ◌-◌, ◌*◌, ◌/◌, ◌%◌, ◌^◌, Bool, true, false, ◌||◌, not, Option, none, some,
  List, [], ◌∷◌, ◌++◌, ltb, leb, ◌==◌, if◌then◌else◌, length, take, drop, set, get_elem?, Bytes,
  bytes_eq, from_le, slice, u32_mod, u64_mod,
}

-- A result, a panic, or an access outside the framebuffer.
pub data Draw (A : Type 0) : Type 0 where
  done : A → Draw A
  panics : Draw A
  strays : Draw A

infixl 5 ◌>>=◌
unfoldable pub ◌>>=◌ : {A B : Type 0} → Draw A → (A → Draw B) → Draw B
done a >>= f = f a
panics >>= f = panics
strays >>= f = strays

-- `a + b` and `a * b` of u32, and of u64 and usize.
unfoldable pub add32 : ℕ → ℕ → Draw ℕ
add32 a b = if ltb (a + b) u32_mod then done (a + b) else panics

unfoldable pub mul32 : ℕ → ℕ → Draw ℕ
mul32 a b = if ltb (a * b) u32_mod then done (a * b) else panics

unfoldable pub add64 : ℕ → ℕ → Draw ℕ
add64 a b = if ltb (a + b) u64_mod then done (a + b) else panics

unfoldable pub mul64 : ℕ → ℕ → Draw ℕ
mul64 a b = if ltb (a * b) u64_mod then done (a * b) else panics

-- `a - b` of any width.
unfoldable pub sub : ℕ → ℕ → Draw ℕ
sub a b = if ltb a b then panics else done (a - b)

-- An index or a slice out of range.
unfoldable pub or_panic : {A : Type 0} → Option A → Draw A
or_panic none = panics
or_panic (some a) = done a

pub record Psf2Header : Type 0 where
  pub magic : Bytes
  pub version : ℕ
  pub header_size : ℕ
  pub flags : ℕ
  pub length : ℕ
  pub char_size : ℕ
  pub height : ℕ
  pub width : ℕ

pub record Psf2Font : Type 0 where
  pub header : Psf2Header
  pub glyphs : Bytes

abbrev word_at : Bytes → ℕ → ℕ
word_at data_bytes pos = from_le (take 4 (drop pos data_bytes))

-- The header that the bytes are read as.
abbrev pub header_at : Bytes → Psf2Header
header_at data_bytes = record {
  magic = take 4 data_bytes;
  version = word_at data_bytes 4;
  header_size = word_at data_bytes 8;
  flags = word_at data_bytes 12;
  length = word_at data_bytes 16;
  char_size = word_at data_bytes 20;
  height = word_at data_bytes 24;
  width = word_at data_bytes 28;
}

-- The part of `Psf2Font::new` behind the test of the magic number.
unfoldable pub font_of : Bytes → Psf2Header → Draw (Option Psf2Font)
unfolding slice
font_of data_bytes header = do
  glyph_bytes ← mul32 header.length header.char_size
  glyphs_end ← add64 header.header_size glyph_bytes
  if ltb (length data_bytes) glyphs_end then done none else (do
    glyphs ← or_panic (slice data_bytes header.header_size glyphs_end)
    done (some (record { header = header; glyphs = glyphs })))

unfoldable pub new : Bytes → Draw (Option Psf2Font)
unfolding bytes_eq font_of from_le
new data_bytes =
    if ltb (length data_bytes) 32
    then done none
    else if not (bytes_eq (header_at data_bytes).magic (0x72 ∷ 0xb5 ∷ 0x4a ∷ 0x86 ∷ []))
    then done none
    else font_of data_bytes (header_at data_bytes)

unfoldable pub get_glyph : ℕ → Psf2Font → Draw (Option Bytes)
unfolding slice
get_glyph c font = if leb font.header.length c then done none else (do
  start ← mul64 c font.header.char_size
  end ← add64 start font.header.char_size
  glyph ← or_panic (slice font.glyphs start end)
  done (some glyph))

pub record Framebuffer : Type 0 where
  pub addr : ℕ
  pub width : ℕ
  pub height : ℕ
  pub pitch : ℕ
  pub format : ℕ
  -- The cells from `addr` on.
  pub cells : List ℕ

pub record TextConsole : Type 0 where
  pub font : Psf2Font
  pub cursor_x : ℕ
  pub cursor_y : ℕ
  pub foreground : ℕ
  pub background : ℕ

-- The volatile write to the cell of an index.
unfoldable pub write_cell : ℕ → ℕ → Framebuffer → Draw Framebuffer
write_cell i value fb = do
  address ← add64 fb.addr (i * 4)
  if ltb i (length fb.cells) then done (record fb { cells = set fb.cells i value }) else strays

-- The colour as the format has it.
unfoldable pub encoded : ℕ → ℕ → ℕ
encoded format color =
    if format == 1
    then color
    else bit_or (bit_or (bit_and color 0xff * 2 ^ 16) (bit_and color 0xff00))
        (bit_and color 0xff0000 / 2 ^ 16)

unfoldable pub set_pixel : ℕ → ℕ → ℕ → Framebuffer → Draw Framebuffer
unfolding write_cell encoded
set_pixel x y color fb =
    if leb fb.width x || leb fb.height y
    then done fb
    else (do row ← mul32 y fb.pitch; i ← add32 row x; write_cell i (encoded fb.format color) fb)

-- `clear`: `n` rounds from a cell on.
unfoldable pub clear_from : ℕ → ℕ → ℕ → Framebuffer → Draw Framebuffer
unfolding write_cell
clear_from zero i value fb = done fb
clear_from (suc n) i value fb = do fb' ← write_cell i value fb; clear_from n (suc i) value fb'

unfoldable pub clear : ℕ → Framebuffer → Draw Framebuffer
unfolding clear_from
clear color fb = do count ← mul32 fb.height fb.pitch; clear_from count 0 color fb

-- The inner loop of `draw_rect`, `n` pixels from a column on.
unfoldable pub draw_row : ℕ → ℕ → ℕ → ℕ → Framebuffer → Draw Framebuffer
unfolding set_pixel
draw_row zero j i color fb = done fb
draw_row (suc n) j i color fb = do fb' ← set_pixel j i color fb; draw_row n (suc j) i color fb'

-- The outer loop, `n` rows from a row on.
unfoldable pub draw_rows : ℕ → ℕ → ℕ → ℕ → ℕ → Framebuffer → Draw Framebuffer
unfolding draw_row
draw_rows zero x w i color fb = done fb
draw_rows (suc n) x w i color fb = do
  right ← add32 x w
  fb' ← draw_row (right - x) x i color fb
  draw_rows n x w (suc i) color fb'

unfoldable pub draw_rect : ℕ → ℕ → ℕ → ℕ → ℕ → Framebuffer → Draw Framebuffer
unfolding draw_rows
draw_rect x y w h color fb = do bottom ← add32 y h; draw_rows (bottom - y) x w y color fb

abbrev pub console_of : Psf2Font → TextConsole
console_of font = record {
  font = font;
  cursor_x = 0;
  cursor_y = 0;
  foreground = 0xffffff;
  background = 0x001a2a;
}

-- `core::ptr::copy` of `kept` cells behind the first line to the start of the framebuffer.
unfoldable pub moved_up : ℕ → ℕ → Framebuffer → Draw Framebuffer
moved_up line_cells kept fb =
    if ltb (length fb.cells) (line_cells + kept)
    then strays
    else done (record fb { cells = take kept (drop line_cells fb.cells) ++ drop kept fb.cells })

-- On the cells: a line of pixels has 4 * pitch bytes.
unfoldable pub scroll : TextConsole → Framebuffer → Draw (TextConsole × Framebuffer)
unfolding moved_up clear_from
scroll console fb = do
  line_cells ← mul32 fb.pitch console.font.header.height
  total_cells ← mul32 fb.pitch fb.height
  kept ← sub total_cells line_cells
  moved ← moved_up line_cells kept fb
  fb' ← clear_from line_cells kept console.background moved
  cursor ← sub fb.height console.font.header.height
  done (record console { cursor_y = cursor }, fb')

unfoldable pub newline_locked : TextConsole → Framebuffer → Draw (TextConsole × Framebuffer)
unfolding scroll
newline_locked console fb = do
  two_lines ← mul32 2 console.font.header.height
  bottom ← add32 console.cursor_y two_lines
  if ltb fb.height bottom then scroll (record console { cursor_x = 0 }) fb else (do
    cursor ← add32 console.cursor_y console.font.header.height
    done (record console { cursor_x = 0; cursor_y = cursor }, fb))

abbrev pub Screen : Type 0
Screen = TextConsole × Option Framebuffer

-- A result on a framebuffer that there is.
unfoldable pub shown : TextConsole × Framebuffer → Draw Screen
shown (console, fb) = done (console, some fb)

unfoldable pub newline : Screen → Draw Screen
unfolding newline_locked shown
newline (console, none) = done (console, none)
newline (console, some fb) = newline_locked console fb >>= shown

-- The loop of `write_char` over the columns of a row of the glyph, `n` of them from a column on.
unfoldable pub draw_glyph_row : Bytes → TextConsole → ℕ → ℕ → ℕ → ℕ → Framebuffer → Draw Framebuffer
unfolding set_pixel
draw_glyph_row glyph console bytes_per_line row zero col fb = done fb
draw_glyph_row glyph console bytes_per_line row (suc n) col fb = do
  line ← mul32 row bytes_per_line
  index ← add32 line (col / 8)
  byte ← or_panic (get_elem? glyph index)
  x ← add32 console.cursor_x col
  y ← add32 console.cursor_y row
  let is_set = byte / 2 ^ (7 - col % 8) % 2 == 1
  fb' ← set_pixel x y (if is_set then console.foreground else console.background) fb
  draw_glyph_row glyph console bytes_per_line row n (suc col) fb'

-- The loop over the rows, `n` of them from a row on.
unfoldable pub draw_glyph : Bytes → TextConsole → ℕ → ℕ → ℕ → Framebuffer → Draw Framebuffer
unfolding draw_glyph_row
draw_glyph glyph console bytes_per_line zero row fb = done fb
draw_glyph glyph console bytes_per_line (suc n) row fb = do
  fb' ← draw_glyph_row glyph console bytes_per_line row console.font.header.width 0 fb
  draw_glyph glyph console bytes_per_line n (suc row) fb'

-- The break of a line that is full.
unfoldable pub wrap : TextConsole → Framebuffer → Draw (TextConsole × Framebuffer)
unfolding newline_locked
wrap console fb = do
  right ← add32 console.cursor_x console.font.header.width
  if ltb fb.width right then newline_locked console fb else done (console, fb)

-- The part of `write_char` behind the break.
unfoldable pub put_glyph : Bytes → ℕ → TextConsole × Framebuffer → Draw Screen
unfolding draw_glyph
put_glyph glyph bytes_per_line (console, fb) = do
  fb' ← draw_glyph glyph console bytes_per_line console.font.header.height 0 fb
  x ← add32 console.cursor_x console.font.header.width
  done (record console { cursor_x = x }, some fb')

-- The part behind the look-up of the glyph.
unfoldable pub write_glyph : Option Bytes → Screen → Draw Screen
unfolding wrap put_glyph
write_glyph none (console, fb) = done (console, fb)
write_glyph (some glyph) (console, none) = do
  padded ← add32 console.font.header.width 7
  done (console, none)
write_glyph (some glyph) (console, some fb) = do
  padded ← add32 console.font.header.width 7
  wrapped ← wrap console fb
  put_glyph glyph (padded / 8) wrapped

unfoldable pub write_char : ℕ → Screen → Draw Screen
unfolding newline get_glyph write_glyph
write_char c (console, fb) =
    if c == 10
    then newline (console, fb)
    else (do glyph ← get_glyph c console.font; write_glyph glyph (console, fb))

unfoldable pub write_str : List ℕ → Screen → Draw Screen
unfolding write_char
write_str [] screen = done screen
write_str (c ∷ cs) screen = do screen' ← write_char c screen; write_str cs screen'

unfoldable pub backspace : Screen → Draw Screen
unfolding draw_rect
backspace (console, fb) =
    let moved = record console { cursor_x = console.cursor_x - console.font.header.width } in
    if ltb console.cursor_x console.font.header.width then done (console, fb) else elim fb [
      | none ↦ done (moved, none)
      | some b ↦ do
        b' ←
            draw_rect moved.cursor_x moved.cursor_y console.font.header.width
              console.font.header.height console.background b
        done (moved, some b')
    ]
