-- ===== src/Video/Pixels.antt =====
-- What is drawn on the framebuffer of kernel/src/drivers/video/mod.rs stays inside it.
use new_os.Base.{
  ℕ, zero, suc, ◌+◌, ◌-◌, ◌*◌, ◌≤◌, ◌<◌, ◌≡◌, refl, sym, ◌∙◌, arith, false, ◌||◌, Bool-cases, inl,
  inr, ltb, leb, lt→ltb, length, length-set, length-append, length-take, length-drop, take, drop,
  ◌++◌, u32_mod, u64_mod,
}
use native.Mathlib.Nat.{mul-le-mul_right, mul_comm}
use new_os.Video.{
  Draw, done, ◌>>=◌, add32, mul32, add64, sub, Framebuffer, write_cell, encoded, set_pixel,
  clear_from, clear, draw_row, draw_rows, draw_rect, moved_up,
}

-- A result with a property; neither a panic nor an access outside the framebuffer.
pub data Draws {A : Type 0} (P : A → Type 0) : Draw A → Type 0 where
  drawn : (a : A) → P a → Draws P (done a)

module _ {A : Type 0} where
  pub Draws-bind :
      {B : Type 0} {P : A → Type 0} {Q : B → Type 0} (m : Draw A) {f : A → Draw B}
      → Draws P m
      → ((a : A) → P a → Draws Q (f a))
      → Draws Q (m >>= f)
  unfolding ◌>>=◌
  Draws-bind _ (drawn a h) next = next a h

  pub Draws-weaken : {P Q : A → Type 0} {m : Draw A} → Draws P m → ((a : A) → P a → Q a) → Draws Q m
  Draws-weaken (drawn a h) f = drawn a (f a h)

pub Draws-add32 : (a b : ℕ) → a + b < u32_mod → Draws (λ c. c ≡ a + b) (add32 a b)
unfolding add32
Draws-add32 a b h = rw (lt→ltb (a + b) u32_mod h) (drawn (a + b) refl)

pub Draws-mul32 : (a b : ℕ) → a * b < u32_mod → Draws (λ c. c ≡ a * b) (mul32 a b)
unfolding mul32
Draws-mul32 a b h = rw (lt→ltb (a * b) u32_mod h) (drawn (a * b) refl)

pub Draws-add64 : (a b : ℕ) → a + b < u64_mod → Draws (λ c. c ≡ a + b) (add64 a b)
unfolding add64
Draws-add64 a b h = rw (lt→ltb (a + b) u64_mod h) (drawn (a + b) refl)

pub Draws-sub : (a b : ℕ) → b ≤ a → Draws (λ c. c ≡ a - b) (sub a b)
unfolding sub
Draws-sub a b h = let enough : ltb a b ≡ false = ground (arith, h) in rw enough (drawn (a - b) refl)

-- The cells are those of `height` lines of `pitch` pixels, below the largest address.
pub record IsFramebuffer (fb : Framebuffer) : Type 0 where
  pub lines : fb.width ≤ fb.pitch
  pub cells : length fb.cells ≡ fb.pitch * fb.height
  pub small : fb.pitch * fb.height < u32_mod
  pub below : fb.addr + 4 * (fb.pitch * fb.height) < u64_mod

-- The same framebuffer with other cells.
pub record Redraws (fb fb' : Framebuffer) : Type 0 where
  pub screen : IsFramebuffer fb'
  pub width : fb'.width ≡ fb.width
  pub height : fb'.height ≡ fb.height
  pub pitch : fb'.pitch ≡ fb.pitch

pub Redraws-refl : (fb : Framebuffer) → IsFramebuffer fb → Redraws fb fb
Redraws-refl fb h = record { screen = h; width = refl; height = refl; pitch = refl }

pub Redraws-trans : (a b c : Framebuffer) → Redraws a b → Redraws b c → Redraws a c
Redraws-trans a b c first later = record {
  screen = later.screen;
  width = later.width ∙ first.width;
  height = later.height ∙ first.height;
  pitch = later.pitch ∙ first.pitch;
}

pub write_cell-Redraws :
    (i value : ℕ) (fb : Framebuffer)
    → IsFramebuffer fb
    → i < length fb.cells
    → Draws (Redraws fb) (write_cell i value fb)
unfolding write_cell
write_cell-Redraws i value fb h inside =
    Draws-bind (add64 fb.addr (i * 4)) (Draws-add64 _ _ (omega (arith, h.below, h.cells)))
      (λ address _. rw (lt→ltb i (length fb.cells) inside) (
        drawn _ (record {
          screen = record {
            lines = h.lines;
            cells = length-set fb.cells i value ∙ h.cells;
            small = h.small;
            below = h.below;
          };
          width = refl;
          height = refl;
          pitch = refl;
        })))

-- A pixel on the screen has a cell.
cell_of :
    (x y width height pitch : ℕ)
    → x < width
    → y < height
    → width ≤ pitch
    → y * pitch + x < pitch * height
cell_of x y width height pitch hx hy hw =
    let scaled = mul-le-mul_right {m = suc y} {n = height} pitch hy in ground (arith, scaled)

pub set_pixel-Redraws :
    (x y color : ℕ) (fb : Framebuffer)
    → IsFramebuffer fb
    → Draws (Redraws fb) (set_pixel x y color fb)
unfolding set_pixel
set_pixel-Redraws x y color fb h = elim (Bool-cases (leb fb.width x || leb fb.height y)) [
  | inl outside ↦ rw outside (drawn fb (Redraws-refl fb h))
  | inr inside ↦
      let cell =
        cell_of x y fb.width fb.height fb.pitch (ground (arith, inside)) (ground (arith, inside))
          h.lines in
      rw inside (
        Draws-bind (mul32 y fb.pitch) (Draws-mul32 _ _ (omega (arith, cell, h.small))) (λ row rows.
          Draws-bind (add32 row x) (Draws-add32 _ _ (omega (arith, cell, h.small, rows)))
            (λ i index.
              write_cell-Redraws i (encoded fb.format color) fb h
                (omega (arith, cell, h.cells, rows, index)))))
]

pub cells-Redraws :
    (fb fb' : Framebuffer) → IsFramebuffer fb → Redraws fb fb' → length fb'.cells ≡ length fb.cells
cells-Redraws fb fb' h r = r.screen.cells ∙ ap2_mul r.pitch r.height ∙ sym h.cells
  where
    ap2_mul : {a b c d : ℕ} → a ≡ b → c ≡ d → a * c ≡ b * d
    ap2_mul e f = cc

pub clear_from-Redraws :
    (n i value : ℕ) (fb : Framebuffer)
    → IsFramebuffer fb
    → i + n ≤ length fb.cells
    → Draws (Redraws fb) (clear_from n i value fb)
unfolding clear_from
clear_from-Redraws zero i value fb h room = drawn fb (Redraws-refl fb h)
clear_from-Redraws (suc n) i value fb h room =
    Draws-bind (write_cell i value fb) (write_cell-Redraws i value fb h (omega arith)) (λ fb' first.
      Draws-weaken
        (clear_from-Redraws n (suc i) value fb' first.screen
          (omega (arith, room, cells-Redraws fb fb' h first)))
        (λ fb'' later. Redraws-trans fb fb' fb'' first later))

pub draw_row-Redraws :
    (n j i color : ℕ) (fb : Framebuffer)
    → IsFramebuffer fb
    → Draws (Redraws fb) (draw_row n j i color fb)
unfolding draw_row
draw_row-Redraws zero j i color fb h = drawn fb (Redraws-refl fb h)
draw_row-Redraws (suc n) j i color fb h =
    Draws-bind (set_pixel j i color fb) (set_pixel-Redraws j i color fb h) (λ fb' first.
      Draws-weaken (draw_row-Redraws n (suc j) i color fb' first.screen)
        (λ fb'' later. Redraws-trans fb fb' fb'' first later))

draw_rows-Redraws :
    (n x w i color : ℕ) (fb : Framebuffer)
    → IsFramebuffer fb
    → x + w < u32_mod
    → Draws (Redraws fb) (draw_rows n x w i color fb)
unfolding draw_rows
draw_rows-Redraws zero x w i color fb h small = drawn fb (Redraws-refl fb h)
draw_rows-Redraws (suc n) x w i color fb h small =
    Draws-bind (add32 x w) (Draws-add32 x w small) (λ right _.
      Draws-bind (draw_row (right - x) x i color fb) (draw_row-Redraws (right - x) x i color fb h)
        (λ fb' first.
          Draws-weaken (draw_rows-Redraws n x w (suc i) color fb' first.screen small)
            (λ fb'' later. Redraws-trans fb fb' fb'' first later)))

-- A rectangle may reach over the edges of the framebuffer.
pub draw_rect-Redraws :
    (x y w h color : ℕ) (fb : Framebuffer)
    → IsFramebuffer fb
    → x + w < u32_mod
    → y + h < u32_mod
    → Draws (Redraws fb) (draw_rect x y w h color fb)
unfolding draw_rect
draw_rect-Redraws x y w h color fb valid across down =
    Draws-bind (add32 y h) (Draws-add32 y h down)
      (λ bottom _. draw_rows-Redraws (bottom - y) x w y color fb valid across)

pub clear-Redraws :
    (color : ℕ) (fb : Framebuffer) → IsFramebuffer fb → Draws (Redraws fb) (clear color fb)
unfolding clear
clear-Redraws color fb h =
    let swap : fb.height * fb.pitch ≡ fb.pitch * fb.height = mul_comm fb.height fb.pitch in
    Draws-bind (mul32 fb.height fb.pitch) (Draws-mul32 _ _ (omega (arith, swap, h.small)))
      (λ count all. clear_from-Redraws count 0 color fb h (omega (arith, all, swap, h.cells)))

pub moved_up-Redraws :
    (line kept : ℕ) (fb : Framebuffer)
    → IsFramebuffer fb
    → line + kept ≡ length fb.cells
    → Draws (Redraws fb) (moved_up line kept fb)
unfolding moved_up
moved_up-Redraws line kept fb h all =
    let within : ltb (length fb.cells) (line + kept) ≡ false = ground (arith, all) in
    let cells : length (take kept (drop line fb.cells) ++ drop kept fb.cells) ≡ length fb.cells =
      omega (
        arith,
        length-append (take kept (drop line fb.cells)) (drop kept fb.cells),
        length-take kept (drop line fb.cells),
        length-drop line fb.cells,
        length-drop kept fb.cells,
        all,
      ) in
    rw within (
      drawn _ (record {
        screen = record {
          lines = h.lines;
          cells = cells ∙ h.cells;
          small = h.small;
          below = h.below;
        };
        width = refl;
        height = refl;
        pitch = refl;
      }))
