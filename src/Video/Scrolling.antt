-- ===== src/Video/Scrolling.antt =====
-- What the framebuffer shows after `scroll` of kernel/src/drivers/video/mod.rs.
use new_os.Base.{
  ℕ, zero, suc, ◌+◌, ◌*◌, ◌≤◌, ◌<◌, ◌≡◌, refl, sym, ap, ◌∙◌, arith, false, ◌&&◌, Bool-cases, inl,
  inr, some, List, [], ◌∷◌, ◌++◌, ltb, leb, lt→ltb, if◌then◌else◌, length, length-take, length-drop,
  get_elem?, get_elem?-drop, get_elem?-set_self, get_elem?-set_ne, set, take, drop,
}
use native.Mathlib.Nat.{mul-le-mul_left}
use new_os.Video.{
  Draw, done, add64, mul32, sub, Framebuffer, TextConsole, write_cell, clear_from, moved_up, scroll,
}
use new_os.Video.Pixels.{
  Draws, drawn, Draws-bind, Draws-weaken, Draws-add64, Draws-mul32, Draws-sub, IsFramebuffer,
  write_cell-Redraws, moved_up-Redraws, cells-Redraws,
}
use new_os.Video.Console.{Shows}

get_elem?-append :
    (xs ys : List ℕ) (i : ℕ) → i < length xs → get_elem? (xs ++ ys) i ≡ get_elem? xs i
get_elem?-append [] ys i h = absurd (omega arith)
get_elem?-append (x ∷ xs) ys zero h = refl
get_elem?-append (x ∷ xs) ys (suc i) h = get_elem?-append xs ys i (omega arith)

-- The cells after a write to each of a range.
abbrev Filled : ℕ → ℕ → ℕ → Framebuffer → Framebuffer → Type 0
Filled n start value fb fb' =
    (i : ℕ)
    → get_elem? fb'.cells i
      ≡ (if leb start i && ltb i (start + n) then some value else get_elem? fb.cells i)

set_get :
    (cells : List ℕ) (j i value : ℕ)
    → j < length cells
    → get_elem? (set cells j value) i
      ≡ (if leb j i && ltb i (j + 1) then some value else get_elem? cells i)
set_get cells j i value inside = elim (Bool-cases (leb j i && ltb i (j + 1))) [
  | inl here ↦
      let same : j ≡ i = ground (arith, here) in
      rw here
        (ap (get_elem? (set cells j value)) (sym same) ∙ get_elem?-set_self cells j value inside)
  | inr other ↦ rw other (get_elem?-set_ne cells j i value (λ e. ground (arith, other, e)))
]

-- A write gives the framebuffer with one other cell.
write_cell-set :
    (j value : ℕ) (fb : Framebuffer)
    → IsFramebuffer fb
    → j < length fb.cells
    → Draws (λ fb'. fb' ≡ record fb { cells = set fb.cells j value }) (write_cell j value fb)
unfolding write_cell
write_cell-set j value fb h inside =
    Draws-bind (add64 fb.addr (j * 4)) (Draws-add64 _ _ (omega (arith, h.below, h.cells, inside)))
      (λ address _. rw (lt→ltb j (length fb.cells) inside) (drawn _ refl))

-- Both of two properties of a result.
Draws-and :
    {A : Type 0} {P Q : A → Type 0} {m : Draw A} → Draws P m → Draws Q m → Draws (λ a. P a × Q a) m
Draws-and {A} {P} {Q} (drawn a p) q = drawn a (p, result a q)
  where
    result : (a : A) → Draws Q (done a) → Q a
    result _ (drawn _ q) = q

clear_from-Filled :
    (n start value : ℕ) (fb : Framebuffer)
    → IsFramebuffer fb
    → start + n ≤ length fb.cells
    → Draws (Filled n start value fb) (clear_from n start value fb)
unfolding clear_from
clear_from-Filled zero start value fb h room = drawn fb (λ i. ground arith)
clear_from-Filled (suc n) start value fb h room =
    let inside : start < length fb.cells = omega arith in
    Draws-bind (write_cell start value fb)
      (Draws-and (write_cell-Redraws start value fb h inside)
        (write_cell-set start value fb h inside))
      (λ fb' (first, same).
        Draws-weaken
          (clear_from-Filled n (suc start) value fb' first.screen
            (omega (arith, room, cells-Redraws fb fb' h first)))
          (λ fb'' later i.
            let one =
              ap (λ (b : Framebuffer). get_elem? b.cells i) same
              ∙ set_get fb.cells start i value inside in
            ground (arith, later i, one)))

moved_up-cells :
    (line kept : ℕ) (fb : Framebuffer)
    → line + kept ≡ length fb.cells
    → Draws
        (λ fb'. (i : ℕ) → i < kept → get_elem? fb'.cells i ≡ get_elem? fb.cells (line + i))
        (moved_up line kept fb)
unfolding moved_up
moved_up-cells line kept fb all =
    let within : ltb (length fb.cells) (line + kept) ≡ false = ground (arith, all) in
    rw within (
      drawn _ (λ i inside.
        get_elem?-append (take kept (drop line fb.cells)) (drop kept fb.cells) i (
          omega
            (arith, inside, all, length-take kept (drop line fb.cells), length-drop line fb.cells))
        ∙ get_elem?-drop fb.cells line kept i (line + i) inside refl))

-- What is shown after a line has left the framebuffer at the top.
abbrev pub IsScrolled : TextConsole → Framebuffer → TextConsole × Framebuffer → Type 0
IsScrolled console fb after =
    let line = fb.pitch * console.font.header.height in
    ((i : ℕ)
      → i + line < length fb.cells
      → get_elem? after.1.cells i ≡ get_elem? fb.cells (line + i))
    × ((i : ℕ)
        → length fb.cells ≤ i + line
        → i < length fb.cells
        → get_elem? after.1.cells i ≡ some console.background)
    × (after.0.cursor_y + console.font.header.height ≡ fb.height)

-- On a console with a well-formed font, with its cursor on a framebuffer of less than 2^30 by 2^30 pixels
-- whose cells are all there: `scroll` does not panic or write outside the framebuffer; every cell above the
-- last line of text then is the one a line of text below it, every cell of the last line is the background
-- colour, and the cursor is on the last line.
pub scroll_lem :
    (console : TextConsole) (fb : Framebuffer)
    → Shows console fb
    → Draws (IsScrolled console fb) (scroll console fb)
unfolding scroll
scroll_lem console fb h =
    let height = console.font.header.height in
    let line = mul-le-mul_left {m = height} {n = fb.height} fb.pitch h.high in
    Draws-bind (mul32 fb.pitch height) (Draws-mul32 _ _ (omega (arith, line, h.screen.small)))
      (λ line_cells lines.
        Draws-bind (mul32 fb.pitch fb.height) (Draws-mul32 _ _ h.screen.small) (λ total_cells total.
          Draws-bind (sub total_cells line_cells)
            (Draws-sub _ _ (omega (arith, line, lines, total)))
            (λ kept rest.
              let all : line_cells + kept ≡ length fb.cells =
                omega (arith, line, lines, total, rest, h.screen.cells) in
              Draws-bind (moved_up line_cells kept fb)
                (Draws-and (moved_up-Redraws line_cells kept fb h.screen all)
                  (moved_up-cells line_cells kept fb all))
                (λ up (first, moved).
                  let room : kept + line_cells ≤ length up.cells =
                    omega (arith, all, cells-Redraws fb up h.screen first) in
                  Draws-bind (clear_from line_cells kept console.background up)
                    (clear_from-Filled line_cells kept console.background up first.screen room)
                    (λ fb' filled.
                      Draws-bind (sub fb.height height) (Draws-sub _ _ h.high) (λ cursor last.
                        drawn _ (
                          (λ i above. ground (
                            arith,
                            filled i,
                            moved i (omega (arith, above, all, lines)),
                            all,
                            lines,
                            above,
                            ap (λ n. get_elem? fb.cells (n + i)) lines,
                          )),
                          (λ i low high. ground (arith, filled i, all, lines, low, high)),
                          omega (arith, last, h.high),
                        )))))))
