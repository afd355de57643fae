-- ===== src/Canvas/Tests.antt =====
-- wasm/src/canvas.rs: `draw` and `draw_rgba` at concrete inputs.
use wasm_rdp.Prelude.{ℕ, ◌-◌, ◌*◌, refl, true, List, [], ◌∷◌, length, ◌==◌, ==_refl, Returns, arith}
use wasm_rdp.Gfx.{Rectangle}
use wasm_rdp.Canvas.{Canvas, Page, draw, draw_rgba}
use wasm_rdp.Canvas.Part.{Works}
use wasm_rdp.Canvas.Draw.{Shows, ShowsAt, draw-Shows}
use wasm_rdp.Canvas.Rgba.{within, draw_rgba-ShowsAt}

-- A page that checks the size of an image, as `ImageData` does.
abbrev checking : Page
checking = record { creates = λ bytes w h. length bytes == w * h * 4; puts = λ p. true }

checking-Works : Works checking
checking-Works = record { created = λ bytes w h e _ _. rw e (==_refl (w * h * 4)); put = λ p. refl }

-- The second of two monitors of one pixel each.
abbrev second_monitor : Canvas
second_monitor = record { origin_x = 1; origin_y = 0; width = 1; height = 1; rgba_buf = [] }

abbrev desktop : List ℕ
desktop = 1 ∷ 2 ∷ 3 ∷ 4 ∷ 5 ∷ 6 ∷ 7 ∷ 8 ∷ []

abbrev whole : Rectangle
whole = record { left = 0; top = 0; right = 1; bottom = 0 }

draw-Shows_example :
    Returns (Shows 2 desktop whole second_monitor) (draw checking 2 desktop whole second_monitor)
draw-Shows_example =
    draw-Shows checking 2 1 desktop whole second_monitor checking-Works refl (omega arith)
      (omega arith) (omega arith) (omega arith)

-- A framebuffer of two pixels, of which the second stands on the second monitor's canvas.
draw_rgba-ShowsAt_example :
    Returns
      (ShowsAt (λ p. p - 0) (λ p. p - 0) 2 desktop (within 2 1 0 0 whole) second_monitor)
      (draw_rgba checking desktop 2 1 0 0 whole second_monitor)
draw_rgba-ShowsAt_example =
    draw_rgba-ShowsAt checking desktop 2 1 0 0 whole second_monitor checking-Works refl
      (omega arith) (omega arith) (omega arith) (omega arith)
