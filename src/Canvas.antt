-- ===== src/Canvas.antt =====
-- wasm/src/canvas.rs: a monitor's canvas and the drawing of a part of the desktop, or of a framebuffer,
-- on it. `Part` is about the bytes that are put, `Draw` and `Rgba` about the pixels.
pub mod Part
pub mod Draw
pub mod Rgba
pub mod Tests
use wasm_rdp.Prelude.{
  ℕ, ◌+◌, ◌-◌, ◌*◌, min, max, Bool, true, false, List, [], ◌++◌, take, drop, length, replicate, leb,
  ltb, ◌==◌, ◌&&◌, ◌||◌, Option, none, some, if◌then◌else◌, Outcome, returned, and_then, for_range,
}
use wasm_rdp.Gfx.{Rectangle, read_slice, write_slice}

-- The context and the element belong to the page; the cursors are not modelled.
pub record Canvas : Type 0 where
  pub origin_x : ℕ
  pub origin_y : ℕ
  pub width : ℕ
  pub height : ℕ
  pub rgba_buf : List ℕ

-- `put_image_data` of an image of that size at a place of the canvas.
pub record Put : Type 0 where
  pub pixels : List ℕ
  pub put_width : ℕ
  pub put_height : ℕ
  pub at_x : ℕ
  pub at_y : ℕ

-- Whether an `ImageData` of the bytes and sizes is created, and whether it is put.
pub record Page : Type 0 where
  pub creates : List ℕ → ℕ → ℕ → Bool
  pub puts : Put → Bool

-- `n - 1` in 32 bits, which wraps around.
abbrev pub pred32 : ℕ → ℕ
pred32 n = if n == 0 then 4294967295 else n - 1

-- `v.resize(n, 0)`
unfoldable pub resize_buf : ℕ → List ℕ → List ℕ
resize_buf n v = take n v ++ replicate (n - length v) 0

-- `Ok` or not, what was put, and the canvas.
abbrev pub Drawn : Type 0
Drawn = Bool × (Option Put × Canvas)

unfoldable pub put_image : Page → Put → Canvas → Drawn
put_image page p c =
    if page.creates (p.pixels) (p.put_width) (p.put_height)
    then (if page.puts p then (true, (some p, c)) else (false, (none, c)))
    else (false, (none, c))

-- The rows of a part of the framebuffer, each if it is within the framebuffer.
unfoldable pub copy_partial : ℕ → ℕ → ℕ → ℕ → ℕ → List ℕ → List ℕ → Outcome (List ℕ)
copy_partial iw sx0 sy0 w h src buf =
    for_range h 0
      (λ row out.
        if leb ((sy0 + row) * (iw * 4) + sx0 * 4 + w * 4) (length src)
        then (and_then (read_slice ((sy0 + row) * (iw * 4) + sx0 * 4) (w * 4) src)
            λ part. write_slice (row * (w * 4)) part out)
        else returned out)
      buf

-- The part from `(sx0, sy0)` of `w` by `h` pixels, put at `(dx, dy)`.
unfoldable pub draw_part : Page → ℕ → List ℕ → ℕ → ℕ → ℕ → ℕ → ℕ → ℕ → Canvas → Outcome Drawn
draw_part page iw src sx0 sy0 w h dx dy c =
    let put : List ℕ → Put =
      λ bytes. record { pixels = bytes; put_width = w; put_height = h; at_x = dx; at_y = dy } in
    let start = sy0 * (iw * 4) in
    if (w == iw && sx0 == 0) && leb (start + w * h * 4) (length src)
    then (and_then (read_slice start (w * h * 4) src)
        λ slice. returned (put_image page (put slice) c))
    else (and_then (copy_partial iw sx0 sy0 w h src (resize_buf (w * h * 4) (c.rgba_buf)))
        λ bytes. returned (put_image page (put bytes) (record c { rgba_buf = bytes })))

unfoldable pub draw : Page → ℕ → List ℕ → Rectangle → Canvas → Outcome Drawn
draw page iw src region c =
    let sx0 = max (region.left) (c.origin_x) in
    let sy0 = max (region.top) (c.origin_y) in
    let sx1 = min (region.right) (pred32 (c.origin_x + c.width)) in
    let sy1 = min (region.bottom) (pred32 (c.origin_y + c.height)) in
    if ltb sx1 sx0 || ltb sy1 sy0
    then returned (true, (none, c))
    else draw_part page iw src sx0 sy0 (sx1 - sx0 + 1) (sy1 - sy0 + 1) (sx0 - c.origin_x)
        (sy0 - c.origin_y) c

-- The element takes the size, and its context the default settings.
unfoldable pub resize : ℕ → ℕ → Canvas → Canvas
resize width height c =
    if c.width == width && c.height == height
    then c
    else record c { width = width; height = height; rgba_buf = [] }

-- A raw framebuffer of `sw` by `sh` pixels, which stands at `(ox, oy)` of the desktop.
unfoldable pub draw_rgba : Page → List ℕ → ℕ → ℕ → ℕ → ℕ → Rectangle → Canvas → Outcome Drawn
draw_rgba page src sw sh ox oy region c =
    let sx0 = max (max (region.left) (c.origin_x)) ox in
    let sy0 = max (max (region.top) (c.origin_y)) oy in
    let sx1 = min (min (region.right) (pred32 (c.origin_x + c.width))) (pred32 (ox + sw)) in
    let sy1 = min (min (region.bottom) (pred32 (c.origin_y + c.height))) (pred32 (oy + sh)) in
    if ltb sx1 sx0 || ltb sy1 sy0
    then returned (true, (none, c))
    else draw_part page sw src (sx0 - ox) (sy0 - oy) (sx1 - sx0 + 1) (sy1 - sy0 + 1)
        (sx0 - c.origin_x) (sy0 - c.origin_y) c
