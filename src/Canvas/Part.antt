-- ===== src/Canvas/Part.antt =====
-- wasm/src/canvas.rs: the bytes that `draw` puts, on its fast path and on the other.
use wasm_rdp.Prelude.{
  ℕ, ◌+◌, ◌-◌, ◌*◌, ◌≤◌, ◌<◌, ◌≡◌, refl, ap, ◌∙◌, true, ◌&&◌, List, some, length, length-append,
  length-take, length-drop, length-replicate, get_elem?, take, drop, replicate, leb, ltb, le→leb,
  ◌==◌, if◌then◌else◌, returned, and_then, Returns, returns, Returns-and_then, Returns-if, arith,
}
use wasm_rdp.Gfx.{read_slice, write_slice}
use wasm_rdp.Gfx.Frame.{Sized, in_frame}
use wasm_rdp.Gfx.Bytes.{for_between, Returns-map, place}
use wasm_rdp.Gfx.Copy.{Copied, copy_row-Copied, get_taken, no_rows}
use wasm_rdp.Canvas.{Canvas, Put, Page, Drawn, resize_buf, put_image, copy_partial, draw_part}

-- The bytes of the part of `w` by `h` pixels at `(x, y)` of a framebuffer.
pub record Part (iw x y w h : ℕ) (src bytes : List ℕ) : Type 0 where
  pub part_size : Sized (w * h * 4) bytes
  pub part_pixels :
      (px py c : ℕ)
      → px < w
      → py < h
      → c < 4
      → get_elem? bytes (place w px py c) ≡ get_elem? src (place iw (x + px) (y + py) c)

module _ (iw ih x y w h : ℕ) (src : List ℕ) (size : length src ≡ iw * ih * 4) (right : x + w ≤ iw)
    (below : y + h ≤ ih) where
  row-Copied :
      (row : ℕ) (buf out : List ℕ)
      → row < h
      → Copied iw w h x y 0 0 w src buf row out
      → Returns (Copied iw w h x y 0 0 w src buf (row + 1)) (
          if leb ((y + row) * (iw * 4) + x * 4 + w * 4) (length src)
          then (and_then
              (read_slice ((y + row) * (iw * 4) + x * 4) (w * 4) src)
              λ part. write_slice (row * (w * 4)) part out)
          else returned out)
  row-Copied row buf out k p =
      let fits : (y + row) * (iw * 4) + x * 4 + w * 4 ≤ length src =
        omega (arith, size, in_frame iw ih x (y + row) w (omega arith) right) in
      rw (le→leb ((y + row) * (iw * 4) + x * 4 + w * 4) (length src) fits) (
        copy_row-Copied iw w h x y 0 0 w src buf ih row ((y + row) * (iw * 4) + x * 4)
          (row * (w * 4)) out (omega arith) target (omega arith) (omega arith) right (omega arith)
          size p)
    where
      target : row * (w * 4) ≡ place w 0 (0 + row) 0
      target = let same : 0 + row ≡ row = omega arith in rw same (omega arith)

  copy_partial-Part :
      (buf : List ℕ)
      → Sized (w * h * 4) buf
      → Returns (Part iw x y w h src) (copy_partial iw x y w h src buf)
  unfolding copy_partial
  copy_partial-Part buf sized =
      Returns-map
        (rw (minus_zero h) at (
          for_between (Copied iw w h x y 0 0 w src buf) 0 h
            (λ row out.
              if leb ((y + row) * (iw * 4) + x * 4 + w * 4) (length src)
              then (and_then (read_slice ((y + row) * (iw * 4) + x * 4) (w * 4) src)
                  λ part. write_slice (row * (w * 4)) part out)
              else returned out)
            buf (omega arith) (λ row out _ k p. row-Copied row buf out k p)
            (record {
              sized = sized;
              pixels = λ px py c _ _ _.
                  rw (← no_rows iw w h x y 0 0 w src buf (leb 0 px && ltb px (0 + w)) py);
            })))
        λ out p. record {
          part_size = p.sized;
          part_pixels = λ px py c a b d.
              p.pixels px py c a b d ∙ rw (everywhere px py a b, minus_zero px, minus_zero py);
        }
    where
      minus_zero : (k : ℕ) → k - 0 ≡ k
      minus_zero k = omega arith

      everywhere :
          (px py : ℕ)
          → px < w
          → py < h
          → ((leb 0 py && ltb py (0 + h)) && (leb 0 px && ltb px (0 + w))) ≡ true
      everywhere px py a b = ground arith

  slice-Part :
      w ≡ iw
      → x ≡ 0
      → y * (iw * 4) + w * h * 4 ≤ length src
      → Returns (Part iw x y w h src) (read_slice (y * (iw * 4)) (w * h * 4) src)
  unfolding read_slice
  slice-Part e z fits = rw (le→leb (y * (iw * 4) + w * h * 4) (length src) fits) (
      returns (record {
        part_size = omega (
          arith,
          length-take (w * h * 4) (drop (y * (iw * 4)) src),
          length-drop (y * (iw * 4)) src,
        );
        part_pixels = λ px py c a b d.
            get_taken (y * (iw * 4)) (w * h * 4) (place w px py c) src (within px py c a b d)
            ∙ ap (λ k. get_elem? src k) (shift px py c);
      }))
    where
      within : (px py c : ℕ) → px < w → py < h → c < 4 → place w px py c < w * h * 4
      within px py c a b d = omega (arith, in_frame w h px py 1 b (omega arith))

      shift : (px py c : ℕ) → y * (iw * 4) + place w px py c ≡ place iw (x + px) (y + py) c
      shift px py c = rw (e, z) (omega arith)

-- A page that creates an image of the right size and puts every image.
pub record Works (page : Page) : Type 0 where
  pub created :
      (bytes : List ℕ) (w h : ℕ)
      → length bytes ≡ w * h * 4
      → 0 < w
      → 0 < h
      → page.creates bytes w h ≡ true
  pub put : (p : Put) → page.puts p ≡ true

-- What was put is a part of the framebuffer.
pub record PutPart (iw x y w h dx dy : ℕ) (src : List ℕ) (r : Drawn) : Type 0 where
  pub done : r.0 ≡ true
  pub bytes : List ℕ
  pub part : Part iw x y w h src bytes
  pub was_put :
      (r.1).0
      ≡ some (record { pixels = bytes; put_width = w; put_height = h; at_x = dx; at_y = dy })

put_image-PutPart :
    (page : Page) (iw x y w h dx dy : ℕ) (src bytes : List ℕ) (c : Canvas)
    → Works page
    → 0 < w
    → 0 < h
    → Part iw x y w h src bytes
    → PutPart iw x y w h dx dy src (
        put_image page
          (record { pixels = bytes; put_width = w; put_height = h; at_x = dx; at_y = dy })
          c)
unfolding put_image
put_image-PutPart page iw x y w h dx dy src bs c works a b p =
    rw
      (
        works.created bs w h (p.part_size) a b,
        works.put (record { pixels = bs; put_width = w; put_height = h; at_x = dx; at_y = dy }),
      )
      (record { done = refl; bytes = bs; part = p; was_put = refl })

length-resize_buf : (n : ℕ) (v : List ℕ) → length (resize_buf n v) ≡ n
unfolding resize_buf
length-resize_buf n v = omega (
  arith,
  length-append (take n v) (replicate (n - length v) 0),
  length-take n v,
  length-replicate {A = ℕ} (n - length v) 0,
)

fast : (w iw x n l : ℕ) → ((w == iw && x == 0) && leb n l) ≡ true → (w ≡ iw) × ((x ≡ 0) × (n ≤ l))
fast w iw x n l e = ground arith

pub draw_part-PutPart :
    (page : Page) (iw ih x y w h dx dy : ℕ) (src : List ℕ) (c : Canvas)
    → Works page
    → length src ≡ iw * ih * 4
    → x + w ≤ iw
    → y + h ≤ ih
    → 0 < w
    → 0 < h
    → Returns (PutPart iw x y w h dx dy src) (draw_part page iw src x y w h dx dy c)
unfolding draw_part
draw_part-PutPart page iw ih x y w h dx dy src c works size right below a b =
    Returns-if ((w == iw && x == 0) && leb (y * (iw * 4) + w * h * 4) (length src))
      (λ e.
        let (full, (left, fits)) = fast w iw x (y * (iw * 4) + w * h * 4) (length src) e in
        Returns-and_then (slice-Part iw ih x y w h src size right below full left fits)
          λ bytes p. returns (put_image-PutPart page iw x y w h dx dy src bytes c works a b p))
      λ _.
        Returns-and_then
          (copy_partial-Part iw ih x y w h src size right below
            (resize_buf (w * h * 4) (c.rgba_buf)) (length-resize_buf (w * h * 4) (c.rgba_buf)))
          λ bytes p. returns (
            put_image-PutPart page iw x y w h dx dy src bytes (record c { rgba_buf = bytes }) works
              a b p)
