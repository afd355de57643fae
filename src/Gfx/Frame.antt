-- ===== src/Gfx/Frame.antt =====
-- wasm/src/session.rs: the sizes of framebuffers under the copies within them.
use wasm_rdp.Prelude.{
  ℕ, zero, suc, ◌+◌, ◌-◌, ◌*◌, ◌≤◌, ◌<◌, ◌≡◌, min, List, [], ◌∷◌, ◌++◌, length, length-append,
  length-take, length-drop, length-replicate, take, drop, replicate, leb, le→leb, ◌==◌, ◌||◌,
  Returns-if, Outcome, for_range, Returns, returns, Returns-and_then, arith,
}
use wasm_rdp.Gfx.{
  read_slice, write_slice, copy_rows, fill_rect, fill_rects, paste_points, cut, Rectangle,
}

-- A list of bytes of that length.
abbrev pub Sized : ℕ → List ℕ → Type 0
Sized n xs = length xs ≡ n

pub for_range-Returns {ℓ} :
    {S : Type ℓ} (P : S → Type 0) (n start : ℕ) (body : ℕ → S → Outcome S) (s : S)
    → ((i : ℕ) (s : S) → start ≤ i → i < start + n → P s → Returns P (body i s))
    → P s
    → Returns P (for_range n start body s)
unfolding for_range
for_range-Returns P zero start body s step h = returns h
for_range-Returns P (suc n) start body s step h =
    Returns-and_then (step start s (omega arith) (omega arith) h) λ t h'.
      for_range-Returns P n (start + 1) body t (λ i u a b. step i u (omega arith) (omega arith)) h'

pub read_slice-Sized :
    (off n : ℕ) (xs : List ℕ) → off + n ≤ length xs → Returns (Sized n) (read_slice off n xs)
unfolding read_slice
read_slice-Sized off n xs h =
    rw (le→leb (off + n) (length xs) h)
      (returns (omega (arith, length-take n (drop off xs), length-drop off xs)))

pub write_slice-Sized :
    (off : ℕ) (part xs : List ℕ)
    → off + length part ≤ length xs
    → Returns (Sized (length xs)) (write_slice off part xs)
unfolding write_slice
write_slice-Sized off part xs h =
    let rest = drop (off + length part) xs in
    rw (le→leb (off + length part) (length xs) h) (
      returns (
        omega (
          arith,
          length-append (take off xs) (part ++ rest),
          length-append part rest,
          length-take off xs,
          length-drop (off + length part) xs,
        )))

pub copy_rows-Sized :
    (h n : ℕ) (src : List ℕ) (source target : ℕ → ℕ) (m : ℕ) (dst : List ℕ)
    → ((row : ℕ) → row < h → source row + n ≤ length src)
    → ((row : ℕ) → row < h → target row + n ≤ m)
    → Sized m dst
    → Returns (Sized m) (copy_rows h n src source target dst)
unfolding copy_rows
copy_rows-Sized h n src source target m dst reads writes sized =
    for_range-Returns (Sized m) h 0 _ dst
      (λ row out _ below e.
        Returns-and_then (read_slice-Sized (source row) n src (reads row (omega arith))) λ part p.
          let fits : target row + length part ≤ length out = rw (p, e) (writes row (omega arith)) in
          rw (← e) (write_slice-Sized (target row) part out fits))
      sized

-- `n` pixels from column `x` of row `y` stand in a framebuffer of `w` by `h`.
pub in_frame : (w h x y n : ℕ) → y < h → x + n ≤ w → (y * w + x) * 4 + n * 4 ≤ w * h * 4
in_frame w h x y n below inside = grind arith

row_in_frame : (w h n y : ℕ) → y < h → n ≤ w → y * w * 4 + n * 4 ≤ w * h * 4
row_in_frame w h n y below inside = grind arith

pub pixel_in_frame : (w h x y : ℕ) → y < h → x < w → y * w * 4 + x * 4 + 4 ≤ w * h * 4
pixel_in_frame w h x y below inside = grind arith

fill_rect-Sized :
    (sw sh x0 y0 x1 y1 : ℕ) (rgba fb : List ℕ)
    → length rgba ≡ 4
    → x1 ≤ sw
    → y1 ≤ sh
    → Sized (sw * sh * 4) fb
    → Returns (Sized (sw * sh * 4)) (fill_rect sw x0 y0 x1 y1 rgba fb)
unfolding fill_rect
fill_rect-Sized sw sh x0 y0 x1 y1 rgba fb four right bottom sized =
    for_range-Returns (Sized (sw * sh * 4)) (y1 - y0) y0 _ fb
      (λ y s above below e.
        for_range-Returns (Sized (sw * sh * 4)) (x1 - x0) x0 _ s
          (λ x t after inside e'.
            let fits : y * sw * 4 + x * 4 + length rgba ≤ length t =
              rw (four, e') (pixel_in_frame sw sh x y (omega arith) (omega arith)) in
            rw (← e') (write_slice-Sized (y * sw * 4 + x * 4) rgba t fits))
          e)
      sized

-- The framebuffer of a pair.
abbrev pub FirstSized : ℕ → List ℕ × List Rectangle → Type 0
FirstSized n p = Sized n (p.0)

pub fill_rects-Sized :
    (sw sh : ℕ) (rgba : List ℕ) (rs : List Rectangle) (fb : List ℕ)
    → length rgba ≡ 4
    → Sized (sw * sh * 4) fb
    → Returns (FirstSized (sw * sh * 4)) (fill_rects sw sh rgba rs fb)
unfolding fill_rects
fill_rects-Sized sw sh rgba [] fb four sized = returns sized
fill_rects-Sized sw sh rgba (r ∷ rs) fb four sized =
    let x0 = min (r.left) sw in
    let y0 = min (r.top) sh in
    let x1 = min (r.right) sw in
    let y1 = min (r.bottom) sh in
    Returns-if (leb x1 x0 || leb y1 y0) (λ _. fill_rects-Sized sw sh rgba rs fb four sized)
      λ _.
        Returns-and_then
          (fill_rect-Sized sw sh x0 y0 x1 y1 rgba fb four (omega arith) (omega arith) sized)
          λ out e.
            Returns-and_then (fill_rects-Sized sw sh rgba rs out four e) λ rest e'. returns e'

pub paste_points-Sized :
    (sw sh cw ch : ℕ) (pixels : List ℕ) (ps : List (ℕ × ℕ)) (fb : List ℕ)
    → Sized (cw * ch * 4) pixels
    → Sized (sw * sh * 4) fb
    → Returns (FirstSized (sw * sh * 4)) (paste_points sw sh cw ch pixels ps fb)
unfolding paste_points
paste_points-Sized sw sh cw ch pixels [] fb source sized = returns sized
paste_points-Sized sw sh cw ch pixels ((dx, dy) ∷ ps) fb source sized =
    let w = min cw (sw - dx) in
    let h = min ch (sh - dy) in
    Returns-if (w == 0 || h == 0) (λ _. paste_points-Sized sw sh cw ch pixels ps fb source sized)
      λ some_pixels.
        Returns-and_then
          (copy_rows-Sized h (w * 4) pixels _ _ (sw * sh * 4) fb
            (λ row below. rw source (row_in_frame cw ch w row (omega arith) (omega arith)))
            (λ row below. in_frame sw sh dx (dy + row) w (omega arith) (ground arith)) sized)
          λ out e.
            Returns-and_then (paste_points-Sized sw sh cw ch pixels ps out source e)
              λ rest e'. returns e'

pub cut-Sized :
    (sw sh x y w h : ℕ) (fb : List ℕ)
    → x + w ≤ sw
    → y + h ≤ sh
    → Sized (sw * sh * 4) fb
    → Returns (Sized (w * h * 4)) (cut sw x y w h fb)
unfolding cut
cut-Sized sw sh x y w h fb right bottom sized =
    copy_rows-Sized h (w * 4) fb _ _ (w * h * 4) (replicate (w * h * 4) 0)
      (λ row below. rw sized (in_frame sw sh x (y + row) w (omega arith) right))
      (λ row below. row_in_frame w h w row (omega arith) (omega arith))
      (length-replicate (w * h * 4) 0)
