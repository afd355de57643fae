-- ===== src/Monitors/Layout.antt =====
-- wasm/src/session.rs: the desktop and its primary surface against the screens that the page describes.
use wasm_rdp.Prelude.{
  ℕ, ◌+◌, ◌-◌, ◌≤◌, max, ◌≡◌, refl, ap, ◌∙◌, Bool, true, false, not, Option, none, some, List, [],
  ◌∷◌, map, ℤ, pos, if◌then◌else◌, arith, All, Bool-cases, inl, inr,
}
use mathlib.Core.Option
use wasm_rdp.Monitors.{
  diff, add32, sub32, max_i32, maximum, Monitor, monitor, parse_monitor_layout,
  combined_desktop_size, find_primary, first, or_else, rect_of, Rect, primary_surface_rect,
  size_from, clamp, u16_max, is_zero, max_with,
}

-- A screen of the page.
pub record Screen : Type 0 where
  pub x : ℕ
  pub y : ℕ
  pub w : ℕ
  pub h : ℕ
  pub primary : Bool

-- It has a size, and ends within 65535 pixels of the origin.
pub record Fits (s : Screen) : Type 0 where
  pub wide : 1 ≤ s.w
  pub high : 1 ≤ s.h
  pub to_right : s.x + s.w ≤ 65535
  pub to_bottom : s.y + s.h ≤ 65535

-- What the page passes.
unfoldable pub flat : List Screen → List ℤ
flat [] = []
flat (s ∷ screens) =
    pos (s.x) ∷ pos (s.y) ∷ pos (s.w) ∷ pos (s.h) ∷ pos (if s.primary then 1 else 0) ∷ flat screens

-- The extent of a list of ends, at least 1.
unfoldable pub extent : List ℕ → ℕ
extent [] = 1
extent (e ∷ ends) = max e (extent ends)

unfoldable pub first_primary : List Screen → Option Screen
first_primary [] = none
first_primary (s ∷ screens) = let rest = first_primary screens in if s.primary then some s else rest

-- The primary screen's place and size, or the first one's, or the whole desktop.
abbrev pub main_screen : Option Screen → List Screen → ℕ × ℕ → Rect
main_screen (some s) _ size = (s.x, s.y, s.w, s.h)
main_screen none (s ∷ screens) size = (s.x, s.y, s.w, s.h)
main_screen none [] (cw, ch) = (0, 0, cw, ch)

-- The edge of a screen is inclusive.
abbrev edges_of : Screen → Monitor
edges_of s = record {
  left = pos (s.x);
  top = pos (s.y);
  right = pos (s.x + s.w - 1);
  bottom = pos (s.y + s.h - 1);
  is_primary = s.primary;
}

last_of :
    (x w : ℕ) → 1 ≤ w → x + w ≤ 65535 → sub32 (add32 (pos x) (pos w)) (pos 1) ≡ pos (x + w - 1)
unfolding add32 sub32 diff
last_of x w h k = ground arith

primary_of : (b : Bool) → not (is_zero (pos (if b then 1 else 0))) ≡ b
primary_of true = refl
primary_of false = refl

-- What the parsing gives.
parse_flat :
    (screens : List Screen)
    → All Fits screens
    → parse_monitor_layout (flat screens) ≡ map edges_of screens
unfolding parse_monitor_layout flat monitor
parse_flat [] h = refl
parse_flat (s ∷ screens) (f, h) =
    rw
      (
        last_of (s.x) (s.w) (f.wide) (f.to_right),
        last_of (s.y) (s.h) (f.high) (f.to_bottom),
        primary_of (s.primary),
        parse_flat screens h,
      )
      refl

next_of : (n : ℕ) → 1 ≤ n → n ≤ 65535 → clamp 1 u16_max (add32 (pos (n - 1)) (pos 1)) ≡ n
unfolding add32 diff
next_of n low high = ground arith

module _ (end : Screen → ℕ) where
  abbrev Within : Screen → Type 0
  Within s = (1 ≤ end s) × (end s ≤ 65535)

  extent-Within :
      (screens : List Screen)
      → All Within screens
      → (1 ≤ extent (map end screens)) × (extent (map end screens) ≤ 65535)
  unfolding extent
  extent-Within [] h = (omega arith, omega arith)
  extent-Within (s ∷ screens) (f, h) =
      let (low, high) = extent-Within screens h in (ground arith, ground arith)

  furthest :
      (s : Screen) (screens : List Screen)
      → All Within (s ∷ screens)
      → maximum (map (λ s. pos (end s - 1)) (s ∷ screens))
        ≡ some (pos (extent (map end (s ∷ screens)) - 1))
  unfolding maximum extent max_i32
  furthest s [] (f, h) = ap (λ n. some (pos n)) (ground arith)
  furthest s (t ∷ screens) (f, h) =
      let (low, high) = extent-Within (t ∷ screens) h in
      ap (λ o. some (max_with (pos (end s - 1)) o)) (furthest t screens h)
      ∙ ap (λ n. some (pos n)) (ground arith)

  size_from-extent :
      (screens : List Screen)
      → All Within screens
      → size_from (map (λ s. pos (end s - 1)) screens) ≡ extent (map end screens)
  unfolding size_from
  size_from-extent [] h = unfold maximum extent add32 diff in refl
  size_from-extent (s ∷ screens) h =
      let (low, high) = extent-Within (s ∷ screens) h in
      rw (furthest s screens h) (next_of (extent (map end (s ∷ screens))) low high)

find_primary-edges_of :
    (screens : List Screen)
    → find_primary (map edges_of screens) ≡ Option.map edges_of (first_primary screens)
unfolding find_primary first_primary
find_primary-edges_of [] = refl
find_primary-edges_of (s ∷ screens) = elim (Bool-cases (s.primary)) [
  | inl e ↦ rw e refl
  | inr e ↦ rw e (find_primary-edges_of screens)
]

size_of :
    (x w : ℕ)
    → 1 ≤ w
    → x + w ≤ 65535
    → clamp 1 u16_max (add32 (sub32 (pos (x + w - 1)) (pos x)) (pos 1)) ≡ w
unfolding add32 sub32 diff
size_of x w h k = ground arith

place_of : (x w : ℕ) → 1 ≤ w → x + w ≤ 65535 → clamp 0 u16_max (pos x) ≡ x
place_of x w h k = ground arith

rect_of-edges_of :
    (s : Screen) → Fits s → (cw ch : ℕ) → rect_of (some (edges_of s)) cw ch ≡ (s.x, s.y, s.w, s.h)
unfolding rect_of
rect_of-edges_of s f cw ch =
    rw
      (
        size_of (s.x) (s.w) (f.wide) (f.to_right),
        size_of (s.y) (s.h) (f.high) (f.to_bottom),
        place_of (s.x) (s.w) (f.wide) (f.to_right),
        place_of (s.y) (s.h) (f.high) (f.to_bottom),
      )
      refl

first_primary-Fits :
    (screens : List Screen) (s : Screen)
    → All Fits screens
    → first_primary screens ≡ some s
    → Fits s
unfolding first_primary
first_primary-Fits [] s h e = absurd (cc)
first_primary-Fits (t ∷ screens) s (f, h) e = elim (Bool-cases (t.primary)) [
  | inl p ↦ let same : t ≡ s = cc (rw p at e) in rw same at f
  | inr p ↦ first_primary-Fits screens s h (cc (rw p at e))
]

edges :
    (edge : Monitor → ℤ) (end : Screen → ℕ) (screens : List Screen)
    → ((s : Screen) → edge (edges_of s) ≡ pos (end s - 1))
    → map edge (map edges_of screens) ≡ map (λ s. pos (end s - 1)) screens
edges edge end [] h = refl
edges edge end (s ∷ screens) h = rw (h s, edges edge end screens h) refl

All-map :
    {P Q : Screen → Type 0} (screens : List Screen)
    → ((s : Screen) → P s → Q s)
    → All P screens
    → All Q screens
All-map [] f h = tt
All-map (s ∷ screens) f (p, h) = (f s p, All-map screens f h)

main_screen-rect :
    (o : Option Screen) (screens : List Screen) (cw ch : ℕ)
    → ((s : Screen) → o ≡ some s → Fits s)
    → All Fits screens
    → rect_of (or_else (Option.map edges_of o) (first (map edges_of screens))) cw ch
      ≡ main_screen o screens (cw, ch)
main_screen-rect (some s) screens cw ch f h = rect_of-edges_of s (f s refl) cw ch
main_screen-rect none (s ∷ screens) cw ch f (g, h) = rect_of-edges_of s g cw ch
main_screen-rect none [] cw ch f h = unfold rect_of in refl

-- For screens that have a size and end within 65535 pixels of the origin: the desktop's width and height
-- are the furthest ends of the screens to the right and to the bottom (1 for no screen), and the main
-- surface is the first primary screen, else the first screen, else the whole desktop.
pub combined_desktop_size-extent :
    (screens : List Screen)
    → All Fits screens
    → (combined_desktop_size (parse_monitor_layout (flat screens))
        ≡ (extent (map (λ s. s.x + s.w) screens), extent (map (λ s. s.y + s.h) screens)))
      × ((cw ch : ℕ)
          → primary_surface_rect (parse_monitor_layout (flat screens)) cw ch
            ≡ main_screen (first_primary screens) screens (cw, ch))
unfolding combined_desktop_size primary_surface_rect
combined_desktop_size-extent screens h = (
  rw
      (
        parse_flat screens h,
        edges (λ m. m.right) (λ s. s.x + s.w) screens (λ s. refl),
        edges (λ m. m.bottom) (λ s. s.y + s.h) screens (λ s. refl),
        size_from-extent (λ s. s.x + s.w) screens
            (All-map screens (λ s f. (omega (arith, f.wide), f.to_right)) h),
        size_from-extent (λ s. s.y + s.h) screens
            (All-map screens (λ s f. (omega (arith, f.high), f.to_bottom)) h),
      )
      refl,
  λ cw ch.
      rw (parse_flat screens h, find_primary-edges_of screens)
        (main_screen-rect (first_primary screens) screens cw ch
          (λ s e. first_primary-Fits screens s h e) h),
)
