-- ===== src/Monitors.antt =====
-- wasm/src/session.rs: the layout of the monitors. `Layout` sets the desktop beside the screens that the
-- page describes.
pub mod Layout
mod Tests
use wasm_rdp.Prelude.{
  ℕ, suc, ◌+◌, ◌-◌, ◌*◌, ◌%◌, ◌^◌, min, max, Bool, true, false, not, Option, none, some, List, [],
  ◌∷◌, map, ℤ, pos, negsuc, pos_part, neg_part, leb, ltb, ◌==◌, if◌then◌else◌,
}

-- The difference of two numbers.
unfoldable pub diff : ℕ → ℕ → ℤ
diff a b = if leb b a then pos (a - b) else negsuc (b - a - 1)

-- The 32 bits of a number, and the `i32` of 32 bits.
abbrev pub bits32 : ℤ → ℕ
bits32 (pos n) = n % 2 ^ 32
bits32 (negsuc n) = 2 ^ 32 - 1 - n % 2 ^ 32

abbrev pub of_bits32 : ℕ → ℤ
of_bits32 v = if ltb v (2 ^ 31) then pos v else negsuc (2 ^ 32 - v - 1)

-- `+` and `-` of `i32`, which wrap around.
unfoldable pub add32 : ℤ → ℤ → ℤ
unfolding diff
add32 x y = of_bits32 (bits32 (diff (pos_part x + pos_part y) (neg_part x + neg_part y)))

unfoldable pub sub32 : ℤ → ℤ → ℤ
unfolding diff
sub32 x y = of_bits32 (bits32 (diff (pos_part x + neg_part y) (neg_part x + pos_part y)))

-- `x.clamp(lo, hi)` of an `i32`, for bounds that are not negative.
abbrev pub clamp : ℕ → ℕ → ℤ → ℕ
clamp lo hi (pos n) = min hi (max lo n)
clamp lo hi (negsuc n) = lo

unfoldable pub max_i32 : ℤ → ℤ → ℤ
max_i32 (pos a) (pos b) = pos (max a b)
max_i32 (pos a) (negsuc b) = pos a
max_i32 (negsuc a) (pos b) = pos b
max_i32 (negsuc a) (negsuc b) = negsuc (min a b)

abbrev pub max_with : ℤ → Option ℤ → ℤ
max_with x none = x
max_with x (some y) = max_i32 x y

-- `iter.max()`
unfoldable pub maximum : List ℤ → Option ℤ
maximum [] = none
maximum (x ∷ xs) = some (max_with x (maximum xs))

abbrev pub unwrap_or_zero : Option ℤ → ℤ
unwrap_or_zero none = pos 0
unwrap_or_zero (some x) = x

-- `gcc::Monitor`, with whether the flags are `PRIMARY`, or empty.
pub record Monitor : Type 0 where
  pub left : ℤ
  pub top : ℤ
  pub right : ℤ
  pub bottom : ℤ
  pub is_primary : Bool

abbrev pub is_zero : ℤ → Bool
is_zero (pos n) = n == 0
is_zero (negsuc n) = false

unfoldable pub monitor : ℤ → ℤ → ℤ → ℤ → ℤ → Monitor
monitor left top w h primary = record {
  left = left;
  top = top;
  right = sub32 (add32 left w) (pos 1);
  bottom = sub32 (add32 top h) (pos 1);
  is_primary = not (is_zero primary);
}

-- `flat.chunks_exact(5)`
unfoldable pub parse_monitor_layout : List ℤ → List Monitor
unfolding monitor
parse_monitor_layout (left ∷ top ∷ w ∷ h ∷ primary ∷ flat) =
    monitor left top w h primary ∷ parse_monitor_layout flat
parse_monitor_layout _ = []

abbrev pub u16_max : ℕ
u16_max = 65535

unfoldable pub size_from : List ℤ → ℕ
size_from edges = clamp 1 u16_max (add32 (unwrap_or_zero (maximum edges)) (pos 1))

unfoldable pub combined_desktop_size : List Monitor → ℕ × ℕ
unfolding size_from
combined_desktop_size monitors =
    (size_from (map (λ m. m.right) monitors), size_from (map (λ m. m.bottom) monitors))

-- `iter().find(..)`
unfoldable pub find_primary : List Monitor → Option Monitor
find_primary [] = none
find_primary (m ∷ monitors) =
    let rest = find_primary monitors in if m.is_primary then some m else rest

abbrev pub first : List Monitor → Option Monitor
first [] = none
first (m ∷ monitors) = some m

abbrev pub or_else : Option Monitor → Option Monitor → Option Monitor
or_else (some m) other = some m
or_else none other = other

abbrev pub Rect : Type 0
Rect = ℕ × ℕ × ℕ × ℕ

unfoldable pub rect_of : Option Monitor → ℕ → ℕ → Rect
rect_of none combined_w combined_h = (0, 0, combined_w, combined_h)
rect_of (some m) combined_w combined_h = (
  clamp 0 u16_max (m.left),
  clamp 0 u16_max (m.top),
  clamp 1 u16_max (add32 (sub32 (m.right) (m.left)) (pos 1)),
  clamp 1 u16_max (add32 (sub32 (m.bottom) (m.top)) (pos 1)),
)

unfoldable pub primary_surface_rect : List Monitor → ℕ → ℕ → Rect
unfolding find_primary rect_of
primary_surface_rect monitors = rect_of (or_else (find_primary monitors) (first monitors))

-- The package's `MonitorLayoutEntry`.
pub record LayoutEntry : Type 1 where
  pub Entry : Type 0
  pub adjust_display_size : ℕ → ℕ → ℕ × ℕ
  pub new_primary : ℕ → ℕ → Option Entry
  pub new_secondary : ℕ → ℕ → Option Entry
  pub with_position : Entry → ℤ → ℤ → Option Entry

module _ (layout : LayoutEntry) where
  open layout use {Entry}

  abbrev pub positioned : ℤ → ℤ → Option Entry → Option Entry
  positioned left top none = none
  positioned left top (some entry) = layout.with_position entry left top

  unfoldable pub dc_entry : ℤ → ℤ → ℕ × ℕ → Bool → Option Entry
  dc_entry left top (w, h) primary =
      positioned left top (if primary then layout.new_primary w h else layout.new_secondary w h)

  abbrev pub cons_some : Option Entry → List Entry → List Entry
  cons_some none entries = entries
  cons_some (some entry) entries = entry ∷ entries

  unfoldable pub parse_dc_monitor_layout : List ℤ → List Entry
  unfolding dc_entry
  parse_dc_monitor_layout (left ∷ top ∷ w ∷ h ∷ primary ∷ flat) =
      let rest = parse_dc_monitor_layout flat in
      cons_some
        (dc_entry left top (layout.adjust_display_size (pos_part w) (pos_part h))
          (not (is_zero primary)))
        rest
  parse_dc_monitor_layout _ = []
