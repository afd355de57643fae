-- ===== src/Monitors/Tests.antt =====
-- wasm/src/session.rs: monitors at concrete inputs.
use wasm_rdp.Prelude.{ℕ, ◌+◌, ◌≡◌, refl, true, false, List, [], ◌∷◌, map, pos, negsuc, arith, All}
use wasm_rdp.Monitors.{
  sub32, add32, maximum, max_i32, parse_monitor_layout, combined_desktop_size, primary_surface_rect,
}
use wasm_rdp.Monitors.Layout.{
  Screen, Fits, flat, extent, first_primary, main_screen, combined_desktop_size-extent,
}

-- A screen beside the primary one.
abbrev screens : List Screen
screens =
    record { x = 1920; y = 0; w = 1280; h = 1024; primary = false }
    ∷ record { x = 0; y = 0; w = 1920; h = 1080; primary = true }
    ∷ []

abbrev screens-Fits : All Fits screens
screens-Fits = (
  record {
    wide = omega arith;
    high = omega arith;
    to_right = omega arith;
    to_bottom = omega arith;
  },
  (
    record {
      wide = omega arith;
      high = omega arith;
      to_right = omega arith;
      to_bottom = omega arith;
    },
    tt,
  ),
)

both_screens : combined_desktop_size (parse_monitor_layout (flat screens)) ≡ (3200, 1080)
unfolding combined_desktop_size parse_monitor_layout flat add32 sub32 maximum max_i32
both_screens = refl

-- The sum of the largest `i32` and 1 is the least.
wraps : add32 (pos 2147483647) (pos 1) ≡ negsuc 2147483647
unfolding add32
wraps = refl

combined_desktop_size-extent_example :
    (combined_desktop_size (parse_monitor_layout (flat screens))
      ≡ (extent (map (λ s. s.x + s.w) screens), extent (map (λ s. s.y + s.h) screens)))
    × ((cw ch : ℕ)
        → primary_surface_rect (parse_monitor_layout (flat screens)) cw ch
          ≡ main_screen (first_primary screens) screens (cw, ch))
combined_desktop_size-extent_example = combined_desktop_size-extent screens screens-Fits
