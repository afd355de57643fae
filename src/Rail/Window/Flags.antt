-- ===== src/Rail/Window/Flags.antt =====
-- The field flags of a create or update order.
use wasm_rdp.Prelude.{
  ℕ, zero, suc, [], ◌∷◌, Bool, true, false, not, ◌≡◌, refl, sym, ap, ◌∙◌, ◌==◌, List, bit_and,
  bit_or, from_bits, one_bit, masked_bits, bit_at, bit_and-from_bits, masked_bits-one_bit,
}
use wasm_rdp.Rail.Window.Order.{
  has, type_window, type_notify, type_desktop, state_new, state_deleted, icon_flag, cached_icon,
  field_owner, field_style, field_show, field_title, field_client_area_offset,
  field_client_area_size, field_resize_margin_x, field_resize_margin_y, field_rp_content,
  field_root_parent, field_wnd_offset, field_wnd_client_delta, field_wnd_size, field_wnd_rects,
  field_vis_offset, field_visibility,
}
use wasm_rdp.Rail.Window.Cursor.{is_some}
use wasm_rdp.Rail.Window.Fields.{WindowState, state_bits, flags_of}

-- The tests that the parser makes of the flags, and their answers.
pub record Fields (s : WindowState) : Type 0 where
  pub desktop : has (flags_of s) type_desktop ≡ false
  pub window : (bit_and (flags_of s) (bit_or type_window type_notify) == 0) ≡ false
  pub no_icon : has (flags_of s) icon_flag ≡ false
  pub no_cached_icon : has (flags_of s) cached_icon ≡ false
  pub no_notify : has (flags_of s) type_notify ≡ false
  pub no_deleted : has (flags_of s) state_deleted ≡ false
  pub fresh : has (flags_of s) state_new ≡ s.is_new
  pub owned : has (flags_of s) field_owner ≡ is_some s.skipped.owner
  pub styled : has (flags_of s) field_style ≡ is_some s.skipped.style
  pub shown : has (flags_of s) field_show ≡ is_some s.show_state
  pub titled : has (flags_of s) field_title ≡ is_some s.title
  pub client_placed :
      has (flags_of s) field_client_area_offset ≡ is_some s.skipped.client_area_offset
  pub client_sized : has (flags_of s) field_client_area_size ≡ is_some s.skipped.client_area_size
  pub margin_x : has (flags_of s) field_resize_margin_x ≡ is_some s.skipped.resize_margin_x
  pub margin_y : has (flags_of s) field_resize_margin_y ≡ is_some s.skipped.resize_margin_y
  pub content : has (flags_of s) field_rp_content ≡ is_some s.skipped.rp_content
  pub parented : has (flags_of s) field_root_parent ≡ is_some s.skipped.root_parent
  pub placed : has (flags_of s) field_wnd_offset ≡ is_some s.offset
  pub moved : has (flags_of s) field_wnd_client_delta ≡ is_some s.skipped.wnd_client_delta
  pub sized : has (flags_of s) field_wnd_size ≡ is_some s.size
  pub shaped : has (flags_of s) field_wnd_rects ≡ is_some s.skipped.wnd_rects
  pub vis_placed : has (flags_of s) field_vis_offset ≡ is_some s.skipped.vis_offset
  pub clipped : has (flags_of s) field_visibility ≡ is_some s.rects

not-not : (b : Bool) → not (not b) ≡ b
not-not true = refl
not-not false = refl

-- A test of one flag is its digit.
has-bit_at :
    (bs : List Bool) (k mask : ℕ)
    → from_bits (one_bit k) ≡ mask
    → has (from_bits bs) mask ≡ bit_at bs k
has-bit_at bs k mask e =
    ap (λ m. not (bit_and (from_bits bs) m == 0)) (sym e)
    ∙ ap (λ n. not (n == 0)) (bit_and-from_bits bs (one_bit k))
    ∙ ap not (masked_bits-one_bit bs k)
    ∙ not-not (bit_at bs k)

-- The mask of a digit and the next.
unfoldable two_bits : ℕ → List Bool
two_bits zero = true ∷ true ∷ []
two_bits (suc k) = false ∷ two_bits k

pub flags_of-Fields : (s : WindowState) → Fields s
unfolding flags_of from_bits one_bit two_bits masked_bits
flags_of-Fields s = record {
  desktop = has-bit_at (state_bits s) 26 type_desktop refl;
  window = ap (λ n. n == 0) (bit_and-from_bits (state_bits s) (two_bits 24));
  no_icon = has-bit_at (state_bits s) 30 icon_flag refl;
  no_cached_icon = has-bit_at (state_bits s) 31 cached_icon refl;
  no_notify = has-bit_at (state_bits s) 25 type_notify refl;
  no_deleted = has-bit_at (state_bits s) 29 state_deleted refl;
  fresh = has-bit_at (state_bits s) 28 state_new refl;
  owned = has-bit_at (state_bits s) 1 field_owner refl;
  styled = has-bit_at (state_bits s) 3 field_style refl;
  shown = has-bit_at (state_bits s) 4 field_show refl;
  titled = has-bit_at (state_bits s) 2 field_title refl;
  client_placed = has-bit_at (state_bits s) 14 field_client_area_offset refl;
  client_sized = has-bit_at (state_bits s) 16 field_client_area_size refl;
  margin_x = has-bit_at (state_bits s) 7 field_resize_margin_x refl;
  margin_y = has-bit_at (state_bits s) 27 field_resize_margin_y refl;
  content = has-bit_at (state_bits s) 17 field_rp_content refl;
  parented = has-bit_at (state_bits s) 18 field_root_parent refl;
  placed = has-bit_at (state_bits s) 11 field_wnd_offset refl;
  moved = has-bit_at (state_bits s) 15 field_wnd_client_delta refl;
  sized = has-bit_at (state_bits s) 10 field_wnd_size refl;
  shaped = has-bit_at (state_bits s) 8 field_wnd_rects refl;
  vis_placed = has-bit_at (state_bits s) 12 field_vis_offset refl;
  clipped = has-bit_at (state_bits s) 9 field_visibility refl;
}
