-- ===== src/Rail/Window/Fields.antt =====
-- The windows that a server of crates/ironrdp-rail/src/window.rs sends, read off the field order of
-- `parse_window_state`: the fields, their flags and their bytes.
use mathlib.Core.Option
use wasm_rdp.Prelude.{
  ℕ, ◌-◌, ◌^◌, ◌<◌, Bool, Option, none, some, List, [], ◌∷◌, ◌++◌, length, All, false, true,
  from_bits, IsU16, IsU32, le16, le32, ℤ, pos, negsuc, IsScalar, encode_utf16, unit_bytes,
}
use wasm_rdp.Rail.Window.Order.{Rect, WindowInfo}
use wasm_rdp.Rail.Window.Cursor.{is_some, present}

-- The fields that the client reads over.
pub record SkippedFields : Type 0 where
  pub owner : Option ℕ
  pub style : Option (ℕ × ℕ)
  pub client_area_offset : Option (ℤ × ℤ)
  pub client_area_size : Option (ℕ × ℕ)
  pub resize_margin_x : Option (ℕ × ℕ)
  pub resize_margin_y : Option (ℕ × ℕ)
  pub rp_content : Option ℕ
  pub root_parent : Option ℕ
  pub wnd_client_delta : Option (ℤ × ℤ)
  pub wnd_rects : Option (List Rect)
  pub vis_offset : Option (ℤ × ℤ)

-- A create or update order. `tail` holds fields behind those that the client knows.
pub record WindowState : Type 0 where
  pub window_id : ℕ
  pub is_new : Bool
  pub show_state : Option ℕ
  pub title : Option (List ℕ)
  pub offset : Option (ℤ × ℤ)
  pub size : Option (ℕ × ℕ)
  pub rects : Option (List Rect)
  pub skipped : SkippedFields
  pub tail : List ℕ

-- The field flags of a create or update order, from the lowest digit.
abbrev pub state_bits : WindowState → List Bool
state_bits s =
    false
    ∷ is_some s.skipped.owner
    ∷ is_some s.title
    ∷ is_some s.skipped.style
    ∷ is_some s.show_state
    ∷ false
    ∷ false
    ∷ is_some s.skipped.resize_margin_x
    ∷ is_some s.skipped.wnd_rects
    ∷ is_some s.rects
    ∷ is_some s.size
    ∷ is_some s.offset
    ∷ is_some s.skipped.vis_offset
    ∷ false
    ∷ is_some s.skipped.client_area_offset
    ∷ is_some s.skipped.wnd_client_delta
    ∷ is_some s.skipped.client_area_size
    ∷ is_some s.skipped.rp_content
    ∷ is_some s.skipped.root_parent
    ∷ false
    ∷ false
    ∷ false
    ∷ false
    ∷ false
    ∷ true
    ∷ false
    ∷ false
    ∷ is_some s.skipped.resize_margin_y
    ∷ s.is_new
    ∷ false
    ∷ false
    ∷ false
    ∷ []

unfoldable pub flags_of : WindowState → ℕ
unfolding from_bits
flags_of s = from_bits (state_bits s)

-- Two's complement in 32 bits.
unfoldable pub as_u32 : ℤ → ℕ
as_u32 (pos n) = n
as_u32 (negsuc n) = 2 ^ 32 - 1 - n

abbrev pub title_bytes : List ℕ → List ℕ
title_bytes t = let s = unit_bytes (encode_utf16 t) in le16 (length s) ++ s

abbrev pub offset_bytes : ℤ × ℤ → List ℕ
offset_bytes p = le32 (as_u32 p.0) ++ le32 (as_u32 p.1)

abbrev pub size_bytes : ℕ × ℕ → List ℕ
size_bytes p = le32 p.0 ++ le32 p.1

abbrev pub rect_bytes : Rect → List ℕ
rect_bytes r = le16 r.left ++ (le16 r.top ++ (le16 r.right ++ le16 r.bottom))

unfoldable pub concat_map : {A : Type 0} → (A → List ℕ) → List A → List ℕ
concat_map f [] = []
concat_map f (x ∷ xs) = f x ++ concat_map f xs

abbrev pub rects_bytes : List Rect → List ℕ
rects_bytes rs = le16 (length rs) ++ concat_map rect_bytes rs

unfoldable pub state_bytes : WindowState → List ℕ
state_bytes s =
    present le32 s.skipped.owner
    ++ (present size_bytes s.skipped.style
        ++ (present (λ b. b ∷ []) s.show_state
            ++ (present title_bytes s.title
                ++ (present offset_bytes s.skipped.client_area_offset
                    ++ (present size_bytes s.skipped.client_area_size
                        ++ (present size_bytes s.skipped.resize_margin_x
                            ++ (present size_bytes s.skipped.resize_margin_y
                                ++ (present (λ b. b ∷ []) s.skipped.rp_content
                                    ++ (present le32 s.skipped.root_parent
                                        ++ (present offset_bytes s.offset
                                            ++ (present offset_bytes s.skipped.wnd_client_delta
                                                ++ (present size_bytes s.size
                                                    ++ (present rects_bytes s.skipped.wnd_rects
                                                        ++ (present offset_bytes
                                                            s.skipped.vis_offset
                                                            ++ present rects_bytes
                                                            s.rects))))))))))))))

abbrev pub IsI32 : ℤ → Type 0
IsI32 (pos n) = n < 2 ^ 31
IsI32 (negsuc n) = n < 2 ^ 31

abbrev pub IfSome : {A : Type 0} → (A → Type 0) → Option A → Type 0
IfSome P none = Unit
IfSome P (some a) = P a

abbrev pub IsTitle : List ℕ → Type 0
IsTitle t = All IsScalar t × IsU16 (length (unit_bytes (encode_utf16 t)))

abbrev pub IsRect : Rect → Type 0
IsRect r = IsU16 r.left × IsU16 r.top × IsU16 r.right × IsU16 r.bottom

pub record IsState (s : WindowState) : Type 0 where
  pub id_fits : IsU32 s.window_id
  pub title_fits : IfSome IsTitle s.title
  pub offset_fits : IfSome (λ p. IsI32 p.0 × IsI32 p.1) s.offset
  pub size_fits : IfSome (λ p. IsU32 p.0 × IsU32 p.1) s.size
  pub rects_fit : IfSome (λ rs. IsU16 (length rs) × All IsRect rs) s.rects
  pub wnd_rects_fit : IfSome (λ rs. IsU16 (length rs)) s.skipped.wnd_rects

-- A region of several rectangles; one rectangle, or none, is no region.
unfoldable pub several : Option (List Rect) → Option (List Rect)
several (some (a ∷ b ∷ rects)) = some (a ∷ b ∷ rects)
several _ = none

-- What the client is meant to make of it.
unfoldable pub info_of : WindowState → WindowInfo
info_of s = record {
  window_id = s.window_id;
  is_new = s.is_new;
  show_state = s.show_state;
  title = s.title;
  x = Option.map (λ p. p.0) s.offset;
  y = Option.map (λ p. p.1) s.offset;
  width = Option.map (λ p. p.0) s.size;
  height = Option.map (λ p. p.1) s.size;
  visibility_rects = several s.rects;
}
