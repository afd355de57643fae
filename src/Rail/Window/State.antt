-- ===== src/Rail/Window/State.antt =====
-- crates/ironrdp-rail/src/window.rs: `parse_window_state` on the fields that a server sends.
use mathlib.Core.Path.{subst}
use wasm_rdp.Prelude.{
  ℕ, ◌*◌, Bool, length-append, ◌≡◌, refl, ap, ◌∙◌, Option, none, some, List, [], ◌∷◌, ◌++◌,
  append-nil, length, All, IsU16, IsU32, le32, lt→ltb, of_le16-le16, ℤ, pos, negsuc, encode_utf16,
  unit_bytes, from_utf16_lossy, from_utf16_lossy-encode_utf16, encode_utf16-IsU16, arith,
}
use wasm_rdp.Rail.Window.Reader.{
  Get, ◌>>=◌, pure, u8, u32, i32, as_i32, bytes, skip, units, unicode_string,
}
use wasm_rdp.Rail.Window.Order.{
  Rect, has, field_show, field_title, field_wnd_offset, field_wnd_size, field_visibility,
  field_wnd_rects, optional, when, both, rect, repeat, window_rects, visibility, keep_rects,
  parse_window_state,
}
use wasm_rdp.Rail.Window.Cursor.{
  Reads, u8-Reads, u16-Reads, u32-Reads, bytes-Reads, pure-Reads, bind-Reads, skip-Reads,
  skipped-Reads, optional-Reads, is_some, present,
}
use wasm_rdp.Rail.Window.Fields.{
  WindowState, IsState, IfSome, IsTitle, IsRect, IsI32, as_u32, state_bytes, several, info_of,
  title_bytes, offset_bytes, size_bytes, rect_bytes, rects_bytes, concat_map, flags_of,
}
use wasm_rdp.Rail.Window.Flags.{Fields, flags_of-Fields}

-- `as i32` undoes two's complement.
as_i32-as_u32 : (z : ℤ) → IsI32 z → as_i32 (as_u32 z) ≡ z
unfolding as_i32 as_u32
as_i32-as_u32 (pos n) h = ground arith
as_i32-as_u32 (negsuc n) h = ground arith

as_u32-lt : (z : ℤ) → IsI32 z → IsU32 (as_u32 z)
unfolding as_u32
as_u32-lt (pos n) h = omega arith
as_u32-lt (negsuc n) h = omega arith

-- The last step of a block adds no bytes.
pub then_pure-Reads :
    {A B : Type 0} {m : Get A} (g : A → B) {a : A} {xs : List ℕ}
    → Reads m a xs
    → Reads (m >>= λ b. pure (g b)) (g a) xs
then_pure-Reads g {a} {xs} h = rw (← append-nil xs) (bind-Reads _ h (pure-Reads (g a)))

i32-Reads : (z : ℤ) → IsI32 z → Reads i32 z (le32 (as_u32 z))
unfolding i32
i32-Reads z h =
    subst (λ w. Reads i32 w (le32 (as_u32 z))) (as_i32-as_u32 z h)
      (then_pure-Reads as_i32 (u32-Reads (as_u32 z) (as_u32-lt z h)))

-- Two reads of one kind.
both-Reads :
    {A : Type 0} {m : Get A} {a b : A} {xs ys : List ℕ}
    → Reads m a xs
    → Reads m b ys
    → Reads (both m) (a, b) (xs ++ ys)
both-Reads {a} h k = bind-Reads _ h (then_pure-Reads (λ b. (a, b)) k)

rect-Reads : (r : Rect) → IsRect r → Reads rect r (rect_bytes r)
unfolding rect
rect-Reads r (hl, ht, hr, hb) = bind-Reads _ (u16-Reads r.left hl) (
    bind-Reads _ (u16-Reads r.top ht)
      (bind-Reads _ (u16-Reads r.right hr) (then_pure-Reads _ (u16-Reads r.bottom hb))))

pub repeat-Reads :
    {A : Type 0} {m : Get A} (P : A → Type 0) (enc : A → List ℕ)
    → ((a : A) → P a → Reads m a (enc a))
    → (as' : List A) → All P as'
    → Reads (repeat (length as') m) as' (concat_map enc as')
unfolding repeat concat_map
repeat-Reads P enc h [] p = pure-Reads []
repeat-Reads P enc h (a ∷ rest) p =
    bind-Reads _ (h a p.0) (then_pure-Reads (λ r. a ∷ r) (repeat-Reads P enc h rest p.1))

visibility-Reads :
    (rs : List Rect) → IsU16 (length rs) → All IsRect rs → Reads visibility rs (rects_bytes rs)
unfolding visibility
visibility-Reads rs h p =
    bind-Reads _ (u16-Reads (length rs) h) (repeat-Reads IsRect rect_bytes rect-Reads rs p)

units-unit_bytes : (us : List ℕ) → All IsU16 us → units (unit_bytes us) ≡ us
unfolding units unit_bytes
units-unit_bytes [] h = refl
units-unit_bytes (u ∷ us) h = λ i. of_le16-le16 u h.0 i ∷ units-unit_bytes us h.1 i

title-Reads : (t : List ℕ) → IsTitle t → Reads unicode_string t (title_bytes t)
unfolding unicode_string
title-Reads t (scalars, fits) = bind-Reads _ (u16-Reads _ fits) (
    subst (λ w. Reads (bytes (length s) >>= λ b. pure (from_utf16_lossy (units b))) w s) same
      (then_pure-Reads (λ b. from_utf16_lossy (units b)) (bytes-Reads s (length s) refl)))
  where
    s : List ℕ
    s = unit_bytes (encode_utf16 t)

    same : from_utf16_lossy (units s) ≡ t
    same =
        ap from_utf16_lossy (units-unit_bytes (encode_utf16 t) (encode_utf16-IsU16 t scalars))
        ∙ from_utf16_lossy-encode_utf16 t scalars

of_some : {A : Type 0} (P : A → Type 0) (o : Option A) → IfSome P o → (a : A) → o ≡ some a → P a
of_some P none h a e = absurd (cc)
of_some P (some b) h a e = subst P (cc) h

keep_rects-several : (rects : Option (List Rect)) → keep_rects rects ≡ several rects
unfolding several
keep_rects-several none = refl
keep_rects-several (some []) = refl
keep_rects-several (some (a ∷ [])) = refl
keep_rects-several (some (a ∷ b ∷ rects)) = rw (lt→ltb 1 (length (a ∷ b ∷ rects)) (omega arith))

length-rects : (rs : List Rect) → length (concat_map rect_bytes rs) ≡ length rs * 8
unfolding concat_map
length-rects [] = refl
length-rects (r ∷ rs) =
    omega (arith, length-append (rect_bytes r) (concat_map rect_bytes rs), length-rects rs)

window_rects-Reads : (rs : List Rect) → IsU16 (length rs) → Reads window_rects tt (rects_bytes rs)
unfolding window_rects
window_rects-Reads rs h =
    bind-Reads _ (u16-Reads (length rs) h)
      (skip-Reads (concat_map rect_bytes rs) (length rs * 8) (length-rects rs))

-- Fields of a fixed length.
fixed-Reads :
    {A : Type 0} {b : Bool} (n : ℕ) (enc : A → List ℕ) (o : Option A)
    → b ≡ is_some o
    → ((a : A) → length (enc a) ≡ n)
    → Reads (when b (skip n)) tt (present enc o)
fixed-Reads n enc o e h = skipped-Reads (skip n) enc o e λ a _. skip-Reads (enc a) n (h a)

module _ (s : WindowState) (v : IsState s) where
  abbrev ff : ℕ
  ff = flags_of s

  f : Fields s
  f = flags_of-Fields s

  show-Reads :
      Reads (optional (has ff field_show) u8) s.show_state (present (λ b. b ∷ []) s.show_state)
  show-Reads = optional-Reads u8 (λ b. b ∷ []) s.show_state f.shown (λ b _. u8-Reads b)

  titled-Reads :
      Reads (optional (has ff field_title) unicode_string) s.title (present title_bytes s.title)
  titled-Reads =
      optional-Reads unicode_string title_bytes s.title f.titled
        λ t e. title-Reads t (of_some IsTitle s.title v.title_fits t e)

  offset-Reads :
      Reads (optional (has ff field_wnd_offset) (both i32)) s.offset (present offset_bytes s.offset)
  offset-Reads = optional-Reads (both i32) offset_bytes s.offset f.placed λ p e.
      let h = of_some (λ p. IsI32 p.0 × IsI32 p.1) s.offset v.offset_fits p e in
      both-Reads (i32-Reads p.0 h.0) (i32-Reads p.1 h.1)

  size-Reads :
      Reads (optional (has ff field_wnd_size) (both u32)) s.size (present size_bytes s.size)
  size-Reads = optional-Reads (both u32) size_bytes s.size f.sized λ p e.
      let h = of_some (λ p. IsU32 p.0 × IsU32 p.1) s.size v.size_fits p e in
      both-Reads (u32-Reads p.0 h.0) (u32-Reads p.1 h.1)

  rects-Reads :
      Reads (optional (has ff field_visibility) visibility) s.rects (present rects_bytes s.rects)
  rects-Reads = optional-Reads visibility rects_bytes s.rects f.clipped λ rs e.
      let h = of_some (λ rs. IsU16 (length rs) × All IsRect rs) s.rects v.rects_fit rs e in
      visibility-Reads rs h.0 h.1

  shaped-Reads :
      Reads
        (when (has ff field_wnd_rects) window_rects)
        tt
        (present rects_bytes s.skipped.wnd_rects)
  shaped-Reads = skipped-Reads window_rects rects_bytes s.skipped.wnd_rects f.shaped λ rs e.
      window_rects-Reads rs
        (of_some (λ rs. IsU16 (length rs)) s.skipped.wnd_rects v.wnd_rects_fit rs e)

  pub parse_window_state-Reads :
      Reads (parse_window_state ff s.window_id) (info_of s) (state_bytes s)
  unfolding parse_window_state info_of state_bytes
  parse_window_state-Reads = bind-Reads _ (fixed-Reads 4 le32 s.skipped.owner f.owned λ a. refl) (
      bind-Reads _ (fixed-Reads 8 size_bytes s.skipped.style f.styled λ a. refl) (
        bind-Reads _ show-Reads (
          bind-Reads _ (titled-Reads) (
            bind-Reads _
              (fixed-Reads 8 offset_bytes s.skipped.client_area_offset f.client_placed λ a. refl)
              (bind-Reads _
                (fixed-Reads 8 size_bytes s.skipped.client_area_size f.client_sized λ a. refl)
                (bind-Reads _
                  (fixed-Reads 8 size_bytes s.skipped.resize_margin_x f.margin_x λ a. refl)
                  (bind-Reads _
                    (fixed-Reads 8 size_bytes s.skipped.resize_margin_y f.margin_y λ a. refl)
                    (bind-Reads _
                      (fixed-Reads 1 (λ b. b ∷ []) s.skipped.rp_content f.content λ a. refl)
                      (bind-Reads _ (fixed-Reads 4 le32 s.skipped.root_parent f.parented λ a. refl)
                        (bind-Reads _ (offset-Reads) (
                          bind-Reads _
                            (fixed-Reads 8 offset_bytes s.skipped.wnd_client_delta f.moved
                              λ a. refl)
                            (bind-Reads _ (size-Reads) (
                              bind-Reads _ (shaped-Reads) (
                                bind-Reads _
                                  (fixed-Reads 8 offset_bytes s.skipped.vis_offset f.vis_placed
                                    λ a. refl)
                                  (rw (info_of, ← keep_rects-several s.rects, f.fresh)
                                    (then_pure-Reads _ rects-Reads))))))))))))))))
