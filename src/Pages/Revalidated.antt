-- ===== src/Pages/Revalidated.antt =====
-- server/src/main.rs: a browser's cache and the embedded files.
use wasm_rdp.Prelude.{
  ℕ, ◌/◌, ◌%◌, ◌<◌, ◌≡◌, refl, sym, Bool, true, false, none, some, List, [], ◌∷◌, ◌++◌, All, ◌==◌,
  same_text, same_text→eq, Bool-cases, inl, inr, arith, ap, ◌∙◌,
}
use mathlib.Core.List.{append_cancel_right}
use wasm_rdp.Redirect.{trim, trim_start, trim_end, is_whitespace}
use wasm_rdp.Relay.{hex_encode, hex_digit}
use wasm_rdp.Session.Wire.{done}
use wasm_rdp.Session.Tls.{hex_decode}
use wasm_rdp.Session.Upgrade.{IsByte, hex_decode-hex_encode}
use wasm_rdp.Pages.Embedded.{
  File, Site, ok, not_modified, not_found, Response, etag_for, or_index, trim_slashes, index, split,
  any_is, matched, respond, embedded_handler,
}

-- What a browser shows that asked about what it had.
unfoldable pub shown : List ℕ → Response → List ℕ
shown cached r = elim (r.status) [ not_modified ↦ cached | ok ↦ r.body | not_found ↦ r.body ]

hex_encode-injective :
    (xs ys : List ℕ) → All IsByte xs → All IsByte ys → hex_encode xs ≡ hex_encode ys → xs ≡ ys
hex_encode-injective xs ys h k e =
    let same : done xs ≡ done ys =
      sym (hex_decode-hex_encode xs h) ∙ ap hex_decode e ∙ hex_decode-hex_encode ys k in
    cc

-- Neither a comma nor white space.
abbrev Plain : ℕ → Type 0
Plain c = ((c == b',') ≡ false) × (is_whitespace c ≡ false)

digit-Plain : (d : ℕ) → d < 16 → Plain (hex_digit d)
unfolding is_whitespace
digit-Plain d h = (ground arith, ground arith)

hex_encode-Plain : (bs : List ℕ) → All IsByte bs → All Plain (hex_encode bs)
unfolding hex_encode
hex_encode-Plain [] h = tt
hex_encode-Plain (b ∷ bs) (k, h) = (
  digit-Plain (b / 16) (omega (arith, k)),
  (digit-Plain (b % 16) (omega arith), hex_encode-Plain bs h),
)

split-Plain : (cs : List ℕ) → All Plain cs → split b',' (cs ++ b'"' ∷ []) ≡ (cs ++ b'"' ∷ []) ∷ []
unfolding split
split-Plain [] h = refl
split-Plain (c ∷ cs) (k, h) = rw (k.0, split-Plain cs h) refl

trim_end-quote : (cs : List ℕ) → All Plain cs → trim_end (cs ++ b'"' ∷ []) ≡ cs ++ b'"' ∷ []
unfolding trim_end
trim_end-quote [] h = unfold is_whitespace in refl
trim_end-quote (c ∷ cs) (k, h) = rw (k.1, trim_end-quote cs h) refl

tag-alone : (f : File) → All IsByte (f.sha256_hash) → split b',' (etag_for f) ≡ etag_for f ∷ []
unfolding etag_for split
tag-alone f h =
    rw (split-Plain (hex_encode (f.sha256_hash)) (hex_encode-Plain (f.sha256_hash) h)) refl

trim-tag : (f : File) → All IsByte (f.sha256_hash) → trim (etag_for f) ≡ etag_for f
unfolding etag_for trim_start trim_end is_whitespace
trim-tag f h =
    rw (trim_end-quote (hex_encode (f.sha256_hash)) (hex_encode-Plain (f.sha256_hash) h)) refl

etag_for-injective :
    (f g : File)
    → All IsByte (f.sha256_hash)
    → All IsByte (g.sha256_hash)
    → etag_for f ≡ etag_for g
    → f.sha256_hash ≡ g.sha256_hash
unfolding etag_for
etag_for-injective f g h k e =
    let tails : hex_encode (f.sha256_hash) ++ b'"' ∷ [] ≡ hex_encode (g.sha256_hash) ++ b'"' ∷ [] =
      cc in
    hex_encode-injective (f.sha256_hash) (g.sha256_hash) h k
      (append_cancel_right _ _ (b'"' ∷ []) tails)

matched-tag :
    (f g : File) (b : Bool)
    → All IsByte (f.sha256_hash)
    → same_text (etag_for f) (etag_for g) ≡ b
    → matched (etag_for g) (some (etag_for f)) ≡ b
unfolding matched any_is
matched-tag f g true h e = rw (tag-alone f h, any_is, trim-tag f h, e) refl
matched-tag f g false h e = rw (tag-alone f h, any_is, trim-tag f h, e) refl

module _ (old new : Site) (uri_path : List ℕ) (f g : File) where
  -- A browser that got an embedded file from one build of the server and asks another build about it, by
  -- the ETag that it got, shows the file of the new build, whether that answers with the file or says that
  -- it is the same, and it has the new build's ETag: for a file other than index.html, which both builds
  -- have, if files of the same SHA-256 are the same.
  pub embedded_handler-shown :
      old.get (or_index (trim_slashes uri_path)) ≡ some f
      → new.get (or_index (trim_slashes uri_path)) ≡ some g
      → same_text (or_index (trim_slashes uri_path)) index ≡ false
      → All IsByte (f.sha256_hash)
      → All IsByte (g.sha256_hash)
      → (f.sha256_hash ≡ g.sha256_hash → f.content ≡ g.content)
      → (shown
            ((embedded_handler old uri_path none).body)
            (embedded_handler new uri_path ((embedded_handler old uri_path none).etag))
          ≡ g.content)
        × ((embedded_handler new uri_path ((embedded_handler old uri_path none).etag)).etag
            ≡ some (etag_for g))
  unfolding embedded_handler shown respond
  embedded_handler-shown had has other h k same_file =
      elim (Bool-cases (same_text (etag_for f) (etag_for g))) [
        | inl e ↦
            rw (had, has, other, matched-tag f g true h e)
              (same_file (etag_for-injective f g h k (same_text→eq _ _ e)), refl)
        | inr e ↦ rw (had, has, other, matched-tag f g false h e) (refl, refl)
      ]
