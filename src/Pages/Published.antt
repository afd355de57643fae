-- ===== src/Pages/Published.antt =====
-- server/src/main.rs: from the administrator's file to the page.
use wasm_rdp.Prelude.{
  ℕ, ◌≡◌, refl, Bool, true, false, ◌||◌, Option, none, some, List, [], ◌∷◌, ◌++◌, map, ◌==◌, codes,
  length, Bool-cases, inl, inr, ap, ◌∙◌, All, starts_with, contains_text, find, is_some, next_index,
  arith,
}
use wasm_rdp.Redirect.{trim}
use wasm_rdp.Pages.Catalogue.{
  AppConfig, lines, entries_of, load_remote_apps, split_once, before_first, split_entries,
  remote_apps_json,
}
use wasm_rdp.Pages.Literal.{App, read_apps, read_page, NoBreak}
use wasm_rdp.Pages.Script.{NoTag, Tagless, value_text-page}
use wasm_rdp.Pages.Written.{trimmed, Clean, read_apps-join}

-- An application as a line of the file.
abbrev pub line_of : App → List ℕ
line_of (name, program) = name ++ b'=' ∷ program

-- A line of the file has no line break, no white space at its ends and those of its two parts, and no `=`
-- in the name, no `<`, and it is no comment.
pub record IsLine (app : App) : Type 0 where
  pub no_break : All NoBreak (line_of app)
  pub parts_no_break : All NoBreak (app.0) × All NoBreak (app.1)
  pub is_trimmed : trim (line_of app) ≡ line_of app
  pub parts_trimmed : (trim (app.0) ≡ app.0) × (trim (app.1) ≡ app.1)
  pub no_equals : All (λ c. (c == b'=') ≡ false) (app.0)
  pub no_tag : All NoTag (app.0) × All NoTag (app.1)
  pub no_comment : starts_with (line_of app) (codes "#") ≡ false

unfoldable pub file : List App → List ℕ
file [] = []
file (app ∷ apps) = line_of app ++ 10 ∷ file apps

neither : (a b : Bool) → (a || b) ≡ false → (a ≡ false) × (b ≡ false)
neither false false h = (refl, refl)
neither true b h = absurd (cc)
neither false true h = absurd (cc)

lines-line : (line rest : List ℕ) → All NoBreak line → lines (line ++ 10 ∷ rest) ≡ line ∷ lines rest
unfolding lines
lines-line [] rest h = refl
lines-line (c ∷ line) rest (k, h) =
    let (no_feed, no_return) = neither (c == 10) (c == 13) k in
    rw (no_feed, no_return, lines-line line rest h) refl

lines-file : (apps : List App) → All IsLine apps → lines (file apps) ≡ map line_of apps
unfolding file
lines-file [] h = unfold lines in refl
lines-file (app ∷ apps) (k, h) =
    lines-line (line_of app) (file apps) (k.no_break)
    ∙ ap (λ q. line_of app ∷ q) (lines-file apps h)

is_some-next_index : (o : Option ℕ) → is_some o ≡ true → is_some (next_index o) ≡ true
is_some-next_index (some i) h = refl
is_some-next_index none h = absurd (cc)

contains-equals :
    (name program : List ℕ) → contains_text (name ++ b'=' ∷ program) (codes "=") ≡ true
unfolding contains_text find starts_with
contains-equals [] program = refl
contains-equals (c ∷ name) program =
    elim (Bool-cases (starts_with (c ∷ (name ++ b'=' ∷ program)) (codes "="))) [
      | inl e ↦ rw (find, e) refl
      | inr e ↦ rw (find, e) (is_some-next_index _ (contains-equals name program))
    ]

nonempty : (name program : List ℕ) → (length (name ++ b'=' ∷ program) == 0) ≡ false
nonempty [] program = ground arith
nonempty (c ∷ name) program = ground arith

entries_of-lines :
    (apps : List App) → All IsLine apps → entries_of (map line_of apps) ≡ map line_of apps
unfolding entries_of
entries_of-lines [] h = refl
entries_of-lines (app ∷ apps) (k, h) =
    rw
      (
        k.is_trimmed,
        nonempty (app.0) (app.1),
        k.no_comment,
        contains-equals (app.0) (app.1),
        entries_of-lines apps h,
      )
      refl

split_once-line :
    (name program : List ℕ)
    → All (λ c. (c == b'=') ≡ false) name
    → split_once b'=' (name ++ b'=' ∷ program) ≡ some (name, program)
unfolding split_once
split_once-line [] program h = refl
split_once-line (c ∷ name) program (k, h) =
    rw k (ap (before_first c) (split_once-line name program h))

split_entries-lines : (apps : List App) → All IsLine apps → split_entries (map line_of apps) ≡ apps
unfolding split_entries
split_entries-lines [] h = refl
split_entries-lines (app ∷ apps) (k, h) =
    rw (split_entries, split_once-line (app.0) (app.1) (k.no_equals))
      (ap (λ q. app ∷ q) (split_entries-lines apps h))

IsLine-Clean : (apps : List App) → All IsLine apps → All Clean apps
IsLine-Clean [] h = tt
IsLine-Clean (app ∷ apps) (k, h) =
    (rw (k.parts_trimmed.0, k.parts_trimmed.1) (k.parts_no_break), IsLine-Clean apps h)

IsLine-Tagless : (apps : List App) → All IsLine apps → All Tagless apps
IsLine-Tagless [] h = tt
IsLine-Tagless (app ∷ apps) (k, h) =
    (rw (k.parts_trimmed.0, k.parts_trimmed.1) (k.no_tag), IsLine-Tagless apps h)

map-trimmed : (apps : List App) → All IsLine apps → map trimmed apps ≡ apps
map-trimmed [] h = refl
map-trimmed (app ∷ apps) (k, h) =
    rw (k.parts_trimmed.0, k.parts_trimmed.1) (ap (λ q. app ∷ q) (map-trimmed apps h))

-- For a file of at least one application, each on a line `name=program` that is no comment, with no line
-- break and no `<` in it, no white space around it or its two parts, and no `=` in the name: RemoteApp is on,
-- whatever the configuration says, and the page's script, which ends at the first `</` behind the list,
-- reads from the list exactly these applications, in the file's order, whatever quotes and backslashes
-- are in their names and programs, and whatever follows in the page.
pub remote_apps_json-file :
    (config : AppConfig) (app : App) (apps : List App) (page : List ℕ)
    → All IsLine (app ∷ apps)
    → ((load_remote_apps (some (file (app ∷ apps))) config).0 ≡ true)
      × (read_page (
            remote_apps_json ((load_remote_apps (some (file (app ∷ apps))) config).1)
            ++ (codes ";</script>" ++ page))
          ≡ some (app ∷ apps))
unfolding load_remote_apps remote_apps_json read_page
remote_apps_json-file config app apps page h =
    rw (lines-file (app ∷ apps) h, entries_of-lines (app ∷ apps) h)
      (
        refl,
        rw (split_entries-lines (app ∷ apps) h) (
            ap read_apps (value_text-page (app ∷ apps) page (IsLine-Tagless (app ∷ apps) h))
            ∙ read_apps-join app apps (IsLine-Clean (app ∷ apps) h)
            ∙ ap some (map-trimmed (app ∷ apps) h)),
      )
