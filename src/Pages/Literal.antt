-- ===== src/Pages/Literal.antt =====
-- server/src/main.rs: a script's reading of the list of applications that is written into the page.
use wasm_rdp.Prelude.{
  ℕ, zero, suc, ◌≡◌, refl, Bool, true, false, ◌||◌, ◌&&◌, Option, none, some, List, [], ◌∷◌, ◌++◌,
  ◌==◌, ==_iff, codes, length, starts_with, if◌then◌else◌, Bool-cases, inl, inr, ap, All,
}
use wasm_rdp.Pages.Catalogue.{replace_char, esc}

abbrev pub cons_first : ℕ → Option (List ℕ × List ℕ) → Option (List ℕ × List ℕ)
cons_first c none = none
cons_first c (some (text, rest)) = some (c ∷ text, rest)

-- A string's text up to its closing quote, and what follows; `escaped` is whether a backslash stands
-- before. A line does not end within a string, and of the escapes those of the quote and the backslash
-- are read.
unfoldable pub read_string : Bool → List ℕ → Option (List ℕ × List ℕ)
read_string escaped [] = none
read_string true (c ∷ cs) =
    let rest = cons_first c (read_string false cs) in if c == b'"' || c == b'\\' then rest else none
read_string false (c ∷ cs) =
    let escape = read_string true cs in
    let plain = cons_first c (read_string false cs) in
    if c == b'"'
    then some ([], cs)
    else if c == b'\\'
    then escape
    else if c == 10 || c == 13
    then none
    else plain

unfoldable pub expect : List ℕ → List ℕ → Option (List ℕ)
expect [] cs = some cs
expect (x ∷ xs) [] = none
expect (x ∷ xs) (c ∷ cs) = if c == x then expect xs cs else none

abbrev pub then_read : {A : Type 0} → Option (List ℕ) → (List ℕ → Option A) → Option A
then_read none f = none
then_read (some rest) f = f rest

abbrev pub App : Type 0
App = List ℕ × List ℕ

abbrev pub closed : List ℕ → List ℕ × List ℕ → Option (App × List ℕ)
closed name (program, rest) =
    then_read (expect (codes "}") rest) λ more. some ((name, program), more)

abbrev pub with_program : List ℕ → Option (List ℕ × List ℕ) → Option (App × List ℕ)
with_program name none = none
with_program name (some found) = closed name found

abbrev pub program_after : Option (List ℕ × List ℕ) → Option (App × List ℕ)
program_after none = none
program_after (some (name, rest)) =
    then_read (expect (codes ",\"program\":\"") rest)
      λ more. with_program name (read_string false more)

-- An object of the two fields.
unfoldable pub read_app : List ℕ → Option (App × List ℕ)
unfolding read_string expect
read_app cs =
    then_read (expect (codes "{\"name\":\"") cs) λ more. program_after (read_string false more)

abbrev pub cons_app : App → Option (List App) → Option (List App)
cons_app app none = none
cons_app app (some apps) = some (app ∷ apps)

abbrev pub more_apps : (List ℕ → Option (List App)) → App → List ℕ → Option (List App)
more_apps again app [] = none
more_apps again app (c ∷ cs) =
    if c == b','
    then cons_app app (again cs)
    else if c == b']' && length cs == 0
    then some (app ∷ [])
    else none

-- Applications up to the closing bracket, which ends the text; `fuel` bounds their number.
unfoldable pub read_items : ℕ → List ℕ → Option (List App)
unfolding read_app
read_items zero cs = none
read_items (suc fuel) cs = elim (read_app cs) [
  | none ↦ none
  | some (app, rest) ↦ more_apps (read_items fuel) app rest
]

abbrev pub after_bracket : List ℕ → Option (List App)
after_bracket (c ∷ []) = if c == b']' then some [] else none
after_bracket cs = read_items (length cs) cs

unfoldable pub read_apps : List ℕ → Option (List App)
unfolding read_items
read_apps cs = then_read (expect (codes "[") cs) after_bracket

-- A script's text in a page, up to its end tag; any `</` counts as the end.
unfoldable pub script_text : List ℕ → List ℕ
script_text [] = []
script_text (c ∷ cs) =
    let rest = script_text cs in if starts_with (c ∷ cs) (codes "</") then [] else c ∷ rest

-- A statement without the semicolon at its end.
unfoldable pub value_text : List ℕ → List ℕ
value_text [] = []
value_text (c ∷ []) = if c == b';' then [] else c ∷ []
value_text (c ∷ d ∷ cs) = c ∷ value_text (d ∷ cs)

-- The list that the rest of a page's script gives, from the list on.
unfoldable pub read_page : List ℕ → Option (List App)
unfolding read_apps script_text value_text
read_page cs = read_apps (value_text (script_text cs))

abbrev pub NoBreak : ℕ → Type 0
NoBreak c = (c == 10 || c == 13) ≡ false

pub read_string-esc :
    (s rest : List ℕ) → All NoBreak s → read_string false (esc s ++ b'"' ∷ rest) ≡ some (s, rest)
unfolding read_string esc replace_char
read_string-esc [] rest h = refl
read_string-esc (c ∷ s) rest (k, h) = elim (Bool-cases (c == b'\\')) [
  | inl e ↦ rw ((==_iff c b'\\').0 e) (ap (cons_first b'\\') (read_string-esc s rest h))
  | inr n ↦ elim (Bool-cases (c == b'"')) [
    | inl e ↦ rw ((==_iff c b'"').0 e) (ap (cons_first b'"') (read_string-esc s rest h))
    | inr m ↦ rw (n, m, m, n, k) (ap (cons_first c) (read_string-esc s rest h))
  ]
]
