-- ===== src/Pages/Catalogue.antt =====
-- server/src/main.rs: `load_remote_apps` and `remote_apps_json`, on texts as lists of scalar values.
use wasm_rdp.Prelude.{
  ℕ, Bool, true, not, ◌&&◌, Option, none, some, List, [], ◌∷◌, ◌++◌, map, length, ◌==◌, codes,
  starts_with, contains_text, if◌then◌else◌,
}
use wasm_rdp.Redirect.{trim}

-- The fields of `AppConfig` that the pages use.
pub record AppConfig : Type 0 where
  pub app_name : Option (List ℕ)
  pub enable_text_clipboard : Bool
  pub enable_file_clipboard : Bool
  pub enable_remote_app : Bool
  pub remote_apps : List (List ℕ)

abbrev pub push : ℕ → List (List ℕ) → List (List ℕ)
push c [] = (c ∷ []) ∷ []
push c (line ∷ lines) = (c ∷ line) ∷ lines

-- `text.lines()`: a line ends at a line feed, or at a carriage return before one.
unfoldable pub lines : List ℕ → List (List ℕ)
lines [] = []
lines (c ∷ cs) =
    let rest = lines cs in
    if c == 10 then [] ∷ rest else if c == 13 && starts_with cs (10 ∷ []) then rest else push c rest

abbrev pub is_entry : List ℕ → Bool
is_entry l = (not (length l == 0) && not (starts_with l (codes "#"))) && contains_text l (codes "=")

unfoldable pub entries_of : List (List ℕ) → List (List ℕ)
entries_of [] = []
entries_of (line ∷ lines) =
    let rest = entries_of lines in if is_entry (trim line) then trim line ∷ rest else rest

abbrev pub or_config : AppConfig → List (List ℕ) → Bool × List (List ℕ)
or_config config [] = (config.enable_remote_app, config.remote_apps)
or_config config (entry ∷ entries) = (true, entry ∷ entries)

-- The file's text, if it can be read.
unfoldable pub load_remote_apps : Option (List ℕ) → AppConfig → Bool × List (List ℕ)
unfolding lines entries_of
load_remote_apps none config = (config.enable_remote_app, config.remote_apps)
load_remote_apps (some text) config = or_config config (entries_of (lines text))

-- `text.replace(c, by)`
unfoldable pub replace_char : ℕ → List ℕ → List ℕ → List ℕ
replace_char x by [] = []
replace_char x by (c ∷ cs) =
    let rest = replace_char x by cs in if c == x then by ++ rest else c ∷ rest

unfoldable pub esc : List ℕ → List ℕ
unfolding replace_char
esc s = replace_char b'"' (codes "\\\"") (replace_char b'\\' (codes "\\\\") s)

abbrev pub before_first : ℕ → Option (List ℕ × List ℕ) → Option (List ℕ × List ℕ)
before_first c none = none
before_first c (some (before, after)) = some (c ∷ before, after)

-- `text.split_once(c)`
unfoldable pub split_once : ℕ → List ℕ → Option (List ℕ × List ℕ)
split_once x [] = none
split_once x (c ∷ cs) =
    let rest = split_once x cs in if c == x then some ([], cs) else before_first c rest

unfoldable pub item : List ℕ × List ℕ → List ℕ
unfolding esc
item (name, program) =
    codes "{\"name\":\""
    ++ (esc (trim name) ++ (codes "\",\"program\":\"" ++ (esc (trim program) ++ codes "\"}")))

-- `entries.iter().filter_map(|e| e.split_once('='))`
unfoldable pub split_entries : List (List ℕ) → List (List ℕ × List ℕ)
unfolding split_once
split_entries [] = []
split_entries (e ∷ entries) =
    let rest = split_entries entries in
    elim (split_once b'=' e) [ none ↦ rest | some pair ↦ pair ∷ rest ]

-- `items.join(",")`
unfoldable pub join : List (List ℕ) → List ℕ
join [] = []
join (x ∷ []) = x
join (x ∷ y ∷ items) = x ++ (codes "," ++ join (y ∷ items))

unfoldable pub remote_apps_json : List (List ℕ) → List ℕ
unfolding item split_entries join
remote_apps_json entries = codes "[" ++ (join (map item (split_entries entries)) ++ codes "]")
