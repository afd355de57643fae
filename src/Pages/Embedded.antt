-- ===== src/Pages/Embedded.antt =====
-- server/src/main.rs: `etag_for`, `embedded_handler` and `ping_handler`, whose content type is axum's. The embedded files and their hashes
-- are the package rust_embed's, the types of the contents mime_guess's.
use wasm_rdp.Prelude.{
  ℕ, zero, suc, ◌+◌, ◌-◌, ◌/◌, ◌%◌, Bool, true, false, ◌||◌, Option, none, some, List, [], ◌∷◌,
  ◌++◌, length, ltb, ◌==◌, codes, same_text, starts_with, from_utf8_lossy, if◌then◌else◌,
}
use wasm_rdp.Redirect.{trim}
use wasm_rdp.Relay.{hex_encode}
use wasm_rdp.Pages.Catalogue.{AppConfig, push, esc, load_remote_apps, remote_apps_json}

pub record File : Type 0 where
  pub content : List ℕ
  pub sha256_hash : List ℕ

-- What a server is made of and configured with; `apps_file` is the text of the catalogue's file, if it is
-- read.
pub record Site : Type 0 where
  pub get : List ℕ → Option File
  pub mime_guess : List ℕ → List ℕ
  pub config : AppConfig
  pub apps_file : Option (List ℕ)
  pub app_version : List ℕ

pub data Status : Type 0 where
  ok : Status
  not_modified : Status
  not_found : Status

-- The body is its bytes.
pub record Response : Type 0 where
  pub status : Status
  pub content_type : Option (List ℕ)
  pub cache_control : Option (List ℕ)
  pub etag : Option (List ℕ)
  pub body : List ℕ

unfoldable pub etag_for : File → List ℕ
etag_for f = b'"' ∷ (hex_encode (f.sha256_hash) ++ b'"' ∷ [])

unfoldable pub trim_slashes : List ℕ → List ℕ
trim_slashes [] = []
trim_slashes (c ∷ cs) = if c == b'/' then trim_slashes cs else c ∷ cs

abbrev pub index : List ℕ
index = codes "index.html"

abbrev pub or_index : List ℕ → List ℕ
or_index [] = index
or_index (c ∷ cs) = c ∷ cs

-- `v.split(c)`
unfoldable pub split : ℕ → List ℕ → List (List ℕ)
split x [] = [] ∷ []
split x (c ∷ cs) = let rest = split x cs in if c == x then [] ∷ rest else push c rest

unfoldable pub any_is : List ℕ → List (List ℕ) → Bool
any_is tag [] = false
any_is tag (part ∷ parts) = same_text (trim part) tag || any_is tag parts

-- The header `If-None-Match`, if it is there and is text.
unfoldable pub matched : List ℕ → Option (List ℕ) → Bool
unfolding split any_is
matched tag none = false
matched tag (some v) = any_is tag (split b',' v)

-- The UTF-8 of a scalar value.
abbrev pub utf8 : ℕ → List ℕ
utf8 c =
    if ltb c 0x80
    then (c ∷ [])
    else if ltb c 0x800
    then ((0xC0 + c / 64) ∷ (0x80 + c % 64) ∷ [])
    else if ltb c 0x10000
    then ((0xE0 + c / 4096) ∷ (0x80 + c / 64 % 64) ∷ (0x80 + c % 64) ∷ [])
    else ((0xF0 + c / 262144)
        ∷ (0x80 + c / 4096 % 64)
        ∷ (0x80 + c / 64 % 64)
        ∷ (0x80 + c % 64)
        ∷ [])

unfoldable pub encode_utf8 : List ℕ → List ℕ
encode_utf8 [] = []
encode_utf8 (c ∷ cs) = utf8 c ++ encode_utf8 cs

-- `html.replace(part, by)`, for a part that is not empty; `skip` bytes of an occurrence are behind.
unfoldable pub replace : List ℕ → List ℕ → ℕ → List ℕ → List ℕ
replace part by skip [] = []
replace part by (suc skip) (c ∷ cs) = replace part by skip cs
replace part by zero (c ∷ cs) =
    let found = replace part by (length part - 1) cs in
    let plain = replace part by zero cs in
    if starts_with (c ∷ cs) part then by ++ found else c ∷ plain

abbrev pub bool_text : Bool → List ℕ
bool_text b = if b then codes "true" else codes "false"

abbrev pub app_name_var : Option (List ℕ) → List ℕ
app_name_var none = []
app_name_var (some name) = codes "window.__APP_NAME=\"" ++ (esc name ++ codes "\";")

unfoldable pub vars : Site → List ℕ
vars site =
    let (enable_remote_app, remote_apps) = load_remote_apps (site.apps_file) (site.config) in
    codes "window.__IB_VERSION=\""
    ++ (esc (site.app_version)
        ++ (codes "\";window.__IB_TEXT_CLIPBOARD="
            ++ (bool_text (site.config.enable_text_clipboard)
                ++ (codes ";window.__IB_FILE_CLIPBOARD="
                    ++ (bool_text (site.config.enable_file_clipboard)
                        ++ (codes ";"
                            ++ (app_name_var (site.config.app_name)
                                ++ (codes "window.__IB_REMOTE_APP="
                                    ++ (bool_text enable_remote_app
                                        ++ (codes ";window.__IB_REMOTE_APPS="
                                            ++ (remote_apps_json remote_apps ++ codes ";")))))))))))

-- Bytes that are no UTF-8 are given as they are.
unfoldable pub patched : Site → List ℕ → List ℕ
unfolding vars replace encode_utf8
patched site data_bytes =
    if same_text (from_utf8_lossy data_bytes) data_bytes
    then replace (codes "</head>")
        (encode_utf8 (codes "<script>" ++ (vars site ++ codes "</script></head>"))) 0 data_bytes
    else data_bytes

abbrev pub found_index : Site → List ℕ → File → Response
found_index site path f = record {
  status = ok;
  content_type = some (site.mime_guess path);
  cache_control = some (codes "no-store");
  etag = none;
  body = patched site (f.content);
}

abbrev pub found_asset : Site → List ℕ → File → Bool → Response
found_asset site path f true = record {
  status = not_modified;
  content_type = none;
  cache_control = some (codes "no-cache");
  etag = some (etag_for f);
  body = [];
}
found_asset site path f false = record {
  status = ok;
  content_type = some (site.mime_guess path);
  cache_control = some (codes "no-cache");
  etag = some (etag_for f);
  body = f.content;
}

abbrev pub missing : Response
missing = record {
  status = not_found;
  content_type = none;
  cache_control = none;
  etag = none;
  body = codes "404 Not Found";
}

unfoldable pub respond : Site → List ℕ → Option (List ℕ) → Option File → Response
unfolding matched patched etag_for
respond site path if_none_match none = missing
respond site path if_none_match (some f) =
    if same_text path index
    then found_index site path f
    else found_asset site path f (matched (etag_for f) if_none_match)

unfoldable pub embedded_handler : Site → List ℕ → Option (List ℕ) → Response
unfolding trim_slashes respond
embedded_handler site uri_path if_none_match =
    let path = or_index (trim_slashes uri_path) in respond site path if_none_match (site.get path)

abbrev pub ping_handler : Response
ping_handler = record {
  status = ok;
  content_type = none;
  cache_control = some (codes "no-store");
  etag = none;
  body = codes "pong";
}
