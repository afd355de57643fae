-- ===== src/Pages/Tests.antt =====
-- server/src/main.rs: the pages at concrete inputs.
use wasm_rdp.Prelude.{
  ◌≡◌, refl, true, false, none, some, [], ◌∷◌, ◌++◌, codes, same_text, starts_with, arith,
}
use wasm_rdp.Redirect.{trim_start, trim_end, is_whitespace}
use wasm_rdp.Pages.Catalogue.{AppConfig, load_remote_apps, remote_apps_json, esc}
use wasm_rdp.Pages.Literal.{App, read_page}
use wasm_rdp.Pages.Published.{IsLine, file, remote_apps_json-file}
use wasm_rdp.Pages.Embedded.{File, Site, embedded_handler, etag_for, trim_slashes, replace, vars}
use wasm_rdp.Pages.Revalidated.{shown, embedded_handler-shown}

abbrev config : AppConfig
config = record {
  app_name = some (codes "a\"b");
  enable_text_clipboard = true;
  enable_file_clipboard = false;
  enable_remote_app = false;
  remote_apps = [];
}

-- A name with a quote and a program with backslashes.
abbrev calculator : App
calculator = (codes "Calc \"x\"", codes "C:\\calc.exe")

calculator-IsLine : IsLine calculator
unfolding starts_with trim_start trim_end is_whitespace
calculator-IsLine = record {
  no_break = ground arith;
  parts_no_break = (ground arith, ground arith);
  is_trimmed = refl;
  parts_trimmed = (refl, refl);
  no_equals = ground arith;
  no_tag = (ground arith, ground arith);
  no_comment = refl;
}

remote_apps_json-file_example :
    ((load_remote_apps (some (file (calculator ∷ []))) config).0 ≡ true)
    × (read_page (
          remote_apps_json ((load_remote_apps (some (file (calculator ∷ []))) config).1)
          ++ (codes ";</script>" ++ codes "</head>"))
        ≡ some (calculator ∷ []))
remote_apps_json-file_example =
    remote_apps_json-file config calculator [] (codes "</head>") (calculator-IsLine, tt)

abbrev site : File → Site
site f = record {
  get = λ path. some f;
  mime_guess = λ path. codes "text/javascript";
  config = config;
  apps_file = none;
  app_version = codes "1";
}

abbrev first : File
first = record { content = 1 ∷ 2 ∷ []; sha256_hash = 0xAB ∷ 0 ∷ [] }

abbrev second : File
second = record { content = 3 ∷ []; sha256_hash = 0xCD ∷ 1 ∷ [] }

hashes_differ : first.sha256_hash ≡ second.sha256_hash → first.content ≡ second.content
hashes_differ h = absurd (cc)

embedded_handler-shown_example :
    (shown ((embedded_handler (site first) (codes "/app.js") none).body) (
        embedded_handler
          (site second)
          (codes "/app.js")
          ((embedded_handler (site first) (codes "/app.js") none).etag))
      ≡ second.content)
    × ((embedded_handler
          (site second)
          (codes "/app.js")
          ((embedded_handler (site first) (codes "/app.js") none).etag)).etag
        ≡ some (etag_for second))
unfolding same_text trim_slashes
embedded_handler-shown_example =
    embedded_handler-shown (site first) (site second) (codes "/app.js") first second refl refl refl
      (omega arith, (omega arith, tt)) (omega arith, (omega arith, tt)) hashes_differ

script :
    vars (site first)
    ≡ codes
        "window.__IB_VERSION=\"1\";window.__IB_TEXT_CLIPBOARD=true;window.__IB_FILE_CLIPBOARD=false;window.__APP_NAME=\"a\\\"b\";window.__IB_REMOTE_APP=false;window.__IB_REMOTE_APPS=[];"
unfolding vars esc load_remote_apps remote_apps_json
script = refl

injected :
    replace (codes "</head>") (codes "<s></head>") 0 (codes "<head></head><body>")
    ≡ codes "<head><s></head><body>"
unfolding replace starts_with
injected = refl
