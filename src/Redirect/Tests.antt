-- ===== src/Redirect/Tests.antt =====
-- wasm/src/redirect.rs: the theorems at concrete inputs.
use wasm_rdp.Prelude.{
  ℕ, ◌<◌, ◌≡◌, ◌↔◌, true, some, List, [], ◌∷◌, ◌++◌, encode_utf16, unit_bytes, returned, arith,
}
use wasm_rdp.Redirect.{
  Verdict, accepted, parse_capabilities, build_auth_request, parse_auth_response, contains_subslice,
  utf16le_to_string,
}
use wasm_rdp.Redirect.Auth.{
  IsCapabilities, IsSuccess, read_request, parse_capabilities-IsCapabilities,
  parse_auth_response-IsSuccess, read_request-build_auth_request,
}
use wasm_rdp.Redirect.Pin.{IsInfix, contains_subslice-IsInfix, utf16le_to_string-encode_utf16}

abbrev capabilities : List ℕ
capabilities = 1 ∷ 0 ∷ 1 ∷ 0 ∷ 1 ∷ 0 ∷ 1 ∷ 0 ∷ []

parse_capabilities-IsCapabilities_example :
    (v : Verdict) × (parse_capabilities capabilities ≡ returned v)
    × ((v ≡ accepted) ↔ IsCapabilities capabilities)
parse_capabilities-IsCapabilities_example = parse_capabilities-IsCapabilities capabilities

-- A wrong password.
abbrev refusal : List ℕ
refusal = 1 ∷ 0 ∷ 4 ∷ 0 ∷ 1 ∷ 0 ∷ 0x2E ∷ 5 ∷ 0 ∷ 0 ∷ []

parse_auth_response-IsSuccess_example :
    (v : Verdict) × (parse_auth_response refusal ≡ returned v)
    × ((v ≡ accepted) ↔ IsSuccess refusal)
parse_auth_response-IsSuccess_example = parse_auth_response-IsSuccess refusal

read_request-build_auth_request_example :
    read_request (build_auth_request (7 ∷ 8 ∷ []) (0x61 ∷ 0 ∷ 0 ∷ 0 ∷ []) [] (1 ∷ 2 ∷ 3 ∷ []))
    ≡ some ((7 ∷ 8 ∷ []) ∷ (0x61 ∷ 0 ∷ 0 ∷ 0 ∷ []) ∷ [] ∷ (1 ∷ 2 ∷ 3 ∷ []) ∷ [])
read_request-build_auth_request_example =
    read_request-build_auth_request (7 ∷ 8 ∷ []) (0x61 ∷ 0 ∷ 0 ∷ 0 ∷ []) [] (1 ∷ 2 ∷ 3 ∷ [])
      (omega arith) (omega arith) (omega arith) (omega arith)

contains_subslice-IsInfix_example :
    (contains_subslice (4 ∷ 5 ∷ 6 ∷ 7 ∷ []) (6 ∷ 7 ∷ []) ≡ true)
    ↔ ((0 < 2) × IsInfix (6 ∷ 7 ∷ []) (4 ∷ 5 ∷ 6 ∷ 7 ∷ []))
contains_subslice-IsInfix_example = contains_subslice-IsInfix (4 ∷ 5 ∷ 6 ∷ 7 ∷ []) (6 ∷ 7 ∷ [])

utf16le_to_string-encode_utf16_example :
    utf16le_to_string (unit_bytes (encode_utf16 (0x61 ∷ 0x1F600 ∷ [])) ++ 0 ∷ 0 ∷ (9 ∷ []))
    ≡ 0x61 ∷ 0x1F600 ∷ []
utf16le_to_string-encode_utf16_example =
    utf16le_to_string-encode_utf16 (0x61 ∷ 0x1F600 ∷ []) (9 ∷ []) (ground arith) (ground arith)
