-- ===== src/Redirect/Auth.antt =====
-- wasm/src/redirect.rs: the RDSTLS PDUs against what they are specified to hold.
use wasm_rdp.Prelude.{
  ℕ, zero, suc, ◌%◌, ◌^◌, ◌<◌, ◌≡◌, refl, ◌↔◌, Bool, true, false, not, ◌&&◌, ◌||◌, Option, none,
  some, List, [], ◌∷◌, ◌++◌, length, length-append, take, drop, take-append, drop-append, leb,
  ge→ltb, le→leb, ◌==◌, if◌then◌else◌, All, bit_and, bit_and_one, of_le16, of_le32, of_le16-le16,
  returned, arith,
}
use wasm_rdp.Redirect.{
  Verdict, accepted, too_short, unexpected_type, unsupported_version, failed, u16_at, u32_at,
  parse_capabilities, put_fields, build_auth_request, describe_result_code, parse_auth_response,
}

-- Capabilities of version 1 that support version 1: the lowest bit of the supported versions.
unfoldable pub IsCapabilities : List ℕ → Type 0
IsCapabilities (v ∷ v' ∷ t ∷ t' ∷ _ ∷ _ ∷ s ∷ s' ∷ _) =
    (of_le16 v v' ≡ 1) × (of_le16 t t' ≡ 1) × (s % 2 ≡ 1)
IsCapabilities _ = ⊥

abbrev capabilities_verdict : ℕ → ℕ → ℕ → Verdict
capabilities_verdict version type supported =
    if not (type == 1)
    then unexpected_type type
    else (if not (version == 1) || bit_and supported 1 == 0
        then unsupported_version version supported
        else accepted)

capabilities_branches :
    (version type supported : ℕ)
    → (capabilities_verdict version type supported ≡ accepted)
      ↔ ((version ≡ 1) × (type ≡ 1) × (supported % 2 ≡ 1))
capabilities_branches version type supported = rw (bit_and_one supported) (ground arith)

parity : (s s' : ℕ) → of_le16 s s' % 2 ≡ s % 2
parity s s' = omega arith

refused : {n : ℕ} → (too_short n ≡ accepted) ↔ ⊥
refused {n} = ground arith

-- Whatever the server sends, the parser does not panic, and it accepts exactly the PDUs of type
-- Capabilities, of version 1, whose supported versions have the bit of version 1.
pub parse_capabilities-IsCapabilities :
    (bytes : List ℕ)
    → (v : Verdict) × (parse_capabilities bytes ≡ returned v)
      × ((v ≡ accepted) ↔ IsCapabilities bytes)
unfolding parse_capabilities u16_at IsCapabilities
parse_capabilities-IsCapabilities (v ∷ v' ∷ t ∷ t' ∷ x ∷ y ∷ s ∷ s' ∷ rest) = (
  capabilities_verdict (of_le16 v v') (of_le16 t t') (of_le16 s s'),
  rw (ge→ltb (length (v ∷ v' ∷ t ∷ t' ∷ x ∷ y ∷ s ∷ s' ∷ rest)) 8 (omega arith)),
  rw (← parity s s') (capabilities_branches (of_le16 v v') (of_le16 t t') (of_le16 s s')),
)
parse_capabilities-IsCapabilities [] = (_, refl, refused)
parse_capabilities-IsCapabilities (_ ∷ []) = (_, refl, refused)
parse_capabilities-IsCapabilities (_ ∷ _ ∷ []) = (_, refl, refused)
parse_capabilities-IsCapabilities (_ ∷ _ ∷ _ ∷ []) = (_, refl, refused)
parse_capabilities-IsCapabilities (_ ∷ _ ∷ _ ∷ _ ∷ []) = (_, refl, refused)
parse_capabilities-IsCapabilities (_ ∷ _ ∷ _ ∷ _ ∷ _ ∷ []) = (_, refl, refused)
parse_capabilities-IsCapabilities (_ ∷ _ ∷ _ ∷ _ ∷ _ ∷ _ ∷ []) = (_, refl, refused)
parse_capabilities-IsCapabilities (_ ∷ _ ∷ _ ∷ _ ∷ _ ∷ _ ∷ _ ∷ []) = (_, refl, refused)

-- A response of type Authentication Response whose result code is zero.
unfoldable pub IsSuccess : List ℕ → Type 0
IsSuccess (_ ∷ _ ∷ t ∷ t' ∷ _ ∷ _ ∷ a ∷ b ∷ c ∷ d ∷ _) = (of_le16 t t' ≡ 4) × (of_le32 a b c d ≡ 0)
IsSuccess _ = ⊥

abbrev response_verdict : ℕ → ℕ → Verdict
response_verdict type code =
    if not (type == 4)
    then unexpected_type type
    else (if not (code == 0) then failed (describe_result_code code) code else accepted)

response_branches :
    (type code : ℕ) → (response_verdict type code ≡ accepted) ↔ ((type ≡ 4) × (code ≡ 0))
response_branches type code = ground arith

returned_either :
    (b : Bool) (x y : Verdict)
    → (if b then returned x else returned y) ≡ returned (if b then x else y)
returned_either true x y = refl
returned_either false x y = refl

-- Whatever the server sends, the parser does not panic, and it reports success exactly on the
-- responses of that type whose result code is zero.
pub parse_auth_response-IsSuccess :
    (bytes : List ℕ)
    → (v : Verdict) × (parse_auth_response bytes ≡ returned v) × ((v ≡ accepted) ↔ IsSuccess bytes)
unfolding parse_auth_response u16_at u32_at IsSuccess
parse_auth_response-IsSuccess (v ∷ v' ∷ t ∷ t' ∷ x ∷ y ∷ a ∷ b ∷ c ∷ d ∷ rest) = (
  response_verdict (of_le16 t t') (of_le32 a b c d),
  rw (ge→ltb (length (v ∷ v' ∷ t ∷ t' ∷ x ∷ y ∷ a ∷ b ∷ c ∷ d ∷ rest)) 10 (omega arith))
      (returned_either _ _ _),
  response_branches (of_le16 t t') (of_le32 a b c d),
)
parse_auth_response-IsSuccess [] = (_, refl, refused)
parse_auth_response-IsSuccess (_ ∷ []) = (_, refl, refused)
parse_auth_response-IsSuccess (_ ∷ _ ∷ []) = (_, refl, refused)
parse_auth_response-IsSuccess (_ ∷ _ ∷ _ ∷ []) = (_, refl, refused)
parse_auth_response-IsSuccess (_ ∷ _ ∷ _ ∷ _ ∷ []) = (_, refl, refused)
parse_auth_response-IsSuccess (_ ∷ _ ∷ _ ∷ _ ∷ _ ∷ []) = (_, refl, refused)
parse_auth_response-IsSuccess (_ ∷ _ ∷ _ ∷ _ ∷ _ ∷ _ ∷ []) = (_, refl, refused)
parse_auth_response-IsSuccess (_ ∷ _ ∷ _ ∷ _ ∷ _ ∷ _ ∷ _ ∷ []) = (_, refl, refused)
parse_auth_response-IsSuccess (_ ∷ _ ∷ _ ∷ _ ∷ _ ∷ _ ∷ _ ∷ _ ∷ []) = (_, refl, refused)
parse_auth_response-IsSuccess (_ ∷ _ ∷ _ ∷ _ ∷ _ ∷ _ ∷ _ ∷ _ ∷ _ ∷ []) = (_, refl, refused)

-- How a server reads fields: each a length of 16 bits and that many bytes.
unfoldable pub read_fields : ℕ → List ℕ → Option (List (List ℕ) × List ℕ)
read_fields zero bytes = some ([], bytes)
read_fields (suc n) (a ∷ b ∷ bytes) =
    let len = of_le16 a b in
    elim (read_fields n (drop len bytes)) [
      | none ↦ none
      | some (fields, rest) ↦
          if leb len (length bytes) then some (take len bytes ∷ fields, rest) else none
    ]
read_fields (suc n) _ = none

-- How a server reads an Authentication Request with Password Credentials: version 1, type 2, data type
-- 1, then four fields and nothing behind them.
unfoldable pub read_request : List ℕ → Option (List (List ℕ))
read_request (v ∷ v' ∷ t ∷ t' ∷ d ∷ d' ∷ bytes) =
    if of_le16 v v' == 1 && (of_le16 t t' == 2 && of_le16 d d' == 1)
    then (elim (read_fields 4 bytes) [ some (fields, []) ↦ some fields | _ ↦ none ])
    else none
read_request _ = none

read_fields-put_fields :
    (fields : List (List ℕ))
    → All (λ field. length field < 2 ^ 16) fields
    → read_fields (length fields) (put_fields fields) ≡ some (fields, [])
unfolding read_fields put_fields
read_fields-put_fields [] h = refl
read_fields-put_fields (field ∷ fields) h = rw (
  of_le16-le16 (length field % 2 ^ 16) (omega arith),
  small (length field) h.0,
  drop-append field (put_fields fields),
  read_fields-put_fields fields h.1,
  of_le16-le16 (length field % 2 ^ 16) (omega arith),
  small (length field) h.0,
  le→leb (length field) (length (field ++ put_fields fields))
      (omega (arith, length-append field (put_fields fields))),
  take-append field (put_fields fields),
)
  where
    small : (n : ℕ) → n < 2 ^ 16 → n % 2 ^ 16 ≡ n
    small n k = omega arith

-- A server reads back the four fields of the request as they are, each of less than 64 KiB: the
-- redirection GUID, the user name, the domain and the password, and nothing else.
pub read_request-build_auth_request :
    (redirection_guid user_name domain password : List ℕ)
    → length redirection_guid < 2 ^ 16
    → length user_name < 2 ^ 16
    → length domain < 2 ^ 16
    → length password < 2 ^ 16
    → read_request (build_auth_request redirection_guid user_name domain password)
      ≡ some (redirection_guid ∷ user_name ∷ domain ∷ password ∷ [])
unfolding build_auth_request read_request
read_request-build_auth_request guid user domain password hg hu hd hp =
    rw (read_fields-put_fields (guid ∷ user ∷ domain ∷ password ∷ []) (hg, (hu, (hd, (hp, tt)))))
