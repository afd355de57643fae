-- ===== src/Redirect.antt =====
-- wasm/src/redirect.rs: RDSTLS, the authentication of a redirected connection. `Auth` is about its
-- three PDUs, `Pin` about the check of the certificate.
pub mod Auth
pub mod Pin
mod Tests
use wasm_rdp.Prelude.{
  ℕ, zero, suc, ◌+◌, ◌%◌, ◌^◌, ◌≡◌, Bool, true, false, not, ◌&&◌, ◌||◌, Option, none, some, List,
  [], ◌∷◌, ◌++◌, length, take, ltb, leb, ◌==◌, if◌then◌else◌, bit_and, le16, of_le16, of_le32,
  u16_chunks, until_zero, from_utf16_lossy, Outcome, returned, panicked, and_then, index,
}

abbrev pub rdstls_version_1 : ℕ
rdstls_version_1 = 1

abbrev pub rdstls_type_capabilities : ℕ
rdstls_type_capabilities = 1

abbrev pub rdstls_type_authreq : ℕ
rdstls_type_authreq = 2

abbrev pub rdstls_type_authrsp : ℕ
rdstls_type_authrsp = 4

abbrev pub rdstls_data_password_creds : ℕ
rdstls_data_password_creds = 1

abbrev pub rdstls_result_success : ℕ
rdstls_result_success = 0

pub data ResultText : Type 0 where
  access_denied : ResultText
  logon_failure : ResultText
  invalid_logon_hours : ResultText
  password_expired : ResultText
  account_disabled : ResultText
  password_must_change : ResultText
  account_locked_out : ResultText
  unknown_error : ResultText

-- `Ok(())`, or the reason of a `bail!`.
pub data Verdict : Type 0 where
  accepted : Verdict
  too_short : ℕ → Verdict
  unexpected_type : ℕ → Verdict
  unsupported_version : ℕ → ℕ → Verdict
  failed : ResultText → ℕ → Verdict

-- `u16::from_le_bytes([data[i], data[i + 1]])`
unfoldable pub u16_at : List ℕ → ℕ → Outcome ℕ
u16_at bytes i =
    and_then (index bytes i) λ a. and_then (index bytes (i + 1)) λ b. returned (of_le16 a b)

unfoldable pub u32_at : List ℕ → ℕ → Outcome ℕ
u32_at bytes i = and_then (index bytes i) λ a. and_then (index bytes (i + 1)) λ b.
    and_then (index bytes (i + 2))
      λ c. and_then (index bytes (i + 3)) λ d. returned (of_le32 a b c d)

unfoldable pub parse_capabilities : List ℕ → Outcome Verdict
unfolding u16_at
parse_capabilities bytes =
    if ltb (length bytes) 8
    then returned (too_short (length bytes))
    else (and_then (u16_at bytes 0) λ version. and_then (u16_at bytes 2) λ pdu_type.
        and_then (u16_at bytes 6) λ supported_versions. returned (
          if not (pdu_type == rdstls_type_capabilities)
          then unexpected_type pdu_type
          else (if not (version == rdstls_version_1)
                || bit_and supported_versions rdstls_version_1 == 0
              then unsupported_version version supported_versions
              else accepted)))

-- The loop over the fields: the length as a `u16`, then the bytes.
unfoldable pub put_fields : List (List ℕ) → List ℕ
put_fields [] = []
put_fields (field ∷ fields) = le16 (length field % 2 ^ 16) ++ (field ++ put_fields fields)

unfoldable pub build_auth_request : List ℕ → List ℕ → List ℕ → List ℕ → List ℕ
unfolding put_fields
build_auth_request redirection_guid user_name domain password =
    le16 rdstls_version_1
    ++ (le16 rdstls_type_authreq
        ++ (le16 rdstls_data_password_creds
            ++ put_fields (redirection_guid ∷ user_name ∷ domain ∷ password ∷ [])))

unfoldable pub describe_result_code : ℕ → ResultText
describe_result_code code =
    if code == 0x0005
    then access_denied
    else (if code == 0x052E
        then logon_failure
        else (if code == 0x0530
            then invalid_logon_hours
            else (if code == 0x0532
                then password_expired
                else (if code == 0x0533
                    then account_disabled
                    else (if code == 0x0773
                        then password_must_change
                        else (if code == 0x0775 then account_locked_out else unknown_error))))))

unfoldable pub parse_auth_response : List ℕ → Outcome Verdict
unfolding u16_at u32_at
parse_auth_response bytes =
    if ltb (length bytes) 10
    then returned (too_short (length bytes))
    else (and_then (u16_at bytes 2) λ pdu_type.
        if not (pdu_type == rdstls_type_authrsp)
        then returned (unexpected_type pdu_type)
        else (and_then (u32_at bytes 6) λ result_code. returned (
            if not (result_code == rdstls_result_success)
            then failed (describe_result_code result_code) result_code
            else accepted)))

unfoldable pub utf16le_to_string : List ℕ → List ℕ
utf16le_to_string bytes = from_utf16_lossy (until_zero (u16_chunks bytes))

-- Equality of byte slices.
unfoldable pub same_bytes : List ℕ → List ℕ → Bool
same_bytes [] [] = true
same_bytes (a ∷ xs) (b ∷ ys) = a == b && same_bytes xs ys
same_bytes _ _ = false

-- `haystack.windows(n).any(|w| w == needle)` for an `n` that is not zero.
unfoldable pub any_window : ℕ → List ℕ → List ℕ → Bool
any_window n needle [] = false
any_window n needle (b ∷ rest) =
    let later = any_window n needle rest in
    if leb n (length (b ∷ rest)) then same_bytes (take n (b ∷ rest)) needle || later else false

unfoldable pub contains_subslice : List ℕ → List ℕ → Bool
unfolding any_window
contains_subslice haystack needle =
    not (length needle == 0)
    && (leb (length needle) (length haystack) && any_window (length needle) needle haystack)

-- `char::is_whitespace`
unfoldable pub is_whitespace : ℕ → Bool
is_whitespace c =
    (leb 9 c && leb c 13)
    || (c == 32
        || (c == 0x85
            || (c == 0xA0
                || (c == 0x1680
                    || ((leb 0x2000 c && leb c 0x200A)
                        || (c == 0x2028
                            || (c == 0x2029 || (c == 0x202F || (c == 0x205F || c == 0x3000)))))))))

unfoldable pub trim_start : List ℕ → List ℕ
trim_start [] = []
trim_start (c ∷ cs) = if is_whitespace c then trim_start cs else c ∷ cs

-- A trailing run of white space is dropped.
unfoldable pub trim_end : List ℕ → List ℕ
trim_end [] = []
trim_end (c ∷ cs) =
    let rest = trim_end cs in if is_whitespace c && length rest == 0 then [] else c ∷ rest

abbrev pub trim : List ℕ → List ℕ
trim text = trim_end (trim_start text)

-- What the check logs; it never ends the connection.
pub data PinLog : Type 0 where
  matches : PinLog
  mismatch : PinLog
  undecodable : PinLog

-- The certificate's base64 coding is the package base64's.
module _ (decode : List ℕ → Option (List ℕ)) where
  abbrev pub pin_log : List ℕ → Option (List ℕ) → PinLog
  pin_log presented_der none = undecodable
  pin_log presented_der (some decoded) =
      if contains_subslice decoded presented_der then matches else mismatch

  unfoldable pub check_cert_pin : Option (List ℕ) → List ℕ → Option PinLog
  check_cert_pin none presented_der = none
  check_cert_pin (some target_certificate) presented_der =
      some (pin_log presented_der (decode (trim (utf16le_to_string target_certificate))))

-- The fields of the package's `RdpServerRedirectionPacket` that are used.
pub record RedirectionPacket : Type 0 where
  pub load_balance_info : Option (List ℕ)
  pub packet_user_name : Option (List ℕ)
  pub packet_domain : Option (List ℕ)
  pub packet_password : Option (List ℕ)
  pub packet_redirection_guid : Option (List ℕ)
  pub packet_target_certificate : Option (List ℕ)

pub record PendingRedirect : Type 0 where
  pub routing_token : Option (List ℕ)
  pub user_name : List ℕ
  pub domain : List ℕ
  pub password : List ℕ
  pub redirection_guid : List ℕ
  pub target_certificate : Option (List ℕ)

abbrev pub unwrap_or_default : Option (List ℕ) → List ℕ
unwrap_or_default none = []
unwrap_or_default (some bytes) = bytes

unfoldable pub from_packet : RedirectionPacket → PendingRedirect
from_packet p = record {
  routing_token = p.load_balance_info;
  user_name = unwrap_or_default (p.packet_user_name);
  domain = unwrap_or_default (p.packet_domain);
  password = unwrap_or_default (p.packet_password);
  redirection_guid = unwrap_or_default (p.packet_redirection_guid);
  target_certificate = p.packet_target_certificate;
}
