-- ===== src/Auth/Header.antt =====
-- crates/zicade-auth/src/header.rs: what a `Proxy-Authenticate` value offers, and the
-- `Proxy-Authorization` values. The base64 crate enters as a pair of functions.
pub mod RoundTrip
use zicade_rs.Prelude.{
  ℕ, ◌<◌, ◌≡◌, ◌≢◌, not, ◌++◌, Option, none, some, [], ◌∷◌, if◌then◌else◌, All, false, unwrap_or,
}
use zicade_rs.Text.{Str, text, trim, is_whitespace, split_once, eq_ignore_ascii_case, is_empty}
use zicade_rs.Auth.Handshake.{Bytes}

-- `STANDARD.encode` and `STANDARD.decode`; a text that is no base64 decodes to `none`.
pub record Base64 : Type 0 where
  pub encode : Bytes → Str
  pub decode : Str → Option Bytes

-- What RFC 4648 says of them: the encoding is over letters, digits, `+`, `/` and `=`, it is empty
-- for no bytes alone, and it is decoded to the bytes again.
pub record IsBase64 (b : Base64) : Type 0 where
  pub decode-encode : (bs : Bytes) → All (λ x. x < 256) bs → b.decode (b.encode bs) ≡ some bs
  pub encode_graphic : (bs : Bytes) → All (λ c. is_whitespace c ≡ false) (b.encode bs)
  pub encode-ne-nil : (bs : Bytes) → bs ≢ [] → b.encode bs ≢ []

pub data AuthScheme : Type 0 where
  negotiate ntlm : AuthScheme

unfoldable pub keyword : AuthScheme → Str
keyword negotiate = text "Negotiate"
keyword ntlm = text "NTLM"

pub data NegotiateOffer : Type 0 where
  not_offered : NegotiateOffer
  offered : AuthScheme → NegotiateOffer
  challenge : AuthScheme → Bytes → NegotiateOffer

abbrev pub offer_scheme : NegotiateOffer → Option AuthScheme
offer_scheme not_offered = none
offer_scheme (offered s) = some s
offer_scheme (challenge s token) = some s

abbrev pub offer_challenge : NegotiateOffer → Option Bytes
offer_challenge (challenge s token) = some token
offer_challenge (offered s) = none
offer_challenge not_offered = none

-- The keyword's scheme, in any case of its letters.
unfoldable pub scheme_of : Str → Option AuthScheme
scheme_of word =
    if eq_ignore_ascii_case word (text "negotiate")
    then some negotiate
    else (if eq_ignore_ascii_case word (text "ntlm") then some ntlm else none)

-- `value.splitn(2, char::is_whitespace)`: the first word, and the rest if there is white space.
unfoldable pub split_scheme : Str → Str × Option Str
split_scheme value = elim (split_once is_whitespace value) [
  | none ↦ (value, none)
  | some (word, rest) ↦ (word, some rest)
]

module _ (b : Base64) where
  -- A malformed token is treated as a bare offer.
  unfoldable pub with_token : AuthScheme → Str → NegotiateOffer
  with_token scheme token =
      if is_empty token
      then offered scheme
      else elim (b.decode token) [ none ↦ offered scheme | some bytes ↦ challenge scheme bytes ]

  abbrev pub offer_for : Option AuthScheme → Str → NegotiateOffer
  offer_for none token = not_offered
  offer_for (some scheme) token = with_token scheme token

  -- The second part is absent, or trimmed and kept if not empty.
  unfoldable pub parse_proxy_authenticate : Str → NegotiateOffer
  unfolding with_token scheme_of split_scheme
  parse_proxy_authenticate value =
      let (word, rest) = split_scheme (trim value) in
      offer_for (scheme_of word) (trim (unwrap_or [] rest))

  unfoldable pub build_proxy_authorization : AuthScheme → Bytes → Str
  unfolding keyword
  build_proxy_authorization scheme token = keyword scheme ++ (text " " ++ b.encode token)

  -- The texts are encoded as UTF-8; over ASCII the code points are the bytes.
  unfoldable pub build_basic_authorization : Str → Str → Str
  build_basic_authorization username password =
      text "Basic " ++ b.encode (username ++ (text ":" ++ password))
