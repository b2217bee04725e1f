-- ===== src/Auth/Header/RoundTrip.antt =====
-- A token sent under a keyword is read back under that keyword.
use zicade_rs.Prelude.{
  arith, ◌<◌, ◌≡◌, ◌≢◌, refl, ◌∙◌, ap, Option, unwrap_or, ◌++◌, some, [], ◌∷◌, All, false,
}
use zicade_rs.Text.{
  Str, text, trim, trim-append, trim_graphic, is_whitespace, split_once, is_empty,
  eq_ignore_ascii_case,
}
use zicade_rs.Auth.Handshake.{Bytes}
use zicade_rs.Auth.Header.{
  with_token, NegotiateOffer, Base64, IsBase64, AuthScheme, negotiate, ntlm, keyword, challenge,
  scheme_of, split_scheme, offer_for, parse_proxy_authenticate, build_proxy_authorization,
}

scheme_of-keyword : (s : AuthScheme) → scheme_of (keyword s) ≡ some s
unfolding scheme_of keyword eq_ignore_ascii_case
scheme_of-keyword negotiate = refl
scheme_of-keyword ntlm = refl

module _ (b : Base64) (laws : IsBase64 b) where
  -- The trimmed header value is the value itself, since a token that is not empty ends it.
  trim_value :
      (s : AuthScheme) (e : Str)
      → e ≢ []
      → All (λ c. is_whitespace c ≡ false) e
      → trim (keyword s ++ (text " " ++ e)) ≡ keyword s ++ (text " " ++ e)
  unfolding keyword is_whitespace
  trim_value negotiate e ne g = trim-append b'N' (text "egotiate ") e refl ne g
  trim_value ntlm e ne g = trim-append b'N' (text "TLM ") e refl ne g

  split_value :
      (s : AuthScheme) (e : Str) → split_scheme (keyword s ++ (text " " ++ e)) ≡ (keyword s, some e)
  unfolding split_scheme keyword split_once is_whitespace
  split_value negotiate e = refl
  split_value ntlm e = refl

  with_token_lem :
      (s : AuthScheme) (e : Str) {token : Bytes}
      → e ≢ []
      → b.decode e ≡ some token
      → with_token b s e ≡ challenge s token
  unfolding with_token is_empty
  with_token_lem s [] ne d = absurd (ne refl)
  with_token_lem s (c ∷ e) ne d = ground arith

  -- Parsing what was built gives the scheme and the token back, for a token of bytes that is not
  -- empty, under both schemes.
  pub parse_proxy_authenticate-build :
      (s : AuthScheme) (token : Bytes)
      → token ≢ []
      → All (λ x. x < 256) token
      → parse_proxy_authenticate b (build_proxy_authorization b s token) ≡ challenge s token
  unfolding parse_proxy_authenticate build_proxy_authorization
  parse_proxy_authenticate-build s token ne bytes =
      let e = b.encode token in
      let e-ne = laws.encode-ne-nil token ne in
      let graphic = laws.encode_graphic token in
      ap parse_trimmed (trim_value s e e-ne graphic)
      ∙ ap parse_split (split_value s e)
      ∙ ap (λ o. offer_for b o (trim e)) (scheme_of-keyword s)
      ∙ ap (with_token b s) (trim_graphic e graphic)
      ∙ with_token_lem s e e-ne (laws.decode-encode token bytes)
    where
      parse_split : Str × Option Str → NegotiateOffer
      parse_split (word, rest) = offer_for b (scheme_of word) (trim (unwrap_or [] rest))

      parse_trimmed : Str → NegotiateOffer
      parse_trimmed v = parse_split (split_scheme v)
