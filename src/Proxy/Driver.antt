-- ===== src/Proxy/Driver.antt =====
-- crates/zicade-proxy/src/upstream/auth.rs: how a connection answers the upstream's challenges. The SSPI
-- authenticator is a parameter, as in the handshake machine. The warning on a SPNEGO token is a log; the
-- test that it stands on is here, and changes nothing else.
pub mod Scheme
use zicade_rs.Prelude.{
  leb, ◌||◌, not, unwrap_or, ◌&&◌, ◌==◌, ◌>>=◌, ℕ, Bool, true, false, Option, some, [], ◌∷◌, ◌++◌,
  List, Result, ok, err, filter, find, map, all,
}
use zicade_rs.Text.{
  starts_with, contains, is_ascii_digit, join, Str, text, str_eq, split_on, trim, split_whitespace,
  is_empty,
}
use zicade_rs.Auth.Handshake.{
  new, Bytes, AuthError, StepFn, NegotiateHandshake, on_response, HandshakeStep, send_token,
  complete, proxy_auth_required, describe_auth_error, UpstreamResponse,
}
use zicade_rs.Auth.Header.{
  Base64, AuthScheme, NegotiateOffer, not_offered, offer_scheme, offer_challenge,
  parse_proxy_authenticate, build_proxy_authorization,
}

abbrev pub Headers : Type 0
Headers = List (Str × Str)

-- What the connection's `UpstreamAuth` holds, with the factory's authenticator made.
pub data UpstreamAuth (C : Type 0) : Type 0 where
  none : UpstreamAuth C
  basic : Str → UpstreamAuth C
  negotiate : C → UpstreamAuth C

pub data AuthState (C : Type 0) : Type 0 where
  none : AuthState C
  basic : Str → Bool → AuthState C
  negotiate : NegotiateHandshake C → Option AuthScheme → AuthState C

unfoldable pub new_state : {C : Type 0} → UpstreamAuth C → AuthState C
new_state UpstreamAuth.none = AuthState.none
new_state (UpstreamAuth.basic credentials) = AuthState.basic credentials false
new_state (UpstreamAuth.negotiate auth) = AuthState.negotiate (new auth) Option.none

unfoldable pub initial_header : {C : Type 0} → AuthState C → Option Str × AuthState C
initial_header (AuthState.basic credentials sent) =
    (some credentials, AuthState.basic credentials true)
initial_header AuthState.none = (Option.none, AuthState.none)
initial_header (AuthState.negotiate handshake scheme) =
    (Option.none, AuthState.negotiate handshake scheme)

abbrev pub first_word : List Str → Str
first_word [] = []
first_word (w ∷ ws) = w

unfoldable pub scheme_name : Str → Str
scheme_name challenge = first_word (split_whitespace challenge)

unfoldable pub is_alphanumeric : ℕ → Bool
is_alphanumeric c = is_ascii_digit c || (leb b'a' c && leb c b'z') || (leb b'A' c && leb c b'Z')

unfoldable pub is_tchar : ℕ → Bool
unfolding is_alphanumeric contains
is_tchar c = is_alphanumeric c || contains c (text "!#$%&'*+-.^_`|~")

-- A piece starts a challenge when its first word is a token.
unfoldable pub is_challenge : Str → Bool
unfolding scheme_name is_tchar all
is_challenge piece = not (is_empty (scheme_name piece)) && all is_tchar (scheme_name piece)

unfoldable pub flat_map : {A B : Type 0} → (A → List B) → List A → List B
flat_map f [] = []
flat_map f (x ∷ xs) = f x ++ flat_map f xs

abbrev pub is_authenticate : Str × Str → Bool
is_authenticate (k, v) = str_eq k (text "proxy-authenticate")

unfoldable pub challenges : Headers → List Str
unfolding is_challenge flat_map
challenges headers = filter is_challenge (
    map trim (
      flat_map (λ (h : Str × Str). split_on (λ c. c == b',') h.1) (filter is_authenticate headers)))

abbrev pub is_offered : NegotiateOffer → Bool
is_offered not_offered = false
is_offered _ = true

unfoldable pub ntlmssp_signature : Bytes
ntlmssp_signature = text "NTLMSSP" ++ (0 ∷ [])

abbrev pub is_ntlm : AuthScheme → Bool
is_ntlm AuthScheme.ntlm = true
is_ntlm AuthScheme.negotiate = false

unfoldable pub spnego_under_ntlm : AuthScheme → Bytes → Bool
spnego_under_ntlm scheme token = is_ntlm scheme && not (starts_with ntlmssp_signature token)

-- The message of the `io::Error`.
unfoldable pub auth_io_err : AuthError → Str
auth_io_err e = text "upstream negotiate handshake failed: " ++ describe_auth_error e

module _ (b : Base64) where
  unfoldable pub negotiate_offer : Headers → NegotiateOffer
  unfolding find
  negotiate_offer headers =
      unwrap_or not_offered
        (find is_offered (map (parse_proxy_authenticate b) (challenges headers)))

  abbrev pub scheme_without_offer : List Str → Result Str AuthScheme
  scheme_without_offer [] = ok AuthScheme.negotiate
  scheme_without_offer (o ∷ offers) = err (
      text "upstream offers no Negotiate/NTLM proxy auth (offered: "
      ++ (join (text ", ") (o ∷ offers) ++ text ")"))

  abbrev pub scheme_or : Option AuthScheme → Headers → Result Str AuthScheme
  scheme_or (some advertised) headers = ok advertised
  scheme_or Option.none headers = scheme_without_offer (map scheme_name (challenges headers))

  unfoldable pub first_leg_scheme : Headers → NegotiateOffer → Result Str AuthScheme
  first_leg_scheme headers offer = scheme_or (offer_scheme offer) headers

  abbrev pub keyword_for : Option AuthScheme → Headers → Result Str AuthScheme
  keyword_for (some learned) headers = ok learned
  keyword_for Option.none headers = first_leg_scheme headers (negotiate_offer headers)

abbrev pub token_of : Result AuthError HandshakeStep → Result Str Bytes
token_of (ok (send_token token)) = ok token
token_of (ok complete) = err (text "handshake completed while upstream still demanded auth")
token_of (err e) = err (auth_io_err e)

module _ {C : Type 0} (b : Base64) (step : StepFn C) where
  unfoldable pub advance_handshake :
      NegotiateHandshake C → Option Bytes → Result Str Bytes × NegotiateHandshake C
  advance_handshake h challenge =
      let (h', outcome) = on_response step h (proxy_auth_required challenge) in
      (token_of outcome, h')

  -- Once the keyword is known it is kept, also when the handshake then fails.
  abbrev pub answer_leg :
      Result Str AuthScheme
      → NegotiateHandshake C
      → Option AuthScheme
      → Headers
      → Result Str Str × AuthState C
  answer_leg (err why) h scheme headers = (err why, AuthState.negotiate h scheme)
  answer_leg (ok keyword) h scheme headers =
      let (token, h') = advance_handshake h (offer_challenge (negotiate_offer b headers)) in
      (
        token >>= (λ t. ok (build_proxy_authorization b keyword t)),
        AuthState.negotiate h' (some keyword),
      )

  unfoldable pub negotiate_leg :
      NegotiateHandshake C → Option AuthScheme → Headers → Result Str Str × AuthState C
  negotiate_leg h scheme headers = answer_leg (keyword_for b scheme headers) h scheme headers

  unfoldable pub on_challenge : AuthState C → Headers → Result Str Str × AuthState C
  on_challenge AuthState.none headers =
      (err (text "upstream demanded proxy auth but none is configured"), AuthState.none)
  on_challenge (AuthState.basic credentials true) headers =
      (err (text "upstream rejected Basic proxy credentials"), AuthState.basic credentials true)
  on_challenge (AuthState.basic credentials false) headers =
      (ok credentials, AuthState.basic credentials true)
  on_challenge (AuthState.negotiate h scheme) headers = negotiate_leg h scheme headers

  -- The legs of a connection: one for each `407`.
  unfoldable pub legs : AuthState C → List Headers → List (Result Str Str) × AuthState C
  legs s [] = ([], s)
  legs s (headers ∷ rest) =
      let (o, s') = on_challenge s headers in let (os, s'') = legs s' rest in (o ∷ os, s'')
