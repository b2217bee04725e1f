-- ===== src/Auth/Handshake.antt =====
-- crates/zicade-auth/src/handshake.rs, authenticator.rs and error.rs: the Negotiate handshake
-- machine, over any authenticator. The authenticator is another component's (SSPI) and enters as
-- its `step` on a context that it may change even when it fails.
pub mod Legs
pub mod Finish
pub mod Consults
use zicade_rs.Prelude.{
  ℕ, ◌+◌, ◌%◌, Bool, true, false, ◌&&◌, ◌++◌, Option, none, some, List, [], ◌∷◌, leb, if◌then◌else◌,
  is_none, Result, ok, err,
}
use zicade_rs.Text.{Str, text, decimal}

abbrev pub Bytes : Type 0
Bytes = List ℕ

pub data AuthError : Type 0 where
  too_many_legs : ℕ → AuthError
  rejected : AuthError
  authenticator : Str → AuthError

-- The `Display` texts that `thiserror` derives.
unfoldable pub describe_auth_error : AuthError → Str
unfolding decimal
describe_auth_error (too_many_legs max) =
    text "negotiate handshake exceeded " ++ (decimal max ++ text " legs")
describe_auth_error rejected = text "upstream rejected the negotiate credentials"
describe_auth_error (authenticator why) = text "authenticator failed: " ++ why

pub data UpstreamResponse : Type 0 where
  proxy_auth_required : Option Bytes → UpstreamResponse
  success : UpstreamResponse
  other : ℕ → UpstreamResponse

pub data HandshakeStep : Type 0 where
  send_token : Bytes → HandshakeStep
  complete : HandshakeStep

-- `UpstreamAuthenticator::step`.
abbrev pub StepFn : Type 0 → Type 0
StepFn C = C → Option Bytes → C × Result AuthError Bytes

pub record NegotiateHandshake (C : Type 0) : Type 0 where
  pub auth : C
  pub legs : ℕ
  pub max_legs : ℕ
  pub started : Bool
  pub done : Bool

abbrev pub default_max_legs : ℕ
default_max_legs = 10

abbrev pub u32_modulus : ℕ
u32_modulus = 4294967296

unfoldable pub new : {C : Type 0} → C → NegotiateHandshake C
new auth = record {
  auth = auth;
  legs = 0;
  max_legs = default_max_legs;
  started = false;
  done = false;
}

unfoldable pub with_max_legs : {C : Type 0} → NegotiateHandshake C → ℕ → NegotiateHandshake C
with_max_legs h max_legs = record h { max_legs = max_legs }

module _ {C : Type 0} (step : StepFn C) where
  -- What `advance` does with the authenticator's answer.
  abbrev pub after_step :
      NegotiateHandshake C
      → C × Result AuthError Bytes
      → NegotiateHandshake C × Result AuthError HandshakeStep
  after_step h (auth, err e) = (record h { auth = auth }, err e)
  after_step h (auth, ok token) = (
    record h { auth = auth; legs = (h.legs + 1) % u32_modulus; started = true },
    ok (send_token token),
  )

  unfoldable pub advance :
      NegotiateHandshake C → Option Bytes → NegotiateHandshake C × Result AuthError HandshakeStep
  advance h challenge =
      if h.started && is_none challenge
      then (h, err rejected)
      else (if leb h.max_legs h.legs
          then (h, err (too_many_legs h.max_legs))
          else after_step h (step h.auth challenge))

  abbrev pub respond :
      NegotiateHandshake C
      → UpstreamResponse
      → NegotiateHandshake C × Result AuthError HandshakeStep
  respond h success = (record h { done = true }, ok complete)
  respond h (other status) = (record h { done = true }, ok complete)
  respond h (proxy_auth_required challenge) = advance h challenge

  unfoldable pub on_response :
      NegotiateHandshake C
      → UpstreamResponse
      → NegotiateHandshake C × Result AuthError HandshakeStep
  unfolding advance
  on_response h response = if h.done then (h, ok complete) else respond h response

  -- The caller's use of the machine: one call for each response.
  unfoldable pub run :
      NegotiateHandshake C
      → List UpstreamResponse
      → NegotiateHandshake C × List (Result AuthError HandshakeStep)
  run h [] = (h, [])
  run h (r ∷ rs) = let (h', o) = on_response h r in let (h'', os) = run h' rs in (h'', o ∷ os)
