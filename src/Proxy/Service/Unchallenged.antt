-- ===== src/Proxy/Service/Unchallenged.antt =====
-- The forwarding through an upstream as the proxy's handlers use it, and what they may rely on.
use zicade_rs.Prelude.{
  ℕ, ◌≢◌, inl, inr, Bool-cases, Result-cases, Option, none, some, List, [], Result, ok, err, ◌>>=◌,
  arith,
}
use zicade_rs.Text.{Str}
use zicade_rs.Auth.Handshake.{Bytes, StepFn}
use zicade_rs.Auth.Header.{Base64}
use zicade_rs.App.Route.{UpstreamTarget}
use zicade_rs.Proxy.Driver.{UpstreamAuth}
use zicade_rs.Proxy.Forward.{HttpClient, Parts, Response, forward_via_upstream, proxy_auth_status}
use zicade_rs.Proxy.Forward.Bounded.{forward_handshake-Ends}
use zicade_rs.Proxy.Tracker.{HandleCall}
use zicade_rs.Proxy.Service.{
  Outside, Routing, Uri, Answer, own, passed, Relayed, proxy_service, forward_tracked, conclude,
  serve_target, is_connect, authority_target, handle_connect_upstream,
}

-- What a relayed response may be.
abbrev NoChallengeIn : Result Str (Response (List ℕ)) → Type 0
NoChallengeIn (ok resp) = resp.status ≢ proxy_auth_status
NoChallengeIn (err e) = Unit

abbrev pub NoChallenge : Answer → Type 0
NoChallenge (own n) = n ≢ proxy_auth_status
NoChallenge (passed resp) = resp.status ≢ proxy_auth_status

-- The law of the forwarding: it hands out no challenge of the upstream's.
pub record IsUpstream (forward : UpstreamTarget → Parts Uri → Relayed) : Type 0 where
  pub answered :
      (target : UpstreamTarget) (parts : Parts Uri) → NoChallengeIn (forward target parts).1

module _ (out : Outside) (law : IsUpstream out.forward_via_upstream) where
  conclude-NoChallenge :
      (relayed : Relayed) (before : List HandleCall)
      → NoChallengeIn relayed.1
      → NoChallenge (conclude before relayed.1).0
  conclude-NoChallenge (frames, ok resp) before h = h
  conclude-NoChallenge (frames, err e) before h = omega arith

  connect-NoChallenge :
      (dst : Str) (target : UpstreamTarget) → NoChallenge (handle_connect_upstream out dst target).0
  unfolding handle_connect_upstream
  connect-NoChallenge dst target = elim (Result-cases (out.connect target dst)) [
    | inl (u, e) ↦ rw (handle_connect_upstream, e) (omega arith)
    | inr (why, e) ↦ rw (handle_connect_upstream, e) (omega arith)
  ]

  serve-NoChallenge :
      (target : UpstreamTarget) (parts : Parts Uri) (found : Option Str)
      → NoChallenge (serve_target out (Routing.upstream target) parts found).answer
  unfolding forward_tracked
  serve-NoChallenge target parts none = omega arith
  serve-NoChallenge target parts (some dst) = elim (Bool-cases (is_connect parts.method)) [
    | inl c ↦ rw c (connect-NoChallenge dst target)
    | inr c ↦
        rw c (
          conclude-NoChallenge (out.forward_via_upstream target parts) _
            (law.answered target parts))
  ]

-- The forwarding itself, as the handlers call it: the client's body is the frames that were taken of it
-- and what they add up to, and `frames` are those of a response's body.
module _ {B W C : Type 0} (http : HttpClient Uri B W) (b : Base64) (step : StepFn C)
    (auth_of : UpstreamTarget → UpstreamAuth C) (dial : Str → Result Str W) (frames : B → List ℕ)
    (body : List ℕ × Result Str Bytes) where
  abbrev pub framed : Response B → Response (List ℕ)
  framed resp = record { status = resp.status; headers = resp.headers; body = frames resp.body }

  unfoldable pub via_upstream : UpstreamTarget → Parts Uri → Relayed
  via_upstream target parts = (
    body.0,
    forward_via_upstream http b step parts body.1 (dial target.addr) (auth_of target) >>= λ resp.
        ok (framed resp),
  )

  forwarded-NoChallenge :
      (parts : Parts Uri) (bytes : Result Str Bytes) (conn : Result Str W) (auth : UpstreamAuth C)
      → NoChallengeIn
          (forward_via_upstream http b step parts bytes conn auth >>= λ resp. ok (framed resp))
  unfolding forward_via_upstream
  forwarded-NoChallenge parts (err e) conn auth = tt
  forwarded-NoChallenge parts (ok bytes) (err e) auth = tt
  forwarded-NoChallenge parts (ok bytes) (ok conn) auth =
      elim (forward_handshake-Ends http b step parts bytes auth
        (record { conn = conn; sent = [] })).1 [
          | inl (e, failed) ↦ rw (forward_via_upstream, failed) tt
          | inr (resp, legs, done, ne, some_leg, count) ↦ rw (forward_via_upstream, done) ne
        ]

  via_upstream-IsUpstream : IsUpstream via_upstream
  unfolding via_upstream
  via_upstream-IsUpstream = record {
    answered =
        λ target parts. forwarded-NoChallenge parts body.1 (dial target.addr) (auth_of target);
  }

  -- In upstream mode a client never gets a 407: every answer to a request is the proxy's own with
  -- another status, or a response of the upstream's to a request that it let through.
  pub proxy_service-NoChallenge :
      (out : Outside) (target : UpstreamTarget) (parts : Parts Uri)
      → NoChallenge
          (proxy_service
            (record out { forward_via_upstream = via_upstream })
            (Routing.upstream target)
            parts).answer
  unfolding proxy_service
  proxy_service-NoChallenge out target parts =
      serve-NoChallenge (record out { forward_via_upstream = via_upstream }) via_upstream-IsUpstream
        target parts (authority_target parts.uri)
