-- ===== src/Tests/Forward.antt =====
-- A request forwarded through an upstream that asks once for credentials, a request that an origin refuses,
-- and a server that is shut down.
use zicade_rs.Prelude.{
  Result, ℕ, ◌+◌, ◌==◌, ◌≡◌, none, some, List, [], ◌∷◌, ok, err, if◌then◌else◌, arith, refl, All,
}
use zicade_rs.Text.{Str, text, str_eq, decimal}
use zicade_rs.Tests.Data.{counting_step, shifting}
use zicade_rs.Proxy.Driver.{UpstreamAuth}
use zicade_rs.Proxy.Forward.{HttpClient, Parts, forward_handshake}
use zicade_rs.Proxy.Forward.Bounded.{Ends, forward_handshake-Ends}
use zicade_rs.Proxy.Forward.Clean.{IsClean, forward_handshake-IsClean}
use zicade_rs.Proxy.Tracker.{
  Call, ConnectionSnapshot, calls, starts, tunnel, add_up, fail, http, new, run, start, close,
  push_history,
}
use zicade_rs.Proxy.Service.{
  Outside, Uri, Authority, Routing, Opened, proxy_service, authority_target, forward_tracked,
  forward_http,
}
use zicade_rs.Proxy.Service.Unchallenged.{NoChallenge, via_upstream, proxy_service-NoChallenge}
use zicade_rs.App.Route.{UpstreamTarget, UpstreamAuth as RouteAuth}
use zicade_rs.Proxy.Service.Told.{Told, proxy_service-Told}
use zicade_rs.App.PacRouter.{Router, new_cache, cache_ttl}
use zicade_rs.App.PacRouter.Unavailable.{broken_router, proxy_service-bad_gateway}
use zicade_rs.Config.Model.{default_routing, default_pac}
use zicade_rs.Tests.Data.{shifting}
use zicade_rs.Proxy.Service.{own, bad_gateway}
use zicade_rs.Proxy.Server.{
  finished, join, of_drain, shutdown, end, detach, spawned, begin, Conn, accepting, of_task, Reach,
  Task, ended, upgrading, Server, serving, draining, stopped, new_server, spawn, accept, set, here,
  next,
}
use zicade_rs.Proxy.Server.Sound.{IsSound, Reach-IsSound}

-- The connection counts the requests; the first is answered by a 407.
abbrev asks_once : HttpClient Str (Unit {0}) ℕ
asks_once = record {
  ready = λ w. (ok tt, w);
  send_request = λ q w. (
    ok (record {
      status = if w == 0 then 407 else 200;
      headers = (text "proxy-authenticate", text "NTLM") ∷ [];
      body = tt;
    }),
    w + 1,
  );
  collect_limited = λ body w. (ok tt, w);
  to_str = λ v. some v;
  header_value = λ s. some s;
}

abbrev get_parts : Parts Str
get_parts = record {
  method = text "GET";
  uri = text "http://a/";
  headers = (text "proxy-authorization", text "Basic mine") ∷ (text "accept", text "*/*") ∷ [];
}

forward_handshake-Ends_example :
    Ends asks_once
      (record { conn = 0; sent = [] })
      (forward_handshake asks_once shifting counting_step get_parts []
        (UpstreamAuth.negotiate 0)
        (record { conn = 0; sent = [] }))
forward_handshake-Ends_example =
    forward_handshake-Ends asks_once shifting counting_step get_parts [] (UpstreamAuth.negotiate 0)
      (record { conn = 0; sent = [] })

forward_handshake-IsClean_example :
    All
      (IsClean asks_once shifting counting_step (UpstreamAuth.negotiate 0) get_parts [])
      (forward_handshake asks_once shifting counting_step get_parts []
        (UpstreamAuth.negotiate 0)
        (record { conn = 0; sent = [] })).1.sent
forward_handshake-IsClean_example =
    forward_handshake-IsClean asks_once shifting counting_step (UpstreamAuth.negotiate 0) get_parts
      [] 0

abbrev at_a : Authority
at_a = record { host = text "a"; port_u16 = none; shown = text "a" }

abbrev uri_a : Uri
uri_a = record { authority = some at_a; path_and_query = some (text "/"); shown = text "http://a/" }

-- The origin takes one frame of the body and closes.
abbrev refusing : Outside
refusing = record {
  connect = λ target dst. err (text "no route");
  upgrade = ok tt;
  splice = λ dst addr. [];
  dial_and_splice = λ dst. [];
  send_to_origin = λ target parts. (3 ∷ [], err (text "refused"));
  forward_via_upstream = λ target parts. ([], err (text "no route"));
  parse_uri = λ s. some uri_a;
  root = uri_a;
  header_value = λ s. some s;
}

abbrev get_a : Parts Uri
get_a = record {
  method = text "GET";
  uri = uri_a;
  headers = (text "proxy-connection", text "keep-alive") ∷ (text "accept", text "*/*") ∷ [];
}

abbrev entry_a : Opened
entry_a = record {
  kind = http (text "GET") none;
  target = text "a:80";
  route = text "direct";
  calls = add_up 3 ∷ fail (text "refused") ∷ [];
}

abbrev among_others : List Call
among_others =
    calls 1 (add_up 3)
    ∷ starts tunnel (text "b:443") (text "direct") none 0 2
    ∷ calls 1 (fail (text "refused"))
    ∷ []

entry_a_opened : (proxy_service refusing Routing.direct get_a).opened ≡ some entry_a
unfolding proxy_service authority_target forward_tracked forward_http str_eq decimal
entry_a_opened = refl

proxy_service-Told_example :
    (s : ConnectionSnapshot) × ((close 1 9
        (run (start entry_a.kind entry_a.target entry_a.route none 0 1 new) among_others)).history
      ≡ push_history s
          (run (start entry_a.kind entry_a.target entry_a.route none 0 1 new) among_others).history)
    × (s.target ≡ text "a:80")
    × Told (text "GET") (proxy_service refusing Routing.direct get_a).answer s.state
proxy_service-Told_example =
    proxy_service-Told refusing Routing.direct get_a entry_a none 0 1 9 new among_others
      entry_a_opened (omega arith) tt refl

abbrev one_accepted : Server ℕ
one_accepted = record (spawn (new_server 7)) { routing = 8 }

abbrev first_conn : Task → Conn ℕ
first_conn task = record { number = 0; routing = 7; task = task }

-- A server that has returned while the tunnel of its connection still runs, uncounted by the gauge.
abbrev left_behind : Server ℕ
left_behind = record {
  routing = 8;
  conns = [];
  tunnels = first_conn serving ∷ [];
  active = 0;
  accepted = 1;
  phase = stopped;
  granted = (0, 7) ∷ [];
}

abbrev before_end : Server ℕ
before_end = record left_behind { conns = first_conn upgrading ∷ []; active = 1; phase = accepting }

abbrev shutting_down : Server ℕ
shutting_down = record left_behind { conns = first_conn ended ∷ []; phase = draining }

left_behind_reached : Reach (new_server 7) left_behind
left_behind_reached =
    next
      (next
        (next
          (next
            (next
              (next (next (next here (accept (new_server 7) refl)) (set (spawn (new_server 7)) 8))
                (of_task (begin one_accepted [] [] (first_conn spawned) refl refl)))
              (of_task (
                detach (record before_end { conns = first_conn serving ∷ []; tunnels = [] }) [] []
                  (first_conn serving) refl refl)))
            (of_task (end before_end [] [] (first_conn upgrading) refl refl)))
          (shutdown (record shutting_down { phase = accepting }) refl))
        (of_drain (join shutting_down [] [] (first_conn ended) (λ e. cc) refl refl)))
      (of_drain (finished (record shutting_down { conns = [] }) (λ e. cc) (λ e. cc) refl))

Reach-IsSound_example : IsSound left_behind
Reach-IsSound_example = Reach-IsSound 7 left_behind_reached

abbrev busy : Server ℕ
busy = record {
  routing = 8;
  conns = record { number = 0; routing = 7; task = serving } ∷ [];
  tunnels = [];
  active = 1;
  accepted = 1;
  phase = draining;
  granted = (0, 7) ∷ [];
}

-- The connection answers a CONNECT while the drain is on, and the wait runs out.
abbrev upgraded : Server ℕ
upgraded = record busy {
  conns = record { number = 0; routing = 7; task = upgrading } ∷ [];
  tunnels = record { number = 0; routing = 7; task = serving } ∷ [];
}

-- The upstream that asks once, for requests with a parsed URI.
abbrev asks_once_for : HttpClient Uri (Unit {0}) ℕ
asks_once_for = record {
  ready = λ w. (ok tt, w);
  send_request = λ q w. (
    ok (record {
      status = if w == 0 then 407 else 200;
      headers = (text "proxy-authenticate", text "NTLM") ∷ [];
      body = tt;
    }),
    w + 1,
  );
  collect_limited = λ body w. (ok tt, w);
  to_str = λ v. some v;
  header_value = λ s. some s;
}

abbrev upstream_gw : UpstreamTarget
upstream_gw = record { addr = text "gw:8080"; auth = RouteAuth.none; pool = none }

abbrev as_ntlm : UpstreamTarget → UpstreamAuth ℕ
as_ntlm target = UpstreamAuth.negotiate 0

abbrev dial_gw : Str → Result Str ℕ
dial_gw addr = ok 0

proxy_service-NoChallenge_example :
    NoChallenge
      (proxy_service
        (record refusing {
          forward_via_upstream =
              via_upstream asks_once_for shifting counting_step as_ntlm dial_gw
                (λ body. [])
                ([], ok []);
        })
        (Routing.upstream upstream_gw)
        get_a).answer
proxy_service-NoChallenge_example =
    proxy_service-NoChallenge asks_once_for shifting counting_step as_ntlm dial_gw (λ body. [])
      ([], ok []) refusing upstream_gw get_a

abbrev no_backend : Router
no_backend = record {
  routing = record default_routing { pac = some default_pac };
  cache = new_cache cache_ttl;
  pools = none;
}

proxy_service-bad_gateway_example :
    (proxy_service refusing
      (Routing.pac (broken_router shifting (text "no WinHTTP") no_backend 1 2))
      get_a).answer
    ≡ own bad_gateway
unfolding authority_target decimal
proxy_service-bad_gateway_example =
    proxy_service-bad_gateway shifting (text "no WinHTTP") refusing no_backend default_pac 1 2 get_a
      (text "a:80") refl refl refl refl
