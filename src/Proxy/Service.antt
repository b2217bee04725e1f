-- ===== src/Proxy/Service.antt =====
-- crates/zicade-proxy/src/http_forward.rs and counting.rs: what the proxy answers to a request, and the
-- calls that it makes on the request's `Tracked` handle, in order. The sockets and hyper are outside: an
-- `Outside` says what each of them does for this request. A body is the sizes of its data frames.
pub mod Told
pub mod Origin
pub mod Unchallenged
use zicade_rs.Prelude.{
  ℕ, ◌==◌, ◌||◌, Bool, true, false, not, Option, none, some, List, [], ◌∷◌, ◌++◌, map, any, filter,
  if◌then◌else◌, unwrap_or, and_then, map_option, Result, ok, err,
}
use zicade_rs.Text.{Str, text, str_eq, decimal}
use zicade_rs.Auth.Handshake.{Bytes}
use zicade_rs.App.Route.{UpstreamTarget}
use zicade_rs.App.PacRouter.{RouteChoice}
use zicade_rs.Proxy.Forward.{HeaderMap, Parts, Response}
use zicade_rs.Proxy.Tracker.{
  ConnectionKind, HandleCall, add_up, add_down, set_route, set_status, fail, tunnel, http,
}

pub record Authority : Type 0 where
  pub host : Str
  pub port_u16 : Option ℕ
  pub shown : Str

-- A URI by what is read of it.
pub record Uri : Type 0 where
  pub authority : Option Authority
  pub path_and_query : Option Str
  pub shown : Str

pub data Routing : Type 0 where
  direct : Routing
  upstream : UpstreamTarget → Routing
  pac : (Str → Result Str RouteChoice) → Routing

-- The frames of the request's body that were taken, and the response with the frames of its body.
abbrev pub Relayed : Type 0
Relayed = List ℕ × Result Str (Response (List ℕ))

pub record Outside : Type 0 where
  pub connect : UpstreamTarget → Str → Result Str (Unit {0})
  pub upgrade : Result Str (Unit {0})
  pub splice : Str → Str → List HandleCall
  pub dial_and_splice : Str → List HandleCall
  pub send_to_origin : Str → Parts Uri → Relayed
  pub forward_via_upstream : UpstreamTarget → Parts Uri → Relayed
  pub parse_uri : Str → Option Uri
  pub root : Uri
  pub header_value : Str → Option Bytes

-- A response of the proxy's own, with an empty body, or one that it passes on.
pub data Answer : Type 0 where
  own : ℕ → Answer
  passed : Response (List ℕ) → Answer

pub record Opened : Type 0 where
  pub kind : ConnectionKind
  pub target : Str
  pub route : Str
  pub calls : List HandleCall

abbrev pub Handled : Type 0
Handled = Answer × List HandleCall

pub record Served : Type 0 where
  pub answer : Answer
  pub opened : Option Opened

abbrev pub bad_request : ℕ
bad_request = 400

abbrev pub bad_gateway : ℕ
bad_gateway = 502

abbrev pub success : ℕ
success = 200

-- The port is 80 where the authority has none.
abbrev pub target_text : Authority → Str
target_text a = a.host ++ (text ":" ++ decimal (unwrap_or 80 a.port_u16))

unfoldable pub authority_target : Uri → Option Str
authority_target uri = map_option target_text uri.authority

abbrev pub route_label : Routing → Str
route_label direct = text "direct"
route_label (upstream target) = target.addr
route_label (pac router) = text "pac"

abbrev pub contains_key : Str → HeaderMap → Bool
contains_key name headers = any (λ (h : Str × Bytes). str_eq h.0 name) headers

abbrev pub remove_key : Str → HeaderMap → HeaderMap
remove_key name headers = filter (λ (h : Str × Bytes). not (str_eq h.0 name)) headers

abbrev pub frames_up : List ℕ → List HandleCall
frames_up sizes = map add_up sizes

abbrev pub frames_down : List ℕ → List HandleCall
frames_down sizes = map add_down sizes

-- The spawned task: the tunnel's own calls once the client's connection is upgraded.
abbrev pub after_upgrade : Result Str (Unit {0}) → List HandleCall → List HandleCall
after_upgrade (ok u) calls = calls
after_upgrade (err e) calls = fail (text "CONNECT upgrade failed: " ++ e) ∷ []

abbrev pub conclude : List HandleCall → Result Str (Response (List ℕ)) → Handled
conclude before (ok resp) =
    (passed resp, before ++ (set_status resp.status ∷ frames_down resp.body))
conclude before (err e) = (own bad_gateway, before ++ (fail e ∷ []))

abbrev pub is_connect : Str → Bool
is_connect method = str_eq method (text "CONNECT")

abbrev pub served : Routing → ConnectionKind → Str → Handled → Served
served routing kind target handled = record {
  answer = handled.0;
  opened =
      some
        (record { kind = kind; target = target; route = route_label routing; calls = handled.1 });
}

module _ (out : Outside) where
  -- The header that is put in where there is none.
  abbrev pub host_header : Option Authority → HeaderMap
  host_header none = []
  host_header (some a) = elim (out.header_value a.shown) [
    | none ↦ []
    | some value ↦ (text "host", value) ∷ []
  ]

  unfoldable pub with_host : Parts Uri → HeaderMap
  with_host parts =
      if contains_key (text "host") parts.headers
      then parts.headers
      else parts.headers ++ host_header parts.uri.authority

  unfoldable pub to_origin_form : Parts Uri → Parts Uri
  unfolding with_host
  to_origin_form parts = record {
    method = parts.method;
    uri = unwrap_or out.root (out.parse_uri (unwrap_or (text "/") parts.uri.path_and_query));
    headers = remove_key (text "proxy-connection") (with_host parts);
  }

  unfoldable pub handle_connect : Str → Handled
  handle_connect target = (own success, after_upgrade out.upgrade (out.dial_and_splice target))

  abbrev pub after_connect : Result Str (Unit {0}) → Str → UpstreamTarget → Handled
  after_connect (err e) dst target =
      (own bad_gateway, fail (text "upstream CONNECT failed: " ++ e) ∷ [])
  after_connect (ok u) dst target =
      (own success, after_upgrade out.upgrade (out.splice dst target.addr))

  unfoldable pub handle_connect_upstream : Str → UpstreamTarget → Handled
  handle_connect_upstream dst target = after_connect (out.connect target dst) dst target

  abbrev pub connect_chosen : Result Str RouteChoice → Str → Handled
  connect_chosen (ok RouteChoice.direct) dst =
      let (answer, calls) = handle_connect dst in (answer, set_route (text "direct") ∷ calls)
  connect_chosen (ok (RouteChoice.upstream target)) dst =
      let (answer, calls) = handle_connect_upstream dst target in
      (answer, set_route target.addr ∷ calls)
  connect_chosen (err e) dst = (own bad_gateway, fail (text "PAC resolution failed: " ++ e) ∷ [])

  unfoldable pub handle_connect_pac : (Str → Result Str RouteChoice) → Str → Handled
  handle_connect_pac router dst = connect_chosen (router (text "https://" ++ dst)) dst

  abbrev pub to_origin : Option Str → Parts Uri → Relayed
  to_origin none parts = ([], err (text "request missing host authority"))
  to_origin (some target) parts = out.send_to_origin target (to_origin_form parts)

  unfoldable pub forward_http : Parts Uri → Relayed
  unfolding to_origin_form authority_target
  forward_http parts = to_origin (authority_target parts.uri) parts

  abbrev pub forward_chosen : Result Str RouteChoice → Parts Uri → List HandleCall × Relayed
  forward_chosen (ok RouteChoice.direct) parts =
      (set_route (text "direct") ∷ [], forward_http parts)
  forward_chosen (ok (RouteChoice.upstream target)) parts =
      (set_route target.addr ∷ [], out.forward_via_upstream target parts)
  forward_chosen (err e) parts = ([], ([], err e))

  unfoldable pub forward_pac :
      (Str → Result Str RouteChoice) → Parts Uri → List HandleCall × Relayed
  forward_pac router parts = forward_chosen (router parts.uri.shown) parts

  abbrev pub forward_by : Routing → Parts Uri → List HandleCall × Relayed
  forward_by direct parts = ([], forward_http parts)
  forward_by (upstream target) parts = ([], out.forward_via_upstream target parts)
  forward_by (pac router) parts = forward_pac router parts

  -- The body's frames are counted as they are taken, which is after the route is known.
  unfoldable pub forward_tracked : Routing → Parts Uri → Handled
  unfolding forward_http forward_pac
  forward_tracked routing parts =
      let (chosen, relayed) = forward_by routing parts in
      conclude (chosen ++ frames_up relayed.0) relayed.1

  abbrev pub connect_by : Routing → Str → Handled
  connect_by direct target = handle_connect target
  connect_by (upstream up) target = handle_connect_upstream target up
  connect_by (pac router) target = handle_connect_pac router target

  abbrev pub serve_target : Routing → Parts Uri → Option Str → Served
  serve_target routing parts none = record { answer = own bad_request; opened = none }
  serve_target routing parts (some target) =
      if is_connect parts.method
      then served routing tunnel target (connect_by routing target)
      else served routing (http parts.method none) target (forward_tracked routing parts)

  unfoldable pub proxy_service : Routing → Parts Uri → Served
  unfolding authority_target forward_tracked
  proxy_service routing parts = serve_target routing parts (authority_target parts.uri)
