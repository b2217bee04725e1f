-- ===== src/Proxy/Service/Told.antt =====
-- What the book of connections says of an answered request.
use zicade_rs.Prelude.{
  ℕ, ◌+◌, ◌<◌, ◌≡◌, ◌⊎◌, inl, inr, true, false, Bool-cases, Result-cases, Option, none, some, List,
  [], ◌∷◌, ◌++◌, Result, ok, err, refl, sym, ap, ◌∙◌, subst, arith,
}
use zicade_rs.Text.{Str}
use zicade_rs.App.Route.{UpstreamTarget}
use zicade_rs.App.PacRouter.{RouteChoice}
use zicade_rs.Proxy.Forward.{Parts, Response}
use zicade_rs.Proxy.Tracker.{
  Tracker, Call, HandleCall, ConnectionState, ConnectionSnapshot, set_status, fail, failed, closed,
  run, start, close, push_history, u64_modulus,
}
use zicade_rs.Proxy.Tracker.Outcome.{
  first_failure, final_state, calls_on, started_by, KeepsHandle, connection_outcome,
}
use zicade_rs.Proxy.Service.{
  http, ConnectionKind, tunnel, Outside, Routing, Uri, Answer, own, passed, Opened, Handled,
  bad_gateway, success, handle_connect, handle_connect_upstream, handle_connect_pac, connect_chosen,
  connect_by, forward_by, conclude, forward_tracked, proxy_service, is_connect, frames_up,
  frames_down, served, serve_target, authority_target, forward_chosen, forward_pac,
}

-- A 502 of the proxy's own comes with a failed entry, and a response that is passed on with a closed one;
-- a 200 of its own is the answer to a CONNECT.
abbrev pub Told : Str → Answer → ConnectionState → Type 0
Told method (own n) state =
    ((n ≡ bad_gateway) × ((why : Str) × (state ≡ failed why)))
    ⊎ ((n ≡ success) × (is_connect method ≡ true))
Told method (passed resp) state = (state ≡ closed) × (is_connect method ≡ false)

abbrev Tells : Str → Handled → Type 0
Tells method h = Told method h.0 (final_state (first_failure h.1))

first_failure-frames_up :
    (sizes : List ℕ) (rest : List HandleCall)
    → first_failure (frames_up sizes ++ rest) ≡ first_failure rest
first_failure-frames_up [] rest = refl
first_failure-frames_up (n ∷ sizes) rest = first_failure-frames_up sizes rest

first_failure-frames_down : (sizes : List ℕ) → first_failure (frames_down sizes) ≡ none
first_failure-frames_down [] = refl
first_failure-frames_down (n ∷ sizes) = first_failure-frames_down sizes

module _ (out : Outside) where
  handle_connect-Tells :
      (method : Str) (target : Str)
      → is_connect method ≡ true
      → Tells method (handle_connect out target)
  unfolding handle_connect
  handle_connect-Tells method target c = inr (refl, c)

  handle_connect_upstream-Tells :
      (method dst : Str) (target : UpstreamTarget)
      → is_connect method ≡ true
      → Tells method (handle_connect_upstream out dst target)
  unfolding handle_connect_upstream
  handle_connect_upstream-Tells method dst target c = elim (Result-cases (out.connect target dst)) [
    | inl (u, e) ↦ rw (handle_connect_upstream, e) (inr (refl, c))
    | inr (why, e) ↦ rw (handle_connect_upstream, e) (inl (refl, (_, refl)))
  ]

  connect_chosen-Tells :
      (method dst : Str) (choice : Result Str RouteChoice)
      → is_connect method ≡ true
      → Tells method (connect_chosen out choice dst)
  connect_chosen-Tells method dst (ok RouteChoice.direct) c = handle_connect-Tells method dst c
  connect_chosen-Tells method dst (ok (RouteChoice.upstream target)) c =
      handle_connect_upstream-Tells method dst target c
  connect_chosen-Tells method dst (err e) c = inl (refl, (_, refl))

  connect_by-Tells :
      (method : Str) (routing : Routing) (target : Str)
      → is_connect method ≡ true
      → Tells method (connect_by out routing target)
  unfolding handle_connect_pac
  connect_by-Tells method Routing.direct target c = handle_connect-Tells method target c
  connect_by-Tells method (Routing.upstream up) target c =
      handle_connect_upstream-Tells method target up c
  connect_by-Tells method (Routing.pac router) target c = connect_chosen-Tells method target _ c

  conclude-Tells :
      (method : Str) (before : List HandleCall) (r : Result Str (Response (List ℕ)))
      → is_connect method ≡ false
      → ((rest : List HandleCall) → first_failure (before ++ rest) ≡ first_failure rest)
      → Tells method (conclude before r)
  conclude-Tells method before (ok resp) c quiet = (
    ap final_state (
        quiet (set_status resp.status ∷ frames_down resp.body)
        ∙ first_failure-frames_down resp.body),
    c,
  )
  conclude-Tells method before (err e) c quiet =
      inl (refl, (e, ap final_state (quiet (fail e ∷ []))))

  -- Before the end, only the route is set and frames are counted.
  forward_by-quiet :
      (routing : Routing) (parts : Parts Uri) (sizes : List ℕ) (rest : List HandleCall)
      → first_failure (((forward_by out routing parts).0 ++ frames_up sizes) ++ rest)
        ≡ first_failure rest
  unfolding forward_pac
  forward_by-quiet Routing.direct parts sizes rest = first_failure-frames_up sizes rest
  forward_by-quiet (Routing.upstream target) parts sizes rest = first_failure-frames_up sizes rest
  forward_by-quiet (Routing.pac router) parts sizes rest = chosen (router parts.uri.shown)
    where
      chosen :
          (choice : Result Str RouteChoice)
          → first_failure (((forward_chosen out choice parts).0 ++ frames_up sizes) ++ rest)
            ≡ first_failure rest
      chosen (ok RouteChoice.direct) = first_failure-frames_up sizes rest
      chosen (ok (RouteChoice.upstream target)) = first_failure-frames_up sizes rest
      chosen (err e) = first_failure-frames_up sizes rest

  forward_tracked-Tells :
      (routing : Routing) (parts : Parts Uri)
      → is_connect parts.method ≡ false
      → Tells parts.method (forward_tracked out routing parts)
  unfolding forward_tracked
  forward_tracked-Tells routing parts c =
      let sizes = (forward_by out routing parts).1.0 in
      conclude-Tells parts.method ((forward_by out routing parts).0 ++ frames_up sizes)
        (forward_by out routing parts).1.1 c (forward_by-quiet routing parts sizes)

  some_injective : {a o : Opened} → some a ≡ some o → a ≡ o
  some_injective e = ground (arith, e)

  handled-Told :
      (method : Str) (routing : Routing) (kind : ConnectionKind) (target : Str) (h : Handled)
      (o : Opened)
      → Tells method h
      → (served routing kind target h).opened ≡ some o
      → Told method h.0 (final_state (first_failure o.calls))
  handled-Told method routing kind target h o tells e =
      subst (λ (x : Opened). Told method h.0 (final_state (first_failure x.calls)))
        (some_injective e) tells

  served-Told :
      (routing : Routing) (parts : Parts Uri) (target : Option Str) (o : Opened)
      → (serve_target out routing parts target).opened ≡ some o
      → Told parts.method
          (serve_target out routing parts target).answer
          (final_state (first_failure o.calls))
  served-Told routing parts none o e = absurd (ground (arith, e))
  served-Told routing parts (some target) o e = elim (Bool-cases (is_connect parts.method)) [
    | inl c ↦ rw c (
        handled-Told parts.method routing tunnel target (connect_by out routing target) o
          (connect_by-Tells parts.method routing target c) (rw c at e))
    | inr c ↦ rw c (
        handled-Told parts.method routing (http parts.method none) target
          (forward_tracked out routing parts) o (forward_tracked-Tells routing parts c) (rw c at e))
  ]

  -- A request that was registered leaves, once its handle is dropped, an entry in the history that
  -- tells how it was answered: failed for a 502 of the proxy's own, closed for a response that was
  -- passed on. The calls on its handle are those of the handlers, among any others on other handles,
  -- and ids do not wrap.
  pub proxy_service-Told :
      (routing : Routing) (parts : Parts Uri) (o : Opened) (client : Option Str)
      (system_now now later : ℕ) (t : Tracker) (cs : List Call)
      → (proxy_service out routing parts).opened ≡ some o
      → let id = t.next_id + 1 in
        id + started_by cs < u64_modulus
        → KeepsHandle id cs
        → calls_on id cs ≡ o.calls
        → let q = run (start o.kind o.target o.route client system_now now t) cs in
          (s : ConnectionSnapshot) × ((close id later q).history ≡ push_history s q.history)
          × (s.target ≡ o.target)
          × Told parts.method (proxy_service out routing parts).answer s.state
  unfolding proxy_service
  proxy_service-Told routing parts o client system_now now later t cs e room keeps own_calls =
      let w =
        connection_outcome o.kind o.target o.route client system_now now later t cs room keeps in
      (
        w.0,
        w.1,
        w.3,
        subst (Told parts.method (proxy_service out routing parts).answer)
            (sym (w.4 ∙ ap (λ l. final_state (first_failure l)) own_calls))
            (served-Told routing parts (authority_target parts.uri) o e),
      )
