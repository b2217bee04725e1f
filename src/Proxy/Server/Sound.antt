-- ===== src/Proxy/Server/Sound.antt =====
-- The invariant of the accept loop.
use zicade_rs.Prelude.{
  ℕ, ◌+◌, ◌-◌, ◌≡◌, ◌≢◌, ◌≤◌, List, [], ◌∷◌, ◌++◌, refl, sym, ap, ◌∙◌, subst, arith, All, Any, inl,
  inr,
}
use zicade_rs.Proxy.Server.{
  Task, spawned, serving, upgrading, ended, Phase, accepting, draining, aborting, stopped, Conn,
  Server, one_if_active, new_server, active_count, move, DrainStep, join, abort_all, finished,
  TaskStep, begin, detach, end, cancelled, tunnel_end, Step, set, accept, accept_error, shutdown,
  of_task, of_drain, Reach, here, next,
}

module _ {R : Type 0} where
  -- Nothing is left in the set of a server that has stopped.
  abbrev pub IsEmptyIfStopped : Phase → List (Conn R) → Type 0
  IsEmptyIfStopped stopped cs = cs ≡ []
  IsEmptyIfStopped accepting cs = Unit
  IsEmptyIfStopped draining cs = Unit
  IsEmptyIfStopped aborting cs = Unit

  abbrev pub HasGranted : List (ℕ × R) → Conn R → Type 0
  HasGranted granted c = Any (λ g. g ≡ (c.number, c.routing)) granted

  pub record IsSound (s : Server R) : Type 0 where
    pub gauge : s.active ≡ active_count s.conns
    pub own_routing : All (HasGranted s.granted) s.conns
    pub tunnel_routing : All (HasGranted s.granted) s.tunnels
    pub empty : IsEmptyIfStopped s.phase s.conns

  active_count-append :
      (xs ys : List (Conn R)) → active_count (xs ++ ys) ≡ active_count xs + active_count ys
  active_count-append [] ys = omega arith
  active_count-append (x ∷ xs) ys = omega (arith, active_count-append xs ys)

  All-append :
      (g : List (ℕ × R)) (xs ys : List (Conn R))
      → All (HasGranted g) xs
      → All (HasGranted g) ys
      → All (HasGranted g) (xs ++ ys)
  All-append g [] ys h k = k
  All-append g (x ∷ xs) ys h k = (h.0, All-append g xs ys h.1 k)

  -- What holds of a list with one element in its middle holds of the parts.
  All-parts :
      (g : List (ℕ × R)) (xs ys : List (Conn R)) (c : Conn R)
      → All (HasGranted g) (xs ++ (c ∷ ys))
      → All (HasGranted g) xs × HasGranted g c × All (HasGranted g) ys
  All-parts g [] ys c h = (tt, h.0, h.1)
  All-parts g (x ∷ xs) ys c h = let k = All-parts g xs ys c h.1 in ((h.0, k.0), k.1, k.2)

  All-more :
      (g : List (ℕ × R)) (x : ℕ × R) (cs : List (Conn R))
      → All (HasGranted g) cs
      → All (HasGranted (x ∷ g)) cs
  All-more g x [] h = tt
  All-more g x (c ∷ cs) h = (inr h.0, All-more g x cs h.1)

  never_empty : (before after : List (Conn R)) (c : Conn R) → before ++ (c ∷ after) ≢ []
  never_empty [] after c e = cc
  never_empty (x ∷ before) after c e = cc

  -- A set with an element is that of no stopped server.
  empty_replaced :
      (p : Phase) (before after cs : List (Conn R)) (c d : Conn R)
      → cs ≡ before ++ (c ∷ after)
      → IsEmptyIfStopped p cs
      → IsEmptyIfStopped p (before ++ (d ∷ after))
  empty_replaced accepting before after cs c d e h = tt
  empty_replaced draining before after cs c d e h = tt
  empty_replaced aborting before after cs c d e h = tt
  empty_replaced stopped before after cs c d e h = absurd (never_empty before after c (sym e ∙ h))

  not_stopped : (p : Phase) (cs : List (Conn R)) → p ≢ stopped → IsEmptyIfStopped p cs
  not_stopped accepting cs h = tt
  not_stopped draining cs h = tt
  not_stopped aborting cs h = tt
  not_stopped stopped cs h = absurd (h refl)

  -- One task changes its state, and the gauge follows it.
  replace-IsSound :
      (s : Server R) (before after : List (Conn R)) (c : Conn R) (task : Task) (active : ℕ)
      → s.conns ≡ before ++ (c ∷ after)
      → active + one_if_active c.task ≡ s.active + one_if_active task
      → IsSound s
      → IsSound (move s before after c task active)
  replace-IsSound s before after c task active e moved v =
      let parts =
        All-parts s.granted before after c (subst (All (HasGranted s.granted)) e v.own_routing) in
      record {
        gauge = omega (
          arith,
          v.gauge,
          ap active_count e,
          active_count-append before (c ∷ after),
          active_count-append before (record c { task = task } ∷ after),
        );
        own_routing =
            All-append s.granted before (record c { task = task } ∷ after) parts.0
              (parts.1, parts.2);
        tunnel_routing = v.tunnel_routing;
        empty = empty_replaced s.phase before after s.conns c (record c { task = task }) e v.empty;
      }

  DrainStep-IsSound : {s u : Server R} → DrainStep s u → IsSound s → IsSound u
  DrainStep-IsSound (join s before after c going e over) v =
      let parts =
        All-parts s.granted before after c (subst (All (HasGranted s.granted)) e v.own_routing) in
      record {
        gauge = omega (
          arith,
          v.gauge,
          ap active_count e,
          active_count-append before (c ∷ after),
          active_count-append before after,
          ap one_if_active over,
        );
        own_routing = All-append s.granted before after parts.0 parts.2;
        tunnel_routing = v.tunnel_routing;
        empty = not_stopped s.phase (before ++ after) going;
      }
  DrainStep-IsSound (abort_all s p) v = record {
    gauge = v.gauge;
    own_routing = v.own_routing;
    tunnel_routing = v.tunnel_routing;
    empty = tt;
  }
  DrainStep-IsSound (finished s p going none_left) v = record {
    gauge = v.gauge;
    own_routing = v.own_routing;
    tunnel_routing = v.tunnel_routing;
    empty = none_left;
  }

  -- The guard of a task of the set is one of those that the gauge counts.
  counted :
      (s : Server R) (before after : List (Conn R)) (c : Conn R)
      → s.conns ≡ before ++ (c ∷ after)
      → IsSound s
      → one_if_active c.task ≤ s.active
  counted s before after c e v =
      omega (arith, v.gauge, ap active_count e, active_count-append before (c ∷ after))

  TaskStep-IsSound : {s u : Server R} → TaskStep s u → IsSound s → IsSound u
  TaskStep-IsSound (begin s before after c e idle) v =
      replace-IsSound s before after c serving (s.active + 1) e
        (ground (arith, ap one_if_active idle)) v
  TaskStep-IsSound (detach s before after c e busy) v =
      let w =
        replace-IsSound s before after c upgrading s.active e
          (ground (arith, ap one_if_active busy)) v in
      let parts =
        All-parts s.granted before after c (subst (All (HasGranted s.granted)) e v.own_routing) in
      record {
        gauge = w.gauge;
        own_routing = w.own_routing;
        tunnel_routing = (parts.1, v.tunnel_routing);
        empty = w.empty;
      }
  TaskStep-IsSound (end s before after c e busy) v =
      replace-IsSound s before after c ended (s.active - 1) e
        (omega (arith, busy, counted s before after c e v)) v
  TaskStep-IsSound (cancelled s before after c p e left) v =
      replace-IsSound s before after c ended (s.active - one_if_active c.task) e
        (omega (arith, counted s before after c e v)) v
  TaskStep-IsSound (tunnel_end s before after c e) v =
      let parts =
        All-parts s.granted before after c
          (subst (All (HasGranted s.granted)) e v.tunnel_routing) in
      record {
        gauge = v.gauge;
        own_routing = v.own_routing;
        tunnel_routing = All-append s.granted before after parts.0 parts.2;
        empty = v.empty;
      }

  Step-IsSound : {s u : Server R} → Step s u → IsSound s → IsSound u
  Step-IsSound (set s routing) v = record {
    gauge = v.gauge;
    own_routing = v.own_routing;
    tunnel_routing = v.tunnel_routing;
    empty = v.empty;
  }
  Step-IsSound (accept s p) v =
      let c : Conn R = record { number = s.accepted; routing = s.routing; task = spawned } in
      let grant : ℕ × R = (s.accepted, s.routing) in
      record {
        gauge = omega (arith, v.gauge, active_count-append s.conns (c ∷ []));
        own_routing =
            All-append (grant ∷ s.granted) s.conns (c ∷ [])
              (All-more s.granted grant s.conns v.own_routing) (inl refl, tt);
        tunnel_routing = All-more s.granted grant s.tunnels v.tunnel_routing;
        empty = subst (λ q. IsEmptyIfStopped q (s.conns ++ (c ∷ []))) (sym p) tt;
      }
  Step-IsSound (accept_error s p) v = v
  Step-IsSound (shutdown s p) v = record {
    gauge = v.gauge;
    own_routing = v.own_routing;
    tunnel_routing = v.tunnel_routing;
    empty = tt;
  }
  Step-IsSound (of_task t) v = TaskStep-IsSound t v
  Step-IsSound (of_drain d) v = DrainStep-IsSound d v

  new_server-IsSound : (routing : R) → IsSound (new_server routing)
  new_server-IsSound routing = record {
    gauge = refl;
    own_routing = tt;
    tunnel_routing = tt;
    empty = tt;
  }

  -- However accepts, errors, edits of the routing, tasks, tunnels and the shutdown interleave, the gauge
  -- counts the connection tasks of the set that hold their guard, and no tunnel that outlives its
  -- connection's task. Every connection, and every tunnel, has the routing that was current when the
  -- connection was accepted. A server that has stopped has no connection task left; tunnels may be.
  pub Reach-IsSound : (routing : R) {u : Server R} → Reach (new_server routing) u → IsSound u
  Reach-IsSound routing here = new_server-IsSound routing
  Reach-IsSound routing (next r st) = Step-IsSound st (Reach-IsSound routing r)
