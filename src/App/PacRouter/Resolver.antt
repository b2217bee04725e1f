-- ===== src/App/PacRouter/Resolver.antt =====
-- apps/zicade/src/pac_router.rs, the resolver thread: it builds its WinHTTP backend once and answers the
-- jobs of its channel one at a time. The backend's constructors and the canonical form of a path are
-- parameters.
use zicade_rs.Prelude.{
  ℕ, ◌==◌, Option, none, some, List, [], ◌∷◌, ◌++◌, map, if◌then◌else◌, unwrap_or, Result, ok, err,
  ◌>>=◌,
}
use zicade_rs.Text.{Str, text, strip_prefix}
use zicade_rs.Config.Model.{PacSource}
use zicade_rs.Routing.Pac.{PacResult}
use zicade_rs.Routing.Resolver.{RoutingError, backend}
use zicade_rs.App.PacRouter.{backend_source}

abbrev pub to_slash : ℕ → ℕ
to_slash c = if c == b'\\' then b'/' else c

unfoldable pub trim_start_slashes : Str → Str
trim_start_slashes [] = []
trim_start_slashes (c ∷ s) = let rest = trim_start_slashes s in if c == b'/' then rest else c ∷ s

-- `canonicalize` is the file system's, with no path where it fails.
unfoldable pub file_url : (Str → Option Str) → Str → Str
unfolding trim_start_slashes
file_url canonicalize path =
    let slashed = map to_slash (unwrap_or path (canonicalize path)) in
    let trimmed = unwrap_or slashed (strip_prefix (text "//?/") slashed) in
    text "file:///" ++ trim_start_slashes trimmed

-- A backend, as what it resolves a URL to.
abbrev pub PacBackend : Type 0
PacBackend = Str → Result RoutingError PacResult

-- The two constructors of `WinHttpPacBackend`, with the messages of their errors.
pub record WinHttp : Type 0 where
  pub from_system : Result Str PacBackend
  pub with_config_url : Str → Result Str PacBackend

abbrev pub open_backend : WinHttp → Option Str → Result Str PacBackend
open_backend win none = win.from_system
open_backend win (some url) = win.with_config_url url

unfoldable pub build_backend :
    WinHttp → (Str → Option Str) → PacSource → Option Str → Option Str → Result Str PacBackend
unfolding file_url
build_backend win canonicalize source url path =
    backend_source (file_url canonicalize) source url path >>= open_backend win

abbrev pub reply_of : Result Str PacBackend → Str → Result RoutingError PacResult
reply_of (ok b) request_url = b request_url
reply_of (err msg) request_url = err (backend msg)

-- The thread's loop: one reply for each job, in the order of the channel.
unfoldable pub serve_jobs : Result Str PacBackend → List Str → List (Result RoutingError PacResult)
serve_jobs built [] = []
serve_jobs built (request_url ∷ jobs) = reply_of built request_url ∷ serve_jobs built jobs
