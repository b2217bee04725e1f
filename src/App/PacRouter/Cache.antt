-- ===== src/App/PacRouter/Cache.antt =====
-- The router's cache: what it answers, and how large it grows.
use zicade_rs.Prelude.{
  if◌then◌else◌, ◌<◌, Option-cases, ◌-◌, ℕ, Bool, Bool-cases, some, [], ◌∷◌, List, Result, ok, err,
  ◌≡◌, ◌≤◌, suc, not, arith, length, filter, inl, inr, leb,
}
use zicade_rs.Text.{Str, str_eq, str_eq_refl}
use zicade_rs.Routing.Pac.{PacResult}
use zicade_rs.App.PacRouter.{
  RoutingError, new_cache, PacCache, Stored, lookup, cached, insert, put, cache_max_entries,
  resolve, resolve_via_thread, remember, ThreadReply,
}

length-filter : (p : Stored → Bool) (es : List Stored) → length (filter p es) ≤ length es
unfolding filter
length-filter p [] = omega arith
length-filter p (e ∷ es) = ground (arith, length-filter p es)

length-put :
    (now : ℕ) (url : Str) (d : PacResult) (c : PacCache)
    → length c.entries ≤ cache_max_entries
    → length (put now url d c).entries ≤ cache_max_entries
unfolding put insert filter
length-put now url d c h = elim (Bool-cases (leb cache_max_entries (length c.entries))) [
  | inl full ↦ rw full (omega arith)
  | inr room ↦ rw room (ground (arith, length-filter (λ old. not (str_eq old.url url)) c.entries))
]

-- A request is one of a sequence: its clock readings, the thread's reply and the URL.
pub record Request : Type 0 where
  pub now : ℕ
  pub later : ℕ
  pub reply : ThreadReply
  pub url : Str

unfoldable pub serve : List Request → PacCache → PacCache
serve [] c = c
serve (r ∷ rs) c = serve rs (resolve r.now r.later r.reply r.url c).1

length-remember :
    (now : ℕ) (url : Str) (r : Result RoutingError PacResult) (c : PacCache)
    → length c.entries ≤ cache_max_entries
    → length (remember now url r c).entries ≤ cache_max_entries
length-remember now url (ok d) c h = length-put now url d c h
length-remember now url (err e) c h = h

length-resolve :
    (r : Request) (c : PacCache)
    → length c.entries ≤ cache_max_entries
    → length (resolve r.now r.later r.reply r.url c).1.entries ≤ cache_max_entries
unfolding resolve
length-resolve r c h = elim (Option-cases (cached r.now r.url c)) [
  | inl e ↦ rw (resolve, e) (length-remember r.later r.url (resolve_via_thread r.reply) c h)
  | inr (d, e) ↦ rw (resolve, e) h
]

length-serve :
    (rs : List Request) (c : PacCache)
    → length c.entries ≤ cache_max_entries
    → length (serve rs c).entries ≤ cache_max_entries
unfolding serve
length-serve [] c h = h
length-serve (r ∷ rs) c h =
    length-serve rs (resolve r.now r.later r.reply r.url c).1 (length-resolve r c h)

-- However many requests come, for however many URLs, the cache has at most 4096 entries.
serve-le-max :
    (rs : List Request) (ttl : ℕ) → length (serve rs (new_cache ttl)).entries ≤ cache_max_entries
serve-le-max rs ttl = length-serve rs (new_cache ttl) (omega arith)

lookup-insert : (e : Stored) (es : List Stored) → lookup e.url (insert e es) ≡ some e
unfolding lookup insert
lookup-insert e es = rw (str_eq_refl e.url)

cached-put :
    (now later : ℕ) (url : Str) (d : PacResult) (c : PacCache)
    → now - later < c.ttl
    → cached now url (put later url d c) ≡ some d
unfolding cached put
cached-put now later url d c h =
    rw
      (lookup-insert (record { url = url; stored_at = later; decision = d })
        (if leb cache_max_entries (length c.entries) then [] else c.entries))
      (ground arith)

-- A request for another URL, while there is room, keeps what the cache has for a URL.
record Keeps (url : Str) (c c' : PacCache) : Type 0 where
  entry : lookup url c'.entries ≡ lookup url c.entries
  ttl : c'.ttl ≡ c.ttl
  size : length c'.entries ≤ suc (length c.entries)
