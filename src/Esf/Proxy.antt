-- ===== src/Esf/Proxy.antt =====
-- The proxy cache: src/evp-agent/src/esf.c, lines 78 to 168.
pub mod Cache
pub mod Files
pub mod Loaded
use aitrios_edge_device_core.Base.{
  ℕ, ◌+◌, ◌-◌, Bool, true, false, Option, none, some, List, [], ◌∷◌, if◌then◌else◌, leb, length,
  take, ℤ, pos, neg, is_nonzero, enomem, eio, erange, CString,
}
use aitrios_edge_device_core.Esf.{Esf, ProxyParameter, Source}

-- The blocks behind a pointer: NULL is none.
abbrev pub has : {A : Type 0} → Option A → ℕ
has none = 0
has (some a) = 1

abbrev pub free : {A : Type 0} → Option A → Esf → Esf
free p c = record c { live = c.live - has p }

-- `evp_agent_esf_deinit_proxy_cache`
unfoldable pub deinit_proxy_cache : Esf → Esf
deinit_proxy_cache c =
    let no_host = record (free c.host c) { host = none } in
    let no_username = record (free c.username no_host) { username = none } in
    record (free c.password no_username) { password = none }

abbrev pub is_empty : CString → Bool
is_empty [] = true
is_empty (x ∷ s) = false

-- A step and, unless it fails, the next one: `goto end`.
abbrev pub and_then : ℤ × Esf → (Esf → ℤ × Esf) → ℤ × Esf
and_then r next = if is_nonzero r.0 then r else next r.1

module _ (e : Source) where
  -- The state after a request for a block, whether there is room or not.
  abbrev pub request : Esf → Esf
  request c = record c {
    requests = c.requests + 1;
    live = c.live + (if e.room c.requests then 1 else 0);
  }

  abbrev pub strdup : CString → Esf → Option CString
  strdup s c = if e.room c.requests then some s else none

  -- The print of a port's number is taken not to fail; its length alone decides.
  abbrev pub cache_url : ProxyParameter → Esf → ℤ × Esf
  cache_url prm c =
      let c' = record (request c) { host = strdup prm.url c } in
      let c'' = record c' { port = take (e.port_len - 1) prm.port_text } in
      if is_empty prm.url
      then (pos 0, c)
      else if e.room c.requests
      then (if leb e.port_len (length prm.port_text) then neg erange else pos 0, c'')
      else (neg enomem, c')

  abbrev pub cache_username : ProxyParameter → Esf → ℤ × Esf
  cache_username prm c =
      let c' = record (request c) { username = strdup prm.username_text c } in
      if is_empty prm.username_text
      then (pos 0, c)
      else (if e.room c.requests then pos 0 else neg enomem, c')

  abbrev pub cache_password : ProxyParameter → Esf → ℤ × Esf
  cache_password prm c =
      let c' = record (request c) { password = strdup prm.password_text c } in
      if is_empty prm.password_text
      then (pos 0, c)
      else (if e.room c.requests then pos 0 else neg enomem, c')

  -- From the load of the parameter up to the label `end`.
  pub cache_parameter : Esf → ℤ × Esf
  cache_parameter c = elim e.load [
    | none ↦ (neg eio, c)
    | some prm ↦
        and_then (cache_url prm c) (λ c. and_then (cache_username prm c) (cache_password prm))
  ]

  -- From the label `end` on; the parameter is freed if there is one.
  pub finish : Option ℕ → ℤ × Esf → ℤ × Esf
  unfolding deinit_proxy_cache
  finish prm r =
      let freed = free prm r.1 in (r.0, if is_nonzero r.0 then deinit_proxy_cache freed else freed)

  -- `evp_agent_esf_init_proxy_cache`
  unfoldable pub init_proxy_cache : Esf → ℤ × Esf
  unfolding cache_parameter finish
  init_proxy_cache c =
      if e.room c.requests
      then finish (some c.requests) (cache_parameter (request c))
      else finish none (neg enomem, request c)
