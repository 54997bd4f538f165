-- ===== src/Esf/Proxy/Files.antt =====
-- The directories and files that are open around the operations of the proxy cache.
use aitrios_edge_device_core.Base.{
  ℕ, ◌≡◌, refl, ◌∙◌, arith, Option, none, some, ℤ, neg, is_nonzero, enomem, if_both, Option-cases,
  inl, inr,
}
use aitrios_edge_device_core.Esf.{Esf, ProxyParameter, Source}
use aitrios_edge_device_core.Esf.Proxy.{
  free, deinit_proxy_cache, and_then, request, cache_url, cache_username, cache_password,
  cache_parameter, finish, init_proxy_cache,
}

-- As many are open as before.
abbrev pub SameFiles : Esf → ℤ × Esf → Type 0
SameFiles c r = r.1.descriptors ≡ c.descriptors

and_then-SameFiles :
    (c : Esf) (r : ℤ × Esf) (next : Esf → ℤ × Esf)
    → SameFiles c r
    → SameFiles r.1 (next r.1)
    → SameFiles c (and_then r next)
and_then-SameFiles c r next h h' = if_both (SameFiles c) (is_nonzero r.0) r (next r.1) h (h' ∙ h)

pub deinit_proxy_cache-descriptors : (c : Esf) → (deinit_proxy_cache c).descriptors ≡ c.descriptors
unfolding deinit_proxy_cache
deinit_proxy_cache-descriptors c = refl

module _ (e : Source) where
  cache_url-SameFiles : (prm : ProxyParameter) (c : Esf) → SameFiles c (cache_url e prm c)
  cache_url-SameFiles prm c = ground arith

  cache_username-SameFiles : (prm : ProxyParameter) (c : Esf) → SameFiles c (cache_username e prm c)
  cache_username-SameFiles prm c = ground arith

  cache_password-SameFiles : (prm : ProxyParameter) (c : Esf) → SameFiles c (cache_password e prm c)
  cache_password-SameFiles prm c = ground arith

  cache_parameter-SameFiles : (c : Esf) → SameFiles c (cache_parameter e c)
  unfolding cache_parameter
  cache_parameter-SameFiles c = elim (Option-cases e.load) [
    | inl nothing ↦ rw nothing refl
    | inr (prm, loaded) ↦
        let c1 = (cache_url e prm c).1 in
        let c2 = (cache_username e prm c1).1 in
        let rest =
          and_then-SameFiles c1 (cache_username e prm c1) (cache_password e prm)
            (cache_username-SameFiles prm c1) (cache_password-SameFiles prm c2) in
        let all =
          and_then-SameFiles c (cache_url e prm c)
            (λ c. and_then (cache_username e prm c) (cache_password e prm))
            (cache_url-SameFiles prm c) rest in
        rw loaded all
  ]

  finish-SameFiles :
      (c : Esf) (prm : Option ℕ) (r : ℤ × Esf) → SameFiles c r → SameFiles c (finish e prm r)
  unfolding finish
  finish-SameFiles c prm r h =
      let freed = free prm r.1 in
      if_both (λ (c' : Esf). c'.descriptors ≡ c.descriptors) (is_nonzero r.0)
        (deinit_proxy_cache freed) freed (deinit_proxy_cache-descriptors freed ∙ h) h

  -- Filling the cache leaves as many directories and files open as before, whatever fails.
  pub init_proxy_cache-SameFiles : (c : Esf) → SameFiles c (init_proxy_cache e c)
  unfolding init_proxy_cache
  init_proxy_cache-SameFiles c =
      if_both (SameFiles c) (e.room c.requests) _ _
        (finish-SameFiles c (some c.requests) _ (cache_parameter-SameFiles (request e c)))
        (finish-SameFiles c none (neg enomem, request e c) refl)
