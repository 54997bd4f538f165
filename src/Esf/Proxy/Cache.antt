-- ===== src/Esf/Proxy/Cache.antt =====
-- What the proxy cache holds after its two operations, and that no block of the heap is lost.
use aitrios_edge_device_core.Base.{
  if_intro, ℕ, ◌+◌, ◌≡◌, ◌⊎◌, refl, ◌∙◌, false, Option, none, some, arith, ℤ, neg, is_nonzero,
  enomem, Bool-cases, Option-cases, inl, inr,
}
use aitrios_edge_device_core.Esf.{Esf, ProxyParameter, Source}
use aitrios_edge_device_core.Esf.Proxy.{
  has, free, deinit_proxy_cache, is_empty, and_then, request, cache_url, cache_username,
  cache_password, cache_parameter, finish, init_proxy_cache,
}

-- The blocks that the cache holds.
abbrev pub owned : Esf → ℕ
owned c = has c.host + has c.username + has c.password

abbrev pub IsEmpty : Esf → Type 0
IsEmpty c = (c.host ≡ none) × (c.username ≡ none) × (c.password ≡ none)

-- So many blocks are in use beside those of the cache.
abbrev pub Balanced : ℕ → Esf → Type 0
Balanced others c = c.live ≡ others + owned c

-- Giving the cache up frees each of its blocks once and no other, and leaves every pointer NULL;
-- the port stays as it was.
pub deinit_proxy_cache_lem :
    (others : ℕ) (c : Esf)
    → Balanced others c
    → IsEmpty (deinit_proxy_cache c)
      × (deinit_proxy_cache c).live ≡ others
      × (deinit_proxy_cache c).port ≡ c.port
unfolding deinit_proxy_cache
deinit_proxy_cache_lem others c h = ((refl, refl, refl), omega arith, refl)

-- The blocks in use are these and those of the cache, which holds none after an error.
abbrev pub Kept : ℕ → ℤ × Esf → Type 0
Kept others r = Balanced others r.1 × ((is_nonzero r.0 ≡ false) ⊎ IsEmpty r.1)

module _ (e : Source) where
  cache_url-Balanced :
      (others : ℕ) (prm : ProxyParameter) (c : Esf)
      → c.host ≡ none
      → Balanced others c
      → Balanced others (cache_url e prm c).1
  cache_url-Balanced others prm c unset h = elim (Bool-cases (is_empty prm.url)) [
    | inl skip ↦ rw skip h
    | inr goes ↦ elim (Bool-cases (e.room c.requests)) [
      | inl room ↦ let h' = rw unset at h in rw (goes, room) (omega arith)
      | inr full ↦ let h' = rw unset at h in rw (goes, full) (omega arith)
    ]
  ]

  cache_username-Balanced :
      (others : ℕ) (prm : ProxyParameter) (c : Esf)
      → c.username ≡ none
      → Balanced others c
      → Balanced others (cache_username e prm c).1
  cache_username-Balanced others prm c unset h = elim (Bool-cases (is_empty prm.username_text)) [
    | inl skip ↦ rw skip h
    | inr goes ↦ elim (Bool-cases (e.room c.requests)) [
      | inl room ↦ let h' = rw unset at h in rw (goes, room) (omega arith)
      | inr full ↦ let h' = rw unset at h in rw (goes, full) (omega arith)
    ]
  ]

  cache_password-Balanced :
      (others : ℕ) (prm : ProxyParameter) (c : Esf)
      → c.password ≡ none
      → Balanced others c
      → Balanced others (cache_password e prm c).1
  cache_password-Balanced others prm c unset h = elim (Bool-cases (is_empty prm.password_text)) [
    | inl skip ↦ rw skip h
    | inr goes ↦ elim (Bool-cases (e.room c.requests)) [
      | inl room ↦ let h' = rw unset at h in rw (goes, room) (omega arith)
      | inr full ↦ let h' = rw unset at h in rw (goes, full) (omega arith)
    ]
  ]

  -- A step leaves the other pointers alone.
  cache_url-username :
      (prm : ProxyParameter) (c : Esf) → (cache_url e prm c).1.username ≡ c.username
  cache_url-username prm c = elim (Bool-cases (is_empty prm.url)) [
    | inl skip ↦ rw skip refl
    | inr goes ↦ elim (Bool-cases (e.room c.requests)) [
      | inl room ↦ rw (goes, room) refl
      | inr full ↦ rw (goes, full) refl
    ]
  ]

  cache_url-password :
      (prm : ProxyParameter) (c : Esf) → (cache_url e prm c).1.password ≡ c.password
  cache_url-password prm c = elim (Bool-cases (is_empty prm.url)) [
    | inl skip ↦ rw skip refl
    | inr goes ↦ elim (Bool-cases (e.room c.requests)) [
      | inl room ↦ rw (goes, room) refl
      | inr full ↦ rw (goes, full) refl
    ]
  ]

  cache_username-password :
      (prm : ProxyParameter) (c : Esf) → (cache_username e prm c).1.password ≡ c.password
  cache_username-password prm c = elim (Bool-cases (is_empty prm.username_text)) [
    | inl skip ↦ rw skip refl
    | inr goes ↦ rw goes refl
  ]

  and_then-Balanced :
      (others : ℕ) (r : ℤ × Esf) (next : Esf → ℤ × Esf)
      → Balanced others r.1
      → Balanced others (next r.1).1
      → Balanced others (and_then r next).1
  and_then-Balanced others r next h h' = elim (Bool-cases (is_nonzero r.0)) [
    | inl failed ↦ rw failed h
    | inr fine ↦ rw fine h'
  ]

  cache_parameter-Balanced :
      (others : ℕ) (c : Esf)
      → IsEmpty c
      → Balanced others c
      → Balanced others (cache_parameter e c).1
  unfolding cache_parameter
  cache_parameter-Balanced others c empty h = elim (Option-cases e.load) [
    | inl nothing ↦ rw nothing h
    | inr (prm, loaded) ↦
        let c1 = (cache_url e prm c).1 in
        let c2 = (cache_username e prm c1).1 in
        let h1 = cache_url-Balanced others prm c empty.0 h in
        let h2 = cache_username-Balanced others prm c1 (cache_url-username prm c ∙ empty.1) h1 in
        let unset = cache_username-password prm c1 ∙ cache_url-password prm c ∙ empty.2 in
        let h3 = cache_password-Balanced others prm c2 unset h2 in
        let rest =
          and_then-Balanced others (cache_username e prm c1) (cache_password e prm) h2 h3 in
        let all =
          and_then-Balanced others (cache_url e prm c)
            (λ c. and_then (cache_username e prm c) (cache_password e prm)) h1 rest in
        rw loaded all
  ]

  empty-Balanced : (others : ℕ) (c : Esf) → IsEmpty c → c.live ≡ others → Balanced others c
  empty-Balanced others c empty h = rw (empty.0, empty.1, empty.2) (omega arith)

  finish-Kept :
      (others : ℕ) (prm : Option ℕ) (r : ℤ × Esf)
      → Balanced (others + has prm) r.1
      → Kept others (finish e prm r)
  unfolding finish
  finish-Kept others prm r h =
      let freed = free prm r.1 in
      let h' : Balanced others freed = omega arith in
      let gone = deinit_proxy_cache_lem others freed h' in
      elim (Bool-cases (is_nonzero r.0)) [
        | inl failed ↦
            let kept : Balanced others (deinit_proxy_cache freed) =
              empty-Balanced others (deinit_proxy_cache freed) gone.0 gone.1 in
            rw failed (kept, inr gone.0)
        | inr fine ↦ rw fine (h', inl refl)
      ]

  -- Filling an empty cache loses no block of the heap, whatever fails: the blocks in use afterwards
  -- are those before and the strings that the cache holds, and it holds none unless the function
  -- returns 0.
  pub init_proxy_cache-Kept : (c : Esf) → IsEmpty c → Kept c.live (init_proxy_cache e c)
  unfolding init_proxy_cache
  init_proxy_cache-Kept c empty =
      let c' = request e c in
      if_intro (Kept c.live) (e.room c.requests) _ _
        (λ room. finish-Kept c.live (some c.requests) (cache_parameter e c') (
          cache_parameter-Balanced (c.live + 1) c' empty
            (rw (room, empty.0, empty.1, empty.2) (omega arith))))
        (λ full.
          finish-Kept c.live none (neg enomem, c')
            (rw (full, empty.0, empty.1, empty.2) (omega arith)))
