-- ===== src/Esf/Proxy/Loaded.antt =====
-- What the proxy cache holds after it was filled.
use aitrios_edge_device_core.Base.{
  ℕ, ◌+◌, ◌-◌, ◌≡◌, ◌∙◌, refl, ap, inl, inr, false, Option, none, some, arith, leb, if◌then◌else◌,
  length, take_of_le, ℤ, neg, is_nonzero, eio, CString, Bool-cases,
}
use aitrios_edge_device_core.Esf.{Esf, ProxyParameter, Source}
use aitrios_edge_device_core.Esf.Proxy.{
  is_empty, and_then, cache_url, cache_username, cache_password, cache_parameter, finish,
  init_proxy_cache,
}
use aitrios_edge_device_core.Esf.Proxy.Cache.{IsEmpty}

-- A text that is left out where it is empty.
abbrev pub if_text : CString → Option CString
if_text s = if is_empty s then none else some s

-- The settings of the parameter; without a host the port stays as it was.
abbrev pub port_after : ProxyParameter → CString → CString
port_after prm old = if is_empty prm.url then old else prm.port_text

module _ (e : Source) (prm : ProxyParameter) where
  -- A step that succeeded, and its state.
  abbrev Fine : ℤ × Esf → Type 0
  Fine r = is_nonzero r.0 ≡ false

  and_then-Fine :
      (r : ℤ × Esf) (next : Esf → ℤ × Esf)
      → Fine (and_then r next)
      → Fine r × Fine (next r.1) × (and_then r next ≡ next r.1)
  and_then-Fine r next h = elim (Bool-cases (is_nonzero r.0)) [
    | inl failed ↦ absurd (ground arith)
    | inr fine ↦ (fine, rw fine at h, rw fine refl)
  ]

  cache_url-Fine :
      (c : Esf)
      → c.host ≡ none
      → Fine (cache_url e prm c)
      → ((cache_url e prm c).1.host ≡ if_text prm.url)
        × ((cache_url e prm c).1.port ≡ port_after prm c.port)
        × ((cache_url e prm c).1.username ≡ c.username)
        × ((cache_url e prm c).1.password ≡ c.password)
  cache_url-Fine c unset fine = elim (Bool-cases (is_empty prm.url)) [
    | inl skip ↦ rw skip (unset, refl, refl, refl)
    | inr goes ↦ elim (Bool-cases (e.room c.requests)) [
      | inl room ↦ elim (Bool-cases (leb e.port_len (length prm.port_text))) [
        | inl long ↦ absurd (ground arith)
        | inr fits ↦
            rw (goes, room)
              (refl, take_of_le (e.port_len - 1) prm.port_text (ground arith), refl, refl)
      ]
      | inr full ↦ absurd (ground arith)
    ]
  ]

  cache_username-Fine :
      (c : Esf)
      → c.username ≡ none
      → Fine (cache_username e prm c)
      → ((cache_username e prm c).1.host ≡ c.host)
        × ((cache_username e prm c).1.port ≡ c.port)
        × ((cache_username e prm c).1.username ≡ if_text prm.username_text)
        × ((cache_username e prm c).1.password ≡ c.password)
  cache_username-Fine c unset fine = elim (Bool-cases (is_empty prm.username_text)) [
    | inl skip ↦ rw skip (refl, refl, unset, refl)
    | inr goes ↦ elim (Bool-cases (e.room c.requests)) [
      | inl room ↦ rw (goes, room) (refl, refl, refl, refl)
      | inr full ↦ absurd (ground arith)
    ]
  ]

  cache_password-Fine :
      (c : Esf)
      → c.password ≡ none
      → Fine (cache_password e prm c)
      → ((cache_password e prm c).1.host ≡ c.host)
        × ((cache_password e prm c).1.port ≡ c.port)
        × ((cache_password e prm c).1.username ≡ c.username)
        × ((cache_password e prm c).1.password ≡ if_text prm.password_text)
  cache_password-Fine c unset fine = elim (Bool-cases (is_empty prm.password_text)) [
    | inl skip ↦ rw skip (refl, refl, refl, unset)
    | inr goes ↦ elim (Bool-cases (e.room c.requests)) [
      | inl room ↦ rw (goes, room) (refl, refl, refl, refl)
      | inr full ↦ absurd (ground arith)
    ]
  ]

  -- The cache holds the settings of the parameter.
  pub record HoldsSettings (old c : Esf) : Type 0 where
    pub host : c.host ≡ if_text prm.url
    pub port : c.port ≡ port_after prm old.port
    pub username : c.username ≡ if_text prm.username_text
    pub password : c.password ≡ if_text prm.password_text

  cache_all : Esf → ℤ × Esf
  cache_all c =
      and_then (cache_url e prm c) (λ c. and_then (cache_username e prm c) (cache_password e prm))

  cache_all-HoldsSettings :
      (c : Esf) → IsEmpty c → Fine (cache_all c) → HoldsSettings c (cache_all c).1
  unfolding cache_all
  cache_all-HoldsSettings c empty fine =
      let c1 = (cache_url e prm c).1 in
      let c2 = (cache_username e prm c1).1 in
      let rest = λ (c : Esf). and_then (cache_username e prm c) (cache_password e prm) in
      let a = and_then-Fine (cache_url e prm c) rest fine in
      let b = and_then-Fine (cache_username e prm c1) (cache_password e prm) a.1 in
      let url = cache_url-Fine c empty.0 a.0 in
      let user = cache_username-Fine c1 (url.2 ∙ empty.1) b.0 in
      let word = cache_password-Fine c2 (user.3 ∙ url.3 ∙ empty.2) b.1 in
      rw (a.2, b.2)
        (record {
          host = word.0 ∙ user.0 ∙ url.0;
          port = word.1 ∙ user.1 ∙ url.1;
          username = word.2 ∙ user.2;
          password = word.3;
        })

  cache_parameter-cache_all : (c : Esf) → e.load ≡ some prm → cache_parameter e c ≡ cache_all c
  unfolding cache_parameter cache_all
  cache_parameter-cache_all c loaded =
      ap
        (λ (load : Option ProxyParameter). elim load as (λ x. ℤ × Esf) [
          | none ↦ (neg eio, c)
          | some prm ↦
              and_then (cache_url e prm c)
                (λ c. and_then (cache_username e prm c) (cache_password e prm))
        ])
        loaded

  finish-HoldsSettings :
      (p : Option ℕ) (old : Esf) (r : ℤ × Esf)
      → Fine r
      → HoldsSettings old r.1
      → HoldsSettings old (finish e p r).1
  unfolding finish
  finish-HoldsSettings p old r fine holds = rw fine (record {
    host = holds.host;
    port = holds.port;
    username = holds.username;
    password = holds.password;
  })

  -- If filling the empty cache succeeds, it holds each setting of the parameter that was loaded.
  pub init_proxy_cache-HoldsSettings :
      (c : Esf)
      → e.load ≡ some prm
      → IsEmpty c
      → is_nonzero (init_proxy_cache e c).0 ≡ false
      → HoldsSettings c (init_proxy_cache e c).1
  unfolding init_proxy_cache finish
  init_proxy_cache-HoldsSettings c loaded empty fine = elim (Bool-cases (e.room c.requests)) [
    | inl room ↦
        let c' = record c { requests = c.requests + 1; live = c.live + 1 } in
        let all = cache_parameter-cache_all c' loaded in
        let fine' : Fine (cache_all c') = rw (room, all) at fine in
        let holds = cache_all-HoldsSettings c' empty fine' in
        rw (room, all)
          (finish-HoldsSettings (some c.requests) c (cache_all c') fine' (record {
            host = holds.host;
            port = holds.port;
            username = holds.username;
            password = holds.password;
          }))
    | inr full ↦ absurd (ground arith)
  ]
