-- ===== src/Esf/Read/RoundTrip.antt =====
-- The settings of the proxy on their way from the network manager through the cache to the reader.
use aitrios_edge_device_core.Base.{
  has_nul, ℕ, suc, ◌+◌, ◌≡◌, ◌∙◌, refl, inl, inr, Bool, true, false, Option, none, some, List, [],
  if_both, if◌then◌else◌, take, replicate, CString, is_nonzero, Bool-cases,
}
use aitrios_edge_device_core.Esf.{Esf, ProxyParameter, Source}
use aitrios_edge_device_core.Esf.Proxy.{request, is_empty, init_proxy_cache}
use aitrios_edge_device_core.Esf.Proxy.Cache.{IsEmpty}
use aitrios_edge_device_core.Esf.Proxy.Loaded.{
  if_text, HoldsSettings, init_proxy_cache-HoldsSettings,
}
use aitrios_edge_device_core.Esf.Read.{
  ConfigKey, mqtt_proxy_host, mqtt_proxy_port, mqtt_proxy_username, mqtt_proxy_password,
  http_proxy_host, http_proxy_port, http_proxy_username, http_proxy_password, Config, Store,
  max_size_of, read_value, make_config, read_sized, read_config, text_or_null,
}
use aitrios_edge_device_core.Esf.Read.Cached.{
  cached_of, cached_of-request, Answers, read_config-Answers, read_config-read_sized,
}

-- The settings that the keys of the proxy stand for; there is no port without a host.
pub data Setting : Type 0 where
  host port username password : Setting

abbrev pub setting_of : Setting → ProxyParameter → Option CString
setting_of host prm = if_text prm.url
setting_of port prm = if is_empty prm.url then none else if_text prm.port_text
setting_of username prm = if_text prm.username_text
setting_of password prm = if_text prm.password_text

-- The key of a setting for MQTT, or for HTTP.
abbrev pub key_of : Bool → Setting → ConfigKey
key_of true host = mqtt_proxy_host
key_of true port = mqtt_proxy_port
key_of true username = mqtt_proxy_username
key_of true password = mqtt_proxy_password
key_of false host = http_proxy_host
key_of false port = http_proxy_port
key_of false username = http_proxy_username
key_of false password = http_proxy_password

-- A setting is answered, cut to so many bytes; without one there is no answer.
abbrev pub AnswersSetting : ℕ → Option CString → Option Config → Type 0
AnswersSetting n none r = r ≡ none
AnswersSetting n (some s) r = Answers (take n s) r

abbrev pub NulFree : Option CString → Type 0
NulFree none = Unit {0}
NulFree (some s) = has_nul s ≡ false

module _ (e : Source) (st : Store) where
  port-setting :
      (prm : ProxyParameter) (old c : Esf)
      → old.port ≡ []
      → HoldsSettings e prm old c
      → text_or_null c.port ≡ setting_of port prm
  port-setting prm old c unset h = elim (Bool-cases (is_empty prm.url)) [
    | inl no_host ↦ rw (h.port, unset, no_host) refl
    | inr has_host ↦ rw (h.port, has_host) refl
  ]

  cached_of-setting :
      (mqtt : Bool) (setting : Setting) (prm : ProxyParameter) (old c : Esf)
      → old.port ≡ []
      → HoldsSettings e prm old c
      → cached_of (key_of mqtt setting) c ≡ setting_of setting prm
  cached_of-setting true host prm old c unset h = h.host
  cached_of-setting false host prm old c unset h = h.host
  cached_of-setting true username prm old c unset h = h.username
  cached_of-setting false username prm old c unset h = h.username
  cached_of-setting true password prm old c unset h = h.password
  cached_of-setting false password prm old c unset h = h.password
  cached_of-setting true port prm old c unset h = port-setting prm old c unset h
  cached_of-setting false port prm old c unset h = port-setting prm old c unset h

  read_value-none :
      (mqtt : Bool) (setting : Setting) (n : ℕ) (buf : List ℕ) (c : Esf)
      → cached_of (key_of mqtt setting) c ≡ none
      → read_value e st (key_of mqtt setting) n buf c ≡ (none, c)
  unfolding read_value
  read_value-none true host n buf c h = rw h refl
  read_value-none true username n buf c h = rw h refl
  read_value-none true password n buf c h = rw h refl
  read_value-none false host n buf c h = rw h refl
  read_value-none false username n buf c h = rw h refl
  read_value-none false password n buf c h = rw h refl
  read_value-none true port n buf c h = rw h refl
  read_value-none false port n buf c h = rw h refl

  read_config-none :
      (mqtt : Bool) (setting : Setting) (n : ℕ) (c : Esf)
      → max_size_of e st (key_of mqtt setting) ≡ some n
      → cached_of (key_of mqtt setting) c ≡ none
      → (read_config e st (key_of mqtt setting) c).0 ≡ none
  unfolding read_sized make_config
  read_config-none mqtt setting n c size unset =
      let key = key_of mqtt setting in
      let c' = request e c in
      let value =
        read_value-none mqtt setting n (replicate (n + 1) 0) c'
          (cached_of-request e st key c ∙ unset) in
      let made : (make_config e st key (read_value e st key n (replicate (n + 1) 0) c')).0 ≡ none =
        rw value refl in
      rw (read_config-read_sized e st key n c size)
        (if_both (λ (r : Option Config × Esf). r.0 ≡ none) (e.room c.requests) _ _ made refl)

  AnswersSetting-cases :
      (mqtt : Bool) (setting : Setting) (n : ℕ) (o : Option CString) (c : Esf)
      → max_size_of e st (key_of mqtt setting) ≡ some (suc n)
      → cached_of (key_of mqtt setting) c ≡ o
      → NulFree o
      → e.room c.requests ≡ true
      → e.room (c.requests + 1) ≡ true
      → AnswersSetting n o (read_config e st (key_of mqtt setting) c).0
  AnswersSetting-cases mqtt setting n none c size cached nul_free room room' =
      read_config-none mqtt setting (suc n) c size cached
  AnswersSetting-cases mqtt setting n (some s) c size cached nul_free room room' =
      read_config-Answers e st (key_of mqtt setting) n c s size cached nul_free room room'

  -- If filling the empty cache, with no port left in it, from what the network manager loads
  -- succeeds, then reading any of the eight proxy keys, for MQTT or for HTTP, with both blocks of
  -- the reader allocated, answers the loaded setting cut to one byte less than the size of the key:
  -- the host, the port if there is a host, the user name or the password. A setting that is empty
  -- is not answered. The setting has no terminator inside.
  pub settings_round_trip :
      (mqtt : Bool) (setting : Setting) (n : ℕ) (prm : ProxyParameter) (c : Esf)
      → e.load ≡ some prm
      → IsEmpty c
      → c.port ≡ []
      → is_nonzero (init_proxy_cache e c).0 ≡ false
      → max_size_of e st (key_of mqtt setting) ≡ some (suc n)
      → NulFree (setting_of setting prm)
      → e.room (init_proxy_cache e c).1.requests ≡ true
      → e.room ((init_proxy_cache e c).1.requests + 1) ≡ true
      → AnswersSetting n
          (setting_of setting prm)
          (read_config e st (key_of mqtt setting) (init_proxy_cache e c).1).0
  settings_round_trip mqtt setting n prm c loaded empty unset fine size nul_free room room' =
      let c' = (init_proxy_cache e c).1 in
      let holds = init_proxy_cache-HoldsSettings e prm c loaded empty fine in
      AnswersSetting-cases mqtt setting n (setting_of setting prm) c' size
        (cached_of-setting mqtt setting prm c c' unset holds) nul_free room room'
