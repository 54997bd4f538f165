-- ===== src/Esf/Read/Cached.antt =====
-- The settings of the proxy, as the reader answers them from the cache.
use aitrios_edge_device_core.Base.{
  strlen, has_nul, ℕ, zero, suc, ◌+◌, ◌-◌, ◌<◌, ◌≡◌, refl, ap, ◌∙◌, Bool, true, false, Option, none,
  some, List, [], ◌∷◌, ◌++◌, arith, if◌then◌else◌, length, take, drop, set, replicate, CString,
}
use aitrios_edge_device_core.Esf.{Esf, Source}
use aitrios_edge_device_core.Esf.Proxy.{request}
use aitrios_edge_device_core.Esf.Read.{
  ConfigKey, tls_ca_cert, mqtt_host, mqtt_port, mqtt_tls_ca_cert, mqtt_tls_client_cert,
  mqtt_tls_client_key, https_ca_cert, mqtt_proxy_host, mqtt_proxy_port, mqtt_proxy_username,
  mqtt_proxy_password, http_proxy_host, http_proxy_port, http_proxy_username, http_proxy_password,
  iot_platform, unlisted, Config, Store, strncpy, copy_cached, text_or_null, max_size_of,
  read_value, make_config, read_sized, read_config,
}

-- The string at the start of a buffer.
abbrev pub text : List ℕ → CString
text [] = []
text (zero ∷ buf) = []
text (suc x ∷ buf) = suc x ∷ text buf

strlen_lem : (buf : List ℕ) → strlen buf ≡ length (text buf)
unfolding strlen
strlen_lem [] = refl
strlen_lem (zero ∷ buf) = refl
strlen_lem (suc x ∷ buf) = ap suc (strlen_lem buf)

text-set-take :
    (m k : ℕ) (s ys : List ℕ)
    → has_nul s ≡ false
    → m < length s + k
    → text (set (take (suc m) (s ++ replicate k 0) ++ ys) m 0) ≡ take m s
text-set-take m zero [] ys h lt = absurd (omega arith)
text-set-take zero (suc k) [] ys h lt = refl
text-set-take (suc m) (suc k) [] ys h lt = refl
text-set-take m k (zero ∷ s) ys h lt = absurd (ground arith)
text-set-take zero k (suc x ∷ s) ys h lt = refl
text-set-take (suc m) k (suc x ∷ s) ys h lt =
    ap (λ rest. suc x ∷ rest) (text-set-take m k s ys h (omega arith))

-- The cached string that a key of the proxy stands for.
abbrev pub cached_of : ConfigKey → Esf → Option CString
cached_of mqtt_proxy_host c = c.host
cached_of http_proxy_host c = c.host
cached_of mqtt_proxy_port c = text_or_null c.port
cached_of http_proxy_port c = text_or_null c.port
cached_of mqtt_proxy_username c = c.username
cached_of http_proxy_username c = c.username
cached_of mqtt_proxy_password c = c.password
cached_of http_proxy_password c = c.password
cached_of _ c = none

-- The answer is this string, with its size.
abbrev pub Answers : CString → Option Config → Type 0
Answers s none = ⊥
Answers s (some config) = (text config.value ≡ s) × (config.size ≡ length s + 1)

module _ (e : Source) (st : Store) where
  read_value-cached :
      (key : ConfigKey) (n : ℕ) (buf : List ℕ) (c : Esf) (s : CString)
      → cached_of key c ≡ some s
      → read_value e st key n buf c ≡ (copy_cached n buf (some s), c)
  unfolding read_value
  read_value-cached tls_ca_cert n buf c s h = absurd (ground arith)
  read_value-cached mqtt_host n buf c s h = absurd (ground arith)
  read_value-cached mqtt_port n buf c s h = absurd (ground arith)
  read_value-cached mqtt_tls_ca_cert n buf c s h = absurd (ground arith)
  read_value-cached mqtt_tls_client_cert n buf c s h = absurd (ground arith)
  read_value-cached mqtt_tls_client_key n buf c s h = absurd (ground arith)
  read_value-cached https_ca_cert n buf c s h = absurd (ground arith)
  read_value-cached iot_platform n buf c s h = absurd (ground arith)
  read_value-cached (unlisted within pk_file) n buf c s h = absurd (ground arith)
  read_value-cached mqtt_proxy_host n buf c s h = rw h refl
  read_value-cached http_proxy_host n buf c s h = rw h refl
  read_value-cached mqtt_proxy_port n buf c s h = ap (λ p. (copy_cached n buf p, c)) h
  read_value-cached http_proxy_port n buf c s h = ap (λ p. (copy_cached n buf p, c)) h
  read_value-cached mqtt_proxy_username n buf c s h = rw h refl
  read_value-cached http_proxy_username n buf c s h = rw h refl
  read_value-cached mqtt_proxy_password n buf c s h = rw h refl
  read_value-cached http_proxy_password n buf c s h = rw h refl

  pub cached_of-request :
      (key : ConfigKey) (c : Esf) → cached_of key (request e c) ≡ cached_of key c
  cached_of-request tls_ca_cert c = refl
  cached_of-request mqtt_host c = refl
  cached_of-request mqtt_port c = refl
  cached_of-request mqtt_tls_ca_cert c = refl
  cached_of-request mqtt_tls_client_cert c = refl
  cached_of-request mqtt_tls_client_key c = refl
  cached_of-request https_ca_cert c = refl
  cached_of-request mqtt_proxy_host c = refl
  cached_of-request mqtt_proxy_port c = refl
  cached_of-request mqtt_proxy_username c = refl
  cached_of-request mqtt_proxy_password c = refl
  cached_of-request http_proxy_host c = refl
  cached_of-request http_proxy_port c = refl
  cached_of-request http_proxy_username c = refl
  cached_of-request http_proxy_password c = refl
  cached_of-request iot_platform c = refl
  cached_of-request (unlisted within pk_file) c = refl

  -- The string in the buffer after a copy.
  copy_cached-text :
      (n : ℕ) (s : CString)
      → has_nul s ≡ false
      → text (set (strncpy (replicate (suc n + 1) 0) s (suc n)) (suc n - 1) 0) ≡ take n s
  copy_cached-text n s h =
      let last : suc n - 1 ≡ n = omega arith in
      rw last (text-set-take n (suc n) s (drop (suc n) (replicate (suc n + 1) 0)) h (omega arith))

  pub make_config-Answers :
      (key : ConfigKey) (buf : List ℕ) (c : Esf) (s : CString)
      → e.room c.requests ≡ true
      → text buf ≡ s
      → Answers s (make_config e st key (some buf, c)).0
  unfolding make_config
  make_config-Answers key buf c s room h =
      rw room (h, ap (λ n. n + 1) (strlen_lem buf ∙ ap length h))

  Answers-if :
      (b : Bool) (s : CString) (x y : Option Config × Esf)
      → b ≡ true
      → Answers s x.0
      → Answers s (if b then x else y).0
  Answers-if true s x y h hx = hx
  Answers-if false s x y h hx = absurd (ground arith)

  pub read_config-read_sized :
      (key : ConfigKey) (n : ℕ) (c : Esf)
      → max_size_of e st key ≡ some n
      → read_config e st key c ≡ read_sized e st key n c
  unfolding read_config
  read_config-read_sized key n c h =
      ap
        (λ (size : Option ℕ). elim size as (λ x. Option Config × Esf) [
          | none ↦ (none, c)
          | some n ↦ read_sized e st key n c
        ])
        h

  -- If a setting of the proxy is cached, has no terminator inside and the heap has room for two
  -- blocks, reading its key returns the cached text, cut to one byte less than its maximum size,
  -- which is not zero, with a size of one more than its length.
  pub read_config-Answers :
      (key : ConfigKey) (n : ℕ) (c : Esf) (s : CString)
      → max_size_of e st key ≡ some (suc n)
      → cached_of key c ≡ some s
      → has_nul s ≡ false
      → e.room c.requests ≡ true
      → e.room (c.requests + 1) ≡ true
      → Answers (take n s) (read_config e st key c).0
  unfolding read_sized
  read_config-Answers key n c s size cached nul_free room room' =
      let c' = request e c in
      let value =
        read_value-cached key (suc n) (replicate (suc n + 1) 0) c' s
          (cached_of-request key c ∙ cached) in
      let answer = make_config-Answers key _ c' (take n s) room' (copy_cached-text n s nul_free) in
      let answer' : Answers (take n s)
          (make_config e st key (read_value e st key (suc n) (replicate (suc n + 1) 0) c')).0 =
        rw value answer in
      rw (read_config-read_sized key (suc n) c size)
        (Answers-if (e.room c.requests) (take n s) _ _ room answer')
