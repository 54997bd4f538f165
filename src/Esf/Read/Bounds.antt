-- ===== src/Esf/Read/Bounds.antt =====
-- The values of the configuration and their buffers.
use aitrios_edge_device_core.Base.{
  if_both, strlen, has_nul, ℕ, zero, suc, ◌+◌, ◌-◌, ◌≤◌, ◌<◌, ◌≡◌, refl, true, Option, none, some,
  List, [], ◌∷◌, ◌++◌, ◌==◌, arith, length, take, drop, set, replicate, is_nonzero, CString,
  length-take,
}
use aitrios_edge_device_core.Esf.{Esf, Source}
use aitrios_edge_device_core.Esf.Proxy.{request}
use aitrios_edge_device_core.Esf.Read.{
  ConfigKey, tls_ca_cert, mqtt_host, mqtt_port, mqtt_tls_ca_cert, mqtt_tls_client_cert,
  mqtt_tls_client_key, https_ca_cert, mqtt_proxy_host, mqtt_proxy_port, mqtt_proxy_username,
  mqtt_proxy_password, http_proxy_host, http_proxy_port, http_proxy_username, http_proxy_password,
  iot_platform, unlisted, Config, Store, strncpy, write, copy_cached, text_or_null, copy_got,
  max_size_of, get_cert_key_path, read_bytes, read_opened, read_path, read_cert_key, read_value,
  make_config, read_sized, read_config,
}

strlen-lt : (buf : List ℕ) → has_nul buf ≡ true → strlen buf < length buf
unfolding strlen
strlen-lt [] h = absurd (ground arith)
strlen-lt (zero ∷ buf) h = omega arith
strlen-lt (suc x ∷ buf) h = omega (arith, strlen-lt buf h)

has_nul-append : (xs ys : List ℕ) → has_nul ys ≡ true → has_nul (xs ++ ys) ≡ true
has_nul-append [] ys h = h
has_nul-append (zero ∷ xs) ys h = refl
has_nul-append (suc x ∷ xs) ys h = has_nul-append xs ys h

has_nul-set : (xs : List ℕ) (i : ℕ) → has_nul xs ≡ true → has_nul (set xs i 0) ≡ true
has_nul-set [] i h = h
has_nul-set (x ∷ xs) zero h = refl
has_nul-set (zero ∷ xs) (suc i) h = refl
has_nul-set (suc x ∷ xs) (suc i) h = has_nul-set xs i h

has_nul-drop-replicate : (n m : ℕ) → n < m → has_nul (drop n (replicate m 0)) ≡ true
has_nul-drop-replicate n zero h = absurd (omega arith)
has_nul-drop-replicate zero (suc m) h = refl
has_nul-drop-replicate (suc n) (suc m) h = has_nul-drop-replicate n m (omega arith)

-- A getter writes no more bytes than it is told that there is room for.
abbrev pub WritesAtMost : (ℕ → Option (List ℕ)) → Type 0
WritesAtMost get = (room : ℕ) (bytes : List ℕ) → get room ≡ some bytes → length bytes ≤ room

-- A buffer that is kept has a terminator.
abbrev Terminated : Option (List ℕ) → Type 0
Terminated none = Unit {0}
Terminated (some buf) = has_nul buf ≡ true

-- A cleared buffer for values of this size.
abbrev cleared : ℕ → List ℕ
cleared n = replicate (n + 1) 0

copy_cached-Terminated : (n : ℕ) (s : Option CString) → Terminated (copy_cached n (cleared n) s)
copy_cached-Terminated n none = tt
copy_cached-Terminated n (some s) = has_nul-set (strncpy (cleared n) s n) (n - 1) (
    has_nul-append (take n (s ++ replicate n 0)) (drop n (cleared n))
      (has_nul-drop-replicate n (n + 1) (omega arith)))

copy_got-Terminated :
    (get : ℕ → Option (List ℕ)) (n : ℕ) (r : Option (List ℕ))
    → WritesAtMost get
    → get n ≡ r
    → Terminated (copy_got (cleared n) r)
copy_got-Terminated get n none at_most h = tt
copy_got-Terminated get n (some bytes) at_most h =
    has_nul-append bytes (drop (length bytes) (cleared n))
      (has_nul-drop-replicate (length bytes) (n + 1) (omega (arith, at_most n bytes h)))

-- A configuration is as large as its text with the terminator, within its buffer.
abbrev pub Fits : Option Config → Type 0
Fits none = Unit {0}
Fits (some config) = (config.size ≡ strlen config.value + 1) × config.size ≤ length config.value

module _ (e : Source) (st : Store) where
  read_bytes-Terminated :
      (n : ℕ) (file : Option (List ℕ)) → Terminated (read_bytes e st n (cleared n) file)
  read_bytes-Terminated n none = tt
  read_bytes-Terminated n (some content) =
      let bytes = take n content in
      if_both Terminated (length bytes == 0) _ _ tt (
        has_nul-set (write bytes (cleared n)) n (
          has_nul-append bytes (drop (length bytes) (cleared n))
            (has_nul-drop-replicate (length bytes) (n + 1) (omega (arith, length-take n content)))))

  read_opened-Terminated :
      (n : ℕ) (file : Option (Option (List ℕ))) (c : Esf)
      → Terminated (read_opened e st n (cleared n) file c).0
  read_opened-Terminated n none c = tt
  read_opened-Terminated n (some content) c = read_bytes-Terminated n content

  read_path-Terminated :
      (n : ℕ) (path : Option CString) (c : Esf) → Terminated (read_path e st n (cleared n) path c).0
  read_path-Terminated n none c = tt
  read_path-Terminated n (some path) c = read_opened-Terminated n (st.open_file path) c

  read_cert_key-Terminated :
      (key : ConfigKey) (n : ℕ) (c : Esf) → Terminated (read_cert_key e st key n (cleared n) c).0
  unfolding read_cert_key
  read_cert_key-Terminated key n c =
      let r = get_cert_key_path e st key c in
      if_both (λ (r : Option (List ℕ) × Esf). Terminated r.0) (is_nonzero r.0) _ _ tt
        (read_path-Terminated n r.1 r.2)

  read_value-Terminated :
      (key : ConfigKey) (n : ℕ) (c : Esf)
      → WritesAtMost st.get_root_ca
      → WritesAtMost st.get_evp_hub_url
      → WritesAtMost st.get_evp_hub_port
      → WritesAtMost st.get_evp_iot_platform
      → Terminated (read_value e st key n (cleared n) c).0
  unfolding read_value
  read_value-Terminated tls_ca_cert n c ca url port iot =
      copy_got-Terminated st.get_root_ca n _ ca refl
  read_value-Terminated mqtt_host n c ca url port iot =
      copy_got-Terminated st.get_evp_hub_url n _ url refl
  read_value-Terminated mqtt_port n c ca url port iot =
      copy_got-Terminated st.get_evp_hub_port n _ port refl
  read_value-Terminated mqtt_tls_ca_cert n c ca url port iot =
      copy_got-Terminated st.get_root_ca n _ ca refl
  read_value-Terminated mqtt_tls_client_cert n c ca url port iot =
      read_cert_key-Terminated mqtt_tls_client_cert n c
  read_value-Terminated mqtt_tls_client_key n c ca url port iot =
      read_cert_key-Terminated mqtt_tls_client_key n c
  read_value-Terminated https_ca_cert n c ca url port iot =
      copy_got-Terminated st.get_root_ca n _ ca refl
  read_value-Terminated mqtt_proxy_host n c ca url port iot = copy_cached-Terminated n c.host
  read_value-Terminated mqtt_proxy_port n c ca url port iot =
      copy_cached-Terminated n (text_or_null c.port)
  read_value-Terminated mqtt_proxy_username n c ca url port iot =
      copy_cached-Terminated n c.username
  read_value-Terminated mqtt_proxy_password n c ca url port iot =
      copy_cached-Terminated n c.password
  read_value-Terminated http_proxy_host n c ca url port iot = copy_cached-Terminated n c.host
  read_value-Terminated http_proxy_port n c ca url port iot =
      copy_cached-Terminated n (text_or_null c.port)
  read_value-Terminated http_proxy_username n c ca url port iot =
      copy_cached-Terminated n c.username
  read_value-Terminated http_proxy_password n c ca url port iot =
      copy_cached-Terminated n c.password
  read_value-Terminated iot_platform n c ca url port iot =
      copy_got-Terminated st.get_evp_iot_platform n _ iot refl
  read_value-Terminated (unlisted within pk_file) n c ca url port iot = tt

  make_config-Fits :
      (key : ConfigKey) (value : Option (List ℕ)) (c : Esf)
      → Terminated value
      → Fits (make_config e st key (value, c)).0
  unfolding make_config
  make_config-Fits key none c h = tt
  make_config-Fits key (some buf) c h =
      if_both (λ (r : Option Config × Esf). Fits r.0) (e.room c.requests) _ _
        (refl, omega (arith, strlen-lt buf h)) tt

  max_size-cases :
      (size : Option ℕ) (f : ℕ → Option Config × Esf) (c : Esf)
      → ((n : ℕ) → Fits (f n).0)
      → Fits (elim size as (λ x. Option Config × Esf) [ none ↦ (none, c) | some n ↦ f n ]).0
  max_size-cases none f c h = tt
  max_size-cases (some n) f c h = h n

  -- If the getters of the system manager write no more bytes than they are told there is room for,
  -- every configuration that is read, for any key and state, has a value that ends within its
  -- buffer, and its size is the length of the value with the terminator.
  pub read_config-Fits :
      (key : ConfigKey) (c : Esf)
      → WritesAtMost st.get_root_ca
      → WritesAtMost st.get_evp_hub_url
      → WritesAtMost st.get_evp_hub_port
      → WritesAtMost st.get_evp_iot_platform
      → Fits (read_config e st key c).0
  unfolding read_config read_sized
  read_config-Fits key c ca url port iot =
      let sized = λ (n : ℕ).
        if_both (λ (r : Option Config × Esf). Fits r.0) (e.room c.requests) _ _
          (make_config-Fits key (read_value e st key n (cleared n) (request e c)).0
            (read_value e st key n (cleared n) (request e c)).1
            (read_value-Terminated key n (request e c) ca url port iot))
          tt in
      max_size-cases (max_size_of e st key) (λ n. read_sized e st key n c) c sized

  -- The client key, which is read from a file, needs none of the getters.
  pub read_client_key-Fits : (c : Esf) → Fits (read_config e st mqtt_tls_client_key c).0
  unfolding read_config read_sized max_size_of read_value
  read_client_key-Fits c =
      let r = read_value e st mqtt_tls_client_key 4096 (cleared 4096) (request e c) in
      if_both (λ (r : Option Config × Esf). Fits r.0) (e.room c.requests) _ _
        (make_config-Fits mqtt_tls_client_key r.0 r.1
          (read_cert_key-Terminated mqtt_tls_client_key 4096 (request e c)))
        tt
