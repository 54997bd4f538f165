-- ===== src/Esf/Read/Memory.antt =====
-- What reading a configuration does to the heap and the proxy cache.
use aitrios_edge_device_core.Base.{
  if_both, is_nonzero, if_intro, ℕ, ◌+◌, ◌≡◌, refl, Option, none, some, List, arith, replicate,
  CString, Bool-cases, inl, inr,
}
use aitrios_edge_device_core.Esf.{Esf, Source}
use aitrios_edge_device_core.Esf.Proxy.{free, request}
use aitrios_edge_device_core.Esf.Read.{
  ConfigKey, tls_ca_cert, mqtt_host, mqtt_port, mqtt_tls_ca_cert, mqtt_tls_client_cert,
  mqtt_tls_client_key, https_ca_cert, mqtt_proxy_host, mqtt_proxy_port, mqtt_proxy_username,
  mqtt_proxy_password, http_proxy_host, http_proxy_port, http_proxy_username, http_proxy_password,
  iot_platform, unlisted, opened, closed, read_opened, read_path, Config, Store, max_size_of,
  print_path, search_dir, dir_path, get_cert_key_path, read_cert_key, read_value, make_config,
  read_sized, read_config,
}

-- From one state to the other so many more blocks are in use, and the cache and what is open are
-- the same.
abbrev pub Draws : ℕ → Esf → Esf → Type 0
Draws blocks c c' =
    (c'.live ≡ c.live + blocks)
    × (c'.host ≡ c.host)
    × (c'.port ≡ c.port)
    × (c'.username ≡ c.username)
    × (c'.password ≡ c.password)
    × (c'.descriptors ≡ c.descriptors)

-- The blocks that the caller is given: the configuration and its value.
abbrev pub blocks_of : Option Config → ℕ
blocks_of none = 0
blocks_of (some config) = 2

unchanged : (c : Esf) → Draws 0 c c
unchanged c = (omega arith, refl, refl, refl, refl, refl)

-- For a key that is read from a file: a failed `asprintf` leaves NULL, as the pointer was before.
abbrev pub LeavesNull : Store → ConfigKey → Type 0
LeavesNull st mqtt_tls_client_cert = st.asprintf_left ≡ none
LeavesNull st mqtt_tls_client_key = st.asprintf_left ≡ none
LeavesNull st _ = Unit {0}

pub LeavesNull-all : (st : Store) (key : ConfigKey) → st.asprintf_left ≡ none → LeavesNull st key
LeavesNull-all st mqtt_tls_client_cert left = left
LeavesNull-all st mqtt_tls_client_key left = left
LeavesNull-all st _ left = tt

module _ (e : Source) (st : Store) where
  print_path-Draws :
      (dir : CString) (name : Option CString) (c : Esf)
      → st.asprintf_left ≡ none
      → Draws 0 c (
          free
            (print_path e st dir name (opened c)).1
            (closed (print_path e st dir name (opened c)).2))
  print_path-Draws dir none c left = (omega arith, refl, refl, refl, refl, omega arith)
  print_path-Draws dir (some name) c left = elim (Bool-cases (e.room c.requests)) [
    | inl room ↦ (rw room (omega arith), refl, refl, refl, refl, omega arith)
    | inr full ↦ (rw (full, left) (omega arith), refl, refl, refl, refl, omega arith)
  ]

  search_dir-Draws :
      (key : ConfigKey) (dir : CString) (names : Option (List CString)) (c : Esf)
      → st.asprintf_left ≡ none
      → Draws 0 c (free (search_dir e st key dir names c).1 (search_dir e st key dir names c).2)
  unfolding search_dir
  search_dir-Draws key dir none c left = (omega arith, refl, refl, refl, refl, refl)
  search_dir-Draws key dir (some names) c left = print_path-Draws dir _ c left

  read_opened-Draws :
      (n : ℕ) (buf : List ℕ) (path : CString) (file : Option (Option (List ℕ))) (c c' : Esf)
      → Draws 0 c (free (some path) c')
      → Draws 0 c (free (some path) (read_opened e st n buf file c').1)
  read_opened-Draws n buf path none c c' h = h
  read_opened-Draws n buf path (some content) c c' (live, host, port, user, pass, files) =
      (live, host, port, user, pass, omega arith)

  read_path-Draws :
      (n : ℕ) (buf : List ℕ) (path : Option CString) (c c' : Esf)
      → Draws 0 c (free path c')
      → Draws 0 c (free path (read_path e st n buf path c').1)
  read_path-Draws n buf none c c' h = h
  read_path-Draws n buf (some path) c c' h = read_opened-Draws n buf path (st.open_file path) c c' h

  read_cert_key-Draws :
      (key : ConfigKey) (n : ℕ) (buf : List ℕ) (c : Esf)
      → st.asprintf_left ≡ none
      → Draws 0 c (read_cert_key e st key n buf c).1
  unfolding read_cert_key get_cert_key_path
  read_cert_key-Draws key n buf c left =
      let dir = dir_path e st st.cert_key_dir in
      let r = search_dir e st key dir (st.open_dir dir) c in
      let found = search_dir-Draws key dir (st.open_dir dir) c left in
      if_both (λ (r : Option (List ℕ) × Esf). Draws 0 c r.1) (is_nonzero r.0) _ _ found
        (read_path-Draws n buf r.1 c r.2 found)

  read_value-Draws :
      (key : ConfigKey) (n : ℕ) (buf : List ℕ) (c : Esf)
      → LeavesNull st key
      → Draws 0 c (read_value e st key n buf c).1
  unfolding read_value
  read_value-Draws tls_ca_cert n buf c left = unchanged c
  read_value-Draws mqtt_host n buf c left = unchanged c
  read_value-Draws mqtt_port n buf c left = unchanged c
  read_value-Draws mqtt_tls_ca_cert n buf c left = unchanged c
  read_value-Draws mqtt_tls_client_cert n buf c left =
      read_cert_key-Draws mqtt_tls_client_cert n buf c left
  read_value-Draws mqtt_tls_client_key n buf c left =
      read_cert_key-Draws mqtt_tls_client_key n buf c left
  read_value-Draws https_ca_cert n buf c left = unchanged c
  read_value-Draws mqtt_proxy_host n buf c left = unchanged c
  read_value-Draws mqtt_proxy_port n buf c left = unchanged c
  read_value-Draws mqtt_proxy_username n buf c left = unchanged c
  read_value-Draws mqtt_proxy_password n buf c left = unchanged c
  read_value-Draws http_proxy_host n buf c left = unchanged c
  read_value-Draws http_proxy_port n buf c left = unchanged c
  read_value-Draws http_proxy_username n buf c left = unchanged c
  read_value-Draws http_proxy_password n buf c left = unchanged c
  read_value-Draws iot_platform n buf c left = unchanged c
  read_value-Draws (unlisted within pk_file) n buf c left = unchanged c

  -- A result with the blocks that it gives to the caller, and no others.
  abbrev pub Gives : Esf → Option Config × Esf → Type 0
  Gives c r = Draws (blocks_of r.0) c r.1

  make_config-Gives :
      (key : ConfigKey) (value : Option (List ℕ)) (c c' : Esf)
      → Draws 1 c c'
      → Gives c (make_config e st key (value, c'))
  unfolding make_config
  make_config-Gives key none c c' h = let live = h.0 in (omega arith, h.1, h.2, h.3, h.4, h.5)
  make_config-Gives key (some buf) c c' h =
      let live = h.0 in
      if_intro (Gives c) (e.room c'.requests) _ _
        (λ room. (rw room (omega arith), h.1, h.2, h.3, h.4, h.5))
        (λ full. (rw full (omega arith), h.1, h.2, h.3, h.4, h.5))

  read_sized-Gives :
      (key : ConfigKey) (n : ℕ) (c : Esf) → LeavesNull st key → Gives c (read_sized e st key n c)
  unfolding read_sized
  read_sized-Gives key n c left =
      let buf = replicate (n + 1) 0 in
      let c' = request e c in
      let r = read_value e st key n buf c' in
      let h = read_value-Draws key n buf c' left in
      let live = h.0 in
      if_intro (Gives c) (e.room c.requests) _ _
        (λ room.
          let taken : c'.live ≡ c.live + 1 = rw room refl in
          make_config-Gives key r.0 c r.1 (omega arith, h.1, h.2, h.3, h.4, h.5))
        (λ full. (rw full (omega arith), refl, refl, refl, refl, refl))

  sized-Gives :
      (size : Option ℕ) (f : ℕ → Option Config × Esf) (c : Esf)
      → ((n : ℕ) → Gives c (f n))
      → Gives c (elim size as (λ x. Option Config × Esf) [ none ↦ (none, c) | some n ↦ f n ])
  sized-Gives none f c h = unchanged c
  sized-Gives (some n) f c h = h n

  -- Reading any key leaves two more blocks in use if a configuration is returned, the configuration
  -- and its value, and as many as before otherwise, whatever fails, if for the certificate and the
  -- key a failed asprintf leaves NULL in its pointer; the proxy cache and the number of open files
  -- and directories stay the same.
  pub read_config-Gives :
      (key : ConfigKey) (c : Esf) → LeavesNull st key → Gives c (read_config e st key c)
  unfolding read_config
  read_config-Gives key c left =
      sized-Gives (max_size_of e st key) (λ n. read_sized e st key n c) c
        (λ n. read_sized-Gives key n c left)
