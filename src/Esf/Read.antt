-- ===== src/Esf/Read.antt =====
-- The reader of the configuration: src/evp-agent/src/esf.c, lines 35 to 52 and 172 to 375, over the
-- proxy cache and the heap. A buffer is the list of its bytes.
pub mod Bounds
pub mod Memory
pub mod Cached
pub mod RoundTrip
pub mod TextFiles
pub mod Chosen
pub mod FromFile
use aitrios_edge_device_core.Base.{
  ℕ, zero, suc, ◌+◌, ◌-◌, Bool, true, false, ◌||◌, Option, none, some, List, [], ◌∷◌, ◌++◌, ◌==◌,
  if◌then◌else◌, length, take, drop, set, replicate, ℤ, pos, neg, is_nonzero, enoent, enomem, eio,
  CString, codes, strncmp_eq, strlen,
}
use aitrios_edge_device_core.Esf.{Esf, Source}
use aitrios_edge_device_core.Esf.Proxy.{has, free, is_empty, request}

-- `enum config_key`, as far as the program names it; of any other key, whether it lies within
-- `g_max_sizes`, and whether it is EVP_CONFIG_PK_FILE.
pub data ConfigKey : Type 0 where
  tls_ca_cert mqtt_host mqtt_port mqtt_tls_ca_cert mqtt_tls_client_cert mqtt_tls_client_key
        https_ca_cert mqtt_proxy_host mqtt_proxy_port mqtt_proxy_username mqtt_proxy_password
        http_proxy_host http_proxy_port http_proxy_username http_proxy_password iot_platform :
      ConfigKey
  unlisted : Bool → Bool → ConfigKey

-- `struct config`
pub record Config : Type 0 where
  pub key : ConfigKey
  pub value : List ℕ
  pub size : ℕ

-- What is not part of the program: the sizes of the system's headers, the getters of the system
-- manager, each by its room and with the bytes that it writes, the environment, what a failed
-- `asprintf` leaves in its pointer (which its documentation leaves undefined), the directories, and
-- the files with what is read from them.
pub record Store : Type 0 where
  pub root_ca_max_size : ℕ
  pub hub_url_max_size : ℕ
  pub hub_port_max_size : ℕ
  pub iot_platform_max_size : ℕ
  pub proxy_url_len : ℕ
  pub proxy_user_name_len : ℕ
  pub proxy_password_len : ℕ
  pub get_root_ca : ℕ → Option (List ℕ)
  pub get_evp_hub_url : ℕ → Option (List ℕ)
  pub get_evp_hub_port : ℕ → Option (List ℕ)
  pub get_evp_iot_platform : ℕ → Option (List ℕ)
  pub cert_key_dir : Option CString
  pub asprintf_left : Option CString
  pub open_dir : CString → Option (List CString)
  pub open_file : CString → Option (Option (List ℕ))

-- `strncpy`
abbrev pub strncpy : List ℕ → CString → ℕ → List ℕ
strncpy buf s n = take n (s ++ replicate n 0) ++ drop n buf

-- The bytes that a call writes at the start of a buffer.
abbrev pub write : List ℕ → List ℕ → List ℕ
write bytes buf = bytes ++ drop (length bytes) buf

-- `strstr(name, suffix)` is not NULL.
unfoldable pub contains : CString → CString → Bool
contains [] suffix = strncmp_eq [] suffix (length suffix)
contains (x ∷ name) suffix = strncmp_eq (x ∷ name) suffix (length suffix) || contains name suffix

-- The first name of the directory that contains the suffix.
unfoldable pub find_name : CString → List CString → Option CString
unfolding contains
find_name suffix [] = none
find_name suffix (name ∷ names) =
    let rest = find_name suffix names in if contains name suffix then some name else rest

abbrev pub suffix_of : ConfigKey → CString
suffix_of mqtt_tls_client_cert = codes "_cert.pem"
suffix_of _ = codes "_key.pem"

-- A copy from the proxy cache into the buffer.
abbrev pub copy_cached : ℕ → List ℕ → Option CString → Option (List ℕ)
copy_cached max_size buf none = none
copy_cached max_size buf (some s) = some (set (strncpy buf s max_size) (max_size - 1) 0)

abbrev pub text_or_null : CString → Option CString
text_or_null s = if is_empty s then none else some s

-- `opendir` or `open`, and `closedir` or `close`.
abbrev pub opened : Esf → Esf
opened c = record c { descriptors = c.descriptors + 1 }

abbrev pub closed : Esf → Esf
closed c = record c { descriptors = c.descriptors - 1 }

-- A getter of the system manager on the buffer.
abbrev pub copy_got : List ℕ → Option (List ℕ) → Option (List ℕ)
copy_got buf none = none
copy_got buf (some bytes) = some (write bytes buf)

module _ (e : Source) (st : Store) where
  -- `g_max_sizes`, with `none` beyond its end; a place that is not initialised is 0.
  unfoldable pub max_size_of : ConfigKey → Option ℕ
  max_size_of tls_ca_cert = some st.root_ca_max_size
  max_size_of mqtt_host = some st.hub_url_max_size
  max_size_of mqtt_port = some st.hub_port_max_size
  max_size_of mqtt_tls_ca_cert = some st.root_ca_max_size
  max_size_of mqtt_tls_client_cert = some 32768
  max_size_of mqtt_tls_client_key = some 4096
  max_size_of https_ca_cert = some st.root_ca_max_size
  max_size_of mqtt_proxy_host = some st.proxy_url_len
  max_size_of mqtt_proxy_port = some e.port_len
  max_size_of mqtt_proxy_username = some st.proxy_user_name_len
  max_size_of mqtt_proxy_password = some st.proxy_password_len
  max_size_of http_proxy_host = some st.proxy_url_len
  max_size_of http_proxy_port = some e.port_len
  max_size_of http_proxy_username = some st.proxy_user_name_len
  max_size_of http_proxy_password = some st.proxy_password_len
  max_size_of iot_platform = some st.iot_platform_max_size
  max_size_of (unlisted within pk_file) = if within then some 0 else none

  -- `asprintf` of the path of a file that was found.
  abbrev pub print_path : CString → Option CString → Esf → ℤ × Option CString × Esf
  print_path dir none c = (neg enoent, none, c)
  print_path dir (some name) c =
      let path = dir ++ codes "/" ++ name in
      (
        if e.room c.requests then pos 0 else neg enomem,
        if e.room c.requests then some path else st.asprintf_left,
        request e c,
      )

  -- The directory of the certificate and the key.
  abbrev pub dir_path : Option CString → CString
  dir_path none = codes "/etc/evp"
  dir_path (some dir) = dir

  pub search_dir : ConfigKey → CString → Option (List CString) → Esf → ℤ × Option CString × Esf
  unfolding find_name
  search_dir key dir none c = (neg eio, none, c)
  search_dir key dir (some names) c =
      let (ret, path, c') = print_path dir (find_name (suffix_of key) names) (opened c) in
      (ret, path, closed c')

  -- `get_cert_key_path`: its result, the path, and the heap.
  pub get_cert_key_path : ConfigKey → Esf → ℤ × Option CString × Esf
  unfolding search_dir
  get_cert_key_path key c =
      let dir = dir_path st.cert_key_dir in search_dir key dir (st.open_dir dir) c

  -- `read` of at most `max_size` bytes from the file that was opened, and the terminator.
  abbrev pub read_bytes : ℕ → List ℕ → Option (List ℕ) → Option (List ℕ)
  read_bytes max_size buf none = none
  read_bytes max_size buf (some content) =
      let filled = set (write (take max_size content) buf) max_size 0 in
      if length (take max_size content) == 0 then none else some filled

  -- With the file, which is open in between.
  abbrev pub read_opened : ℕ → List ℕ → Option (Option (List ℕ)) → Esf → Option (List ℕ) × Esf
  read_opened max_size buf none c = (none, c)
  read_opened max_size buf (some content) c = (read_bytes max_size buf content, closed (opened c))

  abbrev pub read_path : ℕ → List ℕ → Option CString → Esf → Option (List ℕ) × Esf
  read_path max_size buf none c = (none, c)
  read_path max_size buf (some path) c = read_opened max_size buf (st.open_file path) c

  -- `read_cert_key`, with a buffer of `max_size + 1` bytes; `none` is an error.
  pub read_cert_key : ConfigKey → ℕ → List ℕ → Esf → Option (List ℕ) × Esf
  unfolding get_cert_key_path
  read_cert_key key max_size buf c =
      let (ret, path, c') = get_cert_key_path key c in
      let (value, c'') = read_path max_size buf path c' in
      if is_nonzero ret then (none, free path c') else (value, free path c'')

  -- The `switch` of `evp_agent_esf_read_config`: the buffer, or `none` without success.
  pub read_value : ConfigKey → ℕ → List ℕ → Esf → Option (List ℕ) × Esf
  unfolding read_cert_key
  read_value tls_ca_cert n buf c = (copy_got buf (st.get_root_ca n), c)
  read_value mqtt_host n buf c = (copy_got buf (st.get_evp_hub_url n), c)
  read_value mqtt_port n buf c = (copy_got buf (st.get_evp_hub_port n), c)
  read_value mqtt_tls_ca_cert n buf c = (copy_got buf (st.get_root_ca n), c)
  read_value mqtt_tls_client_cert n buf c = read_cert_key mqtt_tls_client_cert n buf c
  read_value mqtt_tls_client_key n buf c = read_cert_key mqtt_tls_client_key n buf c
  read_value https_ca_cert n buf c = (copy_got buf (st.get_root_ca n), c)
  read_value mqtt_proxy_host n buf c = (copy_cached n buf c.host, c)
  read_value mqtt_proxy_port n buf c = (copy_cached n buf (text_or_null c.port), c)
  read_value mqtt_proxy_username n buf c = (copy_cached n buf c.username, c)
  read_value mqtt_proxy_password n buf c = (copy_cached n buf c.password, c)
  read_value http_proxy_host n buf c = (copy_cached n buf c.host, c)
  read_value http_proxy_port n buf c = (copy_cached n buf (text_or_null c.port), c)
  read_value http_proxy_username n buf c = (copy_cached n buf c.username, c)
  read_value http_proxy_password n buf c = (copy_cached n buf c.password, c)
  read_value iot_platform n buf c = (copy_got buf (st.get_evp_iot_platform n), c)
  read_value (unlisted within pk_file) n buf c = (none, c)

  -- From the end of the `switch` on.
  pub make_config : ConfigKey → Option (List ℕ) × Esf → Option Config × Esf
  unfolding strlen
  make_config key (none, c) = (none, free (some key) c)
  make_config key (some buf, c) =
      let config : Config = record { key = key; value = buf; size = strlen buf + 1 } in
      if e.room c.requests
      then (some config, request e c)
      else (none, free (some buf) (request e c))

  -- With the buffer, which `calloc` clears.
  pub read_sized : ConfigKey → ℕ → Esf → Option Config × Esf
  unfolding read_value make_config
  read_sized key n c =
      if e.room c.requests
      then make_config key (read_value key n (replicate (n + 1) 0) (request e c))
      else (none, request e c)

  -- `evp_agent_esf_read_config`
  unfoldable pub read_config : ConfigKey → Esf → Option Config × Esf
  unfolding max_size_of read_sized
  read_config key c = elim (max_size_of key) [ none ↦ (none, c) | some n ↦ read_sized key n c ]
