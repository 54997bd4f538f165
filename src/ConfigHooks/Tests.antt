-- ===== src/ConfigHooks/Tests.antt =====
-- Runs of the hooks on concrete inputs.
use aitrios_edge_device_core.Base.{
  ℕ, zero, suc, length, arith, ◌≡◌, refl, ap, true, false, Option, none, some, List, [], ◌∷◌, ◌++◌,
  drop, replicate, codes, has_nul, Bool, sym, strlen,
}
use aitrios_edge_device_core.Esf.{Esf, Source}
use aitrios_edge_device_core.Esf.Read.{
  mqtt_tls_ca_cert, mqtt_tls_client_key, Store, Config, max_size_of, read_config,
}
use aitrios_edge_device_core.Esf.Read.Bounds.{WritesAtMost}
use aitrios_edge_device_core.Esf.Read.TextFiles.{TextFiles}
use aitrios_edge_device_core.Status.{Settings, is_tls_enabled}
use aitrios_edge_device_core.ConfigHooks.{get_config_impl}
use aitrios_edge_device_core.ConfigHooks.Wiped.{
  Zeroizes, Wiped, Erased, get_config_impl-Wiped, get_config_impl-Erased,
}

abbrev settings : Settings
settings = record {
  evp_tls = some 0;
  evp_tls_disable = 1;
  mqtt_host = none;
  project_id_room = true;
  project_id = none;
  register_token_room = true;
  register_token = none;
  set_status = λ sent info. true;
}

abbrev source : Source
source = record { room = λ n. true; load = none; port_len = 6 }

-- A directory with one key, and a getter that writes one byte where it has room.
abbrev one_byte : ℕ → Option (List ℕ)
one_byte zero = none
one_byte (suc room) = some (49 ∷ [])

abbrev store : Store
store = record {
  root_ca_max_size = 4;
  hub_url_max_size = 4;
  hub_port_max_size = 4;
  iot_platform_max_size = 4;
  proxy_url_len = 6;
  proxy_user_name_len = 4;
  proxy_password_len = 4;
  get_root_ca = one_byte;
  get_evp_hub_url = one_byte;
  get_evp_hub_port = one_byte;
  get_evp_iot_platform = one_byte;
  cert_key_dir = none;
  asprintf_left = none;
  open_dir = λ dir. some (codes "my_key.pem" ∷ []);
  open_file = λ path. some (some (codes "secret"));
}

abbrev no_blocks : Esf
no_blocks = record {
  host = none;
  port = [];
  username = none;
  password = none;
  requests = 0;
  live = 0;
  descriptors = 0;
}

size_of : Option (List ℕ) → ℕ
size_of none = 0
size_of (some bytes) = length bytes

one_byte-WritesAtMost : WritesAtMost one_byte
unfolding size_of
one_byte-WritesAtMost zero bytes h = let size : 0 ≡ length bytes = ap size_of h in omega arith
one_byte-WritesAtMost (suc room) bytes h = let size : 1 ≡ length bytes = ap size_of h in omega arith

abbrev zeroize : List ℕ → ℕ → List ℕ
zeroize buf n = replicate n 0 ++ drop n buf

zeroize-Zeroizes : Zeroizes zeroize
zeroize-Zeroizes buf n h = refl

nul_in : Option (Option (List ℕ)) → Bool
nul_in (some (some content)) = has_nul content
nul_in _ = false

store-TextFiles : TextFiles store
unfolding nul_in
store-TextFiles path content h = sym (ap nul_in h)

get_config_impl-Wiped_example :
    Wiped zeroize (get_config_impl settings source store mqtt_tls_ca_cert no_blocks).0
get_config_impl-Wiped_example =
    get_config_impl-Wiped settings source store zeroize zeroize-Zeroizes mqtt_tls_ca_cert no_blocks
      one_byte-WritesAtMost one_byte-WritesAtMost one_byte-WritesAtMost one_byte-WritesAtMost

get_config_impl-Erased_example :
    Erased zeroize (get_config_impl settings source store mqtt_tls_client_key no_blocks).0
get_config_impl-Erased_example =
    get_config_impl-Erased settings source store zeroize zeroize-Zeroizes no_blocks store-TextFiles

-- The certificate is there with TLS, and not without.
size_read : Option Config → ℕ
size_read none = 0
size_read (some config) = config.size

with_tls : size_read (get_config_impl settings source store mqtt_tls_ca_cert no_blocks).0 ≡ 2
unfolding get_config_impl is_tls_enabled read_config strlen size_read max_size_of
with_tls = refl

without_tls :
    size_read
      (get_config_impl
        (record settings { evp_tls = some 1 })
        source
        store
        mqtt_tls_ca_cert
        no_blocks).0
    ≡ 0
unfolding get_config_impl is_tls_enabled size_read
without_tls = refl
