-- ===== src/Esf/Tests.antt =====
-- Runs of the proxy cache and of the reader on concrete inputs.
use aitrios_edge_device_core.Base.{
  has_nul, Bool, sym, ℕ, zero, suc, length, arith, ap, ◌≡◌, refl, true, false, Option, none, some,
  List, [], ◌∷◌, ◌==◌, if◌then◌else◌, codes,
}
use aitrios_edge_device_core.Esf.{Esf, ProxyParameter, Source}
use aitrios_edge_device_core.Esf.Read.{
  mqtt_proxy_host, mqtt_proxy_port, mqtt_tls_client_cert, mqtt_tls_client_key, Store, max_size_of,
  read_config,
}
use aitrios_edge_device_core.Esf.Read.Bounds.{WritesAtMost, Fits, read_config-Fits}
use aitrios_edge_device_core.Esf.Read.TextFiles.{TextFiles}
use aitrios_edge_device_core.Esf.Read.FromFile.{AnswersFirst, read_config-AnswersFile}
use aitrios_edge_device_core.Esf.Read.RoundTrip.{port, AnswersSetting, settings_round_trip}
use aitrios_edge_device_core.Esf.Read.Memory.{Gives, read_config-Gives}
use aitrios_edge_device_core.Esf.Proxy.{deinit_proxy_cache, init_proxy_cache}
use aitrios_edge_device_core.Esf.Proxy.Cache.{
  IsEmpty, Kept, deinit_proxy_cache_lem, init_proxy_cache-Kept,
}

abbrev proxy : ProxyParameter
proxy = record {
  url = codes "proxy.example";
  port_text = codes "8080";
  username_text = codes "user";
  password_text = codes "secret";
}

-- The fourth request of the heap fails: the copy of the password.
abbrev source : Source
source = record { room = λ n. if n == 3 then false else true; load = some proxy; port_len = 6 }

abbrev empty_cache : Esf
empty_cache = record {
  host = none;
  port = [];
  username = none;
  password = none;
  requests = 0;
  live = 2;
  descriptors = 0;
}

abbrev filled : Esf
filled = record {
  host = some (codes "proxy.example");
  port = codes "8080";
  username = none;
  password = some (codes "secret");
  requests = 3;
  live = 4;
  descriptors = 0;
}

-- The cache is given up after the failure, and the port of the lost proxy stays behind.
stale_port : (init_proxy_cache source empty_cache).1.port ≡ codes "8080"
unfolding init_proxy_cache
stale_port = refl

init_proxy_cache_example : Kept 2 (init_proxy_cache source empty_cache)
init_proxy_cache_example = init_proxy_cache-Kept source empty_cache (refl, refl, refl)

deinit_proxy_cache_example :
    IsEmpty (deinit_proxy_cache filled)
    × (deinit_proxy_cache filled).live ≡ 2
    × (deinit_proxy_cache filled).port ≡ codes "8080"
deinit_proxy_cache_example = deinit_proxy_cache_lem 2 filled refl

-- A heap that never runs out.
abbrev full_heap : Source
full_heap = record source { room = λ n. true }

abbrev one_byte : ℕ → Option (List ℕ)
one_byte zero = none
one_byte (suc room) = some (49 ∷ [])

-- Getters that answer one byte; the host of the proxy is longer than its room.
abbrev store : Store
store = record {
  root_ca_max_size = 4;
  hub_url_max_size = 4;
  hub_port_max_size = 4;
  iot_platform_max_size = 4;
  proxy_url_len = 6;
  proxy_user_name_len = 4;
  proxy_password_len = 4;
  get_root_ca = λ room. none;
  get_evp_hub_url = λ room. none;
  get_evp_hub_port = one_byte;
  get_evp_iot_platform = λ room. none;
  cert_key_dir = none;
  asprintf_left = none;
  open_dir = λ dir. none;
  open_file = λ path. none;
}

size_of : Option (List ℕ) → ℕ
size_of none = 0
size_of (some bytes) = length bytes

one_byte-WritesAtMost : WritesAtMost one_byte
unfolding size_of
one_byte-WritesAtMost zero bytes h = let size : 0 ≡ length bytes = ap size_of h in omega arith
one_byte-WritesAtMost (suc room) bytes h = let size : 1 ≡ length bytes = ap size_of h in omega arith

none-WritesAtMost : WritesAtMost (λ room. none)
unfolding size_of
none-WritesAtMost room bytes h = let size : 0 ≡ length bytes = ap size_of h in omega arith

read_config-Fits_example : Fits (read_config full_heap store mqtt_proxy_host filled).0
read_config-Fits_example =
    read_config-Fits full_heap store mqtt_proxy_host filled none-WritesAtMost none-WritesAtMost
      one_byte-WritesAtMost none-WritesAtMost

nul_in : Option (Option (List ℕ)) → Bool
nul_in (some (some content)) = has_nul content
nul_in _ = false

-- A directory with a certificate and a key.
abbrev keys : Store
keys = record store {
  open_dir = λ dir. some (codes "a_cert.pem" ∷ codes "my_key.pem" ∷ []);
  open_file = λ path. some (some (codes "secret"));
}

keys-TextFiles : TextFiles keys
unfolding nul_in
keys-TextFiles path content h = sym (ap nul_in h)

-- The heap is full when the path of the key is printed.
read_config-Gives_example :
    Gives
      (record full_heap { room = λ n. if n == 6 then false else true })
      keys
      filled
      (read_config
        (record full_heap { room = λ n. if n == 6 then false else true })
        keys
        mqtt_tls_client_key
        filled)
read_config-Gives_example =
    read_config-Gives (record full_heap { room = λ n. if n == 6 then false else true }) keys
      mqtt_tls_client_key filled refl

read_config-AnswersFile_example :
    AnswersFirst full_heap keys
      (codes "_cert.pem")
      32768
      (read_config full_heap keys mqtt_tls_client_cert empty_cache).0
    × AnswersFirst full_heap keys
        (codes "_key.pem")
        4096
        (read_config full_heap keys mqtt_tls_client_key empty_cache).0
read_config-AnswersFile_example =
    read_config-AnswersFile full_heap keys (λ i. refl) keys-TextFiles empty_cache

-- The port of the proxy that is loaded is answered for the key of MQTT.
settings_round_trip_example :
    AnswersSetting 5
      (some (codes "8080"))
      (read_config full_heap store mqtt_proxy_port (init_proxy_cache full_heap empty_cache).1).0
unfolding init_proxy_cache max_size_of
settings_round_trip_example =
    settings_round_trip full_heap store true port 5 proxy empty_cache refl (refl, refl, refl) refl
      refl refl refl refl refl
