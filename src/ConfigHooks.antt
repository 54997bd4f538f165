-- ===== src/ConfigHooks.antt =====
-- The hooks that the agent library calls for its configuration: src/evp-agent/src/config.c. The
-- pointer that a configuration is loaded at is that of its value, so unloading writes there.
pub mod Wiped
mod Tests
use aitrios_edge_device_core.Base.{
  ℕ, Bool, true, false, not, ◌&&◌, Option, none, some, List, if◌then◌else◌, ℤ, pos,
}
use aitrios_edge_device_core.Esf.{Esf, Source}
use aitrios_edge_device_core.Esf.Read.{
  ConfigKey, mqtt_tls_ca_cert, mqtt_tls_client_cert, mqtt_tls_client_key, unlisted, Config, Store,
  read_config,
}
use aitrios_edge_device_core.Status.{Settings, is_tls_enabled}

-- The keys that are ignored without TLS.
abbrev pub is_mqtt_tls : ConfigKey → Bool
is_mqtt_tls mqtt_tls_client_key = true
is_mqtt_tls mqtt_tls_client_cert = true
is_mqtt_tls mqtt_tls_ca_cert = true
is_mqtt_tls _ = false

-- `get_config_impl`
unfoldable pub get_config_impl : Settings → Source → Store → ConfigKey → Esf → Option Config × Esf
get_config_impl settings e st key c =
    let read = read_config e st key c in
    if is_mqtt_tls key && not (is_tls_enabled settings) then (none, c) else read

-- `load_config_impl`: its result, the pointer and the size.
unfoldable pub load_config_impl : Config → ℤ × List ℕ × ℕ
load_config_impl config = (pos 0, config.value, config.size)

-- `unload_config_impl`, with the bytes at `vp0` before and after; `zeroize` is
-- `mbedtls_platform_zeroize`.
unfoldable pub unload_config_impl : (List ℕ → ℕ → List ℕ) → Config → List ℕ → ℕ → List ℕ
unload_config_impl zeroize config vp0 size = zeroize vp0 size

-- `config_is_pk_file`
unfoldable pub config_is_pk_file : ConfigKey → Bool
config_is_pk_file (unlisted within pk_file) = pk_file
config_is_pk_file _ = false
