-- ===== src/Status/Tests.antt =====
-- Runs of the handler of "agent/status" on concrete inputs.
use aitrios_edge_device_core.Base.{
  ◌≡◌, refl, true, false, none, some, [], ◌∷◌, pos, negsuc, codes, strcmp_eq, ◌==◌, if◌then◌else◌,
}
use aitrios_edge_device_core.Status.{
  connected_with_tls, connected_without_tls, Settings, agent_status_handler, is_enrollment_mode,
}
use aitrios_edge_device_core.Esf.{Esf, Source}
use aitrios_edge_device_core.Esf.Read.{Store}
use aitrios_edge_device_core.Esf.Read.Memory.{Draws}
use aitrios_edge_device_core.Status.Heap.{handle_status}
use aitrios_edge_device_core.Status.Heap.Same.{settings_at, handle_status-Refines}
use aitrios_edge_device_core.Status.Shown.{
  enabled_after, agent_status_handler-reaction, agent_status_handler_shown,
}

-- A console without TLS; every setting is taken.
abbrev console : Settings
console = record {
  evp_tls = some 1;
  evp_tls_disable = 1;
  mqtt_host = some (codes "console.example");
  project_id_room = true;
  project_id = some (0 ∷ []);
  register_token_room = true;
  register_token = some (codes "token");
  set_status = λ sent info. true;
}

-- The same with a LED manager that takes nothing.
abbrev broken : Settings
broken = record console { set_status = λ sent info. false }

-- An enrollment with the provisioning service.
abbrev enrollment : Settings
enrollment = record console { mqtt_host = some (codes "provision.aitrios.sony-semicon.com") }

agent_status_handler-reaction_example :
    agent_status_handler broken (some (codes "disconnected")) []
    ≡ (negsuc 0, record { status = connected_with_tls; enabled = false } ∷ [])
unfolding strcmp_eq
agent_status_handler-reaction_example =
    agent_status_handler-reaction broken (some (codes "disconnected")) []

quiet_enrollment : agent_status_handler enrollment (some (codes "connected")) [] ≡ (pos 0, [])
unfolding is_enrollment_mode strcmp_eq
quiet_enrollment = agent_status_handler-reaction enrollment (some (codes "connected")) []

agent_status_handler_shown_example :
    enabled_after false
      (agent_status_handler console (some (codes "connected")) []).1
      connected_without_tls
    ≡ true
unfolding is_enrollment_mode strcmp_eq agent_status_handler
agent_status_handler_shown_example =
    agent_status_handler_shown console true false [] connected_without_tls refl refl

-- A heap whose fourth request fails, the buffer of the token, and a host that can be read.
abbrev source : Source
source = record { room = λ n. if n == 3 then false else true; load = none; port_len = 6 }

abbrev store : Store
store = record {
  root_ca_max_size = 4;
  hub_url_max_size = 16;
  hub_port_max_size = 4;
  iot_platform_max_size = 4;
  proxy_url_len = 16;
  proxy_user_name_len = 4;
  proxy_password_len = 8;
  get_root_ca = λ room. none;
  get_evp_hub_url = λ room. some (codes "console.example");
  get_evp_hub_port = λ room. none;
  get_evp_iot_platform = λ room. none;
  cert_key_dir = none;
  asprintf_left = none;
  open_dir = λ dir. some [];
  open_file = λ path. none;
}

abbrev no_blocks : Esf
no_blocks = record {
  host = none;
  port = [];
  username = none;
  password = none;
  requests = 0;
  live = 0;
  descriptors = 0;
}

handle_status-Refines_example :
    ((handle_status console source store (some (codes "connected")) [] no_blocks).0
      ≡ agent_status_handler
          (settings_at console source store no_blocks)
          (some (codes "connected"))
          [])
    × Draws 0 no_blocks
        (handle_status console source store (some (codes "connected")) [] no_blocks).1
handle_status-Refines_example =
    handle_status-Refines console source store (some (codes "connected")) [] no_blocks
