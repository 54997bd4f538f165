-- ===== src/Agent/Program/Tests.antt =====
-- A run of the whole program on a concrete input.
use aitrios_edge_device_core.Base.{none, refl, true, false, some, [], ◌∷◌, arith, pos, codes}
use aitrios_edge_device_core.Elog.Invariant.{static_elog, static_elog-IsValid}
use aitrios_edge_device_core.Status.{Settings}
use aitrios_edge_device_core.Esf.{Source}
use aitrios_edge_device_core.Agent.Thread.Laws.{EndsIdle}
use aitrios_edge_device_core.Esf.Read.{mqtt_proxy_host, Store}
use aitrios_edge_device_core.Notifications.{elog_evp_blob_network_status, elog_evp_mqtt_status}
use aitrios_edge_device_core.Notifications.Events.{network_error}
use aitrios_edge_device_core.Notifications.Register.Order.{static_elog_empty}
use aitrios_edge_device_core.Agent.Program.{notified, status, configured, Program, World, program}
use aitrios_edge_device_core.Elog.Registry.Log.{unwritten-IsFaithful}
use aitrios_edge_device_core.Agent.Program.Log.{ProgramLogs, program-Logs}
use aitrios_edge_device_core.Agent.Program.Stages.{ProgramIdle}
use aitrios_edge_device_core.Agent.Program.Ends.{ProgramEnds, program-Ends}
use aitrios_edge_device_core.Agent.{Agent}
use aitrios_edge_device_core.Agent.Thread.{evp_agent_thread}
use aitrios_edge_device_core.Agent.Tests.{outside, symbols_of}

-- The whole program, with a proxy that is cached and no TLS.
abbrev settings : Settings
settings = record {
  evp_tls = some 1;
  evp_tls_disable = 1;
  mqtt_host = none;
  project_id_room = true;
  project_id = none;
  register_token_room = true;
  register_token = none;
  set_status = λ sent info. true;
}

abbrev source : Source
source = record {
  room = λ n. true;
  load = some (record {
    url = codes "proxy.example";
    port_text = codes "8080";
    username_text = [];
    password_text = codes "secret";
  });
  port_len = 6;
}

-- A directory without a key; every getter fails.
abbrev store : Store
store = record {
  root_ca_max_size = 4;
  hub_url_max_size = 4;
  hub_port_max_size = 4;
  iot_platform_max_size = 4;
  proxy_url_len = 16;
  proxy_user_name_len = 4;
  proxy_password_len = 8;
  get_root_ca = λ room. none;
  get_evp_hub_url = λ room. none;
  get_evp_hub_port = λ room. none;
  get_evp_iot_platform = λ room. none;
  cert_key_dir = none;
  asprintf_left = none;
  open_dir = λ dir. some [];
  open_file = λ path. none;
}

-- In each call the library reads the host of the proxy, reports an error of the network and then
-- that the agent is connected.
abbrev world : World
world = record {
  settings = settings;
  source = source;
  store = store;
  platform = record { write_elog = λ events. true; clock = λ n. some (pos 125) };
  subscribe = λ k. pos 0;
  called_back = λ n.
      configured mqtt_proxy_host
      ∷ notified (network_error (some (codes "ssl_timeout")))
      ∷ status (some (codes "connected"))
      ∷ [];
}

abbrev parts : Program
parts = record {
  sent = [];
  esf = record {
    host = none;
    port = [];
    username = none;
    password = none;
    requests = 0;
    live = 2;
    descriptors = 0;
  };
  notifications = record {
    elog = static_elog;
    mqtt_reconnect_cnt = 0;
    mqtt_sync_error_recv_buffer_too_small = false;
    mqtt_sync_error_send_buffer_is_full = false;
    mqtt_sync_error_invalid_time = false;
    tcp_timer_error_timeout = false;
    clock_reads = 0;
  };
  active = [];
  given = 0;
  faulted = false;
}

abbrev start : Agent Program
start = record {
  ctxt = false;
  signalled = false;
  started = false;
  ret = pos 0;
  queue = symbols_of 3 ∷ [];
  symbol_blocks = 1;
  registered = [];
  services = parts;
  calls = [];
}

parts-ProgramIdle : ProgramIdle 2 0 parts
parts-ProgramIdle = (
  ((refl, refl, refl), omega arith, refl),
  record {
    valid = static_elog-IsValid;
    room = omega arith;
    no_blob = static_elog_empty elog_evp_blob_network_status;
    no_mqtt = static_elog_empty elog_evp_mqtt_status;
    count = omega arith;
  },
  refl,
)

program-Ends_example : ProgramEnds 2 0 (evp_agent_thread (program world) outside 5 start)
program-Ends_example =
    program-Ends world outside 5 2 2 0 start (omega arith) refl (λ n. (tt, tt)) refl
      parts-ProgramIdle refl

parts-ProgramLogs : ProgramLogs parts
parts-ProgramLogs = ((static_elog-IsValid, unwritten-IsFaithful static_elog refl), refl)

program-Logs_example : EndsIdle ProgramLogs (evp_agent_thread (program world) outside 5 start)
program-Logs_example =
    program-Logs world outside 5 2 start (omega arith) refl (λ n. (tt, tt)) parts-ProgramLogs
