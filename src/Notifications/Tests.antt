-- ===== src/Notifications/Tests.antt =====
-- Runs of the handlers of notifications.c, and their theorems at them.
use mathlib.Core.Option
use mathlib.Core.Option.{bind}
use aitrios_edge_device_core.Base.{
  ℕ, ◌≤◌, ◌≡◌, ◌≢◌, refl, min, true, false, Option, some, List, [], ◌∷◌, ◌++◌, arith, ◌==◌,
  if◌then◌else◌, ℤ, pos, negsuc, eio, codes, CString, take, strncmp_eq,
}
use aitrios_edge_device_core.Elog.{system_get_elog, system_set_elog, system_reg_elog}
use aitrios_edge_device_core.Elog.Codes.{code_of, or_else}
use aitrios_edge_device_core.Elog.Invariant.{IsValid, static_elog, static_elog-IsValid}
use aitrios_edge_device_core.Notifications.{
  Notifications, Platform, elog_evp_blob_network_status, elog_evp_mqtt_status, get_elog,
}
use aitrios_edge_device_core.Notifications.Ready.{Holds, Updates}
use aitrios_edge_device_core.Notifications.Blob.{
  BlobNotification, error_http, error, elog_handler_blob_result,
}
use aitrios_edge_device_core.Notifications.Blob.Codes.{blob_after, elog_handler_blob_result-Updates}
use aitrios_edge_device_core.Notifications.Mqtt.{
  elog_handler_mqtt_sync_result, elog_handler_mqtt_sync_success, elog_handler_mqtt_sync_fail,
  elog_handler_network_error,
}
use aitrios_edge_device_core.Notifications.Mqtt.Codes.{
  noted, mqtt_after_failure, recovered_blob, recovered_word, elog_handler_mqtt_sync_success_lem,
  elog_handler_mqtt_sync_fail_lem, elog_handler_network_error_lem,
}
use aitrios_edge_device_core.Notifications.Mqtt.Outage.{IsCalm, outage_word, sync_all_outage}
use aitrios_edge_device_core.Notifications.Mqtt.Failures.{sync_all}
use aitrios_edge_device_core.Notifications.Register.{
  register_codes, evp_agent_notifications_register,
}
use aitrios_edge_device_core.Notifications.Register.Order.{register_codes-Holds, static_elog_empty}
use aitrios_edge_device_core.Notifications.Register.Outcome.{
  initial, handlers, StopsAfter, evp_agent_notifications_register-StopsAfter,
}
use aitrios_edge_device_core.Notifications.Events.{
  Event, blob_result, mqtt_sync_err, network_error, tcp_close_timeout, notify_all, IsReady, Handled,
  notify_all-Handled,
}

-- A device in the year 2025 whose event log takes every event.
abbrev device : Platform
device = record { write_elog = λ _. true; clock = λ _. some (pos 125) }

abbrev unregistered : Notifications
unregistered = record {
  elog = static_elog;
  mqtt_reconnect_cnt = 0;
  mqtt_sync_error_recv_buffer_too_small = false;
  mqtt_sync_error_send_buffer_is_full = false;
  mqtt_sync_error_invalid_time = false;
  tcp_timer_error_timeout = false;
  clock_reads = 0;
}

abbrev started : Notifications
started = record unregistered { elog = register_codes static_elog }

abbrev lost_twice : List CString
lost_twice = codes "MQTT_ERROR_RECONNECTING" ∷ codes "MQTT_ERROR_RECV_BUFFER_TOO_SMALL" ∷ []

-- Two failures, one of them for a small buffer, and a connection leave 0x28.
two_failures :
    Option.map
      (get_elog elog_evp_mqtt_status)
      (sync_all device (lost_twice ++ codes "MQTT_OK" ∷ []) started)
    ≡ some 0x28
unfolding sync_all bind elog_handler_mqtt_sync_result register_codes system_reg_elog system_get_elog
    system_set_elog strncmp_eq
two_failures = refl

started-Holds : Holds (register_codes static_elog) 0x40 0x0
started-Holds =
    register_codes-Holds static_elog static_elog-IsValid (omega arith)
      (static_elog_empty elog_evp_blob_network_status) (static_elog_empty elog_evp_mqtt_status)

ready : IsReady started
ready = record { blob = 0x40; mqtt = 0x0; holds = started-Holds; count = omega arith }

calm : IsCalm started
calm = record { no_failure = refl; no_recv = refl; no_send = refl; no_invalid_time = refl }

sync_all_outage_example :
    (n' : Notifications) × (sync_all device (lost_twice ++ codes "MQTT_OK" ∷ []) started ≡ some n')
    × Holds n'.elog (recovered_blob started 0x40) (outage_word device lost_twice started 0x0)
    × IsCalm n'
unfolding strncmp_eq
sync_all_outage_example =
    sync_all_outage device lost_twice (codes "MQTT_OK") started 0x40 0x0 (refl, (refl, tt)) refl
      calm started-Holds

-- A failure of an upload with status 404, one with EIO, an SSL timeout, and an outage.
abbrev busy_day : List Event
busy_day =
    blob_result (some (record { result = error_http; http_status = 404; error = pos 0 }))
    ∷ tcp_close_timeout
    ∷ mqtt_sync_err (some (codes "MQTT_ERROR_RECONNECTING"))
    ∷ network_error (some (codes "ssl_timeout"))
    ∷ blob_result (some (record { result = error; http_status = 0; error = pos eio }))
    ∷ mqtt_sync_err (some (codes "MQTT_OK"))
    ∷ []

notify_all-Handled_example : Handled (notify_all device busy_day started)
notify_all-Handled_example =
    notify_all-Handled device busy_day started (tt, (tt, (tt, (tt, (tt, (tt, tt)))))) ready

abbrev not_found : BlobNotification
not_found = record { result = error_http; http_status = 404; error = pos 0 }

elog_handler_blob_result-Updates_example :
    let (ret, n') = elog_handler_blob_result device (some not_found) started in
    (ret ≡ pos 0) × Updates elog_evp_blob_network_status (blob_after not_found 0x40) started n'
elog_handler_blob_result-Updates_example =
    let h = started-Holds in
    elog_handler_blob_result-Updates device started h.valid h.blob_registered (omega arith)
      not_found

elog_handler_mqtt_sync_success_example :
    let (ret, n') = elog_handler_mqtt_sync_success device started in
    (ret ≡ pos 0)
    × Holds n'.elog (recovered_blob started 0x40) (recovered_word started 0x0)
    × (n' ≡ record started {
      elog = n'.elog;
      mqtt_reconnect_cnt = 0;
      mqtt_sync_error_recv_buffer_too_small = false;
      mqtt_sync_error_send_buffer_is_full = false;
      mqtt_sync_error_invalid_time = false;
      tcp_timer_error_timeout = false;
    })
    × ((c : ℕ)
        → c ≢ elog_evp_blob_network_status
        → c ≢ elog_evp_mqtt_status
        → code_of c n'.elog ≡ code_of c started.elog)
elog_handler_mqtt_sync_success_example =
    elog_handler_mqtt_sync_success_lem device started 0x40 0x0 (omega arith) started-Holds

abbrev full_buffer : Option CString
full_buffer = some (codes "MQTT_ERROR_SEND_BUFFER_IS_FULL")

elog_handler_mqtt_sync_fail_example :
    let n' = (elog_handler_mqtt_sync_fail device full_buffer started).1 in
    Holds n'.elog 0x40 (mqtt_after_failure (noted device full_buffer started) 0x0)
    × (n' ≡ record (noted device full_buffer started) {
      elog = n'.elog;
      mqtt_reconnect_cnt = min 1 15;
    })
elog_handler_mqtt_sync_fail_example =
    elog_handler_mqtt_sync_fail_lem device full_buffer started 0x40 0x0 (omega arith) started-Holds

elog_handler_network_error_example :
    (n' : Notifications) × (elog_handler_network_error device (some (codes "ssl_timeout")) started
      ≡ some (pos 0, n'))
    × Holds n'.elog 0x41 0x0
    × (n' ≡ record started { elog = n'.elog })
    × ((c : ℕ) → c ≢ elog_evp_blob_network_status → code_of c n'.elog ≡ code_of c started.elog)
unfolding strncmp_eq
elog_handler_network_error_example =
    elog_handler_network_error_lem device (codes "ssl_timeout") started 0x40 0x0 started-Holds

-- The third subscription is refused with -EINVAL.
abbrev third_refused : ℕ → ℤ
third_refused k = if k == 2 then negsuc 21 else pos 0

evp_agent_notifications_register-StopsAfter_example :
    let (ret, e', active) = evp_agent_notifications_register third_refused static_elog in
    ((k : ℕ) × (k ≤ 4) × StopsAfter third_refused k ret × (active ≡ take k handlers))
    × IsValid e'
    × ((c : ℕ) → code_of c e' ≡ or_else (code_of c static_elog) (initial c))
evp_agent_notifications_register-StopsAfter_example =
    evp_agent_notifications_register-StopsAfter third_refused static_elog static_elog-IsValid
      (omega arith)
