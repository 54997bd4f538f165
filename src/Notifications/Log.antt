-- ===== src/Notifications/Log.antt =====
-- The event log under the handlers of notifications.c, and the steps that the handlers share.
pub mod Handlers
use mathlib.Core.Path.{subst}
use mathlib.Core.Option
use mathlib.Core.Option.{bind}
use aitrios_edge_device_core.Base.{
  List, ℕ, ◌<◌, ◌%◌, ◌≡◌, ◌∙◌, refl, sym, ap, Bool, true, false, Option, none, some, ◌==◌, arith,
  if◌then◌else◌, if_both, ℤ, pos, neg, einval, CString, codes, u8, bit_or,
}
use aitrios_edge_device_core.Elog.{Elog, system_set_elog, system_reg_elog, elog_err}
use aitrios_edge_device_core.Elog.Invariant.{IsValid, system_get_elog-byte}
use aitrios_edge_device_core.Elog.Threads.{set_code, reg, Operation, perform}
use aitrios_edge_device_core.Elog.Registry.{
  Registry, registry, promise, IsByte, perform-IsValid, perform-promise,
}
use aitrios_edge_device_core.Elog.Registry.Log.{IsFaithful, promise-IsFaithful}
use aitrios_edge_device_core.Notifications.Blob.{
  elog_handler_blob_success, elog_handler_blob_http_error, elog_handler_blob_other_error,
  elog_handler_blob_result, BlobNotification, BlobResult, blob_branch, success, error_http, error,
  other,
}
use aitrios_edge_device_core.Notifications.Mqtt.{
  check_sys_time, note_event, note_reason, count_failure, elog_handler_mqtt_sync_success,
  elog_handler_mqtt_sync_fail, elog_handler_mqtt_sync_result, elog_handler_network_error,
  recovered_mqtt_code, recovered_blob_code, clear_counters, failed_mqtt_code, begins_with,
}
use aitrios_edge_device_core.Notifications.Events.{
  Event, blob_result, mqtt_sync_err, network_error, tcp_close_timeout, notify,
}
use aitrios_edge_device_core.Notifications.Register.{
  register_codes, evp_agent_notifications_register,
}
use aitrios_edge_device_core.Notifications.{
  Notifications, Platform, elog_evp_blob_network_status, elog_evp_mqtt_status, get_elog, set_elog,
}

-- A valid table, and a log that tells its codes.
abbrev pub Logs : Elog → Type 0
Logs e = IsValid e × IsFaithful (registry e)

pub perform-Logs :
    (write_elog : List ℕ → Bool) (op : Operation) (e : Elog)
    → IsByte write_elog op
    → Logs e
    → Logs (perform write_elog op e).1
perform-Logs write_elog op e byte (valid, faithful) =
    let done = ap (λ (r : ℤ × Registry). r.1) (perform-promise write_elog op e byte valid) in
    (
      perform-IsValid write_elog op e byte valid,
      subst IsFaithful (sym done) (promise-IsFaithful write_elog op (registry e) byte faithful),
    )

pub set_elog-Logs :
    (p : Platform) (component code : ℕ) (n : Notifications)
    → component < 256
    → code < 256
    → Logs n.elog
    → Logs (set_elog p component code n).1.elog
set_elog-Logs p component code n hc hk h =
    perform-Logs p.write_elog (set_code component code) n.elog (hc, hk) h

-- What a handler returns, with a good log.
pub record LogsAfter (r : ℤ × Notifications) : Type 0 where
  pub logs : Logs r.1.elog

pub blob_below : elog_evp_blob_network_status < 256
blob_below = omega arith

pub mqtt_below : elog_evp_mqtt_status < 256
mqtt_below = omega arith

pub recovered_mqtt_code-byte : (n : Notifications) (code : ℕ) → recovered_mqtt_code n code < 256
recovered_mqtt_code-byte n code =
    if_both (λ (x : ℕ). x < 256) n.mqtt_sync_error_invalid_time _ _ (omega arith) (omega arith)

pub recovered_blob_code-byte : (n : Notifications) (code : ℕ) → recovered_blob_code n code < 256
recovered_blob_code-byte n code =
    if_both (λ (x : ℕ). x < 256) n.tcp_timer_error_timeout _ _ (omega arith) (omega arith)

pub failed_mqtt_code-byte : (n : Notifications) (code : ℕ) → failed_mqtt_code n code < 256
failed_mqtt_code-byte n code =
    if_both (λ (x : ℕ). x < 256) n.mqtt_sync_error_send_buffer_is_full _ _ (omega arith)
      (if_both (λ (x : ℕ). x < 256) n.mqtt_sync_error_recv_buffer_too_small _ _ (omega arith)
        (omega arith))

pub note_event-elog :
    (event : Option CString) (n : Notifications) → (note_event event n).elog ≡ n.elog
unfolding note_reason
note_event-elog none n = refl
note_event-elog (some reason) n = ground arith

pub count_failure-elog : (n : Notifications) → (count_failure n).elog ≡ n.elog
unfolding count_failure
count_failure-elog n = ground arith

pub check_sys_time-elog : (p : Platform) (n : Notifications) → (check_sys_time p n).elog ≡ n.elog
unfolding check_sys_time
check_sys_time-elog p n = ground arith
