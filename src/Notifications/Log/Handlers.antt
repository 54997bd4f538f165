-- ===== src/Notifications/Log/Handlers.antt =====
-- The handlers of notifications.c and their registration, and the event log that they leave.
use mathlib.Core.Path.{subst}
use mathlib.Core.Option
use mathlib.Core.Option.{bind}
use aitrios_edge_device_core.Base.{
  List, ℕ, ◌<◌, ◌∙◌, sym, true, Option, none, some, ◌==◌, arith, if◌then◌else◌, if_both, ℤ, pos,
  CString, codes, u8, bit_or,
}
use aitrios_edge_device_core.Elog.{Elog, elog_err}
use aitrios_edge_device_core.Elog.Invariant.{system_get_elog-byte}
use aitrios_edge_device_core.Elog.Threads.{reg}
use aitrios_edge_device_core.Notifications.Blob.{
  elog_handler_blob_success, elog_handler_blob_http_error, elog_handler_blob_other_error,
  elog_handler_blob_result, BlobNotification, BlobResult, blob_branch, success, error_http, error,
  other,
}
use aitrios_edge_device_core.Notifications.Mqtt.{
  check_sys_time, note_event, elog_handler_mqtt_sync_success, elog_handler_mqtt_sync_fail,
  elog_handler_mqtt_sync_result, elog_handler_network_error, recovered_mqtt_code,
  recovered_blob_code, clear_counters, failed_mqtt_code, begins_with,
}
use aitrios_edge_device_core.Notifications.Events.{
  HasReason, Event, blob_result, mqtt_sync_err, network_error, tcp_close_timeout, notify,
}
use aitrios_edge_device_core.Notifications.Register.{register_codes}
use aitrios_edge_device_core.Notifications.{
  Notifications, Platform, elog_evp_blob_network_status, elog_evp_mqtt_status, get_elog, set_elog,
}
use aitrios_edge_device_core.Notifications.Log.{
  Logs, set_elog-Logs, LogsAfter, blob_below, mqtt_below, recovered_mqtt_code-byte,
  recovered_blob_code-byte, failed_mqtt_code-byte, note_event-elog, count_failure-elog,
  check_sys_time-elog, perform-Logs,
}

module _ (p : Platform) where
  -- A code that is cut to a byte.
  sets-Logs :
      (component code : ℕ) (n : Notifications)
      → component < 256
      → Logs n.elog
      → LogsAfter (set_elog p component (u8 code) n)
  sets-Logs component code n hc h = record {
    logs = set_elog-Logs p component (u8 code) n hc (omega arith) h;
  }

  blob_success-Logs : (n : Notifications) → Logs n.elog → LogsAfter (elog_handler_blob_success p n)
  unfolding elog_handler_blob_success
  blob_success-Logs n h = record {
    logs = set_elog-Logs p elog_evp_blob_network_status _ n blob_below (omega arith) h;
  }

  blob_http_error-Logs :
      (status : ℕ) (n : Notifications)
      → Logs n.elog
      → LogsAfter (elog_handler_blob_http_error p status n)
  unfolding elog_handler_blob_http_error
  blob_http_error-Logs status n h =
      if_both LogsAfter (get_elog elog_evp_blob_network_status n == elog_err) _ _
        (record { logs = h }) (sets-Logs elog_evp_blob_network_status _ n blob_below h)

  blob_other_error-Logs :
      (err : ℤ) (n : Notifications)
      → Logs n.elog
      → LogsAfter (elog_handler_blob_other_error p err n)
  unfolding elog_handler_blob_other_error
  blob_other_error-Logs err n h =
      if_both LogsAfter (get_elog elog_evp_blob_network_status n == elog_err) _ _
        (record { logs = h })
        (record { logs = (sets-Logs elog_evp_blob_network_status _ n blob_below h).logs })

  blob_branch-Logs :
      (notif : BlobNotification) (result : BlobResult) (n : Notifications)
      → Logs n.elog
      → LogsAfter (blob_branch p notif result n)
  blob_branch-Logs notif success n h = blob_success-Logs n h
  blob_branch-Logs notif error_http n h = blob_http_error-Logs notif.http_status n h
  blob_branch-Logs notif error n h = blob_other_error-Logs notif.error n h
  blob_branch-Logs notif other n h = blob_other_error-Logs notif.error n h

  blob_result-Logs :
      (event : Option BlobNotification) (n : Notifications)
      → Logs n.elog
      → Logs (elog_handler_blob_result p event n).1.elog
  unfolding elog_handler_blob_result
  blob_result-Logs none n h = h
  blob_result-Logs (some notif) n h = (blob_branch-Logs notif notif.result n h).logs

  sync_success-Logs :
      (n : Notifications) → Logs n.elog → LogsAfter (elog_handler_mqtt_sync_success p n)
  unfolding elog_handler_mqtt_sync_success
  sync_success-Logs n h =
      let mqtt_code = get_elog elog_evp_mqtt_status n in
      let blob_network_code = get_elog elog_evp_blob_network_status n in
      let first =
        set_elog-Logs p elog_evp_mqtt_status (recovered_mqtt_code n mqtt_code) (clear_counters n)
          mqtt_below (recovered_mqtt_code-byte n mqtt_code) h in
      let n' =
        (set_elog p elog_evp_mqtt_status (recovered_mqtt_code n mqtt_code) (clear_counters n)).1 in
      let second =
        set_elog-Logs p elog_evp_blob_network_status (recovered_blob_code n blob_network_code) n'
          blob_below (recovered_blob_code-byte n blob_network_code) first in
      if_both LogsAfter (mqtt_code == elog_err) _ _ (record { logs = h })
        (if_both LogsAfter (blob_network_code == elog_err) _ _ (record { logs = h })
          (record { logs = second }))

  sync_fail-Logs :
      (event : Option CString) (n : Notifications)
      → Logs n.elog
      → LogsAfter (elog_handler_mqtt_sync_fail p event n)
  unfolding elog_handler_mqtt_sync_fail
  sync_fail-Logs event n h =
      let mqtt_code = get_elog elog_evp_mqtt_status n in
      let noted = note_event event (check_sys_time p n) in
      let same = note_event-elog event (check_sys_time p n) ∙ check_sys_time-elog p n in
      let kept : Logs noted.elog = subst Logs (sym same) h in
      let r =
        if noted.mqtt_reconnect_cnt == 0
        then set_elog p elog_evp_mqtt_status (failed_mqtt_code noted mqtt_code) noted
        else (pos 0, noted) in
      let written =
        set_elog-Logs p elog_evp_mqtt_status (failed_mqtt_code noted mqtt_code) noted mqtt_below
          (failed_mqtt_code-byte noted mqtt_code) kept in
      let after : LogsAfter r =
        if_both LogsAfter (noted.mqtt_reconnect_cnt == 0) _ _ (record { logs = written })
          (record { logs = kept }) in
      if_both LogsAfter (mqtt_code == elog_err) _ _ (record { logs = h })
        (record { logs = subst Logs (sym (count_failure-elog r.1)) after.logs })

  -- A handler has not read through NULL, and leaves a good log.
  abbrev pub LogsHandled : Option Notifications → Type 0
  LogsHandled none = ⊥
  LogsHandled (some n) = Logs n.elog

  mqtt_sync-Logs :
      (event : Option CString) (n : Notifications)
      → HasReason (mqtt_sync_err event)
      → Logs n.elog
      → LogsHandled (Option.map (λ r. r.1) (elog_handler_mqtt_sync_result p event n))
  unfolding bind elog_handler_mqtt_sync_result
  mqtt_sync-Logs none n reason h = absurd reason
  mqtt_sync-Logs (some reason) n given h =
      if_both (λ (o : Option (ℤ × Notifications)). LogsHandled (Option.map (λ r. r.1) o))
        (begins_with reason (codes "MQTT_OK")) _ _ (sync_success-Logs n h).logs
        (sync_fail-Logs (some reason) n h).logs

  network_error-Logs :
      (event : Option CString) (n : Notifications)
      → HasReason (network_error event)
      → Logs n.elog
      → LogsHandled (Option.map (λ r. r.1) (elog_handler_network_error p event n))
  unfolding bind elog_handler_network_error
  network_error-Logs none n reason h = absurd reason
  network_error-Logs (some reason) n given h =
      let code = get_elog elog_evp_blob_network_status n in
      let marked =
        if begins_with reason (codes "ssl_timeout") then u8 (bit_or code 0x01) else code in
      let byte : marked < 256 =
        if_both (λ (x : ℕ). x < 256) (begins_with reason (codes "ssl_timeout")) _ _ (omega arith)
          (system_get_elog-byte elog_evp_blob_network_status n.elog h.0) in
      if_both (λ (o : Option (ℤ × Notifications)). LogsHandled (Option.map (λ r. r.1) o))
        (code == elog_err) _ _ h
        (set_elog-Logs p elog_evp_blob_network_status marked n blob_below byte h)

  pub notify-Logs :
      (event : Event) (n : Notifications)
      → HasReason event
      → Logs n.elog
      → LogsHandled (notify p event n)
  unfolding notify
  notify-Logs (blob_result event) n given h = blob_result-Logs event n h
  notify-Logs (mqtt_sync_err event) n given h = mqtt_sync-Logs event n given h
  notify-Logs (network_error event) n given h = network_error-Logs event n given h
  notify-Logs tcp_close_timeout n given h = h

pub register_codes-Logs : (e : Elog) → Logs e → Logs (register_codes e)
unfolding register_codes
register_codes-Logs e h =
    let writes_all = λ (events : List ℕ). true in
    let reg_Logs =
      λ (component value : ℕ) (msg : CString) (e : Elog) (hc : component < 256) (hv : value < 256)
          (h : Logs e).
        perform-Logs writes_all (reg component value msg) e (hc, hv) h in
    reg_Logs _ _ _ _ (omega arith) (omega arith) (
      reg_Logs _ _ _ _ (omega arith) (omega arith) (reg_Logs _ _ _ _ (omega arith) (omega arith) h))
