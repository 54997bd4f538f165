-- ===== src/Notifications/Mqtt.antt =====
-- The handlers of the topics "mqtt/sync/err" and "network/error": notifications.c, lines 265 to 459.
-- The second status code holds, from the high bits down, the number of failed connections (4 bits),
-- a receive buffer that was too small, a send buffer that was full, and an invalid system time.
-- An event is a C string, or `none` for NULL; `none` as a result is a read through NULL.
pub mod Words
pub mod Codes
pub mod Failures
pub mod Outage
use aitrios_edge_device_core.Base.{
  ℕ, ◌+◌, Bool, true, false, Option, none, some, bit_and, bit_or, ltb, ◌==◌, if◌then◌else◌, ℤ, pos,
  neg, pos_part, neg_part, leb, einval, u8, shl, clear, CString, codes, strncmp_eq, length,
}
use aitrios_edge_device_core.Elog.{elog_err}
use aitrios_edge_device_core.Notifications.{
  Notifications, Platform, elog_evp_blob_network_status, elog_evp_mqtt_status, get_elog, set_elog,
}

abbrev pub mqtt_reconnect_cnt_max : ℕ
mqtt_reconnect_cnt_max = 0xf

abbrev pub mqtt_reconnect_cnt_mask : ℕ
mqtt_reconnect_cnt_mask = 0xf0

abbrev pub mqtt_err_recv_buff_mask : ℕ
mqtt_err_recv_buff_mask = 0x08

abbrev pub mqtt_err_send_buff_mask : ℕ
mqtt_err_send_buff_mask = 0x04

abbrev pub invalid_time_mask : ℕ
invalid_time_mask = 0x02

-- `ltime.tm_year + 1900 <= 2000`
abbrev pub is_before_2001 : ℤ → Bool
is_before_2001 tm_year = leb (pos_part tm_year + 1900) (2000 + neg_part tm_year)

abbrev pub is_invalid_time : Option ℤ → Bool
is_invalid_time none = true
is_invalid_time (some tm_year) = is_before_2001 tm_year

-- It returns 0 on every path.
unfoldable pub check_sys_time : Platform → Notifications → Notifications
check_sys_time p n =
    let n' = record n { clock_reads = n.clock_reads + 1 } in
    if is_invalid_time (p.clock n.clock_reads)
    then record n' { mqtt_sync_error_invalid_time = true }
    else n'

-- The first status code that `elog_handler_mqtt_sync_success` computes from the old one.
abbrev pub recovered_mqtt_code : Notifications → ℕ → ℕ
recovered_mqtt_code n mqtt_code =
    let a = u8 (clear mqtt_code mqtt_reconnect_cnt_mask) in
    let b = u8 (bit_or a (bit_and (shl n.mqtt_reconnect_cnt 4) mqtt_reconnect_cnt_mask)) in
    let c =
      if n.mqtt_sync_error_recv_buffer_too_small
      then u8 (bit_or b mqtt_err_recv_buff_mask)
      else b in
    let d =
      if n.mqtt_sync_error_send_buffer_is_full then u8 (bit_or c mqtt_err_send_buff_mask) else c in
    if n.mqtt_sync_error_invalid_time
    then u8 (bit_or d invalid_time_mask)
    else u8 (clear d invalid_time_mask)

abbrev pub recovered_blob_code : Notifications → ℕ → ℕ
recovered_blob_code n blob_network_code =
    if n.tcp_timer_error_timeout
    then u8 (bit_or blob_network_code 0x2)
    else u8 (clear blob_network_code 0x2)

-- The internal counter and flags, cleared.
abbrev pub clear_counters : Notifications → Notifications
clear_counters n = record n {
  mqtt_reconnect_cnt = 0;
  mqtt_sync_error_recv_buffer_too_small = false;
  mqtt_sync_error_send_buffer_is_full = false;
  mqtt_sync_error_invalid_time = false;
  tcp_timer_error_timeout = false;
}

unfoldable pub elog_handler_mqtt_sync_success : Platform → Notifications → ℤ × Notifications
elog_handler_mqtt_sync_success p n =
    let mqtt_code = get_elog elog_evp_mqtt_status n in
    let blob_network_code = get_elog elog_evp_blob_network_status n in
    if mqtt_code == elog_err
    then (neg einval, n)
    else if blob_network_code == elog_err
    then (neg einval, n)
    else (let n' = clear_counters n in
        let n'' = (set_elog p elog_evp_mqtt_status (recovered_mqtt_code n mqtt_code) n').1 in
        let n''' =
          (set_elog p elog_evp_blob_network_status (recovered_blob_code n blob_network_code)
            n'').1 in
        (pos 0, n'''))

-- `!strncmp(reason, check, strlen(check))`
abbrev pub begins_with : CString → CString → Bool
begins_with reason check = strncmp_eq reason check (length check)

-- The flags of the buffers, set by the reason.
unfoldable pub note_reason : CString → Notifications → Notifications
note_reason reason n =
    let a =
      if begins_with reason (codes "MQTT_ERROR_RECV_BUFFER_TOO_SMALL")
      then record n { mqtt_sync_error_recv_buffer_too_small = true }
      else n in
    if begins_with reason (codes "MQTT_ERROR_SEND_BUFFER_IS_FULL")
    then record a { mqtt_sync_error_send_buffer_is_full = true }
    else a

abbrev pub note_event : Option CString → Notifications → Notifications
note_event none n = n
note_event (some reason) n = note_reason reason n

-- The code that the first failure after a connection writes.
abbrev pub failed_mqtt_code : Notifications → ℕ → ℕ
failed_mqtt_code n mqtt_code =
    let a = u8 (clear mqtt_code mqtt_reconnect_cnt_mask) in
    let b =
      if n.mqtt_sync_error_recv_buffer_too_small then u8 (clear a mqtt_err_recv_buff_mask) else a in
    if n.mqtt_sync_error_send_buffer_is_full then u8 (clear b mqtt_err_send_buff_mask) else b

unfoldable pub count_failure : Notifications → Notifications
count_failure n =
    if ltb n.mqtt_reconnect_cnt mqtt_reconnect_cnt_max
    then record n { mqtt_reconnect_cnt = u8 (n.mqtt_reconnect_cnt + 1) }
    else n

unfoldable pub elog_handler_mqtt_sync_fail :
    Platform → Option CString → Notifications → ℤ × Notifications
unfolding check_sys_time note_reason count_failure
elog_handler_mqtt_sync_fail p event n =
    let mqtt_code = get_elog elog_evp_mqtt_status n in
    if mqtt_code == elog_err
    then (neg einval, n)
    else (let noted = note_event event (check_sys_time p n) in
        let (ret, n') =
          if noted.mqtt_reconnect_cnt == 0
          then set_elog p elog_evp_mqtt_status (failed_mqtt_code noted mqtt_code) noted
          else (pos 0, noted) in
        (ret, count_failure n'))

-- `reason` is compared before anything tests it for NULL.
unfoldable pub elog_handler_mqtt_sync_result :
    Platform → Option CString → Notifications → Option (ℤ × Notifications)
unfolding elog_handler_mqtt_sync_success elog_handler_mqtt_sync_fail
elog_handler_mqtt_sync_result p none n = none
elog_handler_mqtt_sync_result p (some reason) n =
    if begins_with reason (codes "MQTT_OK")
    then some (pos 0, (elog_handler_mqtt_sync_success p n).1)
    else some (pos 0, (elog_handler_mqtt_sync_fail p (some reason) n).1)

-- After the guard, `reason` is compared without a test for NULL.
unfoldable pub elog_handler_network_error :
    Platform → Option CString → Notifications → Option (ℤ × Notifications)
elog_handler_network_error p none n =
    if get_elog elog_evp_blob_network_status n == elog_err then some (neg einval, n) else none
elog_handler_network_error p (some reason) n =
    let blob_network_code = get_elog elog_evp_blob_network_status n in
    let marked =
      if begins_with reason (codes "ssl_timeout")
      then u8 (bit_or blob_network_code 0x01)
      else blob_network_code in
    if blob_network_code == elog_err
    then some (neg einval, n)
    else some (pos 0, (set_elog p elog_evp_blob_network_status marked n).1)
