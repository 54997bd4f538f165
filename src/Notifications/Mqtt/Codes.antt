-- ===== src/Notifications/Mqtt/Codes.antt =====
-- The status codes after the handlers of "mqtt/sync/err" and "network/error", field by field.
use aitrios_edge_device_core.Base.{
  min, ◌||◌, ℕ, ◌+◌, ◌-◌, ◌*◌, ◌%◌, ◌<◌, ◌≡◌, ◌≢◌, ◌∙◌, refl, inl, inr, Bool, false, Option, none,
  some, arith, bit_or, ◌==◌, if◌then◌else◌, ℤ, pos, u8, bit_at, set_1, CString, codes, Bool-cases,
}
use aitrios_edge_device_core.Elog.{Elog}
use aitrios_edge_device_core.Elog.Codes.{code_of}
use aitrios_edge_device_core.Notifications.{
  Notifications, Platform, elog_evp_blob_network_status, elog_evp_mqtt_status, set_elog,
}
use aitrios_edge_device_core.Notifications.Ready.{
  set_elog-Updates, Holds, blob_real, mqtt_real, get_blob, get_mqtt, set_blob, set_mqtt,
}
use aitrios_edge_device_core.Notifications.Mqtt.{
  is_invalid_time, check_sys_time, clear_counters, elog_handler_mqtt_sync_success, begins_with,
  note_event, note_reason, count_failure, elog_handler_mqtt_sync_fail, elog_handler_network_error,
}
use aitrios_edge_device_core.Notifications.Mqtt.Words.{
  mqtt_word, or_bit, bit, unless, recovered_mqtt_code_lem, recovered_blob_code_lem,
  failed_mqtt_code_lem, or_bit-le, bit-le, unless-le,
}

-- The codes after a recovery: the count of failures, each flag of a buffer that was set then or
-- before, the time flag and the flag of a TCP close timeout as they are now.
abbrev pub recovered_word : Notifications → ℕ → ℕ
recovered_word n mqtt =
    mqtt_word n.mqtt_reconnect_cnt (or_bit n.mqtt_sync_error_recv_buffer_too_small (bit_at mqtt 8))
      (or_bit n.mqtt_sync_error_send_buffer_is_full (bit_at mqtt 4))
      (bit n.mqtt_sync_error_invalid_time) 0

abbrev pub recovered_blob : Notifications → ℕ → ℕ
recovered_blob n blob = blob + bit n.tcp_timer_error_timeout * 2 - bit_at blob 2 * 2

recovered_word_bounds :
    (n : Notifications) (mqtt : ℕ)
    → n.mqtt_reconnect_cnt < 16
    → (recovered_word n mqtt < 256) × (recovered_word n mqtt % 2 ≡ 0)
recovered_word_bounds n mqtt hc = omega (
  arith,
  or_bit-le n.mqtt_sync_error_recv_buffer_too_small mqtt 8,
  or_bit-le n.mqtt_sync_error_send_buffer_is_full mqtt 4,
  bit-le n.mqtt_sync_error_invalid_time,
)

recovered_blob-lt : (n : Notifications) (blob : ℕ) → blob < 240 → recovered_blob n blob < 240
recovered_blob-lt n blob h = omega (arith, bit-le n.tcp_timer_error_timeout)

lowest_clear : (code : ℕ) → code % 2 ≡ 0 → bit_at code 1 ≡ 0
lowest_clear code h = omega arith

-- With registered codes and a counter below 16, a recovery returns 0, writes the count and the
-- flags into the two codes field by field, sets the counter to 0 and all four flags to false, and
-- changes nothing else of the state and no other component's code.
pub elog_handler_mqtt_sync_success_lem :
    (p : Platform) (n : Notifications) (blob mqtt : ℕ)
    → n.mqtt_reconnect_cnt < 16
    → Holds n.elog blob mqtt
    → let (ret, n') = elog_handler_mqtt_sync_success p n in
      (ret ≡ pos 0)
      × Holds n'.elog (recovered_blob n blob) (recovered_word n mqtt)
      × (n' ≡ record n {
        elog = n'.elog;
        mqtt_reconnect_cnt = 0;
        mqtt_sync_error_recv_buffer_too_small = false;
        mqtt_sync_error_send_buffer_is_full = false;
        mqtt_sync_error_invalid_time = false;
        tcp_timer_error_timeout = false;
      })
      × ((c : ℕ)
          → c ≢ elog_evp_blob_network_status
          → c ≢ elog_evp_mqtt_status
          → code_of c n'.elog ≡ code_of c n.elog)
unfolding elog_handler_mqtt_sync_success
elog_handler_mqtt_sync_success_lem p n blob mqtt hc h =
    let code = recovered_word n mqtt in
    let small = recovered_word_bounds n mqtt hc in
    let n' = clear_counters n in
    let wrote = set_mqtt p n' blob mqtt h code small.0 small.1 in
    let n'' = (set_elog p elog_evp_mqtt_status code n').1 in
    rw
      (
        get_mqtt p n blob mqtt h,
        get_blob p n blob mqtt h,
        mqtt_real p n blob mqtt h,
        blob_real p n blob mqtt h,
        recovered_mqtt_code_lem n mqtt hc h.mqtt_below,
        lowest_clear mqtt h.mqtt_even,
        recovered_blob_code_lem n blob (omega (arith, h.blob_below)),
      )
      (
        refl,
        set_blob p n'' blob code wrote (recovered_blob n blob)
            (recovered_blob-lt n blob h.blob_below),
        refl,
        λ c not_blob not_mqtt.
            let last =
              set_elog-Updates p elog_evp_blob_network_status (recovered_blob n blob) n''
                wrote.valid (omega (arith, recovered_blob-lt n blob h.blob_below))
                wrote.blob_registered in
            let first =
              set_elog-Updates p elog_evp_mqtt_status code n' h.valid (omega (arith, small.0))
                h.mqtt_registered in
            last.others c not_blob ∙ first.others c not_mqtt,
      )

-- What a failure notes before it writes: the reading of the clock and the reason, added to the flags.
abbrev pub names : Option CString → CString → Bool
names none check = false
names (some reason) check = begins_with reason check

abbrev pub noted : Platform → Option CString → Notifications → Notifications
noted p event n = record n {
  mqtt_sync_error_recv_buffer_too_small =
      n.mqtt_sync_error_recv_buffer_too_small
      || names event (codes "MQTT_ERROR_RECV_BUFFER_TOO_SMALL");
  mqtt_sync_error_send_buffer_is_full =
      n.mqtt_sync_error_send_buffer_is_full || names event (codes "MQTT_ERROR_SEND_BUFFER_IS_FULL");
  mqtt_sync_error_invalid_time =
      n.mqtt_sync_error_invalid_time || is_invalid_time (p.clock n.clock_reads);
  clock_reads = n.clock_reads + 1;
}

note_event_lem :
    (p : Platform) (event : Option CString) (n : Notifications)
    → note_event event (check_sys_time p n) ≡ noted p event n
unfolding check_sys_time note_reason
note_event_lem p none n = ground arith
note_event_lem p (some reason) n = ground arith

count_failure_lem :
    (n : Notifications)
    → n.mqtt_reconnect_cnt < 16
    → count_failure n ≡ record n { mqtt_reconnect_cnt = min (n.mqtt_reconnect_cnt + 1) 15 }
unfolding count_failure
count_failure_lem n h = ground arith

-- The second code after a failure: only the first failure after a connection changes it.
abbrev pub failed_word : Notifications → ℕ → ℕ
failed_word n mqtt =
    mqtt_word 0 (unless n.mqtt_sync_error_recv_buffer_too_small (bit_at mqtt 8))
      (unless n.mqtt_sync_error_send_buffer_is_full (bit_at mqtt 4)) (bit_at mqtt 2) 0

abbrev pub mqtt_after_failure : Notifications → ℕ → ℕ
mqtt_after_failure n mqtt = if n.mqtt_reconnect_cnt == 0 then failed_word n mqtt else mqtt

failed_word_bounds :
    (n : Notifications) (mqtt : ℕ) → (failed_word n mqtt < 256) × (failed_word n mqtt % 2 ≡ 0)
failed_word_bounds n mqtt = omega (
  arith,
  unless-le n.mqtt_sync_error_recv_buffer_too_small mqtt 8,
  unless-le n.mqtt_sync_error_send_buffer_is_full mqtt 4,
)

-- Before it counts, a failure writes the code if it is the first.
abbrev pub write_failure : Platform → ℕ → Notifications → ℤ × Notifications
write_failure p code n =
    if n.mqtt_reconnect_cnt == 0 then set_elog p elog_evp_mqtt_status code n else (pos 0, n)

write_failure-Holds :
    (p : Platform) (n : Notifications) (blob mqtt : ℕ)
    → Holds n.elog blob mqtt
    → let n' = (write_failure p (failed_word n mqtt) n).1 in
      Holds n'.elog blob (mqtt_after_failure n mqtt) × (n' ≡ record n { elog = n'.elog })
write_failure-Holds p n blob mqtt h =
    let small = failed_word_bounds n mqtt in
    let wrote = set_mqtt p n blob mqtt h (failed_word n mqtt) small.0 small.1 in
    elim (Bool-cases (n.mqtt_reconnect_cnt == 0)) [
      | inl first ↦ rw first (wrote, refl)
      | inr later ↦ rw later (h, refl)
    ]

counted :
    (m w : Notifications) (e : Elog) (blob mqtt : ℕ)
    → m.mqtt_reconnect_cnt < 16
    → w ≡ record m { elog = e }
    → Holds e blob mqtt
    → Holds (count_failure w).elog blob mqtt
      × (count_failure w ≡ record m {
        elog = (count_failure w).elog;
        mqtt_reconnect_cnt = min (m.mqtt_reconnect_cnt + 1) 15;
      })
counted m w e blob mqtt hc same h =
    rw (same, count_failure_lem (record m { elog = e }) hc) (h, refl)

-- With registered codes and a counter below 16, a failure notes the clock and the reason in the
-- flags, rewrites the second code only if it is the first failure since a connection (count and
-- noted error bits cleared), counts up to 15 and leaves the first code.
pub elog_handler_mqtt_sync_fail_lem :
    (p : Platform) (event : Option CString) (n : Notifications) (blob mqtt : ℕ)
    → n.mqtt_reconnect_cnt < 16
    → Holds n.elog blob mqtt
    → let n' = (elog_handler_mqtt_sync_fail p event n).1 in
      Holds n'.elog blob (mqtt_after_failure (noted p event n) mqtt)
      × (n' ≡ record (noted p event n) {
        elog = n'.elog;
        mqtt_reconnect_cnt = min (n.mqtt_reconnect_cnt + 1) 15;
      })
unfolding elog_handler_mqtt_sync_fail
elog_handler_mqtt_sync_fail_lem p event n blob mqtt hc h =
    let m = noted p event n in
    let code = failed_mqtt_code_lem m mqtt h.mqtt_below in
    let wrote = write_failure-Holds p m blob mqtt h in
    let w = (write_failure p (failed_word m mqtt) m).1 in
    rw
      (
        get_mqtt p n blob mqtt h,
        mqtt_real p n blob mqtt h,
        note_event_lem p event n,
        code,
        lowest_clear mqtt h.mqtt_even,
      )
      (counted m w w.elog blob (mqtt_after_failure m mqtt) hc wrote.1 wrote.0)

-- The first code with its SSL flag set, if the reason says so.
abbrev pub ssl_after : Bool → ℕ → ℕ
ssl_after flag blob = if flag then blob + 1 - bit_at blob 1 else blob

ssl_after_lem :
    (flag : Bool) (blob : ℕ)
    → blob < 240
    → ((if flag then u8 (bit_or blob 0x01) else blob) ≡ ssl_after flag blob)
      × (ssl_after flag blob < 240)
ssl_after_lem flag blob h = ground (arith, set_1 blob (omega arith))

-- With registered codes, a network error with a reason is handled without a fault and returns 0; it
-- sets the lowest bit of the first code exactly if the reason begins with ssl_timeout, and changes
-- no other component's code and nothing else of the state.
pub elog_handler_network_error_lem :
    (p : Platform) (reason : CString) (n : Notifications) (blob mqtt : ℕ)
    → Holds n.elog blob mqtt
    → (n' : Notifications) × (elog_handler_network_error p (some reason) n ≡ some (pos 0, n'))
      × Holds n'.elog (ssl_after (begins_with reason (codes "ssl_timeout")) blob) mqtt
      × (n' ≡ record n { elog = n'.elog })
      × ((c : ℕ) → c ≢ elog_evp_blob_network_status → code_of c n'.elog ≡ code_of c n.elog)
unfolding elog_handler_network_error
elog_handler_network_error_lem p reason n blob mqtt h =
    let flag = begins_with reason (codes "ssl_timeout") in
    let code = ssl_after_lem flag blob h.blob_below in
    (
      (set_elog p elog_evp_blob_network_status (ssl_after flag blob) n).1,
      rw (get_blob p n blob mqtt h, blob_real p n blob mqtt h, code.0),
      set_blob p n blob mqtt h (ssl_after flag blob) code.1,
      refl,
      (set_elog-Updates p elog_evp_blob_network_status (ssl_after flag blob) n h.valid
          (omega (arith, code.1)) h.blob_registered).others,
    )
