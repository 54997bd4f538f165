-- ===== src/Notifications.antt =====
-- The static state of src/evp-agent/src/notifications.c (lines 26 to 46) together with the table of
-- log.c that its handlers read and write, and what they take from outside.
pub mod Ready
pub mod Blob
pub mod Mqtt
pub mod Register
pub mod Events
pub mod Log
mod Tests
use aitrios_edge_device_core.Base.{ℕ, Bool, true, false, Option, List, ℤ}
use aitrios_edge_device_core.Elog.{Elog, system_get_elog, system_set_elog}

-- `g_mqtt_reconnect_cnt` and the flags beside it, without their `g_`; `g_tcp_timer_error_timeout`
-- is not set in the program but by the agent library. `clock_reads` counts the calls of
-- `clock_gettime`.
pub record Notifications : Type 0 where
  pub elog : Elog
  pub mqtt_reconnect_cnt : ℕ  -- uint8_t
  pub mqtt_sync_error_recv_buffer_too_small : Bool
  pub mqtt_sync_error_send_buffer_is_full : Bool
  pub mqtt_sync_error_invalid_time : Bool
  pub tcp_timer_error_timeout : Bool
  pub clock_reads : ℕ

-- What is not part of the program: whether the event log accepts an event, by all the events up to
-- it, and the `tm_year` of the n-th reading of the clock, if that reading succeeds.
pub record Platform : Type 0 where
  pub write_elog : List ℕ → Bool
  pub clock : ℕ → Option ℤ

abbrev pub elog_evp_blob_network_status : ℕ
elog_evp_blob_network_status = 0xf0

abbrev pub elog_evp_mqtt_status : ℕ
elog_evp_mqtt_status = 0xf1

abbrev pub elog_evp_wasm_status : ℕ
elog_evp_wasm_status = 0xf2

-- `SystemGetELog` and `SystemSetELog`, as the handlers call them.
abbrev pub get_elog : ℕ → Notifications → ℕ
get_elog component n = system_get_elog component n.elog

abbrev pub set_elog : Platform → ℕ → ℕ → Notifications → ℤ × Notifications
set_elog p component code n =
    let (ret, elog') = system_set_elog p.write_elog component code n.elog in
    (ret, record n { elog = elog' })
