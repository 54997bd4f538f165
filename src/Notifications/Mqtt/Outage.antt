-- ===== src/Notifications/Mqtt/Outage.antt =====
-- A whole outage: failures of the connection, one after the other, and then a recovery.
use mathlib.Core.Path.{subst₂}
use mathlib.Core.Option.{bind, some-injective}
use aitrios_edge_device_core.Base.{
  ℕ, ◌+◌, ◌<◌, min, ◌≡◌, refl, ap, ◌∙◌, true, false, some, List, [], ◌∷◌, ◌++◌, arith, length, pos,
  bit_at, CString, codes, Option-cases, inl, inr,
}
use aitrios_edge_device_core.Elog.{Elog}
use aitrios_edge_device_core.Notifications.{Notifications, Platform}
use aitrios_edge_device_core.Notifications.Ready.{Holds}
use aitrios_edge_device_core.Notifications.Mqtt.{
  begins_with, elog_handler_mqtt_sync_success, elog_handler_mqtt_sync_result,
}
use aitrios_edge_device_core.Notifications.Mqtt.Words.{mqtt_word, or_bit, bit}
use aitrios_edge_device_core.Notifications.Mqtt.Codes.{
  recovered_word, recovered_blob, elog_handler_mqtt_sync_success_lem,
}
use aitrios_edge_device_core.Notifications.Mqtt.Failures.{
  sync_all, AllFail, some_names, some_invalid, after_failures, SameBits, failures_lem,
}

sync_all-append :
    (p : Platform) (xs ys : List CString) (n : Notifications) {n' : Notifications}
    → sync_all p xs n ≡ some n'
    → sync_all p (xs ++ ys) n ≡ sync_all p ys n'
unfolding sync_all bind
sync_all-append p [] ys n {n' = m} h = ap (sync_all p ys) (some-injective n m h)
sync_all-append p (x ∷ xs) ys n h =
    elim (Option-cases (elog_handler_mqtt_sync_result p (some x) n)) [
      | inl fault ↦ absurd (ground arith)
      | inr (r, e) ↦ rw (e, bind) (sync_all-append p xs ys r.1 (rw (e, bind) at h))
    ]

pub sync_result_recovers :
    (p : Platform) (reason : CString) (n : Notifications)
    → begins_with reason (codes "MQTT_OK") ≡ true
    → elog_handler_mqtt_sync_result p (some reason) n
      ≡ some (pos 0, (elog_handler_mqtt_sync_success p n).1)
unfolding elog_handler_mqtt_sync_result
sync_result_recovers p reason n h = rw h

recovered_word-SameBits :
    (n : Notifications) (a b : ℕ) → SameBits n a b → recovered_word n a ≡ recovered_word n b
recovered_word-SameBits n a b h = rw (h.recv, h.send)

-- The state before an outage: the counter and the flags are as a recovery leaves them.
pub record IsCalm (n : Notifications) : Type 0 where
  pub no_failure : n.mqtt_reconnect_cnt ≡ 0
  pub no_recv : n.mqtt_sync_error_recv_buffer_too_small ≡ false
  pub no_send : n.mqtt_sync_error_send_buffer_is_full ≡ false
  pub no_invalid_time : n.mqtt_sync_error_invalid_time ≡ false

-- The second code after an outage with these reasons.
abbrev pub outage_word : Platform → List CString → Notifications → ℕ → ℕ
outage_word p reasons n mqtt =
    mqtt_word (min (length reasons) 15)
      (or_bit (some_names reasons (codes "MQTT_ERROR_RECV_BUFFER_TOO_SMALL")) (bit_at mqtt 8))
      (or_bit (some_names reasons (codes "MQTT_ERROR_SEND_BUFFER_IS_FULL")) (bit_at mqtt 4))
      (bit (some_invalid p.clock n.clock_reads reasons)) 0

after_failures-IsCalm :
    (p : Platform) (reasons : List CString) (n : Notifications) (mqtt : ℕ) (e : Elog)
    → IsCalm n
    → recovered_word (record (after_failures p reasons n) { elog = e }) mqtt
      ≡ outage_word p reasons n mqtt
after_failures-IsCalm p reasons n mqtt e c =
    let count : 0 + length reasons ≡ length reasons = omega arith in
    rw (c.no_failure, c.no_recv, c.no_send, c.no_invalid_time, count)

-- From a calm state with registered codes, any sequence of failures and then a connection leaves a
-- second status code with their number (15 at most), each buffer bit set if its error was among the
-- reasons or it was set before, the time bit exactly if a reading of the clock was invalid, and a
-- calm state; the first code takes the TCP close flag.
pub sync_all_outage :
    (p : Platform) (reasons : List CString) (connected : CString) (n : Notifications)
    (blob mqtt : ℕ)
    → AllFail reasons
    → begins_with connected (codes "MQTT_OK") ≡ true
    → IsCalm n
    → Holds n.elog blob mqtt
    → (n' : Notifications) × (sync_all p (reasons ++ connected ∷ []) n ≡ some n')
      × Holds n'.elog (recovered_blob n blob) (outage_word p reasons n mqtt)
      × IsCalm n'
unfolding sync_all bind
sync_all_outage p reasons connected n blob mqtt f ok c h =
    let agree : SameBits n mqtt mqtt = (record { recv = refl; send = refl }) in
    let failed = failures_lem p blob reasons n mqtt mqtt f (omega (arith, c.no_failure)) h agree in
    let m = failed.0 in
    let count : m.mqtt_reconnect_cnt < 16 =
      omega (arith, ap (λ (x : Notifications). x.mqtt_reconnect_cnt) failed.5) in
    let done = elog_handler_mqtt_sync_success_lem p m blob failed.1 count failed.3 in
    let n' = (elog_handler_mqtt_sync_success p m).1 in
    let same_blob = ap (λ (x : Notifications). recovered_blob x blob) failed.5 in
    let same_word =
      recovered_word-SameBits m failed.1 mqtt failed.4
      ∙ (ap (λ (x : Notifications). recovered_word x mqtt) failed.5
          ∙ after_failures-IsCalm p reasons n mqtt m.elog c) in
    (
      n',
      sync_all-append p reasons (connected ∷ []) n failed.2
          ∙ rw (sync_result_recovers p connected m ok, bind),
      subst₂ (Holds n'.elog) same_blob same_word done.1,
      record {
        no_failure = ap (λ (x : Notifications). x.mqtt_reconnect_cnt) done.2;
        no_recv = ap (λ (x : Notifications). x.mqtt_sync_error_recv_buffer_too_small) done.2;
        no_send = ap (λ (x : Notifications). x.mqtt_sync_error_send_buffer_is_full) done.2;
        no_invalid_time = ap (λ (x : Notifications). x.mqtt_sync_error_invalid_time) done.2;
      },
    )
