-- ===== src/Notifications/Mqtt/Failures.antt =====
-- Failures of the connection, one after the other: what the flags and the second code come to.
use mathlib.Core.Option
use mathlib.Core.Option.{bind, some-injective}
use aitrios_edge_device_core.Base.{
  ℕ, suc, ◌+◌, ◌<◌, min, ◌≡◌, refl, ap, ◌∙◌, Bool, true, false, ◌||◌, Option, some, List, [], ◌∷◌,
  arith, length, ◌==◌, ℤ, pos, bit_at, CString, codes, Bool-cases, inl, inr,
}
use aitrios_edge_device_core.Elog.{Elog}
use aitrios_edge_device_core.Notifications.{Notifications, Platform}
use aitrios_edge_device_core.Notifications.Ready.{Holds}
use aitrios_edge_device_core.Notifications.Mqtt.{
  is_invalid_time, begins_with, elog_handler_mqtt_sync_fail, elog_handler_mqtt_sync_result,
}
use aitrios_edge_device_core.Notifications.Mqtt.Words.{or_bit, unless, unless-le}
use aitrios_edge_device_core.Notifications.Mqtt.Codes.{
  noted, mqtt_after_failure, failed_word, elog_handler_mqtt_sync_fail_lem,
}

-- The reasons of "mqtt/sync/err", in order. What a handler returns is not used.
unfoldable pub sync_all : Platform → List CString → Notifications → Option Notifications
sync_all p [] n = some n
sync_all p (reason ∷ reasons) n =
    Option.bind (elog_handler_mqtt_sync_result p (some reason) n) (λ r. sync_all p reasons r.1)

-- None of the reasons reports a connection.
abbrev pub AllFail : List CString → Type 0
AllFail [] = Unit
AllFail (reason ∷ reasons) = (begins_with reason (codes "MQTT_OK") ≡ false) × AllFail reasons

-- Some reason begins with `check`; some reading of the clock from the n-th on is invalid.
abbrev pub some_names : List CString → CString → Bool
some_names [] check = false
some_names (reason ∷ reasons) check = begins_with reason check || some_names reasons check

abbrev pub some_invalid : (ℕ → Option ℤ) → ℕ → List CString → Bool
some_invalid clock n [] = false
some_invalid clock n (reason ∷ reasons) =
    is_invalid_time (clock n) || some_invalid clock (n + 1) reasons

-- The flags and the count after the failures.
abbrev pub after_failures : Platform → List CString → Notifications → Notifications
after_failures p reasons n = record n {
  mqtt_reconnect_cnt = min (n.mqtt_reconnect_cnt + length reasons) 15;
  mqtt_sync_error_recv_buffer_too_small =
      n.mqtt_sync_error_recv_buffer_too_small
      || some_names reasons (codes "MQTT_ERROR_RECV_BUFFER_TOO_SMALL");
  mqtt_sync_error_send_buffer_is_full =
      n.mqtt_sync_error_send_buffer_is_full
      || some_names reasons (codes "MQTT_ERROR_SEND_BUFFER_IS_FULL");
  mqtt_sync_error_invalid_time =
      n.mqtt_sync_error_invalid_time || some_invalid p.clock n.clock_reads reasons;
  clock_reads = n.clock_reads + length reasons;
}

-- A failure leaves the bits of the flags as they were, or clears those that are set now.
-- The bits of the buffers in two codes agree wherever the flags leave a doubt: what a recovery
-- writes is the same for both.
pub record SameBits (n : Notifications) (a b : ℕ) : Type 0 where
  pub recv :
      or_bit n.mqtt_sync_error_recv_buffer_too_small (bit_at a 8)
      ≡ or_bit n.mqtt_sync_error_recv_buffer_too_small (bit_at b 8)
  pub send :
      or_bit n.mqtt_sync_error_send_buffer_is_full (bit_at a 4)
      ≡ or_bit n.mqtt_sync_error_send_buffer_is_full (bit_at b 4)

failed_bits :
    (n : Notifications) (mqtt : ℕ)
    → (bit_at (failed_word n mqtt) 8
        ≡ unless n.mqtt_sync_error_recv_buffer_too_small (bit_at mqtt 8))
      × (bit_at (failed_word n mqtt) 4
          ≡ unless n.mqtt_sync_error_send_buffer_is_full (bit_at mqtt 4))
failed_bits n mqtt = omega (
  arith,
  unless-le n.mqtt_sync_error_recv_buffer_too_small mqtt 8,
  unless-le n.mqtt_sync_error_send_buffer_is_full mqtt 4,
)

or_bit-unless : (flag : Bool) (old : ℕ) → or_bit flag (unless flag old) ≡ or_bit flag old
or_bit-unless true old = refl
or_bit-unless false old = refl

or_bit-|| :
    (flag more : Bool) (a b : ℕ)
    → or_bit flag a ≡ or_bit flag b
    → or_bit (flag || more) a ≡ or_bit (flag || more) b
or_bit-|| true more a b h = refl
or_bit-|| false true a b h = refl
or_bit-|| false false a b h = h

SameBits-failure : (n : Notifications) (mqtt : ℕ) → SameBits n (mqtt_after_failure n mqtt) mqtt
SameBits-failure n mqtt = elim (Bool-cases (n.mqtt_reconnect_cnt == 0)) [
  | inl first ↦ rw first (record {
    recv =
        rw (failed_bits n mqtt).0
          (or_bit-unless n.mqtt_sync_error_recv_buffer_too_small (bit_at mqtt 8));
    send =
        rw (failed_bits n mqtt).1
          (or_bit-unless n.mqtt_sync_error_send_buffer_is_full (bit_at mqtt 4));
  })
  | inr later ↦ rw later (record { recv = refl; send = refl })
]

-- A failure keeps the agreement, since it only adds to the flags.
SameBits-noted :
    (p : Platform) (reason : CString) (n : Notifications) (a b : ℕ)
    → SameBits n a b
    → SameBits (noted p (some reason) n) (mqtt_after_failure (noted p (some reason) n) a) b
SameBits-noted p reason n a b h =
    let m = noted p (some reason) n in
    let now = SameBits-failure m a in
    record {
      recv = now.recv ∙ or_bit-|| _ _ (bit_at a 8) (bit_at b 8) h.recv;
      send = now.send ∙ or_bit-|| _ _ (bit_at a 4) (bit_at b 4) h.send;
    }

||-assoc : (a b c : Bool) → (a || b) || c ≡ a || (b || c)
||-assoc true b c = refl
||-assoc false b c = refl

-- One more failure in front.
after_failures-cons :
    (p : Platform) (reason : CString) (reasons : List CString) (n : Notifications) (e e' : Elog)
    → record (after_failures p reasons (record (noted p (some reason) n) {
      elog = e;
      mqtt_reconnect_cnt = min (n.mqtt_reconnect_cnt + 1) 15;
    })) { elog = e' }
      ≡ record (after_failures p (reason ∷ reasons) n) { elog = e' }
after_failures-cons p reason reasons n e e' =
    let count : min (min (n.mqtt_reconnect_cnt + 1) 15 + length reasons) 15
        ≡ min (n.mqtt_reconnect_cnt + suc (length reasons)) 15 =
      omega arith in
    let reads : n.clock_reads + 1 + length reasons ≡ n.clock_reads + suc (length reasons) =
      omega arith in
    rw (
      count,
      reads,
      ||-assoc n.mqtt_sync_error_recv_buffer_too_small,
      ||-assoc n.mqtt_sync_error_send_buffer_is_full,
      ||-assoc n.mqtt_sync_error_invalid_time,
    )

after_failures-nil :
    (p : Platform) (n : Notifications)
    → n.mqtt_reconnect_cnt < 16
    → n ≡ record (after_failures p [] n) { elog = n.elog }
after_failures-nil p n h = ground arith

pub sync_result_fails :
    (p : Platform) (reason : CString) (n : Notifications)
    → begins_with reason (codes "MQTT_OK") ≡ false
    → elog_handler_mqtt_sync_result p (some reason) n
      ≡ some (pos 0, (elog_handler_mqtt_sync_fail p (some reason) n).1)
unfolding elog_handler_mqtt_sync_result
sync_result_fails p reason n h = rw h

module _ (p : Platform) (blob : ℕ) where
  -- After failures only, starting anywhere.
  pub failures_lem :
      (reasons : List CString) (n : Notifications) (mqtt first : ℕ)
      → AllFail reasons
      → n.mqtt_reconnect_cnt < 16
      → Holds n.elog blob mqtt
      → SameBits n mqtt first
      → (n' : Notifications) × (mqtt' : ℕ) × (sync_all p reasons n ≡ some n')
        × Holds n'.elog blob mqtt'
        × SameBits n' mqtt' first
        × (n' ≡ record (after_failures p reasons n) { elog = n'.elog })
  unfolding sync_all bind
  failures_lem [] n mqtt first f hc h same = (n, mqtt, refl, h, same, after_failures-nil p n hc)
  failures_lem (reason ∷ reasons) n mqtt first f hc h same =
      let step = elog_handler_mqtt_sync_fail_lem p (some reason) n blob mqtt hc h in
      let n1 = (elog_handler_mqtt_sync_fail p (some reason) n).1 in
      let same1 = SameBits-noted p reason n mqtt first same in
      let count1 : n1.mqtt_reconnect_cnt < 16 =
        omega (arith, ap (λ (x : Notifications). x.mqtt_reconnect_cnt) step.1) in
      let recv1 = ap (λ (x : Notifications). x.mqtt_sync_error_recv_buffer_too_small) step.1 in
      let send1 = ap (λ (x : Notifications). x.mqtt_sync_error_send_buffer_is_full) step.1 in
      let agree1 : SameBits n1 (mqtt_after_failure (noted p (some reason) n) mqtt) first = (record {
        recv = rw recv1 same1.recv;
        send = rw send1 same1.send;
      }) in
      let rest =
        failures_lem reasons n1 (mqtt_after_failure (noted p (some reason) n) mqtt) first f.1 count1
          step.0 agree1 in
      (
        rest.0,
        rest.1,
        rw (sync_result_fails p reason n f.0, bind) rest.2,
        rest.3,
        rest.4,
        rest.5
            ∙ (ap
                  (λ (x : Notifications). record (after_failures p reasons x) {
                    elog = rest.0.elog;
                  })
                  step.1
                ∙ after_failures-cons p reason reasons n n1.elog rest.0.elog),
      )
