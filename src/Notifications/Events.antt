-- ===== src/Notifications/Events.antt =====
-- The life of the handlers of notifications.c: the agent library calls them one at a time, in any
-- order, and sets `g_tcp_timer_error_timeout` (line 46) at any moment in between.
use mathlib.Core.Option
use mathlib.Core.Option.{bind, some-injective}
use aitrios_edge_device_core.Base.{
  ℕ, ◌<◌, ap, true, Option, none, some, List, [], ◌∷◌, arith, CString, codes, Bool-cases, inl, inr,
}
use aitrios_edge_device_core.Notifications.{Notifications, Platform}
use aitrios_edge_device_core.Notifications.Ready.{Holds, Updates-Holds_blob}
use aitrios_edge_device_core.Notifications.Blob.{BlobNotification, elog_handler_blob_result}
use aitrios_edge_device_core.Notifications.Blob.Codes.{
  blob_after, blob_after-lt, elog_handler_blob_result-Updates,
}
use aitrios_edge_device_core.Notifications.Mqtt.{
  begins_with, elog_handler_mqtt_sync_result, elog_handler_network_error,
}
use aitrios_edge_device_core.Notifications.Mqtt.Codes.{
  elog_handler_mqtt_sync_success_lem, elog_handler_mqtt_sync_fail_lem,
  elog_handler_network_error_lem, noted, mqtt_after_failure, recovered_blob, recovered_word,
  ssl_after,
}
use aitrios_edge_device_core.Notifications.Mqtt.Failures.{sync_result_fails}
use aitrios_edge_device_core.Notifications.Mqtt.Outage.{sync_result_recovers}

-- What can happen to the handlers; `none` is an event that is NULL.
pub data Event : Type 0 where
  blob_result : Option BlobNotification → Event
  mqtt_sync_err : Option CString → Event
  network_error : Option CString → Event
  tcp_close_timeout : Event

-- The state after one event, or `none` after a read through NULL.
unfoldable pub notify : Platform → Event → Notifications → Option Notifications
notify p (blob_result event) n = some (elog_handler_blob_result p event n).1
notify p (mqtt_sync_err event) n = Option.map (λ r. r.1) (elog_handler_mqtt_sync_result p event n)
notify p (network_error event) n = Option.map (λ r. r.1) (elog_handler_network_error p event n)
notify p tcp_close_timeout n = some (record n { tcp_timer_error_timeout = true })

-- The library passes a reason with the two topics that carry one.
abbrev pub HasReason : Event → Type 0
HasReason (blob_result event) = Unit
HasReason (mqtt_sync_err none) = ⊥
HasReason (mqtt_sync_err (some reason)) = Unit
HasReason (network_error none) = ⊥
HasReason (network_error (some reason)) = Unit
HasReason tcp_close_timeout = Unit

-- What holds between two events.
pub record IsReady (n : Notifications) : Type 0 where
  pub blob : ℕ
  pub mqtt : ℕ
  pub holds : Holds n.elog blob mqtt
  pub count : n.mqtt_reconnect_cnt < 16

-- An event is handled without a fault, and the invariant holds after it.
abbrev pub Handled : Option Notifications → Type 0
Handled none = ⊥
Handled (some n') = IsReady n'

blob_result-IsReady :
    (p : Platform) (event : Option BlobNotification) (n : Notifications)
    → IsReady n
    → IsReady (elog_handler_blob_result p event n).1
blob_result-IsReady p none n r = unfold elog_handler_blob_result in r
blob_result-IsReady p (some notif) n r =
    let h = r.holds in
    let u =
      (elog_handler_blob_result-Updates p n h.valid h.blob_registered (omega (arith, h.blob_below))
        notif).1 in
    record {
      blob = blob_after notif r.blob;
      mqtt = r.mqtt;
      holds =
          Updates-Holds_blob p n r.blob r.mqtt h (blob_after notif r.blob)
            (elog_handler_blob_result p (some notif) n).1 (blob_after-lt notif r.blob) u;
      count = omega (arith, r.count, ap (λ (x : Notifications). x.mqtt_reconnect_cnt) u.rest);
    }

mqtt_sync-IsReady :
    (p : Platform) (reason : CString) (n : Notifications)
    → IsReady n
    → Handled (Option.map (λ r. r.1) (elog_handler_mqtt_sync_result p (some reason) n))
mqtt_sync-IsReady p reason n r = elim (Bool-cases (begins_with reason (codes "MQTT_OK"))) [
  | inl ok ↦
      let done = elog_handler_mqtt_sync_success_lem p n r.blob r.mqtt r.count r.holds in
      rw (sync_result_recovers p reason n ok) (record {
        blob = recovered_blob n r.blob;
        mqtt = recovered_word n r.mqtt;
        holds = done.1;
        count = omega (arith, ap (λ (x : Notifications). x.mqtt_reconnect_cnt) done.2);
      })
  | inr failed ↦
      let done = elog_handler_mqtt_sync_fail_lem p (some reason) n r.blob r.mqtt r.count r.holds in
      rw (sync_result_fails p reason n failed) (record {
        blob = r.blob;
        mqtt = mqtt_after_failure (noted p (some reason) n) r.mqtt;
        holds = done.0;
        count = omega (arith, ap (λ (x : Notifications). x.mqtt_reconnect_cnt) done.1);
      })
]

network_error-IsReady :
    (p : Platform) (reason : CString) (n : Notifications)
    → IsReady n
    → Handled (Option.map (λ r. r.1) (elog_handler_network_error p (some reason) n))
network_error-IsReady p reason n r =
    let done = elog_handler_network_error_lem p reason n r.blob r.mqtt r.holds in
    rw done.1 (record {
      blob = ssl_after (begins_with reason (codes "ssl_timeout")) r.blob;
      mqtt = r.mqtt;
      holds = done.2;
      count = omega (arith, r.count, ap (λ (x : Notifications). x.mqtt_reconnect_cnt) done.3);
    })

-- One event with a reason, where it needs one, is handled and keeps the invariant.
pub notify-Handled :
    (p : Platform) (event : Event) (n : Notifications)
    → HasReason event
    → IsReady n
    → Handled (notify p event n)
unfolding notify
notify-Handled p (blob_result event) n h r = blob_result-IsReady p event n r
notify-Handled p (mqtt_sync_err none) n h r = absurd h
notify-Handled p (mqtt_sync_err (some reason)) n h r = mqtt_sync-IsReady p reason n r
notify-Handled p (network_error none) n h r = absurd h
notify-Handled p (network_error (some reason)) n h r = network_error-IsReady p reason n r
notify-Handled p tcp_close_timeout n h r = record {
  blob = r.blob;
  mqtt = r.mqtt;
  holds = r.holds;
  count = r.count;
}

-- A run of events, up to a fault.
unfoldable pub notify_all : Platform → List Event → Notifications → Option Notifications
notify_all p [] n = some n
notify_all p (event ∷ events) n = Option.bind (notify p event n) (λ n'. notify_all p events n')

abbrev pub AllHaveReason : List Event → Type 0
AllHaveReason [] = Unit
AllHaveReason (event ∷ events) = HasReason event × AllHaveReason events

-- Over any run of events that carry a reason where their topic needs one, from a ready state, no
-- handler faults, the failure counter stays below 16, and the two status codes stay registered, the
-- first below 240 and the second even, so neither is ever the byte ELOG_ERR.
pub notify_all-Handled :
    (p : Platform) (events : List Event) (n : Notifications)
    → AllHaveReason events
    → IsReady n
    → Handled (notify_all p events n)
unfolding notify_all bind
notify_all-Handled p [] n h r = r
notify_all-Handled p (event ∷ events) n h r =
    after_one (notify p event n) (notify-Handled p event n h.0 r)
      (λ n' r'. notify_all-Handled p events n' h.1 r')
  where
    after_one :
        (o : Option Notifications)
        → Handled o
        → ((n' : Notifications) → IsReady n' → Handled (notify_all p events n'))
        → Handled (Option.bind o (λ n'. notify_all p events n'))
    after_one none h k = h
    after_one (some n') r' k = k n' r'
