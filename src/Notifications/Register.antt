-- ===== src/Notifications/Register.antt =====
-- Registration of the codes and the handlers: `evp_agent_notifications_register` of notifications.c,
-- lines 645 to 679.
pub mod Order
pub mod Outcome
use aitrios_edge_device_core.Base.{
  ℕ, suc, ◌+◌, Bool, true, false, List, [], ◌∷◌, ◌++◌, if◌then◌else◌, ℤ, pos, is_nonzero, CString,
  codes,
}
use aitrios_edge_device_core.Elog.{Elog, system_reg_elog}
use aitrios_edge_device_core.Notifications.{
  elog_evp_blob_network_status, elog_evp_mqtt_status, elog_evp_wasm_status,
}

-- The functions that the source subscribes.
pub data Handler : Type 0 where
  elog_handler_blob_result elog_handler_mqtt_sync_result : Handler
  elog_handler_network_error agent_status_handler : Handler

abbrev pub Subscription : Type 0
Subscription = CString × Handler

-- The three codes, and their initial values.
unfoldable pub register_codes : Elog → Elog
register_codes e =
    let a = system_reg_elog elog_evp_blob_network_status 0x40 (codes "EVP Block Warning.") e in
    let b = system_reg_elog elog_evp_mqtt_status 0x0 (codes "EVP Block Warning 2.") a in
    system_reg_elog elog_evp_wasm_status 0x0 (codes "EVP Block Warning 3.") b

-- The subscriptions in the order of the source.
abbrev pub subscriptions : List Subscription
subscriptions =
    (codes "blob/result", elog_handler_blob_result)
    ∷ (codes "mqtt/sync/err", elog_handler_mqtt_sync_result)
    ∷ (codes "network/error", elog_handler_network_error)
    ∷ (codes "agent/status", agent_status_handler)
    ∷ []

-- `evp_agent_notification_subscribe` is a function of the agent library: `subscribe` gives its
-- result for the k-th call. A call that returns 0 has subscribed the handler.
module _ (subscribe : ℕ → ℤ) where
  -- The calls from the k-th on, up to the first error; what was subscribed before is `active`.
  unfoldable pub subscribe_each : ℕ → List Subscription → List Subscription → ℤ × List Subscription
  subscribe_each k [] active = (pos 0, active)
  subscribe_each k (s ∷ rest) active =
      let ret = subscribe k in
      let more = subscribe_each (k + 1) rest (active ++ s ∷ []) in
      if is_nonzero ret then (ret, active) else more

  -- What it returns, the table of codes, and the subscriptions that are active.
  unfoldable pub evp_agent_notifications_register : Elog → ℤ × Elog × List Subscription
  unfolding register_codes subscribe_each
  evp_agent_notifications_register e =
      let e' = register_codes e in
      let (ret, active) = subscribe_each 0 subscriptions [] in (ret, e', active)
