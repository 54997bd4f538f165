-- ===== src/Notifications/Ready.antt =====
-- What a call of `SystemSetELog` or `SystemGetELog` by a handler does, in terms of the codes alone.
use aitrios_edge_device_core.Base.{ℕ, ◌<◌, ◌%◌, ◌∙◌, ◌≡◌, ◌≢◌, refl, false, none, some, arith, ◌==◌}
use aitrios_edge_device_core.Elog.{Elog, elog_err, system_get_elog}
use aitrios_edge_device_core.Elog.Invariant.{IsValid, system_set_elog-IsValid}
use aitrios_edge_device_core.Elog.Codes.{code_of, system_get_elog_lem, system_set_elog-code_of}
use aitrios_edge_device_core.Notifications.{
  Notifications, Platform, set_elog, get_elog, elog_evp_blob_network_status, elog_evp_mqtt_status,
}

-- The component's code is now `code`, and nothing else differs but the table's own record of it.
pub record Updates (component code : ℕ) (n n' : Notifications) : Type 0 where
  pub valid : IsValid n'.elog
  pub changed : code_of component n'.elog ≡ some code
  pub others : (c : ℕ) → c ≢ component → code_of c n'.elog ≡ code_of c n.elog
  pub rest : n' ≡ record n { elog = n'.elog }

-- A component that is registered reads as its code, and one that is not as `ELOG_ERR`.
pub get_registered :
    (component : ℕ) (e : Elog) {code : ℕ}
    → IsValid e
    → code_of component e ≡ some code
    → system_get_elog component e ≡ code
get_registered component e h r = ground (arith, system_get_elog_lem component e h)

pub get_unregistered :
    (component : ℕ) (e : Elog)
    → IsValid e
    → code_of component e ≡ none
    → system_get_elog component e ≡ elog_err
get_unregistered component e h r = ground (arith, system_get_elog_lem component e h)

module _ (p : Platform) (component code : ℕ) (n : Notifications) where
  pub set_elog-Updates :
      {old : ℕ}
      → IsValid n.elog
      → code < 256
      → code_of component n.elog ≡ some old
      → Updates component code n (set_elog p component code n).1
  set_elog-Updates h k r = record {
    valid = system_set_elog-IsValid p.write_elog component code n.elog k h;
    changed =
        ground (arith, system_set_elog-code_of p.write_elog component code component n.elog h);
    others = λ c ne. ground (arith, system_set_elog-code_of p.write_elog component code c n.elog h);
    rest = refl;
  }

-- The table holds the codes `blob` and `mqtt` of the two components that the handlers write, and
-- neither can be taken for `ELOG_ERR`: the first kind of outcome has twelve details at most, and
-- the lowest bit of the second code is never set.
pub record Holds (e : Elog) (blob mqtt : ℕ) : Type 0 where
  pub valid : IsValid e
  pub blob_registered : code_of elog_evp_blob_network_status e ≡ some blob
  pub blob_below : blob < 240
  pub mqtt_registered : code_of elog_evp_mqtt_status e ≡ some mqtt
  pub mqtt_below : mqtt < 256
  pub mqtt_even : mqtt % 2 ≡ 0

module _ (p : Platform) (n : Notifications) (blob mqtt : ℕ) (h : Holds n.elog blob mqtt) where
  pub get_blob : get_elog elog_evp_blob_network_status n ≡ blob
  get_blob = get_registered elog_evp_blob_network_status n.elog h.valid h.blob_registered

  pub get_mqtt : get_elog elog_evp_mqtt_status n ≡ mqtt
  get_mqtt = get_registered elog_evp_mqtt_status n.elog h.valid h.mqtt_registered

  pub blob_real : (blob == elog_err) ≡ false
  blob_real = let below = h.blob_below in ground arith

  pub mqtt_real : (mqtt == elog_err) ≡ false
  mqtt_real = let even = h.mqtt_even in let below = h.mqtt_below in ground arith

  pub Updates-Holds_blob :
      (code : ℕ) (n' : Notifications)
      → code < 240
      → Updates elog_evp_blob_network_status code n n'
      → Holds n'.elog code mqtt
  Updates-Holds_blob code n' k u = record {
    valid = u.valid;
    blob_registered = u.changed;
    blob_below = k;
    mqtt_registered = u.others elog_evp_mqtt_status (omega arith) ∙ h.mqtt_registered;
    mqtt_below = h.mqtt_below;
    mqtt_even = h.mqtt_even;
  }

  pub set_blob :
      (code : ℕ)
      → code < 240
      → Holds (set_elog p elog_evp_blob_network_status code n).1.elog code mqtt
  set_blob code k = Updates-Holds_blob code (set_elog p elog_evp_blob_network_status code n).1 k (
      set_elog-Updates p elog_evp_blob_network_status code n h.valid (omega arith)
        h.blob_registered)

  pub set_mqtt :
      (code : ℕ)
      → code < 256
      → code % 2 ≡ 0
      → Holds (set_elog p elog_evp_mqtt_status code n).1.elog blob code
  set_mqtt code k even =
      let u = set_elog-Updates p elog_evp_mqtt_status code n h.valid k h.mqtt_registered in
      record {
        valid = u.valid;
        blob_registered = u.others elog_evp_blob_network_status (omega arith) ∙ h.blob_registered;
        blob_below = h.blob_below;
        mqtt_registered = u.changed;
        mqtt_below = k;
        mqtt_even = even;
      }
