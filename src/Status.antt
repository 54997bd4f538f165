-- ===== src/Status.antt =====
-- The handler of the topic "agent/status", which shows the connection on the service LED:
-- src/evp-agent/src/notifications.c, lines 461 to 643, with `evp_agent_esf_is_tls_enabled` of
-- src/evp-agent/src/esf.c. What the system manager, the configuration and the LED manager return is
-- a parameter; the state is the settings that the LED manager was sent.
pub mod Shown
pub mod Heap
mod Tests
use aitrios_edge_device_core.Base.{
  ℕ, Bool, true, false, not, ◌&&◌, Option, none, some, List, [], ◌∷◌, ◌++◌, ◌==◌, if◌then◌else◌, ℤ,
  pos, negsuc, get_or, set, CString, codes, strcmp_eq,
}

-- `EsfLedManagerLedStatus`, as far as the program names it.
pub data LedStatus : Type 0 where
  connected_with_tls connected_without_tls disconnected_connecting_with_tls
        disconnected_connecting_without_tls :
      LedStatus

-- `EsfLedManagerLedStatusInfo`; its `led` is always the service LED.
pub record LedStatusInfo : Type 0 where
  pub status : LedStatus
  pub enabled : Bool

-- What the handler reads: the value of the TLS setting with the value that stands for disabled, the
-- host of the configuration, and whether an allocation succeeds with what is then read into it.
-- `set_status` is whether the LED manager takes a setting, by those that it was sent before.
pub record Settings : Type 0 where
  pub evp_tls : Option ℕ
  pub evp_tls_disable : ℕ
  pub mqtt_host : Option CString
  pub project_id_room : Bool
  pub project_id : Option (List ℕ)
  pub register_token_room : Bool
  pub register_token : Option (List ℕ)
  pub set_status : List LedStatusInfo → LedStatusInfo → Bool

abbrev pub provisioning_service_url : CString
provisioning_service_url = codes "provision.aitrios.sony-semicon.com"

module _ (e : Settings) where
  -- `evp_agent_esf_is_tls_enabled`; `none` is an error of the system manager.
  unfoldable pub is_tls_enabled : Bool
  is_tls_enabled = elim e.evp_tls [
    | none ↦ true
    | some tls ↦ if tls == e.evp_tls_disable then false else true
  ]

  pub check_provisioning_service_mqtt_host : Bool
  check_provisioning_service_mqtt_host = elim e.mqtt_host [
    | none ↦ false
    | some host ↦ if strcmp_eq host provisioning_service_url then true else false
  ]

  -- Whether the buffer begins with its terminator.
  abbrev pub is_empty : List ℕ → Bool
  is_empty buffer = get_or buffer 0 0 == 0

  -- An allocation and the getter that fills it.
  abbrev pub read_into : Bool → Option (List ℕ) → Option (List ℕ)
  read_into room value = if room then value else none

  pub check_project_id_and_register_token_valid : Bool
  check_project_id_and_register_token_valid = elim (read_into e.project_id_room e.project_id) [
    | none ↦ false
    | some project_id ↦ elim (read_into e.register_token_room e.register_token) [
      | none ↦ false
      | some register_token ↦ not (is_empty project_id) && not (is_empty register_token)
    ]
  ]

  unfoldable pub is_enrollment_mode : Bool
  unfolding check_provisioning_service_mqtt_host check_project_id_and_register_token_valid
  is_enrollment_mode =
      if check_provisioning_service_mqtt_host
      then true
      else if check_project_id_and_register_token_valid
      then true
      else false

  -- `led_status` after the first loop.
  abbrev pub led_status : List LedStatusInfo
  led_status =
      record { status = connected_with_tls; enabled = false }
      ∷ record { status = connected_without_tls; enabled = false }
      ∷ record { status = disconnected_connecting_with_tls; enabled = false }
      ∷ record { status = disconnected_connecting_without_tls; enabled = false }
      ∷ []

  abbrev pub enable : ℕ → LedStatus → List LedStatusInfo → List LedStatusInfo
  enable index status infos = set infos index (record { status = status; enabled = true })

  -- The last loop: it ends at the first setting that is not taken.
  pub set_all : List LedStatusInfo → List LedStatusInfo → ℤ × List LedStatusInfo
  set_all [] sent = (pos 0, sent)
  set_all (info ∷ infos) sent =
      let rest = set_all infos (sent ++ info ∷ []) in
      if e.set_status sent info then rest else (negsuc 0, sent ++ info ∷ [])

  -- The settings when the agent is connected, or is not.
  pub connected_settings : List LedStatusInfo
  unfolding is_tls_enabled
  connected_settings =
      if is_tls_enabled
      then enable 0 connected_with_tls led_status
      else enable 1 connected_without_tls led_status

  pub disconnected_settings : List LedStatusInfo
  unfolding is_tls_enabled
  disconnected_settings =
      if is_tls_enabled
      then enable 2 disconnected_connecting_with_tls led_status
      else enable 3 disconnected_connecting_without_tls led_status

  -- `agent_status_handler`
  unfoldable pub agent_status_handler : Option CString → List LedStatusInfo → ℤ × List LedStatusInfo
  unfolding set_all is_enrollment_mode connected_settings disconnected_settings
  agent_status_handler none sent = (negsuc 0, sent)
  agent_status_handler (some status) sent =
      if strcmp_eq status (codes "connected")
      then if is_enrollment_mode then (pos 0, sent) else set_all connected_settings sent
      else if strcmp_eq status (codes "disconnected")
      then set_all disconnected_settings sent
      else (negsuc 0, sent)
