-- ===== src/Status/Heap.antt =====
-- The handler of "agent/status" with the heap: src/evp-agent/src/notifications.c, lines 478 to 643.
-- The host is read through the reader of esf.c, and the buffers of the enrollment check are blocks;
-- of the settings only what the managers return is read.
pub mod Same
use aitrios_edge_device_core.Base.{
  if_intro, ℕ, ◌+◌, ◌-◌, ◌≡◌, refl, ap, ◌∙◌, Bool, true, false, not, ◌&&◌, Option, none, some, List,
  [], ◌∷◌, ◌++◌, arith, if◌then◌else◌, ℤ, pos, negsuc, CString, codes, strcmp_eq, Bool-cases, inl,
  inr,
}
use aitrios_edge_device_core.Esf.{Esf, Source}
use aitrios_edge_device_core.Esf.Proxy.{free, request}
use aitrios_edge_device_core.Esf.Read.{mqtt_host, Config, Store, read_config}
use aitrios_edge_device_core.Esf.Read.Cached.{text}
use aitrios_edge_device_core.Esf.Read.Memory.{Draws, blocks_of, read_config-Gives}
use aitrios_edge_device_core.Status.{
  LedStatusInfo, Settings, provisioning_service_url, is_empty,
  check_project_id_and_register_token_valid, check_provisioning_service_mqtt_host,
  is_enrollment_mode, is_tls_enabled, set_all, connected_settings, disconnected_settings,
  agent_status_handler,
}

-- `cfg->free` of the value and of the configuration.
abbrev pub free_config : Option Config → Esf → Esf
free_config none c = c
free_config (some cfg) c = free (some cfg) (free (some cfg.value) c)

abbrev pub text_of : Option Config → Option CString
text_of none = none
text_of (some cfg) = some (text cfg.value)

abbrev pub matches_host : Option CString → Bool
matches_host none = false
matches_host (some host) = if strcmp_eq host provisioning_service_url then true else false

module _ (w : Settings) (e : Source) (st : Store) where
  -- `check_provisioning_service_mqtt_host`
  abbrev pub check_host : Esf → Bool × Esf
  check_host c =
      let (cfg, c') = read_config e st mqtt_host c in
      (matches_host (text_of cfg), free_config cfg c')

  -- `check_project_id_and_register_token_valid`, once both buffers are there, and once the first.
  abbrev pub compare_ids : List ℕ → Option (List ℕ) → Bool
  compare_ids project_id none = false
  compare_ids project_id (some register_token) =
      not (is_empty w project_id) && not (is_empty w register_token)

  abbrev pub check_token : Option (List ℕ) → Esf → Bool × Esf
  check_token none c = (false, free (some tt) c)
  check_token (some project_id) c =
      let c' = request e c in
      let valid = compare_ids project_id w.register_token in
      if e.room c.requests
      then (valid, free (some tt) (free (some tt) c'))
      else (false, free (some tt) c')

  abbrev pub check_ids : Esf → Bool × Esf
  check_ids c =
      let checked = check_token w.project_id (request e c) in
      if e.room c.requests then checked else (false, request e c)

  -- `is_enrollment_mode`
  abbrev pub enrolled : Esf → Bool × Esf
  enrolled c =
      let (matches, c') = check_host c in
      let valid = check_ids c' in if matches then (true, c') else valid

  -- `agent_status_handler`: its result and the settings sent, and the heap.
  unfoldable pub handle_status :
      Option CString → List LedStatusInfo → Esf → (ℤ × List LedStatusInfo) × Esf
  handle_status none sent c = ((negsuc 0, sent), c)
  handle_status (some status) sent c =
      let (enrollment, c') = enrolled c in
      if strcmp_eq status (codes "connected")
      then (if enrollment then (pos 0, sent) else set_all w (connected_settings w) sent, c')
      else if strcmp_eq status (codes "disconnected")
      then (set_all w (disconnected_settings w) sent, c)
      else ((negsuc 0, sent), c)

  -- Every block is given back, and the cache stays the same.
  free_config-Draws :
      (c c' : Esf) (cfg : Option Config)
      → Draws (blocks_of cfg) c c'
      → Draws 0 c (free_config cfg c')
  free_config-Draws c c' none (live, host, port, user, pass, files) =
      (omega arith, host, port, user, pass, files)
  free_config-Draws c c' (some cfg) (live, host, port, user, pass, files) =
      (omega arith, host, port, user, pass, files)

  check_token-Draws :
      (c c' : Esf) (project_id : Option (List ℕ))
      → Draws 1 c c'
      → Draws 0 c (check_token project_id c').1
  check_token-Draws c c' none (live, host, port, user, pass, files) =
      (omega arith, host, port, user, pass, files)
  check_token-Draws c c' (some project_id) (live, host, port, user, pass, files) =
      if_intro (λ (r : Bool × Esf). Draws 0 c r.1) (e.room c'.requests) _ _
        (λ room. (rw room (omega arith), host, port, user, pass, files))
        (λ full. (rw full (omega arith), host, port, user, pass, files))

  check_ids-Draws : (c c' : Esf) → Draws 0 c c' → Draws 0 c (check_ids c').1
  check_ids-Draws c c' (live, host, port, user, pass, files) =
      if_intro (λ (r : Bool × Esf). Draws 0 c r.1) (e.room c'.requests) _ _
        (λ room.
          check_token-Draws c (request e c') w.project_id
            (rw room (omega arith), host, port, user, pass, files))
        (λ full. (rw full (omega arith), host, port, user, pass, files))

  enrolled-Draws : (c : Esf) → Draws 0 c (enrolled c).1
  enrolled-Draws c =
      let r = read_config e st mqtt_host c in
      let read = free_config-Draws c r.1 r.0 (read_config-Gives e st mqtt_host c tt) in
      if_intro (λ (r : Bool × Esf). Draws 0 c r.1) (check_host c).0 _ _ (λ yes. read)
        (λ no. check_ids-Draws c (check_host c).1 read)

  pub handle_status-Draws :
      (status : Option CString) (sent : List LedStatusInfo) (c : Esf)
      → Draws 0 c (handle_status status sent c).1
  unfolding handle_status
  handle_status-Draws none sent c = (omega arith, refl, refl, refl, refl, refl)
  handle_status-Draws (some status) sent c =
      let P = λ (r : (ℤ × List LedStatusInfo) × Esf). Draws 0 c r.1 in
      if_intro P (strcmp_eq status (codes "connected")) _ _ (λ yes. enrolled-Draws c)
        (λ no.
          if_intro P (strcmp_eq status (codes "disconnected")) _ _
            (λ yes. (omega arith, refl, refl, refl, refl, refl))
            (λ no. (omega arith, refl, refl, refl, refl, refl)))
