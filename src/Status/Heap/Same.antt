-- ===== src/Status/Heap/Same.antt =====
-- What the handler of "agent/status" does over the heap is what it does with the settings that it
-- finds there.
use aitrios_edge_device_core.Base.{
  ℕ, ◌+◌, ◌≡◌, refl, ap, Bool, true, false, Option, none, some, List, [], ◌∷◌, ◌++◌, if◌then◌else◌,
  pos, CString, codes, strcmp_eq, Bool-cases, inl, inr,
}
use aitrios_edge_device_core.Esf.{Esf, Source}
use aitrios_edge_device_core.Esf.Read.{mqtt_host, Store, read_config}
use aitrios_edge_device_core.Esf.Read.Memory.{Draws}
use aitrios_edge_device_core.Status.{
  LedStatusInfo, Settings, check_project_id_and_register_token_valid,
  check_provisioning_service_mqtt_host, is_enrollment_mode, is_tls_enabled, set_all,
  connected_settings, disconnected_settings, agent_status_handler,
}
use aitrios_edge_device_core.Status.Heap.{
  free_config, text_of, matches_host, compare_ids, check_token, check_ids, enrolled, handle_status,
  handle_status-Draws,
}

module _ (w : Settings) (e : Source) (st : Store) where
  -- The settings as the handler finds them: the host that is read, and whether each of the two
  -- buffers is allocated.
  abbrev pub settings_at : Esf → Settings
  settings_at c =
      let r = read_config e st mqtt_host c in
      let c' = free_config r.0 r.1 in
      record w {
        mqtt_host = text_of r.0;
        project_id_room = e.room c'.requests;
        register_token_room = e.room (c'.requests + 1);
      }

  -- The enrollment check by its two allocations and its two getters.
  abbrev both_ids : Bool → Bool → Option (List ℕ) → Option (List ℕ) → Bool
  both_ids false room' project_id register_token = false
  both_ids true room' none register_token = false
  both_ids true false (some project_id) register_token = false
  both_ids true true (some project_id) register_token = compare_ids w e st project_id register_token

  check_ids-both_ids :
      (c : Esf)
      → (check_ids w e st c).0
        ≡ both_ids (e.room c.requests) (e.room (c.requests + 1)) w.project_id w.register_token
  check_ids-both_ids c = elim (Bool-cases (e.room c.requests)) [
    | inl room ↦ rw room (
        check_token-both_ids w.project_id
          (record c { requests = c.requests + 1; live = c.live + 1 }))
    | inr full ↦ rw full refl
  ]
    where
      check_token-both_ids :
          (project_id : Option (List ℕ)) (c : Esf)
          → (check_token w e st project_id c).0
            ≡ both_ids true (e.room c.requests) project_id w.register_token
      check_token-both_ids none c = refl
      check_token-both_ids (some project_id) c = elim (Bool-cases (e.room c.requests)) [
        | inl room ↦ rw room refl
        | inr full ↦ rw full refl
      ]

  valid-both_ids :
      (host : Option CString) (room room' : Bool) (project_id register_token : Option (List ℕ))
      → check_project_id_and_register_token_valid (record w {
        mqtt_host = host;
        project_id_room = room;
        project_id = project_id;
        register_token_room = room';
        register_token = register_token;
      })
        ≡ both_ids room room' project_id register_token
  unfolding check_project_id_and_register_token_valid
  valid-both_ids host false room' project_id register_token = refl
  valid-both_ids host true room' none register_token = refl
  valid-both_ids host true false (some project_id) register_token = refl
  valid-both_ids host true true (some project_id) none = refl
  valid-both_ids host true true (some project_id) (some register_token) = refl

  host-matches :
      (host : Option CString) (room room' : Bool)
      → check_provisioning_service_mqtt_host
          (record w { mqtt_host = host; project_id_room = room; register_token_room = room' })
        ≡ matches_host host
  unfolding check_provisioning_service_mqtt_host
  host-matches none room room' = refl
  host-matches (some host) room room' = refl

  set_all-same :
      (host : Option CString) (room room' : Bool) (infos sent : List LedStatusInfo)
      → set_all
          (record w { mqtt_host = host; project_id_room = room; register_token_room = room' })
          infos
          sent
        ≡ set_all w infos sent
  unfolding set_all
  set_all-same host room room' [] sent = refl
  set_all-same host room room' (info ∷ infos) sent =
      rw (set_all-same host room room' infos (sent ++ info ∷ [])) refl

  either : (b : Bool) → (if b then true else false) ≡ b
  either true = refl
  either false = refl

  first_of_if :
      (b : Bool) (x : Bool) (p q : Bool × Esf) (v : Bool)
      → p.0 ≡ x
      → q.0 ≡ v
      → (if b then p else q).0 ≡ (if b then x else v)
  first_of_if true x p q v hp hq = hp
  first_of_if false x p q v hp hq = hq

  enrolled-same : (c : Esf) → (enrolled w e st c).0 ≡ is_enrollment_mode (settings_at c)
  unfolding is_enrollment_mode
  enrolled-same c =
      let r = read_config e st mqtt_host c in
      let c' = free_config r.0 r.1 in
      let host = host-matches (text_of r.0) (e.room c'.requests) (e.room (c'.requests + 1)) in
      let ids =
        valid-both_ids (text_of r.0) (e.room c'.requests) (e.room (c'.requests + 1)) w.project_id
          w.register_token in
      rw (host, ids, either)
        (first_of_if (matches_host (text_of r.0)) true _ _ _ refl (check_ids-both_ids c'))

  -- The handler returns and sends what it does with the settings as it finds them.
  handle_status-same :
      (status : Option CString) (sent : List LedStatusInfo) (c : Esf)
      → (handle_status w e st status sent c).0 ≡ agent_status_handler (settings_at c) status sent
  unfolding handle_status agent_status_handler connected_settings disconnected_settings
      is_tls_enabled
  handle_status-same none sent c = refl
  handle_status-same (some status) sent c =
      let r = read_config e st mqtt_host c in
      let c' = free_config r.0 r.1 in
      let all = set_all-same (text_of r.0) (e.room c'.requests) (e.room (c'.requests + 1)) in
      elim (Bool-cases (strcmp_eq status (codes "connected"))) [
        | inl connected ↦
            rw (connected, all (connected_settings w) sent)
              (ap (λ (b : Bool). if b then (pos 0, sent) else set_all w (connected_settings w) sent)
                (enrolled-same c))
        | inr other ↦ elim (Bool-cases (strcmp_eq status (codes "disconnected"))) [
          | inl disconnected ↦ rw (other, disconnected, all (disconnected_settings w) sent) refl
          | inr neither ↦ rw (other, neither) refl
        ]
      ]

  -- Over the heap, with the host read through the reader of the configuration and the buffers of
  -- the enrollment check as blocks, the handler of agent/status returns and sends the same as the
  -- handler on the settings that it finds there (the host as it is read, and whether each buffer is
  -- allocated), and leaves as many blocks in use and as many files and directories open as before
  -- and the proxy cache the same, whatever fails.
  pub handle_status-Refines :
      (status : Option CString) (sent : List LedStatusInfo) (c : Esf)
      → ((handle_status w e st status sent c).0 ≡ agent_status_handler (settings_at c) status sent)
        × Draws 0 c (handle_status w e st status sent c).1
  handle_status-Refines status sent c =
      (handle_status-same status sent c, handle_status-Draws w e st status sent c)
