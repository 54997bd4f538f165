-- ===== src/Status/Shown.antt =====
-- What the service LED shows after the handler of "agent/status".
use mathlib.Core.List.{append-nil, append_assoc}
use aitrios_edge_device_core.Base.{
  ℤ, ◌≡◌, refl, ◌∙◌, Bool, true, false, not, ◌&&◌, Option, none, some, List, [], ◌∷◌, ◌++◌, arith,
  if◌then◌else◌, pos, negsuc, CString, codes, strcmp_eq, ap, Bool-cases, inl, inr,
}
use aitrios_edge_device_core.Status.{
  LedStatus, connected_with_tls, connected_without_tls, disconnected_connecting_with_tls,
  disconnected_connecting_without_tls, LedStatusInfo, Settings, is_tls_enabled, is_enrollment_mode,
  set_all, connected_settings, disconnected_settings, agent_status_handler,
}

-- The settings of a pattern that reach the LED manager, and whether all of them are taken.
abbrev pub reached : Settings → List LedStatusInfo → List LedStatusInfo → List LedStatusInfo
reached e sent [] = []
reached e sent (info ∷ infos) =
    let more = reached e (sent ++ info ∷ []) infos in
    if e.set_status sent info then info ∷ more else info ∷ []

abbrev pub all_taken : Settings → List LedStatusInfo → List LedStatusInfo → Bool
all_taken e sent [] = true
all_taken e sent (info ∷ infos) = e.set_status sent info && all_taken e (sent ++ info ∷ []) infos

-- The pattern: of the four settings, in the order of the enumeration, the one for the connection
-- and the use of TLS is enabled.
abbrev pub pattern_of : Bool → Bool → List LedStatusInfo
pattern_of on tls =
    record { status = connected_with_tls; enabled = on && tls }
    ∷ record { status = connected_without_tls; enabled = on && not tls }
    ∷ record { status = disconnected_connecting_with_tls; enabled = not on && tls }
    ∷ record { status = disconnected_connecting_without_tls; enabled = not on && not tls }
    ∷ []

abbrev pub same : LedStatus → LedStatus → Bool
same connected_with_tls connected_with_tls = true
same connected_without_tls connected_without_tls = true
same disconnected_connecting_with_tls disconnected_connecting_with_tls = true
same disconnected_connecting_without_tls disconnected_connecting_without_tls = true
same _ _ = false

-- Whether a status is enabled after the settings, by the last one for it, when it was `before`.
abbrev pub enabled_after : Bool → List LedStatusInfo → LedStatus → Bool
enabled_after before [] status = before
enabled_after before (info ∷ infos) status =
    enabled_after (if same info.status status then info.enabled else before) infos status

-- The status that is to be shown.
abbrev pub shown_status : Bool → Bool → LedStatus
shown_status true true = connected_with_tls
shown_status true false = connected_without_tls
shown_status false true = disconnected_connecting_with_tls
shown_status false false = disconnected_connecting_without_tls

enabled_after-append :
    (before : Bool) (xs ys : List LedStatusInfo) (status : LedStatus)
    → enabled_after before (xs ++ ys) status
      ≡ enabled_after (enabled_after before xs status) ys status
enabled_after-append before [] ys status = refl
enabled_after-append before (info ∷ xs) ys status =
    enabled_after-append (if same info.status status then info.enabled else before) xs ys status

enabled_after-pattern_of :
    (before on tls : Bool) (status : LedStatus)
    → enabled_after before (pattern_of on tls) status ≡ same (shown_status on tls) status
enabled_after-pattern_of before true true connected_with_tls = refl
enabled_after-pattern_of before true true connected_without_tls = refl
enabled_after-pattern_of before true true disconnected_connecting_with_tls = refl
enabled_after-pattern_of before true true disconnected_connecting_without_tls = refl
enabled_after-pattern_of before true false connected_with_tls = refl
enabled_after-pattern_of before true false connected_without_tls = refl
enabled_after-pattern_of before true false disconnected_connecting_with_tls = refl
enabled_after-pattern_of before true false disconnected_connecting_without_tls = refl
enabled_after-pattern_of before false true connected_with_tls = refl
enabled_after-pattern_of before false true connected_without_tls = refl
enabled_after-pattern_of before false true disconnected_connecting_with_tls = refl
enabled_after-pattern_of before false true disconnected_connecting_without_tls = refl
enabled_after-pattern_of before false false connected_with_tls = refl
enabled_after-pattern_of before false false connected_without_tls = refl
enabled_after-pattern_of before false false disconnected_connecting_with_tls = refl
enabled_after-pattern_of before false false disconnected_connecting_without_tls = refl

module _ (e : Settings) where
  set_all_lem :
      (infos sent : List LedStatusInfo)
      → set_all e infos sent
        ≡ (if all_taken e sent infos then pos 0 else negsuc 0, sent ++ reached e sent infos)
  unfolding set_all
  set_all_lem [] sent = rw (append-nil sent)
  set_all_lem (info ∷ infos) sent = elim (Bool-cases (e.set_status sent info)) [
    | inl taken ↦
        rw taken (set_all_lem infos (sent ++ info ∷ []) ∙ rw (append_assoc sent (info ∷ [])))
    | inr refused ↦ rw refused refl
  ]

  connected_settings_lem : connected_settings e ≡ pattern_of true (is_tls_enabled e)
  unfolding connected_settings
  connected_settings_lem = elim (Bool-cases (is_tls_enabled e)) [
    | inl on ↦ rw on refl
    | inr off ↦ rw off refl
  ]

  disconnected_settings_lem : disconnected_settings e ≡ pattern_of false (is_tls_enabled e)
  unfolding disconnected_settings
  disconnected_settings_lem = elim (Bool-cases (is_tls_enabled e)) [
    | inl on ↦ rw on refl
    | inr off ↦ rw off refl
  ]

  -- The status as the agent library names it.
  abbrev pub name_of : Bool → CString
  name_of on = if on then codes "connected" else codes "disconnected"

  -- Unless the agent is connected in enrollment mode, the handler sends the four settings for the
  -- connection and the use of TLS up to the first one that is refused, and returns -1 exactly when
  -- one is refused.
  pub agent_status_handler_lem :
      (on : Bool) (sent : List LedStatusInfo)
      → (on && is_enrollment_mode e) ≡ false
      → agent_status_handler e (some (name_of on)) sent ≡ (
        if all_taken e sent (pattern_of on (is_tls_enabled e)) then pos 0 else negsuc 0,
        sent ++ reached e sent (pattern_of on (is_tls_enabled e)),
      )
  unfolding agent_status_handler strcmp_eq
  agent_status_handler_lem true sent h =
      let sends = set_all_lem (pattern_of true (is_tls_enabled e)) sent in
      rw (h, connected_settings_lem) sends
  agent_status_handler_lem false sent h =
      let sends = set_all_lem (pattern_of false (is_tls_enabled e)) sent in
      rw disconnected_settings_lem sends

  -- The settings for the connection and the use of TLS, sent up to the first one that is refused.
  abbrev pub sends : Bool → List LedStatusInfo → ℤ × List LedStatusInfo
  sends on sent = (
    if all_taken e sent (pattern_of on (is_tls_enabled e)) then pos 0 else negsuc 0,
    sent ++ reached e sent (pattern_of on (is_tls_enabled e)),
  )

  -- What the handler is to do for a status.
  abbrev pub reaction : Option CString → List LedStatusInfo → ℤ × List LedStatusInfo
  reaction none sent = (negsuc 0, sent)
  reaction (some s) sent =
      if strcmp_eq s (name_of true)
      then (if is_enrollment_mode e then (pos 0, sent) else sends true sent)
      else if strcmp_eq s (name_of false)
      then sends false sent
      else (negsuc 0, sent)

  -- For any status: told that the agent is connected outside of enrollment mode, or disconnected,
  -- the handler sends the four settings for the connection and the use of TLS up to the first one
  -- that is refused, and returns -1 exactly if one is refused. In enrollment mode a connection
  -- sends nothing and returns 0; NULL and any other name send nothing and return -1.
  pub agent_status_handler-reaction :
      (status : Option CString) (sent : List LedStatusInfo)
      → agent_status_handler e status sent ≡ reaction status sent
  unfolding agent_status_handler
  agent_status_handler-reaction none sent = refl
  agent_status_handler-reaction (some s) sent =
      let connects = set_all_lem (pattern_of true (is_tls_enabled e)) sent in
      let disconnects = set_all_lem (pattern_of false (is_tls_enabled e)) sent in
      elim (Bool-cases (strcmp_eq s (name_of true))) [
        | inl named ↦ elim (Bool-cases (is_enrollment_mode e)) [
          | inl enrolls ↦ rw (named, enrolls) refl
          | inr used ↦ rw (named, used, connected_settings_lem) connects
        ]
        | inr other ↦ elim (Bool-cases (strcmp_eq s (name_of false))) [
          | inl named ↦ rw (other, named, disconnected_settings_lem) disconnects
          | inr other' ↦ rw (other, other') refl
        ]
      ]

  reached-all_taken :
      (infos sent : List LedStatusInfo)
      → all_taken e sent infos ≡ true
      → reached e sent infos ≡ infos
  reached-all_taken [] sent h = refl
  reached-all_taken (info ∷ infos) sent h = elim (Bool-cases (e.set_status sent info)) [
    | inl taken ↦
        rw taken
          (ap (λ rest. info ∷ rest) (reached-all_taken infos (sent ++ info ∷ []) (rw taken at h)))
    | inr refused ↦ absurd (ground (arith, h, refused))
  ]

  code_zero : (b : Bool) → (if b then pos 0 else negsuc 0) ≡ pos 0 → b ≡ true
  code_zero true h = refl
  code_zero false h = absurd (ground arith)

  -- When the handler is told that the agent is connected outside of enrollment mode, or
  -- disconnected, and returns 0, the one status for the connection and the use of TLS is enabled
  -- afterwards, and no other, whatever was enabled before.
  pub agent_status_handler_shown :
      (on before : Bool) (sent : List LedStatusInfo) (status : LedStatus)
      → (on && is_enrollment_mode e) ≡ false
      → (agent_status_handler e (some (name_of on)) sent).0 ≡ pos 0
      → enabled_after before (agent_status_handler e (some (name_of on)) sent).1 status
        ≡ same (shown_status on (is_tls_enabled e)) status
  agent_status_handler_shown on before sent status h success =
      let infos = pattern_of on (is_tls_enabled e) in
      let result = agent_status_handler_lem on sent h in
      let taken : all_taken e sent infos ≡ true = code_zero _ (rw result at success) in
      let all = reached-all_taken infos sent taken in
      let shows =
        (enabled_after-append before sent infos status
          ∙ enabled_after-pattern_of (enabled_after before sent status) on (is_tls_enabled e)
              status) in
      rw (result, all) shows
