-- ===== src/Notifications/Register/Order.antt =====
-- What is registered: the codes in a fresh table, and the subscriptions up to the first refusal.
use mathlib.Core.List.{append-nil, append_assoc}
use aitrios_edge_device_core.Base.{
  ℕ, zero, suc, ◌+◌, ◌≤◌, ◌<◌, ◌≡◌, ◌≢◌, ap, refl, ◌∙◌, Option, none, some, List, [], ◌∷◌, ◌++◌,
  arith, ◌==◌, if◌then◌else◌, ℤ, pos, is_nonzero, CString, codes, length, take, Bool-cases, inl,
  inr,
}
use aitrios_edge_device_core.Elog.{Elog, system_reg_elog}
use aitrios_edge_device_core.Elog.Invariant.{IsValid, static_elog, system_reg_elog-IsValid}
use aitrios_edge_device_core.Elog.Codes.{
  code_of, or_else, system_reg_elog-code_of, system_reg_elog-last,
}
use aitrios_edge_device_core.Notifications.{
  elog_evp_blob_network_status, elog_evp_mqtt_status, elog_evp_wasm_status,
}
use aitrios_edge_device_core.Notifications.Ready.{Holds}
use aitrios_edge_device_core.Notifications.Register.{
  Subscription, register_codes, subscriptions, subscribe_each, evp_agent_notifications_register,
}

-- The number of calls that succeed before the first error, out of `n` calls from the k-th on.
abbrev pub accepted : (ℕ → ℤ) → ℕ → ℕ → ℕ
accepted subscribe k zero = 0
accepted subscribe k (suc n) =
    let more = suc (accepted subscribe (k + 1) n) in if is_nonzero (subscribe k) then 0 else more

-- The result of the call that ends the registration.
abbrev pub first_error : (ℕ → ℤ) → ℕ → ℕ → ℤ
first_error subscribe k zero = pos 0
first_error subscribe k (suc n) =
    let more = first_error subscribe (k + 1) n in
    if is_nonzero (subscribe k) then subscribe k else more

subscribe_each_lem :
    (subscribe : ℕ → ℤ) (k : ℕ) (rest active : List Subscription)
    → subscribe_each subscribe k rest active ≡ (
      first_error subscribe k (length rest),
      active ++ take (accepted subscribe k (length rest)) rest,
    )
unfolding subscribe_each
subscribe_each_lem subscribe k [] active = rw (append-nil active)
subscribe_each_lem subscribe k (s ∷ rest) active = elim (Bool-cases (is_nonzero (subscribe k))) [
  | inl error ↦ rw (error, append-nil active)
  | inr fine ↦ rw fine (
      subscribe_each_lem subscribe (k + 1) rest (active ++ s ∷ [])
      ∙ rw (append_assoc active (s ∷ [])))
]

-- Registration returns the first error among the four subscriptions (0 if there is none), leaves
-- exactly the handlers before it subscribed, in the order of the source, and registers the codes in
-- any case.
pub evp_agent_notifications_register_lem :
    (subscribe : ℕ → ℤ) (e : Elog)
    → evp_agent_notifications_register subscribe e
      ≡ (first_error subscribe 0 4, register_codes e, take (accepted subscribe 0 4) subscriptions)
unfolding evp_agent_notifications_register
evp_agent_notifications_register_lem subscribe e =
    rw (subscribe_each_lem subscribe 0 subscriptions [])

or_else-none : (o : Option ℕ) → or_else o none ≡ o
or_else-none none = refl
or_else-none (some a) = refl

module _ (component init_value : ℕ) (msg : CString) (e : Elog) (valid : IsValid e)
    (room : e.last < 128) where
  pub reg_code :
      (other : ℕ)
      → code_of other (system_reg_elog component init_value msg e)
        ≡ or_else (code_of other e) (if component == other then some init_value else none)
  reg_code other = ground (arith, system_reg_elog-code_of component init_value other msg e valid)

  reg_last : (system_reg_elog component init_value msg e).last ≡ suc e.last
  reg_last = ground (arith, system_reg_elog-last component init_value msg e)

-- What one registration does where there is room: validity, the length, its own code, and others'.
pub record Registers (component init_value : ℕ) (e e' : Elog) : Type 0 where
  pub valid : IsValid e'
  pub longer : e'.last ≡ suc e.last
  pub own : code_of component e' ≡ or_else (code_of component e) (some init_value)
  pub others : (other : ℕ) → component ≢ other → code_of other e' ≡ code_of other e

pub reg-Registers :
    (component init_value : ℕ) (msg : CString) (e : Elog)
    → component < 256
    → init_value < 256
    → IsValid e
    → e.last < 128
    → Registers component init_value e (system_reg_elog component init_value msg e)
reg-Registers component init_value msg e hc hv valid room = record {
  valid = system_reg_elog-IsValid component init_value msg e hc hv valid;
  longer = reg_last component init_value msg e valid room;
  own = ground (arith, reg_code component init_value msg e valid room component);
  others = λ other ne.
      ground (
        arith,
        reg_code component init_value msg e valid room other,
        or_else-none (code_of other e),
      );
}

-- In a table with room for three entries each component has the code that it had, or else its
-- initial value.
pub register_codes-code_of :
    (e : Elog)
    → IsValid e
    → e.last + 3 ≤ 128
    → let e' = register_codes e in
      IsValid e'
      × (code_of elog_evp_blob_network_status e'
          ≡ or_else (code_of elog_evp_blob_network_status e) (some 0x40))
      × (code_of elog_evp_mqtt_status e' ≡ or_else (code_of elog_evp_mqtt_status e) (some 0x0))
unfolding register_codes
register_codes-code_of e valid room =
    let m1 = codes "EVP Block Warning." in
    let m2 = codes "EVP Block Warning 2." in
    let m3 = codes "EVP Block Warning 3." in
    let a = system_reg_elog elog_evp_blob_network_status 0x40 m1 e in
    let ra =
      reg-Registers elog_evp_blob_network_status 0x40 m1 e (omega arith) (omega arith) valid
        (omega arith) in
    let b = system_reg_elog elog_evp_mqtt_status 0x0 m2 a in
    let rb =
      reg-Registers elog_evp_mqtt_status 0x0 m2 a (omega arith) (omega arith) ra.valid
        (omega (arith, ra.longer)) in
    let rc =
      reg-Registers elog_evp_wasm_status 0x0 m3 b (omega arith) (omega arith) rb.valid
        (omega (arith, ra.longer, rb.longer)) in
    (
      rc.valid,
      rc.others elog_evp_blob_network_status (omega arith)
          ∙ (rb.others elog_evp_blob_network_status (omega arith) ∙ ra.own),
      rc.others elog_evp_mqtt_status (omega arith)
          ∙ (rb.own
              ∙ ap (λ (o : Option ℕ). or_else o (some 0x0))
                  (ra.others elog_evp_mqtt_status (omega arith))),
    )

-- In a valid table with room for three entries that knows neither component, registration
-- establishes the codes 0x40 and 0, from which the handlers start.
pub register_codes-Holds :
    (e : Elog)
    → IsValid e
    → e.last + 3 ≤ 128
    → code_of elog_evp_blob_network_status e ≡ none
    → code_of elog_evp_mqtt_status e ≡ none
    → Holds (register_codes e) 0x40 0x0
register_codes-Holds e valid room no_blob no_mqtt =
    let r = register_codes-code_of e valid room in
    record {
      valid = r.0;
      blob_registered = r.1 ∙ rw no_blob;
      blob_below = omega arith;
      mqtt_registered = r.2 ∙ rw no_mqtt;
      mqtt_below = omega arith;
      mqtt_even = refl;
    }

-- The static table knows no component.
pub static_elog_empty : (component : ℕ) → code_of component static_elog ≡ none
unfolding code_of
static_elog_empty component = refl
