-- ===== src/Notifications/Register/Outcome.antt =====
-- What the registration leaves, whatever the agent library answers: the codes, and the handlers by
-- their topics.
use mathlib.Core.Path.{subst}
use aitrios_edge_device_core.Base.{
  ℕ, zero, suc, ◌+◌, ◌≤◌, ◌<◌, ◌≡◌, refl, ap, ◌∙◌, ◌⊎◌, inl, inr, true, false, Option, none, some,
  List, [], ◌∷◌, arith, ◌==◌, if◌then◌else◌, ℤ, pos, is_nonzero, codes, take, Bool-cases,
}
use aitrios_edge_device_core.Elog.{Elog, system_reg_elog}
use aitrios_edge_device_core.Elog.Invariant.{IsValid}
use aitrios_edge_device_core.Elog.Codes.{code_of, or_else}
use aitrios_edge_device_core.Notifications.Register.{
  Subscription, elog_handler_blob_result, elog_handler_mqtt_sync_result, elog_handler_network_error,
  agent_status_handler, register_codes, evp_agent_notifications_register,
}
use aitrios_edge_device_core.Notifications.Register.Order.{
  accepted, first_error, evp_agent_notifications_register_lem, reg-Registers, reg_code,
}

-- The code that a component has from the registration, unless it had one before.
abbrev pub initial : ℕ → Option ℕ
initial component =
    if component == 0xf0
    then some 0x40
    else if component == 0xf1
    then some 0x0
    else if component == 0xf2
    then some 0x0
    else none

-- The handler of each topic, in the order of the calls.
abbrev pub handlers : List Subscription
handlers =
    (codes "blob/result", elog_handler_blob_result)
    ∷ (codes "mqtt/sync/err", elog_handler_mqtt_sync_result)
    ∷ (codes "network/error", elog_handler_network_error)
    ∷ (codes "agent/status", agent_status_handler)
    ∷ []

-- The calls before the k-th of four are answered with 0, and the k-th, if there is one, with the
-- error that is returned.
abbrev pub StopsAfter : (ℕ → ℤ) → ℕ → ℤ → Type 0
StopsAfter subscribe k ret =
    ((j : ℕ) → j < k → is_nonzero (subscribe j) ≡ false)
    × (((k ≡ 4) × ret ≡ pos 0) ⊎ ((k < 4) × (is_nonzero (subscribe k) ≡ true) × ret ≡ subscribe k))

counted :
    (subscribe : ℕ → ℤ) (k n : ℕ)
    → k + n ≡ 4
    → ((j : ℕ) → j < k → is_nonzero (subscribe j) ≡ false)
    → StopsAfter subscribe (k + accepted subscribe k n) (first_error subscribe k n)
counted subscribe k zero h fine = (λ j less. fine j (omega arith), inl (omega arith, refl))
counted subscribe k (suc n) h fine = elim (Bool-cases (is_nonzero (subscribe k))) [
  | inl error ↦
      let now : k + 0 ≡ k = omega arith in rw (error, now) (fine, inr (omega arith, error, refl))
  | inr ok ↦
      let rest = accepted subscribe (k + 1) n in
      let next : k + suc rest ≡ k + 1 + rest = omega arith in
      rw (ok, next)
        (counted subscribe (k + 1) n (omega arith) (λ j less. elim (Bool-cases (j == k)) [
          | inl same ↦
              let here : j ≡ k = ground arith in ap (λ (j : ℕ). is_nonzero (subscribe j)) here ∙ ok
          | inr before ↦ fine j (ground arith)
        ]))
]

-- Three registrations, one after the other.
or_else_three :
    (c : ℕ) (o a b d : Option ℕ)
    → a ≡ or_else o (if 0xf0 == c then some 0x40 else none)
    → b ≡ or_else a (if 0xf1 == c then some 0x0 else none)
    → d ≡ or_else b (if 0xf2 == c then some 0x0 else none)
    → d ≡ or_else o (initial c)
or_else_three c (some v) a b d first second third = ground (arith, first, second, third)
or_else_three c none a b d first second third = ground (arith, first, second, third)

register_codes-initial :
    (e : Elog)
    → IsValid e
    → e.last + 3 ≤ 128
    → IsValid (register_codes e)
      × ((c : ℕ) → code_of c (register_codes e) ≡ or_else (code_of c e) (initial c))
unfolding register_codes
register_codes-initial e valid room =
    let m1 = codes "EVP Block Warning." in
    let m2 = codes "EVP Block Warning 2." in
    let m3 = codes "EVP Block Warning 3." in
    let a = system_reg_elog 0xf0 0x40 m1 e in
    let ra = reg-Registers 0xf0 0x40 m1 e (omega arith) (omega arith) valid (omega arith) in
    let b = system_reg_elog 0xf1 0x0 m2 a in
    let rb =
      reg-Registers 0xf1 0x0 m2 a (omega arith) (omega arith) ra.valid (omega (arith, ra.longer)) in
    let rc =
      reg-Registers 0xf2 0x0 m3 b (omega arith) (omega arith) rb.valid
        (omega (arith, ra.longer, rb.longer)) in
    (
      rc.valid,
      λ c.
          or_else_three c (code_of c e) (code_of c a) (code_of c b) (code_of c (register_codes e))
            (reg_code 0xf0 0x40 m1 e valid (omega arith) c)
            (reg_code 0xf1 0x0 m2 a ra.valid (omega (arith, ra.longer)) c)
            (reg_code 0xf2 0x0 m3 b rb.valid (omega (arith, ra.longer, rb.longer)) c),
    )

-- From a valid table with room for three more codes, some k of the four subscriptions are made, in
-- the order of the source: the k calls were answered with 0, and the next one, if there is one,
-- with the error that is returned (0 if there is none). Exactly the first k of blob/result,
-- mqtt/sync/err, network/error and agent/status have a handler, each its own, and the table is
-- valid again, where 0xf0, 0xf1 and 0xf2 have the codes 0x40, 0 and 0 or the ones they had, and
-- every other component the code it had.
pub evp_agent_notifications_register-StopsAfter :
    (subscribe : ℕ → ℤ) (e : Elog)
    → IsValid e
    → e.last + 3 ≤ 128
    → let (ret, e', active) = evp_agent_notifications_register subscribe e in
      ((k : ℕ) × (k ≤ 4) × StopsAfter subscribe k ret × (active ≡ take k handlers))
      × IsValid e'
      × ((c : ℕ) → code_of c e' ≡ or_else (code_of c e) (initial c))
evp_agent_notifications_register-StopsAfter subscribe e valid room =
    let k = accepted subscribe 0 4 in
    let from_first : 0 + k ≡ k = omega arith in
    let stops =
      subst (λ k. StopsAfter subscribe k (first_error subscribe 0 4)) from_first
        (counted subscribe 0 4 refl (λ j less. absurd (omega arith))) in
    let small : k ≤ 4 = ground arith in
    let codes_after = register_codes-initial e valid room in
    rw (evp_agent_notifications_register_lem subscribe e)
      ((k, small, stops, refl), codes_after.0, codes_after.1)
