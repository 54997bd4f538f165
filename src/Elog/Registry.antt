-- ===== src/Elog/Registry.antt =====
-- What log.c promises, without its array: a partial map from components to codes, the number of
-- places in use, and the events that were sent. The order of the entries, their texts and their
-- marks are forgotten.
pub mod Shared
pub mod Log
mod Fresh
pub mod Abstract
mod Tests
use mathlib.Core.Option
use aitrios_edge_device_core.Base.{
  ℕ, suc, ◌<◌, CString, ◌≡◌, ◌∙◌, refl, ap, fun_ext, inl, inr, Bool, true, false, Option, none,
  some, List, [], ◌∷◌, arith, ltb, ◌==◌, ==_iff, if◌then◌else◌, ℤ, pos, neg, enoent, Bool-cases,
  Option-cases,
}
use aitrios_edge_device_core.Elog.{
  Elog, max_elog_entry, elog_err, event_id, system_reg_elog, system_set_elog, system_get_elog,
}
use aitrios_edge_device_core.Elog.Invariant.{
  IsValid, system_reg_elog-IsValid, system_set_elog-IsValid,
}
use aitrios_edge_device_core.Elog.Codes.{
  code_of, or_else, expected_set, system_get_elog_lem, system_set_elog-code_of,
  system_set_elog_outcome, system_set_elog_unregistered, system_reg_elog-code_of,
  system_reg_elog-last,
}
use aitrios_edge_device_core.Elog.Threads.{Operation, reg, set_code, get_code, perform}

pub record Registry : Type 0 where
  pub codes : ℕ → Option ℕ
  pub used : ℕ
  pub events : List ℕ

-- What a table stands for.
abbrev pub registry : Elog → Registry
registry e = record { codes = λ c. code_of c e; used = e.last; events = e.written }

-- A registration keeps the code that a component has.
abbrev pub registered : ℕ → ℕ → Registry → Registry
registered component value r =
    let added = λ (c : ℕ). or_else (r.codes c) (if component == c then some value else none) in
    if ltb r.used max_elog_entry then record r { codes = added; used = suc r.used } else r

abbrev pub with_code : ℕ → ℕ → Registry → Registry
with_code component code r = record r {
  codes = λ c. if component == c then some code else r.codes c;
}

pub registry-≡ :
    (a b : Registry)
    → ((c : ℕ) → a.codes c ≡ b.codes c)
    → a.used ≡ b.used
    → a.events ≡ b.events
    → a ≡ b
registry-≡ a b codes used events =
    λ i. record { codes = λ c. codes c i; used = used i; events = events i }

module _ (write_elog : List ℕ → Bool) where
  -- A code that is set, by the code that the component has.
  abbrev pub coded : ℕ → ℕ → Option ℕ → Registry → ℤ × Registry
  coded component code none r = (neg enoent, r)
  coded component code (some old) r =
      let sent = event_id component code ∷ r.events in
      if old == code then (pos 0, r) else (
        if write_elog sent then pos 0 else neg enoent,
        record (with_code component code r) { events = sent },
      )

  abbrev pub promise : Operation → Registry → ℤ × Registry
  promise (reg component value msg) r = (pos 0, registered component value r)
  promise (set_code component code) r = coded component code (r.codes component) r
  promise (get_code component) r = (pos (Option.get_or (r.codes component) elog_err), r)

  -- The arguments are bytes.
  abbrev pub IsByte : Operation → Type 0
  IsByte (reg component value msg) = component < 256 × value < 256
  IsByte (set_code component code) = component < 256 × code < 256
  IsByte (get_code component) = component < 256

  -- The result with what the table stands for.
  abbrev pub seen : ℤ × Elog → ℤ × Registry
  seen r = (r.0, registry r.1)

  pub perform-IsValid :
      (op : Operation) (e : Elog) → IsByte op → IsValid e → IsValid (perform write_elog op e).1
  perform-IsValid (reg component value msg) e h valid =
      system_reg_elog-IsValid component value msg e h.0 h.1 valid
  perform-IsValid (set_code component code) e h valid =
      system_set_elog-IsValid write_elog component code e h.1 valid
  perform-IsValid (get_code component) e h valid = valid

  reg-promise :
      (component value : ℕ) (msg : CString) (e : Elog)
      → IsValid e
      → registry (system_reg_elog component value msg e) ≡ registered component value (registry e)
  reg-promise component value msg e valid =
      let code = system_reg_elog-code_of component value in
      let last = system_reg_elog-last component value msg e in
      let written : (system_reg_elog component value msg e).written ≡ e.written =
        unfold system_reg_elog in ground arith in
      registry-≡ _ _ (λ c. ground (arith, code c msg e valid)) (ground (arith, last))
        (ground (arith, written))

  set-promise :
      (component code : ℕ) (o : Option ℕ) (e : Elog)
      → IsValid e
      → code_of component e ≡ o
      → seen (system_set_elog write_elog component code e) ≡ coded component code o (registry e)
  set-promise component code none e valid h =
      ap seen (system_set_elog_unregistered write_elog component code e valid h)
  set-promise component code (some old) e valid h =
      let out = system_set_elog_outcome write_elog component code e valid in
      let code' = λ (c : ℕ). system_set_elog-code_of write_elog component code c e valid in
      let r = system_set_elog write_elog component code e in
      let outs = rw h at out in
      elim (Bool-cases (old == code)) [
        | inl same ↦
            let ret : r.0 ≡ pos 0 = ground (arith, outs.0) in
            let state : registry r.1 ≡ registry e =
              registry-≡ _ _ (λ c. ground (arith, code' c, h)) outs.2 (ground (arith, outs.1)) in
            rw same (λ i. (ret i, state i))
        | inr differs ↦
            let state : registry r.1 ≡ record (with_code component code (registry e)) {
              events = event_id component code ∷ e.written;
            } =
              registry-≡ _ _ (λ c. ground (arith, code' c, h)) outs.2 (ground (arith, outs.1)) in
            let ret : r.0
                ≡ (if write_elog (event_id component code ∷ e.written) then pos 0 else neg enoent) =
              ground (arith, outs.0) in
            rw differs (λ i. (ret i, state i))
      ]

  -- Each operation does what is promised of it.
  pub perform-promise :
      (op : Operation) (e : Elog)
      → IsByte op
      → IsValid e
      → seen (perform write_elog op e) ≡ promise op (registry e)
  perform-promise (reg component value msg) e h valid =
      ap (λ (r : Registry). (pos 0, r)) (reg-promise component value msg e valid)
  perform-promise (set_code component code) e h valid =
      set-promise component code (code_of component e) e valid refl
  perform-promise (get_code component) e h valid =
      ap (λ (n : ℕ). (pos n, registry e)) (system_get_elog_lem component e valid)
