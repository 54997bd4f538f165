-- ===== src/Elog/Codes.antt =====
-- What the table of log.c means: a partial map from components to codes. Of several entries for one
-- component the first counts.
use mathlib.Core.Option
use aitrios_edge_device_core.Base.{
  or_low_byte, shl, u16, ℕ, zero, suc, ◌*◌, ◌/◌, ◌%◌, ◌<◌, ◌≡◌, refl, inl, inr, Bool, false, Option,
  none, some, List, [], ◌∷◌, arith, ltb, ◌==◌, if◌then◌else◌, ℤ, pos, neg, enoent, length, get_or,
  set, take, CString, Option-cases, Bool-cases,
}
use aitrios_edge_device_core.Elog.{
  Entry, blank, Elog, elog_err, max_elog_entry, find_entry, component_to_entry, elog_array_size,
  event_id, system_reg_elog, system_get_elog, system_set_elog, send_code,
}
use aitrios_edge_device_core.Elog.Invariant.{
  IsValid, component_to_entry_lem, with_code, send_code_array, system_set_elog_absent,
  system_set_elog_found,
}

-- The code of the first entry for a component.
abbrev pub first_code : List Entry → ℕ → Option ℕ
first_code [] component = none
first_code (e ∷ es) component =
    if e.component == component then some e.code else first_code es component

-- The partial map that a table stands for.
unfoldable pub code_of : ℕ → Elog → Option ℕ
code_of component s = first_code (take s.last s.elog_array) component

-- The loop finds the entry whose code the map gives.
find_entry-first_code :
    (size : ℕ) (es : List Entry) (component : ℕ)
    → Option.map (λ i. (get_or es i blank).code) (find_entry size es component)
      ≡ first_code (take size es) component
find_entry-first_code zero es component = refl
find_entry-first_code (suc size) [] component = refl
find_entry-first_code (suc size) (e ∷ es) component =
    elim (Option-cases (find_entry size es component)) [
      | inl absent ↦ ground (arith, find_entry-first_code size es component)
      | inr (i, found) ↦ ground (arith, find_entry-first_code size es component)
    ]

elog_array_size_lem : (s : Elog) → IsValid s → elog_array_size s ≡ s.last
unfolding elog_array_size
elog_array_size_lem s h = ground arith

component_to_entry-find_entry :
    (component : ℕ) (s : Elog) {i : ℕ}
    → IsValid s
    → component_to_entry component s ≡ some i
    → find_entry s.last s.elog_array component ≡ some i
unfolding component_to_entry
component_to_entry-find_entry component s h found = rw (elog_array_size_lem s h) at found

pub component_to_entry-code_of :
    (component : ℕ) (s : Elog)
    → IsValid s
    → Option.map (λ i. (get_or s.elog_array i blank).code) (component_to_entry component s)
      ≡ code_of component s
unfolding component_to_entry code_of
component_to_entry-code_of component s h =
    rw (elog_array_size_lem s h) (find_entry-first_code s.last s.elog_array component)

-- In a valid table, reading a component returns its code in the map, or ELOG_ERR where it has none.
pub system_get_elog_lem :
    (component : ℕ) (s : Elog)
    → IsValid s
    → system_get_elog component s ≡ Option.get_or (code_of component s) elog_err
unfolding system_get_elog
system_get_elog_lem component s h = elim (Option-cases (component_to_entry component s)) [
  | inl absent ↦ ground (arith, component_to_entry-code_of component s h)
  | inr (i, found) ↦ ground (arith, component_to_entry-code_of component s h)
]

-- Changing the first entry of a component changes the map there, and nowhere else.
first_code-set :
    (size : ℕ) (es : List Entry) (component code other : ℕ) {i : ℕ}
    → find_entry size es component ≡ some i
    → first_code (take size (with_code i code es)) other
      ≡ (if component == other then some code else first_code (take size es) other)
first_code-set zero es component code other found = cc
first_code-set (suc size) [] component code other found = cc
first_code-set (suc size) (e ∷ es) component code other found =
    elim (Option-cases (find_entry size es component)) [
      | inl absent ↦ ground arith
      | inr (j, later) ↦ ground (arith, first_code-set size es component code other later)
    ]

module _ (write_elog : List ℕ → Bool) where
  send_code-code_of :
      (i component code other : ℕ) (s : Elog)
      → IsValid s
      → component_to_entry component s ≡ some i
      → code_of other (send_code write_elog i component code s).1
        ≡ (if component == other then some code else code_of other s)
  unfolding code_of
  send_code-code_of i component code other s h found =
      let bound = component_to_entry_lem component s found in
      rw (send_code_array write_elog i component code s bound.1) (
        unfold send_code in
        first_code-set s.last s.elog_array component code other
          (component_to_entry-find_entry component s h found))

  -- In a valid table, setting a code changes the partial map from components to codes at that
  -- component, if it is registered, and nowhere else.
  pub system_set_elog-code_of :
      (component code other : ℕ) (s : Elog)
      → IsValid s
      → code_of other (system_set_elog write_elog component code s).1 ≡ (
          if component == other
          then Option.map (λ _. code) (code_of component s)
          else code_of other s)
  system_set_elog-code_of component code other s h =
      let e = component_to_entry-code_of component s h in
      elim (Option-cases (component_to_entry component s)) [
        | inl absent ↦ rw (system_set_elog_absent write_elog component code s absent) (ground arith)
        | inr (i, found) ↦
            rw (system_set_elog_found write_elog component code s found)
              (ground (arith, send_code-code_of i component code other s h found))
      ]

  -- For a component that is not registered the call fails and changes nothing.
  pub system_set_elog_unregistered :
      (component code : ℕ) (s : Elog)
      → IsValid s
      → code_of component s ≡ none
      → system_set_elog write_elog component code s ≡ (neg enoent, s)
  system_set_elog_unregistered component code s h r =
      let e = component_to_entry-code_of component s h in
      elim (Option-cases (component_to_entry component s)) [
        | inl absent ↦ system_set_elog_absent write_elog component code s absent
        | inr (i, found) ↦ absurd (ground arith)
      ]

  -- What a call of `SystemSetELog` returns and sends, by the code that the component had.
  abbrev pub expected_set : ℕ → ℕ → Option ℕ → List ℕ → ℤ × List ℕ
  expected_set component code none written = (neg enoent, written)
  expected_set component code (some old) written =
      let sent = event_id component code ∷ written in
      if old == code
      then (pos 0, written)
      else (if write_elog sent then pos 0 else neg enoent, sent)

  -- In a valid table, setting a code sends one event exactly when the component is registered and
  -- its code changes; it returns -ENOENT if the component is absent or the event log refuses the
  -- event, and 0 otherwise.
  pub system_set_elog_outcome :
      (component code : ℕ) (s : Elog)
      → IsValid s
      → let (ret, s') = system_set_elog write_elog component code s in
        (ret ≡ (expected_set component code (code_of component s) s.written).0)
        × (s'.written ≡ (expected_set component code (code_of component s) s.written).1)
        × (s'.last ≡ s.last)
  unfolding send_code
  system_set_elog_outcome component code s h =
      elim (Option-cases (component_to_entry component s)) [
        | inl absent ↦
            let e = component_to_entry-code_of component s h in
            rw (system_set_elog_absent write_elog component code s absent) (ground arith)
        | inr (i, found) ↦
            let e = component_to_entry-code_of component s h in
            rw (system_set_elog_found write_elog component code s found) (ground arith)
      ]

-- The first of two answers that there is.
abbrev pub or_else : Option ℕ → Option ℕ → Option ℕ
or_else none second = second
or_else (some code) second = some code

first_code-append :
    (n : ℕ) (es : List Entry) (e : Entry) (component : ℕ)
    → n < length es
    → first_code (take (suc n) (set es n e)) component
      ≡ or_else
          (first_code (take n es) component)
          (if e.component == component then some e.code else none)
first_code-append n [] e component h = elim h [ ]
first_code-append zero (x ∷ es) e component h = refl
first_code-append (suc n) (x ∷ es) e component h =
    ground (arith, first_code-append n es e component)

-- In a valid table, registering adds the initial code to the map where the table has room and the
-- component has no code yet; a component that has one keeps it, and a full table does not change.
pub system_reg_elog-code_of :
    (component init_value other : ℕ) (msg : CString) (s : Elog)
    → IsValid s
    → code_of other (system_reg_elog component init_value msg s) ≡ (
        if ltb s.last max_elog_entry
        then or_else (code_of other s) (if component == other then some init_value else none)
        else code_of other s)
unfolding system_reg_elog code_of
system_reg_elog-code_of component init_value other msg s h =
    let e : Entry = record {
      component = component;
      code = init_value;
      updated = false;
      msg = msg;
    } in
    elim (Bool-cases (ltb s.last max_elog_entry)) [
      | inl room ↦ rw room (first_code-append s.last s.elog_array e other (ground arith))
      | inr full ↦ rw full
    ]

-- For a component and a code that are bytes, the event id gives back the component as its high byte
-- and the code as its low byte.
pub event_id_fields :
    (component code : ℕ)
    → component < 256
    → code < 256
    → (event_id component code / 256 ≡ component) × (event_id component code % 256 ≡ code)
unfolding event_id
event_id_fields component code hc hk =
    let parts = or_low_byte component code hc hk in
    let high : shl (u16 component) 8 ≡ component * 256 = omega arith in
    let low : u16 code ≡ code = omega arith in rw (high, low, parts) (omega arith)

pub system_reg_elog-last :
    (component init_value : ℕ) (msg : CString) (s : Elog)
    → (system_reg_elog component init_value msg s).last
      ≡ (if ltb s.last max_elog_entry then suc s.last else s.last)
unfolding system_reg_elog
system_reg_elog-last component init_value msg s = ground arith
