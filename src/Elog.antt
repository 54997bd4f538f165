-- ===== src/Elog.antt =====
-- The table of ELOG codes: src/evp-agent/src/log.c, lines 29 to 65 and 116 to 174.
-- A code is a byte that is kept for each component (a byte too) and sent to the device's event log
-- when it changes. An `Elog` is what the file keeps in static memory, and the event ids that it has
-- handed to `UtilityLogWriteELog`. The three operations take the mutex at their start and give it
-- back at their one end; here each is one step of the state, and Threads has their single accesses.
pub mod Invariant
pub mod Codes
pub mod Threads
pub mod Registry
mod Tests
use aitrios_edge_device_core.Base.{
  ℕ, zero, suc, ◌*◌, Bool, true, false, Option, none, some, List, [], ◌∷◌, bit_or, leb, ltb, ◌==◌,
  if◌then◌else◌, ℤ, pos, neg, enoent, get_or, set, u16, shl, CString,
}
use mathlib.Core.Option

-- `struct elog_entry`
pub record Entry : Type 0 where
  pub component : ℕ  -- uint8_t
  pub code : ℕ  -- uint8_t
  pub updated : Bool
  pub msg : CString

-- An entry of static memory that nothing has been written to.
abbrev pub blank : Entry
blank = record { component = 0; code = 0; updated = false; msg = [] }

-- The static state of log.c: the array, the number of entries in use, and what was sent, the latest
-- first.
pub record Elog : Type 0 where
  pub elog_array : List Entry
  pub last : ℕ  -- int
  pub written : List ℕ

abbrev pub max_elog_entry : ℕ
max_elog_entry = 128

-- `ELOG_ERR`, what a read of a component that is not registered returns.
abbrev pub elog_err : ℕ
elog_err = 0xff

-- `ELOG_ARRAY_SIZE`
pub elog_array_size : Elog → ℕ
elog_array_size s = if leb max_elog_entry s.last then max_elog_entry else s.last

-- The loop of `component_to_entry` over the first `size` entries: the index of the first that fits.
abbrev pub find_entry : ℕ → List Entry → ℕ → Option ℕ
find_entry zero array component = none
find_entry (suc size) [] component = none
find_entry (suc size) (e ∷ array) component =
    if e.component == component then some 0 else Option.map suc (find_entry size array component)

-- The entry is given by its index, which stands for the pointer that the source returns.
pub component_to_entry : ℕ → Elog → Option ℕ
unfolding elog_array_size
component_to_entry component s = find_entry (elog_array_size s) s.elog_array component

-- `SystemRegElog`
unfoldable pub system_reg_elog : ℕ → ℕ → CString → Elog → Elog
system_reg_elog component init_value msg s =
    if ltb s.last max_elog_entry
    then record s {
      elog_array =
          set s.elog_array s.last
            (record { component = component; code = init_value; updated = false; msg = msg });
      last = suc s.last;
    }
    else s

-- `SystemGetELog`
unfoldable pub system_get_elog : ℕ → Elog → ℕ
unfolding component_to_entry
system_get_elog component s = elim (component_to_entry component s) [
  | none ↦ elog_err
  | some i ↦ (get_or s.elog_array i blank).code
]

-- `((uint16_t)component << 8) | (uint16_t)code`
unfoldable pub event_id : ℕ → ℕ → ℕ
event_id component code = u16 (bit_or (shl (u16 component) 8) (u16 code))

-- `UtilityLogWriteELog` is not part of the program: whether it accepts an event may depend on all
-- that it was given, the event at hand first.
module _ (write_elog : List ℕ → Bool) where
  -- The inner branch of `SystemSetELog`, at the entry `i`.
  pub send_code : ℕ → ℕ → ℕ → Elog → ℤ × Elog
  unfolding event_id
  send_code i component code s =
      let e = get_or s.elog_array i blank in
      let changed = set s.elog_array i (record e { code = code; updated = true }) in
      let sent = event_id component code ∷ s.written in
      let ret = if write_elog sent then pos 0 else neg enoent in
      let e' = get_or changed i blank in
      (ret, record s { elog_array = set changed i (record e' { updated = false }); written = sent })

  -- `SystemSetELog`
  unfoldable pub system_set_elog : ℕ → ℕ → Elog → ℤ × Elog
  unfolding component_to_entry send_code
  system_set_elog component code s = elim (component_to_entry component s) [
    | none ↦ (neg enoent, s)
    | some i ↦
        if (get_or s.elog_array i blank).code == code
        then (pos 0, s)
        else send_code i component code s
  ]
