-- ===== src/Elog/Threads.antt =====
-- The operations of log.c as threads run them: src/evp-agent/src/log.c, lines 57 to 65 and 116 to
-- 174, one write to the shared memory at a time, with the mutex. The search for an entry, which
-- only reads, is one step with the test behind it.
pub mod Sequential
pub mod Steps
pub mod Refined
mod Tests
use mathlib.Core.Logic.{ite}
use native.Mathlib.Decide.{ℕ_discrete}
use aitrios_edge_device_core.Base.{
  ℕ, suc, ◌≡◌, Bool, true, false, Option, none, some, List, [], ◌∷◌, ltb, ◌==◌, if◌then◌else◌, ℤ,
  pos, neg, enoent, get_or, set, CString,
}
use aitrios_edge_device_core.Elog.{
  Entry, blank, Elog, max_elog_entry, elog_err, component_to_entry, event_id, system_reg_elog,
  system_set_elog, system_get_elog,
}

-- A call of one of the three operations.
pub data Operation : Type 0 where
  reg : ℕ → ℕ → CString → Operation
  set_code : ℕ → ℕ → Operation
  get_code : ℕ → Operation

-- Where a thread stands: outside, behind `elog_lock`, behind each write of `SystemRegElog`, behind
-- each write of `SystemSetELog` at the entry of its index, and before `elog_unlock` with its
-- result, which is 0 for `SystemRegElog`.
pub data Place : Type 0 where
  outside : Place
  entered : Operation → Place
  wrote_component wrote_updated wrote_code wrote_msg : ℕ → ℕ → CString → Place
  changed marked : ℕ → ℕ → ℕ → Place
  sent : ℕ → ℕ → ℕ → ℤ → Place
  leaving : Operation → ℤ → Place

-- The shared memory, with the thread that has `elog_entry_mutex`, and where the threads stand.
-- `history` are the calls that have given the mutex back with their results, the latest first.
pub record Users : Type 0 where
  pub elog : Elog
  pub holder : Option ℕ
  pub places : ℕ → Place
  pub history : List (Operation × ℤ)

-- The places after one thread has moved on.
abbrev pub update : (ℕ → Place) → ℕ → Place → ℕ → Place
update places i place j = ite (ℕ_discrete i j) place (places j)

abbrev pub move : Users → ℕ → Place → Elog → Users
move s i place elog = record s { elog = elog; places = update s.places i place }

-- A write to the entry of an index.
abbrev pub put : (Entry → Entry) → ℕ → Elog → Elog
put f k e = record e { elog_array = set e.elog_array k (f (get_or e.elog_array k blank)) }

abbrev pub code_at : ℕ → Elog → ℕ
code_at k e = (get_or e.elog_array k blank).code

abbrev pub note_event : ℕ → Elog → Elog
note_event id e = record e { written = id ∷ e.written }

module _ (write_elog : List ℕ → Bool) where
  -- The call of `UtilityLogWriteELog`, as the result of `SystemSetELog`.
  abbrev pub event_result : ℕ → Elog → ℤ
  event_result id e = if write_elog (id ∷ e.written) then pos 0 else neg enoent

  -- The whole of an operation: its result and the table.
  abbrev pub perform : Operation → Elog → ℤ × Elog
  perform (reg component init_value msg) e = (pos 0, system_reg_elog component init_value msg e)
  perform (set_code component code) e = system_set_elog write_elog component code e
  perform (get_code component) e = (pos (system_get_elog component e), e)

  -- An access of one thread.
  pub data Access (s : Users) : Users → Type 0 where
    locks :
        (i : ℕ) (op : Operation)
        → s.holder ≡ none
        → s.places i ≡ outside
        → Access s (record s { holder = some i; places = update s.places i (entered op) })
    finds_full :
        (i component value : ℕ) (msg : CString)
        → s.places i ≡ entered (reg component value msg)
        → ltb s.elog.last max_elog_entry ≡ false
        → Access s (move s i (leaving (reg component value msg) (pos 0)) s.elog)
    writes_component :
        (i component value : ℕ) (msg : CString)
        → s.places i ≡ entered (reg component value msg)
        → ltb s.elog.last max_elog_entry ≡ true
        → Access s (
            move s i
              (wrote_component component value msg)
              (put (λ e. record e { component = component }) s.elog.last s.elog))
    writes_updated :
        (i component value : ℕ) (msg : CString)
        → s.places i ≡ wrote_component component value msg
        → Access s (
            move s i
              (wrote_updated component value msg)
              (put (λ e. record e { updated = false }) s.elog.last s.elog))
    writes_code :
        (i component value : ℕ) (msg : CString)
        → s.places i ≡ wrote_updated component value msg
        → Access s (
            move s i
              (wrote_code component value msg)
              (put (λ e. record e { code = value }) s.elog.last s.elog))
    writes_msg :
        (i component value : ℕ) (msg : CString)
        → s.places i ≡ wrote_code component value msg
        → Access s (
            move s i
              (wrote_msg component value msg)
              (put (λ e. record e { msg = msg }) s.elog.last s.elog))
    counts :
        (i component value : ℕ) (msg : CString)
        → s.places i ≡ wrote_msg component value msg
        → Access s (
            move s i
              (leaving (reg component value msg) (pos 0))
              (record s.elog { last = suc s.elog.last }))
    misses :
        (i component code : ℕ)
        → s.places i ≡ entered (set_code component code)
        → component_to_entry component s.elog ≡ none
        → Access s (move s i (leaving (set_code component code) (neg enoent)) s.elog)
    finds_same :
        (i component code k : ℕ)
        → s.places i ≡ entered (set_code component code)
        → component_to_entry component s.elog ≡ some k
        → (code_at k s.elog == code) ≡ true
        → Access s (move s i (leaving (set_code component code) (pos 0)) s.elog)
    changes :
        (i component code k : ℕ)
        → s.places i ≡ entered (set_code component code)
        → component_to_entry component s.elog ≡ some k
        → (code_at k s.elog == code) ≡ false
        → Access s
            (move s i (changed component code k) (put (λ e. record e { code = code }) k s.elog))
    marks :
        (i component code k : ℕ)
        → s.places i ≡ changed component code k
        → Access s
            (move s i (marked component code k) (put (λ e. record e { updated = true }) k s.elog))
    sends :
        (i component code k : ℕ)
        → s.places i ≡ marked component code k
        → Access s (
            move s i
              (sent component code k (event_result (event_id component code) s.elog))
              (note_event (event_id component code) s.elog))
    clears :
        (i component code k : ℕ) (ret : ℤ)
        → s.places i ≡ sent component code k ret
        → Access s (
            move s i
              (leaving (set_code component code) ret)
              (put (λ e. record e { updated = false }) k s.elog))
    reads_none :
        (i component : ℕ)
        → s.places i ≡ entered (get_code component)
        → component_to_entry component s.elog ≡ none
        → Access s (move s i (leaving (get_code component) (pos elog_err)) s.elog)
    reads :
        (i component k : ℕ)
        → s.places i ≡ entered (get_code component)
        → component_to_entry component s.elog ≡ some k
        → Access s (move s i (leaving (get_code component) (pos (code_at k s.elog))) s.elog)
    unlocks :
        (i : ℕ) (op : Operation) (ret : ℤ)
        → s.places i ≡ leaving op ret
        → Access s (record s {
          holder = none;
          places = update s.places i outside;
          history = (op, ret) ∷ s.history;
        })

  pub data Accesses (s : Users) : Users → Type 0 where
    here : Accesses s s
    later : {t u : Users} → Accesses s t → Access t u → Accesses s u
