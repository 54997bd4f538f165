-- ===== src/Elog/Registry/Tests.antt =====
-- A run of two threads to its end: one registers a component, the other reads it and sets its code.
use native.Mathlib.Decide.{ℕ_discrete}
use aitrios_edge_device_core.Base.{
  ℕ, refl, ◌≡◌, Bool, true, none, some, List, ◌∷◌, ℤ, pos, codes, CString, ◌↔◌, ◌<◌, arith, false,
}
use aitrios_edge_device_core.Elog.{Elog, component_to_entry, event_id, system_reg_elog}
use aitrios_edge_device_core.Elog.Invariant.{
  IsValid, system_reg_elog-IsValid, static_elog, static_elog-IsValid,
}
use aitrios_edge_device_core.Elog.Codes.{code_of}
use aitrios_edge_device_core.Elog.Threads.{
  Operation, reg, get_code, outside, entered, wrote_component, wrote_updated, wrote_code, wrote_msg,
  leaving, Users, update, move, put, locks, writes_component, writes_updated, writes_code,
  writes_msg, counts, reads, unlocks, set_code, changed, marked, sent, changes, marks, sends,
  clears, note_event, Accesses, here, later,
}
use aitrios_edge_device_core.Elog.Threads.Refined.{at_rest}
use aitrios_edge_device_core.Elog.Registry.{registry, registry-≡}
use aitrios_edge_device_core.Elog.Registry.Shared.{kept, answers, results, Accesses-promise}
use aitrios_edge_device_core.Elog.Registry.Abstract.{Indistinguishable, Indistinguishable-registry}
use aitrios_edge_device_core.Elog.Registry.Log.{IsFaithful, Accesses-IsFaithful}

abbrev accepts : List ℕ → Bool
accepts events = true

abbrev text : CString
text = codes "Warning."

abbrev lock : Users → ℕ → Operation → Users
lock s i op = record s { holder = some i; places = update s.places i (entered op) }

abbrev unlock : Users → ℕ → Operation → ℤ → Users
unlock s i op ret = record s {
  holder = none;
  places = update s.places i outside;
  history = (op, ret) ∷ s.history;
}

abbrev component_written : Users
component_written =
    move (lock (at_rest accepts static_elog) 0 (reg 0xf0 0x40 text)) 0
      (wrote_component 0xf0 0x40 text) (put (λ e. record e { component = 0xf0 }) 0 static_elog)

abbrev updated_written : Users
updated_written =
    move component_written 0 (wrote_updated 0xf0 0x40 text)
      (put (λ e. record e { updated = false }) 0 component_written.elog)

abbrev code_written : Users
code_written =
    move updated_written 0 (wrote_code 0xf0 0x40 text)
      (put (λ e. record e { code = 0x40 }) 0 updated_written.elog)

abbrev msg_written : Users
msg_written =
    move code_written 0 (wrote_msg 0xf0 0x40 text)
      (put (λ e. record e { msg = text }) 0 code_written.elog)

abbrev registered : Users
registered =
    unlock
      (move msg_written 0 (leaving (reg 0xf0 0x40 text) (pos 0))
        (record msg_written.elog { last = 1 }))
      0 (reg 0xf0 0x40 text) (pos 0)

abbrev read : Users
read =
    unlock
      (move (lock registered 1 (get_code 0xf0)) 1 (leaving (get_code 0xf0) (pos 0x40))
        registered.elog)
      1 (get_code 0xf0) (pos 0x40)

registers : Accesses accepts (at_rest accepts static_elog) registered
unfolding ℕ_discrete
registers =
    later
      (later
        (later
          (later
            (later
              (later (later here (locks 0 (reg 0xf0 0x40 text) refl refl))
                (writes_component 0 0xf0 0x40 text refl refl))
              (writes_updated 0 0xf0 0x40 text refl))
            (writes_code 0 0xf0 0x40 text refl))
          (writes_msg 0 0xf0 0x40 text refl))
        (counts 0 0xf0 0x40 text refl))
      (unlocks 0 (reg 0xf0 0x40 text) (pos 0) refl)

reads_back : Accesses accepts (at_rest accepts static_elog) read
unfolding ℕ_discrete component_to_entry
reads_back =
    later (later (later registers (locks 1 (get_code 0xf0) refl refl)) (reads 1 0xf0 0 refl refl))
      (unlocks 1 (get_code 0xf0) (pos 0x40) refl)

Accesses-promise_example :
    (registry read.elog ≡ kept accepts read.history (registry static_elog))
    × results accepts read.history ≡ answers accepts read.history (registry static_elog)
Accesses-promise_example =
    Accesses-promise accepts reads_back static_elog-IsValid
      (omega arith, ((omega arith, omega arith), tt)) refl

-- A third call sets the code that the first one has registered to another, and an event is sent.
abbrev setting : Users
setting = lock read 1 (set_code 0xf0 0x41)

abbrev code_changed : Users
code_changed =
    move setting 1 (changed 0xf0 0x41 0) (put (λ e. record e { code = 0x41 }) 0 read.elog)

abbrev code_marked : Users
code_marked =
    move code_changed 1 (marked 0xf0 0x41 0)
      (put (λ e. record e { updated = true }) 0 code_changed.elog)

abbrev event_sent : Users
event_sent =
    move code_marked 1 (sent 0xf0 0x41 0 (pos 0)) (note_event (event_id 0xf0 0x41) code_marked.elog)

abbrev logged : Users
logged =
    unlock
      (move event_sent 1 (leaving (set_code 0xf0 0x41) (pos 0))
        (put (λ e. record e { updated = false }) 0 event_sent.elog))
      1 (set_code 0xf0 0x41) (pos 0)

logs : Accesses accepts (at_rest accepts static_elog) logged
unfolding ℕ_discrete component_to_entry
logs =
    later
      (later
        (later
          (later
            (later (later reads_back (locks 1 (set_code 0xf0 0x41) refl refl))
              (changes 1 0xf0 0x41 0 refl refl refl))
            (marks 1 0xf0 0x41 0 refl))
          (sends 1 0xf0 0x41 0 refl))
        (clears 1 0xf0 0x41 0 (pos 0) refl))
      (unlocks 1 (set_code 0xf0 0x41) (pos 0) refl)

Accesses-IsFaithful_example : IsFaithful (registry logged.elog)
Accesses-IsFaithful_example =
    Accesses-IsFaithful accepts logs static_elog-IsValid refl
      ((omega arith, omega arith), (omega arith, ((omega arith, omega arith), tt))) refl

-- Two components that are registered in the one order and in the other.
abbrev in_order : Elog
in_order = system_reg_elog 0xf1 0x0 text (system_reg_elog 0xf0 0x40 text static_elog)

abbrev in_reverse : Elog
in_reverse = system_reg_elog 0xf0 0x40 text (system_reg_elog 0xf1 0x0 text static_elog)

registered-IsValid :
    (c c' v v' : ℕ)
    → c < 256
    → c' < 256
    → v < 256
    → v' < 256
    → IsValid (system_reg_elog c v text (system_reg_elog c' v' text static_elog))
registered-IsValid c c' v v' hc hc' hv hv' =
    system_reg_elog-IsValid c v text _ hc hv
      (system_reg_elog-IsValid c' v' text static_elog hc' hv' static_elog-IsValid)

in_order-IsValid : IsValid in_order
in_order-IsValid =
    registered-IsValid 0xf1 0xf0 0x0 0x40 (omega arith) (omega arith) (omega arith) (omega arith)

in_reverse-IsValid : IsValid in_reverse
in_reverse-IsValid =
    registered-IsValid 0xf0 0xf1 0x40 0x0 (omega arith) (omega arith) (omega arith) (omega arith)

Indistinguishable-registry_example :
    Indistinguishable accepts in_order in_reverse ↔ (registry in_order ≡ registry in_reverse)
Indistinguishable-registry_example =
    Indistinguishable-registry accepts in_order in_reverse in_order-IsValid in_reverse-IsValid

-- The callers cannot tell the order.
same_registry : registry in_order ≡ registry in_reverse
unfolding system_reg_elog code_of
same_registry = registry-≡ _ _ (λ c. ground arith) refl refl

order_hidden : Indistinguishable accepts in_order in_reverse
order_hidden =
    (Indistinguishable-registry accepts in_order in_reverse in_order-IsValid in_reverse-IsValid).1
      same_registry
