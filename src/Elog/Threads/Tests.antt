-- ===== src/Elog/Threads/Tests.antt =====
-- A run of two threads: one reads a component that is not registered, the other has begun to
-- register it.
use native.Mathlib.Decide.{ℕ_discrete}
use aitrios_edge_device_core.Base.{ℕ, refl, Bool, true, none, some, List, [], ◌∷◌, pos, codes}
use aitrios_edge_device_core.Elog.{elog_err, component_to_entry}
use aitrios_edge_device_core.Elog.Invariant.{static_elog}
use aitrios_edge_device_core.Elog.Threads.{
  reg, get_code, outside, entered, wrote_component, leaving, Users, update, move, put, locks,
  writes_component, reads_none, unlocks, Accesses, here, later,
}
use aitrios_edge_device_core.Elog.Threads.Sequential.{IsSequential}
use aitrios_edge_device_core.Elog.Threads.Refined.{at_rest, Accesses-IsSequential}

abbrev accepts : List ℕ → Bool
accepts events = true

abbrev reading : Users
reading = record (at_rest accepts static_elog) {
  holder = some 0;
  places = update (λ i. outside) 0 (entered (get_code 0xf0));
}

abbrev read : Users
read = move reading 0 (leaving (get_code 0xf0) (pos elog_err)) static_elog

abbrev done : Users
done = record read {
  holder = none;
  places = update read.places 0 outside;
  history = (get_code 0xf0, pos elog_err) ∷ [];
}

abbrev registering : Users
registering = record done {
  holder = some 1;
  places = update done.places 1 (entered (reg 0xf0 0x40 (codes "Warning.")));
}

abbrev writing : Users
writing =
    move registering 1 (wrote_component 0xf0 0x40 (codes "Warning."))
      (put (λ e. record e { component = 0xf0 }) 0 static_elog)

run : Accesses accepts (at_rest accepts static_elog) writing
unfolding ℕ_discrete component_to_entry
run =
    later
      (later
        (later
          (later (later here (locks 0 (get_code 0xf0) refl refl)) (reads_none 0 0xf0 refl refl))
          (unlocks 0 (get_code 0xf0) (pos elog_err) refl))
        (locks 1 (reg 0xf0 0x40 (codes "Warning.")) refl refl))
      (writes_component 1 0xf0 0x40 (codes "Warning.") refl refl)

Accesses-IsSequential_example : IsSequential accepts static_elog writing
Accesses-IsSequential_example = Accesses-IsSequential accepts static_elog run
