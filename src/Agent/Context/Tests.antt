-- ===== src/Agent/Context/Tests.antt =====
-- A run of the agent thread with one caller, up to a call after its end.
use native.Mathlib.Decide.{ℕ_discrete}
use aitrios_edge_device_core.Base.{refl, true, ◌≡◌, [], ◌∷◌}
use aitrios_edge_device_core.Agent.Context.{
  live, freed, context, connected, finishing, ended, get_agent_status, outside, requesting, Shared,
  start, goes, uses_it, sets_up, connects, frees, finishes, requests, serves, Steps, here, later,
}
use aitrios_edge_device_core.Agent.Context.Used.{AllProper, Steps-AllProper}
use aitrios_edge_device_core.Agent.Context.Dangling.{Steps-Steps, Steps-dangles}

abbrev running : Shared
running = record start { memory = live; ctxt = true; agent = connected }

abbrev served : Shared
served = uses_it (goes running 0 (requesting get_agent_status true)) 0 true outside

abbrev gone : Shared
gone = record served { memory = freed; agent = finishing }

-- A caller is handed the freed context while the thread still runs.
abbrev misled : Shared
misled = uses_it (goes gone 0 (requesting get_agent_status true)) 0 true outside

abbrev over : Shared
over = record misled { agent = ended }

to_loop : Steps start running
to_loop = later (later here (sets_up refl)) (connects refl)

from_loop : Steps running over
unfolding ℕ_discrete
from_loop =
    later
      (later
        (later
          (later
            (later (later here (requests 0 get_agent_status refl)) (serves 0 get_agent_status refl))
            (frees refl))
          (requests 0 get_agent_status refl))
        (serves 0 get_agent_status refl))
      (finishes refl)

Steps-AllProper_example : AllProper ended (context freed ∷ context live ∷ [])
Steps-AllProper_example = Steps-AllProper (Steps-Steps to_loop from_loop)

Steps-dangles_example :
    (t : Shared) × Steps over t × (t.uses ≡ context freed ∷ context freed ∷ context live ∷ [])
unfolding ℕ_discrete
Steps-dangles_example = Steps-dangles 1 get_agent_status to_loop refl from_loop refl refl
