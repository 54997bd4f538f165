-- ===== src/Agent/Context/Dangling.antt =====
-- The pointer to the context that the agent thread leaves behind: nothing clears it.
use mathlib.Core.Logic.{if_pos}
use mathlib.Core.Path.{subst}
use native.Mathlib.Decide.{ℕ_discrete}
use aitrios_edge_device_core.Base.{ℕ, true, ◌≡◌, refl, ap, ◌∙◌, ◌∷◌}
use aitrios_edge_device_core.Agent.Context.{
  Memory, freed, context, connected, ended, Request, outside, requesting, Shared, start, goes,
  uses_it, Step, sets_up, gives_up, connects, frees, finishes, requests, refuses, serves, asks,
  returns_again, is_initial, is_running, reads_again, undeploys, completes, Steps, here, later,
}
use aitrios_edge_device_core.Agent.Context.Used.{Fits, Steps-IsSound}

-- A pointer that is set stays set.
Step-ctxt : {s t : Shared} → Step s t → s.ctxt ≡ true → t.ctxt ≡ true
Step-ctxt (connects at) on = refl
Step-ctxt (sets_up at) on = on
Step-ctxt (gives_up at) on = on
Step-ctxt (frees at) on = on
Step-ctxt (finishes at) on = on
Step-ctxt (requests i request at) on = on
Step-ctxt (refuses i request at) on = on
Step-ctxt (serves i request at) on = on
Step-ctxt (asks i at) on = on
Step-ctxt (returns_again i at) on = on
Step-ctxt (is_initial i at) on = on
Step-ctxt (is_running i at) on = on
Step-ctxt (reads_again i at) on = on
Step-ctxt (undeploys i ctxt at) on = on
Step-ctxt (completes i ctxt at) on = on

Steps-ctxt : {s t : Shared} → Steps s t → s.ctxt ≡ true → t.ctxt ≡ true
Steps-ctxt here on = on
Steps-ctxt (later steps step) on = Step-ctxt step (Steps-ctxt steps on)

pub Steps-Steps : {s t u : Shared} → Steps s t → Steps t u → Steps s u
Steps-Steps first here = first
Steps-Steps first (later steps step) = later (Steps-Steps first steps) step

-- If a run from the start reaches a state in which the agent thread has set the pointer to its
-- context and is in its loop, then from every later state in which that thread has ended, whatever
-- the threads did in between, any caller outside the backdoor functions can hand the freed context
-- to the library, with any of the three requests.
pub Steps-dangles :
    {s t : Shared} (i : ℕ) (request : Request)
    → Steps start s
    → s.agent ≡ connected
    → Steps s t
    → t.agent ≡ ended
    → t.callers i ≡ outside
    → (u : Shared) × Steps t u × (u.uses ≡ context freed ∷ t.uses)
Steps-dangles {s} {t} i request before at_loop after end at =
    let set : Fits connected s.memory s.ctxt = rw at_loop at (Steps-IsSound before).fits in
    let on : t.ctxt ≡ true = Steps-ctxt after set.1 in
    let read = goes t i (requesting request t.ctxt) in
    let has : read.callers i ≡ requesting request true =
      if_pos (ℕ_discrete i i) refl (requesting request t.ctxt) (t.callers i)
      ∙ ap (requesting request) on in
    let gone : t.memory ≡ freed =
      subst (λ pc. Fits pc t.memory t.ctxt) end (Steps-IsSound (Steps-Steps before after)).fits in
    (
      uses_it read i true outside,
      later (later here (requests i request at)) (serves i request has),
      ap (λ (m : Memory). context m ∷ t.uses) gone,
    )
