-- ===== src/Agent/Shutdown/Tests.antt =====
-- An execution in which the signal is set while a round of the loop runs.
use aitrios_edge_device_core.Base.{◌≤◌, refl, true, pos}
use aitrios_edge_device_core.Agent.Shutdown.{
  called, ended, joining, Threads, breaks, start, agent, IsSignalled, Run, Progresses,
  shutdown-Progresses,
}

abbrev in_round : Threads
in_round = record { signalled = true; loop = called (pos 0); main = joining }

abbrev out_of_loop : Threads
out_of_loop = record in_round { loop = ended (pos 0) }

in_round-IsSignalled : IsSignalled in_round
in_round-IsSignalled = record { on = refl; down = tt }

in_round-Run : Run in_round 1 out_of_loop
in_round-Run = agent start (breaks (pos 0) refl refl)

shutdown-Progresses_example : (◌≤◌ 1 2) × Progresses out_of_loop
shutdown-Progresses_example = shutdown-Progresses in_round-IsSignalled in_round-Run
