-- ===== src/Agent/Program/Log.antt =====
-- The event log that the whole program leaves.
use aitrios_edge_device_core.Base.{
  if_intro, if_both, ◌≡◌, false, ℤ, ℕ, ◌<◌, List, [], ◌∷◌, Option, none, some,
}
use aitrios_edge_device_core.Notifications.{Notifications}
use aitrios_edge_device_core.Notifications.Log.{Logs}
use aitrios_edge_device_core.Notifications.Log.Handlers.{
  LogsHandled, notify-Logs, register_codes-Logs,
}
use aitrios_edge_device_core.Notifications.Register.{evp_agent_notifications_register}
use aitrios_edge_device_core.Agent.{Agent, Outside}
use aitrios_edge_device_core.Agent.Program.Stages.{AllReasoned, first_reasoned, rest_reasoned}
use aitrios_edge_device_core.Agent.Program.{
  Callback, notified, status, configured, Program, World, after_handler, call_back, call_back_all,
  program,
}
use aitrios_edge_device_core.Agent.Thread.{evp_agent_thread}
use aitrios_edge_device_core.Agent.Thread.Rounds.{StopsAt}
use aitrios_edge_device_core.Agent.Thread.Laws.{Laws, EndsIdle, evp_agent_thread-EndsIdle}

-- No handler has faulted, the table is valid, and the event log tells its codes.
abbrev pub ProgramLogs : Program → Type 0
ProgramLogs s = Logs s.notifications.elog × s.faulted ≡ false

module _ (w : World) where
  after_handler-Logs :
      (s : Program) (o : Option Notifications)
      → LogsHandled w.platform o
      → ProgramLogs s
      → ProgramLogs (after_handler s o)
  after_handler-Logs s none after h = absurd after
  after_handler-Logs s (some n) after h = (after, h.1)

  call_back-Logs :
      (callback : Callback) (s : Program)
      → AllReasoned (callback ∷ [])
      → ProgramLogs s
      → ProgramLogs (call_back w callback s)
  call_back-Logs (notified event) s given h =
      after_handler-Logs s _ (notify-Logs w.platform event s.notifications given.0 h.0) h
  call_back-Logs (status text) s given h = h
  call_back-Logs (configured key) s given h = h

  call_back_all-Logs :
      (callbacks : List Callback) (s : Program)
      → AllReasoned callbacks
      → ProgramLogs s
      → ProgramLogs (call_back_all w callbacks s)
  call_back_all-Logs [] s given h = h
  call_back_all-Logs (callback ∷ callbacks) s given h =
      let next = call_back w callback s in
      if_intro ProgramLogs s.faulted s (call_back_all w callbacks next) (λ crashed. h)
        (λ runs.
          call_back_all-Logs callbacks next (rest_reasoned callback callbacks given)
            (call_back-Logs callback s (first_reasoned callback callbacks given) h))

  logs-Laws :
      ((n : ℕ) → AllReasoned (w.called_back n))
      → Laws (program w) ProgramLogs ProgramLogs ProgramLogs ProgramLogs
  unfolding evp_agent_notifications_register
  logs-Laws reasoned =
      let KeptLogs = λ (r : ℤ × Program). ProgramLogs r.1 in
      record {
        status_keeps = λ s h. if_both KeptLogs s.faulted _ _ h h;
        init_succeeds = λ s h fine. if_both KeptLogs s.faulted _ _ h h;
        init_fails = λ s h error. if_both KeptLogs s.faulted _ _ h h;
        register_readies = λ s h.
            if_both KeptLogs s.faulted _ _ h (register_codes-Logs s.notifications.elog h.0, h.1);
        callbacks_keep = λ n s h. call_back_all-Logs (w.called_back n) s (reasoned n) h;
        deinit_ends = λ s h. if_both ProgramLogs s.faulted _ _ h h;
        idle_ends = λ s h. h;
      }

  -- The thread runs with the program's own parts, and each call of the agent library calls back any
  -- sequence of the handlers and of the hook for a configuration, with a reason where an event
  -- needs one. When some round that the fuel allows is told to stop or fails, and at the start no
  -- handler has faulted, the table is valid and the events handed to the event log tell its codes
  -- and only changes, as they do when there is no event, the thread ends, and the same holds again,
  -- whatever fails.
  pub program-Logs :
      (o : Outside) (fuel k : ℕ) (a : Agent Program)
      → k < fuel
      → StopsAt (program w) o k
      → ((n : ℕ) → AllReasoned (w.called_back n))
      → ProgramLogs a.services
      → EndsIdle ProgramLogs (evp_agent_thread (program w) o fuel a)
  program-Logs o fuel k a h stop reasoned logs =
      evp_agent_thread-EndsIdle (program w) o ProgramLogs ProgramLogs ProgramLogs ProgramLogs
        (logs-Laws reasoned) fuel k a h stop logs
