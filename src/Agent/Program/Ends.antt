-- ===== src/Agent/Program/Ends.antt =====
-- How the thread of the whole program ends: with an empty cache, no block lost, and the codes of
-- the handlers in the table.
use aitrios_edge_device_core.Base.{
  if_intro, is_nonzero, codes, ◌∙◌, ℕ, ◌+◌, ◌<◌, ◌≡◌, inl, inr, true, false, none, some, Option,
  List, [], ◌∷◌, arith,
}
use aitrios_edge_device_core.Notifications.{Notifications}
use aitrios_edge_device_core.Notifications.Events.{IsReady, Handled, notify-Handled}
use aitrios_edge_device_core.Notifications.Register.{evp_agent_notifications_register}
use aitrios_edge_device_core.Notifications.Register.Order.{
  evp_agent_notifications_register_lem, register_codes-Holds,
}
use aitrios_edge_device_core.Esf.Proxy.{init_proxy_cache, deinit_proxy_cache}
use aitrios_edge_device_core.Esf.Proxy.Cache.{deinit_proxy_cache_lem}
use aitrios_edge_device_core.Esf.Proxy.Files.{
  deinit_proxy_cache-descriptors, init_proxy_cache-SameFiles,
}
use aitrios_edge_device_core.Esf.Read.Memory.{blocks_of}
use aitrios_edge_device_core.ConfigHooks.{get_config_impl}
use aitrios_edge_device_core.Status.Heap.{handle_status, handle_status-Draws}
use aitrios_edge_device_core.Agent.{Agent, Outside}
use aitrios_edge_device_core.Agent.Program.{
  Callback, notified, status, configured, Program, World, after_handler, call_back, call_back_all,
  program,
}
use aitrios_edge_device_core.Agent.Program.Drawn.{
  running_on, idle_after_error, init-Kept, Draws-Balanced, Draws-CacheIdle, get_config_impl-Gives,
}
use aitrios_edge_device_core.Agent.Thread.{evp_agent_thread}
use aitrios_edge_device_core.Agent.Thread.Rounds.{StopsAt}
use aitrios_edge_device_core.Agent.Thread.Symbols.{
  Allocated, EndsAllocated, evp_agent_thread-Allocated,
}
use aitrios_edge_device_core.Agent.Thread.Laws.{Laws, EndsIdle, evp_agent_thread-EndsIdle}
use aitrios_edge_device_core.Agent.Program.Stages.{
  AllReasoned, ProgramIdle, ProgramFilled, ProgramReady, ProgramDone, first_reasoned, rest_reasoned,
  IsFresh,
}

after_handler-ProgramReady :
    (others files : ℕ) (s : Program) (o : Option Notifications)
    → Handled o
    → ProgramReady others files s
    → ProgramReady others files (after_handler s o)
after_handler-ProgramReady others files s none h ready = absurd h
after_handler-ProgramReady others files s (some n) h (cache, old, fine) = (cache, h, fine)

module _ (w : World) (others files : ℕ) (left : w.store.asprintf_left ≡ none) where
  call_back-ProgramReady :
      (callback : Callback) (s : Program)
      → AllReasoned (callback ∷ [])
      → ProgramReady others files s
      → ProgramReady others files (call_back w callback s)
  call_back-ProgramReady (notified event) s h ready =
      after_handler-ProgramReady others files s _
        (notify-Handled w.platform event s.notifications h.0 ready.1) ready
  call_back-ProgramReady (status text) s h (cache, ready, fine) =
      let drawn =
        Draws-Balanced (others + s.given) files 0 s.esf
          (handle_status w.settings w.source w.store text s.sent s.esf).1
          (handle_status-Draws w.settings w.source w.store text s.sent s.esf) cache in
      ((omega arith, drawn.1), ready, fine)
  call_back-ProgramReady (configured key) s h (cache, ready, fine) =
      let r = get_config_impl w.settings w.source w.store key s.esf in
      let drawn =
        Draws-Balanced (others + s.given) files (blocks_of r.0) s.esf r.1
          (get_config_impl-Gives w.settings w.source w.store key s.esf left) cache in
      ((omega arith, drawn.1), ready, fine)

  call_back_all-ProgramReady :
      (callbacks : List Callback) (s : Program)
      → AllReasoned callbacks
      → ProgramReady others files s
      → ProgramReady others files (call_back_all w callbacks s)
  call_back_all-ProgramReady [] s h ready = ready
  call_back_all-ProgramReady (callback ∷ callbacks) s h ready =
      let next = call_back w callback s in
      if_intro (ProgramReady others files) s.faulted s (call_back_all w callbacks next)
        (λ crashed. absurd (let runs = ready.2 in cc))
        (λ runs.
          call_back_all-ProgramReady callbacks next (rest_reasoned callback callbacks h)
            (call_back-ProgramReady callback s (first_reasoned callback callbacks h) ready))

  register-IsReady :
      (n : Notifications)
      → IsFresh n
      → IsReady (record n { elog = (evp_agent_notifications_register w.subscribe n.elog).1 })
  register-IsReady n fresh = rw (evp_agent_notifications_register_lem w.subscribe n.elog) (record {
    blob = 0x40;
    mqtt = 0x0;
    holds = register_codes-Holds n.elog fresh.valid fresh.room fresh.no_blob fresh.no_mqtt;
    count = fresh.count;
  })

  program-Laws :
      ((n : ℕ) → AllReasoned (w.called_back n))
      → Laws
          (program w)
          (ProgramIdle others files)
          (ProgramFilled others files)
          (ProgramReady others files)
          (ProgramDone others files)
  program-Laws reasoned = record {
    status_keeps = λ s idle.
        let r =
          handle_status w.settings w.source w.store (some (codes "disconnected")) s.sent s.esf in
        let drawn =
          handle_status-Draws w.settings w.source w.store (some (codes "disconnected")) s.sent
            s.esf in
        running_on (λ r. ProgramIdle others files r.1) s
          (r.0.0, record s { sent = r.0.1; esf = r.1 }) idle.2
          (Draws-CacheIdle (others + s.given) files s.esf r.1 drawn idle.0, idle.1, idle.2);
    init_succeeds = λ s idle.
        let r = init_proxy_cache w.source s.esf in
        let kept = init-Kept w.source (others + s.given) s.esf idle.0.0 idle.0.1 in
        let same = init_proxy_cache-SameFiles w.source s.esf ∙ idle.0.2 in
        running_on (λ r. is_nonzero r.0 ≡ false → ProgramFilled others files r.1) s
          (r.0, record s { esf = r.1 }) idle.2 (λ ok. ((kept.0, same), idle.1, idle.2));
    init_fails = λ s idle.
        let r = init_proxy_cache w.source s.esf in
        let kept = init-Kept w.source (others + s.given) s.esf idle.0.0 idle.0.1 in
        let same = init_proxy_cache-SameFiles w.source s.esf ∙ idle.0.2 in
        running_on (λ r. is_nonzero r.0 ≡ true → ProgramIdle others files r.1) s
          (r.0, record s { esf = r.1 }) idle.2
          (λ error. (idle_after_error (others + s.given) files r kept same error, idle.1, idle.2));
    register_readies = λ s filled.
        let r = evp_agent_notifications_register w.subscribe s.notifications.elog in
        running_on (λ r. ProgramReady others files r.1) s
          (r.0, record s { notifications = record s.notifications { elog = r.1 }; active = r.2 })
          filled.2 (filled.0, register-IsReady s.notifications filled.1, filled.2);
    callbacks_keep = λ n s ready. call_back_all-ProgramReady (w.called_back n) s (reasoned n) ready;
    deinit_ends = λ s ready.
        let gone = deinit_proxy_cache_lem (others + s.given) s.esf ready.0.0 in
        let same = deinit_proxy_cache-descriptors s.esf ∙ ready.0.1 in
        if_intro (ProgramDone others files) s.faulted s
          (record s { esf = deinit_proxy_cache s.esf })
          (λ crashed. absurd (let runs = ready.2 in cc))
          (λ runs. ((gone.0, gone.1, same), inr ready.1, ready.2));
    idle_ends = λ s idle. (idle.0, inl idle.1, idle.2);
  }

-- The thread has ended, with its parts done and no block of a queued symbol lost.
abbrev pub ProgramEnds : ℕ → ℕ → Option (Agent Program) → Type 0
ProgramEnds others files none = ⊥
ProgramEnds others files (some a) = ProgramDone others files a.services × Allocated a

both_ends :
    (others files : ℕ) (end : Option (Agent Program))
    → EndsIdle (ProgramDone others files) end
    → EndsAllocated end
    → ProgramEnds others files end
both_ends others files none idle allocated = idle
both_ends others files (some a) idle allocated = (idle, allocated)

-- The thread runs with the program's own status handler, registration and proxy cache, and from the
-- start of the agent to its stop each call of the agent library calls back any sequence of the
-- handlers and of the hook for a configuration, with a reason where an event needs one. When some
-- round that the fuel allows is told to stop or fails, a failed asprintf leaves NULL in its
-- pointer, and at the start the cache is empty, no handler has faulted, the failure counter is
-- below 16, the table is valid with room for three codes and none of the handlers', and each queued
-- symbol has its block of the heap, the thread ends, whatever else fails: no handler has faulted,
-- the cache is empty, the blocks in use are those of others at the start, those of the
-- configurations given to the library, and one for each symbol still queued, as many files and
-- directories are open as at the start, and the codes of the handlers are registered with values
-- that the handlers can read, or nothing is registered yet.
pub program-Ends :
    (w : World) (o : Outside) (fuel k others files : ℕ) (a : Agent Program)
    → k < fuel
    → StopsAt (program w) o k
    → ((n : ℕ) → AllReasoned (w.called_back n))
    → w.store.asprintf_left ≡ none
    → ProgramIdle others files a.services
    → Allocated a
    → ProgramEnds others files (evp_agent_thread (program w) o fuel a)
program-Ends w o fuel k others files a h stop reasoned left idle allocated =
    both_ends others files (evp_agent_thread (program w) o fuel a)
      (evp_agent_thread-EndsIdle (program w) o (ProgramIdle others files)
        (ProgramFilled others files) (ProgramReady others files) (ProgramDone others files)
        (program-Laws w others files left reasoned) fuel k a h stop idle)
      (evp_agent_thread-Allocated (program w) o fuel a allocated)
