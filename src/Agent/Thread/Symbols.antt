-- ===== src/Agent/Thread/Symbols.antt =====
-- The blocks of the queued native symbols over the agent thread.
use mathlib.Core.Option
use mathlib.Core.Option.{bind}
use aitrios_edge_device_core.Base.{
  if_both, ℕ, zero, suc, ◌+◌, ◌-◌, ◌≡◌, true, not, Option, none, some, arith, ℤ, length, is_nonzero,
}
use aitrios_edge_device_core.Agent.{
  Agent, Services, Outside, wdt_start, wdt_stop, evp_agent_start, agent_status_handler,
  init_proxy_cache, notifications_register,
}
use aitrios_edge_device_core.Agent.Thread.{
  note, library_call, out_disconnect_evp_agent, agent_rounds, run_connected, run_registered,
  run_platform, evp_agent_thread,
}
use aitrios_edge_device_core.Agent.Natives.Order.{flush_wasm_native_symbols_lem}
use aitrios_edge_device_core.Agent.Thread.Rounds.{round}
use aitrios_edge_device_core.Agent.Thread.Outcome.{flush_error}

-- Each queued symbol has its block, and no other block is left.
abbrev pub Allocated : {S : Type 0} → Agent S → Type 0
Allocated a = a.symbol_blocks ≡ length a.queue

abbrev pub EndsAllocated : {S : Type 0} → Option (Agent S) → Type 0
EndsAllocated none = Unit {0}
EndsAllocated (some a) = Allocated a

module _ {S : Type 0} (services : Services S) (o : Outside) where
  abbrev RoundsAllocated : Option (ℤ × Agent S) → Type 0
  RoundsAllocated none = Unit {0}
  RoundsAllocated (some r) = Allocated r.1

  agent_rounds-Allocated :
      (fuel n : ℕ) (a : Agent S) → Allocated a → RoundsAllocated (agent_rounds services o fuel n a)
  unfolding agent_rounds
  agent_rounds-Allocated zero n a h = tt
  agent_rounds-Allocated (suc fuel) n a h = if_both RoundsAllocated (o.stop_signal n) _ _ h (
      if_both RoundsAllocated (is_nonzero (o.loop n)) _ _ h
        (agent_rounds-Allocated fuel (n + 1) (round services o n a) h))

  ended-Allocated :
      (r : Option (ℤ × Agent S))
      → RoundsAllocated r
      → EndsAllocated (
          Option.map
            (λ r. out_disconnect_evp_agent services o r.0 (note services o wdt_stop true r.1))
            r)
  unfolding bind
  ended-Allocated none h = tt
  ended-Allocated (some r) h = h

  run_connected-Allocated :
      (fuel : ℕ) (a : Agent S) → Allocated a → EndsAllocated (run_connected services o fuel a)
  unfolding run_connected
  run_connected-Allocated fuel a h =
      if_both EndsAllocated o.watchdog _ _
        (ended-Allocated _ (
          agent_rounds-Allocated fuel 0 (record (note services o wdt_start true a) { ctxt = true })
            h))
        h

  run_registered-Allocated :
      (fuel : ℕ) (a : Agent S) → Allocated a → EndsAllocated (run_registered services o fuel a)
  unfolding run_registered
  run_registered-Allocated fuel a h =
      let started = library_call services o evp_agent_start (not (is_nonzero o.start)) a in
      let freed : started.symbol_blocks - length started.queue ≡ 0 = omega arith in
      rw (flush_wasm_native_symbols_lem o started) (
        if_both EndsAllocated (is_nonzero o.start) _ _ h (
          if_both EndsAllocated (is_nonzero (flush_error services o a)) _ _ freed (
            if_both EndsAllocated (is_nonzero o.connect) _ _ freed
              (run_connected-Allocated fuel _ freed))))

  run_platform-Allocated :
      (fuel : ℕ) (a : Agent S) → Allocated a → EndsAllocated (run_platform services o fuel a)
  unfolding run_platform
  run_platform-Allocated fuel a h =
      let r = services.status_disconnected a.services in
      let r' = services.init_cache r.1 in
      let r'' = services.register_handlers r'.1 in
      let shown = record (note services o agent_status_handler (not (is_nonzero r.0)) a) {
        services = r.1;
      } in
      let cached = record (note services o init_proxy_cache (not (is_nonzero r'.0)) shown) {
        services = r'.1;
      } in
      let subscribed =
        record (note services o notifications_register (not (is_nonzero r''.0)) cached) {
          services = r''.1;
        } in
      if_both EndsAllocated (is_nonzero r.0) _ _ h (
        if_both EndsAllocated (is_nonzero r'.0) _ _ h (
          if_both EndsAllocated (is_nonzero r''.0) _ _ h
            (run_registered-Allocated fuel subscribed h)))

  -- The thread frees the block of each symbol that it takes off the queue, and no other.
  pub evp_agent_thread-Allocated :
      (fuel : ℕ) (a : Agent S) → Allocated a → EndsAllocated (evp_agent_thread services o fuel a)
  unfolding evp_agent_thread
  evp_agent_thread-Allocated fuel a h =
      if_both EndsAllocated (is_nonzero o.set_name) _ _ h
        (if_both EndsAllocated (is_nonzero o.platform) _ _ h (run_platform-Allocated fuel _ h))
