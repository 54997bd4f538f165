-- ===== src/Agent/Thread.antt =====
-- `evp_agent_thread`: evp-agent.c, lines 226 to 317. The labels of the source are functions, each
-- of which goes on with the next.
pub mod Levels
pub mod Rounds
pub mod Resources
pub mod Outcome
pub mod Laws
pub mod Symbols
use mathlib.Core.Option
use aitrios_edge_device_core.Base.{
  ℕ, zero, suc, ◌+◌, Bool, true, false, not, ◌||◌, Option, none, some, List, [], ◌∷◌, if◌then◌else◌,
  ℤ, pos, is_nonzero, length,
}
use aitrios_edge_device_core.Agent.{
  Agent, Services, Outside, Call, pthread_setname, evp_agent_setup, evp_agent_platform_register,
  agent_status_handler, init_proxy_cache, notifications_register, evp_agent_start,
  flush_wasm_native_symbols, evp_agent_connect, wdt_start, wdt_keepalive, evp_agent_loop, wdt_stop,
  evp_agent_disconnect, evp_agent_stop, deinit_proxy_cache, evp_agent_free,
}
use aitrios_edge_device_core.Agent.Natives.{flush_wasm_native_symbols as flush}

module _ {S : Type 0} (services : Services S) (o : Outside) where
  -- A call, with whether it succeeded, is noted.
  abbrev pub note : Call → Bool → Agent S → Agent S
  note call success a = record a { calls = (call, success) ∷ a.calls }

  -- A call of the agent library from the start of the agent to its stop, with what it calls back.
  abbrev pub library_call : Call → Bool → Agent S → Agent S
  library_call call success a = record (note call success a) {
    services = services.callbacks (length a.calls) a.services;
  }

  abbrev pub out_free_evp_agent : ℤ → Agent S → Agent S
  out_free_evp_agent ret a = record (note evp_agent_free true a) { ret = ret }

  abbrev pub out_deinit_proxy_cache : ℤ → Agent S → Agent S
  out_deinit_proxy_cache ret a =
      out_free_evp_agent ret
        (record (note deinit_proxy_cache true a) { services = services.deinit_cache a.services })

  abbrev pub out_stop_evp_agent : ℤ → Agent S → Agent S
  out_stop_evp_agent ret a = out_deinit_proxy_cache ret (library_call evp_agent_stop true a)

  abbrev pub out_disconnect_evp_agent : ℤ → Agent S → Agent S
  out_disconnect_evp_agent ret a = out_stop_evp_agent ret (library_call evp_agent_disconnect true a)

  -- The `while` loop from the n-th round on, with fuel; `none` means that the fuel ran out.
  pub agent_rounds : ℕ → ℕ → Agent S → Option (ℤ × Agent S)
  agent_rounds zero n a = none
  agent_rounds (suc fuel) n a =
      let ret = o.loop n in
      let a' = library_call evp_agent_loop (not (is_nonzero ret)) (note wdt_keepalive true a) in
      let next = agent_rounds fuel (n + 1) a' in
      if o.stop_signal n
      then some (ret, record a' { signalled = true })
      else if is_nonzero ret
      then some (ret, a')
      else next

  -- From the start of the watchdog on.
  pub run_connected : ℕ → Agent S → Option (Agent S)
  unfolding agent_rounds
  run_connected fuel a =
      if o.watchdog
      then Option.map (λ r. out_disconnect_evp_agent r.0 (note wdt_stop true r.1))
          (agent_rounds fuel 0 (record (note wdt_start true a) { ctxt = true }))
      else some (out_disconnect_evp_agent (pos 0) (note wdt_start false a))

  -- From `evp_agent_start` on.
  pub run_registered : ℕ → Agent S → Option (Agent S)
  unfolding run_connected flush
  run_registered fuel a =
      let started = library_call evp_agent_start (not (is_nonzero o.start)) a in
      let (flush_ret, flushed) = flush o started in
      let flushed' = note flush_wasm_native_symbols (not (is_nonzero flush_ret)) flushed in
      let connected = library_call evp_agent_connect (not (is_nonzero o.connect)) flushed' in
      let rest = run_connected fuel connected in
      if is_nonzero o.start
      then some (out_deinit_proxy_cache o.start started)
      else if is_nonzero flush_ret
      then some (out_stop_evp_agent flush_ret flushed')
      else if is_nonzero o.connect
      then some (out_stop_evp_agent o.connect connected)
      else rest

  -- From the status handler on.
  pub run_platform : ℕ → Agent S → Option (Agent S)
  unfolding run_registered
  run_platform fuel a =
      let (status_ret, s) = services.status_disconnected a.services in
      let shown = record (note agent_status_handler (not (is_nonzero status_ret)) a) {
        services = s;
      } in
      let (cache_ret, s') = services.init_cache s in
      let cached = record (note init_proxy_cache (not (is_nonzero cache_ret)) shown) {
        services = s';
      } in
      let (register_ret, s'') = services.register_handlers s' in
      let subscribed = record (note notifications_register (not (is_nonzero register_ret)) cached) {
        services = s'';
      } in
      let rest = run_registered fuel subscribed in
      if is_nonzero status_ret
      then some (out_free_evp_agent status_ret shown)
      else if is_nonzero cache_ret
      then some (out_free_evp_agent cache_ret cached)
      else if is_nonzero register_ret
      then some (out_deinit_proxy_cache register_ret subscribed)
      else rest

  -- The whole thread, up to its exit.
  unfoldable pub evp_agent_thread : ℕ → Agent S → Option (Agent S)
  unfolding run_platform
  evp_agent_thread fuel a =
      let named =
        note pthread_setname (not (is_nonzero o.set_name)) (record a { started = true }) in
      let ready =
        note evp_agent_platform_register (not (is_nonzero o.platform))
          (note evp_agent_setup true named) in
      let rest = run_platform fuel ready in
      if is_nonzero o.set_name
      then some (record named { ret = o.set_name })
      else if is_nonzero o.platform
      then some (out_free_evp_agent o.platform ready)
      else rest
