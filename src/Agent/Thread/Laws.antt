-- ===== src/Agent/Thread/Laws.antt =====
-- What the thread asks of the parts of the program that it calls, and what it leaves of them.
use mathlib.Core.Option
use mathlib.Core.Option.{bind}
use aitrios_edge_device_core.Base.{
  if_intro, if_three, ℕ, zero, suc, ◌+◌, ◌<◌, ◌≡◌, true, false, not, Option, none, some, arith, ℤ,
  pos, length, is_nonzero,
}
use aitrios_edge_device_core.Agent.{
  Agent, Services, Outside, wdt_start, wdt_stop, evp_agent_start, agent_status_handler,
  init_proxy_cache, notifications_register,
}
use aitrios_edge_device_core.Agent.Thread.{
  note, library_call, out_disconnect_evp_agent, agent_rounds, run_connected, run_registered,
  run_platform, evp_agent_thread,
}
use aitrios_edge_device_core.Agent.Thread.Rounds.{StopsAt, round}
use aitrios_edge_device_core.Agent.Thread.Outcome.{flush_error}
use aitrios_edge_device_core.Agent.Natives.Order.{flush_wasm_native_symbols_lem}

-- The parts are idle before the proxy cache is filled, filled until the handlers are registered, and
-- ready while the agent library can call back; when the cache is given up they are done.
pub record Laws {S : Type 0} (services : Services S) (Idle Filled Ready Done : S → Type 0)
    : Type 0 where
  pub status_keeps : (s : S) → Idle s → Idle (services.status_disconnected s).1
  pub init_succeeds :
      (s : S)
      → Idle s
      → is_nonzero (services.init_cache s).0 ≡ false
      → Filled (services.init_cache s).1
  pub init_fails :
      (s : S)
      → Idle s
      → is_nonzero (services.init_cache s).0 ≡ true
      → Idle (services.init_cache s).1
  pub register_readies : (s : S) → Filled s → Ready (services.register_handlers s).1
  pub callbacks_keep : (n : ℕ) (s : S) → Ready s → Ready (services.callbacks n s)
  pub deinit_ends : (s : S) → Ready s → Done (services.deinit_cache s)
  pub idle_ends : (s : S) → Idle s → Done s

-- The thread has ended and its parts are like this.
abbrev pub EndsIdle : {S : Type 0} → (S → Type 0) → Option (Agent S) → Type 0
EndsIdle Done none = ⊥
EndsIdle Done (some a) = Done a.services

module _ {S : Type 0} (services : Services S) (o : Outside) (Idle Filled Ready Done : S → Type 0)
    (laws : Laws services Idle Filled Ready Done) where
  abbrev RoundsReady : Option (ℤ × Agent S) → Type 0
  RoundsReady none = ⊥
  RoundsReady (some r) = Ready r.1.services

  agent_rounds-RoundsReady :
      (fuel n k : ℕ) (a : Agent S)
      → k < fuel
      → StopsAt services o (n + k)
      → Ready a.services
      → RoundsReady (agent_rounds services o fuel n a)
  unfolding agent_rounds
  agent_rounds-RoundsReady zero n k a h stop ready = absurd (omega arith)
  agent_rounds-RoundsReady (suc fuel) n zero a h stop ready =
      let here : n + 0 ≡ n = omega arith in
      let ends : StopsAt services o n = rw here at stop in
      let kept = laws.callbacks_keep _ a.services ready in
      if_three RoundsReady (o.stop_signal n) (is_nonzero (o.loop n)) _ _ _ kept kept
        (λ untold fine. absurd (ground arith))
  agent_rounds-RoundsReady (suc fuel) n (suc k) a h stop ready =
      let there : n + suc k ≡ n + 1 + k = omega arith in
      let kept = laws.callbacks_keep _ a.services ready in
      if_three RoundsReady (o.stop_signal n) (is_nonzero (o.loop n)) _ _ _ kept kept (λ untold fine.
        agent_rounds-RoundsReady fuel (n + 1) k (round services o n a) (omega arith)
          (rw there at stop) kept)

  disconnected :
      (ret : ℤ) (a : Agent S)
      → Ready a.services
      → Done (out_disconnect_evp_agent services o ret a).services
  disconnected ret a ready =
      laws.deinit_ends _ (laws.callbacks_keep _ _ (laws.callbacks_keep _ _ ready))

  ended-EndsIdle :
      (r : Option (ℤ × Agent S))
      → RoundsReady r
      → EndsIdle Done (
          Option.map
            (λ r. out_disconnect_evp_agent services o r.0 (note services o wdt_stop true r.1))
            r)
  unfolding bind
  ended-EndsIdle none h = h
  ended-EndsIdle (some (ret, a)) h = disconnected ret (note services o wdt_stop true a) h

  run_connected-EndsIdle :
      (fuel k : ℕ) (a : Agent S)
      → k < fuel
      → StopsAt services o k
      → Ready a.services
      → EndsIdle Done (run_connected services o fuel a)
  unfolding run_connected
  run_connected-EndsIdle fuel k a h stop ready =
      let first : 0 + k ≡ k = omega arith in
      if_intro (EndsIdle Done) o.watchdog _ _
        (λ on. ended-EndsIdle _ (
          agent_rounds-RoundsReady fuel 0 k
            (record (note services o wdt_start true a) { ctxt = true }) h (rw first stop) ready))
        (λ off. disconnected (pos 0) (note services o wdt_start false a) ready)

  run_registered-EndsIdle :
      (fuel k : ℕ) (a : Agent S)
      → k < fuel
      → StopsAt services o k
      → Ready a.services
      → EndsIdle Done (run_registered services o fuel a)
  unfolding run_registered
  run_registered-EndsIdle fuel k a h stop ready =
      let started = library_call services o evp_agent_start (not (is_nonzero o.start)) a in
      let now = laws.callbacks_keep (length a.calls) a.services ready in
      rw (flush_wasm_native_symbols_lem o started) (
        if_intro (EndsIdle Done) (is_nonzero o.start) _ _ (λ e. laws.deinit_ends _ now)
          (λ ok.
            if_intro (EndsIdle Done) (is_nonzero (flush_error services o a)) _ _
              (λ e. laws.deinit_ends _ (laws.callbacks_keep _ _ now))
              (λ ok.
                let linked = laws.callbacks_keep _ _ now in
                if_intro (EndsIdle Done) (is_nonzero o.connect) _ _
                  (λ e. laws.deinit_ends _ (laws.callbacks_keep _ _ linked))
                  (λ ok. run_connected-EndsIdle fuel k _ h stop linked))))

  run_platform-EndsIdle :
      (fuel k : ℕ) (a : Agent S)
      → k < fuel
      → StopsAt services o k
      → Idle a.services
      → EndsIdle Done (run_platform services o fuel a)
  unfolding run_platform
  run_platform-EndsIdle fuel k a h stop idle =
      let r = services.status_disconnected a.services in
      let shown = laws.status_keeps a.services idle in
      let r' = services.init_cache r.1 in
      let r'' = services.register_handlers r'.1 in
      let holds = record (note services o agent_status_handler (not (is_nonzero r.0)) a) {
        services = r.1;
      } in
      let held = record (note services o init_proxy_cache (not (is_nonzero r'.0)) holds) {
        services = r'.1;
      } in
      let subscribed =
        record (note services o notifications_register (not (is_nonzero r''.0)) held) {
          services = r''.1;
        } in
      if_intro (EndsIdle Done) (is_nonzero r.0) _ _ (λ e. laws.idle_ends _ shown)
        (λ ok.
          if_intro (EndsIdle Done) (is_nonzero r'.0) _ _
            (λ e. laws.idle_ends _ (laws.init_fails r.1 shown e))
            (λ ok'.
              let filled = laws.register_readies r'.1 (laws.init_succeeds r.1 shown ok') in
              if_intro (EndsIdle Done) (is_nonzero r''.0) _ _ (λ e. laws.deinit_ends _ filled)
                (λ ok''. run_registered-EndsIdle fuel k subscribed h stop filled)))

  -- If the parts keep the laws, a round that the fuel allows is told to stop or fails, and the parts
  -- are idle at the start, the thread ends with them done.
  pub evp_agent_thread-EndsIdle :
      (fuel k : ℕ) (a : Agent S)
      → k < fuel
      → StopsAt services o k
      → Idle a.services
      → EndsIdle Done (evp_agent_thread services o fuel a)
  unfolding evp_agent_thread
  evp_agent_thread-EndsIdle fuel k a h stop idle =
      if_intro (EndsIdle Done) (is_nonzero o.set_name) _ _ (λ e. laws.idle_ends _ idle)
        (λ ok.
          if_intro (EndsIdle Done) (is_nonzero o.platform) _ _ (λ e. laws.idle_ends _ idle)
            (λ ok'. run_platform-EndsIdle fuel k _ h stop idle))
