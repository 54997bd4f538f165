-- ===== src/Agent/Thread/Resources.antt =====
-- The protocol of the agent thread: what it holds, and that it gives all of it back.
use mathlib.Core.Option
use mathlib.Core.Option.{bind}
use aitrios_edge_device_core.Base.{
  if_intro, ℕ, ◌+◌, ◌<◌, ◌≡◌, refl, Bool, true, false, not, Option, none, some, arith, ℤ, pos,
  is_nonzero,
}
use aitrios_edge_device_core.Agent.{
  Agent, Services, Outside, Call, pthread_setname, evp_agent_setup, evp_agent_platform_register,
  agent_status_handler, init_proxy_cache, notifications_register, evp_agent_start,
  flush_wasm_native_symbols, evp_agent_connect, wdt_start, wdt_stop,
}
use aitrios_edge_device_core.Agent.Thread.{
  note, library_call, out_free_evp_agent, out_deinit_proxy_cache, out_stop_evp_agent,
  out_disconnect_evp_agent, run_connected, run_registered, run_platform, evp_agent_thread,
}
use aitrios_edge_device_core.Agent.Natives.{flush_wasm_native_symbols as flush}
use aitrios_edge_device_core.Agent.Natives.Order.{flush_calls}
use aitrios_edge_device_core.Agent.Thread.Levels.{
  Level, nothing, context, cached, running, connected, watched, transition, At,
}
use aitrios_edge_device_core.Agent.Thread.Rounds.{StopsAt, RoundsEnd, agent_rounds-RoundsEnd}

module _ {S : Type 0} (services : Services S) (o : Outside) where
  -- The thread has ended and holds nothing.
  abbrev pub Released : Option (Agent S) → Type 0
  Released none = ⊥
  Released (some a) = At nothing a

  out_free-At :
      (ret : ℤ) (a : Agent S) → At context a → At nothing (out_free_evp_agent services o ret a)
  unfolding bind
  out_free-At ret a h = rw h

  out_deinit-At :
      (ret : ℤ) (a : Agent S) → At cached a → At nothing (out_deinit_proxy_cache services o ret a)
  unfolding bind
  out_deinit-At ret a h = rw h

  out_stop-At :
      (ret : ℤ) (a : Agent S) → At running a → At nothing (out_stop_evp_agent services o ret a)
  unfolding bind
  out_stop-At ret a h = rw h

  out_disconnect-At :
      (ret : ℤ) (a : Agent S)
      → At connected a
      → At nothing (out_disconnect_evp_agent services o ret a)
  unfolding bind
  out_disconnect-At ret a h = rw h

  -- Some round within the fuel ends the loop, unless the watchdog does not start.
  abbrev pub Ends : ℕ → ℕ → Type 0
  Ends fuel k = k < fuel × StopsAt services o k

  ended-Released :
      (r : Option (ℤ × Agent S))
      → RoundsEnd services o r
      → Released (
          Option.map
            (λ r. out_disconnect_evp_agent services o r.0 (note services o wdt_stop true r.1))
            r)
  unfolding bind
  ended-Released none h = h
  ended-Released (some (ret, a)) h = rw h

  -- A call at the level where it is allowed.
  note-At :
      (call : Call) (success : Bool) (l l' : Level) (a : Agent S)
      → At l a
      → transition call success l ≡ some l'
      → At l' (note services o call success a)
  unfolding bind
  note-At call success l l' a h t = rw h t

  run_connected-Released :
      (fuel k : ℕ) (a : Agent S)
      → Ends fuel k
      → At connected a
      → Released (run_connected services o fuel a)
  unfolding run_connected
  run_connected-Released fuel k a ends h =
      let first : 0 + k ≡ k = omega arith in
      if_intro Released o.watchdog _ _
        (λ on. ended-Released _ (
          agent_rounds-RoundsEnd services o fuel 0 k
            (record (note services o wdt_start true a) { ctxt = true }) ends.0 (rw first ends.1)
            (note-At wdt_start true connected watched a h refl)))
        (λ off.
          out_disconnect-At (pos 0) (note services o wdt_start false a)
            (note-At wdt_start false connected connected a h refl))

  run_registered-Released :
      (fuel k : ℕ) (a : Agent S)
      → Ends fuel k
      → At cached a
      → Released (run_registered services o fuel a)
  unfolding run_registered
  run_registered-Released fuel k a ends h =
      let started = library_call services o evp_agent_start (not (is_nonzero o.start)) a in
      let r = flush o started in
      let flushed = note services o flush_wasm_native_symbols (not (is_nonzero r.0)) r.1 in
      let linked = library_call services o evp_agent_connect (not (is_nonzero o.connect)) flushed in
      if_intro Released (is_nonzero o.start) _ _
        (λ e.
          out_deinit-At o.start started (note-At evp_agent_start _ cached cached a h (rw e refl)))
        (λ ok.
          let h1 : At running started = note-At evp_agent_start _ cached running a h (rw ok refl) in
          let h2 : At running flushed =
            note-At flush_wasm_native_symbols (not (is_nonzero r.0)) running running r.1
              (rw (flush_calls o started) h1) refl in
          if_intro Released (is_nonzero r.0) _ _ (λ e. out_stop-At r.0 flushed h2)
            (λ ok'.
              if_intro Released (is_nonzero o.connect) _ _
                (λ e.
                  out_stop-At o.connect linked
                    (note-At evp_agent_connect _ running running flushed h2 (rw e refl)))
                (λ ok''.
                  run_connected-Released fuel k linked ends
                    (note-At evp_agent_connect _ running connected flushed h2 (rw ok'' refl)))))

  run_platform-Released :
      (fuel k : ℕ) (a : Agent S)
      → Ends fuel k
      → At context a
      → Released (run_platform services o fuel a)
  unfolding run_platform
  run_platform-Released fuel k a ends h =
      let r = services.status_disconnected a.services in
      let shown = record (note services o agent_status_handler (not (is_nonzero r.0)) a) {
        services = r.1;
      } in
      let r' = services.init_cache r.1 in
      let holds = record (note services o init_proxy_cache (not (is_nonzero r'.0)) shown) {
        services = r'.1;
      } in
      let r'' = services.register_handlers r'.1 in
      let subscribed =
        record (note services o notifications_register (not (is_nonzero r''.0)) holds) {
          services = r''.1;
        } in
      let h1 : At context shown =
        note-At agent_status_handler (not (is_nonzero r.0)) context context a h refl in
      if_intro Released (is_nonzero r.0) _ _ (λ e. out_free-At r.0 shown h1)
        (λ ok.
          if_intro Released (is_nonzero r'.0) _ _
            (λ e. out_free-At r'.0 holds (
              note-At init_proxy_cache (not (is_nonzero r'.0)) context context shown h1
                (rw e refl)))
            (λ ok'.
              let h2 : At cached holds =
                note-At init_proxy_cache (not (is_nonzero r'.0)) context cached shown h1
                  (rw ok' refl) in
              let h3 : At cached subscribed =
                note-At notifications_register (not (is_nonzero r''.0)) cached cached holds h2
                  refl in
              if_intro Released (is_nonzero r''.0) _ _ (λ e. out_deinit-At r''.0 subscribed h3)
                (λ ok''. run_registered-Released fuel k subscribed ends h3)))

  -- When one of the first rounds that the fuel allows is told to stop or fails, the thread ends
  -- from a start at which it holds nothing, whatever else fails: it makes no call out of the order
  -- in which context, proxy cache, agent, connection and watchdog are taken and given back, and in
  -- the end it holds none of them.
  pub evp_agent_thread-Released :
      (fuel k : ℕ) (a : Agent S)
      → Ends fuel k
      → At nothing a
      → Released (evp_agent_thread services o fuel a)
  unfolding evp_agent_thread
  evp_agent_thread-Released fuel k a ends h =
      let named =
        note services o pthread_setname (not (is_nonzero o.set_name))
          (record a { started = true }) in
      let made = note services o evp_agent_setup true named in
      let ready = note services o evp_agent_platform_register (not (is_nonzero o.platform)) made in
      let h1 : At nothing named =
        note-At pthread_setname (not (is_nonzero o.set_name)) nothing nothing
          (record a { started = true }) h refl in
      let h2 : At context made = note-At evp_agent_setup true nothing context named h1 refl in
      let h3 : At context ready =
        note-At evp_agent_platform_register (not (is_nonzero o.platform)) context context made h2
          refl in
      if_intro Released (is_nonzero o.set_name) _ _ (λ e. h1)
        (λ ok.
          if_intro Released (is_nonzero o.platform) _ _ (λ e. out_free-At o.platform ready h3)
            (λ ok'. run_platform-Released fuel k ready ends h3))
