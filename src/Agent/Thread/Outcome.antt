-- ===== src/Agent/Thread/Outcome.antt =====
-- What the agent thread ends with: its exit status, and the context it leaves to other threads.
use mathlib.Core.Option
use mathlib.Core.Option.{bind}
use aitrios_edge_device_core.Base.{
  ℕ, zero, suc, ◌+◌, ◌≤◌, ◌<◌, ◌≡◌, refl, Bool, true, false, not, ◌||◌, Option, none, some, List,
  [], ◌∷◌, arith, if◌then◌else◌, ℤ, pos, negsuc, is_nonzero, drop,
}
use aitrios_edge_device_core.Agent.{
  Agent, Services, Outside, evp_agent_start, wdt_start, wdt_stop, agent_status_handler,
  init_proxy_cache, notifications_register,
}
use aitrios_edge_device_core.Agent.Thread.{
  note, library_call, out_disconnect_evp_agent, agent_rounds, run_connected, run_registered,
  run_platform, evp_agent_thread,
}
use aitrios_edge_device_core.Agent.Thread.Rounds.{StopsAt}
use aitrios_edge_device_core.Agent.Natives.Order.{refused_of, flush_wasm_native_symbols_lem}

-- The exit status and the context of a run whose steps return `errors`, with `last` when no step
-- fails.
abbrev pub expected : Bool → List ℤ → ℤ × Bool → ℤ × Bool
expected ctxt [] last = last
expected ctxt (e ∷ errors) last = if is_nonzero e then (e, ctxt) else expected ctxt errors last

module _ {S : Type 0} (services : Services S) (o : Outside) where
  -- The thread has ended with this exit status and this context.
  abbrev pub EndsWith : Option (Agent S) → ℤ × Bool → Type 0
  EndsWith none e = ⊥
  EndsWith (some a) e = (a.ret, a.ctxt) ≡ e

  -- What the flush returns.
  abbrev pub flush_error : Agent S → ℤ
  flush_error a = if refused_of o a.registered a.queue then negsuc 0 else pos 0

  -- The k-th round is the first one that ends the loop.
  abbrev pub StopsFirst : ℕ → Type 0
  StopsFirst k =
      StopsAt services o k × ((i : ℕ) → i < k → (is_nonzero (o.loop i) || o.stop_signal i) ≡ false)

  EndsWith-if :
      (error : Bool) (x y : Option (Agent S)) (e e' : ℤ × Bool)
      → EndsWith x e
      → EndsWith y e'
      → EndsWith (if error then x else y) (if error then e else e')
  EndsWith-if true x y e e' hx hy = hx
  EndsWith-if false x y e e' hx hy = hy

  -- The loop has ended with this value and this context.
  abbrev RoundsWith : Option (ℤ × Agent S) → ℤ × Bool → Type 0
  RoundsWith none e = ⊥
  RoundsWith (some r) e = (r.0, r.1.ctxt) ≡ e

  three_ways :
      (told error : Bool) (x y z : Option (ℤ × Agent S)) (e : ℤ × Bool)
      → ((told || error) ≡ true → RoundsWith x e × RoundsWith y e)
      → ((told || error) ≡ false → RoundsWith z e)
      → RoundsWith (if told then x else if error then y else z) e
  three_ways true error x y z e hx hz = (hx refl).0
  three_ways false true x y z e hx hz = (hx refl).1
  three_ways false false x y z e hx hz = hz refl

  agent_rounds-RoundsWith :
      (fuel n k : ℕ) (a : Agent S)
      → k < fuel
      → (is_nonzero (o.loop (n + k)) || o.stop_signal (n + k)) ≡ true
      → ((i : ℕ) → n ≤ i → i < n + k → (is_nonzero (o.loop i) || o.stop_signal i) ≡ false)
      → RoundsWith (agent_rounds services o fuel n a) (o.loop (n + k), a.ctxt)
  unfolding agent_rounds
  agent_rounds-RoundsWith zero n k a h stop before = absurd (omega arith)
  agent_rounds-RoundsWith (suc fuel) n zero a h stop before =
      let here : n + 0 ≡ n = omega arith in
      let stop' = rw here at stop in
      three_ways (o.stop_signal n) (is_nonzero (o.loop n)) _ _ _ _
        (λ ends. (rw here refl, rw here refl)) (λ goes. absurd (ground arith))
  agent_rounds-RoundsWith (suc fuel) n (suc k) a h stop before =
      let there : n + suc k ≡ n + 1 + k = omega arith in
      let now = before n (omega arith) (omega arith) in
      three_ways (o.stop_signal n) (is_nonzero (o.loop n)) _ _ _ _ (λ ends. absurd (ground arith))
        (λ goes. rw there (
          agent_rounds-RoundsWith fuel (n + 1) k _ (omega arith) (rw there at stop)
            (λ i ge lt. before i (omega arith) (omega arith))))

  -- How the connected thread ends: an unstarted watchdog is no error for the exit status.
  abbrev pub last_of : ℕ → Bool → ℤ × Bool
  last_of k ctxt = if o.watchdog then (o.loop k, true) else (pos 0, ctxt)

  ended-EndsWith :
      (r : Option (ℤ × Agent S)) (e : ℤ × Bool)
      → RoundsWith r e
      → EndsWith
          (Option.map
            (λ r. out_disconnect_evp_agent services o r.0 (note services o wdt_stop true r.1))
            r)
          e
  unfolding bind
  ended-EndsWith none e h = h
  ended-EndsWith (some (ret, a)) e h = h

  run_connected-EndsWith :
      (fuel k : ℕ) (a : Agent S)
      → k < fuel
      → StopsFirst k
      → EndsWith (run_connected services o fuel a) (last_of k a.ctxt)
  unfolding run_connected
  run_connected-EndsWith fuel k a h stops =
      let first : 0 + k ≡ k = omega arith in
      let a' = record (note services o wdt_start true a) { ctxt = true } in
      EndsWith-if o.watchdog _ _ _ _
        (ended-EndsWith _ (o.loop k, true)
          (rw first at (
            agent_rounds-RoundsWith fuel 0 k a' h (rw first stops.0)
              (λ i ge lt. stops.1 i (omega arith)))))
        refl

  run_registered-EndsWith :
      (fuel k : ℕ) (a : Agent S)
      → k < fuel
      → StopsFirst k
      → EndsWith
          (run_registered services o fuel a)
          (expected a.ctxt (o.start ∷ flush_error a ∷ o.connect ∷ []) (last_of k a.ctxt))
  unfolding run_registered
  run_registered-EndsWith fuel k a h stops =
      let started = library_call services o evp_agent_start (not (is_nonzero o.start)) a in
      rw (flush_wasm_native_symbols_lem o started) (
        EndsWith-if (is_nonzero o.start) _ _ _ _ refl (
          EndsWith-if (is_nonzero (flush_error a)) _ _ _ _ refl (
            EndsWith-if (is_nonzero o.connect) _ _ _ _ refl
              (run_connected-EndsWith fuel k _ h stops))))

  -- What the steps of the thread return, in their order.
  abbrev pub step_errors : Agent S → List ℤ
  step_errors a =
      let r = services.status_disconnected a.services in
      let r' = services.init_cache r.1 in
      let r'' = services.register_handlers r'.1 in
      o.set_name ∷ o.platform ∷ r.0 ∷ r'.0 ∷ r''.0 ∷ o.start ∷ flush_error a ∷ o.connect ∷ []

  run_platform-EndsWith :
      (fuel k : ℕ) (a : Agent S)
      → k < fuel
      → StopsFirst k
      → EndsWith
          (run_platform services o fuel a)
          (expected a.ctxt (drop 2 (step_errors a)) (last_of k a.ctxt))
  unfolding run_platform
  run_platform-EndsWith fuel k a h stops =
      let r = services.status_disconnected a.services in
      let r' = services.init_cache r.1 in
      let r'' = services.register_handlers r'.1 in
      let shown = record (note services o agent_status_handler (not (is_nonzero r.0)) a) {
        services = r.1;
      } in
      let cached = record (note services o init_proxy_cache (not (is_nonzero r'.0)) shown) {
        services = r'.1;
      } in
      let subscribed =
        record (note services o notifications_register (not (is_nonzero r''.0)) cached) {
          services = r''.1;
        } in
      EndsWith-if (is_nonzero r.0) _ _ _ _ refl (
        EndsWith-if (is_nonzero r'.0) _ _ _ _ refl (
          EndsWith-if (is_nonzero r''.0) _ _ _ _ refl
            (run_registered-EndsWith fuel k subscribed h stops)))

  -- When the k-th round is the first one that is told to stop or fails and the fuel allows it, the
  -- thread ends with the result of the first failing step as its exit status; when no step fails,
  -- with the result of that round, or with 0 if the watchdog could not be started. The context is
  -- set afterwards exactly if it was before or the loop was entered.
  pub evp_agent_thread_outcome :
      (fuel k : ℕ) (a : Agent S)
      → k < fuel
      → StopsFirst k
      → EndsWith
          (evp_agent_thread services o fuel a)
          (expected a.ctxt (step_errors a) (last_of k a.ctxt))
  unfolding evp_agent_thread
  evp_agent_thread_outcome fuel k a h stops =
      EndsWith-if (is_nonzero o.set_name) _ _ _ _ refl
        (EndsWith-if (is_nonzero o.platform) _ _ _ _ refl (run_platform-EndsWith fuel k _ h stops))
