-- ===== src/Agent/Tests.antt =====
-- Runs of the agent thread and of its neighbours on concrete inputs.
use aitrios_edge_device_core.Base.{
  ℕ, zero, suc, ◌<◌, ◌≡◌, refl, true, false, ◌||◌, some, List, [], ◌∷◌, ◌==◌, arith, if◌then◌else◌,
  pos, negsuc, is_nonzero, length, codes,
}
use aitrios_edge_device_core.Agent.{NativeSymbolEntry, Agent, Services, Outside}
use aitrios_edge_device_core.Agent.Natives.{flush_wasm_native_symbols}
use aitrios_edge_device_core.Agent.Natives.Order.{flush_wasm_native_symbols_lem}
use aitrios_edge_device_core.Agent.Thread.{evp_agent_thread}
use aitrios_edge_device_core.Agent.Thread.Resources.{Released, evp_agent_thread-Released}
use aitrios_edge_device_core.Agent.Thread.Outcome.{EndsWith, StopsFirst, evp_agent_thread_outcome}
use aitrios_edge_device_core.Agent.Backdoor.{Library, undeploy_modules, undeploy_modules_lem}

-- Services that count the live proxy caches and never fail.
abbrev services : Services ℕ
services = record {
  status_disconnected = λ s. (pos 0, s);
  init_cache = λ s. (pos 0, suc s);
  deinit_cache = λ s. 0;
  register_handlers = λ s. (pos 0, s);
  callbacks = λ n s. s;
}

-- The third round fails with -5; the runtime refuses entries of length 7.
abbrev pub outside : Outside
outside = record {
  set_name = pos 0;
  platform = pos 0;
  start = pos 0;
  connect = pos 0;
  watchdog = true;
  loop = λ n. if n == 2 then negsuc 4 else pos 0;
  stop_signal = λ n. false;
  accepts = λ done entry. if entry.n_native_symbols == 7 then false else true;
}

abbrev pub symbols_of : ℕ → NativeSymbolEntry
symbols_of n = record { module_name = codes "env"; native_symbols = 4096; n_native_symbols = n }

abbrev idle : List NativeSymbolEntry → Agent ℕ
idle queue = record {
  ctxt = false;
  signalled = false;
  started = false;
  ret = pos 0;
  queue = queue;
  symbol_blocks = length queue;
  registered = [];
  services = 0;
  calls = [];
}

quiet : (i : ℕ) → i < 2 → (is_nonzero (outside.loop i) || outside.stop_signal i) ≡ false
quiet zero h = refl
quiet (suc zero) h = refl
quiet (suc (suc i)) h = absurd (omega arith)

third_round : StopsFirst services outside 2
third_round = (refl, quiet)

evp_agent_thread-Released_example :
    Released services outside (evp_agent_thread services outside 5 (idle (symbols_of 3 ∷ [])))
evp_agent_thread-Released_example =
    evp_agent_thread-Released services outside 5 2 (idle (symbols_of 3 ∷ [])) (omega arith, refl)
      refl

evp_agent_thread_outcome_example :
    EndsWith services outside
      (evp_agent_thread services outside 5 (idle (symbols_of 3 ∷ [])))
      (negsuc 4, true)
evp_agent_thread_outcome_example =
    evp_agent_thread_outcome services outside 5 2 (idle (symbols_of 3 ∷ [])) (omega arith)
      third_round

flush_wasm_native_symbols_example :
    flush_wasm_native_symbols outside (idle (symbols_of 3 ∷ symbols_of 7 ∷ symbols_of 4 ∷ []))
    ≡ (negsuc 0, record (idle []) { registered = symbols_of 3 ∷ []; symbol_blocks = 0 })
flush_wasm_native_symbols_example =
    flush_wasm_native_symbols_lem outside (idle (symbols_of 3 ∷ symbols_of 7 ∷ symbols_of 4 ∷ []))

-- A library whose state is the number of modules and whose initial status is 0.
abbrev library : Library ℕ
library = record {
  evp_agent_status_init = 0;
  evp_again = pos 11;
  get_status = λ l. suc l;
  undeploy_all = λ l. 0;
  empty_deployment_has_completed = λ l. if l == 0 then pos 1 else pos 0;
  register_client = λ l. (some 1, l);
  unregister_client = λ c l. (pos 0, l);
}

undeploy_modules_example : undeploy_modules library true true 6 ≡ some (pos 1, 0)
undeploy_modules_example = undeploy_modules_lem library true true 6 (λ set. set)
