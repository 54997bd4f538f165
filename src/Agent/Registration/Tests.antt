-- ===== src/Agent/Registration/Tests.antt =====
-- Executions with concrete symbols.
use aitrios_edge_device_core.Base.{ℕ, ◌≡◌, refl, true, false, List, [], ◌∷◌, codes}
use aitrios_edge_device_core.Agent.{NativeSymbolEntry}
use aitrios_edge_device_core.Agent.Registration.{
  before_flush, flushed, outside, tested, inserting, update, Threads, init, finds_first,
  looks_ahead, looks_past, removes, takes, Reach, here, later,
}
use aitrios_edge_device_core.Agent.Registration.Quiet.{flush-takes_all}
use aitrios_edge_device_core.Agent.Registration.Lost.{raced, registration_lost}

abbrev symbols_of : ℕ → NativeSymbolEntry
symbols_of n = record { module_name = codes "env"; native_symbols = 4096; n_native_symbols = n }

-- A caller has registered one symbol, and no thread has started.
abbrev one_symbol : Threads
one_symbol = record init {
  queue = symbols_of 3 ∷ [];
  accepted = symbols_of 3 ∷ [];
  callers =
      update (update (update (λ i. outside) 0 (tested (symbols_of 3))) 0 (inserting (symbols_of 3)))
        0 outside;
}

-- Two symbols are queued as the agent thread starts.
abbrev two_symbols : List NativeSymbolEntry
two_symbols = symbols_of 3 ∷ symbols_of 4 ∷ []

abbrev launched : Threads
launched = record init {
  started = true;
  queue = two_symbols;
  accepted = two_symbols;
  agent = before_flush;
}

abbrev done : Threads
done = record launched { queue = []; taken = two_symbols; agent = flushed }

launched-Reach : Reach launched done
launched-Reach =
    later
      (later
        (later
          (later
            (later
              (later (later here (finds_first (symbols_of 3) (symbols_of 4 ∷ []) refl refl))
                (looks_ahead (symbols_of 3) (symbols_of 4) [] refl refl))
              (removes true (symbols_of 3) (symbols_of 4 ∷ []) refl refl))
            (takes true (symbols_of 3) (symbols_of 4 ∷ []) refl refl))
          (looks_past (symbols_of 4) refl refl))
        (removes false (symbols_of 4) [] refl refl))
      (takes false (symbols_of 4) [] refl refl)

flush-takes_all_example :
    (done.taken ≡ two_symbols)
    × (done.accepted ≡ two_symbols)
    × (done.queue ≡ [])
    × done.torn ≡ false
flush-takes_all_example =
    flush-takes_all {s = launched} refl refl (λ i. refl) refl refl refl launched-Reach refl

registration_lost_example :
    Reach init (raced (symbols_of 3))
    × ((raced (symbols_of 3)).accepted ≡ symbols_of 3 ∷ [])
    × ((raced (symbols_of 3)).taken ≡ [])
    × (more : List NativeSymbolEntry) × ((raced (symbols_of 3)).queue ≡ symbols_of 3 ∷ more)
registration_lost_example = registration_lost (symbols_of 3) here
