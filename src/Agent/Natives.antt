-- ===== src/Agent/Natives.antt =====
-- The queue of native symbols: evp-agent.c, lines 154 to 224. The lock is held only while an entry
-- is put in, which is one step here.
pub mod Order
use aitrios_edge_device_core.Base.{
  ℕ, ◌+◌, ◌-◌, Bool, true, false, Option, none, some, List, [], ◌∷◌, ◌++◌, ◌==◌, if◌then◌else◌, ℤ,
  pos, negsuc, neg, is_nonzero, einval, enomem, CString,
}
use aitrios_edge_device_core.Agent.{NativeSymbolEntry, Agent, Outside}

module _ {S : Type 0} where
  -- `evp_agent_wasm_native_symbol_add`; `none` is NULL, and `room` whether `malloc` succeeds.
  pub native_symbol_add : Bool → Option CString → Option ℕ → ℕ → Agent S → ℤ × Agent S
  native_symbol_add room none symbols n a = (neg einval, a)
  native_symbol_add room (some name) none n a = (neg einval, a)
  native_symbol_add room (some name) (some symbols) n a =
      let entry : NativeSymbolEntry = record {
        module_name = name;
        native_symbols = symbols;
        n_native_symbols = n;
      } in
      if n == 0
      then (neg einval, a)
      else if room
      then (pos 0, record a { queue = a.queue ++ entry ∷ []; symbol_blocks = a.symbol_blocks + 1 })
      else (neg enomem, a)

  -- `EVP_wasm_runtime_register_natives`
  unfoldable pub register_natives : Bool → Option CString → Option ℕ → ℕ → Agent S → Bool × Agent S
  unfolding native_symbol_add
  register_natives room name symbols n a =
      let (ret, a') = native_symbol_add room name symbols n a in
      if a.started then (false, a) else if is_nonzero ret then (false, a') else (true, a')

  -- The loop of `evp_agent_flush_wasm_native_symbols`: every entry leaves the queue and is freed,
  -- and is offered to the runtime as long as none was refused.
  pub flush_entries : Outside → ℤ → List NativeSymbolEntry → Agent S → ℤ × Agent S
  flush_entries o ret [] a = (ret, a)
  flush_entries o ret (entry ∷ rest) a =
      let dequeued = record a { queue = rest; symbol_blocks = a.symbol_blocks - 1 } in
      let taken = record dequeued { registered = a.registered ++ entry ∷ [] } in
      let accepted = o.accepts a.registered entry in
      flush_entries o (if is_nonzero ret then ret else if accepted then ret else negsuc 0) rest
        (if is_nonzero ret then dequeued else if accepted then taken else dequeued)

  unfoldable pub flush_wasm_native_symbols : Outside → Agent S → ℤ × Agent S
  unfolding flush_entries
  flush_wasm_native_symbols o a = flush_entries o (pos 0) a.queue a
