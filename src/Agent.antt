-- ===== src/Agent.antt =====
-- The agent thread and the functions that other threads call: src/evp-agent/src/evp-agent.c.
-- The state is `g_evp_agent` and the queue `g_wasm_native_symbols`, with the calls of the thread to
-- the outside, the latest first. What the agent library, the runtime and the power manager return
-- is a parameter, `Outside`; the parts of the program that the thread calls are another, `Services`.
pub mod Natives
pub mod Thread
pub mod Registration
pub mod Startup
pub mod Shutdown
pub mod Backdoor
pub mod Context
pub mod Program
mod Tests
use aitrios_edge_device_core.Base.{ℕ, Bool, true, false, Option, List, ℤ, CString}

-- `struct native_symbol_entry`; `native_symbols` is the address of the symbols.
pub record NativeSymbolEntry : Type 0 where
  pub module_name : CString
  pub native_symbols : ℕ
  pub n_native_symbols : ℕ  -- uint32_t

-- The calls of the thread that the properties speak of, in the order of the source.
pub data Call : Type 0 where
  pthread_setname : Call
  evp_agent_setup : Call
  evp_agent_platform_register : Call
  agent_status_handler : Call
  init_proxy_cache : Call
  notifications_register : Call
  evp_agent_start : Call
  flush_wasm_native_symbols : Call
  evp_agent_connect : Call
  wdt_start : Call
  wdt_keepalive : Call
  evp_agent_loop : Call
  wdt_stop : Call
  evp_agent_disconnect : Call
  evp_agent_stop : Call
  deinit_proxy_cache : Call
  evp_agent_free : Call

-- `symbol_blocks` are the blocks of the heap that entries of the queue were allocated and that are
-- not freed. `ctxt` is whether `g_evp_agent.ctxt` is set. A call stands with whether it succeeded.
pub record Agent (S : Type 0) : Type 0 where
  pub ctxt : Bool
  pub signalled : Bool
  pub started : Bool
  pub ret : ℤ
  pub queue : List NativeSymbolEntry
  pub symbol_blocks : ℕ
  pub registered : List NativeSymbolEntry
  pub services : S
  pub calls : List (Call × Bool)

-- The parts of the program that the thread calls, over a state of theirs: the handler of
-- "agent/status" with "disconnected", the proxy cache, and the registration of the handlers.
-- `callbacks n` is what the agent library calls back while it runs for the thread, when the thread
-- has made n calls before.
pub record Services (S : Type 0) : Type 0 where
  pub status_disconnected : S → ℤ × S
  pub init_cache : S → ℤ × S
  pub deinit_cache : S → S
  pub register_handlers : S → ℤ × S
  pub callbacks : ℕ → S → S

-- What is not part of the program. `loop n` is what the n-th round of `evp_agent_loop` returns, and
-- `stop_signal n` whether `g_evp_agent.signalled` is set when that round has ended;
-- `accepts` is whether the runtime takes an entry, by those that it took before.
pub record Outside : Type 0 where
  pub set_name : ℤ
  pub platform : ℤ
  pub start : ℤ
  pub connect : ℤ
  pub watchdog : Bool
  pub loop : ℕ → ℤ
  pub stop_signal : ℕ → Bool
  pub accepts : List NativeSymbolEntry → NativeSymbolEntry → Bool
