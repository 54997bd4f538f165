-- ===== src/Agent/Thread/Levels.antt =====
-- What the agent thread can hold, and which calls are in order at each level of it.
use mathlib.Core.Option
use aitrios_edge_device_core.Base.{◌≡◌, Bool, true, false, Option, none, some, List, [], ◌∷◌}
use aitrios_edge_device_core.Agent.{
  Agent, Call, pthread_setname, evp_agent_setup, evp_agent_platform_register, agent_status_handler,
  init_proxy_cache, notifications_register, evp_agent_start, flush_wasm_native_symbols,
  evp_agent_connect, wdt_start, wdt_keepalive, evp_agent_loop, wdt_stop, evp_agent_disconnect,
  evp_agent_stop, deinit_proxy_cache, evp_agent_free,
}

-- What the thread holds: each level adds the library's context, the proxy cache, the running agent,
-- the connection and the watchdog to the one before.
pub data Level : Type 0 where
  nothing context cached running connected watched : Level

-- The level after a call, by the level at which it is allowed; `none` is a call out of order, such
-- as one on a context that is freed.
abbrev pub transition : Call → Bool → Level → Option Level
transition pthread_setname success nothing = some nothing
transition evp_agent_setup true nothing = some context
transition evp_agent_platform_register success context = some context
transition agent_status_handler success context = some context
transition init_proxy_cache true context = some cached
transition init_proxy_cache false context = some context
transition notifications_register success cached = some cached
transition evp_agent_start true cached = some running
transition evp_agent_start false cached = some cached
transition flush_wasm_native_symbols success running = some running
transition evp_agent_connect true running = some connected
transition evp_agent_connect false running = some running
transition wdt_start true connected = some watched
transition wdt_start false connected = some connected
transition wdt_keepalive success watched = some watched
transition evp_agent_loop success watched = some watched
transition wdt_stop success watched = some connected
transition evp_agent_disconnect success connected = some running
transition evp_agent_stop success running = some cached
transition deinit_proxy_cache success cached = some context
transition evp_agent_free success context = some nothing
transition _ _ _ = none

-- The level after all the calls, the latest first.
abbrev pub level : List (Call × Bool) → Option Level
level [] = some nothing
level ((call, success) ∷ calls) = Option.bind (level calls) (transition call success)

-- At this level now.
abbrev pub At : {S : Type 0} → Level → Agent S → Type 0
At l a = level a.calls ≡ some l
