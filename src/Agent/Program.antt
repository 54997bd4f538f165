-- ===== src/Agent/Program.antt =====
-- The agent thread with the parts of the program that it calls, and those that the agent library
-- calls back while it runs for the thread: the handlers of notifications.c, the proxy cache and the
-- reader of esf.c, and the hooks of config.c.
mod Drawn
pub mod Stages
pub mod Ends
pub mod Log
mod Tests
use aitrios_edge_device_core.Base.{
  if◌then◌else◌, pos, ℕ, ◌+◌, Bool, true, false, Option, none, some, List, [], ◌∷◌, ℤ, codes,
  CString,
}
use aitrios_edge_device_core.Notifications.{Notifications, Platform}
use aitrios_edge_device_core.Notifications.Events.{Event, notify}
use aitrios_edge_device_core.Notifications.Register.{Subscription, evp_agent_notifications_register}
use aitrios_edge_device_core.Status.{LedStatusInfo, Settings}
use aitrios_edge_device_core.Status.Heap.{handle_status}
use aitrios_edge_device_core.Esf.{Esf, Source}
use aitrios_edge_device_core.Esf.Proxy.{init_proxy_cache, deinit_proxy_cache}
use aitrios_edge_device_core.Esf.Read.{ConfigKey, Config, Store}
use aitrios_edge_device_core.Esf.Read.Memory.{blocks_of}
use aitrios_edge_device_core.ConfigHooks.{get_config_impl}
use aitrios_edge_device_core.Agent.{Services}

-- What the agent library calls back: a handler with an event, the handler of "agent/status", or the
-- hook for a configuration.
pub data Callback : Type 0 where
  notified : Event → Callback
  status : Option CString → Callback
  configured : ConfigKey → Callback

-- The states of the parts. `given` counts the blocks of the configurations that the library was
-- given, and `faulted` is whether a handler has read through NULL.
pub record Program : Type 0 where
  pub sent : List LedStatusInfo
  pub esf : Esf
  pub notifications : Notifications
  pub active : List Subscription
  pub given : ℕ
  pub faulted : Bool

-- What the parts take from outside. `called_back n` is what the library calls back in a call that
-- the thread makes after n others.
pub record World : Type 0 where
  pub settings : Settings
  pub source : Source
  pub store : Store
  pub platform : Platform
  pub subscribe : ℕ → ℤ
  pub called_back : ℕ → List Callback

-- The state after a handler; a read through NULL is the end of the process, whose state is that of
-- the crash from then on.
abbrev pub after_handler : Program → Option Notifications → Program
after_handler s none = record s { faulted = true }
after_handler s (some n) = record s { notifications = n }

-- An operation, which nothing of the program does after a crash.
abbrev pub unless_faulted : Program → ℤ × Program → ℤ × Program
unless_faulted s r = if s.faulted then (pos 0, s) else r

module _ (w : World) where
  abbrev pub call_back : Callback → Program → Program
  call_back (notified event) s = after_handler s (notify w.platform event s.notifications)
  call_back (status text) s =
      let r = handle_status w.settings w.source w.store text s.sent s.esf in
      record s { sent = r.0.1; esf = r.1 }
  call_back (configured key) s =
      let (config, esf') = get_config_impl w.settings w.source w.store key s.esf in
      record s { esf = esf'; given = s.given + blocks_of config }

  abbrev pub call_back_all : List Callback → Program → Program
  call_back_all [] s = s
  call_back_all (callback ∷ callbacks) s =
      let next = call_back_all callbacks (call_back callback s) in if s.faulted then s else next

  -- The operations of the parts, as the thread calls them.
  abbrev pub program : Services Program
  program = record {
    status_disconnected = λ s.
        let r =
          handle_status w.settings w.source w.store (some (codes "disconnected")) s.sent s.esf in
        unless_faulted s (r.0.0, record s { sent = r.0.1; esf = r.1 });
    init_cache = λ s.
        let r = init_proxy_cache w.source s.esf in unless_faulted s (r.0, record s { esf = r.1 });
    deinit_cache = λ s.
        let given_up = record s { esf = deinit_proxy_cache s.esf } in
        if s.faulted then s else given_up;
    register_handlers = λ s.
        let r = evp_agent_notifications_register w.subscribe s.notifications.elog in
        unless_faulted s
          (r.0, record s { notifications = record s.notifications { elog = r.1 }; active = r.2 });
    callbacks = λ n s. call_back_all (w.called_back n) s;
  }
