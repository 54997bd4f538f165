-- ===== src/Agent/Program/Stages.antt =====
-- The stages of the parts of the program, and the callbacks that come with their reasons.
use aitrios_edge_device_core.Base.{ℕ, ◌+◌, ◌≤◌, ◌<◌, ◌≡◌, ◌⊎◌, false, none, List, [], ◌∷◌}
use aitrios_edge_device_core.Elog.Invariant.{IsValid}
use aitrios_edge_device_core.Elog.Codes.{code_of}
use aitrios_edge_device_core.Notifications.{
  Notifications, elog_evp_blob_network_status, elog_evp_mqtt_status,
}
use aitrios_edge_device_core.Notifications.Events.{HasReason, IsReady}
use aitrios_edge_device_core.Esf.Proxy.Cache.{IsEmpty, Balanced}
use aitrios_edge_device_core.Agent.Program.{Callback, notified, status, configured, Program}

-- The library passes a reason with the events that carry one.
abbrev pub AllReasoned : List Callback → Type 0
AllReasoned [] = Unit
AllReasoned (notified event ∷ callbacks) = HasReason event × AllReasoned callbacks
AllReasoned (status text ∷ callbacks) = AllReasoned callbacks
AllReasoned (configured key ∷ callbacks) = AllReasoned callbacks

-- The handlers before the registration: the table has room for three codes and none of theirs.
pub record IsFresh (n : Notifications) : Type 0 where
  pub valid : IsValid n.elog
  pub room : n.elog.last + 3 ≤ 128
  pub no_blob : code_of elog_evp_blob_network_status n.elog ≡ none
  pub no_mqtt : code_of elog_evp_mqtt_status n.elog ≡ none
  pub count : n.mqtt_reconnect_cnt < 16

-- The cache is empty, and the blocks in use are so many and those of the configurations given to
-- the library; or these and those of the cache. So many directories and files are open.
abbrev pub CacheIdle : ℕ → ℕ → Program → Type 0
CacheIdle others files s =
    IsEmpty s.esf × (s.esf.live ≡ others + s.given) × s.esf.descriptors ≡ files

abbrev pub CacheReady : ℕ → ℕ → Program → Type 0
CacheReady others files s = Balanced (others + s.given) s.esf × s.esf.descriptors ≡ files

-- The four stages of the parts, in none of which a handler has faulted.
abbrev pub ProgramIdle : ℕ → ℕ → Program → Type 0
ProgramIdle others files s = CacheIdle others files s × IsFresh s.notifications × s.faulted ≡ false

abbrev pub ProgramFilled : ℕ → ℕ → Program → Type 0
ProgramFilled others files s =
    CacheReady others files s × IsFresh s.notifications × s.faulted ≡ false

abbrev pub ProgramReady : ℕ → ℕ → Program → Type 0
ProgramReady others files s =
    CacheReady others files s × IsReady s.notifications × s.faulted ≡ false

abbrev pub ProgramDone : ℕ → ℕ → Program → Type 0
ProgramDone others files s =
    CacheIdle others files s
    × (IsFresh s.notifications ⊎ IsReady s.notifications)
    × s.faulted ≡ false

-- The reason of the first callback, and of the others.
pub first_reasoned :
    (callback : Callback) (callbacks : List Callback)
    → AllReasoned (callback ∷ callbacks)
    → AllReasoned (callback ∷ [])
first_reasoned (notified event) callbacks h = (h.0, tt)
first_reasoned (status text) callbacks h = tt
first_reasoned (configured key) callbacks h = tt

pub rest_reasoned :
    (callback : Callback) (callbacks : List Callback)
    → AllReasoned (callback ∷ callbacks)
    → AllReasoned callbacks
rest_reasoned (notified event) callbacks h = h.1
rest_reasoned (status text) callbacks h = h
rest_reasoned (configured key) callbacks h = h
