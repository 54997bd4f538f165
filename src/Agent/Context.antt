-- ===== src/Agent/Context.antt =====
-- The context of the agent library, shared between the agent thread and the callers of
-- include/sdk_backdoor.h: src/evp-agent/src/evp-agent.c, lines 93 to 152, 244, 287 and 312 to 315. A
-- read or write of `g_evp_agent.ctxt` under its lock is one step, and so is a call of the library.
pub mod Used
pub mod Dangling
mod Tests
use mathlib.Core.Logic.{ite}
use native.Mathlib.Decide.{ℕ_discrete}
use aitrios_edge_device_core.Base.{ℕ, Bool, true, false, ◌≡◌, List, [], ◌∷◌}

-- The context that `evp_agent_setup` makes: not made yet, in use, and after `evp_agent_free`.
pub data Memory : Type 0 where
  unmade live freed : Memory

-- What a call of the library is handed: NULL, or the context.
pub data Target : Type 0 where
  null : Target
  context : Memory → Target

-- Where the agent thread stands: before it has a context, with one, behind `set_backdoor_context`,
-- behind `evp_agent_free`, and at its end.
pub data ThreadPc : Type 0 where
  before_setup set_up connected finishing ended : ThreadPc

-- The calls that ask for one thing on the context.
pub data Request : Type 0 where
  get_agent_status register_sys_client unregister_sys_client : Request

-- Where a caller stands: outside, with the pointer that it read (whether it is not NULL) for a
-- request or for the status that `EVP_undeployModules` asks first, past that status, with the
-- pointer that this function reads then, and behind its first call on it.
pub data CallerPc : Type 0 where
  outside : CallerPc
  requesting : Request → Bool → CallerPc
  asking : Bool → CallerPc
  asked : CallerPc
  undeploying undeployed : Bool → CallerPc

-- The shared memory, the threads, and what the calls of the library were handed, the latest first.
pub record Shared : Type 0 where
  pub memory : Memory
  pub ctxt : Bool
  pub agent : ThreadPc
  pub callers : ℕ → CallerPc
  pub uses : List Target

abbrev pub start : Shared
start = record {
  memory = unmade;
  ctxt = false;
  agent = before_setup;
  callers = λ i. outside;
  uses = [];
}

abbrev pub update : (ℕ → CallerPc) → ℕ → CallerPc → ℕ → CallerPc
update callers i pc j = ite (ℕ_discrete i j) pc (callers j)

abbrev pub goes : Shared → ℕ → CallerPc → Shared
goes s i pc = record s { callers = update s.callers i pc }

-- What a pointer with this value hands to the library now.
abbrev pub target : Bool → Memory → Target
target true memory = context memory
target false memory = null

abbrev pub uses_it : Shared → ℕ → Bool → CallerPc → Shared
uses_it s i ctxt pc = record (goes s i pc) { uses = target ctxt s.memory ∷ s.uses }

pub data Step (s : Shared) : Shared → Type 0 where
  sets_up : s.agent ≡ before_setup → Step s (record s { memory = live; agent = set_up })
  gives_up : s.agent ≡ set_up → Step s (record s { memory = freed; agent = finishing })
  connects : s.agent ≡ set_up → Step s (record s { ctxt = true; agent = connected })
  frees : s.agent ≡ connected → Step s (record s { memory = freed; agent = finishing })
  finishes : s.agent ≡ finishing → Step s (record s { agent = ended })
  requests :
      (i : ℕ) (request : Request)
      → s.callers i ≡ outside
      → Step s (goes s i (requesting request s.ctxt))
  refuses :
      (i : ℕ) (request : Request)
      → s.callers i ≡ requesting request false
      → Step s (goes s i outside)
  serves :
      (i : ℕ) (request : Request)
      → s.callers i ≡ requesting request true
      → Step s (uses_it s i true outside)
  asks : (i : ℕ) → s.callers i ≡ outside → Step s (goes s i (asking s.ctxt))
  returns_again : (i : ℕ) → s.callers i ≡ asking false → Step s (goes s i outside)
  is_initial : (i : ℕ) → s.callers i ≡ asking true → Step s (uses_it s i true outside)
  is_running : (i : ℕ) → s.callers i ≡ asking true → Step s (uses_it s i true asked)
  reads_again : (i : ℕ) → s.callers i ≡ asked → Step s (goes s i (undeploying s.ctxt))
  undeploys :
      (i : ℕ) (ctxt : Bool)
      → s.callers i ≡ undeploying ctxt
      → Step s (uses_it s i ctxt (undeployed ctxt))
  completes :
      (i : ℕ) (ctxt : Bool) → s.callers i ≡ undeployed ctxt → Step s (uses_it s i ctxt outside)

pub data Steps (s : Shared) : Shared → Type 0 where
  here : Steps s s
  later : {t u : Shared} → Steps s t → Step t u → Steps s u
