-- ===== src/Agent/Registration.antt =====
-- Registrations of native symbols from other threads while the agent thread starts and flushes:
-- src/evp-agent/src/evp-agent.c, lines 167 to 224, a shared access at a time. The lock of the queue
-- covers only the insertion; the flush takes no lock. A caller tests `started` before it takes the
-- lock, and nothing holds the two together. An insertion and the removal of an entry write several
-- links each, so each of them has a begin and an end here; where they overlap the queue is torn,
-- and then it may turn into anything.
pub mod Kept
pub mod Quiet
pub mod Lost
mod Tests
use mathlib.Core.Logic.{ite}
use native.Mathlib.Decide.{ℕ_discrete}
use aitrios_edge_device_core.Base.{ℕ, Bool, true, false, ◌≡◌, List, [], ◌∷◌, ◌++◌, if◌then◌else◌}
use aitrios_edge_device_core.Agent.{NativeSymbolEntry}

-- Where the agent thread stands: before it runs, before the flush, at an entry of the loop, after
-- it has read whether the entry has a next one, inside the removal of the entry, and after the flush
-- or without one.
pub data AgentPc : Type 0 where
  not_running before_flush at_entry : AgentPc
  in_body removing : (has_next : Bool) → AgentPc
  flushed gave_up : AgentPc

-- Where a caller of EVP_wasm_runtime_register_natives stands: outside, past the test, or
-- inside the insertion, with the lock.
pub data CallerPc : Type 0 where
  outside : CallerPc
  tested inserting : NativeSymbolEntry → CallerPc

-- The shared memory and the threads. `taken` are the entries that the flush took off the queue,
-- and `accepted` those of the calls that return true, each in their order. `locked` is
-- the lock of the queue, and `torn` whether an insertion and a removal have overlapped.
pub record Threads : Type 0 where
  pub started : Bool
  pub locked : Bool
  pub torn : Bool
  pub queue : List NativeSymbolEntry
  pub taken : List NativeSymbolEntry
  pub accepted : List NativeSymbolEntry
  pub agent : AgentPc
  pub callers : ℕ → CallerPc

-- The static memory of the program, with no thread in it.
abbrev pub init : Threads
init = record {
  started = false;
  locked = false;
  torn = false;
  queue = [];
  taken = [];
  accepted = [];
  agent = not_running;
  callers = λ i. outside;
}

-- The callers after one of them has moved on.
abbrev pub update : (ℕ → CallerPc) → ℕ → CallerPc → ℕ → CallerPc
update callers i pc j = ite (ℕ_discrete i j) pc (callers j)

abbrev pub either : Bool → Bool → Bool
either true b = true
either false b = b

abbrev pub is_removing : AgentPc → Bool
is_removing (removing has_next) = true
is_removing _ = false

-- A step of one thread. `fails` is a call with a bad argument or without memory, which returns
-- false; so does `refused`. `launch` is the start of the agent thread, which `gives_up` leaves
-- before the flush when a call of it fails. `tears` is what a torn queue may turn into.
pub data Step (s : Threads) : Threads → Type 0 where
  refused : (i : ℕ) → s.started ≡ true → s.callers i ≡ outside → Step s s
  passes :
      (i : ℕ) (entry : NativeSymbolEntry)
      → s.started ≡ false
      → s.callers i ≡ outside
      → Step s (record s { callers = update s.callers i (tested entry) })
  fails :
      (i : ℕ) (entry : NativeSymbolEntry)
      → s.callers i ≡ tested entry
      → Step s (record s { callers = update s.callers i outside })
  locks :
      (i : ℕ) (entry : NativeSymbolEntry)
      → s.callers i ≡ tested entry
      → s.locked ≡ false
      → Step s (record s {
        locked = true;
        torn = either s.torn (is_removing s.agent);
        callers = update s.callers i (inserting entry);
      })
  inserts :
      (i : ℕ) (entry : NativeSymbolEntry)
      → s.callers i ≡ inserting entry
      → Step s (record s {
        locked = false;
        queue = s.queue ++ entry ∷ [];
        accepted = s.accepted ++ entry ∷ [];
        callers = update s.callers i outside;
      })
  launch : s.agent ≡ not_running → Step s (record s { started = true; agent = before_flush })
  gives_up : s.agent ≡ before_flush → Step s (record s { agent = gave_up })
  finds_none : s.agent ≡ before_flush → s.queue ≡ [] → Step s (record s { agent = flushed })
  finds_first :
      (entry : NativeSymbolEntry) (rest : List NativeSymbolEntry)
      → s.agent ≡ before_flush
      → s.queue ≡ entry ∷ rest
      → Step s (record s { agent = at_entry })
  looks_ahead :
      (entry next : NativeSymbolEntry) (rest : List NativeSymbolEntry)
      → s.agent ≡ at_entry
      → s.queue ≡ entry ∷ next ∷ rest
      → Step s (record s { agent = in_body true })
  looks_past :
      (entry : NativeSymbolEntry)
      → s.agent ≡ at_entry
      → s.queue ≡ entry ∷ []
      → Step s (record s { agent = in_body false })
  removes :
      (has_next : Bool) (entry : NativeSymbolEntry) (rest : List NativeSymbolEntry)
      → s.agent ≡ in_body has_next
      → s.queue ≡ entry ∷ rest
      → Step s (record s { torn = either s.torn s.locked; agent = removing has_next })
  takes :
      (has_next : Bool) (entry : NativeSymbolEntry) (rest : List NativeSymbolEntry)
      → s.agent ≡ removing has_next
      → s.queue ≡ entry ∷ rest
      → Step s (record s {
        queue = rest;
        taken = s.taken ++ entry ∷ [];
        agent = if has_next then at_entry else flushed;
      })
  tears : (queue : List NativeSymbolEntry) → s.torn ≡ true → Step s (record s { queue = queue })

pub data Reach (s : Threads) : Threads → Type 0 where
  here : Reach s s
  later : {t u : Threads} → Reach s t → Step t u → Reach s u
