-- ===== src/Agent/Shutdown.antt =====
-- `evp_agent_shutdown` against the loop of the agent thread: src/evp-agent/src/evp-agent.c, lines 289
-- to 298 and 319 to 323, a shared access at a time.
mod Tests
use mathlib.Core.Logic.{ite}
use aitrios_edge_device_core.Base.{
  ℕ, zero, suc, ◌+◌, ◌≤◌, ◌≡◌, refl, ◌⊎◌, inl, inr, Bool, true, false, arith, ℤ, pos, is_nonzero,
}

-- The agent thread at the test of the loop, after `evp_agent_loop` with its result, and behind the
-- loop, from where the thread gives all back and ends.
pub data LoopPc : Type 0 where
  at_test : LoopPc
  called ended : ℤ → LoopPc

-- The thread that shuts down: elsewhere, in `pthread_join`, and back from it.
pub data MainPc : Type 0 where
  away joining joined : MainPc

pub record Threads : Type 0 where
  pub signalled : Bool
  pub loop : LoopPc
  pub main : MainPc

-- A move of the agent thread; what `evp_agent_loop` returns is any number.
pub data AgentMove (s : Threads) : Threads → Type 0 where
  calls : (ret : ℤ) → s.loop ≡ at_test → AgentMove s (record s { loop = called ret })
  breaks :
      (ret : ℤ)
      → s.loop ≡ called ret
      → s.signalled ≡ true
      → AgentMove s (record s { loop = ended ret })
  fails :
      (ret : ℤ)
      → s.loop ≡ called ret
      → s.signalled ≡ false
      → is_nonzero ret ≡ true
      → AgentMove s (record s { loop = ended ret })
  goes_on :
      (ret : ℤ)
      → s.loop ≡ called ret
      → s.signalled ≡ false
      → is_nonzero ret ≡ false
      → AgentMove s (record s { loop = at_test })

-- A move of `evp_agent_shutdown`: the signal is set, and the join returns when the thread has ended.
pub data MainMove (s : Threads) : Threads → Type 0 where
  signals : s.main ≡ away → MainMove s (record s { signalled = true; main = joining })
  joins :
      (ret : ℤ) → s.main ≡ joining → s.loop ≡ ended ret → MainMove s (record s { main = joined })

-- An execution in which the agent thread makes n moves.
pub data Run (s : Threads) : ℕ → Threads → Type 0 where
  start : Run s 0 s
  agent : {n : ℕ} {t u : Threads} → Run s n t → AgentMove t u → Run s (suc n) u
  other : {n : ℕ} {t u : Threads} → Run s n t → MainMove t u → Run s n u

-- The moves that the agent thread has left once the signal is set.
abbrev pub moves_left : LoopPc → ℕ
moves_left at_test = 2
moves_left (called ret) = 1
moves_left (ended ret) = 0

abbrev pub IsShuttingDown : MainPc → Type 0
IsShuttingDown away = ⊥
IsShuttingDown _ = Unit {0}

pub record IsSignalled (s : Threads) : Type 0 where
  pub on : s.signalled ≡ true
  pub down : IsShuttingDown s.main

AgentMove-IsSignalled :
    {s t : Threads}
    → AgentMove s t
    → IsSignalled s
    → IsSignalled t × (suc (moves_left t.loop) ≡ moves_left s.loop)
AgentMove-IsSignalled (calls ret at) h = (record { on = h.on; down = h.down }, rw at refl)
AgentMove-IsSignalled (breaks ret at on) h = (record { on = h.on; down = h.down }, rw at refl)
AgentMove-IsSignalled (fails ret at off e) h = absurd (let same = h.on in cc)
AgentMove-IsSignalled (goes_on ret at off e) h = absurd (let same = h.on in cc)

MainMove-IsSignalled :
    {s t : Threads} → MainMove s t → IsSignalled s → IsSignalled t × (t.loop ≡ s.loop)
MainMove-IsSignalled (signals at) h = (record { on = refl; down = tt }, refl)
MainMove-IsSignalled (joins ret at end) h = (record { on = h.on; down = tt }, refl)

Run-IsSignalled :
    {s t : Threads} {n : ℕ}
    → Run s n t
    → IsSignalled s
    → IsSignalled t × (n + moves_left t.loop ≡ moves_left s.loop)
Run-IsSignalled start h = (h, omega arith)
Run-IsSignalled (agent r move) h =
    let before = Run-IsSignalled r h in
    let after = AgentMove-IsSignalled move before.0 in
    let e = before.1 in let e' = after.1 in (after.0, omega arith)
Run-IsSignalled (other r move) h =
    let before = Run-IsSignalled r h in
    let after = MainMove-IsSignalled move before.0 in (after.0, rw (after.1) (before.1))

-- Some thread can move, or the join has returned.
abbrev pub Progresses : Threads → Type 0
Progresses s = ((t : Threads) × (AgentMove s t ⊎ MainMove s t)) ⊎ (s.main ≡ joined)

progress :
    (loop : LoopPc) (main : MainPc) (s : Threads)
    → s.loop ≡ loop
    → s.main ≡ main
    → s.signalled ≡ true
    → IsShuttingDown main
    → Progresses s
progress at_test main s at_loop at_main on h = inl (_, inl (calls (pos 0) at_loop))
progress (called ret) main s at_loop at_main on h = inl (_, inl (breaks ret at_loop on))
progress (ended ret) away s at_loop at_main on h = absurd h
progress (ended ret) joining s at_loop at_main on h = inl (_, inr (joins ret at_main at_loop))
progress (ended ret) joined s at_loop at_main on h = inr at_main

moves_left-le : (loop : LoopPc) → moves_left loop ≤ 2
moves_left-le at_test = omega arith
moves_left-le (called ret) = omega arith
moves_left-le (ended ret) = omega arith

-- Once evp_agent_shutdown has set the signal, any execution makes at most two more moves of the
-- agent thread in its loop, whatever evp_agent_loop returns, and at any point of it some thread can
-- move or the join has returned.
pub shutdown-Progresses :
    {s t : Threads} {n : ℕ} → IsSignalled s → Run s n t → (n ≤ 2) × Progresses t
shutdown-Progresses {s} {t} {n} h r =
    let after = Run-IsSignalled r h in
    let bound = after.1 in
    let most' = moves_left-le s.loop in
    (omega arith, progress t.loop t.main t refl refl (after.0.on) (after.0.down))
