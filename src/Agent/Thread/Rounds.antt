-- ===== src/Agent/Thread/Rounds.antt =====
-- The loop of the agent thread: the round that ends it, and what the thread holds in it.
use mathlib.Core.Option.{bind}
use aitrios_edge_device_core.Base.{
  if_three, ℕ, zero, suc, ◌+◌, ◌<◌, ◌≡◌, refl, true, not, ◌||◌, Option, none, some, arith,
  if◌then◌else◌, ℤ, is_nonzero,
}
use aitrios_edge_device_core.Agent.{Agent, Services, Outside, wdt_keepalive, evp_agent_loop}
use aitrios_edge_device_core.Agent.Thread.{note, library_call, agent_rounds}
use aitrios_edge_device_core.Agent.Thread.Levels.{watched, At}

module _ {S : Type 0} (services : Services S) (o : Outside) where
  -- The loop has ended, and still holds everything.
  abbrev pub RoundsEnd : Option (ℤ × Agent S) → Type 0
  RoundsEnd none = ⊥
  RoundsEnd (some r) = At watched r.1

  -- The n-th round ends the loop.
  abbrev pub StopsAt : ℕ → Type 0
  StopsAt n = (is_nonzero (o.loop n) || o.stop_signal n) ≡ true

  -- The state after a round, and the three ways on from it.
  abbrev pub round : ℕ → Agent S → Agent S
  round n a =
      library_call services o evp_agent_loop (not (is_nonzero (o.loop n)))
        (note services o wdt_keepalive true a)

  pub round-At : (n : ℕ) (a : Agent S) → At watched a → At watched (round n a)
  unfolding bind
  round-At n a h = rw h

  pub agent_rounds-suc :
      (fuel n : ℕ) (a : Agent S)
      → agent_rounds services o (suc fuel) n a ≡ (
          if o.stop_signal n
          then some (o.loop n, record (round n a) { signalled = true })
          else if is_nonzero (o.loop n)
          then some (o.loop n, round n a)
          else agent_rounds services o fuel (n + 1) (round n a))
  unfolding agent_rounds
  agent_rounds-suc fuel n a = refl

  pub agent_rounds-RoundsEnd :
      (fuel n k : ℕ) (a : Agent S)
      → k < fuel
      → StopsAt (n + k)
      → At watched a
      → RoundsEnd (agent_rounds services o fuel n a)
  agent_rounds-RoundsEnd zero n k a h stop at_level = absurd (omega arith)
  agent_rounds-RoundsEnd (suc fuel) n zero a h stop at_level =
      let now = round-At n a at_level in
      let here : n + 0 ≡ n = omega arith in
      let ends : StopsAt n = rw here at stop in
      rw (agent_rounds-suc fuel n a) (
        if_three RoundsEnd (o.stop_signal n) (is_nonzero (o.loop n)) _ _ _ now now
          (λ untold fine. absurd (ground arith)))
  agent_rounds-RoundsEnd (suc fuel) n (suc k) a h stop at_level =
      let now = round-At n a at_level in
      let there : n + suc k ≡ n + 1 + k = omega arith in
      rw (agent_rounds-suc fuel n a) (
        if_three RoundsEnd (o.stop_signal n) (is_nonzero (o.loop n)) _ _ _ now now (λ untold fine.
          agent_rounds-RoundsEnd fuel (n + 1) k (round n a) (omega arith) (rw there at stop) now))
