-- ===== src/Agent/Registration/Lost.antt =====
-- The race of a registration with the start of the agent: a symbol that is accepted and never
-- reaches the runtime.
use mathlib.Core.List.{append_assoc, append-nil}
use native.Mathlib.Decide.{ℕ_discrete}
use aitrios_edge_device_core.Base.{◌≡◌, refl, sym, ap, ◌∙◌, true, false, List, [], ◌∷◌, ◌++◌}
use aitrios_edge_device_core.Agent.{NativeSymbolEntry}
use aitrios_edge_device_core.Agent.Registration.{
  AgentPc, not_running, before_flush, at_entry, in_body, removing, flushed, gave_up, tested,
  inserting, outside, either, is_removing, Threads, init, update, Step, refused, passes, fails,
  locks, inserts, launch, gives_up, finds_none, finds_first, looks_ahead, looks_past, removes,
  takes, tears, Reach, here, later,
}

-- The agent thread has no step left.
abbrev pub IsOver : AgentPc → Type 0
IsOver flushed = Unit {0}
IsOver gave_up = Unit {0}
IsOver _ = ⊥

-- The taken symbols are the same and the queue has at most grown.
pub record Stranded (s t : Threads) : Type 0 where
  pub over : IsOver t.agent
  pub whole : t.torn ≡ false
  pub taken_same : t.taken ≡ s.taken
  pub grown : (more : List NativeSymbolEntry) × (t.queue ≡ s.queue ++ more)

at_rest : (pc : AgentPc) → IsOver pc → is_removing pc ≡ false
at_rest not_running over = refl
at_rest before_flush over = refl
at_rest at_entry over = refl
at_rest (in_body has_next) over = refl
at_rest (removing has_next) over = absurd over
at_rest flushed over = refl
at_rest gave_up over = refl

Step-Stranded : {s t u : Threads} → Step t u → Stranded s t → Stranded s u
Step-Stranded (refused i on out) h = h
Step-Stranded (passes i entry off out) h = record {
  over = h.over;
  whole = h.whole;
  taken_same = h.taken_same;
  grown = h.grown;
}
Step-Stranded (fails i entry at) h = record {
  over = h.over;
  whole = h.whole;
  taken_same = h.taken_same;
  grown = h.grown;
}
Step-Stranded {s} {t} (locks i entry at free) h = record {
  over = h.over;
  whole = ap (λ b. either b (is_removing t.agent)) h.whole ∙ at_rest t.agent h.over;
  taken_same = h.taken_same;
  grown = h.grown;
}
Step-Stranded {s} (inserts i entry at) h =
    let (more, e) = h.grown in
    record {
      over = h.over;
      whole = h.whole;
      taken_same = h.taken_same;
      grown = (
        more ++ entry ∷ [],
        ap (λ (l : List NativeSymbolEntry). l ++ entry ∷ []) e
            ∙ append_assoc s.queue more (entry ∷ []),
      );
    }
Step-Stranded (launch at) h = absurd (rw at at (h.over))
Step-Stranded (gives_up at) h = absurd (rw at at (h.over))
Step-Stranded (finds_none at none) h = absurd (rw at at (h.over))
Step-Stranded (finds_first entry rest at some) h = absurd (rw at at (h.over))
Step-Stranded (looks_ahead entry ahead rest at some) h = absurd (rw at at (h.over))
Step-Stranded (looks_past entry at one) h = absurd (rw at at (h.over))
Step-Stranded (removes has_next entry rest at some) h = absurd (rw at at (h.over))
Step-Stranded (takes has_next entry rest at some) h = absurd (rw at at (h.over))
Step-Stranded (tears queue torn) h = absurd (let whole = h.whole in cc)

-- Once the flush is over, what is in the queue stays there.
pub Reach-Stranded : {s t : Threads} → IsOver s.agent → s.torn ≡ false → Reach s t → Stranded s t
Reach-Stranded {s} over whole here = record {
  over = over;
  whole = whole;
  taken_same = refl;
  grown = ([], sym (append-nil s.queue));
}
Reach-Stranded over whole (later r step) = Step-Stranded step (Reach-Stranded over whole r)

-- The state after a caller has tested, the agent thread has started and flushed, and the caller
-- has inserted its symbol.
abbrev pub raced : NativeSymbolEntry → Threads
raced entry = record init {
  started = true;
  queue = entry ∷ [];
  accepted = entry ∷ [];
  agent = flushed;
  callers = update (update (update (λ i. outside) 0 (tested entry)) 0 (inserting entry)) 0 outside;
}

raced-Reach : (entry : NativeSymbolEntry) → Reach init (raced entry)
unfolding ℕ_discrete
raced-Reach entry =
    later
      (later
        (later (later (later here (passes 0 entry refl refl)) (launch refl)) (finds_none refl refl))
        (locks 0 entry refl refl))
      (inserts 0 entry refl)

-- For any symbol there is a reachable state in which its registration has succeeded and the flush
-- is over, and from which, whatever the threads do, the flush never takes it and it stays the first
-- entry of the queue.
pub registration_lost :
    (entry : NativeSymbolEntry) {t : Threads}
    → Reach (raced entry) t
    → Reach init (raced entry)
      × ((raced entry).accepted ≡ entry ∷ [])
      × (t.taken ≡ [])
      × (more : List NativeSymbolEntry) × (t.queue ≡ entry ∷ more)
registration_lost entry {t} r =
    let stranded : Stranded (raced entry) t = Reach-Stranded tt refl r in
    (raced-Reach entry, refl, stranded.taken_same, stranded.grown.0, stranded.grown.1)
