-- ===== src/Agent/Registration/Quiet.antt =====
-- When no call stands between its test and its insertion as the agent thread starts, the flush takes
-- every symbol that was accepted.
use mathlib.Core.List.{append-nil}
use aitrios_edge_device_core.Base.{
  ℕ, ◌≡◌, refl, sym, ap, ◌∙◌, Bool, true, false, List, [], ◌∷◌, ◌++◌, arith, if◌then◌else◌, length,
}
use aitrios_edge_device_core.Agent.{NativeSymbolEntry}
use aitrios_edge_device_core.Agent.Registration.{
  AgentPc, before_flush, at_entry, in_body, removing, flushed, outside, either, Threads, Step,
  refused, passes, fails, locks, inserts, launch, gives_up, finds_none, finds_first, looks_ahead,
  looks_past, removes, takes, tears, Reach, here, later,
}
use aitrios_edge_device_core.Agent.Registration.Kept.{Reach-kept}

-- What the place of the agent thread says about the queue while nothing is inserted.
abbrev pub Fits : AgentPc → List NativeSymbolEntry → Type 0
Fits flushed queue = queue ≡ []
Fits (in_body false) queue = length queue ≡ 1
Fits (removing false) queue = length queue ≡ 1
Fits _ queue = Unit {0}

-- The agent thread has started, and no caller has passed the test.
pub record IsQuiet (accepted : List NativeSymbolEntry) (s : Threads) : Type 0 where
  pub on : s.started ≡ true
  pub free : s.locked ≡ false
  pub whole : s.torn ≡ false
  pub all_outside : (i : ℕ) → s.callers i ≡ outside
  pub fits : Fits s.agent s.queue
  pub same : s.accepted ≡ accepted

rest-nil :
    (entry : NativeSymbolEntry) (rest : List NativeSymbolEntry)
    → length (entry ∷ rest) ≡ 1
    → rest ≡ []
rest-nil entry [] h = refl
rest-nil entry (x ∷ rest) h = absurd (omega arith)

Fits-removes :
    (has_next : Bool) (queue : List NativeSymbolEntry)
    → Fits (in_body has_next) queue
    → Fits (removing has_next) queue
Fits-removes true queue h = tt
Fits-removes false queue h = h

Fits-takes :
    (has_next : Bool) (entry : NativeSymbolEntry) (rest : List NativeSymbolEntry)
    → Fits (removing has_next) (entry ∷ rest)
    → Fits (if has_next then at_entry else flushed) rest
Fits-takes true entry rest h = tt
Fits-takes false entry rest h = rest-nil entry rest h

Step-IsQuiet :
    {accepted : List NativeSymbolEntry} {s t : Threads}
    → Step s t
    → IsQuiet accepted s
    → IsQuiet accepted t
Step-IsQuiet (refused i on out) q = q
Step-IsQuiet (passes i entry off out) q = absurd (let same = q.on in cc)
Step-IsQuiet (fails i entry at) q = absurd (let none = q.all_outside i in cc)
Step-IsQuiet (locks i entry at free) q = absurd (let none = q.all_outside i in cc)
Step-IsQuiet (inserts i entry at) q = absurd (let none = q.all_outside i in cc)
Step-IsQuiet (launch at) q = record {
  on = refl;
  free = q.free;
  whole = q.whole;
  all_outside = q.all_outside;
  fits = tt;
  same = q.same;
}
Step-IsQuiet (gives_up at) q = record {
  on = q.on;
  free = q.free;
  whole = q.whole;
  all_outside = q.all_outside;
  fits = tt;
  same = q.same;
}
Step-IsQuiet (finds_none at none) q = record {
  on = q.on;
  free = q.free;
  whole = q.whole;
  all_outside = q.all_outside;
  fits = none;
  same = q.same;
}
Step-IsQuiet (finds_first entry rest at some) q = record {
  on = q.on;
  free = q.free;
  whole = q.whole;
  all_outside = q.all_outside;
  fits = tt;
  same = q.same;
}
Step-IsQuiet (looks_ahead entry ahead rest at some) q = record {
  on = q.on;
  free = q.free;
  whole = q.whole;
  all_outside = q.all_outside;
  fits = tt;
  same = q.same;
}
Step-IsQuiet (looks_past entry at one) q = record {
  on = q.on;
  free = q.free;
  whole = q.whole;
  all_outside = q.all_outside;
  fits = ap length one;
  same = q.same;
}
Step-IsQuiet {s} (removes has_next entry rest at some) q = record {
  on = q.on;
  free = q.free;
  whole = ap (λ b. either b s.locked) q.whole ∙ q.free;
  all_outside = q.all_outside;
  fits = Fits-removes has_next s.queue (rw at at (q.fits));
  same = q.same;
}
Step-IsQuiet {s} (takes has_next entry rest at some) q = record {
  on = q.on;
  free = q.free;
  whole = q.whole;
  all_outside = q.all_outside;
  fits = Fits-takes has_next entry rest (rw (at, some) at (q.fits));
  same = q.same;
}
Step-IsQuiet (tears queue torn) q = absurd (let whole = q.whole in cc)

Reach-IsQuiet :
    {accepted : List NativeSymbolEntry} {s t : Threads}
    → Reach s t
    → IsQuiet accepted s
    → IsQuiet accepted t
Reach-IsQuiet here q = q
Reach-IsQuiet (later r step) q = Step-IsQuiet step (Reach-IsQuiet r q)

-- If the agent thread has started and is before the flush, no registration stands between its test
-- and its end, the lock is free, and the queue is whole with every accepted symbol taken or in it,
-- then whenever the flush has ended it has taken every symbol whose registration had succeeded, in
-- their order, none has been accepted since, the queue is empty and no insertion has overlapped a
-- removal, whatever the threads did.
pub flush-takes_all :
    {s t : Threads}
    → s.started ≡ true
    → s.agent ≡ before_flush
    → ((i : ℕ) → s.callers i ≡ outside)
    → s.locked ≡ false
    → s.torn ≡ false
    → s.accepted ≡ s.taken ++ s.queue
    → Reach s t
    → t.agent ≡ flushed
    → (t.taken ≡ s.accepted) × (t.accepted ≡ s.accepted) × (t.queue ≡ []) × t.torn ≡ false
flush-takes_all {s} {t} on at all_outside free whole kept r end =
    let quiet : IsQuiet s.accepted t = Reach-IsQuiet r (record {
      on = on;
      free = free;
      whole = whole;
      all_outside = all_outside;
      fits = rw at tt;
      same = refl;
    }) in
    let empty : t.queue ≡ [] = rw end at (quiet.fits) in
    let all : t.accepted ≡ t.taken =
      Reach-kept r kept quiet.whole ∙ ap (◌++◌ t.taken) empty ∙ append-nil t.taken in
    (sym all ∙ quiet.same, quiet.same, empty, quiet.whole)
