-- ===== src/Agent/Registration/Kept.antt =====
-- Where the accepted symbols are, as long as the queue is not torn.
use mathlib.Core.List.{append_assoc}
use aitrios_edge_device_core.Base.{Bool, true, false, ◌≡◌, refl, sym, ap, ◌∙◌, List, [], ◌∷◌, ◌++◌}
use aitrios_edge_device_core.Agent.{NativeSymbolEntry}
use aitrios_edge_device_core.Agent.Registration.{
  either, Threads, Step, refused, passes, fails, locks, inserts, launch, gives_up, finds_none,
  finds_first, looks_ahead, looks_past, removes, takes, tears, Reach, here, later,
}

either-false : (a b : Bool) → either a b ≡ false → a ≡ false
either-false true b h = absurd cc
either-false false b h = refl

-- A torn queue stays torn.
Step-whole : {s t : Threads} → Step s t → t.torn ≡ false → s.torn ≡ false
Step-whole (refused i on out) h = h
Step-whole (passes i entry off out) h = h
Step-whole (fails i entry at) h = h
Step-whole (locks i entry at free) h = either-false _ _ h
Step-whole (inserts i entry at) h = h
Step-whole (launch at) h = h
Step-whole (gives_up at) h = h
Step-whole (finds_none at q) h = h
Step-whole (finds_first entry rest at q) h = h
Step-whole (looks_ahead entry next rest at q) h = h
Step-whole (looks_past entry at q) h = h
Step-whole (removes has_next entry rest at q) h = either-false _ _ h
Step-whole (takes has_next entry rest at q) h = h
Step-whole (tears queue torn) h = h

Step-kept :
    {s t : Threads}
    → Step s t
    → s.torn ≡ false
    → s.accepted ≡ s.taken ++ s.queue
    → t.accepted ≡ t.taken ++ t.queue
Step-kept (refused i on out) whole h = h
Step-kept (passes i entry off out) whole h = h
Step-kept (fails i entry at) whole h = h
Step-kept (locks i entry at free) whole h = h
Step-kept {s} (inserts i entry at) whole h =
    ap (λ (l : List NativeSymbolEntry). l ++ entry ∷ []) h
    ∙ append_assoc s.taken s.queue (entry ∷ [])
Step-kept (launch at) whole h = h
Step-kept (gives_up at) whole h = h
Step-kept (finds_none at q) whole h = h
Step-kept (finds_first entry rest at q) whole h = h
Step-kept (looks_ahead entry next rest at q) whole h = h
Step-kept (looks_past entry at q) whole h = h
Step-kept (removes has_next entry rest at q) whole h = h
Step-kept {s} (takes has_next entry rest at q) whole h =
    h ∙ ap (◌++◌ s.taken) q ∙ sym (append_assoc s.taken (entry ∷ []) rest)
Step-kept (tears queue torn) whole h = absurd cc

pub Reach-kept :
    {s t : Threads}
    → Reach s t
    → s.accepted ≡ s.taken ++ s.queue
    → t.torn ≡ false
    → t.accepted ≡ t.taken ++ t.queue
Reach-kept here h whole = h
Reach-kept (later r step) h whole =
    let before = Step-whole step whole in Step-kept step before (Reach-kept r h before)
