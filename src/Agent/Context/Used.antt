-- ===== src/Agent/Context/Used.antt =====
-- What the calls of the library are handed.
use mathlib.Core.Logic.{ite}
use mathlib.Core.Path.{subst}
use native.Mathlib.Decide.{ℕ_discrete}
use aitrios_edge_device_core.Base.{ℕ, Bool, true, false, ◌≡◌, refl, sym, List, [], ◌∷◌}
use aitrios_edge_device_core.Agent.Context.{
  Memory, unmade, live, freed, Target, null, context, ThreadPc, before_setup, set_up, connected,
  finishing, ended, Request, CallerPc, outside, requesting, asking, asked, undeploying, undeployed,
  Shared, start, goes, target, uses_it, Step, sets_up, gives_up, connects, frees, finishes,
  requests, refuses, serves, asks, returns_again, is_initial, is_running, reads_again, undeploys,
  completes, Steps, here, later,
}

-- A caller has a pointer that is not NULL only once it is set, and past the first status only with
-- one.
abbrev pub Holds : Bool → CallerPc → Type 0
Holds ctxt outside = Unit {0}
Holds ctxt (requesting request false) = Unit {0}
Holds ctxt (requesting request true) = ctxt ≡ true
Holds ctxt (asking false) = Unit {0}
Holds ctxt (asking true) = ctxt ≡ true
Holds ctxt asked = ctxt ≡ true
Holds ctxt (undeploying has) = (has ≡ true) × ctxt ≡ true
Holds ctxt (undeployed has) = (has ≡ true) × ctxt ≡ true

-- The context by the place of the agent thread: it can only be reached while it is live or after it
-- is freed.
abbrev pub Fits : ThreadPc → Memory → Bool → Type 0
Fits before_setup memory ctxt = (memory ≡ unmade) × ctxt ≡ false
Fits set_up memory ctxt = (memory ≡ live) × ctxt ≡ false
Fits connected memory ctxt = (memory ≡ live) × ctxt ≡ true
Fits finishing memory ctxt = memory ≡ freed
Fits ended memory ctxt = memory ≡ freed

-- The agent thread has freed its context.
abbrev pub HasFreed : ThreadPc → Type 0
HasFreed finishing = Unit {0}
HasFreed ended = Unit {0}
HasFreed _ = ⊥

-- A call was handed a live context, or a freed one by when the thread has called `evp_agent_free`.
abbrev pub Proper : ThreadPc → Target → Type 0
Proper pc null = ⊥
Proper pc (context unmade) = ⊥
Proper pc (context live) = Unit {0}
Proper pc (context freed) = HasFreed pc

abbrev pub AllProper : ThreadPc → List Target → Type 0
AllProper pc [] = Unit {0}
AllProper pc (t ∷ uses) = Proper pc t × AllProper pc uses

pub record IsSound (s : Shared) : Type 0 where
  pub fits : Fits s.agent s.memory s.ctxt
  pub holds : (i : ℕ) → Holds s.ctxt (s.callers i)
  pub proper : AllProper s.agent s.uses

AllProper-moves :
    (pc pc' : ThreadPc) (uses : List Target)
    → (HasFreed pc → HasFreed pc')
    → AllProper pc uses
    → AllProper pc' uses
AllProper-moves pc pc' [] h proper = tt
AllProper-moves pc pc' (context live ∷ uses) h proper = (tt, AllProper-moves pc pc' uses h proper.1)
AllProper-moves pc pc' (context freed ∷ uses) h proper =
    (h proper.0, AllProper-moves pc pc' uses h proper.1)
AllProper-moves pc pc' (context unmade ∷ uses) h proper = absurd proper.0
AllProper-moves pc pc' (null ∷ uses) h proper = absurd proper.0

-- What a pointer that is not NULL leads to.
Fits-Proper :
    (pc : ThreadPc) (memory : Memory) (ctxt : Bool)
    → Fits pc memory ctxt
    → ctxt ≡ true
    → Proper pc (context memory)
Fits-Proper before_setup memory ctxt fits h = let off = fits.1 in absurd cc
Fits-Proper set_up memory ctxt fits h = let off = fits.1 in absurd cc
Fits-Proper connected memory ctxt fits h = subst (λ m. Proper connected (context m)) (sym fits.0) tt
Fits-Proper finishing memory ctxt fits h = subst (λ m. Proper finishing (context m)) (sym fits) tt
Fits-Proper ended memory ctxt fits h = subst (λ m. Proper ended (context m)) (sym fits) tt

Holds-set : (ctxt : Bool) (pc : CallerPc) → Holds ctxt pc → Holds true pc
Holds-set ctxt outside h = tt
Holds-set ctxt (requesting request false) h = tt
Holds-set ctxt (requesting request true) h = refl
Holds-set ctxt (asking false) h = tt
Holds-set ctxt (asking true) h = refl
Holds-set ctxt asked h = refl
Holds-set ctxt (undeploying has) h = (h.0, refl)
Holds-set ctxt (undeployed has) h = (h.0, refl)

Holds-ite :
    (ctxt : Bool) {P : Type 0} (d : Dec P) (pc old : CallerPc)
    → Holds ctxt pc
    → Holds ctxt old
    → Holds ctxt (ite d pc old)
Holds-ite ctxt (yes p) pc old h h' = h
Holds-ite ctxt (no n) pc old h h' = h'

-- The pointer that a caller reads now.
Holds-requesting : (ctxt : Bool) (request : Request) → Holds ctxt (requesting request ctxt)
Holds-requesting true request = refl
Holds-requesting false request = tt

Holds-asking : (ctxt : Bool) → Holds ctxt (asking ctxt)
Holds-asking true = refl
Holds-asking false = tt

goes-IsSound :
    (s : Shared) (i : ℕ) (pc : CallerPc) → IsSound s → Holds s.ctxt pc → IsSound (goes s i pc)
goes-IsSound s i pc sound h = record {
  fits = sound.fits;
  holds = λ j. Holds-ite s.ctxt (ℕ_discrete i j) pc (s.callers j) h (sound.holds j);
  proper = sound.proper;
}

-- A call on a pointer that the caller may have.
uses_it-IsSound :
    (s : Shared) (i : ℕ) (has : Bool) (pc : CallerPc)
    → IsSound s
    → has ≡ true
    → s.ctxt ≡ true
    → Holds s.ctxt pc
    → IsSound (uses_it s i has pc)
uses_it-IsSound s i has pc sound is_set on h = record {
  fits = sound.fits;
  holds = λ j. Holds-ite s.ctxt (ℕ_discrete i j) pc (s.callers j) h (sound.holds j);
  proper = (
    subst (λ b. Proper s.agent (target b s.memory)) (sym is_set)
        (Fits-Proper s.agent s.memory s.ctxt sound.fits on),
    sound.proper,
  );
}

-- What the place of a caller says.
at_place : (s : Shared) (i : ℕ) (pc : CallerPc) → IsSound s → s.callers i ≡ pc → Holds s.ctxt pc
at_place s i pc sound at = subst (Holds s.ctxt) at (sound.holds i)

Step-IsSound : {s t : Shared} → Step s t → IsSound s → IsSound t
Step-IsSound {s} (sets_up at) sound =
    let fits : Fits before_setup s.memory s.ctxt = rw at at sound.fits in
    record {
      fits = (refl, fits.1);
      holds = sound.holds;
      proper = AllProper-moves s.agent set_up s.uses (λ end. absurd (rw at at end)) sound.proper;
    }
Step-IsSound {s} (gives_up at) sound = record {
  fits = refl;
  holds = sound.holds;
  proper = AllProper-moves s.agent finishing s.uses (λ end. tt) sound.proper;
}
Step-IsSound {s} (connects at) sound =
    let fits : Fits set_up s.memory s.ctxt = rw at at sound.fits in
    record {
      fits = (fits.0, refl);
      holds = λ i. Holds-set s.ctxt (s.callers i) (sound.holds i);
      proper = AllProper-moves s.agent connected s.uses (λ end. absurd (rw at at end)) sound.proper;
    }
Step-IsSound {s} (frees at) sound = record {
  fits = refl;
  holds = sound.holds;
  proper = AllProper-moves s.agent finishing s.uses (λ end. tt) sound.proper;
}
Step-IsSound {s} (finishes at) sound =
    let fits : Fits finishing s.memory s.ctxt = rw at at sound.fits in
    record {
      fits = fits;
      holds = sound.holds;
      proper = AllProper-moves s.agent ended s.uses (λ end. tt) sound.proper;
    }
Step-IsSound {s} (requests i request at) sound =
    goes-IsSound s i _ sound (Holds-requesting s.ctxt request)
Step-IsSound {s} (refuses i request at) sound = goes-IsSound s i outside sound tt
Step-IsSound {s} (serves i request at) sound =
    uses_it-IsSound s i true outside sound refl (at_place s i _ sound at) tt
Step-IsSound {s} (asks i at) sound = goes-IsSound s i _ sound (Holds-asking s.ctxt)
Step-IsSound {s} (returns_again i at) sound = goes-IsSound s i outside sound tt
Step-IsSound {s} (is_initial i at) sound =
    uses_it-IsSound s i true outside sound refl (at_place s i _ sound at) tt
Step-IsSound {s} (is_running i at) sound =
    let on = at_place s i (asking true) sound at in uses_it-IsSound s i true asked sound refl on on
Step-IsSound {s} (reads_again i at) sound =
    let on = at_place s i asked sound at in goes-IsSound s i (undeploying s.ctxt) sound (on, on)
Step-IsSound {s} (undeploys i ctxt at) sound =
    let on = at_place s i (undeploying ctxt) sound at in
    uses_it-IsSound s i ctxt (undeployed ctxt) sound on.0 on.1 on
Step-IsSound {s} (completes i ctxt at) sound =
    let on = at_place s i (undeployed ctxt) sound at in
    uses_it-IsSound s i ctxt outside sound on.0 on.1 tt

start-IsSound : IsSound start
start-IsSound = record { fits = (refl, refl); holds = λ i. tt; proper = tt }

pub Steps-IsSound : {s : Shared} → Steps start s → IsSound s
Steps-IsSound here = start-IsSound
Steps-IsSound (later steps step) = Step-IsSound step (Steps-IsSound steps)

-- However the steps of the agent thread and of any number of callers of the backdoor functions
-- interleave, from the start: no call of the agent library is handed NULL or a context that is not
-- made, and one is handed a freed context only if the agent thread has called evp_agent_free,
-- whether or not it has ended.
pub Steps-AllProper : {s : Shared} → Steps start s → AllProper s.agent s.uses
Steps-AllProper steps = (Steps-IsSound steps).proper
