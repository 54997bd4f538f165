-- ===== src/Elog/Registry/Shared.antt =====
-- The threads of Elog.Threads against the registry.
use mathlib.Core.Path.{subst}
use aitrios_edge_device_core.Base.{ℕ, ◌≡◌, ◌∙◌, refl, sym, ap, Bool, none, List, [], ◌∷◌, ℤ}
use aitrios_edge_device_core.Elog.{Elog}
use aitrios_edge_device_core.Elog.Invariant.{IsValid}
use aitrios_edge_device_core.Elog.Threads.{Operation, Users, Accesses}
use aitrios_edge_device_core.Elog.Threads.Sequential.{Sequential, Section}
use aitrios_edge_device_core.Elog.Threads.Refined.{at_rest, Accesses-IsSequential}
use aitrios_edge_device_core.Elog.Registry.{
  Registry, registry, promise, IsByte, seen, perform-IsValid, perform-promise,
}

module _ (write_elog : List ℕ → Bool) where
  abbrev pub AllBytes : List (Operation × ℤ) → Type 0
  AllBytes [] = Unit
  AllBytes ((op, ret) ∷ history) = IsByte write_elog op × AllBytes history

  -- The registry after these calls, the latest first, and what they answer.
  abbrev pub kept : List (Operation × ℤ) → Registry → Registry
  kept [] r = r
  kept ((op, ret) ∷ history) r = (promise write_elog op (kept history r)).1

  abbrev pub answers : List (Operation × ℤ) → Registry → List ℤ
  answers [] r = []
  answers ((op, ret) ∷ history) r = (promise write_elog op (kept history r)).0 ∷ answers history r

  abbrev pub results : List (Operation × ℤ) → List ℤ
  results [] = []
  results ((op, ret) ∷ history) = ret ∷ results history

  -- From a valid table, calls one after the other do what is promised of them.
  abbrev Keeps : Elog → List (Operation × ℤ) → Elog → Type 0
  Keeps start history e =
      IsValid e
      × (registry e ≡ kept history (registry start))
      × results history ≡ answers history (registry start)

  Sequential-Keeps :
      (start : Elog) (history : List (Operation × ℤ)) (e : Elog)
      → IsValid start
      → AllBytes history
      → Sequential write_elog start history e
      → Keeps start history e
  Sequential-Keeps start [] e valid bytes same =
      (subst IsValid (sym same) valid, ap registry same, refl)
  Sequential-Keeps start ((op, ret) ∷ history) e valid (byte, bytes) (b, earlier, done) =
      let before = Sequential-Keeps start history b valid bytes earlier in
      let after : (ret, registry e) ≡ promise write_elog op (kept history (registry start)) =
        sym (ap (seen write_elog) done)
        ∙ perform-promise write_elog op b byte before.0
        ∙ ap (promise write_elog op) before.1 in
      (
        subst IsValid (ap (λ (r : ℤ × Elog). r.1) done)
            (perform-IsValid write_elog op b byte before.0),
        ap (λ (r : ℤ × Registry). r.1) after,
        λ i. (after i).0 ∷ before.2 i,
      )

  -- From a valid table with no thread inside, to any point at which the mutex is free: if the
  -- components and codes given to the finished calls are bytes, then these calls, in the order in
  -- which they gave the mutex back, returned what the abstract table returns (a map from components
  -- to codes, with the number of places in use and the events sent) for the same calls, and the
  -- array stands for what the abstract table has become.
  pub Accesses-promise :
      {start : Elog} {t : Users}
      → Accesses write_elog (at_rest write_elog start) t
      → IsValid start
      → AllBytes t.history
      → t.holder ≡ none
      → (registry t.elog ≡ kept t.history (registry start))
        × results t.history ≡ answers t.history (registry start)
  Accesses-promise {start} {t} run valid bytes free =
      let s = Accesses-IsSequential write_elog start run in
      let keeps = Sequential-Keeps start t.history s.before valid bytes s.sequential in
      let rest : Section write_elog s.before t none =
        subst (Section write_elog s.before t) free s.section in
      (ap registry rest.0 ∙ keeps.1, keeps.2)
