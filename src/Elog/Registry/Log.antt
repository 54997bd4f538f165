-- ===== src/Elog/Registry/Log.antt =====
-- The event log that SystemSetELog writes, read back from its latest event.
use mathlib.Core.Path.{subst}
use aitrios_edge_device_core.Base.{
  ℕ, ◌/◌, ◌%◌, ◌<◌, ◌≡◌, ◌≢◌, refl, sym, ap, inl, inr, Bool, false, Option, none, some, List, [],
  ◌∷◌, ◌==◌, if◌then◌else◌, arith, ℤ, Bool-cases, ltb, if_both,
}
use aitrios_edge_device_core.Elog.{Elog, event_id, max_elog_entry}
use aitrios_edge_device_core.Elog.Invariant.{IsValid}
use aitrios_edge_device_core.Elog.Codes.{or_else, event_id_fields}
use aitrios_edge_device_core.Elog.Threads.{Operation, reg, set_code, get_code, Users, Accesses}
use aitrios_edge_device_core.Elog.Threads.Refined.{at_rest}
use aitrios_edge_device_core.Elog.Registry.{
  Registry, registry, registered, with_code, coded, promise, IsByte,
}
use aitrios_edge_device_core.Elog.Registry.Shared.{AllBytes, kept, Accesses-promise}

-- The code of the latest event of a component; the high byte of an event is its component.
unfoldable pub latest : ℕ → List ℕ → Option ℕ
latest component [] = none
latest component (event ∷ events) =
    let rest = latest component events in
    if event / 256 == component then some (event % 256) else rest

-- No event repeats the one before it of the same component.
abbrev pub Changes : List ℕ → Type 0
Changes [] = Unit {0}
Changes (event ∷ events) = (latest (event / 256) events ≢ some (event % 256)) × Changes events

-- The log tells the codes of the components with an event, and tells changes only.
pub record IsFaithful (r : Registry) : Type 0 where
  pub current :
      (component code : ℕ) → latest component r.events ≡ some code → r.codes component ≡ some code
  pub changes : Changes r.events

registered-IsFaithful :
    (component value : ℕ) (r : Registry) → IsFaithful r → IsFaithful (registered component value r)
registered-IsFaithful component value r h =
    let added : Registry = record r {
      codes = λ c. or_else (r.codes c) (if component == c then some value else none);
    } in
    if_both IsFaithful (ltb r.used max_elog_entry) _ r
      (record { current = λ c code last. rw (h.current c code last) refl; changes = h.changes }) h

-- A table that has sent no event.
pub unwritten-IsFaithful : (e : Elog) → e.written ≡ [] → IsFaithful (registry e)
unfolding latest
unwritten-IsFaithful e unwritten = record {
  current = λ c code last.
      let nothing : latest c e.written ≡ none = ap (latest c) unwritten in absurd (ground arith);
  changes = subst Changes (sym unwritten) tt;
}

latest-event_id :
    (component code c : ℕ) (events : List ℕ)
    → component < 256
    → code < 256
    → latest c (event_id component code ∷ events)
      ≡ (if component == c then some code else latest c events)
unfolding latest
latest-event_id component code c events hc hk =
    let (high, low) = event_id_fields component code hc hk in rw (high, low) refl

sent-IsFaithful :
    (component code old : ℕ) (r : Registry)
    → component < 256
    → code < 256
    → r.codes component ≡ some old
    → (old == code) ≡ false
    → IsFaithful r
    → IsFaithful
        (record (with_code component code r) { events = event_id component code ∷ r.events })
sent-IsFaithful component code old r hc hk has differs h =
    let (high, low) = event_id_fields component code hc hk in
    record {
      current = λ c v last.
          let event = latest-event_id component code c r.events hc hk in
          elim (Bool-cases (component == c)) [
            | inl same ↦ ground (arith, event, last)
            | inr other ↦ ground (arith, event, last, h.current c v)
          ];
      changes = (
        λ same.
            let again : latest component r.events ≡ some code = rw (high, low) at same in
            let kept = h.current component code again in ground arith,
        h.changes,
      );
    }

module _ (write_elog : List ℕ → Bool) where
  coded-IsFaithful :
      (component code : ℕ) (o : Option ℕ) (r : Registry)
      → component < 256
      → code < 256
      → r.codes component ≡ o
      → IsFaithful r
      → IsFaithful (coded write_elog component code o r).1
  coded-IsFaithful component code none r hc hk has h = h
  coded-IsFaithful component code (some old) r hc hk has h = elim (Bool-cases (old == code)) [
    | inl same ↦ rw same h
    | inr differs ↦ rw differs (sent-IsFaithful component code old r hc hk has differs h)
  ]

  pub promise-IsFaithful :
      (op : Operation) (r : Registry)
      → IsByte write_elog op
      → IsFaithful r
      → IsFaithful (promise write_elog op r).1
  promise-IsFaithful (reg component value msg) r byte h = registered-IsFaithful component value r h
  promise-IsFaithful (set_code component code) r byte h =
      coded-IsFaithful component code (r.codes component) r byte.0 byte.1 refl h
  promise-IsFaithful (get_code component) r byte h = h

  kept-IsFaithful :
      (history : List (Operation × ℤ)) (r : Registry)
      → AllBytes write_elog history
      → IsFaithful r
      → IsFaithful (kept write_elog history r)
  kept-IsFaithful [] r bytes h = h
  kept-IsFaithful ((op, ret) ∷ history) r (byte, bytes) h =
      promise-IsFaithful op (kept write_elog history r) byte (kept-IsFaithful history r bytes h)

  -- However threads interleave, from a valid table with no thread inside that has handed no event
  -- to the event log, to any point at which the mutex is free: if the components and codes given to
  -- the finished calls are bytes, the events handed over, accepted or not, alone tell the code of
  -- each component that has one, in the low byte of the latest event whose high byte is the
  -- component, and no event repeats the one before it of the same component.
  pub Accesses-IsFaithful :
      {start : Elog} {t : Users}
      → Accesses write_elog (at_rest write_elog start) t
      → IsValid start
      → start.written ≡ []
      → AllBytes write_elog t.history
      → t.holder ≡ none
      → IsFaithful (registry t.elog)
  Accesses-IsFaithful {start} {t} run valid unwritten bytes free =
      let begins = unwritten-IsFaithful start unwritten in
      subst IsFaithful (sym (Accesses-promise write_elog run valid bytes free).0)
        (kept-IsFaithful t.history (registry start) bytes begins)
