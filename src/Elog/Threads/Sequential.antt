-- ===== src/Elog/Threads/Sequential.antt =====
-- The threads together do what their calls do one after the other, in the order in which they give
-- the mutex back.
use mathlib.Core.Logic.{if_pos, if_neg}
use mathlib.Core.Path.{subst}
use native.Mathlib.Decide.{ℕ_discrete}
use aitrios_edge_device_core.Base.{
  ℕ, zero, suc, ◌≡◌, ◌≢◌, refl, sym, ap, ◌∙◌, Bool, true, false, Option, none, some, List, [], ◌∷◌,
  ltb, ◌==◌, arith, if◌then◌else◌, ℤ, pos, neg, enoent, get_or, set,
}
use aitrios_edge_device_core.Elog.{
  Entry, blank, Elog, max_elog_entry, elog_err, component_to_entry, event_id, system_set_elog,
  system_get_elog, send_code,
}
use aitrios_edge_device_core.Elog.Threads.{
  Operation, Place, outside, entered, wrote_component, wrote_updated, wrote_code, wrote_msg,
  changed, marked, sent, leaving, Users, update, move, put, code_at, note_event, event_result,
  perform,
}

set_twice :
    (f g : Entry → Entry) (k : ℕ) (xs : List Entry)
    → let ys = set xs k (f (get_or xs k blank)) in
      set ys k (g (get_or ys k blank)) ≡ set xs k (g (f (get_or xs k blank)))
set_twice f g k [] = refl
set_twice f g zero (x ∷ xs) = refl
set_twice f g (suc k) (x ∷ xs) = ap (◌∷◌ x) (set_twice f g k xs)

-- Two writes to the same entry are one.
pub put_twice :
    (f g : Entry → Entry) (k : ℕ) (e : Elog) → put g k (put f k e) ≡ put (λ x. g (f x)) k e
put_twice f g k e =
    ap (λ (array : List Entry). record e { elog_array = array }) (set_twice f g k e.elog_array)

module _ (write_elog : List ℕ → Bool) where
  -- The table after these calls, one after the other, with these results, the latest first.
  abbrev pub Sequential : Elog → List (Operation × ℤ) → Elog → Type 0
  Sequential start [] e = e ≡ start
  Sequential start ((op, ret) ∷ history) e =
      (before : Elog) × Sequential start history before × perform write_elog op before ≡ (ret, e)

  -- How far the operation of the thread in its section has come, from the table at its lock.
  abbrev pub Midway : Elog → Place → Elog → Type 0
  Midway b outside e = ⊥
  Midway b (entered op) e = e ≡ b
  Midway b (wrote_component component value msg) e =
      (ltb b.last max_elog_entry ≡ true)
      × e ≡ put (λ x. record x { component = component }) b.last b
  Midway b (wrote_updated component value msg) e =
      (ltb b.last max_elog_entry ≡ true)
      × e ≡ put (λ x. record x { component = component; updated = false }) b.last b
  Midway b (wrote_code component value msg) e =
      (ltb b.last max_elog_entry ≡ true)
      × e ≡ put (λ x. record x { component = component; updated = false; code = value }) b.last b
  Midway b (wrote_msg component value msg) e =
      (ltb b.last max_elog_entry ≡ true)
      × e
        ≡ put (λ x. record { component = component; updated = false; code = value; msg = msg })
            b.last b
  Midway b (changed component code k) e =
      (component_to_entry component b ≡ some k)
      × ((code_at k b == code) ≡ false)
      × e ≡ put (λ x. record x { code = code }) k b
  Midway b (marked component code k) e =
      (component_to_entry component b ≡ some k)
      × ((code_at k b == code) ≡ false)
      × e ≡ put (λ x. record x { code = code; updated = true }) k b
  Midway b (sent component code k ret) e =
      let id = event_id component code in
      (component_to_entry component b ≡ some k)
      × ((code_at k b == code) ≡ false)
      × (e ≡ note_event id (put (λ x. record x { code = code; updated = true }) k b))
      × ret ≡ event_result write_elog id b
  Midway b (leaving op ret) e = perform write_elog op b ≡ (ret, e)

  -- The mutex is free, the table is `b` and no thread is inside; or one thread has come so far from
  -- `b` and no other is inside.
  abbrev pub Section : Elog → Users → Option ℕ → Type 0
  Section b s none = (s.elog ≡ b) × ((j : ℕ) → s.places j ≡ outside)
  Section b s (some i) = Midway b (s.places i) s.elog × ((j : ℕ) → j ≢ i → s.places j ≡ outside)

  -- The calls of the history, one after the other, lead to a table from which the section goes on.
  pub record IsSequential (start : Elog) (s : Users) : Type 0 where
    pub before : Elog
    pub sequential : Sequential start s.history before
    pub section : Section before s s.holder

  -- A thread that is inside has the mutex.
  abbrev pub Inside : Elog → Users → ℕ → Type 0
  Inside b s i =
      (s.holder ≡ some i) × Midway b (s.places i) s.elog × ((j : ℕ) → j ≢ i → s.places j ≡ outside)

  abbrev pub is_outside : Place → Bool
  is_outside outside = true
  is_outside _ = false

  pub Section-Inside :
      (b : Elog) (s : Users) (i : ℕ) (holder : Option ℕ)
      → s.holder ≡ holder
      → Section b s holder
      → is_outside (s.places i) ≡ false
      → Inside b s i
  Section-Inside b s i none h section inside =
      let out : is_outside (s.places i) ≡ true = ap is_outside (section.1 i) in
      absurd (ground (arith, out, inside))
  Section-Inside b s i (some j) h section inside = elim (ℕ_discrete i j) [
    | yes same ↦
        subst
          (λ k.
            (s.holder ≡ some k)
            × Midway b (s.places k) s.elog
            × ((j : ℕ) → j ≢ k → s.places j ≡ outside))
          (sym same) (h, section.0, section.1)
    | no differs ↦
        let out : is_outside (s.places i) ≡ true = ap is_outside (section.1 i differs) in
        absurd (ground (arith, out, inside))
  ]

  -- Another place and table for the thread that is inside.
  pub goes_on :
      (start : Elog) (s : Users) (i : ℕ) (place place' : Place) (e : Elog)
      → IsSequential start s
      → s.places i ≡ place
      → is_outside place ≡ false
      → ((b : Elog) → Midway b place s.elog → Midway b place' e)
      → IsSequential start (move s i place' e)
  goes_on start s i place place' e q at inside further =
      let b = q.before in
      let here = Section-Inside b s i s.holder refl q.section (rw at inside) in
      let mine : update s.places i place' i ≡ place' = if_pos (ℕ_discrete i i) refl _ _ in
      let others = λ (j : ℕ) (ne : j ≢ i).
        if_neg (ℕ_discrete i j) (λ same. ne (sym same)) place' (s.places j) ∙ here.2 j ne in
      let came : Midway b place s.elog = rw at at here.1 in
      record {
        before = b;
        sequential = q.sequential;
        section = rw here.0 (rw mine (further b came), others);
      }

  -- What `SystemSetELog` and `SystemGetELog` do at an entry and without one.
  pub set-none :
      (component code : ℕ) (b : Elog)
      → component_to_entry component b ≡ none
      → system_set_elog write_elog component code b ≡ (neg enoent, b)
  unfolding system_set_elog
  set-none component code b h =
      ap
        (λ (o : Option ℕ). elim o as (λ x. ℤ × Elog) [
          | none ↦ (neg enoent, b)
          | some i ↦
              if (get_or b.elog_array i blank).code == code
              then (pos 0, b)
              else send_code write_elog i component code b
        ])
        h

  pub set-some :
      (component code k : ℕ) (b : Elog)
      → component_to_entry component b ≡ some k
      → system_set_elog write_elog component code b
        ≡ (if code_at k b == code then (pos 0, b) else send_code write_elog k component code b)
  unfolding system_set_elog
  set-some component code k b h =
      ap
        (λ (o : Option ℕ). elim o as (λ x. ℤ × Elog) [
          | none ↦ (neg enoent, b)
          | some i ↦
              if (get_or b.elog_array i blank).code == code
              then (pos 0, b)
              else send_code write_elog i component code b
        ])
        h

  pub get-entry :
      (component : ℕ) (o : Option ℕ) (b : Elog)
      → component_to_entry component b ≡ o
      → system_get_elog component b ≡ elim o as (λ x. ℕ) [ none ↦ elog_err | some k ↦ code_at k b ]
  unfolding system_get_elog
  get-entry component o b h =
      ap
        (λ (o : Option ℕ). elim o as (λ x. ℕ) [
          | none ↦ elog_err
          | some i ↦ (get_or b.elog_array i blank).code
        ])
        h
