-- ===== src/Elog/Invariant.antt =====
-- The invariant of the table of log.c, and that every operation keeps it.
use aitrios_edge_device_core.Base.{
  Bool-cases, neg, enoent, ℕ, zero, suc, ◌≤◌, ◌<◌, ◌≡◌, refl, ap, Bool, true, false, Option, none,
  some, List, [], ◌∷◌, arith, ◌==◌, if◌then◌else◌, pos, length, get_or, set, replicate, length-set,
  length-replicate, CString, Option-cases, inl, inr,
}
use aitrios_edge_device_core.Elog.{
  Entry, blank, Elog, find_entry, component_to_entry, elog_array_size, system_reg_elog,
  system_set_elog, send_code, system_get_elog, elog_err,
}

-- An entry between two operations: its fields are bytes, and no change of it is under way.
pub record IsSettled (e : Entry) : Type 0 where
  pub component_byte : e.component < 256
  pub code_byte : e.code < 256
  pub not_updated : e.updated ≡ false

abbrev pub AllSettled : List Entry → Type 0
AllSettled [] = Unit
AllSettled (e ∷ es) = IsSettled e × AllSettled es

-- Between two operations the array keeps its 128 places, and every entry is settled.
pub record IsValid (s : Elog) : Type 0 where
  pub places : length s.elog_array ≡ 128
  pub in_bounds : s.last ≤ 128
  pub settled : AllSettled s.elog_array

blank-IsSettled : IsSettled blank
blank-IsSettled = record {
  component_byte = omega arith;
  code_byte = omega arith;
  not_updated = refl;
}

AllSettled-replicate : (n : ℕ) → AllSettled (replicate n blank)
AllSettled-replicate zero = tt
AllSettled-replicate (suc n) = (blank-IsSettled, AllSettled-replicate n)

pub AllSettled-set :
    (es : List Entry) (i : ℕ) (e : Entry) → AllSettled es → IsSettled e → AllSettled (set es i e)
AllSettled-set [] i e h k = tt
AllSettled-set (x ∷ es) zero e h k = (k, h.1)
AllSettled-set (x ∷ es) (suc i) e h k = (h.0, AllSettled-set es i e h.1 k)

pub get_or-IsSettled : (es : List Entry) (i : ℕ) → AllSettled es → IsSettled (get_or es i blank)
get_or-IsSettled [] i h = blank-IsSettled
get_or-IsSettled (x ∷ es) zero h = h.0
get_or-IsSettled (x ∷ es) (suc i) h = get_or-IsSettled es i h.1

-- What the linker gives: 128 blank entries, none in use.
abbrev pub static_elog : Elog
static_elog = record { elog_array = replicate 128 blank; last = 0; written = [] }

pub static_elog-IsValid : IsValid static_elog
static_elog-IsValid = record {
  places = length-replicate 128 blank;
  in_bounds = omega arith;
  settled = AllSettled-replicate 128;
}

-- Registering a component keeps the invariant, also when the table is full.
pub system_reg_elog-IsValid :
    (component init_value : ℕ) (msg : CString) (s : Elog)
    → component < 256
    → init_value < 256
    → IsValid s
    → IsValid (system_reg_elog component init_value msg s)
unfolding system_reg_elog
system_reg_elog-IsValid component init_value msg s hc hv h =
    let e : Entry = record {
      component = component;
      code = init_value;
      updated = false;
      msg = msg;
    } in
    let new : IsSettled e = (record { component_byte = hc; code_byte = hv; not_updated = refl }) in
    ground
      (arith, length-set s.elog_array s.last e, AllSettled-set s.elog_array s.last e h.settled new)

-- A second write to one place hides the first, and a place that exists reads as written.
set-set {ℓ} : {A : Type ℓ} (xs : List A) (i : ℕ) (v w : A) → set (set xs i v) i w ≡ set xs i w
set-set [] i v w = refl
set-set (x ∷ xs) zero v w = refl
set-set (x ∷ xs) (suc i) v w = ap (◌∷◌ x) (set-set xs i v w)

get_or-set {ℓ} :
    {A : Type ℓ} (xs : List A) (i : ℕ) (v d : A) → i < length xs → get_or (set xs i v) i d ≡ v
get_or-set [] i v d h = elim h [ ]
get_or-set (x ∷ xs) zero v d h = refl
get_or-set (x ∷ xs) (suc i) v d h = get_or-set xs i v d (omega arith)

-- The entry that is found lies in the array, and is the component's.
pub find_entry_lem :
    (size : ℕ) (es : List Entry) (component : ℕ) {i : ℕ}
    → find_entry size es component ≡ some i
    → (i < size) × (i < length es) × ((get_or es i blank).component ≡ component)
find_entry_lem zero es component h = cc
find_entry_lem (suc size) [] component h = cc
find_entry_lem (suc size) (e ∷ es) component h =
    elim (Option-cases (find_entry size es component)) [
      | inl absent ↦ ground arith
      | inr (j, found) ↦ ground (arith, find_entry_lem size es component found)
    ]

-- What `send_code` leaves in the array: the entry with the new code, and `updated` false again.
abbrev pub with_code : ℕ → ℕ → List Entry → List Entry
with_code i code es = set es i (record (get_or es i blank) { code = code; updated = false })

pub component_to_entry_lem :
    (component : ℕ) (s : Elog) {i : ℕ}
    → component_to_entry component s ≡ some i
    → (i < elog_array_size s)
      × (i < length s.elog_array)
      × ((get_or s.elog_array i blank).component ≡ component)
unfolding component_to_entry
component_to_entry_lem component s found =
    find_entry_lem (elog_array_size s) s.elog_array component found

module _ (write_elog : List ℕ → Bool) where
  pub system_set_elog_absent :
      (component code : ℕ) (s : Elog)
      → component_to_entry component s ≡ none
      → system_set_elog write_elog component code s ≡ (neg enoent, s)
  unfolding system_set_elog
  system_set_elog_absent component code s absent = rw (absent, system_set_elog)

  pub system_set_elog_found :
      (component code : ℕ) (s : Elog) {i : ℕ}
      → component_to_entry component s ≡ some i
      → system_set_elog write_elog component code s ≡ (
          if (get_or s.elog_array i blank).code == code
          then (pos 0, s)
          else send_code write_elog i component code s)
  unfolding system_set_elog
  system_set_elog_found component code s found = rw (found, system_set_elog)

  pub send_code_array :
      (i component code : ℕ) (s : Elog)
      → i < length s.elog_array
      → (send_code write_elog i component code s).1.elog_array ≡ with_code i code s.elog_array
  unfolding send_code
  send_code_array i component code s h =
      let e = get_or s.elog_array i blank in
      let changed = record e { code = code; updated = true } in
      rw (get_or-set s.elog_array i changed blank h) (set-set s.elog_array i changed _)

  with_code-AllSettled :
      (i code : ℕ) (es : List Entry) → code < 256 → AllSettled es → AllSettled (with_code i code es)
  with_code-AllSettled i code es hc h =
      let old = get_or-IsSettled es i h in
      AllSettled-set es i _ h
        (record { component_byte = old.component_byte; code_byte = hc; not_updated = refl })

  send_code-IsValid :
      (i component code : ℕ) (s : Elog)
      → code < 256
      → i < length s.elog_array
      → IsValid s
      → IsValid (send_code write_elog i component code s).1
  send_code-IsValid i component code s hc hi h = record {
    places = rw (send_code_array i component code s hi) (rw length-set h.places);
    in_bounds = unfold send_code in h.in_bounds;
    settled =
        rw (send_code_array i component code s hi)
          (with_code-AllSettled i code s.elog_array hc h.settled);
  }

  -- Setting a code that is a byte keeps the table valid: 128 places, at most 128 in use, all fields
  -- bytes, and no entry left marked as updated.
  pub system_set_elog-IsValid :
      (component code : ℕ) (s : Elog)
      → code < 256
      → IsValid s
      → IsValid (system_set_elog write_elog component code s).1
  system_set_elog-IsValid component code s hc h =
      elim (Option-cases (component_to_entry component s)) [
        | inl absent ↦ rw (system_set_elog_absent component code s absent) h
        | inr (i, found) ↦
            let bound = component_to_entry_lem component s found in
            rw (system_set_elog_found component code s found)
              (elim (Bool-cases ((get_or s.elog_array i blank).code == code)) [
                | inl same ↦ rw same h
                | inr differs ↦ rw differs (send_code-IsValid i component code s hc bound.1 h)
              ])
      ]

-- What is read is a byte.
pub system_get_elog-byte :
    (component : ℕ) (s : Elog) → IsValid s → system_get_elog component s < 256
unfolding system_get_elog
system_get_elog-byte component s h = byte (component_to_entry component s)
  where
    byte :
        (o : Option ℕ)
        → (elim o as (λ x. ℕ) [ none ↦ elog_err | some i ↦ (get_or s.elog_array i blank).code ])
          < 256
    byte none = omega arith
    byte (some i) = (get_or-IsSettled s.elog_array i h.settled).code_byte
