-- ===== src/Elog/Registry/Abstract.antt =====
-- What the callers of log.c can tell of a table, against the registry.
use mathlib.Core.Option
use aitrios_edge_device_core.Base.{
  ℕ, zero, suc, ◌+◌, ◌-◌, ◌<◌, ◌≡◌, ◌↔◌, ◌∙◌, refl, sym, ap, inl, inr, Bool, Option, none, some,
  List, [], ◌∷◌, arith, ℤ, pos, ltb, Bool-cases, ltb→lt, ltb→le,
}
use aitrios_edge_device_core.Elog.{Elog, elog_err}
use aitrios_edge_device_core.Elog.Invariant.{IsValid}
use aitrios_edge_device_core.Elog.Codes.{code_of}
use aitrios_edge_device_core.Elog.Threads.{Operation, reg, set_code, get_code, perform}
use aitrios_edge_device_core.Elog.Registry.{
  Registry, registry, coded, promise, IsByte, perform-IsValid, perform-promise, registry-≡,
}
use aitrios_edge_device_core.Elog.Registry.Fresh.{unused, code_of-beyond}

module _ (write_elog : List ℕ → Bool) where
  -- A sequence of calls, the first one first: their results, and the table at the end.
  abbrev pub perform_all : List Operation → Elog → List ℤ × Elog
  perform_all [] e = ([], e)
  perform_all (op ∷ ops) e =
      let r = perform write_elog op e in let rest = perform_all ops r.1 in (r.0 ∷ rest.0, rest.1)

  abbrev pub OnBytes : List Operation → Type 0
  OnBytes [] = Unit {0}
  OnBytes (op ∷ ops) = IsByte write_elog op × OnBytes ops

  -- What the callers see: the results, and the events that were handed over in the end.
  abbrev pub told : List Operation → Elog → List ℤ × List ℕ
  told ops e = let r = perform_all ops e in (r.0, r.1.written)

  abbrev pub Indistinguishable : Elog → Elog → Type 0
  Indistinguishable e e' = (ops : List Operation) → OnBytes ops → told ops e ≡ told ops e'

  promise_all : List Operation → Registry → List ℤ × Registry
  promise_all [] r = ([], r)
  promise_all (op ∷ ops) r =
      let s = promise write_elog op r in let rest = promise_all ops s.1 in (s.0 ∷ rest.0, rest.1)

  abbrev promised : List Operation → Registry → List ℤ × List ℕ
  promised ops r = let s = promise_all ops r in (s.0, s.1.events)

  perform_all-promise_all :
      (ops : List Operation) (e : Elog)
      → OnBytes ops
      → IsValid e
      → let r = perform_all ops e in (r.0, registry r.1) ≡ promise_all ops (registry e)
  unfolding promise_all
  perform_all-promise_all [] e bytes valid = refl
  perform_all-promise_all (op ∷ ops) e (byte, bytes) valid =
      let r = perform write_elog op e in
      let first = perform-promise write_elog op e byte valid in
      let rest =
        perform_all-promise_all ops r.1 bytes (perform-IsValid write_elog op e byte valid)
        ∙ ap (λ (s : ℤ × Registry). promise_all ops s.1) first in
      λ i. ((first i).0 ∷ (rest i).0, (rest i).1)

  told-promised :
      (ops : List Operation) (e : Elog)
      → OnBytes ops
      → IsValid e
      → told ops e ≡ promised ops (registry e)
  told-promised ops e bytes valid =
      ap (λ (r : List ℤ × Registry). (r.0, r.1.events)) (perform_all-promise_all ops e bytes valid)

  -- Two registries that keep the same promises.
  Alike : Registry → Registry → Type 0
  Alike r r' = (ops : List Operation) → OnBytes ops → promised ops r ≡ promised ops r'

  Alike-next :
      (op : Operation) (r r' : Registry)
      → IsByte write_elog op
      → Alike r r'
      → Alike (promise write_elog op r).1 (promise write_elog op r').1
  unfolding Alike promise_all
  Alike-next op r r' byte alike ops bytes =
      ap (λ (t : List ℤ × List ℕ). (rest_of t.0, t.1)) (alike (op ∷ ops) (byte, bytes))
    where
      rest_of : List ℤ → List ℤ
      rest_of [] = []
      rest_of (x ∷ xs) = xs

  Alike-first :
      (op : Operation) (r r' : Registry)
      → IsByte write_elog op
      → Alike r r'
      → (promise write_elog op r).0 ≡ (promise write_elog op r').0
  unfolding Alike promise_all
  Alike-first op r r' byte alike =
      ap (λ (t : List ℤ × List ℕ). first_of t.0) (alike (op ∷ []) (byte, tt))
    where
      first_of : List ℤ → ℤ
      first_of [] = pos 0
      first_of (x ∷ xs) = x

  -- A code is told by reading it, and from its absence by setting ELOG_ERR.
  same_code :
      (c : ℕ) (a b : Option ℕ) (r r' : Registry)
      → ◌≡◌ {A = ℤ} (pos (Option.get_or a elog_err)) (pos (Option.get_or b elog_err))
      → (coded write_elog c elog_err a r).0 ≡ (coded write_elog c elog_err b r').0
      → a ≡ b
  same_code c none none r r' read written = refl
  same_code c (some v) (some v') r r' read written = ground arith
  same_code c none (some v') r r' read written = absurd (ground arith)
  same_code c (some v) none r r' read written = absurd (ground arith)

  Alike-codes : (c : ℕ) (r r' : Registry) → c < 256 → Alike r r' → r.codes c ≡ r'.codes c
  Alike-codes c r r' byte alike =
      same_code c (r.codes c) (r'.codes c) r r' (Alike-first (get_code c) r r' byte alike)
        (Alike-first (set_code c elog_err) r r' (byte, omega arith) alike)

  -- Registrations fill the one table before the other, and then a new component tells them apart.
  not_fuller :
      (k c : ℕ) (r r' : Registry)
      → Alike r r'
      → r'.used + k ≡ 128
      → r.used < r'.used
      → c < 256
      → 0 < c
      → r.codes c ≡ none
      → r'.codes c ≡ none
      → ⊥
  not_fuller zero c r r' alike full less byte positive absent absent' =
      let op = reg c 0 [] in
      let next = Alike-next op r r' (byte, omega arith) alike in
      let read =
        Alike-first (get_code c) (promise write_elog op r).1 (promise write_elog op r').1 byte
          next in
      ground arith
  not_fuller (suc k) c r r' alike full less byte positive absent absent' =
      let op = reg 0 0 [] in
      not_fuller k c (promise write_elog op r).1 (promise write_elog op r').1
        (Alike-next op r r' (omega arith, omega arith) alike) (ground arith) (ground arith) byte
        positive (ground arith) (ground arith)

  -- A table with fewer entries than another one is told from it.
  not_less :
      (e e' : Elog)
      → IsValid e
      → IsValid e'
      → Alike (registry e) (registry e')
      → ¬ (e.last < e'.last)
  not_less e e' valid valid' alike less =
      let (c, byte, positive, absent) = unused e valid in
      let absent' = sym (Alike-codes c (registry e) (registry e') byte alike) ∙ absent in
      let bound = valid'.in_bounds in
      not_fuller (128 - e'.last) c (registry e) (registry e') alike (omega arith) less byte positive
        absent absent'

  same_codes :
      (c : ℕ) (e e' : Elog)
      → IsValid e
      → IsValid e'
      → Alike (registry e) (registry e')
      → code_of c e ≡ code_of c e'
  same_codes c e e' valid valid' alike = elim (Bool-cases (ltb c 256)) [
    | inl byte ↦ Alike-codes c (registry e) (registry e') (ltb→lt c 256 byte) alike
    | inr big ↦
        code_of-beyond c e valid (ltb→le c 256 big)
        ∙ sym (code_of-beyond c e' valid' (ltb→le c 256 big))
  ]

  Alike-≡ :
      (e e' : Elog)
      → IsValid e
      → IsValid e'
      → Alike (registry e) (registry e')
      → registry e ≡ registry e'
  unfolding Alike promise_all
  Alike-≡ e e' valid valid' alike =
      let fewer = not_less e e' valid valid' alike in
      let more = not_less e' e valid' valid (λ ops bytes. sym (alike ops bytes)) in
      let used : e.last ≡ e'.last = elim (Bool-cases (ltb e.last e'.last)) [
        | inl less ↦ absurd (fewer (ltb→lt e.last e'.last less))
        | inr not_less ↦ elim (Bool-cases (ltb e'.last e.last)) [
          | inl less ↦ absurd (more (ltb→lt e'.last e.last less))
          | inr not_more ↦ ground arith
        ]
      ] in
      registry-≡ (registry e) (registry e') (λ c. same_codes c e e' valid valid' alike) used
        (ap (λ (t : List ℤ × List ℕ). t.1) (alike [] tt))

  -- Two valid tables return the same results to every sequence of calls of the three operations
  -- with bytes, and hand over the same events, exactly if they stand for the same abstract table:
  -- the order of the entries and their texts cannot be told, and the codes, the number of places in
  -- use and the events can.
  pub Indistinguishable-registry :
      (e e' : Elog) → IsValid e → IsValid e' → Indistinguishable e e' ↔ (registry e ≡ registry e')
  unfolding Alike
  Indistinguishable-registry e e' valid valid' = (
    λ same. Alike-≡ e e' valid valid' (λ ops bytes.
        sym (told-promised ops e bytes valid) ∙ same ops bytes ∙ told-promised ops e' bytes valid'),
    λ same ops bytes.
        told-promised ops e bytes valid
        ∙ ap (promised ops) same
        ∙ sym (told-promised ops e' bytes valid'),
  )
