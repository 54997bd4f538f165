-- ===== src/Elog/Registry/Fresh.antt =====
-- The bytes that are no component of a table, by a count of its entries.
use aitrios_edge_device_core.Base.{
  ℕ, zero, suc, ◌≤◌, ◌<◌, ◌≡◌, refl, inl, inr, Bool, true, false, ◌||◌, none, List, [], ◌∷◌, ◌==◌,
  map, arith, if◌then◌else◌, length, length-take, take, Bool-cases,
}
use aitrios_edge_device_core.Elog.{Entry, Elog}
use aitrios_edge_device_core.Elog.Invariant.{IsValid, AllSettled}
use aitrios_edge_device_core.Elog.Codes.{first_code, code_of}

has : ℕ → List ℕ → Bool
has c [] = false
has c (x ∷ xs) = x == c || has c xs

without : ℕ → List ℕ → List ℕ
without d [] = []
without d (x ∷ xs) = let rest = without d xs in if x == d then rest else x ∷ rest

length-without : (d : ℕ) (xs : List ℕ) → length (without d xs) ≤ length xs
unfolding without
length-without d [] = omega arith
length-without d (x ∷ xs) = ground (arith, length-without d xs)

length-without-has : (d : ℕ) (xs : List ℕ) → has d xs ≡ true → length (without d xs) < length xs
unfolding without has
length-without-has d [] h = absurd (ground arith)
length-without-has d (x ∷ xs) h = ground (arith, length-without d xs, length-without-has d xs)

has-without : (c d : ℕ) (xs : List ℕ) → c < d → has c (without d xs) ≡ has c xs
unfolding without has
has-without c d [] h = refl
has-without c d (x ∷ xs) h = ground (arith, has-without c d xs h)

-- Among the numbers up to the length of a list one is missing from it.
missing : (n : ℕ) (xs : List ℕ) → length xs ≤ n → (c : ℕ) × (c ≤ n) × (has c xs ≡ false)
unfolding has
missing zero [] h = (0, omega arith, refl)
missing zero (x ∷ xs) h = absurd (omega arith)
missing (suc n) xs h = elim (Bool-cases (has (suc n) xs)) [
  | inl there ↦
      let shorter = length-without-has (suc n) xs there in
      let (c, small, lacks) = missing n (without (suc n) xs) (omega arith) in
      (c, omega arith, ground (arith, has-without c (suc n) xs (omega arith), lacks))
  | inr lacks ↦ (suc n, omega arith, lacks)
]

abbrev components : List Entry → List ℕ
components es = map (λ e. e.component) es

length-components : (es : List Entry) → length (components es) ≡ length es
length-components [] = refl
length-components (e ∷ es) = omega (arith, length-components es)

first_code-lacks :
    (es : List Entry) (c : ℕ) → has c (components es) ≡ false → first_code es c ≡ none
unfolding has
first_code-lacks [] c h = refl
first_code-lacks (e ∷ es) c h = ground (arith, first_code-lacks es c)

-- A byte other than 0 that has no code.
pub unused : (e : Elog) → IsValid e → (c : ℕ) × (c < 256) × (0 < c) × (code_of c e ≡ none)
unfolding code_of has
unused e valid =
    let es = take e.last e.elog_array in
    let few = length-take e.last e.elog_array in
    let same = length-components es in
    let bound = valid.in_bounds in
    let (c, small, lacks) = missing 129 (0 ∷ components es) (omega arith) in
    let nonzero : 0 < c = ground arith in
    (c, omega arith, nonzero, first_code-lacks es c (ground (arith, lacks)))

first_code-beyond :
    (n : ℕ) (es : List Entry) (c : ℕ) → AllSettled es → 256 ≤ c → first_code (take n es) c ≡ none
first_code-beyond zero es c h big = refl
first_code-beyond (suc n) [] c h big = refl
first_code-beyond (suc n) (e ∷ es) c (settled, h) big =
    ground (arith, settled.component_byte, first_code-beyond n es c h big)

pub code_of-beyond : (c : ℕ) (e : Elog) → IsValid e → 256 ≤ c → code_of c e ≡ none
unfolding code_of
code_of-beyond c e valid big = first_code-beyond e.last e.elog_array c valid.settled big
