-- ===== src/Esf/Read/Chosen.antt =====
-- The search for a file in the directory of the certificate and the key, against what its names are.
use aitrios_edge_device_core.Base.{
  ◌≡◌, ◌∙◌, refl, ap, inl, inr, true, false, Option, none, some, List, [], ◌∷◌, ◌++◌, arith, length,
  CString, strncmp_eq, strncmp_eq-append, Bool-cases,
}
use aitrios_edge_device_core.Esf.Read.{contains, find_name}

-- The name contains the suffix at some place.
abbrev pub Has : CString → CString → Type 0
Has suffix name = (before : CString) × (after : CString) × (name ≡ before ++ suffix ++ after)

abbrev pub NoneHas : CString → List CString → Type 0
NoneHas suffix [] = Unit {0}
NoneHas suffix (name ∷ names) = (¬ Has suffix name) × NoneHas suffix names

-- The first of the names that contains the suffix, or none if no name does.
abbrev pub IsFirst : CString → List CString → Option CString → Type 0
IsFirst suffix names none = NoneHas suffix names
IsFirst suffix names (some name) =
    (before : List CString) × (after : List CString) × (names ≡ before ++ name ∷ after)
    × NoneHas suffix before
    × Has suffix name

strncmp_eq-prefix :
    (name suffix : CString)
    → strncmp_eq name suffix (length suffix) ≡ true
    → (after : CString) × (name ≡ suffix ++ after)
unfolding strncmp_eq
strncmp_eq-prefix name [] h = (name, refl)
strncmp_eq-prefix [] (y ∷ suffix) h = absurd (ground arith)
strncmp_eq-prefix (x ∷ name) (y ∷ suffix) h =
    let same : x ≡ y = ground arith in
    let (after, rest) = strncmp_eq-prefix name suffix (ground arith) in
    (after, λ i. same i ∷ rest i)

contains-Has : (name suffix : CString) → contains name suffix ≡ true → Has suffix name
unfolding contains
contains-Has [] suffix h = let (after, same) = strncmp_eq-prefix [] suffix h in ([], after, same)
contains-Has (x ∷ name) suffix h =
    elim (Bool-cases (strncmp_eq (x ∷ name) suffix (length suffix))) [
      | inl here ↦ let (after, same) = strncmp_eq-prefix (x ∷ name) suffix here in ([], after, same)
      | inr not_here ↦
          let (before, after, same) = contains-Has name suffix (ground arith) in
          (x ∷ before, after, ap (◌∷◌ x) same)
    ]

contains-start :
    (name suffix : CString)
    → strncmp_eq name suffix (length suffix) ≡ true
    → contains name suffix ≡ true
unfolding contains
contains-start [] suffix h = h
contains-start (x ∷ name) suffix h = ground (arith, h)

contains-append :
    (before suffix after : CString) → contains (before ++ suffix ++ after) suffix ≡ true
unfolding contains
contains-append [] suffix after =
    contains-start (suffix ++ after) suffix (strncmp_eq-append suffix after)
contains-append (x ∷ before) suffix after = ground (arith, contains-append before suffix after)

Has-contains : (name suffix : CString) → Has suffix name → contains name suffix ≡ true
Has-contains name suffix (before, after, same) =
    ap (λ name. contains name suffix) same ∙ contains-append before suffix after

not-Has : (name suffix : CString) → contains name suffix ≡ false → ¬ Has suffix name
not-Has name suffix lacks has = let contained = Has-contains name suffix has in absurd cc

-- A name that does not contain the suffix stays before what is found.
IsFirst-later :
    (suffix name : CString) (names : List CString) (found : Option CString)
    → ¬ Has suffix name
    → IsFirst suffix names found
    → IsFirst suffix (name ∷ names) found
IsFirst-later suffix name names none lacks first = (lacks, first)
IsFirst-later suffix name names (some found) lacks (before, after, same, none_before, has) =
    (name ∷ before, after, ap (◌∷◌ name) same, (lacks, none_before), has)

-- The search finds the first name that contains the suffix, and nothing if there is none.
pub find_name-IsFirst :
    (suffix : CString) (names : List CString) → IsFirst suffix names (find_name suffix names)
unfolding find_name
find_name-IsFirst suffix [] = tt
find_name-IsFirst suffix (name ∷ names) = elim (Bool-cases (contains name suffix)) [
  | inl has ↦ rw has ([], names, refl, tt, contains-Has name suffix has)
  | inr lacks ↦ rw lacks (
      IsFirst-later suffix name names (find_name suffix names) (not-Has name suffix lacks)
        (find_name-IsFirst suffix names))
]
