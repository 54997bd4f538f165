-- ===== src/Dlog/FileName.antt =====
-- The macro EVP_FILE_NAME of src/evp-agent/src/log.h: the last part of a path.
use mathlib.Core.List.{append_assoc}
use aitrios_edge_device_core.Base.{
  ℕ, ◌≡◌, refl, sym, ap, ◌∙◌, ◌⊎◌, inl, inr, Bool, false, ◌||◌, Option, none, some, [], ◌∷◌, ◌++◌,
  arith, ◌==◌, Bool-cases, CString, drop,
}
use aitrios_edge_device_core.Dlog.{last_of, strrchr, name_at, evp_file_name}

-- Whether a byte is in a string.
abbrev pub has_byte : ℕ → CString → Bool
has_byte c [] = false
has_byte c (x ∷ s) = x == c || has_byte c s

-- What `strrchr` finds: the string is cut before the last of these bytes, or has none.
abbrev Found : CString → ℕ → Option CString → Type 0
Found s c none = has_byte c s ≡ false
Found s c (some t) =
    (before after : CString) × (s ≡ before ++ t) × (t ≡ c ∷ after) × (has_byte c after ≡ false)

last_of-Found :
    (x : ℕ) (s : CString) (c : ℕ) (r : Option CString)
    → Found s c r
    → Found (x ∷ s) c (last_of x s c r)
last_of-Found x s c none absent = elim (Bool-cases (x == c)) [
  | inl same ↦
      let e : x ≡ c = ground arith in rw same ([], s, refl, ap (λ (y : ℕ). y ∷ s) e, absent)
  | inr other ↦ rw other (rw other absent)
]
last_of-Found x s c (some t) (before, after, cut, head, absent) =
    (x ∷ before, after, ap (◌∷◌ x) cut, head, absent)

strrchr-Found : (s : CString) (c : ℕ) → Found s c (strrchr s c)
unfolding strrchr
strrchr-Found [] c = refl
strrchr-Found (x ∷ s) c = last_of-Found x s c (strrchr s c) (strrchr-Found s c)

-- A name without the byte, behind nothing or behind the byte.
abbrev pub Named : CString → CString → Type 0
Named path name =
    (dir : CString) × (path ≡ dir ++ name)
    × (has_byte b'/' name ≡ false)
    × ((dir ≡ []) ⊎ ((parent : CString) × (dir ≡ parent ++ b'/' ∷ [])))

name_at-Named :
    (path : CString) (r : Option CString) → Found path b'/' r → Named path (name_at path r)
name_at-Named path none absent = ([], refl, absent, inl refl)
name_at-Named path (some t) (before, after, cut, head, absent) =
    let behind : drop 1 t ≡ after = ap (drop 1) head in
    (
      before ++ b'/' ∷ [],
      rw behind (cut ∙ ap (◌++◌ before) head ∙ sym (append_assoc before (b'/' ∷ []) after)),
      rw behind absent,
      inr (before, refl),
    )

-- EVP_FILE_NAME of any path is its end behind the last slash, or all of it: the path is a directory
-- and the name, the name has no slash, and the directory is empty or ends in a slash.
pub evp_file_name-Named : (path : CString) → Named path (evp_file_name path)
unfolding evp_file_name
evp_file_name-Named path = name_at-Named path (strrchr path b'/') (strrchr-Found path b'/')
