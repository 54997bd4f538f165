-- ===== src/Base/Text.antt =====
-- C strings: the bytes before the terminating 0, none of which is 0 itself.
use Prim.Native.Nat.{ℕ, zero, suc}
use Prim.Native.Char.{code}
use Prim.Native.String.{String}
use mathlib.Core.Path.{◌≡◌, refl}
use mathlib.Core.Logic.{◌↔◌}
use mathlib.Core.Bool.{Bool, true, false, ◌&&◌}
use mathlib.Core.List.{List, [], ◌∷◌, ◌++◌}
use native.Mathlib.Omega.{arith}
use aitrios_edge_device_core.Base.Tests.{◌==◌}
use aitrios_edge_device_core.Base.Lists.{length, take}

abbrev pub CString : Type 0
CString = List ℕ

-- A string literal.
abbrev pub codes : String → CString
codes String.[] = []
codes (String.◌∷◌ c s) = code c ∷ codes s

-- `strcmp(s, t) == 0`.
unfoldable pub strcmp_eq : CString → CString → Bool
strcmp_eq [] [] = true
strcmp_eq [] (y ∷ ys) = false
strcmp_eq (x ∷ xs) [] = false
strcmp_eq (x ∷ xs) (y ∷ ys) = x == y && strcmp_eq xs ys

-- `strncmp(s, t, n) == 0`: at most n bytes are compared, and none after an end.
unfoldable pub strncmp_eq : CString → CString → ℕ → Bool
strncmp_eq xs ys zero = true
strncmp_eq [] [] (suc n) = true
strncmp_eq [] (y ∷ ys) (suc n) = false
strncmp_eq (x ∷ xs) [] (suc n) = false
strncmp_eq (x ∷ xs) (y ∷ ys) (suc n) = x == y && strncmp_eq xs ys n

pub strcmp_eq_iff : (s t : CString) → (strcmp_eq s t ≡ true) ↔ (s ≡ t)
unfolding strcmp_eq
strcmp_eq_iff [] [] = ground arith
strcmp_eq_iff [] (y ∷ ys) = ground arith
strcmp_eq_iff (x ∷ xs) [] = ground arith
strcmp_eq_iff (x ∷ xs) (y ∷ ys) = ground (arith, strcmp_eq_iff xs ys)

-- `!strncmp(s, check, strlen(check))` accepts what begins with `check`.
pub strncmp_eq-append :
    (check rest : CString) → strncmp_eq (check ++ rest) check (length check) ≡ true
unfolding strncmp_eq
strncmp_eq-append [] rest = refl
strncmp_eq-append (c ∷ check) rest = ground (arith, strncmp_eq-append check rest)

-- `strlen`; a buffer without a terminator is read to its end.
unfoldable pub strlen : List ℕ → ℕ
strlen [] = 0
strlen (zero ∷ buf) = 0
strlen (suc x ∷ buf) = suc (strlen buf)

-- Whether a terminator is among the bytes.
abbrev pub has_nul : List ℕ → Bool
has_nul [] = false
has_nul (zero ∷ buf) = true
has_nul (suc x ∷ buf) = has_nul buf

pub has_nul-take : (n : ℕ) (s : CString) → has_nul s ≡ false → has_nul (take n s) ≡ false
has_nul-take zero s h = refl
has_nul-take (suc n) [] h = refl
has_nul-take (suc n) (zero ∷ s) h = absurd (ground arith)
has_nul-take (suc n) (suc x ∷ s) h = has_nul-take n s h
