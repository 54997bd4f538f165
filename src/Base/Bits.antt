-- ===== src/Base/Bits.antt =====
-- The bits of a byte: C's `&`, `|` and `~` with the masks that the log codes use, as arithmetic.
-- A field of a byte is a quotient and a remainder, which `omega` reads. The facts are checked by
-- evaluation at every byte.
use Prim.Native.Nat.{ℕ, zero, suc, ◌+◌, ◌-◌, ◌*◌, ◌/◌, ◌%◌, ◌<◌, bit_and, bit_or}
use mathlib.Core.Path.{◌≡◌, refl}
use mathlib.Core.Bool.{Bool, true, ◌&&◌}
use native.Mathlib.Omega.{arith}
use aitrios_edge_device_core.Base.Tests.{◌==◌}

-- A conversion to `uint8_t` and to `uint16_t`.
abbrev pub u8 : ℕ → ℕ
u8 n = n % 256

abbrev pub u16 : ℕ → ℕ
u16 n = n % 65536

-- `x << k` at `int`, before it is stored.
abbrev pub shl : ℕ → ℕ → ℕ
shl x zero = x
shl x (suc k) = shl x k * 2

-- `code & ~mask`, stored in a `uint8_t`: of `~mask` only the low eight bits count.
abbrev pub clear : ℕ → ℕ → ℕ
clear code mask = bit_and code (255 - mask)

-- One bit of a byte, by its weight.
abbrev pub bit_at : ℕ → ℕ → ℕ
bit_at x weight = x / weight % 2

-- Whether two functions agree at the numbers below a bound, by evaluation.
module _ (f g : ℕ → ℕ) where
  agrees : ℕ → Bool
  agrees zero = true
  agrees (suc bound) = agrees bound && f bound == g bound

  agrees_lem : (bound n : ℕ) → agrees bound ≡ true → n < bound → f n ≡ g n
  unfolding agrees
  agrees_lem zero n table h = absurd (omega arith)
  agrees_lem (suc bound) n table h = ground (arith, agrees_lem bound n)

  byte_fact : agrees 256 ≡ true → (x : ℕ) → x < 256 → f x ≡ g x
  byte_fact table x h = agrees_lem 256 x table h

pub clear_1 : (x : ℕ) → x < 256 → bit_and x 254 ≡ x - bit_at x 1
unfolding agrees
clear_1 = byte_fact (λ x. bit_and x 254) (λ x. x - bit_at x 1) refl

pub clear_2 : (x : ℕ) → x < 256 → bit_and x 253 ≡ x - bit_at x 2 * 2
unfolding agrees
clear_2 = byte_fact (λ x. bit_and x 253) (λ x. x - bit_at x 2 * 2) refl

pub clear_4 : (x : ℕ) → x < 256 → bit_and x 251 ≡ x - bit_at x 4 * 4
unfolding agrees
clear_4 = byte_fact (λ x. bit_and x 251) (λ x. x - bit_at x 4 * 4) refl

pub clear_8 : (x : ℕ) → x < 256 → bit_and x 247 ≡ x - bit_at x 8 * 8
unfolding agrees
clear_8 = byte_fact (λ x. bit_and x 247) (λ x. x - bit_at x 8 * 8) refl

pub set_1 : (x : ℕ) → x < 256 → bit_or x 1 ≡ x + 1 - bit_at x 1
unfolding agrees
set_1 = byte_fact (λ x. bit_or x 1) (λ x. x + 1 - bit_at x 1) refl

pub set_2 : (x : ℕ) → x < 256 → bit_or x 2 ≡ x + 2 - bit_at x 2 * 2
unfolding agrees
set_2 = byte_fact (λ x. bit_or x 2) (λ x. x + 2 - bit_at x 2 * 2) refl

pub set_4 : (x : ℕ) → x < 256 → bit_or x 4 ≡ x + 4 - bit_at x 4 * 4
unfolding agrees
set_4 = byte_fact (λ x. bit_or x 4) (λ x. x + 4 - bit_at x 4 * 4) refl

pub set_8 : (x : ℕ) → x < 256 → bit_or x 8 ≡ x + 8 - bit_at x 8 * 8
unfolding agrees
set_8 = byte_fact (λ x. bit_or x 8) (λ x. x + 8 - bit_at x 8 * 8) refl

pub mask_low_two : (x : ℕ) → x < 256 → bit_and x 3 ≡ x % 4
unfolding agrees
mask_low_two = byte_fact (λ x. bit_and x 3) (λ x. x % 4) refl

pub mask_high_six : (x : ℕ) → x < 256 → bit_and x 252 ≡ x - x % 4
unfolding agrees
mask_high_six = byte_fact (λ x. bit_and x 252) (λ x. x - x % 4) refl

pub mask_low_nibble : (x : ℕ) → x < 256 → bit_and x 15 ≡ x % 16
unfolding agrees
mask_low_nibble = byte_fact (λ x. bit_and x 15) (λ x. x % 16) refl

-- Two disjoint fields joined by `|`; the pair is one byte, split at `w`.
join_low_two : (x : ℕ) → x < 256 → bit_or (x / 4 * 4) (x % 4) ≡ x
unfolding agrees
join_low_two = byte_fact (λ x. bit_or (x / 4 * 4) (x % 4)) (λ x. x) refl

join_low_nibble : (x : ℕ) → x < 256 → bit_or (x % 16) (x / 16 * 16) ≡ x
unfolding agrees
join_low_nibble = byte_fact (λ x. bit_or (x % 16) (x / 16 * 16)) (λ x. x) refl

pub or_low_two : (a r : ℕ) → a < 256 → a % 4 ≡ 0 → r < 4 → bit_or a r ≡ a + r
or_low_two a r ha hq hr =
    let high : (a + r) / 4 * 4 ≡ a = omega arith in
    let low : (a + r) % 4 ≡ r = omega arith in
    rw (high, low) at (join_low_two (a + r) (omega arith))

pub or_high_nibble : (r b : ℕ) → r < 16 → b < 256 → b % 16 ≡ 0 → bit_or r b ≡ b + r
or_high_nibble r b hr hb hq =
    let high : (b + r) / 16 * 16 ≡ b = omega arith in
    let low : (b + r) % 16 ≡ r = omega arith in
    rw (high, low) at (join_low_nibble (b + r) (omega arith))

join_bytes_table : agrees (λ x. bit_or (x / 256 * 256) (x % 256)) (λ x. x) 65536 ≡ true
unfolding agrees
join_bytes_table = refl

pub or_low_byte : (hi lo : ℕ) → hi < 256 → lo < 256 → bit_or (hi * 256) lo ≡ hi * 256 + lo
or_low_byte hi lo hh hl =
    let high : (hi * 256 + lo) / 256 ≡ hi = omega arith in
    let low : (hi * 256 + lo) % 256 ≡ lo = omega arith in
    rw (high, low) at
      (agrees_lem (λ x. bit_or (x / 256 * 256) (x % 256)) (λ x. x) 65536 (hi * 256 + lo)
        join_bytes_table (omega arith))

join_low_six : (x : ℕ) → x < 256 → bit_or (x / 64 * 64) (x % 64) ≡ x
unfolding agrees
join_low_six = byte_fact (λ x. bit_or (x / 64 * 64) (x % 64)) (λ x. x) refl

pub or_low_six : (a r : ℕ) → a < 256 → a % 64 ≡ 0 → r < 64 → bit_or a r ≡ a + r
or_low_six a r ha hq hr =
    let high : (a + r) / 64 * 64 ≡ a = omega arith in
    let low : (a + r) % 64 ≡ r = omega arith in
    rw (high, low) at (join_low_six (a + r) (omega arith))

pub mask_high_nibble : (x : ℕ) → x < 256 → bit_and x 240 ≡ x - x % 16
unfolding agrees
mask_high_nibble = byte_fact (λ x. bit_and x 240) (λ x. x - x % 16) refl
