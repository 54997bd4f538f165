-- ===== src/Notifications/Mqtt/Words.antt =====
-- The bytes that the handlers of "mqtt/sync/err" compute, field by field.
use aitrios_edge_device_core.Base.{
  ℕ, ◌+◌, ◌-◌, ◌*◌, ◌%◌, ◌≤◌, ◌<◌, ◌≡◌, ◌∙◌, Bool, arith, bit_and, bit_or, if◌then◌else◌, u8, shl,
  clear, bit_at, clear_2, clear_4, clear_8, set_2, set_4, set_8, mask_low_nibble, mask_high_nibble,
  or_high_nibble,
}
use aitrios_edge_device_core.Notifications.{Notifications}
use aitrios_edge_device_core.Notifications.Mqtt.{
  recovered_mqtt_code, recovered_blob_code, failed_mqtt_code,
}

-- The second status code from its five fields.
abbrev pub mqtt_word : ℕ → ℕ → ℕ → ℕ → ℕ → ℕ
mqtt_word count recv send time modified = count * 16 + recv * 8 + send * 4 + time * 2 + modified

-- A bit that a flag sets and nothing clears.
abbrev pub or_bit : Bool → ℕ → ℕ
or_bit flag old = if flag then 1 else old

abbrev pub bit : Bool → ℕ
bit flag = if flag then 1 else 0

with_count :
    (count old : ℕ)
    → count < 16
    → old < 256
    → u8 (bit_or (u8 (clear old 0xf0)) (bit_and (shl count 4) 0xf0)) ≡ count * 16 + old % 16
with_count count old hc ho =
    rw (mask_low_nibble old ho, mask_high_nibble (count * 2 * 2 * 2 * 2) (omega arith))
      (omega (
        arith,
        or_high_nibble (old % 16 % 256) (count * 2 * 2 * 2 * 2 - count * 2 * 2 * 2 * 2 % 16)
            (omega arith) (omega arith) (omega arith),
      ))

-- Each conditional write of a flag, as arithmetic.
with_recv :
    (flag : Bool) (x : ℕ)
    → x < 256
    → (if flag then u8 (bit_or x 0x08) else x) ≡ x + or_bit flag (bit_at x 8) * 8 - bit_at x 8 * 8
with_recv flag x h = ground (arith, set_8 x h)

with_send :
    (flag : Bool) (x : ℕ)
    → x < 256
    → (if flag then u8 (bit_or x 0x04) else x) ≡ x + or_bit flag (bit_at x 4) * 4 - bit_at x 4 * 4
with_send flag x h = ground (arith, set_4 x h)

with_time :
    (flag : Bool) (x : ℕ)
    → x < 256
    → (if flag then u8 (bit_or x 0x02) else u8 (clear x 0x02)) ≡ x + bit flag * 2 - bit_at x 2 * 2
with_time flag x h = ground (arith, set_2 x h, clear_2 x h)

pub or_bit-le :
    (flag : Bool) (x weight : ℕ)
    → (bit_at x weight ≤ or_bit flag (bit_at x weight)) × (or_bit flag (bit_at x weight) ≤ 1)
or_bit-le flag x weight = ground arith

pub bit-le : (flag : Bool) → bit flag ≤ 1
bit-le flag = ground arith

-- The three flags, over a count and a low nibble.
with_flags :
    (recv send time : Bool) (count low : ℕ)
    → count < 16
    → low < 16
    → (let b = count * 16 + low in
        let c = if recv then u8 (bit_or b 0x08) else b in
        let d = if send then u8 (bit_or c 0x04) else c in
        if time then u8 (bit_or d 0x02) else u8 (clear d 0x02))
      ≡ mqtt_word count
          (or_bit recv (bit_at low 8))
          (or_bit send (bit_at low 4))
          (bit time)
          (bit_at low 1)
with_flags recv send time count low hc hl =
    let b = count * 16 + low in
    let r = or_bit-le recv b 8 in
    let c = b + or_bit recv (bit_at b 8) * 8 - bit_at b 8 * 8 in
    let s = or_bit-le send c 4 in
    let d = c + or_bit send (bit_at c 4) * 4 - bit_at c 4 * 4 in
    let b8 : bit_at b 8 ≡ bit_at low 8 = omega arith in
    let c4 : bit_at c 4 ≡ bit_at low 4 = omega arith in
    rw (with_recv recv b (omega arith)) (
      rw (with_send send c (omega arith))
        (with_time time d (omega arith) ∙ rw (← b8, ← c4) (omega (arith, bit-le time))))

-- The code that a recovery writes: the count of failures, the flags, and the lowest bit as it was.
pub recovered_mqtt_code_lem :
    (n : Notifications) (old : ℕ)
    → n.mqtt_reconnect_cnt < 16
    → old < 256
    → recovered_mqtt_code n old
      ≡ mqtt_word n.mqtt_reconnect_cnt
          (or_bit n.mqtt_sync_error_recv_buffer_too_small (bit_at old 8))
          (or_bit n.mqtt_sync_error_send_buffer_is_full (bit_at old 4))
          (bit n.mqtt_sync_error_invalid_time)
          (bit_at old 1)
recovered_mqtt_code_lem n old hc ho = rw (with_count n.mqtt_reconnect_cnt old hc ho) (
    with_flags n.mqtt_sync_error_recv_buffer_too_small n.mqtt_sync_error_send_buffer_is_full
      n.mqtt_sync_error_invalid_time n.mqtt_reconnect_cnt (old % 16) hc (omega arith)
    ∙ same)
  where
    same :
        mqtt_word n.mqtt_reconnect_cnt
          (or_bit n.mqtt_sync_error_recv_buffer_too_small (bit_at (old % 16) 8))
          (or_bit n.mqtt_sync_error_send_buffer_is_full (bit_at (old % 16) 4))
          (bit n.mqtt_sync_error_invalid_time)
          (bit_at (old % 16) 1)
        ≡ mqtt_word n.mqtt_reconnect_cnt
            (or_bit n.mqtt_sync_error_recv_buffer_too_small (bit_at old 8))
            (or_bit n.mqtt_sync_error_send_buffer_is_full (bit_at old 4))
            (bit n.mqtt_sync_error_invalid_time)
            (bit_at old 1)
    same =
        let b8 : bit_at (old % 16) 8 ≡ bit_at old 8 = omega arith in
        let b4 : bit_at (old % 16) 4 ≡ bit_at old 4 = omega arith in
        let b1 : bit_at (old % 16) 1 ≡ bit_at old 1 = omega arith in rw (b8, b4, b1)

pub recovered_blob_code_lem :
    (n : Notifications) (old : ℕ)
    → old < 256
    → recovered_blob_code n old ≡ old + bit n.tcp_timer_error_timeout * 2 - bit_at old 2 * 2
recovered_blob_code_lem n old h = with_time n.tcp_timer_error_timeout old h

-- A bit that is cleared where a flag is set.
abbrev pub unless : Bool → ℕ → ℕ
unless flag old = if flag then 0 else old

clear_recv :
    (flag : Bool) (x : ℕ)
    → x < 256
    → (if flag then u8 (clear x 0x08) else x) ≡ x + unless flag (bit_at x 8) * 8 - bit_at x 8 * 8
clear_recv flag x h = ground (arith, clear_8 x h)

clear_send :
    (flag : Bool) (x : ℕ)
    → x < 256
    → (if flag then u8 (clear x 0x04) else x) ≡ x + unless flag (bit_at x 4) * 4 - bit_at x 4 * 4
clear_send flag x h = ground (arith, clear_4 x h)

pub unless-le : (flag : Bool) (x weight : ℕ) → unless flag (bit_at x weight) ≤ bit_at x weight
unless-le flag x weight = ground arith

-- The code that the first failure writes: the count and the flags that are set now are cleared.
pub failed_mqtt_code_lem :
    (n : Notifications) (old : ℕ)
    → old < 256
    → failed_mqtt_code n old
      ≡ mqtt_word 0
          (unless n.mqtt_sync_error_recv_buffer_too_small (bit_at old 8))
          (unless n.mqtt_sync_error_send_buffer_is_full (bit_at old 4))
          (bit_at old 2)
          (bit_at old 1)
failed_mqtt_code_lem n old h =
    let recv = n.mqtt_sync_error_recv_buffer_too_small in
    let send = n.mqtt_sync_error_send_buffer_is_full in
    let a : ℕ = old % 16 in
    let b = a + unless recv (bit_at a 8) * 8 - bit_at a 8 * 8 in
    let low : old % 16 % 256 ≡ a = omega arith in
    let a8 : bit_at a 8 ≡ bit_at old 8 = omega arith in
    let b4 : bit_at b 4 ≡ bit_at old 4 = omega (arith, unless-le recv a 8) in
    rw (mask_low_nibble old h, low)
      (rw (clear_recv recv a (omega arith)) (
        clear_send send b (omega (arith, unless-le recv a 8))
        ∙ rw (b4, a8) (omega (arith, unless-le recv old 8, unless-le send old 4))))
