-- ===== src/Notifications/Blob/Codes.antt =====
-- The first status code after the handlers of "blob/result", against the table of the comment at
-- notifications.c, lines 51 to 81. The table is written here as data, with the errors by their
-- names, at the numbers of Linux: the comment prints others for ELOOP, ECONNABORTED, EHOSTUNREACH
-- and ENOTSUP.
use aitrios_edge_device_core.Base.{
  ℕ, ◌+◌, ◌-◌, ◌*◌, ◌%◌, ◌<◌, ◌≡◌, refl, ap, ◌∙◌, false, none, some, List, [], ◌∷◌, arith, bit_or,
  ◌==◌, if◌then◌else◌, ℤ, pos, negsuc, u8, shl, clear, bit_at, eperm, eio, e2big, enomem, einval,
  eproto, eloop, econnaborted, ehostunreach, enotsup, clear_1, mask_low_two, mask_high_six,
  or_low_two, or_low_six,
}
use aitrios_edge_device_core.Elog.{elog_err}
use aitrios_edge_device_core.Elog.Invariant.{IsValid}
use aitrios_edge_device_core.Elog.Codes.{code_of, system_set_elog_unregistered}
use aitrios_edge_device_core.Notifications.{
  Notifications, Platform, elog_evp_blob_network_status, get_elog,
}
use aitrios_edge_device_core.Notifications.Ready.{
  Updates, get_registered, get_unregistered, set_elog-Updates,
}
use aitrios_edge_device_core.Notifications.Blob.{
  BlobResult, success, error_http, error, other, BlobNotification, merge_code, blob_branch,
  http_case, errno_case, elog_handler_blob_success, elog_handler_blob_http_error,
  elog_handler_blob_other_error, elog_handler_blob_result,
}

-- The documented numbers, and the number for what the table does not list.
pub detail_of : List (ℕ × ℕ) → ℕ → ℕ → ℕ
detail_of [] key else_number = else_number
detail_of ((k, v) ∷ table) key else_number = if key == k then v else detail_of table key else_number

abbrev pub http_details : List (ℕ × ℕ)
http_details =
    (200, 1) ∷ (400, 2) ∷ (401, 3) ∷ (403, 4) ∷ (404, 5) ∷ (500, 6) ∷ (502, 7) ∷ (503, 8) ∷ []

abbrev pub errno_details : List (ℕ × ℕ)
errno_details =
    (eperm, 1)
    ∷ (eio, 2)
    ∷ (e2big, 3)
    ∷ (enomem, 4)
    ∷ (einval, 5)
    ∷ (eproto, 6)
    ∷ (eloop, 7)
    ∷ (econnaborted, 8)
    ∷ (ehostunreach, 9)
    ∷ (enotsup, 10)
    ∷ []

abbrev pub errno_detail : ℤ → ℕ
errno_detail (pos n) = detail_of errno_details n 11
errno_detail (negsuc n) = 11

http_case_lem : (status : ℕ) → http_case status ≡ detail_of http_details status 9
unfolding http_case detail_of
http_case_lem status = refl

errno_case_lem : (err : ℤ) → errno_case err ≡ errno_detail err
unfolding errno_case detail_of
errno_case_lem (pos n) = refl
errno_case_lem (negsuc n) = refl

http_case-lt : (status : ℕ) → http_case status < 10
unfolding http_case
http_case-lt status = ground arith

errno_case-lt : (err : ℤ) → errno_case err < 12
unfolding errno_case
errno_case-lt err = ground arith

pub merge_code_lem :
    (tmp code : ℕ) → tmp < 256 → code < 256 → merge_code tmp code ≡ tmp - tmp % 4 + code % 4
merge_code_lem tmp code ht hc =
    rw (mask_high_six tmp ht, mask_low_two code hc)
      (omega
        (arith, or_low_two (tmp - tmp % 4) (code % 4) (omega arith) (omega arith) (omega arith)))

-- The first status code from its four fields.
abbrev pub blob_word : ℕ → ℕ → ℕ → ℕ → ℕ
blob_word kind detail close_timeout ssl_timeout =
    kind * 64 + detail * 4 + close_timeout * 2 + ssl_timeout

-- The code that an event leaves, by the code before it: a success clears the SSL flag, a failure
-- keeps it, and the flag of a TCP close timeout always stays.
abbrev pub blob_kind_after : BlobNotification → BlobResult → ℕ → ℕ
blob_kind_after notif success old = blob_word 1 0 (bit_at old 2) 0
blob_kind_after notif error_http old =
    blob_word 2 (detail_of http_details notif.http_status 9) (bit_at old 2) (bit_at old 1)
blob_kind_after notif error old =
    blob_word 3 (errno_detail notif.error) (bit_at old 2) (bit_at old 1)
blob_kind_after notif other old =
    blob_word 3 (errno_detail notif.error) (bit_at old 2) (bit_at old 1)

pub blob_after : BlobNotification → ℕ → ℕ
blob_after notif old = blob_kind_after notif notif.result old

-- `tmp` before the merge.
http_tmp : (k : ℕ) → k < 16 → u8 (bit_or (u8 (shl 2 6)) (shl k 2)) ≡ 128 + k * 4
http_tmp k h = omega (arith, or_low_six 128 (k * 2 * 2) (omega arith) refl (omega arith))

errno_tmp : (k : ℕ) → k < 16 → u8 (bit_or (u8 (shl 3 6)) (shl k 2)) ≡ 192 + k * 4
errno_tmp k h = omega (arith, or_low_six 192 (k * 2 * 2) (omega arith) refl (omega arith))

success_code :
    (old : ℕ)
    → old < 256
    → merge_code (u8 (shl 1 6)) (u8 (clear old 0x1)) ≡ blob_word 1 0 (bit_at old 2) 0
success_code old h =
    rw (clear_1 old h)
      (merge_code_lem 64 (u8 (old - bit_at old 1)) (omega arith) (omega arith) ∙ omega arith)

failure_code :
    (kind k tmp old : ℕ)
    → kind < 4
    → k < 16
    → tmp ≡ kind * 64 + k * 4
    → old < 256
    → merge_code tmp old ≡ blob_word kind k (bit_at old 2) (bit_at old 1)
failure_code kind k tmp old hk hd ht h = rw (merge_code_lem tmp old (omega arith) h) (omega arith)

module _ (p : Platform) (n : Notifications) {old : ℕ} (valid : IsValid n.elog)
    (registered : code_of elog_evp_blob_network_status n.elog ≡ some old)
    (real : old < elog_err) where
  read : get_elog elog_evp_blob_network_status n ≡ old
  read = get_registered elog_evp_blob_network_status n.elog valid registered

  blob_success-Updates :
      Updates elog_evp_blob_network_status
        (blob_word 1 0 (bit_at old 2) 0)
        n
        (elog_handler_blob_success p n).1
  unfolding elog_handler_blob_success
  blob_success-Updates =
      rw (read, success_code old (omega arith))
        (set_elog-Updates p elog_evp_blob_network_status _ n valid (omega arith) registered)

  http_error-Updates :
      (status : ℕ)
      → Updates elog_evp_blob_network_status
          (blob_word 2 (detail_of http_details status 9) (bit_at old 2) (bit_at old 1))
          n
          (elog_handler_blob_http_error p status n).1
  unfolding elog_handler_blob_http_error
  http_error-Updates status =
      let k = http_case status in
      let small : http_case status < 16 = omega (arith, http_case-lt status) in
      let code = failure_code 2 k _ old (omega arith) small (http_tmp k small) (omega arith) in
      let some_byte : (old == elog_err) ≡ false = ground arith in
      rw (read, some_byte, code, ← http_case_lem status)
        (set_elog-Updates p elog_evp_blob_network_status _ n valid
          (omega (arith, http_case-lt status)) registered)

  other_error-Updates :
      (err : ℤ)
      → Updates elog_evp_blob_network_status
          (blob_word 3 (errno_detail err) (bit_at old 2) (bit_at old 1))
          n
          (elog_handler_blob_other_error p err n).1
  unfolding elog_handler_blob_other_error
  other_error-Updates err =
      let k = errno_case err in
      let small : errno_case err < 16 = omega (arith, errno_case-lt err) in
      let code = failure_code 3 k _ old (omega arith) small (errno_tmp k small) (omega arith) in
      let some_byte : (old == elog_err) ≡ false = ground arith in
      rw (read, some_byte, code, ← errno_case_lem err)
        (set_elog-Updates p elog_evp_blob_network_status _ n valid
          (omega (arith, errno_case-lt err)) registered)

  blob_branch-Updates :
      (notif : BlobNotification) (result : BlobResult)
      → Updates elog_evp_blob_network_status
          (blob_kind_after notif result old)
          n
          (blob_branch p notif result n).1
  blob_branch-Updates notif success = blob_success-Updates
  blob_branch-Updates notif error_http = http_error-Updates notif.http_status
  blob_branch-Updates notif error = other_error-Updates notif.error
  blob_branch-Updates notif other = other_error-Updates notif.error

  -- While the first component has a code below ELOG_ERR, a blob event of any kind leaves the code
  -- with the kinds and details that the documented table gives to the HTTP statuses and, by their
  -- names, to the errors, whose numbers are those of Linux (the comment prints other numbers for
  -- ELOOP, ECONNABORTED, EHOSTUNREACH and ENOTSUP); the TCP close flag is kept, the SSL flag kept
  -- by a failure and cleared by a success. It changes no other component's code and nothing else of
  -- the state, and returns 0.
  pub elog_handler_blob_result-Updates :
      (notif : BlobNotification)
      → let (ret, n') = elog_handler_blob_result p (some notif) n in
        (ret ≡ pos 0) × Updates elog_evp_blob_network_status (blob_after notif old) n n'
  unfolding elog_handler_blob_result blob_after
  elog_handler_blob_result-Updates notif = (refl, blob_branch-Updates notif notif.result)

blob_kind_after-lt :
    (notif : BlobNotification) (result : BlobResult) (old : ℕ)
    → blob_kind_after notif result old < 240
blob_kind_after-lt notif success old = omega arith
blob_kind_after-lt notif error_http old =
    omega (arith, http_case-lt notif.http_status, http_case_lem notif.http_status)
blob_kind_after-lt notif error old =
    omega (arith, errno_case-lt notif.error, errno_case_lem notif.error)
blob_kind_after-lt notif other old =
    omega (arith, errno_case-lt notif.error, errno_case_lem notif.error)

-- The code after an event is never the byte that `SystemGetELog` returns for an absent component.
pub blob_after-lt : (notif : BlobNotification) (old : ℕ) → blob_after notif old < 240
unfolding blob_after
blob_after-lt notif old = blob_kind_after-lt notif notif.result old

-- While the first component is not registered, in a valid table, a blob event changes nothing and
-- the handler returns 0.
pub elog_handler_blob_result_unregistered :
    (p : Platform) (notif : BlobNotification) (n : Notifications)
    → IsValid n.elog
    → code_of elog_evp_blob_network_status n.elog ≡ none
    → elog_handler_blob_result p (some notif) n ≡ (pos 0, n)
unfolding elog_handler_blob_result
elog_handler_blob_result_unregistered p notif n valid absent =
    ap (λ (s : Notifications). (pos 0, s)) (unchanged notif.result)
  where
    read : get_elog elog_evp_blob_network_status n ≡ elog_err
    read = get_unregistered elog_evp_blob_network_status n.elog valid absent

    unchanged : (result : BlobResult) → (blob_branch p notif result n).1 ≡ n
    unchanged success = rw (
        system_set_elog_unregistered p.write_elog elog_evp_blob_network_status _ n.elog valid
          absent)
    unchanged error_http = rw read
    unchanged error = rw read
    unchanged other = rw read
