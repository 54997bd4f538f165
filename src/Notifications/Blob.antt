-- ===== src/Notifications/Blob.antt =====
-- The handlers of the topic "blob/result": notifications.c, lines 103 to 263. The first status code
-- holds, from the high bits down, the kind of the outcome (2 bits), its detail (4 bits), the flag of
-- a TCP close timeout and that of an SSL timeout.
pub mod Codes
use aitrios_edge_device_core.Base.{
  ℕ, Bool, Option, none, some, List, [], ◌∷◌, bit_and, bit_or, ◌==◌, if◌then◌else◌, ℤ, pos, is_nat,
  u8, shl, clear, eperm, eio, e2big, enomem, einval, eproto, eloop, econnaborted, ehostunreach,
  enotsup,
}
use aitrios_edge_device_core.Elog.{elog_err}
use aitrios_edge_device_core.Notifications.{
  Notifications, Platform, elog_evp_blob_network_status, get_elog, set_elog,
}

-- `enum evp_blob_result`: the enumerators that the source names, and any other value.
pub data BlobResult : Type 0 where
  success error_http error other : BlobResult

-- `struct evp_agent_notification_blob_result`
pub record BlobNotification : Type 0 where
  pub result : BlobResult
  pub http_status : ℕ  -- unsigned int
  pub error : ℤ  -- int

-- `((tmp & 0xFC) | (code & 0x3))`
abbrev pub merge_code : ℕ → ℕ → ℕ
merge_code tmp code = u8 (bit_or (bit_and tmp 0xfc) (bit_and code 0x3))

unfoldable pub elog_handler_blob_success : Platform → Notifications → ℤ × Notifications
elog_handler_blob_success p n =
    let code = get_elog elog_evp_blob_network_status n in
    let tmp = u8 (shl 1 6) in
    let cleared = u8 (clear code 0x1) in
    let (ret, n') = set_elog p elog_evp_blob_network_status (merge_code tmp cleared) n in
    (pos 0, n')

-- The `switch` over the HTTP status: the number that it shifts by two bits into `tmp`.
pub http_case : ℕ → ℕ
http_case status =
    if status == 200
    then 1
    else if status == 400
    then 2
    else if status == 401
    then 3
    else if status == 403
    then 4
    else if status == 404
    then 5
    else if status == 500
    then 6
    else if status == 502
    then 7
    else if status == 503
    then 8
    else 9

unfoldable pub elog_handler_blob_http_error : Platform → ℕ → Notifications → ℤ × Notifications
elog_handler_blob_http_error p status n =
    let code = get_elog elog_evp_blob_network_status n in
    let tmp = u8 (bit_or (u8 (shl 2 6)) (shl (http_case status) 2)) in
    if code == elog_err
    then (pos einval, n)
    else set_elog p elog_evp_blob_network_status (merge_code tmp code) n

-- The `switch` over the error number.
pub errno_case : ℤ → ℕ
errno_case err =
    if is_nat err eperm
    then 1
    else if is_nat err eio
    then 2
    else if is_nat err e2big
    then 3
    else if is_nat err enomem
    then 4
    else if is_nat err einval
    then 5
    else if is_nat err eproto
    then 6
    else if is_nat err eloop
    then 7
    else if is_nat err econnaborted
    then 8
    else if is_nat err ehostunreach
    then 9
    else if is_nat err enotsup
    then 10
    else 11

unfoldable pub elog_handler_blob_other_error : Platform → ℤ → Notifications → ℤ × Notifications
elog_handler_blob_other_error p err n =
    let code = get_elog elog_evp_blob_network_status n in
    let tmp = u8 (bit_or (u8 (shl 3 6)) (shl (errno_case err) 2)) in
    if code == elog_err
    then (pos einval, n)
    else (pos 0, (set_elog p elog_evp_blob_network_status (merge_code tmp code) n).1)

-- The `switch` of `elog_handler_blob_result`; what its branches return is dropped.
abbrev pub blob_branch :
    Platform → BlobNotification → BlobResult → Notifications → ℤ × Notifications
blob_branch p notif success n = elog_handler_blob_success p n
blob_branch p notif error_http n = elog_handler_blob_http_error p notif.http_status n
blob_branch p notif error n = elog_handler_blob_other_error p notif.error n
blob_branch p notif other n = elog_handler_blob_other_error p notif.error n

-- `none` is an event that is NULL.
unfoldable pub elog_handler_blob_result :
    Platform → Option BlobNotification → Notifications → ℤ × Notifications
unfolding elog_handler_blob_success elog_handler_blob_http_error elog_handler_blob_other_error
    http_case errno_case
elog_handler_blob_result p none n = (pos 0, n)
elog_handler_blob_result p (some notif) n = (pos 0, (blob_branch p notif notif.result n).1)
