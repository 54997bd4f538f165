-- ===== src/Dlog.antt =====
-- The diagnostic log: src/evp-agent/src/log.c, lines 67 to 114 and 176 to 264, with the macros of
-- log.h that they use. What is formatted by the C library is a parameter: the message that
-- `vsnprintf` makes of its format and arguments, with the lengths and failures that it reports. The
-- state is what was handed to `UtilityLogWriteDLog`, in its order, and the heap.
pub mod FileName
pub mod Cut
pub mod Chunks
pub mod Memory
mod Tests
use mathlib.Core.Option
use aitrios_edge_device_core.Base.{
  ℕ, zero, suc, ◌+◌, ◌-◌, Bool, true, false, not, Option, none, some, List, [], ◌∷◌, ◌++◌, ltb,
  ◌==◌, if◌then◌else◌, take, drop, CString, codes, strlen,
}

-- `UtilityLogDlogLevel`, as far as the program names it.
pub data DlogLevel : Type 0 where
  trace debug info warn error critical : DlogLevel

-- One call of `UtilityLogWriteDLog`: the arguments that it formats. `chunk` is "[%s:%d] %.*s",
-- `tagged` "[%s] %s-%d: %s\n", and `agent_error` a line of EVP_AGENT_ERR.
pub data Output : Type 0 where
  chunk : DlogLevel → CString → ℕ → CString → Output
  truncation : DlogLevel → CString → ℕ → ℕ → ℕ → ℕ → Output
  tagged : DlogLevel → CString → CString → ℕ → CString → Output
  agent_error : CString → Output

pub record Dlog : Type 0 where
  pub written : List Output
  pub requests : ℕ
  pub live : ℕ

-- What the C library makes of a call: the length of "[%s:%d] ", the message, and whether its first
-- measure and its writing succeed; `room` is whether a request of the heap succeeds.
pub record Format : Type 0 where
  pub prefix_len : Option ℕ
  pub measured : Bool
  pub printed : Bool
  pub message : CString
  pub room : ℕ → Bool

abbrev pub log_buffer_size : ℕ
log_buffer_size = 4096

abbrev pub log_chunk_size : ℕ
log_chunk_size = 256

abbrev pub max_log_str_len : ℕ
max_log_str_len = 4096

abbrev pub min_log_str_len : ℕ
min_log_str_len = 128

-- At a byte of a string: what was found behind it, or else the string from here on.
abbrev pub last_of : ℕ → CString → ℕ → Option CString → Option CString
last_of x s c none = if x == c then some (x ∷ s) else none
last_of x s c (some t) = some t

-- The string from the last occurrence of a byte on.
unfoldable pub strrchr : CString → ℕ → Option CString
strrchr [] c = none
strrchr (x ∷ s) c = last_of x s c (strrchr s c)

abbrev pub name_at : CString → Option CString → CString
name_at file none = file
name_at file (some t) = drop 1 t

-- `EVP_FILE_NAME`
unfoldable pub evp_file_name : CString → CString
unfolding strrchr
evp_file_name file = name_at file (strrchr file b'/')

abbrev pub write_dlog : Output → Dlog → Dlog
write_dlog out d = record d { written = d.written ++ out ∷ [] }

-- The buffer after `vsnprintf` with its size: the message, cut, and the terminator.
abbrev pub vsnprintf : ℕ → CString → List ℕ
vsnprintf size message = take (size - 1) message ++ 0 ∷ []

-- The `switch` over the level of the EVP library.
unfoldable pub level_of_lvl : ℕ → DlogLevel
level_of_lvl lvl =
    if lvl == 0
    then trace
    else if lvl == 1
    then debug
    else if lvl == 2
    then info
    else if lvl == 3
    then warn
    else if lvl == 4
    then error
    else critical

-- The `switch` over the priority of syslog: LOG_ERR, LOG_WARNING, LOG_INFO and LOG_DEBUG.
unfoldable pub level_of_priority : ℕ → DlogLevel
level_of_priority priority =
    if priority == 3
    then error
    else if priority == 4
    then warn
    else if priority == 6
    then info
    else if priority == 7
    then debug
    else critical

-- The string beside it.
unfoldable pub name_of_priority : ℕ → CString
name_of_priority priority =
    if priority == 3
    then codes "ERROR"
    else if priority == 4
    then codes "WARNING"
    else if priority == 6
    then codes "INFO"
    else if priority == 7
    then codes "DEBUG"
    else codes "CRITICAL"

-- The loop over the chunks, from the byte `i` of the text on; `none` means that the fuel ran out.
pub write_chunks : ℕ → DlogLevel → CString → ℕ → CString → ℕ → Dlog → Option Dlog
write_chunks zero level file line text i d = none
write_chunks (suc fuel) level file line text i d =
    let remaining = strlen text - i in
    let chunk_len = if ltb log_chunk_size remaining then log_chunk_size else remaining in
    let out = chunk level file line (take chunk_len (drop i text)) in
    let rest = write_chunks fuel level file line text (i + log_chunk_size) (write_dlog out d) in
    if ltb i (strlen text) then rest else some d

module _ (f : Format) where
  -- A request of the heap that succeeds, and one that fails.
  abbrev pub allocated : Dlog → Dlog
  allocated d = record d { requests = d.requests + 1; live = d.live + 1 }

  abbrev pub refused : Dlog → Dlog
  refused d = record d { requests = d.requests + 1 }

  abbrev pub freed : Dlog → Dlog
  freed d = record d { live = d.live - 1 }

  -- The line that follows a text that is taken to be cut.
  abbrev pub note_truncation : DlogLevel → CString → ℕ → ℕ → Dlog → Dlog
  note_truncation level file line total_len d =
      let lost = total_len - log_buffer_size in
      if ltb log_buffer_size total_len
      then write_dlog (truncation level file line total_len log_buffer_size lost) d
      else d

  -- With the buffer, from the second `vsnprintf` on.
  pub write_message : ℕ → DlogLevel → CString → ℕ → ℕ → Dlog → Option Dlog
  unfolding write_chunks
  write_message fuel level file line total_len d =
      let buffer_size = if ltb log_buffer_size total_len then log_buffer_size else total_len in
      let buf = vsnprintf buffer_size f.message in
      let chunks = write_chunks fuel level file line buf 0 d in
      if f.printed
      then Option.map (λ d. freed (note_truncation level file line total_len d)) chunks
      else some
          (freed (write_dlog (agent_error (codes "Log formatting error (vsnprintf failed)")) d))

  -- From the measure of the message on, by the length of the prefix.
  pub measure : ℕ → DlogLevel → CString → ℕ → Option ℕ → Dlog → Option Dlog
  unfolding write_message
  measure fuel level file line none d =
      some (write_dlog (agent_error (codes "Log formatting error (vsnprintf failed)")) d)
  measure fuel level file line (some prefix_len) d =
      let total_len = prefix_len + strlen f.message + 1 in
      let message = write_message fuel level file line total_len (allocated d) in
      let full = write_dlog (agent_error (codes "Memory allocation failed")) (refused d) in
      let unmeasured =
        write_dlog (agent_error (codes "Log formatting error (vsnprintf failed)")) d in
      if not f.measured then some unmeasured else if f.room d.requests then message else some full

  -- `evp_agent_dlog_handler`
  unfoldable pub evp_agent_dlog_handler : ℕ → ℕ → CString → ℕ → Dlog → Option Dlog
  unfolding measure evp_file_name level_of_lvl
  evp_agent_dlog_handler fuel lvl path line d =
      measure fuel (level_of_lvl lvl) (evp_file_name path) line f.prefix_len d

  -- `SystemDlog`. Its tag is not used.
  unfoldable pub system_dlog : ℕ → CString → ℕ → Dlog → Dlog
  unfolding level_of_priority name_of_priority
  system_dlog priority file line d =
      let log_len = if f.room d.requests then max_log_str_len else min_log_str_len in
      let logstr = take (log_len - 1) f.message in
      let out = tagged (level_of_priority priority) (name_of_priority priority) file line logstr in
      if f.room d.requests then freed (write_dlog out (allocated d)) else write_dlog out (refused d)
