-- ===== src/Dlog/Memory.antt =====
-- The heap after the two functions of the diagnostic log.
use mathlib.Core.Path.{subst}
use mathlib.Core.Option.{bind}
use aitrios_edge_device_core.Base.{
  has_nul-take, if_both, ℕ, ◌+◌, ◌-◌, ◌<◌, ◌≡◌, refl, false, Option, none, some, [], ◌∷◌, ◌++◌,
  arith, if◌then◌else◌, take, length-take, ltb, Bool-cases, inl, inr, CString, has_nul, strlen,
  length, not, List, ◌==◌, codes,
}
use aitrios_edge_device_core.Dlog.{
  DlogLevel, error, warn, info, debug, critical, tagged, Dlog, Format, level_of_priority,
  name_of_priority, evp_agent_dlog_handler, system_dlog, allocated, note_truncation, write_message,
  measure, level_of_lvl, evp_file_name,
}
use aitrios_edge_device_core.Dlog.Cut.{chunk_lines, write_chunks-Chunked}
use aitrios_edge_device_core.Dlog.Chunks.{strlen_lem, write_message_lem}

-- The priorities of syslog.h that have a line of their own, with the level and the name.
abbrev pub priorities : List (ℕ × DlogLevel × CString)
priorities =
    (3, error, codes "ERROR")
    ∷ (4, warn, codes "WARNING")
    ∷ (6, info, codes "INFO")
    ∷ (7, debug, codes "DEBUG")
    ∷ []

-- The line of a priority; any other is critical.
abbrev pub line_of : ℕ → List (ℕ × DlogLevel × CString) → DlogLevel × CString
line_of priority [] = (critical, codes "CRITICAL")
line_of priority ((number, level, name) ∷ rest) =
    let other = line_of priority rest in if priority == number then (level, name) else other

priority_line :
    (priority : ℕ)
    → (level_of_priority priority ≡ (line_of priority priorities).0)
      × (name_of_priority priority ≡ (line_of priority priorities).1)
unfolding level_of_priority name_of_priority
priority_line priority = ground arith

module _ (f : Format) where
  -- SystemDlog writes one line and leaves as many blocks in use as before. Its level and name are
  -- error and ERROR for priority 3, warn and WARNING for 4, info and INFO for 6, debug and DEBUG
  -- for 7, and critical and CRITICAL for any other; the message is cut to 4095 bytes, or to 127
  -- where the heap is full.
  pub system_dlog_lem :
      (priority : ℕ) (file : CString) (line : ℕ) (d : Dlog)
      → system_dlog f priority file line d ≡ record d {
        written =
            d.written
            ++ tagged
                (line_of priority priorities).0
                (line_of priority priorities).1
                file
                line
                (take (if f.room d.requests then 4095 else 127) f.message)
              ∷ [];
        requests = d.requests + 1;
      }
  unfolding system_dlog
  system_dlog_lem priority file line d =
      let same : d.live + 1 - 1 ≡ d.live = omega arith in
      let (level, name) = priority_line priority in
      elim (Bool-cases (f.room d.requests)) [
        | inl room ↦ rw (room, same, level, name) refl
        | inr full ↦ rw (full, level, name) refl
      ]

  -- The function has returned, and the heap is as before.
  abbrev pub Returns : ℕ → Option Dlog → Type 0
  Returns live none = ⊥
  Returns live (some d) = d.live ≡ live

  note_truncation-live :
      (level : DlogLevel) (file : CString) (line total_len : ℕ) (d : Dlog)
      → (note_truncation f level file line total_len d).live ≡ d.live
  note_truncation-live level file line total_len d = elim (Bool-cases (ltb 4096 total_len)) [
    | inl long ↦ rw long refl
    | inr short ↦ rw short refl
  ]

module _ (f : Format) (nul_free : has_nul f.message ≡ false) where
  write_message-Returns :
      (fuel : ℕ) (level : DlogLevel) (file : CString) (line total_len : ℕ) (d : Dlog)
      → 16 < fuel
      → length f.message < total_len
      → Returns f (d.live - 1) (write_message f fuel level file line total_len d)
  unfolding bind
  write_message-Returns fuel level file line total_len d enough h = elim (Bool-cases f.printed) [
    | inl printed ↦
        let size = length-take 4095 f.message in
        let (parts, e, joined, cut) =
          write_chunks-Chunked fuel level file line (take 4095 f.message) 0 d
            (has_nul-take 4095 f.message nul_free) (omega arith) (omega arith) in
        rw (write_message_lem f nul_free fuel level file line total_len d h printed) (
          rw e (
            rw
              (note_truncation-live f level file line total_len
                (record d { written = d.written ++ chunk_lines level file line parts }))
              refl))
    | inr failed ↦ unfold write_message in rw failed refl
  ]

  measure-Returns :
      (fuel : ℕ) (level : DlogLevel) (file : CString) (line : ℕ) (prefix_len : Option ℕ) (d : Dlog)
      → 16 < fuel
      → Returns f d.live (measure f fuel level file line prefix_len d)
  unfolding measure
  measure-Returns fuel level file line none d enough = refl
  measure-Returns fuel level file line (some n) d enough =
      let same : d.live + 1 - 1 ≡ d.live = omega arith in
      let size = strlen_lem f.message nul_free in
      let message =
        write_message-Returns fuel level file line (n + strlen f.message + 1) (allocated f d) enough
          (omega arith) in
      let written =
        write_message f fuel level file line (n + strlen f.message + 1) (allocated f d) in
      if_both (Returns f d.live) (not f.measured) _ _ refl (
        if_both (Returns f d.live) (f.room d.requests) _ _
          (subst (λ (n : ℕ). Returns f n written) same message) refl)

  -- For any message without a terminator inside, whichever call of the C library fails, any fuel
  -- above 16 lets the handler of the agent library's log return, with as many blocks of the heap in
  -- use as before.
  pub evp_agent_dlog_handler-Returns :
      (fuel lvl : ℕ) (path : CString) (line : ℕ) (d : Dlog)
      → 16 < fuel
      → Returns f d.live (evp_agent_dlog_handler f fuel lvl path line d)
  unfolding evp_agent_dlog_handler
  evp_agent_dlog_handler-Returns fuel lvl path line d enough =
      measure-Returns fuel (level_of_lvl lvl) (evp_file_name path) line f.prefix_len d enough
