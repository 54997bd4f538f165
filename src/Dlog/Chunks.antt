-- ===== src/Dlog/Chunks.antt =====
-- What the handler of the agent library's log hands on: the message in chunks.
use mathlib.Core.Option
use mathlib.Core.Option.{bind}
use mathlib.Core.List.{append-nil, append_assoc}
use aitrios_edge_device_core.Base.{
  has_nul-take, ℕ, zero, suc, ◌+◌, ◌-◌, ◌<◌, ◌≡◌, refl, sym, ap, ◌∙◌, inl, inr, true, false, Option,
  some, List, [], ◌∷◌, ◌++◌, arith, ltb, ltb→le, if_true, if◌then◌else◌, length, take, length-take,
  take_of_le, Bool-cases, CString, strlen, has_nul,
}
use aitrios_edge_device_core.Dlog.{
  DlogLevel, Output, truncation, Dlog, Format, log_buffer_size, evp_file_name, level_of_lvl,
  write_chunks, allocated, freed, note_truncation, write_message, measure, evp_agent_dlog_handler,
}
use aitrios_edge_device_core.Dlog.Cut.{join, IsCut, chunk_lines, write_chunks-Chunked}

pub strlen_lem : (s : CString) → has_nul s ≡ false → strlen s ≡ length s
unfolding strlen
strlen_lem [] h = refl
strlen_lem (zero ∷ s) h = absurd (ground arith)
strlen_lem (suc x ∷ s) h = ap suc (strlen_lem s h)

-- The line that says that the text was cut, if it does.
abbrev pub notice : DlogLevel → CString → ℕ → ℕ → List Output
notice level file line total_len =
    let lost = total_len - log_buffer_size in
    if ltb log_buffer_size total_len
    then truncation level file line total_len log_buffer_size lost ∷ []
    else []

module _ (f : Format) (nul_free : has_nul f.message ≡ false) where
  -- The text that the buffer holds does not depend on the length of the prefix.
  pub cut_message :
      (total_len : ℕ)
      → length f.message < total_len
      → take ((if ltb log_buffer_size total_len then log_buffer_size else total_len) - 1) f.message
        ≡ take 4095 f.message
  cut_message total_len h = elim (Bool-cases (ltb log_buffer_size total_len)) [
    | inl long ↦ rw long
    | inr short ↦
        let fits = ltb→le _ _ short in
        rw short
          (take_of_le _ f.message (omega arith) ∙ sym (take_of_le 4095 f.message (omega arith)))
  ]

  -- The heap is as before, and the log has gone on by these lines.
  abbrev pub Logged : ℕ → CString → ℕ → ℕ → Dlog → Option Dlog → Type 0
  Logged lvl path line prefix_len d r =
      (parts : List CString) × (r
        ≡ some (record d {
          written =
              d.written
              ++ (chunk_lines (level_of_lvl lvl) (evp_file_name path) line parts
                  ++ notice (level_of_lvl lvl) (evp_file_name path) line
                      (prefix_len + length f.message + 1));
          requests = d.requests + 1;
        }))
      × (join parts ≡ take 4095 f.message)
      × IsCut parts

  measure-write_message :
      (fuel : ℕ) (level : DlogLevel) (file : CString) (line prefix_len : ℕ) (d : Dlog)
      → f.measured ≡ true
      → f.room d.requests ≡ true
      → measure f fuel level file line (some prefix_len) d
        ≡ write_message f fuel level file line (prefix_len + strlen f.message + 1) (allocated f d)
  unfolding measure
  measure-write_message fuel level file line prefix_len d measured room = rw (measured, room) refl

  pub write_message_lem :
      (fuel : ℕ) (level : DlogLevel) (file : CString) (line total_len : ℕ) (d : Dlog)
      → length f.message < total_len
      → f.printed ≡ true
      → write_message f fuel level file line total_len d
        ≡ Option.map
            (λ d. freed f (note_truncation f level file line total_len d))
            (write_chunks fuel level file line (take 4095 f.message ++ 0 ∷ []) 0 d)
  unfolding write_message
  write_message_lem fuel level file line total_len d h printed = if_true f.printed _ printed (
      ap
        (λ (t : CString).
          Option.map (λ d. freed f (note_truncation f level file line total_len d))
            (write_chunks fuel level file line (t ++ 0 ∷ []) 0 d))
        (cut_message total_len h))

  noted :
      (level : DlogLevel) (file : CString) (line total_len : ℕ) (lines : List Output) (d : Dlog)
      → freed f (
          note_truncation f level file line total_len
            (record (allocated f d) { written = d.written ++ lines }))
        ≡ record d {
          written = d.written ++ (lines ++ notice level file line total_len);
          requests = d.requests + 1;
        }
  noted level file line total_len lines d =
      let same : d.live + 1 - 1 ≡ d.live = omega arith in
      elim (Bool-cases (ltb log_buffer_size total_len)) [
        | inl long ↦ rw (long, same, append_assoc d.written lines) refl
        | inr short ↦ rw (short, same, append-nil lines) refl
      ]

  -- If the C library formats the message and the heap has room, the handler of the agent library's
  -- log writes the first 4095 bytes of the message, for any fuel above 16, in chunks that are not
  -- empty and all of 256 bytes except the last, which is not larger, each with the name of the
  -- file, and after them the line on truncation exactly if the message with its prefix and
  -- terminator exceeds 4096 bytes.
  pub evp_agent_dlog_handler-Logged :
      (fuel lvl : ℕ) (path : CString) (line prefix_len : ℕ) (d : Dlog)
      → 16 < fuel
      → f.prefix_len ≡ some prefix_len
      → f.measured ≡ true
      → f.printed ≡ true
      → f.room d.requests ≡ true
      → Logged lvl path line prefix_len d (evp_agent_dlog_handler f fuel lvl path line d)
  unfolding bind evp_agent_dlog_handler
  evp_agent_dlog_handler-Logged fuel lvl path line prefix_len d enough prefix measured printed
        room =
      let size = length-take 4095 f.message in
      let level = level_of_lvl lvl in
      let file = evp_file_name path in
      let total_len = prefix_len + length f.message + 1 in
      let (parts, e, joined, cut) =
        write_chunks-Chunked fuel level file line (take 4095 f.message) 0 (allocated f d)
          (has_nul-take 4095 f.message nul_free) (omega arith) (omega arith) in
      let written =
        write_message_lem fuel level file line total_len (allocated f d) (omega arith) printed
        ∙ ap (Option.map (λ d. freed f (note_truncation f level file line total_len d))) e
        ∙ ap some (noted level file line total_len (chunk_lines level file line parts) d) in
      let measured' =
        ap (λ (n : Option ℕ). measure f fuel level file line n d) prefix
        ∙ measure-write_message fuel level file line prefix_len d measured room in
      (parts, measured' ∙ rw (strlen_lem f.message nul_free) written, joined, cut)
