-- ===== src/Dlog/Cut.antt =====
-- The loop that writes a long message: its chunks are a cut of the text.
use mathlib.Core.List.{append-nil, append_assoc}
use aitrios_edge_device_core.Base.{
  ℕ, zero, suc, ◌+◌, ◌-◌, ◌*◌, ◌≤◌, ◌<◌, ◌≡◌, refl, sym, ap, ◌∙◌, ◌⊎◌, inl, inr, true, false,
  Option, some, List, [], ◌∷◌, ◌++◌, arith, ltb, ltb→lt, ltb→le, if_true, if◌then◌else◌, length,
  take, drop, length-take, length-drop, length-append, take-append-drop, take_of_le, drop_of_le,
  take-append_of_le, drop-append_of_le, drop-drop, Bool-cases, CString, strlen, has_nul,
}
use aitrios_edge_device_core.Dlog.{
  DlogLevel, Output, chunk, Dlog, log_chunk_size, write_dlog, write_chunks,
}

abbrev pub join : List CString → CString
join [] = []
join (part ∷ parts) = part ++ join parts

-- No part is empty, and each but the last has the size of a chunk, which the last does not exceed.
abbrev pub IsCut : List CString → Type 0
IsCut [] = Unit {0}
IsCut (part ∷ parts) =
    (0 < length part)
    × (length part ≤ log_chunk_size)
    × ((parts ≡ []) ⊎ (length part ≡ log_chunk_size))
    × IsCut parts

IsCut-nil : (parts : List CString) → IsCut parts → join parts ≡ [] → parts ≡ []
IsCut-nil [] cut h = refl
IsCut-nil (part ∷ parts) cut h =
    let size : length (part ++ join parts) ≡ 0 = ap length h in
    absurd (omega (arith, length-append {0} part (join parts), cut.0))

pub strlen-append_nul : (t : CString) → has_nul t ≡ false → strlen (t ++ 0 ∷ []) ≡ length t
unfolding strlen
strlen-append_nul [] h = refl
strlen-append_nul (zero ∷ t) h = absurd (ground arith)
strlen-append_nul (suc x ∷ t) h = ap suc (strlen-append_nul t h)

-- A chunk is the next 256 bytes of the text, or what is left of it.
chunk_lem :
    (t : CString) (i : ℕ)
    → i < length t
    → take
        (if ltb log_chunk_size (length t - i) then log_chunk_size else length t - i)
        (drop i (t ++ 0 ∷ []))
      ≡ take log_chunk_size (drop i t)
chunk_lem t i h =
    let rest = length-drop i t in
    rw (drop-append_of_le i t (0 ∷ []) (omega arith))
      (elim (Bool-cases (ltb log_chunk_size (length t - i))) [
        | inl more ↦ rw more (take-append_of_le log_chunk_size (drop i t) (0 ∷ []) (ground arith))
        | inr last ↦ rw last (
            take-append_of_le (length t - i) (drop i t) (0 ∷ []) (omega arith)
            ∙ take_of_le (length t - i) (drop i t) (omega arith)
            ∙ sym (take_of_le log_chunk_size (drop i t) (ground arith)))
      ])

-- The lines of a cut text.
abbrev pub chunk_lines : DlogLevel → CString → ℕ → List CString → List Output
chunk_lines level file line [] = []
chunk_lines level file line (part ∷ parts) =
    chunk level file line part ∷ chunk_lines level file line parts

-- The log has gone on by the lines of a text that is cut, and by nothing else.
abbrev pub Chunked : DlogLevel → CString → ℕ → CString → Dlog → Option Dlog → Type 0
Chunked level file line t d r =
    (parts : List CString) × (r
      ≡ some (record d { written = d.written ++ chunk_lines level file line parts }))
    × (join parts ≡ t)
    × IsCut parts

full_chunk :
    (t : CString) (i : ℕ)
    → i + log_chunk_size < length t
    → length (take log_chunk_size (drop i t)) ≡ log_chunk_size
full_chunk t i h = omega (arith, length-take log_chunk_size (drop i t), length-drop i t)

IsCut-cons :
    (t : CString) (i : ℕ) (parts : List CString)
    → i < length t
    → join parts ≡ drop (i + log_chunk_size) t
    → IsCut parts
    → IsCut (take log_chunk_size (drop i t) ∷ parts)
IsCut-cons t i parts h e cut =
    let size = length-take log_chunk_size (drop i t) in
    let rest = length-drop i t in
    let last : (parts ≡ []) ⊎ (length (take log_chunk_size (drop i t)) ≡ log_chunk_size) =
      elim (Bool-cases (ltb (i + log_chunk_size) (length t))) [
        | inl more ↦ inr (full_chunk t i (ltb→lt _ _ more))
        | inr done ↦
            inl (IsCut-nil parts cut (e ∙ drop_of_le (i + log_chunk_size) t (ltb→le _ _ done)))
      ] in
    (omega arith, omega arith, last, cut)

joins :
    (t : CString) (i : ℕ) (parts : List CString)
    → join parts ≡ drop (i + log_chunk_size) t
    → take log_chunk_size (drop i t) ++ join parts ≡ drop i t
joins t i parts h =
    ap (λ (rest : CString). take log_chunk_size (drop i t) ++ rest)
      (h ∙ sym (drop-drop log_chunk_size i t))
    ∙ take-append-drop log_chunk_size (drop i t)

write_chunks-suc :
    (fuel : ℕ) (level : DlogLevel) (file : CString) (line : ℕ) (t : CString) (i : ℕ) (d : Dlog)
    → has_nul t ≡ false
    → i < length t
    → write_chunks (suc fuel) level file line (t ++ 0 ∷ []) i d
      ≡ write_chunks fuel level file line
          (t ++ 0 ∷ [])
          (i + log_chunk_size)
          (write_dlog (chunk level file line (take log_chunk_size (drop i t))) d)
unfolding write_chunks
write_chunks-suc fuel level file line t i d nul_free below =
    let size = strlen-append_nul t nul_free in
    let more : ltb i (length t) ≡ true = ground arith in
    if_true (ltb i (strlen (t ++ 0 ∷ []))) _ (rw size more) (
      ap
        (λ (p : CString).
          write_chunks fuel level file line (t ++ 0 ∷ []) (i + log_chunk_size)
            (write_dlog (chunk level file line p) d))
        (rw size (chunk_lem t i below)))

write_chunks-end :
    (fuel : ℕ) (level : DlogLevel) (file : CString) (line : ℕ) (t : CString) (i : ℕ) (d : Dlog)
    → has_nul t ≡ false
    → length t ≤ i
    → write_chunks (suc fuel) level file line (t ++ 0 ∷ []) i d ≡ some d
unfolding write_chunks
write_chunks-end fuel level file line t i d nul_free above =
    let size = strlen-append_nul t nul_free in
    let done : ltb i (length t) ≡ false = ground arith in rw (size, done)

pub write_chunks-Chunked :
    (fuel : ℕ) (level : DlogLevel) (file : CString) (line : ℕ) (t : CString) (i : ℕ) (d : Dlog)
    → has_nul t ≡ false
    → i < length t + log_chunk_size
    → length t + log_chunk_size ≤ i + fuel * log_chunk_size
    → Chunked level file line (drop i t) d (write_chunks fuel level file line (t ++ 0 ∷ []) i d)
write_chunks-Chunked zero level file line t i d nul_free lt enough = absurd (omega arith)
write_chunks-Chunked (suc fuel) level file line t i d nul_free lt enough =
    elim (Bool-cases (ltb i (length t))) [
      | inl more ↦
          let below = ltb→lt i (length t) more in
          let piece = take log_chunk_size (drop i t) in
          let d' = write_dlog (chunk level file line piece) d in
          let (parts, e, joined, cut) =
            write_chunks-Chunked fuel level file line t (i + log_chunk_size) d' nul_free
              (omega arith) (omega arith) in
          let lines = rw (append_assoc d.written (chunk level file line piece ∷ [])) at e in
          (
            piece ∷ parts,
            write_chunks-suc fuel level file line t i d nul_free below ∙ lines,
            joins t i parts joined,
            IsCut-cons t i parts below joined cut,
          )
      | inr done ↦ (
        [],
        write_chunks-end fuel level file line t i d nul_free (ground arith)
            ∙ (ap (λ (w : List Output). some (record d { written = w }))
                (sym (append-nil d.written))),
        sym (drop_of_le i t (ground arith)),
        tt,
      )
    ]
