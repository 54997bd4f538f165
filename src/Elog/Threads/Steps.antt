-- ===== src/Elog/Threads/Steps.antt =====
-- Each access of an operation goes on with what the whole operation does from the table at its lock.
use aitrios_edge_device_core.Base.{
  ℕ, suc, ◌≡◌, sym, ap, ◌∙◌, Bool, true, false, none, some, List, ltb, ◌==◌, ℤ, pos, neg, enoent,
  CString,
}
use aitrios_edge_device_core.Elog.{
  Entry, Elog, max_elog_entry, elog_err, component_to_entry, system_reg_elog, send_code,
}
use aitrios_edge_device_core.Elog.Threads.{
  reg, set_code, get_code, wrote_msg, sent, put, code_at, perform,
}
use aitrios_edge_device_core.Elog.Threads.Sequential.{
  put_twice, Midway, set-none, set-some, get-entry,
}

module _ (write_elog : List ℕ → Bool) where
  -- A write behind a write to the same entry, of the index that the table counts.
  pub writes_again :
      (f g : Entry → Entry) (e b : Elog)
      → e ≡ put f b.last b
      → put g e.last e ≡ put (λ x. g (f x)) b.last b
  writes_again f g e b h = ap (λ (x : Elog). put g x.last x) h ∙ put_twice f g b.last b

  -- The accesses of `SystemRegElog`.
  pub full-Midway :
      (component value : ℕ) (msg : CString) (e b : Elog)
      → ltb e.last max_elog_entry ≡ false
      → e ≡ b
      → perform write_elog (reg component value msg) b ≡ (pos 0, e)
  unfolding system_reg_elog
  full-Midway component value msg e b full h =
      let full' : ltb b.last max_elog_entry ≡ false =
        ap (λ (x : Elog). ltb x.last max_elog_entry) (sym h) ∙ full in
      rw full' (ap (λ (x : Elog). (pos 0, x)) (sym h))

  pub counts-Midway :
      (component value : ℕ) (msg : CString) (e b : Elog)
      → Midway write_elog b (wrote_msg component value msg) e
      → perform write_elog (reg component value msg) b ≡ (pos 0, record e { last = suc e.last })
  unfolding system_reg_elog
  counts-Midway component value msg e b (room, h) =
      rw room (ap (λ (x : Elog). (pos 0, record x { last = suc x.last })) (sym h))

  -- The accesses of `SystemSetELog` and `SystemGetELog`.
  pub misses-Midway :
      (component code : ℕ) (e b : Elog)
      → component_to_entry component e ≡ none
      → e ≡ b
      → perform write_elog (set_code component code) b ≡ (neg enoent, e)
  misses-Midway component code e b missing h =
      set-none write_elog component code b (ap (component_to_entry component) (sym h) ∙ missing)
      ∙ ap (λ (x : Elog). (neg enoent, x)) (sym h)

  pub same-Midway :
      (component code k : ℕ) (e b : Elog)
      → component_to_entry component e ≡ some k
      → (code_at k e == code) ≡ true
      → e ≡ b
      → perform write_elog (set_code component code) b ≡ (pos 0, e)
  same-Midway component code k e b found same h =
      let same' : (code_at k b == code) ≡ true =
        ap (λ (x : Elog). code_at k x == code) (sym h) ∙ same in
      set-some write_elog component code k b (ap (component_to_entry component) (sym h) ∙ found)
      ∙ rw same' (ap (λ (x : Elog). (pos 0, x)) (sym h))

  pub clears-Midway :
      (component code k : ℕ) (ret : ℤ) (e b : Elog)
      → Midway write_elog b (sent component code k ret) e
      → perform write_elog (set_code component code) b
        ≡ (ret, put (λ x. record x { updated = false }) k e)
  unfolding send_code
  clears-Midway component code k ret e b (found, differs, h, result) =
      set-some write_elog component code k b found
      ∙ rw differs (λ i. (sym result i, put (λ x. record x { updated = false }) k (sym h i)))

  pub reads_none-Midway :
      (component : ℕ) (e b : Elog)
      → component_to_entry component e ≡ none
      → e ≡ b
      → perform write_elog (get_code component) b ≡ (pos elog_err, e)
  reads_none-Midway component e b missing h =
      rw
        (get-entry write_elog component none b
          (ap (component_to_entry component) (sym h) ∙ missing))
        (ap (λ (x : Elog). (pos elog_err, x)) (sym h))

  pub reads-Midway :
      (component k : ℕ) (e b : Elog)
      → component_to_entry component e ≡ some k
      → e ≡ b
      → perform write_elog (get_code component) b ≡ (pos (code_at k e), e)
  reads-Midway component k e b found h =
      rw
        (get-entry write_elog component (some k) b
          (ap (component_to_entry component) (sym h) ∙ found))
        (ap (λ (x : Elog). (pos (code_at k x), x)) (sym h))
