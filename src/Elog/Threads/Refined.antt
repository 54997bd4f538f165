-- ===== src/Elog/Threads/Refined.antt =====
-- Every access of a thread goes on with what its operation does as a whole.
use mathlib.Core.Logic.{ite, if_pos, if_neg}
use native.Mathlib.Decide.{ℕ_discrete}
use aitrios_edge_device_core.Base.{
  ℕ, ◌≡◌, refl, sym, ap, ◌∙◌, Bool, true, false, none, List, [], ltb, ◌==◌,
}
use aitrios_edge_device_core.Elog.{Elog, max_elog_entry, component_to_entry, event_id}
use aitrios_edge_device_core.Elog.Threads.{
  outside, entered, leaving, Users, put, code_at, note_event, event_result, Access, locks,
  finds_full, writes_component, writes_updated, writes_code, writes_msg, counts, misses, finds_same,
  changes, marks, sends, clears, reads_none, reads, unlocks, Accesses, here, later,
}
use aitrios_edge_device_core.Elog.Threads.Sequential.{
  put_twice, Midway, Section, IsSequential, Section-Inside, goes_on,
}
use aitrios_edge_device_core.Elog.Threads.Steps.{
  writes_again, full-Midway, counts-Midway, misses-Midway, same-Midway, clears-Midway,
  reads_none-Midway, reads-Midway,
}

module _ (write_elog : List ℕ → Bool) (start : Elog) where
  Access-IsSequential :
      {s t : Users}
      → Access write_elog s t
      → IsSequential write_elog start s
      → IsSequential write_elog start t
  Access-IsSequential {s} (locks i op unheld at) q =
      let free : Section write_elog q.before s none = rw unheld at q.section in
      record {
        before = q.before;
        sequential = q.sequential;
        section = (
          rw (if_pos (ℕ_discrete i i) refl (entered op) (s.places i)) free.0,
          λ j ne.
              if_neg (ℕ_discrete i j) (λ same. ne (sym same)) (entered op) (s.places j) ∙ free.1 j,
        );
      }
  Access-IsSequential {s} (finds_full i component value msg at full) q =
      goes_on write_elog start s i _ _ _ q at refl
        (λ b m. full-Midway write_elog component value msg s.elog b full m)
  Access-IsSequential {s} (writes_component i component value msg at room) q =
      goes_on write_elog start s i _ _ _ q at refl (λ b m. (
        ap (λ (x : Elog). ltb x.last max_elog_entry) (sym m) ∙ room,
        ap (λ (x : Elog). put (λ e. record e { component = component }) x.last x) m,
      ))
  Access-IsSequential {s} (writes_updated i component value msg at) q =
      goes_on write_elog start s i _ _ _ q at refl (λ b m. (
        m.0,
        writes_again write_elog (λ e. record e { component = component })
            (λ e. record e { updated = false }) s.elog b m.1,
      ))
  Access-IsSequential {s} (writes_code i component value msg at) q =
      goes_on write_elog start s i _ _ _ q at refl (λ b m. (
        m.0,
        writes_again write_elog (λ e. record e { component = component; updated = false })
            (λ e. record e { code = value }) s.elog b m.1,
      ))
  Access-IsSequential {s} (writes_msg i component value msg at) q =
      goes_on write_elog start s i _ _ _ q at refl (λ b m. (
        m.0,
        writes_again write_elog
            (λ e. record e { component = component; updated = false; code = value })
            (λ e. record e { msg = msg }) s.elog b m.1,
      ))
  Access-IsSequential {s} (counts i component value msg at) q =
      goes_on write_elog start s i _ _ _ q at refl
        (λ b m. counts-Midway write_elog component value msg s.elog b m)
  Access-IsSequential {s} (misses i component code at missing) q =
      goes_on write_elog start s i _ _ _ q at refl
        (λ b m. misses-Midway write_elog component code s.elog b missing m)
  Access-IsSequential {s} (finds_same i component code k at found same) q =
      goes_on write_elog start s i _ _ _ q at refl
        (λ b m. same-Midway write_elog component code k s.elog b found same m)
  Access-IsSequential {s} (changes i component code k at found differs) q =
      goes_on write_elog start s i _ _ _ q at refl (λ b m. (
        ap (component_to_entry component) (sym m) ∙ found,
        ap (λ (x : Elog). code_at k x == code) (sym m) ∙ differs,
        ap (put (λ e. record e { code = code }) k) m,
      ))
  Access-IsSequential {s} (marks i component code k at) q =
      goes_on write_elog start s i _ _ _ q at refl (λ b m. (
        m.0,
        m.1,
        ap (put (λ e. record e { updated = true }) k) m.2
            ∙ put_twice (λ e. record e { code = code }) (λ e. record e { updated = true }) k b,
      ))
  Access-IsSequential {s} (sends i component code k at) q =
      let id = event_id component code in
      goes_on write_elog start s i _ _ _ q at refl
        (λ b m. (m.0, m.1, ap (note_event id) m.2, ap (event_result write_elog id) m.2))
  Access-IsSequential {s} (clears i component code k ret at) q =
      goes_on write_elog start s i _ _ _ q at refl
        (λ b m. clears-Midway write_elog component code k ret s.elog b m)
  Access-IsSequential {s} (reads_none i component at missing) q =
      goes_on write_elog start s i _ _ _ q at refl
        (λ b m. reads_none-Midway write_elog component s.elog b missing m)
  Access-IsSequential {s} (reads i component k at found) q =
      goes_on write_elog start s i _ _ _ q at refl
        (λ b m. reads-Midway write_elog component k s.elog b found m)
  Access-IsSequential {s} (unlocks i op ret at) q =
      let b = q.before in
      let here = Section-Inside write_elog b s i s.holder refl q.section (rw at refl) in
      let came : Midway write_elog b (leaving op ret) s.elog = rw at at here.1 in
      record {
        before = s.elog;
        sequential = (b, q.sequential, came);
        section = (
          refl,
          λ j. elim (ℕ_discrete i j) as (λ d. ite d outside (s.places j) ≡ outside) [
            | yes same ↦ refl
            | no differs ↦ here.2 j (λ same. differs (sym same))
          ],
        );
      }

  -- No thread inside, and no call yet.
  abbrev pub at_rest : Users
  at_rest = record { elog = start; holder = none; places = λ i. outside; history = [] }

  -- However threads interleave the single writes of SystemRegElog, SystemSetELog and SystemGetELog,
  -- from any table with the mutex free and no thread inside: the calls that have given the mutex
  -- back, run whole and one after the other in that order from the first table, return the results
  -- that they returned and lead to the table at the last unlock. While the mutex is free that is
  -- the table; otherwise only the thread that has it is inside, and the table is as far from it as
  -- that thread's operation has come.
  pub Accesses-IsSequential :
      {t : Users} → Accesses write_elog at_rest t → IsSequential write_elog start t
  Accesses-IsSequential here = record {
    before = start;
    sequential = refl;
    section = (refl, λ j. refl);
  }
  Accesses-IsSequential (later accesses access) =
      Access-IsSequential access (Accesses-IsSequential accesses)
