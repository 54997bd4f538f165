-- ===== src/Elog/Tests.antt =====
-- Runs of the table of log.c, and its theorems at them.
use aitrios_edge_device_core.Base.{ℕ, ◌≡◌, refl, Bool, true, List, [], ◌∷◌, arith, codes}
use aitrios_edge_device_core.Elog.{
  Elog, elog_err, system_reg_elog, system_get_elog, system_set_elog,
}
use aitrios_edge_device_core.Elog.Invariant.{
  IsValid, static_elog, static_elog-IsValid, system_reg_elog-IsValid,
}

abbrev one_code : Elog
one_code = system_reg_elog 0xf0 0x40 (codes "Warning.") static_elog

one_code-IsValid : IsValid one_code
one_code-IsValid =
    system_reg_elog-IsValid 0xf0 0x40 (codes "Warning.") static_elog (omega arith) (omega arith)
      static_elog-IsValid

-- The event log takes every event.
abbrev accept : List ℕ → Bool
accept events = true

reads_back : system_get_elog 0xf0 (system_set_elog accept 0xf0 0x42 one_code).1 ≡ 0x42
unfolding system_get_elog system_set_elog system_reg_elog
reads_back = refl

sends_once : (system_set_elog accept 0xf0 0x42 one_code).1.written ≡ 0xf042 ∷ []
unfolding system_set_elog system_reg_elog
sends_once = refl

unknown_component : system_get_elog 0xf1 one_code ≡ elog_err
unfolding system_get_elog system_reg_elog
unknown_component = refl

system_reg_elog-IsValid_example : IsValid (system_reg_elog 0xf1 0x0 (codes "Warning 2.") one_code)
system_reg_elog-IsValid_example =
    system_reg_elog-IsValid 0xf1 0x0 (codes "Warning 2.") one_code (omega arith) (omega arith)
      one_code-IsValid
