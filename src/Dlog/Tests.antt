-- ===== src/Dlog/Tests.antt =====
-- Runs of the diagnostic log on concrete inputs.
use aitrios_edge_device_core.Base.{
  ◌≡◌, refl, true, false, some, [], ◌∷◌, ◌==◌, arith, if◌then◌else◌, replicate, codes, has_nul,
}
use aitrios_edge_device_core.Dlog.{
  error, tagged, Dlog, Format, evp_file_name, evp_agent_dlog_handler, system_dlog,
  level_of_priority, name_of_priority,
}
use aitrios_edge_device_core.Dlog.FileName.{Named, evp_file_name-Named}
use aitrios_edge_device_core.Dlog.Chunks.{Logged, evp_agent_dlog_handler-Logged}
use aitrios_edge_device_core.Dlog.Memory.{Returns, evp_agent_dlog_handler-Returns, system_dlog_lem}

-- A message of two chunks; the first request of the heap succeeds, the second does not.
abbrev format : Format
format = record {
  prefix_len = some 12;
  measured = true;
  printed = true;
  message = replicate 300 b'A';
  room = λ n. if n == 1 then false else true;
}

abbrev quiet : Dlog
quiet = record { written = []; requests = 0; live = 5 }

message_has_no_nul : has_nul format.message ≡ false
message_has_no_nul = refl

evp_agent_dlog_handler-Logged_example :
    Logged format message_has_no_nul 3
      (codes "src/log.c")
      42
      12
      quiet
      (evp_agent_dlog_handler format 17 3 (codes "src/log.c") 42 quiet)
evp_agent_dlog_handler-Logged_example =
    evp_agent_dlog_handler-Logged format message_has_no_nul 17 3 (codes "src/log.c") 42 12 quiet
      (omega arith) refl refl refl refl

evp_agent_dlog_handler-Returns_example :
    Returns format 5 (evp_agent_dlog_handler format 17 3 (codes "src/log.c") 42 quiet)
evp_agent_dlog_handler-Returns_example =
    evp_agent_dlog_handler-Returns format message_has_no_nul 17 3 (codes "src/log.c") 42 quiet
      (omega arith)

evp_file_name_run : evp_file_name (codes "../src/log.c") ≡ codes "log.c"
unfolding evp_file_name
evp_file_name_run = refl

evp_file_name-Named_example : Named (codes "../src/log.c") (evp_file_name (codes "../src/log.c"))
evp_file_name-Named_example = evp_file_name-Named (codes "../src/log.c")

-- Where the heap is full, 127 bytes of the message are left.
system_dlog_example :
    system_dlog format 3 (codes "log.c") 7 (record quiet { requests = 1 }) ≡ record {
      written = tagged error (codes "ERROR") (codes "log.c") 7 (replicate 127 b'A') ∷ [];
      requests = 2;
      live = 5;
    }
unfolding level_of_priority name_of_priority
system_dlog_example = system_dlog_lem format 3 (codes "log.c") 7 (record quiet { requests = 1 })
