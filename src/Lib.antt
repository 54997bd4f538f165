-- ===== src/Lib.antt =====
-- Edge Device Core: the part of the device's core process that joins the EVP agent library to the
-- device's services (src/evp-agent of the repository). A thread runs the agent; the agent notifies
-- handlers, which keep three status codes in a table that is written to the event log, and show the
-- connection on a LED; other threads register native symbols and ask for the agent's status.
--
-- Parts and files, with the sources under src/evp-agent/src:
-- - Elog: the table of log.c. `Elog` is `elog_array` with its count and the events written so far;
--   system_reg_elog, system_set_elog and system_get_elog are SystemRegElog, SystemSetELog and
--   SystemGetELog. Invariant and Codes relate the array to a partial map of codes. Threads has the
--   threads that run these operations under the mutex, one write at a time. Registry is the table
--   without its array, as its clients see it; Registry.Shared has the threads against it,
--   Registry.Log the events that they hand to the event log, and Registry.Abstract what a caller can
--   tell of a table.
-- - Dlog: the diagnostic log of log.c and log.h, evp_agent_dlog_handler and SystemDlog with their
--   buffers on the heap. FileName is EVP_FILE_NAME, Cut the loop that writes a long message 256
--   bytes at a time, Chunks what is logged, Memory the blocks of the heap.
-- - Notifications: the handlers of notifications.c. `Notifications` is their static state with the
--   table. Ready has what the handlers find once they are registered; Blob and Mqtt are the
--   handlers of the topics blob/result, mqtt/sync/err and network/error; Register is
--   evp_agent_notifications_register; Events runs sequences of events through the handlers, and Log
--   is the event log under them.
-- - Status: agent_status_handler of notifications.c with what it reads, and
--   evp_agent_esf_is_tls_enabled of esf.c. The state is the settings that the LED manager was sent.
--   Heap is the handler with the heap, where it reads the host through Esf.
-- - Esf: the proxy cache of esf.c with the heap, whose blocks in use are counted, as are the files
--   and directories that are open (Proxy), and the reader of the configuration with its buffers
--   (Read). Read.RoundTrip goes from the network manager through the cache to the reader,
--   Read.FromFile from the directory of the certificate and the key.
-- - ConfigHooks: the hooks of config.c over the reader. Wiped is what unloading leaves of a value.
-- - Agent: evp-agent.c. `Agent` is g_evp_agent with the queue g_wasm_native_symbols and the calls
--   made so far. Natives is the queue, Thread is evp_agent_thread with a function for each of its
--   labels, Backdoor has the functions of include/sdk_backdoor.h. Thread.Laws is what the thread
--   asks of the parts that it calls, and Program has those of this program: handlers, cache and
--   hooks, with what the agent library calls back between its start and its stop.
--   Startup is evp_agent_startup. Registration, Context and Shutdown are step relations, in which
--   other threads act between any two shared accesses of the agent thread: callers that register
--   symbols while it starts and flushes the queue, callers of the backdoor functions while it makes,
--   leaves and frees its context, and the thread that shuts it down. In Registration an insertion
--   and the removal of an entry have a begin and an end; where they overlap, since the flush takes
--   no lock, the queue is torn and may turn into anything.
-- - Base: the numbers, lists, strings and bytes that these share.
--
-- Outside those three relations and Elog.Threads the code is modelled as sequential within a
-- handler, an operation of the table or the thread: functions from a state to a result and a state.
-- A handler that reads through NULL is a fault, `none`, with which Agent.Program ends: nothing of
-- its state changes any more. What a failed asprintf leaves in its pointer is a parameter,
-- `asprintf_left`: NULL, or something that is then freed and is not a block. Bytes are natural
-- numbers, cut to 8 bits where the code narrows; error numbers are those of Linux. What the agent
-- library, the C library, the event log, the clock, the power, system, network and LED managers and
-- the runtime return is a parameter of each model: a function of the calls before, so that any
-- behaviour of theirs is covered. The lines that the handlers and the thread send to the diagnostic
-- log are left out.
--
-- Fuel: the loop of the thread, `agent_rounds`, takes one unit for a round. The thread runs until
-- it is told to stop or a round fails; when the first such round is the k-th, counted from 0, any
-- fuel above k is enough. The loop of the diagnostic log, `write_chunks`, takes one unit for a
-- chunk; its buffer holds at most 4095 bytes, so any fuel above 16 is enough.
--
-- Not modelled: the waiting of a thread for a mutex, a build without assertions (the lock of the
-- table is taken inside one), and the submodules, build files, scripts and samples.
pub mod Base
pub mod Elog
pub mod Dlog
pub mod Notifications
pub mod Status
pub mod Esf
pub mod ConfigHooks
pub mod Agent
