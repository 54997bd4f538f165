-- ===== src/Agent/Startup.antt =====
-- The start of the agent thread and what the program does when the agent library runs out of
-- memory: src/evp-agent/src/evp-agent.c, lines 46 to 56 and 325 to 352. `wasm` is whether the program
-- is built with CONFIG_EVP_MODULE_IMPL_WASM.
use aitrios_edge_device_core.Base.{
  ℕ, Bool, true, List, [], ◌∷◌, ◌++◌, if◌then◌else◌, ℤ, pos, is_nonzero, CString, codes,
}

-- The calls to the outside, with the arguments that the program chooses.
pub data SystemCall : Type 0 where
  write_critical : (func file : CString) (line size : ℕ) → SystemCall
  reboot_evp_mem_alloc_failure : SystemCall
  write_error : CString → SystemCall
  wasm_add_native_lib : CString → SystemCall

-- Whether the agent thread runs, and the calls in their order.
pub record Main : Type 0 where
  pub thread : Bool
  pub calls : List SystemCall

abbrev pub call : SystemCall → Main → Main
call c m = record m { calls = m.calls ++ c ∷ [] }

abbrev pub lib_senscord_wamr_so : CString
lib_senscord_wamr_so = codes "/opt/senscord/lib/libsenscord_wamr.so"

-- `out_of_memory`
unfoldable pub out_of_memory : CString → ℕ → CString → ℕ → Main → Main
out_of_memory file line func size m =
    call reboot_evp_mem_alloc_failure (call (write_critical func file line size) m)

pub evp_add_wasm_native_library : Bool → CString → Main → Main
evp_add_wasm_native_library wasm fname m =
    if wasm
    then call (wasm_add_native_lib fname) m
    else call
        (write_error
          (codes "command line dynamic libraries is only enabled with wasm module implementation"))
        m

-- `evp_agent_startup`; `created` is what `pthread_create` returns.
unfoldable pub evp_agent_startup : Bool → ℤ → Main → ℤ × Main
unfolding evp_add_wasm_native_library
evp_agent_startup wasm created m =
    let started =
      evp_add_wasm_native_library wasm lib_senscord_wamr_so (record m { thread = true }) in
    if is_nonzero created then (created, m) else (pos 0, started)
