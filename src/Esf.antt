-- ===== src/Esf.antt =====
-- The settings that the agent reads: src/evp-agent/src/esf.c. The state is `g_proxy_cache` together
-- with the heap, of which the blocks in use are counted; what `malloc` and `strdup` return is a
-- parameter, by the number of the requests before. The directories and files that are open are
-- counted too.
pub mod Proxy
pub mod Read
mod Tests
use aitrios_edge_device_core.Base.{ℕ, Bool, Option, none, some, List, CString}

-- `struct proxy_cache` and the heap. A pointer is the string that it points to, `none` for NULL;
-- `port` is the string in the array of that name.
pub record Esf : Type 0 where
  pub host : Option CString
  pub port : CString
  pub username : Option CString
  pub password : Option CString
  pub requests : ℕ
  pub live : ℕ
  pub descriptors : ℕ

-- `proxy` of `EsfNetworkManagerParameter`; `port_text` is the port as "%d" prints it.
pub record ProxyParameter : Type 0 where
  pub url : CString
  pub port_text : CString
  pub username_text : CString
  pub password_text : CString

-- What is not part of the program: `room` is whether a request of the heap succeeds, `load` what
-- `EsfNetworkManagerLoadParameter` reads (its success is 0, `none` any other result), and `port_len` ESF_NETWORK_MANAGER_PROXY_PORT_LEN.
pub record Source : Type 0 where
  pub room : ℕ → Bool
  pub load : Option ProxyParameter
  pub port_len : ℕ
