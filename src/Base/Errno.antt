-- ===== src/Base/Errno.antt =====
-- The error numbers of <errno.h> on Linux, the platform that the program is built for.
use Prim.Native.Nat.{ℕ}

abbrev pub eperm : ℕ
eperm = 1

abbrev pub enoent : ℕ
enoent = 2

abbrev pub eio : ℕ
eio = 5

abbrev pub e2big : ℕ
e2big = 7

abbrev pub enomem : ℕ
enomem = 12

abbrev pub einval : ℕ
einval = 22

abbrev pub erange : ℕ
erange = 34

abbrev pub eloop : ℕ
eloop = 40

abbrev pub eproto : ℕ
eproto = 71

abbrev pub enotsup : ℕ
enotsup = 95

abbrev pub econnaborted : ℕ
econnaborted = 103

abbrev pub ehostunreach : ℕ
ehostunreach = 113
