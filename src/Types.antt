-- ===== src/Types.antt =====
-- Constants and handles of 04-30_nwchecker_refactor: nwc_types.h, nwc_io_handler.h, and the
-- numbers that Linux gives to the errors which the code names.
use imooc_sock_core_tech.Prelude.{ℕ, ◌+◌, ◌-◌, ◌%◌, ◌^◌, Option, none}

abbrev pub nwc_client : ℕ
nwc_client = 1

abbrev pub nwc_server : ℕ
nwc_server = 2

abbrev pub nwc_proto_tcp : ℕ
nwc_proto_tcp = 1

abbrev pub nwc_proto_udp : ℕ
nwc_proto_udp = 2

-- `nwc_handle_t`: the address of an object, or `INVALID_HANDLE`.
abbrev pub NwcHandle : Type 0
NwcHandle = Option ℕ

abbrev pub invalid_handle : NwcHandle
invalid_handle = none

abbrev pub schedule_timer : ℕ
schedule_timer = 50

abbrev pub em_read : ℕ
em_read = 1

abbrev pub em_write : ℕ
em_write = 2

abbrev pub em_all : ℕ
em_all = 3

abbrev pub eintr : ℕ
eintr = 4

-- `EAGAIN`; `EWOULDBLOCK` is the same number.
abbrev pub eagain : ℕ
eagain = 11

abbrev pub einval : ℕ
einval = 22

abbrev pub enetdown : ℕ
enetdown = 100

abbrev pub enetunreach : ℕ
enetunreach = 101

abbrev pub econnreset : ℕ
econnreset = 104

abbrev pub etimedout : ℕ
etimedout = 110

abbrev pub econnrefused : ℕ
econnrefused = 111

abbrev pub ehostunreach : ℕ
ehostunreach = 113

abbrev pub einprogress : ℕ
einprogress = 115

-- `uint32_t` arithmetic.
abbrev pub u32 : ℕ → ℕ
u32 n = n % 2 ^ 32

abbrev pub sub32 : ℕ → ℕ → ℕ
sub32 a b = (a + 2 ^ 32 - b) % 2 ^ 32
