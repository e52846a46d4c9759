-- ===== src/Examples/Data.antt =====
-- Concrete states that the examples share: a client and a server with one connection each.
use imooc_sock_core_tech.Checker.{System}
use imooc_sock_core_tech.Prelude.{
  ℕ, ◌+◌, ◌-◌, ◌*◌, ◌/◌, Bool, true, false, none, some, List, [], ◌∷◌, ◌==◌, if◌then◌else◌, ltb,
}
use imooc_sock_core_tech.Prelude.Int.{pos}
use imooc_sock_core_tech.Types.{nwc_client}
use imooc_sock_core_tech.Qos.{DoubleOps, QosHdr, PackageEntry, Qos, pong}
use imooc_sock_core_tech.Config.{zero_configuration}
use imooc_sock_core_tech.Loop.{Loop, EpollCtl}
use imooc_sock_core_tech.Io.{tcp, IoHandler, io_handler_init, tcp_handler, nts_established}
use imooc_sock_core_tech.World.{Conn, World, State, sent}
use imooc_sock_core_tech.Conn.{io_operation_init}

-- Numbers in eighths: a number `n` is written `8 * n`.
abbrev pub eighths : DoubleOps ℕ
eighths = record {
  of_u32 = λ n. 8 * n;
  add = λ a b. a + b;
  sub = λ a b. a - b;
  mul = λ a b. a * b / 8;
  div = λ a b. a * 8 / b;
  gt = λ a b. ltb b a;
  zero = 0;
  seven_eighths = 7;
  one_eighth = 1;
  nan = 1_000_000;
  infinity = 2_000_000;
}

-- `epoll_ctl` that always succeeds.
abbrev pub always_ok : EpollCtl
always_ok = λ calls call. 0

abbrev pub ack_package : QosHdr
ack_package = record {
  timestamp = 3;
  ack_timestamp = 2;
  recv_delay = 1;
  length = 4;
  payload = pong;
}

abbrev pub waiting_entry : PackageEntry
waiting_entry = record { addr = 30; message = record ack_package { timestamp = 2 }; flag = 0 }

abbrev pub one_waiting : Qos ℕ
one_waiting = record {
  rtt = 0;
  loss_packages_per_secs = 0;
  sent_packages_per_secs = 1;
  jitter = 0;
  recv_timestamp = 0;
  recv_time = 0;
  sent_bytes = 1316;
  send_bandwidth = 2;
  last_stat_ts = 1;
  stat_interval = 1000;
  sent_queue = waiting_entry ∷ [];
}

-- A connection over the handler at 20 that has kept 5 bytes of `ack_package`.
abbrev pub kept_five : Conn ℕ
kept_five = record {
  op = io_operation_init;
  qos = one_waiting;
  handle = some 20;
  cliaddr = record { sin_port = 9; s_addr = 8 };
  recv_buff = 3 ∷ 0 ∷ 0 ∷ 0 ∷ 2 ∷ [];
  rbytes = 5;
  stat_wk_handle = none;
  send_wk_handle = none;
}

abbrev pub tcp_io : IoHandler
tcp_io = record io_handler_init { recv = some tcp; send = some tcp; fd = pos 4; can_send = true }

abbrev pub no_world : World ℕ
no_world = record {
  ios = λ p. none;
  conns = λ p. none;
  conn_hdr = [];
  listen_op = none;
  listen_handle = none;
  cfg = record zero_configuration { mode = nwc_client };
  brk = 50;
  junk = [];
  closed_fds = [];
  wire = [];
  sent_datagrams = [];
  clock = [];
  recvs = [];
  peers = [];
  sends = [];
  accepts = [];
  sock_errors = [];
}

-- A loop with no worker and no entry.
abbrev pub idle : {U : Type 0} → U → Loop U
idle u = record {
  worker_hdr = [];
  removed_worker_hdr = [];
  epfd = pos 3;
  exit = 0;
  timeout_interval = pos 50;
  entries = [];
  removed_epoll_entrys = [];
  ctl_calls = [];
  user = u;
}

-- The client before a send turn: three sends of up to a package each.
abbrev pub sending : State ℕ
sending = idle (record no_world {
  ios = λ p. if p == 20 then some (tcp_handler tcp_io nts_established) else none;
  conns = λ p. if p == 10 then some kept_five else none;
  clock = (5, 0) ∷ (6, 0) ∷ [];
  sends = sent 1 ∷ sent 1316 ∷ [];
})

-- A process with no answer to come, and no descriptor -1 in a set.
abbrev pub system_of : {L : Type 0} → L → System L
system_of l = record {
  locals = l;
  sockets = [];
  pairs = [];
  forks = [];
  oks = [];
  selects = [];
  accepts = [];
  recvs = [];
  sends = [];
  messages = [];
  calls = [];
}

abbrev pub never : List ℕ → Bool
never set = false
