-- ===== src/Examples/Connections.antt =====
-- Connections: whole packages out of chunks, the blocked server, the send turn, the peers.
use imooc_sock_core_tech.Prelude.{
  ℕ, ◌≡◌, ◌≢◌, ◌≤◌, ◌+◌, ◌<◌, refl, false, none, some, List, [], ◌∷◌, ◌++◌, arith, ◌==◌,
  if◌then◌else◌,
}
use imooc_sock_core_tech.Prelude.Int.{ℤ, pos}
use imooc_sock_core_tech.Types.{nwc_server}
use imooc_sock_core_tech.Outcome.{done, fault, hang}
use imooc_sock_core_tech.Qos.{milisecs, pong}
use imooc_sock_core_tech.Wire.{encode, read_hdr}
use imooc_sock_core_tech.Config.{zero_configuration}
use imooc_sock_core_tech.Io.{tcp, IoHandler, tcp_handler, nts_established, nts_closed}
use imooc_sock_core_tech.Loop.{EpollEntry}
use imooc_sock_core_tech.Loop.Epoll.{find_entry}
use imooc_sock_core_tech.Transport.Api.{io_close, io_get_looper}
use imooc_sock_core_tech.World.{State, received, sent}
use imooc_sock_core_tech.Conn.{connection_close}
use imooc_sock_core_tech.Conn.Receive.{connection_on_recv}
use imooc_sock_core_tech.Conn.Send.{connection_on_send}
use imooc_sock_core_tech.Conn.Stream.{
  IsWhole, short, stream, process_all, connection_on_recv-stream,
}
use imooc_sock_core_tech.Conn.Replies.{reply_to}
use imooc_sock_core_tech.Conn.Answering.{connection_on_recv-replies}
use imooc_sock_core_tech.Conn.Spin.{connection_on_recv-hang}
use imooc_sock_core_tech.Conn.Closing.{connection_close-fault}
use imooc_sock_core_tech.Conn.Sending.{accepting, sum, connection_on_send-ends}
use imooc_sock_core_tech.Examples.Data.{
  eighths, always_ok, ack_package, one_waiting, kept_five, tcp_io, no_world, idle, sending,
}

abbrev rest_of_package : List ℕ
rest_of_package = 0 ∷ 0 ∷ 1 ∷ 0 ∷ 0 ∷ 0 ∷ 4 ∷ 0 ∷ 0 ∷ 0 ∷ 112 ∷ 111 ∷ 110 ∷ 103 ∷ 7 ∷ []

-- The client, with the end of the package and one byte more to be read.
abbrev client : State ℕ
client = idle (record no_world {
  ios = λ p. if p == 20 then some (tcp_handler tcp_io nts_established) else none;
  conns = λ p. if p == 10 then some kept_five else none;
  clock = (5, 0) ∷ [];
  recvs = received (0 ∷ rest_of_package) ∷ [];
})

ack_package-IsWhole : IsWhole ack_package
ack_package-IsWhole = record {
  fits = record {
    timestamp = omega arith;
    ack_timestamp = omega arith;
    recv_delay = omega arith;
    length = omega arith;
  };
  payload = refl;
  size = omega arith;
}

cut_stream : kept_five.recv_buff ++ 0 ∷ rest_of_package ≡ stream (ack_package ∷ []) (7 ∷ [])
unfolding encode
cut_stream = refl

connection_on_recv-stream_example :
    (t : State ℕ) × (connection_on_recv eighths always_ok 2 10 client ≡ done (pos 0, t))
    × (t.user.conns 10
        ≡ some (record kept_five {
          qos = process_all eighths (ack_package ∷ []) (milisecs 5 0) one_waiting;
          rbytes = 1;
          recv_buff = 7 ∷ [];
        }))
connection_on_recv-stream_example =
    connection_on_recv-stream eighths always_ok 2 10 20 kept_five tcp_io nts_established client 0
      rest_of_package [] (5, 0) [] (ack_package ∷ []) (7 ∷ []) refl refl refl refl refl refl refl
      refl (omega arith) cut_stream (ack_package-IsWhole, tt) (short (omega arith)) (omega arith)

abbrev blocked_io : IoHandler
blocked_io = record tcp_io { can_send = false }

-- A server whose socket would block, with the same bytes to be read.
abbrev server : State ℕ
server = idle (record no_world {
  ios = λ p. if p == 20 then some (tcp_handler blocked_io nts_established) else none;
  conns = λ p. if p == 10 then some kept_five else none;
  clock = (5, 0) ∷ [];
  recvs = received (0 ∷ rest_of_package) ∷ [];
  cfg = record zero_configuration { mode = nwc_server };
})

connection_on_recv-hang_example : connection_on_recv eighths always_ok 1000 10 server ≡ hang
connection_on_recv-hang_example =
    connection_on_recv-hang eighths always_ok 1000 10 20 kept_five blocked_io nts_established server
      0 rest_of_package [] (5, 0) [] (record ack_package { payload = pong ++ 7 ∷ [] })
      (record {
        conn = refl;
        handle = refl;
        handler = refl;
        blocked = refl;
        recv = refl;
        server = refl;
      })
      refl refl (unfold read_hdr in refl) (omega arith) (omega arith) (omega arith)

-- An established connection with its entry in the looper at 3, and the slots that the code fills.
abbrev live_io : IoHandler
live_io = record tcp_io { close = some tcp; looper = some 3; h_handle = some 30 }

abbrev live_entry : EpollEntry
live_entry = record { addr = 30; mask = 1; fd = pos 4; eh = 20 }

abbrev live : State ℕ
live =
    record (idle (record no_world {
      ios = λ p. if p == 20 then some (tcp_handler live_io nts_established) else none;
      conns = λ p. if p == 10 then some kept_five else none;
    })) { entries = live_entry ∷ [] }

is_live : nts_established ≢ nts_closed
is_live e = cc

connection_close-fault_example :
    (t : State ℕ) × (io_close always_ok 20 live ≡ done (pos 0, t))
    × (t.user.closed_fds ≡ pos 4 ∷ [])
    × (t.user.ios 20 ≡ none)
    × (io_get_looper 20 t ≡ fault)
    × (connection_close always_ok 10 live ≡ fault)
connection_close-fault_example =
    connection_close-fault always_ok 10 20 3 30 kept_five live_io nts_established live_entry live
      refl refl refl refl is_live refl refl (unfold find_entry in refl)

connection_on_send-ends_example :
    (rc : ℤ) × (t : State ℕ) × (used : List ℕ) × (rest : List ℕ) × (connection_on_send eighths
        always_ok 3 10 sending
      ≡ done (rc, t))
    × (1 ∷ 1316 ∷ [] ≡ used ++ rest)
    × (t.user.sends ≡ accepting rest)
    × (2 ≤ sum used)
    × (sum used < 2 + 1316)
connection_on_send-ends_example =
    connection_on_send-ends eighths always_ok 10 20 2 tcp_io nts_established ((5, 0) ∷ (6, 0) ∷ [])
      (1 ∷ 1316 ∷ []) sending
      (record {
        c = kept_five;
        conn = refl;
        handle = refl;
        budget = refl;
        handler = refl;
        send = refl;
        ticks = refl;
        sends = refl;
      })
      (omega arith, omega arith, (omega arith, omega arith, tt)) (omega arith) (omega arith)
      (omega arith) refl refl

-- A server that can send, with the same bytes to be read.
abbrev answering : State ℕ
answering = record server {
  user = record (server.user) {
    ios = λ p. if p == 20 then some (tcp_handler tcp_io nts_established) else none;
    clock = (5, 0) ∷ (6, 0) ∷ [];
    sends = sent 20 ∷ [];
  };
}

connection_on_recv-replies_example :
    (t : State ℕ) × (connection_on_recv eighths always_ok 2 10 answering ≡ done (pos 0, t))
    × (t.user.wire ≡ (pos 4, encode (reply_to (milisecs 5 0) ack_package (6, 0))) ∷ [])
    × (t.user.conns 10 ≡ some (record kept_five { rbytes = 1; recv_buff = 7 ∷ [] }))
connection_on_recv-replies_example =
    connection_on_recv-replies eighths always_ok 2 10 20 kept_five tcp_io nts_established answering
      0 rest_of_package [] (5, 0) ((6, 0) ∷ []) [] (ack_package ∷ []) (7 ∷ []) []
      (record {
        conn = refl;
        handle = refl;
        handler = refl;
        can = refl;
        send = refl;
        server = refl;
      })
      refl refl refl refl refl refl (omega arith) cut_stream (ack_package-IsWhole, tt)
      (short (omega arith)) (omega arith)
