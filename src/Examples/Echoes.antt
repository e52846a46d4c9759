-- ===== src/Examples/Echoes.antt =====
-- The other servers of the checker (Checker): TCP in one process, UDP, and UDP with SIGIO.
use imooc_sock_core_tech.Prelude.{
  ℕ, ◌≡◌, refl, true, false, Option, none, some, [], ◌∷◌, arith, map, ◌||◌,
}
use imooc_sock_core_tech.Outcome.{done}
use imooc_sock_core_tech.World.{SockAddr, received, sent, accepted}
use imooc_sock_core_tech.Examples.Data.{never, system_of}
use imooc_sock_core_tech.Checker.{
  ready, nonblocking, System, datagram, recvfrom_failed, sent_to, pong_message, closed,
}
use imooc_sock_core_tech.Checker.Answering.{serve_all}
use imooc_sock_core_tech.Checker.Worker.{new_connection}
use imooc_sock_core_tech.Checker.Serving.{Turn, pongs_of, after_turn}
use imooc_sock_core_tech.Checker.Server.{ServerState, echo_all, server_round}
use imooc_sock_core_tech.Checker.Echo.{echo_all-serve_all}
use imooc_sock_core_tech.Checker.Greeting.{new_turn, server_question, server_round-pongs}
use imooc_sock_core_tech.Checker.Udp.{UdpState, udp_rounds}
use imooc_sock_core_tech.Checker.Udp.Answers.{knows, came_from, AreDistinct, udp_rounds-answers}
use imooc_sock_core_tech.Checker.Sigio.{SigioState, sigio_round}
use imooc_sock_core_tech.Checker.Bursts.{sigio_round-replies}

-- A connection that sends "ping", on a server that listens at 9.
abbrev old_turn : Turn
old_turn = record {
  nwc = new_connection none (some 30);
  fd = 30;
  byte = b'p';
  bytes = b'i' ∷ b'n' ∷ b'g' ∷ [];
}

abbrev serving : System ServerState
serving =
    record (system_of (record { sock_fd = 9; nwc_hdr = old_turn.nwc ∷ []; timeout_value = none })) {
      selects = ready (9 ∷ 30 ∷ []) [] (0, 0) ∷ [];
      accepts = accepted 31 ∷ [];
      recvs = received (b'p' ∷ b'i' ∷ b'n' ∷ b'g' ∷ []) ∷ [];
      sends = sent 4 ∷ sent 4 ∷ [];
    }

echo_all-serve_all_example :
    echo_all never 1 (30 ∷ []) [] (old_turn.nwc ∷ []) serving
    ≡ serve_all never (30 ∷ []) [] (old_turn.nwc ∷ []) serving
echo_all-serve_all_example =
    echo_all-serve_all never 1 (30 ∷ []) [] (λ e. omega arith) (λ e. omega arith)
      (old_turn.nwc ∷ []) serving

server_round-pongs_example :
    (t : System ServerState) × (server_round never 0 5 serving ≡ done (true, t))
    × (t.calls
        ≡ server_question serving.locals
          ∷ nonblocking 31
          ∷ pongs_of (9 ∷ 30 ∷ []) [] (old_turn ∷ new_turn 31 ∷ []))
    × (t.locals.nwc_hdr ≡ map (after_turn (9 ∷ 30 ∷ []) []) (old_turn ∷ new_turn 31 ∷ []))
server_round-pongs_example =
    server_round-pongs never 0 5 (9 ∷ 30 ∷ []) [] (0, 0) [] [] [] [] (λ e. omega arith)
      (λ e. omega arith) (old_turn ∷ []) 31 serving refl (refl, tt) refl refl refl refl refl

abbrev near : SockAddr
near = record { sin_port = 4000; s_addr = 1 }

abbrev far : SockAddr
far = record { sin_port = 5000; s_addr = 2 }

-- Two datagrams from one address, and one from another.
abbrev udp_server_state : System UdpState
udp_server_state =
    record (system_of (record {
      sock_fd = 9;
      client_addr = record { sin_port = 0; s_addr = 0 };
      nwc_hdr = [];
      datagrams = datagram [] near ∷ datagram (7 ∷ []) far ∷ datagram [] near ∷ [];
    })) { sends = sent 4 ∷ sent 4 ∷ sent 4 ∷ [] }

udp_rounds-answers_example :
    (t : System UdpState) × (udp_rounds 0 3 udp_server_state ≡ done (tt, t))
    × (t.calls
        ≡ sent_to 9 pong_message near
          ∷ sent_to 9 pong_message far
          ∷ sent_to 9 pong_message near
          ∷ [])
    × AreDistinct t.locals.nwc_hdr
    × ((a : SockAddr)
        → knows a t.locals.nwc_hdr
          ≡ (false || came_from a (([], near) ∷ (7 ∷ [], far) ∷ ([], near) ∷ [])))
udp_rounds-answers_example =
    udp_rounds-answers 0 (λ e. omega arith) (λ e. omega arith) [] []
      (([], near) ∷ (7 ∷ [], far) ∷ ([], near) ∷ []) udp_server_state refl refl tt

-- What `malloc` leaves is the socket's own descriptor, in the first object.
abbrev left_there : ℕ → Option ℕ
left_there i = some 9

abbrev signalled : System SigioState
signalled =
    record (system_of (record {
      sock_fd = 9;
      nwc_hdr = [];
      datagrams = datagram (7 ∷ []) far ∷ recvfrom_failed 11 ∷ [];
      left_in_fd = left_there;
      allocated = 0;
    })) { sends = sent 4 ∷ [] }

sigio_round-replies_example :
    (t : System SigioState) × (sigio_round signalled ≡ done (tt, t))
    × (t.locals.nwc_hdr ≡ [])
    × (t.locals.datagrams ≡ [])
    × (t.calls ≡ closed 9 ∷ sent_to 9 pong_message far ∷ closed 9 ∷ [])
sigio_round-replies_example =
    sigio_round-replies ((7 ∷ [], far) ∷ []) 11 [] [] signalled refl refl refl
