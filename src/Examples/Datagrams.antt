-- ===== src/Examples/Datagrams.antt =====
-- A UDP server with one peer receives a datagram from another.
use imooc_sock_core_tech.Prelude.{
  ℕ, ◌≡◌, ◌≤◌, refl, true, none, some, Option, List, [], ◌∷◌, ◌++◌, arith, ◌==◌, if◌then◌else◌,
  length,
}
use imooc_sock_core_tech.Prelude.Int.{pos}
use imooc_sock_core_tech.Outcome.{done}
use imooc_sock_core_tech.Wire.{encode}
use imooc_sock_core_tech.Io.{udp, IoHandler, io_handler_init, udp_handler, udp_server}
use imooc_sock_core_tech.World.{Conn, State, received, sent, SockAddr}
use imooc_sock_core_tech.Conn.{same_addr}
use imooc_sock_core_tech.Conn.Accept.{peer_connection, connection_udp_accept}
use imooc_sock_core_tech.Conn.Peers.{
  PeerList, no_peer, peer, DistinctAddrs, peer_connection-add_addr,
}
use imooc_sock_core_tech.Conn.Datagrams.{datagram_reply, connection_udp_accept-replies}
use imooc_sock_core_tech.Examples.Data.{eighths, ack_package, kept_five, no_world, idle}

abbrev first_peer : SockAddr
first_peer = record { sin_port = 9; s_addr = 8 }

abbrev second_peer : SockAddr
second_peer = record { sin_port = 10; s_addr = 8 }

-- A UDP server that knows the first peer.
abbrev one_peer : State ℕ
one_peer =
    idle (record no_world {
      conns = λ p. if p == 10 then some kept_five else none;
      conn_hdr = 10 ∷ [];
    })

peer_connection-add_addr_example :
    (n : ℕ) × (c : Conn ℕ) × (brk : ℕ) × (conns : ℕ → Option (Conn ℕ)) × (conn_hdr : List ℕ)
    × (peer_connection eighths kept_five second_peer one_peer
        ≡ done (
          n,
          record one_peer {
            user = record (one_peer.user) { brk = brk; conns = conns; conn_hdr = conn_hdr };
          },
        ))
    × (conns n ≡ some c)
    × (same_addr c.cliaddr second_peer ≡ true)
    × PeerList conns brk conn_hdr (first_peer ∷ second_peer ∷ [])
    × DistinctAddrs (first_peer ∷ second_peer ∷ [])
peer_connection-add_addr_example =
    peer_connection-add_addr eighths kept_five second_peer (first_peer ∷ []) one_peer
      (peer 10 kept_five refl (omega arith) no_peer) (refl, tt)

abbrev udp_io : IoHandler
udp_io = record io_handler_init { recvfrom = some udp; sendto = some udp; fd = pos 6 }

-- The package and one more byte come from the second peer.
abbrev datagram_waits : State ℕ
datagram_waits = record one_peer {
  user = record (one_peer.user) {
    ios = λ p. if p == 40 then some (udp_handler udp_io udp_server) else none;
    recvs = received (encode ack_package ++ 9 ∷ []) ∷ [];
    peers = second_peer ∷ [];
    clock = (5, 0) ∷ [];
    sends = sent 20 ∷ [];
  };
}

fits_buffer : length (encode ack_package ++ 9 ∷ []) ≤ 4096
unfolding encode
fits_buffer = omega arith

connection_udp_accept-replies_example :
    (t : State ℕ) × (connection_udp_accept eighths kept_five 40 datagram_waits ≡ done (tt, t))
    × (t.user.sent_datagrams
        ≡ (pos 6, encode (datagram_reply ack_package (5, 0)), some second_peer, 16) ∷ [])
    × (t.user.wire ≡ [])
    × PeerList t.user.conns t.user.brk t.user.conn_hdr (first_peer ∷ second_peer ∷ [])
    × DistinctAddrs (first_peer ∷ second_peer ∷ [])
connection_udp_accept-replies_example =
    connection_udp_accept-replies eighths kept_five 40 udp_io udp_server ack_package (9 ∷ [])
      second_peer (5, 0) (first_peer ∷ []) datagram_waits
      (record {
        handler = refl;
        recvfrom = refl;
        sendto = refl;
        later_recvs = [];
        later_peers = [];
        later_clock = [];
        later_sends = [];
        datagram = refl;
        sender = refl;
        tick = refl;
        accepted = refl;
      })
      (omega arith) fits_buffer (peer 10 kept_five refl (omega arith) no_peer) (refl, tt)
