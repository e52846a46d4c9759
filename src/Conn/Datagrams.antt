-- ===== src/Conn/Datagrams.antt =====
-- The UDP server at a datagram: `nwc_connection_udp_accept` (nwc_connection.c).
use imooc_sock_core_tech.Prelude.{
  ℕ, ◌<◌, ◌≤◌, ◌≡◌, refl, Option, some, List, [], ◌∷◌, ◌++◌, arith, length, take, take-all,
  append_assoc, ◌^◌,
}
use imooc_sock_core_tech.Prelude.Int.{pos}
use imooc_sock_core_tech.Outcome.{done}
use imooc_sock_core_tech.Qos.{DoubleOps, QosHdr, milisecs, pong, create_ack_package}
use imooc_sock_core_tech.Wire.{encode}
use imooc_sock_core_tech.Wire.Roundtrip.{length-encode, read_u32-encode}
use imooc_sock_core_tech.Io.{udp, IoHandler, udp_handler}
use imooc_sock_core_tech.World.{
  SockAddr, State, Conn, RecvReply, received, SendReply, sent, load_io,
}
use imooc_sock_core_tech.Transport.Api.{io_recvfrom, io_sendto}
use imooc_sock_core_tech.Transport.Udp.{udp_recvfrom, udp_sendto, next_peer, written_peer}
use imooc_sock_core_tech.Transport.Syscalls
use imooc_sock_core_tech.Transport.Syscalls.{recv_loop, sys_recv, sys_sendto}
use imooc_sock_core_tech.Transport.Receiving.{read_clock-at}
use imooc_sock_core_tech.Conn.{recv_buffer_len}
use imooc_sock_core_tech.Conn.Accept.{connection_udp_accept}
use imooc_sock_core_tech.Conn.Peers.{PeerList, DistinctAddrs, add_addr, peer_connection-add_addr}

-- The acknowledgement of a datagram at a reading of the clock.
abbrev pub datagram_reply : QosHdr → ℕ × ℕ → QosHdr
datagram_reply p now = record {
  timestamp = milisecs now.0 now.1;
  ack_timestamp = p.timestamp;
  recv_delay = 0;
  length = 4;
  payload = pong;
}

-- The UDP handler at `io` of a server, and what the system answers: a datagram from `from`, a
-- reading of the clock, and a send that accepts an acknowledgement's 20 bytes.
pub record IsReceiving {D : Type 0} (io : ℕ) (h : IoHandler) (kind : ℕ) (bytes : List ℕ)
    (from : SockAddr) (now : ℕ × ℕ) (s : State D) : Type 0 where
  pub handler : s.user.ios io ≡ some (udp_handler h kind)
  pub recvfrom : h.recvfrom ≡ some udp
  pub sendto : h.sendto ≡ some udp
  pub later_recvs : List RecvReply
  pub later_peers : List SockAddr
  pub later_clock : List (ℕ × ℕ)
  pub later_sends : List SendReply
  pub datagram : s.user.recvs ≡ received bytes ∷ later_recvs
  pub sender : s.user.peers ≡ from ∷ later_peers
  pub tick : s.user.clock ≡ now ∷ later_clock
  pub accepted : s.user.sends ≡ sent 20 ∷ later_sends

datagram_bytes :
    (p : QosHdr) (now : ℕ × ℕ)
    → take 20 (encode (datagram_reply p now)) ≡ encode (datagram_reply p now)
unfolding encode
datagram_bytes p now = refl

module _ {D : Type 0} where
  io_recvfrom-received :
      (io : ℕ) (h : IoHandler) (kind : ℕ) (bytes : List ℕ) (from : SockAddr) (now : ℕ × ℕ)
      (buflen : ℕ) (s : State D) (r : IsReceiving io h kind bytes from now s)
      → length bytes ≤ buflen
      → io_recvfrom io buflen s
        ≡ done (
          (pos (length bytes), bytes, some from),
          record s { user = record (s.user) { recvs = r.later_recvs; peers = r.later_peers } },
        )
  unfolding io_recvfrom udp_recvfrom load_io sys_recv recv_loop next_peer written_peer
  io_recvfrom-received io h kind bytes from now buflen s r room =
      ground (arith, take-all buflen bytes room, r.handler, r.recvfrom, r.datagram, r.sender)

  io_sendto-sent :
      (io : ℕ) (h : IoHandler) (kind : ℕ) (buffer : List ℕ) (to : Option SockAddr) (len n : ℕ)
      (sends : List SendReply) (s : State D)
      → s.user.ios io ≡ some (udp_handler h kind)
      → h.sendto ≡ some udp
      → s.user.sends ≡ sent n ∷ sends
      → io_sendto io buffer to len s
        ≡ done (
          pos n,
          record s {
            user = record (s.user) {
              sends = sends;
              sent_datagrams = s.user.sent_datagrams ++ (h.fd, take n buffer, to, len) ∷ [];
            };
          },
        )
  unfolding io_sendto udp_sendto load_io sys_sendto Syscalls.send_loop
  io_sendto-sent io h kind buffer to len n sends s handler slot next = ground arith

  module _ (F : DoubleOps D) (memory : Conn D) where
    -- Where a UDP server's connection list stands for distinct known addresses, and the system
    -- delivers a datagram that fits the buffer and starts with a package's bytes, a reading of the
    -- clock, and a send that accepts 20 bytes, the server sends exactly one datagram, the
    -- acknowledgement with the package's timestamp and no delay, from its own descriptor to the
    -- address that the datagram came from, with that address's length of 16; nothing goes out by
    -- `send`, and its connection list stands for the known addresses and the sender's.
    pub connection_udp_accept-replies :
        (io : ℕ) (h : IoHandler) (kind : ℕ) (p : QosHdr) (rest : List ℕ) (from : SockAddr)
        (now : ℕ × ℕ) (known : List SockAddr) (s : State D)
        → IsReceiving io h kind (encode p ++ rest) from now s
        → p.timestamp < 2 ^ 32
        → length (encode p ++ rest) ≤ recv_buffer_len
        → PeerList s.user.conns s.user.brk s.user.conn_hdr known
        → DistinctAddrs known
        → (t : State D) × (connection_udp_accept F memory io s ≡ done (tt, t))
          × (t.user.sent_datagrams
              ≡ s.user.sent_datagrams ++ (h.fd, encode (datagram_reply p now), some from, 16) ∷ [])
          × (t.user.wire ≡ s.user.wire)
          × PeerList t.user.conns t.user.brk t.user.conn_hdr (add_addr from known)
          × DistinctAddrs (add_addr from known)
    unfolding connection_udp_accept create_ack_package
    connection_udp_accept-replies io h kind p rest from now known s r fits room peers d =
        let s1 : State D = record s {
          user = record (s.user) { recvs = r.later_recvs; peers = r.later_peers };
        } in
        let (n, c, brk, conns, conn_hdr, made, there, same, peers', d') =
          peer_connection-add_addr F memory from known s1 peers d in
        let s2 : State D = record s1 {
          user = record (s1.user) { brk = brk; conns = conns; conn_hdr = conn_hdr };
        } in
        let s3 : State D = record s2 { user = record (s2.user) { clock = r.later_clock } } in
        let t : State D = record s3 {
          user = record (s3.user) {
            sends = r.later_sends;
            sent_datagrams =
                s.user.sent_datagrams ++ (h.fd, encode (datagram_reply p now), some from, 16) ∷ [];
          };
        } in
        (
          t,
          ground (
            arith,
            io_recvfrom-received io h kind (encode p ++ rest) from now recv_buffer_len s r room,
            length-encode p rest,
            made,
            append_assoc (encode p) rest s.user.junk,
            read_u32-encode p (rest ++ s.user.junk) fits,
            read_clock-at now r.later_clock s2 r.tick,
            io_sendto-sent io h kind (encode (datagram_reply p now)) (some from) 16 20 r.later_sends
                s3 r.handler r.sendto r.accepted,
            datagram_bytes p now,
          ),
          refl,
          refl,
          peers',
          d',
        )
