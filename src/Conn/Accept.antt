-- ===== src/Conn/Accept.antt =====
-- `nwc_connection_udp_accept` of 04-30_nwchecker_refactor/nwc_connection.c.
use imooc_sock_core_tech.Prelude.{ℕ, Option, none, some, ◌++◌, if◌then◌else◌}
use imooc_sock_core_tech.Prelude.Int.{nonpositive}
use imooc_sock_core_tech.Qos.{DoubleOps, create_ack_package}
use imooc_sock_core_tech.Wire.{encode, read_u32}
use imooc_sock_core_tech.World.{
  SockAddr, Conn, Cmd, pure, ◌>>=◌, ◌>>◌, get, of_option, store_conn, malloc, read_clock,
}
use imooc_sock_core_tech.Transport.Api.{io_recvfrom, io_sendto}
use imooc_sock_core_tech.Conn.{recv_buffer_len, connection_init, get_connection, add_nwc_tail}

-- `cliaddr` and `cliaddrlen` behind `nwc_io_recvfrom`: a zeroed `sockaddr_storage` of 128 bytes, or the
-- 16 bytes of a `sockaddr_in`.
abbrev pub cliaddr_of : Option SockAddr → SockAddr × ℕ
cliaddr_of none = (record { sin_port = 0; s_addr = 0 }, 128)
cliaddr_of (some from) = (from, 16)

module _ {D : Type 0} (F : DoubleOps D) (memory : Conn D) where
  -- The connection of a peer, made where there is none. `memory` is what `malloc` left.
  unfoldable pub peer_connection : SockAddr → Cmd D ℕ
  peer_connection from = do
    w ← get
    found ← get_connection w.conn_hdr from
    elim found [
      | some nwc ↦ pure nwc
      | none ↦ do
        nwc ← malloc
        store_conn nwc (record (connection_init F nwc w.cfg memory) { cliaddr = from })
        add_nwc_tail nwc
        pure nwc
    ]

  -- The stack behind the bytes received holds `junk`.
  unfoldable pub connection_udp_accept : (handle : ℕ) → Cmd D (Unit {0})
  connection_udp_accept handle = do
    r ← io_recvfrom handle recv_buffer_len
    if nonpositive r.0 then pure tt else (do
      let cliaddr = cliaddr_of r.2
      nwc ← peer_connection cliaddr.0
      w ← get
      word ← of_option (read_u32 (r.1 ++ w.junk))
      let ack = create_ack_package F 0 word.0
      nowms ← read_clock
      rc ←
          io_sendto handle (encode (record ack { recv_delay = 0; timestamp = nowms }))
            (some cliaddr.0) cliaddr.1
      pure tt)
