-- ===== src/Transport/Udp.antt =====
-- 04-30_nwchecker_refactor/nwc_udp_handler.c without its event handlers (see Input).
use imooc_sock_core_tech.Prelude.{ℕ, zero, false, Option, none, some, List, [], ◌∷◌}
use imooc_sock_core_tech.Prelude.Int.{ℤ, pos, negsuc}
use imooc_sock_core_tech.Types.{em_read, em_all}
use imooc_sock_core_tech.Outcome.{done, hang}
use imooc_sock_core_tech.Loop.{EpollCtl}
use imooc_sock_core_tech.Loop.Api.{
  looper_add_handler, looper_remove_handler, looper_register_event, looper_cancel_event,
}
use imooc_sock_core_tech.Sock.{af_inet, sock_dgram, sock_listen, sock_connect}
use imooc_sock_core_tech.Io.{IoHandler, tcp_handler, udp_handler, udp_server, udp_client}
use imooc_sock_core_tech.World.{
  SockAddr, Cmd, pure, failing, ◌>>=◌, ◌>>◌, load_io, store_io, malloc, close_fd,
}
use imooc_sock_core_tech.Transport.Syscalls.{sys_recv, sys_sendto}
use imooc_sock_core_tech.Transport.Tcp.{Net, fd_or}

module _ {D : Type 0} where
  -- The address that `recvfrom` writes.
  unfoldable pub next_peer : Cmd D SockAddr
  next_peer s = elim (s.user.peers) [
    | [] ↦ hang
    | a ∷ rest ↦ done (a, record s { user = record (s.user) { peers = rest } })
  ]

  -- With `from` as NULL.
  unfoldable pub udp_recv : (io buflen : ℕ) → Cmd D (ℤ × List ℕ)
  udp_recv io buflen = do handler ← load_io io; sys_recv false buflen

  -- The address is written only where `recvfrom` succeeds.
  unfoldable pub written_peer : (rc : ℤ) → Cmd D (Option SockAddr)
  unfolding next_peer
  written_peer (pos n) = do from ← next_peer; pure (some from)
  written_peer (negsuc n) = pure none

  -- The result, the bytes, and what is written through `fromaddr`.
  unfoldable pub udp_recvfrom : (io buflen : ℕ) → Cmd D (ℤ × List ℕ × Option SockAddr)
  unfolding written_peer
  udp_recvfrom io buflen = do
    handler ← load_io io
    r ← sys_recv false buflen
    from ← written_peer r.0
    pure (r.0, r.1, from)

  -- `toaddr` is `none` for NULL.
  unfoldable pub udp_sendto :
      (io : ℕ) (buffer : List ℕ) (toaddr : Option SockAddr) (toaddrlen : ℕ) → Cmd D ℤ
  udp_sendto io buffer toaddr toaddrlen = do
    handler ← load_io io
    elim handler [
      | tcp_handler h state ↦ failing
      | udp_handler h kind ↦ do r ← sys_sendto h.fd buffer toaddr toaddrlen; pure r.0
    ]

  unfoldable pub udp_send : (io : ℕ) (buffer : List ℕ) → Cmd D ℤ
  udp_send io buffer = udp_sendto io buffer none 0

  module _ (ctl : EpollCtl) where
    unfoldable pub udp_attach :
        (io : ℕ) → IoHandler → (kind : ℕ) → (old_kind : ℕ) → Cmd D (Unit {0})
    udp_attach io h kind old_kind = do
      store_io io (udp_handler h old_kind)
      entry ← malloc
      hh ← λ s. done (looper_add_handler ctl h.looper (some entry) (some io) h.fd s)
      store_io io (udp_handler (record h { h_handle = hh }) old_kind)
      rc ← looper_register_event ctl h.looper hh em_read
      store_io io (udp_handler (record h { h_handle = hh }) kind)

    unfoldable pub udp_listen : Net → (io port : ℕ) → Cmd D ℤ
    udp_listen net io port = do
      handler ← load_io io
      elim handler [
        | tcp_handler h state ↦ failing
        | udp_handler h kind ↦
            elim (sock_listen net.resolve net.listen_ok af_inet sock_dgram port).0 [
              | none ↦ pure (negsuc 0)
              | some fd ↦ do
                udp_attach io (record h { handle_output = none; fd = pos fd }) udp_server kind
                pure (pos 0)
            ]
      ]

    unfoldable pub udp_connect : Net → (io port : ℕ) → Cmd D ℤ
    udp_connect net io port = do
      handler ← load_io io
      elim handler [
        | tcp_handler h state ↦ failing
        | udp_handler h kind ↦
            let result = sock_connect net.resolve port in
            elim (result.0) [
              | pos zero ↦ do
                udp_attach io (record h { fd = fd_or result.1 }) udp_client kind
                pure (pos 0)
              | rc ↦ pure rc
            ]
      ]

    -- There is no test whether the handler is closed already.
    unfoldable pub udp_close : (io : ℕ) → Cmd D ℤ
    udp_close io = do
      handler ← load_io io
      elim handler [
        | tcp_handler h state ↦ failing
        | udp_handler h kind ↦ do
          c ← looper_cancel_event ctl h.looper h.h_handle em_all
          r ← looper_remove_handler ctl h.looper h.h_handle
          close_fd h.fd
          store_io io (udp_handler (record h { fd = negsuc 0 }) kind)
          pure (pos 0)
      ]
