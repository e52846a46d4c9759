-- ===== src/Transport/Api.antt =====
-- The `nwc_io_…` functions of 04-30_nwchecker_refactor/nwc.c: calls through the function pointers
-- of a handler. A call through NULL is a fault.
use imooc_sock_core_tech.Prelude.{ℕ, Bool, Option, none, some, List, ◌==◌, if◌then◌else◌}
use imooc_sock_core_tech.Prelude.Int.{ℤ, pos}
use imooc_sock_core_tech.Types.{NwcHandle, invalid_handle, nwc_proto_tcp}
use imooc_sock_core_tech.Loop.{EpollCtl}
use imooc_sock_core_tech.Io.{
  Proto, tcp, udp, IoHandler, parent, set_parent, tcp_handler_init, udp_handler_init,
}
use imooc_sock_core_tech.World.{
  SockAddr, Cmd, pure, failing, ◌>>=◌, ◌>>◌, load_io, store_io, free_io, malloc, of_option,
}
use imooc_sock_core_tech.Transport.Tcp.{Net, tcp_listen, tcp_connect, tcp_recv, tcp_send, tcp_close}
use imooc_sock_core_tech.Transport.Udp.{
  udp_listen, udp_connect, udp_recv, udp_recvfrom, udp_send, udp_sendto, udp_close,
}

-- Which function a slot of the handler at `io` points to.
abbrev pub slot : {D : Type 0} → (IoHandler → Option Proto) → (io : ℕ) → Cmd D Proto
slot field io = load_io io >>= λ h. of_option (field (parent h))

module _ {D : Type 0} where
  unfoldable pub io_can_send : (io : ℕ) → Cmd D Bool
  io_can_send io = do h ← load_io io; pure (parent h).can_send

  unfoldable pub io_get_looper : (io : ℕ) → Cmd D NwcHandle
  io_get_looper io = do h ← load_io io; pure (parent h).looper

  -- `op` is `none` for NULL, and `kind` is what `malloc` left in the type of a UDP handler.
  unfoldable pub io_create : NwcHandle → (op : Option ℕ) → (prototype kind : ℕ) → Cmd D NwcHandle
  io_create none op prototype kind = pure invalid_handle
  io_create (some looper) none prototype kind = pure invalid_handle
  io_create (some looper) (some op) prototype kind = do
    io ← malloc
    let h = if prototype == nwc_proto_tcp then tcp_handler_init else udp_handler_init kind
    store_io io (set_parent (record (parent h) { ioop = some op; looper = some looper }) h)
    pure (some io)

  unfoldable pub io_recv : (io buflen : ℕ) → Cmd D (ℤ × List ℕ)
  io_recv io buflen = do
    p ← slot (λ h. h.recv) io
    elim p [ tcp ↦ tcp_recv io buflen | udp ↦ udp_recv io buflen ]

  unfoldable pub io_recvfrom : (io buflen : ℕ) → Cmd D (ℤ × List ℕ × Option SockAddr)
  io_recvfrom io buflen = do
    p ← slot (λ h. h.recvfrom) io
    elim p [ tcp ↦ failing | udp ↦ udp_recvfrom io buflen ]

  unfoldable pub io_send : (io : ℕ) (buffer : List ℕ) → Cmd D ℤ
  io_send io buffer = do
    p ← slot (λ h. h.send) io
    elim p [ tcp ↦ tcp_send io buffer | udp ↦ udp_send io buffer ]

  unfoldable pub io_sendto :
      (io : ℕ) (buffer : List ℕ) (toaddr : Option SockAddr) (toaddrlen : ℕ) → Cmd D ℤ
  io_sendto io buffer toaddr toaddrlen = do
    p ← slot (λ h. h.sendto) io
    elim p [ tcp ↦ failing | udp ↦ udp_sendto io buffer toaddr toaddrlen ]

  module _ (ctl : EpollCtl) where
    unfoldable pub io_listen : Net → (io port : ℕ) → Cmd D ℤ
    io_listen net io port = do
      p ← slot (λ h. h.listen) io
      elim p [ tcp ↦ tcp_listen ctl net io port | udp ↦ udp_listen ctl net io port ]

    unfoldable pub io_connect : Net → (io port : ℕ) → Cmd D ℤ
    io_connect net io port = do
      p ← slot (λ h. h.connect) io
      elim p [ tcp ↦ tcp_connect ctl net io port | udp ↦ udp_connect ctl net io port ]

    -- Closes and frees the handler.
    unfoldable pub io_close : (io : ℕ) → Cmd D ℤ
    io_close io = do
      p ← slot (λ h. h.close) io
      rc ← elim p [ tcp ↦ tcp_close ctl io | udp ↦ udp_close ctl io ]
      free_io io
      pure (pos 0)
