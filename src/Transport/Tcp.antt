-- ===== src/Transport/Tcp.antt =====
-- 04-30_nwchecker_refactor/nwc_tcp_handler.c without its event handlers (see Input).
use Prim.Native.Nat.{bit_or}
use imooc_sock_core_tech.Prelude.{
  ℕ, Bool, true, false, Option, none, some, List, ◌==◌, if◌then◌else◌,
}
use imooc_sock_core_tech.Prelude.Int.{ℤ, pos, negsuc, neg}
use imooc_sock_core_tech.Types.{em_read, em_write, em_all, einprogress}
use imooc_sock_core_tech.Outcome.{done}
use imooc_sock_core_tech.Loop.{EpollCtl}
use imooc_sock_core_tech.Loop.Api.{
  looper_add_handler, looper_remove_handler, looper_register_event, looper_cancel_event,
}
use imooc_sock_core_tech.Sock.{
  Resolver, af_inet, sock_stream, sock_listen, sock_connect, in_progress,
}
use imooc_sock_core_tech.Io.{
  IoHandler, tcp_handler, TcpState, nts_closed, nts_listen, nts_connecting, nts_established,
  udp_handler,
}
use imooc_sock_core_tech.World.{
  Cmd, pure, failing, ◌>>=◌, ◌>>◌, load_io, store_io, malloc, close_fd,
}
use imooc_sock_core_tech.Transport.Syscalls.{sys_recv, sys_send}

-- What the network offers: name resolution, and whether `listen` succeeds.
pub record Net : Type 0 where
  pub resolve : Resolver
  pub listen_ok : Bool

-- The state, the events to wait for and the result, `none` for an error.
unfoldable pub connect_state : (rc : ℤ) → Option (TcpState × ℕ × ℤ)
connect_state (negsuc n) = none
connect_state (pos rc) =
    if rc == 0
    then some (nts_established, em_read, pos 0)
    else if in_progress rc
    then some (nts_connecting, bit_or em_read em_write, neg einprogress)
    else none

-- The descriptor variable, which starts at -1.
abbrev pub fd_or : Option ℕ → ℤ
fd_or none = negsuc 0
fd_or (some fd) = pos fd

module _ {D : Type 0} where
  unfoldable pub tcp_recv : (io buflen : ℕ) → Cmd D (ℤ × List ℕ)
  tcp_recv io buflen = do handler ← load_io io; sys_recv true buflen

  unfoldable pub tcp_send : (io : ℕ) (buffer : List ℕ) → Cmd D ℤ
  tcp_send io buffer = do
    handler ← load_io io
    elim handler [
      | udp_handler h kind ↦ failing
      | tcp_handler h state ↦ do
        r ← sys_send h.fd buffer
        if r.1
            then (do store_io io (tcp_handler (record h { can_send = false }) state); pure r.0)
            else pure r.0
    ]

module _ {D : Type 0} (ctl : EpollCtl) where
  -- Adds the handler to its looper, keeps the handle in it, and registers the events.
  unfoldable pub attach : (io : ℕ) → IoHandler → TcpState → (events : ℕ) → Cmd D (Unit {0})
  attach io h state events = do
    store_io io (tcp_handler h state)
    entry ← malloc
    hh ← λ s. done (looper_add_handler ctl h.looper (some entry) (some io) h.fd s)
    store_io io (tcp_handler (record h { h_handle = hh }) state)
    rc ← looper_register_event ctl h.looper hh events
    pure tt

  unfoldable pub tcp_listen : Net → (io port : ℕ) → Cmd D ℤ
  tcp_listen net io port = do
    handler ← load_io io
    elim handler [
      | udp_handler h kind ↦ failing
      | tcp_handler h state ↦
          elim (sock_listen net.resolve net.listen_ok af_inet sock_stream port).0 [
            | none ↦ pure (negsuc 0)
            | some fd ↦ do
              attach io (record h { handle_output = none; fd = pos fd }) nts_listen em_read
              pure (pos 0)
          ]
    ]

  unfoldable pub tcp_connect : Net → (io port : ℕ) → Cmd D ℤ
  tcp_connect net io port = do
    handler ← load_io io
    elim handler [
      | udp_handler h kind ↦ failing
      | tcp_handler h state ↦
          let result = sock_connect net.resolve port in
          elim (connect_state result.0) [
            | none ↦ pure result.0
            | some (state', events, rc) ↦ do
              attach io (record h { fd = fd_or result.1 }) state' events
              pure rc
          ]
    ]

  unfoldable pub tcp_accept : (io : ℕ) (fd : ℤ) → Cmd D ℤ
  tcp_accept io fd = do
    handler ← load_io io
    elim handler [
      | udp_handler h kind ↦ failing
      | tcp_handler h state ↦ do
        attach io (record h { fd = fd }) state em_read
        handler' ← load_io io
        elim handler' [
          | udp_handler h' kind ↦ failing
          | tcp_handler h' state' ↦ do store_io io (tcp_handler h' nts_established); pure (pos 0)
        ]
    ]

  -- Closing a closed handler does nothing.
  unfoldable pub tcp_close : (io : ℕ) → Cmd D ℤ
  tcp_close io = do
    handler ← load_io io
    elim handler [
      | udp_handler h kind ↦ failing
      | tcp_handler h nts_closed ↦ pure (pos 0)
      | tcp_handler h _ ↦ do
        store_io io (tcp_handler h nts_closed)
        c ← looper_cancel_event ctl h.looper h.h_handle em_all
        r ← looper_remove_handler ctl h.looper h.h_handle
        close_fd h.fd
        store_io io (tcp_handler (record h { fd = negsuc 0 }) nts_closed)
        pure (pos 0)
    ]
